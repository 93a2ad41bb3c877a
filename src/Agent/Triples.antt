-- ===== src/Agent/Triples.antt =====
-- Hoare triples for the steps of the loop: a precondition on the session, and one postcondition for
-- a result and one for an error.
use ai4se_coding_agent_harne.Prelude.{Bool, true, false, ◌≡◌, refl, Result, ok, err, if◌then◌else◌}
use mathlib.Core.Logic.{ite}
use ai4se_coding_agent_harne.Agent.Session.{
  AgentError, Session, Step, pure, ◌>>=◌, on_error, continue, handled,
}

module _ {W A : Type 0} where
  abbrev pub Post :
      (A → Session W → Type 0)
      → (AgentError → Session W → Type 0)
      → Result AgentError A × Session W
      → Type 0
  Post Q E (ok a, s) = Q a s
  Post Q E (err e, s) = E e s

  pub record Triple (P : Session W → Type 0) (m : Step W A) (Q : A → Session W → Type 0)
      (E : AgentError → Session W → Type 0) : Type 0 where
    pub at : (s : Session W) → P s → Post Q E (m s)

module _ {W A : Type 0} where
  Post-map :
      (E : AgentError → Session W → Type 0) (Q Q' : A → Session W → Type 0)
      (x : Result AgentError A × Session W)
      → ((a : A) (s : Session W) → Q a s → Q' a s)
      → Post Q E x
      → Post Q' E x
  Post-map E Q Q' (ok a, s) g q = g a s q
  Post-map E Q Q' (err e, s) g q = q

module _ {W A : Type 0} {E : AgentError → Session W → Type 0} where
  pub Triple-pure :
      {P : Session W → Type 0} (a : A) (Q : A → Session W → Type 0)
      → ((s : Session W) → P s → Q a s)
      → Triple P (pure a) Q E
  unfolding pure
  Triple-pure a Q h = record { at = h }

  pub Triple-if :
      {P : Session W → Type 0} {Q : A → Session W → Type 0} (b : Bool) (m n : Step W A)
      → (b ≡ true → Triple P m Q E)
      → (b ≡ false → Triple P n Q E)
      → Triple P (if b then m else n) Q E
  Triple-if true m n x y = x refl
  Triple-if false m n x y = y refl

  pub Triple-ite :
      {P : Session W → Type 0} {Q : A → Session W → Type 0} {T : Type 0} (d : Dec T)
      (m n : Step W A)
      → (T → Triple P m Q E)
      → (¬ T → Triple P n Q E)
      → Triple P (ite d m n) Q E
  Triple-ite (yes t) m n x y = x t
  Triple-ite (no t) m n x y = y t

  pub Triple-weaken :
      {P P' : Session W → Type 0} {Q Q' : A → Session W → Type 0} {m : Step W A}
      → Triple P m Q E
      → ((s : Session W) → P' s → P s)
      → ((a : A) (s : Session W) → Q a s → Q' a s)
      → Triple P' m Q' E
  Triple-weaken {Q = Q} {Q' = Q'} {m = m} t f g = record {
    at = λ s p. Post-map E Q Q' (m s) g (t.at s (f s p));
  }

module _ {W A B : Type 0} {E : AgentError → Session W → Type 0} where
  Post-continue :
      (Q : A → Session W → Type 0) (R : B → Session W → Type 0)
      (x : Result AgentError A × Session W) (f : A → Step W B)
      → Post Q E x
      → ((a : A) → Triple (Q a) (f a) R E)
      → Post R E (continue x.0 f x.1)
  Post-continue Q R (ok a, s) f q y = (y a).at s q
  Post-continue Q R (err e, s) f q y = q

  pub Triple-bind :
      {P : Session W → Type 0} {R : B → Session W → Type 0} (Q : A → Session W → Type 0)
      (m : Step W A) (f : A → Step W B)
      → Triple P m Q E
      → ((a : A) → Triple (Q a) (f a) R E)
      → Triple P (m >>= f) R E
  unfolding ◌>>=◌
  Triple-bind {R = R} Q m f x y = record { at = λ s p. Post-continue Q R (m s) f (x.at s p) y }

module _ {W A : Type 0} {E : AgentError → Session W → Type 0} where
  Post-handled :
      (Q : A → Session W → Type 0) (x : Result AgentError A × Session W)
      (handler : Session W → Session W)
      → ((e : AgentError) (s : Session W) → E e s → E e (handler s))
      → Post Q E x
      → Post Q E (handled x.0 handler x.1)
  Post-handled Q (ok a, s) handler h q = q
  Post-handled Q (err e, s) handler h q = h e s q

  pub Triple-on_error :
      {P : Session W → Type 0} {Q : A → Session W → Type 0} (m : Step W A)
      (handler : Session W → Session W)
      → Triple P m Q E
      → ((e : AgentError) (s : Session W) → E e s → E e (handler s))
      → Triple P (on_error m handler) Q E
  unfolding on_error
  Triple-on_error {Q = Q} m handler x h = record {
    at = λ s p. Post-handled Q (m s) handler h (x.at s p);
  }
