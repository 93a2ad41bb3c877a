-- ===== src/Credentials/RoundTrip.antt =====
-- internal/credentials/service.go: what `Get` finds after the writes, over stores in memory.
use ai4se_coding_agent_harne.Prelude.{
  String, ◌≡◌, refl, sym, ap, ◌∙◌, Option, none, some, List, [], ◌∷◌, Result, ok, err, arith,
}
use ai4se_coding_agent_harne.Domain.{Time}
use ai4se_coding_agent_harne.Text.{Text, text_eq, text_eq_refl, text_eq_iff}
use ai4se_coding_agent_harne.Credentials.{
  CredentialError, not_found, invalid_credential, other, Secret, Ref, Parsers, normalize_ref,
  new_memory_store,
}
use ai4se_coding_agent_harne.Credentials.Service
use ai4se_coding_agent_harne.Credentials.Stores.{
  Stores, Call, adds, updates, clears, Held, held, Exclusive, read_at, both, serve, read,
  second_identity, first_identity, identity, spec,
}
use ai4se_coding_agent_harne.Credentials.Refinement.{read_refines, read_refused, serve-Agrees}

unfoldable pub empty_stores : Stores
unfolding new_memory_store
empty_stores = record { first = new_memory_store; second = new_memory_store }

-- The reference of a call, and what a read finds under it once the call succeeded.
abbrev pub target : Call → Ref
target (adds ref _) = ref
target (updates ref _) = ref
target (clears ref) = ref

abbrev pub left_by : Call → Result CredentialError Secret
left_by (adds _ secret) = ok secret
left_by (updates _ secret) = ok secret
left_by (clears _) = err not_found

module _ (p : Parsers) (ctx : Option String) (now : Time) where
  read_identity :
      (w : Stores) (n : Ref) (c : Option String) (r : Result CredentialError Ref)
      → Exclusive w
      → ctx ≡ c
      → normalize_ref p n ≡ r
      → (Service.get_normalized (both p ctx now) n w).0
        ≡ read_at (second_identity p ctx now c r) (held w)
  read_identity w n (some e) r x c q =
      ap (λ x. x.0)
        (read_refused p ctx now w n (other e) x
          (ap (λ c. second_identity p ctx now c (normalize_ref p n)) c))
  read_identity w n none (err e) x c q =
      ap (λ x. x.0)
        (read_refused p ctx now w n invalid_credential x (
          ap (λ c. second_identity p ctx now c (normalize_ref p n)) c
          ∙ ap (second_identity p ctx now none) q))
  read_identity w n none (ok m) x c q = read_refines p ctx now w n m x c q

  read_first :
      (w : Stores) (r : Result CredentialError Ref)
      → Exclusive w
      → (Service.with_ref r err (Service.get_normalized (both p ctx now)) w).0
        ≡ read_at (first_identity p ctx now r) (held w)
  read_first w (err e) x = refl
  read_first w (ok n) x = read_identity w n ctx (normalize_ref p n) x refl refl

  -- A read finds what the map of the two stores holds for the identity of the reference.
  pub read_lem :
      (w : Stores) (ref : Ref)
      → Exclusive w
      → (read p ctx now ref w).0 ≡ read_at (identity p ctx now ref) (held w)
  unfolding Service.get
  read_lem w ref x = read_first w (normalize_ref p ref) x

  -- The stores after a sequence of calls.
  abbrev pub served : List Call → Stores → Stores
  served [] w = w
  served (c ∷ cs) w = served cs (serve p ctx now c w).1

  pub served-Exclusive : (cs : List Call) (w : Stores) → Exclusive w → Exclusive (served cs w)
  served-Exclusive [] w x = x
  served-Exclusive (c ∷ cs) w x =
      served-Exclusive cs (serve p ctx now c w).1 (serve-Agrees p ctx now w c x).2

  -- A call that succeeded has an identity, and its map holds the call's value there.
  spec_left :
      (c : Call) (h : Held) (r : Result CredentialError Text)
      → identity p ctx now (target c) ≡ r
      → (spec p ctx now c h).0 ≡ none
      → read_at r (spec p ctx now c h).1 ≡ left_by c
  spec_left (adds ref secret) h (err e) q s = ground (arith, q)
  spec_left (adds ref secret) h (ok key) q s = ground (arith, q, text_eq_refl key)
  spec_left (updates ref secret) h (err e) q s = ground (arith, q)
  spec_left (updates ref secret) h (ok key) q s = ground (arith, q, text_eq_refl key)
  spec_left (clears ref) h (err e) q s = ground (arith, q)
  spec_left (clears ref) h (ok key) q s = ground (arith, q, text_eq_refl key)

  read_held :
      (r : Result CredentialError Text) (h h' : Held)
      → ((id : Text) → h id ≡ h' id)
      → read_at r h ≡ read_at r h'
  read_held (err e) h h' same = refl
  read_held (ok key) h h' same = ground (arith, same key)

  -- After any calls on two new stores in memory, once a call succeeds, a read of its reference gives
  -- the secret that the call wrote, and reports `not_found` where the call was a clear.
  pub read-serve :
      (cs : List Call) (c : Call)
      → (serve p ctx now c (served cs empty_stores)).0 ≡ none
      → (read p ctx now (target c) (serve p ctx now c (served cs empty_stores)).1).0 ≡ left_by c
  unfolding ai4se_coding_agent_harne.Text.Keyed.find empty_stores
  read-serve cs c s =
      let w = served cs empty_stores in
      let x : Exclusive w = served-Exclusive cs empty_stores (λ id. refl) in
      let agrees = serve-Agrees p ctx now w c x in
      let id = identity p ctx now (target c) in
      read_lem (serve p ctx now c w).1 (target c) agrees.2
      ∙ read_held id (held (serve p ctx now c w).1) (spec p ctx now c (held w)).1 agrees.1
      ∙ spec_left c (held w) id refl (sym agrees.0 ∙ s)
