-- ===== src/Credentials/Refinement.antt =====
-- internal/credentials/service.go over two stores in memory: it serves one map from references to
-- secrets, whichever store holds them.
use ai4se_coding_agent_harne.Prelude.{
  String, ◌≡◌, refl, sym, ap, subst, ◌∙◌, inl, inr, Bool-cases, true, Option, none, some,
  if◌then◌else◌, Result, ok, err, arith,
}
use ai4se_coding_agent_harne.Store.{to_utc}
use ai4se_coding_agent_harne.Domain.{Time}
use ai4se_coding_agent_harne.Text.{Text, text_eq_iff}
use ai4se_coding_agent_harne.Text.Keyed.{find-store, find-remove}
use ai4se_coding_agent_harne.Credentials.{
  CredentialError, invalid_credential, other, Secret, Ref, Parsers, MemoryRecord, normalize_ref,
  ref_identity, valid_secret, context_error, set, get, delete, status,
}
use ai4se_coding_agent_harne.Credentials.Service
use ai4se_coding_agent_harne.Credentials.Service.{Service}
use ai4se_coding_agent_harne.Credentials.Stores.{
  Stores, Call, adds, updates, clears, Held, held, Exclusive, added, updated, dropped, at_identity,
  read_at, both, serve, second_identity, first_identity, spec, Agrees,
}

module _ (p : Parsers) (ctx : Option String) (now : Time) where
  abbrev two : Service Stores
  two = both p ctx now

  module _ (w : Stores) (n m : Ref) (exclusive : Exclusive w) (active : ctx ≡ none)
      (again : normalize_ref p n ≡ ok m) where
    abbrev key : Text
    key = ref_identity m

    adds_refine :
        (secret : Secret)
        → valid_secret secret ≡ true
        → Agrees (Service.add_normalized two n secret w) (added (held w key) key secret (held w))
    unfolding Service.add_normalized set status context_error
    adds_refine secret v = (
      ground (arith, exclusive key),
      λ id. ground (
        arith,
        exclusive key,
        find-store key id (record { secret = secret; updated_at = to_utc now }) w.first.records,
        text_eq_iff key id,
      ),
      λ id. ground (
        arith,
        exclusive key,
        exclusive id,
        find-store key id (record { secret = secret; updated_at = to_utc now }) w.first.records,
        text_eq_iff key id,
      ),
    )

    updates_refine :
        (secret : Secret)
        → valid_secret secret ≡ true
        → Agrees
            (Service.update_normalized two n secret w)
            (updated (held w key) key secret (held w))
    unfolding Service.update_normalized set status context_error
    updates_refine secret v =
        let kept : MemoryRecord = record { secret = secret; updated_at = to_utc now } in
        (
          ground (arith, exclusive key),
          λ id. ground (
            arith,
            exclusive key,
            exclusive id,
            find-store key id kept w.first.records,
            find-store key id kept w.second.records,
            text_eq_iff key id,
          ),
          λ id. ground (
            arith,
            exclusive key,
            exclusive id,
            find-store key id kept w.first.records,
            find-store key id kept w.second.records,
            text_eq_iff key id,
          ),
        )

    clears_refine : Agrees (Service.clear_normalized two n w) (dropped (held w key) key (held w))
    unfolding Service.clear_normalized delete status context_error
    clears_refine = (
      ground (arith, exclusive key),
      λ id. ground (
        arith,
        exclusive key,
        exclusive id,
        find-remove key id w.first.records,
        find-remove key id w.second.records,
        text_eq_iff key id,
      ),
      λ id. ground (
        arith,
        exclusive key,
        exclusive id,
        find-remove key id w.first.records,
        find-remove key id w.second.records,
        text_eq_iff key id,
      ),
    )

    pub read_refines : (Service.get_normalized two n w).0 ≡ read_at (ok key) (held w)
    unfolding Service.get_normalized get status context_error
    read_refines = ground (arith, exclusive key)

  -- A reference that has no identity: two stores refuse, and nothing changes.
  module _ (w : Stores) (n : Ref) (e : CredentialError) (exclusive : Exclusive w)
      (refuses : second_identity p ctx now ctx (normalize_ref p n) ≡ err e) where
    adds_refused : (secret : Secret) → Service.add_normalized two n secret w ≡ (some e, w)
    unfolding Service.add_normalized set status context_error
    adds_refused secret = ground (arith, refuses)

    updates_refused : (secret : Secret) → Service.update_normalized two n secret w ≡ (some e, w)
    unfolding Service.update_normalized set status context_error
    updates_refused secret = ground (arith, refuses)

    clears_refused : Service.clear_normalized two n w ≡ (some e, w)
    unfolding Service.clear_normalized delete status context_error
    clears_refused = ground (arith, refuses)

    pub read_refused : Service.get_normalized two n w ≡ (err e, w)
    unfolding Service.get_normalized get status context_error
    read_refused = ground (arith, refuses)

  unchanged : (w : Stores) (e : CredentialError) → Exclusive w → Agrees (some e, w) (some e, held w)
  unchanged w e x = (refl, λ id. refl, x)

  by_identity :
      (w : Stores) (n : Ref) (outcome : Option CredentialError × Stores)
      (f : Text → Option CredentialError × Held)
      → Exclusive w
      → ((m : Ref) → ctx ≡ none → normalize_ref p n ≡ ok m → Agrees outcome (f (ref_identity m)))
      → ((e : CredentialError)
          → second_identity p ctx now ctx (normalize_ref p n) ≡ err e
          → outcome ≡ (some e, w))
      → (c : Option String) (r : Result CredentialError Ref) → ctx ≡ c
      → normalize_ref p n ≡ r
      → Agrees outcome (at_identity (second_identity p ctx now c r) f (held w))
  by_identity w n outcome f x accepted refused (some e) r c q =
      subst (λ o. Agrees o (some (other e), held w))
        (sym (refused (other e) (ap (λ c. second_identity p ctx now c (normalize_ref p n)) c)))
        (unchanged w (other e) x)
  by_identity w n outcome f x accepted refused none (err e) c q =
      subst (λ o. Agrees o (some invalid_credential, held w))
        (sym (
          refused invalid_credential (
            ap (λ c. second_identity p ctx now c (normalize_ref p n)) c
            ∙ ap (second_identity p ctx now none) q)))
        (unchanged w invalid_credential x)
  by_identity w n outcome f x accepted refused none (ok m) c q = accepted m c q

  -- A write with a secret, once its reference is normalized.
  with_secret_refines :
      (w : Stores) (secret : Secret) (write : Ref → Stores → Option CredentialError × Stores)
      (f : Text → Option CredentialError × Held)
      → Exclusive w
      → ((n m : Ref)
          → valid_secret secret ≡ true
          → ctx ≡ none
          → normalize_ref p n ≡ ok m
          → Agrees (write n w) (f (ref_identity m)))
      → ((n : Ref) (e : CredentialError)
          → second_identity p ctx now ctx (normalize_ref p n) ≡ err e
          → write n w ≡ (some e, w))
      → (r : Result CredentialError Ref)
      → Agrees (Service.with_secret r secret write w) (
          if valid_secret secret
          then at_identity (first_identity p ctx now r) f (held w)
          else (some invalid_credential, held w))
  with_secret_refines w secret write f x accepted refused (err e) =
      elim (Bool-cases (valid_secret secret)) [
        | inl v ↦ rw v (unchanged w invalid_credential x)
        | inr v ↦ rw v (unchanged w invalid_credential x)
      ]
  with_secret_refines w secret write f x accepted refused (ok n) =
      elim (Bool-cases (valid_secret secret)) [
        | inl v ↦ rw v (
            by_identity w n (write n w) f x (λ m. accepted n m v) (refused n) ctx
              (normalize_ref p n) refl refl)
        | inr v ↦ rw v (unchanged w invalid_credential x)
      ]

  clear_refines :
      (w : Stores)
      → Exclusive w
      → (r : Result CredentialError Ref)
      → Agrees (Service.with_ref r some (Service.clear_normalized two) w) (
          at_identity
            (first_identity p ctx now r)
            (λ key. dropped (held w key) key (held w))
            (held w))
  clear_refines w x (err e) = unchanged w invalid_credential x
  clear_refines w x (ok n) =
      by_identity w n (Service.clear_normalized two n w) (λ key. dropped (held w key) key (held w))
        x (λ m c q. clears_refine w n m x c q) (λ e. clears_refused w n e x) ctx (normalize_ref p n)
        refl refl

  -- Over two stores in memory that hold no identity twice, each call of the service gives the result
  -- that one map from identities to secrets gives, leaves what that map then holds, and no identity
  -- is held twice afterwards. So it is for invalid references and secrets and a cancelled context,
  -- where nothing changes.
  pub serve-Agrees :
      (w : Stores) (c : Call)
      → Exclusive w
      → Agrees (serve p ctx now c w) (spec p ctx now c (held w))
  unfolding Service.add Service.update Service.clear
  serve-Agrees w (adds ref secret) x =
      with_secret_refines w secret (λ n. Service.add_normalized two n secret)
        (λ key. added (held w key) key secret (held w)) x
        (λ n m v c q. adds_refine w n m x c q secret v) (λ n e q. adds_refused w n e x q secret)
        (normalize_ref p ref)
  serve-Agrees w (updates ref secret) x =
      with_secret_refines w secret (λ n. Service.update_normalized two n secret)
        (λ key. updated (held w key) key secret (held w)) x
        (λ n m v c q. updates_refine w n m x c q secret v)
        (λ n e q. updates_refused w n e x q secret) (normalize_ref p ref)
  serve-Agrees w (clears ref) x = clear_refines w x (normalize_ref p ref)
