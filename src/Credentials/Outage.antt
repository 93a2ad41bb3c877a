-- ===== src/Credentials/Outage.antt =====
-- internal/credentials/service.go over a first store that may be out of order and a second one, both
-- in memory: which of the two is written, and which error is returned.
use ai4se_coding_agent_harne.Prelude.{
  ◌≡◌, refl, Bool, true, false, Option, none, some, if◌then◌else◌, ok, err, arith,
}
use ai4se_coding_agent_harne.Store.{to_utc}
use ai4se_coding_agent_harne.Domain.{Time}
use ai4se_coding_agent_harne.Text.{Text, text_eq_iff}
use ai4se_coding_agent_harne.Text.Keyed.{find, find-store, find-remove}
use ai4se_coding_agent_harne.Credentials.{
  CredentialError, not_found, already_configured, ambiguous_credential, unavailable, locked, Secret,
  Ref, Parsers, Backend, MemoryStore, MemoryRecord, zero_status, normalize_ref, ref_identity,
  valid_secret, context_error, set, delete, status,
}
use ai4se_coding_agent_harne.Credentials.Service
use ai4se_coding_agent_harne.Credentials.Service.{Service, fallback_eligible}
use ai4se_coding_agent_harne.Credentials.Stores.{
  Stores, Call, adds, updates, clears, Held, put, first_store, second_store,
}

-- A store whose every operation fails with one error.
abbrev failing : CredentialError → Backend Stores
failing e = record {
  set = λ ref secret w. (some e, w);
  get = λ ref w. (err e, w);
  delete = λ ref w. (some e, w);
  status = λ ref w. ((zero_status, some e), w);
}

-- What a store in memory holds for an identity.
abbrev secret_in : Option MemoryRecord → Option Secret
secret_in none = none
secret_in (some r) = some r.secret

abbrev pub kept : MemoryStore → Held
kept s id = secret_in (find id s.records)

-- The errors of a store that cannot be asked now: the second store serves in its place.
abbrev is_outage : CredentialError → Bool
is_outage unavailable = true
is_outage locked = true
is_outage e = false

-- An error of a deletion, which finds nothing to delete where there is nothing.
abbrev reported : CredentialError → Option CredentialError
reported not_found = none
reported e = some e

abbrev Maps : Type 0
Maps = Held × Held

-- The call on a first map that `health` says is out of order, and on a second one, where they hold
-- `a` and `b` for the identity.
module _ (key : Text) (h1 h2 : Held) where
  abbrev Answer : Type 0
  Answer = Option CredentialError × Maps

  abbrev unchanged : CredentialError → Answer
  unchanged e = (some e, (h1, h2))

  abbrev in_second : CredentialError → Answer → Answer
  in_second e answer = if is_outage e then answer else unchanged e

  abbrev on_add : Option CredentialError → Option Secret → Option Secret → Secret → Answer
  on_add none none none secret = (none, (put key (some secret) h1, h2))
  on_add none none (some b) secret = unchanged already_configured
  on_add none (some a) b secret = unchanged already_configured
  on_add (some e) a none secret = in_second e (none, (h1, put key (some secret) h2))
  on_add (some e) a (some b) secret = in_second e (unchanged already_configured)

  abbrev on_update : Option CredentialError → Option Secret → Option Secret → Secret → Answer
  on_update none none none secret = unchanged not_found
  on_update none none (some b) secret = (none, (h1, put key (some secret) h2))
  on_update none (some a) none secret = (none, (put key (some secret) h1, h2))
  on_update none (some a) (some b) secret = unchanged ambiguous_credential
  on_update (some e) a none secret = unchanged e
  on_update (some e) a (some b) secret = in_second e (none, (h1, put key (some secret) h2))

  abbrev on_clear : Option CredentialError → Option Secret → Option Secret → Answer
  on_clear none none none = unchanged not_found
  on_clear none none (some b) = (none, (put key none h1, put key none h2))
  on_clear none (some a) b = (none, (put key none h1, put key none h2))
  on_clear (some e) a b = (reported e, (h1, put key none h2))

  abbrev pub answer : Option CredentialError → Call → Answer
  answer health (adds ref secret) = on_add health (h1 key) (h2 key) secret
  answer health (updates ref secret) = on_update health (h1 key) (h2 key) secret
  answer health (clears ref) = on_clear health (h1 key) (h2 key)

-- The outcome of a call, against what the two maps say.
abbrev pub Agrees : Option CredentialError × Stores → Option CredentialError × Maps → Type 0
Agrees (e, w) (e', (g1, g2)) =
    (e ≡ e') × ((id : Text) → kept w.first id ≡ g1 id) × ((id : Text) → kept w.second id ≡ g2 id)

abbrev pub has_valid_secret : Call → Bool
has_valid_secret (adds ref secret) = valid_secret secret
has_valid_secret (updates ref secret) = valid_secret secret
has_valid_secret (clears ref) = true

abbrev pub ref_of : Call → Ref
ref_of (adds ref secret) = ref
ref_of (updates ref secret) = ref
ref_of (clears ref) = ref

module _ (p : Parsers) (now : Time) where
  abbrev over : Option CredentialError → Service Stores
  over none = record {
    primary = some (first_store p none now);
    fallback = some (second_store p none now);
  }
  over (some e) = record { primary = some (failing e); fallback = some (second_store p none now) }

  abbrev pub serve : Option CredentialError → Call → Stores → Option CredentialError × Stores
  serve health (adds ref secret) w = Service.add p (over health) ref secret w
  serve health (updates ref secret) w = Service.update p (over health) ref secret w
  serve health (clears ref) w = Service.clear p (over health) ref w

  eligible_outage : (e : CredentialError) → fallback_eligible e ≡ is_outage e
  unfolding fallback_eligible
  eligible_outage unavailable = refl
  eligible_outage locked = refl
  eligible_outage e = refl

  module _ (n m : Ref) (again : normalize_ref p n ≡ ok m) (w : Stores) where
    abbrev key : Text
    key = ref_identity m

    abbrev Follows : Option CredentialError → Call → Option CredentialError × Stores → Type 0
    Follows health c outcome = Agrees outcome (answer key (kept w.first) (kept w.second) health c)

    adds_healthy :
        (ref : Ref) (secret : Secret)
        → valid_secret secret ≡ true
        → Follows none (adds ref secret) (Service.add_normalized (over none) n secret w)
    unfolding Service.add_normalized set status context_error
    adds_healthy ref secret v = (
      ground arith,
      λ id. ground (
        arith,
        find-store key id (record { secret = secret; updated_at = to_utc now }) w.first.records,
        text_eq_iff key id,
      ),
      λ id. ground arith,
    )

    adds_failing :
        (ref : Ref) (secret : Secret) (e : CredentialError)
        → valid_secret secret ≡ true
        → Follows (some e) (adds ref secret) (Service.add_normalized (over (some e)) n secret w)
    unfolding Service.add_normalized set status context_error
    adds_failing ref secret e v = (
      ground (arith, eligible_outage e),
      λ id. ground (arith, eligible_outage e),
      λ id. ground (
        arith,
        eligible_outage e,
        find-store key id (record { secret = secret; updated_at = to_utc now }) w.second.records,
        text_eq_iff key id,
      ),
    )

    updates_healthy :
        (ref : Ref) (secret : Secret)
        → valid_secret secret ≡ true
        → Follows none (updates ref secret) (Service.update_normalized (over none) n secret w)
    unfolding Service.update_normalized set status context_error
    updates_healthy ref secret v =
        let record' : MemoryRecord = record { secret = secret; updated_at = to_utc now } in
        (
          ground arith,
          λ id. ground (arith, find-store key id record' w.first.records, text_eq_iff key id),
          λ id. ground (arith, find-store key id record' w.second.records, text_eq_iff key id),
        )

    updates_failing :
        (ref : Ref) (secret : Secret) (e : CredentialError)
        → valid_secret secret ≡ true
        → Follows
            (some e)
            (updates ref secret)
            (Service.update_normalized (over (some e)) n secret w)
    unfolding Service.update_normalized set status context_error
    updates_failing ref secret e v = (
      ground (arith, eligible_outage e),
      λ id. ground (arith, eligible_outage e),
      λ id. ground (
        arith,
        eligible_outage e,
        find-store key id (record { secret = secret; updated_at = to_utc now }) w.second.records,
        text_eq_iff key id,
      ),
    )

    clears_healthy :
        (ref : Ref) → Follows none (clears ref) (Service.clear_normalized (over none) n w)
    unfolding Service.clear_normalized delete status context_error
    clears_healthy ref = (
      ground arith,
      λ id. ground (arith, find-remove key id w.first.records, text_eq_iff key id),
      λ id. ground (arith, find-remove key id w.second.records, text_eq_iff key id),
    )

    clears_failing :
        (ref : Ref) (e : CredentialError)
        → Follows (some e) (clears ref) (Service.clear_normalized (over (some e)) n w)
    unfolding Service.clear_normalized delete status context_error
    clears_failing ref not_found = (
      ground arith,
      λ id. ground arith,
      λ id. ground (arith, find-remove key id w.second.records, text_eq_iff key id),
    )
    clears_failing ref e = (
      ground arith,
      λ id. ground arith,
      λ id. ground (arith, find-remove key id w.second.records, text_eq_iff key id),
    )

  -- Over a first store that either works, in memory, or fails every operation with one error, and a
  -- second store in memory, each call with an accepted reference and secret, under a context that is
  -- not cancelled, gives the error and leaves the two maps that the table `answer` says. An addition is
  -- refused where a store that answers holds the identity already, and goes to the first store, or to
  -- the second one where the first is unavailable or locked. An update goes to the store that holds the
  -- identity, is ambiguous where both do, and goes to the second store where the first is unavailable or
  -- locked; where neither that answers holds the identity, it gives the first store's error or
  -- `not_found`. With any other error of the first store, both give that error and write nothing. A
  -- clear removes the identity from the stores that answer, and gives the error of a first store that
  -- fails, unless that is `not_found`. No other identity is touched.
  pub serve-answer :
      (health : Option CredentialError) (c : Call) (n m : Ref) (w : Stores)
      → normalize_ref p (ref_of c) ≡ ok n
      → normalize_ref p n ≡ ok m
      → has_valid_secret c ≡ true
      → Agrees (serve health c w) (answer (ref_identity m) (kept w.first) (kept w.second) health c)
  unfolding Service.add Service.update Service.clear
  serve-answer none (adds ref secret) n m w h again v =
      rw (h, v) (adds_healthy n m again w ref secret v)
  serve-answer (some e) (adds ref secret) n m w h again v =
      rw (h, v) (adds_failing n m again w ref secret e v)
  serve-answer none (updates ref secret) n m w h again v =
      rw (h, v) (updates_healthy n m again w ref secret v)
  serve-answer (some e) (updates ref secret) n m w h again v =
      rw (h, v) (updates_failing n m again w ref secret e v)
  serve-answer none (clears ref) n m w h again v = rw h (clears_healthy n m again w ref)
  serve-answer (some e) (clears ref) n m w h again v = rw h (clears_failing n m again w ref e)
