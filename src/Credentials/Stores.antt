-- ===== src/Credentials/Stores.antt =====
-- internal/credentials/service.go over two stores in memory: the calls, and the one map from
-- identities to secrets that they are compared with.
use ai4se_coding_agent_harne.Prelude.{
  String, ◌≡◌, false, ◌&&◌, Option, none, some, is_some, if◌then◌else◌, Result, ok, err,
}
use ai4se_coding_agent_harne.Domain.{Time}
use ai4se_coding_agent_harne.Text.{Text, text_eq}
use ai4se_coding_agent_harne.Text.Keyed.{find}
use ai4se_coding_agent_harne.Credentials.{
  CredentialError, not_found, already_configured, invalid_credential, other, Secret, Ref, Parsers,
  Backend, MemoryStore, MemoryRecord, normalize_ref, ref_identity, valid_secret, set, get, delete,
  status,
}
use ai4se_coding_agent_harne.Credentials.Service
use ai4se_coding_agent_harne.Credentials.Service.{Service}

pub record Stores : Type 0 where
  pub first : MemoryStore
  pub second : MemoryStore

pub data Call : Type 0 where
  adds updates : Ref → Secret → Call
  clears : Ref → Call

-- The abstract view: what is held for the identity of a reference.
abbrev pub Held : Type 0
Held = Text → Option Secret

abbrev secret_in : Option MemoryRecord → Option MemoryRecord → Option Secret
secret_in (some r) second = some r.secret
secret_in none (some r) = some r.secret
secret_in none none = none

abbrev pub held : Stores → Held
held w id = secret_in (find id w.first.records) (find id w.second.records)

-- No identity is in both stores.
abbrev pub Exclusive : Stores → Type 0
Exclusive w =
    (id : Text) → (is_some (find id w.first.records) && is_some (find id w.second.records)) ≡ false

abbrev pub put : Text → Option Secret → Held → Held
put key value h id = if text_eq key id then value else h id

-- What each call does to the map, once its reference has an identity.
abbrev pub added : Option Secret → Text → Secret → Held → Option CredentialError × Held
added none key secret h = (none, put key (some secret) h)
added (some old) key secret h = (some already_configured, h)

abbrev pub updated : Option Secret → Text → Secret → Held → Option CredentialError × Held
updated none key secret h = (some not_found, h)
updated (some old) key secret h = (none, put key (some secret) h)

abbrev pub dropped : Option Secret → Text → Held → Option CredentialError × Held
dropped none key h = (some not_found, h)
dropped (some old) key h = (none, put key none h)

abbrev pub at_identity :
    Result CredentialError Text
    → (Text → Option CredentialError × Held)
    → Held
    → Option CredentialError × Held
at_identity (err e) f h = (some e, h)
at_identity (ok key) f h = f key

abbrev pub read_at : Result CredentialError Text → Held → Result CredentialError Secret
read_at (err e) h = err e
read_at (ok key) h = elim (h key) [ none ↦ err not_found | some secret ↦ ok secret ]

-- The outcome of a call, against what the map says.
abbrev pub Agrees : Option CredentialError × Stores → Option CredentialError × Held → Type 0
Agrees (e, w) (e', h) = (e ≡ e') × ((id : Text) → held w id ≡ h id) × Exclusive w

module _ (p : Parsers) (ctx : Option String) (now : Time) where
  abbrev pub first_store : Backend Stores
  first_store = record {
    set = λ ref secret w.
        let (e, s) = set p ctx now ref secret w.first in (e, record w { first = s });
    get = λ ref w. (get p ctx now ref w.first, w);
    delete = λ ref w. let (e, s) = delete p ctx now ref w.first in (e, record w { first = s });
    status = λ ref w. (status p ctx now ref w.first, w);
  }

  abbrev pub second_store : Backend Stores
  second_store = record {
    set = λ ref secret w.
        let (e, s) = set p ctx now ref secret w.second in (e, record w { second = s });
    get = λ ref w. (get p ctx now ref w.second, w);
    delete = λ ref w. let (e, s) = delete p ctx now ref w.second in (e, record w { second = s });
    status = λ ref w. (status p ctx now ref w.second, w);
  }

  abbrev pub both : Service Stores
  both = record { primary = some first_store; fallback = some second_store }

  abbrev pub serve : Call → Stores → Option CredentialError × Stores
  serve (adds ref secret) w = Service.add p both ref secret w
  serve (updates ref secret) w = Service.update p both ref secret w
  serve (clears ref) w = Service.clear p both ref w

  abbrev pub read : Ref → Stores → Result CredentialError Secret × Stores
  read ref w = Service.get p both ref w

  -- The identity under which both stores keep a reference. The service normalizes it, and each store
  -- once more, after it asked the context.
  abbrev pub second_identity :
      Option String → Result CredentialError Ref → Result CredentialError Text
  second_identity (some e) n = err (other e)
  second_identity none (err e) = err invalid_credential
  second_identity none (ok ref) = ok (ref_identity ref)

  abbrev pub first_identity : Result CredentialError Ref → Result CredentialError Text
  first_identity (err e) = err invalid_credential
  first_identity (ok ref) = second_identity ctx (normalize_ref p ref)

  abbrev pub identity : Ref → Result CredentialError Text
  identity ref = first_identity (normalize_ref p ref)

  abbrev pub spec : Call → Held → Option CredentialError × Held
  spec (adds ref secret) h =
      if valid_secret secret
      then at_identity (identity ref) (λ key. added (h key) key secret h) h
      else (some invalid_credential, h)
  spec (updates ref secret) h =
      if valid_secret secret
      then at_identity (identity ref) (λ key. updated (h key) key secret h) h
      else (some invalid_credential, h)
  spec (clears ref) h = at_identity (identity ref) (λ key. dropped (h key) key h) h
