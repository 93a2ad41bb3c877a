-- ===== src/Credentials.antt =====
-- internal/credentials/store.go: references to credentials, the port of a store, and the store in
-- memory. The mutex of a store makes each of its operations one step.
pub mod Service
pub mod Stores
pub mod Refinement
pub mod RoundTrip
pub mod Outage
use ai4se_coding_agent_harne.Prelude.{
  ℕ, String, Bool, true, false, not, ◌&&◌, ◌||◌, Option, none, some, List, [], ◌∷◌, ◌++◌, leb, eqb,
  if◌then◌else◌, length, any, is_some, Result, ok, err,
}
use ai4se_coding_agent_harne.Store.{to_utc}
use ai4se_coding_agent_harne.Domain.{Time}
use ai4se_coding_agent_harne.Text.{
  Text, Unicode, text_eq, to_lower, trim_space, has_suffix, contains, codes,
}
use ai4se_coding_agent_harne.Text.Keyed.{find, store, remove}

-- The sentinel errors of the package; `other` is any other error, such as one of the context.
pub data CredentialError : Type 0 where
  not_found already_configured ambiguous_credential invalid_credential invalid_key : CredentialError
  unavailable locked keyring decrypt invalid_vault unsupported_version : CredentialError
  unsafe_parameters password_unavailable vault_committed : CredentialError
  other : String → CredentialError

abbrev pub Secret : Type 0
Secret = List ℕ

pub record Ref : Type 0 where
  pub provider : Text
  pub host : Text

pub record Status : Type 0 where
  pub ref : Ref
  pub configured : Bool
  pub backend : String
  pub updated_at : Time

-- The fields of `url.URL` that are read, with `Hostname()` and `Port()`.
pub record ParsedUrl : Type 0 where
  pub scheme : Text
  pub has_user : Bool
  pub host : Text
  pub path : Text
  pub raw_query : Text
  pub fragment : Text
  pub hostname : Text
  pub port : Text

-- What packages regexp, net/url and net do for a reference.
pub record Parsers : Type 0 where
  pub unicode : Unicode
  -- `providerIDPattern.MatchString`.
  pub is_provider_id : Text → Bool
  -- `url.Parse`; `none` is an error.
  pub parse_url : Text → Option ParsedUrl
  pub join_host_port : Text → Text → Text

abbrev pub is_empty : Text → Bool
is_empty [] = true
is_empty (_ ∷ _) = false

-- `strings.TrimSuffix(s, ".")`.
unfoldable pub trim_dot : Text → Text
trim_dot [] = []
trim_dot (c ∷ []) = if eqb c b'.' then [] else c ∷ []
trim_dot (c ∷ (d ∷ s)) = c ∷ trim_dot (d ∷ s)

-- `strings.ContainsAny(hostname, " \t\r\n")`.
unfoldable pub has_blank : Text → Bool
has_blank s = any (λ c. eqb c 32 || (eqb c 9 || (eqb c 13 || eqb c 10))) s

unfoldable pub valid_secret : Secret → Bool
valid_secret secret = not (is_empty secret) && leb (length secret) 65536

unfoldable pub ref_identity : Ref → Text
ref_identity ref = ref.provider ++ (0 ∷ ref.host)

-- `contextError(ctx)`; the argument is what `ctx.Err()` gives.
unfoldable pub context_error : Option String → Option CredentialError
context_error none = none
context_error (some e) = some (other e)

module _ (p : Parsers) where
  abbrev bracketed : Text → Text
  bracketed hostname =
      if contains hostname (b':' ∷ []) then b'[' ∷ (hostname ++ (b']' ∷ [])) else hostname

  abbrev with_port : Text → Text → Text
  with_port hostname [] = bracketed hostname
  with_port hostname (c ∷ port) = p.join_host_port hostname (c ∷ port)

  abbrev checked_host : Text → Text → Text → Result CredentialError Ref
  checked_host provider hostname port =
      if is_empty hostname || has_blank hostname
      then err invalid_credential
      else ok (record { provider = provider; host = with_port hostname port })

  abbrev parsed_host : Text → Option ParsedUrl → Result CredentialError Ref
  parsed_host provider none = err invalid_credential
  parsed_host provider (some url) =
      if not (is_empty url.scheme)
        || (url.has_user
            || (is_empty url.host
                || (not (is_empty url.path)
                    || (not (is_empty url.raw_query) || not (is_empty url.fragment)))))
      then err invalid_credential
      else checked_host provider (to_lower p.unicode (trim_dot url.hostname)) url.port

  unfoldable pub normalize_ref : Ref → Result CredentialError Ref
  normalize_ref ref =
      let provider = to_lower p.unicode (trim_space p.unicode ref.provider) in
      if p.is_provider_id provider
      then parsed_host provider (p.parse_url (b'/' ∷ (b'/' ∷ trim_space p.unicode ref.host)))
      else err invalid_credential

-- The port: the operations of a store on a state `W`. `status` gives a status beside its error.
pub record Backend (W : Type 0) : Type 0 where
  pub set : Ref → Secret → W → Option CredentialError × W
  pub get : Ref → W → Result CredentialError Secret × W
  pub delete : Ref → W → Option CredentialError × W
  pub status : Ref → W → (Status × Option CredentialError) × W

pub record MemoryRecord : Type 0 where
  pub secret : Secret
  pub updated_at : Time

pub record MemoryStore : Type 0 where
  pub records : List (Text × MemoryRecord)

unfoldable pub new_memory_store : MemoryStore
new_memory_store = record { records = [] }

abbrev zero_time : Time
zero_time = record { nanos = 0; location = "UTC" }

abbrev pub zero_status : Status
zero_status = record {
  ref = record { provider = []; host = [] };
  configured = false;
  backend = "";
  updated_at = zero_time;
}

abbrev pub updated_of : Option MemoryRecord → Time
updated_of none = zero_time
updated_of (some r) = r.updated_at

abbrev pub secret_of : Option MemoryRecord → Result CredentialError Secret
secret_of none = err not_found
secret_of (some r) = ok r.secret

-- The operations take what the context and the clock give them.
module _ (p : Parsers) (ctx : Option String) (now : Time) where
  abbrev set_checked :
      Option CredentialError
      → Result CredentialError Ref
      → Secret
      → MemoryStore
      → Option CredentialError × MemoryStore
  set_checked (some e) n secret s = (some e, s)
  set_checked none (err e) secret s = (some invalid_credential, s)
  set_checked none (ok ref) secret s =
      if valid_secret secret
      then (
        none,
        record s {
          records =
              store (ref_identity ref) (record { secret = secret; updated_at = to_utc now })
                s.records;
        },
      )
      else (some invalid_credential, s)

  unfoldable pub set : Ref → Secret → MemoryStore → Option CredentialError × MemoryStore
  set ref secret s = set_checked (context_error ctx) (normalize_ref p ref) secret s

  abbrev get_checked :
      Option CredentialError
      → Result CredentialError Ref
      → MemoryStore
      → Result CredentialError Secret
  get_checked (some e) n s = err e
  get_checked none (err e) s = err invalid_credential
  get_checked none (ok ref) s = secret_of (find (ref_identity ref) s.records)

  unfoldable pub get : Ref → MemoryStore → Result CredentialError Secret
  get ref s = get_checked (context_error ctx) (normalize_ref p ref) s

  abbrev delete_checked :
      Option CredentialError
      → Result CredentialError Ref
      → MemoryStore
      → Option CredentialError × MemoryStore
  delete_checked (some e) n s = (some e, s)
  delete_checked none (err e) s = (some invalid_credential, s)
  delete_checked none (ok ref) s =
      if is_some (find (ref_identity ref) s.records)
      then (none, record s { records = remove (ref_identity ref) s.records })
      else (some not_found, s)

  unfoldable pub delete : Ref → MemoryStore → Option CredentialError × MemoryStore
  delete ref s = delete_checked (context_error ctx) (normalize_ref p ref) s

  abbrev status_checked :
      Option CredentialError
      → Result CredentialError Ref
      → MemoryStore
      → Status × Option CredentialError
  status_checked (some e) n s = (zero_status, some e)
  status_checked none (err e) s = (zero_status, some invalid_credential)
  status_checked none (ok ref) s =
      let found = find (ref_identity ref) s.records in
      (
        record {
          ref = ref;
          configured = is_some found;
          backend = "memory";
          updated_at = updated_of found;
        },
        none,
      )

  unfoldable pub status : Ref → MemoryStore → Status × Option CredentialError
  status ref s = status_checked (context_error ctx) (normalize_ref p ref) s
