-- ===== src/Credentials/Service.antt =====
-- internal/credentials/service.go: the service over a primary and a fallback store. The lock of a
-- reference makes each operation one step for its reference.
use ai4se_coding_agent_harne.Prelude.{
  Bool, true, false, not, ◌&&◌, ◌||◌, Option, none, some, if◌then◌else◌, is_some, Result, ok, err,
}
use ai4se_coding_agent_harne.Credentials.{
  CredentialError, not_found, already_configured, ambiguous_credential, invalid_credential,
  unavailable, locked, Secret, Ref, Status, zero_status, Parsers, Backend, normalize_ref,
  valid_secret,
}

pub record Service (W : Type 0) : Type 0 where
  pub primary : Option (Backend W)
  pub fallback : Option (Backend W)

-- What a look at one store shows; `present` is false for a store that is nil.
pub record BackendState : Type 0 where
  pub present : Bool
  pub status : Status
  pub err : Option CredentialError

pub data Choice : Type 0 where
  no_backend use_primary use_fallback : Choice

unfoldable pub fallback_eligible : CredentialError → Bool
fallback_eligible unavailable = true
fallback_eligible locked = true
fallback_eligible _ = false

abbrev ineligible : Option CredentialError → Bool
ineligible none = false
ineligible (some e) = not (fallback_eligible e)

unfoldable pub inspection_error : BackendState → BackendState → Option CredentialError
unfolding fallback_eligible
inspection_error primary fallback = if ineligible primary.err then primary.err else fallback.err

abbrev unless :
    Option CredentialError → Result CredentialError Choice → Result CredentialError Choice
unless none r = r
unless (some e) r = err e

abbrev or_error : Option CredentialError → Choice → Result CredentialError Choice
or_error none c = ok c
or_error (some e) c = err e

unfoldable pub configured_backend : BackendState → BackendState → Result CredentialError Choice
unfolding inspection_error
configured_backend primary fallback = unless (inspection_error primary fallback) (
    if primary.status.configured && fallback.status.configured
    then err ambiguous_credential
    else if primary.status.configured
    then ok use_primary
    else if fallback.status.configured
    then ok use_fallback
    else or_error primary.err no_backend)

abbrev absent : BackendState
absent = record { present = false; status = zero_status; err = none }

abbrev pub status_chosen :
    Result CredentialError Choice
    → BackendState
    → BackendState
    → Ref
    → Status × Option CredentialError
status_chosen (err e) primary fallback ref = (zero_status, some e)
status_chosen (ok use_primary) primary fallback ref = (primary.status, none)
status_chosen (ok use_fallback) primary fallback ref = (fallback.status, none)
status_chosen (ok no_backend) primary fallback ref =
    if primary.present && not (is_some primary.err)
    then (primary.status, none)
    else if fallback.present && not (is_some fallback.err)
    then (fallback.status, none)
    else (record zero_status { ref = ref }, some unavailable)

abbrev pub first_error : Option CredentialError → Option CredentialError → Option CredentialError
first_error (some e) next = some e
first_error none none = none
first_error none (some not_found) = none
first_error none (some e) = some e

-- The body of the loop of `Clear`: whether a deletion was tried, and the first error of one.
abbrev pub Progress : Type 0 → Type 0
Progress W = (Bool × Option CredentialError) × W

module _ {W : Type 0} where
  abbrev seen : (Status × Option CredentialError) × W → BackendState × W
  seen ((status, e), w) = (record { present = true; status = status; err = e }, w)

  unfoldable pub inspect_store : Option (Backend W) → Ref → W → BackendState × W
  inspect_store none ref w = (absent, w)
  inspect_store (some b) ref w = seen (b.status ref w)

  unfoldable pub inspect : Service W → Ref → W → (BackendState × BackendState) × W
  unfolding inspect_store
  inspect s ref w =
      let (primary, w') = inspect_store s.primary ref w in
      let (fallback, w'') = inspect_store s.fallback ref w' in ((primary, fallback), w'')

  -- The `switch` of `Add`, on what the look at the primary store failed with.
  abbrev pub add_to :
      Option (Backend W)
      → Option (Backend W)
      → Option CredentialError
      → Ref
      → Secret
      → W
      → Option CredentialError × W
  add_to (some p) f none ref secret w = p.set ref secret w
  add_to (some p) (some f) (some e) ref secret w =
      if fallback_eligible e then f.set ref secret w else (some e, w)
  add_to (some p) none (some e) ref secret w = (some e, w)
  add_to none (some f) e ref secret w = f.set ref secret w
  add_to none none e ref secret w = (some unavailable, w)

  abbrev pub add_unless :
      Service W
      → Option CredentialError
      → BackendState
      → BackendState
      → Ref
      → Secret
      → W
      → Option CredentialError × W
  add_unless s (some e) primary fallback ref secret w = (some e, w)
  add_unless s none primary fallback ref secret w =
      if primary.status.configured || fallback.status.configured
      then (some already_configured, w)
      else add_to s.primary s.fallback primary.err ref secret w

  unfoldable pub add_normalized : Service W → Ref → Secret → W → Option CredentialError × W
  unfolding inspect inspection_error
  add_normalized s ref secret w =
      let ((primary, fallback), w') = inspect s ref w in
      add_unless s (inspection_error primary fallback) primary fallback ref secret w'

  abbrev pub set_in : Option (Backend W) → Ref → Secret → W → Option CredentialError × W
  set_in none ref secret w = (some not_found, w)
  set_in (some b) ref secret w = b.set ref secret w

  abbrev pub set_chosen :
      Service W → Result CredentialError Choice → Ref → Secret → W → Option CredentialError × W
  set_chosen s (err e) ref secret w = (some e, w)
  set_chosen s (ok no_backend) ref secret w = (some not_found, w)
  set_chosen s (ok use_primary) ref secret w = set_in s.primary ref secret w
  set_chosen s (ok use_fallback) ref secret w = set_in s.fallback ref secret w

  unfoldable pub update_normalized : Service W → Ref → Secret → W → Option CredentialError × W
  unfolding inspect configured_backend
  update_normalized s ref secret w =
      let ((primary, fallback), w') = inspect s ref w in
      set_chosen s (configured_backend primary fallback) ref secret w'

  unfoldable pub status_normalized : Service W → Ref → W → (Status × Option CredentialError) × W
  unfolding inspect configured_backend
  status_normalized s ref w =
      let ((primary, fallback), w') = inspect s ref w in
      (status_chosen (configured_backend primary fallback) primary fallback ref, w')

  abbrev deleted : Option CredentialError → Option CredentialError × W → Progress W
  deleted e (next, w) = ((true, first_error e next), w)

  abbrev pub clear_in : Option (Backend W) → BackendState → Ref → Progress W → Progress W
  clear_in none state ref before = before
  clear_in (some b) state ref ((attempted, e), w) =
      if not (is_some state.err) && not state.status.configured
      then ((attempted, e), w)
      else deleted e (b.delete ref w)

  abbrev pub cleared : Progress W → Option CredentialError × W
  cleared ((attempted, some e), w) = (some e, w)
  cleared ((true, none), w) = (none, w)
  cleared ((false, none), w) = (some not_found, w)

  unfoldable pub clear_normalized : Service W → Ref → W → Option CredentialError × W
  unfolding inspect
  clear_normalized s ref w =
      let ((primary, fallback), w') = inspect s ref w in
      cleared
        (clear_in s.fallback fallback ref (clear_in s.primary primary ref ((false, none), w')))

  abbrev pub get_in : Option (Backend W) → Ref → W → Result CredentialError Secret × W
  get_in none ref w = (err not_found, w)
  get_in (some b) ref w = b.get ref w

  abbrev pub get_chosen :
      Service W → Result CredentialError Choice → Ref → W → Result CredentialError Secret × W
  get_chosen s (err e) ref w = (err e, w)
  get_chosen s (ok no_backend) ref w = (err not_found, w)
  get_chosen s (ok use_primary) ref w = get_in s.primary ref w
  get_chosen s (ok use_fallback) ref w = get_in s.fallback ref w

  unfoldable pub get_normalized : Service W → Ref → W → Result CredentialError Secret × W
  unfolding inspect configured_backend
  get_normalized s ref w =
      let ((primary, fallback), w') = inspect s ref w in
      get_chosen s (configured_backend primary fallback) ref w'

  abbrev pub with_secret :
      Result CredentialError Ref
      → Secret
      → (Ref → W → Option CredentialError × W)
      → W
      → Option CredentialError × W
  with_secret (err e) secret f w = (some invalid_credential, w)
  with_secret (ok ref) secret f w =
      if valid_secret secret then f ref w else (some invalid_credential, w)

  abbrev pub with_ref :
      {A : Type 0}
      → Result CredentialError Ref
      → (CredentialError → A)
      → (Ref → W → A × W)
      → W
      → A × W
  with_ref (err e) failed f w = (failed invalid_credential, w)
  with_ref (ok ref) failed f w = f ref w

  module _ (p : Parsers) (s : Service W) where
    unfoldable pub add : Ref → Secret → W → Option CredentialError × W
    unfolding add_normalized
    add ref secret w = with_secret (normalize_ref p ref) secret (λ n. add_normalized s n secret) w

    unfoldable pub update : Ref → Secret → W → Option CredentialError × W
    unfolding update_normalized
    update ref secret w =
        with_secret (normalize_ref p ref) secret (λ n. update_normalized s n secret) w

    unfoldable pub status : Ref → W → (Status × Option CredentialError) × W
    unfolding status_normalized
    status ref w =
        with_ref (normalize_ref p ref) (λ e. (zero_status, some e)) (status_normalized s) w

    unfoldable pub clear : Ref → W → Option CredentialError × W
    unfolding clear_normalized
    clear ref w = with_ref (normalize_ref p ref) some (clear_normalized s) w

    unfoldable pub get : Ref → W → Result CredentialError Secret × W
    unfolding get_normalized
    get ref w = with_ref (normalize_ref p ref) err (get_normalized s) w
