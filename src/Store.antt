-- ===== src/Store.antt =====
-- internal/store/memory.go, with the helpers of internal/store/store.go: runs, their events and
-- artifacts. Each operation holds the mutex, so it is one step. The clock and the context are
-- outside: an operation takes the time that `clock.Now()` gives and what `ctx.Err()` gives.
-- Go copies payloads and contents so that callers share no memory with the store; values here are
-- never shared, so the copies leave no trace.
pub mod Bytes
pub mod Chain
pub mod History
pub mod Updates
pub mod Listing
use ai4se_coding_agent_harne.Prelude.{
  ℕ, suc, ◌+◌, String, ◌==◌, Bool, true, false, not, Option, none, some, List, [], ◌∷◌, ◌++◌, leb,
  if◌then◌else◌, length, is_some, lookup, insert, Result, ok, err,
}
use mathlib.Core.Logic.{ite}
use ai4se_coding_agent_harne.Domain.{Time, Run, RunState, RunState-discrete, RunEvent, Artifact}
use Bytes.{hash_event}

pub data StoreError : Type 0 where
  empty_run_id empty_event_type empty_artifact_id artifact_exists artifact_not_found : StoreError
  run_already_exists run_not_found run_state_changed invalid_run_list : StoreError
  -- The run-time panic of a slice whose bounds are out of range, which no call returns.
  slice_panic : StoreError
  context_error : String → StoreError

pub record MemoryStore : Type 0 where
  pub runs : List (String × Run)
  pub events : List (String × List RunEvent)
  pub artifacts : List (String × Artifact)

unfoldable pub new_memory : MemoryStore
new_memory = record { runs = []; events = []; artifacts = [] }

unfoldable pub validate_run_id : String → Option StoreError
validate_run_id run_id = if run_id == "" then some empty_run_id else none

abbrev pub first_error : Option StoreError → Option StoreError → Option StoreError
first_error none e = e
first_error (some x) e = some x

unfoldable pub validate_event : String → String → Option StoreError
unfolding validate_run_id
validate_event run_id event_type =
    first_error (validate_run_id run_id) (if event_type == "" then some empty_event_type else none)

unfoldable pub validate_artifact : Artifact → Option StoreError
unfolding validate_run_id
validate_artifact artifact =
    if artifact.id == "" then some empty_artifact_id else validate_run_id artifact.run_id

-- `checkContext`; the argument is what `ctx.Err()` gives, `none` also for a nil context.
unfoldable pub check_context : Option String → Option StoreError
check_context none = none
check_context (some e) = some (context_error e)

abbrev pub to_utc : Time → Time
to_utc t = record t { location = "UTC" }

unfoldable pub normalize_time : Time → Time
normalize_time value = if leb value.nanos 0 then value else to_utc value

unfoldable pub normalize_run : Run → Run
unfolding normalize_time
normalize_run run = record run {
  created_at = normalize_time run.created_at;
  updated_at = normalize_time run.updated_at;
}

-- Fails with the first error of the checks, and otherwise goes on.
unfoldable pub checked {ℓ} :
    {S : Type ℓ} {A : Type 0}
    → Option StoreError
    → S
    → (S × Result StoreError A)
    → S × Result StoreError A
checked none s rest = rest
checked (some e) s rest = (s, err e)

abbrev pub events_of : MemoryStore → String → List RunEvent
events_of s run_id = elim (lookup run_id s.events) [ none ↦ [] | some es ↦ es ]

unfoldable pub last_hash : List RunEvent → String
last_hash [] = ""
last_hash (e ∷ []) = e.hash
last_hash (e ∷ (f ∷ es)) = last_hash (f ∷ es)

abbrev pub put_run : Run → MemoryStore → MemoryStore
put_run run s = record s { runs = insert run.id run s.runs }

abbrev pub then_put : Run → MemoryStore × RunEvent → MemoryStore × Result StoreError RunEvent
then_put run (s, event) = (put_run run s, ok event)

abbrev pub returned : MemoryStore × RunEvent → MemoryStore × Result StoreError RunEvent
returned (s, event) = (s, ok event)

unfoldable pub if_in_state :
    Option Run
    → RunState
    → MemoryStore
    → (MemoryStore × Result StoreError RunEvent)
    → MemoryStore × Result StoreError RunEvent
if_in_state none expected s rest = (s, err run_not_found)
if_in_state (some current) expected s rest =
    ite (RunState-discrete current.state expected) rest (s, err run_state_changed)

unfoldable pub create_run :
    MemoryStore → Option String → Run → MemoryStore × Result StoreError (Unit {0})
create_run s ctx run = checked (first_error (validate_run_id run.id) (check_context ctx)) s (
    if is_some (lookup run.id s.runs)
    then (s, err run_already_exists)
    else (put_run (normalize_run run) s, ok tt))

-- The operations that write need the time and SHA-256.
module _ (sha256_hex : List ℕ → String) where
  unfoldable pub new_event : String → ℕ → String → String → String → Time → RunEvent
  new_event run_id sequence event_type payload previous_hash at =
      let event : RunEvent = record {
        run_id = run_id;
        sequence = sequence;
        type = event_type;
        at = to_utc at;
        payload = payload;
        previous_hash = previous_hash;
        hash = "";
      } in
      record event { hash = hash_event sha256_hex event }

  unfoldable pub append_locked :
      MemoryStore → Time → String → String → String → MemoryStore × RunEvent
  append_locked s now run_id event_type payload =
      let events = events_of s run_id in
      let event = new_event run_id (length events + 1) event_type payload (last_hash events) now in
      (record s { events = insert run_id (events ++ event ∷ []) s.events }, event)

  unfoldable pub create_run_with_event :
      MemoryStore
      → Option String
      → Time
      → Run
      → String
      → String
      → MemoryStore × Result StoreError RunEvent
  create_run_with_event s ctx now run event_type payload =
      checked (first_error (validate_event run.id event_type) (check_context ctx)) s (
        if is_some (lookup run.id s.runs)
        then (s, err run_already_exists)
        else returned (append_locked (put_run (normalize_run run) s) now run.id event_type payload))

  unfoldable pub update_run :
      MemoryStore
      → Option String
      → Time
      → Run
      → String
      → String
      → MemoryStore × Result StoreError RunEvent
  update_run s ctx now run event_type payload =
      checked (first_error (validate_event run.id event_type) (check_context ctx)) s (
        if is_some (lookup run.id s.runs)
        then then_put (normalize_run run) (append_locked s now run.id event_type payload)
        else (s, err run_not_found))

  unfoldable pub update_run_if_state :
      MemoryStore
      → Option String
      → Time
      → Run
      → RunState
      → String
      → String
      → MemoryStore × Result StoreError RunEvent
  update_run_if_state s ctx now run expected event_type payload =
      checked (first_error (validate_event run.id event_type) (check_context ctx)) s (
        if_in_state (lookup run.id s.runs) expected s
          (then_put (normalize_run run) (append_locked s now run.id event_type payload)))

  unfoldable pub append_event :
      MemoryStore
      → Option String
      → Time
      → String
      → String
      → String
      → MemoryStore × Result StoreError RunEvent
  append_event s ctx now run_id event_type payload =
      checked (first_error (validate_event run_id event_type) (check_context ctx)) s (
        if is_some (lookup run_id s.runs)
        then returned (append_locked s now run_id event_type payload)
        else (s, err run_not_found))

abbrev failed : {A : Type 0} → Option StoreError → Result StoreError A → Result StoreError A
failed none rest = rest
failed (some e) rest = err e

abbrev or_error : {A : Type 0} → Option A → StoreError → Result StoreError A
or_error none e = err e
or_error (some a) e = ok a

unfoldable pub get_run : MemoryStore → Option String → String → Result StoreError Run
get_run s ctx run_id =
    failed (first_error (validate_run_id run_id) (check_context ctx))
      (or_error (lookup run_id s.runs) run_not_found)

-- The events whose sequence is at least `from`, in order.
unfoldable pub events_from : ℕ → List RunEvent → List RunEvent
events_from from [] = []
events_from from (e ∷ es) =
    let rest = events_from from es in if leb from e.sequence then e ∷ rest else rest

unfoldable pub list_events :
    MemoryStore → Option String → String → ℕ → Result StoreError (List RunEvent)
list_events s ctx run_id from = failed (first_error (validate_run_id run_id) (check_context ctx)) (
    if is_some (lookup run_id s.runs)
    then ok (events_from from (events_of s run_id))
    else err run_not_found)

-- `existing, ok := s.artifacts[id]; ok && existing.RunID != artifact.RunID`.
abbrev pub owned_elsewhere : Option Artifact → String → Bool
owned_elsewhere none run_id = false
owned_elsewhere (some existing) run_id = not (existing.run_id == run_id)

unfoldable pub put_artifact :
    MemoryStore → Option String → Artifact → MemoryStore × Result StoreError (Unit {0})
put_artifact s ctx artifact =
    checked (first_error (validate_artifact artifact) (check_context ctx)) s (
      if not (is_some (lookup artifact.run_id s.runs))
      then (s, err run_not_found)
      else if owned_elsewhere (lookup artifact.id s.artifacts) artifact.run_id
      then (s, err artifact_exists)
      else (record s { artifacts = insert artifact.id artifact s.artifacts }, ok tt))

abbrev owned_artifact : Option Artifact → String → Result StoreError Artifact
owned_artifact none run_id = err artifact_not_found
owned_artifact (some artifact) run_id =
    if artifact.run_id == run_id then ok artifact else err artifact_not_found

unfoldable pub get_artifact :
    MemoryStore → Option String → String → String → Result StoreError Artifact
get_artifact s ctx run_id artifact_id =
    failed
      (first_error (validate_run_id run_id) (
        first_error (if artifact_id == "" then some empty_artifact_id else none)
          (check_context ctx)))
      (if is_some (lookup run_id s.runs)
        then owned_artifact (lookup artifact_id s.artifacts) run_id
        else err run_not_found)
