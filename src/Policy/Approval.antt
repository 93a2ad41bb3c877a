-- ===== src/Policy/Approval.antt =====
-- internal/policy/approval.go: the digest of an approval request and the store of grants.
-- Encoding and hashing are parameters; the sort by path is written out.
pub mod Grants
use ai4se_coding_agent_harne.Prelude.{
  ℕ, String, ◌==◌, Bool, true, false, ◌&&◌, ◌||◌, Option, none, some, List, [], ◌∷◌, ltb, eqb,
  if◌then◌else◌, is_some, lookup, insert, erase,
}
use ai4se_coding_agent_harne.Domain.{Action, PermissionProfile}
use ai4se_coding_agent_harne.Json.{Json}
use ai4se_coding_agent_harne.Text.{Text, codes}
use ai4se_coding_agent_harne.Platform.{Platform}

-- The order of Go's strings.
unfoldable pub text_lt : Text → Text → Bool
text_lt s [] = false
text_lt [] (_ ∷ _) = true
text_lt (a ∷ s) (b ∷ t) = ltb a b || (eqb a b && text_lt s t)

unfoldable pub insert_baseline : String × String → List (String × String) → List (String × String)
unfolding text_lt
insert_baseline e [] = e ∷ []
insert_baseline e (x ∷ xs) =
    if text_lt (codes x.0) (codes e.0) then x ∷ insert_baseline e xs else e ∷ (x ∷ xs)

unfoldable pub sort_baselines : List (String × String) → List (String × String)
unfolding insert_baseline
sort_baselines [] = []
sort_baselines (e ∷ es) = insert_baseline e (sort_baselines es)

module _ (p : Platform) where
  abbrev encoded_or : Action → Option String → Action
  encoded_or action none = action
  encoded_or action (some raw) = record action { args = raw }

  abbrev decoded_or : Action → Option Json → Action
  decoded_or action none = action
  decoded_or action (some value) = encoded_or action (p.marshal value)

  unfoldable pub canonical_action : Action → Action
  canonical_action action = decoded_or action (p.unmarshal action.args)

  unfoldable pub digest : String → PermissionProfile → Action → List (String × String) → String
  unfolding sort_baselines canonical_action
  digest run_id profile action baselines = p.sha256_hex (
      p.marshal_request (record {
        run_id = run_id;
        profile = profile;
        action = canonical_action action;
        baselines = sort_baselines baselines;
      }))

-- A nil map of grants reads as the empty one.
pub record ApprovalStore : Type 0 where
  pub grants : List (String × Unit {0})

unfoldable pub new_approval_store : ApprovalStore
new_approval_store = record { grants = [] }

unfoldable pub grant : ApprovalStore → String → ApprovalStore
unfolding insert
grant s digest = if digest == "" then s else record s { grants = insert digest tt s.grants }

unfoldable pub consume : ApprovalStore → String → ApprovalStore × Bool
unfolding lookup erase
consume s digest =
    if digest == ""
    then (s, false)
    else if is_some (lookup digest s.grants)
    then (record s { grants = erase digest s.grants }, true)
    else (s, false)

unfoldable pub revoke : ApprovalStore → String → ApprovalStore
unfolding erase
revoke s digest = if digest == "" then s else record s { grants = erase digest s.grants }
