-- ===== src/Policy/Approval/Grants.antt =====
-- Grants are exact and single-use, over any sequence of calls on the store of
-- internal/policy/approval.go.
use ai4se_coding_agent_harne.Prelude.{
  ℕ, ◌+◌, ◌≤◌, ◌≡◌, ◌≢◌, String, ◌==◌, eq_iff, eq_refl, Bool, true, false, not, ◌&&◌, List, [], ◌∷◌,
  is_some, if◌then◌else◌, arith, lookup, lookup-insert, lookup-erase,
}
use ai4se_coding_agent_harne.Policy.Approval.{ApprovalStore, grant, consume, revoke}

pub data Call : Type 0 where
  grants consumes revokes : String → Call

abbrev pub digit : Bool → ℕ
digit true = 1
digit false = 0

pub is_granted : ApprovalStore → String → Bool
is_granted s d = is_some (lookup d s.grants)

pub step : ApprovalStore → Call → ApprovalStore
step s (grants d) = grant s d
step s (consumes d) = (consume s d).0
step s (revokes d) = revoke s d

-- How often `d` is granted, and how often it is consumed with success.
pub times_granted : String → List Call → ℕ
times_granted d [] = 0
times_granted d (grants e ∷ cs) = digit (e == d) + times_granted d cs
times_granted d (consumes e ∷ cs) = times_granted d cs
times_granted d (revokes e ∷ cs) = times_granted d cs

pub times_consumed : String → ApprovalStore → List Call → ℕ
times_consumed d s [] = 0
times_consumed d s (grants e ∷ cs) = times_consumed d (step s (grants e)) cs
times_consumed d s (consumes e ∷ cs) =
    digit ((consume s e).1 && e == d) + times_consumed d (step s (consumes e)) cs
times_consumed d s (revokes e ∷ cs) = times_consumed d (step s (revokes e)) cs

-- What each call does to the grant of each digest. The empty digest is never granted.
is_granted-grant :
    (s : ApprovalStore) (e d : String)
    → is_granted (grant s e) d ≡ (if not (e == "") && e == d then true else is_granted s d)
unfolding is_granted grant
is_granted-grant s e d = ground (arith, lookup-insert e d tt s.grants, eq_iff e d)

is_granted-consume :
    (s : ApprovalStore) (e d : String)
    → is_granted (consume s e).0 d ≡ (if not (e == "") && e == d then false else is_granted s d)
unfolding is_granted consume
is_granted-consume s e d = ground (arith, lookup-erase e d s.grants, eq_iff e d)

is_granted-revoke :
    (s : ApprovalStore) (e d : String)
    → is_granted (revoke s e) d ≡ (if not (e == "") && e == d then false else is_granted s d)
unfolding is_granted revoke
is_granted-revoke s e d = ground (arith, lookup-erase e d s.grants, eq_iff e d)

-- A consumption succeeds exactly on a granted digest.
consume_granted :
    (s : ApprovalStore) (e : String) → (consume s e).1 ≡ (not (e == "") && is_granted s e)
unfolding is_granted consume
consume_granted s e = ground arith

-- A grant lets its exact digest through once: over any calls, in any order, a digest is consumed
-- no more often than it was granted, a grant left from before counted once.
pub consumed_le_granted :
    (d : String) (s : ApprovalStore) (cs : List Call)
    → times_consumed d s cs ≤ times_granted d cs + digit (is_granted s d)
unfolding times_consumed times_granted step
consumed_le_granted d s [] = omega arith
consumed_le_granted d s (grants e ∷ cs) =
    ground (arith, is_granted-grant s e d, consumed_le_granted d (grant s e) cs)
consumed_le_granted d s (consumes e ∷ cs) = ground (
  arith,
  is_granted-consume s e d,
  consume_granted s e,
  eq_iff e d,
  consumed_le_granted d (consume s e).0 cs,
)
consumed_le_granted d s (revokes e ∷ cs) =
    ground (arith, is_granted-revoke s e d, consumed_le_granted d (revoke s e) cs)

-- After a grant of a non-empty digest the next consumption of it succeeds and the one after it
-- fails; a revocation in between makes the first fail too.
grant-consume :
    (s : ApprovalStore) (d : String)
    → d ≢ ""
    → ((consume (grant s d) d).1 ≡ true)
      × ((consume (consume (grant s d) d).0 d).1 ≡ false)
      × ((consume (revoke (grant s d) d) d).1 ≡ false)
grant-consume s d ne = ground (
  arith,
  consume_granted (grant s d) d,
  consume_granted (consume (grant s d) d).0 d,
  consume_granted (revoke (grant s d) d) d,
  is_granted-grant s d d,
  is_granted-consume (grant s d) d d,
  is_granted-revoke (grant s d) d d,
  eq_iff d "",
  eq_refl d,
)
