-- ===== src/Prelude/Keys.antt =====
-- A Go map with text keys, as an association list.
use Prim.Native.String.{String}
use mathlib.Core.Path.{◌≡◌, refl}
use mathlib.Core.Option.{Option, none, some}
use mathlib.Core.List.{List, [], ◌∷◌}
use native.Mathlib.Omega.{arith}
use text.Mathlib.Text.{◌==◌}
use text.Mathlib.TextEquality.{eq_iff}
use text.Mathlib.TextPositions.{eq_refl}
use ai4se_coding_agent_harne.Prelude.Tests.{if◌then◌else◌}

-- The entries of the map; `insert` keeps at most one for a key.
abbrev pub Table {ℓ} : Type ℓ → Type ℓ
Table V = List (String × V)

module _ {ℓ} {V : Type ℓ} where
  -- `delete(table, key)`.
  unfoldable pub erase : String → Table V → Table V
  erase key [] = []
  erase key ((name, old) ∷ table) =
      let rest = erase key table in if name == key then rest else (name, old) ∷ rest

  -- `value, ok := table[key]`.
  unfoldable pub lookup : String → Table V → Option V
  lookup key [] = none
  lookup key ((name, value) ∷ table) = if name == key then some value else lookup key table

  pub lookup-erase :
      (key other : String) (table : Table V)
      → lookup other (erase key table) ≡ (if key == other then none else lookup other table)
  unfolding lookup erase
  lookup-erase key other [] = ground arith
  lookup-erase key other ((name, _) ∷ table) =
      ground
        (arith, lookup-erase key other table, eq_iff name key, eq_iff name other, eq_iff key other)

  pub lookup-erase_self : (key : String) (table : Table V) → lookup key (erase key table) ≡ none
  lookup-erase_self key table = simp (lookup-erase, eq_refl)

  -- `table[key] = value`.
  unfoldable pub insert : String → V → Table V → Table V
  insert key value [] = (key, value) ∷ []
  insert key value ((name, old) ∷ table) =
      if name == key then (key, value) ∷ table else (name, old) ∷ insert key value table

  pub lookup-insert :
      (key other : String) (value : V) (table : Table V)
      → lookup other (insert key value table)
        ≡ (if key == other then some value else lookup other table)
  unfolding lookup insert
  lookup-insert key other value [] = refl
  lookup-insert key other value ((name, _) ∷ table) = ground (
    arith,
    lookup-insert key other value table,
    eq_iff name key,
    eq_iff name other,
    eq_iff key other,
  )

  pub lookup-insert_self :
      (key : String) (value : V) (table : Table V)
      → lookup key (insert key value table) ≡ some value
  lookup-insert_self key value table = simp (lookup-insert, eq_refl)
