-- ===== src/Text/Keyed.antt =====
-- A Go map whose keys are texts that the program builds from others, as an association list.
use ai4se_coding_agent_harne.Prelude.{
  ◌≡◌, refl, Option, none, some, List, [], ◌∷◌, if◌then◌else◌, arith,
}
use ai4se_coding_agent_harne.Text.{Text, text_eq, text_eq_iff}

module _ {ℓ} {V : Type ℓ} where
  unfoldable pub find : Text → List (Text × V) → Option V
  find key [] = none
  find key ((name, value) ∷ rest) = if text_eq name key then some value else find key rest

  unfoldable pub store : Text → V → List (Text × V) → List (Text × V)
  store key value [] = (key, value) ∷ []
  store key value ((name, old) ∷ rest) =
      if text_eq name key then (key, value) ∷ rest else (name, old) ∷ store key value rest

  unfoldable pub remove : Text → List (Text × V) → List (Text × V)
  remove key [] = []
  remove key ((name, old) ∷ rest) =
      let kept = remove key rest in if text_eq name key then kept else (name, old) ∷ kept

  pub find-store :
      (key other : Text) (value : V) (rest : List (Text × V))
      → find other (store key value rest)
        ≡ (if text_eq key other then some value else find other rest)
  unfolding find store
  find-store key other value [] = refl
  find-store key other value ((name, old) ∷ rest) = ground (
    arith,
    find-store key other value rest,
    text_eq_iff name key,
    text_eq_iff name other,
    text_eq_iff key other,
  )

  pub find-remove :
      (key other : Text) (rest : List (Text × V))
      → find other (remove key rest) ≡ (if text_eq key other then none else find other rest)
  unfolding find remove
  find-remove key other [] = ground arith
  find-remove key other ((name, old) ∷ rest) = ground (
    arith,
    find-remove key other rest,
    text_eq_iff name key,
    text_eq_iff name other,
    text_eq_iff key other,
  )
