-- ===== src/Policy/Risk/Arguments.antt =====
-- What `inspectArgs` of internal/policy/risk.go denies: the walk over the decoded arguments, with its
-- early returns and shared facts, against a plain description of an unsafe value.
use ai4se_coding_agent_harne.Prelude.{◌≡◌, Bool, false, ◌&&◌, ◌||◌, [], arith}
use ai4se_coding_agent_harne.Json.{
  Json, null, boolean, num, str, arr, obj, Items, nil, cons, Fields, end, entry,
}
use ai4se_coding_agent_harne.Text.{Text, codes, to_lower}
use ai4se_coding_agent_harne.Platform.{Platform}
use ai4se_coding_agent_harne.Policy.Risk.{
  ActionFacts, no_facts, inspect_path, inspect_value, inspect_items, inspect_fields, inspect_args,
  truthy_hard_deny, is_path_key, note_guard,
}

module _ (p : Platform) where
  abbrev pub path_denied : Text → Bool
  path_denied path = (inspect_path p path no_facts).hard_denied

  -- Somewhere inside, a key that denies is true, or a path is denied under a key for paths. An
  -- array's items stand under the array's key.
  unfoldable mutual
    pub unsafe_value : Json → Text → Bool
    unsafe_value null key = false
    unsafe_value (boolean b) key = false
    unsafe_value (num n) key = false
    unsafe_value (str s) key = is_path_key key && path_denied (codes s)
    unsafe_value (arr items) key = unsafe_items items key
    unsafe_value (obj fields) key = unsafe_fields fields

    pub unsafe_items : Items → Text → Bool
    unsafe_items nil key = false
    unsafe_items (cons nested items) key = unsafe_value nested key || unsafe_items items key

    pub unsafe_fields : Fields → Bool
    unsafe_fields end = false
    unsafe_fields (entry k nested fields) =
        truthy_hard_deny (to_lower p.unicode (codes k)) nested
        || (unsafe_value nested (to_lower p.unicode (codes k)) || unsafe_fields fields)

  inspect_path-denied :
      (path : Text) (facts : ActionFacts)
      → (inspect_path p path facts).hard_denied ≡ (facts.hard_denied || path_denied path)
  unfolding inspect_path
  inspect_path-denied path facts = ground arith

  mutual
    unfolding inspect_value inspect_items inspect_fields unsafe_value unsafe_items unsafe_fields

    value-denied :
        (j : Json) (key : Text) (facts : ActionFacts)
        → (inspect_value p j key facts).hard_denied ≡ (facts.hard_denied || unsafe_value j key)
    value-denied null key facts = ground arith
    value-denied (boolean b) key facts = ground arith
    value-denied (num n) key facts = ground arith
    value-denied (str s) key facts = ground (arith, inspect_path-denied (codes s) facts)
    value-denied (arr items) key facts = ground (arith, items-denied items key facts)
    value-denied (obj fields) key facts = ground (arith, fields-denied fields facts)

    items-denied :
        (xs : Items) (key : Text) (facts : ActionFacts)
        → (inspect_items p xs key facts).hard_denied ≡ (facts.hard_denied || unsafe_items xs key)
    items-denied nil key facts = ground arith
    items-denied (cons nested items) key facts = ground (
      arith,
      value-denied nested key facts,
      items-denied items key (inspect_value p nested key facts),
    )

    fields-denied :
        (xs : Fields) (facts : ActionFacts)
        → (inspect_fields p xs facts).hard_denied ≡ (facts.hard_denied || unsafe_fields xs)
    fields-denied end facts = ground arith
    fields-denied (entry k nested fields) facts =
        let lower = to_lower p.unicode (codes k) in
        let noted = note_guard p lower nested facts in
        ground (
          arith,
          value-denied nested lower noted,
          fields-denied fields (inspect_value p nested lower noted),
        )

  -- The inspection denies exactly the arguments in which some key that denies is true or some path
  -- is denied, however the keys are ordered and whatever stands before or around them.
  pub inspect_args_denied : (args : Json) → (inspect_args p args).hard_denied ≡ unsafe_value args []
  unfolding inspect_args
  inspect_args_denied args = value-denied args [] no_facts
