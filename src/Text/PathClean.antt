-- ===== src/Text/PathClean.antt =====
-- `path.Clean` on slash-separated paths, and what is known of its result.
use ai4se_coding_agent_harne.Prelude.{
  ◌≡◌, refl, sym, ap, subst, ◌∙◌, Bool, true, false, ◌||◌, List, [], ◌∷◌, ◌++◌, if◌then◌else◌,
  arith, Bool-cases, inl, inr,
}
use mathlib.Core.List.{reverse, reverse-cons}
use ai4se_coding_agent_harne.Text.{Text, codes, text_eq, split, join, has_prefix, text_eq→eq}

abbrev pub dot_dot : Text
dot_dot = b'.' ∷ b'.' ∷ []

abbrev pub is_skipped : Text → Bool
is_skipped [] = true
is_skipped (c ∷ s) = text_eq (c ∷ s) (b'.' ∷ [])

-- The stack of components kept so far, the last one first, after `..`.
pop_component : Bool → List Text → List Text
pop_component rooted [] = if rooted then [] else dot_dot ∷ []
pop_component rooted (w ∷ ws) = if text_eq w dot_dot then dot_dot ∷ (w ∷ ws) else ws

next_stack : Bool → List Text → Text → List Text
unfolding pop_component
next_stack rooted stack w =
    if is_skipped w
    then stack
    else if text_eq w dot_dot
    then pop_component rooted stack
    else w ∷ stack

unfoldable pub clean_components : Bool → List Text → List Text → List Text
unfolding next_stack
clean_components rooted stack [] = stack
clean_components rooted stack (w ∷ ws) = clean_components rooted (next_stack rooted stack w) ws

abbrev pub is_rooted : Text → Bool
is_rooted [] = false
is_rooted (c ∷ s) = text_eq (c ∷ []) (b'/' ∷ [])

abbrev or_dot : Text → Text
or_dot [] = b'.' ∷ []
or_dot (c ∷ s) = c ∷ s

-- The components of the cleaned path, in order.
unfoldable pub components : Text → List Text
unfolding clean_components
components path = reverse (clean_components (is_rooted path) [] (split b'/' path))

unfoldable pub path_clean : Text → Text
unfolding components
path_clean path =
    if is_rooted path
    then b'/' ∷ join b'/' (components path)
    else or_dot (join b'/' (components path))

abbrev pub is_up : Text → Bool
is_up w = text_eq w dot_dot

pub has_up : List Text → Bool
has_up [] = false
has_up (w ∷ ws) = is_up w || has_up ws

-- Below a `..` there are only more of them, on a stack whose top is the last component.
abbrev AllUp : List Text → Type 0
AllUp [] = Unit {0}
AllUp (w ∷ ws) = (is_up w ≡ true) × AllUp ws

abbrev Settled : List Text → Type 0
Settled [] = Unit {0}
Settled (w ∷ ws) = (is_up w ≡ true → AllUp ws) × Settled ws

AllUp-Settled : (ws : List Text) → AllUp ws → Settled ws
AllUp-Settled [] a = tt
AllUp-Settled (w ∷ ws) (h, a) = ((λ _. a), AllUp-Settled ws a)

pop_component-Settled :
    (rooted : Bool) (stack : List Text) → Settled stack → Settled (pop_component rooted stack)
unfolding pop_component
pop_component-Settled true [] s = tt
pop_component-Settled false [] s = ((λ _. tt), tt)
pop_component-Settled rooted (w ∷ ws) (a, s) = elim (Bool-cases (is_up w)) [
  | inl e ↦ rw e ((λ _. (e, a e)), (a, s))
  | inr e ↦ rw e s
]

next_stack-Settled :
    (rooted : Bool) (stack : List Text) (w : Text)
    → Settled stack
    → Settled (next_stack rooted stack w)
unfolding next_stack
next_stack-Settled rooted stack w s = elim (Bool-cases (is_skipped w)) [
  | inl e ↦ rw e s
  | inr e ↦ rw e (elim (Bool-cases (text_eq w dot_dot)) [
    | inl f ↦ rw f (pop_component-Settled rooted stack s)
    | inr f ↦ rw f ((λ g. cc), s)
  ])
]

clean_components-Settled :
    (rooted : Bool) (stack ws : List Text)
    → Settled stack
    → Settled (clean_components rooted stack ws)
unfolding clean_components
clean_components-Settled rooted stack [] s = s
clean_components-Settled rooted stack (w ∷ ws) s =
    clean_components-Settled rooted (next_stack rooted stack w) ws
      (next_stack-Settled rooted stack w s)

-- The bottom of the stack is the first component.
bottom_up : List Text → Bool
bottom_up [] = false
bottom_up (w ∷ []) = is_up w
bottom_up (w ∷ (v ∷ ws)) = bottom_up (v ∷ ws)

AllUp-bottom_up :
    (w : Text) (ws : List Text) → is_up w ≡ true → AllUp ws → bottom_up (w ∷ ws) ≡ true
unfolding bottom_up
AllUp-bottom_up w [] h a = h
AllUp-bottom_up w (v ∷ ws) h (e, a) = AllUp-bottom_up v ws e a

Settled-bottom_up : (ws : List Text) → Settled ws → bottom_up ws ≡ false → has_up ws ≡ false
unfolding bottom_up has_up
Settled-bottom_up [] s h = refl
Settled-bottom_up (w ∷ []) s h = ground arith
Settled-bottom_up (w ∷ (v ∷ ws)) (a, s) h = elim (Bool-cases (is_up w)) [
  | inl e ↦ cc (AllUp-bottom_up v ws (a e).0 (a e).1)
  | inr e ↦ rw e (Settled-bottom_up (v ∷ ws) s h)
]

abbrev first_up : List Text → Bool
first_up [] = false
first_up (w ∷ ws) = is_up w

first_up-append :
    (xs : List Text) (w v : Text) → first_up ((xs ++ w ∷ []) ++ v ∷ []) ≡ first_up (xs ++ w ∷ [])
first_up-append [] w v = refl
first_up-append (x ∷ xs) w v = refl

first_up-reverse : (ws : List Text) → first_up (reverse ws) ≡ bottom_up ws
unfolding bottom_up
first_up-reverse [] = refl
first_up-reverse (w ∷ []) = refl
first_up-reverse (w ∷ (v ∷ ws)) =
    rw (reverse-cons w (v ∷ ws), reverse-cons v ws)
      (first_up-append (reverse ws) v w
        ∙ ap first_up (sym (reverse-cons v ws))
        ∙ first_up-reverse (v ∷ ws))

has_up-append : (xs ys : List Text) → has_up (xs ++ ys) ≡ (has_up xs || has_up ys)
unfolding has_up
has_up-append [] ys = refl
has_up-append (x ∷ xs) ys = ground (arith, has_up-append xs ys)

has_up-reverse : (ws : List Text) → has_up (reverse ws) ≡ has_up ws
unfolding has_up
has_up-reverse [] = refl
has_up-reverse (w ∷ ws) =
    rw (reverse-cons w ws, has_up-append (reverse ws) (w ∷ [])) (ground (arith, has_up-reverse ws))

-- A cleaned path that does not start with `..` has no `..` anywhere.
pub has_up-components :
    (path : Text) → first_up (components path) ≡ false → has_up (components path) ≡ false
unfolding components
has_up-components path h =
    has_up-reverse _
    ∙ Settled-bottom_up _ (clean_components-Settled (is_rooted path) [] (split b'/' path) tt)
        (sym (first_up-reverse _) ∙ h)

-- The test that the code makes on the joined text, `clean == ".." || HasPrefix(clean, "../")`.
abbrev pub escapes : Text → Bool
escapes clean = text_eq clean (codes "..") || has_prefix clean (codes "../")

escapes-join : (ws : List Text) → escapes (or_dot (join b'/' ws)) ≡ false → first_up ws ≡ false
unfolding join text_eq has_prefix
escapes-join [] h = refl
escapes-join (w ∷ []) h = elim (Bool-cases (is_up w)) [
  | inl e ↦ cc (rw (text_eq→eq w dot_dot e) at h)
  | inr e ↦ e
]
escapes-join (w ∷ (v ∷ ws)) h = elim (Bool-cases (is_up w)) [
  | inl e ↦ cc (rw (text_eq→eq w dot_dot e) at h)
  | inr e ↦ e
]

path_clean_relative :
    (path : Text) → is_rooted path ≡ false → path_clean path ≡ or_dot (join b'/' (components path))
unfolding path_clean
path_clean_relative path r = rw r

-- A relative path whose cleaned text passes that test stays below its start: no component is `..`.
pub escapes-components :
    (path : Text)
    → is_rooted path ≡ false
    → escapes (path_clean path) ≡ false
    → has_up (components path) ≡ false
unfolding path_clean
escapes-components path r h =
    has_up-components path (
      escapes-join (components path)
        (subst (λ t. escapes t ≡ false) (path_clean_relative path r) h))
