-- ===== src/Store/Listing/Ordered.antt =====
-- `ListRuns` of internal/store/memory.go: the order of the runs and the page that is cut out of them.
use ai4se_coding_agent_harne.Prelude.{
  ℕ, zero, suc, ℤ, pos, negsuc, ◌+◌, ◌≤◌, ◌<◌, String, ◌≡◌, refl, sym, ap, inl, inr, Bool-cases,
  true, false, ◌&&◌, Option, none, some, List, [], ◌∷◌, take, drop, length, length-drop, All, ltb,
  Result, ok, err, subst, ◌⊎◌, arith,
}
use Prim.Native.Nat.{min}
use mathlib.Core.List.{Perm}
use mathlib.Core.List.Perm
use ai4se_coding_agent_harne.Domain.{Run}
use ai4se_coding_agent_harne.Text.{Text, codes}
use ai4se_coding_agent_harne.Store.{MemoryStore, StoreError, slice_panic, check_context}
use ai4se_coding_agent_harne.Store.Listing.{
  RunListQuery, RunPage, text_lt, before, insert_run, sort_runs, candidates, page_of, add_int,
  listed, list_from, list_runs,
}

text_lt_trans : (s t u : Text) → text_lt s t ≡ true → text_lt t u ≡ true → text_lt s u ≡ true
unfolding text_lt
text_lt_trans s t [] p q = ground arith
text_lt_trans s [] (c ∷ u) p q = ground arith
text_lt_trans [] (b ∷ t) (c ∷ u) p q = refl
text_lt_trans (a ∷ s) (b ∷ t) (c ∷ u) p q = ground (arith, text_lt_trans s t u)

before_trans : (r q p : Run) → before r q ≡ true → before q p ≡ true → before r p ≡ true
unfolding before
before_trans r q p a b = ground (arith, text_lt_trans (codes r.id) (codes q.id) (codes p.id))

-- No run of the list stands before the given one.
abbrev pub IsFirst : Run → List Run → Type 0
IsFirst r runs = All (λ q. before q r ≡ false) runs

-- Each run stands after none of those that follow it.
abbrev pub IsOrdered : List Run → Type 0
IsOrdered [] = Unit
IsOrdered (r ∷ runs) = IsFirst r runs × IsOrdered runs

text_lt_irrefl : (s : Text) → text_lt s s ≡ false
unfolding text_lt
text_lt_irrefl [] = refl
text_lt_irrefl (a ∷ s) = ground (arith, text_lt_irrefl s)

before_irrefl : (r : Run) → before r r ≡ false
unfolding before
before_irrefl r = ground (arith, text_lt_irrefl (codes r.id))

IsFirst-before : (r q : Run) (runs : List Run) → before r q ≡ true → IsFirst q runs → IsFirst r runs
IsFirst-before r q [] h f = tt
IsFirst-before r q (p ∷ runs) h (e, f) =
    (ground (arith, before_trans p r q), IsFirst-before r q runs h f)

IsFirst-insert_run :
    (r q : Run) (runs : List Run)
    → before r q ≡ false
    → IsFirst q runs
    → IsFirst q (insert_run r runs)
unfolding insert_run
IsFirst-insert_run r q [] h f = (h, tt)
IsFirst-insert_run r q (p ∷ runs) h (e, f) = elim (Bool-cases (before r p)) [
  | inl b ↦ rw (insert_run, b) (h, (e, f))
  | inr b ↦ rw (insert_run, b) (e, IsFirst-insert_run r q runs h f)
]

IsOrdered-insert_run : (r : Run) (runs : List Run) → IsOrdered runs → IsOrdered (insert_run r runs)
unfolding insert_run
IsOrdered-insert_run r [] o = (tt, tt)
IsOrdered-insert_run r (q ∷ runs) (f, o) = elim (Bool-cases (before r q)) [
  | inl b ↦
      rw (insert_run, b)
        ((ground (arith, before_trans q r q, before_irrefl q), IsFirst-before r q runs b f), (f, o))
  | inr b ↦ rw (insert_run, b) (IsFirst-insert_run r q runs b f, IsOrdered-insert_run r runs o)
]

Perm-insert_run : (r : Run) (runs : List Run) → Perm (insert_run r runs) (r ∷ runs)
unfolding insert_run
Perm-insert_run r [] = Perm.rfl
Perm-insert_run r (q ∷ runs) = elim (Bool-cases (before r q)) [
  | inl b ↦ rw (insert_run, b) Perm.rfl
  | inr b ↦
      rw (insert_run, b) (Perm.trans (Perm.cons q (Perm-insert_run r runs)) (Perm.swap r q runs))
]

sort_runs-IsOrdered : (runs : List Run) → IsOrdered (sort_runs runs)
unfolding sort_runs
sort_runs-IsOrdered [] = tt
sort_runs-IsOrdered (r ∷ runs) = IsOrdered-insert_run r (sort_runs runs) (sort_runs-IsOrdered runs)

Perm-sort_runs : (runs : List Run) → Perm (sort_runs runs) runs
unfolding sort_runs
Perm-sort_runs [] = Perm.rfl
Perm-sort_runs (r ∷ runs) =
    Perm.trans (Perm-insert_run r (sort_runs runs)) (Perm.cons r (Perm-sort_runs runs))

drop_all : (n : ℕ) (runs : List Run) → length runs ≤ n → drop n runs ≡ []
drop_all zero [] h = refl
drop_all zero (r ∷ runs) h = absurd (omega (arith, h))
drop_all (suc n) [] h = refl
drop_all (suc n) (r ∷ runs) h = drop_all n runs (omega (arith, h))

take_all : (n : ℕ) (runs : List Run) → length runs ≤ n → take n runs ≡ runs
take_all zero [] h = refl
take_all zero (r ∷ runs) h = absurd (omega (arith, h))
take_all (suc n) [] h = refl
take_all (suc n) (r ∷ runs) h = ap (λ x. r ∷ x) (take_all n runs (omega (arith, h)))

-- The runs from `offset` on, at most `limit` of them, where zero is no limit.
abbrev pub window : ℕ → ℕ → List Run → List Run
window zero offset runs = drop offset runs
window (suc limit) offset runs = take (suc limit) (drop offset runs)

-- The sum that the page's end takes stays within an `int`.
abbrev Fits : ℕ → ℕ → List Run → Type 0
Fits zero offset runs = Unit
Fits (suc limit) offset runs = min offset (length runs) + suc limit < 9223372036854775808

abbrev IsCut : ℕ → ℕ → List Run → Result StoreError RunPage → Type 0
IsCut limit offset runs r =
    (page : RunPage) × (r ≡ ok page)
    × (page.runs ≡ window limit offset runs)
    × (page.has_more ≡ (ltb 0 limit && ltb (offset + limit) (length runs)))

IsCut-zero : (offset : ℕ) (runs : List Run) → IsCut zero offset runs (page_of zero offset runs)
unfolding page_of add_int
IsCut-zero offset runs = (
  record { runs = drop offset runs; has_more = false },
  ground (arith, drop_all offset runs, drop_all (length runs) runs),
  refl,
  ground arith,
)

IsCut-more :
    (limit offset : ℕ) (runs : List Run)
    → Fits (suc limit) offset runs
    → ltb (offset + suc limit) (length runs) ≡ true
    → IsCut (suc limit) offset runs (page_of (suc limit) offset runs)
unfolding page_of add_int
IsCut-more limit offset runs fits more = (
  record { runs = take (suc limit) (drop offset runs); has_more = true },
  ground (arith, fits, more),
  refl,
  ground (arith, more),
)

IsCut-last :
    (limit offset : ℕ) (runs : List Run)
    → Fits (suc limit) offset runs
    → ltb (offset + suc limit) (length runs) ≡ false
    → IsCut (suc limit) offset runs (page_of (suc limit) offset runs)
unfolding page_of add_int
IsCut-last limit offset runs fits last = (
  record { runs = drop offset runs; has_more = false },
  ground (arith, fits, last, drop_all offset runs, drop_all (length runs) runs),
  sym (take_all (suc limit) (drop offset runs) (ground (arith, last, length-drop offset runs))),
  ground (arith, last),
)

IsCut-page_of :
    (limit offset : ℕ) (runs : List Run)
    → Fits limit offset runs
    → IsCut limit offset runs (page_of limit offset runs)
IsCut-page_of zero offset runs fits = IsCut-zero offset runs
IsCut-page_of (suc limit) offset runs fits =
    elim (Bool-cases (ltb (offset + suc limit) (length runs))) [
      | inl more ↦ IsCut-more limit offset runs fits more
      | inr last ↦ IsCut-last limit offset runs fits last
    ]

-- Where the sum wraps around, the slice panics.
cut_panics :
    (limit offset : ℕ) (runs : List Run)
    → ltb (min offset (length runs) + suc limit) 9223372036854775808 ≡ false
    → page_of (suc limit) offset runs ≡ err slice_panic
unfolding page_of add_int
cut_panics limit offset runs wraps = ground (arith, wraps)

page_Fits :
    (limit offset : ℕ) (runs : List Run) (page : RunPage)
    → page_of limit offset runs ≡ ok page
    → Fits limit offset runs
page_Fits zero offset runs page h = tt
page_Fits (suc limit) offset runs page h =
    elim (Bool-cases (ltb (min offset (length runs) + suc limit) 9223372036854775808)) [
      | inl fits ↦ ground (arith, fits)
      | inr wraps ↦ cc (cut_panics limit offset runs wraps)
    ]

abbrev pub IsPage : ℕ → ℕ → Option (List String) → MemoryStore → RunPage → Type 0
IsPage limit offset ids s page =
    (sorted : List Run) × Perm sorted (candidates ids s.runs)
    × IsOrdered sorted
    × (page.runs ≡ window limit offset sorted)
    × (page.has_more ≡ (ltb 0 limit && ltb (offset + limit) (length sorted)))

IsPage-cut :
    (limit offset : ℕ) (ids : Option (List String)) (s : MemoryStore)
    → Fits limit offset (sort_runs (candidates ids s.runs))
    → (page : RunPage) × (listed none limit offset (sort_runs (candidates ids s.runs)) ≡ ok page)
      × IsPage limit offset ids s page
IsPage-cut limit offset ids s fits =
    let runs = sort_runs (candidates ids s.runs) in
    let (page, e, shape, more) = IsCut-page_of limit offset runs fits in
    (
      page,
      e,
      (
        runs,
        Perm-sort_runs (candidates ids s.runs),
        sort_runs-IsOrdered (candidates ids s.runs),
        shape,
        more,
      ),
    )

listed-IsPage :
    (limit offset : ℕ) (ids : Option (List String)) (e : Option StoreError) (s : MemoryStore)
    (page : RunPage)
    → listed e limit offset (sort_runs (candidates ids s.runs)) ≡ ok page
    → IsPage limit offset ids s page
listed-IsPage limit offset ids (some e) s page h = cc
listed-IsPage limit offset ids none s page h =
    let runs = sort_runs (candidates ids s.runs) in
    let (page', e, is_page) = IsPage-cut limit offset ids s (page_Fits limit offset runs page h) in
    let same : page' ≡ page = cc in subst (IsPage limit offset ids s) same is_page

-- Every page that is listed is one, whatever the limit and the offset.
pub ok-IsPage :
    (s : MemoryStore) (ctx : Option String) (query : RunListQuery) (page : RunPage)
    → list_runs s ctx query ≡ ok page
    → (limit : ℕ) × (offset : ℕ) × (query.limit ≡ pos limit)
      × (query.offset ≡ pos offset)
      × IsPage limit offset query.ids s page
unfolding list_runs
ok-IsPage s ctx query page h = from query.limit query.offset refl refl h
  where
    from :
        (limit offset : ℤ)
        → query.limit ≡ limit
        → query.offset ≡ offset
        → list_from limit offset query.ids (check_context ctx) s ≡ ok page
        → (l : ℕ) × (o : ℕ) × (query.limit ≡ pos l)
          × (query.offset ≡ pos o)
          × IsPage l o query.ids s page
    from (pos l) (pos o) a b h =
        (l, o, a, b, listed-IsPage l o query.ids (check_context ctx) s page h)
    from (negsuc l) _ a b h = cc
    from (pos l) (negsuc o) a b h = cc

sum_Fits :
    (limit offset : ℕ) (runs : List Run)
    → (limit ≡ 0) ⊎ (offset + limit < 9223372036854775808)
    → Fits limit offset runs
sum_Fits zero offset runs h = tt
sum_Fits (suc limit) offset runs (inl e) = absurd (omega (arith, e))
sum_Fits (suc limit) offset runs (inr h) = omega (arith, h)

-- In a context that is not cancelled, a query for a limit and an offset that are not negative, where
-- the limit is zero or the two add up within an `int` of 64 bits, gives a page. It is cut out of the
-- runs that the query allows, each of them once, in an order in which every run stands after none of
-- those that follow it, the last updated first and those of one time by their identifiers: the page
-- holds the runs from the offset on, at most as many as the limit, and all of them where the limit is
-- zero, and says whether any follow.
pub list_runs-IsPage :
    (s : MemoryStore) (ids : Option (List String)) (limit offset : ℕ)
    → (limit ≡ 0) ⊎ (offset + limit < 9223372036854775808)
    → (page : RunPage) × (list_runs s none
          (record { limit = pos limit; offset = pos offset; ids = ids })
        ≡ ok page)
      × IsPage limit offset ids s page
unfolding list_runs check_context
list_runs-IsPage s ids limit offset h =
    IsPage-cut limit offset ids s (sum_Fits limit offset (sort_runs (candidates ids s.runs)) h)
