-- ===== src/Store/Listing.antt =====
-- `ListRuns` of internal/store/memory.go, with the query and the page of internal/storeport/store.go.
pub mod Ordered
use ai4se_coding_agent_harne.Prelude.{
  ℕ, ℤ, pos, negsuc, ◌+◌, ◌-◌, String, ◌==◌, Bool, true, false, ◌&&◌, ◌||◌, Option, none, some,
  List, [], ◌∷◌, any, take, drop, length, ltb, eqb, if◌then◌else◌, Result, ok, err,
}
use ai4se_coding_agent_harne.Domain.{Run}
use ai4se_coding_agent_harne.Text.{Text, codes}
use ai4se_coding_agent_harne.Store.{
  MemoryStore, StoreError, invalid_run_list, slice_panic, check_context,
}

-- `ids` is absent where the slice is nil.
pub record RunListQuery : Type 0 where
  pub limit : ℤ
  pub offset : ℤ
  pub ids : Option (List String)

pub record RunPage : Type 0 where
  pub runs : List Run
  pub has_more : Bool

-- `s < t` on strings, which goes by code points.
unfoldable pub text_lt : Text → Text → Bool
text_lt s [] = false
text_lt [] (_ ∷ _) = true
text_lt (a ∷ s) (b ∷ t) = let rest = text_lt s t in if eqb a b then rest else ltb a b

-- The order that `sort.Slice` is given.
unfoldable pub before : Run → Run → Bool
unfolding text_lt
before r q =
    if eqb r.updated_at.nanos q.updated_at.nanos
    then text_lt (codes r.id) (codes q.id)
    else ltb q.updated_at.nanos r.updated_at.nanos

-- `sort.Slice`, whose result no other algorithm changes where no two runs share an identifier.
unfoldable pub insert_run : Run → List Run → List Run
unfolding before
insert_run r [] = r ∷ []
insert_run r (q ∷ qs) = let rest = insert_run r qs in if before r q then r ∷ (q ∷ qs) else q ∷ rest

unfoldable pub sort_runs : List Run → List Run
unfolding insert_run
sort_runs [] = []
sort_runs (r ∷ rs) = insert_run r (sort_runs rs)

abbrev is_allowed : Option (List String) → Run → Bool
is_allowed none run = true
is_allowed (some ids) run = any (λ id. id == run.id) ids

unfoldable pub candidates : Option (List String) → List (String × Run) → List Run
candidates ids [] = []
candidates ids ((_, run) ∷ table) =
    let rest = candidates ids table in if is_allowed ids run then run ∷ rest else rest

-- `a + b` on `int` of 64 bits, for two that are not negative.
unfoldable pub add_int : ℕ → ℕ → ℤ
add_int a b =
    if ltb (a + b) 9223372036854775808 then pos (a + b) else negsuc (18446744073709551615 - (a + b))

abbrev pub less : ℤ → ℕ → Bool
less (pos a) b = ltb a b
less (negsuc a) b = true

-- `runs[start:end]` with more runs after it.
abbrev pub slice : ℕ → ℤ → List Run → Result StoreError RunPage
slice start (negsuc stop) runs = err slice_panic
slice start (pos stop) runs =
    if ltb stop start
    then err slice_panic
    else ok (record { runs = take (stop - start) (drop start runs); has_more = true })

-- From `start := query.Offset` on.
unfoldable pub page_of : ℕ → ℕ → List Run → Result StoreError RunPage
unfolding add_int
page_of limit offset runs =
    let start = if ltb (length runs) offset then length runs else offset in
    if ltb 0 limit && less (add_int start limit) (length runs)
    then slice start (add_int start limit) runs
    else ok (record { runs = drop start runs; has_more = false })

abbrev pub listed : Option StoreError → ℕ → ℕ → List Run → Result StoreError RunPage
listed (some e) limit offset runs = err e
listed none limit offset runs = page_of limit offset runs

abbrev pub list_from :
    ℤ → ℤ → Option (List String) → Option StoreError → MemoryStore → Result StoreError RunPage
list_from (pos limit) (pos offset) ids e s =
    listed e limit offset (sort_runs (candidates ids s.runs))
list_from _ _ ids e s = err invalid_run_list

unfoldable pub list_runs : MemoryStore → Option String → RunListQuery → Result StoreError RunPage
unfolding page_of candidates sort_runs
list_runs s ctx query = list_from query.limit query.offset query.ids (check_context ctx) s
