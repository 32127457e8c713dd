-- ===== src/Rows/Tests.antt =====
-- Small rows.
use messaging_cells.Common.{
  ℕ, zero, suc, ◌+◌, ◌≤◌, ◌<◌, ◌≡◌, refl, sym, subst, inl, inr, Bool, true, List, [], ◌∷◌, Option,
  none, some, if◌then◌else◌, arith,
}
use messaging_cells.Rows.Heap.{build, pop_top, insert, heap_sort, mix_sort, is_sorted}
use messaging_cells.Rows.Tally.{tally}
use messaging_cells.Rows.Sift.{IsHeapFrom, IsChild, IsMoved}
use messaging_cells.Rows.Sorted.{IsSortOf, pop_top-IsHeapFrom}
use messaging_cells.Rows.Sorting.{build-IsHeapFrom}
use messaging_cells.Rows.Insert.{insert-IsHeapFrom}
use messaging_cells.Rows.Selec.{mix_sort-IsSortOf}

abbrev same_key : ℕ → ℕ
same_key x = x

abbrev row_three : ℕ → ℕ
row_three zero = 2
row_three (suc zero) = 7
row_three _ = 4

abbrev firsts : Option (ℕ → ℕ) → List ℕ
firsts none = []
firsts (some v) = v 0 ∷ v 1 ∷ v 2 ∷ []

sorted_by_heap : firsts (heap_sort same_key 3 row_three) ≡ 2 ∷ 4 ∷ 7 ∷ []
unfolding heap_sort
sorted_by_heap = refl

sorted_by_mix : firsts (mix_sort same_key 3 row_three) ≡ 2 ∷ 4 ∷ 7 ∷ []
unfolding mix_sort
sorted_by_mix = refl

-- A heap of three.
abbrev heap_three : ℕ → ℕ
heap_three zero = 7
heap_three (suc zero) = 2
heap_three _ = 4

heap_three-le : (c : ℕ) → heap_three c ≤ 7
heap_three-le zero = omega arith
heap_three-le (suc zero) = omega arith
heap_three-le (suc (suc c)) = omega arith

only_top : {p c : ℕ} → IsChild c p → c < 3 → p ≡ 0
only_top (inl e) b = omega arith
only_top (inr e) b = omega arith

heap_three-IsHeapFrom : IsHeapFrom same_key 0 3 heap_three
unfolding IsHeapFrom
heap_three-IsHeapFrom p c l ch b =
    subst (λ x. heap_three c ≤ heap_three x) (sym (only_top ch b)) (heap_three-le c)

mix_sort-IsSortOf_example :
    (w : ℕ → ℕ) × (mix_sort same_key 12 row_three ≡ some w)
    × IsSortOf same_key 12 row_three w
    × (is_sorted same_key 12 w ≡ true)
mix_sort-IsSortOf_example = mix_sort-IsSortOf same_key 12 row_three

build-IsHeapFrom_example :
    (u : ℕ → ℕ) × (build same_key 3 row_three ≡ some u)
    × IsHeapFrom same_key 0 3 u
    × IsMoved same_key 3 row_three u
build-IsHeapFrom_example = build-IsHeapFrom same_key 3 row_three

pop_top-IsHeapFrom_example :
    (u : ℕ → ℕ) × (pop_top same_key 3 heap_three ≡ some (7, u))
    × ((i : ℕ) → i < 3 → same_key (heap_three i) ≤ same_key 7)
    × IsHeapFrom same_key 0 2 u
    × ((Q : ℕ → Bool) → tally Q u 2 + (if Q 7 then 1 else 0) ≡ tally Q heap_three 3)
pop_top-IsHeapFrom_example = pop_top-IsHeapFrom same_key 2 heap_three heap_three-IsHeapFrom

insert-IsHeapFrom_example :
    (u : ℕ → ℕ) × (insert same_key 3 heap_three 9 ≡ some u)
    × IsHeapFrom same_key 0 4 u
    × ((Q : ℕ → Bool) → tally Q u 4 ≡ tally Q heap_three 3 + (if Q 9 then 1 else 0))
insert-IsHeapFrom_example = insert-IsHeapFrom same_key 3 heap_three 9 heap_three-IsHeapFrom
