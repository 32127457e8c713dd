-- ===== src/Rows/Heap.antt =====
-- `heap` of `ben-jose-embryo/bj_manageru/utils/tools.h`, without an index function: the objects of a
-- row by their index, compared by a key.
use messaging_cells.Common.{
  put_at, ℕ, zero, suc, ◌+◌, ◌-◌, ◌*◌, ◌/◌, Bool, true, false, ◌&&◌, ◌==◌, ltb, if◌then◌else◌,
  Option, none, some,
}

-- `row_data::swap`
unfoldable pub swap {ℓ} : {A : Type ℓ} → (ℕ → A) → ℕ → ℕ → ℕ → A
swap v i j w = if w == i then v j else (if w == j then v i else v w)

unfoldable pub parent : ℕ → ℕ
parent idx = (idx + 1) / 2 - 1

unfoldable pub left : ℕ → ℕ
left idx = (idx + 1) * 2 - 1

unfoldable pub right : ℕ → ℕ
right idx = (idx + 1) * 2

module _ {ℓ} {A : Type ℓ} (key : A → ℕ) where
  -- `if((lft < SZ_ATTRIB) && (cmp(lft, maxx) > 0)){ maxx = lft; }`
  unfoldable pub larger : ℕ → (ℕ → A) → ℕ → ℕ → ℕ
  larger sz v c maxx = if ltb c sz && ltb (key (v maxx)) (key (v c)) then c else maxx

  unfoldable pub max_idx : ℕ → (ℕ → A) → ℕ → ℕ
  unfolding larger left right
  max_idx sz v idx = larger sz v (right idx) (larger sz v (left idx) idx)

  unfoldable pub heapify : ℕ → ℕ → (ℕ → A) → ℕ → Option (ℕ → A)
  unfolding max_idx swap
  heapify zero sz v idx = none
  heapify (suc fuel) sz v idx = elim (max_idx sz v idx == idx) [
    | true ↦ some v
    | false ↦ heapify fuel sz (swap v idx (max_idx sz v idx)) (max_idx sz v idx)
  ]

  -- The loop of `build`, from `ii` down to 0.
  unfoldable pub build_from : ℕ → (ℕ → A) → ℕ → Option (ℕ → A)
  unfolding heapify
  build_from sz v zero = heapify (suc sz) sz v 0
  build_from sz v (suc ii) = elim (heapify (suc sz) sz v (suc ii)) [
    | none ↦ none
    | some u ↦ build_from sz u ii
  ]

  unfoldable pub build : ℕ → (ℕ → A) → Option (ℕ → A)
  unfolding build_from
  build sz v = build_from sz v (sz / 2)

  -- The top and what is left of a heap that is not empty; nothing of an empty one.
  unfoldable pub pop_top : ℕ → (ℕ → A) → Option (A × (ℕ → A))
  unfolding heapify
  pop_top zero v = none
  pop_top (suc sz) v = elim (heapify (suc sz) sz (λ w. if w == 0 then v sz else v w) 0) [
    | none ↦ none
    | some u ↦ some (v 0, u)
  ]

  -- The loop of `hsort`: `ii` objects are left in the heap.
  unfoldable pub hsort : ℕ → (ℕ → A) → Option (ℕ → A)
  unfolding heapify swap
  hsort zero v = some v
  hsort (suc ii) v = elim (heapify (suc ii) ii (swap v 0 ii) 0) [
    | none ↦ none
    | some u ↦ hsort ii u
  ]

  -- The inner loop of `selec_sort`, `n` rounds from `jj` on: where the smallest object is.
  unfoldable pub best_from : ℕ → ℕ → ℕ → (ℕ → A) → ℕ
  best_from zero jj best_ii v = best_ii
  best_from (suc n) jj best_ii v =
      best_from n (jj + 1) (if ltb (key (v jj)) (key (v best_ii)) then jj else best_ii) v

  unfoldable pub selec_from : ℕ → ℕ → (ℕ → A) → ℕ → A
  unfolding best_from swap
  selec_from zero ii v = v
  selec_from (suc n) ii v = selec_from n (ii + 1) (swap v ii (best_from (suc n) (ii + 1) ii v))

  unfoldable pub selec_sort : ℕ → (ℕ → A) → ℕ → A
  unfolding selec_from
  selec_sort sz v = selec_from (sz - 1) 0 v

  -- The rounds of `is_sorted` from `ii` on, behind the object `ii - 1`.
  unfoldable pub is_sorted_from : ℕ → ℕ → (ℕ → A) → Bool
  is_sorted_from zero ii v = true
  is_sorted_from (suc n) ii v =
      let rest = is_sorted_from n (ii + 1) v in
      if ltb (key (v ii)) (key (v (ii - 1))) then false else rest

  unfoldable pub is_sorted : ℕ → (ℕ → A) → Bool
  unfolding is_sorted_from
  is_sorted sz v = if sz == 0 then true else is_sorted_from (sz - 1) 1 v

  unfoldable pub heap_sort : ℕ → (ℕ → A) → Option (ℕ → A)
  unfolding build hsort
  heap_sort sz v = elim (build sz v) [ none ↦ none | some u ↦ hsort sz u ]

  unfoldable pub mix_sort : ℕ → (ℕ → A) → Option (ℕ → A)
  unfolding selec_sort heap_sort
  mix_sort sz v = if ltb sz 10 then some (selec_sort sz v) else heap_sort sz v

  -- The loop of `changed_key`, where `pp` is the parent of `ii`.
  unfoldable pub rise : ℕ → A → (ℕ → A) → ℕ → Option ((ℕ → A) × ℕ)
  unfolding parent
  rise zero obj v ii = none
  rise (suc fuel) obj v ii = elim (ltb 0 ii && ltb (key (v (parent ii))) (key obj)) [
    | false ↦ some (v, ii)
    | true ↦ rise fuel obj (put_at ii (v (parent ii)) v) (parent ii)
  ]

  unfoldable pub changed_key : ℕ → (ℕ → A) → ℕ → Option (ℕ → A)
  unfolding rise heapify
  changed_key sz v idx = elim (rise (suc idx) (v idx) v idx) [
    | none ↦ none
    | some (u, ii) ↦ heapify (suc sz) sz (put_at ii (v idx) u) ii
  ]

  unfoldable pub insert : ℕ → (ℕ → A) → A → Option (ℕ → A)
  unfolding changed_key
  insert sz v obj = changed_key (suc sz) (put_at sz obj v) sz
