-- ===== src/Rows/Sorting.antt =====
-- Building a heap, its top, and the sort by taking tops.
use messaging_cells.Common.{
  ℕ, zero, suc, ◌/◌, ◌%◌, ◌≤◌, ◌<◌, ◌≡◌, ◌∙◌, ap, eq-or-ne, inl, inr, none, some, arith,
}
use messaging_cells.Rows.Heap.{build_from, build}
use messaging_cells.Rows.Sift.{
  IsChild, child_gt, IsHeapFrom, IsSift, IsMoved, IsMoved-trans, heapify-IsHeapFrom,
}

parent_of : (j : ℕ) → IsChild (suc j) (j / 2)
parent_of j = elim (eq-or-ne (j % 2) 0) [ inl e ↦ inl (omega arith) | inr e ↦ inr (omega arith) ]

module _ {ℓ} {A : Type ℓ} (key : A → ℕ) where
  to_sift : (sz : ℕ) (v : ℕ → A) (idx : ℕ) → IsHeapFrom key (suc idx) sz v → IsSift key idx sz idx v
  unfolding IsHeapFrom
  to_sift sz v idx h = record {
    others = λ p c l ne ch b. h p c (omega arith) ch b;
    under = λ p c l ch b k. (let gt = child_gt ch in absurd (omega arith));
  }

  build_from-IsHeapFrom :
      (sz : ℕ) (v : ℕ → A) (ii : ℕ)
      → ii ≤ sz
      → IsHeapFrom key (suc ii) sz v
      → (u : ℕ → A) × (build_from key sz v ii ≡ some u) × IsHeapFrom key 0 sz u × IsMoved key sz v u
  unfolding build_from IsHeapFrom
  build_from-IsHeapFrom sz v zero l h =
      heapify-IsHeapFrom key (suc sz) 0 sz v 0 (omega arith) (omega arith) (omega arith)
        (to_sift sz v 0 h)
  build_from-IsHeapFrom sz v (suc ii) l h =
      let (u, e, heap, mv) =
        heapify-IsHeapFrom key (suc sz) (suc ii) sz v (suc ii) l (omega arith) (omega arith)
          (to_sift sz v (suc ii) h) in
      let (w, f, heap2, mv2) = build_from-IsHeapFrom sz u ii (omega arith) heap in
      (
        w,
        ap (λ o. elim o [ none ↦ none | some x ↦ build_from key sz x ii ]) e ∙ f,
        heap2,
        IsMoved-trans key sz v u w mv mv2,
      )

  -- `build` ends for each row and makes a heap of it; only objects of the row move, and each test
  -- passes as many as before.
  pub build-IsHeapFrom :
      (sz : ℕ) (v : ℕ → A)
      → (u : ℕ → A) × (build key sz v ≡ some u) × IsHeapFrom key 0 sz u × IsMoved key sz v u
  unfolding build IsHeapFrom
  build-IsHeapFrom sz v =
      build_from-IsHeapFrom sz v (sz / 2) (omega arith) λ p c l ch b. absurd (far p c l ch b)
    where
      far : (p c : ℕ) → suc (sz / 2) ≤ p → IsChild c p → c < sz → ⊥
      far p c l (inl e) b = omega arith
      far p c l (inr e) b = omega arith

  -- The top of a heap is largest.
  pub top_max :
      (sz : ℕ) (v : ℕ → A)
      → IsHeapFrom key 0 sz v
      → (n i : ℕ) → i ≤ n
      → i < sz
      → key (v i) ≤ key (v 0)
  unfolding IsHeapFrom
  top_max sz v h n zero l b = omega arith
  top_max sz v h zero (suc j) l b = absurd (omega arith)
  top_max sz v h (suc n) (suc j) l b =
      let p = j / 2 in
      let up = top_max sz v h n p (omega arith) (omega arith) in
      let here = h p (suc j) (omega arith) (parent_of j) b in omega arith
