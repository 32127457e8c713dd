-- ===== src/Rows/Sorted.antt =====
-- `hsort` and `pop_top` on a heap.
use messaging_cells.Common.{
  ℕ, zero, suc, ◌+◌, ◌≤◌, ◌<◌, ◌≡◌, refl, sym, ◌∙◌, ap, Bool, true, ltb, leb, Bool-cases, eq-or-ne,
  inl, inr, if◌then◌else◌, none, some, arith, put_at, put_at-ne,
}
use messaging_cells.Rows.Heap.{swap, hsort, heap_sort, pop_top}
use messaging_cells.Rows.Tally.{score, tally, tally-same, drop-tally}
use messaging_cells.Rows.Sift.{
  child_gt, IsHeapFrom, IsSift, IsMoved, IsMoved-refl, IsMoved-trans, swap-IsMoved,
  heapify-IsHeapFrom, swap_at, swap_to, swap_ne,
}
use messaging_cells.Rows.Sorting.{build-IsHeapFrom, top_max}

module _ {ℓ} {A : Type ℓ} (key : A → ℕ) where
  -- What moves among the first objects moves among more.
  IsMoved-wide : (m n : ℕ) (v u : ℕ → A) → m ≤ n → IsMoved key m v u → IsMoved key n v u
  IsMoved-wide m n v u l a = record {
    kept = λ Q h i k. elim (Bool-cases (ltb i m)) [
      | inl y ↦ a.kept Q (λ j o. h j (omega arith)) i (ground arith)
      | inr y ↦ ap Q (a.rest i (ground arith)) ∙ h i k
    ];
    rest = λ i k. a.rest i (omega arith);
    moved = λ Q i k. a.moved Q i (omega arith);
  }

  pub swap-IsMoved_any :
      (sz : ℕ) (v : ℕ → A) (i j : ℕ) → i < sz → j < sz → IsMoved key sz v (swap v i j)
  swap-IsMoved_any sz v i j l m = elim (eq-or-ne i j) [
    | inr ne ↦ swap-IsMoved key sz v i j l m ne
    | inl e ↦
        let same : (k : ℕ) → swap v i j k ≡ v k = λ k. elim (eq-or-ne k i) [
          | inl f ↦ swap_at v i j k f ∙ ap v (sym e ∙ sym f)
          | inr f ↦ swap_ne v i j k f (λ g. f (g ∙ sym e))
        ] in
        record {
          kept = λ Q h k n. ap Q (same k) ∙ h k n;
          rest = λ k n. same k;
          moved = λ Q n o. tally-same Q (swap v i j) v n λ k p. same k;
        }
  ]

  -- A heap of `ii` objects before objects that ascend, none of them smaller than one of the heap.
  record IsPart (ii n : ℕ) (v : ℕ → A) : Type 0 where
    heap : IsHeapFrom key 0 ii v
    tail : (i j : ℕ) → ii ≤ i → i ≤ j → j < n → key (v i) ≤ key (v j)
    over : (i j : ℕ) → i < ii → ii ≤ j → j < n → key (v i) ≤ key (v j)

  top_swap : (ii : ℕ) (v : ℕ → A) → swap v 0 ii ii ≡ v 0
  top_swap ii v = elim (eq-or-ne ii 0) [
    | inl e ↦ swap_at v 0 ii ii e ∙ ap v e
    | inr e ↦ swap_to v 0 ii ii e refl
  ]

  swapped-IsSift : (ii n : ℕ) (v : ℕ → A) → IsPart (suc ii) n v → IsSift key 0 ii 0 (swap v 0 ii)
  unfolding IsHeapFrom
  swapped-IsSift ii n v h = record {
    others = λ p c l ne ch b.
        let gt = child_gt ch in
        let kp = ap key (swap_ne v 0 ii p ne (omega arith)) in
        let kc = ap key (swap_ne v 0 ii c (omega arith) (omega arith)) in
        let up = h.heap p c l ch (omega arith) in omega arith;
    under = λ p c l ch. (let gt = child_gt ch in absurd (omega arith));
  }

  -- A bound of the keys of the heap stays one.
  bound :
      (ii k : ℕ) (v u : ℕ → A)
      → ((i : ℕ) → i < suc ii → key (v i) ≤ k)
      → IsMoved key ii (swap v 0 ii) u
      → (i : ℕ) → i < ii
      → key (u i) ≤ k
  bound ii k v u h mv i l =
      let all : (j : ℕ) → j < ii → leb (key (swap v 0 ii j)) k ≡ true = λ j m. elim (eq-or-ne j 0) [
        | inl e ↦
            (let kj = ap key (swap_at v 0 ii j e) in let b = h ii (omega arith) in ground arith)
        | inr e ↦
            (let kj = ap key (swap_ne v 0 ii j e (omega arith)) in
              let b = h j (omega arith) in ground arith)
      ] in
      let one = mv.kept (λ x. leb (key x) k) all i l in ground arith

  at_end :
      (ii : ℕ) (v u : ℕ → A)
      → IsMoved key ii (swap v 0 ii) u
      → (j : ℕ) → j ≡ ii
      → key (u j) ≡ key (v 0)
  at_end ii v u mv j e = ap key (ap u e ∙ mv.rest ii (omega arith) ∙ top_swap ii v)

  behind :
      (ii : ℕ) (v u : ℕ → A)
      → IsMoved key ii (swap v 0 ii) u
      → (j : ℕ) → ii < j
      → key (u j) ≡ key (v j)
  behind ii v u mv j l =
      ap key (mv.rest j (omega arith) ∙ swap_ne v 0 ii j (omega arith) (omega arith))

  step-IsPart :
      (ii n : ℕ) (v u : ℕ → A)
      → suc ii ≤ n
      → IsPart (suc ii) n v
      → IsHeapFrom key 0 ii u
      → IsMoved key ii (swap v 0 ii) u
      → IsPart ii n u
  step-IsPart ii n v u l h heap mv = record {
    heap = heap;
    tail = λ i j a b c. elim (eq-or-ne i ii) [
      | inl e ↦
          let ki = at_end ii v u mv i e in
          elim (eq-or-ne j ii) [
            | inl f ↦ (let kj = at_end ii v u mv j f in omega arith)
            | inr f ↦
                let kj = behind ii v u mv j (omega arith) in
                let up = h.over 0 j (omega arith) (omega arith) c in omega arith
          ]
      | inr e ↦
          let ki = behind ii v u mv i (omega arith) in
          let kj = behind ii v u mv j (omega arith) in
          let up = h.tail i j (omega arith) b c in omega arith
    ];
    over = λ i j a b c. elim (eq-or-ne j ii) [
      | inl f ↦
          let kj = at_end ii v u mv j f in
          let up =
            bound ii (key (v 0)) v u (λ k m. top_max key (suc ii) v h.heap k k (omega arith) m) mv i
              a in
          omega arith
      | inr f ↦
          let kj = behind ii v u mv j (omega arith) in
          let up = bound ii (key (v j)) v u (λ k m. h.over k j m (omega arith) c) mv i a in
          omega arith
    ];
  }

  hsort-IsPart :
      (ii n : ℕ) (v : ℕ → A)
      → ii ≤ n
      → IsPart ii n v
      → (w : ℕ → A) × (hsort key ii v ≡ some w) × IsPart 0 n w × IsMoved key n v w
  unfolding hsort
  hsort-IsPart zero n v l h = (v, refl, h, IsMoved-refl key n v)
  hsort-IsPart (suc ii) n v l h =
      let (u, e, heap, mv) =
        heapify-IsHeapFrom key (suc ii) 0 ii (swap v 0 ii) 0 (omega arith) (omega arith)
          (omega arith) (swapped-IsSift ii n v h) in
      let (w, f, done, mv2) =
        hsort-IsPart ii n u (omega arith) (step-IsPart ii n v u l h heap mv) in
      (
        w,
        ap (λ o. elim o [ none ↦ none | some x ↦ hsort key ii x ]) e ∙ f,
        done,
        IsMoved-trans key n v u w
            (IsMoved-trans key n v (swap v 0 ii) u
              (swap-IsMoved_any n v 0 ii (omega arith) (omega arith))
              (IsMoved-wide ii n (swap v 0 ii) u (omega arith) mv))
            mv2,
      )

  -- The first `sz` objects ascend, and each test passes as many of them as of those before.
  pub record IsSortOf (sz : ℕ) (v w : ℕ → A) : Type ℓ where
    pub ascending : (i j : ℕ) → i ≤ j → j < sz → key (w i) ≤ key (w j)
    pub same : (Q : A → Bool) → tally Q w sz ≡ tally Q v sz

  pub heap_sort-IsSortOf :
      (sz : ℕ) (v : ℕ → A) → (w : ℕ → A) × (heap_sort key sz v ≡ some w) × IsSortOf sz v w
  unfolding heap_sort
  heap_sort-IsSortOf sz v =
      let (u, e, heap, mv) = build-IsHeapFrom key sz v in
      let (w, f, done, mv2) = hsort-IsPart sz sz u (omega arith) record {
        heap = heap;
        tail = λ i j a b c. absurd (omega arith);
        over = λ i j a b c. absurd (omega arith);
      } in
      (
        w,
        ap (λ o. elim o [ none ↦ none | some x ↦ hsort key sz x ]) e ∙ f,
        record {
          ascending = λ i j a b. done.tail i j (omega arith) a b;
          same = λ Q. mv2.moved Q sz (omega arith) ∙ mv.moved Q sz (omega arith);
        },
      )

  -- The top of a heap that is not empty is one of its largest objects, and what is left is a heap of
  -- all others.
  pub pop_top-IsHeapFrom :
      (sz : ℕ) (v : ℕ → A)
      → IsHeapFrom key 0 (suc sz) v
      → (u : ℕ → A) × (pop_top key (suc sz) v ≡ some (v 0, u))
        × ((i : ℕ) → i < suc sz → key (v i) ≤ key (v 0))
        × IsHeapFrom key 0 sz u
        × ((Q : A → Bool) → tally Q u sz + (if Q (v 0) then 1 else 0) ≡ tally Q v (suc sz))
  unfolding pop_top IsHeapFrom score
  pop_top-IsHeapFrom sz v h =
      let g = put_at 0 (v sz) v in
      let sift : IsSift key 0 sz 0 g = record {
        others = λ p c l ne ch b.
            let gt = child_gt ch in
            let kp = ap key (put_at-ne 0 p (v sz) v ne) in
            let kc = ap key (put_at-ne 0 c (v sz) v (omega arith)) in
            let up = h p c l ch (omega arith) in omega arith;
        under = λ p c l ch. (let gt = child_gt ch in absurd (omega arith));
      } in
      let (u, e, heap, mv) =
        heapify-IsHeapFrom key (suc sz) 0 sz g 0 (omega arith) (omega arith) (omega arith) sift in
      (
        u,
        ap (λ o. elim o [ none ↦ none | some x ↦ some (v 0, x) ]) e,
        λ i l. top_max key (suc sz) v h i i (omega arith) l,
        heap,
        λ Q. (let a = mv.moved Q sz (omega arith) in let b = drop-tally Q v sz in omega arith),
      )
