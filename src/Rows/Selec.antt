-- ===== src/Rows/Selec.antt =====
-- `selec_sort`, `is_sorted` and `mix_sort`.
use messaging_cells.Common.{
  ℕ, zero, suc, ◌+◌, ◌-◌, ◌≤◌, ◌<◌, ◌≡◌, refl, sym, ◌∙◌, ap, subst, true, ◌==◌, ==_ne, ltb,
  Bool-cases, eq-or-ne, inl, inr, if◌then◌else◌, if_so, if_not, some, arith,
}
use messaging_cells.Rows.Heap.{
  swap, best_from, selec_from, selec_sort, is_sorted_from, is_sorted, mix_sort,
}
use messaging_cells.Rows.Sift.{IsMoved, IsMoved-refl, IsMoved-trans, swap_at, swap_to, swap_ne}
use messaging_cells.Rows.Sorted.{IsSortOf, swap-IsMoved_any, heap_sort-IsSortOf}

module _ {ℓ} {A : Type ℓ} (key : A → ℕ) where
  -- `b` is the place of the smallest object from `lo` on and before `hi`.
  record IsBest (lo hi b : ℕ) (v : ℕ → A) : Type 0 where
    low : lo ≤ b
    high : b < hi
    least : (i : ℕ) → lo ≤ i → i < hi → key (v b) ≤ key (v i)

  next-IsBest :
      (lo jj b : ℕ) (v : ℕ → A)
      → IsBest lo jj b v
      → IsBest lo (jj + 1) (if ltb (key (v jj)) (key (v b)) then jj else b) v
  next-IsBest lo jj b v h =
      let low = h.low in
      let high = h.high in
      elim (Bool-cases (ltb (key (v jj)) (key (v b)))) [
        | inl y ↦
            subst (λ x. IsBest lo (jj + 1) x v) (sym (if_so jj b y))
              record {
                low = omega arith;
                high = omega arith;
                least = λ i l m. elim (eq-or-ne i jj) [
                  | inl e ↦ (let k = ap (λ x. key (v x)) e in omega arith)
                  | inr e ↦ (let k = h.least i l (omega arith) in ground arith)
                ];
              }
        | inr y ↦
            subst (λ x. IsBest lo (jj + 1) x v) (sym (if_not jj b y))
              record {
                low = low;
                high = omega arith;
                least = λ i l m. elim (eq-or-ne i jj) [
                  | inl e ↦ (let k = ap (λ x. key (v x)) e in ground arith)
                  | inr e ↦ h.least i l (omega arith)
                ];
              }
      ]

  best_from-IsBest :
      (lo n jj b : ℕ) (v : ℕ → A) → IsBest lo jj b v → IsBest lo (jj + n) (best_from key n jj b v) v
  unfolding best_from
  best_from-IsBest lo zero jj b v h =
      let e : jj ≡ jj + 0 = omega arith in subst (λ x. IsBest lo x b v) e h
  best_from-IsBest lo (suc n) jj b v h =
      let e : jj + 1 + n ≡ jj + suc n = omega arith in
      subst (λ x. IsBest lo x (best_from key (suc n) jj b v) v) e
        (best_from-IsBest lo n (jj + 1) (if ltb (key (v jj)) (key (v b)) then jj else b) v
          (next-IsBest lo jj b v h))

  -- The objects before `ii` ascend, and none of the others is smaller than one of them.
  record IsFront (ii n : ℕ) (v : ℕ → A) : Type 0 where
    front : (i j : ℕ) → i ≤ j → j < ii → key (v i) ≤ key (v j)
    below : (i j : ℕ) → i < ii → ii ≤ j → j < n → key (v i) ≤ key (v j)

  zero-IsFront : (sz : ℕ) (v : ℕ → A) → IsFront 0 sz v
  zero-IsFront sz v = record {
    front = λ i j l m. absurd (omega arith);
    below = λ i j l m o. absurd (omega arith);
  }

  one-IsBest : (ii : ℕ) (v : ℕ → A) → IsBest ii (ii + 1) ii v
  one-IsBest ii v = record {
    low = omega arith;
    high = omega arith;
    least = λ i l m. (let e : i ≡ ii = omega arith in let k = ap (λ x. key (v x)) e in omega arith);
  }

  step-IsFront :
      (ii n b : ℕ) (v : ℕ → A)
      → ii < n
      → IsFront ii n v
      → IsBest ii n b v
      → IsFront (ii + 1) n (swap v ii b)
  step-IsFront ii n b v l h s =
      let low = s.low in
      let high = s.high in
      let first = ap key (swap_at v ii b ii refl) in
      record {
        front = λ i j a c. elim (eq-or-ne j ii) [
          | inl e ↦
              let kj = ap key (swap_at v ii b j e) in
              elim (eq-or-ne i ii) [
                | inl f ↦ (let ki = ap key (swap_at v ii b i f) in omega arith)
                | inr f ↦
                    let ki = ap key (swap_ne v ii b i f (omega arith)) in
                    let up = h.below i b (omega arith) low high in omega arith
              ]
          | inr e ↦
              let kj = ap key (swap_ne v ii b j e (omega arith)) in
              let ki = ap key (swap_ne v ii b i (omega arith) (omega arith)) in
              let up = h.front i j a (omega arith) in omega arith
        ];
        below = λ i j a c d.
            let at : (k : ℕ) × (ii ≤ k) × (k < n) × (key (swap v ii b j) ≡ key (v k)) =
              elim (eq-or-ne j b) [
                | inl e ↦ (ii, omega arith, l, ap key (swap_to v ii b j (omega arith) e))
                | inr e ↦ (j, omega arith, d, ap key (swap_ne v ii b j (omega arith) e))
              ] in
            let (k, k_low, k_high, kj) = at in
            elim (eq-or-ne i ii) [
              | inl f ↦
                  let ki = ap key (swap_at v ii b i f) in
                  let up = s.least k k_low k_high in omega arith
              | inr f ↦
                  let ki = ap key (swap_ne v ii b i f (omega arith)) in
                  let up = h.below i k (omega arith) k_low k_high in omega arith
            ];
      }

  selec-IsFront :
      (n ii sz : ℕ) (v : ℕ → A)
      → ii + n + 1 ≡ sz
      → IsFront ii sz v
      → IsFront (ii + n) sz (selec_from key n ii v) × IsMoved key sz v (selec_from key n ii v)
  unfolding selec_from
  selec-IsFront zero ii sz v e h =
      let f : ii ≡ ii + 0 = omega arith in (subst (λ x. IsFront x sz v) f h, IsMoved-refl key sz v)
  selec-IsFront (suc n) ii sz v e h =
      let b = best_from key (suc n) (ii + 1) ii v in
      let size : ii + 1 + suc n ≡ sz = omega arith in
      let best : IsBest ii sz b v =
        subst (λ x. IsBest ii x b v) size
          (best_from-IsBest ii (suc n) (ii + 1) ii v (one-IsBest ii v)) in
      let high = best.high in
      let (front, mv) =
        selec-IsFront n (ii + 1) sz (swap v ii b) (omega arith)
          (step-IsFront ii sz b v (omega arith) h best) in
      let f : ii + 1 + n ≡ ii + suc n = omega arith in
      (
        subst (λ x. IsFront x sz (selec_from key (suc n) ii v)) f front,
        IsMoved-trans key sz v (swap v ii b) (selec_from key (suc n) ii v)
            (swap-IsMoved_any key sz v ii b (omega arith) high) mv,
      )

  selec_sort-IsSortOf : (sz : ℕ) (v : ℕ → A) → IsSortOf key sz v (selec_sort key sz v)
  unfolding selec_sort selec_from
  selec_sort-IsSortOf zero v = record {
    ascending = λ i j l m. absurd (omega arith);
    same = λ Q. refl;
  }
  selec_sort-IsSortOf (suc n) v =
      let e : n ≡ suc n - 1 = omega arith in
      let (front, mv) = selec-IsFront n 0 (suc n) v (omega arith) (zero-IsFront (suc n) v) in
      subst (λ x. IsSortOf key (suc n) v (selec_from key x 0 v)) e
        record {
          ascending = λ i j l m. elim (eq-or-ne i j) [
            | inl f ↦ (let k = ap (λ x. key (selec_from key n 0 v x)) f in omega arith)
            | inr f ↦ elim (eq-or-ne j n) [
              | inl g ↦ front.below i j (omega arith) (omega arith) m
              | inr g ↦ front.front i j l (omega arith)
            ]
          ];
          same = λ Q. mv.moved Q (suc n) (omega arith);
        }

  sorted_from :
      (n ii sz : ℕ) (v : ℕ → A)
      → 0 < ii
      → ii + n ≤ sz
      → ((i j : ℕ) → i ≤ j → j < sz → key (v i) ≤ key (v j))
      → is_sorted_from key n ii v ≡ true
  unfolding is_sorted_from
  sorted_from zero ii sz v z l h = refl
  sorted_from (suc n) ii sz v z l h =
      let here = h (ii - 1) ii (omega arith) (omega arith) in
      let rest = sorted_from n (ii + 1) sz v (omega arith) (omega arith) h in
      ground (arith, here, rest)

  IsSortOf-sorted : (sz : ℕ) (v w : ℕ → A) → IsSortOf key sz v w → is_sorted key sz w ≡ true
  unfolding is_sorted
  IsSortOf-sorted zero v w s = refl
  IsSortOf-sorted (suc n) v w s =
      if_not {b = suc n == 0} _ _ (==_ne {a = suc n} {b = 0} (omega arith))
      ∙ sorted_from (suc n - 1) 1 (suc n) w (omega arith) (omega arith) s.ascending

  -- `mix_sort` ends for each row, whichever of both sorts it takes: the objects then ascend, each
  -- test passes as many of them as before, and `is_sorted` says so.
  pub mix_sort-IsSortOf :
      (sz : ℕ) (v : ℕ → A)
      → (w : ℕ → A) × (mix_sort key sz v ≡ some w)
        × IsSortOf key sz v w
        × (is_sorted key sz w ≡ true)
  unfolding mix_sort
  mix_sort-IsSortOf sz v = elim (Bool-cases (ltb sz 10)) [
    | inl y ↦
        let s = selec_sort-IsSortOf sz v in
        (selec_sort key sz v, if_so _ _ y, s, IsSortOf-sorted sz v (selec_sort key sz v) s)
    | inr y ↦
        let (w, e, s) = heap_sort-IsSortOf key sz v in
        (w, if_not _ _ y ∙ e, s, IsSortOf-sorted sz v w s)
  ]
