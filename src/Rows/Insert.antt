-- ===== src/Rows/Insert.antt =====
-- `insert` and `changed_key` on a heap.
use mathlib.Core.Path.{fun_ext}
use messaging_cells.Common.{
  ℕ, zero, suc, ◌+◌, ◌%◌, ◌≤◌, ◌<◌, ◌≡◌, ◌≢◌, sym, ◌∙◌, ap, subst, Bool, true, false, ◌&&◌, ltb,
  Bool-cases, eq-or-ne, inl, inr, if◌then◌else◌, Option, none, some, arith, put_at, put_at_self,
  put_at-ne,
}
use messaging_cells.Rows.Heap.{swap, parent, heapify, rise, changed_key, insert}
use messaging_cells.Rows.Tally.{score, tally, tally-same}
use messaging_cells.Rows.Sift.{
  IsChild, child_gt, child_once, IsHeapFrom, IsSift, IsMoved, IsMoved-refl, IsMoved-trans,
  swap-IsMoved, heapify-IsHeapFrom, swap_at, swap_to, swap_ne,
}

parent-IsChild : (i : ℕ) → 0 < i → IsChild i (parent i)
unfolding parent
parent-IsChild i l = elim (eq-or-ne (i % 2) 1) [
  | inl e ↦ inl (omega arith)
  | inr e ↦ inr (omega arith)
]

-- The last object of the loop: it is put at the parent, and the parent's at its place.
raised {ℓ} :
    {A : Type ℓ} (v : ℕ → A) (obj : A) (ii pp : ℕ)
    → pp ≢ ii
    → put_at pp obj (put_at ii (v pp) v) ≡ swap (put_at ii obj v) ii pp
raised v obj ii pp ne = fun_ext λ w. elim (eq-or-ne w pp) [
  | inl e ↦
      let g = put_at ii obj v in
      ap (put_at pp obj (put_at ii (v pp) v)) e
      ∙ put_at_self pp obj (put_at ii (v pp) v)
      ∙ sym (swap_to g ii pp w (λ f. ne (sym e ∙ f)) e ∙ put_at_self ii obj v)
  | inr e ↦ elim (eq-or-ne w ii) [
    | inl f ↦
        let g = put_at ii obj v in
        put_at-ne pp w obj (put_at ii (v pp) v) e
        ∙ ap (put_at ii (v pp) v) f
        ∙ put_at_self ii (v pp) v
        ∙ sym (swap_at g ii pp w f ∙ put_at-ne ii pp obj v ne)
    | inr f ↦
        put_at-ne pp w obj (put_at ii (v pp) v) e
        ∙ put_at-ne ii w (v pp) v f
        ∙ sym (swap_ne (put_at ii obj v) ii pp w f e ∙ put_at-ne ii w obj v f)
  ]
]

module _ {ℓ} {A : Type ℓ} (key : A → ℕ) where
  -- A heap but for the object `ii` under its parent; its children fit there.
  record IsRise (sz ii : ℕ) (v : ℕ → A) : Type 0 where
    others : (p c : ℕ) → c ≢ ii → IsChild c p → c < sz → key (v c) ≤ key (v p)
    under : (p c : ℕ) → IsChild ii p → IsChild c ii → c < sz → key (v c) ≤ key (v p)

  step-IsRise :
      (sz ii pp : ℕ) (v : ℕ → A)
      → IsRise sz ii v
      → IsChild ii pp
      → ii < sz
      → key (v pp) < key (v ii)
      → IsRise sz pp (swap v ii pp)
  step-IsRise sz ii pp v s ch b less =
      let gt = child_gt ch in
      record {
        others = λ p c ne k l.
            let kgt = child_gt k in
            elim (eq-or-ne c ii) [
              | inl e ↦
                  let same : p ≡ pp = child_once k (subst (λ x. IsChild x pp) (sym e) ch) in
                  let kc = ap key (swap_at v ii pp c e) in
                  let kp = ap key (swap_to v ii pp p (omega arith) same) in omega arith
              | inr e ↦
                  let kc = ap key (swap_ne v ii pp c e ne) in
                  elim (eq-or-ne p ii) [
                    | inl f ↦
                        let kp = ap key (swap_at v ii pp p f) in
                        let up = s.under pp c ch (subst (IsChild c) f k) l in omega arith
                    | inr f ↦
                        let up = s.others p c e k l in
                        elim (eq-or-ne p pp) [
                          | inl g ↦
                              let kp = ap key (swap_to v ii pp p f g) in
                              let vp = ap (λ x. key (v x)) g in omega arith
                          | inr g ↦ (let kp = ap key (swap_ne v ii pp p f g) in omega arith)
                        ]
                  ]
            ];
        under = λ p c k m l.
            let kgt = child_gt k in
            let mgt = child_gt m in
            let kp = ap key (swap_ne v ii pp p (omega arith) (omega arith)) in
            let up = s.others p pp (omega arith) k (omega arith) in
            elim (eq-or-ne c ii) [
              | inl e ↦ (let kc = ap key (swap_at v ii pp c e) in omega arith)
              | inr e ↦
                  let kc = ap key (swap_ne v ii pp c e (omega arith)) in
                  let up2 = s.others pp c e m l in omega arith
            ];
      }

  rise_or : ℕ → A → (ℕ → A) → ℕ → Bool → Option ((ℕ → A) × ℕ)
  rise_or fuel obj v ii b = elim b [
    | false ↦ some (v, ii)
    | true ↦ rise key fuel obj (put_at ii (v (parent ii)) v) (parent ii)
  ]

  at_rest :
      (sz : ℕ) (obj : A) (v : ℕ → A) (ii : ℕ)
      → IsRise sz ii (put_at ii obj v)
      → (ltb 0 ii && ltb (key (v (parent ii))) (key obj)) ≡ false
      → IsHeapFrom key 0 sz (put_at ii obj v)
  unfolding IsHeapFrom
  at_rest sz obj v ii s y p c l ch b = elim (eq-or-ne c ii) [
    | inl e ↦
        let gt = child_gt ch in
        let deep : 0 < ii = omega arith in
        let same : p ≡ parent ii =
          child_once ch (subst (λ x. IsChild x (parent ii)) (sym e) (parent-IsChild ii deep)) in
        let kc = ap key (ap (put_at ii obj v) e ∙ put_at_self ii obj v) in
        let kp = ap key (put_at-ne ii p obj v (omega arith) ∙ ap v same) in ground (arith, y)
    | inr e ↦ s.others p c e ch b
  ]

  -- The loop ends, at a place where the object makes a heap.
  rise-IsHeapFrom :
      (fuel sz : ℕ) (obj : A) (v : ℕ → A) (ii : ℕ)
      → ii < fuel
      → ii < sz
      → IsRise sz ii (put_at ii obj v)
      → (u : ℕ → A) × (jj : ℕ) × (rise key fuel obj v ii ≡ some (u, jj))
        × (jj < sz)
        × IsHeapFrom key 0 sz (put_at jj obj u)
        × IsMoved key sz (put_at ii obj v) (put_at jj obj u)
  unfolding rise rise_or
  rise-IsHeapFrom zero sz obj v ii f l s = absurd (omega arith)
  rise-IsHeapFrom (suc fuel) sz obj v ii f l s =
      let pp = parent ii in
      elim (Bool-cases (ltb 0 ii && ltb (key (v pp)) (key obj))) [
        | inl y ↦
            let deep : 0 < ii = ground (arith, y) in
            let ch = parent-IsChild ii deep in
            let gt = child_gt ch in
            let e = raised v obj ii pp (omega arith) in
            let ki = ap key (put_at_self ii obj v) in
            let kp = ap key (put_at-ne ii pp obj v (omega arith)) in
            let less : key (v pp) < key obj = ground (arith, y) in
            let s2 = step-IsRise sz ii pp (put_at ii obj v) s ch l (omega arith) in
            let (u, jj, eq, jl, heap, mv) =
              rise-IsHeapFrom fuel sz obj (put_at ii (v pp) v) pp (omega arith) (omega arith)
                (subst (IsRise sz pp) (sym e) s2) in
            (
              u,
              jj,
              ap (rise_or fuel obj v ii) y ∙ eq,
              jl,
              heap,
              IsMoved-trans key sz (put_at ii obj v) (swap (put_at ii obj v) ii pp)
                  (put_at jj obj u)
                  (swap-IsMoved key sz (put_at ii obj v) ii pp l (omega arith) (omega arith))
                  (subst (λ x. IsMoved key sz x (put_at jj obj u)) e mv),
            )
        | inr y ↦ (
          v,
          ii,
          ap (rise_or fuel obj v ii) y,
          l,
          at_rest sz obj v ii s y,
          IsMoved-refl key sz (put_at ii obj v),
        )
      ]

  heap-IsSift : (sz ii : ℕ) (v : ℕ → A) → ii < sz → IsHeapFrom key 0 sz v → IsSift key 0 sz ii v
  unfolding IsHeapFrom
  heap-IsSift sz ii v l h = record {
    others = λ p c a ne ch b. h p c a ch b;
    under =
        λ p c a ch k b. let up = h p ii a ch l in let up2 = h ii c (omega arith) k b in omega arith;
  }

  -- The row with the new object behind the others, as the loop sees it.
  new_row : ℕ → (ℕ → A) → A → ℕ → A
  new_row sz v obj = put_at sz (put_at sz obj v sz) (put_at sz obj v)

  new_row-old : (sz : ℕ) (v : ℕ → A) (obj : A) (i : ℕ) → i ≢ sz → new_row sz v obj i ≡ v i
  unfolding new_row
  new_row-old sz v obj i ne =
      put_at-ne sz i (put_at sz obj v sz) (put_at sz obj v) ne ∙ put_at-ne sz i obj v ne

  new_row-new : (sz : ℕ) (v : ℕ → A) (obj : A) → new_row sz v obj sz ≡ obj
  unfolding new_row
  new_row-new sz v obj =
      put_at_self sz (put_at sz obj v sz) (put_at sz obj v) ∙ put_at_self sz obj v

  new_row-IsRise :
      (sz : ℕ) (v : ℕ → A) (obj : A) → IsHeapFrom key 0 sz v → IsRise (suc sz) sz (new_row sz v obj)
  unfolding IsHeapFrom
  new_row-IsRise sz v obj h = record {
    others = λ p c ne ch l.
        let gt = child_gt ch in
        let kc = ap key (new_row-old sz v obj c ne) in
        let kp = ap key (new_row-old sz v obj p (omega arith)) in
        let up = h p c (omega arith) ch (omega arith) in omega arith;
    under = λ p c k ch l. (let gt = child_gt ch in absurd (omega arith));
  }

  new_row-tally :
      (sz : ℕ) (v : ℕ → A) (obj : A) (Q : A → Bool)
      → tally Q (new_row sz v obj) (suc sz) ≡ tally Q v sz + (if Q obj then 1 else 0)
  unfolding tally score
  new_row-tally sz v obj Q =
      let a = tally-same Q (new_row sz v obj) v sz λ i l. new_row-old sz v obj i (omega arith) in
      let b : score Q (new_row sz v obj sz) ≡ (if Q obj then 1 else 0) =
        ap (score Q) (new_row-new sz v obj) in
      omega arith

  -- `insert` puts an object into a heap and gives a heap again: the loops end, and each test passes
  -- the objects that it passed before, and the new one if it passes that.
  pub insert-IsHeapFrom :
      (sz : ℕ) (v : ℕ → A) (obj : A)
      → IsHeapFrom key 0 sz v
      → (u : ℕ → A) × (insert key sz v obj ≡ some u)
        × IsHeapFrom key 0 (suc sz) u
        × ((Q : A → Bool) → tally Q u (suc sz) ≡ tally Q v sz + (if Q obj then 1 else 0))
  unfolding insert changed_key new_row
  insert-IsHeapFrom sz v obj h =
      let v0 = put_at sz obj v in
      let (u, jj, e, l, heap, mv) =
        rise-IsHeapFrom (suc sz) (suc sz) (v0 sz) v0 sz (omega arith) (omega arith)
          (new_row-IsRise sz v obj h) in
      let g = put_at jj (v0 sz) u in
      let (w, f, heap2, mv2) =
        heapify-IsHeapFrom key (suc (suc sz)) 0 (suc sz) g jj (omega arith) (omega arith)
          (omega arith) (heap-IsSift (suc sz) jj g l heap) in
      (
        w,
        ap
              (λ o. elim o [
                | none ↦ none
                | some (x, ii) ↦ heapify key (suc (suc sz)) (suc sz) (put_at ii (v0 sz) x) ii
              ])
              e
            ∙ f,
        heap2,
        λ Q.
            mv2.moved Q (suc sz) (omega arith)
            ∙ mv.moved Q (suc sz) (omega arith)
            ∙ new_row-tally sz v obj Q,
      )
