-- ===== src/Sornet/Values.antt =====
-- The network as a function of the values of its wires, and the Booleans that it sorts: whether a
-- value reaches `t`. A wire that is not there counts as one that does.
use messaging_cells.Common.{
  ℕ, zero, suc, ◌+◌, ◌≤◌, ◌<◌, ◌≡◌, ◌≢◌, refl, sym, ◌∙◌, ap, ap₂, subst, Bool, ◌&&◌, ◌||◌, ltb, leb,
  if◌then◌else◌, inl, inr, eq-or-ne, put_at, arith,
}
use messaging_cells.Sornet.Build.{half_down, alt_down}

-- The number of wires of a network of `k` halvings.
unfoldable pub width : ℕ → ℕ
width zero = 1
width (suc k) = width k + width k

unfoldable pub cmp_vals : ℕ → ℕ → ℕ → (ℕ → ℕ) → ℕ → ℕ
cmp_vals tot up dn v =
    if leb tot up || leb tot dn || ltb (v up) (v dn)
    then v
    else put_at dn (v up) (put_at up (v dn) v)

-- The last of the pairs comes first.
unfoldable pub pairs_vals : ℕ → ℕ → (ℕ → ℕ) → ℕ → ℕ → (ℕ → ℕ) → ℕ → ℕ
unfolding cmp_vals
pairs_vals tot pos down zero ii v = v
pairs_vals tot pos down (suc n) ii v =
    cmp_vals tot (pos + ii) (down ii) (pairs_vals tot pos down n (ii + 1) v)

unfoldable pub bitonic_vals : ℕ → ℕ → ℕ → (ℕ → ℕ) → ℕ → ℕ
unfolding pairs_vals half_down width
bitonic_vals tot zero pos v = v
bitonic_vals tot (suc k) pos v = bitonic_vals tot k pos (
    bitonic_vals tot k (pos + width k) (pairs_vals tot pos (half_down pos (width k)) (width k) 0 v))

unfoldable pub merger_vals : ℕ → ℕ → ℕ → (ℕ → ℕ) → ℕ → ℕ
unfolding bitonic_vals alt_down
merger_vals tot zero pos v = v
merger_vals tot (suc k) pos v = bitonic_vals tot k pos (
    bitonic_vals tot k (pos + width k)
      (pairs_vals tot pos (alt_down pos (width (suc k))) (width k) 0 v))

unfoldable pub sorter_vals : ℕ → ℕ → ℕ → (ℕ → ℕ) → ℕ → ℕ
unfolding merger_vals
sorter_vals tot zero pos v = v
sorter_vals tot (suc k) pos v =
    merger_vals tot (suc k) pos (sorter_vals tot k pos (sorter_vals tot k (pos + width k) v))

unfoldable pub reaches : ℕ → ℕ → (ℕ → ℕ) → ℕ → Bool
reaches tot t v w = leb tot w || leb t (v w)

-- The pairs of a cleaner: no wire is in two of them.
pub record ArePairs (pos h : ℕ) (down : ℕ → ℕ) : Type 0 where
  pub above : (i : ℕ) → i < h → pos + h ≤ down i
  pub once : (i j : ℕ) → i < h → j < h → down i ≡ down j → i ≡ j

module _ (tot t : ℕ) where
  cmp_up :
      (up dn : ℕ) (v : ℕ → ℕ)
      → up < dn
      → reaches tot t (cmp_vals tot up dn v) up ≡ (reaches tot t v up && reaches tot t v dn)
  unfolding reaches cmp_vals
  cmp_up up dn v h = ground arith

  cmp_down :
      (up dn : ℕ) (v : ℕ → ℕ)
      → up < dn
      → reaches tot t (cmp_vals tot up dn v) dn ≡ (reaches tot t v up || reaches tot t v dn)
  unfolding reaches cmp_vals
  cmp_down up dn v h = ground arith

  pub cmp_ne : (up dn w : ℕ) (v : ℕ → ℕ) → w ≢ up → w ≢ dn → cmp_vals tot up dn v w ≡ v w
  unfolding cmp_vals
  cmp_ne up dn w v h k = ground arith

  module _ (pos : ℕ) (down : ℕ → ℕ) where
    pub pairs_ne :
        (n ii w : ℕ) (v : ℕ → ℕ)
        → ((i : ℕ) → ii ≤ i → i < ii + n → (w ≢ pos + i) × (w ≢ down i))
        → pairs_vals tot pos down n ii v w ≡ v w
    unfolding pairs_vals
    pairs_ne zero ii w v h = refl
    pairs_ne (suc n) ii w v h =
        let here = h ii (omega arith) (omega arith) in
        cmp_ne (pos + ii) (down ii) w (pairs_vals tot pos down n (ii + 1) v) here.0 here.1
        ∙ pairs_ne n (ii + 1) w v λ i a b. h i (omega arith) (omega arith)

  pub reaches-same : (u v : ℕ → ℕ) (w : ℕ) → u w ≡ v w → reaches tot t u w ≡ reaches tot t v w
  unfolding reaches
  reaches-same u v w e = ap (λ x. leb tot w || leb t x) e

  module _ (pos h : ℕ) (down : ℕ → ℕ) (a : ArePairs pos h down) where
    first_below : (n ii : ℕ) → ii + suc n ≤ h → pos + ii < down ii
    first_below n ii b = let k = a.above ii (omega arith) in omega arith

    first_up :
        (n ii : ℕ) (v : ℕ → ℕ)
        → ii + suc n ≤ h
        → pairs_vals tot pos down n (ii + 1) v (pos + ii) ≡ v (pos + ii)
    first_up n ii v b =
        pairs_ne pos down n (ii + 1) (pos + ii) v
          λ i l m. (omega arith, let k = a.above i (omega arith) in omega arith)

    first_down :
        (n ii : ℕ) (v : ℕ → ℕ)
        → ii + suc n ≤ h
        → pairs_vals tot pos down n (ii + 1) v (down ii) ≡ v (down ii)
    first_down n ii v b = pairs_ne pos down n (ii + 1) (down ii) v λ i l m. (
      let k = a.above ii (omega arith) in omega arith,
      λ e. (let k = a.once ii i (omega arith) (omega arith) e in omega arith),
    )

    -- What a cleaner leaves above and below.
    pub pairs_up :
        (n ii i : ℕ) (v : ℕ → ℕ)
        → ii ≤ i
        → i < ii + n
        → ii + n ≤ h
        → reaches tot t (pairs_vals tot pos down n ii v) (pos + i)
          ≡ (reaches tot t v (pos + i) && reaches tot t v (down i))
    unfolding pairs_vals
    pairs_up zero ii i v l m b = absurd (omega arith)
    pairs_up (suc n) ii i v l m b = elim (eq-or-ne i ii) [
      | inl e ↦
          subst
            (λ j.
              reaches tot t
                (cmp_vals tot (pos + ii) (down ii) (pairs_vals tot pos down n (ii + 1) v)) (pos + j)
              ≡ (reaches tot t v (pos + j) && reaches tot t v (down j)))
            (sym e)
            (cmp_up (pos + ii) (down ii) (pairs_vals tot pos down n (ii + 1) v) (first_below n ii b)
              ∙ ap₂ ◌&&◌
                  (reaches-same (pairs_vals tot pos down n (ii + 1) v) v (pos + ii)
                    (first_up n ii v b))
                  (reaches-same (pairs_vals tot pos down n (ii + 1) v) v (down ii)
                    (first_down n ii v b)))
      | inr ne ↦
          reaches-same (cmp_vals tot (pos + ii) (down ii) (pairs_vals tot pos down n (ii + 1) v))
            (pairs_vals tot pos down n (ii + 1) v) (pos + i)
            (cmp_ne (pos + ii) (down ii) (pos + i) (pairs_vals tot pos down n (ii + 1) v)
              (omega arith) (let k = a.above ii (omega arith) in omega arith))
          ∙ pairs_up n (ii + 1) i v (omega arith) (omega arith) (omega arith)
    ]

    pub pairs_down :
        (n ii i : ℕ) (v : ℕ → ℕ)
        → ii ≤ i
        → i < ii + n
        → ii + n ≤ h
        → reaches tot t (pairs_vals tot pos down n ii v) (down i)
          ≡ (reaches tot t v (pos + i) || reaches tot t v (down i))
    unfolding pairs_vals
    pairs_down zero ii i v l m b = absurd (omega arith)
    pairs_down (suc n) ii i v l m b = elim (eq-or-ne i ii) [
      | inl e ↦
          subst
            (λ j.
              reaches tot t
                (cmp_vals tot (pos + ii) (down ii) (pairs_vals tot pos down n (ii + 1) v)) (down j)
              ≡ (reaches tot t v (pos + j) || reaches tot t v (down j)))
            (sym e)
            (cmp_down (pos + ii) (down ii) (pairs_vals tot pos down n (ii + 1) v)
                (first_below n ii b)
              ∙ ap₂ ◌||◌
                  (reaches-same (pairs_vals tot pos down n (ii + 1) v) v (pos + ii)
                    (first_up n ii v b))
                  (reaches-same (pairs_vals tot pos down n (ii + 1) v) v (down ii)
                    (first_down n ii v b)))
      | inr ne ↦
          reaches-same (cmp_vals tot (pos + ii) (down ii) (pairs_vals tot pos down n (ii + 1) v))
            (pairs_vals tot pos down n (ii + 1) v) (down i)
            (cmp_ne (pos + ii) (down ii) (down i) (pairs_vals tot pos down n (ii + 1) v)
              (let k = a.above i (omega arith) in omega arith)
              (λ e. ne (a.once i ii (omega arith) (omega arith) e)))
          ∙ pairs_down n (ii + 1) i v (omega arith) (omega arith) (omega arith)
    ]
