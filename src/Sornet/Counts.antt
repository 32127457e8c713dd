-- ===== src/Sornet/Counts.antt =====
-- The network only moves values: each occurs as often after it as before.
use messaging_cells.Common.{
  put_at_self, put_at-ne, if_so, if_not, ℕ, zero, suc, ◌+◌, ◌≤◌, ◌<◌, ◌≡◌, refl, sym, ◌∙◌, ap, ◌||◌,
  ◌==◌, ltb, leb, Bool-cases, eq-or-ne, inl, inr, if◌then◌else◌, put_at, arith,
}
use messaging_cells.Sornet.Build.{half_down, alt_down}
use messaging_cells.Sornet.Values.{
  cmp_vals, pairs_vals, bitonic_vals, merger_vals, sorter_vals, width,
}

unfoldable pub hit : ℕ → ℕ → ℕ
hit x y = if y == x then 1 else 0

-- How often `x` is the value of one of the first `n` wires.
unfoldable pub occurs : ℕ → (ℕ → ℕ) → ℕ → ℕ
unfolding hit
occurs x v zero = 0
occurs x v (suc n) = hit x (v n) + occurs x v n

module _ (x : ℕ) where
  occurs-put_out : (i a : ℕ) (v : ℕ → ℕ) (n : ℕ) → n ≤ i → occurs x (put_at i a v) n ≡ occurs x v n
  unfolding occurs
  occurs-put_out i a v zero l = refl
  occurs-put_out i a v (suc n) l =
      let e = ap (hit x) (put_at-ne i n a v (omega arith)) in
      let r = occurs-put_out i a v n (omega arith) in omega arith

  occurs-put :
      (i a : ℕ) (v : ℕ → ℕ) (n : ℕ)
      → i < n
      → occurs x (put_at i a v) n + hit x (v i) ≡ occurs x v n + hit x a
  unfolding occurs
  occurs-put i a v zero l = absurd (omega arith)
  occurs-put i a v (suc n) l = elim (eq-or-ne n i) [
    | inl e ↦
        let here : hit x (put_at i a v n) ≡ hit x a =
          ap (λ k. hit x (put_at i a v k)) e ∙ ap (hit x) (put_at_self i a v) in
        let old : hit x (v i) ≡ hit x (v n) = ap (λ k. hit x (v k)) (sym e) in
        let r = occurs-put_out i a v n (omega arith) in omega arith
    | inr e ↦
        let here = ap (hit x) (put_at-ne i n a v e) in
        let r = occurs-put i a v n (omega arith) in omega arith
  ]

  module _ (tot : ℕ) where
    occurs-swap :
        (up dn : ℕ) (v : ℕ → ℕ)
        → up < dn
        → dn < tot
        → occurs x (put_at dn (v up) (put_at up (v dn) v)) tot ≡ occurs x v tot
    occurs-swap up dn v l m =
        let a = occurs-put dn (v up) (put_at up (v dn) v) tot m in
        let b = occurs-put up (v dn) v tot (omega arith) in
        let e = ap (hit x) (put_at-ne up dn (v dn) v (omega arith)) in omega arith

    cmp-occurs :
        (up dn : ℕ) (v : ℕ → ℕ) → up < dn → occurs x (cmp_vals tot up dn v) tot ≡ occurs x v tot
    unfolding cmp_vals
    cmp-occurs up dn v l = elim (Bool-cases (leb tot up || leb tot dn || ltb (v up) (v dn))) [
      | inl y ↦ ap (λ f. occurs x f tot) (if_so v (put_at dn (v up) (put_at up (v dn) v)) y)
      | inr y ↦
          ap (λ f. occurs x f tot) (if_not v (put_at dn (v up) (put_at up (v dn) v)) y)
          ∙ occurs-swap up dn v l (ground arith)
    ]

    pairs-occurs :
        (pos : ℕ) (down : ℕ → ℕ) (n ii : ℕ) (v : ℕ → ℕ)
        → ((i : ℕ) → ii ≤ i → i < ii + n → pos + i < down i)
        → occurs x (pairs_vals tot pos down n ii v) tot ≡ occurs x v tot
    unfolding pairs_vals
    pairs-occurs pos down zero ii v h = refl
    pairs-occurs pos down (suc n) ii v h =
        cmp-occurs (pos + ii) (down ii) (pairs_vals tot pos down n (ii + 1) v)
          (h ii (omega arith) (omega arith))
        ∙ pairs-occurs pos down n (ii + 1) v (λ i l m. h i (omega arith) (omega arith))

    bitonic-occurs :
        (k pos : ℕ) (v : ℕ → ℕ) → occurs x (bitonic_vals tot k pos v) tot ≡ occurs x v tot
    unfolding bitonic_vals half_down
    bitonic-occurs zero pos v = refl
    bitonic-occurs (suc k) pos v =
        let u = pairs_vals tot pos (half_down pos (width k)) (width k) 0 v in
        bitonic-occurs k pos (bitonic_vals tot k (pos + width k) u)
        ∙ bitonic-occurs k (pos + width k) u
        ∙ pairs-occurs pos (half_down pos (width k)) (width k) 0 v (λ i l m. omega arith)

    merger-occurs :
        (k pos : ℕ) (v : ℕ → ℕ) → occurs x (merger_vals tot k pos v) tot ≡ occurs x v tot
    unfolding merger_vals alt_down width
    merger-occurs zero pos v = refl
    merger-occurs (suc k) pos v =
        let u = pairs_vals tot pos (alt_down pos (width (suc k))) (width k) 0 v in
        bitonic-occurs k pos (bitonic_vals tot k (pos + width k) u)
        ∙ bitonic-occurs k (pos + width k) u
        ∙ pairs-occurs pos (alt_down pos (width (suc k))) (width k) 0 v (λ i l m. omega arith)

    pub sorter-occurs :
        (k pos : ℕ) (v : ℕ → ℕ) → occurs x (sorter_vals tot k pos v) tot ≡ occurs x v tot
    unfolding sorter_vals
    sorter-occurs zero pos v = refl
    sorter-occurs (suc k) pos v =
        let u = sorter_vals tot k (pos + width k) v in
        merger-occurs (suc k) pos (sorter_vals tot k pos u)
        ∙ sorter-occurs k pos u
        ∙ sorter-occurs k (pos + width k) v
