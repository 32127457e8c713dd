-- ===== src/Sornet/Sorts.antt =====
-- The values of the network sort the Booleans, so they sort the numbers.
use messaging_cells.Common.{
  ℕ, zero, suc, ◌+◌, ◌-◌, ◌≤◌, ◌<◌, ◌≡◌, refl, sym, ◌∙◌, ap, Bool, true, false, ◌&&◌, ◌||◌, leb,
  ltb, Bool-cases, inl, inr, arith,
}
use messaging_cells.Sornet.Build.{half_down, alt_down}
use messaging_cells.Sornet.Values.{
  width, pairs_vals, bitonic_vals, merger_vals, sorter_vals, reaches, reaches-same,
}
use messaging_cells.Sornet.Bitonic.{
  IsBitonic, IsAscending, IsConst, IsSplit, half-IsSplit, alt-IsSplit,
}
use messaging_cells.Sornet.Cleaners.{
  halves, level_row, bitonic_ne, half_low, half_high, alt_low, alt_high, sorter_ne,
}

-- A row stays what it is where its Booleans stay.
IsBitonic-same :
    (f g : ℕ → Bool) (sz : ℕ) → ((i : ℕ) → i < sz → g i ≡ f i) → IsBitonic f sz → IsBitonic g sz
IsBitonic-same f g sz h b = record {
  flip = b.flip;
  a = b.a;
  e = b.e;
  ordered = b.ordered;
  within = b.within;
  shape = λ i l. h i l ∙ b.shape i l;
}

IsAscending-same :
    (f g : ℕ → Bool) (sz : ℕ) → ((i : ℕ) → i < sz → g i ≡ f i) → IsAscending f sz → IsAscending g sz
IsAscending-same f g sz h b = record {
  p = b.p;
  within = b.within;
  shape = λ i l. h i l ∙ b.shape i l;
}

both_and : (c : Bool) {a b : Bool} → a ≡ c → b ≡ c → (a && b) ≡ c
both_and true e f = ground (arith, e, f)
both_and false e f = ground (arith, e, f)

both_or : (c : Bool) {a b : Bool} → a ≡ c → b ≡ c → (a || b) ≡ c
both_or true e f = ground (arith, e, f)
both_or false e f = ground (arith, e, f)

only : (f : ℕ → Bool) (c : Bool) (p i : ℕ) → i < 1 → f 0 ≡ c → leb p 0 ≡ c → f i ≡ leb p i
only f c p i l e k = let z : i ≡ 0 = omega arith in ap f z ∙ e ∙ sym k ∙ ap (leb p) (sym z)

module _ (tot t : ℕ) where
  -- The halves after a run, each by itself.
  halves_low :
      (k pos i : ℕ) (v : ℕ → ℕ)
      → level_row tot t pos (halves tot k pos v) i
        ≡ level_row tot t pos (bitonic_vals tot k pos (bitonic_vals tot k (pos + width k) v)) i
  unfolding halves
  halves_low k pos i v = refl

  under_high :
      (k pos i : ℕ) (v : ℕ → ℕ)
      → i < width k
      → level_row tot t pos (bitonic_vals tot k (pos + width k) v) i ≡ level_row tot t pos v i
  unfolding level_row
  under_high k pos i v l =
      reaches-same tot t (bitonic_vals tot k (pos + width k) v) v (pos + i)
        (bitonic_ne tot k (pos + width k) (pos + i) v (inl (omega arith)))

  halves_high :
      (k pos i : ℕ) (v : ℕ → ℕ)
      → i < width k
      → level_row tot t (pos + width k) (halves tot k pos v) i
        ≡ level_row tot t (pos + width k) (bitonic_vals tot k (pos + width k) v) i
  unfolding level_row halves
  halves_high k pos i v l =
      let u = bitonic_vals tot k (pos + width k) v in
      reaches-same tot t (bitonic_vals tot k pos u) u (pos + width k + i)
        (bitonic_ne tot k pos (pos + width k + i) u (inr (omega arith)))

  row_shift :
      (pos h i : ℕ) (v : ℕ → ℕ) → level_row tot t pos v (h + i) ≡ level_row tot t (pos + h) v i
  unfolding level_row
  row_shift pos h i v = let e : pos + (h + i) ≡ pos + h + i = omega arith in ap (reaches tot t v) e

  -- A row over both halves.
  row_high :
      (pos h j : ℕ) (v : ℕ → ℕ)
      → h ≤ j
      → level_row tot t pos v j ≡ level_row tot t (pos + h) v (j - h)
  unfolding level_row
  row_high pos h j v l = let e : pos + j ≡ pos + h + (j - h) = omega arith in ap (reaches tot t v) e

  -- A row from its two halves.
  join-IsConst :
      (c : Bool) (h pos : ℕ) (v : ℕ → ℕ)
      → IsConst c (level_row tot t pos v) h
      → IsConst c (level_row tot t (pos + h) v) h
      → IsConst c (level_row tot t pos v) (h + h)
  join-IsConst c h pos v l r i m = elim (Bool-cases (ltb i h)) [
    | inl y ↦ l i (ground arith)
    | inr y ↦ row_high pos h i v (ground arith) ∙ r (i - h) (ground arith)
  ]

  join_low :
      (h pos : ℕ) (v : ℕ → ℕ)
      → IsConst false (level_row tot t pos v) h
      → IsAscending (level_row tot t (pos + h) v) h
      → IsAscending (level_row tot t pos v) (h + h)
  join_low h pos v l r = record {
    p = h + r.p;
    within = let w = r.within in omega arith;
    shape = λ i m. elim (Bool-cases (ltb i h)) [
      | inl y ↦ l i (ground arith) ∙ ground (arith, r.within)
      | inr y ↦ row_high pos h i v (ground arith) ∙ r.shape (i - h) (ground arith) ∙ ground arith
    ];
  }

  join_high :
      (h pos : ℕ) (v : ℕ → ℕ)
      → IsAscending (level_row tot t pos v) h
      → IsConst true (level_row tot t (pos + h) v) h
      → IsAscending (level_row tot t pos v) (h + h)
  join_high h pos v l r = record {
    p = l.p;
    within = let w = l.within in omega arith;
    shape = λ i m. elim (Bool-cases (ltb i h)) [
      | inl y ↦ l.shape i (ground arith)
      | inr y ↦
          row_high pos h i v (ground arith) ∙ r (i - h) (ground arith) ∙ ground (arith, l.within)
    ];
  }

  -- What a bitonic network of `k` halvings makes of one row makes the halves of a larger one.
  module _ (k : ℕ) (P Q : (ℕ → Bool) → Type 0)
      (same : (f g : ℕ → Bool) → ((i : ℕ) → i < width k → g i ≡ f i) → P f → P g)
      (same_after : (f g : ℕ → Bool) → ((i : ℕ) → i < width k → g i ≡ f i) → Q f → Q g)
      (net : (pos : ℕ) (v : ℕ → ℕ)
        → P (level_row tot t pos v)
        → Q (level_row tot t pos (bitonic_vals tot k pos v))) where
    after_low :
        (pos : ℕ) (v : ℕ → ℕ)
        → P (level_row tot t pos v)
        → Q (level_row tot t pos (halves tot k pos v))
    unfolding halves
    after_low pos v h = net pos (bitonic_vals tot k (pos + width k) v) (
        same (level_row tot t pos v) (level_row tot t pos (bitonic_vals tot k (pos + width k) v))
          (λ i l. under_high k pos i v l) h)

    after_high :
        (pos : ℕ) (v : ℕ → ℕ)
        → P (level_row tot t (pos + width k) v)
        → Q (level_row tot t (pos + width k) (halves tot k pos v))
    after_high pos v h =
        same_after (level_row tot t (pos + width k) (bitonic_vals tot k (pos + width k) v))
          (level_row tot t (pos + width k) (halves tot k pos v)) (λ i l. halves_high k pos i v l)
          (net (pos + width k) v h)

  IsConst-same :
      (c : Bool) (sz : ℕ) (f g : ℕ → Bool)
      → ((i : ℕ) → i < sz → g i ≡ f i)
      → IsConst c f sz
      → IsConst c g sz
  IsConst-same c sz f g e h i l = e i l ∙ h i l

  -- A clean row stays clean.
  bitonic-IsConst :
      (c : Bool) (k pos : ℕ) (v : ℕ → ℕ)
      → IsConst c (level_row tot t pos v) (width k)
      → IsConst c (level_row tot t pos (bitonic_vals tot k pos v)) (width k)
  unfolding bitonic_vals width halves
  bitonic-IsConst c zero pos v h = h
  bitonic-IsConst c (suc k) pos v h =
      let u = pairs_vals tot pos (half_down pos (width k)) (width k) 0 v in
      join-IsConst c (width k) pos (halves tot k pos u)
        (after_low k (λ f. IsConst c f (width k)) (λ f. IsConst c f (width k))
          (IsConst-same c (width k)) (IsConst-same c (width k)) (bitonic-IsConst c k) pos u
          (λ i l.
            half_low tot t pos (width k) i v l
            ∙ both_and c (h i (omega arith)) (h (i + width k) (omega arith))))
        (after_high k (λ f. IsConst c f (width k)) (λ f. IsConst c f (width k))
          (IsConst-same c (width k)) (IsConst-same c (width k)) (bitonic-IsConst c k) pos u
          (λ i l.
            half_high tot t pos (width k) i v l
            ∙ both_or c (h i (omega arith)) (h (i + width k) (omega arith))))

  -- A split row, with its halves sorted, ascends.
  halves-IsAscending :
      (k pos : ℕ) (u : ℕ → ℕ)
      → ((q : ℕ) (v : ℕ → ℕ)
          → IsBitonic (level_row tot t q v) (width k)
          → IsAscending (level_row tot t q (bitonic_vals tot k q v)) (width k))
      → IsSplit (level_row tot t pos u) (level_row tot t (pos + width k) u) (width k)
      → IsAscending (level_row tot t pos (halves tot k pos u)) (width k + width k)
  halves-IsAscending k pos u net (inl (l, r)) =
      join_low (width k) pos (halves tot k pos u)
        (after_low k (λ f. IsConst false f (width k)) (λ f. IsConst false f (width k))
          (IsConst-same false (width k)) (IsConst-same false (width k)) (bitonic-IsConst false k)
          pos u l)
        (after_high k (λ f. IsBitonic f (width k)) (λ f. IsAscending f (width k))
          (λ f g. IsBitonic-same f g (width k)) (λ f g. IsAscending-same f g (width k)) net pos u r)
  halves-IsAscending k pos u net (inr (l, r)) =
      join_high (width k) pos (halves tot k pos u)
        (after_low k (λ f. IsBitonic f (width k)) (λ f. IsAscending f (width k))
          (λ f g. IsBitonic-same f g (width k)) (λ f g. IsAscending-same f g (width k)) net pos u l)
        (after_high k (λ f. IsConst true f (width k)) (λ f. IsConst true f (width k))
          (IsConst-same true (width k)) (IsConst-same true (width k)) (bitonic-IsConst true k) pos u
          r)

  one-IsAscending : (f : ℕ → Bool) → IsAscending f 1
  one-IsAscending f = elim (Bool-cases (f 0)) [
    | inl y ↦ record {
      p = 0;
      within = omega arith;
      shape = λ i l. only f true 0 i l y (ground arith);
    }
    | inr y ↦ record {
      p = 1;
      within = omega arith;
      shape = λ i l. only f false 1 i l y (ground arith);
    }
  ]

  bitonic-IsAscending :
      (k pos : ℕ) (v : ℕ → ℕ)
      → IsBitonic (level_row tot t pos v) (width k)
      → IsAscending (level_row tot t pos (bitonic_vals tot k pos v)) (width k)
  unfolding bitonic_vals width halves
  bitonic-IsAscending zero pos v b = one-IsAscending (level_row tot t pos v)
  bitonic-IsAscending (suc k) pos v b =
      let u = pairs_vals tot pos (half_down pos (width k)) (width k) 0 v in
      halves-IsAscending k pos u (bitonic-IsAscending k) (
        half-IsSplit (level_row tot t pos v) (level_row tot t pos u)
          (level_row tot t (pos + width k) u) (width k) (λ i l. half_low tot t pos (width k) i v l)
          (λ i l. half_high tot t pos (width k) i v l) b)

  merger-IsAscending :
      (k pos : ℕ) (v : ℕ → ℕ)
      → IsAscending (level_row tot t pos v) (width k)
      → IsAscending (level_row tot t (pos + width k) v) (width k)
      → IsAscending (level_row tot t pos (merger_vals tot (suc k) pos v)) (width k + width k)
  unfolding merger_vals halves width
  merger-IsAscending k pos v l r =
      let u = pairs_vals tot pos (alt_down pos (width k + width k)) (width k) 0 v in
      halves-IsAscending k pos u (bitonic-IsAscending k) (
        alt-IsSplit (level_row tot t pos v) (level_row tot t pos u)
          (level_row tot t (pos + width k) u) (width k) (λ i m. alt_low tot t pos (width k) i v m)
          (λ i m. alt_high tot t pos (width k) i v m) l
          (IsAscending-same (level_row tot t (pos + width k) v)
            (λ i. level_row tot t pos v (width k + i)) (width k)
            (λ i m. row_shift pos (width k) i v) r))

  pub sorter-IsAscending :
      (k pos : ℕ) (v : ℕ → ℕ)
      → IsAscending (level_row tot t pos (sorter_vals tot k pos v)) (width k)
  unfolding sorter_vals width level_row
  sorter-IsAscending zero pos v = one-IsAscending (level_row tot t pos v)
  sorter-IsAscending (suc k) pos v =
      let u = sorter_vals tot k (pos + width k) v in
      merger-IsAscending k pos (sorter_vals tot k pos u) (sorter-IsAscending k pos u) (
        IsAscending-same (level_row tot t (pos + width k) u)
          (level_row tot t (pos + width k) (sorter_vals tot k pos u)) (width k)
          (λ i l.
            reaches-same tot t (sorter_vals tot k pos u) u (pos + width k + i)
              (sorter_ne tot k pos (pos + width k + i) u (inr (omega arith))))
          (sorter-IsAscending k (pos + width k) v))

-- Among the wires that are there, the values ascend.
pub sorter_vals-le :
    (tot k : ℕ) (v : ℕ → ℕ) (i j : ℕ)
    → tot ≤ width k
    → i ≤ j
    → j < tot
    → sorter_vals tot k 0 v i ≤ sorter_vals tot k 0 v j
unfolding reaches level_row
sorter_vals-le tot k v i j w l m =
    let u = sorter_vals tot k 0 v in
    let s = sorter-IsAscending tot (u i) k 0 v in
    let si = s.shape i (omega arith) in
    let sj = s.shape j (omega arith) in
    let zi : 0 + i ≡ i = omega arith in
    let zj : 0 + j ≡ j = omega arith in
    ground (arith, sym (ap (reaches tot (u i) u) zi) ∙ si, sym (ap (reaches tot (u i) u) zj) ∙ sj)
