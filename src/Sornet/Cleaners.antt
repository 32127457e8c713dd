-- ===== src/Sornet/Cleaners.antt =====
-- What a cleaner does to the rows of Booleans of its halves, and that no network touches a wire
-- outside.
use messaging_cells.Common.{
  ℕ, zero, suc, ◌+◌, ◌-◌, ◌≤◌, ◌<◌, ◌≡◌, ◌≢◌, refl, ◌∙◌, ap, Bool, ◌&&◌, ◌||◌, inl, inr, ◌⊎◌, arith,
}
use messaging_cells.Sornet.Build.{half_down, alt_down}
use messaging_cells.Sornet.Values.{
  width, pairs_vals, bitonic_vals, merger_vals, sorter_vals, reaches, ArePairs, pairs_ne, pairs_up,
  pairs_down,
}

pub width_pos : (k : ℕ) → 0 < width k
unfolding width
width_pos zero = omega arith
width_pos (suc k) = let h = width_pos k in omega arith

pub half-ArePairs : (pos h : ℕ) → ArePairs pos h (half_down pos h)
unfolding half_down
half-ArePairs pos h = record { above = λ i l. omega arith; once = λ i j l m e. omega arith }

pub alt-ArePairs : (pos h : ℕ) → ArePairs pos h (alt_down pos (h + h))
unfolding alt_down
alt-ArePairs pos h = record { above = λ i l. omega arith; once = λ i j l m e. omega arith }

-- A wire that is not among the `sz` from `pos` on.
abbrev pub IsOut : ℕ → ℕ → ℕ → Type 0
IsOut pos sz w = (w < pos) ⊎ (pos + sz ≤ w)

IsOut-low : (pos h w : ℕ) → IsOut pos (h + h) w → IsOut pos h w
IsOut-low pos h w (inl o) = inl o
IsOut-low pos h w (inr o) = inr (omega arith)

IsOut-high : (pos h w : ℕ) → IsOut pos (h + h) w → IsOut (pos + h) h w
IsOut-high pos h w (inl o) = inl (omega arith)
IsOut-high pos h w (inr o) = inr (omega arith)

-- Both halves of a network behind its cleaner.
unfoldable pub halves : ℕ → ℕ → ℕ → (ℕ → ℕ) → ℕ → ℕ
halves tot k pos v = bitonic_vals tot k pos (bitonic_vals tot k (pos + width k) v)

unfoldable pub level_row : ℕ → ℕ → ℕ → (ℕ → ℕ) → ℕ → Bool
level_row tot t pos v i = reaches tot t v (pos + i)

module _ (tot : ℕ) where
  -- No cleaner, and no half, touches a wire outside.
  cleaner_ne :
      (pos h w : ℕ) (v : ℕ → ℕ) (down : ℕ → ℕ)
      → ((i : ℕ) → i < h → (pos + h ≤ down i) × (down i < pos + (h + h)))
      → IsOut pos (h + h) w
      → pairs_vals tot pos down h 0 v w ≡ v w
  cleaner_ne pos h w v down d o =
      pairs_ne tot 0 pos down h 0 w v
        λ i l m. (out_up i (omega arith) o, out_down i (d i (omega arith)) o)
    where
      out_up : (i : ℕ) → i < h → IsOut pos (h + h) w → w ≢ pos + i
      out_up i m (inl o) = omega arith
      out_up i m (inr o) = omega arith

      out_down :
          (i : ℕ) → (pos + h ≤ down i) × (down i < pos + (h + h)) → IsOut pos (h + h) w → w ≢ down i
      out_down i (a, b) (inl o) = omega arith
      out_down i (a, b) (inr o) = omega arith

  pub half_ne :
      (pos h w : ℕ) (v : ℕ → ℕ)
      → IsOut pos (h + h) w
      → pairs_vals tot pos (half_down pos h) h 0 v w ≡ v w
  unfolding half_down
  half_ne pos h w v = cleaner_ne pos h w v (half_down pos h) λ i l. (omega arith, omega arith)

  pub alt_ne :
      (pos h w : ℕ) (v : ℕ → ℕ)
      → IsOut pos (h + h) w
      → pairs_vals tot pos (alt_down pos (h + h)) h 0 v w ≡ v w
  unfolding alt_down
  alt_ne pos h w v = cleaner_ne pos h w v (alt_down pos (h + h)) λ i l. (omega arith, omega arith)

  pub bitonic_ne :
      (k pos w : ℕ) (v : ℕ → ℕ) → IsOut pos (width k) w → bitonic_vals tot k pos v w ≡ v w
  unfolding bitonic_vals width
  bitonic_ne zero pos w v o = refl
  bitonic_ne (suc k) pos w v o =
      let c = pairs_vals tot pos (half_down pos (width k)) (width k) 0 v in
      bitonic_ne k pos w (bitonic_vals tot k (pos + width k) c) (IsOut-low pos (width k) w o)
      ∙ bitonic_ne k (pos + width k) w c (IsOut-high pos (width k) w o)
      ∙ half_ne pos (width k) w v o

  pub halves_ne :
      (k pos w : ℕ) (v : ℕ → ℕ) → IsOut pos (width k + width k) w → halves tot k pos v w ≡ v w
  unfolding halves
  halves_ne k pos w v o =
      bitonic_ne k pos w (bitonic_vals tot k (pos + width k) v) (IsOut-low pos (width k) w o)
      ∙ bitonic_ne k (pos + width k) w v (IsOut-high pos (width k) w o)

  pub merger_ne :
      (k pos w : ℕ) (v : ℕ → ℕ) → IsOut pos (width k) w → merger_vals tot k pos v w ≡ v w
  unfolding merger_vals width halves
  merger_ne zero pos w v o = refl
  merger_ne (suc k) pos w v o =
      halves_ne k pos w (pairs_vals tot pos (alt_down pos (width (suc k))) (width k) 0 v) o
      ∙ alt_ne pos (width k) w v o

  pub sorter_ne :
      (k pos w : ℕ) (v : ℕ → ℕ) → IsOut pos (width k) w → sorter_vals tot k pos v w ≡ v w
  unfolding sorter_vals width
  sorter_ne zero pos w v o = refl
  sorter_ne (suc k) pos w v o =
      let u = sorter_vals tot k (pos + width k) v in
      merger_ne (suc k) pos w (sorter_vals tot k pos u) o
      ∙ sorter_ne k pos w u (IsOut-low pos (width k) w o)
      ∙ sorter_ne k (pos + width k) w v (IsOut-high pos (width k) w o)

  module _ (t : ℕ) where
    -- What the rows of a cleaner are.
    pub half_low :
        (pos h i : ℕ) (v : ℕ → ℕ)
        → i < h
        → level_row tot t pos (pairs_vals tot pos (half_down pos h) h 0 v) i
          ≡ (level_row tot t pos v i && level_row tot t pos v (i + h))
    unfolding half_down level_row
    half_low pos h i v l =
        pairs_up tot t pos h (half_down pos h) (half-ArePairs pos h) h 0 i v (omega arith)
          (omega arith) (omega arith)
        ∙ (let e : pos + i + h ≡ pos + (i + h) = omega arith in
            ap (λ w. reaches tot t v (pos + i) && reaches tot t v w) e)

    pub half_high :
        (pos h i : ℕ) (v : ℕ → ℕ)
        → i < h
        → level_row tot t (pos + h) (pairs_vals tot pos (half_down pos h) h 0 v) i
          ≡ (level_row tot t pos v i || level_row tot t pos v (i + h))
    unfolding half_down level_row
    half_high pos h i v l =
        let e : pos + i + h ≡ pos + (i + h) = omega arith in
        let e2 : pos + h + i ≡ pos + i + h = omega arith in
        ap (reaches tot t (pairs_vals tot pos (half_down pos h) h 0 v)) e2
        ∙ pairs_down tot t pos h (half_down pos h) (half-ArePairs pos h) h 0 i v (omega arith)
            (omega arith) (omega arith)
        ∙ ap (λ w. reaches tot t v (pos + i) || reaches tot t v w) e

    pub alt_low :
        (pos h i : ℕ) (v : ℕ → ℕ)
        → i < h
        → level_row tot t pos (pairs_vals tot pos (alt_down pos (h + h)) h 0 v) i
          ≡ (level_row tot t pos v i && level_row tot t pos v (h + h - i - 1))
    unfolding alt_down level_row
    alt_low pos h i v l =
        pairs_up tot t pos h (alt_down pos (h + h)) (alt-ArePairs pos h) h 0 i v (omega arith)
          (omega arith) (omega arith)

    pub alt_high :
        (pos h i : ℕ) (v : ℕ → ℕ)
        → i < h
        → level_row tot t (pos + h) (pairs_vals tot pos (alt_down pos (h + h)) h 0 v) i
          ≡ (level_row tot t pos v (h - i - 1) || level_row tot t pos v (h + i))
    unfolding alt_down level_row
    alt_high pos h i v l =
        let e : pos + h + i ≡ pos + (h + h - (h - i - 1) - 1) = omega arith in
        let e2 : h + h - (h - i - 1) - 1 ≡ h + i = omega arith in
        ap (reaches tot t (pairs_vals tot pos (alt_down pos (h + h)) h 0 v)) e
        ∙ pairs_down tot t pos h (alt_down pos (h + h)) (alt-ArePairs pos h) h 0 (h - i - 1) v
            (omega arith) (omega arith) (omega arith)
        ∙ ap (λ j. reaches tot t v (pos + (h - i - 1)) || reaches tot t v (pos + j)) e2
