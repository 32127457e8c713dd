-- ===== src/Sornet/Pow2.antt =====
-- The powers of two of `get_bigger_pow2` and `get_tot_levels`.
use messaging_cells.Common.{
  ℕ, zero, suc, ◌+◌, ◌*◌, ◌/◌, ◌≤◌, ◌<◌, ◌≡◌, refl, ◌∙◌, ap, Bool, true, false, ltb, Bool-cases,
  inl, inr, Option, some, arith,
}
use messaging_cells.Sornet.Build.{pow2_from}
use messaging_cells.Sornet.Values.{width}
use messaging_cells.Sornet.Cleaners.{width_pos}
use messaging_cells.Sornet.Sorter.{tri}

pub lt_width : (k : ℕ) → k < width k
unfolding width
lt_width zero = omega arith
lt_width (suc k) = let h = lt_width k in omega arith

pow2_step : ℕ → ℕ → ℕ → Bool → Option ℕ
pow2_step fuel pp nn b = elim b [ false ↦ some pp | true ↦ pow2_from fuel (pp * 2) nn ]

pow2_by :
    (fuel pp nn : ℕ) (b : Bool)
    → ltb pp nn ≡ b
    → pow2_from (suc fuel) pp nn ≡ pow2_step fuel pp nn b
unfolding pow2_from pow2_step
pow2_by fuel pp nn b e = ap (pow2_step fuel pp nn) e

pub pow2_from-width :
    (fuel k nn : ℕ)
    → nn ≤ fuel + width k
    → (j : ℕ) × (pow2_from (suc fuel) (width k) nn ≡ some (width j)) × (nn ≤ width j)
unfolding width pow2_step
pow2_from-width zero k nn l = (k, pow2_by 0 (width k) nn false (ground arith), omega arith)
pow2_from-width (suc fuel) k nn l = elim (Bool-cases (ltb (width k) nn)) [
  | inl y ↦
      let p = width_pos k in
      let (j, e, m) = pow2_from-width fuel (suc k) nn (omega arith) in
      let two : width k * 2 ≡ width k + width k = omega arith in
      (j, pow2_by (suc fuel) (width k) nn true y ∙ ap (λ x. pow2_from (suc fuel) x nn) two ∙ e, m)
  | inr y ↦ (k, pow2_by (suc fuel) (width k) nn false y, ground arith)
]

pub tri_twice : (k : ℕ) → tri k + tri k ≡ k * (k + 1)
unfolding tri
tri_twice zero = refl
tri_twice (suc k) = let h = tri_twice k in grind arith

pub tri-half : (k : ℕ) → k * (k + 1) / 2 ≡ tri k
tri-half k = let h = tri_twice k in omega arith

pub tri_pos : (k : ℕ) → 0 < k → 0 < tri k
tri_pos k l = let h = tri_twice k in let m : k ≤ k * (k + 1) = grind arith in omega arith

pub width-one : (k : ℕ) → 1 < width k → 0 < k
unfolding width
width-one zero l = absurd (omega arith)
width-one (suc k) l = omega arith
