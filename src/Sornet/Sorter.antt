-- ===== src/Sornet/Sorter.antt =====
-- What `create_net_sorter` makes, and that none of its checks fails.
use messaging_cells.Common.{
  if_not, if_so, ℕ, zero, suc, ◌+◌, ◌/◌, ◌≤◌, ◌<◌, ◌≡◌, refl, ◌∙◌, ap, subst, Bool, true, false,
  ◌==◌, Bool-cases, ltb, inl, inr, ◌⊎◌, Option, none, some, arith,
}
use messaging_cells.Sornet.Build.{
  Dims, Prms, then_do, create_net_merger, create_net_sorter, first_lv, set_merge, level_over,
}
use messaging_cells.Sornet.Play.{run}
use messaging_cells.Sornet.Values.{merger_vals, sorter_vals, width}
use messaging_cells.Sornet.Cleaners.{width_pos}
use messaging_cells.Sornet.Made.{wire_level, wire_nods, IsBuilt}
use messaging_cells.Sornet.Pairs.{IsGrown, IsLevel, HasFirst}
use messaging_cells.Sornet.Nets.{
  Grows, Builds, merger-Builds, IsGrown-then, IsGrown-beside, then_do-some, wide, width_half,
}

-- The levels of a sorter.
unfoldable pub tri : ℕ → ℕ
tri zero = 0
tri (suc k) = suc k + tri k

-- A first level is known, or a node of the wire `pos` gives one.
abbrev pub CanStart : Dims → Prms → ℕ → Type 0
CanStart d p pos =
    pos < d.tot_nods → (0 < wire_level p pos) ⊎ ((fst : ℕ) × (p.first_lv_for_merge_sz ≡ some fst))

module _ (d : Dims) (pos sz : ℕ) (p : Prms) where
  set_merge-level : (w : ℕ) → wire_level (set_merge d pos sz p) w ≡ wire_level p w
  unfolding wire_level set_merge
  set_merge-level w = refl

  set_merge-run : (v : ℕ → ℕ) → run (set_merge d pos sz p) v ≡ run p v
  unfolding run set_merge
  set_merge-run v = refl

  set_merge-IsBuilt : IsBuilt d p → IsBuilt d (set_merge d pos sz p)
  unfolding set_merge wire_nods wire_level
  set_merge-IsBuilt b = record { links = b.links; nn_ok = b.nn_ok; counts = b.counts }

  null_level : p.arr_nods pos ≡ 0 → ¬ (0 < wire_level p pos)
  unfolding wire_level level_over
  null_level e k =
      let z : level_over (p.arr_nods pos) p.nods ≡ 0 = ap (λ i. level_over i p.nods) e in
      omega arith

  set_merge-HasFirst : CanStart d p pos → HasFirst d (set_merge d pos sz p) pos
  unfolding set_merge first_lv wire_level level_over
  set_merge-HasFirst c t = elim (Bool-cases (p.arr_nods pos == 0)) [
    | inl y ↦ elim (c t) [
      | inl k ↦ absurd (null_level (ground arith) k)
      | inr (fst, e) ↦ (fst, if_so {b = ltb pos d.tot_nods} _ none (ground arith) ∙ if_so _ _ y ∙ e)
    ]
    | inr y ↦ (
      level_over (p.arr_nods pos) p.nods,
      if_so {b = ltb pos d.tot_nods} _ none (ground arith) ∙ if_not _ _ y,
    )
  ]

-- The three parts, one behind the other.
split : Bool → Prms → Option Prms → (ℕ → ℕ → Prms → Option Prms) → ℕ → ℕ → Option Prms
split b p o S pos h = elim b [
  | true ↦ some p
  | false ↦ then_do (then_do o (S pos h)) (S (pos + h) h)
]

split_two :
    (k pos : ℕ) (p : Prms) (o : Option Prms) (S : ℕ → ℕ → Prms → Option Prms)
    → split (width k + width k == 1) p o S pos ((width k + width k) / 2)
      ≡ then_do (then_do o (S pos (width k))) (S (pos + width k) (width k))
unfolding split
split_two k pos p o S =
    ap (λ b. split b p o S pos ((width k + width k) / 2)) (wide k)
    ∙ ap (λ h. then_do (then_do o (S pos h)) (S (pos + h) h)) (width_half k)

module _ (d : Dims) where
  grown :
      (k pos : ℕ) (p q1 q2 q3 : Prms)
      → IsGrown d p q1 pos (width k + width k) (suc k) (merger_vals d.tot_nods (suc k) pos)
      → IsGrown d q1 q2 pos (width k) (tri k) (sorter_vals d.tot_nods k pos)
      → IsGrown d q2 q3 (pos + width k) (width k) (tri k) (sorter_vals d.tot_nods k (pos + width k))
      → IsGrown d p q3 pos (width k + width k) (suc k + tri k) (sorter_vals d.tot_nods (suc k) pos)
  unfolding sorter_vals
  grown k pos p q1 q2 q3 g1 g2 g3 =
      let h = width k in
      let both =
        IsGrown-beside d q1 q2 q3 pos h (tri k) (sorter_vals d.tot_nods k pos)
          (sorter_vals d.tot_nods k (pos + h)) g2 g3 in
      let sum : tri k + suc k ≡ suc k + tri k = omega arith in
      subst (λ n. IsGrown d p q3 pos (h + h) n (sorter_vals d.tot_nods (suc k) pos)) sum
        (IsGrown-then d p q1 q3 pos (h + h) (suc k) (tri k) (merger_vals d.tot_nods (suc k) pos)
          (λ v. sorter_vals d.tot_nods k pos (sorter_vals d.tot_nods k (pos + h) v)) g1 both)

  pub sorter-IsGrown :
      (k fuel pos L : ℕ) (p : Prms)
      → k < fuel
      → L + tri k ≤ d.tot_lvs
      → IsBuilt d p
      → CanStart d p pos
      → IsLevel d p pos (width k) L
      → (q : Prms) × (create_net_sorter fuel d pos (width k) p ≡ some q)
        × IsGrown d p q pos (width k) (tri k) (sorter_vals d.tot_nods k pos)
  unfolding Builds Grows create_net_sorter sorter_vals width tri split
  sorter-IsGrown k zero pos L p lt low b start lv = absurd (omega arith)
  sorter-IsGrown zero (suc fuel) pos L p lt low b start lv = (
    p,
    refl,
    record { built = b; inside = λ w l m t. omega arith; outside = λ w o. refl; runs = λ v. refl },
  )
  sorter-IsGrown (suc k) (suc fuel) pos L p lt low b start lv =
      let h = width k in
      let h_pos = width_pos k in
      let p0 = set_merge d pos (h + h) p in
      let (q1, e1, same, g1) =
        merger-Builds d k fuel (omega arith) pos L p0 (omega arith)
          (set_merge-IsBuilt d pos (h + h) p b) (set_merge-HasFirst d pos (h + h) p start)
          (λ w l m t. set_merge-level d pos (h + h) p w ∙ lv w l m t) in
      let at1 : (w : ℕ)
          → pos ≤ w
          → w < pos + (h + h)
          → w < d.tot_nods
          → wire_level q1 w ≡ suc k + L =
        λ w l m t.
          g1.inside w l m t ∙ ap (◌+◌ (suc k)) (set_merge-level d pos (h + h) p w ∙ lv w l m t) in
      let (q2, e2, g2) =
        sorter-IsGrown k fuel pos (suc k + L) q1 (omega arith) (omega arith) g1.built
          (λ t. inl (let z = at1 pos (omega arith) (omega arith) t in omega arith))
          (λ w l m t. at1 w l (omega arith) t) in
      let (q3, e3, g3) =
        sorter-IsGrown k fuel (pos + h) (suc k + L) q2 (omega arith) (omega arith) g2.built
          (λ t. inl (
            let z = at1 (pos + h) (omega arith) (omega arith) t in
            let y = g2.outside (pos + h) (inr (omega arith)) in omega arith))
          (λ w l m t. g2.outside w (inr l) ∙ at1 w (omega arith) (omega arith) t) in
      (
        q3,
        split_two k pos p (create_net_merger fuel d pos (h + h) p0) (create_net_sorter fuel d)
            ∙ then_do-some (create_net_sorter fuel d (pos + h) h)
                (then_do-some (create_net_sorter fuel d pos h) e1 ∙ e2)
            ∙ e3,
        grown k pos p q1 q2 q3
            record {
              built = g1.built;
              inside = λ w l m t.
                  g1.inside w l m t ∙ ap (◌+◌ (suc k)) (set_merge-level d pos (h + h) p w);
              outside = λ w o. g1.outside w o ∙ set_merge-level d pos (h + h) p w;
              runs = λ v.
                  g1.runs v ∙ set_merge-run d pos (h + h) p (merger_vals d.tot_nods (suc k) pos v);
            }
            g2 g3,
      )
