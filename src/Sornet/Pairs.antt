-- ===== src/Sornet/Pairs.antt =====
-- What the loop of a cleaner makes: a node for each of its pairs, one level up.
use messaging_cells.Common.{
  if_not, ℕ, zero, suc, ◌+◌, ◌-◌, ◌/◌, ◌≤◌, ◌<◌, ◌≡◌, ◌≢◌, refl, sym, ◌∙◌, ap, subst, ==_ne,
  Bool-cases, ltb, eq-or-ne, inl, inr, none, some, arith,
}
use messaging_cells.Sornet.Build.{
  Dims, Prms, create_pairs, create_net_half_cleaner, create_net_alt_half_cleaner, half_down,
  alt_down,
}
use messaging_cells.Sornet.Play.{run}
use messaging_cells.Sornet.Values.{ArePairs, pairs_vals}
use messaging_cells.Sornet.Cleaners.{IsOut, half-ArePairs, alt-ArePairs}
use messaging_cells.Sornet.Made.{wire_level, IsBuilt, IsMade}
use messaging_cells.Sornet.Node.{create_node-IsMade}

-- `q` is `p` with a network more, of `dl` levels, on the `sz` wires from `pos` on: a run of `q` is a
-- run of `p` on what `g` makes of the values.
pub record IsGrown (d : Dims) (p q : Prms) (pos sz dl : ℕ) (g : (ℕ → ℕ) → ℕ → ℕ) : Type 0 where
  pub built : IsBuilt d q
  pub inside :
      (w : ℕ) → pos ≤ w → w < pos + sz → w < d.tot_nods → wire_level q w ≡ dl + wire_level p w
  pub outside : (w : ℕ) → IsOut pos sz w → wire_level q w ≡ wire_level p w
  pub runs : (v : ℕ → ℕ) → run q v ≡ run p (g v)

-- All wires are on one level.
abbrev pub IsLevel : Dims → Prms → ℕ → ℕ → ℕ → Type 0
IsLevel d p pos sz L = (w : ℕ) → pos ≤ w → w < pos + sz → w < d.tot_nods → wire_level p w ≡ L

abbrev pub HasFirst : Dims → Prms → ℕ → Type 0
HasFirst d p pos = pos < d.tot_nods → (fst : ℕ) × (p.first_lv_for_merge_sz ≡ some fst)

abbrev pub IsSameFirst : Prms → Prms → Type 0
IsSameFirst p q = q.first_lv_for_merge_sz ≡ p.first_lv_for_merge_sz

pub HasFirst-same :
    (d : Dims) (p q : Prms) (pos qos : ℕ)
    → pos ≤ qos
    → IsSameFirst p q
    → HasFirst d p pos
    → HasFirst d q qos
HasFirst-same d p q pos qos l e h t = let (fst, f) = h (omega arith) in (fst, e ∙ f)

record IsPaired (d : Dims) (p q : Prms) (pos : ℕ) (down : ℕ → ℕ) (n ii : ℕ) : Type 0 where
  built : IsBuilt d q
  first : IsSameFirst p q
  ups :
      (i : ℕ)
      → ii ≤ i
      → i < ii + n
      → pos + i < d.tot_nods
      → wire_level q (pos + i) ≡ suc (wire_level p (pos + i))
  downs :
      (i : ℕ)
      → ii ≤ i
      → i < ii + n
      → down i < d.tot_nods
      → wire_level q (down i) ≡ suc (wire_level p (down i))
  others :
      (w : ℕ)
      → ((i : ℕ) → ii ≤ i → i < ii + n → (w ≢ pos + i) × (w ≢ down i))
      → wire_level q w ≡ wire_level p w
  runs : (v : ℕ → ℕ) → run q v ≡ run p (pairs_vals d.tot_nods pos down n ii v)

module _ (d : Dims) (pos h L : ℕ) (down : ℕ → ℕ) (a : ArePairs pos h down)
    (low : L < d.tot_lvs) where
  -- No later pair has a wire of this one.
  not_up :
      (n ii i : ℕ)
      → ii + suc n ≤ h
      → ii < i
      → i < ii + suc n
      → (pos + i ≢ pos + ii) × (pos + i ≢ down ii)
  not_up n ii i l m k = (omega arith, let z = a.above ii (omega arith) in omega arith)

  not_down :
      (n ii i : ℕ)
      → ii + suc n ≤ h
      → ii < i
      → i < ii + suc n
      → (down i ≢ pos + ii) × (down i ≢ down ii)
  not_down n ii i l m k = (
    let z = a.above i (omega arith) in omega arith,
    λ e. (let z = a.once i ii (omega arith) (omega arith) e in omega arith),
  )

  IsPaired-cons :
      (n ii : ℕ) (p p1 q : Prms)
      → ii + suc n ≤ h
      → IsMade d p p1 (pos + ii) (down ii)
      → IsPaired d p1 q pos down n (ii + 1)
      → IsPaired d p q pos down (suc n) ii
  unfolding pairs_vals
  IsPaired-cons n ii p p1 q l made rest = record {
    built = rest.built;
    first = rest.first ∙ made.first;
    ups = λ i m k t. elim (eq-or-ne i ii) [
      | inl e ↦
          subst (λ j. wire_level q (pos + j) ≡ suc (wire_level p (pos + j))) (sym e)
            (rest.others (pos + ii)
                (λ j x y. (omega arith, let z = a.above j (omega arith) in omega arith))
              ∙ made.up_level (omega arith))
      | inr e ↦
          let o = not_up n ii i l (omega arith) k in
          rest.ups i (omega arith) (omega arith) t ∙ ap suc (made.ne_level (pos + i) o.0 o.1)
    ];
    downs = λ i m k t. elim (eq-or-ne i ii) [
      | inl e ↦
          subst (λ j. wire_level q (down j) ≡ suc (wire_level p (down j))) (sym e)
            (rest.others (down ii) (λ j x y. (
              let z = a.above ii (omega arith) in omega arith,
              λ f. (let z = a.once ii j (omega arith) (omega arith) f in omega arith),
            ))
              ∙ made.down_level (subst (λ j. down j < d.tot_nods) e t))
      | inr e ↦
          let o = not_down n ii i l (omega arith) k in
          rest.downs i (omega arith) (omega arith) t ∙ ap suc (made.ne_level (down i) o.0 o.1)
    ];
    others = λ w k.
        let here = k ii (omega arith) (omega arith) in
        rest.others w (λ i m o. k i (omega arith) (omega arith)) ∙ made.ne_level w here.0 here.1;
    runs = λ v. rest.runs v ∙ made.runs (pairs_vals d.tot_nods pos down n (ii + 1) v);
  }

  pairs-IsPaired :
      (n ii : ℕ) (p : Prms)
      → ii + n ≤ h
      → IsBuilt d p
      → HasFirst d p pos
      → ((i : ℕ) → ii ≤ i → i < ii + n → pos + i < d.tot_nods → wire_level p (pos + i) ≡ L)
      → ((i : ℕ) → ii ≤ i → i < ii + n → down i < d.tot_nods → wire_level p (down i) ≡ L)
      → (q : Prms) × (create_pairs d pos down n ii p ≡ some q) × IsPaired d p q pos down n ii
  unfolding create_pairs pairs_vals
  pairs-IsPaired zero ii p l b first lu ld = (
    p,
    refl,
    record {
      built = b;
      first = refl;
      ups = λ i m k. absurd (omega arith);
      downs = λ i m k. absurd (omega arith);
      others = λ w k. refl;
      runs = λ v. refl;
    },
  )
  pairs-IsPaired (suc n) ii p l b first lu ld =
      let up = pos + ii in
      let dn = down ii in
      let above = a.above ii (omega arith) in
      let lower : up < dn = omega arith in
      let (p1, e1, made) =
        create_node-IsMade d p up dn b lower (λ t. first (omega arith))
          (λ t. subst (λ x. x < d.tot_lvs) (sym (lu ii (omega arith) (omega arith) t)) low)
          (λ t.
            ld ii (omega arith) (omega arith) t
            ∙ sym (lu ii (omega arith) (omega arith) (omega arith))) in
      let (q, e2, rest) =
        pairs-IsPaired n (ii + 1) p1 (omega arith) made.built
          (HasFirst-same d p p1 pos pos (omega arith) made.first first)
          (λ i m k t.
            made.ne_level (pos + i) (not_up n ii i l (omega arith) (omega arith)).0
              (not_up n ii i l (omega arith) (omega arith)).1
            ∙ lu i (omega arith) (omega arith) t)
          (λ i m k t.
            made.ne_level (down i) (not_down n ii i l (omega arith) (omega arith)).0
              (not_down n ii i l (omega arith) (omega arith)).1
            ∙ ld i (omega arith) (omega arith) t) in
      (
        q,
        ap (λ o. elim o [ none ↦ none | some r ↦ create_pairs d pos down n (ii + 1) r ]) e1 ∙ e2,
        IsPaired-cons n ii p p1 q l made rest,
      )

  ne_up : (w i : ℕ) → i < h → IsOut pos (h + h) w → w ≢ pos + i
  ne_up w i m (inl o) = omega arith
  ne_up w i m (inr o) = omega arith

  ne_down : (w i : ℕ) → i < h → down i < pos + (h + h) → IsOut pos (h + h) w → w ≢ down i
  ne_down w i m k (inl o) = let z = a.above i (omega arith) in omega arith
  ne_down w i m k (inr o) = omega arith

  -- All pairs of a cleaner.
  cleaner-IsGrown :
      (p : Prms)
      → ((w : ℕ) → pos + h ≤ w → w < pos + (h + h) → (i : ℕ) × (i < h) × (down i ≡ w))
      → ((i : ℕ) → i < h → down i < pos + (h + h))
      → IsBuilt d p
      → HasFirst d p pos
      → IsLevel d p pos (h + h) L
      → (q : Prms) × (create_pairs d pos down h 0 p ≡ some q)
        × IsSameFirst p q
        × IsGrown d p q pos (h + h) 1 (pairs_vals d.tot_nods pos down h 0)
  cleaner-IsGrown p onto within b first lv =
      let (q, e, r) =
        pairs-IsPaired h 0 p (omega arith) b first
          (λ i m k t. lv (pos + i) (omega arith) (omega arith) t)
          (λ i m k t.
            lv (down i) (let z = a.above i (omega arith) in omega arith) (within i (omega arith))
              t) in
      (
        q,
        e,
        r.first,
        record {
          built = r.built;
          inside = λ w m k t. elim (Bool-cases (ltb w (pos + h))) [
            | inl y ↦
                let low_w : w < pos + h = ground arith in
                let f : pos + (w - pos) ≡ w = omega arith in
                subst (λ x. wire_level q x ≡ 1 + wire_level p x) f
                  (r.ups (w - pos) (omega arith) (omega arith) (omega arith) ∙ omega arith)
            | inr y ↦
                let (i, i_lt, f) = onto w (ground arith) k in
                subst (λ x. wire_level q x ≡ 1 + wire_level p x) f
                  (r.downs i (omega arith) (omega arith) (omega arith) ∙ omega arith)
          ];
          outside = λ w o. r.others w λ i m k.
              (ne_up w i (omega arith) o, ne_down w i (omega arith) (within i (omega arith)) o);
          runs = r.runs;
        },
      )

pub half-IsGrown :
    (d : Dims) (pos h L : ℕ) (p : Prms)
    → 0 < h
    → L < d.tot_lvs
    → IsBuilt d p
    → HasFirst d p pos
    → IsLevel d p pos (h + h) L
    → (q : Prms) × (create_net_half_cleaner d pos (h + h) p ≡ some q)
      × IsSameFirst p q
      × IsGrown d p q pos (h + h) 1 (pairs_vals d.tot_nods pos (half_down pos h) h 0)
unfolding create_net_half_cleaner half_down
half-IsGrown d pos h L p z low b first lv =
    let (q, e, f, r) =
      cleaner-IsGrown d pos h L (half_down pos h) (half-ArePairs pos h) low p
        (λ w m k. (w - pos - h, omega arith, omega arith)) (λ i m. omega arith) b first lv in
    let half : (h + h) / 2 ≡ h = omega arith in
    (
      q,
      if_not (some p) _ (==_ne {a = h + h} {b = 1} (omega arith))
          ∙ ap (λ x. create_pairs d pos (half_down pos x) x 0 p) half
          ∙ e,
      f,
      r,
    )

pub alt-IsGrown :
    (d : Dims) (pos h L : ℕ) (p : Prms)
    → 0 < h
    → L < d.tot_lvs
    → IsBuilt d p
    → HasFirst d p pos
    → IsLevel d p pos (h + h) L
    → (q : Prms) × (create_net_alt_half_cleaner d pos (h + h) p ≡ some q)
      × IsSameFirst p q
      × IsGrown d p q pos (h + h) 1 (pairs_vals d.tot_nods pos (alt_down pos (h + h)) h 0)
unfolding create_net_alt_half_cleaner alt_down
alt-IsGrown d pos h L p z low b first lv =
    let (q, e, f, r) =
      cleaner-IsGrown d pos h L (alt_down pos (h + h)) (alt-ArePairs pos h) low p
        (λ w m k. (pos + (h + h) - w - 1, omega arith, omega arith)) (λ i m. omega arith) b first
        lv in
    let half : (h + h) / 2 ≡ h = omega arith in
    (
      q,
      if_not (some p) _ (==_ne {a = h + h} {b = 1} (omega arith))
          ∙ ap (λ x. create_pairs d pos (alt_down pos (h + h)) x 0 p) half
          ∙ e,
      f,
      r,
    )
