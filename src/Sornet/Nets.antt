-- ===== src/Sornet/Nets.antt =====
-- What the networks make, one inside the other.
use messaging_cells.Common.{
  ℕ, zero, suc, ◌+◌, ◌/◌, ◌≤◌, ◌<◌, ◌≡◌, refl, sym, ◌∙◌, ap, subst, Bool, true, false, ◌==◌, ==_ne,
  Bool-cases, ltb, inl, inr, Option, some, arith,
}
use messaging_cells.Sornet.Build.{
  Dims, Prms, then_do, create_net_bitonic, create_net_merger, create_net_half_cleaner,
  create_net_alt_half_cleaner, half_down, alt_down,
}
use messaging_cells.Sornet.Values.{pairs_vals, bitonic_vals, merger_vals, width}
use messaging_cells.Sornet.Cleaners.{IsOut, width_pos}
use messaging_cells.Sornet.Made.{IsBuilt}
use messaging_cells.Sornet.Pairs.{
  IsGrown, IsLevel, HasFirst, IsSameFirst, HasFirst-same, half-IsGrown, alt-IsGrown,
}

-- Two networks, one behind the other on the same wires, or beside each other.
pub IsGrown-then :
    (d : Dims) (p q r : Prms) (pos sz m n : ℕ) (g f : (ℕ → ℕ) → ℕ → ℕ)
    → IsGrown d p q pos sz m g
    → IsGrown d q r pos sz n f
    → IsGrown d p r pos sz (n + m) (λ v. g (f v))
IsGrown-then d p q r pos sz m n g f a b = record {
  built = b.built;
  inside = λ w l k t. let x = a.inside w l k t in let y = b.inside w l k t in omega arith;
  outside = λ w o. b.outside w o ∙ a.outside w o;
  runs = λ v. b.runs v ∙ a.runs (f v);
}

pub IsGrown-beside :
    (d : Dims) (p q r : Prms) (pos h n : ℕ) (g f : (ℕ → ℕ) → ℕ → ℕ)
    → IsGrown d p q pos h n g
    → IsGrown d q r (pos + h) h n f
    → IsGrown d p r pos (h + h) n (λ v. g (f v))
IsGrown-beside d p q r pos h n g f a b = record {
  built = b.built;
  inside = λ w l k t. elim (Bool-cases (ltb w (pos + h))) [
    | inl y ↦ b.outside w (inl (ground arith)) ∙ a.inside w l (ground arith) t
    | inr y ↦
        let x = b.inside w (ground arith) (omega arith) t in
        let z = a.outside w (inr (ground arith)) in omega arith
  ];
  outside = λ w o. b.outside w (out_high w o) ∙ a.outside w (out_low w o);
  runs = λ v. b.runs v ∙ a.runs (f v);
}
  where
    out_low : (w : ℕ) → IsOut pos (h + h) w → IsOut pos h w
    out_low w (inl o) = inl o
    out_low w (inr o) = inr (omega arith)

    out_high : (w : ℕ) → IsOut pos (h + h) w → IsOut (pos + h) h w
    out_high w (inl o) = inl (omega arith)
    out_high w (inr o) = inr (omega arith)

-- A step that always gives a result, with a network more and the same first level.
unfoldable pub Grows : Dims → Prms → Option Prms → ℕ → ℕ → ℕ → ((ℕ → ℕ) → ℕ → ℕ) → Type 0
Grows d p o pos sz dl g = (q : Prms) × (o ≡ some q) × IsSameFirst p q × IsGrown d p q pos sz dl g

pub then_do-some :
    {o : Option Prms} {p : Prms} (f : Prms → Option Prms) → o ≡ some p → then_do o f ≡ f p
unfolding then_do
then_do-some f e = ap (λ x. then_do x f) e

Grows-then :
    (d : Dims) (p : Prms) (o : Option Prms) (F : Prms → Option Prms) (pos sz m n : ℕ)
    (g f : (ℕ → ℕ) → ℕ → ℕ)
    → Grows d p o pos sz m g
    → ((q : Prms) → IsSameFirst p q → IsGrown d p q pos sz m g → Grows d q (F q) pos sz n f)
    → Grows d p (then_do o F) pos sz (n + m) (λ v. g (f v))
unfolding Grows
Grows-then d p o F pos sz m n g f (q, e, same, a) next =
    let (r, e2, same2, b) = next q same a in
    (r, then_do-some F e ∙ e2, same2 ∙ same, IsGrown-then d p q r pos sz m n g f a b)

Grows-beside :
    (d : Dims) (p : Prms) (o : Option Prms) (F : Prms → Option Prms) (pos h n : ℕ)
    (g f : (ℕ → ℕ) → ℕ → ℕ)
    → Grows d p o pos h n g
    → ((q : Prms) → IsSameFirst p q → IsGrown d p q pos h n g → Grows d q (F q) (pos + h) h n f)
    → Grows d p (then_do o F) pos (h + h) n (λ v. g (f v))
unfolding Grows
Grows-beside d p o F pos h n g f (q, e, same, a) next =
    let (r, e2, same2, b) = next q same a in
    (r, then_do-some F e ∙ e2, same2 ∙ same, IsGrown-beside d p q r pos h n g f a b)

-- What a network of `k` halvings, built by `F`, needs and makes.
unfoldable pub Builds : Dims → ℕ → (ℕ → Prms → Option Prms) → (ℕ → (ℕ → ℕ) → ℕ → ℕ) → Type 0
Builds d k F g =
    (pos L : ℕ) (p : Prms)
    → L + k ≤ d.tot_lvs
    → IsBuilt d p
    → HasFirst d p pos
    → IsLevel d p pos (width k) L
    → Grows d p (F pos p) pos (width k) k (g pos)

-- Two halves beside each other, and a cleaner for both.
cleaned-Grows :
    (d : Dims) (k pos L : ℕ) (p : Prms) (F : ℕ → Prms → Option Prms) (C : Prms → Option Prms)
    (g : ℕ → (ℕ → ℕ) → ℕ → ℕ) (c : (ℕ → ℕ) → ℕ → ℕ)
    → Builds d k F g
    → ((q : Prms)
        → IsBuilt d q
        → HasFirst d q pos
        → IsLevel d q pos (width k + width k) (k + L)
        → Grows d q (C q) pos (width k + width k) 1 c)
    → L + suc k ≤ d.tot_lvs
    → IsBuilt d p
    → HasFirst d p pos
    → IsLevel d p pos (width k + width k) L
    → Grows d p
        (then_do (then_do (F pos p) (F (pos + width k))) C)
        pos
        (width k + width k)
        (1 + k)
        (λ v. g pos (g (pos + width k) (c v)))
unfolding Builds
cleaned-Grows d k pos L p F C g c net clean low b first lv =
    let h = width k in
    let h_pos = width_pos k in
    Grows-then d p (then_do (F pos p) (F (pos + h))) C pos (h + h) k 1 (λ v. g pos (g (pos + h) v))
      c
      (Grows-beside d p (F pos p) (F (pos + h)) pos h k (g pos) (g (pos + h))
        (net pos L p (omega arith) b first (λ w l m t. lv w l (omega arith) t))
        (λ q same a.
          net (pos + h) L q (omega arith) a.built
            (HasFirst-same d p q pos (pos + h) (omega arith) same first)
            (λ w l m t. a.outside w (inr l) ∙ lv w (omega arith) (omega arith) t)))
      (λ q same a.
        clean q a.built (HasFirst-same d p q pos pos (omega arith) same first)
          (λ w l m t. a.inside w l m t ∙ ap (◌+◌ k) (lv w l m t)))

pub wide : (k : ℕ) → (width k + width k == 1) ≡ false
wide k = let h = width_pos k in ==_ne {a = width k + width k} {b = 1} (omega arith)

pub width_half : (k : ℕ) → (width k + width k) / 2 ≡ width k
width_half k = omega arith

-- Two halves, `F` of the half for each, and then `C`, where there is more than one wire.
pick : Bool → Prms → (ℕ → ℕ → Prms → Option Prms) → (Prms → Option Prms) → ℕ → ℕ → Option Prms
pick b p F C pos h = elim b [
  | true ↦ some p
  | false ↦ then_do (then_do (F pos h p) (F (pos + h) h)) C
]

pick_two :
    (k pos : ℕ) (p : Prms) (F : ℕ → ℕ → Prms → Option Prms) (C : Prms → Option Prms)
    → pick (width k + width k == 1) p F C pos ((width k + width k) / 2)
      ≡ then_do (then_do (F pos (width k) p) (F (pos + width k) (width k))) C
unfolding pick
pick_two k pos p F C =
    ap (λ b. pick b p F C pos ((width k + width k) / 2)) (wide k)
    ∙ ap (λ h. then_do (then_do (F pos h p) (F (pos + h) h)) C) (width_half k)

Grows-same :
    (d : Dims) (p : Prms) (o u : Option Prms) (pos sz m n : ℕ) (g : (ℕ → ℕ) → ℕ → ℕ)
    → o ≡ u
    → m ≡ n
    → Grows d p u pos sz m g
    → Grows d p o pos sz n g
Grows-same d p o u pos sz m n g e f h =
    subst (λ x. Grows d p x pos sz n g) (sym e) (subst (λ x. Grows d p u pos sz x g) f h)

module _ (d : Dims) where
  bitonic-Builds :
      (k fuel : ℕ)
      → k < fuel
      → Builds d k (λ pos. create_net_bitonic fuel d pos (width k)) (bitonic_vals d.tot_nods k)
  unfolding Builds Grows create_net_bitonic bitonic_vals width pick
  bitonic-Builds k zero lt pos L p low b first lv = absurd (omega arith)
  bitonic-Builds zero (suc fuel) lt pos L p low b first lv = (
    p,
    refl,
    refl,
    record { built = b; inside = λ w l m t. omega arith; outside = λ w o. refl; runs = λ v. refl },
  )
  bitonic-Builds (suc k) (suc fuel) lt pos L p low b first lv =
      Grows-same d p _ _ pos (width k + width k) (1 + k) (suc k) _
        (pick_two k pos p (create_net_bitonic fuel d)
          (create_net_half_cleaner d pos (width k + width k)))
        (omega arith)
        (cleaned-Grows d k pos L p (λ q. create_net_bitonic fuel d q (width k))
          (create_net_half_cleaner d pos (width k + width k)) (bitonic_vals d.tot_nods k)
          (pairs_vals d.tot_nods pos (half_down pos (width k)) (width k) 0)
          (bitonic-Builds k fuel (omega arith))
          (λ q bq fq lq.
            half-IsGrown d pos (width k) (k + L) q (width_pos k) (omega arith) bq fq lq)
          low b first lv)

  pub merger-Builds :
      (k fuel : ℕ)
      → k < fuel
      → Builds d
          (suc k)
          (λ pos. create_net_merger fuel d pos (width (suc k)))
          (merger_vals d.tot_nods (suc k))
  unfolding Builds Grows create_net_merger merger_vals width pick
  merger-Builds k fuel lt pos L p low b first lv =
      Grows-same d p _ _ pos (width k + width k) (1 + k) (suc k) _
        (pick_two k pos p (create_net_bitonic fuel d)
          (create_net_alt_half_cleaner d pos (width k + width k)))
        (omega arith)
        (cleaned-Grows d k pos L p (λ q. create_net_bitonic fuel d q (width k))
          (create_net_alt_half_cleaner d pos (width k + width k)) (bitonic_vals d.tot_nods k)
          (pairs_vals d.tot_nods pos (alt_down pos (width k + width k)) (width k) 0)
          (bitonic-Builds k fuel lt)
          (λ q bq fq lq. alt-IsGrown d pos (width k) (k + L) q (width_pos k) (omega arith) bq fq lq)
          low b first lv)
