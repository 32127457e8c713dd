-- ===== src/Sornet/Bitonic.antt =====
-- Bitonic and ascending rows of Booleans, and what a cleaner makes of them.
use messaging_cells.Common.{
  ℕ, ◌+◌, ◌-◌, ◌≤◌, ◌<◌, ◌≡◌, ◌∙◌, ap, Bool, true, false, not, ◌&&◌, ◌||◌, ltb, leb, Bool-cases,
  if◌then◌else◌, ◌⊎◌, inl, inr, arith,
}

-- `i` lies from `a` on and before `e`, or just not, where `flip` says so.
unfoldable pub inside : Bool → ℕ → ℕ → ℕ → Bool
inside flip a e i = if flip then not (leb a i && ltb i e) else leb a i && ltb i e

pub record IsBitonic (f : ℕ → Bool) (sz : ℕ) : Type 0 where
  pub flip : Bool
  pub a : ℕ
  pub e : ℕ
  pub ordered : a ≤ e
  pub within : e ≤ sz
  pub shape : (i : ℕ) → i < sz → f i ≡ inside flip a e i

pub record IsAscending (f : ℕ → Bool) (sz : ℕ) : Type 0 where
  pub p : ℕ
  pub within : p ≤ sz
  pub shape : (i : ℕ) → i < sz → f i ≡ leb p i

abbrev pub IsConst : Bool → (ℕ → Bool) → ℕ → Type 0
IsConst c f sz = (i : ℕ) → i < sz → f i ≡ c

-- One half is clean, the other bitonic, and nothing that reaches stands before what does not.
abbrev pub IsSplit : (ℕ → Bool) → (ℕ → Bool) → ℕ → Type 0
IsSplit lo hi h = (IsConst false lo h × IsBitonic hi h) ⊎ (IsBitonic lo h × IsConst true hi h)

leb_le : (a b : ℕ) → leb a b ≡ true → a ≤ b
leb_le a b h = ground arith

leb_gt : (a b : ℕ) → leb a b ≡ false → b < a
leb_gt a b h = ground arith

module _ (f lo hi : ℕ → Bool) (h : ℕ) (low : (i : ℕ) → i < h → lo i ≡ (f i && f (i + h)))
    (high : (i : ℕ) → i < h → hi i ≡ (f i || f (i + h))) where
  IsSplit-false :
      (a e : ℕ)
      → a ≤ e
      → e ≤ h + h
      → ((i : ℕ) → i < h + h → f i ≡ inside false a e i)
      → IsSplit lo hi h
  unfolding inside
  IsSplit-false a e o w s = elim (Bool-cases (leb e h)) [
    | inl l ↦
        (let l1 = leb_le e h l in
          inl (
            λ i m. ground (arith, low i m, s i (omega arith), s (i + h) (omega arith)),
            record {
              flip = false;
              a = a;
              e = e;
              ordered = omega arith;
              within = omega arith;
              shape = λ i m. ground (arith, high i m, s i (omega arith), s (i + h) (omega arith));
            },
          ))
    | inr l ↦
        (let l1 = leb_gt e h l in
          elim (Bool-cases (leb h a)) [
            | inl m ↦
                (let m1 = leb_le h a m in
                  inl (
                    λ i m. ground (arith, low i m, s i (omega arith), s (i + h) (omega arith)),
                    record {
                      flip = false;
                      a = a - h;
                      e = e - h;
                      ordered = omega arith;
                      within = omega arith;
                      shape = λ i m.
                          ground (arith, high i m, s i (omega arith), s (i + h) (omega arith));
                    },
                  ))
            | inr m ↦
                (let m1 = leb_gt h a m in
                  elim (Bool-cases (leb (e - h) a)) [
                    | inl n ↦
                        (let n1 = leb_le (e - h) a n in
                          inl (
                            λ i m.
                                ground (arith, low i m, s i (omega arith), s (i + h) (omega arith)),
                            record {
                              flip = true;
                              a = e - h;
                              e = a;
                              ordered = omega arith;
                              within = omega arith;
                              shape = λ i m.
                                  ground
                                    (arith, high i m, s i (omega arith), s (i + h) (omega arith));
                            },
                          ))
                    | inr n ↦
                        (let n1 = leb_gt (e - h) a n in
                          inr (
                            record {
                              flip = false;
                              a = a;
                              e = e - h;
                              ordered = omega arith;
                              within = omega arith;
                              shape = λ i m.
                                  ground
                                    (arith, low i m, s i (omega arith), s (i + h) (omega arith));
                            },
                            λ i m.
                                ground
                                  (arith, high i m, s i (omega arith), s (i + h) (omega arith)),
                          ))
                  ])
          ])
  ]

  IsSplit-true :
      (a e : ℕ)
      → a ≤ e
      → e ≤ h + h
      → ((i : ℕ) → i < h + h → f i ≡ inside true a e i)
      → IsSplit lo hi h
  unfolding inside
  IsSplit-true a e o w s = elim (Bool-cases (leb e h)) [
    | inl l ↦
        (let l1 = leb_le e h l in
          inr (
            record {
              flip = true;
              a = a;
              e = e;
              ordered = omega arith;
              within = omega arith;
              shape = λ i m. ground (arith, low i m, s i (omega arith), s (i + h) (omega arith));
            },
            λ i m. ground (arith, high i m, s i (omega arith), s (i + h) (omega arith)),
          ))
    | inr l ↦
        (let l1 = leb_gt e h l in
          elim (Bool-cases (leb h a)) [
            | inl m ↦
                (let m1 = leb_le h a m in
                  inr (
                    record {
                      flip = true;
                      a = a - h;
                      e = e - h;
                      ordered = omega arith;
                      within = omega arith;
                      shape = λ i m.
                          ground (arith, low i m, s i (omega arith), s (i + h) (omega arith));
                    },
                    λ i m. ground (arith, high i m, s i (omega arith), s (i + h) (omega arith)),
                  ))
            | inr m ↦
                (let m1 = leb_gt h a m in
                  elim (Bool-cases (leb (e - h) a)) [
                    | inl n ↦
                        (let n1 = leb_le (e - h) a n in
                          inr (
                            record {
                              flip = false;
                              a = e - h;
                              e = a;
                              ordered = omega arith;
                              within = omega arith;
                              shape = λ i m.
                                  ground
                                    (arith, low i m, s i (omega arith), s (i + h) (omega arith));
                            },
                            λ i m.
                                ground
                                  (arith, high i m, s i (omega arith), s (i + h) (omega arith)),
                          ))
                    | inr n ↦
                        (let n1 = leb_gt (e - h) a n in
                          inl (
                            λ i m.
                                ground (arith, low i m, s i (omega arith), s (i + h) (omega arith)),
                            record {
                              flip = true;
                              a = a;
                              e = e - h;
                              ordered = omega arith;
                              within = omega arith;
                              shape = λ i m.
                                  ground
                                    (arith, high i m, s i (omega arith), s (i + h) (omega arith));
                            },
                          ))
                  ])
          ])
  ]

  pub half-IsSplit : IsBitonic f (h + h) → IsSplit lo hi h
  half-IsSplit b = elim (Bool-cases b.flip) [
    | inl y ↦
        IsSplit-true b.a b.e b.ordered b.within λ i m. b.shape i m ∙ ap (λ c. inside c b.a b.e i) y
    | inr y ↦
        IsSplit-false b.a b.e b.ordered b.within λ i m. b.shape i m ∙ ap (λ c. inside c b.a b.e i) y
  ]

-- Two ascending halves, the second read from its end.
module _ (f lo hi : ℕ → Bool) (h : ℕ) (low : (i : ℕ) → i < h → lo i ≡ (f i && f (h + h - i - 1)))
    (high : (i : ℕ) → i < h → hi i ≡ (f (h - i - 1) || f (h + i))) where
  alt_second :
      (r : IsAscending (λ i. f (h + i)) h)
      → (i : ℕ) → i < h
      → f (h + h - i - 1) ≡ leb r.p (h - i - 1)
  alt_second r i m =
      let e : h + h - i - 1 ≡ h + (h - i - 1) = omega arith in
      ap f e ∙ r.shape (h - i - 1) (omega arith)

  pub alt-IsSplit : IsAscending f h → IsAscending (λ i. f (h + i)) h → IsSplit lo hi h
  unfolding inside
  alt-IsSplit s r = elim (Bool-cases (leb (h - r.p) s.p)) [
    | inl y ↦
        (let l1 = leb_le (h - r.p) s.p y in
          let second = alt_second r in
          inl (
            λ i m. ground (arith, low i m, s.shape i m, second i m),
            record {
              flip = true;
              a = h - s.p;
              e = r.p;
              ordered = (let w = r.within in omega arith);
              within = r.within;
              shape =
                  λ i m. ground (arith, high i m, s.shape (h - i - 1) (omega arith), r.shape i m);
            },
          ))
    | inr y ↦
        (let l1 = leb_gt (h - r.p) s.p y in
          let second = alt_second r in
          inr (
            record {
              flip = false;
              a = s.p;
              e = h - r.p;
              ordered = omega arith;
              within = omega arith;
              shape = λ i m. ground (arith, low i m, s.shape i m, second i m);
            },
            λ i m. ground (arith, high i m, s.shape (h - i - 1) (omega arith), r.shape i m),
          ))
  ]
