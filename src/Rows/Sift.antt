-- ===== src/Rows/Sift.antt =====
-- What `heapify` makes of a heap that one object breaks.
use messaging_cells.Common.{
  ℕ, zero, suc, ◌+◌, ◌≤◌, ◌<◌, ◌≡◌, ◌≢◌, refl, sym, ◌∙◌, ap, subst, Bool, true, false, ◌&&◌, ==_iff,
  ==_ne, ltb, Bool-cases, eq-or-ne, inl, inr, ◌⊎◌, if_so, if_not, Option, some, arith,
}
use messaging_cells.Rows.Tally.{tally, swap-tally}
use messaging_cells.Rows.Heap.{swap, left, right, larger, max_idx, heapify}

-- `c` is a child of `p`.
abbrev pub IsChild : ℕ → ℕ → Type 0
IsChild c p = (c ≡ p + p + 1) ⊎ (c ≡ p + p + 2)

pub child_gt : {c p : ℕ} → IsChild c p → p < c
child_gt (inl e) = omega arith
child_gt (inr e) = omega arith

pub child_once : {c p q : ℕ} → IsChild c p → IsChild c q → p ≡ q
child_once (inl e) (inl f) = omega arith
child_once (inl e) (inr f) = omega arith
child_once (inr e) (inl f) = omega arith
child_once (inr e) (inr f) = omega arith

module _ {ℓ} {A : Type ℓ} (v : ℕ → A) (i j w : ℕ) where
  pub swap_at : w ≡ i → swap v i j w ≡ v j
  unfolding swap
  swap_at e = if_so _ _ ((==_iff w i).1 e)

  pub swap_to : w ≢ i → w ≡ j → swap v i j w ≡ v i
  unfolding swap
  swap_to n e = if_not _ _ (==_ne n) ∙ if_so _ _ ((==_iff w j).1 e)

  pub swap_ne : w ≢ i → w ≢ j → swap v i j w ≡ v w
  unfolding swap
  swap_ne n k = if_not _ _ (==_ne n) ∙ if_not _ _ (==_ne k)

module _ {ℓ} {A : Type ℓ} (key : A → ℕ) where
  -- From `lo` on, no object has a child of a larger key.
  unfoldable pub IsHeapFrom : ℕ → ℕ → (ℕ → A) → Type 0
  IsHeapFrom lo sz v = (p c : ℕ) → lo ≤ p → IsChild c p → c < sz → key (v c) ≤ key (v p)

  -- The same but for the object `idx`, whose children fit under its parent.
  pub record IsSift (lo sz idx : ℕ) (v : ℕ → A) : Type 0 where
    pub others : (p c : ℕ) → lo ≤ p → p ≢ idx → IsChild c p → c < sz → key (v c) ≤ key (v p)
    pub under : (p c : ℕ) → lo ≤ p → IsChild idx p → IsChild c idx → c < sz → key (v c) ≤ key (v p)

  larger-cases :
      (sz : ℕ) (v : ℕ → A) (c m : ℕ)
      → ((larger key sz v c m ≡ c) × (c < sz) × (key (v m) < key (v c)))
        ⊎ ((larger key sz v c m ≡ m) × (c < sz → key (v c) ≤ key (v m)))
  unfolding larger
  larger-cases sz v c m = elim (Bool-cases (ltb c sz && ltb (key (v m)) (key (v c)))) [
    | inl y ↦ inl (if_so c m y, ground (arith, y), ground (arith, y))
    | inr y ↦ inr (if_not c m y, λ l. ground (arith, y))
  ]

  -- `m` has the largest key among `idx` and its children, and is a child only for a larger key.
  record IsMax (sz : ℕ) (v : ℕ → A) (idx m : ℕ) : Type 0 where
    is : (m ≡ idx) ⊎ (((m ≡ left idx) ⊎ (m ≡ right idx)) × (m < sz) × (key (v idx) < key (v m)))
    top_left : left idx < sz → key (v (left idx)) ≤ key (v m)
    top_right : right idx < sz → key (v (right idx)) ≤ key (v m)

  max_idx-IsMax : (sz : ℕ) (v : ℕ → A) (idx : ℕ) → IsMax sz v idx (max_idx key sz v idx)
  unfolding max_idx
  max_idx-IsMax sz v idx =
      let m1 = larger key sz v (left idx) idx in
      let m2 = larger key sz v (right idx) m1 in
      elim (larger-cases sz v (left idx) idx) [
        | inl (e, l, k) ↦
            let ke : key (v m1) ≡ key (v (left idx)) = ap (λ x. key (v x)) e in
            elim (larger-cases sz v (right idx) m1) [
              | inl (f, n, o) ↦
                  let kf : key (v m2) ≡ key (v (right idx)) = ap (λ x. key (v x)) f in
                  record {
                    is = inr (inr f, omega arith, omega arith);
                    top_left = λ b. omega arith;
                    top_right = λ b. omega arith;
                  }
              | inr (f, n) ↦
                  let kf : key (v m2) ≡ key (v m1) = ap (λ x. key (v x)) f in
                  record {
                    is = inr (inl (f ∙ e), omega arith, omega arith);
                    top_left = λ b. omega arith;
                    top_right = λ b. (let z = n b in omega arith);
                  }
            ]
        | inr (e, l) ↦
            let ke : key (v m1) ≡ key (v idx) = ap (λ x. key (v x)) e in
            elim (larger-cases sz v (right idx) m1) [
              | inl (f, n, o) ↦
                  let kf : key (v m2) ≡ key (v (right idx)) = ap (λ x. key (v x)) f in
                  record {
                    is = inr (inr f, omega arith, omega arith);
                    top_left = λ b. (let z = l b in omega arith);
                    top_right = λ b. omega arith;
                  }
              | inr (f, n) ↦
                  let kf : key (v m2) ≡ key (v m1) = ap (λ x. key (v x)) f in
                  record {
                    is = inl (f ∙ e);
                    top_left = λ b. (let z = l b in omega arith);
                    top_right = λ b. (let z = n b in omega arith);
                  }
            ]
      ]

  left_eq : (i : ℕ) → left i ≡ i + i + 1
  unfolding left
  left_eq i = omega arith

  right_eq : (i : ℕ) → right i ≡ i + i + 2
  unfolding right
  right_eq i = omega arith

  IsMax-child :
      (sz : ℕ) (v : ℕ → A) (idx m c : ℕ)
      → IsMax sz v idx m
      → IsChild c idx
      → c < sz
      → key (v c) ≤ key (v m)
  IsMax-child sz v idx m c h (inl e) l =
      let f : left idx ≡ c = left_eq idx ∙ sym e in
      subst (λ x. key (v x) ≤ key (v m)) f (h.top_left (omega arith))
  IsMax-child sz v idx m c h (inr e) l =
      let f : right idx ≡ c = right_eq idx ∙ sym e in
      subst (λ x. key (v x) ≤ key (v m)) f (h.top_right (omega arith))

  IsMax-is :
      (sz : ℕ) (v : ℕ → A) (idx m : ℕ)
      → IsMax sz v idx m
      → (m ≡ idx) ⊎ (IsChild m idx × (m < sz) × (key (v idx) < key (v m)))
  IsMax-is sz v idx m h = elim h.is [
    | inl e ↦ inl e
    | inr (inl e, l, k) ↦ inr (inl (e ∙ left_eq idx), l, k)
    | inr (inr e, l, k) ↦ inr (inr (e ∙ right_eq idx), l, k)
  ]

  step-IsSift :
      (lo sz idx m : ℕ) (v : ℕ → A)
      → lo ≤ idx
      → IsSift lo sz idx v
      → IsChild m idx
      → m < sz
      → key (v idx) < key (v m)
      → ((c : ℕ) → IsChild c idx → c < sz → key (v c) ≤ key (v m))
      → IsSift lo sz m (swap v idx m)
  step-IsSift lo sz idx m v l s k t less most = record {
    others = λ p c a ne ch b. elim (eq-or-ne p idx) [
      | inl e ↦
          let kp = ap key (swap_at v idx m p e) in
          let gt = child_gt ch in
          elim (eq-or-ne c m) [
            | inl f ↦ (let kc = ap key (swap_to v idx m c (omega arith) f) in omega arith)
            | inr f ↦
                let kc = ap key (swap_ne v idx m c (omega arith) f) in
                let under_m = most c (subst (IsChild c) e ch) b in omega arith
          ]
      | inr e ↦
          let kp = ap key (swap_ne v idx m p e ne) in
          elim (eq-or-ne c idx) [
            | inl f ↦
                let kc = ap key (swap_at v idx m c f) in
                let under_p = s.under p m a (subst (λ x. IsChild x p) f ch) k t in omega arith
            | inr f ↦
                let other : c ≢ m = λ g. e (child_once ch (subst (λ x. IsChild x idx) (sym g) k)) in
                let kc = ap key (swap_ne v idx m c f other) in
                let under_p = s.others p c a e ch b in omega arith
          ]
    ];
    under = λ p c a mp ch b.
        let e : p ≡ idx = child_once mp k in
        let gt = child_gt k in
        let gt2 = child_gt ch in
        let kp = ap key (swap_at v idx m p e) in
        let kc = ap key (swap_ne v idx m c (omega arith) (omega arith)) in
        let under_m = s.others m c (omega arith) (omega arith) ch b in omega arith;
  }

  -- What holds of all objects of the heap still does, no other object moves, and none is lost.
  pub record IsMoved (sz : ℕ) (v u : ℕ → A) : Type ℓ where
    pub kept :
        (Q : A → Bool) → ((i : ℕ) → i < sz → Q (v i) ≡ true) → (i : ℕ) → i < sz → Q (u i) ≡ true
    pub rest : (i : ℕ) → sz ≤ i → u i ≡ v i
    pub moved : (Q : A → Bool) (n : ℕ) → sz ≤ n → tally Q u n ≡ tally Q v n

  pub swap-IsMoved :
      (sz : ℕ) (v : ℕ → A) (i j : ℕ) → i < sz → j < sz → i ≢ j → IsMoved sz v (swap v i j)
  swap-IsMoved sz v i j l m ne = record {
    kept = λ Q h k n. elim (eq-or-ne k i) [
      | inl e ↦ ap Q (swap_at v i j k e) ∙ h j m
      | inr e ↦ elim (eq-or-ne k j) [
        | inl f ↦ ap Q (swap_to v i j k e f) ∙ h i l
        | inr f ↦ ap Q (swap_ne v i j k e f) ∙ h k n
      ]
    ];
    rest = λ k n. swap_ne v i j k (omega arith) (omega arith);
    moved = λ Q n o. swap-tally Q v i j n (omega arith) (omega arith) ne;
  }

  pub IsMoved-trans : (sz : ℕ) (v u w : ℕ → A) → IsMoved sz v u → IsMoved sz u w → IsMoved sz v w
  IsMoved-trans sz v u w a b = record {
    kept = λ Q h. b.kept Q (a.kept Q h);
    rest = λ i l. b.rest i l ∙ a.rest i l;
    moved = λ Q n l. b.moved Q n l ∙ a.moved Q n l;
  }

  pub IsMoved-refl : (sz : ℕ) (v : ℕ → A) → IsMoved sz v v
  IsMoved-refl sz v = record { kept = λ Q h. h; rest = λ i l. refl; moved = λ Q n l. refl }

  step_or : ℕ → ℕ → (ℕ → A) → ℕ → Bool → Option (ℕ → A)
  step_or fuel sz v idx b = elim b [
    | true ↦ some v
    | false ↦ heapify key fuel sz (swap v idx (max_idx key sz v idx)) (max_idx key sz v idx)
  ]

  -- `heapify` ends, with fuel above the number of objects behind `idx`, and mends the heap.
  pub heapify-IsHeapFrom :
      (fuel lo sz : ℕ) (v : ℕ → A) (idx : ℕ)
      → idx ≤ sz
      → sz < idx + fuel
      → lo ≤ idx
      → IsSift lo sz idx v
      → (u : ℕ → A) × (heapify key fuel sz v idx ≡ some u) × IsHeapFrom lo sz u × IsMoved sz v u
  unfolding heapify IsHeapFrom step_or
  heapify-IsHeapFrom zero lo sz v idx g f l s = absurd (omega arith)
  heapify-IsHeapFrom (suc fuel) lo sz v idx g f l s =
      let m = max_idx key sz v idx in
      let h = max_idx-IsMax sz v idx in
      elim (IsMax-is sz v idx m h) [
        | inl e ↦ (
          v,
          ap (step_or fuel sz v idx) ((==_iff m idx).1 e),
          λ p c a ch b. elim (eq-or-ne p idx) [
            | inl d ↦
                subst (λ x. key (v c) ≤ key (v x)) (e ∙ sym d)
                  (IsMax-child sz v idx m c h (subst (IsChild c) d ch) b)
            | inr d ↦ s.others p c a d ch b
          ],
          IsMoved-refl sz v,
        )
        | inr (ch, lt, k) ↦
            let gt = child_gt ch in
            let (u, e, heap, mv) =
              heapify-IsHeapFrom fuel lo sz (swap v idx m) m (omega arith) (omega arith)
                (omega arith)
                (step-IsSift lo sz idx m v l s ch lt k λ c. IsMax-child sz v idx m c h) in
            (
              u,
              ap (step_or fuel sz v idx) (==_ne {a = m} {b = idx} (omega arith)) ∙ e,
              heap,
              IsMoved-trans sz v (swap v idx m) u
                  (swap-IsMoved sz v idx m (omega arith) lt (omega arith)) mv,
            )
      ]
