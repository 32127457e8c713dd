-- ===== src/Rows/Tally.antt =====
-- How many objects of a row pass a test; exchanging two objects does not change it.
use messaging_cells.Common.{
  ℕ, zero, suc, ◌+◌, ◌<◌, ◌≡◌, ◌≢◌, refl, ◌∙◌, ap, Bool, eq-or-ne, inl, inr, if◌then◌else◌, put_at,
  put_at_self, put_at-ne, arith,
}
use messaging_cells.Rows.Heap.{swap}

module _ {ℓ} {A : Type ℓ} (Q : A → Bool) where
  unfoldable pub score : A → ℕ
  score x = if Q x then 1 else 0

  unfoldable pub tally : (ℕ → A) → ℕ → ℕ
  unfolding score
  tally v zero = 0
  tally v (suc n) = score (v n) + tally v n

  pub tally-same : (u v : ℕ → A) (n : ℕ) → ((i : ℕ) → i < n → u i ≡ v i) → tally u n ≡ tally v n
  unfolding tally
  tally-same u v zero h = refl
  tally-same u v (suc n) h =
      let e = ap score (h n (omega arith)) in
      let r = tally-same u v n λ i l. h i (omega arith) in omega arith

  -- Two rows that differ at most in one place.
  tally-one :
      (u v : ℕ → A) (i n : ℕ)
      → i < n
      → ((k : ℕ) → k ≢ i → u k ≡ v k)
      → tally u n + score (v i) ≡ tally v n + score (u i)
  unfolding tally
  tally-one u v i zero l h = absurd (omega arith)
  tally-one u v i (suc n) l h = elim (eq-or-ne n i) [
    | inl e ↦
        let a : score (u n) ≡ score (u i) = ap (λ k. score (u k)) e in
        let b : score (v n) ≡ score (v i) = ap (λ k. score (v k)) e in
        let r = tally-same u v n λ k m. h k (omega arith) in omega arith
    | inr e ↦ let a = ap score (h n e) in let r = tally-one u v i n (omega arith) h in omega arith
  ]

  pub swap-tally :
      (v : ℕ → A) (i j n : ℕ) → i < n → j < n → i ≢ j → tally (swap v i j) n ≡ tally v n
  unfolding swap
  swap-tally v i j n l m ne =
      let u = put_at j (v i) v in
      let a = tally-one u v j n m λ k f. put_at-ne j k (v i) v f in
      let b = tally-one (put_at i (v j) u) u i n l λ k f. put_at-ne i k (v j) u f in
      let c = ap score (put_at_self j (v i) v) in
      let d = ap score (put_at_self i (v j) u) in
      let e = ap score (put_at-ne j i (v i) v ne) in omega arith

  -- The last object is put in the place of the first.
  pub drop-tally :
      (v : ℕ → A) (sz : ℕ) → tally (put_at 0 (v sz) v) sz + score (v 0) ≡ tally v (suc sz)
  unfolding tally
  drop-tally v sz =
      let g = put_at 0 (v sz) v in
      let a = tally-one g v 0 (suc sz) (omega arith) λ k f. put_at-ne 0 k (v sz) v f in
      let b = ap score (put_at_self 0 (v sz) v) in
      let c : score (g sz) ≡ score (v sz) = elim (eq-or-ne sz 0) [
        | inl e ↦ ap (λ k. score (g k)) e ∙ b
        | inr e ↦ ap score (put_at-ne 0 sz (v sz) v e)
      ] in
      omega arith
