-- ===== src/RrArray/Ring.antt =====
-- The bytes of the array as they follow each other round its end.
use messaging_cells.Common.{
  put_at_self, put_at-ne, ℕ, zero, suc, ◌+◌, ◌-◌, ◌≤◌, ◌<◌, ◌≡◌, ◌≢◌, refl, sym, ◌∙◌, ap, ap₂, ltb,
  if◌then◌else◌, List, [], ◌∷◌, length, get_or, put_at, arith,
}
use messaging_cells.RrArray.Bytes.{wrap, read_bytes, write_bytes}

-- The place `i` bytes behind the place `q`.
unfoldable pub idx : ℕ → ℕ → ℕ → ℕ
idx cap q i = if ltb (q + i) cap then q + i else q + i - cap

pub wrap_lt : (cap p : ℕ) → 0 < cap → p ≤ cap → wrap cap p < cap
unfolding wrap
wrap_lt cap p h l = ground arith

pub idx_lt : (cap q i : ℕ) → q < cap → i ≤ cap → idx cap q i < cap
unfolding idx
idx_lt cap q i h l = ground arith

pub wrap-idx : (cap q : ℕ) → q < cap → wrap cap (q + 1) ≡ idx cap q 1
unfolding wrap idx
wrap-idx cap q h = ground arith

pub idx_zero : (cap q : ℕ) → q < cap → idx cap q 0 ≡ q
unfolding idx
idx_zero cap q h = ground arith

pub idx_add : (cap q i j : ℕ) → q < cap → i + j ≤ cap → idx cap (idx cap q i) j ≡ idx cap q (i + j)
unfolding idx
idx_add cap q i j h l = ground arith

pub idx_once : (cap q i j : ℕ) → q < cap → i < cap → j < cap → idx cap q i ≡ idx cap q j → i ≡ j
unfolding idx
idx_once cap q i j h l m e = ground arith

module _ (cap : ℕ) where
  pub next_idx :
      (p i : ℕ)
      → 0 < cap
      → p ≤ cap
      → suc i ≤ cap
      → idx cap (wrap cap (wrap cap p + 1)) i ≡ idx cap (wrap cap p) (suc i)
  next_idx p i h l m =
      let q_lt = wrap_lt cap p h l in
      let e : 1 + i ≡ suc i = omega arith in
      ap (λ x. idx cap x i) (wrap-idx cap (wrap cap p) q_lt)
      ∙ idx_add cap (wrap cap p) 1 i q_lt (omega arith)
      ∙ ap (idx cap (wrap cap p)) e

  idx_ne : (q i : ℕ) → q < cap → 0 < i → i < cap → idx cap q i ≢ q
  unfolding idx
  idx_ne q i l m k = ground arith

  idx_round : (q : ℕ) → q < cap → idx cap q cap ≡ q
  unfolding idx
  idx_round q l = ground arith

  -- The pointer after `n` bytes.
  unfoldable pub after : ℕ → ℕ → ℕ
  unfolding wrap
  after zero p = p
  after (suc n) p = after n (wrap cap p + 1)

  pub wrap-after :
      (n p : ℕ) → 0 < cap → p ≤ cap → n ≤ cap → wrap cap (after n p) ≡ idx cap (wrap cap p) n
  unfolding after
  wrap-after zero p h l m = sym (idx_zero cap (wrap cap p) (wrap_lt cap p h l))
  wrap-after (suc n) p h l m =
      let q = wrap cap p in
      let q_lt = wrap_lt cap p h l in
      let one : 1 + n ≡ suc n = omega arith in
      wrap-after n (q + 1) h (omega arith) (omega arith)
      ∙ ap (λ x. idx cap x n) (wrap-idx cap q q_lt)
      ∙ idx_add cap q 1 n q_lt (omega arith)
      ∙ ap (idx cap q) one

  pub after_le : (n p : ℕ) → 0 < cap → p ≤ cap → after n p ≤ cap
  unfolding after
  after_le zero p h l = l
  after_le (suc n) p h l =
      let q_lt = wrap_lt cap p h l in after_le n (wrap cap p + 1) h (omega arith)

  pub after_add : (m n p : ℕ) → after n (after m p) ≡ after (m + n) p
  unfolding after
  after_add zero n p = let e : n ≡ 0 + n = omega arith in ap (λ k. after k p) e
  after_add (suc m) n p =
      let e : suc (m + n) ≡ suc m + n = omega arith in
      after_add m n (wrap cap p + 1) ∙ ap (λ k. after k p) e

  pub read_bytes-after : (f : ℕ → ℕ) (n p : ℕ) → (read_bytes cap f n p).1 ≡ after n p
  unfolding read_bytes after
  read_bytes-after f zero p = refl
  read_bytes-after f (suc n) p = read_bytes-after f n (wrap cap p + 1)

  pub write_bytes-after :
      (bs : List ℕ) (p : ℕ) (f : ℕ → ℕ) → (write_bytes cap bs p f).1 ≡ after (length bs) p
  unfolding write_bytes after
  write_bytes-after [] p f = refl
  write_bytes-after (b ∷ bs) p f = write_bytes-after bs (wrap cap p + 1) (put_at (wrap cap p) b f)

  -- The bytes behind `p` that are those of a list are read as that list.
  pub read_bytes-list :
      (f : ℕ → ℕ) (bs : List ℕ) (p : ℕ)
      → p ≤ cap
      → length bs ≤ cap
      → ((i : ℕ) → i < length bs → f (idx cap (wrap cap p) i) ≡ get_or bs i 0)
      → (read_bytes cap f (length bs) p).0 ≡ bs
  unfolding read_bytes
  read_bytes-list f [] p l m h = refl
  read_bytes-list f (b ∷ bs) p l m h =
      (let q_lt = wrap_lt cap p (omega arith) l in
        ap₂ ◌∷◌ (ap f (sym (idx_zero cap (wrap cap p) q_lt)) ∙ h 0 (omega arith)) (
          read_bytes-list f bs (wrap cap p + 1) (omega arith) (omega arith)
            λ i t. ap f (next_idx p i (omega arith) l (omega arith)) ∙ h (suc i) (omega arith)))

  pub write_bytes-out :
      (f : ℕ → ℕ) (bs : List ℕ) (p i : ℕ)
      → p ≤ cap
      → length bs ≤ i
      → i < cap
      → (write_bytes cap bs p f).0 (idx cap (wrap cap p) i) ≡ f (idx cap (wrap cap p) i)
  unfolding write_bytes
  write_bytes-out f [] p i l m k = refl
  write_bytes-out f (b ∷ bs) p i l m k =
      let q = wrap cap p in
      let q_lt = wrap_lt cap p (omega arith) l in
      let g = put_at q b f in
      let u = (write_bytes cap bs (q + 1) g).0 in
      let pred : suc (i - 1) ≡ i = omega arith in
      let here : idx cap (wrap cap (q + 1)) (i - 1) ≡ idx cap q i =
        next_idx p (i - 1) (omega arith) l (omega arith) ∙ ap (idx cap q) pred in
      ap u (sym here)
      ∙ write_bytes-out g bs (q + 1) (i - 1) (omega arith) (omega arith) (omega arith)
      ∙ ap g here
      ∙ put_at-ne q (idx cap q i) b f (idx_ne q i q_lt (omega arith) k)

  pub write_bytes-in :
      (f : ℕ → ℕ) (bs : List ℕ) (p i : ℕ)
      → p ≤ cap
      → length bs ≤ cap
      → i < length bs
      → (write_bytes cap bs p f).0 (idx cap (wrap cap p) i) ≡ get_or bs i 0
  unfolding write_bytes
  write_bytes-in f [] p i l m k = absurd (omega arith)
  write_bytes-in f (b ∷ bs) p zero l m k =
      let q = wrap cap p in
      let q_lt = wrap_lt cap p (omega arith) l in
      let g = put_at q b f in
      let u = (write_bytes cap bs (q + 1) g).0 in
      let last : suc (cap - 1) ≡ cap = omega arith in
      let here : idx cap (wrap cap (q + 1)) (cap - 1) ≡ q =
        next_idx p (cap - 1) (omega arith) l (omega arith)
        ∙ ap (idx cap q) last
        ∙ idx_round q q_lt in
      ap u (idx_zero cap q q_lt ∙ sym here)
      ∙ write_bytes-out g bs (q + 1) (cap - 1) (omega arith) (omega arith) (omega arith)
      ∙ ap g here
      ∙ put_at_self q b f
  write_bytes-in f (b ∷ bs) p (suc i) l m k =
      ap (write_bytes cap bs (wrap cap p + 1) (put_at (wrap cap p) b f)).0
        (sym (next_idx p i (omega arith) l (omega arith)))
      ∙ write_bytes-in (put_at (wrap cap p) b f) bs (wrap cap p + 1) i
          (let z = wrap_lt cap p (omega arith) l in omega arith) (omega arith) (omega arith)
