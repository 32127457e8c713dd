-- ===== src/RrArray/Stream.antt =====
-- The bytes of an object in the array, the scan for room, and the clearing of what was read.
use messaging_cells.Common.{
  ℕ, zero, suc, ◌+◌, ◌≤◌, ◌<◌, ◌≡◌, ◌≢◌, refl, sym, ◌∙◌, ap, Bool, true, false, ==_ne, ==_self,
  Option, some, List, [], ◌∷◌, ◌++◌, append-nil, append_assoc, length, length-append, get_or,
  put_at, arith,
}
use messaging_cells.RrArray.Bytes.{
  wrap, write_bytes, are_zero, clear_to, mc_crc16, mc_set_v16_of_p8,
}
use messaging_cells.RrArray.Ring.{idx, wrap_lt, idx_zero, next_idx, after, wrap-after, after_add}

-- An object with its size before it and its check sequence behind it.
unfoldable pub enc : List ℕ → List ℕ
unfolding mc_set_v16_of_p8
enc obj = mc_set_v16_of_p8 (length obj) ++ obj ++ mc_set_v16_of_p8 (mc_crc16 obj)

unfoldable pub stream : List (List ℕ) → List ℕ
unfolding enc
stream [] = []
stream (o ∷ os) = enc o ++ stream os

pub length-enc : (obj : List ℕ) → length (enc obj) ≡ length obj + 4
unfolding enc mc_set_v16_of_p8
length-enc obj = let e = length-append obj (mc_set_v16_of_p8 (mc_crc16 obj)) in omega arith

pub stream_snoc : (os : List (List ℕ)) (o : List ℕ) → stream (os ++ o ∷ []) ≡ stream os ++ enc o
unfolding stream
stream_snoc [] o = append-nil (enc o)
stream_snoc (p ∷ os) o =
    ap (λ x. enc p ++ x) (stream_snoc os o) ∙ sym (append_assoc (enc p) (stream os) (enc o))

unfoldable pub zeros : ℕ → List ℕ
zeros zero = []
zeros (suc n) = 0 ∷ zeros n

pub length-zeros : (n : ℕ) → length (zeros n) ≡ n
unfolding zeros
length-zeros zero = refl
length-zeros (suc n) = ap suc (length-zeros n)

pub get_or-zeros : (n i : ℕ) → get_or (zeros n) i 0 ≡ 0
unfolding zeros
get_or-zeros zero i = refl
get_or-zeros (suc n) zero = refl
get_or-zeros (suc n) (suc i) = get_or-zeros n i

module _ (cap : ℕ) where
  pub write_bytes-append :
      (xs ys : List ℕ) (p : ℕ) (f : ℕ → ℕ)
      → write_bytes cap (xs ++ ys) p f
        ≡ write_bytes cap ys (write_bytes cap xs p f).1 (write_bytes cap xs p f).0
  unfolding write_bytes
  write_bytes-append [] ys p f = refl
  write_bytes-append (x ∷ xs) ys p f =
      write_bytes-append xs ys (wrap cap p + 1) (put_at (wrap cap p) x f)

  -- What the scan finds, and when it finds room.
  pub are_zero-true :
      (f : ℕ → ℕ) (n p i : ℕ)
      → p ≤ cap
      → are_zero cap f n p ≡ true
      → i < n
      → i < cap
      → f (idx cap (wrap cap p) i) ≡ 0
  unfolding are_zero
  are_zero-true f zero p i l e m k = absurd (omega arith)
  are_zero-true f (suc n) p zero l e m k =
      ap f (idx_zero cap (wrap cap p) (wrap_lt cap p k l)) ∙ ground (arith, e)
  are_zero-true f (suc n) p (suc i) l e m k =
      ap f (sym (next_idx cap p i (omega arith) l (omega arith)))
      ∙ are_zero-true f n (wrap cap p + 1) i (let z = wrap_lt cap p (omega arith) l in omega arith)
          (ground (arith, e)) (omega arith) (omega arith)

  pub are_zero-room :
      (f : ℕ → ℕ) (n p : ℕ)
      → 0 < cap
      → p ≤ cap
      → n ≤ cap
      → ((i : ℕ) → i < n → f (idx cap (wrap cap p) i) ≡ 0)
      → are_zero cap f n p ≡ true
  unfolding are_zero
  are_zero-room f zero p h l m z = refl
  are_zero-room f (suc n) p h l m z =
      let q_lt = wrap_lt cap p h l in
      let here : f (wrap cap p) ≡ 0 =
        ap f (sym (idx_zero cap (wrap cap p) q_lt)) ∙ z 0 (omega arith) in
      let rest =
        are_zero-room f n (wrap cap p + 1) h (omega arith) (omega arith)
          λ i k. ap f (next_idx cap p i h l (omega arith)) ∙ z (suc i) (omega arith) in
      ground (arith, here, rest)

  pub after-suc :
      (n p : ℕ) → 0 < cap → p ≤ cap → n < cap → after cap (suc n) p ≡ idx cap (wrap cap p) n + 1
  unfolding after
  after-suc n p h l m =
      let e : suc n ≡ n + 1 = omega arith in
      ap (λ k. after cap k p) e
      ∙ sym (after_add cap n 1 p)
      ∙ ap (λ k. k + 1) (wrap-after cap n p h l (omega arith))

  not_back : (n p : ℕ) → p ≤ cap → suc n < cap → p ≢ idx cap (wrap cap p) n + 1
  unfolding idx wrap
  not_back n p l m = ground arith

  stop_or : ℕ → ℕ → ℕ → (ℕ → ℕ) → Bool → Option ((ℕ → ℕ) × ℕ)
  stop_or fuel n p f b = elim b [
    | true ↦ some (f, p)
    | false ↦ clear_to cap (after cap n p) fuel (wrap cap p + 1) (put_at (wrap cap p) 0 f)
  ]

  -- Clearing writes zeros, and ends where the pointers have not gone all round.
  pub clear_to-zeros :
      (n fuel p : ℕ) (f : ℕ → ℕ)
      → p ≤ cap
      → n < cap
      → n < fuel
      → clear_to cap (after cap n p) fuel p f ≡ some (write_bytes cap (zeros n) p f)
  unfolding clear_to zeros write_bytes after stop_or
  clear_to-zeros n zero p f l m k = absurd (omega arith)
  clear_to-zeros zero (suc fuel) p f l m k = ap (stop_or fuel zero p f) (==_self p)
  clear_to-zeros (suc n) (suc fuel) p f l m k =
      ap (stop_or fuel (suc n) p f)
        (==_ne (λ e. not_back n p l m (e ∙ after-suc n p (omega arith) l (omega arith))))
      ∙ clear_to-zeros n fuel (wrap cap p + 1) (put_at (wrap cap p) 0 f)
          (let z = wrap_lt cap p (omega arith) l in omega arith) (omega arith) (omega arith)
