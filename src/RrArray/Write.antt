-- ===== src/RrArray/Write.antt =====
-- `mc_rr_write_obj` on a queue.
use messaging_cells.Common.{
  ℕ, ◌+◌, ◌-◌, ◌/◌, ◌%◌, ◌^◌, ◌≤◌, ◌<◌, ◌≡◌, refl, sym, ◌∙◌, ap, subst, Bool, true, false, ◌==◌,
  ==_iff, ltb, Bool-cases, inl, inr, ◌⊎◌, if◌then◌else◌, if_so, if_not, List, [], ◌∷◌, ◌++◌, length,
  length-append, get_or, get_or-beyond, All, arith,
}
use messaging_cells.RrArray.Bytes.{wrap, are_zero, mc_set_v16_of_p8}
use messaging_cells.RrArray.Objects.{RrArray, wr_fail, max_sz, put_obj, mc_rr_write_obj}
use messaging_cells.RrArray.Ring.{idx}
use messaging_cells.RrArray.Stream.{enc, stream, length-enc, are_zero-true, are_zero-room}
use messaging_cells.RrArray.Fifo.{Holds, IsObject, put-Holds, q_lt, pos_cap, from_wr}

-- The object was put behind the others, or all stays as it was, where it is empty or the bytes that
-- are free are not two more than its record takes.
unfoldable pub Wrote : RrArray → List (List ℕ) → List ℕ → RrArray × ℕ → Type 0
Wrote a os obj r =
    ((r.1 ≡ length obj) × (0 < length obj) × Holds r.0 (os ++ obj ∷ []))
    ⊎ ((r.1 ≡ 0)
        × Holds r.0 os
        × ((length obj ≡ 0) ⊎ (a.cap < length (stream os) + (length obj + 6))))

wr_fail-Holds : (e : ℕ) (a : RrArray) (os : List (List ℕ)) → Holds a os → Holds (wr_fail e a).0 os
unfolding wr_fail
wr_fail-Holds e a os h = record {
  cap_min = h.cap_min;
  cap_max = h.cap_max;
  rd_in = h.rd_in;
  wr_in = h.wr_in;
  objects = h.objects;
  fits = h.fits;
  wr_at = h.wr_at;
  bytes = h.bytes;
}

wr_fail-zero : (e : ℕ) (a : RrArray) → (wr_fail e a).1 ≡ 0
unfolding wr_fail
wr_fail-zero e a = refl

put_obj-length : (obj : List ℕ) (a : RrArray) → (put_obj obj a).1 ≡ length obj
unfolding put_obj
put_obj-length obj a = refl

-- The two bytes of a size that is not 0 are not both 0.
size_byte : (n : ℕ) → 0 < n → n < 2 ^ 16 → n % 256 ≡ 0 → ¬ (n / 256 % 256 ≡ 0)
size_byte n a b e f = omega arith

max_sz-eq : (cap : ℕ) → 4 ≤ cap → cap < 2 ^ 16 - 2 → max_sz cap ≡ cap - 4
unfolding max_sz
max_sz-eq cap h k = omega arith

module _ (a : RrArray) (os : List (List ℕ)) (obj : List ℕ) (h : Holds a os) where
  -- The header of the oldest object stops a scan that would reach it.
  header :
      (o : List ℕ) (rest : List (List ℕ))
      → os ≡ o ∷ rest
      → (get_or (stream os) 0 0 ≡ length o % 256)
        × (get_or (stream os) 1 0 ≡ length o / 256 % 256)
        × (length o + 4 ≤ length (stream os))
        × IsObject o
  unfolding stream enc mc_set_v16_of_p8
  header o rest e =
      let n = length-append (enc o) (stream rest) in
      let m = length-enc o in
      (
        ap (λ x. get_or (stream x) 0 0) e,
        ap (λ x. get_or (stream x) 1 0) e,
        subst (λ x. length o + 4 ≤ length (stream x)) (sym e) (omega arith),
        (subst (All IsObject) e h.objects).0,
      )

  scan_at :
      (i j : ℕ)
      → are_zero a.cap a.dat (length obj + 6) a.wr_obj ≡ true
      → j < length obj + 6
      → j < a.cap
      → idx a.cap (wrap a.cap a.wr_obj) j ≡ idx a.cap (wrap a.cap a.rd_obj) i
      → i < a.cap
      → get_or (stream os) i 0 ≡ 0
  scan_at i j e l m here k =
      sym (h.bytes i k)
      ∙ ap a.dat (sym here)
      ∙ are_zero-true a.cap a.dat (length obj + 6) a.wr_obj j h.wr_in e l m

  idx_end :
      (cap q k : ℕ) → q < cap → 0 < k → k ≤ cap → idx cap (idx cap q k) (cap - k) ≡ idx cap q 0
  unfolding idx
  idx_end cap q k l m n = ground arith

  idx_end_next :
      (cap q k : ℕ) → q < cap → 1 < k → k ≤ cap → idx cap (idx cap q k) (cap - k + 1) ≡ idx cap q 1
  unfolding idx
  idx_end_next cap q k l m n = ground arith

  scan_by :
      (xs : List (List ℕ))
      → os ≡ xs
      → length obj + 4 ≤ a.cap
      → are_zero a.cap a.dat (length obj + 6) a.wr_obj ≡ true
      → length (stream os) + (length obj + 4) ≤ a.cap
  unfolding stream
  scan_by [] eq l e = let n = ap (λ x. length (stream x)) eq in omega arith
  scan_by (o ∷ rest) eq l e =
      let (low, hi, long, some) = header o rest eq in
      let used = length (stream os) in
      let fits = h.fits in
      let most = h.cap_max in
      elim (Bool-cases (ltb a.cap (used + (length obj + 4)))) [
        | inl y ↦
            let over : a.cap < used + (length obj + 4) = ground arith in
            let q = wrap a.cap a.rd_obj in
            let at0 =
              ap (λ x. idx a.cap x (a.cap - used)) h.wr_at
              ∙ idx_end a.cap q used (q_lt a os obj h) (omega arith) fits in
            let at1 =
              ap (λ x. idx a.cap x (a.cap - used + 1)) h.wr_at
              ∙ idx_end_next a.cap q used (q_lt a os obj h) (omega arith) fits in
            let z0 = scan_at 0 (a.cap - used) e (omega arith) (omega arith) at0 (omega arith) in
            let z1 = scan_at 1 (a.cap - used + 1) e (omega arith) (omega arith) at1 (omega arith) in
            absurd (size_byte (length o) some (omega arith) (sym low ∙ z0) (sym hi ∙ z1))
        | inr y ↦ ground arith
      ]

  -- Free bytes are 0, so a record that leaves two of them passes the scan.
  room-scan :
      length (stream os) + (length obj + 6) ≤ a.cap
      → are_zero a.cap a.dat (length obj + 6) a.wr_obj ≡ true
  room-scan l =
      are_zero-room a.cap a.dat (length obj + 6) a.wr_obj (pos_cap a os obj h) h.wr_in (omega arith)
        λ i m.
          ap a.dat (from_wr a os obj h (length (stream os) + i) i refl (omega arith))
          ∙ h.bytes (length (stream os) + i) (omega arith)
          ∙ get_or-beyond (stream os) (length (stream os) + i) 0 (omega arith)

module _ (a : RrArray) (obj : List ℕ) where
  unfoldable scan : Bool
  scan = are_zero a.cap a.dat ((length obj + 6) % 2 ^ 16) a.wr_obj

  write_big : ltb (max_sz a.cap) (length obj) ≡ true → mc_rr_write_obj obj a ≡ wr_fail 1 a
  unfolding mc_rr_write_obj
  write_big y = if_so _ _ y

  write_empty :
      ltb (max_sz a.cap) (length obj) ≡ false
      → (length obj == 0) ≡ true
      → mc_rr_write_obj obj a ≡ wr_fail 2 a
  unfolding mc_rr_write_obj
  write_empty y z = if_not _ _ y ∙ if_so _ _ z

  write_scan :
      (b : Bool)
      → ltb (max_sz a.cap) (length obj) ≡ false
      → (length obj == 0) ≡ false
      → scan ≡ b
      → mc_rr_write_obj obj a ≡ (if b then put_obj obj a else wr_fail 3 a)
  unfolding mc_rr_write_obj scan
  write_scan b y z e =
      if_not _ _ y ∙ if_not _ _ z ∙ ap (λ c. if c then put_obj obj a else wr_fail 3 a) e

  scan-same : length obj + 6 < 2 ^ 16 → scan ≡ are_zero a.cap a.dat (length obj + 6) a.wr_obj
  unfolding scan
  scan-same l =
      let e : (length obj + 6) % 2 ^ 16 ≡ length obj + 6 = omega arith in
      ap (λ n. are_zero a.cap a.dat n a.wr_obj) e

refused :
    (a : RrArray) (os : List (List ℕ)) (obj : List ℕ) (r : RrArray × ℕ) (e : ℕ)
    → Holds a os
    → r ≡ wr_fail e a
    → (length obj ≡ 0) ⊎ (a.cap < length (stream os) + (length obj + 6))
    → Wrote a os obj r
unfolding Wrote
refused a os obj r e h eq why = inr (
  ap (λ x. x.1) eq ∙ wr_fail-zero e a,
  subst (λ x. Holds x.0 os) (sym eq) (wr_fail-Holds e a os h),
  why,
)

stored :
    (a : RrArray) (os : List (List ℕ)) (obj : List ℕ) (r : RrArray × ℕ)
    → Holds a os
    → r ≡ put_obj obj a
    → 0 < length obj
    → length (stream os) + length (enc obj) ≤ a.cap
    → Wrote a os obj r
unfolding Wrote
stored a os obj r h eq some room = inl (
  ap (λ x. x.1) eq ∙ put_obj-length obj a,
  some,
  subst (λ x. Holds x.0 (os ++ obj ∷ [])) (sym eq) (put-Holds a os obj h some room),
)

-- A write to an array that holds `os` puts the object behind them and returns its size, or it
-- returns 0, and the array still holds `os`; it refuses no object but an empty one and one whose
-- record, with two bytes more, does not fit in what is free.
pub mc_rr_write_obj-Wrote :
    (a : RrArray) (os : List (List ℕ)) (obj : List ℕ)
    → Holds a os
    → Wrote a os obj (mc_rr_write_obj obj a)
mc_rr_write_obj-Wrote a os obj h =
    let most = h.cap_max in
    let least = h.cap_min in
    let size = max_sz-eq a.cap least most in
    elim (Bool-cases (ltb (max_sz a.cap) (length obj))) [
      | inl y ↦
          let over : max_sz a.cap < length obj = ground arith in
          refused a os obj (mc_rr_write_obj obj a) 1 h (write_big a obj y) (inr (omega arith))
      | inr y ↦
          let under : length obj ≤ max_sz a.cap = ground arith in
          elim (Bool-cases (length obj == 0)) [
            | inl z ↦
                refused a os obj (mc_rr_write_obj obj a) 2 h (write_empty a obj y z)
                  (inl ((==_iff (length obj) 0).0 z))
            | inr z ↦
                let some : 0 < length obj = ground arith in
                let same = scan-same a obj (omega arith) in
                elim (Bool-cases (are_zero a.cap a.dat (length obj + 6) a.wr_obj)) [
                  | inl s ↦
                      let n = length-enc obj in
                      let room = scan_by a os obj h os refl (omega arith) s in
                      stored a os obj (mc_rr_write_obj obj a) h
                        (write_scan a obj true y z (same ∙ s)) some (omega arith)
                  | inr s ↦
                      refused a os obj (mc_rr_write_obj obj a) 3 h
                        (write_scan a obj false y z (same ∙ s)) (inr (no_room s))
                ]
          ]
    ]
  where
    no_room :
        are_zero a.cap a.dat (length obj + 6) a.wr_obj ≡ false
        → a.cap < length (stream os) + (length obj + 6)
    no_room s = elim (Bool-cases (ltb a.cap (length (stream os) + (length obj + 6)))) [
      | inl y ↦ ground arith
      | inr y ↦ absurd (ground (arith, s, room-scan a os obj h (ground arith)))
    ]
