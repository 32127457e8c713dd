-- ===== src/RrArray/Fifo.antt =====
-- The array as a queue of objects: what it holds, and what a write does to it.
use messaging_cells.Common.{
  ℕ, ◌+◌, ◌-◌, ◌^◌, ◌≤◌, ◌<◌, ◌≡◌, refl, sym, ◌∙◌, ap, subst, ltb, Bool-cases, inl, inr, List, [],
  ◌∷◌, ◌++◌, length, length-append, get_or, get_or-beyond, get_or-append_left, get_or-append_right,
  All, All-append, arith,
}
use messaging_cells.RrArray.Bytes.{wrap, write_bytes, mc_crc16, mc_set_v16_of_p8, mc_rr_set_v16}
use messaging_cells.RrArray.Objects.{RrArray, put_obj}
use messaging_cells.RrArray.Ring.{
  idx, wrap_lt, idx_add, wrap-after, after_le, write_bytes-after, write_bytes-in, write_bytes-out,
}
use messaging_cells.RrArray.Stream.{enc, stream, stream_snoc, write_bytes-append}

abbrev pub IsObject : List ℕ → Type 0
IsObject o = 0 < length o

-- The array `a` holds the objects `os`, the oldest first: from `rd_obj` on they follow each other
-- round the end of the data up to `wr_obj`, and all other bytes are 0. The size of the data is from
-- 4 to 65533 bytes.
pub record Holds (a : RrArray) (os : List (List ℕ)) : Type 0 where
  pub cap_min : 4 ≤ a.cap
  pub cap_max : a.cap < 2 ^ 16 - 2
  pub rd_in : a.rd_obj ≤ a.cap
  pub wr_in : a.wr_obj ≤ a.cap
  pub objects : All IsObject os
  pub fits : length (stream os) ≤ a.cap
  pub wr_at : wrap a.cap a.wr_obj ≡ idx a.cap (wrap a.cap a.rd_obj) (length (stream os))
  pub bytes :
      (i : ℕ) → i < a.cap → a.dat (idx a.cap (wrap a.cap a.rd_obj) i) ≡ get_or (stream os) i 0

-- The array after the record of an object was put behind the others.
put_obj-enc :
    (obj : List ℕ) (a : RrArray)
    → put_obj obj a ≡ (
      record a {
        dat = (write_bytes a.cap (enc obj) a.wr_obj a.dat).0;
        wr_obj = (write_bytes a.cap (enc obj) a.wr_obj a.dat).1;
      },
      length obj,
    )
unfolding put_obj mc_rr_set_v16 enc write_bytes mc_set_v16_of_p8
put_obj-enc obj a =
    ap (λ w. (record a { dat = w.0; wr_obj = w.1 }, length obj))
      (sym (
        write_bytes-append a.cap (mc_set_v16_of_p8 (length obj) ++ obj)
          (mc_set_v16_of_p8 (mc_crc16 obj)) a.wr_obj a.dat))

-- The place of a byte before `wr_obj`, seen from `wr_obj`.
idx_back :
    (cap q k i : ℕ) → q < cap → k ≤ cap → i < k → idx cap (idx cap q k) (cap - k + i) ≡ idx cap q i
unfolding idx
idx_back cap q k i h l m = ground arith

module _ (a : RrArray) (os : List (List ℕ)) (obj : List ℕ) (h : Holds a os) where
  pub q_lt : wrap a.cap a.rd_obj < a.cap
  q_lt = let m = h.cap_min in wrap_lt a.cap a.rd_obj (omega arith) h.rd_in

  pub from_wr :
      (i j : ℕ)
      → length (stream os) + j ≡ i
      → i ≤ a.cap
      → idx a.cap (wrap a.cap a.wr_obj) j ≡ idx a.cap (wrap a.cap a.rd_obj) i
  from_wr i j e l =
      ap (λ x. idx a.cap x j) h.wr_at
      ∙ idx_add a.cap (wrap a.cap a.rd_obj) (length (stream os)) j q_lt (omega arith)
      ∙ ap (idx a.cap (wrap a.cap a.rd_obj)) e

  pub pos_cap : 0 < a.cap
  pos_cap = let m = h.cap_min in omega arith

  length-new : length (stream (os ++ obj ∷ [])) ≡ length (stream os) + length (enc obj)
  length-new = ap length (stream_snoc os obj) ∙ length-append (stream os) (enc obj)

  written : ℕ → ℕ
  written = (write_bytes a.cap (enc obj) a.wr_obj a.dat).0

  old_byte :
      length (stream os) + length (enc obj) ≤ a.cap
      → (i j : ℕ) → i < a.cap
      → idx a.cap (wrap a.cap a.wr_obj) j ≡ idx a.cap (wrap a.cap a.rd_obj) i
      → length (enc obj) ≤ j
      → j < a.cap
      → written (idx a.cap (wrap a.cap a.rd_obj) i) ≡ get_or (stream os) i 0
  unfolding written
  old_byte room i j l here m k =
      ap written (sym here)
      ∙ write_bytes-out a.cap a.dat (enc obj) a.wr_obj j h.wr_in m k
      ∙ ap a.dat here
      ∙ h.bytes i l

  new_byte :
      length (stream os) + length (enc obj) ≤ a.cap
      → (i : ℕ) → i < a.cap
      → written (idx a.cap (wrap a.cap a.rd_obj) i) ≡ get_or (stream os ++ enc obj) i 0
  unfolding written
  new_byte room i l = elim (Bool-cases (ltb i (length (stream os)))) [
    | inl y ↦
        let before : i < length (stream os) = ground arith in
        old_byte room i (a.cap - length (stream os) + i) l
          (ap (λ x. idx a.cap x (a.cap - length (stream os) + i)) h.wr_at
            ∙ idx_back a.cap (wrap a.cap a.rd_obj) (length (stream os)) i q_lt (omega arith) before)
          (omega arith) (omega arith)
        ∙ sym (get_or-append_left (stream os) (enc obj) i 0 before)
    | inr y ↦
        let behind : length (stream os) ≤ i = ground arith in
        let j = i - length (stream os) in
        let here = from_wr i j (omega arith) (omega arith) in
        elim (Bool-cases (ltb j (length (enc obj)))) [
          | inl z ↦
              ap written (sym here)
              ∙ write_bytes-in a.cap a.dat (enc obj) a.wr_obj j h.wr_in (omega arith) (ground arith)
              ∙ sym (get_or-append_right (stream os) (enc obj) i j 0 (omega arith))
          | inr z ↦
              let past : length (enc obj) ≤ j = ground arith in
              let all = length-append (stream os) (enc obj) in
              old_byte room i j l here past (omega arith)
              ∙ get_or-beyond (stream os) i 0 behind
              ∙ sym (get_or-beyond (stream os ++ enc obj) i 0 (omega arith))
        ]
  ]

  -- A write of a record that fits keeps the older ones and adds its own.
  pub put-Holds :
      0 < length obj
      → length (stream os) + length (enc obj) ≤ a.cap
      → Holds (put_obj obj a).0 (os ++ obj ∷ [])
  unfolding written
  put-Holds some room =
      subst (λ r. Holds r.0 (os ++ obj ∷ [])) (sym (put_obj-enc obj a))
        record {
          cap_min = h.cap_min;
          cap_max = h.cap_max;
          rd_in = h.rd_in;
          wr_in =
              subst (λ p. p ≤ a.cap) (sym (write_bytes-after a.cap (enc obj) a.wr_obj a.dat))
                (after_le a.cap (length (enc obj)) a.wr_obj pos_cap h.wr_in);
          objects = All-append IsObject os (obj ∷ []) h.objects (some, tt);
          fits = subst (λ n. n ≤ a.cap) (sym length-new) room;
          wr_at =
              ap (wrap a.cap) (write_bytes-after a.cap (enc obj) a.wr_obj a.dat)
              ∙ wrap-after a.cap (length (enc obj)) a.wr_obj pos_cap h.wr_in (omega arith)
              ∙ from_wr (length (stream os) + length (enc obj)) (length (enc obj)) refl room
              ∙ ap (idx a.cap (wrap a.cap a.rd_obj)) (sym length-new);
          bytes = λ i l. new_byte room i l ∙ sym (ap (λ x. get_or x i 0) (stream_snoc os obj));
        }
