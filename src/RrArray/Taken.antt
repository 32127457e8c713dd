-- ===== src/RrArray/Taken.antt =====
-- What a read leaves of a queue.
use messaging_cells.Common.{
  ℕ, ◌+◌, ◌-◌, ◌^◌, ◌≤◌, ◌<◌, ◌≡◌, refl, sym, ◌∙◌, ap, subst, true, ◌==◌, ltb, Bool-cases, inl, inr,
  if_so, some, List, [], ◌∷◌, length, get_or, get_or-beyond, get_or-append_right, arith,
}
use messaging_cells.RrArray.Bytes.{wrap, mc_get_v16_of_p8, mc_rr_get_v16}
use messaging_cells.RrArray.Objects.{RrArray, rd_fail, mc_rr_init, mc_rr_read_obj}
use messaging_cells.RrArray.Ring.{
  idx, wrap_lt, idx_add, after, wrap-after, after_le, write_bytes-after, write_bytes-in,
  write_bytes-out, read_bytes-list,
}
use messaging_cells.RrArray.Stream.{enc, stream, length-enc, zeros, length-zeros, get_or-zeros}
use messaging_cells.RrArray.Fifo.{Holds}
use messaging_cells.RrArray.Read.{q, pos_cap, total, cleared, read_done}

idx_over :
    (cap q k i : ℕ)
    → q < cap
    → k < cap
    → i < cap
    → cap ≤ k + i
    → idx cap (idx cap q k) i ≡ idx cap q (k + i - cap)
unfolding idx
idx_over cap q k i h l m n = ground arith

module _ (a : RrArray) (o : List ℕ) (os : List (List ℕ)) (h : Holds a (o ∷ os))
    (part : length o + 4 < a.cap) where
  M : ℕ
  M = 2 + length o + 2

  rd_after : (cleared a o os h).1 ≡ after a.cap M a.rd_obj
  unfolding cleared M
  rd_after =
      write_bytes-after a.cap (zeros M) a.rd_obj a.dat
      ∙ ap (λ n. after a.cap n a.rd_obj) (length-zeros M)

  rd_at : wrap a.cap (cleared a o os h).1 ≡ idx a.cap (wrap a.cap a.rd_obj) M
  unfolding M
  rd_at =
      ap (wrap a.cap) rd_after
      ∙ wrap-after a.cap M a.rd_obj (pos_cap a o os h) h.rd_in (omega arith)

  lt : wrap a.cap a.rd_obj < a.cap
  lt = wrap_lt a.cap a.rd_obj (pos_cap a o os h) h.rd_in

  left_byte :
      (i : ℕ)
      → i < a.cap
      → (cleared a o os h).0 (idx a.cap (idx a.cap (wrap a.cap a.rd_obj) M) i)
        ≡ get_or (stream os) i 0
  unfolding cleared M stream
  left_byte i l =
      let n = length-zeros M in
      let f = (cleared a o os h).0 in
      let len = length-enc o in
      elim (Bool-cases (ltb (M + i) a.cap)) [
        | inl y ↦
            let near : M + i < a.cap = ground arith in
            ap f (idx_add a.cap (wrap a.cap a.rd_obj) M i lt (omega arith))
            ∙ write_bytes-out a.cap a.dat (zeros M) a.rd_obj (M + i) h.rd_in (omega arith) near
            ∙ h.bytes (M + i) near
            ∙ get_or-append_right (enc o) (stream os) (M + i) i 0 (omega arith)
        | inr y ↦
            let far : a.cap ≤ M + i = ground arith in
            let t = total a o os h in
            let fits = h.fits in
            ap f (idx_over a.cap (wrap a.cap a.rd_obj) M i lt (omega arith) l far)
            ∙ write_bytes-in a.cap a.dat (zeros M) a.rd_obj (M + i - a.cap) h.rd_in (omega arith)
                (omega arith)
            ∙ get_or-zeros M (M + i - a.cap)
            ∙ sym (get_or-beyond (stream os) i 0 (omega arith))
      ]

  left-Holds : Holds (record a { dat = (cleared a o os h).0; rd_obj = (cleared a o os h).1 }) os
  unfolding M
  left-Holds =
      let t = total a o os h in
      let fits = h.fits in
      record {
        cap_min = h.cap_min;
        cap_max = h.cap_max;
        rd_in =
            subst (λ p. p ≤ a.cap) (sym rd_after)
              (after_le a.cap M a.rd_obj (pos_cap a o os h) h.rd_in);
        wr_in = h.wr_in;
        objects = h.objects.1;
        fits = omega arith;
        wr_at =
            h.wr_at
            ∙ ap (idx a.cap (wrap a.cap a.rd_obj)) (omega arith)
            ∙ sym (idx_add a.cap (wrap a.cap a.rd_obj) M (length (stream os)) lt (omega arith))
            ∙ sym (ap (λ x. idx a.cap x (length (stream os))) rd_at);
        bytes = λ i l. ap (λ x. (cleared a o os h).0 (idx a.cap x i)) rd_at ∙ left_byte i l;
      }

-- A read from an array that holds objects gives the oldest one, byte by byte, if the caller has room
-- for it and its record is shorter than the data; the array then holds the others.
pub mc_rr_read_obj-Holds :
    (a : RrArray) (o : List ℕ) (os : List (List ℕ)) (omc_sz : ℕ)
    → Holds a (o ∷ os)
    → length o ≤ omc_sz
    → length o + 4 < a.cap
    → (b : RrArray) × (mc_rr_read_obj omc_sz a ≡ some (b, o)) × Holds b os
mc_rr_read_obj-Holds a o os omc h l part = (
  record a { dat = (cleared a o os h).0; rd_obj = (cleared a o os h).1 },
  read_done a o os h omc l part,
  left-Holds a o os h part,
)

no_size : mc_get_v16_of_p8 (0 ∷ 0 ∷ []) ≡ 0
unfolding mc_get_v16_of_p8
no_size = refl

empty_size : (a : RrArray) → Holds a [] → (mc_rr_get_v16 a.cap a.dat a.rd_obj).0 ≡ 0
unfolding mc_rr_get_v16 zeros stream
empty_size a h =
    let least = h.cap_min in
    ap mc_get_v16_of_p8 (
      read_bytes-list a.cap a.dat (zeros 2) a.rd_obj h.rd_in (omega arith)
        λ i m. h.bytes i (omega arith) ∙ sym (get_or-zeros 2 i))
    ∙ no_size

-- A read from an array that holds nothing gives nothing and sets `rd_err`, and the array still holds
-- nothing.
pub mc_rr_read_obj-none :
    (a : RrArray) (omc_sz : ℕ)
    → Holds a []
    → (mc_rr_read_obj omc_sz a ≡ some (record a { rd_err = 1 }, []))
      × Holds (record a { rd_err = 1 }) []
unfolding mc_rr_read_obj rd_fail stream
mc_rr_read_obj-none a omc h = (
  if_so _ _ (ap (λ n. n == 0) (empty_size a h)),
  record {
    cap_min = h.cap_min;
    cap_max = h.cap_max;
    rd_in = h.rd_in;
    wr_in = h.wr_in;
    objects = h.objects;
    fits = h.fits;
    wr_at = h.wr_at;
    bytes = h.bytes;
  },
)

-- For a size of the data from 4 to 2^16 - 3, `mc_rr_init` with `reset` makes an array that holds
-- nothing, whatever the data were.
pub mc_rr_init-Holds :
    (sz : ℕ) (dat : ℕ → ℕ) → 4 ≤ sz → sz < 2 ^ 16 - 2 → Holds (mc_rr_init sz dat true) []
unfolding mc_rr_init stream idx wrap
mc_rr_init-Holds sz dat h k = record {
  cap_min = h;
  cap_max = k;
  rd_in = omega arith;
  wr_in = omega arith;
  objects = tt;
  fits = omega arith;
  wr_at = ground arith;
  bytes = λ i l. refl;
}
