-- ===== src/RrArray/Read.antt =====
-- `mc_rr_read_obj` on a queue.
use messaging_cells.Common.{
  ℕ, suc, ◌+◌, ◌^◌, ◌≤◌, ◌<◌, ◌≡◌, refl, ◌∙◌, ap, ap₂, ◌==◌, ==_ne, ==_self, ltb, if◌then◌else◌,
  if_so, if_not, Option, some, none, List, [], ◌∷◌, ◌++◌, length, length-append, get_or,
  get_or-append_left, get_or-append_right, arith,
}
use messaging_cells.RrArray.Bytes.{
  wrap, read_bytes, write_bytes, mc_crc16, crc_swap, mc_get_v16_of_p8, mc_set_v16_of_p8,
  mc_rr_get_v16,
}
use messaging_cells.RrArray.Objects.{RrArray, rd_fail, clear_obj, take_obj, mc_rr_read_obj}
use messaging_cells.RrArray.Ring.{
  idx, wrap_lt, idx_add, after, wrap-after, after_le, after_add, read_bytes-after, read_bytes-list,
}
use messaging_cells.RrArray.Stream.{enc, stream, length-enc, zeros, clear_to-zeros}
use messaging_cells.RrArray.Fifo.{Holds}

get_set : (v : ℕ) → v < 2 ^ 16 → mc_get_v16_of_p8 (mc_set_v16_of_p8 v) ≡ v
unfolding mc_get_v16_of_p8 mc_set_v16_of_p8
get_set v l = omega arith

length-set_v16 : (v : ℕ) → length (mc_set_v16_of_p8 v) ≡ 2
unfolding mc_set_v16_of_p8
length-set_v16 v = refl

crc_lt : (obj : List ℕ) → mc_crc16 obj < 2 ^ 16
unfolding mc_crc16 crc_swap
crc_lt [] = omega arith
crc_lt (b ∷ bs) = omega arith

-- The three parts of a record.
enc_size :
    (o : List ℕ) (i : ℕ)
    → i < 2
    → get_or (enc o) (0 + i) 0 ≡ get_or (mc_set_v16_of_p8 (length o)) i 0
unfolding enc
enc_size o i m =
    let S = mc_set_v16_of_p8 (length o) in
    let l = length-append S o in
    let two : length S ≡ 2 = length-set_v16 (length o) in
    let e : 0 + i ≡ i = omega arith in
    get_or-append_left (S ++ o) (mc_set_v16_of_p8 (mc_crc16 o)) (0 + i) 0 (omega arith)
    ∙ get_or-append_left S o (0 + i) 0 (omega arith)
    ∙ ap (λ j. get_or S j 0) e

enc_obj : (o : List ℕ) (i : ℕ) → i < length o → get_or (enc o) (2 + i) 0 ≡ get_or o i 0
unfolding enc
enc_obj o i m =
    let S = mc_set_v16_of_p8 (length o) in
    let l = length-append S o in
    let two : length S ≡ 2 = length-set_v16 (length o) in
    get_or-append_left (S ++ o) (mc_set_v16_of_p8 (mc_crc16 o)) (2 + i) 0 (omega arith)
    ∙ get_or-append_right S o (2 + i) i 0 (omega arith)

enc_crc :
    (o : List ℕ) (i : ℕ)
    → get_or (enc o) (2 + length o + i) 0 ≡ get_or (mc_set_v16_of_p8 (mc_crc16 o)) i 0
unfolding enc
enc_crc o i =
    let S = mc_set_v16_of_p8 (length o) in
    let l = length-append S o in
    let two : length S ≡ 2 = length-set_v16 (length o) in
    get_or-append_right (S ++ o) (mc_set_v16_of_p8 (mc_crc16 o)) (2 + length o + i) i 0
      (omega arith)

-- The branches of the read, by what the header says, and of the check of the sequence.
read_by : ℕ → RrArray → ℕ → ℕ → Option (RrArray × List ℕ)
read_by omc a osz dat =
    if osz == 0
    then rd_fail 1 a
    else if ltb omc osz
    then rd_fail 2 a
    else if ltb a.cap osz
    then rd_fail 3 a
    else take_obj osz dat a

take_by : RrArray → List ℕ → ℕ → ℕ → Option (RrArray × List ℕ)
take_by a obj crc dat = if crc == mc_crc16 obj then clear_obj dat obj a else rd_fail 4 a

module _ (a : RrArray) (o : List ℕ) (os : List (List ℕ)) (h : Holds a (o ∷ os)) where
  unfoldable pub q : ℕ
  q = wrap a.cap a.rd_obj

  pub pos_cap : 0 < a.cap
  pos_cap = let m = h.cap_min in omega arith

  pub q_lt : q < a.cap
  unfolding q
  q_lt = wrap_lt a.cap a.rd_obj pos_cap h.rd_in

  pub total : length (stream (o ∷ os)) ≡ length o + 4 + length (stream os)
  unfolding stream
  total = length-append (enc o) (stream os) ∙ ap (λ n. n + length (stream os)) (length-enc o)

  pub room : length o + 4 ≤ a.cap
  room = let t = total in let f = h.fits in omega arith

  -- The bytes of the oldest record, a part `bs` of them that `n` bytes precede.
  part :
      (n : ℕ) (bs : List ℕ)
      → n + length bs ≤ length o + 4
      → ((i : ℕ) → i < length bs → get_or (enc o) (n + i) 0 ≡ get_or bs i 0)
      → (read_bytes a.cap a.dat (length bs) (after a.cap n a.rd_obj)).0 ≡ bs
  unfolding stream q
  part n bs l same =
      let r = room in
      let len = length-enc o in
      read_bytes-list a.cap a.dat bs (after a.cap n a.rd_obj)
        (after_le a.cap n a.rd_obj pos_cap h.rd_in) (omega arith)
        λ i m.
          ap (λ x. a.dat (idx a.cap x i))
            (wrap-after a.cap n a.rd_obj pos_cap h.rd_in (omega arith))
          ∙ ap a.dat (idx_add a.cap q n i q_lt (omega arith))
          ∙ h.bytes (n + i) (omega arith)
          ∙ get_or-append_left (enc o) (stream os) (n + i) 0 (omega arith)
          ∙ same i m

  -- A number of two bytes of the record.
  number :
      (n v : ℕ)
      → v < 2 ^ 16
      → n + 2 ≤ length o + 4
      → ((i : ℕ) → i < 2 → get_or (enc o) (n + i) 0 ≡ get_or (mc_set_v16_of_p8 v) i 0)
      → (mc_rr_get_v16 a.cap a.dat (after a.cap n a.rd_obj)).0 ≡ v
  unfolding mc_rr_get_v16 mc_set_v16_of_p8
  number n v small l same =
      ap mc_get_v16_of_p8 (part n (mc_set_v16_of_p8 v) l same) ∙ get_set v small

  number-after :
      (n : ℕ)
      → (mc_rr_get_v16 a.cap a.dat (after a.cap n a.rd_obj)).1 ≡ after a.cap (n + 2) a.rd_obj
  unfolding mc_rr_get_v16
  number-after n =
      read_bytes-after a.cap a.dat 2 (after a.cap n a.rd_obj) ∙ after_add a.cap n 2 a.rd_obj

  small : length o < 2 ^ 16
  small = let r = room in let m = h.cap_max in omega arith

  size_read : (mc_rr_get_v16 a.cap a.dat a.rd_obj).0 ≡ length o
  unfolding enc mc_set_v16_of_p8 after
  size_read = number 0 (length o) small (omega arith) (enc_size o)

  obj_read : (read_bytes a.cap a.dat (length o) (after a.cap 2 a.rd_obj)).0 ≡ o
  obj_read = part 2 o (omega arith) (enc_obj o)

  crc_read : (mc_rr_get_v16 a.cap a.dat (after a.cap (2 + length o) a.rd_obj)).0 ≡ mc_crc16 o
  crc_read = number (2 + length o) (mc_crc16 o) (crc_lt o) (omega arith) (λ i m. enc_crc o i)

  obj_after :
      (read_bytes a.cap a.dat (length o) (after a.cap 2 a.rd_obj)).1
      ≡ after a.cap (2 + length o) a.rd_obj
  obj_after =
      read_bytes-after a.cap a.dat (length o) (after a.cap 2 a.rd_obj)
      ∙ after_add a.cap 2 (length o) a.rd_obj

  pub some_byte : 0 < length o
  some_byte = h.objects.0

  pub read_taken :
      (omc : ℕ)
      → length o ≤ omc
      → mc_rr_read_obj omc a ≡ take_obj (length o) (after a.cap 2 a.rd_obj) a
  unfolding mc_rr_read_obj read_by after
  read_taken omc l =
      let r = room in
      let z = some_byte in
      ap₂ (read_by omc a) size_read (number-after 0)
      ∙ if_not _ _ (==_ne {a = length o} {b = 0} (omega arith))
      ∙ if_not {b = ltb omc (length o)} _ _ (ground arith)
      ∙ if_not {b = ltb a.cap (length o)} _ _ (ground arith)

  pub take_cleared :
      take_obj (length o) (after a.cap 2 a.rd_obj) a
      ≡ clear_obj (after a.cap (2 + length o + 2) a.rd_obj) o a
  unfolding take_obj take_by
  take_cleared =
      ap₂ (λ bs p. take_by a bs (mc_rr_get_v16 a.cap a.dat p).0 (mc_rr_get_v16 a.cap a.dat p).1)
        obj_read obj_after
      ∙ ap₂ (take_by a o) crc_read (number-after (2 + length o))
      ∙ if_so _ _ (==_self (mc_crc16 o))

  unfoldable pub cleared : (ℕ → ℕ) × ℕ
  cleared = write_bytes a.cap (zeros (2 + length o + 2)) a.rd_obj a.dat

  pub read_done :
      (omc : ℕ)
      → length o ≤ omc
      → length o + 4 < a.cap
      → mc_rr_read_obj omc a ≡ some (record a { dat = cleared.0; rd_obj = cleared.1 }, o)
  unfolding clear_obj cleared
  read_done omc l m =
      read_taken omc l
      ∙ take_cleared
      ∙ ap
          (λ x. elim x [
            | none ↦ none
            | some (f, dat2) ↦ some (record a { dat = f; rd_obj = dat2 }, o)
          ])
          (clear_to-zeros a.cap (2 + length o + 2) (suc a.cap) a.rd_obj a.dat h.rd_in (omega arith)
            (omega arith))
