-- ===== src/RrArray/Objects.antt =====
-- The operations of the array, `cells/rr_array.c`.
use messaging_cells.Common.{
  ℕ, suc, ◌+◌, ◌-◌, ◌%◌, ◌^◌, Bool, ◌==◌, ltb, if◌then◌else◌, Option, none, some, List, [], length,
}
use messaging_cells.RrArray.Bytes.{
  read_bytes, write_bytes, are_zero, clear_to, mc_crc16, mc_rr_get_v16, mc_rr_set_v16,
}

-- `wr_err` and `rd_err`, without their sign.
pub record RrArray : Type 0 where
  pub cap : ℕ
  pub dat : ℕ → ℕ
  pub wr_obj : ℕ
  pub rd_obj : ℕ
  pub num_wr_errs : ℕ
  pub wr_err : ℕ
  pub rd_err : ℕ

unfoldable pub mc_rr_init : ℕ → (ℕ → ℕ) → Bool → RrArray
mc_rr_init sz dat reset = record {
  cap = sz;
  dat = if reset then (λ i. 0) else dat;
  wr_obj = 0;
  rd_obj = 0;
  num_wr_errs = 0;
  wr_err = 0;
  rd_err = 0;
}

unfoldable pub wr_fail : ℕ → RrArray → RrArray × ℕ
wr_fail e a = (record a { wr_err = e; num_wr_errs = (a.num_wr_errs + 1) % 2 ^ 32 }, 0)

-- `(arr->end_data - arr->data) - (2 * sizeof(uint16_t))`, of an unsigned type.
unfoldable pub max_sz : ℕ → ℕ
max_sz cap = (cap + (2 ^ 32 - 4)) % 2 ^ 32

unfoldable pub put_obj : List ℕ → RrArray → RrArray × ℕ
unfolding mc_rr_set_v16 write_bytes mc_crc16
put_obj obj a =
    let w1 = mc_rr_set_v16 a.cap (length obj) a.wr_obj a.dat in
    let w2 = write_bytes a.cap obj w1.1 w1.0 in
    let w3 = mc_rr_set_v16 a.cap (mc_crc16 obj) w2.1 w2.0 in
    (record a { dat = w3.0; wr_obj = w3.1 }, length obj)

-- The size that was written is returned beside the array; 0 for an error.
unfoldable pub mc_rr_write_obj : List ℕ → RrArray → RrArray × ℕ
unfolding wr_fail max_sz are_zero put_obj
mc_rr_write_obj obj a =
    if ltb (max_sz a.cap) (length obj)
    then wr_fail 1 a
    else if length obj == 0
    then wr_fail 2 a
    else if are_zero a.cap a.dat ((length obj + 6) % 2 ^ 16) a.wr_obj
    then put_obj obj a
    else wr_fail 3 a

unfoldable pub rd_fail : ℕ → RrArray → Option (RrArray × List ℕ)
rd_fail e a = some (record a { rd_err = e }, [])

-- The bytes that were read are cleared, up to `dat`.
unfoldable pub clear_obj : ℕ → List ℕ → RrArray → Option (RrArray × List ℕ)
unfolding clear_to
clear_obj dat obj a = elim (clear_to a.cap dat (suc a.cap) a.rd_obj a.dat) [
  | none ↦ none
  | some (f, dat2) ↦ some (record a { dat = f; rd_obj = dat2 }, obj)
]

unfoldable pub take_obj : ℕ → ℕ → RrArray → Option (RrArray × List ℕ)
unfolding read_bytes mc_rr_get_v16 mc_crc16 rd_fail clear_obj
take_obj osz dat a =
    let r1 = read_bytes a.cap a.dat osz dat in
    let r2 = mc_rr_get_v16 a.cap a.dat r1.1 in
    if r2.0 == mc_crc16 r1.0 then clear_obj r2.1 r1.0 a else rd_fail 4 a

-- The bytes of the object are returned beside the array, none for an error.
unfoldable pub mc_rr_read_obj : ℕ → RrArray → Option (RrArray × List ℕ)
unfolding mc_rr_get_v16 rd_fail take_obj
mc_rr_read_obj omc_sz a =
    let r = mc_rr_get_v16 a.cap a.dat a.rd_obj in
    if r.0 == 0
    then rd_fail 1 a
    else if ltb omc_sz r.0
    then rd_fail 2 a
    else if ltb a.cap r.0
    then rd_fail 3 a
    else take_obj r.0 r.1 a
