-- ===== src/RrArray/Bytes.antt =====
-- The loops over the bytes of the array, `cells/rr_array.c`. A pointer into the data is its distance
-- from `data`, with `cap` for `end_data`.
use messaging_cells.Common.{
  ℕ, zero, suc, ◌+◌, ◌*◌, ◌/◌, ◌%◌, ◌^◌, Bool, true, false, ◌==◌, if◌then◌else◌, Option, none, some,
  List, [], ◌∷◌, put_at,
}
use Prim.Native.Nat.{bit_xor}

-- `if(dat == arr->end_data){ dat = arr->data; }`
unfoldable pub wrap : ℕ → ℕ → ℕ
wrap cap p = if p == cap then 0 else p

-- `n` bytes from `p` on, and where the pointer is then.
unfoldable pub read_bytes : ℕ → (ℕ → ℕ) → ℕ → ℕ → List ℕ × ℕ
unfolding wrap
read_bytes cap f zero p = ([], p)
read_bytes cap f (suc n) p =
    let rest = read_bytes cap f n (wrap cap p + 1) in (f (wrap cap p) ∷ rest.0, rest.1)

unfoldable pub write_bytes : ℕ → List ℕ → ℕ → (ℕ → ℕ) → (ℕ → ℕ) × ℕ
unfolding wrap
write_bytes cap [] p f = (f, p)
write_bytes cap (b ∷ bs) p f = write_bytes cap bs (wrap cap p + 1) (put_at (wrap cap p) b f)

-- The scan of `mc_rr_write_obj`: whether all of `n` bytes are 0.
unfoldable pub are_zero : ℕ → (ℕ → ℕ) → ℕ → ℕ → Bool
unfolding wrap
are_zero cap f zero p = true
are_zero cap f (suc n) p =
    let rest = are_zero cap f n (wrap cap p + 1) in if f (wrap cap p) == 0 then rest else false

-- The loop of `mc_rr_read_obj` that clears from `p` to `dat`.
unfoldable pub clear_to : ℕ → ℕ → ℕ → ℕ → (ℕ → ℕ) → Option ((ℕ → ℕ) × ℕ)
unfolding wrap
clear_to cap dat zero p f = none
clear_to cap dat (suc fuel) p f = elim (p == dat) [
  | true ↦ some (f, p)
  | false ↦ clear_to cap dat fuel (wrap cap p + 1) (put_at (wrap cap p) 0 f)
]

-- One bit of a byte of `mc_crc16`, and the loops over bits and bytes.
unfoldable pub crc_bit : ℕ → ℕ → ℕ
crc_bit crc byte = if bit_xor (crc % 2) (byte % 2) == 0 then crc / 2 else bit_xor (crc / 2) 0x8408

unfoldable pub crc_bits : ℕ → ℕ → ℕ → ℕ
unfolding crc_bit
crc_bits zero crc byte = crc
crc_bits (suc n) crc byte = crc_bits n (crc_bit crc byte) (byte / 2)

unfoldable pub crc_bytes : ℕ → List ℕ → ℕ
unfolding crc_bits
crc_bytes crc [] = crc
crc_bytes crc (b ∷ bs) = crc_bytes (crc_bits 8 crc b) bs

-- `~crc`, with its two bytes exchanged; the two halves of the `|` do not overlap.
unfoldable pub crc_swap : ℕ → ℕ
crc_swap crc = let inv = bit_xor crc 0xffff in (inv * 256 % 2 ^ 16 + inv / 256) % 2 ^ 16

unfoldable pub mc_crc16 : List ℕ → ℕ
unfolding crc_bytes crc_swap
mc_crc16 [] = 0
mc_crc16 (b ∷ bs) = crc_swap (crc_bytes 0xffff (b ∷ bs))

-- The number of two bytes, the lower first; the two halves of the `|` do not overlap.
unfoldable pub mc_get_v16_of_p8 : List ℕ → ℕ
mc_get_v16_of_p8 (low ∷ hi ∷ _) = hi * 256 % 2 ^ 16 + low
mc_get_v16_of_p8 _ = 0

unfoldable pub mc_set_v16_of_p8 : ℕ → List ℕ
mc_set_v16_of_p8 v = v % 256 ∷ (v / 256 % 256) ∷ []

unfoldable pub mc_rr_get_v16 : ℕ → (ℕ → ℕ) → ℕ → ℕ × ℕ
unfolding read_bytes mc_get_v16_of_p8
mc_rr_get_v16 cap f p = let asz = read_bytes cap f 2 p in (mc_get_v16_of_p8 asz.0, asz.1)

unfoldable pub mc_rr_set_v16 : ℕ → ℕ → ℕ → (ℕ → ℕ) → (ℕ → ℕ) × ℕ
unfolding write_bytes mc_set_v16_of_p8
mc_rr_set_v16 cap v p f = write_bytes cap (mc_set_v16_of_p8 v) p f
