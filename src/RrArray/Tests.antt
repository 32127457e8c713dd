-- ===== src/RrArray/Tests.antt =====
-- Small arrays.
use messaging_cells.Common.{ℕ, ◌≡◌, refl, true, List, [], ◌∷◌, Option, none, some, arith}
use messaging_cells.RrArray.Objects.{RrArray, mc_rr_init, put_obj, mc_rr_write_obj, mc_rr_read_obj}
use messaging_cells.RrArray.Bytes.{wrap}
use messaging_cells.RrArray.Ring.{idx}
use messaging_cells.RrArray.Stream.{stream, length-enc}
use messaging_cells.RrArray.Fifo.{Holds, put-Holds}
use messaging_cells.RrArray.Write.{Wrote, mc_rr_write_obj-Wrote}
use messaging_cells.RrArray.Taken.{mc_rr_read_obj-Holds, mc_rr_read_obj-none, mc_rr_init-Holds}
use messaging_cells.RrArray.Full.{full-reread}

abbrev got : Option (RrArray × List ℕ) → List ℕ
got none = []
got (some (a, obj)) = obj

abbrev empty : RrArray
unfolding mc_rr_init
empty = mc_rr_init 16 (λ i. 7) true

abbrev obj : List ℕ
obj = 5 ∷ 6 ∷ []

write_read : got (mc_rr_read_obj 10 (mc_rr_write_obj obj empty).0) ≡ obj
unfolding mc_rr_read_obj mc_rr_write_obj empty
write_read = refl

empty-Holds : Holds empty []
unfolding empty
empty-Holds = mc_rr_init-Holds 16 (λ i. 7) (omega arith) (omega arith)

one-Holds : Holds (put_obj obj empty).0 (obj ∷ [])
unfolding stream empty mc_rr_init
one-Holds = put-Holds empty [] obj empty-Holds (omega arith) (let n = length-enc obj in omega arith)

-- An array whose next object begins at its seventh byte.
abbrev moved : RrArray
moved = record {
  cap = 16;
  dat = λ i. 0;
  wr_obj = 6;
  rd_obj = 6;
  num_wr_errs = 0;
  wr_err = 0;
  rd_err = 0;
}

abbrev twelve : List ℕ
twelve = 1 ∷ 2 ∷ 3 ∷ 4 ∷ 5 ∷ 6 ∷ 7 ∷ 8 ∷ 9 ∷ 10 ∷ 11 ∷ 12 ∷ []

moved-Holds : Holds moved []
unfolding stream idx wrap
moved-Holds = record {
  cap_min = omega arith;
  cap_max = omega arith;
  rd_in = omega arith;
  wr_in = omega arith;
  objects = tt;
  fits = omega arith;
  wr_at = refl;
  bytes = λ i l. refl;
}

full-Holds : Holds (put_obj twelve moved).0 (twelve ∷ [])
unfolding stream
full-Holds =
    put-Holds moved [] twelve moved-Holds (omega arith) (let n = length-enc twelve in omega arith)

mc_rr_init-Holds_example : Holds (mc_rr_init 16 (λ i. 7) true) []
mc_rr_init-Holds_example = mc_rr_init-Holds 16 (λ i. 7) (omega arith) (omega arith)

mc_rr_write_obj-Wrote_example : Wrote empty [] obj (mc_rr_write_obj obj empty)
mc_rr_write_obj-Wrote_example = mc_rr_write_obj-Wrote empty [] obj empty-Holds

mc_rr_read_obj-Holds_example :
    (b : RrArray) × (mc_rr_read_obj 10 (put_obj obj empty).0 ≡ some (b, obj)) × Holds b []
unfolding put_obj empty mc_rr_init
mc_rr_read_obj-Holds_example =
    mc_rr_read_obj-Holds (put_obj obj empty).0 obj [] 10 one-Holds (omega arith) (omega arith)

mc_rr_read_obj-none_example :
    (mc_rr_read_obj 10 empty ≡ some (record empty { rd_err = 1 }, []))
    × Holds (record empty { rd_err = 1 }) []
mc_rr_read_obj-none_example = mc_rr_read_obj-none empty 10 empty-Holds

full-reread_example :
    mc_rr_read_obj 12 (put_obj twelve moved).0 ≡ some ((put_obj twelve moved).0, twelve)
unfolding put_obj
full-reread_example =
    full-reread (put_obj twelve moved).0 twelve 12 full-Holds (omega arith) refl (omega arith)
