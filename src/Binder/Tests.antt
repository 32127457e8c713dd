-- ===== src/Binder/Tests.antt =====
-- A ring of two binders, one of one, and binders that are alone.
use messaging_cells.Common.{
  ℕ, ◌+◌, ◌<◌, ◌≡◌, ◌==◌, refl, if◌then◌else◌, true, some, leb, List, [], ◌∷◌, length, NotIn, Apart,
  arith,
}
use messaging_cells.Binder.Heap.{Heap}
use messaging_cells.Binder.Ops.{
  let_go, ck_binder, bind_to_my_right, bind_to_my_left, is_alone, is_single, is_multiple,
  move_all_to_my_right, move_all_to_my_left, let_all_go, calc_size,
}
use messaging_cells.Binder.Ring.{Ring}
use messaging_cells.Binder.Unlink.{let_go-Ring}
use messaging_cells.Binder.Bind.{bind_to_my_right-Ring, bind_to_my_left-Ring}
use messaging_cells.Binder.Splice.Right.{move_all_to_my_right-Ring}
use messaging_cells.Binder.Splice.Left.{move_all_to_my_left-Ring}
use messaging_cells.Binder.Queries.{queries-length, calc_size-length}
use messaging_cells.Binder.Drain.{Drained, let_all_go-Drained}

-- 0 is a grip with 1 and 2, 10 is a grip with 11, and the others are alone.
abbrev heap : Heap
heap = record {
  bn_right = λ a.
      if a == 0
      then 1
      else if a == 1
      then 2
      else if a == 2
      then 0
      else if a == 10
      then 11
      else if a == 11
      then 10
      else a;
  bn_left = λ a.
      if a == 0
      then 2
      else if a == 2
      then 1
      else if a == 1
      then 0
      else if a == 10
      then 11
      else if a == 11
      then 10
      else a;
}

abbrev two : List ℕ
two = 1 ∷ 2 ∷ []

heap-Ring : Ring heap 0 (1 ∷ 2 ∷ [])
heap-Ring = record {
  linked = (refl, refl, (refl, refl, (refl, refl, tt)));
  distinct = (((λ e. cc), ((λ e. cc), tt)), (((λ e. cc), tt), (tt, tt)));
}

heap-Ring_one : Ring heap 10 (11 ∷ [])
heap-Ring_one = record {
  linked = (refl, refl, (refl, refl, tt));
  distinct = (((λ e. cc), tt), (tt, tt));
}

three_new : NotIn 3 (0 ∷ 1 ∷ 2 ∷ [])
three_new = ((λ e. cc), ((λ e. cc), ((λ e. cc), tt)))

rings-Apart : Apart (10 ∷ 11 ∷ []) (0 ∷ 1 ∷ 2 ∷ [])
rings-Apart =
    (((λ e. cc), ((λ e. cc), ((λ e. cc), tt))), (((λ e. cc), ((λ e. cc), ((λ e. cc), tt))), tt))

let_go-Ring_example : Ring (let_go 1 heap) 0 (2 ∷ []) × Ring (let_go 1 heap) 1 []
let_go-Ring_example = let_go-Ring heap 0 [] 1 (2 ∷ []) heap-Ring

bind_to_my_right-Ring_example : Ring (bind_to_my_right 0 3 heap) 0 (3 ∷ 1 ∷ 2 ∷ [])
bind_to_my_right-Ring_example = bind_to_my_right-Ring heap 0 3 (1 ∷ 2 ∷ []) heap-Ring three_new

bind_to_my_left-Ring_example : Ring (bind_to_my_left 0 3 heap) 0 (1 ∷ 2 ∷ 3 ∷ [])
bind_to_my_left-Ring_example = bind_to_my_left-Ring heap 0 3 (1 ∷ 2 ∷ []) heap-Ring three_new

move_all_to_my_right-Ring_example :
    Ring (move_all_to_my_right 0 10 heap) 0 (11 ∷ 1 ∷ 2 ∷ [])
    × Ring (move_all_to_my_right 0 10 heap) 10 []
move_all_to_my_right-Ring_example =
    move_all_to_my_right-Ring heap 0 10 (1 ∷ 2 ∷ []) (11 ∷ []) heap-Ring heap-Ring_one rings-Apart

move_all_to_my_left-Ring_example :
    Ring (move_all_to_my_left 0 10 heap) 0 (1 ∷ 2 ∷ 11 ∷ [])
    × Ring (move_all_to_my_left 0 10 heap) 10 []
move_all_to_my_left-Ring_example =
    move_all_to_my_left-Ring heap 0 10 (1 ∷ 2 ∷ []) (11 ∷ []) heap-Ring heap-Ring_one rings-Apart

queries-length_example :
    (is_alone 0 heap ≡ (length two == 0))
    × (is_single 0 heap ≡ (length two == 1))
    × (is_multiple 0 heap ≡ leb 2 (length two))
queries-length_example = queries-length heap 0 (1 ∷ 2 ∷ []) heap-Ring

checked : ck_binder 2 heap ≡ true
unfolding ck_binder
checked = refl

four : length two + 1 < 4
four = omega arith

calc_size-length_example : calc_size 4 0 heap ≡ some (length two)
calc_size-length_example = calc_size-length 4 heap 0 (1 ∷ 2 ∷ []) heap-Ring four

three : length two < 3
three = omega arith

let_all_go-Drained_example :
    (h' : Heap) × (let_all_go 3 0 heap ≡ some h') × Drained heap h' 0 (1 ∷ 2 ∷ [])
let_all_go-Drained_example = let_all_go-Drained 3 heap 0 (1 ∷ 2 ∷ []) heap-Ring three
