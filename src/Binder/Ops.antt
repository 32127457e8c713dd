-- ===== src/Binder/Ops.antt =====
-- The methods of class `binder`, one function each. A method that changes binders takes the heap
-- last and returns the new heap; every read is of the heap as the writes above it left it. `this` is
-- the first argument.
use messaging_cells.Common.{
  ℕ, zero, suc, ◌+◌, Bool, not, ◌&&◌, Option, none, some, ◌==◌, if◌then◌else◌,
}
use messaging_cells.Binder.Heap.{Heap, set_left, set_right}

unfoldable pub init_binder : ℕ → Heap → Heap
unfolding set_left set_right
init_binder this h = set_right this this (set_left this this h)

unfoldable pub is_alone : ℕ → Heap → Bool
is_alone this h = h.bn_left this == this && h.bn_right this == this

unfoldable pub let_go : ℕ → Heap → Heap
let_go this h =
    let h1 = set_right (h.bn_left this) (h.bn_right this) h in
    let h2 = set_left (h1.bn_right this) (h1.bn_left this) h1 in
    set_right this this (set_left this this h2)

-- `ck_binder` without its debug checks is `true`; this is what the checks test.
unfoldable pub ck_binder : ℕ → Heap → Bool
ck_binder this h = h.bn_left (h.bn_right this) == this && h.bn_right (h.bn_left this) == this

unfoldable pub bind_to_my_right : ℕ → ℕ → Heap → Heap
bind_to_my_right this the_rgt h =
    let h1 = set_right the_rgt (h.bn_right this) h in
    let h2 = set_left the_rgt this h1 in
    let h3 = set_left (h2.bn_right this) the_rgt h2 in set_right this the_rgt h3

unfoldable pub bind_to_my_left : ℕ → ℕ → Heap → Heap
bind_to_my_left this the_lft h =
    let h1 = set_left the_lft (h.bn_left this) h in
    let h2 = set_right the_lft this h1 in
    let h3 = set_right (h2.bn_left this) the_lft h2 in set_left this the_lft h3

unfoldable pub is_single : ℕ → Heap → Bool
unfolding is_alone
is_single this h = not (is_alone this h) && h.bn_left this == h.bn_right this

unfoldable pub is_multiple : ℕ → Heap → Bool
unfolding is_alone is_single
is_multiple this h = not (is_alone this h) && not (is_single this h)

-- The body of `move_all_to_my_right` behind its early return.
unfoldable pub splice_right : ℕ → ℕ → Heap → Heap
splice_right this grp h =
    let new_rgt = h.bn_right grp in
    let new_mid = h.bn_left grp in
    let old_rgt = h.bn_right this in
    let h1 = set_left grp grp (set_right grp grp h) in
    let h2 = set_right this new_rgt h1 in
    let h3 = set_left (h2.bn_right this) this h2 in
    let h4 = set_right new_mid old_rgt h3 in set_left (h4.bn_right new_mid) new_mid h4

unfoldable pub move_all_to_my_right : ℕ → ℕ → Heap → Heap
unfolding is_alone
move_all_to_my_right this grp h = if is_alone grp h then h else splice_right this grp h

-- The body of `move_all_to_my_left` behind its early return.
unfoldable pub splice_left : ℕ → ℕ → Heap → Heap
splice_left this grp h =
    let new_lft = h.bn_left grp in
    let new_mid = h.bn_right grp in
    let old_lft = h.bn_left this in
    let h1 = set_left grp grp (set_right grp grp h) in
    let h2 = set_left this new_lft h1 in
    let h3 = set_right (h2.bn_left this) this h2 in
    let h4 = set_left new_mid old_lft h3 in set_right (h4.bn_left new_mid) new_mid h4

unfoldable pub move_all_to_my_left : ℕ → ℕ → Heap → Heap
unfolding is_alone
move_all_to_my_left this grp h = if is_alone grp h then h else splice_left this grp h

-- `while(! is_alone()){ bn_right->let_go(); }` on fuel; `none` means that the fuel ran out.
unfoldable pub let_all_go : ℕ → ℕ → Heap → Option Heap
unfolding is_alone
let_all_go zero this h = none
let_all_go (suc fuel) this h =
    let rest = let_all_go fuel this (let_go (h.bn_right this) h) in
    if is_alone this h then some h else rest

-- The loop of `calc_size`, at `wrk`.
unfoldable pub count_from : ℕ → ℕ → ℕ → ℕ → Heap → Option ℕ
count_from zero lst wrk sz h = none
count_from (suc fuel) lst wrk sz h =
    let rest = count_from fuel lst (h.bn_right wrk) (sz + 1) h in
    if wrk == lst then some sz else rest

unfoldable pub calc_size : ℕ → ℕ → Heap → Option ℕ
unfolding count_from
calc_size fuel this h = count_from fuel this (h.bn_right this) 0 h
