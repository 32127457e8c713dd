-- ===== src/Sornet/Build.antt =====
-- The construction of the sorting network, `bj_manageru/cnf_preload/preload_sornet.cpp`: the nodes
-- are made from the outputs to the inputs, and a wire keeps the node that takes its value first.
use messaging_cells.Common.{
  ℕ, zero, suc, ◌+◌, ◌-◌, ◌*◌, ◌/◌, Bool, true, false, ◌&&◌, ◌==◌, ltb, leb, if◌then◌else◌, Option,
  none, some, List, [], ◌∷◌, ◌++◌, put_at,
}

-- What `create_sornet` sets before the nodes are made, and what `THE_CNF` says of the workerus.
pub record Dims : Type 0 where
  pub tot_nods : ℕ
  pub tot_lvs : ℕ
  pub the_cnf : Bool
  pub tot_workerus : ℕ

-- A node by its `nod_id`; 0 stands for no node, `none` for no index.
pub record Sornode : Type 0 where
  pub level : ℕ
  pub srt_sz : ℕ
  pub up_idx : ℕ
  pub up_out : ℕ
  pub up_axon : ℕ
  pub down_idx : Option ℕ
  pub down_out : ℕ
  pub down_axon : ℕ

pub record Prms : Type 0 where
  pub arr_nods : ℕ → ℕ
  pub arr_endnods : ℕ → ℕ
  pub arr_lvs : ℕ → ℕ
  pub curr_nod_id : ℕ
  pub curr_merge_sz : ℕ
  pub first_lv_for_merge_sz : Option ℕ
  pub nods : ℕ → Sornode
  pub all_pre_sornods : ℕ → List ℕ

-- `PTD_CK`: a check that fails stops the program.
unfoldable pub ptd_ck {ℓ} : {A : Type ℓ} → Bool → Option A → Option A
ptd_ck true x = x
ptd_ck false x = none

-- The level of a node whose output goes to the node `out`.
unfoldable pub level_over : ℕ → (ℕ → Sornode) → ℕ
level_over zero nods = 0
level_over (suc k) nods = suc ((nods (suc k)).level)

-- The workeru that is next behind `nn`.
unfoldable pub next_nn : Dims → ℕ → ℕ
next_nn d nn = if nn + 1 == d.tot_workerus then 0 else nn + 1

unfoldable pub add_sornod_to_glb_cnf : Dims → ℕ → ℕ → Prms → Option Prms
unfolding ptd_ck next_nn
add_sornod_to_glb_cnf d id lv p =
    if d.the_cnf
    then (let nn = p.arr_lvs lv in
        ptd_ck (ltb nn d.tot_workerus) (
          ptd_ck (ltb (next_nn d nn) d.tot_workerus) (
            some (record p {
              all_pre_sornods = put_at nn (p.all_pre_sornods nn ++ id ∷ []) p.all_pre_sornods;
              arr_lvs = put_at lv (next_nn d nn) p.arr_lvs;
            }))))
    else some p

-- The check that both outputs are on one level, where there is a lower one.
unfoldable pub same_level : ℕ → ℕ → (ℕ → Sornode) → Bool
unfolding level_over
same_level up_out zero nods = true
same_level zero (suc k) nods = false
same_level (suc j) (suc k) nods = level_over (suc j) nods == level_over (suc k) nods

-- The wires of a new node, and where its values go.
unfoldable pub down_out_of : Option ℕ → Prms → ℕ
down_out_of none p = 0
down_out_of (some dn) p = p.arr_nods dn

unfoldable pub down_axon_of : Option ℕ → Prms → ℕ
down_axon_of none p = 0
down_axon_of (some dn) p = p.arr_endnods dn

unfoldable pub take_wires : ℕ → Option ℕ → ℕ → (ℕ → ℕ) → ℕ → ℕ
take_wires up none id arr = put_at up id arr
take_wires up (some dn) id arr = put_at dn id (put_at up id arr)

unfoldable pub down_ok : Dims → ℕ → Option ℕ → Bool
down_ok d up none = true
down_ok d up (some dn) = ltb up dn && ltb dn d.tot_nods

-- `srt_sz`, which stays 0 but at the first level of a merger; `none` for no first level.
unfoldable pub srt_sz_at : ℕ → Prms → Option ℕ
srt_sz_at lv p = elim p.first_lv_for_merge_sz [
  | none ↦ none
  | some fst ↦ some (if lv == fst then p.curr_merge_sz else 0)
]

unfoldable pub new_nod : ℕ → Option ℕ → ℕ → ℕ → Prms → Sornode
unfolding down_out_of down_axon_of
new_nod up down lv srt p = record {
  level = lv;
  srt_sz = srt;
  up_idx = up;
  up_out = p.arr_nods up;
  up_axon = p.arr_endnods up;
  down_idx = down;
  down_out = down_out_of down p;
  down_axon = down_axon_of down p;
}

unfoldable pub set_node : ℕ → Option ℕ → ℕ → ℕ → Prms → Prms
unfolding take_wires new_nod
set_node up down lv srt p =
    let id = suc p.curr_nod_id in
    record p {
      curr_nod_id = id;
      arr_nods = take_wires up down id p.arr_nods;
      nods = put_at id (new_nod up down lv srt p) p.nods;
    }

unfoldable pub place_node : Dims → ℕ → Option ℕ → Prms → Option Prms
unfolding ptd_ck level_over same_level down_out_of down_ok srt_sz_at set_node add_sornod_to_glb_cnf
place_node d up down p =
    let lv = level_over (p.arr_nods up) p.nods in
    ptd_ck (down_ok d up down) (
      ptd_ck (same_level (p.arr_nods up) (down_out_of down p) p.nods) (
        ptd_ck (ltb lv d.tot_lvs) (elim (srt_sz_at lv p) [
          | none ↦ none
          | some srt ↦ add_sornod_to_glb_cnf d (suc p.curr_nod_id) lv (set_node up down lv srt p)
        ])))

unfoldable pub create_node : Dims → ℕ → ℕ → Prms → Option Prms
unfolding place_node
create_node d up down p =
    if leb d.tot_nods up
    then some p
    else place_node d up (if leb d.tot_nods down then none else some down) p

-- The loop of both cleaners, `n` rounds from `ii` on, where `down` gives `down_idx`.
unfoldable pub create_pairs : Dims → ℕ → (ℕ → ℕ) → ℕ → ℕ → Prms → Option Prms
unfolding create_node
create_pairs d pos down zero ii p = some p
create_pairs d pos down (suc n) ii p = elim (create_node d (pos + ii) (down ii) p) [
  | none ↦ none
  | some q ↦ create_pairs d pos down n (ii + 1) q
]

unfoldable pub half_down : ℕ → ℕ → ℕ → ℕ
half_down pos hlf ii = pos + ii + hlf

unfoldable pub alt_down : ℕ → ℕ → ℕ → ℕ
alt_down pos sz ii = pos + (sz - ii - 1)

unfoldable pub create_net_half_cleaner : Dims → ℕ → ℕ → Prms → Option Prms
unfolding create_pairs half_down
create_net_half_cleaner d pos sz p =
    if sz == 1 then some p else create_pairs d pos (half_down pos (sz / 2)) (sz / 2) 0 p

unfoldable pub create_net_alt_half_cleaner : Dims → ℕ → ℕ → Prms → Option Prms
unfolding create_pairs alt_down
create_net_alt_half_cleaner d pos sz p =
    if sz == 1 then some p else create_pairs d pos (alt_down pos sz) (sz / 2) 0 p

-- One step behind another, where the first ends.
unfoldable pub then_do : Option Prms → (Prms → Option Prms) → Option Prms
then_do none f = none
then_do (some p) f = f p

-- The calls of a network for `sz` wires from `pos` on, with fuel for the halving of `sz`.
unfoldable pub create_net_bitonic : ℕ → Dims → ℕ → ℕ → Prms → Option Prms
unfolding then_do create_net_half_cleaner
create_net_bitonic zero d pos sz p = none
create_net_bitonic (suc fuel) d pos sz p = elim (sz == 1) [
  | true ↦ some p
  | false ↦
      then_do
        (then_do (create_net_bitonic fuel d pos (sz / 2) p)
          (create_net_bitonic fuel d (pos + sz / 2) (sz / 2)))
        (create_net_half_cleaner d pos sz)
]

unfoldable pub create_net_merger : ℕ → Dims → ℕ → ℕ → Prms → Option Prms
unfolding then_do create_net_bitonic create_net_alt_half_cleaner
create_net_merger fuel d pos sz p = elim (sz == 1) [
  | true ↦ some p
  | false ↦
      then_do
        (then_do (create_net_bitonic fuel d pos (sz / 2) p)
          (create_net_bitonic fuel d (pos + sz / 2) (sz / 2)))
        (create_net_alt_half_cleaner d pos sz)
]

-- The first level of the merger that comes next, for the wires from `pos` on.
unfoldable pub first_lv : Dims → ℕ → Prms → Option ℕ
unfolding level_over
first_lv d pos p =
    if ltb pos d.tot_nods
    then (if p.arr_nods pos == 0
        then p.first_lv_for_merge_sz
        else some (level_over (p.arr_nods pos) p.nods))
    else none

unfoldable pub set_merge : Dims → ℕ → ℕ → Prms → Prms
unfolding first_lv
set_merge d pos sz p = record p { curr_merge_sz = sz; first_lv_for_merge_sz = first_lv d pos p }

unfoldable pub create_net_sorter : ℕ → Dims → ℕ → ℕ → Prms → Option Prms
unfolding then_do set_merge create_net_merger
create_net_sorter zero d pos sz p = none
create_net_sorter (suc fuel) d pos sz p = elim (sz == 1) [
  | true ↦ some p
  | false ↦
      then_do
        (then_do (create_net_merger fuel d pos sz (set_merge d pos sz p))
          (create_net_sorter fuel d pos (sz / 2)))
        (create_net_sorter fuel d (pos + sz / 2) (sz / 2))
]

-- `get_bigger_pow2`: `pp <<= 1` while it is below `nn`.
unfoldable pub pow2_from : ℕ → ℕ → ℕ → Option ℕ
pow2_from zero pp nn = none
pow2_from (suc fuel) pp nn = elim (ltb pp nn) [
  | false ↦ some pp
  | true ↦ pow2_from fuel (pp * 2) nn
]

unfoldable pub get_bigger_pow2 : ℕ → Option ℕ
unfolding pow2_from
get_bigger_pow2 nn = pow2_from (suc nn) 1 nn

-- `get_tot_levels`, with the library's `log2` of a number.
unfoldable pub get_tot_levels : (ℕ → ℕ) → ℕ → ℕ
get_tot_levels log2 nn = log2 nn * (log2 nn + 1) / 2

-- What an id stands for before a node has it.
unfoldable pub init_nod : Sornode
init_nod = record {
  level = 0;
  srt_sz = 0;
  up_idx = 0;
  up_out = 0;
  up_axon = 0;
  down_idx = none;
  down_out = 0;
  down_axon = 0;
}

-- `arr_endnods` has the ids of the end nodes.
unfoldable pub init_prms : (ℕ → ℕ) → Prms
unfolding init_nod
init_prms arr_endnods = record {
  arr_nods = λ w. 0;
  arr_endnods = arr_endnods;
  arr_lvs = λ lv. 0;
  curr_nod_id = 0;
  curr_merge_sz = 0;
  first_lv_for_merge_sz = some 0;
  nods = λ id. init_nod;
  all_pre_sornods = λ nn. [];
}

unfoldable pub dims_of : (ℕ → ℕ) → Bool → ℕ → ℕ → ℕ → Dims
unfolding get_tot_levels
dims_of log2 the_cnf tot_workerus num_to_sort pow2 = record {
  tot_nods = num_to_sort;
  tot_lvs = get_tot_levels log2 pow2;
  the_cnf = the_cnf;
  tot_workerus = tot_workerus;
}

-- The levels and the nodes that `create_sornet` makes between the loops over the ends.
unfoldable pub create_nods : (ℕ → ℕ) → Bool → ℕ → ℕ → (ℕ → ℕ) → Option Prms
unfolding get_bigger_pow2 dims_of init_prms create_net_sorter
create_nods log2 the_cnf tot_workerus num_to_sort arr_endnods = elim (get_bigger_pow2 num_to_sort) [
  | none ↦ none
  | some pow2 ↦
      create_net_sorter pow2 (dims_of log2 the_cnf tot_workerus num_to_sort pow2) 0 pow2
        (init_prms arr_endnods)
]
