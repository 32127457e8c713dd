-- ===== src/Sornet/Create.antt =====
-- `create_sornet` of `bj_manageru/cnf_preload/preload_sornet.cpp`: the end nodes, the nodes, and the
-- links to the ranking network, where `create_ranknet` has made one before.
use messaging_cells.Common.{
  ℕ, zero, suc, ◌+◌, Bool, true, false, not, ◌&&◌, ◌==◌, ltb, if◌then◌else◌, Option, none, some,
  List, [], ◌∷◌, ◌++◌, put_at,
}
use messaging_cells.Sornet.Build.{
  Dims, Prms, ptd_ck, next_nn, get_bigger_pow2, dims_of, create_nods,
}

-- The `nxt` of a `pre_endnode`; 0 stands for no node.
pub record Endnode : Type 0 where
  pub idx : ℕ
  pub out : ℕ
  pub axon : ℕ

-- What `THE_CNF` has of the ranking network: its input nodes and its end nodes by their wires, `none`
-- for a null array of the latter; the end nodes themselves, and which nodes have
-- `bj_rnk_input_flag`.
pub record RankNet : Type 0 where
  pub tot_pre_rank_in_nod : ℕ
  pub all_pre_rank_in_nod : ℕ → ℕ
  pub tot_pre_rank_end_nod : ℕ
  pub all_pre_rank_end_nod : Option (ℕ → ℕ)
  pub endnods : ℕ → Endnode
  pub rnk_input_flag : ℕ → Bool

-- The end nodes of the sorting network, those of each workeru, and the ranking network, `none` while
-- `all_rnk_in_nod` is null.
pub record Ends : Type 0 where
  pub arr_endnods : ℕ → ℕ
  pub endnods : ℕ → Endnode
  pub tot_endnods : ℕ
  pub all_pre_srt_endnods : ℕ → List ℕ
  pub nxt_nn : ℕ
  pub rank : Option RankNet

-- The network, with the nodes that have `bj_srt_input_flag`.
pub record Sornet : Type 0 where
  pub prms : Prms
  pub ends : Ends
  pub srt_input_flag : ℕ → Bool

unfoldable pub add_srt_endnod_to_glb_cnf : Dims → ℕ → Ends → Option Ends
unfolding ptd_ck next_nn
add_srt_endnod_to_glb_cnf d id e =
    if d.the_cnf
    then ptd_ck (ltb e.nxt_nn d.tot_workerus) (
        ptd_ck (ltb (next_nn d e.nxt_nn) d.tot_workerus) (
          some (record e {
            all_pre_srt_endnods =
                put_at e.nxt_nn (e.all_pre_srt_endnods e.nxt_nn ++ id ∷ []) e.all_pre_srt_endnods;
            nxt_nn = next_nn d e.nxt_nn;
          })))
    else some e

-- `arr_rnk_endnods[aa]`
unfoldable pub rnk_endnod : RankNet → ℕ → ℕ
rnk_endnod r aa = elim r.all_pre_rank_end_nod [ none ↦ 0 | some arr ↦ arr aa ]

-- The end node of the wire `aa`, with what it has of the ranking network.
unfoldable pub set_endnod : ℕ → ℕ → ℕ → Option RankNet → Ends → Ends
set_endnod aa out axon rank e = record e {
  arr_endnods = put_at aa (suc e.tot_endnods) e.arr_endnods;
  endnods = put_at (suc e.tot_endnods) (record { idx = aa; out = out; axon = axon }) e.endnods;
  tot_endnods = suc e.tot_endnods;
  rank = rank;
}

unfoldable pub rnk_input : ℕ → RankNet → RankNet
rnk_input aa r = record r {
  rnk_input_flag = put_at (r.all_pre_rank_in_nod aa) true r.rnk_input_flag;
}

-- The body of the first loop, by what there is of a ranking network.
unfoldable pub endnod_by : Dims → ℕ → Ends → Option RankNet → Option Ends
unfolding ptd_ck rnk_endnod rnk_input set_endnod add_srt_endnod_to_glb_cnf
endnod_by d aa e none = add_srt_endnod_to_glb_cnf d (suc e.tot_endnods) (set_endnod aa 0 0 none e)
endnod_by d aa e (some r) = ptd_ck (not (r.all_pre_rank_in_nod aa == 0)) (
    ptd_ck (not (rnk_endnod r aa == 0)) (
      ptd_ck ((r.endnods (rnk_endnod r aa)).idx == aa) (
        add_srt_endnod_to_glb_cnf d (suc e.tot_endnods)
          (set_endnod aa (r.all_pre_rank_in_nod aa) (rnk_endnod r aa) (some (rnk_input aa r)) e))))

unfoldable pub create_endnod : Dims → ℕ → Ends → Option Ends
unfolding endnod_by
create_endnod d aa e = endnod_by d aa e e.rank

-- `n` rounds of it from `aa` on.
unfoldable pub create_endnods : Dims → ℕ → ℕ → Ends → Option Ends
unfolding create_endnod
create_endnods d zero aa e = some e
create_endnods d (suc n) aa e = elim (create_endnod d aa e) [
  | none ↦ none
  | some f ↦ create_endnods d n (aa + 1) f
]

-- The checks of the sizes before the loops; `all_rnk_in_nod` stays null without `THE_CNF`.
unfoldable pub rank_sizes : ℕ → RankNet → Bool
rank_sizes num_to_sort r =
    r.tot_pre_rank_in_nod == num_to_sort
    && r.tot_pre_rank_end_nod == num_to_sort
    && elim r.all_pre_rank_end_nod [ none ↦ false | some arr ↦ true ]

unfoldable pub rank_of : Bool → Option RankNet → Option RankNet
rank_of the_cnf rank = if the_cnf then rank else none

unfoldable pub sizes_ok : ℕ → Option RankNet → Bool
unfolding rank_sizes
sizes_ok num_to_sort none = true
sizes_ok num_to_sort (some r) = rank_sizes num_to_sort r

unfoldable pub init_ends : Option RankNet → Ends
init_ends rank = record {
  arr_endnods = λ w. 0;
  endnods = λ id. record { idx = 0; out = 0; axon = 0 };
  tot_endnods = 0;
  all_pre_srt_endnods = λ nn. [];
  nxt_nn = 0;
  rank = rank;
}

-- The body of the last loop; `all_pre_sorinput_nod` is the array `arr_nods` itself.
unfoldable pub link_rank : ℕ → RankNet → Sornet → Option Sornet
unfolding ptd_ck rnk_endnod
link_rank aa r s =
    let id = rnk_endnod r aa in
    ptd_ck (not (s.prms.arr_nods aa == 0)) (
      some (record s {
        srt_input_flag = put_at (s.prms.arr_nods aa) true s.srt_input_flag;
        ends = record s.ends {
          rank = some (record r {
            endnods = put_at id (record (r.endnods id) { out = s.prms.arr_nods aa }) r.endnods;
          });
        };
      }))

unfoldable pub link_by : ℕ → Option RankNet → Sornet → Option Sornet
unfolding link_rank
link_by aa none s = some s
link_by aa (some r) s = link_rank aa r s

unfoldable pub link_input : ℕ → Sornet → Option Sornet
unfolding link_by
link_input aa s = link_by aa s.ends.rank s

unfoldable pub link_inputs : ℕ → ℕ → Sornet → Option Sornet
unfolding link_input
link_inputs zero aa s = some s
link_inputs (suc n) aa s = elim (link_input aa s) [
  | none ↦ none
  | some t ↦ link_inputs n (aa + 1) t
]

unfoldable pub finish_sornet : ℕ → Ends → Option Prms → Option Sornet
unfolding link_inputs
finish_sornet num_to_sort e none = none
finish_sornet num_to_sort e (some q) =
    link_inputs num_to_sort 0 (record { prms = q; ends = e; srt_input_flag = λ id. false })

unfoldable pub create_sornet : (ℕ → ℕ) → Bool → ℕ → ℕ → Option RankNet → Option Sornet
unfolding ptd_ck get_bigger_pow2 dims_of create_nods rank_of sizes_ok init_ends create_endnods
    finish_sornet
create_sornet log2 the_cnf tot_workerus num_to_sort rank = elim (get_bigger_pow2 num_to_sort) [
  | none ↦ none
  | some pow2 ↦
      ptd_ck (sizes_ok num_to_sort (rank_of the_cnf rank))
        (elim (create_endnods (dims_of log2 the_cnf tot_workerus num_to_sort pow2) num_to_sort 0
          (init_ends (rank_of the_cnf rank))) [
            | none ↦ none
            | some e ↦
                finish_sornet num_to_sort e
                  (create_nods log2 the_cnf tot_workerus num_to_sort e.arr_endnods)
          ])
]
