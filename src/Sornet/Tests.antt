-- ===== src/Sornet/Tests.antt =====
-- Small networks.
use messaging_cells.Common.{
  ℕ, zero, suc, ◌+◌, ◌-◌, ◌/◌, ◌<◌, ◌≡◌, refl, ◌∙◌, ap, true, false, leb, Option, none, some, List,
  [], ◌∷◌, arith,
}
use messaging_cells.Sornet.Build.{get_bigger_pow2, get_tot_levels}
use messaging_cells.Sornet.Create.{RankNet, Sornet, create_sornet}
use messaging_cells.Sornet.Ends.{RankOk}
use messaging_cells.Sornet.Play.{Wires, run}
use messaging_cells.Sornet.Values.{width}
use messaging_cells.Sornet.Cleaners.{width_pos}
use messaging_cells.Sornet.Made.{wire_level, wire_nods}
use messaging_cells.Sornet.Pow2.{lt_width}
use messaging_cells.Sornet.Whole.{IsSorting, create_sornet-IsSorting, create_sornet-levels}

-- A `log2` by halving.
log2_from : ℕ → ℕ → ℕ
log2_from zero n = 0
log2_from (suc fuel) n = elim (leb n 1) [ true ↦ 0 | false ↦ suc (log2_from fuel (n / 2)) ]

unfoldable log2 : ℕ → ℕ
log2 n = log2_from n n

log2_from-width : (fuel k : ℕ) → k < fuel → log2_from fuel (width k) ≡ k
unfolding log2_from width
log2_from-width zero k l = absurd (omega arith)
log2_from-width (suc fuel) zero l = refl
log2_from-width (suc fuel) (suc k) l =
    let p = width_pos k in
    let wide : leb (width k + width k) 1 ≡ false = ground arith in
    let half : (width k + width k) / 2 ≡ width k = omega arith in
    ap (λ b. elim b [ true ↦ 0 | false ↦ suc (log2_from fuel ((width k + width k) / 2)) ]) wide
    ∙ ap (λ x. suc (log2_from fuel x)) half
    ∙ ap suc (log2_from-width fuel k (omega arith))

log2-width : (k : ℕ) → log2 (width k) ≡ k
unfolding log2
log2-width k = log2_from-width (width k) k (lt_width k)

-- The values of the first three wires after a run of a network of three.
abbrev three : Option Sornet → (ℕ → ℕ) → List ℕ
three none v = []
three (some q) v = vals (run q.prms v)
  where
    vals : Option Wires → List ℕ
    vals none = []
    vals (some s) = s.val 0 ∷ s.val 1 ∷ s.val 2 ∷ []

abbrev falling : ℕ → ℕ
falling zero = 9
falling (suc zero) = 5
falling _ = 1

sorted_three : three (create_sornet log2 true 2 3 none) falling ≡ 1 ∷ 5 ∷ 9 ∷ []
unfolding create_sornet run log2 log2_from
sorted_three = refl

-- Four wires have three levels of two nodes.
abbrev ids : Option Sornet → ℕ
ids none = 0
ids (some q) = q.prms.curr_nod_id

six_nodes : ids (create_sornet log2 true 2 4 none) ≡ 6
unfolding create_sornet log2 log2_from
six_nodes = refl

-- The nodes of two workerus, level by level.
abbrev of_workeru : ℕ → Option Sornet → List ℕ
of_workeru nn none = []
of_workeru nn (some q) = q.prms.all_pre_sornods nn

first_workeru : of_workeru 0 (create_sornet log2 true 2 4 none) ≡ 1 ∷ 3 ∷ 5 ∷ []
unfolding create_sornet log2 log2_from
first_workeru = refl

-- A ranking network for `num` wires, where the wire `w` has the node and the end node `w + 1`.
abbrev ranks : ℕ → RankNet
ranks num = record {
  tot_pre_rank_in_nod = num;
  all_pre_rank_in_nod = λ w. suc w;
  tot_pre_rank_end_nod = num;
  all_pre_rank_end_nod = some (λ w. suc w);
  endnods = λ id. record { idx = id - 1; out = 0; axon = 0 };
  rnk_input_flag = λ id. false;
}

ranks-RankOk : RankOk 3 (ranks 3)
ranks-RankOk = record {
  not_one = omega arith;
  ins = refl;
  outs = refl;
  arr = λ w. suc w;
  ends = refl;
  in_there = λ w l. omega arith;
  end_there = λ w l. omega arith;
  end_idx = λ w l. omega arith;
}

-- The end node of wire 2 has the input of the ranking network, whose end node has the input of the
-- sorting network.
abbrev outs_of : Option Sornet → List ℕ
outs_of none = []
outs_of (some s) =
    (s.ends.endnods (s.ends.arr_endnods 2)).out ∷ rank_out s.ends.rank ∷ s.prms.arr_nods 2 ∷ []
  where
    rank_out : Option RankNet → ℕ
    rank_out none = 0
    rank_out (some r) = (r.endnods 3).out

linked : outs_of (create_sornet log2 true 2 3 (some (ranks 3))) ≡ 3 ∷ 6 ∷ 6 ∷ []
unfolding create_sornet log2 log2_from
linked = refl

-- The first node that its wire comes to has the end node of the wire as its axon.
abbrev axon_of : Option Sornet → List ℕ
axon_of none = []
axon_of (some s) = (s.prms.nods 6).up_axon ∷ s.ends.arr_endnods (s.prms.nods 6).up_idx ∷ []

same_axon : axon_of (create_sornet log2 true 2 3 none) ≡ 3 ∷ 3 ∷ []
unfolding create_sornet log2 log2_from
same_axon = refl

-- One wire has no node for the ranking network to lead to.
one_wire : create_sornet log2 true 2 1 (some (ranks 1)) ≡ none
unfolding create_sornet log2 log2_from
one_wire = refl

create_sornet-IsSorting_example :
    (s : Sornet) × (create_sornet log2 true 2 3 (some (ranks 3)) ≡ some s)
    × ((v : ℕ → ℕ) → IsSorting 3 s.prms v)
create_sornet-IsSorting_example =
    create_sornet-IsSorting log2 true 2 3 (some (ranks 3)) log2-width (λ e. omega arith)
      ranks-RankOk

create_sornet-levels_example :
    (s : Sornet) × (pow2 : ℕ) × (create_sornet log2 true 2 3 (some (ranks 3)) ≡ some s)
    × (get_bigger_pow2 3 ≡ some pow2)
    × (wire_nods s.prms 2 ≡ get_tot_levels log2 pow2)
    × (wire_level s.prms 2 ≡ get_tot_levels log2 pow2)
create_sornet-levels_example =
    create_sornet-levels log2 true 2 3 (some (ranks 3)) 2 log2-width (λ e. omega arith) ranks-RankOk
      (omega arith)
