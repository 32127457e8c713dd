-- ===== src/Sornet/Whole.antt =====
-- The whole network: it is always made, it sorts, and how deep it is.
use messaging_cells.Common.{
  ℕ, ◌+◌, ◌*◌, ◌/◌, ◌≤◌, ◌<◌, ◌≡◌, ◌≢◌, refl, sym, ◌∙◌, ap, subst, Bool, true, false, inr, Option,
  none, some, arith,
}
use messaging_cells.Sornet.Build.{
  Dims, Prms, get_bigger_pow2, get_tot_levels, init_prms, dims_of, create_net_sorter, create_nods,
  level_over, ptd_ck,
}
use messaging_cells.Sornet.Play.{Wires, play, run}
use messaging_cells.Sornet.Values.{sorter_vals, width}
use messaging_cells.Sornet.Counts.{occurs, sorter-occurs}
use messaging_cells.Sornet.Sorts.{sorter_vals-le}
use messaging_cells.Sornet.Made.{wire_level, nods_on, wire_nods, IsBuilt}
use messaging_cells.Sornet.Create.{
  RankNet, Ends, Sornet, rank_of, sizes_ok, init_ends, create_endnods, link_inputs, finish_sornet,
  create_sornet,
}
use messaging_cells.Sornet.Ends.{
  IsRanked, sizes_ok-IsRanked, rank_of-IsRanked, IsRanked-IsTaken, endnods-made, link_inputs-some,
}
use messaging_cells.Sornet.Pairs.{IsGrown}
use messaging_cells.Sornet.Sorter.{tri, sorter-IsGrown}
use messaging_cells.Sornet.Pow2.{lt_width, pow2_from-width, tri-half, tri_pos, width-one}

-- A network on which the values of all wires end at no node, ascend among the `n` wires, and are
-- the values that were given, each as often.
pub record IsSorting (n : ℕ) (q : Prms) (v : ℕ → ℕ) : Type 0 where
  pub ends : Wires
  pub runs : run q v ≡ some ends
  pub out : (w : ℕ) → ends.at_nod w ≡ 0
  pub ascending : (i j : ℕ) → i ≤ j → j < n → ends.val i ≤ ends.val j
  pub moved : (x : ℕ) → occurs x ends.val n ≡ occurs x v n

init-IsBuilt :
    (arr : ℕ → ℕ) (d : Dims) → (d.the_cnf ≡ true → 0 < d.tot_workerus) → IsBuilt d (init_prms arr)
unfolding init_prms wire_nods nods_on wire_level level_over
init-IsBuilt arr d some_workeru = record {
  links = λ w. omega arith;
  nn_ok = λ lv e. some_workeru e;
  counts = λ w. refl;
}

init-run : (arr v : ℕ → ℕ) → run (init_prms arr) v ≡ some (record { at_nod = λ w. 0; val = v })
unfolding run play init_prms
init-run arr v = refl

init_null : (arr : ℕ → ℕ) (w : ℕ) → (init_prms arr).arr_nods w ≡ 0
unfolding init_prms
init_null arr w = refl

get_bigger_pow2-width :
    (num : ℕ) → (k : ℕ) × (get_bigger_pow2 num ≡ some (width k)) × (num ≤ width k)
unfolding get_bigger_pow2 width
get_bigger_pow2-width num = pow2_from-width num 0 num (omega arith)

-- What the loops give: the nodes are there, with as many levels as there is room for.
made :
    (log2 : ℕ → ℕ) (the_cnf : Bool) (tot_workerus num_to_sort : ℕ) (arr : ℕ → ℕ) (k : ℕ)
    → ((k : ℕ) → log2 (width k) ≡ k)
    → (the_cnf ≡ true → 0 < tot_workerus)
    → get_bigger_pow2 num_to_sort ≡ some (width k)
    → (q : Prms) × (create_nods log2 the_cnf tot_workerus num_to_sort arr ≡ some q)
      × IsGrown
          (dims_of log2 the_cnf tot_workerus num_to_sort (width k))
          (init_prms arr)
          q
          0
          (width k)
          (tri k)
          (sorter_vals num_to_sort k 0)
unfolding create_nods dims_of get_tot_levels wire_level level_over init_prms
made log2 the_cnf tot num arr k log2-width some_workeru e =
    let d = dims_of log2 the_cnf tot num (width k) in
    let lvs : d.tot_lvs ≡ tri k = ap (λ x. x * (x + 1) / 2) (log2-width k) ∙ tri-half k in
    let (q, e2, g) =
      sorter-IsGrown d k (width k) 0 0 (init_prms arr) (lt_width k) (omega arith)
        (init-IsBuilt arr d some_workeru) (λ t. inr (0, refl)) (λ w l n t. refl) in
    (
      q,
      ap
            (λ o. elim o [
              | none ↦ none
              | some pow2 ↦
                  create_net_sorter pow2 (dims_of log2 the_cnf tot num pow2) 0 pow2 (init_prms arr)
            ])
            e
          ∙ e2,
      g,
    )

-- Where the node that takes the value of a wire is missing, the wire has no level.
no_level : (q : Prms) (w : ℕ) → q.arr_nods w ≡ 0 → wire_level q w ≡ 0
unfolding wire_level level_over
no_level q w e = ap (λ k. level_over k q.nods) e

-- With two wires or more there is a node for each of them.
grown-taken :
    (log2 : ℕ → ℕ) (the_cnf : Bool) (tot_workerus num k : ℕ) (arr : ℕ → ℕ) (q : Prms)
    → num ≤ width k
    → IsGrown
        (dims_of log2 the_cnf tot_workerus num (width k))
        (init_prms arr)
        q
        0
        (width k)
        (tri k)
        (sorter_vals num k 0)
    → num ≢ 1
    → (w : ℕ) → w < num
    → q.arr_nods w ≢ 0
unfolding dims_of
grown-taken log2 the_cnf tot num k arr q m g one w l z =
    let e = g.inside w (omega arith) (omega arith) l in
    let p = tri_pos k (width-one k (omega arith)) in
    let n = no_level q w z in
    let start = no_level (init_prms arr) w (init_null arr w) in omega arith

create_sornet-parts :
    (log2 : ℕ → ℕ) (the_cnf : Bool) (tot num : ℕ) (rank : Option RankNet) (pow2 : ℕ) (f : Ends)
    (q : Prms) (s : Sornet)
    → get_bigger_pow2 num ≡ some pow2
    → sizes_ok num (rank_of the_cnf rank) ≡ true
    → create_endnods (dims_of log2 the_cnf tot num pow2) num 0 (init_ends (rank_of the_cnf rank))
      ≡ some f
    → create_nods log2 the_cnf tot num f.arr_endnods ≡ some q
    → link_inputs num 0 (record { prms = q; ends = f; srt_input_flag = λ id. false }) ≡ some s
    → create_sornet log2 the_cnf tot num rank ≡ some s
unfolding create_sornet finish_sornet ptd_ck
create_sornet-parts log2 the_cnf tot num rank pow2 f q s bigger sizes ends nods links =
    let start = init_ends (rank_of the_cnf rank) in
    let finish : Option Ends → Option Sornet = λ o. elim o [
      | none ↦ none
      | some e ↦ finish_sornet num e (create_nods log2 the_cnf tot num e.arr_endnods)
    ] in
    ap
      (λ o. elim o [
        | none ↦ none
        | some pow2 ↦
            ptd_ck (sizes_ok num (rank_of the_cnf rank))
              (finish (create_endnods (dims_of log2 the_cnf tot num pow2) num 0 start))
      ])
      bigger
    ∙ ap (λ b. ptd_ck b (finish (create_endnods (dims_of log2 the_cnf tot num pow2) num 0 start)))
        sizes
    ∙ ap finish ends
    ∙ ap (finish_sornet num f) nods
    ∙ links

-- All of `create_sornet`: what the loops over the ends and the nodes give.
sornet_made :
    (log2 : ℕ → ℕ) (the_cnf : Bool) (tot_workerus num_to_sort : ℕ) (rank : Option RankNet)
    → ((k : ℕ) → log2 (width k) ≡ k)
    → (the_cnf ≡ true → 0 < tot_workerus)
    → IsRanked num_to_sort rank
    → (k : ℕ) × (arr : ℕ → ℕ) × (get_bigger_pow2 num_to_sort ≡ some (width k))
      × (num_to_sort ≤ width k)
      × (s : Sornet) × (create_sornet log2 the_cnf tot_workerus num_to_sort rank ≡ some s)
      × IsGrown
          (dims_of log2 the_cnf tot_workerus num_to_sort (width k))
          (init_prms arr)
          s.prms
          0
          (width k)
          (tri k)
          (sorter_vals num_to_sort k 0)
unfolding create_sornet finish_sornet dims_of init_ends ptd_ck
sornet_made log2 the_cnf tot num rank log2-width some_workeru ranked =
    let (k, e, m) = get_bigger_pow2-width num in
    let d = dims_of log2 the_cnf tot num (width k) in
    let ranked_cnf = rank_of-IsRanked num the_cnf rank ranked in
    let sizes = sizes_ok-IsRanked num (rank_of the_cnf rank) ranked_cnf in
    let (f, e3, ranked_ends) =
      endnods-made num d (init_ends (rank_of the_cnf rank)) ranked_cnf some_workeru in
    let (q, e2, g) = made log2 the_cnf tot num f.arr_endnods k log2-width some_workeru e in
    let t : Sornet = record { prms = q; ends = f; srt_input_flag = λ id. false } in
    let (s, e4, same) = link_inputs-some num num 0 t (omega arith) (
      IsRanked-IsTaken num t f.rank refl ranked_ends
        (grown-taken log2 the_cnf tot num k f.arr_endnods q m g)) in
    (
      k,
      f.arr_endnods,
      e,
      m,
      s,
      create_sornet-parts log2 the_cnf tot num rank (width k) f q s e sizes e3 e2 e4,
      subst (λ p. IsGrown d (init_prms f.arr_endnods) p 0 (width k) (tri k) (sorter_vals num k 0))
          (sym same) g,
    )

-- For any number of wires, with at least one workeru where there is a CNF, and with no ranking
-- network or a whole one for the same wires, which are then not one alone, `create_sornet` makes a
-- network, so no check of it fails. Each run of the network ends: every node gets its values, the
-- values ascend along the wires, and they are those that were given. `log2` of the library is exact
-- on powers of two.
pub create_sornet-IsSorting :
    (log2 : ℕ → ℕ) (the_cnf : Bool) (tot_workerus num_to_sort : ℕ) (rank : Option RankNet)
    → ((k : ℕ) → log2 (width k) ≡ k)
    → (the_cnf ≡ true → 0 < tot_workerus)
    → IsRanked num_to_sort rank
    → (s : Sornet) × (create_sornet log2 the_cnf tot_workerus num_to_sort rank ≡ some s)
      × ((v : ℕ → ℕ) → IsSorting num_to_sort s.prms v)
create_sornet-IsSorting log2 the_cnf tot num rank log2-width some_workeru ranked =
    let (k, arr, e, m, s, e2, g) =
      sornet_made log2 the_cnf tot num rank log2-width some_workeru ranked in
    (
      s,
      e2,
      λ v. record {
        ends = record { at_nod = λ w. 0; val = sorter_vals num k 0 v };
        runs = g.runs v ∙ init-run arr (sorter_vals num k 0 v);
        out = λ w. refl;
        ascending = λ i j l t. sorter_vals-le num k v i j m l t;
        moved = λ x. sorter-occurs x num k 0 v;
      },
    )

-- With at least one workeru where there is a CNF, with no ranking network or a whole one for the same
-- wires, which are then not one alone, and with a `log2` that is exact on powers of two,
-- `create_sornet` makes a network in which the values of each wire go through as many nodes, one
-- behind the other along the links, as `get_tot_levels` says for the next power of two, and the level
-- of the first of these nodes is one less than that.
pub create_sornet-levels :
    (log2 : ℕ → ℕ) (the_cnf : Bool) (tot_workerus num_to_sort : ℕ) (rank : Option RankNet) (w : ℕ)
    → ((k : ℕ) → log2 (width k) ≡ k)
    → (the_cnf ≡ true → 0 < tot_workerus)
    → IsRanked num_to_sort rank
    → w < num_to_sort
    → (s : Sornet) × (pow2 : ℕ) × (create_sornet log2 the_cnf tot_workerus num_to_sort rank
        ≡ some s)
      × (get_bigger_pow2 num_to_sort ≡ some pow2)
      × (wire_nods s.prms w ≡ get_tot_levels log2 pow2)
      × (wire_level s.prms w ≡ get_tot_levels log2 pow2)
unfolding get_tot_levels dims_of
create_sornet-levels log2 the_cnf tot num rank w log2-width some_workeru ranked l =
    let (k, arr, e, m, s, e2, g) =
      sornet_made log2 the_cnf tot num rank log2-width some_workeru ranked in
    let lvs = ap (λ x. x * (x + 1) / 2) (log2-width k) ∙ tri-half k in
    let start : wire_level (init_prms arr) w ≡ 0 = no_level (init_prms arr) w (init_null arr w) in
    let lv : wire_level s.prms w ≡ tri k =
      g.inside w (omega arith) (omega arith) l ∙ ap (λ x. tri k + x) start ∙ omega arith in
    (s, width k, e2, e, g.built.counts w ∙ lv ∙ sym lvs, lv ∙ sym lvs)
