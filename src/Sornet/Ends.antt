-- ===== src/Sornet/Ends.antt =====
-- The loops of `create_sornet` before and behind the nodes: none of their checks fails.
use messaging_cells.Common.{
  ℕ, zero, suc, ◌+◌, ◌≤◌, ◌<◌, ◌≡◌, ◌≢◌, refl, sym, ap, ◌∙◌, true, false, Bool-cases, ◌⊎◌, inl, inr,
  Bool, Option, none, some, [], ◌∷◌, ◌++◌, put_at, arith,
}
use messaging_cells.Sornet.Build.{Dims, ptd_ck, next_nn}
use messaging_cells.Sornet.Create.{
  RankNet, Ends, Sornet, add_srt_endnod_to_glb_cnf, rnk_endnod, set_endnod, rnk_input, endnod_by,
  create_endnod, create_endnods, rank_sizes, sizes_ok, rank_of, link_rank, link_by, link_input,
  link_inputs,
}

-- A ranking network for `num` wires, which are not one alone: it has an input node and an end node
-- for each of them.
pub record RankOk (num : ℕ) (r : RankNet) : Type 0 where
  pub not_one : num ≢ 1
  pub ins : r.tot_pre_rank_in_nod ≡ num
  pub outs : r.tot_pre_rank_end_nod ≡ num
  pub arr : ℕ → ℕ
  pub ends : r.all_pre_rank_end_nod ≡ some arr
  pub in_there : (aa : ℕ) → aa < num → r.all_pre_rank_in_nod aa ≢ 0
  pub end_there : (aa : ℕ) → aa < num → arr aa ≢ 0
  pub end_idx : (aa : ℕ) → aa < num → (r.endnods (arr aa)).idx ≡ aa

-- There is no ranking network, or there is a good one.
abbrev pub IsRanked : ℕ → Option RankNet → Type 0
IsRanked num none = Unit
IsRanked num (some r) = RankOk num r

record EndsOk (num : ℕ) (d : Dims) (e : Ends) : Type 0 where
  ranked : IsRanked num e.rank
  nn_ok : d.the_cnf ≡ true → e.nxt_nn < d.tot_workerus

next-lt : (d : Dims) (nn : ℕ) → nn < d.tot_workerus → next_nn d nn < d.tot_workerus
unfolding next_nn
next-lt d nn h = ground arith

add-EndsOk :
    (num : ℕ) (d : Dims) (id : ℕ) (e : Ends)
    → EndsOk num d e
    → (f : Ends) × (add_srt_endnod_to_glb_cnf d id e ≡ some f) × EndsOk num d f
unfolding add_srt_endnod_to_glb_cnf ptd_ck
add-EndsOk num d id e h = elim (Bool-cases d.the_cnf) [
  | inl y ↦
      let n1 = h.nn_ok y in
      let n2 = next-lt d e.nxt_nn n1 in
      (
        record e {
          all_pre_srt_endnods =
              put_at e.nxt_nn (e.all_pre_srt_endnods e.nxt_nn ++ id ∷ []) e.all_pre_srt_endnods;
          nxt_nn = next_nn d e.nxt_nn;
        },
        ground (arith, y, n1, n2),
        record { ranked = h.ranked; nn_ok = λ c. n2 },
      )
  | inr y ↦ (e, ground (arith, y), h)
]

rnk_input-RankOk : (num aa : ℕ) (r : RankNet) → RankOk num r → RankOk num (rnk_input aa r)
unfolding rnk_input
rnk_input-RankOk num aa r h = record {
  not_one = h.not_one;
  ins = h.ins;
  outs = h.outs;
  arr = h.arr;
  ends = h.ends;
  in_there = h.in_there;
  end_there = h.end_there;
  end_idx = h.end_idx;
}

rnk_endnod-arr : (num aa : ℕ) (r : RankNet) (h : RankOk num r) → rnk_endnod r aa ≡ h.arr aa
unfolding rnk_endnod
rnk_endnod-arr num aa r h = ap (λ o. elim o [ none ↦ 0 | some arr ↦ arr aa ]) h.ends

set-EndsOk :
    (num : ℕ) (d : Dims) (aa out axon : ℕ) (rank : Option RankNet) (e : Ends)
    → IsRanked num rank
    → EndsOk num d e
    → EndsOk num d (set_endnod aa out axon rank e)
unfolding set_endnod
set-EndsOk num d aa out axon rank e k h = record { ranked = k; nn_ok = h.nn_ok }

endnod_by-EndsOk :
    (num : ℕ) (d : Dims) (aa : ℕ) (e : Ends) (o : Option RankNet)
    → aa < num
    → IsRanked num o
    → EndsOk num d e
    → (f : Ends) × (endnod_by d aa e o ≡ some f) × EndsOk num d f
unfolding endnod_by ptd_ck
endnod_by-EndsOk num d aa e none l k h =
    add-EndsOk num d (suc e.tot_endnods) (set_endnod aa 0 0 none e)
      (set-EndsOk num d aa 0 0 none e tt h)
endnod_by-EndsOk num d aa e (some r) l k h =
    let s = set_endnod aa (r.all_pre_rank_in_nod aa) (rnk_endnod r aa) (some (rnk_input aa r)) e in
    let (f, eq, ok) = add-EndsOk num d (suc e.tot_endnods) s (
      set-EndsOk num d aa (r.all_pre_rank_in_nod aa) (rnk_endnod r aa) (some (rnk_input aa r)) e
        (rnk_input-RankOk num aa r k) h) in
    let a = rnk_endnod-arr num aa r k in
    let i = k.in_there aa l in
    let n : rnk_endnod r aa ≢ 0 = λ z. k.end_there aa l (sym a ∙ z) in
    let x : (r.endnods (rnk_endnod r aa)).idx ≡ aa =
      ap (λ j. (r.endnods j).idx) a ∙ k.end_idx aa l in
    (f, ground (arith, i, n, x, eq), ok)

create_endnods-EndsOk :
    (num : ℕ) (d : Dims) (n aa : ℕ) (e : Ends)
    → aa + n ≤ num
    → EndsOk num d e
    → (f : Ends) × (create_endnods d n aa e ≡ some f) × EndsOk num d f
unfolding create_endnods create_endnod endnod_by
create_endnods-EndsOk num d zero aa e l h = (e, refl, h)
create_endnods-EndsOk num d (suc n) aa e l h =
    let (f, eq, ok) = endnod_by-EndsOk num d aa e e.rank (omega arith) h.ranked h in
    let (g, eq2, ok2) = create_endnods-EndsOk num d n (aa + 1) f (omega arith) ok in
    (g, ap (λ o. elim o [ none ↦ none | some f ↦ create_endnods d n (aa + 1) f ]) eq ∙ eq2, ok2)

pub endnods-made :
    (num : ℕ) (d : Dims) (e : Ends)
    → IsRanked num e.rank
    → (d.the_cnf ≡ true → e.nxt_nn < d.tot_workerus)
    → (f : Ends) × (create_endnods d num 0 e ≡ some f) × IsRanked num f.rank
endnods-made num d e k h =
    let (f, eq, ok) =
      create_endnods-EndsOk num d num 0 e (omega arith) (record { ranked = k; nn_ok = h }) in
    (f, eq, ok.ranked)

pub sizes_ok-IsRanked : (num : ℕ) (o : Option RankNet) → IsRanked num o → sizes_ok num o ≡ true
unfolding sizes_ok rank_sizes
sizes_ok-IsRanked num none k = refl
sizes_ok-IsRanked num (some r) k = ground (arith, k.ins, k.outs, k.ends)

pub rank_of-IsRanked :
    (num : ℕ) (b : Bool) (o : Option RankNet) → IsRanked num o → IsRanked num (rank_of b o)
unfolding rank_of
rank_of-IsRanked num true o k = k
rank_of-IsRanked num false o k = tt

-- The wires are all taken by nodes, where there is a ranking network to lead to them.
abbrev pub IsTaken : ℕ → Sornet → Type 0
IsTaken num s = (s.ends.rank ≡ none) ⊎ ((aa : ℕ) → aa < num → s.prms.arr_nods aa ≢ 0)

pub IsRanked-IsTaken :
    (num : ℕ) (s : Sornet) (o : Option RankNet)
    → s.ends.rank ≡ o
    → IsRanked num o
    → (num ≢ 1 → (aa : ℕ) → aa < num → s.prms.arr_nods aa ≢ 0)
    → IsTaken num s
IsRanked-IsTaken num s none e k h = inl e
IsRanked-IsTaken num s (some r) e k h = inr (h k.not_one)

link_by-some :
    (num aa : ℕ) (s : Sornet) (o : Option RankNet)
    → s.ends.rank ≡ o
    → aa < num
    → IsTaken num s
    → (t : Sornet) × (link_by aa o s ≡ some t) × (t.prms ≡ s.prms) × IsTaken num t
unfolding link_by link_rank ptd_ck
link_by-some num aa s none e l h = (s, refl, refl, h)
link_by-some num aa s (some r) e l (inl n) = absurd (none-ne-some r (sym n ∙ e))
  where
    none-ne-some : (r : RankNet) → none ≡ some r → ⊥
    none-ne-some r e = cc
link_by-some num aa s (some r) e l (inr n) =
    let k = n aa l in
    (
      record s {
        srt_input_flag = put_at (s.prms.arr_nods aa) true s.srt_input_flag;
        ends = record s.ends {
          rank = some (record r {
            endnods =
                put_at (rnk_endnod r aa)
                  (record (r.endnods (rnk_endnod r aa)) { out = s.prms.arr_nods aa }) r.endnods;
          });
        };
      },
      ground (arith, k),
      refl,
      inr n,
    )

pub link_inputs-some :
    (num n aa : ℕ) (s : Sornet)
    → aa + n ≤ num
    → IsTaken num s
    → (t : Sornet) × (link_inputs n aa s ≡ some t) × (t.prms ≡ s.prms)
unfolding link_inputs link_input
link_inputs-some num zero aa s l h = (s, refl, refl)
link_inputs-some num (suc n) aa s l h =
    let (t, e, same, k) = link_by-some num aa s s.ends.rank refl (omega arith) h in
    let (u, e2, same2) = link_inputs-some num n (aa + 1) t (omega arith) k in
    (u, ap (λ o. elim o [ none ↦ none | some t ↦ link_inputs n (aa + 1) t ]) e ∙ e2, same2 ∙ same)
