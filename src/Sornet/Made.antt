-- ===== src/Sornet/Made.antt =====
-- What a new node changes: the levels of its wires and the run of the network.
use messaging_cells.Common.{
  ℕ, zero, suc, ◌≤◌, ◌<◌, ◌≡◌, ◌≢◌, refl, ◌∙◌, ap, true, false, ◌==◌, ltb, if◌then◌else◌, Option,
  none, some, put_at, arith,
}
use messaging_cells.Sornet.Build.{
  Dims, Sornode, Prms, level_over, down_out_of, down_axon_of, take_wires, new_nod, set_node,
}
use messaging_cells.Sornet.Play.{run}
use messaging_cells.Sornet.Firing.{new_below, play_new, the_wires, with_wires, fire_one, fire_two}
use messaging_cells.Sornet.Values.{cmp_vals}

-- The level of the next node on a wire.
unfoldable pub wire_level : Prms → ℕ → ℕ
wire_level p w = level_over (p.arr_nods w) p.nods

-- Where the node `nod` sends what leaves it on the wire `w`.
unfoldable pub next_on : ℕ → Sornode → ℕ
next_on w nod = if nod.up_idx == w then nod.up_out else nod.down_out

-- The nodes with an id of at most `n` that are on the wire `w` from the node `at_nod` on, one behind
-- the other along the links.
unfoldable pub nods_on : (ℕ → Sornode) → ℕ → ℕ → ℕ → ℕ
unfolding next_on
nods_on nods w zero at_nod = 0
nods_on nods w (suc n) at_nod = elim (at_nod == suc n) [
  | true ↦ suc (nods_on nods w n (next_on w (nods (suc n))))
  | false ↦ nods_on nods w n at_nod
]

unfoldable pub wire_nods : Prms → ℕ → ℕ
unfolding nods_on
wire_nods p w = nods_on p.nods w p.curr_nod_id (p.arr_nods w)

pub record IsBuilt (d : Dims) (p : Prms) : Type 0 where
  pub links : (w : ℕ) → p.arr_nods w ≤ p.curr_nod_id
  pub nn_ok : (lv : ℕ) → d.the_cnf ≡ true → p.arr_lvs lv < d.tot_workerus
  pub counts : (w : ℕ) → wire_nods p w ≡ wire_level p w

-- `q` is `p` with a node for the wires `up` and `dn` more, as far as they are there.
pub record IsMade (d : Dims) (p q : Prms) (up dn : ℕ) : Type 0 where
  pub built : IsBuilt d q
  pub first : q.first_lv_for_merge_sz ≡ p.first_lv_for_merge_sz
  pub up_level : up < d.tot_nods → wire_level q up ≡ suc (wire_level p up)
  pub down_level : dn < d.tot_nods → wire_level q dn ≡ suc (wire_level p dn)
  pub ne_level : (w : ℕ) → w ≢ up → w ≢ dn → wire_level q w ≡ wire_level p w
  pub runs : (v : ℕ → ℕ) → run q v ≡ run p (cmp_vals d.tot_nods up dn v)

level_below :
    (n k : ℕ) (nod : Sornode) (f : ℕ → Sornode)
    → k ≤ n
    → level_over k (put_at (suc n) nod f) ≡ level_over k f
unfolding level_over
level_below n zero nod f l = refl
level_below n (suc k) nod f l = ap (λ x. suc x.level) (new_below n (suc k) nod f l)

level_new :
    (n : ℕ) (nod : Sornode) (f : ℕ → Sornode)
    → level_over (suc n) (put_at (suc n) nod f) ≡ suc nod.level
unfolding level_over
level_new n nod f = ground arith

module _ (p : Prms) (links : (w : ℕ) → p.arr_nods w ≤ p.curr_nod_id) (up lv srt : ℕ) where
  pub made_level :
      (down : Option ℕ) (w : ℕ)
      → take_wires up down (suc p.curr_nod_id) p.arr_nods w ≡ suc p.curr_nod_id
      → wire_level (set_node up down lv srt p) w ≡ suc lv
  unfolding wire_level set_node
  made_level down w e =
      ap (λ k. level_over k (set_node up down lv srt p).nods) e ∙ level_new p.curr_nod_id _ p.nods

  pub kept_level :
      (down : Option ℕ) (w : ℕ)
      → take_wires up down (suc p.curr_nod_id) p.arr_nods w ≡ p.arr_nods w
      → wire_level (set_node up down lv srt p) w ≡ wire_level p w
  unfolding wire_level set_node
  kept_level down w e =
      ap (λ k. level_over k (set_node up down lv srt p).nods) e
      ∙ level_below p.curr_nod_id (p.arr_nods w) _ p.nods (links w)

  pub set_node-links :
      (down : Option ℕ) (w : ℕ)
      → (set_node up down lv srt p).arr_nods w ≤ (set_node up down lv srt p).curr_nod_id
  unfolding set_node take_wires
  set_node-links none w = ground (arith, links w)
  set_node-links (some dn) w = ground (arith, links w)

  -- The new node fires first, and then all is as it was without it.
  pub runs_one : (v : ℕ → ℕ) → run (set_node up none lv srt p) v ≡ run p v
  unfolding run set_node take_wires the_wires new_nod down_out_of down_axon_of with_wires
  runs_one v =
      play_new p.curr_nod_id (new_nod up none lv srt p) p.nods
        (the_wires (put_at up (suc p.curr_nod_id) p.arr_nods) v) (the_wires p.arr_nods v)
        (fire_one (suc p.curr_nod_id) up lv srt (p.arr_endnods up) 0 p.arr_nods v)

  pub runs_two :
      (dn : ℕ) (v : ℕ → ℕ)
      → up < dn
      → run (set_node up (some dn) lv srt p) v
        ≡ run p (if ltb (v up) (v dn) then v else put_at dn (v up) (put_at up (v dn) v))
  unfolding run set_node take_wires the_wires new_nod down_out_of down_axon_of with_wires
  runs_two dn v l =
      play_new p.curr_nod_id (new_nod up (some dn) lv srt p) p.nods
        (the_wires (put_at dn (suc p.curr_nod_id) (put_at up (suc p.curr_nod_id) p.arr_nods)) v)
        (the_wires p.arr_nods
          (if ltb (v up) (v dn) then v else put_at dn (v up) (put_at up (v dn) v)))
        (fire_two (suc p.curr_nod_id) up lv srt (p.arr_endnods up) (p.arr_endnods dn) p.arr_nods v
          dn l)
