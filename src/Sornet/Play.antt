-- ===== src/Sornet/Play.antt =====
-- A run of the network: a value on each wire goes along the links from node to node. Two values that
-- meet are sent on as `sorcell::sornet_srt_handler` of `bj_workeru/sornet.cpp` sends them.
use messaging_cells.Common.{ℕ, zero, suc, ◌==◌, ltb, if◌then◌else◌, Option, none, some, put_at}
use messaging_cells.Sornet.Build.{Sornode, Prms}

-- What is sent on at `up_snp.idx` and at `down_snp.idx`: the smaller value above.
unfoldable pub srt_outs : ℕ → ℕ → ℕ × ℕ
srt_outs up down = if ltb up down then (up, down) else (down, up)

-- The node where the value of each wire is, and the value.
pub record Wires : Type 0 where
  pub at_nod : ℕ → ℕ
  pub val : ℕ → ℕ

unfoldable pub fire_both : Sornode → ℕ → Wires → Wires
unfolding srt_outs
fire_both nod dn s =
    let outs = srt_outs (s.val nod.up_idx) (s.val dn) in
    record {
      at_nod = put_at dn nod.down_out (put_at nod.up_idx nod.up_out s.at_nod);
      val = put_at dn outs.1 (put_at nod.up_idx outs.0 s.val);
    }

-- `sornet_handle_direct`, where no value can come on the lower wire.
unfoldable pub send_direct : Sornode → Wires → Wires
send_direct nod s = record { at_nod = put_at nod.up_idx nod.up_out s.at_nod; val = s.val }

-- A node with one wire sends its value on; one with two waits for both.
unfoldable pub fire : ℕ → Sornode → Wires → Option Wires
unfolding fire_both send_direct
fire id nod s =
    if s.at_nod nod.up_idx == id
    then elim nod.down_idx [
      | none ↦ some (send_direct nod s)
      | some dn ↦ if s.at_nod dn == id then some (fire_both nod dn s) else none
    ]
    else none

-- The nodes `n` to 1 fire, each once; `none` where one has not got its values.
unfoldable pub play : (ℕ → Sornode) → ℕ → Wires → Option Wires
unfolding fire
play nods zero s = some s
play nods (suc n) s = elim (fire (suc n) (nods (suc n)) s) [ none ↦ none | some t ↦ play nods n t ]

-- The values run through all nodes, from the inputs of the network on.
unfoldable pub run : Prms → (ℕ → ℕ) → Option Wires
unfolding play
run p val = play p.nods p.curr_nod_id (record { at_nod = p.arr_nods; val = val })
