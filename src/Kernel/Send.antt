-- ===== src/Kernel/Send.antt =====
-- The second part of `kernel::handle_missives`: the missives that this kernel sends.
use messaging_cells.Common.{
  ℕ, zero, suc, ◌==◌, Bool, true, not, ◌&&◌, if◌then◌else◌, Option, none, some, List, [], ◌∷◌, ◌++◌,
}
use messaging_cells.Kernel.State.{
  Missive, AgentGrp, Ack, Kernel, Sys, User, Run, ok, stopped, faulted, out_of_fuel, ◌>>=◌, at_ker,
  put, put_at, work,
}
use messaging_cells.Kernel.Calls.{acquire_grp, release_grp}
use messaging_cells.Kernel.Handlers.{handle_missive}

-- What `let_go` does to the ring that holds the binder.
unfoldable pub remove : ℕ → List ℕ → List ℕ
remove a [] = []
remove a (x ∷ xs) = if a == x then xs else x ∷ remove a xs

unfoldable pub drop_first : List Missive → List Missive
drop_first [] = []
drop_first (m ∷ ms) = ms

unfoldable pub add_to_grp : Missive → AgentGrp → AgentGrp
add_to_grp m g = record g { all_agts = g.all_agts ++ m ∷ [] }

-- The loop of `add_out_missive`: the first group whose first missive goes to the workeru `dst`.
unfoldable pub find_grp : (ℕ → AgentGrp) → ℕ → List ℕ → Run (Option ℕ)
find_grp grps dst [] = ok none
find_grp grps dst (a ∷ out) = elim (grps a).all_agts [
  | [] ↦ stopped faulted
  | m ∷ ms ↦ (let rest = find_grp grps dst out in if m.dst.owner == dst then ok (some a) else rest)
]

-- May a route that was never used be opened? If not, the bit of `did_work` that says why.
pub data Gate : Type 0 where
  pass : Gate
  skip : ℕ → Gate

module _ {U : Type 0} where
  -- `add_out_missive`; the ring `out_wk` is handed over, and given back with the kernel.
  unfoldable pub new_out_grp : Missive → List ℕ → ℕ × Kernel U → List ℕ × Kernel U
  unfolding add_to_grp
  new_out_grp m out (a, k) =
      (out ++ a ∷ [], record k { grps = put_at a (add_to_grp m (k.grps a)) k.grps })

  unfoldable pub add_out_missive : Missive → List ℕ → Kernel U → Run (List ℕ × Kernel U)
  unfolding find_grp new_out_grp acquire_grp
  add_out_missive m out k = find_grp k.grps m.dst.owner out >>= λ found. ok (elim found [
    | none ↦ new_out_grp m out (acquire_grp k)
    | some a ↦ (out, record k { grps = put_at a (add_to_grp m (k.grps a)) k.grps })
  ])

  -- `out_msvs` is `to_workerus_work` in the manageru.
  unfoldable pub add_out : Missive → Kernel U → Run (Kernel U)
  unfolding add_out_missive
  add_out m k =
      if k.is_manageru_kernel
      then add_out_missive m k.to_workerus_work k
        >>= (λ r. ok (record r.1 { to_workerus_work = r.0 }))
      else add_out_missive m k.out_work k >>= λ r. ok (record r.1 { out_work = r.0 })

  unfoldable pub leave_local : Kernel U → Kernel U
  unfolding drop_first
  leave_local k = work 3 (record k { local_work = drop_first k.local_work })

  -- One round of the loop over `local_work`, for its first missive, which then leaves the ring.
  unfoldable pub handle_local : User U → ℕ → Missive → Sys U → Run (Sys U)
  unfolding handle_missive add_out leave_local
  handle_local usr me m s =
      (if m.dst.owner == me
        then handle_missive usr me m s
        else add_out m (s.ker me) >>= λ k. ok (at_ker me (λ _. k) s))
      >>= λ t. ok (at_ker me leave_local t)

  -- The loop, at a first missive `m` with `rest` behind it: `nxt` is read before the missive is
  -- handled, so what the last missive's handler sends waits for the next round.
  unfoldable pub local_from : User U → ℕ → ℕ → List Missive → Sys U → Run (Sys U)
  unfolding handle_local
  local_from usr zero me ms s = stopped out_of_fuel
  local_from usr (suc fuel) me [] s = ok s
  local_from usr (suc fuel) me (m ∷ []) s = handle_local usr me m s
  local_from usr (suc fuel) me (m ∷ n ∷ rest) s =
      handle_local usr me m s >>= λ t. local_from usr fuel me (t.ker me).local_work t

  -- The tests of a route that was never used: `mck_is_id_inited`, `mck_has_same_module` and
  -- `mck_has_same_sub_module`. `mck_has_module` is true whatever the module is: it compares the
  -- address of a field with null.
  unfoldable pub has_module : Kernel U → Bool
  has_module k = true

  unfoldable pub gate : Kernel U → Kernel U → Gate
  unfolding has_module
  gate mine theirs =
      if not theirs.inited
      then skip 4
      else if not (theirs.current_module_addr == mine.current_module_addr)
      then skip 5
      else if has_module mine && not (theirs.current_sub_module_id == mine.current_sub_module_id)
      then skip 6
      else pass

  -- The group goes: the writes behind `loc_dst_ack_pt = mck_busy_ack`.
  unfoldable pub send_grp : ℕ → ℕ → ℕ → Sys U → Sys U
  unfolding remove
  send_grp me dst a s =
      at_ker me
        (λ k.
          work 8 (record k { out_work = remove a k.out_work; sent_work = k.sent_work ++ a ∷ [] }))
        (at_ker dst
          (λ k. record k {
            routed_arr = put 0 me (some (record { owner = me; at = a })) k.routed_arr;
            signals_arr = put_at 0 true k.signals_arr;
          })
          (at_ker me (λ k. record k { routed_ack_arr = put 0 dst Ack.busy k.routed_ack_arr }) s))

  unfoldable pub send_by_ack : ℕ → ℕ → ℕ → Ack → Sys U → Sys U
  unfolding gate send_grp
  send_by_ack me dst a Ack.virgin s = elim (gate (s.ker me) (s.ker dst)) [
    | skip bit ↦ at_ker me (work bit) s
    | pass ↦ send_grp me dst a s
  ]
  send_by_ack me dst a Ack.ready s = send_grp me dst a s
  send_by_ack me dst a Ack.busy s = at_ker me (work 7) s

  -- The body of the loop over `out_work`.
  unfoldable pub try_send : ℕ → ℕ → Sys U → Run (Sys U)
  unfolding send_by_ack
  try_send me a s = elim ((s.ker me).grps a).all_agts [
    | [] ↦ stopped faulted
    | m ∷ ms ↦ ok (send_by_ack me m.dst.owner a ((s.ker me).routed_ack_arr 0 m.dst.owner) s)
  ]

  unfoldable pub handle_out_work : ℕ → List ℕ → Sys U → Run (Sys U)
  unfolding try_send
  handle_out_work me [] s = ok s
  handle_out_work me (a ∷ out) s = try_send me a s >>= handle_out_work me out

  -- The body of the loop over `sent_work`: a handled group is released with its missives.
  unfoldable pub release_sent : ℕ → Kernel U → Kernel U
  unfolding release_grp remove
  release_sent a k = work 9 (
      if (k.grps a).handled
      then release_grp a (record k {
        grps = put_at a (record (k.grps a) { all_agts = [] }) k.grps;
        sent_work = remove a k.sent_work;
      })
      else k)

  unfoldable pub handle_sent_work : List ℕ → Kernel U → Kernel U
  unfolding release_sent
  handle_sent_work [] k = k
  handle_sent_work (a ∷ sent) k = handle_sent_work sent (release_sent a k)
