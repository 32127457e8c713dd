-- ===== src/Kernel/Calls.antt =====
-- What a handler may ask of the kernel that runs it: `missive::send`, `missive::send_to_manageru`,
-- `kernel::stop_sys` and `kernel::set_idle_exit`; and the pool of groups.
use messaging_cells.Common.{
  ℕ, ◌+◌, ◌==◌, true, false, not, ◌&&◌, if◌then◌else◌, List, [], ◌∷◌, ◌++◌,
}
use messaging_cells.Kernel.State.{
  Missive, Kernel, Call, send, send_to_manageru, stop_sys, set_idle_exit, Run, ok, stopped, aborted,
  ◌>>=◌, put_at,
}

module _ {U : Type 0} where
  -- `MCK_KERNEL->local_work.bind_to_my_left(*this)`
  unfoldable pub send_missive : Missive → Kernel U → Kernel U
  send_missive m k = record k { local_work = k.local_work ++ m ∷ [] }

  unfoldable pub send_missive_to_manageru : Missive → Kernel U → Kernel U
  unfolding send_missive
  send_missive_to_manageru m k =
      if k.is_manageru_kernel
      then send_missive m k
      else record k { to_manageru_work = k.to_manageru_work ++ m ∷ []; has_to_manageru_work = true }

  -- `kernel::stop_sys`
  unfoldable pub stop_sys_key : ℕ → Kernel U → Run (Kernel U)
  stop_sys_key key k =
      if key == 0
      then stopped aborted
      else if not (k.stop_key == 0)
      then (if not (k.stop_key == key) then stopped aborted else ok k)
      else if not (k.rcvd_stop_key == 0) && not (k.rcvd_stop_key == key)
      then stopped aborted
      else ok (record k { stop_key = key })

  unfoldable pub do_call : Call → Kernel U → Run (Kernel U)
  unfolding send_missive send_missive_to_manageru stop_sys_key
  do_call (send m) k = ok (send_missive m k)
  do_call (send_to_manageru m) k = ok (send_missive_to_manageru m k)
  do_call (stop_sys key) k = stop_sys_key key k
  do_call set_idle_exit k = ok (record k { exit_when_idle = true })

  unfoldable pub do_calls : List Call → Kernel U → Run (Kernel U)
  do_calls [] k = ok k
  do_calls (c ∷ cs) k = do_call c k >>= do_calls cs

  -- `mc_agent_grp_acquire()`: `do_acquire` of one group. With none available `separate` first
  -- makes one more available.
  unfoldable pub separate_grp : Kernel U → Kernel U
  separate_grp k = record k {
    grps = put_at k.next_grp (record { all_agts = []; handled = false }) k.grps;
    available_grps = k.available_grps ++ k.next_grp ∷ [];
    next_grp = k.next_grp + 1;
  }

  unfoldable pub acquire_grp : Kernel U → ℕ × Kernel U
  unfolding separate_grp
  acquire_grp k = elim k.available_grps [
    | [] ↦ (k.next_grp, record (separate_grp k) { available_grps = [] })
    | a ∷ rest ↦ (a, record k { available_grps = rest })
  ]

  -- `agent::release` of a group that is in no other ring: `init_me`, and back to the available ones.
  unfoldable pub release_grp : ℕ → Kernel U → Kernel U
  release_grp a k = record k {
    grps = put_at a (record (k.grps a) { handled = false }) k.grps;
    available_grps = k.available_grps ++ a ∷ [];
  }
