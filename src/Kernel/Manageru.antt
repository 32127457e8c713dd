-- ===== src/Kernel/Manageru.antt =====
-- The work that goes through the manageru: `handle_work_to_workerus`, `handle_work_to_manageru` and
-- `handle_work_from_manageru`.
use messaging_cells.Common.{ℕ, true, false, not, if◌then◌else◌, none, some, List, [], ◌∷◌, ◌++◌}
use messaging_cells.Kernel.State.{
  Ack, Kernel, Sys, User, Run, ok, stopped, faulted, ◌>>=◌, at_ker, put, put_at, work,
}
use messaging_cells.Kernel.Calls.{acquire_grp}
use messaging_cells.Kernel.Handlers.{call_handlers_of_group}
use messaging_cells.Kernel.Send.{remove}

module _ {U : Type 0} where
  -- The group `a` goes to the workeru `dst`, whose kernel is running.
  unfoldable pub send_to_workeru : ℕ → ℕ → ℕ → Sys U → Sys U
  unfolding remove
  send_to_workeru me dst a s =
      at_ker me
        (λ k. work 13 (record k {
          to_workerus_work = remove a k.to_workerus_work;
          sent_work = k.sent_work ++ a ∷ [];
        }))
        (at_ker dst
          (λ k. record k {
            routed_from_manageru = some (record { owner = me; at = a });
            has_from_manageru_work = true;
          })
          (at_ker me (λ k. record k { routed_ack_arr = put 0 dst Ack.busy k.routed_ack_arr }) s))

  unfoldable pub to_workeru_by_ack : ℕ → ℕ → ℕ → Ack → Sys U → Sys U
  unfolding send_to_workeru
  to_workeru_by_ack me dst a Ack.busy s = at_ker me (work 12) s
  to_workeru_by_ack me dst a Ack.ready s = send_to_workeru me dst a s
  to_workeru_by_ack me dst a Ack.virgin s = send_to_workeru me dst a s

  -- The body of the loop in `handle_work_to_workerus`. `get_workeru_kernel` is null for a workeru
  -- that is not inited, so the second test of it, in the virgin case, never fails.
  unfoldable pub try_to_workeru : ℕ → ℕ → Sys U → Run (Sys U)
  unfolding to_workeru_by_ack
  try_to_workeru me a s = elim ((s.ker me).grps a).all_agts [
    | [] ↦ stopped faulted
    | m ∷ ms ↦
        (if not (s.ker m.dst.owner).inited
          then ok (at_ker me (work 10) s)
          else ok (to_workeru_by_ack me m.dst.owner a ((s.ker me).routed_ack_arr 0 m.dst.owner) s))
  ]

  unfoldable pub handle_work_to_workerus : ℕ → List ℕ → Sys U → Run (Sys U)
  unfolding try_to_workeru
  handle_work_to_workerus me [] s = ok s
  handle_work_to_workerus me (a ∷ out) s = try_to_workeru me a s >>= handle_work_to_workerus me out

  -- All that waits in `to_manageru_work` goes in one new group.
  unfoldable pub fill_grp : ℕ → Kernel U → Kernel U
  fill_grp a k = record k {
    grps =
        put_at a (record (k.grps a) { all_agts = (k.grps a).all_agts ++ k.to_manageru_work })
          k.grps;
    to_manageru_work = [];
    sent_work = k.sent_work ++ a ∷ [];
    has_to_manageru_work = false;
    routed_ack_from_manageru = Ack.busy;
  }

  unfoldable pub send_to_manageru_grp : ℕ → ℕ × Kernel U → Sys U → Sys U
  unfolding fill_grp
  send_to_manageru_grp me (a, k) s =
      at_ker s.manageru
        (λ m. record m {
          routed_arr = put 0 me (some (record { owner = me; at = a })) m.routed_arr;
          signals_arr = put_at 0 true m.signals_arr;
        })
        (at_ker me (λ _. fill_grp a k) s)

  unfoldable pub handle_work_to_manageru : ℕ → Sys U → Sys U
  unfolding send_to_manageru_grp acquire_grp
  handle_work_to_manageru me s = elim (s.ker me).routed_ack_from_manageru [
    | Ack.ready ↦ send_to_manageru_grp me (acquire_grp (s.ker me)) s
    | Ack.busy ↦ at_ker me (work 14) s
    | Ack.virgin ↦ at_ker me (work 14) s
  ]

  -- `process_signal` on the one slot `routed_from_manageru`, whose acknowledgement is the word of
  -- the manageru for this workeru; then the group, and at last the flag. A raised flag over an empty
  -- slot leaves `from_manageru_work` empty, and the code then reads the grip as a reference.
  unfoldable pub take_from_manageru : ℕ → Sys U → Sys U
  take_from_manageru me s =
      at_ker me (λ k. work 1 k)
        (at_ker s.manageru (λ m. record m { routed_ack_arr = put 0 me Ack.ready m.routed_ack_arr })
          (at_ker me (λ k. record k { routed_from_manageru = none }) s))

  unfoldable pub handle_work_from_manageru : User U → ℕ → Sys U → Run (Sys U)
  unfolding take_from_manageru call_handlers_of_group
  handle_work_from_manageru usr me s = elim (s.ker me).routed_from_manageru [
    | none ↦ stopped faulted
    | some g ↦ call_handlers_of_group usr me g (take_from_manageru me s) >>= λ t.
        ok (at_ker me (λ k. work 15 (record k { has_from_manageru_work = false })) t)
  ]
