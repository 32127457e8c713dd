-- ===== src/Kernel/Receive.antt =====
-- The first part of `kernel::handle_missives`: the signals, and the groups that came in.
use messaging_cells.Common.{
  ℕ, zero, suc, ◌+◌, ◌==◌, false, if◌then◌else◌, none, some, List, [], ◌∷◌, ◌++◌,
}
use messaging_cells.Kernel.State.{
  GrpPt, Ack, Kernel, Sys, User, Run, ok, stopped, faulted, ◌>>=◌, at_ker, put, put_at, work,
}
use messaging_cells.Kernel.Handlers.{call_handlers_of_group}

-- `kernel_pw0_routed_arr_sz`, or the size of the three other arrays.
abbrev pub routed_arr_sz : ℕ → ℕ
routed_arr_sz sg = if sg == 0 then 16 else 4

module _ {U : Type 0} where
  -- The sender of `g` may send again. The manageru answers in the workeru's own word.
  unfoldable pub give_ack : ℕ → ℕ → GrpPt → Sys U → Run (Sys U)
  give_ack me sg g s =
      if (s.ker me).is_manageru_kernel
      then (if (s.ker g.owner).inited
          then ok (at_ker g.owner (λ k. record k { routed_ack_from_manageru = Ack.ready }) s)
          else stopped faulted)
      else ok (
          at_ker g.owner (λ k. record k { routed_ack_arr = put sg me Ack.ready k.routed_ack_arr })
            s)

  -- The body of the loop in `process_signal`, for the slot `aa` of the array of signal `sg`.
  unfoldable pub take_slot : ℕ → ℕ → ℕ → GrpPt → Kernel U → Kernel U
  take_slot me sg aa g k = record k {
    routed_arr = put sg aa none k.routed_arr;
    in_work = k.in_work ++ g ∷ [];
  }

  unfoldable pub process_slot : ℕ → ℕ → ℕ → Sys U → Run (Sys U)
  unfolding give_ack take_slot
  process_slot me sg aa s = elim ((s.ker me).routed_arr sg aa) [
    | none ↦ ok s
    | some g ↦
        give_ack me sg g (at_ker me (take_slot me sg aa g) s) >>= λ t. ok (at_ker me (work 1) t)
  ]

  -- `process_signal` from the slot `aa` on, for `n` slots.
  unfoldable pub process_slots : ℕ → ℕ → ℕ → ℕ → Sys U → Run (Sys U)
  unfolding process_slot
  process_slots me sg zero aa s = ok s
  process_slots me sg (suc n) aa s = process_slot me sg aa s >>= process_slots me sg n (aa + 1)

  unfoldable pub process_signal : ℕ → ℕ → Sys U → Run (Sys U)
  unfolding process_slots
  process_signal me sg s = process_slots me sg (routed_arr_sz sg) 0 s

  unfoldable pub lower_signal : ℕ → Kernel U → Kernel U
  lower_signal sg k = record k { signals_arr = put_at sg false k.signals_arr }

  -- The loop over `signals_arr`, from the signal `sg` on, for `n` signals.
  unfoldable pub process_signals : ℕ → ℕ → ℕ → Sys U → Run (Sys U)
  unfolding process_signal lower_signal
  process_signals me zero sg s = ok s
  process_signals me (suc n) sg s =
      (if (s.ker me).signals_arr sg
        then process_signal me sg (at_ker me (lower_signal sg) s)
        else ok s)
      >>= process_signals me n (sg + 1)

  -- The reference is released once its group is handled.
  unfoldable pub release_ref : List GrpPt → Kernel U → Kernel U
  release_ref gs k = work 2 (record k { in_work = gs })

  -- The loop over `in_work`.
  unfoldable pub handle_in_work : User U → ℕ → List GrpPt → Sys U → Run (Sys U)
  unfolding call_handlers_of_group release_ref
  handle_in_work usr me [] s = ok s
  handle_in_work usr me (g ∷ gs) s = call_handlers_of_group usr me g s >>= λ t.
      handle_in_work usr me gs (at_ker me (release_ref gs) t)
