-- ===== src/Kernel/Round.antt =====
-- `kernel::handle_missives`, and what surrounds a round: `handle_stop`, `run_sys` and the manageru's
-- `handle_manageru_missives`.
use messaging_cells.Common.{
  ℕ, ◌==◌, Bool, true, false, not, ◌&&◌, if◌then◌else◌, none, some, [], ◌∷◌, length,
}
use messaging_cells.Kernel.State.{Ack, Kernel, Sys, User, Run, ok, stopped, aborted, ◌>>=◌, at_ker}
use messaging_cells.Kernel.Handlers.{tell_parent, user_calls, set_ker}
use messaging_cells.Kernel.Receive.{process_signals, handle_in_work}
use messaging_cells.Kernel.Send.{local_from, handle_out_work, handle_sent_work}
use messaging_cells.Kernel.Manageru.{
  handle_work_to_workerus, handle_work_to_manageru, handle_work_from_manageru,
}

module _ {U : Type 0} where
  -- `init_router_ack_arrays`
  unfoldable pub init_router_ack_arrays : Kernel U → Kernel U
  init_router_ack_arrays k = record k { routed_ack_arr = λ sg i. Ack.virgin }

  -- `reset_stop_sys`
  unfoldable pub reset_stop_sys : Kernel U → Kernel U
  reset_stop_sys k = record k {
    stop_key = 0;
    sent_stop_to_parent = false;
    rcvd_stop_key = 0;
    num_childs_stopping = 0;
  }

  -- `init_kernel`, in the memory `k`, where the first cell is acquired at the address `fst`. The grips
  -- are empty, since their constructor has run. What the kernel reads of the system's state is as it
  -- was.
  unfoldable pub init_kernel : ℕ → Kernel U → Kernel U
  unfolding init_router_ack_arrays reset_stop_sys
  init_kernel fst k = reset_stop_sys (
      init_router_ack_arrays (record k {
        is_manageru_kernel = false;
        cell_handlers = none;
        signals_arr = λ sg. false;
        routed_arr = λ sg i. none;
        routed_from_manageru = none;
        routed_ack_from_manageru = Ack.ready;
        has_from_manageru_work = false;
        has_to_manageru_work = false;
        to_workerus_work = [];
        to_manageru_work = [];
        in_work = [];
        local_work = [];
        out_work = [];
        sent_work = [];
        available_grps = [];
        first_cell = fst;
        manageru_running = false;
        did_work = 0 ∷ [];
        exit_when_idle = false;
      }))

  -- `finish_run`
  unfoldable pub finish_run : Kernel U → Kernel U
  unfolding init_router_ack_arrays
  finish_run k = init_router_ack_arrays (record k { inited = false })

  module _ (usr : User U) where
    -- `handle_stop`, called with a stop key that is not 0.
    unfoldable pub handle_stop : ℕ → Kernel U → Run (Kernel U)
    unfolding tell_parent user_calls
    handle_stop me k =
        if not k.sent_stop_to_parent && k.num_childs_stopping == length k.childs
        then user_calls usr (usr.user_stop_func k.user) k
          >>= (λ j. ok (tell_parent me (record j { sent_stop_to_parent = true })))
        else ok k

    unfoldable pub receive : ℕ → Sys U → Run (Sys U)
    unfolding process_signals handle_work_from_manageru handle_in_work
    receive me s = process_signals me 4 0 s >>= λ t.
        (if (t.ker me).has_from_manageru_work then handle_work_from_manageru usr me t else ok t)
        >>= λ r. handle_in_work usr me (r.ker me).in_work r

    unfoldable pub send_out : ℕ → ℕ → Sys U → Run (Sys U)
    unfolding local_from handle_work_to_workerus handle_out_work handle_work_to_manageru
    send_out fuel me s = local_from usr fuel me (s.ker me).local_work s >>= λ t.
        (if (t.ker me).is_manageru_kernel
          then handle_work_to_workerus me (t.ker me).to_workerus_work t
          else ok t)
        >>= λ r. handle_out_work me (r.ker me).out_work r >>= λ q.
            ok (if (q.ker me).has_to_manageru_work then handle_work_to_manageru me q else q)

    unfoldable pub finish_round : ℕ → Kernel U → Run (Kernel U)
    unfolding handle_sent_work user_calls handle_stop
    finish_round me k =
        (let j = handle_sent_work k.sent_work k in user_calls usr (usr.user_func j.user) j) >>= λ j.
        if not (j.stop_key == 0) then handle_stop me j else ok j

    -- `handle_missives`, in a build without debug code.
    unfoldable pub handle_missives : ℕ → ℕ → Sys U → Run (Sys U)
    unfolding receive send_out finish_round set_ker
    handle_missives fuel me s = elim (s.ker me).cell_handlers [
      | none ↦ stopped aborted
      | some tot ↦
          receive me s >>= send_out fuel me >>= λ t. set_ker me t (finish_round me (t.ker me))
    ]

    -- One round of the loop in `run_sys`: `true` means that the loop ends.
    unfoldable pub run_round : ℕ → ℕ → Sys U → Run (Bool × Sys U)
    unfolding handle_missives finish_run
    run_round fuel me s =
        handle_missives fuel me (at_ker me (λ k. record k { did_work = [] }) s) >>= λ t.
        elim (t.ker me).did_work [
          | [] ↦
              ok (if (t.ker me).exit_when_idle then (true, at_ker me finish_run t) else (false, t))
          | b ∷ bs ↦ ok (false, t)
        ]

    -- `handle_manageru_missives`
    unfoldable pub handle_manageru_missives : ℕ → Sys U → Run (Sys U)
    unfolding handle_missives
    handle_manageru_missives fuel s =
        if not (s.ker s.manageru).manageru_running
        then ok s
        else handle_missives fuel s.manageru (at_ker s.manageru (λ k. record k { did_work = [] }) s)
          >>= λ t. elim (t.ker s.manageru).did_work [
            | [] ↦ ok (
                if (t.ker s.manageru).exit_when_idle
                then at_ker s.manageru (λ k. record k { manageru_running = false }) t
                else t)
            | b ∷ bs ↦ ok t
          ]
