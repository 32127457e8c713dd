-- ===== src/Kernel/Handlers.antt =====
-- The handling of one missive, and of a group of them, by the kernel number `me`.
use messaging_cells.Common.{
  ℕ, ◌+◌, ◌%◌, ◌^◌, ◌==◌, ltb, not, true, if◌then◌else◌, none, some, List, [], ◌∷◌,
}
use messaging_cells.Kernel.State.{
  CellPt, Missive, GrpPt, Kernel, Sys, User, Call, Run, ok, stopped, aborted, faulted, ◌>>=◌,
  at_ker, put_at,
}
use messaging_cells.Kernel.Calls.{send_missive, do_calls}

-- `mck_tot_base_cell_classes`, and the two tokens of `kernel_tok_t` that are sent.
abbrev pub tot_base_cell_classes : ℕ
tot_base_cell_classes = 6

abbrev pub tok_stop_sys_to_parent : ℕ
tok_stop_sys_to_parent = 1

abbrev pub tok_stop_sys_to_children : ℕ
tok_stop_sys_to_children = 2

module _ {U : Type 0} where
  -- `get_first_cell(id)` of a workeru: the first cells have one address in all of them.
  unfoldable pub first_cell_of : ℕ → Kernel U → CellPt
  first_cell_of i k = record { owner = i; at = k.first_cell }

  unfoldable pub send_stop_to : ℕ → List ℕ → Kernel U → Kernel U
  unfolding first_cell_of send_missive
  send_stop_to me [] k = k
  send_stop_to me (c ∷ cs) k = send_stop_to me cs (
      send_missive
        (record {
          dst = first_cell_of c k;
          src = first_cell_of me k;
          tok = tok_stop_sys_to_children;
        })
        k)

  unfoldable pub send_stop_to_children : ℕ → Kernel U → Kernel U
  unfolding send_stop_to
  send_stop_to_children me k = record (send_stop_to me k.childs k) { exit_when_idle = true }

  -- `kernel::handle_stop`, behind the call of `user_stop_func`.
  unfoldable pub tell_parent : ℕ → Kernel U → Kernel U
  unfolding first_cell_of send_missive send_stop_to_children
  tell_parent me k = elim k.parent [
    | none ↦ send_stop_to_children me k
    | some p ↦
        send_missive
          (record {
            dst = first_cell_of p k;
            src = first_cell_of me k;
            tok = tok_stop_sys_to_parent;
          })
          k
  ]

  -- `kernel_first_cell_msv_handler`; `rem_key` is the stop key of the kernel that sent the missive.
  unfoldable pub kernel_first_cell_msv_handler : ℕ → ℕ → Missive → Kernel U → Run (Kernel U)
  unfolding send_stop_to_children
  kernel_first_cell_msv_handler me rem_key msv k =
      if msv.tok == tok_stop_sys_to_parent
      then (let rcvd = if k.rcvd_stop_key == 0 then rem_key else k.rcvd_stop_key in
          if not (rcvd == rem_key)
          then stopped aborted
          else ok (record k {
            rcvd_stop_key = rcvd;
            num_childs_stopping = (k.num_childs_stopping + 1) % 2 ^ 32;
          }))
      else if msv.tok == tok_stop_sys_to_children
      then ok (send_stop_to_children me k)
      else stopped aborted

  unfoldable pub mark_handled : ℕ → Kernel U → Kernel U
  mark_handled a k = record k { grps = put_at a (record (k.grps a) { handled = true }) k.grps }

  unfoldable pub set_handled : GrpPt → Sys U → Sys U
  unfolding mark_handled
  set_handled g s = at_ker g.owner (mark_handled g.at) s

  unfoldable pub set_ker : ℕ → Sys U → Run (Kernel U) → Run (Sys U)
  set_ker me s r = r >>= λ k. ok (at_ker me (λ _. k) s)

  module _ (usr : User U) where
    unfoldable pub user_calls : U × List Call → Kernel U → Run (Kernel U)
    unfolding do_calls
    user_calls (u, cs) k = do_calls cs (record k { user = u })

    -- `mck_handle_missive_base` with the array of handlers as `set_cell_handlers` leaves it: the
    -- last one does nothing, number 1 is the kernel's, the other base classes have a null one.
    unfoldable pub call_handler : ℕ → ℕ → ℕ → ℕ → Missive → Kernel U → Run (Kernel U)
    unfolding user_calls kernel_first_cell_msv_handler
    call_handler me rem_key tot idx msv k =
        if not (ltb idx tot)
        then ok k
        else if idx + 1 == tot
        then ok k
        else if idx == 1
        then kernel_first_cell_msv_handler me rem_key msv k
        else if ltb idx tot_base_cell_classes
        then stopped faulted
        else user_calls (usr.handle k.user idx msv) k

    -- `mck_handle_missive`
    unfoldable pub handle_missive : ℕ → Missive → Sys U → Run (Sys U)
    unfolding call_handler set_ker
    handle_missive me msv s = elim (s.ker me).cell_handlers [
      | none ↦ stopped faulted
      | some tot ↦ set_ker me s (
          call_handler me (s.ker msv.src.owner).stop_key tot
            ((s.ker msv.dst.owner).handler_idx msv.dst.at) msv (s.ker me))
    ]

    unfoldable pub handle_all : ℕ → List Missive → Sys U → Run (Sys U)
    handle_all me [] s = ok s
    handle_all me (m ∷ ms) s = handle_missive me m s >>= handle_all me ms

    -- `call_handlers_of_group`: the missives are read from the memory of the workeru that sent them.
    unfoldable pub call_handlers_of_group : ℕ → GrpPt → Sys U → Run (Sys U)
    unfolding handle_all set_handled
    call_handlers_of_group me g s =
        handle_all me ((s.ker g.owner).grps g.at).all_agts s >>= λ t. ok (set_handled g t)
