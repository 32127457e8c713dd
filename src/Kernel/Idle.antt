-- ===== src/Kernel/Idle.antt =====
-- The end of `run_sys` in the root of the load map.
use messaging_cells.Common.{
  ℕ, suc, ◌≡◌, ◌≢◌, refl, true, false, none, some, List, [], ◌∷◌, ◌++◌, map, append-nil,
  append_assoc, sym, ap, ◌∙◌, Bool-cases, inl, inr, length, arith,
}
use messaging_cells.Kernel.State.{Missive, Kernel, Sys, User, stop_sys, ok, at_ker, ker-at_ker_self}
use messaging_cells.Kernel.Calls.{send_missive, do_calls, do_call}
use messaging_cells.Kernel.Handlers.{
  tok_stop_sys_to_children, first_cell_of, send_stop_to, send_stop_to_children, user_calls,
}
use messaging_cells.Kernel.Round.{
  handle_missives, finish_run, run_round, receive, send_out, finish_round, handle_stop,
}

-- Nothing has come in, nothing waits, nothing is unacknowledged.
pub record IsIdle {U : Type 0} (k : Kernel U) : Type 0 where
  pub signals : (sg : ℕ) → k.signals_arr sg ≡ false
  pub from_manageru : k.has_from_manageru_work ≡ false
  pub to_manageru : k.has_to_manageru_work ≡ false
  pub to_workerus : k.to_workerus_work ≡ []
  pub in_none : k.in_work ≡ []
  pub local_none : k.local_work ≡ []
  pub out_none : k.out_work ≡ []
  pub sent_none : k.sent_work ≡ []

module _ {U : Type 0} (usr : User U) (me : ℕ) where
  receive-idle : (s : Sys U) → IsIdle (s.ker me) → receive usr me s ≡ ok s
  unfolding receive
  receive-idle s i =
      rw (i.signals 0, i.signals 1, i.signals 2, i.signals 3, i.from_manageru, i.in_none)

  send_out-idle : (fuel : ℕ) (s : Sys U) → IsIdle (s.ker me) → send_out usr (suc fuel) me s ≡ ok s
  unfolding send_out
  send_out-idle fuel s i = elim (Bool-cases (s.ker me).is_manageru_kernel) [
    | inl e ↦ rw (i.local_none, e, i.to_workerus, i.out_none, i.to_manageru)
    | inr e ↦ rw (i.local_none, e, i.out_none, i.to_manageru)
  ]

  -- The missive that tells the workeru `c` to stop.
  pub stop_missive : Kernel U → ℕ → Missive
  unfolding first_cell_of
  stop_missive k c = record {
    dst = first_cell_of c k;
    src = first_cell_of me k;
    tok = tok_stop_sys_to_children;
  }

  send_stop_to-map :
      (cs : List ℕ) (k : Kernel U)
      → send_stop_to me cs k ≡ record k { local_work = k.local_work ++ map (stop_missive k) cs }
  unfolding send_stop_to stop_missive
  send_stop_to-map [] k = λ i. record k { local_work = sym (append-nil k.local_work) i }
  send_stop_to-map (c ∷ cs) k = send_stop_to-map cs (send_missive (stop_missive k c) k) ∙ (λ i.
      record k {
        local_work = append_assoc k.local_work (stop_missive k c ∷ []) (map (stop_missive k) cs) i;
      })

  -- A root whose children have all asked for the stop, and whose program asks for it now, outside
  -- every handler.
  pub record IsStopping (k : Kernel U) (key : ℕ) (u v : U) : Type 0 where
    pub idle : IsIdle k
    pub handlers : (tot : ℕ) × (k.cell_handlers ≡ some tot)
    pub root : k.parent ≡ none
    pub running : k.stop_key ≡ 0
    pub asked : k.rcvd_stop_key ≡ key
    pub unsent : k.sent_stop_to_parent ≡ false
    pub all_asked : k.num_childs_stopping ≡ length k.childs
    pub proper : key ≢ 0
    pub asks : usr.user_func k.user ≡ (u, stop_sys key ∷ [])
    pub quiet : usr.user_stop_func u ≡ (v, [])

  -- What the round then leaves.
  stopped_root : Kernel U → ℕ → U → Kernel U
  unfolding stop_missive
  stopped_root k key v = record k {
    local_work = map (stop_missive k) k.childs;
    user = v;
    stop_key = key;
    sent_stop_to_parent = true;
    exit_when_idle = true;
  }

  asks_stop :
      (k : Kernel U) (key : ℕ) (u : U)
      → key ≢ 0
      → k.stop_key ≡ 0
      → k.rcvd_stop_key ≡ key
      → user_calls usr (u, stop_sys key ∷ []) k ≡ ok (record k { user = u; stop_key = key })
  unfolding user_calls do_call
  asks_stop k key u n e f = ground arith

  root_stops :
      (k : Kernel U) (u v : U)
      → k.user ≡ u
      → k.parent ≡ none
      → k.local_work ≡ []
      → k.sent_stop_to_parent ≡ false
      → k.num_childs_stopping ≡ length k.childs
      → usr.user_stop_func u ≡ (v, [])
      → handle_stop usr me k ≡ ok (stopped_root k k.stop_key v)
  unfolding handle_stop stopped_root send_stop_to_children do_calls stop_missive
  root_stops k u v eu ep el es en eq =
      ground (arith, send_stop_to-map k.childs (record k { user = v; sent_stop_to_parent = true }))

  finish_round-stopping :
      (k : Kernel U) (key : ℕ) (u v : U)
      → IsStopping k key u v
      → finish_round usr me k ≡ ok (stopped_root k key v)
  unfolding finish_round stopped_root
  finish_round-stopping k key u v h = ground (
    arith,
    asks_stop k key u h.proper h.running h.asked,
    root_stops (record k { user = u; stop_key = key }) u v refl h.root h.idle.local_none h.unsent
        h.all_asked h.quiet,
  )

  clear_work : Kernel U → Kernel U
  clear_work k = record k { did_work = [] }

  handle_missives-parts :
      (fuel tot : ℕ) (s a b : Sys U) (k : Kernel U)
      → (s.ker me).cell_handlers ≡ some tot
      → receive usr me s ≡ ok a
      → send_out usr fuel me a ≡ ok b
      → finish_round usr me (b.ker me) ≡ ok k
      → handle_missives usr fuel me s ≡ ok (at_ker me (λ _. k) b)
  unfolding handle_missives
  handle_missives-parts fuel tot s a b k e f g h = ground arith

  run_round-ends :
      (fuel : ℕ) (s t : Sys U)
      → handle_missives usr fuel me (at_ker me clear_work s) ≡ ok t
      → (t.ker me).did_work ≡ []
      → (t.ker me).exit_when_idle ≡ true
      → run_round usr fuel me s ≡ ok (true, at_ker me finish_run t)
  unfolding run_round clear_work
  run_round-ends fuel s t e f g = ground arith

  clear_work-IsStopping :
      (k : Kernel U) (key : ℕ) (u v : U) → IsStopping k key u v → IsStopping (clear_work k) key u v
  unfolding clear_work
  clear_work-IsStopping k key u v h = record {
    idle = record {
      signals = h.idle.signals;
      from_manageru = h.idle.from_manageru;
      to_manageru = h.idle.to_manageru;
      to_workerus = h.idle.to_workerus;
      in_none = h.idle.in_none;
      local_none = h.idle.local_none;
      out_none = h.idle.out_none;
      sent_none = h.idle.sent_none;
    };
    handlers = h.handlers;
    root = h.root;
    running = h.running;
    asked = h.asked;
    unsent = h.unsent;
    all_asked = h.all_asked;
    proper = h.proper;
    asks = h.asks;
    quiet = h.quiet;
  }

  ended :
      (k : Kernel U) (key : ℕ) (v : U)
      → (((stopped_root (clear_work k) key v).did_work ≡ [])
          × ((stopped_root (clear_work k) key v).exit_when_idle ≡ true))
        × (((finish_run (stopped_root (clear_work k) key v)).inited ≡ false)
            × ((finish_run (stopped_root (clear_work k) key v)).local_work
                ≡ map (stop_missive k) k.childs))
  unfolding stopped_root clear_work finish_run stop_missive
  ended k key v = ((refl, refl), (refl, refl))

  -- Where the program of an idle root asks for the stop from `user_func`, after all children have
  -- asked, `run_sys` ends in that round, and the missives that tell the children to stop are still
  -- in `local_work`, one for each.
  pub root_stop_unsent :
      (fuel : ℕ) (s : Sys U) (key : ℕ) (u v : U)
      → IsStopping (s.ker me) key u v
      → (t : Sys U) × (run_round usr (suc fuel) me s ≡ ok (true, t))
        × ((t.ker me).inited ≡ false)
        × ((t.ker me).local_work ≡ map (stop_missive (s.ker me)) (s.ker me).childs)
  root_stop_unsent fuel s key u v h =
      let s0 = at_ker me clear_work s in
      let e0 : s0.ker me ≡ clear_work (s.ker me) = ker-at_ker_self me clear_work s in
      let h0 : IsStopping (clear_work (s.ker me)) key u v =
        clear_work-IsStopping (s.ker me) key u v h in
      let h1 : IsStopping (s0.ker me) key u v = rw e0 h0 in
      let k = stopped_root (clear_work (s.ker me)) key v in
      let t = at_ker me (λ _. k) s0 in
      let e1 : t.ker me ≡ k = ker-at_ker_self me (λ _. k) s0 in
      let ran : handle_missives usr (suc fuel) me s0 ≡ ok t =
        handle_missives-parts (suc fuel) h1.handlers.0 s0 s0 s0 k h1.handlers.1
          (receive-idle s0 h1.idle) (send_out-idle fuel s0 h1.idle)
          (rw e0 (finish_round-stopping (clear_work (s.ker me)) key u v h0)) in
      let (e2, e3) = ended (s.ker me) key v in
      let e4 = ker-at_ker_self me finish_run t in
      (
        at_ker me finish_run t,
        run_round-ends (suc fuel) s t ran (ap (λ j. j.did_work) e1 ∙ e2.0)
            (ap (λ j. j.exit_when_idle) e1 ∙ e2.1),
        ap (λ j. j.inited) (e4 ∙ ap finish_run e1) ∙ e3.0,
        ap (λ j. j.local_work) (e4 ∙ ap finish_run e1) ∙ e3.1,
      )
