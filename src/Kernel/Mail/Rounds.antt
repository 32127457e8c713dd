-- ===== src/Kernel/Mail/Rounds.antt =====
-- A whole `handle_missives` of a workeru keeps the mailboxes as they are to be.
use messaging_cells.Common.{
  ℕ, ◌<◌, ◌≤◌, ◌≡◌, refl, subst, true, false, ◌⊎◌, inl, inr, if◌then◌else◌, if_true, if_false,
  Bool-cases, Option, none, some,
}
use messaging_cells.Kernel.State.{
  Kernel, GrpPt, Ack, Sys, User, ok, stopped, faulted, aborted, ok-bind, ok_inj, ◌>>=◌, at_ker, put,
  work,
}
use messaging_cells.Kernel.Handlers.{call_handlers_of_group, set_ker}
use messaging_cells.Kernel.Receive.{process_signals}
use messaging_cells.Kernel.Send.{local_from, handle_out_work}
use messaging_cells.Kernel.Manageru.{
  take_from_manageru, handle_work_from_manageru, handle_work_to_workerus, handle_work_to_manageru,
}
use messaging_cells.Kernel.Round.{init_kernel, receive, send_out, finish_round, handle_missives}
use messaging_cells.Kernel.Mail.Same.{tot_workerus, Still, Still-trans, Still-at_ker, Still-other}
use messaging_cells.Kernel.Mail.Handling.{
  call_handlers_of_group-Still, handle_in_work-Still, local_from-Still, finish_round-SameMail,
  set_ker-Still,
}
use messaging_cells.Kernel.Mail.Slots.{MailOk, MailOk-Still, process_signals-MailOk}
use messaging_cells.Kernel.Mail.Sending.{handle_out_work-MailOk, handle_work_to_manageru-Still}

module _ {U : Type 0} where
  take_from_manageru-Still :
      (me : ℕ) (s : Sys U) → tot_workerus ≤ s.manageru → Still s (take_from_manageru me s)
  unfolding take_from_manageru
  take_from_manageru-Still me s l =
      Still-trans s s1 (at_ker me (λ k. work 1 k) s2)
        (Still-at_ker me (λ k. record k { routed_from_manageru = none }) s
          (record { arr = refl; ack = refl; sgnl = refl; kind = refl }))
        (Still-trans s1 s2 _
          (Still-other s.manageru
            (λ m. record m { routed_ack_arr = put 0 me Ack.ready m.routed_ack_arr }) s1 l)
          (Still-at_ker me (λ k. work 1 k) s2
            (record { arr = refl; ack = refl; sgnl = refl; kind = refl })))
    where
      s1 : Sys U
      s1 = at_ker me (λ k. record k { routed_from_manageru = none }) s

      s2 : Sys U
      s2 =
          at_ker s.manageru (λ m. record m { routed_ack_arr = put 0 me Ack.ready m.routed_ack_arr })
            s1

  -- Mailboxes where no one waits for nothing: an acknowledgement is awaited only where the group is in
  -- its slot, and a signal is up only where a slot is filled.
  pub record MailExact (s : Sys U) : Type 0 where
    pub mail : MailOk s
    pub owed :
        (i d : ℕ)
        → i < tot_workerus
        → d < tot_workerus
        → (s.ker i).routed_ack_arr 0 d ≡ Ack.busy
        → (g : GrpPt) × ((s.ker d).routed_arr 0 i ≡ some g)
    pub raised :
        (d : ℕ)
        → d < tot_workerus
        → (s.ker d).signals_arr 0 ≡ true
        → (i : ℕ) × (g : GrpPt) × ((s.ker d).routed_arr 0 i ≡ some g)

  -- When `init_kernel` has run in all kernels, whatever their memory held before, the mailboxes are
  -- well-formed, no workeru waits for the acknowledgement of a group that is in no slot, and no signal
  -- is up for empty slots, if the manageru is no workeru.
  pub init_kernel-MailExact :
      (man fst : ℕ) (k : ℕ → Kernel U)
      → tot_workerus ≤ man
      → MailExact (record { manageru = man; ker = λ i. init_kernel fst (k i) })
  unfolding init_kernel
  init_kernel-MailExact man fst k h = record {
    mail = record {
      numbered = record { man = h; kind = λ i l. refl };
      slot = λ d i g l e. cc;
      sgnl = λ d i g l e. cc;
    };
    owed = λ i d l m e. cc;
    raised = λ d l e. cc;
  }

  module _ (usr : User U) (me : ℕ) where
    handle_work_from_manageru-Still :
        (s t : Sys U)
        → tot_workerus ≤ s.manageru
        → handle_work_from_manageru usr me s ≡ ok t
        → Still s t
    unfolding handle_work_from_manageru
    handle_work_from_manageru-Still s t l h = by_slot (s.ker me).routed_from_manageru h
      where
        by_slot :
            (o : Option GrpPt)
            → elim o [
              | none ↦ stopped faulted
              | some g ↦ call_handlers_of_group usr me g (take_from_manageru me s) >>= λ t.
                  ok (at_ker me (λ k. work 15 (record k { has_from_manageru_work = false })) t)
            ]
              ≡ ok t
            → Still s t
        by_slot none e = cc
        by_slot (some g) e =
            let (r, a, b) =
              ok-bind (call_handlers_of_group usr me g (take_from_manageru me s)) _ e in
            Still-trans s (take_from_manageru me s) t (take_from_manageru-Still me s l) (
              Still-trans (take_from_manageru me s) r t
                (call_handlers_of_group-Still usr me g (take_from_manageru me s) r a)
                (subst (Still r) (ok_inj b) (
                  Still-at_ker me (λ k. work 15 (record k { has_from_manageru_work = false })) r
                    (record { arr = refl; ack = refl; sgnl = refl; kind = refl }))))

    receive-MailOk :
        (s t : Sys U) → me < tot_workerus → MailOk s → receive usr me s ≡ ok t → MailOk t
    unfolding receive
    receive-MailOk s t l m h =
        let (r, c, d) = ok-bind (process_signals me 4 0 s) _ h in
        let (q, a, b) =
          ok-bind
            (if (r.ker me).has_from_manageru_work then handle_work_from_manageru usr me r else ok r)
            _ d in
        MailOk-Still q t (handle_in_work-Still usr me (q.ker me).in_work q t b) (
          from_manageru r q (process_signals-MailOk me 4 0 s r l m c)
            (Bool-cases (r.ker me).has_from_manageru_work) a)
      where
        from_manageru :
            (r q : Sys U)
            → MailOk r
            → ((r.ker me).has_from_manageru_work ≡ true)
              ⊎ ((r.ker me).has_from_manageru_work ≡ false)
            → (if (r.ker me).has_from_manageru_work
                then handle_work_from_manageru usr me r
                else ok r)
              ≡ ok q
            → MailOk q
        from_manageru r q m (inl y) e =
            MailOk-Still r q (handle_work_from_manageru-Still r q m.numbered.man (if_true _ _ y e))
              m
        from_manageru r q m (inr y) e = subst MailOk (ok_inj (if_false _ _ y e)) m

    send_out-MailOk :
        (fuel : ℕ) (s t : Sys U)
        → me < tot_workerus
        → MailOk s
        → send_out usr fuel me s ≡ ok t
        → MailOk t
    unfolding send_out
    send_out-MailOk fuel s t l m h =
        let (r, a, b) = ok-bind (local_from usr fuel me (s.ker me).local_work s) _ h in
        let mr = MailOk-Still s r (local_from-Still usr me fuel (s.ker me).local_work s r a) m in
        let (q, c, d) =
          ok-bind
            (if (r.ker me).is_manageru_kernel
              then handle_work_to_workerus me (r.ker me).to_workerus_work r
              else ok r)
            _ b in
        let e = ok_inj (if_false _ _ (mr.numbered.kind me l) c) in
        let (p, f, g) = ok-bind (handle_out_work me (q.ker me).out_work q) _ d in
        let mp = handle_out_work-MailOk me (q.ker me).out_work q p l (subst MailOk e mr) f in
        subst MailOk (ok_inj g) (to_manageru p mp)
      where
        to_manageru :
            (p : Sys U)
            → MailOk p
            → MailOk (if (p.ker me).has_to_manageru_work then handle_work_to_manageru me p else p)
        to_manageru p m = elim (Bool-cases (p.ker me).has_to_manageru_work) [
          | inl y ↦ rw y (MailOk-Still p _ (handle_work_to_manageru-Still me p m.numbered.man) m)
          | inr y ↦ rw y m
        ]

    -- A round of a workeru that gives a state, whatever its handlers do and however it branches,
    -- leaves the mailboxes of all workerus well-formed where they were well-formed.
    pub handle_missives-MailOk :
        (fuel : ℕ) (s t : Sys U)
        → me < tot_workerus
        → MailOk s
        → handle_missives usr fuel me s ≡ ok t
        → MailOk t
    unfolding handle_missives
    handle_missives-MailOk fuel s t l m h = by_handlers (s.ker me).cell_handlers h
      where
        by_handlers :
            (o : Option ℕ)
            → elim o [
              | none ↦ stopped aborted
              | some tot ↦ receive usr me s >>= send_out usr fuel me >>= λ t.
                  set_ker me t (finish_round usr me (t.ker me))
            ]
              ≡ ok t
            → MailOk t
        by_handlers none e = cc
        by_handlers (some tot) e =
            let (q, a, b) = ok-bind (receive usr me s >>= send_out usr fuel me) _ e in
            let (r, c, d) = ok-bind (receive usr me s) _ a in
            MailOk-Still q t
              (set_ker-Still usr me q t (finish_round usr me (q.ker me))
                (finish_round-SameMail usr me (q.ker me)) b)
              (send_out-MailOk fuel r q l (receive-MailOk s r l m c) d)
