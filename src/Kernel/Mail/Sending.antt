-- ===== src/Kernel/Mail/Sending.antt =====
-- `handle_out_work` puts groups into the slots of the workerus.
use messaging_cells.Common.{
  ℕ, ◌<◌, ◌≤◌, ◌≡◌, ◌≢◌, sym, refl, ap, subst, ◌∙◌, true, ◌⊎◌, inl, inr, eq-or-ne, Option-cases,
  none, some, List, [], ◌∷◌, arith,
}
use messaging_cells.Kernel.State.{
  Missive, GrpPt, Ack, Kernel, Sys, ok, stopped, faulted, ok-bind, ok_inj, at_ker, put, put_at,
  work,
}
use messaging_cells.Kernel.Calls.{acquire_grp, separate_grp}
use messaging_cells.Kernel.Send.{
  gate, Gate, pass, skip, send_grp, send_by_ack, try_send, handle_out_work,
}
use messaging_cells.Kernel.Manageru.{fill_grp, send_to_manageru_grp, handle_work_to_manageru}
use messaging_cells.Kernel.Mail.Same.{
  tot_workerus, SameMail, Still, Still-trans, Still-at_ker, Still-other,
}
use messaging_cells.Kernel.Mail.Slots.{Waiting, MailOk, MailOk-Still}

module _ {U : Type 0} where
  -- Where the mailboxes are as `MailOk` says, a workeru that does not wait for an acknowledgement
  -- finds its slot empty: no group is ever written over.
  pub slot-none :
      (s : Sys U) (me dst : ℕ)
      → MailOk s
      → dst < tot_workerus
      → (s.ker me).routed_ack_arr 0 dst ≢ Ack.busy
      → (s.ker dst).routed_arr 0 me ≡ none
  slot-none s me dst m l n = elim (Option-cases ((s.ker dst).routed_arr 0 me)) [
    | inl e ↦ e
    | inr (g, e) ↦ absurd (n (m.slot dst me g l e).busy)
  ]

  send_grp-MailOk :
      (me dst a : ℕ) (s : Sys U) → me < tot_workerus → MailOk s → MailOk (send_grp me dst a s)
  unfolding send_grp
  send_grp-MailOk me dst a s l m = record {
    numbered = record { man = m.numbered.man; kind = λ i b. ground (arith, m.numbered.kind i b) };
    slot = λ d i x b f. here d i x b f (before d i x f);
    sgnl = λ d i x b f. raised d i x b f (before d i x f);
  }
    where
      t : Sys U
      t = send_grp me dst a s

      before :
          (d i : ℕ) (x : GrpPt)
          → (t.ker d).routed_arr 0 i ≡ some x
          → ((d ≡ dst) × (i ≡ me) × (x ≡ record { owner = me; at = a }))
            ⊎ ((s.ker d).routed_arr 0 i ≡ some x)
      before d i x f = elim (eq-or-ne d dst) [
        | inr n ↦ inr (ground (arith, n, f))
        | inl y ↦ elim (eq-or-ne i me) [
          | inr n ↦ inr (ground (arith, n, y, f))
          | inl z ↦ inl (y, z, ground (arith, y, z, f))
        ]
      ]

      here :
          (d i : ℕ) (x : GrpPt)
          → d < tot_workerus
          → (t.ker d).routed_arr 0 i ≡ some x
          → ((d ≡ dst) × (i ≡ me) × (x ≡ record { owner = me; at = a }))
            ⊎ ((s.ker d).routed_arr 0 i ≡ some x)
          → Waiting t d i x
      here d i x b f (inl (p, q, r)) = record {
        bound = ground (arith);
        home = ap (λ x. x.owner) r ∙ sym q;
        busy = ground (arith, f);
      }
      here d i x b f (inr e) =
          let w = m.slot d i x b e in
          record { bound = w.bound; home = w.home; busy = ground (arith, w.busy) }

      raised :
          (d i : ℕ) (x : GrpPt)
          → d < tot_workerus
          → (t.ker d).routed_arr 0 i ≡ some x
          → ((d ≡ dst) × (i ≡ me) × (x ≡ record { owner = me; at = a }))
            ⊎ ((s.ker d).routed_arr 0 i ≡ some x)
          → (t.ker d).signals_arr 0 ≡ true
      raised d i x b f (inl (p, q, r)) = ground arith
      raised d i x b f (inr e) = ground (arith, m.sgnl d i x b e)

  send_by_ack-MailOk :
      (me dst a : ℕ) (c : Ack) (s : Sys U)
      → me < tot_workerus
      → MailOk s
      → MailOk (send_by_ack me dst a c s)
  unfolding send_by_ack
  send_by_ack-MailOk me dst a Ack.virgin s l m = by_gate (gate (s.ker me) (s.ker dst))
    where
      by_gate :
          (g : Gate)
          → MailOk (elim g [ skip bit ↦ at_ker me (work bit) s | pass ↦ send_grp me dst a s ])
      by_gate (skip bit) =
          MailOk-Still s _
            (Still-at_ker me (work bit) s
              (record { arr = refl; ack = refl; sgnl = refl; kind = refl }))
            m
      by_gate pass = send_grp-MailOk me dst a s l m
  send_by_ack-MailOk me dst a Ack.ready s l m = send_grp-MailOk me dst a s l m
  send_by_ack-MailOk me dst a Ack.busy s l m =
      MailOk-Still s _
        (Still-at_ker me (work 7) s (record { arr = refl; ack = refl; sgnl = refl; kind = refl })) m

  pub try_send-MailOk :
      (me a : ℕ) (s t : Sys U) → me < tot_workerus → MailOk s → try_send me a s ≡ ok t → MailOk t
  unfolding try_send
  try_send-MailOk me a s t l m h = of_first ((s.ker me).grps a).all_agts h
    where
      of_first :
          (ms : List Missive)
          → elim ms [
            | [] ↦ stopped faulted
            | x ∷ xs ↦ ok (send_by_ack me x.dst.owner a ((s.ker me).routed_ack_arr 0 x.dst.owner) s)
          ]
            ≡ ok t
          → MailOk t
      of_first [] e = cc
      of_first (x ∷ xs) e = subst MailOk (ok_inj e) (send_by_ack-MailOk me x.dst.owner a _ s l m)

  pub handle_out_work-MailOk :
      (me : ℕ) (out : List ℕ) (s t : Sys U)
      → me < tot_workerus
      → MailOk s
      → handle_out_work me out s ≡ ok t
      → MailOk t
  unfolding handle_out_work
  handle_out_work-MailOk me [] s t l m h = subst MailOk (ok_inj h) m
  handle_out_work-MailOk me (a ∷ out) s t l m h =
      let (r, e, f) = ok-bind (try_send me a s) _ h in
      handle_out_work-MailOk me out r t l (try_send-MailOk me a s r l m e) f

  acquire_grp-SameMail : (k : Kernel U) → SameMail k (acquire_grp k).1
  unfolding acquire_grp separate_grp
  acquire_grp-SameMail k = ground arith

  pub handle_work_to_manageru-Still :
      (me : ℕ) (s : Sys U) → tot_workerus ≤ s.manageru → Still s (handle_work_to_manageru me s)
  unfolding handle_work_to_manageru send_to_manageru_grp fill_grp
  handle_work_to_manageru-Still me s l = by_ack (s.ker me).routed_ack_from_manageru
    where
      filled : (p : ℕ × Kernel U) → SameMail (s.ker me) p.1 → SameMail (s.ker me) (fill_grp p.0 p.1)
      filled p h = record { arr = h.arr; ack = h.ack; sgnl = h.sgnl; kind = h.kind }

      sent : (p : ℕ × Kernel U) → SameMail (s.ker me) p.1 → Still s (send_to_manageru_grp me p s)
      sent (a, k) h =
          Still-trans s (at_ker me (λ _. fill_grp a k) s) _
            (Still-at_ker me (λ _. fill_grp a k) s (filled (a, k) h))
            (Still-other s.manageru
              (λ x. record x {
                routed_arr = put 0 me (some (record { owner = me; at = a })) x.routed_arr;
                signals_arr = put_at 0 true x.signals_arr;
              })
              (at_ker me (λ _. fill_grp a k) s) l)

      by_ack :
          (c : Ack)
          → Still s (elim c [
            | Ack.ready ↦ send_to_manageru_grp me (acquire_grp (s.ker me)) s
            | Ack.busy ↦ at_ker me (work 14) s
            | Ack.virgin ↦ at_ker me (work 14) s
          ])
      by_ack Ack.ready = sent (acquire_grp (s.ker me)) (acquire_grp-SameMail (s.ker me))
      by_ack Ack.busy =
          Still-at_ker me (work 14) s (record { arr = refl; ack = refl; sgnl = refl; kind = refl })
      by_ack Ack.virgin =
          Still-at_ker me (work 14) s (record { arr = refl; ack = refl; sgnl = refl; kind = refl })
