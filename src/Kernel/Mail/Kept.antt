-- ===== src/Kernel/Mail/Kept.antt =====
-- What is in a slot when `handle_out_work` begins is there when it ends.
use messaging_cells.Common.{
  ℕ, ◌<◌, ◌≡◌, ◌≢◌, refl, subst, inl, inr, eq-or-ne, some, List, [], ◌∷◌, arith, All, sym,
}
use messaging_cells.Kernel.State.{
  Missive, GrpPt, AgentGrp, Ack, Sys, ok, stopped, faulted, ok-bind, ok_inj, at_ker, work,
}
use messaging_cells.Kernel.Send.{
  gate, Gate, pass, skip, send_grp, send_by_ack, try_send, handle_out_work,
}
use messaging_cells.Kernel.Mail.Same.{tot_workerus}
use messaging_cells.Kernel.Mail.Slots.{MailOk}
use messaging_cells.Kernel.Mail.Sending.{slot-none, try_send-MailOk}

module _ {U : Type 0} where
  -- Each group in a slot of a workeru in `s` is in that slot in `t`.
  pub Kept : Sys U → Sys U → Type 0
  Kept s t =
      (d i : ℕ) (g : GrpPt)
      → d < tot_workerus
      → (s.ker d).routed_arr 0 i ≡ some g
      → (t.ker d).routed_arr 0 i ≡ some g

  send_grp-Kept :
      (me dst a : ℕ) (s : Sys U)
      → MailOk s
      → (s.ker me).routed_ack_arr 0 dst ≢ Ack.busy
      → Kept s (send_grp me dst a s)
  unfolding send_grp Kept
  send_grp-Kept me dst a s m n d i g l e = elim (eq-or-ne d dst) [
    | inr z ↦ ground (arith, z, e)
    | inl y ↦ elim (eq-or-ne i me) [ inr z ↦ ground (arith, y, z, e) | inl z ↦ absurd (busy y z) ]
  ]
    where
      busy : d ≡ dst → i ≡ me → ⊥
      busy y z = ground (arith, y, z, e, slot-none s me dst m (subst (λ x. x < tot_workerus) y l) n)

  send_by_ack-Kept :
      (me dst a : ℕ) (s : Sys U) (c : Ack)
      → MailOk s
      → (s.ker me).routed_ack_arr 0 dst ≡ c
      → Kept s (send_by_ack me dst a c s)
  unfolding send_by_ack Kept
  send_by_ack-Kept me dst a s Ack.virgin m q = by_gate (gate (s.ker me) (s.ker dst))
    where
      by_gate :
          (g : Gate)
          → Kept s (elim g [ skip bit ↦ at_ker me (work bit) s | pass ↦ send_grp me dst a s ])
      by_gate (skip bit) = λ d i g l e. ground (arith, e)
      by_gate pass = send_grp-Kept me dst a s m (ground (arith, q))
  send_by_ack-Kept me dst a s Ack.ready m q = send_grp-Kept me dst a s m (ground (arith, q))
  send_by_ack-Kept me dst a s Ack.busy m q = λ d i g l e. ground (arith, e)

  try_send-Kept : (me a : ℕ) (s t : Sys U) → MailOk s → try_send me a s ≡ ok t → Kept s t
  unfolding try_send
  try_send-Kept me a s t m h = of_first ((s.ker me).grps a).all_agts h
    where
      of_first :
          (ms : List Missive)
          → elim ms [
            | [] ↦ stopped faulted
            | x ∷ xs ↦ ok (send_by_ack me x.dst.owner a ((s.ker me).routed_ack_arr 0 x.dst.owner) s)
          ]
            ≡ ok t
          → Kept s t
      of_first [] e = cc
      of_first (x ∷ xs) e = subst (Kept s) (ok_inj e) (send_by_ack-Kept me x.dst.owner a s _ m refl)

  ran-Kept :
      (me : ℕ) (out : List ℕ) (s t : Sys U) (d i : ℕ) (g : GrpPt)
      → me < tot_workerus
      → MailOk s
      → handle_out_work me out s ≡ ok t
      → d < tot_workerus
      → (s.ker d).routed_arr 0 i ≡ some g
      → (t.ker d).routed_arr 0 i ≡ some g
  unfolding handle_out_work Kept
  ran-Kept me [] s t d i g l m h b e = subst (λ x. (x.ker d).routed_arr 0 i ≡ some g) (ok_inj h) e
  ran-Kept me (a ∷ out) s t d i g l m h b e =
      let (r, p, q) = ok-bind (try_send me a s) _ h in
      ran-Kept me out r t d i g l (try_send-MailOk me a s r l m p) q b
        (try_send-Kept me a s r m p d i g b e)

  -- Each of the groups `out` of the workeru `me` has a missive.
  unfoldable pub Filled : ℕ → List ℕ → Sys U → Type 0
  Filled me out s = All (λ a. ((s.ker me).grps a).all_agts ≢ []) out

  send_by_ack-grps :
      (me dst a : ℕ) (c : Ack) (s : Sys U)
      → ((send_by_ack me dst a c s).ker me).grps ≡ (s.ker me).grps
  unfolding send_by_ack send_grp
  send_by_ack-grps me dst a Ack.virgin s = by_gate (gate (s.ker me) (s.ker dst))
    where
      gated : Gate → Sys U
      gated g = elim g [ skip bit ↦ at_ker me (work bit) s | pass ↦ send_grp me dst a s ]

      by_gate : (g : Gate) → ((gated g).ker me).grps ≡ (s.ker me).grps
      by_gate (skip bit) = ground arith
      by_gate pass = ground arith
  send_by_ack-grps me dst a Ack.ready s = ground arith
  send_by_ack-grps me dst a Ack.busy s = ground arith

  try_send-runs :
      (me a : ℕ) (s : Sys U)
      → ((s.ker me).grps a).all_agts ≢ []
      → (t : Sys U) × (try_send me a s ≡ ok t) × ((t.ker me).grps ≡ (s.ker me).grps)
  unfolding try_send
  try_send-runs me a s n = of_first ((s.ker me).grps a).all_agts n
    where
      of_first :
          (ms : List Missive)
          → ms ≢ []
          → (t : Sys U) × (elim ms [
            | [] ↦ stopped faulted
            | x ∷ xs ↦ ok (send_by_ack me x.dst.owner a ((s.ker me).routed_ack_arr 0 x.dst.owner) s)
          ]
              ≡ ok t)
            × ((t.ker me).grps ≡ (s.ker me).grps)
      of_first [] e = absurd (e refl)
      of_first (x ∷ xs) e = (_, refl, send_by_ack-grps me x.dst.owner a _ s)

  handle_out_work-runs :
      (me : ℕ) (out : List ℕ) (s : Sys U)
      → Filled me out s
      → (t : Sys U) × (handle_out_work me out s ≡ ok t)
  unfolding handle_out_work Filled
  handle_out_work-runs me [] s f = (s, refl)
  handle_out_work-runs me (a ∷ out) s f =
      let (r, e, g) = try_send-runs me a s f.0 in
      let (t, h) =
        handle_out_work-runs me out r
          (subst (λ (x : ℕ → AgentGrp). All (λ b. (x b).all_agts ≢ []) out) (sym g) f.1) in
      (t, rw e h)

  -- While the mailboxes are well-formed and each group has a missive, the loop of the workeru `me`
  -- over its outgoing groups ends with a state, and writes over no group that waits in a slot of a
  -- workeru `d`: it is in that slot afterwards.
  pub handle_out_work-Kept :
      (me : ℕ) (out : List ℕ) (s : Sys U) (d i : ℕ) (g : GrpPt)
      → me < tot_workerus
      → MailOk s
      → Filled me out s
      → d < tot_workerus
      → (s.ker d).routed_arr 0 i ≡ some g
      → (t : Sys U) × (handle_out_work me out s ≡ ok t) × ((t.ker d).routed_arr 0 i ≡ some g)
  handle_out_work-Kept me out s d i g l m f b e =
      let (t, h) = handle_out_work-runs me out s f in (t, h, ran-Kept me out s t d i g l m h b e)
