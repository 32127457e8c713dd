-- ===== src/Kernel/Mail/Slots.antt =====
-- What the mailboxes owe each other, and `process_signal` emptying one of them.
use messaging_cells.Common.{
  ℕ, zero, suc, ◌+◌, ◌<◌, ◌≤◌, ◌≡◌, ◌≢◌, sym, ap, subst, ◌∙◌, true, false, inl, inr, if◌then◌else◌,
  if_true, if_false, Bool-cases, Option-cases, eq-or-ne, none, some, arith,
}
use messaging_cells.Kernel.State.{GrpPt, Ack, Sys, ok, ok-bind, ok_inj, at_ker, put, work}
use messaging_cells.Kernel.Receive.{
  routed_arr_sz, give_ack, take_slot, process_slot, process_slots, process_signal, lower_signal,
  process_signals,
}
use messaging_cells.Kernel.Mail.Same.{tot_workerus, Still}

module _ {U : Type 0} where
  -- A group `g` in the slot `i` of the workeru `d`: it lies in the memory of the workeru `i`, which
  -- waits for the acknowledgement.
  pub record Waiting (s : Sys U) (d i : ℕ) (g : GrpPt) : Type 0 where
    pub bound : i < tot_workerus
    pub home : g.owner ≡ i
    pub busy : (s.ker i).routed_ack_arr 0 d ≡ Ack.busy

  -- The manageru is no workeru.
  pub record Numbered (s : Sys U) : Type 0 where
    pub man : tot_workerus ≤ s.manageru
    pub kind : (i : ℕ) → i < tot_workerus → (s.ker i).is_manageru_kernel ≡ false

  -- Each group in a slot waits, and its workeru is signalled.
  pub record MailOk (s : Sys U) : Type 0 where
    pub numbered : Numbered s
    pub slot :
        (d i : ℕ) (g : GrpPt)
        → d < tot_workerus
        → (s.ker d).routed_arr 0 i ≡ some g
        → Waiting s d i g
    pub sgnl :
        (d i : ℕ) (g : GrpPt)
        → d < tot_workerus
        → (s.ker d).routed_arr 0 i ≡ some g
        → (s.ker d).signals_arr 0 ≡ true

  -- The workeru `me` has emptied its slots below `aa`, and lowered its signal.
  record Emptied (me aa : ℕ) (s : Sys U) : Type 0 where
    numbered : Numbered s
    below : (i : ℕ) (g : GrpPt) → (s.ker me).routed_arr 0 i ≡ some g → aa ≤ i
    slot :
        (d i : ℕ) (g : GrpPt)
        → d < tot_workerus
        → (s.ker d).routed_arr 0 i ≡ some g
        → Waiting s d i g
    sgnl :
        (d i : ℕ) (g : GrpPt)
        → d < tot_workerus
        → d ≢ me
        → (s.ker d).routed_arr 0 i ≡ some g
        → (s.ker d).signals_arr 0 ≡ true

  Waiting-Still :
      (s t : Sys U) (d i : ℕ) (g : GrpPt)
      → d < tot_workerus
      → Still s t
      → Waiting s d i g
      → Waiting t d i g
  Waiting-Still s t d i g l h w = record {
    bound = w.bound;
    home = w.home;
    busy = ap (λ f. f 0 d) (h.workeru i w.bound).ack ∙ w.busy;
  }

  Numbered-Still : (s t : Sys U) → Still s t → Numbered s → Numbered t
  Numbered-Still s t h n = record {
    man = subst (λ m. tot_workerus ≤ m) (sym h.man) n.man;
    kind = λ i l. (h.workeru i l).kind ∙ n.kind i l;
  }

  pub MailOk-Still : (s t : Sys U) → Still s t → MailOk s → MailOk t
  MailOk-Still s t h m = record {
    numbered = Numbered-Still s t h m.numbered;
    slot = λ d i g l e. Waiting-Still s t d i g l h (m.slot d i g l (back d i g l e));
    sgnl = λ d i g l e. ap (λ f. f 0) (h.workeru d l).sgnl ∙ m.sgnl d i g l (back d i g l e);
  }
    where
      back :
          (d i : ℕ) (g : GrpPt)
          → d < tot_workerus
          → (t.ker d).routed_arr 0 i ≡ some g
          → (s.ker d).routed_arr 0 i ≡ some g
      back d i g l e = ap (λ f. f 0 i) (sym (h.workeru d l).arr) ∙ e

  Emptied-lower : (me : ℕ) (s : Sys U) → MailOk s → Emptied me 0 (at_ker me (lower_signal 0) s)
  unfolding lower_signal
  Emptied-lower me s m = record {
    numbered = record { man = m.numbered.man; kind = λ i l. ground (arith, m.numbered.kind i l) };
    below = λ i g e. ground arith;
    slot = λ d i g l e. here d i g (m.slot d i g l (ground (arith, e)));
    sgnl = λ d i g l n e. ground (arith, m.sgnl d i g l);
  }
    where
      here : (d i : ℕ) (g : GrpPt) → Waiting s d i g → Waiting (at_ker me (lower_signal 0) s) d i g
      here d i g w = record { bound = w.bound; home = w.home; busy = ground (arith, w.busy) }

  Emptied-done : (me : ℕ) (s : Sys U) → Emptied me 16 s → MailOk s
  Emptied-done me s m = record {
    numbered = m.numbered;
    slot = m.slot;
    sgnl = λ d i g l e. elim (eq-or-ne d me) [
      | inl y ↦ absurd (full d i g l y e)
      | inr n ↦ m.sgnl d i g l n e
    ];
  }
    where
      full :
          (d i : ℕ) (g : GrpPt) → d < tot_workerus → d ≡ me → (s.ker d).routed_arr 0 i ≡ some g → ⊥
      full d i g l y e =
          let a = m.below i g (subst (λ x. (s.ker x).routed_arr 0 i ≡ some g) y e) in
          let b = (m.slot d i g l e).bound in omega arith

  -- What `process_slot` leaves behind when it took a group of signal `sg` from the slot `aa`.
  taken : ℕ → ℕ → ℕ → GrpPt → Sys U → Sys U
  unfolding take_slot
  taken me sg aa g s = at_ker me (work 1) (
      at_ker g.owner (λ k. record k { routed_ack_arr = put sg me Ack.ready k.routed_ack_arr })
        (at_ker me (take_slot me sg aa g) s))

  process_slot-taken :
      (me sg aa : ℕ) (g : GrpPt) (s t : Sys U)
      → (s.ker me).is_manageru_kernel ≡ false
      → (s.ker me).routed_arr sg aa ≡ some g
      → process_slot me sg aa s ≡ ok t
      → taken me sg aa g s ≡ t
  unfolding process_slot give_ack taken take_slot
  process_slot-taken me sg aa g s t n e h = ground (arith, n, e, h)

  process_slot-none :
      (me sg aa : ℕ) (s t : Sys U)
      → (s.ker me).routed_arr sg aa ≡ none
      → process_slot me sg aa s ≡ ok t
      → s ≡ t
  unfolding process_slot
  process_slot-none me sg aa s t e h = ground (arith, e, h)

  Emptied-none :
      (me aa : ℕ) (s : Sys U)
      → (s.ker me).routed_arr 0 aa ≡ none
      → Emptied me aa s
      → Emptied me (aa + 1) s
  Emptied-none me aa s e m = record {
    numbered = m.numbered;
    below = λ i g f. ground (arith, m.below i g f);
    slot = m.slot;
    sgnl = m.sgnl;
  }

  Emptied-taken :
      (me aa : ℕ) (g : GrpPt) (s : Sys U)
      → me < tot_workerus
      → (s.ker me).routed_arr 0 aa ≡ some g
      → Emptied me aa s
      → Emptied me (aa + 1) (taken me 0 aa g s)
  unfolding taken take_slot
  Emptied-taken me aa g s l e m = record {
    numbered = record { man = m.numbered.man; kind = λ i b. ground (arith, m.numbered.kind i b) };
    below = λ i x f. ground (arith, m.below i x);
    slot = λ d i x b f. here d i x f (m.slot d i x b (before d i x f));
    sgnl = λ d i x b n f. ground (arith, m.sgnl d i x b n (before d i x f));
  }
    where
      before :
          (d i : ℕ) (x : GrpPt)
          → ((taken me 0 aa g s).ker d).routed_arr 0 i ≡ some x
          → (s.ker d).routed_arr 0 i ≡ some x
      before d i x f = ground arith

      here :
          (d i : ℕ) (x : GrpPt)
          → ((taken me 0 aa g s).ker d).routed_arr 0 i ≡ some x
          → Waiting s d i x
          → Waiting (taken me 0 aa g s) d i x
      here d i x f w =
          let o = (m.slot me aa g l e).home in
          record { bound = w.bound; home = w.home; busy = ground (arith, o, w.busy) }

  process_slot-Emptied :
      (me aa : ℕ) (s t : Sys U)
      → me < tot_workerus
      → Emptied me aa s
      → process_slot me 0 aa s ≡ ok t
      → Emptied me (aa + 1) t
  process_slot-Emptied me aa s t l m h = elim (Option-cases ((s.ker me).routed_arr 0 aa)) [
    | inl e ↦
        subst (Emptied me (aa + 1)) (process_slot-none me 0 aa s t e h) (Emptied-none me aa s e m)
    | inr (g, e) ↦
        subst (Emptied me (aa + 1)) (process_slot-taken me 0 aa g s t (m.numbered.kind me l) e h)
          (Emptied-taken me aa g s l e m)
  ]

  process_slots-Emptied :
      (me n aa : ℕ) (s t : Sys U)
      → me < tot_workerus
      → Emptied me aa s
      → process_slots me 0 n aa s ≡ ok t
      → Emptied me (aa + n) t
  unfolding process_slots
  process_slots-Emptied me zero aa s t l m h =
      subst (Emptied me (aa + 0)) (ok_inj h) (subst (λ x. Emptied me x s) (omega arith) m)
  process_slots-Emptied me (suc n) aa s t l m h =
      let (r, e, f) = ok-bind (process_slot me 0 aa s) _ h in
      subst (λ x. Emptied me x t) (omega arith)
        (process_slots-Emptied me n (aa + 1) r t l (process_slot-Emptied me aa s r l m e) f)

  -- The other signals: their slots and acknowledgements are other words.
  process_other-MailOk :
      (me sg aa : ℕ) (g : GrpPt) (s : Sys U) → sg ≢ 0 → MailOk s → MailOk (taken me sg aa g s)
  unfolding taken take_slot
  process_other-MailOk me sg aa g s z m = record {
    numbered = record { man = m.numbered.man; kind = λ i b. ground (arith, m.numbered.kind i b) };
    slot = λ d i x b f. here d i x (m.slot d i x b (before d i x f));
    sgnl = λ d i x b f. ground (arith, m.sgnl d i x b (before d i x f));
  }
    where
      before :
          (d i : ℕ) (x : GrpPt)
          → ((taken me sg aa g s).ker d).routed_arr 0 i ≡ some x
          → (s.ker d).routed_arr 0 i ≡ some x
      before d i x f = ground arith

      here : (d i : ℕ) (x : GrpPt) → Waiting s d i x → Waiting (taken me sg aa g s) d i x
      here d i x w = record { bound = w.bound; home = w.home; busy = ground (arith, w.busy) }

  process_slots-MailOk :
      (me sg n aa : ℕ) (s t : Sys U)
      → me < tot_workerus
      → sg ≢ 0
      → MailOk s
      → process_slots me sg n aa s ≡ ok t
      → MailOk t
  unfolding process_slots
  process_slots-MailOk me sg zero aa s t l z m h = subst MailOk (ok_inj h) m
  process_slots-MailOk me sg (suc n) aa s t l z m h =
      let (r, e, f) = ok-bind (process_slot me sg aa s) _ h in
      process_slots-MailOk me sg n (aa + 1) r t l z
        (elim (Option-cases ((s.ker me).routed_arr sg aa)) [
          | inl y ↦ subst MailOk (process_slot-none me sg aa s r y e) m
          | inr (g, y) ↦
              subst MailOk (process_slot-taken me sg aa g s r (m.numbered.kind me l) y e)
                (process_other-MailOk me sg aa g s z m)
        ])
        f

  lower-MailOk :
      (me sg : ℕ) (s : Sys U) → sg ≢ 0 → MailOk s → MailOk (at_ker me (lower_signal sg) s)
  unfolding lower_signal
  lower-MailOk me sg s z m = record {
    numbered = record { man = m.numbered.man; kind = λ i b. ground (arith, m.numbered.kind i b) };
    slot = λ d i x b f. here d i x (m.slot d i x b (ground (arith, f)));
    sgnl = λ d i x b f. ground (arith, m.sgnl d i x b);
  }
    where
      here : (d i : ℕ) (x : GrpPt) → Waiting s d i x → Waiting (at_ker me (lower_signal sg) s) d i x
      here d i x w = record { bound = w.bound; home = w.home; busy = ground (arith, w.busy) }

  process_signal-MailOk :
      (me sg : ℕ) (s t : Sys U)
      → me < tot_workerus
      → MailOk s
      → process_signal me sg (at_ker me (lower_signal sg) s) ≡ ok t
      → MailOk t
  unfolding process_signal
  process_signal-MailOk me sg s t l m h = elim (eq-or-ne sg 0) [
    | inl z ↦ zeroth (
        subst (λ x. process_slots me x (routed_arr_sz x) 0 (at_ker me (lower_signal x) s) ≡ ok t) z
          h)
    | inr n ↦ process_slots-MailOk me sg (routed_arr_sz sg) 0 _ t l n (lower-MailOk me sg s n m) h
  ]
    where
      zeroth : process_slots me 0 16 0 (at_ker me (lower_signal 0) s) ≡ ok t → MailOk t
      zeroth e = Emptied-done me t (process_slots-Emptied me 16 0 _ t l (Emptied-lower me s m) e)

  pub process_signals-MailOk :
      (me n sg : ℕ) (s t : Sys U)
      → me < tot_workerus
      → MailOk s
      → process_signals me n sg s ≡ ok t
      → MailOk t
  unfolding process_signals
  process_signals-MailOk me zero sg s t l m h = subst MailOk (ok_inj h) m
  process_signals-MailOk me (suc n) sg s t l m h =
      let (r, e, f) =
        ok-bind
          (if (s.ker me).signals_arr sg
            then process_signal me sg (at_ker me (lower_signal sg) s)
            else ok s)
          _ h in
      process_signals-MailOk me n (sg + 1) r t l
        (elim (Bool-cases ((s.ker me).signals_arr sg)) [
          | inl y ↦ process_signal-MailOk me sg s r l m (if_true _ _ y e)
          | inr y ↦ subst MailOk (ok_inj (if_false _ _ y e)) m
        ])
        f
