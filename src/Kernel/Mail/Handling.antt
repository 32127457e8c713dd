-- ===== src/Kernel/Mail/Handling.antt =====
-- The parts of a round that handle missives, or release groups, leave the mailboxes alone.
use messaging_cells.Common.{
  ℕ, zero, suc, ◌≡◌, refl, subst, ◌==◌, not, ◌&&◌, ◌⊎◌, length, if_true, if_false, Bool-cases, true,
  false, inl, inr, if◌then◌else◌, Option-cases, none, List, [], ◌∷◌, arith,
}
use messaging_cells.Kernel.State.{
  Missive, GrpPt, Kernel, Sys, User, Run, ok, stopped, ◌>>=◌, ok-bind, ok_inj, at_ker,
}
use messaging_cells.Kernel.Handlers.{
  tell_parent, user_calls, set_ker, handle_missive, handle_all, mark_handled, set_handled,
  call_handlers_of_group,
}
use messaging_cells.Kernel.Receive.{release_ref, handle_in_work}
use messaging_cells.Kernel.Send.{
  add_out_missive, new_out_grp, add_out, leave_local, handle_local, local_from, release_sent,
  handle_sent_work,
}
use messaging_cells.Kernel.Calls.{acquire_grp}
use messaging_cells.Kernel.Round.{handle_stop, finish_round}
use messaging_cells.Kernel.Mail.Same.{
  SameMail, SameMail-refl, SameMail-trans, tell_parent-SameMail, user_calls-SameMail,
  call_handler-SameMail, Still, Still-refl, Still-trans, Still-at_ker,
}

module _ {U : Type 0} (usr : User U) (me : ℕ) where
  pub set_ker-Still :
      (s t : Sys U) (r : Run (Kernel U))
      → ((k : Kernel U) → r ≡ ok k → SameMail (s.ker me) k)
      → set_ker me s r ≡ ok t
      → Still s t
  unfolding set_ker
  set_ker-Still s t (ok k) same h =
      subst (Still s) (ok_inj h) (Still-at_ker me (λ _. k) s (same k refl))
  set_ker-Still s t (stopped c) same h = cc

  handle_missive-Still : (m : Missive) (s t : Sys U) → handle_missive usr me m s ≡ ok t → Still s t
  unfolding handle_missive
  handle_missive-Still m s t h = elim (Option-cases (s.ker me).cell_handlers) [
    | inl e ↦ absurd (no_handlers e)
    | inr (tot, e) ↦
        set_ker-Still s t _
          (λ k.
            call_handler-SameMail usr me (s.ker m.src.owner).stop_key tot
              ((s.ker m.dst.owner).handler_idx m.dst.at) m (s.ker me) k)
          (ground (arith, e, h))
  ]
    where
      no_handlers : (s.ker me).cell_handlers ≡ none → ⊥
      no_handlers e = ground (arith, e, h)

  pub handle_all-Still :
      (ms : List Missive) (s t : Sys U) → handle_all usr me ms s ≡ ok t → Still s t
  unfolding handle_all
  handle_all-Still [] s t h = subst (Still s) (ok_inj h) (Still-refl s)
  handle_all-Still (m ∷ ms) s t h =
      let (r, e, f) = ok-bind (handle_missive usr me m s) (handle_all usr me ms) h in
      Still-trans s r t (handle_missive-Still m s r e) (handle_all-Still ms r t f)

  set_handled-Still : (g : GrpPt) (s : Sys U) → Still s (set_handled g s)
  unfolding set_handled
  set_handled-Still g s =
      Still-at_ker g.owner (mark_handled g.at) s
        (record { arr = refl; ack = refl; sgnl = refl; kind = refl })

  pub call_handlers_of_group-Still :
      (g : GrpPt) (s t : Sys U) → call_handlers_of_group usr me g s ≡ ok t → Still s t
  unfolding call_handlers_of_group
  call_handlers_of_group-Still g s t h =
      let (r, e, f) = ok-bind (handle_all usr me ((s.ker g.owner).grps g.at).all_agts s) _ h in
      Still-trans s r t (handle_all-Still _ s r e)
        (subst (Still r) (ok_inj f) (set_handled-Still g r))

  pub handle_in_work-Still :
      (gs : List GrpPt) (s t : Sys U) → handle_in_work usr me gs s ≡ ok t → Still s t
  unfolding handle_in_work
  handle_in_work-Still [] s t h = subst (Still s) (ok_inj h) (Still-refl s)
  handle_in_work-Still (g ∷ gs) s t h =
      let (r, e, f) = ok-bind (call_handlers_of_group usr me g s) _ h in
      Still-trans s r t (call_handlers_of_group-Still g s r e) (
        Still-trans r (at_ker me (release_ref gs) r) t
          (Still-at_ker me (release_ref gs) r
            (record { arr = refl; ack = refl; sgnl = refl; kind = refl }))
          (handle_in_work-Still gs (at_ker me (release_ref gs) r) t f))

  new_out_grp-SameMail :
      (m : Missive) (out : List ℕ) (k : Kernel U) → SameMail k (new_out_grp m out (acquire_grp k)).1
  unfolding new_out_grp acquire_grp
  new_out_grp-SameMail m out k = ground arith

  add_out_missive-SameMail :
      (m : Missive) (out out' : List ℕ) (k j : Kernel U)
      → add_out_missive m out k ≡ ok (out', j)
      → SameMail k j
  unfolding add_out_missive
  add_out_missive-SameMail m out out' k j h = ground (arith, new_out_grp-SameMail m out k)

  with_out :
      (put_out : List ℕ → Kernel U → Kernel U) (k j : Kernel U) (r : Run (List ℕ × Kernel U))
      → ((out : List ℕ) (i : Kernel U) → SameMail i (put_out out i))
      → ((out : List ℕ) (i : Kernel U) → r ≡ ok (out, i) → SameMail k i)
      → (r >>= λ p. ok (put_out p.0 p.1)) ≡ ok j
      → SameMail k j
  with_out put_out k j (ok (out, i)) same h e =
      subst (SameMail k) (ok_inj e) (SameMail-trans k i (put_out out i) (h out i refl) (same out i))
  with_out put_out k j (stopped c) same h e = cc

  add_out-SameMail : (m : Missive) (k j : Kernel U) → add_out m k ≡ ok j → SameMail k j
  unfolding add_out
  add_out-SameMail m k j h = elim (Bool-cases k.is_manageru_kernel) [
    | inl e ↦
        with_out (λ out i. record i { to_workerus_work = out }) k j
          (add_out_missive m k.to_workerus_work k)
          (λ out i. record { arr = refl; ack = refl; sgnl = refl; kind = refl })
          (λ out i. add_out_missive-SameMail m k.to_workerus_work out k i) (if_true _ _ e h)
    | inr e ↦
        with_out (λ out i. record i { out_work = out }) k j (add_out_missive m k.out_work k)
          (λ out i. record { arr = refl; ack = refl; sgnl = refl; kind = refl })
          (λ out i. add_out_missive-SameMail m k.out_work out k i) (if_false _ _ e h)
  ]

  handle_local-Still : (m : Missive) (s t : Sys U) → handle_local usr me m s ≡ ok t → Still s t
  unfolding handle_local
  handle_local-Still m s t h =
      let (r, e, f) = ok-bind _ (λ t. ok (at_ker me leave_local t)) h in
      Still-trans s r t (first r (Bool-cases (m.dst.owner == me)) e) (
        subst (Still r) (ok_inj f) (
          Still-at_ker me leave_local r
            (record { arr = refl; ack = refl; sgnl = refl; kind = refl })))
    where
      first :
          (r : Sys U)
          → ((m.dst.owner == me) ≡ true) ⊎ ((m.dst.owner == me) ≡ false)
          → (if m.dst.owner == me
              then handle_missive usr me m s
              else add_out m (s.ker me) >>= λ k. ok (at_ker me (λ _. k) s))
            ≡ ok r
          → Still s r
      first r (inl y) e = handle_missive-Still m s r (if_true _ _ y e)
      first r (inr n) e =
          let (k, a, b) = ok-bind (add_out m (s.ker me)) _ (if_false _ _ n e) in
          subst (Still s) (ok_inj b)
            (Still-at_ker me (λ _. k) s (add_out-SameMail m (s.ker me) k a))

  pub local_from-Still :
      (fuel : ℕ) (ms : List Missive) (s t : Sys U) → local_from usr fuel me ms s ≡ ok t → Still s t
  unfolding local_from
  local_from-Still zero ms s t h = cc
  local_from-Still (suc fuel) [] s t h = subst (Still s) (ok_inj h) (Still-refl s)
  local_from-Still (suc fuel) (m ∷ []) s t h = handle_local-Still m s t h
  local_from-Still (suc fuel) (m ∷ n ∷ rest) s t h =
      let (r, e, f) = ok-bind (handle_local usr me m s) _ h in
      Still-trans s r t (handle_local-Still m s r e)
        (local_from-Still fuel (r.ker me).local_work r t f)

  release_sent-SameMail : (a : ℕ) (k : Kernel U) → SameMail k (release_sent a k)
  unfolding release_sent
  release_sent-SameMail a k = ground arith

  handle_sent_work-SameMail : (sent : List ℕ) (k : Kernel U) → SameMail k (handle_sent_work sent k)
  unfolding handle_sent_work
  handle_sent_work-SameMail [] k = SameMail-refl k
  handle_sent_work-SameMail (a ∷ sent) k =
      SameMail-trans k (release_sent a k) _ (release_sent-SameMail a k)
        (handle_sent_work-SameMail sent (release_sent a k))

  handle_stop-SameMail : (k j : Kernel U) → handle_stop usr me k ≡ ok j → SameMail k j
  unfolding handle_stop
  handle_stop-SameMail k j h =
      elim (Bool-cases (not k.sent_stop_to_parent && k.num_childs_stopping == length k.childs)) [
        | inl y ↦
            (let (i, e, f) =
                ok-bind (user_calls usr (usr.user_stop_func k.user) k) _ (if_true _ _ y h) in
              SameMail-trans k i j (user_calls-SameMail usr (usr.user_stop_func k.user) k i e)
                (subst (SameMail i) (ok_inj f) (told i)))
        | inr n ↦ subst (SameMail k) (ok_inj (if_false _ _ n h)) (SameMail-refl k)
      ]
    where
      told : (i : Kernel U) → SameMail i (tell_parent me (record i { sent_stop_to_parent = true }))
      told i =
          SameMail-trans i (record i { sent_stop_to_parent = true }) _
            (record { arr = refl; ack = refl; sgnl = refl; kind = refl })
            (tell_parent-SameMail me (record i { sent_stop_to_parent = true }))

  pub finish_round-SameMail : (k j : Kernel U) → finish_round usr me k ≡ ok j → SameMail k j
  unfolding finish_round
  finish_round-SameMail k j h =
      let k1 = handle_sent_work k.sent_work k in
      let (i, e, f) = ok-bind (user_calls usr (usr.user_func k1.user) k1) _ h in
      SameMail-trans k i j
        (SameMail-trans k k1 i (handle_sent_work-SameMail k.sent_work k)
          (user_calls-SameMail usr (usr.user_func k1.user) k1 i e))
        (stop i (Bool-cases (not (i.stop_key == 0))) f)
    where
      stop :
          (i : Kernel U)
          → (not (i.stop_key == 0) ≡ true) ⊎ (not (i.stop_key == 0) ≡ false)
          → (if not (i.stop_key == 0) then handle_stop usr me i else ok i) ≡ ok j
          → SameMail i j
      stop i (inl y) e = handle_stop-SameMail i j (if_true _ _ y e)
      stop i (inr n) e = subst (SameMail i) (ok_inj (if_false _ _ n e)) (SameMail-refl i)
