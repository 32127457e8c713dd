-- ===== src/Kernel/Mail/Same.antt =====
-- What the mailboxes are made of, and the parts of a round that leave it alone.
use messaging_cells.Common.{
  ℕ, ◌≤◌, ◌<◌, ◌≡◌, ◌≢◌, refl, sym, subst, ◌∙◌, ==_ne, eq-or-ne, ◌⊎◌, inl, inr, arith, List, [],
  ◌∷◌,
}
use messaging_cells.Kernel.State.{
  Missive, Kernel, Sys, User, Call, send, send_to_manageru, stop_sys, set_idle_exit, ok, ok-bind,
  at_ker, ker-at_ker_self,
}
use messaging_cells.Kernel.Calls.{do_call, do_calls}
use messaging_cells.Kernel.Handlers.{
  send_stop_to, send_stop_to_children, tell_parent, kernel_first_cell_msv_handler, user_calls,
  call_handler,
}

abbrev pub tot_workerus : ℕ
tot_workerus = 16

module _ {U : Type 0} where
  pub record SameMail (k j : Kernel U) : Type 0 where
    pub arr : j.routed_arr ≡ k.routed_arr
    pub ack : j.routed_ack_arr ≡ k.routed_ack_arr
    pub sgnl : j.signals_arr ≡ k.signals_arr
    pub kind : j.is_manageru_kernel ≡ k.is_manageru_kernel

  pub SameMail-refl : (k : Kernel U) → SameMail k k
  SameMail-refl k = record { arr = refl; ack = refl; sgnl = refl; kind = refl }

  pub SameMail-trans : (k j i : Kernel U) → SameMail k j → SameMail j i → SameMail k i
  SameMail-trans k j i a b = record {
    arr = b.arr ∙ a.arr;
    ack = b.ack ∙ a.ack;
    sgnl = b.sgnl ∙ a.sgnl;
    kind = b.kind ∙ a.kind;
  }

  do_call-SameMail : (c : Call) (k j : Kernel U) → do_call c k ≡ ok j → SameMail k j
  unfolding do_call
  do_call-SameMail (send m) k j h = ground arith
  do_call-SameMail (send_to_manageru m) k j h = ground arith
  do_call-SameMail (stop_sys key) k j h = ground arith
  do_call-SameMail set_idle_exit k j h = ground arith

  do_calls-SameMail : (cs : List Call) (k j : Kernel U) → do_calls cs k ≡ ok j → SameMail k j
  unfolding do_calls
  do_calls-SameMail [] k j h = ground arith
  do_calls-SameMail (c ∷ cs) k j h =
      let (i, e, f) = ok-bind (do_call c k) (do_calls cs) h in
      SameMail-trans k i j (do_call-SameMail c k i e) (do_calls-SameMail cs i j f)

  send_stop_to-SameMail : (me : ℕ) (cs : List ℕ) (k : Kernel U) → SameMail k (send_stop_to me cs k)
  unfolding send_stop_to
  send_stop_to-SameMail me [] k = SameMail-refl k
  send_stop_to-SameMail me (c ∷ cs) k =
      SameMail-trans k _ _ (record { arr = refl; ack = refl; sgnl = refl; kind = refl })
        (send_stop_to-SameMail me cs _)

  send_stop_to_children-SameMail : (me : ℕ) (k : Kernel U) → SameMail k (send_stop_to_children me k)
  unfolding send_stop_to_children
  send_stop_to_children-SameMail me k =
      let h = send_stop_to-SameMail me k.childs k in
      record { arr = h.arr; ack = h.ack; sgnl = h.sgnl; kind = h.kind }

  first_cell_handler-SameMail :
      (me rem : ℕ) (m : Missive) (k j : Kernel U)
      → kernel_first_cell_msv_handler me rem m k ≡ ok j
      → SameMail k j
  unfolding kernel_first_cell_msv_handler
  first_cell_handler-SameMail me rem m k j h = ground (arith, send_stop_to_children-SameMail me k)

  pub tell_parent-SameMail : (me : ℕ) (k : Kernel U) → SameMail k (tell_parent me k)
  unfolding tell_parent
  tell_parent-SameMail me k = ground (arith, send_stop_to_children-SameMail me k)

  module _ (usr : User U) where
    pub user_calls-SameMail :
        (u : U × List Call) (k j : Kernel U) → user_calls usr u k ≡ ok j → SameMail k j
    unfolding user_calls
    user_calls-SameMail (u, cs) k j h =
        let d = do_calls-SameMail cs (record k { user = u }) j h in
        record { arr = d.arr; ack = d.ack; sgnl = d.sgnl; kind = d.kind }

    pub call_handler-SameMail :
        (me rem tot idx : ℕ) (m : Missive) (k j : Kernel U)
        → call_handler usr me rem tot idx m k ≡ ok j
        → SameMail k j
    unfolding call_handler
    call_handler-SameMail me rem tot idx m k j h = ground (
      arith,
      SameMail-refl k,
      first_cell_handler-SameMail me rem m k j,
      user_calls-SameMail (usr.handle k.user idx m) k j,
    )

-- The mailboxes of all workerus are as they were.
pub record Still {U : Type 0} (s t : Sys U) : Type 0 where
  pub workeru : (i : ℕ) → i < tot_workerus → SameMail (s.ker i) (t.ker i)
  pub man : t.manageru ≡ s.manageru

module _ {U : Type 0} where
  pub Still-refl : (s : Sys U) → Still s s
  Still-refl s = record { workeru = λ i h. SameMail-refl (s.ker i); man = refl }

  pub Still-trans : (s t r : Sys U) → Still s t → Still t r → Still s r
  Still-trans s t r a b = record {
    workeru = λ i h. SameMail-trans (s.ker i) (t.ker i) (r.ker i) (a.workeru i h) (b.workeru i h);
    man = b.man ∙ a.man;
  }

  -- A change of one kernel that leaves its mailbox alone.
  pub Still-at_ker :
      (i : ℕ) (f : Kernel U → Kernel U) (s : Sys U)
      → SameMail (s.ker i) (f (s.ker i))
      → Still s (at_ker i f s)
  Still-at_ker i f s h = record { workeru = λ j _. here j (eq-or-ne j i); man = refl }
    where
      here : (j : ℕ) → (j ≡ i) ⊎ (j ≢ i) → SameMail (s.ker j) ((at_ker i f s).ker j)
      here j (inl e) =
          subst (λ x. SameMail (s.ker x) ((at_ker i f s).ker x)) (sym e)
            (rw (ker-at_ker_self i f s) h)
      here j (inr n) = rw (==_ne n) (SameMail-refl (s.ker j))

  -- A change of a kernel that is no workeru's.
  pub Still-other :
      (i : ℕ) (f : Kernel U → Kernel U) (s : Sys U) → tot_workerus ≤ i → Still s (at_ker i f s)
  Still-other i f s h = record {
    workeru = λ j l. rw (==_ne (apart j l)) (SameMail-refl (s.ker j));
    man = refl;
  }
    where
      apart : (j : ℕ) → j < tot_workerus → j ≢ i
      apart j l e = omega arith
