-- ===== src/Kernel/Local.antt =====
-- The loop over `local_work`: which missives one round handles.
use messaging_cells.Common.{
  ℕ, zero, suc, ◌+◌, ◌≤◌, ◌<◌, ◌≡◌, refl, ap, ◌∙◌, ==_iff, some, List, [], ◌∷◌, ◌++◌, All,
  All-append, arith,
}
use messaging_cells.Kernel.State.{
  Missive, Kernel, Sys, User, send, ok, stopped, out_of_fuel, at_ker, ker-at_ker_self,
}
use messaging_cells.Kernel.Calls.{send_missive, do_call}
use messaging_cells.Kernel.Handlers.{
  tot_base_cell_classes, user_calls, call_handler, handle_missive, set_ker,
}
use messaging_cells.Kernel.Send.{drop_first, leave_local, handle_local, local_from}

module _ {U : Type 0} (usr : User U) (me tot : ℕ) (hidx : ℕ → ℕ) where
  -- The kernel has its handlers, and its cells the indices `hidx`.
  pub record HasHandlers (k : Kernel U) : Type 0 where
    pub handlers : k.cell_handlers ≡ some tot
    pub indices : k.handler_idx ≡ hidx

  -- A missive for a cell of this workeru that has a handler of the user's.
  pub record ToUser (m : Missive) : Type 0 where
    pub here : m.dst.owner ≡ me
    pub above : tot_base_cell_classes ≤ hidx m.dst.at
    pub below : hidx m.dst.at + 1 < tot

  call_handler-user :
      (rem idx : ℕ) (m : Missive) (k : Kernel U)
      → tot_base_cell_classes ≤ idx
      → idx + 1 < tot
      → call_handler usr me rem tot idx m k ≡ user_calls usr (usr.handle k.user idx m) k
  unfolding call_handler
  call_handler-user rem idx m k a b = ground arith

  -- The kernel after the handler has sent `n`, and `m` has left the ring.
  after_reply : Missive → U → Kernel U → Kernel U
  unfolding send_missive leave_local
  after_reply n v k = leave_local (send_missive n (record k { user = v }))

  user_calls-send :
      (n : Missive) (v : U) (k : Kernel U)
      → user_calls usr (v, send n ∷ []) k ≡ ok (send_missive n (record k { user = v }))
  unfolding user_calls do_call
  user_calls-send n v k = refl

  index_here :
      (m : Missive) (s : Sys U)
      → HasHandlers (s.ker me)
      → m.dst.owner ≡ me
      → (s.ker m.dst.owner).handler_idx m.dst.at ≡ hidx m.dst.at
  index_here m s has e =
      ap (λ i. (s.ker i).handler_idx m.dst.at) e ∙ ap (λ f. f m.dst.at) has.indices

  handle_missive-reply :
      (m n : Missive) (v : U) (s : Sys U)
      → HasHandlers (s.ker me)
      → ToUser m
      → usr.handle (s.ker me).user (hidx m.dst.at) m ≡ (v, send n ∷ [])
      → handle_missive usr me m s
        ≡ ok (at_ker me (λ _. send_missive n (record (s.ker me) { user = v })) s)
  unfolding handle_missive set_ker
  handle_missive-reply m n v s has to e =
      let i = index_here m s has to.here in
      let c =
        call_handler-user (s.ker m.src.owner).stop_key (hidx m.dst.at) m (s.ker me) to.above
          to.below in
      let d = user_calls-send n v (s.ker me) in ground (arith, has.handlers, i, c, d, e)

  handle_local-reply :
      (m n : Missive) (v : U) (s : Sys U)
      → HasHandlers (s.ker me)
      → ToUser m
      → usr.handle (s.ker me).user (hidx m.dst.at) m ≡ (v, send n ∷ [])
      → (t : Sys U) × (handle_local usr me m s ≡ ok t) × (t.ker me ≡ after_reply n v (s.ker me))
  unfolding handle_local after_reply
  handle_local-reply m n v s has to e =
      let k = send_missive n (record (s.ker me) { user = v }) in
      let s1 = at_ker me (λ _. k) s in
      (
        at_ker me leave_local s1,
        rw ((==_iff m.dst.owner me).1 to.here, handle_missive-reply m n v s has to e),
        ker-at_ker_self me leave_local s1 ∙ ap leave_local (ker-at_ker_self me (λ _. k) s),
      )

  -- Every handler of the user's answers with one missive, to a cell of this workeru.
  unfoldable pub AlwaysReplies : Type 0
  AlwaysReplies =
      (u : U) (m : Missive)
      → ToUser m
      → (v : U) × (n : Missive) × (usr.handle u (hidx m.dst.at) m ≡ (v, send n ∷ [])) × ToUser n

  after_reply-HasHandlers :
      (n : Missive) (v : U) (k : Kernel U) → HasHandlers k → HasHandlers (after_reply n v k)
  unfolding after_reply
  after_reply-HasHandlers n v k h = record { handlers = h.handlers; indices = h.indices }

  local_work-after_reply :
      (n : Missive) (v : U) (k : Kernel U) (m : Missive) (ms : List Missive)
      → k.local_work ≡ m ∷ ms
      → (after_reply n v k).local_work ≡ ms ++ n ∷ []
  unfolding after_reply leave_local send_missive
  local_work-after_reply n v k m ms e = ap (λ l. drop_first (l ++ n ∷ [])) e

  -- With two local missives and handlers that always answer here, the loop over `local_work` never
  -- ends: no fuel is enough, so the kernel serves no other workeru again.
  pub local_from-endless :
      (fuel : ℕ) (s : Sys U) (m n : Missive) (ms : List Missive)
      → AlwaysReplies
      → HasHandlers (s.ker me)
      → (s.ker me).local_work ≡ m ∷ n ∷ ms
      → All ToUser (m ∷ n ∷ ms)
      → local_from usr fuel me (m ∷ n ∷ ms) s ≡ stopped out_of_fuel
  unfolding local_from AlwaysReplies
  local_from-endless zero s m n ms replies has e all = refl
  local_from-endless (suc fuel) s m n [] replies has e all =
      let (v, r, q, to) = replies (s.ker me).user m all.0 in
      let (t, ran, k) = handle_local-reply m r v s has all.0 q in
      let left : (t.ker me).local_work ≡ n ∷ r ∷ [] =
        ap (λ j. j.local_work) k ∙ local_work-after_reply r v (s.ker me) m (n ∷ []) e in
      let has' : HasHandlers (t.ker me) = rw k (after_reply-HasHandlers r v (s.ker me) has) in
      rw (ran, left) (local_from-endless fuel t n r [] replies has' left (all.1.0, (to, tt)))
  local_from-endless (suc fuel) s m n (x ∷ xs) replies has e all =
      let (v, r, q, to) = replies (s.ker me).user m all.0 in
      let (t, ran, k) = handle_local-reply m r v s has all.0 q in
      let left : (t.ker me).local_work ≡ n ∷ x ∷ (xs ++ r ∷ []) =
        ap (λ j. j.local_work) k ∙ local_work-after_reply r v (s.ker me) m (n ∷ x ∷ xs) e in
      let has' : HasHandlers (t.ker me) = rw k (after_reply-HasHandlers r v (s.ker me) has) in
      rw (ran, left)
        (local_from-endless fuel t n x (xs ++ r ∷ []) replies has' left
          (All-append ToUser (n ∷ x ∷ xs) (r ∷ []) all.1 (to, tt)))
