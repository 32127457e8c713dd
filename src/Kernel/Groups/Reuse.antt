-- ===== src/Kernel/Groups/Reuse.antt =====
-- The pool of groups over a whole run from `init_kernel` on: groups are acquired, and the loop over
-- `sent_work` releases them.
use messaging_cells.Common.{
  ℕ, ◌<◌, ◌≡◌, sym, subst, ap, ◌∙◌, ==_ne, ==_self, true, List, [], ◌∷◌, ◌++◌, append_assoc, All,
  All-append, All-append_left, All-append_right, NotIn, NotIn-append, NotIn-append_left,
  NotIn-append_right, Apart, Distinct, Distinct-swap, Distinct-parts, put_at, arith,
}
use messaging_cells.Kernel.State.{Kernel}
use messaging_cells.Kernel.Calls.{acquire_grp, release_grp}
use messaging_cells.Kernel.Send.{remove, release_sent}
use messaging_cells.Kernel.Round.{init_kernel}
use messaging_cells.Kernel.Groups.Pool.{PoolOk, Acquired, acquire_grp-Acquired}

-- A number goes from behind to the middle.
All-move :
    (P : ℕ → Type 0) (ws xs : List ℕ) (a : ℕ) (ys : List ℕ)
    → All P (ws ++ (xs ++ a ∷ ys))
    → All P ((ws ++ a ∷ []) ++ (xs ++ ys))
All-move P ws xs a ys h =
    let r = All-append_right P ws (xs ++ a ∷ ys) h in
    let b = All-append_right P xs (a ∷ ys) r in
    All-append P (ws ++ a ∷ []) (xs ++ ys)
      (All-append P ws (a ∷ []) (All-append_left P ws (xs ++ a ∷ ys) h) (b.0, tt))
      (All-append P xs ys (All-append_left P xs (a ∷ ys) r) b.1)

Distinct-move :
    (ws xs : List ℕ) (a : ℕ) (ys : List ℕ)
    → Distinct (ws ++ (xs ++ a ∷ ys))
    → Distinct ((ws ++ a ∷ []) ++ (xs ++ ys))
Distinct-move ws xs a ys h =
    let behind =
      Distinct-swap (ws ++ xs) (a ∷ ys) (subst Distinct (sym (append_assoc ws xs (a ∷ ys))) h) in
    let n = NotIn-append_right a ys (ws ++ xs) behind.0 in
    let turned =
      Distinct-swap (ys ++ ws) xs (subst Distinct (sym (append_assoc ys ws xs)) behind.1) in
    let out = NotIn-append a xs (ys ++ ws) (NotIn-append_right a ws xs n) (
      NotIn-append a ys ws (NotIn-append_left a ys (ws ++ xs) behind.0)
        (NotIn-append_left a ws xs n)) in
    let whole = subst (λ l. Distinct (a ∷ l)) (sym (append_assoc xs ys ws)) (out, turned) in
    subst Distinct (sym (append_assoc ws (a ∷ []) (xs ++ ys)))
      (Distinct-swap (a ∷ xs ++ ys) ws whole)

module _ {U : Type 0} where
  -- The kernels that a run can reach, with the groups in use. A group that is handled is released with
  -- its missives; besides, a run may change all but the available groups and the next address.
  pub data PoolRun : Kernel U → List ℕ → Type 0 where
    inited : (fst : ℕ) (k : Kernel U) → PoolRun (init_kernel fst k) []
    acquired :
        {k : Kernel U} {out : List ℕ}
        → PoolRun k out
        → PoolRun (acquire_grp k).1 (out ++ (acquire_grp k).0 ∷ [])
    released :
        {k : Kernel U} (xs : List ℕ) (a : ℕ) (ys : List ℕ)
        → (k.grps a).handled ≡ true
        → PoolRun k (xs ++ a ∷ ys)
        → PoolRun (release_sent a k) (xs ++ ys)
    worked :
        {k : Kernel U} {out : List ℕ} (k' : Kernel U)
        → k'.available_grps ≡ k.available_grps
        → k'.next_grp ≡ k.next_grp
        → ((a : ℕ) → NotIn a out → k'.grps a ≡ k.grps a)
        → PoolRun k out
        → PoolRun k' out

  -- What is available stays empty where no group of the list changes.
  still_empty :
      (k k' : Kernel U) (out l : List ℕ)
      → ((a : ℕ) → NotIn a out → k'.grps a ≡ k.grps a)
      → Apart l out
      → All (λ a. (k.grps a).all_agts ≡ []) l
      → All (λ a. (k'.grps a).all_agts ≡ []) l
  still_empty k k' out [] same d h = tt
  still_empty k k' out (b ∷ l) same d h =
      (ap (λ g. g.all_agts) (same b d.0) ∙ h.0, still_empty k k' out l same d.1 h.1)

  worked-PoolOk :
      (k k' : Kernel U) (out : List ℕ)
      → k'.available_grps ≡ k.available_grps
      → k'.next_grp ≡ k.next_grp
      → ((a : ℕ) → NotIn a out → k'.grps a ≡ k.grps a)
      → PoolOk k out
      → PoolOk k' out
  worked-PoolOk k k' out e n same p = record {
    empty = subst (All (λ a. (k'.grps a).all_agts ≡ [])) (sym e) (
        still_empty k k' out k.available_grps same
          (Distinct-parts k.available_grps out p.distinct).2 p.empty);
    distinct = subst (λ l. Distinct (l ++ out)) (sym e) p.distinct;
    below =
        subst (λ l. All (λ a. a < k'.next_grp) (l ++ out)) (sym e)
          (subst (λ m. All (λ a. a < m) (k.available_grps ++ out)) (sym n) p.below);
  }

  released_kernel : ℕ → Kernel U → Kernel U
  unfolding release_grp
  released_kernel a k = release_grp a (record k {
    grps = put_at a (record (k.grps a) { all_agts = [] }) k.grps;
    sent_work = remove a k.sent_work;
  })

  release_sent-handled :
      (k : Kernel U) (a : ℕ)
      → (k.grps a).handled ≡ true
      → release_sent a k
        ≡ record (released_kernel a k) { did_work = 9 ∷ (released_kernel a k).did_work }
  unfolding release_sent released_kernel
  release_sent-handled k a h = ground (arith, h)

  released-PoolOk :
      (k : Kernel U) (xs : List ℕ) (a : ℕ) (ys : List ℕ)
      → PoolOk k (xs ++ a ∷ ys)
      → PoolOk (released_kernel a k) (xs ++ ys)
  unfolding released_kernel
  released-PoolOk k xs a ys p =
      let d = Distinct-parts k.available_grps (xs ++ a ∷ ys) p.distinct in
      record {
        empty =
            All-append (λ b. ((released_kernel a k).grps b).all_agts ≡ []) k.available_grps (a ∷ [])
              (still_empty k (released_kernel a k) (xs ++ a ∷ ys) k.available_grps other d.2
                p.empty)
              (rw (==_self a), tt);
        distinct = Distinct-move k.available_grps xs a ys p.distinct;
        below = All-move (λ b. b < k.next_grp) k.available_grps xs a ys p.below;
      }
    where
      other : (b : ℕ) → NotIn b (xs ++ a ∷ ys) → (released_kernel a k).grps b ≡ k.grps b
      other b n = rw (==_ne (NotIn-append_right b xs (a ∷ ys) n).0)

  PoolRun-PoolOk : (k : Kernel U) (out : List ℕ) → PoolRun k out → PoolOk k out
  unfolding init_kernel
  PoolRun-PoolOk _ _ (inited fst k) = record { empty = tt; distinct = tt; below = tt }
  PoolRun-PoolOk _ _ (acquired {k} {out} r) =
      (acquire_grp-Acquired k out (PoolRun-PoolOk k out r)).pool
  PoolRun-PoolOk _ _ (released {k} xs a ys h r) =
      let p = released-PoolOk k xs a ys (PoolRun-PoolOk k (xs ++ a ∷ ys) r) in
      subst (λ j. PoolOk j (xs ++ ys)) (sym (release_sent-handled k a h))
        (record { empty = p.empty; distinct = p.distinct; below = p.below })
  PoolRun-PoolOk _ _ (worked {k} {out} k' e n same r) =
      worked-PoolOk k k' out e n same (PoolRun-PoolOk k out r)

  -- In a run from `init_kernel` on, in which groups are acquired, filled and handled while in use, and
  -- released by the loop over `sent_work` once they are handled, a group that is acquired is in no use
  -- and empty, also where it was used before, and no other group changes.
  pub acquire_grp-PoolRun :
      (k : Kernel U) (out : List ℕ)
      → PoolRun k out
      → Acquired k (acquire_grp k).1 (acquire_grp k).0 out
  acquire_grp-PoolRun k out r = acquire_grp-Acquired k out (PoolRun-PoolOk k out r)
