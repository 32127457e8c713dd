-- ===== src/Kernel/Groups/Pool.antt =====
-- The pool of groups: `acquire_grp` and `release_grp`.
use messaging_cells.Common.{
  ℕ, ◌+◌, ◌<◌, ◌≡◌, ◌≢◌, refl, sym, ==_ne, ==_self, List, [], ◌∷◌, ◌++◌, append_assoc, All,
  All-append, NotIn, NotIn-append_right, Distinct, Distinct-swap, arith,
}
use messaging_cells.Kernel.State.{Kernel}
use messaging_cells.Kernel.Calls.{separate_grp, acquire_grp}

NotIn-fresh : (n : ℕ) (xs : List ℕ) → All (λ a. a < n) xs → NotIn n xs
NotIn-fresh n [] h = tt
NotIn-fresh n (x ∷ xs) h = ((λ e. omega arith), NotIn-fresh n xs h.1)

below_suc : (n : ℕ) (xs : List ℕ) → All (λ a. a < n) xs → All (λ a. a < n + 1) xs
below_suc n [] h = tt
below_suc n (x ∷ xs) h = (omega arith, below_suc n xs h.1)

module _ {U : Type 0} where
  -- `out` are the groups in use: none of them is available, none is available twice, and what is
  -- available is empty. All lie below the next address.
  pub record PoolOk (k : Kernel U) (out : List ℕ) : Type 0 where
    pub empty : All (λ a. (k.grps a).all_agts ≡ []) k.available_grps
    pub distinct : Distinct (k.available_grps ++ out)
    pub below : All (λ a. a < k.next_grp) (k.available_grps ++ out)

  -- What an acquired group `a` is: outside those in use, empty, and the others as they were.
  pub record Acquired (k k' : Kernel U) (a : ℕ) (out : List ℕ) : Type 0 where
    pub pool : PoolOk k' (out ++ a ∷ [])
    pub new : NotIn a out
    pub agts : (k'.grps a).all_agts ≡ []
    pub others : (b : ℕ) → a ≢ b → k'.grps b ≡ k.grps b

  fresh_grp : Kernel U → Kernel U
  unfolding separate_grp
  fresh_grp k = record (separate_grp k) { available_grps = [] }

  acquire_grp-fresh :
      (k : Kernel U) → k.available_grps ≡ [] → acquire_grp k ≡ (k.next_grp, fresh_grp k)
  unfolding acquire_grp fresh_grp
  acquire_grp-fresh k e = ground arith

  acquire_grp-first :
      (k : Kernel U) (a : ℕ) (rest : List ℕ)
      → k.available_grps ≡ a ∷ rest
      → acquire_grp k ≡ (a, record k { available_grps = rest })
  unfolding acquire_grp
  acquire_grp-first k a rest e = ground arith

  fresh_grp-Acquired :
      (k : Kernel U) (out : List ℕ)
      → k.available_grps ≡ []
      → PoolOk k out
      → Acquired k (fresh_grp k) k.next_grp out
  unfolding fresh_grp
  fresh_grp-Acquired k out e p =
      let below : All (λ a. a < k.next_grp) out = rw e at p.below in
      let distinct : Distinct out = rw e at p.distinct in
      let new = NotIn-fresh k.next_grp out below in
      record {
        pool = record {
          empty = tt;
          distinct = Distinct-swap (k.next_grp ∷ []) out (new, distinct);
          below =
              All-append (λ a. a < k.next_grp + 1) out (k.next_grp ∷ [])
                (below_suc k.next_grp out below) (omega arith, tt);
        };
        new = new;
        agts = rw (==_self k.next_grp);
        others = λ b n. rw (==_ne (λ q. n (sym q)));
      }

  first_grp-Acquired :
      (k : Kernel U) (out : List ℕ) (a : ℕ) (rest : List ℕ)
      → k.available_grps ≡ a ∷ rest
      → PoolOk k out
      → Acquired k (record k { available_grps = rest }) a out
  first_grp-Acquired k out a rest e p =
      let below : All (λ b. b < k.next_grp) (a ∷ rest ++ out) = rw e at p.below in
      let distinct : Distinct (a ∷ rest ++ out) = rw e at p.distinct in
      let empty : All (λ b. (k.grps b).all_agts ≡ []) (a ∷ rest) = rw e at p.empty in
      record {
        pool = record {
          empty = empty.1;
          distinct =
              rw (append_assoc rest out (a ∷ [])) at
                (Distinct-swap (a ∷ []) (rest ++ out) distinct);
          below =
              rw (append_assoc rest out (a ∷ [])) at
                (All-append (λ b. b < k.next_grp) (rest ++ out) (a ∷ []) below.1 (below.0, tt));
        };
        new = NotIn-append_right a rest out distinct.0;
        agts = empty.0;
        others = λ b n. refl;
      }

  -- An acquired group is in no use and empty, and no other group changes.
  pub acquire_grp-Acquired :
      (k : Kernel U) (out : List ℕ)
      → PoolOk k out
      → Acquired k (acquire_grp k).1 (acquire_grp k).0 out
  acquire_grp-Acquired k out p = by_list k.available_grps refl
    where
      by_list :
          (l : List ℕ) → k.available_grps ≡ l → Acquired k (acquire_grp k).1 (acquire_grp k).0 out
      by_list [] e = rw (acquire_grp-fresh k e) (fresh_grp-Acquired k out e p)
      by_list (a ∷ rest) e = rw (acquire_grp-first k a rest e) (first_grp-Acquired k out a rest e p)
