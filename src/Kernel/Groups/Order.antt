-- ===== src/Kernel/Groups/Order.antt =====
-- `add_out_missive` as a whole: missives for one workeru keep their order.
use messaging_cells.Common.{
  ℕ, ◌≡◌, ◌≢◌, refl, sym, ap, ap₂, ◌∙◌, ==_self, ==_ne, inl, inr, none, List, [], ◌∷◌, ◌++◌,
  append-nil, append_assoc, All, NotIn, NotIn-append, NotIn-append_right, Distinct-parts, Apart,
}
use messaging_cells.Kernel.State.{Missive, AgentGrp, Kernel, ok, put_at}
use messaging_cells.Kernel.Calls.{acquire_grp}
use messaging_cells.Kernel.Send.{find_grp, add_to_grp, new_out_grp, add_out_missive}
use messaging_cells.Kernel.Groups.Pool.{PoolOk, acquire_grp-Acquired}
use messaging_cells.Kernel.Groups.{
  for_owner, waiting, IsFor, Grouped, waiting-put_at, Grouped-put_at, Takes, find_grp-cases,
}

-- Groups that agree on `out` hold the same there.
waiting-same :
    (f g : ℕ → AgentGrp) (a e : ℕ) (out : List ℕ)
    → ((b : ℕ) → a ≢ b → f b ≡ g b)
    → NotIn a out
    → waiting f e out ≡ waiting g e out
unfolding waiting
waiting-same f g a e [] same n = refl
waiting-same f g a e (b ∷ out) same n = rw (same b n.0, waiting-same f g a e out same n.1)

Grouped-same :
    (f g : ℕ → AgentGrp) (a : ℕ) (out ds : List ℕ)
    → ((b : ℕ) → a ≢ b → f b ≡ g b)
    → NotIn a out
    → Grouped g out ds
    → Grouped f out ds
Grouped-same f g a [] [] same n h = tt
Grouped-same f g a [] (d ∷ ds) same n h = absurd h
Grouped-same f g a (b ∷ out) [] same n h = absurd h
Grouped-same f g a (b ∷ out) (d ∷ ds) same n h =
    (rw (same b n.0) h.0, h.1, h.2, Grouped-same f g a out ds same n.1 h.3)

waiting-append :
    (f : ℕ → AgentGrp) (e a : ℕ) (out : List ℕ)
    → waiting f e (out ++ a ∷ []) ≡ waiting f e out ++ for_owner e (f a).all_agts
unfolding waiting
waiting-append f e a [] = append-nil _
waiting-append f e a (b ∷ out) = rw (waiting-append f e a out, append_assoc)

Grouped-append :
    (f : ℕ → AgentGrp) (a d : ℕ) (out ds : List ℕ)
    → Grouped f out ds
    → NotIn a out
    → NotIn d ds
    → IsFor d (f a)
    → Grouped f (out ++ a ∷ []) (ds ++ d ∷ [])
Grouped-append f a d [] [] h na nd i = (i, tt, tt, tt)
Grouped-append f a d [] (c ∷ ds) h na nd i = absurd h
Grouped-append f a d (b ∷ out) [] h na nd i = absurd h
Grouped-append f a d (b ∷ out) (c ∷ ds) h na nd i = (
  h.0,
  NotIn-append b out (a ∷ []) h.1 ((λ e. na.0 (sym e)), tt),
  NotIn-append c ds (d ∷ []) h.2 ((λ e. nd.0 (sym e)), tt),
  Grouped-append f a d out ds h.3 na.1 nd.1 i,
)

module _ {U : Type 0} where
  -- What `add_out_missive` makes of the groups `out` of `k`, beside the groups `sent` in use.
  pub record Added (m : Missive) (k : Kernel U) (sent out : List ℕ) : Type 0 where
    pub out' : List ℕ
    pub k' : Kernel U
    pub ds' : List ℕ
    pub runs : add_out_missive m out k ≡ ok (out', k')
    pub grouped : Grouped k'.grps out' ds'
    pub pool : PoolOk k' (sent ++ out')
    pub order : (e : ℕ) → waiting k'.grps e out' ≡ waiting k.grps e out ++ for_owner e (m ∷ [])

  -- A write to a group in use leaves the pool as it is.
  PoolOk-put_at :
      (k : Kernel U) (out : List ℕ) (a : ℕ) (v : AgentGrp)
      → ((b : ℕ) → NotIn b out → b ≢ a)
      → PoolOk k out
      → PoolOk (record k { grps = put_at a v k.grps }) out
  PoolOk-put_at k out a v among p = record {
    empty = still k.available_grps (Distinct-parts k.available_grps out p.distinct).2 p.empty;
    distinct = p.distinct;
    below = p.below;
  }
    where
      still :
          (l : List ℕ)
          → Apart l out
          → All (λ b. (k.grps b).all_agts ≡ []) l
          → All (λ b. (put_at a v k.grps b).all_agts ≡ []) l
      still [] d h = tt
      still (b ∷ l) d h = (rw (==_ne (among b d.0)) h.0, still l d.1 h.1)

  add_to_found :
      (m : Missive) (k : Kernel U) (sent out ds : List ℕ) (a : ℕ)
      → Takes k.grps m.dst.owner a out ds
      → PoolOk k (sent ++ out)
      → Added m k sent out
  unfolding add_out_missive
  add_to_found m k sent out ds a t p = record {
    out' = out;
    k' = record k { grps = put_at a (add_to_grp m (k.grps a)) k.grps };
    ds' = ds;
    runs = rw t.found;
    grouped = t.grouped m refl;
    pool =
        PoolOk-put_at k (sent ++ out) a (add_to_grp m (k.grps a))
          (λ b n. t.among b (NotIn-append_right b sent out n)) p;
    order = t.behind m refl;
  }

  add_to_new :
      (m : Missive) (k : Kernel U) (sent out ds : List ℕ)
      → find_grp k.grps m.dst.owner out ≡ ok none
      → NotIn m.dst.owner ds
      → Grouped k.grps out ds
      → PoolOk k (sent ++ out)
      → Added m k sent out
  unfolding add_out_missive new_out_grp add_to_grp
  add_to_new m k sent out ds e n g p =
      let got = acquire_grp-Acquired k (sent ++ out) p in
      let a = (acquire_grp k).0 in
      let j = (acquire_grp k).1 in
      let na = NotIn-append_right a sent out got.new in
      let v = add_to_grp m (j.grps a) in
      let one : v.all_agts ≡ m ∷ [] = ap (λ l. l ++ m ∷ []) got.agts in
      let here : put_at a v j.grps a ≡ v = rw (==_self a) in
      let p' : PoolOk j (sent ++ (out ++ a ∷ [])) =
        rw (append_assoc sent out (a ∷ [])) at got.pool in
      record {
        out' = out ++ a ∷ [];
        k' = record j { grps = put_at a v j.grps };
        ds' = ds ++ m.dst.owner ∷ [];
        runs = rw e;
        grouped =
            Grouped-append (put_at a v j.grps) a m.dst.owner out ds
              (Grouped-put_at j.grps a v out ds na
                (Grouped-same j.grps k.grps a out ds got.others na g))
              na n
              (rw here
                (record { first = m; others = []; agts = one; first_to = refl; others_to = tt }));
        pool =
            PoolOk-put_at j (sent ++ (out ++ a ∷ [])) a v
              (λ b k.
                (NotIn-append_right b out (a ∷ []) (NotIn-append_right b sent (out ++ a ∷ []) k)).0)
              p';
        order = λ e.
            waiting-append (put_at a v j.grps) e a out
            ∙ ap₂ (λ x y. x ++ for_owner e y)
                (waiting-put_at j.grps e a v out na
                  ∙ waiting-same j.grps k.grps a e out got.others na)
                (ap (λ (w : AgentGrp). w.all_agts) here ∙ one);
      }

  -- `add_out_missive` always gives a result: the groups stay one for each workeru, each for that
  -- workeru alone, no group is used twice, and the missive goes behind all that wait for its workeru,
  -- while what waits for the others does not change.
  pub add_out_missive-Added :
      (m : Missive) (k : Kernel U) (sent out ds : List ℕ)
      → Grouped k.grps out ds
      → PoolOk k (sent ++ out)
      → Added m k sent out
  add_out_missive-Added m k sent out ds g p = elim (find_grp-cases k.grps m.dst.owner out ds g) [
    | inl (e, n) ↦ add_to_new m k sent out ds e n g p
    | inr (a, t) ↦ add_to_found m k sent out ds a t p
  ]
