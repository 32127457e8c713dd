-- ===== src/Kernel/Groups.antt =====
-- `add_out_missive`: the groups that wait in `out_work`.
pub mod Pool
pub mod Order
pub mod Reuse
use messaging_cells.Common.{
  ℕ, ◌≡◌, ◌≢◌, refl, sym, ap, subst, ◌∙◌, ◌==◌, ==_ne, ==_self, eq-or-ne, ◌⊎◌, inl, inr, true,
  false, if◌then◌else◌, Option, none, some, List, [], ◌∷◌, ◌++◌, append-nil, append_assoc, All,
  All-append, NotIn, Distinct, arith,
}
use messaging_cells.Kernel.State.{Missive, AgentGrp, Kernel, ok, put_at}
use messaging_cells.Kernel.Send.{find_grp, add_to_grp, new_out_grp, add_out_missive}

-- The missives for the workeru `d`, in their order.
pub for_owner : ℕ → List Missive → List Missive
for_owner d [] = []
for_owner d (m ∷ ms) = if m.dst.owner == d then m ∷ for_owner d ms else for_owner d ms

-- Those that wait in the groups `out`.
pub waiting : (ℕ → AgentGrp) → ℕ → List ℕ → List Missive
waiting grps d [] = []
waiting grps d (a ∷ out) = for_owner d (grps a).all_agts ++ waiting grps d out

-- A group has a first missive, and all its missives go to the workeru `d`.
pub record IsFor (d : ℕ) (g : AgentGrp) : Type 0 where
  pub first : Missive
  pub others : List Missive
  pub agts : g.all_agts ≡ first ∷ others
  pub first_to : first.dst.owner ≡ d
  pub others_to : All (λ m. m.dst.owner ≡ d) others

-- The groups `out` are for the workerus `ds`, one for each.
abbrev pub Grouped : (ℕ → AgentGrp) → List ℕ → List ℕ → Type 0
Grouped grps [] [] = Unit
Grouped grps (a ∷ out) (d ∷ ds) = IsFor d (grps a) × NotIn a out × NotIn d ds × Grouped grps out ds
Grouped grps _ _ = ⊥

for_owner-append :
    (d : ℕ) (xs ys : List Missive) → for_owner d (xs ++ ys) ≡ for_owner d xs ++ for_owner d ys
unfolding for_owner
for_owner-append d [] ys = refl
for_owner-append d (x ∷ xs) ys = ground (arith, for_owner-append d xs ys)

for_owner-ne :
    (d e : ℕ) (ms : List Missive) → d ≢ e → All (λ m. m.dst.owner ≡ d) ms → for_owner e ms ≡ []
unfolding for_owner
for_owner-ne d e [] n h = refl
for_owner-ne d e (m ∷ ms) n h = ground (arith, for_owner-ne d e ms n h.1)

IsFor-ne : (d e : ℕ) (g : AgentGrp) → d ≢ e → IsFor d g → for_owner e g.all_agts ≡ []
IsFor-ne d e g n h =
    ap (for_owner e) h.agts ∙ for_owner-ne d e (h.first ∷ h.others) n (h.first_to, h.others_to)

-- No group for `e` means that nothing waits for `e`.
waiting-none :
    (grps : ℕ → AgentGrp) (e : ℕ) (out ds : List ℕ)
    → Grouped grps out ds
    → NotIn e ds
    → waiting grps e out ≡ []
unfolding waiting
waiting-none grps e [] [] g n = refl
waiting-none grps e [] (d ∷ ds) g n = absurd g
waiting-none grps e (a ∷ out) [] g n = absurd g
waiting-none grps e (a ∷ out) (d ∷ ds) g n =
    rw (IsFor-ne d e (grps a) (λ p. n.0 (sym p)) g.0) (waiting-none grps e out ds g.3 n.1)

-- A write to a group that is not among `out`.
pub waiting-put_at :
    (grps : ℕ → AgentGrp) (e a : ℕ) (v : AgentGrp) (out : List ℕ)
    → NotIn a out
    → waiting (put_at a v grps) e out ≡ waiting grps e out
unfolding waiting
waiting-put_at grps e a v [] n = refl
waiting-put_at grps e a v (b ∷ out) n =
    rw (==_ne (λ p. n.0 (sym p)), waiting-put_at grps e a v out n.1)

pub Grouped-put_at :
    (grps : ℕ → AgentGrp) (a : ℕ) (v : AgentGrp) (out ds : List ℕ)
    → NotIn a out
    → Grouped grps out ds
    → Grouped (put_at a v grps) out ds
Grouped-put_at grps a v [] [] n g = tt
Grouped-put_at grps a v [] (d ∷ ds) n g = absurd g
Grouped-put_at grps a v (b ∷ out) [] n g = absurd g
Grouped-put_at grps a v (b ∷ out) (d ∷ ds) n g =
    (rw (==_ne (λ p. n.0 (sym p))) g.0, g.1, g.2, Grouped-put_at grps a v out ds n.1 g.3)

IsFor-add :
    (d : ℕ) (m : Missive) (g : AgentGrp) → m.dst.owner ≡ d → IsFor d g → IsFor d (add_to_grp m g)
unfolding add_to_grp
IsFor-add d m g e h = record {
  first = h.first;
  others = h.others ++ m ∷ [];
  agts = ap (λ l. l ++ m ∷ []) h.agts;
  first_to = h.first_to;
  others_to = All-append (λ n. n.dst.owner ≡ d) h.others (m ∷ []) h.others_to (e, tt);
}

-- The group `a` of `out` takes a missive for `d`: what then waits, and for whom.
pub record Takes (grps : ℕ → AgentGrp) (d a : ℕ) (out ds : List ℕ) : Type 0 where
  pub found : find_grp grps d out ≡ ok (some a)
  pub among : (b : ℕ) → NotIn b out → b ≢ a
  pub grouped :
      (m : Missive) → m.dst.owner ≡ d → Grouped (put_at a (add_to_grp m (grps a)) grps) out ds
  pub behind :
      (m : Missive)
      → m.dst.owner ≡ d
      → (e : ℕ)
      → waiting (put_at a (add_to_grp m (grps a)) grps) e out
        ≡ waiting grps e out ++ for_owner e (m ∷ [])

for_owner-one : (e : ℕ) (m : Missive) → m.dst.owner ≢ e → for_owner e (m ∷ []) ≡ []
unfolding for_owner
for_owner-one e m n = rw (==_ne n)

-- Behind the group for `d` nothing waits for `d`, so its new missive comes last.
first-behind :
    (grps : ℕ → AgentGrp) (a d : ℕ) (out ds : List ℕ) (m : Missive)
    → Grouped grps (a ∷ out) (d ∷ ds)
    → m.dst.owner ≡ d
    → (e : ℕ)
    → waiting (put_at a (add_to_grp m (grps a)) grps) e (a ∷ out)
      ≡ waiting grps e (a ∷ out) ++ for_owner e (m ∷ [])
unfolding waiting add_to_grp
first-behind grps a d out ds m g t e =
    rw
      (
        ==_self a,
        waiting-put_at grps e a (add_to_grp m (grps a)) out g.1,
        for_owner-append e (grps a).all_agts (m ∷ []),
        append_assoc,
        append_assoc,
      )
      (ap (λ l. for_owner e (grps a).all_agts ++ l) (swap (eq-or-ne d e)))
  where
    swap :
        (d ≡ e) ⊎ (d ≢ e)
        → for_owner e (m ∷ []) ++ waiting grps e out ≡ waiting grps e out ++ for_owner e (m ∷ [])
    swap (inl p) = rw (waiting-none grps e out ds g.3 (rw p at g.2)) (append-nil _)
    swap (inr n) = rw (for_owner-one e m (λ p. n (sym t ∙ p))) (sym (append-nil _))

find_grp-first :
    (grps : ℕ → AgentGrp) (a d : ℕ) (out ds : List ℕ)
    → Grouped grps (a ∷ out) (d ∷ ds)
    → Takes grps d a (a ∷ out) (d ∷ ds)
unfolding find_grp
find_grp-first grps a d out ds g = record {
  found = ground (arith, g.0.agts, g.0.first_to);
  among = λ b n. n.0;
  grouped = λ m e. (
    rw (==_self a) (IsFor-add d m (grps a) e g.0),
    g.1,
    g.2,
    Grouped-put_at grps a _ out ds g.1 g.3,
  );
  behind = λ m t e. first-behind grps a d out ds m g t e;
}

find_grp-later :
    (grps : ℕ → AgentGrp) (b c d a : ℕ) (out ds : List ℕ)
    → Grouped grps (b ∷ out) (c ∷ ds)
    → c ≢ d
    → Takes grps d a out ds
    → Takes grps d a (b ∷ out) (c ∷ ds)
unfolding find_grp waiting
find_grp-later grps b c d a out ds g n h =
    let ne : b ≢ a = h.among b g.1 in
    record {
      found = ground (arith, g.0.agts, g.0.first_to, n, h.found);
      among = λ x k. h.among x k.1;
      grouped = λ m e. (rw (==_ne ne) g.0, g.1, g.2, h.grouped m e);
      behind = λ m t e. rw (==_ne ne, h.behind m t e, append_assoc);
    }

Takes-eq :
    (grps : ℕ → AgentGrp) (c d a : ℕ) (out ds : List ℕ)
    → c ≡ d
    → Takes grps c a out ds
    → Takes grps d a out ds
Takes-eq grps c d a out ds p h = subst (λ x. Takes grps x a out ds) p h

pub find_grp-cases :
    (grps : ℕ → AgentGrp) (d : ℕ) (out ds : List ℕ)
    → Grouped grps out ds
    → ((find_grp grps d out ≡ ok none) × NotIn d ds) ⊎ ((a : ℕ) × Takes grps d a out ds)
unfolding find_grp
find_grp-cases grps d [] [] g = inl (refl, tt)
find_grp-cases grps d [] (c ∷ ds) g = absurd g
find_grp-cases grps d (b ∷ out) [] g = absurd g
find_grp-cases grps d (b ∷ out) (c ∷ ds) g = elim (eq-or-ne c d) [
  | inl p ↦ inr (b, Takes-eq grps c d b (b ∷ out) (c ∷ ds) p (find_grp-first grps b c out ds g))
  | inr n ↦ elim (find_grp-cases grps d out ds g.3) [
    | inl (e, out_of) ↦
        inl (ground (arith, g.0.agts, g.0.first_to, n, e), ((λ p. n (sym p)), out_of))
    | inr (a, h) ↦ inr (a, find_grp-later grps b c d a out ds g n h)
  ]
]
