-- ===== src/Link/Invariant.antt =====
-- What holds between any two accesses.
use messaging_cells.Common.{
  ℕ, ◌+◌, ◌<◌, ◌≤◌, ◌≡◌, ◌≢◌, true, ◌⊎◌, inl, inr, eq-or-ne, Option-cases, refl, sym, subst, none,
  some, arith,
}
use messaging_cells.Kernel.State.{Ack, put_at}
use messaging_cells.Link.Pw0.{
  marked, stored, Receiver, resting, scanning, took, Link, Step, mark, store, raise, lower, skip,
  take, answer, rest, Reach, initial, later, start,
}

-- The receiver will still look at the slot `i` in this scan.
abbrev pub Ahead : ℕ → Receiver → Type 0
Ahead i resting = ⊥
Ahead i (scanning aa) = aa ≤ i
Ahead i (took aa) = aa < i

pub record LinkOk (s : Link) : Type 0 where
  pub full : (i a : ℕ) → s.slot i ≡ some a → (i < 16) × (s.ack i ≡ Ack.busy)
  pub seen : (i a : ℕ) → s.slot i ≡ some a → (s.sgnl ≡ true) ⊎ (s.snd i ≡ stored) ⊎ Ahead i s.rcv
  pub empty :
      (i a : ℕ)
      → s.snd i ≡ marked a
      → (i < 16) × (s.ack i ≡ Ack.busy) × (s.slot i ≡ none) × (s.rcv ≢ took i)
  pub owed : (i : ℕ) → s.rcv ≡ took i → (i < 16) × (s.ack i ≡ Ack.busy) × (s.slot i ≡ none)

start-LinkOk : LinkOk start
start-LinkOk = record {
  full = λ i a e. cc;
  seen = λ i a e. cc;
  empty = λ i a e. cc;
  owed = λ i e. cc;
}

Step-LinkOk : {s t : Link} → Step s t → LinkOk s → LinkOk t
Step-LinkOk {s} (mark i a l e n) o = record {
  full = λ j b f. ground (arith, o.full j b f);
  seen = λ j b f. ground (arith, o.seen j b f);
  empty = λ j b f. elim (eq-or-ne j i) [
    | inl y ↦
        subst
          (λ x.
            (x < 16)
            × (put_at i Ack.busy s.ack x ≡ Ack.busy)
            × (s.slot x ≡ none)
            × (s.rcv ≢ took x))
          (sym y) (l, ground arith, no_slot (Option-cases (s.slot i)), λ r. n (o.owed i r).1)
    | inr m ↦
        (let (p, q, r, u) = o.empty j b (ground (arith, m, f)) in (p, ground (arith, q), r, u))
  ];
  owed = λ j f. ground (arith, o.owed j f);
}
  where
    no_slot : (s.slot i ≡ none) ⊎ ((a : ℕ) × (s.slot i ≡ some a)) → s.slot i ≡ none
    no_slot (inl y) = y
    no_slot (inr (b, y)) = absurd (n (o.full i b y).1)
Step-LinkOk {s} (store i a e) o = record {
  full = λ j b f. ground (arith, o.full j b, o.empty i a e);
  seen = λ j b f. ground (arith, o.seen j b);
  empty = λ j b f. ground (arith, o.empty j b);
  owed = λ j f. ground (arith, o.owed j f, o.empty i a e);
}
Step-LinkOk {s} (raise i e) o = record {
  full = λ j b f. ground (arith, o.full j b f);
  seen = λ j b f. inl refl;
  empty = λ j b f. ground (arith, o.empty j b);
  owed = λ j f. ground (arith, o.owed j f);
}
Step-LinkOk {s} (lower e h) o = record {
  full = λ j b f. ground (arith, o.full j b f);
  seen = λ j b f. inr (inr (omega arith));
  empty = λ j b f. ground (arith, o.empty j b);
  owed = λ j f. cc;
}
Step-LinkOk {s} (skip aa e l h) o = record {
  full = λ j b f. o.full j b f;
  seen = λ j b f. elim (o.seen j b f) [
    | inl y ↦ inl y
    | inr (inl y) ↦ inr (inl y)
    | inr (inr y) ↦ inr (inr (passed j b f (subst (Ahead j) e y)))
  ];
  empty = λ j b f. ground (arith, o.empty j b f);
  owed = λ j f. cc;
}
  where
    passed : (j b : ℕ) → s.slot j ≡ some b → aa ≤ j → aa + 1 ≤ j
    passed j b f y = elim (eq-or-ne j aa) [ inl z ↦ ground (arith, z, f, h) | inr z ↦ omega arith ]
Step-LinkOk {s} (take aa a e l h) o = record {
  full = λ j b f. ground (arith, o.full j b);
  seen = λ j b f.
      (let g = before j b f in
        elim (o.seen j b g.0) [
          | inl y ↦ inl y
          | inr (inl y) ↦ inr (inl y)
          | inr (inr y) ↦ inr (inr (passed j g.1 (subst (Ahead j) e y)))
        ]);
  empty = λ j b f. ground (arith, o.empty j b, o.full aa a h);
  owed = λ j f. ground (arith, o.full aa a h);
}
  where
    before : (j b : ℕ) → put_at aa none s.slot j ≡ some b → (s.slot j ≡ some b) × (j ≢ aa)
    before j b f = elim (eq-or-ne j aa) [
      | inl z ↦ ground (arith, z, f)
      | inr z ↦ (ground (arith, z, f), z)
    ]

    passed : (j : ℕ) → j ≢ aa → aa ≤ j → aa < j
    passed j z y = omega arith
Step-LinkOk {s} (answer aa e) o = record {
  full = λ j b f. ground (arith, o.full j b f, o.owed aa e);
  seen = λ j b f. elim (o.seen j b f) [
    | inl y ↦ inl y
    | inr (inl y) ↦ inr (inl y)
    | inr (inr y) ↦ inr (inr (passed j (subst (Ahead j) e y)))
  ];
  empty = λ j b f. ground (arith, o.empty j b f, o.owed aa e);
  owed = λ j f. cc;
}
  where
    passed : (j : ℕ) → aa < j → aa + 1 ≤ j
    passed j y = omega arith
Step-LinkOk {s} (rest e) o = record {
  full = λ j b f. o.full j b f;
  seen = λ j b f. elim (o.seen j b f) [
    | inl y ↦ inl y
    | inr (inl y) ↦ inr (inl y)
    | inr (inr y) ↦ absurd (over j b f (subst (Ahead j) e y))
  ];
  empty = λ j b f. ground (arith, o.empty j b f);
  owed = λ j f. cc;
}
  where
    over : (j b : ℕ) → s.slot j ≡ some b → 16 ≤ j → ⊥
    over j b f y = let h = (o.full j b f).0 in omega arith

pub Reach-LinkOk : {s : Link} → Reach s → LinkOk s
Reach-LinkOk initial = start-LinkOk
Reach-LinkOk (later r st) = Step-LinkOk st (Reach-LinkOk r)
