-- ===== src/Link/Delivery.antt =====
-- What a receiver gets of what its senders send, in every interleaving of their accesses.
use messaging_cells.Common.{
  ℕ, ◌≡◌, ◌≢◌, ◌==◌, if◌then◌else◌, false, ◌⊎◌, inl, inr, eq-or-ne, Option-cases, refl, sym, ap,
  subst, ◌∙◌, Option, none, some, List, [], ◌∷◌, ◌++◌, append-nil, ==_ne, ==_self, arith,
}
use messaging_cells.Kernel.State.{GrpPt, Ack, put_at}
use messaging_cells.Link.Pw0.{
  away, marked, resting, took, Link, Step, mark, store, raise, lower, skip, take, answer, rest,
  Reach, initial, later,
}
use messaging_cells.Link.Invariant.{Ahead, LinkOk, Reach-LinkOk}

-- The groups of the sender `i` among those taken, in their order.
pub received : ℕ → List GrpPt → List ℕ
received i [] = []
received i (g ∷ gs) = if g.owner == i then g.at ∷ received i gs else received i gs

abbrev pub pending : Option ℕ → List ℕ
pending none = []
pending (some a) = a ∷ []

received-append :
    (i : ℕ) (xs ys : List GrpPt) → received i (xs ++ ys) ≡ received i xs ++ received i ys
unfolding received
received-append i [] ys = refl
received-append i (x ∷ xs) ys = ground (arith, received-append i xs ys)

received_one :
    (i a : ℕ) (xs : List GrpPt)
    → received i (xs ++ record { owner = i; at = a } ∷ []) ≡ received i xs ++ a ∷ []
unfolding received
received_one i a xs = received-append i xs _ ∙ rw (==_self i)

received_other :
    (i j a : ℕ) (xs : List GrpPt)
    → i ≢ j
    → received j (xs ++ record { owner = i; at = a } ∷ []) ≡ received j xs
unfolding received
received_other i j a xs n = received-append j xs _ ∙ rw (==_ne n, append-nil (received j xs))

-- A sender that waits has still to store, or its group is in the slot, or the receiver is about to
-- answer.
Waits : Link → Type 0
Waits s =
    (i : ℕ)
    → s.ack i ≡ Ack.busy
    → ((a : ℕ) × (s.snd i ≡ marked a)) ⊎ ((a : ℕ) × (s.slot i ≡ some a)) ⊎ (s.rcv ≡ took i)

Logged : Link → Type 0
Logged s = (i : ℕ) → s.sent i ≡ received i s.in_work ++ pending (s.slot i)

Step-Waits : {s t : Link} → Step s t → LinkOk s → Waits s → Waits t
unfolding Waits
Step-Waits {s} (mark i a l e n) o w j b = elim (eq-or-ne j i) [
  | inl y ↦ inl (a, ground (arith, y))
  | inr y ↦ elim (w j (ground (arith, y, b))) [
    | inl (c, h) ↦ inl (c, ground (arith, y, h))
    | inr h ↦ inr h
  ]
]
Step-Waits {s} (store i a e) o w j b = elim (eq-or-ne j i) [
  | inl y ↦ inr (inl (a, ground (arith, y)))
  | inr y ↦ elim (w j b) [
    | inl (c, h) ↦ inl (c, ground (arith, y, h))
    | inr (inl (c, h)) ↦ inr (inl (c, ground (arith, y, h)))
    | inr (inr h) ↦ inr (inr h)
  ]
]
Step-Waits {s} (raise i e) o w j b = elim (w j b) [
  | inl (c, h) ↦ inl (c, ground (arith, e, h))
  | inr h ↦ inr h
]
Step-Waits {s} (lower e h) o w j b = elim (w j b) [
  | inl y ↦ inl y
  | inr (inl y) ↦ inr (inl y)
  | inr (inr y) ↦ cc
]
Step-Waits {s} (skip aa e l h) o w j b = elim (w j b) [
  | inl y ↦ inl y
  | inr (inl y) ↦ inr (inl y)
  | inr (inr y) ↦ cc
]
Step-Waits {s} (take aa a e l h) o w j b = elim (eq-or-ne j aa) [
  | inl y ↦ inr (inr (ap took (sym y)))
  | inr y ↦ elim (w j b) [
    | inl z ↦ inl z
    | inr (inl (c, z)) ↦ inr (inl (c, ground (arith, y, z)))
    | inr (inr z) ↦ cc
  ]
]
Step-Waits {s} (answer aa e) o w j b = elim (eq-or-ne j aa) [
  | inl y ↦ absurd (ready y)
  | inr y ↦ elim (w j (ground (arith, y, b))) [
    | inl z ↦ inl z
    | inr (inl z) ↦ inr (inl z)
    | inr (inr z) ↦ ground (arith, e, z, y)
  ]
]
  where
    ready : j ≡ aa → ⊥
    ready y = ground (arith, y, b)
Step-Waits {s} (rest e) o w j b = elim (w j b) [
  | inl y ↦ inl y
  | inr (inl y) ↦ inr (inl y)
  | inr (inr y) ↦ cc
]

Step-Logged : {s t : Link} → Step s t → LinkOk s → Logged s → Logged t
unfolding Logged
Step-Logged {s} (mark i a l e n) o w j = w j
Step-Logged {s} (store i a e) o w j = elim (eq-or-ne j i) [
  | inl y ↦
      subst
        (λ x.
          put_at i (s.sent i ++ a ∷ []) s.sent x
          ≡ received x s.in_work ++ pending (put_at i (some a) s.slot x))
        (sym y)
        (rw (==_self i) (ap (λ l. l ++ a ∷ []) (settled (s.slot i) (o.empty i a e).2 (w i))))
  | inr y ↦ rw (==_ne y) (w j)
]
  where
    settled :
        (p : Option ℕ)
        → p ≡ none
        → s.sent i ≡ received i s.in_work ++ pending p
        → s.sent i ≡ received i s.in_work
    settled p z h =
        subst (λ q. s.sent i ≡ received i s.in_work ++ pending q) z h
        ∙ append-nil (received i s.in_work)
Step-Logged {s} (raise i e) o w j = w j
Step-Logged {s} (lower e h) o w j = w j
Step-Logged {s} (skip aa e l h) o w j = w j
Step-Logged {s} (take aa a e l h) o w j = elim (eq-or-ne j aa) [
  | inl y ↦
      subst
        (λ x.
          s.sent x
          ≡ received x (s.in_work ++ record { owner = aa; at = a } ∷ [])
            ++ pending (put_at aa none s.slot x))
        (sym y)
        (rw (==_self aa, received_one aa a s.in_work, append-nil (received aa s.in_work ++ a ∷ []))
          (subst (λ q. s.sent aa ≡ received aa s.in_work ++ pending q) h (w aa)))
  | inr y ↦ rw (==_ne y, received_other aa j a s.in_work (λ q. y (sym q))) (w j)
]
Step-Logged {s} (answer aa e) o w j = w j
Step-Logged {s} (rest e) o w j = w j

Reach-Waits : {s : Link} → Reach s → Waits s
unfolding Waits
Reach-Waits initial i b = cc
Reach-Waits (later r st) i b = (Step-Waits st (Reach-LinkOk r) (Reach-Waits r)) i b

Reach-Logged : {s : Link} → Reach s → Logged s
unfolding Logged received
Reach-Logged initial i = refl
Reach-Logged (later r st) i = (Step-Logged st (Reach-LinkOk r) (Reach-Logged r)) i

-- In every state that the accesses can reach, what a sender has stored is what the receiver has
-- taken from it, in that order and each group once, and then the group in its slot, if there is one.
pub sent-received :
    (s : Link) → Reach s → (i : ℕ) → s.sent i ≡ received i s.in_work ++ pending (s.slot i)
unfolding Logged
sent-received s r i = Reach-Logged r i

-- No wake-up is lost: in every state that the accesses can reach, when the receiver rests with its
-- signal low and the sender `i` is between two sends, all that it has stored was taken, and it does
-- not wait for an acknowledgement.
pub quiet-delivered :
    (s : Link) (i : ℕ)
    → Reach s
    → s.rcv ≡ resting
    → s.sgnl ≡ false
    → s.snd i ≡ away
    → (s.sent i ≡ received i s.in_work) × (s.ack i ≢ Ack.busy)
unfolding Logged Waits
quiet-delivered s i r e l h =
    let o = Reach-LinkOk r in
    let n = no_group o (Option-cases (s.slot i)) in
    (
      subst (λ q. s.sent i ≡ received i s.in_work ++ pending q) n (Reach-Logged r i)
          ∙ append-nil (received i s.in_work),
      λ b. elim (Reach-Waits r i b) [ inl (a, y) ↦ cc | inr (inl (a, y)) ↦ cc | inr (inr y) ↦ cc ],
    )
  where
    unseen : (a : ℕ) → LinkOk s → s.slot i ≡ some a → ⊥
    unseen a o y = elim (o.seen i a y) [
      | inl z ↦ cc
      | inr (inl z) ↦ cc
      | inr (inr z) ↦ subst (Ahead i) e z
    ]

    no_group : LinkOk s → (s.slot i ≡ none) ⊎ ((a : ℕ) × (s.slot i ≡ some a)) → s.slot i ≡ none
    no_group o (inl y) = y
    no_group o (inr (a, y)) = absurd (unseen a o y)
