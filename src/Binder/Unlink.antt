-- ===== src/Binder/Unlink.antt =====
-- `let_go`: a binder leaves its ring.
use messaging_cells.Common.{
  ℕ, ◌≡◌, ◌≢◌, ==_ne, List, [], ◌∷◌, ◌++◌, append-nil, arith, NotIn, Distinct,
}
use messaging_cells.Binder.Heap.{Heap, set_left, set_right}
use messaging_cells.Binder.Ops.{let_go}
use messaging_cells.Binder.Ring.{
  Chain, last_of, All-last_of, Ring, Chain-append, Chain-parts, Chain-set_right, Chain-set_left,
  NotIn-sources, ne-last_of, last_of-NotIn-sources, Ring-rotate,
}

-- The heap after `let_go` of `p`, whose neighbours are `q` and `z`.
unlinked : (p q z : ℕ) → Heap → Heap
unlinked p q z h = set_right p p (set_left p p (set_left z q (set_right q z h)))

let_go-unlinked :
    (h : Heap) (p q z : ℕ)
    → h.bn_left p ≡ q
    → h.bn_right p ≡ z
    → p ≢ q
    → let_go p h ≡ unlinked p q z h
unfolding let_go unlinked set_right set_left
let_go-unlinked h p q z l r ne = rw (l, r, ==_ne ne)

closes_of :
    (p q z : ℕ) (h : Heap)
    → p ≢ q
    → p ≢ z
    → ((unlinked p q z h).bn_right q ≡ z)
      × ((unlinked p q z h).bn_left z ≡ q)
      × ((unlinked p q z h).bn_right p ≡ p)
      × ((unlinked p q z h).bn_left p ≡ p)
unfolding unlinked set_right set_left
closes_of p q z h n m = ground arith

unlinked_same :
    (p q z : ℕ) (h : Heap) (a : ℕ)
    → a ≢ p
    → a ≢ q
    → a ≢ z
    → ((unlinked p q z h).bn_right a ≡ h.bn_right a) × ((unlinked p q z h).bn_left a ≡ h.bn_left a)
unfolding unlinked set_right set_left
unlinked_same p q z h a n m k = ground arith

unlinked-Ring :
    (p z : ℕ) (zs : List ℕ) (h : Heap)
    → Distinct (p ∷ z ∷ zs)
    → Chain h z zs
    → Ring (unlinked p (last_of z zs) z h) z zs × Ring (unlinked p (last_of z zs) z h) p []
unfolding unlinked
unlinked-Ring p z zs h d c = (
  record { linked = Chain-append h4 z zs (z ∷ []) kept (closes.0, closes.1, tt); distinct = d.1 },
  record { linked = (closes.2, closes.3, tt); distinct = (tt, tt) },
)
  where
    q : ℕ
    q = last_of z zs

    h1 : Heap
    h1 = set_right q z h

    h2 : Heap
    h2 = set_left z q h1

    h3 : Heap
    h3 = set_left p p h2

    h4 : Heap
    h4 = set_right p p h3

    kept : Chain h4 z zs
    kept = Chain-set_right h3 p p z zs (NotIn-sources p z zs d.0) (
        Chain-set_left h2 p p z zs d.0.1 (
          Chain-set_left h1 z q z zs d.1.0
            (Chain-set_right h q z z zs (last_of-NotIn-sources z zs d.1) c)))

    closes : (h4.bn_right q ≡ z) × (h4.bn_left z ≡ q) × (h4.bn_right p ≡ p) × (h4.bn_left p ≡ p)
    closes = closes_of p q z h (ne-last_of p z zs d.0) d.0.0

-- A binder alone stays alone.
pub let_go-alone : (h : Heap) (p : ℕ) → Ring h p [] → Ring (let_go p h) p []
unfolding let_go set_right set_left
let_go-alone h p r = ground arith

-- Seen from the binder that leaves: its ring closes behind it.
pub let_go-Ring_self :
    (h : Heap) (p z : ℕ) (zs : List ℕ)
    → Ring h p (z ∷ zs)
    → Ring (let_go p h) z zs × Ring (let_go p h) p []
let_go-Ring_self h p z zs r =
    let (out, inner) = Chain-parts h z zs (p ∷ []) r.linked.2 in
    let q = last_of z zs in
    let ne : p ≢ q = ne-last_of p z zs r.distinct.0 in
    rw (let_go-unlinked h p q z inner.1 r.linked.0 ne) (unlinked-Ring p z zs h r.distinct out)

same_alone :
    (h : Heap) (p : ℕ)
    → h.bn_left p ≡ p
    → h.bn_right p ≡ p
    → (a : ℕ) → a ≢ p
    → ((let_go p h).bn_right a ≡ h.bn_right a) × ((let_go p h).bn_left a ≡ h.bn_left a)
unfolding let_go set_right set_left
same_alone h p l r a n = ground arith

-- The fields of a binder outside the ring do not change.
pub let_go-same :
    (h : Heap) (p : ℕ) (zs : List ℕ)
    → Ring h p zs
    → (a : ℕ) → NotIn a (p ∷ zs)
    → ((let_go p h).bn_right a ≡ h.bn_right a) × ((let_go p h).bn_left a ≡ h.bn_left a)
let_go-same h p [] r a n = same_alone h p r.linked.1 r.linked.0 a n.0
let_go-same h p (z ∷ zs) r a n =
    let (inner, close) = Chain-parts h z zs (p ∷ []) r.linked.2 in
    let ne : p ≢ last_of z zs = ne-last_of p z zs r.distinct.0 in
    let out : a ≢ last_of z zs = All-last_of (λ x. a ≢ x) z zs n.1 in
    rw (let_go-unlinked h p (last_of z zs) z close.1 r.linked.0 ne)
      (unlinked_same p (last_of z zs) z h a n.0 out n.1.0)

-- `let_go` takes one binder out of the ring of a grip, leaves the others in their order, and leaves
-- that binder alone.
pub let_go-Ring :
    (h : Heap) (g : ℕ) (xs : List ℕ) (p : ℕ) (ys : List ℕ)
    → Ring h g (xs ++ p ∷ ys)
    → Ring (let_go p h) g (xs ++ ys) × Ring (let_go p h) p []
let_go-Ring h g xs p [] r =
    let (kept, out) = let_go-Ring_self h p g xs (Ring-rotate h g xs p [] r) in
    (rw (append-nil xs) kept, out)
let_go-Ring h g xs p (y ∷ ys) r =
    let (kept, out) = let_go-Ring_self h p y (ys ++ g ∷ xs) (Ring-rotate h g xs p (y ∷ ys) r) in
    (Ring-rotate (let_go p h) y ys g xs kept, out)
