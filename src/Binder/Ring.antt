-- ===== src/Binder/Ring.antt =====
-- What a grip stands for: the ring of the distinct binders that its `bn_right` leads through, with
-- every `bn_left` the inverse.
use messaging_cells.Common.{
  ℕ, ◌≡◌, ◌≢◌, refl, sym, ◌∙◌, List, [], ◌∷◌, ◌++◌, append_assoc, All, NotIn, Distinct,
  Distinct-swap,
}
use messaging_cells.Binder.Heap.{
  Heap, set_left, set_right, left-set_left_ne, right-set_left, right-set_right_ne, left-set_right,
}

-- From `a` the right links lead through `xs`, and the left links back.
abbrev pub Chain : Heap → ℕ → List ℕ → Type 0
Chain h a [] = Unit
Chain h a (x ∷ xs) = (h.bn_right a ≡ x) × (h.bn_left x ≡ a) × Chain h x xs

-- The binders of a chain whose right link it uses: all but the last.
abbrev pub sources : ℕ → List ℕ → List ℕ
sources a [] = []
sources a (x ∷ xs) = a ∷ sources x xs

abbrev pub last_of : ℕ → List ℕ → ℕ
last_of a [] = a
last_of a (x ∷ xs) = last_of x xs

pub All-last_of : (P : ℕ → Type 0) (a : ℕ) (xs : List ℕ) → All P (a ∷ xs) → P (last_of a xs)
All-last_of P a [] h = h.0
All-last_of P a (x ∷ xs) h = All-last_of P x xs h.1

-- `g` is the grip, `xs` the binders bound to it, from left to right.
pub record Ring (h : Heap) (g : ℕ) (xs : List ℕ) : Type 0 where
  pub linked : Chain h g (xs ++ g ∷ [])
  pub distinct : Distinct (g ∷ xs)

pub Chain-append :
    (h : Heap) (a : ℕ) (xs ys : List ℕ)
    → Chain h a xs
    → Chain h (last_of a xs) ys
    → Chain h a (xs ++ ys)
Chain-append h a [] ys c d = d
Chain-append h a (x ∷ xs) ys c d = (c.0, c.1, Chain-append h x xs ys c.2 d)

pub Chain-parts :
    (h : Heap) (a : ℕ) (xs ys : List ℕ)
    → Chain h a (xs ++ ys)
    → Chain h a xs × Chain h (last_of a xs) ys
Chain-parts h a [] ys c = (tt, c)
Chain-parts h a (x ∷ xs) ys c = let r = Chain-parts h x xs ys c.2 in ((c.0, c.1, r.0), r.1)

pub Chain-set_right :
    (h : Heap) (p q a : ℕ) (xs : List ℕ)
    → NotIn p (sources a xs)
    → Chain h a xs
    → Chain (set_right p q h) a xs
Chain-set_right h p q a [] n c = tt
Chain-set_right h p q a (x ∷ xs) n c = (
  right-set_right_ne p q h a (λ e. n.0 (sym e)) ∙ c.0,
  left-set_right p q h x ∙ c.1,
  Chain-set_right h p q x xs n.1 c.2,
)

pub Chain-set_left :
    (h : Heap) (p q a : ℕ) (xs : List ℕ) → NotIn p xs → Chain h a xs → Chain (set_left p q h) a xs
Chain-set_left h p q a [] n c = tt
Chain-set_left h p q a (x ∷ xs) n c = (
  right-set_left p q h a ∙ c.0,
  left-set_left_ne p q h x (λ e. n.0 (sym e)) ∙ c.1,
  Chain-set_left h p q x xs n.1 c.2,
)

pub NotIn-sources : (p a : ℕ) (xs : List ℕ) → NotIn p (a ∷ xs) → NotIn p (sources a xs)
NotIn-sources p a [] n = tt
NotIn-sources p a (x ∷ xs) n = (n.0, NotIn-sources p x xs n.1)

pub NotIn-sources_snoc :
    (p a : ℕ) (xs : List ℕ) (b : ℕ) → NotIn p (a ∷ xs) → NotIn p (sources a (xs ++ b ∷ []))
NotIn-sources_snoc p a [] b n = (n.0, tt)
NotIn-sources_snoc p a (x ∷ xs) b n = (n.0, NotIn-sources_snoc p x xs b n.1)

pub ne-last_of : (a x : ℕ) (xs : List ℕ) → NotIn a (x ∷ xs) → a ≢ last_of x xs
ne-last_of a x [] n = n.0
ne-last_of a x (y ∷ xs) n = ne-last_of a y xs n.1

-- The end of a chain is not one of its sources.
pub last_of-NotIn-sources :
    (a : ℕ) (xs : List ℕ) → Distinct (a ∷ xs) → NotIn (last_of a xs) (sources a xs)
last_of-NotIn-sources a [] d = tt
last_of-NotIn-sources a (x ∷ xs) d =
    (λ e. ne-last_of a x xs d.0 (sym e), last_of-NotIn-sources x xs d.1)

pub last_of-append :
    (a : ℕ) (xs : List ℕ) (b : ℕ) (ys : List ℕ) → last_of a (xs ++ b ∷ ys) ≡ last_of b ys
last_of-append a [] b ys = refl
last_of-append a (x ∷ xs) b ys = last_of-append x xs b ys

-- The parts of a ring around one of its binders.
pub Ring-linked :
    (h : Heap) (g : ℕ) (xs : List ℕ) (p : ℕ) (ys : List ℕ)
    → Chain h g ((xs ++ p ∷ ys) ++ g ∷ [])
    → Chain h g (xs ++ p ∷ []) × Chain h p (ys ++ g ∷ [])
Ring-linked h g xs p ys c =
    let r = Chain-parts h g xs (p ∷ ys ++ g ∷ []) (rw (append_assoc xs (p ∷ ys) (g ∷ [])) at c) in
    (Chain-append h g xs (p ∷ []) r.0 (r.1.0, r.1.1, tt), r.1.2)

-- A ring is a ring seen from any of its binders.
pub Ring-rotate :
    (h : Heap) (g : ℕ) (xs : List ℕ) (p : ℕ) (ys : List ℕ)
    → Ring h g (xs ++ p ∷ ys)
    → Ring h p (ys ++ g ∷ xs)
Ring-rotate h g xs p ys r =
    let c = Ring-linked h g xs p ys r.linked in
    let e : (ys ++ g ∷ xs) ++ p ∷ [] ≡ (ys ++ g ∷ []) ++ (xs ++ p ∷ []) =
      append_assoc ys (g ∷ xs) (p ∷ []) ∙ sym (append_assoc ys (g ∷ []) (xs ++ p ∷ [])) in
    record {
      linked =
          rw e (
            Chain-append h p (ys ++ g ∷ []) (xs ++ p ∷ []) c.1 (rw (last_of-append p ys g []) c.0));
      distinct = Distinct-swap (g ∷ xs) (p ∷ ys) r.distinct;
    }
