-- ===== src/Binder/Splice.antt =====
-- `move_all_to_my_right` and `move_all_to_my_left`: a whole ring enters another beside its grip.
pub mod Right
pub mod Left
use messaging_cells.Common.{
  ℕ, ◌≡◌, ◌≢◌, ==_self, sym, List, ◌∷◌, ◌++◌, arith, NotIn, NotIn-append, Distinct, Distinct-append,
  Apart, Apart-symm, Apart-tail,
}
use messaging_cells.Binder.Heap.{Heap, set_left, set_right}
use messaging_cells.Binder.Ops.{splice_right, splice_left}
use messaging_cells.Binder.Ring.{
  Chain, sources, last_of, All-last_of, Ring, Chain-set_right, Chain-set_left, NotIn-sources,
  ne-last_of,
}

-- The heap after the ring `y` … `m` of the grip `e` has moved between `g` and its right neighbour `f`.
spliced_right : (g e y m f : ℕ) → Heap → Heap
spliced_right g e y m f h =
    set_left f m (set_right m f (set_left y g (set_right g y (set_left e e (set_right e e h)))))

-- The same between the left neighbour `q` of `g` and `g`.
spliced_left : (g e y m q : ℕ) → Heap → Heap
spliced_left g e y m q h =
    set_right q y (set_left y q (set_right m g (set_left g m (set_left e e (set_right e e h)))))

-- The addresses at the places where the two rings are joined.
record Joint (g e y m : ℕ) : Type 0 where
  grip : g ≢ e
  first : y ≢ e
  last : m ≢ e
  first_grip : y ≢ g
  last_grip : m ≢ g

splice_right-spliced :
    (h : Heap) (g e y m f : ℕ)
    → h.bn_right e ≡ y
    → h.bn_left e ≡ m
    → h.bn_right g ≡ f
    → splice_right g e h ≡ spliced_right g e y m f h
unfolding splice_right spliced_right set_right set_left
splice_right-spliced h g e y m f p q r = rw (p, q, r, ==_self m, ==_self g)

splice_left-spliced :
    (h : Heap) (g e y m k : ℕ)
    → h.bn_right e ≡ y
    → h.bn_left e ≡ m
    → h.bn_left g ≡ k
    → splice_left g e h ≡ spliced_left g e y m k h
unfolding splice_left spliced_left set_right set_left
splice_left-spliced h g e y m k p q r = rw (p, q, r, ==_self y, ==_self g)

spliced_right_links :
    (g e y m f : ℕ) (h : Heap)
    → Joint g e y m
    → f ≢ e
    → f ≢ y
    → ((spliced_right g e y m f h).bn_right g ≡ y)
      × ((spliced_right g e y m f h).bn_left y ≡ g)
      × ((spliced_right g e y m f h).bn_right m ≡ f)
      × ((spliced_right g e y m f h).bn_left f ≡ m)
      × ((spliced_right g e y m f h).bn_right e ≡ e)
      × ((spliced_right g e y m f h).bn_left e ≡ e)
unfolding spliced_right set_right set_left
spliced_right_links g e y m f h j n k = ground arith

spliced_left_links :
    (g e y m q : ℕ) (h : Heap)
    → Joint g e y m
    → q ≢ e
    → q ≢ m
    → ((spliced_left g e y m q h).bn_right q ≡ y)
      × ((spliced_left g e y m q h).bn_left y ≡ q)
      × ((spliced_left g e y m q h).bn_right m ≡ g)
      × ((spliced_left g e y m q h).bn_left g ≡ m)
      × ((spliced_left g e y m q h).bn_right e ≡ e)
      × ((spliced_left g e y m q h).bn_left e ≡ e)
unfolding spliced_left set_right set_left
spliced_left_links g e y m q h j n k = ground arith

-- A chain survives the six writes if it uses none of the links that they change.
Chain-spliced_right :
    (g e y m f : ℕ) (h : Heap) (a : ℕ) (zs : List ℕ)
    → NotIn e (a ∷ zs)
    → NotIn g (sources a zs)
    → NotIn y zs
    → NotIn m (sources a zs)
    → NotIn f zs
    → Chain h a zs
    → Chain (spliced_right g e y m f h) a zs
unfolding spliced_right
Chain-spliced_right g e y m f h a zs ne ng ny nm nf c = Chain-set_left _ f m a zs nf (
    Chain-set_right _ m f a zs nm (
      Chain-set_left _ y g a zs ny (
        Chain-set_right _ g y a zs ng (
          Chain-set_left _ e e a zs ne.1
            (Chain-set_right h e e a zs (NotIn-sources e a zs ne) c)))))

Chain-spliced_left :
    (g e y m q : ℕ) (h : Heap) (a : ℕ) (zs : List ℕ)
    → NotIn e (a ∷ zs)
    → NotIn g zs
    → NotIn y zs
    → NotIn m (sources a zs)
    → NotIn q (sources a zs)
    → Chain h a zs
    → Chain (spliced_left g e y m q h) a zs
unfolding spliced_left
Chain-spliced_left g e y m q h a zs ne ng ny nm nq c = Chain-set_right _ q y a zs nq (
    Chain-set_left _ y q a zs ny (
      Chain-set_right _ m g a zs nm (
        Chain-set_left _ g m a zs ng (
          Chain-set_left _ e e a zs ne.1
            (Chain-set_right h e e a zs (NotIn-sources e a zs ne) c)))))

-- Two rings without a common binder, the second one not empty.
record Two (h : Heap) (g : ℕ) (xs : List ℕ) (e y : ℕ) (ys : List ℕ) : Type 0 where
  into : Ring h g xs
  from : Ring h e (y ∷ ys)
  apart : Apart (e ∷ y ∷ ys) (g ∷ xs)

module _ {h : Heap} {g : ℕ} {xs : List ℕ} {e y : ℕ} {ys : List ℕ} (two : Two h g xs e y ys) where
  Two-Joint : Joint g e y (last_of y ys)
  Two-Joint = record {
    grip = λ p. two.apart.0.0 (sym p);
    first = λ p. two.from.distinct.0.0 (sym p);
    last = λ p. ne-last_of e y ys two.from.distinct.0 (sym p);
    first_grip = two.apart.1.0.0;
    last_grip = (All-last_of (λ a. NotIn a (g ∷ xs)) y ys two.apart.1).0;
  }

  moved-Distinct : Distinct (g ∷ (y ∷ ys) ++ xs)
  moved-Distinct = (
    NotIn-append g (y ∷ ys) xs (Apart-symm (y ∷ ys) (g ∷ xs) two.apart.1).0 two.into.distinct.0,
    Distinct-append (y ∷ ys) xs two.from.distinct.1 two.into.distinct.1
        (Apart-tail (y ∷ ys) g xs two.apart.1),
  )

  first-NotIn : NotIn y (g ∷ xs)
  first-NotIn = two.apart.1.0

  last-NotIn : NotIn (last_of y ys) (g ∷ xs)
  last-NotIn = All-last_of (λ a. NotIn a (g ∷ xs)) y ys two.apart.1

  into-NotIn : Apart (g ∷ xs) (y ∷ ys)
  into-NotIn = Apart-symm (y ∷ ys) (g ∷ xs) two.apart.1
