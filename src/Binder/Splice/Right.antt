-- ===== src/Binder/Splice/Right.antt =====
-- `move_all_to_my_right`: the ring of `grp` enters between a grip and its right neighbour.
use messaging_cells.Common.{ℕ, sym, List, [], ◌∷◌, ◌++◌, append_assoc, NotIn, NotIn-append, Apart}
use messaging_cells.Binder.Heap.{Heap}
use messaging_cells.Binder.Ops.{splice_right, move_all_to_my_right}
use messaging_cells.Binder.Queries.{is_alone-nil, is_alone-cons}
use messaging_cells.Binder.Splice.{
  spliced_right, splice_right-spliced, spliced_right_links, Chain-spliced_right, Two, Two-Joint,
  moved-Distinct, first-NotIn, last-NotIn, into-NotIn,
}
use messaging_cells.Binder.Ring.{
  Chain, last_of, Ring, Chain-append, Chain-parts, NotIn-sources, NotIn-sources_snoc,
  last_of-NotIn-sources,
}

module _ {h : Heap} {g e y : ℕ} {ys : List ℕ} where
  -- The binders that move keep their links, for a right neighbour `f` of the grip that stays.
  moved-Chain :
      {xs : List ℕ} (f : ℕ)
      → Two h g xs e y ys
      → NotIn f ys
      → Chain h y ys
      → Chain (spliced_right g e y (last_of y ys) f h) y ys
  moved-Chain f two nf c =
      let d = two.from.distinct in
      Chain-spliced_right g e y (last_of y ys) f h y ys d.0
        (NotIn-sources g y ys (into-NotIn two).0) d.1.0 (last_of-NotIn-sources y ys d.1) nf c

  kept-Chain :
      (x : ℕ) (xs : List ℕ)
      → Two h g (x ∷ xs) e y ys
      → Chain (spliced_right g e y (last_of y ys) x h) x (xs ++ g ∷ [])
  kept-Chain x xs two =
      let d = two.into.distinct in
      let ends : (a : ℕ) → NotIn a (g ∷ x ∷ xs) → NotIn a (xs ++ g ∷ []) =
        λ a n. NotIn-append a xs (g ∷ []) n.1.1 (n.0, tt) in
      Chain-spliced_right g e y (last_of y ys) x h x (xs ++ g ∷ [])
        (two.apart.0.1.0, ends e two.apart.0) (NotIn-sources_snoc g x xs g d.0)
        (ends y (first-NotIn two)) (NotIn-sources_snoc (last_of y ys) x xs g (last-NotIn two).1)
        (NotIn-append x xs (g ∷ []) d.1.0 ((λ p. d.0.0 (sym p)), tt)) two.into.linked.2

  splice_right-Ring :
      (xs : List ℕ)
      → Two h g xs e y ys
      → Ring (splice_right g e h) g (y ∷ ys ++ xs) × Ring (splice_right g e h) e []
  splice_right-Ring [] two =
      let (inner, close) = Chain-parts h y ys (e ∷ []) two.from.linked.2 in
      let m = last_of y ys in
      let links =
        spliced_right_links g e y m g h (Two-Joint two) (λ p. two.apart.0.0 (sym p))
          (into-NotIn two).0.0 in
      let moved = moved-Chain g two (into-NotIn two).0.1 inner in
      rw (splice_right-spliced h g e y m g two.from.linked.0 close.1 two.into.linked.0) (
        record {
          linked = (
            links.0,
            links.1,
            rw (append_assoc ys [] (g ∷ []))
                (Chain-append _ y ys (g ∷ []) moved (links.2, links.3, tt)),
          );
          distinct = moved-Distinct two;
        },
        record { linked = (links.4, links.5, tt); distinct = (tt, tt) },
      )
  splice_right-Ring (x ∷ xs) two =
      let (inner, close) = Chain-parts h y ys (e ∷ []) two.from.linked.2 in
      let m = last_of y ys in
      let links =
        spliced_right_links g e y m x h (Two-Joint two) (λ p. two.apart.0.1.0 (sym p))
          (into-NotIn two).1.0.0 in
      let moved = moved-Chain x two (into-NotIn two).1.0.1 inner in
      rw (splice_right-spliced h g e y m x two.from.linked.0 close.1 two.into.linked.0) (
        record {
          linked = (
            links.0,
            links.1,
            rw (append_assoc ys (x ∷ xs) (g ∷ [])) (
                Chain-append _ y ys (x ∷ xs ++ g ∷ []) moved
                  (links.2, links.3, kept-Chain x xs two)),
          );
          distinct = moved-Distinct two;
        },
        record { linked = (links.4, links.5, tt); distinct = (tt, tt) },
      )

-- `move_all_to_my_right` empties the ring of `grp`, and puts its binders in their order before those
-- of the grip; the two rings have no common binder.
pub move_all_to_my_right-Ring :
    (h : Heap) (g e : ℕ) (xs ys : List ℕ)
    → Ring h g xs
    → Ring h e ys
    → Apart (e ∷ ys) (g ∷ xs)
    → Ring (move_all_to_my_right g e h) g (ys ++ xs) × Ring (move_all_to_my_right g e h) e []
unfolding move_all_to_my_right
move_all_to_my_right-Ring h g e xs [] r s apart = rw (is_alone-nil h e s) (r, s)
move_all_to_my_right-Ring h g e xs (y ∷ ys) r s apart =
    rw (is_alone-cons h e y ys s)
      (splice_right-Ring xs (record { into = r; from = s; apart = apart }))
