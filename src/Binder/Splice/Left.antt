-- ===== src/Binder/Splice/Left.antt =====
-- `move_all_to_my_left`: the ring of `grp` enters between the left neighbour of a grip and the grip.
use messaging_cells.Common.{
  ℕ, ◌≢◌, sym, List, [], ◌∷◌, ◌++◌, append-nil, append_assoc, NotIn, Apart, Distinct-append,
  NotIn-append, All,
}
use messaging_cells.Binder.Heap.{Heap}
use messaging_cells.Binder.Ops.{splice_left, move_all_to_my_left}
use messaging_cells.Binder.Queries.{is_alone-nil, is_alone-cons}
use messaging_cells.Binder.Splice.{
  spliced_left, splice_left-spliced, spliced_left_links, Chain-spliced_left, Two, Two-Joint,
  first-NotIn, last-NotIn, into-NotIn,
}
use messaging_cells.Binder.Ring.{
  Chain, last_of, All-last_of, Ring, Chain-append, Chain-parts, NotIn-sources,
  last_of-NotIn-sources,
}

module _ {h : Heap} {g e y : ℕ} {xs ys : List ℕ} (two : Two h g xs e y ys) where
  -- The last binder of the ring that stays is none of those that move.
  end-NotIn : NotIn (last_of g xs) (y ∷ ys)
  end-NotIn = All-last_of (λ a. NotIn a (y ∷ ys)) g xs (into-NotIn two)

  end-ne : last_of g xs ≢ e
  end-ne = All-last_of (λ a. a ≢ e) g xs (All-sym e (g ∷ xs) two.apart.0)
    where
      All-sym : (a : ℕ) (zs : List ℕ) → NotIn a zs → All (λ z. z ≢ a) zs
      All-sym a [] n = tt
      All-sym a (z ∷ zs) n = ((λ p. n.0 (sym p)), All-sym a zs n.1)

  moved-Chain : Chain h y ys → Chain (spliced_left g e y (last_of y ys) (last_of g xs) h) y ys
  moved-Chain c =
      let d = two.from.distinct in
      Chain-spliced_left g e y (last_of y ys) (last_of g xs) h y ys d.0 (into-NotIn two).0.1 d.1.0
        (last_of-NotIn-sources y ys d.1) (NotIn-sources _ y ys end-NotIn) c

  kept-Chain : Chain h g xs → Chain (spliced_left g e y (last_of y ys) (last_of g xs) h) g xs
  kept-Chain c =
      let d = two.into.distinct in
      Chain-spliced_left g e y (last_of y ys) (last_of g xs) h g xs two.apart.0 d.0
        (first-NotIn two).1 (NotIn-sources _ g xs (last-NotIn two)) (last_of-NotIn-sources g xs d) c

  splice_left-Ring : Ring (splice_left g e h) g (xs ++ y ∷ ys) × Ring (splice_left g e h) e []
  splice_left-Ring =
      let (inner, close) = Chain-parts h y ys (e ∷ []) two.from.linked.2 in
      let (stay, end) = Chain-parts h g xs (g ∷ []) two.into.linked in
      let m = last_of y ys in
      let q = last_of g xs in
      let h' = spliced_left g e y m q h in
      let links =
        spliced_left_links g e y m q h (Two-Joint two) end-ne
          (All-last_of (λ a. q ≢ a) y ys end-NotIn) in
      rw (splice_left-spliced h g e y m q two.from.linked.0 close.1 end.1) (
        record {
          linked = rw (append_assoc xs (y ∷ ys) (g ∷ [])) (
              Chain-append h' g xs (y ∷ ys ++ g ∷ []) (kept-Chain stay) (
                links.0,
                links.1,
                Chain-append h' y ys (g ∷ []) (moved-Chain inner) (links.2, links.3, tt),
              ));
          distinct = (
            NotIn-append g xs (y ∷ ys) two.into.distinct.0 (into-NotIn two).0,
            Distinct-append xs (y ∷ ys) two.into.distinct.1 two.from.distinct.1 (into-NotIn two).1,
          );
        },
        record { linked = (links.4, links.5, tt); distinct = (tt, tt) },
      )

-- `move_all_to_my_left` empties the ring of `grp`, and puts its binders in their order behind those
-- of the grip; the two rings have no common binder.
pub move_all_to_my_left-Ring :
    (h : Heap) (g e : ℕ) (xs ys : List ℕ)
    → Ring h g xs
    → Ring h e ys
    → Apart (e ∷ ys) (g ∷ xs)
    → Ring (move_all_to_my_left g e h) g (xs ++ ys) × Ring (move_all_to_my_left g e h) e []
unfolding move_all_to_my_left
move_all_to_my_left-Ring h g e xs [] r s apart = rw (is_alone-nil h e s, append-nil xs) (r, s)
move_all_to_my_left-Ring h g e xs (y ∷ ys) r s apart =
    rw (is_alone-cons h e y ys s) (splice_left-Ring (record { into = r; from = s; apart = apart }))
