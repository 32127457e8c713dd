-- ===== src/Binder/Bind.antt =====
-- `bind_to_my_right` and `bind_to_my_left`: a binder enters a ring beside its grip.
use messaging_cells.Common.{
  ℕ, ◌≡◌, ◌≢◌, ==_ne, sym, List, [], ◌∷◌, ◌++◌, arith, NotIn, NotIn-append, Distinct, Distinct-swap,
  append_assoc,
}
use messaging_cells.Binder.Heap.{Heap, set_left, set_right}
use messaging_cells.Binder.Ops.{bind_to_my_right, bind_to_my_left}
use messaging_cells.Binder.Ring.{
  Chain, last_of, Ring, Chain-append, Chain-parts, Chain-set_right, Chain-set_left, NotIn-sources,
  NotIn-sources_snoc, ne-last_of, last_of-NotIn-sources,
}

-- The heap after `r` is bound between `g` and its right neighbour `f`.
bound_right : (g r f : ℕ) → Heap → Heap
bound_right g r f h = set_right g r (set_left f r (set_left r g (set_right r f h)))

-- The heap after `l` is bound between the left neighbour `q` of `g` and `g`.
bound_left : (g l q : ℕ) → Heap → Heap
bound_left g l q h = set_left g l (set_right q l (set_right l g (set_left l q h)))

bind_to_my_right-bound :
    (h : Heap) (g r f : ℕ) → h.bn_right g ≡ f → g ≢ r → bind_to_my_right g r h ≡ bound_right g r f h
unfolding bind_to_my_right bound_right set_right set_left
bind_to_my_right-bound h g r f e ne = rw (e, ==_ne ne)

bind_to_my_left-bound :
    (h : Heap) (g l q : ℕ) → h.bn_left g ≡ q → g ≢ l → bind_to_my_left g l h ≡ bound_left g l q h
unfolding bind_to_my_left bound_left set_right set_left
bind_to_my_left-bound h g l q e ne = rw (e, ==_ne ne)

bound_right_links :
    (g r f : ℕ) (h : Heap)
    → g ≢ r
    → f ≢ r
    → ((bound_right g r f h).bn_right g ≡ r)
      × ((bound_right g r f h).bn_left r ≡ g)
      × ((bound_right g r f h).bn_right r ≡ f)
      × ((bound_right g r f h).bn_left f ≡ r)
unfolding bound_right set_right set_left
bound_right_links g r f h n m = ground arith

bound_left_links :
    (g l q : ℕ) (h : Heap)
    → g ≢ l
    → q ≢ l
    → ((bound_left g l q h).bn_right q ≡ l)
      × ((bound_left g l q h).bn_left l ≡ q)
      × ((bound_left g l q h).bn_right l ≡ g)
      × ((bound_left g l q h).bn_left g ≡ l)
unfolding bound_left set_right set_left
bound_left_links g l q h n m = ground arith

-- What is behind the right neighbour is left alone.
bound_right-Chain :
    (h : Heap) (g r x : ℕ) (xs : List ℕ)
    → Distinct (g ∷ x ∷ xs)
    → NotIn r (g ∷ x ∷ xs)
    → Chain h x (xs ++ g ∷ [])
    → Chain (bound_right g r x h) x (xs ++ g ∷ [])
unfolding bound_right
bound_right-Chain h g r x xs d n c =
    Chain-set_right _ g r x (xs ++ g ∷ []) (NotIn-sources_snoc g x xs g d.0) (
      Chain-set_left _ x r x (xs ++ g ∷ []) (NotIn-append x xs (g ∷ []) d.1.0 (x≢g, tt)) (
        Chain-set_left _ r g x (xs ++ g ∷ []) (NotIn-append r xs (g ∷ []) n.1.1 (n.0, tt))
          (Chain-set_right h r x x (xs ++ g ∷ []) (NotIn-sources_snoc r x xs g n.1) c)))
  where
    x≢g : x ≢ g
    x≢g e = d.0.0 (sym e)

-- `bind_to_my_right` makes a binder that is outside the ring its first one.
pub bind_to_my_right-Ring :
    (h : Heap) (g r : ℕ) (xs : List ℕ)
    → Ring h g xs
    → NotIn r (g ∷ xs)
    → Ring (bind_to_my_right g r h) g (r ∷ xs)
bind_to_my_right-Ring h g r [] ring n =
    let ne : g ≢ r = λ e. n.0 (sym e) in
    let (a, b, c, d) = bound_right_links g r g h ne ne in
    rw (bind_to_my_right-bound h g r g ring.linked.0 ne)
      (record { linked = (a, b, (c, d, tt)); distinct = ((ne, tt), (tt, tt)) })
bind_to_my_right-Ring h g r (x ∷ xs) ring n =
    let ne : g ≢ r = λ e. n.0 (sym e) in
    let (a, b, c, d) = bound_right_links g r x h ne (λ e. n.1.0 (sym e)) in
    rw (bind_to_my_right-bound h g r x ring.linked.0 ne) (record {
      linked = (a, b, (c, d, bound_right-Chain h g r x xs ring.distinct n ring.linked.2));
      distinct = ((ne, ring.distinct.0), (n.1, ring.distinct.1));
    })

last_of-ne : (l g : ℕ) (xs : List ℕ) → NotIn l (g ∷ xs) → last_of g xs ≢ l
last_of-ne l g xs n e = ne-last_of l g xs n (sym e)

bound_left-Chain :
    (h : Heap) (g l : ℕ) (xs : List ℕ)
    → Distinct (g ∷ xs)
    → NotIn l (g ∷ xs)
    → Chain h g xs
    → Chain (bound_left g l (last_of g xs) h) g xs
unfolding bound_left
bound_left-Chain h g l xs d n c = Chain-set_left _ g l g xs d.0 (
    Chain-set_right _ (last_of g xs) l g xs (last_of-NotIn-sources g xs d) (
      Chain-set_right _ l g g xs (NotIn-sources l g xs n)
        (Chain-set_left h l (last_of g xs) g xs n.1 c)))

bound_left-Ring :
    (h : Heap) (g l : ℕ) (xs : List ℕ)
    → Distinct (g ∷ xs)
    → NotIn l (g ∷ xs)
    → Chain h g xs
    → Ring (bound_left g l (last_of g xs) h) g (xs ++ l ∷ [])
bound_left-Ring h g l xs d n c =
    let h' = bound_left g l (last_of g xs) h in
    let links = bound_left_links g l (last_of g xs) h (λ e. n.0 (sym e)) (last_of-ne l g xs n) in
    record {
      linked = rw (append_assoc xs (l ∷ []) (g ∷ [])) (
          Chain-append h' g xs (l ∷ g ∷ []) (bound_left-Chain h g l xs d n c)
            (links.0, links.1, (links.2, links.3, tt)));
      distinct = Distinct-swap (l ∷ []) (g ∷ xs) (n, d);
    }

-- `bind_to_my_left` makes a binder that is outside the ring its last one.
pub bind_to_my_left-Ring :
    (h : Heap) (g l : ℕ) (xs : List ℕ)
    → Ring h g xs
    → NotIn l (g ∷ xs)
    → Ring (bind_to_my_left g l h) g (xs ++ l ∷ [])
bind_to_my_left-Ring h g l xs ring n =
    let (inner, close) = Chain-parts h g xs (g ∷ []) ring.linked in
    rw (bind_to_my_left-bound h g l (last_of g xs) close.1 (λ e. n.0 (sym e)))
      (bound_left-Ring h g l xs ring.distinct n inner)
