-- ===== src/Binder/Queries.antt =====
-- The methods of `binder` that change nothing: what they tell of a ring.
use messaging_cells.Common.{
  ℕ, zero, suc, ◌+◌, ◌<◌, ◌≡◌, ◌≢◌, ==_self, ==_ne, ◌==◌, leb, refl, sym, ap, ◌∙◌, true, false,
  some, List, [], ◌∷◌, ◌++◌, arith, length, NotIn,
}
use messaging_cells.Binder.Heap.{Heap}
use messaging_cells.Binder.Ops.{is_alone, is_single, is_multiple, count_from, calc_size}
use messaging_cells.Binder.Ring.{Chain, last_of, Ring, Chain-parts, ne-last_of}

pub is_alone-nil : (h : Heap) (g : ℕ) → Ring h g [] → is_alone g h ≡ true
unfolding is_alone
is_alone-nil h g r = rw (r.linked.0, r.linked.1, ==_self g)

pub is_alone-cons : (h : Heap) (g x : ℕ) (xs : List ℕ) → Ring h g (x ∷ xs) → is_alone g h ≡ false
unfolding is_alone
is_alone-cons h g x xs r = ground (arith, r.distinct.0.0, r.linked.0)

-- `is_alone`, `is_single` and `is_multiple` tell none, one, and two or more binders apart.
pub queries-length :
    (h : Heap) (g : ℕ) (xs : List ℕ)
    → Ring h g xs
    → (is_alone g h ≡ (length xs == 0))
      × (is_single g h ≡ (length xs == 1))
      × (is_multiple g h ≡ leb 2 (length xs))
unfolding is_single is_multiple
queries-length h g [] r = rw (is_alone-nil h g r) (refl, refl, refl)
queries-length h g (x ∷ []) r =
    rw (is_alone-cons h g x [] r) (rw (r.linked.0, r.linked.2.1, ==_self x) (refl, refl, refl))
queries-length h g (x ∷ y ∷ xs) r =
    let (inner, close) = Chain-parts h g (x ∷ y ∷ xs) (g ∷ []) r.linked in
    let ne : last_of y xs ≢ x = λ e. ne-last_of x y xs r.distinct.1.0 (sym e) in
    rw (is_alone-cons h g x (y ∷ xs) r)
      (rw (r.linked.0, close.1, ==_ne ne) (ground arith, ground arith, ground arith))

count_from-Chain :
    (fuel : ℕ) (h : Heap) (g w : ℕ) (xs : List ℕ) (sz : ℕ)
    → length xs + 1 < fuel
    → NotIn g (w ∷ xs)
    → Chain h w (xs ++ g ∷ [])
    → count_from fuel g w sz h ≡ some (sz + suc (length xs))
unfolding count_from
count_from-Chain zero h g w xs sz f n c = absurd (omega arith)
count_from-Chain (suc zero) h g w xs sz f n c = absurd (omega arith)
count_from-Chain (suc (suc k)) h g w [] sz f n c =
    rw (==_ne (λ e. n.0 (sym e)), c.0, ==_self g) refl
count_from-Chain (suc (suc k)) h g w (x ∷ xs) sz f n c =
    rw
      (
        ==_ne (λ e. n.0 (sym e)),
        c.0,
        count_from-Chain (suc k) h g x xs (sz + 1) (omega arith) n.1 c.2,
      )
      (ap some (omega arith))

-- `calc_size` counts the binders of a ring, and ends: two rounds more than their number are enough.
pub calc_size-length :
    (fuel : ℕ) (h : Heap) (g : ℕ) (xs : List ℕ)
    → Ring h g xs
    → length xs + 1 < fuel
    → calc_size fuel g h ≡ some (length xs)
unfolding calc_size count_from
calc_size-length zero h g xs r f = absurd (omega arith)
calc_size-length (suc k) h g [] r f = rw (r.linked.0, ==_self g)
calc_size-length (suc k) h g (x ∷ xs) r f = rw r.linked.0 (
    count_from-Chain (suc k) h g x xs 0 (omega arith) r.distinct.0 r.linked.2
    ∙ ap some (omega arith))
