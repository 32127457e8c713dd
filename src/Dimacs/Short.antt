-- ===== src/Dimacs/Short.antt =====
-- What `three_lits` makes of a clause.
use messaging_cells.Common.{
  ℕ, zero, suc, ◌+◌, ◌≤◌, ◌<◌, ◌≡◌, refl, sym, ap, ◌∙◌, Bool, true, not, ◌&&◌, ◌||◌, Option, none,
  some, List, [], ◌∷◌, ◌++◌, append_assoc, All, arith,
}
use messaging_cells.Dimacs.Literals.{ℤ, pos, negsuc, negate, holds, IsLit, holds-negate, any}
use messaging_cells.Dimacs.Three.{
  Loader, add_lits, append_rr_lits, imply, calc_f_lit_equal_or, pop, join_two, three_step,
}

-- The clauses `cs` as `prepared` holds them.
unfoldable pub flat : List (List ℤ) → List ℤ
flat [] = []
flat (c ∷ cs) = c ++ pos 0 ∷ flat cs

-- All clauses are true.
unfoldable pub all_true : (ℕ → Bool) → List (List ℤ) → Bool
all_true v [] = true
all_true v (c ∷ cs) = any v c && all_true v cs

-- A literal of a variable from 1 to `n`.
unfoldable pub Upto : ℕ → ℤ → Type 0
Upto n (pos m) = (0 < m) × (m ≤ n)
Upto n (negsuc m) = m < n

-- The variables up to `n` have the values that they had.
unfoldable pub Agree : ℕ → (ℕ → Bool) → (ℕ → Bool) → Type 0
Agree n v w = (m : ℕ) → m ≤ n → w m ≡ v m

pub flat-append : (cs ds : List (List ℤ)) → flat (cs ++ ds) ≡ flat cs ++ flat ds
unfolding flat
flat-append [] ds = refl
flat-append (a ∷ cs) ds =
    ap (λ l. a ++ pos 0 ∷ l) (flat-append cs ds) ∙ sym (append_assoc a (pos 0 ∷ flat cs) (flat ds))

pub all_true-append :
    (v : ℕ → Bool) (cs ds : List (List ℤ))
    → all_true v (cs ++ ds) ≡ (all_true v cs && all_true v ds)
unfolding all_true
all_true-append v [] ds = refl
all_true-append v (a ∷ cs) ds = ground (arith, all_true-append v cs ds)

pub holds-Agree : (n : ℕ) (v w : ℕ → Bool) (l : ℤ) → Upto n l → Agree n v w → holds w l ≡ holds v l
unfolding holds Upto Agree
holds-Agree n v w (pos m) u h = h m u.1
holds-Agree n v w (negsuc m) u h = ap not (h (suc m) (omega arith))

pub Upto-suc : (n : ℕ) (ls : List ℤ) → All (Upto n) ls → All (Upto (n + 1)) ls
unfolding Upto
Upto-suc n [] a = tt
Upto-suc n (pos m ∷ ls) a = ((a.0.0, omega arith), Upto-suc n ls a.1)
Upto-suc n (negsuc m ∷ ls) a = (omega arith, Upto-suc n ls a.1)

pub Upto-IsLit : (n : ℕ) (l : ℤ) → Upto n l → IsLit l
unfolding Upto IsLit
Upto-IsLit n (pos zero) u = absurd (omega arith)
Upto-IsLit n (pos (suc m)) u = tt
Upto-IsLit n (negsuc m) u = tt

pop-append : (r : List ℤ) (x : ℤ) → pop (r ++ x ∷ []) ≡ some (r, x)
unfolding pop
pop-append [] x = refl
pop-append (y ∷ r) x = rw (pop-append r x)

pub last-cases : (x : ℤ) (xs : List ℤ) → (r : List ℤ) × (y : ℤ) × (x ∷ xs ≡ r ++ y ∷ [])
last-cases x [] = ([], x, refl)
last-cases x (y ∷ xs) = let (r, z, e) = last-cases y xs in (x ∷ r, z, ap (λ l. x ∷ l) e)

-- The next variable.
unfoldable pub top : Loader → ℕ
top k = k.ld_decl_vars + k.ld_nud_added_vars

-- The three clauses that define `d` as one of `a` and `b`, in the order in which they are added.
unfoldable pub or_clauses : ℤ → ℤ → ℤ → List (List ℤ)
or_clauses d a b = (negate b ∷ d ∷ []) ∷ (negate a ∷ d ∷ []) ∷ (a ∷ b ∷ negate d ∷ []) ∷ []

pub or_clauses_sound :
    (v : ℕ → Bool) (d a b : ℤ)
    → IsLit d
    → IsLit a
    → IsLit b
    → all_true v (or_clauses d a b) ≡ true
    → holds v d ≡ (holds v a || holds v b)
unfolding all_true or_clauses any
or_clauses_sound v d a b p q r h =
    ground (arith, holds-negate v d p, holds-negate v a q, holds-negate v b r, h)

pub or_clauses_complete :
    (v : ℕ → Bool) (d a b : ℤ)
    → IsLit d
    → IsLit a
    → IsLit b
    → holds v d ≡ (holds v a || holds v b)
    → all_true v (or_clauses d a b) ≡ true
unfolding all_true or_clauses any
or_clauses_complete v d a b p q r h =
    ground (arith, holds-negate v d p, holds-negate v a q, holds-negate v b r, h)

-- Three clauses, each ended by `z`, behind `p`.
ended_assoc :
    (p x y w z : List ℤ)
    → p ++ x ++ z ++ y ++ z ++ w ++ z ≡ p ++ (x ++ (z ++ (y ++ (z ++ (w ++ z)))))
ended_assoc p x y w z = simp (append_assoc)

unfoldable pub new_var : Loader → ℤ
new_var k = pos (k.ld_decl_vars + (k.ld_nud_added_vars + 1))

pub join_two-prepared :
    (r : List ℤ) (a b : ℤ) (k : Loader)
    → (join_two r a b k).1.prepared ≡ k.prepared ++ flat (or_clauses (new_var k) a b)
unfolding join_two flat or_clauses append_rr_lits calc_f_lit_equal_or add_lits imply new_var
join_two-prepared r a b k =
    let d = pos (k.ld_decl_vars + (k.ld_nud_added_vars + 1)) in
    ended_assoc k.prepared (negate b ∷ d ∷ []) (negate a ∷ d ∷ []) (a ∷ b ∷ negate d ∷ [])
      (pos 0 ∷ [])

pub join_two-top : (r : List ℤ) (a b : ℤ) (k : Loader) → top (join_two r a b k).1 ≡ top k + 1
unfolding join_two append_rr_lits calc_f_lit_equal_or add_lits top
join_two-top r a b k = omega arith

pub three_step-join :
    (r : List ℤ) (a b : ℤ) (k : Loader)
    → three_step (r ++ a ∷ [] ++ b ∷ []) k ≡ some (join_two r a b k)
unfolding three_step
three_step-join r a b k = ap first (pop-append (r ++ a ∷ []) b) ∙ ap (second b) (pop-append r a)
  where
    second : ℤ → Option (List ℤ × ℤ) → Option (List ℤ × Loader)
    second y o = elim o [ none ↦ none | some (r0, x) ↦ some (join_two r0 x y k) ]

    first : Option (List ℤ × ℤ) → Option (List ℤ × Loader)
    first o = elim o [ none ↦ none | some (r1, y) ↦ second y (pop r1) ]
