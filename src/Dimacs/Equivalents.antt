-- ===== src/Dimacs/Equivalents.antt =====
-- `calc_f_lit_equal_or` and `calc_f_lit_equal_and`: the clauses that tie a literal to others.
use messaging_cells.Common.{
  ℕ, ◌≡◌, refl, Bool, true, not, ◌&&◌, ◌||◌, if◌then◌else◌, List, [], ◌∷◌, ◌++◌, map, All, arith,
}
use messaging_cells.Dimacs.Literals.{ℤ, negate, holds, IsLit, holds-negate, any}
use messaging_cells.Dimacs.Seen.{any-append}
use messaging_cells.Dimacs.Three.{imply, calc_f_lit_equal_or}
use messaging_cells.Dimacs.Short.{all_true}

-- `dimacs_loader::lits_opps`
unfoldable pub lits_opps : List ℤ → List ℤ
lits_opps [] = []
lits_opps (l ∷ ls) = negate l ∷ lits_opps ls

unfoldable pub implied : ℤ → ℤ → List ℤ
implied d_lit a_lit = a_lit ∷ negate d_lit ∷ []

-- The clauses that make `d_lit` true just where all of `and_lits` are.
unfoldable pub calc_f_lit_equal_and : ℤ → List ℤ → List (List ℤ)
unfolding lits_opps implied
calc_f_lit_equal_and d_lit and_lits =
    (lits_opps and_lits ++ d_lit ∷ []) ∷ map (implied d_lit) and_lits

unfoldable pub every : (ℕ → Bool) → List ℤ → Bool
every v [] = true
every v (l ∷ ls) = holds v l && every v ls

any-lits_opps :
    (v : ℕ → Bool) (ls : List ℤ) → All IsLit ls → any v (lits_opps ls) ≡ not (every v ls)
unfolding any lits_opps every
any-lits_opps v [] a = refl
any-lits_opps v (l ∷ ls) a = ground (arith, holds-negate v l a.0, any-lits_opps v ls a.1)

all_true-implied :
    (v : ℕ → Bool) (d : ℤ) (ls : List ℤ)
    → IsLit d
    → all_true v (map (implied d) ls) ≡ (every v ls || not (holds v d))
unfolding all_true every implied any
all_true-implied v d [] p = refl
all_true-implied v d (l ∷ ls) p = ground (arith, holds-negate v d p, all_true-implied v d ls p)

all_true-imply :
    (v : ℕ → Bool) (d : ℤ) (ls : List ℤ)
    → All IsLit ls
    → all_true v (map (imply d) ls) ≡ (not (any v ls) || holds v d)
unfolding all_true imply any
all_true-imply v d [] a = refl
all_true-imply v d (l ∷ ls) a = ground (arith, holds-negate v l a.0, all_true-imply v d ls a.1)

-- An assignment makes the clauses of `calc_f_lit_equal_and` true just where it gives the literal
-- `d` the value of the conjunction of `ls`, for literals that are not 0.
pub calc_f_lit_equal_and-true :
    (v : ℕ → Bool) (d : ℤ) (ls : List ℤ)
    → IsLit d
    → All IsLit ls
    → all_true v (calc_f_lit_equal_and d ls) ≡ (if every v ls then holds v d else not (holds v d))
unfolding calc_f_lit_equal_and all_true any
calc_f_lit_equal_and-true v d ls p a =
    ground
      (arith, any-append v (lits_opps ls) (d ∷ []), any-lits_opps v ls a, all_true-implied v d ls p)

-- An assignment makes the clauses of `calc_f_lit_equal_or` true just where it gives the literal `d`
-- the value of the disjunction of `ls`, for literals that are not 0.
pub calc_f_lit_equal_or-true :
    (v : ℕ → Bool) (d : ℤ) (ls : List ℤ)
    → IsLit d
    → All IsLit ls
    → all_true v (calc_f_lit_equal_or d ls) ≡ (if any v ls then holds v d else not (holds v d))
unfolding calc_f_lit_equal_or all_true any
calc_f_lit_equal_or-true v d ls p a =
    ground (arith, any-append v ls (negate d ∷ []), holds-negate v d p, all_true-imply v d ls a)
