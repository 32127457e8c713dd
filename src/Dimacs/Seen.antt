-- ===== src/Dimacs/Seen.antt =====
-- What the loops of `fix_lits` keep: the dots mark the literals seen, and a clause is as true as before.
use messaging_cells.Common.{
  ℕ, zero, suc, ◌+◌, ◌-◌, ◌≡◌, refl, sym, ap, subst, ◌∙◌, Bool, Bool-cases, true, false, not, ◌&&◌,
  ◌||◌, inl, inr, List, [], ◌∷◌, ◌++◌, length, length-append, All, arith,
}
use messaging_cells.Dimacs.Literals.{
  ℤ, pos, negsuc, negate, eq_lit, NidBits, is_true, set, reset, any_true, is_true-set,
  is_true-reset, eq_lit-eq, holds, IsLit, holds-negate, any,
}
use messaging_cells.Dimacs.Clauses.{Fixing, count_fix, fix_lit, fix_loop, reset_all}

unfoldable pub mem : ℤ → List ℤ → Bool
mem n [] = false
mem n (x ∷ xs) = eq_lit x n || mem n xs

mem-append : (n : ℤ) (xs ys : List ℤ) → mem n (xs ++ ys) ≡ (mem n xs || mem n ys)
unfolding mem
mem-append n [] ys = refl
mem-append n (x ∷ xs) ys = ground (arith, mem-append n xs ys)

pub any-append : (v : ℕ → Bool) (xs ys : List ℤ) → any v (xs ++ ys) ≡ (any v xs || any v ys)
unfolding any
any-append v [] ys = refl
any-append v (x ∷ xs) ys = ground (arith, any-append v xs ys)

any-mem :
    (v : ℕ → Bool) (n : ℤ) (xs : List ℤ) → mem n xs ≡ true → holds v n ≡ true → any v xs ≡ true
unfolding any mem
any-mem v n [] m h = cc
any-mem v n (x ∷ xs) m h = elim (Bool-cases (eq_lit x n)) [
  | inl y ↦
      (let e : holds v x ≡ true = subst (λ z. holds v z ≡ true) (sym (eq_lit-eq x n y)) h in
        ground (arith, e))
  | inr y ↦ ground (arith, any-mem v n xs, y, m, h)
]

eq_lit_symm : (n m : ℤ) → eq_lit n m ≡ eq_lit m n
unfolding eq_lit
eq_lit_symm (pos a) (pos b) = ground arith
eq_lit_symm (pos a) (negsuc b) = refl
eq_lit_symm (negsuc a) (pos b) = refl
eq_lit_symm (negsuc a) (negsuc b) = ground arith

eq_lit-negate : (n m : ℤ) → eq_lit n (negate m) ≡ eq_lit m (negate n)
unfolding eq_lit negate
eq_lit-negate (pos zero) (pos zero) = refl
eq_lit-negate (pos zero) (pos (suc b)) = ground arith
eq_lit-negate (pos zero) (negsuc b) = ground arith
eq_lit-negate (pos (suc a)) (pos zero) = ground arith
eq_lit-negate (pos (suc a)) (pos (suc b)) = ground arith
eq_lit-negate (pos (suc a)) (negsuc b) = ground arith
eq_lit-negate (negsuc a) (pos zero) = ground arith
eq_lit-negate (negsuc a) (pos (suc b)) = ground arith
eq_lit-negate (negsuc a) (negsuc b) = ground arith

-- No literal twice, and none with its opposite.
unfoldable pub Clean : List ℤ → Type 0
Clean [] = Unit
Clean (x ∷ xs) = (mem x xs ≡ false) × (mem (negate x) xs ≡ false) × Clean xs

Clean-append :
    (n : ℤ) (xs : List ℤ)
    → mem n xs ≡ false
    → mem (negate n) xs ≡ false
    → Clean xs
    → Clean (xs ++ n ∷ [])
unfolding Clean mem
Clean-append n [] a b c = (refl, refl, tt)
Clean-append n (x ∷ xs) a b c = (
  ground (arith, mem-append x xs (n ∷ []), eq_lit_symm n x, a, c.0),
  ground (arith, mem-append (negate x) xs (n ∷ []), eq_lit-negate n x, b, c.1),
  Clean-append n xs (ground (arith, a)) (ground (arith, b)) c.2,
)

pub record SeenOk (f : Fixing) : Type 0 where
  pub dots : (n : ℤ) → is_true n f.ld_dots ≡ mem n f.tmp_dens
  pub count : f.ld_dots.nb_set_count ≡ length f.tmp_dens
  pub clean : Clean f.tmp_dens

data LitCase (n : ℤ) (f : Fixing) : Type 0 where
  new :
      mem n f.tmp_dens ≡ false
      → mem (negate n) f.tmp_dens ≡ false
      → fix_lit n f ≡ record f { ld_dots = set n f.ld_dots; tmp_dens = f.tmp_dens ++ n ∷ [] }
      → LitCase n f
  again : mem n f.tmp_dens ≡ true → fix_lit n f ≡ count_fix 0 f → LitCase n f
  both :
      mem (negate n) f.tmp_dens ≡ true
      → fix_lit n f ≡ record (count_fix 1 f) { satisfied = true }
      → LitCase n f

fix_lit-cases : (n : ℤ) (f : Fixing) → SeenOk f → LitCase n f
unfolding fix_lit any_true
fix_lit-cases n f s = elim (Bool-cases (is_true n f.ld_dots)) [
  | inl y ↦ again (sym (s.dots n) ∙ y) (ground (arith, y))
  | inr y ↦ elim (Bool-cases (is_true (negate n) f.ld_dots)) [
    | inl z ↦ both (sym (s.dots (negate n)) ∙ z) (ground (arith, y, z))
    | inr z ↦ new (sym (s.dots n) ∙ y) (sym (s.dots (negate n)) ∙ z) (ground (arith, y, z))
  ]
]

fix_lit-SeenOk : (n : ℤ) (f : Fixing) → SeenOk f → SeenOk (fix_lit n f)
unfolding mem set count_fix
fix_lit-SeenOk n f s = by_case (fix_lit-cases n f s)
  where
    added :
        mem n f.tmp_dens ≡ false
        → mem (negate n) f.tmp_dens ≡ false
        → SeenOk (record f { ld_dots = set n f.ld_dots; tmp_dens = f.tmp_dens ++ n ∷ [] })
    added a b = record {
      dots = λ m.
          is_true-set n m f.ld_dots ∙ ground (arith, mem-append m f.tmp_dens (n ∷ []), s.dots m);
      count = ap (λ x. x + 1) s.count ∙ sym (length-append f.tmp_dens (n ∷ []));
      clean = Clean-append n f.tmp_dens a b s.clean;
    }

    by_case : LitCase n f → SeenOk (fix_lit n f)
    by_case (new a b e) = subst SeenOk (sym e) (added a b)
    by_case (again a e) =
        subst SeenOk (sym e) (record { dots = s.dots; count = s.count; clean = s.clean })
    by_case (both a e) =
        subst SeenOk (sym e) (record { dots = s.dots; count = s.count; clean = s.clean })

unfoldable pub truth : (ℕ → Bool) → Fixing → Bool
truth v f = f.satisfied || any v f.tmp_dens

fix_lit-truth :
    (v : ℕ → Bool) (n : ℤ) (f : Fixing)
    → IsLit n
    → SeenOk f
    → truth v (fix_lit n f) ≡ (truth v f || holds v n)
unfolding truth any count_fix
fix_lit-truth v n f l s = by_case (fix_lit-cases n f s)
  where
    by_case : LitCase n f → truth v (fix_lit n f) ≡ (truth v f || holds v n)
    by_case (new a b e) = ap (truth v) e ∙ ground (arith, any-append v f.tmp_dens (n ∷ []))
    by_case (again a e) = ap (truth v) e ∙ ground (arith, any-mem v n f.tmp_dens a)
    by_case (both a e) =
        ap (truth v) e ∙ ground (arith, any-mem v (negate n) f.tmp_dens a, holds-negate v n l)

pub fix_loop-SeenOk : (ls : List ℤ) (f : Fixing) → SeenOk f → SeenOk (fix_loop ls f)
unfolding fix_loop
fix_loop-SeenOk [] f s = s
fix_loop-SeenOk (l ∷ ls) f s = fix_loop-SeenOk ls (fix_lit l f) (fix_lit-SeenOk l f s)

pub fix_loop-truth :
    (v : ℕ → Bool) (ls : List ℤ) (f : Fixing)
    → All IsLit ls
    → SeenOk f
    → truth v (fix_loop ls f) ≡ (truth v f || any v ls)
unfolding fix_loop any
fix_loop-truth v [] f a s = ground arith
fix_loop-truth v (l ∷ ls) f a s =
    fix_loop-truth v ls (fix_lit l f) a.1 (fix_lit-SeenOk l f s)
    ∙ ground (arith, fix_lit-truth v l f a.0 s)

pub is_true-reset_all :
    (n : ℤ) (ls : List ℤ) (d : NidBits)
    → is_true n (reset_all ls d) ≡ (is_true n d && not (mem n ls))
unfolding reset_all mem
is_true-reset_all n [] d = ground arith
is_true-reset_all n (l ∷ ls) d =
    is_true-reset_all n ls (reset l d) ∙ ground (arith, is_true-reset l n d)

pub count-reset_all :
    (ls : List ℤ) (d : NidBits) → (reset_all ls d).nb_set_count ≡ d.nb_set_count - length ls
unfolding reset_all reset
count-reset_all [] d = omega arith
count-reset_all (l ∷ ls) d = count-reset_all ls (reset l d) ∙ omega arith
