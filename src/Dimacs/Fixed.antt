-- ===== src/Dimacs/Fixed.antt =====
-- What `fix_lits` makes of a clause.
use messaging_cells.Common.{
  ℕ, ◌≡◌, ◌≢◌, refl, sym, ◌∙◌, Bool, Bool-cases, true, false, not, ◌||◌, inl, inr, List, [], ◌∷◌,
  length, All, arith,
}
use messaging_cells.Dimacs.Literals.{ℤ, pos, negsuc, NidBits, is_true, holds, IsLit, any}
use messaging_cells.Dimacs.Clauses.{
  Fixing, Fixed, count_fix, fix_loop, reset_all, finish_fix, fix_lits,
}
use messaging_cells.Dimacs.Seen.{
  mem, Clean, SeenOk, truth, fix_loop-SeenOk, fix_loop-truth, is_true-reset_all, count-reset_all,
}

-- No literal is marked.
pub record IsClear (d : NidBits) : Type 0 where
  pub bits : (n : ℤ) → is_true n d ≡ false
  pub count : d.nb_set_count ≡ 0

-- The result `r` for the clause `lits`: it is settled; what is left of it has no literal twice and
-- none with its opposite; no literal stays marked; and under every assignment the clause is true
-- where `r` adds no clause or the clause that it adds is true.
pub record FixedOk (lits : List ℤ) (r : Fixed) : Type 0 where
  pub settled : r.fixed ≡ true
  pub clean : Clean r.lits
  pub clear : IsClear r.ld_dots
  pub same : (v : ℕ → Bool) → (not r.add_it || any v r.lits) ≡ any v lits

some_true : (l : ℤ) → (v : ℕ → Bool) × (holds v l ≡ true)
unfolding holds
some_true (pos n) = ((λ m. true), refl)
some_true (negsuc n) = ((λ m. false), refl)

clear-SeenOk :
    (d : NidBits) (fixes : ℕ → ℕ)
    → IsClear d
    → SeenOk (record { ld_dots = d; ld_fixes = fixes; tmp_dens = []; satisfied = false })
unfolding mem Clean
clear-SeenOk d fixes c = record { dots = c.bits; count = c.count; clean = tt }

reset_all-IsClear : (f : Fixing) → SeenOk f → IsClear (reset_all f.tmp_dens f.ld_dots)
reset_all-IsClear f s = record {
  bits = λ n. is_true-reset_all n f.tmp_dens f.ld_dots ∙ ground (arith, s.dots n);
  count = count-reset_all f.tmp_dens f.ld_dots ∙ (let h = s.count in omega arith);
}

finish_fix-FixedOk :
    (lits : List ℤ) (f : Fixing)
    → SeenOk f
    → ((v : ℕ → Bool) → truth v f ≡ any v lits)
    → (f.satisfied ≡ false → f.tmp_dens ≢ [])
    → FixedOk lits (finish_fix f)
unfolding finish_fix truth count_fix
finish_fix-FixedOk lits f s t some = elim (Bool-cases f.satisfied) [
  | inl y ↦ record {
    settled = ground (arith, y);
    clean = s.clean;
    clear = reset_all-IsClear f s;
    same = λ v. ground (arith, y, t v);
  }
  | inr y ↦
      (let l = nonzero f.tmp_dens (some y) in
        record {
          settled = ground (arith, y, l);
          clean = s.clean;
          clear = reset_all-IsClear f s;
          same = λ v. ground (arith, y, t v, l);
        })
]
  where
    nonzero : (xs : List ℤ) → xs ≢ [] → length xs ≢ 0
    nonzero [] n e = n refl
    nonzero (x ∷ xs) n e = omega arith

-- For a clause with a literal, whose literals are not 0, and with no literal marked, `fix_lits`
-- always settles it: no literal is left twice or beside its opposite, no literal stays marked, and
-- the clause is true under an assignment just where no clause is added or the added one is true.
pub fix_lits-FixedOk :
    (l : ℤ) (ls : List ℤ) (d : NidBits) (fixes : ℕ → ℕ)
    → All IsLit (l ∷ ls)
    → IsClear d
    → FixedOk (l ∷ ls) (fix_lits (l ∷ ls) d fixes)
unfolding fix_lits truth any
fix_lits-FixedOk l ls d fixes a c =
    finish_fix-FixedOk (l ∷ ls) end (fix_loop-SeenOk (l ∷ ls) begin s) t
      (λ y e. no_literal y e (some_true l))
  where
    begin : Fixing
    begin = record { ld_dots = d; ld_fixes = fixes; tmp_dens = []; satisfied = false }

    s : SeenOk begin
    s = clear-SeenOk d fixes c

    end : Fixing
    end = fix_loop (l ∷ ls) begin

    t : (v : ℕ → Bool) → truth v end ≡ any v (l ∷ ls)
    t v = fix_loop-truth v (l ∷ ls) begin a s

    dull : end.satisfied ≡ false → end.tmp_dens ≡ [] → (v : ℕ → Bool) → truth v end ≡ false
    dull y e v = rw (y, e)

    no_literal : end.satisfied ≡ false → end.tmp_dens ≡ [] → (v : ℕ → Bool) × (holds v l ≡ true) → ⊥
    no_literal y e (v, h) =
        let f : truth v end ≡ false = dull y e v in
        let g : any v (l ∷ ls) ≡ true = ground (arith, h) in let q = sym f ∙ t v ∙ g in cc
