-- ===== src/Dimacs/Tests.antt =====
-- Small clauses.
use messaging_cells.Common.{
  not, if◌then◌else◌, ◌==◌, Bool, inr, ◌++◌, ℕ, zero, suc, ◌<◌, ◌≡◌, refl, false, List, [], ◌∷◌,
  All, length, arith,
}
use messaging_cells.Dimacs.Literals.{holds, any, ℤ, pos, negsuc, NidBits, is_true, IsLit}
use messaging_cells.Dimacs.Clauses.{fix_lits}
use messaging_cells.Dimacs.Fixed.{IsClear, FixedOk, fix_lits-FixedOk}
use messaging_cells.Dimacs.Three.{calc_f_lit_equal_or, Loader}
use messaging_cells.Dimacs.Short.{all_true, Upto, top}
use messaging_cells.Dimacs.Reader.{cur, is_digit, get_var, parse_long, parsed, parse_clause}
use messaging_cells.Dimacs.RoundTrip.{show_long, IsEnd, parse_long-show_long}
use messaging_cells.Dimacs.ClauseText.{show_clause, read_of, IsDeclared, parse_clause-show_clause}
use messaging_cells.Dimacs.Equivalents.{
  every, calc_f_lit_equal_and, calc_f_lit_equal_and-true, calc_f_lit_equal_or-true,
}
use messaging_cells.Dimacs.Equal.{ThreeOk, three_lits-ThreeOk}

abbrev no_dots : NidBits
no_dots = record { nb_set_count = 0; nb_pos = λ n. false; nb_neg = λ n. false }

no_dots-IsClear : IsClear no_dots
unfolding is_true
no_dots-IsClear = record { bits = no_bit; count = refl }
  where
    no_bit : (n : ℤ) → is_true n no_dots ≡ false
    no_bit (pos zero) = refl
    no_bit (pos (suc n)) = refl
    no_bit (negsuc n) = refl

-- 2, -3 and 2 again: the second 2 is dropped.
fix_two : (fix_lits (pos 2 ∷ negsuc 2 ∷ pos 2 ∷ []) no_dots (λ k. 0)).lits ≡ pos 2 ∷ negsuc 2 ∷ []
unfolding fix_lits
fix_two = refl

fix_lits-FixedOk_example :
    FixedOk
      (pos 2 ∷ negsuc 2 ∷ pos 2 ∷ [])
      (fix_lits (pos 2 ∷ negsuc 2 ∷ pos 2 ∷ []) no_dots (λ k. 0))
unfolding IsLit
fix_lits-FixedOk_example =
    fix_lits-FixedOk (pos 2) (negsuc 2 ∷ pos 2 ∷ []) no_dots (λ k. 0) (tt, (tt, (tt, tt)))
      no_dots-IsClear

abbrev loader : Loader
loader = record {
  ld_decl_vars = 5;
  ld_nud_added_vars = 0;
  ld_nud_added_ccls = 0;
  ld_nud_added_lits = 0;
  ld_nud_added_twolits = 0;
  prepared = [];
}

abbrev five_lits : List ℤ
five_lits = pos 1 ∷ negsuc 1 ∷ pos 3 ∷ pos 4 ∷ pos 5 ∷ []

five_lits-Upto : All (Upto (top loader)) five_lits
unfolding Upto top
five_lits-Upto = (
  (omega arith, omega arith),
  (
    omega arith,
    ((omega arith, omega arith), ((omega arith, omega arith), ((omega arith, omega arith), tt))),
  ),
)

three_lits-ThreeOk_example : ThreeOk 6 five_lits loader
three_lits-ThreeOk_example = three_lits-ThreeOk 6 five_lits loader five_lits-Upto six
  where
    six : length five_lits < 6
    six = omega arith

-- "-12 3 0"
abbrev text : List ℕ
text = 45 ∷ 49 ∷ 50 ∷ 32 ∷ 51 ∷ 32 ∷ 48 ∷ 10 ∷ []

text_shown : show_clause (negsuc 11 ∷ pos 3 ∷ []) ≡ text
unfolding show_clause
text_shown = refl

blank-IsEnd : IsEnd (32 ∷ [])
unfolding IsEnd cur is_digit
blank-IsEnd = refl

parse_long-show_long_example :
    parse_long (show_long (negsuc 11) ++ 32 ∷ []) 1 ≡ inr (negsuc 11, 32 ∷ [])
unfolding get_var
parse_long-show_long_example =
    parse_long-show_long (negsuc 11) (32 ∷ []) 1 (omega arith) blank-IsEnd

two-IsDeclared : All (IsDeclared 12) (negsuc 11 ∷ pos 3 ∷ [])
unfolding get_var
two-IsDeclared = (
  record { some_var = omega arith; bound = omega arith },
  (record { some_var = omega arith; bound = omega arith }, tt),
)

parse_clause-show_clause_example :
    parse_clause 12 3 (show_clause (negsuc 11 ∷ pos 3 ∷ []) ++ 48 ∷ []) 2
    ≡ parsed (negsuc 11 ∷ pos 3 ∷ []) (10 ∷ 48 ∷ []) 2
unfolding read_of
parse_clause-show_clause_example =
    parse_clause-show_clause 12 3 (negsuc 11 ∷ pos 3 ∷ []) (48 ∷ []) 2 (omega arith) two-IsDeclared
      (omega arith)

-- The variable 1 holds, and no other.
abbrev first_only : ℕ → Bool
first_only n = n == 1

two-IsLit : All IsLit (pos 1 ∷ negsuc 1 ∷ [])
unfolding IsLit
two-IsLit = (tt, (tt, tt))

nine-IsLit : IsLit (pos 9)
unfolding IsLit
nine-IsLit = tt

calc_f_lit_equal_and-true_example :
    all_true first_only (calc_f_lit_equal_and (pos 9) (pos 1 ∷ negsuc 1 ∷ [])) ≡ (
      if every first_only (pos 1 ∷ negsuc 1 ∷ [])
      then holds first_only (pos 9)
      else not (holds first_only (pos 9)))
calc_f_lit_equal_and-true_example =
    calc_f_lit_equal_and-true first_only (pos 9) (pos 1 ∷ negsuc 1 ∷ []) nine-IsLit two-IsLit

calc_f_lit_equal_or-true_example :
    all_true first_only (calc_f_lit_equal_or (pos 9) (pos 1 ∷ negsuc 1 ∷ [])) ≡ (
      if any first_only (pos 1 ∷ negsuc 1 ∷ [])
      then holds first_only (pos 9)
      else not (holds first_only (pos 9)))
calc_f_lit_equal_or-true_example =
    calc_f_lit_equal_or-true first_only (pos 9) (pos 1 ∷ negsuc 1 ∷ []) nine-IsLit two-IsLit
