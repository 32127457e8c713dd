-- ===== src/Dimacs/ClauseText.antt =====
-- A clause that is printed is read back by `parse_clause`.
use messaging_cells.Common.{
  ℕ, zero, suc, ◌≤◌, ◌<◌, ◌≡◌, refl, sym, ap, subst, ◌∙◌, ◌==◌, ltb, true, false, inr, List, [],
  ◌∷◌, ◌++◌, append_assoc, length, All, arith,
}
use messaging_cells.Dimacs.Literals.{ℤ, pos, negsuc}
use messaging_cells.Dimacs.Reader.{
  cur, is_digit, is_skipped, is_alnum, is_space, skip_whitespace, parse_long, get_var, Parsed,
  parsed, no_clause, if_some_lits, long_lim, push_first, parse_lits, parse_clause,
}
use messaging_cells.Dimacs.RoundTrip.{
  show_nat, show_long, cur-show_nat, IsEnd, parse_long-show_long,
}

-- The literals, each with a blank behind it, and a 0 and the end of the line.
unfoldable pub show_clause : List ℤ → List ℕ
unfolding show_long
show_clause [] = 48 ∷ 10 ∷ []
show_clause (l ∷ ls) = show_long l ++ 32 ∷ show_clause ls

-- A literal of a declared variable.
pub record IsDeclared (decl_vars : ℕ) (l : ℤ) : Type 0 where
  pub some_var : 0 < get_var l
  pub bound : get_var l ≤ decl_vars

digit-shown : (c : ℕ) → is_digit c ≡ true → is_skipped c ≡ false
unfolding is_digit is_skipped is_alnum is_space
digit-shown c h = ground (arith, h)

skip_whitespace-shown :
    (cs : List ℕ) (line : ℕ) → is_skipped (cur cs) ≡ false → skip_whitespace cs line ≡ (cs, line)
unfolding skip_whitespace cur
skip_whitespace-shown [] line h = refl
skip_whitespace-shown (c ∷ cs) line h = rw h

shown_long : (l : ℤ) (cs : List ℕ) → is_skipped (cur (show_long l ++ cs)) ≡ false
unfolding show_long cur is_skipped is_alnum is_space is_digit
shown_long (pos n) cs =
    digit-shown (cur (show_nat (suc n) n ++ cs)) (cur-show_nat (suc n) n cs (omega arith))
shown_long (negsuc n) cs = refl

shown_clause : (ls : List ℤ) (cs : List ℕ) → is_skipped (cur (show_clause ls ++ cs)) ≡ false
unfolding show_clause cur is_digit
shown_clause [] cs = digit-shown 48 refl
shown_clause (l ∷ ls) cs =
    rw (append_assoc (show_long l) (32 ∷ show_clause ls) cs)
      (shown_long l (32 ∷ show_clause ls ++ cs))

skip_blank :
    (cs : List ℕ) (line : ℕ)
    → is_skipped (cur cs) ≡ false
    → skip_whitespace (32 ∷ cs) line ≡ (cs, line)
unfolding skip_whitespace
skip_blank cs line h = skip_whitespace-shown cs line h

parse_lits-end :
    (decl_vars fuel : ℕ) (text es : List ℕ) (line : ℕ) (l : ℤ) {ds : List ℕ}
    → (cur text == 0) ≡ false
    → skip_whitespace text line ≡ (ds, line)
    → parse_long ds line ≡ inr (l, es)
    → (get_var l == 0) ≡ true
    → parse_lits decl_vars (suc fuel) text line ≡ parsed [] es line
unfolding parse_lits
parse_lits-end decl_vars fuel text es line l z s p n = ground (arith, z, s, p, n)

parse_lits-push :
    (decl_vars fuel : ℕ) (text es : List ℕ) (line : ℕ) (l : ℤ) (ds : List ℕ)
    → (cur text == 0) ≡ false
    → skip_whitespace text line ≡ (ds, line)
    → parse_long ds line ≡ inr (l, es)
    → (get_var l == 0) ≡ false
    → ltb decl_vars (get_var l) ≡ false
    → parse_lits decl_vars (suc fuel) text line ≡ push_first l (parse_lits decl_vars fuel es line)
unfolding parse_lits
parse_lits-push decl_vars fuel text es line l ds z s p n b = ground (arith, z, s, p, n, b)

-- Where the cursor is at the clause, or at a blank before it.
parse_lits-show_clause :
    (decl_vars fuel : ℕ) (ls : List ℤ) (text cs : List ℕ) (line : ℕ)
    → decl_vars < long_lim
    → All (IsDeclared decl_vars) ls
    → length ls < fuel
    → (cur text == 0) ≡ false
    → skip_whitespace text line ≡ (show_clause ls ++ cs, line)
    → parse_lits decl_vars fuel text line ≡ parsed ls (10 ∷ cs) line
unfolding IsEnd is_digit cur show_clause show_long get_var push_first show_nat
parse_lits-show_clause decl_vars zero ls text cs line w a f z s = absurd (omega arith)
parse_lits-show_clause decl_vars (suc fuel) [] text cs line w a f z s =
    parse_lits-end decl_vars fuel text (10 ∷ cs) line (pos 0) z s
      (parse_long-show_long (pos 0) (10 ∷ cs) line (omega arith) refl) refl
parse_lits-show_clause decl_vars (suc fuel) (l ∷ ls) text cs line w a f z s =
    parse_lits-push decl_vars fuel text (32 ∷ show_clause ls ++ cs) line l _ z s read
      (positive a.0.some_var) (within a.0.bound)
    ∙ ap (push_first l) (
        parse_lits-show_clause decl_vars fuel ls (32 ∷ show_clause ls ++ cs) cs line w a.1
          (omega arith) refl (skip_blank (show_clause ls ++ cs) line (shown_clause ls cs)))
  where
    read : parse_long (show_clause (l ∷ ls) ++ cs) line ≡ inr (l, 32 ∷ show_clause ls ++ cs)
    read = rw (append_assoc (show_long l) (32 ∷ show_clause ls) cs) (
        parse_long-show_long l (32 ∷ show_clause ls ++ cs) line (let b = a.0.bound in omega arith)
          refl)

    positive : 0 < get_var l → (get_var l == 0) ≡ false
    positive h = ground (arith, h)

    within : get_var l ≤ decl_vars → ltb decl_vars (get_var l) ≡ false
    within h = ground (arith, h)

digit-nonzero : (c : ℕ) → is_digit c ≡ true → (c == 0) ≡ false
unfolding is_digit
digit-nonzero c h = ground (arith, h)

nonzero_long : (l : ℤ) (cs : List ℕ) → (cur (show_long l ++ cs) == 0) ≡ false
unfolding show_long cur
nonzero_long (pos n) cs =
    digit-nonzero (cur (show_nat (suc n) n ++ cs)) (cur-show_nat (suc n) n cs (omega arith))
nonzero_long (negsuc n) cs = refl

nonzero_clause : (ls : List ℤ) (cs : List ℕ) → (cur (show_clause ls ++ cs) == 0) ≡ false
unfolding show_clause cur
nonzero_clause [] cs = refl
nonzero_clause (l ∷ ls) cs =
    subst (λ t. (cur t == 0) ≡ false) (sym (append_assoc (show_long l) (32 ∷ show_clause ls) cs))
      (nonzero_long l (32 ∷ show_clause ls ++ cs))

-- What is to be read of a clause: its literals, or false where there is none.
unfoldable pub read_of : List ℤ → List ℕ → ℕ → Parsed
read_of [] cs line = no_clause cs line
read_of (l ∷ ls) cs line = parsed (l ∷ ls) cs line

if_some_lits-parsed :
    (ls : List ℤ) (cs : List ℕ) (line : ℕ) → if_some_lits (parsed ls cs line) ≡ read_of ls cs line
unfolding if_some_lits read_of
if_some_lits-parsed [] cs line = refl
if_some_lits-parsed (l ∷ ls) cs line = refl

-- A printed clause of at least one literal, all of declared variables, with any text behind it, is
-- read back as it was; for a printed clause without literals `parse_clause` gives false. In both
-- cases the cursor is then at the end of the line of the clause. The number of declared variables is
-- below 2^63, and fuel above the number of literals is enough.
pub parse_clause-show_clause :
    (decl_vars fuel : ℕ) (ls : List ℤ) (cs : List ℕ) (line : ℕ)
    → decl_vars < long_lim
    → All (IsDeclared decl_vars) ls
    → length ls < fuel
    → parse_clause decl_vars fuel (show_clause ls ++ cs) line ≡ read_of ls (10 ∷ cs) line
unfolding parse_clause
parse_clause-show_clause decl_vars fuel ls cs line w a f =
    let z = nonzero_clause ls cs in
    let s = skip_whitespace-shown (show_clause ls ++ cs) line (shown_clause ls cs) in
    rw (z, s)
      (ap if_some_lits
          (parse_lits-show_clause decl_vars fuel ls (show_clause ls ++ cs) cs line w a f z s)
        ∙ if_some_lits-parsed ls (10 ∷ cs) line)
