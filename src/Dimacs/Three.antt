-- ===== src/Dimacs/Three.antt =====
-- `dimacs_loader::three_lits` with `calc_f_lit_equal_or`, `append_rr_lits` and `add_lits`.
use messaging_cells.Common.{
  ℕ, zero, suc, ◌+◌, ◌==◌, ltb, Bool, true, false, if◌then◌else◌, Option, none, some, List, [], ◌∷◌,
  ◌++◌, map, length,
}
use messaging_cells.Dimacs.Literals.{ℤ, pos, negate}

-- `ld_decl_vars`, the counts of what is added, and the row `prepared`, where a 0 ends each clause.
pub record Loader : Type 0 where
  pub ld_decl_vars : ℕ
  pub ld_nud_added_vars : ℕ
  pub ld_nud_added_ccls : ℕ
  pub ld_nud_added_lits : ℕ
  pub ld_nud_added_twolits : ℕ
  pub prepared : List ℤ

unfoldable pub add_lits : List ℤ → Bool → Loader → Loader
add_lits lits is_orig k =
    let k1 = if is_orig then k else record k {
      ld_nud_added_ccls = k.ld_nud_added_ccls + 1;
      ld_nud_added_lits = k.ld_nud_added_lits + length lits;
      ld_nud_added_twolits =
          if length lits == 2 then k.ld_nud_added_twolits + 1 else k.ld_nud_added_twolits;
    } in
    record k1 { prepared = k.prepared ++ lits ++ pos 0 ∷ [] }

-- The last clause of the row goes first.
unfoldable pub append_rr_lits : List (List ℤ) → Loader → Loader
unfolding add_lits
append_rr_lits [] k = k
append_rr_lits (c ∷ cs) k = add_lits c false (append_rr_lits cs k)

unfoldable pub imply : ℤ → ℤ → List ℤ
imply d o = negate o ∷ d ∷ []

-- The clauses that make `d_lit` as true as one of `or_lits`.
unfoldable pub calc_f_lit_equal_or : ℤ → List ℤ → List (List ℤ)
unfolding imply
calc_f_lit_equal_or d_lit or_lits = (or_lits ++ negate d_lit ∷ []) ∷ map (imply d_lit) or_lits

-- `row::pop`; of an empty row it gives nothing.
unfoldable pub pop : List ℤ → Option (List ℤ × ℤ)
pop [] = none
pop (x ∷ xs) = elim (pop xs) [ none ↦ some ([], x) | some (r, y) ↦ some (x ∷ r, y) ]

-- The body of the loop, after the two pops.
unfoldable pub join_two : List ℤ → ℤ → ℤ → Loader → List ℤ × Loader
unfolding append_rr_lits calc_f_lit_equal_or
join_two lits lit_0 lit_1 k =
    let k1 = record k { ld_nud_added_vars = k.ld_nud_added_vars + 1 } in
    let curr_max_var = pos (k1.ld_decl_vars + k1.ld_nud_added_vars) in
    (
      lits ++ curr_max_var ∷ [],
      append_rr_lits (calc_f_lit_equal_or curr_max_var (lit_0 ∷ lit_1 ∷ [])) k1,
    )

unfoldable pub three_step : List ℤ → Loader → Option (List ℤ × Loader)
unfolding pop join_two
three_step lits k = elim (pop lits) [
  | none ↦ none
  | some (r1, lit_1) ↦ elim (pop r1) [
    | none ↦ none
    | some (r0, lit_0) ↦ some (join_two r0 lit_0 lit_1 k)
  ]
]

unfoldable pub three_lits : ℕ → List ℤ → Loader → Option (List ℤ × Loader)
unfolding three_step
three_lits zero lits k = none
three_lits (suc fuel) lits k = elim (ltb 3 (length lits)) [
  | false ↦ some (lits, k)
  | true ↦ elim (three_step lits k) [ none ↦ none | some (next, j) ↦ three_lits fuel next j ]
]
