-- ===== src/Dimacs/Clauses.antt =====
-- `dimacs_loader::fix_lits` and the parts of the loader's state that it uses.
use messaging_cells.Common.{
  put_at, ℕ, ◌+◌, ◌==◌, Bool, true, false, not, ◌&&◌, ◌||◌, ltb, if◌then◌else◌, List, [], ◌∷◌, ◌++◌,
  length,
}
use messaging_cells.Dimacs.Literals.{ℤ, NidBits, is_true, set, reset, any_true}

-- `fix_kind`
abbrev pub fx_lit_already_in_clause : ℕ
fx_lit_already_in_clause = 0

abbrev pub fx_clause_has_both_lit : ℕ
fx_clause_has_both_lit = 1

abbrev pub fx_empty_clause : ℕ
fx_empty_clause = 2

abbrev pub fx_clause_has_one_lit : ℕ
fx_clause_has_one_lit = 3

-- `ld_dots`, `ld_fixes` and the local variables of the first loop.
pub record Fixing : Type 0 where
  pub ld_dots : NidBits
  pub ld_fixes : ℕ → ℕ
  pub tmp_dens : List ℤ
  pub satisfied : Bool

unfoldable pub count_fix : ℕ → Fixing → Fixing
count_fix k f = record f { ld_fixes = put_at k (f.ld_fixes k + 1) f.ld_fixes }

-- The body of the first loop.
unfoldable pub fix_lit : ℤ → Fixing → Fixing
unfolding any_true set is_true count_fix
fix_lit nid f =
    if not (any_true nid f.ld_dots)
    then record f { ld_dots = set nid f.ld_dots; tmp_dens = f.tmp_dens ++ nid ∷ [] }
    else if is_true nid f.ld_dots
    then count_fix fx_lit_already_in_clause f
    else record (count_fix fx_clause_has_both_lit f) { satisfied = true }

unfoldable pub fix_loop : List ℤ → Fixing → Fixing
unfolding fix_lit
fix_loop [] f = f
fix_loop (l ∷ ls) f = fix_loop ls (fix_lit l f)

-- The second loop: `lits` becomes `tmp_dens`, and the dots are taken back.
unfoldable pub reset_all : List ℤ → NidBits → NidBits
unfolding reset
reset_all [] d = d
reset_all (l ∷ ls) d = reset_all ls (reset l d)

pub record Fixed : Type 0 where
  pub fixed : Bool
  pub add_it : Bool
  pub lits : List ℤ
  pub ld_dots : NidBits
  pub ld_fixes : ℕ → ℕ

unfoldable pub finish_fix : Fixing → Fixed
unfolding reset_all count_fix
finish_fix f =
    let n = length f.tmp_dens in
    let f1 = if n == 0 then count_fix fx_empty_clause f else f in
    let f2 = if n == 1 && not f.satisfied then count_fix fx_clause_has_one_lit f1 else f1 in
    let added = n == 1 && not f.satisfied || ltb 1 n && not f.satisfied in
    record {
      fixed = added || f.satisfied;
      add_it = if f.satisfied then false else added;
      lits = f.tmp_dens;
      ld_dots = reset_all f.tmp_dens f.ld_dots;
      ld_fixes = f2.ld_fixes;
    }

unfoldable pub fix_lits : List ℤ → NidBits → (ℕ → ℕ) → Fixed
unfolding fix_loop finish_fix
fix_lits lits dots fixes =
    finish_fix (
      fix_loop lits (record { ld_dots = dots; ld_fixes = fixes; tmp_dens = []; satisfied = false }))
