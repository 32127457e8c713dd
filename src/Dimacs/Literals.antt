-- ===== src/Dimacs/Literals.antt =====
-- Literals are nonzero numbers, the opposite of one its negation: class `nid_bits` of `dimacs.h`.
use messaging_cells.Common.{
  put_at, ℕ, zero, suc, ◌+◌, ◌-◌, ◌≡◌, refl, ◌==◌, ==_self, Bool, true, false, not, ◌||◌,
  if◌then◌else◌, List, [], ◌∷◌, arith,
}

pub data ℤ : Type 0 where
  pos : ℕ → ℤ
  negsuc : ℕ → ℤ

unfoldable pub negate : ℤ → ℤ
negate (pos zero) = pos zero
negate (pos (suc n)) = negsuc n
negate (negsuc n) = pos (suc n)

unfoldable pub eq_lit : ℤ → ℤ → Bool
eq_lit (pos a) (pos b) = a == b
eq_lit (negsuc a) (negsuc b) = a == b
eq_lit (pos a) (negsuc b) = false
eq_lit (negsuc a) (pos b) = false

-- The rows of bits, `nb_pos` and `nb_neg`, of `ld_decl_vars + 1` bits each, are functions: the loader
-- has refused literals beyond them.
pub record NidBits : Type 0 where
  pub nb_set_count : ℕ
  pub nb_pos : ℕ → Bool
  pub nb_neg : ℕ → Bool

unfoldable pub is_true : ℤ → NidBits → Bool
is_true (pos zero) d = d.nb_neg 0
is_true (pos (suc n)) d = d.nb_pos (suc n)
is_true (negsuc n) d = d.nb_neg (suc n)

-- The bit of `nid` becomes `b`.
unfoldable pub put_nid : ℤ → Bool → NidBits → NidBits
put_nid (pos zero) b d = record d { nb_neg = put_at 0 b d.nb_neg }
put_nid (pos (suc n)) b d = record d { nb_pos = put_at (suc n) b d.nb_pos }
put_nid (negsuc n) b d = record d { nb_neg = put_at (suc n) b d.nb_neg }

unfoldable pub set : ℤ → NidBits → NidBits
unfolding put_nid
set nid d = record (put_nid nid true d) { nb_set_count = d.nb_set_count + 1 }

-- The count is that of bits that are set: it is not 0 here.
unfoldable pub reset : ℤ → NidBits → NidBits
unfolding put_nid
reset nid d = record (put_nid nid false d) { nb_set_count = d.nb_set_count - 1 }

unfoldable pub any_true : ℤ → NidBits → Bool
unfolding is_true negate
any_true nid d = is_true nid d || is_true (negate nid) d

pub is_true-set :
    (n m : ℤ) (d : NidBits) → is_true m (set n d) ≡ (if eq_lit n m then true else is_true m d)
unfolding is_true set eq_lit put_nid
is_true-set (pos zero) (pos zero) d = refl
is_true-set (pos zero) (pos (suc b)) d = ground arith
is_true-set (pos zero) (negsuc b) d = ground arith
is_true-set (pos (suc a)) (pos zero) d = ground arith
is_true-set (pos (suc a)) (pos (suc b)) d = ground arith
is_true-set (pos (suc a)) (negsuc b) d = ground arith
is_true-set (negsuc a) (pos zero) d = ground arith
is_true-set (negsuc a) (pos (suc b)) d = ground arith
is_true-set (negsuc a) (negsuc b) d = ground arith

pub is_true-reset :
    (n m : ℤ) (d : NidBits) → is_true m (reset n d) ≡ (if eq_lit n m then false else is_true m d)
unfolding is_true reset eq_lit put_nid
is_true-reset (pos zero) (pos zero) d = refl
is_true-reset (pos zero) (pos (suc b)) d = ground arith
is_true-reset (pos zero) (negsuc b) d = ground arith
is_true-reset (pos (suc a)) (pos zero) d = ground arith
is_true-reset (pos (suc a)) (pos (suc b)) d = ground arith
is_true-reset (pos (suc a)) (negsuc b) d = ground arith
is_true-reset (negsuc a) (pos zero) d = ground arith
is_true-reset (negsuc a) (pos (suc b)) d = ground arith
is_true-reset (negsuc a) (negsuc b) d = ground arith

pub eq_lit-eq : (n m : ℤ) → eq_lit n m ≡ true → n ≡ m
unfolding eq_lit
eq_lit-eq (pos a) (pos b) h = ground arith
eq_lit-eq (pos a) (negsuc b) h = cc
eq_lit-eq (negsuc a) (pos b) h = cc
eq_lit-eq (negsuc a) (negsuc b) h = ground arith

pub eq_lit_self : (n : ℤ) → eq_lit n n ≡ true
unfolding eq_lit
eq_lit_self (pos a) = ==_self a
eq_lit_self (negsuc a) = ==_self a

-- The value of a literal where `v` gives the values of the variables.
unfoldable pub holds : (ℕ → Bool) → ℤ → Bool
holds v (pos n) = v n
holds v (negsuc n) = not (v (suc n))

-- Not the number 0, which ends a clause.
unfoldable pub IsLit : ℤ → Type 0
IsLit (pos zero) = ⊥
IsLit (pos (suc n)) = Unit
IsLit (negsuc n) = Unit

pub holds-negate : (v : ℕ → Bool) (n : ℤ) → IsLit n → holds v (negate n) ≡ not (holds v n)
unfolding holds negate IsLit
holds-negate v (pos zero) l = absurd l
holds-negate v (pos (suc n)) l = refl
holds-negate v (negsuc n) l = ground arith

unfoldable pub any : (ℕ → Bool) → List ℤ → Bool
any v [] = false
any v (l ∷ ls) = holds v l || any v ls
