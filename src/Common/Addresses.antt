-- ===== src/Common/Addresses.antt =====
-- Lists of addresses without repetition.
use Prim.Native.Nat.{ℕ}
use mathlib.Core.Path.{sym}
use mathlib.Core.Logic.{◌≢◌}
use mathlib.Core.List.{List, [], ◌∷◌, ◌++◌}
use messaging_cells.Common.Lists.{All, All-append, All-append_left, All-append_right}

abbrev pub NotIn : ℕ → List ℕ → Type 0
NotIn a xs = All (λ x. a ≢ x) xs

abbrev pub Distinct : List ℕ → Type 0
Distinct [] = Unit
Distinct (x ∷ xs) = NotIn x xs × Distinct xs

-- No element of the first list is in the second.
abbrev pub Apart : List ℕ → List ℕ → Type 0
Apart xs ys = All (λ x. NotIn x ys) xs

pub NotIn-append : (a : ℕ) (xs ys : List ℕ) → NotIn a xs → NotIn a ys → NotIn a (xs ++ ys)
NotIn-append a xs ys = All-append (λ x. a ≢ x) xs ys

pub NotIn-append_left : (a : ℕ) (xs ys : List ℕ) → NotIn a (xs ++ ys) → NotIn a xs
NotIn-append_left a xs ys = All-append_left (λ x. a ≢ x) xs ys

pub NotIn-append_right : (a : ℕ) (xs ys : List ℕ) → NotIn a (xs ++ ys) → NotIn a ys
NotIn-append_right a xs ys = All-append_right (λ x. a ≢ x) xs ys

Apart-cons_right :
    (xs : List ℕ) (y : ℕ) (ys : List ℕ) → Apart xs (y ∷ ys) → NotIn y xs × Apart xs ys
Apart-cons_right [] y ys h = (tt, tt)
Apart-cons_right (x ∷ xs) y ys h =
    let r = Apart-cons_right xs y ys h.1 in ((λ e. h.0.0 (sym e), r.0), (h.0.1, r.1))

Apart-nil_right : (xs : List ℕ) → Apart xs []
Apart-nil_right [] = tt
Apart-nil_right (x ∷ xs) = (tt, Apart-nil_right xs)

pub Apart-tail : (xs : List ℕ) (y : ℕ) (ys : List ℕ) → Apart xs (y ∷ ys) → Apart xs ys
Apart-tail xs y ys h = (Apart-cons_right xs y ys h).1

pub Apart-symm : (xs ys : List ℕ) → Apart xs ys → Apart ys xs
Apart-symm xs [] h = tt
Apart-symm xs (y ∷ ys) h = let r = Apart-cons_right xs y ys h in (r.0, Apart-symm xs ys r.1)

pub Distinct-append :
    (xs ys : List ℕ) → Distinct xs → Distinct ys → Apart xs ys → Distinct (xs ++ ys)
Distinct-append [] ys dx dy h = dy
Distinct-append (x ∷ xs) ys dx dy h =
    (NotIn-append x xs ys dx.0 h.0, Distinct-append xs ys dx.1 dy h.1)

pub Distinct-parts :
    (xs ys : List ℕ) → Distinct (xs ++ ys) → Distinct xs × Distinct ys × Apart xs ys
Distinct-parts [] ys h = (tt, h, tt)
Distinct-parts (x ∷ xs) ys h =
    let r = Distinct-parts xs ys h.1 in
    ((NotIn-append_left x xs ys h.0, r.0), r.1, (NotIn-append_right x xs ys h.0, r.2))

-- The two halves of a list change places.
pub Distinct-swap : (xs ys : List ℕ) → Distinct (xs ++ ys) → Distinct (ys ++ xs)
Distinct-swap xs ys h =
    let r = Distinct-parts xs ys h in Distinct-append ys xs r.1 r.0 (Apart-symm xs ys r.2)
