-- ===== src/Common/Tests.antt =====
-- Boolean tests on the native numbers, the conditional, and case splits that keep their equation.
use Prim.Native.Nat.{ℕ, compare, Ordering}
use mathlib.Core.Path.{◌≡◌, refl, ap, subst}
use mathlib.Core.Logic.{◌≢◌, ◌↔◌, ◌⊎◌, inl, inr}
use mathlib.Core.Bool.{Bool, true, false}
use mathlib.Core.Option.{Option, none, some}
use native.Mathlib.Omega.{arith}

abbrev pub ltb : ℕ → ℕ → Bool
ltb a b = elim (compare a b) [ Ordering.lt ↦ true | _ ↦ false ]

abbrev pub leb : ℕ → ℕ → Bool
leb a b = elim (compare a b) [ Ordering.gt ↦ false | _ ↦ true ]

infix 50 ◌==◌
abbrev pub ◌==◌ : ℕ → ℕ → Bool
a == b = elim (compare a b) [ Ordering.eq ↦ true | _ ↦ false ]

infix 1 if◌then◌else◌
abbrev pub if◌then◌else◌ {ℓ} : {A : Type ℓ} → Bool → A → A → A
if true then x else y = x
if false then x else y = y

-- An equation of a branch, from one of the whole test.
pub if_true {ℓ} :
    {A : Type ℓ} {b : Bool} (x y : A) {z : A} → b ≡ true → (if b then x else y) ≡ z → x ≡ z
if_true x y {z} e h = subst (λ c. (if c then x else y) ≡ z) e h

pub if_false {ℓ} :
    {A : Type ℓ} {b : Bool} (x y : A) {z : A} → b ≡ false → (if b then x else y) ≡ z → y ≡ z
if_false x y {z} e h = subst (λ c. (if c then x else y) ≡ z) e h

pub ==_iff : (a b : ℕ) → ((a == b) ≡ true) ↔ (a ≡ b)
==_iff a b = ground arith

pub ==_self : (a : ℕ) → (a == a) ≡ true
==_self a = ground arith

pub ==_ne : {a b : ℕ} → a ≢ b → (a == b) ≡ false
==_ne h = ground arith

pub Bool-cases : (b : Bool) → (b ≡ true) ⊎ (b ≡ false)
Bool-cases true = inl refl
Bool-cases false = inr refl

pub Option-cases {ℓ} : {A : Type ℓ} (o : Option A) → (o ≡ none) ⊎ ((a : A) × (o ≡ some a))
Option-cases none = inl refl
Option-cases (some a) = inr (a, refl)

pub eq-or-ne : (a b : ℕ) → (a ≡ b) ⊎ (a ≢ b)
eq-or-ne a b = elim (Bool-cases (a == b)) [
  | inl e ↦ inl ((==_iff a b).0 e)
  | inr e ↦ inr (ground arith)
]

-- An array of an array, written at one place.
abbrev pub put {ℓ} : {A : Type ℓ} → ℕ → ℕ → A → (ℕ → ℕ → A) → ℕ → ℕ → A
put i j v f a b = if a == i then (if b == j then v else f a b) else f a b

abbrev pub put_at {ℓ} : {A : Type ℓ} → ℕ → A → (ℕ → A) → ℕ → A
put_at i v f a = if a == i then v else f a

pub if_so {ℓ} : {A : Type ℓ} {b : Bool} (x y : A) → b ≡ true → (if b then x else y) ≡ x
if_so x y e = ap (λ c. if c then x else y) e

pub if_not {ℓ} : {A : Type ℓ} {b : Bool} (x y : A) → b ≡ false → (if b then x else y) ≡ y
if_not x y e = ap (λ c. if c then x else y) e

pub put_at_self {ℓ} : {A : Type ℓ} (i : ℕ) (v : A) (f : ℕ → A) → put_at i v f i ≡ v
put_at_self i v f = ap (λ b. if b then v else f i) (==_self i)

pub put_at-ne {ℓ} : {A : Type ℓ} (i w : ℕ) (v : A) (f : ℕ → A) → w ≢ i → put_at i v f w ≡ f w
put_at-ne i w v f h = if_not v (f w) (==_ne h)
