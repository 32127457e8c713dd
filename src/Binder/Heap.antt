-- ===== src/Binder/Heap.antt =====
-- The two fields of every `binder`, by address, and the writes to them. All addresses are those of
-- one workeru, where `mck_as_loc_pt` gives the address that it is given.
use messaging_cells.Common.{ℕ, ◌≡◌, ◌≢◌, refl, ◌==◌, if◌then◌else◌, arith}

pub record Heap : Type 0 where
  pub bn_left : ℕ → ℕ
  pub bn_right : ℕ → ℕ

unfoldable pub set_left : ℕ → ℕ → Heap → Heap
set_left p q h = record h { bn_left = λ a. if a == p then q else h.bn_left a }

unfoldable pub set_right : ℕ → ℕ → Heap → Heap
set_right p q h = record h { bn_right = λ a. if a == p then q else h.bn_right a }

module _ (p q : ℕ) (h : Heap) where
  pub left-set_left_self : (set_left p q h).bn_left p ≡ q
  unfolding set_left
  left-set_left_self = ground arith

  pub left-set_left_ne : (a : ℕ) → a ≢ p → (set_left p q h).bn_left a ≡ h.bn_left a
  unfolding set_left
  left-set_left_ne a ne = ground arith

  pub right-set_left : (a : ℕ) → (set_left p q h).bn_right a ≡ h.bn_right a
  unfolding set_left
  right-set_left a = refl

  pub right-set_right_self : (set_right p q h).bn_right p ≡ q
  unfolding set_right
  right-set_right_self = ground arith

  pub right-set_right_ne : (a : ℕ) → a ≢ p → (set_right p q h).bn_right a ≡ h.bn_right a
  unfolding set_right
  right-set_right_ne a ne = ground arith

  pub left-set_right : (a : ℕ) → (set_right p q h).bn_left a ≡ h.bn_left a
  unfolding set_right
  left-set_right a = refl
