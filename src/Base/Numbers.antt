-- ===== src/Base/Numbers.antt =====
-- Boolean tests on natural numbers, and the signed numbers with their order.
use Prim.Native.Nat.{ℕ, ◌≤◌, ◌<◌, compare, Ordering}
use mathlib.Core.Path.{◌≡◌}
use mathlib.Core.Bool.{Bool, true, false}
use native.Mathlib.Omega.{arith}

abbrev pub ltb : ℕ → ℕ → Bool
ltb a b = elim (compare a b) [ Ordering.lt ↦ true | _ ↦ false ]

abbrev pub leb : ℕ → ℕ → Bool
leb a b = elim (compare a b) [ Ordering.gt ↦ false | _ ↦ true ]

pub ltb→lt : (a b : ℕ) → ltb a b ≡ true → a < b
ltb→lt a b h = ground arith

pub leb→le : (a b : ℕ) → leb a b ≡ true → a ≤ b
leb→le a b h = ground arith

-- `negsuc n` is -(n + 1).
pub data ℤ : Type 0 where
  pos : ℕ → ℤ
  negsuc : ℕ → ℤ

-- a < b
abbrev pub ltb_ℤ : ℤ → ℤ → Bool
ltb_ℤ (pos a) (pos b) = ltb a b
ltb_ℤ (pos a) (negsuc b) = false
ltb_ℤ (negsuc a) (pos b) = true
ltb_ℤ (negsuc a) (negsuc b) = ltb b a

pub ltb_ℤ_irrefl : (a : ℤ) → ltb_ℤ a a ≡ false
ltb_ℤ_irrefl (pos a) = ground arith
ltb_ℤ_irrefl (negsuc a) = ground arith

-- If c is not below b and b is not below a, then c is not below a.
pub ltb_ℤ_trans : (a b c : ℤ) → ltb_ℤ b a ≡ false → ltb_ℤ c b ≡ false → ltb_ℤ c a ≡ false
ltb_ℤ_trans (pos a) (pos b) (pos c) p q = ground arith
ltb_ℤ_trans (pos a) (pos b) (negsuc c) p q = ground arith
ltb_ℤ_trans (pos a) (negsuc b) c p q = ground arith
ltb_ℤ_trans (negsuc a) (pos b) (pos c) p q = ground arith
ltb_ℤ_trans (negsuc a) (pos b) (negsuc c) p q = ground arith
ltb_ℤ_trans (negsuc a) (negsuc b) (pos c) p q = ground arith
ltb_ℤ_trans (negsuc a) (negsuc b) (negsuc c) p q = ground arith

pub ltb_ℤ_asym : (a b : ℤ) → ltb_ℤ a b ≡ true → ltb_ℤ b a ≡ false
ltb_ℤ_asym (pos a) (pos b) p = ground arith
ltb_ℤ_asym (pos a) (negsuc b) p = ground arith
ltb_ℤ_asym (negsuc a) (pos b) p = ground arith
ltb_ℤ_asym (negsuc a) (negsuc b) p = ground arith
