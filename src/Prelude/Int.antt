-- ===== src/Prelude/Int.antt =====
-- Signed integers, for the values that a client sends unchecked.
use Prim.Native.Nat.{ℕ}
use mathlib.Core.Path.{◌≡◌}
use mathlib.Core.Bool.{Bool, true, false}
use native.Mathlib.Omega.{arith}
use telebook_server.Prelude.Tests.{eqb}

-- `negsuc n` is -(n + 1).
pub data ℤ : Type 0 where
  pos : ℕ → ℤ
  negsuc : ℕ → ℤ

-- Equality with a number that is not negative.
abbrev pub eq_pos : ℤ → ℕ → Bool
eq_pos (pos a) b = eqb a b
eq_pos (negsuc a) b = false

pub eq_pos→eq : (a : ℤ) (b : ℕ) → eq_pos a b ≡ true → a ≡ pos b
eq_pos→eq (pos a) b h = ground arith
eq_pos→eq (negsuc a) b h = ground arith

pub eq_pos_refl : (b : ℕ) → eq_pos (pos b) b ≡ true
eq_pos_refl b = ground arith

-- Equality of two integers.
abbrev pub eqz : ℤ → ℤ → Bool
eqz (pos a) (pos b) = eqb a b
eqz (negsuc a) (negsuc b) = eqb a b
eqz _ _ = false

abbrev pub is_negative : ℤ → Bool
is_negative (pos a) = false
is_negative (negsuc a) = true
