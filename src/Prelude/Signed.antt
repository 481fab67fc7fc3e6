-- ===== src/Prelude/Signed.antt =====
-- The signed integers over the native numbers, as keys of maps; the range of `long long` is not
-- checked, since the program only counts up from 0 and uses -1.
use Prim.Native.Nat.{ℕ}
use mathlib.Core.Path.{◌≡◌}
use mathlib.Core.Logic.{◌↔◌}
use mathlib.Core.Bool.{Bool, true, false}
use native.Mathlib.Omega.{arith}
use yonderboy.Prelude.Tests.{ltb, ◌==◌}
use yonderboy.Prelude.Keys.{Key}

-- `negsuc n` is -1 - n.
pub data ℤ : Type 0 where
  pos negsuc : ℕ → ℤ

unfoldable pub int_eq : ℤ → ℤ → Bool
int_eq (pos m) (pos n) = m == n
int_eq (negsuc m) (negsuc n) = m == n
int_eq _ _ = false

unfoldable pub int_less : ℤ → ℤ → Bool
int_less (pos m) (pos n) = ltb m n
int_less (negsuc m) (negsuc n) = ltb n m
int_less (negsuc m) (pos n) = true
int_less (pos m) (negsuc n) = false

pub int_eq_iff : (a b : ℤ) → (int_eq a b ≡ true) ↔ (a ≡ b)
unfolding int_eq
int_eq_iff (pos m) (pos n) = ground arith
int_eq_iff (negsuc m) (negsuc n) = ground arith
int_eq_iff (pos m) (negsuc n) = ground arith
int_eq_iff (negsuc m) (pos n) = ground arith

pub int_less_asym : (a b : ℤ) → int_less a b ≡ true → int_less b a ≡ false
unfolding int_less
int_less_asym (pos m) (pos n) h = ground arith
int_less_asym (negsuc m) (negsuc n) h = ground arith
int_less_asym (pos m) (negsuc n) h = ground arith
int_less_asym (negsuc m) (pos n) h = ground arith

instance abbrev pub int_key : Key ℤ
int_key = record { beq = int_eq; less = int_less; beq_iff = int_eq_iff; less_asym = int_less_asym }
