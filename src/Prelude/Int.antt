-- ===== src/Prelude/Int.antt =====
-- Signed integers over the native numbers: exit codes and timestamps.
use clash_verge_buty.Prelude.Tests.{Eq, nat_eq_iff, ◌==◌, eq_nat}
use Prim.Native.Nat.{ℕ}
use mathlib.Core.Path.{◌≡◌}
use mathlib.Core.Logic.{◌↔◌}
use mathlib.Core.Bool.{Bool, true, false}
use native.Mathlib.Omega.{arith}

-- `negsuc n` is -(n + 1).
pub data ℤ : Type 0 where
  pos : ℕ → ℤ
  negsuc : ℕ → ℤ

abbrev pub int_eq : ℤ → ℤ → Bool
int_eq (pos a) (pos b) = a == b
int_eq (negsuc a) (negsuc b) = a == b
int_eq (pos a) (negsuc b) = false
int_eq (negsuc a) (pos b) = false

pub int_eq_iff : (a b : ℤ) → (int_eq a b ≡ true) ↔ (a ≡ b)
int_eq_iff (pos a) (pos b) = ground (arith, nat_eq_iff a b)
int_eq_iff (negsuc a) (negsuc b) = ground (arith, nat_eq_iff a b)
int_eq_iff (pos a) (negsuc b) = ground arith
int_eq_iff (negsuc a) (pos b) = ground arith

instance abbrev pub eq_int : Eq ℤ
eq_int = record { eqb = int_eq; eqb_iff = int_eq_iff }
