-- ===== src/Common/Int.antt =====
-- Signed integers over the native numbers, and `int64_t` by two's complement.
use Prim.Native.Nat.{ℕ, zero, suc, ◌-◌, ◌%◌, ◌^◌, ◌<◌}
use mathlib.Core.Path.{◌≡◌, ap}
use mathlib.Core.Bool.{Bool, true, false}
use native.Mathlib.Omega.{arith}
use libtriton_jit.Common.Bools.{ltb, ◌==◌, if◌then◌else◌}

-- `negsuc n` is -(n + 1).
pub data ℤ : Type 0 where
  pos : ℕ → ℤ
  negsuc : ℕ → ℤ

-- -n
abbrev pub neg_ℕ : ℕ → ℤ
neg_ℕ zero = pos 0
neg_ℕ (suc n) = negsuc n

abbrev pub eq_ℤ : ℤ → ℤ → Bool
eq_ℤ (pos a) (pos b) = a == b
eq_ℤ (negsuc a) (negsuc b) = a == b
eq_ℤ _ _ = false

-- The bit pattern of a value, and the value of a bit pattern.
abbrev pub to_u64 : ℤ → ℕ
to_u64 (pos n) = n % 2 ^ 64
to_u64 (negsuc n) = 2 ^ 64 - 1 - n % 2 ^ 64

abbrev pub of_u64 : ℕ → ℤ
of_u64 w = if ltb w (2 ^ 63) then pos w else negsuc (2 ^ 64 - 1 - w)

-- The result of an operation on `int64_t`, wrapped to 64 bits.
abbrev pub wrap64 : ℤ → ℤ
wrap64 z = of_u64 (to_u64 z)

-- What an `int64_t` can hold.
abbrev pub InI64 : ℤ → Type 0
InI64 (pos n) = n < 2 ^ 63
InI64 (negsuc n) = n < 2 ^ 63

pub wrap64-InI64 : (z : ℤ) → InI64 z → wrap64 z ≡ z
wrap64-InI64 (pos n) h = ground arith
wrap64-InI64 (negsuc n) h = ground arith

pub wrap64-neg_ℕ : (k : ℕ) → k < 2 ^ 63 → wrap64 (neg_ℕ k) ≡ neg_ℕ k
wrap64-neg_ℕ zero h = ground arith
wrap64-neg_ℕ (suc k) h = wrap64-InI64 (negsuc k) (omega arith)

pub eq_ℤ→eq : (a b : ℤ) → eq_ℤ a b ≡ true → a ≡ b
eq_ℤ→eq (pos a) (pos b) h = ap pos (ground arith)
eq_ℤ→eq (negsuc a) (negsuc b) h = ap negsuc (ground arith)
eq_ℤ→eq (pos a) (negsuc b) h = cc
eq_ℤ→eq (negsuc a) (pos b) h = cc
