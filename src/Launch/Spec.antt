-- ===== src/Launch/Spec.antt =====
-- Specialisation hints, type names and the joined signature: include/triton_jit/jit_utils.h.
-- The `BACKEND_…` macro is an argument. A floating-point number is its bit pattern.
use libtriton_jit.Common.{
  ℕ, suc, ◌-◌, ◌%◌, ◌^◌, Bool, true, false, List, [], ◌∷◌, ◌++◌, Bytes, codes, leb, ltb, ◌==◌,
  if◌then◌else◌,
}
use libtriton_jit.Common.Int.{ℤ, pos, negsuc}
use libtriton_jit.Launch.Buffer.{Datum, little_endian}

pub data Backend : Type 0 where
  cuda ix npu musa maca mlu gcu hcu : Backend

abbrev pub is_npu : Backend → Bool
is_npu npu = true
is_npu _ = false

abbrev pub is_hcu : Backend → Bool
is_hcu hcu = true
is_hcu _ = false

abbrev pub is_gcu : Backend → Bool
is_gcu gcu = true
is_gcu _ = false

-- A value of one of the C++ types that `triton_type` knows as a number.
pub data Number : Type 0 where
  boolean : Bool → Number
  int32 int64 : ℤ → Number
  uint32 uint64 : ℕ → Number
  float double : ℕ → Number

abbrev pub is_integral : Number → Bool
is_integral (float bits) = false
is_integral (double bits) = false
is_integral _ = true

-- `triton_type<T>::name`
unfoldable pub triton_type : Number → Bytes
triton_type (boolean v) = codes "i1"
triton_type (int32 v) = codes "i32"
triton_type (uint32 v) = codes "u32"
triton_type (int64 v) = codes "i64"
triton_type (uint64 v) = codes "u64"
triton_type (float bits) = codes "fp32"
triton_type (double bits) = codes "fp64"

-- The value of an integral number; a `bool` counts as 0 or 1.
abbrev pub value_of : Number → ℤ
value_of (boolean true) = pos 1
value_of (boolean false) = pos 0
value_of (int32 v) = v
value_of (uint32 v) = pos v
value_of (int64 v) = v
value_of (uint64 v) = pos v
value_of (float bits) = pos bits
value_of (double bits) = pos bits

-- `v % 16 == 0` and `v == 1`
abbrev pub divisible_by_16 : ℤ → Bool
divisible_by_16 (pos n) = n % 16 == 0
divisible_by_16 (negsuc n) = suc n % 16 == 0

abbrev pub equals_1 : ℤ → Bool
equals_1 (pos n) = n == 1
equals_1 (negsuc n) = false

unfoldable pub spec : ℤ → Bytes
spec v = if divisible_by_16 v then codes ":16" else if equals_1 v then codes ":1" else []

unfoldable pub ptr_spec : ℕ → Bytes
ptr_spec v = if v % 16 == 0 then codes ":16" else []

abbrev pub pointer_range32_max : ℕ
pointer_range32_max = 2147483647

unfoldable pub ptr_range_spec : Backend → ℕ → Bytes
ptr_range_spec hcu extent_bytes =
    if leb extent_bytes pointer_range32_max then codes ":range32" else []
ptr_range_spec _ extent_bytes = []

-- INT32_MIN <= v && v <= INT32_MAX
abbrev pub fits_i32 : ℤ → Bool
fits_i32 (pos n) = ltb n (2 ^ 31)
fits_i32 (negsuc n) = ltb n (2 ^ 31)

unfoldable pub narrow_type_name : Number → Bytes
unfolding triton_type
narrow_type_name (int32 v) = if fits_i32 v then codes "i32" else codes "i64"
narrow_type_name (int64 v) = if fits_i32 v then codes "i32" else codes "i64"
narrow_type_name v = triton_type v

-- Two's complement on `w` bytes.
abbrev pub pattern_of : ℕ → ℤ → ℕ
pattern_of w (pos n) = n % 256 ^ w
pattern_of w (negsuc n) = 256 ^ w - 1 - n % 256 ^ w

-- The object that `push_arg` copies.
unfoldable pub datum_of : Number → Datum
datum_of (boolean true) = record { align = 1; bytes = 1 ∷ [] }
datum_of (boolean false) = record { align = 1; bytes = 0 ∷ [] }
datum_of (int32 v) = record { align = 4; bytes = little_endian 4 (pattern_of 4 v) }
datum_of (uint32 v) = record { align = 4; bytes = little_endian 4 v }
datum_of (int64 v) = record { align = 8; bytes = little_endian 8 (pattern_of 8 v) }
datum_of (uint64 v) = record { align = 8; bytes = little_endian 8 v }
datum_of (float bits) = record { align = 4; bytes = little_endian 4 bits }
datum_of (double bits) = record { align = 8; bytes = little_endian 8 bits }

-- `void*` and `uintptr_t`
unfoldable pub pointer_datum : ℕ → Datum
pointer_datum p = record { align = 8; bytes = little_endian 8 p }

-- The loop of `join_sig` behind the first token.
unfoldable pub join_rest : List Bytes → Bytes
join_rest [] = []
join_rest (token ∷ tokens) = b',' ∷ (token ++ join_rest tokens)

unfoldable pub join_sig : List Bytes → Bytes
unfolding join_rest
join_sig [] = []
join_sig (token ∷ tokens) = token ++ join_rest tokens
