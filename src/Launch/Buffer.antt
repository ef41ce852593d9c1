-- ===== src/Launch/Buffer.antt =====
-- `get_next_multiple_of` and `ParameterBuffer`. A value is pushed as its alignment and its bytes
-- in memory. Sizes and offsets are `size_t`; they would wrap only past 2 ^ 64 bytes, more than
-- memory holds. A pointer that `get_ptrs` returns is its offset from the start of the buffer.
pub mod Slots
use libtriton_jit.Common.{
  ℕ, zero, suc, ◌+◌, ◌-◌, ◌*◌, ◌/◌, ◌%◌, List, [], ◌∷◌, ◌++◌, Bytes, length, take, drop, replicate,
}

unfoldable pub get_next_multiple_of : ℕ → ℕ → ℕ
get_next_multiple_of pos step = (pos + step - 1) / step * step

-- A trivially copyable value: `alignof` and the bytes that `memcpy` copies.
pub record Datum : Type 0 where
  pub align : ℕ
  pub bytes : Bytes

pub record ParameterBuffer : Type 0 where
  pub buff : Bytes
  pub cursor : ℕ
  pub offsets : List ℕ

unfoldable pub empty : ParameterBuffer
empty = record { buff = []; cursor = 0; offsets = [] }

-- `resize`: cut, or filled up with zero bytes.
unfoldable pub resize : ℕ → Bytes → Bytes
resize n bytes = take n bytes ++ replicate (n - length bytes) 0

-- `memcpy(data + offset, ...)`
unfoldable pub memcpy_at : ℕ → Bytes → Bytes → Bytes
memcpy_at offset bytes buff = take offset buff ++ (bytes ++ drop (offset + length bytes) buff)

unfoldable pub push_arg : Datum → ParameterBuffer → ParameterBuffer
push_arg v b =
    let offset = get_next_multiple_of b.cursor v.align in
    let size = length v.bytes in
    record {
      buff = memcpy_at offset v.bytes (resize (offset + size) b.buff);
      cursor = offset + size;
      offsets = b.offsets ++ offset ∷ [];
    }

unfoldable pub get_ptrs : ParameterBuffer → List ℕ
get_ptrs b = b.offsets

unfoldable pub size : ParameterBuffer → ℕ
size b = length b.offsets

-- The `n` bytes at an offset, as the launch reads them through a pointer.
unfoldable pub slice : ℕ → ℕ → Bytes → Bytes
slice offset n buff = take n (drop offset buff)

unfoldable pub push_all : List Datum → ParameterBuffer → ParameterBuffer
push_all [] b = b
push_all (v ∷ vs) b = push_all vs (push_arg v b)

-- The bytes of an unsigned value in memory, the lowest first.
unfoldable pub little_endian : ℕ → ℕ → Bytes
little_endian zero value = []
little_endian (suc n) value = value % 256 ∷ little_endian n (value / 256)
