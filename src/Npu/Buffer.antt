-- ===== src/Npu/Buffer.antt =====
-- `NpuArgBuffer` of include/triton_jit/backends/npu_arg_buffer.h: the block of memory that holds all
-- arguments of an NPU kernel. What a pointer leads to is a function of the address and the number of
-- bytes. Alignments are powers of two, so `& ~(alignment - 1)` rounds down to a multiple.
pub mod Packed
pub mod Spare
use libtriton_jit.Common.{
  ℕ, zero, suc, ◌+◌, ◌-◌, ◌*◌, ◌/◌, ◌%◌, List, [], ◌∷◌, ◌++◌, Bytes, length, replicate, ltb, Option,
  none, some, if◌then◌else◌,
}
use libtriton_jit.Launch.Buffer.{Datum, resize, memcpy_at, little_endian}
use libtriton_jit.Npu.Types.{NpuArgType, get_size, get_align}

pub record NpuArgBuffer : Type 0 where
  pub buffer : Bytes
  pub cursor : ℕ

abbrev pub system_args_size : ℕ
system_args_size = 24

-- The constructor.
unfoldable pub npu_arg_buffer : ℕ → NpuArgBuffer
npu_arg_buffer estimated_user_args = record {
  buffer = replicate (system_args_size + estimated_user_args + 16) 0;
  cursor = system_args_size;
}

unfoldable pub set_system_args : ℕ → ℕ → ℕ → NpuArgBuffer → NpuArgBuffer
set_system_args ffts sync_lock workspace b = record b {
  buffer =
      memcpy_at 16 (little_endian 8 workspace)
        (memcpy_at 8 (little_endian 8 sync_lock) (memcpy_at 0 (little_endian 8 ffts) b.buffer));
}

unfoldable pub align_to : ℕ → ℕ → ℕ
align_to pos alignment = (pos + alignment - 1) / alignment * alignment

unfoldable pub ensure_capacity : ℕ → Bytes → Bytes
ensure_capacity required buffer =
    if ltb (length buffer) required then resize (required + 32) buffer else buffer

unfoldable pub push_arg : Datum → NpuArgBuffer → NpuArgBuffer
unfolding align_to ensure_capacity
push_arg value b =
    let at = align_to b.cursor value.align in
    let size = length value.bytes in
    record {
      buffer = memcpy_at at value.bytes (ensure_capacity (at + size) b.buffer);
      cursor = at + size;
    }

module _ (memory : ℕ → ℕ → Bytes) where
  -- The object of the type's C++ counterpart that a pointer leads to.
  unfoldable pub read_arg : ℕ → NpuArgType → Datum
  unfolding get_size get_align
  read_arg address type = record { align = get_align type; bytes = memory address (get_size type) }

  unfoldable pub push_arg_by_type : Option ℕ → NpuArgType → NpuArgBuffer → NpuArgBuffer
  push_arg_by_type none type b = b
  push_arg_by_type (some address) type b = push_arg (read_arg address type) b

  -- `args` has at least as many elements as `layout`.
  unfoldable pub push_args_from_layout :
      List (Option ℕ) → List NpuArgType → NpuArgBuffer → NpuArgBuffer
  push_args_from_layout (arg ∷ args) (type ∷ layout) b =
      push_args_from_layout args layout (push_arg_by_type arg type b)
  push_args_from_layout _ _ b = b

-- An `int32_t` as its bit pattern.
abbrev pub grid_datum : ℕ → Datum
grid_datum g = record { align = 4; bytes = little_endian 4 g }

unfoldable pub set_grid : ℕ → ℕ → ℕ → NpuArgBuffer → NpuArgBuffer
unfolding align_to ensure_capacity
set_grid gx gy gz b =
    let at = align_to b.cursor 4 in
    let grown = ensure_capacity (at + 12) b.buffer in
    record {
      buffer =
          memcpy_at (at + 4 + 4) (little_endian 4 gz)
            (memcpy_at (at + 4) (little_endian 4 gy) (memcpy_at at (little_endian 4 gx) grown));
      cursor = at + 4 + 4 + 4;
    }
