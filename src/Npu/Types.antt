-- ===== src/Npu/Types.antt =====
-- include/triton_jit/backends/npu_types.h. An `NpuArgInfo` is its one field.
use libtriton_jit.Common.{ℕ, Bool, List, Bytes, Option}

pub data NpuArgType : Type 0 where
  pointer i32 i64 f32 f64 : NpuArgType

unfoldable pub get_size : NpuArgType → ℕ
get_size pointer = 8
get_size i32 = 4
get_size i64 = 8
get_size f32 = 4
get_size f64 = 8

unfoldable pub get_align : NpuArgType → ℕ
get_align pointer = 8
get_align i32 = 4
get_align i64 = 8
get_align f32 = 4
get_align f64 = 8

-- `enable_auto_blockify` is `none` where old metadata does not say.
pub record NpuKernelMetadata : Type 0 where
  pub shared : ℕ
  pub mix_mode : Bytes
  pub arg_layout : List NpuArgType
  pub workspace_size : ℕ
  pub enable_auto_blockify : Option Bool
