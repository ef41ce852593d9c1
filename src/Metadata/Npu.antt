-- ===== src/Metadata/Npu.antt =====
-- `load_npu_metadata` of src/kernel_metadata.cpp.
use libtriton_jit.Common.{
  ◌&&◌, ◌||◌, List, [], ◌∷◌, ◌++◌, Bytes, codes, text_eq, Option, none, some, if◌then◌else◌,
}
use libtriton_jit.Metadata.{JsonLibrary, document}
use libtriton_jit.Npu.Types.{NpuArgType, pointer, i32, i64, f32, f64, NpuKernelMetadata}

-- How far the reading of a file came.
pub data Reading (M : Type 0) : Type 0 where
  going stopped : M → Reading M

abbrev pub meta_of : {M : Type 0} → Reading M → M
meta_of (going m) = m
meta_of (stopped m) = m

abbrev pub then_read : {M : Type 0} → Reading M → (M → Reading M) → Reading M
then_read (going m) next = next m
then_read (stopped m) next = stopped m

-- A field that is read into the metadata, unless the library throws.
abbrev pub store {ℓ} : {A : Type ℓ} {M : Type 0} → Option A → M → (A → M) → Reading M
store none m set = stopped m
store (some a) m set = going (set a)

unfoldable pub layout_type : Bytes → NpuArgType
layout_type type_str =
    if text_eq type_str (codes "ptr") || text_eq type_str (codes "pointer")
    then pointer
    else if text_eq type_str (codes "i64") || text_eq type_str (codes "u64")
    then i64
    else if text_eq type_str (codes "i32") || text_eq type_str (codes "u32")
    then i32
    else if text_eq type_str (codes "fp64") || text_eq type_str (codes "f64")
    then f64
    else if text_eq type_str (codes "fp32") || text_eq type_str (codes "f32")
    then f32
    else i64

abbrev pub npu_defaults : NpuKernelMetadata
npu_defaults = record {
  shared = 0;
  mix_mode = codes "mix";
  arg_layout = [];
  workspace_size = 0;
  enable_auto_blockify = none;
}

module _ {J : Type 0} (json : JsonLibrary J) where
  -- One element of `arg_layout`.
  unfoldable pub read_arg_info : J → NpuKernelMetadata → Reading NpuKernelMetadata
  read_arg_info arg meta =
      if json.contains arg (codes "type")
      then elim (json.get_string (json.at arg (codes "type"))) [
        | none ↦ stopped meta
        | some type_str ↦
            if text_eq type_str (codes "constexpr")
            then going meta
            else going (record meta { arg_layout = meta.arg_layout ++ layout_type type_str ∷ [] })
      ]
      else going meta

  unfoldable pub read_arg_layout : List J → NpuKernelMetadata → Reading NpuKernelMetadata
  read_arg_layout [] meta = going meta
  read_arg_layout (arg ∷ args) meta = then_read (read_arg_info arg meta) (read_arg_layout args)

  unfoldable pub read_blockify : J → NpuKernelMetadata → Reading NpuKernelMetadata
  read_blockify j meta =
      let key = codes "enable_auto_blockify" in
      if json.contains j key && json.is_boolean (json.at j key)
      then store (json.get_bool (json.at j key)) meta
          (λ b. record meta { enable_auto_blockify = some b })
      else going meta

  unfoldable pub read_workspace : J → NpuKernelMetadata → Reading NpuKernelMetadata
  read_workspace j meta =
      let key = codes "workspace_size" in
      if json.contains j key
      then store (json.get_size (json.at j key)) meta (λ n. record meta { workspace_size = n })
      else going meta

  unfoldable pub read_layout : J → NpuKernelMetadata → Reading NpuKernelMetadata
  read_layout j meta =
      let key = codes "arg_layout" in
      if json.contains j key && json.is_array (json.at j key)
      then read_arg_layout (json.elements (json.at j key)) meta
      else going meta

  unfoldable pub read_shared : J → NpuKernelMetadata → Reading NpuKernelMetadata
  read_shared j meta =
      store (json.value_uint j (codes "shared") 0) meta (λ n. record meta { shared = n })

  unfoldable pub read_mode : J → NpuKernelMetadata → Reading NpuKernelMetadata
  read_mode j meta =
      store (json.value_string j (codes "mix_mode") (codes "mix")) meta
        (λ mode. record meta { mix_mode = mode })

  unfoldable pub read_npu : J → NpuKernelMetadata → Reading NpuKernelMetadata
  read_npu j meta =
      then_read
        (then_read (then_read (then_read (read_shared j meta) (read_mode j)) (read_blockify j))
          (read_workspace j))
        (read_layout j)

module _ {J : Type 0} (open_file : Bytes → Option Bytes) (json : JsonLibrary J) where
  unfoldable pub load_npu_metadata : Bytes → Bytes → NpuKernelMetadata
  load_npu_metadata dir kernel_name = elim (document open_file json dir kernel_name) [
    | none ↦ npu_defaults
    | some parsed ↦ elim parsed [
      | none ↦ npu_defaults
      | some j ↦ meta_of (read_npu json j npu_defaults)
    ]
  ]
