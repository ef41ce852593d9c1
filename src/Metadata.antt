-- ===== src/Metadata.antt =====
-- The metadata of a compiled kernel: src/kernel_metadata.cpp, include/triton_jit/kernel_metadata.h.
-- The file system and the JSON library are parameters. `none` is a file that does not open, and an
-- exception of the library. An exception ends the reading, and what was read before it stays.
pub mod Kept
pub mod Npu
pub mod Shared
use libtriton_jit.Common.{
  ℕ, Bool, true, false, ◌&&◌, ◌||◌, List, [], ◌∷◌, ◌++◌, Bytes, codes, text_eq, Option, none, some,
  Result, ok, throw, if◌then◌else◌,
}
use libtriton_jit.Common.Int.{ℤ, pos}
use libtriton_jit.Npu.Types.{NpuArgType, pointer, i32, i64, f32, f64, NpuKernelMetadata}

-- `at` is `j[key]` for a key that is there; `value_...` is `j.value(key, fallback)`.
pub record JsonLibrary (J : Type 0) : Type 0 where
  pub parse : Bytes → Option J
  pub contains : J → Bytes → Bool
  pub at : J → Bytes → J
  pub is_boolean : J → Bool
  pub is_array : J → Bool
  pub elements : J → List J
  pub get_uint : J → Option ℕ
  pub get_size : J → Option ℕ
  pub get_bool : J → Option Bool
  pub get_string : J → Option Bytes
  pub value_uint : J → Bytes → ℕ → Option ℕ
  pub value_int : J → Bytes → ℤ → Option ℤ
  pub value_bool : J → Bytes → Bool → Option Bool
  pub value_string : J → Bytes → Bytes → Option Bytes

pub record GpuKernelMeta : Type 0 where
  pub shared : ℕ
  pub arch : ℕ

pub record HcuKernelMetadata : Type 0 where
  pub shared : ℕ
  pub arch : Bytes

pub record MluKernelMetadata : Type 0 where
  pub shared : ℕ
  pub arch : ℕ
  pub num_warps : ℤ
  pub promote_shared : Bool

abbrev pub json_path : Bytes → Bytes → Bytes
json_path dir kernel_name = dir ++ (codes "/" ++ (kernel_name ++ codes ".json"))

abbrev get_or_else {ℓ} : {A : Type ℓ} → Option A → A → A
get_or_else none fallback = fallback
get_or_else (some a) fallback = a

module _ {J : Type 0} (json : JsonLibrary J) where
  abbrev pub has_arch : J → Bool
  has_arch j =
      json.contains j (codes "target") && json.contains (json.at j (codes "target")) (codes "arch")

  abbrev pub arch_of : J → J
  arch_of j = json.at (json.at j (codes "target")) (codes "arch")

  unfoldable pub read_gpu : J → GpuKernelMeta
  read_gpu j = elim (json.value_uint j (codes "shared") 0) [
    | none ↦ record { shared = 0; arch = 0 }
    | some shared ↦ record {
      shared = shared;
      arch = if has_arch j then get_or_else (json.get_uint (arch_of j)) 0 else 0;
    }
  ]

  unfoldable pub read_hcu : J → HcuKernelMetadata
  read_hcu j = elim (json.value_uint j (codes "shared") 0) [
    | none ↦ record { shared = 0; arch = [] }
    | some shared ↦ record {
      shared = shared;
      arch = if has_arch j then get_or_else (json.get_string (arch_of j)) [] else [];
    }
  ]

  unfoldable pub read_arch : J → Option ℕ
  read_arch j = if has_arch j then json.get_uint (arch_of j) else some 0

  unfoldable pub read_mlu : J → Option MluKernelMetadata
  read_mlu j = elim (json.value_uint j (codes "shared") 0) [
    | none ↦ none
    | some shared ↦ elim (json.value_int j (codes "num_warps") (pos 1)) [
      | none ↦ none
      | some num_warps ↦ elim (json.value_bool j (codes "promote_shared") false) [
        | none ↦ none
        | some promote_shared ↦ elim (read_arch j) [
          | none ↦ none
          | some arch ↦ some (record {
            shared = shared;
            arch = arch;
            num_warps = num_warps;
            promote_shared = promote_shared;
          })
        ]
      ]
    ]
  ]

module _ {J : Type 0} (open_file : Bytes → Option Bytes) (json : JsonLibrary J) where
  -- The parsed file; an exception of `parse` is `none` as well.
  abbrev pub document : Bytes → Bytes → Option (Option J)
  document dir kernel_name = elim (open_file (json_path dir kernel_name)) [
    | none ↦ none
    | some text ↦ some (json.parse text)
  ]

  unfoldable pub load_gpu_metadata : Bytes → Bytes → GpuKernelMeta
  load_gpu_metadata dir kernel_name = elim (document dir kernel_name) [
    | none ↦ record { shared = 0; arch = 0 }
    | some parsed ↦ elim parsed [
      | none ↦ record { shared = 0; arch = 0 }
      | some j ↦ read_gpu json j
    ]
  ]

  unfoldable pub load_hcu_metadata : Bytes → Bytes → HcuKernelMetadata
  load_hcu_metadata dir kernel_name = elim (document dir kernel_name) [
    | none ↦ record { shared = 0; arch = [] }
    | some parsed ↦ elim parsed [
      | none ↦ record { shared = 0; arch = [] }
      | some j ↦ read_hcu json j
    ]
  ]

  -- `none` is an exception, which nothing catches here.
  unfoldable pub load_mlu_metadata : Bytes → Bytes → Option MluKernelMetadata
  load_mlu_metadata dir kernel_name = elim (document dir kernel_name) [
    | none ↦ some (record { shared = 0; arch = 0; num_warps = pos 1; promote_shared = false })
    | some parsed ↦ elim parsed [ none ↦ none | some j ↦ read_mlu json j ]
  ]

  unfoldable pub load_shared_memory : Bytes → Bytes → ℕ
  load_shared_memory dir kernel_name = elim (document dir kernel_name) [
    | none ↦ 0
    | some parsed ↦ elim parsed [
      | none ↦ 0
      | some j ↦ get_or_else (json.value_uint j (codes "shared") 0) 0
    ]
  ]
