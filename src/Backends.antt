-- ===== src/Backends.antt =====
-- The kernel modules that a backend has loaded, and the other backends than the NPU's: the files
-- *_backend.h of include/triton_jit/backends. The device driver of each is a parameter, a record of
-- what its functions answer, `none` for an error status. Calls that only log are left out.
pub mod Cache
pub mod Cuda
pub mod Ix
pub mod Hcu
pub mod Musa
pub mod Maca
pub mod Mlu
pub mod Gcu
pub mod Loaded
pub mod Shared
pub mod Grid
use libtriton_jit.Common.{
  ℕ, Bool, true, false, List, [], ◌∷◌, ◌++◌, Bytes, codes, text_eq, Option, none, some, Result, ok,
  throw, if◌then◌else◌,
}

pub data LoadError : Type 0 where
  no_metadata driver_error arch_mismatch out_of_resources no_binary unreadable json_error :
      LoadError

-- `fmt::format("{}::{}", dir, kernel_name)`
abbrev pub module_key : Bytes → Bytes → Bytes
module_key dir kernel_name = dir ++ (codes "::" ++ kernel_name)

-- The path of a binary, with its extension.
abbrev pub binary_path : Bytes → Bytes → Bytes → Bytes
binary_path dir kernel_name extension = dir ++ (codes "/" ++ (kernel_name ++ extension))

module _ {M : Type 0} where
  -- `module_cache_.find(key)`
  unfoldable pub find_module : Bytes → List (Bytes × M) → Option M
  find_module key [] = none
  find_module key ((name, data_of) ∷ rest) =
      if text_eq name key then some data_of else find_module key rest

  -- Every `load_kernel`: look into the cache, else load and put what was loaded there. It gives the
  -- function handle of the module.
  unfoldable pub load_cached :
      {E : Type 0}
      → (M → ℕ)
      → Bytes
      → Result E M
      → List (Bytes × M)
      → Result E (ℕ × List (Bytes × M))
  load_cached function key loaded cache = elim (find_module key cache) [
    | some held ↦ ok (function held, cache)
    | none ↦ elim loaded [
      | throw e ↦ throw e
      | ok fresh ↦ ok (function fresh, (key, fresh) ∷ cache)
    ]
  ]

  -- Every `get_shared_memory`: `from_file` is what the metadata file has.
  unfoldable pub shared_of : (M → ℕ) → Bytes → ℕ → List (Bytes × M) → ℕ
  shared_of shared key from_file cache = elim (find_module key cache) [
    | some held ↦ shared held
    | none ↦ from_file
  ]

-- An answer of the driver that is checked.
abbrev pub check {ℓ κ} :
    {A : Type ℓ} {B : Type κ} → Option A → (A → Result LoadError B) → Result LoadError B
check none next = throw driver_error
check (some a) next = next a
