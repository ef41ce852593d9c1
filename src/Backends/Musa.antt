-- ===== src/Backends/Musa.antt =====
-- include/triton_jit/backends/musa_backend.h
use libtriton_jit.Common.{
  ℕ, Bool, List, Bytes, codes, Option, none, some, Result, ok, throw, ◌>>=◌, if◌then◌else◌,
}
use libtriton_jit.Backends.{
  LoadError, driver_error, no_binary, unreadable, module_key, binary_path, load_cached, shared_of,
  check,
}
use libtriton_jit.Metadata.{GpuKernelMeta}

-- `module_load_data` has the bytes of a file; `read_file` is `none` when a file does not open or its
-- bytes cannot be read.
pub record MusaDriver : Type 0 where
  pub exists : Bytes → Bool
  pub read_file : Bytes → Option Bytes
  pub module_load : Bytes → Option ℕ
  pub module_load_data : Bytes → Option ℕ
  pub module_get_function : ℕ → Bytes → Option ℕ
  pub launch : ℕ → (ℕ × ℕ × ℕ) → (ℕ × ℕ × ℕ) → ℕ → Bool

pub record ModuleData : Type 0 where
  pub mu_module : ℕ
  pub function : ℕ
  -- the only field of the metadata that is written
  pub shared : ℕ

unfoldable pub get_shared_memory :
    (Bytes → Bytes → ℕ) → Bytes → Bytes → List (Bytes × ModuleData) → ℕ
get_shared_memory load_shared_memory dir kernel_name cache =
    shared_of (λ m. m.shared) (module_key dir kernel_name) (load_shared_memory dir kernel_name)
      cache

module _ (driver : MusaDriver) where
  -- A file that is read and handed over.
  unfoldable pub load_read : Bytes → Result LoadError ℕ
  load_read path = elim (driver.read_file path) [
    | none ↦ throw unreadable
    | some bytes ↦ check (driver.module_load_data bytes) (λ mu_module. ok mu_module)
  ]

  unfoldable pub load_path : Bytes → Result LoadError ℕ
  load_path path = check (driver.module_load path) (λ mu_module. ok mu_module)

  -- The first kind of binary that is there.
  unfoldable pub load_binary : Bytes → Bytes → Result LoadError ℕ
  load_binary dir kernel_name =
      let mubin_path = binary_path dir kernel_name (codes ".mubin") in
      let obj_path = binary_path dir kernel_name (codes ".o") in
      let so_path = binary_path dir kernel_name (codes ".so") in
      let llir_path = binary_path dir kernel_name (codes ".llir") in
      if driver.exists mubin_path
      then load_read mubin_path
      else if driver.exists obj_path
      then load_path obj_path
      else if driver.exists so_path
      then load_path so_path
      else if driver.exists llir_path
      then load_read llir_path
      else throw no_binary

  -- `load_kernel` for a kernel that is not in the cache.
  unfoldable pub load_module :
      (Bytes → Bytes → GpuKernelMeta) → Bytes → Bytes → Result LoadError ModuleData
  load_module load_gpu_metadata dir kernel_name = load_binary dir kernel_name >>= λ mu_module.
      check (driver.module_get_function mu_module kernel_name) (λ kernel. ok (record {
        mu_module = mu_module;
        function = kernel;
        shared = (load_gpu_metadata dir kernel_name).shared;
      }))

  unfoldable pub load_kernel :
      (Bytes → Bytes → GpuKernelMeta)
      → Bytes
      → Bytes
      → List (Bytes × ModuleData)
      → Result LoadError (ℕ × List (Bytes × ModuleData))
  load_kernel load_gpu_metadata dir kernel_name cache =
      load_cached (λ m. m.function) (module_key dir kernel_name)
        (load_module load_gpu_metadata dir kernel_name) cache

  unfoldable pub launch_kernel : ℕ → (ℕ × ℕ × ℕ) → (ℕ × ℕ × ℕ) → ℕ → Result LoadError (Unit {0})
  launch_kernel kernel grid block shared_memory =
      if driver.launch kernel grid block shared_memory then ok tt else throw driver_error
