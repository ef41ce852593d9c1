-- ===== src/Backends/Gcu.antt =====
-- include/triton_jit/backends/gcu_backend.h
use libtriton_jit.Common.{ℕ, Bool, List, Bytes, codes, Option, Result, ok, throw, if◌then◌else◌}
use libtriton_jit.Backends.{LoadError, driver_error, module_key, binary_path, load_cached, check}

-- `launch` has the handle, the grid, the threads and the shared memory of a launch configuration,
-- whose blocks are 1 x 1 x 1.
pub record GcuDriver : Type 0 where
  pub module_load : Bytes → Option ℕ
  pub module_get_function : ℕ → Bytes → Option ℕ
  pub launch : ℕ → (ℕ × ℕ × ℕ) → (ℕ × ℕ × ℕ) → ℕ → Bool

-- The pair that the cache holds.
pub record ModuleData : Type 0 where
  pub tops_module : ℕ
  pub function : ℕ

unfoldable pub get_shared_memory :
    (Bytes → Bytes → ℕ) → Bytes → Bytes → List (Bytes × ModuleData) → ℕ
get_shared_memory load_shared_memory dir kernel_name cache = load_shared_memory dir kernel_name

module _ (driver : GcuDriver) where
  -- `load_kernel` for a kernel that is not in the cache.
  unfoldable pub load_module : Bytes → Bytes → Result LoadError ModuleData
  load_module dir kernel_name =
      check (driver.module_load (binary_path dir kernel_name (codes ".fatbin"))) (λ tops_module.
        check (driver.module_get_function tops_module kernel_name)
          (λ kernel. ok (record { tops_module = tops_module; function = kernel })))

  unfoldable pub load_kernel :
      Bytes → Bytes → List (Bytes × ModuleData) → Result LoadError (ℕ × List (Bytes × ModuleData))
  load_kernel dir kernel_name cache =
      load_cached (λ m. m.function) (module_key dir kernel_name) (load_module dir kernel_name) cache

  unfoldable pub launch_kernel : ℕ → (ℕ × ℕ × ℕ) → (ℕ × ℕ × ℕ) → ℕ → Result LoadError (Unit {0})
  launch_kernel kernel grid block shared_memory =
      if driver.launch kernel grid (block.0, 1, 1) shared_memory then ok tt else throw driver_error
