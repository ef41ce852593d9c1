-- ===== src/Backends/Hcu.antt =====
-- include/triton_jit/backends/hcu_backend.h
use libtriton_jit.Common.{
  ℕ, Bool, ltb, ◌==◌, List, [], ◌∷◌, Bytes, codes, text_eq, is_empty, Option, Result, ok, throw,
  ◌>>=◌, if◌then◌else◌,
}
use libtriton_jit.Backends.{
  LoadError, no_metadata, driver_error, arch_mismatch, out_of_resources, module_key, binary_path,
  load_cached, shared_of, check,
}
use libtriton_jit.Metadata.{HcuKernelMetadata}

pub record HcuDriver : Type 0 where
  pub get_device : Option ℕ
  -- `gcnArchName` and `sharedMemPerBlock` of a device's properties
  pub properties : ℕ → Option (Bytes × ℕ)
  pub module_load : Bytes → Option ℕ
  pub module_get_function : ℕ → Bytes → Option ℕ
  pub launch : ℕ → (ℕ × ℕ × ℕ) → (ℕ × ℕ × ℕ) → ℕ → Bool

pub record ModuleData : Type 0 where
  pub hip_module : ℕ
  pub function : ℕ
  pub metadata : HcuKernelMetadata

-- The text before the first colon.
unfoldable pub strip_features : Bytes → Bytes
strip_features [] = []
strip_features (c ∷ rest) = if c == b':' then [] else c ∷ strip_features rest

unfoldable pub get_shared_memory :
    (Bytes → Bytes → ℕ) → Bytes → Bytes → List (Bytes × ModuleData) → ℕ
get_shared_memory load_shared_memory dir kernel_name cache =
    shared_of (λ m. m.metadata.shared) (module_key dir kernel_name)
      (load_shared_memory dir kernel_name) cache

module _ (driver : HcuDriver) where
  unfoldable pub configure_shared_memory : ℕ → ℕ → Result LoadError (Unit {0})
  configure_shared_memory device_id required_shared =
      check (driver.properties device_id)
        (λ props. if ltb props.1 required_shared then throw out_of_resources else ok tt)

  unfoldable pub check_arch : Bytes → Result LoadError ℕ
  check_arch arch = check driver.get_device (λ device_id.
      check (driver.properties device_id) (λ props.
        if text_eq (strip_features props.0) arch then ok device_id else throw arch_mismatch))

  -- `load_kernel` for a kernel that is not in the cache.
  unfoldable pub load_module :
      (Bytes → Bytes → HcuKernelMetadata) → Bytes → Bytes → Result LoadError ModuleData
  load_module load_hcu_metadata dir kernel_name =
      let metadata = load_hcu_metadata dir kernel_name in
      if is_empty metadata.arch
      then throw no_metadata
      else check_arch metadata.arch >>= λ device_id.
          check (driver.module_load (binary_path dir kernel_name (codes ".hsaco"))) (λ hip_module.
            check (driver.module_get_function hip_module kernel_name) (λ kernel.
              configure_shared_memory device_id metadata.shared >>= λ done.
              ok (record { hip_module = hip_module; function = kernel; metadata = metadata })))

  unfoldable pub load_kernel :
      (Bytes → Bytes → HcuKernelMetadata)
      → Bytes
      → Bytes
      → List (Bytes × ModuleData)
      → Result LoadError (ℕ × List (Bytes × ModuleData))
  load_kernel load_hcu_metadata dir kernel_name cache =
      load_cached (λ m. m.function) (module_key dir kernel_name)
        (load_module load_hcu_metadata dir kernel_name) cache

  unfoldable pub launch_kernel : ℕ → (ℕ × ℕ × ℕ) → (ℕ × ℕ × ℕ) → ℕ → Result LoadError (Unit {0})
  launch_kernel kernel grid block shared_memory =
      if driver.launch kernel grid block shared_memory then ok tt else throw driver_error
