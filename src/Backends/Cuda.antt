-- ===== src/Backends/Cuda.antt =====
-- include/triton_jit/backends/cuda_backend.h
use libtriton_jit.Common.{
  ℕ, ◌+◌, ◌*◌, ◌%◌, ◌^◌, ◌-◌, Bool, ◌&&◌, ltb, leb, ◌==◌, List, Bytes, codes, Option, none, some,
  Result, ok, throw, ◌>>=◌, if◌then◌else◌,
}
use libtriton_jit.Common.Int.{ℤ, pos, neg_ℕ}
use libtriton_jit.Backends.{
  LoadError, no_metadata, driver_error, arch_mismatch, out_of_resources, module_key, binary_path,
  load_cached, shared_of, check,
}
use libtriton_jit.Metadata.{GpuKernelMeta}

-- Attributes of the device are not negative. `shared_optin` is what stands in the variable after
-- `cuDeviceGetAttribute`, whose status is not looked at. `launch` has the handle, the grid, the block
-- and the shared memory.
pub record CudaDriver : Type 0 where
  pub ctx_get_device : Option ℕ
  pub ctx_get_current : Option ℕ
  pub major : ℕ → Option ℕ
  pub minor : ℕ → Option ℕ
  pub module_load : Bytes → Option ℕ
  pub module_get_function : ℕ → Bytes → Option ℕ
  pub shared_optin : ℕ → ℕ
  pub prefer_shared : ℕ → Bool
  pub shared_total : ℕ → Option ℕ
  pub shared_static : ℕ → Option ℕ
  pub set_max_dynamic : ℕ → ℤ → Bool
  pub launch : ℕ → (ℕ × ℕ × ℕ) → (ℕ × ℕ × ℕ) → ℕ → Bool

pub record ModuleData : Type 0 where
  pub cu_module : ℕ
  pub function : ℕ
  pub metadata : GpuKernelMeta

abbrev pub minus_int : ℕ → ℕ → ℤ
minus_int a b = if leb b a then pos (a - b) else neg_ℕ (b - a)

unfoldable pub get_shared_memory :
    (Bytes → Bytes → ℕ) → Bytes → Bytes → List (Bytes × ModuleData) → ℕ
get_shared_memory load_shared_memory dir kernel_name cache =
    shared_of (λ m. m.metadata.shared) (module_key dir kernel_name)
      (load_shared_memory dir kernel_name) cache

module _ (driver : CudaDriver) where
  -- What the maximum of dynamic shared memory is set to, if it is.
  unfoldable pub configure_shared_memory : ℕ → ℕ → ℕ → Result LoadError (Option ℤ)
  configure_shared_memory kernel device required_shared =
      let optin = driver.shared_optin device in
      if ltb optin required_shared
      then throw out_of_resources
      else if ltb 49152 required_shared && ltb 49152 optin
      then (if driver.prefer_shared kernel
          then check (driver.shared_total device) (λ total.
            check (driver.shared_static kernel) (λ static.
              let limit = minus_int optin static in
              if driver.set_max_dynamic kernel limit then ok (some limit) else throw driver_error))
          else throw driver_error)
      else ok none

  -- The check of the architecture, which gives the device.
  unfoldable pub check_arch : ℕ → Result LoadError ℕ
  check_arch arch = check driver.ctx_get_device (λ device. check (driver.major device) (λ major.
      check (driver.minor device) (λ minor.
        if (major * 10 + minor) % 2 ^ 32 == arch then ok device else throw arch_mismatch)))

  -- `load_kernel` for a kernel that is not in the cache.
  unfoldable pub load_module :
      (Bytes → Bytes → GpuKernelMeta) → Bytes → Bytes → Result LoadError ModuleData
  load_module load_gpu_metadata dir kernel_name =
      let metadata = load_gpu_metadata dir kernel_name in
      if metadata.arch == 0
      then throw no_metadata
      else check_arch metadata.arch >>= λ device.
          check (driver.module_load (binary_path dir kernel_name (codes ".cubin"))) (λ cu_module.
            check (driver.module_get_function cu_module kernel_name) (λ kernel.
              configure_shared_memory kernel device metadata.shared >>= λ limit.
              ok (record { cu_module = cu_module; function = kernel; metadata = metadata })))

  unfoldable pub load_kernel :
      (Bytes → Bytes → GpuKernelMeta)
      → Bytes
      → Bytes
      → List (Bytes × ModuleData)
      → Result LoadError (ℕ × List (Bytes × ModuleData))
  load_kernel load_gpu_metadata dir kernel_name cache =
      load_cached (λ m. m.function) (module_key dir kernel_name)
        (load_module load_gpu_metadata dir kernel_name) cache

  -- `true` when the launch succeeds; the options of a launch are its shared memory.
  unfoldable pub launch_kernel : ℕ → (ℕ × ℕ × ℕ) → (ℕ × ℕ × ℕ) → ℕ → Result LoadError (Unit {0})
  launch_kernel kernel grid block shared_memory =
      if driver.launch kernel grid block shared_memory then ok tt else throw driver_error
