-- ===== src/Backends/Mlu.antt =====
-- include/triton_jit/backends/mlu_backend.h. An `unsigned` that becomes an `int` keeps its bits.
use libtriton_jit.Common.{
  ℕ, ◌-◌, ◌*◌, ◌%◌, ◌^◌, Bool, ◌&&◌, ◌||◌, ltb, leb, ◌==◌, List, Bytes, codes, Option, none, some,
  Result, ok, throw, ◌>>=◌, if◌then◌else◌,
}
use libtriton_jit.Common.Int.{ℤ, pos, negsuc, neg_ℕ, eq_ℤ}
use libtriton_jit.Backends.{
  LoadError, no_metadata, json_error, driver_error, arch_mismatch, out_of_resources, module_key,
  binary_path, find_module, load_cached, shared_of, check,
}
use libtriton_jit.Metadata.{MluKernelMetadata}

-- The properties of the device are what stands in `MluDeviceInfo` after queries whose status is not
-- looked at; they are not negative.
pub record MluDriver : Type 0 where
  pub ctx_get_device : Option ℕ
  pub isa_version : ℕ → Option ℕ
  pub module_load : Bytes → Option ℕ
  pub module_get_kernel : ℕ → Bytes → Option ℕ
  pub max_grid_x : ℕ → ℕ
  pub max_grid_y : ℕ → ℕ
  pub max_grid_z : ℕ → ℕ
  pub core_num_per_cluster : ℕ → ℕ
  pub cluster_num : ℕ → ℕ
  pub invoke_kernel : ℕ → (ℕ × ℕ × ℕ) → ℕ → Bool

pub record LaunchOptions : Type 0 where
  pub shared_memory : ℕ
  pub num_warps : ℤ
  pub promote_shared : Bool

pub record ModuleData : Type 0 where
  pub cn_module : ℕ
  pub function : ℕ
  pub metadata : MluKernelMetadata

abbrev pub as_int : ℕ → ℤ
as_int u = if ltb u (2 ^ 31) then pos u else neg_ℕ (2 ^ 32 - u)

-- A conversion to `w` bits.
abbrev pub as_unsigned : ℕ → ℤ → ℕ
as_unsigned w (pos n) = n % 2 ^ w
as_unsigned w (negsuc n) = (2 ^ w - 1) - n % 2 ^ w

unfoldable pub check_grid : ℤ → ℕ → Result LoadError (Unit {0})
check_grid (pos grid) max_grid = if ltb max_grid grid then throw out_of_resources else ok tt
check_grid (negsuc grid) max_grid = ok tt

unfoldable pub prepare_launch :
    Bytes → Bytes → ℕ → List (Bytes × ModuleData) → Result LoadError LaunchOptions
prepare_launch dir name shared_mem cache = elim (find_module (module_key dir name) cache) [
  | none ↦ throw no_metadata
  | some held ↦ ok (record {
    shared_memory = shared_mem;
    num_warps = held.metadata.num_warps;
    promote_shared = held.metadata.promote_shared;
  })
]

unfoldable pub get_shared_memory :
    (Bytes → Bytes → ℕ) → Bytes → Bytes → List (Bytes × ModuleData) → ℕ
get_shared_memory load_shared_memory dir kernel_name cache =
    shared_of (λ m. m.metadata.shared) (module_key dir kernel_name)
      (load_shared_memory dir kernel_name) cache

module _ (driver : MluDriver) where
  -- `KernelClass`
  unfoldable pub func_type : ℕ → ℕ → ℕ → LaunchOptions → ℕ
  func_type device grid_x total opts =
      let cores = driver.core_num_per_cluster device in
      if eq_ℤ opts.num_warps (pos 1)
        && (grid_x % cores == 0)
        && (opts.promote_shared || leb total (driver.cluster_num device * cores % 2 ^ 32))
      then cores
      else as_unsigned 64 opts.num_warps

  unfoldable pub launch_kernel : ℕ → (ℕ × ℕ × ℕ) → LaunchOptions → Result LoadError (Unit {0})
  launch_kernel kernel grid opts =
      let (gx, gy, gz) = grid in
      let grid_x = gx * as_unsigned 32 opts.num_warps % 2 ^ 32 in
      check driver.ctx_get_device (λ device.
        check_grid (as_int grid_x) (driver.max_grid_x device) >>= λ x.
        check_grid (as_int gy) (driver.max_grid_y device) >>= λ y.
        check_grid (as_int gz) (driver.max_grid_z device) >>= λ z.
        if driver.invoke_kernel kernel (grid_x, gy, gz)
          (func_type device grid_x (grid_x * gy % 2 ^ 32 * gz % 2 ^ 32) opts)
        then ok tt
        else throw driver_error)

  unfoldable pub check_arch : ℕ → Result LoadError (Unit {0})
  check_arch arch = check driver.ctx_get_device (λ device.
      check (driver.isa_version device)
        (λ version. if version == arch then ok tt else throw arch_mismatch))

  -- `load_kernel` for a kernel that is not in the cache.
  unfoldable pub load_module :
      (Bytes → Bytes → Option MluKernelMetadata) → Bytes → Bytes → Result LoadError ModuleData
  load_module load_mlu_metadata dir kernel_name = elim (load_mlu_metadata dir kernel_name) [
    | none ↦ throw json_error
    | some metadata ↦
        if metadata.arch == 0
        then throw no_metadata
        else check_arch metadata.arch >>= λ done.
            check (driver.module_load (binary_path dir kernel_name (codes ".cnbin"))) (λ cn_module.
              check (driver.module_get_kernel cn_module kernel_name) (λ kernel.
                ok (record { cn_module = cn_module; function = kernel; metadata = metadata })))
  ]

  unfoldable pub load_kernel :
      (Bytes → Bytes → Option MluKernelMetadata)
      → Bytes
      → Bytes
      → List (Bytes × ModuleData)
      → Result LoadError (ℕ × List (Bytes × ModuleData))
  load_kernel load_mlu_metadata dir kernel_name cache =
      load_cached (λ m. m.function) (module_key dir kernel_name)
        (load_module load_mlu_metadata dir kernel_name) cache
