-- ===== src/Kernel/Policies.antt =====
-- The backends as policies: their warp sizes and their `prepare_launch`, which passes the shared memory
-- on; the MLU's looks up what was loaded. Their state is the cache of modules.
use libtriton_jit.Common.{ℕ, List, Bytes, Option, Result, ok, throw}
use libtriton_jit.Backends.{LoadError}
use libtriton_jit.Backends.Cache.{cache_after}
use libtriton_jit.Backends.Cuda
use libtriton_jit.Backends.Gcu
use libtriton_jit.Backends.Hcu
use libtriton_jit.Backends.Ix
use libtriton_jit.Backends.Maca
use libtriton_jit.Backends.Mlu
use libtriton_jit.Backends.Musa
use libtriton_jit.Kernel.{BackendPolicy}
use libtriton_jit.Metadata.{GpuKernelMeta, HcuKernelMetadata, MluKernelMetadata}

abbrev handle_of {ℓ} : {E : Type 0} {S : Type ℓ} → Result E (ℕ × S) → Result E ℕ
handle_of (ok (handle, cache)) = ok handle
handle_of (throw e) = throw e

-- A policy whose launch options are the shared memory.
abbrev gpu_policy :
    {M : Type 0}
    → ℕ
    → (Bytes → Bytes → List (Bytes × M) → Result LoadError (ℕ × List (Bytes × M)))
    → (Bytes → Bytes → List (Bytes × M) → ℕ)
    → (ℕ → (ℕ × ℕ × ℕ) → (ℕ × ℕ × ℕ) → ℕ → Result LoadError (Unit {0}))
    → BackendPolicy (List (Bytes × M)) ℕ LoadError
gpu_policy warp_size load_kernel get_shared_memory launch_kernel = record {
  warp_size = warp_size;
  load_kernel = λ dir name cache.
      let loading = load_kernel dir name cache in (handle_of loading, cache_after loading cache);
  get_shared_memory = get_shared_memory;
  prepare_launch = λ dir name shared_mem sig num_args cache. ok shared_mem;
  launch_kernel =
      λ stream kernel grid block args opts cache. (launch_kernel kernel grid block opts, cache);
}

module _ (gpu : Bytes → Bytes → GpuKernelMeta) (from_file : Bytes → Bytes → ℕ) where
  abbrev pub cuda_policy :
      Cuda.CudaDriver → BackendPolicy (List (Bytes × Cuda.ModuleData)) ℕ LoadError
  cuda_policy driver =
      gpu_policy 32 (Cuda.load_kernel driver gpu) (Cuda.get_shared_memory from_file)
        (Cuda.launch_kernel driver)

  abbrev pub ix_policy : Ix.IxDriver → BackendPolicy (List (Bytes × Ix.ModuleData)) ℕ LoadError
  ix_policy driver =
      gpu_policy 64 (Ix.load_kernel driver gpu) (Ix.get_shared_memory from_file)
        (Ix.launch_kernel driver)

  abbrev pub musa_policy :
      Musa.MusaDriver → BackendPolicy (List (Bytes × Musa.ModuleData)) ℕ LoadError
  musa_policy driver =
      gpu_policy 32 (Musa.load_kernel driver gpu) (Musa.get_shared_memory from_file)
        (Musa.launch_kernel driver)

  abbrev pub maca_policy :
      Maca.MacaDriver → BackendPolicy (List (Bytes × Maca.ModuleData)) ℕ LoadError
  maca_policy driver =
      gpu_policy 64 (Maca.load_kernel driver gpu) (Maca.get_shared_memory from_file)
        (Maca.launch_kernel driver)

  abbrev pub gcu_policy : Gcu.GcuDriver → BackendPolicy (List (Bytes × Gcu.ModuleData)) ℕ LoadError
  gcu_policy driver =
      gpu_policy 1 (Gcu.load_kernel driver) (Gcu.get_shared_memory from_file)
        (Gcu.launch_kernel driver)

abbrev pub hcu_policy :
    (Bytes → Bytes → HcuKernelMetadata)
    → (Bytes → Bytes → ℕ)
    → Hcu.HcuDriver
    → BackendPolicy (List (Bytes × Hcu.ModuleData)) ℕ LoadError
hcu_policy hcu from_file driver =
    gpu_policy 64 (Hcu.load_kernel driver hcu) (Hcu.get_shared_memory from_file)
      (Hcu.launch_kernel driver)

abbrev pub mlu_policy :
    (Bytes → Bytes → Option MluKernelMetadata)
    → (Bytes → Bytes → ℕ)
    → Mlu.MluDriver
    → BackendPolicy (List (Bytes × Mlu.ModuleData)) Mlu.LaunchOptions LoadError
mlu_policy mlu from_file driver = record {
  warp_size = 1;
  load_kernel = λ dir name cache.
      let loading = Mlu.load_kernel driver mlu dir name cache in
      (handle_of loading, cache_after loading cache);
  get_shared_memory = Mlu.get_shared_memory from_file;
  prepare_launch =
      λ dir name shared_mem sig num_args cache. Mlu.prepare_launch dir name shared_mem cache;
  launch_kernel = λ stream kernel grid block args opts cache.
      (Mlu.launch_kernel driver kernel grid opts, cache);
}
