-- ===== src/Backends/Shared.antt =====
-- The amount of shared memory before and after a load, on the backends other than CUDA.
use libtriton_jit.Common.{
  List, Bytes, codes, is_empty, ◌==◌, Option, some, Option-cases, inl, inr, ok, ok_inj, >>=-eq-ok,
  ◌≡◌, sym, ap, ◌∙◌,
}
use libtriton_jit.Backends.{module_key, binary_path}
use libtriton_jit.Backends.Cache.{throw-ne-ok, cache_after, shared_of-cache_after}
use libtriton_jit.Backends.Loaded.{check-eq-ok, guard-eq-ok}
use libtriton_jit.Backends.Hcu
use libtriton_jit.Backends.Ix
use libtriton_jit.Backends.Maca
use libtriton_jit.Backends.Mlu
use libtriton_jit.Backends.Musa
use libtriton_jit.Metadata.{
  JsonLibrary, GpuKernelMeta, HcuKernelMetadata, MluKernelMetadata, load_gpu_metadata,
  load_hcu_metadata, load_mlu_metadata, load_shared_memory,
}
use libtriton_jit.Metadata.Shared.{mlu-shared, load_shared_memory-metadata}

ix-metadata :
    (driver : Ix.IxDriver) (meta : Bytes → Bytes → GpuKernelMeta) (dir name : Bytes)
    (m : Ix.ModuleData)
    → Ix.load_module driver meta dir name ≡ ok m
    → m.metadata ≡ meta dir name
unfolding Ix.load_module
ix-metadata driver meta dir name m h =
    let (known, h1) = guard-eq-ok ((meta dir name).arch == 0) _ _ m h in
    let (cu_module, loaded, h2) =
      check-eq-ok (driver.module_load (binary_path dir name (codes ".cubin"))) _ m h1 in
    let (kernel, got, h3) = check-eq-ok (driver.module_get_function cu_module name) _ m h2 in
    let (limit, configured, h4) =
      >>=-eq-ok (Ix.configure_shared_memory driver kernel (meta dir name).shared) _ h3 in
    ap (λ (d : Ix.ModuleData). d.metadata) (sym (ok_inj h4))

hcu-metadata :
    (driver : Hcu.HcuDriver) (meta : Bytes → Bytes → HcuKernelMetadata) (dir name : Bytes)
    (m : Hcu.ModuleData)
    → Hcu.load_module driver meta dir name ≡ ok m
    → m.metadata ≡ meta dir name
unfolding Hcu.load_module
hcu-metadata driver meta dir name m h =
    let (known, h1) = guard-eq-ok (is_empty (meta dir name).arch) _ _ m h in
    let (device, arch, h2) = >>=-eq-ok (Hcu.check_arch driver (meta dir name).arch) _ h1 in
    let (hip_module, loaded, h3) =
      check-eq-ok (driver.module_load (binary_path dir name (codes ".hsaco"))) _ m h2 in
    let (kernel, got, h4) = check-eq-ok (driver.module_get_function hip_module name) _ m h3 in
    let (done, configured, h5) =
      >>=-eq-ok (Hcu.configure_shared_memory driver device (meta dir name).shared) _ h4 in
    ap (λ (d : Hcu.ModuleData). d.metadata) (sym (ok_inj h5))

musa-shared :
    (driver : Musa.MusaDriver) (meta : Bytes → Bytes → GpuKernelMeta) (dir name : Bytes)
    (m : Musa.ModuleData)
    → Musa.load_module driver meta dir name ≡ ok m
    → m.shared ≡ (meta dir name).shared
unfolding Musa.load_module
musa-shared driver meta dir name m h =
    let (mu_module, loaded, h1) = >>=-eq-ok (Musa.load_binary driver dir name) _ h in
    let (kernel, got, h2) = check-eq-ok (driver.module_get_function mu_module name) _ m h1 in
    ap (λ (d : Musa.ModuleData). d.shared) (sym (ok_inj h2))

maca-shared :
    (driver : Maca.MacaDriver) (meta : Bytes → Bytes → GpuKernelMeta) (dir name : Bytes)
    (m : Maca.ModuleData)
    → Maca.load_module driver meta dir name ≡ ok m
    → m.shared ≡ (meta dir name).shared
unfolding Maca.load_module
maca-shared driver meta dir name m h =
    let (mc_module, loaded, h1) = >>=-eq-ok (Maca.load_binary driver dir name) _ h in
    let (kernel, got, h2) = check-eq-ok (driver.module_get_function mc_module name) _ m h1 in
    ap (λ (d : Maca.ModuleData). d.shared) (sym (ok_inj h2))

mlu-metadata :
    (driver : Mlu.MluDriver) (meta : Bytes → Bytes → Option MluKernelMetadata) (dir name : Bytes)
    (m : Mlu.ModuleData)
    → Mlu.load_module driver meta dir name ≡ ok m
    → meta dir name ≡ some m.metadata
unfolding Mlu.load_module
mlu-metadata driver meta dir name m h = elim (Option-cases (meta dir name)) [
  | inl lost ↦ absurd (throw-ne-ok (rw (Mlu.load_module, lost) at h))
  | inr (data_of, found) ↦
      let (known, h1) = guard-eq-ok (data_of.arch == 0) _ _ m (rw (Mlu.load_module, found) at h) in
      let (done, arch, h2) = >>=-eq-ok (Mlu.check_arch driver data_of.arch) _ h1 in
      let (cn_module, loaded, h3) =
        check-eq-ok (driver.module_load (binary_path dir name (codes ".cnbin"))) _ m h2 in
      let (kernel, got, h4) = check-eq-ok (driver.module_get_kernel cn_module name) _ m h3 in
      found ∙ ap (λ (d : Mlu.ModuleData). some d.metadata) (ok_inj h4)
]

module _ {J : Type 0} (open_file : Bytes → Option Bytes) (json : JsonLibrary J) where
  -- Whether a load succeeds, finds the kernel in the cache or throws, the amount of shared memory that
  -- the backend gives for the kernel is what it gave before: on IX, HCU, MUSA, MACA and MLU.
  pub get_shared_memory-load_kernel :
      (dir name : Bytes) (ix : Ix.IxDriver) (hcu : Hcu.HcuDriver) (musa : Musa.MusaDriver)
      (maca : Maca.MacaDriver) (mlu : Mlu.MluDriver) (on_ix : List (Bytes × Ix.ModuleData))
      (on_hcu : List (Bytes × Hcu.ModuleData)) (on_musa : List (Bytes × Musa.ModuleData))
      (on_maca : List (Bytes × Maca.ModuleData)) (on_mlu : List (Bytes × Mlu.ModuleData))
      → let gpu = load_gpu_metadata open_file json in
        let from_file = load_shared_memory open_file json in
        (Ix.get_shared_memory from_file dir name
            (cache_after (Ix.load_kernel ix gpu dir name on_ix) on_ix)
          ≡ Ix.get_shared_memory from_file dir name on_ix)
        × (Hcu.get_shared_memory from_file dir name (
              cache_after
                (Hcu.load_kernel hcu (load_hcu_metadata open_file json) dir name on_hcu)
                on_hcu)
            ≡ Hcu.get_shared_memory from_file dir name on_hcu)
        × (Musa.get_shared_memory from_file dir name
              (cache_after (Musa.load_kernel musa gpu dir name on_musa) on_musa)
            ≡ Musa.get_shared_memory from_file dir name on_musa)
        × (Maca.get_shared_memory from_file dir name
              (cache_after (Maca.load_kernel maca gpu dir name on_maca) on_maca)
            ≡ Maca.get_shared_memory from_file dir name on_maca)
        × (Mlu.get_shared_memory from_file dir name (
              cache_after
                (Mlu.load_kernel mlu (load_mlu_metadata open_file json) dir name on_mlu)
                on_mlu)
            ≡ Mlu.get_shared_memory from_file dir name on_mlu)
  unfolding Ix.load_kernel Hcu.load_kernel Musa.load_kernel Maca.load_kernel Mlu.load_kernel
      Ix.get_shared_memory Hcu.get_shared_memory Musa.get_shared_memory Maca.get_shared_memory
      Mlu.get_shared_memory
  get_shared_memory-load_kernel dir name ix hcu musa maca mlu on_ix on_hcu on_musa on_maca on_mlu =
      let gpu = load_gpu_metadata open_file json in
      let of_hcu = load_hcu_metadata open_file json in
      let of_mlu = load_mlu_metadata open_file json in
      let key = module_key dir name in
      let n = load_shared_memory open_file json dir name in
      let (gpu_is, hcu_is, npu_is, mlu_is) = load_shared_memory-metadata open_file json dir name in
      (
        shared_of-cache_after (λ m. m.function) (λ m. m.metadata.shared) key
            (Ix.load_module ix gpu dir name) n on_ix
            (λ m loaded.
              ap (λ (d : GpuKernelMeta). d.shared) (ix-metadata ix gpu dir name m loaded) ∙ gpu_is),
        shared_of-cache_after (λ m. m.function) (λ m. m.metadata.shared) key
            (Hcu.load_module hcu of_hcu dir name) n on_hcu
            (λ m loaded.
              ap (λ (d : HcuKernelMetadata). d.shared) (hcu-metadata hcu of_hcu dir name m loaded)
              ∙ hcu_is),
        shared_of-cache_after (λ m. m.function) (λ m. m.shared) key
            (Musa.load_module musa gpu dir name) n on_musa
            (λ m loaded. musa-shared musa gpu dir name m loaded ∙ gpu_is),
        shared_of-cache_after (λ m. m.function) (λ m. m.shared) key
            (Maca.load_module maca gpu dir name) n on_maca
            (λ m loaded. maca-shared maca gpu dir name m loaded ∙ gpu_is),
        shared_of-cache_after (λ m. m.function) (λ m. m.metadata.shared) key
            (Mlu.load_module mlu of_mlu dir name) n on_mlu
            (λ m loaded.
              mlu-shared open_file json dir name m.metadata
                (mlu-metadata mlu of_mlu dir name m loaded)),
      )
