-- ===== src/Backends/Loaded.antt =====
-- What a successful load says of the kernel and of the device, for each backend.
use libtriton_jit.Common.{
  ℕ, ◌+◌, ◌*◌, ◌%◌, ◌^◌, ◌≤◌, Bool, true, false, ltb, ltb→ge, ◌==◌, ==_iff, List, Bytes, codes,
  Option, none, some, inl, inr, Result, ok, throw, ok_inj, >>=-eq-ok, ◌≡◌, ◌⊎◌, refl, sym, ap, ◌∙◌,
  if◌then◌else◌,
}
use libtriton_jit.Common.Int.{ℤ}
use libtriton_jit.Backends.{LoadError, check, module_key, binary_path, find_module}
use libtriton_jit.Backends.Cache.{
  throw-ne-ok, load_cached-Served, load_cached-again, shared_of-Served,
}
use libtriton_jit.Backends.Cuda
use libtriton_jit.Backends.Cuda.{CudaDriver}
use libtriton_jit.Metadata.{GpuKernelMeta, JsonLibrary, load_gpu_metadata, load_shared_memory}
use libtriton_jit.Metadata.Shared.{load_shared_memory-metadata}

pub check-eq-ok {ℓ κ} :
    {A : Type ℓ} {B : Type κ} (o : Option A) (next : A → Result LoadError B) (b : B)
    → check o next ≡ ok b
    → (a : A) × (o ≡ some a) × (next a ≡ ok b)
check-eq-ok none next b h = absurd (throw-ne-ok h)
check-eq-ok (some a) next b h = (a, refl, h)

-- A guard that was passed.
pub guard-eq-ok {ℓ} :
    {B : Type ℓ} (c : Bool) (e : LoadError) (r : Result LoadError B) (b : B)
    → (if c then throw e else r) ≡ ok b
    → (c ≡ false) × (r ≡ ok b)
guard-eq-ok true e r b h = absurd (throw-ne-ok h)
guard-eq-ok false e r b h = (refl, h)

pub needed-eq-ok {ℓ} :
    {B : Type ℓ} (c : Bool) (e : LoadError) (r : Result LoadError B) (b : B)
    → (if c then r else throw e) ≡ ok b
    → (c ≡ true) × (r ≡ ok b)
needed-eq-ok false e r b h = absurd (throw-ne-ok h)
needed-eq-ok true e r b h = (refl, h)

-- The kernel was built for the device, and the device has the shared memory that it wants.
pub record Fits (driver : CudaDriver) (m : GpuKernelMeta) : Type 0 where
  pub device : ℕ
  pub major : ℕ
  pub minor : ℕ
  pub current : driver.ctx_get_device ≡ some device
  pub capability : (driver.major device ≡ some major) × (driver.minor device ≡ some minor)
  pub arch : (major * 10 + minor) % 2 ^ 32 ≡ m.arch
  pub room : m.shared ≤ driver.shared_optin device

configure_shared_memory-room :
    (driver : CudaDriver) (kernel device required : ℕ) (limit : Option ℤ)
    → Cuda.configure_shared_memory driver kernel device required ≡ ok limit
    → required ≤ driver.shared_optin device
unfolding Cuda.configure_shared_memory
configure_shared_memory-room driver kernel device required limit h =
    let (small, rest) = guard-eq-ok (ltb (driver.shared_optin device) required) _ _ limit h in
    ltb→ge (driver.shared_optin device) required small

module _ (driver : CudaDriver) (m : GpuKernelMeta) where
  check_arch-Fits :
      (d : ℕ)
      → Cuda.check_arch driver m.arch ≡ ok d
      → m.shared ≤ driver.shared_optin d
      → Fits driver m
  unfolding Cuda.check_arch
  check_arch-Fits d h room =
      let (device, current, h1) = check-eq-ok driver.ctx_get_device _ d h in
      let (major, is_major, h2) = check-eq-ok (driver.major device) _ d h1 in
      let (minor, is_minor, h3) = check-eq-ok (driver.minor device) _ d h2 in
      let (same, h4) = needed-eq-ok ((major * 10 + minor) % 2 ^ 32 == m.arch) _ (ok device) d h3 in
      record {
        device = device;
        major = major;
        minor = minor;
        current = current;
        capability = (is_major, is_minor);
        arch = (==_iff ((major * 10 + minor) % 2 ^ 32) m.arch).0 same;
        room = rw (ok_inj h4) room;
      }

-- A module that was loaded has the metadata of the file, and fits the device.
load_module-Fits :
    (driver : CudaDriver) (load_gpu_metadata : Bytes → Bytes → GpuKernelMeta) (dir name : Bytes)
    (m : Cuda.ModuleData)
    → Cuda.load_module driver load_gpu_metadata dir name ≡ ok m
    → (m.metadata ≡ load_gpu_metadata dir name) × Fits driver (load_gpu_metadata dir name)
unfolding Cuda.load_module
load_module-Fits driver load_gpu_metadata dir name m h =
    let meta = load_gpu_metadata dir name in
    let (known, h1) = guard-eq-ok (meta.arch == 0) _ _ m h in
    let (device, arch, h2) = >>=-eq-ok (Cuda.check_arch driver meta.arch) _ h1 in
    let (cu_module, loaded, h3) =
      check-eq-ok (driver.module_load (binary_path dir name (codes ".cubin"))) _ m h2 in
    let (kernel, got, h4) = check-eq-ok (driver.module_get_function cu_module name) _ m h3 in
    let (limit, configured, h5) =
      >>=-eq-ok (Cuda.configure_shared_memory driver kernel device meta.shared) _ h4 in
    (
      ap (λ (d : Cuda.ModuleData). d.metadata) (sym (ok_inj h5)),
      check_arch-Fits driver meta device arch
          (configure_shared_memory-room driver kernel device meta.shared limit configured),
    )

module _ {J : Type 0} (open_file : Bytes → Option Bytes) (json : JsonLibrary J) where
  -- On CUDA, when a kernel is loaded, the cache holds a module with the handle that was given. If it was
  -- not held before, its metadata are those of the file, the device has their architecture, and their
  -- shared memory is within its limit. From then on the load gives that handle whatever the driver and
  -- the file would answer, and leaves the cache alone. The modules of other keys stay. And the shared
  -- memory of the kernel is what it was before the load.
  pub load_kernel-Loaded :
      (driver : CudaDriver) (dir name : Bytes) (before after : List (Bytes × Cuda.ModuleData))
      (h : ℕ)
      → Cuda.load_kernel driver (load_gpu_metadata open_file json) dir name before ≡ ok (h, after)
      → ((m : Cuda.ModuleData) × (find_module (module_key dir name) after ≡ some m)
          × (m.function ≡ h)
          × ((find_module (module_key dir name) before ≡ some m)
              ⊎ ((m.metadata ≡ load_gpu_metadata open_file json dir name)
                  × Fits driver m.metadata)))
        × ((later : CudaDriver) (meta : Bytes → Bytes → GpuKernelMeta)
            → Cuda.load_kernel later meta dir name after ≡ ok (h, after))
        × ((other : Bytes)
            → (module_key dir name ≡ other) ⊎ (find_module other after ≡ find_module other before))
        × (Cuda.get_shared_memory (load_shared_memory open_file json) dir name after
            ≡ Cuda.get_shared_memory (load_shared_memory open_file json) dir name before)
  unfolding Cuda.load_kernel Cuda.get_shared_memory
  load_kernel-Loaded driver dir name before after h e =
      let key = module_key dir name in
      let meta = load_gpu_metadata open_file json in
      let fresh = Cuda.load_module driver meta dir name in
      let s = load_cached-Served (λ m. m.function) key fresh before after h e in
      (
        (
          s.held,
          s.found,
          s.handle,
          elim s.source [
            | inl same ↦ inl (sym (ap (find_module key) same) ∙ s.found)
            | inr (loaded, was) ↦
                let (meta_is, fits) = load_module-Fits driver meta dir name s.held loaded in
                inr (meta_is, rw (meta_is) fits)
          ],
        ),
        λ later other_meta.
            load_cached-again (λ m. m.function) key fresh
              (Cuda.load_module later other_meta dir name) before after h s,
        s.others,
        shared_of-Served (λ m. m.function) (λ m. m.metadata.shared) key fresh
            (load_shared_memory open_file json dir name) h before after
            (λ m loaded.
              ap (λ (d : GpuKernelMeta). d.shared)
                (load_module-Fits driver meta dir name m loaded).0
              ∙ (load_shared_memory-metadata open_file json dir name).0)
            s,
      )
