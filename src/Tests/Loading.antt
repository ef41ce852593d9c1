-- ===== src/Tests/Loading.antt =====
-- Runs of the loads of kernels, and the theorems about them at these.
use libtriton_jit.Common.{
  ◌↔◌, ◌+◌, ◌<◌, ap, ℕ, zero, suc, ◌*◌, ◌≡◌, ◌≢◌, ◌⊎◌, ◌==◌, ==_iff, refl, true, false, List, [],
  ◌∷◌, Bytes, codes, text_eq, Option, none, some, ok, arith, Bool, ◌||◌, if◌then◌else◌,
}
use libtriton_jit.Common.Int.{pos}
use libtriton_jit.Backends.{module_key, find_module, load_cached}
use libtriton_jit.Backends.Cache.{Without, cache_after, module_key_inj}
use libtriton_jit.Backends.Cuda
use libtriton_jit.Backends.Cuda.{CudaDriver}
use libtriton_jit.Backends.Grid.{StartedOn, launch_kernel-within}
use libtriton_jit.Backends.Hcu
use libtriton_jit.Backends.Ix
use libtriton_jit.Backends.Maca
use libtriton_jit.Backends.Mlu
use libtriton_jit.Backends.Mlu.{MluDriver, as_unsigned}
use libtriton_jit.Backends.Musa
use libtriton_jit.Backends.Loaded.{Fits, load_kernel-Loaded}
use libtriton_jit.Backends.Shared.{get_shared_memory-load_kernel}
use libtriton_jit.Metadata.{
  JsonLibrary, GpuKernelMeta, load_gpu_metadata, load_hcu_metadata, load_mlu_metadata,
  load_shared_memory, read_gpu,
}
use libtriton_jit.Metadata.Npu.{load_npu_metadata}
use libtriton_jit.Metadata.Shared.{map_shared, load_shared_memory-metadata}
use libtriton_jit.Npu.Load.{
  Registry, Loader, stub_name, load_kernel, register_function, register_binary, read_binary,
  find_binary, emplace_stub,
}
use libtriton_jit.Npu.Load.Stubs.{Held, Counted, load_kernel-Counted}
use libtriton_jit.Npu.Types.{NpuKernelMetadata}

-- A document 0 with the field "shared", and a target 1 with the architecture 2.
abbrev has_field : ℕ → Bytes → Bool
has_field zero key = text_eq key (codes "shared") || text_eq key (codes "target")
has_field (suc n) key = text_eq key (codes "arch")

abbrev field_at : ℕ → Bytes → ℕ
field_at zero key = 1
field_at (suc n) key = 2

abbrev pub library : JsonLibrary ℕ
library = record {
  parse = λ text. some 0;
  contains = has_field;
  at = field_at;
  is_boolean = λ j. false;
  is_array = λ j. false;
  elements = λ j. [];
  get_uint = λ j. some 80;
  get_size = λ j. some 80;
  get_bool = λ j. none;
  get_string = λ j. none;
  value_uint = λ j key fallback. some 1024;
  value_int = λ j key fallback. some fallback;
  value_bool = λ j key fallback. some fallback;
  value_string = λ j key fallback. some fallback;
}

abbrev pub files : Bytes → Option Bytes
files path = some []

abbrev pub dir : Bytes
dir = codes "/cache/0a1b"

abbrev pub name : Bytes
name = codes "add_kernel"

-- A device of compute capability 8.0.
abbrev pub device : CudaDriver
device = record {
  ctx_get_device = some 0;
  ctx_get_current = some 1;
  major = λ d. some 8;
  minor = λ d. some 0;
  module_load = λ path. some 21;
  module_get_function = λ m n. some 34;
  shared_optin = λ d. 166912;
  prefer_shared = λ k. true;
  shared_total = λ d. some 167936;
  shared_static = λ k. some 0;
  set_max_dynamic = λ k n. true;
  launch = λ k grid block shared. true;
}

abbrev pub loaded : List (Bytes × Cuda.ModuleData)
loaded =
    (
      module_key dir name,
      record { cu_module = 21; function = 34; metadata = record { shared = 1024; arch = 80 } },
    )
    ∷ []

cuda_loads : Cuda.load_kernel device (load_gpu_metadata files library) dir name [] ≡ ok (34, loaded)
unfolding Cuda.load_kernel Cuda.load_module Cuda.check_arch Cuda.configure_shared_memory load_cached
    find_module load_gpu_metadata read_gpu
cuda_loads = refl

large_shared : Cuda.configure_shared_memory device 34 0 65536 ≡ ok (some (pos 166912))
unfolding Cuda.configure_shared_memory
large_shared = refl

load_kernel-Loaded_example :
    ((m : Cuda.ModuleData) × (find_module (module_key dir name) loaded ≡ some m)
      × (◌≡◌ {A = ℕ} m.function 34)
      × ((find_module {M = Cuda.ModuleData} (module_key dir name) [] ≡ some m)
          ⊎ ((m.metadata ≡ load_gpu_metadata files library dir name) × Fits device m.metadata)))
    × ((later : CudaDriver) (meta : Bytes → Bytes → GpuKernelMeta)
        → Cuda.load_kernel later meta dir name loaded ≡ ok (34, loaded))
    × ((other : Bytes)
        → (module_key dir name ≡ other) ⊎ (find_module other loaded ≡ find_module other []))
    × (Cuda.get_shared_memory (load_shared_memory files library) dir name loaded
        ≡ Cuda.get_shared_memory (load_shared_memory files library) dir name [])
load_kernel-Loaded_example =
    load_kernel-Loaded files library device dir name [] loaded 34 cuda_loads

load_shared_memory-metadata_example :
    ((load_gpu_metadata files library dir name).shared ≡ load_shared_memory files library dir name)
    × ((load_hcu_metadata files library dir name).shared
        ≡ load_shared_memory files library dir name)
    × ((load_npu_metadata files library dir name).shared
        ≡ load_shared_memory files library dir name)
    × ((map_shared (load_mlu_metadata files library dir name) ≡ none)
        ⊎ (map_shared (load_mlu_metadata files library dir name)
            ≡ some (load_shared_memory files library dir name)))
load_shared_memory-metadata_example = load_shared_memory-metadata files library dir name

abbrev card : MluDriver
card = record {
  ctx_get_device = some 0;
  isa_version = λ d. some 372;
  module_load = λ path. some 1;
  module_get_kernel = λ m n. some 2;
  max_grid_x = λ d. 65535;
  max_grid_y = λ d. 65535;
  max_grid_z = λ d. 65535;
  core_num_per_cluster = λ d. 4;
  cluster_num = λ d. 8;
  invoke_kernel = λ k grid class. true;
}

abbrev ix_device : Ix.IxDriver
ix_device = record {
  ctx_get_device = some 0;
  ctx_get_current = some 1;
  module_load = λ path. some 21;
  module_get_function = λ m n. some 34;
  shared_optin = λ d. 65536;
  prefer_shared = λ k. true;
  shared_total = λ d. some 65536;
  shared_static = λ k. some 0;
  set_max_dynamic = λ k n. true;
  launch = λ k grid block shared. true;
}

abbrev hcu_device : Hcu.HcuDriver
hcu_device = record {
  get_device = some 0;
  properties = λ d. some (codes "gfx906:sramecc+", 65536);
  module_load = λ path. some 21;
  module_get_function = λ m n. some 34;
  launch = λ k grid block shared. true;
}

abbrev musa_device : Musa.MusaDriver
musa_device = record {
  exists = λ path. true;
  read_file = λ path. some [];
  module_load = λ path. some 21;
  module_load_data = λ bytes. some 22;
  module_get_function = λ m n. some 34;
  launch = λ k grid block shared. true;
}

abbrev maca_device : Maca.MacaDriver
maca_device = record {
  exists = λ path. true;
  read_file = λ path. some [];
  module_load_data = λ bytes. some 22;
  module_get_function = λ m n. some 34;
  launch = λ k grid block shared. false;
}

hcu_arch : Hcu.check_arch hcu_device (codes "gfx906") ≡ ok 0
unfolding Hcu.check_arch Hcu.strip_features
hcu_arch = refl

-- The product of the grid sizes is 2 ^ 32, and nothing is launched.
maca_grid_wraps : Maca.launch_kernel maca_device 34 (65536, 65536, 1) (64, 1, 1) 0 ≡ ok tt
unfolding Maca.launch_kernel
maca_grid_wraps = refl

get_shared_memory-load_kernel_example :
    let gpu = load_gpu_metadata files library in
    let from_file = load_shared_memory files library in
    (Ix.get_shared_memory from_file dir name
        (cache_after (Ix.load_kernel ix_device gpu dir name []) [])
      ≡ Ix.get_shared_memory from_file dir name [])
    × (Hcu.get_shared_memory from_file dir name (
          cache_after (Hcu.load_kernel hcu_device (load_hcu_metadata files library) dir name []) [])
        ≡ Hcu.get_shared_memory from_file dir name [])
    × (Musa.get_shared_memory from_file dir name
          (cache_after (Musa.load_kernel musa_device gpu dir name []) [])
        ≡ Musa.get_shared_memory from_file dir name [])
    × (Maca.get_shared_memory from_file dir name
          (cache_after (Maca.load_kernel maca_device gpu dir name []) [])
        ≡ Maca.get_shared_memory from_file dir name [])
    × (Mlu.get_shared_memory from_file dir name
          (cache_after (Mlu.load_kernel card (load_mlu_metadata files library) dir name []) [])
        ≡ Mlu.get_shared_memory from_file dir name [])
get_shared_memory-load_kernel_example =
    get_shared_memory-load_kernel files library dir name ix_device hcu_device musa_device
      maca_device card [] [] [] [] []

-- The bytes of a text are not the colon.
plain : {c : ℕ} → (c == b':') ≡ false → c ≢ b':'
plain {c} h e = let t = (==_iff c b':').1 e in cc

named : Without b':' name
named = (
  plain refl,
  (
    plain refl,
    (
      plain refl,
      (
        plain refl,
        (plain refl, (plain refl, (plain refl, (plain refl, (plain refl, (plain refl, tt)))))),
      ),
    ),
  ),
)

module_key_inj_example : (dir ≡ dir) × (name ≡ name)
module_key_inj_example = module_key_inj dir dir name name named named refl

abbrev four_warps : Mlu.LaunchOptions
four_warps = record { shared_memory = 0; num_warps = pos 4; promote_shared = false }

-- A grid above the limits whose size is negative as an `int` is not refused.
too_large_passes : Mlu.launch_kernel card 2 (1, 3000000000, 1) four_warps ≡ ok tt
unfolding Mlu.launch_kernel Mlu.check_grid
too_large_passes = refl

launch_kernel-within_example :
    (Mlu.launch_kernel card 2 (100, 2, 3) four_warps ≡ ok tt)
    ↔ StartedOn card 2 (100 * 4) 2 3 four_warps
launch_kernel-within_example =
    launch_kernel-within card 2 100 2 3 4 four_warps refl (omega arith) (omega arith) (omega arith)
      (omega arith)

-- A loader that finds the second kind of binary.
abbrev loader : Loader
loader = record {
  open_binary = λ path.
      if text_eq path (codes "/cache/0a1b/add_kernel.o") then some (some (codes "bin")) else none;
  get_device = none;
  set_device = λ d. true;
  binary_register = λ bytes n vector. some 5;
  stub_address = λ stub. 9;
  function_register = λ handle stub n kernel. true;
}

abbrev npu_meta : Bytes → Bytes → NpuKernelMetadata
npu_meta d n = record {
  shared = 0;
  mix_mode = codes "aiv";
  arg_layout = [];
  workspace_size = 0;
  enable_auto_blockify = some true;
}

abbrev no_kernels : Registry
no_kernels = record { module_cache = []; registered_names = λ n. 0; func_stubs = [] }

abbrev one_kernel : Registry
one_kernel = (load_kernel loader npu_meta dir name no_kernels).1

one_stub : one_kernel.func_stubs ≡ (stub_name name 0, 9) ∷ []
unfolding load_kernel register_function register_binary read_binary find_binary emplace_stub
    find_module
one_stub = refl

-- A different address for every name.
abbrev odd_times : ℕ → ℕ → ℕ
odd_times zero a = 2 * a + 1
odd_times (suc x) a = 2 * odd_times x a

abbrev address_of : Bytes → ℕ
address_of [] = 0
address_of (c ∷ cs) = odd_times c (address_of cs)

odd_times_positive : (x a : ℕ) → 0 < odd_times x a
odd_times_positive zero a = omega arith
odd_times_positive (suc x) a = omega (arith, odd_times_positive x a)

odd_times_inj : (x y a b : ℕ) → odd_times x a ≡ odd_times y b → (x ≡ y) × (a ≡ b)
odd_times_inj zero zero a b e = (refl, omega (arith, e))
odd_times_inj zero (suc y) a b e = absurd (omega (arith, e))
odd_times_inj (suc x) zero a b e = absurd (omega (arith, e))
odd_times_inj (suc x) (suc y) a b e =
    let (same, rest) = odd_times_inj x y a b (omega (arith, e)) in (ap suc same, rest)

address_of_inj : (s t : Bytes) → address_of s ≡ address_of t → s ≡ t
address_of_inj [] [] e = refl
address_of_inj [] (d ∷ t) e = absurd (omega (arith, e, odd_times_positive d (address_of t)))
address_of_inj (c ∷ s) [] e = absurd (omega (arith, e, odd_times_positive c (address_of s)))
address_of_inj (c ∷ s) (d ∷ t) e =
    let (heads, tails) = odd_times_inj c d (address_of s) (address_of t) e in
    let rest = address_of_inj s t tails in cc

abbrev allocating : Loader
allocating = record loader { stub_address = address_of }

abbrev first_load : Registry
first_load = (load_kernel allocating npu_meta dir name no_kernels).1

none-ne-some {ℓ} : {A : Type ℓ} {a : A} → ◌≡◌ {A = Option A} none (some a) → ⊥
none-ne-some h = cc

no_kernels-Counted : Counted allocating no_kernels
unfolding find_module
no_kernels-Counted = record {
  numbered = λ stub handle e. absurd (none-ne-some e);
  stubbed = λ key m e. absurd (none-ne-some e);
  apart = λ key other m m' e e' same. absurd (none-ne-some e);
}

load_kernel-Counted_example :
    let out = load_kernel allocating npu_meta (codes "/cache/2c3d") name first_load in
    Counted allocating out.1
    × Held (module_key (codes "/cache/2c3d") name) out.1 out.0
    × ((other : Bytes)
        → find_module (stub_name other (out.1.registered_names other)) out.1.func_stubs ≡ none)
load_kernel-Counted_example =
    load_kernel-Counted allocating address_of_inj npu_meta (codes "/cache/2c3d") name first_load
      (load_kernel-Counted allocating address_of_inj npu_meta dir name no_kernels
        no_kernels-Counted).0
