-- ===== src/Npu/Load.antt =====
-- `NpuBackend::load_kernel`, `get_shared_memory` and `get_kernel_metadata` of
-- include/triton_jit/backends/npu_backend.h. The files and the device runtime are a parameter.
pub mod Stubs
use libtriton_jit.Common.{
  ℕ, ◌+◌, ◌%◌, ◌^◌, Bool, true, false, List, [], ◌∷◌, ◌++◌, Bytes, codes, text_eq, is_empty, length,
  Option, none, some, Result, ok, throw, ◌>>=◌, if◌then◌else◌,
}
use libtriton_jit.Common.Decimal.{decimal}
use libtriton_jit.Backends.{module_key, binary_path, find_module, shared_of}
use libtriton_jit.Npu.Types.{NpuKernelMetadata}

pub data LoadError : Type 0 where
  not_found invalid_size unreadable set_device_failed binary_refused function_refused : LoadError

-- `open_binary` is `none` where the stream is not good, and else what can be read of the file. A
-- binary is registered with its bytes, its length as a `uint32_t` and whether it is for vector cores.
-- `stub_address` is where the stub of that name was allocated.
pub record Loader : Type 0 where
  pub open_binary : Bytes → Option (Option Bytes)
  pub get_device : Option ℕ
  pub set_device : ℕ → Bool
  pub binary_register : Bytes → ℕ → Bool → Option ℕ
  pub stub_address : Bytes → ℕ
  pub function_register : ℕ → ℕ → Bytes → Bytes → Bool

pub record ModuleData : Type 0 where
  pub bin_handle : ℕ
  pub fn_handle : ℕ
  pub metadata : NpuKernelMetadata

-- The static members. A name that was never registered counts 0.
pub record Registry : Type 0 where
  pub module_cache : List (Bytes × ModuleData)
  pub registered_names : Bytes → ℕ
  pub func_stubs : List (Bytes × ℕ)

abbrev pub add_one : Bytes → (Bytes → ℕ) → Bytes → ℕ
add_one name counts other = if text_eq name other then counts other + 1 else counts other

-- `kernel_name + "_" + std::to_string(n)`
abbrev pub stub_name : Bytes → ℕ → Bytes
stub_name kernel_name n = kernel_name ++ b'_' ∷ decimal n

-- `emplace`, with the handle that is then there.
unfoldable pub emplace_stub : Bytes → ℕ → List (Bytes × ℕ) → ℕ × List (Bytes × ℕ)
emplace_stub name fresh stubs = elim (find_module name stubs) [
  | some old ↦ (old, stubs)
  | none ↦ (fresh, (name, fresh) ∷ stubs)
]

module _ (loader : Loader) where
  -- The first of the files that opens.
  unfoldable pub find_binary : Bytes → Bytes → List Bytes → Result LoadError (Option Bytes)
  find_binary dir kernel_name [] = throw not_found
  find_binary dir kernel_name (extension ∷ rest) =
      let others = find_binary dir kernel_name rest in
      elim (loader.open_binary (binary_path dir kernel_name extension)) [
        | some contents ↦ ok contents
        | none ↦ others
      ]

  unfoldable pub read_binary : Bytes → Bytes → Result LoadError Bytes
  read_binary dir kernel_name =
      find_binary dir kernel_name
        (codes ".npubin" ∷ codes ".o" ∷ codes ".ttadapter" ∷ codes ".bin" ∷ [])
      >>= λ contents. elim contents [
        | none ↦ throw unreadable
        | some bytes ↦ if is_empty bytes then throw invalid_size else ok bytes
      ]

  -- The handle of the registered binary.
  unfoldable pub register_binary : NpuKernelMetadata → Bytes → Result LoadError ℕ
  register_binary metadata bytes =
      let device_id : ℕ = elim loader.get_device [ none ↦ 0 | some device ↦ device ] in
      if loader.set_device device_id
      then elim (loader.binary_register bytes (length bytes % 2 ^ 32)
          (text_eq metadata.mix_mode (codes "aiv"))) [
            | none ↦ throw binary_refused
            | some handle ↦ ok handle
          ]
      else throw set_device_failed

  -- From the stub on. The name is counted and the stub kept even when the registration fails.
  unfoldable pub register_function :
      Bytes → Bytes → NpuKernelMetadata → ℕ → Registry → Result LoadError ℕ × Registry
  register_function dir kernel_name metadata handle r =
      let name = stub_name kernel_name (r.registered_names kernel_name) in
      let stub = emplace_stub name (loader.stub_address name) r.func_stubs in
      let counted = record r {
        registered_names = add_one kernel_name r.registered_names;
        func_stubs = stub.1;
      } in
      if loader.function_register handle stub.0 name kernel_name
      then (
        ok stub.0,
        record counted {
          module_cache =
              (
                module_key dir kernel_name,
                record { bin_handle = handle; fn_handle = stub.0; metadata = metadata },
              )
              ∷ counted.module_cache;
        },
      )
      else (throw function_refused, counted)

  unfoldable pub load_kernel :
      (Bytes → Bytes → NpuKernelMetadata) → Bytes → Bytes → Registry → Result LoadError ℕ × Registry
  load_kernel load_npu_metadata dir kernel_name r =
      elim (find_module (module_key dir kernel_name) r.module_cache) [
        | some held ↦ (ok held.fn_handle, r)
        | none ↦
            let metadata = load_npu_metadata dir kernel_name in
            elim (read_binary dir kernel_name >>= register_binary metadata) [
              | throw e ↦ (throw e, r)
              | ok handle ↦ register_function dir kernel_name metadata handle r
            ]
      ]

unfoldable pub get_shared_memory : (Bytes → Bytes → ℕ) → Bytes → Bytes → Registry → ℕ
get_shared_memory load_shared_memory dir kernel_name r =
    shared_of (λ (m : ModuleData). m.metadata.shared) (module_key dir kernel_name)
      (load_shared_memory dir kernel_name) r.module_cache

unfoldable pub get_kernel_metadata : Bytes → Bytes → Registry → Option NpuKernelMetadata
get_kernel_metadata dir kernel_name r =
    elim (find_module (module_key dir kernel_name) r.module_cache) [
      | some held ↦ some held.metadata
      | none ↦ none
    ]
