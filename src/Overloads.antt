-- ===== src/Overloads.antt =====
-- The compiled kernels of a function: `TritonJITFunctionImpl::get_kernel` of
-- src/triton_jit_function.cpp. Compiling, which calls Python, is a parameter: a function of what it
-- is given, `none` when it raises. `overloads_` is a list of pairs, the newest first; one thread runs
-- at a time, so the lock is not shown.
pub mod Cache
use libtriton_jit.Common.{
  ℕ, Bool, true, false, List, [], ◌∷◌, Bytes, text_eq, Option, none, some, Result, ok, throw, ◌>>=◌,
  ◌>>◌, throw_if, if◌then◌else◌,
}
use libtriton_jit.Common.Int.{ℤ}
use libtriton_jit.CacheKey.{CompileOptions, OptionError, make_kernel_cache_key}
use libtriton_jit.Freeze.{FrozenMissError, program, refuse_if_frozen}

pub data KernelError : Type 0 where
  option_error : OptionError → KernelError
  frozen_miss : FrozenMissError → KernelError
  python_error : KernelError

-- An exception that goes on to the caller of `get_kernel`.
abbrev pub rethrow {ℓ κ} :
    {E : Type κ} {A : Type ℓ} → (E → KernelError) → Result E A → Result KernelError A
rethrow wrap (ok a) = ok a
rethrow wrap (throw e) = throw (wrap e)

module _ {ℓ} {K : Type ℓ} (compile : Bytes → CompileOptions → ℤ → Option K) where
  -- `overloads_.find(key)`
  unfoldable pub find_overload : Bytes → List (Bytes × K) → Option K
  find_overload key [] = none
  find_overload key ((name, kernel) ∷ rest) =
      if text_eq name key then some kernel else find_overload key rest

  -- `try_emplace`: a kernel that is there already stays.
  unfoldable pub try_emplace : Bytes → K → List (Bytes × K) → K × List (Bytes × K)
  try_emplace key kernel overloads = elim (find_overload key overloads) [
    | some old ↦ (old, overloads)
    | none ↦ (kernel, (key, kernel) ∷ overloads)
  ]

  unfoldable pub compile_kernel :
      Bytes
      → CompileOptions
      → ℤ
      → Bytes
      → List (Bytes × K)
      → Result KernelError (K × List (Bytes × K))
  compile_kernel signature opts device_index key overloads =
      elim (compile signature opts device_index) [
        | none ↦ throw python_error
        | some kernel ↦ ok (try_emplace key kernel overloads)
      ]

  -- The call once its key is made.
  unfoldable pub get_keyed :
      ℤ
      → Bool
      → Bytes
      → CompileOptions
      → ℤ
      → List (Bytes × K)
      → Bytes
      → Result KernelError (K × List (Bytes × K))
  get_keyed depth capturing signature opts device_index overloads key =
      elim (find_overload key overloads) [
        | some kernel ↦ ok (kernel, overloads)
        | none ↦
            rethrow frozen_miss (refuse_if_frozen depth capturing program)
            >> compile_kernel signature opts device_index key overloads
      ]

  -- `depth` and `capturing` are what `refuse_if_frozen` reads.
  unfoldable pub get_kernel :
      ℤ
      → Bool
      → Bytes
      → CompileOptions
      → ℤ
      → List (Bytes × K)
      → Result KernelError (K × List (Bytes × K))
  get_kernel depth capturing signature opts device_index overloads =
      rethrow option_error (make_kernel_cache_key signature device_index opts)
      >>= get_keyed depth capturing signature opts device_index overloads
