-- ===== src/Tests/Serving.antt =====
-- Tests of Freeze and Overloads.
use libtriton_jit.Common.{
  true, false, List, [], ◌∷◌, Bytes, codes, Option, some, ok, throw, ◌≡◌, refl, ltb, arith,
}
use libtriton_jit.Common.Int.{ℤ, pos, negsuc}
use libtriton_jit.Common.Decimal.{decimal, to_string}
use libtriton_jit.CacheKey.{CompileOptions, make_kernel_cache_key, validate_compile_options}
use libtriton_jit.Freeze.{
  enter_freeze, int_max, is_frozen, refuse_if_frozen, explicit_freeze, program,
}
use libtriton_jit.Freeze.Nesting.{
  Guards, none_yet, construct, destroy, depth_after, most_alive, refusal, is_frozen-depth_after,
}
use libtriton_jit.Overloads.{
  get_kernel, get_keyed, find_overload, compile_kernel, try_emplace, frozen_miss,
}
use libtriton_jit.Overloads.Cache.{Served, get_kernel-Served}

-- Two guards, one inside the other, and the inner one destroyed.
abbrev guards : Guards 1
guards = destroy (construct (construct none_yet))

is_frozen-depth_after_example :
    (depth_after guards ≡ pos 1)
    × (is_frozen (depth_after guards) ≡ ltb 0 1)
    × (refuse_if_frozen (depth_after guards) true program ≡ refusal 1 true program)
unfolding most_alive
is_frozen-depth_after_example = is_frozen-depth_after guards true program (omega arith)

-- The counter wraps.
enter_wraps : enter_freeze (pos int_max) ≡ negsuc int_max
unfolding enter_freeze
enter_wraps = refl

abbrev plain_options : CompileOptions
plain_options = record { num_warps = pos 4; num_stages = pos 3; extra = [] }

-- A compiler whose kernels are the signatures.
abbrev compile : Bytes → CompileOptions → ℤ → Option Bytes
compile signature opts device_index = some signature

abbrev served : List (Bytes × Bytes)
served = (codes "sig=3:i64;dev=1:0;nw=1:4;ns=1:3;extra=1:0", codes "i64") ∷ []

first_call :
    get_kernel compile (pos 0) false (codes "i64") plain_options (pos 0) []
    ≡ ok (codes "i64", served)
unfolding get_kernel get_keyed find_overload compile_kernel try_emplace make_kernel_cache_key
    validate_compile_options decimal to_string refuse_if_frozen is_frozen
first_call = refl

get_kernel-Served_example : Served compile (codes "i64") plain_options (pos 0) (codes "i64") served
get_kernel-Served_example =
    get_kernel-Served compile (pos 0) false (codes "i64") plain_options (pos 0) (codes "i64") []
      served tt first_call

-- A kernel that is not there is not compiled while frozen.
frozen_call :
    get_kernel compile (pos 1) true (codes "i64") plain_options (pos 0) []
    ≡ throw (frozen_miss (record { work = program; restriction = explicit_freeze }))
unfolding get_kernel get_keyed find_overload make_kernel_cache_key validate_compile_options
    refuse_if_frozen is_frozen
frozen_call = refl
