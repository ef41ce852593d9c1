-- ===== src/CacheKey.antt =====
-- The kernel cache key (include/triton_jit/jit_utils.h): the compile options, their check, and the
-- text under which a compiled kernel is stored. `std::map` is its list of pairs in key order.
pub mod Injective
use libtriton_jit.Common.{
  ℕ, Bool, true, false, ◌||◌, List, [], ◌∷◌, ◌++◌, Bytes, codes, text_eq, length, Result, ok, throw,
  ◌>>◌, throw_if, if◌then◌else◌,
}
use libtriton_jit.Common.Int.{ℤ}
use libtriton_jit.Common.Decimal.{decimal, to_string}

pub record CompileOptions : Type 0 where
  pub num_warps : ℤ
  pub num_stages : ℤ
  pub extra : List (Bytes × Bytes)

-- `std::invalid_argument`, with the option that the message names.
pub data OptionError : Type 0 where
  reserved_option : Bytes → OptionError

-- `extra.find(name) != extra.end()`
unfoldable pub has_key : Bytes → List (Bytes × Bytes) → Bool
has_key name [] = false
has_key name ((key, value) ∷ rest) = text_eq key name || has_key name rest

check_reserved : List Bytes → CompileOptions → Result OptionError (Unit {0})
check_reserved [] opts = ok tt
check_reserved (reserved ∷ rest) opts =
    throw_if (has_key reserved opts.extra) (reserved_option reserved) >> check_reserved rest opts

unfoldable pub validate_compile_options : CompileOptions → Result OptionError (Unit {0})
unfolding check_reserved has_key
validate_compile_options = check_reserved (codes "num_warps" ∷ codes "num_stages" ∷ [])

unfoldable pub append_cache_key_field : Bytes → Bytes → Bytes
append_cache_key_field key value = key ++ (decimal (length value) ++ (b':' ∷ value))

-- The loop over `opts.extra`.
append_extra : Bytes → List (Bytes × Bytes) → Bytes
append_extra key [] = key
append_extra key ((name, value) ∷ rest) =
    let named = append_cache_key_field (key ++ codes ";name=") name in
    append_extra (append_cache_key_field (named ++ codes ";value=") value) rest

key_text : Bytes → ℤ → CompileOptions → Bytes
unfolding append_extra append_cache_key_field
key_text signature device_index opts =
    let sig = append_cache_key_field (codes "sig=") signature in
    let dev = append_cache_key_field (sig ++ codes ";dev=") (to_string device_index) in
    let nw = append_cache_key_field (dev ++ codes ";nw=") (to_string opts.num_warps) in
    let ns = append_cache_key_field (nw ++ codes ";ns=") (to_string opts.num_stages) in
    let extra = append_cache_key_field (ns ++ codes ";extra=") (decimal (length opts.extra)) in
    append_extra extra opts.extra

unfoldable pub make_kernel_cache_key : Bytes → ℤ → CompileOptions → Result OptionError Bytes
unfolding key_text
make_kernel_cache_key signature device_index opts =
    validate_compile_options opts >> ok (key_text signature device_index opts)
