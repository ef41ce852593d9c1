-- ===== src/Tuned/Config.antt =====
-- `TunedValue`, `TunedConfig` and its getters. The conversions between `double` and `int64_t` are a
-- parameter; a `double` is its bit pattern.
pub mod First
use libtriton_jit.Common.{
  ℕ, Bool, true, false, not, List, [], ◌∷◌, ◌++◌, Bytes, text_eq, Option, none, some, ◌≡◌, refl,
  ◌==◌, All, ◌⊎◌, inl, inr, Bool-cases, if◌then◌else◌, append-nil,
}
use libtriton_jit.Common.Int.{ℤ, pos, negsuc}
use libtriton_jit.CacheKey.{CompileOptions}

pub data TunedValue : Type 0 where
  i64 : ℤ → TunedValue
  bool : Bool → TunedValue
  f64 : ℕ → TunedValue
  str : Bytes → TunedValue

pub record TunedConfig : Type 0 where
  pub num_warps : ℤ
  pub num_stages : ℤ
  pub extra : List (Bytes × Bytes)
  pub kwargs : List (Bytes × TunedValue)

-- The defaults of the members.
abbrev pub default_config : TunedConfig
default_config = record { num_warps = pos 4; num_stages = pos 3; extra = []; kwargs = [] }

unfoldable pub to_compile_options : TunedConfig → CompileOptions
to_compile_options c = record {
  num_warps = c.num_warps;
  num_stages = c.num_stages;
  extra = c.extra;
}

-- `static_cast` between `double` and `int64_t`.
pub record Casts : Type 0 where
  pub to_i64 : ℕ → ℤ
  pub to_f64 : ℤ → ℕ

abbrev pub f64_one : ℕ
f64_one = 0x3ff0000000000000

unfoldable pub has : Bytes → List (Bytes × TunedValue) → Bool
has name [] = false
has name ((key, value) ∷ rest) = if text_eq key name then true else has name rest

abbrev pub as_i64 : Casts → ℤ → TunedValue → ℤ
as_i64 casts fallback (i64 i) = i
as_i64 casts fallback (bool b) = if b then pos 1 else pos 0
as_i64 casts fallback (f64 d) = casts.to_i64 d
as_i64 casts fallback (str s) = fallback

unfoldable pub get_i64 : Casts → Bytes → ℤ → List (Bytes × TunedValue) → ℤ
get_i64 casts name fallback [] = fallback
get_i64 casts name fallback ((key, value) ∷ rest) =
    if not (text_eq key name) then get_i64 casts name fallback rest else as_i64 casts fallback value

-- i != 0
abbrev pub is_nonzero : ℤ → Bool
is_nonzero (pos n) = not (n == 0)
is_nonzero (negsuc n) = true

abbrev pub as_bool : Bool → TunedValue → Bool
as_bool fallback (bool b) = b
as_bool fallback (i64 i) = is_nonzero i
as_bool fallback (f64 d) = fallback
as_bool fallback (str s) = fallback

unfoldable pub get_bool : Bytes → Bool → List (Bytes × TunedValue) → Bool
get_bool name fallback [] = fallback
get_bool name fallback ((key, value) ∷ rest) =
    if not (text_eq key name) then get_bool name fallback rest else as_bool fallback value

abbrev pub as_f64 : Casts → ℕ → TunedValue → ℕ
as_f64 casts fallback (f64 d) = d
as_f64 casts fallback (i64 i) = casts.to_f64 i
as_f64 casts fallback (bool b) = if b then f64_one else 0
as_f64 casts fallback (str s) = fallback

unfoldable pub get_f64 : Casts → Bytes → ℕ → List (Bytes × TunedValue) → ℕ
get_f64 casts name fallback [] = fallback
get_f64 casts name fallback ((key, value) ∷ rest) =
    if not (text_eq key name) then get_f64 casts name fallback rest else as_f64 casts fallback value

abbrev pub as_str : TunedValue → Option Bytes
as_str (str s) = some s
as_str _ = none

unfoldable pub get_str : Bytes → List (Bytes × TunedValue) → Option Bytes
get_str name [] = none
get_str name ((key, value) ∷ rest) = if text_eq key name then as_str value else get_str name rest
