-- ===== src/Tuned/Key.antt =====
-- The key strategies: `parse_key_strategy`, `key_strategy_name`, `pow2_ceil`, `ceil_div_32` and
-- `normalize_dim` of src/tuned_config.cpp. `int64_t` is ℤ with the wrap-around written where an
-- operation may leave the 64 bits.
pub mod Power
pub mod Normalize
use libtriton_jit.Common.{
  ℕ, zero, suc, ◌+◌, ◌-◌, ◌*◌, ◌/◌, ◌^◌, Bool, true, false, ◌||◌, Bytes, codes, text_eq, is_empty,
  leb, ltb, ◌==◌, Option, none, some, if◌then◌else◌,
}
use libtriton_jit.Common.Int.{ℤ, pos, negsuc, neg_ℕ, wrap64}

pub data KeyStrategy : Type 0 where
  default log align32 align32_ceil : KeyStrategy

unfoldable pub parse_key_strategy : Bytes → Option KeyStrategy
parse_key_strategy name =
    if is_empty name || (text_eq name (codes "default") || text_eq name (codes "None"))
    then some default
    else if text_eq name (codes "log")
    then some log
    else if text_eq name (codes "align32")
    then some align32
    else if text_eq name (codes "align32_ceil")
    then some align32_ceil
    else none

unfoldable pub key_strategy_name : KeyStrategy → Bytes
key_strategy_name default = codes "default"
key_strategy_name log = codes "log"
key_strategy_name align32 = codes "align32"
key_strategy_name align32_ceil = codes "align32_ceil"

-- `64 - __builtin_clzll(n)`, the number of binary digits; the first argument bounds it.
unfoldable pub bit_width : ℕ → ℕ → ℕ
bit_width zero n = 0
bit_width (suc bound) n = let rest = bit_width bound (n / 2) in if n == 0 then 0 else suc rest

unfoldable pub pow2_ceil : ℤ → ℤ
unfolding bit_width
pow2_ceil (negsuc n) = pos 1
pow2_ceil (pos n) =
    if leb n 1
    then pos 1
    else (let bits = bit_width 64 (n - 1) in if leb 63 bits then pos n else pos (2 ^ bits))

-- -value
abbrev pub negate : ℤ → ℤ
negate (pos n) = neg_ℕ n
negate (negsuc n) = wrap64 (pos (suc n))

-- value / 32, truncated towards zero
abbrev pub quot_32 : ℤ → ℤ
quot_32 (pos n) = pos (n / 32)
quot_32 (negsuc n) = neg_ℕ (suc n / 32)

-- value * 32
abbrev pub times_32 : ℤ → ℤ
times_32 (pos n) = wrap64 (pos (n * 32))
times_32 (negsuc n) = wrap64 (neg_ℕ (suc n * 32))

unfoldable pub ceil_div_32 : ℤ → ℤ
ceil_div_32 (pos n) = quot_32 (wrap64 (pos (n + 31)))
ceil_div_32 (negsuc n) = negate (quot_32 (negate (negsuc n)))

unfoldable pub normalize_dim : KeyStrategy → ℤ → ℤ
normalize_dim default value = value
normalize_dim log (negsuc n) = negsuc n
normalize_dim log (pos n) = if n == 0 then pos n else pow2_ceil (pos n)
normalize_dim align32 (negsuc n) = negsuc n
normalize_dim align32 (pos n) =
    if n == 0 then pos 0 else if ltb n 32 then pow2_ceil (pos n) else times_32 (ceil_div_32 (pos n))
normalize_dim align32_ceil value = times_32 (ceil_div_32 value)
