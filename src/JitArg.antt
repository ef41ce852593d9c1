-- ===== src/JitArg.antt =====
-- A JIT function passed as an argument: src/jit_function_arg.cpp. The file system is a parameter:
-- `std::filesystem::absolute`, `lexically_normal`, `is_regular_file`, and reading a file.
pub mod Fingerprint
pub mod Hex
pub mod Token
use libtriton_jit.Common.{
  ℕ, zero, suc, ◌+◌, ◌-◌, ◌*◌, ◌/◌, ◌%◌, ◌^◌, bit_xor, Bool, true, false, List, [], ◌∷◌, ◌++◌,
  Bytes, codes, is_empty, Option, none, some, Result, ok, throw, ◌>>=◌, ◌>>◌, throw_if, not,
  if◌then◌else◌, ltb,
}

abbrev pub fnv_offset : ℕ
fnv_offset = 14695981039346656037

abbrev pub fnv_prime : ℕ
fnv_prime = 1099511628211

fnv_onto : ℕ → Bytes → ℕ
fnv_onto hash [] = hash
fnv_onto hash (byte ∷ bytes) = fnv_onto (bit_xor hash byte * fnv_prime % 2 ^ 64) bytes

unfoldable pub fnv1a64 : Bytes → ℕ
unfolding fnv_onto
fnv1a64 = fnv_onto fnv_offset

-- `kHexDigits[d]`
unfoldable pub hex_digit : ℕ → ℕ
hex_digit d = if ltb d 10 then b'0' + d else b'a' + d - 10

unfoldable pub hex_encode : Bytes → Bytes
unfolding hex_digit
hex_encode [] = []
hex_encode (byte ∷ bytes) = hex_digit (byte / 16) ∷ hex_digit (byte % 16) ∷ hex_encode bytes

-- `std::hex << std::setfill('0') << std::setw(16)`: the low digit is the last.
hex_onto : ℕ → ℕ → Bytes → Bytes
hex_onto zero value out = out
hex_onto (suc n) value out = hex_onto n (value / 16) (hex_digit (value % 16) ∷ out)

unfoldable pub hex_u64 : ℕ → Bytes
unfolding hex_onto hex_digit
hex_u64 value = hex_onto 16 value []

pub record FileSystem : Type 0 where
  -- `none` is an error code
  pub absolute : Bytes → Option Bytes
  pub lexically_normal : Bytes → Bytes
  pub is_regular_file : Bytes → Bool
  -- `none` when the stream does not open
  pub read : Bytes → Option Bytes

-- The exceptions of the constructor, one for each `throw`.
pub data JitArgError : Type 0 where
  empty_path empty_name invalid_path not_a_file cannot_open : JitArgError

pub record JitFunctionArg : Type 0 where
  pub module_path : Bytes
  pub function_name : Bytes
  pub source_fingerprint : Bytes

abbrev from_option : Option Bytes → JitArgError → Result JitArgError Bytes
from_option none e = throw e
from_option (some b) e = ok b

unfoldable pub read_module_source : FileSystem → Bytes → Result JitArgError Bytes
read_module_source fs path = from_option (fs.read path) cannot_open

-- The constructor.
unfoldable pub jit_function_arg : FileSystem → Bytes → Bytes → Result JitArgError JitFunctionArg
unfolding read_module_source
jit_function_arg fs module_path function_name = do
  throw_if (is_empty module_path) empty_path
  throw_if (is_empty function_name) empty_name
  absolute ← from_option (fs.absolute module_path) invalid_path
  let path = fs.lexically_normal absolute
  throw_if (not (fs.is_regular_file path)) not_a_file
  source ← read_module_source fs path
  ok (record {
    module_path = path;
    function_name = function_name;
    source_fingerprint = hex_u64 (fnv1a64 source);
  })

unfoldable pub signature_token : JitFunctionArg → Bytes
signature_token f =
    codes "@jit:"
    ++ (hex_encode f.module_path
        ++ (b':' ∷ (hex_encode f.function_name ++ (b':' ∷ f.source_fingerprint))))
