-- ===== src/Npu/Agreement.antt =====
-- The argument handler and the NPU signature parser agree: what the parser reads out of the tokens
-- fits the values that the handler pushed.
pub mod Tuples
pub mod Args
use libtriton_jit.Common.{
  ℕ, suc, ◌+◌, ◌^◌, ◌≤◌, ◌<◌, ltb→lt, ◌⊎◌, Bool, true, false, List, [], ◌∷◌, ◌++◌, Bytes, codes,
  length, All, ◌≡◌, refl, sym, ap, ◌∙◌, arith, ok, Result, if◌then◌else◌, Bool-cases, inl, inr,
  append-nil, is_empty, text_eq, starts_with, get_or,
}
use libtriton_jit.Common.Int.{ℤ, pos, negsuc}
use libtriton_jit.Common.Decimal.{decimal, to_string, decimal-IsDigit, IsDigit, decimal-cons}
use libtriton_jit.Dtype.{
  TritonDType, i1, i8, i16, i32, i64, u8, u16, u32, u64, fp16, bf16, fp32, fp64, fp8e4nv, fp8e5,
  to_triton_typename,
}
use libtriton_jit.JitArg.{JitFunctionArg, signature_token, hex_encode}
use libtriton_jit.JitArg.Hex.{IsHex, IsByte, hex_encode-IsHex}
use libtriton_jit.Launch.Args.Entry.{Entry}
use libtriton_jit.Launch.Buffer.{Datum, little_endian}
use libtriton_jit.Launch.Spec.{
  Number, boolean, int32, uint32, int64, uint64, float, double, narrow_type_name, triton_type,
  datum_of, pointer_datum, fits_i32,
}
use libtriton_jit.Npu.Signature.Split.{
  IsToken, IsToken-plain, every, every-append, is_plain, is_closed, is_visible, trim-visible,
}
use libtriton_jit.Npu.Signature.{
  SignatureError, append_signature_token, scalar_layout, is_tuple, is_number, trim_signature_token,
}
use libtriton_jit.Npu.Types
use libtriton_jit.Npu.Types.{NpuArgType, pointer, f32, f64, get_size}

-- From -2 ^ 31 up to 2 ^ 31, that not included.
abbrev pub IsInt32 : ℤ → Type 0
IsInt32 (pos n) = n < 2 ^ 31
IsInt32 (negsuc n) = n < 2 ^ 31

-- The type is as wide as the value, or it is `i32` and the value an `int64_t` that fits in 32 bits.
abbrev pub Fits : NpuArgType → Datum → Type 0
Fits t v =
    (get_size t ≡ length v.bytes)
    ⊎ ((s : ℤ) × (t ≡ Types.i32) × IsInt32 s × (v ≡ datum_of (int64 s)))

-- One type for each value, which it fits.
abbrev pub Reads : List NpuArgType → List Datum → Type 0
Reads [] [] = Unit
Reads (t ∷ ts) (v ∷ vs) = Fits t v × Reads ts vs
Reads _ _ = ⊥

-- A type reads no more bytes than the value that it fits has.
pub Fits-le : (t : NpuArgType) (v : Datum) → Fits t v → get_size t ≤ length v.bytes
unfolding get_size datum_of little_endian
Fits-le t v (inl e) = omega (arith, e)
Fits-le t v (inr (s, is, small, value)) = rw (is, value) (omega arith)

fits_i32-IsInt32 : (s : ℤ) → fits_i32 s ≡ true → IsInt32 s
fits_i32-IsInt32 (pos n) h = ltb→lt n (2 ^ 31) h
fits_i32-IsInt32 (negsuc n) h = ltb→lt n (2 ^ 31) h

-- The parser takes the entry's token for as many runtime arguments as the entry has values.
pub record Agrees (e : Entry) : Type 0 where
  pub types : List NpuArgType
  pub token : IsToken e.0
  pub parsed : (layout : List NpuArgType) → append_signature_token e.0 layout ≡ ok (layout ++ types)
  pub reads : Reads types e.1

plain-Agrees :
    (token : Bytes) (values : List Datum) (types : List NpuArgType)
    → every is_plain token ≡ true
    → is_empty token ≡ false
    → is_tuple token ≡ false
    → scalar_layout token ≡ types
    → Reads types values
    → Agrees (token, values)
unfolding append_signature_token
plain-Agrees token values types plain ne flat layout_is reads = record {
  types = types;
  token = IsToken-plain token plain ne;
  parsed = λ layout. rw (flat, layout_is);
  reads = reads;
}

-- The token of a pointer with no hints.
pub pointer-Agrees :
    (t : TritonDType) (p : ℕ) → Agrees (b'*' ∷ (to_triton_typename t ++ []), pointer_datum p ∷ [])
unfolding to_triton_typename pointer_datum little_endian scalar_layout is_tuple every get_size
pointer-Agrees i1 p = plain-Agrees _ _ (pointer ∷ []) refl refl refl refl (inl refl, tt)
pointer-Agrees _ p = plain-Agrees _ _ (pointer ∷ []) refl refl refl refl (inl refl, tt)

abbrev pub is_bool : Number → Bool
is_bool (boolean v) = true
is_bool _ = false

-- The type that the parser reads for a number, by its narrowed name.
type_of : Number → NpuArgType
type_of (float bits) = f32
type_of (double bits) = f64
type_of (uint32 v) = Types.i32
type_of (uint64 v) = Types.i64
type_of (int32 v) = if fits_i32 v then Types.i32 else Types.i64
type_of (int64 v) = if fits_i32 v then Types.i32 else Types.i64
type_of (boolean v) = Types.i64

-- An `int` holds 32 bits.
abbrev pub IsInRange : Number → Type 0
IsInRange (int32 v) = fits_i32 v ≡ true
IsInRange _ = Unit

-- The token of a number that is passed at run time.
pub number-Agrees :
    (n : Number)
    → is_bool n ≡ false
    → IsInRange n
    → Agrees (narrow_type_name n ++ [], datum_of n ∷ [])
unfolding narrow_type_name datum_of little_endian scalar_layout is_tuple every get_size
number-Agrees (boolean v) h r = cc
number-Agrees (int32 v) h r =
    rw r (plain-Agrees _ _ (Types.i32 ∷ []) refl refl refl refl (inl refl, tt))
number-Agrees (uint32 v) h r = plain-Agrees _ _ (Types.i32 ∷ []) refl refl refl refl (inl refl, tt)
number-Agrees (uint64 v) h r = plain-Agrees _ _ (Types.i64 ∷ []) refl refl refl refl (inl refl, tt)
number-Agrees (float bits) h r = plain-Agrees _ _ (f32 ∷ []) refl refl refl refl (inl refl, tt)
number-Agrees (double bits) h r = plain-Agrees _ _ (f64 ∷ []) refl refl refl refl (inl refl, tt)
number-Agrees (int64 v) h r = elim (Bool-cases (fits_i32 v)) [
  | inl small ↦ rw small (
      plain-Agrees _ _ (Types.i32 ∷ []) refl refl refl refl
        (inr (v, refl, fits_i32-IsInt32 v small, refl), tt))
  | inr large ↦ rw large (plain-Agrees _ _ (Types.i64 ∷ []) refl refl refl refl (inl refl, tt))
]

digits-plain : (cs : Bytes) → All IsDigit cs → every is_plain cs ≡ true
unfolding every
digits-plain [] h = refl
digits-plain (c ∷ cs) h = ground (arith, digits-plain cs h.1)

-- A decimal number is a constexpr to the parser.
pub decimal-Agrees : (n : ℕ) → Agrees (decimal n, [])
unfolding scalar_layout is_tuple every
decimal-Agrees n =
    let (c, cs, e, d, ds) = decimal-cons n in
    rw e (
      plain-Agrees (c ∷ cs) [] [] (digits-plain (c ∷ cs) (d, ds)) refl (ground arith) (ground arith)
        tt)

pub minus-Agrees : (n : ℕ) → Agrees (b'-' ∷ decimal n, [])
unfolding scalar_layout is_tuple every
minus-Agrees n =
    let (c, cs, e, d, ds) = decimal-cons n in
    rw e (
      plain-Agrees (b'-' ∷ c ∷ cs) [] [] (digits-plain (c ∷ cs) (d, ds)) refl refl (ground arith)
        tt)

hex-plain : (cs : Bytes) → All IsHex cs → every is_plain cs ≡ true
unfolding every
hex-plain [] h = refl
hex-plain (c ∷ cs) h = ground (arith, hex-plain cs h.1)

-- A JIT function as the constructor makes it.
pub record IsJitFunction (f : JitFunctionArg) : Type 0 where
  pub path_bytes : All IsByte f.module_path
  pub name_bytes : All IsByte f.function_name
  pub fingerprint : All IsHex f.source_fingerprint

pub jit-Agrees : (f : JitFunctionArg) → IsJitFunction f → Agrees (signature_token f, [])
unfolding signature_token scalar_layout is_tuple
jit-Agrees f h =
    let path = hex-plain (hex_encode f.module_path) (hex_encode-IsHex f.module_path h.path_bytes) in
    let name =
      hex-plain (hex_encode f.function_name) (hex_encode-IsHex f.function_name h.name_bytes) in
    let print = hex-plain f.source_fingerprint h.fingerprint in
    plain-Agrees _ [] []
      (unfold every in
        every-append is_plain (hex_encode f.module_path) _ path
          (every-append is_plain (hex_encode f.function_name) _ name print))
      refl refl refl tt

pub nullopt-Agrees : Agrees (codes "nullopt", [])
unfolding scalar_layout is_tuple every
nullopt-Agrees = plain-Agrees _ [] [] refl refl refl refl tt

abbrev pub bool_text : Bool → Bytes
bool_text true = codes "true"
bool_text false = codes "false"

pub bool-Agrees : (v : Bool) → Agrees (bool_text v, [])
unfolding scalar_layout is_tuple every
bool-Agrees true = plain-Agrees _ [] [] refl refl refl refl tt
bool-Agrees false = plain-Agrees _ [] [] refl refl refl refl tt
