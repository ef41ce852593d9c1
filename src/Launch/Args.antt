-- ===== src/Launch/Args.antt =====
-- `ArgHandle` and the argument part of `TritonJITFunctionImpl::operator()`. The compile-time
-- dispatch on an argument's C++ type is a match on the data type `Arg`. What `fmt` prints for a
-- constexpr value is a parameter, as is the conversion from double to float.
-- The comparison of `spec(item)` with ":1", of pointers in the source, is one of texts here.
pub mod Entry
pub mod Whole
use libtriton_jit.Common.{
  ℕ, suc, ◌+◌, ◌<◌, Bool, true, false, not, ◌&&◌, ◌||◌, List, [], ◌∷◌, ◌++◌, Bytes, codes, text_eq,
  ltb, get_elem?, Option, none, some, Result, ok, throw, ◌>>=◌, ◌>>◌, throw_if, if◌then◌else◌,
}
use libtriton_jit.Common.Int.{ℤ}
use libtriton_jit.Dtype.{
  TritonDevicePtr, TritonBoundedDevicePtr, to_triton_typename, ScalarType, scalar_typename,
  TypeError, unsupported_type,
}
use libtriton_jit.JitArg.{JitFunctionArg, signature_token}
use libtriton_jit.Launch.Buffer.{ParameterBuffer, empty, push_arg, get_ptrs, Datum}
use libtriton_jit.Launch.Spec.{
  Backend, is_npu, is_hcu, is_gcu, Number, boolean, int64, uint64, float, double, is_integral,
  triton_type, value_of, equals_1, spec, ptr_spec, ptr_range_spec, narrow_type_name, datum_of,
  pointer_datum, join_sig,
}

pub data ArgType : Type 0 where
  non_constexpr specialized constexpr specialized_no_alignment : ArgType

pub data ArgError : Type 0 where
  out_of_range constexpr_tuple constexpr_pointer symbolic_scalar unsupported_scalar : ArgError
  unsupported_dtype : ArgError

pub record Tensor : Type 0 where
  pub data_ptr : ℕ
  pub scalar_type : ScalarType
  pub has_storage : Bool
  pub nbytes : ℕ

pub data Plain : Type 0 where
  number : Number → Plain
  tensor : Tensor → Plain
  device_ptr : TritonDevicePtr → Plain
  bounded_ptr : TritonBoundedDevicePtr → Plain
  nullopt : Plain
  null_pointer : Plain
  text : Bytes → Plain

-- `c10::Scalar`, by the types that `handle_scalar` tells apart.
pub data Scalar : Type 0 where
  symbolic other_type : Scalar
  bool_scalar : Bool → Scalar
  long_scalar : ℤ → Scalar
  uint64_scalar : ℕ → Scalar
  double_scalar : ℕ → Scalar

-- A tuple has at least one element, and only numbers that are not `bool` (both are checked when
-- the source is compiled).
pub data Arg : Type 0 where
  plain : Plain → Arg
  engaged : Arg → Arg
  disengaged : Arg
  scalar : Scalar → Arg
  jit_function : JitFunctionArg → Arg
  tuple : Number → List Number → Arg

pub record Format : Type 0 where
  pub format_number : Number → Bytes
  pub format_text : Bytes → Bytes
  pub format_null : Bytes
  pub to_float : ℕ → ℕ

pub record ArgHandle : Type 0 where
  pub buf : ParameterBuffer
  pub signature : List Bytes
  pub idx : ℕ

abbrev pub push : Datum → ArgHandle → ArgHandle
push v h = record h { buf = push_arg v h.buf }

abbrev pub emit : Bytes → ArgHandle → ArgHandle
emit token h = record h { signature = h.signature ++ token ∷ [] }

abbrev pub advance : ArgHandle → ArgHandle
advance h = record h { idx = h.idx + 1 }

abbrev pub is_constexpr : ArgType → Bool
is_constexpr constexpr = true
is_constexpr _ = false

abbrev pub is_specialized : ArgType → Bool
is_specialized specialized = true
is_specialized _ = false

abbrev pub pointer_range_specializable : ArgType → Bool
pointer_range_specializable specialized = true
pointer_range_specializable specialized_no_alignment = true
pointer_range_specializable _ = false

unfoldable pub dtype_of : ScalarType → Result ArgError Bytes
dtype_of s = elim (scalar_typename s) [ ok name ↦ ok name | throw e ↦ throw unsupported_dtype ]

-- `size_bytes > 0 ? optional(size_bytes) : nullopt`
extent_of : ℕ → Option ℕ
extent_of size_bytes = if ltb 0 size_bytes then some size_bytes else none

module _ (b : Backend) (fmt : Format) (ssig : List ArgType) where
  -- `arg_type.at(i)`
  unfoldable pub at : ℕ → Result ArgError ArgType
  at i = elim (get_elem? ssig i) [ none ↦ throw out_of_range | some kind ↦ ok kind ]

  handle_tensor : Tensor → ArgHandle → Result ArgError ArgHandle
  handle_tensor item h = do
    kind ← at h.idx
    throw_if (is_constexpr kind) constexpr_pointer
    let pushed = push (pointer_datum item.data_ptr) h
    dtype ← dtype_of item.scalar_type
    let specialization =
        if is_specialized kind && not (is_npu b) then ptr_spec item.data_ptr else []
    let range =
        if is_hcu b && pointer_range_specializable kind && item.has_storage
        then ptr_range_spec b item.nbytes
        else []
    ok (emit (b'*' ∷ (dtype ++ (specialization ++ range))) pushed)

  -- The range hint of an extent that may be unknown.
  range_of : Option ℕ → Bytes
  range_of none = []
  range_of (some extent) = ptr_range_spec b extent

  handle_device_ptr : TritonDevicePtr → Option ℕ → ArgHandle → Result ArgError ArgHandle
  handle_device_ptr item extent_bytes h = do
    kind ← at h.idx
    throw_if (is_constexpr kind) constexpr_pointer
    let pushed = push (pointer_datum item.value) h
    let specialization = if is_specialized kind && not (is_npu b) then ptr_spec item.value else []
    let range = if pointer_range_specializable kind then range_of extent_bytes else []
    ok (emit (b'*' ∷ (to_triton_typename item.dtype ++ (specialization ++ range))) pushed)

  handle_constexpr : Bytes → ArgHandle → ArgHandle
  handle_constexpr formatted h = emit formatted h

  handle_non_constexpr : Number → ArgHandle → ArgHandle
  handle_non_constexpr item h = emit (narrow_type_name item) (push (datum_of item) h)

  handle_specialized : Number → ArgHandle → ArgHandle
  handle_specialized item h =
      if is_integral item
      then (let specialization = if is_npu b then [] else spec (value_of item) in
          let pushed = if text_eq specialization (codes ":1") then h else push (datum_of item) h in
          emit (narrow_type_name item ++ specialization) pushed)
      else emit (narrow_type_name item) (push (datum_of item) h)

  handle_specialized_no_alignment : Number → ArgHandle → ArgHandle
  handle_specialized_no_alignment item h =
      if is_integral item
      then (let equal_to_1 = equals_1 (value_of item) && not (is_npu b) in
          let pushed = if equal_to_1 then h else push (datum_of item) h in
          emit (narrow_type_name item ++ (if equal_to_1 then codes ":1" else [])) pushed)
      else handle_non_constexpr item h

  handle_number : Number → ArgType → ArgHandle → ArgHandle
  unfolding handle_constexpr handle_non_constexpr handle_specialized handle_specialized_no_alignment
  handle_number item constexpr h = handle_constexpr (fmt.format_number item) h
  handle_number item specialized h = handle_specialized item h
  handle_number item specialized_no_alignment h = handle_specialized_no_alignment item h
  handle_number item non_constexpr h = handle_non_constexpr item h

  -- `std::nullptr_t`, which is not integral, and whose type name is "*i8".
  handle_null : ArgType → ArgHandle → ArgHandle
  unfolding handle_constexpr
  handle_null constexpr h = handle_constexpr fmt.format_null h
  handle_null _ h = emit (codes "*i8") (push (pointer_datum 0) h)

  handle_plain : Plain → ArgHandle → Result ArgError ArgHandle
  unfolding handle_tensor handle_device_ptr range_of handle_number extent_of handle_null
  handle_plain (tensor item) h = handle_tensor item h
  handle_plain (device_ptr item) h = handle_device_ptr item none h
  handle_plain (bounded_ptr item) h = handle_device_ptr item.pointer (extent_of item.size_bytes) h
  handle_plain nullopt h = ok (emit (codes "nullopt") h)
  handle_plain (text item) h = ok (handle_constexpr (fmt.format_text item) h)
  handle_plain null_pointer h = do kind ← at h.idx; ok (handle_null kind h)
  handle_plain (number item) h = do kind ← at h.idx; ok (handle_number item kind h)

  handle_arg_plain : Plain → ArgHandle → Result ArgError ArgHandle
  unfolding handle_plain
  handle_arg_plain item h = do done ← handle_plain item h; ok (advance done)

  handle_scalar : Scalar → ArgHandle → Result ArgError ArgHandle
  unfolding handle_arg_plain
  handle_scalar symbolic h = throw symbolic_scalar
  handle_scalar (bool_scalar v) h = handle_arg_plain (number (boolean v)) h
  handle_scalar (long_scalar v) h = handle_arg_plain (number (int64 v)) h
  handle_scalar (uint64_scalar v) h = handle_arg_plain (number (uint64 v)) h
  handle_scalar (double_scalar bits) h =
      handle_arg_plain (number (if is_gcu b then float (fmt.to_float bits) else double bits)) h
  handle_scalar other_type h = throw unsupported_scalar

  -- `append_element` over the elements; the text is `grouped_signature`.
  append_elements : List Number → Bytes → ArgHandle → ArgHandle
  append_elements [] grouped h = emit (grouped ++ b')' ∷ []) h
  append_elements (element ∷ rest) grouped h =
      append_elements rest (grouped ++ (b',' ∷ triton_type element)) (push (datum_of element) h)

  handle_tuple : Number → List Number → ArgHandle → Result ArgError ArgHandle
  unfolding append_elements
  handle_tuple first rest h = do
    kind ← at h.idx
    throw_if (is_constexpr kind) constexpr_tuple
    ok (advance (append_elements rest (b'(' ∷ triton_type first) (push (datum_of first) h)))

  handle_jitfunction : JitFunctionArg → ArgHandle → Result ArgError ArgHandle
  handle_jitfunction item h = do _ ← at h.idx; ok (advance (emit (signature_token item) h))

  unfoldable pub handle_arg : Arg → ArgHandle → Result ArgError ArgHandle
  unfolding handle_arg_plain handle_scalar handle_tuple handle_jitfunction
  handle_arg (engaged item) h = handle_arg item h
  handle_arg disengaged h = handle_arg_plain nullopt h
  handle_arg (scalar item) h = handle_scalar item h
  handle_arg (jit_function item) h = handle_jitfunction item h
  handle_arg (tuple first rest) h = handle_tuple first rest h
  handle_arg (plain item) h = handle_arg_plain item h

  unfoldable pub handle_args : List Arg → ArgHandle → Result ArgError ArgHandle
  handle_args [] h = ok h
  handle_args (arg ∷ args) h = handle_arg arg h >>= handle_args args

  append_global_scratch : ArgHandle → ArgHandle
  append_global_scratch h = push (pointer_datum 0) h

  -- The handler as `operator()` starts it, and the two scratch pointers behind the arguments.
  unfoldable pub process_args : List Arg → Result ArgError ArgHandle
  unfolding append_global_scratch
  process_args args = do
    h ← handle_args args (record { buf = empty; signature = []; idx = 0 })
    ok (if is_npu b then h else append_global_scratch (append_global_scratch h))

unfoldable pub full_signature : ArgHandle → Bytes
full_signature h = join_sig h.signature
