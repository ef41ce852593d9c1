-- ===== src/Launch/Args/Entry.antt =====
-- What one argument contributes, with no state: its token in the signature and the values that go
-- to the kernel. The handler appends just that.
use libtriton_jit.Common.{
  ℕ, ◌+◌, not, ◌&&◌, List, [], ◌∷◌, ◌++◌, Bytes, codes, text_eq, ltb, map, Result, ok, throw, ◌>>=◌,
  ◌>>◌, throw_if, if◌then◌else◌, ◌≡◌, refl, ap, arith, inl, inr, append_assoc, append-nil,
  Result-cases,
}
use libtriton_jit.Dtype.{TritonDevicePtr, to_triton_typename}
use libtriton_jit.JitArg.{signature_token}
use libtriton_jit.Launch.Buffer.{Datum, push_all}
use libtriton_jit.Launch.Spec.{
  Backend, is_npu, is_hcu, is_gcu, Number, boolean, int64, uint64, float, double, is_integral,
  triton_type, value_of, equals_1, spec, ptr_spec, ptr_range_spec, narrow_type_name, datum_of,
  pointer_datum,
}
use libtriton_jit.Launch.Args.{
  ArgType, specialized, constexpr, specialized_no_alignment, ArgError, constexpr_tuple,
  constexpr_pointer, symbolic_scalar, unsupported_scalar, Tensor, Plain, number, tensor, device_ptr,
  bounded_ptr, nullopt, null_pointer, text, Scalar, symbolic, other_type, bool_scalar, long_scalar,
  uint64_scalar, double_scalar, Arg, plain, engaged, disengaged, scalar, jit_function, tuple,
  Format, ArgHandle, push, advance, at, dtype_of, handle_arg, is_constexpr, is_specialized,
  pointer_range_specializable, append_elements, handle_number, handle_null, handle_plain,
}

abbrev pub Entry : Type 0
Entry = Bytes × List Datum

-- A handler that has taken in the entry.
unfoldable pub extend : Entry → ArgHandle → ArgHandle
extend (token, values) h = record {
  buf = push_all values h.buf;
  signature = h.signature ++ token ∷ [];
  idx = h.idx + 1;
}

unfoldable pub elements_text : List Number → Bytes
elements_text [] = b')' ∷ []
elements_text (element ∷ rest) = b',' ∷ (triton_type element ++ elements_text rest)

unfoldable pub tuple_entry : Number → List Number → ArgType → Result ArgError Entry
tuple_entry first rest kind = do
  throw_if (is_constexpr kind) constexpr_tuple
  ok (b'(' ∷ (triton_type first ++ elements_text rest), map datum_of (first ∷ rest))

module _ (b : Backend) where
  -- The specialisation hint behind a number's type name.
  unfoldable pub hint : Number → ArgType → Bytes
  hint item specialized = if is_integral item && not (is_npu b) then spec (value_of item) else []
  hint item specialized_no_alignment =
      if is_integral item && not (is_npu b) && equals_1 (value_of item) then codes ":1" else []
  hint item _ = []

  unfoldable pub number_entry : Format → Number → ArgType → Entry
  unfolding hint
  number_entry fmt item constexpr = (fmt.format_number item, [])
  number_entry fmt item kind = (
    narrow_type_name item ++ hint item kind,
    if text_eq (hint item kind) (codes ":1") then [] else datum_of item ∷ [],
  )

  unfoldable pub pointer_token : Bytes → ℕ → ArgType → Bytes → Bytes
  pointer_token dtype address kind range =
      b'*'
      ∷ (dtype
          ++ ((if is_specialized kind && not (is_npu b) then ptr_spec address else [])
              ++ (if pointer_range_specializable kind then range else [])))

  unfoldable pub tensor_entry : Tensor → ArgType → Result ArgError Entry
  tensor_entry item kind = do
    throw_if (is_constexpr kind) constexpr_pointer
    dtype ← dtype_of item.scalar_type
    ok (
      pointer_token dtype item.data_ptr kind
          (if is_hcu b && item.has_storage then ptr_range_spec b item.nbytes else []),
      pointer_datum item.data_ptr ∷ [],
    )

  unfoldable pub device_ptr_entry : TritonDevicePtr → Bytes → ArgType → Result ArgError Entry
  device_ptr_entry item range kind = do
    throw_if (is_constexpr kind) constexpr_pointer
    ok (
      pointer_token (to_triton_typename item.dtype) item.value kind range,
      pointer_datum item.value ∷ [],
    )

  unfoldable pub null_entry : Format → ArgType → Entry
  null_entry fmt constexpr = (fmt.format_null, [])
  null_entry fmt _ = (codes "*i8", pointer_datum 0 ∷ [])

  unfoldable pub plain_entry : Format → Result ArgError ArgType → Plain → Result ArgError Entry
  unfolding tensor_entry device_ptr_entry null_entry
  plain_entry fmt kind? (number item) = do kind ← kind?; ok (number_entry fmt item kind)
  plain_entry fmt kind? (tensor item) = kind? >>= tensor_entry item
  plain_entry fmt kind? (device_ptr item) = kind? >>= device_ptr_entry item []
  plain_entry fmt kind? (bounded_ptr item) =
      kind?
      >>= device_ptr_entry item.pointer
          (if ltb 0 item.size_bytes then ptr_range_spec b item.size_bytes else [])
  plain_entry fmt kind? null_pointer = do kind ← kind?; ok (null_entry fmt kind)
  plain_entry fmt kind? nullopt = ok (codes "nullopt", [])
  plain_entry fmt kind? (text item) = ok (fmt.format_text item, [])

  unfoldable pub scalar_number : Format → Scalar → Result ArgError Number
  scalar_number fmt symbolic = throw symbolic_scalar
  scalar_number fmt other_type = throw unsupported_scalar
  scalar_number fmt (bool_scalar v) = ok (boolean v)
  scalar_number fmt (long_scalar v) = ok (int64 v)
  scalar_number fmt (uint64_scalar v) = ok (uint64 v)
  scalar_number fmt (double_scalar bits) =
      ok (if is_gcu b then float (fmt.to_float bits) else double bits)

  unfoldable pub entry_of : Format → Result ArgError ArgType → Arg → Result ArgError Entry
  unfolding plain_entry scalar_number tuple_entry
  entry_of fmt kind? (plain item) = plain_entry fmt kind? item
  entry_of fmt kind? (engaged item) = entry_of fmt kind? item
  entry_of fmt kind? disengaged = ok (codes "nullopt", [])
  entry_of fmt kind? (scalar item) = do v ← scalar_number fmt item; plain_entry fmt kind? (number v)
  entry_of fmt kind? (jit_function item) = do _ ← kind?; ok (signature_token item, [])
  entry_of fmt kind? (tuple first rest) = kind? >>= tuple_entry first rest

module _ (b : Backend) (fmt : Format) (ssig : List ArgType) where
  handle_number-entry :
      (item : Number) (kind : ArgType) (h : ArgHandle)
      → advance (handle_number b fmt ssig item kind h) ≡ extend (number_entry b fmt item kind) h
  unfolding handle_number number_entry hint extend push_all
  handle_number-entry item constexpr h = refl
  handle_number-entry item kind h = ground (arith, append-nil (narrow_type_name item))

  handle_null-entry :
      (kind : ArgType) (h : ArgHandle)
      → advance (handle_null b fmt ssig kind h) ≡ extend (null_entry b fmt kind) h
  unfolding handle_null null_entry extend push_all
  handle_null-entry constexpr h = refl
  handle_null-entry kind h = refl

  handle_plain-entry :
      (item : Plain) (h : ArgHandle)
      → (handle_plain b fmt ssig item h >>= λ d. ok (advance d))
        ≡ (plain_entry b fmt (at b fmt ssig h.idx) item >>= λ e. ok (extend e h))
  unfolding handle_plain plain_entry pointer_token extend push_all
  handle_plain-entry (number item) h = elim (Result-cases (at b fmt ssig h.idx)) [
    | inl (kind, e) ↦ rw e (ap ok (handle_number-entry item kind h))
    | inr (x, e) ↦ rw e
  ]
  handle_plain-entry null_pointer h = elim (Result-cases (at b fmt ssig h.idx)) [
    | inl (kind, e) ↦ rw e (ap ok (handle_null-entry kind h))
    | inr (x, e) ↦ rw e
  ]
  handle_plain-entry nullopt h = refl
  handle_plain-entry (text item) h = refl
  handle_plain-entry item h = ground arith

  append_elements-entry :
      (rest : List Number) (grouped : Bytes) (h : ArgHandle)
      → append_elements b fmt ssig rest grouped h ≡ record {
        buf = push_all (map datum_of rest) h.buf;
        signature = h.signature ++ (grouped ++ elements_text rest) ∷ [];
        idx = h.idx;
      }
  unfolding append_elements elements_text push_all
  append_elements-entry [] grouped h = refl
  append_elements-entry (element ∷ rest) grouped h = rw (
    append_elements-entry rest (grouped ++ (b',' ∷ triton_type element))
        (push (datum_of element) h),
    append_assoc,
  )

  handle_tuple-entry :
      (first : Number) (rest : List Number) (kind : ArgType) (h : ArgHandle)
      → (throw_if (is_constexpr kind) constexpr_tuple
          >> ok (
              advance (
                append_elements b fmt ssig rest
                  (b'(' ∷ triton_type first)
                  (push (datum_of first) h))))
        ≡ (tuple_entry first rest kind >>= λ e. ok (extend e h))
  unfolding extend push_all tuple_entry
  handle_tuple-entry first rest constexpr h = refl
  handle_tuple-entry first rest kind h =
      rw (append_elements-entry rest (b'(' ∷ triton_type first) (push (datum_of first) h))

  -- Handling one argument is: find its entry, which depends only on the argument and on the kind of
  -- its parameter, append the token to the signature, push the values in order, and go on to the
  -- next parameter; it throws just what finding the entry throws.
  pub handle_arg-entry :
      (arg : Arg) (h : ArgHandle)
      → handle_arg b fmt ssig arg h
        ≡ (entry_of b fmt (at b fmt ssig h.idx) arg >>= λ e. ok (extend e h))
  unfolding handle_arg entry_of
  handle_arg-entry (engaged item) h = handle_arg-entry item h
  handle_arg-entry (plain item) h = handle_plain-entry item h
  handle_arg-entry disengaged h = handle_plain-entry nullopt h
  handle_arg-entry (scalar symbolic) h = refl
  handle_arg-entry (scalar other_type) h = refl
  handle_arg-entry (scalar (bool_scalar v)) h = handle_plain-entry (number (boolean v)) h
  handle_arg-entry (scalar (long_scalar v)) h = handle_plain-entry (number (int64 v)) h
  handle_arg-entry (scalar (uint64_scalar v)) h = handle_plain-entry (number (uint64 v)) h
  handle_arg-entry (scalar (double_scalar bits)) h = handle_plain-entry (number _) h
  handle_arg-entry (jit_function item) h = unfold extend push_all in ground arith
  handle_arg-entry (tuple first rest) h = elim (Result-cases (at b fmt ssig h.idx)) [
    | inl (kind, e) ↦ rw e (handle_tuple-entry first rest kind h)
    | inr (x, e) ↦ rw e
  ]
