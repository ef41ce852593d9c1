-- ===== src/Npu/Agreement/Args.antt =====
-- Every argument that the NPU can take gets a token and values that agree, so the layout that the
-- launch parses from the signature has an entry for every pointer that it is given.
use libtriton_jit.Common.{
  ℕ, suc, ◌+◌, true, false, List, [], ◌∷◌, ◌++◌, Bytes, codes, length, ltb, Result, ok, throw, ◌≡◌,
  refl, sym, ap, ◌∙◌, arith, inl, inr, append_assoc, append-nil, Result-cases, All, if◌then◌else◌,
}
use libtriton_jit.Common.Int.{ℤ, pos, negsuc}
use libtriton_jit.Common.Decimal.{to_string}
use libtriton_jit.Dtype.{TritonDType, i8, TritonDevicePtr, scalar_typename, to_triton_typename}
use libtriton_jit.Dtype.Names.{scalar_typename_covered}
use libtriton_jit.Launch.Args.{
  ArgType, non_constexpr, constexpr, ArgError, Tensor, Plain, number, tensor, device_ptr,
  bounded_ptr, nullopt, null_pointer, text, Scalar, symbolic, other_type, bool_scalar, long_scalar,
  uint64_scalar, double_scalar, Arg, plain, engaged, disengaged, scalar, jit_function, tuple,
  Format, ArgHandle, at, dtype_of, process_args, full_signature,
}
use libtriton_jit.Launch.Args.Entry.{
  Entry, hint, number_entry, pointer_token, tensor_entry, device_ptr_entry, null_entry, plain_entry,
  scalar_number, tuple_entry, entry_of,
}
use libtriton_jit.Launch.Args.Whole.{entries, tokens, values, process_args-Processed}
use libtriton_jit.Launch.Buffer.{Datum, size, get_ptrs}
use libtriton_jit.Launch.Buffer.Slots.{Stored, Holds}
use libtriton_jit.Launch.Spec.{
  npu, Number, boolean, int64, uint64, float, double, is_integral, value_of, pointer_datum,
  ptr_range_spec,
}
use libtriton_jit.Npu.Agreement.{
  Agrees, Reads, is_bool, IsInRange, IsJitFunction, pointer-Agrees, number-Agrees, decimal-Agrees,
  minus-Agrees, jit-Agrees, nullopt-Agrees, bool-Agrees,
}
use libtriton_jit.Npu.Agreement.Tuples.{tuple-Agrees}
use libtriton_jit.Npu.Signature.Split.{IsToken, split-join_sig}
use libtriton_jit.Npu.Signature.{append_tokens, parse_signature}
use libtriton_jit.Npu.Types.{NpuArgType}

-- What `fmt` documents of integers and truth values.
pub record PrintsIntegers (fmt : Format) : Type 0 where
  pub prints_true : fmt.format_number (boolean true) ≡ codes "true"
  pub prints_false : fmt.format_number (boolean false) ≡ codes "false"
  pub prints_int :
      (n : Number)
      → is_integral n ≡ true
      → is_bool n ≡ false
      → fmt.format_number n ≡ to_string (value_of n)

-- A number that the NPU launch can take for a parameter of this kind: a constexpr must be integral,
-- a runtime value must not be a `bool`.
abbrev pub IsReadyNumber : Result ArgError ArgType → Number → Type 0
IsReadyNumber (throw x) n = Unit
IsReadyNumber (ok constexpr) n = is_integral n ≡ true
IsReadyNumber (ok _) n = (is_bool n ≡ false) × IsInRange n

-- A null pointer that is a constexpr is printed as no number.
abbrev pub IsReadyNull : Result ArgError ArgType → Type 0
IsReadyNull (ok constexpr) = ⊥
IsReadyNull _ = Unit

abbrev pub IsReadyScalar : Result ArgError ArgType → Scalar → Type 0
IsReadyScalar kind? symbolic = Unit
IsReadyScalar kind? other_type = Unit
IsReadyScalar kind? (bool_scalar v) = IsReadyNumber kind? (boolean v)
IsReadyScalar kind? (long_scalar v) = Unit
IsReadyScalar kind? (uint64_scalar v) = Unit
IsReadyScalar kind? (double_scalar bits) = IsReadyNumber kind? (double bits)

-- The arguments that the NPU launch can take; a text is none.
abbrev pub IsReady : Result ArgError ArgType → Arg → Type 0
IsReady kind? (plain (number n)) = IsReadyNumber kind? n
IsReady kind? (plain (text t)) = ⊥
IsReady kind? (plain null_pointer) = IsReadyNull kind?
IsReady kind? (plain _) = Unit
IsReady kind? (engaged a) = IsReady kind? a
IsReady kind? disengaged = Unit
IsReady kind? (scalar s) = IsReadyScalar kind? s
IsReady kind? (jit_function f) = IsJitFunction f
IsReady kind? (tuple n ns) = (is_bool n ≡ false) × All (λ m. is_bool m ≡ false) ns

abbrev AgreesResult : Result ArgError Entry → Type 0
AgreesResult (ok e) = Agrees e
AgreesResult (throw x) = Unit

device_ptr_entry-Agrees :
    (kind : ArgType) (p : TritonDevicePtr) (range : Bytes)
    → range ≡ []
    → AgreesResult (device_ptr_entry npu p range kind)
unfolding device_ptr_entry pointer_token
device_ptr_entry-Agrees constexpr p range e = tt
device_ptr_entry-Agrees non_constexpr p range e = pointer-Agrees p.dtype p.value
device_ptr_entry-Agrees kind p range e = rw e (pointer-Agrees p.dtype p.value)

no_hint :
    (kind : ArgType) (tag : TritonDType) (p : ℕ)
    → Agrees (pointer_token npu (to_triton_typename tag) p kind [], pointer_datum p ∷ [])
unfolding pointer_token
no_hint non_constexpr tag p = pointer-Agrees tag p
no_hint _ tag p = pointer-Agrees tag p

-- The same for a tensor's pointer, whose name the switch over its element type gives.
tensor_token-Agrees :
    (kind : ArgType) (t : Tensor) (name : Bytes)
    → scalar_typename t.scalar_type ≡ ok name
    → Agrees (pointer_token npu name t.data_ptr kind [], pointer_datum t.data_ptr ∷ [])
unfolding pointer_token
tensor_token-Agrees kind t name e =
    let (tag, spelled) = scalar_typename_covered t.scalar_type name e in
    rw (← spelled) (no_hint kind tag t.data_ptr)

tensor_entry-Agrees : (kind : ArgType) (t : Tensor) → AgreesResult (tensor_entry npu t kind)
unfolding tensor_entry dtype_of
tensor_entry-Agrees constexpr t = tt
tensor_entry-Agrees kind t = elim (Result-cases (scalar_typename t.scalar_type)) [
  | inr (x, e) ↦ rw (e, AgreesResult) tt
  | inl (name, e) ↦ rw (e, AgreesResult) (tensor_token-Agrees kind t name e)
]

no_range : (n : ℕ) → (if ltb 0 n then ptr_range_spec npu n else []) ≡ []
unfolding ptr_range_spec
no_range n = ground arith

module _ (fmt : Format) (prints : PrintsIntegers fmt) where
  to_string-Agrees : (v : ℤ) → Agrees (to_string v, [])
  unfolding to_string
  to_string-Agrees (pos n) = decimal-Agrees n
  to_string-Agrees (negsuc n) = minus-Agrees (suc n)

  constexpr-Agrees : (n : Number) → is_integral n ≡ true → Agrees (fmt.format_number n, [])
  constexpr-Agrees (boolean true) h = rw prints.prints_true (bool-Agrees true)
  constexpr-Agrees (boolean false) h = rw prints.prints_false (bool-Agrees false)
  constexpr-Agrees (float bits) h = cc
  constexpr-Agrees (double bits) h = cc
  constexpr-Agrees n h = rw (prints.prints_int n h refl) (to_string-Agrees (value_of n))

  number_entry-Agrees :
      (kind : ArgType) (n : Number)
      → IsReadyNumber (ok kind) n
      → Agrees (number_entry npu fmt n kind)
  unfolding number_entry hint
  number_entry-Agrees constexpr n h = constexpr-Agrees n h
  number_entry-Agrees kind (boolean v) h = cc (h.0)
  number_entry-Agrees kind n h = number-Agrees n h.0 h.1

  null_entry-Agrees : (kind : ArgType) → IsReadyNull (ok kind) → Agrees (null_entry npu fmt kind)
  unfolding null_entry to_triton_typename
  null_entry-Agrees constexpr h = absurd h
  null_entry-Agrees kind h = pointer-Agrees i8 0

  plain_entry-Agrees :
      (kind? : Result ArgError ArgType) (p : Plain)
      → IsReady kind? (plain p)
      → AgreesResult (plain_entry npu fmt kind? p)
  unfolding plain_entry
  plain_entry-Agrees (ok kind) (number n) h = number_entry-Agrees kind n h
  plain_entry-Agrees (throw x) (number n) h = tt
  plain_entry-Agrees (ok kind) null_pointer h = null_entry-Agrees kind h
  plain_entry-Agrees (throw x) null_pointer h = tt
  plain_entry-Agrees kind? nullopt h = nullopt-Agrees
  plain_entry-Agrees kind? (text t) h = absurd h
  plain_entry-Agrees (throw x) p h = tt
  plain_entry-Agrees (ok kind) (tensor t) h = tensor_entry-Agrees kind t
  plain_entry-Agrees (ok kind) (device_ptr p) h = device_ptr_entry-Agrees kind p [] refl
  plain_entry-Agrees (ok kind) (bounded_ptr p) h =
      device_ptr_entry-Agrees kind p.pointer _ (no_range p.size_bytes)

  number-ready :
      (kind? : Result ArgError ArgType) (n : Number)
      → is_integral n ≡ true
      → is_bool n ≡ false
      → IsInRange n
      → IsReadyNumber kind? n
  number-ready (throw x) n i nb r = tt
  number-ready (ok constexpr) n i nb r = i
  number-ready (ok kind) n i nb r = (nb, r)

  scalar-Agrees :
      (kind? : Result ArgError ArgType) (s : Scalar)
      → IsReadyScalar kind? s
      → AgreesResult (entry_of npu fmt kind? (scalar s))
  unfolding entry_of scalar_number
  scalar-Agrees kind? symbolic h = tt
  scalar-Agrees kind? other_type h = tt
  scalar-Agrees kind? (bool_scalar v) h = plain_entry-Agrees kind? (number (boolean v)) h
  scalar-Agrees kind? (long_scalar v) h =
      plain_entry-Agrees kind? (number (int64 v)) (number-ready kind? (int64 v) refl refl tt)
  scalar-Agrees kind? (uint64_scalar v) h =
      plain_entry-Agrees kind? (number (uint64 v)) (number-ready kind? (uint64 v) refl refl tt)
  scalar-Agrees kind? (double_scalar bits) h = plain_entry-Agrees kind? (number (double bits)) h

  tuple_entry-Agrees :
      (kind : ArgType) (n : Number) (ns : List Number)
      → is_bool n ≡ false
      → All (λ m. is_bool m ≡ false) ns
      → AgreesResult (tuple_entry n ns kind)
  unfolding tuple_entry
  tuple_entry-Agrees constexpr n ns h hs = tt
  tuple_entry-Agrees kind n ns h hs = tuple-Agrees n ns h hs

  entry_of-Agrees :
      (kind? : Result ArgError ArgType) (arg : Arg)
      → IsReady kind? arg
      → AgreesResult (entry_of npu fmt kind? arg)
  unfolding entry_of
  entry_of-Agrees kind? (plain p) h = plain_entry-Agrees kind? p h
  entry_of-Agrees kind? (engaged a) h = entry_of-Agrees kind? a h
  entry_of-Agrees kind? disengaged h = nullopt-Agrees
  entry_of-Agrees kind? (scalar s) h = scalar-Agrees kind? s h
  entry_of-Agrees (ok kind) (jit_function f) h = jit-Agrees f h
  entry_of-Agrees (throw x) (jit_function f) h = tt
  entry_of-Agrees (ok kind) (tuple n ns) h = tuple_entry-Agrees kind n ns h.0 h.1
  entry_of-Agrees (throw x) (tuple n ns) h = tt

Reads-append :
    (ts us : List NpuArgType) (vs ws : List Datum)
    → Reads ts vs
    → Reads us ws
    → Reads (ts ++ us) (vs ++ ws)
Reads-append [] us [] ws h k = k
Reads-append [] us (v ∷ vs) ws h k = absurd h
Reads-append (t ∷ ts) us [] ws h k = absurd h
Reads-append (t ∷ ts) us (v ∷ vs) ws h k = (h.0, Reads-append ts us vs ws h.1 k)

-- What the parser finds of a whole list of entries.
record AllAgree (es : List Entry) : Type 0 where
  types : List NpuArgType
  tokens_ok : All IsToken (tokens es)
  parsed : (layout : List NpuArgType) → append_tokens (tokens es) layout ≡ ok (layout ++ types)
  reads : Reads types (values es)

AllAgree-cons : (e : Entry) (es : List Entry) → Agrees e → AllAgree es → AllAgree (e ∷ es)
unfolding append_tokens
AllAgree-cons e es a all = record {
  types = a.types ++ all.types;
  tokens_ok = (a.token, all.tokens_ok);
  parsed = λ layout.
      rw (a.parsed layout)
        (all.parsed (layout ++ a.types) ∙ ap ok (append_assoc layout a.types all.types));
  reads = Reads-append a.types all.types e.1 (values es) a.reads all.reads;
}

AllAgree-nil : AllAgree []
unfolding append_tokens
AllAgree-nil = record { types = []; tokens_ok = tt; parsed = λ layout. rw append-nil; reads = tt }

-- Every argument is ready for its parameter, the first of them for parameter `i`.
module _ (fmt : Format) (ssig : List ArgType) where
  abbrev pub AllReady : List Arg → ℕ → Type 0
  AllReady [] i = Unit
  AllReady (arg ∷ args) i = IsReady (at npu fmt ssig i) arg × AllReady args (i + 1)

abbrev AllAgreeResult : Result ArgError (List Entry) → Type 0
AllAgreeResult (ok es) = AllAgree es
AllAgreeResult (throw x) = Unit

module _ (fmt : Format) (prints : PrintsIntegers fmt) (ssig : List ArgType) where
  entries-AllAgree :
      (args : List Arg) (i : ℕ)
      → AllReady fmt ssig args i
      → AllAgreeResult (entries npu fmt ssig args i)
  unfolding entries
  entries-AllAgree [] i h = AllAgree-nil
  entries-AllAgree (arg ∷ args) i h =
      let ih = entries-AllAgree args (i + 1) h.1 in
      let first = entry_of-Agrees fmt prints (at npu fmt ssig i) arg h.0 in
      elim (Result-cases (entry_of npu fmt (at npu fmt ssig i) arg)) [
        | inr (x, e) ↦ rw e tt
        | inl (a, e) ↦ rw e (elim (Result-cases (entries npu fmt ssig args (i + 1))) [
          | inr (y, f) ↦ rw f tt
          | inl (es, f) ↦ rw f (AllAgree-cons a es (rw e at first) (rw f at ih))
        ])
      ]

  Reads-length : (ts : List NpuArgType) (vs : List Datum) → Reads ts vs → length ts ≡ length vs
  Reads-length [] [] h = refl
  Reads-length [] (v ∷ vs) h = absurd h
  Reads-length (t ∷ ts) [] h = absurd h
  Reads-length (t ∷ ts) (v ∷ vs) h = ap suc (Reads-length ts vs h.1)

  parsed_whole :
      (h : ArgHandle) (es : List Entry)
      → AllAgree es
      → h.signature ≡ tokens es
      → Holds h.buf (values es)
      → (types : List NpuArgType) × (parse_signature (full_signature h) ≡ ok types)
        × (length types ≡ length (get_ptrs h.buf))
        × Stored h.buf.buff 0 (get_ptrs h.buf) (values es)
        × Reads types (values es)
  unfolding parse_signature full_signature get_ptrs size
  parsed_whole h es all sig held = (
    all.types,
    rw (sig, split-join_sig (tokens es) all.tokens_ok) (all.parsed []),
    Reads-length all.types (values es) all.reads ∙ sym held.counted,
    held.stored,
    all.reads,
  )

  -- On the NPU, if every argument is one that the launch can take, then the signature that the
  -- handler writes parses, into exactly one type for each pointer that is passed on, so that the
  -- launch's check of the argument count cannot fail. The values of the arguments' entries stand at the
  -- pointers, and each type is as wide as its value, or it is `i32` and its value an `int64_t` that fits in
  -- 32 bits. Not ready are texts, constexpr floats, runtime `bool`s, and `int`s out of range.
  pub parse_signature-process_args :
      (args : List Arg) (h : ArgHandle)
      → AllReady fmt ssig args 0
      → process_args npu fmt ssig args ≡ ok h
      → (es : List Entry) × (types : List NpuArgType) × (entries npu fmt ssig args 0 ≡ ok es)
        × (parse_signature (full_signature h) ≡ ok types)
        × (length types ≡ length (get_ptrs h.buf))
        × Stored h.buf.buff 0 (get_ptrs h.buf) (values es)
        × Reads types (values es)
  parse_signature-process_args args h ready e =
      let (es, f, p) = process_args-Processed npu fmt ssig args h e in
      let all = rw f at (entries-AllAgree args 0 ready) in
      let (types, parsed, same, stored, reads) =
        parsed_whole h es all p.signature (rw append-nil at p.holds) in
      (es, types, f, parsed, same, stored, reads)
