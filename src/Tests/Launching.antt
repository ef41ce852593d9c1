-- ===== src/Tests/Launching.antt =====
-- Tests of Launch and of the NPU signature parser.
use libtriton_jit.Common.{
  ℕ, true, false, List, [], ◌∷◌, Bytes, codes, length, Result, ok, throw, ◌>>=◌, ◌≡◌, refl, arith,
  All,
}
use libtriton_jit.Common.Int.{pos, negsuc}
use libtriton_jit.Common.Decimal.{to_string}
use libtriton_jit.Dtype.{float, scalar_typename}
use libtriton_jit.Launch.Args.{
  ArgType, non_constexpr, specialized, constexpr, ArgError, number, tensor, Arg, plain, tuple,
  Format, ArgHandle, at, handle_arg, handle_args, process_args, full_signature, dtype_of,
}
use libtriton_jit.Launch.Args.Entry.{Entry, extend, entry_of, handle_arg-entry}
use libtriton_jit.Launch.Args.Whole.{values, entries, Processed, process_args-Processed}
use libtriton_jit.Launch.Buffer.{
  Datum, push_arg, push_all, empty, get_ptrs, get_next_multiple_of, resize, memcpy_at,
  little_endian,
}
use libtriton_jit.Launch.Buffer.Slots.{Holds, Stored, push_all-Holds}
use libtriton_jit.Launch.Spec.{
  Backend, cuda, npu, Number, boolean, int32, int64, double, is_integral, value_of, join_sig, spec,
  ptr_spec, ptr_range_spec, narrow_type_name, triton_type, datum_of, pointer_datum,
}
use libtriton_jit.Npu.Agreement.Args.{PrintsIntegers, AllReady, parse_signature-process_args}
use libtriton_jit.Npu.Agreement.{Reads, is_bool}
use libtriton_jit.Npu.Signature.Split.{IsToken, split-join_sig, is_closed}
use libtriton_jit.Npu.Signature.{split_signature_tokens, trim_signature_token, parse_signature}
use libtriton_jit.Npu.Types.{NpuArgType}

abbrev print_number : Number → Bytes
print_number (boolean true) = codes "true"
print_number (boolean false) = codes "false"
print_number n = to_string (value_of n)

abbrev pub format : Format
format = record {
  format_number = print_number;
  format_text = λ t. t;
  format_null = codes "0x0";
  to_float = λ bits. bits;
}

pub prints : PrintsIntegers format
prints = record { prints_true = refl; prints_false = refl; prints_int = print_int }
  where
    print_int :
        (n : Number)
        → is_integral n ≡ true
        → is_bool n ≡ false
        → print_number n ≡ to_string (value_of n)
    print_int (boolean v) h k = cc
    print_int (int32 v) h k = refl
    print_int _ h k = refl

abbrev pub kinds : List ArgType
kinds = specialized ∷ specialized ∷ constexpr ∷ non_constexpr ∷ []

abbrev pub arguments : List Arg
arguments =
    plain
      (tensor (record { data_ptr = 4096; scalar_type = float; has_storage = true; nbytes = 64 }))
    ∷ plain (number (int64 (pos 1)))
    ∷ plain (number (int32 (pos 128)))
    ∷ tuple (int32 (pos 2)) (double 0 ∷ [])
    ∷ []

-- The signature and the pointers of a launch.
abbrev pub launch_view : ArgHandle → Bytes × List ℕ
launch_view h = (full_signature h, get_ptrs h.buf)

abbrev get_ok : Result ArgError ArgHandle → ArgHandle
get_ok (ok h) = h
get_ok (throw x) = record { buf = empty; signature = []; idx = 0 }

abbrev pub handled : Backend → ArgHandle
handled b = get_ok (process_args b format kinds arguments)

-- On CUDA the second argument, equal to 1, is left to the compiler.
cuda_signature :
    launch_view (handled cuda) ≡ (codes "*fp32:16,i32:1,128,(i32,fp64)", 0 ∷ 8 ∷ 16 ∷ 24 ∷ 32 ∷ [])
unfolding process_args handle_args handle_arg at full_signature join_sig get_ptrs push_arg empty
    get_next_multiple_of resize memcpy_at little_endian spec ptr_spec ptr_range_spec
    narrow_type_name triton_type datum_of pointer_datum scalar_typename dtype_of to_string
cuda_signature = refl

pub npu_signature :
    launch_view (handled npu) ≡ (codes "*fp32,i32,128,(i32,fp64)", 0 ∷ 8 ∷ 16 ∷ 24 ∷ [])
unfolding process_args handle_args handle_arg at full_signature join_sig get_ptrs push_arg empty
    get_next_multiple_of resize memcpy_at little_endian spec ptr_spec ptr_range_spec
    narrow_type_name triton_type datum_of pointer_datum scalar_typename dtype_of to_string
npu_signature = refl

cuda_succeeds : process_args cuda format kinds arguments ≡ ok (handled cuda)
unfolding process_args handle_args handle_arg at dtype_of scalar_typename spec
cuda_succeeds = refl

pub npu_succeeds : process_args npu format kinds arguments ≡ ok (handled npu)
unfolding process_args handle_args handle_arg at dtype_of scalar_typename
npu_succeeds = refl

pub ready : AllReady format kinds arguments 0
unfolding at
ready = (tt, ((refl, tt), (refl, ((refl, (refl, tt)), tt))))

parse_signature-process_args_example :
    (es : List Entry) × (types : List NpuArgType) × (entries npu format kinds arguments 0 ≡ ok es)
    × (parse_signature (full_signature (handled npu)) ≡ ok types)
    × (length types ≡ length (get_ptrs (handled npu).buf))
    × Stored (handled npu).buf.buff 0 (get_ptrs (handled npu).buf) (values es)
    × Reads types (values es)
parse_signature-process_args_example =
    parse_signature-process_args format prints kinds arguments (handled npu) ready npu_succeeds

process_args-Processed_example :
    (es : List Entry) × (entries cuda format kinds arguments 0 ≡ ok es)
    × Processed cuda arguments es (handled cuda)
process_args-Processed_example =
    process_args-Processed cuda format kinds arguments (handled cuda) cuda_succeeds

handle_arg-entry_example :
    handle_arg cuda format kinds (tuple (int32 (pos 2)) []) (handled cuda) ≡ (
      entry_of cuda format (at cuda format kinds (handled cuda).idx) (tuple (int32 (pos 2)) [])
      >>= λ e. ok (extend e (handled cuda)))
handle_arg-entry_example =
    handle_arg-entry cuda format kinds (tuple (int32 (pos 2)) []) (handled cuda)

abbrev pushed : List Datum
pushed = datum_of (boolean true) ∷ datum_of (int64 (pos 7)) ∷ datum_of (int32 (negsuc 0)) ∷ []

push_all-Holds_example : Holds (push_all pushed empty) pushed
push_all-Holds_example = push_all-Holds pushed (unfold datum_of in omega arith)

abbrev signature_tokens : List Bytes
signature_tokens = codes "*fp32" ∷ codes "(i32,(i64,i1))" ∷ codes "128" ∷ []

pointer_token : IsToken (codes "*fp32")
unfolding trim_signature_token is_closed
pointer_token = record { trimmed = refl; not_empty = refl; closed = refl }

tuple_token : IsToken (codes "(i32,(i64,i1))")
unfolding trim_signature_token is_closed
tuple_token = record { trimmed = refl; not_empty = refl; closed = refl }

constexpr_token : IsToken (codes "128")
unfolding trim_signature_token is_closed
constexpr_token = record { trimmed = refl; not_empty = refl; closed = refl }

signature_tokens-IsToken : All IsToken signature_tokens
signature_tokens-IsToken = (pointer_token, (tuple_token, (constexpr_token, tt)))

split-join_sig_example : split_signature_tokens (join_sig signature_tokens) ≡ ok signature_tokens
split-join_sig_example = split-join_sig signature_tokens signature_tokens-IsToken
