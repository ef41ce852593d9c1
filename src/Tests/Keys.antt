-- ===== src/Tests/Keys.antt =====
-- Tests of CacheKey, Dtype and JitArg.
use libtriton_jit.Common.{
  ℕ, ◌≢◌, ◌++◌, true, [], ◌∷◌, Bytes, codes, none, some, ok, throw, ◌≡◌, ◌≢◌, refl, arith, ◌⊎◌,
}
use libtriton_jit.Common.Int.{pos, negsuc}
use libtriton_jit.Common.Decimal.{decimal, to_string}
use libtriton_jit.CacheKey.{
  CompileOptions, reserved_option, make_kernel_cache_key, validate_compile_options,
}
use libtriton_jit.CacheKey.Injective.{
  Has, Lacks, make_kernel_cache_key_inj, make_kernel_cache_key_total,
}
use libtriton_jit.Dtype.{
  i1, fp32, to_triton_typename, torch_dtype_name, scalar_typename, half, TritonDType,
}
use libtriton_jit.Dtype.Names.{torch_dtype_name_inj, scalar_typename_covered}
use libtriton_jit.JitArg.{
  FileSystem, JitFunctionArg, jit_function_arg, fnv1a64, hex_u64, hex_encode, signature_token,
}
use libtriton_jit.JitArg.Fingerprint.{jit_function_arg-one_byte}
use libtriton_jit.JitArg.Token.{signature_token_inj}

abbrev options : CompileOptions
options = record {
  num_warps = pos 4;
  num_stages = negsuc 0;
  extra = (codes "opt_level", codes "O2") ∷ [];
}

abbrev key : Bytes
key = codes "sig=9:*fp32,i64;dev=1:0;nw=1:4;ns=2:-1;extra=1:1;name=9:opt_level;value=2:O2"

make_key : make_kernel_cache_key (codes "*fp32,i64") (pos 0) options ≡ ok key
unfolding make_kernel_cache_key validate_compile_options decimal to_string
make_key = refl

make_kernel_cache_key_inj_example :
    (codes "*fp32,i64" ≡ codes "*fp32,i64") × (pos 0 ≡ pos 0) × (options ≡ options)
make_kernel_cache_key_inj_example =
    make_kernel_cache_key_inj (codes "*fp32,i64") (codes "*fp32,i64") (pos 0) (pos 0) options
      options key make_key make_key

make_kernel_cache_key_total_example :
    Lacks (codes "num_warps") options.extra
      × Lacks (codes "num_stages") options.extra
      × ((key : Bytes) × (make_kernel_cache_key (codes "i64") (pos 1) options ≡ ok key))
    ⊎ Has (codes "num_warps") options.extra
      × (make_kernel_cache_key (codes "i64") (pos 1) options
          ≡ throw (reserved_option (codes "num_warps")))
    ⊎ Lacks (codes "num_warps") options.extra
      × Has (codes "num_stages") options.extra
      × (make_kernel_cache_key (codes "i64") (pos 1) options
          ≡ throw (reserved_option (codes "num_stages")))
make_kernel_cache_key_total_example = make_kernel_cache_key_total (codes "i64") (pos 1) options

make_key_reserved :
    make_kernel_cache_key
      (codes "i64")
      (pos 1)
      (record options { extra = (codes "num_stages", codes "2") ∷ [] })
    ≡ throw (reserved_option (codes "num_stages"))
unfolding make_kernel_cache_key validate_compile_options
make_key_reserved = refl

torch_dtype_name_inj_example :
    (torch_dtype_name (to_triton_typename i1) ≢ none)
    × (torch_dtype_name (to_triton_typename i1) ≡ torch_dtype_name (to_triton_typename fp32)
        → i1 ≡ fp32)
torch_dtype_name_inj_example = torch_dtype_name_inj i1 fp32

half_name : scalar_typename half ≡ ok (codes "fp16")
unfolding scalar_typename
half_name = refl

scalar_typename_covered_example : (t : TritonDType) × (to_triton_typename t ≡ codes "fp16")
scalar_typename_covered_example = scalar_typename_covered half (codes "fp16") half_name

-- The empty input has the offset basis as its hash; the known hash of "a".
fnv_of_a : (fnv1a64 [] ≡ 0xcbf29ce484222325) × (fnv1a64 (codes "a") ≡ 0xaf63dc4c8601ec8c)
unfolding fnv1a64
fnv_of_a = (refl, refl)

abbrev files : FileSystem
files = record {
  absolute = λ path. some (b'/' ∷ path);
  lexically_normal = λ path. path;
  is_regular_file = λ path. true;
  read = λ path. some (codes "a");
}

abbrev sample : JitFunctionArg
sample = record {
  module_path = codes "/k.py";
  function_name = codes "f";
  source_fingerprint = codes "af63dc4c8601ec8c";
}

make_sample : jit_function_arg files (codes "k.py") (codes "f") ≡ ok sample
unfolding jit_function_arg fnv1a64 hex_u64
make_sample = refl

-- A module before and after an edit.
abbrev module_with : ℕ → Bytes
module_with c = codes "BLOCK = " ++ c ∷ codes "\n"

abbrev reading : Bytes → FileSystem
reading source = record files { read = λ path. some source }

abbrev made_with : ℕ → JitFunctionArg
made_with c = record {
  module_path = codes "/k.py";
  function_name = codes "f";
  source_fingerprint = hex_u64 (fnv1a64 (module_with c));
}

make_with :
    (c : ℕ)
    → jit_function_arg (reading (module_with c)) (codes "k.py") (codes "f") ≡ ok (made_with c)
unfolding jit_function_arg
make_with c = refl

jit_function_arg-one_byte_example :
    (made_with b'1').source_fingerprint ≢ (made_with b'2').source_fingerprint
jit_function_arg-one_byte_example =
    jit_function_arg-one_byte (reading (module_with b'1')) (reading (module_with b'2'))
      (codes "k.py") (codes "f") (codes "k.py") (codes "f") (codes "BLOCK = ") (codes "\n") b'1'
      b'2' (made_with b'1') (made_with b'2') (make_with b'1') (make_with b'2') refl refl
      (omega arith) (omega arith) (omega arith) (λ e. omega (arith, e))

sample_token : signature_token sample ≡ codes "@jit:2f6b2e7079:66:af63dc4c8601ec8c"
unfolding signature_token hex_encode
sample_token = refl

signature_token_inj_example : sample ≡ sample
signature_token_inj_example =
    signature_token_inj sample sample (omega arith) (omega arith) (omega arith) (omega arith) refl
