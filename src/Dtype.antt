-- ===== src/Dtype.antt =====
-- Element types and their spellings: include/triton_jit/device_ptr.h (`TritonDType`,
-- `to_triton_typename`, `triton_dtype_of`, the `device_ptr` overloads), the overload of
-- `to_triton_typename` for `c10::ScalarType` in include/triton_jit/jit_utils.h, and
-- `torch_dtype_name` of src/tuned_config.cpp.
pub mod Names
use Prim.Native.String.{String}
use libtriton_jit.Common.{
  ℕ, ◌==◌, ◌%◌, ◌^◌, Bool, true, false, List, [], ◌∷◌, Bytes, codes, text_eq, Option, none, some,
  Result, ok, throw, if◌then◌else◌,
}

pub data TritonDType : Type 0 where
  i1 i8 i16 i32 i64 u8 u16 u32 u64 fp16 bf16 fp32 fp64 fp8e4nv fp8e5 : TritonDType

unfoldable pub to_triton_typename : TritonDType → Bytes
to_triton_typename i1 = codes "i1"
to_triton_typename i8 = codes "i8"
to_triton_typename i16 = codes "i16"
to_triton_typename i32 = codes "i32"
to_triton_typename i64 = codes "i64"
to_triton_typename u8 = codes "u8"
to_triton_typename u16 = codes "u16"
to_triton_typename u32 = codes "u32"
to_triton_typename u64 = codes "u64"
to_triton_typename fp16 = codes "fp16"
to_triton_typename bf16 = codes "bf16"
to_triton_typename fp32 = codes "fp32"
to_triton_typename fp64 = codes "fp64"
to_triton_typename fp8e4nv = codes "fp8e4nv"
to_triton_typename fp8e5 = codes "fp8e5"

-- The tensor element types that the switch of jit_utils.h names, and all others as one.
pub data ScalarType : Type 0 where
  float double half bfloat16 int long short uint32 uint64 uint16 char float8_e4m3fn byte :
      ScalarType
  boolean other : ScalarType

-- `std::runtime_error("<unsupported_type>")`
pub data TypeError : Type 0 where
  unsupported_type : TypeError

unfoldable pub scalar_typename : ScalarType → Result TypeError Bytes
scalar_typename float = ok (codes "fp32")
scalar_typename double = ok (codes "fp64")
scalar_typename half = ok (codes "fp16")
scalar_typename bfloat16 = ok (codes "bf16")
scalar_typename int = ok (codes "i32")
scalar_typename long = ok (codes "i64")
scalar_typename short = ok (codes "i16")
scalar_typename uint32 = ok (codes "u32")
scalar_typename uint64 = ok (codes "u64")
scalar_typename uint16 = ok (codes "u16")
scalar_typename char = ok (codes "i8")
scalar_typename float8_e4m3fn = ok (codes "fp8e4nv")
scalar_typename byte = ok (codes "u8")
scalar_typename boolean = ok (codes "i1")
scalar_typename other = throw unsupported_type

-- The C++ types that `triton_dtype_of` is asked about; an integer by its width in bytes.
pub data ElementType : Type 0 where
  cpp_bool cpp_float cpp_double cpp_long_double : ElementType
  signed_of unsigned_of : ℕ → ElementType

-- `compute()`; `none` is a `static_assert` that fails.
unfoldable pub triton_dtype_of : ElementType → Option TritonDType
triton_dtype_of cpp_bool = some i1
triton_dtype_of cpp_float = some fp32
triton_dtype_of cpp_double = some fp64
triton_dtype_of (signed_of size) =
    if size == 1
    then some i8
    else if size == 2
    then some i16
    else if size == 4
    then some i32
    else if size == 8
    then some i64
    else none
triton_dtype_of (unsigned_of size) =
    if size == 1
    then some u8
    else if size == 2
    then some u16
    else if size == 4
    then some u32
    else if size == 8
    then some u64
    else none
triton_dtype_of cpp_long_double = none

pub record TritonDevicePtr : Type 0 where
  pub value : ℕ
  pub dtype : TritonDType

-- `device_ptr(T*)`, `device_ptr<Elem>(T*)` and `device_ptr<Elem>(uintptr_t)` differ in where the
-- element type comes from.
pub device_ptr : ElementType → ℕ → Option TritonDevicePtr
device_ptr element p = elim (triton_dtype_of element) [
  | none ↦ none
  | some t ↦ some (record { value = p; dtype = t })
]

pub record TritonBoundedDevicePtr : Type 0 where
  pub pointer : TritonDevicePtr
  pub size_bytes : ℕ

-- `std::uint64_t` for the extent.
unfoldable pub with_pointer_range : TritonDevicePtr → ℕ → TritonBoundedDevicePtr
with_pointer_range pointer size_bytes = record {
  pointer = pointer;
  size_bytes = size_bytes % 2 ^ 64;
}

-- `kTable`
abbrev dtype_table : List (Bytes × Bytes)
dtype_table =
    (codes "fp16", codes "torch.float16")
    ∷ (codes "bf16", codes "torch.bfloat16")
    ∷ (codes "fp32", codes "torch.float32")
    ∷ (codes "fp64", codes "torch.float64")
    ∷ (codes "i1", codes "torch.bool")
    ∷ (codes "i8", codes "torch.int8")
    ∷ (codes "i16", codes "torch.int16")
    ∷ (codes "i32", codes "torch.int32")
    ∷ (codes "i64", codes "torch.int64")
    ∷ (codes "u8", codes "torch.uint8")
    ∷ (codes "u16", codes "torch.uint16")
    ∷ (codes "u32", codes "torch.uint32")
    ∷ (codes "u64", codes "torch.uint64")
    ∷ (codes "fp8e4nv", codes "torch.float8_e4m3fn")
    ∷ (codes "fp8e5", codes "torch.float8_e5m2")
    ∷ (codes "fp8e4b15", codes "torch.float8_e4m3fnuz")
    ∷ (codes "fp8e5b16", codes "torch.float8_e5m2fnuz")
    ∷ []

find_name : Bytes → List (Bytes × Bytes) → Option Bytes
find_name name [] = none
find_name name ((triton, torch) ∷ rest) =
    if text_eq name triton then some torch else find_name name rest

unfoldable pub torch_dtype_name : Bytes → Option Bytes
unfolding find_name
torch_dtype_name triton_dtype = find_name triton_dtype dtype_table
