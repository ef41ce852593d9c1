-- ===== src/Dtype/Names.antt =====
-- The three vocabularies of element types agree.
use libtriton_jit.Common.{
  List, [], ◌∷◌, Bytes, codes, text_eq, ◌≡◌, refl, ap, Option, none, some, ok, if◌then◌else◌, ◌≢◌,
}
use libtriton_jit.Dtype.{
  TritonDType, i1, i8, i16, i32, i64, u8, u16, u32, u64, fp16, bf16, fp32, fp64, fp8e4nv, fp8e5,
  to_triton_typename, ScalarType, scalar_typename, torch_dtype_name, float, double, half, bfloat16,
  int, long, short, uint32, uint64, uint16, char, float8_e4m3fn, byte, boolean, other,
}

abbrev tags : List TritonDType
tags =
    i1 ∷ i8 ∷ i16 ∷ i32 ∷ i64 ∷ u8 ∷ u16 ∷ u32 ∷ u64 ∷ fp16 ∷ bf16 ∷ fp32 ∷ fp64 ∷ fp8e4nv ∷ fp8e5
    ∷ []

-- The tag that a vocabulary spells so.
read_tag : (TritonDType → Option Bytes) → Bytes → List TritonDType → Option TritonDType
read_tag spell name [] = none
read_tag spell name (t ∷ ts) = elim (spell t) [
  | none ↦ read_tag spell name ts
  | some s ↦ if text_eq s name then some t else read_tag spell name ts
]

abbrev triton_name : TritonDType → Option Bytes
triton_name t = some (to_triton_typename t)

abbrev torch_name : TritonDType → Option Bytes
torch_name t = torch_dtype_name (to_triton_typename t)

read-to_triton_typename :
    (t : TritonDType) → read_tag triton_name (to_triton_typename t) tags ≡ some t
unfolding read_tag to_triton_typename
read-to_triton_typename i1 = refl
read-to_triton_typename _ = refl

-- The torch spelling of a tag, as the table gives it.
spelled : TritonDType → Bytes
spelled i1 = codes "torch.bool"
spelled i8 = codes "torch.int8"
spelled i16 = codes "torch.int16"
spelled i32 = codes "torch.int32"
spelled i64 = codes "torch.int64"
spelled u8 = codes "torch.uint8"
spelled u16 = codes "torch.uint16"
spelled u32 = codes "torch.uint32"
spelled u64 = codes "torch.uint64"
spelled fp16 = codes "torch.float16"
spelled bf16 = codes "torch.bfloat16"
spelled fp32 = codes "torch.float32"
spelled fp64 = codes "torch.float64"
spelled fp8e4nv = codes "torch.float8_e4m3fn"
spelled fp8e5 = codes "torch.float8_e5m2"

torch_name-spelled : (t : TritonDType) → torch_name t ≡ some (spelled t)
unfolding torch_dtype_name to_triton_typename spelled
torch_name-spelled i1 = refl
torch_name-spelled _ = refl

read-spelled : (t : TritonDType) → read_tag (λ u. some (spelled u)) (spelled t) tags ≡ some t
unfolding read_tag spelled
read-spelled i1 = refl
read-spelled _ = refl

spelled_inj : (t u : TritonDType) → spelled t ≡ spelled u → t ≡ u
spelled_inj t u e =
    cc (read-spelled t, read-spelled u, ap (λ n. read_tag (λ u. some (spelled u)) n tags) e)

-- Different element types of a device pointer have different spellings in a signature.
pub to_triton_typename_inj :
    (t u : TritonDType) → to_triton_typename t ≡ to_triton_typename u → t ≡ u
to_triton_typename_inj t u e =
    cc (
      read-to_triton_typename t,
      read-to_triton_typename u,
      ap (λ n. read_tag triton_name n tags) e,
    )

-- Every element type of a device pointer has a torch name, and different types have different
-- torch names.
pub torch_dtype_name_inj :
    (t u : TritonDType)
    → (torch_dtype_name (to_triton_typename t) ≢ none)
      × (torch_dtype_name (to_triton_typename t) ≡ torch_dtype_name (to_triton_typename u) → t ≡ u)
torch_dtype_name_inj t u = (
  λ e. cc (torch_name-spelled t, e),
  λ e. spelled_inj t u (cc (torch_name-spelled t, torch_name-spelled u, e)),
)

-- The tag for a tensor's element type.
tag_of : ScalarType → TritonDType
tag_of float = fp32
tag_of double = fp64
tag_of half = fp16
tag_of bfloat16 = bf16
tag_of int = i32
tag_of long = i64
tag_of short = i16
tag_of uint32 = u32
tag_of uint64 = u64
tag_of uint16 = u16
tag_of char = i8
tag_of float8_e4m3fn = fp8e4nv
tag_of byte = u8
tag_of boolean = i1
tag_of other = i1

-- Whenever a tensor's element type has a spelling, some device pointer type is spelled the same,
-- so a raw pointer can always take the tensor's place in a signature.
pub scalar_typename_covered :
    (s : ScalarType) (name : Bytes)
    → scalar_typename s ≡ ok name
    → (t : TritonDType) × (to_triton_typename t ≡ name)
unfolding scalar_typename to_triton_typename tag_of
scalar_typename_covered float name h = (tag_of float, cc)
scalar_typename_covered other name h = cc
scalar_typename_covered s name h = (tag_of s, cc)
