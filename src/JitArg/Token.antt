-- ===== src/JitArg/Token.antt =====
-- What a JIT function's signature token determines, and how its parts are made.
use libtriton_jit.Common.{
  ◌≡◌, ◌≢◌, Bytes, All, All-map, separator_inj, arith, ok, is_empty, inl, inr, true, false, some,
  Option-cases,
}
use libtriton_jit.JitArg.{
  JitFunctionArg, signature_token, hex_encode, hex_u64, fnv1a64, FileSystem, jit_function_arg,
}
use libtriton_jit.JitArg.Hex.{IsHex, IsByte, hex_encode-IsHex, hex_encode_inj}

IsHex-ne-colon : (xs : Bytes) → All IsHex xs → All (λ c. c ≢ b':') xs
IsHex-ne-colon xs = All-map IsHex (λ c. c ≢ b':') xs (λ c h. omega arith)

-- Two JIT functions with the same token have the same module path, the same name and the same
-- fingerprint of the module's source, whatever bytes the path and the name hold.
pub signature_token_inj :
    (f g : JitFunctionArg)
    → All IsByte f.module_path
    → All IsByte f.function_name
    → All IsByte g.module_path
    → All IsByte g.function_name
    → signature_token f ≡ signature_token g
    → f ≡ g
unfolding signature_token
signature_token_inj f g fp fn gp gn e =
    let path =
      separator_inj b':' (hex_encode f.module_path) (hex_encode g.module_path) _ _
        (IsHex-ne-colon _ (hex_encode-IsHex f.module_path fp))
        (IsHex-ne-colon _ (hex_encode-IsHex g.module_path gp)) (cc) in
    let name =
      separator_inj b':' (hex_encode f.function_name) (hex_encode g.function_name) _ _
        (IsHex-ne-colon _ (hex_encode-IsHex f.function_name fn))
        (IsHex-ne-colon _ (hex_encode-IsHex g.function_name gn)) path.1 in
    let p = hex_encode_inj f.module_path g.module_path fp gp path.0 in
    let n = hex_encode_inj f.function_name g.function_name fn gn name.0 in
    λ i. record { module_path = p i; function_name = n i; source_fingerprint = name.1 i }

-- What the constructor promises of the object that it makes from `path` and `name`: the path is
-- normal and names a regular file, and the fingerprint is that of the file's contents.
pub record Describes (fs : FileSystem) (path name : Bytes) (f : JitFunctionArg) : Type 0 where
  pub source : Bytes
  pub absolute : Bytes
  pub resolved : fs.absolute path ≡ some absolute
  pub path_is : f.module_path ≡ fs.lexically_normal absolute
  pub is_file : fs.is_regular_file f.module_path ≡ true
  pub reads : fs.read f.module_path ≡ some source
  pub name_is : f.function_name ≡ name
  pub not_empty : is_empty name ≡ false
  pub fingerprint : f.source_fingerprint ≡ hex_u64 (fnv1a64 source)

-- An object is made only from a path that is not empty and resolves to a regular file that can be
-- read, and from a name that is not empty; it then carries the normal path, the name, and the
-- fingerprint of the file's contents.
pub jit_function_arg-Describes :
    (fs : FileSystem) (path name : Bytes) (f : JitFunctionArg)
    → jit_function_arg fs path name ≡ ok f
    → Describes fs path name f
unfolding jit_function_arg
jit_function_arg-Describes fs path name f h = elim (Option-cases (fs.absolute path)) [
  | inl e ↦ ground arith
  | inr (a, e) ↦ elim (Option-cases (fs.read (fs.lexically_normal a))) [
    | inl r ↦ ground arith
    | inr (s, r) ↦ record {
      source = s;
      absolute = a;
      resolved = e;
      path_is = ground arith;
      is_file = ground arith;
      reads = ground arith;
      name_is = ground arith;
      not_empty = ground arith;
      fingerprint = ground arith;
    }
  ]
]
