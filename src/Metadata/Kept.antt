-- ===== src/Metadata/Kept.antt =====
-- The parts of the NPU metadata that src/kernel_metadata.cpp reads after the shared memory.
use libtriton_jit.Common.{
  List, [], ◌∷◌, codes, text_eq, ◌&&◌, Option, none, some, Option-cases, Bool-cases, inl, inr, ◌≡◌,
  refl, ◌∙◌,
}
use libtriton_jit.Npu.Types.{NpuKernelMetadata}
use libtriton_jit.Metadata.{JsonLibrary}
use libtriton_jit.Metadata.Npu.{
  read_npu, read_shared, read_mode, read_layout, read_workspace, read_blockify, read_arg_layout,
  read_arg_info, Reading, meta_of, then_read, store, going, stopped,
}

-- A step of the reading that leaves the shared memory alone.
abbrev Keeps : (NpuKernelMetadata → Reading NpuKernelMetadata) → Type 0
Keeps f = (m : NpuKernelMetadata) → (meta_of (f m)).shared ≡ m.shared

then_read-Keeps :
    (r : Reading NpuKernelMetadata) (f : NpuKernelMetadata → Reading NpuKernelMetadata)
    → Keeps f
    → (meta_of (then_read r f)).shared ≡ (meta_of r).shared
then_read-Keeps (going m) f k = k m
then_read-Keeps (stopped m) f k = refl

store_keeps {ℓ} :
    {A : Type ℓ} (o : Option A) (m : NpuKernelMetadata) (set : A → NpuKernelMetadata)
    → ((a : A) → (set a).shared ≡ m.shared)
    → (meta_of (store o m set)).shared ≡ m.shared
store_keeps none m set h = refl
store_keeps (some a) m set h = h a

module _ {J : Type 0} (json : JsonLibrary J) where
  read_arg_info-Keeps : (arg : J) → Keeps (read_arg_info json arg)
  unfolding read_arg_info
  read_arg_info-Keeps arg m = elim (Bool-cases (json.contains arg (codes "type"))) [
    | inr e ↦ rw (read_arg_info, e) refl
    | inl e ↦ elim (Option-cases (json.get_string (json.at arg (codes "type")))) [
      | inl f ↦ rw (read_arg_info, e, f) refl
      | inr (t, f) ↦ elim (Bool-cases (text_eq t (codes "constexpr"))) [
        | inl g ↦ rw (read_arg_info, e, f, g) refl
        | inr g ↦ rw (read_arg_info, e, f, g) refl
      ]
    ]
  ]

  read_arg_layout-Keeps : (args : List J) → Keeps (read_arg_layout json args)
  unfolding read_arg_layout
  read_arg_layout-Keeps [] m = refl
  read_arg_layout-Keeps (arg ∷ args) m =
      then_read-Keeps (read_arg_info json arg m) (read_arg_layout json args)
        (read_arg_layout-Keeps args)
      ∙ read_arg_info-Keeps arg m

  read_layout-Keeps : (j : J) → Keeps (read_layout json j)
  unfolding read_layout
  read_layout-Keeps j m =
      elim (Bool-cases
        (json.contains j (codes "arg_layout") && json.is_array (json.at j (codes "arg_layout")))) [
          | inl e ↦
              rw (read_layout, e)
                (read_arg_layout-Keeps (json.elements (json.at j (codes "arg_layout"))) m)
          | inr e ↦ rw (read_layout, e) refl
        ]

  read_workspace-Keeps : (j : J) → Keeps (read_workspace json j)
  unfolding read_workspace
  read_workspace-Keeps j m = elim (Bool-cases (json.contains j (codes "workspace_size"))) [
    | inl e ↦
        rw (read_workspace, e)
          (store_keeps (json.get_size (json.at j (codes "workspace_size"))) m _ (λ n. refl))
    | inr e ↦ rw (read_workspace, e) refl
  ]

  read_blockify-Keeps : (j : J) → Keeps (read_blockify json j)
  unfolding read_blockify
  read_blockify-Keeps j m =
      let key = codes "enable_auto_blockify" in
      elim (Bool-cases (json.contains j key && json.is_boolean (json.at j key))) [
        | inl e ↦
            rw (read_blockify, e) (store_keeps (json.get_bool (json.at j key)) m _ (λ b. refl))
        | inr e ↦ rw (read_blockify, e) refl
      ]

  read_mode-Keeps : (j : J) → Keeps (read_mode json j)
  unfolding read_mode
  read_mode-Keeps j m =
      store_keeps (json.value_string j (codes "mix_mode") (codes "mix")) m _ (λ t. refl)

  -- Only the first step writes it.
  pub read_npu-shared :
      (j : J) (m : NpuKernelMetadata)
      → (meta_of (read_npu json j m)).shared ≡ (meta_of (read_shared json j m)).shared
  unfolding read_npu
  read_npu-shared j m =
      let r1 = read_shared json j m in
      let r2 = then_read r1 (read_mode json j) in
      let r3 = then_read r2 (read_blockify json j) in
      then_read-Keeps (then_read r3 (read_workspace json j)) (read_layout json j)
        (read_layout-Keeps j)
      ∙ then_read-Keeps r3 (read_workspace json j) (read_workspace-Keeps j)
      ∙ then_read-Keeps r2 (read_blockify json j) (read_blockify-Keeps j)
      ∙ then_read-Keeps r1 (read_mode json j) (read_mode-Keeps j)
