-- ===== src/Metadata/Shared.antt =====
-- Every reader of the metadata reads the same amount of shared memory.
use libtriton_jit.Common.{
  ℕ, false, Bytes, codes, Option, none, some, Option-cases, inl, inr, ◌⊎◌, ◌≡◌, refl, ap, ◌∙◌,
}
use libtriton_jit.Common.Int.{pos}
use libtriton_jit.Metadata.{
  read_arch, JsonLibrary, json_path, load_gpu_metadata, load_hcu_metadata, load_mlu_metadata,
  load_shared_memory, read_gpu, read_hcu, read_mlu, MluKernelMetadata,
}
use libtriton_jit.Metadata.Npu.{load_npu_metadata, npu_defaults, read_shared}
use libtriton_jit.Metadata.Kept.{read_npu-shared}

none-ne-some {ℓ} : {A : Type ℓ} {a : A} → ◌≡◌ {A = Option A} none (some a) → ⊥
none-ne-some h = cc

abbrev pub map_shared : Option MluKernelMetadata → Option ℕ
map_shared none = none
map_shared (some m) = some m.shared

module _ {J : Type 0} (open_file : Bytes → Option Bytes) (json : JsonLibrary J) where
  gpu-shared :
      (dir name : Bytes)
      → (load_gpu_metadata open_file json dir name).shared
        ≡ load_shared_memory open_file json dir name
  unfolding load_gpu_metadata load_shared_memory read_gpu
  gpu-shared dir name = elim (Option-cases (open_file (json_path dir name))) [
    | inl e ↦ rw (load_gpu_metadata, load_shared_memory, e) refl
    | inr (text, e) ↦ elim (Option-cases (json.parse text)) [
      | inl f ↦ rw (load_gpu_metadata, load_shared_memory, e, f) refl
      | inr (j, f) ↦ elim (Option-cases (json.value_uint j (codes "shared") 0)) [
        | inl g ↦ rw (load_gpu_metadata, load_shared_memory, e, f, read_gpu, g) refl
        | inr (n, g) ↦ rw (load_gpu_metadata, load_shared_memory, e, f, read_gpu, g) refl
      ]
    ]
  ]

  hcu-shared :
      (dir name : Bytes)
      → (load_hcu_metadata open_file json dir name).shared
        ≡ load_shared_memory open_file json dir name
  unfolding load_hcu_metadata load_shared_memory read_hcu
  hcu-shared dir name = elim (Option-cases (open_file (json_path dir name))) [
    | inl e ↦ rw (load_hcu_metadata, load_shared_memory, e) refl
    | inr (text, e) ↦ elim (Option-cases (json.parse text)) [
      | inl f ↦ rw (load_hcu_metadata, load_shared_memory, e, f) refl
      | inr (j, f) ↦ elim (Option-cases (json.value_uint j (codes "shared") 0)) [
        | inl g ↦ rw (load_hcu_metadata, load_shared_memory, e, f, read_hcu, g) refl
        | inr (n, g) ↦ rw (load_hcu_metadata, load_shared_memory, e, f, read_hcu, g) refl
      ]
    ]
  ]

  read_mlu-shared :
      (j : J) (m : MluKernelMetadata)
      → read_mlu json j ≡ some m
      → json.value_uint j (codes "shared") 0 ≡ some m.shared
  unfolding read_mlu
  read_mlu-shared j m h = elim (Option-cases (json.value_uint j (codes "shared") 0)) [
    | inl e ↦ absurd (none-ne-some (rw (read_mlu, e) at h))
    | inr (n, e) ↦ elim (Option-cases (json.value_int j (codes "num_warps") (pos 1))) [
      | inl f ↦ absurd (none-ne-some (rw (read_mlu, e, f) at h))
      | inr (w, f) ↦ elim (Option-cases (json.value_bool j (codes "promote_shared") false)) [
        | inl g ↦ absurd (none-ne-some (rw (read_mlu, e, f, g) at h))
        | inr (b, g) ↦ elim (Option-cases (read_arch json j)) [
          | inl k ↦ absurd (none-ne-some (rw (read_mlu, e, f, g, k) at h))
          | inr (a, k) ↦
              e
              ∙ ap (λ (o : Option MluKernelMetadata). map_shared o) (rw (read_mlu, e, f, g, k) at h)
        ]
      ]
    ]
  ]

module _ {J : Type 0} (open_file : Bytes → Option Bytes) (json : JsonLibrary J) where
  npu-shared :
      (dir name : Bytes)
      → (load_npu_metadata open_file json dir name).shared
        ≡ load_shared_memory open_file json dir name
  unfolding load_npu_metadata load_shared_memory read_shared
  npu-shared dir name = elim (Option-cases (open_file (json_path dir name))) [
    | inl e ↦ rw (load_npu_metadata, load_shared_memory, e) refl
    | inr (text, e) ↦ elim (Option-cases (json.parse text)) [
      | inl f ↦ rw (load_npu_metadata, load_shared_memory, e, f) refl
      | inr (j, f) ↦ elim (Option-cases (json.value_uint j (codes "shared") 0)) [
        | inl g ↦
            rw
              (
                load_npu_metadata,
                load_shared_memory,
                e,
                f,
                read_npu-shared json j npu_defaults,
                read_shared,
                g,
              )
              refl
        | inr (n, g) ↦
            rw
              (
                load_npu_metadata,
                load_shared_memory,
                e,
                f,
                read_npu-shared json j npu_defaults,
                read_shared,
                g,
              )
              refl
      ]
    ]
  ]

  pub mlu-shared :
      (dir name : Bytes) (m : MluKernelMetadata)
      → load_mlu_metadata open_file json dir name ≡ some m
      → m.shared ≡ load_shared_memory open_file json dir name
  unfolding load_mlu_metadata load_shared_memory
  mlu-shared dir name m h = elim (Option-cases (open_file (json_path dir name))) [
    | inl e ↦
        let k : ◌≡◌ {A = Option ℕ} (some 0) (some m.shared) =
          ap map_shared (rw (load_mlu_metadata, e) at h) in
        rw (load_shared_memory, e) cc
    | inr (text, e) ↦ elim (Option-cases (json.parse text)) [
      | inl f ↦ absurd (none-ne-some (rw (load_mlu_metadata, e, f) at h))
      | inr (j, f) ↦
          rw
            (
              load_shared_memory,
              e,
              f,
              read_mlu-shared open_file json j m (rw (load_mlu_metadata, e, f) at h),
            )
            refl
    ]
  ]

  -- Whatever the file holds, whether it opens or parses and wherever the reading of it stops, the
  -- metadata of a kernel have the shared memory that `load_shared_memory` gives, on every backend; on the
  -- MLU that is so or the reading throws.
  pub load_shared_memory-metadata :
      (dir name : Bytes)
      → let n = load_shared_memory open_file json dir name in
        ((load_gpu_metadata open_file json dir name).shared ≡ n)
        × ((load_hcu_metadata open_file json dir name).shared ≡ n)
        × ((load_npu_metadata open_file json dir name).shared ≡ n)
        × ((map_shared (load_mlu_metadata open_file json dir name) ≡ none)
            ⊎ (map_shared (load_mlu_metadata open_file json dir name) ≡ some n))
  load_shared_memory-metadata dir name = (
    gpu-shared open_file json dir name,
    hcu-shared open_file json dir name,
    npu-shared dir name,
    elim (Option-cases (load_mlu_metadata open_file json dir name)) [
      | inl lost ↦ inl (ap map_shared lost)
      | inr (m, read) ↦ inr (ap map_shared read ∙ ap some (mlu-shared dir name m read))
    ],
  )
