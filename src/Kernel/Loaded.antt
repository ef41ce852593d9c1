-- ===== src/Kernel/Loaded.antt =====
-- The handle that `lazy_init_handle` and `load_handle` of include/triton_jit/triton_kernel.h keep.
use libtriton_jit.Common.{
  ℕ, Bool, Bytes, Option, none, some, Option-cases, inl, inr, ok, Result-cases, ok_inj, ◌≡◌, ap,
  ◌∙◌,
}
use libtriton_jit.Backends.Cache.{throw-ne-ok}
use libtriton_jit.Common.Int.{ℤ}
use libtriton_jit.Freeze.{program, refuse_if_frozen}
use libtriton_jit.Kernel.{BackendPolicy, LoadState, load_handle, lazy_init_handle}

module _ {S O E : Type 0} (policy : BackendPolicy S O E) (dir kernel_name : Bytes) where
  load_handle-kept :
      (k : LoadState S) (handle : ℕ)
      → (load_handle policy dir kernel_name k).0 ≡ ok handle
      → (load_handle {O = O} policy dir kernel_name k).1.handle ≡ some handle
  unfolding load_handle
  load_handle-kept k handle h =
      elim (Result-cases (policy.load_kernel dir kernel_name k.backend).0) [
        | inl (loaded, done) ↦
            rw (load_handle, done) (ap some (ok_inj (rw (load_handle, done) at h)))
        | inr (e, lost) ↦ absurd (throw-ne-ok (rw (load_handle, lost) at h))
      ]

  pub lazy_init_handle-kept :
      (depth : ℤ) (capturing : Bool) (k : LoadState S) (handle : ℕ)
      → (lazy_init_handle policy dir kernel_name depth capturing k).0 ≡ ok handle
      → (lazy_init_handle policy dir kernel_name depth capturing k).1.handle ≡ some handle
  unfolding lazy_init_handle
  lazy_init_handle-kept depth capturing k handle h = elim (Option-cases k.handle) [
    | inr (old, there) ↦
        rw (lazy_init_handle, there) (there ∙ ap some (ok_inj (rw (lazy_init_handle, there) at h)))
    | inl new ↦ elim (Result-cases (refuse_if_frozen depth capturing program)) [
      | inr (e, frozen) ↦ absurd (throw-ne-ok (rw (lazy_init_handle, new, frozen) at h))
      | inl (u, free) ↦
          rw (lazy_init_handle, new, free)
            (load_handle-kept k handle (rw (lazy_init_handle, new, free) at h))
    ]
  ]

held :
    {S O E : Type 0} (policy : BackendPolicy S O E) (dir kernel_name : Bytes) (depth : ℤ)
    (capturing : Bool) (backend : S) (handle : ℕ) (o : Option ℕ)
    → o ≡ some handle
    → lazy_init_handle policy dir kernel_name depth capturing
        (record { handle = o; backend = backend })
      ≡ (ok handle, record { handle = o; backend = backend })
unfolding lazy_init_handle
held policy dir kernel_name depth capturing backend handle none e = absurd cc
held policy dir kernel_name depth capturing backend handle (some old) e =
    let same : old ≡ handle = cc in
    ap (λ n. (ok n, record { handle = some old; backend = backend })) same

-- Once a kernel has been loaded, nothing is loaded and nothing is refused: from then on, frozen or not,
-- captured or not, and whatever the backend would do, the kernel has the same handle, and neither it nor
-- the backend changes.
pub lazy_init_handle-again :
    {S O E : Type 0} (policy later : BackendPolicy S O E) (dir kernel_name : Bytes)
    (depth depth' : ℤ) (capturing capturing' : Bool) (k : LoadState S) (handle : ℕ)
    → (lazy_init_handle policy dir kernel_name depth capturing k).0 ≡ ok handle
    → let after = (lazy_init_handle policy dir kernel_name depth capturing k).1 in
      lazy_init_handle later dir kernel_name depth' capturing' after ≡ (ok handle, after)
unfolding lazy_init_handle
lazy_init_handle-again policy later dir kernel_name depth depth' capturing capturing' k handle h =
    let after = (lazy_init_handle policy dir kernel_name depth capturing k).1 in
    held later dir kernel_name depth' capturing' after.backend handle after.handle
      (lazy_init_handle-kept policy dir kernel_name depth capturing k handle h)
