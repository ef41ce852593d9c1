-- ===== src/Overloads/Cache.antt =====
-- The cache never gives a kernel that was compiled for something else.
use libtriton_jit.Common.{
  Bool, List, [], ◌∷◌, Bytes, text_eq, text_eq_iff, text_eq_refl, Option, none, some, ok, ok_inj,
  >>=-eq-ok, ◌>>◌, ◌≡◌, refl, sym, ap, ◌∙◌, All, inl, inr, Bool-cases, Option-cases, Result-cases,
}
use libtriton_jit.Common.Int.{ℤ}
use libtriton_jit.CacheKey.{CompileOptions, make_kernel_cache_key}
use libtriton_jit.CacheKey.Injective.{make_kernel_cache_key_inj}
use libtriton_jit.Freeze.{program, refuse_if_frozen}
use libtriton_jit.Overloads.{
  frozen_miss, rethrow, find_overload, try_emplace, compile_kernel, get_keyed, get_kernel,
}

module _ {ℓ} {K : Type ℓ} (compile : Bytes → CompileOptions → ℤ → Option K) where
  -- The kernel under this key is what compiling gives for the signature, options and device of the
  -- key.
  pub record IsCompiled (pair : Bytes × K) : Type ℓ where
    pub signature : Bytes
    pub opts : CompileOptions
    pub device_index : ℤ
    pub keyed : make_kernel_cache_key signature device_index opts ≡ ok pair.0
    pub compiled : compile signature opts device_index ≡ some pair.1

  find_overload-IsCompiled :
      (key : Bytes) (kernel : K) (overloads : List (Bytes × K))
      → All IsCompiled overloads
      → find_overload compile key overloads ≡ some kernel
      → IsCompiled (key, kernel)
  unfolding find_overload
  find_overload-IsCompiled key kernel [] all h = cc
  find_overload-IsCompiled key kernel ((name, k) ∷ rest) all h =
      elim (Bool-cases (text_eq name key)) [
        | inl t ↦
            let named : name ≡ key = (text_eq_iff name key).0 t in
            let same : k ≡ kernel = cc (rw t at h) in rw (← named, ← same) all.0
        | inr f ↦ find_overload-IsCompiled key kernel rest all.1 (rw f at h)
      ]

  same_kernel :
      (s : Bytes) (o : CompileOptions) (d : ℤ) (key : Bytes) (kernel : K)
      → make_kernel_cache_key s d o ≡ ok key
      → IsCompiled (key, kernel)
      → compile s o d ≡ some kernel
  same_kernel s o d key kernel keyed c =
      let (sig, dev, opt) =
        make_kernel_cache_key_inj s c.signature d c.device_index o c.opts key keyed c.keyed in
      rw (sig, dev, opt) c.compiled

  keyed_call :
      (depth : ℤ) (capturing : Bool) (s : Bytes) (o : CompileOptions) (d : ℤ) (key : Bytes)
      (overloads : List (Bytes × K))
      → make_kernel_cache_key s d o ≡ ok key
      → get_kernel compile depth capturing s o d overloads
        ≡ get_keyed compile depth capturing s o d overloads key
  unfolding get_kernel
  keyed_call depth capturing s o d key overloads e = rw (e, get_kernel) refl

  hit :
      (depth : ℤ) (capturing : Bool) (s : Bytes) (o : CompileOptions) (d : ℤ) (key : Bytes)
      (kernel : K) (overloads : List (Bytes × K))
      → make_kernel_cache_key s d o ≡ ok key
      → find_overload compile key overloads ≡ some kernel
      → get_kernel compile depth capturing s o d overloads ≡ ok (kernel, overloads)
  unfolding get_keyed
  hit depth capturing s o d key kernel overloads e f =
      keyed_call depth capturing s o d key overloads e ∙ rw (f, get_keyed) refl

  -- What a successful call promises.
  pub record Served (s : Bytes) (o : CompileOptions) (d : ℤ) (kernel : K) (after : List (Bytes × K))
      : Type ℓ where
    pub compiled : compile s o d ≡ some kernel
    pub all_compiled : All IsCompiled after
    pub stays :
        (depth : ℤ) (capturing : Bool)
        → get_kernel compile depth capturing s o d after ≡ ok (kernel, after)

  find_overload-cons :
      (key : Bytes) (kernel : K) (rest : List (Bytes × K))
      → find_overload compile key ((key, kernel) ∷ rest) ≡ some kernel
  unfolding find_overload
  find_overload-cons key kernel rest = rw (text_eq_refl key) refl

  Served-hit :
      (s : Bytes) (o : CompileOptions) (d : ℤ) (key : Bytes) (kernel : K)
      (overloads : List (Bytes × K))
      → make_kernel_cache_key s d o ≡ ok key
      → All IsCompiled overloads
      → find_overload compile key overloads ≡ some kernel
      → Served s o d kernel overloads
  Served-hit s o d key kernel overloads e all f = record {
    compiled = same_kernel s o d key kernel e (find_overload-IsCompiled key kernel overloads all f);
    all_compiled = all;
    stays = λ depth capturing. hit depth capturing s o d key kernel overloads e f;
  }

  Served-miss :
      (depth : ℤ) (capturing : Bool) (s : Bytes) (o : CompileOptions) (d : ℤ) (key : Bytes)
      (kernel : K) (overloads after : List (Bytes × K))
      → make_kernel_cache_key s d o ≡ ok key
      → All IsCompiled overloads
      → find_overload compile key overloads ≡ none
      → (rethrow frozen_miss (refuse_if_frozen depth capturing program)
          >> compile_kernel compile s o d key overloads)
        ≡ ok (kernel, after)
      → Served s o d kernel after
  unfolding compile_kernel try_emplace
  Served-miss depth capturing s o d key kernel overloads after e all f h =
      let (_, _, made) =
        >>=-eq-ok (rethrow frozen_miss (refuse_if_frozen depth capturing program))
          (λ _. compile_kernel compile s o d key overloads) h in
      elim (Option-cases (compile s o d)) [
        | inl none_made ↦ cc (rw (none_made, compile_kernel) at made)
        | inr (fresh, c) ↦
            let both : ◌≡◌ {A = K × List (Bytes × K)} (fresh, (key, fresh) ∷ overloads)
                (kernel, after) =
              ok_inj (rw (c, f, compile_kernel, try_emplace) at made) in
            let first : fresh ≡ kernel = ap (λ (r : K × List (Bytes × K)). r.0) both in
            let second : (key, fresh) ∷ overloads ≡ after =
              ap (λ (r : K × List (Bytes × K)). r.1) both in
            let new : IsCompiled (key, fresh) = record {
              signature = s;
              opts = o;
              device_index = d;
              keyed = e;
              compiled = c;
            } in
            rw (← first, ← second)
              (Served-hit s o d key fresh ((key, fresh) ∷ overloads) e (new, all)
                (find_overload-cons key fresh overloads))
      ]

  Served-keyed :
      (depth : ℤ) (capturing : Bool) (s : Bytes) (o : CompileOptions) (d : ℤ) (key : Bytes)
      (kernel : K) (overloads after : List (Bytes × K))
      → make_kernel_cache_key s d o ≡ ok key
      → All IsCompiled overloads
      → get_keyed compile depth capturing s o d overloads key ≡ ok (kernel, after)
      → Served s o d kernel after
  unfolding get_keyed
  Served-keyed depth capturing s o d key kernel overloads after e all h =
      elim (Option-cases (find_overload compile key overloads)) [
        | inl f ↦
            Served-miss depth capturing s o d key kernel overloads after e all f
              (rw (f, get_keyed) at h)
        | inr (old, f) ↦
            let both : ◌≡◌ {A = K × List (Bytes × K)} (old, overloads) (kernel, after) =
              ok_inj (rw (f, get_keyed) at h) in
            let first : old ≡ kernel = ap (λ (r : K × List (Bytes × K)). r.0) both in
            let second : overloads ≡ after = ap (λ (r : K × List (Bytes × K)). r.1) both in
            rw (← first, ← second) (Served-hit s o d key old overloads e all f)
      ]

  -- If all kernels of the cache were compiled for what their keys stand for, then a kernel that
  -- `get_kernel` returns is the one that compiling gives for this very signature, options and
  -- device; all kernels in the cache that is left are so too; and from then on the call returns the
  -- same kernel and leaves the cache alone, frozen or not, captured or not.
  pub get_kernel-Served :
      (depth : ℤ) (capturing : Bool) (s : Bytes) (o : CompileOptions) (d : ℤ) (kernel : K)
      (overloads after : List (Bytes × K))
      → All IsCompiled overloads
      → get_kernel compile depth capturing s o d overloads ≡ ok (kernel, after)
      → Served s o d kernel after
  unfolding get_kernel
  get_kernel-Served depth capturing s o d kernel overloads after all h =
      elim (Result-cases (make_kernel_cache_key s d o)) [
        | inr (x, e) ↦ cc (rw (e, get_kernel) at h)
        | inl (key, e) ↦
            Served-keyed depth capturing s o d key kernel overloads after e all
              (sym (keyed_call depth capturing s o d key overloads e) ∙ h)
      ]
