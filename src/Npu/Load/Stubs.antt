-- ===== src/Npu/Load/Stubs.antt =====
-- The stubs of the kernels that `NpuBackend::load_kernel` registers.
use libtriton_jit.Common.{
  ℕ, ◌+◌, ◌≤◌, ◌<◌, [], ◌∷◌, Bytes, text_eq, text_eq_iff, text_eq_refl, All, none, some,
  Option-cases, Bool-cases, inl, inr, Result, ok, throw, Option, Result-cases, ◌>>=◌, ◌≡◌, refl,
  sym, ap, ◌∙◌, arith,
}
use libtriton_jit.Common.Decimal.{decimal, decimal_inj, decimal-IsDigit, IsDigit}
use libtriton_jit.Backends.{find_module, module_key}
use libtriton_jit.Backends.Cache.{Without, last_separator_inj, find_module_self}
use libtriton_jit.Npu.Load.{
  Registry, Loader, LoadError, ModuleData, stub_name, add_one, emplace_stub, register_function,
  register_binary, read_binary, load_kernel,
}
use libtriton_jit.Npu.Types.{NpuKernelMetadata}

IsDigit-Without : (xs : Bytes) → All IsDigit xs → Without b'_' xs
IsDigit-Without [] h = tt
IsDigit-Without (x ∷ xs) h = (λ e. absurd (omega (arith, e, h.0)), IsDigit-Without xs h.1)

stub_name_inj : (k k' : Bytes) (n n' : ℕ) → stub_name k n ≡ stub_name k' n' → (k ≡ k') × (n ≡ n')
stub_name_inj k k' n n' e =
    let (names, numbers) =
      last_separator_inj b'_' k k' (decimal n) (decimal n')
        (IsDigit-Without (decimal n) (decimal-IsDigit n))
        (IsDigit-Without (decimal n') (decimal-IsDigit n')) e in
    (names, decimal_inj n n' numbers)

-- Every stub has the name of a kernel with a number below the count of that kernel.
abbrev pub Numbered : Registry → Type 0
Numbered r =
    (name : Bytes) (handle : ℕ)
    → find_module name r.func_stubs ≡ some handle
    → (k : Bytes) × (n : ℕ) × (name ≡ stub_name k n) × (n < r.registered_names k)

next-free :
    (r : Registry) (k : Bytes)
    → Numbered r
    → find_module (stub_name k (r.registered_names k)) r.func_stubs ≡ none
next-free r k h =
    elim (Option-cases (find_module (stub_name k (r.registered_names k)) r.func_stubs)) [
      | inl e ↦ e
      | inr (handle, e) ↦
          let (k', n, same, below) = h (stub_name k (r.registered_names k)) handle e in
          let (names, numbers) = stub_name_inj k k' (r.registered_names k) n same in
          absurd (omega (arith, below, numbers, ap r.registered_names names))
    ]

add_one-le :
    (k : Bytes) (counts : Bytes → ℕ) (other : Bytes) → counts other ≤ add_one k counts other
add_one-le k counts other = ground arith

add_one_self : (k : Bytes) (counts : Bytes → ℕ) → add_one k counts k ≡ counts k + 1
add_one_self k counts = rw (text_eq_refl k) refl

-- The registry with one more stub.
grown-Numbered :
    (r : Registry) (k : Bytes) (address : ℕ)
    → Numbered r
    → (name : Bytes) (handle : ℕ)
    → find_module name ((stub_name k (r.registered_names k), address) ∷ r.func_stubs) ≡ some handle
    → (k' : Bytes) × (n : ℕ) × (name ≡ stub_name k' n) × (n < add_one k r.registered_names k')
unfolding find_module
grown-Numbered r k address h name handle e =
    let new = stub_name k (r.registered_names k) in
    elim (Bool-cases (text_eq new name)) [
      | inl same ↦ (
        k,
        r.registered_names k,
        sym ((text_eq_iff new name).0 same),
        omega (arith, add_one_self k r.registered_names),
      )
      | inr other ↦
          let (k', n, is_name, below) = h name handle (rw (other) at e) in
          (k', n, is_name, omega (arith, below, add_one-le k r.registered_names k'))
    ]

-- What a load has in the cache when it gives this outcome.
abbrev pub Held : Bytes → Registry → Result LoadError ℕ → Type 0
Held key r (throw e) = Unit
Held key r (ok handle) =
    (m : ModuleData) × (find_module key r.module_cache ≡ some m) × (m.fn_handle ≡ handle)

some_inj {ℓ} : {A : Type ℓ} {a b : A} → ◌≡◌ {A = Option A} (some a) (some b) → a ≡ b
some_inj e = cc

module _ (loader : Loader) where
  -- The handle is the stub of a kernel with a number below the count of that kernel.
  abbrev pub IsStub : (Bytes → ℕ) → ℕ → Type 0
  IsStub counts handle =
      (k : Bytes) × (n : ℕ) × (handle ≡ loader.stub_address (stub_name k n)) × (n < counts k)

  -- Every stub is numbered, every kernel in the cache has one, and different kernels have different ones.
  pub record Counted (r : Registry) : Type 0 where
    pub numbered : Numbered r
    pub stubbed :
        (key : Bytes) (m : ModuleData)
        → find_module key r.module_cache ≡ some m
        → IsStub r.registered_names m.fn_handle
    pub apart :
        (key other : Bytes) (m m' : ModuleData)
        → find_module key r.module_cache ≡ some m
        → find_module other r.module_cache ≡ some m'
        → m.fn_handle ≡ m'.fn_handle
        → key ≡ other

  IsStub-grown :
      (k : Bytes) (counts : Bytes → ℕ) (handle : ℕ)
      → IsStub counts handle
      → IsStub (add_one k counts) handle
  IsStub-grown k counts handle (other, n, is, below) =
      (other, n, is, omega (arith, below, add_one-le k counts other))

  module _ (distinct : (a b : Bytes) → loader.stub_address a ≡ loader.stub_address b → a ≡ b) where
    -- The next stub of a kernel is none of those that are counted.
    next-new :
        (k : Bytes) (counts : Bytes → ℕ) (handle : ℕ)
        → IsStub counts handle
        → loader.stub_address (stub_name k (counts k)) ≡ handle
        → ⊥
    next-new k counts handle (other, n, is, below) same =
        let (names, numbers) =
          stub_name_inj k other (counts k) n
            (distinct (stub_name k (counts k)) (stub_name other n) (same ∙ is)) in
        absurd (omega (arith, below, numbers, ap counts names))

    module _ (r : Registry) (h : Counted r) (k key : Bytes) (new : ModuleData)
        (fresh : new.fn_handle ≡ loader.stub_address (stub_name k (r.registered_names k))) where
      cons-stubbed :
          (other : Bytes) (m : ModuleData)
          → find_module other ((key, new) ∷ r.module_cache) ≡ some m
          → IsStub (add_one k r.registered_names) m.fn_handle
      unfolding find_module
      cons-stubbed other m e = elim (Bool-cases (text_eq key other)) [
        | inl same ↦
            let is : new ≡ m = some_inj (rw (same) at e) in
            (
              k,
              r.registered_names k,
              ap (λ (x : ModuleData). x.fn_handle) (sym is) ∙ fresh,
              omega (arith, add_one_self k r.registered_names),
            )
        | inr differ ↦
            IsStub-grown k r.registered_names m.fn_handle (h.stubbed other m (rw (differ) at e))
      ]

      cons-apart :
          (one other : Bytes) (m m' : ModuleData)
          → find_module one ((key, new) ∷ r.module_cache) ≡ some m
          → find_module other ((key, new) ∷ r.module_cache) ≡ some m'
          → m.fn_handle ≡ m'.fn_handle
          → one ≡ other
      unfolding find_module
      cons-apart one other m m' e e' same = elim (Bool-cases (text_eq key one)) [
        | inl here ↦ elim (Bool-cases (text_eq key other)) [
          | inl here' ↦ sym ((text_eq_iff key one).0 here) ∙ (text_eq_iff key other).0 here'
          | inr there' ↦
              let is : new ≡ m = some_inj (rw (here) at e) in
              absurd (
                next-new k r.registered_names m'.fn_handle (h.stubbed other m' (rw (there') at e'))
                  (sym fresh ∙ ap (λ (x : ModuleData). x.fn_handle) is ∙ same))
        ]
        | inr there ↦ elim (Bool-cases (text_eq key other)) [
          | inl here' ↦
              let is : new ≡ m' = some_inj (rw (here') at e') in
              absurd (
                next-new k r.registered_names m.fn_handle (h.stubbed one m (rw (there) at e))
                  (sym fresh ∙ ap (λ (x : ModuleData). x.fn_handle) is ∙ sym same))
          | inr there' ↦ h.apart one other m m' (rw (there) at e) (rw (there') at e') same
        ]
      ]

    register_function-Counted :
        (dir k : Bytes) (metadata : NpuKernelMetadata) (handle : ℕ) (r : Registry)
        → Counted r
        → let out = register_function loader dir k metadata handle r in
          Counted out.1 × Held (module_key dir k) out.1 out.0
    unfolding register_function emplace_stub
    register_function-Counted dir k metadata handle r h =
        let name = stub_name k (r.registered_names k) in
        let address = loader.stub_address name in
        let key = module_key dir k in
        let new : ModuleData = record {
          bin_handle = handle;
          fn_handle = address;
          metadata = metadata;
        } in
        elim (Bool-cases (loader.function_register handle address name k)) [
          | inl e ↦
              rw (register_function, emplace_stub, next-free r k h.numbered, e)
                (
                  record {
                    numbered = grown-Numbered r k address h.numbered;
                    stubbed = cons-stubbed r h k key new refl;
                    apart = cons-apart r h k key new refl;
                  },
                  (new, find_module_self key new r.module_cache, refl),
                )
          | inr e ↦
              rw (register_function, emplace_stub, next-free r k h.numbered, e)
                (
                  record {
                    numbered = grown-Numbered r k address h.numbered;
                    stubbed = λ other m f.
                        IsStub-grown k r.registered_names m.fn_handle (h.stubbed other m f);
                    apart = h.apart;
                  },
                  tt,
                )
        ]

    -- On the NPU, if stubs of different names have different addresses, every stub has the name of a kernel
    -- with a number below that kernel's count, every kernel in the cache has such a stub for its handle, and no
    -- two of them have the same handle, then all this is so after a load, whether it succeeds, fails, or finds
    -- the kernel in the cache. No stub then has the name that the next registration of any kernel uses, and
    -- a handle that the load gives is that of the kernel in the cache.
    pub load_kernel-Counted :
        (load_npu_metadata : Bytes → Bytes → NpuKernelMetadata) (dir k : Bytes) (r : Registry)
        → Counted r
        → let out = load_kernel loader load_npu_metadata dir k r in
          Counted out.1
          × Held (module_key dir k) out.1 out.0
          × ((other : Bytes)
              → find_module (stub_name other (out.1.registered_names other)) out.1.func_stubs
                ≡ none)
    unfolding load_kernel
    load_kernel-Counted load_npu_metadata dir k r h =
        let out = load_kernel loader load_npu_metadata dir k r in
        let (kept, held) = go in (kept, held, λ other. next-free out.1 other kept.numbered)
      where
        go :
            let out = load_kernel loader load_npu_metadata dir k r in
            Counted out.1 × Held (module_key dir k) out.1 out.0
        go = elim (Option-cases (find_module (module_key dir k) r.module_cache)) [
          | inr (m, e) ↦ rw (load_kernel, e) (h, (m, e, refl))
          | inl e ↦
              let metadata = load_npu_metadata dir k in
              elim (Result-cases (read_binary loader dir k >>= register_binary loader metadata)) [
                | inr (x, f) ↦ rw (load_kernel, e, f) (h, tt)
                | inl (handle, f) ↦
                    rw (load_kernel, e, f) (register_function-Counted dir k metadata handle r h)
              ]
        ]
