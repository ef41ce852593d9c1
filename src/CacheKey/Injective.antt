-- ===== src/CacheKey/Injective.antt =====
-- The cache key determines the signature, the device and every compile option.
use libtriton_jit.Common.{
  ℕ, List, [], ◌∷◌, ◌++◌, Bytes, codes, length, ok, throw, >>=-eq-ok, ◌≡◌, refl, sym, ◌∙◌, arith,
  All, All-map, separator_inj, ◌≢◌, append_inj, append_assoc, append-nil, Bool-cases, inl, inr, ◌⊎◌,
  true, false, text_eq, text_eq_iff, ap,
}
use libtriton_jit.Common.Int.{ℤ}
use libtriton_jit.Common.Decimal.{
  decimal, to_string, decimal_inj, decimal-IsDigit, to_string_inj, IsDigit,
}
use libtriton_jit.CacheKey.{
  CompileOptions, reserved_option, validate_compile_options, append_cache_key_field, append_extra,
  key_text, make_kernel_cache_key, has_key, check_reserved,
}

true-ne-false : true ≡ false → ⊥
true-ne-false h = cc

-- One field, in front of what follows it.
abbrev pub field : Bytes → Bytes → Bytes
field value rest = decimal (length value) ++ (b':' ∷ (value ++ rest))

decimal-ne-colon : (n : ℕ) → All (λ c. c ≢ b':') (decimal n)
decimal-ne-colon n =
    All-map IsDigit (λ c. c ≢ b':') (decimal n) (λ c h. omega arith) (decimal-IsDigit n)

pub field_inj : (v w r s : Bytes) → field v r ≡ field w s → (v ≡ w) × (r ≡ s)
field_inj v w r s e =
    let split =
      separator_inj b':' (decimal (length v)) (decimal (length w)) _ _ (decimal-ne-colon (length v))
        (decimal-ne-colon (length w)) e in
    append_inj v w r s (decimal_inj (length v) (length w) split.0) split.1

-- The options behind the key so far.
render : List (Bytes × Bytes) → Bytes
render [] = []
render ((name, value) ∷ rest) =
    codes ";name=" ++ field name (codes ";value=" ++ field value (render rest))

append_extra-render :
    (l : List (Bytes × Bytes)) (key : Bytes) → append_extra key l ≡ key ++ render l
unfolding append_extra append_cache_key_field render
append_extra-render [] key = sym (append-nil key)
append_extra-render ((name, value) ∷ rest) key = simp (append_extra-render rest, append_assoc)

render_inj : (l m : List (Bytes × Bytes)) → render l ≡ render m → l ≡ m
unfolding render
render_inj [] [] e = refl
render_inj [] ((n, v) ∷ m) e = cc
render_inj ((n, v) ∷ l) [] e = cc
render_inj ((n, v) ∷ l) ((n', v') ∷ m) e =
    let t : field n (codes ";value=" ++ field v (render l))
        ≡ field n' (codes ";value=" ++ field v' (render m)) =
      cc in
    let names = field_inj n n' _ _ t in
    let u : field v (render l) ≡ field v' (render m) = cc (names.1) in
    let values = field_inj v v' _ _ u in cc (names.0, values.0, render_inj l m values.1)

-- What stands behind the stages, the warps, the device and the signature.
abbrev behind_stages : CompileOptions → Bytes
behind_stages o = codes ";extra=" ++ field (decimal (length o.extra)) (render o.extra)

abbrev behind_warps : CompileOptions → Bytes
behind_warps o = codes ";ns=" ++ field (to_string o.num_stages) (behind_stages o)

abbrev behind_device : CompileOptions → Bytes
behind_device o = codes ";nw=" ++ field (to_string o.num_warps) (behind_warps o)

abbrev behind_signature : ℤ → CompileOptions → Bytes
behind_signature device_index o = codes ";dev=" ++ field (to_string device_index) (behind_device o)

flat : Bytes → ℤ → CompileOptions → Bytes
flat signature device_index o = codes "sig=" ++ field signature (behind_signature device_index o)

key_text-flat :
    (signature : Bytes) (device_index : ℤ) (opts : CompileOptions)
    → key_text signature device_index opts ≡ flat signature device_index opts
unfolding key_text flat
key_text-flat signature device_index opts = simp (append_extra-render, append_assoc)

flat_inj :
    (s s' : Bytes) (d d' : ℤ) (o o' : CompileOptions)
    → flat s d o ≡ flat s' d' o'
    → (s ≡ s') × (d ≡ d') × (o ≡ o')
unfolding flat
flat_inj s s' d d' o o' e =
    let sig = field_inj s s' (behind_signature d o) (behind_signature d' o') (cc) in
    let dev =
      field_inj (to_string d) (to_string d') (behind_device o) (behind_device o') (cc (sig.1)) in
    let nw =
      field_inj (to_string o.num_warps) (to_string o'.num_warps) (behind_warps o) (behind_warps o')
        (cc (dev.1)) in
    let ns =
      field_inj (to_string o.num_stages) (to_string o'.num_stages) (behind_stages o)
        (behind_stages o') (cc (nw.1)) in
    let n =
      field_inj (decimal (length o.extra)) (decimal (length o'.extra)) (render o.extra)
        (render o'.extra) (cc (ns.1)) in
    let warps = to_string_inj o.num_warps o'.num_warps nw.0 in
    let stages = to_string_inj o.num_stages o'.num_stages ns.0 in
    let extra = render_inj o.extra o'.extra n.1 in
    (
      sig.0,
      to_string_inj d d' dev.0,
      λ i. record { num_warps = warps i; num_stages = stages i; extra = extra i },
    )

-- Two launches that get the same cache key have the same signature, the same device, and the
-- same compile options, extra switches included. So a cached kernel is never that of a launch
-- that differs in any of them.
pub make_kernel_cache_key_inj :
    (s s' : Bytes) (d d' : ℤ) (o o' : CompileOptions) (key : Bytes)
    → make_kernel_cache_key s d o ≡ ok key
    → make_kernel_cache_key s' d' o' ≡ ok key
    → (s ≡ s') × (d ≡ d') × (o ≡ o')
unfolding make_kernel_cache_key
make_kernel_cache_key_inj s s' d d' o o' key h h' =
    let (u, v, e) = >>=-eq-ok (validate_compile_options o) (λ _. ok (key_text s d o)) h in
    let (u', v', e') = >>=-eq-ok (validate_compile_options o') (λ _. ok (key_text s' d' o')) h' in
    let same : key_text s d o ≡ key_text s' d' o' = cc (e, e') in
    flat_inj s s' d d' o o' (sym (key_text-flat s d o) ∙ same ∙ key_text-flat s' d' o')

-- A switch of the name is among the pairs, or none is.
abbrev pub Has : Bytes → List (Bytes × Bytes) → Type 0
Has name extra =
    (before : List (Bytes × Bytes)) × (value : Bytes) × (after : List (Bytes × Bytes)) × (extra
      ≡ before ++ (name, value) ∷ after)

abbrev pub Lacks : Bytes → List (Bytes × Bytes) → Type 0
Lacks name = All (λ pair. pair.0 ≢ name)

has_key-cases :
    (name : Bytes) (extra : List (Bytes × Bytes))
    → (has_key name extra ≡ true) × Has name extra ⊎ (has_key name extra ≡ false) × Lacks name extra
unfolding has_key
has_key-cases name [] = inr (refl, tt)
has_key-cases name ((key, value) ∷ rest) = elim (Bool-cases (text_eq key name)) [
  | inl t ↦
      inl (rw (t) refl, ([], value, rest, ap (λ k. (k, value) ∷ rest) ((text_eq_iff key name).0 t)))
  | inr f ↦ elim (has_key-cases name rest) [
    | inl (found, (before, v, after, e)) ↦
        inl (rw (f) found, ((key, value) ∷ before, v, after, ap (λ l. (key, value) ∷ l) e))
    | inr (lost, lacks) ↦
        inr (rw (f) lost, ((λ e. true-ne-false (sym ((text_eq_iff key name).1 e) ∙ f)), lacks))
  ]
]

-- A key is made exactly when no extra switch is called num_warps or num_stages; otherwise the
-- error names the first of the two that is there, wherever it stands.
pub make_kernel_cache_key_total :
    (s : Bytes) (d : ℤ) (o : CompileOptions)
    → Lacks (codes "num_warps") o.extra
        × Lacks (codes "num_stages") o.extra
        × ((key : Bytes) × (make_kernel_cache_key s d o ≡ ok key))
      ⊎ Has (codes "num_warps") o.extra
        × (make_kernel_cache_key s d o ≡ throw (reserved_option (codes "num_warps")))
      ⊎ Lacks (codes "num_warps") o.extra
        × Has (codes "num_stages") o.extra
        × (make_kernel_cache_key s d o ≡ throw (reserved_option (codes "num_stages")))
unfolding make_kernel_cache_key validate_compile_options check_reserved
make_kernel_cache_key_total s d o = elim (has_key-cases (codes "num_warps") o.extra) [
  | inl (w, there) ↦ inr (inl (there, rw w))
  | inr (w, lacks) ↦ elim (has_key-cases (codes "num_stages") o.extra) [
    | inl (n, there) ↦ inr (inr (lacks, there, rw (w, n)))
    | inr (n, lacks') ↦ inl (lacks, lacks', (key_text s d o, rw (w, n)))
  ]
]
