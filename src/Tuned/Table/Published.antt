-- ===== src/Tuned/Table/Published.antt =====
-- What a published kernel changes: its own device and name, and nothing else.
use libtriton_jit.Common.{
  ℕ, zero, suc, ◌+◌, ◌-◌, ◌<◌, false, ◌&&◌, List, [], ◌∷◌, ◌++◌, Bytes, text_eq, text_eq_iff,
  length, length-append, length-replicate, get_or, get_or-set_self, get_or-set_ne, get_elem?,
  replicate, Option, none, some, ◌≡◌, refl, sym, ap, ◌∙◌, arith, ◌==◌, ==_iff, inl, inr, Bool-cases,
  Option-cases, get_or-pad, if◌then◌else◌,
}
use libtriton_jit.Common.Int.{pos}
use libtriton_jit.Tuned.Table.{
  KernelTable, rows_of, TunedTable, Snapshot, devices_of, lookup, assign, publish_locked, kernel,
}

text_ne_trans : (k id key : Bytes) → k ≡ id → text_eq k key ≡ false → text_eq key id ≡ false
text_ne_trans k id key e n = elim (Bool-cases (text_eq key id)) [
  | inr f ↦ f
  | inl y ↦ cc (n, (text_eq_iff k key).1 (e ∙ sym ((text_eq_iff key id).0 y)))
]

lookup-assign :
    (id key : Bytes) (t : KernelTable) (m : List (Bytes × KernelTable))
    → lookup id (assign key t m) ≡ (if text_eq key id then some t else lookup id m)
unfolding lookup assign
lookup-assign id key t [] = refl
lookup-assign id key t ((k, old) ∷ rest) =
    let ih = lookup-assign id key t rest in
    elim (Bool-cases (text_eq k key)) [
      | inl y ↦
          let e : k ≡ key = (text_eq_iff k key).0 y in
          rw (y, e) (elim (Bool-cases (text_eq key id)) [ inl z ↦ rw z | inr z ↦ rw z ])
      | inr n ↦ rw n (elim (Bool-cases (text_eq k id)) [
        | inl z ↦
            let far : text_eq key id ≡ false = text_ne_trans k id key ((text_eq_iff k id).0 z) n in
            rw (z, far)
        | inr z ↦ rw z ih
      ])
    ]

lookup-get_elem? :
    (id : Bytes) (devices : Snapshot) (d : ℕ)
    → ◌≡◌ {A = Option KernelTable}
        (elim (get_elem? devices d) [ none ↦ none | some kernels ↦ lookup id kernels ])
        (lookup id (get_or devices d []))
lookup-get_elem? id [] d = unfold lookup in refl
lookup-get_elem? id (x ∷ xs) zero = refl
lookup-get_elem? id (x ∷ xs) (suc d) = lookup-get_elem? id xs d

kernel-lookup :
    (table : TunedTable) (id : Bytes) (d : ℕ)
    → kernel table id (pos d) ≡ lookup id (get_or (devices_of table.snapshot) d [])
kernel-lookup table id d =
    unfold kernel in
    elim (Option-cases table.snapshot) [
      | inl e ↦ rw e (unfold lookup in refl)
      | inr (devices, e) ↦ rw e (lookup-get_elem? id devices d)
    ]

-- After a kernel is published, the device has it under its storage id; every other name and every
-- other device has what it had before.
pub kernel-publish_locked :
    (table : TunedTable) (t : KernelTable) (id : Bytes) (device d : ℕ)
    → kernel (publish_locked device t table) id (pos d) ≡ (
        if device == d && text_eq (rows_of t).storage_id id
        then some t
        else kernel table id (pos d))
unfolding publish_locked
kernel-publish_locked table t id device d =
    let devices = devices_of table.snapshot in
    let n = device + 1 - length devices in
    let resized : Snapshot = devices ++ replicate n [] in
    let room : device < length resized = omega (
      arith,
      length-append {0} devices (replicate n []),
      length-replicate {0} {A = List (Bytes × KernelTable)} n [],
    ) in
    kernel-lookup (publish_locked device t table) id d ∙ elim (Bool-cases (device == d)) [
      | inl y ↦
          let e : device ≡ d = (==_iff device d).0 y in
          rw (y, ← e)
            (ap (lookup id) (get_or-set_self resized device _ [] room)
              ∙ lookup-assign id (rows_of t).storage_id t (get_or resized device [])
              ∙ ap
                  (λ (below : Option KernelTable).
                    if text_eq (rows_of t).storage_id id then some t else below)
                  (ap (lookup id) (get_or-pad devices n device [])
                    ∙ sym (kernel-lookup table id device)))
      | inr f ↦ rw f (
          ap (lookup id) (
            get_or-set_ne resized device d _ [] (λ e. cc (f, (==_iff device d).1 e))
            ∙ get_or-pad devices n d [])
          ∙ sym (kernel-lookup table id d))
    ]
