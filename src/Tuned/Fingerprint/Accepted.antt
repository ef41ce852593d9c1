-- ===== src/Tuned/Fingerprint/Accepted.antt =====
-- Which tables are accepted.
use libtriton_jit.Common.{
  Bool, true, false, not, ◌&&◌, ◌||◌, [], ◌∷◌, Bytes, codes, text_eq, text_eq_iff, is_empty, Option,
  none, some, ok, ◌>>◌, throw_if, ◌≡◌, ◌≢◌, ◌⊎◌, inl, inr, Bool-cases, refl, sym, ◌∙◌, ◌↔◌, arith,
  if◌then◌else◌,
}
use libtriton_jit.Tuned.Fingerprint.{
  BackendFingerprint, empty_backend, other_backend, other_device, env_flag, check_backend,
  check_device, check_fingerprint,
}

gate :
    (empty_table no_backend same_backend no_name no_runtime same_name ignored : Bool)
    → ((throw_if empty_table empty_backend
          >> ((if no_backend then ok tt else throw_if (not same_backend) other_backend)
              >> (if no_name
                  then ok tt
                  else if no_runtime
                  then ok tt
                  else throw_if (not same_name && not ignored) other_device)))
        ≡ ok tt)
      ↔ ((empty_table ≡ false)
          × ((no_backend || same_backend) ≡ true)
          × ((no_name || (no_runtime || (same_name || ignored))) ≡ true))
gate a b c d e f g = ground arith

is_empty_iff : (b : Bytes) → (is_empty b ≡ true) ↔ (b ≡ [])
is_empty_iff [] = (λ e. refl, λ e. refl)
is_empty_iff (c ∷ cs) = (λ e. cc, λ e. cc)

false-ne-true : false ≡ true → ⊥
false-ne-true h = cc

not_empty_iff : (b : Bytes) → (is_empty b ≡ false) ↔ (b ≢ [])
not_empty_iff [] = ((λ e. absurd (false-ne-true (sym e))), (λ h. absurd (h refl)))
not_empty_iff (c ∷ cs) = ((λ e h. false-ne-true ((is_empty_iff (c ∷ cs)).1 h)), (λ h. refl))

or_iff : {A B : Type 0} (a b : Bool) → (a ≡ true) ↔ A → (b ≡ true) ↔ B → ((a || b) ≡ true) ↔ (A ⊎ B)
or_iff true b fa fb = ((λ e. inl (fa.0 refl)), (λ e. refl))
or_iff false b fa fb = (
  (λ e. inr (fb.0 e)),
  (λ s. elim s [ inl x ↦ absurd (false-ne-true (fa.1 x)) | inr y ↦ fb.1 y ]),
)

-- The variable is set, and neither to nothing nor to 0.
abbrev pub IsTurnedOn : Option Bytes → Type 0
IsTurnedOn variable = (value : Bytes) × (variable ≡ some value) × (value ≢ []) × (value ≢ b'0' ∷ [])

none-ne-some {ℓ} : {A : Type ℓ} {a : A} → ◌≡◌ {A = Option A} none (some a) → ⊥
none-ne-some h = cc

some_inj {ℓ} : {A : Type ℓ} {a b : A} → ◌≡◌ {A = Option A} (some a) (some b) → a ≡ b
some_inj h = cc

env_flag_iff : (variable : Option Bytes) → (env_flag variable ≡ true) ↔ IsTurnedOn variable
unfolding env_flag
env_flag_iff none =
    ((λ e. absurd (false-ne-true e)), (λ (value, is, some_text, other). absurd (none-ne-some is)))
env_flag_iff (some v) = (
  (λ e. (
    v,
    refl,
    (not_empty_iff v).0 (ground (arith, e)),
    λ zero_text.
        false-ne-true (
          not_both (is_empty v) (text_eq v (codes "0")) e
            ((text_eq_iff v (codes "0")).1 zero_text)),
  )),
  (λ (value, is, some_text, other).
      let same = some_inj is in
      let filled : is_empty v ≡ false = (not_empty_iff v).1 (rw (same) some_text) in
      elim (Bool-cases (text_eq v (codes "0"))) [
        | inl e ↦ absurd (other (sym same ∙ (text_eq_iff v (codes "0")).0 e))
        | inr e ↦ rw (filled, e) refl
      ]),
)
  where
    not_both : (a b : Bool) → (not a && not b) ≡ true → b ≡ true → false ≡ true
    not_both a true e h = ground (arith, e)
    not_both a false e h = h

-- A table is accepted just when it names its backend, this is the running one or the running one is
-- not known, and the device names agree, or one of them is not known, or
-- TRITON_JIT_TUNED_IGNORE_DEVICE is set to something else than nothing or 0.
pub check_fingerprint_iff :
    (ignore_device : Option Bytes) (table runtime : BackendFingerprint)
    → (check_fingerprint ignore_device table runtime ≡ ok tt) ↔ (
        (table.backend ≢ [])
        × ((runtime.backend ≡ []) ⊎ (table.backend ≡ runtime.backend))
        × ((table.device_name ≡ [])
            ⊎ ((runtime.device_name ≡ [])
                ⊎ ((table.device_name ≡ runtime.device_name) ⊎ IsTurnedOn ignore_device))))
unfolding check_fingerprint check_backend check_device
check_fingerprint_iff ignore_device table runtime =
    let named = not_empty_iff table.backend in
    let backends =
      or_iff (is_empty runtime.backend) (text_eq table.backend runtime.backend)
        (is_empty_iff runtime.backend) (text_eq_iff table.backend runtime.backend) in
    let devices =
      or_iff (is_empty table.device_name)
        (is_empty runtime.device_name
          || (text_eq table.device_name runtime.device_name || env_flag ignore_device))
        (is_empty_iff table.device_name)
        (or_iff (is_empty runtime.device_name)
          (text_eq table.device_name runtime.device_name || env_flag ignore_device)
          (is_empty_iff runtime.device_name)
          (or_iff (text_eq table.device_name runtime.device_name) (env_flag ignore_device)
            (text_eq_iff table.device_name runtime.device_name) (env_flag_iff ignore_device))) in
    let passed =
      gate (is_empty table.backend) (is_empty runtime.backend)
        (text_eq table.backend runtime.backend) (is_empty table.device_name)
        (is_empty runtime.device_name) (text_eq table.device_name runtime.device_name)
        (env_flag ignore_device) in
    (
      (λ h. let (a, b, c) = passed.0 h in (named.0 a, backends.0 b, devices.0 c)),
      (λ (a, b, c). passed.1 (named.1 a, backends.1 b, devices.1 c)),
    )
