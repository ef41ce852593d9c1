-- ===== src/Tuned/Key/Normalize.antt =====
-- Laws of the key strategies: `normalize_dim` may be applied again to what it gave, as `load` does
-- in its check for duplicate keys, and the names of the strategies.
use libtriton_jit.Common.{
  ℕ, zero, suc, ◌+◌, ◌*◌, ◌/◌, ◌^◌, ◌≤◌, ◌<◌, ◌≡◌, refl, sym, ap, ◌∙◌, arith, leb, leb→le, leb→gt,
  [], ◌∷◌, Bool, ◌||◌, Option, ◌==◌, Bool-cases, inl, inr, true, false, if◌then◌else◌, ◌⊎◌, Bytes,
  codes, some, text_eq_iff, text_eq, is_empty,
}
use libtriton_jit.Common.Int.{ℤ, pos, negsuc, wrap64-InI64, wrap64-neg_ℕ, neg_ℕ}
use libtriton_jit.Tuned.Key.{
  KeyStrategy, default, log, align32, align32_ceil, parse_key_strategy, key_strategy_name,
  pow2_ceil, ceil_div_32, normalize_dim, times_32,
}
use libtriton_jit.Tuned.Key.Power.{IsPowerAbove, pow2_ceil-IsPowerAbove}

-- A value that is rounded up to a multiple of 32 without leaving 64 bits.
abbrev pub IsDim : ℤ → Type 0
IsDim (pos n) = n + 31 < 2 ^ 63
IsDim (negsuc n) = suc n < 2 ^ 63

-- Powers of two and the values that have none above them are left alone.
power-fixed : (n p : ℕ) → 0 < p → p ≤ 2 ^ 62 → IsPowerAbove n p → pow2_ceil (pos p) ≡ pos p
power-fixed n p h b a = elim (pow2_ceil-IsPowerAbove p h (omega arith)) [
  | inl (q, bound, e, c) ↦
      let below : p ≤ 2 ^ a.exponent = omega (arith, a.power) in
      let same : q ≡ p = omega (arith, c.above, c.least a.exponent below, a.power) in
      e ∙ ap pos same
  | inr (bound, e) ↦ e
]

pow2_ceil_idem : (n : ℕ) → 0 < n → n < 2 ^ 63 → pow2_ceil (pow2_ceil (pos n)) ≡ pow2_ceil (pos n)
pow2_ceil_idem n h b = elim (pow2_ceil-IsPowerAbove n h b) [
  | inl (p, bound, e, a) ↦ rw (e, power-fixed n p (omega (arith, a.above)) (a.least 62 bound) a)
  | inr (bound, e) ↦ rw (e, e)
]

-- The result of `pow2_ceil`, a positive number not below the value.
pow2_ceil-result :
    (n : ℕ)
    → 0 < n
    → n < 2 ^ 63
    → (m : ℕ) × (pow2_ceil (pos n) ≡ pos m) × (n ≤ m) × ((j : ℕ) → j ≤ 62 → n ≤ 2 ^ j → m ≤ 2 ^ j)
pow2_ceil-result n h b = elim (pow2_ceil-IsPowerAbove n h b) [
  | inl (p, bound, e, a) ↦ (p, e, a.above, λ j i k. a.least j k)
  | inr (bound, e) ↦ (n, e, omega arith, λ j i k. k)
]

round_pos :
    (n : ℕ) → n + 31 < 2 ^ 63 → normalize_dim align32_ceil (pos n) ≡ pos ((n + 31) / 32 * 32)
unfolding normalize_dim ceil_div_32
round_pos n h = rw (wrap64-InI64 (pos (n + 31)) h) (ground arith)

times_neg : (q : ℕ) → q * 32 < 2 ^ 63 → times_32 (neg_ℕ q) ≡ neg_ℕ (q * 32)
times_neg zero h = refl
times_neg (suc q) h = wrap64-neg_ℕ (suc q * 32) h

round_neg : (k : ℕ) → k < 2 ^ 63 → normalize_dim align32_ceil (neg_ℕ k) ≡ neg_ℕ (k / 32 * 32)
unfolding normalize_dim ceil_div_32
round_neg zero h = refl
round_neg (suc k) h = rw (wrap64-InI64 (pos (suc k)) h) (times_neg (suc k / 32) (omega arith))

round_neg-twice :
    (k : ℕ)
    → k < 2 ^ 63
    → normalize_dim align32_ceil (normalize_dim align32_ceil (neg_ℕ k))
      ≡ normalize_dim align32_ceil (neg_ℕ k)
round_neg-twice k h =
    ap (normalize_dim align32_ceil) (round_neg k h)
    ∙ round_neg (k / 32 * 32) (omega arith)
    ∙ ap neg_ℕ (omega arith)
    ∙ sym (round_neg k h)

round_pos-twice :
    (n : ℕ)
    → n + 31 < 2 ^ 63
    → normalize_dim align32_ceil (normalize_dim align32_ceil (pos n))
      ≡ normalize_dim align32_ceil (pos n)
round_pos-twice n h =
    ap (normalize_dim align32_ceil) (round_pos n h)
    ∙ round_pos ((n + 31) / 32 * 32) (omega arith)
    ∙ ap pos (omega arith)
    ∙ sym (round_pos n h)

align32-large :
    (n : ℕ) → 32 ≤ n → normalize_dim align32 (pos n) ≡ normalize_dim align32_ceil (pos n)
unfolding normalize_dim
align32-large n h = ground arith

align32-small : (n : ℕ) → 0 < n → n < 32 → normalize_dim align32 (pos n) ≡ pow2_ceil (pos n)
unfolding normalize_dim
align32-small n h b = ground arith

log-pos : (n : ℕ) → 0 < n → normalize_dim log (pos n) ≡ pow2_ceil (pos n)
unfolding normalize_dim
log-pos n h = ground arith

log_idem :
    (n : ℕ)
    → 0 < n
    → n < 2 ^ 63
    → normalize_dim log (normalize_dim log (pos n)) ≡ normalize_dim log (pos n)
log_idem n h b =
    let (m, e, up, _) = pow2_ceil-result n h b in
    let once : normalize_dim log (pos n) ≡ pos m = log-pos n h ∙ e in
    ap (normalize_dim log) once
    ∙ log-pos m (omega arith)
    ∙ ap pow2_ceil (sym e)
    ∙ pow2_ceil_idem n h b
    ∙ sym (log-pos n h)

align32_small_idem :
    (n : ℕ)
    → 0 < n
    → n < 32
    → normalize_dim align32 (normalize_dim align32 (pos n)) ≡ normalize_dim align32 (pos n)
align32_small_idem n h b =
    let (m, e, up, below) = pow2_ceil-result n h (omega arith) in
    let once : normalize_dim align32 (pos n) ≡ pos m = align32-small n h b ∙ e in
    let fits : m ≤ 32 = below 5 (omega arith) (omega arith) in
    elim (Bool-cases (m == 32)) [
      | inl t ↦
          let full : m ≡ 32 = ground arith in
          let same : normalize_dim align32 (pos m) ≡ pos m =
            rw full (align32-large 32 (omega arith) ∙ round_pos 32 (omega arith)) in
          ap (normalize_dim align32) once ∙ same ∙ sym once
      | inr f ↦
          ap (normalize_dim align32) once
          ∙ align32-small m (omega arith) (ground arith)
          ∙ ap pow2_ceil (sym e)
          ∙ pow2_ceil_idem n h (omega arith)
          ∙ sym (align32-small n h b)
    ]

align32_large_idem :
    (n : ℕ)
    → 32 ≤ n
    → n + 31 < 2 ^ 63
    → normalize_dim align32 (normalize_dim align32 (pos n)) ≡ normalize_dim align32 (pos n)
align32_large_idem n h b =
    let once : normalize_dim align32 (pos n) ≡ pos ((n + 31) / 32 * 32) =
      align32-large n h ∙ round_pos n b in
    ap (normalize_dim align32) once
    ∙ align32-large ((n + 31) / 32 * 32) (omega arith)
    ∙ ap (normalize_dim align32_ceil) (sym (round_pos n b))
    ∙ round_pos-twice n b
    ∙ sym (align32-large n h)

align32_pos_idem :
    (n : ℕ)
    → n + 31 < 2 ^ 63
    → normalize_dim align32 (normalize_dim align32 (pos n)) ≡ normalize_dim align32 (pos n)
unfolding normalize_dim
align32_pos_idem zero h = refl
align32_pos_idem (suc n) h = elim (Bool-cases (leb 32 (suc n))) [
  | inl t ↦ align32_large_idem (suc n) (leb→le 32 (suc n) t) h
  | inr f ↦ align32_small_idem (suc n) (omega arith) (leb→gt 32 (suc n) f)
]

log_pos_idem :
    (n : ℕ) → n < 2 ^ 63 → normalize_dim log (normalize_dim log (pos n)) ≡ normalize_dim log (pos n)
unfolding normalize_dim
log_pos_idem zero h = refl
log_pos_idem (suc n) h = log_idem (suc n) (omega arith) h

-- For every strategy and every value that is more than 31 below the bounds of `int64_t`, a
-- normalised value is left as it is when it is normalised again.
pub normalize_dim_idem :
    (s : KeyStrategy) (v : ℤ) → IsDim v → normalize_dim s (normalize_dim s v) ≡ normalize_dim s v
unfolding normalize_dim
normalize_dim_idem default v h = refl
normalize_dim_idem log (negsuc n) h = refl
normalize_dim_idem align32 (negsuc n) h = refl
normalize_dim_idem log (pos n) h = log_pos_idem n (omega arith)
normalize_dim_idem align32 (pos n) h = align32_pos_idem n h
normalize_dim_idem align32_ceil (pos n) h = round_pos-twice n h
normalize_dim_idem align32_ceil (negsuc n) h = round_neg-twice (suc n) h

is_empty→nil : (t : Bytes) → is_empty t ≡ true → t ≡ []
is_empty→nil [] h = refl
is_empty→nil (c ∷ cs) h = cc

-- One test of the chain.
step_read :
    (b : Bool) (x : KeyStrategy) (rest : Option KeyStrategy) (s : KeyStrategy)
    → (if b then some x else rest) ≡ some s
    → (b ≡ true) × (s ≡ x) ⊎ (rest ≡ some s)
step_read true x rest s h = inl (refl, cc)
step_read false x rest s h = inr h

name_read :
    (s : KeyStrategy) (t : Bytes)
    → parse_key_strategy t ≡ some s
    → (t ≡ key_strategy_name s) ⊎ (s ≡ default) × ((t ≡ []) ⊎ (t ≡ codes "None"))
unfolding parse_key_strategy key_strategy_name
name_read s t h =
    elim (step_read (is_empty t || (text_eq t (codes "default") || text_eq t (codes "None")))
      default _ s h) [
        | inl (b, e) ↦ elim (Bool-cases (is_empty t)) [
          | inl z ↦ inr (e, inl (is_empty→nil t z))
          | inr z ↦ elim (Bool-cases (text_eq t (codes "default"))) [
            | inl d ↦ rw e (inl ((text_eq_iff t (codes "default")).0 d))
            | inr d ↦ inr (e, inr ((text_eq_iff t (codes "None")).0 (rw (z, d) at b)))
          ]
        ]
        | inr h1 ↦ elim (step_read (text_eq t (codes "log")) log _ s h1) [
          | inl (b, e) ↦ rw e (inl ((text_eq_iff t (codes "log")).0 b))
          | inr h2 ↦ elim (step_read (text_eq t (codes "align32")) align32 _ s h2) [
            | inl (b, e) ↦ rw e (inl ((text_eq_iff t (codes "align32")).0 b))
            | inr h3 ↦ elim (step_read (text_eq t (codes "align32_ceil")) align32_ceil _ s h3) [
              | inl (b, e) ↦ rw e (inl ((text_eq_iff t (codes "align32_ceil")).0 b))
              | inr h4 ↦ absurd (cc h4)
            ]
          ]
        ]
      ]

-- Every strategy has a name that is read back as itself, and a text that is read as a strategy is
-- its name or, for the default one, empty or `None`.
pub parse_key_strategy-name :
    (s : KeyStrategy) (t : Bytes)
    → (parse_key_strategy (key_strategy_name s) ≡ some s)
      × (parse_key_strategy t ≡ some s
          → (t ≡ key_strategy_name s) ⊎ (s ≡ default) × ((t ≡ []) ⊎ (t ≡ codes "None")))
unfolding parse_key_strategy key_strategy_name
parse_key_strategy-name default t = (refl, name_read default t)
parse_key_strategy-name log t = (refl, name_read log t)
parse_key_strategy-name align32 t = (refl, name_read align32 t)
parse_key_strategy-name align32_ceil t = (refl, name_read align32_ceil t)
