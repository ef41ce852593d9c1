-- ===== src/Tuned/Key/Power.antt =====
-- `pow2_ceil` gives the least power of two that is not below its argument.
use libtriton_jit.Common.{
  ℕ, zero, suc, ◌-◌, ◌*◌, ◌/◌, ◌^◌, ◌≤◌, ◌<◌, ◌≡◌, refl, ap, ◌∙◌, arith, leb, leb→le, leb→gt, ◌==◌,
  Bool-cases, inl, inr, ◌⊎◌,
}
use native.Mathlib.Nat.{pow-le-pow_right}
use libtriton_jit.Common.Int.{pos}
use libtriton_jit.Tuned.Key.{bit_width, pow2_ceil}

two_pow_suc : (k : ℕ) → 2 ^ suc k ≡ 2 * 2 ^ k
two_pow_suc k = omega arith

pub two_pow_le : (i j : ℕ) → i ≤ j → 2 ^ i ≤ 2 ^ j
two_pow_le i j h = pow-le-pow_right (omega arith) h

-- A power of two that is less than twice another is at most it.
pub two_pow_lt : (i j : ℕ) → 2 ^ i < 2 * 2 ^ j → i ≤ j
two_pow_lt i j h = elim (Bool-cases (leb i j)) [
  | inl t ↦ ground arith
  | inr f ↦
      let far : suc j ≤ i = ground arith in omega (arith, two_pow_le (suc j) i far, two_pow_suc j)
]

record IsWidth (n k : ℕ) : Type 0 where
  above : n < 2 ^ k
  below : 0 < n → 2 ^ k ≤ 2 * n

IsWidth-suc : (n k : ℕ) → 0 < n → IsWidth (n / 2) k → (n / 2 ≡ 0 → k ≡ 0) → IsWidth n (suc k)
IsWidth-suc n k p half z = record {
  above = omega (arith, half.above, two_pow_suc k);
  below = λ q. elim (Bool-cases (n / 2 == 0)) [
    | inl t ↦ let e : k ≡ 0 = z (ground arith) in rw e (omega arith)
    | inr f ↦ let b = half.below (ground arith) in omega (arith, b, two_pow_suc k)
  ];
}

bit_width-zero : (bound : ℕ) → bit_width bound 0 ≡ 0
unfolding bit_width
bit_width-zero zero = refl
bit_width-zero (suc bound) = refl

bit_width-IsWidth : (bound n : ℕ) → n < 2 ^ bound → IsWidth n (bit_width bound n)
unfolding bit_width
bit_width-IsWidth zero n h = record { above = h; below = λ p. absurd (omega arith) }
bit_width-IsWidth (suc bound) n h =
    let half = bit_width-IsWidth bound (n / 2) (omega (arith, two_pow_suc bound)) in
    elim (Bool-cases (n == 0)) [
      | inl t ↦ rw t (record { above = ground arith; below = λ p. absurd (ground arith) })
      | inr f ↦
          rw f (
            IsWidth-suc n _ (ground arith) half
              (λ e. ap (bit_width bound) e ∙ bit_width-zero bound))
    ]

-- A power of two that is not below `n`, and not above any other such.
pub record IsPowerAbove (n p : ℕ) : Type 0 where
  pub exponent : ℕ
  pub power : p ≡ 2 ^ exponent
  pub above : n ≤ p
  pub least : (j : ℕ) → n ≤ 2 ^ j → p ≤ 2 ^ j

-- From 2 on, while the width of `n - 1` fits.
width-IsPowerAbove : (n k : ℕ) → 1 < n → IsWidth (n - 1) k → IsPowerAbove n (2 ^ k)
width-IsPowerAbove n k h w = record {
  exponent = k;
  power = refl;
  above = omega (arith, w.above);
  least = λ j b. two_pow_le k j (two_pow_lt k j (omega (arith, w.below (omega arith))));
}

one-IsPowerAbove : IsPowerAbove 1 1
one-IsPowerAbove = record { exponent = 0; power = refl; above = omega arith; least = λ j b. b }

-- For every value from 1 to 2 ^ 62, `pow2_ceil` gives the least power of two not below it. From
-- there on, where the next power of two leaves the 63 bits, it gives the value back.
pub pow2_ceil-IsPowerAbove :
    (n : ℕ)
    → 0 < n
    → n < 2 ^ 63
    → ((p : ℕ) × (n ≤ 2 ^ 62) × (pow2_ceil (pos n) ≡ pos p) × IsPowerAbove n p)
      ⊎ ((2 ^ 62 < n) × (pow2_ceil (pos n) ≡ pos n))
unfolding pow2_ceil
pow2_ceil-IsPowerAbove n p h = elim (Bool-cases (leb n 1)) [
  | inl t ↦ let e : n ≡ 1 = ground arith in rw e (inl (1, omega arith, refl, one-IsPowerAbove))
  | inr f ↦
      let big : 1 < n = ground arith in
      let w = bit_width-IsWidth 64 (n - 1) (omega arith) in
      let low = w.below (omega arith) in
      elim (Bool-cases (leb 63 (bit_width 64 (n - 1)))) [
        | inl t ↦
            let wide = two_pow_le 63 (bit_width 64 (n - 1)) (leb→le 63 (bit_width 64 (n - 1)) t) in
            inr (omega (arith, low, wide), rw (f, t))
        | inr g ↦
            let thin = leb→gt 63 (bit_width 64 (n - 1)) g in
            let narrow = two_pow_le (bit_width 64 (n - 1)) 62 (omega (arith, thin)) in
            inl (_, omega (arith, w.above, narrow), rw (f, g), width-IsPowerAbove n _ big w)
      ]
]
