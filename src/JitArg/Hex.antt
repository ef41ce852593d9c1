-- ===== src/JitArg/Hex.antt =====
-- Hexadecimal spellings are over 0-9 and a-f, and can be read back.
use libtriton_jit.Common.{
  ℕ, zero, suc, ◌+◌, ◌-◌, ◌*◌, ◌/◌, ◌%◌, ◌^◌, ◌<◌, ◌≤◌, ◌≡◌, refl, ap, ◌⊎◌, [], ◌∷◌, Bytes, All,
  arith, ltb, if◌then◌else◌, ◌∙◌, sym,
}
use libtriton_jit.JitArg.{hex_digit, hex_encode, hex_onto, hex_u64}

abbrev pub IsHex : ℕ → Type 0
IsHex c = ((b'0' ≤ c) × (c ≤ b'9')) ⊎ ((b'a' ≤ c) × (c ≤ b'f'))

pub hex_digit-IsHex : (d : ℕ) → d < 16 → IsHex (hex_digit d)
unfolding hex_digit
hex_digit-IsHex d h = ground arith

pub unhex : ℕ → ℕ
unhex c = if ltb c b'a' then c - b'0' else c + 10 - b'a'

pub unhex-hex_digit : (d : ℕ) → d < 16 → unhex (hex_digit d) ≡ d
unfolding unhex hex_digit
unhex-hex_digit d h = ground arith

abbrev pub IsByte : ℕ → Type 0
IsByte c = c < 256

decode : Bytes → Bytes
decode (hi ∷ lo ∷ rest) = (unhex hi * 16 + unhex lo) ∷ decode rest
decode _ = []

decode-hex_encode : (bs : Bytes) → All IsByte bs → decode (hex_encode bs) ≡ bs
unfolding decode hex_encode
decode-hex_encode [] h = refl
decode-hex_encode (b ∷ bs) h =
    rw
      (
        unhex-hex_digit (b / 16) (omega arith),
        unhex-hex_digit (b % 16) (omega arith),
        decode-hex_encode bs h.1,
      )
      (let e : b / 16 * 16 + b % 16 ≡ b = omega arith in rw e)

pub hex_encode_inj :
    (a b : Bytes) → All IsByte a → All IsByte b → hex_encode a ≡ hex_encode b → a ≡ b
hex_encode_inj a b ha hb e = sym (decode-hex_encode a ha) ∙ ap decode e ∙ decode-hex_encode b hb

pub hex_encode-IsHex : (bs : Bytes) → All IsByte bs → All IsHex (hex_encode bs)
unfolding hex_encode
hex_encode-IsHex [] h = tt
hex_encode-IsHex (b ∷ bs) h = (
  hex_digit-IsHex (b / 16) (omega arith),
  (hex_digit-IsHex (b % 16) (omega arith), hex_encode-IsHex bs h.1),
)

hex_onto-IsHex : (n value : ℕ) (out : Bytes) → All IsHex out → All IsHex (hex_onto n value out)
unfolding hex_onto
hex_onto-IsHex zero value out h = h
hex_onto-IsHex (suc n) value out h =
    hex_onto-IsHex n (value / 16) _ (hex_digit-IsHex (value % 16) (omega arith), h)

pub hex_u64-IsHex : (value : ℕ) → All IsHex (hex_u64 value)
unfolding hex_u64
hex_u64-IsHex value = hex_onto-IsHex 16 value [] tt

read_hex : ℕ → Bytes → ℕ
read_hex acc [] = acc
read_hex acc (c ∷ cs) = read_hex (acc * 16 + unhex c) cs

pow16 : ℕ → ℕ
pow16 zero = 1
pow16 (suc n) = 16 * pow16 n

-- Reading back what is written in front of `out`.
read-hex_onto :
    (n value acc : ℕ) (out : Bytes)
    → value < pow16 n
    → read_hex acc (hex_onto n value out) ≡ read_hex (acc * pow16 n + value) out
unfolding read_hex hex_onto pow16
read-hex_onto zero value acc out h = ap (λ a. read_hex a out) (omega arith)
read-hex_onto (suc n) value acc out h =
    read-hex_onto n (value / 16) acc _ (omega arith)
    ∙ rw (unhex-hex_digit (value % 16) (omega arith)) (ap (λ a. read_hex a out) (omega arith))

read-hex_u64 : (value : ℕ) → value < 2 ^ 64 → read_hex 0 (hex_u64 value) ≡ value
unfolding hex_u64 pow16 read_hex
read-hex_u64 value h = read-hex_onto 16 value 0 [] h ∙ omega arith

-- A fingerprint determines the hash that it spells.
pub hex_u64_inj : (a b : ℕ) → a < 2 ^ 64 → b < 2 ^ 64 → hex_u64 a ≡ hex_u64 b → a ≡ b
hex_u64_inj a b ha hb e = sym (read-hex_u64 a ha) ∙ ap (read_hex 0) e ∙ read-hex_u64 b hb
