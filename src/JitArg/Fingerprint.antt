-- ===== src/JitArg/Fingerprint.antt =====
-- What the fingerprint of src/jit_function_arg.cpp, `hex_u64` of `fnv1a64`, tells apart.
use Prim.Native.Nat.{digits, differ, bit_xor-bitwise}
use libtriton_jit.Common.{
  ℕ, zero, suc, ◌+◌, ◌*◌, ◌/◌, ◌%◌, ◌^◌, ◌≤◌, ◌<◌, bit_xor, [], ◌∷◌, ◌++◌, Bytes, All, some, ok,
  ◌≡◌, ◌≢◌, refl, sym, ap, ◌∙◌, arith,
}
use libtriton_jit.JitArg.{
  FileSystem, JitFunctionArg, jit_function_arg, fnv_offset, fnv_onto, fnv1a64, hex_digit, hex_onto,
  hex_u64,
}
use libtriton_jit.JitArg.Hex.{IsByte, unhex, unhex-hex_digit}
use libtriton_jit.JitArg.Token.{jit_function_arg-Describes}

-- The exclusive or, digit by digit, from the definition that the native operation stands for.
abbrev xor_digits : ℕ → ℕ → ℕ → ℕ
xor_digits n a b = digits (λ b. b) differ n a b

xor_digits_fuel : (n m a b : ℕ) → a ≤ n → a ≤ m → xor_digits n a b ≡ xor_digits m a b
xor_digits_fuel zero zero a b p q = refl
xor_digits_fuel zero (suc m) zero b p q = refl
xor_digits_fuel zero (suc m) (suc a) b p q = absurd (omega arith)
xor_digits_fuel (suc n) zero zero b p q = refl
xor_digits_fuel (suc n) zero (suc a) b p q = absurd (omega arith)
xor_digits_fuel (suc n) (suc m) zero b p q = refl
xor_digits_fuel (suc n) (suc m) (suc a) b p q =
    omega (arith, xor_digits_fuel n m (suc a / 2) (b / 2) (omega arith) (omega arith))

zero-bit_xor : (b : ℕ) → bit_xor 0 b ≡ b
zero-bit_xor b = bit_xor-bitwise 0 b

differ_sum : (x y : ℕ) → x < 2 → y < 2 → differ x y ≡ (x + y) % 2
differ_sum zero y hx hy = omega arith
differ_sum (suc zero) zero hx hy = refl
differ_sum (suc zero) (suc zero) hx hy = refl
differ_sum (suc zero) (suc (suc y)) hx hy = absurd (omega arith)
differ_sum (suc (suc x)) y hx hy = absurd (omega arith)

bit_xor_step : (a b : ℕ) → bit_xor a b ≡ bit_xor (a / 2) (b / 2) * 2 + (a + b) % 2
bit_xor_step zero b = omega (arith, zero-bit_xor b, zero-bit_xor (b / 2))
bit_xor_step (suc a) b = omega (
  arith,
  bit_xor-bitwise (suc a) b,
  bit_xor-bitwise (suc a / 2) (b / 2),
  xor_digits_fuel a (suc a / 2) (suc a / 2) (b / 2) (omega arith) (omega arith),
  differ_sum (suc a % 2) (b % 2) (omega arith) (omega arith),
)

bit_xor_inj_left : (n a c b : ℕ) → a ≤ n → c ≤ n → bit_xor a b ≡ bit_xor c b → a ≡ c
bit_xor_inj_left zero a c b ha hc e = omega arith
bit_xor_inj_left (suc n) a c b ha hc e =
    let halves : bit_xor (a / 2) (b / 2) ≡ bit_xor (c / 2) (b / 2) =
      omega (arith, e, bit_xor_step a b, bit_xor_step c b) in
    omega (
      arith,
      e,
      bit_xor_step a b,
      bit_xor_step c b,
      bit_xor_inj_left n (a / 2) (c / 2) (b / 2) (omega arith) (omega arith) halves,
    )

bit_xor_inj_right : (n a b c : ℕ) → b ≤ n → c ≤ n → bit_xor a b ≡ bit_xor a c → b ≡ c
bit_xor_inj_right zero a b c hb hc e = omega arith
bit_xor_inj_right (suc n) a b c hb hc e =
    let halves : bit_xor (a / 2) (b / 2) ≡ bit_xor (a / 2) (c / 2) =
      omega (arith, e, bit_xor_step a b, bit_xor_step a c) in
    omega (
      arith,
      e,
      bit_xor_step a b,
      bit_xor_step a c,
      bit_xor_inj_right n (a / 2) (b / 2) (c / 2) (omega arith) (omega arith) halves,
    )

double : (k : ℕ) → 2 ^ suc k ≡ 2 * 2 ^ k
double k = grind arith

sixteen_times : (k : ℕ) → 16 ^ suc k ≡ 16 * 16 ^ k
sixteen_times k = grind arith

bit_xor-lt : (k a b : ℕ) → a < 2 ^ k → b < 2 ^ k → bit_xor a b < 2 ^ k
bit_xor-lt zero a b ha hb =
    let none_a : a ≡ 0 = omega arith in
    let none_b : b ≡ 0 = omega arith in rw (none_a, none_b) (omega arith)
bit_xor-lt (suc k) a b ha hb =
    let twice = double k in
    let half = bit_xor-lt k (a / 2) (b / 2) (omega (arith, twice)) (omega (arith, twice)) in
    omega (arith, twice, half, bit_xor_step a b)

-- The prime is odd, so multiplying by it loses nothing.
prime_inj :
    (x y : ℕ)
    → x < 2 ^ 64
    → y < 2 ^ 64
    → x * 1099511628211 % 2 ^ 64 ≡ y * 1099511628211 % 2 ^ 64
    → x ≡ y
prime_inj x y hx hy e = omega (arith, e)

fnv_onto-lt : (bs : Bytes) (hash : ℕ) → hash < 2 ^ 64 → fnv_onto hash bs < 2 ^ 64
unfolding fnv_onto
fnv_onto-lt [] hash h = h
fnv_onto-lt (b ∷ bs) hash h = fnv_onto-lt bs _ (omega arith)

-- The same bytes keep different hashes apart.
fnv_onto_inj :
    (bytes : Bytes) (h h' : ℕ)
    → All IsByte bytes
    → h < 2 ^ 64
    → h' < 2 ^ 64
    → fnv_onto h bytes ≡ fnv_onto h' bytes
    → h ≡ h'
unfolding fnv_onto
fnv_onto_inj [] h h' small hl hl' e = e
fnv_onto_inj (b ∷ bytes) h h' small hl hl' e =
    let byte : b < 2 ^ 64 = omega (arith, small.0) in
    let products = fnv_onto_inj bytes _ _ small.1 (omega arith) (omega arith) e in
    let mixed =
      prime_inj (bit_xor h b) (bit_xor h' b) (bit_xor-lt 64 h b hl byte)
        (bit_xor-lt 64 h' b hl' byte) products in
    bit_xor_inj_left (h + h') h h' b (omega arith) (omega arith) mixed

fnv_onto-append : (xs ys : Bytes) (h : ℕ) → fnv_onto h (xs ++ ys) ≡ fnv_onto (fnv_onto h xs) ys
unfolding fnv_onto
fnv_onto-append [] ys h = refl
fnv_onto-append (x ∷ xs) ys h = fnv_onto-append xs ys _

-- Texts that differ in one byte have different hashes.
fnv1a64_one_byte :
    (before after : Bytes) (a b : ℕ)
    → IsByte a
    → IsByte b
    → All IsByte after
    → fnv1a64 (before ++ a ∷ after) ≡ fnv1a64 (before ++ b ∷ after)
    → a ≡ b
unfolding fnv1a64 fnv_onto
fnv1a64_one_byte before after a b ha hb small e =
    let h = fnv_onto fnv_offset before in
    let hl : h < 2 ^ 64 = fnv_onto-lt before fnv_offset (omega arith) in
    let joined =
      sym (fnv_onto-append before (a ∷ after) fnv_offset)
      ∙ e
      ∙ fnv_onto-append before (b ∷ after) fnv_offset in
    let products =
      fnv_onto_inj after (bit_xor h a * 1099511628211 % 2 ^ 64)
        (bit_xor h b * 1099511628211 % 2 ^ 64) small (omega arith) (omega arith) joined in
    let mixed =
      prime_inj (bit_xor h a) (bit_xor h b) (bit_xor-lt 64 h a hl (omega (arith, ha)))
        (bit_xor-lt 64 h b hl (omega (arith, hb))) products in
    bit_xor_inj_right (a + b) h a b (omega arith) (omega arith) mixed

-- The same low `n` hexadecimal digits.
SameDigits : ℕ → ℕ → ℕ → Type 0
SameDigits zero v w = Unit
SameDigits (suc n) v w = (v % 16 ≡ w % 16) × SameDigits n (v / 16) (w / 16)

SameDigits-eq : (n v w : ℕ) → v < 16 ^ n → w < 16 ^ n → SameDigits n v w → v ≡ w
unfolding SameDigits
SameDigits-eq zero v w hv hw s = omega arith
SameDigits-eq (suc n) v w hv hw s =
    let step = sixteen_times n in
    let rest = SameDigits-eq n (v / 16) (w / 16) (omega (arith, step)) (omega (arith, step)) s.1 in
    omega (arith, rest, s.0)

hex_digit_inj : (c d : ℕ) → c < 16 → d < 16 → hex_digit c ≡ hex_digit d → c ≡ d
hex_digit_inj c d hc hd e = sym (unhex-hex_digit c hc) ∙ ap unhex e ∙ unhex-hex_digit d hd

cons_inj : {x y : ℕ} {xs ys : Bytes} → ◌≡◌ {A = Bytes} (x ∷ xs) (y ∷ ys) → (x ≡ y) × (xs ≡ ys)
cons_inj h = (cc, cc)

hex_onto_inj :
    (n v w : ℕ) (out out' : Bytes)
    → hex_onto n v out ≡ hex_onto n w out'
    → SameDigits n v w × (out ≡ out')
unfolding hex_onto SameDigits
hex_onto_inj zero v w out out' e = (tt, e)
hex_onto_inj (suc n) v w out out' e =
    let (rest, digits_same) = hex_onto_inj n (v / 16) (w / 16) _ _ e in
    let (first, outs) = cons_inj digits_same in
    ((hex_digit_inj (v % 16) (w % 16) (omega arith) (omega arith) first, rest), outs)

hex_u64_inj : (v w : ℕ) → v < 2 ^ 64 → w < 2 ^ 64 → hex_u64 v ≡ hex_u64 w → v ≡ w
unfolding hex_u64
hex_u64_inj v w hv hw e = SameDigits-eq 16 v w hv hw (hex_onto_inj 16 v w [] [] e).0

fnv1a64-lt : (source : Bytes) → fnv1a64 source < 2 ^ 64
unfolding fnv1a64
fnv1a64-lt source = fnv_onto-lt source fnv_offset (omega arith)

some_inj {ℓ} : {A : Type ℓ} {a b : A} → some a ≡ some b → a ≡ b
some_inj e = cc

-- An argument that is made has the fingerprint of what its file holds.
made-fingerprint :
    (fs : FileSystem) (path name source : Bytes) (f : JitFunctionArg)
    → jit_function_arg fs path name ≡ ok f
    → fs.read f.module_path ≡ some source
    → f.source_fingerprint ≡ hex_u64 (fnv1a64 source)
made-fingerprint fs path name source f h reads =
    let d = jit_function_arg-Describes fs path name f h in
    d.fingerprint ∙ ap (λ s. hex_u64 (fnv1a64 s)) (some_inj (sym d.reads ∙ reads))

-- When two JIT functions are made, whatever their paths and names, and the files of their modules differ in
-- the value of one byte only, they have different fingerprints; so an edit of one byte is never missed.
pub jit_function_arg-one_byte :
    (fs gs : FileSystem) (path name path' name' before after : Bytes) (a b : ℕ)
    (f g : JitFunctionArg)
    → jit_function_arg fs path name ≡ ok f
    → jit_function_arg gs path' name' ≡ ok g
    → fs.read f.module_path ≡ some (before ++ a ∷ after)
    → gs.read g.module_path ≡ some (before ++ b ∷ after)
    → IsByte a
    → IsByte b
    → All IsByte after
    → a ≢ b
    → f.source_fingerprint ≢ g.source_fingerprint
jit_function_arg-one_byte fs gs path name path' name' before after a b f g made made' reads reads'
      ha hb small differs same =
    let hashes =
      sym (made-fingerprint fs path name (before ++ a ∷ after) f made reads)
      ∙ same
      ∙ made-fingerprint gs path' name' (before ++ b ∷ after) g made' reads' in
    differs (
      fnv1a64_one_byte before after a b ha hb small (
        hex_u64_inj _ _ (fnv1a64-lt (before ++ a ∷ after)) (fnv1a64-lt (before ++ b ∷ after))
          hashes))
