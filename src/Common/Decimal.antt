-- ===== src/Common/Decimal.antt =====
-- `std::to_string` of integers, with a reader that inverts it.
use Prim.Native.Nat.{ℕ, zero, suc, ◌+◌, ◌-◌, ◌*◌, ◌/◌, ◌%◌, ◌≤◌, ◌<◌}
use mathlib.Core.Path.{◌≡◌, refl, ap, sym, ◌∙◌}
use mathlib.Core.List.{[], ◌∷◌, ◌++◌}
use mathlib.Core.Logic.{◌≢◌, inl, inr}
use native.Mathlib.Omega.{arith}
use libtriton_jit.Common.Bools.{ltb, if◌then◌else◌, Bool-cases}
use libtriton_jit.Common.Lists.{All, All-append}
use libtriton_jit.Common.Text.{Bytes}
use libtriton_jit.Common.Int.{ℤ, pos, negsuc}

digits_fuel : ℕ → ℕ → Bytes
digits_fuel zero n = []
digits_fuel (suc f) n =
    let rest = digits_fuel f (n / 10) ++ (b'0' + n % 10) ∷ [] in
    if ltb n 10 then (b'0' + n) ∷ [] else rest

-- The number is its own fuel: each round divides it by ten.
unfoldable pub decimal : ℕ → Bytes
unfolding digits_fuel
decimal n = digits_fuel (suc n) n

unfoldable pub to_string : ℤ → Bytes
unfolding decimal
to_string (pos n) = decimal n
to_string (negsuc n) = b'-' ∷ decimal (suc n)

read_onto : ℕ → Bytes → ℕ
read_onto acc [] = acc
read_onto acc (c ∷ cs) = read_onto (acc * 10 + (c - b'0')) cs

read_onto-append :
    (acc : ℕ) (xs ys : Bytes) → read_onto acc (xs ++ ys) ≡ read_onto (read_onto acc xs) ys
unfolding read_onto
read_onto-append acc [] ys = refl
read_onto-append acc (x ∷ xs) ys = read_onto-append (acc * 10 + (x - b'0')) xs ys

read-digits_fuel : (f n : ℕ) → n < f → read_onto 0 (digits_fuel f n) ≡ n
unfolding digits_fuel read_onto
read-digits_fuel zero n h = elim h [ ]
read-digits_fuel (suc f) n h = elim (Bool-cases (ltb n 10)) [
  | inl small ↦ rw small (omega arith)
  | inr large ↦
      rw large (rw read_onto-append (rw (read-digits_fuel f (n / 10) (ground arith)) (omega arith)))
]

read-decimal : (n : ℕ) → read_onto 0 (decimal n) ≡ n
unfolding decimal
read-decimal n = read-digits_fuel (suc n) n (omega arith)

pub decimal_inj : (m n : ℕ) → decimal m ≡ decimal n → m ≡ n
decimal_inj m n e = sym (read-decimal m) ∙ ap (read_onto 0) e ∙ read-decimal n

abbrev pub IsDigit : ℕ → Type 0
IsDigit c = (b'0' ≤ c) × (c ≤ b'9')

digits_fuel-IsDigit : (f n : ℕ) → All IsDigit (digits_fuel f n)
unfolding digits_fuel
digits_fuel-IsDigit zero n = tt
digits_fuel-IsDigit (suc f) n = elim (Bool-cases (ltb n 10)) [
  | inl small ↦ rw small (ground arith)
  | inr large ↦
      rw large (
        All-append IsDigit (digits_fuel f (n / 10)) _ (digits_fuel-IsDigit f (n / 10))
          (omega arith))
]

pub decimal-IsDigit : (n : ℕ) → All IsDigit (decimal n)
unfolding decimal
decimal-IsDigit n = digits_fuel-IsDigit (suc n) n

-- A text does not begin with a minus sign and with a digit at once.
IsDigit-ne-minus : (xs ys : Bytes) → All IsDigit xs → xs ≡ b'-' ∷ ys → ⊥
IsDigit-ne-minus [] ys h e = cc
IsDigit-ne-minus (x ∷ xs) ys h e = let c : x ≡ b'-' = cc in omega arith

pub to_string_inj : (a b : ℤ) → to_string a ≡ to_string b → a ≡ b
unfolding to_string
to_string_inj (pos m) (pos n) e = ap pos (decimal_inj m n e)
to_string_inj (pos m) (negsuc n) e = absurd (IsDigit-ne-minus (decimal m) _ (decimal-IsDigit m) e)
to_string_inj (negsuc m) (pos n) e =
    absurd (IsDigit-ne-minus (decimal n) _ (decimal-IsDigit n) (sym e))
to_string_inj (negsuc m) (negsuc n) e =
    let t : decimal (suc m) ≡ decimal (suc n) = cc in
    ap negsuc (omega (arith, decimal_inj (suc m) (suc n) t))

example_decimal : decimal 2040 ≡ b'2' ∷ b'0' ∷ b'4' ∷ b'0' ∷ []
unfolding decimal
example_decimal = refl

append-ne-nil : (xs : Bytes) (c : ℕ) → xs ++ c ∷ [] ≢ []
append-ne-nil [] c e = cc
append-ne-nil (x ∷ xs) c e = cc

decimal-ne-nil : (n : ℕ) → decimal n ≢ []
unfolding decimal
decimal-ne-nil n e = elim (Bool-cases (ltb n 10)) [
  | inl small ↦ cc (rw small at e)
  | inr large ↦ append-ne-nil (digits_fuel n (n / 10)) _ (rw large at e)
]

-- A text of digits that is not empty begins with a digit.
digits-cons :
    (xs : Bytes)
    → All IsDigit xs
    → xs ≢ []
    → (c : ℕ) × (cs : Bytes) × (xs ≡ c ∷ cs) × IsDigit c × All IsDigit cs
digits-cons [] h ne = absurd (ne refl)
digits-cons (c ∷ cs) h ne = (c, cs, refl, h.0, h.1)

pub decimal-cons :
    (n : ℕ) → (c : ℕ) × (cs : Bytes) × (decimal n ≡ c ∷ cs) × IsDigit c × All IsDigit cs
decimal-cons n = digits-cons (decimal n) (decimal-IsDigit n) (decimal-ne-nil n)
