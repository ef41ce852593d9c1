-- ===== src/Launch/Buffer/Slots.antt =====
-- Every value that was pushed can be read back at the pointer that is passed for it.
use libtriton_jit.Common.{
  ℕ, zero, suc, ◌+◌, ◌-◌, ◌%◌, ◌≤◌, ◌<◌, ◌≡◌, refl, ap, ◌∙◌, List, [], ◌∷◌, ◌++◌, Bytes, length,
  replicate, length-append, length-replicate, append_assoc, append-nil, arith, All, take-all,
  drop-append, drop-all, take-append_le, take-append_at,
}
use libtriton_jit.Launch.Buffer.{
  get_next_multiple_of, Datum, ParameterBuffer, empty, resize, memcpy_at, push_arg, push_all, slice,
  size,
}

slice-append : (o n : ℕ) (xs ys : Bytes) → o + n ≤ length xs → slice o n (xs ++ ys) ≡ slice o n xs
unfolding slice
slice-append zero n xs ys h = take-append_le n xs ys (omega arith)
slice-append (suc o) n [] ys h = absurd (omega arith)
slice-append (suc o) n (x ∷ xs) ys h = slice-append o n xs ys (omega arith)

slice_self : (o : ℕ) (xs ys : Bytes) → length xs ≡ o → slice o (length ys) (xs ++ ys) ≡ ys
unfolding slice
slice_self o xs ys e = rw (← e, drop-append) (take-all (length ys) ys (omega arith))

-- The next multiple is a multiple, no earlier, and less than one step away.
pub next_multiple :
    (pos step : ℕ)
    → 0 < step
    → (get_next_multiple_of pos step % step ≡ 0)
      × (pos ≤ get_next_multiple_of pos step)
      × (get_next_multiple_of pos step < pos + step)
unfolding get_next_multiple_of
next_multiple pos step h = (grind arith, grind arith, grind arith)

pub replicate-add {ℓ} :
    {A : Type ℓ} (m n : ℕ) (a : A) → replicate (m + n) a ≡ replicate m a ++ replicate n a
replicate-add zero n a = ap (λ k. replicate k a) (omega arith)
replicate-add (suc m) n a =
    let e : suc m + n ≡ suc (m + n) = omega arith in rw e (ap (◌∷◌ a) (replicate-add m n a))

-- A `memcpy` to the end of a buffer that was just made large enough appends, behind the padding.
pub grow_append :
    (buff bytes : Bytes) (p o : ℕ)
    → o ≡ length buff + p
    → memcpy_at o bytes (resize (o + length bytes) buff) ≡ buff ++ (replicate p 0 ++ bytes)
unfolding memcpy_at resize
grow_append buff bytes p o at =
    let n = length bytes in
    let total : o + n - length buff ≡ p + n = omega arith in
    let whole : length (buff ++ replicate (p + n) 0) ≤ o + n = omega (
      arith,
      length-append {0} buff (replicate (p + n) 0),
      length-replicate {0} {A = ℕ} (p + n) 0,
    ) in
    let front : length (buff ++ replicate p 0) ≡ o =
      omega (arith, length-append {0} buff (replicate p 0), length-replicate {0} {A = ℕ} p 0) in
    rw
      (
        take-all (o + n) buff (omega arith),
        total,
        drop-all (o + n) (buff ++ replicate (p + n) 0) whole,
        append-nil,
        replicate-add {A = ℕ} p n 0,
        ← append_assoc buff (replicate p 0) (replicate n 0),
        take-append_at o (buff ++ replicate p 0) (replicate n 0) front,
      )
      (append_assoc buff (replicate p 0) bytes)

-- The pointers in `os` lead to the values: each is a multiple of its value's alignment, lies behind
-- the value before it, and the bytes there are the value's.
abbrev pub Stored : Bytes → ℕ → List ℕ → List Datum → Type 0
Stored buff from [] [] = from ≤ length buff
Stored buff from (o ∷ os) (v ∷ vs) =
    (from ≤ o)
    × (o % v.align ≡ 0)
    × (slice o (length v.bytes) buff ≡ v.bytes)
    × Stored buff (o + length v.bytes) os vs
Stored buff from _ _ = ⊥

Stored-le :
    (buff : Bytes) (from : ℕ) (os : List ℕ) (vs : List Datum)
    → Stored buff from os vs
    → from ≤ length buff
Stored-le buff from [] [] h = h
Stored-le buff from (o ∷ os) [] h = absurd h
Stored-le buff from [] (v ∷ vs) h = absurd h
Stored-le buff from (o ∷ os) (v ∷ vs) h =
    omega (arith, Stored-le buff (o + length v.bytes) os vs h.3)

Stored-append :
    (buff more : Bytes) (from : ℕ) (os : List ℕ) (vs : List Datum) (o : ℕ) (v : Datum)
    → Stored buff from os vs
    → length buff ≤ o
    → o % v.align ≡ 0
    → slice o (length v.bytes) (buff ++ more) ≡ v.bytes
    → o + length v.bytes ≤ length (buff ++ more)
    → Stored (buff ++ more) from (os ++ o ∷ []) (vs ++ v ∷ [])
Stored-append buff more from [] [] o v h le al sl fits = (omega arith, al, sl, fits)
Stored-append buff more from (p ∷ os) [] o v h le al sl fits = absurd h
Stored-append buff more from [] (w ∷ vs) o v h le al sl fits = absurd h
Stored-append buff more from (p ∷ os) (w ∷ vs) o v h le al sl fits =
    let room = Stored-le buff (p + length w.bytes) os vs h.3 in
    (
      h.0,
      h.1,
      slice-append p (length w.bytes) buff more room ∙ h.2,
      Stored-append buff more (p + length w.bytes) os vs o v h.3 le al sl fits,
    )

-- The buffer holds the values: its cursor is its length, and its pointers lead to them.
pub record Holds (b : ParameterBuffer) (vs : List Datum) : Type 0 where
  pub full : length b.buff ≡ b.cursor
  pub stored : Stored b.buff 0 b.offsets vs
  pub counted : size b ≡ length vs

push_arg-Holds :
    (v : Datum) (b : ParameterBuffer) (vs : List Datum)
    → 0 < v.align
    → Holds b vs
    → Holds (push_arg v b) (vs ++ v ∷ [])
unfolding push_arg size
push_arg-Holds v b vs pos h =
    let o = get_next_multiple_of b.cursor v.align in
    let p = o - b.cursor in
    let n = length v.bytes in
    let next = next_multiple b.cursor v.align pos in
    let at : o ≡ length b.buff + p = omega (arith, h.full) in
    let grown : (push_arg v b).buff ≡ b.buff ++ (replicate p 0 ++ v.bytes) =
      grow_append b.buff v.bytes p o at in
    let padded : length (b.buff ++ replicate p 0) ≡ o =
      omega (
        arith,
        h.full,
        length-append {0} b.buff (replicate p 0),
        length-replicate {0} {A = ℕ} p 0,
      ) in
    let whole : length (b.buff ++ (replicate p 0 ++ v.bytes)) ≡ o + n = omega (
      arith,
      padded,
      length-append {0} b.buff (replicate p 0 ++ v.bytes),
      length-append {0} (replicate p 0) v.bytes,
      length-append {0} b.buff (replicate p 0),
    ) in
    let there : slice o n (b.buff ++ (replicate p 0 ++ v.bytes)) ≡ v.bytes =
      rw (← append_assoc b.buff (replicate p 0) v.bytes)
        (slice_self o (b.buff ++ replicate p 0) v.bytes padded) in
    record {
      full = rw grown whole;
      stored = rw grown (
          Stored-append b.buff (replicate p 0 ++ v.bytes) 0 b.offsets vs o v h.stored
            (omega (arith, h.full)) next.0 there (omega (arith, whole)));
      counted =
          omega
            (arith, h.counted, length-append {0} b.offsets (o ∷ []), length-append {0} vs (v ∷ []));
    }

push_all-Holds_from :
    (vs seen : List Datum) (b : ParameterBuffer)
    → All (λ v. 0 < v.align) vs
    → Holds b seen
    → Holds (push_all vs b) (seen ++ vs)
unfolding push_all
push_all-Holds_from [] seen b h held = rw append-nil held
push_all-Holds_from (v ∷ vs) seen b h held =
    rw append_assoc at (
      push_all-Holds_from vs (seen ++ v ∷ []) (push_arg v b) h.1 (push_arg-Holds v b seen h.0 held))

-- Whatever values are pushed into an empty buffer, in whatever order: there is one pointer for each
-- value, in order; every pointer is a multiple of its value's alignment and lies behind the bytes
-- of the value before; and the bytes of the final buffer at that pointer are the value's.
pub push_all-Holds : (vs : List Datum) → All (λ v. 0 < v.align) vs → Holds (push_all vs empty) vs
unfolding empty size
push_all-Holds vs h =
    push_all-Holds_from vs [] empty h (record { full = refl; stored = omega arith; counted = refl })
