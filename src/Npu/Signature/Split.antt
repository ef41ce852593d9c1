-- ===== src/Npu/Signature/Split.antt =====
-- Splitting a joined signature gives its tokens back.
use mathlib.Core.List.{reverse, reverse-reverse, reverse-append}
use libtriton_jit.Common.{
  ℕ, ◌+◌, ◌-◌, Bool, true, false, not, ◌&&◌, List, [], ◌∷◌, ◌++◌, Bytes, is_empty, ◌==◌, ◌≡◌, refl,
  ap, ◌∙◌, ok, arith, All, append_assoc, append-nil,
}
use libtriton_jit.Launch.Spec.{join_sig, join_rest}
use libtriton_jit.Npu.Signature.{
  is_blank, skip_blanks, trim_signature_token, split_loop, finish_split, split_signature_tokens,
}

-- The text closes what it opens, from `depth` down to 0, and has no comma at depth 0.
unfoldable pub is_closed : ℕ → Bytes → Bool
is_closed depth [] = depth == 0
is_closed depth (c ∷ cs) = elim (c == b'(') [
  | true ↦ is_closed (depth + 1) cs
  | false ↦ elim (c == b')') [
    | true ↦ elim (depth == 0) [ true ↦ false | false ↦ is_closed (depth - 1) cs ]
    | false ↦ elim (c == b',' && depth == 0) [ true ↦ false | false ↦ is_closed depth cs ]
  ]
]

-- Tokens as the argument handler writes them.
pub record IsToken (t : Bytes) : Type 0 where
  pub trimmed : trim_signature_token t ≡ t
  pub not_empty : is_empty t ≡ false
  pub closed : is_closed 0 t ≡ true

split_loop-closed :
    (cs rest : Bytes) (depth : ℕ) (tokens : List Bytes) (token : Bytes)
    → is_closed depth cs ≡ true
    → split_loop (cs ++ rest) depth tokens token ≡ split_loop rest 0 tokens (token ++ cs)
unfolding split_loop is_closed
split_loop-closed [] rest depth tokens token h = ground (arith, append-nil token)
split_loop-closed (c ∷ cs) rest depth tokens token h = rw (← append_assoc token (c ∷ []) cs) (
    ground (
      arith,
      split_loop-closed cs rest (depth + 1) tokens (token ++ c ∷ []),
      split_loop-closed cs rest (depth - 1) tokens (token ++ c ∷ []),
      split_loop-closed cs rest depth tokens (token ++ c ∷ []),
    ))

split_loop-join_rest :
    (ts : List Bytes) (tokens : List Bytes) (token : Bytes)
    → IsToken token
    → All IsToken ts
    → split_loop (join_rest ts) 0 tokens token ≡ ok (tokens ++ token ∷ ts)
unfolding split_loop join_rest finish_split
split_loop-join_rest [] tokens token h hs = rw (h.trimmed, h.not_empty)
split_loop-join_rest (t ∷ ts) tokens token h hs =
    rw (h.trimmed, h.not_empty, split_loop)
      (rw h.trimmed (
        split_loop-closed t (join_rest ts) 0 (tokens ++ token ∷ []) [] hs.0.closed
        ∙ split_loop-join_rest ts (tokens ++ token ∷ []) t hs.0 hs.1
        ∙ ap ok (append_assoc tokens (token ∷ []) (t ∷ ts))))

-- When every token is trimmed, not empty, closes the parentheses that it opens and no others, and has no
-- comma outside them, the tokens that are joined with commas come back one by one, whatever commas stand
-- inside their parentheses.
pub split-join_sig :
    (ts : List Bytes) → All IsToken ts → split_signature_tokens (join_sig ts) ≡ ok ts
unfolding split_signature_tokens join_sig
split-join_sig [] h = unfold split_loop finish_split trim_signature_token skip_blanks in refl
split-join_sig (t ∷ ts) h =
    split_loop-closed t (join_rest ts) 0 [] [] h.0.closed ∙ split_loop-join_rest ts [] t h.0 h.1

-- Every byte satisfies the test.
unfoldable pub every : (ℕ → Bool) → Bytes → Bool
every p [] = true
every p (c ∷ cs) = p c && every p cs

pub every-append :
    (p : ℕ → Bool) (xs ys : Bytes)
    → every p xs ≡ true
    → every p ys ≡ true
    → every p (xs ++ ys) ≡ true
unfolding every
every-append p [] ys hx hy = hy
every-append p (x ∷ xs) ys hx hy = ground (arith, every-append p xs ys)

abbrev pub is_visible : ℕ → Bool
is_visible c = not (is_blank c)

skip_blanks-visible : (cs : Bytes) → every is_visible cs ≡ true → skip_blanks cs ≡ cs
unfolding skip_blanks every
skip_blanks-visible [] h = refl
skip_blanks-visible (c ∷ cs) h = ground arith

every-reverse : (p : ℕ → Bool) (cs : Bytes) → every p cs ≡ true → every p (reverse cs) ≡ true
unfolding every
every-reverse p [] h = refl
every-reverse p (c ∷ cs) h =
    rw (reverse-append (c ∷ []) cs)
      (every-append p (reverse cs) (c ∷ []) (every-reverse p cs (ground arith)) (ground arith))

pub trim-visible : (cs : Bytes) → every is_visible cs ≡ true → trim_signature_token cs ≡ cs
unfolding trim_signature_token
trim-visible cs h =
    rw (skip_blanks-visible cs h, skip_blanks-visible (reverse cs) (every-reverse is_visible cs h))
      (reverse-reverse cs)

-- No blank, comma or parenthesis.
abbrev pub is_plain : ℕ → Bool
is_plain c = not (is_blank c) && (not (c == b',') && (not (c == b'(') && not (c == b')')))

pub closed-plain :
    (cs rest : Bytes) (depth : ℕ)
    → every is_plain cs ≡ true
    → is_closed depth (cs ++ rest) ≡ is_closed depth rest
unfolding every is_closed
closed-plain [] rest depth h = refl
closed-plain (c ∷ cs) rest depth h = ground (arith, closed-plain cs rest depth)

pub every-visible : (cs : Bytes) → every is_plain cs ≡ true → every is_visible cs ≡ true
unfolding every
every-visible [] h = refl
every-visible (c ∷ cs) h = ground (arith, every-visible cs)

pub IsToken-plain : (cs : Bytes) → every is_plain cs ≡ true → is_empty cs ≡ false → IsToken cs
unfolding is_closed
IsToken-plain cs h ne = record {
  trimmed = trim-visible cs (every-visible cs h);
  not_empty = ne;
  closed = rw (append-nil cs) at (closed-plain cs [] 0 h);
}
