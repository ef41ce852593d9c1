-- ===== src/Npu/Agreement/Tuples.antt =====
-- A runtime tuple's token is taken for as many arguments as the tuple has elements.
use mathlib.Core.List.{reverse-append}
use libtriton_jit.Common.{
  ℕ, ◌-◌, true, false, List, [], ◌∷◌, ◌++◌, Bytes, length, length-append, All, map, take,
  take-append_at, inl, ◌≡◌, refl, sym, ap, ◌∙◌, arith, ok, append-nil, append_assoc, is_empty,
}
use libtriton_jit.Launch.Args.Entry.{elements_text}
use libtriton_jit.Launch.Buffer.{little_endian}
use libtriton_jit.Launch.Spec.{
  Number, boolean, int32, uint32, int64, uint64, float, double, triton_type, datum_of, join_sig,
  join_rest,
}
use libtriton_jit.Npu.Agreement.{Agrees, Fits, Reads, is_bool}
use libtriton_jit.Npu.Signature.Split.{
  IsToken, IsToken-plain, every, every-append, is_plain, is_closed, is_visible, trim-visible,
  split-join_sig, every-visible, closed-plain,
}
use libtriton_jit.Npu.Signature.{
  append_signature_token, append_elements, scalar_layout, is_tuple, inner_of, has_paren,
}
use libtriton_jit.Npu.Types
use libtriton_jit.Npu.Types.{NpuArgType, f32, f64, get_size}

-- The type that the parser reads for an element, by its C++ type's name.
element_type : Number → NpuArgType
element_type (boolean v) = Types.i64
element_type (int32 v) = Types.i32
element_type (uint32 v) = Types.i32
element_type (int64 v) = Types.i64
element_type (uint64 v) = Types.i64
element_type (float bits) = f32
element_type (double bits) = f64

-- What the parser finds of one element's name.
record Named (n : Number) : Type 0 where
  plain : every is_plain (triton_type n) ≡ true
  not_empty : is_empty (triton_type n) ≡ false
  no_paren : has_paren (triton_type n) ≡ false
  layout : scalar_layout (triton_type n) ≡ element_type n ∷ []

element-Named : (n : Number) → is_bool n ≡ false → Named n
unfolding triton_type every has_paren scalar_layout element_type
element-Named (boolean v) h = cc
element-Named _ h = record { plain = refl; not_empty = refl; no_paren = refl; layout = refl }

element_reads : (n : Number) → is_bool n ≡ false → Fits (element_type n) (datum_of n)
unfolding get_size element_type datum_of little_endian
element_reads (boolean v) h = cc
element_reads _ h = inl refl

IsElements : List Number → Type 0
IsElements = All (λ n. is_bool n ≡ false)

names_tokens :
    (ns : List Number) → All (λ n. is_bool n ≡ false) ns → All IsToken (map triton_type ns)
names_tokens [] h = tt
names_tokens (n ∷ ns) h =
    let e = element-Named n h.0 in
    (IsToken-plain (triton_type n) e.plain e.not_empty, names_tokens ns h.1)

append_elements-names :
    (ns : List Number) (layout : List NpuArgType)
    → All (λ n. is_bool n ≡ false) ns
    → append_elements (map triton_type ns) layout ≡ ok (layout ++ map element_type ns)
unfolding append_elements
append_elements-names [] layout h = rw append-nil
append_elements-names (n ∷ ns) layout h =
    let e = element-Named n h.0 in
    rw (e.no_paren, e.layout)
      (append_elements-names ns (layout ++ element_type n ∷ []) h.1
        ∙ ap ok (append_assoc layout (element_type n ∷ []) (map element_type ns)))

elements-Reads :
    (ns : List Number)
    → All (λ n. is_bool n ≡ false) ns
    → Reads (map element_type ns) (map datum_of ns)
elements-Reads [] h = tt
elements-Reads (n ∷ ns) h = (element_reads n h.0, elements-Reads ns h.1)

elements_text-join_rest :
    (ns : List Number) → elements_text ns ≡ join_rest (map triton_type ns) ++ b')' ∷ []
unfolding elements_text join_rest
elements_text-join_rest [] = refl
elements_text-join_rest (n ∷ ns) = rw (elements_text-join_rest ns, append_assoc)

-- Inside the parentheses every byte is visible, and what follows closes as without them.
rest_visible :
    (ns : List Number)
    → All (λ n. is_bool n ≡ false) ns
    → every is_visible (join_rest (map triton_type ns)) ≡ true
unfolding join_rest every
rest_visible [] h = refl
rest_visible (n ∷ ns) h =
    every-append is_visible (triton_type n) (join_rest (map triton_type ns))
      (every-visible (triton_type n) (element-Named n h.0).plain) (rest_visible ns h.1)

rest_closed :
    (ns : List Number)
    → All (λ n. is_bool n ≡ false) ns
    → is_closed 1 (join_rest (map triton_type ns) ++ b')' ∷ []) ≡ true
unfolding join_rest is_closed
rest_closed [] h = refl
rest_closed (n ∷ ns) h = rw append_assoc (
    closed-plain (triton_type n) (join_rest (map triton_type ns) ++ b')' ∷ []) 1
      (element-Named n h.0).plain
    ∙ rest_closed ns h.1)

take-append_last : (xs : Bytes) (c : ℕ) → take (length (xs ++ c ∷ []) - 1) (xs ++ c ∷ []) ≡ xs
take-append_last xs c =
    take-append_at (length (xs ++ c ∷ []) - 1) xs (c ∷ [])
      (omega (arith, length-append {0} xs (c ∷ [])))

group-IsToken :
    (inner : Bytes)
    → every is_visible inner ≡ true
    → is_closed 1 (inner ++ b')' ∷ []) ≡ true
    → IsToken (b'(' ∷ (inner ++ b')' ∷ []))
unfolding every is_closed
group-IsToken inner visible closed = record {
  trimmed =
      trim-visible (b'(' ∷ (inner ++ b')' ∷ [])) (every-append is_visible inner _ visible refl);
  not_empty = refl;
  closed = closed;
}

is_tuple-group : (inner : Bytes) → is_tuple (b'(' ∷ (inner ++ b')' ∷ [])) ≡ true
unfolding is_tuple
is_tuple-group inner = rw (reverse-append (b'(' ∷ inner) (b')' ∷ []))

inner_of-group : (inner : Bytes) → inner_of (b'(' ∷ (inner ++ b')' ∷ [])) ≡ inner
unfolding inner_of
inner_of-group inner = take-append_last inner b')'

append-is_empty : (xs ys : Bytes) → is_empty xs ≡ false → is_empty (xs ++ ys) ≡ false
append-is_empty [] ys h = cc
append-is_empty (x ∷ xs) ys h = refl

-- The token of a tuple none of whose elements is a `bool`.
pub tuple-Agrees :
    (n : Number) (ns : List Number)
    → is_bool n ≡ false
    → All (λ n. is_bool n ≡ false) ns
    → Agrees (b'(' ∷ (triton_type n ++ elements_text ns), map datum_of (n ∷ ns))
tuple-Agrees n ns h hs =
    let e = element-Named n h in
    let names = map triton_type (n ∷ ns) in
    let inner = join_sig names in
    let shape : triton_type n ++ elements_text ns ≡ inner ++ b')' ∷ [] =
      unfold join_sig in
      rw (elements_text-join_rest ns)
        (sym (append_assoc (triton_type n) (join_rest (map triton_type ns)) (b')' ∷ []))) in
    let visible : every is_visible inner ≡ true =
      unfold join_sig in
      every-append is_visible (triton_type n) (join_rest (map triton_type ns))
        (every-visible (triton_type n) e.plain) (rest_visible ns hs) in
    let filled : is_empty inner ≡ false =
      unfold join_sig in append-is_empty (triton_type n) _ e.not_empty in
    rw shape (record {
      types = map element_type (n ∷ ns);
      token = group-IsToken inner visible (
          unfold join_sig in
          rw append_assoc (
            closed-plain (triton_type n) (join_rest (map triton_type ns) ++ b')' ∷ []) 1 e.plain
            ∙ rest_closed ns hs));
      parsed = λ layout.
          unfold append_signature_token in
          rw
            (
              is_tuple-group inner,
              inner_of-group inner,
              trim-visible inner visible,
              filled,
              split-join_sig names (names_tokens (n ∷ ns) (h, hs)),
            )
            (append_elements-names (n ∷ ns) layout (h, hs));
      reads = elements-Reads (n ∷ ns) (h, hs);
    })
