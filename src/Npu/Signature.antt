-- ===== src/Npu/Signature.antt =====
-- `trim_signature_token`, `split_signature_tokens`, `append_signature_token` and
-- `parse_signature`. The loop of `split_signature_tokens` keeps the bytes from `token_start` on
-- instead of the index.
pub mod Split
use libtriton_jit.Common.{
  ℕ, zero, suc, ◌+◌, ◌-◌, Bool, true, false, not, ◌&&◌, ◌||◌, List, [], ◌∷◌, ◌++◌, Bytes, codes,
  text_eq, starts_with, is_empty, leb, ◌==◌, take, get_or, length, Result, ok, throw, ◌>>=◌, ◌>>◌,
  throw_if, if◌then◌else◌,
}
use mathlib.Core.List.{reverse}
use libtriton_jit.Npu.Types.{NpuArgType, pointer, i32, i64, f32, f64}

pub data SignatureError : Type 0 where
  unmatched_close unmatched_open empty_token empty_tuple nested_tuple : SignatureError

-- `" \t"`
abbrev pub is_blank : ℕ → Bool
is_blank c = c == b' ' || c == b'\t'

unfoldable pub skip_blanks : Bytes → Bytes
skip_blanks [] = []
skip_blanks (c ∷ cs) = if is_blank c then skip_blanks cs else c ∷ cs

-- From `find_first_not_of` to `find_last_not_of`.
unfoldable pub trim_signature_token : Bytes → Bytes
unfolding skip_blanks
trim_signature_token token = reverse (skip_blanks (reverse (skip_blanks token)))

abbrev pub Split : Type 0
Split = Result SignatureError (List Bytes)

-- Behind the loop: `depth`, the tokens so far, and what stands from `token_start` to the end.
unfoldable pub finish_split : ℕ → List Bytes → Bytes → Split
finish_split depth tokens token = do
  throw_if (not (depth == 0)) unmatched_open
  let final_token = trim_signature_token token
  (if not (is_empty final_token)
      then ok (tokens ++ final_token ∷ [])
      else elim tokens [ [] ↦ ok [] | t ∷ ts ↦ throw empty_token ])

-- The loop; `token` is what stands from `token_start` up to `i`.
unfoldable pub split_loop : Bytes → ℕ → List Bytes → Bytes → Split
split_loop [] depth tokens token = finish_split depth tokens token
split_loop (ch ∷ rest) depth tokens token = elim (ch == b'(') [
  | true ↦ split_loop rest (depth + 1) tokens (token ++ ch ∷ [])
  | false ↦ elim (ch == b')') [
    | true ↦ elim (depth == 0) [
      | true ↦ throw unmatched_close
      | false ↦ split_loop rest (depth - 1) tokens (token ++ ch ∷ [])
    ]
    | false ↦ elim (ch == b',' && depth == 0) [
      | true ↦ elim (is_empty (trim_signature_token token)) [
        | true ↦ throw empty_token
        | false ↦ split_loop rest depth (tokens ++ trim_signature_token token ∷ []) []
      ]
      | false ↦ split_loop rest depth tokens (token ++ ch ∷ [])
    ]
  ]
]

unfoldable pub split_signature_tokens : Bytes → Split
split_signature_tokens signature = split_loop signature 0 [] []

-- `std::isdigit` in the "C" locale.
abbrev pub is_digit : ℕ → Bool
is_digit c = leb b'0' c && leb c b'9'

-- `token.substr(0, token.find(':'))`
unfoldable pub before_colon : Bytes → Bytes
before_colon [] = []
before_colon (c ∷ cs) = if c == b':' then [] else c ∷ before_colon cs

unfoldable pub is_number : Bytes → Bool
is_number token =
    is_digit (get_or token 0 0) || (get_or token 0 0 == b'-' && is_digit (get_or token 1 0))

-- The type of a token that is a runtime argument. An unknown name counts as i64.
unfoldable pub arg_type_of : Bytes → NpuArgType
arg_type_of token =
    let three = take 3 token in
    let four = take 4 token in
    if get_or token 0 0 == b'*'
    then pointer
    else if text_eq three (codes "i64") || text_eq three (codes "u64")
    then i64
    else if text_eq three (codes "i32") || text_eq three (codes "u32")
    then i32
    else if text_eq four (codes "fp64") || text_eq three (codes "f64")
    then f64
    else if text_eq four (codes "fp32") || text_eq three (codes "f32")
    then f32
    else if text_eq four (codes "fp16")
        || (text_eq three (codes "f16") || text_eq four (codes "bf16"))
    then f32
    else i64

-- A token that is no tuple: what it adds to the layout.
unfoldable pub scalar_layout : Bytes → List NpuArgType
unfolding is_number before_colon arg_type_of
scalar_layout token =
    if starts_with token (codes "@jit:")
    then []
    else if text_eq token (codes "nullopt")
        || (text_eq token (codes "true") || text_eq token (codes "false"))
    then []
    else if is_number token
    then []
    else arg_type_of (before_colon token) ∷ []

-- `find_first_of("()") != npos`
unfoldable pub has_paren : Bytes → Bool
has_paren [] = false
has_paren (c ∷ cs) = c == b'(' || (c == b')' || has_paren cs)

-- The loop over a tuple's elements. An element has no parenthesis when the function is called for
-- it again, so that call takes the branch for a token that is no tuple.
unfoldable pub append_elements :
    List Bytes → List NpuArgType → Result SignatureError (List NpuArgType)
append_elements [] layout = ok layout
append_elements (element ∷ rest) layout = do
  throw_if (has_paren element) nested_tuple
  append_elements rest (layout ++ scalar_layout element)

-- `starts_with('(') && ends_with(')')`
unfoldable pub is_tuple : Bytes → Bool
is_tuple token = get_or token 0 0 == b'(' && get_or (reverse token) 0 0 == b')'

-- `token.data() + 1`, of length `token.size() - 2`
unfoldable pub inner_of : Bytes → Bytes
inner_of [] = []
inner_of (c ∷ cs) = take (length cs - 1) cs

unfoldable pub append_signature_token :
    Bytes → List NpuArgType → Result SignatureError (List NpuArgType)
append_signature_token token layout =
    if is_tuple token
    then (do
      throw_if (is_empty (trim_signature_token (inner_of token))) empty_tuple
      elements ← split_signature_tokens (inner_of token)
      append_elements elements layout)
    else ok (layout ++ scalar_layout token)

unfoldable pub append_tokens :
    List Bytes → List NpuArgType → Result SignatureError (List NpuArgType)
append_tokens [] layout = ok layout
append_tokens (token ∷ tokens) layout = append_signature_token token layout >>= append_tokens tokens

unfoldable pub parse_signature : Bytes → Result SignatureError (List NpuArgType)
unfolding append_tokens
parse_signature sig = do tokens ← split_signature_tokens sig; append_tokens tokens []
