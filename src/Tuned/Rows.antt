-- ===== src/Tuned/Rows.antt =====
-- The rows of one kernel and their hash index: `TunedKernelInfo`, `TuneKeyView`, `hash_key`,
-- `build_index`, and the part of `TunedKernelTable::find` that walks a chain. A pointer to a row is
-- its number. `hash & (n - 1)` is `hash % n`, since `n` is a power of two.
pub mod Chain
pub mod Find
use libtriton_jit.Common.{
  ℕ, zero, suc, ◌+◌, ◌-◌, ◌*◌, ◌/◌, ◌%◌, ◌^◌, bit_xor, Bool, true, false, not, ◌&&◌, ◌||◌, List, [],
  ◌∷◌, ◌++◌, Bytes, text_eq, length, take, get_or, get_elem?, set, replicate, Option, none, some,
  ◌==◌, ltb, if◌then◌else◌,
}
use libtriton_jit.Common.Int.{ℤ, eq_ℤ, to_u64}
use libtriton_jit.JitArg.{fnv_offset, fnv_prime}
use libtriton_jit.Launch.Buffer.{little_endian}
use libtriton_jit.Tuned.Config.{TunedConfig}
use libtriton_jit.Tuned.Key.{KeyStrategy, normalize_dim}

-- `UINT32_MAX`, the end of a chain.
abbrev pub uint32_max : ℕ
uint32_max = 4294967295

abbrev pub max_columns : ℕ
max_columns = 32

-- A pointer and a count: a null pointer with its count, or the elements that it points to.
pub data View {ℓ} (A : Type ℓ) : Type ℓ where
  null : ℕ → View A
  array : List A → View A

abbrev pub count {ℓ} : {A : Type ℓ} → View A → ℕ
count (null n) = n
count (array xs) = length xs

abbrev pub is_null {ℓ} : {A : Type ℓ} → View A → Bool
is_null (null n) = true
is_null (array xs) = false

abbrev pub elements {ℓ} : {A : Type ℓ} → View A → List A
elements (null n) = []
elements (array xs) = xs

-- A dtype may be a null pointer.
pub record TuneKeyView : Type 0 where
  pub dims : View ℤ
  pub dtypes : View (Option Bytes)

pub record TunedKernelInfo : Type 0 where
  pub kernel_id : Bytes
  pub cache_namespace : Bytes
  pub op_name : Bytes
  pub config_table_name : Bytes
  pub key_columns : List (Bytes × KeyStrategy)
  pub ndtype_keys : ℕ
  pub source_sha256 : Bytes
  pub candidate_set_hash : Bytes
  pub unsupported : Bytes
  pub entry_count : ℕ

pub record Entry : Type 0 where
  pub dims : List ℤ
  pub dtypes : List Bytes
  pub config : TunedConfig
  pub next : ℕ

pub record Rows : Type 0 where
  pub entries : List Entry
  pub buckets : List ℕ
  pub info : TunedKernelInfo
  pub storage_id : Bytes

-- What a `const char*` into the text spells: the bytes before the first zero.
unfoldable pub c_str : Bytes → Bytes
c_str [] = []
c_str (c ∷ cs) = if c == 0 then [] else c ∷ c_str cs

unfoldable pub fnv_bytes : ℕ → Bytes → ℕ
fnv_bytes hash [] = hash
fnv_bytes hash (byte ∷ bytes) = fnv_bytes (bit_xor hash byte * fnv_prime % 2 ^ 64) bytes

unfoldable pub hash_dims : ℕ → List ℤ → ℕ
hash_dims hash [] = hash
hash_dims hash (dim ∷ dims) = hash_dims (fnv_bytes hash (little_endian 8 (to_u64 dim))) dims

abbrev pub dtype_text : Option Bytes → Bytes
dtype_text none = []
dtype_text (some dtype) = c_str dtype

unfoldable pub hash_dtypes : ℕ → List (Option Bytes) → ℕ
unfolding c_str
hash_dtypes hash [] = hash
hash_dtypes hash (dtype ∷ dtypes) =
    hash_dtypes (fnv_bytes (fnv_bytes hash (dtype_text dtype)) (0 ∷ [])) dtypes

unfoldable pub hash_key : TunedKernelInfo → List ℤ → List (Option Bytes) → ℕ
unfolding hash_dims hash_dtypes fnv_bytes
hash_key info dims dtypes =
    hash_dtypes (hash_dims fnv_offset (take (length info.key_columns) dims))
      (take info.ndtype_keys dtypes)

-- The loop that doubles `bucket_count`; the first argument bounds it.
unfoldable pub grow : ℕ → ℕ → ℕ → ℕ
grow zero size bucket_count = bucket_count
grow (suc bound) size bucket_count = elim (ltb bucket_count (size * 2)) [
  | true ↦ grow bound size (bucket_count * 2)
  | false ↦ bucket_count
]

unfoldable pub bucket_count_of : ℕ → ℕ
unfolding grow
bucket_count_of size = grow size size 16

abbrev pub some_dtypes : List Bytes → List (Option Bytes)
some_dtypes [] = []
some_dtypes (dtype ∷ dtypes) = some dtype ∷ some_dtypes dtypes

-- `hash_key` of a row's own key, and its bucket.
unfoldable pub bucket_of : TunedKernelInfo → ℕ → Entry → ℕ
bucket_of info bucket_count entry =
    hash_key info entry.dims (some_dtypes entry.dtypes) % bucket_count

module _ (bucket : Entry → ℕ) where
  -- The loop over the rows from number `index` on: each becomes the head of its chain.
  unfoldable pub link_rows : ℕ → List Entry → List ℕ → List Entry × List ℕ
  link_rows index [] buckets = ([], buckets)
  link_rows index (entry ∷ entries) buckets =
      let linked = record entry { next = get_or buckets (bucket entry) uint32_max } in
      let rest = link_rows (index + 1) entries (set buckets (bucket entry) index) in
      (linked ∷ rest.0, rest.1)

unfoldable pub build_index : Rows → Rows
unfolding bucket_count_of
build_index rows =
    let bucket_count = bucket_count_of (length rows.entries) in
    let linked =
      link_rows (bucket_of rows.info bucket_count) 0 rows.entries
        (replicate bucket_count uint32_max) in
    record rows { entries = linked.0; buckets = linked.1 }

unfoldable pub normalize_dims : List (Bytes × KeyStrategy) → List ℤ → List ℤ
normalize_dims (column ∷ columns) (dim ∷ dims) =
    normalize_dim column.1 dim ∷ normalize_dims columns dims
normalize_dims _ _ = []

-- `memcmp` of the columns.
unfoldable pub same_dims : List ℤ → List ℤ → Bool
same_dims dims [] = true
same_dims [] (n ∷ normalized) = false
same_dims (dim ∷ dims) (n ∷ normalized) = eq_ℤ dim n && same_dims dims normalized

unfoldable pub same_dtypes : List Bytes → List (Option Bytes) → Bool
unfolding c_str
same_dtypes dtypes [] = true
same_dtypes [] (key ∷ keys) = false
same_dtypes (dtype ∷ dtypes) (none ∷ keys) = false
same_dtypes (dtype ∷ dtypes) (some key ∷ keys) =
    text_eq dtype (c_str key) && same_dtypes dtypes keys

-- The lambda `matches` of `find`.
unfoldable pub matches : List ℤ → List (Option Bytes) → Entry → Bool
unfolding same_dims same_dtypes
matches normalized dtypes entry = same_dims entry.dims normalized && same_dtypes entry.dtypes dtypes

-- The loop along a chain; the first argument bounds it.
unfoldable pub walk : (Entry → Bool) → List Entry → ℕ → ℕ → Option ℕ
walk found entries zero index = none
walk found entries (suc bound) index = elim (index == uint32_max) [
  | true ↦ none
  | false ↦ elim (get_elem? entries index) [
    | none ↦ none
    | some entry ↦ elim (found entry) [
      | true ↦ some index
      | false ↦ walk found entries bound entry.next
    ]
  ]
]

-- The checks of the key before a lookup.
unfoldable pub fits : TunedKernelInfo → TuneKeyView → Bool
fits info key =
    count key.dims == length info.key_columns
    && (count key.dtypes == info.ndtype_keys
        && (not (ltb max_columns (length info.key_columns))
            && (not (ltb 0 (length info.key_columns) && is_null key.dims)
                && not (ltb 0 info.ndtype_keys && is_null key.dtypes))))

unfoldable pub normalized_of : TunedKernelInfo → TuneKeyView → List ℤ
unfolding normalize_dims
normalized_of info key = normalize_dims info.key_columns (elements key.dims)

-- The lookup in the rows, once the key fits.
unfoldable pub find_row : Rows → TuneKeyView → Option ℕ
unfolding walk normalized_of
find_row rows key =
    let normalized = normalized_of rows.info key in
    let hash = hash_key rows.info normalized (elements key.dtypes) in
    let n = length rows.buckets in
    elim rows.entries [
      | [] ↦ none
      | entry ∷ entries ↦
          walk (matches normalized (elements key.dtypes)) (entry ∷ entries)
            (length (entry ∷ entries)) (get_or rows.buckets (hash % n) uint32_max)
    ]
