-- ===== src/Tuned/Rows/Find.antt =====
-- The index: `build_index` makes at least two buckets for each row, and a lookup through it finds
-- the last row of the key, as a plain search through all the rows does.
use libtriton_jit.Common.{
  ℕ, zero, suc, ◌+◌, ◌*◌, ◌%◌, ◌^◌, ◌≤◌, ◌<◌, Bool, true, &&_iff, List, [], ◌∷◌, Bytes, text_eq,
  text_eq_iff, length, length-replicate, get_or-replicate, take, get_or, get_elem?, replicate,
  Option, none, some, ◌≡◌, refl, sym, ap, ap₂, ◌∙◌, arith, ◌==◌, ltb, inl, inr, Bool-cases,
}
use native.Mathlib.Nat.{mod-lt, one-le-pow}
use libtriton_jit.Common.Int.{ℤ, eq_ℤ, eq_ℤ→eq}
use libtriton_jit.Tuned.Rows.{
  Entry, Rows, TunedKernelInfo, TuneKeyView, elements, uint32_max, link_rows, walk, build_index,
  bucket_of, bucket_count_of, grow, hash_key, some_dtypes, find_row, matches, normalize_dims,
  same_dims, same_dtypes, normalized_of, c_str, hash_dtypes,
}
use libtriton_jit.Tuned.Key.{KeyStrategy}
use libtriton_jit.Tuned.Rows.Chain.{
  scan, last_in, Linked, Heads, link_rows-Linked, walk-scan, linked,
}

double : (n b : ℕ) → n * 2 * 2 ^ b ≡ n * 2 ^ suc b
double n b = grind arith

grow-enough :
    (bound size bucket_count : ℕ)
    → size * 2 ≤ bucket_count * 2 ^ bound
    → (k : ℕ) × (grow bound size bucket_count ≡ bucket_count * 2 ^ k)
      × (size * 2 ≤ grow bound size bucket_count)
unfolding grow
grow-enough zero size n h = (0, omega arith, omega arith)
grow-enough (suc bound) size n h = elim (Bool-cases (ltb n (size * 2))) [
  | inl t ↦
      let (k, e, room) = grow-enough bound size (n * 2) (omega (arith, h, double n bound)) in
      rw (t, grow) (suc k, e ∙ double n k, room)
  | inr f ↦ rw (f, grow) (0, omega arith, ground arith)
]

below_power : (n : ℕ) → n < 2 ^ n
below_power zero = omega arith
below_power (suc n) = omega (arith, below_power n)

-- The number of buckets is a power of two, at least 16 and at least twice the number of rows: the
-- bound given to the loop is enough.
pub bucket_count_of-enough :
    (size : ℕ) → (k : ℕ) × (bucket_count_of size ≡ 16 * 2 ^ k) × (size * 2 ≤ bucket_count_of size)
unfolding bucket_count_of
bucket_count_of-enough size = grow-enough size size 16 (omega (arith, below_power size))

same_dims→eq :
    (dims normalized : List ℤ)
    → length dims ≡ length normalized
    → same_dims dims normalized ≡ true
    → dims ≡ normalized
unfolding same_dims
same_dims→eq [] [] n h = refl
same_dims→eq [] (y ∷ ys) n h = absurd (omega arith)
same_dims→eq (x ∷ xs) [] n h = absurd (omega arith)
same_dims→eq (x ∷ xs) (y ∷ ys) n h =
    let both = (&&_iff (eq_ℤ x y) (same_dims xs ys)).0 h in
    ap₂ ◌∷◌ (eq_ℤ→eq x y both.0) (same_dims→eq xs ys (omega arith) both.1)

c_str_idem : (t : Bytes) → c_str (c_str t) ≡ c_str t
unfolding c_str
c_str_idem [] = refl
c_str_idem (c ∷ cs) = elim (Bool-cases (c == 0)) [
  | inl t ↦ rw t
  | inr f ↦ rw (f, f) (ap (◌∷◌ c) (c_str_idem cs))
]

same_dtypes-hash :
    (dtypes : List Bytes) (keys : List (Option Bytes)) (hash n : ℕ)
    → length dtypes ≡ length keys
    → same_dtypes dtypes keys ≡ true
    → hash_dtypes hash (take n (some_dtypes dtypes)) ≡ hash_dtypes hash (take n keys)
unfolding same_dtypes hash_dtypes
same_dtypes-hash [] [] hash n l h = refl
same_dtypes-hash [] (k ∷ ks) hash n l h = absurd (omega arith)
same_dtypes-hash (d ∷ ds) [] hash n l h = absurd (omega arith)
same_dtypes-hash (d ∷ ds) (none ∷ ks) hash n l h = cc
same_dtypes-hash (d ∷ ds) (some k ∷ ks) hash zero l h = refl
same_dtypes-hash (d ∷ ds) (some k ∷ ks) hash (suc n) l h =
    let both = (&&_iff (text_eq d (c_str k)) (same_dtypes ds ks)).0 h in
    let text : c_str d ≡ c_str k = ap c_str ((text_eq_iff d (c_str k)).0 both.0) ∙ c_str_idem k in
    rw text (same_dtypes-hash ds ks _ n (omega arith) both.1)

-- A row has one number for each key column and one text for each dtype key.
pub record IsRow (info : TunedKernelInfo) (e : Entry) : Type 0 where
  pub dims_fit : length e.dims ≡ length info.key_columns
  pub dtypes_fit : length e.dtypes ≡ info.ndtype_keys

length-normalize_dims :
    (columns : List (Bytes × KeyStrategy)) (dims : List ℤ)
    → length dims ≡ length columns
    → length (normalize_dims columns dims) ≡ length columns
unfolding normalize_dims
length-normalize_dims [] dims h = refl
length-normalize_dims (c ∷ cs) [] h = absurd (omega arith)
length-normalize_dims (c ∷ cs) (d ∷ ds) h = ap suc (length-normalize_dims cs ds (omega arith))

-- A key of fitting length.
pub record Fits (info : TunedKernelInfo) (key : TuneKeyView) : Type 0 where
  pub dims_fit : length (elements key.dims) ≡ length info.key_columns
  pub dtypes_fit : length (elements key.dtypes) ≡ info.ndtype_keys

-- A row that matches a key has the same hash.
matches-hash :
    (info : TunedKernelInfo) (key : TuneKeyView) (e : Entry)
    → IsRow info e
    → Fits info key
    → matches (normalized_of info key) (elements key.dtypes) e ≡ true
    → hash_key info e.dims (some_dtypes e.dtypes)
      ≡ hash_key info (normalized_of info key) (elements key.dtypes)
unfolding matches hash_key normalized_of
matches-hash info key e row fit h =
    let normalized = normalize_dims info.key_columns (elements key.dims) in
    let both =
      (&&_iff (same_dims e.dims normalized) (same_dtypes e.dtypes (elements key.dtypes))).0 h in
    let dims : e.dims ≡ normalized =
      same_dims→eq e.dims normalized
        (row.dims_fit
          ∙ sym (length-normalize_dims info.key_columns (elements key.dims) fit.dims_fit))
        both.0 in
    rw dims (
      same_dtypes-hash e.dtypes (elements key.dtypes) _ info.ndtype_keys
        (row.dtypes_fit ∙ sym fit.dtypes_fit) both.1)

length-link_rows :
    (bucket : Entry → ℕ) (index : ℕ) (es : List Entry) (buckets : List ℕ)
    → length ((link_rows bucket index es buckets).0) ≡ length es
unfolding link_rows
length-link_rows bucket index [] buckets = refl
length-link_rows bucket index (e ∷ es) buckets = ap suc (length-link_rows bucket (index + 1) es _)

walk_nonempty :
    (found : Entry → Bool) (es : List Entry) (start : ℕ)
    → ◌≡◌ {A = Option ℕ}
        (elim es [ [] ↦ none | e ∷ rest ↦ walk found (e ∷ rest) (length (e ∷ rest)) start ])
        (walk found es (length es) start)
walk_nonempty found [] start = unfold walk in refl
walk_nonempty found (e ∷ rest) start = refl

buckets_pos : (size : ℕ) → 0 < bucket_count_of size
buckets_pos size =
    let (k, e, room) = bucket_count_of-enough size in
    let big : 0 < 2 ^ k = one-le-pow k 2 (omega arith) in omega (arith, e, big)

-- What `build_index` makes: the number of its buckets, their heads, and its rows.
record IsIndexed (rows : Rows) (n : ℕ) : Type 0 where
  bucket_count : length (build_index rows).buckets ≡ n
  inside : (h : ℕ) → h % n < n
  heads :
      (b : ℕ)
      → b < n
      → get_or (build_index rows).buckets b uint32_max
        ≡ last_in (bucket_of rows.info n) rows.entries b (length rows.entries)
  chained : Linked (bucket_of rows.info n) rows.entries 0 rows.entries (build_index rows).entries
  row_count : length (build_index rows).entries ≡ length rows.entries

build_index-IsIndexed : (rows : Rows) → IsIndexed rows (bucket_count_of (length rows.entries))
unfolding build_index bucket_of
build_index-IsIndexed rows =
    let n = bucket_count_of (length rows.entries) in
    let pos = buckets_pos (length rows.entries) in
    let start : Heads (bucket_of rows.info n) rows.entries n 0 (replicate n uint32_max) = (
      length-replicate n uint32_max,
      λ b bound. unfold last_in in get_or-replicate n b uint32_max,
    ) in
    let (end, size, heads, tails) =
      link_rows-Linked (bucket_of rows.info n) rows.entries n 0 rows.entries
        (replicate n uint32_max) (λ e. mod-lt _ pos)
        (λ i. ap (get_elem? rows.entries) (omega arith)) start in
    record {
      bucket_count = heads.0;
      inside = λ h. mod-lt h pos;
      heads = λ b bound.
          heads.1 b bound
          ∙ ap (last_in (bucket_of rows.info n) rows.entries b) (omega (arith, size));
      chained = tails;
      row_count = length-link_rows (bucket_of rows.info n) 0 rows.entries _;
    }

module _ (rows : Rows) (key : TuneKeyView) where
  abbrev pub wanted : Entry → Bool
  wanted = matches (normalized_of rows.info key) (elements key.dtypes)

  abbrev key_hash : ℕ
  key_hash = hash_key rows.info (normalized_of rows.info key) (elements key.dtypes)

  abbrev pub AllRows : Type 0
  AllRows = (i : ℕ) (e : Entry) → get_elem? rows.entries i ≡ some e → IsRow rows.info e

  wanted-linked : (e : Entry) (next : ℕ) → wanted (linked e next) ≡ wanted e
  unfolding matches
  wanted-linked e next = refl

  indexed_scan :
      (n : ℕ)
      → IsIndexed rows n
      → AllRows
      → Fits rows.info key
      → length rows.entries ≤ uint32_max
      → find_row (build_index rows) key ≡ scan wanted rows.entries (length rows.entries)
  unfolding find_row build_index
  indexed_scan n made all fit small =
      walk_nonempty wanted (build_index rows).entries _
      ∙ ap (walk wanted (build_index rows).entries (length (build_index rows).entries))
          (rw made.bucket_count (made.heads (key_hash % n) (made.inside key_hash)))
      ∙ walk-scan (bucket_of rows.info n) rows.entries wanted (build_index rows).entries
          (key_hash % n) (length rows.entries) (length (build_index rows).entries) made.chained
          (λ i e at y.
            unfold bucket_of in ap (λ h. h % n) (matches-hash rows.info key e (all i e at) fit y))
          wanted-linked (omega (arith, made.row_count)) (omega arith) small

  -- The index of a kernel's rows finds, for a key of fitting length, the last row that matches the
  -- normalised key, as a search through all the rows does.
  pub find_row-scan :
      AllRows
      → Fits rows.info key
      → length rows.entries ≤ uint32_max
      → find_row (build_index rows) key ≡ scan wanted rows.entries (length rows.entries)
  find_row-scan = indexed_scan (bucket_count_of (length rows.entries)) (build_index-IsIndexed rows)
