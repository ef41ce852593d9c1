-- ===== src/Tuned/Load/Unique.antt =====
-- The keys of the rows that `TunedTable::load` of src/tuned_config.cpp reads.
use libtriton_jit.Common.{
  ℕ, ◌+◌, zero, suc, Bool, true, false, not, List, [], ◌∷◌, Bytes, codes, length, map, get_elem?,
  ◌==◌, ==_iff, Bool-cases, Option, none, some, ◌≢◌, ◌⊎◌, Option-cases, inl, inr, Result, ok, throw,
  if◌then◌else◌, ok_inj, >>=-eq-ok, ◌>>◌, ◌≡◌, refl, sym, ap, ◌∙◌, arith,
}
use libtriton_jit.Backends.Cache.{throw-ne-ok}
use libtriton_jit.Tuned.Load.{
  OrderedJson, LoadError, duplicate_key, require_string, load_columns, load_dtype_keys,
}
use libtriton_jit.Tuned.Load.Kernels.{
  found_at, check_unique, load_entries, check_namespace, load_table,
}
use libtriton_jit.Tuned.Rows.{
  Entry, Rows, TuneKeyView, array, c_str, fits, build_index, find_row, hash_key, normalized_of,
}
use libtriton_jit.Tuned.Table.{loaded, TunedTable, find_in, config_at}
use libtriton_jit.Tuned.Load.Schema.{passed}

none-ne-some {ℓ} : {A : Type ℓ} {a : A} → ◌≡◌ {A = Option A} none (some a) → ⊥
none-ne-some h = cc

some_inj {ℓ} : {A : Type ℓ} {a b : A} → ◌≡◌ {A = Option A} (some a) (some b) → a ≡ b
some_inj e = cc

true-ne-false : true ≡ false → ⊥
true-ne-false h = cc

-- The key that a row was stored under.
abbrev pub own_key : Entry → TuneKeyView
own_key e = record { dims = array e.dims; dtypes = array (map (λ d. some (c_str d)) e.dtypes) }

check_unique-cons :
    (rows : Rows) (start : ℕ) (x : Entry) (entries : List Entry)
    → check_unique rows start (x ∷ entries) ≡ ok tt
    → (found_at rows (own_key x) ≡ some start) × (check_unique rows (start + 1) entries ≡ ok tt)
unfolding check_unique
check_unique-cons rows start x entries h = elim (Option-cases (found_at rows (own_key x))) [
  | inl lost ↦ absurd (throw-ne-ok (rw (check_unique, lost) at h))
  | inr (n, found) ↦ elim (Bool-cases (n == start)) [
    | inr other ↦ absurd (throw-ne-ok (rw (check_unique, found, other) at h))
    | inl same ↦ (found ∙ ap some ((==_iff n start).0 same), rw (check_unique, found, same) at h)
  ]
]

check_unique-from :
    (rows : Rows) (start i : ℕ) (entries : List Entry) (e : Entry)
    → check_unique rows start entries ≡ ok tt
    → get_elem? entries i ≡ some e
    → found_at rows (own_key e) ≡ some (start + i)
check_unique-from rows start i [] e h at = absurd cc
check_unique-from rows start zero (x ∷ entries) e h at =
    let row : x ≡ e = cc in
    let place : start ≡ start + 0 = omega arith in
    ap (λ r. found_at rows (own_key r)) (sym row)
    ∙ (check_unique-cons rows start x entries h).0
    ∙ ap some place
check_unique-from rows start (suc i) (x ∷ entries) e h at =
    let place : start + 1 + i ≡ start + suc i = omega arith in
    check_unique-from rows (start + 1) i entries e (check_unique-cons rows start x entries h).1 at
    ∙ ap some place

-- A row that `found_at` gives is the one whose configuration `find` gives.
found_at-find_in :
    (table : TunedTable) (rows : Rows) (key : TuneKeyView) (i : ℕ) (e : Entry)
    → found_at rows key ≡ some i
    → get_elem? rows.entries i ≡ some e
    → find_in table (loaded rows) key ≡ some e.config
unfolding find_in
found_at-find_in table rows key i e found at = elim (Bool-cases (fits rows.info key)) [
  | inl ok_key ↦
      let row : find_row rows key ≡ some i = rw (ok_key) at found in
      rw (find_in, ok_key, row, config_at, at) refl
  | inr bad ↦ absurd (none-ne-some (rw (bad) at found))
]

from_zero : (i : ℕ) → 0 + i ≡ i
from_zero i = omega arith

-- One step of the check.
abbrev after_row : Option ℕ → ℕ → Result LoadError (Unit {0}) → Result LoadError (Unit {0})
after_row found? start later = elim found? [
  | none ↦ throw duplicate_key
  | some found ↦ if found == start then later else throw duplicate_key
]

-- The check does not read the count of the rows.
check_unique-count :
    (rows : Rows) (n start : ℕ) (entries : List Entry)
    → check_unique (record rows { info = record rows.info { entry_count = n } }) start entries
      ≡ check_unique rows start entries
unfolding check_unique find_row fits hash_key normalized_of
check_unique-count rows n start [] = refl
check_unique-count rows n start (e ∷ entries) =
    ap (after_row (found_at rows (own_key e)) start) (check_unique-count rows n (start + 1) entries)

finish_unique :
    (built rows : Rows) (n : ℕ)
    → (check_unique built 0 built.entries
        >> ok (record built { info = record built.info { entry_count = n } }))
      ≡ ok rows
    → check_unique rows 0 rows.entries ≡ ok tt
finish_unique built rows n h =
    let (done, unique, made) = >>=-eq-ok (check_unique built 0 built.entries) _ h in
    rw (← ok_inj made) (check_unique-count built n 0 built.entries ∙ unique)

unique-rows :
    (table : TunedTable) (rows : Rows) (i j : ℕ) (e e' : Entry)
    → check_unique rows 0 rows.entries ≡ ok tt
    → get_elem? rows.entries i ≡ some e
    → get_elem? rows.entries j ≡ some e'
    → (find_in table (loaded rows) (own_key e) ≡ some e.config)
      × ((i ≡ j) ⊎ (own_key e ≢ own_key e'))
unique-rows table rows i j e e' h at at' =
    let found : found_at rows (own_key e) ≡ some i =
      check_unique-from rows 0 i rows.entries e h at ∙ ap some (from_zero i) in
    let found' : found_at rows (own_key e') ≡ some j =
      check_unique-from rows 0 j rows.entries e' h at' ∙ ap some (from_zero j) in
    (
      found_at-find_in table rows (own_key e) i e found at,
      elim (Bool-cases (i == j)) [
        | inl same ↦ inl ((==_iff i j).0 same)
        | inr other ↦ inr (λ keys.
            let twice : some i ≡ some j = sym found ∙ ap (found_at rows) keys ∙ found' in
            true-ne-false (sym ((==_iff i j).1 (some_inj twice)) ∙ other))
      ],
    )

module _ {J : Type 0} (json : OrderedJson J) where
  -- A kernel that is read was checked for duplicate keys.
  load_table_unique :
      (second : Bool) (identities : List Bytes) (kernel_json : J) (rows : Rows)
      → load_table json second identities kernel_json ≡ ok rows
      → check_unique rows 0 rows.entries ≡ ok tt
  unfolding load_table build_index
  load_table_unique second identities kernel_json rows h =
      let (object, h1) = passed (not (json.is_object kernel_json)) _ _ rows h in
      let (kernel_id, is_id, h2) =
        >>=-eq-ok (require_string json kernel_json (codes "kernel_id")) _ h1 in
      let (u, named, h3) = >>=-eq-ok (check_namespace json second _) _ h2 in
      let (fresh, h4) = passed _ _ _ rows h3 in
      let (columns, is_columns, h5) = >>=-eq-ok (load_columns json kernel_json) _ h4 in
      let (dtypes, is_dtypes, h6) = >>=-eq-ok (load_dtype_keys json kernel_json) _ h5 in
      let (entries, is_entries, h7) = >>=-eq-ok (load_entries json _ kernel_json) _ h6 in
      finish_unique _ rows (length entries) h7

  -- When a kernel's table is read from a file, `find` gives for the key that any of its rows was stored
  -- under the configuration of that row, and no two rows are stored under the same key.
  pub load_table-find :
      (second : Bool) (identities : List Bytes) (kernel_json : J) (rows : Rows) (table : TunedTable)
      (i j : ℕ) (e e' : Entry)
      → load_table json second identities kernel_json ≡ ok rows
      → get_elem? rows.entries i ≡ some e
      → get_elem? rows.entries j ≡ some e'
      → (find_in table (loaded rows) (own_key e) ≡ some e.config)
        × ((i ≡ j) ⊎ (own_key e ≢ own_key e'))
  load_table-find second identities kernel_json rows table i j e e' h =
      unique-rows table rows i j e e' (load_table_unique second identities kernel_json rows h)
