-- ===== src/Tuned/Load/Schema.antt =====
-- The rows that `TunedTable::load` of src/tuned_config.cpp reads: their schema.
use libtriton_jit.Common.{
  ℕ, ◌+◌, suc, Bool, true, false, not, ◌&&◌, List, [], ◌∷◌, Bytes, codes, is_empty, length, drop,
  length-drop, All, ◌==◌, ==_iff, Option-cases, inl, inr, Result, ok, ok_inj, >>=-eq-ok, ◌>>◌,
  throw_if, ◌≡◌, refl, sym, ap, ◌∙◌, arith,
}
use libtriton_jit.Common.Int.{ℤ}
use libtriton_jit.Backends.Cache.{throw-ne-ok}
use libtriton_jit.Tuned.Config.{default_config}
use libtriton_jit.Tuned.Key.{KeyStrategy}
use libtriton_jit.Tuned.Load.{
  OrderedJson, LoadError, bad_key, each, load_dims, load_dtype, load_option, load_extra,
  load_kwargs, load_entry,
}
use libtriton_jit.Tuned.Load.Kernels.{load_entries}
use libtriton_jit.Tuned.Rows.Find.{IsRow}
use libtriton_jit.Tuned.Rows.{Entry, TunedKernelInfo}

each-length :
    {A B : Type 0} (f : A → Result LoadError B) (xs : List A) (ys : List B)
    → each f xs ≡ ok ys
    → length ys ≡ length xs
each-length f [] ys h = ap length (sym (ok_inj h))
each-length f (x ∷ xs) ys h =
    let (y, first, h1) = >>=-eq-ok (f x) _ h in
    let (rest, others, h2) = >>=-eq-ok (each f xs) _ h1 in
    ap length (sym (ok_inj h2)) ∙ ap suc (each-length f xs rest others)

each-All :
    {A B : Type 0} (P : B → Type 0) (f : A → Result LoadError B) (xs : List A) (ys : List B)
    → ((x : A) (y : B) → f x ≡ ok y → P y)
    → each f xs ≡ ok ys
    → All P ys
each-All P f [] ys p h = rw (← ok_inj h) tt
each-All P f (x ∷ xs) ys p h =
    let (y, first, h1) = >>=-eq-ok (f x) _ h in
    let (rest, others, h2) = >>=-eq-ok (each f xs) _ h1 in
    rw (← ok_inj h2) (p x y first, each-All P f xs rest p others)

-- A check that was passed.
pub passed :
    {B : Type 0} (c : Bool) (e : LoadError) (r : Result LoadError B) (b : B)
    → (throw_if c e >> r) ≡ ok b
    → (c ≡ false) × (r ≡ ok b)
passed true e r b h = absurd (throw-ne-ok h)
passed false e r b h = (refl, h)

not-false : (b : Bool) → not b ≡ false → b ≡ true
not-false true h = refl
not-false false h = sym h

module _ {J : Type 0} (json : OrderedJson J) where
  load_dims-length :
      (columns : List (Bytes × KeyStrategy)) (key : List J) (dims : List ℤ)
      → load_dims json columns key ≡ ok dims
      → length dims ≡ length columns
  unfolding load_dims
  load_dims-length [] key dims h = ap length (sym (ok_inj h))
  load_dims-length (c ∷ columns) [] dims h = absurd (throw-ne-ok h)
  load_dims-length (c ∷ columns) (k ∷ key) dims h =
      let (is_int, h1) = passed (not (json.is_integer k)) bad_key _ dims h in
      let (rest, others, h2) = >>=-eq-ok (load_dims json columns key) _ h1 in
      ap length (sym (ok_inj h2)) ∙ ap suc (load_dims-length columns key rest others)

  -- An entry that is read has one dimension for each key column and one text for each dtype key.
  load_entry-length :
      (columns : List (Bytes × KeyStrategy)) (ndtype_keys : ℕ) (entry_json : J) (e : Entry)
      → load_entry json columns ndtype_keys entry_json ≡ ok e
      → (length e.dims ≡ length columns) × (length e.dtypes ≡ ndtype_keys)
  unfolding load_entry
  load_entry-length columns ndtype_keys entry_json e h =
      elim (Option-cases (json.find entry_json (codes "key"))) [
        | inl lost ↦
            let (obj, h1) = passed (not (json.is_object entry_json)) _ _ e h in
            absurd (throw-ne-ok (rw (lost) at h1))
        | inr (key, found) ↦
            let (obj, h0) =
              passed (not (json.is_object entry_json)) _ _ e (rw (load_entry, found) at h) in
            let (arr, h1) = passed (not (json.is_array key)) _ _ e h0 in
            let elements = json.elements key in
            let (wide, h2) =
              passed (not (length elements == length columns + ndtype_keys)) _ _ e h1 in
            let (dims, dims_read, h3) = >>=-eq-ok (load_dims json columns elements) _ h2 in
            let (dtypes, dtypes_read, h4) =
              >>=-eq-ok (each (load_dtype json) (drop (length columns) elements)) _ h3 in
            let (warps, w, h5) =
              >>=-eq-ok (load_option json (codes "num_warps") default_config.num_warps entry_json) _
                h4 in
            let (stages, s, h6) =
              >>=-eq-ok (load_option json (codes "num_stages") default_config.num_stages entry_json)
                _ h5 in
            let (extra, x, h7) = >>=-eq-ok (load_extra json entry_json) _ h6 in
            let (kwargs, k, h8) = >>=-eq-ok (load_kwargs json entry_json) _ h7 in
            let made = sym (ok_inj h8) in
            let total : length elements ≡ length columns + ndtype_keys =
              (==_iff (length elements) (length columns + ndtype_keys)).0 (not-false _ wide) in
            (
              ap (λ (r : Entry). length r.dims) made
                  ∙ load_dims-length columns elements dims dims_read,
              ap (λ (r : Entry). length r.dtypes) made
                  ∙ each-length (load_dtype json) (drop (length columns) elements) dtypes
                      dtypes_read
                  ∙ omega (arith, total, length-drop (length columns) elements),
            )
      ]

  -- The rows that are read for a kernel all have its schema: one dimension for each key column, and one
  -- text for each dtype key, as the lookup through the hash index needs them.
  pub load_entries-IsRow :
      (info : TunedKernelInfo) (kernel_json : J) (entries : List Entry)
      → load_entries json info kernel_json ≡ ok entries
      → All (IsRow info) entries
  unfolding load_entries
  load_entries-IsRow info kernel_json entries h =
      elim (Option-cases (json.find kernel_json (codes "entries"))) [
        | inl lost ↦ rw (← ok_inj (rw (load_entries, lost) at h)) tt
        | inr (rows, found) ↦
            let (arr, h1) =
              passed (not (json.is_array rows)) _ _ entries (rw (load_entries, found) at h) in
            let (allowed, h2) =
              passed (not (is_empty info.unsupported) && not (length (json.elements rows) == 0)) _ _
                entries h1 in
            each-All (IsRow info) (load_entry json info.key_columns info.ndtype_keys)
              (json.elements rows) entries
              (λ x e made.
                let both = load_entry-length info.key_columns info.ndtype_keys x e made in
                record { dims_fit = both.0; dtypes_fit = both.1 })
              h2
      ]
