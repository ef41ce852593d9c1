-- ===== src/Tuned/Load/Kernels.antt =====
-- The kernels of a file and their publication: `TunedTable::load` of src/tuned_config.cpp.
use libtriton_jit.Common.{
  ℕ, ◌+◌, Bool, true, false, not, ◌&&◌, ◌||◌, List, [], ◌∷◌, Bytes, codes, text_eq, is_empty,
  length, map, ◌==◌, Option, none, some, Result, ok, throw, ◌>>=◌, ◌>>◌, throw_if, if◌then◌else◌,
}
use libtriton_jit.Common.Int.{ℤ, pos, negsuc, eq_ℤ}
use libtriton_jit.Tuned.Fingerprint.{BackendFingerprint, check_fingerprint}
use libtriton_jit.Tuned.Load.{
  OrderedJson, LoadError, negative_device, unreadable_file, no_object, bad_version, bad_fingerprint,
  no_kernels, bad_kernel, namespace_version, duplicate_identity, bad_entries, unsupported_entries,
  duplicate_key, each, require_string, optional_string, parse_fingerprint, load_columns,
  load_dtype_keys, load_entry,
}
use libtriton_jit.Tuned.Rows.{
  Entry, Rows, TunedKernelInfo, TuneKeyView, array, c_str, build_index, fits, find_row,
}
use libtriton_jit.Tuned.Table.{loaded, TunedTable, scoped_kernel_id, publish_locked}

-- `find` of a table that has no online rows: the row at which it stops.
abbrev pub found_at : Rows → TuneKeyView → Option ℕ
found_at rows key = if fits rows.info key then find_row rows key else none

-- Each row is the one that its own key finds.
unfoldable pub check_unique : Rows → ℕ → List Entry → Result LoadError (Unit {0})
check_unique rows i [] = ok tt
check_unique rows i (entry ∷ entries) =
    let later = check_unique rows (i + 1) entries in
    elim (found_at rows (record {
      dims = array entry.dims;
      dtypes = array (map (λ d. some (c_str d)) entry.dtypes);
    })) [
      | none ↦ throw duplicate_key
      | some found ↦ if found == i then later else throw duplicate_key
    ]

abbrev pub contains : Bytes → List Bytes → Bool
contains x [] = false
contains x (y ∷ ys) = text_eq y x || contains x ys

module _ {J : Type 0} (json : OrderedJson J) where
  -- The rows of one kernel.
  unfoldable pub load_entries : TunedKernelInfo → J → Result LoadError (List Entry)
  load_entries info kernel_json = elim (json.find kernel_json (codes "entries")) [
    | none ↦ ok []
    | some entries ↦
        throw_if (not (json.is_array entries)) bad_entries
        >> (throw_if (not (is_empty info.unsupported) && not (length (json.elements entries) == 0))
              unsupported_entries
            >> each (load_entry json info.key_columns info.ndtype_keys) (json.elements entries))
  ]

  unfoldable pub check_namespace : Bool → Bytes → Result LoadError (Unit {0})
  check_namespace second cache_namespace =
      throw_if (second && is_empty cache_namespace) namespace_version
      >> throw_if (not second && not (is_empty cache_namespace)) namespace_version

  -- `identities` are the storage ids so far; `second` says that the version is 2.
  unfoldable pub load_table : Bool → List Bytes → J → Result LoadError Rows
  load_table second identities kernel_json =
      throw_if (not (json.is_object kernel_json)) bad_kernel
      >> (require_string json kernel_json (codes "kernel_id") >>= λ kernel_id.
          let cache_namespace = optional_string json kernel_json (codes "cache_namespace") in
          let storage_id = scoped_kernel_id kernel_id cache_namespace in
          check_namespace second cache_namespace
          >> (throw_if (contains storage_id identities) duplicate_identity
              >> (load_columns json kernel_json >>= λ key_columns.
                  load_dtype_keys json kernel_json >>= λ ndtype_keys.
                  let info : TunedKernelInfo = record {
                    kernel_id = kernel_id;
                    cache_namespace = cache_namespace;
                    op_name = optional_string json kernel_json (codes "op_name");
                    config_table_name =
                        optional_string json kernel_json (codes "config_table_name");
                    key_columns = key_columns;
                    ndtype_keys = ndtype_keys;
                    source_sha256 = optional_string json kernel_json (codes "source_sha256");
                    candidate_set_hash =
                        optional_string json kernel_json (codes "candidate_set_hash");
                    unsupported = optional_string json kernel_json (codes "unsupported");
                    entry_count = 0;
                  } in
                  load_entries info kernel_json >>= λ entries.
                  let rows = build_index (record {
                    entries = entries;
                    buckets = [];
                    info = info;
                    storage_id = storage_id;
                  }) in
                  check_unique rows 0 rows.entries
                  >> ok (record rows { info = record info { entry_count = length entries } }))))

  unfoldable pub load_tables : Bool → List Bytes → List J → Result LoadError (List Rows)
  load_tables second identities [] = ok []
  load_tables second identities (kernel_json ∷ rest) =
      load_table second identities kernel_json >>= λ rows.
      load_tables second (rows.storage_id ∷ identities) rest >>= λ tables. ok (rows ∷ tables)

  -- `true` for version 2.
  unfoldable pub load_version : J → Result LoadError Bool
  load_version root = elim (json.find root (codes "format_version")) [
    | none ↦ throw bad_version
    | some it ↦
        if json.is_integer it
        then (if eq_ℤ (json.get_int it) (pos 1)
            then ok false
            else if eq_ℤ (json.get_int it) (pos 2)
            then ok true
            else throw bad_version)
        else throw bad_version
  ]

  abbrev pub rewrap : {E A : Type 0} → (E → LoadError) → Result E A → Result LoadError A
  rewrap wrap (ok a) = ok a
  rewrap wrap (throw e) = throw (wrap e)

  -- Everything that is read before anything is published.
  unfoldable pub read_tables : Option Bytes → BackendFingerprint → J → Result LoadError (List Rows)
  read_tables ignore_device runtime root =
      throw_if (not (json.is_object root)) no_object
      >> (load_version root >>= λ second. parse_fingerprint json root >>= λ fingerprint.
          rewrap bad_fingerprint (check_fingerprint ignore_device fingerprint runtime)
          >> elim (json.find root (codes "kernels")) [
            | none ↦ throw no_kernels
            | some kernels ↦
                throw_if (not (json.is_array kernels)) no_kernels
                >> load_tables second [] (json.elements kernels)
          ])

  abbrev pub publish_all : ℕ → List Rows → TunedTable → TunedTable
  publish_all device [] table = table
  publish_all device (rows ∷ rest) table =
      publish_all device rest (publish_locked device (loaded rows) table)

  -- `file` is `none` when it cannot be opened or parsed. It gives the number of kernels.
  unfoldable pub load :
      Option Bytes
      → Option J
      → ℤ
      → BackendFingerprint
      → TunedTable
      → Result LoadError ℕ × TunedTable
  load ignore_device file (negsuc n) runtime table = (throw negative_device, table)
  load ignore_device none (pos device) runtime table = (throw unreadable_file, table)
  load ignore_device (some root) (pos device) runtime table =
      elim (read_tables ignore_device runtime root) [
        | throw e ↦ (throw e, table)
        | ok tables ↦ (ok (length tables), publish_all device tables table)
      ]
