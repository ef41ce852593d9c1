-- ===== src/Tuned/Load.antt =====
-- `TunedTable::load` of src/tuned_config.cpp with `parse_value`, `require_string`, `optional_string` and
-- `parse_fingerprint`. The JSON library is a parameter, and `file` is what the
-- opened and parsed file holds. Messages are left out of the errors.
pub mod Kernels
pub mod Schema
pub mod Unique
use libtriton_jit.Common.{
  ℕ, ◌+◌, ◌-◌, zero, suc, Bool, true, false, not, ◌&&◌, ◌||◌, List, [], ◌∷◌, ◌++◌, Bytes, codes,
  text_eq, is_empty, length, take, drop, map, ltb, ◌==◌, Option, none, some, Result, ok, throw,
  ◌>>=◌, ◌>>◌, throw_if, if◌then◌else◌,
}
use libtriton_jit.Common.Int.{ℤ, pos, negsuc, eq_ℤ}
use libtriton_jit.Tuned.Config.{TunedValue, i64, bool, f64, str, TunedConfig, default_config}
use libtriton_jit.Tuned.Fingerprint.{BackendFingerprint, FingerprintError, check_fingerprint}
use libtriton_jit.Tuned.Key.{KeyStrategy, parse_key_strategy, normalize_dim}
use libtriton_jit.Tuned.Rows.{
  Entry, Rows, TunedKernelInfo, View, array, c_str, uint32_max, build_index, find_row,
}
use libtriton_jit.Tuned.Table.{KernelTable, loaded, TunedTable, scoped_kernel_id, publish_locked}

pub record OrderedJson (J : Type 0) : Type 0 where
  pub is_object : J → Bool
  pub is_array : J → Bool
  pub is_string : J → Bool
  pub is_boolean : J → Bool
  pub is_integer : J → Bool
  pub is_float : J → Bool
  pub is_null : J → Bool
  pub find : J → Bytes → Option J
  pub elements : J → List J
  pub items : J → List (Bytes × J)
  pub get_string : J → Bytes
  pub get_bool : J → Bool
  pub get_int64 : J → ℤ
  pub get_int : J → ℤ
  pub get_double : J → ℕ
  pub dump : J → Bytes

pub data LoadError : Type 0 where
  negative_device unreadable_file no_object bad_version : LoadError
  bad_fingerprint : FingerprintError → LoadError
  no_fingerprint no_kernels bad_kernel missing_string namespace_version duplicate_identity :
      LoadError
  bad_columns unknown_strategy bad_dtype_keys bad_entries unsupported_entries : LoadError
  bad_entry bad_key bad_option reserved_option bad_kwargs duplicate_key : LoadError

-- Every element in order, up to the first that fails.
abbrev pub each {ℓ κ} :
    {A : Type ℓ} {B : Type κ} → (A → Result LoadError B) → List A → Result LoadError (List B)
each f [] = ok []
each f (x ∷ xs) = f x >>= λ y. each f xs >>= λ ys. ok (y ∷ ys)

-- The order of `std::map`'s keys.
unfoldable pub text_less : Bytes → Bytes → Bool
text_less [] [] = false
text_less [] (y ∷ ys) = true
text_less (x ∷ xs) [] = false
text_less (x ∷ xs) (y ∷ ys) =
    let rest = text_less xs ys in if ltb x y then true else if x == y then rest else false

-- `extra[name] = value`
unfoldable pub assign_extra : Bytes → Bytes → List (Bytes × Bytes) → List (Bytes × Bytes)
assign_extra name value [] = (name, value) ∷ []
assign_extra name value ((k, v) ∷ rest) =
    let later = assign_extra name value rest in
    if text_eq k name
    then (name, value) ∷ rest
    else if text_less name k
    then (name, value) ∷ (k, v) ∷ rest
    else (k, v) ∷ later

module _ {J : Type 0} (json : OrderedJson J) where
  unfoldable pub parse_value : J → Result LoadError TunedValue
  parse_value value =
      if json.is_boolean value
      then ok (bool (json.get_bool value))
      else if json.is_integer value
      then ok (i64 (json.get_int64 value))
      else if json.is_float value
      then ok (f64 (json.get_double value))
      else if json.is_string value
      then ok (str (json.get_string value))
      else throw bad_kwargs

  unfoldable pub require_string : J → Bytes → Result LoadError Bytes
  require_string object field = elim (json.find object field) [
    | none ↦ throw missing_string
    | some it ↦ if json.is_string it then ok (json.get_string it) else throw missing_string
  ]

  unfoldable pub optional_string : J → Bytes → Bytes
  optional_string object field = elim (json.find object field) [
    | none ↦ []
    | some it ↦
        if json.is_null it
        then []
        else if json.is_string it
        then json.get_string it
        else json.dump it
  ]

  unfoldable pub parse_fingerprint : J → Result LoadError BackendFingerprint
  parse_fingerprint root = elim (json.find root (codes "fingerprint")) [
    | none ↦ throw no_fingerprint
    | some it ↦
        throw_if (not (json.is_object it)) no_fingerprint
        >> (require_string it (codes "backend") >>= λ backend. ok (record {
          backend = backend;
          vendor = optional_string it (codes "vendor");
          device_name = optional_string it (codes "device_name");
          arch = optional_string it (codes "arch");
          triton_version = optional_string it (codes "triton_version");
          libtriton_jit_version = optional_string it (codes "libtriton_jit_version");
        }))
  ]

  unfoldable pub load_column : J → Result LoadError (Bytes × KeyStrategy)
  load_column column =
      throw_if (not (json.is_object column)) bad_columns
      >> (require_string column (codes "name") >>= λ name.
          elim (parse_key_strategy (optional_string column (codes "strategy"))) [
            | none ↦ throw unknown_strategy
            | some strategy ↦ ok (name, strategy)
          ])

  unfoldable pub load_columns : J → Result LoadError (List (Bytes × KeyStrategy))
  load_columns kernel_json = elim (json.find kernel_json (codes "key_columns")) [
    | none ↦ ok []
    | some columns ↦
        throw_if (not (json.is_array columns)) bad_columns
        >> each load_column (json.elements columns)
  ]

  unfoldable pub load_dtype_keys : J → Result LoadError ℕ
  load_dtype_keys kernel_json = elim (json.find kernel_json (codes "dtype_keys")) [
    | none ↦ ok 0
    | some dtype_keys ↦
        if json.is_integer dtype_keys
        then elim (json.get_int64 dtype_keys) [ pos n ↦ ok n | negsuc n ↦ throw bad_dtype_keys ]
        else throw bad_dtype_keys
  ]

  -- One normalised dimension for each column.
  unfoldable pub load_dims : List (Bytes × KeyStrategy) → List J → Result LoadError (List ℤ)
  load_dims [] key = ok []
  load_dims (column ∷ columns) [] = throw bad_key
  load_dims (column ∷ columns) (element ∷ key) =
      throw_if (not (json.is_integer element)) bad_key
      >> (load_dims columns key >>= λ dims.
          ok (normalize_dim column.1 (json.get_int64 element) ∷ dims))

  unfoldable pub load_dtype : J → Result LoadError Bytes
  load_dtype element =
      if json.is_string element then ok (json.get_string element) else throw bad_key

  -- `num_warps` or `num_stages`, with the value that it has by default.
  unfoldable pub load_option : Bytes → ℤ → J → Result LoadError ℤ
  load_option name fallback entry_json = elim (json.find entry_json name) [
    | none ↦ ok fallback
    | some it ↦ if json.is_integer it then ok (json.get_int it) else throw bad_option
  ]

  unfoldable pub load_extra_items :
      List (Bytes × J) → List (Bytes × Bytes) → Result LoadError (List (Bytes × Bytes))
  load_extra_items [] extra = ok extra
  load_extra_items ((name, value) ∷ rest) extra =
      throw_if (text_eq name (codes "num_warps") || text_eq name (codes "num_stages"))
        reserved_option
      >> load_extra_items rest (
          assign_extra name
            (if json.is_string value then json.get_string value else json.dump value) extra)

  unfoldable pub load_extra : J → Result LoadError (List (Bytes × Bytes))
  load_extra entry_json = elim (json.find entry_json (codes "extra")) [
    | none ↦ ok []
    | some extra ↦
        if json.is_null extra
        then ok []
        else throw_if (not (json.is_object extra)) bad_option
          >> load_extra_items (json.items extra) []
  ]

  -- A pair of a name and a value.
  unfoldable pub load_pair : List J → Result LoadError (Bytes × TunedValue)
  load_pair (name ∷ value ∷ []) =
      if json.is_string name
      then (parse_value value >>= λ v. ok (json.get_string name, v))
      else throw bad_kwargs
  load_pair _ = throw bad_kwargs

  unfoldable pub load_kwargs : J → Result LoadError (List (Bytes × TunedValue))
  load_kwargs entry_json = elim (json.find entry_json (codes "kwargs")) [
    | none ↦ ok []
    | some kwargs ↦
        if json.is_null kwargs
        then ok []
        else if json.is_array kwargs
        then each
            (λ pair.
              throw_if (not (json.is_array pair)) bad_kwargs >> load_pair (json.elements pair))
            (json.elements kwargs)
        else if json.is_object kwargs
        then each (λ (item : Bytes × J). parse_value item.1 >>= λ v. ok (item.0, v))
            (json.items kwargs)
        else throw bad_kwargs
  ]

  unfoldable pub load_entry : List (Bytes × KeyStrategy) → ℕ → J → Result LoadError Entry
  load_entry columns ndtype_keys entry_json =
      throw_if (not (json.is_object entry_json)) bad_entry
      >> elim (json.find entry_json (codes "key")) [
        | none ↦ throw bad_key
        | some key ↦
            throw_if (not (json.is_array key)) bad_key
            >> (throw_if (not (length (json.elements key) == length columns + ndtype_keys)) bad_key
                >> (load_dims columns (json.elements key) >>= λ dims.
                    each load_dtype (drop (length columns) (json.elements key)) >>= λ dtypes.
                    load_option (codes "num_warps") default_config.num_warps entry_json
                    >>= λ num_warps.
                        load_option (codes "num_stages") default_config.num_stages entry_json
                        >>= λ num_stages. load_extra entry_json >>= λ extra.
                            load_kwargs entry_json >>= λ kwargs. ok (record {
                              dims = dims;
                              dtypes = dtypes;
                              config = record {
                                num_warps = num_warps;
                                num_stages = num_stages;
                                extra = extra;
                                kwargs = kwargs;
                              };
                              next = uint32_max;
                            })))
      ]
