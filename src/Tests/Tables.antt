-- ===== src/Tests/Tables.antt =====
-- A file of tuned rows that is read.
use libtriton_jit.Common.{
  ℕ, true, false, Bool, List, [], ◌∷◌, Bytes, codes, text_eq, All, Option, none, some, ok,
  get_elem?, ◌≢◌, ◌⊎◌, ◌≡◌, refl, if◌then◌else◌,
}
use libtriton_jit.Common.Int.{ℤ, pos}
use libtriton_jit.Launch.Buffer.{little_endian}
use libtriton_jit.Tuned.Config.{default_config}
use libtriton_jit.Tuned.Key.{parse_key_strategy, normalize_dim, pow2_ceil}
use libtriton_jit.Tuned.Load.{
  OrderedJson, load_dims, load_dtype, load_option, load_extra, load_kwargs, load_entry,
  require_string, optional_string, load_columns, load_column, load_dtype_keys,
}
use libtriton_jit.Tuned.Load.Kernels.{check_unique, load_entries, load_table, check_namespace}
use libtriton_jit.Tuned.Load.Schema.{load_entries-IsRow}
use libtriton_jit.Tuned.Load.Unique.{own_key, load_table-find}
use libtriton_jit.Tuned.Rows.{
  Rows, build_index, find_row, bucket_of, hash_key, matches, link_rows, fits, uint32_max,
}
use libtriton_jit.Tuned.Rows.Find.{IsRow}
use libtriton_jit.Tuned.Table.{TunedTable, loaded, find_in, scoped_kernel_id}
use libtriton_jit.Tuned.Table.Scoped.{scoped_kernel_id_inj}
use libtriton_jit.Tests.Tuning.{info, row}

data Document : Type 0 where
  kernel_object rows_array columns_array column_object : Document
  entry_object key_array : ℤ → Document
  number : ℤ → Document
  text : Bytes → Document

abbrev holds_number : Document → Bool
holds_number (number n) = true
holds_number _ = false

abbrev is_text : Document → Bool
is_text (text t) = true
is_text _ = false

abbrev is_list : Document → Bool
is_list rows_array = true
is_list columns_array = true
is_list (key_array n) = true
is_list _ = false

abbrev is_map : Document → Bool
is_map kernel_object = true
is_map column_object = true
is_map (entry_object n) = true
is_map _ = false

abbrev field_of : Document → Bytes → Option Document
field_of kernel_object key =
    if text_eq key (codes "entries")
    then some rows_array
    else if text_eq key (codes "kernel_id")
    then some (text (codes "k"))
    else if text_eq key (codes "key_columns")
    then some columns_array
    else if text_eq key (codes "dtype_keys")
    then some (number (pos 1))
    else none
field_of column_object key =
    if text_eq key (codes "name")
    then some (text (codes "M"))
    else if text_eq key (codes "strategy")
    then some (text (codes "log"))
    else none
field_of (entry_object n) key = if text_eq key (codes "key") then some (key_array n) else none
field_of _ key = none

abbrev elements_of : Document → List Document
elements_of rows_array = entry_object (pos 100) ∷ entry_object (pos 7) ∷ []
elements_of columns_array = column_object ∷ []
elements_of (key_array n) = number n ∷ text (codes "torch.float32") ∷ []
elements_of _ = []

abbrev number_of : Document → ℤ
number_of (number n) = n
number_of _ = pos 0

abbrev text_of : Document → Bytes
text_of (text t) = t
text_of _ = []

abbrev library : OrderedJson Document
library = record {
  is_object = is_map;
  is_array = is_list;
  is_string = is_text;
  is_boolean = λ j. false;
  is_integer = holds_number;
  is_float = λ j. false;
  is_null = λ j. false;
  find = field_of;
  elements = elements_of;
  items = λ j. [];
  get_string = text_of;
  get_bool = λ j. false;
  get_int64 = number_of;
  get_int = number_of;
  get_double = λ j. 0;
  dump = λ j. [];
}

-- The dimensions 100 and 7 are stored as 128 and 8.
two_rows : load_entries library info kernel_object ≡ ok (row 128 ∷ row 8 ∷ [])
unfolding load_entries load_entry load_dims load_dtype load_option load_extra load_kwargs
    normalize_dim pow2_ceil
two_rows = refl

load_entries-IsRow_example : All (IsRow info) (row 128 ∷ row 8 ∷ [])
load_entries-IsRow_example =
    load_entries-IsRow library info kernel_object (row 128 ∷ row 8 ∷ []) two_rows

abbrev from_file : Rows
from_file =
    record (build_index (record {
      entries = row 128 ∷ row 8 ∷ [];
      buckets = [];
      info = record info { entry_count = 0 };
      storage_id = codes "k";
    })) { info = record info { entry_count = 2 } }

read : load_table library false [] kernel_object ≡ ok from_file
unfolding load_table require_string optional_string check_namespace load_columns load_column
    load_dtype_keys load_entries load_entry load_dims load_dtype load_option load_extra load_kwargs
    parse_key_strategy scoped_kernel_id check_unique fits find_row build_index bucket_of hash_key
    matches link_rows little_endian normalize_dim pow2_ceil
read = refl

first_entry :
    (get_elem? from_file.entries 0 ≡ some (record (row 128) { next = uint32_max }))
    × (get_elem? from_file.entries 1 ≡ some (record (row 8) { next = uint32_max }))
unfolding build_index bucket_of hash_key link_rows little_endian
first_entry = (refl, refl)

abbrev no_table : TunedTable
no_table = record { storages = λ i j. []; storage_count = 0; snapshot = none; history = [] }

load_table-find_example :
    (find_in no_table (loaded from_file) (own_key (record (row 128) { next = uint32_max }))
      ≡ some default_config)
    × ((◌≡◌ {A = ℕ} 0 1)
        ⊎ (own_key (record (row 128) { next = uint32_max })
            ≢ own_key (record (row 8) { next = uint32_max })))
load_table-find_example =
    load_table-find library false [] kernel_object from_file no_table 0 1
      (record (row 128) { next = uint32_max }) (record (row 8) { next = uint32_max }) read
      first_entry.0 first_entry.1

scoped_kernel_id_inj_example : (codes "k" ≡ codes "k") × (codes "ops" ≡ codes "ops")
scoped_kernel_id_inj_example =
    scoped_kernel_id_inj (codes "k") (codes "k") (codes "ops") (codes "ops") plain plain refl
  where
    plain : ◌≡◌ {A = ℕ} 107 64 → ⊥
    plain b = cc
