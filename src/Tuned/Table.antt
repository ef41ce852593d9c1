-- ===== src/Tuned/Table.antt =====
-- `TunedKernelTable::find` in its layers, the snapshots of `TunedTable`, and `insert_resolved`.
-- The store of the online rows, which generations of a table share, is a map from numbers to
-- `OnlineStorage`; an array is a function from its indices. One operation runs at a time, as under
-- `load_mu_`. Null dtypes do not reach `insert_resolved`: `resolve` refuses them.
pub mod Published
pub mod Resolved
pub mod Scoped
use libtriton_jit.Common.{
  ℕ, zero, suc, ◌+◌, ◌-◌, ◌%◌, Bool, true, false, not, ◌&&◌, ◌||◌, List, [], ◌∷◌, ◌++◌, Bytes,
  codes, text_eq, is_empty, length, get_or, get_elem?, set, replicate, map, Option, none, some,
  ◌==◌, ltb, leb, if◌then◌else◌, Result, ok, throw, ◌>>=◌, ◌>>◌, throw_if,
}
use libtriton_jit.Common.Int.{ℤ, pos, negsuc}
use libtriton_jit.Common.Decimal.{decimal}
use libtriton_jit.Tuned.Config.{TunedConfig}
use libtriton_jit.Tuned.Key.{KeyStrategy, default, log, align32, align32_ceil}
use libtriton_jit.Tuned.Rows.{
  Entry, Rows, TunedKernelInfo, TuneKeyView, count, is_null, elements, uint32_max, max_columns,
  find_row, fits, matches, normalized_of, normalize_dims, hash_key, dtype_text,
}

-- 1024 buckets; the newest node of a bucket comes first.
abbrev pub OnlineStorage : Type 0
OnlineStorage = ℕ → List Entry

abbrev pub online_buckets : ℕ
online_buckets = 1024

-- A table is read from a file; or has online rows only; or has online rows over another table.
-- `offline_` is set only together with `online_`.
pub data KernelTable : Type 0 where
  loaded : Rows → KernelTable
  online : Rows → ℕ → KernelTable
  layered : Rows → ℕ → KernelTable → KernelTable

abbrev pub rows_of : KernelTable → Rows
rows_of (loaded rows) = rows
rows_of (online rows i) = rows
rows_of (layered rows i offline) = rows

-- Devices by their number, each with its kernels by their storage id.
abbrev pub Snapshot : Type 0
Snapshot = List (List (Bytes × KernelTable))

pub record TunedTable : Type 0 where
  pub storages : ℕ → OnlineStorage
  pub storage_count : ℕ
  pub snapshot : Option Snapshot
  pub history : List Snapshot

-- A changed function.
abbrev pub update {ℓ} : {A : Type ℓ} → (ℕ → A) → ℕ → A → ℕ → A
update f i a j = if j == i then a else f j

unfoldable pub find_node : (Entry → Bool) → List Entry → Option TunedConfig
find_node found [] = none
find_node found (node ∷ nodes) = if found node then some node.config else find_node found nodes

abbrev pub config_at : List Entry → Option ℕ → Option TunedConfig
config_at entries none = none
config_at entries (some i) = elim (get_elem? entries i) [ none ↦ none | some e ↦ some e.config ]

-- The nodes of the bucket that a key falls into.
unfoldable pub nodes_of : TunedTable → TunedKernelInfo → ℕ → TuneKeyView → List Entry
nodes_of table info storage key =
    let hash = hash_key info (normalized_of info key) (elements key.dtypes) in
    table.storages storage (hash % online_buckets)

unfoldable pub find_online : TunedTable → TunedKernelInfo → ℕ → TuneKeyView → Option TunedConfig
unfolding find_node
find_online table info storage key =
    find_node (matches (normalized_of info key) (elements key.dtypes))
      (nodes_of table info storage key)

abbrev pub or_else {ℓ} : {A : Type ℓ} → Option A → Option A → Option A
or_else (some a) other = some a
or_else none other = other

-- `TunedKernelTable::find`
unfoldable pub find_in : TunedTable → KernelTable → TuneKeyView → Option TunedConfig
find_in table (loaded rows) key =
    if fits rows.info key then config_at rows.entries (find_row rows key) else none
find_in table (online rows storage) key =
    if fits rows.info key
    then or_else (find_online table rows.info storage key)
        (config_at rows.entries (find_row rows key))
    else none
find_in table (layered rows storage offline) key =
    let below = find_in table offline key in
    if fits rows.info key then or_else (find_online table rows.info storage key) below else none

unfoldable pub scoped_kernel_id : Bytes → Bytes → Bytes
scoped_kernel_id kernel_id cache_namespace =
    if is_empty cache_namespace
    then kernel_id
    else b'@'
      ∷ (decimal (length cache_namespace) ++ (b':' ∷ (cache_namespace ++ (b':' ∷ kernel_id))))

-- `kernels.find(id)`
unfoldable pub lookup : Bytes → List (Bytes × KernelTable) → Option KernelTable
lookup id [] = none
lookup id ((key, t) ∷ rest) = if text_eq key id then some t else lookup id rest

-- `kernels[id] = table`
unfoldable pub assign :
    Bytes → KernelTable → List (Bytes × KernelTable) → List (Bytes × KernelTable)
assign id t [] = (id, t) ∷ []
assign id t ((key, old) ∷ rest) =
    let others = assign id t rest in if text_eq key id then (key, t) ∷ rest else (key, old) ∷ others

abbrev pub devices_of : Option Snapshot → Snapshot
devices_of none = []
devices_of (some devices) = devices

unfoldable pub publish_locked : ℕ → KernelTable → TunedTable → TunedTable
unfolding assign
publish_locked device t table =
    let devices = devices_of table.snapshot in
    let resized = devices ++ replicate (device + 1 - length devices) [] in
    let kernels = assign (rows_of t).storage_id t (get_or resized device []) in
    let next = set resized device kernels in
    record table { snapshot = some next; history = table.history ++ next ∷ [] }

-- `TunedTable::kernel`
unfoldable pub kernel : TunedTable → Bytes → ℤ → Option KernelTable
kernel table id (negsuc n) = none
kernel table id (pos device) = elim table.snapshot [
  | none ↦ none
  | some devices ↦ elim (get_elem? devices device) [
    | none ↦ none
    | some kernels ↦ lookup id kernels
  ]
]

-- `TunedTable::find`
unfoldable pub find : TunedTable → Bytes → ℤ → TuneKeyView → Option TunedConfig
unfolding kernel
find table id device key = elim (kernel table id device) [
  | none ↦ none
  | some t ↦ find_in table t key
]

-- `TunedTable::kernels`
unfoldable pub kernels : TunedTable → ℤ → List TunedKernelInfo
kernels table (negsuc n) = []
kernels table (pos device) = elim table.snapshot [
  | none ↦ []
  | some devices ↦ map (λ pair. (rows_of pair.1).info) (get_or devices device [])
]

unfoldable pub clear : TunedTable → TunedTable
clear table = record table { snapshot = none; history = [] }

pub record ResolvedEntry : Type 0 where
  pub config : TunedConfig
  pub key_columns : List (Bytes × KeyStrategy)
  pub cache_namespace : Bytes

pub data ResolveError : Type 0 where
  bad_width other_namespace other_schema : ResolveError

abbrev pub same_strategy : KeyStrategy → KeyStrategy → Bool
same_strategy default default = true
same_strategy log log = true
same_strategy align32 align32 = true
same_strategy align32_ceil align32_ceil = true
same_strategy _ _ = false

unfoldable pub same_columns : List (Bytes × KeyStrategy) → List (Bytes × KeyStrategy) → Bool
same_columns [] [] = true
same_columns (a ∷ rest) (b ∷ others) =
    text_eq a.0 b.0 && same_strategy a.1 b.1 && same_columns rest others
same_columns _ _ = false

-- The table that `insert_resolved` starts from, and its store; `none` is a new kernel.
abbrev pub storage_of : TunedTable → Option KernelTable → ℕ
storage_of table (some (online rows i)) = i
storage_of table (some (layered rows i offline)) = i
storage_of table _ = table.storage_count

abbrev pub is_new_storage : Option KernelTable → Bool
is_new_storage (some (online rows i)) = false
is_new_storage (some (layered rows i offline)) = false
is_new_storage _ = true

abbrev pub layer : Option KernelTable → Rows → ℕ → KernelTable
layer none rows i = online rows i
layer (some (loaded old)) rows i = layered rows i (loaded old)
layer (some (online old j)) rows i = online rows i
layer (some (layered old j offline)) rows i = layered rows i offline

module _ (kernel_id storage_id : Bytes) (resolved : ResolvedEntry) (ndtypes : ℕ) where
  -- The rest of the table's information, with `entry_count` counting the new row.
  abbrev pub info_of : Option KernelTable → TunedKernelInfo
  info_of (some t) = record (rows_of t).info {
    unsupported = [];
    entry_count = (rows_of t).info.entry_count + 1;
  }
  info_of none = record {
    kernel_id = kernel_id;
    cache_namespace = resolved.cache_namespace;
    op_name = [];
    config_table_name = [];
    key_columns = resolved.key_columns;
    ndtype_keys = ndtypes;
    source_sha256 = [];
    candidate_set_hash = [];
    unsupported = [];
    entry_count = 1;
  }

abbrev pub new_node : TuneKeyView → ResolvedEntry → Entry
new_node key resolved = record {
  dims = normalize_dims resolved.key_columns (elements key.dims);
  dtypes = map dtype_text (elements key.dtypes);
  config = resolved.config;
  next = uint32_max;
}

-- The new row becomes the first node of its bucket, and the new generation is published.
unfoldable pub add_node :
    Bytes → Bytes → ℕ → TuneKeyView → ResolvedEntry → Option KernelTable → TunedTable → TunedTable
add_node kernel_id storage_id device key resolved current table =
    let info = info_of kernel_id storage_id resolved (count key.dtypes) current in
    let storage = storage_of table current in
    let old : OnlineStorage =
      if is_new_storage current then (λ b. []) else table.storages storage in
    let node = new_node key resolved in
    let bucket = hash_key info node.dims (elements key.dtypes) % online_buckets in
    let storages = update table.storages storage (update old bucket (node ∷ old bucket)) in
    let rows : Rows = record { entries = []; buckets = []; info = info; storage_id = storage_id } in
    publish_locked device (layer current rows storage) (record table {
      storages = storages;
      storage_count =
          if is_new_storage current then table.storage_count + 1 else table.storage_count;
    })

abbrev pub is_other_schema : KernelTable → TuneKeyView → ResolvedEntry → Bool
is_other_schema t key resolved =
    not (same_columns (rows_of t).info.key_columns resolved.key_columns)
    || not ((rows_of t).info.ndtype_keys == count key.dtypes)

-- The check against a table that is already there: its schema, then whether it has the key.
unfoldable pub check_current :
    TunedTable
    → TuneKeyView
    → ResolvedEntry
    → Option KernelTable
    → Result ResolveError (Option TunedConfig)
check_current table key resolved none = ok none
check_current table key resolved (some t) =
    throw_if (is_other_schema t key resolved) other_schema >> ok (find_in table t key)

abbrev pub has_null : List (Option Bytes) → Bool
has_null [] = false
has_null (none ∷ dtypes) = true
has_null (some dtype ∷ dtypes) = has_null dtypes

-- The checks with which `resolve` begins.
unfoldable pub is_invalid : ℤ → TuneKeyView → Bool
is_invalid (negsuc n) key = true
is_invalid (pos device) key =
    ltb max_columns (count key.dims)
    || (ltb 0 (count key.dims) && is_null key.dims)
    || (ltb 0 (count key.dtypes) && is_null key.dtypes)
    || has_null (elements key.dtypes)

-- What is done under `load_mu_`.
unfoldable pub insert_locked :
    Bytes
    → Bytes
    → ℕ
    → TuneKeyView
    → ResolvedEntry
    → Option KernelTable
    → TunedTable
    → Result ResolveError (TunedConfig × TunedTable)
insert_locked kernel_id storage_id device key resolved current table =
    check_current table key resolved current >>= λ hit?. elim hit? [
      | some hit ↦ ok (hit, table)
      | none ↦ ok (resolved.config, add_node kernel_id storage_id device key resolved current table)
    ]

abbrev pub other_width : TuneKeyView → ResolvedEntry → Bool
other_width key resolved =
    not (length resolved.key_columns == count key.dims) || ltb max_columns (count key.dims)

abbrev pub is_foreign : Bytes → Bytes → ResolvedEntry → Bool
is_foreign kernel_id storage_id resolved =
    not (is_empty resolved.cache_namespace)
    && not (text_eq (scoped_kernel_id kernel_id resolved.cache_namespace) storage_id)

unfoldable pub insert_resolved :
    Bytes
    → Bytes
    → ℕ
    → TuneKeyView
    → ResolvedEntry
    → TunedTable
    → Result ResolveError (TunedConfig × TunedTable)
insert_resolved kernel_id storage_id device key resolved table = do
  throw_if (other_width key resolved) bad_width
  throw_if (is_foreign kernel_id storage_id resolved) other_namespace
  insert_locked kernel_id storage_id device key resolved (kernel table storage_id (pos device))
      table
