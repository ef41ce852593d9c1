-- ===== src/Tests/Tuning.antt =====
-- Tests of Tuned.
use libtriton_jit.Tuned.Fingerprint.{
  BackendFingerprint, check_fingerprint, check_backend, check_device, env_flag, other_device,
}
use libtriton_jit.Tuned.Fingerprint.Accepted.{IsTurnedOn, check_fingerprint_iff}
use libtriton_jit.Common.{
  ◌≢◌, ◌⊎◌, ◌↔◌, throw, ℕ, zero, suc, ◌*◌, ◌^◌, ◌≤◌, ◌<◌, true, false, ◌&&◌, List, [], ◌∷◌, ◌++◌,
  Bytes, codes, text_eq, length, none, some, ok, ◌≡◌, refl, arith, ◌⊎◌, ◌==◌, if◌then◌else◌,
}
use libtriton_jit.Common.Int.{pos, negsuc}
use libtriton_jit.Tuned.Config.{TunedValue, i64, bool, Casts, default_config}
use libtriton_jit.Tuned.Config.First.{Lacks, Answers, getters-Answers}
use libtriton_jit.Tuned.Key.{
  default, log, align32, align32_ceil, parse_key_strategy, key_strategy_name, pow2_ceil,
  normalize_dim, ceil_div_32,
}
use libtriton_jit.Tuned.Key.Normalize.{normalize_dim_idem, parse_key_strategy-name}
use libtriton_jit.Tuned.Key.Power.{IsPowerAbove, pow2_ceil-IsPowerAbove}
use libtriton_jit.Tuned.Rows.{
  Rows, Entry, TunedKernelInfo, TuneKeyView, array, build_index, find_row, uint32_max,
  bucket_count_of, matches, bucket_of, hash_key, link_rows,
}
use libtriton_jit.Launch.Buffer.{little_endian}
use libtriton_jit.Tuned.Rows.Chain.{scan}
use libtriton_jit.Tuned.Rows.Find.{AllRows, wanted, find_row-scan, bucket_count_of-enough}
use libtriton_jit.Tuned.Table.{
  TunedTable, loaded, rows_of, publish_locked, kernel, find, insert_resolved, ResolvedEntry,
  is_invalid, scoped_kernel_id, add_node, insert_locked, check_current,
}
use libtriton_jit.Freeze.{refuse_if_frozen, is_frozen}
use libtriton_jit.Tuned.Resolve.{
  Resolver, resolve, look_then_run, run_resolver, insert_answer, find_for_context,
}
use libtriton_jit.Tuned.Resolve.Cached.{resolve-again}
use libtriton_jit.Tuned.Table.Published.{kernel-publish_locked}
use libtriton_jit.Tuned.Table.Resolved.{insert_resolved-find}

normalized :
    (normalize_dim align32 (pos 5) ≡ pos 8)
    × (normalize_dim align32 (pos 33) ≡ pos 64)
    × (normalize_dim log (pos 1000) ≡ pos 1024)
    × (normalize_dim align32_ceil (negsuc 69) ≡ negsuc 63)
unfolding normalize_dim pow2_ceil ceil_div_32
normalized = (refl, refl, refl, refl)

normalize_dim_idem_example :
    normalize_dim align32 (normalize_dim align32 (pos 33)) ≡ normalize_dim align32 (pos 33)
normalize_dim_idem_example = normalize_dim_idem align32 (pos 33) (omega arith)

parse_key_strategy-name_example :
    (parse_key_strategy (key_strategy_name log) ≡ some log)
    × (parse_key_strategy (codes "log") ≡ some log
        → (codes "log" ≡ key_strategy_name log)
          ⊎ (log ≡ default) × ((codes "log" ≡ []) ⊎ (codes "log" ≡ codes "None")))
parse_key_strategy-name_example = parse_key_strategy-name log (codes "log")

pow2_ceil-IsPowerAbove_example :
    ((p : ℕ) × (1000 ≤ 2 ^ 62) × (pow2_ceil (pos 1000) ≡ pos p) × IsPowerAbove 1000 p)
    ⊎ ((2 ^ 62 < 1000) × (pow2_ceil (pos 1000) ≡ pos 1000))
pow2_ceil-IsPowerAbove_example = pow2_ceil-IsPowerAbove 1000 (omega arith) (omega arith)

abbrev casts : Casts
casts = record { to_i64 = λ d. pos 0; to_f64 = λ i. 0 }

abbrev kwargs : List (Bytes × TunedValue)
kwargs = (codes "BLOCK_M", i64 (pos 64)) ∷ (codes "BLOCK_M", bool true) ∷ []

getters-Answers_example :
    Lacks (codes "BLOCK_M") kwargs × Answers casts (codes "BLOCK_M") kwargs none
    ⊎ (before : List (Bytes × TunedValue)) × (v : TunedValue) × (after : List (Bytes × TunedValue))
      × (kwargs ≡ before ++ (codes "BLOCK_M", v) ∷ after)
      × Lacks (codes "BLOCK_M") before
      × Answers casts (codes "BLOCK_M") kwargs (some v)
getters-Answers_example = getters-Answers casts (codes "BLOCK_M") kwargs

abbrev pub info : TunedKernelInfo
info = record {
  kernel_id = codes "k";
  cache_namespace = [];
  op_name = [];
  config_table_name = [];
  key_columns = (codes "M", log) ∷ [];
  ndtype_keys = 1;
  source_sha256 = [];
  candidate_set_hash = [];
  unsupported = [];
  entry_count = 2;
}

abbrev pub row : ℕ → Entry
row m = record {
  dims = pos m ∷ [];
  dtypes = codes "torch.float32" ∷ [];
  config = default_config;
  next = uint32_max;
}

abbrev pub rows : Rows
rows = record { entries = row 64 ∷ row 128 ∷ []; buckets = []; info = info; storage_id = codes "k" }

abbrev sample_key : TuneKeyView
sample_key = record {
  dims = array (pos 100 ∷ []);
  dtypes = array (some (codes "torch.float32") ∷ []);
}

rows-IsRow : AllRows rows sample_key
rows-IsRow zero e h =
    let q : row 64 ≡ e = cc in rw (← q) (record { dims_fit = refl; dtypes_fit = refl })
rows-IsRow (suc zero) e h =
    let q : row 128 ≡ e = cc in rw (← q) (record { dims_fit = refl; dtypes_fit = refl })
rows-IsRow (suc (suc i)) e h = cc

find_row-scan_example :
    find_row (build_index rows) sample_key
    ≡ scan (wanted rows sample_key) rows.entries (length rows.entries)
find_row-scan_example =
    find_row-scan rows sample_key rows-IsRow (record { dims_fit = refl; dtypes_fit = refl })
      (omega arith)

-- 100 is looked up as 128, the second row.
found_row : find_row (build_index rows) sample_key ≡ some 1
unfolding find_row build_index bucket_of hash_key matches link_rows little_endian normalize_dim
    pow2_ceil
found_row = refl

bucket_count_of-enough_example :
    (k : ℕ) × (bucket_count_of 100 ≡ 16 * 2 ^ k) × (100 * 2 ≤ bucket_count_of 100)
bucket_count_of-enough_example = bucket_count_of-enough 100

abbrev fresh : TunedTable
fresh = record { storages = λ i b. []; storage_count = 0; snapshot = none; history = [] }

kernel-publish_locked_example :
    kernel (publish_locked 1 (loaded rows) fresh) (codes "k") (pos 1) ≡ (
      if 1 == 1 && text_eq (rows_of (loaded rows)).storage_id (codes "k")
      then some (loaded rows)
      else kernel fresh (codes "k") (pos 1))
kernel-publish_locked_example = kernel-publish_locked fresh (loaded rows) (codes "k") 1 1

abbrev resolved : ResolvedEntry
resolved = record {
  config = default_config;
  key_columns = (codes "M", log) ∷ [];
  cache_namespace = [];
}

abbrev resolved_table : TunedTable
resolved_table = add_node (codes "k") (codes "k") 0 sample_key resolved none fresh

inserted :
    insert_resolved (codes "k") (codes "k") 0 sample_key resolved fresh
    ≡ ok (default_config, resolved_table)
unfolding insert_resolved insert_locked check_current kernel scoped_kernel_id
inserted = refl

sample_key_valid : is_invalid (pos 0) sample_key ≡ false
unfolding is_invalid
sample_key_valid = refl

insert_resolved-find_example :
    find resolved_table (codes "k") (pos 0) sample_key ≡ some default_config
insert_resolved-find_example =
    insert_resolved-find (codes "k") (codes "k") 0 sample_key resolved sample_key_valid refl fresh
      resolved_table default_config inserted

abbrev resolver : Resolver
resolver = record { identity = none; run = λ kernel_id device key. ok (some resolved) }

first_resolve :
    resolve (pos 0) false (some resolver) (codes "k") (pos 0) sample_key fresh
    ≡ ok (some default_config, resolved_table)
unfolding resolve look_then_run run_resolver insert_answer refuse_if_frozen is_frozen is_invalid
    find insert_resolved insert_locked check_current kernel scoped_kernel_id
first_resolve = refl

-- The second call is made while frozen, and with a resolver that declines.
abbrev declining : Resolver
declining = record { identity = none; run = λ kernel_id device key. ok none }

resolve-again_example :
    (find_for_context (some declining) resolved_table (codes "k") (pos 0) sample_key
      ≡ some default_config)
    × (resolve (pos 1) true (some declining) (codes "k") (pos 0) sample_key resolved_table
        ≡ ok (some default_config, resolved_table))
resolve-again_example =
    resolve-again (pos 0) (pos 1) false true (some resolver) (some declining) (codes "k") (pos 0)
      sample_key fresh resolved_table default_config refl first_resolve

abbrev fingerprint : Bytes → BackendFingerprint
fingerprint device = record {
  backend = codes "CUDA";
  vendor = [];
  device_name = device;
  arch = [];
  triton_version = [];
  libtriton_jit_version = [];
}

other_device_refused :
    check_fingerprint none (fingerprint (codes "H800")) (fingerprint (codes "A100"))
    ≡ throw other_device
unfolding check_fingerprint check_backend check_device env_flag
other_device_refused = refl

check_fingerprint_iff_example :
    (check_fingerprint (some (codes "1")) (fingerprint (codes "H800")) (fingerprint (codes "A100"))
      ≡ ok tt)
    ↔ ((codes "CUDA" ≢ [])
        × ((codes "CUDA" ≡ []) ⊎ (codes "CUDA" ≡ codes "CUDA"))
        × ((codes "H800" ≡ [])
            ⊎ ((codes "A100" ≡ [])
                ⊎ ((codes "H800" ≡ codes "A100") ⊎ IsTurnedOn (some (codes "1"))))))
check_fingerprint_iff_example =
    check_fingerprint_iff (some (codes "1")) (fingerprint (codes "H800"))
      (fingerprint (codes "A100"))
