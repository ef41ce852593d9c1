-- ===== src/Tuned/Table/Resolved.antt =====
-- A configuration that `insert_resolved` returns is the one that `find` has for the key from then on.
use libtriton_jit.Common.{
  ℕ, ◌%◌, ◌==◌, Bool, true, false, not, ◌&&◌, ◌||◌, List, [], ◌∷◌, Bytes, text_eq, text_eq_iff,
  text_eq_refl, length, map, Option, none, some, ◌≡◌, refl, sym, ap, ap₂, ◌∙◌, arith, ==_iff, ltb,
  &&_iff, inl, inr, Bool-cases, Option-cases, if◌then◌else◌, Result, ok, ok_inj, ◌>>=◌, ◌>>◌,
  throw_if,
}
use libtriton_jit.Common.Int.{ℤ, pos, eq_ℤ}
use libtriton_jit.Tuned.Config.{TunedConfig}
use libtriton_jit.Tuned.Key.{KeyStrategy, default, log, align32, align32_ceil}
use libtriton_jit.Tuned.Rows.{
  Entry, Rows, TunedKernelInfo, TuneKeyView, count, is_null, elements, max_columns, fits, matches,
  normalized_of, normalize_dims, hash_key, dtype_text, same_dims, same_dtypes, c_str,
}
use libtriton_jit.Tuned.Table.{
  KernelTable, loaded, online, layered, rows_of, OnlineStorage, TunedTable, ResolvedEntry,
  ResolveError, bad_width, other_namespace, other_schema, update, find_node, find_online, nodes_of,
  find_in, kernel, find, publish_locked, insert_resolved, insert_locked, other_width, is_foreign,
  is_other_schema, add_node, new_node, info_of, layer, storage_of, is_new_storage, same_columns,
  same_strategy, check_current, is_invalid, has_null, online_buckets,
}
use libtriton_jit.Tuned.Table.Published.{kernel-publish_locked}

eq_ℤ_refl : (z : ℤ) → eq_ℤ z z ≡ true
eq_ℤ_refl (pos n) = ground arith
eq_ℤ_refl z = ground arith

same_dims_refl : (dims : List ℤ) → same_dims dims dims ≡ true
unfolding same_dims
same_dims_refl [] = refl
same_dims_refl (d ∷ ds) = rw (eq_ℤ_refl d, same_dims_refl ds) refl

same_dtypes-own :
    (keys : List (Option Bytes))
    → has_null keys ≡ false
    → same_dtypes (map dtype_text keys) keys ≡ true
unfolding same_dtypes
same_dtypes-own [] h = refl
same_dtypes-own (none ∷ ks) h = cc
same_dtypes-own (some k ∷ ks) h = rw (text_eq_refl (c_str k), same_dtypes-own ks h) refl

matches-new_node :
    (key : TuneKeyView) (resolved : ResolvedEntry)
    → has_null (elements key.dtypes) ≡ false
    → matches
        (normalize_dims resolved.key_columns (elements key.dims))
        (elements key.dtypes)
        (new_node key resolved)
      ≡ true
unfolding matches
matches-new_node key resolved h =
    rw
      (
        same_dims_refl (normalize_dims resolved.key_columns (elements key.dims)),
        same_dtypes-own (elements key.dtypes) h,
      )
      refl

same_strategy→eq : (a b : KeyStrategy) → same_strategy a b ≡ true → a ≡ b
same_strategy→eq default default h = refl
same_strategy→eq log log h = refl
same_strategy→eq align32 align32 h = refl
same_strategy→eq align32_ceil align32_ceil h = refl
same_strategy→eq _ _ h = cc

same_columns→eq : (us vs : List (Bytes × KeyStrategy)) → same_columns us vs ≡ true → us ≡ vs
unfolding same_columns
same_columns→eq [] [] h = refl
same_columns→eq [] (v ∷ vs) h = cc
same_columns→eq (u ∷ us) [] h = cc
same_columns→eq (u ∷ us) (v ∷ vs) h =
    let (both, others) =
      (&&_iff (text_eq u.0 v.0 && same_strategy u.1 v.1) (same_columns us vs)).0 h in
    let (name, strategy) = (&&_iff (text_eq u.0 v.0) (same_strategy u.1 v.1)).0 both in
    let head : u ≡ v =
      ap₂ (λ (n : Bytes) (s : KeyStrategy). (n, s)) ((text_eq_iff u.0 v.0).0 name)
        (same_strategy→eq u.1 v.1 strategy) in
    ap₂ ◌∷◌ head (same_columns→eq us vs others)

-- The nodes of a bucket that starts with the new node.
find_online-new_node :
    (table : TunedTable) (info : TunedKernelInfo) (storage : ℕ) (key : TuneKeyView)
    (resolved : ResolvedEntry) (old : List Entry)
    → info.key_columns ≡ resolved.key_columns
    → has_null (elements key.dtypes) ≡ false
    → nodes_of table info storage key ≡ new_node key resolved ∷ old
    → find_online table info storage key ≡ some resolved.config
unfolding find_online find_node normalized_of
find_online-new_node table info storage key resolved old columns h nodes =
    rw (nodes, columns, matches-new_node key resolved h) refl

update_self {ℓ} : {A : Type ℓ} (f : ℕ → A) (i : ℕ) (a : A) → update f i a i ≡ a
update_self f i a = ground arith

not-false : (b : Bool) → not b ≡ false → b ≡ true
not-false true h = refl
not-false false h = cc

or_false : (a b : Bool) → (a || b) ≡ false → (a ≡ false) × (b ≡ false)
or_false a b h = ground arith

-- Only the checks that `find` makes are left.
fits-key :
    (info : TunedKernelInfo) (key : TuneKeyView) (d : ℕ)
    → length info.key_columns ≡ count key.dims
    → info.ndtype_keys ≡ count key.dtypes
    → is_invalid (pos d) key ≡ false
    → (fits info key ≡ true) × (has_null (elements key.dtypes) ≡ false)
unfolding fits is_invalid
fits-key info key d columns dtypes h =
    let (shape, nulls) = or_false _ (has_null (elements key.dtypes)) h in
    let (left, no_dtypes) = or_false _ (ltb 0 (count key.dtypes) && is_null key.dtypes) shape in
    let (wide, no_dims) = or_false (ltb max_columns (count key.dims)) _ left in
    (
      rw
          (
            columns,
            dtypes,
            (==_iff (count key.dims) (count key.dims)).1 refl,
            (==_iff (count key.dtypes) (count key.dtypes)).1 refl,
            wide,
            no_dims,
            no_dtypes,
          )
          refl,
      nulls,
    )

storage_id-layer :
    (current : Option KernelTable) (rows : Rows) (i : ℕ) → rows_of (layer current rows i) ≡ rows
storage_id-layer none rows i = refl
storage_id-layer (some (loaded old)) rows i = refl
storage_id-layer (some (online old j)) rows i = refl
storage_id-layer (some (layered old j offline)) rows i = refl

find_in-layer :
    (table : TunedTable) (current : Option KernelTable) (rows : Rows) (i : ℕ) (key : TuneKeyView)
    (c : TunedConfig)
    → fits rows.info key ≡ true
    → find_online table rows.info i key ≡ some c
    → find_in table (layer current rows i) key ≡ some c
unfolding find_in
find_in-layer table none rows i key c h e = rw (h, e) refl
find_in-layer table (some (loaded old)) rows i key c h e = rw (h, e) refl
find_in-layer table (some (online old j)) rows i key c h e = rw (h, e) refl
find_in-layer table (some (layered old j offline)) rows i key c h e = rw (h, e) refl

find-publish_locked :
    (table : TunedTable) (t : KernelTable) (device : ℕ) (id : Bytes) (key : TuneKeyView)
    → (rows_of t).storage_id ≡ id
    → find (publish_locked device t table) id (pos device) key
      ≡ find_in (publish_locked device t table) t key
unfolding find
find-publish_locked table t device id key e =
    let there : kernel (publish_locked device t table) id (pos device) ≡ some t =
      kernel-publish_locked table t id device device
      ∙ rw ((==_iff device device).1 refl, e, text_eq_refl id) refl in
    rw (there, find) refl

nodes_added :
    (f : ℕ → OnlineStorage) (i : ℕ) (old : OnlineStorage) (b c : ℕ) (node : Entry)
    → c ≡ b
    → update f i (update old b (node ∷ old b)) i c ≡ node ∷ old b
nodes_added f i old b c node e = rw (e, (==_iff i i).1 refl, (==_iff b b).1 refl) refl

guard_passed {ℓ} :
    {A : Type ℓ} {a : A} (b : Bool) (x : ResolveError) (m : Result ResolveError A)
    → (throw_if b x >> m) ≡ ok a
    → m ≡ ok a
guard_passed true x m h = cc
guard_passed false x m h = h

after_check {ℓ κ} :
    {A : Type ℓ} {B : Type κ} {r : B} (b : Bool) (x : ResolveError) (v : A)
    (f : A → Result ResolveError B)
    → ((throw_if b x >> ok v) >>= f) ≡ ok r
    → (b ≡ false) × (f v ≡ ok r)
after_check true x v f h = cc
after_check false x v f h = (refl, h)

-- A resolved entry is taken only when it has as many columns as the key.
pub insert_resolved-width :
    (kernel_id storage_id : Bytes) (device : ℕ) (key : TuneKeyView) (resolved : ResolvedEntry)
    (table after : TunedTable) (c : TunedConfig)
    → insert_resolved kernel_id storage_id device key resolved table ≡ ok (c, after)
    → length resolved.key_columns ≡ count key.dims
unfolding insert_resolved
insert_resolved-width kernel_id storage_id device key resolved table after c h =
    elim (Bool-cases (length resolved.key_columns == count key.dims)) [
      | inl t ↦ (==_iff (length resolved.key_columns) (count key.dims)).0 t
      | inr f ↦ cc (rw (f, insert_resolved) at h)
    ]

-- A key that passed the checks of `resolve`, and a resolved entry with as many columns.
module _ (kernel_id storage_id : Bytes) (device : ℕ) (key : TuneKeyView) (resolved : ResolvedEntry)
    (valid : is_invalid (pos device) key ≡ false)
    (width : length resolved.key_columns ≡ count key.dims) where
  find-add_node :
      (table : TunedTable) (current : Option KernelTable)
      → (info_of kernel_id storage_id resolved (count key.dtypes) current).key_columns
        ≡ resolved.key_columns
      → (info_of kernel_id storage_id resolved (count key.dtypes) current).ndtype_keys
        ≡ count key.dtypes
      → find
          (add_node kernel_id storage_id device key resolved current table)
          storage_id
          (pos device)
          key
        ≡ some resolved.config
  unfolding add_node nodes_of publish_locked normalized_of
  find-add_node table current columns dtypes =
      let info = info_of kernel_id storage_id resolved (count key.dtypes) current in
      let (fitting, nulls) = fits-key info key device (ap length columns ∙ width) dtypes valid in
      let old : OnlineStorage =
        if is_new_storage current then (λ b. []) else table.storages (storage_of table current) in
      let bucket =
        hash_key info (new_node key resolved).dims (elements key.dtypes) % online_buckets in
      let rows : Rows = record {
        entries = [];
        buckets = [];
        info = info;
        storage_id = storage_id;
      } in
      let same = storage_id-layer current rows (storage_of table current) in
      let made = add_node kernel_id storage_id device key resolved current table in
      let written : TunedTable = record table {
        storages = made.storages;
        storage_count = made.storage_count;
      } in
      find-publish_locked written _ device storage_id key (ap (λ (r : Rows). r.storage_id) same)
      ∙ find_in-layer _ current rows (storage_of table current) key resolved.config fitting (
          find_online-new_node _ info (storage_of table current) key resolved (old bucket) columns
            nulls
            (nodes_added table.storages (storage_of table current) old bucket _
              (new_node key resolved)
              (ap
                (λ (cols : List (Bytes × KeyStrategy)).
                  hash_key info (normalize_dims cols (elements key.dims)) (elements key.dtypes)
                  % online_buckets)
                columns)))

  same_schema :
      (t : KernelTable)
      → is_other_schema t key resolved ≡ false
      → ((rows_of t).info.key_columns ≡ resolved.key_columns)
        × ((rows_of t).info.ndtype_keys ≡ count key.dtypes)
  same_schema t h =
      let (c, d) =
        or_false (not (same_columns (rows_of t).info.key_columns resolved.key_columns)) _ h in
      (
        same_columns→eq (rows_of t).info.key_columns resolved.key_columns (not-false _ c),
        (==_iff (rows_of t).info.ndtype_keys (count key.dtypes)).0 (not-false _ d),
      )

  fresh_find :
      (table after : TunedTable) (c : TunedConfig)
      → insert_locked kernel_id storage_id device key resolved none table ≡ ok (c, after)
      → find after storage_id (pos device) key ≡ some c
  unfolding insert_locked check_current
  fresh_find table after c h =
      let made = add_node kernel_id storage_id device key resolved none table in
      let both : ◌≡◌ {A = TunedConfig × TunedTable} (resolved.config, made) (c, after) = ok_inj h in
      ap (λ (r : TunedConfig × TunedTable). find r.1 storage_id (pos device) key) (sym both)
      ∙ find-add_node table none refl refl
      ∙ ap (λ (r : TunedConfig × TunedTable). some r.0) both

  known_find :
      (table after : TunedTable) (t : KernelTable) (c : TunedConfig)
      → kernel table storage_id (pos device) ≡ some t
      → insert_locked kernel_id storage_id device key resolved (some t) table ≡ ok (c, after)
      → find after storage_id (pos device) key ≡ some c
  unfolding insert_locked check_current find
  known_find table after t c at h =
      let made = add_node kernel_id storage_id device key resolved (some t) table in
      let (agree, rest) =
        after_check (is_other_schema t key resolved) other_schema (find_in table t key)
          (λ hit?. elim hit? [ some hit ↦ ok (hit, table) | none ↦ ok (resolved.config, made) ])
          h in
      elim (Option-cases (find_in table t key)) [
        | inl e ↦
            let both : ◌≡◌ {A = TunedConfig × TunedTable} (resolved.config, made) (c, after) =
              ok_inj (rw e at rest) in
            let (cols, dts) = same_schema t agree in
            ap (λ (r : TunedConfig × TunedTable). find r.1 storage_id (pos device) key) (sym both)
            ∙ find-add_node table (some t) cols dts
            ∙ ap (λ (r : TunedConfig × TunedTable). some r.0) both
        | inr (hit, e) ↦
            let both : ◌≡◌ {A = TunedConfig × TunedTable} (hit, table) (c, after) =
              ok_inj (rw e at rest) in
            ap (λ (r : TunedConfig × TunedTable). find r.1 storage_id (pos device) key) (sym both)
            ∙ rw (at, find) e
            ∙ ap (λ (r : TunedConfig × TunedTable). some r.0) both
      ]

  -- A configuration that `insert_resolved` returns, whether it was there before or is the resolved
  -- one, is what `find` gives for the same key in the table that is left. The key is one that
  -- `resolve` accepts.
  pub insert_resolved-find :
      (table after : TunedTable) (c : TunedConfig)
      → insert_resolved kernel_id storage_id device key resolved table ≡ ok (c, after)
      → find after storage_id (pos device) key ≡ some c
  unfolding insert_resolved
  insert_resolved-find table after c h =
      let current = kernel table storage_id (pos device) in
      let last = insert_locked kernel_id storage_id device key resolved current table in
      let h1 =
        guard_passed (other_width key resolved) bad_width
          (throw_if (is_foreign kernel_id storage_id resolved) other_namespace >> last) h in
      let h2 = guard_passed (is_foreign kernel_id storage_id resolved) other_namespace last h1 in
      elim (Option-cases current) [
        | inl e ↦ fresh_find table after c (rw e at h2)
        | inr (t, e) ↦ known_find table after t c e (rw e at h2)
      ]
