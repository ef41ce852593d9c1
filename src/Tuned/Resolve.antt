-- ===== src/Tuned/Resolve.antt =====
-- `TunedTable::find_for_context` and `TunedTable::resolve`. The resolver, a callback of the
-- application, is a parameter: a function of what it is given, with the context and the stream fixed.
-- Calls run one after the other, so each owns its entry of `inflight_`, which it erases again.
pub mod Cached
use libtriton_jit.Common.{
  ℕ, Bool, true, false, not, ◌||◌, Bytes, Option, none, some, Result, ok, throw, ◌>>=◌, ◌>>◌,
  throw_if, length, ◌==◌, if◌then◌else◌,
}
use libtriton_jit.Common.Int.{ℤ, pos, negsuc}
use libtriton_jit.Freeze.{FrozenMissError, config, refuse_if_frozen}
use libtriton_jit.Tuned.Config.{TunedConfig}
use libtriton_jit.Tuned.Rows.{TuneKeyView, count}
use libtriton_jit.Tuned.Table.{
  KernelTable, rows_of, TunedTable, ResolvedEntry, ResolveError, kernel, find, insert_resolved,
  is_invalid,
}

-- `run` is `with_stream` where that is set; it may decline or raise.
pub record Resolver : Type 0 where
  pub identity : Option (Bytes → Bytes)
  pub run : Bytes → ℕ → TuneKeyView → Result (Unit {0}) (Option ResolvedEntry)

pub data ResolveFailure : Type 0 where
  invalid_argument schema_mismatch resolver_raised : ResolveFailure
  frozen : FrozenMissError → ResolveFailure
  rejected : ResolveError → ResolveFailure

abbrev pub rethrow {ℓ κ} :
    {E : Type κ} {A : Type ℓ} → (E → ResolveFailure) → Result E A → Result ResolveFailure A
rethrow wrap (ok a) = ok a
rethrow wrap (throw e) = throw (wrap e)

-- The name under which the resolver stores a kernel.
abbrev pub storage_id_of : Option Resolver → Bytes → Bytes
storage_id_of none kernel_id = kernel_id
storage_id_of (some r) kernel_id = elim r.identity [
  | none ↦ kernel_id
  | some identity ↦ identity kernel_id
]

unfoldable pub find_for_context :
    Option Resolver → TunedTable → Bytes → ℤ → TuneKeyView → Option TunedConfig
find_for_context resolver table kernel_id device key =
    find table (storage_id_of resolver kernel_id) device key

-- Whether a table that is there has another number of key columns or dtypes than the key.
abbrev pub has_other_shape : Option KernelTable → TuneKeyView → Bool
has_other_shape none key = false
has_other_shape (some t) key =
    not (length (rows_of t).info.key_columns == count key.dims)
    || not ((rows_of t).info.ndtype_keys == count key.dtypes)

abbrev pub Answer : Type 0
Answer = Result ResolveFailure (Option TunedConfig × TunedTable)

-- What the resolver answered, put into the table.
unfoldable pub insert_answer :
    Bytes → Bytes → ℕ → TuneKeyView → TunedTable → Option ResolvedEntry → Answer
insert_answer kernel_id storage_id device key table none = ok (none, table)
insert_answer kernel_id storage_id device key table (some resolved) =
    rethrow rejected (insert_resolved kernel_id storage_id device key resolved table) >>= λ made.
    ok (some made.0, made.1)

-- After a miss.
unfoldable pub run_resolver :
    ℤ → Bool → Option Resolver → Bytes → Bytes → ℕ → TuneKeyView → TunedTable → Answer
run_resolver depth capturing none kernel_id storage_id device key table = ok (none, table)
run_resolver depth capturing (some r) kernel_id storage_id device key table = do
  rethrow frozen (refuse_if_frozen depth capturing config)
  throw_if (has_other_shape (kernel table storage_id (pos device)) key) schema_mismatch
  answer ← rethrow (λ u. resolver_raised) (r.run kernel_id device key)
  insert_answer kernel_id storage_id device key table answer

unfoldable pub look_then_run :
    ℤ → Bool → Option Resolver → Bytes → Bytes → ℕ → TuneKeyView → TunedTable → Answer
look_then_run depth capturing resolver kernel_id storage_id device key table =
    elim (find table storage_id (pos device) key) [
      | some found ↦ ok (some found, table)
      | none ↦ run_resolver depth capturing resolver kernel_id storage_id device key table
    ]

unfoldable pub resolve : ℤ → Bool → Option Resolver → Bytes → ℤ → TuneKeyView → TunedTable → Answer
resolve depth capturing resolver kernel_id (negsuc n) key table = throw invalid_argument
resolve depth capturing resolver kernel_id (pos device) key table =
    throw_if (is_invalid (pos device) key) invalid_argument
    >> look_then_run depth capturing resolver kernel_id (storage_id_of resolver kernel_id) device
        key table
