-- ===== src/Tuned/Resolve/Cached.antt =====
-- What `resolve` answers once, it answers again without the resolver.
use libtriton_jit.Common.{
  ℕ, Bool, false, Bytes, Option, none, some, ok, ok_inj, >>=-eq-ok, ◌>>=◌, ◌>>◌, throw_if, ◌≡◌,
  refl, sym, ap, ◌∙◌, inl, inr, Bool-cases, Option-cases, Result-cases,
}
use libtriton_jit.Common.Int.{ℤ, pos, negsuc}
use libtriton_jit.Freeze.{refuse_if_frozen, config}
use libtriton_jit.Tuned.Config.{TunedConfig}
use libtriton_jit.Tuned.Rows.{TuneKeyView}
use libtriton_jit.Tuned.Table.{TunedTable, ResolvedEntry, kernel, find, insert_resolved, is_invalid}
use libtriton_jit.Tuned.Table.Resolved.{insert_resolved-find, insert_resolved-width}
use libtriton_jit.Tuned.Resolve.{
  Resolver, schema_mismatch, resolver_raised, frozen, rethrow, storage_id_of, find_for_context,
  has_other_shape, insert_answer, run_resolver, look_then_run, resolve,
}

module _ (kernel_id storage_id : Bytes) (device : ℕ) (key : TuneKeyView)
    (valid : is_invalid (pos device) key ≡ false) where
  insert_answer-find :
      (table after : TunedTable) (answer : Option ResolvedEntry) (c : TunedConfig)
      → insert_answer kernel_id storage_id device key table answer ≡ ok (some c, after)
      → find after storage_id (pos device) key ≡ some c
  unfolding insert_answer
  insert_answer-find table after none c h = cc
  insert_answer-find table after (some e) c h =
      elim (Result-cases (insert_resolved kernel_id storage_id device key e table)) [
        | inr (x, f) ↦ cc (rw (f, insert_answer) at h)
        | inl (made, f) ↦
            let both : ◌≡◌ {A = Option TunedConfig × TunedTable} (some made.0, made.1)
                (some c, after) =
              ok_inj (rw (f, insert_answer) at h) in
            let first : made.0 ≡ c = cc (ap (λ (r : Option TunedConfig × TunedTable). r.0) both) in
            let second : made.1 ≡ after = ap (λ (r : Option TunedConfig × TunedTable). r.1) both in
            rw (← first, ← second)
              (insert_resolved-find kernel_id storage_id device key e valid
                (insert_resolved-width kernel_id storage_id device key e table made.1 made.0 f)
                table made.1 made.0 f)
      ]

  run_resolver-find :
      (depth : ℤ) (capturing : Bool) (resolver : Option Resolver) (table after : TunedTable)
      (c : TunedConfig)
      → run_resolver depth capturing resolver kernel_id storage_id device key table
        ≡ ok (some c, after)
      → find after storage_id (pos device) key ≡ some c
  unfolding run_resolver
  run_resolver-find depth capturing none table after c h = cc
  run_resolver-find depth capturing (some r) table after c h =
      let shape = has_other_shape (kernel table storage_id (pos device)) key in
      let enter = insert_answer kernel_id storage_id device key table in
      let asked = rethrow (λ u. resolver_raised) (r.run kernel_id device key) in
      let (_, _, h1) =
        >>=-eq-ok (rethrow frozen (refuse_if_frozen depth capturing config))
          (λ _. throw_if shape schema_mismatch >> (asked >>= enter)) h in
      let (_, _, h2) = >>=-eq-ok (throw_if shape schema_mismatch) (λ _. asked >>= enter) h1 in
      let (answer, _, h3) = >>=-eq-ok asked enter h2 in insert_answer-find table after answer c h3

  look_then_run-find :
      (depth : ℤ) (capturing : Bool) (resolver : Option Resolver) (table after : TunedTable)
      (c : TunedConfig)
      → look_then_run depth capturing resolver kernel_id storage_id device key table
        ≡ ok (some c, after)
      → find after storage_id (pos device) key ≡ some c
  unfolding look_then_run
  look_then_run-find depth capturing resolver table after c h =
      elim (Option-cases (find table storage_id (pos device) key)) [
        | inl f ↦
            run_resolver-find depth capturing resolver table after c (rw (f, look_then_run) at h)
        | inr (found, f) ↦
            let both : ◌≡◌ {A = Option TunedConfig × TunedTable} (some found, table)
                (some c, after) =
              ok_inj (rw (f, look_then_run) at h) in
            ap (λ (r : Option TunedConfig × TunedTable). find r.1 storage_id (pos device) key)
              (sym both)
            ∙ f
            ∙ ap (λ (r : Option TunedConfig × TunedTable). r.0) both
      ]

  look_again :
      (depth : ℤ) (capturing : Bool) (resolver : Option Resolver) (table : TunedTable)
      (c : TunedConfig)
      → find table storage_id (pos device) key ≡ some c
      → look_then_run depth capturing resolver kernel_id storage_id device key table
        ≡ ok (some c, table)
  unfolding look_then_run
  look_again depth capturing resolver table c f = rw (f, look_then_run) refl

-- A configuration that `resolve` returned is what `find_for_context` gives from then on, and what
-- `resolve` returns again, whatever the resolver would answer now, frozen or not, captured or not,
-- and without a change of the table, as long as the resolver keeps the kernel's storage id.
pub resolve-again :
    (depth depth' : ℤ) (capturing capturing' : Bool) (resolver resolver' : Option Resolver)
    (kernel_id : Bytes) (device : ℤ) (key : TuneKeyView) (table after : TunedTable)
    (c : TunedConfig)
    → storage_id_of resolver' kernel_id ≡ storage_id_of resolver kernel_id
    → resolve depth capturing resolver kernel_id device key table ≡ ok (some c, after)
    → (find_for_context resolver' after kernel_id device key ≡ some c)
      × (resolve depth' capturing' resolver' kernel_id device key after ≡ ok (some c, after))
unfolding resolve find_for_context
resolve-again depth depth' capturing capturing' resolver resolver' kernel_id (negsuc n) key table
      after c e h =
    cc
resolve-again depth depth' capturing capturing' resolver resolver' kernel_id (pos device) key table
      after c e h =
    elim (Bool-cases (is_invalid (pos device) key)) [
      | inl bad ↦ cc (rw (bad, resolve) at h)
      | inr valid ↦
          let found =
            look_then_run-find kernel_id (storage_id_of resolver kernel_id) device key valid depth
              capturing resolver table after c (rw (valid, resolve) at h) in
          (
            rw (e, find_for_context) found,
            rw (valid, resolve, e)
                (look_again kernel_id (storage_id_of resolver kernel_id) device key valid depth'
                  capturing' resolver' after c found),
          )
    ]
