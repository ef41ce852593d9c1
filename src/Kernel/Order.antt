-- ===== src/Kernel/Order.antt =====
-- The order of what a launch does, on every outcome.
use libtriton_jit.Common.{
  ℕ, Bool, Bool-cases, List, [], ◌∷◌, ◌++◌, Bytes, Option, none, some, Option-cases, inl, inr,
  Result, ok, throw, Result-cases, ◌≡◌, refl, sym, ap, ◌∙◌,
}
use libtriton_jit.Backends.Cache.{throw-ne-ok}
use libtriton_jit.Common.Int.{ℤ}
use libtriton_jit.Freeze.{program, refuse_if_frozen}
use libtriton_jit.Hooks.{LaunchHooksState}
use libtriton_jit.Kernel.{
  BackendPolicy, LaunchMetadata, LoadState, LaunchError, frozen_miss, load_failed, prepare_failed,
  launch_failed, enter_threw, exit_threw, Event, entered, exited, submitted, Launch, Request,
  load_handle, lazy_init_handle, metadata_of, block_of, enter_of, exit_of, leave, submit, enter,
  launch_loaded, launch_with_signature,
}
use libtriton_jit.Kernel.Loaded.{lazy_init_handle-kept}

throw_inj {ℓ κ} :
    {E : Type κ} {A : Type ℓ} {x y : E} → ◌≡◌ {A = Result E A} (throw x) (throw y) → x ≡ y
throw_inj h = cc

module _ {S O E : Type 0} (policy : BackendPolicy S O E) (dir kernel_name : Bytes)
    (call : ℕ → LaunchMetadata → Bool) (hooks : Option LaunchHooksState) (r : Request) where
  -- The event of a hook that is there.
  abbrev pub hook_event :
      (ℕ → LaunchMetadata → Event O) → Option ℕ → LaunchMetadata → List (Event O)
  hook_event event none m = []
  hook_event event (some hook) m = event hook m ∷ []

  abbrev pub enters : LaunchMetadata → List (Event O)
  enters m = hook_event entered (enter_of policy dir kernel_name hooks) m

  abbrev pub exits : LaunchMetadata → List (Event O)
  exits m = hook_event exited (exit_of policy dir kernel_name hooks) m

  -- The kernel was submitted, with its handle, on the grid of the request and with the options that the
  -- backend prepared for the shared memory that the hooks are told of; before it came the enter hook, if
  -- there is one, and after it `rest`.
  pub record Submitted (state : LoadState S) (events : List (Event O))
      (rest : LaunchMetadata → List (Event O)) : Type 0 where
    pub handle : ℕ
    pub shared_memory : ℕ
    pub opts : O
    pub before : S
    pub loaded : state.handle ≡ some handle
    pub prepared :
        policy.prepare_launch dir kernel_name shared_memory r.signature r.num_args before ≡ ok opts
    pub in_order :
        events
        ≡ enters (metadata_of policy dir kernel_name r shared_memory)
          ++ submitted r.stream handle r.grid (block_of policy dir kernel_name r) r.args opts
            ∷ rest (metadata_of policy dir kernel_name r shared_memory)

  -- Only the enter hook ran.
  pub record Entered (events : List (Event O)) : Type 0 where
    pub hook : ℕ
    pub shared_memory : ℕ
    pub is_hook : enter_of policy dir kernel_name hooks ≡ some hook
    pub only : events ≡ entered hook (metadata_of policy dir kernel_name r shared_memory) ∷ []

  abbrev pub Ordered : Result (LaunchError E) (Unit {0}) → LoadState S → List (Event O) → Type 0
  Ordered (ok u) state events = Submitted state events exits
  Ordered (throw exit_threw) state events = Submitted state events exits
  Ordered (throw (launch_failed e)) state events = Submitted state events (λ m. [])
  Ordered (throw enter_threw) state events = Entered events
  Ordered (throw _) state events = events ≡ []

  -- The part from the submission on.
  abbrev Shape :
      ℕ → O → LaunchMetadata → Result (LaunchError E) (Unit {0}) → List (Event O) → Type 0
  Shape handle opts m (ok u) events =
      events
      ≡ submitted r.stream handle r.grid (block_of policy dir kernel_name r) r.args opts ∷ exits m
  Shape handle opts m (throw exit_threw) events =
      events
      ≡ submitted r.stream handle r.grid (block_of policy dir kernel_name r) r.args opts ∷ exits m
  Shape handle opts m (throw (launch_failed e)) events =
      events ≡ submitted r.stream handle r.grid (block_of policy dir kernel_name r) r.args opts ∷ []
  Shape handle opts m (throw _) events = ⊥

  record Part (handle : ℕ) (opts : O) (m : LaunchMetadata) (l : Launch S O E) : Type 0 where
    shape : Shape handle opts m l.outcome l.events
    kept : l.state.handle ≡ some handle

  submit-Part :
      (handle : ℕ) (opts : O) (m : LaunchMetadata) (k : LoadState S)
      → k.handle ≡ some handle
      → Part handle opts m (submit policy dir kernel_name call hooks r handle opts m k)
  unfolding submit leave
  submit-Part handle opts m k loaded =
      elim (Result-cases
        (policy.launch_kernel r.stream handle r.grid (block_of policy dir kernel_name r) r.args opts
          k.backend).0) [
            | inr (e, lost) ↦ rw (submit, lost) (record { shape = refl; kept = loaded })
            | inl (u, done) ↦ elim (Option-cases (exit_of policy dir kernel_name hooks)) [
              | inl without ↦
                  rw (submit, done, leave, without)
                    (record {
                      shape =
                          ap
                            (λ o.
                              submitted r.stream handle r.grid (block_of policy dir kernel_name r)
                                r.args opts
                              ∷ hook_event exited o m)
                            (sym without);
                      kept = loaded;
                    })
              | inr (hook, is_hook) ↦ elim (Bool-cases (call hook m)) [
                | inl fine ↦
                    rw (submit, done, leave, is_hook, fine)
                      (record {
                        shape =
                            ap
                              (λ o.
                                submitted r.stream handle r.grid (block_of policy dir kernel_name r)
                                  r.args opts
                                ∷ hook_event exited o m)
                              (sym is_hook);
                        kept = loaded;
                      })
                | inr threw ↦
                    rw (submit, done, leave, is_hook, threw)
                      (record {
                        shape =
                            ap
                              (λ o.
                                submitted r.stream handle r.grid (block_of policy dir kernel_name r)
                                  r.args opts
                                ∷ hook_event exited o m)
                              (sym is_hook);
                        kept = loaded;
                      })
              ]
            ]
          ]

  module _ (handle shared : ℕ) (opts : O) (before : S)
      (prepared : policy.prepare_launch dir kernel_name shared r.signature r.num_args before
        ≡ ok opts) where
    told : LaunchMetadata
    told = metadata_of policy dir kernel_name r shared

    finish :
        (o : Result (LaunchError E) (Unit {0})) (state : LoadState S)
        (events whole : List (Event O))
        → Shape handle opts told o events
        → state.handle ≡ some handle
        → whole ≡ enters told ++ events
        → Ordered o state whole
    unfolding told
    finish (ok u) state events whole shape loaded e = record {
      handle = handle;
      shared_memory = shared;
      opts = opts;
      before = before;
      loaded = loaded;
      prepared = prepared;
      in_order = e ∙ ap (λ rest. enters told ++ rest) shape;
    }
    finish (throw exit_threw) state events whole shape loaded e = record {
      handle = handle;
      shared_memory = shared;
      opts = opts;
      before = before;
      loaded = loaded;
      prepared = prepared;
      in_order = e ∙ ap (λ rest. enters told ++ rest) shape;
    }
    finish (throw (launch_failed x)) state events whole shape loaded e = record {
      handle = handle;
      shared_memory = shared;
      opts = opts;
      before = before;
      loaded = loaded;
      prepared = prepared;
      in_order = e ∙ ap (λ rest. enters told ++ rest) shape;
    }
    finish (throw (frozen_miss x)) state events whole shape loaded e = absurd shape
    finish (throw (load_failed x)) state events whole shape loaded e = absurd shape
    finish (throw (prepare_failed x)) state events whole shape loaded e = absurd shape
    finish (throw enter_threw) state events whole shape loaded e = absurd shape

    enter-Ordered :
        (k : LoadState S)
        → k.handle ≡ some handle
        → let l = enter policy dir kernel_name call hooks r handle opts told k in
          Ordered l.outcome l.state l.events
    unfolding enter told
    enter-Ordered k loaded =
        let rest = submit policy dir kernel_name call hooks r handle opts told k in
        let part = submit-Part handle opts told k loaded in
        elim (Option-cases (enter_of policy dir kernel_name hooks)) [
          | inl without ↦
              rw (enter, without)
                (finish rest.outcome rest.state rest.events rest.events part.shape part.kept
                  (ap (λ o. hook_event entered o told ++ rest.events) (sym without)))
          | inr (hook, is_hook) ↦ elim (Bool-cases (call hook told)) [
            | inl fine ↦
                rw (enter, is_hook, fine)
                  (finish rest.outcome rest.state rest.events (entered hook told ∷ rest.events)
                    part.shape part.kept
                    (ap (λ o. hook_event entered o told ++ rest.events) (sym is_hook)))
            | inr threw ↦
                rw (enter, is_hook, threw)
                  (record { hook = hook; shared_memory = shared; is_hook = is_hook; only = refl })
          ]
        ]

  lazy_init_handle-Ordered :
      (depth : ℤ) (capturing : Bool) (k state : LoadState S) (e : LaunchError E)
      → (lazy_init_handle policy dir kernel_name depth capturing k).0 ≡ throw e
      → Ordered (throw e) state []
  unfolding lazy_init_handle load_handle
  lazy_init_handle-Ordered depth capturing k state e h = elim (Option-cases k.handle) [
    | inr (old, there) ↦ absurd (throw-ne-ok (sym (rw (lazy_init_handle, there) at h)))
    | inl new ↦ elim (Result-cases (refuse_if_frozen depth capturing program)) [
      | inr (x, frozen) ↦ rw (← throw_inj (rw (lazy_init_handle, new, frozen) at h)) refl
      | inl (u, free) ↦ elim (Result-cases (policy.load_kernel dir kernel_name k.backend).0) [
        | inl (loaded, done) ↦
            absurd (throw-ne-ok (sym (rw (lazy_init_handle, new, free, load_handle, done) at h)))
        | inr (x, lost) ↦
            rw (← throw_inj (rw (lazy_init_handle, new, free, load_handle, lost) at h)) refl
      ]
    ]
  ]

  -- What a launch does, by its outcome. When it succeeds, or only the exit hook throws, the enter hook of the
  -- snapshot ran, if there is one, then the kernel was submitted on the request's stream, with its
  -- arguments, the handle that stays loaded and the options prepared for the shared memory that the hooks
  -- are told of, and then the exit hook ran, if there is one. When the submission fails, no exit hook ran.
  -- When the enter hook throws, nothing was submitted and no exit hook ran. When the load is refused or
  -- fails, or the options cannot be prepared, no hook ran and nothing was submitted.
  pub launch_with_signature-Ordered :
      (depth : ℤ) (capturing : Bool) (k : LoadState S)
      → let l = launch_with_signature policy dir kernel_name call hooks depth capturing r k in
        Ordered l.outcome l.state l.events
  unfolding launch_with_signature launch_loaded metadata_of told
  launch_with_signature-Ordered depth capturing k =
      let after = (lazy_init_handle policy dir kernel_name depth capturing k).1 in
      elim (Result-cases (lazy_init_handle policy dir kernel_name depth capturing k).0) [
        | inr (e, refused) ↦
            rw (launch_with_signature, refused)
              (lazy_init_handle-Ordered depth capturing k after e refused)
        | inl (handle, found) ↦
            let shared = policy.get_shared_memory dir kernel_name after.backend in
            elim (Result-cases
              (policy.prepare_launch dir kernel_name shared r.signature r.num_args after.backend)) [
                | inr (e, lost) ↦ rw (launch_with_signature, found, launch_loaded, lost) refl
                | inl (opts, prepared) ↦
                    rw (launch_with_signature, found, launch_loaded, prepared)
                      (enter-Ordered handle shared opts after.backend prepared after (
                        lazy_init_handle-kept policy dir kernel_name depth capturing k handle
                          found))
              ]
      ]
