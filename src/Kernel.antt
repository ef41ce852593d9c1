-- ===== src/Kernel.antt =====
-- A kernel that is loaded when it is first needed, and launched: `TritonKernelImpl` of
-- include/triton_jit/triton_kernel.h. One thread runs at a time, so the lock and the second look at
-- `loaded` are not shown. The backend is an interface, which the modules of Backends fill.
pub mod Loaded
pub mod Order
pub mod Policies
use libtriton_jit.Common.{
  ℕ, ◌*◌, ◌%◌, ◌^◌, Bool, true, false, List, [], ◌∷◌, ◌++◌, Bytes, Option, none, some, Result, ok,
  throw, if◌then◌else◌,
}
use libtriton_jit.Common.Int.{ℤ}
use libtriton_jit.Backends.Mlu.{as_unsigned}
use libtriton_jit.Freeze.{FrozenMissError, program, refuse_if_frozen}
use libtriton_jit.Hooks.{LaunchHooksState}

-- What a backend does, with a state `S`, launch options `O` and errors `E`. A load and a launch give
-- the state that they leave. `launch_kernel` takes the stream, the handle, the grid, the block, the
-- arguments and the options. A stream is its pointer, or `none` where `StreamType` is no pointer type.
pub record BackendPolicy (S O E : Type 0) : Type 0 where
  pub warp_size : ℕ
  pub load_kernel : Bytes → Bytes → S → Result E ℕ × S
  pub get_shared_memory : Bytes → Bytes → S → ℕ
  pub prepare_launch : Bytes → Bytes → ℕ → Bytes → ℕ → S → Result E O
  pub launch_kernel :
      Option ℕ
      → ℕ
      → (ℕ × ℕ × ℕ)
      → (ℕ × ℕ × ℕ)
      → Option (List (Option ℕ))
      → O
      → S
      → Result E (Unit {0}) × S

-- `stream` is 0 where the stream is no pointer.
pub record LaunchMetadata : Type 0 where
  pub kernel_name : Bytes
  pub grid : ℕ × ℕ × ℕ
  pub num_warps : ℤ
  pub shared_memory : ℕ
  pub signature : Bytes
  pub stream : ℕ

-- `handle` is there when `loaded` is true.
pub record LoadState (S : Type 0) : Type 0 where
  pub handle : Option ℕ
  pub backend : S

pub data LaunchError (E : Type 0) : Type 0 where
  frozen_miss : FrozenMissError → LaunchError E
  load_failed prepare_failed launch_failed : E → LaunchError E
  enter_threw exit_threw : LaunchError E

-- What a launch does that can be seen from outside, in order.
pub data Event (O : Type 0) : Type 0 where
  entered exited : ℕ → LaunchMetadata → Event O
  submitted : Option ℕ → ℕ → (ℕ × ℕ × ℕ) → (ℕ × ℕ × ℕ) → Option (List (Option ℕ)) → O → Event O

pub record Launch (S O E : Type 0) : Type 0 where
  pub events : List (Event O)
  pub outcome : Result (LaunchError E) (Unit {0})
  pub state : LoadState S

-- The arguments of `launch_with_signature`.
pub record Request : Type 0 where
  pub grid : ℕ × ℕ × ℕ
  pub num_warps : ℤ
  pub stream : Option ℕ
  pub args : Option (List (Option ℕ))
  pub signature : Bytes
  pub num_args : ℕ

abbrev pub raw_stream : Option ℕ → ℕ
raw_stream none = 0
raw_stream (some pointer) = pointer

-- `depth` and `capturing` are what `refuse_if_frozen` reads; `call` says whether a hook returns.
module _ {S O E : Type 0} (policy : BackendPolicy S O E) (dir kernel_name : Bytes) where
  unfoldable pub load_handle : LoadState S → Result (LaunchError E) ℕ × LoadState S
  load_handle k =
      let loading = policy.load_kernel dir kernel_name k.backend in
      elim loading.0 [
        | throw e ↦ (throw (load_failed e), record k { backend = loading.1 })
        | ok handle ↦ (ok handle, record { handle = some handle; backend = loading.1 })
      ]

  -- It gives the handle of the kernel.
  unfoldable pub lazy_init_handle : ℤ → Bool → LoadState S → Result (LaunchError E) ℕ × LoadState S
  lazy_init_handle depth capturing k = elim k.handle [
    | some handle ↦ (ok handle, k)
    | none ↦ elim (refuse_if_frozen depth capturing program) [
      | throw e ↦ (throw (frozen_miss e), k)
      | ok done ↦ load_handle k
    ]
  ]

  unfoldable pub metadata_of : Request → ℕ → LaunchMetadata
  metadata_of r shared_memory = record {
    kernel_name = kernel_name;
    grid = r.grid;
    num_warps = r.num_warps;
    shared_memory = shared_memory;
    signature = r.signature;
    stream = raw_stream r.stream;
  }

  abbrev pub block_of : Request → ℕ × ℕ × ℕ
  block_of r = (as_unsigned 32 r.num_warps * policy.warp_size % 2 ^ 32, 1, 1)

  -- A hook of the snapshot, or none.
  abbrev pub enter_of : Option LaunchHooksState → Option ℕ
  enter_of none = none
  enter_of (some hooks) = hooks.enter

  abbrev pub exit_of : Option LaunchHooksState → Option ℕ
  exit_of none = none
  exit_of (some hooks) = hooks.exit

  module _ (call : ℕ → LaunchMetadata → Bool) (hooks : Option LaunchHooksState) where
    -- From the return of `Backend::launch_kernel` on.
    unfoldable pub leave : LaunchMetadata → LoadState S → Launch S O E
    leave metadata k = elim (exit_of hooks) [
      | none ↦ record { events = []; outcome = ok tt; state = k }
      | some hook ↦ record {
        events = exited hook metadata ∷ [];
        outcome = if call hook metadata then ok tt else throw exit_threw;
        state = k;
      }
    ]

    unfoldable pub submit : Request → ℕ → O → LaunchMetadata → LoadState S → Launch S O E
    submit r handle opts metadata k =
        let result =
          policy.launch_kernel r.stream handle r.grid (block_of r) r.args opts k.backend in
        let after = record k { backend = result.1 } in
        let rest = leave metadata after in
        let event = submitted r.stream handle r.grid (block_of r) r.args opts in
        elim result.0 [
          | throw e ↦ record {
            events = event ∷ [];
            outcome = throw (launch_failed e);
            state = after;
          }
          | ok done ↦ record rest { events = event ∷ rest.events }
        ]

    unfoldable pub enter : Request → ℕ → O → LaunchMetadata → LoadState S → Launch S O E
    enter r handle opts metadata k =
        let rest = submit r handle opts metadata k in
        elim (enter_of hooks) [
          | none ↦ rest
          | some hook ↦
              if call hook metadata
              then record rest { events = entered hook metadata ∷ rest.events }
              else record {
                events = entered hook metadata ∷ [];
                outcome = throw enter_threw;
                state = k;
              }
        ]

    -- Once the kernel is loaded.
    unfoldable pub launch_loaded : Request → ℕ → LoadState S → Launch S O E
    launch_loaded r handle k =
        let shared_memory = policy.get_shared_memory dir kernel_name k.backend in
        elim (policy.prepare_launch dir kernel_name shared_memory r.signature r.num_args
          k.backend) [
            | throw e ↦ record { events = []; outcome = throw (prepare_failed e); state = k }
            | ok opts ↦ enter r handle opts (metadata_of r shared_memory) k
          ]

    unfoldable pub launch_with_signature : ℤ → Bool → Request → LoadState S → Launch S O E
    launch_with_signature depth capturing r k =
        let init = lazy_init_handle depth capturing k in
        elim init.0 [
          | throw e ↦ record { events = []; outcome = throw e; state = init.1 }
          | ok handle ↦ launch_loaded r handle init.1
        ]

    -- `launch`, of a request with an empty signature and no argument count.
    unfoldable pub launch : ℤ → Bool → Request → LoadState S → Launch S O E
    launch depth capturing r k =
        launch_with_signature depth capturing (record r { signature = []; num_args = 0 }) k

  unfoldable pub prepare : ℤ → Bool → LoadState S → Result (LaunchError E) (Unit {0}) × LoadState S
  prepare depth capturing k =
      let init = lazy_init_handle depth capturing k in
      (elim init.0 [ throw e ↦ throw e | ok handle ↦ ok tt ], init.1)
