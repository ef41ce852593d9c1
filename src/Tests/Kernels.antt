-- ===== src/Tests/Kernels.antt =====
-- Launches of a kernel on CUDA, with hooks.
use libtriton_jit.Common.{
  ℕ, ◌∷◌, [], List, Bytes, codes, true, false, not, Bool, ◌==◌, Option, none, some, ok, throw, ◌≡◌,
  refl,
}
use libtriton_jit.Common.Int.{pos}
use libtriton_jit.Backends.{LoadError, load_cached, find_module, shared_of}
use libtriton_jit.Backends.Cuda
use libtriton_jit.Freeze.{program, explicit_freeze, refuse_if_frozen, is_frozen}
use libtriton_jit.Hooks.{LaunchHooksState}
use libtriton_jit.Kernel.{
  BackendPolicy, LaunchMetadata, LoadState, frozen_miss, entered, exited, submitted, Request,
  load_handle, lazy_init_handle, metadata_of, leave, submit, enter, launch_loaded,
  launch_with_signature,
}
use libtriton_jit.Kernel.Loaded.{lazy_init_handle-again}
use libtriton_jit.Kernel.Order.{Ordered, launch_with_signature-Ordered}
use libtriton_jit.Kernel.Policies.{cuda_policy}
use libtriton_jit.Metadata.{load_gpu_metadata, load_shared_memory, read_gpu}
use libtriton_jit.Tests.Loading.{library, files, dir, name, device, loaded}

abbrev policy : BackendPolicy (List (Bytes × Cuda.ModuleData)) ℕ LoadError
policy = cuda_policy (load_gpu_metadata files library) (load_shared_memory files library) device

abbrev both_hooks : Option LaunchHooksState
both_hooks = some (record { enter = some 7; exit = some 8 })

-- Hook 9 throws.
abbrev returns : ℕ → LaunchMetadata → Bool
returns hook metadata = not (hook == 9)

abbrev request : Request
request = record {
  grid = (16, 1, 1);
  num_warps = pos 4;
  stream = some 4096;
  args = none;
  signature = codes "*fp32:16,i64";
  num_args = 2;
}

abbrev unloaded : LoadState (List (Bytes × Cuda.ModuleData))
unloaded = record { handle = none; backend = [] }

abbrev told : LaunchMetadata
told = record {
  kernel_name = name;
  grid = (16, 1, 1);
  num_warps = pos 4;
  shared_memory = 1024;
  signature = codes "*fp32:16,i64";
  stream = 4096;
}

runs :
    launch_with_signature policy dir name returns both_hooks (pos 0) false request unloaded
    ≡ record {
      events =
          entered 7 told
          ∷ submitted (some 4096) 34 (16, 1, 1) (128, 1, 1) none 1024
          ∷ exited 8 told
          ∷ [];
      outcome = ok tt;
      state = record { handle = some 34; backend = loaded };
    }
unfolding launch_with_signature launch_loaded enter submit leave metadata_of lazy_init_handle
    load_handle refuse_if_frozen is_frozen Cuda.load_kernel Cuda.load_module Cuda.check_arch
    Cuda.configure_shared_memory Cuda.get_shared_memory Cuda.launch_kernel load_cached find_module
    shared_of load_gpu_metadata load_shared_memory read_gpu
runs = refl

frozen :
    (launch_with_signature policy dir name returns none (pos 1) false request unloaded).outcome
    ≡ throw (frozen_miss (record { work = program; restriction = explicit_freeze }))
unfolding launch_with_signature lazy_init_handle refuse_if_frozen is_frozen
frozen = refl

launch_with_signature-Ordered_example :
    let l =
      launch_with_signature policy dir name returns both_hooks (pos 0) false request unloaded in
    Ordered policy dir name returns both_hooks request l.outcome l.state l.events
launch_with_signature-Ordered_example =
    launch_with_signature-Ordered policy dir name returns both_hooks request (pos 0) false unloaded

loads : (lazy_init_handle policy dir name (pos 0) false unloaded).0 ≡ ok 34
unfolding lazy_init_handle load_handle refuse_if_frozen is_frozen Cuda.load_kernel Cuda.load_module
    Cuda.check_arch Cuda.configure_shared_memory load_cached find_module load_gpu_metadata read_gpu
loads = refl

lazy_init_handle-again_example :
    lazy_init_handle policy dir name
      (pos 1)
      true
      (lazy_init_handle policy dir name (pos 0) false unloaded).1
    ≡ (ok 34, (lazy_init_handle policy dir name (pos 0) false unloaded).1)
lazy_init_handle-again_example =
    lazy_init_handle-again policy policy dir name (pos 0) (pos 1) false true unloaded 34 loads
