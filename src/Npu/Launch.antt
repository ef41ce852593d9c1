-- ===== src/Npu/Launch.antt =====
-- `NpuBackend::prepare_launch` and `NpuBackend::launch_kernel` of
-- include/triton_jit/backends/npu_backend.h. The runtime of the device is a parameter: what each of
-- its functions answers, `none` for an error status. A launch gives the calls that it makes of the
-- device, in order, and its outcome.
pub mod Workspace
pub mod Whole
use libtriton_jit.Common.{
  ℕ, zero, suc, ◌+◌, ◌*◌, ◌%◌, ◌^◌, min, Bool, true, false, not, ◌&&◌, List, [], ◌∷◌, ◌++◌, Bytes,
  codes, text_eq, is_empty, length, take, ltb, ◌==◌, Option, none, some, Result, ok, throw,
  if◌then◌else◌,
}
use libtriton_jit.Npu.Buffer.{
  NpuArgBuffer, npu_arg_buffer, set_system_args, push_args_from_layout, set_grid,
}
use libtriton_jit.Npu.Signature.{SignatureError, parse_signature}
use libtriton_jit.Npu.Types.{NpuArgType, NpuKernelMetadata}

pub record LaunchOptions : Type 0 where
  pub shared_memory : ℕ
  pub signature : Bytes
  -- a null pointer is `none`
  pub arg_layout : Option (List NpuArgType)
  pub num_args : ℕ
  pub workspace_size : ℕ
  pub enable_auto_blockify : Bool
  pub mix_mode : Bytes

pub data LaunchError : Type 0 where
  unresolved_auto_blockify no_core_count no_c2c_address no_layout : LaunchError
  bad_signature : SignatureError → LaunchError
  arg_count_mismatch malloc_failed launch_failed : LaunchError

abbrev pub layout_of : List NpuArgType → Option (List NpuArgType)
layout_of [] = none
layout_of (t ∷ ts) = some (t ∷ ts)

-- `metadata` is what the module cache has for the kernel.
unfoldable pub prepare_launch :
    Option NpuKernelMetadata → ℕ → Bytes → ℕ → Result LaunchError LaunchOptions
prepare_launch none shared_mem sig num_args = throw unresolved_auto_blockify
prepare_launch (some metadata) shared_mem sig num_args = elim metadata.enable_auto_blockify [
  | none ↦ throw unresolved_auto_blockify
  | some blockify ↦ ok (record {
    shared_memory = shared_mem;
    signature = sig;
    arg_layout = layout_of metadata.arg_layout;
    num_args = num_args;
    workspace_size = metadata.workspace_size;
    enable_auto_blockify = blockify;
    mix_mode = metadata.mix_mode;
  })
]

-- The functions of the device runtime, by their answers.
pub record Runtime : Type 0 where
  pub ai_core_count : Option ℕ
  pub c2c_ctrl_addr : Option ℕ
  pub malloc : ℕ → Option ℕ
  pub kernel_launch : ℕ → ℕ → Bytes → Bool
  pub launch_callback : ℕ → Bool
  -- the bytes at an address
  pub memory : ℕ → ℕ → Bytes

-- Calls that change the state of the device: `rtMalloc` with the address that it gave, `rtFree`,
-- `rtKernelLaunch` with the number of blocks and the arguments, and `aclrtLaunchCallback` for a
-- callback that frees an address once the kernel is done, with whether it was registered.
pub data Call : Type 0 where
  malloc : ℕ → ℕ → Call
  free : ℕ → Call
  launch : ℕ → ℕ → Bytes → Call
  callback : ℕ → Bool → Call

pub record Launched : Type 0 where
  pub calls : List Call
  pub outcome : Result LaunchError (Unit {0})

abbrev pub failed : LaunchError → Launched
failed e = record { calls = []; outcome = throw e }

abbrev pub after : Call → Launched → Launched
after call l = record l { calls = call ∷ l.calls }

-- `uint32_t blockNum`
unfoldable pub block_num : ℕ → ℕ → ℕ → ℕ
block_num gx gy gz = gx * gy % 2 ^ 32 * gz % 2 ^ 32

-- The blocks to launch for so many physical cores.
unfoldable pub blocks_on : ℕ → Bytes → ℕ → ℕ
blocks_on ai_cores mix_mode blocks =
    min blocks (if text_eq mix_mode (codes "aiv") then ai_cores * 2 % 2 ^ 32 else ai_cores)

unfoldable pub launch_blocks : Option ℕ → LaunchOptions → ℕ → Result LaunchError ℕ
launch_blocks cores opts blocks =
    if opts.enable_auto_blockify
    then elim cores [
      | none ↦ throw no_core_count
      | some ai_cores ↦
          if ai_cores == 0
          then throw no_core_count
          else ok (blocks_on ai_cores opts.mix_mode blocks)
    ]
    else ok blocks

-- The layout that the options name.
unfoldable pub arg_layout : LaunchOptions → Result LaunchError (List NpuArgType)
arg_layout opts =
    if not (is_empty opts.signature)
    then elim (parse_signature opts.signature) [
      | throw e ↦ throw (bad_signature e)
      | ok layout ↦ ok layout
    ]
    else elim opts.arg_layout [
      | none ↦ throw no_layout
      | some layout ↦ elim layout [ [] ↦ throw no_layout | t ∷ ts ↦ ok (t ∷ ts) ]
    ]

-- With the check of the number of arguments.
unfoldable pub checked_layout : LaunchOptions → Result LaunchError (List NpuArgType)
checked_layout opts = elim (arg_layout opts) [
  | throw e ↦ throw e
  | ok layout ↦
      if not (opts.num_args == 0) && not (opts.num_args == length layout)
      then throw arg_count_mismatch
      else ok layout
]

module _ (rt : Runtime) where
  -- `args` is `none` where it is null.
  unfoldable pub build_args :
      ℕ → ℕ → List NpuArgType → Option (List (Option ℕ)) → ℕ → ℕ → ℕ → NpuArgBuffer
  build_args ffts workspace layout args gx gy gz =
      let b = set_system_args ffts 0 workspace (npu_arg_buffer (length layout * 8 + 16)) in
      let filled : NpuArgBuffer = elim args [
        | none ↦ b
        | some addresses ↦ push_args_from_layout rt.memory addresses layout b
      ] in
      set_grid gx gy gz filled

  -- From `rtKernelLaunch` on; `workspace` is 0 where there is none.
  unfoldable pub submit : ℕ → ℕ → ℕ → NpuArgBuffer → Launched
  submit kernel blocks workspace b =
      let packed = take b.cursor b.buffer in
      elim (rt.kernel_launch kernel blocks packed) [
        | false ↦ record {
          calls =
              launch kernel blocks packed ∷ (if workspace == 0 then [] else free workspace ∷ []);
          outcome = throw launch_failed;
        }
        | true ↦ record {
          calls =
              launch kernel blocks packed
              ∷ (if workspace == 0
                  then []
                  else callback workspace (rt.launch_callback workspace) ∷ []);
          outcome = ok tt;
        }
      ]

  unfoldable pub launch_kernel : ℕ → ℕ → ℕ → ℕ → Option (List (Option ℕ)) → LaunchOptions → Launched
  unfolding block_num
  launch_kernel kernel gx gy gz args opts =
      let block_total = block_num gx gy gz in
      elim (launch_blocks rt.ai_core_count opts block_total) [
        | throw e ↦ failed e
        | ok blocks ↦ elim rt.c2c_ctrl_addr [
          | none ↦ failed no_c2c_address
          | some ffts ↦ elim (checked_layout opts) [
            | throw e ↦ failed e
            | ok layout ↦
                if ltb 0 opts.workspace_size
                then (let total = opts.workspace_size * block_total % 2 ^ 64 in
                    elim (rt.malloc total) [
                      | none ↦ failed malloc_failed
                      | some address ↦ after (malloc total address) (
                          submit kernel blocks address
                            (build_args ffts address layout args gx gy gz))
                    ])
                else submit kernel blocks 0 (build_args ffts 0 layout args gx gy gz)
          ]
        ]
      ]
