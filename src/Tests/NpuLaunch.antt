-- ===== src/Tests/NpuLaunch.antt =====
-- Runs of an NPU launch, and the theorems about it at them.
use libtriton_jit.Common.{
  arith, ◌^◌, ◌*◌, ℕ, ◌≡◌, ◌<◌, ◌⊎◌, ◌≢◌, refl, true, false, List, [], ◌∷◌, ◌++◌, Bytes, codes,
  length, take, is_empty, ap, map, some, none, ok,
}
use libtriton_jit.Npu.Signature.{parse_signature}
use libtriton_jit.Launch.Args.Whole.{entries, values}
use libtriton_jit.Launch.Args.Entry.{Entry}
use libtriton_jit.Launch.Args.{full_signature}
use libtriton_jit.Launch.Buffer.{slice, get_ptrs, push_all, empty}
use libtriton_jit.Launch.Spec.{npu}
use libtriton_jit.Npu.Agreement.{Reads}
use libtriton_jit.Npu.Buffer.{npu_arg_buffer, set_system_args, push_args_from_layout, set_grid}
use libtriton_jit.Npu.Buffer.Packed.{read_all, arg_buffer-push_all, system_data, grid_data}
use libtriton_jit.Npu.Launch.{
  Runtime, launch, LaunchOptions, launch_kernel, launch_blocks, blocks_on, block_num,
}
use libtriton_jit.Npu.Launch.Whole.{narrow_all, launch_kernel-process_args}
use libtriton_jit.Npu.Launch.Workspace.{
  Settled, launch_kernel-Settled, IsLeast, physical_blocks, launch_blocks_bound,
}
use libtriton_jit.Npu.Types.{NpuArgType, pointer}
use libtriton_jit.Tests.Launching.{
  format, prints, kinds, arguments, handled, ready, npu_succeeds, npu_signature,
}

-- A device with 20 cores whose memory is the parameter buffer.
abbrev device : Runtime
device = record {
  ai_core_count = some 20;
  c2c_ctrl_addr = some 4096;
  malloc = λ n. some 8192;
  kernel_launch = λ kernel blocks bytes. true;
  launch_callback = λ a. true;
  memory = λ a n. slice a n (handled npu).buf.buff;
}

abbrev options : ℕ → LaunchOptions
options workspace = record {
  shared_memory = 0;
  signature = full_signature (handled npu);
  arg_layout = none;
  num_args = length (get_ptrs (handled npu).buf);
  workspace_size = workspace;
  enable_auto_blockify = true;
  mix_mode = codes "aiv";
}

blocks_capped : launch_blocks (some 20) (options 0) (block_num 10 10 1) ≡ ok 40
unfolding launch_blocks block_num blocks_on
blocks_capped = refl

-- a grid that does not fit 32 bits
blocks_wrapped : block_num 65536 65536 1 ≡ 0
unfolding block_num
blocks_wrapped = refl

few_cores : (count : ℕ) → some 20 ≡ some count → count < 2 ^ 31
few_cores count e = let same : 20 ≡ count = cc in omega (arith, same)

not_null : (n a : ℕ) → device.malloc n ≡ some a → a ≢ 0
not_null n a e z = cc

nonempty : is_empty (full_signature (handled npu)) ≡ false
nonempty = ap (λ (v : Bytes × List ℕ). is_empty v.0) npu_signature

launch_blocks_bound_example :
    (((options 0).enable_auto_blockify ≡ false) × (◌≡◌ {A = ℕ} 40 (10 * 10 * 1)))
    ⊎ ((count : ℕ) × ((options 0).enable_auto_blockify ≡ true)
        × (some 20 ≡ some count)
        × (0 < count)
        × IsLeast 40 (10 * 10 * 1) (physical_blocks count (options 0).mix_mode))
launch_blocks_bound_example =
    launch_blocks_bound (some 20) (options 0) 10 10 1 40 (omega arith) few_cores blocks_capped

launch_kernel-Settled_example :
    Settled
      (launch_kernel device 7 10 10 1 (some (map some (get_ptrs (handled npu).buf))) (options 512))
launch_kernel-Settled_example =
    launch_kernel-Settled device (λ a. refl) not_null 7 10 10 1
      (some (map some (get_ptrs (handled npu).buf))) (options 512)

arg_buffer-push_all_example :
    let b = set_grid 10 10 1 (
      push_args_from_layout
        (λ a n. codes "abcdefgh")
        (map some (0 ∷ 8 ∷ []))
        (pointer ∷ pointer ∷ [])
        (set_system_args 4096 0 8192 (npu_arg_buffer 32))) in
    take b.cursor b.buffer
    ≡ (push_all
        (system_data 4096 0 8192
          ++ (read_all (λ a n. codes "abcdefgh") (0 ∷ 8 ∷ []) (pointer ∷ pointer ∷ [])
              ++ grid_data 10 10 1))
        empty).buff
arg_buffer-push_all_example =
    arg_buffer-push_all (λ a n. codes "abcdefgh") 32 4096 0 8192 10 10 1 (0 ∷ 8 ∷ [])
      (pointer ∷ pointer ∷ [])

launch_kernel-process_args_example :
    (es : List Entry) × (types : List NpuArgType) × (entries npu format kinds arguments 0 ≡ ok es)
    × (parse_signature (options 0).signature ≡ ok types)
    × Reads types (values es)
    × ((launch_kernel device 7 10 10 1
          (some (map some (get_ptrs (handled npu).buf)))
          (options 0)).calls
        ≡ launch 7 40
            (push_all
              (system_data 4096 0 0 ++ (narrow_all types (values es) ++ grid_data 10 10 1))
              empty).buff
          ∷ [])
launch_kernel-process_args_example =
    launch_kernel-process_args format prints kinds device arguments (handled npu) (options 0) 7 40
      4096 10 10 1 ready npu_succeeds refl refl nonempty refl refl refl blocks_capped
