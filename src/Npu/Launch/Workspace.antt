-- ===== src/Npu/Launch/Workspace.antt =====
-- What a launch does with its workspace, and how many blocks it starts.
use libtriton_jit.Common.{
  if◌then◌else◌, ℕ, zero, suc, ◌+◌, ◌*◌, ◌%◌, ◌^◌, ◌≤◌, ◌<◌, true, false, List, [], ◌∷◌, Bytes,
  take, codes, text_eq, ltb, min, ◌==◌, ==_iff, Option, some, Option-cases, Result, ok, throw,
  ok_inj, Result-cases, ◌≡◌, ◌≢◌, refl, sym, arith, inl, inr, Bool-cases, ◌⊎◌,
}
use libtriton_jit.Npu.Buffer.{NpuArgBuffer}
use libtriton_jit.Npu.Launch.{
  Runtime, after, Call, malloc, free, launch, callback, Launched, LaunchError, failed,
  malloc_failed, no_c2c_address, launch_failed, no_core_count, LaunchOptions, launch_kernel,
  launch_blocks, blocks_on, block_num, checked_layout, submit, build_args,
}

-- The addresses that were allocated, in order.
unfoldable pub mallocs : List Call → List ℕ
mallocs [] = []
mallocs (malloc n a ∷ calls) = a ∷ mallocs calls
mallocs (call ∷ calls) = mallocs calls

-- The addresses that were freed, or given to a callback that frees them.
unfoldable pub releases : List Call → List ℕ
releases [] = []
releases (free a ∷ calls) = a ∷ releases calls
releases (callback a true ∷ calls) = a ∷ releases calls
releases (call ∷ calls) = releases calls

unfoldable pub launches : List Call → ℕ
launches [] = 0
launches (launch k n b ∷ calls) = launches calls + 1
launches (call ∷ calls) = launches calls

-- How many kernels were started for this outcome.
abbrev pub StartedOnce : Result LaunchError (Unit {0}) → ℕ → Type 0
StartedOnce (ok u) n = n ≡ 1
StartedOnce (throw e) n = (n ≡ 0) ⊎ ((n ≡ 1) × (e ≡ launch_failed))

pub record Settled (l : Launched) : Type 0 where
  pub released : mallocs l.calls ≡ releases l.calls
  pub started : StartedOnce l.outcome (launches l.calls)

not_zero : (a : ℕ) → a ≢ 0 → (a == 0) ≡ false
not_zero zero h = absurd (h refl)
not_zero (suc a) h = elim (Bool-cases (suc a == 0)) [
  | inl e ↦ absurd (h ((==_iff (suc a) 0).0 e))
  | inr e ↦ e
]

failed-Settled : (e : LaunchError) → Settled (failed e)
unfolding mallocs releases launches
failed-Settled e = record { released = refl; started = inl refl }

module _ (rt : Runtime) (registers : (a : ℕ) → rt.launch_callback a ≡ true)
    (not_null : (n a : ℕ) → rt.malloc n ≡ some a → a ≢ 0) where
  submit-plain : (kernel blocks : ℕ) (b : NpuArgBuffer) → Settled (submit rt kernel blocks 0 b)
  unfolding submit mallocs releases launches
  submit-plain kernel blocks b =
      elim (Bool-cases (rt.kernel_launch kernel blocks (take b.cursor b.buffer))) [
        | inl h ↦ rw (submit, h) (record { released = refl; started = refl })
        | inr h ↦ rw (submit, h) (record { released = refl; started = inr (refl, refl) })
      ]

  submit-held :
      (kernel blocks n a : ℕ) (b : NpuArgBuffer)
      → rt.malloc n ≡ some a
      → Settled (after (malloc n a) (submit rt kernel blocks a b))
  unfolding submit mallocs releases launches
  submit-held kernel blocks n a b h =
      let live = not_zero a (not_null n a h) in
      elim (Bool-cases (rt.kernel_launch kernel blocks (take b.cursor b.buffer))) [
        | inl started ↦
            rw (submit, started, live, registers a) (record { released = refl; started = refl })
        | inr lost ↦
            rw (submit, lost, live) (record { released = refl; started = inr (refl, refl) })
      ]

  -- If callbacks always register and no allocation gives the null address, then a launch releases
  -- exactly the addresses it allocated, in order, and it starts one kernel if it succeeds, and none if
  -- it fails, but where the launch itself was refused.
  pub launch_kernel-Settled :
      (kernel gx gy gz : ℕ) (args : Option (List (Option ℕ))) (opts : LaunchOptions)
      → Settled (launch_kernel rt kernel gx gy gz args opts)
  unfolding launch_kernel mallocs releases launches
  launch_kernel-Settled kernel gx gy gz args opts =
      let total = block_num gx gy gz in
      elim (Result-cases (launch_blocks rt.ai_core_count opts total)) [
        | inr (e, refused) ↦ rw (launch_kernel, refused) (failed-Settled e)
        | inl (blocks, counted) ↦ elim (Option-cases rt.c2c_ctrl_addr) [
          | inl lost ↦ rw (launch_kernel, counted, lost) (failed-Settled no_c2c_address)
          | inr (ffts, found) ↦ elim (Result-cases (checked_layout opts)) [
            | inr (e, refused) ↦ rw (launch_kernel, counted, found, refused) (failed-Settled e)
            | inl (layout, right) ↦ elim (Bool-cases (ltb 0 opts.workspace_size)) [
              | inr none_asked ↦
                  rw (launch_kernel, counted, found, right, none_asked)
                    (submit-plain kernel blocks (build_args rt ffts 0 layout args gx gy gz))
              | inl asked ↦
                  let n = opts.workspace_size * total % 2 ^ 64 in
                  elim (Option-cases (rt.malloc n)) [
                    | inl full ↦
                        rw (launch_kernel, counted, found, right, asked, full)
                          (failed-Settled malloc_failed)
                    | inr (a, given) ↦
                        rw (launch_kernel, counted, found, right, asked, given)
                          (submit-held kernel blocks n a (build_args rt ffts a layout args gx gy gz)
                            given)
                  ]
            ]
          ]
        ]
      ]

-- The blocks that the cores can run at once.
abbrev pub physical_blocks : ℕ → Bytes → ℕ
physical_blocks cores mix_mode = if text_eq mix_mode (codes "aiv") then cores * 2 else cores

refused : {n : ℕ} → ◌≡◌ {A = Result LaunchError ℕ} (throw no_core_count) (ok n) → ⊥
refused h = cc

positive_count : (n : ℕ) → (n == 0) ≡ false → 0 < n
positive_count n h = ground (arith, h)

-- The smaller of two numbers.
abbrev pub IsLeast : ℕ → ℕ → ℕ → Type 0
IsLeast n a b = (n ≤ a) × (n ≤ b) × ((n ≡ a) ⊎ (n ≡ b))

min-IsLeast : (a b : ℕ) → IsLeast (min a b) a b
min-IsLeast a b = (
  omega arith,
  omega arith,
  elim (Bool-cases (ltb a b)) [
    | inl below ↦ inl (ground (arith, below))
    | inr above ↦ inr (ground (arith, above))
  ],
)

blocks_on_bound :
    (count : ℕ) (mix_mode : Bytes) (blocks : ℕ)
    → count < 2 ^ 31
    → IsLeast (blocks_on count mix_mode blocks) blocks (physical_blocks count mix_mode)
unfolding blocks_on
blocks_on_bound count mix_mode blocks small = elim (Bool-cases (text_eq mix_mode (codes "aiv"))) [
  | inl vector ↦
      let exact : count * 2 % 2 ^ 32 ≡ count * 2 = omega arith in
      rw (blocks_on, vector, exact) (min-IsLeast blocks (count * 2))
  | inr other ↦ rw (blocks_on, other) (min-IsLeast blocks count)
]

blocks_bound :
    (cores : Option ℕ) (opts : LaunchOptions) (blocks n : ℕ)
    → ((count : ℕ) → cores ≡ some count → count < 2 ^ 31)
    → launch_blocks cores opts blocks ≡ ok n
    → ((opts.enable_auto_blockify ≡ false) × (n ≡ blocks))
      ⊎ ((count : ℕ) × (opts.enable_auto_blockify ≡ true)
          × (cores ≡ some count)
          × (0 < count)
          × IsLeast n blocks (physical_blocks count opts.mix_mode))
unfolding launch_blocks
blocks_bound cores opts blocks n few h = elim (Bool-cases opts.enable_auto_blockify) [
  | inr off ↦ inl (off, sym (ok_inj (rw (launch_blocks, off) at h)))
  | inl on ↦ elim (Option-cases cores) [
    | inl lost ↦ absurd (refused (rw (launch_blocks, on, lost) at h))
    | inr (count, known) ↦ elim (Bool-cases (count == 0)) [
      | inl zero_count ↦ absurd (refused (rw (launch_blocks, on, known, zero_count) at h))
      | inr live ↦
          let all : blocks_on count opts.mix_mode blocks ≡ n =
            ok_inj (rw (launch_blocks, on, known, live) at h) in
          inr (
            count,
            on,
            known,
            positive_count count live,
            rw (← all) (blocks_on_bound count opts.mix_mode blocks (few count known)),
          )
    ]
  ]
]

product_small : (a z m : ℕ) → a * suc z < m → a < m
product_small a z m h = omega (arith, h)

-- A grid of fewer than 2 ^ 32 places is counted without a wrap-around.
block_num-product : (gx gy gz : ℕ) → gx * gy * gz < 2 ^ 32 → block_num gx gy gz ≡ gx * gy * gz
unfolding block_num
block_num-product gx gy zero h = omega arith
block_num-product gx gy (suc z) h =
    let kept : gx * gy % 2 ^ 32 ≡ gx * gy = omega (arith, product_small (gx * gy) z (2 ^ 32) h) in
    rw (block_num, kept) (omega (arith, h))

-- When the grid has fewer than 2 ^ 32 places, there are fewer than 2 ^ 31 cores, and the number of blocks of
-- the launch is found, then without auto-blockify there is one block for each place of the grid; with it
-- there is a positive core count, and the blocks are as many as the places of the grid or as the cores,
-- twice the cores for kernels of mode "aiv", whichever is less.
pub launch_blocks_bound :
    (cores : Option ℕ) (opts : LaunchOptions) (gx gy gz n : ℕ)
    → gx * gy * gz < 2 ^ 32
    → ((count : ℕ) → cores ≡ some count → count < 2 ^ 31)
    → launch_blocks cores opts (block_num gx gy gz) ≡ ok n
    → ((opts.enable_auto_blockify ≡ false) × (n ≡ gx * gy * gz))
      ⊎ ((count : ℕ) × (opts.enable_auto_blockify ≡ true)
          × (cores ≡ some count)
          × (0 < count)
          × IsLeast n (gx * gy * gz) (physical_blocks count opts.mix_mode))
launch_blocks_bound cores opts gx gy gz n places few h =
    blocks_bound cores opts (gx * gy * gz) n few (rw (block_num-product gx gy gz places) at h)
