-- ===== src/Npu/Launch/Whole.antt =====
-- An NPU launch from the arguments of a call to the bytes that the kernel gets.
use libtriton_jit.Common.{
  ℕ, zero, suc, ◌+◌, ◌*◌, ◌≤◌, ◌≡◌, refl, sym, ap, ◌∙◌, List, [], ◌∷◌, ◌++◌, Bytes, length, take,
  drop, some, ok, map, arith, inl, inr, false, true, is_empty, ◌==◌, ==_iff, Bool-cases,
}
use libtriton_jit.Launch.Args.{Arg, ArgType, ArgHandle, process_args, full_signature, Format}
use libtriton_jit.Launch.Args.Entry.{Entry}
use libtriton_jit.Launch.Args.Whole.{entries, values}
use libtriton_jit.Launch.Buffer.{Datum, ParameterBuffer, slice, get_ptrs, push_all, empty}
use libtriton_jit.Launch.Buffer.Slots.{Stored}
use libtriton_jit.Launch.Spec.{npu}
use libtriton_jit.Npu.Agreement.{Reads, Fits-le}
use libtriton_jit.Npu.Agreement.Args.{PrintsIntegers, AllReady, parse_signature-process_args}
use libtriton_jit.Npu.Buffer.{NpuArgBuffer, read_arg}
use libtriton_jit.Npu.Buffer.Packed.{read_all, arg_buffer-push_all, system_data, grid_data}
use libtriton_jit.Npu.Launch.{
  Runtime, LaunchOptions, checked_layout, arg_layout, build_args, launch_kernel, launch_blocks,
  block_num, launch, submit,
}
use libtriton_jit.Npu.Signature.{parse_signature}
use libtriton_jit.Npu.Types.{NpuArgType, get_size, get_align}

-- As much of a value as the type reads, at the type's alignment.
unfoldable pub narrow : NpuArgType → Datum → Datum
narrow type v = record { align = get_align type; bytes = take (get_size type) v.bytes }

unfoldable pub narrow_all : List NpuArgType → List Datum → List Datum
narrow_all (t ∷ ts) (v ∷ vs) = narrow t v ∷ narrow_all ts vs
narrow_all _ _ = []

take-take_le {ℓ} : {A : Type ℓ} (m n : ℕ) (xs : List A) → m ≤ n → take m (take n xs) ≡ take m xs
take-take_le zero n xs h = refl
take-take_le (suc m) zero xs h = absurd (omega arith)
take-take_le (suc m) (suc n) [] h = refl
take-take_le (suc m) (suc n) (x ∷ xs) h = ap (λ ys. x ∷ ys) (take-take_le m n xs (omega arith))

-- What the parameter buffer stores, the types read back.
read_all-Stored :
    (buff : Bytes) (from : ℕ) (os : List ℕ) (types : List NpuArgType) (vs : List Datum)
    → Stored buff from os vs
    → Reads types vs
    → read_all (λ a n. slice a n buff) os types ≡ narrow_all types vs
unfolding read_all read_arg slice narrow narrow_all
read_all-Stored buff from [] [] [] s r = refl
read_all-Stored buff from [] [] (v ∷ vs) s r = absurd s
read_all-Stored buff from [] (t ∷ ts) [] s r = absurd r
read_all-Stored buff from [] (t ∷ ts) (v ∷ vs) s r = absurd s
read_all-Stored buff from (o ∷ os) [] [] s r = absurd s
read_all-Stored buff from (o ∷ os) [] (v ∷ vs) s r = absurd r
read_all-Stored buff from (o ∷ os) (t ∷ ts) [] s r = absurd s
read_all-Stored buff from (o ∷ os) (t ∷ ts) (v ∷ vs) s r =
    let bytes =
      sym (take-take_le (get_size t) (length v.bytes) (drop o buff) (Fits-le t v r.0))
      ∙ ap (take (get_size t)) s.2 in
    let rest = read_all-Stored buff (o + length v.bytes) os ts vs s.3 r.1 in
    rw (rest, read_arg, bytes) refl

-- A signature that parses into as many types as there are arguments is the layout.
checked_layout-agreed :
    (opts : LaunchOptions) (types : List NpuArgType)
    → is_empty opts.signature ≡ false
    → parse_signature opts.signature ≡ ok types
    → length types ≡ opts.num_args
    → checked_layout opts ≡ ok types
unfolding checked_layout arg_layout
checked_layout-agreed opts types some_sig parsed same =
    let agree : (opts.num_args == length types) ≡ true =
      (==_iff opts.num_args (length types)).1 (sym same) in
    rw (checked_layout, arg_layout, some_sig, parsed, agree)
      (elim (Bool-cases (opts.num_args == 0)) [ inl h ↦ rw (h) refl | inr h ↦ rw (h) refl ])

submit-calls :
    (rt : Runtime) (kernel blocks : ℕ) (b : NpuArgBuffer)
    → (submit rt kernel blocks 0 b).calls ≡ launch kernel blocks (take b.cursor b.buffer) ∷ []
unfolding submit
submit-calls rt kernel blocks b =
    elim (Bool-cases (rt.kernel_launch kernel blocks (take b.cursor b.buffer))) [
      | inl h ↦ rw (submit, h) refl
      | inr h ↦ rw (submit, h) refl
    ]

build_args-push_all :
    (rt : Runtime) (h : ParameterBuffer) (types : List NpuArgType) (vs : List Datum)
    (ffts workspace gx gy gz : ℕ)
    → rt.memory ≡ (λ a n. slice a n h.buff)
    → Stored h.buff 0 (get_ptrs h) vs
    → Reads types vs
    → let b = build_args rt ffts workspace types (some (map some (get_ptrs h))) gx gy gz in
      take b.cursor b.buffer
      ≡ (push_all
          (system_data ffts 0 workspace ++ (narrow_all types vs ++ grid_data gx gy gz))
          empty).buff
unfolding build_args
build_args-push_all rt h types vs ffts workspace gx gy gz memory stored reads =
    arg_buffer-push_all rt.memory (length types * 8 + 16) ffts 0 workspace gx gy gz (get_ptrs h)
      types
    ∙ ap
        (λ values.
          (push_all (system_data ffts 0 workspace ++ (values ++ grid_data gx gy gz)) empty).buff)
        (ap (λ m. read_all m (get_ptrs h) types) memory
          ∙ read_all-Stored h.buff 0 (get_ptrs h) types vs stored reads)

module _ (fmt : Format) (prints : PrintsIntegers fmt) (ssig : List ArgType) (rt : Runtime) where
  -- From the arguments of a call to the device, on the NPU: if every argument is one that the launch can
  -- take, the handler's buffer is the memory that its pointers lead into, the signature is the
  -- handler's and not empty, the argument count is the handler's, no workspace is asked for, and the
  -- control address and the number of blocks are known, then the one call that the launch makes
  -- starts the kernel on the system arguments, the values of the arguments' entries, each cut to the
  -- width of the type that the signature parses into for it, and the grid, all aligned; and each type is
  -- as wide as its value, or it is `i32` and its value an `int64_t` that fits in 32 bits.
  pub launch_kernel-process_args :
      (args : List Arg) (h : ArgHandle) (opts : LaunchOptions) (kernel blocks ffts gx gy gz : ℕ)
      → AllReady fmt ssig args 0
      → process_args npu fmt ssig args ≡ ok h
      → rt.memory ≡ (λ a n. slice a n h.buf.buff)
      → opts.signature ≡ full_signature h
      → is_empty (full_signature h) ≡ false
      → opts.num_args ≡ length (get_ptrs h.buf)
      → opts.workspace_size ≡ 0
      → rt.c2c_ctrl_addr ≡ some ffts
      → launch_blocks rt.ai_core_count opts (block_num gx gy gz) ≡ ok blocks
      → (es : List Entry) × (types : List NpuArgType) × (entries npu fmt ssig args 0 ≡ ok es)
        × (parse_signature opts.signature ≡ ok types)
        × Reads types (values es)
        × ((launch_kernel rt kernel gx gy gz (some (map some (get_ptrs h.buf))) opts).calls
            ≡ launch kernel blocks
                (push_all
                  (system_data ffts 0 0 ++ (narrow_all types (values es) ++ grid_data gx gy gz))
                  empty).buff
              ∷ [])
  unfolding launch_kernel
  launch_kernel-process_args args h opts kernel blocks ffts gx gy gz ready e memory sig some_sig
        counted plain found enough =
      let (es, types, found_es, parsed, same, stored, reads) =
        parse_signature-process_args fmt prints ssig args h ready e in
      (
        es,
        types,
        found_es,
        rw (sig) parsed,
        reads,
        rw
            (
              launch_kernel,
              enough,
              found,
              checked_layout-agreed opts types (rw (sig) some_sig) (rw (sig) parsed)
                  (same ∙ sym counted),
              plain,
            )
            (submit-calls rt kernel blocks _
              ∙ ap (λ bytes. launch kernel blocks bytes ∷ [])
                  (build_args-push_all rt h.buf types (values es) ffts 0 gx gy gz memory stored
                    reads)),
      )
