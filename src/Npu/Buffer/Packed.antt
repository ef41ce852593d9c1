-- ===== src/Npu/Buffer/Packed.antt =====
-- The buffer of an NPU launch is the parameter buffer of the same values, with spare room behind it.
use libtriton_jit.Common.{
  ℕ, ◌+◌, ◌<◌, ◌≡◌, refl, sym, ap, ◌∙◌, List, [], ◌∷◌, ◌++◌, Bytes, length, take, replicate, arith,
  some, map, take-append_at,
}
use libtriton_jit.Launch.Buffer.{
  Datum, ParameterBuffer, empty, push_all, resize, memcpy_at, little_endian, get_next_multiple_of,
}
use libtriton_jit.Launch.Buffer.{push_arg as push_param}
use libtriton_jit.Launch.Buffer.Slots.{replicate-add}
use libtriton_jit.Launch.Spec.{pointer_datum}
use libtriton_jit.Npu.Types.{NpuArgType, get_align}
use libtriton_jit.Npu.Buffer.{
  NpuArgBuffer, npu_arg_buffer, set_system_args, align_to, ensure_capacity, push_arg, read_arg,
  push_arg_by_type, push_args_from_layout, set_grid, grid_datum,
}
use libtriton_jit.Npu.Buffer.Spare.{Spare, memcpy_at-Spare, length-memcpy_at, ensure_capacity-Spare}

-- The NPU buffer `b` stands for the parameter buffer `p`.
pub record Packs (b : NpuArgBuffer) (p : ParameterBuffer) : Type 0 where
  pub spare : Spare b.buffer p
  pub cursors : b.cursor ≡ p.cursor

push_arg-Packs :
    (v : Datum) (b : NpuArgBuffer) (p : ParameterBuffer)
    → 0 < v.align
    → Packs b p
    → Packs (push_arg v b) (push_param v p)
unfolding push_arg align_to get_next_multiple_of push_param
push_arg-Packs v b p pos h =
    let at : align_to b.cursor v.align ≡ get_next_multiple_of p.cursor v.align =
      ap (λ c. get_next_multiple_of c v.align) h.cursors in
    let (grown, room) =
      ensure_capacity-Spare (align_to b.cursor v.align + length v.bytes) b.buffer p h.spare in
    record {
      spare = memcpy_at-Spare _ p v _ pos at grown room;
      cursors = ap (λ o. o + length v.bytes) at;
    }

module _ (memory : ℕ → ℕ → Bytes) where
  -- The values that the pointers lead to, by the types of a layout.
  unfoldable pub read_all : List ℕ → List NpuArgType → List Datum
  read_all (address ∷ addresses) (type ∷ layout) =
      read_arg memory address type ∷ read_all addresses layout
  read_all _ _ = []

  get_align-pos : (address : ℕ) (type : NpuArgType) → 0 < (read_arg memory address type).align
  unfolding read_arg get_align
  get_align-pos address type = ground arith

  push_args_from_layout-Packs :
      (addresses : List ℕ) (layout : List NpuArgType) (b : NpuArgBuffer) (p : ParameterBuffer)
      → Packs b p
      → Packs
          (push_args_from_layout memory (map some addresses) layout b)
          (push_all (read_all addresses layout) p)
  unfolding push_args_from_layout push_arg_by_type push_all read_all
  push_args_from_layout-Packs (a ∷ rest) (t ∷ ts) b p h =
      push_args_from_layout-Packs rest ts (push_arg (read_arg memory a t) b)
        (push_param (read_arg memory a t) p)
        (push_arg-Packs (read_arg memory a t) b p (get_align-pos a t) h)
  push_args_from_layout-Packs [] ts b p h = h
  push_args_from_layout-Packs (a ∷ rest) [] b p h = h

-- The three system arguments of a launch, and its grid.
abbrev pub system_data : ℕ → ℕ → ℕ → List Datum
system_data ffts sync_lock workspace =
    pointer_datum ffts ∷ pointer_datum sync_lock ∷ pointer_datum workspace ∷ []

abbrev pub grid_data : ℕ → ℕ → ℕ → List Datum
grid_data gx gy gz = grid_datum gx ∷ grid_datum gy ∷ grid_datum gz ∷ []

set_system_args-Packs :
    (estimated ffts sync_lock workspace : ℕ)
    → Packs
        (set_system_args ffts sync_lock workspace (npu_arg_buffer estimated))
        (push_all (system_data ffts sync_lock workspace) empty)
unfolding set_system_args npu_arg_buffer push_all push_param empty pointer_datum
    get_next_multiple_of resize memcpy_at little_endian
set_system_args-Packs estimated ffts sync_lock workspace =
    let size : 24 + estimated + 16 ≡ 24 + (estimated + 16) = omega arith in
    rw (size, replicate-add {A = ℕ} 24 (estimated + 16) 0)
      (record {
        spare = record { room = estimated + 16; filled = refl; full = refl };
        cursors = refl;
      })

set_grid-Packs :
    (gx gy gz : ℕ) (b : NpuArgBuffer) (p : ParameterBuffer)
    → Packs b p
    → Packs (set_grid gx gy gz b) (push_all (grid_data gx gy gz) p)
unfolding set_grid align_to get_next_multiple_of push_param push_all little_endian
set_grid-Packs gx gy gz b p h =
    let at : align_to b.cursor 4 ≡ get_next_multiple_of p.cursor 4 =
      ap (λ c. get_next_multiple_of c 4) h.cursors in
    let o = align_to b.cursor 4 in
    let big = ensure_capacity (o + 12) b.buffer in
    let (grown, room) = ensure_capacity-Spare (o + 12) b.buffer p h.spare in
    let px = push_param (grid_datum gx) p in
    let py = push_param (grid_datum gy) px in
    let x = memcpy_at-Spare big p (grid_datum gx) o (omega arith) at grown (omega arith) in
    let x_size = length-memcpy_at o (little_endian 4 gx) big (omega arith) in
    let bx = memcpy_at o (little_endian 4 gx) big in
    let y =
      memcpy_at-Spare bx px (grid_datum gy) (o + 4) (omega arith) (omega (arith, at)) x
        (omega arith) in
    let y_size = length-memcpy_at (o + 4) (little_endian 4 gy) bx (omega arith) in
    let by = memcpy_at (o + 4) (little_endian 4 gy) bx in
    let z =
      memcpy_at-Spare by py (grid_datum gz) (o + 4 + 4) (omega arith) (omega (arith, at)) y
        (omega arith) in
    record { spare = z; cursors = omega (arith, at) }

push_all-append :
    (us vs : List Datum) (p : ParameterBuffer) → push_all (us ++ vs) p ≡ push_all vs (push_all us p)
unfolding push_all
push_all-append [] vs p = refl
push_all-append (u ∷ us) vs p = push_all-append us vs (push_param u p)

-- What the kernel gets: the buffer up to the cursor.
Packs-take : (b : NpuArgBuffer) (p : ParameterBuffer) → Packs b p → take b.cursor b.buffer ≡ p.buff
Packs-take b p h =
    ap (take b.cursor) h.spare.filled
    ∙ take-append_at b.cursor p.buff (replicate h.spare.room 0) (h.spare.full ∙ sym h.cursors)

-- The buffer that a launch builds, from its estimate on, holds up to its cursor just what the
-- parameter buffer of the system arguments, the values behind the pointers and the grid holds: every
-- one of them is aligned, at the place where the kernel looks for it, whatever the estimate was.
pub arg_buffer-push_all :
    (memory : ℕ → ℕ → Bytes) (estimated ffts sync_lock workspace gx gy gz : ℕ) (addresses : List ℕ)
    (layout : List NpuArgType)
    → let b = set_grid gx gy gz (
        push_args_from_layout memory
          (map some addresses)
          layout
          (set_system_args ffts sync_lock workspace (npu_arg_buffer estimated))) in
      take b.cursor b.buffer
      ≡ (push_all
          (system_data ffts sync_lock workspace
            ++ (read_all memory addresses layout ++ grid_data gx gy gz))
          empty).buff
arg_buffer-push_all memory estimated ffts sync_lock workspace gx gy gz addresses layout =
    let start = set_system_args-Packs estimated ffts sync_lock workspace in
    let system = push_all (system_data ffts sync_lock workspace) empty in
    let args = push_args_from_layout-Packs memory addresses layout _ system start in
    let values = read_all memory addresses layout in
    Packs-take _ _ (set_grid-Packs gx gy gz _ _ args)
    ∙ ap (λ (p : ParameterBuffer). p.buff)
        (sym (push_all-append values (grid_data gx gy gz) system)
          ∙ sym (
              push_all-append (system_data ffts sync_lock workspace) (values ++ grid_data gx gy gz)
                empty))
