-- ===== src/Npu/Buffer/Spare.antt =====
-- Room behind a parameter buffer: what a copy and a resize of `NpuArgBuffer` make of it.
use libtriton_jit.Common.{
  ℕ, ◌+◌, ◌-◌, ◌≤◌, ◌<◌, ◌≡◌, refl, sym, ap, ◌∙◌, ◌++◌, Bytes, length, take, drop, replicate,
  length-append, length-take, length-drop, length-replicate, append_assoc, arith, ltb, ltb→lt,
  ltb→ge, Bool-cases, inl, inr, take-append_at, take-all, drop-append,
}
use libtriton_jit.Launch.Buffer.{Datum, ParameterBuffer, resize, memcpy_at, get_next_multiple_of}
use libtriton_jit.Launch.Buffer.{push_arg as push_param}
use libtriton_jit.Launch.Buffer.Slots.{next_multiple, grow_append, replicate-add}
use libtriton_jit.Npu.Buffer.{ensure_capacity}

memcpy_middle :
    (front middle back bytes : Bytes) (o : ℕ)
    → length front ≡ o
    → length middle ≡ length bytes
    → memcpy_at o bytes (front ++ (middle ++ back)) ≡ front ++ (bytes ++ back)
unfolding memcpy_at
memcpy_middle front middle back bytes o at same =
    let whole : o + length bytes ≡ length (front ++ middle) =
      omega (arith, length-append {0} front middle) in
    rw
      (
        take-append_at o front (middle ++ back) at,
        whole,
        ← append_assoc front middle back,
        drop-append (front ++ middle) back,
      )
      refl

-- What the parameter buffer holds, and zeros behind it.
pub record Spare (buffer : Bytes) (p : ParameterBuffer) : Type 0 where
  pub room : ℕ
  pub filled : buffer ≡ p.buff ++ replicate room 0
  pub full : length p.buff ≡ p.cursor

Spare-length :
    (buffer : Bytes) (p : ParameterBuffer) (s : Spare buffer p) → length buffer ≡ p.cursor + s.room
Spare-length buffer p s =
    ap length s.filled
    ∙ omega (
      arith,
      s.full,
      length-append {0} p.buff (replicate s.room 0),
      length-replicate {0} {A = ℕ} s.room 0,
    )

-- A copy to the next aligned place pushes the value.
pub memcpy_at-Spare :
    (buffer : Bytes) (p : ParameterBuffer) (v : Datum) (o : ℕ)
    → 0 < v.align
    → o ≡ get_next_multiple_of p.cursor v.align
    → Spare buffer p
    → o + length v.bytes ≤ length buffer
    → Spare (memcpy_at o v.bytes buffer) (push_param v p)
unfolding push_param
memcpy_at-Spare buffer p v o pos at s fits =
    let next = next_multiple p.cursor v.align pos in
    let n = length v.bytes in
    let pad = o - p.cursor in
    let total = Spare-length buffer p s in
    let q = s.room - pad - n in
    let front = p.buff ++ replicate pad 0 in
    let front_end : length front ≡ o = omega (
      arith,
      at,
      next.1,
      s.full,
      length-append {0} p.buff (replicate pad 0),
      length-replicate {0} {A = ℕ} pad 0,
    ) in
    let parts : s.room ≡ pad + (n + q) = omega (arith, at, next.1) in
    let split : buffer ≡ front ++ (replicate n 0 ++ replicate q 0) =
      s.filled
      ∙ ap (λ r. p.buff ++ replicate r 0) parts
      ∙ ap (λ zs. p.buff ++ zs)
          (replicate-add {A = ℕ} pad (n + q) 0
            ∙ ap (λ zs. replicate pad 0 ++ zs) (replicate-add {A = ℕ} n q 0))
      ∙ sym (append_assoc p.buff (replicate pad 0) (replicate n 0 ++ replicate q 0)) in
    let grown : memcpy_at o v.bytes (resize (o + n) p.buff)
        ≡ p.buff ++ (replicate pad 0 ++ v.bytes) =
      grow_append p.buff v.bytes pad o (omega (arith, at, next.1, s.full)) in
    rw (← at) (record {
      room = q;
      filled =
          ap (memcpy_at o v.bytes) split
          ∙ memcpy_middle front (replicate n 0) (replicate q 0) v.bytes o front_end
              (length-replicate {0} {A = ℕ} n 0)
          ∙ sym (append_assoc front v.bytes (replicate q 0))
          ∙ ap (λ zs. zs ++ replicate q 0)
              (append_assoc p.buff (replicate pad 0) v.bytes ∙ sym grown);
      full =
          ap length grown
          ∙ omega (
            arith,
            front_end,
            length-append {0} p.buff (replicate pad 0 ++ v.bytes),
            length-append {0} (replicate pad 0) v.bytes,
            length-append {0} p.buff (replicate pad 0),
          );
    })

pub length-memcpy_at :
    (o : ℕ) (bytes buffer : Bytes)
    → o + length bytes ≤ length buffer
    → length (memcpy_at o bytes buffer) ≡ length buffer
unfolding memcpy_at
length-memcpy_at o bytes buffer fits = omega (
  arith,
  length-append {0} (take o buffer) (bytes ++ drop (o + length bytes) buffer),
  length-append {0} bytes (drop (o + length bytes) buffer),
  length-take o buffer (omega arith),
  length-drop (o + length bytes) buffer,
)

-- More room behind the buffer.
pub ensure_capacity-Spare :
    (required : ℕ) (buffer : Bytes) (p : ParameterBuffer)
    → Spare buffer p
    → Spare (ensure_capacity required buffer) p
      × (required ≤ length (ensure_capacity required buffer))
unfolding ensure_capacity resize
ensure_capacity-Spare required buffer p s = elim (Bool-cases (ltb (length buffer) required)) [
  | inr f ↦ rw (f, ensure_capacity) (s, ltb→ge (length buffer) required f)
  | inl t ↦
      let more = required + 32 - length buffer in
      let short = ltb→lt (length buffer) required t in
      rw (t, ensure_capacity, take-all (required + 32) buffer (omega arith))
        (
          record {
            room = s.room + more;
            filled =
                ap (λ zs. zs ++ replicate more 0) s.filled
                ∙ append_assoc p.buff (replicate s.room 0) (replicate more 0)
                ∙ ap (λ zs. p.buff ++ zs) (sym (replicate-add {A = ℕ} s.room more 0));
            full = s.full;
          },
          omega (
            arith,
            length-append {0} buffer (replicate more 0),
            length-replicate {0} {A = ℕ} more 0,
          ),
        )
]
