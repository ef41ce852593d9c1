-- ===== src/Launch/Args/Whole.antt =====
-- A whole argument list: one token for each argument, and a buffer from which every value that goes
-- to the kernel can be read back.
use libtriton_jit.Common.{
  ℕ, suc, ◌+◌, ◌<◌, Bool, true, false, List, [], ◌∷◌, ◌++◌, Bytes, codes, text_eq, map, length,
  Result, ok, throw, ◌>>=◌, ◌≡◌, refl, sym, ap, ◌∙◌, arith, inl, inr, append_assoc, append-nil,
  Result-cases, All, All-append, if◌then◌else◌, ok_inj,
}
use libtriton_jit.Launch.Args.{
  constexpr, Plain, number, nullopt, null_pointer, text, plain, engaged, disengaged, scalar,
  jit_function, tuple, ArgType, ArgError, Arg, Format, ArgHandle, at, handle_args, process_args,
  push,
}
use libtriton_jit.Launch.Args.Entry.{
  Entry, number_entry, hint, plain_entry, null_entry, tensor_entry, device_ptr_entry, scalar_number,
  tuple_entry, extend, entry_of, handle_arg-entry,
}
use libtriton_jit.Launch.Buffer.{ParameterBuffer, Datum, push_arg, push_all, empty}
use libtriton_jit.Launch.Buffer.Slots.{Holds, push_all-Holds}
use libtriton_jit.Launch.Spec.{Backend, is_npu, pointer_datum, Number, datum_of, boolean}

unfoldable pub extend_all : List Entry → ArgHandle → ArgHandle
extend_all [] h = h
extend_all (e ∷ es) h = extend_all es (extend e h)

-- The tokens of the entries, and their values one after the other.
abbrev pub tokens : List Entry → List Bytes
tokens [] = []
tokens (e ∷ es) = e.0 ∷ tokens es

abbrev pub values : List Entry → List Datum
values [] = []
values (e ∷ es) = e.1 ++ values es

module _ (b : Backend) (fmt : Format) (ssig : List ArgType) where
  -- The entries of the arguments, the first of them for parameter `i`.
  unfoldable pub entries : List Arg → ℕ → Result ArgError (List Entry)
  entries [] i = ok []
  entries (arg ∷ args) i = do
    e ← entry_of b fmt (at b fmt ssig i) arg
    es ← entries args (i + 1)
    ok (e ∷ es)

  handle_args-entries :
      (args : List Arg) (h : ArgHandle)
      → handle_args b fmt ssig args h ≡ (entries args h.idx >>= λ es. ok (extend_all es h))
  unfolding handle_args entries extend_all
  handle_args-entries [] h = refl
  handle_args-entries (arg ∷ args) h =
      rw (handle_arg-entry b fmt ssig arg h)
        (elim (Result-cases (entry_of b fmt (at b fmt ssig h.idx) arg)) [
          | inr (x, e) ↦ rw e
          | inl (a, e) ↦ rw e (
              handle_args-entries args (extend a h)
              ∙ elim (Result-cases (entries args (h.idx + 1))) [
                | inl (es, f) ↦ unfold extend in rw f
                | inr (y, f) ↦ unfold extend in rw f
              ])
        ])

push_all-append :
    (vs ws : List Datum) (p : ParameterBuffer) → push_all (vs ++ ws) p ≡ push_all ws (push_all vs p)
unfolding push_all
push_all-append [] ws p = refl
push_all-append (v ∷ vs) ws p = push_all-append vs ws (push_arg v p)

extend_all_lem :
    (es : List Entry) (h : ArgHandle)
    → ((extend_all es h).buf ≡ push_all (values es) h.buf)
      × ((extend_all es h).signature ≡ h.signature ++ tokens es)
unfolding extend_all push_all extend
extend_all_lem [] h = (refl, sym (append-nil h.signature))
extend_all_lem (e ∷ es) h =
    let (bufs, sigs) = extend_all_lem es (extend e h) in
    (
      bufs ∙ sym (push_all-append e.1 (values es) h.buf),
      sigs ∙ append_assoc h.signature (e.0 ∷ []) (tokens es),
    )

abbrev IsAligned : List Datum → Type 0
IsAligned = All (λ v. 0 < v.align)

number-IsAligned : (ns : List Number) → IsAligned (map datum_of ns)
unfolding datum_of
number-IsAligned [] = tt
number-IsAligned (boolean true ∷ ns) = (omega arith, number-IsAligned ns)
number-IsAligned (boolean false ∷ ns) = (omega arith, number-IsAligned ns)
number-IsAligned (n ∷ ns) = (omega arith, number-IsAligned ns)

if-IsAligned :
    (t : Bool) (vs ws : List Datum) → IsAligned vs → IsAligned ws → IsAligned (if t then vs else ws)
if-IsAligned true vs ws hv hw = hv
if-IsAligned false vs ws hv hw = hw

-- The values of an entry, if there is one, have an alignment.
abbrev AlignedResult : Result ArgError Entry → Type 0
AlignedResult (ok e) = IsAligned e.1
AlignedResult (throw x) = Unit

module _ (b : Backend) (fmt : Format) where
  number_entry-IsAligned : (n : Number) (kind : ArgType) → IsAligned (number_entry b fmt n kind).1
  unfolding number_entry
  number_entry-IsAligned n constexpr = tt
  number_entry-IsAligned n kind =
      if-IsAligned (text_eq (hint b n kind) (codes ":1")) [] (datum_of n ∷ []) tt
        (number-IsAligned (n ∷ []))

  plain_entry-IsAligned :
      (kind? : Result ArgError ArgType) (p : Plain) → AlignedResult (plain_entry b fmt kind? p)
  unfolding plain_entry tensor_entry device_ptr_entry null_entry pointer_datum
  plain_entry-IsAligned (ok kind) (number n) = number_entry-IsAligned n kind
  plain_entry-IsAligned (throw x) (number n) = tt
  plain_entry-IsAligned (ok constexpr) null_pointer = tt
  plain_entry-IsAligned (ok kind) null_pointer = omega arith
  plain_entry-IsAligned (throw x) null_pointer = tt
  plain_entry-IsAligned kind? nullopt = tt
  plain_entry-IsAligned kind? (text t) = tt
  plain_entry-IsAligned kind? p = ground arith

  entry_of-IsAligned :
      (kind? : Result ArgError ArgType) (arg : Arg) → AlignedResult (entry_of b fmt kind? arg)
  unfolding entry_of
  entry_of-IsAligned kind? (plain p) = plain_entry-IsAligned kind? p
  entry_of-IsAligned kind? (engaged a) = entry_of-IsAligned kind? a
  entry_of-IsAligned kind? disengaged = tt
  entry_of-IsAligned kind? (scalar s) = elim (Result-cases (scalar_number b fmt s)) [
    | inl (n, e) ↦ rw e (plain_entry-IsAligned kind? (number n))
    | inr (x, e) ↦ rw e tt
  ]
  entry_of-IsAligned kind? (jit_function f) = ground arith
  entry_of-IsAligned kind? (tuple n ns) =
      unfold tuple_entry in ground (arith, number-IsAligned (n ∷ ns))

-- The two null pointers behind the arguments, except on the NPU.
abbrev pub scratch : Backend → List Datum
scratch b = if is_npu b then [] else pointer_datum 0 ∷ pointer_datum 0 ∷ []

-- What the handler leaves behind: one token for each argument, and the values of the arguments and
-- the scratch pointers in the buffer.
pub record Processed (b : Backend) (args : List Arg) (es : List Entry) (h : ArgHandle)
    : Type 0 where
  pub signature : h.signature ≡ tokens es
  pub one_each : length h.signature ≡ length args
  pub holds : Holds h.buf (values es ++ scratch b)

abbrev Listed : ℕ → Result ArgError (List Entry) → Type 0
Listed n (ok es) = (length (tokens es) ≡ n) × IsAligned (values es)
Listed n (throw x) = Unit

module _ (b : Backend) (fmt : Format) (ssig : List ArgType) where
  entries-Listed : (args : List Arg) (i : ℕ) → Listed (length args) (entries b fmt ssig args i)
  unfolding entries
  entries-Listed [] i = (refl, tt)
  entries-Listed (arg ∷ args) i = elim (Result-cases (entry_of b fmt (at b fmt ssig i) arg)) [
    | inr (x, e) ↦ rw e tt
    | inl (a, e) ↦
        let values-IsAligned = rw e at (entry_of-IsAligned b fmt (at b fmt ssig i) arg) in
        let ih = entries-Listed args (i + 1) in
        rw e (elim (Result-cases (entries b fmt ssig args (i + 1))) [
          | inr (y, f) ↦ rw f tt
          | inl (es, f) ↦
              let rest = rw f at ih in
              rw f (
                ap suc rest.0,
                All-append (λ v. 0 < v.align) a.1 (values es) values-IsAligned rest.1,
              )
        ])
  ]

  scratch-IsAligned : IsAligned (scratch b)
  unfolding pointer_datum
  scratch-IsAligned = if-IsAligned (is_npu b) [] _ tt (omega arith)

  start : ArgHandle
  start = record { buf = empty; signature = []; idx = 0 }

  finished : ArgHandle → ArgHandle
  finished h = if is_npu b then h else push (pointer_datum 0) (push (pointer_datum 0) h)

  finished_lem :
      (h : ArgHandle)
      → ((finished h).buf ≡ push_all (scratch b) h.buf) × ((finished h).signature ≡ h.signature)
  unfolding finished push_all
  finished_lem h = ground arith

  entries-Processed :
      (args : List Arg) (es : List Entry)
      → entries b fmt ssig args 0 ≡ ok es
      → Processed b args es (finished (extend_all es start))
  unfolding start
  entries-Processed args es e =
      let listed = rw e at (entries-Listed args 0) in
      let (bufs, sigs) = extend_all_lem es start in
      let (buf', sig') = finished_lem (extend_all es start) in
      let whole : (finished (extend_all es start)).buf ≡ push_all (values es ++ scratch b) empty =
        buf'
        ∙ ap (push_all (scratch b)) bufs
        ∙ sym (push_all-append (values es) (scratch b) empty) in
      record {
        signature = sig' ∙ sigs;
        one_each = ap length (sig' ∙ sigs) ∙ listed.0;
        holds = rw whole (
            push_all-Holds (values es ++ scratch b)
              (All-append (λ v. 0 < v.align) (values es) (scratch b) listed.1 scratch-IsAligned));
      }

  -- When processing succeeds, the arguments' entries are found one by one; the signature is their
  -- tokens in order, one for each argument; and the buffer holds the entries' values in order and,
  -- except on the NPU, two null pointers behind them, each of them aligned and readable at its
  -- pointer.
  pub process_args-Processed :
      (args : List Arg) (h : ArgHandle)
      → process_args b fmt ssig args ≡ ok h
      → (es : List Entry) × (entries b fmt ssig args 0 ≡ ok es) × Processed b args es h
  unfolding process_args start finished
  process_args-Processed args h e = elim (Result-cases (entries b fmt ssig args 0)) [
    | inr (x, f) ↦
        let stop : handle_args b fmt ssig args start ≡ throw x =
          handle_args-entries b fmt ssig args start ∙ rw f in
        cc (rw stop at e)
    | inl (es, f) ↦
        let run : handle_args b fmt ssig args start ≡ ok (extend_all es start) =
          handle_args-entries b fmt ssig args start ∙ rw f in
        let done : finished (extend_all es start) ≡ h = ok_inj (rw run at e) in
        (es, f, rw done at (entries-Processed args es f))
  ]
