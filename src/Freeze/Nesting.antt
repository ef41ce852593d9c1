-- ===== src/Freeze/Nesting.antt =====
-- Nested guards, `ScopedFreeze` of src/freeze.cpp.
use libtriton_jit.Common.{
  ℕ, zero, suc, ◌^◌, ◌<◌, ◌==◌, Bool, false, max, ltb, lt→ltb, Result, ok, throw, ◌≡◌, refl, sym,
  arith, if◌then◌else◌,
}
use libtriton_jit.Common.Int.{ℤ, pos}
use libtriton_jit.Freeze.{
  ColdWork, FrozenMissError, explicit_freeze, capture, enter_freeze, leave_freeze, is_frozen,
  refuse_if_frozen, int_max,
}

-- Sequences of constructed and destroyed `ScopedFreeze` guards that start without a guard, and how
-- many are alive at the end. A guard is destroyed only after it was constructed.
pub data Guards : ℕ → Type 0 where
  none_yet : Guards 0
  construct : {n : ℕ} → Guards n → Guards (suc n)
  destroy : {n : ℕ} → Guards (suc n) → Guards n

-- The counter after the sequence.
unfoldable pub depth_after : {n : ℕ} → Guards n → ℤ
depth_after none_yet = pos 0
depth_after (construct g) = enter_freeze (depth_after g)
depth_after (destroy g) = leave_freeze (depth_after g)

-- The most guards that were ever alive at once.
unfoldable pub most_alive : {n : ℕ} → Guards n → ℕ
most_alive none_yet = 0
most_alive (construct {n} g) = max (suc n) (most_alive g)
most_alive (destroy g) = most_alive g

below_max : (n : ℕ) → suc n < 2 ^ 31 → (n == int_max) ≡ false
below_max n h = ground (arith, h)

depth_after-pos : {n : ℕ} (g : Guards n) → most_alive g < 2 ^ 31 → depth_after g ≡ pos n
unfolding depth_after enter_freeze leave_freeze most_alive
depth_after-pos none_yet h = refl
depth_after-pos (construct {n} g) h =
    rw (depth_after-pos g (omega (arith, h)), enter_freeze, below_max n (omega (arith, h))) refl
depth_after-pos (destroy g) h = rw (depth_after-pos g h) refl

-- What `refuse_if_frozen` should give while `n` guards are alive.
abbrev pub refusal : ℕ → Bool → ColdWork → Result FrozenMissError (Unit {0})
refusal n capturing work =
    if ltb 0 n
    then throw (record { work = work; restriction = explicit_freeze })
    else if capturing
    then throw (record { work = work; restriction = capture })
    else ok tt

-- After any sequence of guards in which never 2 ^ 31 of them are alive at once, however they are nested
-- or interleaved, the counter is the number of the guards that are alive, the process is frozen just when
-- there is one, and cold work of every kind is then refused because of the freeze, and else just when the
-- stream is captured, because of the capture.
pub is_frozen-depth_after :
    {n : ℕ} (g : Guards n) (capturing : Bool) (work : ColdWork)
    → most_alive g < 2 ^ 31
    → (depth_after g ≡ pos n)
      × (is_frozen (depth_after g) ≡ ltb 0 n)
      × (refuse_if_frozen (depth_after g) capturing work ≡ refusal n capturing work)
unfolding is_frozen refuse_if_frozen
is_frozen-depth_after g capturing work h = (
  depth_after-pos g h,
  rw (depth_after-pos g h) (alive _),
  rw (depth_after-pos g h, refuse_if_frozen, alive) (ground arith),
)
  where
    alive : (n : ℕ) → is_frozen (pos n) ≡ ltb 0 n
    alive zero = refl
    alive (suc n) = sym (lt→ltb 0 (suc n) (omega arith))
