-- ===== src/Freeze.antt =====
-- Refusing cold work: src/freeze.cpp, include/triton_jit/freeze.h. What the driver says of a stream
-- is a parameter, `none` when its call fails.
pub mod Nesting
use libtriton_jit.Common.{
  ℕ, zero, suc, ◌+◌, Bool, true, false, List, [], ◌∷◌, Option, none, some, Result, ok, throw, ◌>>=◌,
  ◌>>◌, throw_if, ◌==◌, if◌then◌else◌,
}
use libtriton_jit.Common.Int.{ℤ, pos, negsuc}
use libtriton_jit.Launch.Spec.{Backend, cuda, ix, hcu}

pub data ColdWork : Type 0 where
  config function program : ColdWork

pub data ColdRestriction : Type 0 where
  explicit_freeze capture : ColdRestriction

pub record FrozenMissError : Type 0 where
  pub work : ColdWork
  pub restriction : ColdRestriction

-- `fetch_add(1)` and `fetch_sub(1)` on `freeze_depth`, an `atomic<int>`, which wraps.
abbrev pub int_max : ℕ
int_max = 2147483647

unfoldable pub enter_freeze : ℤ → ℤ
enter_freeze (pos n) = if n == int_max then negsuc int_max else pos (suc n)
enter_freeze (negsuc zero) = pos 0
enter_freeze (negsuc (suc n)) = negsuc n

unfoldable pub leave_freeze : ℤ → ℤ
leave_freeze (pos zero) = negsuc 0
leave_freeze (pos (suc n)) = pos n
leave_freeze (negsuc n) = if n == int_max then pos int_max else negsuc (suc n)

unfoldable pub is_frozen : ℤ → Bool
is_frozen (pos (suc n)) = true
is_frozen _ = false

-- `true` while the stream is captured; only these backends can tell.
unfoldable pub stream_is_capturing : Backend → Option Bool → Bool
stream_is_capturing cuda (some capturing) = capturing
stream_is_capturing ix (some capturing) = capturing
stream_is_capturing hcu (some capturing) = capturing
stream_is_capturing _ _ = false

unfoldable pub refuse_if_frozen : ℤ → Bool → ColdWork → Result FrozenMissError (Unit {0})
refuse_if_frozen depth capturing work = do
  throw_if (is_frozen depth) (record { work = work; restriction = explicit_freeze })
  throw_if capturing (record { work = work; restriction = capture })
  ok tt
