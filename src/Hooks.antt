-- ===== src/Hooks.antt =====
-- The launch hooks: src/launch_hooks.cpp. A hook is a name, `none` an empty function. A snapshot is a
-- shared pointer, null as `none`: an object with an address that no other object ever had, since its
-- holders keep it alive. Threads take their steps in any order; a compare-and-swap may fail without
-- reason.
pub mod Atomic
pub mod Progress
use libtriton_jit.Common.{
  ℕ, ◌+◌, ◌==◌, Bool, true, false, ◌||◌, Option, none, some, ◌≡◌, if◌then◌else◌,
}

pub record LaunchHooksState : Type 0 where
  pub enter : Option ℕ
  pub exit : Option ℕ

pub record Shared : Type 0 where
  pub address : ℕ
  pub state : LaunchHooksState

-- What `set_launch_enter_hook` and `set_launch_exit_hook` update.
pub data Update : Type 0 where
  set_enter set_exit : Option ℕ → Update

unfoldable pub update : Update → LaunchHooksState → LaunchHooksState
update (set_enter hook) hooks = record hooks { enter = hook }
update (set_exit hook) hooks = record hooks { exit = hook }

abbrev pub no_hooks : LaunchHooksState
no_hooks = record { enter = none; exit = none }

-- `*current`, or a new state.
abbrev pub state_of : Option Shared → LaunchHooksState
state_of none = no_hooks
state_of (some shared) = shared.state

abbrev pub is_set : Option ℕ → Bool
is_set none = false
is_set (some hook) = true

-- `desired`, whose object is allocated at the address.
unfoldable pub desired_of : ℕ → Update → Option Shared → Option Shared
desired_of address u current =
    let next = update u (state_of current) in
    if is_set next.enter || is_set next.exit
    then some (record { address = address; state = next })
    else none

abbrev pub same_pointer : Option Shared → Option Shared → Bool
same_pointer none none = true
same_pointer (some a) (some b) = a.address == b.address
same_pointer _ _ = false

-- Where a thread is in `update_launch_hooks`.
pub data Pc : Type 0 where
  idle : Pc
  loaded : Update → Option Shared → Pc
  built : Update → Option Shared → Option Shared → Pc

pub record System : Type 0 where
  pub launch_hooks : Option Shared
  pub next_address : ℕ
  pub pc : ℕ → Pc

abbrev pub init : System
init = record { launch_hooks = none; next_address = 0; pc = λ i. idle }

abbrev pub move : (ℕ → Pc) → ℕ → Pc → ℕ → Pc
move pcs i p j = if i == j then p else pcs j

-- What a step did to the hooks, as seen from outside.
pub data Commit : Type 0 where
  updated : Update → Commit
  cleared : Commit

pub data Step (s : System) : System → Option Commit → Type 0 where
  -- The load at the start of an update.
  load :
      (i : ℕ) (u : Update)
      → s.pc i ≡ idle
      → Step s (record s { pc = move s.pc i (loaded u s.launch_hooks) }) none
  -- The body of the loop up to the compare-and-swap.
  build :
      (i : ℕ) (u : Update) (current : Option Shared)
      → s.pc i ≡ loaded u current
      → Step s
          (record s {
            next_address = s.next_address + 1;
            pc = move s.pc i (built u current (desired_of s.next_address u current));
          })
          none
  swap :
      (i : ℕ) (u : Update) (current desired : Option Shared)
      → s.pc i ≡ built u current desired
      → same_pointer s.launch_hooks current ≡ true
      → Step s (record s { launch_hooks = desired; pc = move s.pc i idle }) (some (updated u))
  -- A failure, with or without reason, loads the pointer again.
  fail :
      (i : ℕ) (u : Update) (current desired : Option Shared)
      → s.pc i ≡ built u current desired
      → Step s (record s { pc = move s.pc i (loaded u s.launch_hooks) }) none
  -- `clear_launch_hooks`
  clear : (i : ℕ) → s.pc i ≡ idle → Step s (record s { launch_hooks = none }) (some cleared)
