-- ===== src/Tests/Hooking.antt =====
-- Two threads that set hooks at the same time.
use libtriton_jit.Common.{ℕ, ◌+◌, [], ◌∷◌, Option, none, some, ◌≡◌, refl}
use libtriton_jit.Hooks.{
  Update, set_enter, set_exit, update, state_of, Shared, desired_of, System, init, move, idle,
  updated, loaded, built, load, build, swap, fail,
}
use libtriton_jit.Hooks.Atomic.{Reach, start, later, replay, HasHook, launch_hooks-replay}
use libtriton_jit.Hooks.Progress.{Finish, update_launch_hooks_finishes}

abbrev first : Update
first = set_enter (some 7)

abbrev second : Update
second = set_exit (some 8)

abbrev loading : ℕ → Update → System → System
loading i u s = record s { pc = move s.pc i (loaded u s.launch_hooks) }

abbrev building : ℕ → Update → Option Shared → System → System
building i u current s = record s {
  next_address = s.next_address + 1;
  pc = move s.pc i (built u current (desired_of s.next_address u current));
}

abbrev swapping : ℕ → Option Shared → System → System
swapping i desired s = record s { launch_hooks = desired; pc = move s.pc i idle }

-- Both threads have loaded null and built.
abbrev both_built : System
both_built =
    building 1 second none (building 0 first none (loading 1 second (loading 0 first init)))

-- Thread 0 swaps; thread 1 fails and loads what thread 0 stored.
abbrev one_stored : System
one_stored = loading 1 second (swapping 0 (desired_of 0 first none) both_built)

-- Thread 1 adds its hook to it.
abbrev both_stored : System
both_stored =
    let current = desired_of 0 first none in
    swapping 1 (desired_of 2 second current) (building 1 second current one_stored)

both_reached : Reach (updated second ∷ updated first ∷ []) both_stored
unfolding desired_of update
both_reached =
    let current = desired_of 0 first none in
    later
      (later
        (later
          (later
            (later
              (later (later (later start (load 0 first refl)) (load 1 second refl))
                (build 0 first none refl))
              (build 1 second none refl))
            (swap 0 first none current refl refl))
          (fail 1 second none (desired_of 1 second none) refl))
        (build 1 second current refl))
      (swap 1 second current (desired_of 2 second current) refl refl)

both_hooks : state_of both_stored.launch_hooks ≡ record { enter = some 7; exit = some 8 }
unfolding desired_of update
both_hooks = refl

launch_hooks-replay_example :
    (state_of both_stored.launch_hooks ≡ replay (updated second ∷ updated first ∷ []))
    × HasHook both_stored.launch_hooks
launch_hooks-replay_example = launch_hooks-replay both_reached

update_launch_hooks_finishes_example : Finish 1 second 4 one_stored
update_launch_hooks_finishes_example = update_launch_hooks_finishes 1 second one_stored refl
