-- ===== src/Hooks/Atomic.antt =====
-- Concurrent updates have the effect of atomic ones.
use libtriton_jit.Common.{
  ℕ, ◌+◌, ◌<◌, ◌==◌, ==_iff, Bool, true, false, ◌||◌, Bool-cases, List, [], ◌∷◌, Option, none, some,
  inl, inr, ◌≡◌, refl, sym, ap, ap₂, ◌∙◌, arith, if◌then◌else◌,
}
use libtriton_jit.Hooks.{
  LaunchHooksState, Shared, Update, update, no_hooks, state_of, is_set, desired_of, same_pointer,
  Pc, idle, loaded, built, System, init, move, Commit, updated, cleared, Step, load, build, swap,
  fail, clear,
}

-- The commits of a run, the newest first, applied one after the other.
abbrev pub apply : Commit → LaunchHooksState → LaunchHooksState
apply (updated u) hooks = update u hooks
apply cleared hooks = no_hooks

abbrev pub replay : List Commit → LaunchHooksState
replay [] = no_hooks
replay (c ∷ commits) = apply c (replay commits)

abbrev pub record_commit : Option Commit → List Commit → List Commit
record_commit none commits = commits
record_commit (some c) commits = c ∷ commits

-- The systems that some run leads to, with the commits of the run.
pub data Reach : List Commit → System → Type 0 where
  start : Reach [] init
  later :
      {commits : List Commit} {s t : System} {c : Option Commit}
      → Reach commits s
      → Step s t c
      → Reach (record_commit c commits) t

-- A snapshot that is kept has a hook.
abbrev pub HasHook : Option Shared → Type 0
HasHook none = Unit
HasHook (some shared) = (is_set shared.state.enter || is_set shared.state.exit) ≡ true

-- The state of every object is the one that `heap` has at its address, and later objects are elsewhere.
abbrev pub Valid : (ℕ → LaunchHooksState) → ℕ → Option Shared → Type 0
Valid heap next none = Unit
Valid heap next (some shared) = (shared.address < next) × (heap shared.address ≡ shared.state)

abbrev pub ValidAt : (ℕ → LaunchHooksState) → ℕ → Pc → Type 0
ValidAt heap next idle = Unit
ValidAt heap next (loaded u current) = Valid heap next current
ValidAt heap next (built u current desired) =
    Valid heap next current
    × Valid heap next desired
    × HasHook desired
    × (state_of desired ≡ update u (state_of current))

pub record Inv (commits : List Commit) (s : System) : Type 0 where
  pub heap : ℕ → LaunchHooksState
  pub stored : Valid heap s.next_address s.launch_hooks
  pub kept : HasHook s.launch_hooks
  pub agrees : state_of s.launch_hooks ≡ replay commits
  pub threads : (i : ℕ) → ValidAt heap s.next_address (s.pc i)

same_pointer-state :
    (heap : ℕ → LaunchHooksState) (next : ℕ) (p q : Option Shared)
    → Valid heap next p
    → Valid heap next q
    → same_pointer p q ≡ true
    → state_of p ≡ state_of q
same_pointer-state heap next none none v w h = refl
same_pointer-state heap next none (some b) v w h = absurd cc
same_pointer-state heap next (some a) none v w h = absurd cc
same_pointer-state heap next (some a) (some b) v w h =
    sym v.1 ∙ ap heap ((==_iff a.address b.address).0 h) ∙ w.1

unset_eq_none : (h : Option ℕ) → is_set h ≡ false → none ≡ h
unset_eq_none none e = refl
unset_eq_none (some x) e = absurd cc

both_false : (a b : Bool) → (a || b) ≡ false → (a ≡ false) × (b ≡ false)
both_false true b e = absurd cc
both_false false b e = (refl, e)

empty_state : (h : LaunchHooksState) → (is_set h.enter || is_set h.exit) ≡ false → no_hooks ≡ h
empty_state h e =
    let (enter_none, exit_none) = both_false (is_set h.enter) (is_set h.exit) e in
    ap₂ (λ enter exit. record { enter = enter; exit = exit }) (unset_eq_none h.enter enter_none)
      (unset_eq_none h.exit exit_none)

-- What the body of the loop makes.
pub record Built (u : Update) (current : Option Shared) (address : ℕ) : Type 0 where
  pub has_hook : HasHook (desired_of address u current)
  pub state_is : state_of (desired_of address u current) ≡ update u (state_of current)
  pub valid :
      (heap : ℕ → LaunchHooksState)
      → heap address ≡ update u (state_of current)
      → Valid heap (address + 1) (desired_of address u current)

desired_of-Built : (u : Update) (current : Option Shared) (address : ℕ) → Built u current address
unfolding desired_of
desired_of-Built u current address =
    let next = update u (state_of current) in
    elim (Bool-cases (is_set next.enter || is_set next.exit)) [
      | inl e ↦ record {
        has_hook = rw (desired_of, e) e;
        state_is = rw (desired_of, e) refl;
        valid = λ heap h. rw (desired_of, e) (omega arith, h);
      }
      | inr e ↦ record {
        has_hook = rw (desired_of, e) tt;
        state_is = rw (desired_of, e) (empty_state next e);
        valid = λ heap h. rw (desired_of, e) tt;
      }
    ]

-- One more object.
abbrev extend : (ℕ → LaunchHooksState) → ℕ → LaunchHooksState → ℕ → LaunchHooksState
extend heap next state a = if next == a then state else heap a

extend_self :
    (heap : ℕ → LaunchHooksState) (next : ℕ) (h : LaunchHooksState) → extend heap next h next ≡ h
extend_self heap next h = rw ((==_iff next next).1 refl) refl

extend_below :
    (heap : ℕ → LaunchHooksState) (next a : ℕ) (h : LaunchHooksState)
    → a < next
    → extend heap next h a ≡ heap a
extend_below heap next a h below = elim (Bool-cases (next == a)) [
  | inl e ↦ absurd (omega (arith, below, (==_iff next a).0 e))
  | inr e ↦ rw (e) refl
]

Valid-extend :
    (heap : ℕ → LaunchHooksState) (next : ℕ) (h : LaunchHooksState) (p : Option Shared)
    → Valid heap next p
    → Valid (extend heap next h) (next + 1) p
Valid-extend heap next h none v = tt
Valid-extend heap next h (some a) v =
    (omega (arith, v.0), extend_below heap next a.address h v.0 ∙ v.1)

ValidAt-extend :
    (heap : ℕ → LaunchHooksState) (next : ℕ) (h : LaunchHooksState) (p : Pc)
    → ValidAt heap next p
    → ValidAt (extend heap next h) (next + 1) p
ValidAt-extend heap next h idle v = tt
ValidAt-extend heap next h (loaded u c) v = Valid-extend heap next h c v
ValidAt-extend heap next h (built u c d) v =
    (Valid-extend heap next h c v.0, Valid-extend heap next h d v.1, v.2, v.3)

move-all :
    (P : Pc → Type 0) (pcs : ℕ → Pc) (i : ℕ) (p : Pc)
    → ((j : ℕ) → P (pcs j))
    → P p
    → (j : ℕ) → P (move pcs i p j)
move-all P pcs i p all one j = elim (Bool-cases (i == j)) [
  | inl e ↦ rw (e) one
  | inr e ↦ rw (e) (all j)
]

Step-Inv :
    {s t : System} {c : Option Commit} (commits : List Commit)
    → Inv commits s
    → Step s t c
    → Inv (record_commit c commits) t
Step-Inv {s} commits v (load i u at) = record {
  heap = v.heap;
  stored = v.stored;
  kept = v.kept;
  agrees = v.agrees;
  threads =
      move-all (ValidAt v.heap s.next_address) s.pc i (loaded u s.launch_hooks) v.threads v.stored;
}
Step-Inv {s} commits v (fail i u current desired at) = record {
  heap = v.heap;
  stored = v.stored;
  kept = v.kept;
  agrees = v.agrees;
  threads =
      move-all (ValidAt v.heap s.next_address) s.pc i (loaded u s.launch_hooks) v.threads v.stored;
}
Step-Inv {s} commits v (clear i at) = record {
  heap = v.heap;
  stored = tt;
  kept = tt;
  agrees = refl;
  threads = v.threads;
}
Step-Inv {s} commits v (build i u current at) =
    let next = update u (state_of current) in
    let b = desired_of-Built u current s.next_address in
    let grown = extend v.heap s.next_address next in
    let here : ValidAt v.heap s.next_address (loaded u current) = rw (at) at (v.threads i) in
    record {
      heap = grown;
      stored = Valid-extend v.heap s.next_address next s.launch_hooks v.stored;
      kept = v.kept;
      agrees = v.agrees;
      threads =
          move-all (ValidAt grown (s.next_address + 1)) s.pc i
            (built u current (desired_of s.next_address u current))
            (λ j. ValidAt-extend v.heap s.next_address next (s.pc j) (v.threads j))
            (
              Valid-extend v.heap s.next_address next current here,
              b.valid grown (extend_self v.heap s.next_address next),
              b.has_hook,
              b.state_is,
            );
    }
Step-Inv {s} commits v (swap i u current desired at same) =
    let here : ValidAt v.heap s.next_address (built u current desired) = rw (at) at (v.threads i) in
    let old =
      same_pointer-state v.heap s.next_address s.launch_hooks current v.stored here.0 same in
    record {
      heap = v.heap;
      stored = here.1;
      kept = here.2;
      agrees = here.3 ∙ ap (update u) (sym old ∙ v.agrees);
      threads = move-all (ValidAt v.heap s.next_address) s.pc i idle v.threads tt;
    }

Reach-Inv : {commits : List Commit} {s : System} → Reach commits s → Inv commits s
Reach-Inv start = record {
  heap = λ a. no_hooks;
  stored = tt;
  kept = tt;
  agrees = refl;
  threads = λ i. tt;
}
Reach-Inv (later {commits} r step) = Step-Inv commits (Reach-Inv r) step

-- However the threads' steps interleave, and however often compare-and-swaps fail, the hooks that are
-- stored are those that the committed updates give when they are made one after the other, each at
-- once; no update is lost. And a state without a hook is never stored.
pub launch_hooks-replay :
    {commits : List Commit} {s : System}
    → Reach commits s
    → (state_of s.launch_hooks ≡ replay commits) × HasHook s.launch_hooks
launch_hooks-replay r = (Inv.agrees (Reach-Inv r), Inv.kept (Reach-Inv r))
