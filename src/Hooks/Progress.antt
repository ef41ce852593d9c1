-- ===== src/Hooks/Progress.antt =====
-- An update whose thread runs alone for a while is committed.
use libtriton_jit.Common.{
  ℕ, ◌+◌, ◌≤◌, ◌==◌, ==_iff, true, Bool-cases, List, [], ◌∷◌, Option, none, some, inl, inr, ◌⊎◌,
  ◌≡◌, refl, ◌∙◌, arith,
}
use libtriton_jit.Hooks.{
  Shared, Update, desired_of, same_pointer, Pc, idle, loaded, built, System, move, Commit, updated,
  Step, build, swap, fail,
}
use libtriton_jit.Hooks.Atomic.{record_commit}

-- So many steps, and their commits.
pub data Run (s : System) : ℕ → System → List Commit → Type 0 where
  stay : Run s 0 s []
  step :
      {n : ℕ} {t v : System} {commits : List Commit} {c : Option Commit}
      → Run s n t commits
      → Step t v c
      → Run s (n + 1) v (record_commit c commits)

-- The thread is in the loop with this update.
abbrev pub InLoop : Update → Pc → Type 0
InLoop u idle = ⊥
InLoop u (loaded v current) = v ≡ u
InLoop u (built v current desired) = v ≡ u

-- The other threads are where they were.
abbrev pub OthersStay : ℕ → System → System → Type 0
OthersStay i s t = (j : ℕ) → (i ≡ j) ⊎ (t.pc j ≡ s.pc j)

-- A run that ends with the update committed.
pub record Finish (i : ℕ) (u : Update) (most : ℕ) (s : System) : Type 0 where
  pub steps : ℕ
  pub end : System
  pub run : Run s steps end (updated u ∷ [])
  pub short : steps ≤ most
  pub done : end.pc i ≡ idle
  pub alone : OthersStay i s end

move_self : (pcs : ℕ → Pc) (i : ℕ) (p : Pc) → move pcs i p i ≡ p
move_self pcs i p = rw ((==_iff i i).1 refl) refl

move_other : (pcs : ℕ → Pc) (i : ℕ) (p : Pc) (j : ℕ) → (i ≡ j) ⊎ (move pcs i p j ≡ pcs j)
move_other pcs i p j = elim (Bool-cases (i == j)) [
  | inl e ↦ inl ((==_iff i j).0 e)
  | inr e ↦ inr (rw (e) refl)
]

same_pointer_self : (p : Option Shared) → same_pointer p p ≡ true
same_pointer_self none = refl
same_pointer_self (some a) = (==_iff a.address a.address).1 refl

-- One step before a run.
prefix-Run :
    {s t v : System} {n : ℕ} {commits : List Commit}
    → Step s t none
    → Run t n v commits
    → Run s (n + 1) v commits
prefix-Run first stay = step stay first
prefix-Run first (step run last) = step (prefix-Run first run) last

prefix-Finish :
    (i : ℕ) (u : Update) (most : ℕ) (s t : System)
    → Step s t none
    → OthersStay i s t
    → Finish i u most t
    → Finish i u (most + 1) s
prefix-Finish i u most s t first stays f = record {
  steps = f.steps + 1;
  end = f.end;
  run = prefix-Run first f.run;
  short = omega (arith, f.short);
  done = f.done;
  alone = λ j. elim (f.alone j) [
    | inl e ↦ inl e
    | inr e ↦ elim (stays j) [ inl k ↦ inl k | inr k ↦ inr (e ∙ k) ]
  ];
}

swap-Finish :
    (i : ℕ) (u : Update) (current desired : Option Shared) (s : System)
    → s.pc i ≡ built u current desired
    → same_pointer s.launch_hooks current ≡ true
    → Finish i u 1 s
swap-Finish i u current desired s at same = record {
  steps = 1;
  end = record s { launch_hooks = desired; pc = move s.pc i idle };
  run = step stay (swap i u current desired at same);
  short = omega arith;
  done = move_self s.pc i idle;
  alone = move_other s.pc i idle;
}

build-Finish :
    (i : ℕ) (u : Update) (current : Option Shared) (s : System)
    → s.pc i ≡ loaded u current
    → same_pointer s.launch_hooks current ≡ true
    → Finish i u 2 s
build-Finish i u current s at same =
    let desired = desired_of s.next_address u current in
    prefix-Finish i u 1 s _ (build i u current at) (move_other s.pc i (built u current desired))
      (swap-Finish i u current desired _ (move_self s.pc i (built u current desired)) same)

fail-Finish :
    (i : ℕ) (u : Update) (current desired : Option Shared) (s : System)
    → s.pc i ≡ built u current desired
    → Finish i u 3 s
fail-Finish i u current desired s at =
    prefix-Finish i u 2 s _ (fail i u current desired at)
      (move_other s.pc i (loaded u s.launch_hooks))
      (build-Finish i u s.launch_hooks _ (move_self s.pc i (loaded u s.launch_hooks))
        (same_pointer_self s.launch_hooks))

-- From any state, a thread in the loop of an update has a run of at most four steps, in which every
-- other thread stays where it is, that commits the update and nothing else and leaves the loop.
pub update_launch_hooks_finishes :
    (i : ℕ) (u : Update) (s : System) → InLoop u (s.pc i) → Finish i u 4 s
update_launch_hooks_finishes i u s h = go (s.pc i) refl h
  where
    go : (p : Pc) → s.pc i ≡ p → InLoop u p → Finish i u 4 s
    go idle at h = absurd h
    go (loaded v current) at h =
        let desired = desired_of s.next_address v current in
        rw (← h) (
          prefix-Finish i v 3 s _ (build i v current at)
            (move_other s.pc i (built v current desired))
            (fail-Finish i v current desired _ (move_self s.pc i (built v current desired))))
    go (built v current desired) at h =
        let f = fail-Finish i v current desired s at in
        rw (← h) (record {
          steps = f.steps;
          end = f.end;
          run = f.run;
          short = omega (arith, f.short);
          done = f.done;
          alone = f.alone;
        })
