-- ===== src/Backends/Cache.antt =====
-- The cache of loaded modules: its keys, and what it serves.
use libtriton_jit.Common.{
  ℕ, false, List, [], ◌∷◌, ◌++◌, Bytes, text_eq, text_eq_iff, text_eq_refl, All, none, some,
  Option-cases, Bool-cases, inl, inr, Result, ok, throw, Result-cases, ok_inj, ◌≡◌, ◌≢◌, ◌⊎◌, refl,
  sym, ap, ◌∙◌, append_assoc,
}
use libtriton_jit.Backends.{find_module, load_cached, shared_of, module_key}

pub throw-ne-ok {ℓ κ} :
    {E : Type κ} {A : Type ℓ} {x : E} {a : A} → ◌≡◌ {A = Result E A} (throw x) (ok a) → ⊥
throw-ne-ok h = cc

-- A text without the byte.
abbrev pub Without : ℕ → Bytes → Type 0
Without c text = All (λ b. b ≢ c) text

Without-middle : (c : ℕ) (xs ys : Bytes) → Without c (xs ++ c ∷ ys) → ⊥
Without-middle c [] ys h = h.0 refl
Without-middle c (x ∷ xs) ys h = Without-middle c xs ys h.1

cons_inj : {x y : ℕ} {xs ys : Bytes} → ◌≡◌ {A = Bytes} (x ∷ xs) (y ∷ ys) → (x ≡ y) × (xs ≡ ys)
cons_inj h = (cc, cc)

-- The parts on both sides of the last such byte are determined by the whole.
pub last_separator_inj :
    (c : ℕ) (u v a b : Bytes)
    → Without c a
    → Without c b
    → u ++ c ∷ a ≡ v ++ c ∷ b
    → (u ≡ v) × (a ≡ b)
last_separator_inj c [] [] a b ha hb h = (refl, (cons_inj h).1)
last_separator_inj c [] (y ∷ v) a b ha hb h =
    absurd (Without-middle c v b (rw ((cons_inj h).1) at ha))
last_separator_inj c (x ∷ u) [] a b ha hb h =
    absurd (Without-middle c u a (rw (← (cons_inj h).1) at hb))
last_separator_inj c (x ∷ u) (y ∷ v) a b ha hb h =
    let (heads, tails) = cons_inj h in
    let (us, as_same) = last_separator_inj c u v a b ha hb tails in (cc, as_same)

-- The key of a module gives back the directory and the name of its kernel, if the names have no
-- colon.
pub module_key_inj :
    (dir dir' name name' : Bytes)
    → Without b':' name
    → Without b':' name'
    → module_key dir name ≡ module_key dir' name'
    → (dir ≡ dir') × (name ≡ name')
module_key_inj dir dir' name name' h h' e =
    let colon : (d n : Bytes) → (d ++ b':' ∷ []) ++ b':' ∷ n ≡ module_key d n =
      λ d n. append_assoc d (b':' ∷ []) (b':' ∷ n) in
    let (dirs, names) =
      last_separator_inj b':' (dir ++ b':' ∷ []) (dir' ++ b':' ∷ []) name name' h h'
        (colon dir name ∙ e ∙ sym (colon dir' name')) in
    ((last_separator_inj b':' dir dir' [] [] tt tt dirs).0, names)

module _ {M : Type 0} where
  pub find_module_self :
      (key : Bytes) (m : M) (cache : List (Bytes × M)) → find_module key ((key, m) ∷ cache) ≡ some m
  unfolding find_module
  find_module_self key m cache = rw (text_eq_refl key) refl

  find_module_other :
      (key name : Bytes) (m : M) (cache : List (Bytes × M))
      → text_eq name key ≡ false
      → find_module key ((name, m) ∷ cache) ≡ find_module key cache
  unfolding find_module
  find_module_other key name m cache ne = rw (ne) refl

  -- What a load did to the cache: it left it alone, or it put there what was loaded.
  pub record Served {E : Type 0} (function : M → ℕ) (key : Bytes) (loaded : Result E M) (h : ℕ)
      (before after : List (Bytes × M)) : Type 0 where
    pub held : M
    pub found : find_module key after ≡ some held
    pub handle : function held ≡ h
    pub others :
        (other : Bytes) → (key ≡ other) ⊎ (find_module other after ≡ find_module other before)
    pub source : (after ≡ before) ⊎ ((loaded ≡ ok held) × (find_module key before ≡ none))

  pub load_cached-Served :
      {E : Type 0} (function : M → ℕ) (key : Bytes) (loaded : Result E M)
      (cache after : List (Bytes × M)) (h : ℕ)
      → load_cached function key loaded cache ≡ ok (h, after)
      → Served function key loaded h cache after
  unfolding load_cached
  load_cached-Served function key loaded cache after h e =
      elim (Option-cases (find_module key cache)) [
        | inr (m, f) ↦
            let q : (function m, cache) ≡ (h, after) = ok_inj (rw (load_cached, f) at e) in
            let same : cache ≡ after = ap (λ p. p.1) q in
            record {
              held = m;
              found = rw (← same) f;
              handle = ap (λ p. p.0) q;
              others = λ other. inr (ap (find_module other) (sym same));
              source = inl (sym same);
            }
        | inl f ↦ elim (Result-cases loaded) [
          | inr (x, g) ↦ absurd (throw-ne-ok (rw (load_cached, f, g) at e))
          | inl (m, g) ↦
              let q : (function m, (key, m) ∷ cache) ≡ (h, after) =
                ok_inj (rw (load_cached, f, g) at e) in
              let grown : (key, m) ∷ cache ≡ after = ap (λ p. p.1) q in
              record {
                held = m;
                found = rw (← grown) (find_module_self key m cache);
                handle = ap (λ p. p.0) q;
                others = λ other. elim (Bool-cases (text_eq key other)) [
                  | inl same ↦ inl ((text_eq_iff key other).0 same)
                  | inr ne ↦ inr (rw (← grown) (find_module_other other key m cache ne))
                ];
                source = inr (g, f);
              }
        ]
      ]

  -- A module that is held is served again, whatever the driver and the files say.
  pub load_cached-again :
      {E F : Type 0} (function : M → ℕ) (key : Bytes) (loaded : Result E M) (later : Result F M)
      (before after : List (Bytes × M)) (h : ℕ)
      → Served function key loaded h before after
      → load_cached function key later after ≡ ok (h, after)
  unfolding load_cached
  load_cached-again function key loaded later before after h s =
      rw (load_cached, s.found, s.handle) refl

  pub shared_of-Served :
      {E : Type 0} (function shared : M → ℕ) (key : Bytes) (loaded : Result E M) (n h : ℕ)
      (before after : List (Bytes × M))
      → ((m : M) → loaded ≡ ok m → shared m ≡ n)
      → Served function key loaded h before after
      → shared_of shared key n after ≡ shared_of shared key n before
  unfolding shared_of
  shared_of-Served function shared key loaded n h before after agree s = elim s.source [
    | inl same ↦ rw (same) refl
    | inr (fresh, new) ↦ rw (shared_of, s.found, new) (agree s.held fresh)
  ]

  -- The cache once a load has ended: one that throws leaves it alone.
  abbrev pub cache_after :
      {E : Type 0} → Result E (ℕ × List (Bytes × M)) → List (Bytes × M) → List (Bytes × M)
  cache_after (ok (h, after)) before = after
  cache_after (throw e) before = before

  pub shared_of-cache_after :
      {E : Type 0} (function shared : M → ℕ) (key : Bytes) (loaded : Result E M) (n : ℕ)
      (before : List (Bytes × M))
      → ((m : M) → loaded ≡ ok m → shared m ≡ n)
      → shared_of shared key n (cache_after (load_cached function key loaded before) before)
        ≡ shared_of shared key n before
  shared_of-cache_after function shared key loaded n before agree =
      elim (Result-cases (load_cached function key loaded before)) [
        | inr (e, lost) ↦ rw (lost) refl
        | inl (result, done) ↦ rw (done) (
            shared_of-Served function shared key loaded n result.0 before result.1 agree
              (load_cached-Served function key loaded before result.1 result.0 done))
      ]
