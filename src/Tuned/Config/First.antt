-- ===== src/Tuned/Config/First.antt =====
-- The getters of a configuration all answer from the first pair of the name.
use libtriton_jit.Common.{
  ℕ, Bool, true, false, not, if◌then◌else◌, List, [], ◌∷◌, ◌++◌, Bytes, text_eq, text_eq_iff,
  text_eq_refl, Option, none, some, ◌≡◌, refl, ap, ◌∙◌, All, ◌⊎◌, inl, inr, Bool-cases, arith,
}
use libtriton_jit.Common.Int.{ℤ, pos, negsuc, eq_ℤ}
use libtriton_jit.Tuned.Config.{
  TunedValue, i64, bool, f64, str, f64_one, is_nonzero, Casts, has, get_i64, get_bool, get_f64,
  get_str, as_i64, as_bool, as_f64, as_str,
}

-- No pair of the list has the name.
abbrev pub Lacks : Bytes → List (Bytes × TunedValue) → Type 0
Lacks name = All (λ pair. text_eq (pair.0) name ≡ false)

-- What the getters answer when the first pair of the name has this value, or there is no such pair.
-- An `int64_t` is read as a truth value by whether it is 0, a truth value as 0 or 1; a `double`, by its
-- bits, is not read as a truth value, and a text only as a text.
abbrev pub Answers : Casts → Bytes → List (Bytes × TunedValue) → Option TunedValue → Type 0
Answers casts name kwargs none =
    (has name kwargs ≡ false)
    × ((fallback : ℤ) → get_i64 casts name fallback kwargs ≡ fallback)
    × ((fallback : Bool) → get_bool name fallback kwargs ≡ fallback)
    × ((fallback : ℕ) → get_f64 casts name fallback kwargs ≡ fallback)
    × (get_str name kwargs ≡ none)
Answers casts name kwargs (some (i64 i)) =
    (has name kwargs ≡ true)
    × ((fallback : ℤ) → get_i64 casts name fallback kwargs ≡ i)
    × ((fallback : Bool) → get_bool name fallback kwargs ≡ not (eq_ℤ i (pos 0)))
    × ((fallback : ℕ) → get_f64 casts name fallback kwargs ≡ casts.to_f64 i)
    × (get_str name kwargs ≡ none)
Answers casts name kwargs (some (bool b)) =
    (has name kwargs ≡ true)
    × ((fallback : ℤ) → get_i64 casts name fallback kwargs ≡ (if b then pos 1 else pos 0))
    × ((fallback : Bool) → get_bool name fallback kwargs ≡ b)
    × ((fallback : ℕ) → get_f64 casts name fallback kwargs ≡ (if b then f64_one else 0))
    × (get_str name kwargs ≡ none)
Answers casts name kwargs (some (f64 d)) =
    (has name kwargs ≡ true)
    × ((fallback : ℤ) → get_i64 casts name fallback kwargs ≡ casts.to_i64 d)
    × ((fallback : Bool) → get_bool name fallback kwargs ≡ fallback)
    × ((fallback : ℕ) → get_f64 casts name fallback kwargs ≡ d)
    × (get_str name kwargs ≡ none)
Answers casts name kwargs (some (str s)) =
    (has name kwargs ≡ true)
    × ((fallback : ℤ) → get_i64 casts name fallback kwargs ≡ fallback)
    × ((fallback : Bool) → get_bool name fallback kwargs ≡ fallback)
    × ((fallback : ℕ) → get_f64 casts name fallback kwargs ≡ fallback)
    × (get_str name kwargs ≡ some s)

-- The same by the conversions of the getters.
record Computed (casts : Casts) (name : Bytes) (kwargs : List (Bytes × TunedValue))
    (value? : Option TunedValue) : Type 0 where
  pub presence : has name kwargs ≡ elim value? [ none ↦ false | some v ↦ true ]
  pub integer :
      (fallback : ℤ)
      → get_i64 casts name fallback kwargs
        ≡ elim value? [ none ↦ fallback | some v ↦ as_i64 casts fallback v ]
  pub truth :
      (fallback : Bool)
      → get_bool name fallback kwargs
        ≡ elim value? [ none ↦ fallback | some v ↦ as_bool fallback v ]
  pub real :
      (fallback : ℕ)
      → get_f64 casts name fallback kwargs
        ≡ elim value? [ none ↦ fallback | some v ↦ as_f64 casts fallback v ]
  pub string : get_str name kwargs ≡ elim value? [ none ↦ none | some v ↦ as_str v ]

module _ (casts : Casts) (name : Bytes) where
  skip :
      (before rest : List (Bytes × TunedValue)) (value? : Option TunedValue)
      → Lacks name before
      → Computed casts name rest value?
      → Computed casts name (before ++ rest) value?
  unfolding has get_i64 get_bool get_f64 get_str
  skip [] rest value? h a = a
  skip (pair ∷ before) rest value? h a =
      let ih = skip before rest value? h.1 a in
      record {
        presence = rw h.0 ih.presence;
        integer = λ fallback. rw h.0 (ih.integer fallback);
        truth = λ fallback. rw h.0 (ih.truth fallback);
        real = λ fallback. rw h.0 (ih.real fallback);
        string = rw h.0 ih.string;
      }

  nothing : Computed casts name [] none
  unfolding has get_i64 get_bool get_f64 get_str
  nothing = record {
    presence = refl;
    integer = λ fallback. refl;
    truth = λ fallback. refl;
    real = λ fallback. refl;
    string = refl;
  }

  here :
      (v : TunedValue) (rest : List (Bytes × TunedValue))
      → Computed casts name ((name, v) ∷ rest) (some v)
  unfolding has get_i64 get_bool get_f64 get_str
  here v rest = record {
    presence = rw text_eq_refl refl;
    integer = λ fallback. rw text_eq_refl refl;
    truth = λ fallback. rw text_eq_refl refl;
    real = λ fallback. rw text_eq_refl refl;
    string = rw text_eq_refl refl;
  }

  nonzero : (i : ℤ) → is_nonzero i ≡ not (eq_ℤ i (pos 0))
  nonzero (pos n) = ground arith
  nonzero (negsuc n) = refl

  Computed-Answers :
      (kwargs : List (Bytes × TunedValue)) (value? : Option TunedValue)
      → Computed casts name kwargs value?
      → Answers casts name kwargs value?
  Computed-Answers kwargs none c = (c.presence, c.integer, c.truth, c.real, c.string)
  Computed-Answers kwargs (some (i64 i)) c =
      (c.presence, c.integer, (λ fallback. c.truth fallback ∙ nonzero i), c.real, c.string)
  Computed-Answers kwargs (some (bool b)) c = (c.presence, c.integer, c.truth, c.real, c.string)
  Computed-Answers kwargs (some (f64 d)) c = (c.presence, c.integer, c.truth, c.real, c.string)
  Computed-Answers kwargs (some (str t)) c = (c.presence, c.integer, c.truth, c.real, c.string)

  getters-Computed :
      (kwargs : List (Bytes × TunedValue))
      → Lacks name kwargs × Computed casts name kwargs none
        ⊎ (before : List (Bytes × TunedValue)) × (v : TunedValue) × (after : List
            (Bytes × TunedValue))
          × (kwargs ≡ before ++ (name, v) ∷ after)
          × Lacks name before
          × Computed casts name kwargs (some v)
  getters-Computed [] = inl (tt, nothing)
  getters-Computed ((key, v) ∷ rest) = elim (Bool-cases (text_eq key name)) [
    | inl t ↦
        let e : key ≡ name = (text_eq_iff key name).0 t in
        rw e (inr ([], v, rest, refl, tt, here v rest))
    | inr f ↦ elim (getters-Computed rest) [
      | inl (lacks, a) ↦ inl ((f, lacks), skip ((key, v) ∷ []) rest none (f, tt) a)
      | inr (before, w, after, e, lacks, a) ↦ inr (
        (key, v) ∷ before,
        w,
        after,
        ap (◌∷◌ (key, v)) e,
        (f, lacks),
        skip ((key, v) ∷ []) rest (some w) (f, tt) a,
      )
    ]
  ]

  -- Of the pairs of a configuration, either none has the name, and every getter gives its fallback;
  -- or the first one that has it is the one that every getter answers from: integers and truth values are
  -- read as every number type, `double`s as numbers but not as truth values, texts as texts only, and a
  -- getter gives its fallback, `get_str` nothing, when the value has a type that it does not read.
  pub getters-Answers :
      (kwargs : List (Bytes × TunedValue))
      → Lacks name kwargs × Answers casts name kwargs none
        ⊎ (before : List (Bytes × TunedValue)) × (v : TunedValue) × (after : List
            (Bytes × TunedValue))
          × (kwargs ≡ before ++ (name, v) ∷ after)
          × Lacks name before
          × Answers casts name kwargs (some v)
  getters-Answers kwargs = elim (getters-Computed kwargs) [
    | inl (lacks, c) ↦ inl (lacks, Computed-Answers kwargs none c)
    | inr (before, v, after, e, lacks, c) ↦
        inr (before, v, after, e, lacks, Computed-Answers kwargs (some v) c)
  ]
