-- ===== src/Tuned/Rows/Chain.antt =====
-- The chains that `link_rows` builds: each holds the rows of its bucket, the last one first, and a
-- walk along it finds the last row that is looked for.
use libtriton_jit.Common.{
  ℕ, zero, suc, ◌+◌, ◌≤◌, ◌<◌, Bool, true, false, List, [], ◌∷◌, length, length-set, get_or,
  get_or-set_self, get_or-set_ne, get_elem?, get_elem?-lt, set, Option, none, some, ◌≡◌, refl, sym,
  ap, ◌∙◌, arith, ◌==◌, ==_iff, inl, inr, Bool-cases,
}
use libtriton_jit.Tuned.Rows.{Entry, uint32_max, link_rows, walk}

abbrev pub linked : Entry → ℕ → Entry
linked entry next = record entry { next = next }

-- A plain search through the first `k` rows, the last one first.
unfoldable pub scan : (Entry → Bool) → List Entry → ℕ → Option ℕ
scan found entries zero = none
scan found entries (suc k) = elim (get_elem? entries k) [
  | none ↦ scan found entries k
  | some entry ↦ elim (found entry) [ true ↦ some k | false ↦ scan found entries k ]
]

module _ (bucket : Entry → ℕ) (all : List Entry) where
  -- The last of the first `k` rows in the bucket.
  unfoldable pub last_in : ℕ → ℕ → ℕ
  last_in b zero = uint32_max
  last_in b (suc k) = elim (get_elem? all k) [
    | none ↦ last_in b k
    | some entry ↦ elim (bucket entry == b) [ true ↦ k | false ↦ last_in b k ]
  ]

  -- The rows from number `index` on.
  abbrev pub Rest : ℕ → List Entry → Type 0
  Rest index es = (i : ℕ) → get_elem? es i ≡ get_elem? all (index + i)

  -- The heads of the chains before row `index` is linked.
  abbrev pub Heads : ℕ → ℕ → List ℕ → Type 0
  Heads n index buckets =
      (length buckets ≡ n) × ((b : ℕ) → b < n → get_or buckets b uint32_max ≡ last_in b index)

  abbrev pub Linked : ℕ → List Entry → List Entry → Type 0
  Linked index es linked_es =
      (i : ℕ) (e : Entry)
      → get_elem? es i ≡ some e
      → get_elem? linked_es i ≡ some (linked e (last_in (bucket e) (index + i)))

  Rest-head :
      (index : ℕ) (e : Entry) (es : List Entry) → Rest index (e ∷ es) → get_elem? all index ≡ some e
  Rest-head index e es h = ap (get_elem? all) (omega arith) ∙ sym (h 0)

  Rest-tail : (index : ℕ) (e : Entry) (es : List Entry) → Rest index (e ∷ es) → Rest (index + 1) es
  Rest-tail index e es h i = h (suc i) ∙ ap (get_elem? all) (omega arith)

  last_in-hit :
      (b k : ℕ) (e : Entry)
      → get_elem? all k ≡ some e
      → (bucket e == b) ≡ true
      → last_in b (suc k) ≡ k
  unfolding last_in
  last_in-hit b k e at t = rw (at, t, last_in)

  last_in-miss :
      (b k : ℕ) (e : Entry)
      → get_elem? all k ≡ some e
      → (bucket e == b) ≡ false
      → last_in b (suc k) ≡ last_in b k
  unfolding last_in
  last_in-miss b k e at f = rw (at, f, last_in)

  Heads-step :
      (n index : ℕ) (e : Entry) (buckets : List ℕ)
      → get_elem? all index ≡ some e
      → bucket e < n
      → Heads n index buckets
      → Heads n (index + 1) (set buckets (bucket e) index)
  Heads-step n index e buckets at inside h = (
    length-set buckets (bucket e) index ∙ h.0,
    λ b bound. elim (Bool-cases (bucket e == b)) [
      | inl t ↦
          let same : bucket e ≡ b = (==_iff (bucket e) b).0 t in
          rw (← same) (
            get_or-set_self buckets (bucket e) index uint32_max (omega (arith, h.0, inside))
            ∙ sym (
                ap (last_in (bucket e)) (omega arith)
                ∙ last_in-hit (bucket e) index e at ((==_iff (bucket e) (bucket e)).1 refl)))
      | inr f ↦
          get_or-set_ne buckets (bucket e) b index uint32_max
            (λ q. cc (f, (==_iff (bucket e) b).1 q))
          ∙ h.1 b bound
          ∙ sym (ap (last_in b) (omega arith) ∙ last_in-miss b index e at f)
    ],
  )

  Linked-cons :
      (index : ℕ) (e head : Entry) (es linked_es : List Entry)
      → head ≡ linked e (last_in (bucket e) index)
      → Linked (index + 1) es linked_es
      → Linked index (e ∷ es) (head ∷ linked_es)
  Linked-cons index e head es linked_es h tail zero d q =
      let same : e ≡ d = cc in
      rw (← same) (ap some (h ∙ ap (λ k. linked e (last_in (bucket e) k)) (omega arith)))
  Linked-cons index e head es linked_es h tail (suc i) d q =
      tail i d q ∙ ap (λ k. some (linked d (last_in (bucket d) k))) (omega arith)

  -- Linking keeps the heads right, and chains every row to the one before it in its bucket.
  pub link_rows-Linked :
      (n index : ℕ) (es : List Entry) (buckets : List ℕ)
      → ((e : Entry) → bucket e < n)
      → Rest index es
      → Heads n index buckets
      → (end : ℕ) × (end ≡ index + length es)
        × Heads n end ((link_rows bucket index es buckets).1)
        × Linked index es ((link_rows bucket index es buckets).0)
  unfolding link_rows
  link_rows-Linked n index [] buckets inside rest h = (index, omega arith, h, λ i e q. cc)
  link_rows-Linked n index (e ∷ es) buckets inside rest h =
      let at = Rest-head index e es rest in
      let (end, size, heads, tail) =
        link_rows-Linked n (index + 1) es (set buckets (bucket e) index) inside
          (Rest-tail index e es rest) (Heads-step n index e buckets at (inside e) h) in
      (
        end,
        omega arith,
        heads,
        Linked-cons index e _ es _ (ap (linked e) (h.1 (bucket e) (inside e))) tail,
      )

  module _ (found : Entry → Bool) (linked_es : List Entry) where
    walk-end : (bound : ℕ) → walk found linked_es bound uint32_max ≡ none
    unfolding walk
    walk-end zero = refl
    walk-end (suc bound) = refl

    walk-row :
        (bound k : ℕ) (e : Entry)
        → k < uint32_max
        → get_elem? linked_es k ≡ some e
        → walk found linked_es (suc bound) k
          ≡ elim (found e) [ true ↦ some k | false ↦ walk found linked_es bound e.next ]
    unfolding walk
    walk-row bound k e small at =
        let more : (k == uint32_max) ≡ false = ground arith in rw (more, at, walk)

    scan-row :
        (k : ℕ) (e : Entry)
        → get_elem? all k ≡ some e
        → scan found all (suc k) ≡ elim (found e) [ true ↦ some k | false ↦ scan found all k ]
    unfolding scan
    scan-row k e at = rw (at, scan)

    same_choice :
        (x y : Bool) (k : ℕ) (p q : Option ℕ)
        → x ≡ y
        → p ≡ q
        → ◌≡◌ {A = Option ℕ}
            (elim x [ true ↦ some k | false ↦ p ])
            (elim y [ true ↦ some k | false ↦ q ])
    same_choice true true k p q h e = refl
    same_choice false false k p q h e = e
    same_choice true false k p q h e = cc
    same_choice false true k p q h e = cc

    -- A walk from the last of the first `k` rows in a bucket finds what a search through all of the
    -- first `k` rows finds, when all that is looked for is in this bucket.
    pub walk-scan :
        (b k bound : ℕ)
        → Linked 0 all linked_es
        → ((i : ℕ) (e : Entry) → get_elem? all i ≡ some e → found e ≡ true → bucket e ≡ b)
        → ((e : Entry) (next : ℕ) → found (linked e next) ≡ found e)
        → k ≤ bound
        → k ≤ length all
        → length all ≤ uint32_max
        → walk found linked_es bound (last_in b k) ≡ scan found all k
    walk-scan b zero bound l only ignores fuel short small = unfold last_in scan in walk-end bound
    walk-scan b (suc k) zero l only ignores fuel short small = absurd (omega arith)
    walk-scan b (suc k) (suc bound) l only ignores fuel short small =
        let (e, at) = get_elem?-lt all k (omega arith) in
        let ih = walk-scan b k bound l only ignores (omega arith) (omega arith) small in
        let later = walk-scan b k (suc bound) l only ignores (omega arith) (omega arith) small in
        elim (Bool-cases (bucket e == b)) [
          | inl t ↦
              let same : bucket e ≡ b = (==_iff (bucket e) b).0 t in
              ap (walk found linked_es (suc bound)) (last_in-hit b k e at t)
              ∙ walk-row bound k _ (omega arith) (l k e at)
              ∙ same_choice _ _ k _ _ (ignores e (last_in (bucket e) (0 + k)))
                  (ap (walk found linked_es bound) (rw same (ap (last_in b) (omega arith))) ∙ ih)
              ∙ sym (scan-row k e at)
          | inr f ↦ elim (Bool-cases (found e)) [
            | inl y ↦ cc (f, (==_iff (bucket e) b).1 (only k e at y))
            | inr n ↦
                ap (walk found linked_es (suc bound)) (last_in-miss b k e at f)
                ∙ later
                ∙ sym (scan-row k e at ∙ rw n)
          ]
        ]
