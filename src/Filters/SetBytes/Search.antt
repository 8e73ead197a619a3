-- ===== src/Filters/SetBytes/Search.antt =====
-- FilterSetBytes::doesMatch of src/filters.h: the binary search decides membership.
use strfry.Prelude.{
  ℕ, zero, suc, ◌+◌, ◌-◌, ◌/◌, ◌≤◌, ◌<◌, ◌≡◌, refl, sym, ap, ◌∙◌, ◌⊎◌, inl, inr, Bool, true, false,
  none, some, List, [], ◌∷◌, arith, ◌==◌, if◌then◌else◌, Bool-cases, Bool-ext, length, get_or, All,
  ok,
}
use strfry.Prelude.Bytes.{
  Bytes, bytes_eq, bytes_lt, contains, bytes_eq_refl, bytes_eq→eq, bytes_lt_irrefl, bytes_lt_trans,
}
use native.Mathlib.Decide.{dec_lt}
use strfry.External.{Json, Hex}
use strfry.Filters.SetBytes.{
  Item, FilterSetBytes, collect_items, filter_set_bytes, item_value, no_item, before, upper_bound,
  does_match, sort,
}
use strfry.Filters.SetBytes.Order.{
  Strict, sort-Sorted, dedup-sort-Strict, dedup, contains-sort, contains-dedup-none,
}
use strfry.Filters.SetBytes.Construct.{Reads, ReadsAll, Stands, filter_set_bytes-Stands}

-- An upper bound: the test fails just below it, and holds at it, where these are in range.
abbrev pub IsBound : (ℕ → Bool) → ℕ → ℕ → Type 0
IsBound comp n r = ((r ≡ 0) ⊎ (comp (r - 1) ≡ false)) × ((r ≡ n) ⊎ (comp r ≡ true)) × (r ≤ n)

pub upper_bound-IsBound :
    (comp : ℕ → Bool) (n f first count : ℕ)
    → count ≤ f
    → first + count ≤ n
    → (first ≡ 0) ⊎ (comp (first - 1) ≡ false)
    → (first + count ≡ n) ⊎ (comp (first + count) ≡ true)
    → IsBound comp n (upper_bound comp f first count)
unfolding upper_bound
upper_bound-IsBound comp n zero first zero le fits low high =
    let e : first + 0 ≡ first = omega arith in (low, rw e at high, omega arith)
upper_bound-IsBound comp n zero first (suc c) le fits low high = absurd (omega arith)
upper_bound-IsBound comp n (suc f) first zero le fits low high =
    let e : first + 0 ≡ first = omega arith in (low, rw e at high, omega arith)
upper_bound-IsBound comp n (suc f) first (suc c) le fits low high =
    let step = suc c / 2 in
    let e : (first + step + 1) + (suc c - (step + 1)) ≡ first + suc c = omega arith in
    let p : first + step + 1 - 1 ≡ first + step = omega arith in
    elim (Bool-cases (comp (first + step))) [
      | inl t ↦
          rw (t, upper_bound)
            (upper_bound-IsBound comp n f first step (omega arith) (omega arith) low (inr t))
      | inr t ↦
          rw (t, upper_bound)
            (upper_bound-IsBound comp n f (first + step + 1) (suc c - (step + 1)) (omega arith)
              (omega arith) (inr (rw p t)) (rw e high))
    ]

-- The shortcut by the first byte changes no comparison.
before_lem :
    (s : FilterSetBytes) (c : Bytes) (item : Item) (v : Bytes)
    → Reads s.buf item v
    → before s c item ≡ bytes_lt c v
unfolding before
before_lem s [] item v (f, n, e, le) = ap (bytes_lt []) e
before_lem s (c ∷ cs) item [] (f, n, e, le) = rw (e, n)
before_lem s (c ∷ cs) item (y ∷ ys) (f, n, e, le) = rw (e, f, n) (unfold bytes_lt in ground arith)

ReadsAll-length :
    (buf : Bytes) (is : List Item) (vs : List Bytes) → ReadsAll buf is vs → length is ≡ length vs
ReadsAll-length buf [] [] h = refl
ReadsAll-length buf (i ∷ is) (v ∷ vs) h = ap suc (ReadsAll-length buf is vs h.1)
ReadsAll-length buf [] (v ∷ vs) h = absurd h
ReadsAll-length buf (i ∷ is) [] h = absurd h

ReadsAll-get_or :
    (buf : Bytes) (is : List Item) (vs : List Bytes) (k : ℕ)
    → ReadsAll buf is vs
    → k < length vs
    → Reads buf (get_or is k no_item) (get_or vs k [])
ReadsAll-get_or buf [] [] k h lt = absurd (omega arith)
ReadsAll-get_or buf (i ∷ is) (v ∷ vs) zero h lt = h.0
ReadsAll-get_or buf (i ∷ is) (v ∷ vs) (suc k) h lt = ReadsAll-get_or buf is vs k h.1 (omega arith)
ReadsAll-get_or buf [] (v ∷ vs) k h lt = absurd h
ReadsAll-get_or buf (i ∷ is) [] k h lt = absurd h

All-get_or :
    (P : Bytes → Type 0) (vs : List Bytes) (k : ℕ) → All P vs → k < length vs → P (get_or vs k [])
All-get_or P [] k h lt = absurd (omega arith)
All-get_or P (v ∷ vs) zero h lt = h.0
All-get_or P (v ∷ vs) (suc k) h lt = All-get_or P vs k h.1 (omega arith)

Strict-get_or :
    (vs : List Bytes) (i j : ℕ)
    → Strict vs
    → i < j
    → j < length vs
    → bytes_lt (get_or vs i []) (get_or vs j []) ≡ true
Strict-get_or [] i j s ij lt = absurd (omega arith)
Strict-get_or (v ∷ vs) i zero s ij lt = absurd (omega arith)
Strict-get_or (v ∷ vs) zero (suc j) s ij lt =
    All-get_or (λ y. bytes_lt v y ≡ true) vs j s.0 (omega arith)
Strict-get_or (v ∷ vs) (suc i) (suc j) s ij lt =
    Strict-get_or vs i j s.1 (omega arith) (omega arith)

contains→index :
    (c : Bytes) (vs : List Bytes)
    → contains c vs ≡ true
    → (k : ℕ) × (k < length vs) × (get_or vs k [] ≡ c)
unfolding contains
contains→index c [] h = cc
contains→index c (v ∷ vs) h = elim (Bool-cases (bytes_eq c v)) [
  | inl e ↦ (0, omega arith, sym (bytes_eq→eq c v e))
  | inr ne ↦ let (k, lt, e) = contains→index c vs (ground arith) in (suc k, omega arith, e)
]

index→contains : (vs : List Bytes) (k : ℕ) → k < length vs → contains (get_or vs k []) vs ≡ true
unfolding contains
index→contains [] k lt = absurd (omega arith)
index→contains (v ∷ vs) zero lt = rw (bytes_eq_refl v)
index→contains (v ∷ vs) (suc k) lt = ground (arith, index→contains vs k)

module _ (s : FilterSetBytes) (vs : List Bytes) (h : Stands s vs) (strict : Strict vs)
    (c : Bytes) where
  -- The test of the search, and the index that the search ends at.
  comp : ℕ → Bool
  comp i = before s c (get_or s.items i no_item)

  found : ℕ
  found = upper_bound comp (length s.items) 0 (length s.items)

  size_eq : length s.items ≡ length vs
  size_eq = ReadsAll-length s.buf s.items vs h

  comp-lt : (k : ℕ) → k < length vs → comp k ≡ bytes_lt c (get_or vs k [])
  unfolding comp
  comp-lt k lt = before_lem s c _ _ (ReadsAll-get_or s.buf s.items vs k h lt)

  value-at : (k : ℕ) → k < length vs → item_value s (get_or s.items k no_item) ≡ get_or vs k []
  value-at k lt = (ReadsAll-get_or s.buf s.items vs k h lt).2

  found-IsBound : IsBound comp (length vs) found
  unfolding found
  found-IsBound = rw (← size_eq) (
      upper_bound-IsBound comp (length s.items) (length s.items) 0 (length s.items) (omega arith)
        (omega arith) (inl refl) (inl (omega arith)))

  not-below : (k : ℕ) → k < length vs → get_or vs k [] ≡ c → k + 1 < found → ⊥
  not-below k lt e below = elim found-IsBound.0 [
    | inl z ↦ omega arith
    | inr t ↦
        let le : found - 1 < length vs = omega (arith, found-IsBound.2) in
        cc (t, comp-lt (found - 1) le, e, Strict-get_or vs k (found - 1) strict (omega arith) le)
  ]

  not-above : (k : ℕ) → k < length vs → get_or vs k [] ≡ c → found ≤ k → ⊥
  not-above k lt e above = elim found-IsBound.1 [
    | inl z ↦ omega arith
    | inr t ↦
        let le : found < length vs = omega arith in
        elim (dec_lt found k) [
          | yes less ↦ cc (
            bytes_lt_irrefl c,
            e,
            bytes_lt_trans c (get_or vs found []) (get_or vs k []) (sym (comp-lt found le) ∙ t)
                (Strict-get_or vs found k strict less lt),
          )
          | no more ↦
              let same : found ≡ k = omega arith in
              cc (bytes_lt_irrefl c, e, ap comp same, t, comp-lt k lt)
        ]
  ]

  -- A text of the set stands just below the bound.
  index-found : (k : ℕ) → k < length vs → get_or vs k [] ≡ c → found ≡ k + 1
  index-found k lt e = elim (dec_lt (k + 1) found) [
    | yes less ↦ absurd (not-below k lt e less)
    | no more ↦ elim (dec_lt k found) [
      | yes less ↦ omega arith
      | no more' ↦ absurd (not-above k lt e (omega arith))
    ]
  ]

  does_match-found : does_match s c ≡ (
      if found == 0 then false else bytes_eq c (item_value s (get_or s.items (found - 1) no_item)))
  unfolding does_match found comp
  does_match-found = refl

  -- The search accepts what is in the set, and nothing else.
  pub does_match-contains : does_match s c ≡ contains c vs
  does_match-contains = does_match-found ∙ Bool-ext _ _ sound complete
    where
      sound :
          (if found == 0
              then false
              else bytes_eq c (item_value s (get_or s.items (found - 1) no_item)))
            ≡ true
          → contains c vs ≡ true
      sound t =
          let pos : 0 < found = ground arith in
          let lt : found - 1 < length vs = omega (arith, found-IsBound.2) in
          let hit : bytes_eq c (item_value s (get_or s.items (found - 1) no_item)) ≡ true =
            ground arith in
          rw (bytes_eq→eq _ _ hit, value-at (found - 1) lt) (index→contains vs (found - 1) lt)

      complete :
          contains c vs ≡ true
          → (if found == 0
              then false
              else bytes_eq c (item_value s (get_or s.items (found - 1) no_item)))
            ≡ true
      complete t =
          let (k, lt, e) = contains→index c vs t in
          let f : found ≡ k + 1 = index-found k lt e in
          let p : k + 1 - 1 ≡ k = omega arith in
          let z : (k + 1 == 0) ≡ false = ground arith in
          rw (f, p, z, value-at k lt, e) (bytes_eq_refl c)

module _ {V : Type 0} (json : Json V) (hex : Hex) where
  -- A set that was constructed from a JSON array accepts a text exactly when the text is among
  -- the array's decoded items: sorting, the removal of repeats, the 16-bit offsets, the 8-bit
  -- sizes and the first-byte shortcut of the search change nothing.
  pub does_match-filter_set_bytes :
      (v : V) (hex_decode : Bool) (min_size max_size : ℕ) (s : FilterSetBytes) (elems : List V)
      (arr : List Bytes)
      → filter_set_bytes json hex v hex_decode min_size max_size ≡ ok s
      → json.get_array v ≡ some elems
      → collect_items json hex hex_decode min_size max_size elems ≡ ok arr
      → (candidate : Bytes) → does_match s candidate ≡ contains candidate arr
  does_match-filter_set_bytes v b lo hi s elems arr made got collected c =
      let (elems', arr', got', collected', stands) =
        filter_set_bytes-Stands json hex v b lo hi s made in
      let same_elems : elems' ≡ elems = cc (got, got') in
      let same : arr' ≡ arr = cc (same_elems, collected, collected') in
      does_match-contains s (dedup none (sort arr')) stands
        (dedup-sort-Strict (sort arr') (sort-Sorted arr')) c
      ∙ contains-dedup-none c (sort arr')
      ∙ contains-sort c arr'
      ∙ ap (contains c) same
