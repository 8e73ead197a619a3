-- ===== src/Filters/SetUint/Members.antt =====
-- FilterSetUint::doesMatch of src/filters.h decides membership in the JSON array.
use strfry.Prelude.{
  ℕ, zero, suc, ◌-◌, ◌≤◌, ◌<◌, ◌≡◌, refl, ap, ◌∙◌, inl, inr, Bool, true, false, not, ◌&&◌, ◌||◌,
  some, List, [], ◌∷◌, arith, ltb, ◌==◌, Bool-cases, Bool-ext, length, get_or, All, All-map, ok,
}
use native.Mathlib.Decide.{dec_lt}
use strfry.External.{Json}
use strfry.Filters.SetBytes.{upper_bound}
use strfry.Filters.SetBytes.Search.{IsBound, upper_bound-IsBound}
use strfry.Filters.SetUint.{
  FilterSetUint, insert_sorted, sort, unique, unique_after, collect_uints, filter_set_uint,
  does_match,
}

unfoldable pub member : ℕ → List ℕ → Bool
member c [] = false
member c (x ∷ xs) = c == x || member c xs

abbrev pub Sorted : List ℕ → Type 0
Sorted [] = Unit
Sorted (x ∷ xs) = All (λ y. x ≤ y) xs × Sorted xs

All-insert_sorted :
    (P : ℕ → Type 0) (x : ℕ) (ys : List ℕ) → P x → All P ys → All P (insert_sorted x ys)
unfolding insert_sorted
All-insert_sorted P x [] px h = (px, tt)
All-insert_sorted P x (y ∷ ys) px h = elim (Bool-cases (ltb y x)) [
  | inl e ↦ rw e (h.0, All-insert_sorted P x ys px h.1)
  | inr e ↦ rw e (px, h)
]

insert_sorted-Sorted : (x : ℕ) (ys : List ℕ) → Sorted ys → Sorted (insert_sorted x ys)
unfolding insert_sorted
insert_sorted-Sorted x [] h = (tt, tt)
insert_sorted-Sorted x (y ∷ ys) h = elim (Bool-cases (ltb y x)) [
  | inl e ↦
      let le : y ≤ x = ground arith in
      rw e (All-insert_sorted (λ z. y ≤ z) x ys le h.0, insert_sorted-Sorted x ys h.1)
  | inr e ↦
      let le : x ≤ y = ground arith in
      rw e ((le, All-map (λ z. y ≤ z) (λ z. x ≤ z) (λ z yz. omega arith) ys h.0), h)
]

pub sort-Sorted : (xs : List ℕ) → Sorted (sort xs)
unfolding sort
sort-Sorted [] = tt
sort-Sorted (x ∷ xs) = insert_sorted-Sorted x (sort xs) (sort-Sorted xs)

member-insert_sorted :
    (c x : ℕ) (ys : List ℕ) → member c (insert_sorted x ys) ≡ (c == x || member c ys)
unfolding insert_sorted member
member-insert_sorted c x [] = refl
member-insert_sorted c x (y ∷ ys) = ground (arith, member-insert_sorted c x ys)

member-sort : (c : ℕ) (xs : List ℕ) → member c (sort xs) ≡ member c xs
unfolding sort member
member-sort c [] = refl
member-sort c (x ∷ xs) =
    member-insert_sorted c x (sort xs) ∙ ap (λ b. c == x || b) (member-sort c xs)

pub unique_after-Sorted :
    (p : ℕ) (xs : List ℕ)
    → All (λ y. p ≤ y) xs
    → Sorted xs
    → All (λ y. p < y) (unique_after p xs) × Sorted (unique_after p xs)
unfolding unique_after
unique_after-Sorted p [] h s = (tt, tt)
unique_after-Sorted p (x ∷ xs) h s = elim (Bool-cases (x == p)) [
  | inl e ↦ rw e (unique_after-Sorted p xs h.1 s.1)
  | inr e ↦
      let lt : p < x = ground arith in
      let (up, sorted) = unique_after-Sorted x xs s.0 s.1 in
      rw e (
        (lt, All-map (λ y. x < y) (λ y. p < y) (λ y xy. omega arith) (unique_after x xs) up),
        (All-map (λ y. x < y) (λ y. x ≤ y) (λ y xy. omega arith) (unique_after x xs) up, sorted),
      )
]

pub unique-Sorted : (xs : List ℕ) → Sorted xs → Sorted (unique xs)
unfolding unique
unique-Sorted [] s = tt
unique-Sorted (x ∷ xs) s =
    let (up, sorted) = unique_after-Sorted x xs s.0 s.1 in
    (All-map (λ y. x < y) (λ y. x ≤ y) (λ y xy. omega arith) (unique_after x xs) up, sorted)

member-unique_after :
    (c p : ℕ) (xs : List ℕ) → (c == p || member c (unique_after p xs)) ≡ (c == p || member c xs)
unfolding unique_after member
member-unique_after c p [] = refl
member-unique_after c p (x ∷ xs) =
    ground (arith, member-unique_after c p xs, member-unique_after c x xs)

member-unique : (c : ℕ) (xs : List ℕ) → member c (unique xs) ≡ member c xs
unfolding unique
member-unique c [] = refl
member-unique c (x ∷ xs) = unfold member in member-unique_after c x xs

member→index :
    (c : ℕ) (xs : List ℕ) → member c xs ≡ true → (k : ℕ) × (k < length xs) × (get_or xs k 0 ≡ c)
unfolding member
member→index c [] h = cc
member→index c (x ∷ xs) h = elim (Bool-cases (c == x)) [
  | inl e ↦ (0, omega arith, ground arith)
  | inr ne ↦ let (k, lt, e) = member→index c xs (ground arith) in (suc k, omega arith, e)
]

index→member : (xs : List ℕ) (k : ℕ) → k < length xs → member (get_or xs k 0) xs ≡ true
unfolding member
index→member [] k lt = absurd (omega arith)
index→member (x ∷ xs) zero lt = ground arith
index→member (x ∷ xs) (suc k) lt = ground (arith, index→member xs k)

All-get_or : (P : ℕ → Type 0) (vs : List ℕ) (k : ℕ) → All P vs → k < length vs → P (get_or vs k 0)
All-get_or P [] k h lt = absurd (omega arith)
All-get_or P (v ∷ vs) zero h lt = h.0
All-get_or P (v ∷ vs) (suc k) h lt = All-get_or P vs k h.1 (omega arith)

Sorted-get_or :
    (vs : List ℕ) (i j : ℕ) → Sorted vs → i < j → j < length vs → get_or vs i 0 ≤ get_or vs j 0
Sorted-get_or [] i j s ij lt = absurd (omega arith)
Sorted-get_or (v ∷ vs) i zero s ij lt = absurd (omega arith)
Sorted-get_or (v ∷ vs) zero (suc j) s ij lt = All-get_or (λ y. v ≤ y) vs j s.0 (omega arith)
Sorted-get_or (v ∷ vs) (suc i) (suc j) s ij lt =
    Sorted-get_or vs i j s.1 (omega arith) (omega arith)

module _ (xs : List ℕ) (sorted : Sorted xs) (c : ℕ) where
  found : ℕ
  found = upper_bound (λ i. not (ltb (get_or xs i 0) c)) (length xs) 0 (length xs)

  found-IsBound : IsBound (λ i. not (ltb (get_or xs i 0) c)) (length xs) found
  unfolding found
  found-IsBound =
      upper_bound-IsBound _ (length xs) (length xs) 0 (length xs) (omega arith) (omega arith)
        (inl refl) (inl (omega arith))

  -- An index of the number: the search ends at it or before, at an equal number.
  at-found :
      (k : ℕ) → k < length xs → get_or xs k 0 ≡ c → (found < length xs) × (get_or xs found 0 ≡ c)
  at-found k lt e = elim (dec_lt k found) [
    | yes less ↦ absurd (elim found-IsBound.0 [
      | inl z ↦ omega arith
      | inr t ↦ elim (dec_lt k (found - 1)) [
        | yes under ↦
            let le : found - 1 < length xs = omega (arith, found-IsBound.2) in
            ground (arith, Sorted-get_or xs k (found - 1) sorted under le)
        | no same ↦
            let eq : found - 1 ≡ k = omega arith in ground (arith, ap (λ i. get_or xs i 0) eq)
      ]
    ])
    | no more ↦
        let le : found < length xs = omega arith in
        (
          le,
          elim found-IsBound.1 [
            | inl z ↦ absurd (omega arith)
            | inr t ↦ elim (dec_lt found k) [
              | yes under ↦ ground (arith, Sorted-get_or xs found k sorted under lt)
              | no same ↦ let eq : found ≡ k = omega arith in ap (λ i. get_or xs i 0) eq ∙ e
            ]
          ],
        )
  ]

  pub does_match-member : does_match (record { items = xs }) c ≡ member c xs
  unfolding does_match found
  does_match-member = Bool-ext _ _ sound complete
    where
      sound :
          (not (found == length xs) && not (ltb c (get_or xs found 0))) ≡ true → member c xs ≡ true
      sound t =
          let lt : found < length xs = ground (arith, found-IsBound.2) in
          let e : get_or xs found 0 ≡ c = ground (arith, found-IsBound) in
          rw (← e) (index→member xs found lt)

      complete :
          member c xs ≡ true → (not (found == length xs) && not (ltb c (get_or xs found 0))) ≡ true
      complete t =
          let (k, lt, e) = member→index c xs t in let (lt', e') = at-found k lt e in ground arith

module _ {V : Type 0} (json : Json V) where
  -- A set that was constructed from a JSON array accepts a number exactly when it is one of the
  -- array's numbers.
  pub does_match-filter_set_uint :
      (v : V) (s : FilterSetUint) (elems : List V) (nums : List ℕ)
      → filter_set_uint json v ≡ ok s
      → json.get_array v ≡ some elems
      → collect_uints json elems ≡ ok nums
      → (candidate : ℕ) → does_match s candidate ≡ member candidate nums
  unfolding filter_set_uint
  does_match-filter_set_uint v s elems nums made got collected c =
      let e : record { items = unique (sort nums) } ≡ s = ground arith in
      rw (← e) (
        does_match-member (unique (sort nums)) (unique-Sorted (sort nums) (sort-Sorted nums)) c
        ∙ member-unique c (sort nums)
        ∙ member-sort c nums)
