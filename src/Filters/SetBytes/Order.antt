-- ===== src/Filters/SetBytes/Order.antt =====
-- The sorted arrays of src/filters.h: sorting, removal of repeats, and membership.
use strfry.Prelude.{
  ◌≡◌, refl, ap, ◌∙◌, inl, inr, true, false, ◌||◌, Option, none, some, List, [], ◌∷◌, arith,
  if◌then◌else◌, Bool-cases, All, All-map,
}
use strfry.Prelude.Bytes.{
  Bytes, bytes_eq, bytes_lt, contains, bytes_eq_refl, bytes_eq→eq, bytes_lt_irrefl, bytes_lt_trans,
  bytes_lt_total,
}
use strfry.Filters.SetBytes.{insert_sorted, sort, same_as}

-- No later text is smaller.
abbrev pub Sorted : List Bytes → Type 0
Sorted [] = Unit
Sorted (x ∷ xs) = All (λ y. bytes_lt y x ≡ false) xs × Sorted xs

-- Every later text is larger.
abbrev pub Strict : List Bytes → Type 0
Strict [] = Unit
Strict (x ∷ xs) = All (λ y. bytes_lt x y ≡ true) xs × Strict xs

-- The texts that are not equal to the one before them.
unfoldable pub dedup : Option Bytes → List Bytes → List Bytes
dedup prev [] = []
dedup prev (x ∷ xs) = if same_as prev x then dedup (some x) xs else x ∷ dedup (some x) xs

bytes_lt_asymm : (x y : Bytes) → bytes_lt x y ≡ true → bytes_lt y x ≡ false
bytes_lt_asymm x y h = ground (arith, bytes_lt_trans x y x h, bytes_lt_irrefl x)

-- z ≥ y and y ≥ x give z ≥ x.
not-bytes_lt_trans :
    (x y z : Bytes) → bytes_lt z y ≡ false → bytes_lt y x ≡ false → bytes_lt z x ≡ false
not-bytes_lt_trans x y z h k = elim (Bool-cases (bytes_lt z x)) [
  | inr e ↦ e
  | inl zx ↦ elim (bytes_lt_total y z) [
    | inl yz ↦ cc (bytes_lt_trans y z x yz zx)
    | inr (inl e) ↦ cc
    | inr (inr zy) ↦ cc
  ]
]

All-insert_sorted :
    (P : Bytes → Type 0) (x : Bytes) (ys : List Bytes) → P x → All P ys → All P (insert_sorted x ys)
unfolding insert_sorted
All-insert_sorted P x [] px h = (px, tt)
All-insert_sorted P x (y ∷ ys) px h = elim (Bool-cases (bytes_lt y x)) [
  | inl e ↦ rw e (h.0, All-insert_sorted P x ys px h.1)
  | inr e ↦ rw e (px, h)
]

insert_sorted-Sorted : (x : Bytes) (ys : List Bytes) → Sorted ys → Sorted (insert_sorted x ys)
unfolding insert_sorted
insert_sorted-Sorted x [] h = (tt, tt)
insert_sorted-Sorted x (y ∷ ys) h = elim (Bool-cases (bytes_lt y x)) [
  | inl e ↦ rw e (
    All-insert_sorted (λ z. bytes_lt z y ≡ false) x ys (bytes_lt_asymm y x e) h.0,
    insert_sorted-Sorted x ys h.1,
  )
  | inr e ↦ rw e (
    (
      e,
      All-map (λ z. bytes_lt z y ≡ false) (λ z. bytes_lt z x ≡ false)
          (λ z zy. not-bytes_lt_trans x y z zy e) ys h.0,
    ),
    h,
  )
]

pub sort-Sorted : (xs : List Bytes) → Sorted (sort xs)
unfolding sort
sort-Sorted [] = tt
sort-Sorted (x ∷ xs) = insert_sorted-Sorted x (sort xs) (sort-Sorted xs)

contains-insert_sorted :
    (c x : Bytes) (ys : List Bytes)
    → contains c (insert_sorted x ys) ≡ (bytes_eq c x || contains c ys)
unfolding insert_sorted contains
contains-insert_sorted c x [] = refl
contains-insert_sorted c x (y ∷ ys) = ground (arith, contains-insert_sorted c x ys)

pub contains-sort : (c : Bytes) (xs : List Bytes) → contains c (sort xs) ≡ contains c xs
unfolding sort contains
contains-sort c [] = refl
contains-sort c (x ∷ xs) =
    contains-insert_sorted c x (sort xs) ∙ ap (λ b. bytes_eq c x || b) (contains-sort c xs)

-- After a smaller or equal text, what is left of a sorted list is strictly above that text.
dedup-Strict :
    (p : Bytes) (xs : List Bytes)
    → All (λ z. bytes_lt z p ≡ false) xs
    → Sorted xs
    → All (λ z. bytes_lt p z ≡ true) (dedup (some p) xs) × Strict (dedup (some p) xs)
unfolding dedup same_as
dedup-Strict p [] above s = (tt, tt)
dedup-Strict p (x ∷ xs) above s =
    let (up, strict) = dedup-Strict x xs s.0 s.1 in
    elim (bytes_lt_total p x) [
      | inl px ↦
          let ne : bytes_eq x p ≡ false = ground (arith, bytes_eq→eq x p, bytes_lt_irrefl x) in
          rw ne (
            (
              px,
              All-map (λ z. bytes_lt x z ≡ true) (λ z. bytes_lt p z ≡ true)
                  (λ z xz. bytes_lt_trans p x z px xz) _ up,
            ),
            (up, strict),
          )
      | inr (inl e) ↦ rw (← e, bytes_eq_refl p) (rw (← e) at up, rw (← e) at strict)
      | inr (inr xp) ↦ cc
    ]

pub dedup-sort-Strict : (xs : List Bytes) → Sorted xs → Strict (dedup none xs)
unfolding dedup same_as
dedup-sort-Strict [] s = tt
dedup-sort-Strict (x ∷ xs) s = dedup-Strict x xs s.0 s.1

contains-dedup :
    (c p : Bytes) (xs : List Bytes)
    → (bytes_eq c p || contains c (dedup (some p) xs)) ≡ (bytes_eq c p || contains c xs)
unfolding dedup same_as contains
contains-dedup c p [] = refl
contains-dedup c p (x ∷ xs) = ground (arith, contains-dedup c x xs, bytes_eq→eq x p)

pub contains-dedup-none : (c : Bytes) (xs : List Bytes) → contains c (dedup none xs) ≡ contains c xs
unfolding dedup same_as
contains-dedup-none c [] = refl
contains-dedup-none c (x ∷ xs) = unfold contains in contains-dedup c x xs

pub dedup-All :
    (P : Bytes → Type 0) (p : Option Bytes) (xs : List Bytes) → All P xs → All P (dedup p xs)
unfolding dedup
dedup-All P p [] h = tt
dedup-All P p (x ∷ xs) h = elim (Bool-cases (same_as p x)) [
  | inl e ↦ rw e (dedup-All P (some x) xs h.1)
  | inr e ↦ rw e (h.0, dedup-All P (some x) xs h.1)
]

pub sort-All : (P : Bytes → Type 0) (xs : List Bytes) → All P xs → All P (sort xs)
unfolding sort
sort-All P [] h = tt
sort-All P (x ∷ xs) h = All-insert_sorted P x (sort xs) h.0 (sort-All P xs h.1)
