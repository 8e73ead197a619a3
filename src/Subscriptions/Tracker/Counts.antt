-- ===== src/Subscriptions/Tracker/Counts.antt =====
-- The reference counts of src/EphemeralSubTracker.h.
use strfry.Prelude.{
  ℕ, ◌+◌, ◌-◌, ◌%◌, ◌<◌, ◌≡◌, refl, subst, inl, inr, true, false, ◌||◌, List, [], ◌∷◌, arith, ltb,
  ◌==◌, if◌then◌else◌, Bool-cases, u64_mod, max_u64,
}
use strfry.Subscriptions.Tracker.{has_count, increment, decrement}

unfoldable pub refcount : ℕ → List (ℕ × ℕ) → ℕ
refcount k [] = 0
refcount k ((j, n) ∷ m) = if j == k then n else refcount k m

-- Every kind once, with a count over 0 that fits 64 bits.
abbrev pub Counts : List (ℕ × ℕ) → Type 0
Counts [] = Unit
Counts ((j, n) ∷ m) = (0 < n) × (n < u64_mod) × (has_count j m ≡ false) × Counts m

pub has_count-refcount :
    (k : ℕ) (m : List (ℕ × ℕ)) → Counts m → has_count k m ≡ ltb 0 (refcount k m)
unfolding has_count refcount
has_count-refcount k [] c = refl
has_count-refcount k ((j, n) ∷ m) c = let rest = has_count-refcount k m c.3 in ground arith

has_count-increment :
    (k j : ℕ) (m : List (ℕ × ℕ)) → has_count k (increment j m) ≡ (j == k || has_count k m)
unfolding has_count increment
has_count-increment k j [] = ground arith
has_count-increment k j ((i, n) ∷ m) = let rest = has_count-increment k j m in ground arith

pub refcount-increment :
    (k j : ℕ) (m : List (ℕ × ℕ))
    → refcount j m + 1 < u64_mod
    → refcount k (increment j m) ≡ (if j == k then refcount k m + 1 else refcount k m)
unfolding refcount increment
refcount-increment k j [] h = ground arith
refcount-increment k j ((i, n) ∷ m) h = elim (Bool-cases (i == j)) [
  | inl y ↦ rw y (ground arith)
  | inr x ↦ let rest = refcount-increment k j m (ground arith) in rw x (ground arith)
]

pub increment-Counts :
    (j : ℕ) (m : List (ℕ × ℕ)) → refcount j m + 1 < u64_mod → Counts m → Counts (increment j m)
unfolding refcount increment
increment-Counts j [] h c = (omega arith, omega arith, (unfold has_count in refl), tt)
increment-Counts j ((i, n) ∷ m) h c = elim (Bool-cases (i == j)) [
  | inl y ↦
      let e : (n + 1) % u64_mod ≡ n + 1 = ground arith in
      rw (y, e) (omega arith, ground arith, c.2, c.3)
  | inr x ↦
      let rest = increment-Counts j m (ground arith) c.3 in
      let apart : has_count i (increment j m) ≡ false =
        (let e = has_count-increment i j m in let q = c.2 in ground arith) in
      rw x (c.0, c.1, apart, rest)
]

has_count-decrement :
    (k j : ℕ) (m : List (ℕ × ℕ)) → has_count k m ≡ false → has_count k (decrement j m) ≡ false
unfolding has_count decrement
has_count-decrement k j [] h = refl
has_count-decrement k j ((i, n) ∷ m) h =
    let rest = has_count-decrement k j m (ground arith) in ground arith

absent-refcount : (k : ℕ) (m : List (ℕ × ℕ)) → has_count k m ≡ false → refcount k m ≡ 0
unfolding has_count refcount
absent-refcount k [] h = refl
absent-refcount k ((i, n) ∷ m) h = ground (arith, absent-refcount k m)

less-one : (n : ℕ) → 0 < n → n < u64_mod → (n + max_u64) % u64_mod ≡ n - 1
less-one n p s = omega arith

last-one :
    (k j i n : ℕ) (m : List (ℕ × ℕ))
    → (i == j) ≡ true
    → 0 < n
    → ((i == k) ≡ true → refcount k m ≡ 0)
    → refcount k (if n - 1 == 0 then m else (i, n - 1) ∷ m)
      ≡ (if j == k then refcount k ((i, n) ∷ m) - 1 else refcount k ((i, n) ∷ m))
unfolding refcount
last-one k j i n m y p gone = elim (Bool-cases (n - 1 == 0)) [
  | inl z ↦ elim (Bool-cases (i == k)) [
    | inl w ↦ let g = gone w in rw z (ground arith)
    | inr w ↦ rw z (ground arith)
  ]
  | inr z ↦ rw z (ground arith)
]

pub refcount-decrement :
    (k j : ℕ) (m : List (ℕ × ℕ))
    → Counts m
    → refcount k (decrement j m) ≡ (if j == k then refcount k m - 1 else refcount k m)
unfolding refcount decrement
refcount-decrement k j [] c = ground arith
refcount-decrement k j ((i, n) ∷ m) c = elim (Bool-cases (i == j)) [
  | inl y ↦
      let gone : (i == k) ≡ true → refcount k m ≡ 0 = λ w.
        (let same : i ≡ k = ground arith in
          subst (λ (q : ℕ). refcount q m ≡ 0) same (absent-refcount i m c.2)) in
      rw (y, less-one n c.0 c.1) (last-one k j i n m y c.0 gone)
  | inr x ↦ let rest = refcount-decrement k j m c.3 in rw x (ground arith)
]

pub decrement-Counts : (j : ℕ) (m : List (ℕ × ℕ)) → Counts m → Counts (decrement j m)
unfolding decrement
decrement-Counts j [] c = tt
decrement-Counts j ((i, n) ∷ m) c = elim (Bool-cases (i == j)) [
  | inl y ↦
      rw (y, less-one n c.0 c.1)
        (elim (Bool-cases (n - 1 == 0)) [
          | inl z ↦ rw z c.3
          | inr z ↦ rw z (ground arith, ground arith, c.2, c.3)
        ])
  | inr x ↦ rw x (c.0, c.1, has_count-decrement i j m c.2, decrement-Counts j m c.3)
]
