-- ===== src/HashMap.antt =====
-- The hash maps of the standard library and of parallel_hashmap, as association lists: find,
-- try_emplace, a change of the value that a key has, and erase. A key stands in the list at most once.
use strfry.Prelude.{
  ℕ, suc, ◌≤◌, ◌≡◌, refl, sym, ap, subst, ◌∙◌, inl, inr, Bool, true, false, Option, none, some,
  List, [], ◌∷◌, arith, ◌==◌, if◌then◌else◌, ==_iff, Bool-cases, Option-cases, if-cases, length,
  All,
}
use strfry.Prelude.Bytes.{Bytes, bytes_eq, bytes_eq_refl, bytes_eq→eq}

pub record KeyEq (K : Type 0) : Type 0 where
  pub eq : K → K → Bool
  pub eq_self : (a : K) → eq a a ≡ true
  pub eq→path : (a b : K) → eq a b ≡ true → a ≡ b

pub ==_self : (a : ℕ) → (a == a) ≡ true
==_self a = ground arith

abbrev pub nat_keys : KeyEq ℕ
nat_keys = record { eq = λ a b. a == b; eq_self = ==_self; eq→path = λ a b h. (==_iff a b).0 h }

abbrev pub byte_keys : KeyEq Bytes
byte_keys = record { eq = bytes_eq; eq_self = bytes_eq_refl; eq→path = bytes_eq→eq }

abbrev pub map_option {ℓ κ} : {A : Type ℓ} {B : Type κ} → (A → B) → Option A → Option B
map_option f none = none
map_option f (some a) = some (f a)

pub eq_flip : {K : Type 0} (e : KeyEq K) (a b : K) → e.eq a b ≡ false → e.eq b a ≡ false
eq_flip e a b h = elim (Bool-cases (e.eq b a)) [
  | inr n ↦ n
  | inl y ↦ let z : e.eq a b ≡ true = rw (e.eq→path b a y) (e.eq_self a) in cc
]

module _ {K V : Type 0} (e : KeyEq K) where
  unfoldable pub get : K → List (K × V) → Option V
  get k [] = none
  get k ((j, v) ∷ m) = if e.eq k j then some v else get k m

  unfoldable pub emplace : K → V → List (K × V) → List (K × V)
  emplace k v [] = (k, v) ∷ []
  emplace k v ((j, w) ∷ m) = if e.eq k j then (j, w) ∷ m else (j, w) ∷ emplace k v m

  unfoldable pub adjust : K → (V → V) → List (K × V) → List (K × V)
  adjust k g [] = []
  adjust k g ((j, v) ∷ m) = (j, if e.eq k j then g v else v) ∷ adjust k g m

  unfoldable pub erase : K → List (K × V) → List (K × V)
  erase k [] = []
  erase k ((j, v) ∷ m) = let rest = erase k m in if e.eq k j then rest else (j, v) ∷ rest

  abbrev pub Distinct : List (K × V) → Type 0
  Distinct [] = Unit
  Distinct ((j, v) ∷ m) = All (λ (x : K × V). e.eq j x.0 ≡ false) m × Distinct m

  abbrev pub or_value : Option V → V → V
  or_value none v = v
  or_value (some w) v = w

  pub get-emplace_self :
      (k : K) (v : V) (m : List (K × V)) → get k (emplace k v m) ≡ some (or_value (get k m) v)
  unfolding get emplace
  get-emplace_self k v [] = rw (e.eq_self k) refl
  get-emplace_self k v ((j, w) ∷ m) = elim (Bool-cases (e.eq k j)) [
    | inl y ↦ rw (y, y) refl
    | inr n ↦ rw (n, n) (get-emplace_self k v m)
  ]

  pub get-emplace :
      (k : K) (v : V) (j : K) (m : List (K × V))
      → e.eq j k ≡ false
      → get j (emplace k v m) ≡ get j m
  unfolding get emplace
  get-emplace k v j [] h = rw h refl
  get-emplace k v j ((l, w) ∷ m) h = elim (Bool-cases (e.eq k l)) [
    | inl y ↦ rw y refl
    | inr n ↦ rw n (elim (Bool-cases (e.eq j l)) [
      | inl y ↦ rw y refl
      | inr n' ↦ rw n' (get-emplace k v j m h)
    ])
  ]

  pub get-adjust_self :
      (k : K) (g : V → V) (m : List (K × V)) → get k (adjust k g m) ≡ map_option g (get k m)
  unfolding get adjust
  get-adjust_self k g [] = refl
  get-adjust_self k g ((j, w) ∷ m) = elim (Bool-cases (e.eq k j)) [
    | inl y ↦ rw y refl
    | inr n ↦ rw n (get-adjust_self k g m)
  ]

  pub get-adjust :
      (k : K) (g : V → V) (j : K) (m : List (K × V))
      → e.eq j k ≡ false
      → get j (adjust k g m) ≡ get j m
  unfolding get adjust
  get-adjust k g j [] h = refl
  get-adjust k g j ((l, w) ∷ m) h = elim (Bool-cases (e.eq j l)) [
    | inl y ↦
        let other : e.eq k l ≡ false = eq_flip e l k (rw (e.eq→path j l y) at h) in
        rw (y, other) refl
    | inr n ↦ rw n (get-adjust k g j m h)
  ]

  pub get-erase_self : (k : K) (m : List (K × V)) → get k (erase k m) ≡ none
  unfolding get erase
  get-erase_self k [] = refl
  get-erase_self k ((j, w) ∷ m) = elim (Bool-cases (e.eq k j)) [
    | inl y ↦ rw y (get-erase_self k m)
    | inr n ↦ rw (n, n) (get-erase_self k m)
  ]

  pub get-erase : (k j : K) (m : List (K × V)) → e.eq j k ≡ false → get j (erase k m) ≡ get j m
  unfolding get erase
  get-erase k j [] h = refl
  get-erase k j ((l, w) ∷ m) h = elim (Bool-cases (e.eq k l)) [
    | inl y ↦
        let other : e.eq j l ≡ false = rw (e.eq→path k l y) at h in
        rw (y, other) (get-erase k j m h)
    | inr n ↦
        rw n
          (elim (Bool-cases (e.eq j l)) [ inl y ↦ rw y refl | inr n' ↦ rw n' (get-erase k j m h) ])
  ]

  All-emplace :
      (P : K → Type 0) (k : K) (v : V) (m : List (K × V))
      → P k
      → All (λ (x : K × V). P x.0) m
      → All (λ (x : K × V). P x.0) (emplace k v m)
  unfolding emplace
  All-emplace P k v [] p h = (p, tt)
  All-emplace P k v ((j, w) ∷ m) p h =
      if-cases (All (λ (x : K × V). P x.0)) (e.eq k j) _ _ (λ y. h)
        (λ n. (h.0, All-emplace P k v m p h.1))

  All-adjust :
      (P : K → Type 0) (k : K) (g : V → V) (m : List (K × V))
      → All (λ (x : K × V). P x.0) m
      → All (λ (x : K × V). P x.0) (adjust k g m)
  unfolding adjust
  All-adjust P k g [] h = tt
  All-adjust P k g ((j, w) ∷ m) h = (h.0, All-adjust P k g m h.1)

  All-erase :
      (P : K → Type 0) (k : K) (m : List (K × V))
      → All (λ (x : K × V). P x.0) m
      → All (λ (x : K × V). P x.0) (erase k m)
  unfolding erase
  All-erase P k [] h = tt
  All-erase P k ((j, w) ∷ m) h =
      if-cases (All (λ (x : K × V). P x.0)) (e.eq k j) _ _ (λ y. All-erase P k m h.1)
        (λ n. (h.0, All-erase P k m h.1))

  pub emplace-Distinct : (k : K) (v : V) (m : List (K × V)) → Distinct m → Distinct (emplace k v m)
  unfolding emplace
  emplace-Distinct k v [] d = (tt, tt)
  emplace-Distinct k v ((j, w) ∷ m) d =
      if-cases Distinct (e.eq k j) _ _ (λ y. d)
        (λ n. (
          All-emplace (λ x. e.eq j x ≡ false) k v m (eq_flip e k j n) d.0,
          emplace-Distinct k v m d.1,
        ))

  pub adjust-Distinct :
      (k : K) (g : V → V) (m : List (K × V)) → Distinct m → Distinct (adjust k g m)
  unfolding adjust
  adjust-Distinct k g [] d = tt
  adjust-Distinct k g ((j, w) ∷ m) d =
      (All-adjust (λ x. e.eq j x ≡ false) k g m d.0, adjust-Distinct k g m d.1)

  pub erase-Distinct : (k : K) (m : List (K × V)) → Distinct m → Distinct (erase k m)
  unfolding erase
  erase-Distinct k [] d = tt
  erase-Distinct k ((j, w) ∷ m) d =
      if-cases Distinct (e.eq k j) _ _ (λ y. erase-Distinct k m d.1)
        (λ n. (All-erase (λ x. e.eq j x ≡ false) k m d.0, erase-Distinct k m d.1))

module _ {K V : Type 0} (e : KeyEq K) where
  pub get-absent :
      (k : K) (m : List (K × V)) → All (λ (x : K × V). e.eq k x.0 ≡ false) m → get e k m ≡ none
  unfolding get
  get-absent k [] h = refl
  get-absent k ((j, v) ∷ m) h = rw h.0 (get-absent k m h.1)

  pub length-erase : (k : K) (m : List (K × V)) → length (erase e k m) ≤ length m
  unfolding erase
  length-erase k [] = omega arith
  length-erase k ((j, v) ∷ m) = ground (arith, length-erase k m)

  pub length-adjust : (k : K) (g : V → V) (m : List (K × V)) → length (adjust e k g m) ≡ length m
  unfolding adjust
  length-adjust k g [] = refl
  length-adjust k g ((j, v) ∷ m) = ap suc (length-adjust k g m)

  pub length-emplace :
      (k : K) (v : V) (m : List (K × V)) → length (emplace e k v m) ≤ suc (length m)
  unfolding emplace
  length-emplace k v [] = omega arith
  length-emplace k v ((j, w) ∷ m) = ground (arith, length-emplace k v m)

  -- A predicate on the values, where a change of one of them keeps it.
  abbrev pub Values : (V → Type 0) → List (K × V) → Type 0
  Values P m = (k : K) (v : V) → get e k m ≡ some v → P v

  pub adjust-Values :
      (P : V → Type 0) (k : K) (g : V → V) (m : List (K × V))
      → ((v : V) → get e k m ≡ some v → P v → P (g v))
      → Values P m
      → Values P (adjust e k g m)
  adjust-Values P k g m keep h j v got = elim (Bool-cases (e.eq j k)) [
    | inr n ↦ h j v (sym (get-adjust e k g j m n) ∙ got)
    | inl y ↦
        let got_k : get e k (adjust e k g m) ≡ some v =
          subst (λ x. get e x (adjust e k g m) ≡ some v) (e.eq→path j k y) got in
        let changed : map_option g (get e k m) ≡ some v = sym (get-adjust_self e k g m) ∙ got_k in
        elim (Option-cases (get e k m)) [
          | inl absent ↦ let no_one : none ≡ some v = rw absent at changed in absurd (ground arith)
          | inr (w, there) ↦
              let it_is : some (g w) ≡ some v = rw there at changed in
              let g_is : g w ≡ v = cc in subst P g_is (keep w there (h k w there))
        ]
  ]

  pub erase-Values :
      (P : V → Type 0) (k : K) (m : List (K × V)) → Values P m → Values P (erase e k m)
  erase-Values P k m h j v got = elim (Bool-cases (e.eq j k)) [
    | inr n ↦ h j v (sym (get-erase e k j m n) ∙ got)
    | inl y ↦
        let got_k : get e k (erase e k m) ≡ some v =
          subst (λ x. get e x (erase e k m) ≡ some v) (e.eq→path j k y) got in
        let no_one = sym (get-erase_self e k m) ∙ got_k in absurd (ground arith)
  ]

  pub emplace-Values :
      (P : V → Type 0) (k : K) (v : V) (m : List (K × V))
      → P v
      → Values P m
      → Values P (emplace e k v m)
  emplace-Values P k v m p h j w got = elim (Bool-cases (e.eq j k)) [
    | inr n ↦ h j w (sym (get-emplace e k v j m n) ∙ got)
    | inl y ↦
        let got_k : get e k (emplace e k v m) ≡ some w =
          subst (λ x. get e x (emplace e k v m) ≡ some w) (e.eq→path j k y) got in
        let it_is = sym (get-emplace_self e k v m) ∙ got_k in
        elim (Option-cases (get e k m)) [
          | inl absent ↦
              let new : some v ≡ some w = rw absent at it_is in
              let v_is : v ≡ w = cc in subst P v_is p
          | inr (u, there) ↦ let old : some u ≡ some w = rw there at it_is in h k w (there ∙ old)
        ]
  ]

  -- What the rest of a list has, the list has.
  pub get-later :
      (k : K) (v : V) (m : List (K × V)) (j : K) (w : V)
      → Distinct e ((k, v) ∷ m)
      → get e j m ≡ some w
      → get e j ((k, v) ∷ m) ≡ some w
  unfolding get
  get-later k v m j w d got = elim (Bool-cases (e.eq j k)) [
    | inr n ↦ rw n got
    | inl y ↦
        let none_there : get e j m ≡ none =
          subst (λ x. get e x m ≡ none) (sym (e.eq→path j k y)) (get-absent k m d.0) in
        let no_one = sym none_there ∙ got in absurd (ground arith)
  ]
