-- ===== src/Prelude/Distinct.antt =====
-- Membership and distinctness in lists, as types that compute.
use mathlib.Core.Path.{◌≡◌, refl, ap, subst, sym}
use mathlib.Core.Logic.{◌⊎◌, inl, inr}
use mathlib.Core.List.{List, [], ◌∷◌, ◌++◌, map}

module _ {A : Type 0} where
  abbrev pub InList : A → List A → Type 0
  InList x [] = ⊥
  InList x (y ∷ ys) = (x ≡ y) ⊎ InList x ys

  abbrev pub Distinct : List A → Type 0
  Distinct [] = Unit
  Distinct (x ∷ xs) = ¬ InList x xs × Distinct xs

  pub InList-append : (x : A) (xs ys : List A) → InList x (xs ++ ys) → InList x xs ⊎ InList x ys
  InList-append x [] ys h = inr h
  InList-append x (y ∷ xs) ys (inl e) = inl (inl e)
  InList-append x (y ∷ xs) ys (inr h) = elim (InList-append x xs ys h) [
    | inl a ↦ inl (inr a)
    | inr b ↦ inr b
  ]

  pub InList-left : (x : A) (xs ys : List A) → InList x xs → InList x (xs ++ ys)
  InList-left x [] ys h = absurd h
  InList-left x (y ∷ xs) ys (inl e) = inl e
  InList-left x (y ∷ xs) ys (inr h) = inr (InList-left x xs ys h)

  pub InList-right : (x : A) (xs ys : List A) → InList x ys → InList x (xs ++ ys)
  InList-right x [] ys h = h
  InList-right x (y ∷ xs) ys h = inr (InList-right x xs ys h)

  pub append-Distinct :
      (xs ys : List A)
      → Distinct xs
      → Distinct ys
      → ((x : A) → InList x xs → ¬ InList x ys)
      → Distinct (xs ++ ys)
  append-Distinct [] ys d d' apart = d'
  append-Distinct (x ∷ xs) ys d d' apart = (
    (λ h. elim (InList-append x xs ys h) [ inl a ↦ d.0 a | inr b ↦ apart x (inl refl) b ]),
    append-Distinct xs ys d.1 d' (λ y a. apart y (inr a)),
  )

module _ {A B : Type 0} (f : A → B) where
  pub InList-map : (x : A) (xs : List A) → InList x xs → InList (f x) (map f xs)
  InList-map x [] h = absurd h
  InList-map x (y ∷ xs) (inl e) = inl (ap f e)
  InList-map x (y ∷ xs) (inr h) = inr (InList-map x xs h)

  pub InList-unmap : (y : B) (xs : List A) → InList y (map f xs) → (x : A) × InList x xs × (y ≡ f x)
  InList-unmap y [] h = absurd h
  InList-unmap y (x ∷ xs) (inl e) = (x, inl refl, e)
  InList-unmap y (x ∷ xs) (inr h) = let (z, a, e) = InList-unmap y xs h in (z, inr a, e)

  pub map-Distinct :
      (xs : List A) → ((a b : A) → f a ≡ f b → a ≡ b) → Distinct xs → Distinct (map f xs)
  map-Distinct [] inj d = tt
  map-Distinct (x ∷ xs) inj d = (
    (λ h.
        (let (z, a, e) = InList-unmap (f x) xs h in
          d.0 (subst (λ q. InList q xs) (sym (inj x z e)) a))),
    map-Distinct xs inj d.1,
  )
