-- ===== src/Prelude/Results.antt =====
-- Exceptions as values: `herr(...)` and the exceptions of the libraries.
use Prim.Native.Nat.{ℕ}
use Prim.Native.String.{String}
use mathlib.Core.Bool.{Bool, true, false}
use mathlib.Core.List.{List}
use mathlib.Core.Option.{Option, none, some}
use mathlib.Core.Logic.{◌⊎◌, inl, inr}
use mathlib.Core.Path.{◌≡◌, refl, subst}
use strfry.Prelude.Tests.{if◌then◌else◌}

-- The message of an exception, with the value that the source appends to it.
pub data Error : Type 0 where
  herr : String → Error
  herr_num : String → ℕ → Error
  herr_str : String → List ℕ → Error
  -- std::out_of_range of std::string_view::substr, and a read past a view's end.
  out_of_range : Error
  -- What a JSON accessor throws on a value of another type or a missing key.
  json_type : Error
  -- A bounded loop of the model ran out of rounds. Theorems show that the loops over tags, the binary
  -- search and the loops of a cursor never do.
  no_fuel : Error

-- A call that threw, or its value.
pub data Result {ℓ} (A : Type ℓ) : Type ℓ where
  err : Error → Result A
  ok : A → Result A

-- if (b) throw e;
abbrev pub throw_if : Bool → Error → Result (Unit {0})
throw_if true e = err e
throw_if false e = ok tt

abbrev pub or_throw {ℓ} : {A : Type ℓ} → Option A → Error → Result A
or_throw none e = err e
or_throw (some a) e = ok a

infixl 5 ◌>>=◌
abbrev pub ◌>>=◌ {ℓ κ} : {A : Type ℓ} {B : Type κ} → Result A → (A → Result B) → Result B
err thrown >>= next = err thrown
ok value >>= next = next value

infixl 5 ◌>>◌
abbrev pub ◌>>◌ {ℓ} : {C : Type ℓ} → Result (Unit {0}) → Result C → Result C
first >> second = first >>= λ done. second

-- What a successful bind tells of its parts.
pub >>=-eq-ok {ℓ κ} :
    {A : Type ℓ} {B : Type κ} (r : Result A) (next : A → Result B) {result : B}
    → (r >>= next) ≡ ok result
    → (value : A) × (r ≡ ok value) × (next value ≡ ok result)
>>=-eq-ok (err thrown) next h = cc
>>=-eq-ok (ok value) next h = (value, refl, h)

pub Result-cases {ℓ} :
    {A : Type ℓ} (r : Result A) → ((a : A) × (r ≡ ok a)) ⊎ ((e : Error) × (r ≡ err e))
Result-cases (ok a) = inl (a, refl)
Result-cases (err e) = inr (e, refl)

-- Where the first run succeeds, the second one does, with a related value.
abbrev pub Related : {A B : Type 0} → (A → B → Type 0) → Result A → Result B → Type 0
Related R (ok a) (ok b) = R a b
Related R (ok a) (err e) = ⊥
Related R (err e) r = Unit

module _ {A B C D : Type 0} (R : A → B → Type 0) (Q : C → D → Type 0) where
  pub Related-bind :
      (m : Result A) (n : Result B) (f : A → Result C) (g : B → Result D)
      → Related R m n
      → ((a : A) (b : B) → R a b → Related Q (f a) (g b))
      → Related Q (m >>= f) (n >>= g)
  Related-bind (ok a) (ok b) f g h k = k a b h
  Related-bind (ok a) (err e) f g h k = absurd h
  Related-bind (err e) n f g h k = tt

module _ {A B : Type 0} (R : A → B → Type 0) where
  pub Related-if :
      (b : Bool) (x y : Result A) (x' y' : Result B)
      → Related R x x'
      → Related R y y'
      → Related R (if b then x else y) (if b then x' else y')
  Related-if true x y x' y' h k = h
  Related-if false x y x' y' h k = k

pub Related-same : {A : Type 0} (m : Result A) → Related (λ a b. a ≡ b) m m
Related-same (ok a) = refl
Related-same (err e) = tt

pub Related-inv :
    {A B : Type 0} (R : A → B → Type 0) (m : Result A) (n : Result B) (a : A)
    → Related R m n
    → m ≡ ok a
    → (b : B) × (n ≡ ok b) × R a b
Related-inv R (ok a') (ok b) a h e = let e' : a' ≡ a = cc in (b, refl, subst (λ x. R x b) e' h)
Related-inv R (ok a') (err x) a h e = absurd h
Related-inv R (err x) n a h e = cc

-- The same, for a goal that is proved from the parts.
pub >>=-elim :
    {A B : Type 0} {P : Type 0} (m : Result A) (f : A → Result B) {b : B}
    → (m >>= f) ≡ ok b
    → ((a : A) → m ≡ ok a → f a ≡ ok b → P)
    → P
>>=-elim (ok a) f h k = k a refl h
>>=-elim (err e) f h k = cc

-- A run that succeeds does so with a value that has the property.
abbrev pub Ensures : {A : Type 0} → (A → Type 0) → Result A → Type 0
Ensures P (ok a) = P a
Ensures P (err e) = Unit

pub Ensures-bind :
    {A B : Type 0} (P : A → Type 0) (Q : B → Type 0) (m : Result A) (f : A → Result B)
    → Ensures P m
    → ((a : A) → P a → Ensures Q (f a))
    → Ensures Q (m >>= f)
Ensures-bind P Q (ok a) f h k = k a h
Ensures-bind P Q (err e) f h k = tt

pub Ensures-any :
    {A B : Type 0} (Q : B → Type 0) (m : Result A) (f : A → Result B)
    → ((a : A) → Ensures Q (f a))
    → Ensures Q (m >>= f)
Ensures-any Q (ok a) f k = k a
Ensures-any Q (err e) f k = tt

pub Ensures-if :
    {A : Type 0} (P : A → Type 0) (b : Bool) (x y : Result A)
    → Ensures P x
    → Ensures P y
    → Ensures P (if b then x else y)
Ensures-if P true x y h k = h
Ensures-if P false x y h k = k

pub Ensures-intro :
    {A : Type 0} (P : A → Type 0) (m : Result A) → ((a : A) → m ≡ ok a → P a) → Ensures P m
Ensures-intro P (ok a) h = h a refl
Ensures-intro P (err e) h = tt

pub Ensures-inv :
    {A : Type 0} (P : A → Type 0) (m : Result A) (a : A) → Ensures P m → m ≡ ok a → P a
Ensures-inv P (ok b) a h e = let same : b ≡ a = cc in subst P same h
Ensures-inv P (err x) a h e = cc
