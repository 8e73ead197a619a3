-- ===== src/Subscriptions/SubId.antt =====
-- SubId of src/Subscription.h: a subscription's name, stored behind its length byte.
use strfry.Prelude.{
  ℕ, ◌%◌, ◌≤◌, ◌≡◌, refl, ap, Bool, false, ◌||◌, [], ◌∷◌, arith, ltb, leb, ◌==◌, length, take, any,
  herr, Result, ok, err, ◌>>◌, throw_if, ◌<◌, ◌≢◌, ◌⊎◌, inl, inr, All, Error, Bool-cases,
}
use strfry.Prelude.Bytes.{Bytes}

abbrev pub max_sub_id_size : ℕ
max_sub_id_size = 64

-- The bytes of `buf` that are set: a length, and the text.
pub record SubId : Type 0 where
  pub buf : Bytes

-- A byte over 127 is a negative char, so that the first test holds of it too.
unfoldable pub bad_char : ℕ → Bool
bad_char c = ltb c 32 || c == 92 || c == 34 || leb 127 c

unfoldable pub sub_id : Bytes → Result SubId
sub_id val = do
  throw_if (length val == 0 || ltb max_sub_id_size (length val))
      (herr "invalid subscription id length")
  throw_if (any bad_char val) (herr "invalid character in subscription id")
  ok (record { buf = (length val % 256) ∷ val })

unfoldable pub sv : SubId → Bytes
sv s = elim s.buf [ [] ↦ [] | n ∷ text ↦ take n text ]

take-all : (xs : Bytes) → take (length xs) xs ≡ xs
take-all [] = refl
take-all (x ∷ xs) = ap (λ ys. x ∷ ys) (take-all xs)

-- Printable ASCII, but no backslash and no double quote.
abbrev pub IsPlain : ℕ → Type 0
IsPlain c = (32 ≤ c) × (c < 127) × (c ≢ b'\\') × (c ≢ b'"')

clean-IsPlain : (val : Bytes) → any bad_char val ≡ false → All IsPlain val
unfolding bad_char
clean-IsPlain [] h = tt
clean-IsPlain (c ∷ val) h =
    let rest = clean-IsPlain val (ground arith) in
    ((ground arith, ground arith, (λ e. ground arith), (λ e. ground arith)), rest)

IsPlain-clean : (val : Bytes) → All IsPlain val → any bad_char val ≡ false
unfolding bad_char
IsPlain-clean [] h = refl
IsPlain-clean (c ∷ val) ((lo, hi, no_backslash, no_quote), h) =
    let rest = IsPlain-clean val h in
    let no_92 : (c == 92) ≡ false = ground arith in
    let no_34 : (c == 34) ≡ false = ground arith in rw (no_92, no_34, rest) (ground arith)

sv-sub_id : (val : Bytes) → length val ≤ 64 → sv (record { buf = (length val % 256) ∷ val }) ≡ val
unfolding sv
sv-sub_id val hi = let e : length val % 256 ≡ length val = omega arith in rw e (take-all val)

-- A name is accepted exactly when it has 1 to 64 bytes, all of them printable ASCII but no
-- backslash and no double quote; the accepted id reads back as the name, and another name is an
-- error.
pub sub_id-sv :
    (val : Bytes)
    → ((1 ≤ length val)
        × (length val ≤ 64)
        × All IsPlain val
        × ((s : SubId) × (sub_id val ≡ ok s) × (sv s ≡ val)))
      ⊎ (¬ ((1 ≤ length val) × (length val ≤ 64) × All IsPlain val)
          × ((e : Error) × (sub_id val ≡ err e)))
unfolding sub_id
sub_id-sv val = elim (Bool-cases (length val == 0 || ltb max_sub_id_size (length val))) [
  | inl bad ↦
      inr ((λ (lo, hi, plain). ground arith), (herr "invalid subscription id length", rw bad refl))
  | inr sized ↦ elim (Bool-cases (any bad_char val)) [
    | inl dirty ↦ inr (
      (λ (lo, hi, plain). let clean = IsPlain-clean val plain in ground arith),
      (herr "invalid character in subscription id", rw (sized, dirty) refl),
    )
    | inr clean ↦
        let hi : length val ≤ 64 = ground arith in
        inl (
          ground arith,
          hi,
          clean-IsPlain val clean,
          (record { buf = (length val % 256) ∷ val }, rw (sized, clean) refl, sv-sub_id val hi),
        )
  ]
]
