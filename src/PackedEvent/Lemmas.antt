-- ===== src/PackedEvent/Lemmas.antt =====
-- Encoded tags and the loop over them.
use strfry.Prelude.{
  ℕ, zero, suc, ◌+◌, ◌%◌, ◌≤◌, ◌≡◌, ap, Bool, true, false, List, [], ◌∷◌, ◌++◌, arith,
  if◌then◌else◌, ge→ltb, length, take, drop, length-append, take-append, drop-append, Result, ok,
  ◌>>=◌,
}
use strfry.Prelude.Bytes.{Bytes}
use strfry.PackedEvent.{tag_loop, add}

abbrev pub Tag : Type 0
Tag = ℕ × Bytes

-- The bytes that `add` appends for one tag, and for a list of tags.
abbrev pub encode_tag : Tag → Bytes
encode_tag (k, v) = k ∷ (length v % 256) ∷ v

unfoldable pub encode_tags : List Tag → Bytes
encode_tags [] = []
encode_tags (t ∷ ts) = encode_tag t ++ encode_tags ts

-- The calls of `add` for a list of tags, in order.
unfoldable pub add_all : Bytes → List Tag → Result Bytes
add_all buf [] = ok buf
add_all buf ((k, v) ∷ ts) = do buf' ← add buf k v; add_all buf' ts

-- A fold over tags that stops where the callback says so.
module _ {S : Type 0} (cb : ℕ → Bytes → S → S × Bool) where
  unfoldable pub fold_tags : List Tag → S → S
  fold_tags [] s = s
  fold_tags ((k, v) ∷ ts) s =
      let (s', go_on) = cb k v s in elim go_on [ true ↦ fold_tags ts s' | false ↦ s' ]

  pub fold_tags-go :
      (k : ℕ) (v : Bytes) (ts : List Tag) (s s' : S)
      → cb k v s ≡ (s', true)
      → fold_tags ((k, v) ∷ ts) s ≡ fold_tags ts s'
  unfolding fold_tags
  fold_tags-go k v ts s s' e =
      ap (λ (p : S × Bool). elim p.1 [ true ↦ fold_tags ts p.0 | false ↦ p.0 ]) e

abbrev pub FitsTag : Tag → Type 0
FitsTag t = length t.1 ≤ 255

pub take-append_eq : {A : Type 0} (n : ℕ) (xs ys : List A) → n ≡ length xs → take n (xs ++ ys) ≡ xs
take-append_eq n xs ys e = rw e (take-append xs ys)

pub drop-append_add :
    {A : Type 0} (k m : ℕ) (xs ys : List A) → k ≡ length xs + m → drop k (xs ++ ys) ≡ drop m ys
drop-append_add k m [] ys e = let e' : k ≡ m = omega arith in rw e'
drop-append_add zero m (x ∷ xs) ys e = absurd (omega arith)
drop-append_add (suc k) m (x ∷ xs) ys e = drop-append_add k m xs ys (omega arith)

module _ {S : Type 0} (cb : ℕ → Bytes → S → S × Bool) where
  -- The loop reads one encoded tag: the callback gets its name and value, and the rest follows.
  pub tag_loop-encode_tag :
      (f k : ℕ) (v rest : Bytes) (s : S)
      → length v ≤ 255
      → tag_loop cb (suc f) (encode_tag (k, v) ++ rest) s
        ≡ (if (cb k v s).1 then tag_loop cb f rest (cb k v s).0 else ok (cb k v s).0)
  unfolding tag_loop
  tag_loop-encode_tag f k v rest s h =
      let e : length v % 256 ≡ length v = omega arith in
      rw (
        e,
        take-append v rest,
        drop-append v rest,
        ge→ltb (length (v ++ rest)) (length v) (omega (arith, length-append v rest)),
      )
