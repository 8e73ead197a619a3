-- ===== src/Filters/SetBytes/Construct.antt =====
-- What the constructor of FilterSetBytes in src/filters.h leaves in its items and its buffer.
use strfry.Prelude.{
  ℕ, zero, suc, ◌+◌, ◌-◌, ◌%◌, ◌≤◌, ◌≡◌, refl, ap, subst, ◌∙◌, inl, inr, Bool, true, false, Option,
  none, some, List, [], ◌∷◌, ◌++◌, arith, if◌then◌else◌, Bool-cases, Option-cases, length, take,
  drop, length-append, drop-append, All, All-map, ok, Result-cases,
}
use strfry.Prelude.Bytes.{Bytes, substr}
use mathlib.Core.List.{append_assoc, append-nil}
use strfry.External.{Json, Hex}
use strfry.Filters.SetBytes.{
  Item, FilterSetBytes, empty_set, sort, first_or_zero, add_item, same_as, add_items, collect_items,
  filter_set_bytes,
}
use strfry.Filters.SetBytes.Order.{dedup, sort-All}

-- An item stands for a text of the buffer, with its size and its first byte.
abbrev pub Reads : Bytes → Item → Bytes → Type 0
Reads buf i v =
    (i.first_byte ≡ first_or_zero v)
    × (i.size ≡ length v)
    × (substr buf i.offset i.size ≡ v)
    × (i.offset + i.size ≤ length buf)

-- The items stand for the texts of a list, in order.
abbrev pub ReadsAll : Bytes → List Item → List Bytes → Type 0
ReadsAll buf [] [] = Unit
ReadsAll buf (i ∷ is) (v ∷ vs) = Reads buf i v × ReadsAll buf is vs
ReadsAll buf [] (v ∷ vs) = ⊥
ReadsAll buf (i ∷ is) [] = ⊥

drop-append_le : (k : ℕ) (xs ys : Bytes) → k ≤ length xs → drop k (xs ++ ys) ≡ drop k xs ++ ys
drop-append_le zero xs ys h = refl
drop-append_le (suc k) [] ys h = absurd (omega arith)
drop-append_le (suc k) (x ∷ xs) ys h = drop-append_le k xs ys (omega arith)

take-append_le : (n : ℕ) (xs ys : Bytes) → n ≤ length xs → take n (xs ++ ys) ≡ take n xs
take-append_le zero xs ys h = refl
take-append_le (suc n) [] ys h = absurd (omega arith)
take-append_le (suc n) (x ∷ xs) ys h = ap (λ l. x ∷ l) (take-append_le n xs ys (omega arith))

length-drop : (k : ℕ) (xs : Bytes) → length (drop k xs) ≡ length xs - k
length-drop zero xs = omega arith
length-drop (suc k) [] = omega arith
length-drop (suc k) (x ∷ xs) = omega (arith, length-drop k xs)

substr-append :
    (xs ys : Bytes) (k n : ℕ) → k + n ≤ length xs → substr (xs ++ ys) k n ≡ substr xs k n
substr-append xs ys k n h =
    rw (drop-append_le k xs ys (omega arith))
      (take-append_le n (drop k xs) ys (omega (arith, length-drop k xs)))

Reads-extend : (buf more : Bytes) (i : Item) (v : Bytes) → Reads buf i v → Reads (buf ++ more) i v
Reads-extend buf more i v (f, n, s, le) =
    (f, n, substr-append buf more i.offset i.size le ∙ s, omega (arith, length-append buf more))

ReadsAll-extend :
    (buf more : Bytes) (is : List Item) (vs : List Bytes)
    → ReadsAll buf is vs
    → ReadsAll (buf ++ more) is vs
ReadsAll-extend buf more [] [] h = tt
ReadsAll-extend buf more (i ∷ is) (v ∷ vs) h =
    (Reads-extend buf more i v h.0, ReadsAll-extend buf more is vs h.1)
ReadsAll-extend buf more [] (v ∷ vs) h = absurd h
ReadsAll-extend buf more (i ∷ is) [] h = absurd h

ReadsAll-snoc :
    (buf : Bytes) (is : List Item) (vs : List Bytes) (i : Item) (v : Bytes)
    → ReadsAll buf is vs
    → Reads buf i v
    → ReadsAll buf (is ++ i ∷ []) (vs ++ v ∷ [])
ReadsAll-snoc buf [] [] i v h r = (r, tt)
ReadsAll-snoc buf (j ∷ is) (w ∷ vs) i v h r = (h.0, ReadsAll-snoc buf is vs i v h.1 r)
ReadsAll-snoc buf [] (w ∷ vs) i v h r = absurd h
ReadsAll-snoc buf (j ∷ is) [] i v h r = absurd h

abbrev pub Stands : FilterSetBytes → List Bytes → Type 0
Stands s vs = ReadsAll s.buf s.items vs

add_item-Stands :
    (x : Bytes) (s : FilterSetBytes) (vs : List Bytes)
    → length x ≤ 255
    → length s.buf ≤ 65535
    → Stands s vs
    → Stands (add_item x s) (vs ++ x ∷ [])
unfolding add_item
add_item-Stands x s vs short room h =
    let e : length s.buf % 65536 ≡ length s.buf = omega arith in
    let n : length x % 256 ≡ length x = omega arith in
    ReadsAll-snoc (s.buf ++ x) s.items vs _ x (ReadsAll-extend s.buf x s.items vs h)
      (refl, n, rw (e, n, drop-append s.buf x) (take_all x), omega (arith, length-append s.buf x))
  where
    take_all : (y : Bytes) → take (length y) y ≡ y
    take_all [] = refl
    take_all (c ∷ y) = ap (λ l. c ∷ l) (take_all y)

module _ (p : Option Bytes) (x : Bytes) (xs : List Bytes) (s : FilterSetBytes) where
  add_items-same : same_as p x ≡ true → add_items p (x ∷ xs) s ≡ add_items (some x) xs s
  unfolding add_items
  add_items-same e = ap (λ (b : Bool). add_items (some x) xs (if b then s else add_item x s)) e

  add_items-other :
      same_as p x ≡ false → add_items p (x ∷ xs) s ≡ add_items (some x) xs (add_item x s)
  unfolding add_items
  add_items-other e = ap (λ (b : Bool). add_items (some x) xs (if b then s else add_item x s)) e

length-add_item :
    (x : Bytes) (s : FilterSetBytes) → length (add_item x s).buf ≡ length s.buf + length x
unfolding add_item
length-add_item x s = length-append s.buf x

add_items_grows :
    (p : Option Bytes) (xs : List Bytes) (s : FilterSetBytes)
    → length s.buf ≤ length (add_items p xs s).buf
add_items_grows p [] s = unfold add_items in omega arith
add_items_grows p (x ∷ xs) s = elim (Bool-cases (same_as p x)) [
  | inl e ↦ rw (add_items-same p x xs s e) (add_items_grows (some x) xs s)
  | inr e ↦
      rw (add_items-other p x xs s e)
        (omega (arith, add_items_grows (some x) xs (add_item x s), length-add_item x s))
]

-- The second loop of the constructor leaves the texts without repeats, if the buffer stays short.
add_items-Stands :
    (p : Option Bytes) (xs : List Bytes) (s : FilterSetBytes) (vs : List Bytes)
    → All (λ x. length x ≤ 255) xs
    → length (add_items p xs s).buf ≤ 65535
    → Stands s vs
    → Stands (add_items p xs s) (vs ++ dedup p xs)
unfolding dedup
add_items-Stands p [] s vs short room h = unfold add_items in rw (append-nil vs) h
add_items-Stands p (x ∷ xs) s vs short room h = elim (Bool-cases (same_as p x)) [
  | inl e ↦
      let eq = add_items-same p x xs s e in
      rw (eq, e) (add_items-Stands (some x) xs s vs short.1 (rw eq at room) h)
  | inr e ↦
      let eq = add_items-other p x xs s e in
      let room' : length (add_items (some x) xs (add_item x s)).buf ≤ 65535 = rw eq at room in
      let le : length s.buf ≤ 65535 =
        omega (arith, add_items_grows (some x) xs (add_item x s), length-add_item x s) in
      rw (eq, e, ← append_assoc vs (x ∷ []) (dedup (some x) xs))
        (add_items-Stands (some x) xs (add_item x s) (vs ++ x ∷ []) short.1 room'
          (add_item-Stands x s vs short.0 le h))
]

module _ {V : Type 0} (json : Json V) (hex : Hex) where
  -- Every collected item has a length between the bounds.
  pub collect_items_bounds :
      (b : Bool) (lo hi : ℕ) (is : List V) (xs : List Bytes)
      → collect_items json hex b lo hi is ≡ ok xs
      → All (λ x. (lo ≤ length x) × (length x ≤ hi)) xs
  unfolding collect_items
  collect_items_bounds b lo hi [] [] h = tt
  collect_items_bounds b lo hi [] (x ∷ xs) h = cc
  collect_items_bounds b lo hi (i ∷ is) [] h = ground arith
  collect_items_bounds b lo hi (i ∷ is) (x ∷ xs) h =
      ground (arith, collect_items_bounds b lo hi is xs)

  -- A constructed set was given an array, whose items were decoded, and stands for these items,
  -- sorted and without repeats.
  pub filter_set_bytes-Stands :
      (v : V) (b : Bool) (lo hi : ℕ) (s : FilterSetBytes)
      → filter_set_bytes json hex v b lo hi ≡ ok s
      → (elems : List V) × (arr : List Bytes) × (json.get_array v ≡ some elems)
        × (collect_items json hex b lo hi elems ≡ ok arr)
        × Stands s (dedup none (sort arr))
  unfolding filter_set_bytes
  filter_set_bytes-Stands v b lo hi s h = elim (Option-cases (json.get_array v)) [
    | inl e ↦ absurd (ground arith)
    | inr (elems, e) ↦ elim (Result-cases (collect_items json hex b lo hi elems)) [
      | inr (x, bad) ↦ absurd (ground arith)
      | inl (arr, got) ↦
          let (same, room, le) : (add_items none (sort arr) empty_set ≡ s)
              × (length (add_items none (sort arr) empty_set).buf ≤ 65535)
              × (hi ≤ 255) =
            ground arith in
          (
            elems,
            arr,
            e,
            got,
            subst (λ t. Stands t (dedup none (sort arr))) same
                (add_items-Stands none (sort arr) empty_set []
                  (sort-All (λ x. length x ≤ 255) arr
                    (All-map (λ x. (lo ≤ length x) × (length x ≤ hi)) (λ x. length x ≤ 255)
                      (λ x p. omega arith) arr (collect_items_bounds b lo hi elems arr got)))
                  room tt),
          )
    ]
  ]
