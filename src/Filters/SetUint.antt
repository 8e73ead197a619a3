-- ===== src/Filters/SetUint.antt =====
-- FilterSetUint of src/filters.h: a sorted set of integers.
pub mod Members
use strfry.Prelude.{
  ℕ, Bool, not, ◌&&◌, List, [], ◌∷◌, ltb, ◌==◌, if◌then◌else◌, length, get_elem?, get_or, herr,
  json_type, Result, ok, ◌>>=◌, ◌>>◌, or_throw,
}
use strfry.External.{Json}
use strfry.Filters.SetBytes.{upper_bound}

pub record FilterSetUint : Type 0 where
  pub items : List ℕ

-- std::sort of integers.
unfoldable pub insert_sorted : ℕ → List ℕ → List ℕ
insert_sorted x [] = x ∷ []
insert_sorted x (y ∷ ys) = if ltb y x then y ∷ insert_sorted x ys else x ∷ y ∷ ys

unfoldable pub sort : List ℕ → List ℕ
sort [] = []
sort (x ∷ xs) = insert_sorted x (sort xs)

-- std::unique and the erase behind it: of equal neighbours the first stays.
unfoldable pub unique_after : ℕ → List ℕ → List ℕ
unique_after p [] = []
unique_after p (x ∷ xs) = if x == p then unique_after p xs else x ∷ unique_after x xs

unfoldable pub unique : List ℕ → List ℕ
unfolding unique_after
unique [] = []
unique (x ∷ xs) = x ∷ unique_after x xs

module _ {V : Type 0} (json : Json V) where
  unfoldable pub collect_uints : List V → Result (List ℕ)
  collect_uints [] = ok []
  collect_uints (i ∷ is) = do
    n ← or_throw (json.get_unsigned i) json_type
    rest ← collect_uints is
    ok (n ∷ rest)

  -- The constructor.
  unfoldable pub filter_set_uint : V → Result FilterSetUint
  filter_set_uint arr = do
    elems ← or_throw (json.get_array arr) json_type
    items ← collect_uints elems
    ok (record { items = unique (sort items) })

unfoldable pub size : FilterSetUint → ℕ
size s = length s.items

unfoldable pub at : FilterSetUint → ℕ → Result ℕ
at s n = or_throw (get_elem? s.items n) (herr "FilterSetBytes access out of bounds")

-- std::binary_search: std::lower_bound, and a test of what stands there.
unfoldable pub does_match : FilterSetUint → ℕ → Bool
does_match s candidate =
    let n = length s.items in
    let first = upper_bound (λ i. not (ltb (get_or s.items i 0) candidate)) n 0 n in
    not (first == n) && not (ltb candidate (get_or s.items first 0))
