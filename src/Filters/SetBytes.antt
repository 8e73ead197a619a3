-- ===== src/Filters/SetBytes.antt =====
-- FilterSetBytes of src/filters.h: a sorted set of byte strings in one buffer.
-- JSON values (taocpp json) and hex decoding (golpe) are parameters.
pub mod Order
pub mod Construct
pub mod Search
use strfry.Prelude.{
  ℕ, zero, suc, ◌+◌, ◌-◌, ◌/◌, ◌%◌, Bool, true, false, not, ◌&&◌, Option, none, some, List, [], ◌∷◌,
  ◌++◌, ltb, ◌==◌, if◌then◌else◌, length, get_elem?, get_or, herr, json_type, Result, ok, err,
  ◌>>=◌, ◌>>◌, throw_if, or_throw,
}
use strfry.Prelude.Bytes.{Bytes, bytes_eq, bytes_lt, substr}
use strfry.External.{Json, Hex}

abbrev pub max_indexed_tag_val_size : ℕ
max_indexed_tag_val_size = 255

pub record Item : Type 0 where
  pub offset : ℕ
  pub size : ℕ
  pub first_byte : ℕ

pub record FilterSetBytes : Type 0 where
  pub items : List Item
  pub buf : Bytes

abbrev pub empty_set : FilterSetBytes
empty_set = record { items = []; buf = [] }

-- std::sort of byte strings.
unfoldable pub insert_sorted : Bytes → List Bytes → List Bytes
insert_sorted x [] = x ∷ []
insert_sorted x (y ∷ ys) = if bytes_lt y x then y ∷ insert_sorted x ys else x ∷ y ∷ ys

unfoldable pub sort : List Bytes → List Bytes
sort [] = []
sort (x ∷ xs) = insert_sorted x (sort xs)

-- item[0], which is '\0' for the empty string.
abbrev pub first_or_zero : Bytes → ℕ
first_or_zero [] = 0
first_or_zero (c ∷ s) = c

-- One round of the second loop: `prev` is arr[i - 1].
unfoldable pub add_item : Bytes → FilterSetBytes → FilterSetBytes
add_item item s = record {
  items =
      s.items
      ++ record {
        offset = length s.buf % 65536;
        size = length item % 256;
        first_byte = first_or_zero item;
      }
        ∷ [];
  buf = s.buf ++ item;
}

unfoldable pub same_as : Option Bytes → Bytes → Bool
same_as none x = false
same_as (some p) x = bytes_eq x p

unfoldable pub add_items : Option Bytes → List Bytes → FilterSetBytes → FilterSetBytes
add_items prev [] s = s
add_items prev (x ∷ xs) s = add_items (some x) xs (if same_as prev x then s else add_item x s)

module _ {V : Type 0} (json : Json V) (hex : Hex) where
  unfoldable pub decode_item : Bool → V → Result Bytes
  decode_item hex_decode i = do
    s ← or_throw (json.get_string i) json_type
    if hex_decode then or_throw (hex.from_hex s) (herr "from_hex: unexpected character") else ok s

  -- The first loop.
  unfoldable pub collect_items : Bool → ℕ → ℕ → List V → Result (List Bytes)
  collect_items hex_decode min_size max_size [] = ok []
  collect_items hex_decode min_size max_size (i ∷ is) = do
    s ← decode_item hex_decode i
    throw_if (ltb (length s) min_size) (herr "filter item too small")
    throw_if (ltb max_size (length s)) (herr "filter item too large")
    rest ← collect_items hex_decode min_size max_size is
    ok (s ∷ rest)

  -- The constructor.
  unfoldable pub filter_set_bytes : V → Bool → ℕ → ℕ → Result FilterSetBytes
  filter_set_bytes arr_hex hex_decode min_size max_size = do
    throw_if (ltb max_indexed_tag_val_size max_size)
        (herr "maxSize bigger than max indexed tag size")
    elems ← or_throw (json.get_array arr_hex) json_type
    arr ← collect_items hex_decode min_size max_size elems
    let s = add_items none (sort arr) empty_set
    throw_if (ltb 65535 (length s.buf)) (herr "total filter items too large")
    ok s

unfoldable pub size : FilterSetBytes → ℕ
size s = length s.items

-- The bytes that an item stands for.
abbrev pub item_value : FilterSetBytes → Item → Bytes
item_value s item = substr s.buf item.offset item.size

unfoldable pub at : FilterSetBytes → ℕ → Result Bytes
at s n = elim (get_elem? s.items n) [
  | none ↦ err (herr "FilterSetBytes access out of bounds")
  | some item ↦ ok (item_value s item)
]

abbrev no_item : Item
no_item = record { offset = 0; size = 0; first_byte = 0 }

-- The comparison of the search: the first bytes decide where both are there and differ.
unfoldable pub before : FilterSetBytes → Bytes → Item → Bool
before s [] item = bytes_lt [] (item_value s item)
before s (c ∷ cs) item =
    if not (item.size == 0) && not (c == item.first_byte)
    then ltb c item.first_byte
    else bytes_lt (c ∷ cs) (item_value s item)

-- The loop `while (count > 0)`; `comp` is the comparison with the item at an index.
unfoldable pub upper_bound : (ℕ → Bool) → ℕ → ℕ → ℕ → ℕ
upper_bound comp zero first count = first
upper_bound comp (suc f) first zero = first
upper_bound comp (suc f) first (suc c) =
    let count = suc c in
    let step = count / 2 in
    let curr = first + step in
    elim (comp curr) [
      | false ↦ upper_bound comp f (curr + 1) (count - (step + 1))
      | true ↦ upper_bound comp f first step
    ]

unfoldable pub does_match : FilterSetBytes → Bytes → Bool
does_match s candidate =
    let n = length s.items in
    let first = upper_bound (λ i. before s candidate (get_or s.items i no_item)) n 0 n in
    if first == 0
    then false
    else bytes_eq candidate (item_value s (get_or s.items (first - 1) no_item))
