-- ===== src/Tests/Values.antt =====
-- JSON values, hexadecimal digits and a signature scheme: instances of the outside parameters.
use strfry.Prelude.{
  ℕ, zero, suc, ◌+◌, ◌-◌, ◌*◌, ◌/◌, ◌%◌, ◌<◌, ◌≡◌, refl, false, ◌&&◌, Option, none, some, List, [],
  ◌∷◌, ◌++◌, arith, ltb, leb, ◌==◌, if◌then◌else◌, u64_mod, length,
}
use strfry.Prelude.Bytes.{Bytes}
use strfry.External.{Json, JsonOut, Hex, Crypto}

-- The last three are the elements of an array, the fields of an object, and the end of both.
pub data Value : Type 0 where
  num : ℕ → Value
  str : Bytes → Value
  arr obj : Value → Value
  item : Value → Value → Value
  field : Bytes → Value → Value → Value
  end : Value

abbrev pub elements : Value → List Value
elements (item v vs) = v ∷ elements vs
elements _ = []

abbrev pub fields : Value → List (Bytes × Value)
fields (field k v vs) = (k, v) ∷ fields vs
fields _ = []

abbrev pub items_of : List Value → Value
items_of [] = end
items_of (v ∷ vs) = item v (items_of vs)

abbrev pub fields_of : List (Bytes × Value) → Value
fields_of [] = end
fields_of ((k, v) ∷ vs) = field k v (fields_of vs)

abbrev pub string_of : Value → Option Bytes
string_of (str s) = some s
string_of _ = none

abbrev pub unsigned_of : Value → Option ℕ
unsigned_of (num n) = if ltb n u64_mod then some n else none
unsigned_of _ = none

abbrev pub array_of : Value → Option (List Value)
array_of (arr v) = some (elements v)
array_of _ = none

abbrev pub object_of : Value → Option (List (Bytes × Value))
object_of (obj v) = some (fields v)
object_of _ = none

pub unsigned_of-lt : (v : Value) (n : ℕ) → unsigned_of v ≡ some n → n < u64_mod
unsigned_of-lt (num m) n h = ground arith
unsigned_of-lt (str s) n h = absurd (ground arith)
unsigned_of-lt (arr v) n h = absurd (ground arith)
unsigned_of-lt (obj v) n h = absurd (ground arith)
unsigned_of-lt (item v w) n h = absurd (ground arith)
unsigned_of-lt (field k v w) n h = absurd (ground arith)
unsigned_of-lt end n h = absurd (ground arith)

abbrev pub json : Json Value
json = record {
  get_string = string_of;
  get_unsigned = unsigned_of;
  get_array = array_of;
  get_object = object_of;
  unsigned-lt = unsigned_of-lt;
}

-- A printer: one character for the kind of a value, and its parts.
abbrev pub print : Value → Bytes
print (num n) = b'0' ∷ n ∷ []
print (str s) = b'"' ∷ s
print (arr v) = b'[' ∷ print v
print (obj v) = b'{' ∷ print v
print (item v w) = print v ++ b',' ∷ print w
print (field k v w) = k ++ b':' ∷ print v ++ b',' ∷ print w
print end = b']' ∷ []

abbrev pub json_out : JsonOut Value
json_out = record {
  number = num;
  array = λ vs. arr (items_of vs);
  object = λ fs. obj (fields_of fs);
  to_string = print;
}

-- The value of a hexadecimal digit.
abbrev pub digit : ℕ → Option ℕ
digit c =
    if leb b'0' c && leb c b'9'
    then some (c - b'0')
    else if leb b'a' c && leb c b'f'
    then some (c - b'a' + 10)
    else none

abbrev pub digit_of : ℕ → ℕ
digit_of n = if ltb n 10 then b'0' + n else b'a' + (n - 10)

abbrev pub pair_of : Option ℕ → Option ℕ → Option Bytes → Option Bytes
pair_of (some x) (some y) (some b) = some ((16 * x + y) ∷ b)
pair_of _ _ _ = none

abbrev pub from_hex : Bytes → Option Bytes
from_hex [] = some []
from_hex (c ∷ []) = none
from_hex (c ∷ d ∷ s) = pair_of (digit c) (digit d) (from_hex s)

abbrev pub to_hex : Bytes → Bytes
to_hex [] = []
to_hex (c ∷ s) = digit_of (c / 16) ∷ digit_of (c % 16) ∷ to_hex s

pair_of-some :
    (x y : Option ℕ) (r : Option Bytes) (b : Bytes)
    → pair_of x y r ≡ some b
    → (b' : Bytes) × (r ≡ some b') × (length b ≡ suc (length b'))
pair_of-some (some x) (some y) (some b') b h = (b', refl, ground arith)
pair_of-some (some x) (some y) none b h = absurd (ground arith)
pair_of-some (some x) none r b h = absurd (ground arith)
pair_of-some none y r b h = absurd (ground arith)

pub length-from_hex : (s b : Bytes) → from_hex s ≡ some b → length s ≡ 2 * length b
length-from_hex [] b h = ground arith
length-from_hex (c ∷ []) b h = absurd (ground arith)
length-from_hex (c ∷ d ∷ s) b h =
    let (b', rest, size) = pair_of-some (digit c) (digit d) (from_hex s) b h in
    let k = length-from_hex s b' rest in omega arith

abbrev pub hex : Hex
hex = record { from_hex = from_hex; to_hex = to_hex; length-from_hex = length-from_hex }

-- Bytes all the same.
abbrev pub fill : ℕ → ℕ → Bytes
fill zero c = []
fill (suc n) c = c ∷ fill n c

-- A hash that is a constant, and signatures that begin with the first byte of the key.
abbrev pub crypto : Crypto
crypto = record {
  PublicKey = ℕ;
  sha256 = λ b. fill 32 17;
  xonly_pubkey_parse = λ k. elim k [ [] ↦ none | c ∷ r ↦ some c ];
  schnorrsig_verify = λ sig msg key. elim sig [ [] ↦ false | c ∷ r ↦ c == key ];
}
