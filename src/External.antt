-- ===== src/External.antt =====
-- Code outside the repository that the program calls, as records of operations with the documented
-- laws that the program relies on: taocpp json, golpe's hex coding, OpenSSL and libsecp256k1.
use strfry.Prelude.{
  ℕ, ◌*◌, ◌<◌, String, ◌≡◌, Bool, Option, none, some, List, [], ◌∷◌, if◌then◌else◌, u64_mod, length,
  json_type, Result, ◌>>=◌, or_throw,
}
use strfry.Prelude.Bytes.{Bytes, codes, bytes_eq}

-- The accessors of tao::json::value: `none` where the value is of another type. An unsigned number
-- is a uint64_t.
pub record Json (V : Type 0) : Type 0 where
  pub get_string : V → Option Bytes
  pub get_unsigned : V → Option ℕ
  pub get_array : V → Option (List V)
  pub get_object : V → Option (List (Bytes × V))
  pub unsigned-lt : (v : V) (n : ℕ) → get_unsigned v ≡ some n → n < u64_mod

-- Construction and printing of JSON values.
pub record JsonOut (V : Type 0) : Type 0 where
  pub number : ℕ → V
  pub array : List V → V
  pub object : List (Bytes × V) → V
  pub to_string : V → Bytes

-- Hex coding: `none` where the text is not hexadecimal. Two digits make one byte.
pub record Hex : Type 0 where
  pub from_hex : Bytes → Option Bytes
  pub to_hex : Bytes → Bytes
  pub length-from_hex : (s b : Bytes) → from_hex s ≡ some b → length s ≡ 2 * length b

pub record Crypto : Type 1 where
  pub PublicKey : Type 0
  pub sha256 : Bytes → Bytes
  pub xonly_pubkey_parse : Bytes → Option PublicKey
  pub schnorrsig_verify : Bytes → Bytes → PublicKey → Bool

-- v.at(key): throws on what is no object and on a missing key.
unfoldable pub find_field {ℓ} : {V : Type ℓ} → Bytes → List (Bytes × V) → Option V
find_field k [] = none
find_field k ((j, v) ∷ fields) = if bytes_eq k j then some v else find_field k fields

module _ {V : Type 0} (json : Json V) where
  unfoldable pub json_at : V → String → Result V
  unfolding find_field
  json_at v key = do
    fields ← or_throw (json.get_object v) json_type
    or_throw (find_field (codes key) fields) json_type
