-- ===== src/Events/Parse.antt =====
-- nostrJsonToPackedEvent of src/events_parse.cpp, with parseUint64 of src/misc.cpp.
pub mod Tags
pub mod Expiration
pub mod Fields
use strfry.Prelude.{
  ℕ, ◌+◌, ◌-◌, ◌*◌, String, Bool, not, ◌&&◌, ◌||◌, List, [], ◌∷◌, ltb, leb, ◌==◌, if◌then◌else◌,
  u64_mod, length, all, herr, herr_num, herr_str, out_of_range, Result, ok, err, ◌>>=◌, ◌>>◌,
  throw_if, or_throw,
}
use strfry.Prelude.Bytes.{Bytes, codes, bytes_eq}
use strfry.External.{Json, Hex, json_at}
use strfry.PackedEvent.{Lmdb, add, packed_event_builder}
use strfry.Filters.SetBytes.{max_indexed_tag_val_size}
use strfry.Events.Kind.{is_replaceable, is_param_replaceable, is_ephemeral}

-- What the parser and the checks read of cfg().
pub record EventsConfig : Type 0 where
  pub max_num_tags : ℕ
  pub max_tag_val_size : ℕ
  pub max_event_size : ℕ
  pub reject_events_newer_than : ℕ
  pub reject_events_older_than : ℕ
  pub reject_ephemeral_events_older_than : ℕ

unfoldable pub digit_char : ℕ → Bool
digit_char c = leb b'0' c && leb c b'9'

-- The number that decimal digits stand for, after those that were read.
unfoldable pub decimal : ℕ → Bytes → ℕ
decimal acc [] = acc
decimal acc (c ∷ s) = decimal (acc * 10 + (c - b'0')) s

-- std::stoull on a text of digits.
unfoldable pub stoull : Bytes → Result ℕ
stoull [] = err (herr "stoull")
stoull (c ∷ s) = let n = decimal 0 (c ∷ s) in if ltb n u64_mod then ok n else err out_of_range

unfoldable pub parse_uint64 : Bytes → Result ℕ
parse_uint64 s = do throw_if (not (all digit_char s)) (herr "non-digit character"); stoull s

-- std::string's operator[] on a text that is not empty.
abbrev pub head_byte : Bytes → ℕ
head_byte [] = 0
head_byte (c ∷ s) = c

module _ {V : Type 0} (json : Json V) (hex : Hex) where
  abbrev pub hex_decode : Bytes → Result Bytes
  hex_decode s = or_throw (hex.from_hex s) (herr "from_hex: unexpected character")

  -- jsonGetString(v.at(key), msg) and jsonGetUnsigned(v.at(key), msg).
  unfoldable pub string_at : V → String → String → Result Bytes
  string_at v key msg = do x ← json_at json v key; or_throw (json.get_string x) (herr msg)

  unfoldable pub unsigned_at : V → String → String → Result ℕ
  unsigned_at v key msg = do x ← json_at json v key; or_throw (json.get_unsigned x) (herr msg)

  -- tag.at(0), and tag.at(1) if there is one.
  unfoldable pub tag_name_of : List V → Result Bytes
  tag_name_of [] = err (herr "too few fields in tag")
  tag_name_of (n ∷ rest) = or_throw (json.get_string n) (herr "tag name was not a string")

  unfoldable pub tag_val_of : List V → Result Bytes
  tag_val_of (n ∷ v ∷ rest) = or_throw (json.get_string v) (herr "tag val was not a string")
  tag_val_of tag = ok []

  -- The branches on the tag's name; the state is the tag builder's buffer and `expiration`.
  unfoldable pub add_fixed_tag : Bytes → Bytes → Bytes × ℕ → Result (Bytes × ℕ)
  add_fixed_tag tag_name tag_val (buf, expiration) = do
    throw_if (not (length tag_val == 64)) (herr_str "unexpected size for fixed-size tag: " tag_name)
    tag_val' ← hex_decode tag_val
    buf' ← add buf (head_byte tag_name) tag_val'
    ok (buf', expiration)

  unfoldable pub add_expiration : Bytes → Bytes × ℕ → Result (Bytes × ℕ)
  add_expiration tag_val (buf, expiration) =
      if expiration == 0
      then (do
        n ← parse_uint64 tag_val
        throw_if (ltb n 100) (herr "invalid expiration")
        ok (buf, n))
      else ok (buf, expiration)

  unfoldable pub add_short_tag : EventsConfig → Bytes → Bytes → Bytes × ℕ → Result (Bytes × ℕ)
  add_short_tag cfg tag_name tag_val (buf, expiration) = do
    throw_if (ltb cfg.max_tag_val_size (length tag_val))
        (herr_num "tag val too large: " (length tag_val))
    let indexed = (do buf' ← add buf (head_byte tag_name) tag_val; ok (buf', expiration))
    if leb (length tag_val) max_indexed_tag_val_size then indexed else ok (buf, expiration)

  unfoldable pub add_named_tag : EventsConfig → Bytes → Bytes → Bytes × ℕ → Result (Bytes × ℕ)
  add_named_tag cfg tag_name tag_val st =
      if bytes_eq tag_name (codes "e") || bytes_eq tag_name (codes "p")
      then add_fixed_tag tag_name tag_val st
      else if bytes_eq tag_name (codes "expiration")
      then add_expiration tag_val st
      else if length tag_name == 1
      then add_short_tag cfg tag_name tag_val st
      else ok st

  -- One round of the loop over the event's tags.
  unfoldable pub add_json_tag : EventsConfig → V → Bytes × ℕ → Result (Bytes × ℕ)
  add_json_tag cfg tag_arr st = do
    tag ← or_throw (json.get_array tag_arr) (herr "tag in tags field was not an array")
    tag_name ← tag_name_of tag
    tag_val ← tag_val_of tag
    add_named_tag cfg tag_name tag_val st

  unfoldable pub add_json_tags : EventsConfig → List V → Bytes × ℕ → Result (Bytes × ℕ)
  add_json_tags cfg [] st = ok st
  add_json_tags cfg (t ∷ ts) st = do st' ← add_json_tag cfg t st; add_json_tags cfg ts st'

  -- The virtual d-tag of a replaceable kind stands before the event's tags, that of a parameterised
  -- replaceable kind behind them.
  unfoldable pub add_virtual : Bool → Bytes → Result Bytes
  add_virtual wanted buf = if wanted then add buf b'd' [] else ok buf

  unfoldable pub nostr_json_to_packed_event : ⦃lmdb : Lmdb⦄ → EventsConfig → V → Result Bytes
  nostr_json_to_packed_event cfg v = do
    id_hex ← string_at v "id" "event id field was not a string"
    id ← hex_decode id_hex
    pubkey_hex ← string_at v "pubkey" "event pubkey field was not a string"
    pubkey ← hex_decode pubkey_hex
    created_at ← unsigned_at v "created_at" "event created_at field was not an integer"
    kind ← unsigned_at v "kind" "event kind field was not an integer"
    throw_if (not (length id == 32)) (herr "unexpected id size")
    throw_if (not (length pubkey == 32)) (herr "unexpected pubkey size")
    content ← string_at v "content" "event content field was not a string"
    buf0 ← add_virtual (is_replaceable kind) []
    tags_json ← json_at json v "tags"
    tags ← or_throw (json.get_array tags_json) (herr "tags field not an array")
    throw_if (ltb cfg.max_num_tags (length tags)) (herr_num "too many tags: " (length tags))
    st ← add_json_tags cfg tags (buf0, 0)
    buf ← add_virtual (is_param_replaceable kind) st.0
    packed_event_builder id pubkey created_at kind (if is_ephemeral kind then 1 else st.1) buf
