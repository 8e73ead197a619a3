-- ===== src/Filters/Filter.antt =====
-- NostrFilter of src/filters.h: its constructor from JSON and its tests of an event.
pub mod Matching
pub mod Parsing
use strfry.Prelude.{
  ℕ, ◌+◌, Bool, true, false, not, ◌&&◌, ◌||◌, Option, none, some, List, [], ◌∷◌, ◌++◌, ltb, leb,
  ◌==◌, if◌then◌else◌, max_u64, length, herr, json_type, Result, ok, err, ◌>>=◌, ◌>>◌, throw_if,
  or_throw,
}
use strfry.Prelude.Bytes.{Bytes, codes, bytes_eq}
use strfry.PackedEvent.{Lmdb, PackedEventView, id, pubkey, created_at, kind, foreach_tag}
use strfry.External.{Json, Hex}
use strfry.Filters.SetBytes.{FilterSetBytes, filter_set_bytes, max_indexed_tag_val_size}
use strfry.Filters.SetBytes
use strfry.Filters.SetUint.{FilterSetUint, filter_set_uint}
use strfry.Filters.SetUint

-- `tags` is a hash map by tag name, as the list of its entries.
pub record NostrFilter : Type 0 where
  pub ids : Option FilterSetBytes
  pub authors : Option FilterSetBytes
  pub kinds : Option FilterSetUint
  pub tags : List (ℕ × FilterSetBytes)
  pub since : ℕ
  pub until : ℕ
  pub limit : ℕ
  pub never_match : Bool
  pub index_only_scans : Bool

-- The members' initial values.
abbrev pub init : NostrFilter
init = record {
  ids = none;
  authors = none;
  kinds = none;
  tags = [];
  since = 0;
  until = max_u64;
  limit = max_u64;
  never_match = false;
  index_only_scans = false;
}

abbrev pub has_key : ℕ → List (ℕ × FilterSetBytes) → Bool
has_key k [] = false
has_key k ((j, s) ∷ m) = j == k || has_key k m

-- tags.emplace: a name that is there already keeps its set.
unfoldable pub emplace : ℕ → FilterSetBytes → List (ℕ × FilterSetBytes) → List (ℕ × FilterSetBytes)
emplace k s m = if has_key k m then m else m ++ (k, s) ∷ []

-- std::optional::emplace for `ids`, `authors` and `kinds` replaces what is there.
abbrev pub is_some {ℓ} : {A : Type ℓ} → Option A → Bool
is_some none = false
is_some (some a) = true

module _ {V : Type 0} (json : Json V) (hex : Hex) where
  -- v.is_array() && v.get_array().size() == 0
  unfoldable pub is_empty_array : V → Bool
  is_empty_array v = elim (json.get_array v) [
    | none ↦ false
    | some a ↦ elim a [ [] ↦ true | _ ↦ false ]
  ]

  -- The branch of a key "#x".
  unfoldable pub add_tag : Bytes → V → NostrFilter → Result NostrFilter
  add_tag (hash ∷ tag ∷ []) v f =
      if tag == b'p' || tag == b'e'
      then (do
        s ← filter_set_bytes json hex v true 32 32
        ok (record f { tags = emplace tag s f.tags }))
      else (do
        s ← filter_set_bytes json hex v false 0 max_indexed_tag_val_size
        ok (record f { tags = emplace tag s f.tags }))
  add_tag k v f = err (herr "unindexed tag filter")

  abbrev pub starts_with_hash : Bytes → Bool
  starts_with_hash [] = false
  starts_with_hash (c ∷ k) = c == b'#'

  -- One round of the loop over the object's fields, with numMajorFields.
  unfoldable pub add_field : Bytes → V → NostrFilter × ℕ → Result (NostrFilter × ℕ)
  add_field k v (f, major) =
      if is_empty_array v
      then ok (record f { never_match = true }, major)
      else if bytes_eq k (codes "ids")
      then (do
        s ← filter_set_bytes json hex v true 32 32
        ok (record f { ids = some s }, major + 1))
      else if bytes_eq k (codes "authors")
      then (do
        s ← filter_set_bytes json hex v true 32 32
        ok (record f { authors = some s }, major + 1))
      else if bytes_eq k (codes "kinds")
      then (do s ← filter_set_uint json v; ok (record f { kinds = some s }, major + 1))
      else if starts_with_hash k
      then (do f' ← add_tag k v f; ok (f', major + 1))
      else if bytes_eq k (codes "since")
      then (do n ← or_throw (json.get_unsigned v) json_type; ok (record f { since = n }, major))
      else if bytes_eq k (codes "until")
      then (do n ← or_throw (json.get_unsigned v) json_type; ok (record f { until = n }, major))
      else if bytes_eq k (codes "limit")
      then (do n ← or_throw (json.get_unsigned v) json_type; ok (record f { limit = n }, major))
      else err (herr "unrecognised filter item")

  unfoldable pub add_fields : List (Bytes × V) → NostrFilter × ℕ → Result (NostrFilter × ℕ)
  add_fields [] acc = ok acc
  add_fields ((k, v) ∷ fields) acc = do acc' ← add_field k v acc; add_fields fields acc'

  -- The end of the constructor.
  unfoldable pub finish : ℕ → NostrFilter × ℕ → Result NostrFilter
  finish max_filter_limit (f, major) = do
    throw_if (ltb 3 (length f.tags)) (herr "too many tags in filter")
    ok (record f {
      limit = if ltb max_filter_limit f.limit then max_filter_limit else f.limit;
      index_only_scans = leb major 1 || (major == 2 && (is_some f.authors && is_some f.kinds));
    })

  -- The constructor.
  unfoldable pub nostr_filter : V → ℕ → Result NostrFilter
  nostr_filter filter_obj max_filter_limit = do
    fields ← or_throw (json.get_object filter_obj) (herr "provided filter is not an object")
    acc ← add_fields fields (init, 0)
    finish max_filter_limit acc

unfoldable pub does_match_times : NostrFilter → ℕ → Bool
does_match_times f created =
    if ltb created f.since then false else if ltb f.until created then false else true

-- The callback of the loop over the event's tags: it captures foundMatch.
unfoldable pub tag_matches : ℕ → FilterSetBytes → ℕ → Bytes → Bool → Bool × Bool
tag_matches tag filt tag_name tag_val found_match =
    if tag_name == tag && SetBytes.does_match filt tag_val
    then (true, false)
    else (found_match, true)

unfoldable pub does_match_tags : List (ℕ × FilterSetBytes) → PackedEventView → Result Bool
does_match_tags [] ev = ok true
does_match_tags ((tag, filt) ∷ tags) ev = do
  found_match ← foreach_tag (tag_matches tag filt) ev false
  let rest = does_match_tags tags ev
  if found_match then rest else ok false

-- `if (ids && !ids->doesMatch(…)) return false;`
abbrev pub fails_bytes : Option FilterSetBytes → Bytes → Bool
fails_bytes none b = false
fails_bytes (some s) b = not (SetBytes.does_match s b)

abbrev pub fails_uint : Option FilterSetUint → ℕ → Bool
fails_uint none n = false
fails_uint (some s) n = not (SetUint.does_match s n)

module _ ⦃lmdb : Lmdb⦄ where
  unfoldable pub does_match : NostrFilter → PackedEventView → Result Bool
  does_match f ev =
      if f.never_match
      then ok false
      else if not (does_match_times f (created_at ev))
      then ok false
      else if fails_bytes f.ids (id ev)
      then ok false
      else if fails_bytes f.authors (pubkey ev)
      then ok false
      else if fails_uint f.kinds (kind ev)
      then ok false
      else does_match_tags f.tags ev

unfoldable pub is_full_db_query : NostrFilter → Bool
is_full_db_query f =
    not (is_some f.ids)
    && (not (is_some f.authors) && (not (is_some f.kinds) && (length f.tags == 0)))
