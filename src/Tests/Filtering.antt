-- ===== src/Tests/Filtering.antt =====
-- Filters that are read from JSON, and a packed event.
use strfry.Prelude.{◌≡◌, refl, false, none, some, List, [], ◌∷◌, arith, max_u64, drop, any, ok}
use strfry.Prelude.Bytes.{codes, bytes_eq, bytes_lt, contains}
use strfry.PackedEvent.RoundTrip.{EventData, IsPackable, view_of}
use strfry.Filters.SetBytes
use strfry.Filters.SetUint
use strfry.Filters.Filter
use strfry.Filters.Group
use strfry.Filters.SetBytes.Search.{does_match-filter_set_bytes}
use strfry.Filters.SetUint.Members.{member, does_match-filter_set_uint}
use strfry.Filters.Filter.{NostrFilter, nostr_filter}
use strfry.Filters.Filter.Matching.{FilterSpec, matches}
use strfry.Filters.Filter.Parsing.{read_filter, does_match-nostr_filter}
use strfry.Filters.Group.{nostr_filter_group}
use strfry.Filters.Group.Matching.{read_filters, does_match-nostr_filter_group}
use strfry.Tests.World.{little_endian}
use strfry.Tests.Values.{Value, num, str, arr, obj, items_of, fields_of, json, hex, fill}

abbrev words : List Value
words = str (codes "strfry") ∷ str (codes "nostr") ∷ str (codes "strfry") ∷ []

abbrev word_set : SetBytes.FilterSetBytes
word_set = record {
  items =
      record { offset = 0; size = 5; first_byte = b'n' }
      ∷ record { offset = 5; size = 6; first_byte = b's' }
      ∷ [];
  buf = codes "nostrstrfry";
}

word_set-made : SetBytes.filter_set_bytes json hex (arr (items_of words)) false 0 255 ≡ ok word_set
unfolding SetBytes.filter_set_bytes SetBytes.collect_items SetBytes.decode_item SetBytes.add_items
    SetBytes.sort SetBytes.insert_sorted bytes_lt SetBytes.same_as bytes_eq SetBytes.add_item
word_set-made = refl

does_match-filter_set_bytes_example :
    SetBytes.does_match word_set (codes "relay")
    ≡ contains (codes "relay") (codes "strfry" ∷ codes "nostr" ∷ codes "strfry" ∷ [])
unfolding SetBytes.collect_items SetBytes.decode_item
does_match-filter_set_bytes_example =
    does_match-filter_set_bytes json hex (arr (items_of words)) false 0 255 word_set words
      (codes "strfry" ∷ codes "nostr" ∷ codes "strfry" ∷ []) word_set-made refl refl (codes "relay")

abbrev kinds : List Value
kinds = num 7 ∷ num 1 ∷ num 7 ∷ []

does_match-filter_set_uint_example :
    SetUint.does_match (record { items = 1 ∷ 7 ∷ [] }) 7 ≡ member 7 (7 ∷ 1 ∷ 7 ∷ [])
unfolding SetUint.filter_set_uint SetUint.collect_uints SetUint.unique SetUint.unique_after
    SetUint.sort SetUint.insert_sorted
does_match-filter_set_uint_example =
    does_match-filter_set_uint json (arr (items_of kinds)) (record { items = 1 ∷ 7 ∷ [] }) kinds
      (7 ∷ 1 ∷ 7 ∷ []) refl refl refl 7

-- {"kinds": [7, 1, 7], "#t": ["strfry", "nostr", "strfry"], "since": 100}
abbrev pub filter_obj : Value
filter_obj = obj (
    fields_of (
      (codes "kinds", arr (items_of kinds))
      ∷ (codes "#t", arr (items_of words))
      ∷ (codes "since", num 100)
      ∷ []))

abbrev pub filter : NostrFilter
filter = record {
  ids = none;
  authors = none;
  kinds = some (record { items = 1 ∷ 7 ∷ [] });
  tags = (b't', word_set) ∷ [];
  since = 100;
  until = max_u64;
  limit = 500;
  never_match = false;
  index_only_scans = false;
}

pub nostr_filter-made : nostr_filter json hex filter_obj 500 ≡ ok filter
unfolding nostr_filter Filter.add_fields Filter.add_field Filter.is_empty_array Filter.add_tag
    Filter.emplace Filter.finish SetBytes.filter_set_bytes SetBytes.collect_items
    SetBytes.decode_item SetBytes.add_items SetBytes.sort SetBytes.insert_sorted bytes_lt
    SetBytes.same_as bytes_eq SetBytes.add_item SetUint.filter_set_uint SetUint.collect_uints
    SetUint.unique SetUint.unique_after SetUint.sort SetUint.insert_sorted
nostr_filter-made = refl

abbrev pub post : EventData
post = record {
  id = fill 32 1;
  pubkey = fill 32 9;
  created_at = 1700000000;
  kind = 1;
  expiration = 0;
  tags = (b'p', fill 32 5) ∷ (b't', codes "nostr") ∷ [];
}

pub post-IsPackable : IsPackable post
post-IsPackable = record {
  id_size = refl;
  pubkey_size = refl;
  created_at_u64 = omega arith;
  kind_u64 = omega arith;
  expiration_u64 = omega arith;
  tags_fit = (omega arith, (omega arith, tt));
}

does_match-nostr_filter_example :
    (sp : FilterSpec) × (read_filter json hex filter_obj ≡ ok sp)
    × (Filter.does_match filter (view_of post) ≡ ok (matches sp post))
does_match-nostr_filter_example =
    does_match-nostr_filter json hex filter_obj 500 filter post nostr_filter-made post-IsPackable

abbrev request : List Value
request =
    str (codes "REQ")
    ∷ str (codes "sub1")
    ∷ filter_obj
    ∷ obj (fields_of ((codes "ids", arr (items_of [])) ∷ []))
    ∷ []

abbrev group : Group.NostrFilterGroup
group = record { filters = filter ∷ [] }

nostr_filter_group-made : nostr_filter_group json hex request 500 ≡ ok group
unfolding nostr_filter_group Group.parse_filters nostr_filter Filter.add_fields Filter.add_field
    Filter.is_empty_array Filter.add_tag Filter.emplace Filter.finish SetBytes.filter_set_bytes
    SetBytes.collect_items SetBytes.decode_item SetBytes.add_items SetBytes.sort
    SetBytes.insert_sorted bytes_lt SetBytes.same_as bytes_eq SetBytes.add_item
    SetUint.filter_set_uint SetUint.collect_uints SetUint.unique SetUint.unique_after SetUint.sort
    SetUint.insert_sorted
nostr_filter_group-made = refl

does_match-nostr_filter_group_example :
    (sps : List FilterSpec) × (read_filters json hex (drop 2 request) ≡ ok sps)
    × (Group.does_match group (view_of post) ≡ ok (any (λ sp. matches sp post) sps))
does_match-nostr_filter_group_example =
    does_match-nostr_filter_group json hex post post-IsPackable request 500 group
      nostr_filter_group-made
