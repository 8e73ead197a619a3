-- ===== src/Tests/Parsing.antt =====
-- A signed event in JSON, accepted by the parser and the checks.
use strfry.Prelude.{◌-◌, ◌≤◌, ◌<◌, ◌≡◌, refl, ◌↔◌, ◌⊎◌, [], ◌∷◌, arith, ◌==◌, ok}
use strfry.Prelude.Bytes.{Bytes, codes, bytes_eq}
use strfry.PackedEvent.{created_at, expiration, add, packed_event_builder, id, pubkey}
use strfry.PackedEvent.Lemmas.{encode_tags}
use strfry.PackedEvent.RoundTrip.{EventData, IsPackable, pack, packed, view_of}
use strfry.External.{find_field, json_at}
use strfry.Events.Kind
use strfry.Events.Parse
use strfry.Events.Parse.{EventsConfig, nostr_json_to_packed_event}
use strfry.Events.Parse.Fields.{FromJson, nostr_json_to_packed_event-FromJson}
use strfry.Events.Verify
use strfry.Events.Verify.{verify_event_timestamp}
use strfry.Events.Verify.Timestamp.{window, last_accepted, verify_event_timestamp_iff}
use strfry.Tests.World.{little_endian}
use strfry.Tests.Values.{Value, num, str, arr, obj, items_of, fields_of, to_hex, json, hex, fill}

abbrev cfg : EventsConfig
cfg = record {
  max_num_tags = 2000;
  max_tag_val_size = 1024;
  max_event_size = 65536;
  reject_events_newer_than = 900;
  reject_events_older_than = 94608000;
  reject_ephemeral_events_older_than = 60;
}

abbrev tag : Bytes → Bytes → Value
tag name val = arr (items_of (str name ∷ str val ∷ []))

abbrev tags : Value
tags = arr (
    items_of (
      tag (codes "e") (to_hex (fill 32 3))
      ∷ tag (codes "t") (codes "nostr")
      ∷ tag (codes "expiration") (codes "1800000000")
      ∷ []))

-- The fields in the order of their names.
abbrev orig_json : Value
orig_json = obj (
    fields_of (
      (codes "content", str (codes "hi"))
      ∷ (codes "created_at", num 1700000000)
      ∷ (codes "id", str (to_hex (fill 32 17)))
      ∷ (codes "kind", num 1)
      ∷ (codes "pubkey", str (to_hex (fill 32 9)))
      ∷ (codes "sig", str (to_hex (fill 64 9)))
      ∷ (codes "tags", tags)
      ∷ []))

abbrev post : EventData
post = record {
  id = fill 32 17;
  pubkey = fill 32 9;
  created_at = 1700000000;
  kind = 1;
  expiration = 1800000000;
  tags = (b'e', fill 32 3) ∷ (b't', codes "nostr") ∷ [];
}

parsed : nostr_json_to_packed_event json hex cfg orig_json ≡ ok (packed post)
unfolding nostr_json_to_packed_event Parse.string_at Parse.unsigned_at json_at find_field bytes_eq
    Parse.add_json_tags Parse.add_json_tag Parse.tag_name_of Parse.tag_val_of Parse.add_named_tag
    Parse.add_fixed_tag Parse.add_short_tag Parse.add_expiration Parse.parse_uint64 Parse.stoull
    Parse.decimal Parse.digit_char Parse.add_virtual Kind.is_replaceable Kind.is_param_replaceable
    Kind.is_ephemeral add packed_event_builder packed encode_tags
parsed = refl

nostr_json_to_packed_event-FromJson_example :
    (d : EventData) × FromJson json hex orig_json d × IsPackable d × (pack d ≡ ok (packed post))
nostr_json_to_packed_event-FromJson_example =
    nostr_json_to_packed_event-FromJson json hex cfg orig_json (packed post) parsed

verify_event_timestamp_iff_example :
    (verify_event_timestamp cfg 1700000010 (view_of post) ≡ ok tt) ↔ (
      (1700000010 - window cfg (expiration (view_of post) == 1) ≤ created_at (view_of post))
      × (created_at (view_of post) ≤ last_accepted cfg 1700000010)
      × ((expiration (view_of post) ≤ 1) ⊎ (1700000010 < expiration (view_of post))))
verify_event_timestamp_iff_example =
    verify_event_timestamp_iff cfg 1700000010 (view_of post) (omega arith) (omega arith)
      (omega arith) (omega arith)
