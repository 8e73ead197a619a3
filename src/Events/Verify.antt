-- ===== src/Events/Verify.antt =====
-- The checks of src/events_parse.cpp: time, id, signature, size; and parseAndVerifyEvent.
pub mod Timestamp
pub mod Safety
use strfry.Prelude.{
  ℕ, ◌+◌, ◌-◌, ◌%◌, Bool, true, false, not, ◌&&◌, ◌||◌, [], ◌∷◌, ltb, leb, ◌==◌, if◌then◌else◌,
  u64_mod, max_u64, length, herr, herr_num, Result, ok, ◌>>=◌, ◌>>◌, throw_if, or_throw,
}
use strfry.Prelude.Bytes.{Bytes, codes, bytes_eq}
use strfry.External.{Json, JsonOut, Hex, Crypto, json_at}
use strfry.PackedEvent.{
  Lmdb, PackedEventView, packed_event_view, id, pubkey, created_at, expiration,
}
use strfry.Events.Parse.{EventsConfig, string_at, hex_decode, nostr_json_to_packed_event}

-- Bytes32 of src/Bytes32.h: a text of exactly 32 bytes.
unfoldable pub bytes32 : Bytes → Result Bytes
bytes32 s = do throw_if (not (length s == 32)) (herr "invalid length for Bytes32"); ok s

module _ {V : Type 0} (json : Json V) (out : JsonOut V) (crypto : Crypto) where
  unfoldable pub nostr_hash : V → Result Bytes
  unfolding bytes32
  nostr_hash orig_json = do
    pubkey ← json_at json orig_json "pubkey"
    created_at ← json_at json orig_json "created_at"
    kind ← json_at json orig_json "kind"
    tags ← json_at json orig_json "tags"
    content ← json_at json orig_json "content"
    let arr = out.array (out.number 0 ∷ pubkey ∷ created_at ∷ kind ∷ tags ∷ content ∷ [])
    bytes32 (crypto.sha256 (out.to_string arr))

  unfoldable pub verify_sig : Bytes → Bytes → Bytes → Result Bool
  verify_sig sig hash pubkey = do
    throw_if (not (length sig == 64) || (not (length hash == 32) || not (length pubkey == 32)))
        (herr "verify sig: bad input size")
    pubkey_parsed ← or_throw (crypto.xonly_pubkey_parse pubkey) (herr "verify sig: bad pubkey")
    ok (crypto.schnorrsig_verify sig hash pubkey_parsed)

  unfoldable pub verify_nostr_event : Hex → PackedEventView → V → Result (Unit {0})
  verify_nostr_event hex packed orig_json = do
    hash ← nostr_hash orig_json
    packed_id ← bytes32 (id packed)
    throw_if (not (bytes_eq hash packed_id)) (herr "bad event id")
    sig_hex ← string_at json hex orig_json "sig" "event sig was not a string"
    sig ← hex_decode json hex sig_hex
    valid ← verify_sig sig (id packed) (pubkey packed)
    throw_if (not valid) (herr "bad signature")

unfoldable pub verify_nostr_event_json_size : EventsConfig → Bytes → Result (Unit {0})
verify_nostr_event_json_size cfg json_str =
    throw_if (ltb cfg.max_event_size (length json_str))
      (herr_num "event too large: " (length json_str))

-- 64-bit arithmetic: both sums wrap, and the two corrections follow.
unfoldable pub earliest : EventsConfig → Bool → ℕ → ℕ
earliest cfg ephemeral now =
    let window =
      (if ephemeral
        then cfg.reject_ephemeral_events_older_than
        else cfg.reject_events_older_than) in
    let t = (now + u64_mod - window) % u64_mod in if ltb now t then 0 else t

unfoldable pub latest : EventsConfig → ℕ → ℕ
latest cfg now =
    let t = (now + cfg.reject_events_newer_than) % u64_mod in if ltb t now then max_u64 - 1 else t

-- `now` is the clock, in seconds.
unfoldable pub verify_event_timestamp :
    ⦃lmdb : Lmdb⦄ → EventsConfig → ℕ → PackedEventView → Result (Unit {0})
verify_event_timestamp cfg now packed = do
  let ts = created_at packed
  let ephemeral = expiration packed == 1
  throw_if (ltb ts (earliest cfg ephemeral now))
      (herr (if ephemeral then "ephemeral event expired" else "created_at too early"))
  throw_if (ltb (latest cfg now) ts) (herr "created_at too late")
  throw_if (ltb 1 (expiration packed) && leb (expiration packed) now) (herr "event expired")

module _ {V : Type 0} (json : Json V) (out : JsonOut V) (hex : Hex) (crypto : Crypto)
    ⦃lmdb : Lmdb⦄ where
  -- The known top-level fields, in the order of their names.
  unfoldable pub normalised : V → Result Bytes
  normalised orig_json = do
    content ← json_at json orig_json "content"
    created_at ← json_at json orig_json "created_at"
    id ← json_at json orig_json "id"
    kind ← json_at json orig_json "kind"
    pubkey ← json_at json orig_json "pubkey"
    sig ← json_at json orig_json "sig"
    tags ← json_at json orig_json "tags"
    ok (
        out.to_string (
          out.object (
            (codes "content", content)
            ∷ (codes "created_at", created_at)
            ∷ (codes "id", id)
            ∷ (codes "kind", kind)
            ∷ (codes "pubkey", pubkey)
            ∷ (codes "sig", sig)
            ∷ (codes "tags", tags)
            ∷ [])))

  -- if (flag) action;
  abbrev pub when : Bool → Result (Unit {0}) → Result (Unit {0})
  when true m = m
  when false m = ok tt

  -- packedStr and jsonStr.
  unfoldable pub parse_and_verify_event :
      EventsConfig → ℕ → Bool → Bool → V → Result (Bytes × Bytes)
  parse_and_verify_event cfg now verify_msg verify_time orig_json = do
    fields ← or_throw (json.get_object orig_json) (herr "event is not an object")
    packed_str ← nostr_json_to_packed_event json hex cfg orig_json
    packed ← packed_event_view packed_str
    when verify_time (verify_event_timestamp cfg now packed)
    when verify_msg (verify_nostr_event json out crypto hex packed orig_json)
    json_str ← normalised orig_json
    when verify_msg (verify_nostr_event_json_size cfg json_str)
    ok (packed_str, json_str)
