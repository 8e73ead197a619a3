-- ===== src/Events/Verify/Safety.antt =====
-- parseAndVerifyEvent of src/events_parse.cpp: what an event that passes is known to be.
use strfry.Prelude.{ℕ, ◌-◌, ◌≤◌, ◌<◌, ◌≡◌, ◌⊎◌, true, some, ◌==◌, u64_mod, length, ok}
use strfry.Prelude.Bytes.{Bytes}
use strfry.External.{Json, JsonOut, Hex, Crypto}
use strfry.PackedEvent.{Lmdb, id, pubkey}
use strfry.PackedEvent.RoundTrip.{EventData, IsPackable}
use strfry.Events.Parse.{EventsConfig, string_at}
use strfry.Events.Parse.Fields.{FromJson}
use strfry.Events.Verify.{nostr_hash}
use strfry.Events.Verify.Timestamp.{window, last_accepted}

-- The clock and the settings are 64-bit numbers.
pub record Is64Bit (cfg : EventsConfig) (now : ℕ) : Type 0 where
  pub now_u64 : now < u64_mod
  pub newer_u64 : cfg.reject_events_newer_than < u64_mod
  pub older_u64 : cfg.reject_events_older_than < u64_mod
  pub ephemeral_u64 : cfg.reject_ephemeral_events_older_than < u64_mod

module _ {V : Type 0} (json : Json V) (out : JsonOut V) (hex : Hex) (crypto : Crypto)
    ⦃lmdb : Lmdb⦄ where
  -- The JSON's field "sig" decodes to a signature of 64 bytes over the id, under the key that the public
  -- key's bytes stand for.
  pub record IsSigned (v : V) (d : EventData) : Type 0 where
    pub sig_hex : Bytes
    pub sig_field : string_at json hex v "sig" "event sig was not a string" ≡ ok sig_hex
    pub signature : Bytes
    pub decoded : hex.from_hex sig_hex ≡ some signature
    pub signature_size : length signature ≡ 64
    pub key : crypto.PublicKey
    pub parsed : crypto.xonly_pubkey_parse d.pubkey ≡ some key
    pub verified : crypto.schnorrsig_verify signature d.id key ≡ true

  -- In the time window, and not expired.
  pub record IsTimely (cfg : EventsConfig) (now : ℕ) (d : EventData) : Type 0 where
    pub not_early : now - window cfg (d.expiration == 1) ≤ d.created_at
    pub not_late : d.created_at ≤ last_accepted cfg now
    pub not_expired : (d.expiration ≤ 1) ⊎ (now < d.expiration)

  pub record IsVerified (cfg : EventsConfig) (now : ℕ) (v : V) (json_str : Bytes) (d : EventData)
      : Type 0 where
    pub from_json : FromJson json hex v d
    pub packable : IsPackable d
    pub hashed : nostr_hash json out crypto v ≡ ok d.id
    pub signed : IsSigned v d
    pub timely : IsTimely cfg now d
    pub small : length json_str ≤ cfg.max_event_size
