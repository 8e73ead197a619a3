-- ===== src/Events/Verify/Timestamp.antt =====
-- verifyEventTimestamp of src/events_parse.cpp: the wrapped bounds are the intended ones.
use strfry.Prelude.{
  ℕ, ◌+◌, ◌-◌, ◌≤◌, ◌<◌, ◌≡◌, ◌↔◌, ◌⊎◌, Bool, true, false, arith, ltb, ◌==◌, if◌then◌else◌,
  if-cases, u64_mod, max_u64, ok,
}
use strfry.PackedEvent.{Lmdb, PackedEventView, created_at, expiration}
use strfry.Events.Parse.{EventsConfig}
use strfry.Events.Verify.{earliest, latest, verify_event_timestamp}

-- The window for events that are too old.
abbrev pub window : EventsConfig → Bool → ℕ
window cfg ephemeral =
    if ephemeral then cfg.reject_ephemeral_events_older_than else cfg.reject_events_older_than

earliest_lem :
    (cfg : EventsConfig) (ephemeral : Bool) (now : ℕ)
    → now < u64_mod
    → window cfg ephemeral < u64_mod
    → earliest cfg ephemeral now ≡ now - window cfg ephemeral
unfolding earliest
earliest_lem cfg true now h k = ground arith
earliest_lem cfg false now h k = ground arith

-- The last second that is accepted: now and the margin, or the last but one that 64 bits hold.
abbrev pub last_accepted : EventsConfig → ℕ → ℕ
last_accepted cfg now =
    if ltb (now + cfg.reject_events_newer_than) u64_mod
    then now + cfg.reject_events_newer_than
    else max_u64 - 1

latest_lem :
    (cfg : EventsConfig) (now : ℕ)
    → now < u64_mod
    → cfg.reject_events_newer_than < u64_mod
    → latest cfg now ≡ last_accepted cfg now
unfolding latest
latest_lem cfg now h k = ground arith

-- With the clock and the settings in 64 bits, an event passes the check exactly when its time is
-- not before now less the window (or 0, where that is negative), not after the last accepted
-- second, and its expiration is none (0), the ephemeral mark (1), or in the future.
pub verify_event_timestamp_iff :
    ⦃lmdb : Lmdb⦄ (cfg : EventsConfig) (now : ℕ) (packed : PackedEventView)
    → now < u64_mod
    → cfg.reject_ephemeral_events_older_than < u64_mod
    → cfg.reject_events_older_than < u64_mod
    → cfg.reject_events_newer_than < u64_mod
    → (verify_event_timestamp cfg now packed ≡ ok tt) ↔ (
        (now - window cfg (expiration packed == 1) ≤ created_at packed)
        × (created_at packed ≤ last_accepted cfg now)
        × ((expiration packed ≤ 1) ⊎ (now < expiration packed)))
unfolding verify_event_timestamp
verify_event_timestamp_iff cfg now packed n e o w =
    let k : window cfg (expiration packed == 1) < u64_mod =
      if-cases (λ x. x < u64_mod) (expiration packed == 1) _ _ (λ t. e) (λ t. o) in
    rw (earliest_lem cfg (expiration packed == 1) now n k, latest_lem cfg now n w)
      ((λ h. (ground arith, ground arith, ground arith)), (λ h. ground arith))
