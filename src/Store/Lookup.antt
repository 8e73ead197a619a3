-- ===== src/Store/Lookup.antt =====
-- src/events_db.cpp: lookups of events and of their JSON.
use strfry.Prelude.{
  ℕ, ◌≡◌, ◌⊎◌, inl, inr, Bool, true, false, Option, none, some, [], ◌∷◌, ltb, ◌==◌, if◌then◌else◌,
  length, take, drop, All, herr, Result, ok, err, ◌>>=◌, ◌>>◌, throw_if, or_throw,
}
use strfry.Prelude.Bytes.{Bytes, bytes_eq}
use strfry.PackedEvent.{Lmdb}
use strfry.PackedEvent.RoundTrip.{EventData, packed}
use strfry.Store.{Row, find_row, by_id, starts_with, Env}

module _ ⦃lmdb : Lmdb⦄ (env : Env) where
  open env use {
    Db, rows, make_key, lookup_event, first_from, first_from-by_id, lookup_event-some, get_payload,
    last_event,
  }

  -- The view of an event with its primary key.
  abbrev with_key : ℕ → Option Bytes → Option (ℕ × Bytes)
  with_key l none = none
  with_key l (some buf) = some (l, buf)

  -- The callback of the search by id, on the entry that is visited first.
  abbrev id_entry : Db → Bytes → Option (Bytes × ℕ) → Option (ℕ × Bytes)
  id_entry db id none = none
  id_entry db id (some (k, v)) = if starts_with id k then with_key v (lookup_event db v) else none

  unfoldable pub lookup_event_by_id : Db → Bytes → Option (ℕ × Bytes)
  lookup_event_by_id db id = id_entry db id (first_from db by_id (make_key id 0) 0 false)

  unfoldable pub event_exists_by_id : Db → Bytes → Bool
  event_exists_by_id db id = elim (lookup_event_by_id db id) [ none ↦ false | some e ↦ true ]

  unfoldable pub lookup_event_by_lev_id : Db → ℕ → Result (ℕ × Bytes)
  lookup_event_by_lev_id db lev_id = do
    buf ← or_throw (lookup_event db lev_id) (herr "unable to lookup event by levId")
    ok (lev_id, buf)

  unfoldable pub get_most_recent_lev_id : Db → ℕ
  get_most_recent_lev_id db = elim (last_event db) [ none ↦ 0 | some l ↦ l ]

  -- Decompressor::decompress with zstd is a parameter.
  unfoldable pub decode_event_payload :
      (ℕ → Bytes → Result Bytes) → (Bytes → ℕ) → Bytes → Result Bytes
  decode_event_payload decompress from_sv_u32 [] = err (herr "empty event in EventPayload")
  decode_event_payload decompress from_sv_u32 (tag ∷ raw) =
      if tag == 0
      then ok raw
      else if tag == 1
      then (do
        throw_if (ltb (length raw) 4) (herr "EventPayload record too short to read dictId")
        decompress (from_sv_u32 (take 4 raw)) (drop 4 raw))
      else err (herr "Unexpected first byte in EventPayload")

  unfoldable pub get_event_json : (ℕ → Bytes → Result Bytes) → (Bytes → ℕ) → Db → ℕ → Result Bytes
  get_event_json decompress from_sv_u32 db lev_id = do
    payload ← or_throw (get_payload db lev_id) (herr "couldn't find event in EventPayload")
    decode_event_payload decompress from_sv_u32 payload

  -- A lookup by id finds a row of that id, or there is none.
  pub lookup_event_by_id-cases :
      (db : Db) (i : Bytes)
      → length i ≡ 32
      → ((l : ℕ) × (d : EventData) × (lookup_event_by_id db i ≡ some (l, packed d))
          × (find_row l (rows db) ≡ some d)
          × (d.id ≡ i))
        ⊎ ((lookup_event_by_id db i ≡ none)
            × All (λ (r : Row). bytes_eq r.1.id i ≡ false) (rows db))
  unfolding lookup_event_by_id
  lookup_event_by_id-cases db i size = elim (first_from-by_id db i size) [
    | inl (k, l, d, e, pre, found, same) ↦
        inl (l, d, rw (e, pre, lookup_event-some db l d found), found, same)
    | inr (absent, inl e) ↦ inr (rw e, absent)
    | inr (absent, inr (k, l, e, pre)) ↦ inr (rw (e, pre), absent)
  ]
