-- ===== src/Cron.antt =====
-- src/apps/relay/RelayCron.cpp: the periodic deletion of expired events.
-- The index `expiration` is code that golpe generates: its entries, in the order of the index, are an
-- argument, with the laws in Cron/Expired.
pub mod Expired
pub mod Round
use strfry.Prelude.{
  ℕ, ◌+◌, ◌-◌, ◌%◌, Bool, List, [], ◌∷◌, ltb, leb, ◌==◌, if◌then◌else◌, u64_mod, length, herr,
  Result, ok, ◌>>=◌, ◌>>◌, or_throw,
}
use strfry.PackedEvent.{Lmdb, packed_event_view, created_at}
use strfry.Store.{Env}
use strfry.Store.Lookup.{get_most_recent_lev_id}
use strfry.Store.Write.{NegentropyUpdates, delete_events}

-- now - lifetime in 64 bits.
unfoldable pub ephemeral_cutoff : ℕ → ℕ → ℕ
ephemeral_cutoff now lifetime = (now + u64_mod - lifetime) % u64_mod

module _ ⦃lmdb : Lmdb⦄ (env : Env) where
  -- Whether an ephemeral event is old enough; an error where the index has a key that the table lacks.
  unfoldable pub is_old : env.Db → ℕ → ℕ → Result Bool
  is_old db cutoff lev_id = do
    buf ← or_throw (env.lookup_event db lev_id) (herr "missing event from index, corrupt DB?")
    view ← packed_event_view buf
    ok (leb (created_at view) cutoff)

  -- The callback over the entries: an expiration and a levId. It stops behind the clock.
  unfoldable pub collect_expired : env.Db → ℕ → ℕ → ℕ → List (ℕ × ℕ) → Result (List ℕ)
  collect_expired db most_recent now cutoff [] = ok []
  collect_expired db most_recent now cutoff ((expiration, lev_id) ∷ entries) =
      let rest = collect_expired db most_recent now cutoff entries in
      let ephemeral = (do
        old ← is_old db cutoff lev_id
        lev_ids ← rest
        ok (if old then lev_id ∷ lev_ids else lev_ids)) in
      let expired = (do lev_ids ← rest; ok (lev_id ∷ lev_ids)) in
      if ltb now expiration
      then ok []
      else if lev_id == most_recent
      then rest
      else if expiration == 1
      then ephemeral
      else expired

  -- One round, with the clock, the configured lifetime and the entries of the index.
  unfoldable pub run_cron :
      ℕ → ℕ → List (ℕ × ℕ) → env.Db → Result (ℕ × (env.Db × NegentropyUpdates))
  run_cron now lifetime entries db = do
    lev_ids ←
        collect_expired db (get_most_recent_lev_id env db) now (ephemeral_cutoff now lifetime)
          entries
    (if length lev_ids == 0 then ok (0, (db, [])) else delete_events env lev_ids (db, []))
