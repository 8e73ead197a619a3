-- ===== src/Tests/Expiring.antt =====
-- A round of the cron thread on a table with an ephemeral event, an expired one and two that stay.
use strfry.Prelude.{false, true, ◌==◌}
use strfry.Prelude.{
  ℕ, ◌≤◌, ◌<◌, ◌≡◌, refl, ◌⊎◌, none, some, List, [], ◌∷◌, ◌++◌, arith, u64_mod, length, ok,
}
use strfry.Prelude.Bytes.{bytes_eq}
use strfry.PackedEvent.RoundTrip.{EventData, IsPackable}
use strfry.Events.Kind.{is_replaceable, is_param_replaceable}
use strfry.Store.{find_row, last_id}
use strfry.Store.Lookup.{get_most_recent_lev_id}
use strfry.Store.Write.{NegentropyUpdates, delete_events}
use strfry.Store.Write.Rows.{Spaced, conflict}
use strfry.Store.Write.Delete.{erasures, gone, remove_rows}
use strfry.Store.Write.Erase.{delete_events-Deleted}
use strfry.Cron.{run_cron}
use strfry.Cron.Expired.{Entries, has_entry, is_outdated}
use strfry.Cron.Round.{run_cron-keeps, run_cron-deletes}
use strfry.Tests.World.{little_endian}
use strfry.Tests.Table.{Table}
use strfry.Tests.Instance.{list_env}
use strfry.Tests.Values.{fill}

abbrev event : ℕ → ℕ → ℕ → EventData
event n kind expiration = record {
  id = fill 32 n;
  pubkey = fill 32 9;
  created_at = 100;
  kind = kind;
  expiration = expiration;
  tags = [];
}

event-IsPackable :
    (n kind expiration : ℕ)
    → kind < u64_mod
    → expiration < u64_mod
    → IsPackable (event n kind expiration)
event-IsPackable n kind expiration k e = record {
  id_size = refl;
  pubkey_size = refl;
  created_at_u64 = omega arith;
  kind_u64 = k;
  expiration_u64 = e;
  tags_fit = tt;
}

abbrev store : Table
store = record {
  rows = (1, event 1 1 0) ∷ (2, event 2 20001 1) ∷ (3, event 3 1 500) ∷ [];
  rising = ((omega arith, (omega arith, tt)), ((omega arith, tt), (tt, tt)));
  payloads = [];
}

store-Spaced : Spaced store.rows
unfolding bytes_eq conflict is_replaceable is_param_replaceable
store-Spaced = (
  event-IsPackable 1 1 0 (omega arith) (omega arith),
  (
    (omega arith, record { other_id = refl; no_conflict = refl }),
    ((omega arith, record { other_id = refl; no_conflict = refl }), tt),
  ),
  (
    event-IsPackable 2 20001 1 (omega arith) (omega arith),
    ((omega arith, record { other_id = refl; no_conflict = refl }), tt),
    (event-IsPackable 3 1 500 (omega arith) (omega arith), tt, tt),
  ),
)

abbrev entries : List (ℕ × ℕ)
entries = (1, 2) ∷ (500, 3) ∷ []

store-Entries : Entries store.rows entries
unfolding find_row
store-Entries = (
  (event 2 20001 1, refl, refl, omega arith),
  (omega arith, tt),
  ((event 3 1 500, refl, refl, omega arith), tt, tt),
)

run_cron-keeps_example :
    (n : ℕ) × (db' : Table) × (us : NegentropyUpdates) × (run_cron list_env 1000 300 entries store
      ≡ ok (n, (db', us)))
    × Spaced db'.rows
    × ((find_row 1 db'.rows ≡ some (event 1 1 0))
        ⊎ (((1 == get_most_recent_lev_id list_env store) ≡ false)
            × (is_outdated 1000 300 (event 1 1 0) ≡ true)))
unfolding find_row
run_cron-keeps_example =
    run_cron-keeps list_env 1000 300 entries store store-Spaced store-Entries (omega arith)
      (omega arith) 1 (event 1 1 0) refl

run_cron-deletes_example :
    (n : ℕ) × (db' : Table) × (us : NegentropyUpdates) × (run_cron list_env 1000 300 entries store
      ≡ ok (n, (db', us)))
    × (find_row 2 db'.rows ≡ none)
unfolding find_row has_entry is_outdated get_most_recent_lev_id last_id
run_cron-deletes_example =
    run_cron-deletes list_env 1000 300 entries store store-Spaced store-Entries (omega arith)
      (omega arith) 2 (event 2 20001 1) refl refl refl refl

delete_events-Deleted_example :
    (n : ℕ) × (db' : Table) × (delete_events list_env (2 ∷ 2 ∷ []) (store, [])
      ≡ ok (n, (db', [] ++ erasures (gone (2 ∷ 2 ∷ []) store.rows))))
    × (n ≤ length (gone (2 ∷ 2 ∷ []) store.rows))
    × (db'.rows ≡ remove_rows (2 ∷ 2 ∷ []) store.rows)
delete_events-Deleted_example = delete_events-Deleted list_env (2 ∷ 2 ∷ []) store [] (
  event-IsPackable 1 1 0 (omega arith) (omega arith),
  (
    event-IsPackable 2 20001 1 (omega arith) (omega arith),
    (event-IsPackable 3 1 500 (omega arith) (omega arith), tt),
  ),
)
