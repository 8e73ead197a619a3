-- ===== src/Tests/Writing.antt =====
-- A batch that replaces a profile and deletes a note, on a table as lists.
use strfry.Prelude.{
  ℕ, ◌≡◌, refl, ◌≢◌, ◌⊎◌, Bool, false, none, some, List, [], ◌∷◌, ◌++◌, arith, All, ok,
}
use strfry.Prelude.Bytes.{Bytes, codes, bytes_eq}
use strfry.PackedEvent.RoundTrip.{EventData, IsPackable, packed, view_of}
use strfry.Events.Kind.{is_replaceable}
use strfry.Store.{Row, find_row}
use strfry.Store.Lookup.{lookup_event_by_id, lookup_event_by_id-cases}
use strfry.Store.Write.{
  EventWriteStatus, pending, EventToWrite, NegentropyUpdates, check_replaceable,
  collect_deletion_targets, delete_marked, sort_events, write_event, write_events,
}
use strfry.Store.Write.Rows.{Spaced, conflict}
use strfry.Store.Write.Replace.{ReplaceCases, check_replaceable-cases}
use strfry.Store.Write.Delete.{remove_rows, gone, erasures, delete_marked_lem}
use strfry.Store.Write.Targets.{IsTarget, IsCovered, collect_deletion_targets-IsTarget}
use strfry.Store.Write.Step.{Step}
use strfry.Store.Write.Commit.{views}
use strfry.Store.Write.Refine.{IsReady, write_event-Step}
use strfry.Store.Write.Batch.{Some, Supplants, Ready, datas, statuses_of, All-sort_events, Batched}
use mathlib.Core.List.{Permᴰ}
use strfry.Store.Write.Sorted.{InOrder, write_events-InOrder}
use strfry.Store.Write.Trees.{events, replay}
use strfry.Store.Write.Outcome.{write_events-Spaced, write_events-keeps, write_events-replay}
use strfry.Tests.World.{little_endian}
use strfry.Tests.Table.{Table}
use strfry.Tests.Instance.{list_env}
use strfry.Tests.Values.{fill}

abbrev event : ℕ → ℕ → ℕ → List (ℕ × Bytes) → EventData
event n created_at kind tags = record {
  id = fill 32 n;
  pubkey = fill 32 9;
  created_at = created_at;
  kind = kind;
  expiration = 0;
  tags = tags;
}

abbrev profile_1 : EventData
profile_1 = event 1 100 0 ((b'd', []) ∷ [])

abbrev profile_2 : EventData
profile_2 = event 2 200 0 ((b'd', []) ∷ [])

abbrev note : EventData
note = event 3 150 1 []

abbrev deletion : EventData
deletion = event 4 300 5 ((b'e', fill 32 3) ∷ [])

profile_1-IsPackable : IsPackable profile_1
profile_1-IsPackable = record {
  id_size = refl;
  pubkey_size = refl;
  created_at_u64 = omega arith;
  kind_u64 = omega arith;
  expiration_u64 = omega arith;
  tags_fit = (omega arith, tt);
}

profile_2-IsPackable : IsPackable profile_2
profile_2-IsPackable = record {
  id_size = refl;
  pubkey_size = refl;
  created_at_u64 = omega arith;
  kind_u64 = omega arith;
  expiration_u64 = omega arith;
  tags_fit = (omega arith, tt);
}

note-IsPackable : IsPackable note
note-IsPackable = record {
  id_size = refl;
  pubkey_size = refl;
  created_at_u64 = omega arith;
  kind_u64 = omega arith;
  expiration_u64 = omega arith;
  tags_fit = tt;
}

deletion-IsPackable : IsPackable deletion
deletion-IsPackable = record {
  id_size = refl;
  pubkey_size = refl;
  created_at_u64 = omega arith;
  kind_u64 = omega arith;
  expiration_u64 = omega arith;
  tags_fit = (omega arith, tt);
}

abbrev store : Table
store = record {
  rows = (1, profile_1) ∷ (2, note) ∷ [];
  rising = ((omega arith, tt), (tt, tt));
  payloads = [];
}

store-Spaced : Spaced store.rows
unfolding bytes_eq conflict is_replaceable
store-Spaced = (
  profile_1-IsPackable,
  ((omega arith, record { other_id = refl; no_conflict = refl }), tt),
  (note-IsPackable, tt, tt),
)

abbrev to_write : EventData → EventToWrite
to_write d = record {
  packed_str = packed d;
  json_str = codes "{}";
  ip_addr = [];
  conn_id = 0;
  status = pending;
  lev_id = 0;
}

profile_2-IsReady : IsReady (to_write profile_2) profile_2
profile_2-IsReady = record {
  bytes = refl;
  packable = profile_2-IsPackable;
  id_tags = ((λ h. absurd (ground arith)), tt);
  is_pending = refl;
}

deletion-IsReady : IsReady (to_write deletion) deletion
deletion-IsReady = record {
  bytes = refl;
  packable = deletion-IsPackable;
  id_tags = ((λ h. refl), tt);
  is_pending = refl;
}

abbrev batch : List EventToWrite
batch = to_write deletion ∷ to_write profile_2 ∷ []

batch-Ready : All Ready batch
batch-Ready = ((deletion, deletion-IsReady), ((profile_2, profile_2-IsReady), tt))

write_events-Spaced_example :
    (db' : Table) × (updates : NegentropyUpdates) × (evs' : List EventToWrite) × (write_events
        list_env store batch
      ≡ ok ((db', updates), evs'))
    × Spaced db'.rows
    × All (λ (st : EventWriteStatus). st ≢ pending) (statuses_of evs')
write_events-Spaced_example = write_events-Spaced list_env store batch batch-Ready store-Spaced

write_events-keeps_example :
    (db' : Table) × (updates : NegentropyUpdates) × (evs' : List EventToWrite) × (write_events
        list_env store batch
      ≡ ok ((db', updates), evs'))
    × ((find_row 1 db'.rows ≡ some profile_1)
        ⊎ Some
            (Supplants profile_1)
            (datas (sort_events batch) (All-sort_events batch batch-Ready)))
unfolding find_row
write_events-keeps_example =
    write_events-keeps list_env store batch batch-Ready store-Spaced 1 profile_1 refl

write_events-replay_example :
    (db' : Table) × (changes : List (EventData × Bool)) × (evs' : List EventToWrite) × (write_events
        list_env store batch
      ≡ ok ((db', views changes), evs'))
    × (replay changes (events store.rows) ≡ events db'.rows)
write_events-replay_example = write_events-replay list_env store batch batch-Ready store-Spaced

write_events-InOrder_example :
    (ds : List EventData) × Permᴰ ds (datas batch batch-Ready)
    × InOrder ds
    × Batched list_env none store [] ds (write_events list_env store batch)
write_events-InOrder_example = write_events-InOrder list_env store batch batch-Ready store-Spaced

write_event-Step_example :
    (db' : Table) × (ev' : EventToWrite) × (changes : List (EventData × Bool)) × (write_event
        list_env none
        (store, [])
        (to_write deletion)
      ≡ ok ((db', views changes), ev'))
    × Step store.rows none deletion ev'.status db'.rows changes
write_event-Step_example =
    write_event-Step list_env none store [] (to_write deletion) deletion store-Spaced
      deletion-IsReady

check_replaceable-cases_example :
    ReplaceCases list_env store profile_2
      (check_replaceable list_env store (view_of profile_2) 0 [])
check_replaceable-cases_example =
    check_replaceable-cases list_env store store-Spaced profile_2 profile_2-IsPackable

collect_deletion_targets-IsTarget_example :
    (ls : List ℕ) × (collect_deletion_targets list_env store (view_of deletion) [] ≡ ok ([] ++ ls))
    × All (IsTarget store.rows deletion deletion.tags) ls
    × All (IsCovered store.rows deletion deletion.tags ls) store.rows
collect_deletion_targets-IsTarget_example =
    collect_deletion_targets-IsTarget list_env store deletion deletion-IsPackable store-Spaced
      ((λ h. refl), tt) []

delete_marked_lem_example :
    (db' : Table) × (delete_marked list_env (2 ∷ []) (store, [])
      ≡ ok (db', [] ++ erasures (gone (2 ∷ []) store.rows)))
    × (db'.rows ≡ remove_rows (2 ∷ []) store.rows)
delete_marked_lem_example =
    delete_marked_lem list_env (2 ∷ []) store [] (profile_1-IsPackable, (note-IsPackable, tt))

lookup_event_by_id-cases_example :
    ((l : ℕ) × (d : EventData) × (lookup_event_by_id list_env store (fill 32 3)
        ≡ some (l, packed d))
      × (find_row l store.rows ≡ some d)
      × (d.id ≡ fill 32 3))
    ⊎ ((lookup_event_by_id list_env store (fill 32 3) ≡ none)
        × All (λ (r : Row). bytes_eq r.1.id (fill 32 3) ≡ false) store.rows)
lookup_event_by_id-cases_example = lookup_event_by_id-cases list_env store (fill 32 3) refl
