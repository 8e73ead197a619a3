-- ===== src/Store/Write.antt =====
-- src/events_write.cpp and deleteEvents of src/events.h: writing a batch of events.
-- The updates of the negentropy trees that a call makes are recorded in order: `true` inserts.
pub mod Rows
pub mod Replace
pub mod Delete
pub mod Targets
pub mod Step
pub mod Commit
pub mod Refine
pub mod Batch
pub mod Sorted
pub mod Trees
pub mod Outcome
pub mod Erase
use strfry.Prelude.{
  ℕ, ◌+◌, Bool, true, false, not, ◌&&◌, ◌||◌, Option, none, some, List, [], ◌∷◌, ◌++◌, ltb, ◌==◌,
  if◌then◌else◌, max_u64, length, herr, Result, ok, err, ◌>>=◌, ◌>>◌, throw_if,
}
use strfry.Prelude.Bytes.{Bytes, bytes_eq, bytes_lt}
use strfry.PackedEvent.{
  Lmdb, PackedEventView, packed_event_view, id, pubkey, created_at, kind, foreach_tag,
}
use strfry.Filters.SetBytes.{same_as}
use strfry.Events.Kind.{is_replaceable, is_param_replaceable, is_deletion}
use strfry.Store.{Index, by_replace, Env}
use strfry.Store.Lookup.{lookup_event_by_id, event_exists_by_id, lookup_event_by_lev_id}

pub data EventWriteStatus : Type 0 where
  pending written duplicate replaced deleted : EventWriteStatus

pub record EventToWrite : Type 0 where
  pub packed_str : Bytes
  pub json_str : Bytes
  pub ip_addr : Bytes
  pub conn_id : ℕ
  pub status : EventWriteStatus
  pub lev_id : ℕ

-- The callback that looks for the first d-tag.
unfoldable pub find_d_tag : ℕ → Bytes → Option Bytes → Option Bytes × Bool
find_d_tag tag_name tag_val replace =
    if tag_name == b'd' then (some tag_val, false) else (replace, true)

abbrev pub NegentropyUpdates : Type 0
NegentropyUpdates = List (PackedEventView × Bool)

-- The comparator of std::sort: by time, then by id.
unfoldable pub event_before : ⦃lmdb : Lmdb⦄ → EventToWrite → EventToWrite → Bool
event_before a b =
    let a_view : PackedEventView = record { buf = a.packed_str } in
    let b_view : PackedEventView = record { buf = b.packed_str } in
    if created_at a_view == created_at b_view
    then bytes_lt (id a_view) (id b_view)
    else ltb (created_at a_view) (created_at b_view)

unfoldable pub insert_event_sorted :
    ⦃lmdb : Lmdb⦄ → EventToWrite → List EventToWrite → List EventToWrite
insert_event_sorted ev [] = ev ∷ []
insert_event_sorted ev (e ∷ es) =
    if event_before e ev then e ∷ insert_event_sorted ev es else ev ∷ e ∷ es

unfoldable pub sort_events : ⦃lmdb : Lmdb⦄ → List EventToWrite → List EventToWrite
sort_events [] = []
sort_events (e ∷ es) = insert_event_sorted e (sort_events es)

module _ ⦃lmdb : Lmdb⦄ (env : Env) where
  open env use {
    Db, make_key, key_s, key_n, lookup_event, insert_event, delete_event, put_payload, del_payload,
    first_from, has_deletion,
  }

  unfoldable pub delete_event_basic : Db → ℕ → Bool × Db
  delete_event_basic db lev_id =
      let (gone, db') = del_payload db lev_id in (gone, delete_event db' lev_id)

  -- otherTimestamp < thisTimestamp, or equal times and the smaller id.
  unfoldable pub supersedes : PackedEventView → PackedEventView → Bool
  supersedes packed other =
      ltb (created_at other) (created_at packed)
      || ((created_at other == created_at packed) && bytes_lt (id packed) (id other))

  -- The callback of the search in the index `replace`, on the entry that is visited first.
  unfoldable pub replace_entry :
      Db
      → PackedEventView
      → Bytes
      → List ℕ
      → Option (Bytes × ℕ)
      → Result (Option EventWriteStatus × List ℕ)
  replace_entry db packed search_str to_delete none = ok (none, to_delete)
  replace_entry db packed search_str to_delete (some (k, v)) =
      if bytes_eq (key_s k) search_str && (key_n k == kind packed)
      then (do
        other ← lookup_event_by_lev_id env db v
        other_packed ← packed_event_view other.1
        ok (
            if supersedes packed other_packed
            then (none, to_delete ++ other.0 ∷ [])
            else (some replaced, to_delete)))
      else ok (none, to_delete)

  unfoldable pub check_replace_key :
      Db → PackedEventView → List ℕ → Option Bytes → Result (Option EventWriteStatus × List ℕ)
  check_replace_key db packed to_delete none = ok (none, to_delete)
  check_replace_key db packed to_delete (some replace) =
      let search_str = pubkey packed ++ replace in
      replace_entry db packed search_str to_delete
        (first_from db by_replace (make_key search_str (kind packed)) max_u64 true)

  unfoldable pub check_replaceable :
      Db → PackedEventView → ℕ → List ℕ → Result (Option EventWriteStatus × List ℕ)
  check_replaceable db packed k to_delete = do
    replace ←
        (if is_replaceable k || is_param_replaceable k
          then foreach_tag find_d_tag packed none
          else ok none)
    check_replace_key db packed to_delete replace

  -- One e-tag of a deletion event: the target is marked if it has the same author.
  unfoldable pub mark_target : PackedEventView → List ℕ → Option (ℕ × Bytes) → Result (List ℕ)
  mark_target packed to_delete none = ok to_delete
  mark_target packed to_delete (some (l, buf)) = do
    other ← packed_event_view buf
    ok (if bytes_eq (pubkey other) (pubkey packed) then to_delete ++ l ∷ [] else to_delete)

  unfoldable pub mark_tag :
      Db → PackedEventView → ℕ → Bytes → Result (List ℕ) → Result (List ℕ) × Bool
  mark_tag db packed tag_name tag_val acc =
      let acc' = (do
        to_delete ← acc
        mark_target packed to_delete (lookup_event_by_id env db tag_val)) in
      if tag_name == b'e' then (acc', elim acc' [ ok l ↦ true | err e ↦ false ]) else (acc, true)

  unfoldable pub collect_deletion_targets : Db → PackedEventView → List ℕ → Result (List ℕ)
  collect_deletion_targets db packed to_delete = do
    r ← foreach_tag (mark_tag db packed) packed (ok to_delete)
    r

  -- The loop that deletes what was marked.
  unfoldable pub delete_marked : List ℕ → Db × NegentropyUpdates → Result (Db × NegentropyUpdates)
  delete_marked [] acc = ok acc
  delete_marked (l ∷ ls) (db, updates) = elim (lookup_event db l) [
    | none ↦ delete_marked ls (db, updates)
    | some buf ↦ (do
      view ← packed_event_view buf
      delete_marked ls ((delete_event_basic db l).1, updates ++ (view, false) ∷ []))
  ]

  -- The branch for an event that is still pending.
  unfoldable pub commit_event :
      Db × NegentropyUpdates
      → PackedEventView
      → EventToWrite
      → List ℕ
      → Result ((Db × NegentropyUpdates) × EventToWrite)
  commit_event (db, updates) packed ev to_delete = do
    let inserted = insert_event db ev.packed_str
    let stored = put_payload inserted.1 inserted.0 (0 ∷ ev.json_str)
    acc ← delete_marked to_delete (stored, updates ++ (packed, true) ∷ [])
    ok (acc, record ev { lev_id = inserted.0; status = written })

  -- What happens to an event that is neither a duplicate nor deleted; the status is Pending unless
  -- checkReplaceable returned one. What is left to delete is an error.
  unfoldable pub settle :
      Db × NegentropyUpdates
      → PackedEventView
      → EventToWrite
      → Option EventWriteStatus
      → List ℕ
      → Result ((Db × NegentropyUpdates) × EventToWrite)
  settle acc packed ev none to_delete = elim ev.status [
    | pending ↦ commit_event acc packed ev to_delete
    | _ ↦ (do throw_if (not (length to_delete == 0)) (herr "unprocessed deletion"); ok (acc, ev))
  ]
  settle acc packed ev (some pending) to_delete =
      commit_event acc packed (record ev { status = pending }) to_delete
  settle acc packed ev (some status) to_delete = do
    throw_if (not (length to_delete == 0)) (herr "unprocessed deletion")
    ok (acc, record ev { status = status })

  -- One round of the loop; `prev` is the id of the event before, and levIdsToDelete is empty.
  unfoldable pub write_event :
      Option Bytes
      → Db × NegentropyUpdates
      → EventToWrite
      → Result ((Db × NegentropyUpdates) × EventToWrite)
  write_event prev acc ev = do
    packed ← packed_event_view ev.packed_str
    let settled = (do
      replace ← check_replaceable acc.0 packed (kind packed) []
      to_delete ←
          (if is_deletion (kind packed)
            then collect_deletion_targets acc.0 packed replace.1
            else ok replace.1)
      settle acc packed ev replace.0 to_delete)
    if event_exists_by_id env acc.0 (id packed) || same_as prev (id packed)
        then ok (acc, record ev { status = duplicate })
        else if has_deletion acc.0 (id packed ++ pubkey packed)
        then ok (acc, record ev { status = deleted })
        else settled

  unfoldable pub write_loop :
      Option Bytes
      → Db × NegentropyUpdates
      → List EventToWrite
      → Result ((Db × NegentropyUpdates) × List EventToWrite)
  write_loop prev acc [] = ok (acc, [])
  write_loop prev acc (ev ∷ evs) = do
    one ← write_event prev acc ev
    rest ← write_loop (some (id (record { buf = ev.packed_str }))) one.0 evs
    ok (rest.0, one.1 ∷ rest.1)

  -- The comparator and the loop make a view of every event.
  unfoldable pub check_views : List EventToWrite → Result (Unit {0})
  check_views [] = ok tt
  check_views (ev ∷ evs) = do view ← packed_event_view ev.packed_str; check_views evs

  unfoldable pub write_events :
      Db → List EventToWrite → Result ((Db × NegentropyUpdates) × List EventToWrite)
  write_events db evs = do check_views evs; write_loop none (db, []) (sort_events evs)

  -- deleteEvents, with the number of events that were there.
  unfoldable pub delete_events :
      List ℕ → Db × NegentropyUpdates → Result (ℕ × (Db × NegentropyUpdates))
  delete_events [] acc = ok (0, acc)
  delete_events (l ∷ ls) (db, updates) = elim (lookup_event db l) [
    | none ↦ delete_events ls (db, updates)
    | some buf ↦ (do
      view ← packed_event_view buf
      let gone = delete_event_basic db l
      rest ← delete_events ls (gone.1, updates ++ (view, false) ∷ [])
      ok (if gone.0 then rest.0 + 1 else rest.0, rest.1))
  ]
