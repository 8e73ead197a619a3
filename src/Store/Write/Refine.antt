-- ===== src/Store/Write/Refine.antt =====
-- The loop body of writeEvents of src/events_write.cpp takes a step of the Event table.
use strfry.Prelude.{
  ℕ, suc, ◌≤◌, ◌<◌, ◌≡◌, ap, ◌∙◌, inl, inr, Bool, true, false, not, Option, none, List, [], ◌∷◌,
  ◌++◌, map, arith, ◌==◌, if◌then◌else◌, Bool-cases, length, any, All, All-map, herr, Result, ok,
  ◌>>=◌, ◌>>◌, throw_if,
}
use strfry.Prelude.Bytes.{Bytes, bytes_eq}
use mathlib.Core.List.{append-nil}
use strfry.PackedEvent.{Lmdb, packed_event_view}
use strfry.PackedEvent.RoundTrip.{
  EventData, IsPackable, packed, view_of, view-accepts, id-packed, pubkey-packed, kind-packed,
}
use strfry.Filters.SetBytes.{same_as}
use strfry.Events.Kind.{is_replaceable, is_param_replaceable, is_deletion}
use strfry.Store.{Row, last_id, is_deletion_row, Env}
use strfry.Store.Lookup.{event_exists_by_id, lookup_event_by_id-cases}
use strfry.Store.Write.{
  EventWriteStatus, pending, duplicate, deleted, replaced, EventToWrite, NegentropyUpdates,
  check_replaceable, collect_deletion_targets, commit_event, settle, write_event,
}
use strfry.Store.Write.Rows.{
  conflict, conflict→keys, Spaced, All-find_row, keys-le-last_id, no-other-conflict,
}
use strfry.Store.Write.Replace.{newer, check_replaceable-cases}
use strfry.Store.Write.Delete.{remove_rows, gone}
use strfry.Store.Write.Targets.{HasIdTags, IsTarget, IsCovered, collect_deletion_targets-IsTarget}
use strfry.Store.Write.Step.{
  Removes, Step, is_duplicate, is_deleted, is_replaced, is_written, All-remove_rows,
}
use strfry.Store.Write.Commit.{Below, views, commit_event_lem}

-- An event that the writer may get: packed by the parser, its e-tags 32 bytes, still Pending.
pub record IsReady ⦃lmdb : Lmdb⦄ (ev : EventToWrite) (d : EventData) : Type 0 where
  pub bytes : ev.packed_str ≡ packed d
  pub packable : IsPackable d
  pub id_tags : HasIdTags d.tags
  pub is_pending : ev.status ≡ pending

module _ ⦃lmdb : Lmdb⦄ (env : Env) (prev : Option Bytes) (db : env.Db) (updates : NegentropyUpdates)
    (ev : EventToWrite) (d : EventData) where
  abbrev Stepped : Result ((env.Db × NegentropyUpdates) × EventToWrite) → Type 0
  Stepped r =
      (db' : env.Db) × (ev' : EventToWrite) × (changes : List (EventData × Bool)) × (r
        ≡ ok ((db', updates ++ views changes), ev'))
      × Step (env.rows db) prev d ev'.status (env.rows db') changes

  -- A row of the table that does not change.
  stays :
      (status : EventWriteStatus)
      → Step (env.rows db) prev d status (env.rows db) []
      → Stepped (ok ((db, updates), record ev { status = status }))
  stays status s = (db, record ev { status = status }, [], rw (append-nil updates), s)

  Removes-Below :
      (ls : List ℕ)
      → Spaced (env.rows db)
      → All (Removes (env.rows db) d) ls
      → Below (suc (last_id (env.rows db))) ls
  Removes-Below ls spaced =
      All-map {A = ℕ} (Removes (env.rows db) d) (λ l. l < suc (last_id (env.rows db)))
        (λ l (e, found, why).
          let le : l ≤ last_id (env.rows db) =
            All-find_row (λ r. r.0 ≤ last_id (env.rows db)) l (env.rows db) e
              (keys-le-last_id (env.rows db) spaced) found in
          omega (arith, le))
        ls

  module _ (spaced : Spaced (env.rows db)) (h : IsReady ev d) where
    settle-pending :
        (ls : List ℕ)
        → settle env (db, updates) (view_of d) ev none ls
          ≡ commit_event env (db, updates) (view_of d) ev ls
    unfolding settle
    settle-pending ls =
        ap
          (λ (st : EventWriteStatus).
            elim st as (λ _. Result ((env.Db × NegentropyUpdates) × EventToWrite)) [
              | pending ↦ commit_event env (db, updates) (view_of d) ev ls
              | _ ↦ (do
                throw_if (not (length ls == 0)) (herr "unprocessed deletion")
                ok ((db, updates), ev))
            ])
          h.is_pending

    commits :
        (ls : List ℕ)
        → All (λ (r : Row). bytes_eq r.1.id d.id ≡ false) (env.rows db)
        → any (λ (r : Row). is_deletion_row (d.id ++ d.pubkey) r.1) (env.rows db) ≡ false
        → All (Removes (env.rows db) d) ls
        → (d.kind ≡ 5 → All (IsCovered (env.rows db) d d.tags ls) (env.rows db))
        → All (λ (r : Row). conflict r.1 d ≡ false) (remove_rows ls (env.rows db))
        → Stepped (settle env (db, updates) (view_of d) ev none ls)
    commits ls fresh kept removes covered clear =
        let (db', ev', e, st, r) =
          commit_event_lem env db updates ev d ls spaced h.packable h.bytes
            (Removes-Below ls spaced removes) in
        (
          db',
          ev',
          (d, true) ∷ map (λ x. (x, false)) (gone ls (env.rows db)),
          settle-pending ls ∙ e,
          rw (st, r) (is_written ls fresh kept removes covered clear),
        )

    abbrev Fresh : Type 0
    Fresh = All (λ (r : Row). bytes_eq r.1.id d.id ≡ false) (env.rows db)

    abbrev Kept : Type 0
    Kept = any (λ (r : Row). is_deletion_row (d.id ++ d.pubkey) r.1) (env.rows db) ≡ false

    settled :
        Fresh
        → Kept
        → Stepped (do
          replace ← check_replaceable env db (view_of d) d.kind []
          to_delete ←
              (if is_deletion d.kind
                then collect_deletion_targets env db (view_of d) replace.1
                else ok replace.1)
          settle env (db, updates) (view_of d) ev replace.0 to_delete)
    settled fresh kept = elim (check_replaceable-cases env db spaced d h.packable) [
      | inl (e, clear) ↦ elim (Bool-cases (is_deletion d.kind)) [
        | inl del ↦
            let (ls, c, targets, covered) =
              collect_deletion_targets-IsTarget env db d h.packable spaced h.id_tags [] in
            let five : d.kind ≡ 5 = (unfold is_deletion in ground arith) in
            rw (e, del, c)
              (commits ls fresh kept
                (All-map {A = ℕ} (IsTarget (env.rows db) d d.tags) (Removes (env.rows db) d)
                  (λ l (x, found, same, named). (x, found, inr (five, same, named))) ls targets)
                (λ _. covered)
                (All-remove_rows (λ (r : Row). conflict r.1 d ≡ false) ls (env.rows db) clear))
        | inr keep ↦
            rw (e, keep)
              (commits [] fresh kept tt (λ five. absurd (unfold is_deletion in ground arith))
                (All-remove_rows (λ (r : Row). conflict r.1 d ≡ false) [] (env.rows db) clear))
      ]
      | inr (l, x, found, clash, e) ↦
          let (s, ds, xs, same_kind, class) = conflict→keys d x clash in
          let keep : is_deletion d.kind ≡ false =
            (unfold is_deletion is_replaceable is_param_replaceable in ground arith) in
          elim (Bool-cases (newer d x)) [
            | inl new ↦
                rw (e, new, keep)
                  (commits (l ∷ []) fresh kept ((x, found, inl (clash, new)), tt)
                    (λ five. absurd (unfold is_deletion in ground arith))
                    (unfold remove_rows in
                      no-other-conflict d x l (env.rows db) spaced found clash))
            | inr old ↦
                rw (e, old, keep)
                  (unfold settle in stays replaced (is_replaced l x found clash old))
          ]
    ]

    -- The loop body never fails on a well-formed table, and does a step on it.
    pub write_event-Step : Stepped (write_event env prev (db, updates) ev)
    unfolding write_event event_exists_by_id
    write_event-Step =
        let view : packed_event_view ev.packed_str ≡ ok (view_of d) =
          rw h.bytes (view-accepts d h.packable) in
        rw (view, id-packed d h.packable, pubkey-packed d h.packable, kind-packed d h.packable)
          (elim (lookup_event_by_id-cases env db d.id h.packable.id_size) [
            | inl (l, e, found, row, same) ↦
                let y : event_exists_by_id env db d.id ≡ true = rw (found, event_exists_by_id) in
                rw y (stays duplicate (is_duplicate (inl (l, e, row, same))))
            | inr (missing, fresh) ↦
                let n : event_exists_by_id env db d.id ≡ false = rw (missing, event_exists_by_id) in
                elim (Bool-cases (same_as prev d.id)) [
                  | inl again ↦ rw (n, again) (stays duplicate (is_duplicate (inr again)))
                  | inr new ↦
                      elim (Bool-cases
                        (any (λ (r : Row). is_deletion_row (d.id ++ d.pubkey) r.1) (env.rows db))) [
                          | inl del ↦
                              rw (n, new, env.has_deletion-any db (d.id ++ d.pubkey), del)
                                (stays deleted (is_deleted del))
                          | inr kept ↦
                              rw (n, new, env.has_deletion-any db (d.id ++ d.pubkey), kept)
                                (settled fresh kept)
                        ]
                ]
          ])
