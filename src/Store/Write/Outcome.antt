-- ===== src/Store/Write/Outcome.antt =====
-- What a call of writeEvents of src/events_write.cpp leaves behind.
use strfry.Prelude.{ℕ, ◌≡◌, ◌≢◌, ◌⊎◌, Bool, some, List, [], ◌∷◌, All, ok}
use strfry.PackedEvent.{Lmdb}
use strfry.PackedEvent.RoundTrip.{EventData, IsPackable}
use strfry.Store.{find_row, Env}
use strfry.Store.Write.{
  EventWriteStatus, pending, EventToWrite, NegentropyUpdates, sort_events, write_events,
}
use strfry.Store.Write.Rows.{Spaced}
use strfry.Store.Write.Commit.{views}
use strfry.Store.Write.Batch.{
  Some, Supplants, Ready, datas, statuses_of, All-sort_events, Batch-Spaced, Batch-keeps,
  Batch-settled, write_events-Batch,
}
use strfry.Store.Write.Trees.{events, replay, replay-Batch}

module _ ⦃lmdb : Lmdb⦄ where
  datas-IsPackable :
      (evs : List EventToWrite) (h : All Ready evs)
      → All (λ (d : EventData). IsPackable d) (datas evs h)
  datas-IsPackable [] h = tt
  datas-IsPackable (ev ∷ evs) ((d, r), h) = (r.packable, datas-IsPackable evs h)

  module _ (env : Env) (db : env.Db) (evs : List EventToWrite) (h : All Ready evs)
      (s : Spaced (env.rows db)) where
    -- On a well-formed table and events from the parser a call succeeds; the table is well-formed
    -- afterwards (keys rise, no two rows have one id, at most one version of every replaceable event
    -- is there), and no event is left Pending.
    pub write_events-Spaced :
        (db' : env.Db) × (updates : NegentropyUpdates) × (evs' : List EventToWrite) × (write_events
            env db evs
          ≡ ok ((db', updates), evs'))
        × Spaced (env.rows db')
        × All (λ (st : EventWriteStatus). st ≢ pending) (statuses_of evs')
    write_events-Spaced =
        let (db', evs', changes, e, b) =
          write_events-Batch env db evs h (All-sort_events evs h) s in
        (
          db',
          views changes,
          evs',
          e,
          Batch-Spaced b s (datas-IsPackable (sort_events evs) (All-sort_events evs h)),
          Batch-settled b,
        )

    -- On a well-formed table and events from the parser a call succeeds, and a row that was there
    -- before is there afterwards, unchanged, unless some event of the batch is a newer version of it
    -- or a kind-5 event of its author with an e-tag that names it.
    pub write_events-keeps :
        (l : ℕ) (e : EventData)
        → find_row l (env.rows db) ≡ some e
        → (db' : env.Db) × (updates : NegentropyUpdates) × (evs' : List EventToWrite)
          × (write_events env db evs ≡ ok ((db', updates), evs'))
          × ((find_row l (env.rows db') ≡ some e)
              ⊎ Some (Supplants e) (datas (sort_events evs) (All-sort_events evs h)))
    write_events-keeps l x f =
        let (db', evs', changes, e, b) =
          write_events-Batch env db evs h (All-sort_events evs h) s in
        (db', views changes, evs', e, Batch-keeps b l x f)

    -- On a well-formed table and events from the parser a call succeeds, and the insertions and
    -- erasures that it tells the negentropy trees, replayed in order on the stored events, give the
    -- events that are stored afterwards.
    pub write_events-replay :
        (db' : env.Db) × (changes : List (EventData × Bool)) × (evs' : List EventToWrite)
        × (write_events env db evs ≡ ok ((db', views changes), evs'))
        × (replay changes (events (env.rows db)) ≡ events (env.rows db'))
    write_events-replay =
        let (db', evs', changes, e, b) =
          write_events-Batch env db evs h (All-sort_events evs h) s in
        (
          db',
          changes,
          evs',
          e,
          replay-Batch b s (datas-IsPackable (sort_events evs) (All-sort_events evs h)),
        )
