-- ===== src/Store/Write/Batch.antt =====
-- writeEvents of src/events_write.cpp on a batch of events: steps of the Event table, in sorted order.
use strfry.Prelude.{
  ℕ, ◌≡◌, refl, sym, ap, subst, ◌∙◌, ◌≢◌, ◌⊎◌, inl, inr, Bool, true, Option, none, some, List, [],
  ◌∷◌, ◌++◌, arith, Bool-cases, All, Result, ok,
}
use strfry.Prelude.Bytes.{Bytes}
use mathlib.Core.List.{append_assoc, append-nil}
use strfry.PackedEvent.{Lmdb, packed_event_view, id}
use strfry.PackedEvent.RoundTrip.{EventData, IsPackable, view_of, view-accepts, id-packed}
use strfry.Store.{Row, find_row, Env}
use strfry.Store.Write.{
  EventWriteStatus, pending, EventToWrite, NegentropyUpdates, event_before, insert_event_sorted,
  sort_events, write_loop, check_views, write_events,
}
use strfry.Store.Write.Rows.{conflict, Spaced}
use strfry.Store.Write.Replace.{newer}
use strfry.Store.Write.Targets.{names_id}
use strfry.Store.Write.Step.{
  Step, is_duplicate, is_deleted, is_replaced, is_written, Step-Spaced, Step-keeps,
}
use strfry.Store.Write.Commit.{views}
use strfry.Store.Write.Refine.{IsReady, write_event-Step}

-- The steps of a batch: each event is stepped after the one before it, whose id is `prev`.
pub data Batch
    : Option Bytes
      → List Row
      → List EventData
      → List Row
      → List EventWriteStatus
      → List (EventData × Bool)
      → Type 0 where
  done : {prev : Option Bytes} {rs : List Row} → Batch prev rs [] rs [] []
  more :
      {prev : Option Bytes} {rs : List Row} {d : EventData} {ds : List EventData}
      {status : EventWriteStatus} {mid rs' : List Row} {statuses : List EventWriteStatus}
      {first rest : List (EventData × Bool)}
      → Step rs prev d status mid first
      → Batch (some d.id) mid ds rs' statuses rest
      → Batch prev rs (d ∷ ds) rs' (status ∷ statuses) (first ++ rest)

abbrev pub Some : (EventData → Type 0) → List EventData → Type 0
Some P [] = ⊥
Some P (d ∷ ds) = P d ⊎ Some P ds

-- The event takes another out of the store: a newer version of it, or its author's deletion of it.
abbrev pub Supplants : EventData → EventData → Type 0
Supplants e d =
    ((conflict d e ≡ true) × (newer d e ≡ true))
    ⊎ ((d.kind ≡ 5) × (e.pubkey ≡ d.pubkey) × (names_id e.id d.tags ≡ true))

pub Batch-Spaced :
    {prev : Option Bytes} {rs : List Row} {ds : List EventData} {rs' : List Row}
    {statuses : List EventWriteStatus} {changes : List (EventData × Bool)}
    → Batch prev rs ds rs' statuses changes
    → Spaced rs
    → All (λ (d : EventData). IsPackable d) ds
    → Spaced rs'
Batch-Spaced done s p = s
Batch-Spaced (more st b) s p = Batch-Spaced b (Step-Spaced st s p.0) p.1

pub Batch-keeps :
    {prev : Option Bytes} {rs : List Row} {ds : List EventData} {rs' : List Row}
    {statuses : List EventWriteStatus} {changes : List (EventData × Bool)}
    → Batch prev rs ds rs' statuses changes
    → (l : ℕ) (e : EventData) → find_row l rs ≡ some e
    → (find_row l rs' ≡ some e) ⊎ Some (Supplants e) ds
Batch-keeps done l e f = inl f
Batch-keeps (more {d = d} st b) l e f = elim (Step-keeps st l e f) [
  | inl found ↦ elim (Batch-keeps b l e found) [
    | inl still ↦ inl still
    | inr later ↦ inr (inr later)
  ]
  | inr (_, (x, same, why)) ↦
      let eq : x ≡ e = ground arith in inr (inl (subst (λ (y : EventData). Supplants y d) eq why))
]

settled_status :
    {rs : List Row} {prev : Option Bytes} {d : EventData} {status : EventWriteStatus}
    {rs' : List Row} {changes : List (EventData × Bool)}
    → Step rs prev d status rs' changes
    → status ≢ pending
settled_status (is_duplicate h) = ground arith
settled_status (is_deleted h) = ground arith
settled_status (is_replaced l e f c n) = ground arith
settled_status (is_written ls fresh kept removes covered clear) = ground arith

pub Batch-settled :
    {prev : Option Bytes} {rs : List Row} {ds : List EventData} {rs' : List Row}
    {statuses : List EventWriteStatus} {changes : List (EventData × Bool)}
    → Batch prev rs ds rs' statuses changes
    → All (λ (s : EventWriteStatus). s ≢ pending) statuses
Batch-settled done = tt
Batch-settled (more st b) = (settled_status st, Batch-settled b)

module _ ⦃lmdb : Lmdb⦄ where
  abbrev pub Ready : EventToWrite → Type 0
  Ready ev = (d : EventData) × IsReady ev d

  -- The events of a batch.
  abbrev pub datas : (evs : List EventToWrite) → All Ready evs → List EventData
  datas [] h = []
  datas (ev ∷ evs) h = h.0.0 ∷ datas evs h.1

  abbrev pub statuses_of : List EventToWrite → List EventWriteStatus
  statuses_of [] = []
  statuses_of (ev ∷ evs) = ev.status ∷ statuses_of evs

  All-insert_event_sorted :
      (ev : EventToWrite) (evs : List EventToWrite)
      → Ready ev
      → All Ready evs
      → All Ready (insert_event_sorted ev evs)
  unfolding insert_event_sorted
  All-insert_event_sorted ev [] r h = (r, tt)
  All-insert_event_sorted ev (e ∷ es) r h = elim (Bool-cases (event_before e ev)) [
    | inl y ↦ rw y (h.0, All-insert_event_sorted ev es r h.1)
    | inr n ↦ rw n (r, h)
  ]

  pub All-sort_events : (evs : List EventToWrite) → All Ready evs → All Ready (sort_events evs)
  unfolding sort_events
  All-sort_events [] h = tt
  All-sort_events (e ∷ es) h =
      All-insert_event_sorted e (sort_events es) h.0 (All-sort_events es h.1)

  views-append : (cs cs' : List (EventData × Bool)) → views (cs ++ cs') ≡ views cs ++ views cs'
  views-append [] cs' = refl
  views-append (c ∷ cs) cs' = ap (λ us. (view_of c.0, c.1) ∷ us) (views-append cs cs')

  check_views-ok :
      (env : Env) (evs : List EventToWrite) → All Ready evs → check_views env evs ≡ ok tt
  unfolding check_views
  check_views-ok env [] h = refl
  check_views-ok env (ev ∷ evs) ((d, r), h) =
      let view : packed_event_view ev.packed_str ≡ ok (view_of d) =
        rw r.bytes (view-accepts d r.packable) in
      rw view (check_views-ok env evs h)

  abbrev pub Batched :
      (env : Env)
      → Option Bytes
      → env.Db
      → NegentropyUpdates
      → List EventData
      → Result ((env.Db × NegentropyUpdates) × List EventToWrite)
      → Type 0
  Batched env prev db updates ds r =
      (db' : env.Db) × (evs' : List EventToWrite) × (changes : List (EventData × Bool)) × (r
        ≡ ok ((db', updates ++ views changes), evs'))
      × Batch prev (env.rows db) ds (env.rows db') (statuses_of evs') changes

  write_loop-Batch :
      (env : Env) (prev : Option Bytes) (db : env.Db) (updates : NegentropyUpdates)
      (evs : List EventToWrite) (h : All Ready evs)
      → Spaced (env.rows db)
      → Batched env prev db updates (datas evs h) (write_loop env prev (db, updates) evs)
  unfolding write_loop
  write_loop-Batch env prev db updates [] h s = (db, [], [], rw (append-nil updates), done)
  write_loop-Batch env prev db updates (ev ∷ evs) ((d, r), h) s =
      let (db1, ev1, first, e, st) = write_event-Step env prev db updates ev d s r in
      let (db2, evs2, rest, f, b) =
        write_loop-Batch env (some d.id) db1 (updates ++ views first) evs h
          (Step-Spaced st s r.packable) in
      let same : id (record { buf = ev.packed_str }) ≡ d.id = rw r.bytes (id-packed d r.packable) in
      (
        db2,
        ev1 ∷ evs2,
        first ++ rest,
        rw (e, same, f)
            (ap (λ (us : NegentropyUpdates). ok ((db2, us), ev1 ∷ evs2))
              (append_assoc updates (views first) (views rest)
                ∙ ap (λ us. updates ++ us) (sym (views-append first rest)))),
        more st b,
      )

  pub write_events-Batch :
      (env : Env) (db : env.Db) (evs : List EventToWrite) (h : All Ready evs)
      (h' : All Ready (sort_events evs))
      → Spaced (env.rows db)
      → Batched env none db [] (datas (sort_events evs) h') (write_events env db evs)
  unfolding write_events
  write_events-Batch env db evs h h' s =
      rw (check_views-ok env evs h) (write_loop-Batch env none db [] (sort_events evs) h' s)
