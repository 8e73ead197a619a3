-- ===== src/QueryScheduler.antt =====
-- src/QueryScheduler.h: the queries that are running, by connection and name, each in its time slice.
-- DBQuery::process of src/DBQuery.h is what a section passes in. A pointer to a DBQuery is a number
-- that `new` gives out once; following one that was deleted is an error.
pub mod Valid
pub mod Adding
pub mod Turns
pub mod Slices
pub mod Closing
use strfry.Prelude.{
  ℕ, suc, ◌≡◌, Bool, true, false, Option, none, some, List, [], ◌∷◌, ◌++◌, leb, ◌==◌, if◌then◌else◌,
  length, Error, herr, Result, ok, ◌>>=◌, or_throw,
}
use strfry.Prelude.Bytes.{Bytes}
use strfry.HashMap.{nat_keys, get, adjust, erase}
use strfry.ConnMap.{ConnMap, find_in, erase_in, open_conn, emplace_in}
use strfry.Subscriptions.SubId.{sv}
use strfry.Subscriptions.Subscription.{Subscription}

-- `progress` is what a query keeps between its slices.
pub record DbQuery (Q : Type 0) : Type 0 where
  pub sub : Subscription
  pub dead : Bool
  pub progress : Q

-- DBQuery: what a new query starts with, one slice (the levIds that it reports, and whether it is
-- complete), and the size of sentEventsFull.
pub record Scanning (D Q : Type 0) : Type 0 where
  pub fresh : Q
  pub scan : D → Subscription → Q → Result (Q × List ℕ × Bool)
  pub sent_count : Q → ℕ
  pub get_payload : D → ℕ → Option Bytes

-- The calls of the callbacks.
pub data Callback : Type 0 where
  on_event : Subscription → ℕ → Bytes → Callback
  on_event_batch : Subscription → List ℕ → Callback
  on_complete : Subscription → ℕ → Callback

-- Which callbacks are set, `ensureExists`, and the state. `heap` holds what `new` made and `delete` has
-- not destroyed.
pub record QueryScheduler (Q : Type 0) : Type 0 where
  pub has_on_event : Bool
  pub has_on_event_batch : Bool
  pub has_on_complete : Bool
  pub ensure_exists : Bool
  pub conns : ConnMap ℕ
  pub running : List ℕ
  pub heap : List (ℕ × DbQuery Q)
  pub next_pointer : ℕ

abbrev pub dangling : Error
dangling = herr "dangling pointer"

module _ {Q : Type 0} where
  abbrev pub kill : DbQuery Q → DbQuery Q
  kill q = record q { dead = true }

  unfoldable pub find_query : ℕ → Bytes → QueryScheduler Q → Option ℕ
  find_query c s sch = find_in c s sch.conns

  unfoldable pub remove_sub : ℕ → Bytes → QueryScheduler Q → Result (QueryScheduler Q)
  remove_sub c s sch = elim (find_query c s sch) [
    | none ↦ ok sch
    | some p ↦ (do
      q ← or_throw (get nat_keys p sch.heap) dangling
      ok (record sch { heap = adjust nat_keys p kill sch.heap; conns = erase_in c s sch.conns }))
  ]

  -- The loop of closeConn.
  unfoldable pub kill_all : List (Bytes × ℕ) → List (ℕ × DbQuery Q) → Result (List (ℕ × DbQuery Q))
  kill_all [] heap = ok heap
  kill_all ((s, p) ∷ ps) heap = do
    q ← or_throw (get nat_keys p heap) dangling
    kill_all ps (adjust nat_keys p kill heap)

  unfoldable pub close_conn : ℕ → QueryScheduler Q → Result (QueryScheduler Q)
  close_conn c sch = elim (get nat_keys c sch.conns) [
    | none ↦ ok sch
    | some ps ↦ (do
      heap ← kill_all ps sch.heap
      ok (record sch { heap = heap; conns = erase nat_keys c sch.conns }))
  ]

module _ {D Q : Type 0} (scanning : Scanning D Q) where
  -- new DBQuery(sub), its entry in the map, and its place at the front.
  unfoldable pub start_query : Subscription → QueryScheduler Q → QueryScheduler Q
  start_query sub sch = record sch {
    conns = emplace_in sub.conn_id (sv sub.sub_id) sch.next_pointer sch.conns;
    running = sch.next_pointer ∷ sch.running;
    heap =
        (sch.next_pointer, record { sub = sub; dead = false; progress = scanning.fresh })
        ∷ sch.heap;
    next_pointer = suc sch.next_pointer;
  }

  -- From conns.try_emplace on: false where the connection has its fill of queries.
  unfoldable pub insert_sub : ℕ → Subscription → QueryScheduler Q → QueryScheduler Q × Bool
  insert_sub max_subs sub sch =
      let opened = record sch { conns = open_conn sub.conn_id sch.conns } in
      elim (get nat_keys sub.conn_id opened.conns) [
        | none ↦ (opened, false)
        | some qs ↦
            if leb max_subs (length qs) then (opened, false) else (start_query sub opened, true)
      ]

  -- `latest` is getMostRecentLevId of the transaction, and `max_subs` the setting
  -- relay__maxSubsPerConnection.
  unfoldable pub add_sub :
      ℕ → ℕ → Subscription → QueryScheduler Q → Result (QueryScheduler Q × Bool)
  add_sub max_subs latest sub sch = do
    removed ← remove_sub sub.conn_id (sv sub.sub_id) sch
    ok (insert_sub max_subs (record sub { latest_event_id = latest }) removed)

  abbrev pub payload_of : D → Bool → ℕ → Option Bytes
  payload_of db ensure lev_id = if ensure then scanning.get_payload db lev_id else some []

  abbrev pub when : Bool → Callback → List Callback → List Callback
  when b call calls = if b then call ∷ calls else calls

  -- The callback of DBQuery::process on a levId, before the calls that follow: the calls, and
  -- levIdBatch. Without a payload the event was deleted while the query was paused.
  abbrev pub report_event :
      QueryScheduler Q
      → Subscription
      → ℕ
      → Option Bytes
      → List Callback × List ℕ
      → List Callback × List ℕ
  report_event sch sub l none rest = rest
  report_event sch sub l (some payload) rest = (
    when sch.has_on_event (on_event sub l payload) rest.0,
    if sch.has_on_event_batch then l ∷ rest.1 else rest.1,
  )

  unfoldable pub report : D → QueryScheduler Q → Subscription → List ℕ → List Callback × List ℕ
  report db sch sub [] = ([], [])
  report db sch sub (l ∷ ls) =
      report_event sch sub l (payload_of db sch.ensure_exists l) (report db sch sub ls)

  -- The end of a slice of the query at `p`, whose turn it was.
  unfoldable pub finish_slice :
      ℕ → DbQuery Q → Bool → QueryScheduler Q → Result (QueryScheduler Q × List Callback)
  finish_slice p q true sch = do
    removed ← remove_sub q.sub.conn_id (sv q.sub.sub_id) sch
    ok (
      record removed { heap = erase nat_keys p removed.heap },
      when sch.has_on_complete (on_complete q.sub (scanning.sent_count q.progress)) [],
    )
  finish_slice p q false sch = ok (record sch { running = sch.running ++ p ∷ [] }, [])

  -- The slice of a query that is not dead.
  unfoldable pub run_slice :
      D → ℕ → DbQuery Q → QueryScheduler Q → Result (QueryScheduler Q × List Callback)
  run_slice db p q sch = do
    (progress, lev_ids, complete) ← scanning.scan db q.sub q.progress
    let q' = record q { progress = progress }
    let (calls, batch) = report db sch q.sub lev_ids
    (sch', rest) ←
        finish_slice p q' complete (record sch { heap = adjust nat_keys p (λ old. q') sch.heap })
    ok (sch', calls ++ when sch.has_on_event_batch (on_event_batch q.sub batch) rest)

  unfoldable pub process_front :
      D → List ℕ → QueryScheduler Q → Result (QueryScheduler Q × List Callback)
  process_front db [] sch = ok (sch, [])
  process_front db (p ∷ ps) sch = do
    q ← or_throw (get nat_keys p sch.heap) dangling
    (if q.dead
        then ok (record sch { running = ps; heap = erase nat_keys p sch.heap }, [])
        else run_slice db p q (record sch { running = ps }))

  unfoldable pub process : D → QueryScheduler Q → Result (QueryScheduler Q × List Callback)
  process db sch = process_front db sch.running sch
