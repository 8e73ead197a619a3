-- ===== src/Relay/ReqMonitor.antt =====
-- runReqMonitor of src/apps/relay/RelayReqMonitor.cpp: one round of its loop, on the messages that
-- popped up and the transaction that it opens. What is sent is the list of the calls of
-- src/apps/relay/RelaySender.h.
pub mod Inbox
pub mod CatchUp
pub mod Deliver
pub mod Rising
pub mod HandOver
use strfry.Prelude.{
  ℕ, ◌+◌, ◌%◌, ◌≡◌, Bool, true, false, Option, none, some, List, [], ◌∷◌, ◌++◌, ltb, leb,
  if◌then◌else◌, u64_mod, Result, ok, ◌>>=◌,
}
use strfry.Prelude.Bytes.{Bytes, codes}
use strfry.PackedEvent.{Lmdb, packed_event_view}
use strfry.PackedEvent.RoundTrip.{packed}
use strfry.Filters.Group
use strfry.Store.{Row, last_id, Env}
use strfry.Store.Lookup.{get_most_recent_lev_id, get_event_json}
use strfry.Subscriptions.SubId.{SubId, sv}
use strfry.Subscriptions.Subscription.{Subscription, RecipientList}
use strfry.Monitors.Operations.{ActiveMonitors, add_sub, remove_sub, close_conn, process}

-- sendEvent, sendEventToBatch and sendNoticeError.
pub data Sent : Type 0 where
  event_to : ℕ → SubId → Bytes → Sent
  event_to_batch : RecipientList → Bytes → Sent
  notice_error : ℕ → Bytes → Sent

pub data MsgReqMonitor : Type 0 where
  new_sub : Subscription → MsgReqMonitor
  remove : ℕ → SubId → MsgReqMonitor
  close : ℕ → MsgReqMonitor
  db_change : MsgReqMonitor

pub record MonitorThread : Type 0 where
  pub monitors : ActiveMonitors
  pub curr_event_id : ℕ

-- The rows from a key on.
unfoldable pub rows_from : ℕ → List Row → List Row
rows_from start [] = []
rows_from start (r ∷ rs) = let rest = rows_from start rs in if leb start r.0 then r ∷ rest else rest

abbrev pub views : ⦃lmdb : Lmdb⦄ → List Row → List (ℕ × Bytes)
views [] = []
views ((l, d) ∷ rs) = (l, packed d) ∷ views rs

-- env.foreach_Event from a key on visits the rows in the order of their keys, and in reverse the last
-- row first.
pub record EventLoop ⦃lmdb : Lmdb⦄ (env : Env) : Type 0 where
  pub foreach_event : env.Db → ℕ → List (ℕ × Bytes)
  pub foreach_event-rows :
      (db : env.Db) (start : ℕ) → foreach_event db start ≡ views (rows_from start (env.rows db))
  pub last_event-rows : (db : env.Db) → get_most_recent_lev_id env db ≡ last_id (env.rows db)

module _ ⦃lmdb : Lmdb⦄ (env : Env) (loop : EventLoop env) (decompress : ℕ → Bytes → Result Bytes)
    (from_sv_u32 : Bytes → ℕ) (max_subs : ℕ) where
  abbrev pub event_json : env.Db → ℕ → Result Bytes
  event_json db lev_id = get_event_json env decompress from_sv_u32 db lev_id

  -- The loop of NewSub over the events that came in since the subscription's query began.
  unfoldable pub catch_up :
      env.Db → Subscription → List (ℕ × Bytes) → List Sent → Result (List Sent)
  catch_up db sub [] out = ok out
  catch_up db sub ((l, buf) ∷ evs) out = do
    ev ← packed_event_view buf
    matched ← Group.does_match sub.filter_group ev
    out' ←
        (if matched
          then (do json ← event_json db l; ok (out ++ event_to sub.conn_id sub.sub_id json ∷ []))
          else ok out)
    catch_up db sub evs out'

  -- The callback of ActiveMonitors::process.
  unfoldable pub send_told : env.Db → Option (RecipientList × ℕ) → List Sent → Result (List Sent)
  send_told db none out = ok out
  send_told db (some (recipients, lev_id)) out = do
    json ← event_json db lev_id
    ok (out ++ event_to_batch recipients json ∷ [])

  -- The loop of DBChange.
  unfoldable pub process_events :
      env.Db → List (ℕ × Bytes) → ActiveMonitors × List Sent → Result (ActiveMonitors × List Sent)
  process_events db [] st = ok st
  process_events db ((l, buf) ∷ evs) (am, out) = do
    (am', told) ← process l buf am
    out' ← send_told db told out
    process_events db evs (am', out')

  -- One message; `latest_event_id` is the last event of the transaction.
  unfoldable pub handle :
      env.Db → ℕ → MsgReqMonitor → MonitorThread × List Sent → Result (MonitorThread × List Sent)
  handle db latest_event_id (new_sub sub) (thr, out) = do
    out' ← catch_up db sub (loop.foreach_event db ((sub.latest_event_id + 1) % u64_mod)) out
    (am, accepted) ←
        add_sub max_subs (record sub { latest_event_id = latest_event_id }) latest_event_id
          thr.monitors
    ok (
      record thr { monitors = am },
      if accepted
          then out'
          else out' ++ notice_error sub.conn_id (codes "too many concurrent REQs") ∷ [],
    )
  handle db latest_event_id (remove c sub_id) (thr, out) = do
    am ← remove_sub c (sv sub_id) thr.monitors
    ok (record thr { monitors = am }, out)
  handle db latest_event_id (close c) (thr, out) = do
    am ← close_conn c thr.monitors
    ok (record thr { monitors = am }, out)
  handle db latest_event_id db_change (thr, out) = do
    (am, out') ←
        process_events db (loop.foreach_event db ((thr.curr_event_id + 1) % u64_mod))
          (thr.monitors, out)
    ok (record { monitors = am; curr_event_id = latest_event_id }, out')

  unfoldable pub handle_all :
      env.Db
      → ℕ
      → List MsgReqMonitor
      → MonitorThread × List Sent
      → Result (MonitorThread × List Sent)
  handle_all db latest_event_id [] st = ok st
  handle_all db latest_event_id (msg ∷ msgs) st = do
    st' ← handle db latest_event_id msg st
    handle_all db latest_event_id msgs st'

  unfoldable pub run_round :
      env.Db → List MsgReqMonitor → MonitorThread → Result (MonitorThread × List Sent)
  run_round db new_msgs thr =
      let latest_event_id = get_most_recent_lev_id env db in
      handle_all db latest_event_id new_msgs (
        (if ltb latest_event_id thr.curr_event_id
            then record thr { curr_event_id = latest_event_id }
            else thr),
        [],
      )
