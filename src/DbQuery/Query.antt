-- ===== src/DbQuery/Query.antt =====
-- DBQuery of src/DBQuery.h: the scans of the filters of a subscription, one after the other.
use strfry.Prelude.{
  ℕ, zero, suc, ◌+◌, ◌-◌, ◌%◌, Bool, true, false, Option, none, some, List, [], ◌∷◌, ◌++◌, any, ltb,
  leb, ◌==◌, if◌then◌else◌, u64_mod, length, get_elem?, out_of_range, Result, ok, ◌>>=◌, or_throw,
}
use strfry.PackedEvent.{Lmdb}
use strfry.Filters.Filter.{NostrFilter}
use strfry.Store.{Env}
use strfry.Subscriptions.Subscription.{Subscription}
use strfry.QueryScheduler.{Scanning}
use strfry.DbQuery.Cursor.{Indices}
use strfry.DbQuery.Scan.{DbScan, db_scan, scan}

-- What a DBQuery keeps; the two hash sets as lists.
pub record QueryProgress : Type 0 where
  pub scanner : Option DbScan
  pub filter_group_index : ℕ
  pub sent_events_full : List ℕ
  pub sent_events_curr : List ℕ
  pub last_work_checked : ℕ

abbrev pub new_query : QueryProgress
new_query = record {
  scanner = none;
  filter_group_index = 0;
  sent_events_full = [];
  sent_events_curr = [];
  last_work_checked = 0;
}

-- What the two callbacks of a scan capture: the sets, and the levIds that the query's own callback was
-- called with.
pub record Reporting : Type 0 where
  pub full : List ℕ
  pub curr : List ℕ
  pub last_checked : ℕ
  pub reported : List ℕ

abbrev pub has_id : ℕ → List ℕ → Bool
has_id l ls = any (λ k. k == l) ls

abbrev pub insert_id : ℕ → List ℕ → List ℕ
insert_id l ls = if has_id l ls then ls else l ∷ ls

-- An event that came in after the query began is not reported: the monitor sends it.
unfoldable pub handle_event : NostrFilter → ℕ → ℕ → Reporting → Reporting × Bool
handle_event f latest_event_id l st =
    let told =
      (if has_id l st.full
        then st
        else record st { full = l ∷ st.full; reported = st.reported ++ l ∷ [] }) in
    let curr = insert_id l st.curr in
    if f.limit == 0
    then (st, true)
    else if ltb latest_event_id l
    then (st, false)
    else (record told { curr = curr }, leb f.limit (length curr))

-- `late` says whether the clock is past the budget when the scan has come to an amount of work.
unfoldable pub do_pause : (ℕ → Bool) → ℕ → Reporting → Reporting × Bool
do_pause late approx_work st =
    if ltb ((st.last_checked + 2000) % u64_mod) approx_work
    then (record st { last_checked = approx_work }, late approx_work)
    else (st, false)

module _ ⦃lmdb : Lmdb⦄ (env : Env) (indices : Indices env) (late : ℕ → Bool) where
  abbrev pub scanner_for : NostrFilter → Option DbScan → Result DbScan
  scanner_for f none = db_scan env indices f
  scanner_for f (some s) = ok s

  abbrev pub reporting : QueryProgress → List ℕ → Reporting
  reporting q reported = record {
    full = q.sent_events_full;
    curr = q.sent_events_curr;
    last_checked = q.last_work_checked;
    reported = reported;
  }

  -- The query after a scan of one filter: paused, or at the next filter.
  abbrev pub after_scan : QueryProgress → DbScan → Reporting → Bool → QueryProgress
  after_scan q s st false = record {
    scanner = some s;
    filter_group_index = q.filter_group_index;
    sent_events_full = st.full;
    sent_events_curr = st.curr;
    last_work_checked = st.last_checked;
  }
  after_scan q s st true = record {
    scanner = none;
    filter_group_index = q.filter_group_index + 1;
    sent_events_full = st.full;
    sent_events_curr = [];
    last_work_checked = st.last_checked;
  }

  unfoldable pub scan_filter :
      env.Db
      → Subscription
      → NostrFilter
      → QueryProgress
      → List ℕ
      → Result (QueryProgress × List ℕ × Bool)
  scan_filter db sub f q reported = do
    s ← scanner_for f q.scanner
    (s', st, complete) ←
        scan env indices (handle_event f sub.latest_event_id) (do_pause late) db s
          (reporting q reported)
    ok (after_scan q s' st complete, st.reported, complete)

  -- `while (filterGroupIndex < sub.filterGroup.size())`, with a round for every filter that is left.
  unfoldable pub process_filters :
      env.Db → Subscription → ℕ → QueryProgress → List ℕ → Result (QueryProgress × List ℕ × Bool)
  process_filters db sub zero q reported = ok (q, reported, true)
  process_filters db sub (suc left) q reported = do
    f ← or_throw (get_elem? sub.filter_group.filters q.filter_group_index) out_of_range
    (q', reported', complete) ← scan_filter db sub f q reported
    let rest = process_filters db sub left q' reported'
    if complete then rest else ok (q', reported', false)

  unfoldable pub process :
      env.Db → Subscription → QueryProgress → Result (QueryProgress × List ℕ × Bool)
  process db sub q =
      process_filters db sub (length sub.filter_group.filters - q.filter_group_index) q []

  -- The queries of the scheduler.
  abbrev pub db_queries : Scanning env.Db QueryProgress
  db_queries = record {
    fresh = new_query;
    scan = process;
    sent_count = λ q. length q.sent_events_full;
    get_payload = env.get_payload;
  }
