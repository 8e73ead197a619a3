-- ===== src/Relay/ReqMonitor/HandOver.antt =====
-- Rounds of runReqMonitor in src/apps/relay/RelayReqMonitor.cpp: what subscriptions receive.
use strfry.Prelude.{
  ℕ, ◌+◌, ◌%◌, ◌≤◌, ◌<◌, ◌≡◌, refl, ◌∙◌, ◌⊎◌, inl, inr, Bool, false, ◌&&◌, none, some, List, [],
  ◌∷◌, ◌++◌, arith, ltb, u64_mod, max_u64, Bool-cases, All, Result, ok, length, if◌then◌else◌,
}
use strfry.Prelude.Bytes.{Bytes, codes}
use strfry.HashMap.{nat_keys, get}
use strfry.ConnMap.{find_in, same_sub_refl}
use strfry.PackedEvent.{Lmdb}
use strfry.Filters.Filter.{NostrFilter}
use strfry.Store.{Row, last_id, Env}
use strfry.Subscriptions.SubId.{sv}
use strfry.Subscriptions.Subscription.{Subscription}
use strfry.Monitors.Keys.Indexable.{IsIndexable}
use strfry.Monitors.Conns.{Monitor, ConnMonitor}
use strfry.Monitors.Operations.{ActiveMonitors}
use strfry.Monitors.Valid.{IsValid}
use strfry.Monitors.Subscribing.{add_sub-IsValid}
use strfry.Monitors.Telling.{is_due}
use strfry.Relay.ReqMonitor.{
  Sent, notice_error, new_sub, db_change, MonitorThread, rows_from, EventLoop, handle, handle_all,
  run_round,
}
use strfry.Relay.ReqMonitor.Inbox.{inbox, inbox-append, append_nil, texts, matches_any}
use strfry.Relay.ReqMonitor.CatchUp.{IsReadable, sent_to, catch_up_lem, inbox-sent_to}
use strfry.Relay.ReqMonitor.Deliver.{RisesFrom, last_or, wants, IsValid-later, process_events-texts}
use strfry.Relay.ReqMonitor.Rising.{
  RisesFrom-rows_from_suc, All-rows_from, texts-rows_from, last_id-last_or, All_below_last,
  last_or-rows_from, texts_same,
}

past_both :
    (now latest l : ℕ) (b : Bool)
    → now ≤ latest
    → (ltb now l && (ltb latest l && b)) ≡ (ltb latest l && b)
past_both now latest l b le = ground arith

All-any : (P : Row → Type 0) → ((r : Row) → P r) → (rs : List Row) → All P rs
All-any P h [] = tt
All-any P h (r ∷ rs) = (h r, All-any P h rs)

module _ ⦃lmdb : Lmdb⦄ (env : Env) (loop : EventLoop env) (decompress : ℕ → Bytes → Result Bytes)
    (from_sv_u32 : Bytes → ℕ) (max_subs : ℕ) where
  -- A round on a change of the database never fails, where the levIds rise and are below 2^64 - 1, every
  -- payload can be decoded and the thread is not past the database. Every subscription receives exactly the events
  -- after the last round's that it is not past and that one of its filters matches, each once and in
  -- the order of their levIds; nobody else receives anything. The indices and the monitors still
  -- belong together, and the thread is up to date.
  pub run_round-texts :
      (db : env.Db) (json_of : ℕ → Bytes) (thr : MonitorThread)
      → RisesFrom 0 (env.rows db)
      → All (IsReadable env loop decompress from_sv_u32 max_subs db json_of) (env.rows db)
      → thr.curr_event_id ≤ last_id (env.rows db)
      → last_id (env.rows db) < max_u64
      → IsValid max_subs thr.curr_event_id thr.monitors
      → (am' : ActiveMonitors) × (sent : List Sent) × (run_round env loop decompress from_sv_u32
            max_subs db
            (db_change ∷ [])
            thr
          ≡ ok (record { monitors = am'; curr_event_id = last_id (env.rows db) }, sent))
        × IsValid max_subs (last_id (env.rows db)) am'
        × ((c : ℕ) (s : Bytes) (m : Monitor)
            → find_in c s thr.monitors.conns ≡ some m
            → inbox c s sent
              ≡ texts json_of (λ r. ltb thr.curr_event_id r.0 && is_due r.0 r.1 m) (env.rows db))
        × ((c : ℕ) (s : Bytes) → find_in c s thr.monitors.conns ≡ none → inbox c s sent ≡ [])
  unfolding run_round handle_all handle
  run_round-texts db json_of thr rises readable behind small v =
      let rows = env.rows db in
      let now = thr.curr_event_id in
      let latest = last_id rows in
      let fresh = rows_from (now + 1) rows in
      let (am', sent, run, v', known, unknown) =
        process_events-texts env loop decompress from_sv_u32 max_subs db json_of now fresh
          thr.monitors [] (RisesFrom-rows_from_suc 0 now rows rises)
          (All-rows_from _ (now + 1) rows readable) v in
      let no_wrap : (now + 1) % u64_mod ≡ now + 1 = omega arith in
      let current : ltb latest now ≡ false = ground arith in
      let last_le : last_or now fresh ≤ latest =
        last_or-rows_from latest now (now + 1) rows behind
          (rw (last_id-last_or rows) (All_below_last 0 rows rises)) in
      (
        am',
        sent,
        rw (loop.last_event-rows db, current, loop.foreach_event-rows db, no_wrap, run) refl,
        IsValid-later max_subs (last_or now fresh) latest am' last_le v',
        (λ c s m found. known c s m found ∙ texts-rows_from json_of (wants m) now rows),
        unknown,
      )

  -- The round that takes on a subscription: the events that its query did not see are sent first.
  new_sub_round :
      (db : env.Db) (json_of : ℕ → Bytes) (thr : MonitorThread) (sub : Subscription)
      → All (IsReadable env loop decompress from_sv_u32 max_subs db json_of) (env.rows db)
      → thr.curr_event_id ≤ last_id (env.rows db)
      → sub.latest_event_id < max_u64
      → IsValid max_subs thr.curr_event_id thr.monitors
      → All IsIndexable sub.filter_group.filters
      → (am' : ActiveMonitors) × (sent : List Sent) × (run_round env loop decompress from_sv_u32
            max_subs db
            (new_sub sub ∷ [])
            thr
          ≡ ok (record thr { monitors = am' }, sent))
        × IsValid max_subs thr.curr_event_id am'
        × (inbox sub.conn_id (sv sub.sub_id) sent
            ≡ texts json_of
                (λ r. ltb sub.latest_event_id r.0 && matches_any sub.filter_group.filters r.1)
                (env.rows db))
        × ((find_in sub.conn_id (sv sub.sub_id) am'.conns
              ≡ some (record { sub = record sub { latest_event_id = last_id (env.rows db) } }))
            ⊎ ((ms : ConnMonitor) × (get nat_keys sub.conn_id am'.conns ≡ some ms)
                × (length ms ≡ max_subs)))
  unfolding run_round handle_all handle inbox
  new_sub_round db json_of thr sub readable behind small v indexable =
      let rows = env.rows db in
      let q = sub.latest_event_id in
      let c = sub.conn_id in
      let s = sv sub.sub_id in
      let latest = last_id rows in
      let missed = rows_from (q + 1) rows in
      let caught_up =
        catch_up_lem env loop decompress from_sv_u32 max_subs db sub json_of missed [] indexable
          (All-rows_from _ (q + 1) rows readable) in
      let out = sent_to env loop decompress from_sv_u32 max_subs sub json_of missed in
      let (am', accepted, run, v', view, full) =
        add_sub-IsValid max_subs thr.curr_event_id (record sub { latest_event_id = latest })
          thr.monitors v indexable in
      let no_wrap : (q + 1) % u64_mod ≡ q + 1 = omega arith in
      let current : ltb latest thr.curr_event_id ≡ false = ground arith in
      let received : inbox c s out
          ≡ texts json_of (λ r. ltb q r.0 && matches_any sub.filter_group.filters r.1) rows =
        inbox-sent_to env loop decompress from_sv_u32 max_subs sub json_of missed
        ∙ texts-rows_from json_of (λ r. matches_any sub.filter_group.filters r.1) q rows in
      let there : find_in c s am'.conns ≡ (
          if accepted
          then some (record { sub = record sub { latest_event_id = latest } })
          else none) =
        rw (same_sub_refl c s) at (view c s) in
      (
        am',
        (if accepted then out else out ++ notice_error c (codes "too many concurrent REQs") ∷ []),
        rw (loop.last_event-rows db, current, loop.foreach_event-rows db, no_wrap, caught_up, run)
            refl,
        v',
        elim (Bool-cases accepted) [
          | inl y ↦ rw y received
          | inr n ↦ rw n (inbox-append c s out _ ∙ append_nil (inbox c s out) ∙ received)
        ],
        elim full [ inl y ↦ inl (there ∙ rw y refl) | inr some_full ↦ inr some_full ],
      )

  module _ (db1 db2 : env.Db) (json1 json2 : ℕ → Bytes) (rises : RisesFrom 0 (env.rows db2))
      (readable1 : All
        (IsReadable env loop decompress from_sv_u32 max_subs db1 json1)
        (env.rows db1))
      (readable2 : All
        (IsReadable env loop decompress from_sv_u32 max_subs db2 json2)
        (env.rows db2))
      (grows : last_id (env.rows db1) ≤ last_id (env.rows db2))
      (small : last_id (env.rows db2) < max_u64) where
    -- The second round sends what came in after the first round's snapshot, and nothing else.
    after_first :
        (now : ℕ) (fs : List NostrFilter)
        → now ≤ last_id (env.rows db1)
        → texts json2
            (λ r. ltb now r.0 && (ltb (last_id (env.rows db1)) r.0 && matches_any fs r.1))
            (env.rows db2)
          ≡ texts json2 (λ r. ltb (last_id (env.rows db1)) r.0 && matches_any fs r.1) (env.rows db2)
    after_first now fs now_le =
        let latest = last_id (env.rows db1) in
        texts_same json2 (λ r. ltb now r.0 && (ltb latest r.0 && matches_any fs r.1))
          (λ r. ltb latest r.0 && matches_any fs r.1) (env.rows db2)
          (All-any _ (λ r. past_both now latest r.0 (matches_any fs r.1) now_le) (env.rows db2))

    -- A subscription whose query has run is handed over without a gap, whatever is written, replaced or
    -- deleted between the round that takes it on and the round on the next change of the database, as
    -- long as the last levId does not go down. The first round sends it every event of its snapshot after
    -- the one that its query began with, the second every event of its snapshot after the last one
    -- of the first, in both cases those that one of its filters matches, each exactly once and in order,
    -- unless its connection has its fill of subscriptions. The levIds of the second snapshot rise and
    -- are below 2^64 - 1, every payload can be decoded, and the thread and the query are not past the
    -- first snapshot, however far behind the thread is.
    pub hand_over-texts :
        (thr : MonitorThread) (sub : Subscription)
        → thr.curr_event_id ≤ last_id (env.rows db1)
        → sub.latest_event_id ≤ last_id (env.rows db1)
        → IsValid max_subs thr.curr_event_id thr.monitors
        → All IsIndexable sub.filter_group.filters
        → (thr1 thr2 : MonitorThread) × (sent1 sent2 : List Sent) × (run_round env loop decompress
              from_sv_u32 max_subs db1
              (new_sub sub ∷ [])
              thr
            ≡ ok (thr1, sent1))
          × (run_round env loop decompress from_sv_u32 max_subs db2 (db_change ∷ []) thr1
              ≡ ok (thr2, sent2))
          × (((inbox sub.conn_id (sv sub.sub_id) sent1
                  ≡ texts json1
                      (λ r. ltb sub.latest_event_id r.0 && matches_any sub.filter_group.filters r.1)
                      (env.rows db1))
                × (inbox sub.conn_id (sv sub.sub_id) sent2
                    ≡ texts json2
                        (λ r.
                          ltb (last_id (env.rows db1)) r.0
                          && matches_any sub.filter_group.filters r.1)
                        (env.rows db2)))
              ⊎ ((ms : ConnMonitor) × (get nat_keys sub.conn_id thr1.monitors.conns ≡ some ms)
                  × (length ms ≡ max_subs)))
    unfolding is_due
    hand_over-texts thr sub behind q_le v indexable =
        let c = sub.conn_id in
        let s = sv sub.sub_id in
        let (am1, sent1, run1, v1, box1, there) =
          new_sub_round db1 json1 thr sub readable1 behind (omega arith) v indexable in
        let thr1 = record thr { monitors = am1 } in
        let (am2, sent2, run2, v2, known, unknown) =
          run_round-texts db2 json2 thr1 rises readable2 (omega arith) small v1 in
        (
          thr1,
          record { monitors = am2; curr_event_id = last_id (env.rows db2) },
          sent1,
          sent2,
          run1,
          run2,
          elim there [
            | inl found ↦ inl (
              box1,
              known c s _ found ∙ after_first thr.curr_event_id sub.filter_group.filters behind,
            )
            | inr full ↦ inr full
          ],
        )
