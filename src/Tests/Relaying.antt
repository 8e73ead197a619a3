-- ===== src/Tests/Relaying.antt =====
-- Two rounds of the thread that serves the monitors.
use strfry.Prelude.{
  ◌==◌, if◌then◌else◌, ℕ, ◌≡◌, refl, ap, inl, inr, ◌&&◌, none, some, List, [], ◌∷◌, ◌⊎◌, arith, ltb,
  ok, err, Result, All, length, herr,
}
use strfry.Prelude.Bytes.{Bytes, codes}
use strfry.HashMap.{nat_keys, get}
use strfry.ConnMap.{find_in}
use strfry.PackedEvent.RoundTrip.{EventData, IsPackable}
use strfry.Store.{Row, last_id}
use strfry.Store.Lookup.{get_most_recent_lev_id, decode_event_payload, get_event_json}
use strfry.Subscriptions.SubId.{sv}
use strfry.Monitors.Conns.{Monitor, ConnMonitor}
use strfry.Monitors.Operations.{ActiveMonitors}
use strfry.Monitors.Valid.{IsValid}
use strfry.Monitors.Telling.{is_due}
use strfry.Relay.ReqMonitor.{
  Sent, new_sub, db_change, MonitorThread, EventLoop, views, rows_from, run_round,
}
use strfry.Relay.ReqMonitor.Inbox.{inbox, texts, matches_any}
use strfry.Relay.ReqMonitor.CatchUp.{IsReadable}
use strfry.Relay.ReqMonitor.HandOver.{run_round-texts, hand_over-texts}
use strfry.Tests.World.{little_endian, from_le}
use strfry.Tests.Table.{Table, find_payload}
use strfry.Tests.Instance.{list_env}
use strfry.Tests.Values.{fill}
use strfry.Tests.Filtering.{filter, post, post-IsPackable}
use strfry.Tests.Monitoring.{
  nothing, nothing-IsValid, filter-IsIndexable, feed, watching, watching-IsValid,
}

rows_cases : (rs : List Row) → (rs ≡ []) ⊎ ((r : Row) × (qs : List Row) × (rs ≡ r ∷ qs))
rows_cases [] = inl refl
rows_cases (r ∷ qs) = inr (r, qs, refl)

last_event_law : (t : Table) → get_most_recent_lev_id list_env t ≡ last_id t.rows
unfolding get_most_recent_lev_id last_id
last_event_law t = elim (rows_cases t.rows) [
  | inl e ↦ rw e refl
  | inr (r, qs, e) ↦ rw e (ap last_id e)
]

abbrev list_loop : EventLoop list_env
list_loop = record {
  foreach_event = λ t start. views (rows_from start t.rows);
  foreach_event-rows = λ t start. refl;
  last_event-rows = last_event_law;
}

-- No dictionaries.
abbrev no_zstd : ℕ → Bytes → Result Bytes
no_zstd dict raw = err (herr "no dictionary")

abbrev reply : EventData
reply = record post { id = fill 32 2 }

reply-IsPackable : IsPackable reply
reply-IsPackable = record {
  id_size = refl;
  pubkey_size = refl;
  created_at_u64 = post-IsPackable.created_at_u64;
  kind_u64 = post-IsPackable.kind_u64;
  expiration_u64 = post-IsPackable.expiration_u64;
  tags_fit = post-IsPackable.tags_fit;
}

abbrev pub before : Table
before = record {
  rows = (6, post) ∷ [];
  rising = (tt, tt);
  payloads = (6, 0 ∷ codes "{6}") ∷ (7, 0 ∷ codes "{7}") ∷ [];
}

abbrev pub after : Table
after = record {
  rows = (6, post) ∷ (7, reply) ∷ [];
  rising = ((omega arith, tt), (tt, tt));
  payloads = (6, 0 ∷ codes "{6}") ∷ (7, 0 ∷ codes "{7}") ∷ [];
}

abbrev json_of : ℕ → Bytes
json_of l = if l == 6 then codes "{6}" else codes "{7}"

before-IsReadable :
    All (IsReadable list_env list_loop no_zstd from_le 20 before json_of) before.rows
unfolding get_event_json decode_event_payload find_payload
before-IsReadable = ((post-IsPackable, refl), tt)

after-IsReadable : All (IsReadable list_env list_loop no_zstd from_le 20 after json_of) after.rows
unfolding get_event_json decode_event_payload find_payload
after-IsReadable = ((post-IsPackable, refl), ((reply-IsPackable, refl), tt))

run_round-texts_example :
    (am' : ActiveMonitors) × (sent : List Sent) × (run_round list_env list_loop no_zstd from_le 20
        after
        (db_change ∷ [])
        (record { monitors = watching; curr_event_id = 5 })
      ≡ ok (record { monitors = am'; curr_event_id = last_id after.rows }, sent))
    × IsValid 20 (last_id after.rows) am'
    × ((c : ℕ) (s : Bytes) (m : Monitor)
        → find_in c s watching.conns ≡ some m
        → inbox c s sent ≡ texts json_of (λ r. ltb 5 r.0 && is_due r.0 r.1 m) after.rows)
    × ((c : ℕ) (s : Bytes) → find_in c s watching.conns ≡ none → inbox c s sent ≡ [])
unfolding last_id
run_round-texts_example =
    run_round-texts list_env list_loop no_zstd from_le 20 after json_of
      (record { monitors = watching; curr_event_id = 5 }) (omega arith, (omega arith, tt))
      after-IsReadable (omega arith) (omega arith) watching-IsValid

-- After a further event, and the deletion of the first one.
abbrev replaced : Table
replaced = record {
  rows = (7, reply) ∷ [];
  rising = (tt, tt);
  payloads = (7, 0 ∷ codes "{7}") ∷ [];
}

replaced-IsReadable :
    All (IsReadable list_env list_loop no_zstd from_le 20 replaced json_of) replaced.rows
unfolding get_event_json decode_event_payload find_payload
replaced-IsReadable = ((reply-IsPackable, refl), tt)

hand_over-texts_example :
    (thr1 thr2 : MonitorThread) × (sent1 sent2 : List Sent) × (run_round list_env list_loop no_zstd
        from_le 20 before
        (new_sub feed ∷ [])
        (record { monitors = nothing; curr_event_id = 5 })
      ≡ ok (thr1, sent1))
    × (run_round list_env list_loop no_zstd from_le 20 replaced (db_change ∷ []) thr1
        ≡ ok (thr2, sent2))
    × (((inbox 3 (sv feed.sub_id) sent1
            ≡ texts json_of (λ r. ltb 5 r.0 && matches_any (filter ∷ []) r.1) before.rows)
          × (inbox 3 (sv feed.sub_id) sent2
              ≡ texts json_of (λ r. ltb 6 r.0 && matches_any (filter ∷ []) r.1) replaced.rows))
        ⊎ ((ms : ConnMonitor) × (get nat_keys 3 thr1.monitors.conns ≡ some ms) × (length ms ≡ 20)))
unfolding last_id
hand_over-texts_example =
    hand_over-texts list_env list_loop no_zstd from_le 20 before replaced json_of json_of
      (omega arith, tt) before-IsReadable replaced-IsReadable (omega arith) (omega arith)
      (record { monitors = nothing; curr_event_id = 5 }) feed (omega arith) (omega arith)
      nothing-IsValid (filter-IsIndexable, tt)
