-- ===== src/Tests/Scheduling.antt =====
-- Queries that start, have their turn, and are removed.

use strfry.Prelude.{
  ℕ, ◌≡◌, refl, sym, ap, subst, ◌∙◌, ◌⊎◌, Bool, true, false, none, some, List, [], ◌∷◌, map, arith,
  length, Result, ok, err, if◌then◌else◌, ◌==◌,
}
use strfry.Prelude.Bytes.{Bytes}
use strfry.HashMap
use strfry.ConnMap
use strfry.QueryScheduler
use strfry.HashMap.{nat_keys, get}
use strfry.ConnMap.{find_in, same_sub}
use strfry.Store.{Row}
use strfry.Subscriptions.SubId.{sv}
use strfry.QueryScheduler.{Scanning, QueryScheduler, Callback, add_sub, close_conn, process}
use strfry.QueryScheduler.Valid.{IsConsistent}
use strfry.QueryScheduler.Adding.{add_sub-IsConsistent}
use strfry.QueryScheduler.Closing.{close_conn-IsConsistent}
use strfry.Tests.Table.{Table, find_payload}
use strfry.Tests.Monitoring.{feed}

-- A query that reports every row in one slice.
abbrev all_rows : Scanning Table ℕ
all_rows = record {
  fresh = 0;
  scan = λ db sub n. ok (length db.rows, map (λ (r : Row). r.0) db.rows, true);
  sent_count = λ n. n;
  get_payload = λ db l. find_payload l db.payloads;
}

abbrev pub idle : {Q : Type 0} → QueryScheduler Q
idle = record {
  has_on_event = true;
  has_on_event_batch = false;
  has_on_complete = true;
  ensure_exists = true;
  conns = [];
  running = [];
  heap = [];
  next_pointer = 0;
}

idle-IsConsistent : {Q : Type 0} → IsConsistent 20 (idle {Q = Q})
unfolding find_in get
idle-IsConsistent = record {
  proper = λ c qs there. absurd (ground arith);
  distinct = tt;
  waits = λ p e. absurd (ground arith);
  owned = λ p there. absurd there;
  queued = λ p q at_p. absurd (ground arith);
  found = λ c s p there. absurd (ground arith);
  live = λ p q at_p alive. absurd (ground arith);
  below = λ p q at_p. absurd (ground arith);
}

abbrev scheduler_of : {Q : Type 0} → Result (QueryScheduler Q × Bool) → QueryScheduler Q
scheduler_of (ok (sch, accepted)) = sch
scheduler_of (err e) = idle

-- One query, of any kind.
module _ {Q : Type 0} (queries : Scanning Table Q) where
  abbrev pub busy : QueryScheduler Q
  busy = record idle {
    conns = (3, (sv feed.sub_id, 0) ∷ []) ∷ [];
    running = 0 ∷ [];
    heap =
        (
          0,
          record {
            sub = record feed { latest_event_id = 6 };
            dead = false;
            progress = queries.fresh;
          },
        )
        ∷ [];
    next_pointer = 1;
  }

  busy-made : add_sub queries 20 6 feed idle ≡ ok (busy, true)
  unfolding add_sub QueryScheduler.remove_sub QueryScheduler.find_query find_in get
      QueryScheduler.insert_sub ConnMap.open_conn HashMap.emplace QueryScheduler.start_query
      ConnMap.emplace_in HashMap.adjust
  busy-made = refl

  pub busy-IsConsistent : IsConsistent 20 busy
  busy-IsConsistent =
      let (sch', accepted, run, v, view, queue, full) =
        add_sub-IsConsistent queries 20 6 feed idle idle-IsConsistent in
      let same : ok (sch', accepted) ≡ ok (busy, true) = sym run ∙ busy-made in
      subst (IsConsistent 20) (ap scheduler_of same) v

add_sub-IsConsistent_example :
    (sch' : QueryScheduler ℕ) × (accepted : Bool) × (add_sub all_rows 20 6 feed (idle {Q = ℕ})
      ≡ ok (sch', accepted))
    × IsConsistent 20 sch'
    × ((c : ℕ) (s : Bytes)
        → find_in c s sch'.conns ≡ (
            if same_sub 3 (sv feed.sub_id) c s
            then (if accepted then some 0 else none)
            else find_in c s (idle {Q = ℕ}).conns))
    × (sch'.running ≡ (if accepted then 0 ∷ [] else []))
    × ((accepted ≡ true)
        ⊎ ((qs : List (Bytes × ℕ)) × (get nat_keys 3 sch'.conns ≡ some qs) × (length qs ≡ 20)))
add_sub-IsConsistent_example = add_sub-IsConsistent all_rows 20 6 feed idle idle-IsConsistent

close_conn-IsConsistent_example :
    (sch' : QueryScheduler ℕ) × (close_conn 3 (busy all_rows) ≡ ok sch')
    × IsConsistent 20 sch'
    × ((c : ℕ) (s : Bytes)
        → find_in c s sch'.conns ≡ (if 3 == c then none else find_in c s (busy all_rows).conns))
    × (sch'.running ≡ 0 ∷ [])
close_conn-IsConsistent_example =
    close_conn-IsConsistent 20 3 (busy all_rows) (busy-IsConsistent all_rows)
