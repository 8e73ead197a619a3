-- ===== src/Monitors/Operations.antt =====
-- The methods of ActiveMonitors in src/ActiveMonitors.h.
use strfry.Prelude.{
  ℕ, ◌+◌, Bool, true, false, not, Option, none, some, List, [], ◌∷◌, ◌++◌, map, leb, ◌==◌,
  if◌then◌else◌, length, get_elem?, Error, herr, Result, ok, ◌>>=◌, ◌>>◌, throw_if, or_throw,
}
use strfry.Prelude.Bytes.{Bytes}
use strfry.HashMap.{nat_keys, get, erase}
use strfry.ConnMap.{emplace_in, erase_in, find_in, open_conn}
use strfry.PackedEvent.{Lmdb, PackedEventView, packed_event_view, id, pubkey, kind, foreach_tag}
use strfry.Events.Verify.{bytes32}
use strfry.Filters.Filter.{NostrFilter, does_match}
use strfry.Subscriptions.SubId.{sv}
use strfry.Subscriptions.Subscription.{Subscription, RecipientList}
use strfry.Subscriptions.Tracker.{EphemeralSubTracker, Lookup, lookup_of, install, uninstall}
use strfry.Monitors.Items.{MonitorItem, MonitorSet}
use strfry.Monitors.Trees.{walk}
use strfry.Monitors.Keys.{IndexKey, by_id, by_author, by_tag, by_kind, by_other, index_keys}
use strfry.Monitors.Index.{Index, nat_order, byte_order, emplace_key, erase_key}
use strfry.Monitors.Conns.{Monitor, ConnMonitor, Conns, set_latest}

pub record ActiveMonitors : Type 0 where
  pub ephemeral_tracker : Option EphemeralSubTracker
  pub conns : Conns
  pub index : Index

-- The rounds of the two nested loops over the filters of a monitor: a key, and the position of its
-- filter.
unfoldable pub places : ℕ → List NostrFilter → Result (List (IndexKey × ℕ))
places i [] = ok []
places i (f ∷ fs) = do
  ks ← index_keys f
  rest ← places (i + 1) fs
  ok (map (λ k. (k, i)) ks ++ rest)

unfoldable pub install_places : ℕ → Bytes → ℕ → List (IndexKey × ℕ) → Index → Index
install_places c s n [] ix = ix
install_places c s n ((k, i) ∷ ps) ix =
    install_places c s n ps
      (emplace_key k (record { conn_id = c; sub_id = s; filter = i; latest_event_id = n }) ix)

unfoldable pub uninstall_places : ℕ → Bytes → List (IndexKey × ℕ) → Index → Result Index
uninstall_places c s [] ix = ok ix
uninstall_places c s ((k, i) ∷ ps) ix = do ix' ← erase_key k c s i ix; uninstall_places c s ps ix'

-- What the loops do to the tracker, if there is one.
unfoldable pub track :
    (Lookup → EphemeralSubTracker → EphemeralSubTracker)
    → List NostrFilter
    → Option EphemeralSubTracker
    → Option EphemeralSubTracker
track change fs none = none
track change [] (some t) = some t
track change (f ∷ fs) (some t) = track change fs (some (change (lookup_of f) t))

-- Through a pointer to a monitor that is not there any more.
abbrev pub dangling : Error
dangling = herr "dangling pointer"

unfoldable pub install_lookups :
    ℕ → Bytes → ℕ → List NostrFilter → ActiveMonitors → Result ActiveMonitors
install_lookups c s curr_event_id fs am = do
  ps ← places 0 fs
  ok (record am {
    ephemeral_tracker = track install fs am.ephemeral_tracker;
    index = install_places c s curr_event_id ps am.index;
  })

unfoldable pub uninstall_lookups : ℕ → Bytes → Monitor → ActiveMonitors → Result ActiveMonitors
uninstall_lookups c s m am = do
  ps ← places 0 m.sub.filter_group.filters
  ix ← uninstall_places c s ps am.index
  ok (record am {
    ephemeral_tracker = track uninstall m.sub.filter_group.filters am.ephemeral_tracker;
    index = ix;
  })

unfoldable pub remove_sub : ℕ → Bytes → ActiveMonitors → Result ActiveMonitors
remove_sub c s am = elim (find_in c s am.conns) [
  | none ↦ ok am
  | some m ↦ (do
    am' ← uninstall_lookups c s m am
    ok (record am' { conns = erase_in c s am'.conns }))
]

-- The loop over the monitors of a connection.
unfoldable pub uninstall_all : ℕ → ConnMonitor → ActiveMonitors → Result ActiveMonitors
uninstall_all c [] am = ok am
uninstall_all c ((s, m) ∷ ms) am = do am' ← uninstall_lookups c s m am; uninstall_all c ms am'

unfoldable pub close_conn : ℕ → ActiveMonitors → Result ActiveMonitors
close_conn c am = elim (get nat_keys c am.conns) [
  | none ↦ ok am
  | some ms ↦ (do
    am' ← uninstall_all c ms am
    ok (record am' { conns = erase nat_keys c am'.conns }))
]

-- From conns.try_emplace on: false where the connection has its fill of subscriptions.
unfoldable pub insert_sub : ℕ → Subscription → ℕ → ActiveMonitors → Result (ActiveMonitors × Bool)
insert_sub max_subs sub curr_event_id am =
    let c = sub.conn_id in
    let s = sv sub.sub_id in
    let opened = record am { conns = open_conn c am.conns } in
    let installed = (do
      am' ←
          install_lookups c s curr_event_id sub.filter_group.filters
            (record am { conns = emplace_in c s (record { sub = sub }) opened.conns })
      ok (am', true)) in
    elim (get nat_keys c opened.conns) [
      | none ↦ ok (opened, false)
      | some ms ↦ if leb max_subs (length ms) then ok (opened, false) else installed
    ]

-- `max_subs` is the setting relay__maxSubsPerConnection.
unfoldable pub add_sub : ℕ → Subscription → ℕ → ActiveMonitors → Result (ActiveMonitors × Bool)
add_sub max_subs sub curr_event_id am = do
  throw_if (not (sub.latest_event_id == curr_event_id)) (herr "sub not up to date")
  am' ← remove_sub sub.conn_id (sv sub.sub_id) am
  insert_sub max_subs sub curr_event_id am'

-- What process changes besides the indices: the monitors, and the recipients so far.
pub record Progress : Type 0 where
  pub conns : Conns
  pub recipients : RecipientList

module _ ⦃lmdb : Lmdb⦄ (lev_id : ℕ) (packed : PackedEventView) where
  -- One round of processMonitorSet.
  unfoldable pub visit_item : MonitorItem → Progress → Result (MonitorItem × Progress)
  visit_item it p =
      let c = it.conn_id in
      let s = it.sub_id in
      let look = (do
        mon ← or_throw (find_in c s p.conns) dangling
        f ← or_throw (get_elem? mon.sub.filter_group.filters it.filter) dangling
        (if leb lev_id mon.sub.latest_event_id then ok (it, p) else (do
          matched ← does_match f packed
          ok (
            record it { latest_event_id = lev_id },
            if matched
                then record {
                  conns = set_latest c s lev_id p.conns;
                  recipients =
                      p.recipients
                      ++ record { conn_id = mon.sub.conn_id; sub_id = mon.sub.sub_id } ∷ [];
                }
                else p,
          )))) in
      if leb lev_id it.latest_event_id then ok (it, p) else look

  unfoldable pub visit_set : MonitorSet → Progress → Result (MonitorSet × Progress)
  visit_set [] p = ok ([], p)
  visit_set (it ∷ ms) p = do
    (it', p') ← visit_item it p
    (ms', p'') ← visit_set ms p'
    ok (it' ∷ ms', p'')

  -- processMonitorsExact on the index of the key, or processMonitorSet on allOthers.
  unfoldable pub process_key : IndexKey → Index × Progress → Result (Index × Progress)
  process_key (by_id b) (ix, p) = do
    (m, p', going) ← walk byte_order visit_set b ix.all_ids p
    ok (record ix { all_ids = m }, p')
  process_key (by_author b) (ix, p) = do
    (m, p', going) ← walk byte_order visit_set b ix.all_authors p
    ok (record ix { all_authors = m }, p')
  process_key (by_tag t) (ix, p) = do
    (m, p', going) ← walk byte_order visit_set t ix.all_tags p
    ok (record ix { all_tags = m }, p')
  process_key (by_kind n) (ix, p) = do
    (m, p', going) ← walk nat_order visit_set n ix.all_kinds p
    ok (record ix { all_kinds = m }, p')
  process_key by_other (ix, p) = do
    (ms, p') ← visit_set ix.all_others p
    ok (record ix { all_others = ms }, p')

  -- The callback of foreachTag: an error inside it leaves the loop.
  unfoldable pub process_tag :
      ℕ → Bytes → Result (Index × Progress) → Result (Index × Progress) × Bool
  process_tag tag_name tag_val r = (r >>= process_key (by_tag (tag_name ∷ tag_val)), true)

  unfoldable pub process_keys : Index × Progress → Result (Index × Progress)
  process_keys st = do
    event_id ← bytes32 (id packed)
    st1 ← process_key (by_id event_id) st
    author ← bytes32 (pubkey packed)
    st2 ← process_key (by_author author) st1
    tagged ← foreach_tag process_tag packed (ok st2)
    st3 ← tagged
    st4 ← process_key (by_kind (kind packed)) st3
    process_key by_other st4

-- The event is its levId and its packed buffer. What the callback is called with is the second part.
unfoldable pub process :
    ⦃lmdb : Lmdb⦄
    → ℕ
    → Bytes
    → ActiveMonitors
    → Result (ActiveMonitors × Option (RecipientList × ℕ))
process lev_id buf am = do
  packed ← packed_event_view buf
  (ix, p) ← process_keys lev_id packed (am.index, record { conns = am.conns; recipients = [] })
  ok (
    record am { index = ix; conns = p.conns },
    if length p.recipients == 0 then none else some (p.recipients, lev_id),
  )
