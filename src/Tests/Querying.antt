-- ===== src/Tests/Querying.antt =====
-- A query over the indices of a small table.
use mathlib.Core.List.{append_assoc}
use strfry.Prelude.{
  ℕ, ◌≡◌, refl, Bool, true, false, ◌&&◌, ◌||◌, List, [], ◌∷◌, ◌++◌, arith, ltb, ◌==◌, if◌then◌else◌,
  ok, any, All, Bool-cases, ◌∙◌, sym, ap, subst, ◌⊎◌, inl, inr, u64_mod, ◌<◌, ◌≤◌, ◌+◌, ◌%◌, length,
}
use strfry.Prelude.Bytes.{Bytes, bytes_eq, bytes_lt, bytes_eq_refl}
use strfry.DbQuery.Laws.{AreIndices}
use strfry.DbQuery.Ends.{collect-ends}
use strfry.PackedEvent.Lemmas.{Tag}
use strfry.PackedEvent.RoundTrip.{EventData}
use strfry.Filters.Filter.{init}
use strfry.Store.{Row}
use strfry.DbQuery.Candidate.{
  CandidateEvent, lev_id, created, scan_index, candidate_event, created_mod,
}
use strfry.DbQuery.Cursor.{
  IndexDbi, event_id, event_tag, event_pubkey_kind, event_pubkey, event_kind, event_created_at,
  Indices, ScanCursor, collect,
}
use strfry.DbQuery.Scan.{tag_cursor}
use strfry.Filters.Filter.{NostrFilter}
use strfry.DbQuery.Query.{Reporting, QueryProgress, process, new_query}
use strfry.DbQuery
use strfry.Tests.World.{little_endian, to_le, from_le}
use strfry.Tests.Table.{make_key, key_s, key_n, key_s-make_key, key_n-make_key}
use strfry.Tests.Instance.{list_env}
use strfry.QueryScheduler.{Scanning, QueryScheduler, Callback}
use strfry.QueryScheduler
use strfry.QueryScheduler.Valid.{IsConsistent}
use strfry.QueryScheduler.Slices.{Turn, Fails, AboutEntry, process-IsConsistent}
use strfry.DbQuery.Query.{db_queries}
use strfry.Tests.Scheduling.{busy, busy-IsConsistent}
use strfry.Tests.Relaying.{before}
use strfry.Tests.Table.{Table}
use strfry.Prelude.{Error, err}
use strfry.Tests.Monitoring.{feed}
use strfry.Tests.Relaying.{after}

abbrev tag_keys : ℕ → List Tag → List Bytes
tag_keys t [] = []
tag_keys t ((k, v) ∷ ts) = make_key (k ∷ v) t ∷ tag_keys t ts

-- indexPrelude of golpe.yaml.
abbrev keys : IndexDbi → EventData → List Bytes
keys event_id d = make_key d.id d.created_at ∷ []
keys event_tag d = tag_keys d.created_at d.tags
keys event_pubkey_kind d = make_key (d.pubkey ++ to_le 8 d.kind) d.created_at ∷ []
keys event_pubkey d = make_key d.pubkey d.created_at ∷ []
keys event_kind d = make_key (to_le 8 d.kind) d.created_at ∷ []
keys event_created_at d = make_key [] d.created_at ∷ []

abbrev Entry : Type 0
Entry = Bytes × ℕ

-- The text, then the number, then the value.
unfoldable is_above : Entry → Entry → Bool
is_above (k, v) (k', v') =
    bytes_lt (key_s k') (key_s k)
    || (bytes_eq (key_s k) (key_s k')
        && (ltb (key_n k') (key_n k) || (key_n k == key_n k' && ltb v' v)))

unfoldable insert_entry : Entry → List Entry → List Entry
insert_entry x [] = x ∷ []
insert_entry x (y ∷ ys) =
    let rest = insert_entry x ys in if is_above y x then y ∷ rest else x ∷ y ∷ ys

unfoldable insert_keys : ℕ → List Bytes → List Entry → List Entry
insert_keys l [] es = es
insert_keys l (k ∷ ks) es = insert_entry (k, l) (insert_keys l ks es)

unfoldable entries : IndexDbi → List Row → List Entry
entries dbi [] = []
entries dbi ((l, d) ∷ rs) =
    let rest = entries dbi rs in if l == 0 then rest else insert_keys l (keys dbi d) rest

-- What comes after the last entry above a position.
unfoldable from_entry : Entry → List Entry → List Entry
from_entry x [] = []
from_entry x (y ∷ ys) =
    let rest = from_entry x ys in if any (λ e. is_above e x) (y ∷ ys) then rest else y ∷ ys

abbrev list_indices : Indices list_env
list_indices = record {
  foreach_full = λ t dbi k v. from_entry (k, v) (entries dbi t.rows);
  parse_string_uint64 = λ k. ok (key_s k, key_n k);
  parse_uint64_uint64 = λ k. ok (from_le (key_s k), key_n k);
}

abbrev queried : QueryProgress
queried = record new_query {
  filter_group_index = 1;
  sent_events_full = 6 ∷ 7 ∷ [];
  last_work_checked = 0;
}

-- Both events have a tag of the filter, the one that was stored last first; what came after the
-- query's first event is left to the monitor.
query_run :
    process list_env list_indices
      (λ work. false)
      after
      (record feed { latest_event_id = 7 })
      new_query
    ≡ ok (queried, 7 ∷ 6 ∷ [], true)
unfolding process strfry.DbQuery.Query.process_filters strfry.DbQuery.Query.scan_filter
    strfry.DbQuery.Scan.db_scan strfry.DbQuery.Scan.choose_index strfry.DbQuery.Scan.tag_set
    strfry.DbQuery.Scan.smallest_tag strfry.Monitors.Keys.values strfry.DbQuery.Scan.scan
    strfry.DbQuery.Scan.scan_loop strfry.DbQuery.Scan.entries_left from_entry entries insert_keys
    insert_entry is_above bytes_lt strfry.DbQuery.Candidate.bit_or candidate_event created
    strfry.DbQuery.Candidate.insert_sorted strfry.DbQuery.Candidate.is_before
    strfry.DbQuery.Candidate.merge scan_index strfry.DbQuery.Candidate.sort
    strfry.DbQuery.Cursor.active strfry.DbQuery.Cursor.collect strfry.DbQuery.Cursor.collect_fuel
    strfry.DbQuery.Cursor.collect_loop strfry.DbQuery.Cursor.visit_entries
    strfry.DbQuery.Cursor.visit_entry strfry.DbQuery.Query.do_pause
    strfry.DbQuery.Query.handle_event strfry.DbQuery.Scan.collect_at strfry.DbQuery.Scan.init_cursor
    strfry.DbQuery.Scan.refill strfry.DbQuery.Scan.scan_round strfry.DbQuery.Scan.send_front
    strfry.DbQuery.Scan.set_at strfry.DbQuery.Scan.should_send strfry.Filters.Filter.does_match
    strfry.Filters.Filter.does_match_tags strfry.Filters.Filter.does_match_times
    strfry.Filters.Filter.tag_matches strfry.Filters.SetBytes.before
    strfry.Filters.SetBytes.does_match strfry.Filters.SetBytes.upper_bound
    strfry.Filters.SetUint.does_match strfry.PackedEvent.created_at strfry.PackedEvent.foreach_tag
    strfry.PackedEvent.id strfry.PackedEvent.kind strfry.PackedEvent.packed_event_view
    strfry.PackedEvent.pubkey strfry.PackedEvent.tag_loop bytes_eq strfry.Store.starts_with from_le
    to_le strfry.Store.find_row strfry.PackedEvent.RoundTrip.packed
    strfry.PackedEvent.Lemmas.encode_tags
query_run = refl

abbrev two_events : NostrFilter
two_events = record init { limit = 2 }

abbrev fresh : Reporting
fresh = record { full = []; curr = []; last_checked = 0; reported = [] }

insert_entry-All :
    (P : Entry → Type 0) (x : Entry) (es : List Entry) → P x → All P es → All P (insert_entry x es)
unfolding insert_entry
insert_entry-All P x [] p h = (p, tt)
insert_entry-All P x (y ∷ ys) p h = elim (Bool-cases (is_above y x)) [
  | inl above ↦ rw above (h.0, insert_entry-All P x ys p h.1)
  | inr n ↦ rw n (p, h)
]

insert_keys-All :
    (P : Entry → Type 0) (l : ℕ) (ks : List Bytes) (es : List Entry)
    → ((k : Bytes) → P (k, l))
    → All P es
    → All P (insert_keys l ks es)
unfolding insert_keys
insert_keys-All P l [] es p h = h
insert_keys-All P l (k ∷ ks) es p h =
    insert_entry-All P (k, l) (insert_keys l ks es) (p k) (insert_keys-All P l ks es p h)

entries-positive : (dbi : IndexDbi) (rs : List Row) → All (λ (e : Entry). 0 < e.1) (entries dbi rs)
unfolding entries
entries-positive dbi [] = tt
entries-positive dbi ((l, d) ∷ rs) = elim (Bool-cases (l == 0)) [
  | inl y ↦ rw y (entries-positive dbi rs)
  | inr n ↦
      let positive : 0 < l = ground arith in
      rw n (insert_keys-All _ l (keys dbi d) _ (λ k. positive) (entries-positive dbi rs))
]

from_entry_suffix :
    (x : Entry) (es : List Entry) → (skipped : List Entry) × (es ≡ skipped ++ from_entry x es)
unfolding from_entry
from_entry_suffix x [] = ([], refl)
from_entry_suffix x (y ∷ ys) = elim (Bool-cases (any (λ e. is_above e x) (y ∷ ys))) [
  | inl above ↦
      let (skipped, e) = from_entry_suffix x ys in (y ∷ skipped, rw above (ap (λ l. y ∷ l) e))
  | inr n ↦ ([], rw n refl)
]

any_above :
    (x e : Entry) (pre post : List Entry)
    → is_above e x ≡ true
    → any (λ y. is_above y x) (pre ++ e ∷ post) ≡ true
any_above x e [] post h = ground arith
any_above x e (y ∷ pre) post h = let rest = any_above x e pre post h in ground arith

from_entry_past :
    (x e : Entry) (pre post : List Entry)
    → is_above e x ≡ true
    → from_entry x (pre ++ e ∷ post) ≡ from_entry x post
unfolding from_entry
from_entry_past x e [] post h = rw (any_above x e [] post h) refl
from_entry_past x e (y ∷ pre) post h =
    rw (any_above x e (y ∷ pre) post h) (from_entry_past x e pre post h)

All-middle :
    (P : Entry → Type 0) (pre : List Entry) (e : Entry) (post : List Entry)
    → All P (pre ++ e ∷ post)
    → P e
All-middle P [] e post h = h.0
All-middle P (y ∷ pre) e post h = All-middle P pre e post h.1

-- The position of an entry among all of them.
whole :
    (x : Entry) (es pre : List Entry) (e : Entry) (post : List Entry)
    → from_entry x es ≡ pre ++ e ∷ post
    → (before : List Entry) × (es ≡ before ++ e ∷ post)
whole x es pre e post h =
    let (skipped, all) = from_entry_suffix x es in
    (skipped ++ pre, all ∙ ap (λ l. skipped ++ l) h ∙ sym (append_assoc skipped pre (e ∷ post)))

above_position :
    (k : Bytes) (v : ℕ) (s : Bytes) (c n w : ℕ)
    → key_s k ≡ s
    → key_n k ≡ c
    → n < u64_mod
    → (n < c) ⊎ ((n ≡ c) × (w < v))
    → is_above (k, v) (make_key s n, w) ≡ true
unfolding is_above
above_position k v s c n w text time small earlier =
    rw (key_s-make_key s n, key_n-make_key s n small, text, time, bytes_eq_refl s)
      (elim earlier [ inl less ↦ ground arith | inr (same, above) ↦ ground arith ])

list_indices-AreIndices : AreIndices list_env list_indices
list_indices-AreIndices = record {
  parses = λ t dbi rk rv pre k v post h.
      (let (before, all) = whole (rk, rv) (entries dbi t.rows) pre (k, v) post h in
        (
          key_s k,
          key_n k,
          refl,
          All-middle (λ e. 0 < e.1) before (k, v) post
              (subst (All (λ (e : Entry). 0 < e.1)) all (entries-positive dbi t.rows)),
        ));
  seek = λ t dbi rk rv pre k v post s c n w h parsed small earlier.
      (let (before, all) = whole (rk, rv) (entries dbi t.rows) pre (k, v) post h in
        let text : key_s k ≡ s = ground arith in
        let time : key_n k ≡ c = ground arith in
        let above = above_position k v s c n w text time small earlier in
        let (skipped, rest) = from_entry_suffix (make_key s n, w) post in
        let same : from_entry (make_key s n, w) (entries dbi t.rows)
            ≡ from_entry (make_key s n, w) post =
          ap (from_entry (make_key s n, w)) all
          ∙ from_entry_past (make_key s n, w) (k, v) before post above in
        (skipped, rest ∙ ap (λ l. skipped ++ l) (sym same)));
}

abbrev nostr_cursor : ScanCursor
nostr_cursor = tag_cursor 116 (110 ∷ 111 ∷ 115 ∷ 116 ∷ 114 ∷ [])

collect-ends_example :
    (cur' : ScanCursor) × (output : List CandidateEvent) × (added : ℕ) × (collect list_env
        list_indices init 0 after event_tag 5 nostr_cursor
      ≡ ok (cur', output, added))
    × (added ≤ 5)
    × (length output ≡ added)
    × (cur'.outstanding ≡ (0 + added) % u64_mod)
collect-ends_example =
    collect-ends list_env list_indices list_indices-AreIndices init (omega arith) 0 after event_tag
      5 nostr_cursor (λ rk rv pre k v post h. (_, refl))

-- The scheduler over the queries of DBQuery.
abbrev queries : Scanning Table QueryProgress
queries = db_queries list_env list_indices (λ work. false)

-- The queries of DBQuery.
process-IsConsistent_example :
    ((sch' : QueryScheduler QueryProgress) × (calls : List Callback) × (QueryScheduler.process
          queries before
          (busy queries)
        ≡ ok (sch', calls))
      × IsConsistent 20 sch'
      × AboutEntry queries 20 (busy queries) calls
      × Turn queries 20 before (busy queries) (0 ∷ []) sch')
    ⊎ ((e : Error) × (QueryScheduler.process queries before (busy queries) ≡ err e)
        × Fails queries 20 before (busy queries) (0 ∷ []) e)
process-IsConsistent_example =
    process-IsConsistent queries 20 before (busy queries) (busy-IsConsistent queries)
