-- ===== src/DbQuery/Scan.antt =====
-- DBScan of src/DBQuery.h: the choice of an index, and the merge of its cursors by time.
use strfry.Prelude.{
  ℕ, zero, suc, ◌+◌, ◌*◌, ◌/◌, ◌%◌, Bool, true, false, ◌&&◌, Option, none, some, List, [], ◌∷◌,
  ◌++◌, map, ltb, ◌==◌, if◌then◌else◌, u64_mod, max_u64, length, get_elem?, herr, out_of_range,
  Result, ok, err, no_fuel, ◌>>=◌, ◌>>◌, throw_if, or_throw,
}
use strfry.Prelude.Bytes.{Bytes}
use strfry.PackedEvent.{Lmdb, packed_event_view}
use strfry.Filters.SetBytes.{FilterSetBytes}
use strfry.Filters.SetUint.{FilterSetUint}
use strfry.Filters.Filter.{NostrFilter, does_match_times, does_match}
use strfry.Store.{Env, starts_with}
use strfry.Monitors.Keys.{values}
use strfry.DbQuery.Candidate.{CandidateEvent, lev_id, created, scan_index, sort, merge}
use strfry.DbQuery.Cursor.{
  IndexDbi, event_id, event_tag, event_pubkey_kind, event_pubkey, event_kind, event_created_at,
  Indices, KeyMatchResult, yes, no, ScanCursor, collect,
}

pub record DbScan : Type 0 where
  pub f : NostrFilter
  pub index_only : Bool
  pub index_dbi : IndexDbi
  pub cursors : List ScanCursor
  pub event_queue : List CandidateEvent
  pub initial_scan_depth : ℕ
  pub refill_scan_depth : ℕ
  pub next_init_index : ℕ
  pub approx_work : ℕ

-- std::string(8, '\xFF'), above every time.
abbrev pub last_time : Bytes
last_time = 255 ∷ 255 ∷ 255 ∷ 255 ∷ 255 ∷ 255 ∷ 255 ∷ 255 ∷ []

abbrev pub cursor_at : Bytes → (Bytes → Result KeyMatchResult) → ScanCursor
cursor_at search key_match = record {
  resume_key = search ++ last_time;
  resume_val = max_u64;
  key_match = key_match;
  outstanding = 0;
}

abbrev pub yes_if : Bool → KeyMatchResult
yes_if b = if b then yes else no

abbrev pub prefix_cursor : Bytes → ScanCursor
prefix_cursor search = cursor_at search (λ k. ok (yes_if (starts_with search k)))

abbrev pub tag_cursor : ℕ → Bytes → ScanCursor
tag_cursor tag_name val =
    let search = tag_name ∷ val in
    cursor_at search (λ k. ok (yes_if ((length k == length search + 8) && starts_with search k)))

-- The loop for the tag with the fewest values.
unfoldable pub smallest_tag : List (ℕ × FilterSetBytes) → ℕ → ℕ → ℕ
smallest_tag [] num_tags tag_name = tag_name
smallest_tag ((tn, filter_set) ∷ tags) num_tags tag_name =
    if ltb (length filter_set.items) num_tags
    then smallest_tag tags (length filter_set.items) tn
    else smallest_tag tags num_tags tag_name

-- f.tags.at(tagName)
unfoldable pub tag_set : ℕ → List (ℕ × FilterSetBytes) → Result FilterSetBytes
tag_set tag_name [] = err out_of_range
tag_set tag_name ((tn, filter_set) ∷ tags) =
    if tn == tag_name then ok filter_set else tag_set tag_name tags

module _ ⦃lmdb : Lmdb⦄ (env : Env) (indices : Indices env) where
  abbrev pub kind_cursor : ℕ → ScanCursor
  kind_cursor kind =
      cursor_at (lmdb.to_sv kind)
        (λ k. do (n1, n2) ← indices.parse_uint64_uint64 k; ok (yes_if (n1 == kind)))

  -- The two nested loops over authors and kinds.
  unfoldable pub pubkey_kind_cursors : List Bytes → List ℕ → List ScanCursor
  pubkey_kind_cursors [] kinds = []
  pubkey_kind_cursors (author ∷ authors) kinds =
      map (λ kind. prefix_cursor (author ++ lmdb.to_sv kind)) kinds
      ++ pubkey_kind_cursors authors kinds

  -- The index, its cursors, and indexOnly.
  abbrev pub Choice : Type 0
  Choice = IndexDbi × List ScanCursor × Bool

  abbrev pub by_kinds : NostrFilter → Option FilterSetUint → Choice
  by_kinds f none = (event_created_at, cursor_at [] (λ k. ok yes) ∷ [], f.index_only_scans)
  by_kinds f (some kinds) = (event_kind, map kind_cursor kinds.items, f.index_only_scans)

  abbrev pub by_authors : NostrFilter → Option FilterSetBytes → Option FilterSetUint → Choice
  by_authors f none kinds = by_kinds f kinds
  by_authors f (some authors) none =
      (event_pubkey, map prefix_cursor (values authors), f.index_only_scans)
  by_authors f (some authors) (some kinds) =
      if ltb ((length authors.items * length kinds.items) % u64_mod) 1000
      then (event_pubkey_kind, pubkey_kind_cursors (values authors) kinds.items, f.index_only_scans)
      else (event_pubkey, map prefix_cursor (values authors), false)

  abbrev pub by_tags : NostrFilter → Result Choice
  by_tags f = do
    let tag_name = smallest_tag f.tags max_u64 0
    filter_set ← tag_set tag_name f.tags
    ok (event_tag, map (tag_cursor tag_name) (values filter_set), f.index_only_scans)

  unfoldable pub choose_index : NostrFilter → Result Choice
  choose_index f = elim f.ids [
    | some ids ↦ ok (event_id, map prefix_cursor (values ids), f.index_only_scans)
    | none ↦ if length f.tags == 0 then ok (by_authors f f.authors f.kinds) else by_tags f
  ]

  abbrev pub clamp : ℕ → ℕ
  clamp n = if ltb n 5 then 5 else if ltb 50 n then 50 else n

  -- The constructor; without cursors it would divide by zero.
  unfoldable pub db_scan : NostrFilter → Result DbScan
  db_scan f = do
    (dbi, cursors, index_only) ← choose_index f
    let depth = clamp (f.limit / length cursors)
    throw_if (length cursors == 0) (herr "division by zero")
    ok (record {
      f = f;
      index_only = index_only;
      index_dbi = dbi;
      cursors = cursors;
      event_queue = [];
      initial_scan_depth = depth;
      refill_scan_depth = 10 * depth;
      next_init_index = 0;
      approx_work = 0;
    })

  unfoldable pub set_at : ℕ → ScanCursor → List ScanCursor → List ScanCursor
  set_at i cur [] = []
  set_at zero cur (c ∷ cs) = cur ∷ cs
  set_at (suc i) cur (c ∷ cs) = c ∷ set_at i cur cs

  abbrev pub add_work : ℕ → DbScan → DbScan
  add_work n s = record s { approx_work = (s.approx_work + n) % u64_mod }

  -- cursors[i].collect(…): the scan with its cursor and its work, and the candidates.
  unfoldable pub collect_at : env.Db → ℕ → ℕ → DbScan → Result (DbScan × List CandidateEvent)
  collect_at db i depth s = do
    cur ← or_throw (get_elem? s.cursors i) out_of_range
    (cur', output, added) ← collect env indices s.f i db s.index_dbi depth cur
    ok (add_work added (record s { cursors = set_at i cur' s.cursors }), output)

  -- The first candidates of the next cursor; after the last one the queue is sorted.
  unfoldable pub init_cursor : env.Db → DbScan → Result DbScan
  init_cursor db s = do
    (s', output) ← collect_at db s.next_init_index s.initial_scan_depth s
    let queue = s.event_queue ++ output
    ok (record s' {
      event_queue = if s.next_init_index + 1 == length s.cursors then sort queue else queue;
      next_init_index = s.next_init_index + 1;
    })

  -- doSend, and the work for it.
  unfoldable pub should_send : env.Db → CandidateEvent → DbScan → Result (DbScan × Bool)
  should_send db ev s =
      let looked_up : Result (DbScan × Bool) = elim (env.lookup_event db (lev_id ev)) [
        | none ↦ ok (add_work 10 s, false)
        | some buf ↦ (do
          view ← packed_event_view buf
          matched ← does_match s.f view
          ok (add_work 10 s, matched))
      ] in
      if s.index_only then ok (s, does_match_times s.f (created ev)) else looked_up

  -- One candidate less of a cursor; when none is left in the queue, the next ones are merged in.
  unfoldable pub refill : env.Db → CandidateEvent → DbScan → Result DbScan
  refill db ev s = do
    let i = scan_index ev
    cur ← or_throw (get_elem? s.cursors i) out_of_range
    let left = (cur.outstanding + max_u64) % u64_mod
    let s1 = record s { cursors = set_at i (record cur { outstanding = left }) s.cursors }
    let more = (do
      (s2, more_events) ← collect_at db i s.refill_scan_depth s1
      ok (record s2 { event_queue = merge s1.event_queue more_events }))
    if left == 0 then more else ok s1

  unfoldable pub entries_left : env.Db → IndexDbi → List ScanCursor → ℕ
  entries_left db dbi [] = 0
  entries_left db dbi (cur ∷ curs) =
      length (indices.foreach_full db dbi cur.resume_key cur.resume_val) + entries_left db dbi curs

  -- `handle_event` and `do_pause` change what they capture, of type S.
  module _ {S : Type 0} (handle_event : ℕ → S → S × Bool) (do_pause : ℕ → S → S × Bool) where
    -- One round of `while (1)`; the Boolean of `some` is what scan returns.
    unfoldable pub send_front :
        env.Db
        → CandidateEvent
        → List CandidateEvent
        → DbScan
        → S
        → Result (DbScan × S × Option Bool)
    send_front db ev queue s st = do
      (s1, do_send) ← should_send db ev (record s { event_queue = queue })
      let (st', done) = if do_send then handle_event (lev_id ev) st else (st, false)
      let next = (do s2 ← refill db ev s1; ok (s2, st', none))
      if done then ok (s1, st', some true) else next

    unfoldable pub scan_round : env.Db → DbScan → S → Result (DbScan × S × Option Bool)
    scan_round db s0 st0 =
        let s = add_work 1 s0 in
        let (st, pause) = do_pause s.approx_work st0 in
        let next = (do s' ← init_cursor db s; ok (s', st, none)) in
        let send : Result (DbScan × S × Option Bool) = elim s.event_queue [
          | [] ↦ ok (s, st, some true)
          | ev ∷ queue ↦ send_front db ev queue s st
        ] in
        if pause
        then ok (s, st, some false)
        else if ltb s.next_init_index (length s.cursors)
        then next
        else send

    unfoldable pub scan_loop : env.Db → ℕ → DbScan → S → Result (DbScan × S × Bool)
    scan_loop db zero s st = err no_fuel
    scan_loop db (suc fuel) s st = do
      (s', st', returned) ← scan_round db s st
      elim returned [ some b ↦ ok (s', st', b) | none ↦ scan_loop db fuel s' st' ]

    -- A round for every cursor, one for every candidate that there is or can be, and the last one.
    unfoldable pub scan : env.Db → DbScan → S → Result (DbScan × S × Bool)
    scan db s st =
        scan_loop db
          (length s.cursors + length s.event_queue + entries_left db s.index_dbi s.cursors + 1) s st
