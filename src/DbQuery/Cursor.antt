-- ===== src/DbQuery/Cursor.antt =====
-- DBScan::ScanCursor of src/DBQuery.h. The indices of golpe.yaml and golpe's keys are a parameter.
use strfry.Prelude.{
  ℕ, zero, suc, ◌+◌, ◌-◌, ◌%◌, Bool, true, false, not, ◌&&◌, List, [], ◌∷◌, ◌++◌, ltb, ◌==◌,
  if◌then◌else◌, u64_mod, max_u64, length, Result, ok, err, no_fuel, ◌>>=◌,
}
use strfry.Prelude.Bytes.{Bytes}
use strfry.PackedEvent.{Lmdb}
use strfry.Filters.Filter.{NostrFilter}
use strfry.Store.{Env}
use strfry.DbQuery.Candidate.{CandidateEvent, candidate_event}

pub data IndexDbi : Type 0 where
  event_id event_tag event_pubkey_kind event_pubkey event_kind event_created_at : IndexDbi

pub record Indices ⦃lmdb : Lmdb⦄ (env : Env) : Type 0 where
  -- The entries that env.generic_foreachFull visits in reverse from a key and a value, in their order.
  pub foreach_full : env.Db → IndexDbi → Bytes → ℕ → List (Bytes × ℕ)
  -- ParsedKey_StringUint64 and ParsedKey_Uint64Uint64.
  pub parse_string_uint64 : Bytes → Result (Bytes × ℕ)
  pub parse_uint64_uint64 : Bytes → Result (ℕ × ℕ)

pub data KeyMatchResult : Type 0 where
  yes no : KeyMatchResult

pub record ScanCursor : Type 0 where
  pub resume_key : Bytes
  pub resume_val : ℕ
  pub key_match : Bytes → Result KeyMatchResult
  pub outstanding : ℕ

unfoldable pub active : ScanCursor → Bool
active cur = ltb 0 (length cur.resume_key)

-- What collect changes: the cursor, how many it may still add, how many it added, and the output.
pub record Collecting : Type 0 where
  pub cursor : ScanCursor
  pub limit : ℕ
  pub added : ℕ
  pub output : List CandidateEvent

abbrev pub resume : Bytes → ℕ → Collecting → Collecting
resume k v st = record st { cursor = record st.cursor { resume_key = k; resume_val = v } }

abbrev pub stop : Collecting → Collecting
stop st = record st { cursor = record st.cursor { resume_key = [] } }

module _ ⦃lmdb : Lmdb⦄ (env : Env) (indices : Indices env) (f : NostrFilter) (scan_index : ℕ) where
  abbrev pub take_candidate : ℕ → ℕ → Collecting → Collecting
  take_candidate v created st = record st {
    output = st.output ++ candidate_event v created scan_index ∷ [];
    added = st.added + 1;
    limit = st.limit - 1;
  }

  -- The callback of generic_foreachFull on an entry: the state, and whether to go on.
  unfoldable pub visit_entry : Bytes → ℕ → Collecting → Result (Collecting × Bool)
  visit_entry k v st =
      let looked = (do
        matched ← st.cursor.key_match k
        elim matched [
          | no ↦ ok (stop st, false)
          | yes ↦ (do
            (s, created) ← indices.parse_string_uint64 k
            ok (
                if not (f.since == 0) && ltb created f.since
                then (resume (env.make_key s 0) 0 st, false)
                else if not (f.until == 0) && ltb f.until created
                then (resume (env.make_key s f.until) max_u64 st, false)
                else (take_candidate v created st, true)))
        ]) in
      if st.limit == 0 then ok (resume k v st, false) else looked

  -- generic_foreachFull: whether it came to the end of the index.
  unfoldable pub visit_entries : List (Bytes × ℕ) → Collecting → Result (Collecting × Bool)
  visit_entries [] st = ok (st, true)
  visit_entries ((k, v) ∷ entries) st = do
    (st', go_on) ← visit_entry k v st
    let rest = visit_entries entries st'
    if go_on then rest else ok (st', false)

  -- The loop `while (active() && limit > 0)`.
  unfoldable pub collect_loop : env.Db → IndexDbi → ℕ → Collecting → Result Collecting
  collect_loop db dbi zero st = err no_fuel
  collect_loop db dbi (suc fuel) st =
      let round = (do
        (st', finished) ←
            visit_entries (indices.foreach_full db dbi st.cursor.resume_key st.cursor.resume_val) st
        collect_loop db dbi fuel (if finished then stop st' else st')) in
      if active st.cursor && ltb 0 st.limit then round else ok st

  -- The entries that are left, and a round to see that there are none: each round that is not the last
  -- goes past an entry.
  unfoldable pub collect_fuel : env.Db → IndexDbi → ScanCursor → ℕ
  collect_fuel db dbi cur = length (indices.foreach_full db dbi cur.resume_key cur.resume_val) + 2

  -- The cursor, the candidates and their number.
  unfoldable pub collect :
      env.Db → IndexDbi → ℕ → ScanCursor → Result (ScanCursor × List CandidateEvent × ℕ)
  collect db dbi limit cur = do
    st ←
        collect_loop db dbi (collect_fuel db dbi cur)
          (record { cursor = cur; limit = limit; added = 0; output = [] })
    ok (
      record st.cursor { outstanding = (cur.outstanding + st.added) % u64_mod },
      st.output,
      st.added,
    )
