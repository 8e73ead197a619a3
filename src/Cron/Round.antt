-- ===== src/Cron/Round.antt =====
-- One round of the cron thread of src/apps/relay/RelayCron.cpp.
use strfry.Prelude.{
  sym, u64_mod, ◌<◌, ℕ, ◌≡◌, refl, subst, ◌∙◌, ◌⊎◌, inl, inr, true, false, none, some, List, [],
  ◌∷◌, arith, ◌==◌, if◌then◌else◌, Bool-cases, length, ok,
}
use strfry.PackedEvent.{Lmdb}
use strfry.PackedEvent.RoundTrip.{EventData}
use strfry.Filters.SetUint.Members.{member}
use strfry.Store.{Row, find_row, remove_row, Env}
use strfry.Store.Lookup.{get_most_recent_lev_id}
use strfry.Store.Write.{NegentropyUpdates, delete_events}
use strfry.Store.Write.Rows.{Spaced}
use strfry.Store.Write.Delete.{remove_rows, gone, erasures}
use strfry.Store.Write.Step.{
  find_row-remove_row, find_row-remove_rows, All-member, Spaced-remove_rows,
}
use strfry.Store.Write.Commit.{Spaced-Packables}
use strfry.Store.Write.Erase.{delete_events-Deleted}
use strfry.Cron.{ephemeral_cutoff, run_cron}
use strfry.Cron.Expired.{
  is_outdated, is_expired-cutoff, is_expired, Entries, has_entry, Expired, collect_expired-Expired,
}

find_row-same : (l : ℕ) (rs : List Row) → find_row l (remove_row l rs) ≡ none
unfolding find_row remove_row
find_row-same l [] = refl
find_row-same l ((k, d) ∷ rs) = elim (Bool-cases (k == l)) [
  | inl y ↦ rw y (find_row-same l rs)
  | inr n ↦ rw (n, find_row-same l rs) (ground arith)
]

stays_gone :
    (l : ℕ) (ls : List ℕ) (rs : List Row)
    → find_row l rs ≡ none
    → find_row l (remove_rows ls rs) ≡ none
unfolding remove_rows
stays_gone l [] rs h = h
stays_gone l (k ∷ ls) rs h = elim (Bool-cases (l == k)) [
  | inl y ↦
      let same : l ≡ k = ground arith in
      stays_gone l ls (remove_row k rs)
        (subst (λ (q : ℕ). find_row l (remove_row q rs) ≡ none) same (find_row-same l rs))
  | inr n ↦ stays_gone l ls (remove_row k rs) (find_row-remove_row l k rs n ∙ h)
]

member-gone :
    (l : ℕ) (ls : List ℕ) (rs : List Row)
    → member l ls ≡ true
    → find_row l (remove_rows ls rs) ≡ none
unfolding remove_rows member
member-gone l [] rs m = absurd (ground arith)
member-gone l (k ∷ ls) rs m = elim (Bool-cases (l == k)) [
  | inl y ↦
      let same : l ≡ k = ground arith in
      stays_gone l ls (remove_row k rs)
        (subst (λ (q : ℕ). find_row l (remove_row q rs) ≡ none) same (find_row-same l rs))
  | inr n ↦ member-gone l ls (remove_row k rs) (ground arith)
]

module _ ⦃lmdb : Lmdb⦄ (env : Env) (now lifetime : ℕ) (entries : List (ℕ × ℕ)) (db : env.Db) where
  deletes :
      (ls : List ℕ)
      → Spaced (env.rows db)
      → (n : ℕ) × (db' : env.Db) × (us : NegentropyUpdates) × ((if length ls == 0
            then ok (0, (db, []))
            else delete_events env ls (db, []))
          ≡ ok (n, (db', us)))
        × (env.rows db' ≡ remove_rows ls (env.rows db))
  unfolding remove_rows
  deletes [] s = (0, db, [], refl, refl)
  deletes (l ∷ ls) s =
      let (n, db', e, few, r) =
        delete_events-Deleted env (l ∷ ls) db [] (Spaced-Packables (env.rows db) s) in
      let some_left : (length (l ∷ ls) == 0) ≡ false = ground arith in
      (n, db', erasures (gone (l ∷ ls) (env.rows db)), rw some_left e, r)

  module _ (spaced : Spaced (env.rows db)) (indexed : Entries (env.rows db) entries)
      (now_u64 : now < u64_mod) (lifetime_u64 : lifetime < u64_mod) where
    -- On a well-formed table with a correct index, with a clock and a lifetime of 64 bits, a round never
    -- fails, leaves the table well-formed, and a row that was there is there afterwards, unless it is
    -- not the last row and is an event of an ephemeral kind that has lived for the lifetime, or an event
    -- whose expiration has come. (A lifetime beyond the clock counts as that much less than 2^64.)
    pub run_cron-keeps :
        (l : ℕ) (e : EventData)
        → find_row l (env.rows db) ≡ some e
        → (n : ℕ) × (db' : env.Db) × (us : NegentropyUpdates) × (run_cron env now lifetime entries
              db
            ≡ ok (n, (db', us)))
          × Spaced (env.rows db')
          × ((find_row l (env.rows db') ≡ some e)
              ⊎ (((l == get_most_recent_lev_id env db) ≡ false)
                  × (is_outdated now lifetime e ≡ true)))
    unfolding run_cron
    run_cron-keeps l e found =
        let (ls, collected, sound, complete) =
          collect_expired-Expired env db spaced (get_most_recent_lev_id env db) now
            (ephemeral_cutoff now lifetime) entries indexed in
        let (n, db', us, run, r) = deletes ls spaced in
        (
          n,
          db',
          us,
          rw collected run,
          rw r (Spaced-remove_rows ls (env.rows db) spaced),
          elim (find_row-remove_rows l ls (env.rows db) e found) [
            | inl kept ↦ inl (rw r kept)
            | inr m ↦
                let (d, found', other, old) =
                  All-member
                    (Expired env db spaced (get_most_recent_lev_id env db) now
                      (ephemeral_cutoff now lifetime))
                    l ls sound m in
                let same : d ≡ e = ground arith in
                inr (
                  other,
                  sym (is_expired-cutoff now lifetime e now_u64 lifetime_u64)
                      ∙ subst
                          (λ (q : EventData).
                            is_expired now (ephemeral_cutoff now lifetime) q ≡ true)
                          same old,
                )
          ],
        )

    -- On a well-formed table with a correct index, with a clock and a lifetime of 64 bits, a row that the
    -- index lists and that is not the last row is gone after a round, if it is an event of an ephemeral
    -- kind that has lived for the lifetime, or an event whose expiration has come.
    pub run_cron-deletes :
        (l : ℕ) (d : EventData)
        → find_row l (env.rows db) ≡ some d
        → has_entry d.expiration l entries ≡ true
        → (l == get_most_recent_lev_id env db) ≡ false
        → is_outdated now lifetime d ≡ true
        → (n : ℕ) × (db' : env.Db) × (us : NegentropyUpdates) × (run_cron env now lifetime entries
              db
            ≡ ok (n, (db', us)))
          × (find_row l (env.rows db') ≡ none)
    unfolding run_cron
    run_cron-deletes l d found listed other old =
        let (ls, collected, sound, complete) =
          collect_expired-Expired env db spaced (get_most_recent_lev_id env db) now
            (ephemeral_cutoff now lifetime) entries indexed in
        let (n, db', us, run, r) = deletes ls spaced in
        (
          n,
          db',
          us,
          rw collected run,
          rw r (
              member-gone l ls (env.rows db) (
                complete l d found listed other
                  (is_expired-cutoff now lifetime d now_u64 lifetime_u64 ∙ old))),
        )
