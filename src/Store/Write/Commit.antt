-- ===== src/Store/Write/Commit.antt =====
-- The branch of writeEvents of src/events_write.cpp that stores an event and deletes what it replaces.
use strfry.Prelude.{
  ℕ, suc, ◌<◌, ◌≡◌, refl, ap, ◌∙◌, inl, inr, Bool, true, false, List, [], ◌∷◌, ◌++◌, map, arith,
  ◌==◌, Bool-cases, Option-cases, All, ok,
}
use mathlib.Core.List.{append_assoc}
use strfry.PackedEvent.{Lmdb}
use strfry.PackedEvent.RoundTrip.{EventData, IsPackable, packed, view_of}
use strfry.Store.{Row, find_row, remove_row, last_id, Env}
use strfry.Store.Write.{EventToWrite, written, NegentropyUpdates, commit_event}
use strfry.Store.Write.Rows.{Spaced, All-snoc}
use strfry.Store.Write.Delete.{remove_rows, gone, erasures, Packables, delete_marked_lem}

pub Spaced-Packables : (rs : List Row) → Spaced rs → Packables rs
Spaced-Packables [] s = tt
Spaced-Packables (r ∷ rs) s = (s.0, Spaced-Packables rs s.2)

-- A key that is not the last row's: deletion and lookup do not see the last row.
remove_row-snoc :
    (l n : ℕ) (d : EventData) (rs : List Row)
    → l < n
    → remove_row l (rs ++ (n, d) ∷ []) ≡ remove_row l rs ++ (n, d) ∷ []
unfolding remove_row
remove_row-snoc l n d [] h = let ne : (n == l) ≡ false = ground arith in rw ne
remove_row-snoc l n d ((k, x) ∷ rs) h = elim (Bool-cases (k == l)) [
  | inl y ↦ rw (y, remove_row-snoc l n d rs h)
  | inr f ↦ rw (f, remove_row-snoc l n d rs h)
]

find_row-snoc :
    (l n : ℕ) (d : EventData) (rs : List Row)
    → l < n
    → find_row l (rs ++ (n, d) ∷ []) ≡ find_row l rs
unfolding find_row
find_row-snoc l n d [] h = ground arith
find_row-snoc l n d ((k, x) ∷ rs) h = ground (arith, find_row-snoc l n d rs h)

abbrev pub Below : ℕ → List ℕ → Type 0
Below n ls = All (λ (l : ℕ). l < n) ls

remove_rows-snoc :
    (ls : List ℕ) (n : ℕ) (d : EventData) (rs : List Row)
    → Below n ls
    → remove_rows ls (rs ++ (n, d) ∷ []) ≡ remove_rows ls rs ++ (n, d) ∷ []
unfolding remove_rows
remove_rows-snoc [] n d rs h = refl
remove_rows-snoc (l ∷ ls) n d rs h =
    ap (remove_rows ls) (remove_row-snoc l n d rs h.0)
    ∙ remove_rows-snoc ls n d (remove_row l rs) h.1

gone-snoc :
    (ls : List ℕ) (n : ℕ) (d : EventData) (rs : List Row)
    → Below n ls
    → gone ls (rs ++ (n, d) ∷ []) ≡ gone ls rs
unfolding gone
gone-snoc [] n d rs h = refl
gone-snoc (l ∷ ls) n d rs h = elim (Option-cases (find_row l rs)) [
  | inl none_found ↦ rw (find_row-snoc l n d rs h.0, none_found, gone) (gone-snoc ls n d rs h.1)
  | inr (e, found) ↦
      rw (find_row-snoc l n d rs h.0, found, gone)
        (ap (λ es. e ∷ es)
          (ap (gone ls) (remove_row-snoc l n d rs h.0) ∙ gone-snoc ls n d (remove_row l rs) h.1))
]

module _ ⦃lmdb : Lmdb⦄ where
  abbrev pub views : List (EventData × Bool) → NegentropyUpdates
  views [] = []
  views ((d, b) ∷ cs) = (view_of d, b) ∷ views cs

  erasures-views : (ds : List EventData) → erasures ds ≡ views (map (λ e. (e, false)) ds)
  erasures-views [] = refl
  erasures-views (d ∷ ds) = ap (λ es. (view_of d, false) ∷ es) (erasures-views ds)

  -- Storing an event never fails on a well-formed table: it gets the next key, what is marked goes,
  -- and the trees are told of both.
  pub commit_event_lem :
      (env : Env) (db : env.Db) (updates : NegentropyUpdates) (ev : EventToWrite) (d : EventData)
      (ls : List ℕ)
      → Spaced (env.rows db)
      → IsPackable d
      → ev.packed_str ≡ packed d
      → Below (suc (last_id (env.rows db))) ls
      → (db' : env.Db) × (ev' : EventToWrite) × (commit_event env (db, updates) (view_of d) ev ls
          ≡ ok (
            (db', updates ++ views ((d, true) ∷ map (λ e. (e, false)) (gone ls (env.rows db)))),
            ev',
          ))
        × (ev'.status ≡ written)
        × (env.rows db' ≡ remove_rows ls (env.rows db) ++ (suc (last_id (env.rows db)), d) ∷ [])
  unfolding commit_event
  commit_event_lem env db updates ev d ls spaced p bytes below =
      let n = suc (last_id (env.rows db)) in
      let inserted = env.insert_event db ev.packed_str in
      let stored = env.put_payload inserted.1 inserted.0 (0 ∷ ev.json_str) in
      let eq : env.rows stored ≡ env.rows db ++ (n, d) ∷ [] =
        env.rows-put_payload inserted.1 inserted.0 (0 ∷ ev.json_str)
        ∙ (ap (λ b. env.rows (env.insert_event db b).1) bytes ∙ env.rows-insert_event db d p) in
      let ps : Packables (env.rows stored) = rw eq (
        All-snoc (λ r. IsPackable r.1) (env.rows db) (n, d) (Spaced-Packables (env.rows db) spaced)
          p) in
      let (db', e, r) = delete_marked_lem env ls stored (updates ++ (view_of d, true) ∷ []) ps in
      (
        db',
        record ev { lev_id = inserted.0; status = written },
        rw e (
            ap
              (λ (us : NegentropyUpdates).
                ok ((db', us), record ev { lev_id = inserted.0; status = written }))
              (append_assoc updates ((view_of d, true) ∷ []) _
                ∙ ap (λ (us : NegentropyUpdates). updates ++ (view_of d, true) ∷ us)
                    (ap erasures (ap (gone ls) eq ∙ gone-snoc ls n d (env.rows db) below)
                      ∙ erasures-views (gone ls (env.rows db))))),
        refl,
        r ∙ (ap (remove_rows ls) eq ∙ remove_rows-snoc ls n d (env.rows db) below),
      )
