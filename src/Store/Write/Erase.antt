-- ===== src/Store/Write/Erase.antt =====
-- deleteEvents of src/events.h, and the JSON of a stored event.
use strfry.Prelude.{
  ℕ, suc, ◌+◌, ◌≤◌, ◌≡◌, refl, sym, ap, subst, ◌∙◌, inl, inr, false, List, [], ◌∷◌, ◌++◌, arith,
  if◌then◌else◌, Option-cases, if-cases, length, ok,
}
use mathlib.Core.List.{append_assoc, append-nil}
use strfry.PackedEvent.{Lmdb}
use strfry.PackedEvent.RoundTrip.{IsPackable, view_of, view-accepts}
use strfry.Store.{Row, find_row, remove_row, Env}
use strfry.Store.Write.{NegentropyUpdates, delete_event_basic, delete_events}
use strfry.Store.Write.Rows.{All-remove_row, All-find_row}
use strfry.Store.Write.Delete.{
  remove_rows, gone, erasures, Packables, remove_row-missing, rows-delete_event_basic,
}

module _ ⦃lmdb : Lmdb⦄ (env : Env) where
  abbrev pub Deleted : List ℕ → env.Db → NegentropyUpdates → Type 0
  Deleted ls db updates =
      (n : ℕ) × (db' : env.Db) × (delete_events env ls (db, updates)
        ≡ ok (n, (db', updates ++ erasures (gone ls (env.rows db)))))
      × (n ≤ length (gone ls (env.rows db)))
      × (env.rows db' ≡ remove_rows ls (env.rows db))

  -- On a table of packable events deleteEvents never fails: every listed row goes, each once, the
  -- negentropy trees are told of each row that was there, and the count is at most their number.
  pub delete_events-Deleted :
      (ls : List ℕ) (db : env.Db) (updates : NegentropyUpdates)
      → Packables (env.rows db)
      → Deleted ls db updates
  unfolding delete_events gone remove_rows
  delete_events-Deleted [] db updates h = (0, db, rw (append-nil updates), omega arith, refl)
  delete_events-Deleted (l ∷ ls) db updates h = elim (Option-cases (find_row l (env.rows db))) [
    | inl missing ↦
        let (n, db', e, few, r) = delete_events-Deleted ls db updates h in
        (
          n,
          db',
          rw (env.lookup_event-none db l missing, delete_events, missing, gone) e,
          rw (missing, gone) few,
          r ∙ ap (remove_rows ls) (sym (remove_row-missing l (env.rows db) missing)),
        )
    | inr (d, found) ↦
        let p = All-find_row (λ (r : Row). IsPackable r.1) l (env.rows db) d h found in
        let eq = rows-delete_event_basic env db l in
        let packables : Packables (env.rows (delete_event_basic env db l).1) =
          rw eq (All-remove_row (λ (r : Row). IsPackable r.1) l (env.rows db) h) in
        let (n, db', e, few, r) =
          delete_events-Deleted ls (delete_event_basic env db l).1
            (updates ++ (view_of d, false) ∷ []) packables in
        (
          if (delete_event_basic env db l).0 then n + 1 else n,
          db',
          rw (env.lookup_event-some db l d found, delete_events, found, gone)
              (rw (view-accepts d p, e)
                (ap
                  (λ (us : NegentropyUpdates).
                    ok (if (delete_event_basic env db l).0 then n + 1 else n, (db', us)))
                  (append_assoc updates ((view_of d, false) ∷ []) _
                    ∙ ap (λ rs. updates ++ (view_of d, false) ∷ erasures (gone ls rs)) eq))),
          rw (found, gone)
              (let few' : n ≤ length (gone ls (remove_row l (env.rows db))) =
                  subst (λ (rs : List Row). n ≤ length (gone ls rs)) eq few in
                if-cases (λ (m : ℕ). m ≤ suc (length (gone ls (remove_row l (env.rows db))))) _
                  (n + 1) n (λ _. omega arith) (λ _. omega arith)),
          r ∙ ap (remove_rows ls) eq,
        )
  ]
