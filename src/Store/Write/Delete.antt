-- ===== src/Store/Write/Delete.antt =====
-- Deletion in src/events_write.cpp and src/events.h: what is marked, and what goes.
use strfry.Prelude.{
  ℕ, ◌≡◌, refl, sym, ap, ◌∙◌, inl, inr, false, none, some, List, [], ◌∷◌, ◌++◌, arith, Option-cases,
  All, ok,
}
use strfry.PackedEvent.{Lmdb}
use strfry.PackedEvent.RoundTrip.{EventData, IsPackable, view_of, view-accepts}
use strfry.Store.{Row, find_row, remove_row, Env}
use strfry.Store.Write.{NegentropyUpdates, delete_event_basic, delete_marked}
use strfry.Store.Write.Rows.{All-remove_row, All-find_row}
use mathlib.Core.List.{append_assoc, append-nil}

unfoldable pub remove_rows : List ℕ → List Row → List Row
remove_rows [] rs = rs
remove_rows (l ∷ ls) rs = remove_rows ls (remove_row l rs)

-- The events that a deletion of keys removes.
unfoldable pub gone : List ℕ → List Row → List EventData
gone [] rs = []
gone (l ∷ ls) rs = elim (find_row l rs) [
  | none ↦ gone ls rs
  | some d ↦ d ∷ gone ls (remove_row l rs)
]

pub remove_row-missing : (l : ℕ) (rs : List Row) → find_row l rs ≡ none → remove_row l rs ≡ rs
unfolding remove_row find_row
remove_row-missing l [] h = refl
remove_row-missing l ((k, d) ∷ rs) h = ground (arith, remove_row-missing l rs)

abbrev pub Packables : List Row → Type 0
Packables rs = All (λ (r : Row). IsPackable r.1) rs

module _ ⦃lmdb : Lmdb⦄ where
  abbrev pub erasures : List EventData → NegentropyUpdates
  erasures [] = []
  erasures (d ∷ ds) = (view_of d, false) ∷ erasures ds

module _ ⦃lmdb : Lmdb⦄ (env : Env) where
  open env use {
    Db, rows, lookup_event, lookup_event-none, lookup_event-some, delete_event, del_payload,
    rows-delete_event, rows-del_payload,
  }

  pub rows-delete_event_basic :
      (db : Db) (l : ℕ) → rows (delete_event_basic env db l).1 ≡ remove_row l (rows db)
  unfolding delete_event_basic
  rows-delete_event_basic db l =
      rows-delete_event (del_payload db l).1 l ∙ ap (remove_row l) (rows-del_payload db l)

  -- The loop that deletes never fails on a well-formed table: every marked row goes, and for each
  -- row that was there the negentropy trees are told once.
  pub delete_marked_lem :
      (ls : List ℕ) (db : Db) (updates : NegentropyUpdates)
      → Packables (rows db)
      → (db' : Db) × (delete_marked env ls (db, updates)
          ≡ ok (db', updates ++ erasures (gone ls (rows db))))
        × (rows db' ≡ remove_rows ls (rows db))
  unfolding delete_marked gone remove_rows
  delete_marked_lem [] db updates h = (db, rw (append-nil updates), refl)
  delete_marked_lem (l ∷ ls) db updates h = elim (Option-cases (find_row l (rows db))) [
    | inl missing ↦
        let (db', e, r) = delete_marked_lem ls db updates h in
        (
          db',
          rw (lookup_event-none db l missing, delete_marked, missing, gone) e,
          r ∙ ap (remove_rows ls) (sym (remove_row-missing l (rows db) missing)),
        )
    | inr (d, found) ↦
        let p = All-find_row (λ (r : Row). IsPackable r.1) l (rows db) d h found in
        let eq = rows-delete_event_basic db l in
        let packables : Packables (rows (delete_event_basic env db l).1) =
          rw eq (All-remove_row (λ (r : Row). IsPackable r.1) l (rows db) h) in
        let (db', e, r) =
          delete_marked_lem ls (delete_event_basic env db l).1 (updates ++ (view_of d, false) ∷ [])
            packables in
        (
          db',
          rw (lookup_event-some db l d found, delete_marked, found, gone)
              (rw (view-accepts d p) (
                e
                ∙ ap (λ (x : NegentropyUpdates). ok (db', x))
                    (append_assoc updates ((view_of d, false) ∷ []) _
                      ∙ ap (λ rs. updates ++ (view_of d, false) ∷ erasures (gone ls rs)) eq))),
          r ∙ ap (remove_rows ls) eq,
        )
  ]
