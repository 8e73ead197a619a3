-- ===== src/Store.antt =====
-- The event store of src/events.h, src/events_db.cpp and src/events_write.cpp.
-- The tables and indices are code that golpe generates from golpe.yaml over LMDB: a parameter.
-- Their laws are stated over `rows`, the Event table in the order of its keys.
pub mod Lookup
pub mod Write
use strfry.Prelude.{
  ℕ, suc, ◌<◌, ◌≡◌, ◌⊎◌, Bool, true, false, ◌&&◌, ◌||◌, Option, none, some, List, [], ◌∷◌, ◌++◌,
  ◌==◌, if◌then◌else◌, u64_mod, max_u64, length, any, All,
}
use strfry.Prelude.Bytes.{Bytes, bytes_eq}
use strfry.PackedEvent.{Lmdb}
use strfry.PackedEvent.Lemmas.{Tag}
use strfry.PackedEvent.RoundTrip.{EventData, IsPackable, packed}

abbrev pub Row : Type 0
Row = ℕ × EventData

-- The row of a levId.
unfoldable pub find_row : ℕ → List Row → Option EventData
find_row l [] = none
find_row l ((k, d) ∷ rs) = if k == l then some d else find_row l rs

unfoldable pub remove_row : ℕ → List Row → List Row
remove_row l [] = []
remove_row l ((k, d) ∷ rs) = let rest = remove_row l rs in if k == l then rest else (k, d) ∷ rest

-- The largest key, or 0.
unfoldable pub last_id : List Row → ℕ
last_id [] = 0
last_id ((k, d) ∷ []) = k
last_id ((k, d) ∷ r ∷ rs) = last_id (r ∷ rs)

-- The first tag of a name.
unfoldable pub first_tag : ℕ → List Tag → Option Bytes
first_tag name [] = none
first_tag name ((k, v) ∷ ts) = if k == name then some v else first_tag name ts

abbrev author_key : Bytes → Option Bytes → Option Bytes
author_key pubkey none = none
author_key pubkey (some v) = some (pubkey ++ v)

-- The key of an event in the index `replace` of golpe.yaml: its author and its first d-tag.
unfoldable pub replace_key : EventData → Option Bytes
replace_key d = author_key d.pubkey (first_tag b'd' d.tags)

unfoldable pub deletes_key : Bytes → Bytes → List Tag → Bool
deletes_key pubkey key [] = false
deletes_key pubkey key ((k, v) ∷ ts) =
    ((k == b'e') && bytes_eq (v ++ pubkey) key) || deletes_key pubkey key ts

-- Whether a row stands under a key of the index `deletion`: a kind-5 event, by e-tag and author.
unfoldable pub is_deletion_row : Bytes → EventData → Bool
is_deletion_row key d = (d.kind == 5) && deletes_key d.pubkey key d.tags

unfoldable pub starts_with : Bytes → Bytes → Bool
starts_with [] k = true
starts_with (c ∷ p) [] = false
starts_with (c ∷ p) (d ∷ k) = (c == d) && starts_with p k

-- The indices whose first entry from a position on the program looks up.
pub data Index : Type 0 where
  by_id by_replace : Index

pub record Env ⦃lmdb : Lmdb⦄ : Type 1 where
  pub Db : Type 0
  pub rows : Db → List Row
  -- golpe's keys of a text and a number, and their parts.
  pub make_key : Bytes → ℕ → Bytes
  pub key_s : Bytes → Bytes
  pub key_n : Bytes → ℕ
  pub key_s-make_key : (s : Bytes) (n : ℕ) → key_s (make_key s n) ≡ s
  pub key_n-make_key : (s : Bytes) (n : ℕ) → n < u64_mod → key_n (make_key s n) ≡ n
  -- The Event table.
  pub lookup_event : Db → ℕ → Option Bytes
  pub insert_event : Db → Bytes → ℕ × Db
  pub delete_event : Db → ℕ → Db
  pub lookup_event-none : (db : Db) (l : ℕ) → find_row l (rows db) ≡ none → lookup_event db l ≡ none
  pub lookup_event-some :
      (db : Db) (l : ℕ) (d : EventData)
      → find_row l (rows db) ≡ some d
      → lookup_event db l ≡ some (packed d)
  pub insert_event-id : (db : Db) (b : Bytes) → (insert_event db b).0 ≡ suc (last_id (rows db))
  pub rows-insert_event :
      (db : Db) (d : EventData)
      → IsPackable d
      → rows (insert_event db (packed d)).1 ≡ rows db ++ (suc (last_id (rows db)), d) ∷ []
  pub rows-delete_event : (db : Db) (l : ℕ) → rows (delete_event db l) ≡ remove_row l (rows db)
  -- The raw table EventPayload.
  pub get_payload : Db → ℕ → Option Bytes
  pub put_payload : Db → ℕ → Bytes → Db
  pub del_payload : Db → ℕ → Bool × Db
  pub rows-put_payload : (db : Db) (l : ℕ) (b : Bytes) → rows (put_payload db l b) ≡ rows db
  pub rows-del_payload : (db : Db) (l : ℕ) → rows (del_payload db l).1 ≡ rows db
  -- generic_foreachFull over an index from a key and a value, forwards or in reverse: the entry
  -- that it visits first.
  pub first_from : Db → Index → Bytes → ℕ → Bool → Option (Bytes × ℕ)
  pub first_from-by_id :
      (db : Db) (i : Bytes)
      → length i ≡ 32
      → ((k : Bytes) × (l : ℕ) × (d : EventData) × (first_from db by_id (make_key i 0) 0 false
            ≡ some (k, l))
          × (starts_with i k ≡ true)
          × (find_row l (rows db) ≡ some d)
          × (d.id ≡ i))
        ⊎ (All (λ (r : Row). bytes_eq r.1.id i ≡ false) (rows db)
            × ((first_from db by_id (make_key i 0) 0 false ≡ none)
                ⊎ ((k : Bytes) × (l : ℕ) × (first_from db by_id (make_key i 0) 0 false
                      ≡ some (k, l))
                    × (starts_with i k ≡ false))))
  pub first_from-by_replace :
      (db : Db) (s : Bytes) (n : ℕ)
      → n < u64_mod
      → ((l : ℕ) × (d : EventData) × (first_from db by_replace (make_key s n) max_u64 true
            ≡ some (make_key s n, l))
          × (find_row l (rows db) ≡ some d)
          × (replace_key d ≡ some s)
          × (d.kind ≡ n))
        ⊎ (All (λ (r : Row). ¬ ((replace_key r.1 ≡ some s) × (r.1.kind ≡ n))) (rows db)
            × ((first_from db by_replace (make_key s n) max_u64 true ≡ none)
                ⊎ ((s' : Bytes) × (n' : ℕ) × (l : ℕ) × (n' < u64_mod)
                    × (first_from db by_replace (make_key s n) max_u64 true
                        ≡ some (make_key s' n', l))
                    × ((bytes_eq s' s && (n' == n)) ≡ false))))
  -- lookup_Event__deletion finds a row under a key if there is one.
  pub has_deletion : Db → Bytes → Bool
  pub has_deletion-any :
      (db : Db) (key : Bytes)
      → has_deletion db key ≡ any (λ (r : Row). is_deletion_row key r.1) (rows db)
  -- The largest levId, by foreach_Event in reverse.
  pub last_event : Db → Option ℕ
