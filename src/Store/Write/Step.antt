-- ===== src/Store/Write/Step.antt =====
-- One event of writeEvents of src/events_write.cpp as a step of the Event table.
use strfry.Prelude.{
  ℕ, suc, ◌≤◌, ◌<◌, ◌≡◌, refl, subst, ◌∙◌, ◌⊎◌, inl, inr, Bool, true, false, Option, some, List, [],
  ◌∷◌, ◌++◌, map, arith, ◌==◌, Bool-cases, any, All,
}
use strfry.Prelude.Bytes.{Bytes, bytes_eq}
use strfry.PackedEvent.RoundTrip.{EventData, IsPackable}
use strfry.Filters.SetBytes.{same_as}
use strfry.Filters.SetUint.Members.{member}
use strfry.Store.{Row, find_row, remove_row, last_id, is_deletion_row}
use strfry.Store.Write.{EventWriteStatus, duplicate, deleted, replaced, written}
use strfry.Store.Write.Rows.{
  conflict, Apart, Spaced, Spaced-remove_row, Spaced-snoc, All-remove_row, keys-le-last_id,
}
use strfry.Store.Write.Replace.{newer}
use strfry.Store.Write.Delete.{remove_rows, gone}
use strfry.Store.Write.Targets.{names_id, IsCovered}

-- The event makes the row go: it is a newer version of it, or a deletion by the same author.
abbrev pub Removes : List Row → EventData → ℕ → Type 0
Removes rs d l =
    (e : EventData) × (find_row l rs ≡ some e)
    × (((conflict d e ≡ true) × (newer d e ≡ true))
        ⊎ ((d.kind ≡ 5) × (e.pubkey ≡ d.pubkey) × (names_id e.id d.tags ≡ true)))

-- The status that the event gets, the rows after it, and the events that the trees are told of.
pub data Step (rs : List Row) (prev : Option Bytes) (d : EventData)
    : EventWriteStatus → List Row → List (EventData × Bool) → Type 0 where
  is_duplicate :
      ((l : ℕ) × (e : EventData) × (find_row l rs ≡ some e) × (e.id ≡ d.id))
        ⊎ (same_as prev d.id ≡ true)
      → Step rs prev d duplicate rs []
  is_deleted :
      any (λ (r : Row). is_deletion_row (d.id ++ d.pubkey) r.1) rs ≡ true
      → Step rs prev d deleted rs []
  is_replaced :
      (l : ℕ) (e : EventData)
      → find_row l rs ≡ some e
      → conflict d e ≡ true
      → newer d e ≡ false
      → Step rs prev d replaced rs []
  is_written :
      (ls : List ℕ)
      → All (λ (r : Row). bytes_eq r.1.id d.id ≡ false) rs
      → any (λ (r : Row). is_deletion_row (d.id ++ d.pubkey) r.1) rs ≡ false
      → All (Removes rs d) ls
      → (d.kind ≡ 5 → All (IsCovered rs d d.tags ls) rs)
      → All (λ (r : Row). conflict r.1 d ≡ false) (remove_rows ls rs)
      → Step rs prev d written
          (remove_rows ls rs ++ (suc (last_id rs), d) ∷ [])
          ((d, true) ∷ map (λ e. (e, false)) (gone ls rs))

pub All-remove_rows :
    (P : Row → Type 0) (ls : List ℕ) (rs : List Row) → All P rs → All P (remove_rows ls rs)
unfolding remove_rows
All-remove_rows P [] rs h = h
All-remove_rows P (l ∷ ls) rs h = All-remove_rows P ls (remove_row l rs) (All-remove_row P l rs h)

pub Spaced-remove_rows : (ls : List ℕ) (rs : List Row) → Spaced rs → Spaced (remove_rows ls rs)
unfolding remove_rows
Spaced-remove_rows [] rs h = h
Spaced-remove_rows (l ∷ ls) rs h =
    Spaced-remove_rows ls (remove_row l rs) (Spaced-remove_row l rs h)

All-three :
    (P Q S R : Row → Type 0)
    → ((q : Row) → P q → Q q → S q → R q)
    → (rs : List Row) → All P rs
    → All Q rs
    → All S rs
    → All R rs
All-three P Q S R f [] p q s = tt
All-three P Q S R f (r ∷ rs) p q s = (f r p.0 q.0 s.0, All-three P Q S R f rs p.1 q.1 s.1)

-- A step keeps keys rising, ids apart, and at most one version of every replaceable event.
pub Step-Spaced :
    {rs : List Row} {prev : Option Bytes} {d : EventData} {status : EventWriteStatus}
    {rs' : List Row} {changes : List (EventData × Bool)}
    → Step rs prev d status rs' changes
    → Spaced rs
    → IsPackable d
    → Spaced rs'
Step-Spaced (is_duplicate h) s p = s
Step-Spaced (is_deleted h) s p = s
Step-Spaced (is_replaced l e f c n) s p = s
Step-Spaced {rs = rs} {d = d} (is_written ls fresh kept removes covered clear) s p =
    Spaced-snoc (remove_rows ls rs) (suc (last_id rs)) d (Spaced-remove_rows ls rs s) p (
      All-three (λ r. r.0 ≤ last_id rs) (λ r. bytes_eq r.1.id d.id ≡ false)
        (λ r. conflict r.1 d ≡ false) (λ r. (r.0 < suc (last_id rs)) × Apart r.1 d)
        (λ q below other none_in. (omega arith, record { other_id = other; no_conflict = none_in }))
        (remove_rows ls rs) (All-remove_rows (λ r. r.0 ≤ last_id rs) ls rs (keys-le-last_id rs s))
        (All-remove_rows (λ r. bytes_eq r.1.id d.id ≡ false) ls rs fresh) clear)

pub find_row-remove_row :
    (l k : ℕ) (rs : List Row) → (l == k) ≡ false → find_row l (remove_row k rs) ≡ find_row l rs
unfolding find_row remove_row
find_row-remove_row l k [] n = refl
find_row-remove_row l k ((j, x) ∷ rs) n = ground (arith, find_row-remove_row l k rs n)

pub find_row-remove_rows :
    (l : ℕ) (ls : List ℕ) (rs : List Row) (e : EventData)
    → find_row l rs ≡ some e
    → (find_row l (remove_rows ls rs) ≡ some e) ⊎ (member l ls ≡ true)
unfolding remove_rows member
find_row-remove_rows l [] rs e h = inl h
find_row-remove_rows l (k ∷ ls) rs e h = elim (Bool-cases (l == k)) [
  | inl y ↦ inr (ground arith)
  | inr n ↦
      elim (find_row-remove_rows l ls (remove_row k rs) e (find_row-remove_row l k rs n ∙ h)) [
        | inl found ↦ inl found
        | inr m ↦ inr (rw m (ground arith))
      ]
]

find_row-append :
    (l : ℕ) (rs qs : List Row) (e : EventData)
    → find_row l rs ≡ some e
    → find_row l (rs ++ qs) ≡ some e
unfolding find_row
find_row-append l [] qs e h = absurd (ground arith)
find_row-append l ((k, x) ∷ rs) qs e h = ground (arith, find_row-append l rs qs e)

pub All-member : (P : ℕ → Type 0) (l : ℕ) (ls : List ℕ) → All P ls → member l ls ≡ true → P l
unfolding member
All-member P l [] h m = absurd (ground arith)
All-member P l (k ∷ ls) h m = elim (Bool-cases (l == k)) [
  | inl y ↦ let same : k ≡ l = ground arith in subst P same h.0
  | inr n ↦ All-member P l ls h.1 (ground arith)
]

-- A row that was in the table is there after the step, unchanged, unless the event removes it.
pub Step-keeps :
    {rs : List Row} {prev : Option Bytes} {d : EventData} {status : EventWriteStatus}
    {rs' : List Row} {changes : List (EventData × Bool)}
    → Step rs prev d status rs' changes
    → (l : ℕ) (e : EventData) → find_row l rs ≡ some e
    → (find_row l rs' ≡ some e) ⊎ ((status ≡ written) × Removes rs d l)
Step-keeps (is_duplicate h) l e f = inl f
Step-keeps (is_deleted h) l e f = inl f
Step-keeps (is_replaced k x g c n) l e f = inl f
Step-keeps {rs = rs} {d = d} (is_written ls fresh kept removes covered clear) l e f =
    elim (find_row-remove_rows l ls rs e f) [
      | inl found ↦ inl (find_row-append l (remove_rows ls rs) _ e found)
      | inr m ↦ inr (refl, All-member (Removes rs d) l ls removes m)
    ]
