-- ===== src/Store/Write/Trees.antt =====
-- The negentropy trees of src/events_write.cpp follow the Event table.
use strfry.Prelude.{
  ℕ, suc, ◌<◌, ◌≡◌, refl, sym, ap, subst, ◌∙◌, inl, inr, Bool, true, false, Option, none, some,
  List, [], ◌∷◌, ◌++◌, map, arith, ◌==◌, if◌then◌else◌, Bool-cases, Option-cases, All, All-map,
}
use strfry.Prelude.Bytes.{Bytes, bytes_eq, bytes_eq_refl, bytes_eq→eq}
use strfry.PackedEvent.RoundTrip.{EventData, IsPackable}
use strfry.Store.{Row, find_row, remove_row, last_id}
use strfry.Store.Write.{EventWriteStatus}
use strfry.Store.Write.Rows.{Apart, Spaced, All-find_row, Spaced-remove_row, All-remove_row}
use strfry.Store.Write.Delete.{remove_rows, gone, remove_row-missing}
use strfry.Store.Write.Step.{Step, is_duplicate, is_deleted, is_replaced, is_written, Step-Spaced}
use strfry.Store.Write.Batch.{Batch, done, more}

-- The events of the rows.
unfoldable pub events : List Row → List EventData
events [] = []
events ((k, d) ∷ rs) = d ∷ events rs

unfoldable pub remove_id : Bytes → List EventData → List EventData
remove_id i [] = []
remove_id i (d ∷ ds) = let rest = remove_id i ds in if bytes_eq d.id i then rest else d ∷ rest

-- A tree that is told of insertions and erasures, in order.
unfoldable pub replay : List (EventData × Bool) → List EventData → List EventData
replay [] ds = ds
replay ((d, true) ∷ cs) ds = replay cs (ds ++ d ∷ [])
replay ((d, false) ∷ cs) ds = replay cs (remove_id d.id ds)

events-snoc :
    (rs : List Row) (k : ℕ) (d : EventData) → events (rs ++ (k, d) ∷ []) ≡ events rs ++ d ∷ []
unfolding events
events-snoc [] k d = refl
events-snoc ((j, x) ∷ rs) k d = ap (λ ds. x ∷ ds) (events-snoc rs k d)

bytes_differ_sym : (a b : Bytes) → bytes_eq a b ≡ false → bytes_eq b a ≡ false
bytes_differ_sym a b h = elim (Bool-cases (bytes_eq b a)) [
  | inr n ↦ n
  | inl y ↦ absurd (cc (h, ap (λ x. bytes_eq a x) (bytes_eq→eq b a y), bytes_eq_refl a))
]

remove_id-none :
    (i : Bytes) (rs : List Row) (d : EventData)
    → All (λ (r : Row). bytes_eq r.1.id i ≡ false) rs
    → bytes_eq d.id i ≡ false
    → remove_id i (events rs ++ d ∷ []) ≡ events rs ++ d ∷ []
unfolding remove_id events
remove_id-none i [] d h n = rw n
remove_id-none i ((k, x) ∷ rs) d h n = rw (h.0, remove_id-none i rs d h.1 n)

remove_row-none : (k : ℕ) (rs : List Row) → All (λ (r : Row). k < r.0) rs → remove_row k rs ≡ rs
unfolding remove_row
remove_row-none k [] h = refl
remove_row-none k ((j, x) ∷ rs) h =
    let below : k < j = h.0 in
    let n : (j == k) ≡ false = ground arith in rw (n, remove_row-none k rs h.1)

-- On a well-formed table, erasing the id of a row is removing the row.
remove_id-row :
    (l : ℕ) (rs : List Row) (e d : EventData)
    → Spaced rs
    → find_row l rs ≡ some e
    → bytes_eq d.id e.id ≡ false
    → remove_id e.id (events rs ++ d ∷ []) ≡ events (remove_row l rs) ++ d ∷ []
unfolding remove_id events remove_row find_row
remove_id-row l [] e d s f n = absurd (ground arith)
remove_id-row l ((k, x) ∷ rs) e d s f n = elim (Bool-cases (k == l)) [
  | inl y ↦
      let same : x ≡ e = ground arith in
      let key : k ≡ l = ground arith in
      let others : All (λ (r : Row). bytes_eq r.1.id e.id ≡ false) rs =
        All-map {A = Row} (λ q. (k < q.0) × Apart x q.1) (λ q. bytes_eq q.1.id e.id ≡ false)
          (λ q a.
            bytes_differ_sym e.id q.1.id
              (subst (λ (z : EventData). bytes_eq z.id q.1.id ≡ false) same a.1.other_id))
          rs s.1 in
      let above : All (λ (r : Row). l < r.0) rs =
        All-map {A = Row} (λ q. (k < q.0) × Apart x q.1) (λ q. l < q.0)
          (λ q a. let b : k < q.0 = a.0 in omega arith) rs s.1 in
      let hit : bytes_eq x.id e.id ≡ true =
        subst (λ (z : EventData). bytes_eq z.id e.id ≡ true) (sym same) (bytes_eq_refl e.id) in
      rw (y, hit, remove_id-none e.id rs d others n, remove_row-none l rs above)
  | inr m ↦
      let found : find_row l rs ≡ some e = ground arith in
      let apart = (All-find_row (λ q. (k < q.0) × Apart x q.1) l rs e s.1 found).1 in
      rw (m, apart.other_id, remove_id-row l rs e d s.2 found n)
]

gone-missing :
    (l : ℕ) (ls : List ℕ) (rs : List Row) → find_row l rs ≡ none → gone (l ∷ ls) rs ≡ gone ls rs
unfolding gone
gone-missing l ls rs h = rw (h, gone)

gone-found :
    (l : ℕ) (ls : List ℕ) (rs : List Row) (e : EventData)
    → find_row l rs ≡ some e
    → gone (l ∷ ls) rs ≡ e ∷ gone ls (remove_row l rs)
unfolding gone
gone-found l ls rs e h = rw (h, gone)

replay-gone :
    (ls : List ℕ) (rs : List Row) (d : EventData)
    → Spaced rs
    → All (λ (r : Row). bytes_eq r.1.id d.id ≡ false) rs
    → replay (map (λ e. (e, false)) (gone ls rs)) (events rs ++ d ∷ [])
      ≡ events (remove_rows ls rs) ++ d ∷ []
unfolding replay remove_rows
replay-gone [] rs d s fresh = (unfold gone in refl)
replay-gone (l ∷ ls) rs d s fresh = elim (Option-cases (find_row l rs)) [
  | inl missing ↦ rw (gone-missing l ls rs missing) (
      replay-gone ls rs d s fresh
      ∙ ap (λ qs. events (remove_rows ls qs) ++ d ∷ []) (sym (remove_row-missing l rs missing)))
  | inr (e, found) ↦
      let other : bytes_eq e.id d.id ≡ false =
        All-find_row (λ r. bytes_eq r.1.id d.id ≡ false) l rs e fresh found in
      rw (gone-found l ls rs e found) (
        ap (replay (map (λ x. (x, false)) (gone ls (remove_row l rs))))
          (remove_id-row l rs e d s found (bytes_differ_sym e.id d.id other))
        ∙ replay-gone ls (remove_row l rs) d (Spaced-remove_row l rs s)
            (All-remove_row (λ r. bytes_eq r.1.id d.id ≡ false) l rs fresh))
]

-- A tree that held the stored events holds them after the step.
pub replay-Step :
    {rs : List Row} {prev : Option Bytes} {d : EventData} {status : EventWriteStatus}
    {rs' : List Row} {changes : List (EventData × Bool)}
    → Step rs prev d status rs' changes
    → Spaced rs
    → replay changes (events rs) ≡ events rs'
unfolding replay
replay-Step (is_duplicate h) s = refl
replay-Step (is_deleted h) s = refl
replay-Step (is_replaced l e f c n) s = refl
replay-Step {rs = rs} {d = d} (is_written ls fresh kept removes covered clear) s =
    replay-gone ls rs d s fresh ∙ sym (events-snoc (remove_rows ls rs) (suc (last_id rs)) d)

replay-append :
    (cs cs' : List (EventData × Bool)) (ds : List EventData)
    → replay (cs ++ cs') ds ≡ replay cs' (replay cs ds)
unfolding replay
replay-append [] cs' ds = refl
replay-append ((d, true) ∷ cs) cs' ds = replay-append cs cs' (ds ++ d ∷ [])
replay-append ((d, false) ∷ cs) cs' ds = replay-append cs cs' (remove_id d.id ds)

pub replay-Batch :
    {prev : Option Bytes} {rs : List Row} {ds : List EventData} {rs' : List Row}
    {statuses : List EventWriteStatus} {changes : List (EventData × Bool)}
    → Batch prev rs ds rs' statuses changes
    → Spaced rs
    → All (λ (d : EventData). IsPackable d) ds
    → replay changes (events rs) ≡ events rs'
replay-Batch done s p = (unfold replay in refl)
replay-Batch {rs = rs} (more {first = first} {rest = rest} st b) s p =
    replay-append first rest (events rs)
    ∙ (ap (replay rest) (replay-Step st s) ∙ replay-Batch b (Step-Spaced st s p.0) p.1)
