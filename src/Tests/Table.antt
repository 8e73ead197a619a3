-- ===== src/Tests/Table.antt =====
-- The Event table and its indices as lists: an instance of the store's parameters.
use strfry.Prelude.{
  ℕ, suc, ◌-◌, ◌<◌, ◌≡◌, refl, ◌⊎◌, inl, inr, Bool, true, false, ◌&&◌, Option, none, some, List, [],
  ◌∷◌, ◌++◌, arith, ◌==◌, if◌then◌else◌, Bool-cases, u64_mod, length, take, drop, length-append,
  take-append, drop-append, All,
}
use strfry.Prelude.Bytes.{Bytes, bytes_eq}
use strfry.PackedEvent.RoundTrip.{EventData, packed}
use strfry.Store.{
  Row, find_row, remove_row, last_id, replace_key, starts_with, Index, by_id, by_replace,
}
use strfry.Store.Write.Rows.{same_key, All-remove_row, All-snoc, All-find_row}
use strfry.Tests.World.{little_endian, to_le, from_le, length-to_le, from_le-to_le8}

abbrev pub Rising : List Row → Type 0
Rising [] = Unit
Rising (r ∷ rs) = All (λ (q : Row). r.0 < q.0) rs × Rising rs

pub Rising-remove_row : (l : ℕ) (rs : List Row) → Rising rs → Rising (remove_row l rs)
unfolding remove_row
Rising-remove_row l [] h = tt
Rising-remove_row l ((k, d) ∷ rs) h = elim (Bool-cases (k == l)) [
  | inl y ↦ rw y (Rising-remove_row l rs h.1)
  | inr n ↦ rw n (All-remove_row (λ q. k < q.0) l rs h.0, Rising-remove_row l rs h.1)
]

pub Rising-snoc :
    (rs : List Row) (l : ℕ) (d : EventData)
    → Rising rs
    → All (λ (r : Row). r.0 < l) rs
    → Rising (rs ++ (l, d) ∷ [])
Rising-snoc [] l d s h = (tt, tt)
Rising-snoc (r ∷ rs) l d s h =
    (All-snoc (λ q. r.0 < q.0) rs (l, d) s.0 h.0, Rising-snoc rs l d s.1 h.1)

pub keys-lt : (rs : List Row) → Rising rs → All (λ (r : Row). r.0 < suc (last_id rs)) rs
unfolding last_id
keys-lt [] s = tt
keys-lt (r ∷ []) s = (omega arith, tt)
keys-lt (r ∷ q ∷ rs) s = let rest = keys-lt (q ∷ rs) s.1 in (omega (arith, s.0.0, rest.0), rest)

-- The table's rows, rising keys, and the payloads.
pub record Table : Type 0 where
  pub rows : List Row
  pub rising : Rising rows
  pub payloads : List (ℕ × Bytes)

abbrev pub packed_option : Option EventData → Option Bytes
packed_option none = none
packed_option (some d) = some (packed d)

unfoldable pub find_payload : ℕ → List (ℕ × Bytes) → Option Bytes
find_payload l [] = none
find_payload l ((k, b) ∷ ps) = if k == l then some b else find_payload l ps

unfoldable pub drop_payload : ℕ → List (ℕ × Bytes) → List (ℕ × Bytes)
drop_payload l [] = []
drop_payload l ((k, b) ∷ ps) =
    let rest = drop_payload l ps in if k == l then rest else (k, b) ∷ rest

unfoldable pub seek : (EventData → Bool) → List Row → Option (ℕ × EventData)
seek p [] = none
seek p ((k, d) ∷ rs) = if p d then some (k, d) else seek p rs

pub seek-cases :
    (p : EventData → Bool) (rs : List Row)
    → Rising rs
    → ((l : ℕ) × (d : EventData) × (seek p rs ≡ some (l, d))
        × (find_row l rs ≡ some d)
        × (p d ≡ true))
      ⊎ ((seek p rs ≡ none) × All (λ (r : Row). p r.1 ≡ false) rs)
unfolding seek find_row
seek-cases p [] s = inr (refl, tt)
seek-cases p ((k, d) ∷ rs) s = elim (Bool-cases (p d)) [
  | inl y ↦ let same : (k == k) ≡ true = ground arith in inl (k, d, rw y, rw same, y)
  | inr n ↦ elim (seek-cases p rs s.1) [
    | inl (l, e, sought, found, hit) ↦
        let above : k < l = All-find_row (λ q. k < q.0) l rs e s.0 found in
        let other : (k == l) ≡ false = ground arith in inl (l, e, rw n sought, rw other found, hit)
    | inr (sought, absent) ↦ inr (rw n sought, (n, absent))
  ]
]

abbrev pub make_key : Bytes → ℕ → Bytes
make_key s n = s ++ to_le 8 n

abbrev pub key_s : Bytes → Bytes
key_s k = take (length k - 8) k

abbrev pub key_n : Bytes → ℕ
key_n k = from_le (drop (length k - 8) k)

key_size : (s : Bytes) (n : ℕ) → length (make_key s n) - 8 ≡ length s
key_size s n = omega (arith, length-append {0} s (to_le 8 n), length-to_le 8 n)

pub key_s-make_key : (s : Bytes) (n : ℕ) → key_s (make_key s n) ≡ s
key_s-make_key s n = rw (key_size s n) (take-append s (to_le 8 n))

pub key_n-make_key : (s : Bytes) (n : ℕ) → n < u64_mod → key_n (make_key s n) ≡ n
key_n-make_key s n h = rw (key_size s n, drop-append s (to_le 8 n)) (from_le-to_le8 n h)

abbrev pub has_key : Bytes → ℕ → EventData → Bool
has_key s n d = same_key (replace_key d) (some s) && (d.kind == n)

abbrev pub id_key : Option (ℕ × EventData) → Option (Bytes × ℕ)
id_key none = none
id_key (some (l, d)) = some (make_key d.id d.created_at, l)

abbrev pub sought_key : Bytes → ℕ → Option (ℕ × EventData) → Option (Bytes × ℕ)
sought_key s n none = none
sought_key s n (some (l, d)) = some (make_key s n, l)

abbrev pub first_from : Table → Index → Bytes → ℕ → Bool → Option (Bytes × ℕ)
first_from t by_id key n rev = id_key (seek (λ d. bytes_eq d.id (key_s key)) t.rows)
first_from t by_replace key n rev =
    sought_key (key_s key) (key_n key) (seek (has_key (key_s key) (key_n key)) t.rows)

pub starts_with-append : (s t : Bytes) → starts_with s (s ++ t) ≡ true
unfolding starts_with
starts_with-append [] t = refl
starts_with-append (c ∷ s) t =
    let same : (c == c) ≡ true = ground arith in rw (same, starts_with-append s t)
