-- ===== src/Store/Write/Rows.antt =====
-- The rows that a well-formed store of src/events_write.cpp has.
use strfry.Prelude.{
  ℕ, ◌≤◌, ◌<◌, ◌≡◌, sym, subst, ◌∙◌, inl, inr, Bool, true, false, ◌&&◌, ◌||◌, Option, none, some,
  List, [], ◌∷◌, ◌++◌, arith, ◌==◌, Bool-cases, Option-cases, All, All-map,
}
use strfry.Prelude.Bytes.{Bytes, bytes_eq, bytes_eq_refl, bytes_eq→eq}
use strfry.PackedEvent.RoundTrip.{EventData, IsPackable}
use strfry.Events.Kind.{is_replaceable, is_param_replaceable}
use strfry.Store.{Row, find_row, remove_row, last_id, replace_key}

abbrev pub in_class : EventData → Bool
in_class d = is_replaceable d.kind || is_param_replaceable d.kind

abbrev pub same_key : Option Bytes → Option Bytes → Bool
same_key none o = false
same_key (some a) none = false
same_key (some a) (some b) = bytes_eq a b

-- Two events of a replaceable class with one kind, one author and one d-tag.
unfoldable pub conflict : EventData → EventData → Bool
conflict d e = in_class d && ((d.kind == e.kind) && same_key (replace_key d) (replace_key e))

-- Neither the same event nor two versions of one.
pub record Apart (d e : EventData) : Type 0 where
  pub other_id : bytes_eq d.id e.id ≡ false
  pub no_conflict : conflict d e ≡ false

-- Packable events, keys rising, every two rows apart.
abbrev pub Spaced : List Row → Type 0
Spaced [] = Unit
Spaced (r ∷ rs) = IsPackable r.1 × All (λ (q : Row). (r.0 < q.0) × Apart r.1 q.1) rs × Spaced rs

pub All-remove_row : (P : Row → Type 0) (l : ℕ) (rs : List Row) → All P rs → All P (remove_row l rs)
unfolding remove_row
All-remove_row P l [] h = tt
All-remove_row P l ((k, d) ∷ rs) h = elim (Bool-cases (k == l)) [
  | inl e ↦ rw e (All-remove_row P l rs h.1)
  | inr e ↦ rw e (h.0, All-remove_row P l rs h.1)
]

pub Spaced-remove_row : (l : ℕ) (rs : List Row) → Spaced rs → Spaced (remove_row l rs)
unfolding remove_row
Spaced-remove_row l [] h = tt
Spaced-remove_row l ((k, d) ∷ rs) h = elim (Bool-cases (k == l)) [
  | inl e ↦ rw e (Spaced-remove_row l rs h.2)
  | inr e ↦
      rw e (h.0, All-remove_row (λ q. (k < q.0) × Apart d q.1) l rs h.1, Spaced-remove_row l rs h.2)
]

pub All-snoc : (P : Row → Type 0) (rs : List Row) (r : Row) → All P rs → P r → All P (rs ++ r ∷ [])
All-snoc P [] r h p = (p, tt)
All-snoc P (q ∷ rs) r h p = (h.0, All-snoc P rs r h.1 p)

pub Spaced-snoc :
    (rs : List Row) (l : ℕ) (d : EventData)
    → Spaced rs
    → IsPackable d
    → All (λ (r : Row). (r.0 < l) × Apart r.1 d) rs
    → Spaced (rs ++ (l, d) ∷ [])
Spaced-snoc [] l d s p h = (p, tt, tt)
Spaced-snoc (r ∷ rs) l d s p h = (
  s.0,
  All-snoc (λ q. (r.0 < q.0) × Apart r.1 q.1) rs (l, d) s.1 h.0,
  Spaced-snoc rs l d s.2 p h.1,
)

pub find_row-IsPackable :
    (l : ℕ) (rs : List Row) (d : EventData) → Spaced rs → find_row l rs ≡ some d → IsPackable d
unfolding find_row
find_row-IsPackable l [] d s h = cc
find_row-IsPackable l ((k, e) ∷ rs) d s h = elim (Bool-cases (k == l)) [
  | inl eq ↦ let same : e ≡ d = ground arith in subst IsPackable same s.0
  | inr ne ↦ find_row-IsPackable l rs d s.2 (ground arith)
]

pub All-find_row :
    (P : Row → Type 0) (l : ℕ) (rs : List Row) (d : EventData)
    → All P rs
    → find_row l rs ≡ some d
    → P (l, d)
unfolding find_row
All-find_row P l [] d h e = cc
All-find_row P l ((k, x) ∷ rs) d h e = elim (Bool-cases (k == l)) [
  | inl eq ↦
      let same : x ≡ d = ground arith in
      let key : k ≡ l = ground arith in
      subst (λ (y : EventData). P (l, y)) same (subst (λ (j : ℕ). P (j, x)) key h.0)
  | inr ne ↦ All-find_row P l rs d h.1 (ground arith)
]

-- Keys do not pass the last one.
pub keys-le-last_id : (rs : List Row) → Spaced rs → All (λ (r : Row). r.0 ≤ last_id rs) rs
unfolding last_id
keys-le-last_id [] s = tt
keys-le-last_id (r ∷ []) s = (omega arith, tt)
keys-le-last_id (r ∷ q ∷ rs) s =
    let rest = keys-le-last_id (q ∷ rs) s.2 in (omega (arith, s.1.0.0, rest.0), rest)

-- What a conflict is: one key, one kind, of a replaceable class.
pub conflict→keys :
    (d e : EventData)
    → conflict d e ≡ true
    → (s : Bytes) × (replace_key d ≡ some s)
      × (replace_key e ≡ some s)
      × (d.kind ≡ e.kind)
      × (in_class d ≡ true)
unfolding conflict
conflict→keys d e h = elim (Option-cases (replace_key d)) [
  | inl n ↦ absurd (ground arith)
  | inr (a, da) ↦ elim (Option-cases (replace_key e)) [
    | inl n ↦ absurd (ground arith)
    | inr (b, eb) ↦
        let same : a ≡ b = bytes_eq→eq a b (ground arith) in
        (a, da, rw same eb, ground arith, ground arith)
  ]
]

pub keys→conflict :
    (d e : EventData) (s : Bytes)
    → replace_key d ≡ some s
    → replace_key e ≡ some s
    → d.kind ≡ e.kind
    → in_class d ≡ true
    → conflict d e ≡ true
unfolding conflict
keys→conflict d e s hd he k c = rw (hd, he, c, bytes_eq_refl s) (ground arith)

-- Events in conflict with one event are in conflict with each other.
pub conflict-join :
    (x d e : EventData)
    → conflict x d ≡ true
    → conflict d e ≡ true
    → (conflict x e ≡ true) × (conflict e x ≡ true)
conflict-join x d e h k =
    let (s, xs, ds, xd, cx) = conflict→keys x d h in
    let (s', ds', es, de, cd) = conflict→keys d e k in
    let same : s' ≡ s = ground arith in
    let es' : replace_key e ≡ some s = rw (← same) es in
    let ce : in_class e ≡ true = rw (← de) cd in
    (keys→conflict x e s xs es' (xd ∙ de) cx, keys→conflict e x s es' xs (sym (xd ∙ de)) ce)

pub conflict_sym : (d e : EventData) → conflict d e ≡ true → conflict e d ≡ true
conflict_sym d e h =
    let (s, ds, es, k, c) = conflict→keys d e h in keys→conflict e d s es ds (sym k) (rw (← k) c)

not-conflict :
    (x d e : EventData) → conflict d e ≡ true → conflict x e ≡ false → conflict x d ≡ false
not-conflict x d e h n = elim (Bool-cases (conflict x d)) [
  | inr f ↦ f
  | inl t ↦ cc ((conflict-join x d e t h).0)
]

not-conflict' :
    (q d x : EventData) → conflict d x ≡ true → conflict x q ≡ false → conflict q d ≡ false
not-conflict' q d x h n = elim (Bool-cases (conflict q d)) [
  | inr f ↦ f
  | inl t ↦ cc ((conflict-join q d x t h).1)
]

-- A store has at most one version: once it is removed, nothing is in conflict.
pub no-other-conflict :
    (d e : EventData) (l : ℕ) (rs : List Row)
    → Spaced rs
    → find_row l rs ≡ some e
    → conflict d e ≡ true
    → All (λ (r : Row). conflict r.1 d ≡ false) (remove_row l rs)
unfolding remove_row find_row
no-other-conflict d e l [] s f h = tt
no-other-conflict d e l ((k, x) ∷ rs) s f h = elim (Bool-cases (k == l)) [
  | inl eq ↦
      let same : x ≡ e = ground arith in
      rw eq (
        All-remove_row (λ (r : Row). conflict r.1 d ≡ false) l rs
          (All-map {A = Row} (λ q. (k < q.0) × Apart x q.1) (λ q. conflict q.1 d ≡ false)
            (λ q a. not-conflict' q.1 d x (rw same h) a.1.no_conflict) rs s.1))
  | inr ne ↦
      let found : find_row l rs ≡ some e = ground arith in
      rw ne (
        not-conflict x d e h
            (All-find_row (λ q. (k < q.0) × Apart x q.1) l rs e s.1 found).1.no_conflict,
        no-other-conflict d e l rs s.2 found h,
      )
]
