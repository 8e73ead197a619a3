-- ===== src/Store/Write/Sorted.antt =====
-- The sort of src/events_write.cpp: writeEvents takes every event of its batch, in order.
use strfry.Prelude.{
  ◌<◌, ◌≡◌, refl, sym, subst, ◌∙◌, ◌⊎◌, inl, inr, true, false, none, List, [], ◌∷◌, arith,
  Bool-cases, ltb, ◌==◌, All, All-map,
}
use strfry.Prelude.Bytes.{Bytes, bytes_lt, bytes_lt_total, bytes_lt_trans, bytes_lt_irrefl}
use mathlib.Core.List.{Permᴰ}
use strfry.PackedEvent.{Lmdb, id, created_at}
use strfry.PackedEvent.RoundTrip.{EventData, id-packed, created_at-packed}
use strfry.Store.{Env}
use strfry.Store.Write.{EventToWrite, event_before, insert_event_sorted, sort_events, write_events}
use strfry.Store.Write.Rows.{Spaced}
use strfry.Store.Write.Batch.{Ready, datas, Batched, write_events-Batch}

-- An earlier time, or the same time and an id that is not larger.
abbrev pub Before : EventData → EventData → Type 0
Before d e =
    (d.created_at < e.created_at) ⊎ ((d.created_at ≡ e.created_at) × (bytes_lt e.id d.id ≡ false))

abbrev pub InOrder : List EventData → Type 0
InOrder [] = Unit
InOrder (d ∷ ds) = All (Before d) ds × InOrder ds

not_larger_trans :
    (x y z : Bytes) → bytes_lt y x ≡ false → bytes_lt z y ≡ false → bytes_lt z x ≡ false
not_larger_trans x y z h k = elim (Bool-cases (bytes_lt z x)) [
  | inr n ↦ n
  | inl lt ↦ elim (bytes_lt_total x y) [
    | inl x_y ↦ let z_y = bytes_lt_trans z x y lt x_y in absurd (ground arith)
    | inr (inl same) ↦ absurd (ground (arith, subst (λ w. bytes_lt z w ≡ true) same lt))
    | inr (inr y_x) ↦ absurd (ground arith)
  ]
]

Before-trans : (a b c : EventData) → Before a b → Before b c → Before a c
Before-trans a b c (inl h) (inl k) = inl (omega arith)
Before-trans a b c (inl h) (inr (k, n)) = inl (omega arith)
Before-trans a b c (inr (h, m)) (inl k) = inl (omega arith)
Before-trans a b c (inr (h, m)) (inr (k, n)) = inr (h ∙ k, not_larger_trans a.id b.id c.id m n)

All-Perm : (P : EventData → Type 0) {ds es : List EventData} → Permᴰ ds es → All P es → All P ds
All-Perm P Permᴰ.nil h = tt
All-Perm P (Permᴰ.cons e p) h = (subst P (sym e) h.0, All-Perm P p h.1)
All-Perm P (Permᴰ.swap e f) h = (subst P (sym e) h.1.0, (subst P (sym f) h.0, h.1.1))
All-Perm P (Permᴰ.trans p q) h = All-Perm P p (All-Perm P q h)

same_list : (ds : List EventData) → Permᴰ ds ds
same_list [] = Permᴰ.nil
same_list (d ∷ ds) = Permᴰ.cons refl (same_list ds)

module _ ⦃lmdb : Lmdb⦄ where
  -- What the comparison of the sort says of two events.
  event_before-Before :
      (a b : EventToWrite) (r : Ready a) (q : Ready b)
      → ((event_before a b ≡ true) × Before r.0 q.0) ⊎ ((event_before a b ≡ false) × Before q.0 r.0)
  unfolding event_before
  event_before-Before a b (d, r) (e, q) =
      let id_a : id (record { buf = a.packed_str }) ≡ d.id = rw r.bytes (id-packed d r.packable) in
      let id_b : id (record { buf = b.packed_str }) ≡ e.id = rw q.bytes (id-packed e q.packable) in
      let at_a : created_at (record { buf = a.packed_str }) ≡ d.created_at =
        rw r.bytes (created_at-packed d r.packable) in
      let at_b : created_at (record { buf = b.packed_str }) ≡ e.created_at =
        rw q.bytes (created_at-packed e q.packable) in
      rw (id_a, id_b, at_a, at_b)
        (elim (Bool-cases (d.created_at == e.created_at)) [
          | inr n ↦ elim (Bool-cases (ltb d.created_at e.created_at)) [
            | inl y ↦ inl (rw (n, y) refl, inl (ground arith))
            | inr m ↦ inr (rw (n, m) refl, inl (ground arith))
          ]
          | inl same ↦ elim (Bool-cases (bytes_lt d.id e.id)) [
            | inl y ↦ inl (rw (same, y) refl, inr (ground arith, asym d.id e.id y))
            | inr m ↦ inr (rw (same, m) refl, inr (ground arith, m))
          ]
        ])
    where
      asym : (x y : Bytes) → bytes_lt x y ≡ true → bytes_lt y x ≡ false
      asym x y h = elim (Bool-cases (bytes_lt y x)) [
        | inr n ↦ n
        | inl k ↦
            let loop = bytes_lt_trans x y x h k in
            let no = bytes_lt_irrefl x in absurd (ground arith)
      ]

  -- The events of a list, in order and the same ones as `es`.
  abbrev Sorts : List EventToWrite → List EventData → Type 0
  Sorts evs es = (h : All Ready evs) × Permᴰ (datas evs h) es × InOrder (datas evs h)

  insert_event_sorted-Sorts :
      (ev : EventToWrite) (evs : List EventToWrite) (r : Ready ev) (h : All Ready evs)
      → InOrder (datas evs h)
      → Sorts (insert_event_sorted ev evs) (r.0 ∷ datas evs h)
  unfolding insert_event_sorted
  insert_event_sorted-Sorts ev [] r h s = ((r, tt), Permᴰ.cons refl Permᴰ.nil, (tt, tt))
  insert_event_sorted-Sorts ev (e ∷ evs) r (q, h) s = elim (event_before-Before e ev q r) [
    | inl (y, first) ↦
        let (h', same, order) = insert_event_sorted-Sorts ev evs r h s.1 in
        rw y (
          (q, h'),
          Permᴰ.trans (Permᴰ.cons refl same) (Permᴰ.swap refl refl),
          (All-Perm (Before q.0) same (first, s.0), order),
        )
    | inr (n, first) ↦ rw n (
      (r, (q, h)),
      Permᴰ.cons refl (Permᴰ.cons refl (same_list (datas evs h))),
      ((first, All-map _ _ (λ d. Before-trans r.0 q.0 d first) (datas evs h) s.0), s),
    )
  ]

  sort_events-Sorts :
      (evs : List EventToWrite) (h : All Ready evs) → Sorts (sort_events evs) (datas evs h)
  unfolding sort_events
  sort_events-Sorts [] h = (tt, Permᴰ.nil, tt)
  sort_events-Sorts (ev ∷ evs) (r, h) =
      let (h', same, order) = sort_events-Sorts evs h in
      let (h'', same', order') = insert_event_sorted-Sorts ev (sort_events evs) r h' order in
      (h'', Permᴰ.trans same' (Permᴰ.cons refl same), order')

  -- On a well-formed table and events from the parser writeEvents never fails: it takes the events of the
  -- batch, every one once, in the order of their times, those of one time in the order of their ids,
  -- and each takes a step of the table.
  pub write_events-InOrder :
      (env : Env) (db : env.Db) (evs : List EventToWrite) (h : All Ready evs)
      → Spaced (env.rows db)
      → (ds : List EventData) × Permᴰ ds (datas evs h)
        × InOrder ds
        × Batched env none db [] ds (write_events env db evs)
  write_events-InOrder env db evs h s =
      let (h', same, order) = sort_events-Sorts evs h in
      (datas (sort_events evs) h', same, order, write_events-Batch env db evs h h' s)
