-- ===== src/Store/Write/Replace.antt =====
-- checkReplaceable of src/events_write.cpp on a well-formed store.
use strfry.Prelude.{
  ℕ, ◌≡◌, refl, sym, ap, ◌∙◌, ◌⊎◌, inl, inr, Bool, true, false, ◌&&◌, ◌||◌, Option, none, some,
  List, [], ◌∷◌, ◌++◌, arith, ltb, ◌==◌, if◌then◌else◌, Bool-cases, Option-cases, All, All-map,
  Result, ok,
}
use strfry.Prelude.Bytes.{Bytes, bytes_lt, bytes_eq_refl}
use strfry.PackedEvent.{Lmdb, foreach_tag}
use strfry.PackedEvent.Lemmas.{Tag, fold_tags}
use strfry.PackedEvent.RoundTrip.{
  EventData, IsPackable, view_of, view-accepts, id-packed, pubkey-packed, created_at-packed,
  kind-packed, foreach_tag-pack,
}
use strfry.Store.{Row, find_row, first_tag, replace_key, Env}
use strfry.Store.Lookup.{lookup_event_by_lev_id}
use strfry.Store.Write.{
  EventWriteStatus, replaced, find_d_tag, supersedes, replace_entry, check_replace_key,
  check_replaceable,
}
use strfry.Store.Write.Rows.{
  in_class, conflict, Spaced, find_row-IsPackable, conflict→keys, keys→conflict,
}

-- The version order of NIP-01: later, or as late with the smaller id.
unfoldable pub newer : EventData → EventData → Bool
newer d e = ltb e.created_at d.created_at || ((e.created_at == d.created_at) && bytes_lt d.id e.id)

fold_tags-first_tag : (ts : List Tag) → fold_tags find_d_tag ts none ≡ first_tag b'd' ts
unfolding fold_tags find_d_tag first_tag
fold_tags-first_tag [] = refl
fold_tags-first_tag ((k, v) ∷ ts) = ground (arith, fold_tags-first_tag ts)

module _ ⦃lmdb : Lmdb⦄ (env : Env) where
  open env use {
    Db, rows, make_key, key_s, key_n, key_s-make_key, key_n-make_key, lookup_event-some, first_from,
    first_from-by_replace,
  }

  supersedes-newer :
      (d e : EventData)
      → IsPackable d
      → IsPackable e
      → supersedes env (view_of d) (view_of e) ≡ newer d e
  unfolding supersedes newer
  supersedes-newer d e p q =
      rw (created_at-packed d p, created_at-packed e q, id-packed d p, id-packed e q)

  -- What the check says of an event: nothing stands in its way, or there is one version of it.
  abbrev pub ReplaceCases : Db → EventData → Result (Option EventWriteStatus × List ℕ) → Type 0
  ReplaceCases db d r =
      ((r ≡ ok (none, [])) × All (λ (q : Row). conflict q.1 d ≡ false) (rows db))
      ⊎ ((l : ℕ) × (e : EventData) × (find_row l (rows db) ≡ some e)
          × (conflict d e ≡ true)
          × (r ≡ (if newer d e then ok (none, l ∷ []) else ok (some replaced, []))))

  module _ (db : Db) (spaced : Spaced (rows db)) (d : EventData) (packable : IsPackable d) where
    -- No key, or no class: nothing is in conflict.
    no-key :
        (replace_key d ≡ none) ⊎ (in_class d ≡ false)
        → (rs : List Row) → All (λ (q : Row). conflict q.1 d ≡ false) rs
    no-key h [] = tt
    no-key h ((l, e) ∷ rs) = (none_with e, no-key h rs)
      where
        none_with : (e : EventData) → conflict e d ≡ false
        none_with e = elim (Bool-cases (conflict e d)) [
          | inr f ↦ f
          | inl t ↦
              let (s, es, ds, k, c) = conflict→keys e d t in
              elim h [
                | inl n ↦ ground arith
                | inr f ↦ let c' : in_class d ≡ true = rw (← k) c in ground arith
              ]
        ]

    not-conflict-key :
        (s : Bytes)
        → replace_key d ≡ some s
        → (q : Row) → ¬ ((replace_key q.1 ≡ some s) × (q.1.kind ≡ d.kind))
        → conflict q.1 d ≡ false
    not-conflict-key s key (l, e) n = elim (Bool-cases (conflict e d)) [
      | inr f ↦ f
      | inl t ↦
          let (s', es, ds, k, c) = conflict→keys e d t in
          let same : s' ≡ s = ground arith in absurd (n (rw (← same) es, k))
    ]

    check_replace_key-cases :
        (r : Bytes)
        → first_tag b'd' d.tags ≡ some r
        → in_class d ≡ true
        → ReplaceCases db d (check_replace_key env db (view_of d) [] (some r))
    unfolding check_replace_key
    check_replace_key-cases r tag class =
        let s = d.pubkey ++ r in
        let key : replace_key d ≡ some s = (unfold replace_key in rw tag) in
        rw (pubkey-packed d packable, kind-packed d packable)
          (elim (first_from-by_replace db s d.kind packable.kind_u64) [
            | inr (absent, inl e) ↦ inl (
              rw e (unfold replace_entry in refl),
              All-map {A = Row} (λ q. ¬ ((replace_key q.1 ≡ some s) × (q.1.kind ≡ d.kind)))
                  (λ q. conflict q.1 d ≡ false) (not-conflict-key s key) (rows db) absent,
            )
            | inr (absent, inr (s', n', l, small, e, differs)) ↦ inl (
              rw e (
                  unfold replace_entry in
                  rw (
                    key_s-make_key s' n',
                    key_n-make_key s' n' small,
                    kind-packed d packable,
                    differs,
                  )),
              All-map {A = Row} (λ q. ¬ ((replace_key q.1 ≡ some s) × (q.1.kind ≡ d.kind)))
                  (λ q. conflict q.1 d ≡ false) (not-conflict-key s key) (rows db) absent,
            )
            | inl (l, e, first, found, ekey, ekind) ↦
                let p = find_row-IsPackable l (rows db) e spaced found in
                let same : (d.kind == d.kind) ≡ true = ground arith in
                inr (
                  l,
                  e,
                  found,
                  keys→conflict d e s key ekey (sym ekind) class,
                  rw first (
                      unfold replace_entry lookup_event_by_lev_id in
                      rw
                        (
                          key_s-make_key s d.kind,
                          key_n-make_key s d.kind packable.kind_u64,
                          kind-packed d packable,
                          bytes_eq_refl s,
                          same,
                          lookup_event-some db l e found,
                        )
                        (rw (view-accepts e p, supersedes-newer d e packable p) (ground arith))),
                )
          ])

    d_tag : foreach_tag find_d_tag (view_of d) none ≡ ok (first_tag b'd' d.tags)
    d_tag = foreach_tag-pack d packable find_d_tag none ∙ ap ok (fold_tags-first_tag d.tags)

    -- The check never fails: nothing is in conflict with the event, or one row is, which is marked
    -- if the event is newer, and otherwise makes the event Replaced.
    pub check_replaceable-cases : ReplaceCases db d (check_replaceable env db (view_of d) d.kind [])
    unfolding check_replaceable
    check_replaceable-cases = elim (Bool-cases (in_class d)) [
      | inr f ↦ inl (rw f (unfold check_replace_key in refl), no-key (inr f) (rows db))
      | inl c ↦ elim (Option-cases (first_tag b'd' d.tags)) [
        | inl n ↦
            let key : replace_key d ≡ none = (unfold replace_key in rw n) in
            inl (rw (c, d_tag, n) (unfold check_replace_key in refl), no-key (inl key) (rows db))
        | inr (r, tag) ↦ rw (c, d_tag, tag) (check_replace_key-cases r tag c)
      ]
    ]
