-- ===== src/Store/Write/Targets.antt =====
-- collectDeletionTargets of src/events_write.cpp: exactly the author's own events are marked.
use strfry.Prelude.{
  ℕ, ◌<◌, ◌≡◌, refl, sym, ap, subst, ◌∙◌, inl, inr, Bool, true, false, ◌&&◌, ◌||◌, some, List, [],
  ◌∷◌, ◌++◌, arith, ◌==◌, Bool-cases, length, All, All-map, Result, ok,
}
use strfry.Prelude.Bytes.{Bytes, bytes_eq, bytes_eq_refl, bytes_eq→eq}
use mathlib.Core.List.{append_assoc, append-nil}
use strfry.PackedEvent.{Lmdb}
use strfry.PackedEvent.Lemmas.{Tag, fold_tags, fold_tags-go}
use strfry.PackedEvent.RoundTrip.{
  EventData, IsPackable, view_of, view-accepts, pubkey-packed, foreach_tag-pack,
}
use strfry.Filters.SetUint.Members.{member}
use strfry.Store.{Row, find_row, Env}
use strfry.Store.Lookup.{lookup_event_by_id, lookup_event_by_id-cases}
use strfry.Store.Write.{mark_target, mark_tag, collect_deletion_targets}
use strfry.Store.Write.Rows.{Spaced, Apart, find_row-IsPackable, All-find_row}

-- An e-tag names the id.
unfoldable pub names_id : Bytes → List Tag → Bool
names_id i [] = false
names_id i ((k, v) ∷ ts) = ((k == b'e') && bytes_eq v i) || names_id i ts

-- The values of e-tags have 32 bytes.
abbrev pub HasIdTags : List Tag → Type 0
HasIdTags [] = Unit
HasIdTags ((k, v) ∷ ts) = (k ≡ b'e' → length v ≡ 32) × HasIdTags ts

module _ (rs : List Row) (d : EventData) where
  -- A marked key is the key of a row of the same author, named by an e-tag.
  abbrev pub IsTarget : List Tag → ℕ → Type 0
  IsTarget ts l =
      (e : EventData) × (find_row l rs ≡ some e) × (e.pubkey ≡ d.pubkey) × (names_id e.id ts ≡ true)

  -- A row of the same author that is named by an e-tag is marked.
  abbrev pub IsCovered : List Tag → List ℕ → Row → Type 0
  IsCovered ts ls r = r.1.pubkey ≡ d.pubkey → names_id r.1.id ts ≡ true → member r.0 ls ≡ true

-- In a well-formed store an id has one row.
unique-id :
    (i : Bytes) (l : ℕ) (e : EventData) (rs : List Row)
    → Spaced rs
    → find_row l rs ≡ some e
    → e.id ≡ i
    → All (λ (r : Row). r.1.id ≡ i → (r.0 ≡ l) × (r.1 ≡ e)) rs
unfolding find_row
unique-id i l e [] s f h = tt
unique-id i l e ((k, x) ∷ rs) s f h = elim (Bool-cases (k == l)) [
  | inl eq ↦
      let same : x ≡ e = ground arith in
      (
        (λ _. (ground arith, same)),
        All-map {A = Row} (λ q. (k < q.0) × Apart x q.1) (λ q. q.1.id ≡ i → (q.0 ≡ l) × (q.1 ≡ e))
            (λ q a qi. absurd (
              let eqs : x.id ≡ q.1.id = ap (λ (y : EventData). y.id) same ∙ h ∙ sym qi in
              cc (a.1.other_id, ap (λ b. bytes_eq b q.1.id) eqs, bytes_eq_refl q.1.id)))
            rs s.1,
      )
  | inr ne ↦
      let found : find_row l rs ≡ some e = ground arith in
      (
        (λ xi. absurd (
            let apart = (All-find_row (λ q. (k < q.0) × Apart x q.1) l rs e s.1 found).1 in
            let eqs : x.id ≡ e.id = xi ∙ sym h in
            cc (apart.other_id, ap (λ b. bytes_eq b e.id) eqs, bytes_eq_refl e.id))),
        unique-id i l e rs s.2 found h,
      )
]

All-both :
    (P Q R : Row → Type 0)
    → ((q : Row) → P q → Q q → R q)
    → (rs : List Row) → All P rs
    → All Q rs
    → All R rs
All-both P Q R f [] p q = tt
All-both P Q R f (r ∷ rs) p q = (f r p.0 q.0, All-both P Q R f rs p.1 q.1)

All-all : (P : Row → Type 0) → ((q : Row) → P q) → (rs : List Row) → All P rs
All-all P f [] = tt
All-all P f (r ∷ rs) = (f r, All-all P f rs)

IsTarget-later :
    (rs : List Row) (d : EventData) (t : Tag) (ts : List Tag) (ls : List ℕ)
    → All (IsTarget rs d ts) ls
    → All (IsTarget rs d (t ∷ ts)) ls
unfolding names_id
IsTarget-later rs d (k, v) ts ls =
    All-map {A = ℕ} (IsTarget rs d ts) (IsTarget rs d ((k, v) ∷ ts))
      (λ l (e, found, same, named). (e, found, same, rw named (ground arith))) ls

All-append : (P : ℕ → Type 0) (xs ys : List ℕ) → All P xs → All P ys → All P (xs ++ ys)
All-append P [] ys p q = q
All-append P (x ∷ xs) ys p q = (p.0, All-append P xs ys p.1 q)

member-append : (c : ℕ) (ls ms : List ℕ) → member c (ls ++ ms) ≡ (member c ls || member c ms)
unfolding member
member-append c [] ms = refl
member-append c (x ∷ ls) ms = ground (arith, member-append c ls ms)

-- A tag that is no e-tag changes nothing.
IsCovered-later :
    (rs : List Row) (d : EventData) (k : ℕ) (v : Bytes) (ts : List Tag) (ls : List ℕ)
    → (k == b'e') ≡ false
    → All (IsCovered rs d ts ls) rs
    → All (IsCovered rs d ((k, v) ∷ ts) ls) rs
unfolding names_id
IsCovered-later rs d k v ts ls n =
    All-map {A = Row} (IsCovered rs d ts ls) (IsCovered rs d ((k, v) ∷ ts) ls)
      (λ q c same named.
        c same (subst (λ b. (b && bytes_eq v q.1.id || names_id q.1.id ts) ≡ true) n named))
      rs

module _ ⦃lmdb : Lmdb⦄ (env : Env) (db : env.Db) (d : EventData) (packable : IsPackable d) where
  -- What one e-tag marks.
  abbrev Marks : Bytes → List Tag → List ℕ → Type 0
  Marks v ts ms =
      All (IsTarget (env.rows db) d ((b'e', v) ∷ ts)) ms
      × ((ls : List ℕ)
          → All (IsCovered (env.rows db) d ts ls) (env.rows db)
          → All (IsCovered (env.rows db) d ((b'e', v) ∷ ts) (ms ++ ls)) (env.rows db))

  -- The rows that have the id of the tag are marked already, or are another author's.
  Marks-intro :
      (v : Bytes) (ts : List Tag) (ms : List ℕ)
      → All (IsTarget (env.rows db) d ((b'e', v) ∷ ts)) ms
      → All (λ (q : Row). q.1.id ≡ v → q.1.pubkey ≡ d.pubkey → member q.0 ms ≡ true) (env.rows db)
      → Marks v ts ms
  unfolding names_id
  Marks-intro v ts ms targets known = (
    targets,
    λ ls c.
        All-both (λ (q : Row). q.1.id ≡ v → q.1.pubkey ≡ d.pubkey → member q.0 ms ≡ true)
          (IsCovered (env.rows db) d ts ls) (IsCovered (env.rows db) d ((b'e', v) ∷ ts) (ms ++ ls))
          (λ q k old same named. elim (Bool-cases (bytes_eq v q.1.id)) [
            | inl eq ↦ rw (member-append q.0 ms ls, k (sym (bytes_eq→eq v q.1.id eq)) same) refl
            | inr ne ↦
                let rest : names_id q.1.id ts ≡ true = ground arith in
                let m = old same rest in rw (member-append q.0 ms ls, m) (ground arith)
          ])
          (env.rows db) known c,
  )

  mark_target-one :
      Spaced (env.rows db)
      → (v : Bytes) (ts : List Tag) (acc : List ℕ) → length v ≡ 32
      → (ms : List ℕ) × (mark_target env (view_of d) acc (lookup_event_by_id env db v)
          ≡ ok (acc ++ ms))
        × Marks v ts ms
  unfolding mark_target names_id member
  mark_target-one spaced v ts acc size = elim (lookup_event_by_id-cases env db v size) [
    | inr (missing, absent) ↦ (
      [],
      rw (missing, append-nil acc),
      Marks-intro v ts [] tt (
          All-map {A = Row} (λ q. bytes_eq q.1.id v ≡ false)
            (λ q. q.1.id ≡ v → q.1.pubkey ≡ d.pubkey → member q.0 [] ≡ true)
            (λ q n i _. absurd (cc (n, ap (λ b. bytes_eq b v) i, bytes_eq_refl v))) (env.rows db)
            absent),
    )
    | inl (l, e, lookup, found, same) ↦
        let p = find_row-IsPackable l (env.rows db) e spaced found in
        let unique = unique-id v l e (env.rows db) spaced found same in
        elim (Bool-cases (bytes_eq e.pubkey d.pubkey)) [
          | inl eq ↦ (
            l ∷ [],
            rw (lookup, view-accepts e p, pubkey-packed e p, pubkey-packed d packable, eq),
            Marks-intro v ts (l ∷ [])
                ((e, found, bytes_eq→eq e.pubkey d.pubkey eq, rw (same, bytes_eq_refl v) refl), tt)
                (All-map {A = Row} (λ q. q.1.id ≡ v → (q.0 ≡ l) × (q.1 ≡ e))
                  (λ q. q.1.id ≡ v → q.1.pubkey ≡ d.pubkey → member q.0 (l ∷ []) ≡ true)
                  (λ q u i _. let k = (u i).0 in ground arith) (env.rows db) unique),
          )
          | inr ne ↦ (
            [],
            rw (
              lookup,
              view-accepts e p,
              pubkey-packed e p,
              pubkey-packed d packable,
              ne,
              append-nil acc,
            ),
            Marks-intro v ts [] tt (
                All-map {A = Row} (λ q. q.1.id ≡ v → (q.0 ≡ l) × (q.1 ≡ e))
                  (λ q. q.1.id ≡ v → q.1.pubkey ≡ d.pubkey → member q.0 [] ≡ true)
                  (λ q u i own. absurd (
                    cc (
                      ne,
                      ap (λ (y : EventData). bytes_eq y.pubkey d.pubkey) (u i).1,
                      ap (λ b. bytes_eq b d.pubkey) own,
                      bytes_eq_refl d.pubkey,
                    )))
                  (env.rows db) unique),
          )
        ]
  ]

  mark_tag-other :
      (k : ℕ) (v : Bytes) (acc : Result (List ℕ))
      → (k == b'e') ≡ false
      → mark_tag env db (view_of d) k v acc ≡ (acc, true)
  unfolding mark_tag
  mark_tag-other k v acc n = rw n

  mark_tag-e :
      (k : ℕ) (v : Bytes) (acc acc' : List ℕ)
      → (k == b'e') ≡ true
      → mark_target env (view_of d) acc (lookup_event_by_id env db v) ≡ ok acc'
      → mark_tag env db (view_of d) k v (ok acc) ≡ (ok acc', true)
  unfolding mark_tag
  mark_tag-e k v acc acc' y e = rw (y, e)

  mark_tags-lem :
      Spaced (env.rows db)
      → (ts : List Tag) (acc : List ℕ) → HasIdTags ts
      → (ls : List ℕ) × (fold_tags (mark_tag env db (view_of d)) ts (ok acc) ≡ ok (acc ++ ls))
        × All (IsTarget (env.rows db) d ts) ls
        × All (IsCovered (env.rows db) d ts ls) (env.rows db)
  unfolding fold_tags names_id
  mark_tags-lem spaced [] acc h = (
    [],
    rw (append-nil acc),
    tt,
    All-all (IsCovered (env.rows db) d [] []) (λ q _ n. absurd (ground arith)) (env.rows db),
  )
  mark_tags-lem spaced ((k, v) ∷ ts) acc h = elim (Bool-cases (k == b'e')) [
    | inr ne ↦
        let (ls, e, targets, covered) = mark_tags-lem spaced ts acc h.1 in
        (
          ls,
          fold_tags-go (mark_tag env db (view_of d)) k v ts _ _ (mark_tag-other k v (ok acc) ne)
              ∙ e,
          IsTarget-later (env.rows db) d (k, v) ts ls targets,
          IsCovered-later (env.rows db) d k v ts ls ne covered,
        )
    | inl eq ↦
        let name : k ≡ b'e' = ground arith in
        let (ms, one, (marked, covers)) = mark_target-one spaced v ts acc (h.0 name) in
        let (ls, e, targets, covered) = mark_tags-lem spaced ts (acc ++ ms) h.1 in
        (
          ms ++ ls,
          fold_tags-go (mark_tag env db (view_of d)) k v ts _ _
                (mark_tag-e k v acc (acc ++ ms) eq one)
              ∙ (e ∙ ap ok (append_assoc acc ms ls)),
          subst (λ (j : ℕ). All (IsTarget (env.rows db) d ((j, v) ∷ ts)) (ms ++ ls)) (sym name)
              (All-append (IsTarget (env.rows db) d ((b'e', v) ∷ ts)) ms ls marked
                (IsTarget-later (env.rows db) d (b'e', v) ts ls targets)),
          subst (λ (j : ℕ). All (IsCovered (env.rows db) d ((j, v) ∷ ts) (ms ++ ls)) (env.rows db))
              (sym name) (covers ls covered),
        )
  ]

  -- A deletion event marks rows of its own author that its e-tags name, and every such row; it
  -- never fails.
  pub collect_deletion_targets-IsTarget :
      Spaced (env.rows db)
      → HasIdTags d.tags
      → (acc : List ℕ)
      → (ls : List ℕ) × (collect_deletion_targets env db (view_of d) acc ≡ ok (acc ++ ls))
        × All (IsTarget (env.rows db) d d.tags) ls
        × All (IsCovered (env.rows db) d d.tags ls) (env.rows db)
  unfolding collect_deletion_targets
  collect_deletion_targets-IsTarget spaced h acc =
      let (ls, e, targets, covered) = mark_tags-lem spaced d.tags acc h in
      (
        ls,
        rw (foreach_tag-pack d packable (mark_tag env db (view_of d)) (ok acc)) e,
        targets,
        covered,
      )
