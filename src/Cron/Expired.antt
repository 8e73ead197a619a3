-- ===== src/Cron/Expired.antt =====
-- What the cron thread of src/apps/relay/RelayCron.cpp deletes.
use strfry.Prelude.{
  ◌+◌, ◌-◌, ◌%◌, u64_mod, ℕ, ◌≤◌, ◌<◌, ◌≡◌, refl, subst, inl, inr, Bool, true, false, ◌&&◌, ◌||◌,
  some, List, [], ◌∷◌, arith, ltb, leb, ◌==◌, if◌then◌else◌, Bool-cases, if-cases, All, ok,
}
use strfry.PackedEvent.{Lmdb}
use strfry.PackedEvent.RoundTrip.{EventData, view-accepts, created_at-packed}
use strfry.Filters.SetUint.Members.{member}
use strfry.Store.{Row, find_row, Env}
use strfry.Store.Write.Rows.{Spaced, find_row-IsPackable}
use strfry.Cron.{ephemeral_cutoff, is_old, collect_expired}

-- An ephemeral event that is old enough, or an event whose expiration has come.
unfoldable pub is_expired : ℕ → ℕ → EventData → Bool
is_expired now cutoff d =
    if d.expiration == 1
    then leb d.created_at cutoff && leb 1 now
    else ltb 1 d.expiration && leb d.expiration now

-- An event of an ephemeral kind that has lived for the lifetime, or one whose expiration has come. With
-- a lifetime beyond the clock, the code's subtraction wraps around.
unfoldable pub is_outdated : ℕ → ℕ → EventData → Bool
is_outdated now lifetime d =
    if d.expiration == 1
    then leb 1 now
      && leb (d.created_at + lifetime) (if leb lifetime now then now else now + u64_mod)
    else leb 2 d.expiration && leb d.expiration now

pub is_expired-cutoff :
    (now lifetime : ℕ) (d : EventData)
    → now < u64_mod
    → lifetime < u64_mod
    → is_expired now (ephemeral_cutoff now lifetime) d ≡ is_outdated now lifetime d
unfolding is_expired is_outdated ephemeral_cutoff
is_expired-cutoff now lifetime d n l = elim (Bool-cases (leb lifetime now)) [
  | inl y ↦
      let c : (now + u64_mod - lifetime) % u64_mod ≡ now - lifetime = ground arith in
      rw (y, c) (ground arith)
  | inr y ↦
      let c : (now + u64_mod - lifetime) % u64_mod ≡ now + u64_mod - lifetime = ground arith in
      rw (y, c) (ground arith)
]

-- The entries of the index stand for rows of the table, by their expiration, which rises.
abbrev pub Entries : List Row → List (ℕ × ℕ) → Type 0
Entries rs [] = Unit
Entries rs ((e, l) ∷ es) =
    ((d : EventData) × (find_row l rs ≡ some d) × (d.expiration ≡ e) × (0 < e))
    × All (λ (x : ℕ × ℕ). e ≤ x.0) es
    × Entries rs es

-- Whether the index has an entry.
unfoldable pub has_entry : ℕ → ℕ → List (ℕ × ℕ) → Bool
has_entry e l [] = false
has_entry e l ((f, k) ∷ es) = ((f == e) && (k == l)) || has_entry e l es

entry-above :
    (e l : ℕ) (es : List (ℕ × ℕ)) (f k : ℕ)
    → All (λ (x : ℕ × ℕ). e ≤ x.0) es
    → has_entry f k ((e, l) ∷ es) ≡ true
    → e ≤ f
unfolding has_entry
entry-above e l [] f k h m = ground arith
entry-above e l ((e', l') ∷ es) f k h m =
    let here : e ≤ e' = h.0 in
    elim (Bool-cases ((e' == f) && (l' == k))) [
      | inl y ↦ ground arith
      | inr n ↦ entry-above e l es f k h.1 (ground arith)
    ]

module _ ⦃lmdb : Lmdb⦄ (env : Env) (db : env.Db) (spaced : Spaced (env.rows db))
    (most_recent now cutoff : ℕ) where
  -- A row that is not the last, and that has expired.
  abbrev pub Expired : ℕ → Type 0
  Expired l =
      (d : EventData) × (find_row l (env.rows db) ≡ some d)
      × ((l == most_recent) ≡ false)
      × (is_expired now cutoff d ≡ true)

  is_old-row :
      (l : ℕ) (d : EventData)
      → find_row l (env.rows db) ≡ some d
      → is_old env db cutoff l ≡ ok (leb d.created_at cutoff)
  unfolding is_old
  is_old-row l d found =
      let p = find_row-IsPackable l (env.rows db) d spaced found in
      rw (env.lookup_event-some db l d found, view-accepts d p, created_at-packed d p)

  extend_sound :
      (l : ℕ) (d : EventData)
      → find_row l (env.rows db) ≡ some d
      → (l == most_recent) ≡ false
      → (ls : List ℕ) → All Expired ls
      → All Expired (if is_expired now cutoff d then l ∷ ls else ls)
  extend_sound l d found other ls sound = elim (Bool-cases (is_expired now cutoff d)) [
    | inl y ↦ rw y ((d, found, other, y), sound)
    | inr n ↦ rw n sound
  ]

  -- `k` stands for an entry in the rest.
  extend_complete :
      (l : ℕ) (d : EventData)
      → find_row l (env.rows db) ≡ some d
      → (ls : List ℕ) (l' : ℕ) (d' : EventData) → find_row l' (env.rows db) ≡ some d'
      → is_expired now cutoff d' ≡ true
      → {k : Bool} → (k ≡ true → member l' ls ≡ true)
      → ((l == l') || k) ≡ true
      → member l' (if is_expired now cutoff d then l ∷ ls else ls) ≡ true
  unfolding member
  extend_complete l d found ls l' d' f x {k = k} tail m = elim (Bool-cases (l == l')) [
    | inl y ↦
        let key : l ≡ l' = ground arith in
        let f' : find_row l (env.rows db) ≡ some d' = rw key f in
        let same : d' ≡ d = ground arith in
        let yes_d : is_expired now cutoff d ≡ true =
          subst (λ (q : EventData). is_expired now cutoff q ≡ true) same x in
        rw yes_d (ground arith)
    | inr n ↦
        let t = tail (ground arith) in
        if-cases (λ (q : List ℕ). member l' q ≡ true) (is_expired now cutoff d) (l ∷ ls) ls
          (λ _. ground arith) (λ _. t)
  ]

  pub collect_expired-Expired :
      (entries : List (ℕ × ℕ))
      → Entries (env.rows db) entries
      → (ls : List ℕ) × (collect_expired env db most_recent now cutoff entries ≡ ok ls)
        × All Expired ls
        × ((l : ℕ) (d : EventData)
            → find_row l (env.rows db) ≡ some d
            → has_entry d.expiration l entries ≡ true
            → (l == most_recent) ≡ false
            → is_expired now cutoff d ≡ true
            → member l ls ≡ true)
  unfolding collect_expired has_entry
  collect_expired-Expired [] h = ([], refl, tt, λ l d f m n e. absurd (ground arith))
  collect_expired-Expired ((e, l) ∷ es) ((d, found, same, positive), rising, h) =
      let (ls, ih, sound, complete) = collect_expired-Expired es h in
      elim (Bool-cases (ltb now e)) [
        | inl late ↦ (
          [],
          rw late refl,
          tt,
          λ l' d' f m n x. absurd (
              let above = entry-above e l es d'.expiration l' rising m in
              let late' : now < d'.expiration = ground arith in
              (unfold is_expired in ground arith)),
        )
        | inr due ↦ elim (Bool-cases (l == most_recent)) [
          | inl last ↦
              (ls, rw (due, last) ih, sound, λ l' d' f m n x. complete l' d' f (ground arith) n x)
          | inr other ↦
              let first : is_expired now cutoff d
                  ≡ (if e == 1 then leb d.created_at cutoff else true) =
                (unfold is_expired in ground arith) in
              let run : collect_expired env db most_recent now cutoff ((e, l) ∷ es)
                  ≡ ok (if is_expired now cutoff d then l ∷ ls else ls) =
                elim (Bool-cases (e == 1)) [
                  | inl one ↦ rw (due, other, one, is_old-row l d found, ih, first) (ground arith)
                  | inr more ↦ rw (due, other, more, ih, first) (ground arith)
                ] in
              (
                if is_expired now cutoff d then l ∷ ls else ls,
                run,
                extend_sound l d found other ls sound,
                λ l' d' f m n x.
                    extend_complete l d found ls l' d' f x (λ k. complete l' d' f k n x)
                      (ground arith),
              )
        ]
      ]
