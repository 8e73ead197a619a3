-- ===== src/Negentropy/Reach.antt =====
-- The updates of src/NegentropyFilterCache.h reach the trees of the matching filters, once each.
use strfry.Prelude.{
  ℕ, zero, suc, ◌+◌, ◌<◌, ◌≡◌, refl, ap, subst, ◌∙◌, inl, inr, Bool, true, false, ◌&&◌, Option,
  none, some, List, [], ◌∷◌, ◌++◌, arith, ◌==◌, if◌then◌else◌, Bool-cases, Option-cases, get_elem?,
  All, Result, ok, err,
}
use strfry.PackedEvent.{Lmdb, id, created_at}
use strfry.PackedEvent.Lemmas.{fold_tags}
use strfry.PackedEvent.RoundTrip.{EventData, IsPackable, view_of, kind-packed, foreach_tag-pack}
use strfry.Filters.SetBytes.{FilterSetBytes}
use strfry.Filters.SetUint.{FilterSetUint}
use strfry.Filters.SetUint
use strfry.Filters.Filter.{NostrFilter, tag_matches, does_match_tags, does_match, fails_uint}
use strfry.Subscriptions.Tracker.Installed.{occurs}
use strfry.Negentropy.{
  FilterInfo, NegentropyFilterCache, TreeUpdate, build_index, find_kind, try_filter, try_filters,
  update_negentropy,
}
use strfry.Negentropy.Updates.{IsFor, try_filters-IsFor}
use strfry.Negentropy.Index.{
  occurs-append, weight, weight_at, tried-build_index, weight_of, weight_at-weight_of,
}

-- Every number once, and the search finds exactly those.
abbrev pub IsKindSet : Option FilterSetUint → Type 0
IsKindSet none = Unit
IsKindSet (some s) = (k : ℕ) → (if SetUint.does_match s k then 1 else 0) ≡ occurs k s.items

-- How many of the updates are for the filter at an index.
unfoldable pub reached : ℕ → List TreeUpdate → ℕ
reached i [] = 0
reached i (u ∷ us) = (if u.idx == i then 1 else 0) + reached i us

reached-append :
    (i : ℕ) (us vs : List TreeUpdate) → reached i (us ++ vs) ≡ reached i us + reached i vs
unfolding reached
reached-append i [] vs = omega arith
reached-append i (u ∷ us) vs = let rest = reached-append i us vs in omega arith

abbrev pub is_true : Result Bool → Bool
is_true (ok b) = b
is_true (err e) = false

module _ ⦃lmdb : Lmdb⦄ (d : EventData) where
  -- Whether the filter at an index matches the event.
  abbrev pub verdict_of : Option FilterInfo → Bool
  verdict_of none = false
  verdict_of (some info) = is_true (does_match info.f (view_of d))

module _ ⦃lmdb : Lmdb⦄ (d : EventData) (packable : IsPackable d) where
  does_match_tags-total :
      (tags : List (ℕ × FilterSetBytes)) → (b : Bool) × (does_match_tags tags (view_of d) ≡ ok b)
  unfolding does_match_tags
  does_match_tags-total [] = (true, refl)
  does_match_tags-total ((tag, filt) ∷ tags) =
      let (b, rest) = does_match_tags-total tags in
      let found = fold_tags (tag_matches tag filt) d.tags false in
      (
        if found then b else false,
        rw (foreach_tag-pack d packable (tag_matches tag filt) false, rest) (ground arith),
      )

  does_match-total :
      (f : NostrFilter) → does_match f (view_of d) ≡ ok (is_true (does_match f (view_of d)))
  unfolding does_match
  does_match-total f = let (b, rest) = does_match_tags-total f.tags in rw rest (ground arith)

  -- A filter whose kinds leave out the event's kind does not match.
  does_match-fails_uint :
      (f : NostrFilter)
      → fails_uint f.kinds d.kind ≡ true
      → is_true (does_match f (view_of d)) ≡ false
  unfolding does_match
  does_match-fails_uint f h = rw (kind-packed d packable, h) (ground arith)

  verdict-weight :
      (info : FilterInfo)
      → IsKindSet info.f.kinds
      → is_true (does_match info.f (view_of d)) ≡ true
      → weight d.kind info.f.kinds ≡ 1
  verdict-weight info h v = elim (Option-cases info.f.kinds) [
    | inl n ↦ rw n refl
    | inr (s, e) ↦
        let set : IsKindSet (some s) = subst IsKindSet e h in
        let once = set d.kind in
        elim (Bool-cases (SetUint.does_match s d.kind)) [
          | inl y ↦ rw e (ground arith)
          | inr n ↦
              let out : fails_uint info.f.kinds d.kind ≡ true = rw (e, n) refl in
              absurd (cc (does_match-fails_uint info.f out, v))
        ]
  ]

  module _ (cache : NegentropyFilterCache) (insert : Bool) where
    abbrev InRange : ℕ → Type 0
    InRange i = (info : FilterInfo) × (get_elem? cache.filters i ≡ some info)

    abbrev verdict : ℕ → Bool
    verdict i = verdict_of d (get_elem? cache.filters i)

    try_filter-reached :
        (j : ℕ)
        → InRange j
        → (us : List TreeUpdate) × (try_filter cache (view_of d) insert j ≡ ok us)
          × ((i : ℕ) → reached i us ≡ (if (j == i) && verdict j then 1 else 0))
    unfolding try_filter reached
    try_filter-reached j (info, got) = elim (Bool-cases (is_true (does_match info.f (view_of d)))) [
      | inl y ↦ (
        record {
          idx = j;
          tree_id = info.tree_id;
          insert = insert;
          created_at = created_at (view_of d);
          id = id (view_of d);
        }
            ∷ [],
        rw (got, does_match-total info.f, y) refl,
        (λ i. rw (got, y) (ground arith)),
      )
      | inr n ↦ ([], rw (got, does_match-total info.f, n) refl, (λ i. rw (got, n) (ground arith)))
    ]

    step :
        (i j : ℕ) (js : List ℕ) (one rest : List TreeUpdate)
        → reached i one ≡ (if (j == i) && verdict j then 1 else 0)
        → reached i rest ≡ (if verdict i then occurs i js else 0)
        → reached i (one ++ rest) ≡ (if verdict i then occurs i (j ∷ js) else 0)
    unfolding occurs
    step i j js one rest here there =
        let sum = reached-append i one rest in
        elim (Bool-cases (j == i)) [
          | inl y ↦
              let same : j ≡ i = ground arith in
              let v : verdict j ≡ verdict i = ap verdict same in
              elim (Bool-cases (verdict i)) [
                | inl w ↦
                    let w' : verdict j ≡ true = v ∙ w in
                    rw (y, w)
                      (let a : reached i one ≡ 1 = here ∙ (rw (y, w') refl) in
                        let b : reached i rest ≡ occurs i js = there ∙ (rw w refl) in omega arith)
                | inr w ↦
                    let w' : verdict j ≡ false = v ∙ w in
                    rw (y, w)
                      (let a : reached i one ≡ 0 = here ∙ (rw (y, w') refl) in
                        let b : reached i rest ≡ 0 = there ∙ (rw w refl) in omega arith)
              ]
          | inr n ↦
              let a : reached i one ≡ 0 = here ∙ (rw n refl) in
              rw n (sum ∙ (rw (a, there) (omega arith)))
        ]

    try_filters-reached :
        (is : List ℕ)
        → All InRange is
        → (us : List TreeUpdate) × (try_filters cache (view_of d) insert is ≡ ok us)
          × ((i : ℕ) → reached i us ≡ (if verdict i then occurs i is else 0))
    unfolding try_filters occurs
    try_filters-reached [] h = ([], refl, (λ i. (unfold reached in ground arith)))
    try_filters-reached (j ∷ js) h =
        let (one, e, here) = try_filter-reached j h.0 in
        let (rest, f, there) = try_filters-reached js h.1 in
        (one ++ rest, rw (e, f) refl, (λ i. step i j js one rest (here i) (there i)))

All-occurs : (P : ℕ → Type 0) (is : List ℕ) → ((i : ℕ) → 0 < occurs i is → P i) → All P is
unfolding occurs
All-occurs P [] h = tt
All-occurs P (j ∷ js) h = (h j (ground arith), All-occurs P js (λ i p. h i (ground arith)))

All-get :
    (P : FilterInfo → Type 0) (infos : List FilterInfo) (i : ℕ) (info : FilterInfo)
    → All P infos
    → get_elem? infos i ≡ some info
    → P info
All-get P [] i info h e = absurd (ground arith)
All-get P (x ∷ infos) zero info h e = let same : x ≡ info = ground arith in subst P same h.0
All-get P (x ∷ infos) (suc i) info h e = All-get P infos i info h.1 e

-- For every kind, the dispatch names the filter at an index once if it has the kind in its set or no set,
-- and not at all otherwise; the sets of kinds came from the constructor.
pub record IsIndexed (cache : NegentropyFilterCache) : Type 0 where
  pub index :
      (i k : ℕ)
      → occurs i (find_kind k cache.kind_to_filter_idx ++ cache.no_kind_filter_idxs)
        ≡ weight_of k (get_elem? cache.filters i)
  pub kind_sets : All (λ (info : FilterInfo). IsKindSet info.f.kinds) cache.filters

-- What build_index makes of filters is such a dispatch.
pub build_index-weight :
    (infos : List FilterInfo) (i k : ℕ)
    → occurs i (find_kind k (build_index 0 infos ([], [])).0 ++ (build_index 0 infos ([], [])).1)
      ≡ weight_of k (get_elem? infos i)
build_index-weight infos i k =
    occurs-append i (find_kind k (build_index 0 infos ([], [])).0) (build_index 0 infos ([], [])).1
    ∙ (unfold occurs find_kind in
        let built = tried-build_index i k 0 infos ([], []) in
        let weighed = weight_at-weight_of i k 0 infos in
        let e : 0 + i ≡ i = omega arith in
        let weighed' : weight_at i k 0 infos ≡ weight_of k (get_elem? infos i) =
          subst (λ (q : ℕ). weight_at q k 0 infos ≡ weight_of k (get_elem? infos i)) e weighed in
        omega arith)

module _ ⦃lmdb : Lmdb⦄ (d : EventData) (packable : IsPackable d) (cache : NegentropyFilterCache)
    (insert : Bool) where
  tried-InRange :
      IsIndexed cache
      → (i : ℕ)
      → 0 < occurs i (find_kind d.kind cache.kind_to_filter_idx ++ cache.no_kind_filter_idxs)
      → (info : FilterInfo) × (get_elem? cache.filters i ≡ some info)
  tried-InRange h i p = elim (Option-cases (get_elem? cache.filters i)) [
    | inr (info, got) ↦ (info, got)
    | inl n ↦
        let w : weight_of d.kind (get_elem? cache.filters i) ≡ 0 = rw n refl in
        let e = h.index i d.kind in absurd (omega arith)
  ]

  verdict-once :
      IsIndexed cache
      → (i : ℕ)
      → (if verdict_of d (get_elem? cache.filters i)
          then weight_of d.kind (get_elem? cache.filters i)
          else 0)
        ≡ (if verdict_of d (get_elem? cache.filters i) then 1 else 0)
  verdict-once h i = elim (Option-cases (get_elem? cache.filters i)) [
    | inl n ↦ rw n refl
    | inr (info, got) ↦ elim (Bool-cases (is_true (does_match info.f (view_of d)))) [
      | inr n ↦ rw (got, n) refl
      | inl y ↦
          let set = All-get (λ x. IsKindSet x.f.kinds) cache.filters i info h.kind_sets got in
          rw (got, y) (verdict-weight d packable info set y)
    ]
  ]

  -- On a cache with a right dispatch, an update on a packed event never fails. For every filter that
  -- matches the event it does exactly one thing, and for no other filter anything: the dispatch by kind
  -- leaves no filter out and tries none twice. All that it does is done to the tree of that filter, with
  -- the event's time and id, and is an insertion or an erasure as was asked for.
  pub update_negentropy-reached :
      IsIndexed cache
      → (us : List TreeUpdate) × (update_negentropy cache (view_of d) insert ≡ ok us)
        × ((i : ℕ) → reached i us ≡ (if verdict_of d (get_elem? cache.filters i) then 1 else 0))
        × All (IsFor d cache insert) us
  unfolding update_negentropy
  update_negentropy-reached h =
      let is = find_kind d.kind cache.kind_to_filter_idx ++ cache.no_kind_filter_idxs in
      let (us, e, counted) = try_filters-reached d packable cache insert is (
        All-occurs (λ i. (info : FilterInfo) × (get_elem? cache.filters i ≡ some info)) is
          (tried-InRange h)) in
      (
        us,
        rw (kind-packed d packable) e,
        λ i.
            counted i
            ∙ ap (λ n. if verdict_of d (get_elem? cache.filters i) then n else 0) (h.index i d.kind)
            ∙ verdict-once h i,
        try_filters-IsFor d packable cache insert is us e,
      )
