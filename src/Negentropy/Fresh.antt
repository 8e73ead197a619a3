-- ===== src/Negentropy/Fresh.antt =====
-- freshenCache of src/NegentropyFilterCache.h builds a correct dispatch index.
use strfry.Prelude.{
  ◌≢◌, ◌⊎◌, sym, ℕ, ◌≤◌, ◌<◌, ◌≡◌, refl, subst, inl, inr, true, false, ◌||◌, some, List, [], ◌∷◌,
  arith, ltb, ◌==◌, if◌then◌else◌, Bool-cases, if-cases, max_u64, length, All, json_type, Result,
  ok, err, throw_if, or_throw, >>=-elim,
}
use strfry.Prelude.Bytes.{Bytes, codes, bytes_eq}
use strfry.External.{Json, Hex}
use strfry.Filters.SetBytes.{filter_set_bytes, max_indexed_tag_val_size}
use strfry.Filters.SetUint.{
  FilterSetUint, filter_set_uint, collect_uints, unique, unique_after, sort,
}
use strfry.Filters.SetUint.Members.{
  member, Sorted, sort-Sorted, unique-Sorted, unique_after-Sorted, does_match-member,
}
use strfry.Filters.Filter.{
  NostrFilter, init, is_empty_array, starts_with_hash, add_tag, add_field, add_fields, finish,
  nostr_filter,
}
use strfry.Subscriptions.Tracker.Installed.{occurs}
use strfry.Negentropy.{FilterInfo, NegentropyFilterCache, read_filters, freshen_cache}
use strfry.Negentropy.Reach.{IsKindSet, IsIndexed, build_index-weight}

abbrev Strict : List ℕ → Type 0
Strict [] = Unit
Strict (x ∷ xs) = All (λ y. x < y) xs × Strict xs

unique_after-Strict :
    (p : ℕ) (xs : List ℕ) → All (λ y. p ≤ y) xs → Sorted xs → Strict (unique_after p xs)
unfolding unique_after
unique_after-Strict p [] h s = tt
unique_after-Strict p (x ∷ xs) h s = elim (Bool-cases (x == p)) [
  | inl e ↦ rw e (unique_after-Strict p xs h.1 s.1)
  | inr e ↦ rw e ((unique_after-Sorted x xs s.0 s.1).0, unique_after-Strict x xs s.0 s.1)
]

unique-Strict : (xs : List ℕ) → Sorted xs → Strict (unique xs)
unfolding unique
unique-Strict [] s = tt
unique-Strict (x ∷ xs) s = ((unique_after-Sorted x xs s.0 s.1).0, unique_after-Strict x xs s.0 s.1)

occurs-above : (k : ℕ) (xs : List ℕ) → All (λ y. k < y) xs → occurs k xs ≡ 0
unfolding occurs
occurs-above k [] h = refl
occurs-above k (x ∷ xs) h = let rest = occurs-above k xs h.1 in let lt : k < x = h.0 in ground arith

occurs-Strict : (k : ℕ) (xs : List ℕ) → Strict xs → (if member k xs then 1 else 0) ≡ occurs k xs
unfolding occurs member
occurs-Strict k [] s = refl
occurs-Strict k (x ∷ xs) s = elim (Bool-cases (x == k)) [
  | inl y ↦
      let same : x ≡ k = ground arith in
      let none_left = occurs-above k xs (subst (λ (q : ℕ). All (λ y. q < y) xs) same s.0) in
      ground arith
  | inr n ↦ let rest = occurs-Strict k xs s.1 in ground arith
]

abbrev Returned : {A : Type 0} → (A → Type 0) → Result A → Type 0
Returned P (ok a) = P a
Returned P (err e) = Unit

same_value : {A : Type 0} (P : A → Type 0) (a b : A) → ok a ≡ ok b → P a → P b
same_value P a b e p = subst (Returned P) e p

abbrev HasKindSet : NostrFilter → Type 0
HasKindSet f = IsKindSet f.kinds

abbrev HasKindSetFirst : NostrFilter × ℕ → Type 0
HasKindSetFirst r = IsKindSet r.0.kinds

module _ {V : Type 0} (json : Json V) (hex : Hex) where
  filter_set_uint-IsKindSet :
      (v : V) (s : FilterSetUint) → filter_set_uint json v ≡ ok s → IsKindSet (some s)
  unfolding filter_set_uint
  filter_set_uint-IsKindSet v s h = >>=-elim (or_throw (json.get_array v) _) _ h λ elems got h1.
      >>=-elim (collect_uints json elems) _ h1 λ nums collected h2.
        let same : record { items = unique (sort nums) } ≡ s = ground arith in
        subst (λ (q : FilterSetUint). IsKindSet (some q)) same
          (λ k.
            rw
              (does_match-member (unique (sort nums)) (unique-Sorted (sort nums) (sort-Sorted nums))
                k)
              (occurs-Strict k (unique (sort nums)) (unique-Strict (sort nums) (sort-Sorted nums))))

  add_tag-HasKindSet :
      (k : Bytes) (v : V) (f g : NostrFilter)
      → HasKindSet f
      → add_tag json hex k v f ≡ ok g
      → HasKindSet g
  unfolding add_tag
  add_tag-HasKindSet [] v f g set e = absurd (ground arith)
  add_tag-HasKindSet (c ∷ []) v f g set e = absurd (ground arith)
  add_tag-HasKindSet (c ∷ tag ∷ []) v f g set made =
      if-cases (λ r. r ≡ ok g → HasKindSet g) (tag == b'p' || tag == b'e') _ _
        (λ _ e.
          >>=-elim (filter_set_bytes json hex v true 32 32) _ e
            λ s got e'. same_value HasKindSet _ g e' set)
        (λ _ e.
          >>=-elim (filter_set_bytes json hex v false 0 max_indexed_tag_val_size) _ e
            λ s got e'. same_value HasKindSet _ g e' set)
        made
  add_tag-HasKindSet (c ∷ tag ∷ b ∷ k) v f g set e = absurd (ground arith)

  add_field-HasKindSet :
      (k : Bytes) (v : V) (acc r : NostrFilter × ℕ)
      → HasKindSetFirst acc
      → add_field json hex k v acc ≡ ok r
      → HasKindSetFirst r
  unfolding add_field
  add_field-HasKindSet k v (f, n) r set =
      let P : Result (NostrFilter × ℕ) → Type 0 = λ m. m ≡ ok r → HasKindSetFirst r in
      if-cases P (is_empty_array json hex v) _ _ (λ _ e. same_value HasKindSetFirst _ r e set)
        λ _.
          if-cases P (bytes_eq k (codes "ids")) _ _
            (λ _ e.
              >>=-elim (filter_set_bytes json hex v true 32 32) _ e
                λ s got e'. same_value HasKindSetFirst _ r e' set)
            λ _.
              if-cases P (bytes_eq k (codes "authors")) _ _
                (λ _ e.
                  >>=-elim (filter_set_bytes json hex v true 32 32) _ e
                    λ s got e'. same_value HasKindSetFirst _ r e' set)
                λ _.
                  if-cases P (bytes_eq k (codes "kinds")) _ _
                    (λ _ e. >>=-elim (filter_set_uint json v) _ e λ s got e'.
                      same_value HasKindSetFirst _ r e' (filter_set_uint-IsKindSet v s got))
                    λ _.
                      if-cases P (starts_with_hash json hex k) _ _
                        (λ _ e. >>=-elim (add_tag json hex k v f) _ e λ g got e'.
                          same_value HasKindSetFirst _ r e' (add_tag-HasKindSet k v f g set got))
                        λ _.
                          if-cases P (bytes_eq k (codes "since")) _ _
                            (λ _ e.
                              >>=-elim (or_throw (json.get_unsigned v) json_type) _ e
                                λ s got e'. same_value HasKindSetFirst _ r e' set)
                            λ _.
                              if-cases P (bytes_eq k (codes "until")) _ _
                                (λ _ e.
                                  >>=-elim (or_throw (json.get_unsigned v) json_type) _ e
                                    λ s got e'. same_value HasKindSetFirst _ r e' set)
                                λ _.
                                  if-cases P (bytes_eq k (codes "limit")) _ _
                                    (λ _ e.
                                      >>=-elim (or_throw (json.get_unsigned v) json_type) _ e
                                        λ s got e'. same_value HasKindSetFirst _ r e' set)
                                    (λ _ e. absurd (ground arith))

  add_fields-HasKindSet :
      (fields : List (Bytes × V)) (acc r : NostrFilter × ℕ)
      → HasKindSetFirst acc
      → add_fields json hex fields acc ≡ ok r
      → HasKindSetFirst r
  unfolding add_fields
  add_fields-HasKindSet [] acc r set e = same_value HasKindSetFirst _ r e set
  add_fields-HasKindSet ((k, v) ∷ fields) acc r set e =
      >>=-elim (add_field json hex k v acc) _ e λ acc' one rest.
        add_fields-HasKindSet fields acc' r (add_field-HasKindSet k v acc acc' set one) rest

  nostr_filter-HasKindSet :
      (v : V) (limit : ℕ) (f : NostrFilter) → nostr_filter json hex v limit ≡ ok f → HasKindSet f
  unfolding nostr_filter finish
  nostr_filter-HasKindSet v limit f e =
      >>=-elim (or_throw (json.get_object v) _) _ e λ fields got e1.
        >>=-elim (add_fields json hex fields (init, 0)) _ e1 λ acc added e2.
          >>=-elim (throw_if (ltb 3 (length acc.0.tags)) _) _ e2 λ u few e3.
            same_value HasKindSet _ f e3 (add_fields-HasKindSet fields (init, 0) acc tt added)

  module _ (from_string : Bytes → Result V) where
    read_filters-HasKindSet :
        (stored : List (ℕ × Bytes)) (infos : List FilterInfo)
        → read_filters json hex from_string stored ≡ ok infos
        → All (λ (info : FilterInfo). HasKindSet info.f) infos
    unfolding read_filters
    read_filters-HasKindSet [] infos e =
        same_value (All (λ (info : FilterInfo). HasKindSet info.f)) [] infos e tt
    read_filters-HasKindSet ((tree_id, text) ∷ stored) infos e =
        >>=-elim (from_string text) _ e λ v parsed e1.
          >>=-elim (nostr_filter json hex v max_u64) _ e1 λ f made e2.
            >>=-elim (read_filters json hex from_string stored) _ e2 λ rest got e3.
              same_value (All (λ (info : FilterInfo). HasKindSet info.f)) _ infos e3
                (nostr_filter-HasKindSet v max_u64 f made, read_filters-HasKindSet stored rest got)

    -- The filters are those of the table, each with its tree.
    abbrev pub AreStored : List (ℕ × Bytes) → List FilterInfo → Type 0
    AreStored [] [] = Unit
    AreStored [] (info ∷ infos) = ⊥
    AreStored (row ∷ stored) [] = ⊥
    AreStored ((tree_id, text) ∷ stored) (info ∷ infos) =
        ((v : V) × (from_string text ≡ ok v)
          × (nostr_filter json hex v max_u64 ≡ ok info.f)
          × (info.tree_id ≡ tree_id))
        × AreStored stored infos

    read_filters-AreStored :
        (stored : List (ℕ × Bytes)) (infos : List FilterInfo)
        → read_filters json hex from_string stored ≡ ok infos
        → AreStored stored infos
    unfolding read_filters
    read_filters-AreStored [] infos e = same_value (AreStored []) [] infos e tt
    read_filters-AreStored ((tree_id, text) ∷ stored) infos e =
        >>=-elim (from_string text) _ e λ v parsed e1.
          >>=-elim (nostr_filter json hex v max_u64) _ e1 λ f made e2.
            >>=-elim (read_filters json hex from_string stored) _ e2 λ rest got e3.
              same_value (AreStored ((tree_id, text) ∷ stored)) _ infos e3
                ((v, parsed, made, refl), read_filters-AreStored stored rest got)

    -- A refresh that succeeds leaves a dispatch that names the right filters for every kind, and the
    -- counter of the table Meta. Where the counter has not moved the cache stays as it is; where it
    -- has, the filters are those that the table of filters holds, in its order.
    pub freshen_cache-IsIndexed :
        (curr : ℕ) (stored : List (ℕ × Bytes)) (cache cache' : NegentropyFilterCache)
        → IsIndexed cache
        → freshen_cache json hex from_string curr stored cache ≡ ok cache'
        → IsIndexed cache'
          × (cache'.modification_counter ≡ curr)
          × (((curr ≡ cache.modification_counter) × (cache' ≡ cache))
              ⊎ ((curr ≢ cache.modification_counter) × AreStored stored cache'.filters))
    unfolding freshen_cache
    freshen_cache-IsIndexed curr stored cache cache' h made =
        elim (Bool-cases (curr == cache.modification_counter)) [
          | inl same ↦
              let eq : curr ≡ cache.modification_counter = ground arith in
              same_value Refreshed cache cache' (rw same at made) (h, sym eq, inl (eq, refl))
          | inr moved ↦
              let apart : curr ≢ cache.modification_counter = λ e. ground arith in
              >>=-elim (read_filters json hex from_string stored) _ (rw moved at made)
                λ infos got e. same_value Refreshed _ cache' e (
                  record {
                    index = build_index-weight infos;
                    kind_sets = read_filters-HasKindSet stored infos got;
                  },
                  refl,
                  inr (apart, read_filters-AreStored stored infos got),
                )
        ]
      where
        Refreshed : NegentropyFilterCache → Type 0
        Refreshed c =
            IsIndexed c
            × (c.modification_counter ≡ curr)
            × (((curr ≡ cache.modification_counter) × (c ≡ cache))
                ⊎ ((curr ≢ cache.modification_counter) × AreStored stored c.filters))
