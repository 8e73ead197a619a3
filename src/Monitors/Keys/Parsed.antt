-- ===== src/Monitors/Keys/Parsed.antt =====
-- Every filter that src/filters.h builds from JSON can be indexed by src/ActiveMonitors.h.
use strfry.Prelude.{
  ℕ, ◌≤◌, ◌<◌, ◌≡◌, refl, sym, subst, inl, inr, Bool, true, false, ◌||◌, none, some, List, [], ◌∷◌,
  ◌++◌, map, arith, ltb, ◌==◌, Bool-cases, if-cases, length, All, All-map, json_type, ok, ◌>>=◌,
  or_throw, >>=-eq-ok,
}
use strfry.Prelude.Bytes.{Bytes, codes, bytes_eq, bytes_lt, substr, bytes_lt_irrefl}
use strfry.Prelude.{Ensures, Ensures-bind, Ensures-any, Ensures-if, Ensures-intro, Ensures-inv}
use strfry.Prelude.Distinct.{InList, Distinct}
use strfry.External.{Json, Hex}
use strfry.Filters.SetBytes.{
  Item, FilterSetBytes, filter_set_bytes, item_value, sort, max_indexed_tag_val_size,
}
use strfry.Filters.SetBytes.Order.{
  Strict, dedup, sort-Sorted, dedup-sort-Strict, dedup-All, sort-All,
}
use strfry.Filters.SetBytes.Construct.{ReadsAll, filter_set_bytes-Stands, collect_items_bounds}
use strfry.Filters.SetBytes.Search.{does_match-contains}
use strfry.Filters.SetUint.{FilterSetUint, unique_after, unique, collect_uints, filter_set_uint}
use strfry.Filters.SetUint
use strfry.Filters.SetUint.Members.{
  Sorted, sort-Sorted as uints-Sorted, unique_after-Sorted, unique-Sorted, does_match-member,
}
use strfry.Filters.Filter.{
  NostrFilter, init, has_key, emplace, is_empty_array, add_tag, starts_with_hash, add_field,
  add_fields, finish, nostr_filter,
}
use strfry.Filters.Filter.Matching.{Holds, HoldsUint}
use strfry.Monitors.Keys.{values}
use strfry.Monitors.Keys.Indexable.{IsSetOf, IsIdSet, AreTags, IsKindSet, IsIndexable}

Strict-Distinct : (vs : List Bytes) → Strict vs → Distinct vs
Strict-Distinct [] h = tt
Strict-Distinct (v ∷ vs) h = (absent vs h.0, Strict-Distinct vs h.1)
  where
    absent : (ws : List Bytes) → All (λ y. bytes_lt v y ≡ true) ws → ¬ InList v ws
    absent [] a i = i
    absent (w ∷ ws) a (inl e) =
        let z : bytes_lt w w ≡ true = subst (λ x. bytes_lt x w ≡ true) e a.0 in
        let f = bytes_lt_irrefl w in cc
    absent (w ∷ ws) a (inr i) = absent ws a.1 i

values-ReadsAll :
    (buf : Bytes) (is : List Item) (vs : List Bytes)
    → ReadsAll buf is vs
    → map (λ (i : Item). substr buf i.offset i.size) is ≡ vs
values-ReadsAll buf [] [] h = refl
values-ReadsAll buf (i ∷ is) (v ∷ vs) h =
    let first = h.0.2 in let rest = values-ReadsAll buf is vs h.1 in cc
values-ReadsAll buf [] (v ∷ vs) h = absurd h
values-ReadsAll buf (i ∷ is) [] h = absurd h

above_absent : (p : ℕ) (xs : List ℕ) → All (λ y. p < y) xs → ¬ InList p xs
above_absent p [] h i = i
above_absent p (x ∷ xs) h (inl e) = omega arith
above_absent p (x ∷ xs) h (inr i) = above_absent p xs h.1 i

unique_after-Distinct :
    (p : ℕ) (xs : List ℕ) → All (λ y. p ≤ y) xs → Sorted xs → Distinct (unique_after p xs)
unfolding unique_after
unique_after-Distinct p [] h s = tt
unique_after-Distinct p (x ∷ xs) h s =
    if-cases Distinct (x == p) _ _ (λ e. unique_after-Distinct p xs h.1 s.1)
      (λ e.
        (above_absent x _ (unique_after-Sorted x xs s.0 s.1).0, unique_after-Distinct x xs s.0 s.1))

unique-Distinct : (xs : List ℕ) → Sorted xs → Distinct (unique xs)
unfolding unique
unique-Distinct [] s = tt
unique-Distinct (x ∷ xs) s =
    (above_absent x _ (unique_after-Sorted x xs s.0 s.1).0, unique_after-Distinct x xs s.0 s.1)

All-snoc :
    {A : Type 0} (P : A → Type 0) (xs : List A) (x : A) → All P xs → P x → All P (xs ++ x ∷ [])
All-snoc P [] x h p = (p, tt)
All-snoc P (y ∷ xs) x h p = (h.0, All-snoc P xs x h.1 p)

AreTags-snoc :
    (m : List (ℕ × FilterSetBytes)) (k : ℕ) (s : FilterSetBytes)
    → AreTags m
    → has_key k m ≡ false
    → IsSetOf s
    → AreTags (m ++ (k, s) ∷ [])
AreTags-snoc [] k s h absent new = (new, tt, tt)
AreTags-snoc ((j, t) ∷ m) k s h absent new = (
  h.0,
  All-snoc (λ (x : ℕ × FilterSetBytes). ¬ (x.0 ≡ j)) m (k, s) h.1 (λ e. ground arith),
  AreTags-snoc m k s h.2 (ground arith) new,
)

AreTags-emplace :
    (k : ℕ) (s : FilterSetBytes) (m : List (ℕ × FilterSetBytes))
    → AreTags m
    → IsSetOf s
    → AreTags (emplace k s m)
unfolding emplace
AreTags-emplace k s m h new =
    if-cases AreTags (has_key k m) _ _ (λ e. h) (λ e. AreTags-snoc m k s h e new)

module _ {V : Type 0} (json : Json V) (hex : Hex) where
  filter_set_bytes-IsSetOf :
      (v : V) (b : Bool) (lo hi : ℕ)
      → Ensures
          (λ s. IsSetOf s × All (λ w. (lo ≤ length w) × (length w ≤ hi)) (values s))
          (filter_set_bytes json hex v b lo hi)
  unfolding values
  filter_set_bytes-IsSetOf v b lo hi = Ensures-intro _ _ λ s made.
      (let (elems, arr, got, collected, stands) =
          filter_set_bytes-Stands json hex v b lo hi s made in
        let strict = dedup-sort-Strict (sort arr) (sort-Sorted arr) in
        let vs = dedup none (sort arr) in
        let same : vs ≡ map (item_value s) s.items =
          sym (values-ReadsAll s.buf s.items vs stands) in
        subst (λ ws. (Holds s ws × Distinct ws) × All (λ w. (lo ≤ length w) × (length w ≤ hi)) ws)
          same
          (
            (does_match-contains s vs stands strict, Strict-Distinct vs strict),
            dedup-All _ none (sort arr)
                (sort-All _ arr (collect_items_bounds json hex b lo hi elems arr collected)),
          ))

  filter_set_uint-IsKindSet :
      (v : V)
      → Ensures
          (λ (s : FilterSetUint). HoldsUint s s.items × Distinct s.items)
          (filter_set_uint json v)
  unfolding filter_set_uint
  filter_set_uint-IsKindSet v = Ensures-any _ (or_throw (json.get_array v) json_type) _ (λ elems.
      Ensures-any _ (collect_uints json elems) _ (λ nums.
        let sorted = uints-Sorted nums in
        (
          does_match-member (unique (SetUint.sort nums)) (unique-Sorted (SetUint.sort nums) sorted),
          unique-Distinct (SetUint.sort nums) sorted,
        )))

  abbrev Sized : ℕ → ℕ → FilterSetBytes → Type 0
  Sized lo hi s = IsSetOf s × All (λ w. (lo ≤ length w) × (length w ≤ hi)) (values s)

  abbrev IdSet : FilterSetBytes → Type 0
  IdSet s = IsSetOf s × All (λ w. length w ≡ 32) (values s)

  abbrev KindSet : FilterSetUint → Type 0
  KindSet s = HoldsUint s s.items × Distinct s.items

  IsSetOf-made :
      (v : V) (b : Bool) (lo hi : ℕ) (s : FilterSetBytes)
      → filter_set_bytes json hex v b lo hi ≡ ok s
      → IsSetOf s × All (λ w. (lo ≤ length w) × (length w ≤ hi)) (values s)
  IsSetOf-made v b lo hi s made =
      Ensures-inv (λ t. IsSetOf t × All (λ w. (lo ≤ length w) × (length w ≤ hi)) (values t)) _ s
        (filter_set_bytes-IsSetOf v b lo hi) made

  id_set :
      (v : V)
      → Ensures
          (λ s. IsSetOf s × All (λ w. length w ≡ 32) (values s))
          (filter_set_bytes json hex v true 32 32)
  id_set v = Ensures-intro _ _ λ s made.
      (let q = IsSetOf-made v true 32 32 s made in
        (q.0, All-map _ _ (λ w h. omega arith) (values s) q.1))

  add_tag-IsIndexable :
      (k : Bytes) (v : V) (f : NostrFilter)
      → IsIndexable f
      → Ensures IsIndexable (add_tag json hex k v f)
  unfolding add_tag
  add_tag-IsIndexable [] v f h = tt
  add_tag-IsIndexable (c ∷ []) v f h = tt
  add_tag-IsIndexable (c ∷ tag ∷ []) v f h =
      Ensures-if IsIndexable (tag == b'p' || tag == b'e') _ _
        (Ensures-bind (Sized 32 32) IsIndexable _ _ (filter_set_bytes-IsSetOf v true 32 32)
          (with_tag 32 32))
        (Ensures-bind (Sized 0 max_indexed_tag_val_size) IsIndexable _ _
          (filter_set_bytes-IsSetOf v false 0 max_indexed_tag_val_size)
          (with_tag 0 max_indexed_tag_val_size))
    where
      with_tag :
          (lo hi : ℕ) (s : FilterSetBytes)
          → Sized lo hi s
          → IsIndexable (record f { tags = emplace tag s f.tags })
      with_tag lo hi s q = record {
        ids = h.ids;
        authors = h.authors;
        tags = AreTags-emplace tag s f.tags h.tags q.0;
        kinds = h.kinds;
      }
  add_tag-IsIndexable (c ∷ tag ∷ d ∷ k) v f h = tt

  abbrev Acc : NostrFilter × ℕ → Type 0
  Acc acc = IsIndexable acc.0

  same_sets :
      (f g : NostrFilter)
      → IsIndexable f
      → g.ids ≡ f.ids
      → g.authors ≡ f.authors
      → g.tags ≡ f.tags
      → g.kinds ≡ f.kinds
      → IsIndexable g
  same_sets f g h i a t k = record {
    ids = subst IsIdSet (sym i) h.ids;
    authors = subst IsIdSet (sym a) h.authors;
    tags = subst AreTags (sym t) h.tags;
    kinds = subst IsKindSet (sym k) h.kinds;
  }

  add_field-IsIndexable :
      (k : Bytes) (v : V) (acc : NostrFilter × ℕ)
      → Acc acc
      → Ensures Acc (add_field json hex k v acc)
  unfolding add_field
  add_field-IsIndexable k v (f, major) h =
      Ensures-if Acc (is_empty_array json hex v) _ _ (same_sets f _ h refl refl refl refl) (
        Ensures-if Acc (bytes_eq k (codes "ids")) _ _
          (Ensures-bind IdSet Acc _ _ (id_set v) with_ids)
          (Ensures-if Acc (bytes_eq k (codes "authors")) _ _
            (Ensures-bind IdSet Acc _ _ (id_set v) with_authors)
            (Ensures-if Acc (bytes_eq k (codes "kinds")) _ _
              (Ensures-bind KindSet Acc _ _ (filter_set_uint-IsKindSet v) with_kinds)
              (Ensures-if Acc (starts_with_hash json hex k) _ _
                (Ensures-bind IsIndexable Acc _ _ (add_tag-IsIndexable k v f h) (λ g q. q))
                (Ensures-if Acc (bytes_eq k (codes "since")) _ _
                  (number (λ n. same_sets f _ h refl refl refl refl))
                  (Ensures-if Acc (bytes_eq k (codes "until")) _ _
                    (number (λ n. same_sets f _ h refl refl refl refl))
                    (Ensures-if Acc (bytes_eq k (codes "limit")) _ _
                      (number (λ n. same_sets f _ h refl refl refl refl)) tt)))))))
    where
      with_ids : (s : FilterSetBytes) → IdSet s → IsIndexable (record f { ids = some s })
      with_ids s q = record { ids = q; authors = h.authors; tags = h.tags; kinds = h.kinds }

      with_authors : (s : FilterSetBytes) → IdSet s → IsIndexable (record f { authors = some s })
      with_authors s q = record { ids = h.ids; authors = q; tags = h.tags; kinds = h.kinds }

      with_kinds : (s : FilterSetUint) → KindSet s → IsIndexable (record f { kinds = some s })
      with_kinds s q = record { ids = h.ids; authors = h.authors; tags = h.tags; kinds = q }

      number :
          {g : ℕ → NostrFilter}
          → ((n : ℕ) → IsIndexable (g n))
          → Ensures Acc (do n ← or_throw (json.get_unsigned v) json_type; ok (g n, major))
      number {g = g} q =
          Ensures-any Acc (or_throw (json.get_unsigned v) json_type) (λ n. ok (g n, major)) q

  add_fields-IsIndexable :
      (fields : List (Bytes × V)) (acc : NostrFilter × ℕ)
      → Acc acc
      → Ensures Acc (add_fields json hex fields acc)
  unfolding add_fields
  add_fields-IsIndexable [] acc h = h
  add_fields-IsIndexable ((k, v) ∷ fields) acc h =
      Ensures-bind Acc Acc _ _ (add_field-IsIndexable k v acc h)
        (λ acc'. add_fields-IsIndexable fields acc')

  finish-IsIndexable :
      (limit : ℕ) (acc : NostrFilter × ℕ) (f : NostrFilter)
      → IsIndexable acc.0
      → finish json hex limit acc ≡ ok f
      → IsIndexable f
  unfolding finish
  finish-IsIndexable limit (g, major) f h made = elim (Bool-cases (ltb 3 (length g.tags))) [
    | inl y ↦ absurd (ground arith)
    | inr n ↦ Ensures-inv IsIndexable _ f (rw n (same_sets g _ h refl refl refl refl)) made
  ]

  -- Whatever the constructor of a filter returns can be indexed.
  pub nostr_filter-IsIndexable :
      (v : V) (limit : ℕ) (f : NostrFilter) → nostr_filter json hex v limit ≡ ok f → IsIndexable f
  unfolding nostr_filter
  nostr_filter-IsIndexable v limit f made =
      let (fields, got, rest) = >>=-eq-ok (or_throw (json.get_object v) _) _ made in
      let (acc, run, finished) = >>=-eq-ok (add_fields json hex fields (init, 0)) _ rest in
      finish-IsIndexable limit acc f
        (Ensures-inv Acc _ acc (add_fields-IsIndexable fields (init, 0) start) run) finished
    where
      start : IsIndexable init
      start = record { ids = tt; authors = tt; tags = tt; kinds = tt }
