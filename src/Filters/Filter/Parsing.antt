-- ===== src/Filters/Filter/Parsing.antt =====
-- The constructor of NostrFilter in src/filters.h against a reading of the same JSON by lists.
use strfry.Prelude.{
  ℕ, ◌+◌, ◌≡◌, refl, sym, ◌∙◌, inl, inr, Bool, true, false, ◌||◌, none, some, List, [], ◌∷◌, ◌++◌,
  arith, ltb, ◌==◌, if◌then◌else◌, Bool-cases, Option-cases, max_u64, length, herr, json_type,
  Result, ok, err, ◌>>=◌, or_throw, Result-cases, Related, Related-bind, Related-if, Related-same,
  Related-inv,
}
use strfry.Prelude.Bytes.{Bytes, codes, bytes_eq}
use strfry.PackedEvent.{Lmdb}
use strfry.PackedEvent.RoundTrip.{EventData, IsPackable, view_of}
use strfry.External.{Json, Hex}
use strfry.Filters.SetBytes.{
  FilterSetBytes, filter_set_bytes, collect_items, max_indexed_tag_val_size,
}
use strfry.Filters.SetBytes.Construct.{filter_set_bytes-Stands}
use strfry.Filters.SetBytes.Search.{does_match-filter_set_bytes}
use strfry.Filters.SetUint.{FilterSetUint, filter_set_uint, collect_uints}
use strfry.Filters.SetUint.Members.{does_match-filter_set_uint}
use strfry.Filters.Filter.{
  NostrFilter, init, has_key, emplace, is_empty_array, add_tag, starts_with_hash, add_field,
  add_fields, finish, nostr_filter, does_match,
}
use strfry.Filters.Filter.Matching.{
  FilterSpec, Holds, HoldsUint, HoldsTags, Denotes, matches, does_match-matches,
}

abbrev pub init_spec : FilterSpec
init_spec = record {
  ids = none;
  authors = none;
  kinds = none;
  tags = [];
  since = 0;
  until = max_u64;
  never = false;
}

abbrev pub spec_has_key : ℕ → List (ℕ × List Bytes) → Bool
spec_has_key k [] = false
spec_has_key k ((j, l) ∷ m) = j == k || spec_has_key k m

-- The first list that is given for a name counts.
unfoldable pub spec_emplace : ℕ → List Bytes → List (ℕ × List Bytes) → List (ℕ × List Bytes)
spec_emplace k l m = if spec_has_key k m then m else m ++ (k, l) ∷ []

module _ {V : Type 0} (json : Json V) (hex : Hex) where
  -- The alternatives of a field, in the order of the JSON array.
  unfoldable pub read_list : V → Bool → ℕ → ℕ → Result (List Bytes)
  read_list v hex_decode lo hi = do
    elems ← or_throw (json.get_array v) json_type
    collect_items json hex hex_decode lo hi elems

  unfoldable pub read_uints : V → Result (List ℕ)
  read_uints v = do elems ← or_throw (json.get_array v) json_type; collect_uints json elems

  unfoldable pub read_tag : Bytes → V → FilterSpec → Result FilterSpec
  read_tag (hash ∷ tag ∷ []) v sp =
      if tag == b'p' || tag == b'e'
      then (do l ← read_list v true 32 32; ok (record sp { tags = spec_emplace tag l sp.tags }))
      else (do
        l ← read_list v false 0 max_indexed_tag_val_size
        ok (record sp { tags = spec_emplace tag l sp.tags }))
  read_tag k v sp = err (herr "unindexed tag filter")

  -- A field of NIP-01: an empty array matches nothing, the last of equal keys counts.
  unfoldable pub read_field : Bytes → V → FilterSpec → Result FilterSpec
  read_field k v sp =
      if is_empty_array json hex v
      then ok (record sp { never = true })
      else if bytes_eq k (codes "ids")
      then (do l ← read_list v true 32 32; ok (record sp { ids = some l }))
      else if bytes_eq k (codes "authors")
      then (do l ← read_list v true 32 32; ok (record sp { authors = some l }))
      else if bytes_eq k (codes "kinds")
      then (do l ← read_uints v; ok (record sp { kinds = some l }))
      else if starts_with_hash json hex k
      then read_tag k v sp
      else if bytes_eq k (codes "since")
      then (do n ← or_throw (json.get_unsigned v) json_type; ok (record sp { since = n }))
      else if bytes_eq k (codes "until")
      then (do n ← or_throw (json.get_unsigned v) json_type; ok (record sp { until = n }))
      else if bytes_eq k (codes "limit")
      then (do n ← or_throw (json.get_unsigned v) json_type; ok sp)
      else err (herr "unrecognised filter item")

  unfoldable pub read_fields : List (Bytes × V) → FilterSpec → Result FilterSpec
  read_fields [] sp = ok sp
  read_fields ((k, v) ∷ fields) sp = do sp' ← read_field k v sp; read_fields fields sp'

  unfoldable pub read_filter : V → Result FilterSpec
  read_filter v = do
    fields ← or_throw (json.get_object v) (herr "provided filter is not an object")
    sp ← read_fields fields init_spec
    ok sp

  filter_set_bytes-Related :
      (v : V) (b : Bool) (lo hi : ℕ)
      → Related Holds (filter_set_bytes json hex v b lo hi) (read_list v b lo hi)
  unfolding read_list
  filter_set_bytes-Related v b lo hi = elim (Result-cases (filter_set_bytes json hex v b lo hi)) [
    | inr (e, bad) ↦ rw bad tt
    | inl (s, made) ↦
        let (elems, arr, got, collected, stands) =
          filter_set_bytes-Stands json hex v b lo hi s made in
        rw (made, got, collected)
          (does_match-filter_set_bytes json hex v b lo hi s elems arr made got collected)
  ]

  filter_set_uint-Related : (v : V) → Related HoldsUint (filter_set_uint json v) (read_uints v)
  unfolding read_uints
  filter_set_uint-Related v = elim (Result-cases (filter_set_uint json v)) [
    | inr (e, bad) ↦ rw bad tt
    | inl (s, made) ↦ elim (Option-cases (json.get_array v)) [
      | inl missing ↦ absurd (unfold filter_set_uint in ground arith)
      | inr (elems, got) ↦ elim (Result-cases (collect_uints json elems)) [
        | inr (e, bad) ↦ absurd (unfold filter_set_uint in ground arith)
        | inl (nums, collected) ↦
            rw (made, got, collected)
              (does_match-filter_set_uint json v s elems nums made got collected)
      ]
    ]
  ]

-- The state of the loop, and the list reading beside it.
abbrev DenotesAcc : NostrFilter × ℕ → FilterSpec → Type 0
DenotesAcc acc sp = Denotes acc.0 sp

HoldsTags-has_key :
    (k : ℕ) (m : List (ℕ × FilterSetBytes)) (n : List (ℕ × List Bytes))
    → HoldsTags m n
    → has_key k m ≡ spec_has_key k n
HoldsTags-has_key k [] [] h = refl
HoldsTags-has_key k ((i, s) ∷ m) ((j, l) ∷ n) h = rw (h.0, HoldsTags-has_key k m n h.2)
HoldsTags-has_key k [] ((j, l) ∷ n) h = absurd h
HoldsTags-has_key k ((i, s) ∷ m) [] h = absurd h

HoldsTags-snoc :
    (k : ℕ) (s : FilterSetBytes) (l : List Bytes) (m : List (ℕ × FilterSetBytes))
    (n : List (ℕ × List Bytes))
    → Holds s l
    → HoldsTags m n
    → HoldsTags (m ++ (k, s) ∷ []) (n ++ (k, l) ∷ [])
HoldsTags-snoc k s l [] [] hs h = (refl, hs, tt)
HoldsTags-snoc k s l ((i, t) ∷ m) ((j, l') ∷ n) hs h = (h.0, h.1, HoldsTags-snoc k s l m n hs h.2)
HoldsTags-snoc k s l [] ((j, l') ∷ n) hs h = absurd h
HoldsTags-snoc k s l ((i, t) ∷ m) [] hs h = absurd h

HoldsTags-emplace :
    (k : ℕ) (s : FilterSetBytes) (l : List Bytes) (m : List (ℕ × FilterSetBytes))
    (n : List (ℕ × List Bytes))
    → Holds s l
    → HoldsTags m n
    → HoldsTags (emplace k s m) (spec_emplace k l n)
unfolding emplace spec_emplace
HoldsTags-emplace k s l m n hs h = elim (Bool-cases (has_key k m)) [
  | inl e ↦ rw (e, sym (HoldsTags-has_key k m n h) ∙ e) h
  | inr e ↦ rw (e, sym (HoldsTags-has_key k m n h) ∙ e) (HoldsTags-snoc k s l m n hs h)
]

module _ (f : NostrFilter) (sp : FilterSpec) (h : Denotes f sp) where
  Denotes-ids :
      (s : FilterSetBytes) (l : List Bytes)
      → Holds s l
      → Denotes (record f { ids = some s }) (record sp { ids = some l })
  Denotes-ids s l e = record {
    ids = e;
    authors = h.authors;
    kinds = h.kinds;
    tags = h.tags;
    since = h.since;
    until = h.until;
    never = h.never;
  }

  Denotes-authors :
      (s : FilterSetBytes) (l : List Bytes)
      → Holds s l
      → Denotes (record f { authors = some s }) (record sp { authors = some l })
  Denotes-authors s l e = record {
    ids = h.ids;
    authors = e;
    kinds = h.kinds;
    tags = h.tags;
    since = h.since;
    until = h.until;
    never = h.never;
  }

  Denotes-kinds :
      (s : FilterSetUint) (l : List ℕ)
      → HoldsUint s l
      → Denotes (record f { kinds = some s }) (record sp { kinds = some l })
  Denotes-kinds s l e = record {
    ids = h.ids;
    authors = h.authors;
    kinds = e;
    tags = h.tags;
    since = h.since;
    until = h.until;
    never = h.never;
  }

  Denotes-tag :
      (k : ℕ) (s : FilterSetBytes) (l : List Bytes)
      → Holds s l
      → Denotes
          (record f { tags = emplace k s f.tags })
          (record sp { tags = spec_emplace k l sp.tags })
  Denotes-tag k s l e = record {
    ids = h.ids;
    authors = h.authors;
    kinds = h.kinds;
    tags = HoldsTags-emplace k s l f.tags sp.tags e h.tags;
    since = h.since;
    until = h.until;
    never = h.never;
  }

  Denotes-since : (m n : ℕ) → m ≡ n → Denotes (record f { since = m }) (record sp { since = n })
  Denotes-since m n e = record {
    ids = h.ids;
    authors = h.authors;
    kinds = h.kinds;
    tags = h.tags;
    since = e;
    until = h.until;
    never = h.never;
  }

  Denotes-until : (m n : ℕ) → m ≡ n → Denotes (record f { until = m }) (record sp { until = n })
  Denotes-until m n e = record {
    ids = h.ids;
    authors = h.authors;
    kinds = h.kinds;
    tags = h.tags;
    since = h.since;
    until = e;
    never = h.never;
  }

  Denotes-never : Denotes (record f { never_match = true }) (record sp { never = true })
  Denotes-never = record {
    ids = h.ids;
    authors = h.authors;
    kinds = h.kinds;
    tags = h.tags;
    since = h.since;
    until = h.until;
    never = refl;
  }

  -- What the matching does not look at.
  Denotes-limits : (m : ℕ) (b : Bool) → Denotes (record f { limit = m; index_only_scans = b }) sp
  Denotes-limits m b = record {
    ids = h.ids;
    authors = h.authors;
    kinds = h.kinds;
    tags = h.tags;
    since = h.since;
    until = h.until;
    never = h.never;
  }

module _ {V : Type 0} (json : Json V) (hex : Hex) where
  read_tag-Related :
      (k : Bytes) (v : V) (f : NostrFilter) (sp : FilterSpec)
      → Denotes f sp
      → Related Denotes (add_tag json hex k v f) (read_tag json hex k v sp)
  unfolding add_tag read_tag
  read_tag-Related [] v f sp h = tt
  read_tag-Related (c ∷ []) v f sp h = tt
  read_tag-Related (c ∷ tag ∷ []) v f sp h =
      Related-if Denotes (tag == b'p' || tag == b'e') _ _ _ _
        (Related-bind Holds Denotes _ _ _ _ (filter_set_bytes-Related json hex v true 32 32)
          (Denotes-tag f sp h tag))
        (Related-bind Holds Denotes _ _ _ _
          (filter_set_bytes-Related json hex v false 0 max_indexed_tag_val_size)
          (Denotes-tag f sp h tag))
  read_tag-Related (c ∷ tag ∷ d ∷ k) v f sp h = tt

  add_field-Related :
      (k : Bytes) (v : V) (f : NostrFilter) (major : ℕ) (sp : FilterSpec)
      → Denotes f sp
      → Related DenotesAcc (add_field json hex k v (f, major)) (read_field json hex k v sp)
  unfolding add_field read_field
  add_field-Related k v f major sp h =
      Related-if DenotesAcc (is_empty_array json hex v) _ _ _ _ (Denotes-never f sp h) (
        Related-if DenotesAcc (bytes_eq k (codes "ids")) _ _ _ _
          (Related-bind Holds DenotesAcc _ _ _ _ (filter_set_bytes-Related json hex v true 32 32)
            (Denotes-ids f sp h))
          (Related-if DenotesAcc (bytes_eq k (codes "authors")) _ _ _ _
            (Related-bind Holds DenotesAcc _ _ _ _ (filter_set_bytes-Related json hex v true 32 32)
              (Denotes-authors f sp h))
            (Related-if DenotesAcc (bytes_eq k (codes "kinds")) _ _ _ _
              (Related-bind HoldsUint DenotesAcc _ _ _ _ (filter_set_uint-Related json hex v)
                (Denotes-kinds f sp h))
              (Related-if DenotesAcc (starts_with_hash json hex k) _ _ _ _
                (add_major (add_tag json hex k v f) (read_tag json hex k v sp)
                  (read_tag-Related k v f sp h))
                (Related-if DenotesAcc (bytes_eq k (codes "since")) _ _ _ _
                  (Related-bind (λ a b. a ≡ b) DenotesAcc _ _ _ _ number (Denotes-since f sp h))
                  (Related-if DenotesAcc (bytes_eq k (codes "until")) _ _ _ _
                    (Related-bind (λ a b. a ≡ b) DenotesAcc _ _ _ _ number (Denotes-until f sp h))
                    (Related-if DenotesAcc (bytes_eq k (codes "limit")) _ _ _ _
                      (Related-bind (λ a b. a ≡ b) DenotesAcc _ _ _ _ number
                        (λ m n e. Denotes-limits f sp h m f.index_only_scans))
                      tt)))))))
    where
      number :
          Related
            (λ a b. a ≡ b)
            (or_throw (json.get_unsigned v) json_type)
            (or_throw (json.get_unsigned v) json_type)
      number = Related-same (or_throw (json.get_unsigned v) json_type)

      add_major :
          (r : Result NostrFilter) (r' : Result FilterSpec)
          → Related Denotes r r'
          → Related DenotesAcc (do f' ← r; ok (f', major + 1)) r'
      add_major (ok a) (ok b) e = e
      add_major (ok a) (err b) e = e
      add_major (err a) r' e = tt

  add_fields-Related :
      (fields : List (Bytes × V)) (acc : NostrFilter × ℕ) (sp : FilterSpec)
      → Denotes acc.0 sp
      → Related DenotesAcc (add_fields json hex fields acc) (read_fields json hex fields sp)
  unfolding add_fields read_fields
  add_fields-Related [] acc sp h = h
  add_fields-Related ((k, v) ∷ fields) acc sp h =
      Related-bind DenotesAcc DenotesAcc _ _ _ _ (add_field-Related k v acc.0 acc.1 sp h)
        (λ acc' sp'. add_fields-Related fields acc' sp')

  finish-Related :
      (limit : ℕ) (acc : NostrFilter × ℕ) (sp : FilterSpec)
      → Denotes acc.0 sp
      → Related Denotes (finish json hex limit acc) (ok sp)
  unfolding finish
  finish-Related limit (f, major) sp h = elim (Bool-cases (ltb 3 (length f.tags))) [
    | inl e ↦ rw e tt
    | inr e ↦ rw e (Denotes-limits f sp h _ _)
  ]

  pub nostr_filter-Related :
      (v : V) (limit : ℕ) → Related Denotes (nostr_filter json hex v limit) (read_filter json hex v)
  unfolding nostr_filter read_filter
  nostr_filter-Related v limit =
      Related-bind (λ a b. a ≡ b) Denotes _ _ _ _ (Related-same (or_throw (json.get_object v) _))
        (λ fields fields' e.
          Related-bind DenotesAcc Denotes _ _ _ _
            (rw (← e) (add_fields-Related fields (init, 0) init_spec init-Denotes))
            (finish-Related limit))
    where
      init-Denotes : Denotes init init_spec
      init-Denotes = record {
        ids = tt;
        authors = tt;
        kinds = tt;
        tags = tt;
        since = refl;
        until = refl;
        never = refl;
      }

  -- A filter that was constructed from JSON answers on every packed event what the plain reading
  -- of that JSON asks: the reading keeps each list as it stands in the JSON, and an event matches
  -- if it meets every condition, with no empty list among them.
  pub does_match-nostr_filter :
      ⦃lmdb : Lmdb⦄ (v : V) (max_filter_limit : ℕ) (f : NostrFilter) (d : EventData)
      → nostr_filter json hex v max_filter_limit ≡ ok f
      → IsPackable d
      → (sp : FilterSpec) × (read_filter json hex v ≡ ok sp)
        × (does_match f (view_of d) ≡ ok (matches sp d))
  does_match-nostr_filter v limit f d made packable =
      let (sp, read, h) = Related-inv Denotes _ _ f (nostr_filter-Related v limit) made in
      (sp, read, does_match-matches d packable f sp h)
