-- ===== src/Filters/Filter/Matching.antt =====
-- NostrFilter::doesMatch of src/filters.h against NIP-01's reading of a filter.
use strfry.Prelude.{
  ℕ, ◌≡◌, refl, ap, Bool, true, false, not, ◌&&◌, ◌||◌, Option, none, some, List, [], ◌∷◌, arith,
  leb, ◌==◌, ok,
}
use strfry.Prelude.Bytes.{Bytes, contains}
use strfry.PackedEvent.{Lmdb}
use strfry.PackedEvent.Lemmas.{Tag, fold_tags}
use strfry.PackedEvent.RoundTrip.{
  EventData, IsPackable, view_of, id-packed, pubkey-packed, created_at-packed, kind-packed,
  foreach_tag-pack,
}
use strfry.Filters.SetBytes.{FilterSetBytes}
use strfry.Filters.SetBytes
use strfry.Filters.SetUint.{FilterSetUint}
use strfry.Filters.SetUint
use strfry.Filters.SetUint.Members.{member}
use strfry.Filters.Filter.{
  NostrFilter, does_match_times, tag_matches, does_match_tags, does_match, fails_bytes, fails_uint,
}

-- A filter as the lists of its alternatives.
pub record FilterSpec : Type 0 where
  pub ids : Option (List Bytes)
  pub authors : Option (List Bytes)
  pub kinds : Option (List ℕ)
  pub tags : List (ℕ × List Bytes)
  pub since : ℕ
  pub until : ℕ
  pub never : Bool

-- A condition that is absent holds.
abbrev pub allows_bytes : Option (List Bytes) → Bytes → Bool
allows_bytes none b = true
allows_bytes (some l) b = contains b l

abbrev pub allows_uint : Option (List ℕ) → ℕ → Bool
allows_uint none n = true
allows_uint (some l) n = member n l

-- Some tag of the event has the name and one of the values.
unfoldable pub has_tag : ℕ → List Bytes → List Tag → Bool
has_tag name l [] = false
has_tag name l ((k, v) ∷ ts) = (k == name && contains v l) || has_tag name l ts

unfoldable pub has_tags : List (ℕ × List Bytes) → List Tag → Bool
has_tags [] ts = true
has_tags ((name, l) ∷ conds) ts = has_tag name l ts && has_tags conds ts

-- What a filter asks of an event: every condition that it has.
unfoldable pub matches : FilterSpec → EventData → Bool
matches sp d =
    not sp.never
    && (leb sp.since d.created_at && leb d.created_at sp.until)
    && allows_bytes sp.ids d.id
    && allows_bytes sp.authors d.pubkey
    && allows_uint sp.kinds d.kind
    && has_tags sp.tags d.tags

-- A set of the code accepts what a list has.
abbrev pub Holds : FilterSetBytes → List Bytes → Type 0
Holds s l = (c : Bytes) → SetBytes.does_match s c ≡ contains c l

abbrev pub HoldsUint : FilterSetUint → List ℕ → Type 0
HoldsUint s l = (n : ℕ) → SetUint.does_match s n ≡ member n l

abbrev pub HoldsOption : Option FilterSetBytes → Option (List Bytes) → Type 0
HoldsOption none none = Unit
HoldsOption (some s) (some l) = Holds s l
HoldsOption none (some l) = ⊥
HoldsOption (some s) none = ⊥

abbrev pub HoldsUintOption : Option FilterSetUint → Option (List ℕ) → Type 0
HoldsUintOption none none = Unit
HoldsUintOption (some s) (some l) = HoldsUint s l
HoldsUintOption none (some l) = ⊥
HoldsUintOption (some s) none = ⊥

abbrev pub HoldsTags : List (ℕ × FilterSetBytes) → List (ℕ × List Bytes) → Type 0
HoldsTags [] [] = Unit
HoldsTags ((k, s) ∷ m) ((j, l) ∷ n) = (k ≡ j) × Holds s l × HoldsTags m n
HoldsTags [] ((j, l) ∷ n) = ⊥
HoldsTags ((k, s) ∷ m) [] = ⊥

pub record Denotes (f : NostrFilter) (sp : FilterSpec) : Type 0 where
  pub ids : HoldsOption f.ids sp.ids
  pub authors : HoldsOption f.authors sp.authors
  pub kinds : HoldsUintOption f.kinds sp.kinds
  pub tags : HoldsTags f.tags sp.tags
  pub since : f.since ≡ sp.since
  pub until : f.until ≡ sp.until
  pub never : f.never_match ≡ sp.never

fails-allows :
    (o : Option FilterSetBytes) (l : Option (List Bytes)) (b : Bytes)
    → HoldsOption o l
    → fails_bytes o b ≡ not (allows_bytes l b)
fails-allows none none b h = refl
fails-allows (some s) (some l) b h = ap not (h b)
fails-allows none (some l) b h = absurd h
fails-allows (some s) none b h = absurd h

fails-allows_uint :
    (o : Option FilterSetUint) (l : Option (List ℕ)) (n : ℕ)
    → HoldsUintOption o l
    → fails_uint o n ≡ not (allows_uint l n)
fails-allows_uint none none n h = refl
fails-allows_uint (some s) (some l) n h = ap not (h n)
fails-allows_uint none (some l) n h = absurd h
fails-allows_uint (some s) none n h = absurd h

-- The loop over the event's tags finds a tag of the filter's name and values if there is one.
fold_tags-has_tag :
    (name : ℕ) (s : FilterSetBytes) (l : List Bytes)
    → Holds s l
    → (ts : List Tag) → fold_tags (tag_matches name s) ts false ≡ has_tag name l ts
unfolding fold_tags has_tag tag_matches
fold_tags-has_tag name s l h [] = refl
fold_tags-has_tag name s l h ((k, v) ∷ ts) = ground (arith, h v, fold_tags-has_tag name s l h ts)

module _ ⦃lmdb : Lmdb⦄ (d : EventData) (packable : IsPackable d) where
  does_match_tags-has_tags :
      (m : List (ℕ × FilterSetBytes)) (n : List (ℕ × List Bytes))
      → HoldsTags m n
      → does_match_tags m (view_of d) ≡ ok (has_tags n d.tags)
  unfolding does_match_tags has_tags
  does_match_tags-has_tags [] [] h = refl
  does_match_tags-has_tags ((k, s) ∷ m) ((j, l) ∷ n) h =
      rw
        (
          foreach_tag-pack d packable (tag_matches k s) false,
          fold_tags-has_tag k s l h.1 d.tags,
          h.0,
          does_match_tags-has_tags m n h.2,
        )
        (ground arith)
  does_match_tags-has_tags [] ((j, l) ∷ n) h = absurd h
  does_match_tags-has_tags ((k, s) ∷ m) [] h = absurd h

  -- On a packed event the filter's test succeeds, and its answer is whether the event meets every
  -- condition of the filter: the time range, the ids, authors and kinds, and a tag for each name.
  pub does_match-matches :
      (f : NostrFilter) (sp : FilterSpec)
      → Denotes f sp
      → does_match f (view_of d) ≡ ok (matches sp d)
  unfolding does_match matches does_match_times
  does_match-matches f sp h =
      rw
        (
          id-packed d packable,
          pubkey-packed d packable,
          created_at-packed d packable,
          kind-packed d packable,
          fails-allows f.ids sp.ids d.id h.ids,
          fails-allows f.authors sp.authors d.pubkey h.authors,
          fails-allows_uint f.kinds sp.kinds d.kind h.kinds,
          does_match_tags-has_tags f.tags sp.tags h.tags,
          h.since,
          h.until,
          h.never,
        )
        (ground arith)
