-- ===== src/Monitors/Keys/Indexable.antt =====
-- A filter of src/filters.h that was built from JSON has no key twice.
use strfry.Prelude.{
  ℕ, ◌≡◌, refl, sym, subst, inl, inr, true, not, Option, none, some, List, [], ◌∷◌, map, arith,
  ◌==◌, if-cases, length, All, ok,
}
use strfry.Prelude.Bytes.{Bytes}
use strfry.Prelude.Distinct.{
  InList, Distinct, InList-append, append-Distinct, InList-unmap, map-Distinct,
}
use strfry.Events.Verify.{bytes32}
use strfry.Filters.SetBytes.{FilterSetBytes}
use strfry.Filters.SetUint.{FilterSetUint}
use strfry.Filters.Filter.{NostrFilter}
use strfry.Filters.Filter.Matching.{
  FilterSpec, Holds, HoldsUint, HoldsTags, HoldsOption, HoldsUintOption, Denotes,
}
use strfry.Monitors.Keys.{
  IndexKey, by_id, by_author, by_tag, by_kind, values, bytes32_keys, tag_keys, kind_keys, unkeyed,
  index_keys, ids_or, authors_or,
}

-- The keys without the errors of Bytes32.
abbrev pub authors_keys : Option FilterSetBytes → List IndexKey → List IndexKey
authors_keys none rest = rest
authors_keys (some s) rest = map by_author (values s)

abbrev pub ids_keys : Option FilterSetBytes → List IndexKey → List IndexKey
ids_keys none rest = rest
ids_keys (some s) rest = map by_id (values s)

unfoldable pub keys_of : NostrFilter → List IndexKey
keys_of f = ids_keys f.ids (authors_keys f.authors (unkeyed f))

-- A set of the code is the list of its values, each once.
abbrev pub IsSetOf : FilterSetBytes → Type 0
IsSetOf s = Holds s (values s) × Distinct (values s)

abbrev pub IsIdSet : Option FilterSetBytes → Type 0
IsIdSet none = Unit
IsIdSet (some s) = IsSetOf s × All (λ v. length v ≡ 32) (values s)

abbrev pub AreTags : List (ℕ × FilterSetBytes) → Type 0
AreTags [] = Unit
AreTags ((name, s) ∷ tags) =
    IsSetOf s × All (λ (t : ℕ × FilterSetBytes). ¬ (t.0 ≡ name)) tags × AreTags tags

abbrev pub IsKindSet : Option FilterSetUint → Type 0
IsKindSet none = Unit
IsKindSet (some s) = HoldsUint s s.items × Distinct s.items

pub record IsIndexable (f : NostrFilter) : Type 0 where
  pub ids : IsIdSet f.ids
  pub authors : IsIdSet f.authors
  pub tags : AreTags f.tags
  pub kinds : IsKindSet f.kinds

-- The list reading of such a filter.
abbrev pub option_values : Option FilterSetBytes → Option (List Bytes)
option_values none = none
option_values (some s) = some (values s)

abbrev pub option_items : Option FilterSetUint → Option (List ℕ)
option_items none = none
option_items (some s) = some s.items

abbrev pub tag_values : List (ℕ × FilterSetBytes) → List (ℕ × List Bytes)
tag_values [] = []
tag_values ((name, s) ∷ tags) = (name, values s) ∷ tag_values tags

abbrev pub spec_of : NostrFilter → FilterSpec
spec_of f = record {
  ids = option_values f.ids;
  authors = option_values f.authors;
  kinds = option_items f.kinds;
  tags = tag_values f.tags;
  since = f.since;
  until = f.until;
  never = f.never_match;
}

holds_option : (o : Option FilterSetBytes) → IsIdSet o → HoldsOption o (option_values o)
holds_option none h = tt
holds_option (some s) h = h.0.0

holds_kinds : (o : Option FilterSetUint) → IsKindSet o → HoldsUintOption o (option_items o)
holds_kinds none h = tt
holds_kinds (some s) h = h.0

holds_tags : (tags : List (ℕ × FilterSetBytes)) → AreTags tags → HoldsTags tags (tag_values tags)
holds_tags [] h = tt
holds_tags ((name, s) ∷ tags) h = (refl, h.0.0, holds_tags tags h.2)

pub IsIndexable-Denotes : (f : NostrFilter) → IsIndexable f → Denotes f (spec_of f)
IsIndexable-Denotes f h = record {
  ids = holds_option f.ids h.ids;
  authors = holds_option f.authors h.authors;
  kinds = holds_kinds f.kinds h.kinds;
  tags = holds_tags f.tags h.tags;
  since = refl;
  until = refl;
  never = refl;
}

bytes32_keys_lem :
    (key : Bytes → IndexKey) (vs : List Bytes)
    → All (λ v. length v ≡ 32) vs
    → bytes32_keys key vs ≡ ok (map key vs)
unfolding bytes32_keys bytes32
bytes32_keys_lem key [] h = refl
bytes32_keys_lem key (v ∷ vs) h =
    let fits : (length v == 32) ≡ true = ground arith in rw (bytes32_keys_lem key vs h.1, fits) refl

-- No Bytes32 of such a filter fails.
pub index_keys-keys_of : (f : NostrFilter) → IsIndexable f → index_keys f ≡ ok (keys_of f)
unfolding index_keys keys_of
index_keys-keys_of f h = chain f.ids f.authors h.ids h.authors
  where
    chain :
        (ids authors : Option FilterSetBytes)
        → IsIdSet ids
        → IsIdSet authors
        → ids_or ids (authors_or authors (unkeyed f))
          ≡ ok (ids_keys ids (authors_keys authors (unkeyed f)))
    chain (some s) authors h k = bytes32_keys_lem by_id (values s) h.1
    chain none (some s) h k = bytes32_keys_lem by_author (values s) k.1
    chain none none h k = refl

InList-tag_keys :
    (k : IndexKey) (tags : List (ℕ × FilterSetBytes))
    → InList k (tag_keys tags)
    → (name : ℕ) × (v : Bytes) × (k ≡ by_tag (name ∷ v))
      × ¬ All (λ (t : ℕ × FilterSetBytes). ¬ (t.0 ≡ name)) tags
unfolding tag_keys
InList-tag_keys k [] h = absurd h
InList-tag_keys k ((name, s) ∷ tags) h =
    elim (InList-append k (map (λ v. by_tag (name ∷ v)) (values s)) (tag_keys tags) h) [
      | inl a ↦
          let (v, there, e) = InList-unmap (λ v. by_tag (name ∷ v)) k (values s) a in
          (name, v, e, λ all. all.0 refl)
      | inr b ↦ let (n, v, e, there) = InList-tag_keys k tags b in (n, v, e, λ all. there all.1)
    ]

tag_keys-Distinct : (tags : List (ℕ × FilterSetBytes)) → AreTags tags → Distinct (tag_keys tags)
unfolding tag_keys
tag_keys-Distinct [] h = tt
tag_keys-Distinct ((name, s) ∷ tags) h =
    append-Distinct (map (λ v. by_tag (name ∷ v)) (values s)) (tag_keys tags)
      (map-Distinct (λ v. by_tag (name ∷ v)) (values s) (λ a b e. cc) h.0.1)
      (tag_keys-Distinct tags h.2)
      (λ k a b.
        let (v, there, e) = InList-unmap (λ v. by_tag (name ∷ v)) k (values s) a in
        let (n, w, e', there') = InList-tag_keys k tags b in
        let same : n ≡ name = cc in
        there' (subst (λ q. All (λ (t : ℕ × FilterSetBytes). ¬ (t.0 ≡ q)) tags) (sym same) h.1))

kind_keys-Distinct : (o : Option FilterSetUint) → IsKindSet o → Distinct (kind_keys o)
kind_keys-Distinct none h = ((λ x. x), tt)
kind_keys-Distinct (some s) h = map-Distinct by_kind s.items (λ a b e. cc) h.1

pub keys_of-Distinct : (f : NostrFilter) → IsIndexable f → Distinct (keys_of f)
unfolding keys_of
keys_of-Distinct f h = chain f.ids f.authors h.ids h.authors
  where
    rest : Distinct (unkeyed f)
    rest =
        if-cases Distinct (not (length f.tags == 0)) (tag_keys f.tags) (kind_keys f.kinds)
          (λ e. tag_keys-Distinct f.tags h.tags) (λ e. kind_keys-Distinct f.kinds h.kinds)

    chain :
        (ids authors : Option FilterSetBytes)
        → IsIdSet ids
        → IsIdSet authors
        → Distinct (ids_keys ids (authors_keys authors (unkeyed f)))
    chain (some s) authors h k = map-Distinct by_id (values s) (λ a b e. cc) h.0.1
    chain none (some s) h k = map-Distinct by_author (values s) (λ a b e. cc) k.0.1
    chain none none h k = rest
