-- ===== src/Monitors/Keys/Probes.antt =====
-- ActiveMonitors::process of src/ActiveMonitors.h looks under enough keys: a filter that matches an
-- event has one of its keys among them.
use strfry.Prelude.{
  ℕ, ◌≡◌, refl, sym, ap, inl, inr, true, false, not, ◌&&◌, Option, none, some, List, [], ◌∷◌, ◌++◌,
  arith, ◌==◌, ==_iff, Bool-cases, if-cases, length,
}
use strfry.Prelude.Bytes.{Bytes, bytes_eq, contains, bytes_eq→eq}
use strfry.Prelude.Distinct.{InList, InList-left, InList-right, InList-map}
use strfry.PackedEvent.Lemmas.{Tag}
use strfry.PackedEvent.RoundTrip.{EventData}
use strfry.Filters.SetBytes.{FilterSetBytes}
use strfry.Filters.SetUint.{FilterSetUint}
use strfry.Filters.SetUint.Members.{member}
use strfry.Filters.Filter.{NostrFilter}
use strfry.Filters.Filter.Matching.{allows_bytes, allows_uint, has_tag, has_tags, matches}
use strfry.Monitors.Keys.{
  IndexKey, by_id, by_author, by_tag, by_kind, by_other, values, tag_keys, kind_keys, unkeyed,
}
use strfry.Monitors.Keys.Indexable.{
  keys_of, ids_keys, authors_keys, option_values, option_items, tag_values, spec_of,
}

-- The keys that an event is looked up under.
abbrev pub tag_probes : List Tag → List IndexKey
tag_probes [] = []
tag_probes ((k, v) ∷ ts) = by_tag (k ∷ v) ∷ tag_probes ts

abbrev pub probes : EventData → List IndexKey
probes d = by_id d.id ∷ by_author d.pubkey ∷ (tag_probes d.tags ++ by_kind d.kind ∷ by_other ∷ [])

contains-InList : (c : Bytes) (vs : List Bytes) → contains c vs ≡ true → InList c vs
unfolding contains
contains-InList c [] h = absurd (ground arith)
contains-InList c (v ∷ vs) h = elim (Bool-cases (bytes_eq c v)) [
  | inl y ↦ inl (bytes_eq→eq c v y)
  | inr n ↦ inr (contains-InList c vs (ground arith))
]

member-InList : (c : ℕ) (vs : List ℕ) → member c vs ≡ true → InList c vs
unfolding member
member-InList c [] h = absurd (ground arith)
member-InList c (v ∷ vs) h = elim (Bool-cases (c == v)) [
  | inl y ↦ inl ((==_iff c v).0 y)
  | inr n ↦ inr (member-InList c vs (ground arith))
]

-- A key of a filter that is looked up.
abbrev pub Meets : List IndexKey → EventData → Type 0
Meets ks d = (k : IndexKey) × InList k ks × InList k (probes d)

tag-InList :
    (name : ℕ) (vs : List Bytes) (ts : List Tag)
    → has_tag name vs ts ≡ true
    → (v : Bytes) × InList v vs × InList (by_tag (name ∷ v)) (tag_probes ts)
unfolding has_tag
tag-InList name vs [] h = absurd (ground arith)
tag-InList name vs ((k, v) ∷ ts) h = elim (Bool-cases (k == name && contains v vs)) [
  | inl y ↦
      let same : k ≡ name = ground arith in
      (v, contains-InList v vs (ground arith), inl (ap (λ n. by_tag (n ∷ v)) (sym same)))
  | inr n ↦ let (w, a, b) = tag-InList name vs ts (ground arith) in (w, a, inr b)
]

module _ (d : EventData) where
  tags-Meets :
      (tags : List (ℕ × FilterSetBytes))
      → (length tags == 0) ≡ false
      → has_tags (tag_values tags) d.tags ≡ true
      → Meets (tag_keys tags) d
  unfolding has_tags tag_keys
  tags-Meets [] some_ h = absurd (ground arith)
  tags-Meets ((name, s) ∷ tags) some_ h =
      let (v, there, probed) = tag-InList name (values s) d.tags (ground arith) in
      (
        by_tag (name ∷ v),
        InList-left (by_tag (name ∷ v)) _ (tag_keys tags)
            (InList-map (λ w. by_tag (name ∷ w)) v (values s) there),
        inr (inr (InList-left (by_tag (name ∷ v)) (tag_probes d.tags) _ probed)),
      )

  kinds-Meets :
      (kinds : Option FilterSetUint)
      → allows_uint (option_items kinds) d.kind ≡ true
      → Meets (kind_keys kinds) d
  kinds-Meets none h =
      (by_other, inl refl, inr (inr (InList-right by_other (tag_probes d.tags) _ (inr (inl refl)))))
  kinds-Meets (some s) h = (
    by_kind d.kind,
    InList-map by_kind d.kind s.items (member-InList d.kind s.items h),
    inr (inr (InList-right (by_kind d.kind) (tag_probes d.tags) _ (inl refl))),
  )

  chain-Meets :
      (ids authors : Option FilterSetBytes) (rest : List IndexKey)
      → allows_bytes (option_values ids) d.id ≡ true
      → allows_bytes (option_values authors) d.pubkey ≡ true
      → Meets rest d
      → Meets (ids_keys ids (authors_keys authors rest)) d
  chain-Meets (some s) authors rest h k m =
      (by_id d.id, InList-map by_id d.id (values s) (contains-InList d.id (values s) h), inl refl)
  chain-Meets none (some s) rest h k m = (
    by_author d.pubkey,
    InList-map by_author d.pubkey (values s) (contains-InList d.pubkey (values s) k),
    inr (inl refl),
  )
  chain-Meets none none rest h k m = m

  pub matches-Meets : (f : NostrFilter) → matches (spec_of f) d ≡ true → Meets (keys_of f) d
  unfolding matches keys_of
  matches-Meets f h = chain-Meets f.ids f.authors (unkeyed f) (ground arith) (ground arith) (
      if-cases (λ ks. Meets ks d) (not (length f.tags == 0)) (tag_keys f.tags) (kind_keys f.kinds)
        (λ e. tags-Meets f.tags (ground arith) (ground arith))
        (λ e. kinds-Meets f.kinds (ground arith)))
