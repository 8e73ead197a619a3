-- ===== src/Filters/Group/Matching.antt =====
-- NostrFilterGroup of src/filters.h against the list reading of each filter.
use strfry.Prelude.{
  ℕ, ◌≡◌, refl, sym, subst, ◌∙◌, inl, inr, false, List, [], ◌∷◌, arith, if◌then◌else◌, if-cases,
  drop, any, Result, ok, ◌>>=◌, Result-cases, Related, Related-bind, Related-inv,
}
use strfry.PackedEvent.{Lmdb}
use strfry.PackedEvent.RoundTrip.{EventData, IsPackable, view_of}
use strfry.External.{Json, Hex}
use strfry.Filters.Filter.{NostrFilter}
use strfry.Filters.Filter.Matching.{FilterSpec, Denotes, matches, does_match-matches}
use strfry.Filters.Filter.Parsing.{read_filter, nostr_filter-Related}
use strfry.Filters.Group.{
  NostrFilterGroup, parse_filters, nostr_filter_group, any_match, does_match,
}

module _ {V : Type 0} (json : Json V) (hex : Hex) where
  unfoldable pub read_filters : List V → Result (List FilterSpec)
  read_filters [] = ok []
  read_filters (v ∷ vs) = do sp ← read_filter json hex v; rest ← read_filters vs; ok (sp ∷ rest)

  module _ ⦃lmdb : Lmdb⦄ (d : EventData) (packable : IsPackable d) where
    -- The filters of a group answer as their list readings together.
    abbrev Answers : List NostrFilter → List FilterSpec → Type 0
    Answers fs sps = any_match fs (view_of d) ≡ ok (any (λ sp. matches sp d) sps)

    Answers-cons :
        (f : NostrFilter) (fs : List NostrFilter) (sp : FilterSpec) (sps : List FilterSpec)
        → Denotes f sp
        → Answers fs sps
        → Answers (if f.never_match then fs else f ∷ fs) (sp ∷ sps)
    unfolding any_match
    Answers-cons f fs sp sps h rest =
        if-cases (λ l. Answers l (sp ∷ sps)) f.never_match fs (f ∷ fs)
          (λ e.
            let dead : matches sp d ≡ false = unfold matches in rw (sym h.never ∙ e) in
            rw dead rest)
          (λ e. rw (does_match-matches d packable f sp h, rest) (ground arith))

    parse_filters-Related :
        (limit : ℕ) (vs : List V)
        → Related Answers (parse_filters json hex limit vs) (read_filters vs)
    unfolding parse_filters read_filters any_match
    parse_filters-Related limit [] = refl
    parse_filters-Related limit (v ∷ vs) =
        let rest = parse_filters-Related limit vs in
        Related-bind Denotes Answers _ _ _ _ (nostr_filter-Related json hex v limit) (λ f sp h.
          Related-bind Answers Answers _ _ _ _ rest (λ fs sps a. Answers-cons f fs sp sps h a))

    -- A group that was constructed from a request answers on every packed event whether one of the
    -- request's filters, each in its plain reading, matches; filters that can match nothing and
    -- that the group leaves out make no difference.
    pub does_match-nostr_filter_group :
        (arr : List V) (max_filter_limit : ℕ) (g : NostrFilterGroup)
        → nostr_filter_group json hex arr max_filter_limit ≡ ok g
        → (sps : List FilterSpec) × (read_filters (drop 2 arr) ≡ ok sps)
          × (does_match g (view_of d) ≡ ok (any (λ sp. matches sp d) sps))
    unfolding nostr_filter_group does_match
    does_match-nostr_filter_group arr limit g made =
        elim (Result-cases (parse_filters json hex limit (drop 2 arr))) [
          | inr (e, bad) ↦ absurd (ground arith)
          | inl (fs, got) ↦
              let (sps, read, a) =
                Related-inv Answers _ _ fs (parse_filters-Related limit (drop 2 arr)) got in
              let same : fs ≡ g.filters = ground arith in
              (
                sps,
                read,
                subst (λ l. any_match l (view_of d) ≡ ok (any (λ sp. matches sp d) sps)) same a,
              )
        ]
