-- ===== src/Filters/Group.antt =====
-- NostrFilterGroup of src/filters.h.
pub mod Matching
use strfry.Prelude.{
  ℕ, Bool, true, false, none, some, List, [], ◌∷◌, ltb, if◌then◌else◌, length, drop, herr, Result,
  ok, ◌>>=◌, ◌>>◌, throw_if,
}
use strfry.PackedEvent.{Lmdb, PackedEventView}
use strfry.External.{Json, Hex}
use strfry.Filters.Filter.{NostrFilter, nostr_filter}
use strfry.Filters.Filter

pub record NostrFilterGroup : Type 0 where
  pub filters : List NostrFilter

module _ {V : Type 0} (json : Json V) (hex : Hex) where
  -- The loop from index 2 on: a filter that never matches is dropped again.
  unfoldable pub parse_filters : ℕ → List V → Result (List NostrFilter)
  parse_filters max_filter_limit [] = ok []
  parse_filters max_filter_limit (v ∷ vs) = do
    f ← nostr_filter json hex v max_filter_limit
    rest ← parse_filters max_filter_limit vs
    ok (if f.never_match then rest else f ∷ rest)

  -- The constructor from a whole request, whose first two items are "REQ" and the subscription id.
  unfoldable pub nostr_filter_group : List V → ℕ → Result NostrFilterGroup
  nostr_filter_group arr max_filter_limit = do
    throw_if (ltb (length arr) 3) (herr "too small")
    filters ← parse_filters max_filter_limit (drop 2 arr)
    ok (record { filters = filters })

  -- unwrapped: a filter or an array of filters, behind two placeholders.
  unfoldable pub unwrapped : (junk_req junk_sub filter : V) → ℕ → Result NostrFilterGroup
  unwrapped junk_req junk_sub filter max_filter_limit =
      nostr_filter_group
        (junk_req ∷ junk_sub ∷ elim (json.get_array filter) [ none ↦ filter ∷ [] | some fs ↦ fs ])
        max_filter_limit

module _ ⦃lmdb : Lmdb⦄ where
  unfoldable pub any_match : List NostrFilter → PackedEventView → Result Bool
  any_match [] ev = ok false
  any_match (f ∷ fs) ev = do
    m ← Filter.does_match f ev
    let rest = any_match fs ev
    if m then ok true else rest

  unfoldable pub does_match : NostrFilterGroup → PackedEventView → Result Bool
  unfolding any_match
  does_match g ev = any_match g.filters ev

unfoldable pub size : NostrFilterGroup → ℕ
size g = length g.filters

unfoldable pub is_full_db_query : NostrFilterGroup → Bool
is_full_db_query g = elim g.filters [
  | [] ↦ false
  | f ∷ fs ↦ elim fs [ [] ↦ Filter.is_full_db_query f | _ ↦ false ]
]
