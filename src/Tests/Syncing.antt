-- ===== src/Tests/Syncing.antt =====
-- A cache of two negentropy filters, and an update.
use strfry.Prelude.{All, ◌⊎◌, ◌≢◌}
use strfry.Subscriptions.Tracker.Installed.{occurs}
use strfry.Negentropy.{find_kind}
use strfry.Prelude.{
  ℕ, ◌≡◌, refl, true, some, List, [], ◌∷◌, arith, if◌then◌else◌, get_elem?, Result, ok,
}
use strfry.Prelude.Bytes.{Bytes, codes, bytes_eq}
use strfry.PackedEvent.RoundTrip.{EventData, IsPackable, view_of}
use strfry.Filters.SetUint
use strfry.Filters.Filter
use strfry.Filters.Filter.{NostrFilter, init, nostr_filter}
use strfry.Negentropy.{
  NegentropyFilterCache, TreeUpdate, push_kind, push_kinds, index_filter, build_index, read_filters,
  freshen_cache, update_negentropy,
}
use strfry.Negentropy.Reach.{IsIndexed, reached, verdict_of, update_negentropy-reached}
use strfry.Negentropy.Updates.{IsFor}
use strfry.Negentropy.Fresh.{AreStored, freshen_cache-IsIndexed}
use strfry.Tests.World.{little_endian}
use strfry.Tests.Values.{Value, num, arr, obj, items_of, fields_of, json, hex, fill}

abbrev empty_cache : NegentropyFilterCache
empty_cache = record {
  filters = [];
  modification_counter = 0;
  kind_to_filter_idx = [];
  no_kind_filter_idxs = [];
}

empty_cache-IsIndexed : IsIndexed empty_cache
unfolding find_kind occurs
empty_cache-IsIndexed = record { index = λ i k. refl; kind_sets = tt }

-- The reader of the two texts "{}" and "kinds".
abbrev from_string : Bytes → Result Value
from_string text =
    if bytes_eq text (codes "{}")
    then ok (obj (fields_of []))
    else ok (obj (fields_of ((codes "kinds", arr (items_of (num 7 ∷ num 1 ∷ []))) ∷ [])))

abbrev stored : List (ℕ × Bytes)
stored = (1, codes "{}") ∷ (5, codes "kinds") ∷ []

abbrev everything : NostrFilter
everything = record init { index_only_scans = true }

abbrev by_kind : NostrFilter
by_kind = record init { kinds = some (record { items = 1 ∷ 7 ∷ [] }); index_only_scans = true }

abbrev cache : NegentropyFilterCache
cache = record {
  filters = record { f = everything; tree_id = 1 } ∷ record { f = by_kind; tree_id = 5 } ∷ [];
  modification_counter = 3;
  kind_to_filter_idx = (1, 1 ∷ []) ∷ (7, 1 ∷ []) ∷ [];
  no_kind_filter_idxs = 0 ∷ [];
}

freshened : freshen_cache json hex from_string 3 stored empty_cache ≡ ok cache
unfolding freshen_cache read_filters build_index index_filter push_kinds push_kind nostr_filter
    Filter.add_fields Filter.add_field Filter.is_empty_array Filter.finish bytes_eq
    SetUint.filter_set_uint SetUint.collect_uints SetUint.unique SetUint.unique_after SetUint.sort
    SetUint.insert_sorted
freshened = refl

freshen_cache-IsIndexed_example :
    IsIndexed cache
    × (cache.modification_counter ≡ 3)
    × (((3 ≡ empty_cache.modification_counter) × (cache ≡ empty_cache))
        ⊎ ((3 ≢ empty_cache.modification_counter)
            × AreStored json hex from_string stored cache.filters))
freshen_cache-IsIndexed_example =
    freshen_cache-IsIndexed json hex from_string 3 stored empty_cache cache empty_cache-IsIndexed
      freshened

cache-IsIndexed : IsIndexed cache
cache-IsIndexed =
    (freshen_cache-IsIndexed json hex from_string 3 stored empty_cache cache empty_cache-IsIndexed
      freshened).0

abbrev post : EventData
post = record {
  id = fill 32 1;
  pubkey = fill 32 9;
  created_at = 100;
  kind = 7;
  expiration = 0;
  tags = [];
}

post-IsPackable : IsPackable post
post-IsPackable = record {
  id_size = refl;
  pubkey_size = refl;
  created_at_u64 = omega arith;
  kind_u64 = omega arith;
  expiration_u64 = omega arith;
  tags_fit = tt;
}

update_negentropy-reached_example :
    (us : List TreeUpdate) × (update_negentropy cache (view_of post) true ≡ ok us)
    × ((i : ℕ) → reached i us ≡ (if verdict_of post (get_elem? cache.filters i) then 1 else 0))
    × All (IsFor post cache true) us
update_negentropy-reached_example =
    update_negentropy-reached post post-IsPackable cache true cache-IsIndexed
