-- ===== src/Negentropy.antt =====
-- src/NegentropyFilterCache.h: which negentropy trees an update of the store reaches.
-- The trees (BTreeLMDB), the table of filters and the JSON reader are code of libraries: what is
-- done to a tree is recorded, and the table's rows and the reader are arguments.
pub mod Index
pub mod Updates
pub mod Reach
pub mod Fresh
use strfry.Prelude.{
  ℕ, ◌+◌, Bool, Option, none, some, List, [], ◌∷◌, ◌++◌, ◌==◌, if◌then◌else◌, max_u64, get_elem?,
  out_of_range, Result, ok, ◌>>=◌, ◌>>◌, or_throw,
}
use strfry.Prelude.Bytes.{Bytes}
use strfry.External.{Json, Hex}
use strfry.PackedEvent.{Lmdb, PackedEventView, id, created_at, kind}
use strfry.Filters.SetUint.{FilterSetUint}
use strfry.Filters.Filter.{NostrFilter, nostr_filter, does_match}

pub record FilterInfo : Type 0 where
  pub f : NostrFilter
  pub tree_id : ℕ

pub record NegentropyFilterCache : Type 0 where
  pub filters : List FilterInfo
  pub modification_counter : ℕ
  pub kind_to_filter_idx : List (ℕ × List ℕ)
  pub no_kind_filter_idxs : List ℕ

-- kindToFilterIdx[kind].push_back(i)
unfoldable pub push_kind : ℕ → ℕ → List (ℕ × List ℕ) → List (ℕ × List ℕ)
push_kind k i [] = (k, i ∷ []) ∷ []
push_kind k i ((j, is) ∷ m) = if j == k then (j, is ++ i ∷ []) ∷ m else (j, is) ∷ push_kind k i m

unfoldable pub push_kinds : ℕ → List ℕ → List (ℕ × List ℕ) → List (ℕ × List ℕ)
push_kinds i [] m = m
push_kinds i (k ∷ ks) m = push_kinds i ks (push_kind k i m)

unfoldable pub index_filter :
    ℕ → Option FilterSetUint → List (ℕ × List ℕ) × List ℕ → List (ℕ × List ℕ) × List ℕ
index_filter i none (m, others) = (m, others ++ i ∷ [])
index_filter i (some s) (m, others) = (push_kinds i s.items m, others)

-- The loop that builds the dispatch index, from an index on.
unfoldable pub build_index :
    ℕ → List FilterInfo → List (ℕ × List ℕ) × List ℕ → List (ℕ × List ℕ) × List ℕ
build_index i [] idx = idx
build_index i (info ∷ infos) idx = build_index (i + 1) infos (index_filter i info.f.kinds idx)

module _ {V : Type 0} (json : Json V) (hex : Hex) (from_string : Bytes → Result V) where
  unfoldable pub read_filters : List (ℕ × Bytes) → Result (List FilterInfo)
  read_filters [] = ok []
  read_filters ((tree_id, text) ∷ stored) = do
    v ← from_string text
    f ← nostr_filter json hex v max_u64
    rest ← read_filters stored
    ok (record { f = f; tree_id = tree_id } ∷ rest)

  -- `curr` is the counter in the table Meta, `stored` the table NegentropyFilter. An exception leaves the
  -- source's cache half filled; here it is only an error.
  unfoldable pub freshen_cache :
      ℕ → List (ℕ × Bytes) → NegentropyFilterCache → Result NegentropyFilterCache
  freshen_cache curr stored cache = do
    infos ← (if curr == cache.modification_counter then ok cache.filters else read_filters stored)
    let idx = build_index 0 infos ([], [])
    let fresh : NegentropyFilterCache = record {
      filters = infos;
      modification_counter = curr;
      kind_to_filter_idx = idx.0;
      no_kind_filter_idxs = idx.1;
    }
    ok (if curr == cache.modification_counter then cache else fresh)

unfoldable pub find_kind : ℕ → List (ℕ × List ℕ) → List ℕ
find_kind k [] = []
find_kind k ((j, is) ∷ m) = if j == k then is else find_kind k m

-- An insertion or erasure in the tree of the filter at an index.
pub record TreeUpdate : Type 0 where
  pub idx : ℕ
  pub tree_id : ℕ
  pub insert : Bool
  pub created_at : ℕ
  pub id : Bytes

module _ ⦃lmdb : Lmdb⦄ (cache : NegentropyFilterCache) (ev : PackedEventView) (insert : Bool) where
  unfoldable pub try_filter : ℕ → Result (List TreeUpdate)
  try_filter i = do
    info ← or_throw (get_elem? cache.filters i) out_of_range
    matched ← does_match info.f ev
    let update : TreeUpdate = record {
      idx = i;
      tree_id = info.tree_id;
      insert = insert;
      created_at = created_at ev;
      id = id ev;
    }
    ok (if matched then update ∷ [] else [])

  unfoldable pub try_filters : List ℕ → Result (List TreeUpdate)
  try_filters [] = ok []
  try_filters (i ∷ is) = do update ← try_filter i; updates ← try_filters is; ok (update ++ updates)

  -- The function that ctx passes on.
  unfoldable pub update_negentropy : Result (List TreeUpdate)
  update_negentropy =
      try_filters (find_kind (kind ev) cache.kind_to_filter_idx ++ cache.no_kind_filter_idxs)
