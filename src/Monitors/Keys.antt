-- ===== src/Monitors/Keys.antt =====
-- The keys under which installLookups and uninstallLookups of src/ActiveMonitors.h find a filter.
pub mod Indexable
pub mod Probes
pub mod Parsed
use strfry.Prelude.{
  ℕ, not, Option, none, some, List, [], ◌∷◌, ◌++◌, map, ◌==◌, if◌then◌else◌, length, Result, ok,
  ◌>>=◌, ◌>>◌,
}
use strfry.Prelude.Bytes.{Bytes}
use strfry.Events.Verify.{bytes32}
use strfry.Filters.SetBytes.{FilterSetBytes, item_value}
use strfry.Filters.SetUint.{FilterSetUint}
use strfry.Filters.Filter.{NostrFilter}

-- A key of allIds, allAuthors, allTags or allKinds, or the one set allOthers.
pub data IndexKey : Type 0 where
  by_id by_author by_tag : Bytes → IndexKey
  by_kind : ℕ → IndexKey
  by_other : IndexKey

-- The loop over `at(i)` for i < size().
unfoldable pub values : FilterSetBytes → List Bytes
values s = map (item_value s) s.items

-- The loop that makes each value a Bytes32.
unfoldable pub bytes32_keys : (Bytes → IndexKey) → List Bytes → Result (List IndexKey)
bytes32_keys key [] = ok []
bytes32_keys key (v ∷ vs) = do b ← bytes32 v; rest ← bytes32_keys key vs; ok (key b ∷ rest)

-- getTagSpec for every value of every tag.
unfoldable pub tag_keys : List (ℕ × FilterSetBytes) → List IndexKey
tag_keys [] = []
tag_keys ((tag_name, filter_set) ∷ tags) =
    map (λ v. by_tag (tag_name ∷ v)) (values filter_set) ++ tag_keys tags

abbrev pub kind_keys : Option FilterSetUint → List IndexKey
kind_keys none = by_other ∷ []
kind_keys (some s) = map by_kind s.items

abbrev pub unkeyed : NostrFilter → List IndexKey
unkeyed f = if not (length f.tags == 0) then tag_keys f.tags else kind_keys f.kinds

abbrev pub authors_or : Option FilterSetBytes → List IndexKey → Result (List IndexKey)
authors_or none rest = ok rest
authors_or (some s) rest = bytes32_keys by_author (values s)

abbrev pub ids_or : Option FilterSetBytes → Result (List IndexKey) → Result (List IndexKey)
ids_or none rest = rest
ids_or (some s) rest = bytes32_keys by_id (values s)

-- The chain of conditions, and the loop of the branch that is taken.
unfoldable pub index_keys : NostrFilter → Result (List IndexKey)
index_keys f = ids_or f.ids (authors_or f.authors (unkeyed f))
