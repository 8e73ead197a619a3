-- ===== src/Subscriptions/Tracker.antt =====
-- EphemeralSubTracker of src/EphemeralSubTracker.h, and what installLookups and uninstallLookups of
-- src/ActiveMonitors.h do to it. The hash map is an association list of kinds and counts.
pub mod Counts
pub mod Installed
use strfry.Prelude.{
  ℕ, ◌+◌, ◌-◌, ◌%◌, Bool, false, not, ◌||◌, Option, none, some, List, [], ◌∷◌, ltb, ◌==◌,
  if◌then◌else◌, u64_mod, max_u64, length,
}
use strfry.Filters.SetUint.{FilterSetUint}
use strfry.Filters.Filter.{NostrFilter, is_some}
use strfry.Events.Kind.{is_ephemeral}

pub record EphemeralSubTracker : Type 0 where
  pub kind_refcounts : List (ℕ × ℕ)
  pub catch_all_count : ℕ

unfoldable pub has_count : ℕ → List (ℕ × ℕ) → Bool
has_count k [] = false
has_count k ((j, n) ∷ m) = j == k || has_count k m

unfoldable pub has_subscribers_for_kind : EphemeralSubTracker → ℕ → Bool
has_subscribers_for_kind t kind = ltb 0 t.catch_all_count || has_count kind t.kind_refcounts

-- kindRefcounts[kind]++, where a missing kind counts 0.
unfoldable pub increment : ℕ → List (ℕ × ℕ) → List (ℕ × ℕ)
increment k [] = (k, 1) ∷ []
increment k ((j, n) ∷ m) = if j == k then (j, (n + 1) % u64_mod) ∷ m else (j, n) ∷ increment k m

-- Nothing for a missing kind; an entry that comes to 0 is erased.
unfoldable pub decrement : ℕ → List (ℕ × ℕ) → List (ℕ × ℕ)
decrement k [] = []
decrement k ((j, n) ∷ m) =
    let left = (n + max_u64) % u64_mod in
    if j == k then (if left == 0 then m else (j, left) ∷ m) else (j, n) ∷ decrement k m

unfoldable pub add_kind : ℕ → EphemeralSubTracker → EphemeralSubTracker
add_kind kind t = record {
  kind_refcounts = increment kind t.kind_refcounts;
  catch_all_count = t.catch_all_count;
}

unfoldable pub remove_kind : ℕ → EphemeralSubTracker → EphemeralSubTracker
remove_kind kind t = record {
  kind_refcounts = decrement kind t.kind_refcounts;
  catch_all_count = t.catch_all_count;
}

unfoldable pub add_catch_all : EphemeralSubTracker → EphemeralSubTracker
add_catch_all t = record {
  kind_refcounts = t.kind_refcounts;
  catch_all_count = (t.catch_all_count + 1) % u64_mod;
}

unfoldable pub remove_catch_all : EphemeralSubTracker → EphemeralSubTracker
remove_catch_all t = record {
  kind_refcounts = t.kind_refcounts;
  catch_all_count = if ltb 0 t.catch_all_count then t.catch_all_count - 1 else t.catch_all_count;
}

-- `if (isEphemeralKind(kind)) ephemeralTracker->…Kind(kind)` over the kinds of a filter.
unfoldable pub for_kinds :
    (ℕ → EphemeralSubTracker → EphemeralSubTracker)
    → List ℕ
    → EphemeralSubTracker
    → EphemeralSubTracker
for_kinds change [] t = t
for_kinds change (k ∷ ks) t = for_kinds change ks (if is_ephemeral k then change k t else t)

-- The chain of conditions that decides under which index a filter stands.
pub data Lookup : Type 0 where
  under_ids under_authors under_tags under_others : Lookup
  under_kinds : List ℕ → Lookup

abbrev pub kinds_or_others : Option FilterSetUint → Lookup
kinds_or_others none = under_others
kinds_or_others (some s) = under_kinds s.items

unfoldable pub lookup_of : NostrFilter → Lookup
lookup_of f =
    if is_some f.ids
    then under_ids
    else if is_some f.authors
    then under_authors
    else if not (length f.tags == 0)
    then under_tags
    else kinds_or_others f.kinds

-- What installing one filter does to the tracker.
unfoldable pub install : Lookup → EphemeralSubTracker → EphemeralSubTracker
install (under_kinds ks) t = for_kinds add_kind ks t
install under_others t = add_catch_all t
install _ t = t

unfoldable pub uninstall : Lookup → EphemeralSubTracker → EphemeralSubTracker
uninstall (under_kinds ks) t = for_kinds remove_kind ks t
uninstall under_others t = remove_catch_all t
uninstall _ t = t
