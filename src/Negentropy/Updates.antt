-- ===== src/Negentropy/Updates.antt =====
-- What an update of src/NegentropyFilterCache.h does to a tree.
use strfry.Prelude.{
  Error, out_of_range, or_throw, >>=-elim, ℕ, ◌≡◌, refl, subst, inl, inr, Bool, Option, none, some,
  List, [], ◌∷◌, ◌++◌, arith, Bool-cases, get_elem?, All, ok,
}
use strfry.PackedEvent.{Lmdb, id, created_at}
use strfry.PackedEvent.RoundTrip.{EventData, IsPackable, view_of, created_at-packed, id-packed}
use strfry.Filters.Filter.{does_match}
use strfry.Negentropy.{FilterInfo, NegentropyFilterCache, TreeUpdate, try_filter, try_filters}

-- The update is for the tree of the filter at its index, for this event, an insertion or an erasure.
pub record IsFor (d : EventData) (cache : NegentropyFilterCache) (insert : Bool) (u : TreeUpdate)
    : Type 0 where
  pub info : FilterInfo
  pub filter : get_elem? cache.filters u.idx ≡ some info
  pub tree : u.tree_id ≡ info.tree_id
  pub inserts : u.insert ≡ insert
  pub time : u.created_at ≡ d.created_at
  pub event : u.id ≡ d.id

All-join :
    (P : TreeUpdate → Type 0) (us vs : List TreeUpdate) → All P us → All P vs → All P (us ++ vs)
All-join P [] vs h k = k
All-join P (u ∷ us) vs h k = (h.0, All-join P us vs h.1 k)

module _ ⦃lmdb : Lmdb⦄ (d : EventData) (packable : IsPackable d) (cache : NegentropyFilterCache)
    (insert : Bool) where
  try_filter-IsFor :
      (j : ℕ) (us : List TreeUpdate)
      → try_filter cache (view_of d) insert j ≡ ok us
      → All (IsFor d cache insert) us
  unfolding try_filter
  try_filter-IsFor j us h =
      >>=-elim (or_throw (get_elem? cache.filters j) out_of_range) _ h λ info got h1.
        >>=-elim (does_match info.f (view_of d)) _ h1 λ matched said h2. elim (Bool-cases matched) [
          | inr n ↦
              let none_of : [] ≡ us = let e = rw n at h2 in ground arith in
              subst (All (IsFor d cache insert)) none_of tt
          | inl y ↦
              let one_of : update j info ∷ [] ≡ us = let e = rw y at h2 in ground arith in
              subst (All (IsFor d cache insert)) one_of (
                record {
                  info = info;
                  filter = or_throw-some (get_elem? cache.filters j) out_of_range info got;
                  tree = refl;
                  inserts = refl;
                  time = created_at-packed d packable;
                  event = id-packed d packable;
                },
                tt,
              )
        ]
    where
      update : ℕ → FilterInfo → TreeUpdate
      update j info = record {
        idx = j;
        tree_id = info.tree_id;
        insert = insert;
        created_at = created_at (view_of d);
        id = id (view_of d);
      }

      or_throw-some :
          {A : Type 0} (o : Option A) (e : Error) (a : A) → or_throw o e ≡ ok a → o ≡ some a
      or_throw-some none e a h = cc
      or_throw-some (some b) e a h = let same : b ≡ a = ground arith in rw same

  pub try_filters-IsFor :
      (is : List ℕ) (us : List TreeUpdate)
      → try_filters cache (view_of d) insert is ≡ ok us
      → All (IsFor d cache insert) us
  unfolding try_filters
  try_filters-IsFor [] us h =
      let none_of : [] ≡ us = ground arith in subst (All (IsFor d cache insert)) none_of tt
  try_filters-IsFor (j ∷ js) us h =
      >>=-elim (try_filter cache (view_of d) insert j) _ h λ one here h1.
        >>=-elim (try_filters cache (view_of d) insert js) _ h1 λ rest there h2.
          let all_of : one ++ rest ≡ us = ground arith in
          subst (All (IsFor d cache insert)) all_of (
            All-join (IsFor d cache insert) one rest (try_filter-IsFor j one here)
              (try_filters-IsFor js rest there))
