-- ===== src/Monitors/Index/Removing.antt =====
-- A round of uninstallLookups in src/ActiveMonitors.h: the items that the indices have afterwards.
use strfry.Prelude.{ℕ, ◌≡◌, refl, ap, ◌∙◌, true, false, all, All, All-map, ok}
use strfry.Prelude.Bytes.{Bytes}
use strfry.Monitors.Items.{
  MonitorItem, MonitorSet, is_filter, remove_item, All-remove_item, has_item-remove_item,
}
use strfry.Monitors.Trees.{KeyOrder, Tree, AllItems}
use strfry.Monitors.Erasing.{Erased, erase_item-Erased}
use strfry.Monitors.Keys.{IndexKey, by_id, by_author, by_tag, by_kind, by_other}
use strfry.Monitors.Index.{
  Index, nat_order, byte_order, erase_key, items_at, Throughout, AreRising, has_at,
}

-- An item that the erasure of a filter under a key leaves.
abbrev pub Left :
    IndexKey → ℕ → Bytes → ℕ → (IndexKey → MonitorItem → Type 0) → IndexKey → MonitorItem → Type 0
Left k c s i P j it = P j it × (j ≡ k → is_filter c s i it ≡ false)

module _ (P : IndexKey → MonitorItem → Type 0) (k : IndexKey) (c : ℕ) (s : Bytes) (i : ℕ)
    (ix : Index) where
  abbrev pub Removes : Type 0
  Removes =
      (ix' : Index) × (erase_key k c s i ix ≡ ok ix')
      × AreRising ix'
      × Throughout (Left k c s i P) ix'
      × ((j : IndexKey) (c' : ℕ) (s' : Bytes) (i' : ℕ)
          → ¬ ((k ≡ j) × (c ≡ c') × (s ≡ s') × (i ≡ i'))
          → has_at j c' s' i' ix ≡ true
          → has_at j c' s' i' ix' ≡ true)

  -- Another index than that of the key.
  other_index :
      {K : Type 0} (o : KeyOrder K) (as_key : K → IndexKey) (m : Tree K)
      → ((x : K) → ¬ (as_key x ≡ k))
      → AllItems o (λ x. P (as_key x)) m
      → AllItems o (λ x. Left k c s i P (as_key x)) m
  other_index o as_key m other h =
      All-map _ _ (λ e all. All-map _ _ (λ it p. (p, λ q. absurd (other e.0 q))) e.1 all) m h

  -- The index of the key.
  same_index :
      {K : Type 0} (o : KeyOrder K) (as_key : K → IndexKey) (x : K) (m : Tree K)
      → k ≡ as_key x
      → ((a b : K) → as_key a ≡ as_key b → a ≡ b)
      → AllItems o (Erased o x c s i (λ y. P (as_key y))) m
      → AllItems o (λ y. Left k c s i P (as_key y)) m
  same_index o as_key x m same inj h =
      All-map _ _ (λ e all. All-map _ _ (λ it p. (p.0, λ q. p.1 (inj e.0 x (q ∙ same)))) e.1 all) m
        h

  other_set :
      ¬ (by_other ≡ k) → (ms : MonitorSet) → All (P by_other) ms → All (Left k c s i P by_other) ms
  other_set other ms h = All-map _ _ (λ it p. (p, λ q. absurd (other q))) ms h

module _ (P : IndexKey → MonitorItem → Type 0) (c : ℕ) (s : Bytes) (i : ℕ) (ix : Index)
    (r : AreRising ix) (h : Throughout P ix) where
  remove_id : (b : Bytes) → has_at (by_id b) c s i ix ≡ true → Removes P (by_id b) c s i ix
  unfolding erase_key items_at
  remove_id b there =
      let (m, run, r', all, stays, up) =
        erase_item-Erased byte_order b c s i (λ x. P (by_id x)) ix.all_ids r.ids h.ids there in
      (
        record ix { all_ids = m },
        rw run refl,
        record { ids = r'; authors = r.authors; tags = r.tags; kinds = r.kinds },
        record {
          ids = same_index P (by_id b) c s i ix byte_order by_id b m refl (λ x y e. cc) all;
          authors =
              other_index P (by_id b) c s i ix byte_order by_author ix.all_authors (λ x e. cc)
                h.authors;
          tags = other_index P (by_id b) c s i ix byte_order by_tag ix.all_tags (λ x e. cc) h.tags;
          kinds =
              other_index P (by_id b) c s i ix nat_order by_kind ix.all_kinds (λ x e. cc) h.kinds;
          others = other_set P (by_id b) c s i ix (λ e. cc) ix.all_others h.others;
        },
        kept m stays,
      )
    where
      kept :
          (m : Tree Bytes)
          → ((j : Bytes) (c' : ℕ) (s' : Bytes) (i' : ℕ)
              → ¬ ((b ≡ j) × (c ≡ c') × (s ≡ s') × (i ≡ i'))
              → has_at (by_id j) c' s' i' ix ≡ true
              → has_at (by_id j) c' s' i' (record ix { all_ids = m }) ≡ true)
          → (j : IndexKey) (c' : ℕ) (s' : Bytes) (i' : ℕ)
          → ¬ ((by_id b ≡ j) × (c ≡ c') × (s ≡ s') × (i ≡ i'))
          → has_at j c' s' i' ix ≡ true
          → has_at j c' s' i' (record ix { all_ids = m }) ≡ true
      kept m stays (by_id j) c' s' i' other q =
          stays j c' s' i'
            (λ (e, rest_c, rest_s, rest_i). other (ap by_id e, rest_c, rest_s, rest_i)) q
      kept m stays j c' s' i' other q = q

  remove_author :
      (b : Bytes) → has_at (by_author b) c s i ix ≡ true → Removes P (by_author b) c s i ix
  unfolding erase_key items_at
  remove_author b there =
      let (m, run, r', all, stays, up) =
        erase_item-Erased byte_order b c s i (λ x. P (by_author x)) ix.all_authors r.authors
          h.authors there in
      (
        record ix { all_authors = m },
        rw run refl,
        record { ids = r.ids; authors = r'; tags = r.tags; kinds = r.kinds },
        record {
          ids = other_index P (by_author b) c s i ix byte_order by_id ix.all_ids (λ x e. cc) h.ids;
          authors =
              same_index P (by_author b) c s i ix byte_order by_author b m refl (λ x y e. cc) all;
          tags =
              other_index P (by_author b) c s i ix byte_order by_tag ix.all_tags (λ x e. cc) h.tags;
          kinds =
              other_index P (by_author b) c s i ix nat_order by_kind ix.all_kinds (λ x e. cc)
                h.kinds;
          others = other_set P (by_author b) c s i ix (λ e. cc) ix.all_others h.others;
        },
        kept m stays,
      )
    where
      kept :
          (m : Tree Bytes)
          → ((j : Bytes) (c' : ℕ) (s' : Bytes) (i' : ℕ)
              → ¬ ((b ≡ j) × (c ≡ c') × (s ≡ s') × (i ≡ i'))
              → has_at (by_author j) c' s' i' ix ≡ true
              → has_at (by_author j) c' s' i' (record ix { all_authors = m }) ≡ true)
          → (j : IndexKey) (c' : ℕ) (s' : Bytes) (i' : ℕ)
          → ¬ ((by_author b ≡ j) × (c ≡ c') × (s ≡ s') × (i ≡ i'))
          → has_at j c' s' i' ix ≡ true
          → has_at j c' s' i' (record ix { all_authors = m }) ≡ true
      kept m stays (by_author j) c' s' i' other q =
          stays j c' s' i'
            (λ (e, rest_c, rest_s, rest_i). other (ap by_author e, rest_c, rest_s, rest_i)) q
      kept m stays j c' s' i' other q = q

  remove_tag : (t : Bytes) → has_at (by_tag t) c s i ix ≡ true → Removes P (by_tag t) c s i ix
  unfolding erase_key items_at
  remove_tag t there =
      let (m, run, r', all, stays, up) =
        erase_item-Erased byte_order t c s i (λ x. P (by_tag x)) ix.all_tags r.tags h.tags there in
      (
        record ix { all_tags = m },
        rw run refl,
        record { ids = r.ids; authors = r.authors; tags = r'; kinds = r.kinds },
        record {
          ids = other_index P (by_tag t) c s i ix byte_order by_id ix.all_ids (λ x e. cc) h.ids;
          authors =
              other_index P (by_tag t) c s i ix byte_order by_author ix.all_authors (λ x e. cc)
                h.authors;
          tags = same_index P (by_tag t) c s i ix byte_order by_tag t m refl (λ x y e. cc) all;
          kinds =
              other_index P (by_tag t) c s i ix nat_order by_kind ix.all_kinds (λ x e. cc) h.kinds;
          others = other_set P (by_tag t) c s i ix (λ e. cc) ix.all_others h.others;
        },
        kept m stays,
      )
    where
      kept :
          (m : Tree Bytes)
          → ((j : Bytes) (c' : ℕ) (s' : Bytes) (i' : ℕ)
              → ¬ ((t ≡ j) × (c ≡ c') × (s ≡ s') × (i ≡ i'))
              → has_at (by_tag j) c' s' i' ix ≡ true
              → has_at (by_tag j) c' s' i' (record ix { all_tags = m }) ≡ true)
          → (j : IndexKey) (c' : ℕ) (s' : Bytes) (i' : ℕ)
          → ¬ ((by_tag t ≡ j) × (c ≡ c') × (s ≡ s') × (i ≡ i'))
          → has_at j c' s' i' ix ≡ true
          → has_at j c' s' i' (record ix { all_tags = m }) ≡ true
      kept m stays (by_tag j) c' s' i' other q =
          stays j c' s' i'
            (λ (e, rest_c, rest_s, rest_i). other (ap by_tag e, rest_c, rest_s, rest_i)) q
      kept m stays j c' s' i' other q = q

  remove_kind : (n : ℕ) → has_at (by_kind n) c s i ix ≡ true → Removes P (by_kind n) c s i ix
  unfolding erase_key items_at
  remove_kind n there =
      let (m, run, r', all, stays, up) =
        erase_item-Erased nat_order n c s i (λ x. P (by_kind x)) ix.all_kinds r.kinds h.kinds
          there in
      (
        record ix { all_kinds = m },
        rw run refl,
        record { ids = r.ids; authors = r.authors; tags = r.tags; kinds = r' },
        record {
          ids = other_index P (by_kind n) c s i ix byte_order by_id ix.all_ids (λ x e. cc) h.ids;
          authors =
              other_index P (by_kind n) c s i ix byte_order by_author ix.all_authors (λ x e. cc)
                h.authors;
          tags =
              other_index P (by_kind n) c s i ix byte_order by_tag ix.all_tags (λ x e. cc) h.tags;
          kinds = same_index P (by_kind n) c s i ix nat_order by_kind n m refl (λ x y e. cc) all;
          others = other_set P (by_kind n) c s i ix (λ e. cc) ix.all_others h.others;
        },
        kept m stays,
      )
    where
      kept :
          (m : Tree ℕ)
          → ((j : ℕ) (c' : ℕ) (s' : Bytes) (i' : ℕ)
              → ¬ ((n ≡ j) × (c ≡ c') × (s ≡ s') × (i ≡ i'))
              → has_at (by_kind j) c' s' i' ix ≡ true
              → has_at (by_kind j) c' s' i' (record ix { all_kinds = m }) ≡ true)
          → (j : IndexKey) (c' : ℕ) (s' : Bytes) (i' : ℕ)
          → ¬ ((by_kind n ≡ j) × (c ≡ c') × (s ≡ s') × (i ≡ i'))
          → has_at j c' s' i' ix ≡ true
          → has_at j c' s' i' (record ix { all_kinds = m }) ≡ true
      kept m stays (by_kind j) c' s' i' other q =
          stays j c' s' i'
            (λ (e, rest_c, rest_s, rest_i). other (ap by_kind e, rest_c, rest_s, rest_i)) q
      kept m stays j c' s' i' other q = q

  remove_other : Removes P by_other c s i ix
  unfolding erase_key items_at
  remove_other = (
    record ix { all_others = remove_item c s i ix.all_others },
    refl,
    record { ids = r.ids; authors = r.authors; tags = r.tags; kinds = r.kinds },
    record {
      ids = other_index P by_other c s i ix byte_order by_id ix.all_ids (λ x e. cc) h.ids;
      authors =
          other_index P by_other c s i ix byte_order by_author ix.all_authors (λ x e. cc) h.authors;
      tags = other_index P by_other c s i ix byte_order by_tag ix.all_tags (λ x e. cc) h.tags;
      kinds = other_index P by_other c s i ix nat_order by_kind ix.all_kinds (λ x e. cc) h.kinds;
      others =
          All-map _ _ (λ it p. (p.0, λ e. p.1)) (remove_item c s i ix.all_others)
            (All-remove_item (P by_other) c s i ix.all_others h.others);
    },
    kept,
  )
    where
      kept :
          (j : IndexKey) (c' : ℕ) (s' : Bytes) (i' : ℕ)
          → ¬ ((by_other ≡ j) × (c ≡ c') × (s ≡ s') × (i ≡ i'))
          → has_at j c' s' i' ix ≡ true
          → has_at j c' s' i' (record ix { all_others = remove_item c s i ix.all_others }) ≡ true
      kept by_other c' s' i' other q =
          has_item-remove_item c s i c' s' i' ix.all_others
            (λ (rest_c, rest_s, rest_i). other (refl, rest_c, rest_s, rest_i)) q
      kept j c' s' i' other q = q

  -- The erasure of a filter that stands under the key succeeds, and takes nothing else away.
  pub erase_key-Removes : (k : IndexKey) → has_at k c s i ix ≡ true → Removes P k c s i ix
  erase_key-Removes (by_id b) there = remove_id b there
  erase_key-Removes (by_author b) there = remove_author b there
  erase_key-Removes (by_tag t) there = remove_tag t there
  erase_key-Removes (by_kind n) there = remove_kind n there
  erase_key-Removes by_other there = remove_other
