-- ===== src/Monitors/Rounds.antt =====
-- One call of processMonitorsExact or processMonitorSet in ActiveMonitors::process of
-- src/ActiveMonitors.h settles the filters that have its key.
use strfry.Prelude.{ℕ, ◌≡◌, refl, some, arith, All, All-map, ok}
use strfry.Prelude.Bytes.{Bytes}
use strfry.PackedEvent.{Lmdb}
use strfry.PackedEvent.RoundTrip.{EventData, IsPackable, view_of}
use strfry.Monitors.Items.{MonitorItem, MonitorSet, has_item}
use strfry.Monitors.Trees.{KeyOrder, Tree, AllItems, set_of}
use strfry.Monitors.Walking.{walk_lem}
use strfry.Monitors.Keys.{IndexKey, by_id, by_author, by_tag, by_kind, by_other}
use strfry.Monitors.Index.{Index, nat_order, byte_order, items_at, Throughout, AreRising, has_at}
use strfry.Monitors.Conns.{Monitor, Monitors}
use strfry.Monitors.Operations.{Progress, visit_set, process_key}
use strfry.Monitors.Valid.{IsGood}
use strfry.Monitors.Telling.{IsTelling, Later, IsWaiting, IsSettled, IsWaiting-Later}
use strfry.Monitors.Visiting.{visit_set_lem}

module _ ⦃lmdb : Lmdb⦄ (max_subs e : ℕ) (d : EventData) (packable : IsPackable d) (mons : Monitors)
    (good : (c : ℕ) (s : Bytes) (m : Monitor) → mons c s ≡ some m → IsGood c s m) where
  abbrev Tell : Progress → Type 0
  Tell = IsTelling max_subs e d packable mons good

  abbrev Wait : Progress → IndexKey → MonitorItem → Type 0
  Wait = IsWaiting max_subs e d packable mons good

  abbrev Settle : Progress → IndexKey → MonitorItem → Type 0
  Settle = IsSettled max_subs e d packable mons good

  abbrev Grow : Progress → Progress → Type 0
  Grow = Later max_subs e d packable mons good

  pub record Ready (p : Progress) (ix : Index) : Type 0 where
    pub telling : IsTelling max_subs e d packable mons good p
    pub rising : AreRising ix
    pub waiting : Throughout (IsWaiting max_subs e d packable mons good p) ix

  abbrev pub Round : IndexKey → Index → Progress → Type 0
  Round k ix p =
      (ix' : Index) × (p' : Progress) × (process_key e (view_of d) k (ix, p) ≡ ok (ix', p'))
      × Ready p' ix'
      × Later max_subs e d packable mons good p p'
      × All (IsSettled max_subs e d packable mons good p' k) (items_at k ix')
      × ((j : IndexKey) (c : ℕ) (s : Bytes) (i : ℕ) → has_at j c s i ix' ≡ has_at j c s i ix)

  Grow-set :
      (p p' : Progress) (k : IndexKey) (ms : MonitorSet)
      → Grow p p'
      → All (Wait p k) ms
      → All (Wait p' k) ms
  Grow-set p p' k ms le h =
      All-map (Wait p k) (Wait p' k)
        (λ it. IsWaiting-Later max_subs e d packable mons good p p' k it le) ms h

  Grow-tree :
      (p p' : Progress) {K : Type 0} (o : KeyOrder K) (as_key : K → IndexKey) (m : Tree K)
      → Grow p p'
      → AllItems o (λ x. Wait p (as_key x)) m
      → AllItems o (λ x. Wait p' (as_key x)) m
  Grow-tree p p' o as_key m le h = All-map _ _ (λ x. Grow-set p p' (as_key x.0) x.1 le) m h

  Round-id : (b : Bytes) (ix : Index) (p : Progress) → Ready p ix → Round (by_id b) ix p
  unfolding process_key items_at
  Round-id b ix p r =
      let (m, p', going, run, t, grows, w, q, has, rising, up) =
        walk_lem byte_order (visit_set e (view_of d)) Tell Grow (λ s j. Wait s (by_id j))
          (λ s j. Settle s (by_id j))
          (λ j ms s. visit_set_lem max_subs e d packable mons good (by_id j) ms s)
          (λ a x y. omega arith)
          (λ a b j it le. IsWaiting-Later max_subs e d packable mons good a b (by_id j) it le) b
          ix.all_ids p r.rising.ids r.telling r.waiting.ids in
      (
        record ix { all_ids = m },
        p',
        rw run refl,
        record {
          telling = t;
          rising = record {
            ids = rising;
            authors = r.rising.authors;
            tags = r.rising.tags;
            kinds = r.rising.kinds;
          };
          waiting = record {
            ids = w;
            authors = Grow-tree p p' byte_order by_author ix.all_authors grows r.waiting.authors;
            tags = Grow-tree p p' byte_order by_tag ix.all_tags grows r.waiting.tags;
            kinds = Grow-tree p p' nat_order by_kind ix.all_kinds grows r.waiting.kinds;
            others = Grow-set p p' by_other ix.all_others grows r.waiting.others;
          };
        },
        grows,
        q,
        kept m has,
      )
    where
      kept :
          (m : Tree Bytes)
          → ((j : Bytes) (c : ℕ) (s : Bytes) (i : ℕ)
              → has_item c s i (set_of byte_order j m)
                ≡ has_item c s i (set_of byte_order j ix.all_ids))
          → (j : IndexKey) (c : ℕ) (s : Bytes) (i : ℕ)
          → has_at j c s i (record ix { all_ids = m }) ≡ has_at j c s i ix
      kept m has (by_id j) c s i = has j c s i
      kept m has j c s i = refl

  Round-author : (b : Bytes) (ix : Index) (p : Progress) → Ready p ix → Round (by_author b) ix p
  unfolding process_key items_at
  Round-author b ix p r =
      let (m, p', going, run, t, grows, w, q, has, rising, up) =
        walk_lem byte_order (visit_set e (view_of d)) Tell Grow (λ s j. Wait s (by_author j))
          (λ s j. Settle s (by_author j))
          (λ j ms s. visit_set_lem max_subs e d packable mons good (by_author j) ms s)
          (λ a x y. omega arith)
          (λ a b j it le. IsWaiting-Later max_subs e d packable mons good a b (by_author j) it le) b
          ix.all_authors p r.rising.authors r.telling r.waiting.authors in
      (
        record ix { all_authors = m },
        p',
        rw run refl,
        record {
          telling = t;
          rising = record {
            ids = r.rising.ids;
            authors = rising;
            tags = r.rising.tags;
            kinds = r.rising.kinds;
          };
          waiting = record {
            ids = Grow-tree p p' byte_order by_id ix.all_ids grows r.waiting.ids;
            authors = w;
            tags = Grow-tree p p' byte_order by_tag ix.all_tags grows r.waiting.tags;
            kinds = Grow-tree p p' nat_order by_kind ix.all_kinds grows r.waiting.kinds;
            others = Grow-set p p' by_other ix.all_others grows r.waiting.others;
          };
        },
        grows,
        q,
        kept m has,
      )
    where
      kept :
          (m : Tree Bytes)
          → ((j : Bytes) (c : ℕ) (s : Bytes) (i : ℕ)
              → has_item c s i (set_of byte_order j m)
                ≡ has_item c s i (set_of byte_order j ix.all_authors))
          → (j : IndexKey) (c : ℕ) (s : Bytes) (i : ℕ)
          → has_at j c s i (record ix { all_authors = m }) ≡ has_at j c s i ix
      kept m has (by_author j) c s i = has j c s i
      kept m has j c s i = refl

  Round-tag : (t : Bytes) (ix : Index) (p : Progress) → Ready p ix → Round (by_tag t) ix p
  unfolding process_key items_at
  Round-tag t ix p r =
      let (m, p', going, run, t, grows, w, q, has, rising, up) =
        walk_lem byte_order (visit_set e (view_of d)) Tell Grow (λ s j. Wait s (by_tag j))
          (λ s j. Settle s (by_tag j))
          (λ j ms s. visit_set_lem max_subs e d packable mons good (by_tag j) ms s)
          (λ a x y. omega arith)
          (λ a b j it le. IsWaiting-Later max_subs e d packable mons good a b (by_tag j) it le) t
          ix.all_tags p r.rising.tags r.telling r.waiting.tags in
      (
        record ix { all_tags = m },
        p',
        rw run refl,
        record {
          telling = t;
          rising = record {
            ids = r.rising.ids;
            authors = r.rising.authors;
            tags = rising;
            kinds = r.rising.kinds;
          };
          waiting = record {
            ids = Grow-tree p p' byte_order by_id ix.all_ids grows r.waiting.ids;
            authors = Grow-tree p p' byte_order by_author ix.all_authors grows r.waiting.authors;
            tags = w;
            kinds = Grow-tree p p' nat_order by_kind ix.all_kinds grows r.waiting.kinds;
            others = Grow-set p p' by_other ix.all_others grows r.waiting.others;
          };
        },
        grows,
        q,
        kept m has,
      )
    where
      kept :
          (m : Tree Bytes)
          → ((j : Bytes) (c : ℕ) (s : Bytes) (i : ℕ)
              → has_item c s i (set_of byte_order j m)
                ≡ has_item c s i (set_of byte_order j ix.all_tags))
          → (j : IndexKey) (c : ℕ) (s : Bytes) (i : ℕ)
          → has_at j c s i (record ix { all_tags = m }) ≡ has_at j c s i ix
      kept m has (by_tag j) c s i = has j c s i
      kept m has j c s i = refl

  Round-kind : (n : ℕ) (ix : Index) (p : Progress) → Ready p ix → Round (by_kind n) ix p
  unfolding process_key items_at
  Round-kind n ix p r =
      let (m, p', going, run, t, grows, w, q, has, rising, up) =
        walk_lem nat_order (visit_set e (view_of d)) Tell Grow (λ s j. Wait s (by_kind j))
          (λ s j. Settle s (by_kind j))
          (λ j ms s. visit_set_lem max_subs e d packable mons good (by_kind j) ms s)
          (λ a x y. omega arith)
          (λ a b j it le. IsWaiting-Later max_subs e d packable mons good a b (by_kind j) it le) n
          ix.all_kinds p r.rising.kinds r.telling r.waiting.kinds in
      (
        record ix { all_kinds = m },
        p',
        rw run refl,
        record {
          telling = t;
          rising = record {
            ids = r.rising.ids;
            authors = r.rising.authors;
            tags = r.rising.tags;
            kinds = rising;
          };
          waiting = record {
            ids = Grow-tree p p' byte_order by_id ix.all_ids grows r.waiting.ids;
            authors = Grow-tree p p' byte_order by_author ix.all_authors grows r.waiting.authors;
            tags = Grow-tree p p' byte_order by_tag ix.all_tags grows r.waiting.tags;
            kinds = w;
            others = Grow-set p p' by_other ix.all_others grows r.waiting.others;
          };
        },
        grows,
        q,
        kept m has,
      )
    where
      kept :
          (m : Tree ℕ)
          → ((j : ℕ) (c : ℕ) (s : Bytes) (i : ℕ)
              → has_item c s i (set_of nat_order j m)
                ≡ has_item c s i (set_of nat_order j ix.all_kinds))
          → (j : IndexKey) (c : ℕ) (s : Bytes) (i : ℕ)
          → has_at j c s i (record ix { all_kinds = m }) ≡ has_at j c s i ix
      kept m has (by_kind j) c s i = has j c s i
      kept m has j c s i = refl

  Round-other : (ix : Index) (p : Progress) → Ready p ix → Round by_other ix p
  unfolding process_key items_at
  Round-other ix p r =
      let (ms, p', run, t, grows, w, q, has) =
        visit_set_lem max_subs e d packable mons good by_other ix.all_others p r.telling
          r.waiting.others in
      (
        record ix { all_others = ms },
        p',
        rw run refl,
        record {
          telling = t;
          rising = record {
            ids = r.rising.ids;
            authors = r.rising.authors;
            tags = r.rising.tags;
            kinds = r.rising.kinds;
          };
          waiting = record {
            ids = Grow-tree p p' byte_order by_id ix.all_ids grows r.waiting.ids;
            authors = Grow-tree p p' byte_order by_author ix.all_authors grows r.waiting.authors;
            tags = Grow-tree p p' byte_order by_tag ix.all_tags grows r.waiting.tags;
            kinds = Grow-tree p p' nat_order by_kind ix.all_kinds grows r.waiting.kinds;
            others = w;
          };
        },
        grows,
        q,
        kept ms has,
      )
    where
      kept :
          (ms : MonitorSet)
          → ((c : ℕ) (s : Bytes) (i : ℕ) → has_item c s i ms ≡ has_item c s i ix.all_others)
          → (j : IndexKey) (c : ℕ) (s : Bytes) (i : ℕ)
          → has_at j c s i (record ix { all_others = ms }) ≡ has_at j c s i ix
      kept ms has by_other c s i = has c s i
      kept ms has j c s i = refl

  pub process_key-Round : (k : IndexKey) (ix : Index) (p : Progress) → Ready p ix → Round k ix p
  process_key-Round (by_id b) = Round-id b
  process_key-Round (by_author b) = Round-author b
  process_key-Round (by_tag t) = Round-tag t
  process_key-Round (by_kind n) = Round-kind n
  process_key-Round by_other = Round-other
