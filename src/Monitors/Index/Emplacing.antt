-- ===== src/Monitors/Index/Emplacing.antt =====
-- A round of installLookups in src/ActiveMonitors.h: the items that the indices have afterwards.
use strfry.Prelude.{ℕ, ◌≡◌, true}
use strfry.Prelude.Bytes.{Bytes}
use strfry.Monitors.Items.{MonitorItem, All-add_item, has_item-add_item_self, has_item-add_item}
use strfry.Monitors.Trees.{
  emplace_item-Rising, All-emplace_item, has_item-emplace_item_self, has_item-emplace_item,
}
use strfry.Monitors.Keys.{IndexKey, by_id, by_author, by_tag, by_kind, by_other}
use strfry.Monitors.Index.{
  Index, nat_order, byte_order, emplace_key, items_at, Throughout, AreRising, has_at,
}

pub emplace_key-AreRising :
    (k : IndexKey) (it : MonitorItem) (ix : Index) → AreRising ix → AreRising (emplace_key k it ix)
unfolding emplace_key
emplace_key-AreRising (by_id b) it ix r = record {
  ids = emplace_item-Rising byte_order b it ix.all_ids r.ids;
  authors = r.authors;
  tags = r.tags;
  kinds = r.kinds;
}
emplace_key-AreRising (by_author b) it ix r = record {
  ids = r.ids;
  authors = emplace_item-Rising byte_order b it ix.all_authors r.authors;
  tags = r.tags;
  kinds = r.kinds;
}
emplace_key-AreRising (by_tag t) it ix r = record {
  ids = r.ids;
  authors = r.authors;
  tags = emplace_item-Rising byte_order t it ix.all_tags r.tags;
  kinds = r.kinds;
}
emplace_key-AreRising (by_kind n) it ix r = record {
  ids = r.ids;
  authors = r.authors;
  tags = r.tags;
  kinds = emplace_item-Rising nat_order n it ix.all_kinds r.kinds;
}
emplace_key-AreRising by_other it ix r = record {
  ids = r.ids;
  authors = r.authors;
  tags = r.tags;
  kinds = r.kinds;
}

pub Throughout-emplace_key :
    (P : IndexKey → MonitorItem → Type 0) (k : IndexKey) (it : MonitorItem) (ix : Index)
    → P k it
    → Throughout P ix
    → Throughout P (emplace_key k it ix)
unfolding emplace_key
Throughout-emplace_key P (by_id b) it ix p h = record {
  ids = All-emplace_item byte_order (λ x. P (by_id x)) b it ix.all_ids p h.ids;
  authors = h.authors;
  tags = h.tags;
  kinds = h.kinds;
  others = h.others;
}
Throughout-emplace_key P (by_author b) it ix p h = record {
  ids = h.ids;
  authors = All-emplace_item byte_order (λ x. P (by_author x)) b it ix.all_authors p h.authors;
  tags = h.tags;
  kinds = h.kinds;
  others = h.others;
}
Throughout-emplace_key P (by_tag t) it ix p h = record {
  ids = h.ids;
  authors = h.authors;
  tags = All-emplace_item byte_order (λ x. P (by_tag x)) t it ix.all_tags p h.tags;
  kinds = h.kinds;
  others = h.others;
}
Throughout-emplace_key P (by_kind n) it ix p h = record {
  ids = h.ids;
  authors = h.authors;
  tags = h.tags;
  kinds = All-emplace_item nat_order (λ x. P (by_kind x)) n it ix.all_kinds p h.kinds;
  others = h.others;
}
Throughout-emplace_key P by_other it ix p h = record {
  ids = h.ids;
  authors = h.authors;
  tags = h.tags;
  kinds = h.kinds;
  others = All-add_item (P by_other) it ix.all_others p h.others;
}

pub has_at-emplace_key_self :
    (k : IndexKey) (it : MonitorItem) (ix : Index)
    → has_at k it.conn_id it.sub_id it.filter (emplace_key k it ix) ≡ true
unfolding emplace_key items_at
has_at-emplace_key_self (by_id b) it ix = has_item-emplace_item_self byte_order b it ix.all_ids
has_at-emplace_key_self (by_author b) it ix =
    has_item-emplace_item_self byte_order b it ix.all_authors
has_at-emplace_key_self (by_tag t) it ix = has_item-emplace_item_self byte_order t it ix.all_tags
has_at-emplace_key_self (by_kind n) it ix = has_item-emplace_item_self nat_order n it ix.all_kinds
has_at-emplace_key_self by_other it ix = has_item-add_item_self it ix.all_others

pub has_at-emplace_key :
    (k : IndexKey) (it : MonitorItem) (j : IndexKey) (c : ℕ) (s : Bytes) (i : ℕ) (ix : Index)
    → AreRising ix
    → has_at j c s i ix ≡ true
    → has_at j c s i (emplace_key k it ix) ≡ true
unfolding emplace_key items_at
has_at-emplace_key (by_id b) it (by_id x) c s i ix r h =
    has_item-emplace_item byte_order b it x c s i ix.all_ids r.ids h
has_at-emplace_key (by_author b) it (by_author x) c s i ix r h =
    has_item-emplace_item byte_order b it x c s i ix.all_authors r.authors h
has_at-emplace_key (by_tag t) it (by_tag x) c s i ix r h =
    has_item-emplace_item byte_order t it x c s i ix.all_tags r.tags h
has_at-emplace_key (by_kind n) it (by_kind x) c s i ix r h =
    has_item-emplace_item nat_order n it x c s i ix.all_kinds r.kinds h
has_at-emplace_key by_other it by_other c s i ix r h = has_item-add_item it c s i ix.all_others h
has_at-emplace_key k it j c s i ix r h = h
