-- ===== src/Monitors/Index.antt =====
-- The five indices of src/ActiveMonitors.h, and what one round of the loops of installLookups and
-- uninstallLookups does to them.
pub mod Emplacing
pub mod Removing
use strfry.Prelude.{
  ℕ, ◌≡◌, ◌⊎◌, inl, inr, Bool, true, false, arith, ltb, ◌==◌, ==_iff, Bool-cases, All, All-map,
  Result, ok, ◌>>=◌, ◌>>◌,
}
use strfry.Prelude.Bytes.{
  Bytes, bytes_eq, bytes_lt, bytes_eq_refl, bytes_eq→eq, bytes_lt_irrefl, bytes_lt_trans,
  bytes_lt_total,
}
use strfry.HashMap.{==_self}
use strfry.Monitors.Items.{MonitorItem, MonitorSet, has_item, add_item, remove_item}
use strfry.Monitors.Trees.{KeyOrder, Tree, Rising, AllItems, emplace_item, erase_item, set_of}
use strfry.Monitors.Keys.{IndexKey, by_id, by_author, by_tag, by_kind, by_other}

pub nat_lt_total : (a b : ℕ) → (ltb a b ≡ true) ⊎ ((a ≡ b) ⊎ (ltb b a ≡ true))
nat_lt_total a b = elim (Bool-cases (ltb a b)) [
  | inl y ↦ inl y
  | inr n ↦ elim (Bool-cases (ltb b a)) [ inl y ↦ inr (inr y) | inr n' ↦ inr (inl (ground arith)) ]
]

pub nat_lt_self : (a : ℕ) → ltb a a ≡ false
nat_lt_self a = ground arith

pub nat_lt_trans : (a b c : ℕ) → ltb a b ≡ true → ltb b c ≡ true → ltb a c ≡ true
nat_lt_trans a b c h k = ground arith

abbrev pub nat_order : KeyOrder ℕ
nat_order = record {
  lt = ltb;
  eq = λ a b. a == b;
  eq_self = ==_self;
  eq→path = λ a b. (==_iff a b).0;
  lt_self = nat_lt_self;
  lt_trans = nat_lt_trans;
  lt_total = nat_lt_total;
}

-- std::string and memcmp compare bytes as unsigned.
abbrev pub byte_order : KeyOrder Bytes
byte_order = record {
  lt = bytes_lt;
  eq = bytes_eq;
  eq_self = bytes_eq_refl;
  eq→path = bytes_eq→eq;
  lt_self = bytes_lt_irrefl;
  lt_trans = bytes_lt_trans;
  lt_total = bytes_lt_total;
}

pub record Index : Type 0 where
  pub all_ids : Tree Bytes
  pub all_authors : Tree Bytes
  pub all_tags : Tree Bytes
  pub all_kinds : Tree ℕ
  pub all_others : MonitorSet

unfoldable pub emplace_key : IndexKey → MonitorItem → Index → Index
emplace_key (by_id b) it ix = record ix { all_ids = emplace_item byte_order b it ix.all_ids }
emplace_key (by_author b) it ix = record ix {
  all_authors = emplace_item byte_order b it ix.all_authors;
}
emplace_key (by_tag t) it ix = record ix { all_tags = emplace_item byte_order t it ix.all_tags }
emplace_key (by_kind n) it ix = record ix { all_kinds = emplace_item nat_order n it ix.all_kinds }
emplace_key by_other it ix = record ix { all_others = add_item it ix.all_others }

unfoldable pub erase_key : IndexKey → ℕ → Bytes → ℕ → Index → Result Index
erase_key (by_id b) c s i ix = do
  m ← erase_item byte_order b c s i ix.all_ids
  ok (record ix { all_ids = m })
erase_key (by_author b) c s i ix = do
  m ← erase_item byte_order b c s i ix.all_authors
  ok (record ix { all_authors = m })
erase_key (by_tag t) c s i ix = do
  m ← erase_item byte_order t c s i ix.all_tags
  ok (record ix { all_tags = m })
erase_key (by_kind n) c s i ix = do
  m ← erase_item nat_order n c s i ix.all_kinds
  ok (record ix { all_kinds = m })
erase_key by_other c s i ix = ok (record ix { all_others = remove_item c s i ix.all_others })

unfoldable pub items_at : IndexKey → Index → MonitorSet
items_at (by_id b) ix = set_of byte_order b ix.all_ids
items_at (by_author b) ix = set_of byte_order b ix.all_authors
items_at (by_tag t) ix = set_of byte_order t ix.all_tags
items_at (by_kind n) ix = set_of nat_order n ix.all_kinds
items_at by_other ix = ix.all_others

-- Every item of every set.
pub record Throughout (P : IndexKey → MonitorItem → Type 0) (ix : Index) : Type 0 where
  pub ids : AllItems byte_order (λ b. P (by_id b)) ix.all_ids
  pub authors : AllItems byte_order (λ b. P (by_author b)) ix.all_authors
  pub tags : AllItems byte_order (λ t. P (by_tag t)) ix.all_tags
  pub kinds : AllItems nat_order (λ n. P (by_kind n)) ix.all_kinds
  pub others : All (P by_other) ix.all_others

pub record AreRising (ix : Index) : Type 0 where
  pub ids : Rising byte_order ix.all_ids
  pub authors : Rising byte_order ix.all_authors
  pub tags : Rising byte_order ix.all_tags
  pub kinds : Rising nat_order ix.all_kinds

abbrev pub has_at : IndexKey → ℕ → Bytes → ℕ → Index → Bool
has_at k c s i ix = has_item c s i (items_at k ix)

pub Throughout-map :
    (P Q : IndexKey → MonitorItem → Type 0) (ix : Index)
    → ((k : IndexKey) (it : MonitorItem) → P k it → Q k it)
    → Throughout P ix
    → Throughout Q ix
Throughout-map P Q ix f h = record {
  ids = All-map _ _ (λ e. All-map _ _ (f (by_id e.0)) e.1) ix.all_ids h.ids;
  authors = All-map _ _ (λ e. All-map _ _ (f (by_author e.0)) e.1) ix.all_authors h.authors;
  tags = All-map _ _ (λ e. All-map _ _ (f (by_tag e.0)) e.1) ix.all_tags h.tags;
  kinds = All-map _ _ (λ e. All-map _ _ (f (by_kind e.0)) e.1) ix.all_kinds h.kinds;
  others = All-map _ _ (f by_other) ix.all_others h.others;
}
