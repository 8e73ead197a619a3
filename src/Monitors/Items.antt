-- ===== src/Monitors/Items.antt =====
-- MonitorItem and MonitorSet of src/ActiveMonitors.h. A Monitor stands in `conns` under a connection
-- and a name, and that is what a pointer to it is here; a pointer to one of its filters is the
-- position of the filter besides.
use strfry.Prelude.{
  ℕ, ◌≡◌, refl, sym, ◌∙◌, inl, inr, Bool, true, false, ◌&&◌, List, [], ◌∷◌, arith, ◌==◌,
  if◌then◌else◌, Bool-cases, if-cases, any, All,
}
use strfry.Prelude.Bytes.{Bytes}
use strfry.ConnMap.{same_sub, same_sub_refl, same_sub→eq}

-- An entry of a MonitorSet: its key, the filter, is the monitor (which is `mon` of the value too) and
-- the filter's position in the monitor's group.
pub record MonitorItem : Type 0 where
  pub conn_id : ℕ
  pub sub_id : Bytes
  pub filter : ℕ
  pub latest_event_id : ℕ

abbrev pub MonitorSet : Type 0
MonitorSet = List MonitorItem

unfoldable pub is_filter : ℕ → Bytes → ℕ → MonitorItem → Bool
is_filter c s i it = same_sub c s it.conn_id it.sub_id && i == it.filter

unfoldable pub has_item : ℕ → Bytes → ℕ → MonitorSet → Bool
has_item c s i ms = any (is_filter c s i) ms

-- try_emplace: a filter that is there keeps its item.
unfoldable pub add_item : MonitorItem → MonitorSet → MonitorSet
add_item it ms = if has_item it.conn_id it.sub_id it.filter ms then ms else it ∷ ms

unfoldable pub remove_item : ℕ → Bytes → ℕ → MonitorSet → MonitorSet
remove_item c s i [] = []
remove_item c s i (it ∷ ms) =
    let rest = remove_item c s i ms in if is_filter c s i it then rest else it ∷ rest

pub is_filter→eq :
    (c : ℕ) (s : Bytes) (i : ℕ) (it : MonitorItem)
    → is_filter c s i it ≡ true
    → (c ≡ it.conn_id) × (s ≡ it.sub_id) × (i ≡ it.filter)
unfolding is_filter
is_filter→eq c s i it h =
    let (p, q) = same_sub→eq c s it.conn_id it.sub_id (ground arith) in (p, q, ground arith)

pub is_filter_self : (it : MonitorItem) → is_filter it.conn_id it.sub_id it.filter it ≡ true
unfolding is_filter
is_filter_self it = ground (arith, same_sub_refl it.conn_id it.sub_id)

pub All-add_item :
    (P : MonitorItem → Type 0) (it : MonitorItem) (ms : MonitorSet)
    → P it
    → All P ms
    → All P (add_item it ms)
unfolding add_item
All-add_item P it ms p h =
    if-cases (λ l. All P l) (has_item it.conn_id it.sub_id it.filter ms) ms (it ∷ ms) (λ e. h)
      (λ e. (p, h))

pub has_item-add_item_self :
    (it : MonitorItem) (ms : MonitorSet)
    → has_item it.conn_id it.sub_id it.filter (add_item it ms) ≡ true
unfolding add_item has_item
has_item-add_item_self it ms =
    if-cases (λ l. has_item it.conn_id it.sub_id it.filter l ≡ true)
      (has_item it.conn_id it.sub_id it.filter ms) ms (it ∷ ms) (λ e. e)
      (λ e. rw (is_filter_self it) refl)

pub has_item-add_item :
    (it : MonitorItem) (c : ℕ) (s : Bytes) (i : ℕ) (ms : MonitorSet)
    → has_item c s i ms ≡ true
    → has_item c s i (add_item it ms) ≡ true
unfolding add_item has_item
has_item-add_item it c s i ms h =
    if-cases (λ l. has_item c s i l ≡ true) (has_item it.conn_id it.sub_id it.filter ms) ms
      (it ∷ ms) (λ e. h) (λ e. ground arith)

pub All-remove_item :
    (P : MonitorItem → Type 0) (c : ℕ) (s : Bytes) (i : ℕ) (ms : MonitorSet)
    → All P ms
    → All (λ it. P it × (is_filter c s i it ≡ false)) (remove_item c s i ms)
unfolding remove_item
All-remove_item P c s i [] h = tt
All-remove_item P c s i (it ∷ ms) h = elim (Bool-cases (is_filter c s i it)) [
  | inl y ↦ rw y (All-remove_item P c s i ms h.1)
  | inr n ↦ rw n ((h.0, n), All-remove_item P c s i ms h.1)
]

pub has_item-remove_item :
    (c : ℕ) (s : Bytes) (i : ℕ) (c' : ℕ) (s' : Bytes) (i' : ℕ) (ms : MonitorSet)
    → ¬ ((c ≡ c') × (s ≡ s') × (i ≡ i'))
    → has_item c' s' i' ms ≡ true
    → has_item c' s' i' (remove_item c s i ms) ≡ true
unfolding remove_item has_item
has_item-remove_item c s i c' s' i' [] other h = h
has_item-remove_item c s i c' s' i' (it ∷ ms) other h = elim (Bool-cases (is_filter c s i it)) [
  | inr n ↦ rw n (ground (arith, has_item-remove_item c s i c' s' i' ms other))
  | inl y ↦ rw y (elim (Bool-cases (is_filter c' s' i' it)) [
    | inr n ↦ has_item-remove_item c s i c' s' i' ms other (ground arith)
    | inl y' ↦
        let (p, q, r) = is_filter→eq c s i it y in
        let (p', q', r') = is_filter→eq c' s' i' it y' in
        absurd (other (p ∙ sym p', q ∙ sym q', r ∙ sym r'))
  ])
]
