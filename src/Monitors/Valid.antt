-- ===== src/Monitors/Valid.antt =====
-- When the indices and the monitors of src/ActiveMonitors.h belong together.
use strfry.Prelude.{ℕ, ◌≡◌, subst, true, ◌||◌, some, List, leb, get_elem?, All}
use strfry.Prelude.Bytes.{Bytes}
use strfry.HashMap.{nat_keys, Values}
use strfry.Prelude.Distinct.{InList}
use strfry.ConnMap.{IsProper, find_in}
use strfry.Filters.Filter.{NostrFilter}
use strfry.Subscriptions.SubId.{sv}
use strfry.Monitors.Items.{MonitorItem}
use strfry.Monitors.Keys.{IndexKey}
use strfry.Monitors.Keys.Indexable.{IsIndexable, keys_of}
use strfry.Monitors.Index.{Index, Throughout, AreRising, has_at}
use strfry.Monitors.Conns.{Monitor, Monitors, monitors}
use strfry.Monitors.Operations.{ActiveMonitors}

abbrev pub filters_of : Monitor → List NostrFilter
filters_of m = m.sub.filter_group.filters

-- The filter at a position of a monitor has the key.
abbrev pub IsListed : IndexKey → Monitor → ℕ → Type 0
IsListed k m i = (f : NostrFilter) × (get_elem? (filters_of m) i ≡ some f) × InList k (keys_of f)

-- An item points to a filter that has the key, of a monitor that is there; it has seen no event
-- beyond `now`, unless its monitor has been told that it need not see that event.
abbrev pub IsSound : ℕ → Monitors → IndexKey → MonitorItem → Type 0
IsSound now mons k it =
    (m : Monitor) × (mons it.conn_id it.sub_id ≡ some m)
    × IsListed k m it.filter
    × ((leb it.latest_event_id now || leb it.latest_event_id m.sub.latest_event_id) ≡ true)

pub record Fits (now : ℕ) (mons : Monitors) (ix : Index) : Type 0 where
  pub rising : AreRising ix
  pub sound : Throughout (IsSound now mons) ix
  pub complete :
      (c : ℕ) (s : Bytes) (m : Monitor) (i : ℕ) (k : IndexKey)
      → mons c s ≡ some m
      → IsListed k m i
      → has_at k c s i ix ≡ true

-- A monitor that stands under a connection and a name.
pub record IsGood (c : ℕ) (s : Bytes) (m : Monitor) : Type 0 where
  pub indexable : All IsIndexable (filters_of m)
  pub conn_id : m.sub.conn_id ≡ c
  pub sub_id : sv m.sub.sub_id ≡ s

-- `max_subs` is the limit on the subscriptions of a connection, and `now` the last event that was
-- processed.
pub record IsValid (max_subs now : ℕ) (am : ActiveMonitors) : Type 0 where
  pub fits : Fits now (monitors am.conns) am.index
  pub good : (c : ℕ) (s : Bytes) (m : Monitor) → find_in c s am.conns ≡ some m → IsGood c s m
  pub proper : Values nat_keys (IsProper max_subs) am.conns

pub Fits-pointwise :
    (now : ℕ) (mons mons' : Monitors) (ix : Index)
    → ((c : ℕ) (s : Bytes) → mons c s ≡ mons' c s)
    → Fits now mons ix
    → Fits now mons' ix
Fits-pointwise now mons mons' ix same fits =
    subst (λ (q : Monitors). Fits now q ix) (λ t c s. same c s t) fits
