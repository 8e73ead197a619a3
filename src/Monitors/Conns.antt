-- ===== src/Monitors/Conns.antt =====
-- `conns` of src/ActiveMonitors.h: the monitors, by connection and name. A SubId is hashed and
-- compared by its text, so that the text is the key.
use strfry.Prelude.{
  ℕ, ◌≡◌, refl, inl, inr, Option, none, some, List, arith, ◌==◌, if◌then◌else◌, ==_iff, Bool-cases,
}
use strfry.Prelude.Bytes.{Bytes, bytes_eq, bytes_eq→eq}
use strfry.HashMap.{
  nat_keys, byte_keys, eq_flip, map_option, get, adjust, get-adjust_self, get-adjust,
}
use strfry.ConnMap.{find_in, find_sub, same_sub}
use strfry.Subscriptions.Subscription.{Subscription}

pub record Monitor : Type 0 where
  pub sub : Subscription

abbrev pub ConnMonitor : Type 0
ConnMonitor = List (Bytes × Monitor)

abbrev pub Conns : Type 0
Conns = List (ℕ × ConnMonitor)

-- item.mon->sub.latestEventId = …
abbrev pub touch : ℕ → Monitor → Monitor
touch n m = record { sub = record m.sub { latest_event_id = n } }

unfoldable pub set_latest : ℕ → Bytes → ℕ → Conns → Conns
set_latest c s n conns = adjust nat_keys c (adjust byte_keys s (touch n)) conns

-- The view of the two maps as one function.
abbrev pub Monitors : Type 0
Monitors = ℕ → Bytes → Option Monitor

abbrev pub monitors : Conns → Monitors
monitors conns c s = find_in c s conns

find_sub-adjust :
    (g : Monitor → Monitor) (s s' : Bytes) (o : Option ConnMonitor)
    → find_sub s' (map_option (adjust byte_keys s g) o)
      ≡ (if bytes_eq s s' then map_option g (find_sub s' o) else find_sub s' o)
find_sub-adjust g s s' none = ground arith
find_sub-adjust g s s' (some ms) = elim (Bool-cases (bytes_eq s s')) [
  | inl y ↦ rw (y, bytes_eq→eq s s' y) (get-adjust_self byte_keys s' g ms)
  | inr n ↦ rw n (get-adjust byte_keys s g s' ms (eq_flip byte_keys s s' n))
]

pub find_in-set_latest :
    (c : ℕ) (s : Bytes) (n : ℕ) (c' : ℕ) (s' : Bytes) (conns : Conns)
    → find_in c' s' (set_latest c s n conns) ≡ (
        if same_sub c s c' s'
        then map_option (touch n) (find_in c' s' conns)
        else find_in c' s' conns)
unfolding find_in set_latest same_sub
find_in-set_latest c s n c' s' conns = elim (Bool-cases (c == c')) [
  | inl y ↦
      rw (y, (==_iff c c').0 y, get-adjust_self nat_keys c' (adjust byte_keys s (touch n)) conns)
        (find_sub-adjust (touch n) s s' (get nat_keys c' conns))
  | inr no_ ↦
      rw (no_, get-adjust nat_keys c (adjust byte_keys s (touch n)) c' conns (ground arith)) refl
]
