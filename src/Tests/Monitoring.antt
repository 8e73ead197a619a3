-- ===== src/Tests/Monitoring.antt =====
-- Subscriptions that come, are told of events, and go.
use strfry.Prelude.{
  ℕ, ◌≡◌, refl, sym, ◌∙◌, subst, ◌⊎◌, true, false, Bool, Option, none, some, [], ◌∷◌, arith, length,
  Result, ok, err, ap, if◌then◌else◌, ◌==◌,
}
use strfry.Prelude.Bytes.{Bytes, codes, bytes_eq, bytes_lt}
use strfry.HashMap.{nat_keys, get, emplace, adjust}
use strfry.ConnMap.{find_in, same_sub, without}
use strfry.PackedEvent.RoundTrip.{packed}
use strfry.Subscriptions.Tracker
use strfry.Monitors.Items
use strfry.Monitors.Trees
use strfry.Monitors.Keys
use strfry.Monitors.Index
use strfry.ConnMap
use strfry.Monitors.Operations
use strfry.Subscriptions.SubId.{sv}
use strfry.Subscriptions.Subscription.{Subscription, RecipientList}
use strfry.Subscriptions.Tracker.{EphemeralSubTracker}
use strfry.Monitors.Items.{MonitorItem, has_item}
use strfry.Monitors.Keys.{IndexKey, by_id}
use strfry.Monitors.Keys.Indexable.{IsIndexable}
use strfry.Monitors.Keys.Parsed.{nostr_filter-IsIndexable}
use strfry.Monitors.Conns.{Monitor, ConnMonitor, touch, monitors}
use strfry.Monitors.Operations.{ActiveMonitors, remove_sub, close_conn, add_sub, process}
use strfry.Monitors.Valid.{IsValid}
use strfry.Monitors.Subscribing.{add_sub-IsValid, remove_sub-IsValid, close_conn-IsValid}
use strfry.Monitors.Telling.{times_told, is_due}
use strfry.Monitors.Delivery.{process-recipients, recipients_of}
use strfry.Tests.World.{little_endian}
use strfry.Tests.Values.{json, hex}
use strfry.Tests.Filtering.{filter_obj, filter, nostr_filter-made, post, post-IsPackable}

abbrev pub nothing : ActiveMonitors
nothing = record {
  ephemeral_tracker = some (record { kind_refcounts = []; catch_all_count = 0 });
  conns = [];
  index = record { all_ids = []; all_authors = []; all_tags = []; all_kinds = []; all_others = [] };
}

pub nothing-IsValid : IsValid 20 5 nothing
unfolding find_in get
nothing-IsValid = record {
  fits = record {
    rising = record { ids = tt; authors = tt; tags = tt; kinds = tt };
    sound = record { ids = tt; authors = tt; tags = tt; kinds = tt; others = tt };
    complete = λ c s m i k found listed. absurd (ground arith);
  };
  good = λ c s m found. absurd (ground arith);
  proper = λ c ms there. absurd (ground arith);
}

pub filter-IsIndexable : IsIndexable filter
filter-IsIndexable = nostr_filter-IsIndexable json hex filter_obj 500 filter nostr_filter-made

abbrev pub feed : Subscription
feed = record {
  conn_id = 3;
  sub_id = record { buf = 4 ∷ codes "feed" };
  filter_group = record { filters = filter ∷ [] };
  count_only = false;
  latest_event_id = 5;
}

add_sub-IsValid_example :
    (am' : ActiveMonitors) × (accepted : Bool) × (add_sub 20 feed 5 nothing ≡ ok (am', accepted))
    × IsValid 20 5 am'
    × ((c : ℕ) (s : Bytes)
        → find_in c s am'.conns ≡ (
            if same_sub 3 (sv feed.sub_id) c s
            then (if accepted then some (record { sub = feed }) else none)
            else find_in c s nothing.conns))
    × ((accepted ≡ true)
        ⊎ ((ms : ConnMonitor) × (get nat_keys 3 am'.conns ≡ some ms) × (length ms ≡ 20)))
add_sub-IsValid_example = add_sub-IsValid 20 5 feed nothing nothing-IsValid (filter-IsIndexable, tt)

-- What addSub leaves behind.
abbrev pub watching : ActiveMonitors
watching = record nothing {
  conns = (3, (sv feed.sub_id, record { sub = feed }) ∷ []) ∷ [];
  index = record nothing.index {
    all_tags =
        (
          codes "tnostr",
          record { conn_id = 3; sub_id = sv feed.sub_id; filter = 0; latest_event_id = 5 } ∷ [],
        )
        ∷ (
          codes "tstrfry",
          record { conn_id = 3; sub_id = sv feed.sub_id; filter = 0; latest_event_id = 5 } ∷ [],
        )
        ∷ [];
  };
}

watching-made : add_sub 20 feed 5 nothing ≡ ok (watching, true)
unfolding add_sub remove_sub find_in get Operations.insert_sub ConnMap.open_conn emplace
    Operations.install_lookups Operations.places Keys.index_keys Operations.track ConnMap.emplace_in
    Operations.install_places Tracker.install adjust Keys.tag_keys Tracker.lookup_of Keys.values
    Index.emplace_key Trees.emplace_item bytes_eq bytes_lt Items.add_item
watching-made = refl

abbrev state_of : Result (ActiveMonitors × Bool) → ActiveMonitors
state_of (ok (am, accepted)) = am
state_of (err e) = nothing

pub watching-IsValid : IsValid 20 5 watching
watching-IsValid =
    let (am', accepted, run, v, view, full) =
      add_sub-IsValid 20 5 feed nothing nothing-IsValid (filter-IsIndexable, tt) in
    let same : ok (am', accepted) ≡ ok (watching, true) = sym run ∙ watching-made in
    let am_is : am' ≡ watching = ap state_of same in subst (IsValid 20 5) am_is v

remove_sub-IsValid_example :
    (am' : ActiveMonitors) × (remove_sub 3 (codes "feed") watching ≡ ok am')
    × IsValid 20 5 am'
    × ((c : ℕ) (s : Bytes)
        → find_in c s am'.conns ≡ without 3 (codes "feed") (monitors watching.conns) c s)
remove_sub-IsValid_example = remove_sub-IsValid 20 5 3 (codes "feed") watching watching-IsValid

close_conn-IsValid_example :
    (am' : ActiveMonitors) × (close_conn 3 watching ≡ ok am')
    × IsValid 20 5 am'
    × ((c : ℕ) (s : Bytes)
        → find_in c s am'.conns ≡ (if 3 == c then none else find_in c s watching.conns))
close_conn-IsValid_example = close_conn-IsValid 20 5 3 watching watching-IsValid

process-recipients_example :
    (am' : ActiveMonitors) × (told : Option (RecipientList × ℕ)) × (process 6 (packed post) watching
      ≡ ok (am', told))
    × IsValid 20 6 am'
    × ((told ≡ none) ⊎ ((rs : RecipientList) × (told ≡ some (rs, 6))))
    × ((c : ℕ) (s : Bytes) (m : Monitor)
        → find_in c s watching.conns ≡ some m
        → (times_told c s (recipients_of told) ≡ (if is_due 6 post m then 1 else 0))
          × (find_in c s am'.conns ≡ some (if is_due 6 post m then touch 6 m else m)))
    × ((c : ℕ) (s : Bytes)
        → find_in c s watching.conns ≡ none
        → (times_told c s (recipients_of told) ≡ 0) × (find_in c s am'.conns ≡ none))
process-recipients_example =
    process-recipients 20 5 6 post post-IsPackable watching watching-IsValid (omega arith)
