-- ===== src/Tests/Subscribing.antt =====
-- Names of subscriptions, and the tracker after a few filters.
use strfry.Prelude.{Error, err, ◌⊎◌, All}
use strfry.Prelude.{ℕ, ◌≤◌, ◌<◌, ◌≡◌, refl, true, some, [], ◌∷◌, arith, u64_mod, length, any, ok}
use strfry.Prelude.Bytes.{codes}
use strfry.Filters.Filter.{NostrFilter, init}
use strfry.Events.Kind.{is_ephemeral}
use strfry.Subscriptions.SubId.{SubId, IsPlain, sub_id, sv, sub_id-sv}
use strfry.Subscriptions.Tracker.{
  EphemeralSubTracker, has_count, has_subscribers_for_kind, lookup_of, install, uninstall,
}
use strfry.Subscriptions.Tracker.Counts.{refcount}
use strfry.Subscriptions.Tracker.Installed.{
  Tracks, occurs, share, total, is_counted, install-Tracks, uninstall-Tracks,
  has_subscribers_for_kind-any,
}

sub_id-sv_example :
    ((1 ≤ length (codes "feed:1"))
      × (length (codes "feed:1") ≤ 64)
      × All IsPlain (codes "feed:1")
      × ((s : SubId) × (sub_id (codes "feed:1") ≡ ok s) × (sv s ≡ codes "feed:1")))
    ⊎ (¬ (
          (1 ≤ length (codes "feed:1"))
          × (length (codes "feed:1") ≤ 64)
          × All IsPlain (codes "feed:1"))
        × ((e : Error) × (sub_id (codes "feed:1") ≡ err e)))
sub_id-sv_example = sub_id-sv (codes "feed:1")

abbrev presence : NostrFilter
presence = record init { kinds = some (record { items = 20001 ∷ 20002 ∷ [] }) }

abbrev tracker : EphemeralSubTracker
tracker = record { kind_refcounts = (20001, 1) ∷ (20002, 1) ∷ []; catch_all_count = 1 }

total-small : (k : ℕ) → total (share k) (presence ∷ []) < u64_mod
unfolding total lookup_of occurs
total-small k = ground arith

install-Tracks_example :
    Tracks
      (install (lookup_of presence) (record { kind_refcounts = []; catch_all_count = 0 }))
      (presence ∷ [])
unfolding total refcount lookup_of
install-Tracks_example =
    install-Tracks (record { kind_refcounts = []; catch_all_count = 0 }) presence []
      (record { counts = tt; kinds = λ k e. refl; catch_all = refl }) total-small (omega arith)

tracker-kinds :
    (k : ℕ)
    → is_ephemeral k ≡ true
    → refcount k tracker.kind_refcounts ≡ total (share k) (presence ∷ init ∷ [])
unfolding refcount total lookup_of occurs
tracker-kinds k e = ground arith

tracker-Tracks : Tracks tracker (presence ∷ init ∷ [])
unfolding has_count total lookup_of
tracker-Tracks = record {
  counts = (omega arith, omega arith, refl, (omega arith, omega arith, refl, tt));
  kinds = tracker-kinds;
  catch_all = refl;
}

uninstall-Tracks_example : Tracks (uninstall (lookup_of presence) tracker) (init ∷ [])
uninstall-Tracks_example = uninstall-Tracks tracker [] presence (init ∷ []) tracker-Tracks

has_subscribers_for_kind-any_example :
    has_subscribers_for_kind tracker 20003 ≡ any (is_counted 20003) (presence ∷ init ∷ [])
unfolding is_ephemeral
has_subscribers_for_kind-any_example =
    has_subscribers_for_kind-any tracker (presence ∷ init ∷ []) 20003 tracker-Tracks refl
