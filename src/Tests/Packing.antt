-- ===== src/Tests/Packing.antt =====
-- One packed event, built and read.
use strfry.Prelude.{
  ℕ, ◌≡◌, refl, Bool, true, false, Option, none, some, [], ◌∷◌, arith, ◌==◌, if◌then◌else◌, ok,
  ◌>>=◌,
}
use strfry.Prelude.Bytes.{Bytes, codes}
use strfry.PackedEvent.{
  PackedEventView, packed_event_view, id, pubkey, created_at, kind, expiration, foreach_tag,
}
use strfry.PackedEvent.Lemmas.{fold_tags}
use strfry.PackedEvent.RoundTrip.{EventData, IsPackable, pack, view_of, view-pack, foreach_tag-pack}
use strfry.PackedEvent.Bounds.{Ends, foreach_tag-Ends}
use strfry.Tests.World.{little_endian}
use strfry.Tests.Values.{fill}

abbrev article : EventData
article = record {
  id = fill 32 1;
  pubkey = fill 32 9;
  created_at = 1700000000;
  kind = 30023;
  expiration = 1800000000;
  tags = (b't', codes "nostr") ∷ (b'd', codes "intro") ∷ [];
}

article-IsPackable : IsPackable article
article-IsPackable = record {
  id_size = refl;
  pubkey_size = refl;
  created_at_u64 = omega arith;
  kind_u64 = omega arith;
  expiration_u64 = omega arith;
  tags_fit = (omega arith, (omega arith, tt));
}

view-pack_example :
    (ev : PackedEventView) × ((do buf ← pack article; packed_event_view buf) ≡ ok ev)
    × (id ev ≡ fill 32 1)
    × (pubkey ev ≡ fill 32 9)
    × (created_at ev ≡ 1700000000)
    × (kind ev ≡ 30023)
    × (expiration ev ≡ 1800000000)
view-pack_example = view-pack article article-IsPackable

-- The first tag that is named d.
abbrev find_d : ℕ → Bytes → Option Bytes → Option Bytes × Bool
find_d name val found = if name == b'd' then (some val, false) else (found, true)

foreach_tag-pack_example :
    foreach_tag find_d (view_of article) none ≡ ok (fold_tags find_d article.tags none)
foreach_tag-pack_example = foreach_tag-pack article article-IsPackable find_d none

foreach_tag-Ends_example : Ends find_d (foreach_tag find_d (record { buf = fill 91 b'd' }) none)
foreach_tag-Ends_example = foreach_tag-Ends find_d (record { buf = fill 91 b'd' }) none
