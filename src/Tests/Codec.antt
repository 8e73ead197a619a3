-- ===== src/Tests/Codec.antt =====
-- The event that a packed buffer stands for.
use strfry.Prelude.{ℕ, ◌≡◌, ◌∙◌, Bool, true, List, [], ◌∷◌, ◌++◌, Result, ok, err}
use strfry.Prelude.Bytes.{Bytes}
use mathlib.Core.List.{append_assoc, append-nil}
use strfry.PackedEvent.{
  Lmdb, foreach_tag, PackedEventView, id, pubkey, created_at, kind, expiration,
}
use strfry.PackedEvent.Lemmas.{Tag, fold_tags}
use strfry.PackedEvent.RoundTrip.{
  EventData, IsPackable, packed, id-packed, pubkey-packed, created_at-packed, kind-packed,
  expiration-packed, foreach_tag-pack,
}

abbrev pub collect_tag : ℕ → Bytes → List Tag → List Tag × Bool
collect_tag k v ts = (ts ++ (k, v) ∷ [], true)

fold_tags-collect : (ts acc : List Tag) → fold_tags collect_tag ts acc ≡ acc ++ ts
unfolding fold_tags
fold_tags-collect [] acc = rw (append-nil acc)
fold_tags-collect ((k, v) ∷ ts) acc =
    fold_tags-collect ts (acc ++ (k, v) ∷ []) ∙ append_assoc acc ((k, v) ∷ []) ts

module _ ⦃lmdb : Lmdb⦄ where
  abbrev pub tags_or : Result (List Tag) → List Tag
  tags_or (ok ts) = ts
  tags_or (err e) = []

  unfoldable pub unpack : Bytes → EventData
  unpack b =
      let view : PackedEventView = record { buf = b } in
      record {
        id = id view;
        pubkey = pubkey view;
        created_at = created_at view;
        kind = kind view;
        expiration = expiration view;
        tags = tags_or (foreach_tag collect_tag view []);
      }

  pub unpack-packed : (d : EventData) → IsPackable d → unpack (packed d) ≡ d
  unfolding unpack
  unpack-packed d h = rw (
    id-packed d h,
    pubkey-packed d h,
    created_at-packed d h,
    kind-packed d h,
    expiration-packed d h,
    foreach_tag-pack d h collect_tag [],
    fold_tags-collect d.tags [],
  )
