-- ===== src/PackedEvent/RoundTrip.antt =====
-- What the builders of src/PackedEvent.h write, the view reads.
use strfry.Prelude.{
  ℕ, zero, suc, ◌+◌, ◌≤◌, ◌<◌, ◌≡◌, refl, sym, ap, ◌∙◌, Bool, List, [], ◌∷◌, ◌++◌, arith, ge→ltb,
  u64_mod, length, drop, length-append, drop-append, All, Result, ok, ◌>>=◌,
}
use strfry.Prelude.Bytes.{Bytes, substr}
use mathlib.Core.List.{append_assoc, append-nil}
use strfry.PackedEvent.{
  Lmdb, PackedEventView, packed_event_view, id, pubkey, created_at, kind, expiration, tag_loop,
  foreach_tag, add, packed_event_builder,
}
use strfry.PackedEvent.Lemmas.{
  Tag, encode_tag, encode_tags, add_all, fold_tags, FitsTag, take-append_eq, drop-append_add,
  tag_loop-encode_tag,
}

-- The fields of a packed event, before they are packed.
pub record EventData : Type 0 where
  pub id : Bytes
  pub pubkey : Bytes
  pub created_at : ℕ
  pub kind : ℕ
  pub expiration : ℕ
  pub tags : List Tag

pub record IsPackable (d : EventData) : Type 0 where
  pub id_size : length d.id ≡ 32
  pub pubkey_size : length d.pubkey ≡ 32
  pub created_at_u64 : d.created_at < u64_mod
  pub kind_u64 : d.kind < u64_mod
  pub expiration_u64 : d.expiration < u64_mod
  pub tags_fit : All FitsTag d.tags

add_all-encode :
    (buf : Bytes) (ts : List Tag) → All FitsTag ts → add_all buf ts ≡ ok (buf ++ encode_tags ts)
unfolding add_all encode_tags add
add_all-encode buf [] h = rw (append-nil buf)
add_all-encode buf ((k, v) ∷ ts) h =
    rw (ge→ltb 255 (length v) h.0, add_all-encode (buf ++ encode_tag (k, v)) ts h.1)
      (ap ok (append_assoc buf (encode_tag (k, v)) (encode_tags ts)))

module _ {S : Type 0} (cb : ℕ → Bytes → S → S × Bool) where
  tag_loop-encode :
      (f : ℕ) (ts : List Tag) (s : S)
      → All FitsTag ts
      → length (encode_tags ts) ≤ f
      → tag_loop cb f (encode_tags ts) s ≡ ok (fold_tags cb ts s)
  unfolding encode_tags fold_tags
  tag_loop-encode zero [] s h le = unfold tag_loop in refl
  tag_loop-encode (suc f) [] s h le = unfold tag_loop in refl
  tag_loop-encode zero ((k, v) ∷ ts) s h le = absurd (omega arith)
  tag_loop-encode (suc f) ((k, v) ∷ ts) s h le =
      rw
        (
          tag_loop-encode_tag cb f k v (encode_tags ts) s h.0,
          tag_loop-encode f ts (cb k v s).0 h.1 (omega (arith, length-append v (encode_tags ts))),
        )
        (ground arith)

module _ ⦃lmdb : Lmdb⦄ where
  -- Both builders in a row: the tags are added in order, then the event is built.
  unfoldable pub pack : EventData → Result Bytes
  pack d = do
    tags ← add_all [] d.tags
    packed_event_builder d.id d.pubkey d.created_at d.kind d.expiration tags

  unfoldable pub packed : EventData → Bytes
  packed d =
      d.id
      ++ (d.pubkey
          ++ (lmdb.to_sv d.created_at
              ++ (lmdb.to_sv d.kind ++ (lmdb.to_sv d.expiration ++ encode_tags d.tags))))

  pub pack-packed : (d : EventData) → IsPackable d → pack d ≡ ok (packed d)
  unfolding pack packed packed_event_builder
  pack-packed d h =
      rw (add_all-encode [] d.tags h.tags_fit) (ground (arith, h.id_size, h.pubkey_size))

  abbrev pub view_of : EventData → PackedEventView
  view_of d = record { buf = packed d }

  module _ (d : EventData) (h : IsPackable d) where
    packed_size : length (packed d) ≡ 88 + length (encode_tags d.tags)
    unfolding packed
    packed_size = omega (
      arith,
      h.id_size,
      h.pubkey_size,
      lmdb.length-to_sv d.created_at,
      lmdb.length-to_sv d.kind,
      lmdb.length-to_sv d.expiration,
      length-append {0} d.id,
      length-append {0} d.pubkey,
      length-append {0} (lmdb.to_sv d.created_at),
      length-append {0} (lmdb.to_sv d.kind),
      length-append {0} (lmdb.to_sv d.expiration) (encode_tags d.tags),
    )

    pub view-accepts : packed_event_view (packed d) ≡ ok (view_of d)
    unfolding packed_event_view
    view-accepts = rw (ge→ltb (length (packed d)) 88 (omega (arith, packed_size)))

    pub id-packed : id (view_of d) ≡ d.id
    unfolding id packed
    id-packed = take-append_eq 32 d.id _ (sym h.id_size)

    pub pubkey-packed : pubkey (view_of d) ≡ d.pubkey
    unfolding pubkey packed
    pubkey-packed =
        rw (drop-append_add 32 0 d.id _ (omega (arith, h.id_size)))
          (take-append_eq 32 d.pubkey _ (sym h.pubkey_size))

    from_packed :
        (n k : ℕ) (pre post : Bytes)
        → n < u64_mod
        → k ≡ length pre
        → lmdb.from_sv (substr (pre ++ (lmdb.to_sv n ++ post)) k 8) ≡ n
    from_packed n k pre post lt e =
        rw
          (
            e,
            drop-append pre (lmdb.to_sv n ++ post),
            take-append_eq 8 (lmdb.to_sv n) post (sym (lmdb.length-to_sv n)),
          )
          (lmdb.from_sv-to_sv n lt)

    pub created_at-packed : created_at (view_of d) ≡ d.created_at
    unfolding created_at packed
    created_at-packed =
        ap (λ b. lmdb.from_sv (substr b 64 8)) (sym (append_assoc d.id d.pubkey _))
        ∙ from_packed d.created_at 64 (d.id ++ d.pubkey) _ h.created_at_u64
            (omega (arith, h.id_size, h.pubkey_size, length-append d.id d.pubkey))

    -- The bytes before the kind.
    before_kind : Bytes
    before_kind = (d.id ++ d.pubkey) ++ lmdb.to_sv d.created_at

    before_kind_size : length before_kind ≡ 72
    unfolding before_kind
    before_kind_size = omega (
      arith,
      h.id_size,
      h.pubkey_size,
      lmdb.length-to_sv d.created_at,
      length-append d.id d.pubkey,
      length-append (d.id ++ d.pubkey) (lmdb.to_sv d.created_at),
    )

    packed-before_kind :
        packed d
        ≡ before_kind ++ (lmdb.to_sv d.kind ++ (lmdb.to_sv d.expiration ++ encode_tags d.tags))
    unfolding packed before_kind
    packed-before_kind = simp append_assoc

    pub kind-packed : kind (view_of d) ≡ d.kind
    unfolding kind
    kind-packed =
        rw packed-before_kind
          (from_packed d.kind 72 before_kind _ h.kind_u64 (sym before_kind_size))

    -- The bytes before the expiration.
    before_expiration : Bytes
    before_expiration = before_kind ++ lmdb.to_sv d.kind

    before_expiration_size : length before_expiration ≡ 80
    unfolding before_expiration
    before_expiration_size = omega (
      arith,
      before_kind_size,
      lmdb.length-to_sv d.kind,
      length-append before_kind (lmdb.to_sv d.kind),
    )

    packed-before_expiration :
        packed d ≡ before_expiration ++ (lmdb.to_sv d.expiration ++ encode_tags d.tags)
    unfolding before_expiration
    packed-before_expiration = packed-before_kind ∙ sym (append_assoc before_kind _ _)

    pub expiration-packed : expiration (view_of d) ≡ d.expiration
    unfolding expiration
    expiration-packed = rw packed-before_expiration (
        from_packed d.expiration 80 before_expiration _ h.expiration_u64
          (sym before_expiration_size))

    -- The bytes before the tags.
    tags-packed : drop 88 (packed d) ≡ encode_tags d.tags
    tags-packed =
        rw
          (
            packed-before_expiration,
            drop-append_add 88 8 before_expiration _ (omega (arith, before_expiration_size)),
          )
          (drop-append_add 8 0 (lmdb.to_sv d.expiration) _
            (omega (arith, lmdb.length-to_sv d.expiration)))

    module _ {S : Type 0} (cb : ℕ → Bytes → S → S × Bool) (s : S) where
      -- The loop over the tags of a packed event calls back with the tags that were added, in
      -- order, until a call says stop.
      pub foreach_tag-pack : foreach_tag cb (view_of d) s ≡ ok (fold_tags cb d.tags s)
      unfolding foreach_tag
      foreach_tag-pack = rw tags-packed (tag_loop-encode cb _ d.tags s h.tags_fit (omega arith))

    -- Building an event and viewing the buffer succeed and give back every field.
    pub view-pack :
        (ev : PackedEventView) × ((do buf ← pack d; packed_event_view buf) ≡ ok ev)
        × (id ev ≡ d.id)
        × (pubkey ev ≡ d.pubkey)
        × (created_at ev ≡ d.created_at)
        × (kind ev ≡ d.kind)
        × (expiration ev ≡ d.expiration)
    view-pack = (
      view_of d,
      rw (pack-packed d h) view-accepts,
      id-packed,
      pubkey-packed,
      created_at-packed,
      kind-packed,
      expiration-packed,
    )
