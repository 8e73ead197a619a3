-- ===== src/PackedEvent.antt =====
-- src/PackedEvent.h: the binary summary of a nostr event, its builders and its view.
-- `lmdb::to_sv<uint64_t>` and `lmdb::from_sv<uint64_t>` of the lmdb++ submodule are a parameter.
pub mod Lemmas
pub mod RoundTrip
pub mod Bounds
use strfry.Prelude.{
  ℕ, zero, suc, ◌+◌, ◌<◌, ◌%◌, ◌≡◌, List, [], ◌∷◌, ◌++◌, Bool, true, false, ltb, length, take, drop,
  Result, ok, err, herr, out_of_range, no_fuel, throw_if, ◌>>=◌, ◌>>◌, not, ◌==◌, u64_mod,
  if◌then◌else◌,
}
use strfry.Prelude.Bytes.{Bytes, substr}

-- A 64-bit integer as the eight bytes that it has in memory, and back.
pub record Lmdb : Type 0 where
  pub to_sv : ℕ → Bytes
  pub from_sv : Bytes → ℕ
  pub length-to_sv : (n : ℕ) → length (to_sv n) ≡ 8
  pub from_sv-to_sv : (n : ℕ) → n < u64_mod → from_sv (to_sv n) ≡ n

pub record PackedEventView : Type 0 where
  pub buf : Bytes

-- The constructors of PackedEventView.
unfoldable pub packed_event_view : Bytes → Result PackedEventView
packed_event_view buf = do
  throw_if (ltb (length buf) 88) (herr "PackedEventView too short")
  ok (record { buf = buf })

unfoldable pub id : PackedEventView → Bytes
id ev = substr ev.buf 0 32

unfoldable pub pubkey : PackedEventView → Bytes
pubkey ev = substr ev.buf 32 32

module _ ⦃lmdb : Lmdb⦄ where
  unfoldable pub created_at : PackedEventView → ℕ
  created_at ev = lmdb.from_sv (substr ev.buf 64 8)

  unfoldable pub kind : PackedEventView → ℕ
  kind ev = lmdb.from_sv (substr ev.buf 72 8)

  unfoldable pub expiration : PackedEventView → ℕ
  expiration ev = lmdb.from_sv (substr ev.buf 80 8)

-- The loop of foreachTag. The callback passes on what it captures, and says whether to go on.
-- `b[1]`, `b.substr(2, n)` and `b.substr(2 + n)` past the end are errors.
module _ {S : Type 0} (cb : ℕ → Bytes → S → S × Bool) where
  unfoldable pub tag_loop : ℕ → Bytes → S → Result S
  tag_loop f [] s = ok s
  tag_loop zero (c ∷ b) s = err no_fuel
  tag_loop (suc f) (tag_name ∷ []) s = err out_of_range
  tag_loop (suc f) (tag_name ∷ tag_len ∷ b) s =
      let (s', go_on) = cb tag_name (take tag_len b) s in
      let next =
        (if ltb (length b) tag_len then err out_of_range else tag_loop f (drop tag_len b) s') in
      if go_on then next else ok s'

  unfoldable pub foreach_tag : PackedEventView → S → Result S
  foreach_tag ev s = let b = drop 88 ev.buf in tag_loop (length b) b s

-- PackedEventTagBuilder: its buffer.
unfoldable pub add : Bytes → ℕ → Bytes → Result Bytes
add buf tag_key tag_val = do
  throw_if (ltb 255 (length tag_val)) (herr "tagVal too long")
  ok (buf ++ (tag_key ∷ (length tag_val % 256) ∷ tag_val))

-- PackedEventBuilder: the buffer that the constructor leaves.
module _ ⦃lmdb : Lmdb⦄ where
  unfoldable pub packed_event_builder : Bytes → Bytes → ℕ → ℕ → ℕ → Bytes → Result Bytes
  packed_event_builder id pubkey created_at kind expiration tags = do
    throw_if (not (length id == 32)) (herr "unexpected id size")
    throw_if (not (length pubkey == 32)) (herr "unexpected pubkey size")
    ok (
        id
        ++ (pubkey
            ++ (lmdb.to_sv created_at ++ (lmdb.to_sv kind ++ (lmdb.to_sv expiration ++ tags)))))
