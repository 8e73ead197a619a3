-- ===== src/DbQuery/Laws.antt =====
-- What ScanCursor::collect of src/DBQuery.h asks of the indices, and what it counts.

use strfry.Prelude.{ℕ, ◌+◌, ◌<◌, ◌≡◌, refl, ◌∙◌, ◌⊎◌, List, ◌∷◌, ◌++◌, arith, u64_mod, length, ok}
use strfry.Prelude.Bytes.{Bytes}
use strfry.PackedEvent.{Lmdb}
use strfry.Store.{Env}
use strfry.DbQuery.Cursor.{IndexDbi, Indices, Collecting}

-- What an index does: its keys have a text and a time, its values are levIds, which begin at 1, and a
-- visit in reverse from a key of the same text that lies before an entry is the rest of the visit
-- that came by the entry, less what lies between.
pub record AreIndices ⦃lmdb : Lmdb⦄ (env : Env) (indices : Indices env) : Type 0 where
  pub parses :
      (db : env.Db) (dbi : IndexDbi) (rk : Bytes) (rv : ℕ) (pre : List (Bytes × ℕ)) (k : Bytes)
      (v : ℕ) (post : List (Bytes × ℕ))
      → indices.foreach_full db dbi rk rv ≡ pre ++ (k, v) ∷ post
      → (s : Bytes) × (c : ℕ) × (indices.parse_string_uint64 k ≡ ok (s, c)) × (0 < v)
  pub seek :
      (db : env.Db) (dbi : IndexDbi) (rk : Bytes) (rv : ℕ) (pre : List (Bytes × ℕ)) (k : Bytes)
      (v : ℕ) (post : List (Bytes × ℕ)) (s : Bytes) (c n w : ℕ)
      → indices.foreach_full db dbi rk rv ≡ pre ++ (k, v) ∷ post
      → indices.parse_string_uint64 k ≡ ok (s, c)
      → n < u64_mod
      → (n < c) ⊎ ((n ≡ c) × (w < v))
      → (skipped : List (Bytes × ℕ)) × (post
          ≡ skipped ++ indices.foreach_full db dbi (env.make_key s n) w)

-- The candidates are counted, and the limit goes down with them.
pub record Counts (st st' : Collecting) : Type 0 where
  pub same_match : st'.cursor.key_match ≡ st.cursor.key_match
  pub within : st'.added + st'.limit ≡ st.added + st.limit
  pub counted : length st'.output + st.added ≡ length st.output + st'.added

pub Counts-refl : (st : Collecting) → Counts st st
Counts-refl st = record { same_match = refl; within = refl; counted = refl }

pub Counts-trans : (a b c : Collecting) → Counts a b → Counts b c → Counts a c
Counts-trans a b c h k = record {
  same_match = k.same_match ∙ h.same_match;
  within = k.within ∙ h.within;
  counted = omega (arith, h.counted, k.counted);
}
