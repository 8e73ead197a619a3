-- ===== src/Tests/World.antt =====
-- lmdb++'s integer coding: eight bytes, the lowest first.
use strfry.Prelude.{
  ℕ, zero, suc, ◌+◌, ◌*◌, ◌/◌, ◌%◌, ◌<◌, ◌≡◌, refl, ap, [], ◌∷◌, arith, u64_mod, length,
}
use strfry.Prelude.Bytes.{Bytes}
use strfry.PackedEvent.{Lmdb}

unfoldable pub to_le : ℕ → ℕ → Bytes
to_le zero n = []
to_le (suc k) n = (n % 256) ∷ to_le k (n / 256)

unfoldable pub from_le : Bytes → ℕ
from_le [] = 0
from_le (c ∷ b) = c + 256 * from_le b

unfoldable pow256 : ℕ → ℕ
pow256 zero = 1
pow256 (suc k) = 256 * pow256 k

pub length-to_le : (k n : ℕ) → length (to_le k n) ≡ k
unfolding to_le
length-to_le zero n = refl
length-to_le (suc k) n = ap suc (length-to_le k (n / 256))

from_le-to_le : (k n : ℕ) → n < pow256 k → from_le (to_le k n) ≡ n
unfolding to_le from_le pow256
from_le-to_le zero n h = omega arith
from_le-to_le (suc k) n h =
    let small : n / 256 < pow256 k = omega arith in
    let e = from_le-to_le k (n / 256) small in rw e (omega arith)

pub from_le-to_le8 : (n : ℕ) → n < u64_mod → from_le (to_le 8 n) ≡ n
unfolding pow256
from_le-to_le8 n h = from_le-to_le 8 n h

instance abbrev pub little_endian : Lmdb
little_endian = record {
  to_sv = to_le 8;
  from_sv = from_le;
  length-to_sv = length-to_le 8;
  from_sv-to_sv = from_le-to_le8;
}
