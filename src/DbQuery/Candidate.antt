-- ===== src/DbQuery/Candidate.antt =====
-- DBScan::CandidateEvent of src/DBQuery.h, and the order of the queue.
use strfry.Prelude.{
  ℕ, zero, suc, ◌+◌, ◌*◌, ◌/◌, ◌%◌, ◌<◌, ◌≡◌, refl, Bool, true, ◌&&◌, List, [], ◌∷◌, arith, ltb,
  ◌==◌, if◌then◌else◌, u64_mod,
}

-- a | b on the lowest `bits` binary digits.
unfoldable pub bit_or : ℕ → ℕ → ℕ → ℕ
bit_or zero a b = 0
bit_or (suc bits) a b =
    2 * bit_or bits (a / 2) (b / 2) + (if a % 2 == 0 && b % 2 == 0 then 0 else 1)

-- 2 ^ 40: the time has the lower 40 digits of `packed`.
abbrev pub created_mod : ℕ
created_mod = 1099511627776

pub record CandidateEvent : Type 0 where
  pub packed : ℕ
  pub lev_id_storage : ℕ

unfoldable pub candidate_event : ℕ → ℕ → ℕ → CandidateEvent
candidate_event lev_id created scan_index = record {
  packed = bit_or 64 ((scan_index * created_mod) % u64_mod) created;
  lev_id_storage = lev_id;
}

abbrev pub lev_id : CandidateEvent → ℕ
lev_id ev = ev.lev_id_storage

unfoldable pub created : CandidateEvent → ℕ
created ev = ev.packed % created_mod

unfoldable pub scan_index : CandidateEvent → ℕ
scan_index ev = ev.packed / created_mod

-- `cmp`: the newest first, of one second the one that was stored last.
unfoldable pub is_before : CandidateEvent → CandidateEvent → Bool
is_before a b =
    if created a == created b then ltb (lev_id b) (lev_id a) else ltb (created b) (created a)

unfoldable pub insert_sorted : CandidateEvent → List CandidateEvent → List CandidateEvent
insert_sorted x [] = x ∷ []
insert_sorted x (y ∷ ys) =
    let rest = insert_sorted x ys in if is_before y x then y ∷ rest else x ∷ y ∷ ys

-- std::sort by `cmp`.
unfoldable pub sort : List CandidateEvent → List CandidateEvent
sort [] = []
sort (x ∷ xs) = insert_sorted x (sort xs)

-- std::merge by `cmp`: of equal elements that of the first list comes first.
unfoldable pub merge : List CandidateEvent → List CandidateEvent → List CandidateEvent
merge [] ys = ys
merge (x ∷ xs) [] = x ∷ xs
merge (x ∷ xs) (y ∷ ys) =
    let first = x ∷ merge xs (y ∷ ys) in
    let second = y ∷ merge (x ∷ xs) ys in if is_before y x then second else first

unfoldable shifted : ℕ → ℕ → ℕ
shifted zero a = a
shifted (suc low) a = 2 * shifted low a

unfoldable pow2 : ℕ → ℕ
pow2 zero = 1
pow2 (suc bits) = 2 * pow2 bits

-- Where the digits do not overlap, `|` adds.
bit_or-shifted :
    (bits low a b : ℕ)
    → b < pow2 low
    → shifted low a + b < pow2 bits
    → bit_or bits (shifted low a) b ≡ shifted low a + b
unfolding bit_or shifted pow2
bit_or-shifted zero low a b small fits = omega arith
bit_or-shifted (suc bits) zero a b small fits =
    let rest = bit_or-shifted bits zero (a / 2) (b / 2) (omega arith) (omega arith) in
    ground (arith, rest)
bit_or-shifted (suc bits) (suc low) a b small fits =
    let high = shifted low a in
    let half : (2 * high) / 2 ≡ high = omega arith in
    let rest = bit_or-shifted bits low a (b / 2) (omega arith) (omega arith) in
    let even : ((2 * high) % 2 == 0) ≡ true = ground arith in rw (half, rest, even) (ground arith)

-- A candidate gives back its three parts, as long as the time has 40 binary digits and the index of
-- its cursor 24.
candidate_event-parts :
    (l c i : ℕ)
    → c < created_mod
    → i < 16777216
    → let ev = candidate_event l c i in (lev_id ev ≡ l) × (created ev ≡ c) × (scan_index ev ≡ i)
unfolding candidate_event created scan_index shifted pow2
candidate_event-parts l c i small few =
    let no_wrap : (i * created_mod) % u64_mod ≡ shifted 40 i = omega arith in
    let joined = bit_or-shifted 64 40 i c (omega arith) (omega arith) in
    (refl, rw (no_wrap, joined) (omega arith), rw (no_wrap, joined) (omega arith))
