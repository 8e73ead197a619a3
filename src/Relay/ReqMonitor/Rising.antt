-- ===== src/Relay/ReqMonitor/Rising.antt =====
-- Rows in the order of their keys, and those from a key on, for src/apps/relay/RelayReqMonitor.cpp.
use strfry.Prelude.{
  ℕ, ◌+◌, ◌≤◌, ◌≡◌, refl, inl, inr, Bool, true, false, ◌&&◌, List, [], ◌∷◌, arith, ltb, leb,
  Bool-cases, All,
}
use strfry.Prelude.Bytes.{Bytes}
use strfry.Store.{Row, last_id}
use strfry.Relay.ReqMonitor.{rows_from}
use strfry.Relay.ReqMonitor.Inbox.{texts}
use strfry.Relay.ReqMonitor.Deliver.{RisesFrom, last_or}

RisesFrom-below : (b b' : ℕ) (rs : List Row) → b ≤ b' → RisesFrom b' rs → RisesFrom b rs
RisesFrom-below b b' [] le h = tt
RisesFrom-below b b' (r ∷ rs) le h = (omega arith, h.1)

RisesFrom-rows_from : (b n : ℕ) (rs : List Row) → RisesFrom b rs → RisesFrom b (rows_from n rs)
unfolding rows_from
RisesFrom-rows_from b n [] h = tt
RisesFrom-rows_from b n (r ∷ rs) h = elim (Bool-cases (leb n r.0)) [
  | inl y ↦ rw y (h.0, RisesFrom-rows_from r.0 n rs h.1)
  | inr no_ ↦ rw no_ (RisesFrom-below b r.0 _ (omega arith) (RisesFrom-rows_from r.0 n rs h.1))
]

pub RisesFrom-rows_from_suc :
    (b now : ℕ) (rs : List Row) → RisesFrom b rs → RisesFrom now (rows_from (now + 1) rs)
unfolding rows_from
RisesFrom-rows_from_suc b now [] h = tt
RisesFrom-rows_from_suc b now (r ∷ rs) h = elim (Bool-cases (leb (now + 1) r.0)) [
  | inl y ↦ rw y (ground arith, RisesFrom-rows_from r.0 (now + 1) rs h.1)
  | inr no_ ↦ rw no_ (RisesFrom-rows_from_suc r.0 now rs h.1)
]

pub All-rows_from : (P : Row → Type 0) (n : ℕ) (rs : List Row) → All P rs → All P (rows_from n rs)
unfolding rows_from
All-rows_from P n [] h = tt
All-rows_from P n (r ∷ rs) h = elim (Bool-cases (leb n r.0)) [
  | inl y ↦ rw y (h.0, All-rows_from P n rs h.1)
  | inr no_ ↦ rw no_ (All-rows_from P n rs h.1)
]

pub texts-rows_from :
    (json_of : ℕ → Bytes) (want : Row → Bool) (now : ℕ) (rs : List Row)
    → texts json_of want (rows_from (now + 1) rs) ≡ texts json_of (λ r. ltb now r.0 && want r) rs
unfolding texts rows_from
texts-rows_from json_of want now [] = refl
texts-rows_from json_of want now (r ∷ rs) = elim (Bool-cases (leb (now + 1) r.0)) [
  | inl y ↦
      let later : ltb now r.0 ≡ true = ground arith in
      rw (y, later) (rw (texts-rows_from json_of want now rs) refl)
  | inr no_ ↦
      let early : ltb now r.0 ≡ false = ground arith in
      rw (no_, early) (texts-rows_from json_of want now rs)
]

pub last_id-last_or : (rs : List Row) → last_id rs ≡ last_or 0 rs
unfolding last_id
last_id-last_or [] = refl
last_id-last_or (r ∷ []) = refl
last_id-last_or (r ∷ q ∷ rs) = last_id-last_or (q ∷ rs)

last_or_above : (b : ℕ) (rs : List Row) → RisesFrom b rs → b ≤ last_or b rs
last_or_above b [] h = omega arith
last_or_above b (r ∷ rs) h = let rest = last_or_above r.0 rs h.1 in omega arith

pub All_below_last :
    (b : ℕ) (rs : List Row) → RisesFrom b rs → All (λ (r : Row). r.0 ≤ last_or b rs) rs
All_below_last b [] h = tt
All_below_last b (r ∷ rs) h = (last_or_above r.0 rs h.1, All_below_last r.0 rs h.1)

pub last_or-rows_from :
    (bound now n : ℕ) (rs : List Row)
    → now ≤ bound
    → All (λ (r : Row). r.0 ≤ bound) rs
    → last_or now (rows_from n rs) ≤ bound
unfolding rows_from
last_or-rows_from bound now n [] le h = le
last_or-rows_from bound now n (r ∷ rs) le h = elim (Bool-cases (leb n r.0)) [
  | inl y ↦ rw y (last_or-rows_from bound r.0 n rs h.0 h.1)
  | inr no_ ↦ rw no_ (last_or-rows_from bound now n rs le h.1)
]

pub texts_same :
    (json_of : ℕ → Bytes) (want want' : Row → Bool) (rs : List Row)
    → All (λ (r : Row). want r ≡ want' r) rs
    → texts json_of want rs ≡ texts json_of want' rs
unfolding texts
texts_same json_of want want' [] h = refl
texts_same json_of want want' (r ∷ rs) h = rw (h.0, texts_same json_of want want' rs h.1) refl
