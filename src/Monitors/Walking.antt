-- ===== src/Monitors/Walking.antt =====
-- The walk of processMonitorsExact in src/ActiveMonitors.h reaches the set of its key.
use strfry.Prelude.{
  ℕ, ◌≡◌, refl, sym, subst, inl, inr, Bool, true, false, ◌&&◌, [], ◌∷◌, arith, Bool-cases, All,
  All-map, Result, ok,
}
use strfry.Prelude.Bytes.{Bytes}
use strfry.Monitors.Items.{MonitorItem, MonitorSet, has_item}
use strfry.Monitors.Trees.{
  KeyOrder, Tree, Above, Rising, AllItems, walk, set_of, Above-trans, set_of-Above,
}

-- What a visit of a set keeps: an invariant of the state, a predicate on the items that may depend on
-- the state, and a second one that it makes true of the items of the set.
module _ {K S : Type 0} (o : KeyOrder K) (visit : MonitorSet → S → Result (MonitorSet × S))
    (Inv : S → Type 0) (Le : S → S → Type 0) (P Q : S → K → MonitorItem → Type 0) where
  abbrev pub SameItems : Tree K → Tree K → Type 0
  SameItems m m' =
      (j : K) (c : ℕ) (s : Bytes) (i : ℕ)
      → has_item c s i (set_of o j m') ≡ has_item c s i (set_of o j m)

  abbrev pub Visits : Type 0
  Visits =
      (k : K) (ms : MonitorSet) (st : S)
      → Inv st
      → All (P st k) ms
      → (ms' : MonitorSet) × (st' : S) × (visit ms st ≡ ok (ms', st'))
        × Inv st'
        × Le st st'
        × All (P st' k) ms'
        × All (Q st' k) ms'
        × ((c : ℕ) (s : Bytes) (i : ℕ) → has_item c s i ms' ≡ has_item c s i ms)

  walk-Above : (k : K) (m : Tree K) (st : S) → Above o k m → walk o visit k m st ≡ ok (m, st, true)
  unfolding walk
  walk-Above k [] st up = refl
  walk-Above k ((j, ms) ∷ m) st up = rw up.0 refl

  module _ (visits : Visits) (le_refl : (a : S) → Le a a)
      (grow : (a b : S) (k : K) (it : MonitorItem) → Le a b → P a k it → P b k it) where
    -- The walk never fails, and settles the items of its key.
    pub walk_lem :
        (k : K) (m : Tree K) (st : S)
        → Rising o m
        → Inv st
        → AllItems o (P st) m
        → (m' : Tree K) × (st' : S) × (going : Bool) × (walk o visit k m st ≡ ok (m', st', going))
          × Inv st'
          × Le st st'
          × AllItems o (P st') m'
          × All (Q st' k) (set_of o k m')
          × SameItems m m'
          × Rising o m'
          × ((a : K) → Above o a m → Above o a m')
    unfolding walk set_of
    walk_lem k [] st r inv h =
        ([], st, true, refl, inv, le_refl st, tt, tt, (λ j c s i. refl), tt, λ a q. q)
    walk_lem k ((j, ms) ∷ m) st r inv h = elim (Bool-cases (o.lt k j)) [
      | inl y ↦ (
        (j, ms) ∷ m,
        st,
        true,
        rw y refl,
        inv,
        le_refl st,
        h,
        subst (All (Q st k)) (sym (set_of-Above o k ((j, ms) ∷ m) (y, Above-trans o k j m y r.0)))
            tt,
        (λ l c s i. refl),
        r,
        λ a q. q,
      )
      | inr n ↦ elim (Bool-cases (o.eq k j)) [
        | inl y ↦
            let same = o.eq→path k j y in
            let still = walk-Above k m st (subst (λ x. Above o x m) (sym same) r.0) in
            let (ms', st', run, inv', le, p, q, keeps) = visits j ms st inv h.0 in
            (
              (j, ms') ∷ m,
              st',
              true,
              rw (n, still, y, run) refl,
              inv',
              le,
              (p, All-map _ _ (λ e all. All-map _ _ (λ it. grow st st' e.0 it le) e.1 all) m h.1),
              rw y (subst (λ x. All (Q st' x) ms') (sym same) q),
              (λ l c s i. elim (Bool-cases (o.eq l j)) [
                | inl y' ↦ rw y' (keeps c s i)
                | inr n' ↦ rw n' refl
              ]),
              r,
              λ a z. z,
            )
        | inr n' ↦
            let (m', st', going, run, inv', le, p, q, keeps, r', up) =
              walk_lem k m st r.1 inv h.1 in
            let off : (going && false) ≡ false = ground arith in
            (
              (j, ms) ∷ m',
              st',
              false,
              rw (n, run, n', off) refl,
              inv',
              le,
              (All-map _ _ (λ it. grow st st' j it le) ms h.0, p),
              rw n' q,
              (λ l c s i. elim (Bool-cases (o.eq l j)) [
                | inl y' ↦ rw y' refl
                | inr n'' ↦ rw n'' (keeps l c s i)
              ]),
              (up j r.0, r'),
              λ a z. (z.0, up a z.1),
            )
      ]
    ]
