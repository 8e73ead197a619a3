-- ===== src/Monitors/Trees.antt =====
-- The btree_maps of src/ActiveMonitors.h from keys to monitor sets, as lists in the order of the
-- keys, with try_emplace, at and erase as the file uses them, and the walk of processMonitorsExact.
use strfry.Prelude.{
  ℕ, ◌≡◌, refl, subst, ◌⊎◌, inl, inr, Bool, true, false, ◌&&◌, List, [], ◌∷◌, arith, ◌==◌,
  if◌then◌else◌, Bool-cases, if-cases, length, All, All-map, out_of_range, Result, ok, err, ◌>>=◌,
}
use strfry.Prelude.Bytes.{Bytes}
use strfry.Monitors.Items.{
  MonitorItem, MonitorSet, has_item, add_item, remove_item, All-add_item, has_item-add_item_self,
  has_item-add_item, is_filter_self,
}

-- std::less and == on the keys.
pub record KeyOrder (K : Type 0) : Type 0 where
  pub lt : K → K → Bool
  pub eq : K → K → Bool
  pub eq_self : (a : K) → eq a a ≡ true
  pub eq→path : (a b : K) → eq a b ≡ true → a ≡ b
  pub lt_self : (a : K) → lt a a ≡ false
  pub lt_trans : (a b c : K) → lt a b ≡ true → lt b c ≡ true → lt a c ≡ true
  pub lt_total : (a b : K) → (lt a b ≡ true) ⊎ ((a ≡ b) ⊎ (lt b a ≡ true))

abbrev pub Tree : Type 0 → Type 0
Tree K = List (K × MonitorSet)

module _ {K : Type 0} (o : KeyOrder K) where
  -- try_emplace of the key, and of the item in the key's set.
  unfoldable pub emplace_item : K → MonitorItem → Tree K → Tree K
  emplace_item k it [] = (k, it ∷ []) ∷ []
  emplace_item k it ((j, ms) ∷ m) =
      if o.eq k j
      then (j, add_item it ms) ∷ m
      else if o.lt k j
      then (k, it ∷ []) ∷ (j, ms) ∷ m
      else (j, ms) ∷ emplace_item k it m

  -- at(key), the erasure of the filter, and the erasure of the key if its set is empty then.
  unfoldable pub erase_item : K → ℕ → Bytes → ℕ → Tree K → Result (Tree K)
  erase_item k c s i [] = err out_of_range
  erase_item k c s i ((j, ms) ∷ m) =
      let rest = (do m' ← erase_item k c s i m; ok ((j, ms) ∷ m')) in
      let left = remove_item c s i ms in
      if o.eq k j then ok (if length left == 0 then m else (j, left) ∷ m) else rest

  -- processMonitorsExact: from the entry before upper_bound(key) backwards, as long as the key is the
  -- entry's. The last part says whether the walk is still going.
  unfoldable pub walk :
      {S : Type 0}
      → (MonitorSet → S → Result (MonitorSet × S))
      → K
      → Tree K
      → S
      → Result (Tree K × S × Bool)
  walk visit k [] st = ok ([], st, true)
  walk visit k ((j, ms) ∷ m) st =
      let below = (do
        (m', st', going) ← walk visit k m st
        (if going && o.eq k j
            then (do (ms', st'') ← visit ms st'; ok ((j, ms') ∷ m', st'', true))
            else ok ((j, ms) ∷ m', st', false))) in
      if o.lt k j then ok ((j, ms) ∷ m, st, true) else below

  -- The set of a key, which is empty where there is none.
  unfoldable pub set_of : K → Tree K → MonitorSet
  set_of k [] = []
  set_of k ((j, ms) ∷ m) = if o.eq k j then ms else set_of k m

  abbrev pub Above : K → Tree K → Type 0
  Above k m = All (λ (e : K × MonitorSet). o.lt k e.0 ≡ true) m

  abbrev pub Rising : Tree K → Type 0
  Rising [] = Unit
  Rising ((j, ms) ∷ m) = Above j m × Rising m

  abbrev pub AllItems : (K → MonitorItem → Type 0) → Tree K → Type 0
  AllItems P m = All (λ (e : K × MonitorSet). All (P e.0) e.1) m

  pub Above-trans : (a b : K) (m : Tree K) → o.lt a b ≡ true → Above b m → Above a m
  Above-trans a b m h = All-map _ _ (λ e above. o.lt_trans a b e.0 h above) m

  pub lt→neq : (a b : K) → o.lt a b ≡ true → o.eq a b ≡ false
  lt→neq a b h = elim (Bool-cases (o.eq a b)) [
    | inr n ↦ n
    | inl y ↦
        let e : o.lt b b ≡ true = subst (λ x. o.lt x b ≡ true) (o.eq→path a b y) h in
        let f = o.lt_self b in absurd (ground arith)
  ]

  pub set_of-Above : (k : K) (m : Tree K) → Above k m → set_of k m ≡ []
  unfolding set_of
  set_of-Above k [] h = refl
  set_of-Above k ((j, ms) ∷ m) h = rw (lt→neq k j h.0) (set_of-Above k m h.1)

  Above-emplace_item :
      (a k : K) (it : MonitorItem) (m : Tree K)
      → o.lt a k ≡ true
      → Above a m
      → Above a (emplace_item k it m)
  unfolding emplace_item
  Above-emplace_item a k it [] h up = (h, tt)
  Above-emplace_item a k it ((j, ms) ∷ m) h up =
      if-cases (Above a) (o.eq k j) _ _ (λ e. up)
        (λ e.
          if-cases (Above a) (o.lt k j) _ _ (λ e'. (h, up))
            (λ e'. (up.0, Above-emplace_item a k it m h up.1)))

  pub emplace_item-Rising :
      (k : K) (it : MonitorItem) (m : Tree K) → Rising m → Rising (emplace_item k it m)
  unfolding emplace_item
  emplace_item-Rising k it [] r = (tt, tt)
  emplace_item-Rising k it ((j, ms) ∷ m) r =
      if-cases Rising (o.eq k j) _ _ (λ e. r)
        (λ e.
          if-cases Rising (o.lt k j) _ _ (λ e'. ((e', Above-trans k j m e' r.0), r))
            (λ e'.
              let up : o.lt j k ≡ true = elim (o.lt_total k j) [
                | inl a ↦ absurd (ground arith)
                | inr b ↦ elim b [
                  | inl same ↦
                      let yes_eq : o.eq k j ≡ true = rw same (o.eq_self j) in absurd (ground arith)
                  | inr c ↦ c
                ]
              ] in
              (Above-emplace_item j k it m up r.0, emplace_item-Rising k it m r.1)))

  pub All-emplace_item :
      (P : K → MonitorItem → Type 0) (k : K) (it : MonitorItem) (m : Tree K)
      → P k it
      → AllItems P m
      → AllItems P (emplace_item k it m)
  unfolding emplace_item
  All-emplace_item P k it [] p h = ((p, tt), tt)
  All-emplace_item P k it ((j, ms) ∷ m) p h =
      if-cases (AllItems P) (o.eq k j) _ _
        (λ e. (All-add_item (P j) it ms (subst (λ x. P x it) (o.eq→path k j e) p) h.0, h.1))
        (λ e.
          if-cases (AllItems P) (o.lt k j) _ _ (λ e'. ((p, tt), h))
            (λ e'. (h.0, All-emplace_item P k it m p h.1)))

  pub has_item-emplace_item_self :
      (k : K) (it : MonitorItem) (m : Tree K)
      → has_item it.conn_id it.sub_id it.filter (set_of k (emplace_item k it m)) ≡ true
  unfolding emplace_item set_of has_item
  has_item-emplace_item_self k it [] = rw (o.eq_self k, is_filter_self it) refl
  has_item-emplace_item_self k it ((j, ms) ∷ m) = elim (Bool-cases (o.eq k j)) [
    | inl y ↦ rw (y, y) (has_item-add_item_self it ms)
    | inr n ↦ elim (Bool-cases (o.lt k j)) [
      | inl y ↦ rw (n, y, o.eq_self k, is_filter_self it) refl
      | inr n' ↦ rw (n, n', n) (has_item-emplace_item_self k it m)
    ]
  ]

  pub has_item-emplace_item :
      (k : K) (it : MonitorItem) (j : K) (c : ℕ) (s : Bytes) (i : ℕ) (m : Tree K)
      → Rising m
      → has_item c s i (set_of j m) ≡ true
      → has_item c s i (set_of j (emplace_item k it m)) ≡ true
  unfolding emplace_item set_of
  has_item-emplace_item k it j c s i [] r h = absurd (unfold has_item in (ground arith))
  has_item-emplace_item k it j c s i ((l, ms) ∷ m) r h = elim (Bool-cases (o.eq k l)) [
    | inl y ↦ rw y (elim (Bool-cases (o.eq j l)) [
      | inl y' ↦ rw y' (has_item-add_item it c s i ms (rw y' at h))
      | inr n' ↦ rw n' (rw n' at h)
    ])
    | inr n ↦ elim (Bool-cases (o.lt k l)) [
      | inl y ↦
          rw (n, y)
            (elim (Bool-cases (o.eq j k)) [
              | inr n' ↦ rw n' h
              | inl y' ↦
                  let same = o.eq→path j k y' in
                  let none_there : set_of k ((l, ms) ∷ m) ≡ [] =
                    set_of-Above k ((l, ms) ∷ m) (y, Above-trans k l m y r.0) in
                  absurd (
                    unfold has_item in
                    (ground
                      (arith, subst (λ x. has_item c s i (set_of x ((l, ms) ∷ m)) ≡ true) same h)))
            ])
      | inr n' ↦
          rw (n, n')
            (elim (Bool-cases (o.eq j l)) [
              | inl y' ↦ rw y' (rw y' at h)
              | inr n'' ↦ rw n'' (has_item-emplace_item k it j c s i m r.1 (rw n'' at h))
            ])
    ]
  ]
