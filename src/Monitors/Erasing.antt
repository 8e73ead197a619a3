-- ===== src/Monitors/Erasing.antt =====
-- What erase_item of Monitors/Trees does to the other items: ActiveMonitors::uninstallLookups of
-- src/ActiveMonitors.h removes one filter from one set.
use strfry.Prelude.{
  ℕ, ◌≡◌, refl, sym, subst, ◌∙◌, inl, inr, true, false, [], ◌∷◌, arith, ◌==◌, if◌then◌else◌,
  Bool-cases, if-cases, length, all, All, All-map, ok,
}
use strfry.Prelude.Bytes.{Bytes}
use strfry.Monitors.Items.{
  MonitorItem, MonitorSet, is_filter, has_item, remove_item, All-remove_item, has_item-remove_item,
}
use strfry.Monitors.Trees.{KeyOrder, Tree, Above, Rising, AllItems, erase_item, set_of}

none_left :
    (ms : MonitorSet) (c : ℕ) (s : Bytes) (i : ℕ)
    → (length ms == 0) ≡ true
    → has_item c s i ms ≡ true
    → ⊥
unfolding has_item
none_left [] c s i e h = cc
none_left (it ∷ ms) c s i e h = absurd (ground arith)

module _ {K : Type 0} (o : KeyOrder K) (k : K) (c : ℕ) (s : Bytes) (i : ℕ) where
  -- An item of the key is not the filter's.
  abbrev pub Erased : (K → MonitorItem → Type 0) → K → MonitorItem → Type 0
  Erased P j it = P j it × (j ≡ k → is_filter c s i it ≡ false)

  -- An item of another key, or of another filter, stays.
  abbrev pub Stays : Tree K → Tree K → Type 0
  Stays m m' =
      (j : K) (c' : ℕ) (s' : Bytes) (i' : ℕ)
      → ¬ ((k ≡ j) × (c ≡ c') × (s ≡ s') × (i ≡ i'))
      → has_item c' s' i' (set_of o j m) ≡ true
      → has_item c' s' i' (set_of o j m') ≡ true

  All-other :
      (P : K → MonitorItem → Type 0) (j : K) (ms : MonitorSet)
      → ¬ (j ≡ k)
      → All (P j) ms
      → All (Erased P j) ms
  All-other P j ms other h = All-map (P j) (Erased P j) (λ it p. (p, λ e. absurd (other e))) ms h

  AllItems-Above :
      (P : K → MonitorItem → Type 0) (m : Tree K)
      → Above o k m
      → AllItems o P m
      → AllItems o (Erased P) m
  AllItems-Above P [] up h = tt
  AllItems-Above P ((j, ms) ∷ m) up h = (
    All-other P j ms
        (λ e.
          (let bad : o.lt j j ≡ true = subst (λ x. o.lt x j ≡ true) (sym e) up.0 in
            let f = o.lt_self j in cc))
        h.0,
    AllItems-Above P m up.1 h.1,
  )

  -- The set of the key after the erasure: what is left of it, or nothing.
  Stays-here :
      (j : K) (ms : MonitorSet) (m : Tree K)
      → k ≡ j
      → Above o j m
      → Stays
          ((j, ms) ∷ m)
          (if length (remove_item c s i ms) == 0 then m else (j, remove_item c s i ms) ∷ m)
  unfolding set_of
  Stays-here j ms m same up l c' s' i' other h = elim (Bool-cases (o.eq l j)) [
    | inl y ↦
        let same' = o.eq→path l j y in
        let left =
          has_item-remove_item c s i c' s' i' ms (λ (p, q, r). other (same ∙ sym same', p, q, r))
            (rw y at h) in
        if-cases (λ t. has_item c' s' i' (set_of o l t) ≡ true) (length (remove_item c s i ms) == 0)
          m ((j, remove_item c s i ms) ∷ m)
          (λ e. absurd (none_left (remove_item c s i ms) c' s' i' e left)) (λ e. rw y left)
    | inr n ↦
        if-cases (λ t. has_item c' s' i' (set_of o l t) ≡ true) (length (remove_item c s i ms) == 0)
          m ((j, remove_item c s i ms) ∷ m) (λ e. rw n at h) (λ e. rw n (rw n at h))
  ]

  -- The erasure of a filter that the key's set has succeeds.
  pub erase_item-Erased :
      (P : K → MonitorItem → Type 0) (m : Tree K)
      → Rising o m
      → AllItems o P m
      → has_item c s i (set_of o k m) ≡ true
      → (m' : Tree K) × (erase_item o k c s i m ≡ ok m')
        × Rising o m'
        × AllItems o (Erased P) m'
        × Stays m m'
        × ((a : K) → Above o a m → Above o a m')
  unfolding erase_item set_of
  erase_item-Erased P [] r h there = absurd (unfold has_item in (ground arith))
  erase_item-Erased P ((j, ms) ∷ m) r h there = elim (Bool-cases (o.eq k j)) [
    | inl y ↦
        let same = o.eq→path k j y in
        let left = remove_item c s i ms in
        let Good = λ (t : Tree K).
          Rising o t
          × AllItems o (Erased P) t
          × ((a : K) → Above o a ((j, ms) ∷ m) → Above o a t) in
        let up = subst (λ x. Above o x m) (sym same) r.0 in
        let rest = AllItems-Above P m up h.1 in
        let good =
          if-cases Good (length left == 0) m ((j, left) ∷ m) (λ e. (r.1, rest, λ a q. q.1))
            (λ e. (
              (r.0, r.1),
              (
                All-map _ _ (λ it q. (q.0, λ e'. q.1)) left (All-remove_item (P j) c s i ms h.0),
                rest,
              ),
              λ a q. q,
            )) in
        (
          (if length left == 0 then m else (j, left) ∷ m),
          rw y refl,
          good.0,
          good.1,
          Stays-here j ms m same r.0,
          good.2,
        )
    | inr n ↦
        let (m', run, r', all, stays, up) = erase_item-Erased P m r.1 h.1 (rw n at there) in
        (
          (j, ms) ∷ m',
          rw (n, run) refl,
          (up j r.0, r'),
          (All-other P j ms (λ e. (let z : o.eq k j ≡ true = rw e (o.eq_self k) in cc)) h.0, all),
          (λ l c' s' i' other q. elim (Bool-cases (o.eq l j)) [
            | inl y' ↦ rw y' (rw y' at q)
            | inr n' ↦ rw n' (stays l c' s' i' other (rw n' at q))
          ]),
          λ a q. (q.0, up a q.1),
        )
  ]
