-- ===== src/Monitors/Places.antt =====
-- installLookups and uninstallLookups of src/ActiveMonitors.h put a monitor's filters into the
-- indices and take them out again.
use strfry.Prelude.{
  ℕ, zero, suc, ◌+◌, ◌≡◌, refl, sym, ap, subst, ◌∙◌, inl, inr, true, false, none, some, List, [],
  ◌∷◌, ◌++◌, map, arith, Bool-cases, get_elem?, All, ok,
}
use strfry.Prelude.Bytes.{Bytes}
use strfry.Prelude.Distinct.{
  InList, Distinct, InList-append, InList-left, InList-right, append-Distinct, InList-map,
  InList-unmap, map-Distinct,
}
use strfry.ConnMap.{same_sub, same_sub_refl, same_sub→eq, with_entry}
use strfry.Filters.Filter.{NostrFilter}
use strfry.Monitors.Items.{MonitorItem}
use strfry.Monitors.Keys.{IndexKey}
use strfry.Monitors.Keys.Indexable.{IsIndexable, keys_of, index_keys-keys_of, keys_of-Distinct}
use strfry.Monitors.Index.{Index, emplace_key, Throughout, AreRising, has_at, Throughout-map}
use strfry.Monitors.Index.Emplacing.{
  emplace_key-AreRising, Throughout-emplace_key, has_at-emplace_key_self, has_at-emplace_key,
}
use strfry.Monitors.Conns.{Monitor, Monitors}
use strfry.Monitors.Operations.{places, install_places}
use strfry.Monitors.Valid.{filters_of, IsSound, Fits}

abbrev pub Place : Type 0
Place = IndexKey × ℕ

unfoldable pub placed : ℕ → List NostrFilter → List Place
placed i [] = []
placed i (f ∷ fs) = map (λ k. (k, i)) (keys_of f) ++ placed (i + 1) fs

pub places-placed :
    (i : ℕ) (fs : List NostrFilter) → All IsIndexable fs → places i fs ≡ ok (placed i fs)
unfolding places placed
places-placed i [] h = refl
places-placed i (f ∷ fs) h = rw (index_keys-keys_of f h.0, places-placed (i + 1) fs h.1) refl

pub placed-listed :
    (i n : ℕ) (fs : List NostrFilter) (f : NostrFilter) (k : IndexKey)
    → get_elem? fs n ≡ some f
    → InList k (keys_of f)
    → InList (k, i + n) (placed i fs)
unfolding placed
placed-listed i n [] f k e h = absurd (ground arith)
placed-listed i zero (g ∷ fs) f k e h =
    let same : g ≡ f = ground arith in
    let at_i : i + 0 ≡ i = omega arith in
    rw (at_i, same) (InList-left (k, i) _ _ (InList-map (λ x. (x, i)) k (keys_of f) h))
placed-listed i (suc n) (g ∷ fs) f k e h =
    let at_n : i + suc n ≡ (i + 1) + n = omega arith in
    rw at_n (InList-right (k, (i + 1) + n) _ _ (placed-listed (i + 1) n fs f k e h))

pub listed-placed :
    (i : ℕ) (fs : List NostrFilter) (p : Place)
    → InList p (placed i fs)
    → (n : ℕ) × (f : NostrFilter) × (p.1 ≡ i + n)
      × (get_elem? fs n ≡ some f)
      × InList p.0 (keys_of f)
unfolding placed
listed-placed i [] p h = absurd h
listed-placed i (f ∷ fs) p h =
    elim (InList-append p (map (λ k. (k, i)) (keys_of f)) (placed (i + 1) fs) h) [
      | inl a ↦
          let (k, there, e) = InList-unmap (λ k. (k, i)) p (keys_of f) a in
          (
            0,
            f,
            ap (λ q. q.1) e ∙ omega arith,
            refl,
            subst (λ x. InList x (keys_of f)) (sym (ap (λ q. q.0) e)) there,
          )
      | inr b ↦
          let (n, g, e, got, there) = listed-placed (i + 1) fs p b in
          (suc n, g, omega arith, got, there)
    ]

pub placed-Distinct : (i : ℕ) (fs : List NostrFilter) → All IsIndexable fs → Distinct (placed i fs)
unfolding placed
placed-Distinct i [] h = tt
placed-Distinct i (f ∷ fs) h =
    append-Distinct (map (λ k. (k, i)) (keys_of f)) (placed (i + 1) fs)
      (map-Distinct (λ k. (k, i)) (keys_of f) (λ a b e. ap (λ q. q.0) e) (keys_of-Distinct f h.0))
      (placed-Distinct (i + 1) fs h.1)
      (λ p a b.
        let (k, there, e) = InList-unmap (λ k. (k, i)) p (keys_of f) a in
        let (n, g, e', got, rest) = listed-placed (i + 1) fs p b in
        let first : p.1 ≡ i = ap (λ q. q.1) e in omega arith)

module _ (c : ℕ) (s : Bytes) (n : ℕ) where
  abbrev item_of : ℕ → MonitorItem
  item_of i = record { conn_id = c; sub_id = s; filter = i; latest_event_id = n }

  install_places-AreRising :
      (ps : List Place) (ix : Index) → AreRising ix → AreRising (install_places c s n ps ix)
  unfolding install_places
  install_places-AreRising [] ix r = r
  install_places-AreRising ((k, i) ∷ ps) ix r =
      install_places-AreRising ps _ (emplace_key-AreRising k (item_of i) ix r)

  Throughout-install_places :
      (P : IndexKey → MonitorItem → Type 0) (ps : List Place) (ix : Index)
      → ((k : IndexKey) (i : ℕ) → InList (k, i) ps → P k (item_of i))
      → Throughout P ix
      → Throughout P (install_places c s n ps ix)
  unfolding install_places
  Throughout-install_places P [] ix new h = h
  Throughout-install_places P ((k, i) ∷ ps) ix new h =
      Throughout-install_places P ps _ (λ k' i' a. new k' i' (inr a))
        (Throughout-emplace_key P k (item_of i) ix (new k i (inl refl)) h)

  has_at-install_places :
      (ps : List Place) (ix : Index) (j : IndexKey) (c' : ℕ) (s' : Bytes) (i' : ℕ)
      → AreRising ix
      → has_at j c' s' i' ix ≡ true
      → has_at j c' s' i' (install_places c s n ps ix) ≡ true
  unfolding install_places
  has_at-install_places [] ix j c' s' i' r h = h
  has_at-install_places ((k, i) ∷ ps) ix j c' s' i' r h =
      has_at-install_places ps _ j c' s' i' (emplace_key-AreRising k (item_of i) ix r)
        (has_at-emplace_key k (item_of i) j c' s' i' ix r h)

  has_at-install_places_new :
      (ps : List Place) (ix : Index) (j : IndexKey) (i' : ℕ)
      → AreRising ix
      → InList (j, i') ps
      → has_at j c s i' (install_places c s n ps ix) ≡ true
  unfolding install_places
  has_at-install_places_new [] ix j i' r h = absurd h
  has_at-install_places_new ((k, i) ∷ ps) ix j i' r (inr h) =
      has_at-install_places_new ps _ j i' (emplace_key-AreRising k (item_of i) ix r) h
  has_at-install_places_new ((k, i) ∷ ps) ix j i' r (inl e) =
      let new : has_at j c s i' (emplace_key k (item_of i) ix) ≡ true =
        subst (λ (q : Place). has_at q.0 c s q.1 (emplace_key k (item_of i) ix) ≡ true) (sym e)
          (has_at-emplace_key_self k (item_of i) ix) in
      has_at-install_places ps _ j c s i' (emplace_key-AreRising k (item_of i) ix r) new

  module _ (now : ℕ) (mons : Monitors) (ix : Index) (fits : Fits now mons ix) (m : Monitor)
      (absent : mons c s ≡ none) (up_to_date : m.sub.latest_event_id ≡ n) where
    without_new :
        (c' : ℕ) (s' : Bytes) (m' : Monitor) → mons c' s' ≡ some m' → same_sub c s c' s' ≡ false
    without_new c' s' m' found = elim (Bool-cases (same_sub c s c' s')) [
      | inr other ↦ other
      | inl same ↦
          let (e, e') = same_sub→eq c s c' s' same in
          let gone : mons c' s' ≡ none = rw (← e, ← e') absent in cc
    ]

    -- Installing a monitor that is up to date.
    pub install_places-Fits :
        Fits now (with_entry c s m mons) (install_places c s n (placed 0 (filters_of m)) ix)
    install_places-Fits = record {
      rising = install_places-AreRising (placed 0 (filters_of m)) ix fits.rising;
      sound =
          Throughout-install_places (IsSound now (with_entry c s m mons)) (placed 0 (filters_of m))
            ix
            (λ k i a.
              let (j, f, e, got, there) = listed-placed 0 (filters_of m) (k, i) a in
              let at_i : j ≡ i = omega arith in
              (m, rw (same_sub_refl c s) refl, (f, rw (← at_i) got, there), ground arith))
            (Throughout-map _ _ ix
              (λ k it (m', found, listed, seen).
                (m', rw (without_new it.conn_id it.sub_id m' found) found, listed, seen))
              fits.sound);
      complete = λ c' s' m' i k found listed. elim (Bool-cases (same_sub c s c' s')) [
        | inr other ↦
            has_at-install_places (placed 0 (filters_of m)) ix k c' s' i fits.rising
              (fits.complete c' s' m' i k (rw other at found) listed)
        | inl same ↦
            let (e, e') = same_sub→eq c s c' s' same in
            let it_is : some m ≡ some m' = rw same at found in
            let m_is : m ≡ m' = cc in
            let (f, got, there) = listed in
            let place = placed-listed 0 i (filters_of m) f k (rw m_is got) there in
            let at_i : 0 + i ≡ i = omega arith in
            rw (← e, ← e')
              (has_at-install_places_new (placed 0 (filters_of m)) ix k i fits.rising
                (rw at_i at place))
      ];
    }
