-- ===== src/Monitors/Uninstall.antt =====
-- uninstallLookups of src/ActiveMonitors.h never fails on a monitor that is installed, and leaves
-- nothing of it.
use strfry.Prelude.{
  ℕ, ◌+◌, ◌≡◌, refl, sym, ap, subst, inl, inr, true, false, none, some, List, [], ◌∷◌, arith,
  Bool-cases, all, ok,
}
use strfry.Prelude.Bytes.{Bytes}
use strfry.Prelude.Distinct.{InList, Distinct}
use strfry.ConnMap.{same_sub, same_sub_ne, same_sub→eq, without}
use strfry.Monitors.Items.{MonitorItem, is_filter}
use strfry.Monitors.Keys.{IndexKey}
use strfry.Monitors.Index.{Index, Throughout, AreRising, has_at, Throughout-map}
use strfry.Monitors.Index.Removing.{Left, erase_key-Removes}
use strfry.Monitors.Conns.{Monitor, Monitors}
use strfry.Monitors.Operations.{uninstall_places}
use strfry.Monitors.Valid.{filters_of, IsSound, Fits, IsGood}
use strfry.Monitors.Places.{Place, placed, placed-listed, listed-placed, placed-Distinct}

module _ (c : ℕ) (s : Bytes) where
  -- An item is not the monitor's under one of the places.
  abbrev Cleared : (IndexKey → MonitorItem → Type 0) → List Place → IndexKey → MonitorItem → Type 0
  Cleared P ps k it =
      P k it × (InList (k, it.filter) ps → same_sub c s it.conn_id it.sub_id ≡ false)

  Cleared-next :
      (P : IndexKey → MonitorItem → Type 0) (k : IndexKey) (i : ℕ) (ps : List Place) (j : IndexKey)
      (it : MonitorItem)
      → Cleared (Left k c s i P) ps j it
      → Cleared P ((k, i) ∷ ps) j it
  unfolding is_filter
  Cleared-next P k i ps j it ((p, not_first), later) = (p, λ place. here place)
    where
      here : InList (j, it.filter) ((k, i) ∷ ps) → same_sub c s it.conn_id it.sub_id ≡ false
      here (inr a) = later a
      here (inl e) =
          let same_key : j ≡ k = ap (λ (q : Place). q.0) e in
          let same_filter : it.filter ≡ i = ap (λ (q : Place). q.1) e in
          let off = not_first same_key in ground arith

  pub uninstall_places_lem :
      (P : IndexKey → MonitorItem → Type 0) (ps : List Place) (ix : Index)
      → AreRising ix
      → Throughout P ix
      → Distinct ps
      → ((k : IndexKey) (i : ℕ) → InList (k, i) ps → has_at k c s i ix ≡ true)
      → (ix' : Index) × (uninstall_places c s ps ix ≡ ok ix')
        × AreRising ix'
        × Throughout (Cleared P ps) ix'
        × ((k : IndexKey) (c' : ℕ) (s' : Bytes) (i : ℕ)
            → same_sub c s c' s' ≡ false
            → has_at k c' s' i ix ≡ true
            → has_at k c' s' i ix' ≡ true)
  unfolding uninstall_places
  uninstall_places_lem P [] ix r h d there =
      (ix, refl, r, Throughout-map _ _ ix (λ k it p. (p, λ e. absurd e)) h, λ k c' s' i other q. q)
  uninstall_places_lem P ((k, i) ∷ ps) ix r h d there =
      let (ix1, run, r1, left, stays) = erase_key-Removes P c s i ix r h k (there k i (inl refl)) in
      let there1 : (k' : IndexKey) (i' : ℕ) → InList (k', i') ps → has_at k' c s i' ix1 ≡ true =
        λ k' i' a.
          stays k' c s i'
            (λ (e, e_c, e_s, e_i).
              d.0 (subst (λ (q : Place). InList q ps) (λ t. (sym e t, sym e_i t)) a))
            (there k' i' (inr a)) in
      let (ix2, run2, r2, all, stays2) =
        uninstall_places_lem (Left k c s i P) ps ix1 r1 left d.1 there1 in
      (
        ix2,
        rw run run2,
        r2,
        Throughout-map _ _ ix2 (Cleared-next P k i ps) all,
        λ k' c' s' i' other q.
            stays2 k' c' s' i' other
              (stays k' c' s' i' (λ (e, e_c, e_s, e_i). same_sub_ne c s c' s' other e_c e_s) q),
      )

  module _ (now : ℕ) (mons : Monitors) (ix : Index) (fits : Fits now mons ix) (m : Monitor)
      (found : mons c s ≡ some m) (good : IsGood c s m) where
    pub uninstall_places-Fits :
        (ix' : Index) × (uninstall_places c s (placed 0 (filters_of m)) ix ≡ ok ix')
        × Fits now (without c s mons) ix'
    uninstall_places-Fits =
        let ps = placed 0 (filters_of m) in
        let there : (k : IndexKey) (i : ℕ) → InList (k, i) ps → has_at k c s i ix ≡ true = λ k i a.
          (let (j, f, e, got, listed) = listed-placed 0 (filters_of m) (k, i) a in
            let at_i : j ≡ i = omega arith in
            fits.complete c s m i k found (f, rw (← at_i) got, listed)) in
        let (ix', run, r, cleared, stays) =
          uninstall_places_lem (IsSound now mons) ps ix fits.rising fits.sound
            (placed-Distinct 0 (filters_of m) good.indexable) there in
        (
          ix',
          run,
          record {
            rising = r;
            sound = Throughout-map _ _ ix' (λ k it. gone k it) cleared;
            complete = λ c' s' m' i k found' listed. elim (Bool-cases (same_sub c s c' s')) [
              | inl same ↦ let no_one : none ≡ some m' = rw same at found' in absurd (ground arith)
              | inr other ↦
                  stays k c' s' i other (fits.complete c' s' m' i k (rw other at found') listed)
            ];
          },
        )
      where
        gone :
            (k : IndexKey) (it : MonitorItem)
            → Cleared (IsSound now mons) (placed 0 (filters_of m)) k it
            → IsSound now (without c s mons) k it
        gone k it ((m', found', (f, got, listed), rest), off) =
            elim (Bool-cases (same_sub c s it.conn_id it.sub_id)) [
              | inr other ↦ (m', rw other found', (f, got, listed), rest)
              | inl same ↦
                  let (e, e') = same_sub→eq c s it.conn_id it.sub_id same in
                  let found_m : mons it.conn_id it.sub_id ≡ some m = rw (← e, ← e') found in
                  let it_is : m' ≡ m = cc in
                  let place =
                    placed-listed 0 it.filter (filters_of m) f k (rw (← it_is) got) listed in
                  let at_i : 0 + it.filter ≡ it.filter = omega arith in
                  let off' = off (rw at_i at place) in cc
            ]
