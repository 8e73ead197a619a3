-- ===== src/Monitors/Visiting.antt =====
-- processMonitorSet of src/ActiveMonitors.h over a whole set.
use strfry.Prelude.{
  ℕ, ◌≡◌, refl, ◌∙◌, inl, inr, true, false, some, [], ◌∷◌, arith, leb, ◌==◌, Bool-cases, get_elem?,
  All, All-map, ok,
}
use strfry.Prelude.Bytes.{Bytes}
use strfry.Prelude.Distinct.{InList}
use strfry.ConnMap.{find_in, same_sub_refl}
use strfry.PackedEvent.{Lmdb}
use strfry.PackedEvent.RoundTrip.{EventData, IsPackable, view_of}
use strfry.Filters.Filter.{NostrFilter}
use strfry.Filters.Filter.Matching.{matches, does_match-matches}
use strfry.Monitors.Items.{MonitorItem, MonitorSet, is_filter, has_item}
use strfry.Monitors.Keys.{IndexKey}
use strfry.Monitors.Keys.Indexable.{IsIndexable, IsIndexable-Denotes, spec_of, keys_of}
use strfry.Monitors.Conns.{Monitor, Monitors, touch}
use strfry.Monitors.Operations.{Progress, visit_item, visit_set}
use strfry.Monitors.Valid.{filters_of, IsGood}
use strfry.Monitors.Telling.{
  times_told, is_due, any-get_elem?, All-get_elem?, IsTelling, is_settled, Later, IsWaiting,
  IsSettled, IsWaiting-Later, IsSettled-Later, tell, tell-told, tell-IsTelling,
}

module _ ⦃lmdb : Lmdb⦄ (max_subs e : ℕ) (d : EventData) (packable : IsPackable d) (mons : Monitors)
    (good : (c : ℕ) (s : Bytes) (m : Monitor) → mons c s ≡ some m → IsGood c s m) where
  abbrev pub Telling : Progress → Type 0
  Telling = IsTelling max_subs e d packable mons good

  abbrev pub Waits : Progress → IndexKey → MonitorItem → Type 0
  Waits = IsWaiting max_subs e d packable mons good

  abbrev pub Settled : Progress → IndexKey → MonitorItem → Type 0
  Settled = IsSettled max_subs e d packable mons good

  abbrev pub Grows : Progress → Progress → Type 0
  Grows = Later max_subs e d packable mons good

  abbrev SamePointer : MonitorItem → MonitorItem → Type 0
  SamePointer it it' =
      (it'.conn_id ≡ it.conn_id) × (it'.sub_id ≡ it.sub_id) × (it'.filter ≡ it.filter)

  abbrev Visited : IndexKey → MonitorItem → Progress → Type 0
  Visited k it p =
      (it' : MonitorItem) × (p' : Progress) × (visit_item e (view_of d) it p ≡ ok (it', p'))
      × Telling p'
      × Grows p p'
      × Waits p' k it'
      × Settled p' k it'
      × SamePointer it it'

  -- The item and the progress stay as they are.
  unmoved :
      (k : IndexKey) (it : MonitorItem) (p : Progress)
      → visit_item e (view_of d) it p ≡ ok (it, p)
      → Telling p
      → Waits p k it
      → Settled p k it
      → Visited k it p
  unmoved k it p run t w q = (it, p, run, t, (λ c s. omega arith), w, q, (refl, refl, refl))

  -- The item of a filter that is settled, after the visit.
  after_visit :
      (k : IndexKey) (it : MonitorItem) (p : Progress) (m : Monitor) (f : NostrFilter)
      → mons it.conn_id it.sub_id ≡ some m
      → get_elem? (filters_of m) it.filter ≡ some f
      → InList k (keys_of f)
      → is_settled max_subs e d packable mons good p it.conn_id it.sub_id m f ≡ true
      → Waits p k (record it { latest_event_id = e })
        × Settled p k (record it { latest_event_id = e })
  after_visit k it p m f found got listed settled =
      ((m, f, found, got, listed, ground arith, ground arith), (m, f, found, got, settled))

  told_now :
      (it : MonitorItem) (p : Progress) (m : Monitor) (f : NostrFilter)
      → IsGood it.conn_id it.sub_id m
      → is_settled max_subs e d packable mons good
          (tell max_subs e d packable mons good it.conn_id it.sub_id m p)
          it.conn_id
          it.sub_id
          m
          f
        ≡ true
  told_now it p m f g =
      rw
        (
          tell-told max_subs e d packable mons good it.conn_id it.sub_id m p g it.conn_id it.sub_id,
          same_sub_refl it.conn_id it.sub_id,
        )
        (ground arith)

  tell-Grows :
      (c : ℕ) (s : Bytes) (m : Monitor) (p : Progress)
      → IsGood c s m
      → Grows p (tell max_subs e d packable mons good c s m p)
  tell-Grows c s m p g c' s' =
      let n = tell-told max_subs e d packable mons good c s m p g c' s' in ground arith

  is_due_lem :
      (m : Monitor) (i : ℕ) (f : NostrFilter)
      → get_elem? (filters_of m) i ≡ some f
      → matches (spec_of f) d ≡ true
      → leb e m.sub.latest_event_id ≡ false
      → is_due e d m ≡ true
  unfolding is_due
  is_due_lem m i f got match behind =
      let one = any-get_elem? (λ g. matches (spec_of g) d) (filters_of m) i f got match in
      ground arith

  -- The filter is asked.
  asked :
      (k : IndexKey) (it : MonitorItem) (p : Progress) (m : Monitor) (f : NostrFilter)
      → Telling p
      → mons it.conn_id it.sub_id ≡ some m
      → get_elem? (filters_of m) it.filter ≡ some f
      → InList k (keys_of f)
      → leb e it.latest_event_id ≡ false
      → leb e m.sub.latest_event_id ≡ false
      → times_told it.conn_id it.sub_id p.recipients ≡ 0
      → find_in it.conn_id it.sub_id p.conns ≡ some m
      → Visited k it p
  unfolding visit_item
  asked k it p m f t found got listed fresh behind untold there =
      let g = good it.conn_id it.sub_id m found in
      let answer = does_match-matches d packable f (spec_of f) (
        IsIndexable-Denotes f
          (All-get_elem? IsIndexable (filters_of m) it.filter f got g.indexable)) in
      elim (Bool-cases (matches (spec_of f) d)) [
        | inr no_match ↦
            let (w, q) = after_visit k it p m f found got listed (ground arith) in
            (
              record it { latest_event_id = e },
              p,
              rw (fresh, there, got, behind, answer, no_match) refl,
              t,
              (λ c s. omega arith),
              w,
              q,
              (refl, refl, refl),
            )
        | inl match ↦
            let p' = tell max_subs e d packable mons good it.conn_id it.sub_id m p in
            let (w, q) = after_visit k it p' m f found got listed (told_now it p m f g) in
            (
              record it { latest_event_id = e },
              p',
              rw (fresh, there, got, behind, answer, match) refl,
              tell-IsTelling max_subs e d packable mons good it.conn_id it.sub_id m p t found untold
                  (is_due_lem m it.filter f got match behind),
              tell-Grows it.conn_id it.sub_id m p g,
              w,
              q,
              (refl, refl, refl),
            )
      ]

  visit_item-Visited :
      (k : IndexKey) (it : MonitorItem) (p : Progress) → Telling p → Waits p k it → Visited k it p
  visit_item-Visited k it p t w =
      let (m, f, found, got, listed, seen, waits) = w in
      elim (Bool-cases (leb e it.latest_event_id)) [
        | inl old ↦
            unmoved k it p (unfold visit_item in rw old refl) t w (m, f, found, got, ground arith)
        | inr fresh ↦ elim (Bool-cases (times_told it.conn_id it.sub_id p.recipients == 0)) [
          | inr told ↦
              let there : find_in it.conn_id it.sub_id p.conns ≡ some (touch e m) =
                t.view it.conn_id it.sub_id ∙ rw (told, found) refl in
              let past : leb e e ≡ true = ground arith in
              unmoved k it p (unfold visit_item in rw (fresh, there, got, past) refl) t w
                (m, f, found, got, ground arith)
          | inl untold ↦
              let there : find_in it.conn_id it.sub_id p.conns ≡ some m =
                t.view it.conn_id it.sub_id ∙ rw (untold, found) refl in
              elim (Bool-cases (leb e m.sub.latest_event_id)) [
                | inl past ↦
                    unmoved k it p (unfold visit_item in rw (fresh, there, got, past) refl) t w
                      (m, f, found, got, ground arith)
                | inr behind ↦ asked k it p m f t found got listed fresh behind (ground arith) there
              ]
        ]
      ]

  is_filter-SamePointer :
      (it it' : MonitorItem) (c : ℕ) (s : Bytes) (i : ℕ)
      → SamePointer it it'
      → is_filter c s i it' ≡ is_filter c s i it
  unfolding is_filter
  is_filter-SamePointer it it' c s i (a, b, n) = rw (a, b, n) refl

  -- Visiting a set never fails, and settles its filters.
  pub visit_set_lem :
      (k : IndexKey) (ms : MonitorSet) (p : Progress)
      → Telling p
      → All (Waits p k) ms
      → (ms' : MonitorSet) × (p' : Progress) × (visit_set e (view_of d) ms p ≡ ok (ms', p'))
        × Telling p'
        × Grows p p'
        × All (Waits p' k) ms'
        × All (Settled p' k) ms'
        × ((c : ℕ) (s : Bytes) (i : ℕ) → has_item c s i ms' ≡ has_item c s i ms)
  unfolding visit_set has_item
  visit_set_lem k [] p t w = ([], p, refl, t, (λ c s. omega arith), tt, tt, λ c s i. refl)
  visit_set_lem k (it ∷ ms) p t w =
      let (it1, p1, run1, t1, grows1, w1, q1, same) = visit_item-Visited k it p t w.0 in
      let waiting =
        All-map (Waits p k) (Waits p1 k)
          (λ it'. IsWaiting-Later max_subs e d packable mons good p p1 k it' grows1) ms w.1 in
      let (ms2, p2, run2, t2, grows2, w2, q2, has) = visit_set_lem k ms p1 t1 waiting in
      (
        it1 ∷ ms2,
        p2,
        rw (run1, run2) refl,
        t2,
        (λ c s. (let a = grows1 c s in let b = grows2 c s in omega arith)),
        (IsWaiting-Later max_subs e d packable mons good p1 p2 k it1 grows2 w1, w2),
        (IsSettled-Later max_subs e d packable mons good p1 p2 k it1 grows2 q1, q2),
        λ c s i. rw (is_filter-SamePointer it it1 c s i same, has c s i) refl,
      )
