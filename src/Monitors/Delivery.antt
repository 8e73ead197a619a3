-- ===== src/Monitors/Delivery.antt =====
-- ActiveMonitors::process of src/ActiveMonitors.h tells exactly the monitors that have a filter for
-- the event.
use strfry.Prelude.{
  ℕ, suc, ◌<◌, ◌≡◌, refl, sym, subst, ◌∙◌, ◌⊎◌, inl, inr, Bool, true, false, Option, none, some,
  List, [], ◌∷◌, arith, leb, ◌==◌, if◌then◌else◌, Bool-cases, Option-cases, length, get_elem?, any,
  all, All, ok,
}
use strfry.Prelude.Bytes.{Bytes}
use strfry.Prelude.Distinct.{InList, InList-append}
use strfry.ConnMap.{find_in}
use strfry.PackedEvent.{Lmdb}
use strfry.PackedEvent.Lemmas.{Tag, fold_tags}
use strfry.PackedEvent.RoundTrip.{
  EventData, IsPackable, packed, view_of, view-accepts, id-packed, pubkey-packed, kind-packed,
  foreach_tag-pack,
}
use strfry.Events.Verify.{bytes32}
use strfry.Filters.Filter.{NostrFilter}
use strfry.Filters.Filter.Matching.{matches}
use strfry.Subscriptions.Subscription.{RecipientList}
use strfry.Monitors.Items.{MonitorItem, MonitorSet, is_filter, has_item, is_filter→eq}
use strfry.Monitors.Keys.{IndexKey, by_id, by_author, by_tag, by_kind, by_other}
use strfry.Monitors.Keys.Indexable.{keys_of, spec_of}
use strfry.Monitors.Keys.Probes.{tag_probes, probes, matches-Meets}
use strfry.Monitors.Index.{Index, items_at, has_at, Throughout-map}
use strfry.Monitors.Conns.{Monitor, Monitors, monitors, touch}
use strfry.Monitors.Operations.{
  ActiveMonitors, Progress, process_key, process_tag, process_keys, process,
}
use strfry.Monitors.Valid.{filters_of, IsListed, IsSound, IsGood, IsValid}
use strfry.Monitors.Telling.{times_told, is_due, is_settled, IsWaiting, IsSettled, is_settled-Later}
use strfry.Monitors.Rounds.{Ready, process_key-Round}

All-has_item :
    (P : MonitorItem → Type 0) (c : ℕ) (s : Bytes) (i : ℕ) (ms : MonitorSet)
    → All P ms
    → has_item c s i ms ≡ true
    → (it : MonitorItem) × P it × (c ≡ it.conn_id) × (s ≡ it.sub_id) × (i ≡ it.filter)
unfolding has_item
All-has_item P c s i [] h there = absurd (ground arith)
All-has_item P c s i (it ∷ ms) h there = elim (Bool-cases (is_filter c s i it)) [
  | inl y ↦ let (a, b, n) = is_filter→eq c s i it y in (it, h.0, a, b, n)
  | inr n ↦ All-has_item P c s i ms h.1 (ground arith)
]

any→index :
    {A : Type 0} (p : A → Bool) (xs : List A)
    → any p xs ≡ true
    → (i : ℕ) × (x : A) × (get_elem? xs i ≡ some x) × (p x ≡ true)
any→index p [] h = absurd (ground arith)
any→index p (x ∷ xs) h = elim (Bool-cases (p x)) [
  | inl y ↦ (0, x, refl, y)
  | inr n ↦ let (i, y, got, q) = any→index p xs (ground arith) in (suc i, y, got, q)
]

-- Whom the callback is called with.
abbrev pub recipients_of : Option (RecipientList × ℕ) → RecipientList
recipients_of none = []
recipients_of (some (rs, lev_id)) = rs

module _ ⦃lmdb : Lmdb⦄ (max_subs now e : ℕ) (d : EventData) (packable : IsPackable d)
    (am : ActiveMonitors) (v : IsValid max_subs now am) (later : now < e) where
  abbrev mons : Monitors
  mons = monitors am.conns

  abbrev is_set : Progress → ℕ → Bytes → Monitor → NostrFilter → Bool
  is_set = is_settled max_subs e d packable (monitors am.conns) v.good

  -- The keys in `Done` have been looked up.
  record SoFar (Done : IndexKey → Type 0) (p : Progress) (ix : Index) : Type 0 where
    ready : Ready max_subs e d packable (monitors am.conns) v.good p ix
    complete :
        (c : ℕ) (s : Bytes) (m : Monitor) (i : ℕ) (k : IndexKey)
        → monitors am.conns c s ≡ some m
        → IsListed k m i
        → has_at k c s i ix ≡ true
    settled :
        (k : IndexKey)
        → Done k
        → (c : ℕ) (s : Bytes) (m : Monitor) (i : ℕ) (f : NostrFilter)
        → monitors am.conns c s ≡ some m
        → get_elem? (filters_of m) i ≡ some f
        → InList k (keys_of f)
        → is_settled max_subs e d packable (monitors am.conns) v.good p c s m f ≡ true

  settled_here :
      (k : IndexKey) (p : Progress) (ms : MonitorSet) (c : ℕ) (s : Bytes) (m : Monitor) (i : ℕ)
      (f : NostrFilter)
      → All (IsSettled max_subs e d packable (monitors am.conns) v.good p k) ms
      → has_item c s i ms ≡ true
      → monitors am.conns c s ≡ some m
      → get_elem? (filters_of m) i ≡ some f
      → is_set p c s m f ≡ true
  settled_here k p ms c s m i f all there found got =
      let (it, (m', f', found', got', set), a, b, n) = All-has_item _ c s i ms all there in
      let found_it : find_in it.conn_id it.sub_id am.conns ≡ some m = rw (← a, ← b) found in
      let m_is : m' ≡ m = cc in
      let got_it : get_elem? (filters_of m) it.filter ≡ some f = rw (← n) got in
      let got_it' : get_elem? (filters_of m) it.filter ≡ some f' = rw (← m_is) got' in
      let f_is : f' ≡ f = cc in rw (a, b, ← m_is, ← f_is) set

  step :
      (Done : IndexKey → Type 0) (k : IndexKey) (p : Progress) (ix : Index)
      → SoFar Done p ix
      → (ix' : Index) × (p' : Progress) × (process_key e (view_of d) k (ix, p) ≡ ok (ix', p'))
        × SoFar (λ j. (j ≡ k) ⊎ Done j) p' ix'
  step Done k p ix so =
      let (ix', p', run, ready, grows, q, has) =
        process_key-Round max_subs e d packable (monitors am.conns) v.good k ix p so.ready in
      (
        ix',
        p',
        run,
        record {
          ready = ready;
          complete = λ c s m i j found listed. has j c s i ∙ so.complete c s m i j found listed;
          settled = λ j done c s m i f found got listed. elim done [
            | inl same ↦
                let listed_k = subst (λ x. InList x (keys_of f)) same listed in
                settled_here k p' (items_at k ix') c s m i f q
                  (has k c s i ∙ so.complete c s m i k found (f, got, listed_k)) found got
            | inr old ↦
                is_settled-Later max_subs e d packable (monitors am.conns) v.good p p' c s m f grows
                  (so.settled j old c s m i f found got listed)
          ];
        },
      )

  steps :
      (Done : IndexKey → Type 0) (ts : List Tag) (p : Progress) (ix : Index)
      → SoFar Done p ix
      → (ix' : Index) × (p' : Progress) × (fold_tags (process_tag e (view_of d)) ts (ok (ix, p))
          ≡ ok (ix', p'))
        × SoFar (λ j. InList j (tag_probes ts) ⊎ Done j) p' ix'
  unfolding fold_tags process_tag
  steps Done [] p ix so = (
    ix,
    p,
    refl,
    record {
      ready = so.ready;
      complete = so.complete;
      settled = λ j done. elim done [ inl a ↦ absurd a | inr b ↦ so.settled j b ];
    },
  )
  steps Done ((k, t) ∷ ts) p ix so =
      let (ix1, p1, run1, so1) = step Done (by_tag (k ∷ t)) p ix so in
      let (ix2, p2, run2, so2) = steps (λ j. (j ≡ by_tag (k ∷ t)) ⊎ Done j) ts p1 ix1 so1 in
      (
        ix2,
        p2,
        rw run1 run2,
        record {
          ready = so2.ready;
          complete = so2.complete;
          settled = λ j done. so2.settled j (elim done [
            | inl a ↦ elim a [ inl same ↦ inr (inl same) | inr b ↦ inl b ]
            | inr b ↦ inr (inr b)
          ]);
        },
      )

  begin : SoFar (λ j. ⊥) (record { conns = am.conns; recipients = [] }) am.index
  begin = record {
    ready = record {
      telling = record {
        view = λ c s. (unfold times_told in refl);
        once = λ c s m found. (unfold times_told in inl refl);
        strangers = λ c s absent. (unfold times_told in refl);
        proper = v.proper;
      };
      rising = v.fits.rising;
      waiting =
          Throughout-map _ _ am.index
            (λ k it (m, found, (f, got, listed), seen).
              (m, f, found, got, listed, ground arith, ground arith))
            v.fits.sound;
    };
    complete = v.fits.complete;
    settled = λ j none_yet. absurd none_yet;
  }

  keys_lem :
      (ix' : Index) × (p' : Progress) × (process_keys e
          (view_of d)
          (am.index, record { conns = am.conns; recipients = [] })
        ≡ ok (ix', p'))
      × SoFar (λ j. InList j (probes d)) p' ix'
  unfolding process_keys bytes32
  keys_lem =
      let (ix1, p1, run1, so1) = step _ (by_id d.id) _ am.index begin in
      let (ix2, p2, run2, so2) = step _ (by_author d.pubkey) p1 ix1 so1 in
      let (ix3, p3, run3, so3) = steps _ d.tags p2 ix2 so2 in
      let (ix4, p4, run4, so4) = step _ (by_kind d.kind) p3 ix3 so3 in
      let (ix5, p5, run5, so5) = step _ by_other p4 ix4 so4 in
      let id_32 : (length d.id == 32) ≡ true = ground (arith, packable.id_size) in
      let pubkey_32 : (length d.pubkey == 32) ≡ true = ground (arith, packable.pubkey_size) in
      (
        ix5,
        p5,
        rw
            (
              id-packed d packable,
              id_32,
              run1,
              pubkey-packed d packable,
              pubkey_32,
              run2,
              foreach_tag-pack d packable (process_tag e (view_of d)) (ok (ix2, p2)),
              run3,
              kind-packed d packable,
              run4,
            )
            run5,
        record {
          ready = so5.ready;
          complete = so5.complete;
          settled = λ j probed. so5.settled j (elim probed [
            | inl a ↦ inr (inr (inr (inr (inl a))))
            | inr r ↦ elim r [
              | inl a ↦ inr (inr (inr (inl a)))
              | inr r' ↦ elim (InList-append j (tag_probes d.tags) _ r') [
                | inl a ↦ inr (inr (inl a))
                | inr q ↦ elim q [
                  | inl a ↦ inr (inl a)
                  | inr q' ↦ elim q' [ inl a ↦ inl a | inr none_left ↦ absurd none_left ]
                ]
              ]
            ]
          ]);
        },
      )

  module _ (p : Progress) (ix : Index) (so : SoFar (λ j. InList j (probes d)) p ix) where
    -- Nobody who is due is left out.
    told_if_due :
        (c : ℕ) (s : Bytes) (m : Monitor)
        → find_in c s am.conns ≡ some m
        → is_due e d m ≡ true
        → (times_told c s p.recipients == 0) ≡ false
    unfolding is_due
    told_if_due c s m found due =
        let (i, f, got, match) =
          any→index (λ g. matches (spec_of g) d) (filters_of m) (ground arith) in
        let (k, listed, probed) = matches-Meets d f match in
        let set = so.settled k probed c s m i f found got listed in
        let behind : leb e m.sub.latest_event_id ≡ false = ground arith in ground arith

    exactly_once :
        (c : ℕ) (s : Bytes) (m : Monitor)
        → find_in c s am.conns ≡ some m
        → times_told c s p.recipients ≡ (if is_due e d m then 1 else 0)
    exactly_once c s m found = elim (so.ready.telling.once c s m found) [
      | inr (one, due) ↦ rw due one
      | inl zero_times ↦ elim (Bool-cases (is_due e d m)) [
        | inr n ↦ rw n zero_times
        | inl y ↦ let told = told_if_due c s m found y in absurd (ground arith)
      ]
    ]

    -- The monitors afterwards are those before, but for the last event of some.
    was_there :
        (c : ℕ) (s : Bytes) (m' : Monitor)
        → find_in c s p.conns ≡ some m'
        → (m : Monitor) × (find_in c s am.conns ≡ some m) × ((m' ≡ m) ⊎ (m' ≡ touch e m))
    was_there c s m' found' =
        let found = sym (so.ready.telling.view c s) ∙ found' in
        elim (Bool-cases (times_told c s p.recipients == 0)) [
          | inl y ↦ (m', rw y at found, inl refl)
          | inr n ↦ elim (Option-cases (find_in c s am.conns)) [
            | inl absent ↦
                let no_one : none ≡ some m' = rw (n, absent) at found in absurd (ground arith)
            | inr (m, there) ↦
                let it_is : some (touch e m) ≡ some m' = rw (n, there) at found in
                (m, there, inr (let m_is : touch e m ≡ m' = cc in sym m_is))
          ]
        ]

    told_behind :
        (c : ℕ) (s : Bytes) (m : Monitor)
        → find_in c s am.conns ≡ some m
        → (times_told c s p.recipients == 0) ≡ false
        → m.sub.latest_event_id < e
    unfolding is_due
    told_behind c s m found told = elim (so.ready.telling.once c s m found) [
      | inl zero_times ↦ absurd (ground arith)
      | inr (one, due) ↦ ground arith
    ]

    still_there :
        (k : IndexKey) (it : MonitorItem)
        → IsWaiting max_subs e d packable (monitors am.conns) v.good p k it
        → IsSound e (monitors p.conns) k it
    still_there k it (m, f, found, got, listed, seen, waits) =
        let there = so.ready.telling.view it.conn_id it.sub_id in
        elim (Bool-cases (times_told it.conn_id it.sub_id p.recipients == 0)) [
          | inl y ↦ (m, there ∙ rw (y, found) refl, (f, got, listed), seen)
          | inr n ↦
              let behind = told_behind it.conn_id it.sub_id m found n in
              (touch e m, there ∙ rw (n, found) refl, (f, got, listed), ground arith)
        ]

    touched-IsGood :
        (c : ℕ) (s : Bytes) (m m' : Monitor)
        → (m' ≡ m) ⊎ (m' ≡ touch e m)
        → IsGood c s m
        → IsGood c s m'
    touched-IsGood c s m m' (inl same) g = rw same g
    touched-IsGood c s m m' (inr same) g =
        rw same (record { indexable = g.indexable; conn_id = g.conn_id; sub_id = g.sub_id })

    touched-IsListed :
        (k : IndexKey) (i : ℕ) (m m' : Monitor)
        → (m' ≡ m) ⊎ (m' ≡ touch e m)
        → IsListed k m' i
        → IsListed k m i
    touched-IsListed k i m m' (inl same) h = subst (λ x. IsListed k x i) same h
    touched-IsListed k i m m' (inr same) h = subst (λ x. IsListed k x i) same h

    IsValid-after : IsValid max_subs e (record am { index = ix; conns = p.conns })
    IsValid-after = record {
      fits = record {
        rising = so.ready.rising;
        sound = Throughout-map _ _ ix still_there so.ready.waiting;
        complete = λ c s m' i k found' listed.
            (let (m, found, same) = was_there c s m' found' in
              so.complete c s m i k found (touched-IsListed k i m m' same listed));
      };
      good = λ c s m' found'.
          (let (m, found, same) = was_there c s m' found' in
            touched-IsGood c s m m' same (v.good c s m found));
      proper = so.ready.telling.proper;
    }

  told_shape :
      (rs : RecipientList)
      → let told : Option (RecipientList × ℕ) = (if length rs == 0 then none else some (rs, e)) in
        (told ≡ none) ⊎ ((rs' : RecipientList) × (told ≡ some (rs', e)))
  told_shape [] = inl refl
  told_shape (r ∷ rs) =
      let some_one : (length (r ∷ rs) == 0) ≡ false = ground arith in inr (r ∷ rs, rw some_one refl)

  recipients_back :
      (rs : RecipientList) → recipients_of (if length rs == 0 then none else some (rs, e)) ≡ rs
  recipients_back [] = refl
  recipients_back (r ∷ rs) =
      let some_one : (length (r ∷ rs) == 0) ≡ false = ground arith in rw some_one refl

  -- For an event that is newer than the last one, process never fails. The callback is called with
  -- every subscription that is not past the event and has a filter that matches it, exactly once, and
  -- with no other, and with the event; those are past the event afterwards and the others are as before, and the indices
  -- and monitors still belong together.
  pub process-recipients :
      (am' : ActiveMonitors) × (told : Option (RecipientList × ℕ)) × (process e (packed d) am
        ≡ ok (am', told))
      × IsValid max_subs e am'
      × ((told ≡ none) ⊎ ((rs : RecipientList) × (told ≡ some (rs, e))))
      × ((c : ℕ) (s : Bytes) (m : Monitor)
          → find_in c s am.conns ≡ some m
          → (times_told c s (recipients_of told) ≡ (if is_due e d m then 1 else 0))
            × (find_in c s am'.conns ≡ some (if is_due e d m then touch e m else m)))
      × ((c : ℕ) (s : Bytes)
          → find_in c s am.conns ≡ none
          → (times_told c s (recipients_of told) ≡ 0) × (find_in c s am'.conns ≡ none))
  unfolding process
  process-recipients =
      let (ix, p, run, so) = keys_lem in
      let back = recipients_back p.recipients in
      (
        record am { index = ix; conns = p.conns },
        (if length p.recipients == 0 then none else some (p.recipients, e)),
        rw (view-accepts d packable, run) refl,
        IsValid-after p ix so,
        told_shape p.recipients,
        (λ c s m found.
            let once = exactly_once p ix so c s m found in
            (
              rw back once,
              so.ready.telling.view c s ∙ (elim (Bool-cases (is_due e d m)) [
                | inl y ↦
                    let one : times_told c s p.recipients ≡ 1 = rw y at once in
                    rw (one, found, y) refl
                | inr n ↦
                    let zero_times : times_told c s p.recipients ≡ 0 = rw n at once in
                    rw (zero_times, found, n) refl
              ]),
            )),
        (λ c s absent.
            let untold = so.ready.telling.strangers c s absent in
            (rw back untold, so.ready.telling.view c s ∙ rw (untold, absent) refl)),
      )
