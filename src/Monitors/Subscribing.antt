-- ===== src/Monitors/Subscribing.antt =====
-- addSub, removeSub and closeConn of src/ActiveMonitors.h keep the indices and the monitors in step.
use strfry.Prelude.{
  ℕ, ◌≡◌, refl, sym, ap, subst, ◌∙◌, ◌⊎◌, inl, inr, Bool, true, false, not, none, some, [], ◌∷◌,
  arith, leb, ◌==◌, if◌then◌else◌, ==_iff, Bool-cases, Option-cases, length, All, ok,
}
use strfry.Prelude.Bytes.{Bytes, bytes_eq, bytes_eq_refl, bytes_eq→eq}
use strfry.HashMap.{
  nat_keys, byte_keys, eq_flip, get, erase, Distinct, or_value, get-emplace_self, get-absent,
  Values, erase-Values, emplace-Values, get-later, ==_self,
}
use strfry.ConnMap.{
  IsProper, emplace_in, emplace_in-IsProper, erase_in, erase_in-IsProper, find_in,
  find_in-emplace_in, find_in-erase_conn, find_in-erase_in, find_in-open_conn, open_conn, same_sub,
  same_sub_refl, same_sub→eq, with_entry, without,
}
use strfry.Subscriptions.SubId.{sv}
use strfry.Subscriptions.Subscription.{Subscription}
use strfry.Subscriptions.Tracker.{install, uninstall}
use strfry.Monitors.Keys.Indexable.{IsIndexable}
use strfry.Monitors.Conns.{Monitor, ConnMonitor, Monitors, monitors}
use strfry.Monitors.Operations.{
  ActiveMonitors, track, install_lookups, uninstall_lookups, remove_sub, uninstall_all, close_conn,
  insert_sub, add_sub, install_places,
}
use strfry.Monitors.Valid.{filters_of, Fits, IsGood, IsValid, Fits-pointwise}
use strfry.Monitors.Places.{placed, places-placed, install_places-Fits}
use strfry.Monitors.Uninstall.{uninstall_places-Fits}

module _ (max_subs now : ℕ) where
  uninstall_lookups-Fits :
      (c : ℕ) (s : Bytes) (m : Monitor) (mons : Monitors) (am : ActiveMonitors)
      → Fits now mons am.index
      → mons c s ≡ some m
      → IsGood c s m
      → (am' : ActiveMonitors) × (uninstall_lookups c s m am ≡ ok am')
        × Fits now (without c s mons) am'.index
        × (am'.conns ≡ am.conns)
  unfolding uninstall_lookups
  uninstall_lookups-Fits c s m mons am fits found good =
      let (ix, run, fits') = uninstall_places-Fits c s now mons am.index fits m found good in
      (
        record am {
          ephemeral_tracker = track uninstall (filters_of m) am.ephemeral_tracker;
          index = ix;
        },
        rw (places-placed 0 (filters_of m) good.indexable, run) refl,
        fits',
        refl,
      )

  -- What is found after a removal was there before.
  found_before :
      (c : ℕ) (s : Bytes) (mons : Monitors) (c' : ℕ) (s' : Bytes) (m : Monitor)
      → without c s mons c' s' ≡ some m
      → mons c' s' ≡ some m
  found_before c s mons c' s' m found = elim (Bool-cases (same_sub c s c' s')) [
    | inl y ↦ let no_one : none ≡ some m = rw y at found in absurd (ground arith)
    | inr n ↦ rw n at found
  ]

  without_absent :
      (c : ℕ) (s : Bytes) (mons : Monitors) (c' : ℕ) (s' : Bytes)
      → mons c s ≡ none
      → mons c' s' ≡ without c s mons c' s'
  without_absent c s mons c' s' absent = elim (Bool-cases (same_sub c s c' s')) [
    | inl y ↦ let (e, e') = same_sub→eq c s c' s' y in rw y (rw (← e, ← e') absent)
    | inr n ↦ rw n refl
  ]

  -- removeSub never fails, and takes away the monitor of that connection and name and no other.
  pub remove_sub-IsValid :
      (c : ℕ) (s : Bytes) (am : ActiveMonitors)
      → IsValid max_subs now am
      → (am' : ActiveMonitors) × (remove_sub c s am ≡ ok am')
        × IsValid max_subs now am'
        × ((c' : ℕ) (s' : Bytes) → find_in c' s' am'.conns ≡ without c s (monitors am.conns) c' s')
  unfolding remove_sub
  remove_sub-IsValid c s am v = elim (Option-cases (find_in c s am.conns)) [
    | inl absent ↦ (
      am,
      rw (absent, remove_sub) refl,
      v,
      λ c' s'. without_absent c s (monitors am.conns) c' s' absent,
    )
    | inr (m, found) ↦
        let (am1, run, fits, same) =
          uninstall_lookups-Fits c s m (monitors am.conns) am v.fits found (v.good c s m found) in
        let view : (c' : ℕ) (s' : Bytes)
            → find_in c' s' (erase_in c s am1.conns) ≡ without c s (monitors am.conns) c' s' =
          λ c' s'. rw same (find_in-erase_in c s c' s' am.conns) in
        (
          record am1 { conns = erase_in c s am1.conns },
          rw (found, remove_sub, run) refl,
          record {
            fits = Fits-pointwise now _ _ am1.index (λ c' s'. sym (view c' s')) fits;
            good = λ c' s' m' found'.
                v.good c' s' m'
                  (found_before c s (monitors am.conns) c' s' m' (sym (view c' s') ∙ found'));
            proper = rw same (erase_in-IsProper max_subs c s am.conns v.proper);
          },
          view,
        )
  ]

  -- The monitors while those of connection c that `ms` lists are still installed.
  abbrev still : ℕ → ConnMonitor → Monitors → Monitors
  still c ms mons c' s' = if c == c' then get byte_keys s' ms else mons c' s'

  still-nil :
      (c : ℕ) (mons : Monitors) (c' : ℕ) (s' : Bytes)
      → still c [] mons c' s' ≡ (if c == c' then none else mons c' s')
  unfolding get
  still-nil c mons c' s' = refl

  still-next :
      (c : ℕ) (s : Bytes) (m : Monitor) (ms : ConnMonitor) (mons : Monitors)
      → Distinct byte_keys ((s, m) ∷ ms)
      → (c' : ℕ) (s' : Bytes)
      → without c s (still c ((s, m) ∷ ms) mons) c' s' ≡ still c ms mons c' s'
  unfolding same_sub get
  still-next c s m ms mons d c' s' = elim (Bool-cases (c == c')) [
    | inr n ↦ rw n refl
    | inl y ↦ rw y (elim (Bool-cases (bytes_eq s s')) [
      | inl y' ↦ rw y' (sym (rw (← bytes_eq→eq s s' y') (get-absent byte_keys s ms d.0)))
      | inr n ↦ rw (n, eq_flip byte_keys s s' n) refl
    ])
  ]

  uninstall_all-Fits :
      (c : ℕ) (ms : ConnMonitor) (mons : Monitors) (am : ActiveMonitors)
      → Distinct byte_keys ms
      → ((s : Bytes) (m : Monitor) → get byte_keys s ms ≡ some m → IsGood c s m)
      → Fits now (still c ms mons) am.index
      → (am' : ActiveMonitors) × (uninstall_all c ms am ≡ ok am')
        × Fits now (still c [] mons) am'.index
        × (am'.conns ≡ am.conns)
  unfolding uninstall_all
  uninstall_all-Fits c [] mons am d good fits = (am, refl, fits, refl)
  uninstall_all-Fits c ((s, m) ∷ ms) mons am d good fits =
      let here : get byte_keys s ((s, m) ∷ ms) ≡ some m =
        (unfold get in rw (bytes_eq_refl s) refl) in
      let found : still c ((s, m) ∷ ms) mons c s ≡ some m = rw (==_self c) here in
      let (am1, run, fits1, same) =
        uninstall_lookups-Fits c s m (still c ((s, m) ∷ ms) mons) am fits found (good s m here) in
      let next = Fits-pointwise now _ _ am1.index (still-next c s m ms mons d) fits1 in
      let (am2, run2, fits2, same2) =
        uninstall_all-Fits c ms mons am1 d.1
          (λ s' m' got. good s' m' (get-later byte_keys s m ms s' m' d got)) next in
      (am2, rw run run2, fits2, same2 ∙ same)

  -- closeConn never fails, and takes away the monitors of that connection and no other.
  pub close_conn-IsValid :
      (c : ℕ) (am : ActiveMonitors)
      → IsValid max_subs now am
      → (am' : ActiveMonitors) × (close_conn c am ≡ ok am')
        × IsValid max_subs now am'
        × ((c' : ℕ) (s' : Bytes)
            → find_in c' s' am'.conns ≡ (if c == c' then none else find_in c' s' am.conns))
  unfolding close_conn
  close_conn-IsValid c am v = elim (Option-cases (get nat_keys c am.conns)) [
    | inl absent ↦ (
      am,
      rw (absent, close_conn) refl,
      v,
      λ c' s'. elim (Bool-cases (c == c')) [
        | inr n ↦ rw n refl
        | inl y ↦
            let gone : get nat_keys c' am.conns ≡ none = rw (← (==_iff c c').0 y) absent in
            (unfold find_in in rw (y, gone) refl)
      ],
    )
    | inr (ms, there) ↦
        let proper = v.proper c ms there in
        let found : (s : Bytes) → find_in c s am.conns ≡ get byte_keys s ms =
          λ s. (unfold find_in in rw there refl) in
        let all_still : (c' : ℕ) (s' : Bytes)
            → monitors am.conns c' s' ≡ still c ms (monitors am.conns) c' s' =
          λ c' s'. elim (Bool-cases (c == c')) [
            | inr n ↦ rw n refl
            | inl y ↦ rw y (
                subst (λ x. find_in x s' am.conns ≡ get byte_keys s' ms) ((==_iff c c').0 y)
                  (found s'))
          ] in
        let (am1, run, fits, same) =
          uninstall_all-Fits c ms (monitors am.conns) am proper.0
            (λ s m got. v.good c s m (found s ∙ got))
            (Fits-pointwise now _ _ am.index all_still v.fits) in
        let view : (c' : ℕ) (s' : Bytes)
            → find_in c' s' (erase nat_keys c am1.conns)
              ≡ (if c == c' then none else find_in c' s' am.conns) =
          λ c' s'. rw same (find_in-erase_conn c c' s' am.conns) in
        (
          record am1 { conns = erase nat_keys c am1.conns },
          rw (there, close_conn, run) refl,
          record {
            fits =
                Fits-pointwise now _ _ am1.index
                  (λ c' s'. still-nil c (monitors am.conns) c' s' ∙ sym (view c' s')) fits;
            good = λ c' s' m found'. v.good c' s' m (elim (Bool-cases (c == c')) [
              | inr n ↦ rw n at (sym (view c' s') ∙ found')
              | inl y ↦
                  let no_one : none ≡ some m = rw y at (sym (view c' s') ∙ found') in
                  absurd (ground arith)
            ]);
            proper = rw same (erase-Values nat_keys (IsProper max_subs) c am.conns v.proper);
          },
          view,
        )
  ]

  abbrev Inserted : Subscription → ActiveMonitors → ActiveMonitors → Bool → Type 0
  Inserted sub am am' accepted =
      IsValid max_subs now am'
      × ((c' : ℕ) (s' : Bytes)
          → find_in c' s' am'.conns ≡ (
              if accepted
              then with_entry sub.conn_id (sv sub.sub_id) (record { sub = sub }) (monitors am.conns)
                  c' s'
              else find_in c' s' am.conns))
      × ((accepted ≡ true)
          ⊎ ((ms : ConnMonitor) × (get nat_keys sub.conn_id am'.conns ≡ some ms)
              × (length ms ≡ max_subs)))

  replaced :
      (c : ℕ) (s : Bytes) (m : Monitor) (mons mons1 : Monitors) (accepted : Bool) (c' : ℕ)
      (s' : Bytes)
      → mons1 c' s' ≡ without c s mons c' s'
      → (if accepted then with_entry c s m mons1 c' s' else mons1 c' s')
        ≡ (if same_sub c s c' s' then (if accepted then some m else none) else mons c' s')
  replaced c s m mons mons1 false c' s' h = h
  replaced c s m mons mons1 true c' s' h = elim (Bool-cases (same_sub c s c' s')) [
    | inl y ↦ rw y refl
    | inr n ↦ rw n (rw n at h)
  ]

  new-IsGood :
      (sub : Subscription) (am : ActiveMonitors)
      → IsValid max_subs now am
      → All IsIndexable sub.filter_group.filters
      → (c' : ℕ) (s' : Bytes) (m' : Monitor)
      → with_entry sub.conn_id (sv sub.sub_id) (record { sub = sub }) (monitors am.conns) c' s'
        ≡ some m'
      → IsGood c' s' m'
  new-IsGood sub am v indexable c' s' m' found =
      elim (Bool-cases (same_sub sub.conn_id (sv sub.sub_id) c' s')) [
        | inr n ↦ v.good c' s' m' (rw n at found)
        | inl y ↦
            let (e, e') = same_sub→eq sub.conn_id (sv sub.sub_id) c' s' y in
            let it_is : some (record { sub = sub }) ≡ some m' = rw y at found in
            let m_is : record { sub = sub } ≡ m' = cc in
            subst (IsGood c' s') m_is (record { indexable = indexable; conn_id = e; sub_id = e' })
      ]

  insert_sub-IsValid :
      (sub : Subscription) (am : ActiveMonitors)
      → IsValid max_subs now am
      → All IsIndexable sub.filter_group.filters
      → find_in sub.conn_id (sv sub.sub_id) am.conns ≡ none
      → (am' : ActiveMonitors) × (accepted : Bool) × (insert_sub max_subs sub sub.latest_event_id am
          ≡ ok (am', accepted))
        × Inserted sub am am' accepted
  unfolding insert_sub
  insert_sub-IsValid sub am v indexable absent =
      let c = sub.conn_id in
      let s = sv sub.sub_id in
      let m : Monitor = record { sub = sub } in
      let opened = open_conn c am.conns in
      let ms = or_value nat_keys (get nat_keys c am.conns) [] in
      let there : get nat_keys c opened ≡ some ms =
        (unfold open_conn in get-emplace_self nat_keys c [] am.conns) in
      let opened_proper : Values nat_keys (IsProper max_subs) opened =
        (unfold open_conn in
          emplace-Values nat_keys (IsProper max_subs) c [] am.conns (tt, omega arith) v.proper) in
      let view : (c' : ℕ) (s' : Bytes) → find_in c' s' opened ≡ find_in c' s' am.conns =
        λ c' s'. find_in-open_conn c c' s' am.conns in
      elim (Bool-cases (leb max_subs (length ms))) [
        | inl full ↦ (
          record am { conns = opened },
          false,
          rw (insert_sub, there, full) refl,
          (
            record {
              fits = Fits-pointwise now _ _ am.index (λ c' s'. sym (view c' s')) v.fits;
              good = λ c' s' m' found. v.good c' s' m' (sym (view c' s') ∙ found);
              proper = opened_proper;
            },
            view,
            inr (ms, there, (let few = (opened_proper c ms there).1 in ground arith)),
          ),
        )
        | inr room ↦
            let conns' = emplace_in c s m opened in
            let view' : (c' : ℕ) (s' : Bytes)
                → find_in c' s' conns' ≡ with_entry c s m (monitors am.conns) c' s' =
              λ c' s'.
                find_in-emplace_in c s m c' s' opened ms there (view c s ∙ absent)
                ∙ ap (λ q. if same_sub c s c' s' then some m else q) (view c' s') in
            let fits =
              install_places-Fits c s sub.latest_event_id now (monitors am.conns) am.index v.fits m
                absent refl in
            (
              record {
                ephemeral_tracker = track install sub.filter_group.filters am.ephemeral_tracker;
                conns = conns';
                index =
                    install_places c s sub.latest_event_id (placed 0 sub.filter_group.filters)
                      am.index;
              },
              true,
              rw (insert_sub, there, room)
                  (unfold install_lookups in
                    rw (places-placed 0 sub.filter_group.filters indexable) refl),
              (
                record {
                  fits = Fits-pointwise now _ _ _ (λ c' s'. sym (view' c' s')) fits;
                  good = λ c' s' m' found.
                      new-IsGood sub am v indexable c' s' m' (sym (view' c' s') ∙ found);
                  proper = emplace_in-IsProper max_subs c s m ms opened there room opened_proper;
                },
                view',
                inl refl,
              ),
            )
      ]

  -- addSub accepts a subscription that is up to date, in place of one of the same connection and name,
  -- unless the connection has its fill of others; then it only takes away the one of that name.
  pub add_sub-IsValid :
      (sub : Subscription) (am : ActiveMonitors)
      → IsValid max_subs now am
      → All IsIndexable sub.filter_group.filters
      → (am' : ActiveMonitors) × (accepted : Bool) × (add_sub max_subs sub sub.latest_event_id am
          ≡ ok (am', accepted))
        × IsValid max_subs now am'
        × ((c : ℕ) (s : Bytes)
            → find_in c s am'.conns ≡ (
                if same_sub sub.conn_id (sv sub.sub_id) c s
                then (if accepted then some (record { sub = sub }) else none)
                else find_in c s am.conns))
        × ((accepted ≡ true)
            ⊎ ((ms : ConnMonitor) × (get nat_keys sub.conn_id am'.conns ≡ some ms)
                × (length ms ≡ max_subs)))
  unfolding add_sub
  add_sub-IsValid sub am v indexable =
      let c = sub.conn_id in
      let s = sv sub.sub_id in
      let current : not (sub.latest_event_id == sub.latest_event_id) ≡ false = ground arith in
      let (am1, run, v1, view) = remove_sub-IsValid c s am v in
      let absent : find_in c s am1.conns ≡ none = view c s ∙ rw (same_sub_refl c s) refl in
      let (am2, accepted, run2, (v2, view2, full)) =
        insert_sub-IsValid sub am1 v1 indexable absent in
      (
        am2,
        accepted,
        rw (current, run) run2,
        v2,
        (λ c' s'.
            view2 c' s'
            ∙ replaced c s (record { sub = sub }) (monitors am.conns) (monitors am1.conns) accepted
                c' s' (view c' s')),
        full,
      )
