-- ===== src/QueryScheduler/Slices.antt =====
-- process of src/QueryScheduler.h.
use strfry.Prelude.{
  Error, Result-cases, err, ℕ, ◌≡◌, refl, sym, ap, subst, ◌∙◌, ◌⊎◌, inl, inr, Bool, true, false,
  Option, none, some, List, [], ◌∷◌, ◌++◌, arith, if◌then◌else◌, Bool-cases, All, ok,
}
use strfry.Prelude.Bytes.{Bytes}
use strfry.Prelude.Distinct.{InList}
use strfry.HashMap.{nat_keys, get, adjust, erase}
use strfry.ConnMap.{find_in, same_sub, same_sub_refl}
use strfry.Subscriptions.SubId.{sv}
use strfry.Subscriptions.Subscription.{Subscription}
use strfry.QueryScheduler.{
  DbQuery, Scanning, Callback, on_event, on_event_batch, on_complete, QueryScheduler, when,
  payload_of, report_event, report, finish_slice, run_slice, process_front, process,
}
use strfry.QueryScheduler.Valid.{Fits, IsConsistent, remove_sub-Fits}
use strfry.QueryScheduler.Turns.{take_turn, delete_query, requeue, advanced}

abbrev pub about : Callback → Subscription
about (on_event sub l payload) = sub
about (on_event_batch sub ls) = sub
about (on_complete sub n) = sub

module _ {D Q : Type 0} (scanning : Scanning D Q) (max_subs : ℕ) where
  when-about :
      (b : Bool) (call : Callback) (calls : List Callback) (sub : Subscription)
      → about call ≡ sub
      → All (λ call. about call ≡ sub) calls
      → All (λ call. about call ≡ sub) (when scanning b call calls)
  when-about true call calls sub h rest = (h, rest)
  when-about false call calls sub h rest = rest

  report_event-about :
      (sch : QueryScheduler Q) (sub : Subscription) (l : ℕ) (payload : Option Bytes)
      (rest : List Callback × List ℕ)
      → All (λ call. about call ≡ sub) rest.0
      → All (λ call. about call ≡ sub) (report_event scanning sch sub l payload rest).0
  report_event-about sch sub l none rest h = h
  report_event-about sch sub l (some payload) rest h =
      when-about sch.has_on_event (on_event sub l payload) rest.0 sub refl h

  report-about :
      (db : D) (sch : QueryScheduler Q) (sub : Subscription) (ls : List ℕ)
      → All (λ call. about call ≡ sub) (report scanning db sch sub ls).0
  unfolding report
  report-about db sch sub [] = tt
  report-about db sch sub (l ∷ ls) =
      report_event-about sch sub l (payload_of scanning db sch.ensure_exists l)
        (report scanning db sch sub ls) (report-about db sch sub ls)

  append-about :
      (xs ys : List Callback) (sub : Subscription)
      → All (λ call. about call ≡ sub) xs
      → All (λ call. about call ≡ sub) ys
      → All (λ call. about call ≡ sub) (xs ++ ys)
  append-about [] ys sub h k = k
  append-about (x ∷ xs) ys sub h k = (h.0, append-about xs ys sub h.1 k)

  -- A query that is complete has no entry in the map any more.
  abbrev pub GoesOn : DbQuery Q → Bool → QueryScheduler Q → Type 0
  GoesOn q true sch' = find_in q.sub.conn_id (sv q.sub.sub_id) sch'.conns ≡ none
  GoesOn q false sch' = Unit

  finish_slice-IsConsistent :
      (p : ℕ) (q : DbQuery Q) (complete : Bool) (sch : QueryScheduler Q)
      → Fits max_subs (some p) sch
      → get nat_keys p sch.heap ≡ some q
      → (sch' : QueryScheduler Q) × (calls : List Callback) × (finish_slice scanning p q complete
            sch
          ≡ ok (sch', calls))
        × IsConsistent max_subs sch'
        × All (λ call. about call ≡ q.sub) calls
        × (sch'.running ≡ (if complete then sch.running else sch.running ++ p ∷ []))
        × GoesOn q complete sch'
  unfolding finish_slice
  finish_slice-IsConsistent p q false sch v at_p = (
    record sch { running = sch.running ++ p ∷ [] },
    [],
    refl,
    requeue max_subs p q sch v at_p,
    tt,
    refl,
    tt,
  )
  finish_slice-IsConsistent p q true sch v at_p =
      let c = q.sub.conn_id in
      let s = sv q.sub.sub_id in
      let (sch1, run, v1, view, same_queue, same_next) =
        remove_sub-Fits max_subs (some p) c s sch v in
      let unused : (c' : ℕ) (s' : Bytes) → ¬ (find_in c' s' sch1.conns ≡ some p) = λ c' s' there.
        elim (Bool-cases (same_sub c s c' s')) [
          | inl y ↦
              let no_one : none ≡ some p = rw y at (sym (view c' s') ∙ there) in
              absurd (ground arith)
          | inr n ↦
              let (q1, at_p', alive, a, b) = v.found c' s' p (rw n at (sym (view c' s') ∙ there)) in
              let q_is : some q ≡ some q1 = sym at_p ∙ at_p' in
              let q_is' : q ≡ q1 = ground arith in
              let c_is : c ≡ c' = ap (λ (x : DbQuery Q). x.sub.conn_id) q_is' ∙ a in
              let s_is : s ≡ s' = ap (λ (x : DbQuery Q). sv x.sub.sub_id) q_is' ∙ b in
              let same : same_sub c s c' s' ≡ true = rw (← c_is, ← s_is) (same_sub_refl c s) in
              absurd (ground arith)
        ] in
      (
        record sch1 { heap = erase nat_keys p sch1.heap },
        when scanning sch.has_on_complete (on_complete q.sub (scanning.sent_count q.progress)) [],
        rw run refl,
        delete_query max_subs p sch1 v1 unused,
        when-about sch.has_on_complete _ [] q.sub refl tt,
        same_queue,
        view c s ∙ rw (same_sub_refl c s) refl,
      )

  -- What became of the query at the front of the queue: it was dead and is gone, or it had its slice,
  -- after which it is gone with its entry, or goes to the end.
  abbrev pub Turn : D → QueryScheduler Q → List ℕ → QueryScheduler Q → Type 0
  Turn db sch [] sch' = sch' ≡ sch
  Turn db sch (p ∷ ps) sch' =
      (q : DbQuery Q) × (get nat_keys p sch.heap ≡ some q)
      × (((q.dead ≡ true) × (sch'.running ≡ ps))
          ⊎ ((q.dead ≡ false)
              × ((progress : Q) × (lev_ids : List ℕ) × (complete : Bool) × (scanning.scan db q.sub
                      q.progress
                    ≡ ok (progress, lev_ids, complete))
                  × (sch'.running ≡ (if complete then ps else ps ++ p ∷ []))
                  × GoesOn q complete sch')))

  -- The slice of the query at the front failed.
  abbrev pub Fails : D → QueryScheduler Q → List ℕ → Error → Type 0
  Fails db sch [] e = ⊥
  Fails db sch (p ∷ ps) e =
      (q : DbQuery Q) × (get nat_keys p sch.heap ≡ some q)
      × (q.dead ≡ false)
      × (scanning.scan db q.sub q.progress ≡ err e)

  -- The calls are about a subscription that has its entry in the map.
  abbrev pub AboutEntry : QueryScheduler Q → List Callback → Type 0
  AboutEntry sch [] = Unit
  AboutEntry sch (call ∷ calls) =
      ((p : ℕ) × (find_in (about call).conn_id (sv (about call).sub_id) sch.conns ≡ some p))
      × AboutEntry sch calls

  all-AboutEntry :
      (sch : QueryScheduler Q) (sub : Subscription) (p : ℕ) (calls : List Callback)
      → find_in sub.conn_id (sv sub.sub_id) sch.conns ≡ some p
      → All (λ call. about call ≡ sub) calls
      → AboutEntry sch calls
  all-AboutEntry sch sub p [] there h = tt
  all-AboutEntry sch sub p (call ∷ calls) there h = (
    (
      p,
      subst (λ (x : Subscription). find_in x.conn_id (sv x.sub_id) sch.conns ≡ some p) (sym h.0)
          there,
    ),
    all-AboutEntry sch sub p calls there h.1,
  )

  run_slice-IsConsistent :
      (db : D) (p : ℕ) (q : DbQuery Q) (sch : QueryScheduler Q) (progress : Q) (lev_ids : List ℕ)
      (complete : Bool)
      → scanning.scan db q.sub q.progress ≡ ok (progress, lev_ids, complete)
      → Fits max_subs (some p) sch
      → get nat_keys p sch.heap ≡ some q
      → (sch' : QueryScheduler Q) × (calls : List Callback) × (run_slice scanning db p q sch
          ≡ ok (sch', calls))
        × IsConsistent max_subs sch'
        × All (λ call. about call ≡ q.sub) calls
        × (sch'.running ≡ (if complete then sch.running else sch.running ++ p ∷ []))
        × GoesOn q complete sch'
  unfolding run_slice
  run_slice-IsConsistent db p q sch progress lev_ids complete scanned v at_p =
      let q' : DbQuery Q = record q { progress = progress } in
      let sch1 = record sch { heap = adjust nat_keys p (λ old. q') sch.heap } in
      let (v1, here) = advanced max_subs p q progress sch v at_p in
      let (sch', rest, run, v', about_rest, queue, gone) =
        finish_slice-IsConsistent p q' complete sch1 v1 here in
      let reported = report scanning db sch q.sub lev_ids in
      (
        sch',
        reported.0 ++ when scanning sch.has_on_event_batch (on_event_batch q.sub reported.1) rest,
        rw (scanned, run) refl,
        v',
        append-about reported.0 _ q.sub (report-about db sch q.sub lev_ids) (
            when-about sch.has_on_event_batch (on_event_batch q.sub reported.1) rest q.sub refl
              about_rest),
        queue,
        same_entry q progress complete sch' gone,
      )
    where
      same_entry :
          (q : DbQuery Q) (progress : Q) (complete : Bool) (sch' : QueryScheduler Q)
          → GoesOn (record q { progress = progress }) complete sch'
          → GoesOn q complete sch'
      same_entry q progress true sch' gone = gone
      same_entry q progress false sch' gone = gone

  run_slice-err :
      (db : D) (p : ℕ) (q : DbQuery Q) (sch : QueryScheduler Q) (e : Error)
      → scanning.scan db q.sub q.progress ≡ err e
      → run_slice scanning db p q sch ≡ err e
  unfolding run_slice
  run_slice-err db p q sch e failed = rw failed refl

  front_alive :
      (db : D) (p : ℕ) (ps : List ℕ) (q : DbQuery Q) (sch : QueryScheduler Q)
      → get nat_keys p sch.heap ≡ some q
      → q.dead ≡ false
      → process_front scanning db (p ∷ ps) sch
        ≡ run_slice scanning db p q (record sch { running = ps })
  unfolding process_front
  front_alive db p ps q sch at_p alive = rw at_p (
      ap
        (λ (b : Bool).
          if b
          then ok (record sch { running = ps; heap = erase nat_keys p sch.heap }, [])
          else run_slice scanning db p q (record sch { running = ps }))
        alive)

  -- process fails only with the error of the slice of the query at the front. Otherwise it keeps the map,
  -- the queue and the queries together: no pointer dangles, and no query leaks. The callbacks are
  -- called only about a subscription that has its entry, so that nothing is sent for one that was
  -- removed, replaced or whose connection was closed. A query at the front that was dead is gone; one
  -- that is complete is gone with its entry, and any other goes to the end of the queue.
  pub process-IsConsistent :
      (db : D) (sch : QueryScheduler Q)
      → IsConsistent max_subs sch
      → ((sch' : QueryScheduler Q) × (calls : List Callback) × (process scanning db sch
            ≡ ok (sch', calls))
          × IsConsistent max_subs sch'
          × AboutEntry sch calls
          × Turn db sch sch.running sch')
        ⊎ ((e : Error) × (process scanning db sch ≡ err e) × Fails db sch sch.running e)
  unfolding process process_front
  process-IsConsistent db sch v = by_queue sch.running refl
    where
      Processed : List ℕ → Type 0
      Processed queue =
          ((sch' : QueryScheduler Q) × (calls : List Callback) × (process_front scanning db queue
                sch
              ≡ ok (sch', calls))
            × IsConsistent max_subs sch'
            × AboutEntry sch calls
            × Turn db sch queue sch')
          ⊎ ((e : Error) × (process_front scanning db queue sch ≡ err e) × Fails db sch queue e)

      alive :
          (p : ℕ) (ps : List ℕ) (q : DbQuery Q)
          → get nat_keys p sch.heap ≡ some q
          → Fits max_subs (some p) (record sch { running = ps })
          → q.dead ≡ false
          → Processed (p ∷ ps)
      alive p ps q at_p turned n = elim (Result-cases (scanning.scan db q.sub q.progress)) [
        | inr (e, failed) ↦ inr (
          e,
          front_alive db p ps q sch at_p n
              ∙ run_slice-err db p q (record sch { running = ps }) e failed,
          (q, at_p, n, failed),
        )
        | inl ((progress, lev_ids, complete), scanned) ↦
            let (sch', calls, run, v', abouts, queue, gone) =
              run_slice-IsConsistent db p q (record sch { running = ps }) progress lev_ids complete
                scanned turned at_p in
            inl (
              sch',
              calls,
              front_alive db p ps q sch at_p n ∙ run,
              v',
              all-AboutEntry sch q.sub p calls (v.live p q at_p n) abouts,
              (q, at_p, inr (n, (progress, lev_ids, complete, scanned, queue, gone))),
            )
      ]

      by_queue : (queue : List ℕ) → sch.running ≡ queue → Processed queue
      by_queue [] e = inl (sch, [], refl, v, tt, refl)
      by_queue (p ∷ ps) e =
          let (q, at_p) = v.owned p (subst (InList p) (sym e) (inl refl)) in
          let turned = take_turn max_subs p ps sch e v in
          elim (Bool-cases q.dead) [
            | inl y ↦ inl (
              record sch { running = ps; heap = erase nat_keys p sch.heap },
              [],
              rw (at_p, y) refl,
              delete_query max_subs p (record sch { running = ps }) turned
                  (λ c s there.
                    let (q1, at_p', alive, a, b) = v.found c s p there in
                    let q_is : some q ≡ some q1 = sym at_p ∙ at_p' in
                    let q_is' : q ≡ q1 = ground arith in
                    let dead : q1.dead ≡ true = rw (← q_is') y in absurd (ground arith)),
              tt,
              (q, at_p, inl (y, refl)),
            )
            | inr n ↦ alive p ps q at_p turned n
          ]
