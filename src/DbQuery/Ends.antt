-- ===== src/DbQuery/Ends.antt =====
-- The loops of ScanCursor::collect in src/DBQuery.h end.
use mathlib.Core.List.{append_assoc}
use strfry.Prelude.{
  ℕ, zero, suc, ◌+◌, ◌%◌, ◌≤◌, ◌<◌, ◌≡◌, refl, sym, ap, subst, ◌∙◌, ◌⊎◌, inl, inr, Bool, true,
  false, not, ◌&&◌, List, [], ◌∷◌, ◌++◌, arith, ltb, ◌==◌, max_u64, u64_mod, Bool-cases, length,
  length-append, Result, ok,
}
use strfry.Prelude.Bytes.{Bytes}
use strfry.PackedEvent.{Lmdb}
use strfry.Filters.Filter.{NostrFilter}
use strfry.Store.{Env}
use strfry.DbQuery.Candidate.{CandidateEvent, candidate_event}
use strfry.DbQuery.Laws.{AreIndices, Counts, Counts-refl, Counts-trans}
use strfry.DbQuery.Cursor.{
  IndexDbi, Indices, KeyMatchResult, yes, no, ScanCursor, active, Collecting, resume, stop,
  take_candidate, visit_entry, visit_entries, collect_loop, collect_fuel, collect,
}

module _ ⦃lmdb : Lmdb⦄ (env : Env) (indices : Indices env) (laws : AreIndices env indices)
    (f : NostrFilter) (until_u64 : f.until < u64_mod) (scan_index : ℕ) (db : env.Db)
    (dbi : IndexDbi) where
  abbrev left_at : Collecting → List (Bytes × ℕ)
  left_at st = indices.foreach_full db dbi st.cursor.resume_key st.cursor.resume_val

  -- The cursor can tell of every key that it comes by whether it matches.
  abbrev pub CanMatch : (Bytes → Result KeyMatchResult) → Type 0
  CanMatch key_match =
      (rk : Bytes) (rv : ℕ) (pre : List (Bytes × ℕ)) (k : Bytes) (v : ℕ) (post : List (Bytes × ℕ))
      → indices.foreach_full db dbi rk rv ≡ pre ++ (k, v) ∷ post
      → (r : KeyMatchResult) × (key_match k ≡ ok r)

  -- How a visit ended: at the limit, at a key that does not match, or with a jump past an entry.
  abbrev Ended : ℕ → Collecting → Type 0
  Ended n st = (st.limit ≡ 0) ⊎ ((length st.cursor.resume_key ≡ 0) ⊎ (length (left_at st) < n))

  -- An entry is passed over with a candidate more, or the visit ends.
  visit_entry-Ended :
      (pre : List (Bytes × ℕ)) (k : Bytes) (v : ℕ) (post : List (Bytes × ℕ)) (st : Collecting)
      → left_at st ≡ pre ++ (k, v) ∷ post
      → CanMatch st.cursor.key_match
      → (st' : Collecting) × (go_on : Bool) × (visit_entry env indices f scan_index k v st
          ≡ ok (st', go_on))
        × Counts st st'
        × (((go_on ≡ true) × (st'.cursor ≡ st.cursor))
            ⊎ ((go_on ≡ false) × Ended (length (left_at st)) st'))
  unfolding visit_entry
  visit_entry-Ended pre k v post st here can = elim (Bool-cases (st.limit == 0)) [
    | inl y ↦ (
      resume k v st,
      false,
      rw y refl,
      record { same_match = refl; within = refl; counted = refl },
      inr (refl, inl (ground arith)),
    )
    | inr some_left ↦
        let (r, matched) = can st.cursor.resume_key st.cursor.resume_val pre k v post here in
        by_match r matched some_left
  ]
    where
      jump :
          (s : Bytes) (c n w : ℕ)
          → indices.parse_string_uint64 k ≡ ok (s, c)
          → n < u64_mod
          → (n < c) ⊎ ((n ≡ c) × (w < v))
          → length (indices.foreach_full db dbi (env.make_key s n) w) < length (left_at st)
      jump s c n w parsed small earlier =
          let (skipped, rest) =
            laws.seek db dbi st.cursor.resume_key st.cursor.resume_val pre k v post s c n w here
              parsed small earlier in
          let a = ap length here ∙ length-append pre ((k, v) ∷ post) in
          let b = ap length rest ∙ length-append skipped _ in omega arith

      below_first : (c : ℕ) → 0 < v → (0 < c) ⊎ ((0 ≡ c) × (0 < v))
      below_first zero positive = inr (refl, positive)
      below_first (suc c) positive = inl (omega arith)

      Result_of : Result (Collecting × Bool) → Type 0
      Result_of run =
          (st' : Collecting) × (go_on : Bool) × (run ≡ ok (st', go_on))
          × Counts st st'
          × (((go_on ≡ true) × (st'.cursor ≡ st.cursor))
              ⊎ ((go_on ≡ false) × Ended (length (left_at st)) st'))

      by_match :
          (r : KeyMatchResult)
          → st.cursor.key_match k ≡ ok r
          → (st.limit == 0) ≡ false
          → Result_of (visit_entry env indices f scan_index k v st)
      by_match no matched some_left = (
        stop st,
        false,
        rw (some_left, matched) refl,
        record { same_match = refl; within = refl; counted = refl },
        inr (refl, inr (inl refl)),
      )
      by_match yes matched some_left =
          let (s, c, parsed, positive) =
            laws.parses db dbi st.cursor.resume_key st.cursor.resume_val pre k v post here in
          elim (Bool-cases (not (f.since == 0) && ltb c f.since)) [
            | inl early ↦ (
              resume (env.make_key s 0) 0 st,
              false,
              rw (some_left, matched, parsed, early) refl,
              record { same_match = refl; within = refl; counted = refl },
              inr (refl, inr (inr (jump s c 0 0 parsed (omega arith) (below_first c positive)))),
            )
            | inr n1 ↦ elim (Bool-cases (not (f.until == 0) && ltb f.until c)) [
              | inl late ↦ (
                resume (env.make_key s f.until) max_u64 st,
                false,
                rw (some_left, matched, parsed, n1, late) refl,
                record { same_match = refl; within = refl; counted = refl },
                inr (
                  refl,
                  inr (inr (jump s c f.until max_u64 parsed until_u64 (inl (ground arith)))),
                ),
              )
              | inr n2 ↦ (
                take_candidate env indices f scan_index v c st,
                true,
                rw (some_left, matched, parsed, n1, n2) refl,
                record {
                  same_match = refl;
                  within = ground arith;
                  counted =
                      ground (arith, length-append st.output (candidate_event v c scan_index ∷ []));
                },
                inl (refl, refl),
              )
            ]
          ]

  -- A visit of the entries that are left: it comes to the end of the index, or has ended before.
  visit_entries-Ended :
      (pre es : List (Bytes × ℕ)) (st : Collecting)
      → left_at st ≡ pre ++ es
      → CanMatch st.cursor.key_match
      → (st' : Collecting) × (finished : Bool) × (visit_entries env indices f scan_index es st
          ≡ ok (st', finished))
        × Counts st st'
        × ((finished ≡ true) ⊎ ((finished ≡ false) × Ended (length (left_at st)) st'))
  unfolding visit_entries
  visit_entries-Ended pre [] st here can = (st, true, refl, Counts-refl st, inl refl)
  visit_entries-Ended pre ((k, v) ∷ es) st here can =
      let (st1, go_on, run, counts, cases) = visit_entry-Ended pre k v es st here can in
      elim cases [
        | inr (stopped, ended) ↦ (st1, false, rw (run, stopped) refl, counts, inr (refl, ended))
        | inl (going, same) ↦
            let here1 : left_at st1 ≡ (pre ++ (k, v) ∷ []) ++ es =
              ap (λ (cur : ScanCursor). indices.foreach_full db dbi cur.resume_key cur.resume_val)
                same
              ∙ here
              ∙ sym (append_assoc pre ((k, v) ∷ []) es) in
            let can1 : CanMatch st1.cursor.key_match = subst CanMatch (sym counts.same_match) can in
            let (st2, finished, run2, counts2, ended) =
              visit_entries-Ended (pre ++ (k, v) ∷ []) es st1 here1 can1 in
            let same_left : length (left_at st1) ≡ length (left_at st) =
              ap
                (λ (cur : ScanCursor).
                  length (indices.foreach_full db dbi cur.resume_key cur.resume_val))
                same in
            (
              st2,
              finished,
              rw (run, going) run2,
              Counts-trans st st1 st2 counts counts2,
              subst (λ n. (finished ≡ true) ⊎ ((finished ≡ false) × Ended n st2)) same_left ended,
            )
      ]

  -- The loop ends: it stops at once, or a visit gets past an entry.
  collect_loop-ends :
      (fuel : ℕ) (st : Collecting)
      → CanMatch st.cursor.key_match
      → (0 < fuel)
      → ((active st.cursor && ltb 0 st.limit) ≡ false) ⊎ (length (left_at st) + 1 < fuel)
      → (st' : Collecting) × (collect_loop env indices f scan_index db dbi fuel st ≡ ok st')
        × Counts st st'
  unfolding collect_loop active
  collect_loop-ends zero st can some_fuel enough = absurd (omega arith)
  collect_loop-ends (suc fuel) st can some_fuel enough =
      elim (Bool-cases (active st.cursor && ltb 0 st.limit)) [
        | inr done ↦ (st, rw done refl, Counts-refl st)
        | inl going ↦
            let (st1, finished, run, counts, ended) =
              visit_entries-Ended [] (left_at st) st refl can in
            let more : length (left_at st) + 1 < suc fuel = elim enough [
              | inl done ↦ absurd (ground arith)
              | inr bound ↦ bound
            ] in
            elim ended [
              | inl end ↦
                  let (st2, run2, counts2) =
                    collect_loop-ends fuel (stop st1) (subst CanMatch (sym counts.same_match) can)
                      (omega arith) (inl refl) in
                  (
                    st2,
                    rw (going, run, end) run2,
                    Counts-trans st (stop st1) st2
                        (record {
                          same_match = counts.same_match;
                          within = counts.within;
                          counted = counts.counted;
                        })
                        counts2,
                  )
              | inr (not_end, how) ↦
                  let (st2, run2, counts2) =
                    collect_loop-ends fuel st1 (subst CanMatch (sym counts.same_match) can)
                      (omega arith)
                      (elim how [
                        | inl full ↦ inl (ground arith)
                        | inr rest ↦ elim rest [
                          | inl stopped ↦ inl (ground arith)
                          | inr jumped ↦ inr (omega arith)
                        ]
                      ]) in
                  (st2, rw (going, run, not_end) run2, Counts-trans st st1 st2 counts counts2)
            ]
      ]

  -- Over indices that keep the laws, for a filter whose `until` has 64 bits and a cursor that can tell of
  -- every key whether it matches, collect ends, and fails nowhere, from every position: it adds at most
  -- as many candidates as it may, and counts them.
  pub collect-ends :
      (limit : ℕ) (cur : ScanCursor)
      → CanMatch cur.key_match
      → (cur' : ScanCursor) × (output : List CandidateEvent) × (added : ℕ) × (collect env indices f
            scan_index db dbi limit cur
          ≡ ok (cur', output, added))
        × (added ≤ limit)
        × (length output ≡ added)
        × (cur'.outstanding ≡ (cur.outstanding + added) % u64_mod)
  unfolding collect collect_fuel
  collect-ends limit cur can =
      let start : Collecting = record { cursor = cur; limit = limit; added = 0; output = [] } in
      let (st, run, counts) =
        collect_loop-ends (collect_fuel env indices f scan_index db dbi cur) start can (omega arith)
          (inr (omega arith)) in
      let within = counts.within in
      let counted = counts.counted in
      (
        record st.cursor { outstanding = (cur.outstanding + st.added) % u64_mod },
        st.output,
        st.added,
        rw run refl,
        omega arith,
        omega arith,
        refl,
      )
