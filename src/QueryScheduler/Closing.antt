-- ===== src/QueryScheduler/Closing.antt =====
-- closeConn of src/QueryScheduler.h.
use strfry.Prelude.{
  ℕ, ◌≡◌, refl, sym, ap, subst, ◌∙◌, inl, inr, Bool, true, false, ◌||◌, Option, none, some, List,
  [], ◌∷◌, arith, ◌==◌, if◌then◌else◌, ==_iff, Bool-cases, Option-cases, any, All, ok,
}
use strfry.Prelude.Bytes.{Bytes, bytes_eq, bytes_eq_refl}
use strfry.HashMap.{
  nat_keys, byte_keys, map_option, get, adjust, erase, Distinct, get-later, erase-Values,
}
use strfry.ConnMap.{find_in, find_in-erase_conn, IsProper}
use strfry.Subscriptions.SubId.{sv}
use strfry.QueryScheduler.{DbQuery, QueryScheduler, kill, kill_all, close_conn}
use strfry.QueryScheduler.Valid.{IsConsistent, get-kill}

-- An entry points to the query.
unfoldable points : ℕ → List (Bytes × ℕ) → Bool
points j ps = any (λ (e : Bytes × ℕ). e.1 == j) ps

points-get :
    (j : ℕ) (ps : List (Bytes × ℕ))
    → Distinct byte_keys ps
    → points j ps ≡ true
    → (s : Bytes) × (get byte_keys s ps ≡ some j)
unfolding points get
points-get j [] d h = absurd (ground arith)
points-get j ((s, p) ∷ ps) d h = elim (Bool-cases (p == j)) [
  | inl y ↦ (s, rw (bytes_eq_refl s) (ap some ((==_iff p j).0 y)))
  | inr n ↦
      let (s', there) = points-get j ps d.1 (ground arith) in
      (s', get-later byte_keys s p ps s' j d there)
]

get-points :
    (j : ℕ) (s : Bytes) (ps : List (Bytes × ℕ)) → get byte_keys s ps ≡ some j → points j ps ≡ true
unfolding points get
get-points j s [] h = absurd (ground arith)
get-points j s ((s', p) ∷ ps) h = elim (Bool-cases (bytes_eq s s')) [
  | inl y ↦ let it_is : some p ≡ some j = rw y at h in ground arith
  | inr n ↦ let rest = get-points j s ps (rw n at h) in ground arith
]

module _ {Q : Type 0} where
  kill_twice :
      (a b : Bool) (o : Option (DbQuery Q))
      → (if b
          then map_option kill (if a then map_option kill o else o)
          else (if a then map_option kill o else o))
        ≡ (if a || b then map_option kill o else o)
  kill_twice true true none = refl
  kill_twice true true (some q) = refl
  kill_twice true false o = refl
  kill_twice false true o = refl
  kill_twice false false o = refl

  -- The loop kills what the entries point to.
  kill_all_lem :
      (ps : List (Bytes × ℕ)) (heap : List (ℕ × DbQuery Q))
      → All (λ (e : Bytes × ℕ). (q : DbQuery Q) × (get nat_keys e.1 heap ≡ some q)) ps
      → (heap' : List (ℕ × DbQuery Q)) × (kill_all ps heap ≡ ok heap')
        × ((j : ℕ)
            → get nat_keys j heap' ≡ (
                if points j ps then map_option kill (get nat_keys j heap) else get nat_keys j heap))
  unfolding kill_all points
  kill_all_lem [] heap h = (heap, refl, λ j. refl)
  kill_all_lem ((s, p) ∷ ps) heap ((q, at_p), h) =
      let heap1 = adjust nat_keys p kill heap in
      let (heap', run, view) = kill_all_lem ps heap1 (still ps h) in
      (
        heap',
        rw at_p run,
        λ j.
            view j
            ∙ rw (get-kill p j heap) (kill_twice (p == j) (points j ps) (get nat_keys j heap)),
      )
    where
      still :
          (rs : List (Bytes × ℕ))
          → All (λ (e : Bytes × ℕ). (q : DbQuery Q) × (get nat_keys e.1 heap ≡ some q)) rs
          → All
              (λ (e : Bytes × ℕ).
                (q : DbQuery Q) × (get nat_keys e.1 (adjust nat_keys p kill heap) ≡ some q))
              rs
      still [] k = tt
      still ((t, r) ∷ rs) ((q0, at_r), k) = (
        elim (Bool-cases (p == r)) [
          | inl y ↦ (kill q0, get-kill p r heap ∙ rw (y, at_r) refl)
          | inr n ↦ (q0, get-kill p r heap ∙ rw (n, at_r) refl)
        ],
        still rs k,
      )

  entries_owned :
      (ps : List (Bytes × ℕ)) (heap : List (ℕ × DbQuery Q))
      → Distinct byte_keys ps
      → ((s : Bytes) (p : ℕ)
          → get byte_keys s ps ≡ some p
          → (q : DbQuery Q) × (get nat_keys p heap ≡ some q))
      → All (λ (e : Bytes × ℕ). (q : DbQuery Q) × (get nat_keys e.1 heap ≡ some q)) ps
  entries_owned [] heap d h = tt
  entries_owned ((s, p) ∷ ps) heap d h = (
    h s p (unfold get in rw (bytes_eq_refl s) refl),
    entries_owned ps heap d.1 (λ s' p' there. h s' p' (get-later byte_keys s p ps s' p' d there)),
  )

  was_before :
      (b : Bool) (o : Option (DbQuery Q)) (q : DbQuery Q)
      → (if b then map_option kill o else o) ≡ some q
      → (q0 : DbQuery Q) × (o ≡ some q0) × ((q.dead ≡ false) → (b ≡ false) × (q ≡ q0))
  was_before true none q h = absurd (ground arith)
  was_before true (some q0) q h = (q0, refl, λ alive. absurd (ground arith))
  was_before false o q h = (q, h, λ alive. (refl, refl))

  unpointed :
      (max_subs c : ℕ) (sch : QueryScheduler Q) (ps : List (Bytes × ℕ))
      → IsConsistent max_subs sch
      → get nat_keys c sch.conns ≡ some ps
      → (j : ℕ) (q : DbQuery Q) → get nat_keys j sch.heap ≡ some q
      → (c == q.sub.conn_id) ≡ false
      → points j ps ≡ false
  unpointed max_subs c sch ps v there j q at_j other = elim (Bool-cases (points j ps)) [
    | inr n ↦ n
    | inl y ↦
        let (s, h) = points-get j ps (v.proper c ps there).0 y in
        let entry : find_in c s sch.conns ≡ some j = (unfold find_in in rw there h) in
        let (q1, at_j', alive, a, b) = v.found c s j entry in
        let q_is : some q ≡ some q1 = sym at_j ∙ at_j' in
        let q_is' : q ≡ q1 = ground arith in
        let c_is : q.sub.conn_id ≡ c = ap (λ (x : DbQuery Q). x.sub.conn_id) q_is' ∙ a in
        absurd (ground arith)
  ]

  -- closeConn never fails, keeps everything together, and takes away the entries of that connection and
  -- no other; what they pointed to is dead and waits for its turn to be deleted.
  pub close_conn-IsConsistent :
      (max_subs c : ℕ) (sch : QueryScheduler Q)
      → IsConsistent max_subs sch
      → (sch' : QueryScheduler Q) × (close_conn c sch ≡ ok sch')
        × IsConsistent max_subs sch'
        × ((c' : ℕ) (s' : Bytes)
            → find_in c' s' sch'.conns ≡ (if c == c' then none else find_in c' s' sch.conns))
        × (sch'.running ≡ sch.running)
  unfolding close_conn
  close_conn-IsConsistent max_subs c sch v = elim (Option-cases (get nat_keys c sch.conns)) [
    | inl absent ↦ (
      sch,
      rw (close_conn, absent) refl,
      v,
      (λ c' s'. elim (Bool-cases (c == c')) [
        | inr n ↦ rw n refl
        | inl y ↦
            let gone : get nat_keys c' sch.conns ≡ none = rw (← (==_iff c c').0 y) absent in
            (unfold find_in in rw (y, gone) refl)
      ]),
      refl,
    )
    | inr (ps, there) ↦
        let d = (v.proper c ps there).0 in
        let entry : (s : Bytes) → find_in c s sch.conns ≡ get byte_keys s ps =
          λ s. (unfold find_in in rw there refl) in
        let owned : (s : Bytes) (p : ℕ)
            → get byte_keys s ps ≡ some p
            → (q : DbQuery Q) × (get nat_keys p sch.heap ≡ some q) =
          λ s p h. (let (q, at_p, alive, a, b) = v.found c s p (entry s ∙ h) in (q, at_p)) in
        let (heap', run, view) = kill_all_lem ps sch.heap (entries_owned ps sch.heap d owned) in
        let gone : (c' : ℕ) (s' : Bytes)
            → find_in c' s' (erase nat_keys c sch.conns)
              ≡ (if c == c' then none else find_in c' s' sch.conns) =
          λ c' s'. find_in-erase_conn c c' s' sch.conns in
        let before : (j : ℕ) (q : DbQuery Q)
            → get nat_keys j heap' ≡ some q
            → (q0 : DbQuery Q) × (get nat_keys j sch.heap ≡ some q0)
              × ((q.dead ≡ false) → (points j ps ≡ false) × (q ≡ q0)) =
          λ j q h. was_before (points j ps) (get nat_keys j sch.heap) q (sym (view j) ∙ h) in
        (
          record sch { heap = heap'; conns = erase nat_keys c sch.conns },
          rw (close_conn, there, run) refl,
          record {
            proper = erase-Values nat_keys (IsProper max_subs) c sch.conns v.proper;
            distinct = v.distinct;
            waits = v.waits;
            owned = λ j there_j.
                (let (q, at_j) = v.owned j there_j in
                  elim (Bool-cases (points j ps)) [
                    | inl y ↦ (kill q, view j ∙ rw (y, at_j) refl)
                    | inr n ↦ (q, view j ∙ rw (n, at_j) refl)
                  ]);
            queued = λ j q h. (let (q0, at_j, same) = before j q h in v.queued j q0 at_j);
            found = λ c' s' j h. elim (Bool-cases (c == c')) [
              | inl y ↦
                  let no_one : none ≡ some j = rw y at (sym (gone c' s') ∙ h) in
                  absurd (ground arith)
              | inr n ↦
                  let (q, at_j, alive, a, b) = v.found c' s' j (rw n at (sym (gone c' s') ∙ h)) in
                  (
                    q,
                    view j ∙ rw (unpointed max_subs c sch ps v there j q at_j (rw a n), at_j) refl,
                    alive,
                    a,
                    b,
                  )
            ];
            live = λ j q h alive.
                (let (q0, at_j, same) = before j q h in
                  let (unpointed_j, q_is) = same alive in
                  let there_j : find_in q.sub.conn_id (sv q.sub.sub_id) sch.conns ≡ some j =
                    v.live j q (rw q_is at_j) alive in
                  gone q.sub.conn_id (sv q.sub.sub_id) ∙ elim (Bool-cases (c == q.sub.conn_id)) [
                    | inr n ↦ rw n there_j
                    | inl y ↦
                        let same_conn = (==_iff c q.sub.conn_id).0 y in
                        let here : find_in c (sv q.sub.sub_id) sch.conns ≡ some j =
                          subst (λ x. find_in x (sv q.sub.sub_id) sch.conns ≡ some j)
                            (sym same_conn) there_j in
                        let pointed =
                          get-points j (sv q.sub.sub_id) ps
                            (sym (entry (sv q.sub.sub_id)) ∙ here) in
                        absurd (ground arith)
                  ]);
            below = λ j q h. (let (q0, at_j, same) = before j q h in v.below j q0 at_j);
          },
          gone,
          refl,
        )
  ]
