-- ===== src/QueryScheduler/Valid.antt =====
-- When the map, the queue and the queries of src/QueryScheduler.h belong together.
use strfry.Prelude.{
  ℕ, ◌<◌, ◌≡◌, refl, sym, ap, ◌∙◌, ◌⊎◌, inl, inr, true, false, Option, none, some, List, arith,
  ◌==◌, if◌then◌else◌, ==_iff, Bool-cases, Option-cases, ok,
}
use strfry.Prelude.Bytes.{Bytes}
use strfry.Prelude.Distinct.{InList, Distinct}
use strfry.HashMap.{nat_keys, map_option, get, adjust, Values, get-adjust_self, get-adjust}
use strfry.ConnMap.{
  ConnMap, find_in, erase_in, without, same_sub, same_sub→eq, same_sub_refl, find_in-erase_in,
  IsProper, erase_in-IsProper,
}
use strfry.Subscriptions.SubId.{sv}
use strfry.QueryScheduler.{DbQuery, QueryScheduler, kill, find_query, remove_sub}

found_elsewhere :
    (c : ℕ) (s : Bytes) (conns : ConnMap ℕ) (c' : ℕ) (s' : Bytes) (p : ℕ)
    → find_in c' s' (erase_in c s conns) ≡ some p
    → (same_sub c s c' s' ≡ false) × (find_in c' s' conns ≡ some p)
found_elsewhere c s conns c' s' p h = elim (Bool-cases (same_sub c s c' s')) [
  | inl y ↦
      let no_one : none ≡ some p = rw y at (sym (find_in-erase_in c s c' s' conns) ∙ h) in
      absurd (ground arith)
  | inr n ↦ (n, rw n at (sym (find_in-erase_in c s c' s' conns) ∙ h))
]

module _ {Q : Type 0} where
  -- `except` is the query whose slice it is, which is in no queue meanwhile.
  pub record Fits (max_subs : ℕ) (except : Option ℕ) (sch : QueryScheduler Q) : Type 0 where
    pub proper : Values nat_keys (IsProper max_subs) sch.conns
    pub distinct : Distinct sch.running
    pub waits : (p : ℕ) → except ≡ some p → ¬ InList p sch.running
    -- No pointer in the queue dangles.
    pub owned :
        (p : ℕ) → InList p sch.running → (q : DbQuery Q) × (get nat_keys p sch.heap ≡ some q)
    -- Nothing leaks: a query is in the queue, so that its turn comes.
    pub queued :
        (p : ℕ) (q : DbQuery Q)
        → get nat_keys p sch.heap ≡ some q
        → InList p sch.running ⊎ (except ≡ some p)
    -- An entry of the map points to a query of its connection and name that is not dead.
    pub found :
        (c : ℕ) (s : Bytes) (p : ℕ)
        → find_in c s sch.conns ≡ some p
        → (q : DbQuery Q) × (get nat_keys p sch.heap ≡ some q)
          × (q.dead ≡ false)
          × (q.sub.conn_id ≡ c)
          × (sv q.sub.sub_id ≡ s)
    -- A query that is not dead has its entry.
    pub live :
        (p : ℕ) (q : DbQuery Q)
        → get nat_keys p sch.heap ≡ some q
        → q.dead ≡ false
        → find_in q.sub.conn_id (sv q.sub.sub_id) sch.conns ≡ some p
    pub below : (p : ℕ) (q : DbQuery Q) → get nat_keys p sch.heap ≡ some q → p < sch.next_pointer

  abbrev pub IsConsistent : ℕ → QueryScheduler Q → Type 0
  IsConsistent max_subs sch = Fits max_subs none sch

  -- What is at a pointer when the query at `p` has been killed.
  pub get-kill :
      (p j : ℕ) (heap : List (ℕ × DbQuery Q))
      → get nat_keys j (adjust nat_keys p kill heap)
        ≡ (if p == j then map_option kill (get nat_keys j heap) else get nat_keys j heap)
  get-kill p j heap = elim (Bool-cases (p == j)) [
    | inl y ↦ rw (y, (==_iff p j).0 y) (get-adjust_self nat_keys j kill heap)
    | inr n ↦ rw n (get-adjust nat_keys p kill j heap (ground arith))
  ]

  -- A query after a kill of the one at `p`: it is another one, or it is dead.
  killed_cases :
      (p j : ℕ) (heap : List (ℕ × DbQuery Q)) (q : DbQuery Q)
      → get nat_keys j (adjust nat_keys p kill heap) ≡ some q
      → ((p == j) ≡ false) × (get nat_keys j heap ≡ some q)
        ⊎ ((p ≡ j) × (q.dead ≡ true) × ((q0 : DbQuery Q) × (get nat_keys j heap ≡ some q0)))
  killed_cases p j heap q h = elim (Bool-cases (p == j)) [
    | inr n ↦ inl (n, rw n at (sym (get-kill p j heap) ∙ h))
    | inl y ↦ elim (Option-cases (get nat_keys j heap)) [
      | inl absent ↦
          let no_one : none ≡ some q = rw (y, absent) at (sym (get-kill p j heap) ∙ h) in
          absurd (ground arith)
      | inr (q0, there) ↦
          let it_is : some (kill q0) ≡ some q = rw (y, there) at (sym (get-kill p j heap) ∙ h) in
          inr ((==_iff p j).0 y, ground arith, (q0, there))
    ]
  ]

  remains :
      (p j : ℕ) (heap : List (ℕ × DbQuery Q)) (q : DbQuery Q)
      → get nat_keys j heap ≡ some q
      → (q' : DbQuery Q) × (get nat_keys j (adjust nat_keys p kill heap) ≡ some q')
  remains p j heap q h = elim (Bool-cases (p == j)) [
    | inl y ↦ (kill q, get-kill p j heap ∙ rw (y, h) refl)
    | inr n ↦ (q, get-kill p j heap ∙ rw (n, h) refl)
  ]

  -- removeSub never fails and keeps everything together; the entry of that connection and name is
  -- gone, and the others are as before.
  pub remove_sub-Fits :
      (max_subs : ℕ) (except : Option ℕ) (c : ℕ) (s : Bytes) (sch : QueryScheduler Q)
      → Fits max_subs except sch
      → (sch' : QueryScheduler Q) × (remove_sub c s sch ≡ ok sch')
        × Fits max_subs except sch'
        × ((c' : ℕ) (s' : Bytes)
            → find_in c' s' sch'.conns ≡ without c s (λ a b. find_in a b sch.conns) c' s')
        × (sch'.running ≡ sch.running)
        × (sch'.next_pointer ≡ sch.next_pointer)
  unfolding remove_sub find_query
  remove_sub-Fits max_subs except c s sch v = elim (Option-cases (find_in c s sch.conns)) [
    | inl absent ↦ (
      sch,
      rw (remove_sub, absent) refl,
      v,
      (λ c' s'. elim (Bool-cases (same_sub c s c' s')) [
        | inl y ↦ let (e, e') = same_sub→eq c s c' s' y in rw y (rw (← e, ← e') absent)
        | inr n ↦ rw n refl
      ]),
      refl,
      refl,
    )
    | inr (p, there) ↦
        let (q, at_p, alive, is_conn, is_sub) = v.found c s p there in
        (
          record sch { heap = adjust nat_keys p kill sch.heap; conns = erase_in c s sch.conns },
          rw (remove_sub, there, at_p) refl,
          record {
            proper = erase_in-IsProper max_subs c s sch.conns v.proper;
            distinct = v.distinct;
            waits = v.waits;
            owned =
                λ j there_j. (let (qj, at_j) = v.owned j there_j in remains p j sch.heap qj at_j);
            queued = λ j qj at_j. elim (killed_cases p j sch.heap qj at_j) [
              | inl (other, at_j') ↦ v.queued j qj at_j'
              | inr (same, dead, (q0, at_j')) ↦ v.queued j q0 at_j'
            ];
            found = λ c' s' j there_j.
                (let (elsewhere, there_j') = found_elsewhere c s sch.conns c' s' j there_j in
                  let (qj, at_j, alive_j, conn_j, sub_j) = v.found c' s' j there_j' in
                  let other : (p == j) ≡ false =
                    other_pointer p j c s c' s' q qj at_p at_j is_conn is_sub conn_j sub_j
                      elsewhere in
                  (qj, get-kill p j sch.heap ∙ rw (other, at_j) refl, alive_j, conn_j, sub_j));
            live = λ j qj at_j alive_j. elim (killed_cases p j sch.heap qj at_j) [
              | inr (same, dead, (q0, at_j')) ↦ absurd (ground arith)
              | inl (other, at_j') ↦
                  let there_j = v.live j qj at_j' alive_j in
                  find_in-erase_in c s qj.sub.conn_id (sv qj.sub.sub_id) sch.conns
                  ∙ elim (Bool-cases (same_sub c s qj.sub.conn_id (sv qj.sub.sub_id))) [
                    | inr n ↦ rw n there_j
                    | inl y ↦
                        let (e, e') = same_sub→eq c s qj.sub.conn_id (sv qj.sub.sub_id) y in
                        let here : find_in c s sch.conns ≡ some j = rw (e, e') there_j in
                        let p_is : some p ≡ some j = sym there ∙ here in absurd (ground arith)
                  ]
            ];
            below = λ j qj at_j. elim (killed_cases p j sch.heap qj at_j) [
              | inl (other, at_j') ↦ v.below j qj at_j'
              | inr (same, dead, (q0, at_j')) ↦ v.below j q0 at_j'
            ];
          },
          (λ c' s'. find_in-erase_in c s c' s' sch.conns),
          refl,
          refl,
        )
  ]
    where
      other_pointer :
          (p j c : ℕ) (s : Bytes) (c' : ℕ) (s' : Bytes) (q qj : DbQuery Q)
          → get nat_keys p sch.heap ≡ some q
          → get nat_keys j sch.heap ≡ some qj
          → q.sub.conn_id ≡ c
          → sv q.sub.sub_id ≡ s
          → qj.sub.conn_id ≡ c'
          → sv qj.sub.sub_id ≡ s'
          → same_sub c s c' s' ≡ false
          → (p == j) ≡ false
      other_pointer p j c s c' s' q qj at_p at_j a b a' b' elsewhere = elim (Bool-cases (p == j)) [
        | inr n ↦ n
        | inl y ↦
            let at_p' : get nat_keys p sch.heap ≡ some qj = rw ((==_iff p j).0 y) at_j in
            let q_is : some q ≡ some qj = sym at_p ∙ at_p' in
            let q_is' : q ≡ qj = ground arith in
            let c_is : c ≡ c' = sym a ∙ ap (λ (x : DbQuery Q). x.sub.conn_id) q_is' ∙ a' in
            let s_is : s ≡ s' = sym b ∙ ap (λ (x : DbQuery Q). sv x.sub.sub_id) q_is' ∙ b' in
            let same : same_sub c s c' s' ≡ true = rw (← c_is, ← s_is) (same_sub_refl c s) in
            absurd (ground arith)
      ]
