-- ===== src/QueryScheduler/Adding.antt =====
-- addSub of src/QueryScheduler.h.
use strfry.Prelude.{
  ℕ, ◌≡◌, refl, sym, ap, subst, ◌∙◌, ◌⊎◌, inl, inr, Bool, true, false, none, some, List, [], ◌∷◌,
  arith, leb, ◌==◌, if◌then◌else◌, ==_iff, Bool-cases, length, ok,
}
use strfry.Prelude.Bytes.{Bytes}
use strfry.HashMap.{nat_keys, get, or_value, get-emplace_self, emplace-Values, ==_self}
use strfry.ConnMap.{
  find_in, open_conn, emplace_in, without, with_entry, same_sub, same_sub→eq, same_sub_refl,
  find_in-emplace_in, find_in-open_conn, IsProper, emplace_in-IsProper,
}
use strfry.Subscriptions.SubId.{sv}
use strfry.Subscriptions.Subscription.{Subscription}
use strfry.QueryScheduler.{DbQuery, Scanning, QueryScheduler, start_query, insert_sub, add_sub}
use strfry.QueryScheduler.Valid.{IsConsistent, remove_sub-Fits}

-- A new query in front of the others.
get_new :
    {Q : Type 0} (p j : ℕ) (q : DbQuery Q) (heap : List (ℕ × DbQuery Q)) (qj : DbQuery Q)
    → get nat_keys j ((p, q) ∷ heap) ≡ some qj
    → ((p ≡ j) × (q ≡ qj)) ⊎ (get nat_keys j heap ≡ some qj)
unfolding get
get_new p j q heap qj h = elim (Bool-cases (j == p)) [
  | inl y ↦ let it_is : some q ≡ some qj = rw y at h in inl (sym ((==_iff j p).0 y), ground arith)
  | inr n ↦ inr (rw n at h)
]

get_old :
    {Q : Type 0} (p j : ℕ) (q : DbQuery Q) (heap : List (ℕ × DbQuery Q))
    → (j == p) ≡ false
    → get nat_keys j ((p, q) ∷ heap) ≡ get nat_keys j heap
unfolding get
get_old p j q heap n = rw n refl

get_first :
    {Q : Type 0} (p : ℕ) (q : DbQuery Q) (heap : List (ℕ × DbQuery Q))
    → get nat_keys p ((p, q) ∷ heap) ≡ some q
unfolding get
get_first p q heap = rw (==_self p) refl

module _ {D Q : Type 0} (scanning : Scanning D Q) (max_subs : ℕ) where
  start_query-IsConsistent :
      (sub : Subscription) (sch : QueryScheduler Q) (qs : List (Bytes × ℕ))
      → IsConsistent max_subs sch
      → get nat_keys sub.conn_id sch.conns ≡ some qs
      → leb max_subs (length qs) ≡ false
      → find_in sub.conn_id (sv sub.sub_id) sch.conns ≡ none
      → IsConsistent max_subs (start_query scanning sub sch)
  unfolding start_query
  start_query-IsConsistent sub sch qs v open_ room absent =
      let c = sub.conn_id in
      let s = sv sub.sub_id in
      let p = sch.next_pointer in
      let new : DbQuery Q = record { sub = sub; dead = false; progress = scanning.fresh } in
      let view : (c' : ℕ) (s' : Bytes)
          → find_in c' s' (emplace_in c s p sch.conns)
            ≡ with_entry c s p (λ a b. find_in a b sch.conns) c' s' =
        λ c' s'. find_in-emplace_in c s p c' s' sch.conns qs open_ absent in
      let other : (j : ℕ) (q : DbQuery Q) → get nat_keys j sch.heap ≡ some q → (j == p) ≡ false =
        λ j q at_j. (let lower = v.below j q at_j in ground arith) in
      record {
        proper = emplace_in-IsProper max_subs c s p qs sch.conns open_ room v.proper;
        distinct = (
          (λ there. let (q, at_p) = v.owned p there in let lower = v.below p q at_p in omega arith),
          v.distinct,
        );
        waits = λ j e. absurd (ground arith);
        owned = λ j there. elim there [
          | inl same ↦ (new, rw same (get_first p new sch.heap))
          | inr old ↦
              let (q, at_j) = v.owned j old in (q, get_old p j new sch.heap (other j q at_j) ∙ at_j)
        ];
        queued = λ j q at_j. elim (get_new p j new sch.heap q at_j) [
          | inl (same, q_is) ↦ inl (inl (sym same))
          | inr old ↦ elim (v.queued j q old) [ inl there ↦ inl (inr there) | inr e ↦ inr e ]
        ];
        found = λ c' s' j there. elim (Bool-cases (same_sub c s c' s')) [
          | inl y ↦
              let (e, e') = same_sub→eq c s c' s' y in
              let p_is : some p ≡ some j = rw y at (sym (view c' s') ∙ there) in
              let p_is' : p ≡ j = ground arith in
              (new, rw (← p_is') (get_first p new sch.heap), refl, e, e')
          | inr n ↦
              let (q, at_j, alive, a, b) = v.found c' s' j (rw n at (sym (view c' s') ∙ there)) in
              (q, get_old p j new sch.heap (other j q at_j) ∙ at_j, alive, a, b)
        ];
        live = λ j q at_j alive. elim (get_new p j new sch.heap q at_j) [
          | inl (same, q_is) ↦
              subst
                (λ (x : DbQuery Q).
                  find_in x.sub.conn_id (sv x.sub.sub_id) (emplace_in c s p sch.conns) ≡ some j)
                q_is (view c s ∙ rw (same_sub_refl c s, same) refl)
          | inr old ↦
              let there = v.live j q old alive in
              view q.sub.conn_id (sv q.sub.sub_id)
              ∙ elim (Bool-cases (same_sub c s q.sub.conn_id (sv q.sub.sub_id))) [
                | inr n ↦ rw n there
                | inl y ↦
                    let (e, e') = same_sub→eq c s q.sub.conn_id (sv q.sub.sub_id) y in
                    let here : find_in c s sch.conns ≡ some j = rw (e, e') there in
                    let no_one : none ≡ some j = sym absent ∙ here in absurd (ground arith)
              ]
        ];
        below = λ j q at_j. elim (get_new p j new sch.heap q at_j) [
          | inl (same, q_is) ↦ omega arith
          | inr old ↦ let lower = v.below j q old in omega arith
        ];
      }

  -- Opening a connection changes nothing else.
  opened-IsConsistent :
      (c : ℕ) (sch : QueryScheduler Q)
      → IsConsistent max_subs sch
      → IsConsistent max_subs (record sch { conns = open_conn c sch.conns })
  opened-IsConsistent c sch v =
      let view : (c' : ℕ) (s' : Bytes)
          → find_in c' s' (open_conn c sch.conns) ≡ find_in c' s' sch.conns =
        λ c' s'. find_in-open_conn c c' s' sch.conns in
      record {
        proper =
            (unfold open_conn in
              emplace-Values nat_keys (IsProper max_subs) c [] sch.conns (tt, omega arith)
                v.proper);
        distinct = v.distinct;
        waits = v.waits;
        owned = v.owned;
        queued = v.queued;
        found = λ c' s' p there. v.found c' s' p (sym (view c' s') ∙ there);
        live = λ p q at_p alive. view q.sub.conn_id (sv q.sub.sub_id) ∙ v.live p q at_p alive;
        below = v.below;
      }

  -- addSub never fails. It takes the place of the query of the same connection and name; it refuses
  -- only where the connection has its fill of others, and a new query is the next to run.
  pub add_sub-IsConsistent :
      (latest : ℕ) (sub : Subscription) (sch : QueryScheduler Q)
      → IsConsistent max_subs sch
      → (sch' : QueryScheduler Q) × (accepted : Bool) × (add_sub scanning max_subs latest sub sch
          ≡ ok (sch', accepted))
        × IsConsistent max_subs sch'
        × ((c : ℕ) (s : Bytes)
            → find_in c s sch'.conns ≡ (
                if same_sub sub.conn_id (sv sub.sub_id) c s
                then (if accepted then some sch.next_pointer else none)
                else find_in c s sch.conns))
        × (sch'.running ≡ (if accepted then sch.next_pointer ∷ sch.running else sch.running))
        × ((accepted ≡ true)
            ⊎ ((qs : List (Bytes × ℕ)) × (get nat_keys sub.conn_id sch'.conns ≡ some qs)
                × (length qs ≡ max_subs)))
  unfolding add_sub insert_sub start_query
  add_sub-IsConsistent latest sub sch v =
      let c = sub.conn_id in
      let s = sv sub.sub_id in
      let (sch1, run, v1, view, same_queue, same_next) = remove_sub-Fits max_subs none c s sch v in
      let opened = record sch1 { conns = open_conn c sch1.conns } in
      let qs = or_value nat_keys (get nat_keys c sch1.conns) [] in
      let there : get nat_keys c opened.conns ≡ some qs =
        (unfold open_conn in get-emplace_self nat_keys c [] sch1.conns) in
      let v2 = opened-IsConsistent c sch1 v1 in
      let view2 : (c' : ℕ) (s' : Bytes)
          → find_in c' s' opened.conns ≡ without c s (λ a b. find_in a b sch.conns) c' s' =
        λ c' s'. find_in-open_conn c c' s' sch1.conns ∙ view c' s' in
      let absent : find_in c s opened.conns ≡ none = view2 c s ∙ rw (same_sub_refl c s) refl in
      elim (Bool-cases (leb max_subs (length qs))) [
        | inl full ↦ (
          opened,
          false,
          rw (run, insert_sub, there, full) refl,
          v2,
          view2,
          same_queue,
          inr (qs, there, (let few = (v2.proper c qs there).1 in ground arith)),
        )
        | inr room ↦
            let sub' = record sub { latest_event_id = latest } in
            (
              start_query scanning sub' opened,
              true,
              rw (run, insert_sub, there, room) refl,
              start_query-IsConsistent sub' opened qs v2 there room absent,
              (λ c' s'.
                  find_in-emplace_in c s opened.next_pointer c' s' opened.conns qs there absent
                  ∙ elim (Bool-cases (same_sub c s c' s')) [
                    | inl y ↦ rw y (ap some same_next)
                    | inr n ↦ rw n (rw n at (view2 c' s'))
                  ]),
              rw (same_queue, same_next) refl,
              inl refl,
            )
      ]
