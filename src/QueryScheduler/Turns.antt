-- ===== src/QueryScheduler/Turns.antt =====
-- What a slice of src/QueryScheduler.h does to the queue and to the queries.
use strfry.Prelude.{
  ℕ, ◌≡◌, refl, sym, ap, subst, ◌∙◌, inl, inr, false, none, some, List, [], ◌∷◌, ◌++◌, arith, ◌==◌,
  ==_iff, Bool-cases,
}
use strfry.Prelude.Bytes.{Bytes}
use strfry.Prelude.Distinct.{
  InList, Distinct, InList-append, InList-left, InList-right, append-Distinct,
}
use strfry.HashMap.{
  nat_keys, get, adjust, erase, get-adjust_self, get-adjust, get-erase_self, get-erase,
}
use strfry.ConnMap.{find_in}
use strfry.Subscriptions.SubId.{sv}
use strfry.Subscriptions.Subscription.{Subscription}
use strfry.QueryScheduler.{DbQuery, QueryScheduler}
use strfry.QueryScheduler.Valid.{Fits, IsConsistent}

get_erased :
    {Q : Type 0} (p j : ℕ) (heap : List (ℕ × DbQuery Q)) (q : DbQuery Q)
    → get nat_keys j (erase nat_keys p heap) ≡ some q
    → ((j == p) ≡ false) × (get nat_keys j heap ≡ some q)
get_erased p j heap q h = elim (Bool-cases (j == p)) [
  | inr n ↦ (n, sym (get-erase nat_keys p j heap n) ∙ h)
  | inl y ↦
      let gone : get nat_keys j (erase nat_keys p heap) ≡ none =
        rw ((==_iff j p).0 y) (get-erase_self nat_keys p heap) in
      let no_one : none ≡ some q = sym gone ∙ h in absurd (ground arith)
]

module _ {Q : Type 0} (max_subs : ℕ) where
  -- The first of the queue has its turn.
  pub take_turn :
      (p : ℕ) (ps : List ℕ) (sch : QueryScheduler Q)
      → sch.running ≡ p ∷ ps
      → IsConsistent max_subs sch
      → Fits max_subs (some p) (record sch { running = ps })
  take_turn p ps sch queue v =
      let d : Distinct (p ∷ ps) = subst Distinct queue v.distinct in
      record {
        proper = v.proper;
        distinct = d.1;
        waits = λ j e. (let same : p ≡ j = ground arith in subst (λ x. ¬ InList x ps) same d.0);
        owned = λ j there. v.owned j (subst (InList j) (sym queue) (inr there));
        queued = λ j q at_j. elim (v.queued j q at_j) [
          | inr e ↦ absurd (ground arith)
          | inl there ↦ elim (subst (InList j) queue there) [
            | inl same ↦ inr (ap some (sym same))
            | inr later ↦ inl later
          ]
        ];
        found = v.found;
        live = v.live;
        below = v.below;
      }

  -- The end of a query that no entry points to.
  pub delete_query :
      (p : ℕ) (sch : QueryScheduler Q)
      → Fits max_subs (some p) sch
      → ((c : ℕ) (s : Bytes) → ¬ (find_in c s sch.conns ≡ some p))
      → IsConsistent max_subs (record sch { heap = erase nat_keys p sch.heap })
  delete_query p sch v unused = record {
    proper = v.proper;
    distinct = v.distinct;
    waits = λ j e. absurd (ground arith);
    owned = λ j there.
        (let (q, at_j) = v.owned j there in
          (
            q,
            get-erase nat_keys p j sch.heap (elim (Bool-cases (j == p)) [
              | inr n ↦ n
              | inl y ↦
                  absurd
                    (v.waits p refl (subst (λ x. InList x sch.running) ((==_iff j p).0 y) there))
            ])
                ∙ at_j,
          ));
    queued = λ j q at_j.
        (let (other, at_j') = get_erased p j sch.heap q at_j in
          elim (v.queued j q at_j') [ inl there ↦ inl there | inr e ↦ absurd (ground arith) ]);
    found = λ c s j there.
        (let (q, at_j, alive, a, b) = v.found c s j there in
          (
            q,
            get-erase nat_keys p j sch.heap (elim (Bool-cases (j == p)) [
              | inr n ↦ n
              | inl y ↦ absurd (unused c s (there ∙ ap some ((==_iff j p).0 y)))
            ])
                ∙ at_j,
            alive,
            a,
            b,
          ));
    live = λ j q at_j alive. v.live j q (get_erased p j sch.heap q at_j).1 alive;
    below = λ j q at_j. v.below j q (get_erased p j sch.heap q at_j).1;
  }

  -- A slice that is not the last.
  pub requeue :
      (p : ℕ) (q : DbQuery Q) (sch : QueryScheduler Q)
      → Fits max_subs (some p) sch
      → get nat_keys p sch.heap ≡ some q
      → IsConsistent max_subs (record sch { running = sch.running ++ p ∷ [] })
  requeue p q sch v at_p = record {
    proper = v.proper;
    distinct =
        append-Distinct sch.running (p ∷ []) v.distinct ((λ none_there. none_there), tt)
          (λ x there last. elim last [
            | inl same ↦ v.waits p refl (subst (λ y. InList y sch.running) same there)
            | inr none_there ↦ none_there
          ]);
    waits = λ j e. absurd (ground arith);
    owned = λ j there. elim (InList-append j sch.running (p ∷ []) there) [
      | inl old ↦ v.owned j old
      | inr last ↦ elim last [ inl same ↦ (q, rw same at_p) | inr none_there ↦ absurd none_there ]
    ];
    queued = λ j qj at_j. elim (v.queued j qj at_j) [
      | inl there ↦ inl (InList-left j sch.running (p ∷ []) there)
      | inr e ↦ inl (InList-right j sch.running (p ∷ []) (inl (ground arith)))
    ];
    found = v.found;
    live = v.live;
    below = v.below;
  }

  -- A query whose slice it is, with what it has got to.
  pub advanced :
      (p : ℕ) (q : DbQuery Q) (progress : Q) (sch : QueryScheduler Q)
      → Fits max_subs (some p) sch
      → get nat_keys p sch.heap ≡ some q
      → let q' : DbQuery Q = record q { progress = progress } in
        Fits max_subs (some p) (record sch { heap = adjust nat_keys p (λ old. q') sch.heap })
        × (get nat_keys p (adjust nat_keys p (λ old. q') sch.heap) ≡ some q')
  advanced p q progress sch v at_p =
      let q' : DbQuery Q = record q { progress = progress } in
      let here : get nat_keys p (adjust nat_keys p (λ old. q') sch.heap) ≡ some q' =
        get-adjust_self nat_keys p (λ old. q') sch.heap ∙ rw at_p refl in
      let at : (j : ℕ) (qj : DbQuery Q)
          → get nat_keys j (adjust nat_keys p (λ old. q') sch.heap) ≡ some qj
          → (q0 : DbQuery Q) × (get nat_keys j sch.heap ≡ some q0)
            × (qj.dead ≡ q0.dead)
            × (qj.sub ≡ q0.sub) =
        λ j qj h. elim (Bool-cases (j == p)) [
          | inr n ↦ (qj, sym (get-adjust nat_keys p (λ old. q') j sch.heap n) ∙ h, refl, refl)
          | inl y ↦
              let same = (==_iff j p).0 y in
              let h' : get nat_keys p (adjust nat_keys p (λ old. q') sch.heap) ≡ some qj =
                subst (λ x. get nat_keys x (adjust nat_keys p (λ old. q') sch.heap) ≡ some qj) same
                  h in
              let q_is : some q' ≡ some qj = sym here ∙ h' in
              let q_is' : q' ≡ qj = ground arith in
              (
                q,
                rw same at_p,
                ap (λ (x : DbQuery Q). x.dead) (sym q_is'),
                ap (λ (x : DbQuery Q). x.sub) (sym q_is'),
              )
        ] in
      let still : (j : ℕ) (q0 : DbQuery Q)
          → get nat_keys j sch.heap ≡ some q0
          → (qj : DbQuery Q) × (get nat_keys j (adjust nat_keys p (λ old. q') sch.heap) ≡ some qj)
            × (qj.dead ≡ q0.dead)
            × (qj.sub ≡ q0.sub) =
        λ j q0 h. elim (Bool-cases (j == p)) [
          | inr n ↦ (q0, get-adjust nat_keys p (λ old. q') j sch.heap n ∙ h, refl, refl)
          | inl y ↦
              let same = (==_iff j p).0 y in
              let h' : get nat_keys p sch.heap ≡ some q0 = rw (← same) h in
              let q_is : some q ≡ some q0 = sym at_p ∙ h' in
              let q_is' : q ≡ q0 = ground arith in
              (
                q',
                rw same here,
                ap (λ (x : DbQuery Q). x.dead) q_is',
                ap (λ (x : DbQuery Q). x.sub) q_is',
              )
        ] in
      (
        record {
          proper = v.proper;
          distinct = v.distinct;
          waits = v.waits;
          owned = λ j there.
              (let (q0, at_j) = v.owned j there in
                let (qj, at_j', same_dead, same_sub_) = still j q0 at_j in (qj, at_j'));
          queued =
              λ j qj h. (let (q0, at_j, same_dead, same_sub_) = at j qj h in v.queued j q0 at_j);
          found = λ c s j there.
              (let (q0, at_j, alive, a, b) = v.found c s j there in
                let (qj, at_j', same_dead, same_sub_) = still j q0 at_j in
                (
                  qj,
                  at_j',
                  same_dead ∙ alive,
                  ap (λ (x : Subscription). x.conn_id) same_sub_ ∙ a,
                  ap (λ (x : Subscription). sv x.sub_id) same_sub_ ∙ b,
                ));
          live = λ j qj h alive.
              (let (q0, at_j, same_dead, same_sub_) = at j qj h in
                subst (λ (x : Subscription). find_in x.conn_id (sv x.sub_id) sch.conns ≡ some j)
                  (sym same_sub_) (v.live j q0 at_j (sym same_dead ∙ alive)));
          below = λ j qj h. (let (q0, at_j, same_dead, same_sub_) = at j qj h in v.below j q0 at_j);
        },
        here,
      )
