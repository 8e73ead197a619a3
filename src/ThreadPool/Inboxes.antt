-- ===== src/ThreadPool/Inboxes.antt =====
-- What stands in the inboxes of src/ThreadPool.h after a sequence of dispatches.
use strfry.Prelude.{
  ℕ, zero, suc, ◌%◌, ◌<◌, ◌≡◌, refl, ap, ◌∙◌, inl, inr, true, false, some, List, [], ◌∷◌, ◌++◌,
  arith, ltb, ◌==◌, if◌then◌else◌, Bool-cases, get_elem?, ok,
}
use mathlib.Core.List.{append_assoc, append-nil}
use strfry.ThreadPool.{
  ThreadPool, init, empty_inboxes, push_all, push_each, dispatch, dispatch_multi, dispatch_to_all,
}

-- A call of one of the three dispatching methods.
pub data Call {ℓ} (M : Type ℓ) : Type ℓ where
  one : ℕ → M → Call M
  multi : ℕ → List M → Call M
  to_all : (ℕ → M) → Call M

module _ {ℓ} {M : Type ℓ} where
  unfoldable pub run_calls : List (Call M) → ThreadPool M → ThreadPool M
  run_calls [] pool = pool
  run_calls (one key m ∷ calls) pool = run_calls calls (dispatch key m pool)
  run_calls (multi key ms ∷ calls) pool = run_calls calls (dispatch_multi key ms pool)
  run_calls (to_all cb ∷ calls) pool = run_calls calls (dispatch_to_all cb pool)

  -- The messages for thread i of n, in the order of the calls.
  unfoldable pub messages_for : ℕ → ℕ → List (Call M) → List M
  messages_for n i [] = []
  messages_for n i (one key m ∷ calls) =
      (if key % n == i then m ∷ [] else []) ++ messages_for n i calls
  messages_for n i (multi key ms ∷ calls) =
      (if key % n == i then ms else []) ++ messages_for n i calls
  messages_for n i (to_all cb ∷ calls) = cb i ∷ messages_for n i calls

  get_elem?-push_all :
      (who i : ℕ) (ms q : List M) (qs : List (List M))
      → get_elem? qs i ≡ some q
      → get_elem? (push_all who ms qs) i ≡ some (q ++ (if who == i then ms else []))
  unfolding push_all
  get_elem?-push_all who i ms q [] h = absurd (ground arith)
  get_elem?-push_all zero zero ms q (p ∷ qs) h = let same : p ≡ q = ground arith in rw same refl
  get_elem?-push_all zero (suc i) ms q (p ∷ qs) h =
      let other : (0 == suc i) ≡ false = ground arith in rw (other, append-nil q) h
  get_elem?-push_all (suc who) zero ms q (p ∷ qs) h =
      let other : (suc who == 0) ≡ false = ground arith in rw (other, append-nil q) h
  get_elem?-push_all (suc who) (suc i) ms q (p ∷ qs) h =
      let same : (suc who == suc i) ≡ (who == i) = ground arith in
      rw same (get_elem?-push_all who i ms q qs h)

  get_elem?-push_each :
      (cb : ℕ → M) (n i : ℕ) (q : List M) (qs : List (List M))
      → get_elem? qs i ≡ some q
      → get_elem? (push_each cb n qs) i ≡ some (q ++ (if ltb i n then cb i ∷ [] else []))
  unfolding push_each
  get_elem?-push_each cb zero i q qs h =
      let none_yet : ltb i 0 ≡ false = ground arith in rw (none_yet, append-nil q) h
  get_elem?-push_each cb (suc n) i q qs h =
      get_elem?-push_all n i (cb n ∷ []) _ (push_each cb n qs) (get_elem?-push_each cb n i q qs h)
      ∙ ap some (elim (Bool-cases (n == i)) [
        | inl y ↦
            let key : n ≡ i = ground arith in
            let old : ltb i n ≡ false = ground arith in
            let new : ltb i (suc n) ≡ true = ground arith in
            rw (old, new, y, append-nil q) (ap (λ k. q ++ (cb k ∷ [])) key)
        | inr other ↦
            let same : ltb i (suc n) ≡ ltb i n = ground arith in rw (same, other) (append-nil _)
      ])

  -- The inbox of thread i receives, behind what was in it, the messages for thread i in the order
  -- of the calls, and nothing else.
  pub run_calls-messages_for :
      (calls : List (Call M)) (pool : ThreadPool M) (i : ℕ) (q : List M)
      → i < pool.num_threads
      → get_elem? pool.inboxes i ≡ some q
      → get_elem? (run_calls calls pool).inboxes i
        ≡ some (q ++ messages_for pool.num_threads i calls)
  unfolding run_calls messages_for dispatch dispatch_multi dispatch_to_all
  run_calls-messages_for [] pool i q below h = rw (append-nil q) h
  run_calls-messages_for (one key m ∷ calls) pool i q below h =
      run_calls-messages_for calls (dispatch key m pool) i _ below
        (get_elem?-push_all (key % pool.num_threads) i (m ∷ []) q pool.inboxes h)
      ∙ ap some (append_assoc q _ _)
  run_calls-messages_for (multi key ms ∷ calls) pool i q below h =
      run_calls-messages_for calls (dispatch_multi key ms pool) i _ below
        (get_elem?-push_all (key % pool.num_threads) i ms q pool.inboxes h)
      ∙ ap some (append_assoc q _ _)
  run_calls-messages_for (to_all cb ∷ calls) pool i q below h =
      let each : ltb i pool.num_threads ≡ true = ground arith in
      run_calls-messages_for calls (dispatch_to_all cb pool) i _ below
        (get_elem?-push_each cb pool.num_threads i q pool.inboxes h)
      ∙ ap some (rw each (append_assoc q (cb i ∷ []) _))

  get_elem?-empty_inboxes : (n i : ℕ) → i < n → get_elem? (empty_inboxes {M = M} n) i ≡ some []
  get_elem?-empty_inboxes zero i h = absurd (omega arith)
  get_elem?-empty_inboxes (suc n) zero h = refl
  get_elem?-empty_inboxes (suc n) (suc i) h = get_elem?-empty_inboxes n i (omega arith)

  -- A pool with at least one thread starts, and after any sequence of dispatches the inbox of each of
  -- its threads holds exactly the messages for that thread (those whose key has the remainder i, and
  -- those for all threads), in the order of the calls.
  pub run_calls-init :
      (n : ℕ) (calls : List (Call M)) (i : ℕ)
      → i < n
      → (pool : ThreadPool M) × (init n ≡ ok pool)
        × (get_elem? (run_calls calls pool).inboxes i ≡ some (messages_for n i calls))
  unfolding init
  run_calls-init n calls i below =
      let some_thread : (n == 0) ≡ false = ground arith in
      let pool : ThreadPool M = record { num_threads = n; inboxes = empty_inboxes n } in
      (
        pool,
        rw some_thread refl,
        run_calls-messages_for calls pool i [] below (get_elem?-empty_inboxes n i below),
      )
