-- ===== src/Tests/Dispatching.antt =====
-- Three threads and a few dispatches.
use strfry.Prelude.{ℕ, ◌+◌, ◌≡◌, refl, some, List, [], ◌∷◌, arith, get_elem?, ok}
use strfry.ThreadPool.{ThreadPool, init}
use strfry.ThreadPool.Inboxes.{Call, one, multi, to_all, run_calls, messages_for, run_calls-init}

abbrev calls : List (Call ℕ)
calls = one 4 10 ∷ multi 7 (20 ∷ 21 ∷ []) ∷ one 5 30 ∷ to_all (λ i. 100 + i) ∷ one 1 40 ∷ []

calls_for_one : messages_for 3 1 calls ≡ 10 ∷ 20 ∷ 21 ∷ 101 ∷ 40 ∷ []
unfolding messages_for
calls_for_one = refl

run_calls-init_example :
    (pool : ThreadPool ℕ) × (init 3 ≡ ok pool)
    × (get_elem? (run_calls calls pool).inboxes 1 ≡ some (messages_for 3 1 calls))
run_calls-init_example = run_calls-init 3 calls 1 (omega arith)
