-- ===== src/ThreadPool.antt =====
-- ThreadPool of src/ThreadPool.h: which inbox a message goes to. The threads themselves, which take
-- the messages out, are left out: an inbox is the list of what was put in.
pub mod Inboxes
use strfry.Prelude.{ℕ, zero, suc, ◌%◌, List, [], ◌∷◌, ◌++◌, ◌==◌, herr, Result, ok, ◌>>◌, throw_if}

pub record ThreadPool {ℓ} (M : Type ℓ) : Type ℓ where
  pub num_threads : ℕ
  pub inboxes : List (List M)

module _ {ℓ} {M : Type ℓ} where
  abbrev pub empty_inboxes : ℕ → List (List M)
  empty_inboxes zero = []
  empty_inboxes (suc n) = [] ∷ empty_inboxes n

  unfoldable pub init : ℕ → Result (ThreadPool M)
  init n = do
    throw_if (n == 0) (herr "must have more than 0 threads")
    ok (record { num_threads = n; inboxes = empty_inboxes n })

  -- pool[who].inbox.push_move_all(ms). Behind the last thread, where the source has no defined
  -- behaviour, nothing is pushed.
  unfoldable pub push_all : ℕ → List M → List (List M) → List (List M)
  push_all who ms [] = []
  push_all zero ms (q ∷ qs) = (q ++ ms) ∷ qs
  push_all (suc who) ms (q ∷ qs) = q ∷ push_all who ms qs

  unfoldable pub dispatch : ℕ → M → ThreadPool M → ThreadPool M
  dispatch key m pool =
      let who = key % pool.num_threads in
      record pool { inboxes = push_all who (m ∷ []) pool.inboxes }

  unfoldable pub dispatch_multi : ℕ → List M → ThreadPool M → ThreadPool M
  dispatch_multi key ms pool =
      let who = key % pool.num_threads in record pool { inboxes = push_all who ms pool.inboxes }

  -- The first n rounds of the loop; `cb i` is what the call of round i returns.
  unfoldable pub push_each : (ℕ → M) → ℕ → List (List M) → List (List M)
  push_each cb zero qs = qs
  push_each cb (suc i) qs = push_all i (cb i ∷ []) (push_each cb i qs)

  unfoldable pub dispatch_to_all : (ℕ → M) → ThreadPool M → ThreadPool M
  dispatch_to_all cb pool = record pool { inboxes = push_each cb pool.num_threads pool.inboxes }
