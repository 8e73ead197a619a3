-- ===== src/DbQuery/Reports.antt =====
-- What DBQuery::process of src/DBQuery.h reports of the levIds that a scan hands to its callback.
use strfry.Prelude.{
  ℕ, ◌≤◌, ◌<◌, ◌≡◌, ◌⊎◌, Bool, true, false, List, [], ◌∷◌, ◌++◌, if◌then◌else◌, length, All,
}
use strfry.Prelude.Distinct.{InList, Distinct}
use strfry.Filters.Filter.{NostrFilter}
use strfry.DbQuery.Query.{Reporting, handle_event}

-- The hash set after the insertion of one levId after the other.
abbrev pub insert_all : List ℕ → List ℕ → List ℕ
insert_all [] full = full
insert_all (l ∷ ls) full = insert_all ls (l ∷ full)

-- The calls that a scan makes on the levIds of its candidates, until one says that the scan is done.
unfoldable pub hand_all : NostrFilter → ℕ → List ℕ → Reporting → Reporting × Bool
hand_all f latest [] st = (st, false)
hand_all f latest (l ∷ ls) st =
    let (st', done) = handle_event f latest l st in
    let rest = hand_all f latest ls st' in if done then (st', true) else rest

-- There is room for another event of the filter.
abbrev pub HasRoom : NostrFilter → Reporting → Type 0
HasRoom f st = (f.limit ≡ 0) ⊎ (length st.curr < f.limit)

-- What was reported on the way from `st` to `now`: `news`, whose levIds were among `ls`.
pub record IsTold (latest : ℕ) (ls : List ℕ) (st now : Reporting) (news : List ℕ) : Type 0 where
  pub remembers : now.full ≡ insert_all news st.full
  pub tells : now.reported ≡ st.reported ++ news
  pub distinct : Distinct now.full
  pub not_new : All (λ l. l ≤ latest) news
  pub handed : All (λ l. InList l ls) news

-- Done with as many events as the limit allows, or everything was looked at.
abbrev pub Settled : NostrFilter → ℕ → List ℕ → Reporting → Bool → Type 0
Settled f latest ls now done =
    ((done ≡ true) × ((f.limit ≡ 0) ⊎ (length now.curr ≡ f.limit)))
    ⊎ ((done ≡ false) × HasRoom f now × All (λ l. (latest < l) ⊎ InList l now.full) ls)

-- What is true of the calls on some levIds, and their outcome.
abbrev Handed : NostrFilter → ℕ → List ℕ → Reporting → Reporting × Bool → Type 0
Handed f latest ls st r =
    (news : List ℕ) × IsTold latest ls st r.0 news × Settled f latest ls r.0 r.1
