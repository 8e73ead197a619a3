-- ===== src/Negentropy/Index.antt =====
-- What the dispatch index of src/NegentropyFilterCache.h holds.
use strfry.Prelude.{
  ℕ, zero, suc, ◌+◌, ◌<◌, ◌≡◌, refl, subst, inl, inr, false, ◌&&◌, Option, none, some, List, [],
  ◌∷◌, ◌++◌, arith, ◌==◌, if◌then◌else◌, Bool-cases, get_elem?,
}
use strfry.Filters.SetUint.{FilterSetUint}
use strfry.Subscriptions.Tracker.Installed.{occurs}
use strfry.Negentropy.{FilterInfo, push_kind, push_kinds, index_filter, build_index, find_kind}

pub occurs-append : (i : ℕ) (is js : List ℕ) → occurs i (is ++ js) ≡ occurs i is + occurs i js
unfolding occurs
occurs-append i [] js = omega arith
occurs-append i (x ∷ is) js = let rest = occurs-append i is js in ground arith

occurs-push_kind :
    (i k j n : ℕ) (m : List (ℕ × List ℕ))
    → occurs i (find_kind k (push_kind j n m))
      ≡ occurs i (find_kind k m) + (if (j == k) && (n == i) then 1 else 0)
unfolding occurs find_kind push_kind
occurs-push_kind i k j n [] = ground arith
occurs-push_kind i k j n ((q, is) ∷ m) = elim (Bool-cases (q == j)) [
  | inl y ↦ let more = occurs-append i is (n ∷ []) in rw y (ground arith)
  | inr x ↦ let rest = occurs-push_kind i k j n m in rw x (ground arith)
]

occurs-push_kinds :
    (i k n : ℕ) (js : List ℕ) (m : List (ℕ × List ℕ))
    → occurs i (find_kind k (push_kinds n js m))
      ≡ occurs i (find_kind k m) + (if n == i then occurs k js else 0)
unfolding push_kinds occurs
occurs-push_kinds i k n [] m = ground arith
occurs-push_kinds i k n (j ∷ js) m =
    let rest = occurs-push_kinds i k n js (push_kind j n m) in
    let one = occurs-push_kind i k j n m in ground arith

-- How often a filter stands in the index under a kind or among the filters for all kinds.
abbrev pub weight : ℕ → Option FilterSetUint → ℕ
weight k none = 1
weight k (some s) = occurs k s.items

abbrev tried : ℕ → ℕ → List (ℕ × List ℕ) × List ℕ → ℕ
tried i k idx = occurs i (find_kind k idx.0) + occurs i idx.1

tried-index_filter :
    (i k n : ℕ) (kinds : Option FilterSetUint) (idx : List (ℕ × List ℕ) × List ℕ)
    → tried i k (index_filter n kinds idx) ≡ tried i k idx + (if n == i then weight k kinds else 0)
unfolding index_filter occurs
tried-index_filter i k n none (m, others) =
    let more = occurs-append i others (n ∷ []) in ground arith
tried-index_filter i k n (some s) (m, others) =
    let more = occurs-push_kinds i k n s.items m in ground arith

-- The weight of the filter at an index, which is counted from `n`.
unfoldable pub weight_at : ℕ → ℕ → ℕ → List FilterInfo → ℕ
weight_at i k n [] = 0
weight_at i k n (info ∷ infos) =
    (if n == i then weight k info.f.kinds else 0) + weight_at i k (n + 1) infos

pub tried-build_index :
    (i k n : ℕ) (infos : List FilterInfo) (idx : List (ℕ × List ℕ) × List ℕ)
    → tried i k (build_index n infos idx) ≡ tried i k idx + weight_at i k n infos
unfolding build_index weight_at
tried-build_index i k n [] idx = omega arith
tried-build_index i k n (info ∷ infos) idx =
    let rest = tried-build_index i k (n + 1) infos (index_filter n info.f.kinds idx) in
    let one = tried-index_filter i k n info.f.kinds idx in omega arith

weight_at-below : (i k n : ℕ) (infos : List FilterInfo) → i < n → weight_at i k n infos ≡ 0
unfolding weight_at
weight_at-below i k n [] h = refl
weight_at-below i k n (info ∷ infos) h =
    let rest = weight_at-below i k (n + 1) infos (omega arith) in ground arith

abbrev pub weight_of : ℕ → Option FilterInfo → ℕ
weight_of k none = 0
weight_of k (some info) = weight k info.f.kinds

pub weight_at-weight_of :
    (i k n : ℕ) (infos : List FilterInfo)
    → weight_at (n + i) k n infos ≡ weight_of k (get_elem? infos i)
unfolding weight_at
weight_at-weight_of i k n [] = refl
weight_at-weight_of zero k n (info ∷ infos) =
    let rest = weight_at-below (n + 0) k (n + 1) infos (omega arith) in rw rest (ground arith)
weight_at-weight_of (suc i) k n (info ∷ infos) =
    let e : n + 1 + i ≡ n + suc i = omega arith in
    let rest : weight_at (n + suc i) k (n + 1) infos ≡ weight_of k (get_elem? infos i) =
      subst (λ (q : ℕ). weight_at q k (n + 1) infos ≡ weight_of k (get_elem? infos i)) e
        (weight_at-weight_of i k (n + 1) infos) in
    let other : (n == n + suc i) ≡ false = ground arith in rw (other, rest) (omega arith)
