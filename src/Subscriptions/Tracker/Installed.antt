-- ===== src/Subscriptions/Tracker/Installed.antt =====
-- The tracker of src/EphemeralSubTracker.h follows the filters that src/ActiveMonitors.h installs.
use strfry.Prelude.{
  ℕ, ◌+◌, ◌-◌, ◌<◌, ◌≡◌, refl, sym, ap, subst, ◌∙◌, inl, inr, Bool, true, false, not, ◌&&◌, ◌||◌,
  Option, none, some, List, [], ◌∷◌, ◌++◌, arith, ltb, ◌==◌, if◌then◌else◌, Bool-cases, u64_mod,
  length, any,
}
use strfry.Filters.SetUint.Members.{member}
use strfry.Filters.SetUint.{FilterSetUint}
use strfry.Filters.Filter.{NostrFilter, is_some}
use strfry.Events.Kind.{is_ephemeral}
use strfry.Subscriptions.Tracker.{
  EphemeralSubTracker, has_subscribers_for_kind, add_kind, remove_kind, add_catch_all,
  remove_catch_all, for_kinds, Lookup, kinds_or_others, under_ids, under_authors, under_tags,
  under_others, under_kinds, lookup_of, install, uninstall,
}
use strfry.Subscriptions.Tracker.Counts.{
  refcount, Counts, has_count-refcount, refcount-increment, increment-Counts, refcount-decrement,
  decrement-Counts,
}

unfoldable pub occurs : ℕ → List ℕ → ℕ
occurs k [] = 0
occurs k (j ∷ js) = if j == k then 1 + occurs k js else occurs k js

-- How often a kind is counted for a filter, and how often the filter counts as a catch-all.
abbrev pub share : ℕ → Lookup → ℕ
share k (under_kinds ks) = occurs k ks
share k _ = 0

abbrev pub catch_all_share : Lookup → ℕ
catch_all_share under_others = 1
catch_all_share _ = 0

unfoldable pub total : (Lookup → ℕ) → List NostrFilter → ℕ
total part [] = 0
total part (f ∷ fs) = part (lookup_of f) + total part fs

-- The counts stand for the installed filters, in some order.
pub record Tracks (t : EphemeralSubTracker) (fs : List NostrFilter) : Type 0 where
  pub counts : Counts t.kind_refcounts
  pub kinds : (k : ℕ) → is_ephemeral k ≡ true → refcount k t.kind_refcounts ≡ total (share k) fs
  pub catch_all : t.catch_all_count ≡ total catch_all_share fs

for_kinds-count :
    (change : ℕ → EphemeralSubTracker → EphemeralSubTracker) (j : ℕ) (js : List ℕ)
    (t : EphemeralSubTracker)
    → is_ephemeral j ≡ true
    → for_kinds change js (change j t) ≡ for_kinds change (j ∷ js) t
unfolding for_kinds
for_kinds-count change j js t e =
    ap (λ b. for_kinds change js (if b then change j t else t)) (sym e)

for_kinds-skip :
    (change : ℕ → EphemeralSubTracker → EphemeralSubTracker) (j : ℕ) (js : List ℕ)
    (t : EphemeralSubTracker)
    → is_ephemeral j ≡ false
    → for_kinds change js t ≡ for_kinds change (j ∷ js) t
unfolding for_kinds
for_kinds-skip change j js t e = ap (λ b. for_kinds change js (if b then change j t else t)) (sym e)

-- One tracker has the counts of another, changed.
abbrev Changed : (ℕ → ℕ → ℕ) → EphemeralSubTracker → EphemeralSubTracker → Type 0
Changed by t r =
    Counts r.kind_refcounts
    × ((k : ℕ)
        → is_ephemeral k ≡ true
        → refcount k r.kind_refcounts ≡ by k (refcount k t.kind_refcounts))
    × (r.catch_all_count ≡ t.catch_all_count)

abbrev Room : List ℕ → EphemeralSubTracker → Type 0
Room ks t = (k : ℕ) → is_ephemeral k ≡ true → refcount k t.kind_refcounts + occurs k ks < u64_mod

add_kinds_lem :
    (ks : List ℕ) (t : EphemeralSubTracker)
    → Counts t.kind_refcounts
    → Room ks t
    → Changed (λ k n. n + occurs k ks) t (for_kinds add_kind ks t)
unfolding add_kind occurs
add_kinds_lem [] t c room = (unfold for_kinds in (c, (λ k e. omega arith), refl))
add_kinds_lem (j ∷ js) t c room = elim (Bool-cases (is_ephemeral j)) [
  | inr n ↦
      let same_room : Room js t = λ k e. (let r = room k e in ground arith) in
      let (c', counted, rest) = add_kinds_lem js t c same_room in
      subst (Changed (λ k n. n + occurs k (j ∷ js)) t) (for_kinds-skip add_kind j js t n)
        (c', (λ k e. (let q = counted k e in ground arith)), rest)
  | inl y ↦
      let r = room j y in
      let here : refcount j t.kind_refcounts + 1 < u64_mod = ground arith in
      let next_room : Room js (add_kind j t) = λ k e.
        (let r' = room k e in
          let a = refcount-increment k j t.kind_refcounts here in ground arith) in
      let (c', counted, rest) =
        add_kinds_lem js (add_kind j t) (increment-Counts j t.kind_refcounts here c) next_room in
      subst (Changed (λ k n. n + occurs k (j ∷ js)) t) (for_kinds-count add_kind j js t y) (
        c',
        (λ k e.
            (let q = counted k e in
              let a = refcount-increment k j t.kind_refcounts here in ground arith)),
        rest,
      )
]

remove_kinds_lem :
    (ks : List ℕ) (t : EphemeralSubTracker)
    → Counts t.kind_refcounts
    → Changed (λ k n. n - occurs k ks) t (for_kinds remove_kind ks t)
unfolding remove_kind occurs
remove_kinds_lem [] t c = (unfold for_kinds in (c, (λ k e. omega arith), refl))
remove_kinds_lem (j ∷ js) t c = elim (Bool-cases (is_ephemeral j)) [
  | inr n ↦
      let (c', counted, rest) = remove_kinds_lem js t c in
      subst (Changed (λ k n. n - occurs k (j ∷ js)) t) (for_kinds-skip remove_kind j js t n)
        (c', (λ k e. (let q = counted k e in ground arith)), rest)
  | inl y ↦
      let (c', counted, rest) =
        remove_kinds_lem js (remove_kind j t) (decrement-Counts j t.kind_refcounts c) in
      subst (Changed (λ k n. n - occurs k (j ∷ js)) t) (for_kinds-count remove_kind j js t y) (
        c',
        (λ k e.
            (let q = counted k e in
              let a = refcount-decrement k j t.kind_refcounts c in ground arith)),
        rest,
      )
]

install_lem :
    (l : Lookup) (t : EphemeralSubTracker) (kinds : ℕ → ℕ) (others : ℕ)
    → Counts t.kind_refcounts
    → ((k : ℕ) → is_ephemeral k ≡ true → refcount k t.kind_refcounts ≡ kinds k)
    → t.catch_all_count ≡ others
    → ((k : ℕ) → share k l + kinds k < u64_mod)
    → catch_all_share l + others < u64_mod
    → Counts (install l t).kind_refcounts
      × ((k : ℕ)
          → is_ephemeral k ≡ true
          → refcount k (install l t).kind_refcounts ≡ share k l + kinds k)
      × ((install l t).catch_all_count ≡ catch_all_share l + others)
unfolding install add_catch_all
install_lem under_ids t kinds others c h e room few =
    (c, (λ k y. (let q = h k y in omega arith)), omega arith)
install_lem under_authors t kinds others c h e room few =
    (c, (λ k y. (let q = h k y in omega arith)), omega arith)
install_lem under_tags t kinds others c h e room few =
    (c, (λ k y. (let q = h k y in omega arith)), omega arith)
install_lem under_others t kinds others c h e room few =
    (c, (λ k y. (let q = h k y in omega arith)), omega arith)
install_lem (under_kinds ks) t kinds others c h e room few =
    let (c', counted, rest) =
      add_kinds_lem ks t c (λ k y. (let q = h k y in let r = room k in omega arith)) in
    (c', (λ k y. (let q = h k y in let p = counted k y in omega arith)), omega arith)

uninstall_lem :
    (l : Lookup) (t : EphemeralSubTracker) (kinds : ℕ → ℕ) (others : ℕ)
    → Counts t.kind_refcounts
    → ((k : ℕ) → is_ephemeral k ≡ true → refcount k t.kind_refcounts ≡ share k l + kinds k)
    → t.catch_all_count ≡ catch_all_share l + others
    → Counts (uninstall l t).kind_refcounts
      × ((k : ℕ) → is_ephemeral k ≡ true → refcount k (uninstall l t).kind_refcounts ≡ kinds k)
      × ((uninstall l t).catch_all_count ≡ others)
unfolding uninstall remove_catch_all
uninstall_lem under_ids t kinds others c h e =
    (c, (λ k y. (let q = h k y in omega arith)), omega arith)
uninstall_lem under_authors t kinds others c h e =
    (c, (λ k y. (let q = h k y in omega arith)), omega arith)
uninstall_lem under_tags t kinds others c h e =
    (c, (λ k y. (let q = h k y in omega arith)), omega arith)
uninstall_lem under_others t kinds others c h e =
    (c, (λ k y. (let q = h k y in omega arith)), ground arith)
uninstall_lem (under_kinds ks) t kinds others c h e =
    let (c', counted, rest) = remove_kinds_lem ks t c in
    (c', (λ k y. (let q = h k y in let p = counted k y in omega arith)), omega arith)

total-append :
    (part : Lookup → ℕ) (fs : List NostrFilter) (f : NostrFilter) (gs : List NostrFilter)
    → total part (fs ++ f ∷ gs) ≡ part (lookup_of f) + total part (fs ++ gs)
unfolding total
total-append part [] f gs = refl
total-append part (x ∷ fs) f gs = let rest = total-append part fs f gs in omega arith

-- Installing a filter keeps the tracker in step, as long as no count reaches 2^64.
pub install-Tracks :
    (t : EphemeralSubTracker) (f : NostrFilter) (fs : List NostrFilter)
    → Tracks t fs
    → ((k : ℕ) → total (share k) (f ∷ fs) < u64_mod)
    → total catch_all_share (f ∷ fs) < u64_mod
    → Tracks (install (lookup_of f) t) (f ∷ fs)
unfolding total
install-Tracks t f fs h room few =
    let (c, kinds, others) =
      install_lem (lookup_of f) t (λ k. total (share k) fs) (total catch_all_share fs) h.counts
        h.kinds h.catch_all room few in
    record { counts = c; kinds = kinds; catch_all = others }

-- Uninstalling an installed filter keeps the tracker in step with the others.
pub uninstall-Tracks :
    (t : EphemeralSubTracker) (fs : List NostrFilter) (f : NostrFilter) (gs : List NostrFilter)
    → Tracks t (fs ++ f ∷ gs)
    → Tracks (uninstall (lookup_of f) t) (fs ++ gs)
uninstall-Tracks t fs f gs h =
    let (c, kinds, others) =
      uninstall_lem (lookup_of f) t (λ k. total (share k) (fs ++ gs))
        (total catch_all_share (fs ++ gs)) h.counts
        (λ k e. h.kinds k e ∙ total-append (share k) fs f gs)
        (h.catch_all ∙ total-append catch_all_share fs f gs) in
    record { counts = c; kinds = kinds; catch_all = others }

abbrev pub asks_kind : ℕ → Option FilterSetUint → Bool
asks_kind k none = true
asks_kind k (some s) = member k s.items

-- The filters that the tracker counts for a kind.
unfoldable pub is_counted : ℕ → NostrFilter → Bool
is_counted k f =
    not (is_some f.ids)
    && (not (is_some f.authors) && ((length f.tags == 0) && asks_kind k f.kinds))

abbrev waits_for : ℕ → Lookup → Bool
waits_for k l = ltb 0 (catch_all_share l) || ltb 0 (share k l)

occurs-member : (k : ℕ) (ks : List ℕ) → ltb 0 (occurs k ks) ≡ member k ks
unfolding occurs member
occurs-member k [] = refl
occurs-member k (j ∷ js) = let rest = occurs-member k js in ground arith

waits_for-chain :
    (k : ℕ) (ids authors tags : Bool) (kinds : Option FilterSetUint)
    → waits_for k (
        if ids
        then under_ids
        else if authors
        then under_authors
        else if not tags
        then under_tags
        else kinds_or_others kinds)
      ≡ (not ids && (not authors && (tags && asks_kind k kinds)))
waits_for-chain k true authors tags kinds = refl
waits_for-chain k false true tags kinds = refl
waits_for-chain k false false false kinds = refl
waits_for-chain k false false true none = refl
waits_for-chain k false false true (some s) = occurs-member k s.items

waits_for-is_counted : (k : ℕ) (f : NostrFilter) → waits_for k (lookup_of f) ≡ is_counted k f
unfolding is_counted lookup_of
waits_for-is_counted k f =
    waits_for-chain k (is_some f.ids) (is_some f.authors) (length f.tags == 0) f.kinds

positive-any :
    (k : ℕ) (fs : List NostrFilter)
    → (ltb 0 (total catch_all_share fs) || ltb 0 (total (share k) fs)) ≡ any (is_counted k) fs
unfolding total
positive-any k [] = refl
positive-any k (f ∷ fs) =
    let rest = positive-any k fs in let first = waits_for-is_counted k f in ground arith

-- For an ephemeral kind the tracker answers whether an installed filter has no ids, no authors and
-- no tags, and either lists the kind or lists no kinds.
pub has_subscribers_for_kind-any :
    (t : EphemeralSubTracker) (fs : List NostrFilter) (k : ℕ)
    → Tracks t fs
    → is_ephemeral k ≡ true
    → has_subscribers_for_kind t k ≡ any (is_counted k) fs
unfolding has_subscribers_for_kind
has_subscribers_for_kind-any t fs k h e =
    rw (has_count-refcount k t.kind_refcounts h.counts, h.kinds k e, h.catch_all)
      (positive-any k fs)
