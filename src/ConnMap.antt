-- ===== src/ConnMap.antt =====
-- The maps from connections to their subscriptions, in src/ActiveMonitors.h and
-- src/QueryScheduler.h. A SubId is hashed and compared by its text, so that the text is the key.
use strfry.Prelude.{
  ℕ, ◌≤◌, ◌≡◌, refl, ◌∙◌, inl, inr, Bool, true, false, ◌&&◌, Option, none, some, List, [], ◌∷◌,
  arith, leb, ◌==◌, if◌then◌else◌, ==_iff, Bool-cases, Option-cases, if-cases, length,
}
use strfry.Prelude.Bytes.{Bytes, bytes_eq, bytes_eq→eq, bytes_eq_refl}
use strfry.HashMap.{
  nat_keys, byte_keys, eq_flip, map_option, get, emplace, adjust, erase, get-emplace_self,
  get-emplace, get-adjust_self, get-adjust, get-erase_self, get-erase, Distinct, Values,
  erase-Distinct, emplace-Distinct, adjust-Values, erase-Values, length-erase, length-emplace,
}

-- The same connection and name.
unfoldable pub same_sub : ℕ → Bytes → ℕ → Bytes → Bool
same_sub c s c' s' = c == c' && bytes_eq s s'

pub same_sub→eq :
    (c : ℕ) (s : Bytes) (c' : ℕ) (s' : Bytes) → same_sub c s c' s' ≡ true → (c ≡ c') × (s ≡ s')
unfolding same_sub
same_sub→eq c s c' s' h = ground (arith, bytes_eq→eq s s')

pub same_sub_refl : (c : ℕ) (s : Bytes) → same_sub c s c s ≡ true
unfolding same_sub
same_sub_refl c s = ground (arith, bytes_eq_refl s)

pub same_sub_ne :
    (c : ℕ) (s : Bytes) (c' : ℕ) (s' : Bytes) → same_sub c s c' s' ≡ false → c ≡ c' → s ≡ s' → ⊥
same_sub_ne c s c' s' other e e' =
    let same : same_sub c s c' s' ≡ true = rw (← e, ← e') (same_sub_refl c s) in
    absurd (ground arith)

abbrev pub ConnMap : Type 0 → Type 0
ConnMap V = List (ℕ × List (Bytes × V))

-- The view of the two maps as one function.
abbrev pub View : Type 0 → Type 0
View V = ℕ → Bytes → Option V

module _ {V : Type 0} where
  abbrev pub find_sub : Bytes → Option (List (Bytes × V)) → Option V
  find_sub s none = none
  find_sub s (some ms) = get byte_keys s ms

  unfoldable pub find_in : ℕ → Bytes → ConnMap V → Option V
  find_in c s conns = find_sub s (get nat_keys c conns)

  -- conns[connId].erase(subId), and the erasure of the connection if it has none left.
  unfoldable pub erase_in : ℕ → Bytes → ConnMap V → ConnMap V
  erase_in c s conns =
      let smaller = adjust nat_keys c (erase byte_keys s) conns in
      elim (get nat_keys c smaller) [
        | none ↦ smaller
        | some ms ↦ if length ms == 0 then erase nat_keys c smaller else smaller
      ]

  -- conns.try_emplace(connId), and its subscriptions then.
  unfoldable pub open_conn : ℕ → ConnMap V → ConnMap V
  open_conn c conns = emplace nat_keys c [] conns

  -- try_emplace of a subscription
  unfoldable pub emplace_in : ℕ → Bytes → V → ConnMap V → ConnMap V
  emplace_in c s m conns = adjust nat_keys c (emplace byte_keys s m) conns

  abbrev pub without : ℕ → Bytes → View V → View V
  without c s mons c' s' = if same_sub c s c' s' then none else mons c' s'

  abbrev pub with_entry : ℕ → Bytes → V → View V → View V
  with_entry c s m mons c' s' = if same_sub c s c' s' then some m else mons c' s'

  -- A change of the subscriptions of one connection.
  find_in-adjust :
      (c : ℕ) (g : List (Bytes × V) → List (Bytes × V)) (c' : ℕ) (s' : Bytes) (conns : ConnMap V)
      → find_in c' s' (adjust nat_keys c g conns) ≡ (
          if c == c'
          then find_sub s' (map_option g (get nat_keys c' conns))
          else find_in c' s' conns)
  unfolding find_in
  find_in-adjust c g c' s' conns = elim (Bool-cases (c == c')) [
    | inl y ↦ rw (y, (==_iff c c').0 y, get-adjust_self nat_keys c' g conns) refl
    | inr other ↦ rw (other, get-adjust nat_keys c g c' conns (ground arith)) refl
  ]

  pub find_in-erase_conn :
      (c c' : ℕ) (s' : Bytes) (conns : ConnMap V)
      → find_in c' s' (erase nat_keys c conns) ≡ (if c == c' then none else find_in c' s' conns)
  unfolding find_in
  find_in-erase_conn c c' s' conns = elim (Bool-cases (c == c')) [
    | inl y ↦ rw (y, (==_iff c c').0 y, get-erase_self nat_keys c' conns) refl
    | inr other ↦ rw (other, get-erase nat_keys c c' conns (ground arith)) refl
  ]

  find_sub-erase :
      (s s' : Bytes) (o : Option (List (Bytes × V)))
      → find_sub s' (map_option (erase byte_keys s) o)
        ≡ (if bytes_eq s s' then none else find_sub s' o)
  find_sub-erase s s' none = ground arith
  find_sub-erase s s' (some ms) = elim (Bool-cases (bytes_eq s s')) [
    | inl y ↦ rw (y, bytes_eq→eq s s' y) (get-erase_self byte_keys s' ms)
    | inr n ↦ rw n (get-erase byte_keys s s' ms (eq_flip byte_keys s s' n))
  ]

  get-empty :
      (s : Bytes) (ms : List (Bytes × V)) → (length ms == 0) ≡ true → get byte_keys s ms ≡ none
  unfolding get
  get-empty s [] h = refl
  get-empty s (m ∷ ms) h = absurd (ground arith)

  erase-empty :
      (c : ℕ) (ms : List (Bytes × V)) (c' : ℕ) (s' : Bytes) (conns : ConnMap V)
      → get nat_keys c conns ≡ some ms
      → (length ms == 0) ≡ true
      → find_in c' s' (erase nat_keys c conns) ≡ find_in c' s' conns
  erase-empty c ms c' s' conns there empty =
      find_in-erase_conn c c' s' conns ∙ elim (Bool-cases (c == c')) [
        | inl y ↦
            let same = (==_iff c c').0 y in
            let found : get nat_keys c' conns ≡ some ms = rw (← same) there in
            (unfold find_in in rw (y, found, get-empty s' ms empty) refl)
        | inr other ↦ rw other refl
      ]

  pub find_in-erase_in :
      (c : ℕ) (s : Bytes) (c' : ℕ) (s' : Bytes) (conns : ConnMap V)
      → find_in c' s' (erase_in c s conns) ≡ without c s (λ a b. find_in a b conns) c' s'
  unfolding erase_in same_sub
  find_in-erase_in c s c' s' conns =
      let smaller = adjust nat_keys c (erase byte_keys s) conns in
      let found : find_in c' s' smaller ≡ without c s (λ a b. find_in a b conns) c' s' =
        find_in-adjust c (erase byte_keys s) c' s' conns
        ∙ (unfold find_in in
            elim (Bool-cases (c == c')) [
              | inl y ↦ rw y (find_sub-erase s s' (get nat_keys c' conns))
              | inr other ↦ rw other refl
            ]) in
      elim (Option-cases (get nat_keys c smaller)) [
        | inl e ↦ rw (e, erase_in) found
        | inr (ms, e) ↦
            rw (e, erase_in)
              (if-cases (λ t. find_in c' s' t ≡ without c s (λ a b. find_in a b conns) c' s')
                (length ms == 0) _ _ (λ y. erase-empty c ms c' s' smaller e y ∙ found) (λ n. found))
      ]

  find_sub-emplace :
      (s : Bytes) (m : V) (s' : Bytes) (ms : List (Bytes × V))
      → get byte_keys s ms ≡ none
      → get byte_keys s' (emplace byte_keys s m ms)
        ≡ (if bytes_eq s s' then some m else get byte_keys s' ms)
  find_sub-emplace s m s' ms absent = elim (Bool-cases (bytes_eq s s')) [
    | inl y ↦
        let same = bytes_eq→eq s s' y in
        let absent' : get byte_keys s' ms ≡ none = rw (← same) absent in
        rw (y, same) (get-emplace_self byte_keys s' m ms ∙ rw absent' refl)
    | inr n ↦ rw n (get-emplace byte_keys s m s' ms (eq_flip byte_keys s s' n))
  ]

  pub find_in-emplace_in :
      (c : ℕ) (s : Bytes) (m : V) (c' : ℕ) (s' : Bytes) (conns : ConnMap V) (ms : List (Bytes × V))
      → get nat_keys c conns ≡ some ms
      → find_in c s conns ≡ none
      → find_in c' s' (emplace_in c s m conns) ≡ with_entry c s m (λ a b. find_in a b conns) c' s'
  unfolding emplace_in same_sub
  find_in-emplace_in c s m c' s' conns ms open_ absent =
      find_in-adjust c (emplace byte_keys s m) c' s' conns
      ∙ (unfold find_in in
          elim (Bool-cases (c == c')) [
            | inl y ↦
                let same = (==_iff c c').0 y in
                let found : get nat_keys c' conns ≡ some ms = rw (← same) open_ in
                rw (y, found) (find_sub-emplace s m s' ms (unfold find_in in (rw open_ at absent)))
            | inr other ↦ rw other refl
          ])

  pub find_in-open_conn :
      (c c' : ℕ) (s' : Bytes) (conns : ConnMap V)
      → find_in c' s' (open_conn c conns) ≡ find_in c' s' conns
  unfolding find_in open_conn
  find_in-open_conn c c' s' conns = elim (Bool-cases (c' == c)) [
    | inr n ↦ rw (get-emplace nat_keys c [] c' conns n) refl
    | inl y ↦
        rw ((==_iff c' c).0 y, get-emplace_self nat_keys c [] conns)
          (elim (Option-cases (get nat_keys c conns)) [
            | inl e ↦ (unfold get in rw e refl)
            | inr (ms, e) ↦ rw e refl
          ])
  ]

  -- The subscriptions of one connection: no name twice, and no more than the limit.
  abbrev pub IsProper : ℕ → List (Bytes × V) → Type 0
  IsProper max_subs ms = Distinct byte_keys ms × (length ms ≤ max_subs)

  pub erase_in-IsProper :
      (max_subs : ℕ) (c : ℕ) (s : Bytes) (conns : ConnMap V)
      → Values nat_keys (IsProper max_subs) conns
      → Values nat_keys (IsProper max_subs) (erase_in c s conns)
  unfolding erase_in
  erase_in-IsProper max_subs c s conns h =
      let smaller = adjust nat_keys c (erase byte_keys s) conns in
      let proper : Values nat_keys (IsProper max_subs) smaller =
        adjust-Values nat_keys (IsProper max_subs) c (erase byte_keys s) conns
          (λ ms there p.
            (erase-Distinct byte_keys s ms p.0, omega (arith, length-erase byte_keys s ms)))
          h in
      elim (Option-cases (get nat_keys c smaller)) [
        | inl e ↦ rw (e, erase_in) proper
        | inr (ms, e) ↦
            rw (e, erase_in)
              (if-cases (Values nat_keys (IsProper max_subs)) (length ms == 0) _ _
                (λ y. erase-Values nat_keys (IsProper max_subs) c smaller proper) (λ n. proper))
      ]

  pub emplace_in-IsProper :
      (max_subs : ℕ) (c : ℕ) (s : Bytes) (m : V) (ms : List (Bytes × V)) (conns : ConnMap V)
      → get nat_keys c conns ≡ some ms
      → leb max_subs (length ms) ≡ false
      → Values nat_keys (IsProper max_subs) conns
      → Values nat_keys (IsProper max_subs) (emplace_in c s m conns)
  unfolding emplace_in
  emplace_in-IsProper max_subs c s m ms conns there room h =
      adjust-Values nat_keys (IsProper max_subs) c (emplace byte_keys s m) conns
        (λ ms' there' p.
          let same : ms ≡ ms' = cc in
          let le = length-emplace byte_keys s m ms' in
          let room' : leb max_subs (length ms') ≡ false = rw (← same) room in
          (emplace-Distinct byte_keys s m ms' p.0, ground arith))
        h
