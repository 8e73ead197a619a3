-- ===== src/Monitors/Telling.antt =====
-- processMonitorSet of src/ActiveMonitors.h on one item: who has been told of the event so far.
use strfry.Prelude.{
  ℕ, zero, suc, ◌≤◌, ◌≡◌, refl, subst, ◌∙◌, ◌⊎◌, inl, inr, Bool, true, not, ◌&&◌, ◌||◌, none, some,
  List, [], ◌∷◌, ◌++◌, arith, ltb, leb, ◌==◌, if◌then◌else◌, Bool-cases, Bool-ext, get_elem?, any,
  All,
}
use strfry.Prelude.Bytes.{Bytes}
use strfry.HashMap.{
  nat_keys, byte_keys, map_option, adjust, Values, adjust-Values, adjust-Distinct, length-adjust,
}
use strfry.Prelude.Distinct.{InList}
use strfry.ConnMap.{IsProper, find_in, same_sub, same_sub_refl, same_sub→eq}
use strfry.PackedEvent.{Lmdb}
use strfry.PackedEvent.RoundTrip.{EventData, IsPackable}
use strfry.Filters.Filter.{NostrFilter}
use strfry.Filters.Filter.Matching.{matches}
use strfry.Subscriptions.SubId.{sv}
use strfry.Subscriptions.Subscription.{ConnIdSubId, RecipientList}
use strfry.Monitors.Items.{MonitorItem}
use strfry.Monitors.Keys.{IndexKey}
use strfry.Monitors.Keys.Indexable.{spec_of, keys_of}
use strfry.Monitors.Conns.{Monitor, Monitors, touch, set_latest, find_in-set_latest}
use strfry.Monitors.Operations.{Progress}
use strfry.Monitors.Valid.{filters_of, IsGood}

-- How often a monitor is among the recipients.
unfoldable pub times_told : ℕ → Bytes → RecipientList → ℕ
times_told c s [] = 0
times_told c s (r ∷ rs) =
    let rest = times_told c s rs in if same_sub c s r.conn_id (sv r.sub_id) then suc rest else rest

times_told-snoc :
    (c : ℕ) (s : Bytes) (rs : RecipientList) (r : ConnIdSubId)
    → times_told c s (rs ++ r ∷ []) ≡ (
        if same_sub c s r.conn_id (sv r.sub_id) then suc (times_told c s rs) else times_told c s rs)
unfolding times_told
times_told-snoc c s [] r = refl
times_told-snoc c s (x ∷ rs) r = ground (arith, times_told-snoc c s rs r)

-- A monitor that is not past the event, and has a filter that matches it.
unfoldable pub is_due : ℕ → EventData → Monitor → Bool
is_due e d m = ltb m.sub.latest_event_id e && any (λ f. matches (spec_of f) d) (filters_of m)

pub any-get_elem? :
    {A : Type 0} (p : A → Bool) (xs : List A) (i : ℕ) (x : A)
    → get_elem? xs i ≡ some x
    → p x ≡ true
    → any p xs ≡ true
any-get_elem? p [] i x got h = absurd (ground arith)
any-get_elem? p (y ∷ xs) zero x got h = let same : y ≡ x = ground arith in rw same (ground arith)
any-get_elem? p (y ∷ xs) (suc i) x got h = let rest = any-get_elem? p xs i x got h in ground arith

pub All-get_elem? :
    {A : Type 0} (P : A → Type 0) (xs : List A) (i : ℕ) (x : A)
    → get_elem? xs i ≡ some x
    → All P xs
    → P x
All-get_elem? P [] i x got h = absurd (ground arith)
All-get_elem? P (y ∷ xs) zero x got h = let same : y ≡ x = ground arith in subst P same h.0
All-get_elem? P (y ∷ xs) (suc i) x got h = All-get_elem? P xs i x got h.1

module _ ⦃lmdb : Lmdb⦄ (max_subs e : ℕ) (d : EventData) (packable : IsPackable d) (mons : Monitors)
    (good : (c : ℕ) (s : Bytes) (m : Monitor) → mons c s ≡ some m → IsGood c s m) where
  -- The monitors with those told marked; nobody is told twice, or without being due.
  pub record IsTelling (p : Progress) : Type 0 where
    pub view :
        (c : ℕ) (s : Bytes)
        → find_in c s p.conns
          ≡ (if times_told c s p.recipients == 0 then mons c s else map_option (touch e) (mons c s))
    pub once :
        (c : ℕ) (s : Bytes) (m : Monitor)
        → mons c s ≡ some m
        → (times_told c s p.recipients ≡ 0)
          ⊎ ((times_told c s p.recipients ≡ 1) × (is_due e d m ≡ true))
    pub strangers : (c : ℕ) (s : Bytes) → mons c s ≡ none → times_told c s p.recipients ≡ 0
    pub proper : Values nat_keys (IsProper max_subs) p.conns

  -- There is nothing left to do for a filter of a monitor.
  abbrev pub is_settled : Progress → ℕ → Bytes → Monitor → NostrFilter → Bool
  is_settled p c s m f =
      leb e m.sub.latest_event_id
      || (not (matches (spec_of f) d) || not (times_told c s p.recipients == 0))

  abbrev pub Later : Progress → Progress → Type 0
  Later p p' = (c : ℕ) (s : Bytes) → times_told c s p.recipients ≤ times_told c s p'.recipients

  -- An item points to a filter, and has not seen the event unless the filter is settled.
  abbrev pub IsWaiting : Progress → IndexKey → MonitorItem → Type 0
  IsWaiting p k it =
      (m : Monitor) × (f : NostrFilter) × (mons it.conn_id it.sub_id ≡ some m)
      × (get_elem? (filters_of m) it.filter ≡ some f)
      × InList k (keys_of f)
      × ((leb it.latest_event_id e || leb it.latest_event_id m.sub.latest_event_id) ≡ true)
      × ((ltb it.latest_event_id e || is_settled p it.conn_id it.sub_id m f) ≡ true)

  abbrev pub IsSettled : Progress → IndexKey → MonitorItem → Type 0
  IsSettled p k it =
      (m : Monitor) × (f : NostrFilter) × (mons it.conn_id it.sub_id ≡ some m)
      × (get_elem? (filters_of m) it.filter ≡ some f)
      × (is_settled p it.conn_id it.sub_id m f ≡ true)

  pub is_settled-Later :
      (p p' : Progress) (c : ℕ) (s : Bytes) (m : Monitor) (f : NostrFilter)
      → Later p p'
      → is_settled p c s m f ≡ true
      → is_settled p' c s m f ≡ true
  is_settled-Later p p' c s m f later h = let le = later c s in ground arith

  pub IsWaiting-Later :
      (p p' : Progress) (k : IndexKey) (it : MonitorItem)
      → Later p p'
      → IsWaiting p k it
      → IsWaiting p' k it
  IsWaiting-Later p p' k it later (m, f, found, got, listed, seen, h) =
      (m, f, found, got, listed, seen, (let le = later it.conn_id it.sub_id in ground arith))

  pub IsSettled-Later :
      (p p' : Progress) (k : IndexKey) (it : MonitorItem)
      → Later p p'
      → IsSettled p k it
      → IsSettled p' k it
  IsSettled-Later p p' k it later (m, f, found, got, h) =
      (m, f, found, got, is_settled-Later p p' it.conn_id it.sub_id m f later h)

  -- Telling a monitor that has not been told.
  abbrev pub tell : ℕ → Bytes → Monitor → Progress → Progress
  tell c s m p = record {
    conns = set_latest c s e p.conns;
    recipients = p.recipients ++ record { conn_id = m.sub.conn_id; sub_id = m.sub.sub_id } ∷ [];
  }

  pub tell-told :
      (c : ℕ) (s : Bytes) (m : Monitor) (p : Progress)
      → IsGood c s m
      → (c' : ℕ) (s' : Bytes)
      → times_told c' s' (tell c s m p).recipients ≡ (
          if same_sub c' s' c s
          then suc (times_told c' s' p.recipients)
          else times_told c' s' p.recipients)
  tell-told c s m p g c' s' =
      times_told-snoc c' s' p.recipients (record { conn_id = m.sub.conn_id; sub_id = m.sub.sub_id })
      ∙ rw (g.conn_id, g.sub_id) refl

  same_monitor_flip :
      (c : ℕ) (s : Bytes) (c' : ℕ) (s' : Bytes) → same_sub c s c' s' ≡ same_sub c' s' c s
  same_monitor_flip c s c' s' = Bool-ext _ _ (λ h. flip c s c' s' h) (λ h. flip c' s' c s h)
    where
      flip :
          (a : ℕ) (t : Bytes) (b : ℕ) (u : Bytes)
          → same_sub a t b u ≡ true
          → same_sub b u a t ≡ true
      flip a t b u h = let (p, q) = same_sub→eq a t b u h in rw (p, q) (same_sub_refl b u)

  told_view :
      (c : ℕ) (s : Bytes) (m : Monitor) (p : Progress)
      → IsTelling p
      → mons c s ≡ some m
      → times_told c s p.recipients ≡ 0
      → (c' : ℕ) (s' : Bytes)
      → find_in c' s' (tell c s m p).conns ≡ (
          if times_told c' s' (tell c s m p).recipients == 0
          then mons c' s'
          else map_option (touch e) (mons c' s'))
  told_view c s m p t found untold c' s' =
      find_in-set_latest c s e c' s' p.conns
      ∙ rw (same_monitor_flip c s c' s', tell-told c s m p (good c s m found) c' s', t.view c' s')
          (elim (Bool-cases (same_sub c' s' c s)) [
            | inl y ↦
                let (a, b) = same_sub→eq c' s' c s y in
                let untold' : times_told c' s' p.recipients ≡ 0 = rw (a, b) untold in
                rw (y, untold') refl
            | inr n ↦ rw n refl
          ])

  told_once :
      (c : ℕ) (s : Bytes) (m : Monitor) (p : Progress)
      → IsTelling p
      → mons c s ≡ some m
      → times_told c s p.recipients ≡ 0
      → is_due e d m ≡ true
      → (c' : ℕ) (s' : Bytes) (m' : Monitor) → mons c' s' ≡ some m'
      → (times_told c' s' (tell c s m p).recipients ≡ 0)
        ⊎ ((times_told c' s' (tell c s m p).recipients ≡ 1) × (is_due e d m' ≡ true))
  told_once c s m p t found untold due c' s' m' found' =
      rw (tell-told c s m p (good c s m found) c' s') (elim (Bool-cases (same_sub c' s' c s)) [
        | inl y ↦
            let (a, b) = same_sub→eq c' s' c s y in
            let untold' : times_told c' s' p.recipients ≡ 0 = rw (a, b) untold in
            let found_c : mons c s ≡ some m' = rw (a, b) at found' in
            let m_is : m ≡ m' = cc in inr (rw (y, untold') refl, rw (← m_is) due)
        | inr n ↦ rw n (t.once c' s' m' found')
      ])

  told_strangers :
      (c : ℕ) (s : Bytes) (m : Monitor) (p : Progress)
      → IsTelling p
      → mons c s ≡ some m
      → (c' : ℕ) (s' : Bytes) → mons c' s' ≡ none
      → times_told c' s' (tell c s m p).recipients ≡ 0
  told_strangers c s m p t found c' s' absent =
      tell-told c s m p (good c s m found) c' s' ∙ elim (Bool-cases (same_sub c' s' c s)) [
        | inl y ↦
            let (a, b) = same_sub→eq c' s' c s y in
            let absent_c : mons c s ≡ none = rw (a, b) at absent in absurd (ground arith)
        | inr n ↦ rw n (t.strangers c' s' absent)
      ]

  pub tell-IsTelling :
      (c : ℕ) (s : Bytes) (m : Monitor) (p : Progress)
      → IsTelling p
      → mons c s ≡ some m
      → times_told c s p.recipients ≡ 0
      → is_due e d m ≡ true
      → IsTelling (tell c s m p)
  tell-IsTelling c s m p t found untold due = record {
    view = λ c' s'. told_view c s m p t found untold c' s';
    once = λ c' s' m' found'. told_once c s m p t found untold due c' s' m' found';
    strangers = λ c' s' absent. told_strangers c s m p t found c' s' absent;
    proper =
        (unfold set_latest in
          adjust-Values nat_keys (IsProper max_subs) c (adjust byte_keys s (touch e)) p.conns
            (λ ms there q. (
              adjust-Distinct byte_keys s (touch e) ms q.0,
              omega (arith, length-adjust byte_keys s (touch e) ms),
            ))
            t.proper);
  }
