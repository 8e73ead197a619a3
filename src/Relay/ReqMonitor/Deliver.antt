-- ===== src/Relay/ReqMonitor/Deliver.antt =====
-- The loop of DBChange in src/apps/relay/RelayReqMonitor.cpp.
use strfry.Prelude.{
  ℕ, ◌≤◌, ◌<◌, ◌≡◌, refl, sym, ap, ◌∙◌, ◌⊎◌, inl, inr, Bool, true, Option, none, some, List, [],
  ◌∷◌, ◌++◌, arith, ltb, if◌then◌else◌, Bool-cases, All, Result, ok,
}
use strfry.Prelude.Bytes.{Bytes}
use strfry.ConnMap.{find_in}
use strfry.PackedEvent.{Lmdb}
use strfry.PackedEvent.RoundTrip.{EventData}
use strfry.Store.{Row, Env}
use strfry.Subscriptions.Subscription.{RecipientList}
use strfry.Monitors.Conns.{Monitor, touch}
use strfry.Monitors.Index.{Throughout-map}
use strfry.Monitors.Operations.{ActiveMonitors}
use strfry.Monitors.Valid.{IsValid, filters_of}
use strfry.Monitors.Telling.{times_told, is_due}
use strfry.Monitors.Delivery.{process-recipients, recipients_of}
use strfry.Relay.ReqMonitor.{
  Sent, event_to_batch, views, EventLoop, event_json, send_told, process_events,
}
use strfry.Relay.ReqMonitor.Inbox.{times, inbox, inbox-append, texts, append_assoc, append_nil}
use strfry.Relay.ReqMonitor.CatchUp.{IsReadable}

-- The keys rise, from above a bound on.
abbrev pub RisesFrom : ℕ → List Row → Type 0
RisesFrom now [] = Unit
RisesFrom now (r ∷ rs) = (now < r.0) × RisesFrom r.0 rs

abbrev pub last_or : ℕ → List Row → ℕ
last_or now [] = now
last_or now (r ∷ rs) = last_or r.0 rs

abbrev pub wants : Monitor → Row → Bool
wants m r = is_due r.0 r.1 m

-- A monitor that stands for another one from an event on.
abbrev Continues : ℕ → Monitor → Monitor → Type 0
Continues now m m' =
    (filters_of m' ≡ filters_of m)
    × ((l : ℕ) (d : EventData) → now < l → is_due l d m' ≡ is_due l d m)

texts-Continues :
    (json_of : ℕ → Bytes) (now : ℕ) (m m' : Monitor) (rs : List Row)
    → Continues now m m'
    → RisesFrom now rs
    → texts json_of (wants m') rs ≡ texts json_of (wants m) rs
unfolding texts
texts-Continues json_of now m m' [] same h = refl
texts-Continues json_of now m m' (r ∷ rs) same (above, h) =
    rw
      (
        same.1 r.0 r.1 above,
        texts-Continues json_of r.0 m m' rs (same.0, λ l d later. same.1 l d (omega arith)) h,
      )
      refl

touched-Continues :
    (e : ℕ) (d : EventData) (m : Monitor) → Continues e m (if is_due e d m then touch e m else m)
unfolding is_due
touched-Continues e d m = elim (Bool-cases (is_due e d m)) [
  | inl y ↦ rw y (
    refl,
    λ l d' later.
        let told : ltb m.sub.latest_event_id e ≡ true = ground arith in
        let a : ltb e l ≡ true = ground arith in
        let b : ltb m.sub.latest_event_id l ≡ true = ground arith in rw (a, b) refl,
  )
  | inr n ↦ rw n (refl, λ l d' later. refl)
]

-- Items that are not beyond an event are not beyond a later one.
pub IsValid-later :
    (max_subs now now' : ℕ) (am : ActiveMonitors)
    → now ≤ now'
    → IsValid max_subs now am
    → IsValid max_subs now' am
IsValid-later max_subs now now' am le v = record {
  fits = record {
    rising = v.fits.rising;
    sound =
        Throughout-map _ _ am.index
          (λ k it (m, found, listed, seen). (m, found, listed, ground arith)) v.fits.sound;
    complete = v.fits.complete;
  };
  good = v.good;
  proper = v.proper;
}

module _ ⦃lmdb : Lmdb⦄ (env : Env) (loop : EventLoop env) (decompress : ℕ → Bytes → Result Bytes)
    (from_sv_u32 : Bytes → ℕ) (max_subs : ℕ) where
  -- One call of the callback at most, and what everyone receives of it.
  send_told_lem :
      (db : env.Db) (e : ℕ) (json : Bytes) (told : Option (RecipientList × ℕ)) (out : List Sent)
      → event_json env loop decompress from_sv_u32 max_subs db e ≡ ok json
      → (told ≡ none) ⊎ ((rs : RecipientList) × (told ≡ some (rs, e)))
      → (sent : List Sent) × (send_told env loop decompress from_sv_u32 max_subs db told out
          ≡ ok (out ++ sent))
        × ((c : ℕ) (s : Bytes) → inbox c s sent ≡ times (times_told c s (recipients_of told)) json)
  unfolding send_told inbox times_told
  send_told_lem db e json told out has_json (inl no_one) =
      rw no_one ([], ap ok (sym (append_nil out)), λ c s. refl)
  send_told_lem db e json told out has_json (inr (rs, someone)) =
      rw someone (event_to_batch rs json ∷ [], rw has_json refl, λ c s. append_nil _)

  -- Every row goes to exactly the monitors that want it, in the order of the rows.
  pub process_events-texts :
      (db : env.Db) (json_of : ℕ → Bytes) (now : ℕ) (rs : List Row) (am : ActiveMonitors)
      (out : List Sent)
      → RisesFrom now rs
      → All (IsReadable env loop decompress from_sv_u32 max_subs db json_of) rs
      → IsValid max_subs now am
      → (am' : ActiveMonitors) × (sent : List Sent) × (process_events env loop decompress
            from_sv_u32 max_subs db
            (views rs)
            (am, out)
          ≡ ok (am', out ++ sent))
        × IsValid max_subs (last_or now rs) am'
        × ((c : ℕ) (s : Bytes) (m : Monitor)
            → find_in c s am.conns ≡ some m
            → inbox c s sent ≡ texts json_of (wants m) rs)
        × ((c : ℕ) (s : Bytes) → find_in c s am.conns ≡ none → inbox c s sent ≡ [])
  unfolding process_events texts inbox
  process_events-texts db json_of now [] am out rises readable v = (
    am,
    [],
    ap (λ o. ok (am, o)) (sym (append_nil out)),
    v,
    (λ c s m found. refl),
    λ c s absent. refl,
  )
  process_events-texts db json_of now ((e, d) ∷ rs) am out (later, rises)
        ((packable, has_json), readable) v =
      let (am1, told, run, v1, shape, known, unknown) =
        process-recipients max_subs now e d packable am v later in
      let (sent1, run1, boxes) = send_told_lem db e (json_of e) told out has_json shape in
      let (am2, sent2, run2, v2, known2, unknown2) =
        process_events-texts db json_of e rs am1 (out ++ sent1) rises readable v1 in
      (
        am2,
        sent1 ++ sent2,
        rw (run, run1) (run2 ∙ ap (λ o. ok (am2, o)) (append_assoc out sent1 sent2)),
        v2,
        (λ c s m found.
            let (told_times, found1) = known c s m found in
            let rest =
              known2 c s _ found1
              ∙ texts-Continues json_of e m _ rs (touched-Continues e d m) rises in
            inbox-append c s sent1 sent2
            ∙ rw (boxes c s, told_times, rest)
                (elim (Bool-cases (is_due e d m)) [ inl y ↦ rw y refl | inr n ↦ rw n refl ])),
        (λ c s absent.
            let (untold, absent1) = unknown c s absent in
            inbox-append c s sent1 sent2 ∙ rw (boxes c s, untold, unknown2 c s absent1) refl),
      )
