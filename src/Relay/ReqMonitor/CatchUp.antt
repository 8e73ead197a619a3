-- ===== src/Relay/ReqMonitor/CatchUp.antt =====
-- The loop of NewSub in src/apps/relay/RelayReqMonitor.cpp.
use strfry.Prelude.{
  ℕ, ◌≡◌, refl, sym, ap, ◌∙◌, inl, inr, false, List, [], ◌∷◌, ◌++◌, if◌then◌else◌, Bool-cases, All,
  Result, ok,
}
use strfry.Prelude.Bytes.{Bytes}
use strfry.ConnMap.{same_sub, same_sub_refl}
use strfry.PackedEvent.{Lmdb}
use strfry.PackedEvent.RoundTrip.{IsPackable, view-accepts}
use strfry.Filters.Group
use strfry.Store.{Row, Env}
use strfry.Subscriptions.SubId.{sv}
use strfry.Subscriptions.Subscription.{Subscription}
use strfry.Monitors.Keys.Indexable.{IsIndexable}
use strfry.Relay.ReqMonitor.{Sent, event_to, views, EventLoop, event_json, catch_up}
use strfry.Relay.ReqMonitor.Inbox.{
  inbox, texts, append_assoc, append_nil, matches_any, any_match-matches_any,
}

module _ ⦃lmdb : Lmdb⦄ (env : Env) (loop : EventLoop env) (decompress : ℕ → Bytes → Result Bytes)
    (from_sv_u32 : Bytes → ℕ) (max_subs : ℕ) where
  -- A row that can be packed and has a payload that decodes.
  abbrev pub IsReadable : env.Db → (ℕ → Bytes) → Row → Type 0
  IsReadable db json_of r =
      IsPackable r.1
      × (event_json env loop decompress from_sv_u32 max_subs db r.0 ≡ ok (json_of r.0))

  abbrev pub sent_to : Subscription → (ℕ → Bytes) → List Row → List Sent
  sent_to sub json_of [] = []
  sent_to sub json_of (r ∷ rs) =
      let rest = sent_to sub json_of rs in
      if matches_any sub.filter_group.filters r.1
      then event_to sub.conn_id sub.sub_id (json_of r.0) ∷ rest
      else rest

  pub catch_up_lem :
      (db : env.Db) (sub : Subscription) (json_of : ℕ → Bytes) (rs : List Row) (out : List Sent)
      → All IsIndexable sub.filter_group.filters
      → All (IsReadable db json_of) rs
      → catch_up env loop decompress from_sv_u32 max_subs db sub (views rs) out
        ≡ ok (out ++ sent_to sub json_of rs)
  unfolding catch_up Group.does_match
  catch_up_lem db sub json_of [] out indexable readable = ap ok (sym (append_nil out))
  catch_up_lem db sub json_of ((l, d) ∷ rs) out indexable ((packable, has_json), readable) =
      elim (Bool-cases (matches_any sub.filter_group.filters d)) [
        | inl y ↦
            rw
              (
                view-accepts d packable,
                any_match-matches_any d packable sub.filter_group.filters indexable,
                y,
                has_json,
              )
              (catch_up_lem db sub json_of rs
                  (out ++ event_to sub.conn_id sub.sub_id (json_of l) ∷ []) indexable readable
                ∙ ap ok (append_assoc out _ (sent_to sub json_of rs)))
        | inr n ↦
            rw
              (
                view-accepts d packable,
                any_match-matches_any d packable sub.filter_group.filters indexable,
                n,
              )
              (catch_up_lem db sub json_of rs out indexable readable)
      ]

  pub inbox-sent_to :
      (sub : Subscription) (json_of : ℕ → Bytes) (rs : List Row)
      → inbox sub.conn_id (sv sub.sub_id) (sent_to sub json_of rs)
        ≡ texts json_of (λ r. matches_any sub.filter_group.filters r.1) rs
  unfolding inbox texts
  inbox-sent_to sub json_of [] = refl
  inbox-sent_to sub json_of (r ∷ rs) =
      elim (Bool-cases (matches_any sub.filter_group.filters r.1)) [
        | inl y ↦
            rw (y, same_sub_refl sub.conn_id (sv sub.sub_id))
              (ap (λ l. json_of r.0 ∷ l) (inbox-sent_to sub json_of rs))
        | inr n ↦ rw n (inbox-sent_to sub json_of rs)
      ]

  -- The other subscriptions receive nothing of it.
  pub inbox-sent_to_other :
      (sub : Subscription) (json_of : ℕ → Bytes) (rs : List Row) (c : ℕ) (s : Bytes)
      → same_sub c s sub.conn_id (sv sub.sub_id) ≡ false
      → inbox c s (sent_to sub json_of rs) ≡ []
  unfolding inbox
  inbox-sent_to_other sub json_of [] c s other = refl
  inbox-sent_to_other sub json_of (r ∷ rs) c s other =
      elim (Bool-cases (matches_any sub.filter_group.filters r.1)) [
        | inl y ↦ rw (y, other) (inbox-sent_to_other sub json_of rs c s other)
        | inr n ↦ rw n (inbox-sent_to_other sub json_of rs c s other)
      ]
