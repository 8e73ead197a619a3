-- ===== src/Relay/ReqMonitor/Inbox.antt =====
-- What a subscription receives of what src/apps/relay/RelayReqMonitor.cpp sends.
use strfry.Prelude.{
  ℕ, zero, suc, ◌≡◌, refl, sym, ap, ◌∙◌, Bool, List, [], ◌∷◌, ◌++◌, arith, if◌then◌else◌, any, All,
  ok,
}
use strfry.Prelude.Bytes.{Bytes}
use strfry.ConnMap.{same_sub}
use strfry.PackedEvent.{Lmdb}
use strfry.PackedEvent.RoundTrip.{EventData, IsPackable, view_of}
use strfry.Filters.Filter.{NostrFilter}
use strfry.Filters.Filter.Matching.{matches, does_match-matches}
use strfry.Filters.Group.{any_match}
use strfry.Store.{Row}
use strfry.Subscriptions.SubId.{sv}
use strfry.Monitors.Keys.Indexable.{IsIndexable, IsIndexable-Denotes, spec_of}
use strfry.Monitors.Telling.{times_told}
use strfry.Relay.ReqMonitor.{Sent, event_to, event_to_batch, notice_error}

abbrev pub times : ℕ → Bytes → List Bytes
times zero json = []
times (suc n) json = json ∷ times n json

-- The events that one call sends to the subscription of a connection and a name.
abbrev pub received : ℕ → Bytes → Sent → List Bytes
received c s (event_to c' s' json) = if same_sub c s c' (sv s') then json ∷ [] else []
received c s (event_to_batch rs json) = times (times_told c s rs) json
received c s (notice_error c' text) = []

unfoldable pub inbox : ℕ → Bytes → List Sent → List Bytes
inbox c s [] = []
inbox c s (x ∷ xs) = received c s x ++ inbox c s xs

pub append_assoc {ℓ} : {A : Type ℓ} (xs ys zs : List A) → (xs ++ ys) ++ zs ≡ xs ++ (ys ++ zs)
append_assoc [] ys zs = refl
append_assoc (x ∷ xs) ys zs = ap (λ l. x ∷ l) (append_assoc xs ys zs)

pub append_nil {ℓ} : {A : Type ℓ} (xs : List A) → xs ++ [] ≡ xs
append_nil [] = refl
append_nil (x ∷ xs) = ap (λ l. x ∷ l) (append_nil xs)

pub inbox-append :
    (c : ℕ) (s : Bytes) (xs ys : List Sent) → inbox c s (xs ++ ys) ≡ inbox c s xs ++ inbox c s ys
unfolding inbox
inbox-append c s [] ys = refl
inbox-append c s (x ∷ xs) ys =
    ap (λ l. received c s x ++ l) (inbox-append c s xs ys)
    ∙ sym (append_assoc (received c s x) (inbox c s xs) (inbox c s ys))

-- The rows that are wanted, as the texts that are sent for them.
unfoldable pub texts : (ℕ → Bytes) → (Row → Bool) → List Row → List Bytes
texts json_of want [] = []
texts json_of want (r ∷ rs) =
    let rest = texts json_of want rs in if want r then json_of r.0 ∷ rest else rest

abbrev pub matches_any : List NostrFilter → EventData → Bool
matches_any fs d = any (λ f. matches (spec_of f) d) fs

pub any_match-matches_any :
    ⦃lmdb : Lmdb⦄ (d : EventData)
    → IsPackable d
    → (fs : List NostrFilter) → All IsIndexable fs
    → any_match fs (view_of d) ≡ ok (matches_any fs d)
unfolding any_match
any_match-matches_any d packable [] h = refl
any_match-matches_any d packable (f ∷ fs) h =
    rw
      (
        does_match-matches d packable f (spec_of f) (IsIndexable-Denotes f h.0),
        any_match-matches_any d packable fs h.1,
      )
      (ground arith)
