-- ===== src/Subscriptions/Subscription.antt =====
-- Subscription and ConnIdSubId of src/Subscription.h.
use strfry.Prelude.{ℕ, Bool, List, max_u64, Result, ok, ◌>>=◌}
use strfry.Prelude.Bytes.{Bytes}
use strfry.Filters.Group.{NostrFilterGroup}
use strfry.Subscriptions.SubId.{SubId, sub_id}

-- The state of debug builds is left out.
pub record Subscription : Type 0 where
  pub conn_id : ℕ
  pub sub_id : SubId
  pub filter_group : NostrFilterGroup
  pub count_only : Bool
  pub latest_event_id : ℕ

pub record ConnIdSubId : Type 0 where
  pub conn_id : ℕ
  pub sub_id : SubId

abbrev pub RecipientList : Type 0
RecipientList = List ConnIdSubId

-- The constructor.
unfoldable pub subscription : ℕ → Bytes → NostrFilterGroup → Bool → Result Subscription
subscription conn_id sub_id_ filter_group count_only = do
  name ← sub_id sub_id_
  ok (record {
    conn_id = conn_id;
    sub_id = name;
    filter_group = filter_group;
    count_only = count_only;
    latest_event_id = max_u64;
  })
