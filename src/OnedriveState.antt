-- ===== src/OnedriveState.antt =====
-- src/webhook_gateway/onedrive_state.py: the state of a drive's Graph subscription, its checks, and the
-- memory store. `AzureTable` is the store over Azure Tables. A moment is its microseconds from
-- datetime.min in UTC; what datetime.fromisoformat reads is a parameter.
pub mod AzureTable
pub mod RoundTrip
use Prim.Native.String.{◌++◌ as append}
use enterprise_multi_agent_s.Prelude.{
  ℕ, String, Bool, true, false, Option, none, some, ◌==◌, if◌then◌else◌,
}
use enterprise_multi_agent_s.Python.Result.{Result, ok, err, value_error, raise_if, ◌>>=◌, ◌>>◌}
use enterprise_multi_agent_s.Python.Exec.{Exec, pure}
use enterprise_multi_agent_s.Python.Dict
use enterprise_multi_agent_s.Python.Dict.{Dict, string_eq}
use enterprise_multi_agent_s.Python.Text.{strip}

-- A datetime: `aware` at a moment, or `naive`, which the program takes for UTC.
pub data Datetime : Type 0 where
  naive aware : ℕ → Datetime

-- the branches on `tzinfo`, as the moment in UTC
unfoldable pub to_utc : Datetime → ℕ
to_utc (naive t) = t
to_utc (aware t) = t

pub record OneDriveSubscriptionState : Type 0 where
  pub subscription_id : String
  pub drive_id : String
  pub expiration : ℕ
  pub resource : String
  pub notification_url : String

abbrev pub require_field : String → String → Result (Unit {0})
require_field name value = raise_if (strip value == "") (value_error (append name " is required"))

-- the constructor with `__post_init__`
unfoldable pub new_state :
    String → String → Datetime → String → String → Result OneDriveSubscriptionState
unfolding to_utc
new_state subscription_id drive_id expiration resource notification_url = do
  require_field "subscription_id" subscription_id
  require_field "drive_id" drive_id
  require_field "resource" resource
  require_field "notification_url" notification_url
  ok (record {
    subscription_id = subscription_id;
    drive_id = drive_id;
    expiration = to_utc expiration;
    resource = resource;
    notification_url = notification_url;
  })

-- The protocol, over a world that holds the store.
pub record OneDriveSubscriptionStore (W : Type 0) : Type 0 where
  pub get : String → Exec W (Option OneDriveSubscriptionState)
  pub save : OneDriveSubscriptionState → Exec W (Unit {0})

-- `MemoryOneDriveSubscriptionStore` is its dictionary.
abbrev pub memory_store : OneDriveSubscriptionStore (Dict String OneDriveSubscriptionState)
memory_store = record {
  get = λ drive_id values. (ok (Dict.get drive_id values), values);
  save = λ state values. (ok tt, Dict.put state.drive_id state values);
}
