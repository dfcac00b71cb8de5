-- ===== src/Intake/OneDrive.antt =====
-- `WebhookIntake.onedrive`, its first half: the batch is validated and grouped before anything is
-- written. A group is the dictionary that the source keeps for a key.
pub mod Publish
use Prim.Native.String.{◌++◌ as append}
use enterprise_multi_agent_s.Prelude.{
  ℕ, ◌+◌, String, Bool, true, false, not, ◌&&◌, ◌||◌, Option, none, some, List, [], ◌∷◌, ◌==◌, pos,
  if◌then◌else◌,
}
use enterprise_multi_agent_s.Python.Result.{Exn, Result, ok, err, webhook_error, ◌>>=◌}
use enterprise_multi_agent_s.Python.Dict
use enterprise_multi_agent_s.Python.Dict.{Dict, pair_eq}
use enterprise_multi_agent_s.Python.Json.{
  Json, str, int, Items, nil, item, Fields, field, end, get, truthy, as_object, as_list,
  text_or_null, text_or_empty,
}
use enterprise_multi_agent_s.Runtime.{Runtime}
use enterprise_multi_agent_s.Events.{EventEnvelope}
use enterprise_multi_agent_s.Security.{verify_client_state}
use enterprise_multi_agent_s.Intake.{
  IntakeResult, WebhookIntake, text_of, or_text, json_object, publish_once,
}

pub record Signal : Type 0 where
  pub subscription_id : String
  pub resource : Json
  pub tenant_id : Json
  pub change_type : Json
  pub lifecycle_event : Json
  pub notification_count : ℕ

-- the dictionary under the source's keys
unfoldable pub signal_data : Signal → Fields
signal_data s = field "subscriptionId" (str s.subscription_id) (
    field "resource" s.resource (
      field "tenantId" s.tenant_id (
        field "changeType" s.change_type (
          field "lifecycleEvent" s.lifecycle_event
            (field "notificationCount" (int (pos s.notification_count)) end)))))

-- the keyword arguments of `onedrive`
pub record Expected : Type 0 where
  pub client_state : String
  pub subscription_id : Option String
  pub resource : Option String
  pub tenant_id : Option String

-- `if expected and actual != expected`
abbrev pub differs : Option String → String → Bool
differs expected actual = not (text_of expected == "") && not (actual == text_of expected)

abbrev pub text_or_expected : String → Option String → Json
text_or_expected s expected = if s == "" then text_or_null expected else str s

abbrev pub invalid_event : String → Exn
invalid_event message = webhook_error 400 "invalid_event" message

abbrev pub notification_object : Option Fields → Result Fields
notification_object none = err (invalid_event "Invalid OneDrive notification")
notification_object (some fields) = ok fields

-- What one notification says.
pub record Notice : Type 0 where
  pub key : String × String
  pub signal : Signal

abbrev pub kind_of : String → String
kind_of lifecycle_event =
    if lifecycle_event == "" then "updated" else append "lifecycle:" lifecycle_event

-- grouped[key]["notificationCount"] += 1, on the group that is there or on a new one
abbrev pub counted : Option Signal → Signal → Signal
counted none fresh = record fresh { notification_count = 1 }
counted (some s) fresh = record s { notification_count = s.notification_count + 1 }

unfoldable pub add_notice : Dict (String × String) Signal → Notice → Dict (String × String) Signal
add_notice grouped n = Dict.put n.key (counted (Dict.get n.key grouped) n.signal) grouped

module _ {Bytes : Type 0} (rt : Runtime Bytes) (expected : Expected) where
  unfoldable pub notice_of : Fields → Notice
  notice_of notification =
      let subscription_id = text_or_empty rt.repr (get notification "subscriptionId") in
      let resource = text_or_empty rt.repr (get notification "resource") in
      let tenant_id = text_or_empty rt.repr (get notification "tenantId") in
      let lifecycle_event = text_or_empty rt.repr (get notification "lifecycleEvent") in
      record {
        key = (subscription_id, kind_of lifecycle_event);
        signal = record {
          subscription_id = subscription_id;
          resource = text_or_expected resource expected.resource;
          tenant_id = text_or_expected tenant_id expected.tenant_id;
          change_type =
              if truthy (get notification "changeType")
              then get notification "changeType"
              else str "updated";
          lifecycle_event =
              text_or_null (if lifecycle_event == "" then none else some lifecycle_event);
          notification_count = 0;
        };
      }

  -- the checks on one notification, in the source's order
  unfoldable pub check_fields : Fields → Result (Unit {0})
  check_fields notification =
      let subscription_id = text_or_empty rt.repr (get notification "subscriptionId") in
      let resource = text_or_empty rt.repr (get notification "resource") in
      let tenant_id = text_or_empty rt.repr (get notification "tenantId") in
      let lifecycle_event = text_or_empty rt.repr (get notification "lifecycleEvent") in
      if subscription_id == ""
      then err (invalid_event "OneDrive subscriptionId is required")
      else if lifecycle_event == "" && resource == ""
      then err (invalid_event "OneDrive resource is required")
      else if differs expected.subscription_id subscription_id
      then err (webhook_error 401 "invalid_subscription" "Invalid OneDrive subscription")
      else if not (text_of expected.resource == "")
          && lifecycle_event == ""
          && not (resource == text_of expected.resource)
      then err (webhook_error 401 "invalid_resource" "Invalid OneDrive resource")
      else if differs expected.tenant_id tenant_id
      then err (webhook_error 401 "invalid_tenant" "Invalid OneDrive tenant")
      else ok tt

  unfoldable pub validate : Json → Result Notice
  unfolding check_fields notice_of
  validate value = do
    notification ← notification_object (as_object value)
    _ ← verify_client_state (get notification "clientState") expected.client_state
    _ ← check_fields notification
    ok (notice_of notification)

  -- the loop over the batch
  unfoldable pub group_from :
      Dict (String × String) Signal → Items → Result (Dict (String × String) Signal)
  group_from grouped nil = ok grouped
  group_from grouped (item value rest) = do
    n ← validate value
    group_from (add_notice grouped n) rest
