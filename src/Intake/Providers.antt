-- ===== src/Intake/Providers.antt =====
-- `WebhookIntake.generic`, `verified_openai` and `verified_anthropic`.
use enterprise_multi_agent_s.Prelude.{
  ℕ, String, ◌||◌, Option, none, some, List, ◌==◌, if◌then◌else◌,
}
use enterprise_multi_agent_s.Python.Result.{Result, ok, err, webhook_error}
use enterprise_multi_agent_s.Python.Exec.{Exec, raise, lift, ◌>>=◌}
use enterprise_multi_agent_s.Python.Dict
use enterprise_multi_agent_s.Python.Dict.{string_eq}
use enterprise_multi_agent_s.Python.Json.{
  Json, obj, str, Fields, field, end, get, get_or, truthy, as_object, to_text, text_or_empty,
}
use enterprise_multi_agent_s.Runtime.{Runtime}
use enterprise_multi_agent_s.Security.{verify_timestamped_signature}
use enterprise_multi_agent_s.Intake.{
  IntakeResult, WebhookIntake, headers, text_of, or_text, json_object, publish_result,
}

-- an object, or the invalid_event error
abbrev pub event_object : Option Fields → String → Result Fields
event_object none message = err (webhook_error 400 "invalid_event" message)
event_object (some fields) message = ok fields

abbrev pub optional_text : (Json → String) → Json → Option String
optional_text repr v = if truthy v then some (to_text repr v) else none

-- The default of `tolerance_seconds`.
abbrev pub tolerance_seconds : ℕ
tolerance_seconds = 300

module _ {Bytes W : Type 0} (rt : Runtime Bytes) (intake : WebhookIntake W) where
  -- the delivery whose signature was verified
  unfoldable pub generic_payload : String → String → Fields → Exec W IntakeResult
  generic_payload received_at source payload =
      let event_id = text_or_empty rt.repr (get payload "id") in
      let event_type = text_or_empty rt.repr (get payload "type") in
      if event_id == "" || event_type == ""
      then raise (webhook_error 400 "invalid_event" "Event id and type are required")
      else do
        event_data ← lift (
            event_object (as_object (get_or payload "data" (obj end)))
              "Event data must be an object")
        publish_result intake source (record {
          id = event_id;
          source = source;
          type = event_type;
          event_data = event_data;
          correlation_id = or_text (text_or_empty rt.repr (get payload "correlation_id")) event_id;
          received_at = received_at;
          subject = optional_text rt.repr (get payload "subject");
          metadata = end;
          version = "1";
        })

  unfoldable pub generic :
      String → ℕ → Bytes → List (String × String) → String → String → Exec W IntakeResult
  unfolding generic_payload
  generic received_at now body raw_headers secret source = do
    _ ← lift (
        verify_timestamped_signature rt body
          (text_of (Dict.get "x-webhook-signature" (headers raw_headers)))
          (text_of (Dict.get "x-webhook-timestamp" (headers raw_headers))) secret tolerance_seconds
          now)
    payload ← lift (json_object rt body)
    generic_payload received_at source payload

  unfoldable pub verified_openai : String → Fields → Option String → Exec W IntakeResult
  verified_openai received_at payload delivery_id =
      let event_id = text_or_empty rt.repr (get payload "id") in
      let event_type = text_or_empty rt.repr (get payload "type") in
      if event_id == "" || event_type == ""
      then raise (webhook_error 400 "invalid_event" "OpenAI event id and type are required")
      else do
        event_data ← lift (
            event_object (as_object (get_or payload "data" (obj end)))
              "OpenAI event data must be an object")
        publish_result intake "openai" (record {
          id = or_text (text_of delivery_id) event_id;
          source = "openai";
          type = event_type;
          event_data = event_data;
          correlation_id = or_text (text_or_empty rt.repr (get event_data "id")) event_id;
          received_at = received_at;
          subject = optional_text rt.repr (get event_data "id");
          metadata = field "openai_event_id" (str event_id) end;
          version = "1";
        })

  unfoldable pub anthropic_data : String → String → Fields → Exec W IntakeResult
  anthropic_data received_at event_id event_data =
      let event_type = text_or_empty rt.repr (get event_data "type") in
      let object_id = text_or_empty rt.repr (get event_data "id") in
      if event_type == "" || object_id == ""
      then raise (webhook_error 400 "invalid_event" "Anthropic data type and id are required")
      else publish_result intake "anthropic" (record {
        id = event_id;
        source = "anthropic";
        type = event_type;
        event_data = event_data;
        correlation_id = object_id;
        received_at = received_at;
        subject = some object_id;
        metadata =
            field "organization_id" (get event_data "organization_id")
              (field "workspace_id" (get event_data "workspace_id") end);
        version = "1";
      })

  unfoldable pub verified_anthropic : String → Fields → Exec W IntakeResult
  unfolding anthropic_data
  verified_anthropic received_at payload =
      let event_id = text_or_empty rt.repr (get payload "id") in
      if event_id == ""
      then raise (webhook_error 400 "invalid_event" "Anthropic event id and data are required")
      else do
        event_data ← lift (
            event_object (as_object (get_or payload "data" (obj end)))
              "Anthropic event id and data are required")
        anthropic_data received_at event_id event_data
