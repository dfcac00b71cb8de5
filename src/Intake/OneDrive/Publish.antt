-- ===== src/Intake/OneDrive/Publish.antt =====
-- `WebhookIntake.onedrive`, its second half: one event for each group.
use Prim.Native.String.{◌++◌ as append}
use enterprise_multi_agent_s.Prelude.{
  ℕ, ◌+◌, String, Bool, true, false, Option, none, some, [], ◌∷◌, ◌==◌, if◌then◌else◌, suc,
}
use enterprise_multi_agent_s.Python.Result.{Result, ok, err, webhook_error}
use enterprise_multi_agent_s.Python.Exec.{Exec, pure, lift, ◌>>=◌}
use enterprise_multi_agent_s.Python.Dict.{Dict, pair_eq}
use enterprise_multi_agent_s.Python.Json.{str, Items, field, end, get, as_list, text_or_empty}
use enterprise_multi_agent_s.Runtime.{Runtime}
use enterprise_multi_agent_s.Events.{EventEnvelope}
use enterprise_multi_agent_s.Intake.{
  IntakeResult, WebhookIntake, text_of, or_text, json_object, publish_once,
}
use enterprise_multi_agent_s.Intake.OneDrive.{Signal, signal_data, Expected, group_from}

abbrev pub notification_list : Option Items → Result Items
notification_list none = err (webhook_error 400 "invalid_event" "OneDrive value must be an array")
notification_list (some items) = ok items

-- accepted and duplicates, after one more publication
abbrev pub tally : Bool → IntakeResult → IntakeResult
tally true r = record r { accepted = r.accepted + 1 }
tally false r = record r { duplicates = r.duplicates + 1 }

abbrev pub no_result : IntakeResult
no_result = record { accepted = 0; duplicates = 0; ignored = 0; rate_limited = 0 }

-- `uuid n` is the n-th uuid4() of the call.
module _ {Bytes W : Type 0} (rt : Runtime Bytes) (intake : WebhookIntake W)
    (uuid : ℕ → String) where
  unfoldable pub signal_event : String → Expected → ℕ → String × String → Signal → EventEnvelope
  unfolding signal_data
  signal_event received_at expected n (subscription_id, kind) s =
      let lifecycle_event = text_or_empty rt.repr s.lifecycle_event in
      let subject = or_text (text_or_empty rt.repr s.resource) (text_of expected.resource) in
      record {
        id = append subscription_id (append ":" (uuid n));
        source = "onedrive";
        type =
            if lifecycle_event == ""
            then "drive.updated"
            else append "drive.lifecycle." lifecycle_event;
        event_data = signal_data s;
        correlation_id = subscription_id;
        received_at = received_at;
        subject = if subject == "" then none else some subject;
        metadata = field "tenant_id" s.tenant_id (field "signal_kind" (str kind) end);
        version = "1";
      }

  unfoldable pub publish_groups :
      String → Expected → ℕ → IntakeResult → Dict (String × String) Signal → Exec W IntakeResult
  publish_groups received_at expected n r [] = pure r
  publish_groups received_at expected n r ((key, s) ∷ rest) = do
    published ← publish_once intake "onedrive" (signal_event received_at expected n key s)
    publish_groups received_at expected (suc n) (tally published r) rest

  unfoldable pub onedrive : String → Bytes → Expected → Exec W IntakeResult
  onedrive received_at body expected = do
    payload ← lift (json_object rt body)
    notifications ← lift (notification_list (as_list (get payload "value")))
    grouped ← lift (group_from rt expected [] notifications)
    publish_groups received_at expected 0 no_result grouped
