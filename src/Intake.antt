-- ===== src/Intake.antt =====
-- src/webhook_gateway/intake.py: the part that all providers share. The handlers are the modules
-- `GitHub`, `Providers` and `OneDrive` below.
pub mod GitHub
pub mod Providers
pub mod Redelivery
pub mod Delivery
pub mod OneDrive
use enterprise_multi_agent_s.Prelude.{
  ℕ, String, Bool, true, false, not, Option, none, some, List, [], ◌∷◌, ◌==◌, if◌then◌else◌, ℤ, pos,
}
use enterprise_multi_agent_s.Python.Text.{lower}
use enterprise_multi_agent_s.Python.Result.{
  Result, ok, err, webhook_error, value_error, runtime_error,
}
use enterprise_multi_agent_s.Python.Exec.{Exec, pure, raise, ◌>>=◌, ◌>>◌}
use enterprise_multi_agent_s.Python.Dict
use enterprise_multi_agent_s.Python.Dict.{Dict, string_eq}
use enterprise_multi_agent_s.Python.Json.{Json, bool, int, obj, Fields, field, end, as_object}
use enterprise_multi_agent_s.Runtime.{Runtime}
use enterprise_multi_agent_s.Events.{EventEnvelope}
use enterprise_multi_agent_s.Idempotency.{IdempotencyStore, StagedEvent}
use enterprise_multi_agent_s.Admission.{GitHubAdmissionPolicy}
use enterprise_multi_agent_s.Python.Set.{contains}

pub record IntakeResult : Type 0 where
  pub accepted : ℕ
  pub duplicates : ℕ
  pub ignored : ℕ
  pub rate_limited : ℕ

unfoldable pub to_dict : IntakeResult → Fields
to_dict r = field "accepted" (bool true) (
    field "enqueued" (int (pos r.accepted)) (
      field "duplicates" (int (pos r.duplicates)) (
        field "ignored" (int (pos r.ignored))
          (field "rate_limited" (int (pos r.rate_limited)) end))))

abbrev pub accepted_once : IntakeResult
accepted_once = record { accepted = 1; duplicates = 0; ignored = 0; rate_limited = 0 }

abbrev pub duplicate_once : IntakeResult
duplicate_once = record { accepted = 0; duplicates = 1; ignored = 0; rate_limited = 0 }

-- {key.lower(): item for key, item in value.items()}
unfoldable pub headers_onto : Dict String String → List (String × String) → Dict String String
headers_onto d [] = d
headers_onto d ((key, item) ∷ rest) = headers_onto (Dict.put (lower key) item d) rest

unfoldable pub headers : List (String × String) → Dict String String
unfolding headers_onto
headers = headers_onto []

-- h.get(name, "")
abbrev pub text_of : Option String → String
text_of none = ""
text_of (some s) = s

-- a or b, on texts
abbrev pub or_text : String → String → String
or_text a b = if a == "" then b else a

abbrev pub object_of : Option Json → Result Fields
object_of none = err (webhook_error 400 "invalid_json" "Request body must be valid JSON")
object_of (some value) = elim (as_object value) [
  | none ↦ err (webhook_error 400 "invalid_payload" "Request body must be a JSON object")
  | some fields ↦ ok fields
]

unfoldable pub json_object : {Bytes : Type 0} → Runtime Bytes → Bytes → Result Fields
json_object rt body = object_of (rt.loads body)

-- The components act on a world `W`.
pub record WebhookIntake (W : Type 0) : Type 0 where
  pub store : Option (IdempotencyStore W)
  pub publish : EventEnvelope → Exec W (Unit {0})
  pub github_policy : Option GitHubAdmissionPolicy
  pub github_quota : Option (String → String → ℕ → Exec W Bool)
  pub github_daily_limit : ℕ
  pub direct_sources : List String

module _ {W : Type 0} (intake : WebhookIntake W) where
  -- what `_publish_once` does with the record that `stage` returned
  unfoldable pub dispatch_staged : IdempotencyStore W → StagedEvent → Exec W Bool
  dispatch_staged store staged =
      if staged.state == "sent"
      then pure false
      else do intake.publish staged.event; store.mark_sent staged.event; pure true

  unfoldable pub publish_through : Option (IdempotencyStore W) → EventEnvelope → Exec W Bool
  unfolding dispatch_staged
  publish_through none event = raise (runtime_error "Durable intake store is not configured")
  publish_through (some store) event = do staged ← store.stage event; dispatch_staged store staged

  unfoldable pub publish_once : String → EventEnvelope → Exec W Bool
  unfolding publish_through
  publish_once source event =
      if not (source == event.source)
      then raise (value_error "Idempotency source must match the event source")
      else if contains intake.direct_sources source
      then (do intake.publish event; pure true)
      else publish_through intake.store event

  -- if not self._publish_once(…): duplicate, else accepted
  unfoldable pub publish_result : String → EventEnvelope → Exec W IntakeResult
  publish_result source event = do
    published ← publish_once source event
    pure (if published then accepted_once else duplicate_once)
