-- ===== src/Intake/GitHub.antt =====
-- `WebhookIntake.github`.
use enterprise_multi_agent_s.Prelude.{
  ℕ, String, Bool, not, ◌||◌, Option, none, some, List, ◌==◌, if◌then◌else◌,
}
use enterprise_multi_agent_s.Python.Result.{Result, err, webhook_error, runtime_error}
use enterprise_multi_agent_s.Python.Exec.{Exec, pure, raise, lift, ◌>>=◌}
use enterprise_multi_agent_s.Python.Dict
use enterprise_multi_agent_s.Python.Dict.{Dict, string_eq}
use enterprise_multi_agent_s.Python.Json.{
  Json, null, Fields, field, end, get, truthy, as_object, text_or_null, to_text, text_or_empty,
}
use enterprise_multi_agent_s.Runtime.{Runtime}
use enterprise_multi_agent_s.Events.{EventEnvelope}
use enterprise_multi_agent_s.Security.{is_configured_secret, verify_github_signature}
use enterprise_multi_agent_s.Idempotency.{IdempotencyStore, StagedEvent}
use enterprise_multi_agent_s.Admission.{GitHubAdmissionPolicy, evaluate}
use enterprise_multi_agent_s.Intake.{
  IntakeResult, WebhookIntake, headers, text_of, or_text, json_object, publish_result,
}

-- the `except WebhookError` branch: any other exception goes on
unfoldable pub or_previous : String → Result (Unit {0}) → Result (Unit {0}) → Result (Unit {0})
or_previous previous_secret second (err (webhook_error status code message)) =
    if not (is_configured_secret (some previous_secret))
    then err (webhook_error status code message)
    else second
or_previous previous_secret second first = first

abbrev pub id_of : Option Fields → Json
id_of none = null
id_of (some fields) = get fields "id"

abbrev pub name_of : Option Fields → Json
name_of none = null
name_of (some repository) = get repository "full_name"

abbrev pub ignored_result : IntakeResult
ignored_result = record { accepted = 0; duplicates = 0; ignored = 1; rate_limited = 0 }

abbrev pub limited_result : IntakeResult
limited_result = record { accepted = 0; duplicates = 0; ignored = 1; rate_limited = 1 }

module _ {Bytes W : Type 0} (rt : Runtime Bytes) (intake : WebhookIntake W) where
  unfoldable pub verify_with_previous : Bytes → String → String → String → Result (Unit {0})
  unfolding or_previous
  verify_with_previous body signature secret previous_secret =
      or_previous previous_secret (verify_github_signature rt body signature previous_secret)
        (verify_github_signature rt body signature secret)

  -- str(repository.get("id") or "") if isinstance(repository, Mapping) else ""
  abbrev pub repository_id_of : Fields → String
  repository_id_of payload = text_or_empty rt.repr (id_of (as_object (get payload "repository")))

  abbrev pub subject_of : Fields → Json
  subject_of payload = name_of (as_object (get payload "repository"))

  unfoldable pub github_event :
      String → Dict String String → String → String → Fields → EventEnvelope
  github_event received_at normalized delivery_id event_type payload = record {
    id = delivery_id;
    source = "github";
    type = event_type;
    event_data = payload;
    correlation_id = or_text (text_of (Dict.get "x-correlation-id" normalized)) delivery_id;
    received_at = received_at;
    subject =
        if truthy (subject_of payload) then some (to_text rt.repr (subject_of payload)) else none;
    metadata = field "installation_id" (id_of (as_object (get payload "installation"))) (
        field "repository_id"
          (text_or_null
            (if repository_id_of payload == "" then none else some (repository_id_of payload)))
          end);
    version = "1";
  }

  -- the quota, and the publication behind it
  unfoldable pub within_quota :
      Option (String → String → ℕ → Exec W Bool)
      → EventEnvelope
      → String
      → Json
      → Exec W IntakeResult
  within_quota none event repository_id subject = publish_result intake "github" event
  within_quota (some allow) event repository_id subject = do
    allowed ←
        allow (or_text repository_id (text_or_empty rt.repr subject)) event.id
          intake.github_daily_limit
    if not allowed then pure limited_result else publish_result intake "github" event

  unfoldable pub admit : Option GitHubAdmissionPolicy → EventEnvelope → Exec W IntakeResult
  unfolding within_quota
  admit none event =
      within_quota intake.github_quota event (repository_id_of event.event_data)
        (subject_of event.event_data)
  admit (some policy) event =
      let decision = evaluate rt.repr policy event.type event.event_data in
      if not decision.allowed
      then pure ignored_result
      else within_quota intake.github_quota event decision.repository_id
          (subject_of event.event_data)

  -- A record that is there is a duplicate or an unfinished send, and uses no quota again.
  unfoldable pub deliver_known : Option StagedEvent → EventEnvelope → Exec W IntakeResult
  unfolding admit
  deliver_known none event = admit intake.github_policy event
  deliver_known (some existing) event = publish_result intake "github" event

  unfoldable pub deliver : Option (IdempotencyStore W) → EventEnvelope → Exec W IntakeResult
  unfolding deliver_known
  deliver none event = raise (runtime_error "GitHub intake store is not configured")
  deliver (some store) event = do
    existing ← store.get "github" event.id
    deliver_known existing event

  unfoldable pub github :
      String → Bytes → List (String × String) → String → String → Exec W IntakeResult
  unfolding deliver github_event verify_with_previous
  github received_at body raw_headers secret previous_secret =
      let normalized = headers raw_headers in
      let delivery_id = text_of (Dict.get "x-github-delivery" normalized) in
      let event_type = text_of (Dict.get "x-github-event" normalized) in
      let signature = text_of (Dict.get "x-hub-signature-256" normalized) in
      if delivery_id == "" || event_type == ""
      then raise (webhook_error 400 "missing_headers" "Missing X-GitHub-Delivery or X-GitHub-Event")
      else do
        _ ← lift (verify_with_previous body signature secret previous_secret)
        payload ← lift (json_object rt body)
        deliver intake.store (github_event received_at normalized delivery_id event_type payload)
