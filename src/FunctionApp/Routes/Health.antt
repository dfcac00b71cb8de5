-- ===== src/FunctionApp/Routes/Health.antt =====
-- function_app.py: the routes of OneDrive and of the health check.
use enterprise_multi_agent_s.Prelude.{
  ℕ, String, Bool, true, false, not, ◌&&◌, ◌||◌, Option, none, some, List, [], ◌∷◌, ◌==◌, ltb,
  if◌then◌else◌,
}
use enterprise_multi_agent_s.Python.Result.{webhook_error}
use enterprise_multi_agent_s.Python.Exec.{Exec, pure, raise, lift, catch, ◌>>=◌}
use enterprise_multi_agent_s.Python.Json.{str, bool, Fields, end, field}
use enterprise_multi_agent_s.Runtime.{Runtime}
use enterprise_multi_agent_s.Security.{is_configured_secret}
use enterprise_multi_agent_s.Settings.{Settings, is_empty, text_of}
use enterprise_multi_agent_s.Intake.{to_dict}
use enterprise_multi_agent_s.Intake.OneDrive.Publish.{onedrive}
use enterprise_multi_agent_s.OnedriveState.{OneDriveSubscriptionState}
use enterprise_multi_agent_s.FunctionApp.Subscription.Checks.{
  Parsers, Target, onedrive_target, normalized_https_url,
}
use enterprise_multi_agent_s.FunctionApp.Subscription.{Drive, ensure_onedrive_subscription}
use enterprise_multi_agent_s.FunctionApp.Routes.{
  HttpRequest, HttpResponse, json_response, text_response, Site, body_of, answered,
}

module _ {Bytes W : Type 0} (rt : Runtime Bytes) (site : Site Bytes W) (drive : Drive W)
    (parsers : Parsers) (isoformat : ℕ → String) where
  abbrev pub require_state : Option OneDriveSubscriptionState → Exec W OneDriveSubscriptionState
  require_state none =
      raise (webhook_error 503 "onedrive_not_bootstrapped" "OneDrive is not bootstrapped")
  require_state (some state) = pure state

  abbrev pub require_drive : Settings → Exec W String
  require_drive settings =
      if is_empty settings.onedrive_drive_id
      then raise (webhook_error 503 "onedrive_not_configured" "OneDrive is not configured")
      else pure (text_of settings.onedrive_drive_id)

  abbrev pub accept_notifications : HttpRequest Bytes → Exec W HttpResponse
  accept_notifications req = do
    settings ← lift site.settings
    drive_id ← require_drive settings
    found ← drive.states.get drive_id
    state ← require_state found
    intake ← lift site.onedrive_intake
    body ← body_of rt site req "MAX_WEBHOOK_BYTES"
    received_at ← site.received_at
    uuid ← site.uuids
    result ← onedrive rt intake uuid received_at body (record {
      client_state = settings.onedrive_client_state;
      subscription_id = some state.subscription_id;
      resource = some state.resource;
      tenant_id = settings.onedrive_tenant_id;
    })
    pure (json_response 202 (to_dict result))

  unfoldable pub onedrive_webhook : HttpRequest Bytes → Exec W HttpResponse
  onedrive_webhook req = elim (req.params "validationToken") [
    | some validation_token ↦ pure (text_response 200 validation_token)
    | none ↦ answered rt site (accept_notifications req)
  ]

  -- `_safe_subscription_response`
  abbrev pub safe_subscription_response : OneDriveSubscriptionState → Bool → Fields
  safe_subscription_response state reused = field "subscription_id" (str state.subscription_id) (
      field "drive_id" (str state.drive_id) (
        field "resource" (str state.resource) (
          field "expiration" (str (isoformat state.expiration))
            (field "reused" (bool reused) end))))

  unfoldable pub bootstrap_onedrive : Exec W HttpResponse
  bootstrap_onedrive = answered rt site (do
    settings ← lift site.settings
    result ← ensure_onedrive_subscription rt.repr parsers drive settings true
    pure (json_response 200 (safe_subscription_response result.0 result.1)))

  -- the saved state is that of the configured subscription, and has not ended
  abbrev pub is_current : Target → OneDriveSubscriptionState → ℕ → Exec W Bool
  is_current target state now =
      if not (ltb now state.expiration && state.resource == target.resource) then pure false else do
        saved ← lift (normalized_https_url rt.repr parsers state.notification_url)
        expected ← lift (normalized_https_url rt.repr parsers target.notification_url)
        pure (saved == expected)

  abbrev pub current_or_none : Target → Option OneDriveSubscriptionState → Exec W Bool
  current_or_none target none = pure false
  current_or_none target (some state) = do now ← drive.graph.now; is_current target state now

  unfoldable pub subscription_ready : Settings → Exec W Bool
  subscription_ready settings =
      if is_empty settings.onedrive_drive_id
      then pure false
      else catch
          (do
            target ← lift (onedrive_target rt.repr parsers settings)
            found ← drive.states.get target.drive_id
            current_or_none target found)
          λ e. pure false

  abbrev pub openai_ready : Settings → Bool
  openai_ready settings =
      is_configured_secret settings.openai_api_key && not (is_empty settings.openai_model)

  abbrev pub claude_ready : Settings → Bool
  claude_ready settings =
      is_configured_secret settings.anthropic_api_key && not (is_empty settings.anthropic_model)

  unfoldable pub ai_runtime : Settings → Bool
  ai_runtime settings =
      if settings.ai_provider == "both"
      then openai_ready settings && claude_ready settings
      else if settings.ai_provider == "openai"
      then openai_ready settings
      else if settings.ai_provider == "claude"
      then claude_ready settings
      else false

  abbrev pub is_nonempty : List String → Bool
  is_nonempty [] = false
  is_nonempty (x ∷ xs) = true

  -- `configuration`, but for ai_provider
  pub record Configuration : Type 0 where
    pub github_webhook : Bool
    pub github_admission : Bool
    pub openai_webhook : Bool
    pub anthropic_webhook : Bool
    pub onedrive_webhook : Bool
    pub queue : Bool
    pub ai_runtime : Bool

  unfoldable pub configuration_of : Settings → Bool → Configuration
  unfolding ai_runtime
  configuration_of settings subscription_ready = record {
    github_webhook = is_configured_secret (some settings.github_webhook_secret);
    github_admission =
        is_nonempty settings.github_allowed_repository_ids
        && is_nonempty settings.github_allowed_events;
    openai_webhook = is_configured_secret (some settings.openai_webhook_secret);
    anthropic_webhook = is_configured_secret (some settings.anthropic_webhook_signing_key);
    onedrive_webhook =
        is_configured_secret (some settings.onedrive_client_state)
        && (not (is_empty settings.onedrive_drive_id)
            && (not (is_empty settings.onedrive_tenant_id)
                && (not (settings.public_base_url == "") && subscription_ready)));
    queue =
        not (is_empty settings.service_bus_connection)
        || not (is_empty settings.service_bus_namespace);
    ai_runtime = ai_runtime settings;
  }

  abbrev pub is_ready : Configuration → Bool
  is_ready c =
      c.github_webhook
      && (c.github_admission
          && (c.openai_webhook
              && (c.anthropic_webhook && (c.onedrive_webhook && (c.queue && c.ai_runtime)))))

  unfoldable pub health_json : Settings → Configuration → Fields
  health_json settings c =
      field "status" (str (if is_ready c then "ready" else "configuration_required")) (
        field "github_webhook" (bool c.github_webhook) (
          field "github_admission" (bool c.github_admission) (
            field "openai_webhook" (bool c.openai_webhook) (
              field "anthropic_webhook" (bool c.anthropic_webhook) (
                field "onedrive_webhook" (bool c.onedrive_webhook) (
                  field "queue" (bool c.queue) (
                    field "ai_provider" (str settings.ai_provider)
                      (field "ai_runtime" (bool c.ai_runtime) end))))))))

  unfoldable pub health : Exec W HttpResponse
  unfolding subscription_ready configuration_of health_json
  health = do
    settings ← lift site.settings
    ready ← subscription_ready settings
    let configuration = configuration_of settings ready
    pure (
        json_response (if is_ready configuration then 200 else 503)
          (health_json settings configuration))
