-- ===== src/FunctionApp/Routes.antt =====
-- function_app.py: the HTTP routes of the webhooks and of the bootstrap. What the factories and the
-- clients of the providers do is in the record `Site`; logging and timing are left out.
pub mod Oversized
pub mod Health
use Prim.Native.String.{◌++◌ as append}
use enterprise_multi_agent_s.Prelude.{
  ℕ, String, Bool, true, false, not, Option, none, some, List, ◌==◌, ltb, if◌then◌else◌, ℤ, pos,
  negsuc,
}
use enterprise_multi_agent_s.Python.Result.{
  Exn, Result, ok, err, webhook_error, value_error, runtime_error, external_error, raise_if,
}
use enterprise_multi_agent_s.Python.Exec.{Exec, pure, raise, lift, catch, ◌>>=◌, ◌>>◌}
use enterprise_multi_agent_s.Python.Json.{Json, str, bool, obj, Fields, end, field}
use enterprise_multi_agent_s.Python.Text.{parse_int}
use enterprise_multi_agent_s.Runtime.{Runtime}
use enterprise_multi_agent_s.Security.{is_configured_secret}
use enterprise_multi_agent_s.Settings.{Settings, is_empty, text_of}
use enterprise_multi_agent_s.Intake.{WebhookIntake, IntakeResult, to_dict}
use enterprise_multi_agent_s.Intake.GitHub.{github}
use enterprise_multi_agent_s.Intake.Providers.{generic, verified_openai, verified_anthropic}
use enterprise_multi_agent_s.Intake.OneDrive.{Expected}
use enterprise_multi_agent_s.Intake.OneDrive.Publish.{onedrive}
use enterprise_multi_agent_s.OnedriveState.{OneDriveSubscriptionState}
use enterprise_multi_agent_s.FunctionApp.{error_response}
use enterprise_multi_agent_s.FunctionApp.Subscription.Checks.{Parsers}
use enterprise_multi_agent_s.FunctionApp.Subscription.{Drive, ensure_onedrive_subscription}

-- `func.HttpRequest`: `header` is headers.get, which does not mind the case.
pub record HttpRequest (Bytes : Type 0) : Type 0 where
  pub body : Bytes
  pub headers : List (String × String)
  pub header : String → Option String
  pub params : String → Option String

-- `func.HttpResponse`, with a JSON body or a text
pub data HttpResponse : Type 0 where
  json_response : ℕ → Fields → HttpResponse
  text_response : ℕ → String → HttpResponse

-- {"error": {"code": …, "message": …}}
abbrev pub error_json : String → String → Fields
error_json code message =
    field "error" (obj (field "code" (str code) (field "message" (str message) end))) end

abbrev pub respond_error : Exn → HttpResponse
respond_error e =
    let (status, code, message) = error_response e in json_response status (error_json code message)

abbrev pub invalid_signature : HttpResponse
invalid_signature = json_response 400 (error_json "invalid_signature" "Invalid signature")

-- isinstance(exc, ValueError): WebhookError is a subclass of it
abbrev pub is_value_error : Exn → Bool
is_value_error (value_error message) = true
is_value_error (webhook_error status code message) = true
is_value_error _ = false

-- an exception of a client's library with this name
abbrev pub is_named : String → Exn → Bool
is_named name (external_error other) = other == name
is_named name _ = false

-- The environment's variables, get_settings(), the intakes of `_intake` and its like, the calls of
-- the providers' clients, which answer the payload, the clock, and the
-- coming values of uuid4().
pub record Site (Bytes W : Type 0) : Type 0 where
  pub env : String → Option String
  pub settings : Result Settings
  pub intake : Result (WebhookIntake W)
  pub github_intake : Result (WebhookIntake W)
  pub onedrive_intake : Result (WebhookIntake W)
  pub openai_unwrap : Settings → String → List (String × String) → Exec W Fields
  pub anthropic_unwrap : Settings → String → List (String × String) → Exec W Fields
  pub length : Bytes → ℕ
  pub decode : Bytes → Option String
  pub now : Exec W ℕ
  pub received_at : Exec W String
  pub uuids : Exec W (ℕ → String)

abbrev pub default_limit : String → String
default_limit limit_env = if limit_env == "GITHUB_MAX_WEBHOOK_BYTES" then "26214400" else "1048576"

abbrev pub payload_too_large : Exn
payload_too_large = webhook_error 413 "payload_too_large" "Webhook payload is too large"

-- int(…)
abbrev pub limit_of : Option ℤ → Result ℤ
limit_of none = err (value_error "invalid literal for int()")
limit_of (some z) = ok z

abbrev pub above : ℕ → ℤ → Bool
above n (pos limit) = ltb limit n
above n (negsuc limit) = true

abbrev pub decoded : Option String → Result String
decoded none = err (value_error "UnicodeDecodeError")
decoded (some text) = ok text

module _ {Bytes W : Type 0} (rt : Runtime Bytes) (site : Site Bytes W) where
  abbrev pub max_bytes : String → Result ℤ
  max_bytes limit_env =
      limit_of (
        parse_int (elim (site.env limit_env) [ none ↦ default_limit limit_env | some text ↦ text ]))

  -- `_body`
  unfoldable pub body_of : HttpRequest Bytes → String → Exec W Bytes
  body_of req limit_env = do
    limit ← lift (max_bytes limit_env)
    lift (raise_if (above (site.length req.body) limit) payload_too_large)
    pure req.body

  -- the body of a route's `try`, and its `except Exception`
  abbrev pub answered : Exec W HttpResponse → Exec W HttpResponse
  answered m = catch m λ e. pure (respond_error e)

  unfoldable pub github_webhook : HttpRequest Bytes → Exec W HttpResponse
  unfolding body_of
  github_webhook req = answered (do
    settings ← lift site.settings
    intake ← lift site.github_intake
    body ← body_of req "GITHUB_MAX_WEBHOOK_BYTES"
    received_at ← site.received_at
    result ←
        github rt intake received_at body req.headers settings.github_webhook_secret
          settings.github_webhook_previous_secret
    pure (json_response 200 (to_dict result)))

  -- generic_webhook and delivery_webhook, which name their source
  unfoldable pub generic_route : String → HttpRequest Bytes → Exec W HttpResponse
  unfolding body_of
  generic_route source req = answered (do
    intake ← lift site.intake
    body ← body_of req "MAX_WEBHOOK_BYTES"
    settings ← lift site.settings
    now ← site.now
    received_at ← site.received_at
    result ←
        generic rt intake received_at now body req.headers settings.inbound_webhook_secret source
    pure (json_response 202 (to_dict result)))

  unfoldable pub generic_webhook : HttpRequest Bytes → Exec W HttpResponse
  unfolding generic_route
  generic_webhook = generic_route "external"

  unfoldable pub delivery_webhook : HttpRequest Bytes → Exec W HttpResponse
  unfolding generic_route
  delivery_webhook = generic_route "delivery"

  -- `_openai_webhook_client()`, and its unwrap
  abbrev pub openai_payload : Settings → String → HttpRequest Bytes → Exec W Fields
  openai_payload settings raw_body req = do
    lift (
        raise_if (not (is_configured_secret (some settings.openai_webhook_secret)))
          (runtime_error "OPENAI_WEBHOOK_SECRET is required"))
    lift (
        raise_if (not (is_configured_secret settings.openai_api_key))
          (runtime_error "OPENAI_API_KEY is required"))
    site.openai_unwrap settings raw_body req.headers

  abbrev pub openai_error : Exn → HttpResponse
  openai_error e =
      if is_named "InvalidWebhookSignatureError" e
      then invalid_signature
      else if is_value_error e
      then invalid_signature
      else respond_error e

  unfoldable pub openai_webhook : HttpRequest Bytes → Exec W HttpResponse
  unfolding body_of
  openai_webhook req =
      catch
        (do
          body ← body_of req "MAX_WEBHOOK_BYTES"
          raw_body ← lift (decoded (site.decode body))
          settings ← lift site.settings
          payload ← openai_payload settings raw_body req
          intake ← lift site.intake
          received_at ← site.received_at
          result ← verified_openai rt intake received_at payload (req.header "webhook-id")
          pure (json_response 200 (to_dict result)))
        λ e. pure (openai_error e)

  -- `_anthropic_webhook_client()`, and its unwrap
  abbrev pub anthropic_payload : Settings → String → HttpRequest Bytes → Exec W Fields
  anthropic_payload settings raw_body req = do
    lift (
        raise_if (not (is_configured_secret (some settings.anthropic_webhook_signing_key)))
          (runtime_error "ANTHROPIC_WEBHOOK_SIGNING_KEY is required"))
    lift (
        raise_if (not (is_configured_secret settings.anthropic_api_key))
          (runtime_error "ANTHROPIC_API_KEY is required"))
    site.anthropic_unwrap settings raw_body req.headers

  abbrev pub anthropic_error : Exn → HttpResponse
  anthropic_error e =
      if is_named "APIWebhookValidationError" e then invalid_signature else respond_error e

  unfoldable pub anthropic_webhook : HttpRequest Bytes → Exec W HttpResponse
  unfolding body_of
  anthropic_webhook req =
      catch
        (do
          body ← body_of req "MAX_WEBHOOK_BYTES"
          raw_body ← lift (decoded (site.decode body))
          settings ← lift site.settings
          payload ← anthropic_payload settings raw_body req
          intake ← lift site.intake
          received_at ← site.received_at
          result ← verified_anthropic rt intake received_at payload
          pure (json_response 200 (to_dict result)))
        λ e. pure (anthropic_error e)
