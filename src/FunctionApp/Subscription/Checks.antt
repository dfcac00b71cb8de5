-- ===== src/FunctionApp/Subscription/Checks.antt =====
-- function_app.py: the checks of the OneDrive subscription's address, time and fields. Subscriptions are
-- the JSON objects of Graph; urlsplit and fromisoformat are those of `Parsers`.
use Prim.Native.String.{◌++◌ as append}
use enterprise_multi_agent_s.Prelude.{
  ℕ, String, Bool, false, not, ◌||◌, Option, none, some, ◌==◌, eqb, if◌then◌else◌,
}
use enterprise_multi_agent_s.Python.Result.{
  Exn, Result, ok, err, webhook_error, runtime_error, ◌>>=◌,
}
use enterprise_multi_agent_s.Python.Json.{Json, Fields, get, text_or_empty}
use enterprise_multi_agent_s.Python.Text.{lower, strip, decimal}
use enterprise_multi_agent_s.Python.Text.Chars.{lstrip_char, rstrip_char, replace_char}
use enterprise_multi_agent_s.Settings.{Settings, is_empty, text_of}
use enterprise_multi_agent_s.Security.{is_configured_secret}
use enterprise_multi_agent_s.OnedriveState.{Datetime, to_utc}

-- `urlsplit`, with the fields that `_normalized_https_url` reads; the port may raise ValueError
pub record SplitUrl : Type 0 where
  pub scheme : String
  pub hostname : Option String
  pub username : Option String
  pub password : Option String
  pub port : Result (Option ℕ)
  pub path : String
  pub query : String
  pub fragment : String

-- `urllib.parse.urlsplit`, which may raise ValueError, and `datetime.fromisoformat`, with none for it.
pub record Parsers : Type 0 where
  pub urlsplit : String → Result SplitUrl
  pub fromisoformat : String → Option Datetime

-- what `_onedrive_target` returns
pub record Target : Type 0 where
  pub drive_id : String
  pub resource : String
  pub notification_url : String

abbrev pub drive_resource : String → String
drive_resource drive_id = append "drives/" (append drive_id "/root")

module _ (repr : Json → String) (parsers : Parsers) where
  abbrev pub read_datetime : Option Datetime → Result ℕ
  read_datetime none = err (runtime_error "Graph subscription expiration is invalid")
  read_datetime (some t) = ok (to_utc t)

  -- `_parse_expiration` of a value of a JSON object, which is never a datetime
  unfoldable pub parse_expiration : Json → Result ℕ
  unfolding to_utc
  parse_expiration value =
      let text = text_or_empty repr value in
      if text == ""
      then err (runtime_error "Graph subscription omitted expirationDateTime")
      else read_datetime (parsers.fromisoformat (replace_char 90 "+00:00" text))

  abbrev pub with_port : String → Option ℕ → String
  with_port hostname none = hostname
  with_port hostname (some port) =
      if eqb port 443 then hostname else append hostname (append ":" (decimal port))

  abbrev pub or_slash : String → String
  or_slash path = if path == "" then "/" else path

  -- the address, of parts that the guard let through
  unfoldable pub https_url : SplitUrl → Result String
  https_url parsed = do
    port ← parsed.port
    ok (
        append "https://" (
          append (with_port (lower (text_of parsed.hostname)) port) (
            append (or_slash (rstrip_char 47 parsed.path))
              (if parsed.query == "" then "" else append "?" parsed.query))))

  unfoldable pub normalized_https_url : String → Result String
  unfolding https_url
  normalized_https_url value = do
    parsed ← parsers.urlsplit (strip value)
    if not (lower parsed.scheme == "https")
          || (is_empty parsed.hostname
              || (not (is_empty parsed.username)
                  || (not (is_empty parsed.password) || not (parsed.fragment == ""))))
        then ok ""
        else https_url parsed

  abbrev pub not_configured : String → Exn
  not_configured message = webhook_error 503 "onedrive_not_configured" message

  abbrev pub target_at : String → String → Result Target
  target_at drive_id base_url =
      if base_url == ""
      then err (webhook_error 503 "invalid_public_url" "PUBLIC_BASE_URL must be an HTTPS origin")
      else ok (record {
        drive_id = drive_id;
        resource = drive_resource drive_id;
        notification_url = append base_url "/webhooks/onedrive";
      })

  unfoldable pub onedrive_target : Settings → Result Target
  unfolding normalized_https_url
  onedrive_target settings =
      if is_empty settings.onedrive_drive_id || is_empty settings.onedrive_tenant_id
      then err (not_configured "OneDrive is not configured")
      else if not (is_configured_secret (some settings.onedrive_client_state))
      then err (not_configured "OneDrive client state is not configured")
      else do
        base_url ← normalized_https_url settings.public_base_url
        target_at (text_of settings.onedrive_drive_id) base_url

  -- str(candidate.get("resource") or "").lstrip("/")
  abbrev pub resource_of : Fields → String
  resource_of candidate = lstrip_char 47 (text_or_empty repr (get candidate "resource"))

  abbrev pub id_of : Fields → String
  id_of candidate = text_or_empty repr (get candidate "id")

  -- the subscription's address under this name is the expected one
  abbrev pub has_url : Fields → String → String → Result Bool
  has_url candidate name expected_url = do
    url ← normalized_https_url (text_or_empty repr (get candidate name))
    ok (url == expected_url)

  abbrev pub both_urls : Fields → String → Result Bool
  both_urls candidate expected_url = do
    notified ← has_url candidate "notificationUrl" expected_url
    if notified then has_url candidate "lifecycleNotificationUrl" expected_url else ok false

  unfoldable pub subscription_matches : Fields → String → String → Result Bool
  unfolding normalized_https_url
  subscription_matches candidate resource notification_url =
      if not (resource_of candidate == resource)
      then ok false
      else if not (lower (text_or_empty repr (get candidate "changeType")) == "updated")
      then ok false
      else do
        expected_url ← normalized_https_url notification_url
        if expected_url == "" then ok false else both_urls candidate expected_url
