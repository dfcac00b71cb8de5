-- ===== src/Onedrive/Requests.antt =====
-- The requests of GraphClient: their origin check, their errors, and the calls on subscriptions.
use Prim.Native.String.{count, ◌++◌ as append}
use enterprise_multi_agent_s.Prelude.{
  ℕ, String, Bool, not, ◌&&◌, ◌||◌, Option, none, some, ◌==◌, leb, ltb, eqb, if◌then◌else◌,
}
use enterprise_multi_agent_s.Python.Result.{
  Exn, Result, ok, err, value_error, runtime_error, service_error, delta_token_expired, raise_if,
}
use enterprise_multi_agent_s.Python.Exec.{Exec, pure, raise, lift, ◌>>=◌, ◌>>◌}
use enterprise_multi_agent_s.Python.Json.{Json, str, obj, Fields, end, field, put}
use enterprise_multi_agent_s.Python.Text.{lower}
use enterprise_multi_agent_s.Python.Text.Search.{includes}
use enterprise_multi_agent_s.Python.Text.Chars.{rstrip_char}
use enterprise_multi_agent_s.Onedrive.{GraphRequests}

-- `urllib.parse.urlsplit`
pub record Split : Type 0 where
  pub scheme : String
  pub netloc : String
  pub path : String

-- What the opener comes to: the body of a response, or HTTPError with its code, its Location header
-- and its details. Any other exception is raised.
pub data Opened (Bytes : Type 0) : Type 0 where
  answered : Bytes → Opened Bytes
  refused : ℕ → Option String → Opened Bytes

-- `parse` is json.loads(body or b"{}"), with none for JSONDecodeError, and `after_days` the text of
-- the time so many days from now. `open` takes the method, the address, the payload and the token.
pub record Transport (Bytes W : Type 0) : Type 0 where
  pub urlsplit : String → Split
  pub parse : Bytes → Option Json
  pub token : Exec W String
  pub open_url : String → String → Option Fields → String → Exec W (Opened Bytes)
  pub after_days : ℕ → Exec W String

pub record GraphClient : Type 0 where
  pub base_url : String
  pub base_scheme : String
  pub base_netloc : String

abbrev pub graph_error : ℕ → Exn
graph_error status = service_error "GraphRequestError" status

-- isinstance(parsed, Mapping)
abbrev pub require_mapping : Option Json → Result Fields
require_mapping none = err (value_error "JSONDecodeError")
require_mapping (some (obj fs)) = ok fs
require_mapping (some _) = err (runtime_error "Microsoft Graph response must be a JSON object")

abbrev pub invalid_lifetime : Exn
invalid_lifetime = value_error "OneDrive subscription lifetime must be between 1 and 29 days"

module _ {Bytes W : Type 0} (transport : Transport Bytes W) where
  unfoldable pub init : String → Result GraphClient
  init base_url =
      let stripped = rstrip_char 47 base_url in
      let parsed = transport.urlsplit stripped in
      if not (parsed.scheme == "https") || parsed.netloc == ""
      then err (value_error "Microsoft Graph base URL must be an HTTPS origin")
      else ok (record {
        base_url = stripped;
        base_scheme = parsed.scheme;
        base_netloc = lower parsed.netloc;
      })

  module _ (client : GraphClient) where
    -- (target.scheme, target.netloc.lower()) == self._base_origin
    unfoldable pub same_origin : String → Bool
    same_origin url =
        (transport.urlsplit url).scheme == client.base_scheme
        && lower (transport.urlsplit url).netloc == client.base_netloc

    -- the exception of a 410 for a delta, with the address to go on from
    unfoldable pub expired : Option String → Exn
    unfolding same_origin
    expired none = delta_token_expired none
    expired (some recovery_url) =
        if not (recovery_url == "") && not (same_origin recovery_url)
        then runtime_error "Invalid Microsoft Graph delta recovery origin"
        else delta_token_expired (some recovery_url)

    -- `except urllib.error.HTTPError`
    unfoldable pub http_error : String → ℕ → Option String → Exn
    unfolding expired
    http_error url code location =
        if eqb code 410 && includes "/delta" (transport.urlsplit url).path
        then expired location
        else graph_error code

    abbrev pub read : String → Opened Bytes → Result Fields
    read url (answered body) = require_mapping (transport.parse body)
    read url (refused code location) = err (http_error url code location)

    unfoldable pub request_url : String → String → Option Fields → Exec W Fields
    unfolding same_origin http_error
    request_url method url payload =
        if not (same_origin url)
        then raise (runtime_error "Refusing to send Microsoft Graph credentials to another origin")
        else do
          token ← transport.token
          opened ← transport.open_url method url payload token
          lift (read url opened)

    abbrev pub request : String → String → Option Fields → Exec W Fields
    request method path payload = request_url method (append client.base_url path) payload

    -- the reads of the parent module, by these requests
    abbrev pub requests : GraphRequests W
    requests = record { base_url = client.base_url; request_url = request_url }

    abbrev pub with_lifecycle : Option String → Fields → Fields
    with_lifecycle none payload = payload
    with_lifecycle (some url) payload =
        if url == "" then payload else put payload "lifecycleNotificationUrl" (str url)

    unfoldable pub subscription_payload : String → String → String → String → Option String → Fields
    subscription_payload drive_id notification_url client_state expiration lifecycle =
        with_lifecycle lifecycle (
          field "changeType" (str "updated") (
            field "notificationUrl" (str notification_url) (
              field "resource" (str (append "/drives/" (append drive_id "/root"))) (
                field "expirationDateTime" (str expiration)
                  (field "clientState" (str client_state) end)))))

    unfoldable pub create_drive_subscription :
        String → String → String → Option String → ℕ → Exec W Fields
    unfolding subscription_payload
    create_drive_subscription drive_id notification_url client_state lifecycle lifetime_days = do
      lift (raise_if (not (leb 1 lifetime_days && leb lifetime_days 29)) invalid_lifetime)
      lift (
          raise_if (ltb 128 (count client_state))
            (value_error "OneDrive client state must be at most 128 characters"))
      expiration ← transport.after_days lifetime_days
      request "POST" "/subscriptions"
          (some (subscription_payload drive_id notification_url client_state expiration lifecycle))

    abbrev pub subscription_path : String → String
    subscription_path subscription_id = append "/subscriptions/" subscription_id

    unfoldable pub renew_subscription : String → ℕ → Exec W Fields
    renew_subscription subscription_id lifetime_days = do
      lift (raise_if (not (leb 1 lifetime_days && leb lifetime_days 29)) invalid_lifetime)
      expiration ← transport.after_days lifetime_days
      request "PATCH" (subscription_path subscription_id)
          (some (field "expirationDateTime" (str expiration) end))

    unfoldable pub reauthorize_subscription : String → Exec W Fields
    reauthorize_subscription subscription_id =
        request "POST" (append (subscription_path subscription_id) "/reauthorize") none

    unfoldable pub get_subscription : String → Exec W Fields
    get_subscription subscription_id = request "GET" (subscription_path subscription_id) none

    unfoldable pub delete_subscription : String → Exec W (Unit {0})
    delete_subscription subscription_id =
        request "DELETE" (subscription_path subscription_id) none >> pure tt
