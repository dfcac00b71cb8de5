-- ===== src/Security.antt =====
-- src/webhook_gateway/security.py: signatures, replay limits and shared states.
pub mod Signatures
use Prim.Native.String.{count, ◌++◌ as append}
use enterprise_multi_agent_s.Prelude.{
  ℕ, ◌*◌, String, Bool, true, false, not, ◌&&◌, ◌||◌, Option, none, some, ◌==◌, eqb, ltb, distance,
  if◌then◌else◌, is_some, ℤ,
}
use enterprise_multi_agent_s.Python.Text.{after_prefix, removeprefix, is_ascii, parse_int}
use enterprise_multi_agent_s.Python.Result.{
  Result, ok, err, webhook_error, value_error, runtime_error, type_error, ◌>>=◌, raise_if,
}
use enterprise_multi_agent_s.Python.Json.{Json, truthy, as_text}
use enterprise_multi_agent_s.Runtime.{Runtime}

unfoldable pub is_configured_secret : Option String → Bool
is_configured_secret none = false
is_configured_secret (some value) =
    not (value == "") && not (is_some (after_prefix "@Microsoft.KeyVault(" value))

-- hmac.compare_digest on two texts: TypeError unless both are ASCII
unfoldable pub compare_digest : String → String → Result Bool
compare_digest a b =
    if is_ascii a && is_ascii b
    then ok (a == b)
    else err (type_error "comparing strings with non-ASCII characters is not supported")

-- `if not compare_digest(…): raise`
abbrev pub require_equal : String → String → String → Result (Unit {0})
require_equal expected supplied message = do
  same ← compare_digest expected supplied
  raise_if (not same) (webhook_error 401 "invalid_signature" message)

-- `int(timestamp)` under its `except ValueError`
abbrev pub numeric : Option ℤ → Result ℤ
numeric none = err (webhook_error 401 "invalid_timestamp" "Invalid webhook timestamp")
numeric (some n) = ok n

module _ {Bytes : Type 0} (rt : Runtime Bytes) where
  unfoldable pub require_secret : String → String → Result Bytes
  require_secret secret name =
      if not (is_configured_secret (some secret))
      then err (runtime_error (append name " is not configured"))
      else ok (rt.encode secret)

  unfoldable pub verify_github_signature : Bytes → String → String → Result (Unit {0})
  verify_github_signature body signature secret = do
    _ ←
        raise_if (signature == "")
          (webhook_error 400 "missing_signature" "Missing X-Hub-Signature-256")
    _ ←
        raise_if (not (is_some (after_prefix "sha256=" signature)))
          (webhook_error 401 "invalid_signature" "Invalid GitHub signature")
    key ← require_secret secret "GITHUB_WEBHOOK_SECRET"
    require_equal (append "sha256=" (rt.hmac_sha256 key body)) signature "Invalid GitHub signature"

  -- `now` is time.time() in microseconds, and the tolerance is in seconds.
  unfoldable pub verify_timestamped_signature :
      Bytes → String → String → String → ℕ → ℕ → Result (Unit {0})
  verify_timestamped_signature body signature timestamp secret tolerance now = do
    _ ←
        raise_if (signature == "" || timestamp == "")
          (webhook_error 400 "missing_signature" "Missing webhook signature or timestamp")
    numeric_timestamp ← numeric (parse_int timestamp)
    _ ←
        raise_if (ltb (1000000 * tolerance) (distance now 1000000 numeric_timestamp))
          (webhook_error 401 "stale_request" "Webhook timestamp is outside tolerance")
    _ ←
        raise_if (not (eqb (count (removeprefix signature "sha256=")) 64))
          (webhook_error 401 "invalid_signature" "Invalid webhook signature")
    _ ← raise_if (not (is_ascii timestamp)) (value_error "UnicodeEncodeError")
    key ← require_secret secret "INBOUND_WEBHOOK_SECRET"
    require_equal
        (rt.hmac_sha256 key (rt.concat (rt.concat (rt.encode timestamp) (rt.encode ".")) body))
        (removeprefix signature "sha256=") "Invalid webhook signature"

abbrev pub invalid_client_state : Result (Unit {0})
invalid_client_state = err (webhook_error 401 "invalid_client_state" "Invalid client state")

-- compare_digest raises TypeError for a received value that is no text
abbrev pub compare_received : Option String → String → Result Bool
compare_received none expected =
    err (type_error "unsupported operand types(s) or combination of types")
compare_received (some received) expected = compare_digest received expected

unfoldable pub verify_client_state : Json → String → Result (Unit {0})
verify_client_state received expected =
    if not (truthy received) || not (is_configured_secret (some expected))
    then invalid_client_state
    else do
      same ← compare_received (as_text received) expected
      if same then ok tt else invalid_client_state
