-- ===== src/Settings.antt =====
-- src/webhook_gateway/settings.py: the settings and how they are read from the environment, which is a
-- function `env` from names to values. `Builders` has the factories of the components' stores.
pub mod Builders
pub mod Production
use Prim.Native.String.{◌++◌ as append}
use enterprise_multi_agent_s.Prelude.{
  ℕ, String, Bool, true, false, not, ◌&&◌, ◌||◌, Option, none, some, List, [], ◌∷◌, map, ◌==◌, leb,
  if◌then◌else◌, ℤ, pos,
}
use enterprise_multi_agent_s.Python.Result.{Result, ok, err, runtime_error, ◌>>=◌}
use enterprise_multi_agent_s.Python.Set.{contains}
use enterprise_multi_agent_s.Python.Text.{lower, strip, decimal, parse_int}
use enterprise_multi_agent_s.Python.Text.Chars.{rstrip_char, split_char}

pub record Settings : Type 0 where
  pub app_env : String
  pub public_base_url : String
  pub github_webhook_secret : String
  pub github_webhook_previous_secret : String
  pub github_allowed_repository_ids : List String
  pub github_allowed_events : List String
  pub github_trusted_associations : List String
  pub github_allowed_app_ids : List String
  pub github_daily_model_limit : ℕ
  pub github_quota_table_name : String
  pub inbound_webhook_secret : String
  pub openai_webhook_secret : String
  pub anthropic_webhook_signing_key : String
  pub onedrive_client_state : String
  pub onedrive_drive_id : Option String
  pub onedrive_tenant_id : Option String
  pub onedrive_subscription_table_name : String
  pub service_bus_queue_name : String
  pub service_bus_result_queue_name : String
  pub service_bus_connection : Option String
  pub service_bus_namespace : Option String
  pub idempotency_backend : String
  pub idempotency_connection : Option String
  pub idempotency_account_url : Option String
  pub idempotency_table_name : String
  pub result_outbox_table_name : String
  pub sqlite_path : String
  pub result_sqlite_path : String
  pub payload_storage_connection : Option String
  pub payload_storage_account_url : Option String
  pub payload_blob_container : String
  pub ai_provider : String
  pub openai_api_key : Option String
  pub openai_model : Option String
  pub openai_callback_retrieval : Bool
  pub anthropic_api_key : Option String
  pub anthropic_model : Option String

-- `not s`, of a text or None
abbrev pub is_empty : Option String → Bool
is_empty none = true
is_empty (some s) = s == ""

-- `s or ""`
abbrev pub text_of : Option String → String
text_of none = ""
text_of (some s) = s

-- `s or t`
abbrev pub or_else : Option String → Option String → Option String
or_else s t = if is_empty s then t else s

-- (item.strip() for item in items if item.strip())
unfoldable pub stripped_items : List String → List String
stripped_items [] = []
stripped_items (s ∷ items) =
    let rest = stripped_items items in if strip s == "" then rest else strip s ∷ rest

abbrev pub between : String → ℕ → ℤ → Result ℕ
between name maximum (pos value) =
    if leb 1 value && leb value maximum
    then ok value
    else err (runtime_error (append name (append " must be between 1 and " (decimal maximum))))
between name maximum _ =
    err (runtime_error (append name (append " must be between 1 and " (decimal maximum))))

abbrev pub integer : String → Option ℤ → Result ℤ
integer name none = err (runtime_error (append name " must be an integer"))
integer name (some value) = ok value

module _ (env : String → Option String) where
  -- os.getenv(name, default)
  abbrev pub getenv : String → String → String
  getenv name default = elim (env name) [ none ↦ default | some value ↦ value ]

  unfoldable pub csv : String → String → List String
  unfolding stripped_items
  csv name default = stripped_items (split_char 44 (getenv name default))

  unfoldable pub positive_int : String → ℕ → ℕ → Result ℕ
  positive_int name default maximum = do
    value ← integer name (parse_int (getenv name (decimal default)))
    between name maximum value

  abbrev pub with_limit : ℕ → Settings
  with_limit limit = record {
    app_env = getenv "APP_ENV" "development";
    public_base_url = rstrip_char 47 (getenv "PUBLIC_BASE_URL" "");
    github_webhook_secret = getenv "GITHUB_WEBHOOK_SECRET" "";
    github_webhook_previous_secret = getenv "GITHUB_WEBHOOK_PREVIOUS_SECRET" "";
    github_allowed_repository_ids = csv "GITHUB_ALLOWED_REPOSITORY_IDS" "";
    github_allowed_events = csv "GITHUB_ALLOWED_EVENTS" "push";
    github_trusted_associations =
        csv "GITHUB_TRUSTED_AUTHOR_ASSOCIATIONS" "OWNER,MEMBER,COLLABORATOR";
    github_allowed_app_ids = csv "GITHUB_ALLOWED_APP_IDS" "";
    github_daily_model_limit = limit;
    github_quota_table_name = getenv "GITHUB_QUOTA_TABLE_NAME" "GitHubDailyModelQuota";
    inbound_webhook_secret = getenv "INBOUND_WEBHOOK_SECRET" "";
    openai_webhook_secret = getenv "OPENAI_WEBHOOK_SECRET" "";
    anthropic_webhook_signing_key = getenv "ANTHROPIC_WEBHOOK_SIGNING_KEY" "";
    onedrive_client_state = getenv "ONEDRIVE_CLIENT_STATE" "";
    onedrive_drive_id = env "ONEDRIVE_DRIVE_ID";
    onedrive_tenant_id = env "ONEDRIVE_TENANT_ID";
    onedrive_subscription_table_name =
        getenv "ONEDRIVE_SUBSCRIPTION_TABLE_NAME" "OneDriveSubscriptions";
    service_bus_queue_name = getenv "SERVICE_BUS_QUEUE_NAME" "ai-events";
    service_bus_result_queue_name = getenv "SERVICE_BUS_RESULT_QUEUE_NAME" "ai-results";
    service_bus_connection = env "SERVICE_BUS_CONNECTION";
    service_bus_namespace = env "SERVICE_BUS_FULLY_QUALIFIED_NAMESPACE";
    idempotency_backend = getenv "IDEMPOTENCY_BACKEND" "sqlite";
    idempotency_connection =
        or_else (env "IDEMPOTENCY_STORAGE_CONNECTION") (env "AzureWebJobsStorage");
    idempotency_account_url = env "IDEMPOTENCY_STORAGE_ACCOUNT_URL";
    idempotency_table_name = getenv "IDEMPOTENCY_TABLE_NAME" "WebhookDeliveries";
    result_outbox_table_name = getenv "RESULT_OUTBOX_TABLE_NAME" "WebhookResults";
    sqlite_path = getenv "IDEMPOTENCY_SQLITE_PATH" ".webhook-deliveries.db";
    result_sqlite_path = getenv "RESULT_OUTBOX_SQLITE_PATH" ".webhook-results.db";
    payload_storage_connection =
        or_else (env "PAYLOAD_STORAGE_CONNECTION")
          (or_else (env "IDEMPOTENCY_STORAGE_CONNECTION") (env "AzureWebJobsStorage"));
    payload_storage_account_url =
        or_else (env "PAYLOAD_STORAGE_ACCOUNT_URL") (env "IDEMPOTENCY_STORAGE_ACCOUNT_URL");
    payload_blob_container = getenv "PAYLOAD_BLOB_CONTAINER" "webhook-payloads";
    ai_provider = getenv "AI_PROVIDER" "openai";
    openai_api_key = env "OPENAI_API_KEY";
    openai_model = env "OPENAI_MODEL";
    openai_callback_retrieval =
        contains ("1" ∷ "true" ∷ "yes" ∷ []) (lower (getenv "OPENAI_CALLBACK_RETRIEVAL" "false"));
    anthropic_api_key = env "ANTHROPIC_API_KEY";
    anthropic_model = env "ANTHROPIC_MODEL";
  }

  unfoldable pub from_env : Result Settings
  unfolding positive_int csv
  from_env = do limit ← positive_int "GITHUB_DAILY_MODEL_LIMIT" 100 10000; ok (with_limit limit)
