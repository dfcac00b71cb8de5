-- ===== src/Settings/Builders.antt =====
-- src/webhook_gateway/settings.py: the factories. The constructors of the stores, which open their
-- databases, are not called here: a factory answers which one it calls, with its arguments.
use Prim.Native.String.{◌++◌ as append}
use enterprise_multi_agent_s.Prelude.{
  String, Bool, true, false, not, ◌&&◌, ◌||◌, Option, none, some, List, [], ◌∷◌, ◌++◌, ◌==◌,
  if◌then◌else◌,
}
use enterprise_multi_agent_s.Python.Result.{Result, ok, err, runtime_error, raise_if, ◌>>=◌}
use enterprise_multi_agent_s.Python.Text.{lower}
use enterprise_multi_agent_s.Security.{is_configured_secret}
use enterprise_multi_agent_s.Admission.{GitHubAdmissionPolicy}
use enterprise_multi_agent_s.Admission
use enterprise_multi_agent_s.Settings.{Settings, is_empty, text_of}

-- a connection, or the address of an account
pub record Account : Type 0 where
  pub connection : Option String
  pub account_url : Option String

pub record PayloadStore : Type 0 where
  pub account : Account
  pub container : String

-- A store of events, with the flag first_wins of its policy.
pub data EventStore : Type 0 where
  memory : Bool → EventStore
  sqlite : String → Bool → EventStore
  azure_table : Account → String → PayloadStore → Bool → EventStore

-- A store of another kind: in memory, or in the table of an account.
pub data TableStore : Type 0 where
  in_memory : TableStore
  in_table : Account → String → TableStore

pub record Publisher : Type 0 where
  pub queue_name : String
  pub connection_string : Option String
  pub fully_qualified_namespace : Option String
  pub payloads : Option PayloadStore

-- the model and the key of an adapter
pub record Adapter : Type 0 where
  pub model : String
  pub api_key : Option String

module _ (settings : Settings) where
  abbrev pub is_production : Bool
  is_production = lower settings.app_env == "production"

  abbrev pub in_azure_table : Bool
  in_azure_table = lower settings.idempotency_backend == "azure_table"

  abbrev pub idempotency_account : Account
  idempotency_account = record {
    connection = settings.idempotency_connection;
    account_url = settings.idempotency_account_url;
  }

  unfoldable pub build_payload_store : Result (Option PayloadStore)
  build_payload_store =
      if is_empty settings.payload_storage_connection
        && is_empty settings.payload_storage_account_url
      then (if is_production
          then err (runtime_error "Payload storage is required in production")
          else ok none)
      else ok (
          some (record {
            account = record {
              connection = settings.payload_storage_connection;
              account_url = settings.payload_storage_account_url;
            };
            container = settings.payload_blob_container;
          }))

  abbrev pub required_payloads : Option PayloadStore → Result PayloadStore
  required_payloads none = err (runtime_error "Azure Table outbox requires payload storage")
  required_payloads (some payloads) = ok payloads

  unfoldable pub table_store : String → Bool → Result EventStore
  unfolding build_payload_store
  table_store table_name first_wins = do
    found ← build_payload_store
    payloads ← required_payloads found
    ok (azure_table idempotency_account table_name payloads first_wins)

  -- the branches of build_store and build_result_store
  abbrev pub store_of : String → String → String → String → Bool → Result EventStore
  store_of memory_message sqlite_message path table_name first_wins =
      if lower settings.idempotency_backend == "memory"
      then (if is_production then err (runtime_error memory_message) else ok (memory first_wins))
      else if lower settings.idempotency_backend == "sqlite"
      then (if is_production
          then err (runtime_error sqlite_message)
          else ok (sqlite path first_wins))
      else if in_azure_table
      then table_store table_name first_wins
      else err (
          runtime_error
            (append "Unsupported IDEMPOTENCY_BACKEND: " (lower settings.idempotency_backend)))

  unfoldable pub build_store : Result EventStore
  unfolding table_store
  build_store =
      store_of "Memory idempotency is not allowed in production"
        "SQLite idempotency is not allowed in production" settings.sqlite_path
        settings.idempotency_table_name false

  unfoldable pub build_result_store : Result EventStore
  unfolding table_store
  build_result_store =
      store_of "Memory result outbox is not allowed in production"
        "SQLite result outbox is not allowed in production" settings.result_sqlite_path
        settings.result_outbox_table_name true

  -- the branches of the quota's, the subscriptions' and the cursors' factories
  abbrev pub table_or_memory : String → String → Result TableStore
  table_or_memory message table_name =
      if in_azure_table
      then ok (in_table idempotency_account table_name)
      else if is_production
      then err (runtime_error message)
      else ok in_memory

  unfoldable pub build_github_quota : Result TableStore
  build_github_quota =
      table_or_memory "Production GitHub quota requires Azure Table storage"
        settings.github_quota_table_name

  unfoldable pub build_onedrive_subscription_store : Result TableStore
  build_onedrive_subscription_store =
      table_or_memory "Production OneDrive state requires Azure Table storage"
        settings.onedrive_subscription_table_name

  -- with the constructor's default for the table
  unfoldable pub build_onedrive_cursor_store : Result TableStore
  build_onedrive_cursor_store =
      table_or_memory "Production OneDrive sync requires Azure Table cursors" "OneDriveDeltaCursors"

  unfoldable pub build_github_policy : GitHubAdmissionPolicy
  build_github_policy =
      Admission.init settings.github_allowed_repository_ids settings.github_allowed_events
        settings.github_trusted_associations settings.github_allowed_app_ids

  unfoldable pub service_bus_publisher : String → Bool → Result Publisher
  unfolding build_payload_store
  service_bus_publisher queue_name offload_payloads = do
    payloads ← if offload_payloads then build_payload_store else ok none
    ok (record {
      queue_name = queue_name;
      connection_string = settings.service_bus_connection;
      fully_qualified_namespace = settings.service_bus_namespace;
      payloads = payloads;
    })

  unfoldable pub build_intake_publisher : Result Publisher
  unfolding service_bus_publisher
  build_intake_publisher = service_bus_publisher settings.service_bus_queue_name true

  unfoldable pub build_result_publisher : Result Publisher
  unfolding service_bus_publisher
  build_result_publisher = service_bus_publisher settings.service_bus_result_queue_name true

  unfoldable pub build_onedrive_publisher : Result Publisher
  unfolding service_bus_publisher
  build_onedrive_publisher = service_bus_publisher settings.service_bus_queue_name false

  -- `if settings.ai_provider in {name, "both"}:` an adapter with a key
  abbrev pub provider :
      String → Option String → Option String → String → Result (List (String × Adapter))
  provider name api_key model message =
      if settings.ai_provider == name || settings.ai_provider == "both"
      then (do
        _ ← raise_if (not (is_configured_secret api_key)) (runtime_error message)
        ok ((name, record { model = text_of model; api_key = api_key }) ∷ []))
      else ok []

  -- the providers that build_router passes to ProviderRouter, with settings.ai_provider
  unfoldable pub router_providers : Result (List (String × Adapter))
  router_providers = do
    openai ←
        provider "openai" settings.openai_api_key settings.openai_model "OPENAI_API_KEY is required"
    claude ←
        provider "claude" settings.anthropic_api_key settings.anthropic_model
          "ANTHROPIC_API_KEY is required"
    ok (openai ++ claude)
