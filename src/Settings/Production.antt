-- ===== src/Settings/Production.antt =====
-- What the settings and the factories guarantee in production.
use Prim.Native.String.{◌++◌ as append}
use enterprise_multi_agent_s.Prelude.{
  if_lem, ℕ, ◌≤◌, String, Bool, true, false, Option, none, some, ◌≡◌, refl, subst, ◌==◌,
  if◌then◌else◌, arith, ℤ, pos, negsuc,
}
use enterprise_multi_agent_s.Python.Result.{
  Result, ◌>>=◌, runtime_error, ok, err, err-ok, ok-injective,
}
use enterprise_multi_agent_s.Python.Text.{lower, parse_int, decimal}
use enterprise_multi_agent_s.Settings.{
  Settings, getenv, from_env, positive_int, between, integer, with_limit,
}
use enterprise_multi_agent_s.Settings.Builders.{
  EventStore, memory, sqlite, azure_table, TableStore, in_memory, in_table, PayloadStore,
  idempotency_account, is_production, in_azure_table, build_payload_store, table_store, build_store,
  build_result_store, build_github_quota, build_onedrive_subscription_store,
  build_onedrive_cursor_store, store_of, table_or_memory, required_payloads,
}

-- A factory that returns has chosen a store in a table.
abbrev pub DurableEvents : Result EventStore → Type 0
DurableEvents (ok (azure_table account name payloads first_wins)) = Unit {0}
DurableEvents (ok _) = ⊥
DurableEvents (err e) = Unit {0}

abbrev pub DurableTable : Result TableStore → Type 0
DurableTable (ok (in_table account name)) = Unit {0}
DurableTable (ok in_memory) = ⊥
DurableTable (err e) = Unit {0}

pub record IsDurable (settings : Settings) : Type 0 where
  pub events : DurableEvents (build_store settings)
  pub results : DurableEvents (build_result_store settings)
  pub quota : DurableTable (build_github_quota settings)
  pub subscriptions : DurableTable (build_onedrive_subscription_store settings)
  pub cursors : DurableTable (build_onedrive_cursor_store settings)
  pub limit_from_1 : 1 ≤ settings.github_daily_model_limit
  pub limit_to_10000 : settings.github_daily_model_limit ≤ 10000

between_bounds :
    (name : String) (maximum : ℕ) (z : ℤ) (n : ℕ)
    → between name maximum z ≡ ok n
    → (1 ≤ n) × (n ≤ maximum)
between_bounds name maximum (pos v) n h = ground arith
between_bounds name maximum (negsuc v) n h = absurd (err-ok h)

module _ (settings : Settings) where
  with_payloads-Durable :
      (name : String) (first_wins : Bool) (found : Result (Option PayloadStore))
      → DurableEvents (
          found >>= λ found. required_payloads settings found >>= λ payloads.
          ok (azure_table (idempotency_account settings) name payloads first_wins))
  with_payloads-Durable name first_wins (ok none) = tt
  with_payloads-Durable name first_wins (ok (some payloads)) = tt
  with_payloads-Durable name first_wins (err e) = tt

  table_store-Durable :
      (name : String) (first_wins : Bool) → DurableEvents (table_store settings name first_wins)
  unfolding table_store
  table_store-Durable name first_wins =
      with_payloads-Durable name first_wins (build_payload_store settings)

module _ (settings : Settings) (production : (lower settings.app_env == "production") ≡ true) where
  store_of-Durable :
      (m s path name : String) (first_wins : Bool)
      → DurableEvents (store_of settings m s path name first_wins)
  store_of-Durable m s path name first_wins =
      if_lem DurableEvents (lower settings.idempotency_backend == "memory")
        (if is_production settings then err (runtime_error m) else ok (memory first_wins))
        (if lower settings.idempotency_backend == "sqlite"
          then (if is_production settings
              then err (runtime_error s)
              else ok (sqlite path first_wins))
          else other)
        (λ _. rw production tt)
        λ _.
          if_lem DurableEvents (lower settings.idempotency_backend == "sqlite")
            (if is_production settings then err (runtime_error s) else ok (sqlite path first_wins))
            other (λ _. rw production tt)
            λ _.
              if_lem DurableEvents (in_azure_table settings) (table_store settings name first_wins)
                (err (runtime_error message)) (λ _. table_store-Durable settings name first_wins)
                λ _. tt
    where
      message : String
      message = append "Unsupported IDEMPOTENCY_BACKEND: " (lower settings.idempotency_backend)

      other : Result EventStore
      other =
          if in_azure_table settings
          then table_store settings name first_wins
          else err (runtime_error message)

  table_or_memory-Durable :
      (message name : String) → DurableTable (table_or_memory settings message name)
  table_or_memory-Durable message name =
      if_lem DurableTable (in_azure_table settings)
        (ok (in_table (idempotency_account settings) name))
        (if is_production settings then err (runtime_error message) else ok in_memory) (λ _. tt)
        λ _. rw production tt

integer_bounds :
    (name : String) (maximum : ℕ) (r : Option ℤ) (n : ℕ)
    → (integer name r >>= between name maximum) ≡ ok n
    → (1 ≤ n) × (n ≤ maximum)
integer_bounds name maximum none n h = absurd (err-ok h)
integer_bounds name maximum (some z) n h = between_bounds name maximum z n h

positive_int_bounds :
    (env : String → Option String) (name : String) (default maximum n : ℕ)
    → positive_int env name default maximum ≡ ok n
    → (1 ≤ n) × (n ≤ maximum)
unfolding positive_int
positive_int_bounds env name default maximum n h =
    integer_bounds name maximum (parse_int (getenv env name (decimal default))) n h

-- settings that are read have a limit that was read
limited :
    (env : String → Option String) (r : Result ℕ) (settings : Settings)
    → (r >>= λ limit. ok (with_limit env limit)) ≡ ok settings
    → (limit : ℕ) × (r ≡ ok limit) × (with_limit env limit ≡ settings)
limited env (ok limit) settings h = (limit, refl, ok-injective h)
limited env (err e) settings h = absurd (err-ok h)

-- Of settings that from_env read from an environment whose APP_ENV is production in any case: each
-- factory of the delivery store, the result store, the quota, the subscriptions and the cursors
-- raises or chooses the store in a table, and the daily model limit is between 1 and 10000.
pub from_env-IsDurable :
    (env : String → Option String) (settings : Settings)
    → from_env env ≡ ok settings
    → (lower (getenv env "APP_ENV" "development") == "production") ≡ true
    → IsDurable settings
unfolding from_env build_store build_result_store build_github_quota
    build_onedrive_subscription_store build_onedrive_cursor_store
from_env-IsDurable env settings h production =
    let (limit, read, same) =
      limited env (positive_int env "GITHUB_DAILY_MODEL_LIMIT" 100 10000) settings h in
    let bounds = positive_int_bounds env "GITHUB_DAILY_MODEL_LIMIT" 100 10000 limit read in
    subst IsDurable same (record {
      events =
          store_of-Durable (with_limit env limit) production
            "Memory idempotency is not allowed in production"
            "SQLite idempotency is not allowed in production" (with_limit env limit).sqlite_path
            (with_limit env limit).idempotency_table_name false;
      results =
          store_of-Durable (with_limit env limit) production
            "Memory result outbox is not allowed in production"
            "SQLite result outbox is not allowed in production"
            (with_limit env limit).result_sqlite_path
            (with_limit env limit).result_outbox_table_name true;
      quota =
          table_or_memory-Durable (with_limit env limit) production
            "Production GitHub quota requires Azure Table storage"
            (with_limit env limit).github_quota_table_name;
      subscriptions =
          table_or_memory-Durable (with_limit env limit) production
            "Production OneDrive state requires Azure Table storage"
            (with_limit env limit).onedrive_subscription_table_name;
      cursors =
          table_or_memory-Durable (with_limit env limit) production
            "Production OneDrive sync requires Azure Table cursors" "OneDriveDeltaCursors";
      limit_from_1 = bounds.0;
      limit_to_10000 = bounds.1;
    })
