-- ===== src/Tests/Environments.antt =====
-- An environment of a production deployment.
use enterprise_multi_agent_s.Prelude.{String, Option, some, none, ◌≡◌, refl, ◌==◌, if◌then◌else◌}
use enterprise_multi_agent_s.Python.Result.{ok}
use enterprise_multi_agent_s.Python.Text
use enterprise_multi_agent_s.Settings.{from_env, with_limit}
use enterprise_multi_agent_s.Settings.Production.{IsDurable, from_env-IsDurable}

abbrev production : String → Option String
production name =
    if name == "APP_ENV"
    then some "Production"
    else if name == "IDEMPOTENCY_BACKEND"
    then some "azure_table"
    else if name == "GITHUB_DAILY_MODEL_LIMIT"
    then some " 25 "
    else if name == "IDEMPOTENCY_STORAGE_ACCOUNT_URL"
    then some "https://store"
    else none

read : from_env production ≡ ok (with_limit production 25)
unfolding from_env Text.parse_int
read = refl

from_env-IsDurable_example : IsDurable (with_limit production 25)
unfolding Text.lower
from_env-IsDurable_example = from_env-IsDurable production (with_limit production 25) read refl
