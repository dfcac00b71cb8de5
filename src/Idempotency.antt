-- ===== src/Idempotency.antt =====
-- src/webhook_gateway/idempotency.py: what the inbox/outbox stores share. `Memory` is the store in
-- memory, and `Contract` is what a store promises its callers.
pub mod Contract
pub mod Memory
pub mod Sqlite
pub mod AzureTable
use enterprise_multi_agent_s.Prelude.{ℕ, String, Bool, Option, List, ◌==◌, if◌then◌else◌}
use enterprise_multi_agent_s.Python.Result.{Result, ok, err, value_error}
use enterprise_multi_agent_s.Python.Exec.{Exec}
use enterprise_multi_agent_s.Events.{EventEnvelope}

pub record StagedEvent : Type 0 where
  pub event : EventEnvelope
  pub state : String
  pub created : Bool

-- ExistingPayloadPolicy
pub data Policy : Type 0 where
  reject first_wins : Policy

unfoldable pub validate_existing_payload_policy : String → Result Policy
validate_existing_payload_policy value =
    if value == "reject"
    then ok reject
    else if value == "first_wins"
    then ok first_wins
    else err (value_error "existing_payload_policy must be either 'reject' or 'first_wins'")

-- The methods over a world `W` that holds the store.
pub record IdempotencyStore (W : Type 0) : Type 0 where
  pub get : String → String → Exec W (Option StagedEvent)
  pub stage : EventEnvelope → Exec W StagedEvent
  pub mark_sent : EventEnvelope → Exec W (Unit {0})
  pub pending : ℕ → Exec W (List EventEnvelope)

abbrev pub reused_message : String
reused_message = "Webhook event ID was reused with a different payload"

abbrev pub unstaged_message : String
unstaged_message = "Cannot mark an unstaged webhook event as sent"
