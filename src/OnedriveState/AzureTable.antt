-- ===== src/OnedriveState/AzureTable.antt =====
-- src/webhook_gateway/onedrive_state.py: AzureTableOneDriveSubscriptionStore. The table's calls are the
-- record `TableClient`.
use enterprise_multi_agent_s.Prelude.{ℕ, String, Option, none, some, ◌==◌, if◌then◌else◌}
use enterprise_multi_agent_s.Python.Result.{
  Exn, Result, ok, err, runtime_error, key_error, service_error,
}
use enterprise_multi_agent_s.Python.Exec.{Exec, pure, raise, lift, catch, ◌>>=◌}
use enterprise_multi_agent_s.Python.Json.{Json, str, to_text}
use enterprise_multi_agent_s.Python.Text.Chars.{replace_char}
use enterprise_multi_agent_s.Runtime.{Runtime}
use enterprise_multi_agent_s.OnedriveState.{
  Datetime, aware, to_utc, OneDriveSubscriptionState, new_state, OneDriveSubscriptionStore,
}

-- A value of the column Expiration.
pub data Stored : Type 0 where
  datetime : Datetime → Stored
  value : Json → Stored

-- The columns that `save` writes; a column that is missing is none.
pub record Entity : Type 0 where
  pub subscription_id : Option Json
  pub drive_id : Option Json
  pub expiration : Option Stored
  pub resource : Option Json
  pub notification_url : Option Json
  pub updated_at : ℕ

-- The rows of the partition, by their row key; `now` is datetime.now(timezone.utc).
pub record TableClient (W : Type 0) : Type 0 where
  pub get_entity : String → Exec W Entity
  pub upsert_entity : String → Entity → Exec W (Unit {0})
  pub now : Exec W ℕ

-- entity[name]
abbrev pub column {ℓ} : {A : Type ℓ} → String → Option A → Result A
column name none = err (key_error name)
column name (some v) = ok v

-- `except ResourceNotFoundError: return None`
abbrev pub none_if_missing : {W : Type 0} → Exn → Exec W (Option Entity)
none_if_missing (service_error name status) =
    if name == "ResourceNotFoundError" then pure none else raise (service_error name status)
none_if_missing e = raise e

abbrev pub invalid_expiration {ℓ} : {A : Type ℓ} → Result A
invalid_expiration = err (runtime_error "Stored OneDrive subscription expiration is invalid")

abbrev pub read_datetime : Option Datetime → Result ℕ
read_datetime none = invalid_expiration
read_datetime (some t) = ok (to_utc t)

module _ (fromisoformat : String → Option Datetime) where
  unfoldable pub parse_expiration : Stored → Result ℕ
  unfolding to_utc
  parse_expiration (datetime t) = ok (to_utc t)
  parse_expiration (value (str text)) =
      read_datetime (fromisoformat (replace_char 90 "+00:00" text))
  parse_expiration (value _) = invalid_expiration

module _ {Bytes W : Type 0} (rt : Runtime Bytes) (fromisoformat : String → Option Datetime) where
  unfoldable pub state_of : Entity → Exec W OneDriveSubscriptionState
  unfolding parse_expiration
  state_of entity = do
    subscription_id ← lift (column "SubscriptionId" entity.subscription_id)
    drive_id ← lift (column "DriveId" entity.drive_id)
    stored ← lift (column "Expiration" entity.expiration)
    expiration ← lift (parse_expiration fromisoformat stored)
    resource ← lift (column "Resource" entity.resource)
    notification_url ← lift (column "NotificationUrl" entity.notification_url)
    lift (
        new_state (to_text rt.repr subscription_id) (to_text rt.repr drive_id) (aware expiration)
          (to_text rt.repr resource) (to_text rt.repr notification_url))

  abbrev pub state_or_none : Option Entity → Exec W (Option OneDriveSubscriptionState)
  state_or_none none = pure none
  state_or_none (some entity) = do state ← state_of entity; pure (some state)

  module _ (table : TableClient W) where
    abbrev pub row_key : String → String
    row_key drive_id = rt.sha256 (rt.encode drive_id)

    unfoldable pub get : String → Exec W (Option OneDriveSubscriptionState)
    unfolding state_of
    get drive_id = do
      found ←
          catch (do entity ← table.get_entity (row_key drive_id); pure (some entity))
            none_if_missing
      state_or_none found

    abbrev pub entity_of : OneDriveSubscriptionState → ℕ → Entity
    entity_of state now = record {
      subscription_id = some (str state.subscription_id);
      drive_id = some (str state.drive_id);
      expiration = some (datetime (aware state.expiration));
      resource = some (str state.resource);
      notification_url = some (str state.notification_url);
      updated_at = now;
    }

    unfoldable pub save : OneDriveSubscriptionState → Exec W (Unit {0})
    save state = do
      now ← table.now
      table.upsert_entity (row_key state.drive_id) (entity_of state now)

    abbrev pub table_store : OneDriveSubscriptionStore W
    table_store = record { get = get; save = save }
