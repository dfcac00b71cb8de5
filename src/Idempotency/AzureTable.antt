-- ===== src/Idempotency/AzureTable.antt =====
-- src/webhook_gateway/idempotency.py: AzureTableIdempotencyStore. The calls on the table are the record
-- `TableClient`, and `prepare` is that of the payload store.
pub mod Staging
use enterprise_multi_agent_s.Prelude.{
  ℕ, String, Bool, true, false, not, ◌&&◌, Option, none, some, List, [], ◌∷◌, ◌==◌, take,
  if◌then◌else◌,
}
use enterprise_multi_agent_s.Python.Result.{
  Exn, Result, ok, err, runtime_error, key_error, service_error,
}
use enterprise_multi_agent_s.Python.Exec.{Exec, pure, raise, lift, catch, ◌>>=◌, ◌>>◌}
use enterprise_multi_agent_s.Runtime.{Runtime}
use enterprise_multi_agent_s.Events.{EventEnvelope, event_payload_hash, from_json, to_json}
use enterprise_multi_agent_s.Idempotency.{StagedEvent, Policy, IdempotencyStore, reused_message}
use enterprise_multi_agent_s.Idempotency.Memory.{is_reject}
use enterprise_multi_agent_s.Idempotency.Sqlite.{staged_of}

-- The columns that the store writes, but for Attempts and the times; a missing column is none.
pub record Entity (Bytes : Type 0) : Type 0 where
  pub event_id : Option String
  pub payload_hash : Option String
  pub dispatch_payload : Option Bytes
  pub state : Option String

-- A row stands under the partition's key and its own. `merge_state` updates the column State of a
-- row that is there; `query_pending` answers the rows with the state pending.
pub record TableClient (Bytes W : Type 0) : Type 0 where
  pub get_entity : String → String → Exec W (Entity Bytes)
  pub create_entity : String → String → Entity Bytes → Exec W (Unit {0})
  pub merge_state : String → String → String → Exec W (Unit {0})
  pub query_pending : Exec W (List (Entity Bytes))

abbrev pub is_class : String → Exn → Bool
is_class name (service_error other status) = other == name
is_class name _ = false

-- str(entity.get("State") or "pending")
abbrev pub state_or_pending : Option String → String
state_or_pending none = "pending"
state_or_pending (some state) = if state == "" then "pending" else state

-- str(entity.get("EventId") or "")
abbrev pub text_or_empty : Option String → String
text_or_empty none = ""
text_or_empty (some text) = text

-- entity.get("PayloadHash") == payload_hash
abbrev pub equals : Option String → String → Bool
equals none hash = false
equals (some text) hash = text == hash

-- `except ResourceNotFoundError: return None`
abbrev pub none_if_missing : {Bytes W : Type 0} → Exn → Exec W (Option (Entity Bytes))
none_if_missing e = if is_class "ResourceNotFoundError" e then pure none else raise e

module _ {Bytes W : Type 0} (rt : Runtime Bytes) (policy : Policy) (now : String)
    (table : TableClient Bytes W) (prepare : EventEnvelope → Exec W EventEnvelope) where
  abbrev pub row_key : String → String
  row_key event_id = rt.sha256 (rt.encode event_id)

  -- EventEnvelope.from_json(str(entity["DispatchPayload"]))
  abbrev pub read_payload : Option Bytes → Result EventEnvelope
  read_payload none = err (key_error "DispatchPayload")
  read_payload (some payload) = from_json rt now payload

  abbrev pub staged_entity : Entity Bytes → Bool → Result StagedEvent
  staged_entity entity created =
      staged_of (state_or_pending entity.state) created (read_payload entity.dispatch_payload)

  abbrev pub checked_entity : String → Option (Entity Bytes) → Exec W (Option StagedEvent)
  checked_entity event_id none = pure none
  checked_entity event_id (some entity) =
      if not (text_or_empty entity.event_id == event_id)
      then raise (runtime_error "Webhook event identity mismatch")
      else do staged ← lift (staged_entity entity false); pure (some staged)

  unfoldable pub get : String → String → Exec W (Option StagedEvent)
  get source event_id = do
    found ←
        catch (do entity ← table.get_entity source (row_key event_id); pure (some entity))
          none_if_missing
    checked_entity event_id found

  abbrev pub new_entity : EventEnvelope → EventEnvelope → Entity Bytes
  new_entity event dispatch_event = record {
    event_id = some event.id;
    payload_hash = some (event_payload_hash rt event);
    dispatch_payload = some (to_json rt dispatch_event);
    state = some "pending";
  }

  -- `created`
  abbrev pub create_or_not : EventEnvelope → EventEnvelope → Exec W Bool
  create_or_not event dispatch_event =
      catch
        (table.create_entity event.source (row_key event.id) (new_entity event dispatch_event)
          >> pure true)
        λ e. if is_class "ResourceExistsError" e then pure false else raise e

  abbrev pub compared : EventEnvelope → Bool → Entity Bytes → Exec W StagedEvent
  compared event created entity =
      if not (equals entity.payload_hash (event_payload_hash rt event)) && is_reject policy
      then raise (runtime_error reused_message)
      else lift (staged_entity entity created)

  unfoldable pub stage : EventEnvelope → Exec W StagedEvent
  stage event = do
    dispatch_event ← prepare event
    created ← create_or_not event dispatch_event
    entity ← table.get_entity event.source (row_key event.id)
    compared event created entity

  unfoldable pub mark_sent : EventEnvelope → Exec W (Unit {0})
  mark_sent event = table.merge_state event.source (row_key event.id) "sent"

  unfoldable pub read_entities : List (Entity Bytes) → Exec W (List EventEnvelope)
  read_entities [] = pure []
  read_entities (entity ∷ entities) = do
    event ← lift (read_payload entity.dispatch_payload)
    events ← read_entities entities
    pure (event ∷ events)

  unfoldable pub pending : ℕ → Exec W (List EventEnvelope)
  unfolding read_entities
  pending limit = do entities ← table.query_pending; read_entities (take limit entities)

  abbrev pub azure_store : IdempotencyStore W
  azure_store = record { get = get; stage = stage; mark_sent = mark_sent; pending = pending }
