-- ===== src/FunctionApp.antt =====
-- function_app.py: the timers and the queue trigger that tie the components together. Logging is left
-- out. What build_store() and its like return are the fields of `Services`.
pub mod Pending
pub mod Results
pub mod Subscription
pub mod Maintenance
pub mod Routes
use Prim.Native.String.{◌++◌ as append}
use enterprise_multi_agent_s.Prelude.{
  ℕ, String, Bool, true, false, not, Option, none, some, List, [], ◌∷◌, ◌==◌, if◌then◌else◌,
}
use enterprise_multi_agent_s.Python.Result.{
  Exn, Result, ok, err, webhook_error, runtime_error, delta_token_expired,
}
use enterprise_multi_agent_s.Python.Exec.{Exec, pure, raise, lift, catch, ◌>>=◌, ◌>>◌}
use enterprise_multi_agent_s.Python.Json.{Json, str, obj, Fields, end, field}
use enterprise_multi_agent_s.Runtime.{Runtime}
use enterprise_multi_agent_s.Events.{EventEnvelope, from_json}
use enterprise_multi_agent_s.Idempotency.{IdempotencyStore, StagedEvent}
use enterprise_multi_agent_s.Worker.{
  ProcessingResult, to_dict, to_private_record, from_private_record,
}

-- an answer: its status, its code and its message
abbrev pub Response : Type 0
Response = ℕ × String × String

-- `_error_response`: an exception that is no WebhookError shows nothing of itself
unfoldable pub error_response : Exn → Response
error_response (webhook_error status code message) = (status, code, message)
error_response _ = (500, "internal_error", "Request failed")

abbrev pub is_runtime_error : Exn → Bool
is_runtime_error (runtime_error message) = true
is_runtime_error (delta_token_expired recovery_url) = true
is_runtime_error _ = false

module _ {W : Type 0} (store : IdempotencyStore W)
    (publish : EventEnvelope → Exec W (Unit {0})) where
  -- one turn of the loop of dispatch_pending_webhooks
  unfoldable pub dispatch_pending : EventEnvelope → Exec W (Unit {0})
  dispatch_pending event = catch (do publish event; store.mark_sent event) λ e. pure tt

  unfoldable pub dispatch_each : List EventEnvelope → Exec W (Unit {0})
  unfolding dispatch_pending
  dispatch_each [] = pure tt
  dispatch_each (event ∷ events) = do dispatch_pending event; dispatch_each events

  unfoldable pub dispatch_pending_webhooks : Exec W (Unit {0})
  unfolding dispatch_each
  dispatch_pending_webhooks = do events ← store.pending 100; dispatch_each events

-- The results' side: their store and publisher, the payload store if there is one, and the methods
-- of the processor.
pub record Services (W : Type 0) : Type 0 where
  pub result_store : IdempotencyStore W
  pub publish_result : EventEnvelope → Exec W (Unit {0})
  pub resolve : Option (EventEnvelope → Exec W EventEnvelope)
  pub process : EventEnvelope → Exec W ProcessingResult
  pub acknowledge : ProcessingResult → Exec W (Unit {0})
  pub abandon : ProcessingResult → Exec W (Unit {0})

abbrev pub resolved :
    {W : Type 0}
    → Option (EventEnvelope → Exec W EventEnvelope)
    → EventEnvelope
    → Exec W EventEnvelope
resolved none event = pure event
resolved (some resolve) event = resolve event

abbrev pub private_id : EventEnvelope → String
private_id event = append event.source (append ":" event.id)

abbrev pub private_event : EventEnvelope → ProcessingResult → EventEnvelope
private_event event result = record {
  id = private_id event;
  source = "result-outbox";
  type = "processing.completed";
  event_data = to_private_record result;
  correlation_id = event.correlation_id;
  received_at = event.received_at;
  subject = event.subject;
  metadata = end;
  version = "1";
}

abbrev pub public_event : EventEnvelope → ProcessingResult → EventEnvelope
public_event stored result = record {
  id = append stored.id ":result";
  source = "webhook-gateway";
  type = "event.processed";
  event_data = to_dict result;
  correlation_id = result.correlation_id;
  received_at = stored.received_at;
  subject = stored.subject;
  metadata = end;
  version = "1";
}

module _ {Bytes W : Type 0} (rt : Runtime Bytes) (services : Services W) where
  -- `except RuntimeError`: any other exception goes on
  unfoldable pub acknowledge_or_log : ProcessingResult → Exec W (Unit {0})
  acknowledge_or_log result =
      catch (services.acknowledge result) λ e. if is_runtime_error e then pure tt else raise e

  unfoldable pub dispatch_result_record : EventEnvelope → Exec W (Unit {0})
  unfolding acknowledge_or_log
  dispatch_result_record stored = do
    full ← resolved services.resolve stored
    result ← lift (from_private_record rt full.event_data)
    services.publish_result (public_event stored result)
    acknowledge_or_log result
    services.result_store.mark_sent stored

  unfoldable pub dispatch_results : List EventEnvelope → Exec W (Unit {0})
  unfolding dispatch_result_record
  dispatch_results [] = pure tt
  dispatch_results (event ∷ events) = do
    catch (dispatch_result_record event) λ e. pure tt
    dispatch_results events

  unfoldable pub dispatch_pending_results : Exec W (Unit {0})
  unfolding dispatch_results
  dispatch_pending_results = do events ← services.result_store.pending 100; dispatch_results events

  abbrev pub abandon_unless : Bool → ProcessingResult → Exec W (Unit {0})
  abandon_unless true result = pure tt
  abandon_unless false result = services.abandon result

  -- `if staged is None:` process the event and stage its result
  unfoldable pub staged_result : EventEnvelope → Option StagedEvent → Exec W StagedEvent
  staged_result event (some staged) = pure staged
  staged_result event none = do
    result ← services.process event
    staged ← services.result_store.stage (private_event event result)
    abandon_unless staged.created result
    pure staged

  unfoldable pub deliver_result : StagedEvent → Exec W (Unit {0})
  unfolding dispatch_result_record
  deliver_result staged =
      if staged.state == "sent"
      then pure tt
      else catch (dispatch_result_record staged.event) λ e. pure tt

  unfoldable pub process_resolved : EventEnvelope → Exec W (Unit {0})
  unfolding staged_result deliver_result
  process_resolved event = do
    found ← services.result_store.get "result-outbox" (private_id event)
    staged ← staged_result event found
    deliver_result staged

  unfoldable pub process_event : String → Bytes → Exec W (Unit {0})
  unfolding process_resolved
  process_event now body = do
    queued ← lift (from_json rt now body)
    event ← resolved services.resolve queued
    process_resolved event
