-- ===== src/FunctionApp/Maintenance.antt =====
-- function_app.py: the maintenance timer of the OneDrive subscription, and the reconciliation event that
-- it enqueues. `hour` is now.strftime("%Y%m%d%H"), and `received_at` the default of an envelope's field.
pub mod Reconciled
use Prim.Native.String.{◌++◌ as append}
use enterprise_multi_agent_s.Prelude.{String, Bool, true, Option, none, some, ◌==◌, if◌then◌else◌}
use enterprise_multi_agent_s.Python.Result.{Exn, ok, err}
use enterprise_multi_agent_s.Python.Exec.{Exec, pure, catch, ◌>>=◌, ◌>>◌}
use enterprise_multi_agent_s.Python.Json.{Json, str, Fields, end, field, text_or_null}
use enterprise_multi_agent_s.Events.{EventEnvelope}
use enterprise_multi_agent_s.Idempotency.{IdempotencyStore, StagedEvent}
use enterprise_multi_agent_s.Settings.{Settings, is_empty, text_of}
use enterprise_multi_agent_s.OnedriveState.{OneDriveSubscriptionState}
use enterprise_multi_agent_s.FunctionApp.Subscription.Checks.{Parsers, drive_resource}
use enterprise_multi_agent_s.FunctionApp.Subscription.{Drive, ensure_onedrive_subscription}

-- build_store(), the publisher of build_intake_publisher(), and the clock
pub record Outbox (W : Type 0) : Type 0 where
  pub store : IdempotencyStore W
  pub publish : EventEnvelope → Exec W (Unit {0})
  pub hour : Exec W String
  pub received_at : Exec W String

abbrev pub resource_or_root : String → Option OneDriveSubscriptionState → String
resource_or_root drive_id none = drive_resource drive_id
resource_or_root drive_id (some state) = state.resource

abbrev pub subscription_or_drive : String → Option OneDriveSubscriptionState → String
subscription_or_drive drive_id none = append "drive:" drive_id
subscription_or_drive drive_id (some state) = state.subscription_id

abbrev pub reconciliation_id : String → String → String
reconciliation_id drive_id hour = append "reconcile:" (append drive_id (append ":" hour))

unfoldable pub reconciliation_event :
    Settings → String → Option OneDriveSubscriptionState → String → String → EventEnvelope
reconciliation_event settings drive_id state hour received_at = record {
  id = reconciliation_id drive_id hour;
  source = "onedrive";
  type = "drive.updated";
  event_data = field "subscriptionId" (str (subscription_or_drive drive_id state)) (
      field "resource" (str (resource_or_root drive_id state)) (
        field "tenantId" (text_or_null settings.onedrive_tenant_id)
          (field "reason" (str "scheduled_reconciliation") end)));
  correlation_id = subscription_or_drive drive_id state;
  received_at = received_at;
  subject = some (resource_or_root drive_id state);
  metadata = end;
  version = "1";
}

module _ {W : Type 0} (outbox : Outbox W) where
  -- `if staged.state != "sent":`
  unfoldable pub deliver_staged : StagedEvent → Exec W (Unit {0})
  deliver_staged staged =
      if staged.state == "sent"
      then pure tt
      else do outbox.publish staged.event; outbox.store.mark_sent staged.event

  unfoldable pub enqueue_at :
      Settings → String → Option OneDriveSubscriptionState → Exec W (Unit {0})
  unfolding deliver_staged reconciliation_event
  enqueue_at settings drive_id state = do
    hour ← outbox.hour
    received_at ← outbox.received_at
    staged ← outbox.store.stage (reconciliation_event settings drive_id state hour received_at)
    deliver_staged staged

  unfoldable pub enqueue_onedrive_reconciliation :
      Settings → Option OneDriveSubscriptionState → Exec W (Unit {0})
  unfolding enqueue_at
  enqueue_onedrive_reconciliation settings state =
      if is_empty settings.onedrive_drive_id
      then pure tt
      else enqueue_at settings (text_of settings.onedrive_drive_id) state

  module _ (repr : Json → String) (parsers : Parsers) (drive : Drive W) where
    -- the state behind the repair, or the old one when it raised
    abbrev pub repaired_or :
        Settings → Option OneDriveSubscriptionState → Exec W (Option OneDriveSubscriptionState)
    repaired_or settings state =
        catch
          (do
            result ← ensure_onedrive_subscription repr parsers drive settings true
            pure (some result.0))
          λ e. pure state

    unfoldable pub maintain_onedrive_subscription : Settings → Exec W (Unit {0})
    unfolding enqueue_onedrive_reconciliation
    maintain_onedrive_subscription settings =
        if is_empty settings.onedrive_drive_id then pure tt else do
          stored ← drive.states.get (text_of settings.onedrive_drive_id)
          state ← repaired_or settings stored
          enqueue_onedrive_reconciliation settings state
