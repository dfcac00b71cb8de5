-- ===== src/FunctionApp/Maintenance/Reconciled.antt =====
-- That the maintenance timer gets its reconciliation event to the queue, whatever the repair does.
use mathlib.Core.Option
use enterprise_multi_agent_s.Prelude.{
  String, Bool, true, false, Option, none, some, ◌≡◌, refl, sym, ap, subst, ◌∙◌, is_some,
}
use enterprise_multi_agent_s.Python.Result.{Result, ok, err, is_ok}
use enterprise_multi_agent_s.Python.Exec.{pure, handle, continue, ◌>>◌, bind_of_ok}
use enterprise_multi_agent_s.Python.Dict.{pair_eq, beq_refl}
use enterprise_multi_agent_s.Python.Json.{Json}
use enterprise_multi_agent_s.Events.{EventEnvelope}
use enterprise_multi_agent_s.Idempotency.{Policy}
use enterprise_multi_agent_s.Idempotency.Contract.{Entry, Key, key_of, mark, IsStore, new_entry}
use enterprise_multi_agent_s.Settings.{Settings, is_empty, text_of}
use enterprise_multi_agent_s.OnedriveState.{OneDriveSubscriptionState}
use enterprise_multi_agent_s.FunctionApp.Subscription.Checks.{Parsers}
use enterprise_multi_agent_s.FunctionApp.Subscription.{Drive, ensure_onedrive_subscription}
use enterprise_multi_agent_s.FunctionApp.Maintenance.{
  Outbox, reconciliation_id, reconciliation_event, deliver_staged, enqueue_at,
  enqueue_onedrive_reconciliation, maintain_onedrive_subscription,
}

ok_unit : (r : Result (Unit {0})) → is_ok r ≡ true → r ≡ ok tt
ok_unit (ok tt) h = refl
ok_unit (err e) h = cc

module _ {W : Type 0} (outbox : Outbox W) {view : W → Key → Option Entry} {policy : Policy}
    {hash : EventEnvelope → String} {stored : EventEnvelope → EventEnvelope}
    (lawful : IsStore outbox.store view policy hash stored) where
  -- A clock that answers, and a publisher whose sends all return, apart from the store.
  pub record Works (hour received_at : String) : Type 0 where
    pub hour_lem : (w : W) → outbox.hour w ≡ (ok hour, w)
    pub received_at_lem : (w : W) → outbox.received_at w ≡ (ok received_at, w)
    pub publish_lem : (e : EventEnvelope) (w : W) → (outbox.publish e w).0 ≡ ok tt
    pub view-publish :
        (e : EventEnvelope) (w : W) (k : Key) → view (outbox.publish e w).1 k ≡ view w k

  -- A call that returned, and an entry that is marked sent behind it.
  pub record Delivers (k : Key) (outcome : Result (Unit {0}) × W) : Type 0 where
    pub returned : outcome.0 ≡ ok tt
    pub entry : Entry
    pub there : view outcome.1 k ≡ some entry
    pub is_sent : entry.state ≡ "sent"

  -- an event that the store has just staged is sent and marked
  send-Delivers :
      (hour received_at : String) (works : Works hour received_at) (e : EventEnvelope) (r : Entry)
      (w : W)
      → view w (key_of e) ≡ some r
      → Delivers (key_of e) ((do outbox.publish e; outbox.store.mark_sent e) w)
  send-Delivers hour received_at works e r w there =
      subst (Delivers (key_of e))
        (sym (
          bind_of_ok (outbox.publish e) (λ _. outbox.store.mark_sent e) w tt
            (works.publish_lem e w)))
        (record {
          returned =
              ok_unit (outbox.store.mark_sent e sent).0
                (lawful.mark-result e sent ∙ ap (λ o. is_some o) here);
          entry = mark r;
          there =
              lawful.view-mark e sent (key_of e)
              ∙ rw (beq_refl (key_of e)) (ap (λ o. Option.map mark o) here);
          is_sent = refl;
        })
    where
      sent : W
      sent = (outbox.publish e w).1

      here : view sent (key_of e) ≡ some r
      here = works.view-publish e w (key_of e) ∙ there

  enqueue_at-Delivers :
      (settings : Settings) (drive_id : String) (state : Option OneDriveSubscriptionState)
      (hour received_at : String) (works : Works hour received_at) (w : W)
      → view w ("onedrive", reconciliation_id drive_id hour) ≡ none
      → Delivers
          ("onedrive", reconciliation_id drive_id hour)
          (enqueue_at outbox settings drive_id state w)
  unfolding enqueue_at deliver_staged reconciliation_event
  enqueue_at-Delivers settings drive_id state hour received_at works w absent =
      rw (works.hour_lem w) (rw (works.received_at_lem w) (rw step delivered))
    where
      e : EventEnvelope
      e = reconciliation_event settings drive_id state hour received_at

      step :
          (outbox.store.stage e w).0
          ≡ ok (record { event = stored e; state = "pending"; created = true })
      step = lawful.stage-result e w ∙ rw absent refl

      there :
          view (outbox.store.stage e w).1 (key_of (stored e)) ≡ some (new_entry (stored e) (hash e))
      there =
          ap (view (outbox.store.stage e w).1) (lawful.stored_key e)
          ∙ lawful.view-stage e w (key_of e)
          ∙ rw (beq_refl (key_of e), absent) refl

      delivered :
          Delivers
            ("onedrive", reconciliation_id drive_id hour)
            ((do outbox.publish (stored e); outbox.store.mark_sent (stored e))
              (outbox.store.stage e w).1)
      delivered =
          subst
            (λ (k : Key). Delivers k (
              (do outbox.publish (stored e); outbox.store.mark_sent (stored e))
                (outbox.store.stage e w).1))
            (lawful.stored_key e)
            (send-Delivers hour received_at works (stored e) (new_entry (stored e) (hash e))
              (outbox.store.stage e w).1 there)

  module _ (repr : Json → String) (parsers : Parsers) (drive : Drive W) where
    -- whatever the repair does, its caller goes on
    caught :
        (r : Result (OneDriveSubscriptionState × Bool)) (state : Option OneDriveSubscriptionState)
        (w : W)
        → (next : Option OneDriveSubscriptionState) × (handle
              (continue r (λ result. pure (some result.0)) w).0
              (λ e. pure state)
              (continue r (λ result. pure (some result.0)) w).1
            ≡ (ok next, w))
    caught (ok result) state w = (some result.0, refl)
    caught (err e) state w = (state, refl)

    -- For a configured drive, a store that keeps its contract, a publisher whose sends all return,
    -- a clock that answers, a stored subscription state that can be read, and a repair that leaves
    -- the store's entries alone, but may raise: when the store has no reconciliation event of the
    -- drive and the hour, maintain_onedrive_subscription returns, and the store has that event's
    -- entry marked sent.
    pub maintain-Delivers :
        (settings : Settings) (state : Option OneDriveSubscriptionState) (hour received_at : String)
        (w : W)
        → Works hour received_at
        → is_empty settings.onedrive_drive_id ≡ false
        → (drive.states.get (text_of settings.onedrive_drive_id) w).0 ≡ ok state
        → ((w : W) (k : Key)
            → view (drive.states.get (text_of settings.onedrive_drive_id) w).1 k ≡ view w k)
        → ((w : W) (k : Key)
            → view (ensure_onedrive_subscription repr parsers drive settings true w).1 k ≡ view w k)
        → view w ("onedrive", reconciliation_id (text_of settings.onedrive_drive_id) hour) ≡ none
        → Delivers
            ("onedrive", reconciliation_id (text_of settings.onedrive_drive_id) hour)
            (maintain_onedrive_subscription outbox repr parsers drive settings w)
    unfolding maintain_onedrive_subscription enqueue_onedrive_reconciliation
    maintain-Delivers settings state hour received_at w works named read kept untouched absent =
        let w1 : W = (drive.states.get (text_of settings.onedrive_drive_id) w).1 in
        let w2 : W = (ensure_onedrive_subscription repr parsers drive settings true w1).1 in
        let (next, step) =
          caught (ensure_onedrive_subscription repr parsers drive settings true w1).0 state w2 in
        rw named (
          rw read (
            rw step (
              enqueue_at-Delivers settings (text_of settings.onedrive_drive_id) next hour
                received_at works w2 (untouched w1 _ ∙ kept w _ ∙ absent))))
