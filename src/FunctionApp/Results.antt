-- ===== src/FunctionApp/Results.antt =====
-- The processing of one event, once its result is stored.

use enterprise_multi_agent_s.Prelude.{
  String, ◌≡◌, refl, sym, ap, subst, ◌∙◌, Bool, true, false, Option, none, some, ◌==◌, Option-cases,
  Bool-cases, inl, inr, if◌then◌else◌,
}
use enterprise_multi_agent_s.Python.Result.{Exn, Result, ok}
use enterprise_multi_agent_s.Python.Exec.{
  Exec, bind-ok, after_bind, after_catch, after_if, catch, pure, raise, lift, ◌>>=◌,
}
use enterprise_multi_agent_s.Python.Dict.{pair_beq, pair_eq, pair_beq_iff, beq_refl}
use enterprise_multi_agent_s.Runtime.{Runtime}
use enterprise_multi_agent_s.Events.{EventEnvelope}
use enterprise_multi_agent_s.Idempotency.{StagedEvent, Policy}
use enterprise_multi_agent_s.Idempotency.Contract.{
  Entry, Key, key_of, IsStore, seen, mark, staged_entry,
}
use enterprise_multi_agent_s.Worker.{ProcessingResult, from_private_record}
use enterprise_multi_agent_s.FunctionApp.{
  Services, private_id, private_event, public_event, is_runtime_error, resolved, staged_result,
  deliver_result, process_resolved, dispatch_result_record, acknowledge_or_log, abandon_unless,
}

module _ {Bytes W : Type 0} (rt : Runtime Bytes) (services : Services W)
    {view : W → Key → Option Entry} {policy : Policy} {hash : EventEnvelope → String}
    {stored : EventEnvelope → EventEnvelope}
    (lawful : IsStore services.result_store view policy hash stored) where
  abbrev pub key : EventEnvelope → Key
  key event = ("result-outbox", private_id event)

  -- For a result store that keeps its contract: when it has the private result of an event,
  -- processing the event again gives the same outcome and state whatever the processor's process
  -- and abandon would do, so that no provider and no drive is asked again; its acknowledge is the
  -- same in both.
  pub process_resolved-resumes :
      (process : EventEnvelope → Exec W ProcessingResult)
      (abandon : ProcessingResult → Exec W (Unit {0})) (event : EventEnvelope) (w : W) (r : Entry)
      → view w (key event) ≡ some r
      → process_resolved rt services event w
        ≡ process_resolved rt (record services { process = process; abandon = abandon }) event w
  unfolding process_resolved staged_result deliver_result dispatch_result_record acknowledge_or_log
  process_resolved-resumes process abandon event w r there =
      let found : services.result_store.get "result-outbox" (private_id event) w
          ≡ (ok (some (seen r)), w) =
        lawful.get_lem "result-outbox" (private_id event) w ∙ rw there refl in
      rw found refl

  -- The calls that stand behind the staging of a result do not take it away.
  pub record IsApart : Type 0 where
    pub resolve_keeps :
        (resolve : EventEnvelope → Exec W EventEnvelope)
        → services.resolve ≡ some resolve
        → (e : EventEnvelope) (w : W) (k : Key) → view (resolve e w).1 k ≡ view w k
    pub publish_keeps :
        (e : EventEnvelope) (w : W) (k : Key) → view (services.publish_result e w).1 k ≡ view w k
    pub acknowledge_keeps :
        (r : ProcessingResult) (w : W) (k : Key) → view (services.acknowledge r w).1 k ≡ view w k
    pub abandon_keeps :
        (r : ProcessingResult) (w : W) (k : Key) → view (services.abandon r w).1 k ≡ view w k

  abbrev pub HasResult : EventEnvelope → W → Type 0
  HasResult event w = (r : Entry) × (view w (key event) ≡ some r)

  stage-HasResult :
      (event : EventEnvelope) (result : ProcessingResult) (w : W)
      → HasResult event (services.result_store.stage (private_event event result) w).1
  stage-HasResult event result w =
      let e = private_event event result in
      (
        staged_entry (hash e) (stored e) (view w (key event)),
        lawful.view-stage (private_event event result) w (key event)
            ∙ rw (beq_refl (key event)) refl,
      )

  mark-HasResult :
      (event e : EventEnvelope) (w : W)
      → HasResult event w
      → HasResult event (services.result_store.mark_sent e w).1
  mark-HasResult event e w (r, there) = elim (Bool-cases (pair_beq (key_of e) (key event))) [
    | inl same ↦
        let here : view w (key_of e) ≡ some r =
          ap (view w) ((pair_beq_iff (key_of e) (key event)).0 same) ∙ there in
        (mark r, lawful.view-mark e w (key event) ∙ rw (same, here) refl)
    | inr other ↦ (r, lawful.view-mark e w (key event) ∙ rw other there)
  ]

  module _ (apart : IsApart) (event : EventEnvelope) where
    abbrev Keeps : {A : Type 0} → Exec W A → Type 0
    Keeps m = (w : W) → HasResult event w → HasResult event (m w).1

    bind-Keeps :
        {A B : Type 0} (m : Exec W A) (f : A → Exec W B)
        → Keeps m
        → ((a : A) → Keeps (f a))
        → Keeps (m >>= f)
    bind-Keeps m f first next w h =
        after_bind (HasResult event) m f w (λ e failed. first w h) (λ a done. next a _ (first w h))

    catch-Keeps :
        {A : Type 0} (m : Exec W A) (f : Exn → Exec W A)
        → Keeps m
        → ((e : Exn) → Keeps (f e))
        → Keeps (catch m f)
    catch-Keeps m f first next w h =
        after_catch (HasResult event) m f w (first w h) (λ e failed. next e _ (first w h))

    resolved-Keeps :
        (o : Option (EventEnvelope → Exec W EventEnvelope))
        → services.resolve ≡ o
        → (e : EventEnvelope) → Keeps (resolved o e)
    resolved-Keeps none same e w h = h
    resolved-Keeps (some resolve) same e w (r, there) =
        (r, apart.resolve_keeps resolve same e w (key event) ∙ there)

    acknowledge-Keeps : (r : ProcessingResult) → Keeps (acknowledge_or_log rt services r)
    unfolding acknowledge_or_log
    acknowledge-Keeps r =
        catch-Keeps (services.acknowledge r) (λ e. if is_runtime_error e then pure tt else raise e)
          (λ w h. (h.0, apart.acknowledge_keeps r w (key event) ∙ h.1))
          λ e w h.
            after_if (HasResult event) (is_runtime_error e) (pure tt) (raise e) w (λ y. h) (λ n. h)

    record-Keeps : (e : EventEnvelope) → Keeps (dispatch_result_record rt services e)
    unfolding dispatch_result_record
    record-Keeps e =
        bind-Keeps (resolved services.resolve e) _ (resolved-Keeps services.resolve refl e) λ full.
          bind-Keeps (lift (from_private_record rt full.event_data)) _ (λ w h. h)
            λ result.
              bind-Keeps (services.publish_result (public_event e result)) _
                (λ w h. (h.0, apart.publish_keeps _ w (key event) ∙ h.1))
                λ u.
                  bind-Keeps (acknowledge_or_log rt services result) _ (acknowledge-Keeps result)
                    (λ v w h. mark-HasResult event e w h)

    deliver-Keeps : (st : StagedEvent) → Keeps (deliver_result rt services st)
    unfolding deliver_result
    deliver-Keeps st w h =
        after_if (HasResult event) (st.state == "sent") (pure tt) _ w (λ old. h)
          (λ new.
            catch-Keeps (dispatch_result_record rt services st.event) (λ e. pure tt)
              (record-Keeps st.event) (λ e w h. h) w h)

    abandon-Keeps :
        (created : Bool) (r : ProcessingResult) → Keeps (abandon_unless rt services created r)
    abandon-Keeps true r w h = h
    abandon-Keeps false r w (e, there) = (e, apart.abandon_keeps r w (key event) ∙ there)

    -- A result that was not there is there once its staging returned.
    staged-HasResult :
        (w : W) (st : StagedEvent)
        → (staged_result rt services event none w).0 ≡ ok st
        → HasResult event (staged_result rt services event none w).1
    unfolding staged_result
    staged-HasResult w st h =
        let (result, ran, next) = bind-ok (services.process event) _ w st h in
        let w1 = (services.process event w).1 in
        let tail =
          λ (s : StagedEvent). abandon_unless rt services s.created result >>= λ u. pure s in
        subst (λ (x : Result StagedEvent × W). HasResult event x.1) (sym next)
          (after_bind (HasResult event) (services.result_store.stage (private_event event result))
            tail w1 (λ e failed. stage-HasResult event result w1)
            (λ s done.
              bind-Keeps (abandon_unless rt services s.created result) (λ u. pure s)
                (abandon-Keeps s.created result) (λ u w h. h) _ (stage-HasResult event result w1)))

    -- For a result store that keeps its contract, and a payload store, a publisher and a drive
    -- that leave its entries alone: when the processing of an event returns, so that the queue's
    -- message is settled, the store has the private result of the event.
    pub process_resolved-HasResult :
        (w : W)
        → (process_resolved rt services event w).0 ≡ ok tt
        → HasResult event (process_resolved rt services event w).1
    unfolding process_resolved
    process_resolved-HasResult w h =
        let looked = lawful.get_lem "result-outbox" (private_id event) w in
        let get = services.result_store.get "result-outbox" (private_id event) in
        let go : Option StagedEvent → Exec W (Unit {0}) =
          λ found. staged_result rt services event found >>= deliver_result rt services in
        elim (Option-cases (view w (key event))) [
          | inr (r, there) ↦
              let found : get w ≡ (ok (some (seen r)), w) = looked ∙ rw there refl in
              rw found (unfold staged_result in deliver-Keeps (seen r) w (r, there))
          | inl absent ↦
              let found : get w ≡ (ok none, w) = looked ∙ rw absent refl in
              let h1 : (go none w).0 ≡ ok tt = rw found at h in
              let (st, done, next) =
                bind-ok (staged_result rt services event none) (deliver_result rt services) w tt
                  h1 in
              rw found (
                subst (λ (x : Result (Unit {0}) × W). HasResult event x.1) (sym next)
                  (deliver-Keeps st _ (staged-HasResult w st done)))
        ]
