-- ===== src/Intake/Redelivery.antt =====
-- What a delivery returns, and what the next delivery of the event does.
use enterprise_multi_agent_s.Prelude.{
  String, ◌≡◌, ◌≢◌, refl, sym, ap, ◌∙◌, Bool, true, false, Option, some, List, arith, ◌==◌, eq_iff,
  eq_refl, if◌then◌else◌, Bool-cases, inl, inr,
}
use enterprise_multi_agent_s.Python.Result.{Result, ok}
use enterprise_multi_agent_s.Python.Exec.{Exec, pure, ◌>>◌, bind_of_ok, bind-ok}
use enterprise_multi_agent_s.Python.Dict.{pair_beq, pair_beq_iff}
use enterprise_multi_agent_s.Events.{EventEnvelope}
use enterprise_multi_agent_s.Idempotency.{IdempotencyStore, StagedEvent, Policy, reject, first_wins}
use enterprise_multi_agent_s.Idempotency.Contract.{Entry, Key, key_of, mark, seen, IsStore, refuses}
use enterprise_multi_agent_s.Python.Set.{contains}
use enterprise_multi_agent_s.Intake.{WebhookIntake, publish_once, publish_through, dispatch_staged}
use enterprise_multi_agent_s.Intake.Delivery.{IsWired, IsSound, stage-IsSound, stage-entry}

refuses-mark : (p : Policy) (h : String) (r : Entry) → refuses p h (mark r) ≡ refuses p h r
refuses-mark reject h r = refl
refuses-mark first_wins h r = refl

module _ {W : Type 0} {intake : WebhookIntake W} {store : IdempotencyStore W}
    {view : W → Key → Option Entry} {published : W → List EventEnvelope} {policy : Policy}
    {hash : EventEnvelope → String} {stored : EventEnvelope → EventEnvelope}
    (lawful : IsStore store view policy hash stored)
    (wired : IsWired intake store view published) where
  -- The entry under the event's key is sent, and takes the event's payload.
  pub record IsSent (e : EventEnvelope) (w : W) : Type 0 where
    pub entry : Entry
    pub there : view w (key_of e) ≡ some entry
    pub sent : entry.state ≡ "sent"
    pub accepts : refuses policy (hash e) entry ≡ false

  durable_path :
      (e : EventEnvelope)
      → contains intake.direct_sources e.source ≡ false
      → publish_once intake e.source e ≡ publish_through intake (some store) e
  unfolding publish_once
  durable_path e durable = rw (eq_refl e.source, durable, wired.configured)

  -- Staging an event whose entry is there changes no entry.
  view-stage_there :
      (e : EventEnvelope) (w : W) (r : Entry) (k : Key)
      → view w (key_of e) ≡ some r
      → view (store.stage e w).1 k ≡ view w k
  view-stage_there e w r k there = elim (Bool-cases (pair_beq (key_of e) k)) [
    | inl same ↦
        let at_key : view w (key_of e) ≡ view w k =
          ap (view w) ((pair_beq_iff (key_of e) k).0 same) in
        ground (arith, lawful.view-stage e w k)
    | inr other ↦ ground (arith, lawful.view-stage e w k)
  ]

  -- An event that is sent is a duplicate: nothing is published and no entry changes.
  pub publish_once-sent :
      (e : EventEnvelope) (w : W)
      → contains intake.direct_sources e.source ≡ false
      → IsSent e w
      → ((publish_once intake e.source e w).0 ≡ ok false)
        × (published (publish_once intake e.source e w).1 ≡ published w)
        × ((k : Key) → view (publish_once intake e.source e w).1 k ≡ view w k)
  unfolding publish_through dispatch_staged
  publish_once-sent e w durable s =
      let staged_there : (store.stage e w).0 ≡ ok (seen s.entry) =
        lawful.stage-result e w ∙ ground (arith, s.there, s.accepts) in
      let stops : publish_through intake (some store) e w ≡ (ok false, (store.stage e w).1) =
        bind_of_ok (store.stage e) (dispatch_staged intake store) w (seen s.entry) staged_there
        ∙ rw ((eq_iff s.entry.state "sent").1 s.sent) refl in
      rw (durable_path e durable, stops)
        (refl, wired.published-stage e w, λ k. view-stage_there e w s.entry k s.there)

  -- What a publication through the store goes through when it returns true.
  record Course (e : EventEnvelope) (w : W) : Type 0 where
    event : EventEnvelope
    entry : Entry
    there : view (store.stage e w).1 (key_of e) ≡ some entry
    same : event ≡ entry.event
    accepts : refuses policy (hash e) entry ≡ false
    out : (intake.publish event (store.stage e w).1).0 ≡ ok tt
    final :
        (publish_through intake (some store) e w).1
        ≡ (store.mark_sent event (intake.publish event (store.stage e w).1).1).1

  -- A dispatch that returns true has published and marked its event.
  dispatch_true :
      (st : StagedEvent) (w : W)
      → (dispatch_staged intake store st w).0 ≡ ok true
      → ((intake.publish st.event w).0 ≡ ok tt)
        × ((dispatch_staged intake store st w).1
            ≡ (store.mark_sent st.event (intake.publish st.event w).1).1)
  unfolding dispatch_staged
  dispatch_true st w h = elim (Bool-cases (st.state == "sent")) [
    | inl old ↦ absurd (not_published (ap (λ (b : Bool). (branch b w).0) (sym old) ∙ h))
    | inr fresh ↦
        let h' = ap (λ (b : Bool). (branch b w).0) (sym fresh) ∙ h in
        let (u, out, on) = bind-ok (intake.publish st.event) after w true h' in
        let (v, marked, done) =
          bind-ok (store.mark_sent st.event) (λ _. pure true) (intake.publish st.event w).1 true
            (sym (ap (λ (p : Result Bool × W). p.0) on) ∙ h') in
        (out, rw fresh (ap (λ (p : Result Bool × W). p.1) (on ∙ done)))
  ]
    where
      after : Unit {0} → Exec W Bool
      after _ = do store.mark_sent st.event; pure true

      branch : Bool → Exec W Bool
      branch b = if b then pure false else (do intake.publish st.event; after tt)

      not_published : ◌≢◌ {A = Result Bool} (ok false) (ok true)
      not_published p = cc

  Course-of_true :
      (e : EventEnvelope) (w : W)
      → (publish_through intake (some store) e w).0 ≡ ok true
      → Course e w
  unfolding publish_through
  Course-of_true e w h =
      let (st, staged_ok, on) = bind-ok (store.stage e) (dispatch_staged intake store) w true h in
      let (r, there, event, state, accepts) = stage-entry lawful wired e w st staged_ok in
      let (out, final) =
        dispatch_true st (store.stage e w).1 (sym (ap (λ (p : Result Bool × W). p.0) on) ∙ h) in
      record {
        event = st.event;
        entry = r;
        there = there;
        same = event;
        accepts = accepts;
        out = out;
        final = ap (λ (p : Result Bool × W). p.1) on ∙ final;
      }

  -- An event that was accepted is sent, and is among the published ones.
  pub publish_once-accepted :
      (e : EventEnvelope) (w : W)
      → contains intake.direct_sources e.source ≡ false
      → IsSound lawful wired w
      → (publish_once intake e.source e w).0 ≡ ok true
      → IsSent e (publish_once intake e.source e w).1
  publish_once-accepted e w durable sound h =
      let c = Course-of_true e w (rw (durable_path e durable) at h) in
      let w1 = (store.stage e w).1 in
      let w2 = (intake.publish c.event w1).1 in
      let key : key_of c.event ≡ key_of e =
        ap key_of c.same
        ∙ (stage-IsSound lawful wired e w sound).keyed (key_of e) c.entry c.there in
      let kept : view w2 (key_of c.event) ≡ some c.entry =
        wired.view-publish c.event w1 (key_of c.event) ∙ ap (view w1) key ∙ c.there in
      let here = (pair_beq_iff (key_of c.event) (key_of e)).1 key in
      rw (durable_path e durable) (record {
        entry = mark c.entry;
        there =
            ap (λ (w' : W). view w' (key_of e)) c.final
            ∙ lawful.view-mark c.event w2 (key_of e)
            ∙ rw (here, kept) refl;
        sent = refl;
        accepts = refuses-mark policy (hash e) c.entry ∙ c.accepts;
      })

  -- For a source that is not direct, from a sound state: after publish_once returned true for an
  -- event, publish_once of an event with the same source, id and payload hash returns false,
  -- publishes nothing and changes no entry.
  pub publish_once-redelivered :
      (e again : EventEnvelope) (w : W)
      → contains intake.direct_sources e.source ≡ false
      → key_of again ≡ key_of e
      → hash again ≡ hash e
      → IsSound lawful wired w
      → (publish_once intake e.source e w).0 ≡ ok true
      → ((publish_once intake again.source again (publish_once intake e.source e w).1).0 ≡ ok false)
        × (published (publish_once intake again.source again (publish_once intake e.source e w).1).1
            ≡ published (publish_once intake e.source e w).1)
        × ((k : Key)
            → view (publish_once intake again.source again (publish_once intake e.source e w).1).1 k
              ≡ view (publish_once intake e.source e w).1 k)
  publish_once-redelivered e again w durable same_key same_hash sound h =
      let w1 = (publish_once intake e.source e w).1 in
      let first = publish_once-accepted e w durable sound h in
      publish_once-sent again w1
        (ap (λ (k : Key). contains intake.direct_sources k.0) same_key ∙ durable)
        (record {
          entry = first.entry;
          there = ap (view w1) same_key ∙ first.there;
          sent = first.sent;
          accepts = ap (λ (x : String). refuses policy x first.entry) same_hash ∙ first.accepts;
        })
