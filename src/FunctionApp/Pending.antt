-- ===== src/FunctionApp/Pending.antt =====
-- The recovery of events that the intake left pending.
use enterprise_multi_agent_s.Prelude.{
  String, ◌≡◌, refl, sym, ap, subst, ◌∙◌, inl, inr, Option, some, List, [], ◌∷◌, ◌++◌, Bool-cases,
  All, Among, Among-append_last,
}
use enterprise_multi_agent_s.Python.Result.{Result, ok, err, err-ok}
use enterprise_multi_agent_s.Python.Exec.{after_bind, after_catch, bind_of_ok, handle, pure, ◌>>◌}
use enterprise_multi_agent_s.Python.Dict.{pair_beq, pair_eq, pair_beq_iff, beq_refl}
use enterprise_multi_agent_s.Events.{EventEnvelope}
use enterprise_multi_agent_s.Idempotency.{IdempotencyStore, Policy}
use enterprise_multi_agent_s.Idempotency.Contract.{Entry, Key, key_of, mark, IsStore}
use enterprise_multi_agent_s.Intake.{WebhookIntake}
use enterprise_multi_agent_s.Intake.Delivery.{
  IsWired, IsSound, publish-IsSound, mark-IsSound, mark_entry,
}
use enterprise_multi_agent_s.FunctionApp.{
  dispatch_pending, dispatch_each, dispatch_pending_webhooks,
}

module _ {W : Type 0} {intake : WebhookIntake W} {store : IdempotencyStore W}
    {view : W → Key → Option Entry} {published : W → List EventEnvelope} {policy : Policy}
    {hash : EventEnvelope → String} {stored : EventEnvelope → EventEnvelope}
    (lawful : IsStore store view policy hash stored)
    (wired : IsWired intake store view published) where
  -- The event is the one that the store holds under its key.
  abbrev pub IsListed : W → EventEnvelope → Type 0
  IsListed w e = (r : Entry) × (view w (key_of e) ≡ some r) × (e ≡ r.event)

  -- Soundness, and the listing of the events still to send.
  abbrev Ready : List EventEnvelope → W → Type 0
  Ready es w = IsSound lawful wired w × All (IsListed w) es

  IsListed-publish :
      (e : EventEnvelope) (w : W) (es : List EventEnvelope)
      → All (IsListed w) es
      → All (IsListed (intake.publish e w).1) es
  IsListed-publish e w [] l = tt
  IsListed-publish e w (a ∷ es) ((r, there, same), l) =
      ((r, wired.view-publish e w (key_of a) ∙ there, same), IsListed-publish e w es l)

  IsListed-mark :
      (e : EventEnvelope) (w : W) (es : List EventEnvelope)
      → All (IsListed w) es
      → All (IsListed (store.mark_sent e w).1) es
  IsListed-mark e w [] l = tt
  IsListed-mark e w (a ∷ es) ((r, there, same), l) =
      let (r', now, kept) = mark_entry lawful wired e w (key_of a) r there in
      ((r', now, same ∙ sym kept), IsListed-mark e w es l)

  publish-Ready :
      (e : EventEnvelope) (es : List EventEnvelope) (w : W)
      → Ready (e ∷ es) w
      → Ready (e ∷ es) (intake.publish e w).1
  publish-Ready e es w (sound, l) =
      (publish-IsSound lawful wired e w sound, IsListed-publish e w (e ∷ es) l)

  -- The send and the mark of one event.
  send-Ready :
      (e : EventEnvelope) (es : List EventEnvelope) (w : W)
      → Ready (e ∷ es) w
      → Ready es ((do intake.publish e; store.mark_sent e) w).1
  send-Ready e es w ready =
      let (sound, listed) = publish-Ready e es w ready in
      let w' = (intake.publish e w).1 in
      after_bind (Ready es) (intake.publish e) (λ u. store.mark_sent e) w
        (λ x failed. (sound, listed.1))
        λ u done.
          let out : (r : Entry) → view w' (key_of e) ≡ some r → Among r.event (published w') =
            λ r h.
              let both : some listed.0.0 ≡ some r = sym listed.0.1 ∙ h in
              let one : listed.0.0 ≡ r = cc in
              rw (wired.publish-ok e w done) (
                subst (λ (a : EventEnvelope). Among a (published w ++ e ∷ []))
                  (listed.0.2 ∙ ap (λ (x : Entry). x.event) one)
                  (Among-append_last e (published w))) in
          (mark-IsSound lawful wired e w' sound out, IsListed-mark e w' es listed.1)

  dispatch-Ready :
      (e : EventEnvelope) (es : List EventEnvelope) (w : W)
      → Ready (e ∷ es) w
      → Ready es (dispatch_pending store intake.publish e w).1
  unfolding dispatch_pending
  dispatch-Ready e es w ready =
      after_catch (Ready es) (do intake.publish e; store.mark_sent e) (λ x. pure tt) w
        (send-Ready e es w ready) (λ x failed. send-Ready e es w ready)

  each-IsSound :
      (es : List EventEnvelope) (w : W)
      → Ready es w
      → IsSound lawful wired (dispatch_each store intake.publish es w).1
  unfolding dispatch_each
  each-IsSound [] w ready = ready.0
  each-IsSound (e ∷ es) w ready =
      let next = dispatch-Ready e es w ready in
      after_bind (IsSound lawful wired) (dispatch_pending store intake.publish e)
        (λ u. dispatch_each store intake.publish es) w (λ x failed. next.0)
        (λ u done. each-IsSound es (dispatch_pending store intake.publish e w).1 next)

  -- For a store that keeps its contract, a publisher apart from it, and a listing of pending
  -- events that the store holds: a sound state, in which every entry marked sent has its event
  -- among the published ones, is sound after dispatch_pending_webhooks, whichever sends and marks
  -- raise.
  pub dispatch_pending_webhooks-IsSound :
      (w : W) (es : List EventEnvelope)
      → store.pending 100 w ≡ (ok es, w)
      → All (IsListed w) es
      → IsSound lawful wired w
      → IsSound lawful wired (dispatch_pending_webhooks store intake.publish w).1
  unfolding dispatch_pending_webhooks
  dispatch_pending_webhooks-IsSound w es read listed sound =
      rw read (each-IsSound es w (sound, listed))

  -- Every send works.
  abbrev pub SendsWork : Type 0
  SendsWork = (e : EventEnvelope) (w : W) → (intake.publish e w).0 ≡ ok tt

  abbrev pub IsMarked : W → EventEnvelope → Type 0
  IsMarked w e = (r : Entry) × (view w (key_of e) ≡ some r) × (r.state ≡ "sent")

  mark_marks : (e a : EventEnvelope) (w : W) → IsMarked w a → IsMarked (store.mark_sent e w).1 a
  mark_marks e a w (r, there, state) = elim (Bool-cases (pair_beq (key_of e) (key_of a))) [
    | inl same ↦
        let here : view w (key_of e) ≡ some r =
          ap (view w) ((pair_beq_iff (key_of e) (key_of a)).0 same) ∙ there in
        (mark r, lawful.view-mark e w (key_of a) ∙ rw (same, here) refl, refl)
    | inr other ↦ (r, lawful.view-mark e w (key_of a) ∙ rw other there, state)
  ]

  publish_marks : (e a : EventEnvelope) (w : W) → IsMarked w a → IsMarked (intake.publish e w).1 a
  publish_marks e a w (r, there, state) = (r, wired.view-publish e w (key_of a) ∙ there, state)

  dispatch_marks :
      (e a : EventEnvelope) (w : W)
      → IsMarked w a
      → IsMarked (dispatch_pending store intake.publish e w).1 a
  unfolding dispatch_pending
  dispatch_marks e a w marked =
      let sent = publish_marks e a w marked in
      let both =
        after_bind (λ (x : W). IsMarked x a) (intake.publish e) (λ u. store.mark_sent e) w
          (λ x failed. sent) (λ u done. mark_marks e a (intake.publish e w).1 sent) in
      after_catch (λ (x : W). IsMarked x a) (do intake.publish e; store.mark_sent e) (λ x. pure tt)
        w both (λ x failed. both)

  -- The event itself is marked when its send works.
  dispatch_marks_own :
      SendsWork
      → (e : EventEnvelope) (w : W) → IsListed w e
      → IsMarked (dispatch_pending store intake.publish e w).1 e
  unfolding dispatch_pending
  dispatch_marks_own works e w (r, there, same) =
      let w' = (intake.publish e w).1 in
      let here : view w' (key_of e) ≡ some r = wired.view-publish e w (key_of e) ∙ there in
      let own : IsMarked (store.mark_sent e w').1 e =
        (mark r, lawful.view-mark e w' (key_of e) ∙ rw (beq_refl (key_of e), here) refl, refl) in
      let both =
        after_bind (λ (x : W). IsMarked x e) (intake.publish e) (λ u. store.mark_sent e) w
          (λ x failed. absurd (err-ok (sym failed ∙ works e w))) (λ u done. own) in
      after_catch (λ (x : W). IsMarked x e) (do intake.publish e; store.mark_sent e) (λ x. pure tt)
        w both (λ x failed. both)

  -- No exception leaves the loop's body.
  handled : (r : Result (Unit {0})) (w : W) → (handle r (λ x. pure tt) w).0 ≡ ok tt
  handled (ok u) w = refl
  handled (err x) w = refl

  dispatch-ok : (e : EventEnvelope) (w : W) → (dispatch_pending store intake.publish e w).0 ≡ ok tt
  unfolding dispatch_pending
  dispatch-ok e w = handled ((do intake.publish e; store.mark_sent e) w).0 _

  each_marks :
      (a : EventEnvelope) (es : List EventEnvelope) (w : W)
      → IsMarked w a
      → IsMarked (dispatch_each store intake.publish es w).1 a
  unfolding dispatch_each
  each_marks a [] w marked = marked
  each_marks a (e ∷ es) w marked =
      let next = dispatch_marks e a w marked in
      after_bind (λ (x : W). IsMarked x a) (dispatch_pending store intake.publish e)
        (λ u. dispatch_each store intake.publish es) w (λ x failed. next)
        (λ u done. each_marks a es _ next)

  IsListed-dispatch :
      (e : EventEnvelope) (w : W) (es : List EventEnvelope)
      → All (IsListed w) es
      → All (IsListed (dispatch_pending store intake.publish e w).1) es
  unfolding dispatch_pending
  IsListed-dispatch e w es l =
      let P = λ (x : W). All (IsListed x) es in
      let sent = IsListed-publish e w es l in
      let both =
        after_bind P (intake.publish e) (λ u. store.mark_sent e) w (λ x failed. sent)
          (λ u done. IsListed-mark e (intake.publish e w).1 es sent) in
      after_catch P (do intake.publish e; store.mark_sent e) (λ x. pure tt) w both
        (λ x failed. both)

  each_marks-All :
      SendsWork
      → (es : List EventEnvelope) (w : W) → All (IsListed w) es
      → All (IsMarked (dispatch_each store intake.publish es w).1) es
  unfolding dispatch_each
  each_marks-All works [] w l = tt
  each_marks-All works (e ∷ es) w (here, l) =
      let w' = (dispatch_pending store intake.publish e w).1 in
      let own = dispatch_marks_own works e w here in
      let rest = dispatch_each store intake.publish es in
      subst (λ (x : Result (Unit {0}) × W). All (IsMarked x.1) (e ∷ es))
        (sym
          (bind_of_ok (dispatch_pending store intake.publish e) (λ u. rest) w tt (dispatch-ok e w)))
        (each_marks e es w' own, each_marks-All works es w' (IsListed-dispatch e w es l))

  -- For a store that keeps its contract and a publisher whose sends all return: after
  -- dispatch_pending_webhooks the entry of every event that the store listed as pending, and
  -- holds, is marked sent.
  pub dispatch_pending_webhooks-IsMarked :
      (w : W) (es : List EventEnvelope)
      → store.pending 100 w ≡ (ok es, w)
      → All (IsListed w) es
      → SendsWork
      → All (IsMarked (dispatch_pending_webhooks store intake.publish w).1) es
  unfolding dispatch_pending_webhooks
  dispatch_pending_webhooks-IsMarked w es read listed works =
      rw read (each_marks-All works es w listed)
