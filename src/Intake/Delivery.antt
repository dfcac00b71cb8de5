-- ===== src/Intake/Delivery.antt =====
-- What the intake relies on in its store and its publisher, and what it guarantees with them: an
-- event that the store calls sent has been published.
use enterprise_multi_agent_s.Prelude.{
  String, ◌≡◌, ◌≢◌, ◌⊎◌, refl, subst, sym, ap, ◌∙◌, false, Option, some, List, [], ◌∷◌, ◌++◌, arith,
  ◌==◌, eq_iff, eq_refl, Bool-cases, Option-cases, inl, inr, Among, Among-append_last, false≢true,
}
use enterprise_multi_agent_s.Python.Result.{ok}
use enterprise_multi_agent_s.Python.Exec.{after_bind}
use enterprise_multi_agent_s.Python.Dict.{pair_beq, pair_beq_iff}
use enterprise_multi_agent_s.Events.{EventEnvelope}
use enterprise_multi_agent_s.Idempotency.{IdempotencyStore, StagedEvent, Policy}
use enterprise_multi_agent_s.Idempotency.Contract.{
  Entry, Key, key_of, mark, new_entry, IsStore, refuses,
}
use enterprise_multi_agent_s.Python.Set.{contains}
use enterprise_multi_agent_s.Intake.{WebhookIntake, publish_once, publish_through, dispatch_staged}

-- The store and the publisher do not touch one another's part of the world. A publication that
-- raises may have reached the queue or not.
pub record IsWired {W : Type 0} (intake : WebhookIntake W) (store : IdempotencyStore W)
    (view : W → Key → Option Entry) (published : W → List EventEnvelope) : Type 0 where
  pub configured : intake.store ≡ some store
  pub published-stage : (e : EventEnvelope) (w : W) → published (store.stage e w).1 ≡ published w
  pub published-mark : (e : EventEnvelope) (w : W) → published (store.mark_sent e w).1 ≡ published w
  pub view-publish :
      (e : EventEnvelope) (w : W) (k : Key) → view (intake.publish e w).1 k ≡ view w k
  pub publish-ok :
      (e : EventEnvelope) (w : W)
      → (intake.publish e w).0 ≡ ok tt
      → published (intake.publish e w).1 ≡ published w ++ e ∷ []
  pub publish_keeps :
      (e a : EventEnvelope) (w : W)
      → Among a (published w)
      → Among a (published (intake.publish e w).1)

pending_not_sent : ◌≢◌ {A = String} "pending" "sent"
pending_not_sent p = false≢true ((eq_iff "pending" "sent").1 p)

module _ {W : Type 0} {intake : WebhookIntake W} {store : IdempotencyStore W}
    {view : W → Key → Option Entry} {published : W → List EventEnvelope} {policy : Policy}
    {hash : EventEnvelope → String} {stored : EventEnvelope → EventEnvelope}
    (lawful : IsStore store view policy hash stored)
    (wired : IsWired intake store view published) where
  pub record IsSound (w : W) : Type 0 where
    pub keyed : (k : Key) (r : Entry) → view w k ≡ some r → key_of r.event ≡ k
    pub sent :
        (k : Key) (r : Entry) → view w k ≡ some r → r.state ≡ "sent" → Among r.event (published w)

  -- An entry that is there after `stage` was there before, or is the new one.
  stage_cases :
      (e : EventEnvelope) (w : W) (k : Key) (r : Entry)
      → view (store.stage e w).1 k ≡ some r
      → (view w k ≡ some r) ⊎ ((key_of e ≡ k) × (r ≡ new_entry (stored e) (hash e)))
  stage_cases e w k r h =
      let h' = sym (lawful.view-stage e w k) ∙ h in
      elim (Option-cases (view w (key_of e))) [
        | inl absent ↦ ground (arith, pair_beq_iff (key_of e) k)
        | inr (r0, there) ↦ elim (Bool-cases (pair_beq (key_of e) k)) [
          | inl same ↦
              inl (ap (view w) (sym ((pair_beq_iff (key_of e) k).0 same)) ∙ there ∙ ground arith)
          | inr other ↦ inl (ground arith)
        ]
      ]

  pub mark_cases :
      (e : EventEnvelope) (w : W) (k : Key) (r : Entry)
      → view (store.mark_sent e w).1 k ≡ some r
      → (view w k ≡ some r)
        ⊎ ((r0 : Entry) × (key_of e ≡ k) × (view w (key_of e) ≡ some r0) × (r ≡ mark r0))
  mark_cases e w k r h =
      let h' = sym (lawful.view-mark e w k) ∙ h in
      elim (Bool-cases (pair_beq (key_of e) k)) [
        | inl same ↦ elim (Option-cases (view w (key_of e))) [
          | inl absent ↦ absurd (ground arith)
          | inr (r0, there) ↦ inr (r0, (pair_beq_iff (key_of e) k).0 same, there, ground arith)
        ]
        | inr other ↦ inl (ground arith)
      ]

  -- An entry stays there through mark_sent, with its event.
  pub mark_entry :
      (e : EventEnvelope) (w : W) (k : Key) (r : Entry)
      → view w k ≡ some r
      → (r' : Entry) × (view (store.mark_sent e w).1 k ≡ some r') × (r'.event ≡ r.event)
  mark_entry e w k r there = elim (Bool-cases (pair_beq (key_of e) k)) [
    | inl same ↦
        let here : view w (key_of e) ≡ some r =
          ap (view w) ((pair_beq_iff (key_of e) k).0 same) ∙ there in
        (mark r, lawful.view-mark e w k ∙ rw (same, here) refl, refl)
    | inr other ↦ (r, lawful.view-mark e w k ∙ rw other there, refl)
  ]

  pub stage-IsSound : (e : EventEnvelope) (w : W) → IsSound w → IsSound (store.stage e w).1
  stage-IsSound e w s = record {
    keyed = λ k r h. elim (stage_cases e w k r h) [
      | inl old ↦ s.keyed k r old
      | inr (same, new) ↦ ap (λ (x : Entry). key_of x.event) new ∙ lawful.stored_key e ∙ same
    ];
    sent = λ k r h p. rw (wired.published-stage e w) (elim (stage_cases e w k r h) [
      | inl old ↦ s.sent k r old p
      | inr (same, new) ↦ absurd (pending_not_sent (sym (ap (λ (x : Entry). x.state) new) ∙ p))
    ]);
  }

  pub publish-IsSound : (e : EventEnvelope) (w : W) → IsSound w → IsSound (intake.publish e w).1
  publish-IsSound e w s = record {
    keyed = λ k r h. s.keyed k r (sym (wired.view-publish e w k) ∙ h);
    sent = λ k r h p.
        wired.publish_keeps e r.event w (s.sent k r (sym (wired.view-publish e w k) ∙ h) p);
  }

  pub mark-IsSound :
      (e : EventEnvelope) (w : W)
      → IsSound w
      → ((r : Entry) → view w (key_of e) ≡ some r → Among r.event (published w))
      → IsSound (store.mark_sent e w).1
  mark-IsSound e w s out = record {
    keyed = λ k r h. elim (mark_cases e w k r h) [
      | inl old ↦ s.keyed k r old
      | inr (r0, same, there, new) ↦
          ap (λ (x : Entry). key_of x.event) new ∙ s.keyed k r0 (ap (view w) (sym same) ∙ there)
    ];
    sent = λ k r h p. rw (wired.published-mark e w) (elim (mark_cases e w k r h) [
      | inl old ↦ s.sent k r old p
      | inr (r0, same, there, new) ↦ rw new (out r0 there)
    ]);
  }

  accepts_own_hash :
      (e : EventEnvelope) (h : String)
      → refuses policy h (record { event = stored e; state = "pending"; payload_hash = h }) ≡ false
  accepts_own_hash e h = ground (arith, eq_refl h)

  -- What `stage` returns is the entry that the store then holds.
  pub stage-entry :
      (e : EventEnvelope) (w : W) (st : StagedEvent)
      → (store.stage e w).0 ≡ ok st
      → (r : Entry) × (view (store.stage e w).1 (key_of e) ≡ some r)
        × (st.event ≡ r.event)
        × (st.state ≡ r.state)
        × (refuses policy (hash e) r ≡ false)
  stage-entry e w st h =
      let result = sym (lawful.stage-result e w) ∙ h in
      let after = lawful.view-stage e w (key_of e) in
      let here = pair_beq_iff (key_of e) (key_of e) in
      elim (Option-cases (view w (key_of e))) [
        | inl absent ↦ (
          new_entry (stored e) (hash e),
          ground arith,
          ground arith,
          ground arith,
          accepts_own_hash e (hash e),
        )
        | inr (r0, there) ↦ (r0, ground arith, ground arith, ground arith, ground arith)
      ]

  dispatch-IsSound :
      (st : StagedEvent) (w : W)
      → IsSound w
      → (r : Entry) → view w (key_of st.event) ≡ some r
      → st.event ≡ r.event
      → IsSound (dispatch_staged intake store st w).1
  unfolding dispatch_staged
  dispatch-IsSound st w s r there same = elim (Bool-cases (st.state == "sent")) [
    | inl old ↦ rw old s
    | inr fresh ↦ rw fresh (
        after_bind IsSound (intake.publish st.event) _ w (λ x failed. publish-IsSound st.event w s)
          λ u done.
            let w' = (intake.publish st.event w).1 in
            let out : (r' : Entry)
                → view w' (key_of st.event) ≡ some r'
                → Among r'.event (published w') =
              λ r' h.
                let seen_twice : some r ≡ some r' =
                  sym there ∙ sym (wired.view-publish st.event w (key_of st.event)) ∙ h in
                let first : r ≡ r' = cc in
                rw (wired.publish-ok st.event w done) (
                  subst (λ (e : EventEnvelope). Among e (published w ++ st.event ∷ []))
                    (same ∙ ap (λ (x : Entry). x.event) first)
                    (Among-append_last st.event (published w))) in
            let marked = mark-IsSound st.event w' (publish-IsSound st.event w s) out in
            after_bind IsSound (store.mark_sent st.event) _ w' (λ x failed. marked)
              (λ v done. marked))
  ]

  publish_through-IsSound :
      (e : EventEnvelope) (w : W) → IsSound w → IsSound (publish_through intake (some store) e w).1
  unfolding publish_through
  publish_through-IsSound e w s =
      let s' = stage-IsSound e w s in
      after_bind IsSound (store.stage e) _ w (λ x failed. s')
        λ st h.
          let (r, there, event, state, accepts) = stage-entry e w st h in
          let key : key_of e ≡ key_of st.event =
            sym (ap key_of event ∙ s'.keyed (key_of e) r there) in
          dispatch-IsSound st (store.stage e w).1 s' r (rw (← key) there) event

  -- For a store that keeps its contract and a publisher apart from it: a state in which every
  -- entry stands under its event's key and every entry marked sent has its event among the
  -- published ones is still such a state after publish_once of any event under any source,
  -- whichever of the stage, the send or the mark raises.
  pub publish_once-IsSound :
      (source : String) (e : EventEnvelope) (w : W)
      → IsSound w
      → IsSound (publish_once intake source e w).1
  unfolding publish_once
  publish_once-IsSound source e w s = elim (Bool-cases (source == e.source)) [
    | inr other ↦ rw other s
    | inl own ↦ elim (Bool-cases (contains intake.direct_sources source)) [
      | inl direct ↦
          rw (own, direct)
            (after_bind IsSound (intake.publish e) _ w (λ x failed. publish-IsSound e w s)
              (λ u done. publish-IsSound e w s))
      | inr durable ↦ rw (own, durable, wired.configured) (publish_through-IsSound e w s)
    ]
  ]
