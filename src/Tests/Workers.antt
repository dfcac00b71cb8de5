-- ===== src/Tests/Workers.antt =====
-- The worker and the timers over the memory store.
use enterprise_multi_agent_s.Prelude.{
  ◌≡◌, refl, sym, ap, ◌∙◌, false, false≢true, eq_iff, Option, none, some, [], ◌∷◌, ◌++◌, All,
  Bool-cases, inl, inr, Among-append_left,
}
use enterprise_multi_agent_s.Python.Result.{ok}
use enterprise_multi_agent_s.Python.Exec.{Exec}
use enterprise_multi_agent_s.Python.Dict
use enterprise_multi_agent_s.Python.Dict.{pair_beq, pair_beq_iff}
use enterprise_multi_agent_s.Intake.{WebhookIntake}
use enterprise_multi_agent_s.Python.Json
use enterprise_multi_agent_s.Python.Json.{field, end, str}
use enterprise_multi_agent_s.Events.{EventEnvelope}
use enterprise_multi_agent_s.Idempotency.{reject, IdempotencyStore}
use enterprise_multi_agent_s.Idempotency.Contract.{Entry, Key, key_of}
use enterprise_multi_agent_s.Idempotency.Memory.{MemoryIdempotencyStore, memory_store}
use enterprise_multi_agent_s.Idempotency.Memory
use enterprise_multi_agent_s.Idempotency.Memory.Laws.{memory-IsStore}
use enterprise_multi_agent_s.Intake.Delivery.{IsSound, IsWired}
use enterprise_multi_agent_s.Analysis.{ProviderRouter}
use enterprise_multi_agent_s.Worker.{
  ProcessingResult, to_private_record, from_private_record, EventProcessor, analyze_once,
}
use enterprise_multi_agent_s.Worker.Records.{
  from_private_record-to_private_record, analyze_once-resumes,
}
use enterprise_multi_agent_s.FunctionApp.{
  Services, private_event, process_resolved, dispatch_pending_webhooks,
}
use enterprise_multi_agent_s.FunctionApp.Pending.{
  IsMarked, dispatch_pending_webhooks-IsSound, dispatch_pending_webhooks-IsMarked,
}
use enterprise_multi_agent_s.FunctionApp.Results.{
  process_resolved-resumes, process_resolved-HasResult, IsApart, HasResult,
}
use enterprise_multi_agent_s.Tests.Samples.{sample_runtime, opened}
use enterprise_multi_agent_s.Tests.World.{World, view, intake, store, store-IsStore, intake-IsWired}

abbrev result : ProcessingResult
result = record {
  event_id = "d1";
  correlation_id = "d1";
  status = "completed";
  output = field "n" (str "1") end;
  checkpoint = field "drive_id" (str "d") end;
}

from_private_record-to_private_record_example :
    from_private_record sample_runtime (to_private_record result) ≡ ok result
from_private_record-to_private_record_example =
    from_private_record-to_private_record sample_runtime result refl refl refl

abbrev memory : IdempotencyStore MemoryIdempotencyStore
memory = memory_store sample_runtime reject

abbrev holding : Key → EventEnvelope → MemoryIdempotencyStore
holding k e = record {
  values = (k, record { event = e; state = "pending"; payload_hash = "h" }) ∷ [];
}

abbrev router : ProviderRouter MemoryIdempotencyStore
router = record { providers = []; default_provider = "openai" }

abbrev processor : EventProcessor MemoryIdempotencyStore
processor = record {
  router = router;
  retrieve_background = none;
  onedrive = none;
  retrieve_openai_callbacks = false;
  processing_store = some memory;
  resolve = none;
}

lookup : Unit {0}
unfolding Dict.get
lookup = tt

abbrev checkpointed : MemoryIdempotencyStore
checkpointed = holding ("analysis-checkpoint", "github:d1:claude") opened

analyze_once-resumes_example :
    analyze_once sample_runtime processor memory opened "claude" checkpointed
    ≡ analyze_once sample_runtime
        (record processor { router = record router { default_provider = "both" } })
        memory
        opened
        "claude"
        checkpointed
unfolding lookup
analyze_once-resumes_example =
    analyze_once-resumes sample_runtime (memory-IsStore sample_runtime reject) processor
      (record router { default_provider = "both" }) opened "claude" checkpointed
      (record { event = opened; state = "pending"; payload_hash = "h" }) refl

abbrev services : Services MemoryIdempotencyStore
services = record {
  result_store = memory;
  publish_result = λ e w. (ok tt, w);
  resolve = none;
  process = λ e w. (ok result, w);
  acknowledge = λ r w. (ok tt, w);
  abandon = λ r w. (ok tt, w);
}

abbrev finished : MemoryIdempotencyStore
finished = holding ("result-outbox", "github:d1") (private_event opened result)

abbrev other_process : EventEnvelope → Exec MemoryIdempotencyStore ProcessingResult
other_process e w = (ok (record result { status = "failed" }), w)

process_resolved-resumes_example :
    process_resolved sample_runtime services opened finished
    ≡ process_resolved sample_runtime
        (record services { process = other_process; abandon = λ r w. (ok tt, w) })
        opened
        finished
unfolding lookup
process_resolved-resumes_example =
    process_resolved-resumes sample_runtime services (memory-IsStore sample_runtime reject)
      other_process (λ r w. (ok tt, w)) opened finished
      (record { event = private_event opened result; state = "pending"; payload_hash = "h" }) refl

services-IsApart : IsApart sample_runtime services (memory-IsStore sample_runtime reject)
services-IsApart = record {
  resolve_keeps = λ resolve none_there e w k. absurd cc;
  publish_keeps = λ e w k. refl;
  acknowledge_keeps = λ r w k. refl;
  abandon_keeps = λ r w k. refl;
}

abbrev nothing : MemoryIdempotencyStore
nothing = record { values = [] }

running : Unit {0}
unfolding process_resolved Dict.get Dict.put Memory.get Memory.stage Memory.mark_sent
    from_private_record Json.get Json.has Json.text_or_empty Json.truthy Json.to_text
    to_private_record
running = tt

processed : (process_resolved sample_runtime services opened nothing).0 ≡ ok tt
unfolding running
processed = refl

process_resolved-HasResult_example :
    HasResult sample_runtime services
      (memory-IsStore sample_runtime reject)
      opened
      (process_resolved sample_runtime services opened nothing).1
process_resolved-HasResult_example =
    process_resolved-HasResult sample_runtime services (memory-IsStore sample_runtime reject)
      services-IsApart opened nothing processed

-- One event is pending, and the first send fails.
abbrev left_over : World
left_over = record { outbox = holding ("github", "d1") opened; queue = []; script = false ∷ [] }

waiting : Unit {0}
unfolding Dict.get Memory.pending
waiting = tt

abbrev kept : Entry
kept = record { event = opened; state = "pending"; payload_hash = "h" }

-- The only entry.
only : (k : Key) (r : Entry) → view left_over k ≡ some r → (("github", "d1") ≡ k) × (kept ≡ r)
unfolding waiting
only k r h = elim (Bool-cases (pair_beq ("github", "d1") k)) [
  | inl same ↦
      let there : some kept ≡ some r = rw same at h in
      let one : kept ≡ r = cc in ((pair_beq_iff ("github", "d1") k).0 same, one)
  | inr other ↦ let gone : ◌≡◌ {A = Option Entry} none (some r) = rw other at h in absurd cc
]

left_over-IsSound :
    {i : WebhookIntake World} (wired : IsWired i store view (λ w. w.queue))
    → IsSound store-IsStore wired left_over
left_over-IsSound wired = record {
  keyed = λ k r h. let o = only k r h in ap (λ (e : Entry). key_of e.event) (sym o.1) ∙ o.0;
  sent = λ k r h p.
      let o = only k r h in
      absurd (false≢true ((eq_iff "pending" "sent").1 (ap (λ (e : Entry). e.state) o.1 ∙ p)));
}

dispatch_pending_webhooks-IsSound_example :
    IsSound store-IsStore intake-IsWired
      (dispatch_pending_webhooks store intake.publish left_over).1
unfolding waiting
dispatch_pending_webhooks-IsSound_example =
    dispatch_pending_webhooks-IsSound store-IsStore intake-IsWired left_over (opened ∷ []) refl
      ((kept, refl, refl), tt) (left_over-IsSound intake-IsWired)

abbrev send : EventEnvelope → Exec World (Unit {0})
send e w = (ok tt, record w { queue = w.queue ++ e ∷ [] })

abbrev working : WebhookIntake World
working = record intake { publish = send }

working-IsWired : IsWired working store view (λ w. w.queue)
working-IsWired = record {
  configured = refl;
  published-stage = λ e w. refl;
  published-mark = λ e w. refl;
  view-publish = λ e w k. refl;
  publish-ok = λ e w h. refl;
  publish_keeps = λ e a w h. Among-append_left a w.queue (e ∷ []) h;
}

dispatch_pending_webhooks-IsMarked_example :
    All
      (IsMarked store-IsStore working-IsWired (dispatch_pending_webhooks store send left_over).1)
      (opened ∷ [])
unfolding waiting
dispatch_pending_webhooks-IsMarked_example =
    dispatch_pending_webhooks-IsMarked store-IsStore working-IsWired left_over (opened ∷ []) refl
      ((kept, refl, refl), tt) (λ e w. refl)
