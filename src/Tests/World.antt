-- ===== src/Tests/World.antt =====
-- A world with a memory store and a queue whose sends succeed or fail by a script.
use enterprise_multi_agent_s.Prelude.{
  ◌≡◌, refl, Bool, true, false, Option, none, some, List, [], ◌∷◌, ◌++◌, Among, Among-append_left,
}
use enterprise_multi_agent_s.Python.Result.{ok, err, external_error}
use enterprise_multi_agent_s.Python.Exec.{Exec}
use enterprise_multi_agent_s.Events.{EventEnvelope, event_payload_hash}
use enterprise_multi_agent_s.Idempotency.{IdempotencyStore, reject}
use enterprise_multi_agent_s.Idempotency.Contract.{Entry, Key, IsStore}
use enterprise_multi_agent_s.Idempotency.Memory.{MemoryIdempotencyStore, memory_store}
use enterprise_multi_agent_s.Idempotency.Memory.Laws.{memory-IsStore}
use enterprise_multi_agent_s.Idempotency.Memory.Laws
use enterprise_multi_agent_s.Intake.{WebhookIntake}
use enterprise_multi_agent_s.Intake.Delivery.{IsWired}
use enterprise_multi_agent_s.Tests.Samples.{sample_runtime}

pub record World : Type 0 where
  pub outbox : MemoryIdempotencyStore
  pub queue : List EventEnvelope
  pub script : List Bool

abbrev on_outbox {ℓ} : {A : Type ℓ} → Exec MemoryIdempotencyStore A → Exec World A
on_outbox m w = ((m w.outbox).0, record w { outbox = (m w.outbox).1 })

abbrev pub store : IdempotencyStore World
store = record {
  get = λ source id. on_outbox ((memory_store sample_runtime reject).get source id);
  stage = λ e. on_outbox ((memory_store sample_runtime reject).stage e);
  mark_sent = λ e. on_outbox ((memory_store sample_runtime reject).mark_sent e);
  pending = λ n. on_outbox ((memory_store sample_runtime reject).pending n);
}

-- A send that the script fails raises and reaches nothing.
abbrev send_at : List Bool → EventEnvelope → Exec World (Unit {0})
send_at [] e w = (ok tt, record w { queue = w.queue ++ e ∷ [] })
send_at (true ∷ s) e w = (ok tt, record w { queue = w.queue ++ e ∷ []; script = s })
send_at (false ∷ s) e w = (err (external_error "send failed"), record w { script = s })

abbrev pub intake : WebhookIntake World
intake = record {
  store = some store;
  publish = λ e w. send_at w.script e w;
  github_policy = none;
  github_quota = none;
  github_daily_limit = 100;
  direct_sources = "onedrive" ∷ [];
}

abbrev pub view : World → Key → Option Entry
view w = Laws.view w.outbox

abbrev base :
    IsStore
      (memory_store sample_runtime reject)
      Laws.view
      reject
      (event_payload_hash sample_runtime)
      (λ e. e)
base = memory-IsStore sample_runtime reject

pub store-IsStore : IsStore store view reject (event_payload_hash sample_runtime) (λ e. e)
store-IsStore = record {
  stored_key = base.stored_key;
  get_lem = λ source id w.
      λ i. let p = base.get_lem source id w.outbox in ((p i).0, record w { outbox = (p i).1 });
  stage-result = λ e w. base.stage-result e w.outbox;
  view-stage = λ e w k. base.view-stage e w.outbox k;
  mark-result = λ e w. base.mark-result e w.outbox;
  view-mark = λ e w k. base.view-mark e w.outbox k;
}

send-view :
    (s : List Bool) (e : EventEnvelope) (w : World) (k : Key) → view (send_at s e w).1 k ≡ view w k
send-view [] e w k = refl
send-view (true ∷ s) e w k = refl
send-view (false ∷ s) e w k = refl

send-ok :
    (s : List Bool) (e : EventEnvelope) (w : World)
    → (send_at s e w).0 ≡ ok tt
    → (send_at s e w).1.queue ≡ w.queue ++ e ∷ []
send-ok [] e w h = refl
send-ok (true ∷ s) e w h = refl
send-ok (false ∷ s) e w h = cc

send_keeps :
    (s : List Bool) (e a : EventEnvelope) (w : World)
    → Among a w.queue
    → Among a (send_at s e w).1.queue
send_keeps [] e a w h = Among-append_left a w.queue (e ∷ []) h
send_keeps (true ∷ s) e a w h = Among-append_left a w.queue (e ∷ []) h
send_keeps (false ∷ s) e a w h = h

pub intake-IsWired : IsWired intake store view (λ w. w.queue)
intake-IsWired = record {
  configured = refl;
  published-stage = λ e w. refl;
  published-mark = λ e w. refl;
  view-publish = λ e w k. send-view w.script e w k;
  publish-ok = λ e w h. send-ok w.script e w h;
  publish_keeps = λ e a w h. send_keeps w.script e a w h;
}

abbrev pub start : List Bool → World
start script = record { outbox = record { values = [] }; queue = []; script = script }
