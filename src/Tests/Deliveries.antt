-- ===== src/Tests/Deliveries.antt =====
-- Deliveries through the memory store.
use enterprise_multi_agent_s.Prelude.{◌≡◌, refl, true, false, [], ◌∷◌}
use enterprise_multi_agent_s.Python.Result.{ok}
use enterprise_multi_agent_s.Python.Dict
use enterprise_multi_agent_s.Events.{EventEnvelope, event_payload_hash}
use enterprise_multi_agent_s.Idempotency.{reject}
use enterprise_multi_agent_s.Idempotency.Contract.{Key, IsStore}
use enterprise_multi_agent_s.Idempotency.Memory.{memory_store}
use enterprise_multi_agent_s.Idempotency.Memory.Laws.{memory-IsStore}
use enterprise_multi_agent_s.Idempotency.Memory.Laws
use enterprise_multi_agent_s.Idempotency.Memory
use enterprise_multi_agent_s.Python.Set.{contains}
use enterprise_multi_agent_s.Intake.{publish_once}
use enterprise_multi_agent_s.Intake.Delivery.{IsSound, publish_once-IsSound}
use enterprise_multi_agent_s.Intake.Redelivery.{publish_once-redelivered}
use enterprise_multi_agent_s.Tests.Samples.{print, opened, sample_runtime}
use enterprise_multi_agent_s.Tests.World.{intake, view, store-IsStore, intake-IsWired, start}

start-IsSound : (script : _) → IsSound store-IsStore intake-IsWired (start script)
unfolding Dict.get
start-IsSound script = record { keyed = λ k r h. cc; sent = λ k r h p. cc }

-- The first send fails, and the state stays sound.
publish_once-IsSound_example :
    IsSound store-IsStore intake-IsWired
      (publish_once intake "github" opened (start (false ∷ []))).1
publish_once-IsSound_example =
    publish_once-IsSound store-IsStore intake-IsWired "github" opened (start (false ∷ []))
      (start-IsSound (false ∷ []))

program : Unit {0}
unfolding publish_once Memory.stage Memory.mark_sent Dict.get Dict.put contains event_payload_hash
    print
program = tt

abbrev again : EventEnvelope
again = record opened { received_at = "2026-01-01T00:00:09+00:00" }

first_accepted : (publish_once intake "github" opened (start [])).0 ≡ ok true
unfolding program
first_accepted = refl

publish_once-redelivered_example :
    ((publish_once intake "github" again (publish_once intake "github" opened (start [])).1).0
      ≡ ok false)
    × ((publish_once intake "github" again
          (publish_once intake "github" opened (start [])).1).1.queue
        ≡ (publish_once intake "github" opened (start [])).1.queue)
    × ((k : Key)
        → view
            (publish_once intake "github" again
              (publish_once intake "github" opened (start [])).1).1
            k
          ≡ view (publish_once intake "github" opened (start [])).1 k)
unfolding program
publish_once-redelivered_example =
    publish_once-redelivered store-IsStore intake-IsWired opened again (start []) refl refl refl
      (start-IsSound []) first_accepted

memory-IsStore_example :
    IsStore
      (memory_store sample_runtime reject)
      Laws.view
      reject
      (event_payload_hash sample_runtime)
      (λ e. e)
memory-IsStore_example = memory-IsStore sample_runtime reject
