-- ===== src/Tests/Quotas.antt =====
-- The memory quota.

use enterprise_multi_agent_s.Prelude.{
  ◌≤◌, String, ◌≡◌, refl, inl, true, some, [], ◌∷◌, arith, length,
}
use enterprise_multi_agent_s.Python.Result.{ok}
use enterprise_multi_agent_s.Python.Dict
use enterprise_multi_agent_s.Python.Dict.{Dict, string_eq}
use enterprise_multi_agent_s.Python.Set.{contains}
use enterprise_multi_agent_s.Python.Text.{lower, strip, decimal}
use enterprise_multi_agent_s.Quota
use enterprise_multi_agent_s.Quota.{
  MemoryDailyQuota, accepted_at, Call, digest, request, partition_key,
}
use enterprise_multi_agent_s.Quota.Bound.{run, granted, granted-Distinct-le, allow-granted_again}
use enterprise_multi_agent_s.Tests.Samples.{sample_runtime, print}

program : Unit {0}
unfolding Dict.get print request Quota.allow Dict.put contains granted run lower strip decimal
program = tt

abbrev call : String → Call
call id = record { clock = some "2026-01-01"; repository = "Org/Repo"; event_id = id; limit = 1 }

abbrev key : String × String
key = (digest sample_runtime "repository" "org/repo", digest sample_runtime "date" "2026-01-01")

abbrev event_digest : String
event_digest = digest sample_runtime "event" "d1"

-- Two events under a limit of one: the first alone is granted.
granted-Distinct-le_example : length (event_digest ∷ []) ≤ 1
unfolding program
granted-Distinct-le_example =
    granted-Distinct-le sample_runtime 1 (call "d1" ∷ call "d2" ∷ []) key
      (omega arith, (omega arith, tt)) (event_digest ∷ []) (λ m. m, tt) (inl refl, tt)

abbrev empty : MemoryDailyQuota
empty = record { events = [] }

-- The event is granted again behind a refused one.
allow-granted_again_example :
    ((Quota.allow sample_runtime
        (call "d1")
        (run sample_runtime (call "d2" ∷ []) (Quota.allow sample_runtime (call "d1") empty).1)).0
      ≡ ok true)
    × (accepted_at
          (Quota.allow sample_runtime (call "d1") (
            run sample_runtime (call "d2" ∷ []) (Quota.allow sample_runtime (call "d1") empty).1)).1
          key
        ≡ accepted_at
            (run sample_runtime (call "d2" ∷ []) (Quota.allow sample_runtime (call "d1") empty).1)
            key)
unfolding program
allow-granted_again_example =
    allow-granted_again sample_runtime (call "d1") (call "d1") (call "d2" ∷ []) empty key key
      event_digest refl refl refl
