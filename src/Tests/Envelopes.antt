-- ===== src/Tests/Envelopes.antt =====
-- Envelopes.
use enterprise_multi_agent_s.Prelude.{◌≡◌, []}
use enterprise_multi_agent_s.Python.Result.{ok}
use enterprise_multi_agent_s.Events.{from_dict, to_dict, from_json, to_json}
use enterprise_multi_agent_s.Events.RoundTrip.{in_order, from_dict-to_dict, from_json-to_json}
use enterprise_multi_agent_s.Idempotency.{reject}
use enterprise_multi_agent_s.Idempotency.Memory.{MemoryIdempotencyStore}
use enterprise_multi_agent_s.Idempotency.Memory
use enterprise_multi_agent_s.Idempotency.Sqlite.{Table}
use enterprise_multi_agent_s.Idempotency.Sqlite
use enterprise_multi_agent_s.Idempotency.Sqlite.Simulation.{Simulates, sqlite-Simulates}
use enterprise_multi_agent_s.Python.Json.{Json}
use enterprise_multi_agent_s.Tests.Samples.{
  sample_runtime, sample_runtime-IsRuntime, opened, opened-IsCanonical,
}

from_dict-to_dict_example : from_dict sample_runtime "later" (to_dict opened) ≡ ok opened
from_dict-to_dict_example = from_dict-to_dict sample_runtime "later" opened opened-IsCanonical

from_json-to_json_example :
    from_json sample_runtime "later" (to_json sample_runtime opened) ≡ ok (in_order opened)
from_json-to_json_example =
    from_json-to_json sample_runtime sample_runtime-IsRuntime "later" opened opened-IsCanonical

-- both stores, when the event was staged for the first time
abbrev empty : MemoryIdempotencyStore
empty = record { values = [] }

abbrev entries : MemoryIdempotencyStore
entries = (Memory.stage sample_runtime reject opened empty).1

abbrev rows : Table Json
rows = (Sqlite.stage sample_runtime reject "later" opened []).1

sqlite-Simulates_example :
    Simulates sample_runtime sample_runtime-IsRuntime reject "later" "github" "d1" opened rows
      entries
sqlite-Simulates_example =
    sqlite-Simulates sample_runtime sample_runtime-IsRuntime reject "later" "github" "d1" opened
      rows entries opened-IsCanonical
      (sqlite-Simulates sample_runtime sample_runtime-IsRuntime reject "later" "github" "d1" opened
        [] empty opened-IsCanonical tt).by_stage.1
