-- ===== src/Tests/Drives.antt =====
-- The OneDrive leases and the delta processor on the memory store.
use enterprise_multi_agent_s.Prelude.{
  ℕ, ◌<◌, String, ◌≡◌, ◌≢◌, refl, true, false, Option, some, List, [], ◌∷◌, ◌==◌, arith,
  if◌then◌else◌,
}
use enterprise_multi_agent_s.Python.Result.{ok}
use enterprise_multi_agent_s.Python.Dict
use enterprise_multi_agent_s.Python.Json.{str, obj, Fields, end, field, get, null}
use enterprise_multi_agent_s.Events.{EventEnvelope}
use enterprise_multi_agent_s.OnedriveSync
use enterprise_multi_agent_s.OnedriveSync.{
  MemoryDeltaCursorStore, acquire, commit, renew, release, lease_until,
}
use enterprise_multi_agent_s.OnedriveSync.Lease.{acquire-excludes, stale-refused}
use enterprise_multi_agent_s.OnedriveSync.Lease.Calls.{Call, acquire_call, commit_call, run}
use enterprise_multi_agent_s.OnedriveSync.DriveItem.{
  is_download_url, safe_drive_item, IsSafe, safe_drive_item_lem,
}
use enterprise_multi_agent_s.OnedriveSync.Processor.{
  GraphClient, checkpoint_of, output_of, collapse, process, acknowledge,
}
use enterprise_multi_agent_s.OnedriveSync.Processor.Checkpoint.{
  Settles, process-Settles, acknowledge-process, IsLeasing,
}
use enterprise_multi_agent_s.OnedriveSync.MemoryStore.{
  Clocked, memory_cursors, memory-IsLeasing, holder,
}
use enterprise_multi_agent_s.Tests.Samples.{sample_runtime, opened}

abbrev empty : MemoryDeltaCursorStore
empty = record { values = []; leases = []; committed_owners = [] }

drives : Unit {0}
unfolding acquire commit renew release run Dict.get Dict.put Dict.remove process get
drives = tt

abbrev calls : List Call
calls = acquire_call "d" "b" 720 5 ∷ commit_call "d" "x" "b" ∷ []

acquire-excludes_example :
    ((other : String) (seconds later : ℕ)
      → ("a" == other) ≡ false
      → later < lease_until 0 720
      → acquire "d" other seconds later (run calls (acquire "d" "a" 720 0 empty).1)
        ≡ (false, run calls (acquire "d" "a" 720 0 empty).1))
    × ((delta_link : String)
        → ((commit "d" delta_link "a" (run calls (acquire "d" "a" 720 0 empty).1)).0 ≡ true)
          × (OnedriveSync.get "d"
                (commit "d" delta_link "a" (run calls (acquire "d" "a" 720 0 empty).1)).1
              ≡ some delta_link))
unfolding drives
acquire-excludes_example =
    acquire-excludes "d" "a" 720 0 empty calls refl ((refl, omega arith), (refl, tt))

-- The lease of "a" has run out and "b" has it.
abbrev expired : MemoryDeltaCursorStore
unfolding drives
expired = (acquire "d" "a" 1 0 empty).1

stale-refused_example :
    let s' = run (commit_call "d" "x" "b" ∷ []) (acquire "d" "b" 720 2000000 expired).1 in
    (commit "d" "y" "a" s' ≡ (false, s'))
    × (renew "d" "a" 720 2000001 s' ≡ (false, s'))
    × (release "d" "a" s' ≡ s')
unfolding drives
stale-refused_example =
    stale-refused "d" "a" "b" 720 2000000 expired (commit_call "d" "x" "b" ∷ []) "y" 720 2000001
      refl refl (tt, tt)

abbrev change : Fields
change = field "id" (str "1") (field "@microsoft.graph.downloadUrl" (str "https://x") end)

safe_drive_item_example :
    IsSafe (safe_drive_item (obj change))
    × ((out : Fields) × (safe_drive_item (obj change) ≡ obj out)
        × ((k : String)
            → get out k ≡ (if is_download_url k then null else safe_drive_item (get change k))))
safe_drive_item_example = safe_drive_item_lem change

abbrev graph : GraphClient Clocked
graph = record {
  list_delta = λ drive_id delta_link w. (ok (change ∷ [], "https://next"), w);
  renew_subscription = λ id days w. (ok end, w);
}

abbrev updated : EventEnvelope
updated = record opened { source = "onedrive"; type = "drive.updated" }

abbrev start : Clocked
start = (empty, λ n. n)

-- Nobody has the lease.
start_free : ◌≢◌ {A = Option String} (holder "d" start.0) (some "a")
unfolding drives
start_free = λ p. absurd cc

process-Settles_example :
    Settles sample_runtime "d" graph
      (memory-IsLeasing "d")
      "a"
      (process sample_runtime "d" graph memory_cursors "a" updated start)
process-Settles_example =
    process-Settles sample_runtime "d" graph (memory-IsLeasing "d") "a" updated start refl
      start_free

abbrev out : Fields
out = output_of "d" (collapse sample_runtime (change ∷ [])) "https://next" "a"

processed : (process sample_runtime "d" graph memory_cursors "a" updated start).0 ≡ ok out
unfolding drives
processed = refl

acknowledge-process_example :
    (link : String) × (get out "_checkpoint" ≡ obj (checkpoint_of "d" link "a"))
    × ((link == "") ≡ false
        → let w' = (process sample_runtime "d" graph memory_cursors "a" updated start).1 in
          let r =
            acknowledge sample_runtime "d" graph memory_cursors (checkpoint_of "d" link "a") w' in
          (r.0 ≡ ok tt) × (OnedriveSync.get "d" r.1.0 ≡ some link))
acknowledge-process_example =
    acknowledge-process sample_runtime "d" graph (memory-IsLeasing "d") "a" updated start out refl
      refl start_free processed

memory-IsLeasing_example :
    IsLeasing memory_cursors "d" (λ w. holder "d" w.0) (λ w. OnedriveSync.get "d" w.0)
memory-IsLeasing_example = memory-IsLeasing "d"
