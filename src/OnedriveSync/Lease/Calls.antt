-- ===== src/OnedriveSync/Lease/Calls.antt =====
-- Runs of calls of the memory cursor store, and who holds a lease after them.
use enterprise_multi_agent_s.Prelude.{
  ℕ, ◌<◌, String, ◌≡◌, Bool, true, false, some, List, [], ◌∷◌, ◌==◌, eq_iff, eq_refl, arith, All,
}
use enterprise_multi_agent_s.Python.Dict
use enterprise_multi_agent_s.Python.Dict.{string_eq, get-put, get-remove}
use enterprise_multi_agent_s.OnedriveSync.{
  MemoryDeltaCursorStore, lease_until, set, acquire, renew, commit, release,
}

-- A call with its arguments, and the clock's reading.
pub data Call : Type 0 where
  set_call : (drive_id delta_link : String) → Call
  acquire_call renew_call : (drive_id owner : String) (lease_seconds now : ℕ) → Call
  commit_call : (drive_id delta_link owner : String) → Call
  release_call : (drive_id owner : String) → Call

unfoldable pub perform : Call → MemoryDeltaCursorStore → Bool × MemoryDeltaCursorStore
perform (set_call drive_id delta_link) s = (true, set drive_id delta_link s)
perform (acquire_call drive_id owner lease_seconds now) s =
    acquire drive_id owner lease_seconds now s
perform (renew_call drive_id owner lease_seconds now) s = renew drive_id owner lease_seconds now s
perform (commit_call drive_id delta_link owner) s = commit drive_id delta_link owner s
perform (release_call drive_id owner) s = (true, release drive_id owner s)

unfoldable pub run : List Call → MemoryDeltaCursorStore → MemoryDeltaCursorStore
run [] s = s
run (c ∷ calls) s = run calls (perform c s).1

-- A call by somebody else, with the clock before `until`.
abbrev pub IsForeign : String → ℕ → Call → Type 0
IsForeign owner until (set_call drive_id delta_link) = Unit
IsForeign owner until (acquire_call drive_id other lease_seconds now) =
    ((other == owner) ≡ false) × (now < until)
IsForeign owner until (renew_call drive_id other lease_seconds now) = (other == owner) ≡ false
IsForeign owner until (commit_call drive_id delta_link other) = (other == owner) ≡ false
IsForeign owner until (release_call drive_id other) = (other == owner) ≡ false

abbrev pub Holds : String → String → ℕ → MemoryDeltaCursorStore → Type 0
Holds drive_id owner until s = Dict.get drive_id s.leases ≡ some (owner, until)

-- No call of others takes the lease.
perform-Holds :
    (drive_id owner : String) (until : ℕ) (c : Call) (s : MemoryDeltaCursorStore)
    → Holds drive_id owner until s
    → IsForeign owner until c
    → Holds drive_id owner until (perform c s).1
unfolding perform set acquire renew commit release
perform-Holds drive_id owner until (set_call d l) s h f = h
perform-Holds drive_id owner until (acquire_call d o t now) s h f = ground (
  arith,
  eq_iff d drive_id,
  eq_iff owner o,
  eq_iff o owner,
  get-put d drive_id (o, lease_until now t) s.leases,
)
perform-Holds drive_id owner until (renew_call d o t now) s h f = ground (
  arith,
  eq_iff d drive_id,
  eq_iff owner o,
  eq_iff o owner,
  get-put d drive_id (o, lease_until now t) s.leases,
)
perform-Holds drive_id owner until (commit_call d l o) s h f =
    ground
      (arith, eq_iff d drive_id, eq_iff owner o, eq_iff o owner, get-remove d drive_id s.leases)
perform-Holds drive_id owner until (release_call d o) s h f =
    ground
      (arith, eq_iff d drive_id, eq_iff owner o, eq_iff o owner, get-remove d drive_id s.leases)

pub run-Holds :
    (drive_id owner : String) (until : ℕ) (calls : List Call) (s : MemoryDeltaCursorStore)
    → Holds drive_id owner until s
    → All (IsForeign owner until) calls
    → Holds drive_id owner until (run calls s)
unfolding run
run-Holds drive_id owner until [] s h f = h
run-Holds drive_id owner until (c ∷ calls) s h f =
    run-Holds drive_id owner until calls (perform c s).1
      (perform-Holds drive_id owner until c s h f.0) f.1

pub acquire-Holds :
    (drive_id owner : String) (lease_seconds now : ℕ) (s : MemoryDeltaCursorStore)
    → (acquire drive_id owner lease_seconds now s).0 ≡ true
    → Holds drive_id owner
        (lease_until now lease_seconds)
        (acquire drive_id owner lease_seconds now s).1
unfolding acquire
acquire-Holds drive_id owner lease_seconds now s h = ground (
  arith,
  eq_refl drive_id,
  get-put drive_id drive_id (owner, lease_until now lease_seconds) s.leases,
)
