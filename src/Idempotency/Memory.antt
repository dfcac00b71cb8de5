-- ===== src/Idempotency/Memory.antt =====
-- `MemoryIdempotencyStore`. The lock makes each method one step.
pub mod Laws
use mathlib.Core.Option
use enterprise_multi_agent_s.Prelude.{
  ℕ, String, ◌≡◌, Bool, true, false, not, ◌&&◌, Option, none, some, List, [], ◌∷◌, ◌==◌, take,
  if◌then◌else◌,
}
use enterprise_multi_agent_s.Python.Result.{Result, ok, err, runtime_error}
use enterprise_multi_agent_s.Python.Exec.{Exec, pure, raise, ◌>>=◌}
use enterprise_multi_agent_s.Python.Dict
use enterprise_multi_agent_s.Python.Dict.{Dict, pair_eq}
use enterprise_multi_agent_s.Runtime.{Runtime}
use enterprise_multi_agent_s.Events.{EventEnvelope, event_payload_hash}
use enterprise_multi_agent_s.Idempotency.{
  StagedEvent, Policy, reject, first_wins, IdempotencyStore, reused_message, unstaged_message,
  validate_existing_payload_policy,
}
use enterprise_multi_agent_s.Idempotency.Contract.{Entry, Key}

-- `_existing_payload_policy` never changes, and is an argument of the methods that read it.
pub record MemoryIdempotencyStore : Type 0 where
  pub values : Dict Key Entry

unfoldable pub init : String → Result (Policy × MemoryIdempotencyStore)
unfolding validate_existing_payload_policy
init value = elim (validate_existing_payload_policy value) [
  | ok policy ↦ ok (policy, record { values = [] })
  | err e ↦ err e
]

abbrev pub is_reject : Policy → Bool
is_reject reject = true
is_reject first_wins = false

unfoldable pub get : String → String → Exec MemoryIdempotencyStore (Option StagedEvent)
get source event_id s = elim (Dict.get (source, event_id) s.values) [
  | none ↦ (ok none, s)
  | some existing ↦
      (ok (some (record { event = existing.event; state = existing.state; created = false })), s)
]

module _ {Bytes : Type 0} (rt : Runtime Bytes) (policy : Policy) where
  unfoldable pub stage : EventEnvelope → Exec MemoryIdempotencyStore StagedEvent
  stage event s =
      let key : Key = (event.source, event.id) in
      let payload_hash = event_payload_hash rt event in
      elim (Dict.get key s.values) [
        | some existing ↦
            if not (existing.payload_hash == payload_hash) && is_reject policy
            then (err (runtime_error reused_message), s)
            else (
              ok (record { event = existing.event; state = existing.state; created = false }),
              s,
            )
        | none ↦ (
          ok (record { event = event; state = "pending"; created = true }),
          record s {
            values =
                Dict.put key
                  (record { event = event; state = "pending"; payload_hash = payload_hash })
                  s.values;
          },
        )
      ]

unfoldable pub mark_sent : EventEnvelope → Exec MemoryIdempotencyStore (Unit {0})
mark_sent event s =
    let key : Key = (event.source, event.id) in
    elim (Dict.get key s.values) [
      | none ↦ (err (runtime_error unstaged_message), s)
      | some existing ↦
          (ok tt, record s { values = Dict.put key (record existing { state = "sent" }) s.values })
    ]

-- the comprehension of `pending`, over the items in insertion order
unfoldable pub pending_events : Dict Key Entry → List EventEnvelope
pending_events [] = []
pending_events ((k, v) ∷ d) =
    let rest = pending_events d in if v.state == "pending" then v.event ∷ rest else rest

unfoldable pub pending : ℕ → Exec MemoryIdempotencyStore (List EventEnvelope)
unfolding pending_events
pending limit s = (ok (take limit (pending_events s.values)), s)

abbrev pub memory_store :
    {Bytes : Type 0} → Runtime Bytes → Policy → IdempotencyStore MemoryIdempotencyStore
memory_store rt policy = record {
  get = get;
  stage = stage rt policy;
  mark_sent = mark_sent;
  pending = pending;
}
