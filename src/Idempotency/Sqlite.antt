-- ===== src/Idempotency/Sqlite.antt =====
-- src/webhook_gateway/idempotency.py: SqliteIdempotencyStore. The table is the list of its rows under
-- their primary key, in the order in which they were inserted; the lock and the transaction make each
-- method one step, and `now` is the clock's text, with the default of an envelope that names no time.
pub mod Rows
pub mod Answers
pub mod Simulation
use enterprise_multi_agent_s.Prelude.{
  ℕ, String, Bool, true, false, not, ◌&&◌, Option, none, some, List, [], ◌∷◌, ◌==◌, take,
  if◌then◌else◌,
}
use enterprise_multi_agent_s.Python.Result.{Result, ok, err, runtime_error}
use enterprise_multi_agent_s.Python.Exec.{Exec, pure, raise, lift, ◌>>=◌}
use enterprise_multi_agent_s.Python.Json.{before}
use enterprise_multi_agent_s.Python.Dict
use enterprise_multi_agent_s.Python.Dict.{Dict, pair_eq}
use enterprise_multi_agent_s.Runtime.{Runtime}
use enterprise_multi_agent_s.Events.{EventEnvelope, event_payload_hash, from_json, to_json}
use enterprise_multi_agent_s.Idempotency.{
  StagedEvent, Policy, IdempotencyStore, reused_message, unstaged_message,
}
use enterprise_multi_agent_s.Idempotency.Contract.{Key}
use enterprise_multi_agent_s.Idempotency.Memory.{is_reject}

-- a row of webhook_outbox, but for its key
pub record Row (Bytes : Type 0) : Type 0 where
  pub payload : Bytes
  pub payload_hash : String
  pub state : String
  pub created_at : String
  pub updated_at : String

abbrev pub Table : Type 0 → Type 0
Table Bytes = Dict Key (Row Bytes)

-- INSERT OR IGNORE: the table, and whether the row count is 1
abbrev pub insert_or_ignore :
    {Bytes : Type 0} → Key → Row Bytes → Option (Row Bytes) → Table Bytes → Bool × Table Bytes
insert_or_ignore key row (some existing) table = (false, table)
insert_or_ignore key row none table = (true, Dict.put key row table)

-- StagedEvent(event, state, created)
abbrev pub staged_of : String → Bool → Result EventEnvelope → Result StagedEvent
staged_of state created (ok event) = ok (record { event = event; state = state; created = created })
staged_of state created (err e) = err e

-- a staged event that was looked for
abbrev pub found : Result StagedEvent → Result (Option StagedEvent)
found (ok staged) = ok (some staged)
found (err e) = err e

module _ {Bytes : Type 0} (rt : Runtime Bytes) (policy : Policy) (now : String) where
  abbrev pub staged_row : Row Bytes → Bool → Result StagedEvent
  staged_row row created = staged_of row.state created (from_json rt now row.payload)

  abbrev pub found_row : Option (Row Bytes) → Result (Option StagedEvent)
  found_row none = ok none
  found_row (some row) = found (staged_row row false)

  unfoldable pub get : String → String → Exec (Table Bytes) (Option StagedEvent)
  get source event_id table = (found_row (Dict.get (source, event_id) table), table)

  abbrev pub new_row : EventEnvelope → Row Bytes
  new_row event = record {
    payload = to_json rt event;
    payload_hash = event_payload_hash rt event;
    state = "pending";
    created_at = now;
    updated_at = now;
  }

  -- behind the SELECT of `stage`
  abbrev pub selected : EventEnvelope → Bool → Option (Row Bytes) → Result StagedEvent
  selected event created none = err (runtime_error "Webhook outbox row disappeared")
  selected event created (some row) =
      if not (row.payload_hash == event_payload_hash rt event) && is_reject policy
      then err (runtime_error reused_message)
      else staged_row row created

  unfoldable pub stage : EventEnvelope → Exec (Table Bytes) StagedEvent
  stage event table =
      let key : Key = (event.source, event.id) in
      let (created, inserted) = insert_or_ignore key (new_row event) (Dict.get key table) table in
      (selected event created (Dict.get key inserted), inserted)

  unfoldable pub mark_sent : EventEnvelope → Exec (Table Bytes) (Unit {0})
  mark_sent event table =
      let key : Key = (event.source, event.id) in
      elim (Dict.get key table) [
        | none ↦ (err (runtime_error unstaged_message), table)
        | some row ↦ (ok tt, Dict.put key (record row { state = "sent"; updated_at = now }) table)
      ]

  -- WHERE state = 'pending' ORDER BY created_at
  unfoldable pub by_created_at : Row Bytes → List (Row Bytes) → List (Row Bytes)
  by_created_at row [] = row ∷ []
  by_created_at row (first ∷ rows) =
      let rest = by_created_at row rows in
      if before row.created_at first.created_at then row ∷ first ∷ rows else first ∷ rest

  unfoldable pub pending_rows : Table Bytes → List (Row Bytes)
  unfolding by_created_at
  pending_rows [] = []
  pending_rows ((key, row) ∷ table) =
      let rest = pending_rows table in
      if row.state == "pending" then by_created_at row rest else rest

  unfoldable pub read_each : List (Row Bytes) → Result (List EventEnvelope)
  read_each [] = ok []
  read_each (row ∷ rows) = elim (from_json rt now row.payload) [
    | err e ↦ err e
    | ok event ↦ elim (read_each rows) [ err e ↦ err e | ok events ↦ ok (event ∷ events) ]
  ]

  unfoldable pub pending : ℕ → Exec (Table Bytes) (List EventEnvelope)
  unfolding pending_rows read_each
  pending limit table = (read_each (take limit (pending_rows table)), table)

  abbrev pub sqlite_store : IdempotencyStore (Table Bytes)
  sqlite_store = record { get = get; stage = stage; mark_sent = mark_sent; pending = pending }
