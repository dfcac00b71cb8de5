-- ===== src/Idempotency/Sqlite/Answers.antt =====
-- The answers of the Sqlite store beside those of the memory store: `get` and `mark_sent`.
use enterprise_multi_agent_s.Prelude.{String, Bool, false, Option, none, some, ◌≡◌, refl, ap, ◌∙◌}
use enterprise_multi_agent_s.Python.Result.{Result, ok, err, runtime_error}
use enterprise_multi_agent_s.Python.Dict
use enterprise_multi_agent_s.Python.Dict.{Dict, pair_eq, pair_beq, beq_refl}
use enterprise_multi_agent_s.Runtime.{Runtime, IsRuntime}
use enterprise_multi_agent_s.Events.{EventEnvelope, from_json}
use enterprise_multi_agent_s.Events.RoundTrip.{in_order, from_json-to_json}
use enterprise_multi_agent_s.Idempotency.{StagedEvent, Policy, unstaged_message}
use enterprise_multi_agent_s.Idempotency.Contract.{Entry}
use enterprise_multi_agent_s.Idempotency.Memory
use enterprise_multi_agent_s.Idempotency.Memory.{MemoryIdempotencyStore, is_reject}
use enterprise_multi_agent_s.Idempotency.Sqlite.Rows.{
  IsRow, Represents, Match, get-Represents, put-Represents,
}
use enterprise_multi_agent_s.Idempotency.Sqlite.{
  Row, Table, staged_of, found, staged_row, found_row, get, mark_sent,
}

-- a staged event whose event is read back
abbrev pub read_back : Result StagedEvent → Result StagedEvent
read_back (ok s) = ok (record s { event = in_order s.event })
read_back (err e) = err e

abbrev pub found_back : Result (Option StagedEvent) → Result (Option StagedEvent)
found_back (ok none) = ok none
found_back (ok (some s)) = ok (some (record s { event = in_order s.event }))
found_back (err e) = err e

module _ {Bytes : Type 0} (rt : Runtime Bytes) (laws : IsRuntime rt) (policy : Policy)
    (now : String) where
  pub staged_row-IsRow :
      (row : Row Bytes) (v : Entry) (created : Bool)
      → IsRow rt row v
      → staged_row rt policy now row created
        ≡ ok (record { event = in_order v.event; state = v.state; created = created })
  staged_row-IsRow row v created r =
      ap (λ event. staged_of row.state created event)
        (ap (from_json rt now) r.payload ∙ from_json-to_json rt laws now v.event r.canonical)
      ∙ ap (λ (state : String). staged_of state created (ok (in_order v.event))) r.state

  found-Match :
      (s : MemoryIdempotencyStore) (o : Option (Row Bytes)) (p : Option Entry)
      → Match rt o p
      → found_row rt policy now o
        ≡ found_back (
            (elim p as (λ _. Result (Option StagedEvent) × MemoryIdempotencyStore) [
              | none ↦ (ok none, s)
              | some existing ↦ (
                ok (
                    some
                      (record { event = existing.event; state = existing.state; created = false })),
                s,
              )
            ]).0)
  found-Match s none none h = refl
  found-Match s (some row) (some v) h = ap found (staged_row-IsRow row v false h)
  found-Match s none (some v) h = elim h [ ]
  found-Match s (some row) none h = elim h [ ]

  pub get-simulates :
      (source id : String) (t : Table Bytes) (s : MemoryIdempotencyStore)
      → Represents rt t s.values
      → get rt policy now source id t ≡ (found_back (Memory.get source id s).0, t)
  unfolding get Memory.get
  get-simulates source id t s h =
      ap (λ r. (r, t))
        (found-Match s (Dict.get (source, id) t) (Dict.get (source, id) s.values)
          (get-Represents rt (source, id) t s.values h))

  -- one step of both stores: what is returned, and that the table still represents the dictionary
  abbrev pub Agrees :
      Result StagedEvent × Table Bytes → Result StagedEvent × MemoryIdempotencyStore → Type 0
  Agrees r m = (r.0 ≡ read_back m.0) × Represents rt r.1 m.1.values

  abbrev pub AgreesUnit :
      Result (Unit {0}) × Table Bytes → Result (Unit {0}) × MemoryIdempotencyStore → Type 0
  AgreesUnit r m = (r.0 ≡ m.0) × Represents rt r.1 m.1.values

  mark-Match :
      (e : EventEnvelope) (t : Table Bytes) (s : MemoryIdempotencyStore) (o : Option (Row Bytes))
      (p : Option Entry)
      → Represents rt t s.values
      → Match rt o p
      → AgreesUnit
          (elim o [
            | none ↦ (err (runtime_error unstaged_message), t)
            | some row ↦ (
              ok tt,
              Dict.put (e.source, e.id) (record row { state = "sent"; updated_at = now }) t,
            )
          ])
          (elim p [
            | none ↦ (err (runtime_error unstaged_message), s)
            | some existing ↦ (
              ok tt,
              record s {
                values = Dict.put (e.source, e.id) (record existing { state = "sent" }) s.values;
              },
            )
          ])
  mark-Match e t s none none h m = (refl, h)
  mark-Match e t s (some row) (some v) h m = (
    refl,
    put-Represents rt (e.source, e.id) (record row { state = "sent"; updated_at = now })
        (record v { state = "sent" }) t s.values
        (record {
          payload = m.payload;
          payload_hash = m.payload_hash;
          state = refl;
          canonical = m.canonical;
        })
        h,
  )
  mark-Match e t s none (some v) h m = elim m [ ]
  mark-Match e t s (some row) none h m = elim m [ ]

  pub mark_sent-simulates :
      (e : EventEnvelope) (t : Table Bytes) (s : MemoryIdempotencyStore)
      → Represents rt t s.values
      → AgreesUnit (mark_sent rt policy now e t) (Memory.mark_sent e s)
  unfolding mark_sent Memory.mark_sent
  mark_sent-simulates e t s h =
      mark-Match e t s (Dict.get (e.source, e.id) t) (Dict.get (e.source, e.id) s.values) h
        (get-Represents rt (e.source, e.id) t s.values h)
