-- ===== src/Idempotency/Sqlite/Simulation.antt =====
-- SqliteIdempotencyStore answers as MemoryIdempotencyStore does, with its events read back from JSON.
use enterprise_multi_agent_s.Prelude.{
  String, Bool, true, false, not, ◌&&◌, Option, none, some, ◌≡◌, refl, sym, ap, subst, ◌∙◌, ◌==◌,
  if◌then◌else◌, eq_refl,
}
use enterprise_multi_agent_s.Python.Result.{Result, ok, err, runtime_error}
use enterprise_multi_agent_s.Python.Dict
use enterprise_multi_agent_s.Python.Dict.{Dict, pair_eq, pair_beq, beq_refl}
use enterprise_multi_agent_s.Runtime.{Runtime, IsRuntime}
use enterprise_multi_agent_s.Events.{EventEnvelope, event_payload_hash}
use enterprise_multi_agent_s.Events.RoundTrip.{IsCanonical, in_order}
use enterprise_multi_agent_s.Idempotency.{StagedEvent, Policy, reused_message}
use enterprise_multi_agent_s.Idempotency.Contract.{Entry, Key}
use enterprise_multi_agent_s.Idempotency.Memory
use enterprise_multi_agent_s.Idempotency.Memory.{MemoryIdempotencyStore, is_reject}
use enterprise_multi_agent_s.Idempotency.Sqlite.Rows.{
  IsRow, Represents, Match, get-Represents, put-Represents,
}
use enterprise_multi_agent_s.Idempotency.Sqlite.{
  Row, Table, staged_row, get, new_row, selected, stage, mark_sent, insert_or_ignore,
}
use enterprise_multi_agent_s.Idempotency.Sqlite.Answers.{
  found_back, staged_row-IsRow, Agrees, AgreesUnit, get-simulates, mark_sent-simulates,
}

module _ {Bytes : Type 0} (rt : Runtime Bytes) (laws : IsRuntime rt) (policy : Policy)
    (now : String) where
  -- an event id that is there: refused, or given back
  again :
      (refuses : Bool) (t : Table Bytes) (s : MemoryIdempotencyStore) (row : Row Bytes) (v : Entry)
      → IsRow rt row v
      → Represents rt t s.values
      → Agrees rt laws policy now
          (
            if refuses
                then err (runtime_error reused_message)
                else staged_row rt policy now row false,
            t,
          )
          (if refuses
            then (err (runtime_error reused_message), s)
            else (ok (record { event = v.event; state = v.state; created = false }), s))
  again true t s row v r h = (refl, h)
  again false t s row v r h = (staged_row-IsRow rt laws policy now row v false r, h)

  again_at :
      (e : EventEnvelope) (t : Table Bytes) (s : MemoryIdempotencyStore) (row : Row Bytes)
      (v : Entry)
      → IsRow rt row v
      → Represents rt t s.values
      → Agrees rt laws policy now
          (selected rt policy now e false (some row), t)
          (if not (v.payload_hash == event_payload_hash rt e) && is_reject policy
            then (err (runtime_error reused_message), s)
            else (ok (record { event = v.event; state = v.state; created = false }), s))
  again_at e t s row v r h =
      subst
        (λ (hash : String).
          Agrees rt laws policy now
            (
              if not (hash == event_payload_hash rt e) && is_reject policy
                  then err (runtime_error reused_message)
                  else staged_row rt policy now row false,
              t,
            )
            (if not (v.payload_hash == event_payload_hash rt e) && is_reject policy
              then (err (runtime_error reused_message), s)
              else (ok (record { event = v.event; state = v.state; created = false }), s)))
        (sym r.payload_hash)
        (again (not (v.payload_hash == event_payload_hash rt e) && is_reject policy) t s row v r h)

  new-IsRow :
      (e : EventEnvelope)
      → IsCanonical e
      → IsRow rt
          (new_row rt policy now e)
          (record { event = e; state = "pending"; payload_hash = event_payload_hash rt e })
  new-IsRow e c = record { payload = refl; payload_hash = refl; state = refl; canonical = c }

  -- the row that was just inserted
  first :
      (e : EventEnvelope) (t : Table Bytes)
      → IsCanonical e
      → selected rt policy now e true
          (Dict.get (e.source, e.id) (Dict.put (e.source, e.id) (new_row rt policy now e) t))
        ≡ ok (record { event = in_order e; state = "pending"; created = true })
  first e t c =
      ap (λ o. selected rt policy now e true o) inserted
      ∙ rw (eq_refl (event_payload_hash rt e)) (
          staged_row-IsRow rt laws policy now (new_row rt policy now e)
            (record { event = e; state = "pending"; payload_hash = event_payload_hash rt e }) true
            (new-IsRow e c))
    where
      inserted :
          Dict.get {K = Key}
            (e.source, e.id)
            (Dict.put (e.source, e.id) (new_row rt policy now e) t)
          ≡ some (new_row rt policy now e)
      inserted =
          Dict.get-put (e.source, e.id) (e.source, e.id) (new_row rt policy now e) t
          ∙ rw (beq_refl {K = Key} (e.source, e.id)) refl

  stage_match :
      (e : EventEnvelope) (t : Table Bytes) (s : MemoryIdempotencyStore) (o : Option (Row Bytes))
      (p : Option Entry)
      → Dict.get (e.source, e.id) t ≡ o
      → IsCanonical e
      → Represents rt t s.values
      → Match rt o p
      → Agrees rt laws policy now
          (let (created, inserted) =
              insert_or_ignore (e.source, e.id) (new_row rt policy now e) o t in
            (selected rt policy now e created (Dict.get (e.source, e.id) inserted), inserted))
          (elim p as (λ _. Result StagedEvent × MemoryIdempotencyStore) [
            | some existing ↦
                if not (existing.payload_hash == event_payload_hash rt e) && is_reject policy
                then (err (runtime_error reused_message), s)
                else (
                  ok (record { event = existing.event; state = existing.state; created = false }),
                  s,
                )
            | none ↦ (
              ok (record { event = e; state = "pending"; created = true }),
              record s {
                values =
                    Dict.put
                      (e.source, e.id)
                      (record {
                        event = e;
                        state = "pending";
                        payload_hash = event_payload_hash rt e;
                      })
                      s.values;
              },
            )
          ])
  stage_match e t s none none here c h m = (
    first e t c,
    put-Represents rt (e.source, e.id) (new_row rt policy now e)
        (record { event = e; state = "pending"; payload_hash = event_payload_hash rt e }) t s.values
        (new-IsRow e c) h,
  )
  stage_match e t s (some row) (some v) here c h m =
      let (answer, same) = again_at e t s row v m h in
      (ap (λ o. selected rt policy now e false o) here ∙ answer, same)
  stage_match e t s none (some v) here c h m = elim m [ ]
  stage_match e t s (some row) none here c h m = elim m [ ]

  stage-simulates :
      (e : EventEnvelope) (t : Table Bytes) (s : MemoryIdempotencyStore)
      → IsCanonical e
      → Represents rt t s.values
      → Agrees rt laws policy now (stage rt policy now e t) (Memory.stage rt policy e s)
  unfolding stage Memory.stage
  stage-simulates e t s c h =
      stage_match e t s (Dict.get (e.source, e.id) t) (Dict.get (e.source, e.id) s.values) refl c h
        (get-Represents rt (e.source, e.id) t s.values h)

  -- The three calls on both stores.
  pub record Simulates (source id : String) (e : EventEnvelope) (t : Table Bytes)
      (s : MemoryIdempotencyStore) : Type 0 where
    pub by_get : get rt policy now source id t ≡ (found_back (Memory.get source id s).0, t)
    pub by_stage : Agrees rt laws policy now (stage rt policy now e t) (Memory.stage rt policy e s)
    pub by_mark_sent :
        AgreesUnit rt laws policy now (mark_sent rt policy now e t) (Memory.mark_sent e s)

  -- For a JSON codec that reads back what it writes with the keys in order, and a table whose rows
  -- stand one by one for the entries of a memory store, with envelopes that have a receipt time
  -- and no empty subject: get, stage and mark_sent of the Sqlite store answer as those of the
  -- memory store under the same policy do, errors included and with the keys of their events' data
  -- and metadata in order, and leave a table that stands for the memory store's new entries.
  pub sqlite-Simulates :
      (source id : String) (e : EventEnvelope) (t : Table Bytes) (s : MemoryIdempotencyStore)
      → IsCanonical e
      → Represents rt t s.values
      → Simulates source id e t s
  sqlite-Simulates source id e t s c h = record {
    by_get = get-simulates rt laws policy now source id t s h;
    by_stage = stage-simulates e t s c h;
    by_mark_sent = mark_sent-simulates rt laws policy now e t s h;
  }
