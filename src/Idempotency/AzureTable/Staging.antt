-- ===== src/Idempotency/AzureTable/Staging.antt =====
-- What AzureTableIdempotencyStore gives back of an event that was staged.
use enterprise_multi_agent_s.Prelude.{
  String, Bool, true, false, not, ◌&&◌, Option, none, some, ◌≡◌, refl, sym, ap, subst, ◌∙◌, ◌==◌,
  if_lem, if◌then◌else◌,
}
use enterprise_multi_agent_s.Python.Result.{
  Result, ok, err, err-ok, ok-injective, runtime_error, service_error,
}
use enterprise_multi_agent_s.Python.Exec.{
  Exec, pure, raise, lift, outcome_of_bind, after_bind, after_catch, after_if, ◌>>◌,
}
use enterprise_multi_agent_s.Runtime.{Runtime, IsRuntime}
use enterprise_multi_agent_s.Events.RoundTrip.{IsCanonical, from_json-to_json}
use enterprise_multi_agent_s.Events.{EventEnvelope, event_payload_hash, from_json}
use enterprise_multi_agent_s.Idempotency.{StagedEvent, Policy, reused_message}
use enterprise_multi_agent_s.Idempotency.Sqlite.{staged_of}
use enterprise_multi_agent_s.Idempotency.Memory.{is_reject}
use enterprise_multi_agent_s.Idempotency.AzureTable.{
  Entity, TableClient, get, stage, new_entity, is_class, row_key, compared, create_or_not,
  staged_entity, text_or_empty, equals, read_payload, state_or_pending,
}

abbrev pub read_row : {Bytes : Type 0} → Option (Entity Bytes) → Result (Entity Bytes)
read_row none = err (service_error "ResourceNotFoundError" 404)
read_row (some entity) = ok entity

-- `row` is the row that the table has under two keys: a read answers it, and changes nothing.
abbrev pub ReadsRows :
    {Bytes W : Type 0}
    → TableClient Bytes W
    → (W → String → String → Option (Entity Bytes))
    → Type 0
ReadsRows {Bytes} {W} table row =
    (partition key : String) (w : W)
    → table.get_entity partition key w ≡ (read_row (row w partition key), w)

-- A stored payload that is read alike at every time, as one with a receipt time is.
abbrev pub IsTimed : {Bytes : Type 0} → Runtime Bytes → Option Bytes → Type 0
IsTimed rt none = Unit {0}
IsTimed rt (some payload) = (n m : String) → from_json rt n payload ≡ from_json rt m payload

-- what was staged is given back, as not created
again :
    (state : String) (created : Bool) (r : Result EventEnvelope) (s : StagedEvent)
    → staged_of state created r ≡ ok s
    → staged_of state false r ≡ ok (record s { created = false })
again state created (ok event) s h =
    ap (λ (s : StagedEvent). ok (record s { created = false })) (ok-injective h)
again state created (err e) s h = absurd (err-ok h)

read_row-ok :
    {Bytes : Type 0} (o : Option (Entity Bytes)) (entity : Entity Bytes)
    → read_row o ≡ ok entity
    → o ≡ some entity
read_row-ok none entity h = absurd (err-ok h)
read_row-ok (some x) entity h = ap (λ e. some e) (ok-injective h)

module _ {Bytes W : Type 0} (rt : Runtime Bytes) (laws : IsRuntime rt) (policy : Policy)
    (now : String) (table : TableClient Bytes W) (prepare : EventEnvelope → Exec W EventEnvelope)
    (row : W → String → String → Option (Entity Bytes)) (reads : ReadsRows table row) where
  read_payload-IsTimed :
      (later : String) (payload : Option Bytes)
      → IsTimed rt payload
      → read_payload rt policy later table prepare payload
        ≡ read_payload rt policy now table prepare payload
  read_payload-IsTimed later none timed = refl
  read_payload-IsTimed later (some payload) timed = timed later now

  -- The row under an event's keys, if there is one, is that of its id, and its payload is read
  -- alike at every time.
  abbrev pub IsOwnRow : EventEnvelope → W → Type 0
  IsOwnRow event w =
      (entity : Entity Bytes)
      → row w event.source (row_key rt policy now table prepare event.id) ≡ some entity
      → ((text_or_empty entity.event_id == event.id) ≡ true) × IsTimed rt entity.dispatch_payload

  -- The calls of a stage keep it so, and the events that prepare gives have a receipt time.
  pub record KeepsOwnRow (event : EventEnvelope) : Type 0 where
    pub by_prepare : (w : W) → IsOwnRow event w → IsOwnRow event (prepare event w).1
    pub prepared :
        (w : W) (dispatch : EventEnvelope)
        → (prepare event w).0 ≡ ok dispatch
        → IsCanonical dispatch
    pub by_create :
        (entity : Entity Bytes) (w : W)
        → entity.event_id ≡ some event.id
        → IsTimed rt entity.dispatch_payload
        → IsOwnRow event w
        → IsOwnRow event
            (table.create_entity event.source
              (row_key rt policy now table prepare event.id)
              entity
              w).1

  create_or_not-IsOwnRow :
      (event dispatch : EventEnvelope) (w : W)
      → KeepsOwnRow event
      → IsCanonical dispatch
      → IsOwnRow event w
      → IsOwnRow event (create_or_not rt policy now table prepare event dispatch w).1
  create_or_not-IsOwnRow event dispatch w keeps canonical identified =
      after_catch (IsOwnRow event) (create event.source key entity >> pure true)
        (λ e. if is_class "ResourceExistsError" e then pure false else raise e) w
        (after_bind (IsOwnRow event) (create event.source key entity) (λ _. pure true) w
          (λ _ _. created) λ _ _. created)
        λ e _.
          after_if (IsOwnRow event) (is_class "ResourceExistsError" e) (pure false) (raise e)
            ((create event.source key entity >> pure true) w).1 (λ _. behind) λ _. behind
    where
      create : String → String → Entity Bytes → Exec W (Unit {0})
      create = table.create_entity

      key : String
      key = row_key rt policy now table prepare event.id

      entity : Entity Bytes
      entity = new_entity rt policy now table prepare event dispatch

      timed : IsTimed rt entity.dispatch_payload
      timed n m =
          from_json-to_json rt laws n dispatch canonical
          ∙ sym (from_json-to_json rt laws m dispatch canonical)

      created : IsOwnRow event (create event.source key entity w).1
      created = keeps.by_create entity w refl timed identified

      behind : IsOwnRow event ((create event.source key entity >> pure true) w).1
      behind =
          after_bind (IsOwnRow event) (create event.source key entity) (λ _. pure true) w
            (λ _ _. created) λ _ _. created

  get_of :
      (later : String) (event : EventEnvelope) (entity : Entity Bytes) (s : StagedEvent) (w : W)
      → table.get_entity event.source (row_key rt policy now table prepare event.id) w
        ≡ (ok entity, w)
      → (text_or_empty entity.event_id == event.id) ≡ true
      → staged_entity rt policy later table prepare entity false ≡ ok s
      → get rt policy later table prepare event.source event.id w ≡ (ok (some s), w)
  unfolding get
  get_of later event entity s w read same staged = rw read (rw same (rw staged refl))

  abbrev GivesBack : String → EventEnvelope → Result StagedEvent × W → Type 0
  GivesBack later event (err e, w) = Unit {0}
  GivesBack later event (ok s, w) =
      get rt policy later table prepare event.source event.id w
      ≡ (ok (some (record s { created = false })), w)

  staged-GivesBack :
      (later : String) (event : EventEnvelope) (entity : Entity Bytes) (created : Bool)
      (r : Result StagedEvent) (w : W)
      → staged_entity rt policy now table prepare entity created ≡ r
      → table.get_entity event.source (row_key rt policy now table prepare event.id) w
        ≡ (ok entity, w)
      → (text_or_empty entity.event_id == event.id) ≡ true
      → IsTimed rt entity.dispatch_payload
      → GivesBack later event (r, w)
  staged-GivesBack later event entity created (err e) w staged read same timed = tt
  staged-GivesBack later event entity created (ok s) w staged read same timed =
      get_of later event entity (record s { created = false }) w read same
        (ap (staged_of (state_or_pending entity.state) false)
            (read_payload-IsTimed later entity.dispatch_payload timed)
          ∙ again (state_or_pending entity.state) created
              (read_payload rt policy now table prepare entity.dispatch_payload) s staged)

  compared-GivesBack :
      (later : String) (event : EventEnvelope) (entity : Entity Bytes) (created : Bool) (w : W)
      → table.get_entity event.source (row_key rt policy now table prepare event.id) w
        ≡ (ok entity, w)
      → (text_or_empty entity.event_id == event.id) ≡ true
      → IsTimed rt entity.dispatch_payload
      → GivesBack later event (compared rt policy now table prepare event created entity w)
  compared-GivesBack later event entity created w read same timed =
      if_lem (λ (m : Exec W StagedEvent). GivesBack later event (m w))
        (not (equals entity.payload_hash (event_payload_hash rt event)) && is_reject policy)
        (raise (runtime_error reused_message))
        (lift (staged_entity rt policy now table prepare entity created)) (λ _. tt)
        λ _.
          staged-GivesBack later event entity created
            (staged_entity rt policy now table prepare entity created) w refl read same timed

  read-GivesBack :
      (later : String) (event : EventEnvelope) (entity : Entity Bytes) (created : Bool) (w : W)
      → IsOwnRow event w
      → (table.get_entity event.source (row_key rt policy now table prepare event.id) w).0
        ≡ ok entity
      → GivesBack later event (
          compared rt policy now table prepare event created entity
            (table.get_entity event.source (row_key rt policy now table prepare event.id) w).1)
  read-GivesBack later event entity created w identified found =
      subst
        (λ (x : W).
          GivesBack later event (compared rt policy now table prepare event created entity x))
        (sym (ap (λ r. r.1) read))
        (compared-GivesBack later event entity created w read (identified entity there).0
          (identified entity there).1)
    where
      key : String
      key = row_key rt policy now table prepare event.id

      there : row w event.source key ≡ some entity
      there =
          read_row-ok (row w event.source key) entity
            (sym (ap (λ r. r.0) (reads event.source key w)) ∙ found)

      read : table.get_entity event.source key w ≡ (ok entity, w)
      read = reads event.source key w ∙ ap (λ o. (read_row o, w)) there

  stage-GivesBack :
      (later : String) (event : EventEnvelope) (w : W)
      → KeepsOwnRow event
      → IsOwnRow event w
      → GivesBack later event (stage rt policy now table prepare event w)
  unfolding stage
  stage-GivesBack later event w keeps identified =
      outcome_of_bind (GivesBack later event) (prepare event) _ w (λ _ _. tt)
        λ dispatch given_back.
          outcome_of_bind (GivesBack later event)
            (create_or_not rt policy now table prepare event dispatch) _ (prepare event w).1
            (λ _ _. tt)
            λ created _.
              outcome_of_bind (GivesBack later event)
                (table.get_entity event.source (row_key rt policy now table prepare event.id)) _
                (create_or_not rt policy now table prepare event dispatch (prepare event w).1).1
                (λ _ _. tt)
                λ entity found.
                  read-GivesBack later event entity created
                    (create_or_not rt policy now table prepare event dispatch (prepare event w).1).1
                    (create_or_not-IsOwnRow event dispatch (prepare event w).1 keeps
                      (keeps.prepared w dispatch given_back) (keeps.by_prepare w identified))
                    found

  given :
      (later : String) (event : EventEnvelope) (outcome : Result StagedEvent × W) (s : StagedEvent)
      → GivesBack later event outcome
      → outcome.0 ≡ ok s
      → get rt policy later table prepare event.source event.id outcome.1
        ≡ (ok (some (record s { created = false })), outcome.1)
  given later event (err e, w) s back h = absurd (err-ok h)
  given later event (ok s', w) s back h =
      subst
        (λ (s : StagedEvent).
          get rt policy later table prepare event.source event.id w
          ≡ (ok (some (record s { created = false })), w))
        (ok-injective h) back

  -- For a JSON codec that reads back what it writes with the keys in order, a table whose reads
  -- answer its rows and change nothing, whose row under an event's keys, if any, is that of the
  -- event's id and has a payload that is read alike at every time, calls of prepare and create
  -- that keep it so, and a prepare that gives envelopes with a receipt time and no empty subject:
  -- when stage of the event returned, whether it created the row or found one, get of its source
  -- and id at any later time returns the same event and state, as not created, and changes
  -- nothing.
  pub get-stage :
      (later : String) (event : EventEnvelope) (s : StagedEvent) (w : W)
      → KeepsOwnRow event
      → IsOwnRow event w
      → (stage rt policy now table prepare event w).0 ≡ ok s
      → get rt policy later table prepare event.source event.id
          (stage rt policy now table prepare event w).1
        ≡ (ok (some (record s { created = false })), (stage rt policy now table prepare event w).1)
  get-stage later event s w keeps identified h =
      given later event (stage rt policy now table prepare event w) s
        (stage-GivesBack later event w keeps identified) h
