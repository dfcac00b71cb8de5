-- ===== src/Events.antt =====
-- src/webhook_gateway/events.py: the envelope that receivers and workers share. The source's field
-- `data` is `event_data`; `now` is what datetime.now(timezone.utc).isoformat() returns at the call.
pub mod RoundTrip
use Prim.Native.String.{◌++◌ as append}
use enterprise_multi_agent_s.Prelude.{
  String, Option, none, some, Bool, true, false, List, [], ◌∷◌, if◌then◌else◌,
}
use enterprise_multi_agent_s.Python.Text.{join}
use enterprise_multi_agent_s.Python.Result.{Result, ok, err, value_error, ◌>>=◌}
use enterprise_multi_agent_s.Python.Json.{
  Json, str, obj, Fields, end, field, get, get_or, has, pop, truthy, as_object, text_or_null,
  to_text,
}
use enterprise_multi_agent_s.Runtime.{Runtime}

pub record EventEnvelope : Type 0 where
  pub id : String
  pub source : String
  pub type : String
  pub event_data : Fields
  pub correlation_id : String
  pub received_at : String
  pub subject : Option String
  pub metadata : Fields
  pub version : String

-- dataclasses.asdict
unfoldable pub to_dict : EventEnvelope → Fields
to_dict e = field "id" (str e.id) (
    field "source" (str e.source) (
      field "type" (str e.type) (
        field "data" (obj e.event_data) (
          field "correlation_id" (str e.correlation_id) (
            field "received_at" (str e.received_at) (
              field "subject" (text_or_null e.subject)
                (field "metadata" (obj e.metadata) (field "version" (str e.version) end))))))))

abbrev required_fields : List String
required_fields = "id" ∷ "source" ∷ "type" ∷ "data" ∷ "correlation_id" ∷ []

unfoldable pub missing_from : Fields → List String → List String
missing_from value [] = []
missing_from value (name ∷ names) =
    let rest = missing_from value names in if has value name then rest else name ∷ rest

-- The object behind a key that must hold one.
abbrev pub require_object : Json → String → Result Fields
require_object v message = elim (as_object v) [ none ↦ err (value_error message) | some fs ↦ ok fs ]

-- `if missing: raise`
abbrev pub no_missing : String → List String → Result (Unit {0})
no_missing message [] = ok tt
no_missing message (name ∷ names) = err (value_error (append message (join ", " (name ∷ names))))

module _ {Bytes : Type 0} (rt : Runtime Bytes) where
  unfoldable pub from_dict : String → Fields → Result EventEnvelope
  unfolding missing_from to_text
  from_dict now value = do
    _ ← no_missing "Missing event envelope fields: " (missing_from value required_fields)
    event_data ← require_object (get value "data") "Event envelope data must be an object"
    metadata ←
        require_object (get_or value "metadata" (obj end))
          "Event envelope metadata must be an object"
    ok (record {
      id = to_text rt.repr (get value "id");
      source = to_text rt.repr (get value "source");
      type = to_text rt.repr (get value "type");
      event_data = event_data;
      correlation_id = to_text rt.repr (get value "correlation_id");
      received_at =
          if truthy (get value "received_at")
          then to_text rt.repr (get value "received_at")
          else now;
      subject =
          if truthy (get value "subject")
          then some (to_text rt.repr (get value "subject"))
          else none;
      metadata = metadata;
      version = to_text rt.repr (get_or value "version" (str "1"));
    })

  unfoldable pub to_json : EventEnvelope → Bytes
  to_json e = rt.dumps (obj (to_dict e))

  unfoldable pub from_parsed : String → Option Json → Result EventEnvelope
  from_parsed now none = err (value_error "JSONDecodeError")
  from_parsed now (some parsed) = do
    fields ← require_object parsed "Event envelope must be a JSON object"
    from_dict now fields

  unfoldable pub from_json : String → Bytes → Result EventEnvelope
  from_json now value = from_parsed now (rt.loads value)

  -- the hash leaves the receipt time out
  unfoldable pub event_payload_hash : EventEnvelope → String
  unfolding to_dict pop
  event_payload_hash e = rt.sha256 (rt.dumps (obj (pop (to_dict e) "received_at")))
