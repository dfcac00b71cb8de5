-- ===== src/Events/RoundTrip.antt =====
-- An envelope survives its encodings.
use enterprise_multi_agent_s.Prelude.{
  String, ◌≡◌, ◌≢◌, refl, Option, none, some, arith, eq_iff, if◌then◌else◌,
}
use enterprise_multi_agent_s.Python.Result.{ok}
use enterprise_multi_agent_s.Python.Json.{
  Json, obj, str, get, has, truthy, to_text, text_or_null, sort_keys, sort_fields, insert_sorted,
}
use enterprise_multi_agent_s.Runtime.{Runtime, IsRuntime}
use enterprise_multi_agent_s.Events.{
  EventEnvelope, to_dict, from_dict, to_json, from_parsed, from_json, event_payload_hash,
}

-- A receipt time is set, and a subject is absent or not empty.
pub record IsCanonical (e : EventEnvelope) : Type 0 where
  pub received : e.received_at ≢ ""
  pub named : e.subject ≢ some ""

-- What an envelope becomes in transit: the keys of its two objects are put in order.
abbrev pub in_order : EventEnvelope → EventEnvelope
in_order e = record e { event_data = sort_fields e.event_data; metadata = sort_fields e.metadata }

read_received : (now t : String) → t ≢ "" → (if truthy (str t) then t else now) ≡ t
unfolding truthy
read_received now t h = ground (arith, eq_iff t "")

read_subject :
    (repr : Json → String) (s : Option String)
    → s ≢ some ""
    → (if truthy (text_or_null s) then some (to_text repr (text_or_null s)) else none) ≡ s
unfolding truthy to_text
read_subject repr none h = refl
read_subject repr (some t) h = ground (arith, eq_iff t "")

module _ {Bytes : Type 0} (rt : Runtime Bytes) where
  pub from_dict-to_dict :
      (now : String) (e : EventEnvelope) → IsCanonical e → from_dict rt now (to_dict e) ≡ ok e
  unfolding from_dict to_dict get has
  from_dict-to_dict now e c =
      rw (read_received now e.received_at c.received, read_subject rt.repr e.subject c.named)

  sorted_subject : (s : Option String) → sort_keys (text_or_null s) ≡ text_or_null s
  unfolding sort_keys
  sorted_subject none = refl
  sorted_subject (some t) = refl

  from_sorted :
      (now : String) (e : EventEnvelope)
      → IsCanonical e
      → from_parsed rt now (some (sort_keys (obj (to_dict e)))) ≡ ok (in_order e)
  unfolding from_parsed from_dict to_dict get has sort_keys insert_sorted
  from_sorted now e c =
      rw (sorted_subject e.subject) (
        rw (read_received now e.received_at c.received, read_subject rt.repr e.subject c.named)
          refl)

  -- For a JSON codec that reads back what it writes with the keys in order: an envelope with a
  -- receipt time and no empty subject is read back from its JSON text, whatever the clock says, as
  -- itself with the keys of its data and metadata in order.
  pub from_json-to_json :
      (laws : IsRuntime rt) (now : String) (e : EventEnvelope)
      → IsCanonical e
      → from_json rt now (to_json rt e) ≡ ok (in_order e)
  unfolding from_json to_json
  from_json-to_json laws now e c = rw (laws.loads-dumps (obj (to_dict e))) (from_sorted now e c)

  -- Deliveries of one event at two times have one hash.
  pub event_payload_hash-received_at :
      (e : EventEnvelope) (later : String)
      → event_payload_hash rt (record e { received_at = later }) ≡ event_payload_hash rt e
  unfolding event_payload_hash
  event_payload_hash-received_at e later = refl
