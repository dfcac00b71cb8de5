-- ===== src/Payloads.antt =====
-- src/webhook_gateway/payloads.py: full envelopes in private blobs, and pointers to them on the
-- queues. The blob container is a client of the service, acting on a world `W`.

pub mod Integrity
use Prim.Native.Char.{Char, code}
use Prim.Native.String.{count, ◌++◌ as append}
use enterprise_multi_agent_s.Prelude.{
  ℕ, String, Bool, true, false, not, ◌&&◌, ◌||◌, Option, none, some, ◌==◌, eqb, leb, is_some,
  if◌then◌else◌,
}
use enterprise_multi_agent_s.Python.Text.{lower, after_prefix}
use enterprise_multi_agent_s.Python.Result.{
  Exn, Result, ok, err, runtime_error, service_error, raise_if,
}
use enterprise_multi_agent_s.Python.Exec.{Exec, pure, raise, lift, catch, ◌>>=◌, ◌>>◌}
use enterprise_multi_agent_s.Python.Json.{
  Json, bool, str, obj, Fields, end, field, get, put, truthy, as_object, text_or_empty,
}
use enterprise_multi_agent_s.Runtime.{Runtime}
use enterprise_multi_agent_s.Events.{EventEnvelope, to_json, from_json, event_payload_hash}

-- A blob's metadata are two texts. An upload does not overwrite.
pub record ContainerClient (Bytes W : Type 0) : Type 0 where
  pub container_name : String
  pub upload_blob : String → Bytes → String × String → Exec W (Unit {0})
  pub get_blob_properties : String → Exec W (Option String × Option String)
  pub download_blob : String → Exec W Bytes

abbrev pub pointer_key : String
pointer_key = "_event_blob"

unfoldable pub is_pointer : EventEnvelope → Bool
is_pointer event =
    truthy (get event.metadata "payload_offloaded")
    && is_some (as_object (get event.event_data pointer_key))

abbrev is_small_letter_or_digit : Char → Bool
is_small_letter_or_digit c =
    leb 97 (code c) && leb (code c) 122 || leb 48 (code c) && leb (code c) 57

-- re.sub(r"[^a-z0-9-]", "-", s)
unfoldable pub dashed : String → String
dashed String.[] = ""
dashed (String.◌∷◌ c s) =
    let rest = dashed s in if is_small_letter_or_digit c then String.◌∷◌ c rest else append "-" rest

abbrev is_dash : Char → Bool
is_dash c = eqb (code c) 45

-- s.strip("-")
unfoldable pub strip_left : String → String
strip_left String.[] = ""
strip_left (String.◌∷◌ c s) = let rest = strip_left s in if is_dash c then rest else String.◌∷◌ c s

unfoldable pub strip_right : String → String
strip_right String.[] = ""
strip_right (String.◌∷◌ c s) =
    let rest = strip_right s in if is_dash c && rest == "" then "" else String.◌∷◌ c rest

unfoldable pub safe_source : String → String
unfolding dashed strip_left strip_right
safe_source source = strip_right (strip_left (dashed (lower source)))

-- re.fullmatch(r"[a-f0-9]{64}", s)
abbrev is_hex_digit : Char → Bool
is_hex_digit c = leb 97 (code c) && leb (code c) 102 || leb 48 (code c) && leb (code c) 57

unfoldable pub all_hex : String → Bool
all_hex String.[] = true
all_hex (String.◌∷◌ c s) = is_hex_digit c && all_hex s

unfoldable pub is_digest : String → Bool
unfolding all_hex
is_digest s = eqb (count s) 64 && all_hex s

abbrev pub is_exists_error : Exn → Bool
is_exists_error (service_error name status) = name == "ResourceExistsError"
is_exists_error _ = false

abbrev pub equals : Option String → String → Bool
equals none s = false
equals (some t) s = t == s

module _ {Bytes W : Type 0} (rt : Runtime Bytes) (container : ContainerClient Bytes W) where
  unfoldable pub blob_name_of : EventEnvelope → String
  unfolding safe_source
  blob_name_of event =
      let source = safe_source event.source in
      append "events/" (
        append (if source == "" then "unknown" else source) (
          append "/" (
            append (rt.sha256 (rt.encode (append event.source (append "\0" event.id))))
              (append "/" (append (rt.sha256 (to_json rt event)) ".json")))))

  -- the `except ResourceExistsError` branch
  unfoldable pub check_existing : String → String → String → Exn → Exec W (Unit {0})
  check_existing blob_name content_hash payload_hash e =
      if not (is_exists_error e) then raise e else do
        metadata ← container.get_blob_properties blob_name
        lift (
            raise_if (not (equals metadata.0 content_hash && equals metadata.1 payload_hash))
              (runtime_error "Existing event blob has invalid integrity metadata"))

  abbrev pub reference_to : EventEnvelope → Fields
  reference_to event = field "container" (str container.container_name) (
      field "name" (str (blob_name_of event))
        (field "sha256" (str (rt.sha256 (to_json rt event))) end))

  abbrev pub pointer_to : EventEnvelope → EventEnvelope
  pointer_to event = record event {
    event_data = field pointer_key (obj (reference_to event)) end;
    metadata = put event.metadata "payload_offloaded" (bool true);
  }

  unfoldable pub prepare : EventEnvelope → Exec W EventEnvelope
  unfolding check_existing
  prepare event = if is_pointer event then pure event else do
    let payload = to_json rt event
    let content_hash = rt.sha256 payload
    let payload_hash = event_payload_hash rt event
    catch (container.upload_blob (blob_name_of event) payload (content_hash, payload_hash))
        (check_existing (blob_name_of event) content_hash payload_hash)
    pure (pointer_to event)

  -- the identity check on what was read
  unfoldable pub same_event : EventEnvelope → EventEnvelope → Result EventEnvelope
  same_event event resolved =
      if not (resolved.id == event.id) || not (resolved.source == event.source)
      then err (runtime_error "Event payload identity mismatch")
      else ok resolved

  unfoldable pub read_payload : String → EventEnvelope → String → Bytes → Exec W EventEnvelope
  unfolding same_event
  read_payload now event expected_hash payload =
      if not (rt.sha256 payload == expected_hash)
      then raise (runtime_error "Event payload integrity check failed")
      else do resolved ← lift (from_json rt now payload); lift (same_event event resolved)

  unfoldable pub follow : String → EventEnvelope → String → String → String → Exec W EventEnvelope
  unfolding read_payload
  follow now event name_of_container blob_name expected_hash =
      if not (name_of_container == container.container_name)
        || not (is_some (after_prefix "events/" blob_name))
      then raise (runtime_error "Invalid event payload reference")
      else if not (is_digest expected_hash)
      then raise (runtime_error "Invalid event payload hash")
      else do
        payload ← container.download_blob blob_name
        read_payload now event expected_hash payload

  abbrev pub resolve_at : String → EventEnvelope → Option Fields → Exec W EventEnvelope
  resolve_at now event none = pure event
  resolve_at now event (some reference) =
      follow now event (text_or_empty rt.repr (get reference "container"))
        (text_or_empty rt.repr (get reference "name"))
        (text_or_empty rt.repr (get reference "sha256"))

  unfoldable pub resolve : String → EventEnvelope → Exec W EventEnvelope
  unfolding follow
  resolve now event =
      if not (is_pointer event)
      then pure event
      else resolve_at now event (as_object (get event.event_data pointer_key))
