-- ===== src/Queueing.antt =====
-- src/webhook_gateway/queueing.py: the publishers, and the identifier that the queue removes
-- duplicates by.
use Prim.Native.String.{◌++◌ as append}
use enterprise_multi_agent_s.Prelude.{
  ℕ, String, Option, none, some, List, [], ◌∷◌, ◌++◌, ltb, if◌then◌else◌,
}
use enterprise_multi_agent_s.Python.Result.{ok, runtime_error}
use enterprise_multi_agent_s.Python.Exec.{Exec, pure, raise, ◌>>=◌}
use enterprise_multi_agent_s.Runtime.{Runtime}
use enterprise_multi_agent_s.Events.{EventEnvelope, to_json}

unfoldable pub service_bus_message_id : {Bytes : Type 0} → Runtime Bytes → EventEnvelope → String
service_bus_message_id rt event = rt.sha256 (rt.encode (append event.source (append "\0" event.id)))

pub record MemoryEventPublisher : Type 0 where
  pub events : List EventEnvelope

unfoldable pub publish : EventEnvelope → Exec MemoryEventPublisher (Unit {0})
publish event p = (ok tt, record p { events = p.events ++ event ∷ [] })

-- The message that goes to the broker.
pub record ServiceBusMessage (Bytes : Type 0) : Type 0 where
  pub body : Bytes
  pub message_id : String
  pub correlation_id : String
  pub subject : String
  pub content_type : String

-- The broker and the payload store act on a world `W`; `size` is the length of the encoded text, and
-- `max_bytes` the setting MAX_QUEUE_MESSAGE_BYTES.
pub record AzureServiceBusPublisher (Bytes W : Type 0) : Type 0 where
  pub send : ServiceBusMessage Bytes → Exec W (Unit {0})
  pub prepare : Option (EventEnvelope → Exec W EventEnvelope)
  pub size : Bytes → ℕ
  pub max_bytes : ℕ

module _ {Bytes W : Type 0} (rt : Runtime Bytes) (p : AzureServiceBusPublisher Bytes W) where
  unfoldable pub dispatch_form :
      Option (EventEnvelope → Exec W EventEnvelope) → EventEnvelope → Exec W EventEnvelope
  dispatch_form none event = pure event
  dispatch_form (some prepare) event = prepare event

  abbrev pub message_of : EventEnvelope → ServiceBusMessage Bytes
  message_of e = record {
    body = to_json rt e;
    message_id = service_bus_message_id rt e;
    correlation_id = e.correlation_id;
    subject = e.type;
    content_type = "application/json";
  }

  unfoldable pub send_within_limit : EventEnvelope → Exec W (Unit {0})
  send_within_limit event =
      if ltb p.max_bytes (p.size (to_json rt event))
      then raise (runtime_error "Queue envelope exceeds MAX_QUEUE_MESSAGE_BYTES")
      else p.send (message_of event)

  unfoldable pub publish_message : EventEnvelope → Exec W (Unit {0})
  unfolding dispatch_form send_within_limit
  publish_message event = do
    dispatch_event ← dispatch_form p.prepare event
    send_within_limit dispatch_event
