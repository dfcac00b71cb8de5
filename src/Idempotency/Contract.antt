-- ===== src/Idempotency/Contract.antt =====
-- What a store promises, in terms of one entry for each (source, event id).
use mathlib.Core.Option
use enterprise_multi_agent_s.Prelude.{
  String, ◌≡◌, Bool, true, false, not, Option, none, some, ◌==◌, if◌then◌else◌, is_some,
}
use enterprise_multi_agent_s.Python.Result.{Result, ok, err, runtime_error, is_ok}
use enterprise_multi_agent_s.Python.Dict.{pair_beq}
use enterprise_multi_agent_s.Events.{EventEnvelope}
use enterprise_multi_agent_s.Idempotency.{
  StagedEvent, Policy, reject, first_wins, IdempotencyStore, reused_message,
}

pub record Entry : Type 0 where
  pub event : EventEnvelope
  pub state : String
  pub payload_hash : String

abbrev pub Key : Type 0
Key = String × String

abbrev pub key_of : EventEnvelope → Key
key_of e = (e.source, e.id)

-- What `get` returns of an entry.
abbrev pub seen : Entry → StagedEvent
seen r = record { event = r.event; state = r.state; created = false }

-- A payload that differs is refused under `reject`.
abbrev pub refuses : Policy → String → Entry → Bool
refuses reject hash r = not (r.payload_hash == hash)
refuses first_wins hash r = false

abbrev pub new_entry : EventEnvelope → String → Entry
new_entry e hash = record { event = e; state = "pending"; payload_hash = hash }

-- `stage`: what it returns, and the entry that it leaves.
abbrev pub staged : Policy → String → EventEnvelope → Option Entry → Result StagedEvent
staged policy hash e none = ok (record { event = e; state = "pending"; created = true })
staged policy hash e (some r) =
    if refuses policy hash r then err (runtime_error reused_message) else ok (seen r)

abbrev pub staged_entry : String → EventEnvelope → Option Entry → Entry
staged_entry hash e none = new_entry e hash
staged_entry hash e (some r) = r

abbrev pub mark : Entry → Entry
mark r = record r { state = "sent" }

-- `stored e` is the form in which the store gives a staged event back.
pub record IsStore {W : Type 0} (store : IdempotencyStore W) (view : W → Key → Option Entry)
    (policy : Policy) (hash : EventEnvelope → String) (stored : EventEnvelope → EventEnvelope)
    : Type 0 where
  pub stored_key : (e : EventEnvelope) → key_of (stored e) ≡ key_of e
  pub get_lem :
      (source id : String) (w : W)
      → store.get source id w ≡ (ok (Option.map seen (view w (source, id))), w)
  pub stage-result :
      (e : EventEnvelope) (w : W)
      → (store.stage e w).0 ≡ staged policy (hash e) (stored e) (view w (key_of e))
  pub view-stage :
      (e : EventEnvelope) (w : W) (k : Key)
      → view (store.stage e w).1 k ≡ (
          if pair_beq (key_of e) k
          then some (staged_entry (hash e) (stored e) (view w (key_of e)))
          else view w k)
  pub mark-result :
      (e : EventEnvelope) (w : W) → is_ok (store.mark_sent e w).0 ≡ is_some (view w (key_of e))
  pub view-mark :
      (e : EventEnvelope) (w : W) (k : Key)
      → view (store.mark_sent e w).1 k
        ≡ (if pair_beq (key_of e) k then Option.map mark (view w (key_of e)) else view w k)
