-- ===== src/Idempotency/Memory/Laws.antt =====
-- The memory store keeps the contract.
use mathlib.Core.Option
use enterprise_multi_agent_s.Prelude.{
  ◌≡◌, refl, Option, some, arith, Option-cases, inl, inr, if◌then◌else◌, is_some,
}
use enterprise_multi_agent_s.Python.Result.{ok, is_ok}
use enterprise_multi_agent_s.Python.Dict
use enterprise_multi_agent_s.Python.Dict.{pair_eq, pair_beq, get-put, pair_beq_iff}
use enterprise_multi_agent_s.Runtime.{Runtime}
use enterprise_multi_agent_s.Events.{EventEnvelope, event_payload_hash}
use enterprise_multi_agent_s.Idempotency.{Policy}
use enterprise_multi_agent_s.Idempotency.Contract.{
  Entry, Key, key_of, seen, staged, staged_entry, mark, new_entry, IsStore,
}
use enterprise_multi_agent_s.Idempotency.Memory.{
  MemoryIdempotencyStore, get, stage, mark_sent, memory_store,
}

abbrev pub view : MemoryIdempotencyStore → Key → Option Entry
view s k = Dict.get k s.values

module _ {Bytes : Type 0} (rt : Runtime Bytes) (policy : Policy) where
  get-view :
      (source id : _) (w : MemoryIdempotencyStore)
      → get source id w ≡ (ok (Option.map seen (view w (source, id))), w)
  unfolding get
  get-view source id w = ground arith

  stage-view :
      (e : EventEnvelope) (w : MemoryIdempotencyStore)
      → (stage rt policy e w).0 ≡ staged policy (event_payload_hash rt e) e (view w (key_of e))
  unfolding stage
  stage-view e w = ground arith

  view-stage :
      (e : EventEnvelope) (w : MemoryIdempotencyStore) (k : Key)
      → view (stage rt policy e w).1 k ≡ (
          if pair_beq (key_of e) k
          then some (staged_entry (event_payload_hash rt e) e (view w (key_of e)))
          else view w k)
  unfolding stage
  view-stage e w k = ground (
    arith,
    get-put (key_of e) k (new_entry e (event_payload_hash rt e)) w.values,
    pair_beq_iff (key_of e) k,
  )

  mark-view :
      (e : EventEnvelope) (w : MemoryIdempotencyStore)
      → is_ok (mark_sent e w).0 ≡ is_some (view w (key_of e))
  unfolding mark_sent
  mark-view e w = ground arith

  view-mark :
      (e : EventEnvelope) (w : MemoryIdempotencyStore) (k : Key)
      → view (mark_sent e w).1 k
        ≡ (if pair_beq (key_of e) k then Option.map mark (view w (key_of e)) else view w k)
  unfolding mark_sent
  view-mark e w k = elim (Option-cases (view w (key_of e))) [
    | inl absent ↦ ground (arith, pair_beq_iff (key_of e) k)
    | inr (r, here) ↦ ground (arith, get-put (key_of e) k (mark r) w.values)
  ]

  -- The memory store under either policy keeps the store contract: get, stage and mark_sent answer
  -- from the entry under their key and change that entry only, a first stage makes a pending
  -- entry, a second one keeps the entry and under reject raises on another payload, and mark_sent
  -- raises exactly on a key without an entry.
  pub memory-IsStore : IsStore (memory_store rt policy) view policy (event_payload_hash rt) (λ e. e)
  memory-IsStore = record {
    stored_key = λ e. refl;
    get_lem = get-view;
    stage-result = stage-view;
    view-stage = view-stage;
    mark-result = mark-view;
    view-mark = view-mark;
  }
