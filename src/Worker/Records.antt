-- ===== src/Worker/Records.antt =====
-- The private records of results, and the analyses that are resumed from their checkpoints.
use Prim.Native.String.{◌++◌ as append}
use enterprise_multi_agent_s.Prelude.{String, ◌≡◌, refl, ◌∙◌, false, Option, some, ◌==◌}
use enterprise_multi_agent_s.Python.Result.{ok}
use enterprise_multi_agent_s.Python.Json.{get, has, text_or_empty-str}
use enterprise_multi_agent_s.Runtime.{Runtime}
use enterprise_multi_agent_s.Events.{EventEnvelope}
use enterprise_multi_agent_s.Idempotency.{IdempotencyStore, Policy}
use enterprise_multi_agent_s.Idempotency.Contract.{Entry, Key, IsStore, seen}
use enterprise_multi_agent_s.Analysis.{ProviderRouter}
use enterprise_multi_agent_s.Worker.{
  ProcessingResult, to_private_record, from_private_record, EventProcessor, analyze_once,
  staged_or_run,
}

-- A processing result whose event id, correlation id and status are not empty is read back from
-- its private record as itself.
pub from_private_record-to_private_record :
    {Bytes : Type 0} (rt : Runtime Bytes) (r : ProcessingResult)
    → (r.event_id == "") ≡ false
    → (r.correlation_id == "") ≡ false
    → (r.status == "") ≡ false
    → from_private_record rt (to_private_record r) ≡ ok r
unfolding from_private_record to_private_record get has
from_private_record-to_private_record rt r a b c =
    rw
      (
        text_or_empty-str rt.repr r.event_id,
        text_or_empty-str rt.repr r.correlation_id,
        text_or_empty-str rt.repr r.status,
      )
      (rw (a, b, c) refl)

module _ {Bytes W : Type 0} (rt : Runtime Bytes) {store : IdempotencyStore W}
    {view : W → Key → Option Entry} {policy : Policy} {hash : EventEnvelope → String}
    {stored : EventEnvelope → EventEnvelope} (lawful : IsStore store view policy hash stored) where
  abbrev pub checkpoint_id : EventEnvelope → String → String
  checkpoint_id event name = append event.source (append ":" (append event.id (append ":" name)))

  -- For a processing store that keeps its contract: when it has the checkpoint of an event and a
  -- provider, the analysis of the event by that provider gives the same outcome and state whatever
  -- providers the router has, so that none is called.
  pub analyze_once-resumes :
      (p : EventProcessor W) (other : ProviderRouter W) (event : EventEnvelope) (name : String)
      (w : W) (r : Entry)
      → view w ("analysis-checkpoint", checkpoint_id event name) ≡ some r
      → analyze_once rt p store event name w
        ≡ analyze_once rt (record p { router = other }) store event name w
  unfolding analyze_once staged_or_run
  analyze_once-resumes p other event name w r there =
      let found : store.get "analysis-checkpoint" (checkpoint_id event name) w
          ≡ (ok (some (seen r)), w) =
        lawful.get_lem "analysis-checkpoint" (checkpoint_id event name) w ∙ rw there refl in
      rw found refl
