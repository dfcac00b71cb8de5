-- ===== src/Worker.antt =====
-- src/webhook_gateway/worker.py: the routing of queued events to the processors. Calls of the model
-- providers go through the router of analysis.py; the OneDrive processor is the protocol's record.
pub mod Records
use Prim.Native.String.{◌++◌ as append}
use enterprise_multi_agent_s.Prelude.{
  String, Bool, true, false, not, ◌&&◌, ◌||◌, Option, none, some, List, [], ◌∷◌, ◌==◌, is_some,
  if◌then◌else◌,
}
use enterprise_multi_agent_s.Python.Text.{removeprefix}
use enterprise_multi_agent_s.Python.Set.{contains}
use enterprise_multi_agent_s.Python.Result.{Result, ok, err, value_error, runtime_error}
use enterprise_multi_agent_s.Python.Exec.{Exec, pure, raise, lift, ◌>>=◌, ◌>>◌}
use enterprise_multi_agent_s.Python.Json.{
  Json, str, arr, obj, Items, nil, item, Fields, end, field, get, get_or, has, pop, as_object,
  truthy, text_or_empty,
}
use enterprise_multi_agent_s.Runtime.{Runtime}
use enterprise_multi_agent_s.Events.{EventEnvelope}
use enterprise_multi_agent_s.Idempotency.{IdempotencyStore, StagedEvent}
use enterprise_multi_agent_s.Analysis.{
  AnalysisResult, ProviderRouter, analyze, analyze_provider, provider_names, validate_analysis,
}
use enterprise_multi_agent_s.Analysis

pub record ProcessingResult : Type 0 where
  pub event_id : String
  pub correlation_id : String
  pub status : String
  pub output : Fields
  pub checkpoint : Fields

unfoldable pub to_dict : ProcessingResult → Fields
to_dict r = field "event_id" (str r.event_id) (
    field "correlation_id" (str r.correlation_id)
      (field "status" (str r.status) (field "output" (obj r.output) end)))

unfoldable pub to_private_record : ProcessingResult → Fields
to_private_record r = field "event_id" (str r.event_id) (
    field "correlation_id" (str r.correlation_id) (
      field "status" (str r.status)
        (field "output" (obj r.output) (field "checkpoint" (obj r.checkpoint) end))))

-- The OneDriveProcessor protocol.
pub record OneDriveProcessor (W : Type 0) : Type 0 where
  pub process : EventEnvelope → Exec W Fields
  pub acknowledge : Fields → Exec W (Unit {0})
  pub abandon : Fields → Exec W (Unit {0})

pub record EventProcessor (W : Type 0) : Type 0 where
  pub router : ProviderRouter W
  pub retrieve_background : Option (String → Exec W Fields)
  pub onedrive : Option (OneDriveProcessor W)
  pub retrieve_openai_callbacks : Bool
  pub processing_store : Option (IdempotencyStore W)
  pub resolve : Option (EventEnvelope → Exec W EventEnvelope)

abbrev pub openai_terminal_events : List String
openai_terminal_events =
    "response.completed" ∷ "response.failed" ∷ "response.cancelled" ∷ "response.incomplete" ∷ []

abbrev pub completed : EventEnvelope → Fields → Fields → ProcessingResult
completed event output checkpoint = record {
  event_id = event.id;
  correlation_id = event.correlation_id;
  status = "completed";
  output = output;
  checkpoint = checkpoint;
}

abbrev pub results_json : List AnalysisResult → Items
results_json [] = nil
results_json (r ∷ rs) = item (obj (Analysis.to_dict r)) (results_json rs)

-- the dictionary of a pop, {} when it is not there
abbrev pub fields_or_end : Option Fields → Fields
fields_or_end none = end
fields_or_end (some fs) = fs

-- {key: response.get(key) for key in names if key in response}
unfoldable pub select : Fields → List String → Fields
select response [] = end
select response (name ∷ names) =
    let rest = select response names in
    if has response name then field name (get response name) rest else rest

module _ {Bytes : Type 0} (rt : Runtime Bytes) where
  abbrev pub stored_result :
      String → String → String → Option Fields → Option Fields → Result ProcessingResult
  stored_result event_id correlation_id status (some output) (some checkpoint) =
      if event_id == "" || correlation_id == "" || status == ""
      then err (value_error "Stored processing result is missing required fields")
      else ok (record {
        event_id = event_id;
        correlation_id = correlation_id;
        status = status;
        output = output;
        checkpoint = checkpoint;
      })
  stored_result event_id correlation_id status _ _ =
      err (value_error "Invalid stored processing result")

  unfoldable pub from_private_record : Fields → Result ProcessingResult
  from_private_record value =
      stored_result (text_or_empty rt.repr (get value "event_id"))
        (text_or_empty rt.repr (get value "correlation_id"))
        (text_or_empty rt.repr (get value "status")) (as_object (get value "output"))
        (as_object (get_or value "checkpoint" (obj end)))

  module _ {W : Type 0} (p : EventProcessor W) where
    abbrev pub checkpoint_event : EventEnvelope → String → AnalysisResult → EventEnvelope
    checkpoint_event event checkpoint_id result = record {
      id = checkpoint_id;
      source = "analysis-checkpoint";
      type = "analysis.completed";
      event_data = Analysis.to_dict result;
      correlation_id = event.correlation_id;
      received_at = event.received_at;
      subject = event.subject;
      metadata = end;
      version = "1";
    }

    -- `if staged is None:` run the provider and stage what it says
    unfoldable pub staged_or_run :
        IdempotencyStore W
        → EventEnvelope
        → String
        → String
        → Option StagedEvent
        → Exec W StagedEvent
    staged_or_run store event provider_name checkpoint_id (some staged) = pure staged
    staged_or_run store event provider_name checkpoint_id none = do
      result ← analyze_provider rt p.router event provider_name
      store.stage (checkpoint_event event checkpoint_id result)

    unfoldable pub mark_if_pending : IdempotencyStore W → StagedEvent → Exec W (Unit {0})
    mark_if_pending store staged =
        if staged.state == "sent" then pure tt else store.mark_sent staged.event

    abbrev pub resolved :
        Option (EventEnvelope → Exec W EventEnvelope) → EventEnvelope → Exec W EventEnvelope
    resolved none event = pure event
    resolved (some resolve) event = resolve event

    -- the identity check, and the analysis
    unfoldable pub stored_analysis : String → Fields → Result AnalysisResult
    stored_analysis provider_name stored =
        let provider = text_or_empty rt.repr (get stored "provider") in
        let model = text_or_empty rt.repr (get stored "model") in
        if not (provider == provider_name) || model == ""
        then err (runtime_error "Stored analysis checkpoint has invalid identity")
        else validate_analysis stored provider model

    -- one turn of the loop over the providers
    unfoldable pub analyze_once :
        IdempotencyStore W → EventEnvelope → String → Exec W AnalysisResult
    unfolding staged_or_run mark_if_pending stored_analysis
    analyze_once store event provider_name = do
      let checkpoint_id =
          append event.source (append ":" (append event.id (append ":" provider_name)))
      found ← store.get "analysis-checkpoint" checkpoint_id
      staged ← staged_or_run store event provider_name checkpoint_id found
      mark_if_pending store staged
      stored ← resolved p.resolve staged.event
      lift (stored_analysis provider_name stored.event_data)

    unfoldable pub analyze_each :
        IdempotencyStore W → EventEnvelope → List String → Exec W (List AnalysisResult)
    unfolding analyze_once
    analyze_each store event [] = pure []
    analyze_each store event (name ∷ names) = do
      result ← analyze_once store event name
      results ← analyze_each store event names
      pure (result ∷ results)

    abbrev pub analyze_with :
        Option (IdempotencyStore W) → EventEnvelope → Exec W (List AnalysisResult)
    analyze_with none event = analyze rt p.router event
    analyze_with (some store) event = do
      names ← lift (provider_names rt p.router event)
      analyze_each store event names

    abbrev pub retrieved :
        Option (String → Exec W Fields) → EventEnvelope → String → Exec W ProcessingResult
    retrieved none event response_id =
        raise (runtime_error "OpenAI provider is required to retrieve a response")
    retrieved (some retrieve) event response_id = do
      response ← retrieve response_id
      pure (
          completed event
            (field "response"
              (obj (select response ("id" ∷ "status" ∷ "model" ∷ "output_text" ∷ []))) end)
            end)

    unfoldable pub process_openai_callback : EventEnvelope → Exec W ProcessingResult
    unfolding select
    process_openai_callback event =
        let response_id = text_or_empty rt.repr (get event.event_data "id") in
        if response_id == ""
        then raise (value_error "OpenAI callback is missing response id")
        else if event.type == "response.completed"
        then (if not p.retrieve_openai_callbacks
            then pure (
                completed event
                  (field "response_id" (str response_id)
                    (field "retrieval" (str "disabled_by_default") end))
                  end)
            else retrieved p.retrieve_background event response_id)
        else pure (record {
          event_id = event.id;
          correlation_id = event.correlation_id;
          status = removeprefix event.type "response.";
          output = field "response_id" (str response_id) (field "event" (obj event.event_data) end);
          checkpoint = end;
        })

    -- A checkpoint is a dictionary, as ProcessingResult annotates it; another value is not kept.
    abbrev pub process_onedrive :
        Option (OneDriveProcessor W) → EventEnvelope → Exec W ProcessingResult
    process_onedrive none event = raise (runtime_error "OneDrive delta processor is not configured")
    process_onedrive (some onedrive) event = do
      output ← onedrive.process event
      pure (
          completed event (pop output "_checkpoint")
            (fields_or_end (as_object (get output "_checkpoint"))))

    unfoldable pub process : EventEnvelope → Exec W ProcessingResult
    unfolding process_openai_callback analyze_each
    process event =
        if event.source == "openai" && contains openai_terminal_events event.type
        then process_openai_callback event
        else if event.source == "onedrive"
        then process_onedrive p.onedrive event
        else do
          analyses ← analyze_with p.processing_store event
          pure (completed event (field "analyses" (arr (results_json analyses)) end) end)

    -- `if result.checkpoint and self._onedrive is not None`
    abbrev pub when_checkpoint :
        Option (OneDriveProcessor W)
        → (OneDriveProcessor W → Exec W (Unit {0}))
        → Fields
        → Exec W (Unit {0})
    when_checkpoint none act checkpoint = pure tt
    when_checkpoint (some onedrive) act checkpoint =
        if truthy (obj checkpoint) then act onedrive else pure tt

    unfoldable pub acknowledge : ProcessingResult → Exec W (Unit {0})
    acknowledge result =
        when_checkpoint p.onedrive (λ (o : OneDriveProcessor W). o.acknowledge result.checkpoint)
          result.checkpoint

    unfoldable pub abandon : ProcessingResult → Exec W (Unit {0})
    abandon result =
        when_checkpoint p.onedrive (λ (o : OneDriveProcessor W). o.abandon result.checkpoint)
          result.checkpoint
