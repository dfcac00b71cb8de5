-- ===== src/Analysis.antt =====
-- src/webhook_gateway/analysis.py: the checks around the model calls. `Sanitize` is
-- sanitize_for_model, `Validation` has the theorem on validate_analysis, and ProviderRouter is here.
-- The requests to the two vendors' clients are calls of a provider, a parameter.
pub mod Validation
pub mod Sanitize
pub mod Prompt
use Prim.Native.String.{◌++◌ as append}
use enterprise_multi_agent_s.Prelude.{
  String, Bool, true, false, not, ◌&&◌, Option, none, some, List, [], ◌∷◌, ◌==◌, map, if◌then◌else◌,
}
use enterprise_multi_agent_s.Python.Text.{strip}
use enterprise_multi_agent_s.Python.Result.{
  Result, ok, err, value_error, type_error, raise_if, ◌>>=◌, ◌>>◌,
}
use enterprise_multi_agent_s.Python.Exec.{Exec, pure, raise, lift}
use enterprise_multi_agent_s.Python.Exec
use enterprise_multi_agent_s.Python.Set.{contains}
use enterprise_multi_agent_s.Python.Dict
use enterprise_multi_agent_s.Python.Dict.{Dict, string_eq}
use enterprise_multi_agent_s.Python.Json.{
  Json, bool, str, arr, obj, Fields, end, field, get, truthy, text_or_empty,
}
use enterprise_multi_agent_s.Runtime.{Runtime}
use enterprise_multi_agent_s.Events.{EventEnvelope, missing_from, no_missing}

pub record AnalysisResult : Type 0 where
  pub summary : String
  pub category : String
  pub urgency : String
  pub recommended_action : String
  pub requires_human_approval : Bool
  pub provider : String
  pub model : String

-- asdict
unfoldable pub to_dict : AnalysisResult → Fields
to_dict r = field "summary" (str r.summary) (
    field "category" (str r.category) (
      field "urgency" (str r.urgency) (
        field "recommended_action" (str r.recommended_action) (
          field "requires_human_approval" (bool r.requires_human_approval)
            (field "provider" (str r.provider) (field "model" (str r.model) end))))))

-- ANALYSIS_SCHEMA["required"]
abbrev pub required : List String
required =
    "summary" ∷ "category" ∷ "urgency" ∷ "recommended_action" ∷ "requires_human_approval" ∷ []

abbrev pub urgencies : List String
urgencies = "low" ∷ "medium" ∷ "high" ∷ []

-- the test in a set raises on a list or a dictionary, which have no hash
unfoldable pub urgency_of : Json → Result String
urgency_of (str s) =
    if contains urgencies s then ok s else err (value_error "Analysis urgency is invalid")
urgency_of (arr xs) = err (type_error "unhashable type: 'list'")
urgency_of (obj fs) = err (type_error "unhashable type: 'dict'")
urgency_of _ = err (value_error "Analysis urgency is invalid")

unfoldable pub require_bool : Json → Result (Unit {0})
require_bool (bool b) = ok tt
require_bool _ = err (value_error "requires_human_approval must be a boolean")

-- the text of a field without the white space around it
unfoldable pub require_text : String → Json → Result String
require_text field_name (str s) =
    let text = strip s in
    if text == ""
    then err (value_error (append field_name " must be a non-empty string"))
    else ok text
require_text field_name _ = err (value_error (append field_name " must be a non-empty string"))

unfoldable pub validate_analysis : Fields → String → String → Result AnalysisResult
unfolding urgency_of require_bool require_text
validate_analysis value provider model = do
  _ ← no_missing "Analysis is missing fields: " (missing_from value required)
  urgency ← urgency_of (get value "urgency")
  _ ← require_bool (get value "requires_human_approval")
  summary ← require_text "summary" (get value "summary")
  category ← require_text "category" (get value "category")
  recommended_action ← require_text "recommended_action" (get value "recommended_action")
  ok (record {
    summary = summary;
    category = category;
    urgency = urgency;
    recommended_action = recommended_action;
    requires_human_approval = true;
    provider = provider;
    model = model;
  })

abbrev pub AnalysisProvider : Type 0 → Type 0
AnalysisProvider W = EventEnvelope → Exec W AnalysisResult

pub record ProviderRouter (W : Type 0) : Type 0 where
  pub providers : Dict String (AnalysisProvider W)
  pub default_provider : String

abbrev unknown_provider : String → String
unknown_provider name = append "Unknown AI provider: " name

-- the constructor
unfoldable pub init :
    {W : Type 0} → Dict String (AnalysisProvider W) → String → Result (ProviderRouter W)
init providers default_provider = elim (Dict.get default_provider providers) [
  | some provider ↦ ok (record { providers = providers; default_provider = default_provider })
  | none ↦
      if default_provider == "both"
      then ok (record { providers = providers; default_provider = default_provider })
      else err (value_error (append "Unknown default provider: " default_provider))
]

module _ {Bytes W : Type 0} (rt : Runtime Bytes) (router : ProviderRouter W) where
  -- `for name in names: if name not in self._providers: raise`
  unfoldable pub check_names : List String → Result (Unit {0})
  check_names [] = ok tt
  check_names (name ∷ names) = elim (Dict.get name router.providers) [
    | none ↦ err (value_error (unknown_provider name))
    | some provider ↦ check_names names
  ]

  -- provider_names(event)
  unfoldable pub provider_names : EventEnvelope → Result (List String)
  unfolding check_names
  provider_names event =
      let chosen = get event.metadata "ai_provider" in
      let selected =
        if truthy chosen then text_or_empty rt.repr chosen else router.default_provider in
      let names =
        if selected == "both"
        then map (λ (p : String × AnalysisProvider W). p.0) router.providers
        else selected ∷ [] in
      do _ ← check_names names; ok names

  unfoldable pub analyze_provider : EventEnvelope → String → Exec W AnalysisResult
  analyze_provider event provider = elim (Dict.get provider router.providers) [
    | none ↦ raise (value_error (unknown_provider provider))
    | some analyze ↦ analyze event
  ]

  unfoldable pub analyze_all : EventEnvelope → List String → Exec W (List AnalysisResult)
  unfolding analyze_provider
  analyze_all event [] = pure []
  analyze_all event (name ∷ names) =
      Exec.◌>>=◌ (analyze_provider event name)
        λ result. Exec.◌>>=◌ (analyze_all event names) λ results. pure (result ∷ results)

  unfoldable pub analyze : EventEnvelope → Exec W (List AnalysisResult)
  unfolding analyze_all
  analyze event = Exec.◌>>=◌ (lift (provider_names event)) (analyze_all event)
