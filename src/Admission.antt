-- ===== src/Admission.antt =====
-- src/webhook_gateway/github_admission.py: which GitHub deliveries may cause model calls.
pub mod Policy
use enterprise_multi_agent_s.Prelude.{
  String, Bool, true, false, not, ◌&&◌, ◌||◌, Option, none, some, List, [], ◌∷◌, ◌==◌,
  if◌then◌else◌,
}
use enterprise_multi_agent_s.Python.Text.{strip, upper}
use enterprise_multi_agent_s.Python.Set.{contains}
use enterprise_multi_agent_s.Python.Json.{Json, Fields, get, as_object, text_or_empty}

abbrev pub default_trusted_associations : List String
default_trusted_associations = "OWNER" ∷ "MEMBER" ∷ "COLLABORATOR" ∷ []

-- SAFE_ACTIONS.get(event_type, frozenset())
unfoldable pub safe_actions : String → List String
safe_actions event_type =
    if event_type == "pull_request"
    then "opened" ∷ "reopened" ∷ "synchronize" ∷ "ready_for_review" ∷ []
    else if event_type == "issues"
    then "opened" ∷ "reopened" ∷ "edited" ∷ []
    else if event_type == "issue_comment"
    then "created" ∷ []
    else if event_type == "check_run"
    then "completed" ∷ []
    else if event_type == "check_suite"
    then "completed" ∷ []
    else []

pub record AdmissionDecision : Type 0 where
  pub allowed : Bool
  pub reason : String
  pub repository_id : String
  pub repository : String

pub record GitHubAdmissionPolicy : Type 0 where
  pub repositories : List String
  pub events : List String
  pub associations : List String
  pub apps : List String

-- {value.strip() for value in values if value.strip()}
unfoldable pub stripped : List String → List String
stripped [] = []
stripped (v ∷ vs) = let rest = stripped vs in if strip v == "" then rest else strip v ∷ rest

unfoldable pub upper_all : List String → List String
upper_all [] = []
upper_all (v ∷ vs) = upper v ∷ upper_all vs

unfoldable pub init : List String → List String → List String → List String → GitHubAdmissionPolicy
unfolding stripped upper_all
init allowed_repository_ids allowed_events trusted_associations allowed_app_ids = record {
  repositories = stripped allowed_repository_ids;
  events = stripped allowed_events;
  associations = upper_all (stripped trusted_associations);
  apps = stripped allowed_app_ids;
}

-- The key under which the actor's association stands; `none` is a key that is not in the table.
unfoldable pub association_container : String → Option String
association_container event_type =
    if event_type == "pull_request"
    then some "pull_request"
    else if event_type == "issues"
    then some "issue"
    else if event_type == "issue_comment"
    then some "comment"
    else none

abbrev pub container_or_empty : Option String → String
container_or_empty none = ""
container_or_empty (some c) = c

module _ (repr : Json → String) where
  unfoldable pub app_id_of : Json → String
  app_id_of check = elim (as_object check) [
    | none ↦ ""
    | some fields ↦ elim (as_object (get fields "app")) [
      | none ↦ ""
      | some app ↦ text_or_empty repr (get app "id")
    ]
  ]

  unfoldable pub association_of : Json → String
  association_of item = elim (as_object item) [
    | none ↦ ""
    | some fields ↦ upper (text_or_empty repr (get fields "author_association"))
  ]

  abbrev pub decide : Bool → String → String → String → AdmissionDecision
  decide allowed refusal repository_id repository = record {
    allowed = allowed;
    reason = if allowed then "allowed" else refusal;
    repository_id = repository_id;
    repository = repository;
  }

  -- `evaluate` for a delivery whose repository is the object `repository`
  unfoldable pub evaluate_in : GitHubAdmissionPolicy → String → Fields → Fields → AdmissionDecision
  unfolding contains safe_actions association_container app_id_of association_of
  evaluate_in policy event_type payload repository =
      let repository_id = text_or_empty repr (get repository "id") in
      let repository_name = text_or_empty repr (get repository "full_name") in
      let app_id = app_id_of (get payload event_type) in
      let association =
        association_of (get payload (container_or_empty (association_container event_type))) in
      if repository_id == "" || not (contains policy.repositories repository_id)
      then decide false "repository_not_allowed" repository_id repository_name
      else if not (contains policy.events event_type)
      then decide false "event_not_allowed" repository_id repository_name
      else if event_type == "push"
      then decide true "" repository_id repository_name
      else if not (contains (safe_actions event_type) (text_or_empty repr (get payload "action")))
      then decide false "action_not_allowed" repository_id repository_name
      else if event_type == "check_run" || event_type == "check_suite"
      then decide (not (app_id == "") && contains policy.apps app_id) "app_not_allowed"
          repository_id repository_name
      else decide (contains policy.associations association) "actor_not_trusted" repository_id
          repository_name

  unfoldable pub evaluate_for :
      GitHubAdmissionPolicy → String → Fields → Option Fields → AdmissionDecision
  unfolding evaluate_in
  evaluate_for policy event_type payload none = record {
    allowed = false;
    reason = "missing_repository";
    repository_id = "";
    repository = "";
  }
  evaluate_for policy event_type payload (some repository) =
      evaluate_in policy event_type payload repository

  unfoldable pub evaluate : GitHubAdmissionPolicy → String → Fields → AdmissionDecision
  unfolding evaluate_for
  evaluate policy event_type payload =
      evaluate_for policy event_type payload (as_object (get payload "repository"))
