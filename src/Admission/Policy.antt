-- ===== src/Admission/Policy.antt =====
-- The admission rules, stated apart from the code that decides them.
pub mod Causes
use enterprise_multi_agent_s.Prelude.{
  String, ◌≡◌, ◌≢◌, sym, ◌∙◌, Bool-cases, false≢true, refl, ◌↔◌, ◌⊎◌, Bool, true, false, not, ◌&&◌,
  ◌||◌, Option, none, some, List, [], ◌∷◌, ◌==◌, eq_iff, arith, inl, inr, Among, if◌then◌else◌,
}
use enterprise_multi_agent_s.Python.Json.{Json, Fields, get, as_object, text_or_empty}
use enterprise_multi_agent_s.Python.Set.{contains, contains_iff}
use enterprise_multi_agent_s.Admission.{
  GitHubAdmissionPolicy, evaluate, evaluate_for, evaluate_in, safe_actions, app_id_of,
  association_of, association_container, container_or_empty, decide,
}
use enterprise_multi_agent_s.Admission.Policy.Causes.{
  Cause, caused, caused_of_Cause, Cause-of_caused,
}

module _ (repr : Json → String) (policy : GitHubAdmissionPolicy) where
  -- The chain of guards, on its tests alone.
  gates :
      (blank listed event pushed action checked app actor : Bool) (id name : String)
      → (if blank || not listed
          then decide repr false "repository_not_allowed" id name
          else if not event
          then decide repr false "event_not_allowed" id name
          else if pushed
          then decide repr true "" id name
          else if not action
          then decide repr false "action_not_allowed" id name
          else if checked
          then decide repr app "app_not_allowed" id name
          else decide repr actor "actor_not_trusted" id name).allowed
        ≡ (not blank && listed && event && (pushed || action && (if checked then app else actor)))
  gates true listed event pushed action checked app actor id name = refl
  gates false false event pushed action checked app actor id name = refl
  gates false true false pushed action checked app actor id name = refl
  gates false true true true action checked app actor id name = refl
  gates false true true false false checked app actor id name = refl
  gates false true true false true true app actor id name = refl
  gates false true true false true false app actor id name = refl

  pub record IsAdmissible (event_type : String) (payload : Fields) : Type 0 where
    pub repository : Fields
    pub found : as_object (get payload "repository") ≡ some repository
    pub identified : text_or_empty repr (get repository "id") ≢ ""
    pub listed : Among (text_or_empty repr (get repository "id")) policy.repositories
    pub event_listed : Among event_type policy.events
    pub cause : Cause repr policy event_type payload

  allowed-evaluate_in :
      (event_type : String) (payload repository : Fields)
      → (evaluate_in repr policy event_type payload repository).allowed ≡ (
          not (text_or_empty repr (get repository "id") == "")
          && contains policy.repositories (text_or_empty repr (get repository "id"))
          && contains policy.events event_type
          && caused repr policy event_type payload)
  unfolding evaluate_in caused
  allowed-evaluate_in event_type payload repository =
      let id = text_or_empty repr (get repository "id") in
      let app_id = app_id_of repr (get payload event_type) in
      gates (id == "") (contains policy.repositories id) (contains policy.events event_type)
        (event_type == "push")
        (contains (safe_actions event_type) (text_or_empty repr (get payload "action")))
        (event_type == "check_run" || event_type == "check_suite")
        (not (app_id == "") && contains policy.apps app_id)
        (contains policy.associations (
          association_of repr
            (get payload (container_or_empty (association_container event_type)))))
        id (text_or_empty repr (get repository "full_name"))

  module _ (event_type : String) (payload : Fields) where
    IsAdmissible-of_allowed :
        (o : Option Fields)
        → as_object (get payload "repository") ≡ o
        → (evaluate_for repr policy event_type payload o).allowed ≡ true
        → IsAdmissible event_type payload
    unfolding evaluate_for
    IsAdmissible-of_allowed none found h = absurd (false≢true h)
    IsAdmissible-of_allowed (some repository) found h =
        let id = text_or_empty repr (get repository "id") in
        let open_gates = sym (allowed-evaluate_in event_type payload repository) ∙ h in
        record {
          repository = repository;
          found = found;
          identified = ground (arith, eq_iff id "");
          listed = (contains_iff policy.repositories id).0 (ground arith);
          event_listed = (contains_iff policy.events event_type).0 (ground arith);
          cause = Cause-of_caused repr policy payload event_type (ground arith);
        }

    allowed_of_IsAdmissible :
        IsAdmissible event_type payload → (evaluate repr policy event_type payload).allowed ≡ true
    unfolding evaluate evaluate_for
    allowed_of_IsAdmissible a =
        let id = text_or_empty repr (get a.repository "id") in
        rw a.found (
          rw (allowed-evaluate_in event_type payload a.repository) (
            ground (
              arith,
              eq_iff id "",
              (contains_iff policy.repositories id).1 a.listed,
              (contains_iff policy.events event_type).1 a.event_listed,
              caused_of_Cause repr policy payload event_type a.cause,
            )))

    -- The admission policy allows a delivery exactly when the payload names a repository object
    -- with a listed id, the event is listed, and the event is a push, a completed check of a
    -- listed app, or a pull request, issue or issue comment with a safe action by a trusted actor.
    pub evaluate-allowed_iff :
        ((evaluate repr policy event_type payload).allowed ≡ true) ↔ IsAdmissible event_type payload
    unfolding evaluate
    evaluate-allowed_iff = (
      IsAdmissible-of_allowed (as_object (get payload "repository")) refl,
      allowed_of_IsAdmissible,
    )
