-- ===== src/Admission/Policy/Causes.antt =====
-- The causes of a delivery that may lead to model calls, and the guards that decide them.
use enterprise_multi_agent_s.Prelude.{
  String, ◌≡◌, ◌≢◌, sym, ◌∙◌, Bool-cases, false≢true, ◌↔◌, ◌⊎◌, Bool, true, false, not, ◌&&◌, ◌||◌,
  List, [], ◌∷◌, ◌==◌, eq_iff, arith, inl, inr, Among, if◌then◌else◌,
}
use enterprise_multi_agent_s.Python.Json.{Json, Fields, get, text_or_empty}
use enterprise_multi_agent_s.Python.Set.{contains, contains_iff}
use enterprise_multi_agent_s.Admission.{
  GitHubAdmissionPolicy, safe_actions, app_id_of, association_of, association_container,
  container_or_empty,
}

module _ (repr : Json → String) (policy : GitHubAdmissionPolicy) where
  -- What makes a delivery one that may cause model calls.
  pub data Cause (event_type : String) (payload : Fields) : Type 0 where
    push : event_type ≡ "push" → Cause event_type payload
    check :
        (event_type ≡ "check_run") ⊎ (event_type ≡ "check_suite")
        → text_or_empty repr (get payload "action") ≡ "completed"
        → app_id_of repr (get payload event_type) ≢ ""
        → Among (app_id_of repr (get payload event_type)) policy.apps
        → Cause event_type payload
    pull_request :
        event_type ≡ "pull_request"
        → Among
            (text_or_empty repr (get payload "action"))
            ("opened" ∷ "reopened" ∷ "synchronize" ∷ "ready_for_review" ∷ [])
        → Among (association_of repr (get payload "pull_request")) policy.associations
        → Cause event_type payload
    issue :
        event_type ≡ "issues"
        → Among (text_or_empty repr (get payload "action")) ("opened" ∷ "reopened" ∷ "edited" ∷ [])
        → Among (association_of repr (get payload "issue")) policy.associations
        → Cause event_type payload
    comment :
        event_type ≡ "issue_comment"
        → text_or_empty repr (get payload "action") ≡ "created"
        → Among (association_of repr (get payload "comment")) policy.associations
        → Cause event_type payload

  -- The guards of `evaluate` behind those on the repository and the event's name.
  unfoldable pub caused : String → Fields → Bool
  caused event_type payload =
      event_type == "push"
      || contains (safe_actions event_type) (text_or_empty repr (get payload "action"))
        && (if event_type == "check_run" || event_type == "check_suite"
            then not (app_id_of repr (get payload event_type) == "")
              && contains policy.apps (app_id_of repr (get payload event_type))
            else contains policy.associations (
                association_of repr
                  (get payload (container_or_empty (association_container event_type)))))

  module _ (payload : Fields) where
    action : String
    action = text_or_empty repr (get payload "action")

    -- `actor c` is trusted and the action is one of `actions`.
    trusted : String → List String → Bool
    trusted c actions =
        contains actions action
        && contains policy.associations (association_of repr (get payload c))

    trusted_iff :
        (c : String) (actions : List String)
        → (trusted c actions ≡ true)
          ↔ (Among action actions × Among (association_of repr (get payload c)) policy.associations)
    unfolding trusted
    trusted_iff c actions =
        let asked = contains_iff actions action in
        let known = contains_iff policy.associations (association_of repr (get payload c)) in
        (
          λ h. (asked.0 (ground arith), known.0 (ground arith)),
          λ p. ground (arith, asked.1 p.0, known.1 p.1),
        )

    checked_iff :
        (c : String)
        → (contains ("completed" ∷ []) action
              && (not (app_id_of repr (get payload c) == "")
                  && contains policy.apps (app_id_of repr (get payload c)))
            ≡ true)
          ↔ ((action ≡ "completed")
              × (app_id_of repr (get payload c) ≢ "")
              × Among (app_id_of repr (get payload c)) policy.apps)
    unfolding contains
    checked_iff c =
        let app = app_id_of repr (get payload c) in
        let known = contains_iff policy.apps app in
        (
          λ h. (
            ground (arith, eq_iff "completed" action),
            ground (arith, eq_iff app ""),
            known.0 (ground arith),
          ),
          λ p. ground (arith, eq_iff "completed" action, eq_iff app "", known.1 p.2),
        )

    pub caused_of_Cause :
        (event_type : String) → Cause event_type payload → caused event_type payload ≡ true
    unfolding caused safe_actions association_container action trusted
    caused_of_Cause event_type (push e) = rw e
    caused_of_Cause event_type (check (inl e) a i m) =
        rw e ((checked_iff "check_run").1 (a, (rw e at i), (rw e at m)))
    caused_of_Cause event_type (check (inr e) a i m) =
        rw e ((checked_iff "check_suite").1 (a, (rw e at i), (rw e at m)))
    caused_of_Cause event_type (pull_request e a m) = rw e ((trusted_iff "pull_request" _).1 (a, m))
    caused_of_Cause event_type (issue e a m) = rw e ((trusted_iff "issue" _).1 (a, m))
    caused_of_Cause event_type (comment e a m) =
        rw e ((trusted_iff "comment" ("created" ∷ [])).1 (inl (sym a), m))

    pull_request-Cause :
        {event_type : String}
        → event_type ≡ "pull_request"
        → caused "pull_request" payload ≡ true
        → Cause event_type payload
    unfolding caused safe_actions association_container action trusted
    pull_request-Cause e h =
        let t =
          (trusted_iff "pull_request"
              ("opened" ∷ "reopened" ∷ "synchronize" ∷ "ready_for_review" ∷ [])).0
            h in
        pull_request e t.0 t.1

    issue-Cause :
        {event_type : String}
        → event_type ≡ "issues"
        → caused "issues" payload ≡ true
        → Cause event_type payload
    unfolding caused safe_actions association_container action trusted
    issue-Cause e h =
        let t = (trusted_iff "issue" ("opened" ∷ "reopened" ∷ "edited" ∷ [])).0 h in issue e t.0 t.1

    comment-Cause :
        {event_type : String}
        → event_type ≡ "issue_comment"
        → caused "issue_comment" payload ≡ true
        → Cause event_type payload
    unfolding caused safe_actions association_container action trusted
    comment-Cause e h =
        let t = (trusted_iff "comment" ("created" ∷ [])).0 h in comment e (ground arith) t.1

    check_run-Cause :
        {event_type : String}
        → event_type ≡ "check_run"
        → caused "check_run" payload ≡ true
        → Cause event_type payload
    unfolding caused safe_actions action
    check_run-Cause e h =
        let t = (checked_iff "check_run").0 h in check (inl e) t.0 (rw e t.1) (rw e t.2)

    check_suite-Cause :
        {event_type : String}
        → event_type ≡ "check_suite"
        → caused "check_suite" payload ≡ true
        → Cause event_type payload
    unfolding caused safe_actions action
    check_suite-Cause e h =
        let t = (checked_iff "check_suite").0 h in check (inr e) t.0 (rw e t.1) (rw e t.2)

    other_event :
        (event_type : String)
        → (event_type == "push") ≡ false
        → (event_type == "pull_request") ≡ false
        → (event_type == "issues") ≡ false
        → (event_type == "issue_comment") ≡ false
        → (event_type == "check_run") ≡ false
        → (event_type == "check_suite") ≡ false
        → caused event_type payload ≡ false
    unfolding caused safe_actions contains
    other_event event_type n0 n1 n2 n3 n4 n5 = ground arith

    pub Cause-of_caused :
        (event_type : String) → caused event_type payload ≡ true → Cause event_type payload
    Cause-of_caused event_type h = elim (Bool-cases (event_type == "push")) [
      | inl e ↦ push ((eq_iff event_type "push").0 e)
      | inr n0 ↦ elim (Bool-cases (event_type == "pull_request")) [
        | inl e ↦
            pull_request-Cause ((eq_iff event_type "pull_request").0 e)
              (rw ((eq_iff event_type "pull_request").0 e) at h)
        | inr n1 ↦ elim (Bool-cases (event_type == "issues")) [
          | inl e ↦
              issue-Cause ((eq_iff event_type "issues").0 e)
                (rw ((eq_iff event_type "issues").0 e) at h)
          | inr n2 ↦ elim (Bool-cases (event_type == "issue_comment")) [
            | inl e ↦
                comment-Cause ((eq_iff event_type "issue_comment").0 e)
                  (rw ((eq_iff event_type "issue_comment").0 e) at h)
            | inr n3 ↦ elim (Bool-cases (event_type == "check_run")) [
              | inl e ↦
                  check_run-Cause ((eq_iff event_type "check_run").0 e)
                    (rw ((eq_iff event_type "check_run").0 e) at h)
              | inr n4 ↦ elim (Bool-cases (event_type == "check_suite")) [
                | inl e ↦
                    check_suite-Cause ((eq_iff event_type "check_suite").0 e)
                      (rw ((eq_iff event_type "check_suite").0 e) at h)
                | inr n5 ↦ absurd (false≢true (sym (other_event event_type n0 n1 n2 n3 n4 n5) ∙ h))
              ]
            ]
          ]
        ]
      ]
    ]
