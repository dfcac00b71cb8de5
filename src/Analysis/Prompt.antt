-- ===== src/Analysis/Prompt.antt =====
-- src/webhook_gateway/analysis.py: `event_prompt`, the text on an event that a model is sent. As in
-- `Sanitize`, the substitution of the SECRET_PATTERNS is a parameter, and so is the text json.dumps
-- writes with its keys sorted and no spaces.
use Prim.Native.String.{count, ◌++◌ as append}
use Prim.Native.String.append
use Prim.Native.String.count
use enterprise_multi_agent_s.Prelude.{
  ℕ, zero, suc, ◌+◌, ◌≤◌, String, true, false, ◌≡◌, arith, ltb, if◌then◌else◌, Bool-cases, inl, inr,
  ap, ◌∙◌, false≢true,
}
use enterprise_multi_agent_s.Python.Text.{lower, take, after_prefix}
use enterprise_multi_agent_s.Python.Text.Search.{includes}
use enterprise_multi_agent_s.Python.Json.{Json, str, obj, Fields, end, field, text_or_null}
use enterprise_multi_agent_s.Events.{EventEnvelope}
use enterprise_multi_agent_s.Analysis.Sanitize.{
  sanitize_for_model, is_sensitive, letters_and_digits, has_part,
}
use enterprise_multi_agent_s.Analysis.Sanitize.Limits.{
  IsBounded, AreBoundedFields, sanitize_for_model-IsBounded,
}

module _ (redact : String → String) (dumps : Json → String) where
  unfoldable safe_event : EventEnvelope → Fields
  safe_event event = field "version" (str event.version) (
      field "id" (str event.id) (
        field "source" (str event.source) (
          field "type" (str event.type) (
            field "data" (sanitize_for_model redact 0 (obj event.event_data)) (
              field "correlation_id" (str event.correlation_id) (
                field "received_at" (str event.received_at) (
                  field "subject" (sanitize_for_model redact 0 (text_or_null event.subject))
                    (field "metadata" (sanitize_for_model redact 0 (obj event.metadata)) end))))))))

  unfoldable truncated : ℕ → String → String
  unfolding take
  truncated max_chars serialized =
      if ltb max_chars (count serialized)
      then append (take max_chars serialized) "...[truncated]"
      else serialized

  unfoldable event_prompt : EventEnvelope → ℕ → String
  unfolding safe_event truncated
  event_prompt event max_chars =
      append "Analyze this event and return the required structured result:\n"
        (truncated max_chars (dumps (obj (safe_event event))))

  count-append : (s t : String) → count (append s t) ≡ count s + count t
  count-append String.[] t = ap count (append.nil t) ∙ omega arith
  count-append (String.◌∷◌ c s) t =
      ap count (append.cons c s t)
      ∙ count.cons c (append s t)
      ∙ omega (arith, count-append s t, count.cons c s)

  count-take : (n : ℕ) (s : String) → count (take n s) ≤ n
  unfolding take
  count-take zero s = omega arith
  count-take (suc n) String.[] = omega arith
  count-take (suc n) (String.◌∷◌ c s) = omega (arith, count-take n s, count.cons c (take n s))

  count-truncated : (n : ℕ) (s : String) → count (truncated n s) ≤ n + 14
  unfolding truncated
  count-truncated n s = elim (Bool-cases (ltb n (count s))) [
    | inl long ↦ rw long (omega (arith, count-append (take n s) "...[truncated]", count-take n s))
    | inr short ↦ rw short (ground (arith, short))
  ]

  -- The prompt on an event is at most 76 characters longer than the bound for its JSON text.
  count-event_prompt : (event : EventEnvelope) (n : ℕ) → count (event_prompt event n) ≤ n + 76
  unfolding event_prompt
  count-event_prompt event n = omega (
    arith,
    count-append "Analyze this event and return the required structured result:\n"
        (truncated n (dumps (obj (safe_event event)))),
    count-truncated n (dumps (obj (safe_event event))),
  )

  -- The object whose JSON text a prompt holds has at most ten levels of dictionaries and lists, each of at
  -- most 101 items, and under every key with a sensitive part only the text [redacted].
  safe_event-IsBounded : (event : EventEnvelope) → IsBounded 10 (obj (safe_event event))
  unfolding safe_event IsBounded AreBoundedFields is_sensitive letters_and_digits has_part lower
      includes after_prefix
  safe_event-IsBounded event =
      let plain : (v : Json) → (false ≡ true → v ≡ str "[redacted]") =
        λ v h. absurd (false≢true h) in
      let small = sanitize_for_model-IsBounded redact in
      (
        omega arith,
        (
          plain _,
          tt,
          (
            plain _,
            tt,
            (
              plain _,
              tt,
              (
                plain _,
                tt,
                (
                  plain _,
                  small (obj event.event_data),
                  (
                    plain _,
                    tt,
                    (
                      plain _,
                      tt,
                      (
                        plain _,
                        small (text_or_null event.subject),
                        (plain _, small (obj event.metadata), tt),
                      ),
                    ),
                  ),
                ),
              ),
            ),
          ),
        ),
      )
