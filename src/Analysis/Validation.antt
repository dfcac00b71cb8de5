-- ===== src/Analysis/Validation.antt =====
-- What validate_analysis accepts.
use enterprise_multi_agent_s.Prelude.{
  String, ◌≡◌, ◌≢◌, refl, sym, subst, ◌↔◌, Bool, true, false, ◌==◌, Bool-cases, inl, inr,
}
use enterprise_multi_agent_s.Python.Text.{strip}
use enterprise_multi_agent_s.Python.Result.{Result, ok, err, ◌>>=◌, ok-injective, err-ok}
use enterprise_multi_agent_s.Python.Set.{contains}
use enterprise_multi_agent_s.Python.Json.{
  Json, null, bool, int, float, str, arr, obj, Fields, end, field, get, has,
}
use enterprise_multi_agent_s.Events.{missing_from, no_missing}
use enterprise_multi_agent_s.Analysis.{
  AnalysisResult, required, urgencies, urgency_of, require_bool, require_text, validate_analysis,
}

-- A text that is not blank, without its white space.
abbrev pub HasText : Json → String → Type 0
HasText v text = (s : String) × (v ≡ str s) × (strip s ≡ text) × ((text == "") ≡ false)

-- The result `r` is what the object says, and asks for approval whatever the object says.
pub record Describes (value : Fields) (provider model : String) (r : AnalysisResult) : Type 0 where
  pub urgency : get value "urgency" ≡ str r.urgency
  pub listed : contains urgencies r.urgency ≡ true
  pub approval : (b : Bool) × (get value "requires_human_approval" ≡ bool b)
  pub summary : HasText (get value "summary") r.summary
  pub category : HasText (get value "category") r.category
  pub action : HasText (get value "recommended_action") r.recommended_action
  pub approved_by_human : r.requires_human_approval ≡ true
  pub answered : (r.provider ≡ provider) × (r.model ≡ model)

-- A chain of six checks that returns has six results.
chain-ok :
    {A B C D E F R : Type 0} (a : Result A) (b : Result B) (c : Result C) (d : Result D)
    (e : Result E) (f : Result F) (make : A → B → C → D → E → F → R) (r : R)
    → (a >>= λ x. b >>= λ y. c >>= λ z. d >>= λ u. e >>= λ v. f >>= λ w. ok (make x y z u v w))
      ≡ ok r
    → (x : A) × (y : B) × (z : C) × (u : D) × (v : E) × (w : F) × (a ≡ ok x)
      × (b ≡ ok y)
      × (c ≡ ok z)
      × (d ≡ ok u)
      × (e ≡ ok v)
      × (f ≡ ok w)
      × (make x y z u v w ≡ r)
chain-ok (ok x) (ok y) (ok z) (ok u) (ok v) (ok w) make r h =
    (x, y, z, u, v, w, refl, refl, refl, refl, refl, refl, ok-injective h)
chain-ok (err i) b c d e f make r h = absurd (err-ok h)
chain-ok (ok x) (err i) c d e f make r h = absurd (err-ok h)
chain-ok (ok x) (ok y) (err i) d e f make r h = absurd (err-ok h)
chain-ok (ok x) (ok y) (ok z) (err i) e f make r h = absurd (err-ok h)
chain-ok (ok x) (ok y) (ok z) (ok u) (err i) f make r h = absurd (err-ok h)
chain-ok (ok x) (ok y) (ok z) (ok u) (ok v) (err i) make r h = absurd (err-ok h)

urgency_of-ok :
    (v : Json) (s : String) → urgency_of v ≡ ok s → (v ≡ str s) × (contains urgencies s ≡ true)
unfolding urgency_of
urgency_of-ok (str t) s h = elim (Bool-cases (contains urgencies t)) [
  | inl known ↦
      let same : t ≡ s = ok-injective (rw known at h) in
      subst (λ (x : String). (str t ≡ str x) × (contains urgencies x ≡ true)) same (refl, known)
  | inr unknown ↦ absurd (err-ok (rw unknown at h))
]
urgency_of-ok (arr xs) s h = absurd (err-ok h)
urgency_of-ok (obj fs) s h = absurd (err-ok h)
urgency_of-ok null s h = absurd (err-ok h)
urgency_of-ok (bool b) s h = absurd (err-ok h)
urgency_of-ok (int z) s h = absurd (err-ok h)
urgency_of-ok (float t) s h = absurd (err-ok h)

require_bool-ok : (v : Json) (u : Unit {0}) → require_bool v ≡ ok u → (b : Bool) × (v ≡ bool b)
unfolding require_bool
require_bool-ok (bool b) u h = (b, refl)
require_bool-ok null u h = absurd (err-ok h)
require_bool-ok (int z) u h = absurd (err-ok h)
require_bool-ok (float t) u h = absurd (err-ok h)
require_bool-ok (str t) u h = absurd (err-ok h)
require_bool-ok (arr xs) u h = absurd (err-ok h)
require_bool-ok (obj fs) u h = absurd (err-ok h)

require_text-ok : (name : String) (v : Json) (t : String) → require_text name v ≡ ok t → HasText v t
unfolding require_text
require_text-ok name (str s) t h = elim (Bool-cases (strip s == "")) [
  | inl blank ↦ absurd (err-ok (rw blank at h))
  | inr full ↦
      let same : strip s ≡ t = ok-injective (rw full at h) in
      (s, refl, same, subst (λ (x : String). (x == "") ≡ false) same full)
]
require_text-ok name null t h = absurd (err-ok h)
require_text-ok name (bool b) t h = absurd (err-ok h)
require_text-ok name (int z) t h = absurd (err-ok h)
require_text-ok name (float x) t h = absurd (err-ok h)
require_text-ok name (arr xs) t h = absurd (err-ok h)
require_text-ok name (obj fs) t h = absurd (err-ok h)

require_text_of : (name : String) (v : Json) (t : String) → HasText v t → require_text name v ≡ ok t
unfolding require_text
require_text_of name v t (s, there, same, full) = rw there (rw same (rw full refl))

-- A key whose value is not None is there.
has-get : (fs : Fields) (k : String) (v : Json) → get fs k ≡ v → v ≢ null → has fs k ≡ true
unfolding get has
has-get end k v h full = absurd (full (sym h))
has-get (field j w fs) k v h full = elim (Bool-cases (j == k)) [
  | inl here ↦ rw here refl
  | inr other ↦ rw other (has-get fs k v (rw other at h) full)
]

str-null : (s : String) → str s ≢ null
str-null s h = absurd cc

bool-null : (b : Bool) → bool b ≢ null
bool-null b h = absurd cc

no_missing-required :
    (value : Fields)
    → has value "summary" ≡ true
    → has value "category" ≡ true
    → has value "urgency" ≡ true
    → has value "recommended_action" ≡ true
    → has value "requires_human_approval" ≡ true
    → no_missing "Analysis is missing fields: " (missing_from value required) ≡ ok tt
unfolding missing_from
no_missing-required value a b c d e = rw (a, b, c, d, e) refl

describes :
    (value : Fields) (provider model : String) (r : AnalysisResult)
    → Describes value provider model r
    → validate_analysis value provider model ≡ ok r
unfolding validate_analysis urgency_of require_bool
describes value provider model r d =
    let there : (k t : String) → HasText (get value k) t → has value k ≡ true =
      λ k t h. has-get value k (str h.0) h.1 (str-null h.0) in
    rw
      (no_missing-required value (there "summary" r.summary d.summary)
        (there "category" r.category d.category)
        (has-get value "urgency" (str r.urgency) d.urgency (str-null r.urgency))
        (there "recommended_action" r.recommended_action d.action)
        (has-get value "requires_human_approval" (bool d.approval.0) d.approval.1
          (bool-null d.approval.0)))
      (rw (d.urgency, d.listed, d.approval.1)
        (rw
          (
            require_text_of "summary" _ _ d.summary,
            require_text_of "category" _ _ d.category,
            require_text_of "recommended_action" _ _ d.action,
          )
          (cc (d.approved_by_human, d.answered.0, d.answered.1))))

-- validate_analysis returns a result exactly when the object's urgency is low, medium or high, its
-- approval flag is a boolean, and its summary, category and action are texts that are not blank;
-- the result has these without their white space, the given provider and model, and asks for human
-- approval.
pub validate_analysis-ok_iff :
    (value : Fields) (provider model : String) (r : AnalysisResult)
    → (validate_analysis value provider model ≡ ok r) ↔ Describes value provider model r
unfolding validate_analysis
validate_analysis-ok_iff value provider model r = (
  λ h.
      let (u0, urgency, u1, summary, category, action, missing, urgent, approval, s, c, a, made) =
        chain-ok (no_missing "Analysis is missing fields: " (missing_from value required))
          (urgency_of (get value "urgency")) (require_bool (get value "requires_human_approval"))
          (require_text "summary" (get value "summary"))
          (require_text "category" (get value "category"))
          (require_text "recommended_action" (get value "recommended_action")) _ r h in
      let found = urgency_of-ok (get value "urgency") urgency urgent in
      subst (Describes value provider model) made (record {
        urgency = found.0;
        listed = found.1;
        approval = require_bool-ok _ u1 approval;
        summary = require_text-ok "summary" _ summary s;
        category = require_text-ok "category" _ category c;
        action = require_text-ok "recommended_action" _ action a;
        approved_by_human = refl;
        answered = (refl, refl);
      }),
  describes value provider model r,
)
