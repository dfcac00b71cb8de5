-- ===== src/Tests/Checks.antt =====
-- Signatures and the admission policy.
use Prim.Native.String.{◌++◌ as append}
use enterprise_multi_agent_s.Prelude.{◌≡◌, ◌↔◌, true, some, [], ◌∷◌, pos}
use enterprise_multi_agent_s.Python.Result.{ok}
use enterprise_multi_agent_s.Python.Text.{is_ascii}
use enterprise_multi_agent_s.Python.Json.{Json, null, str, obj, end, field, int}
use enterprise_multi_agent_s.Security.{
  is_configured_secret, verify_github_signature, verify_timestamped_signature, verify_client_state,
}
use enterprise_multi_agent_s.Security.Signatures.{
  verify_github_signature-ok_iff, verify_timestamped_signature-ok_iff, verify_client_state-ok_iff,
  IsFresh,
}
use enterprise_multi_agent_s.Admission.{GitHubAdmissionPolicy, evaluate}
use enterprise_multi_agent_s.Admission.Policy.{IsAdmissible, evaluate-allowed_iff}
use enterprise_multi_agent_s.Tests.Samples.{
  sample_runtime, sample_digest, sample_ascii, sample_count, print,
}

verify_github_signature_example :
    (verify_github_signature sample_runtime null (append "sha256=" sample_digest) "key" ≡ ok tt) ↔ (
      (is_configured_secret (some "key") ≡ true)
      × (append "sha256=" sample_digest ≡ append "sha256=" sample_digest))
unfolding print
verify_github_signature_example =
    verify_github_signature-ok_iff sample_runtime (λ k m. sample_ascii) null
      (append "sha256=" sample_digest) "key"

verify_timestamped_signature_example :
    (verify_timestamped_signature sample_runtime null sample_digest "1700" "key" 300 1700000000
      ≡ ok tt)
    ↔ IsFresh sample_runtime null sample_digest "1700" "key" 300 1700000000
unfolding print
verify_timestamped_signature_example =
    verify_timestamped_signature-ok_iff sample_runtime null sample_digest "1700" "key" 300
      1700000000 (λ k m. sample_ascii) (λ k m. sample_count)

verify_client_state_example : (verify_client_state (str "state") "state" ≡ ok tt) ↔ (
    (is_configured_secret (some "state") ≡ true)
    × (is_ascii "state" ≡ true)
    × (str "state" ≡ str "state"))
verify_client_state_example = verify_client_state-ok_iff (str "state") "state"

abbrev policy : GitHubAdmissionPolicy
policy = record {
  repositories = "42" ∷ [];
  events = "issues" ∷ "push" ∷ [];
  associations = "OWNER" ∷ [];
  apps = [];
}

abbrev repository : Json
repository = obj (field "id" (int (pos 42)) (field "full_name" (str "org/repo") end))

evaluate-allowed_iff_example :
    ((evaluate print policy "push" (field "repository" repository end)).allowed ≡ true)
    ↔ IsAdmissible print policy "push" (field "repository" repository end)
evaluate-allowed_iff_example =
    evaluate-allowed_iff print policy "push" (field "repository" repository end)
