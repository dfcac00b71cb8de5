-- ===== src/Tests/Models.antt =====
-- Analyses and payload blobs.
use enterprise_multi_agent_s.Prelude.{◌≡◌, refl, ◌↔◌, true, false, Option, none, some}
use enterprise_multi_agent_s.Python.Result.{ok, err, service_error}
use enterprise_multi_agent_s.Python.Exec.{Exec}
use enterprise_multi_agent_s.Python.Json.{
  Json, bool, str, obj, arr, item, nil, Fields, end, field, get, truthy,
}
use enterprise_multi_agent_s.Runtime.{Runtime, IsRuntime}
use enterprise_multi_agent_s.Events.{to_json, from_json}
use enterprise_multi_agent_s.Events.RoundTrip.{in_order}
use enterprise_multi_agent_s.Analysis.{AnalysisResult, validate_analysis}
use enterprise_multi_agent_s.Analysis.Validation.{Describes, validate_analysis-ok_iff}
use enterprise_multi_agent_s.Analysis.Sanitize.{sanitize_for_model}
use enterprise_multi_agent_s.Analysis.Sanitize.Limits.{IsBounded, sanitize_for_model-IsBounded}
use enterprise_multi_agent_s.Payloads.{
  ContainerClient, is_pointer, is_digest, pointer_to, prepare, resolve,
}
use enterprise_multi_agent_s.Payloads.Integrity.{
  IsResolved, resolve-prepare, resolve-prepare_intact,
}
use enterprise_multi_agent_s.Tests.Samples.{
  sample_runtime, sample_runtime-IsRuntime, sample_digest, opened, opened-IsCanonical,
}

abbrev analysis : AnalysisResult
analysis = record {
  summary = "s";
  category = "c";
  urgency = "low";
  recommended_action = "a";
  requires_human_approval = true;
  provider = "openai";
  model = "m";
}

-- The object waives the approval.
abbrev answer : Fields
answer = field "summary" (str " s ") (
    field "category" (str "c") (
      field "urgency" (str "low")
        (field "recommended_action" (str "a") (field "requires_human_approval" (bool false) end))))

validate_analysis-ok_iff_example :
    (validate_analysis answer "openai" "m" ≡ ok analysis) ↔ Describes answer "openai" "m" analysis
validate_analysis-ok_iff_example = validate_analysis-ok_iff answer "openai" "m" analysis

sanitize_for_model-IsBounded_example :
    IsBounded 9
      (sanitize_for_model (λ s. s) 0 (obj (field "access_token" (arr (item (str "x") nil)) end)))
sanitize_for_model-IsBounded_example =
    sanitize_for_model-IsBounded (λ s. s)
      (obj (field "access_token" (arr (item (str "x") nil)) end))

-- The sample runtime with a fixed digest, and a container of one blob.
abbrev runtime : Runtime Json
runtime = record sample_runtime { sha256 = λ b. sample_digest }

runtime-IsRuntime : IsRuntime runtime
runtime-IsRuntime = record { loads-dumps = sample_runtime-IsRuntime.loads-dumps }

abbrev download : Option Json → Exec (Option Json) Json
download none w = (err (service_error "ResourceNotFoundError" 404), w)
download (some b) w = (ok b, w)

abbrev container : ContainerClient Json (Option Json)
container = record {
  container_name = "payloads";
  upload_blob = λ name payload metadata w. (ok tt, some payload);
  get_blob_properties = λ name w. (ok (none, none), w);
  download_blob = λ name w. download w w;
}

blobs : Unit {0}
unfolding prepare is_pointer get truthy is_digest from_json
blobs = tt

abbrev stored : Option Json
stored = some (to_json runtime opened)

resolve-prepare_intact_example :
    (resolve runtime container "now" (pointer_to runtime container opened) stored).0
    ≡ ok (in_order opened)
unfolding blobs
resolve-prepare_intact_example =
    resolve-prepare_intact runtime container runtime-IsRuntime opened
      (pointer_to runtime container opened) "now" none stored opened-IsCanonical refl refl refl refl

back :
    (resolve runtime container "now" (pointer_to runtime container opened) stored).0
    ≡ ok (in_order opened)
unfolding blobs
back =
    resolve-prepare_intact runtime container runtime-IsRuntime opened
      (pointer_to runtime container opened) "now" none stored opened-IsCanonical refl refl refl refl

resolve-prepare_example :
    IsResolved runtime container "now" opened
      (runtime.sha256 (to_json runtime opened))
      (in_order opened)
unfolding blobs
resolve-prepare_example =
    resolve-prepare runtime container opened (pointer_to runtime container opened) (in_order opened)
      "now" none stored refl refl back
