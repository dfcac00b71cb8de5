-- ===== src/Tests/Bodies.antt =====
-- A site to which a body of 30 million bytes is sent.
use enterprise_multi_agent_s.Prelude.{some, none, [], refl, pos}
use enterprise_multi_agent_s.Python.Result.{ok}
use enterprise_multi_agent_s.Python.Exec.{pure}
use enterprise_multi_agent_s.Python.Text
use enterprise_multi_agent_s.Python.Json.{Json, null, end}
use enterprise_multi_agent_s.Settings.{Settings, with_limit}
use enterprise_multi_agent_s.FunctionApp.Routes.{HttpRequest, Site}
use enterprise_multi_agent_s.FunctionApp.Routes.Oversized.{Answers, IsOversized, oversized-Answers}
use enterprise_multi_agent_s.Tests.Samples.{sample_runtime}
use enterprise_multi_agent_s.Tests.World.{World, intake, start}

abbrev settings : Settings
settings = with_limit (λ name. none) 100

abbrev site : Site Json World
site = record {
  env = λ name. none;
  settings = ok settings;
  intake = ok intake;
  github_intake = ok intake;
  onedrive_intake = ok intake;
  openai_unwrap = λ s body headers. pure end;
  anthropic_unwrap = λ s body headers. pure end;
  length = λ body. 30000000;
  decode = λ body. some "{}";
  now = pure 0;
  received_at = pure "2027-01-01T00:00:00+00:00";
  uuids = pure (λ n. "u");
}

abbrev request : HttpRequest Json
request = record { body = null; headers = []; header = λ name. none; params = λ name. none }

over : IsOversized sample_runtime site request "MAX_WEBHOOK_BYTES"
unfolding Text.parse_int
over = record { limit = pos 1048576; read = refl; longer = refl }

github_over : IsOversized sample_runtime site request "GITHUB_MAX_WEBHOOK_BYTES"
unfolding Text.parse_int
github_over = record { limit = pos 26214400; read = refl; longer = refl }

oversized-Answers_example : Answers sample_runtime site request (start [])
oversized-Answers_example =
    oversized-Answers sample_runtime site request settings intake intake (start []) refl refl refl
      github_over over
