-- ===== src/FunctionApp/Routes/Oversized.antt =====
-- What the routes answer to a body above its limit.
use enterprise_multi_agent_s.Prelude.{String, true, ◌≡◌, refl, ℤ}
use enterprise_multi_agent_s.Python.Result.{ok}
use enterprise_multi_agent_s.Runtime.{Runtime}
use enterprise_multi_agent_s.Settings.{Settings}
use enterprise_multi_agent_s.Intake.{WebhookIntake}
use enterprise_multi_agent_s.FunctionApp.{error_response}
use enterprise_multi_agent_s.FunctionApp.Routes.{
  HttpRequest, HttpResponse, json_response, Site, body_of, max_bytes, above, github_webhook,
  generic_webhook, generic_route, delivery_webhook, openai_webhook, anthropic_webhook, error_json,
  invalid_signature,
}

abbrev pub too_large : HttpResponse
too_large = json_response 413 (error_json "payload_too_large" "Webhook payload is too large")

module _ {Bytes W : Type 0} (rt : Runtime Bytes) (site : Site Bytes W) where
  -- The body is longer than the variable's limit.
  pub record IsOversized (req : HttpRequest Bytes) (limit_env : String) : Type 0 where
    pub limit : ℤ
    pub read : max_bytes rt site limit_env ≡ ok limit
    pub longer : above (site.length req.body) limit ≡ true

  -- The answers, each with nothing done.
  pub record Answers (req : HttpRequest Bytes) (w : W) : Type 0 where
    pub by_github : github_webhook rt site req w ≡ (ok too_large, w)
    pub by_generic : generic_webhook rt site req w ≡ (ok too_large, w)
    pub by_delivery : delivery_webhook rt site req w ≡ (ok too_large, w)
    pub by_anthropic : anthropic_webhook rt site req w ≡ (ok too_large, w)
    pub by_openai : openai_webhook rt site req w ≡ (ok invalid_signature, w)

  -- Of a request whose body is above both limits, at a site whose settings and intakes can be
  -- made: the routes for GitHub, generic events, deliveries and Anthropic answer 413
  -- payload_too_large, and the route for OpenAI answers 400 invalid_signature; none of them does
  -- anything else.
  pub oversized-Answers :
      (req : HttpRequest Bytes) (settings : Settings) (intake github_intake : WebhookIntake W)
      (w : W)
      → site.settings ≡ ok settings
      → site.intake ≡ ok intake
      → site.github_intake ≡ ok github_intake
      → IsOversized req "GITHUB_MAX_WEBHOOK_BYTES"
      → IsOversized req "MAX_WEBHOOK_BYTES"
      → Answers req w
  unfolding github_webhook generic_webhook delivery_webhook generic_route anthropic_webhook
      openai_webhook body_of error_response
  oversized-Answers req settings intake github_intake w configured built github_built github_over
        over =
      record {
        by_github =
            rw configured (rw github_built (rw github_over.read (rw github_over.longer refl)));
        by_generic = rw built (rw over.read (rw over.longer refl));
        by_delivery = rw built (rw over.read (rw over.longer refl));
        by_anthropic = rw over.read (rw over.longer refl);
        by_openai = rw over.read (rw over.longer refl);
      }
