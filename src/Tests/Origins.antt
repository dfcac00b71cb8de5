-- ===== src/Tests/Origins.antt =====
-- A delta whose next link leads to another host.
use enterprise_multi_agent_s.Prelude.{
  String, true, false, some, none, List, [], ◌∷◌, ◌≡◌, ◌==◌, if◌then◌else◌,
}
use enterprise_multi_agent_s.Prelude.{All}
use enterprise_multi_agent_s.Python.Result.{ok}
use enterprise_multi_agent_s.Python.Json.{Json, str, arr, obj, nil, field, end}
use enterprise_multi_agent_s.Onedrive.{list_delta}
use enterprise_multi_agent_s.Onedrive.Requests.{
  Split, answered, Transport, GraphClient, same_origin, requests,
}
use enterprise_multi_agent_s.Onedrive.Origin.{Confined, list_delta-Confined}
use enterprise_multi_agent_s.Tests.Samples.{sample_runtime}

abbrev split : String → Split
split url =
    if url == "https://graph/v1/drives/d/root/delta"
    then record { scheme = "https"; netloc = "graph"; path = "/v1/drives/d/root/delta" }
    else record { scheme = "https"; netloc = url; path = "/" }

-- The world is the list of the addresses that were opened.
abbrev transport : Transport Json (List String)
transport = record {
  urlsplit = split;
  parse = λ b. some b;
  token = λ w. (ok "token", w);
  open_url = λ method url payload token w. (
    ok (
        answered
          (obj (field "value" (arr nil) (field "@odata.nextLink" (str "https://other/page") end)))),
    url ∷ w,
  );
  after_days = λ days w. (ok "soon", w);
}

abbrev client : GraphClient
client = record { base_url = "https://graph/v1"; base_scheme = "https"; base_netloc = "graph" }

abbrev AtOrigin : List String → Type 0
AtOrigin opened = All (λ url. same_origin transport client url ≡ true) opened

confined : Confined transport client AtOrigin
confined = record { by_token = λ w p. p; by_open = λ method url payload token w same p. (same, p) }

list_delta-Confined_example :
    AtOrigin (list_delta sample_runtime (requests transport client) 3 "d" none false []).1
list_delta-Confined_example =
    list_delta-Confined sample_runtime transport client AtOrigin confined 3 "d" none false [] tt
