-- ===== src/Tests/Pages.antt =====
-- Two pages of a delta.
use enterprise_multi_agent_s.Prelude.{◌≡◌, refl, false, some, [], ◌∷◌, ◌==◌, arith, if◌then◌else◌}
use enterprise_multi_agent_s.Python.Result.{ok}
use enterprise_multi_agent_s.Python.Json
use enterprise_multi_agent_s.Python.Json.{str, obj, arr, item, nil, Fields, field, end}
use enterprise_multi_agent_s.Onedrive.{GraphRequests, objects, list_delta}
use enterprise_multi_agent_s.Onedrive.Pages.{last, more, list_delta-Chain}
use enterprise_multi_agent_s.Tests.Samples.{sample_runtime}

abbrev first_page : Fields
first_page =
    field "value" (arr (item (obj (field "id" (str "1") end)) nil))
      (field "@odata.nextLink" (str "p2") end)

abbrev second_page : Fields
second_page =
    field "value" (arr (item (obj (field "id" (str "2") end)) nil))
      (field "@odata.deltaLink" (str "d2") end)

abbrev graph : GraphRequests (Unit {0})
graph = record {
  base_url = "https://graph";
  request_url = λ method url payload w. (ok (if url == "d1" then first_page else second_page), w);
}

reading : Unit {0}
unfolding objects Json.get Json.has Json.truthy Json.to_text
reading = tt

list_delta-Chain_example :
    list_delta sample_runtime graph 2 "d" (some "d1") false tt
    ≡ (ok (some (field "id" (str "1") end ∷ field "id" (str "2") end ∷ [], "d2")), tt)
unfolding reading
list_delta-Chain_example =
    list_delta-Chain sample_runtime graph "d" "d2" (some "d1") false 2 2 tt tt
      (field "id" (str "1") end ∷ field "id" (str "2") end ∷ [])
      (more 1 "d1" "p2" tt tt tt first_page (item (obj (field "id" (str "1") end)) nil)
        (field "id" (str "2") end ∷ []) (record { named = refl; answered = refl; listed = refl })
        refl refl
        (last "p2" tt tt second_page (item (obj (field "id" (str "2") end)) nil)
          (record { named = refl; answered = refl; listed = refl }) refl refl refl))
      (omega arith)
