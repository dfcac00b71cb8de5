-- ===== src/Tests/Github.antt =====
-- A session that always answers 404, and one with a single page.
use enterprise_multi_agent_s.Prelude.{
  ℕ, zero, suc, String, Option, some, none, ◌≡◌, refl, [], ◌∷◌, pos, ◌==◌, if◌then◌else◌, arith,
}
use enterprise_multi_agent_s.Python.Result.{ok}
use enterprise_multi_agent_s.Python.Json
use enterprise_multi_agent_s.Python.Json.{
  Json, null, int, str, arr, obj, Items, nil, item, Fields, end, field,
}
use enterprise_multi_agent_s.GithubClient
use enterprise_multi_agent_s.GithubClient.{
  Response, ApiError, Codec, Session, GitHubApiClient, Attempt, failed, done, answered, Stream,
  first_params, request, paginate, Sent,
}
use enterprise_multi_agent_s.GithubClient.Attempts.{Counts, request-failed}
use enterprise_multi_agent_s.GithubClient.Paging.{paginate_lem, stream_of, page_at, count}

abbrev one_item : Items
one_item = item (str "a") nil

abbrev codec : Codec String
codec = record {
  is_empty = λ b. b == "";
  decode = λ b. some b;
  loads = λ s. some (if s == "one" then arr one_item else if s == "none" then arr nil else obj end);
}

abbrev client : GitHubApiClient
client = record { base_url = "https://api.github.com"; max_retries = 3 }

abbrev missing : Session String ℕ
missing = record {
  request = λ method url params body w.
      (ok (answered (record { status_code = 404; reason = "Not Found"; content = "" })), suc w);
  sleep = λ n w. (ok tt, w);
}

abbrev missing-Counts : Counts missing (λ w. w)
missing-Counts = record { by_request = λ m u p b w. refl; by_sleep = λ n w. refl }

reading : Unit {0}
unfolding GithubClient.request GithubClient.is_retryable_status GithubClient.json GithubClient.text
    GithubClient.build_error GithubClient.decode_response GithubClient.respond
    GithubClient.attempt_once GithubClient.request_from Json.has Json.get Json.put Json.truthy
    page_at count
reading = tt

abbrev not_found : ApiError
not_found = record {
  status_code = 404;
  message = str "Not Found";
  operation = "get_repository";
  details = some end;
}

request-failed_example :
    (request codec missing client "GET" "/repos/o/r" none none "get_repository" 0).1 ≡ 4
unfolding reading
request-failed_example =
    request-failed codec missing client (λ w. w) missing-Counts "GET" "/repos/o/r" none none
      "get_repository" not_found 0 refl

abbrev content_of : Json → String
content_of (int (pos zero)) = "none"
content_of (int (pos (suc zero))) = "one"
content_of _ = "none"

abbrev page_of : Option Fields → String
page_of none = "none"
page_of (some fs) = content_of (Json.get fs "page")

abbrev paged : Session String ℕ
paged = record {
  request = λ method url params body w. (
    ok (answered (record { status_code = 200; reason = "OK"; content = page_of params })),
    suc w,
  );
  sleep = λ n w. (ok tt, w);
}

serves :
    (i w : ℕ)
    → (request codec paged client "GET" "/repos"
        (some (Json.put (first_params none) "page" (int (pos (suc i)))))
        none
        "paginate"
        w).0
      ≡ ok (done (arr (page_at (one_item ∷ []) i)))
unfolding reading
serves zero w = refl
serves (suc i) w = refl

paginate_example :
    (paginate codec paged client 2 "/repos" none 0).0 ≡ ok (stream_of (one_item ∷ []))
unfolding reading
paginate_example =
    paginate_lem codec paged client "/repos" (one_item ∷ []) none 1 (omega arith) (refl, tt) serves
      0
