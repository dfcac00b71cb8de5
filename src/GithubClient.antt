-- ===== src/GithubClient.antt =====
-- src/github_client: the client of the GitHub API, client.py over the responses of http.py, with the
-- errors of errors.py. The session's requests and time.sleep are calls of the record `Session`, on a
-- world `W`; an ApiError that is raised is the value `failed`. `Codec` is what bytes and json do.
pub mod Attempts
pub mod Paging
use Prim.Native.String.{◌++◌ as append}
use enterprise_multi_agent_s.Prelude.{
  ℕ, zero, suc, ◌+◌, ◌-◌, ◌^◌, String, Bool, true, false, not, ◌&&◌, ◌||◌, Option, none, some, ◌==◌,
  leb, ltb, eqb, if◌then◌else◌, pos,
}
use enterprise_multi_agent_s.Python.Result.{Exn, Result, ok, err, value_error, type_error}
use enterprise_multi_agent_s.Python.Exec.{Exec, pure, raise, lift, ◌>>=◌, ◌>>◌}
use enterprise_multi_agent_s.Python.Json.{
  Json, null, bool, int, float, str, arr, obj, Items, nil, item, Fields, end, field, get_or, put,
  has, truthy,
}

pub record Response (Bytes : Type 0) : Type 0 where
  pub status_code : ℕ
  pub reason : String
  pub content : Bytes

pub record ApiError : Type 0 where
  pub status_code : ℕ
  pub message : Json
  pub operation : String
  pub details : Option Fields

-- `b.decode()` with none for UnicodeDecodeError, and `json.loads(s)` with none for JSONDecodeError.
pub record Codec (Bytes : Type 0) : Type 0 where
  pub is_empty : Bytes → Bool
  pub decode : Bytes → Option String
  pub loads : String → Option Json

-- What `Session.request` comes to: a response, or Timeout or ConnectionError with its text.
pub data Sent (Bytes : Type 0) : Type 0 where
  answered : Response Bytes → Sent Bytes
  timed_out disconnected : String → Sent Bytes

-- A request with its method, address, parameters and body; and a sleep of so many backoff factors.
pub record Session (Bytes W : Type 0) : Type 0 where
  pub request : String → String → Option Fields → Option Fields → Exec W (Sent Bytes)
  pub sleep : ℕ → Exec W (Unit {0})

pub record GitHubApiClient : Type 0 where
  pub base_url : String
  pub max_retries : ℕ

-- What an attempt comes to: a decoded body, or the ApiError that was raised.
pub data Attempt : Type 0 where
  done : Json → Attempt
  failed : ApiError → Attempt

abbrev pub unicode_error : Exn
unicode_error = value_error "UnicodeDecodeError"

-- `Response.json`: none for JSONDecodeError
unfoldable pub json : {Bytes : Type 0} → Codec Bytes → Response Bytes → Result (Option Json)
json codec response = elim (codec.decode response.content) [
  | none ↦ err unicode_error
  | some text ↦ ok (codec.loads (if text == "" then "{}" else text))
]

-- `Response.text`
unfoldable pub text : {Bytes : Type 0} → Codec Bytes → Response Bytes → Result String
text codec response = elim (codec.decode response.content) [
  | none ↦ err unicode_error
  | some s ↦ ok s
]

unfoldable pub is_retryable_status : ℕ → Bool
is_retryable_status status = leb 500 status || eqb status 429

abbrev pub is_success : ℕ → Bool
is_success status = leb 200 status && ltb status 300

-- the error with what the body says, when it is an object
abbrev pub error_of : ℕ → String → String → Option Json → ApiError
error_of status message operation (some (obj body)) = record {
  status_code = status;
  message = get_or body "message" (str message);
  operation = operation;
  details = some body;
}
error_of status message operation _ = record {
  status_code = status;
  message = str message;
  operation = operation;
  details = none;
}

-- the error of a connection that failed, with status 0
abbrev pub connection_error : String → String → ApiError
connection_error operation message = record {
  status_code = 0;
  message = str message;
  operation = operation;
  details = none;
}

-- the keys of a dictionary
abbrev pub keys : Fields → Items
keys end = nil
keys (field k v fs) = item (str k) (keys fs)

abbrev pub characters : String → Items
characters String.[] = nil
characters (String.◌∷◌ c s) = item (str (String.◌∷◌ c String.[])) (characters s)

-- `iter(v)`, for what JSON gives: none for TypeError
abbrev pub iterate : Json → Option Items
iterate (arr xs) = some xs
iterate (obj fs) = some (keys fs)
iterate (str s) = some (characters s)
iterate _ = none

-- params.copy() if params else {}, with per_page
abbrev pub first_params : Option Fields → Fields
first_params none = put end "per_page" (int (pos 100))
first_params (some fs) = if has fs "per_page" then fs else put fs "per_page" (int (pos 100))

-- params.copy() if params else None
abbrev pub copied : Option Fields → Option Fields
copied (some (field k v fs)) = some (field k v fs)
copied _ = none

-- What a consumer that takes every item sees: the items, and then how the generator ended. `cut_off`
-- stands for a generator whose fuel is spent.
pub data Stream : Type 0 where
  yielded : Json → Stream → Stream
  exhausted cut_off : Stream
  api_error : ApiError → Stream

-- last_error, behind a turn
abbrev pub error_or : ApiError → Attempt → ApiError
error_or last_error (failed e) = e
error_or last_error (done v) = last_error

-- f"/repos/{owner}/{repo}"
abbrev pub repository_path : String → String → String
repository_path owner repo = append "/repos/" (append owner (append "/" repo))

module _ {W : Type 0} where
  -- for item in data: yield item
  abbrev pub yield_all : Items → Exec W Stream → Exec W Stream
  yield_all nil next = next
  yield_all (item v xs) next = do rest ← yield_all xs next; pure (yielded v rest)

  abbrev pub yield_page : Option Items → Exec W Stream → Exec W Stream
  yield_page (some xs) next = yield_all xs next
  yield_page none next = raise (type_error "object is not iterable")

  abbrev pub after_page : Exec W Stream → Attempt → Exec W Stream
  after_page next (failed e) = pure (api_error e)
  after_page next (done page) =
      if truthy page then yield_page (iterate page) next else pure exhausted

module _ {Bytes W : Type 0} (codec : Codec Bytes) (session : Session Bytes W)
    (client : GitHubApiClient) where
  unfoldable pub build_error : Response Bytes → String → Result ApiError
  unfolding json
  build_error response operation =
      let message = if response.reason == "" then "Request failed" else response.reason in
      elim (json codec response) [
        | err e ↦ err e
        | ok body ↦ ok (error_of response.status_code message operation body)
      ]

  -- the body as JSON, or else as text
  abbrev pub body_or_text : Result (Option Json) → Result String → Result Attempt
  body_or_text (err e) t = err e
  body_or_text (ok (some v)) t = ok (done v)
  body_or_text (ok none) (ok t) = ok (done (str t))
  body_or_text (ok none) (err e) = err e

  abbrev pub raised : Result ApiError → Result Attempt
  raised (ok e) = ok (failed e)
  raised (err e) = err e

  unfoldable pub decode_response : Response Bytes → String → Result Attempt
  unfolding json text build_error
  decode_response response operation =
      if is_success response.status_code
      then (if codec.is_empty response.content
          then ok (done null)
          else body_or_text (json codec response) (text codec response))
      else raised (build_error response operation)

  -- what the `try` block does with what was sent
  unfoldable pub respond : String → Sent Bytes → Result Attempt
  unfolding decode_response is_retryable_status
  respond operation (answered response) =
      if is_retryable_status response.status_code
      then raised (build_error response operation)
      else decode_response response operation
  respond operation (timed_out message) = ok (failed (connection_error operation message))
  respond operation (disconnected message) = ok (failed (connection_error operation message))

  -- one turn of the loop, up to its `except` branches
  unfoldable pub attempt_once :
      String → String → Option Fields → Option Fields → String → Exec W Attempt
  unfolding respond
  attempt_once method path params json_body operation = do
    sent ← session.request method (append client.base_url path) (copied params) json_body
    lift (respond operation sent)

  -- behind a turn: return, break, or sleep and go on
  abbrev pub follow : ℕ → Exec W Attempt → Attempt → Exec W Attempt
  follow attempt next (done v) = pure (done v)
  follow attempt next (failed e) =
      if ltb client.max_retries attempt
      then pure (failed e)
      else session.sleep (2 ^ (attempt - 1)) >> next

  -- `for attempt in range(1, self.max_retries + 2)`, with the turns that are left
  unfoldable pub request_from :
      ℕ → ℕ → String → String → Option Fields → Option Fields → String → ApiError → Exec W Attempt
  unfolding attempt_once
  request_from zero attempt method path params json_body operation last_error =
      pure (failed last_error)
  request_from (suc left) attempt method path params json_body operation last_error = do
    outcome ← attempt_once method path params json_body operation
    follow attempt
        (request_from left (suc attempt) method path params json_body operation
          (error_or last_error outcome))
        outcome

  -- `_request`
  unfoldable pub request : String → String → Option Fields → Option Fields → String → Exec W Attempt
  unfolding request_from
  request method path params json_body operation =
      request_from (suc client.max_retries) 1 method path params json_body operation
        (connection_error operation "Unknown error")

  unfoldable pub get_repository : String → String → Exec W Attempt
  get_repository owner repo = request "GET" (repository_path owner repo) none none "get_repository"

  -- the `while` loop of `paginate`, on fuel
  unfoldable pub pages_from : ℕ → ℕ → String → Fields → Exec W Stream
  pages_from zero page path params = pure cut_off
  pages_from (suc fuel) page path params = do
    outcome ← request "GET" path (some (put params "page" (int (pos page)))) none "paginate"
    after_page (pages_from fuel (suc page) path (put params "page" (int (pos page)))) outcome

  unfoldable pub paginate : ℕ → String → Option Fields → Exec W Stream
  unfolding pages_from
  paginate fuel path params = pages_from fuel 1 path (first_params params)
