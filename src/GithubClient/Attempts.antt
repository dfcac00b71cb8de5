-- ===== src/GithubClient/Attempts.antt =====
-- How many requests `_request` of the GitHub client sends. `sent` counts them: a request adds one,
-- and a sleep leaves the count.
use Prim.Native.String.{◌++◌ as append}
use enterprise_multi_agent_s.Prelude.{
  ℕ, zero, suc, ◌+◌, ◌-◌, ◌^◌, ◌≤◌, String, Bool, true, false, Option, ◌≡◌, refl, ltb,
  if◌then◌else◌, arith, ap, sym, ◌∙◌,
}
use enterprise_multi_agent_s.Python.Result.{Result, ok}
use enterprise_multi_agent_s.Python.Exec.{Exec, pure, ◌>>◌, bind-ok, after_bind, after_if}
use enterprise_multi_agent_s.Python.Json.{Json, Fields}
use enterprise_multi_agent_s.GithubClient.{
  ApiError, Codec, Session, GitHubApiClient, Attempt, done, failed, request, request_from,
  attempt_once, follow, error_or, respond, copied, connection_error,
}

-- a session whose requests `sent` counts
pub record Counts {Bytes W : Type 0} (session : Session Bytes W) (sent : W → ℕ) : Type 0 where
  pub by_request :
      (method url : String) (params json_body : Option Fields) (w : W)
      → sent (session.request method url params json_body w).1 ≡ suc (sent w)
  pub by_sleep : (n : ℕ) (w : W) → sent (session.sleep n w).1 ≡ sent w

done-failed : (v : Json) (e : ApiError) → ¬ (◌≡◌ {A = Result Attempt} (ok (done v)) (ok (failed e)))
done-failed v e h = cc

suc_shift : (n left : ℕ) → n + suc left ≡ suc n + left
suc_shift n left = omega arith

module _ {Bytes W : Type 0} (codec : Codec Bytes) (session : Session Bytes W)
    (client : GitHubApiClient) (sent : W → ℕ) (counts : Counts session sent) where
  sent-attempt_once :
      (method path : String) (params json_body : Option Fields) (operation : String) (w : W)
      → sent (attempt_once codec session client method path params json_body operation w).1
        ≡ suc (sent w)
  unfolding attempt_once
  sent-attempt_once method path params json_body operation w =
      after_bind (λ s. sent s ≡ suc (sent w))
        (session.request method (append client.base_url path) (copied params) json_body)
        (λ r s. (respond codec session client operation r, s)) w (λ _ _. counted) λ _ _. counted
    where
      counted :
          sent (session.request method (append client.base_url path) (copied params) json_body w).1
          ≡ suc (sent w)
      counted = counts.by_request method (append client.base_url path) (copied params) json_body w

  -- Behind a turn, `next` sends exactly `left` more when it fails, at most `left` in every case.
  sent-follow :
      (attempt left n : ℕ) (next : Exec W Attempt) (o : Attempt)
      → ((w : W) → sent w ≡ n → sent (next w).1 ≤ n + left)
      → (w : W) → sent w ≡ n
      → sent (follow codec session client attempt next o w).1 ≤ n + left
  sent-follow attempt left n next (done v) later w h = omega arith
  sent-follow attempt left n next (failed e) later w h =
      after_if (λ s. sent s ≤ n + left) (ltb client.max_retries attempt) (pure (failed e))
        (session.sleep (2 ^ (attempt - 1)) >> next) w (λ _. omega arith)
        λ _.
          after_bind (λ s. sent s ≤ n + left) (session.sleep (2 ^ (attempt - 1))) (λ _. next) w
            (λ _ _. at_most) λ _ _. later (session.sleep (2 ^ (attempt - 1)) w).1 slept
    where
      slept : sent (session.sleep (2 ^ (attempt - 1)) w).1 ≡ n
      slept = counts.by_sleep (2 ^ (attempt - 1)) w ∙ h

      at_most : sent (session.sleep (2 ^ (attempt - 1)) w).1 ≤ n + left
      at_most = rw slept (omega arith)

  sent-request_from :
      (left attempt : ℕ) (method path : String) (params json_body : Option Fields)
      (operation : String) (last_error : ApiError) (n : ℕ) (w : W)
      → sent w ≡ n
      → sent
          (request_from codec session client left attempt method path params json_body operation
            last_error w).1
        ≤ n + left
  unfolding request_from
  sent-request_from zero attempt method path params json_body operation last_error n w h =
      omega arith
  sent-request_from (suc left) attempt method path params json_body operation last_error n w h =
      after_bind (λ s. sent s ≤ n + suc left)
        (attempt_once codec session client method path params json_body operation)
        (λ o.
          follow codec session client attempt
            (request_from codec session client left (suc attempt) method path params json_body
              operation (error_or last_error o))
            o)
        w (λ _ _. rw turn (omega arith))
        λ o _. rw (suc_shift n left) (
          sent-follow attempt left (suc n)
            (request_from codec session client left (suc attempt) method path params json_body
              operation (error_or last_error o))
            o
            (sent-request_from left (suc attempt) method path params json_body operation
              (error_or last_error o) (suc n))
            (attempt_once codec session client method path params json_body operation w).1 turn)
    where
      turn :
          sent (attempt_once codec session client method path params json_body operation w).1
          ≡ suc n
      turn = sent-attempt_once method path params json_body operation w ∙ ap suc h

  -- the turn after which the loop breaks is the last one
  failed-branch :
      (last_turn : Bool) (attempt left n : ℕ) (next : Exec W Attempt) (last e : ApiError)
      → ltb client.max_retries attempt ≡ last_turn
      → attempt + left ≡ suc client.max_retries
      → ((w : W) → sent w ≡ n → (next w).0 ≡ ok (failed e) → sent (next w).1 ≡ n + left)
      → (w : W) → sent w ≡ n
      → ((if last_turn then pure (failed last) else session.sleep (2 ^ (attempt - 1)) >> next) w).0
        ≡ ok (failed e)
      → sent
          ((if last_turn then pure (failed last) else session.sleep (2 ^ (attempt - 1)) >> next)
            w).1
        ≡ n + left
  failed-branch true attempt left n next last e turn total later w h failure = ground arith
  failed-branch false attempt left n next last e turn total later w h failure =
      let (_, _, step) =
        bind-ok (session.sleep (2 ^ (attempt - 1))) (λ _. next) w (failed e) failure in
      rw step (
        later (session.sleep (2 ^ (attempt - 1)) w).1 (counts.by_sleep (2 ^ (attempt - 1)) w ∙ h)
          (sym (ap (λ r. r.0) step) ∙ failure))

  failed-follow :
      (attempt left n : ℕ) (next : Exec W Attempt) (o : Attempt) (e : ApiError)
      → attempt + left ≡ suc client.max_retries
      → ((w : W) → sent w ≡ n → (next w).0 ≡ ok (failed e) → sent (next w).1 ≡ n + left)
      → (w : W) → sent w ≡ n
      → (follow codec session client attempt next o w).0 ≡ ok (failed e)
      → sent (follow codec session client attempt next o w).1 ≡ n + left
  failed-follow attempt left n next (done v) e total later w h failure = cc
  failed-follow attempt left n next (failed last) e total later w h failure =
      failed-branch (ltb client.max_retries attempt) attempt left n next last e refl total later w h
        failure

  failed-request_from :
      (left attempt : ℕ) (method path : String) (params json_body : Option Fields)
      (operation : String) (last_error e : ApiError) (n : ℕ) (w : W)
      → attempt + left ≡ suc (suc client.max_retries)
      → sent w ≡ n
      → (request_from codec session client left attempt method path params json_body operation
          last_error w).0
        ≡ ok (failed e)
      → sent
          (request_from codec session client left attempt method path params json_body operation
            last_error w).1
        ≡ n + left
  unfolding request_from
  failed-request_from zero attempt method path params json_body operation last_error e n w total h
        failure =
      omega arith
  failed-request_from (suc left) attempt method path params json_body operation last_error e n w
        total h failure =
      let (o, _, step) =
        bind-ok (attempt_once codec session client method path params json_body operation)
          (λ o.
            follow codec session client attempt
              (request_from codec session client left (suc attempt) method path params json_body
                operation (error_or last_error o))
              o)
          w (failed e) failure in
      rw (step, suc_shift n left)
        (failed-follow attempt left (suc n)
          (request_from codec session client left (suc attempt) method path params json_body
            operation (error_or last_error o))
          o e (omega arith)
          (λ w1 h1.
            failed-request_from left (suc attempt) method path params json_body operation
              (error_or last_error o) e (suc n) w1 (omega arith) h1)
          (attempt_once codec session client method path params json_body operation w).1
          (sent-attempt_once method path params json_body operation w ∙ ap suc h)
          (sym (ap (λ r. r.0) step) ∙ failure))

  -- Of any session whose requests a count follows: a call of the GitHub client's _request, however
  -- it ends, sends at most max_retries + 1 requests.
  pub sent-request :
      (method path : String) (params json_body : Option Fields) (operation : String) (w : W)
      → sent (request codec session client method path params json_body operation w).1
        ≤ sent w + suc client.max_retries
  unfolding request
  sent-request method path params json_body operation w =
      sent-request_from (suc client.max_retries) 1 method path params json_body operation
        (connection_error operation "Unknown error") (sent w) w refl

  -- Of any session whose requests a count follows: a call of the GitHub client's _request that
  -- ends in an ApiError has sent exactly max_retries + 1 requests, whatever statuses the responses
  -- had, those that _is_retryable_status does not name included.
  pub request-failed :
      (method path : String) (params json_body : Option Fields) (operation : String) (e : ApiError)
      (w : W)
      → (request codec session client method path params json_body operation w).0 ≡ ok (failed e)
      → sent (request codec session client method path params json_body operation w).1
        ≡ sent w + suc client.max_retries
  unfolding request
  request-failed method path params json_body operation e w failure =
      failed-request_from (suc client.max_retries) 1 method path params json_body operation
        (connection_error operation "Unknown error") e (sent w) w (omega arith) refl failure
