-- ===== src/RequestQueue/Steps.antt =====
-- infra/queue/request_queue.py: the pieces of RateLimitedRequestQueue's coroutines as the steps of one
-- relation. A step of a worker names the workers before and behind it. The tasks are ended by what
-- their code raises; that somebody cancels them from outside, as a loop does that shuts down, is left out.
use enterprise_multi_agent_s.Prelude.{
  ℕ, suc, ◌+◌, ◌-◌, ◌≤◌, String, Option, none, some, List, [], ◌∷◌, ◌++◌, ◌≡◌, ltb, if◌then◌else◌,
}
use enterprise_multi_agent_s.Python.Result.{Exn, ok}
use enterprise_multi_agent_s.Python.Dict
use enterprise_multi_agent_s.Python.Dict.{Dict, string_eq}
use enterprise_multi_agent_s.RequestQueue.{
  RequestOutcome, pending, cancelled, result, exception, QueuedRequest, Worker, idle, ended,
  sleeping, waiting, running, Metrics, Limits, Queue, init, record_wait, record_backoff, measured,
  next_attempt, status, set_future, is_cancelled, is_pending, try_set, enqueue, start, close, Delay,
  micros, nan, later, parse_retry_after, should_backoff, backoff_delay, permits,
}

-- where a worker goes with a request: to sleep, or to the semaphore
abbrev pub phase_until : ℕ → QueuedRequest → Option Delay → Worker
phase_until now r none = waiting r
phase_until now r (some nan) = waiting r
phase_until now r (some (micros until)) = if ltb now until then sleeping r until else waiting r

abbrev pub waits_until : ℕ → QueuedRequest → Option Delay → Metrics → Metrics
waits_until now r none m = record_wait (now - r.enqueued_at) m
waits_until now r (some nan) m = record_wait (now - r.enqueued_at) m
waits_until now r (some (micros until)) m =
    if ltb now until
    then record_wait (until - now) (record_wait (now - r.enqueued_at) m)
    else record_wait (now - r.enqueued_at) m

-- `_worker`, behind a `get` that gave a request
unfoldable pub take_request :
    Queue → List Worker → List Worker → QueuedRequest → List (Option QueuedRequest) → Queue
take_request q before after r rest =
    let p = measured (record q { requests = rest }) in
    let until = Dict.get r.host q.host_backoff in
    if is_cancelled (status q.futures r.id)
    then record p { workers = before ++ idle ∷ after }
    else record p {
      workers = before ++ phase_until q.now r until ∷ after;
      metrics = waits_until q.now r until p.metrics;
    }

-- async with semaphore
unfoldable pub acquire : Queue → List Worker → List Worker → QueuedRequest → Queue
acquire q before after r = record q {
  workers = before ++ running r ∷ after;
  free = Dict.put r.host (permits q r.host - 1) q.free;
}

-- the end of the semaphore's block, and the worker back at the queue
abbrev pub release : Queue → List Worker → List Worker → QueuedRequest → Queue
release q before after r = record q {
  workers = before ++ idle ∷ after;
  free = Dict.put r.host (suc (permits q r.host)) q.free;
}

-- An exception that ends the worker behind the semaphore: its request is done no more.
unfoldable pub escape : Queue → List Worker → List Worker → QueuedRequest → Queue
escape q before after r = record (release q before after r) {
  workers = before ++ ended ∷ after;
  lost = q.lost ++ r ∷ [];
}

-- `except Exception`
unfoldable pub raise_in : Queue → List Worker → List Worker → QueuedRequest → Exn → Queue
raise_in q before after r e =
    measured (record (release q before after r) { futures = try_set r.id (exception e) q.futures })

-- `if self._should_backoff(outcome):`
unfoldable pub back_off : Queue → List Worker → List Worker → QueuedRequest → Delay → Queue
back_off q before after r delay = measured (record (release q before after r) {
  metrics = record_backoff r.host delay q.now q.metrics;
  host_backoff = Dict.put r.host (later q.now delay) q.host_backoff;
  delayed = q.delayed ++ (r, later q.now delay) ∷ [];
})

unfoldable pub complete : Queue → List Worker → List Worker → QueuedRequest → RequestOutcome → Queue
complete q before after r outcome = measured (record (release q before after r) {
  futures = try_set r.id (result outcome) q.futures;
  metrics = record q.metrics {
    completed =
        if is_pending (status q.futures r.id) then suc q.metrics.completed else q.metrics.completed;
  };
})

-- the delay, unless its computation overflows outside of the try block
abbrev pub backed : Queue → List Worker → List Worker → QueuedRequest → Option Delay → Queue
backed q before after r none = escape q before after r
backed q before after r (some delay) = back_off q before after r delay

unfoldable pub finish :
    (String → Option Delay)
    → Queue
    → List Worker
    → List Worker
    → QueuedRequest
    → RequestOutcome
    → Delay
    → Queue
unfolding back_off complete escape
finish parse_float q before after r outcome drawn =
    if should_backoff parse_float outcome
    then backed q before after r
        (backoff_delay q.limits r.attempt (parse_retry_after parse_float outcome.headers) drawn)
    else complete q before after r outcome

-- `_requeue_after_delay`, behind its sleep
unfoldable pub requeue :
    Queue → List (QueuedRequest × Delay) → List (QueuedRequest × Delay) → QueuedRequest → Queue
requeue q before after r =
    if is_cancelled (status q.futures r.id)
    then record q { delayed = before ++ after }
    else measured (record q {
      delayed = before ++ after;
      requests = q.requests ++ some (next_attempt q.now r) ∷ [];
    })

-- `_requeue_after_delay`, when its sleep raises
unfoldable pub strand :
    Queue → List (QueuedRequest × Delay) → List (QueuedRequest × Delay) → QueuedRequest → Queue
strand q before after r = record q { delayed = before ++ after; lost = q.lost ++ r ∷ [] }

-- A sleep that may end: one of nan seconds ends at once where the event loop accepts it.
abbrev pub IsOver : ℕ → Delay → Type 0
IsOver now (micros until) = until ≤ now
IsOver now nan = Unit

pub data Step (parse_float : String → Option Delay) : Queue → Queue → Type 0 where
  enqueues : (host : String) (q q' : Queue) → enqueue host q ≡ ok q' → Step parse_float q q'
  starts : (q : Queue) → Step parse_float q (start q)
  closes : (q : Queue) → Step parse_float q (close q)
  ends :
      (q : Queue) (before after : List Worker) (rest : List (Option QueuedRequest))
      → q.workers ≡ before ++ idle ∷ after
      → q.requests ≡ none ∷ rest
      → Step parse_float q (record q { requests = rest; workers = before ++ ended ∷ after })
  takes :
      (q : Queue) (before after : List Worker) (r : QueuedRequest)
      (rest : List (Option QueuedRequest))
      → q.workers ≡ before ++ idle ∷ after
      → q.requests ≡ some r ∷ rest
      → Step parse_float q (take_request q before after r rest)
  wakes :
      (q : Queue) (before after : List Worker) (r : QueuedRequest) (until : ℕ)
      → q.workers ≡ before ++ sleeping r until ∷ after
      → until ≤ q.now
      → Step parse_float q (record q { workers = before ++ waiting r ∷ after })
  acquires :
      (q : Queue) (before after : List Worker) (r : QueuedRequest)
      → q.workers ≡ before ++ waiting r ∷ after
      → 1 ≤ permits q r.host
      → Step parse_float q (acquire q before after r)
  raises :
      (q : Queue) (before after : List Worker) (r : QueuedRequest) (e : Exn)
      → q.workers ≡ before ++ running r ∷ after
      → Step parse_float q (raise_in q before after r e)
  -- what `except Exception` does not catch, as CancelledError, or a future does not take, as StopIteration
  escapes :
      (q : Queue) (before after : List Worker) (r : QueuedRequest)
      → q.workers ≡ before ++ running r ∷ after
      → Step parse_float q (escape q before after r)
  finishes :
      (q : Queue) (before after : List Worker) (r : QueuedRequest) (outcome : RequestOutcome)
      (drawn : Delay)
      → q.workers ≡ before ++ running r ∷ after
      → Step parse_float q (finish parse_float q before after r outcome drawn)
  requeues :
      (q : Queue) (before after : List (QueuedRequest × Delay)) (r : QueuedRequest) (until : Delay)
      → q.delayed ≡ before ++ (r, until) ∷ after
      → IsOver q.now until
      → Step parse_float q (requeue q before after r)
  -- asyncio.sleep refuses nan, and the task ends
  strands :
      (q : Queue) (before after : List (QueuedRequest × Delay)) (r : QueuedRequest)
      → q.delayed ≡ before ++ (r, nan) ∷ after
      → Step parse_float q (strand q before after r)
  -- the caller gives up its await
  cancels :
      (q : Queue) (n : ℕ)
      → status q.futures n ≡ some pending
      → Step parse_float q (record q { futures = set_future n cancelled q.futures })
  ticks : (q : Queue) (n : ℕ) → Step parse_float q (record q { now = q.now + n })

-- the queues that a new one can come to
pub data Reachable (parse_float : String → Option Delay) : Queue → Type 0 where
  new : (limits : Limits) (q : Queue) → init limits ≡ ok q → Reachable parse_float q
  next : (q q' : Queue) → Reachable parse_float q → Step parse_float q q' → Reachable parse_float q'
