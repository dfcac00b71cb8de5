-- ===== src/RequestQueue.antt =====
-- infra/queue/request_queue.py: RateLimitedRequestQueue. Here are its data and what one piece of a
-- coroutine does, from one await to the next; `Steps` puts the pieces together, in any order that the
-- event loop may choose. Times are microseconds of the monotonic clock, a negative delay is 0, an infinite
-- one stands for any that is longer than the longest, and what float() reads of a text, in
-- microseconds or a nan, is the parameter `parse_float`.
pub mod Steps
pub mod Counts
pub mod Conserved
pub mod Moves
pub mod Permits
pub mod Lifetime
pub mod Reached
use enterprise_multi_agent_s.Prelude.{
  ℕ, zero, suc, ◌+◌, ◌-◌, ◌*◌, ◌^◌, min, String, Bool, true, false, not, ◌&&◌, ◌||◌, Option, none,
  some, List, [], ◌∷◌, ◌++◌, ◌==◌, ltb, eqb, leb, if◌then◌else◌, is_some, length,
}
use enterprise_multi_agent_s.Python.Result.{
  Exn, Result, ok, err, value_error, runtime_error, raise_if, ◌>>=◌, ◌>>◌,
}
use enterprise_multi_agent_s.Python.Json.{Json}
use enterprise_multi_agent_s.Python.Dict
use enterprise_multi_agent_s.Python.Dict.{Dict, string_eq}

pub record RequestOutcome : Type 0 where
  pub status_code : ℕ
  pub headers : Dict String String
  pub payload : Json

-- A float of seconds: microseconds, or the nan that float("nan") reads.
pub data Delay : Type 0 where
  micros : ℕ → Delay
  nan : Delay

-- A future that its caller awaits.
pub data Future : Type 0 where
  pending cancelled : Future
  result : RequestOutcome → Future
  exception : Exn → Future

-- `_QueuedRequest`. `id` is the place of its future, and names its request_fn too.
pub record QueuedRequest : Type 0 where
  pub id : ℕ
  pub host : String
  pub enqueued_at : ℕ
  pub attempt : ℕ

-- A worker at the await where it stands: at the queue, asleep until a time, at the host's
-- semaphore, in the request, or returned.
pub data Worker : Type 0 where
  idle ended : Worker
  sleeping : QueuedRequest → ℕ → Worker
  waiting running : QueuedRequest → Worker

-- `RateLimitedQueueMetrics`; the average is the sum of the samples over their number.
pub record Metrics : Type 0 where
  pub total_enqueued : ℕ
  pub completed : ℕ
  pub backoff_events : ℕ
  pub queue_depth : ℕ
  pub last_backoff : Delay
  pub retry_after_by_host : Dict String Delay
  pub wait_samples : List ℕ

-- The arguments of the constructor; the jitter's ratio bounds what is drawn, and is left out.
pub record Limits : Type 0 where
  pub max_workers : ℕ
  pub per_host_limit : ℕ
  pub base_backoff : ℕ
  pub max_backoff : ℕ

-- The queue with its tasks: `requests` is the asyncio queue, with none for its end marks, `delayed` the
-- tasks of _requeue_after_delay with the ends of their sleeps, `free` the permits of the semaphores. `lost`
-- are the requests in the hands of a worker or of a delayed requeue that an exception ended; no field of
-- the class has them any more.
pub record Queue : Type 0 where
  pub limits : Limits
  pub requests : List (Option QueuedRequest)
  pub workers : List Worker
  pub delayed : List (QueuedRequest × Delay)
  pub lost : List QueuedRequest
  pub futures : List Future
  pub free : Dict String ℕ
  pub host_backoff : Dict String Delay
  pub metrics : Metrics
  pub closed : Bool
  pub now : ℕ

abbrev pub no_metrics : Metrics
no_metrics = record {
  total_enqueued = 0;
  completed = 0;
  backoff_events = 0;
  queue_depth = 0;
  last_backoff = micros 0;
  retry_after_by_host = [];
  wait_samples = [];
}

abbrev pub fresh : Limits → Queue
fresh limits = record {
  limits = limits;
  requests = [];
  workers = [];
  delayed = [];
  lost = [];
  futures = [];
  free = [];
  host_backoff = [];
  metrics = no_metrics;
  closed = false;
  now = 0;
}

unfoldable pub init : Limits → Result Queue
init limits = do
  _ ← raise_if (leb limits.max_workers 0) (value_error "max_workers must be positive")
  _ ← raise_if (leb limits.per_host_limit 0) (value_error "per_host_limit must be positive")
  _ ← raise_if (leb limits.base_backoff 0) (value_error "base_backoff_seconds must be positive")
  ok (fresh limits)

abbrev pub record_wait : ℕ → Metrics → Metrics
record_wait duration m = record m { wait_samples = m.wait_samples ++ duration ∷ [] }

-- time.monotonic() + duration
abbrev pub later : ℕ → Delay → Delay
later now (micros duration) = micros (now + duration)
later now nan = nan

abbrev pub record_backoff : String → Delay → ℕ → Metrics → Metrics
record_backoff host duration now m = record m {
  backoff_events = suc m.backoff_events;
  last_backoff = duration;
  retry_after_by_host = Dict.put host (later now duration) m.retry_after_by_host;
}

-- self._metrics.queue_depth = self._queue.qsize()
abbrev pub measured : Queue → Queue
measured q = record q { metrics = record q.metrics { queue_depth = length q.requests } }

abbrev pub next_attempt : ℕ → QueuedRequest → QueuedRequest
next_attempt now r = record r { enqueued_at = now; attempt = suc r.attempt }

-- the future of a request
unfoldable pub status : List Future → ℕ → Option Future
status [] n = none
status (f ∷ fs) zero = some f
status (f ∷ fs) (suc n) = status fs n

unfoldable pub set_future : ℕ → Future → List Future → List Future
set_future n f [] = []
set_future zero f (g ∷ fs) = f ∷ fs
set_future (suc n) f (g ∷ fs) = g ∷ set_future n f fs

abbrev pub is_cancelled : Option Future → Bool
is_cancelled (some cancelled) = true
is_cancelled _ = false

abbrev pub is_pending : Option Future → Bool
is_pending (some pending) = true
is_pending _ = false

-- `_try_set_future_result` and `_try_set_future_exception`: nothing for a future that is done
unfoldable pub try_set : ℕ → Future → List Future → List Future
try_set n f fs = if is_pending (status fs n) then set_future n f fs else fs

-- the request that is put in the queue, with a future of its own
unfoldable pub accept : String → Queue → Queue
accept host q = measured (record q {
  requests =
      q.requests
      ++ some (record { id = length q.futures; host = host; enqueued_at = q.now; attempt = 0 })
        ∷ [];
  futures = q.futures ++ pending ∷ [];
  metrics = record q.metrics { total_enqueued = suc q.metrics.total_enqueued };
})

-- `enqueue`, up to its `await future`
unfoldable pub enqueue : String → Queue → Result Queue
unfolding accept
enqueue host q =
    if q.closed
    then err (runtime_error "Cannot enqueue after queue is closed")
    else ok (accept host q)

unfoldable pub replicate {ℓ} : {A : Type ℓ} → ℕ → A → List A
replicate zero a = []
replicate (suc n) a = a ∷ replicate n a

unfoldable pub start : Queue → Queue
start q = elim q.workers [
  | [] ↦ record q { workers = replicate q.limits.max_workers idle }
  | w ∷ ws ↦ q
]

-- `close`, up to its wait for the workers
unfoldable pub close : Queue → Queue
close q =
    if q.closed
    then q
    else record q { closed = true; requests = q.requests ++ replicate (length q.workers) none }

module _ (parse_float : String → Option Delay) where
  -- `headers.get("retry-after") or headers.get("Retry-After")`, as a number
  abbrev pub number : Option String → Option Delay
  number none = none
  number (some text) = parse_float text

  abbrev pub get_or_get : Option String → Option String → Option String
  get_or_get none other = other
  get_or_get (some text) other = if text == "" then other else some text

  unfoldable pub parse_retry_after : Dict String String → Option Delay
  parse_retry_after headers =
      number (get_or_get (Dict.get "retry-after" headers) (Dict.get "Retry-After" headers))

  abbrev pub is_zero_text : Option String → Bool
  is_zero_text none = false
  is_zero_text (some text) = text == "0"

  unfoldable pub should_backoff : RequestOutcome → Bool
  unfolding parse_retry_after
  should_backoff outcome =
      (eqb outcome.status_code 429 || is_some (parse_retry_after outcome.headers))
      || is_zero_text (Dict.get "x-ratelimit-remaining" outcome.headers)

-- `delay += drawn; return min(delay, max_backoff)`; min keeps a nan that comes first
abbrev pub capped : ℕ → Delay → Delay → Delay
capped max_backoff (micros delay) (micros drawn) = micros (min (delay + drawn) max_backoff)
capped max_backoff _ _ = nan

-- `drawn` is what random.uniform draws. None is the OverflowError of a float times 2 ** attempt.
unfoldable pub backoff_delay : Limits → ℕ → Option Delay → Delay → Option Delay
backoff_delay limits attempt (some delay) drawn = some (capped limits.max_backoff delay drawn)
backoff_delay limits attempt none drawn =
    if leb 1024 attempt
    then none
    else some (capped limits.max_backoff (micros (limits.base_backoff * 2 ^ attempt)) drawn)

-- the permits of a host's semaphore, which is made at its first use
abbrev pub permits_of : ℕ → Option ℕ → ℕ
permits_of limit none = limit
permits_of limit (some n) = n

abbrev pub permits : Queue → String → ℕ
permits q host = permits_of q.limits.per_host_limit (Dict.get host q.free)
