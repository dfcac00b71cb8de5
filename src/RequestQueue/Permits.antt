-- ===== src/RequestQueue/Permits.antt =====
-- The permits of the hosts' semaphores in RateLimitedRequestQueue.
use enterprise_multi_agent_s.Prelude.{
  ℕ, suc, ◌+◌, ◌-◌, ◌≤◌, String, Bool, true, false, Option, none, some, List, ◌∷◌, ◌++◌, ◌≡◌, refl,
  sym, ap, ◌∙◌, ltb, if◌then◌else◌, if_lem, arith, ◌==◌, eq_iff,
}
use enterprise_multi_agent_s.Python.Result.{Exn}
use enterprise_multi_agent_s.Python.Dict
use enterprise_multi_agent_s.Python.Dict.{Dict, string_eq}
use enterprise_multi_agent_s.RequestQueue.{
  Delay, micros, nan, ended, RequestOutcome, QueuedRequest, Worker, idle, sleeping, waiting,
  running, Queue, measured, is_cancelled, status, should_backoff, parse_retry_after, backoff_delay,
  permits, permits_of,
}
use enterprise_multi_agent_s.RequestQueue.Counts.{tally, tally-middle, in_host, running_in, one_if}
use enterprise_multi_agent_s.RequestQueue.Steps.{
  phase_until, waits_until, take_request, acquire, raise_in, back_off, complete, finish, escape,
  backed,
}

-- free permits and requests in flight make up the limit
abbrev pub IsLimited : Queue → Type 0
IsLimited q = (host : String) → permits q host + running_in q host ≡ q.limits.per_host_limit

-- a step that touches neither
pub same-IsLimited :
    (q q' : Queue)
    → q'.limits ≡ q.limits
    → q'.free ≡ q.free
    → ((host : String) → running_in q' host ≡ running_in q host)
    → IsLimited q
    → IsLimited q'
same-IsLimited q q' limits free same limited host =
    omega (arith, permits_same, same host, limited host, ap (λ l. l.per_host_limit) limits)
  where
    permits_same : permits q' host ≡ permits q host
    permits_same =
        ap (λ l. permits_of l.per_host_limit (Dict.get host q'.free)) limits
        ∙ ap (λ f. permits_of q.limits.per_host_limit (Dict.get host f)) free

workers-running :
    (q : Queue) (before after : List Worker) (w : Worker) (host : String)
    → q.workers ≡ before ++ w ∷ after
    → running_in q host
      ≡ in_host host w + (tally (in_host host) before + tally (in_host host) after)
unfolding running_in
workers-running q before after w host h =
    ap (tally (in_host host)) h ∙ tally-middle (in_host host) before after w

permits_if :
    (b : Bool) (limit n : ℕ) (o : Option ℕ)
    → permits_of limit (if b then some n else o) ≡ (if b then n else permits_of limit o)
permits_if true limit n o = refl
permits_if false limit n o = refl

permits-put :
    (q : Queue) (host other : String) (n : ℕ) (q' : Queue)
    → q'.limits ≡ q.limits
    → q'.free ≡ Dict.put host n q.free
    → permits q' other ≡ (if host == other then n else permits q other)
permits-put q host other n q' limits h =
    ap (λ l. permits_of l.per_host_limit (Dict.get other q'.free)) limits
    ∙ ap (λ f. permits_of q.limits.per_host_limit (Dict.get other f)) h
    ∙ ap (λ o. permits_of q.limits.per_host_limit o) (Dict.get-put host other n q.free)
    ∙ permits_if (host == other) q.limits.per_host_limit n (Dict.get other q.free)

-- a worker changed its phase outside of a request
pub quiet-IsLimited :
    (q q' : Queue) (before after : List Worker) (w w' : Worker)
    → q.workers ≡ before ++ w ∷ after
    → q'.workers ≡ before ++ w' ∷ after
    → q'.limits ≡ q.limits
    → q'.free ≡ q.free
    → ((host : String) → in_host host w' ≡ in_host host w)
    → IsLimited q
    → IsLimited q'
quiet-IsLimited q q' before after w w' h h' limits free same limited =
    same-IsLimited q q' limits free
      (λ host. omega (
        arith,
        workers-running q before after w host h,
        workers-running q' before after w' host h',
        same host,
      ))
      limited

-- a permit that is taken, and one that is given back, at the host or at another
taken :
    (b : Bool) (new here old run run' rest limit : ℕ)
    → (b ≡ true → here ≡ old)
    → new ≡ (if b then here - 1 else old)
    → 1 ≤ here
    → run ≡ rest
    → run' ≡ one_if b + rest
    → old + run ≡ limit
    → new + run' ≡ limit
taken true new here old run run' rest limit same n some_free r r' l = omega (arith, same refl)
taken false new here old run run' rest limit same n some_free r r' l = omega arith

given_back :
    (b : Bool) (new here old run run' rest limit : ℕ)
    → (b ≡ true → here ≡ old)
    → new ≡ (if b then suc here else old)
    → run ≡ one_if b + rest
    → run' ≡ rest
    → old + run ≡ limit
    → new + run' ≡ limit
given_back true new here old run run' rest limit same n r r' l = omega (arith, same refl)
given_back false new here old run run' rest limit same n r r' l = omega arith

permits_at :
    (q : Queue) (host other : String) → (host == other) ≡ true → permits q host ≡ permits q other
permits_at q host other h = ap (permits q) ((eq_iff host other).0 h)

pub acquire-IsLimited :
    (q : Queue) (before after : List Worker) (r : QueuedRequest)
    → q.workers ≡ before ++ waiting r ∷ after
    → 1 ≤ permits q r.host
    → IsLimited q
    → IsLimited (acquire q before after r)
unfolding acquire
acquire-IsLimited q before after r h free limited host =
    taken (r.host == host) (permits q' host) (permits q r.host) (permits q host) (running_in q host)
      (running_in q' host) (tally (in_host host) before + tally (in_host host) after)
      q.limits.per_host_limit (permits_at q r.host host)
      (permits-put q r.host host (permits q r.host - 1) q' refl refl) free
      (omega (arith, workers-running q before after (waiting r) host h))
      (workers-running q' before after (running r) host refl) (limited host)
  where
    q' : Queue
    q' = acquire q before after r

-- the end of a request, whatever else changes
released-IsLimited :
    (q q' : Queue) (before after : List Worker) (r : QueuedRequest) (w : Worker)
    → q.workers ≡ before ++ running r ∷ after
    → q'.workers ≡ before ++ w ∷ after
    → ((host : String) → in_host host w ≡ 0)
    → q'.limits ≡ q.limits
    → q'.free ≡ Dict.put r.host (suc (permits q r.host)) q.free
    → IsLimited q
    → IsLimited q'
released-IsLimited q q' before after r w h h' out limits free limited host =
    given_back (r.host == host) (permits q' host) (permits q r.host) (permits q host)
      (running_in q host) (running_in q' host)
      (tally (in_host host) before + tally (in_host host) after) q'.limits.per_host_limit
      (permits_at q r.host host) (permits-put q r.host host (suc (permits q r.host)) q' limits free)
      (workers-running q before after (running r) host h)
      (omega (arith, workers-running q' before after w host h', out host))
      (limited host ∙ sym (ap (λ l. l.per_host_limit) limits))

pub raise-IsLimited :
    (q : Queue) (before after : List Worker) (r : QueuedRequest) (e : Exn)
    → q.workers ≡ before ++ running r ∷ after
    → IsLimited q
    → IsLimited (raise_in q before after r e)
unfolding raise_in
raise-IsLimited q before after r e h limited =
    released-IsLimited q (raise_in q before after r e) before after r idle h refl (λ _. refl) refl
      refl limited

pub escape-IsLimited :
    (q : Queue) (before after : List Worker) (r : QueuedRequest)
    → q.workers ≡ before ++ running r ∷ after
    → IsLimited q
    → IsLimited (escape q before after r)
unfolding escape
escape-IsLimited q before after r h limited =
    released-IsLimited q (escape q before after r) before after r ended h refl (λ _. refl) refl refl
      limited

backed-IsLimited :
    (q : Queue) (before after : List Worker) (r : QueuedRequest) (o : Option Delay)
    → q.workers ≡ before ++ running r ∷ after
    → IsLimited q
    → IsLimited (backed q before after r o)
unfolding back_off
backed-IsLimited q before after r none h limited = escape-IsLimited q before after r h limited
backed-IsLimited q before after r (some delay) h limited =
    released-IsLimited q (back_off q before after r delay) before after r idle h refl (λ _. refl)
      refl refl limited

pub finish-IsLimited :
    (parse_float : String → Option Delay) (q : Queue) (before after : List Worker)
    (r : QueuedRequest) (outcome : RequestOutcome) (drawn : Delay)
    → q.workers ≡ before ++ running r ∷ after
    → IsLimited q
    → IsLimited (finish parse_float q before after r outcome drawn)
unfolding finish complete
finish-IsLimited parse_float q before after r outcome drawn h limited =
    if_lem IsLimited (should_backoff parse_float outcome) (backed q before after r delay)
      (complete q before after r outcome) (λ _. backed-IsLimited q before after r delay h limited)
      λ _.
        released-IsLimited q (complete q before after r outcome) before after r idle h refl
          (λ _. refl) refl refl limited
  where
    delay : Option Delay
    delay = backoff_delay q.limits r.attempt (parse_retry_after parse_float outcome.headers) drawn

phase-in_host :
    (host : String) (now : ℕ) (r : QueuedRequest) (o : Option Delay)
    → in_host host (phase_until now r o) ≡ 0
phase-in_host host now r none = refl
phase-in_host host now r (some nan) = refl
phase-in_host host now r (some (micros until)) =
    if_lem (λ w. in_host host w ≡ 0) (ltb now until) (sleeping r until) (waiting r) (λ _. refl)
      λ _. refl

pub take-IsLimited :
    (q : Queue) (before after : List Worker) (r : QueuedRequest)
    (rest : List (Option QueuedRequest))
    → q.workers ≡ before ++ idle ∷ after
    → IsLimited q
    → IsLimited (take_request q before after r rest)
unfolding take_request
take-IsLimited q before after r rest h limited =
    if_lem IsLimited (is_cancelled (status q.futures r.id)) dropped begun
      (λ _.
        quiet-IsLimited q dropped before after idle idle h refl refl refl (λ host. refl) limited)
      λ _.
        quiet-IsLimited q begun before after idle phase h refl refl refl
          (λ host. phase-in_host host q.now r (Dict.get r.host q.host_backoff)) limited
  where
    phase : Worker
    phase = phase_until q.now r (Dict.get r.host q.host_backoff)

    p : Queue
    p = measured (record q { requests = rest })

    dropped : Queue
    dropped = record p { workers = before ++ idle ∷ after }

    begun : Queue
    begun = record p {
      workers = before ++ phase ∷ after;
      metrics = waits_until q.now r (Dict.get r.host q.host_backoff) p.metrics;
    }
