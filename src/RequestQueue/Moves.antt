-- ===== src/RequestQueue/Moves.antt =====
-- The steps of RateLimitedRequestQueue move requests, and lose none.
use enterprise_multi_agent_s.Prelude.{
  ℕ, ◌+◌, String, Option, none, some, List, [], ◌∷◌, ◌++◌, ◌≡◌, refl, ap, ltb, if_lem, arith,
}
use enterprise_multi_agent_s.Python.Result.{Exn}
use enterprise_multi_agent_s.Python.Dict
use enterprise_multi_agent_s.Python.Dict.{Dict, string_eq}
use enterprise_multi_agent_s.RequestQueue.{
  Delay, micros, nan, later, RequestOutcome, result, exception, QueuedRequest, Worker, idle, ended,
  sleeping, waiting, running, Queue, measured, status, is_cancelled, should_backoff,
  parse_retry_after, backoff_delay,
}
use enterprise_multi_agent_s.RequestQueue.Counts.{
  tally, tally-append, tally-middle, of_request, of_entry, of_worker, of_delayed, places,
}
use enterprise_multi_agent_s.RequestQueue.Conserved.{
  IsHeld, same-IsHeld, drop-IsHeld, settle-IsHeld,
}
use enterprise_multi_agent_s.RequestQueue.Steps.{
  phase_until, waits_until, take_request, acquire, raise_in, back_off, complete, finish, escape,
  backed,
}

-- the workers, with one of them named
workers-places :
    (q : Queue) (before after : List Worker) (w : Worker) (n : ℕ)
    → q.workers ≡ before ++ w ∷ after
    → places q n
      ≡ (tally (of_entry n) q.requests
          + ((of_worker n w + (tally (of_worker n) before + tally (of_worker n) after))
              + tally (of_delayed n) q.delayed))
        + tally (of_request n) q.lost
unfolding places
workers-places q before after w n h =
    omega (arith, ap (tally (of_worker n)) h, tally-middle (of_worker n) before after w)

-- a worker changed its phase with the same request
pub move-IsHeld :
    (q q' : Queue) (before after : List Worker) (w w' : Worker)
    → q.workers ≡ before ++ w ∷ after
    → q'.workers ≡ before ++ w' ∷ after
    → q'.futures ≡ q.futures
    → ((n : ℕ)
        → ((tally (of_entry n) q'.requests + of_worker n w') + tally (of_delayed n) q'.delayed)
            + tally (of_request n) q'.lost
          ≡ ((tally (of_entry n) q.requests + of_worker n w) + tally (of_delayed n) q.delayed)
            + tally (of_request n) q.lost)
    → IsHeld q
    → IsHeld q'
move-IsHeld q q' before after w w' h h' futures moved held =
    same-IsHeld q q' futures
      (λ n. omega (
        arith,
        workers-places q before after w n h,
        workers-places q' before after w' n h',
        moved n,
      ))
      held

pub wake-IsHeld :
    (q : Queue) (before after : List Worker) (r : QueuedRequest) (until : ℕ)
    → q.workers ≡ before ++ sleeping r until ∷ after
    → IsHeld q
    → IsHeld (record q { workers = before ++ waiting r ∷ after })
wake-IsHeld q before after r until h held =
    move-IsHeld q (record q { workers = before ++ waiting r ∷ after }) before after
      (sleeping r until) (waiting r) h refl refl (λ n. refl) held

pub acquire-IsHeld :
    (q : Queue) (before after : List Worker) (r : QueuedRequest)
    → q.workers ≡ before ++ waiting r ∷ after
    → IsHeld q
    → IsHeld (acquire q before after r)
unfolding acquire
acquire-IsHeld q before after r h held =
    move-IsHeld q (acquire q before after r) before after (waiting r) (running r) h refl refl
      (λ n. refl) held

pub end-IsHeld :
    (q : Queue) (before after : List Worker) (rest : List (Option QueuedRequest))
    → q.workers ≡ before ++ idle ∷ after
    → q.requests ≡ none ∷ rest
    → IsHeld q
    → IsHeld (record q { requests = rest; workers = before ++ ended ∷ after })
unfolding tally
end-IsHeld q before after rest h k held =
    move-IsHeld q (record q { requests = rest; workers = before ++ ended ∷ after }) before after
      idle ended h refl refl (λ n. omega (arith, ap (tally (of_entry n)) k)) held

of_phase :
    (n now : ℕ) (r : QueuedRequest) (o : Option Delay)
    → of_worker n (phase_until now r o) ≡ of_request n r
of_phase n now r none = refl
of_phase n now r (some nan) = refl
of_phase n now r (some (micros until)) =
    if_lem (λ w. of_worker n w ≡ of_request n r) (ltb now until) (sleeping r until) (waiting r)
      (λ _. refl) λ _. refl

pub take-IsHeld :
    (q : Queue) (before after : List Worker) (r : QueuedRequest)
    (rest : List (Option QueuedRequest))
    → q.workers ≡ before ++ idle ∷ after
    → q.requests ≡ some r ∷ rest
    → IsHeld q
    → IsHeld (take_request q before after r rest)
unfolding take_request tally
take-IsHeld q before after r rest h k held =
    if_lem IsHeld (is_cancelled (status q.futures r.id)) dropped taken
      (λ gone.
        drop-IsHeld q dropped r refl gone
          (λ n. omega (
            arith,
            ap (tally (of_entry n)) k,
            workers-places q before after idle n h,
            workers-places dropped before after idle n refl,
          ))
          held)
      λ _.
        move-IsHeld q taken before after idle (phase_until q.now r (Dict.get r.host q.host_backoff))
          h refl refl
          (λ n.
            omega (
              arith,
              ap (tally (of_entry n)) k,
              of_phase n q.now r (Dict.get r.host q.host_backoff),
            ))
          held
  where
    p : Queue
    p = measured (record q { requests = rest })

    dropped : Queue
    dropped = record p { workers = before ++ idle ∷ after }

    taken : Queue
    taken = record p {
      workers = before ++ phase_until q.now r (Dict.get r.host q.host_backoff) ∷ after;
      metrics = waits_until q.now r (Dict.get r.host q.host_backoff) p.metrics;
    }

pub raise-IsHeld :
    (q : Queue) (before after : List Worker) (r : QueuedRequest) (e : Exn)
    → q.workers ≡ before ++ running r ∷ after
    → IsHeld q
    → IsHeld (raise_in q before after r e)
unfolding raise_in
raise-IsHeld q before after r e h held =
    settle-IsHeld q (raise_in q before after r e) r (exception e) refl refl
      (λ n. omega (
        arith,
        workers-places q before after (running r) n h,
        workers-places (raise_in q before after r e) before after idle n refl,
      ))
      held

pub complete-IsHeld :
    (q : Queue) (before after : List Worker) (r : QueuedRequest) (outcome : RequestOutcome)
    → q.workers ≡ before ++ running r ∷ after
    → IsHeld q
    → IsHeld (complete q before after r outcome)
unfolding complete
complete-IsHeld q before after r outcome h held =
    settle-IsHeld q (complete q before after r outcome) r (result outcome) refl refl
      (λ n. omega (
        arith,
        workers-places q before after (running r) n h,
        workers-places (complete q before after r outcome) before after idle n refl,
      ))
      held

pub escape-IsHeld :
    (q : Queue) (before after : List Worker) (r : QueuedRequest)
    → q.workers ≡ before ++ running r ∷ after
    → IsHeld q
    → IsHeld (escape q before after r)
unfolding escape tally
escape-IsHeld q before after r h held =
    move-IsHeld q (escape q before after r) before after (running r) ended h refl refl
      (λ n. omega (arith, tally-append (of_request n) q.lost (r ∷ []))) held

pub back_off-IsHeld :
    (q : Queue) (before after : List Worker) (r : QueuedRequest) (delay : Delay)
    → q.workers ≡ before ++ running r ∷ after
    → IsHeld q
    → IsHeld (back_off q before after r delay)
unfolding back_off tally
back_off-IsHeld q before after r delay h held =
    move-IsHeld q (back_off q before after r delay) before after (running r) idle h refl refl
      (λ n. omega (arith, tally-append (of_delayed n) q.delayed ((r, later q.now delay) ∷ []))) held

backed-IsHeld :
    (q : Queue) (before after : List Worker) (r : QueuedRequest) (o : Option Delay)
    → q.workers ≡ before ++ running r ∷ after
    → IsHeld q
    → IsHeld (backed q before after r o)
backed-IsHeld q before after r none h held = escape-IsHeld q before after r h held
backed-IsHeld q before after r (some delay) h held = back_off-IsHeld q before after r delay h held

pub finish-IsHeld :
    (parse_float : String → Option Delay) (q : Queue) (before after : List Worker)
    (r : QueuedRequest) (outcome : RequestOutcome) (drawn : Delay)
    → q.workers ≡ before ++ running r ∷ after
    → IsHeld q
    → IsHeld (finish parse_float q before after r outcome drawn)
unfolding finish
finish-IsHeld parse_float q before after r outcome drawn h held =
    if_lem IsHeld (should_backoff parse_float outcome) (backed q before after r delay)
      (complete q before after r outcome) (λ _. backed-IsHeld q before after r delay h held)
      λ _. complete-IsHeld q before after r outcome h held
  where
    delay : Option Delay
    delay = backoff_delay q.limits r.attempt (parse_retry_after parse_float outcome.headers) drawn
