-- ===== src/Tests/Requests.antt =====
-- A request queue with one worker, which takes a request, begins it and ends with it.
use enterprise_multi_agent_s.Prelude.{String, Option, none, [], refl, arith}
use enterprise_multi_agent_s.Python.Dict
use enterprise_multi_agent_s.RequestQueue
use enterprise_multi_agent_s.RequestQueue.{
  Delay, QueuedRequest, Worker, idle, waiting, Limits, Queue, fresh, start, accept,
}
use enterprise_multi_agent_s.RequestQueue.Steps
use enterprise_multi_agent_s.RequestQueue.Steps.{
  take_request, acquire, escape, escapes, starts, enqueues, takes, acquires, Reachable, new, next,
}
use enterprise_multi_agent_s.RequestQueue.Reached.{IsConserved, Reachable-IsConserved}

abbrev limits : Limits
limits = record {
  max_workers = 1;
  per_host_limit = 1;
  base_backoff = 250000;
  max_backoff = 30000000;
}

abbrev parse : String → Option Delay
parse text = none

abbrev request : QueuedRequest
request = record { id = 0; host = "api"; enqueued_at = 0; attempt = 0 }

reading : Unit {0}
unfolding RequestQueue.init RequestQueue.start RequestQueue.replicate RequestQueue.accept
    Steps.acquire RequestQueue.enqueue RequestQueue.status Steps.take_request Dict.get
reading = tt

abbrev filled : Queue
filled = accept "api" (start (fresh limits))

abbrev begun : Queue
begun = take_request filled [] [] request []

running_now : Reachable parse (acquire begun [] [] request)
unfolding reading
running_now =
    next begun (acquire begun [] [] request)
      (next filled begun
        (next (start (fresh limits)) filled
          (next (fresh limits) (start (fresh limits)) (new limits (fresh limits) refl)
            (starts (fresh limits)))
          (enqueues "api" (start (fresh limits)) filled refl))
        (takes filled [] [] request [] refl refl))
      (acquires begun [] [] request refl (omega arith))

-- the request raises CancelledError
abbrev after_escape : Queue
after_escape = escape (acquire begun [] [] request) [] [] request

lost_now : Reachable parse after_escape
unfolding reading
lost_now =
    next (acquire begun [] [] request) after_escape running_now
      (escapes (acquire begun [] [] request) [] [] request refl)

Reachable-IsConserved_example : IsConserved after_escape
Reachable-IsConserved_example = Reachable-IsConserved parse after_escape lost_now
