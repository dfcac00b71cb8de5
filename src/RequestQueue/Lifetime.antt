-- ===== src/RequestQueue/Lifetime.antt =====
-- Start, close and the return of delayed requests: the queue keeps its requests and its permits.
use enterprise_multi_agent_s.Prelude.{
  List, [], ap, arith, if_lem, length, none, refl, some, true, ℕ, ◌++◌, ◌+◌, ◌∙◌, ◌∷◌, ◌≡◌,
}
use enterprise_multi_agent_s.Python.Dict.{string_eq}
use enterprise_multi_agent_s.RequestQueue.{
  Delay, nan, Queue, QueuedRequest, Worker, close, idle, is_cancelled, measured, next_attempt,
  replicate, start, status,
}
use enterprise_multi_agent_s.RequestQueue.Counts.{
  in_host, of_delayed, of_entry, of_request, of_worker, places, running_in, tally, tally-append,
  tally-middle, tally-replicate,
}
use enterprise_multi_agent_s.RequestQueue.Conserved.{IsHeld, drop-IsHeld, same-IsHeld}
use enterprise_multi_agent_s.RequestQueue.Steps.{requeue, strand}
use enterprise_multi_agent_s.RequestQueue.Permits.{IsLimited, same-IsLimited}

pub requeue-IsHeld :
    (q : Queue) (before after : List (QueuedRequest × Delay)) (r : QueuedRequest) (until : Delay)
    → q.delayed ≡ before ++ (r, until) ∷ after
    → IsHeld q
    → IsHeld (requeue q before after r)
unfolding requeue places tally
requeue-IsHeld q before after r until h held =
    if_lem IsHeld (is_cancelled (status q.futures r.id)) (record q { delayed = before ++ after })
      (measured (record q {
        delayed = before ++ after;
        requests = q.requests ++ some (next_attempt q.now r) ∷ [];
      }))
      (λ gone.
        drop-IsHeld q (record q { delayed = before ++ after }) r refl gone
          (λ n. omega (arith, delayed n, tally-append (of_delayed n) before after)) held)
      λ _.
        same-IsHeld q
          (measured (record q {
            delayed = before ++ after;
            requests = q.requests ++ some (next_attempt q.now r) ∷ [];
          }))
          refl
          (λ n. omega (
            arith,
            delayed n,
            tally-append (of_delayed n) before after,
            tally-append (of_entry n) q.requests (some (next_attempt q.now r) ∷ []),
          ))
          held
  where
    delayed :
        (n : ℕ)
        → tally (of_delayed n) q.delayed
          ≡ of_request n r + (tally (of_delayed n) before + tally (of_delayed n) after)
    delayed n = ap (tally (of_delayed n)) h ∙ tally-middle (of_delayed n) before after (r, until)

pub strand-IsHeld :
    (q : Queue) (before after : List (QueuedRequest × Delay)) (r : QueuedRequest)
    → q.delayed ≡ before ++ (r, nan) ∷ after
    → IsHeld q
    → IsHeld (strand q before after r)
unfolding strand places tally
strand-IsHeld q before after r h held =
    same-IsHeld q (strand q before after r) refl
      (λ n. omega (
        arith,
        ap (tally (of_delayed n)) h,
        tally-middle (of_delayed n) before after (r, nan),
        tally-append (of_delayed n) before after,
        tally-append (of_request n) q.lost (r ∷ []),
      ))
      held

pub close-IsHeld : (q : Queue) → IsHeld q → IsHeld (close q)
unfolding close places
close-IsHeld q held =
    if_lem IsHeld q.closed q
      (record q { closed = true; requests = q.requests ++ replicate (length q.workers) none })
      (λ _. held)
      λ _.
        same-IsHeld q
          (record q { closed = true; requests = q.requests ++ replicate (length q.workers) none })
          refl
          (λ n. omega (
            arith,
            tally-append (of_entry n) q.requests (replicate (length q.workers) none),
            tally-replicate (of_entry n) (length q.workers) none refl,
          ))
          held

started-IsHeld :
    (q : Queue) (ws : List Worker)
    → q.workers ≡ ws
    → IsHeld q
    → IsHeld
        (elim ws [ [] ↦ record q { workers = replicate q.limits.max_workers idle } | w ∷ us ↦ q ])
unfolding places tally
started-IsHeld q [] h held =
    same-IsHeld q (record q { workers = replicate q.limits.max_workers idle }) refl
      (λ n. omega (
        arith,
        ap (tally (of_worker n)) h,
        tally-replicate (of_worker n) q.limits.max_workers idle refl,
      ))
      held
started-IsHeld q (w ∷ us) h held = held

pub start-IsHeld : (q : Queue) → IsHeld q → IsHeld (start q)
unfolding start
start-IsHeld q held = started-IsHeld q q.workers refl held

pub requeue-IsLimited :
    (q : Queue) (before after : List (QueuedRequest × Delay)) (r : QueuedRequest)
    → IsLimited q
    → IsLimited (requeue q before after r)
unfolding requeue running_in
requeue-IsLimited q before after r limited =
    if_lem IsLimited (is_cancelled (status q.futures r.id)) _ _ (λ _ host. limited host)
      λ _ host. limited host

pub close-IsLimited : (q : Queue) → IsLimited q → IsLimited (close q)
unfolding close running_in
close-IsLimited q limited = if_lem IsLimited q.closed _ _ (λ _. limited) λ _ host. limited host

started-IsLimited :
    (q : Queue) (ws : List Worker)
    → q.workers ≡ ws
    → IsLimited q
    → IsLimited
        (elim ws [ [] ↦ record q { workers = replicate q.limits.max_workers idle } | w ∷ us ↦ q ])
unfolding running_in tally
started-IsLimited q [] h limited =
    same-IsLimited q (record q { workers = replicate q.limits.max_workers idle }) refl refl
      (λ host. omega (
        arith,
        ap (tally (in_host host)) h,
        tally-replicate (in_host host) q.limits.max_workers idle refl,
      ))
      limited
started-IsLimited q (w ∷ us) h limited = limited

pub start-IsLimited : (q : Queue) → IsLimited q → IsLimited (start q)
unfolding start
start-IsLimited q limited = started-IsLimited q q.workers refl limited
