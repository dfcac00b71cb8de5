-- ===== src/RequestQueue/Reached.antt =====
-- The invariant of RateLimitedRequestQueue in every state that it can reach.
use enterprise_multi_agent_s.Prelude.{
  ℕ, ◌+◌, ◌≤◌, String, Bool, true, false, Option, none, some, [], ◌∷◌, ◌++◌, ◌≡◌, refl, sym, ap,
  subst, ◌∙◌, eqb, ◌&&◌, is_some, if◌then◌else◌, length, arith, leb,
}
use enterprise_multi_agent_s.Python.Result.{
  Exn, ok, err, ok-injective, err-ok, then_ok, value_error, runtime_error, raise_if,
}
use enterprise_multi_agent_s.Python.Dict
use enterprise_multi_agent_s.Python.Dict.{Dict, string_eq}
use enterprise_multi_agent_s.RequestQueue.{
  Delay, Future, pending, cancelled, idle, ended, sleeping, waiting, Limits, Queue, fresh, init,
  status, set_future, accept, enqueue,
}
use enterprise_multi_agent_s.RequestQueue.Counts.{
  tally, tally-append, of_entry, places, running_in, status-set_future, status-append, status-none,
  one_if,
}
use enterprise_multi_agent_s.RequestQueue.Conserved.{Holds, IsHeld, cast-Holds}
use enterprise_multi_agent_s.RequestQueue.Moves.{
  wake-IsHeld, acquire-IsHeld, end-IsHeld, take-IsHeld, raise-IsHeld, finish-IsHeld, escape-IsHeld,
}
use enterprise_multi_agent_s.RequestQueue.Permits.{
  IsLimited, quiet-IsLimited, acquire-IsLimited, raise-IsLimited, finish-IsLimited,
  escape-IsLimited, take-IsLimited,
}
use enterprise_multi_agent_s.RequestQueue.Steps.{
  Step, enqueues, starts, closes, ends, takes, wakes, acquires, raises, escapes, finishes, requeues,
  strands, strand, cancels, ticks, Reachable, new, next,
}
use enterprise_multi_agent_s.RequestQueue.Lifetime.{
  requeue-IsHeld, strand-IsHeld, close-IsHeld, start-IsHeld, requeue-IsLimited, close-IsLimited,
  start-IsLimited,
}

-- Every request is where its future says: in one place while the future is pending, in at most one
-- when its caller gave up, and in none when it is done. The places are the queue, the workers' hands, the
-- delayed requeues, and what was lost with a task that an exception ended. No host has more requests in flight than
-- its limit.
pub record IsConserved (q : Queue) : Type 0 where
  pub held : (n : ℕ) → Holds (status q.futures n) (places q n)
  pub limited : (host : String) → running_in q host ≤ q.limits.per_host_limit

-- a new request
new_at :
    (b : Bool) (o : Option Future) (p p' : ℕ)
    → (b ≡ true → o ≡ none)
    → p' ≡ p + one_if b
    → Holds o p
    → Holds (if b then some pending else o) p'
new_at true o p p' absent e held =
    let gone : p ≡ 0 = cast-Holds o none p p (sym (absent refl)) refl held in omega arith
new_at false o p p' absent e held = cast-Holds o o p p' refl (omega arith) held

-- a pending request whose caller gives up
cancel_at :
    (b : Bool) (o : Option Future) (p : ℕ)
    → (b ≡ true → o ≡ some pending)
    → Holds o p
    → Holds (if b then some cancelled else o) p
cancel_at true o p h held =
    let once : p ≡ 1 = cast-Holds o (some pending) p p (sym (h refl)) refl held in omega arith
cancel_at false o p h held = held

eqb_sym : (m n : ℕ) → one_if (eqb n m) ≡ one_if (eqb m n)
eqb_sym m n = ground arith

eqb_sound : (m n : ℕ) → eqb m n ≡ true → m ≡ n
eqb_sound m n h = ground arith

and_if :
    (b c : Bool) (x y : Option Future) → c ≡ true → (if b && c then x else y) ≡ (if b then x else y)
and_if true c x y h = rw h refl
and_if false c x y h = refl

accepted_if :
    (closed : Bool) (e : Exn) (a q : Queue) → (if closed then err e else ok a) ≡ ok q → a ≡ q
accepted_if true e a q h = absurd (err-ok h)
accepted_if false e a q h = ok-injective h

accept-IsHeld : (host : String) (q : Queue) → IsHeld q → IsHeld (accept host q)
unfolding accept places tally
accept-IsHeld host q held n =
    cast-Holds (if eqb n (length q.futures) then some pending else status q.futures n)
      (status (q.futures ++ pending ∷ []) n) (places (accept host q) n) (places (accept host q) n)
      (status-append n pending q.futures) refl
      (new_at (eqb n (length q.futures)) (status q.futures n) (places q n)
        (places (accept host q) n) (λ h. status-none n q.futures (ground arith))
        (omega (
          arith,
          tally-append (of_entry n) q.requests (
              some (record { id = length q.futures; host = host; enqueued_at = q.now; attempt = 0 })
              ∷ []),
          eqb_sym n (length q.futures),
        ))
        (held n))

cancel-IsHeld :
    (q : Queue) (n : ℕ)
    → status q.futures n ≡ some pending
    → IsHeld q
    → IsHeld (record q { futures = set_future n cancelled q.futures })
unfolding places
cancel-IsHeld q n h held m =
    cast-Holds (if eqb n m then some cancelled else status q.futures m)
      (status (set_future n cancelled q.futures) m) (places q m) (places q m)
      (status-set_future n m cancelled q.futures
        ∙ and_if (eqb n m) (is_some (status q.futures n)) (some cancelled) (status q.futures m)
            (ap (λ o. is_some o) h))
      refl
      (cancel_at (eqb n m) (status q.futures m) (places q m)
        (λ same. ap (status q.futures) (sym (eqb_sound n m same)) ∙ h) (held m))

Step-IsHeld :
    (parse_float : String → Option Delay) (q q' : Queue)
    → Step parse_float q q'
    → IsHeld q
    → IsHeld q'
unfolding enqueue places
Step-IsHeld parse_float _ _ (enqueues host q q' h) held =
    subst IsHeld
      (accepted_if q.closed (runtime_error "Cannot enqueue after queue is closed") (accept host q)
        q' h)
      (accept-IsHeld host q held)
Step-IsHeld parse_float _ _ (starts q) held = start-IsHeld q held
Step-IsHeld parse_float _ _ (closes q) held = close-IsHeld q held
Step-IsHeld parse_float _ _ (ends q before after rest h k) held =
    end-IsHeld q before after rest h k held
Step-IsHeld parse_float _ _ (takes q before after r rest h k) held =
    take-IsHeld q before after r rest h k held
Step-IsHeld parse_float _ _ (wakes q before after r until h late) held =
    wake-IsHeld q before after r until h held
Step-IsHeld parse_float _ _ (acquires q before after r h free) held =
    acquire-IsHeld q before after r h held
Step-IsHeld parse_float _ _ (raises q before after r e h) held =
    raise-IsHeld q before after r e h held
Step-IsHeld parse_float _ _ (escapes q before after r h) held =
    escape-IsHeld q before after r h held
Step-IsHeld parse_float _ _ (finishes q before after r outcome drawn h) held =
    finish-IsHeld parse_float q before after r outcome drawn h held
Step-IsHeld parse_float _ _ (requeues q before after r until h late) held =
    requeue-IsHeld q before after r until h held
Step-IsHeld parse_float _ _ (strands q before after r h) held =
    strand-IsHeld q before after r h held
Step-IsHeld parse_float _ _ (cancels q n h) held = cancel-IsHeld q n h held
Step-IsHeld parse_float _ _ (ticks q n) held = λ m. held m

pub Step-IsLimited :
    (parse_float : String → Option Delay) (q q' : Queue)
    → Step parse_float q q'
    → IsLimited q
    → IsLimited q'
unfolding enqueue accept running_in strand
Step-IsLimited parse_float _ _ (enqueues host q q' h) limited =
    subst IsLimited
      (accepted_if q.closed (runtime_error "Cannot enqueue after queue is closed") (accept host q)
        q' h)
      (λ other. limited other)
Step-IsLimited parse_float _ _ (starts q) limited = start-IsLimited q limited
Step-IsLimited parse_float _ _ (closes q) limited = close-IsLimited q limited
Step-IsLimited parse_float _ _ (ends q before after rest h k) limited =
    quiet-IsLimited q (record q { requests = rest; workers = before ++ ended ∷ after }) before after
      idle ended h refl refl refl (λ host. refl) limited
Step-IsLimited parse_float _ _ (takes q before after r rest h k) limited =
    take-IsLimited q before after r rest h limited
Step-IsLimited parse_float _ _ (wakes q before after r until h late) limited =
    quiet-IsLimited q (record q { workers = before ++ waiting r ∷ after }) before after
      (sleeping r until) (waiting r) h refl refl refl (λ host. refl) limited
Step-IsLimited parse_float _ _ (acquires q before after r h free) limited =
    acquire-IsLimited q before after r h free limited
Step-IsLimited parse_float _ _ (raises q before after r e h) limited =
    raise-IsLimited q before after r e h limited
Step-IsLimited parse_float _ _ (escapes q before after r h) limited =
    escape-IsLimited q before after r h limited
Step-IsLimited parse_float _ _ (finishes q before after r outcome drawn h) limited =
    finish-IsLimited parse_float q before after r outcome drawn h limited
Step-IsLimited parse_float _ _ (requeues q before after r until h late) limited =
    requeue-IsLimited q before after r limited
Step-IsLimited parse_float _ _ (strands q before after r h) limited = λ host. limited host
Step-IsLimited parse_float _ _ (cancels q n h) limited = λ host. limited host
Step-IsLimited parse_float _ _ (ticks q n) limited = λ host. limited host

new-IsConserved : (limits : Limits) (q : Queue) → init limits ≡ ok q → IsHeld q × IsLimited q
unfolding init places running_in tally status Dict.get
new-IsConserved limits q h =
    subst (λ (q : Queue). IsHeld q × IsLimited q) made ((λ n. omega arith), λ host. omega arith)
  where
    made : fresh limits ≡ q
    made = ok-injective (
        then_ok
          (raise_if (leb limits.base_backoff 0)
            (value_error "base_backoff_seconds must be positive"))
          _ q
          (then_ok
            (raise_if (leb limits.per_host_limit 0) (value_error "per_host_limit must be positive"))
            _ q
            (then_ok
              (raise_if (leb limits.max_workers 0) (value_error "max_workers must be positive")) _ q
              h)))

reached :
    (parse_float : String → Option Delay) (q : Queue)
    → Reachable parse_float q
    → IsHeld q × IsLimited q
reached parse_float _ (new limits q h) = new-IsConserved limits q h
reached parse_float _ (next q0 q before step) =
    let (held, limited) = reached parse_float q0 before in
    (Step-IsHeld parse_float q0 q step held, Step-IsLimited parse_float q0 q step limited)

-- In every state that a RateLimitedRequestQueue reaches from its constructor, in whatever order
-- its workers, its delayed requeues, its callers and its close take their steps, exceptions that
-- end a worker or a delayed requeue included: a request whose future is pending is in exactly one
-- of the queue, a worker's hands, a delayed requeue, and what was lost with a task that an
-- exception ended, one whose caller gave up is in at most one, one whose future is done is in
-- none; and no host has more requests in flight than its limit.
pub Reachable-IsConserved :
    (parse_float : String → Option Delay) (q : Queue) → Reachable parse_float q → IsConserved q
Reachable-IsConserved parse_float q r =
    let (held, limited) = reached parse_float q r in
    record { held = held; limited = λ host. omega (arith, limited host) }
