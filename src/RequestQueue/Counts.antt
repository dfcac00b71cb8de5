-- ===== src/RequestQueue/Counts.antt =====
-- Where the requests of a RateLimitedRequestQueue are, as sums over its lists, and what the small
-- operations do to the futures.

use enterprise_multi_agent_s.Prelude.{
  ℕ, zero, suc, ◌+◌, ◌≤◌, String, Bool, true, false, ◌&&◌, Option, none, some, List, [], ◌∷◌, ◌++◌,
  ◌≡◌, refl, ◌∙◌, eqb, if◌then◌else◌, is_some, length, arith,
}
use enterprise_multi_agent_s.RequestQueue.{
  Delay, Future, QueuedRequest, Worker, idle, ended, sleeping, waiting, running, Queue, status,
  set_future, is_pending, try_set, replicate,
}
use enterprise_multi_agent_s.Prelude.{◌==◌}

unfoldable pub tally {ℓ} : {A : Type ℓ} → (A → ℕ) → List A → ℕ
tally f [] = 0
tally f (x ∷ xs) = f x + tally f xs

module _ {ℓ} {A : Type ℓ} (f : A → ℕ) where
  pub tally-append : (xs ys : List A) → tally f (xs ++ ys) ≡ tally f xs + tally f ys
  unfolding tally
  tally-append [] ys = omega arith
  tally-append (x ∷ xs) ys = omega (arith, tally-append xs ys)

  pub tally-middle :
      (xs ys : List A) (x : A) → tally f (xs ++ x ∷ ys) ≡ f x + (tally f xs + tally f ys)
  unfolding tally
  tally-middle xs ys x = omega (arith, tally-append xs (x ∷ ys))

  pub tally-replicate : (n : ℕ) (x : A) → f x ≡ 0 → tally f (replicate n x) ≡ 0
  unfolding tally replicate
  tally-replicate zero x h = refl
  tally-replicate (suc n) x h = omega (arith, tally-replicate n x h)

abbrev pub one_if : Bool → ℕ
one_if true = 1
one_if false = 0

-- The request `n` in a place.
abbrev pub of_request : ℕ → QueuedRequest → ℕ
of_request n r = one_if (eqb r.id n)

abbrev pub of_entry : ℕ → Option QueuedRequest → ℕ
of_entry n none = 0
of_entry n (some r) = of_request n r

abbrev pub of_worker : ℕ → Worker → ℕ
of_worker n idle = 0
of_worker n ended = 0
of_worker n (sleeping r until) = of_request n r
of_worker n (waiting r) = of_request n r
of_worker n (running r) = of_request n r

abbrev pub of_delayed : ℕ → QueuedRequest × Delay → ℕ
of_delayed n (r, until) = of_request n r

unfoldable pub places : Queue → ℕ → ℕ
unfolding tally
places q n =
    (tally (of_entry n) q.requests
      + (tally (of_worker n) q.workers + tally (of_delayed n) q.delayed))
    + tally (of_request n) q.lost

-- The workers in a request to a host.
abbrev pub in_host : String → Worker → ℕ
in_host host (running r) = one_if (r.host == host)
in_host host _ = 0

unfoldable pub running_in : Queue → String → ℕ
unfolding tally
running_in q host = tally (in_host host) q.workers

pub status-set_future :
    (n m : ℕ) (f : Future) (fs : List Future)
    → status (set_future n f fs) m
      ≡ (if eqb n m && is_some (status fs n) then some f else status fs m)
unfolding status set_future
status-set_future n m f [] = ground arith
status-set_future zero zero f (g ∷ fs) = refl
status-set_future zero (suc m) f (g ∷ fs) = ground arith
status-set_future (suc n) zero f (g ∷ fs) = ground arith
status-set_future (suc n) (suc m) f (g ∷ fs) = ground (arith, status-set_future n m f fs)

pub status-append :
    (m : ℕ) (f : Future) (fs : List Future)
    → status (fs ++ f ∷ []) m ≡ (if eqb m (length fs) then some f else status fs m)
unfolding status
status-append zero f [] = refl
status-append (suc m) f [] = ground arith
status-append zero f (g ∷ fs) = ground arith
status-append (suc m) f (g ∷ fs) = ground (arith, status-append m f fs)

pub status-none : (m : ℕ) (fs : List Future) → length fs ≤ m → status fs m ≡ none
unfolding status
status-none m [] h = refl
status-none zero (f ∷ fs) h = ground arith
status-none (suc m) (f ∷ fs) h = status-none m fs (omega arith)

try_set_of :
    (b s : Bool) (n m : ℕ) (f : Future) (fs : List Future)
    → (b ≡ true → s ≡ true)
    → status (set_future n f fs) m ≡ (if eqb n m && s then some f else status fs m)
    → status (if b then set_future n f fs else fs) m
      ≡ (if eqb n m && b then some f else status fs m)
try_set_of true s n m f fs present set = set ∙ rw (present refl) refl
try_set_of false s n m f fs present set = ground arith

pending_is_some : (o : Option Future) → is_pending o ≡ true → is_some o ≡ true
pending_is_some none h = cc
pending_is_some (some f) h = refl

pub status-try_set :
    (n m : ℕ) (f : Future) (fs : List Future)
    → status (try_set n f fs) m
      ≡ (if eqb n m && is_pending (status fs n) then some f else status fs m)
unfolding try_set
status-try_set n m f fs =
    try_set_of (is_pending (status fs n)) (is_some (status fs n)) n m f fs
      (pending_is_some (status fs n)) (status-set_future n m f fs)
