-- ===== src/RequestQueue/Conserved.antt =====
-- What every reachable state of a RateLimitedRequestQueue keeps.
use enterprise_multi_agent_s.Prelude.{
  ℕ, suc, ◌+◌, ◌≤◌, Bool, true, false, Option, none, some, List, ◌≡◌, refl, ap, subst, ◌∙◌, eqb,
  if◌then◌else◌, arith,
}
use enterprise_multi_agent_s.Python.Dict.{string_eq}
use enterprise_multi_agent_s.RequestQueue.{
  Future, pending, cancelled, result, exception, QueuedRequest, Queue, status, is_cancelled,
  is_pending, try_set,
}
use enterprise_multi_agent_s.RequestQueue.Counts.{of_request, places, status-try_set, one_if}

-- In how many places a request may be whose future is this one.
abbrev pub Holds : Option Future → ℕ → Type 0
Holds none p = p ≡ 0
Holds (some pending) p = p ≡ 1
Holds (some cancelled) p = p ≤ 1
Holds (some (result outcome)) p = p ≡ 0
Holds (some (exception e)) p = p ≡ 0

abbrev pub IsHeld : Queue → Type 0
IsHeld q = (n : ℕ) → Holds (status q.futures n) (places q n)

pub cast-Holds : (o o' : Option Future) (p p' : ℕ) → o' ≡ o → p' ≡ p → Holds o p → Holds o' p'
cast-Holds o o' p p' eo ep held = rw (eo, ep) held

-- nothing moved
pub same-IsHeld :
    (q q' : Queue)
    → q'.futures ≡ q.futures
    → ((n : ℕ) → places q' n ≡ places q n)
    → IsHeld q
    → IsHeld q'
same-IsHeld q q' futures moved held n =
    cast-Holds (status q.futures n) (status q'.futures n) (places q n) (places q' n)
      (ap (λ fs. status fs n) futures) (moved n) (held n)

-- a request of a cancelled future left
dropped :
    (o : Option Future) (p p' : ℕ) → is_cancelled o ≡ true → suc p' ≡ p → Holds o p → Holds o p'
dropped none p p' h e held = cc
dropped (some pending) p p' h e held = cc
dropped (some cancelled) p p' h e held = omega arith
dropped (some (result outcome)) p p' h e held = cc
dropped (some (exception x)) p p' h e held = cc

-- a request left whose future is then done
settled :
    (f : Future) (o : Option Future) (p p' : ℕ)
    → Holds (some f) 0
    → suc p' ≡ p
    → Holds o p
    → Holds (if is_pending o then some f else o) p'
settled f none p p' done e held = omega arith
settled f (some pending) p p' done e held =
    cast-Holds (some f) (some f) 0 p' refl (omega arith) done
settled f (some cancelled) p p' done e held = omega arith
settled f (some (result outcome)) p p' done e held = absurd (omega arith)
settled f (some (exception x)) p p' done e held = absurd (omega arith)

eqb_sound : (m n : ℕ) → eqb m n ≡ true → m ≡ n
eqb_sound m n h = ground arith

drop_at :
    (b : Bool) (fs : List Future) (m n p p' : ℕ)
    → eqb m n ≡ b
    → is_cancelled (status fs m) ≡ true
    → p' + one_if (eqb m n) ≡ p
    → Holds (status fs n) p
    → Holds (status fs n) p'
drop_at true fs m n p p' same gone moved held =
    dropped (status fs n) p p'
      (subst (λ k. is_cancelled (status fs k) ≡ true) (eqb_sound m n same) gone) (ground arith) held
drop_at false fs m n p p' other gone moved held =
    cast-Holds (status fs n) (status fs n) p p' refl (ground arith) held

pub drop-IsHeld :
    (q q' : Queue) (r : QueuedRequest)
    → q'.futures ≡ q.futures
    → is_cancelled (status q.futures r.id) ≡ true
    → ((n : ℕ) → places q' n + of_request n r ≡ places q n)
    → IsHeld q
    → IsHeld q'
drop-IsHeld q q' r futures gone moved held n =
    cast-Holds (status q.futures n) (status q'.futures n) (places q' n) (places q' n)
      (ap (λ fs. status fs n) futures) refl
      (drop_at (eqb r.id n) q.futures r.id n (places q n) (places q' n) refl gone (moved n)
        (held n))

settle_at :
    (b : Bool) (f : Future) (fs : List Future) (m n p p' : ℕ)
    → eqb m n ≡ b
    → Holds (some f) 0
    → p' + one_if (eqb m n) ≡ p
    → Holds (status fs n) p
    → Holds (status (try_set m f fs) n) p'
settle_at true f fs m n p p' same done moved held =
    cast-Holds (if is_pending (status fs n) then some f else status fs n)
      (status (try_set m f fs) n) p' p'
      (status-try_set m n f fs ∙ rw (same, eqb_sound m n same) refl) refl
      (settled f (status fs n) p p' done (ground arith) held)
settle_at false f fs m n p p' other done moved held =
    cast-Holds (status fs n) (status (try_set m f fs) n) p p'
      (status-try_set m n f fs ∙ rw other refl) (ground arith) held

pub settle-IsHeld :
    (q q' : Queue) (r : QueuedRequest) (f : Future)
    → Holds (some f) 0
    → q'.futures ≡ try_set r.id f q.futures
    → ((n : ℕ) → places q' n + of_request n r ≡ places q n)
    → IsHeld q
    → IsHeld q'
settle-IsHeld q q' r f done futures moved held n =
    cast-Holds (status (try_set r.id f q.futures) n) (status q'.futures n) (places q' n)
      (places q' n) (ap (λ fs. status fs n) futures) refl
      (settle_at (eqb r.id n) f q.futures r.id n (places q n) (places q' n) refl done (moved n)
        (held n))
