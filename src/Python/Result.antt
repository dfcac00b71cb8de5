-- ===== src/Python/Result.antt =====
-- Exceptions, and pure functions that may raise one.
use enterprise_multi_agent_s.Prelude.{
  ℕ, String, Bool, true, false, Option, ◌≡◌, refl, ◌⊎◌, inl, inr,
}

-- `WebhookError` carries a status code, a code and a message, and
-- `DeltaTokenExpired` the address to go on from. `external_error` is an exception of
-- a library, and `service_error` one of a service, with its class and its status.
pub data Exn : Type 0 where
  webhook_error : ℕ → String → String → Exn
  value_error runtime_error type_error key_error attribute_error external_error : String → Exn
  service_error : String → ℕ → Exn
  delta_token_expired : Option String → Exn

pub data Result {ℓ} (A : Type ℓ) : Type ℓ where
  ok : A → Result A
  err : Exn → Result A

infixl 10 ◌>>=◌ ◌>>◌
abbrev pub ◌>>=◌ {ℓ κ} : {A : Type ℓ} {B : Type κ} → Result A → (A → Result B) → Result B
ok a >>= f = f a
err e >>= f = err e

abbrev pub ◌>>◌ {ℓ κ} : {A : Type ℓ} {B : Type κ} → Result A → Result B → Result B
m >> k = m >>= λ _. k

-- if bad: raise e
abbrev pub raise_if : Bool → Exn → Result (Unit {0})
raise_if true e = err e
raise_if false e = ok tt

abbrev pub is_ok {ℓ} : {A : Type ℓ} → Result A → Bool
is_ok (ok a) = true
is_ok (err e) = false

pub Result-cases {ℓ} :
    {A : Type ℓ} (r : Result A) → ((a : A) × (r ≡ ok a)) ⊎ ((e : Exn) × (r ≡ err e))
Result-cases (ok a) = inl (a, refl)
Result-cases (err e) = inr (e, refl)

pub ok-injective {ℓ} : {A : Type ℓ} {a b : A} → ok a ≡ ok b → a ≡ b
ok-injective h = cc

pub err-ok {ℓ} : {A : Type ℓ} {a : A} {e : Exn} → ¬ (◌≡◌ {A = Result A} (err e) (ok a))
err-ok h = cc

-- A sequence that returned has a second part that returned the same.
pub then_ok {ℓ} :
    {A : Type ℓ} (m : Result (Unit {0})) (k : Result A) (a : A) → (m >> k) ≡ ok a → k ≡ ok a
then_ok (ok x) k a h = h
then_ok (err e) k a h = absurd (err-ok h)
