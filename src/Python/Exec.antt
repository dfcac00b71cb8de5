-- ===== src/Python/Exec.antt =====
-- Methods that change an object and may raise. What was written before a raise stays written, so the
-- state comes back beside the exception too.
use enterprise_multi_agent_s.Prelude.{◌≡◌, refl, ap, Bool, true, false, if◌then◌else◌}
use enterprise_multi_agent_s.Python.Result.{Exn, Result, ok, err}

abbrev pub Exec {ℓ κ} : Type ℓ → Type κ → Type (ℓ ⊔ κ)
Exec S A = S → Result A × S

module _ {ℓ κ} {S : Type ℓ} {A : Type κ} where
  abbrev pub pure : A → Exec S A
  pure a s = (ok a, s)

  abbrev pub raise : Exn → Exec S A
  raise e s = (err e, s)

  abbrev pub lift : Result A → Exec S A
  lift r s = (r, s)

module _ {ℓ κ ν} {S : Type ℓ} {A : Type κ} {B : Type ν} where
  abbrev pub continue : Result A → (A → Exec S B) → Exec S B
  continue (ok a) f s = f a s
  continue (err e) f s = (err e, s)

  infixl 10 ◌>>=◌ ◌>>◌
  abbrev pub ◌>>=◌ : Exec S A → (A → Exec S B) → Exec S B
  ◌>>=◌ m f s = continue (m s).0 f (m s).1

  abbrev pub ◌>>◌ : Exec S A → Exec S B → Exec S B
  m >> n = m >>= λ _. n

module _ {ℓ κ} {S : Type ℓ} {A : Type κ} where
  -- try: m except Exception as e: h e
  abbrev pub handle : Result A → (Exn → Exec S A) → Exec S A
  handle (ok a) h s = (ok a, s)
  handle (err e) h s = h e s

  abbrev pub catch : Exec S A → (Exn → Exec S A) → Exec S A
  catch m h s = handle (m s).0 h (m s).1

module _ {ℓ κ ν μ} {S : Type ℓ} {A : Type κ} {B : Type ν} where
  after_continue :
      (P : S → Type μ) (r : Result A) (f : A → Exec S B) (s : S)
      → ((e : Exn) → r ≡ err e → P s)
      → ((a : A) → r ≡ ok a → P (f a s).1)
      → P (continue r f s).1
  after_continue P (ok a) f s failed done = done a refl
  after_continue P (err e) f s failed done = failed e refl

  -- The state behind a bind, whether its first part raises or returns.
  pub after_bind :
      (P : S → Type μ) (m : Exec S A) (f : A → Exec S B) (s : S)
      → ((e : Exn) → (m s).0 ≡ err e → P (m s).1)
      → ((a : A) → (m s).0 ≡ ok a → P (f a (m s).1).1)
      → P ((m >>= f) s).1
  after_bind P m f s = after_continue P (m s).0 f (m s).1

module _ {ℓ κ ν} {S : Type ℓ} {A : Type κ} {B : Type ν} where
  continue-ok :
      (r : Result A) (f : A → Exec S B) (s : S) (b : B)
      → (continue r f s).0 ≡ ok b
      → (a : A) × (r ≡ ok a) × (continue r f s ≡ f a s)
  continue-ok (ok a) f s b h = (a, refl, refl)
  continue-ok (err e) f s b h = cc

  -- A bind that returns has a first part that returns, and goes on from there.
  pub bind-ok :
      (m : Exec S A) (f : A → Exec S B) (s : S) (b : B)
      → ((m >>= f) s).0 ≡ ok b
      → (a : A) × ((m s).0 ≡ ok a) × ((m >>= f) s ≡ f a (m s).1)
  bind-ok m f s b h = continue-ok (m s).0 f (m s).1 b h

  pub bind_of_ok :
      (m : Exec S A) (f : A → Exec S B) (s : S) (a : A) → (m s).0 ≡ ok a → (m >>= f) s ≡ f a (m s).1
  bind_of_ok m f s a h = ap (λ (r : Result A). continue r f (m s).1) h

  pub bind_of_err :
      (m : Exec S A) (f : A → Exec S B) (s : S) (e : Exn)
      → (m s).0 ≡ err e
      → (m >>= f) s ≡ (err e, (m s).1)
  bind_of_err m f s e h = ap (λ (r : Result A). continue r f (m s).1) h

module _ {ℓ κ μ} {S : Type ℓ} {A : Type κ} where
  after_handle :
      (P : S → Type μ) (r : Result A) (h : Exn → Exec S A) (s : S)
      → P s
      → ((e : Exn) → r ≡ err e → P (h e s).1)
      → P (handle r h s).1
  after_handle P (ok a) h s done caught = done
  after_handle P (err e) h s done caught = caught e refl

  -- The state behind a try statement.
  pub after_catch :
      (P : S → Type μ) (m : Exec S A) (h : Exn → Exec S A) (s : S)
      → P (m s).1
      → ((e : Exn) → (m s).0 ≡ err e → P (h e (m s).1).1)
      → P (catch m h s).1
  after_catch P m h s = after_handle P (m s).0 h (m s).1

  pub after_if :
      (P : S → Type μ) (b : Bool) (m n : Exec S A) (s : S)
      → (b ≡ true → P (m s).1)
      → (b ≡ false → P (n s).1)
      → P ((if b then m else n) s).1
  after_if P true m n s yes_case no_case = yes_case refl
  after_if P false m n s yes_case no_case = no_case refl

module _ {ℓ κ ν μ} {S : Type ℓ} {A : Type κ} {B : Type ν} where
  after_result :
      (P : Result B × S → Type μ) (r : Result A) (f : A → Exec S B) (s : S)
      → ((e : Exn) → P (err e, s))
      → ((a : A) → r ≡ ok a → P (f a s))
      → P (continue r f s)
  after_result P (ok a) f s failed done = done a refl
  after_result P (err e) f s failed done = failed e

  -- The outcome of a bind, for what every raise has.
  pub outcome_of_bind :
      (P : Result B × S → Type μ) (m : Exec S A) (f : A → Exec S B) (s : S)
      → ((e : Exn) (s : S) → P (err e, s))
      → ((a : A) → (m s).0 ≡ ok a → P (f a (m s).1))
      → P ((m >>= f) s)
  outcome_of_bind P m f s failed = after_result P (m s).0 f (m s).1 λ e. failed e (m s).1
