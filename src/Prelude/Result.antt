-- ===== src/Prelude/Result.antt =====
-- Results of fallible code, and actions on a state that may fail.
use Prim.Native.String.{String}
use mathlib.Core.Path.{◌≡◌, refl, ap}
use mathlib.Core.Logic.{◌⊎◌, inl, inr}
use mathlib.Core.Option.{Option, none}
use mathlib.Core.Bool.{Bool, true, false}

-- The exceptions of @nestjs/common that the services throw, by their HTTP status.
pub data HttpStatus : Type 0 where
  bad_request_400 unauthorized_401 forbidden_403 not_found_404 conflict_409 : HttpStatus
  internal_500 unavailable_503 : HttpStatus

-- A thrown value: an HTTP exception with its message and machine-readable code, a violated unique
-- constraint of the database with its target, or another `Error`.
pub data Failure : Type 0 where
  http : HttpStatus → String → Option String → Failure
  unique_violation : String → Failure
  error : String → Failure
  -- NonRetryableWebhookProcessingError of the webhook worker
  non_retryable : String → Failure
  -- AuthEmailDeliveryError of the auth service
  delivery_error : String → Failure

abbrev pub bad_request : String → Failure
bad_request m = http bad_request_400 m none

abbrev pub unauthorized : String → Failure
unauthorized m = http unauthorized_401 m none

abbrev pub forbidden : String → Failure
forbidden m = http forbidden_403 m none

abbrev pub not_found : String → Failure
not_found m = http not_found_404 m none

abbrev pub conflict : String → Failure
conflict m = http conflict_409 m none

pub data Result {ℓ} (A : Type ℓ) : Type ℓ where
  ok : A → Result A
  err : Failure → Result A

pub Result-cases {ℓ} :
    {A : Type ℓ} (r : Result A) → ((a : A) × (r ≡ ok a)) ⊎ ((e : Failure) × (r ≡ err e))
Result-cases (ok a) = inl (a, refl)
Result-cases (err e) = inr (e, refl)

abbrev pub is_ok {ℓ} : {A : Type ℓ} → Result A → Bool
is_ok (ok a) = true
is_ok (err e) = false

abbrev ok_or {ℓ} : {A : Type ℓ} → A → Result A → A
ok_or a (ok b) = b
ok_or a (err e) = a

pub ok-injective {ℓ} : {A : Type ℓ} {a b : A} → Result.ok a ≡ ok b → a ≡ b
ok-injective {a = a} h = ap (ok_or a) h

-- An `async` method: it returns or throws, and what it wrote stays written.
abbrev pub Exec {ℓ} : Type ℓ → Type ℓ → Type ℓ
Exec S A = S → Result A × S

module _ {ℓ} {S A : Type ℓ} where
  abbrev pub pure : A → Exec S A
  pure a s = (ok a, s)

  abbrev pub throw : Failure → Exec S A
  throw e s = (err e, s)

  abbrev pub gets : (S → A) → Exec S A
  gets f s = (ok (f s), s)

  abbrev pub handle : (Failure → Exec S A) → Result A × S → Result A × S
  handle h (ok a, s) = (ok a, s)
  handle h (err e, s) = h e s

  -- `try { m } catch (e) { h e }`
  abbrev pub catching : Exec S A → (Failure → Exec S A) → Exec S A
  catching m h s = handle h (m s)

module _ {ℓ} {S A B : Type ℓ} where
  abbrev pub continue : (A → Exec S B) → Result A × S → Result B × S
  continue f (ok a, s) = f a s
  continue f (err e, s) = (err e, s)

  infixl 5 ◌>>=◌ ◌>>◌
  abbrev pub ◌>>=◌ : Exec S A → (A → Exec S B) → Exec S B
  ◌>>=◌ m f s = continue f (m s)

  abbrev pub ◌>>◌ : Exec S A → Exec S B → Exec S B
  m >> n = m >>= λ _. n

  -- What succeeds after an action, succeeds after the action's success.
  pub continue-ok :
      (k : A → Exec S B) (r : Result A × S) (b : B) (v : S)
      → continue k r ≡ (ok b, v)
      → (a : A) × (u : S) × (r ≡ (ok a, u)) × (k a u ≡ (ok b, v))
  continue-ok k (ok a, u) b v h = (a, u, refl, h)
  continue-ok k (err e, u) b v h = absurd cc
