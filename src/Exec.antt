-- ===== src/Exec.antt =====
-- Asynchronous methods that may throw. What was written to a table before a throw stays written
-- (the code opens no transaction here), so the state comes back beside the exception too.
use nest_rest_backend_templa.Prelude.{Bool, true, false, Option, none, some, String, if◌then◌else◌}

-- The exception classes of @nestjs/common that the handlers throw, by their HTTP status.
pub data HttpStatus : Type 0 where
  bad_request unauthorized forbidden not_found conflict gone : HttpStatus
  unprocessable_entity service_unavailable internal_server_error : HttpStatus

-- A throw: an `HttpException` with its message and the extra fields of its response body, or
-- another `Error`.
pub data Thrown : Type 0 where
  http : HttpStatus → (message : String) → Thrown
  locked : (message lockedUntil : String) → Thrown
  captcha : (message : String) (requiresCaptcha : Bool) → Thrown
  error : (message : String) → Thrown

pub data Result {ℓ} (A : Type ℓ) : Type ℓ where
  ok : A → Result A
  throw : Thrown → Result A

abbrev pub Exec {ℓ} : Type ℓ → Type ℓ → Type ℓ
Exec S A = S → Result A × S

module _ {ℓ} {S A : Type ℓ} where
  -- A result of code that reads and writes no state.
  abbrev pub lift : Result A → Exec S A
  lift r s = (r, s)

  abbrev pub gets : (S → A) → Exec S A
  gets f s = (ok (f s), s)

  abbrev pub raise : Thrown → Exec S A
  raise thrown = lift (throw thrown)

  abbrev pub pure : A → Exec S A
  pure value = lift (ok value)

abbrev pub modify : {S : Type 0} → (S → S) → Exec S (Unit {0})
modify f s = (ok tt, f s)

module _ {ℓ} {S A B : Type ℓ} where
  abbrev pub continue : Result A → (A → Exec S B) → Exec S B
  continue (ok a) f s = f a s
  continue (throw t) f s = (throw t, s)

  infixl 5 ◌>>=◌ ◌>>◌
  abbrev pub ◌>>=◌ : Exec S A → (A → Exec S B) → Exec S B
  ◌>>=◌ m f s = let (r, s') = m s in continue r f s'

  abbrev pub ◌>>◌ : Exec S A → Exec S B → Exec S B
  m >> n = m >>= λ _. n

-- `try { m } catch { }`: what was thrown is dropped, what was written stays.
abbrev pub settled : Result (Unit {0}) → Result (Unit {0})
settled r = ok tt

abbrev pub try_ignore : {S : Type 0} → Exec S (Unit {0}) → Exec S (Unit {0})
try_ignore m s = let (r, s') = m s in (settled r, s')

-- `if (test) throw t;`
abbrev pub throw_if : {S : Type 0} → Bool → Thrown → Exec S (Unit {0})
throw_if b t s = if b then (throw t, s) else (ok tt, s)

-- `if (!found) throw t;`, and the value that was found
abbrev pub or_throw : {S A : Type 0} → Option A → Thrown → Exec S A
or_throw none t = raise t
or_throw (some a) t = pure a

abbrev pub is_ok {ℓ} : {A : Type ℓ} → Result A → Bool
is_ok (ok a) = true
is_ok (throw t) = false

-- `error.message`
abbrev pub message_of : Thrown → String
message_of (http status message) = message
message_of (locked message until) = message
message_of (captcha message needed) = message
message_of (error message) = message
