-- ===== src/Service.antt =====
-- src/main.rs: the service and its commands. The environment, the files, the clock and the randomness
-- are a parameter, the record `System`; the router and the runtime are not modelled.
pub mod Urls
pub mod Keys
pub mod Config
pub mod Endpoint
pub mod Commands
pub mod Starting
pub mod Answering
pub mod Posting
mod Tests
use onym_recovery_trustee.Prelude.{Bool, Option, Text, arith, false, none, refl, some, true, ◌≡◌}
use onym_recovery_trustee.Code.{Code, Result, err, ok}

-- The messages that `main` prints before it fails.
pub data Failure : Type 0 where
  usage : Failure
  -- A variable that is required.
  required : Text → Failure
  -- A variable whose value is refused.
  refused_value : Text → Failure
  -- A path whose file cannot be read, created or opened.
  cannot_open : Text → Failure
  -- A path that group or others can reach.
  not_private : Text → Failure
  key_file_lines key_file_enrollment_key no_randomness bad_lifetime : Failure
  -- A database that serves another trustee.
  not_bound : Text → Failure
  -- An address that cannot be listened on.
  cannot_bind : Failure
  -- An error code of the store or the manifest.
  refused : Code → Failure

-- `Result<A, String>`
pub data Outcome {ℓ} (A : Type ℓ) : Type ℓ where
  done : A → Outcome A
  failed : Failure → Outcome A

-- `?`
abbrev pub ◌>>=◌ {ℓ κ} :
    {A : Type ℓ} {B : Type κ} (m : Outcome A) (next : A → Outcome B) → Outcome B
◌>>=◌ (failed failure) next = failed failure
◌>>=◌ (done value) next = next value

infixl 5 ◌>>=◌
-- `?` on a step that gives nothing on.
abbrev pub ◌>>◌ {ℓ κ} : {A : Type ℓ} {B : Type κ} (m : Outcome A) (next : Outcome B) → Outcome B
◌>>◌ m next = m >>= (λ value. next)

infixl 5 ◌>>◌
-- `ok_or`
abbrev pub or_fail {ℓ} : {A : Type ℓ} → Option A → Failure → Outcome A
or_fail none failure = failed failure
or_fail (some a) failure = done a

-- `map_err(|code| code.to_string())`
abbrev pub or_refused {ℓ} : {A : Type ℓ} → Result A → Outcome A
or_refused (ok a) = done a
or_refused (err code) = failed (refused code)

-- `if !test { return Err(failure) }`
abbrev pub demand : Bool → Failure → Outcome (Unit {0})
demand true failure = done tt
demand false failure = failed failure

-- Inversion of a chain that is done.
pub step-done {ℓ κ} :
    {A : Type ℓ} {B : Type κ} {last : B} (step : Outcome A) (next : A → Outcome B)
    → step >>= next ≡ done last
    → (value : A) × (step ≡ done value) × (next value ≡ done last)
step-done (failed failure) next h = cc
step-done (done value) next h = (value, refl, h)

-- `or_fail` as a step of a chain.
pub or_fail-step {ℓ κ} :
    {A : Type ℓ} {B : Type κ} {last : B} (o : Option A) (failure : Failure) (next : A → Outcome B)
    → or_fail o failure >>= next ≡ done last
    → (value : A) × (o ≡ some value) × (next value ≡ done last)
or_fail-step none failure next h = cc
or_fail-step (some a) failure next h = (a, refl, h)

pub or_refused-done {ℓ} : {A : Type ℓ} (r : Result A) {a : A} → or_refused r ≡ done a → r ≡ ok a
or_refused-done (ok a) h = ground arith
or_refused-done (err code) h = cc

pub demand-done {ℓ} :
    {B : Type ℓ} (test : Bool) (failure : Failure) (k : Outcome B) {b : B}
    → (demand test failure >> k) ≡ done b
    → (test ≡ true) × (k ≡ done b)
demand-done true failure k h = (refl, h)
demand-done false failure k h = cc

pub done-injective {ℓ} : {A : Type ℓ} {a b : A} → done a ≡ done b → a ≡ b
done-injective h = cc
