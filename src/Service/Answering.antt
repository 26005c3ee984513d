-- ===== src/Service/Answering.antt =====
-- src/main.rs: what the endpoint answers.
use mathlib.Core.Path.{subst}
use onym_recovery_trustee.Prelude.{
  Bool-cases, Bytes, List, Option, Text, [], ap, arith, codes, inl, inr, ltb, none, pos, refl, some,
  sym, text_eq, ℕ, if◌then◌else◌, ◌<◌, ◌^◌, ◌∷◌, ◌≡◌, ◌≤◌, ◌⊎◌,
}
use onym_recovery_trustee.Code.{
  Code, Result, as_str, err, ok, artifact_mismatch, bootstrap_unavailable, enrollment_expired,
  enrollment_pending, enrollment_revoked, export_unavailable, insufficient_contributions,
  invalid_candidate_factor, invalid_contribution, invalid_destination, invalid_enrollment,
  invalid_manifest, invalid_policy, invalid_request, payment_required, recovery_cooling_down,
  recovery_expired, recovery_rate_limited, recovery_refused, recovery_vetoed, request_conflict,
  service_lapsed, stale_enrollment_sequence, temporarily_unavailable, unsupported_profile,
}
use onym_recovery_trustee.External.{External}
use onym_recovery_trustee.Json.{end, entry, object, string}
use onym_recovery_trustee.Json.Unique.{contains}
use onym_recovery_trustee.Service.Config.{now_of}
use onym_recovery_trustee.Service.Endpoint.{
  App, Lock, Response, answer_of, endpoint, free, handle_app, handled, locked, poisoned, status,
}
use onym_recovery_trustee.Store.{Db}
use onym_recovery_trustee.Store.Serving.{Draws, handle}
use onym_recovery_trustee.Wire.Documents.{canonical}

-- The status classes of the protocol: each status with the names of its errors.
abbrev pub status_classes : List (ℕ × List Text)
status_classes =
    (
      400,
      codes "invalid_request"
          ∷ codes "unsupported_profile"
          ∷ codes "invalid_manifest"
          ∷ codes "invalid_policy"
          ∷ codes "invalid_enrollment"
          ∷ codes "artifact_mismatch"
          ∷ codes "invalid_destination"
          ∷ codes "invalid_candidate_factor"
          ∷ codes "invalid_contribution"
          ∷ [],
    )
    ∷ (402, codes "payment_required" ∷ [])
    ∷ (
      409,
      codes "request_conflict"
          ∷ codes "enrollment_pending"
          ∷ codes "enrollment_expired"
          ∷ codes "enrollment_revoked"
          ∷ codes "stale_enrollment_sequence"
          ∷ codes "recovery_cooling_down"
          ∷ codes "recovery_vetoed"
          ∷ codes "recovery_refused"
          ∷ codes "recovery_expired"
          ∷ codes "insufficient_contributions"
          ∷ codes "service_lapsed"
          ∷ [],
    )
    ∷ (429, codes "recovery_rate_limited" ∷ [])
    ∷ (501, codes "bootstrap_unavailable" ∷ codes "export_unavailable" ∷ [])
    ∷ (503, codes "temporarily_unavailable" ∷ [])
    ∷ []

-- The status of the class that has a name.
abbrev pub class_of : List (ℕ × List Text) → Text → Option ℕ
class_of [] name = none
class_of ((status, names) ∷ classes) name =
    if contains names name then some status else class_of classes name

-- The headers of a private answer in JSON.
abbrev pub no_store_json : List (Text × Text)
no_store_json =
    (codes "content-type", codes "application/json")
    ∷ (codes "cache-control", codes "no-store")
    ∷ []

-- No time to run at: the clock is before the epoch, or its seconds are no i64.
abbrev pub NoTime : Option ℕ → Type 0
NoTime elapsed = (elapsed ≡ none) ⊎ ((secs : ℕ) × (elapsed ≡ some secs) × (2 ^ 63 ≤ secs))

-- The response of an error: its status and the object `{ "error": name }`.
abbrev pub IsError : External → Response → ℕ → Text → Type 0
IsError x response status name =
    (response.status_code ≡ status)
    × (response.body ≡ canonical x (object (entry (codes "error") (string name) end)))

-- An answer of the endpoint, and the database that is left.
pub data Answers (x : External) (app : App) (body : Option Bytes) (draws : Draws)
    (elapsed : Option ℕ) (lock : Lock) (response : Response) (db : Db) : Type 0 where
  -- The request ran: its bytes, or its error.
  ran :
      (bytes answer : Bytes) (secs : ℕ)
      → body ≡ some bytes
      → lock ≡ free
      → elapsed ≡ some secs
      → secs < 2 ^ 63
      → handle x app.trustee bytes draws (pos secs) app.store ≡ (ok answer, db)
      → response.status_code ≡ 200
      → response.body ≡ answer
      → Answers x app body draws elapsed lock response db
  ran_into :
      (bytes : Bytes) (code : Code) (secs status : ℕ)
      → body ≡ some bytes
      → lock ≡ free
      → elapsed ≡ some secs
      → secs < 2 ^ 63
      → handle x app.trustee bytes draws (pos secs) app.store ≡ (err code, db)
      → class_of status_classes (as_str code) ≡ some status
      → IsError x response status (as_str code)
      → Answers x app body draws elapsed lock response db
  -- The body was rejected.
  rejected :
      body ≡ none
      → db ≡ app.store
      → IsError x response 400 (codes "invalid_request")
      → Answers x app body draws elapsed lock response db
  -- The lock was poisoned or there was no time.
  unable :
      (lock ≡ poisoned) ⊎ NoTime elapsed
      → db ≡ app.store
      → IsError x response 503 (codes "temporarily_unavailable")
      → Answers x app body draws elapsed lock response db

-- Every code is in the class of its status.
status-class_of : (code : Code) → class_of status_classes (as_str code) ≡ some (status code)
unfolding status as_str text_eq
status-class_of unsupported_profile = refl
status-class_of invalid_manifest = refl
status-class_of invalid_policy = refl
status-class_of invalid_enrollment = refl
status-class_of enrollment_pending = refl
status-class_of enrollment_expired = refl
status-class_of enrollment_revoked = refl
status-class_of stale_enrollment_sequence = refl
status-class_of artifact_mismatch = refl
status-class_of invalid_destination = refl
status-class_of bootstrap_unavailable = refl
status-class_of invalid_candidate_factor = refl
status-class_of recovery_cooling_down = refl
status-class_of recovery_rate_limited = refl
status-class_of recovery_vetoed = refl
status-class_of recovery_refused = refl
status-class_of recovery_expired = refl
status-class_of insufficient_contributions = refl
status-class_of invalid_contribution = refl
status-class_of payment_required = refl
status-class_of service_lapsed = refl
status-class_of export_unavailable = refl
status-class_of temporarily_unavailable = refl
status-class_of invalid_request = refl
status-class_of request_conflict = refl

-- The result of the handler in terms of the answer.
abbrev Result-Answers :
    External → App → Option Bytes → Draws → Option ℕ → Lock → Result Bytes × Db → Type 0
Result-Answers x app body draws elapsed lock (result, db) =
    Answers x app body draws elapsed lock (answer_of x result) db

now_of-cases :
    (elapsed : Option ℕ)
    → ((secs : ℕ) × (elapsed ≡ some secs) × (secs < 2 ^ 63) × (now_of elapsed ≡ ok (pos secs)))
      ⊎ NoTime elapsed × (now_of elapsed ≡ err temporarily_unavailable)
unfolding now_of
now_of-cases none = inr (inl refl, refl)
now_of-cases (some secs) = elim (Bool-cases (ltb secs (2 ^ 63))) [
  | inl e ↦ inl (secs, refl, ground (arith, e), ground (arith, e))
  | inr e ↦ inr (inr (secs, refl, ground (arith, e)), ground (arith, e))
]

module _ (x : External) where
  answer_of-headers : (result : Result Bytes) → (answer_of x result).headers ≡ no_store_json
  answer_of-headers (ok body) = refl
  answer_of-headers (err code) = refl

  handled-ran :
      (app : App) (bytes : Bytes) (draws : Draws) (elapsed : Option ℕ) (secs : ℕ)
      (outcome : Result Bytes × Db)
      → elapsed ≡ some secs
      → secs < 2 ^ 63
      → handle x app.trustee bytes draws (pos secs) app.store ≡ outcome
      → Result-Answers x app (some bytes) draws elapsed free outcome
  unfolding status
  handled-ran app bytes draws elapsed secs (ok answer, db) e small h =
      ran bytes answer secs refl refl e small h refl refl
  handled-ran app bytes draws elapsed secs (err code, db) e small h =
      ran_into bytes code secs (status code) refl refl e small h (status-class_of code) (refl, refl)

  handled-Answers :
      (app : App) (body : Option Bytes) (draws : Draws) (elapsed : Option ℕ) (lock : Lock)
      → Result-Answers x app body draws elapsed lock (handled x app body draws elapsed lock)
  unfolding handle_app status as_str
  handled-Answers app none draws elapsed lock = rejected refl refl (refl, refl)
  handled-Answers app (some bytes) draws elapsed poisoned = unable (inl refl) refl (refl, refl)
  handled-Answers app (some bytes) draws elapsed free = elim (now_of-cases elapsed) [
    | inl (secs, e, small, now) ↦
        subst (Result-Answers x app (some bytes) draws elapsed free)
          (sym (ap (λ n. locked x app bytes draws n free) now))
          (handled-ran app bytes draws elapsed secs _ e small refl)
    | inr (no_time, now) ↦
        subst (Result-Answers x app (some bytes) draws elapsed free)
          (sym (ap (λ n. locked x app bytes draws n free) now))
          (unable (inr no_time) refl (refl, refl))
  ]

  -- Every response of the endpoint has the headers application/json and no-store. A request with a
  -- body, with the lock free and the clock at an i64 of seconds since the epoch, runs at that time: the
  -- response is 200 with the bytes that the store's handler gives, or the object of the handler's
  -- error with the status whose class lists the error's name. A rejected body is answered with 400 and
  -- invalid_request, a poisoned lock or any other clock with 503 and temporarily_unavailable, and the
  -- store is unchanged then. The trustee and the service stay as they were.
  pub endpoint-Answers :
      (app : App) (body : Option Bytes) (draws : Draws) (elapsed : Option ℕ) (lock : Lock)
      → let (response, app') = endpoint x app body draws elapsed lock in
        Answers x app body draws elapsed lock response app'.store
        × (response.headers ≡ no_store_json)
        × (app' ≡ record app { store = app'.store })
  unfolding endpoint
  endpoint-Answers app body draws elapsed lock = (
    handled-Answers app body draws elapsed lock,
    answer_of-headers (handled x app body draws elapsed lock).0,
    refl,
  )
