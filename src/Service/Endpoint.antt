-- ===== src/Service/Endpoint.antt =====
-- src/main.rs: the handlers of the HTTP routes. A request's body, the clock and the state of the lock
-- are arguments; a handler gives the response, and what the store has become.
use onym_recovery_trustee.Prelude.{Bytes, List, Option, Text, [], codes, none, some, ℕ, ℤ, ◌∷◌}
use onym_recovery_trustee.Code.{
  Code, Result, artifact_mismatch, as_str, bootstrap_unavailable, enrollment_expired,
  enrollment_pending, enrollment_revoked, err, export_unavailable, insufficient_contributions,
  invalid_candidate_factor, invalid_contribution, invalid_destination, invalid_enrollment,
  invalid_manifest, invalid_policy, invalid_request, ok, payment_required, recovery_cooling_down,
  recovery_expired, recovery_rate_limited, recovery_refused, recovery_vetoed, request_conflict,
  service_lapsed, stale_enrollment_sequence, temporarily_unavailable, unsupported_profile,
}
use onym_recovery_trustee.External.{External}
use onym_recovery_trustee.Json.{end, entry, object, string}
use onym_recovery_trustee.Service.Config.{now_of}
use onym_recovery_trustee.Store.{Db}
use onym_recovery_trustee.Store.Serving.{Draws, handle}
use onym_recovery_trustee.Trustee.{Trustee}
use onym_recovery_trustee.Trustee.Manifest.{Service, manifest}
use onym_recovery_trustee.Wire.Documents.{canonical}

-- `App`, with the store behind its lock.
pub record App : Type 0 where
  pub trustee : Trustee
  pub store : Db
  pub service : Service

pub record Response : Type 0 where
  pub status_code : ℕ
  pub headers : List (Text × Text)
  pub body : Bytes

-- `status`
unfoldable pub status : Code → ℕ
status invalid_request = 400
status unsupported_profile = 400
status invalid_manifest = 400
status invalid_policy = 400
status invalid_enrollment = 400
status artifact_mismatch = 400
status invalid_destination = 400
status invalid_candidate_factor = 400
status invalid_contribution = 400
status request_conflict = 409
status enrollment_pending = 409
status enrollment_expired = 409
status enrollment_revoked = 409
status stale_enrollment_sequence = 409
status recovery_cooling_down = 409
status recovery_vetoed = 409
status recovery_refused = 409
status recovery_expired = 409
status insufficient_contributions = 409
status service_lapsed = 409
status recovery_rate_limited = 429
status payment_required = 402
status bootstrap_unavailable = 501
status export_unavailable = 501
status temporarily_unavailable = 503

abbrev json_type : Text × Text
json_type = (codes "content-type", codes "application/json")

-- The headers of an answer to a request.
abbrev pub private_headers : List (Text × Text)
private_headers = json_type ∷ (codes "cache-control", codes "no-store") ∷ []

-- The lock of the store: a handler that panics leaves it poisoned.
pub data Lock : Type 0 where
  free poisoned : Lock

module _ (x : External) where
  abbrev pub locked : App → Bytes → Draws → Result ℤ → Lock → Result Bytes × Db
  locked app body draws now poisoned = (err temporarily_unavailable, app.store)
  locked app body draws (err code) free = (err code, app.store)
  locked app body draws (ok now) free = handle x app.trustee body draws now app.store

  -- `App::handle`
  unfoldable pub handle_app : App → Bytes → Draws → Option ℕ → Lock → Result Bytes × Db
  unfolding now_of
  handle_app app body draws elapsed lock = locked app body draws (now_of elapsed) lock

  -- The object `{ "error": code }`.
  abbrev pub error_body : Code → Bytes
  error_body code = canonical x (object (entry (codes "error") (string (as_str code)) end))

  abbrev pub answer_of : Result Bytes → Response
  answer_of (ok body) = record { status_code = 200; headers = private_headers; body = body }
  answer_of (err code) = record {
    status_code = status code;
    headers = private_headers;
    body = error_body code;
  }

  abbrev pub handled : App → Option Bytes → Draws → Option ℕ → Lock → Result Bytes × Db
  handled app none draws elapsed lock = (err invalid_request, app.store)
  handled app (some body) draws elapsed lock = handle_app app body draws elapsed lock

  -- `endpoint`: the body is missing where axum rejects it.
  unfoldable pub endpoint : App → Option Bytes → Draws → Option ℕ → Lock → Response × App
  unfolding handle_app status
  endpoint app body draws elapsed lock =
      let (result, store) = handled app body draws elapsed lock in
      (answer_of result, record app { store = store })

  abbrev manifest_response : Result Bytes → Response
  manifest_response (ok manifest) = record {
    status_code = 200;
    headers = json_type ∷ [];
    body = manifest;
  }
  manifest_response (err code) = record { status_code = status code; headers = []; body = [] }

  abbrev manifest_at : App → Result ℤ → Result Bytes
  manifest_at app (ok now) = manifest x app.trustee app.service now
  manifest_at app (err code) = err code

  -- `manifest_json`
  unfoldable pub manifest_json : App → Option ℕ → Response
  unfolding status now_of
  manifest_json app elapsed = manifest_response (manifest_at app (now_of elapsed))

-- `health`
abbrev pub health : Response
health = record { status_code = 200; headers = json_type ∷ []; body = codes "{\"status\":\"ok\"}" }
