-- ===== src/Wire/Requests.antt =====
-- src/wire.rs: `Signed::parse`, the requests signed by a holder or a candidate.
use onym_recovery_trustee.Prelude.{
  Bool, Option, Text, codes, if◌then◌else◌, none, some, text_eq, ◌&&◌, ◌==◌, ◌||◌,
}
use onym_recovery_trustee.External.{External}
use onym_recovery_trustee.Json.{Json, take_string}
use onym_recovery_trustee.Wire.{Signed, SignedRequest}
use onym_recovery_trustee.Wire.Documents.{canonical, digest}
use onym_recovery_trustee.Wire.Encoding.{hex32, is_some, signature, timestamp}

abbrev pub read_enrollment_operation : Text
read_enrollment_operation = codes "read-enrollment"

abbrev pub revoke_enrollment_operation : Text
revoke_enrollment_operation = codes "revoke-enrollment"

abbrev pub close_enrollment_operation : Text
close_enrollment_operation = codes "close-enrollment"

abbrev pub read_recovery_operation : Text
read_recovery_operation = codes "read-recovery"

abbrev pub cancel_recovery_operation : Text
cancel_recovery_operation = codes "cancel-recovery"

abbrev enrollment_target : Option Text → Option Text → Option Text → Option Text
enrollment_target (some id) none none = some id
enrollment_target _ _ _ = none

abbrev session_target : Option Text → Option Text → Option Text → Option Text
session_target none (some id) none = some id
session_target _ _ _ = none

abbrev cancel_target : Option Text → Option Text → Option Text → Option Text
cancel_target none (some id) (some by) = some id
cancel_target _ _ _ = none

-- The one target that the operation acts on.
unfoldable pub signed_target : SignedRequest → Option Text
signed_target r =
    if text_eq r.operation read_enrollment_operation
      || text_eq r.operation revoke_enrollment_operation
      || text_eq r.operation close_enrollment_operation
    then enrollment_target r.enrollment_id r.session_id r.by
    else if text_eq r.operation read_recovery_operation
    then session_target r.enrollment_id r.session_id r.by
    else if text_eq r.operation cancel_recovery_operation
    then cancel_target r.enrollment_id r.session_id r.by
    else none

-- `?` on an `Option`.
infixl 5 ◌>>=◌
abbrev ◌>>=◌ {ℓ κ} : {A : Type ℓ} {B : Type κ} → Option A → (A → Option B) → Option B
none >>= f = none
some a >>= f = f a

module _ (x : External) where
  abbrev is_addressed : SignedRequest → Text → Text → Bool
  is_addressed request target component_id =
      request.request_version == 1
      && text_eq request.component_id component_id
      && is_some (hex32 x request.request_id)
      && is_some (hex32 x target)

  -- `Signed::parse`
  unfoldable pub signed_parse : Json → Text → Option Signed
  signed_parse value component_id = do
    (encoded, rest) ← take_string value (codes "signature")
    decoded ← signature x encoded
    request ← x.decode_signed rest
    target ← signed_target request
    issued_at ← timestamp x request.issued_at
    if is_addressed request target component_id
        then some (record {
          operation = request.operation;
          request_id = request.request_id;
          target = target;
          by = request.by;
          issued_at = issued_at;
          message = canonical x rest;
          signature = decoded;
          digest = digest x (canonical x value);
        })
        else none
