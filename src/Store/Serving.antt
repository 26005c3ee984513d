-- ===== src/Store/Serving.antt =====
-- src/store.rs: `handle`, `create_invitation` and `bind`.
use onym_recovery_trustee.Prelude.{
  Bool, Bytes, List, Option, Text, [], codes, false, if◌then◌else◌, none, some, text_eq, true, ℤ,
  ◌&&◌, ◌+ℤ◌, ◌||◌, ◌∷◌,
}
use onym_recovery_trustee.Code.{Code, Result, err, invalid_request, ok, ok_or, ◌>>=◌}
use onym_recovery_trustee.External.{External}
use onym_recovery_trustee.Json.{Json, end, entry, object, str_field, string}
use onym_recovery_trustee.Store.{Db, Reply, Step, issued, receipt, settle, transaction}
use onym_recovery_trustee.Store.Ending.{end_enrollment}
use onym_recovery_trustee.Store.Enrolling.{enroll, issue_challenge, read_enrollment}
use onym_recovery_trustee.Store.Recovering.{begin_recovery, cancel_recovery, read_recovery}
use onym_recovery_trustee.Store.Requests.{random_id}
use onym_recovery_trustee.Store.Tables.{by_digest, insert}
use onym_recovery_trustee.Trustee.{Trustee, key_id, operator}
use onym_recovery_trustee.Trustee.Manifest.{refused_operations}
use onym_recovery_trustee.Wire.{Signed}
use onym_recovery_trustee.Wire.Documents.{canonical, digest, parse, sign_object}
use onym_recovery_trustee.Wire.Requests.{
  cancel_recovery_operation, close_enrollment_operation, read_enrollment_operation,
  read_recovery_operation, revoke_enrollment_operation, signed_parse,
}

-- The operations of `handle` that carry no signature of their own.
abbrev pub issue_challenge_operation : Text
issue_challenge_operation = codes "issue-challenge"

abbrev pub enroll_operation : Text
enroll_operation = codes "enroll"

abbrev pub begin_recovery_operation : Text
begin_recovery_operation = codes "begin-recovery"

-- The code of an operation that `REFUSED` names.
unfoldable pub refusal : List (Text × Code) → Text → Code
refusal [] operation = invalid_request
refusal ((name, code) ∷ rest) operation =
    if text_eq name operation then code else refusal rest operation

-- The randomness that one request may draw: the bytes of a challenge, and the ephemeral keys of the
-- trial seal and of the seal.
pub record Draws : Type 0 where
  pub id_bytes : Option Bytes
  pub trial : Bytes
  pub ephemeral : Bytes

-- The operations on a signed request.
pub data SignedOperation : Type 0 where
  reads_enrollment reads_recovery cancels_recovery ends_enrollment : SignedOperation

module _ (x : External) (t : Trustee) where
  -- A request that is signed by the holder or the candidate.
  unfoldable pub serve_signed : SignedOperation → Signed → Draws → ℤ → Db → Step
  serve_signed reads_enrollment signed draws now db = read_enrollment x t signed now db
  serve_signed reads_recovery signed draws now db =
      read_recovery x t signed now draws.trial draws.ephemeral db
  serve_signed cancels_recovery signed draws now db = cancel_recovery x t signed now db
  serve_signed ends_enrollment signed draws now db = end_enrollment x t signed now db

  -- `signed(request)?`
  unfoldable pub with_signed : SignedOperation → Json → Draws → ℤ → Db → Step
  unfolding serve_signed
  with_signed operation request draws now db = do
    signed ← ok_or (signed_parse x request t.component_id) invalid_request
    serve_signed operation signed draws now db

  -- `match operation.as_str()`
  unfoldable pub dispatch : Text → Json → Draws → ℤ → Db → Step
  unfolding with_signed refusal
  dispatch operation request draws now db =
      if text_eq operation issue_challenge_operation
      then issue_challenge x t request now draws.id_bytes db
      else if text_eq operation enroll_operation
      then enroll x t request now db
      else if text_eq operation read_enrollment_operation
      then with_signed reads_enrollment request draws now db
      else if text_eq operation begin_recovery_operation
      then begin_recovery x t request now draws.trial db
      else if text_eq operation read_recovery_operation
      then with_signed reads_recovery request draws now db
      else if text_eq operation cancel_recovery_operation
      then with_signed cancels_recovery request draws now db
      else if text_eq operation revoke_enrollment_operation
          || text_eq operation close_enrollment_operation
      then with_signed ends_enrollment request draws now db
      else err (refusal refused_operations operation)

  -- `Store::handle` up to the encoding of its answer.
  unfoldable pub handle_step : Bytes → Draws → ℤ → Db → Step
  unfolding dispatch
  handle_step body draws now db = do
    request ← ok_or (parse x body) invalid_request
    dispatch (str_field request (codes "operation")) request draws now db

  -- The canonical bytes of an answer, signed where it is a receipt.
  unfoldable pub encode_reply : Reply → Bytes
  encode_reply (issued reply) = canonical x (
      object (
        entry (codes "challenge") (string reply.challenge) (
          entry (codes "componentId") (string reply.component_id) (
            entry (codes "expiresAt") (string reply.expires_at)
              (entry (codes "trusteeKeyId") (string reply.trustee_key_id) end)))))
  encode_reply (receipt body) = sign_object x (x.encode_receipt body) t.signing_key

  abbrev encoded : Result Reply → Result Bytes
  encoded (ok reply) = ok (encode_reply reply)
  encoded (err code) = err code

  -- `Store::handle`
  unfoldable pub handle : Bytes → Draws → ℤ → Db → Result Bytes × Db
  unfolding handle_step encode_reply
  handle body draws now db =
      let (answer, db') = settle db (handle_step body draws now db) in (encoded answer, db')

  -- `Store::bind`: whether the database serves this trustee.
  unfoldable pub bind : Db → Bool × Db
  bind db = elim db.identity [
    | some stored ↦ (
      text_eq stored.component_id t.component_id
          && text_eq stored.operator (operator x t)
          && text_eq stored.trustee_key_id (key_id x t),
      db,
    )
    | none ↦ elim db.enrollments [
      | row ∷ rows ↦ (false, db)
      | [] ↦ (
        true,
        record db {
          identity = some (record {
            component_id = t.component_id;
            operator = operator x t;
            trustee_key_id = key_id x t;
          });
        },
      )
    ]
  ]

module _ (x : External) where
  -- `Store::create_invitation`: the code, and the database with its digest.
  unfoldable pub create_invitation : ℤ → ℤ → Option Bytes → Db → Result (Db × Text)
  create_invitation lifetime_secs now random db = do
    code ← random_id x random
    tx ← transaction db now
    invitations ←
        insert (by_digest (digest x code))
          (record { digest = digest x code; expires_at = now +ℤ lifetime_secs; used_at = none })
          tx.invitations
    ok (record tx { invitations = invitations }, code)
