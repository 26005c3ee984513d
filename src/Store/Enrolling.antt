-- ===== src/Store/Enrolling.antt =====
-- src/store.rs: `issue_challenge`, `enroll` and `read_enrollment`.
use onym_recovery_trustee.Prelude.{
  Bool, Bytes, List, Option, Text, [], codes, if◌then◌else◌, leb, ltb, none, pos, some, text_eq, ℕ,
  ℤ, ◌&&◌, ◌*◌, ◌+ℤ◌, ◌==◌, ◌||◌, ◌∷◌,
}
use onym_recovery_trustee.Code.{
  Code, Result, enrollment_revoked, err, invalid_enrollment, invalid_request, ok, ok_or,
  request_conflict, stale_enrollment_sequence, ◌>>=◌, ◌>>◌,
}
use onym_recovery_trustee.External.{External}
use onym_recovery_trustee.Json.{Json}
use onym_recovery_trustee.State.{accepted, closed, revoked, superseded}
use onym_recovery_trustee.Store.{
  Db, EnrollmentRow, Reply, SessionRow, Step, issued, receipt, transaction,
}
use onym_recovery_trustee.Store.Receipts.{enrollment_receipt}
use onym_recovery_trustee.Store.Requests.{
  check_fresh, enrollment_scope, random_id, spend_nonce, time, verify_signature,
}
use onym_recovery_trustee.Store.Tables.{
  at_sequence, by_challenge, enrolled_with, find, insert, load_current_enrollment, load_sessions,
  open_challenges, redeemable, spend_challenge,
}
use onym_recovery_trustee.Trustee.{Trustee, accept_enrollment, check_artifact, key_id, require}
use onym_recovery_trustee.Wire.{EnrollRequest, Notice, Signed}
use onym_recovery_trustee.Wire.Documents.{canonical, digest}
use onym_recovery_trustee.Wire.Encoding.{hex32, is_some, sequence}
use onym_recovery_trustee.Wire.Receipts.{about, enrollment_state, session_reason, session_state}

abbrev pub challenge_lifetime_secs : ℕ
challenge_lifetime_secs = 15 * 60

abbrev pub max_open_challenges : ℕ
max_open_challenges = 4

-- The constraints of `enrollments`: the primary key and the unique challenge.
abbrev pub enrollment_taken : EnrollmentRow → EnrollmentRow → Bool
enrollment_taken row old =
    at_sequence row.enrollment_id row.sequence old || enrolled_with row.challenge old

module _ (x : External) (t : Trustee) where
  -- `Store::issue_challenge`, given the random bytes of its challenge.
  unfoldable pub issue_challenge : Json → ℤ → Option Bytes → Db → Step
  issue_challenge body now random db = do
    request ← ok_or (x.decode_challenge body) invalid_request
    require
        (request.request_version == 1
          && text_eq request.component_id t.component_id
          && is_some (hex32 x request.invitation))
        invalid_request
    let invitation = digest x request.invitation
    challenge ← random_id x random
    let expires_at = now +ℤ pos challenge_lifetime_secs
    tx ← transaction db now
    open_now ← ok_or (open_challenges tx invitation now) invalid_request
    require (ltb open_now max_open_challenges) invalid_request
    challenges ←
        insert (by_challenge challenge)
          (record {
            challenge = challenge;
            invitation = invitation;
            expires_at = expires_at;
            used_at = none;
          })
          tx.challenges
    ok (
      record tx { challenges = challenges },
      (do
        when ← time x expires_at
        ok (
            issued (record {
              challenge = challenge;
              component_id = t.component_id;
              expires_at = when;
              trustee_key_id = key_id x t;
            }))),
    )

  -- The answer to a challenge that has enrolled already.
  unfoldable pub enroll_again : Db → EnrollmentRow → Text → Bytes → Bytes → Result Reply
  enroll_again db row request_digest sealed artifact =
      if text_eq row.request_digest request_digest
      then elim row.status [
        | revoked ↦ err enrollment_revoked
        | closed ↦ err enrollment_revoked
        | accepted ↦ enrollment_receipt x t db row.challenge sealed artifact
        | superseded ↦ enrollment_receipt x t db row.challenge sealed artifact
      ]
      else err request_conflict

  -- The refusal of an enrollment ID that is known to the same key.
  unfoldable pub known_enrollment : EnrollmentRow → ℕ → Code
  known_enrollment existing sequence = elim existing.status [
    | revoked ↦ enrollment_revoked
    | closed ↦ enrollment_revoked
    | accepted ↦
        if leb sequence existing.enrollment.context.enrollment_sequence
        then stale_enrollment_sequence
        else invalid_enrollment
    | superseded ↦
        if leb sequence existing.enrollment.context.enrollment_sequence
        then stale_enrollment_sequence
        else invalid_enrollment
  ]

  -- What `enroll` does with an enrollment that it accepts: store it, or refuse a known ID.
  unfoldable pub store_enrollment :
      Db → Option EnrollmentRow → EnrollmentRow → Text → Bytes → Bytes → ℤ → Step
  unfolding known_enrollment
  store_enrollment tx (some existing) row invitation sealed artifact now =
      if text_eq existing.enrollment.authorization_key row.enrollment.authorization_key
      then err (known_enrollment existing row.sequence)
      else ok (spend_challenge tx row.challenge invitation now, err invalid_enrollment)
  store_enrollment tx none row invitation sealed artifact now = do
    enrollments ← insert (enrollment_taken row) row tx.enrollments
    let stored =
        spend_challenge (record tx { enrollments = enrollments }) row.challenge invitation now
    ok (stored, enrollment_receipt x t stored row.challenge sealed artifact)

  -- `enroll` after its look-up of the challenge.
  unfoldable pub enroll_new : Db → EnrollRequest → Text → Bytes → Bytes → ℤ → Step
  unfolding store_enrollment
  enroll_new tx request request_digest sealed artifact now = do
    let context = request.context
    invitation ← ok_or (redeemable tx context.trustee_challenge now) invalid_enrollment
    require (text_eq request.trustee_key_id (key_id x t)) invalid_enrollment
    enrollment ← accept_enrollment x t context sealed now
    check_artifact x t.limits enrollment artifact
    store_enrollment tx (load_current_enrollment tx context.enrollment_id)
        (record {
          enrollment_id = context.enrollment_id;
          sequence = context.enrollment_sequence;
          status = accepted;
          challenge = context.trustee_challenge;
          request_digest = request_digest;
          enrollment = enrollment;
          attempts_used = 0;
          stored_at = now;
          sealed_envelope = some sealed;
          protected_artifact = some artifact;
        })
        invitation sealed artifact now

  abbrev pub sealed_of : EnrollRequest → Option Bytes → Option Bytes
  sealed_of request none = none
  sealed_of request (some sealed) = if request.request_version == 1 then some sealed else none

  -- `Store::enroll`
  unfoldable pub enroll : Json → ℤ → Db → Step
  unfolding enroll_new enroll_again
  enroll body now db = do
    let request_digest = digest x (canonical x body)
    request ← ok_or (x.decode_enroll body) invalid_request
    sealed ← ok_or (sealed_of request (x.base64_decode request.sealed_envelope)) invalid_request
    let artifact = canonical x request.protected_artifact
    tx ← transaction db now
    elim (find (enrolled_with request.context.trustee_challenge) tx.enrollments) [
      | some row ↦ ok (db, enroll_again db row request_digest sealed artifact)
      | none ↦ enroll_new tx request request_digest sealed artifact now
    ]

  -- The notice of one session.
  unfoldable pub notice : SessionRow → ℤ → Result Notice
  notice session now = do
    cooldown_ends_at ← time x session.cooldown_ends_at
    expires_at ← time x session.expires_at
    ok (record {
      session_id = session.session_id;
      state = session_state session.status session.cooldown_ends_at session.expires_at now;
      reason = session_reason session.status;
      released = is_some session.contribution;
      cooldown_ends_at = cooldown_ends_at;
      expires_at = expires_at;
    })

  -- `collect::<Result<Vec<_>, Code>>`
  unfoldable pub notices : List SessionRow → ℤ → Result (List Notice)
  unfolding notice
  notices [] now = ok []
  notices (session ∷ sessions) now = do
    first ← notice session now
    rest ← notices sessions now
    ok (first ∷ rest)

  -- `Store::read_enrollment`
  unfoldable pub read_enrollment : Signed → ℤ → Db → Step
  unfolding notices
  read_enrollment signed now db = do
    tx ← transaction db now
    row ← ok_or (load_current_enrollment tx signed.target) invalid_request
    let enrollment = row.enrollment
    verify_signature x signed enrollment.authorization_key
    check_fresh signed t now
    spent ← spend_nonce tx (enrollment_scope enrollment) signed t now
    sessions ← notices (load_sessions spent enrollment) now
    let state = enrollment_state row.status enrollment.expires_at now
    ok (
      spent,
      (do
        recorded_at ← time x now
        expires_at ← time x enrollment.expires_at
        ok (
            receipt (record (about t.component_id enrollment.context (codes "read-enrollment")) {
              request_id = signed.request_id;
              old_state = state;
              new_state = state;
              recorded_at = recorded_at;
              expires_at = expires_at;
              sessions = some sessions;
            }))),
    )
