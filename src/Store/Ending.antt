-- ===== src/Store/Ending.antt =====
-- src/store.rs: `end_enrollment`, which revokes or closes an enrollment.
use onym_recovery_trustee.Prelude.{Text, if◌then◌else◌, none, some, text_eq, ℤ}
use onym_recovery_trustee.Code.{invalid_request, ok, ok_or, ◌>>=◌, ◌>>◌}
use onym_recovery_trustee.External.{External}
use onym_recovery_trustee.State.{EnrollmentStatus, closed, revoked}
use onym_recovery_trustee.Store.{Db, EnrollmentRow, Step, transaction}
use onym_recovery_trustee.Store.Receipts.{outcome_receipt, replayed_outcome}
use onym_recovery_trustee.Store.Requests.{
  check_fresh, enrollment_scope, record_outcome, recorded_outcome, verify_signature,
}
use onym_recovery_trustee.Store.Tables.{at_sequence, load_current_enrollment, update}
use onym_recovery_trustee.Trustee.{Trustee}
use onym_recovery_trustee.Wire.{EnrollmentContext, Signed}
use onym_recovery_trustee.Wire.Receipts.{enrollment_state}
use onym_recovery_trustee.Wire.Requests.{close_enrollment_operation}

-- The status that the operation leaves: `match (signed.operation.as_str(), row.status)`.
unfoldable pub ended_status : Text → EnrollmentStatus → EnrollmentStatus
ended_status operation closed = closed
ended_status operation _ = if text_eq operation close_enrollment_operation then closed else revoked

-- The tombstone: the custody is deleted.
abbrev pub tombstone : EnrollmentStatus → EnrollmentRow → EnrollmentRow
tombstone status row = record row {
  status = status;
  sealed_envelope = none;
  protected_artifact = none;
}

unfoldable pub bury : Db → EnrollmentContext → EnrollmentStatus → Db
bury db context status = record db {
  enrollments =
      update (at_sequence context.enrollment_id context.enrollment_sequence) (tombstone status)
        db.enrollments;
}

module _ (x : External) (t : Trustee) where
  -- `end_enrollment` of a request that has no recorded outcome.
  unfoldable pub end_new : Db → EnrollmentRow → Signed → ℤ → Step
  end_new tx row signed now = do
    let enrollment = row.enrollment
    check_fresh signed t now
    let status = ended_status signed.operation row.status
    recorded ←
        record_outcome (bury tx enrollment.context status) (enrollment_scope enrollment) signed
          (enrollment_state row.status enrollment.expires_at now)
          (enrollment_state status enrollment.expires_at now) now
    ok (recorded, outcome_receipt x t recorded (enrollment_scope enrollment) signed.request_id)

  -- `Store::end_enrollment`
  unfoldable pub end_enrollment : Signed → ℤ → Db → Step
  unfolding end_new
  end_enrollment signed now db = do
    tx ← transaction db now
    row ← ok_or (load_current_enrollment tx signed.target) invalid_request
    verify_signature x signed row.enrollment.authorization_key
    elim (recorded_outcome tx (enrollment_scope row.enrollment) signed) [
      | some recorded ↦
          ok (db, replayed_outcome x t db (enrollment_scope row.enrollment) signed recorded)
      | none ↦ end_new tx row signed now
    ]
