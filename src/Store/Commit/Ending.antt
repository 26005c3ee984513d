-- ===== src/Store/Commit/Ending.antt =====
-- How `end_enrollment` commits.
use onym_recovery_trustee.Prelude.{arith, inl, inr, some, ℤ, ◌≡◌, ◌≤ℤ◌}
use onym_recovery_trustee.Code.{Option-split, Result, bind-ok, ok, ok_or-bind-ok, then-ok}
use onym_recovery_trustee.External.{External}
use onym_recovery_trustee.Store.{Db, EnrollmentRow, Reply}
use onym_recovery_trustee.Store.Commit.{Commit, at_time, ended, retried}
use onym_recovery_trustee.Store.Commit.Steps.{record_outcome-ok, transaction-bind-ok}
use onym_recovery_trustee.Store.Ending.{end_enrollment, end_new}
use onym_recovery_trustee.Store.Requests.{
  check_fresh, enrollment_scope, record_outcome, recorded_outcome, verify_signature,
}
use onym_recovery_trustee.Store.Rows.{current-id}
use onym_recovery_trustee.Store.Tables.{current, load_current_enrollment}
use onym_recovery_trustee.Trustee.{Trustee}
use onym_recovery_trustee.Wire.{Signed}
use onym_recovery_trustee.Wire.Documents.{digest}

module _ (x : External) (t : Trustee) where
  end_new-Commit :
      (db : Db) (row : EnrollmentRow) (signed : Signed) (now : ℤ) (db' : Db) (answer : Result Reply)
      → current row.enrollment_id db.enrollments ≡ some row
      → end_new x t (at_time db now) row signed now ≡ ok (db', answer)
      → Commit t now db db'
  unfolding end_new
  end_new-Commit db row signed now db' answer found h =
      let (fresh, h1) = then-ok (check_fresh signed t now) _ h in
      let (recorded, e2, h2) = bind-ok (record_outcome _ _ signed _ _ now) _ h1 in
      let (outcomes', e3) = record_outcome-ok _ _ _ _ _ now recorded e2 in
      ended row signed.operation outcomes' found (ground arith)

  pub end_enrollment-Commit :
      (signed : Signed) (now : ℤ) (db db' : Db) (answer : Result Reply)
      → end_enrollment x t signed now db ≡ ok (db', answer)
      → (db.high_water ≤ℤ now) × Commit t now db db'
  unfolding end_enrollment
  end_enrollment-Commit signed now db db' answer h =
      let (on_time, h1) = transaction-bind-ok db now _ h in
      let (row, found, h2) =
        ok_or-bind-ok (load_current_enrollment (at_time db now) signed.target) _ _ h1 in
      let (verified, h3) =
        then-ok (verify_signature x signed row.enrollment.authorization_key) _ h2 in
      (
        on_time,
        elim (Option-split
            (recorded_outcome (at_time db now) (enrollment_scope row.enrollment) signed) _ _ h3) [
              | inl (_, h4) ↦
                  end_new-Commit db row signed now db' answer
                    (rw
                      (current-id signed.target db.enrollments row
                        (unfold load_current_enrollment in found))
                      (unfold load_current_enrollment in found))
                    h4
              | inr (digest, _, h4) ↦ retried (ground arith)
            ],
      )
