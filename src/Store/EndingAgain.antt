-- ===== src/Store/EndingAgain.antt =====
-- src/store.rs: a signed revocation or closure that is sent again.
use mathlib.Core.Path.{subst}
use onym_recovery_trustee.Prelude.{
  Bool, Bool-cases, List, Option, Text, [], ap, arith, if◌then◌else◌, inl, inr, ltb, none, refl,
  some, sym, text_eq, ℤ, ◌∙◌, ◌∷◌, ◌≡◌, ◌≤ℤ◌,
}
use onym_recovery_trustee.Code.{
  Option-split, Result, bind-ok, ok, ok-injective, ok_or-bind-ok, then-ok,
}
use onym_recovery_trustee.External.{External}
use onym_recovery_trustee.State.{EnrollmentStatus}
use onym_recovery_trustee.Store.{Db, EnrollmentRow, Reply, transaction}
use onym_recovery_trustee.Store.AcceptingTests.{context}
use onym_recovery_trustee.Store.Commit.{at_time}
use onym_recovery_trustee.Store.Commit.Steps.{record_outcome-ok, transaction-bind-ok}
use onym_recovery_trustee.Store.Disclosure.{parts}
use onym_recovery_trustee.Store.Ending.{bury, end_enrollment, end_new, ended_status, tombstone}
use onym_recovery_trustee.Store.Receipts.{replayed_outcome}
use onym_recovery_trustee.Store.Requests.{
  check_fresh, enrollment_scope, find_outcome, record_outcome, recorded_outcome, verify_signature,
}
use onym_recovery_trustee.Store.Retries.{recorded-at_time, recorded-found, replayed-same}
use onym_recovery_trustee.Store.Tables.{
  at_sequence, current, later, load_current_enrollment, update,
}
use onym_recovery_trustee.Trustee.{Enrollment, Trustee}
use onym_recovery_trustee.Wire.{EnrollmentContext, Signed}
use onym_recovery_trustee.Wire.Documents.{digest}

-- The current row of an ID, after rows were changed that keep their keys.
module _ (hit : EnrollmentRow → Bool) (change : EnrollmentRow → EnrollmentRow)
    (same_id : (row : EnrollmentRow) → (change row).enrollment_id ≡ row.enrollment_id)
    (same_sequence : (row : EnrollmentRow) → (change row).sequence ≡ row.sequence) where
  abbrev changed : EnrollmentRow → EnrollmentRow
  changed row = if hit row then change row else row

  abbrev changed_found : Option EnrollmentRow → Option EnrollmentRow
  changed_found none = none
  changed_found (some row) = some (changed row)

  changed-keys :
      (row : EnrollmentRow)
      → ((changed row).enrollment_id ≡ row.enrollment_id) × ((changed row).sequence ≡ row.sequence)
  changed-keys row = (ground (arith, same_id row), ground (arith, same_sequence row))

  later-changed :
      (row : EnrollmentRow) (o : Option EnrollmentRow)
      → later (changed row) (changed_found o) ≡ changed_found (later row o)
  later-changed row none = refl
  later-changed row (some other) =
      let a = (changed-keys row).1 in
      let b = (changed-keys other).1 in
      elim (Bool-cases (ltb other.sequence row.sequence)) [
        | inl less ↦ rw (a, b, less) refl
        | inr more ↦ rw (a, b, more) refl
      ]

  current-update :
      (id : Text) (rows : List EnrollmentRow)
      → current id (update hit change rows) ≡ changed_found (current id rows)
  unfolding current update
  current-update id [] = refl
  current-update id (row ∷ rows) =
      let rest = current-update id rows in
      let key = (changed-keys row).0 in
      elim (Bool-cases (text_eq row.enrollment_id id)) [
        | inl own ↦ rw (rest, key, own) (later-changed row (current id rows))
        | inr other ↦ rw (rest, key, other) refl
      ]

module _ (x : External) (t : Trustee) where
  -- A request whose outcome is recorded is answered from the record.
  end-replays :
      (signed : Signed) (later_time : ℤ) (db : Db) (row : EnrollmentRow) (digest : Text)
      → (db.high_water ≤ℤ later_time)
      → load_current_enrollment db signed.target ≡ some row
      → verify_signature x signed row.enrollment.authorization_key ≡ ok tt
      → recorded_outcome db (enrollment_scope row.enrollment) signed ≡ some digest
      → end_enrollment x t signed later_time db
        ≡ ok (db, replayed_outcome x t db (enrollment_scope row.enrollment) signed digest)
  unfolding end_enrollment transaction load_current_enrollment recorded_outcome find_outcome
  end-replays signed later_time db row digest on_time r v o = ground (arith, on_time, r, v, o)

  -- The row that is found after the enrollment was ended keeps its enrollment.
  buried-current :
      (db : Db) (row : EnrollmentRow) (target : Text) (context : EnrollmentContext)
      (status : EnrollmentStatus)
      → load_current_enrollment db target ≡ some row
      → (row' : EnrollmentRow) × (load_current_enrollment (bury db context status) target
          ≡ some row')
        × (row'.enrollment ≡ row.enrollment)
  unfolding load_current_enrollment bury
  buried-current db row target context status h =
      let hit = at_sequence context.enrollment_id context.enrollment_sequence in
      let change = tombstone status in
      (
        changed hit change (λ r. refl) (λ r. refl) row,
        current-update hit change (λ r. refl) (λ r. refl) target db.enrollments
            ∙ ap (changed_found hit change (λ r. refl) (λ r. refl)) h,
        ground arith,
      )

  current-same :
      (db db' : Db) (target : Text)
      → db'.enrollments ≡ db.enrollments
      → load_current_enrollment db' target ≡ load_current_enrollment db target
  unfolding load_current_enrollment
  current-same db db' target e = ap (current target) e

  end_new-again :
      (signed : Signed) (now later_time : ℤ) (db db1 : Db) (row : EnrollmentRow)
      (answer : Result Reply)
      → (db1.high_water ≤ℤ later_time)
      → load_current_enrollment db signed.target ≡ some row
      → verify_signature x signed row.enrollment.authorization_key ≡ ok tt
      → end_new x t (at_time db now) row signed now ≡ ok (db1, answer)
      → end_enrollment x t signed later_time db1 ≡ ok (db1, answer)
  unfolding end_new
  end_new-again signed now later_time db db1 row answer on_time r v h =
      let (_, h1) = then-ok (check_fresh signed t now) _ h in
      let status = ended_status signed.operation row.status in
      let before = bury (at_time db now) row.enrollment.context status in
      let scope = enrollment_scope row.enrollment in
      let (recorded, e2, h2) = bind-ok (record_outcome before scope signed _ _ now) _ h1 in
      let (committed, answered) = parts x t _ _ _ _ (ok-injective h2) in
      let (outcomes', e3) = record_outcome-ok _ _ _ _ _ now recorded e2 in
      let found = recorded-found _ _ _ _ _ now recorded e2 in
      let (row', r', same) =
        buried-current (at_time db now) row signed.target row.enrollment.context status
          (current-same db (at_time db now) signed.target refl ∙ r) in
      let again =
        end-replays signed later_time recorded row' signed.digest
          (subst (λ d. d.high_water ≤ℤ later_time) (sym committed) on_time)
          (current-same before recorded signed.target (ap (λ (d : Db). d.enrollments) e3) ∙ r')
          (subst (λ (e : Enrollment). verify_signature x signed e.authorization_key ≡ ok tt)
            (sym same) v)
          (subst
            (λ (e : Enrollment).
              recorded_outcome recorded (enrollment_scope e) signed ≡ some signed.digest)
            (sym same) found) in
      subst (λ d. end_enrollment x t signed later_time d ≡ ok (d, answer)) committed
        (again
          ∙ ap (λ a. ok (recorded, a))
              (ap
                  (λ (e : Enrollment).
                    replayed_outcome x t recorded (enrollment_scope e) signed signed.digest)
                  same
                ∙ replayed-same x t recorded scope signed
                ∙ answered))

  -- A signed revocation or closure that is accepted and sent again to the database that it left, at any
  -- time that is not before the clock and however old it is by then, changes nothing and gets the same
  -- answer.
  pub end_enrollment_again :
      (signed : Signed) (now later_time : ℤ) (db db1 : Db) (answer : Result Reply)
      → end_enrollment x t signed now db ≡ ok (db1, answer)
      → (db1.high_water ≤ℤ later_time)
      → end_enrollment x t signed later_time db1 ≡ ok (db1, answer)
  unfolding end_enrollment
  end_enrollment_again signed now later_time db db1 answer h later_on =
      let (on_time, h1) = transaction-bind-ok db now _ h in
      let (row, e2, h2) =
        ok_or-bind-ok (load_current_enrollment (at_time db now) signed.target) _ _ h1 in
      let ((u, e3), h3) =
        then-ok (verify_signature x signed row.enrollment.authorization_key) _ h2 in
      let scope = enrollment_scope row.enrollment in
      let r = sym (current-same db (at_time db now) signed.target refl) ∙ e2 in
      elim (Option-split (recorded_outcome (at_time db now) scope signed) _ _ h3) [
        | inl (_, h4) ↦ end_new-again signed now later_time db db1 row answer later_on r e3 h4
        | inr (was, e4, h4) ↦
            let (same, answered) = parts x t _ _ _ _ (ok-injective h4) in
            subst (λ d. end_enrollment x t signed later_time d ≡ ok (d, answer)) same
              (end-replays signed later_time db row was
                  (subst (λ d. d.high_water ≤ℤ later_time) (sym same) later_on) r e3
                  (recorded-at_time db now scope signed ∙ e4)
                ∙ ap (λ a. ok (db, a)) answered)
      ]
