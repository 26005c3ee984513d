-- ===== src/Store/EnrollingAgain/Recorded.antt =====
-- src/store.rs: what an `enroll` that is answered with a receipt leaves in the database.
use mathlib.Core.Path.{subst}
use onym_recovery_trustee.Prelude.{
  Bytes, Option, Text, [], ap, arith, inl, inr, none, refl, some, sym, text_eq, text_eq_refl, ℤ,
  ◌++◌, ◌∙◌, ◌∷◌, ◌≡◌,
}
use onym_recovery_trustee.Code.{Option-split, bind-ok, ok, ok-injective, ok_or-bind-ok, then-ok}
use onym_recovery_trustee.External.{External}
use onym_recovery_trustee.Json.{Json}
use onym_recovery_trustee.State.{accepted}
use onym_recovery_trustee.Store.{Db, EnrollmentRow, Reply}
use onym_recovery_trustee.Store.Commit.{at_time}
use onym_recovery_trustee.Store.Commit.Steps.{transaction-bind-ok}
use onym_recovery_trustee.Store.Disclosure.{parts}
use onym_recovery_trustee.Store.Enrolling.{
  enroll, enroll_again, enroll_new, enrollment_taken, sealed_of, store_enrollment,
}
use onym_recovery_trustee.Store.Receipts.{enrollment_receipt}
use onym_recovery_trustee.Store.Rows.{find-last, insert-ok}
use onym_recovery_trustee.Store.Tables.{
  enrolled_with, find, insert, load_current_enrollment, redeemable, spend_challenge,
}
use onym_recovery_trustee.Trustee.{Enrollment, Trustee, accept_enrollment, check_artifact, key_id}
use onym_recovery_trustee.Trustee.Accepting.{require-ok}
use onym_recovery_trustee.Wire.{EnrollRequest}
use onym_recovery_trustee.Wire.Documents.{canonical, digest}

module _ (x : External) (t : Trustee) where
  -- The row that `enroll` stores.
  abbrev stored_row : EnrollRequest → Text → Bytes → Bytes → Enrollment → ℤ → EnrollmentRow
  stored_row form request_digest sealed artifact enrollment now = record {
    enrollment_id = form.context.enrollment_id;
    sequence = form.context.enrollment_sequence;
    status = accepted;
    challenge = form.context.trustee_challenge;
    request_digest = request_digest;
    enrollment = enrollment;
    attempts_used = 0;
    stored_at = now;
    sealed_envelope = some sealed;
    protected_artifact = some artifact;
  }

  enroll_again-stored :
      (db : Db) (form : EnrollRequest) (request_digest : Text) (sealed artifact : Bytes)
      (enrollment : Enrollment) (now : ℤ)
      → enroll_again x t db
          (stored_row form request_digest sealed artifact enrollment now)
          request_digest
          sealed
          artifact
        ≡ enrollment_receipt x t db form.context.trustee_challenge sealed artifact
  unfolding enroll_again
  enroll_again-stored db form request_digest sealed artifact enrollment now =
      rw (text_eq_refl request_digest) refl

  -- An enrollment that is stored is answered with its receipt.
  store_enrollment-stored :
      (tx db1 : Db) (existing : Option EnrollmentRow) (row : EnrollmentRow) (invitation : Text)
      (sealed artifact : Bytes) (now : ℤ) (reply : Reply)
      → find (enrolled_with row.challenge) tx.enrollments ≡ none
      → store_enrollment x t tx existing row invitation sealed artifact now ≡ ok (db1, ok reply)
      → (find (enrolled_with row.challenge) db1.enrollments ≡ some row)
        × (enrollment_receipt x t db1 row.challenge sealed artifact ≡ ok reply)
  unfolding store_enrollment spend_challenge
  store_enrollment-stored tx db1 (some existing) row invitation sealed artifact now reply free h =
      absurd (ground arith)
  store_enrollment-stored tx db1 none row invitation sealed artifact now reply free h =
      let (rows, e1, h1) = bind-ok (insert (enrollment_taken row) row tx.enrollments) _ h in
      let (_, added) = insert-ok (enrollment_taken row) row tx.enrollments e1 in
      let (committed, answered) = parts x t _ _ _ _ (ok-injective h1) in
      let stored : db1.enrollments ≡ tx.enrollments ++ row ∷ [] =
        sym (ap (λ (d : Db). d.enrollments) committed) ∙ added in
      (
        ap (find (enrolled_with row.challenge)) stored
            ∙ find-last (enrolled_with row.challenge) tx.enrollments row free
                (text_eq_refl row.challenge),
        ap (λ d. enrollment_receipt x t d row.challenge sealed artifact) (sym committed) ∙ answered,
      )

  enroll_new-stored :
      (db db1 : Db) (form : EnrollRequest) (request_digest : Text) (sealed artifact : Bytes)
      (now : ℤ) (reply : Reply)
      → find (enrolled_with form.context.trustee_challenge) db.enrollments ≡ none
      → enroll_new x t (at_time db now) form request_digest sealed artifact now ≡ ok (db1, ok reply)
      → (e : Enrollment) × (find (enrolled_with form.context.trustee_challenge) db1.enrollments
          ≡ some (stored_row form request_digest sealed artifact e now))
        × (enrollment_receipt x t db1 form.context.trustee_challenge sealed artifact ≡ ok reply)
  unfolding enroll_new
  enroll_new-stored db db1 form request_digest sealed artifact now reply free h =
      let context = form.context in
      let (invitation, _, h1) =
        ok_or-bind-ok (redeemable (at_time db now) context.trustee_challenge now) _ _ h in
      let (_, h2) = require-ok (text_eq form.trustee_key_id (key_id x t)) _ _ h1 in
      let (e, _, h3) = bind-ok (accept_enrollment x t context sealed now) _ h2 in
      let (_, h4) = then-ok (check_artifact x t.limits e artifact) _ h3 in
      let (found, answered) =
        store_enrollment-stored (at_time db now) db1
          (load_current_enrollment (at_time db now) context.enrollment_id)
          (stored_row form request_digest sealed artifact e now) invitation sealed artifact now
          reply free h4 in
      (e, found, answered)

  -- What an enroll that is answered with a receipt leaves: a row from which the same receipt is built.
  pub record Recorded (body : Json) (db : Db) (reply : Reply) : Type 0 where
    pub form : EnrollRequest
    pub sealed : Bytes
    pub row : EnrollmentRow
    pub decoded : x.decode_enroll body ≡ some form
    pub opened : sealed_of x t form (x.base64_decode form.sealed_envelope) ≡ some sealed
    pub found : find (enrolled_with form.context.trustee_challenge) db.enrollments ≡ some row
    pub answered :
        enroll_again x t db row
          (digest x (canonical x body))
          sealed
          (canonical x form.protected_artifact)
        ≡ ok reply

  pub enroll-Recorded :
      (body : Json) (now : ℤ) (db db1 : Db) (reply : Reply)
      → enroll x t body now db ≡ ok (db1, ok reply)
      → Recorded body db1 reply
  unfolding enroll
  enroll-Recorded body now db db1 reply h =
      let request_digest = digest x (canonical x body) in
      let (form, d, h1) = ok_or-bind-ok (x.decode_enroll body) _ _ h in
      let (sealed, s, h2) =
        ok_or-bind-ok (sealed_of x t form (x.base64_decode form.sealed_envelope)) _ _ h1 in
      let artifact = canonical x form.protected_artifact in
      let challenge = form.context.trustee_challenge in
      let (on_time, h3) = transaction-bind-ok db now _ h2 in
      elim (Option-split (find (enrolled_with challenge) db.enrollments) _ _ h3) [
        | inr (row, found, h4) ↦
            let (same, answered) = parts x t _ _ _ _ (ok-injective h4) in
            record {
              form = form;
              sealed = sealed;
              row = row;
              decoded = d;
              opened = s;
              found =
                  ap (λ (c : Db). find (enrolled_with challenge) c.enrollments) (sym same) ∙ found;
              answered =
                  subst (λ c. enroll_again x t c row request_digest sealed artifact ≡ ok reply) same
                    answered;
            }
        | inl (free, h4) ↦
            let (e, found, answered) =
              enroll_new-stored db db1 form request_digest sealed artifact now reply free h4 in
            record {
              form = form;
              sealed = sealed;
              row = stored_row form request_digest sealed artifact e now;
              decoded = d;
              opened = s;
              found = found;
              answered =
                  enroll_again-stored db1 form request_digest sealed artifact e now ∙ answered;
            }
      ]
