-- ===== src/Store/EnrollingAgain.antt =====
-- src/store.rs: an `enroll` that is sent again.
mod Recorded
use mathlib.Core.Path.{subst}
use onym_recovery_trustee.Store.EnrollingAgain.Recorded.{enroll-Recorded}
use onym_recovery_trustee.Prelude.{
  Bytes, Option, Text, [], ap, arith, false, if◌then◌else◌, inl, inr, none, refl, some, sym,
  text_eq, text_eq_iff, text_eq_refl, true, ℤ, ◌++◌, ◌∙◌, ◌∷◌, ◌≡◌, ◌≤ℤ◌,
}
use onym_recovery_trustee.Code.{
  Option-split, Result, bind-ok, enrollment_revoked, err, ok, ok-injective, ok_or-bind-ok, then-ok,
}
use onym_recovery_trustee.External.{External}
use onym_recovery_trustee.Json.{Json}
use onym_recovery_trustee.State.{accepted}
use onym_recovery_trustee.Store.{Db, EnrollmentRow, Reply, transaction}
use onym_recovery_trustee.Store.Commit.{at_time}
use onym_recovery_trustee.Store.Commit.Steps.{transaction-bind-ok}
use onym_recovery_trustee.Store.Disclosure.{parts}
use onym_recovery_trustee.Store.Enrolling.{
  enroll, enroll_again, enroll_new, enrollment_taken, sealed_of, store_enrollment,
}
use onym_recovery_trustee.Store.Keeping.{Kept, Stored-Run}
use onym_recovery_trustee.Store.Runs.{Run}
use onym_recovery_trustee.Store.Tombstones.{is_over}
use onym_recovery_trustee.Store.Receipts.{enrollment_receipt}
use onym_recovery_trustee.Store.Rows.{find-last, find_sound, insert-ok}
use onym_recovery_trustee.Store.Tables.{
  enrolled_with, find, insert, load_current_enrollment, redeemable, spend_challenge,
}
use onym_recovery_trustee.Trustee.{Enrollment, Trustee, accept_enrollment, check_artifact, key_id}
use onym_recovery_trustee.Trustee.Accepting.{require-ok}
use onym_recovery_trustee.Wire.{EnrollRequest}
use onym_recovery_trustee.Wire.Documents.{canonical, digest}

-- The answer to a recorded request whose enrollment may be over by now.
abbrev pub answer_by_now : EnrollmentRow → Reply → Result Reply
answer_by_now row reply = if is_over row.status then err enrollment_revoked else ok reply

module _ (x : External) (t : Trustee) where
  -- A challenge that has enrolled is answered from the record.
  enroll-replays :
      (body : Json) (form : EnrollRequest) (sealed : Bytes) (later_time : ℤ) (db : Db)
      (row : EnrollmentRow)
      → x.decode_enroll body ≡ some form
      → sealed_of x t form (x.base64_decode form.sealed_envelope) ≡ some sealed
      → (db.high_water ≤ℤ later_time)
      → find (enrolled_with form.context.trustee_challenge) db.enrollments ≡ some row
      → enroll x t body later_time db
        ≡ ok (
          db,
          enroll_again x t db row
              (digest x (canonical x body))
              sealed
              (canonical x form.protected_artifact),
        )
  unfolding enroll transaction
  enroll-replays body form sealed later_time db row d s on_time found =
      ground (arith, d, s, on_time, found)

  -- A recorded request is answered with a receipt only while the enrollment is not over.
  enroll_again-live :
      (db : Db) (row : EnrollmentRow) (request_digest : Text) (sealed artifact : Bytes)
      (reply : Reply)
      → enroll_again x t db row request_digest sealed artifact ≡ ok reply
      → (text_eq row.request_digest request_digest ≡ true)
        × (is_over row.status ≡ false)
        × (enrollment_receipt x t db row.challenge sealed artifact ≡ ok reply)
  unfolding enroll_again
  enroll_again-live db row request_digest sealed artifact reply h = ground (arith, h)

  enrollment_receipt-Kept :
      (db db' : Db) (row row' : EnrollmentRow) (challenge : Text) (sealed artifact : Bytes)
      → find (enrolled_with challenge) db.enrollments ≡ some row
      → find (enrolled_with challenge) db'.enrollments ≡ some row'
      → Kept row row'
      → is_over row'.status ≡ false
      → enrollment_receipt x t db' challenge sealed artifact
        ≡ enrollment_receipt x t db challenge sealed artifact
  unfolding enrollment_receipt
  enrollment_receipt-Kept db db' row row' challenge sealed artifact found found' kept live =
      elim kept.custody [
        | inl over ↦ absurd (ground (arith, over, live))
        | inr (_, same_sealed, same_artifact) ↦
            rw (found, found', same_sealed, same_artifact, kept.same_enrollment, kept.same_time)
              refl
      ]

  enroll_again-over :
      (db : Db) (row : EnrollmentRow) (request_digest : Text) (sealed artifact : Bytes)
      (answer : Result Reply)
      → text_eq row.request_digest request_digest ≡ true
      → (is_over row.status ≡ false
          → enrollment_receipt x t db row.challenge sealed artifact ≡ answer)
      → enroll_again x t db row request_digest sealed artifact
        ≡ (if is_over row.status then err enrollment_revoked else answer)
  unfolding enroll_again
  enroll_again-over db row request_digest sealed artifact answer same live =
      ground (arith, same, live)

  -- An enrollment request that is answered with a receipt and sent again, after any requests and
  -- invitations and at any time not before the clock then, needs no challenge any more and changes
  -- nothing: it gets the same receipt, or enrollment_revoked when the enrollment that it stored, which
  -- is still recorded under its challenge, has been revoked or closed in between.
  pub enroll_again_same :
      (body : Json) (now later_time : ℤ) (db db1 db2 : Db) (reply : Reply)
      → enroll x t body now db ≡ ok (db1, ok reply)
      → Run x t db1 db2
      → (db2.high_water ≤ℤ later_time)
      → (form : EnrollRequest) × (row : EnrollmentRow) × (x.decode_enroll body ≡ some form)
        × (find (enrolled_with form.context.trustee_challenge) db2.enrollments ≡ some row)
        × (enroll x t body later_time db2 ≡ ok (db2, answer_by_now row reply))
  enroll_again_same body now later_time db db1 db2 reply h run later_on =
      let r = enroll-Recorded x t body now db db1 reply h in
      let challenge = r.form.context.trustee_challenge in
      let artifact = canonical x r.form.protected_artifact in
      let (same, live, receipt) =
        enroll_again-live db1 r.row _ r.sealed artifact reply r.answered in
      let (row, found, kept) =
        Stored-Run x t (enrolled_with challenge)
          (record { counting = λ q n. refl; burying = λ q s. refl }) db1 db2 r.row r.found run in
      let own =
        (text_eq_iff r.row.challenge challenge).0
          (find_sound (enrolled_with challenge) db1.enrollments r.row r.found) in
      (
        r.form,
        row,
        r.decoded,
        found,
        enroll-replays body r.form r.sealed later_time db2 row r.decoded r.opened later_on found
            ∙ ap (λ a. ok (db2, a))
                (enroll_again-over db2 row (digest x (canonical x body)) r.sealed artifact
                  (ok reply) (rw kept.same_digest same)
                  (λ on.
                    rw (kept.same_challenge, own)
                      (enrollment_receipt-Kept db1 db2 r.row row challenge r.sealed artifact r.found
                          found kept on
                        ∙ rw own at receipt))),
      )
