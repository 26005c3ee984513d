-- ===== src/Store/Commit/Enrolling.antt =====
-- How `issue_challenge`, `enroll` and `read_enrollment` commit.
use onym_recovery_trustee.Prelude.{
  Bool-cases, Bytes, Option, Text, ap, arith, inl, inr, ltb, none, pos, refl, some, sym, text_eq, ℤ,
  ◌&&◌, ◌+ℤ◌, ◌==◌, ◌≡◌, ◌≤ℤ◌,
}
use onym_recovery_trustee.Code.{Option-split, Result, bind-ok, ok, ok_or-bind-ok, then-ok}
use onym_recovery_trustee.External.{External}
use onym_recovery_trustee.Json.{Json}
use onym_recovery_trustee.State.{accepted}
use onym_recovery_trustee.Store.{Db, EnrollmentRow, Reply}
use onym_recovery_trustee.Store.Commit.{
  Commit, at_time, challenged, enrolled, polled, retried, spent,
}
use onym_recovery_trustee.Store.Commit.Steps.{transaction-bind-ok}
use onym_recovery_trustee.Store.Enrolling.{
  challenge_lifetime_secs, enroll, enroll_new, enrollment_taken, issue_challenge,
  max_open_challenges, notices, read_enrollment, sealed_of, store_enrollment,
}
use onym_recovery_trustee.Store.Requests.{
  check_fresh, enrollment_scope, random_id, spend_nonce, verify_signature,
}
use onym_recovery_trustee.Store.Rows.{insert-ok}
use onym_recovery_trustee.Store.Tables.{
  by_challenge, current, enrolled_with, find, insert, load_current_enrollment, load_sessions,
  open_challenges, redeemable,
}
use onym_recovery_trustee.Trustee.{Enrollment, Trustee, accept_enrollment, check_artifact, key_id}
use onym_recovery_trustee.Trustee.Accepting.{accept_enrollment-Accepted, require-ok}
use onym_recovery_trustee.Wire.{EnrollRequest, EnrollmentContext, Signed}
use onym_recovery_trustee.Wire.Documents.{digest}
use onym_recovery_trustee.Wire.Encoding.{hex32, is_some}

module _ (x : External) (t : Trustee) where
  pub issue_challenge-Commit :
      (body : Json) (now : ℤ) (random : Option Bytes) (db db' : Db) (answer : Result Reply)
      → issue_challenge x t body now random db ≡ ok (db', answer)
      → (db.high_water ≤ℤ now) × Commit t now db db'
  unfolding issue_challenge
  issue_challenge-Commit body now random db db' answer h =
      let (request, _, h1) = ok_or-bind-ok (x.decode_challenge body) _ _ h in
      let (_, h2) =
        require-ok
          (request.request_version == 1
            && text_eq request.component_id t.component_id
            && is_some (hex32 x request.invitation))
          _ _ h1 in
      let (challenge, _, h3) = bind-ok (random_id x random) _ h2 in
      let (on_time, h4) = transaction-bind-ok db now _ h3 in
      let (open_now, _, h5) =
        ok_or-bind-ok (open_challenges (at_time db now) (digest x request.invitation) now) _ _ h4 in
      let (_, h6) = require-ok (ltb open_now max_open_challenges) _ _ h5 in
      let (challenges', added, h7) =
        bind-ok (insert (by_challenge challenge) _ db.challenges) _ h6 in
      let (free, e) = insert-ok (by_challenge challenge) _ db.challenges added in
      (
        on_time,
        challenged
            (record {
              challenge = challenge;
              invitation = digest x request.invitation;
              expires_at = now +ℤ pos challenge_lifetime_secs;
              used_at = none;
            })
            refl free (ground arith),
      )

  store_enrollment-Commit :
      (db : Db) (now : ℤ) (row : EnrollmentRow) (invitation : Text) (sealed artifact : Bytes)
      (existing : Option EnrollmentRow) (db' : Db) (answer : Result Reply)
      → redeemable db row.challenge now ≡ some invitation
      → current row.enrollment_id db.enrollments ≡ existing
      → row.status ≡ accepted
      → row.attempts_used ≡ 0
      → row.enrollment_id ≡ row.enrollment.context.enrollment_id
      → row.sequence ≡ row.enrollment.context.enrollment_sequence
      → store_enrollment x t (at_time db now) existing row invitation sealed artifact now
        ≡ ok (db', answer)
      → Commit t now db db'
  unfolding store_enrollment
  store_enrollment-Commit db now row invitation sealed artifact (some e) db' answer r c a n i q h =
      elim (Bool-cases (text_eq e.enrollment.authorization_key row.enrollment.authorization_key)) [
        | inl same ↦ absurd (ground (arith, same))
        | inr other ↦ spent row.challenge invitation r (ground (arith, other))
      ]
  store_enrollment-Commit db now row invitation sealed artifact none db' answer r c a n i q h =
      let (rows, added, h1) = bind-ok (insert (enrollment_taken row) row db.enrollments) _ h in
      let (free, e) = insert-ok (enrollment_taken row) row db.enrollments added in
      enrolled row invitation r free c a n i q (ground arith)

  -- The row that `enroll` stores for an enrollment that it accepts.
  abbrev new_row : EnrollRequest → Text → Enrollment → Bytes → Bytes → ℤ → EnrollmentRow
  new_row request request_digest enrollment sealed artifact now = record {
    enrollment_id = request.context.enrollment_id;
    sequence = request.context.enrollment_sequence;
    status = accepted;
    challenge = request.context.trustee_challenge;
    request_digest = request_digest;
    enrollment = enrollment;
    attempts_used = 0;
    stored_at = now;
    sealed_envelope = some sealed;
    protected_artifact = some artifact;
  }

  enroll_new-Commit :
      (db : Db) (request : EnrollRequest) (request_digest : Text) (sealed artifact : Bytes)
      (now : ℤ) (db' : Db) (answer : Result Reply)
      → enroll_new x t (at_time db now) request request_digest sealed artifact now
        ≡ ok (db', answer)
      → Commit t now db db'
  unfolding enroll_new redeemable load_current_enrollment
  enroll_new-Commit db request request_digest sealed artifact now db' answer h =
      let c = request.context in
      let (invitation, e1, h1) =
        ok_or-bind-ok (redeemable (at_time db now) c.trustee_challenge now) _ _ h in
      let (_, h2) = require-ok (text_eq request.trustee_key_id (key_id x t)) _ _ h1 in
      let (enrollment, e3, h3) = bind-ok (accept_enrollment x t c sealed now) _ h2 in
      let (_, h4) = then-ok (check_artifact x t.limits enrollment artifact) _ h3 in
      let kept =
        (accept_enrollment-Accepted x t c sealed now enrollment e3).admitted.same_context in
      store_enrollment-Commit db now (new_row request request_digest enrollment sealed artifact now)
        invitation sealed artifact (load_current_enrollment (at_time db now) c.enrollment_id) db'
        answer e1 refl refl refl (ap (λ (k : EnrollmentContext). k.enrollment_id) (sym kept))
        (ap (λ (k : EnrollmentContext). k.enrollment_sequence) (sym kept)) h4

  pub enroll-Commit :
      (body : Json) (now : ℤ) (db db' : Db) (answer : Result Reply)
      → enroll x t body now db ≡ ok (db', answer)
      → (db.high_water ≤ℤ now) × Commit t now db db'
  unfolding enroll
  enroll-Commit body now db db' answer h =
      let (request, _, h1) = ok_or-bind-ok (x.decode_enroll body) _ _ h in
      let (sealed, _, h2) =
        ok_or-bind-ok (sealed_of x t request (x.base64_decode request.sealed_envelope)) _ _ h1 in
      let (on_time, h3) = transaction-bind-ok db now _ h2 in
      (
        on_time,
        elim (Option-split (find (enrolled_with request.context.trustee_challenge) db.enrollments) _
            _ h3) [
              | inl (_, h4) ↦ enroll_new-Commit db request _ sealed _ now db' answer h4
              | inr (row, _, h4) ↦ retried (ground arith)
            ],
      )

  pub read_enrollment-Commit :
      (signed : Signed) (now : ℤ) (db db' : Db) (answer : Result Reply)
      → read_enrollment x t signed now db ≡ ok (db', answer)
      → (db.high_water ≤ℤ now) × Commit t now db db'
  unfolding read_enrollment
  read_enrollment-Commit signed now db db' answer h =
      let (on_time, h1) = transaction-bind-ok db now _ h in
      let (row, _, h2) =
        ok_or-bind-ok (load_current_enrollment (at_time db now) signed.target) _ _ h1 in
      let (_, h3) = then-ok (verify_signature x signed row.enrollment.authorization_key) _ h2 in
      let ((u, fresh), h4) = then-ok (check_fresh signed t now) _ h3 in
      let (spent_db, e5, h5) =
        bind-ok (spend_nonce (at_time db now) (enrollment_scope row.enrollment) signed t now) _
          h4 in
      let (sessions, _, h6) =
        bind-ok (notices x t (load_sessions spent_db row.enrollment) now) _ h5 in
      (on_time, polled (enrollment_scope row.enrollment) signed (ground arith) (ground arith))
