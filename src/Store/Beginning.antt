-- ===== src/Store/Beginning.antt =====
-- src/store.rs: where a session that `begin_recovery` stores comes from.
use mathlib.Core.Path.{subst}
use onym_recovery_trustee.Prelude.{
  Bool-cases, Bytes, Text, [], ap, arith, inl, inr, none, refl, some, sym, true, ℤ, ◌++◌, ◌-◌, ◌==◌,
  ◌∙◌, ◌∷◌, ◌≡◌, ◌⊎◌,
}
use onym_recovery_trustee.Code.{
  Option-split, Result, bind-ok, err, ok, ok_or-bind-ok, some-injective,
}
use onym_recovery_trustee.External.{External}
use onym_recovery_trustee.Json.{Json}
use onym_recovery_trustee.State.{Admission, admit, cooling_down, refused}
use onym_recovery_trustee.State.Admitting.{Admissible, admit_iff}
use onym_recovery_trustee.Store.{Db, EnrollmentRow, Reply, SessionRow, enrollment_facts}
use onym_recovery_trustee.Store.Commit.{at_time}
use onym_recovery_trustee.Store.Commit.Recovering.{bound_to-some}
use onym_recovery_trustee.Store.Commit.Steps.{transaction-bind-ok}
use onym_recovery_trustee.Store.Recovering.{
  attempt_status, begin_attempt, begin_new, begin_recovery, bound_to, count_attempt,
}
use onym_recovery_trustee.Store.Rows.{find-append-none, find-last, insert-ok}
use onym_recovery_trustee.Store.Tables.{
  by_session, current, find, insert, load_current_enrollment, load_session,
}
use onym_recovery_trustee.Trustee.{Enrollment, Session, Trustee, binds}
use onym_recovery_trustee.Trustee.Accepting.{require-ok}
use onym_recovery_trustee.Trustee.Factors.{HasFactor, check_factor-HasFactor}
use onym_recovery_trustee.Trustee.Sessions.{check_factor, verify_session}
use onym_recovery_trustee.Trustee.Verifying.{IsVerified, verify_session-IsVerified}
use onym_recovery_trustee.Wire.{BeginRequest}
use onym_recovery_trustee.Wire.Documents.{canonical}

-- The row that `begin_recovery` stores for a session.
abbrev pub row_of : External → EnrollmentRow → Session → Admission → ℤ → SessionRow
row_of x row session admission now = record {
  session_id = session.session_id;
  enrollment_id = row.enrollment.context.enrollment_id;
  sequence = row.enrollment.context.enrollment_sequence;
  status = attempt_status (check_factor x row.enrollment session);
  request = session.canonical;
  proof_key = session.proof_key;
  destination_keys_digest = session.destination_keys_digest;
  cooldown_ends_at = admission.cooldown_ends_at;
  expires_at = admission.expires_at;
  remaining_attempts = row.enrollment.policy.maximum_attempts - row.attempts_used - 1;
  created_at = now;
  contribution = none;
}

-- What stands behind a stored session.
pub record Begun (x : External) (t : Trustee) (now : ℤ) (db : Db) (body : Json) (trial : Bytes)
    (s : SessionRow) : Type 0 where
  pub begin : BeginRequest
  pub decoded : x.decode_begin body ≡ some begin
  pub session : Session
  pub row : EnrollmentRow
  pub admission : Admission
  pub verified : IsVerified x trial (canonical x begin.session) session
  pub enrolled : load_current_enrollment db session.enrollment_id ≡ some row
  pub binding : binds session row.enrollment.context ≡ true
  pub admissible :
      Admissible
        (enrollment_facts row)
        row.enrollment.policy
        row.attempts_used
        session.requested_at
        session.expires_at
        now
        t.limits.skew_secs
        admission
  pub stored : s ≡ row_of x row session admission now
  -- It cools down only if the enrolled factor signed it, and is refused otherwise.
  pub factor :
      ((s.status ≡ cooling_down) × HasFactor x row.enrollment session) ⊎ (s.status ≡ refused)

attempt_status-cases :
    (x : External) (e : Enrollment) (s : Session)
    → ((attempt_status (check_factor x e s) ≡ cooling_down) × HasFactor x e s)
      ⊎ (attempt_status (check_factor x e s) ≡ refused)
attempt_status-cases x e s = go (check_factor x e s) refl
  where
    go :
        (r : Result (Unit {0}))
        → check_factor x e s ≡ r
        → ((attempt_status r ≡ cooling_down) × HasFactor x e s) ⊎ (attempt_status r ≡ refused)
    go (ok tt) h = inl (refl, check_factor-HasFactor x e s h)
    go (err code) h = inr refl

module _ (x : External) (t : Trustee) (now : ℤ) (db db' : Db) (id : Text) (s : SessionRow) where
  -- The session that is found after a row was added is that row.
  added-row :
      (new : SessionRow)
      → load_session db id ≡ none
      → load_session db' id ≡ some s
      → db'.sessions ≡ db.sessions ++ new ∷ []
      → new ≡ s
  unfolding load_session
  added-row new free found e = elim (Bool-cases (by_session id new)) [
    | inr miss ↦
        absurd
          (ground (arith, find-append-none (by_session id) db.sessions new free miss, e, found))
    | inl hit ↦ some-injective (
        sym (find-last (by_session id) db.sessions new free hit)
        ∙ (sym (ap (find (by_session id)) e) ∙ found))
  ]

  begin_attempt-row :
      (row : EnrollmentRow) (session : Session) (admission : Admission) (answer : Result Reply)
      → load_session db id ≡ none
      → load_session db' id ≡ some s
      → begin_attempt x t (at_time db now) row session admission now ≡ ok (db', answer)
      → row_of x row session admission now ≡ s
  unfolding begin_attempt count_attempt
  begin_attempt-row row session admission answer free found h =
      let (sessions', e1, h1) =
        bind-ok (insert (by_session session.session_id) _ db.sessions) _ h in
      let (_, added) = insert-ok (by_session session.session_id) _ db.sessions e1 in
      added-row (row_of x row session admission now) free found (ground arith)

  begin_new-Begun :
      (body : Json) (begin : BeginRequest) (trial : Bytes) (session : Session)
      (answer : Result Reply)
      → x.decode_begin body ≡ some begin
      → IsVerified x trial (canonical x begin.session) session
      → load_session db id ≡ none
      → load_session db' id ≡ some s
      → begin_new x t (at_time db now) session now ≡ ok (db', answer)
      → Begun x t now db body trial s
  unfolding begin_new load_current_enrollment
  begin_new-Begun body begin trial session answer decoded verified free found h =
      let (row, e1, h1) =
        ok_or-bind-ok (bound_to x t session (current session.enrollment_id db.enrollments)) _ _ h in
      let (enrolled, bound) =
        bound_to-some x t session (current session.enrollment_id db.enrollments) row e1 in
      let (admission, e2, h2) =
        bind-ok
          (admit (enrollment_facts row) row.enrollment.policy row.attempts_used session.requested_at
            session.expires_at now t.limits.skew_secs)
          _ h1 in
      let stored = begin_attempt-row row session admission answer free found h2 in
      record {
        begin = begin;
        decoded = decoded;
        session = session;
        row = row;
        admission = admission;
        verified = verified;
        enrolled = enrolled;
        binding = bound;
        admissible =
            (admit_iff (enrollment_facts row) row.enrollment.policy row.attempts_used
                session.requested_at session.expires_at now t.limits.skew_secs admission).0
              e2;
        stored = sym stored;
        factor =
            subst
              (λ (r : SessionRow).
                ((r.status ≡ cooling_down) × HasFactor x row.enrollment session)
                ⊎ (r.status ≡ refused))
              stored (attempt_status-cases x row.enrollment session);
      }

  -- A session that is stored by `begin_recovery` is of a request that the candidate's key signed, binds
  -- to the current enrollment under its ID, and was admitted; its row has the request's keys and the
  -- admission's deadlines, and it cools down only if the enrolled factor signed it for this trustee and
  -- slot, and is refused otherwise.
  pub begin_recovery-Begun :
      (body : Json) (trial : Bytes) (answer : Result Reply)
      → load_session db id ≡ none
      → load_session db' id ≡ some s
      → begin_recovery x t body now trial db ≡ ok (db', answer)
      → Begun x t now db body trial s
  unfolding begin_recovery
  begin_recovery-Begun body trial answer free found h =
      let (begin, decoded, h1) = ok_or-bind-ok (x.decode_begin body) _ _ h in
      let (_, h2) = require-ok (begin.request_version == 1) _ _ h1 in
      let raw = canonical x begin.session in
      let (session, v, h3) = bind-ok (verify_session x trial raw) _ h2 in
      let (on_time, h4) = transaction-bind-ok db now _ h3 in
      elim (Option-split (load_session (at_time db now) session.session_id) _ _ h4) [
        | inl (_, h5) ↦
            begin_new-Begun body begin trial session answer decoded
              (verify_session-IsVerified x trial raw session v) free found h5
        | inr (row, _, h5) ↦ absurd (ground (arith, h5, free, found))
      ]
