-- ===== src/Store/Commit/Recovering.antt =====
-- How `begin_recovery`, `read_recovery` and `cancel_recovery` commit.
use onym_recovery_trustee.Prelude.{
  Bool, Bool-cases, Bytes, Option, arith, if◌then◌else◌, inl, inr, ltb_ℤ, none, refl, some,
  text_eq_iff, true, ℤ, ◌&&◌, ◌+ℤ◌, ◌-◌, ◌<◌, ◌==◌, ◌≡◌, ◌≤ℤ◌, ◌⊎◌,
}
use onym_recovery_trustee.Code.{
  Option-split, Result, bind-ok, err, ok, ok_or-bind-ok, recovery_cooling_down, recovery_expired,
  recovery_refused, recovery_vetoed, then-ok,
}
use onym_recovery_trustee.External.{External}
use onym_recovery_trustee.Json.{Json}
use onym_recovery_trustee.State.{
  Admission, Release, SessionStatus, admit, emit, release, released, resend,
}
use onym_recovery_trustee.State.Admitting.{admit_iff}
use onym_recovery_trustee.State.Releasing.{release_iff}
use onym_recovery_trustee.Store.{
  Db, EnrollmentRow, Reply, SessionRow, enrollment_facts, session_facts,
}
use onym_recovery_trustee.Store.Commit.{
  Commit, StartsAttempt, at_time, begun, polled, retried, served, stopped,
}
use onym_recovery_trustee.Store.Commit.Steps.{record_outcome-ok, transaction-bind-ok}
use onym_recovery_trustee.Store.Recovering.{
  attempt_status, begin_attempt, begin_new, begin_recovery, bound_to, by_holder, cancel_new,
  cancel_recovery, count_attempt, is_open, read_recovery, serve_release, set_session,
}
use onym_recovery_trustee.Store.Requests.{
  check_fresh, of_session, record_outcome, recorded_outcome, spend_nonce, verify_signature,
}
use onym_recovery_trustee.Store.Rows.{insert-ok}
use onym_recovery_trustee.Store.Tables.{
  by_session, current, find, insert, load_current_enrollment, load_enrollment, load_session,
}
use onym_recovery_trustee.Trustee.{Session, Trustee, binds}
use onym_recovery_trustee.Trustee.Accepting.{require-ok}
use onym_recovery_trustee.Trustee.Sessions.{
  check_factor, or_unavailable, release_contribution, verify_session,
}
use onym_recovery_trustee.Wire.{EnrollmentContext, Signed}
use onym_recovery_trustee.Wire.Documents.{canonical, digest}

module _ (x : External) (t : Trustee) where
  attempt-starts : (r : Result (Unit {0})) → StartsAttempt (attempt_status r)
  attempt-starts (ok u) = inl refl
  attempt-starts (err code) = inr refl

  begin_attempt-Commit :
      (db : Db) (row : EnrollmentRow) (session : Session) (admission : Admission) (now : ℤ)
      (db' : Db) (answer : Result Reply)
      → current row.enrollment.context.enrollment_id db.enrollments ≡ some row
      → row.attempts_used < row.enrollment.policy.maximum_attempts
      → admission.cooldown_ends_at ≡ now +ℤ row.enrollment.policy.cooldown_secs
      → begin_attempt x t (at_time db now) row session admission now ≡ ok (db', answer)
      → Commit t now db db'
  unfolding begin_attempt count_attempt
  begin_attempt-Commit db row session admission now db' answer found left cooled h =
      let (sessions, e1, h1) = bind-ok (insert (by_session session.session_id) _ db.sessions) _ h in
      let (free, added) = insert-ok (by_session session.session_id) _ db.sessions e1 in
      begun row
        (record {
          session_id = session.session_id;
          enrollment_id = row.enrollment.context.enrollment_id;
          sequence = row.enrollment.context.enrollment_sequence;
          status = attempt_status (check_factor x row.enrollment session);
          request = session.canonical;
          proof_key = session.proof_key;
          destination_keys_digest = session.destination_keys_digest;
          cooldown_ends_at = admission.cooldown_ends_at;
          expires_at = admission.expires_at;
          remaining_attempts = row.enrollment.policy.maximum_attempts - row.attempts_used - 1;
          created_at = now;
          contribution = none;
        })
        found left free refl refl (attempt-starts (check_factor x row.enrollment session)) refl refl
        cooled (ground arith)

  pub bound_to-some :
      (session : Session) (o : Option EnrollmentRow) (row : EnrollmentRow)
      → bound_to x t session o ≡ some row
      → (o ≡ some row) × (binds session row.enrollment.context ≡ true)
  bound_to-some session none row h = cc
  bound_to-some session (some r) row h = elim (Bool-cases (binds session r.enrollment.context)) [
    | inl bound ↦ (ground (arith, bound), ground (arith, bound))
    | inr unbound ↦ absurd (ground (arith, unbound))
  ]

  binds-id :
      (session : Session) (c : EnrollmentContext)
      → binds session c ≡ true
      → session.enrollment_id ≡ c.enrollment_id
  unfolding binds
  binds-id session c h = ground (arith, text_eq_iff session.enrollment_id c.enrollment_id)

  begin_new-Commit :
      (db : Db) (session : Session) (now : ℤ) (db' : Db) (answer : Result Reply)
      → begin_new x t (at_time db now) session now ≡ ok (db', answer)
      → Commit t now db db'
  unfolding begin_new load_current_enrollment
  begin_new-Commit db session now db' answer h =
      let (row, e1, h1) =
        ok_or-bind-ok (bound_to x t session (current session.enrollment_id db.enrollments)) _ _ h in
      let (found, bound) =
        bound_to-some session (current session.enrollment_id db.enrollments) row e1 in
      let (admission, e2, h2) =
        bind-ok
          (admit (enrollment_facts row) row.enrollment.policy row.attempts_used session.requested_at
            session.expires_at now t.limits.skew_secs)
          _ h1 in
      let a =
        (admit_iff (enrollment_facts row) row.enrollment.policy row.attempts_used
            session.requested_at session.expires_at now t.limits.skew_secs admission).0
          e2 in
      begin_attempt-Commit db row session admission now db' answer
        (rw (← binds-id session row.enrollment.context bound) found) a.attempts a.cooldown h2

  pub begin_recovery-Commit :
      (body : Json) (now : ℤ) (trial : Bytes) (db db' : Db) (answer : Result Reply)
      → begin_recovery x t body now trial db ≡ ok (db', answer)
      → (db.high_water ≤ℤ now) × Commit t now db db'
  unfolding begin_recovery
  begin_recovery-Commit body now trial db db' answer h =
      let (request, _, h1) = ok_or-bind-ok (x.decode_begin body) _ _ h in
      let (_, h2) = require-ok (request.request_version == 1) _ _ h1 in
      let (session, _, h3) = bind-ok (verify_session x trial (canonical x request.session)) _ h2 in
      let (on_time, h4) = transaction-bind-ok db now _ h3 in
      (
        on_time,
        elim (Option-split (load_session (at_time db now) session.session_id) _ _ h4) [
          | inl (_, h5) ↦ begin_new-Commit db session now db' answer h5
          | inr (row, _, h5) ↦ retried (ground arith)
        ],
      )

  -- What `serve_release` goes on with: the database as it was, or with the contribution stored.
  unfoldable pub Emits : Db → SessionRow → Result Release → Db → Type 0
  Emits tx session r tx' =
      (r ≡ ok emit)
      × ((contribution : Bytes) × (tx'
            ≡ set_session tx session.session_id
                (λ old. record old { status = released; contribution = some contribution })))

  pub serve_release-ok :
      (tx : Db) (row : EnrollmentRow) (session : SessionRow) (trial ephemeral : Bytes) (now : ℤ)
      (r : Result Release) (tx' : Db) (status : SessionStatus) (contribution : Option Bytes)
      → serve_release x t tx row session trial ephemeral now r ≡ ok (tx', status, contribution)
      → (tx' ≡ tx) ⊎ Emits tx session r tx'
  unfolding serve_release Emits
  serve_release-ok tx row session trial ephemeral now (ok emit) tx' status contribution h =
      let (sealed, _, h1) = ok_or-bind-ok row.sealed_envelope _ _ h in
      let (verified, _, h2) =
        bind-ok (or_unavailable (verify_session x trial session.request)) _ h1 in
      let (c, _, h3) =
        bind-ok (release_contribution x t ephemeral row.enrollment sealed verified now) _ h2 in
      inr (refl, (c.canonical, ground arith))
  serve_release-ok tx row session trial ephemeral now (ok resend) tx' status contribution h =
      inl (ground arith)
  serve_release-ok tx row session trial ephemeral now (err recovery_cooling_down) tx' status c h =
      inl (ground arith)
  serve_release-ok tx row session trial ephemeral now (err recovery_vetoed) tx' status c h =
      inl (ground arith)
  serve_release-ok tx row session trial ephemeral now (err recovery_refused) tx' status c h =
      inl (ground arith)
  serve_release-ok tx row session trial ephemeral now (err recovery_expired) tx' status c h =
      inl (ground arith)
  serve_release-ok tx row session trial ephemeral now (err code) tx' status c h = cc

  pub read_recovery-Commit :
      (signed : Signed) (now : ℤ) (trial ephemeral : Bytes) (db db' : Db) (answer : Result Reply)
      → read_recovery x t signed now trial ephemeral db ≡ ok (db', answer)
      → (db.high_water ≤ℤ now) × Commit t now db db'
  unfolding read_recovery Emits
  read_recovery-Commit signed now trial ephemeral db db' answer h =
      let (on_time, h1) = transaction-bind-ok db now _ h in
      let (session, e2, h2) = ok_or-bind-ok (load_session (at_time db now) signed.target) _ _ h1 in
      let (_, h3) = then-ok (verify_signature x signed session.proof_key) _ h2 in
      let ((u, fresh), h4) = then-ok (check_fresh signed t now) _ h3 in
      let (spent_db, e5, h5) =
        bind-ok (spend_nonce (at_time db now) (of_session signed.target) signed t now) _ h4 in
      let (row, e6, h6) =
        bind-ok (load_enrollment spent_db session.enrollment_id session.sequence) _ h5 in
      let ((served_db, status, contribution), e7, h7) =
        bind-ok
          (serve_release x t spent_db row session trial ephemeral now
            (release (enrollment_facts row) (session_facts session) now db.high_water))
          _ h6 in
      (
        on_time,
        elim (serve_release-ok spent_db row session trial ephemeral now _ served_db status
            contribution e7) [
              | inl same ↦ polled (of_session signed.target) signed fresh (ground (arith, same))
              | inr (emits, (c, stored)) ↦
                  served signed spent_db session row c fresh e5 (unfold load_session in e2)
                    ((release_iff _ _ _ _ emit).0 emits) (ground (arith, stored))
            ],
      )

  cancel_new-Commit :
      (db : Db) (session : SessionRow) (signed : Signed) (holder : Bool) (now : ℤ) (db' : Db)
      (answer : Result Reply)
      → find (by_session signed.target) db.sessions ≡ some session
      → cancel_new x t (at_time db now) session signed holder now ≡ ok (db', answer)
      → Commit t now db db'
  unfolding cancel_new
  cancel_new-Commit db session signed holder now db' answer found h =
      let (_, h1) = then-ok (check_fresh signed t now) _ h in
      let (recorded, e2, h2) =
        bind-ok (record_outcome _ (of_session signed.target) signed _ _ now) _ h1 in
      let (outcomes', e3) = record_outcome-ok _ _ _ _ _ now recorded e2 in
      stopped signed session holder (is_open session.status && ltb_ℤ now session.expires_at)
        outcomes' found (λ h. ground arith) (ground arith)

  pub cancel_recovery-Commit :
      (signed : Signed) (now : ℤ) (db db' : Db) (answer : Result Reply)
      → cancel_recovery x t signed now db ≡ ok (db', answer)
      → (db.high_water ≤ℤ now) × Commit t now db db'
  unfolding cancel_recovery
  cancel_recovery-Commit signed now db db' answer h =
      let (holder, _, h1) = bind-ok (by_holder x t signed.by) _ h in
      let (on_time, h2) = transaction-bind-ok db now _ h1 in
      let (session, e3, h3) = ok_or-bind-ok (load_session (at_time db now) signed.target) _ _ h2 in
      let (row, _, h4) =
        bind-ok (load_enrollment (at_time db now) session.enrollment_id session.sequence) _ h3 in
      let (_, h5) =
        then-ok
          (verify_signature x signed
            (if holder then row.enrollment.authorization_key else session.proof_key))
          _ h4 in
      (
        on_time,
        elim (Option-split (recorded_outcome (at_time db now) (of_session signed.target) signed) _ _
            h5) [
              | inl (_, h6) ↦
                  cancel_new-Commit db session signed holder now db' answer
                    (unfold load_session in e3) h6
              | inr (digest, _, h6) ↦ retried (ground arith)
            ],
      )
