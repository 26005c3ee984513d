-- ===== src/Store/BeginningAgain/Recorded.antt =====
-- src/store.rs: what a `begin-recovery` that is answered with a receipt leaves in the database.
use mathlib.Core.Path.{subst}
use onym_recovery_trustee.Prelude.{
  Bytes, [], ap, inl, inr, refl, some, sym, text_eq_refl, true, ℤ, ◌++◌, ◌==◌, ◌∙◌, ◌∷◌, ◌≡◌,
}
use onym_recovery_trustee.Code.{Option-split, Result, bind-ok, ok, ok-injective, ok_or-bind-ok}
use onym_recovery_trustee.External.{External}
use onym_recovery_trustee.Json.{Json}
use onym_recovery_trustee.State.{Admission, admit}
use onym_recovery_trustee.Store.{Db, EnrollmentRow, Reply, SessionRow, enrollment_facts}
use onym_recovery_trustee.Store.Beginning.{row_of}
use onym_recovery_trustee.Store.Commit.{at_time}
use onym_recovery_trustee.Store.Commit.Steps.{transaction-bind-ok}
use onym_recovery_trustee.Store.Disclosure.{find-at_time, parts}
use onym_recovery_trustee.Store.Receipts.{session_receipt}
use onym_recovery_trustee.Store.Recovering.{
  begin_again, begin_attempt, begin_new, begin_recovery, bound_to, count_attempt,
}
use onym_recovery_trustee.Store.Rows.{find-last, insert-ok}
use onym_recovery_trustee.Store.Tables.{
  by_session, find, insert, load_current_enrollment, load_session,
}
use onym_recovery_trustee.Trustee.{Session, Trustee}
use onym_recovery_trustee.Trustee.Accepting.{require-ok}
use onym_recovery_trustee.Trustee.Sessions.{verify_session}
use onym_recovery_trustee.Wire.{BeginRequest}
use onym_recovery_trustee.Wire.Documents.{canonical}

module _ (x : External) (t : Trustee) where
  -- What an attempt that commits stores, and answers.
  begin_attempt-stored :
      (db db1 : Db) (row : EnrollmentRow) (session : Session) (admission : Admission) (now : ℤ)
      (answer : Result Reply)
      → begin_attempt x t (at_time db now) row session admission now ≡ ok (db1, answer)
      → (load_session db1 session.session_id ≡ some (row_of x row session admission now))
        × (answer ≡ session_receipt x t db1 session.session_id)
  unfolding begin_attempt count_attempt load_session
  begin_attempt-stored db db1 row session admission now answer h =
      let (sessions', e1, h1) =
        bind-ok (insert (by_session session.session_id) _ db.sessions) _ h in
      let (free, added) = insert-ok (by_session session.session_id) _ db.sessions e1 in
      let (committed, answered) = parts x t _ _ _ _ (ok-injective h1) in
      let new = row_of x row session admission now in
      let stored : db1.sessions ≡ db.sessions ++ new ∷ [] =
        sym (ap (λ (d : Db). d.sessions) committed) ∙ added in
      let last =
        find-last (by_session session.session_id) db.sessions new free
          (text_eq_refl session.session_id) in
      (
        ap (find (by_session session.session_id)) stored ∙ last,
        sym answered ∙ ap (λ d. session_receipt x t d session.session_id) committed,
      )

  begin_again-same :
      (db : Db) (row : EnrollmentRow) (session : Session) (admission : Admission) (now : ℤ)
      → begin_again x t db (row_of x row session admission now) session
        ≡ session_receipt x t db session.session_id
  unfolding begin_again
  begin_again-same db row session admission now = rw (text_eq_refl session.canonical) refl

  -- What a begin-recovery that is answered with a receipt leaves: a session from which the same
  -- receipt is built.
  pub record Recorded (body : Json) (trial : Bytes) (db : Db) (reply : Reply) : Type 0 where
    pub begin : BeginRequest
    pub session : Session
    pub row : SessionRow
    pub decoded : x.decode_begin body ≡ some begin
    pub versioned : (begin.request_version == 1) ≡ true
    pub verified : verify_session x trial (canonical x begin.session) ≡ ok session
    pub found : load_session db session.session_id ≡ some row
    pub answered : begin_again x t db row session ≡ ok reply

  pub begin_recovery-Recorded :
      (body : Json) (trial : Bytes) (now : ℤ) (db db1 : Db) (reply : Reply)
      → begin_recovery x t body now trial db ≡ ok (db1, ok reply)
      → Recorded body trial db1 reply
  unfolding begin_recovery begin_new
  begin_recovery-Recorded body trial now db db1 reply h =
      let (begin, d, h1) = ok_or-bind-ok (x.decode_begin body) _ _ h in
      let (one, h2) = require-ok (begin.request_version == 1) _ _ h1 in
      let (session, v, h3) = bind-ok (verify_session x trial (canonical x begin.session)) _ h2 in
      let (on_time, h4) = transaction-bind-ok db now _ h3 in
      elim (Option-split (load_session (at_time db now) session.session_id) _ _ h4) [
        | inr (row, found, h5) ↦
            let (same, answered) = parts x t _ _ _ _ (ok-injective h5) in
            record {
              begin = begin;
              session = session;
              row = row;
              decoded = d;
              versioned = one;
              verified = v;
              found =
                  ap (λ c. load_session c session.session_id) (sym same)
                  ∙ find-at_time x t db now session.session_id
                  ∙ found;
              answered = subst (λ c. begin_again x t c row session ≡ ok reply) same answered;
            }
        | inl (_, h5) ↦
            let (row, _, h6) =
              ok_or-bind-ok
                (bound_to x t session
                  (load_current_enrollment (at_time db now) session.enrollment_id))
                _ _ h5 in
            let (admission, _, h7) =
              bind-ok
                (admit (enrollment_facts row) row.enrollment.policy row.attempts_used
                  session.requested_at session.expires_at now t.limits.skew_secs)
                _ h6 in
            let (found, answered) =
              begin_attempt-stored db db1 row session admission now (ok reply) h7 in
            record {
              begin = begin;
              session = session;
              row = row_of x row session admission now;
              decoded = d;
              versioned = one;
              verified = v;
              found = found;
              answered = begin_again-same db1 row session admission now ∙ sym answered;
            }
      ]
