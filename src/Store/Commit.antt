-- ===== src/Store/Commit.antt =====
-- What a request may change: one constructor for each way that a request of src/store.rs commits,
-- with what holds of the rows when it does. A retry commits nothing new (`retried`).
pub mod Steps
pub mod Enrolling
pub mod Ending
pub mod Recovering
pub mod Serving
use onym_recovery_trustee.Prelude.{
  Bool, Bytes, List, Text, [], none, some, true, ℤ, ◌++◌, ◌+ℤ◌, ◌<ℤ◌, ◌<◌, ◌∷◌, ◌≡◌, ◌⊎◌,
}
use onym_recovery_trustee.Code.{ok}
use onym_recovery_trustee.State.{SessionStatus, accepted, cooling_down, emit, refused, released}
use onym_recovery_trustee.State.Releasing.{Releasable}
use onym_recovery_trustee.Store.{
  Challenge, Db, EnrollmentRow, Outcome, SessionRow, enrollment_facts, session_facts,
}
use onym_recovery_trustee.Store.Ending.{bury, ended_status}
use onym_recovery_trustee.Store.Enrolling.{enrollment_taken}
use onym_recovery_trustee.Store.Recovering.{count_attempt, is_open, set_session, stopped_status}
use onym_recovery_trustee.Store.Requests.{Scope, check_fresh, of_session, spend_nonce}
use onym_recovery_trustee.Store.Tables.{
  by_challenge, by_session, current, find, redeemable, spend_challenge,
}
use onym_recovery_trustee.Trustee.{Trustee}
use onym_recovery_trustee.Wire.{Signed}

-- The database that a transaction at `now` goes on with.
abbrev pub at_time : Db → ℤ → Db
at_time db now = record db { high_water = now }

-- The status with which an attempt starts.
abbrev pub StartsAttempt : SessionStatus → Type 0
StartsAttempt s = (s ≡ cooling_down) ⊎ (s ≡ refused)

pub data Commit (t : Trustee) (now : ℤ) (db db' : Db) : Type 0 where
  retried : db' ≡ db → Commit t now db db'
  challenged :
      (c : Challenge)
      → c.used_at ≡ none
      → find (by_challenge c.challenge) db.challenges ≡ none
      → db' ≡ record (at_time db now) { challenges = db.challenges ++ c ∷ [] }
      → Commit t now db db'
  spent :
      (challenge invitation : Text)
      → redeemable db challenge now ≡ some invitation
      → db' ≡ spend_challenge (at_time db now) challenge invitation now
      → Commit t now db db'
  enrolled :
      (row : EnrollmentRow) (invitation : Text)
      → redeemable db row.challenge now ≡ some invitation
      → find (enrollment_taken row) db.enrollments ≡ none
      → current row.enrollment_id db.enrollments ≡ none
      → row.status ≡ accepted
      → row.attempts_used ≡ 0
      → row.enrollment_id ≡ row.enrollment.context.enrollment_id
      → row.sequence ≡ row.enrollment.context.enrollment_sequence
      → db'
        ≡ spend_challenge
            (record (at_time db now) { enrollments = db.enrollments ++ row ∷ [] })
            row.challenge
            invitation
            now
      → Commit t now db db'
  polled :
      (scope : Scope) (signed : Signed)
      → check_fresh signed t now ≡ ok tt
      → spend_nonce (at_time db now) scope signed t now ≡ ok db'
      → Commit t now db db'
  begun :
      (row : EnrollmentRow) (s : SessionRow)
      → current row.enrollment.context.enrollment_id db.enrollments ≡ some row
      → row.attempts_used < row.enrollment.policy.maximum_attempts
      → find (by_session s.session_id) db.sessions ≡ none
      → s.enrollment_id ≡ row.enrollment.context.enrollment_id
      → s.sequence ≡ row.enrollment.context.enrollment_sequence
      → StartsAttempt s.status
      → s.contribution ≡ none
      → s.created_at ≡ now
      → s.cooldown_ends_at ≡ now +ℤ row.enrollment.policy.cooldown_secs
      → db' ≡ record (count_attempt (at_time db now) row.enrollment.context) {
        sessions = db.sessions ++ s ∷ [];
      }
      → Commit t now db db'
  served :
      (signed : Signed) (spent_db : Db) (session : SessionRow) (row : EnrollmentRow)
      (contribution : Bytes)
      → check_fresh signed t now ≡ ok tt
      → spend_nonce (at_time db now) (of_session signed.target) signed t now ≡ ok spent_db
      → find (by_session signed.target) db.sessions ≡ some session
      → Releasable (enrollment_facts row) (session_facts session) now db.high_water emit
      → db'
        ≡ set_session spent_db session.session_id
            (λ old. record old { status = released; contribution = some contribution })
      → Commit t now db db'
  stopped :
      (signed : Signed) (session : SessionRow) (holder live : Bool) (outcomes' : List Outcome)
      → find (by_session signed.target) db.sessions ≡ some session
      → (live ≡ true → (is_open session.status ≡ true) × (now <ℤ session.expires_at))
      → db'
        ≡ record (set_session
            (at_time db now)
            signed.target
            (λ old. record old { status = stopped_status session.status live holder })) {
              outcomes = outcomes';
            }
      → Commit t now db db'
  ended :
      (row : EnrollmentRow) (operation : Text) (outcomes' : List Outcome)
      → current row.enrollment_id db.enrollments ≡ some row
      → db'
        ≡ record (bury
            (at_time db now)
            row.enrollment.context
            (ended_status operation row.status)) { outcomes = outcomes' }
      → Commit t now db db'
