-- ===== src/Store.antt =====
-- src/store.rs: the tables of the database, one list of rows each, and what a transaction does.
-- SQLite's own failures (a full disk, a locked file) are not modelled; its constraints are.
pub mod Tables
pub mod Rows
pub mod Requests
pub mod Receipts
pub mod Enrolling
pub mod Ending
pub mod Recovering
pub mod Serving
pub mod Commit
pub mod Runs
pub mod Moves
pub mod Tombstones
pub mod Keeping
pub mod Barring
pub mod Replay
pub mod Distinct
pub mod Attempts
pub mod Ledgers
pub mod Contributions
pub mod Disclosure
pub mod Retries
pub mod Operations
pub mod Invitations
pub mod Escrow
pub mod Custody
pub mod Refinement
pub mod Handover
pub mod Scopes
pub mod Binding
pub mod Beginning
pub mod EndingAgain
pub mod BeginningAgain
pub mod EnrollingAgain
pub mod Sample
mod Tests
pub mod AcceptingTests
pub mod HandoverTests
mod BeginningTests
mod EnrollingTests
mod RunTests
use onym_recovery_trustee.Prelude.{
  Bytes, List, Option, Text, [], if◌then◌else◌, ltb_ℤ, none, pos, ℕ, ℤ,
}
use onym_recovery_trustee.Code.{Result, err, ok, temporarily_unavailable}
use onym_recovery_trustee.State.{EnrollmentState, EnrollmentStatus, SessionState, SessionStatus}
use onym_recovery_trustee.Trustee.{Enrollment}
use onym_recovery_trustee.Wire.{ChallengeReply, Receipt}

-- Table `invitations`
pub record Invitation : Type 0 where
  pub digest : Text
  pub expires_at : ℤ
  pub used_at : Option ℤ

-- Table `challenges`
pub record Challenge : Type 0 where
  pub challenge : Text
  pub invitation : Text
  pub expires_at : ℤ
  pub used_at : Option ℤ

-- Table `enrollments`, its `record` column read back
pub record EnrollmentRow : Type 0 where
  pub enrollment_id : Text
  pub sequence : ℕ
  pub status : EnrollmentStatus
  pub challenge : Text
  pub request_digest : Text
  pub enrollment : Enrollment
  pub attempts_used : ℕ
  pub stored_at : ℤ
  pub sealed_envelope : Option Bytes
  pub protected_artifact : Option Bytes

-- Table `sessions`
pub record SessionRow : Type 0 where
  pub session_id : Text
  pub enrollment_id : Text
  pub sequence : ℕ
  pub status : SessionStatus
  pub request : Bytes
  pub proof_key : Bytes
  pub destination_keys_digest : Text
  pub cooldown_ends_at : ℤ
  pub expires_at : ℤ
  pub remaining_attempts : ℕ
  pub created_at : ℤ
  pub contribution : Option Bytes

-- Table `nonces`
pub record Nonce : Type 0 where
  pub scope : Text
  pub request_id : Text
  pub seen_at : ℤ

-- Table `outcomes`
pub record Outcome : Type 0 where
  pub scope : Text
  pub request_id : Text
  pub request_digest : Text
  pub operation : Text
  pub old_state : Text
  pub new_state : Text
  pub recorded_at : ℤ

-- Table `identity`
pub record Identity : Type 0 where
  pub component_id : Text
  pub operator : Text
  pub trustee_key_id : Text

-- The database. `high_water` is the one row of table `clock`.
pub record Db : Type 0 where
  pub high_water : ℤ
  pub invitations : List Invitation
  pub challenges : List Challenge
  pub enrollments : List EnrollmentRow
  pub sessions : List SessionRow
  pub nonces : List Nonce
  pub outcomes : List Outcome
  pub identity : Option Identity

-- A database on which the migrations have run.
abbrev pub empty : Db
empty = record {
  high_water = pos 0;
  invitations = [];
  challenges = [];
  enrollments = [];
  sessions = [];
  nonces = [];
  outcomes = [];
  identity = none;
}

-- What a handler answers, before it is signed or encoded.
pub data Reply : Type 0 where
  issued : ChallengeReply → Reply
  receipt : Receipt → Reply

-- A handler's run up to its commit: an error drops the transaction; otherwise the database that is
-- committed, and what the handler goes on to answer.
abbrev pub Step : Type 0
Step = Result (Db × Result Reply)

-- Commit, or roll back to the database as it was.
unfoldable pub settle : Db → Step → Result Reply × Db
settle db (ok (db', answer)) = (answer, db')
settle db (err code) = (err code, db)

-- `Store::transaction`: the database that the transaction goes on with. The floor that it also
-- returns is `db.high_water`.
unfoldable pub transaction : Db → ℤ → Result Db
transaction db now =
    if ltb_ℤ now db.high_water
    then err temporarily_unavailable
    else ok (record db { high_water = now })

-- `EnrollmentRow::state`
abbrev pub enrollment_facts : EnrollmentRow → EnrollmentState
enrollment_facts row = record {
  status = row.status;
  sequence = row.enrollment.context.enrollment_sequence;
  expires_at = row.enrollment.expires_at;
}

-- `SessionRow::state`
abbrev pub session_facts : SessionRow → SessionState
session_facts row = record {
  status = row.status;
  sequence = row.sequence;
  cooldown_ends_at = row.cooldown_ends_at;
  expires_at = row.expires_at;
}
