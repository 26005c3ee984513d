-- ===== src/Store/Receipts.antt =====
-- src/store.rs: receipts rebuilt from committed rows.
use onym_recovery_trustee.Prelude.{
  Bool, Bytes, Option, Text, codes, false, if◌then◌else◌, none, some, text_eq, true, ◌&&◌,
}
use onym_recovery_trustee.Code.{
  Result, ok, ok_or, request_conflict, temporarily_unavailable, ◌>>=◌, ◌>>◌,
}
use onym_recovery_trustee.External.{External}
use onym_recovery_trustee.State.{SessionStatus, refused}
use onym_recovery_trustee.Store.{Db, Reply, SessionRow, receipt}
use onym_recovery_trustee.Store.Requests.{
  Scope, find_outcome, of_enrollment_sequence, of_session, time,
}
use onym_recovery_trustee.Store.Tables.{enrolled_with, find, load_enrollment, load_session}
use onym_recovery_trustee.Trustee.{Enrollment, Trustee, require}
use onym_recovery_trustee.Wire.{Receipt, Signed, storage_class_sqlite}
use onym_recovery_trustee.Wire.Documents.{digest}
use onym_recovery_trustee.Wire.Encoding.{sequence}
use onym_recovery_trustee.Wire.Receipts.{about, session_reason}

-- `enroll`'s word for the state before there was any.
abbrev pub nothing_before : Text
nothing_before = codes "none"

abbrev bytes_match : Option Bytes → Bytes → Bool
bytes_match none wanted = false
bytes_match (some stored) wanted = text_eq stored wanted

-- `session.status == SessionStatus::Refused`
abbrev pub is_refused : SessionStatus → Bool
is_refused refused = true
is_refused _ = false

module _ (x : External) (t : Trustee) where
  -- `Store::enrollment_receipt`: only when the row holds exactly the bytes received.
  unfoldable pub enrollment_receipt : Db → Text → Bytes → Bytes → Result Reply
  enrollment_receipt db challenge sealed artifact = do
    row ← ok_or (find (enrolled_with challenge) db.enrollments) temporarily_unavailable
    require (bytes_match row.sealed_envelope sealed && bytes_match row.protected_artifact artifact)
        temporarily_unavailable
    let enrollment = row.enrollment
    let context = enrollment.context
    recorded_at ← time x row.stored_at
    expires_at ← time x enrollment.expires_at
    ok (
        receipt (record (about t.component_id context (codes "enroll")) {
          request_id = challenge;
          old_state = nothing_before;
          new_state = codes "active";
          recorded_at = recorded_at;
          expires_at = expires_at;
          artifact_id = some context.artifact_id;
          artifact_digest = some context.artifact_digest;
          slot = some context.slot;
          sealed_contribution_digest = some (digest x sealed);
          storage_class = some storage_class_sqlite;
        }))

  -- `SessionRow::receipt`
  unfoldable pub session_base : SessionRow → Enrollment → Text → Result Receipt
  session_base session enrollment operation = do
    expires_at ← time x session.expires_at
    cooldown_ends_at ← time x session.cooldown_ends_at
    ok (record (about t.component_id enrollment.context operation) {
      session_id = some session.session_id;
      expires_at = expires_at;
      cooldown_ends_at = some cooldown_ends_at;
      destination_keys_digest = some session.destination_keys_digest;
    })

  -- The receipt of an attempt, once its rows are read.
  unfoldable pub begun_receipt : SessionRow → Enrollment → Text → Result Reply
  unfolding session_base
  begun_receipt session enrollment session_id = do
    base ← session_base session enrollment (codes "begin-recovery")
    recorded_at ← time x session.created_at
    ok (
        receipt (record base {
          request_id = session_id;
          old_state = nothing_before;
          new_state = if is_refused session.status then codes "refused" else codes "cooling_down";
          reason = if is_refused session.status then session_reason session.status else none;
          recorded_at = recorded_at;
          remaining_attempts = some session.remaining_attempts;
          evidence_digest = some (digest x session.request);
        }))

  -- `Store::session_receipt`
  unfoldable pub session_receipt : Db → Text → Result Reply
  unfolding begun_receipt
  session_receipt db session_id = do
    session ← ok_or (load_session db session_id) temporarily_unavailable
    row ← load_enrollment db session.enrollment_id session.sequence
    begun_receipt session row.enrollment session_id

  -- The receipt that an outcome fills in: `match scope { … }`.
  unfoldable pub outcome_base : Db → Scope → Text → Result Receipt
  unfolding session_base
  outcome_base db (of_session session_id) operation = do
    session ← ok_or (load_session db session_id) temporarily_unavailable
    row ← load_enrollment db session.enrollment_id session.sequence
    base ← session_base session row.enrollment operation
    ok (record base { reason = session_reason session.status })
  outcome_base db (of_enrollment_sequence enrollment_id sequence) operation = do
    row ← load_enrollment db enrollment_id sequence
    expires_at ← time x row.enrollment.expires_at
    ok (record (about t.component_id row.enrollment.context operation) { expires_at = expires_at })

  -- `Store::outcome_receipt`
  unfoldable pub outcome_receipt : Db → Scope → Text → Result Reply
  unfolding outcome_base
  outcome_receipt db scope request_id = do
    outcome ← ok_or (find_outcome db scope request_id) temporarily_unavailable
    base ← outcome_base db scope outcome.operation
    recorded_at ← time x outcome.recorded_at
    ok (
        receipt (record base {
          request_id = request_id;
          old_state = outcome.old_state;
          new_state = outcome.new_state;
          recorded_at = recorded_at;
        }))

  -- `Store::replayed_outcome`
  unfoldable pub replayed_outcome : Db → Scope → Signed → Text → Result Reply
  replayed_outcome db scope signed recorded_digest = do
    require (text_eq recorded_digest signed.digest) request_conflict
    outcome_receipt db scope signed.request_id
