-- ===== src/Store/Tombstones.antt =====
-- src/store.rs: an enrollment that is revoked or closed stays a tombstone.
use mathlib.Core.Path.{subst}
use onym_recovery_trustee.Prelude.{
  Bool, Bool-cases, Text, [], arith, false, inl, inr, none, refl, some, sym, true, ℕ, ℤ, ◌+◌, ◌∷◌,
  ◌≡◌,
}
use onym_recovery_trustee.External.{External}
use onym_recovery_trustee.State.{EnrollmentStatus, accepted, closed, revoked, superseded}
use onym_recovery_trustee.Store.{Db, EnrollmentRow}
use onym_recovery_trustee.Store.Commit.{
  Commit, at_time, begun, challenged, ended, enrolled, polled, retried, served, spent, stopped,
}
use onym_recovery_trustee.Store.Commit.Steps.{spend_nonce-ok}
use onym_recovery_trustee.Store.Ending.{bury, ended_status, tombstone}
use onym_recovery_trustee.Store.Recovering.{count_attempt, set_session}
use onym_recovery_trustee.Store.Rows.{find-append, find-update}
use onym_recovery_trustee.Store.Runs.{Run, Run-keeps, commits, invites, nothing}
use onym_recovery_trustee.Store.Tables.{at_sequence, find, spend_challenge, update}
use onym_recovery_trustee.Trustee.{Trustee}
use onym_recovery_trustee.Wire.Encoding.{sequence}

-- The status of an enrollment that is over.
abbrev pub is_over : EnrollmentStatus → Bool
is_over revoked = true
is_over closed = true
is_over _ = false

-- The row of an enrollment that is over: the sealed share and the artifact are deleted.
pub record Tombstone (row : EnrollmentRow) : Type 0 where
  pub over : is_over row.status ≡ true
  pub no_share : row.sealed_envelope ≡ none
  pub no_artifact : row.protected_artifact ≡ none

-- The database holds, at that ID and sequence, a tombstone.
abbrev pub Buried : Text → ℕ → Db → Type 0
Buried id sequence db =
    (row : EnrollmentRow) × (find (at_sequence id sequence) db.enrollments ≡ some row)
    × Tombstone row

pub ended_status-over :
    (operation : Text) (status : EnrollmentStatus) → is_over (ended_status operation status) ≡ true
unfolding ended_status
ended_status-over operation accepted = ground arith
ended_status-over operation superseded = ground arith
ended_status-over operation revoked = ground arith
ended_status-over operation closed = refl

-- A change of rows that leaves their keys, and makes tombstones of tombstones.
update-Buried :
    (db db' : Db) (hit : EnrollmentRow → Bool) (change : EnrollmentRow → EnrollmentRow) (id : Text)
    (sequence : ℕ)
    → db'.enrollments ≡ update hit change db.enrollments
    → ((row : EnrollmentRow) → (change row).enrollment_id ≡ row.enrollment_id)
    → ((row : EnrollmentRow) → (change row).sequence ≡ row.sequence)
    → ((row : EnrollmentRow) → Tombstone row → Tombstone (change row))
    → Buried id sequence db
    → Buried id sequence db'
update-Buried db db' hit change id sequence e same_id same_sequence stays (row, h, r) =
    let moved =
      find-update (at_sequence id sequence) hit change db.enrollments
        (λ old. ground (arith, same_id old, same_sequence old)) in
    elim (Bool-cases (hit row)) [
      | inl yes' ↦ (change row, ground (arith, e, h, moved, yes'), stays row r)
      | inr no' ↦ (row, ground (arith, e, h, moved, no'), r)
    ]

module _ (t : Trustee) (now : ℤ) (db db' : Db) (id : Text) (sequence : ℕ) where
  pub Commit-Buried : Commit t now db db' → Buried id sequence db → Buried id sequence db'
  unfolding set_session spend_challenge bury count_attempt
  Commit-Buried (retried e) (row, h, r) = (row, ground (arith, e), r)
  Commit-Buried (challenged c _ _ e) (row, h, r) = (row, ground (arith, e), r)
  Commit-Buried (spent challenge invitation _ e) (row, h, r) = (row, ground (arith, e), r)
  Commit-Buried (enrolled new invitation _ _ _ _ _ _ _ e) (row, h, r) =
      (row, rw e (find-append (at_sequence id sequence) db.enrollments (new ∷ []) row h), r)
  Commit-Buried (polled scope signed _ spend) (row, h, r) =
      let nonces = (spend_nonce-ok (at_time db now) scope signed t now db' spend).1 in
      (row, rw nonces h, r)
  Commit-Buried (begun old new _ _ _ _ _ _ _ _ _ e) b =
      let c = old.enrollment.context in
      update-Buried db db' (at_sequence c.enrollment_id c.enrollment_sequence)
        (λ row. record row { attempts_used = row.attempts_used + 1 }) id sequence
        (ground (arith, e)) (λ row. refl) (λ row. refl)
        (λ row r. record { over = r.over; no_share = r.no_share; no_artifact = r.no_artifact }) b
  Commit-Buried (served signed spent_db session old c _ spend _ _ e) (row, h, r) =
      let nonces = (spend_nonce-ok (at_time db now) _ signed t now spent_db spend).1 in
      (row, rw (e, nonces) h, r)
  Commit-Buried (stopped signed session holder live _ _ _ e) (row, h, r) = (row, rw e h, r)
  Commit-Buried (ended old operation _ _ e) b =
      let c = old.enrollment.context in
      update-Buried db db' (at_sequence c.enrollment_id c.enrollment_sequence)
        (tombstone (ended_status operation old.status)) id sequence (ground (arith, e))
        (λ row. refl) (λ row. refl)
        (λ row r. record {
          over = ended_status-over operation old.status;
          no_share = refl;
          no_artifact = refl;
        })
        b

-- An enrollment that is revoked or closed, with its custody deleted, is so for good: no sequence of
-- requests and invitations, at any times, brings back its status, its sealed share or its artifact.
pub Buried-Run :
    (x : External) (t : Trustee) (db db' : Db) (id : Text) (sequence : ℕ)
    → Buried id sequence db
    → Run x t db db'
    → Buried id sequence db'
Buried-Run x t db db' id sequence b run =
    Run-keeps x t (Buried id sequence) db db'
      (λ now a c e. elim e [
        | nothing same ↦ subst (Buried id sequence) (sym same)
        | commits on_time k ↦ Commit-Buried t now a c id sequence k
        | invites invitation on_time k ↦ λ (row, h, r). (row, rw k h, r)
      ])
      run b
