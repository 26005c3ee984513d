-- ===== src/Store/Keeping.antt =====
-- src/store.rs: what the row of an enrollment keeps, whatever requests follow.
use onym_recovery_trustee.Prelude.{
  Bool, Bool-cases, [], arith, inl, inr, refl, some, true, ℕ, ℤ, ◌+◌, ◌∙◌, ◌∷◌, ◌≡◌, ◌⊎◌,
}
use onym_recovery_trustee.External.{External}
use onym_recovery_trustee.State.{EnrollmentStatus}
use onym_recovery_trustee.Store.{Db, EnrollmentRow}
use onym_recovery_trustee.Store.Commit.{
  Commit, at_time, begun, challenged, ended, enrolled, polled, retried, served, spent, stopped,
}
use onym_recovery_trustee.Store.Commit.Steps.{spend_nonce-ok}
use onym_recovery_trustee.Store.Ending.{bury, ended_status, tombstone}
use onym_recovery_trustee.Store.Recovering.{count_attempt, set_session}
use onym_recovery_trustee.Store.Rows.{find-append, find-update}
use onym_recovery_trustee.Store.Runs.{Event, Run, Run-keeps, commits, invites, nothing}
use onym_recovery_trustee.Store.Tables.{at_sequence, find, spend_challenge, update}
use onym_recovery_trustee.Store.Tombstones.{ended_status-over, is_over}
use onym_recovery_trustee.Trustee.{Trustee}

-- The custody of a row: it is as it was, or the enrollment is over.
abbrev pub Custody : EnrollmentRow → EnrollmentRow → Type 0
Custody row row' =
    (is_over row'.status ≡ true)
    ⊎ (row'.status ≡ row.status)
      × (row'.sealed_envelope ≡ row.sealed_envelope)
      × (row'.protected_artifact ≡ row.protected_artifact)

-- What stays of a row.
pub record Kept (row row' : EnrollmentRow) : Type 0 where
  pub same_enrollment : row'.enrollment ≡ row.enrollment
  pub same_challenge : row'.challenge ≡ row.challenge
  pub same_digest : row'.request_digest ≡ row.request_digest
  pub same_time : row'.stored_at ≡ row.stored_at
  pub custody : Custody row row'

-- A test that reads neither the count of attempts, nor the status, nor the custody.
pub record IsBlind (test : EnrollmentRow → Bool) : Type 0 where
  pub counting : (row : EnrollmentRow) (n : ℕ) → test (record row { attempts_used = n }) ≡ test row
  pub burying : (row : EnrollmentRow) (s : EnrollmentStatus) → test (tombstone s row) ≡ test row

Kept-refl : (row : EnrollmentRow) → Kept row row
Kept-refl row = record {
  same_enrollment = refl;
  same_challenge = refl;
  same_digest = refl;
  same_time = refl;
  custody = inr (refl, refl, refl);
}

Kept-buried :
    (row : EnrollmentRow) (s : EnrollmentStatus) → is_over s ≡ true → Kept row (tombstone s row)
Kept-buried row s over = record {
  same_enrollment = refl;
  same_challenge = refl;
  same_digest = refl;
  same_time = refl;
  custody = inl over;
}

Kept-counted : (row : EnrollmentRow) (n : ℕ) → Kept row (record row { attempts_used = n })
Kept-counted row n = record {
  same_enrollment = refl;
  same_challenge = refl;
  same_digest = refl;
  same_time = refl;
  custody = inr (refl, refl, refl);
}

-- The row that `test` finds was once `row`.
abbrev pub Stored : (EnrollmentRow → Bool) → EnrollmentRow → Db → Type 0
Stored test row db = (row' : EnrollmentRow) × (find test db.enrollments ≡ some row') × Kept row row'

module _ (test : EnrollmentRow → Bool) (blind : IsBlind test) (t : Trustee) (now : ℤ) (db db' : Db)
    (row : EnrollmentRow) where
  -- A change of some rows that the test does not see.
  update-Stored :
      (hit : EnrollmentRow → Bool) (change : EnrollmentRow → EnrollmentRow)
      → db'.enrollments ≡ update hit change db.enrollments
      → ((old : EnrollmentRow) → test (change old) ≡ test old)
      → Kept row (change row)
      → find test db.enrollments ≡ some row
      → Stored test row db'
  update-Stored hit change e unseen kept h =
      let moved = find-update test hit change db.enrollments (λ old. ground (arith, unseen old)) in
      elim (Bool-cases (hit row)) [
        | inl yes' ↦ (change row, ground (arith, e, h, moved, yes'), kept)
        | inr no' ↦ (row, ground (arith, e, h, moved, no'), Kept-refl row)
      ]

  Commit-Stored : Commit t now db db' → find test db.enrollments ≡ some row → Stored test row db'
  unfolding set_session spend_challenge bury count_attempt
  Commit-Stored (retried e) h = (row, ground (arith, e), Kept-refl row)
  Commit-Stored (challenged c _ _ e) h = (row, ground (arith, e), Kept-refl row)
  Commit-Stored (spent challenge invitation _ e) h = (row, ground (arith, e), Kept-refl row)
  Commit-Stored (enrolled new invitation _ _ _ _ _ _ _ e) h =
      (row, rw e (find-append test db.enrollments (new ∷ []) row h), Kept-refl row)
  Commit-Stored (polled scope signed _ spend) h =
      let nonces = (spend_nonce-ok (at_time db now) scope signed t now db' spend).1 in
      (row, rw nonces h, Kept-refl row)
  Commit-Stored (begun old new _ _ _ _ _ _ _ _ _ e) h =
      let c = old.enrollment.context in
      update-Stored (at_sequence c.enrollment_id c.enrollment_sequence)
        (λ r. record r { attempts_used = r.attempts_used + 1 }) (ground (arith, e))
        (λ r. blind.counting r (r.attempts_used + 1)) (Kept-counted row (row.attempts_used + 1)) h
  Commit-Stored (served signed spent_db session old c _ spend _ _ e) h =
      let nonces = (spend_nonce-ok (at_time db now) _ signed t now spent_db spend).1 in
      (row, rw (e, nonces) h, Kept-refl row)
  Commit-Stored (stopped signed session holder live _ _ _ e) h = (row, rw e h, Kept-refl row)
  Commit-Stored (ended old operation _ _ e) h =
      let c = old.enrollment.context in
      let status = ended_status operation old.status in
      update-Stored (at_sequence c.enrollment_id c.enrollment_sequence) (tombstone status)
        (ground (arith, e)) (λ r. blind.burying r status)
        (Kept-buried row status (ended_status-over operation old.status)) h

custody-trans : (a b c : EnrollmentRow) → Kept a b → Kept b c → Custody a c
custody-trans a b c k l = elim l.custody [
  | inl over ↦ inl over
  | inr (status, sealed, artifact) ↦ elim k.custody [
    | inl over ↦ inl (rw status over)
    | inr (status', sealed', artifact') ↦
        inr (status ∙ status', sealed ∙ sealed', artifact ∙ artifact')
  ]
]

Kept-trans : (a b c : EnrollmentRow) → Kept a b → Kept b c → Kept a c
Kept-trans a b c k l = record {
  same_enrollment = l.same_enrollment ∙ k.same_enrollment;
  same_challenge = l.same_challenge ∙ k.same_challenge;
  same_digest = l.same_digest ∙ k.same_digest;
  same_time = l.same_time ∙ k.same_time;
  custody = custody-trans a b c k l;
}

module _ (x : External) (t : Trustee) (test : EnrollmentRow → Bool) (blind : IsBlind test) where
  Event-Stored :
      (now : ℤ) (db db' : Db) (row : EnrollmentRow)
      → Event x t now db db'
      → find test db.enrollments ≡ some row
      → Stored test row db'
  Event-Stored now db db' row (nothing e) h = (row, rw e h, Kept-refl row)
  Event-Stored now db db' row (commits on_time k) h = Commit-Stored test blind t now db db' row k h
  Event-Stored now db db' row (invites invitation on_time e) h = (row, rw e h, Kept-refl row)

  -- The row of an enrollment stays, but for its count of attempts and its end.
  pub Stored-Run :
      (db db' : Db) (row : EnrollmentRow)
      → find test db.enrollments ≡ some row
      → Run x t db db'
      → Stored test row db'
  Stored-Run db db' row h run =
      Run-keeps x t (Stored test row) db db'
        (λ now a c e (row', found, kept).
          let (row2, found2, kept2) = Event-Stored now a c row' e found in
          (row2, found2, Kept-trans row row' row2 kept kept2))
        run (row, h, Kept-refl row)
