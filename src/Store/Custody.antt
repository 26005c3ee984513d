-- ===== src/Store/Custody.antt =====
-- src/store.rs: what its commits do to the custody of an enrollment.
use onym_recovery_trustee.Prelude.{
  Bool, Bool-cases, Option-cases, Text, [], ap, arith, inl, inr, none, refl, some, true, ℕ, ℤ, ◌++◌,
  ◌+◌, ◌∙◌, ◌∷◌, ◌≡◌,
}
use onym_recovery_trustee.State.{accepted}
use onym_recovery_trustee.Store.{Db, EnrollmentRow}
use onym_recovery_trustee.Store.Commit.{
  Commit, at_time, begun, challenged, ended, enrolled, polled, retried, served, spent, stopped,
}
use onym_recovery_trustee.Store.Commit.Steps.{spend_nonce-ok}
use onym_recovery_trustee.Store.Ending.{bury, ended_status, tombstone}
use onym_recovery_trustee.Store.Escrow.{
  Keeps, Keeps-at, custody_found, custody_of, custody_view, deletes, held, nothing_held, rests,
  stores,
}
use onym_recovery_trustee.Store.Recovering.{count_attempt, set_session}
use onym_recovery_trustee.Store.Rows.{find-append, find-append-none, find-last, find-update}
use onym_recovery_trustee.Store.Tables.{at_sequence, find, spend_challenge, update}
use onym_recovery_trustee.Store.Tombstones.{ended_status-over, is_over}
use onym_recovery_trustee.Trustee.{Trustee}
use onym_recovery_trustee.Wire.Encoding.{sequence}

-- The row that is found after an update of rows that leaves their keys.
update-Keeps :
    (db db' : Db) (hit : EnrollmentRow → Bool) (change : EnrollmentRow → EnrollmentRow) (id : Text)
    (sequence : ℕ)
    → db'.enrollments ≡ update hit change db.enrollments
    → ((row : EnrollmentRow) → (change row).enrollment_id ≡ row.enrollment_id)
    → ((row : EnrollmentRow) → (change row).sequence ≡ row.sequence)
    → ((row : EnrollmentRow) → Keeps (custody_of row) (custody_of (change row)))
    → Keeps (custody_view id sequence db) (custody_view id sequence db')
update-Keeps db db' hit change id sequence e same_id same_sequence keeps =
    let moved =
      find-update (at_sequence id sequence) hit change db.enrollments
        (λ old. ground (arith, same_id old, same_sequence old)) in
    elim (Option-cases (find (at_sequence id sequence) db.enrollments)) [
      | inl free ↦
          let after' : find (at_sequence id sequence) db'.enrollments ≡ none =
            ground (arith, e, moved, free) in
          Keeps-at _ _ _ _ (ap custody_found free) (ap custody_found after') (rests nothing_held)
      | inr (row, found) ↦ elim (Bool-cases (hit row)) [
        | inl yes' ↦
            let after' : find (at_sequence id sequence) db'.enrollments ≡ some (change row) =
              ground (arith, e, moved, found, yes') in
            Keeps-at _ _ _ _ (ap custody_found found) (ap custody_found after') (keeps row)
        | inr no' ↦
            let after' : find (at_sequence id sequence) db'.enrollments ≡ some row =
              ground (arith, e, moved, found, no') in
            Keeps-at _ _ _ _ (ap custody_found found) (ap custody_found after')
              (rests (custody_of row))
      ]
    ]

same-Keeps :
    (db db' : Db) (id : Text) (sequence : ℕ)
    → db'.enrollments ≡ db.enrollments
    → Keeps (custody_view id sequence db) (custody_view id sequence db')
same-Keeps db db' id sequence e =
    Keeps-at _ _ _ _ refl (ap (λ rows. custody_found (find (at_sequence id sequence) rows)) e)
      (rests (custody_view id sequence db))

-- A row that is added is of an accepted enrollment.
append-Keeps :
    (db db' : Db) (new : EnrollmentRow) (id : Text) (sequence : ℕ)
    → new.status ≡ accepted
    → db'.enrollments ≡ db.enrollments ++ new ∷ []
    → Keeps (custody_view id sequence db) (custody_view id sequence db')
append-Keeps db db' new id sequence held_now e =
    elim (Option-cases (find (at_sequence id sequence) db.enrollments)) [
      | inr (row, found) ↦
          Keeps-at _ _ _ _ (ap custody_found found)
            (ap custody_found (
              ap (find (at_sequence id sequence)) e
              ∙ find-append (at_sequence id sequence) db.enrollments (new ∷ []) row found))
            (rests (custody_of row))
      | inl free ↦ elim (Bool-cases (at_sequence id sequence new)) [
        | inr miss ↦
            Keeps-at _ _ nothing_held nothing_held (ap custody_found free)
              (ap custody_found (
                ap (find (at_sequence id sequence)) e
                ∙ find-append-none (at_sequence id sequence) db.enrollments new free miss))
              (rests nothing_held)
        | inl hit ↦
            Keeps-at _ _ nothing_held _ (ap custody_found free)
              (ap custody_found (
                  ap (find (at_sequence id sequence)) e
                  ∙ find-last (at_sequence id sequence) db.enrollments new free hit)
                ∙ ap (λ status. held (is_over status) new.sealed_envelope new.protected_artifact)
                    held_now)
              (stores new.sealed_envelope new.protected_artifact)
      ]
    ]

tombstone-Keeps :
    (operation : Text) (old row : EnrollmentRow)
    → Keeps (custody_of row) (custody_of (tombstone (ended_status operation old.status) row))
tombstone-Keeps operation old row =
    Keeps-at _ _ _ (held true none none) refl
      (ap (λ b. held b none none) (ended_status-over operation old.status))
      (deletes (is_over row.status) row.sealed_envelope row.protected_artifact)

module _ (t : Trustee) (now : ℤ) (db db' : Db) (id : Text) (sequence : ℕ) where
  -- What a commit does to the custody of an enrollment is a step of the escrow.
  pub Commit-Keeps :
      Commit t now db db' → Keeps (custody_view id sequence db) (custody_view id sequence db')
  unfolding set_session spend_challenge bury count_attempt
  Commit-Keeps (retried e) = same-Keeps db db' id sequence (ground (arith, e))
  Commit-Keeps (challenged c _ _ e) = same-Keeps db db' id sequence (ground (arith, e))
  Commit-Keeps (spent challenge invitation _ e) = same-Keeps db db' id sequence (ground (arith, e))
  Commit-Keeps (enrolled new invitation _ _ _ current_now _ _ _ e) =
      append-Keeps db db' new id sequence current_now (ground (arith, e))
  Commit-Keeps (polled scope signed _ spend) =
      let nonces = (spend_nonce-ok (at_time db now) scope signed t now db' spend).1 in
      same-Keeps db db' id sequence (ground (arith, nonces))
  Commit-Keeps (begun old new _ _ _ _ _ _ _ _ _ e) =
      let c = old.enrollment.context in
      update-Keeps db db' (at_sequence c.enrollment_id c.enrollment_sequence)
        (λ row. record row { attempts_used = row.attempts_used + 1 }) id sequence
        (ground (arith, e)) (λ row. refl) (λ row. refl) (λ row. rests (custody_of row))
  Commit-Keeps (served signed spent_db session old c _ spend _ _ e) =
      let nonces = (spend_nonce-ok (at_time db now) _ signed t now spent_db spend).1 in
      same-Keeps db db' id sequence (ground (arith, e, nonces))
  Commit-Keeps (stopped signed session holder live _ _ _ e) =
      same-Keeps db db' id sequence (ground (arith, e))
  Commit-Keeps (ended old operation _ _ e) =
      let c = old.enrollment.context in
      update-Keeps db db' (at_sequence c.enrollment_id c.enrollment_sequence)
        (tombstone (ended_status operation old.status)) id sequence (ground (arith, e))
        (λ row. refl) (λ row. refl) (tombstone-Keeps operation old)
