-- ===== src/Store/Retries.antt =====
-- src/store.rs: a signed cancellation that is sent again.
use mathlib.Core.Path.{subst}
use onym_recovery_trustee.Prelude.{
  Bool, List, Text, ap, arith, if◌then◌else◌, inl, inr, ltb_ℤ, refl, some, sym, text_eq_refl, ℤ,
  ◌&&◌, ◌∙◌, ◌≡◌, ◌≤ℤ◌,
}
use onym_recovery_trustee.Code.{
  Option-split, Result, bind-ok, ok, ok-injective, ok_or-bind-ok, then-ok,
}
use onym_recovery_trustee.External.{External}
use onym_recovery_trustee.Store.{Db, EnrollmentRow, Outcome, Reply, SessionRow, transaction}
use onym_recovery_trustee.Store.Commit.{at_time}
use onym_recovery_trustee.Store.Commit.Steps.{record_outcome-ok, transaction-bind-ok}
use onym_recovery_trustee.Store.Disclosure.{find-at_time, load-same, parts}
use onym_recovery_trustee.Store.Moves.{set_session-find}
use onym_recovery_trustee.Store.Receipts.{outcome_receipt, replayed_outcome}
use onym_recovery_trustee.Store.Recovering.{
  by_holder, cancel_new, cancel_recovery, is_open, set_session, stopped_status,
}
use onym_recovery_trustee.Store.Requests.{
  Scope, check_fresh, find_outcome, has_outcome, of_session, record_outcome, recorded_outcome,
  scope_key, verify_signature,
}
use onym_recovery_trustee.Store.Rows.{find-last, find_sound, insert-ok}
use onym_recovery_trustee.Store.Tables.{
  by_session, find, insert, later, load_enrollment, load_session,
}
use onym_recovery_trustee.Trustee.{Trustee}
use onym_recovery_trustee.Wire.{Signed}
use onym_recovery_trustee.Wire.Documents.{digest}

-- The outcome that is recorded.
abbrev outcome_of : Scope → Signed → Text → Text → ℤ → Outcome
outcome_of scope signed old new now = record {
  scope = scope_key scope;
  request_id = signed.request_id;
  request_digest = signed.digest;
  operation = signed.operation;
  old_state = old;
  new_state = new;
  recorded_at = now;
}

-- `record_outcome` adds the outcome of a request that had none, and `recorded_outcome` then finds it.
pub recorded-found :
    (db : Db) (scope : Scope) (signed : Signed) (old new : Text) (now : ℤ) (db' : Db)
    → record_outcome db scope signed old new now ≡ ok db'
    → recorded_outcome db' scope signed ≡ some signed.digest
unfolding record_outcome recorded_outcome find_outcome
recorded-found db scope signed old new now db' h =
    let (outcomes', e, h1) =
      bind-ok (insert (has_outcome (scope_key scope) signed.request_id) _ db.outcomes) _ h in
    let (free, added) =
      insert-ok (has_outcome (scope_key scope) signed.request_id) _ db.outcomes e in
    let found =
      find-last (has_outcome (scope_key scope) signed.request_id) db.outcomes
        (outcome_of scope signed old new now) free
        (ground (arith, text_eq_refl (scope_key scope), text_eq_refl signed.request_id)) in
    ground (arith, h1, added, found)

pub recorded-at_time :
    (db : Db) (now : ℤ) (scope : Scope) (signed : Signed)
    → recorded_outcome db scope signed ≡ recorded_outcome (at_time db now) scope signed
unfolding recorded_outcome find_outcome
recorded-at_time db now scope signed = refl

stopped-found :
    (tx db' : Db) (target : Text) (change : SessionRow → SessionRow) (session : SessionRow)
    (outcomes' : List Outcome)
    → ((old : SessionRow) → (change old).session_id ≡ old.session_id)
    → load_session tx target ≡ some session
    → db' ≡ record (set_session tx target change) { outcomes = outcomes' }
    → load_session db' target ≡ some (change session)
unfolding load_session
stopped-found tx db' target change session outcomes' keeps h e =
    let moved = set_session-find tx target target change session keeps h in
    let own = find_sound (by_session target) tx.sessions session h in
    ap (λ (d : Db). find (by_session target) d.sessions) e
    ∙ (moved ∙ ap (λ b. some (if b then change session else session)) own)

stopped-enrollments :
    (tx db' : Db) (target : Text) (change : SessionRow → SessionRow) (outcomes' : List Outcome)
    → db' ≡ record (set_session tx target change) { outcomes = outcomes' }
    → db'.enrollments ≡ tx.enrollments
unfolding set_session
stopped-enrollments tx db' target change outcomes' e = ap (λ (d : Db). d.enrollments) e

module _ (x : External) (t : Trustee) where
  -- A cancellation whose outcome is recorded is answered from the record.
  cancel-replays :
      (signed : Signed) (later : ℤ) (db : Db) (session : SessionRow) (row : EnrollmentRow)
      (holder : Bool) (digest : Text)
      → by_holder x t signed.by ≡ ok holder
      → (db.high_water ≤ℤ later)
      → load_session db signed.target ≡ some session
      → load_enrollment db session.enrollment_id session.sequence ≡ ok row
      → verify_signature x signed
          (if holder then row.enrollment.authorization_key else session.proof_key)
        ≡ ok tt
      → recorded_outcome db (of_session signed.target) signed ≡ some digest
      → cancel_recovery x t signed later db
        ≡ ok (db, replayed_outcome x t db (of_session signed.target) signed digest)
  unfolding cancel_recovery transaction load_session load_enrollment recorded_outcome find_outcome
  cancel-replays signed later db session row holder digest by on_time s r v o =
      ground (arith, by, on_time, s, r, v, o)

  pub replayed-same :
      (db : Db) (scope : Scope) (signed : Signed)
      → replayed_outcome x t db scope signed signed.digest
        ≡ outcome_receipt x t db scope signed.request_id
  unfolding replayed_outcome
  replayed-same db scope signed = rw (text_eq_refl signed.digest)

  -- The retry of a cancellation that was new.
  cancel_new-again :
      (signed : Signed) (now later : ℤ) (db db1 : Db) (session : SessionRow) (row : EnrollmentRow)
      (holder : Bool) (answer : Result Reply)
      → by_holder x t signed.by ≡ ok holder
      → (db1.high_water ≤ℤ later)
      → load_session db signed.target ≡ some session
      → load_enrollment db session.enrollment_id session.sequence ≡ ok row
      → verify_signature x signed
          (if holder then row.enrollment.authorization_key else session.proof_key)
        ≡ ok tt
      → cancel_new x t (at_time db now) session signed holder now ≡ ok (db1, answer)
      → cancel_recovery x t signed later db1 ≡ ok (db1, answer)
  unfolding cancel_new
  cancel_new-again signed now later db db1 session row holder answer by on_time s r v h =
      let (_, h1) = then-ok (check_fresh signed t now) _ h in
      let status =
        stopped_status session.status (is_open session.status && ltb_ℤ now session.expires_at)
          holder in
      let change = λ (old : SessionRow). record old { status = status } in
      let before = set_session (at_time db now) signed.target change in
      let (recorded, e2, h2) =
        bind-ok (record_outcome before (of_session signed.target) signed _ _ now) _ h1 in
      let (committed, answered) = parts x t _ _ _ _ (ok-injective h2) in
      let (outcomes', e3) = record_outcome-ok _ _ _ _ _ now recorded e2 in
      let found = recorded-found _ _ _ _ _ now recorded e2 in
      let again =
        cancel-replays signed later recorded (change session) row holder signed.digest by
          (subst (λ d. d.high_water ≤ℤ later) (sym committed) on_time)
          (stopped-found (at_time db now) recorded signed.target change session outcomes'
            (λ old. refl) (sym (find-at_time x t db now signed.target) ∙ s) e3)
          (sym (
              load-same x t db recorded session.enrollment_id session.sequence
                (stopped-enrollments (at_time db now) recorded signed.target change outcomes' e3))
            ∙ r)
          v found in
      subst (λ d. cancel_recovery x t signed later d ≡ ok (d, answer)) committed
        (again
          ∙ ap (λ a. ok (recorded, a))
              (replayed-same recorded (of_session signed.target) signed ∙ answered))

  -- A signed cancellation or veto that is accepted and sent again to the database that it left, at any
  -- time that is not before the clock and however old it is by then, changes nothing and gets the same
  -- answer.
  pub cancel_recovery_again :
      (signed : Signed) (now later : ℤ) (db db1 : Db) (answer : Result Reply)
      → cancel_recovery x t signed now db ≡ ok (db1, answer)
      → (db1.high_water ≤ℤ later)
      → cancel_recovery x t signed later db1 ≡ ok (db1, answer)
  unfolding cancel_recovery
  cancel_recovery_again signed now later db db1 answer h later_on =
      let (holder, by, h1) = bind-ok (by_holder x t signed.by) _ h in
      let (on_time, h2) = transaction-bind-ok db now _ h1 in
      let (session, e3, h3) = ok_or-bind-ok (load_session (at_time db now) signed.target) _ _ h2 in
      let (row, e4, h4) =
        bind-ok (load_enrollment (at_time db now) session.enrollment_id session.sequence) _ h3 in
      let ((u, e5), h5) =
        then-ok
          (verify_signature x signed
            (if holder then row.enrollment.authorization_key else session.proof_key))
          _ h4 in
      let s = find-at_time x t db now signed.target ∙ e3 in
      let r = load-same x t db (at_time db now) session.enrollment_id session.sequence refl ∙ e4 in
      elim (Option-split (recorded_outcome (at_time db now) (of_session signed.target) signed) _ _
        h5) [
          | inl (_, h6) ↦
              cancel_new-again signed now later db db1 session row holder answer by later_on s r e5
                h6
          | inr (was, e6, h6) ↦
              let (same, answered) = parts x t _ _ _ _ (ok-injective h6) in
              subst (λ d. cancel_recovery x t signed later d ≡ ok (d, answer)) same
                (cancel-replays signed later db session row holder was by
                    (subst (λ d. d.high_water ≤ℤ later) (sym same) later_on) s r e5
                    (recorded-at_time db now (of_session signed.target) signed ∙ e6)
                  ∙ ap (λ a. ok (db, a)) answered)
        ]
