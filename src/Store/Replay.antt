-- ===== src/Store/Replay.antt =====
-- src/store.rs: `check_fresh` and `spend_nonce` together accept a signed read at most once.
use onym_recovery_trustee.Prelude.{Bytes, arith, inl, inr, ℤ, ◌≡◌, ◌≤ℤ◌}
use onym_recovery_trustee.Code.{Result, bind-ok, ok, ok_or-bind-ok, then-ok}
use onym_recovery_trustee.External.{External}
use onym_recovery_trustee.State.{release}
use onym_recovery_trustee.Store.{Db, Reply, enrollment_facts, session_facts}
use onym_recovery_trustee.Store.Barring.{Barred-Run, Barred-refused, spend-Barred}
use onym_recovery_trustee.Store.Commit.{at_time}
use onym_recovery_trustee.Store.Commit.Recovering.{Emits, serve_release-ok}
use onym_recovery_trustee.Store.Commit.Steps.{transaction-bind-ok}
use onym_recovery_trustee.Store.Recovering.{read_recovery, serve_release, set_session}
use onym_recovery_trustee.Store.Requests.{
  check_fresh, of_session, scope_key, spend_nonce, verify_signature,
}
use onym_recovery_trustee.Store.Runs.{Run}
use onym_recovery_trustee.Store.Tables.{load_enrollment, load_session}
use onym_recovery_trustee.Trustee.{Trustee}
use onym_recovery_trustee.Wire.{Signed}

module _ (x : External) (t : Trustee) where
  -- What `read_recovery` has done when it answers.
  read_recovery-spends :
      (signed : Signed) (now : ℤ) (trial ephemeral : Bytes) (db db' : Db) (answer : Result Reply)
      → read_recovery x t signed now trial ephemeral db ≡ ok (db', answer)
      → (db.high_water ≤ℤ now)
        × (check_fresh signed t now ≡ ok tt)
        × ((spent_db : Db) × (spend_nonce (at_time db now) (of_session signed.target) signed t now
              ≡ ok spent_db)
            × (db'.nonces ≡ spent_db.nonces))
  unfolding read_recovery set_session Emits
  read_recovery-spends signed now trial ephemeral db db' answer h =
      let (on_time, h1) = transaction-bind-ok db now _ h in
      let (session, _, h2) = ok_or-bind-ok (load_session (at_time db now) signed.target) _ _ h1 in
      let (_, h3) = then-ok (verify_signature x signed session.proof_key) _ h2 in
      let ((u, fresh), h4) = then-ok (check_fresh signed t now) _ h3 in
      let (spent_db, e5, h5) =
        bind-ok (spend_nonce (at_time db now) (of_session signed.target) signed t now) _ h4 in
      let (row, _, h6) =
        bind-ok (load_enrollment spent_db session.enrollment_id session.sequence) _ h5 in
      let ((served_db, status, contribution), e7, h7) =
        bind-ok
          (serve_release x t spent_db row session trial ephemeral now
            (release (enrollment_facts row) (session_facts session) now db.high_water))
          _ h6 in
      (
        on_time,
        fresh,
        (
          spent_db,
          e5,
          elim (serve_release-ok x t spent_db row session trial ephemeral now _ served_db status
              contribution e7) [
                | inl same ↦ ground (arith, same)
                | inr (emits, (c, stored)) ↦ ground (arith, stored)
              ],
        ),
      )

  -- A signed `read-recovery` that was accepted once is never accepted again, whatever requests and
  -- invitations come in between, at whatever times, and also after its nonce was purged.
  pub read_recovery_once :
      (signed : Signed) (now later : ℤ) (trial ephemeral trial2 ephemeral2 : Bytes)
      (db db1 db2 : Db) (answer : Result Reply) (again : Db × Result Reply)
      → read_recovery x t signed now trial ephemeral db ≡ ok (db1, answer)
      → Run x t db1 db2
      → ¬ (read_recovery x t signed later trial2 ephemeral2 db2 ≡ ok again)
  read_recovery_once signed now later trial ephemeral trial2 ephemeral2 db db1 db2 answer again h
        run g =
      let scope = of_session signed.target in
      let (_, fresh, (spent_db, e, same)) =
        read_recovery-spends signed now trial ephemeral db db1 answer h in
      let (on_time, fresh2, (spent_db2, e2, _)) =
        read_recovery-spends signed later trial2 ephemeral2 db2 again.0 again.1 g in
      Barred-refused x t scope signed db2 later spent_db2
        (Barred-Run t (scope_key scope) signed.request_id signed.issued_at x db1 db2
          (spend-Barred x t scope signed db now spent_db db1 fresh e same) run)
        on_time fresh2 e2
