-- ===== src/Store/BeginningAgain.antt =====
-- src/store.rs: a `begin-recovery` that is sent again.
mod Recorded
use mathlib.Core.Path.{subst}
use onym_recovery_trustee.Store.BeginningAgain.Recorded.{begin_recovery-Recorded}
use onym_recovery_trustee.Prelude.{
  Bytes, Option, Text, [], ap, arith, false, inl, inr, refl, some, sym, text_eq, text_eq_refl, true,
  ℤ, ◌++◌, ◌==◌, ◌∙◌, ◌∷◌, ◌≡◌, ◌⊎◌, ◌≤ℤ◌,
}
use onym_recovery_trustee.Code.{
  Option-split, Result, bind-ok, ok, ok-injective, ok_or-bind-ok, some-injective,
}
use onym_recovery_trustee.External.{External}
use onym_recovery_trustee.Json.{Json}
use onym_recovery_trustee.State.{Admission, SessionStatus, admit, released}
use onym_recovery_trustee.Store.{
  Db, EnrollmentRow, Reply, SessionRow, enrollment_facts, transaction,
}
use onym_recovery_trustee.Store.Beginning.{row_of}
use onym_recovery_trustee.Store.Commit.{at_time}
use onym_recovery_trustee.Store.Commit.Steps.{transaction-bind-ok}
use onym_recovery_trustee.Store.Disclosure.{find-at_time, parts}
use onym_recovery_trustee.Store.Keeping.{Stored-Run}
use onym_recovery_trustee.Store.Moves.{Event-Moves, Moves, let_out, stops, unmoved}
use onym_recovery_trustee.Store.Runs.{Run, Run-keeps}
use onym_recovery_trustee.Store.Receipts.{begun_receipt, is_refused, session_receipt}
use onym_recovery_trustee.Store.Recovering.{
  begin_again, begin_attempt, begin_new, begin_recovery, bound_to, count_attempt, is_open,
}
use onym_recovery_trustee.Store.Rows.{find-last, insert-ok}
use onym_recovery_trustee.Store.Tables.{
  at_sequence, by_session, find, insert, load_current_enrollment, load_enrollment, load_session,
}
use onym_recovery_trustee.Trustee.{Enrollment, Session, Trustee}
use onym_recovery_trustee.Trustee.Accepting.{require-ok}
use onym_recovery_trustee.Trustee.Sessions.{verify_session}
use onym_recovery_trustee.Trustee.Trials.{verify_session-same}
use onym_recovery_trustee.Wire.Encoding.{is_some}
use onym_recovery_trustee.Wire.{BeginRequest}
use onym_recovery_trustee.Wire.Documents.{canonical}

-- What is left of a session as it began: only the status and the contribution have changed, and a
-- session is refused now exactly when it was refused then.
abbrev pub Started : SessionRow → SessionRow → Type 0
Started s s' =
    (status : SessionStatus) × (contribution : Option Bytes) × (s'
      ≡ record s { status = status; contribution = contribution })
    × ((status ≡ s.status) ⊎ (is_refused status ≡ false) × (is_refused s.status ≡ false))

open-unrefused : (status : SessionStatus) → is_open status ≡ true → is_refused status ≡ false
open-unrefused status h = ground arith

Moves-Started : (now : ℤ) (s s' : SessionRow) → Moves now s s' → Started s s'
Moves-Started now s s' (unmoved e) = (s.status, s.contribution, e, inl refl)
Moves-Started now s s' (let_out c cooling _ _ e) =
    (released, some c, e, inr (refl, ground (arith, cooling)))
Moves-Started now s s' (stops status open' _ kind e) =
    (status, s.contribution, e, inr (ground (arith, kind), open-unrefused s.status open'))

Started-trans : (a b c : SessionRow) → Started a b → Started b c → Started a c
Started-trans a b c (status, contribution, e, kind) (status2, contribution2, e2, kind2) = (
  status2,
  contribution2,
  ground (arith, e, e2),
  elim kind2 [
    | inl same2 ↦ elim kind [
      | inl same ↦ inl (same2 ∙ ap (λ (r : SessionRow). r.status) e ∙ same)
      | inr (went_on, began) ↦ inr (rw (same2 ∙ ap (λ (r : SessionRow). r.status) e) went_on, began)
    ]
    | inr (went_on2, began2) ↦ elim kind [
      | inl same ↦ inr (went_on2, rw (sym same) (rw e at began2))
      | inr (went_on, began) ↦ inr (went_on2, began)
    ]
  ],
)

Started-Run :
    (x : External) (t : Trustee) (db db' : Db) (id : Text) (s : SessionRow)
    → load_session db id ≡ some s
    → Run x t db db'
    → (s' : SessionRow) × (load_session db' id ≡ some s') × Started s s'
Started-Run x t db db' id s h run =
    Run-keeps x t (λ d. (s' : SessionRow) × (load_session d id ≡ some s') × Started s s') db db'
      (λ now a b e (s1, found, started).
        let (s2, found2, moved) = Event-Moves x t now a b id s1 e found in
        (s2, found2, Started-trans s s1 s2 started (Moves-Started now s1 s2 moved)))
      run (s, h, (s.status, s.contribution, refl, inl refl))

module _ (x : External) (t : Trustee) where
  -- A session that is recorded is answered from the record.
  begin-replays :
      (body : Json) (begin : BeginRequest) (trial : Bytes) (session : Session) (later_time : ℤ)
      (db : Db) (row : SessionRow)
      → x.decode_begin body ≡ some begin
      → (begin.request_version == 1) ≡ true
      → verify_session x trial (canonical x begin.session) ≡ ok session
      → (db.high_water ≤ℤ later_time)
      → load_session db session.session_id ≡ some row
      → begin_recovery x t body later_time trial db ≡ ok (db, begin_again x t db row session)
  unfolding begin_recovery transaction load_session
  begin-replays body begin trial session later_time db row d one v on_time found =
      ground (arith, d, one, v, on_time, found)

  -- The receipt of an attempt tells what begin decided, and no later status.
  begun_receipt-Started :
      (s s' : SessionRow) (e : Enrollment) (id : Text)
      → Started s s'
      → begun_receipt x t s' e id ≡ begun_receipt x t s e id
  unfolding begun_receipt
  begun_receipt-Started s s' e id (status, contribution, changed, inl same) =
      rw (changed, same) refl
  begun_receipt-Started s s' e id (status, contribution, changed, inr (went_on, began)) =
      rw (changed, went_on, began) refl

  -- A recorded answer is given again after any run.
  begin_again-Run :
      (db db' : Db) (session : Session) (row : SessionRow) (reply : Reply)
      → load_session db session.session_id ≡ some row
      → begin_again x t db row session ≡ ok reply
      → Run x t db db'
      → (row' : SessionRow) × (load_session db' session.session_id ≡ some row')
        × (begin_again x t db' row' session ≡ ok reply)
  unfolding begin_again session_receipt load_enrollment
  begin_again-Run db db' session row reply found h run =
      let id = session.session_id in
      let (same, h1) = require-ok (text_eq row.request session.canonical) _ _ h in
      let (row1, found1, h2) = ok_or-bind-ok (load_session db id) _ _ h1 in
      let one = some-injective (sym found ∙ found1) in
      let (held, found2, h3) =
        ok_or-bind-ok (find (at_sequence row1.enrollment_id row1.sequence) db.enrollments) _ _ h2 in
      let (row', found', started) = Started-Run x t db db' id row1 found1 run in
      let (held', found2', kept) =
        Stored-Run x t (at_sequence row1.enrollment_id row1.sequence)
          (record { counting = λ r n. refl; burying = λ r s. refl }) db db' held found2 run in
      let again = begun_receipt-Started row1 row' held.enrollment id started in
      let (_, _, changed, _) = started in
      let same' : text_eq row'.request session.canonical ≡ true = rw changed (rw one at same) in
      let same_row : find (at_sequence row'.enrollment_id row'.sequence) db'.enrollments
          ≡ some held' =
        rw changed found2' in
      (row', found', rw (same', found', same_row, kept.same_enrollment) (again ∙ h3))

  -- A begin-recovery that is answered with a receipt and sent again, after any requests and
  -- invitations and at any time not before the clock then, is no new attempt: it changes nothing and
  -- gets the same answer, whatever has become of the session and the enrollment in between. The trial
  -- seal of the second time may draw other bytes, where HPKE's sealing fails with both or with neither.
  pub begin_recovery_again :
      (body : Json) (trial other : Bytes) (now later_time : ℤ) (db db1 db2 : Db) (reply : Reply)
      → ((key info plaintext : Bytes)
          → is_some (x.single_shot_seal other key info plaintext)
            ≡ is_some (x.single_shot_seal trial key info plaintext))
      → begin_recovery x t body now trial db ≡ ok (db1, ok reply)
      → Run x t db1 db2
      → (db2.high_water ≤ℤ later_time)
      → begin_recovery x t body later_time other db2 ≡ ok (db2, ok reply)
  begin_recovery_again body trial other now later_time db db1 db2 reply seals h run later_on =
      let r = begin_recovery-Recorded x t body trial now db db1 reply h in
      let (row, found, answered) =
        begin_again-Run db1 db2 r.session r.row reply r.found r.answered run in
      begin-replays body r.begin other r.session later_time db2 row r.decoded r.versioned
        (verify_session-same x trial other seals _ r.session r.verified) later_on found
      ∙ ap (λ a. ok (db2, a)) answered
