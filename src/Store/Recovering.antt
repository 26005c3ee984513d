-- ===== src/Store/Recovering.antt =====
-- src/store.rs: `begin_recovery`, `read_recovery` and `cancel_recovery`.
use onym_recovery_trustee.Prelude.{
  Bool, Bytes, Option, Text, codes, false, if◌then◌else◌, ltb_ℤ, none, some, text_eq, true, ℤ, ◌&&◌,
  ◌+◌, ◌-◌, ◌==◌,
}
use onym_recovery_trustee.Code.{
  Result, err, invalid_request, ok, ok_or, recovery_cooling_down, recovery_expired,
  recovery_refused, recovery_vetoed, request_conflict, temporarily_unavailable, ◌>>=◌, ◌>>◌,
}
use onym_recovery_trustee.External.{External}
use onym_recovery_trustee.Json.{Json}
use onym_recovery_trustee.State.{
  Admission, Release, SessionStatus, admit, cancelled, cooling_down, emit, refused, release,
  released, resend, vetoed,
}
use onym_recovery_trustee.Store.{
  Db, EnrollmentRow, Reply, SessionRow, Step, enrollment_facts, receipt, session_facts, transaction,
}
use onym_recovery_trustee.Store.Receipts.{
  outcome_receipt, replayed_outcome, session_base, session_receipt,
}
use onym_recovery_trustee.Store.Requests.{
  check_fresh, of_session, record_outcome, recorded_outcome, spend_nonce, time, verify_signature,
}
use onym_recovery_trustee.Store.Tables.{
  at_sequence, by_session, insert, load_current_enrollment, load_enrollment, load_session, update,
}
use onym_recovery_trustee.Trustee.{Session, Trustee, binds, require}
use onym_recovery_trustee.Trustee.Sessions.{
  check_factor, or_unavailable, release_contribution, verify_session,
}
use onym_recovery_trustee.Wire.{EnrollmentContext, Signed}
use onym_recovery_trustee.Wire.Documents.{canonical, parse}
use onym_recovery_trustee.Wire.Receipts.{session_reason, session_state}

-- `match trustee.check_factor(…)`
abbrev pub attempt_status : Result (Unit {0}) → SessionStatus
attempt_status (ok u) = cooling_down
attempt_status (err code) = refused

-- One attempt more.
unfoldable pub count_attempt : Db → EnrollmentContext → Db
count_attempt db context = record db {
  enrollments =
      update (at_sequence context.enrollment_id context.enrollment_sequence)
        (λ row. record row { attempts_used = row.attempts_used + 1 }) db.enrollments;
}

unfoldable pub set_session : Db → Text → (SessionRow → SessionRow) → Db
set_session db session_id change = record db {
  sessions = update (by_session session_id) change db.sessions;
}

-- What `cancel_recovery` makes of a session's status.
abbrev pub stopped_status : SessionStatus → Bool → Bool → SessionStatus
stopped_status status true true = vetoed
stopped_status status true false = cancelled
stopped_status status false by_holder = status

-- `matches!(session.status, CoolingDown | Released)`
abbrev pub is_open : SessionStatus → Bool
is_open cooling_down = true
is_open released = true
is_open _ = false

module _ (x : External) (t : Trustee) where
  -- `begin_recovery` of a session ID that is recorded: a retry, or a conflict.
  unfoldable pub begin_again : Db → SessionRow → Session → Result Reply
  begin_again db recorded session = do
    require (text_eq recorded.request session.canonical) request_conflict
    session_receipt x t db session.session_id

  abbrev pub bound_to : Session → Option EnrollmentRow → Option EnrollmentRow
  bound_to session none = none
  bound_to session (some row) = if binds session row.enrollment.context then some row else none

  -- `begin_recovery` of a new session: from here on the request is an attempt.
  unfoldable pub begin_attempt : Db → EnrollmentRow → Session → Admission → ℤ → Step
  begin_attempt tx row session admission now = do
    let enrollment = row.enrollment
    let context = enrollment.context
    let counted = count_attempt tx context
    sessions ←
        insert (by_session session.session_id)
          (record {
            session_id = session.session_id;
            enrollment_id = context.enrollment_id;
            sequence = context.enrollment_sequence;
            status = attempt_status (check_factor x enrollment session);
            request = session.canonical;
            proof_key = session.proof_key;
            destination_keys_digest = session.destination_keys_digest;
            cooldown_ends_at = admission.cooldown_ends_at;
            expires_at = admission.expires_at;
            remaining_attempts = enrollment.policy.maximum_attempts - row.attempts_used - 1;
            created_at = now;
            contribution = none;
          })
          counted.sessions
    let begun = record counted { sessions = sessions }
    ok (begun, session_receipt x t begun session.session_id)

  unfoldable pub begin_new : Db → Session → ℤ → Step
  unfolding begin_attempt
  begin_new tx session now = do
    row ←
        ok_or (bound_to session (load_current_enrollment tx session.enrollment_id)) invalid_request
    admission ←
        admit (enrollment_facts row) row.enrollment.policy row.attempts_used session.requested_at
          session.expires_at now t.limits.skew_secs
    begin_attempt tx row session admission now

  -- `Store::begin_recovery`, with the randomness of the trial seal.
  unfoldable pub begin_recovery : Json → ℤ → Bytes → Db → Step
  unfolding begin_new begin_again
  begin_recovery body now trial db = do
    request ← ok_or (x.decode_begin body) invalid_request
    require (request.request_version == 1) invalid_request
    session ← verify_session x trial (canonical x request.session)
    tx ← transaction db now
    elim (load_session tx session.session_id) [
      | some recorded ↦ ok (db, begin_again db recorded session)
      | none ↦ begin_new tx session now
    ]

  -- The contribution that `read_recovery` goes on with, the status of the session, and the database.
  abbrev pub Served : Type 0
  Served = Db × SessionStatus × Option Bytes

  -- `Release::Emit`: seal and persist.
  unfoldable pub emit_contribution :
      Db → EnrollmentRow → SessionRow → Bytes → Bytes → ℤ → Result Served
  emit_contribution tx row session trial ephemeral now = do
    sealed ← ok_or row.sealed_envelope temporarily_unavailable
    verified ← or_unavailable (verify_session x trial session.request)
    contribution ← release_contribution x t ephemeral row.enrollment sealed verified now
    ok (
      set_session tx session.session_id
          (λ old. record old { status = released; contribution = some contribution.canonical }),
      released,
      some contribution.canonical,
    )

  -- `match state::release(…)`
  unfoldable pub serve_release :
      Db → EnrollmentRow → SessionRow → Bytes → Bytes → ℤ → Result Release → Result Served
  unfolding emit_contribution
  serve_release tx row session trial ephemeral now (ok emit) =
      emit_contribution tx row session trial ephemeral now
  serve_release tx row session trial ephemeral now (ok resend) =
      ok (tx, session.status, session.contribution)
  serve_release tx row session trial ephemeral now (err recovery_cooling_down) =
      ok (tx, session.status, none)
  serve_release tx row session trial ephemeral now (err recovery_vetoed) =
      ok (tx, session.status, none)
  serve_release tx row session trial ephemeral now (err recovery_refused) =
      ok (tx, session.status, none)
  serve_release tx row session trial ephemeral now (err recovery_expired) =
      ok (tx, session.status, none)
  serve_release tx row session trial ephemeral now (err code) = err code

  -- `contribution.map(…).transpose()?`
  abbrev pub parsed_contribution : Option Bytes → Result (Option Json)
  parsed_contribution none = ok none
  parsed_contribution (some bytes) = elim (parse x bytes) [
    | none ↦ err temporarily_unavailable
    | some value ↦ ok (some value)
  ]

  -- The receipt of `read_recovery`.
  unfoldable pub read_receipt :
      SessionRow → EnrollmentRow → Signed → SessionStatus → Option Bytes → ℤ → Result Reply
  read_receipt session row signed status contribution now = do
    base ← session_base x t session row.enrollment (codes "read-recovery")
    recorded_at ← time x now
    parsed ← parsed_contribution contribution
    ok (
        receipt (record base {
          request_id = signed.request_id;
          old_state = session_state session.status session.cooldown_ends_at session.expires_at now;
          new_state = session_state status session.cooldown_ends_at session.expires_at now;
          reason = session_reason status;
          recorded_at = recorded_at;
          contribution = parsed;
        }))

  -- `Store::read_recovery`
  unfoldable pub read_recovery : Signed → ℤ → Bytes → Bytes → Db → Step
  unfolding serve_release read_receipt
  read_recovery signed now trial ephemeral db = do
    tx ← transaction db now
    session ← ok_or (load_session tx signed.target) invalid_request
    verify_signature x signed session.proof_key
    check_fresh signed t now
    spent ← spend_nonce tx (of_session signed.target) signed t now
    row ← load_enrollment spent session.enrollment_id session.sequence
    (served, status, contribution) ←
        serve_release spent row session trial ephemeral now
          (release (enrollment_facts row) (session_facts session) now db.high_water)
    ok (served, read_receipt session row signed status contribution now)

  -- `match signed.by.as_deref()`
  unfoldable pub by_holder : Option Text → Result Bool
  by_holder none = err invalid_request
  by_holder (some by) =
      if text_eq by (codes "holder")
      then ok true
      else if text_eq by (codes "candidate")
      then ok false
      else err invalid_request

  -- `cancel_recovery` of a request that has no recorded outcome.
  unfoldable pub cancel_new : Db → SessionRow → Signed → Bool → ℤ → Step
  cancel_new tx session signed holder now = do
    check_fresh signed t now
    let live = is_open session.status && ltb_ℤ now session.expires_at
    let status = stopped_status session.status live holder
    recorded ←
        record_outcome (set_session tx signed.target (λ old. record old { status = status }))
          (of_session signed.target) signed
          (session_state session.status session.cooldown_ends_at session.expires_at now)
          (session_state status session.cooldown_ends_at session.expires_at now) now
    ok (recorded, outcome_receipt x t recorded (of_session signed.target) signed.request_id)

  -- `Store::cancel_recovery`
  unfoldable pub cancel_recovery : Signed → ℤ → Db → Step
  unfolding cancel_new by_holder
  cancel_recovery signed now db = do
    holder ← by_holder signed.by
    tx ← transaction db now
    session ← ok_or (load_session tx signed.target) invalid_request
    row ← load_enrollment tx session.enrollment_id session.sequence
    verify_signature x signed
        (if holder then row.enrollment.authorization_key else session.proof_key)
    elim (recorded_outcome tx (of_session signed.target) signed) [
      | some recorded ↦ ok (db, replayed_outcome x t db (of_session signed.target) signed recorded)
      | none ↦ cancel_new tx session signed holder now
    ]
