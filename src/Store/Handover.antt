-- ===== src/Store/Handover.antt =====
-- src/store.rs: the poll that hands a contribution out.
use onym_recovery_trustee.Prelude.{
  Bytes, Text, [], abs, arith, false, leb_ℤ, ltb_ℤ, none, refl, some, text_eq_refl, true, ℤ, ◌++◌,
  ◌-ℤ◌, ◌∷◌, ◌≡◌, ◌≤ℤ◌,
}
use onym_recovery_trustee.Code.{Result, ok}
use onym_recovery_trustee.Crypto.{verify}
use onym_recovery_trustee.External.{External}
use onym_recovery_trustee.State.{emit, released}
use onym_recovery_trustee.State.Releasing.{Releasable, release_iff}
use onym_recovery_trustee.Store.{
  Db, EnrollmentRow, Reply, SessionRow, enrollment_facts, session_facts, transaction,
}
use onym_recovery_trustee.Store.Commit.{at_time}
use onym_recovery_trustee.Store.Contributions.{Holds}
use onym_recovery_trustee.Store.Moves.{set_session-find}
use onym_recovery_trustee.Store.Recovering.{
  emit_contribution, read_receipt, read_recovery, serve_release, set_session,
}
use onym_recovery_trustee.Store.Requests.{
  check_fresh, has_nonce, of_session, scope_key, spend_nonce, unpurged, verify_signature,
}
use onym_recovery_trustee.Store.Tables.{at_sequence, find, load_enrollment, load_session}
use onym_recovery_trustee.Trustee.{Contribution, Session, Trustee, accept_enrollment, binds}
use onym_recovery_trustee.Trustee.Releases.{Carries, IsKeyPair, release-Carries}
use onym_recovery_trustee.Trustee.Sessions.{verify_session}
use onym_recovery_trustee.Wire.{EnrollmentContext, Signed}
use onym_recovery_trustee.Wire.Encoding.{format_timestamp}

module _ (x : External) (t : Trustee) (now : ℤ) where
  -- The stored share of an enrollment that was accepted with it, for a verified session that binds to it
  -- and whose destination is a candidate's key pair.
  pub record CanCarry (row : EnrollmentRow) (session : SessionRow) (trial candidate : Bytes)
      : Type 0 where
    pub context : EnrollmentContext
    pub sealed : Bytes
    pub accepted_at : ℤ
    pub verified : Session
    pub expires_at : Text
    pub decided_at : Text
    pub custody : row.sealed_envelope ≡ some sealed
    pub agreed : accept_enrollment x t context sealed accepted_at ≡ ok row.enrollment
    pub checked : verify_session x trial session.request ≡ ok verified
    pub binding : binds verified context ≡ true
    pub pair : IsKeyPair x candidate
    pub destination : verified.destination_key ≡ x.sk_to_pk candidate
    pub expiry : format_timestamp x verified.expires_at ≡ some expires_at
    pub time : format_timestamp x now ≡ some decided_at

  emit_contribution-Carries :
      (tx : Db) (row : EnrollmentRow) (session : SessionRow) (trial ephemeral candidate : Bytes)
      → CanCarry row session trial candidate
      → (verified : Session) × (sealed : Bytes) × (contribution : Contribution) × (emit_contribution
            x t tx row session trial ephemeral now
          ≡ ok (
            set_session tx session.session_id (λ old. record old {
              status = released;
              contribution = some contribution.canonical;
            }),
            released,
            some contribution.canonical,
          ))
        × (verify_session x trial session.request ≡ ok verified)
        × (row.sealed_envelope ≡ some sealed)
        × Carries x t candidate row.enrollment sealed verified now contribution
  unfolding emit_contribution
  emit_contribution-Carries tx row session trial ephemeral candidate c =
      let (contribution, made, carried) =
        release-Carries x t c.context c.sealed candidate ephemeral c.accepted_at now row.enrollment
          c.verified c.expires_at c.decided_at c.agreed c.binding c.pair c.destination c.expiry
          c.time in
      (
        c.verified,
        c.sealed,
        contribution,
        rw (c.custody, c.checked, made) refl,
        c.checked,
        c.custody,
        carried,
      )

module _ (x : External) (t : Trustee) (db : Db) (now : ℤ) where
  -- A poll that its session's candidate signed, that is fresh and that was not seen before.
  pub record IsPoll (signed : Signed) (session : SessionRow) : Type 0 where
    pub on_time : db.high_water ≤ℤ now
    pub found : load_session db signed.target ≡ some session
    pub verified : verify x session.proof_key signed.message signed.signature ≡ true
    pub recent : leb_ℤ (abs (signed.issued_at -ℤ now)) t.limits.skew_secs ≡ true
    pub unseen :
        find
          (has_nonce (scope_key (of_session signed.target)) signed.request_id)
          (unpurged t now (at_time db now))
        ≡ none

  -- The database that a poll goes on with: its nonce is spent.
  abbrev pub poll_db : Signed → Db
  poll_db signed = record (at_time db now) {
    nonces =
        unpurged t now (at_time db now)
        ++ record {
          scope = scope_key (of_session signed.target);
          request_id = signed.request_id;
          seen_at = now;
        }
          ∷ [];
  }

  spend_nonce-unseen :
      (signed : Signed) (session : SessionRow)
      → IsPoll signed session
      → spend_nonce (at_time db now) (of_session signed.target) signed t now ≡ ok (poll_db signed)
  unfolding spend_nonce
  spend_nonce-unseen signed session p = rw (spend_nonce, p.unseen) refl

  -- The released session is found with its contribution.
  set_session-Holds :
      (signed : Signed) (session : SessionRow) (c : Bytes)
      → IsPoll signed session
      → Holds signed.target c (
          set_session
            (poll_db signed)
            session.session_id
            (λ old. record old { status = released; contribution = some c }))
  unfolding load_session
  set_session-Holds signed session c p =
      let change = λ (old : SessionRow). record old { status = released; contribution = some c } in
      let moved =
        set_session-find (poll_db signed) session.session_id signed.target change session
          (λ row. refl) p.found in
      (change session, rw text_eq_refl at moved, refl)

  -- A poll that the candidate signed, that is fresh and new, at a time at which the release conditions
  -- hold, commits where the enrollment keeps the share that it was accepted with, the session's stored
  -- request verifies and binds to the enrollment's context, its destination is a candidate's key pair,
  -- and its expiry and the time can be formatted: the session then holds a contribution that carries
  -- to that candidate exactly what the holder sealed.
  pub read_recovery-Carries :
      (signed : Signed) (session : SessionRow) (row : EnrollmentRow)
      (trial ephemeral candidate : Bytes)
      → IsPoll signed session
      → find (at_sequence session.enrollment_id session.sequence) db.enrollments ≡ some row
      → Releasable (enrollment_facts row) (session_facts session) now db.high_water emit
      → CanCarry x t now row session trial candidate
      → (verified : Session) × (sealed : Bytes) × (contribution : Contribution) × (db' : Db)
        × (answer : Result Reply) × (read_recovery x t signed now trial ephemeral db
            ≡ ok (db', answer))
        × Holds signed.target contribution.canonical db'
        × Carries x t candidate row.enrollment sealed verified now contribution
  unfolding read_recovery transaction verify_signature check_fresh load_enrollment serve_release
      load_session
  read_recovery-Carries signed session row trial ephemeral candidate p found r c =
      let (verified, sealed, contribution, made, _, _, carried) =
        emit_contribution-Carries x t now (poll_db signed) row session trial ephemeral candidate
          c in
      let spent = spend_nonce-unseen signed session p in
      let ready =
        (release_iff (enrollment_facts row) (session_facts session) now db.high_water emit).1 r in
      let early : ltb_ℤ now db.high_water ≡ false = let o = p.on_time in ground (arith, o) in
      (
        verified,
        sealed,
        contribution,
        set_session (poll_db signed) session.session_id
            (λ old. record old { status = released; contribution = some contribution.canonical }),
        read_receipt x t session row signed released (some contribution.canonical) now,
        rw (early, p.found, p.verified, p.recent, spent, found, ready, made) refl,
        set_session-Holds signed session contribution.canonical p,
        carried,
      )
