-- ===== src/Store/Disclosure.antt =====
-- src/store.rs: what `read_recovery` hands out, and to whom.
use mathlib.Core.Path.{subst}
use onym_recovery_trustee.Prelude.{
  Bytes, Option, Option-cases, Text, ap, arith, codes, inl, inr, none, refl, some, sym, text_eq_iff,
  text_eq_refl, true, ℕ, ℤ, ◌∙◌, ◌≡◌,
}
use onym_recovery_trustee.Code.{
  Result, bind-ok, err, ok, ok-injective, ok_or-bind-ok, recovery_cooling_down, recovery_expired,
  recovery_refused, recovery_vetoed, then-ok,
}
use onym_recovery_trustee.Crypto.{verify}
use onym_recovery_trustee.External.{External}
use onym_recovery_trustee.Json.{Json}
use onym_recovery_trustee.State.{Release, SessionStatus, emit, release, released, resend}
use onym_recovery_trustee.State.Releasing.{Releasable, release_iff}
use onym_recovery_trustee.Store.{
  Db, EnrollmentRow, Reply, SessionRow, enrollment_facts, issued, receipt, session_facts,
}
use onym_recovery_trustee.Store.Commit.{at_time}
use onym_recovery_trustee.Store.Commit.Steps.{spend_nonce-ok, transaction-bind-ok}
use onym_recovery_trustee.Store.Contributions.{Holds}
use onym_recovery_trustee.Store.Moves.{set_session-find}
use onym_recovery_trustee.Store.Receipts.{session_base}
use onym_recovery_trustee.Store.Recovering.{
  parsed_contribution, read_receipt, read_recovery, serve_release,
}
use onym_recovery_trustee.Store.Requests.{
  check_fresh, of_session, spend_nonce, time, verify_signature,
}
use onym_recovery_trustee.Store.Rows.{find_sound}
use onym_recovery_trustee.Store.Tables.{by_session, find, load_enrollment, load_session}
use onym_recovery_trustee.Trustee.{Trustee}
use onym_recovery_trustee.Trustee.Sessions.{or_unavailable, release_contribution, verify_session}
use onym_recovery_trustee.Wire.{Receipt, Signed}
use onym_recovery_trustee.Wire.Documents.{parse}
use onym_recovery_trustee.Wire.Encoding.{sequence}

module _ (x : External) (t : Trustee) where
  -- What holds when `read_recovery` answers with a contribution.
  pub record Disclosed (signed : Signed) (now : ℤ) (db db' : Db) (c : Json) : Type 0 where
    pub session : SessionRow
    pub row : EnrollmentRow
    pub kind : Release
    pub bytes : Bytes
    pub session_found : load_session db signed.target ≡ some session
    pub row_found : load_enrollment db session.enrollment_id session.sequence ≡ ok row
    pub by_candidate : verify x session.proof_key signed.message signed.signature ≡ true
    pub fresh : check_fresh signed t now ≡ ok tt
    pub releasable :
        Releasable (enrollment_facts row) (session_facts session) now db.high_water kind
    pub stored : Holds signed.target bytes db'
    pub handed_out : parse x bytes ≡ some c

  contribution_of : Reply → Option Json
  contribution_of (issued reply) = none
  contribution_of (receipt r) = r.contribution

  parsed_contribution-some :
      (contribution : Option Bytes) (c : Json)
      → parsed_contribution x t contribution ≡ ok (some c)
      → (bytes : Bytes) × (contribution ≡ some bytes) × (parse x bytes ≡ some c)
  parsed_contribution-some none c h = cc
  parsed_contribution-some (some bytes) c h = elim (Option-cases (parse x bytes)) [
    | inl e ↦ absurd (ground (arith, e, h))
    | inr (value, e) ↦ (bytes, refl, ground (arith, e, h))
  ]

  -- The receipt holds the contribution that `read_recovery` goes on with.
  read_receipt-contribution :
      (session : SessionRow) (row : EnrollmentRow) (signed : Signed) (status : SessionStatus)
      (contribution : Option Bytes) (now : ℤ) (r : Receipt) (c : Json)
      → read_receipt x t session row signed status contribution now ≡ ok (receipt r)
      → r.contribution ≡ some c
      → (bytes : Bytes) × (contribution ≡ some bytes) × (parse x bytes ≡ some c)
  unfolding read_receipt contribution_of
  read_receipt-contribution session row signed status contribution now r c h g =
      let (base, _, h1) =
        bind-ok (session_base x t session row.enrollment (codes "read-recovery")) _ h in
      let (recorded_at, _, h2) = bind-ok (time x now) _ h1 in
      let (parsed, e, h3) = bind-ok (parsed_contribution x t contribution) _ h2 in
      let same = ap contribution_of (ok-injective h3) in
      parsed_contribution-some contribution c (e ∙ ap ok (same ∙ g))

  serve_release-some :
      (tx : Db) (row : EnrollmentRow) (session : SessionRow) (trial ephemeral : Bytes) (now : ℤ)
      (r : Result Release) (tx' : Db) (status : SessionStatus) (bytes : Bytes)
      → serve_release x t tx row session trial ephemeral now r ≡ ok (tx', status, some bytes)
      → find (by_session session.session_id) tx.sessions ≡ some session
      → (k : Release) × (r ≡ ok k) × Holds session.session_id bytes tx'
  unfolding serve_release load_session
  serve_release-some tx row session trial ephemeral now (ok emit) tx' status bytes h found =
      let (sealed, _, h1) = ok_or-bind-ok row.sealed_envelope _ _ h in
      let (verified, _, h2) =
        bind-ok (or_unavailable (verify_session x trial session.request)) _ h1 in
      let (c, _, h3) =
        bind-ok (release_contribution x t ephemeral row.enrollment sealed verified now) _ h2 in
      let change =
        λ (old : SessionRow). record old { status = released; contribution = some c.canonical } in
      let moved =
        set_session-find tx session.session_id session.session_id change session (λ s. refl)
          found in
      (
        emit,
        refl,
        (
          change session,
          ground (arith, h3, moved, text_eq_refl session.session_id),
          ground (arith, h3),
        ),
      )
  serve_release-some tx row session trial ephemeral now (ok resend) tx' status bytes h found =
      (resend, refl, (session, ground (arith, found, h), ground (arith, h)))
  serve_release-some tx row session trial ephemeral now (err recovery_cooling_down) tx' status b h
        f =
      absurd (ground (arith, h))
  serve_release-some tx row session trial ephemeral now (err recovery_vetoed) tx' status b h f =
      absurd (ground (arith, h))
  serve_release-some tx row session trial ephemeral now (err recovery_refused) tx' status b h f =
      absurd (ground (arith, h))
  serve_release-some tx row session trial ephemeral now (err recovery_expired) tx' status b h f =
      absurd (ground (arith, h))
  serve_release-some tx row session trial ephemeral now (err code) tx' status b h f = cc

  verify_signature-ok :
      (signed : Signed) (key : Bytes) (w : Unit {0})
      → verify_signature x signed key ≡ ok w
      → verify x key signed.message signed.signature ≡ true
  unfolding verify_signature
  verify_signature-ok signed key w h = ground arith

  -- A session that is found under an ID has it, and is found under its own.
  own_key :
      (db : Db) (id : Text) (s : SessionRow)
      → load_session db id ≡ some s
      → (s.session_id ≡ id) × (find (by_session s.session_id) db.sessions ≡ some s)
  unfolding load_session
  own_key db id s h =
      let e = (text_eq_iff s.session_id id).0 (find_sound (by_session id) db.sessions s h) in
      (e, subst (λ n. find (by_session n) db.sessions ≡ some s) (sym e) h)

  -- The two parts of a commit.
  pub parts :
      (a b : Db) (c d : Result Reply)
      → ◌≡◌ {A = Db × Result Reply} (a, c) (b, d)
      → (a ≡ b) × (c ≡ d)
  parts a b c d h = (ap (λ p. p.0) h, ap (λ p. p.1) h)

  pub find-at_time :
      (db : Db) (now : ℤ) (id : Text) → load_session db id ≡ load_session (at_time db now) id
  unfolding load_session
  find-at_time db now id = refl

  pub load-same :
      (db db' : Db) (id : Text) (sequence : ℕ)
      → db'.enrollments ≡ db.enrollments
      → load_enrollment db id sequence ≡ load_enrollment db' id sequence
  unfolding load_enrollment
  load-same db db' id sequence e = rw e

  served-given :
      (r : Result (Db × SessionStatus × Option Bytes)) (db : Db) (status : SessionStatus)
      (contribution : Option Bytes) (bytes : Bytes)
      → r ≡ ok (db, status, contribution)
      → contribution ≡ some bytes
      → r ≡ ok (db, status, some bytes)
  served-given r db status contribution bytes h g = ground (arith, h, g)

  -- `read_recovery` answers with a contribution only to a fresh request that the candidate's key
  -- signed, and only when all of `release`'s conditions hold of the session and its enrollment: the
  -- enrollment accepted and in its term, the session cooled down and unexpired. What it hands out is
  -- what the committed database then holds as the session's contribution.
  pub Disclosed-read :
      (signed : Signed) (now : ℤ) (trial ephemeral : Bytes) (db db' : Db) (r : Receipt) (c : Json)
      → read_recovery x t signed now trial ephemeral db ≡ ok (db', ok (receipt r))
      → r.contribution ≡ some c
      → Disclosed signed now db db' c
  unfolding read_recovery
  Disclosed-read signed now trial ephemeral db db' r c h g =
      let (_, h1) = transaction-bind-ok db now _ h in
      let (session, e2, h2) = ok_or-bind-ok (load_session (at_time db now) signed.target) _ _ h1 in
      let ((w, e3), h3) = then-ok (verify_signature x signed session.proof_key) _ h2 in
      let ((u, fresh), h4) = then-ok (check_fresh signed t now) _ h3 in
      let (spent_db, e5, h5) =
        bind-ok (spend_nonce (at_time db now) (of_session signed.target) signed t now) _ h4 in
      let same =
        (spend_nonce-ok (at_time db now) (of_session signed.target) signed t now spent_db e5).1 in
      let (row, e6, h6) =
        bind-ok (load_enrollment spent_db session.enrollment_id session.sequence) _ h5 in
      let ((served_db, status, contribution), e7, h7) =
        bind-ok
          (serve_release x t spent_db row session trial ephemeral now
            (release (enrollment_facts row) (session_facts session) now db.high_water))
          _ h6 in
      let (committed, answered) = parts _ _ _ _ (ok-injective h7) in
      let (bytes, given, value) =
        read_receipt-contribution session row signed status contribution now r c answered g in
      let key = own_key (at_time db now) signed.target session e2 in
      let (kind, out, held) =
        serve_release-some spent_db row session trial ephemeral now _ served_db status bytes
          (served-given _ served_db status contribution bytes e7 given) (rw same key.1) in
      record {
        session = session;
        row = row;
        kind = kind;
        bytes = bytes;
        session_found = find-at_time db now signed.target ∙ e2;
        row_found =
            load-same db spent_db session.enrollment_id session.sequence
              (ap (λ (d : Db). d.enrollments) same)
            ∙ e6;
        by_candidate = verify_signature-ok signed session.proof_key w e3;
        fresh = fresh;
        releasable = (release_iff _ _ _ _ kind).0 out;
        stored =
            subst (λ d. Holds signed.target bytes d) committed
              (subst (λ n. Holds n bytes served_db) key.0 held);
        handed_out = value;
      }
