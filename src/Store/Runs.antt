-- ===== src/Store/Runs.antt =====
-- Runs of the store: any sequence of requests and invitations, at any times, and the clock.
use onym_recovery_trustee.Prelude.{
  Bytes, Option, Text, [], arith, none, refl, ℤ, ◌++◌, ◌+ℤ◌, ◌<ℤ◌, ◌∷◌, ◌≡◌, ◌≤ℤ◌,
}
use onym_recovery_trustee.Code.{Code, bind-ok, err, ok}
use onym_recovery_trustee.External.{External}
use onym_recovery_trustee.Store.{Db, Invitation, Step, settle}
use onym_recovery_trustee.Store.Commit.{Commit, at_time}
use onym_recovery_trustee.Store.Commit.Serving.{handle_step-Commit}
use onym_recovery_trustee.Store.Commit.Steps.{transaction-bind-ok}
use onym_recovery_trustee.Store.Requests.{random_id}
use onym_recovery_trustee.Store.Rows.{insert-ok}
use onym_recovery_trustee.Store.Serving.{Draws, create_invitation, handle, handle_step}
use onym_recovery_trustee.Store.Tables.{by_digest, insert}
use onym_recovery_trustee.Trustee.{Trustee}
use onym_recovery_trustee.Wire.Documents.{digest}

module _ (x : External) (t : Trustee) where
  -- The database after a request.
  abbrev pub after : Bytes → Draws → ℤ → Db → Db
  after body draws now db = (handle x t body draws now db).1

  -- What may have become of a database: requests and invitations follow each other in any order, with
  -- any randomness, and each at any time that the host's clock shows.
  pub data Run : Db → Db → Type 0 where
    stay : (db : Db) → Run db db
    request :
        (db db' : Db) (body : Bytes) (draws : Draws) (now : ℤ)
        → Run db db'
        → Run db (after body draws now db')
    invite :
        (db db' db2 : Db) (lifetime_secs now : ℤ) (random : Option Bytes) (code : Text)
        → Run db db'
        → create_invitation x lifetime_secs now random db' ≡ ok (db2, code)
        → Run db db2

  -- What one event does: nothing, a commit of a request, or an invitation more.
  pub data Event (now : ℤ) (db db' : Db) : Type 0 where
    nothing : db' ≡ db → Event now db db'
    commits : (db.high_water ≤ℤ now) → Commit t now db db' → Event now db db'
    invites :
        (invitation : Invitation)
        → (db.high_water ≤ℤ now)
        → db' ≡ record (at_time db now) { invitations = db.invitations ++ invitation ∷ [] }
        → Event now db db'

  settle-Event :
      (body : Bytes) (draws : Draws) (now : ℤ) (db : Db) (step : Step)
      → handle_step x t body draws now db ≡ step
      → Event now db (settle db step).1
  unfolding settle
  settle-Event body draws now db (err code) h = nothing refl
  settle-Event body draws now db (ok (db', answer)) h =
      let (on_time, c) = handle_step-Commit x t body draws now db db' answer h in commits on_time c

  pub handle-Event :
      (body : Bytes) (draws : Draws) (now : ℤ) (db : Db) → Event now db (after body draws now db)
  unfolding handle
  handle-Event body draws now db = settle-Event body draws now db _ refl

  pub create_invitation-Event :
      (lifetime_secs now : ℤ) (random : Option Bytes) (db db' : Db) (code : Text)
      → create_invitation x lifetime_secs now random db ≡ ok (db', code)
      → Event now db db'
  unfolding create_invitation
  create_invitation-Event lifetime_secs now random db db' code h =
      let (c, _, h1) = bind-ok (random_id x random) _ h in
      let (on_time, h2) = transaction-bind-ok db now _ h1 in
      let (rows, e, h3) = bind-ok (insert (by_digest (digest x c)) _ db.invitations) _ h2 in
      let (free, added) = insert-ok (by_digest (digest x c)) _ db.invitations e in
      invites (record { digest = digest x c; expires_at = now +ℤ lifetime_secs; used_at = none })
        on_time (ground arith)

  -- What every event keeps holds at the end of a run.
  pub Run-keeps {ℓ} :
      (P : Db → Type ℓ) (db db' : Db)
      → ((now : ℤ) (a b : Db) → Event now a b → P a → P b)
      → Run db db'
      → P db
      → P db'
  Run-keeps P db db' keeps (stay c) p = p
  Run-keeps P db db' keeps (request a c body draws now run) p =
      keeps now c _ (handle-Event body draws now c) (Run-keeps P db c keeps run p)
  Run-keeps P db db' keeps (invite a c d lifetime_secs now random code run e) p =
      keeps now c d (create_invitation-Event lifetime_secs now random c d code e)
        (Run-keeps P db c keeps run p)

  -- Runs follow each other.
  pub Run-append : (a b c : Db) → Run a b → Run b c → Run a c
  Run-append a b c first (stay db) = first
  Run-append a b c first (request d e body draws now run) =
      request a e body draws now (Run-append a d e first run)
  Run-append a b c first (invite d e f lifetime_secs now random code run h) =
      invite a e f lifetime_secs now random code (Run-append a d e first run) h

  -- Before the clock, no step commits.
  late-step :
      (body : Bytes) (draws : Draws) (now : ℤ) (db : Db) (step : Step)
      → now <ℤ db.high_water
      → handle_step x t body draws now db ≡ step
      → (code : Code) × (step ≡ err code)
  late-step body draws now db (err code) late h = (code, refl)
  late-step body draws now db (ok (db', answer)) late h =
      let (on_time, c) = handle_step-Commit x t body draws now db db' answer h in
      absurd (ground (arith, on_time))

  -- A request at a time before the clock is refused with a code and changes nothing.
  pub late-refused :
      (body : Bytes) (draws : Draws) (now : ℤ) (db : Db)
      → now <ℤ db.high_water
      → (code : Code) × (handle x t body draws now db ≡ (err code, db))
  unfolding handle settle
  late-refused body draws now db late =
      let (code, e) = late-step body draws now db (handle_step x t body draws now db) late refl in
      (code, rw e refl)
