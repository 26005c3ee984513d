-- ===== src/Store/Moves.antt =====
-- src/store.rs: the state machine of a session, as the requests drive it.
use mathlib.Core.Path.{subst}
use onym_recovery_trustee.Prelude.{
  Bool, Bool-cases, Bytes, Text, [], ap, arith, false, if◌then◌else◌, inl, inr, none, refl, some,
  sym, text_eq, text_eq_iff, true, ℤ, ◌<ℤ◌, ◌∙◌, ◌∷◌, ◌≡◌, ◌≤ℤ◌, ◌⊎◌,
}
use onym_recovery_trustee.External.{External}
use onym_recovery_trustee.State.{SessionStatus, cancelled, cooling_down, released, vetoed}
use onym_recovery_trustee.Store.{Db, SessionRow}
use onym_recovery_trustee.Store.Commit.{
  Commit, at_time, begun, challenged, ended, enrolled, polled, retried, served, spent, stopped,
}
use onym_recovery_trustee.Store.Commit.Steps.{spend_nonce-ok}
use onym_recovery_trustee.Store.Ending.{bury}
use onym_recovery_trustee.Store.Recovering.{count_attempt, is_open, set_session, stopped_status}
use onym_recovery_trustee.Store.Requests.{spend_nonce}
use onym_recovery_trustee.Store.Rows.{find-append, find_sound, find-update}
use onym_recovery_trustee.Store.Runs.{
  Event, Run, Run-keeps, after, commits, handle-Event, invites, nothing,
}
use onym_recovery_trustee.Store.Serving.{Draws}
use onym_recovery_trustee.Store.Tables.{by_session, find, load_session, spend_challenge}
use onym_recovery_trustee.Trustee.{Trustee}

pub data Moves (now : ℤ) (s s' : SessionRow) : Type 0 where
  unmoved : s' ≡ s → Moves now s s'
  let_out :
      (c : Bytes)
      → s.status ≡ cooling_down
      → (s.cooldown_ends_at ≤ℤ now)
      → (now <ℤ s.expires_at)
      → s' ≡ record s { status = released; contribution = some c }
      → Moves now s s'
  stops :
      (status : SessionStatus)
      → is_open s.status ≡ true
      → (now <ℤ s.expires_at)
      → ((status ≡ vetoed) ⊎ (status ≡ cancelled))
      → s' ≡ record s { status = status }
      → Moves now s s'

-- The session `id` of `db'` is what an event at `now` made of `s`.
abbrev pub Moved : Text → ℤ → SessionRow → Db → Type 0
Moved id now s db' = (s' : SessionRow) × (load_session db' id ≡ some s') × Moves now s s'

pub set_session-find :
    (db : Db) (target id : Text) (change : SessionRow → SessionRow) (s : SessionRow)
    → ((row : SessionRow) → (change row).session_id ≡ row.session_id)
    → find (by_session id) db.sessions ≡ some s
    → find (by_session id) (set_session db target change).sessions
      ≡ some (if by_session target s then change s else s)
unfolding set_session
set_session-find db target id change s keeps h = rw (
  find-update (by_session id) (by_session target) change db.sessions
      (λ row. ground (arith, keeps row)),
  h,
)

-- A change adds no session.
pub set_session-none :
    (db : Db) (target id : Text) (change : SessionRow → SessionRow)
    → ((row : SessionRow) → (change row).session_id ≡ row.session_id)
    → find (by_session id) db.sessions ≡ none
    → find (by_session id) (set_session db target change).sessions ≡ none
unfolding set_session
set_session-none db target id change keeps h = rw (
  find-update (by_session id) (by_session target) change db.sessions
      (λ row. ground (arith, keeps row)),
  h,
)

pub same_key : (k a b : Text) → text_eq k a ≡ true → text_eq k b ≡ true → a ≡ b
same_key k a b h g = sym ((text_eq_iff k a).0 h) ∙ (text_eq_iff k b).0 g

-- Two rows found under the same ID are one.
same_session :
    (db : Db) (target id : Text) (s session : SessionRow)
    → find (by_session target) db.sessions ≡ some session
    → find (by_session id) db.sessions ≡ some s
    → by_session target s ≡ true
    → session ≡ s
same_session db target id s session h k hit =
    let e = same_key s.session_id id target (find_sound (by_session id) db.sessions s k) hit in
    ground (arith, h, subst (λ n. find (by_session n) db.sessions ≡ some s) e k)

stopped_status-Moves :
    (now : ℤ) (s : SessionRow) (live holder : Bool)
    → (live ≡ true → (is_open s.status ≡ true) × (now <ℤ s.expires_at))
    → Moves now s (record s { status = stopped_status s.status live holder })
stopped_status-Moves now s true true h = stops vetoed (h refl).0 (h refl).1 (inl refl) refl
stopped_status-Moves now s true false h = stops cancelled (h refl).0 (h refl).1 (inr refl) refl
stopped_status-Moves now s false holder h = unmoved refl

module _ (t : Trustee) (now : ℤ) (db db' : Db) (id : Text) (s : SessionRow) where
  found-unmoved : load_session db id ≡ some s → db'.sessions ≡ db.sessions → Moved id now s db'
  unfolding load_session
  found-unmoved h e = (s, rw e h, unmoved refl)

  -- A session that a commit finds is moved as the state machine allows.
  pub Commit-Moves : Commit t now db db' → load_session db id ≡ some s → Moved id now s db'
  unfolding load_session set_session spend_challenge spend_nonce bury count_attempt
  Commit-Moves (retried e) h = found-unmoved h (ground (arith, e))
  Commit-Moves (challenged c _ _ e) h = found-unmoved h (ground (arith, e))
  Commit-Moves (spent challenge invitation _ e) h = found-unmoved h (ground (arith, e))
  Commit-Moves (enrolled row invitation _ _ _ _ _ _ _ e) h = found-unmoved h (ground (arith, e))
  Commit-Moves (polled scope signed _ e) h = found-unmoved h (ground (arith, e))
  Commit-Moves (begun row new _ _ _ _ _ _ _ _ _ e) h =
      (s, rw e (find-append (by_session id) db.sessions (new ∷ []) s h), unmoved refl)
  Commit-Moves (served signed spent_db session row c _ spend found r e) h =
      let spent = (spend_nonce-ok (at_time db now) _ signed t now spent_db spend).1 in
      let same = ap (λ (d : Db). d.sessions) spent in
      let change = λ (old : SessionRow). record old { status = released; contribution = some c } in
      let moved =
        set_session-find spent_db session.session_id id change s (λ row. refl) (rw same h) in
      let key = find_sound (by_session signed.target) db.sessions session found in
      elim (Bool-cases (by_session session.session_id s)) [
        | inr other ↦ (s, ground (arith, e, moved, other), unmoved refl)
        | inl hit ↦
            let one =
              same_session db session.session_id id s session
                (subst (λ n. find (by_session n) db.sessions ≡ some session)
                  (sym ((text_eq_iff session.session_id signed.target).0 key)) found)
                h hit in
            (
              change s,
              ground (arith, e, moved, hit),
              let_out c (ground (arith, one, r.kind)) (ground (arith, one, r.cooled))
                  (ground (arith, one, r.unexpired)) refl,
            )
      ]
  Commit-Moves (stopped signed session holder live _ found open' e) h =
      let change =
        λ (old : SessionRow). record old { status = stopped_status session.status live holder } in
      let moved = set_session-find (at_time db now) signed.target id change s (λ row. refl) h in
      elim (Bool-cases (by_session signed.target s)) [
        | inr other ↦ (s, ground (arith, e, moved, other), unmoved refl)
        | inl hit ↦
            let one = same_session db signed.target id s session found h hit in
            (
              change s,
              ground (arith, e, moved, hit),
              subst
                  (λ (z : SessionRow).
                    Moves now s (record s { status = stopped_status z.status live holder }))
                  (sym one)
                  (stopped_status-Moves now s live holder (
                    subst
                      (λ (z : SessionRow).
                        live ≡ true → (is_open z.status ≡ true) × (now <ℤ z.expires_at))
                      one open')),
            )
      ]
  Commit-Moves (ended row operation _ _ e) h = found-unmoved h (ground (arith, e))

module _ (x : External) (t : Trustee) where
  pub Event-Moves :
      (now : ℤ) (db db' : Db) (id : Text) (s : SessionRow)
      → Event x t now db db'
      → load_session db id ≡ some s
      → Moved id now s db'
  unfolding load_session
  Event-Moves now db db' id s (nothing e) h = (s, ground (arith, e), unmoved refl)
  Event-Moves now db db' id s (commits on_time c) h = Commit-Moves t now db db' id s c h
  Event-Moves now db db' id s (invites invitation on_time e) h =
      (s, ground (arith, e), unmoved refl)

  -- Whatever a request is and however it is answered, it leaves every session that is recorded as it
  -- was, but for two moves: from cooling down to released, with a contribution, at a time at which the
  -- cooldown is over and the session unexpired; and from an open status (cooling down or released) to
  -- vetoed or cancelled, while the session is unexpired. Either changes the status and, on a release,
  -- the contribution, and no other field: the deadlines, the candidate's key and the destination
  -- of a session never change.
  pub handle-Moves :
      (body : Bytes) (draws : Draws) (now : ℤ) (db : Db) (id : Text) (s : SessionRow)
      → load_session db id ≡ some s
      → Moved id now s (after x t body draws now db)
  handle-Moves body draws now db id s h =
      Event-Moves now db (after x t body draws now db) id s (handle-Event x t body draws now db) h

  shut_stays : (now : ℤ) (s s' : SessionRow) → is_open s.status ≡ false → Moves now s s' → s' ≡ s
  shut_stays now s s' shut (unmoved e) = e
  shut_stays now s s' shut (let_out c cooling _ _ e) = absurd (ground (arith, shut, cooling))
  shut_stays now s s' shut (stops status open' _ _ e) = absurd (ground (arith, shut, open'))

  -- A session that is vetoed, cancelled, refused or finalized is never changed again, by any sequence
  -- of requests and invitations at any times: its whole row stays.
  pub shut_session-Run :
      (db db' : Db) (id : Text) (s : SessionRow)
      → load_session db id ≡ some s
      → is_open s.status ≡ false
      → Run x t db db'
      → load_session db' id ≡ some s
  shut_session-Run db db' id s h shut run =
      Run-keeps x t (λ d. load_session d id ≡ some s) db db'
        (λ now a b e k.
          let (s', found, moved) = Event-Moves now a b id s e k in
          found ∙ ap some (shut_stays now s s' shut moved))
        run h
