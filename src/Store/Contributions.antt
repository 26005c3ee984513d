-- ===== src/Store/Contributions.antt =====
-- src/store.rs: the contribution of a session: written once, and not before the cooldown is over.
use mathlib.Core.Path.{subst}
use onym_recovery_trustee.Prelude.{
  Bool-cases, Bytes, Option-cases, Text, all, ap, arith, inl, inr, none, refl, some, sym, true, ℤ,
  ◌∙◌, ◌≡◌, ◌≤ℤ◌, ◌⊎◌,
}
use onym_recovery_trustee.Code.{some-injective}
use onym_recovery_trustee.External.{External}
use onym_recovery_trustee.State.{cooling_down, released}
use onym_recovery_trustee.Store.{Db, SessionRow, empty}
use onym_recovery_trustee.Store.Commit.{
  Commit, StartsAttempt, at_time, begun, challenged, ended, enrolled, polled, retried, served,
  spent, stopped,
}
use onym_recovery_trustee.Store.Commit.Steps.{spend_nonce-ok}
use onym_recovery_trustee.Store.Ending.{bury}
use onym_recovery_trustee.Store.Moves.{
  Commit-Moves, Event-Moves, Moves, let_out, set_session-none, stops, unmoved,
}
use onym_recovery_trustee.Store.Recovering.{count_attempt, set_session, stopped_status}
use onym_recovery_trustee.Store.Rows.{find-append-none, find-last}
use onym_recovery_trustee.Store.Runs.{Event, Run, Run-keeps, commits, invites, nothing}
use onym_recovery_trustee.Store.Tables.{by_session, find, load_session, spend_challenge}
use onym_recovery_trustee.Trustee.{Trustee}
use onym_recovery_trustee.Wire.Encoding.{is_some}

-- What holds of a session by its status, at a clock.
pub record Guarded (clock : ℤ) (s : SessionRow) : Type 0 where
  pub waiting : s.status ≡ cooling_down → s.contribution ≡ none
  pub given : s.status ≡ released → is_some s.contribution ≡ true
  pub cooled : is_some s.contribution ≡ true → (s.cooldown_ends_at ≤ℤ clock)
  pub started : s.created_at ≤ℤ clock

-- Every session found is guarded.
abbrev pub AllGuarded : Db → Type 0
AllGuarded db = (id : Text) (s : SessionRow) → load_session db id ≡ some s → Guarded db.high_water s

later-Guarded :
    (clock later : ℤ) (s : SessionRow) → (clock ≤ℤ later) → Guarded clock s → Guarded later s
later-Guarded clock later s on_time g = record {
  waiting = g.waiting;
  given = g.given;
  cooled = λ h. let c = g.cooled h in omega (arith, c, on_time);
  started = let c = g.started in omega (arith, c, on_time);
}

Moves-Guarded :
    (clock now : ℤ) (s s' : SessionRow)
    → (clock ≤ℤ now)
    → Moves now s s'
    → Guarded clock s
    → Guarded now s'
Moves-Guarded clock now s s' on_time (unmoved e) g =
    subst (Guarded now) (sym e) (later-Guarded clock now s on_time g)
Moves-Guarded clock now s s' on_time (let_out c cooling cool unexpired e) g =
    subst (Guarded now) (sym e) (record {
      waiting = λ h. cc;
      given = λ h. refl;
      cooled = λ h. cool;
      started = let b = g.started in omega (arith, b, on_time);
    })
Moves-Guarded clock now s s' on_time (stops status open' unexpired kind e) g =
    subst (Guarded now) (sym e) (record {
      waiting = λ h. absurd (ground (arith, h, kind));
      given = λ h. absurd (ground (arith, h, kind));
      cooled = λ h. let c = g.cooled h in omega (arith, c, on_time);
      started = let b = g.started in omega (arith, b, on_time);
    })

-- A session that a commit adds.
pub record Fresh (now : ℤ) (s : SessionRow) : Type 0 where
  pub starts : StartsAttempt s.status
  pub empty_handed : s.contribution ≡ none
  pub created : s.created_at ≡ now

Fresh-Guarded : (now : ℤ) (s : SessionRow) → Fresh now s → Guarded now s
Fresh-Guarded now s f = record {
  waiting = λ h. f.empty_handed;
  given = λ h. absurd (ground (arith, h, f.starts));
  cooled = λ h. absurd (ground (arith, h, f.empty_handed));
  started = rw f.created (omega arith);
}

module _ (t : Trustee) (now : ℤ) (db db' : Db) (id : Text) (s : SessionRow) where
  -- A session that is found after a commit but not before is fresh.
  pub Commit-Fresh :
      Commit t now db db' → load_session db id ≡ none → load_session db' id ≡ some s → Fresh now s
  unfolding load_session set_session spend_challenge bury count_attempt
  Commit-Fresh (retried e) h k = absurd (ground (arith, e, h, k))
  Commit-Fresh (challenged c _ _ e) h k = absurd (ground (arith, e, h, k))
  Commit-Fresh (spent challenge invitation _ e) h k = absurd (ground (arith, e, h, k))
  Commit-Fresh (enrolled new invitation _ _ _ _ _ _ _ e) h k = absurd (ground (arith, e, h, k))
  Commit-Fresh (polled scope signed _ spend) h k =
      let nonces = (spend_nonce-ok (at_time db now) scope signed t now db' spend).1 in
      absurd (ground (arith, nonces, h, k))
  Commit-Fresh (begun row new _ _ _ _ _ starts none_yet created _ e) h k =
      elim (Bool-cases (by_session id new)) [
        | inr miss ↦
            absurd (ground (arith, find-append-none (by_session id) db.sessions new h miss, e, k))
        | inl hit ↦
            let found = find-last (by_session id) db.sessions new h hit in
            let same =
              some-injective
                (sym found ∙ (sym (ap (λ (d : Db). find (by_session id) d.sessions) e) ∙ k)) in
            subst (Fresh now) same
              (record { starts = starts; empty_handed = none_yet; created = created })
      ]
  Commit-Fresh (served signed spent_db session row c _ spend _ _ e) h k =
      let nonces = (spend_nonce-ok (at_time db now) _ signed t now spent_db spend).1 in
      let free =
        set_session-none spent_db session.session_id id
          (λ old. record old { status = released; contribution = some c }) (λ r. refl)
          (rw nonces h) in
      absurd (ground (arith, e, free, k))
  Commit-Fresh (stopped signed session holder live _ _ _ e) h k =
      let free =
        set_session-none (at_time db now) signed.target id
          (λ old. record old { status = stopped_status session.status live holder }) (λ r. refl)
          h in
      absurd (ground (arith, e, free, k))
  Commit-Fresh (ended row operation _ _ e) h k = absurd (ground (arith, e, h, k))

  Commit-clock :
      (db.high_water ≤ℤ now) → Commit t now db db' → ((db' ≡ db) ⊎ (db'.high_water ≡ now))
  unfolding set_session spend_challenge bury count_attempt
  Commit-clock on_time (retried e) = inl e
  Commit-clock on_time (challenged c _ _ e) = inr (ground (arith, e))
  Commit-clock on_time (spent challenge invitation _ e) = inr (ground (arith, e))
  Commit-clock on_time (enrolled new invitation _ _ _ _ _ _ _ e) = inr (ground (arith, e))
  Commit-clock on_time (polled scope signed _ spend) =
      let nonces = (spend_nonce-ok (at_time db now) scope signed t now db' spend).1 in
      inr (ground (arith, nonces))
  Commit-clock on_time (begun row new _ _ _ _ _ _ _ _ _ e) = inr (ground (arith, e))
  Commit-clock on_time (served signed spent_db session row c _ spend _ _ e) =
      let nonces = (spend_nonce-ok (at_time db now) _ signed t now spent_db spend).1 in
      inr (ground (arith, e, nonces))
  Commit-clock on_time (stopped signed session holder live _ _ _ e) = inr (ground (arith, e))
  Commit-clock on_time (ended row operation _ _ e) = inr (ground (arith, e))

  Commit-Guarded :
      (db.high_water ≤ℤ now)
      → Commit t now db db'
      → AllGuarded db
      → load_session db' id ≡ some s
      → Guarded db'.high_water s
  Commit-Guarded on_time k all h = elim (Commit-clock on_time k) [
    | inl same ↦ rw same (all id s (rw same at h))
    | inr clock ↦ elim (Option-cases (load_session db id)) [
      | inl free ↦ rw clock (Fresh-Guarded now s (Commit-Fresh k free h))
      | inr (old, found) ↦
          let (s', found', moved) = Commit-Moves t now db db' id old k found in
          let g = Moves-Guarded db.high_water now old s' on_time moved (all id old found) in
          rw clock (subst (Guarded now) (some-injective (sym found' ∙ h)) g)
    ]
  ]

-- The session `id` has the contribution `c`.
abbrev pub Holds : Text → Bytes → Db → Type 0
Holds id c db = (s : SessionRow) × (load_session db id ≡ some s) × (s.contribution ≡ some c)

module _ (x : External) (t : Trustee) where
  pub Event-AllGuarded : (now : ℤ) (a c : Db) → Event x t now a c → AllGuarded a → AllGuarded c
  unfolding load_session
  Event-AllGuarded now a c (nothing same) all = subst AllGuarded (sym same) all
  Event-AllGuarded now a c (commits on_time k) all =
      λ id s h. Commit-Guarded t now a c id s on_time k all h
  Event-AllGuarded now a c (invites invitation on_time e) all =
      λ id s h. rw e (later-Guarded a.high_water now s on_time (all id s (ground (arith, e, h))))

  empty-AllGuarded : AllGuarded empty
  unfolding load_session find
  empty-AllGuarded id s h = cc

  -- In any database that requests and invitations lead to from an empty one, at the clock that it
  -- records: a session that cools down has no contribution, a released session has one, a session has
  -- a contribution only if its cooldown is over, and it was created no later than the clock.
  pub Run-AllGuarded : (db : Db) → Run x t empty db → AllGuarded db
  Run-AllGuarded db run = Run-keeps x t AllGuarded empty db Event-AllGuarded run empty-AllGuarded

  Moves-contribution :
      (clock now : ℤ) (s s' : SessionRow) (c : Bytes)
      → Guarded clock s
      → Moves now s s'
      → s.contribution ≡ some c
      → s'.contribution ≡ some c
  Moves-contribution clock now s s' c g (unmoved e) h = ground (arith, e, h)
  Moves-contribution clock now s s' c g (let_out d cooling _ _ e) h =
      let none_yet = g.waiting cooling in absurd (ground (arith, none_yet, h))
  Moves-contribution clock now s s' c g (stops status _ _ _ e) h = ground (arith, e, h)

  -- Once a session of a database whose sessions are guarded, as those of every reachable database are,
  -- has a contribution, it has that very contribution for good:
  -- it is neither sealed anew nor removed, whatever requests and invitations follow.
  pub contribution-Run :
      (db db' : Db) (id : Text) (c : Bytes)
      → AllGuarded db
      → Holds id c db
      → Run x t db db'
      → Holds id c db'
  contribution-Run db db' id c guarded holds run =
      (Run-keeps x t (λ d. AllGuarded d × Holds id c d) db db'
        (λ now a b e (all, (s, found, has)).
          let (s', found', moved) = Event-Moves x t now a b id s e found in
          (
            Event-AllGuarded now a b e all,
            (s', found', Moves-contribution a.high_water now s s' c (all id s found) moved has),
          ))
        run (guarded, holds)).1
