-- ===== src/Store/Ledgers.antt =====
-- src/store.rs: every request keeps the count of attempts, so a policy's maximum bounds the sessions
-- that an enrollment ever has.
use mathlib.Core.Path.{subst}
use onym_recovery_trustee.Prelude.{
  Bool, Bool-cases, Text, [], arith, if◌then◌else◌, inl, inr, refl, some, sym, text_eq_iff, true, ℤ,
  ◌++◌, ◌+◌, ◌<◌, ◌∙◌, ◌∷◌, ◌≡◌,
}
use onym_recovery_trustee.Code.{some-injective}
use onym_recovery_trustee.External.{External}
use onym_recovery_trustee.State.{released}
use onym_recovery_trustee.Store.{Db, EnrollmentRow, SessionRow, empty}
use onym_recovery_trustee.Store.Attempts.{
  Counted, Known, Ledger, append-Ledger, empty-Ledger, same-Ledger, sessions-Ledger, update-Ledger,
  updated-Counted, updated-Known, updated-named,
}
use onym_recovery_trustee.Store.Commit.{
  Commit, at_time, begun, challenged, ended, enrolled, polled, retried, served, spent, stopped,
}
use onym_recovery_trustee.Store.Commit.Steps.{spend_nonce-ok}
use onym_recovery_trustee.Store.Distinct.{Distinct-update, current-find, current-none, named}
use onym_recovery_trustee.Store.Ending.{bury, ended_status, tombstone}
use onym_recovery_trustee.Store.Moves.{same_key}
use onym_recovery_trustee.Store.Recovering.{count_attempt, set_session, stopped_status}
use onym_recovery_trustee.Store.Rows.{All-append, count-append, find_sound}
use onym_recovery_trustee.Store.Runs.{Run, Run-keeps, commits, invites, nothing}
use onym_recovery_trustee.Store.Tables.{
  at_sequence, by_session, count, find, of_enrollment, spend_challenge, update,
}
use onym_recovery_trustee.Trustee.{Trustee}
use onym_recovery_trustee.Wire.{EnrollmentContext}

module _ (db db' : Db) (row : EnrollmentRow) (s : SessionRow) where
  abbrev context : EnrollmentContext
  context = row.enrollment.context

  abbrev hit : EnrollmentRow → Bool
  hit = at_sequence context.enrollment_id context.enrollment_sequence

  abbrev one_more : EnrollmentRow → EnrollmentRow
  one_more old = record old { attempts_used = old.attempts_used + 1 }

  hit-count :
      (old : EnrollmentRow)
      → s.enrollment_id ≡ context.enrollment_id
      → s.sequence ≡ context.enrollment_sequence
      → of_enrollment old.enrollment_id old.sequence s ≡ hit old
  hit-count old same_id same_sequence = ground (
    arith,
    same_id,
    same_sequence,
    text_eq_iff s.enrollment_id old.enrollment_id,
    text_eq_iff old.enrollment_id context.enrollment_id,
  )

  -- The row that is counted up is the row that the attempt was admitted under.
  same_row :
      (id : Text) (old : EnrollmentRow)
      → find (named context.enrollment_id) db.enrollments ≡ some row
      → find (named id) db.enrollments ≡ some old
      → hit old ≡ true
      → row ≡ old
  same_row id old found k yes' =
      let named_old = find_sound (named id) db.enrollments old k in
      let e =
        same_key old.enrollment_id id context.enrollment_id named_old (ground (arith, yes')) in
      some-injective (sym found ∙ subst (λ n. find (named n) db.enrollments ≡ some old) e k)

  begun-Counted :
      (id : Text) (old : EnrollmentRow)
      → find (named context.enrollment_id) db.enrollments ≡ some row
      → row.attempts_used < row.enrollment.policy.maximum_attempts
      → s.enrollment_id ≡ context.enrollment_id
      → s.sequence ≡ context.enrollment_sequence
      → Ledger db
      → find (named id) db.enrollments ≡ some old
      → Counted (if hit old then one_more old else old) (db.sessions ++ s ∷ [])
  unfolding count
  begun-Counted id old found left same_id same_sequence l k =
      let c = l.counted id old k in
      let more = count-append (of_enrollment old.enrollment_id old.sequence) db.sessions (s ∷ []) in
      let one = hit-count old same_id same_sequence in
      elim (Bool-cases (hit old)) [
        | inr miss ↦ rw miss (record {
          same_id = c.same_id;
          same_sequence = c.same_sequence;
          attempts = ground (arith, c.attempts, more, one, miss);
          bounded = c.bounded;
        })
        | inl yes' ↦ rw yes' (record {
          same_id = c.same_id;
          same_sequence = c.same_sequence;
          attempts = ground (arith, c.attempts, more, one, yes');
          bounded = omega (
            arith,
            subst (λ r. r.attempts_used < r.enrollment.policy.maximum_attempts)
                (same_row id old found k yes') left,
          );
        })
      ]

  begun-Ledger :
      find (named context.enrollment_id) db.enrollments ≡ some row
      → row.attempts_used < row.enrollment.policy.maximum_attempts
      → s.enrollment_id ≡ context.enrollment_id
      → s.sequence ≡ context.enrollment_sequence
      → db'.enrollments ≡ update hit one_more db.enrollments
      → db'.sessions ≡ db.sessions ++ s ∷ []
      → Ledger db
      → Ledger db'
  begun-Ledger found left same_id same_sequence e f l = record {
    distinct = rw e (Distinct-update hit one_more db.enrollments (λ r. refl) l.distinct);
    known =
        rw (e, f)
          (All-append (Known (update hit one_more db.enrollments)) db.sessions (s ∷ [])
            (updated-Known db hit one_more (λ r. refl) l)
            (updated-named db hit one_more s.enrollment_id row (λ r. refl) (rw same_id found), tt));
    counted = λ id r h. subst (Counted r) (sym f) (
        updated-Counted db hit one_more id r (db.sessions ++ s ∷ []) (λ q. refl)
          (λ old k. begun-Counted id old found left same_id same_sequence l k) (rw e at h));
  }

module _ (t : Trustee) (now : ℤ) (db db' : Db) where
  Commit-Ledger : Commit t now db db' → Ledger db → Ledger db'
  unfolding set_session spend_challenge bury count_attempt
  Commit-Ledger (retried e) l = same-Ledger db db' (ground (arith, e)) (ground (arith, e)) l
  Commit-Ledger (challenged c _ _ e) l =
      same-Ledger db db' (ground (arith, e)) (ground (arith, e)) l
  Commit-Ledger (spent challenge invitation _ e) l =
      same-Ledger db db' (ground (arith, e)) (ground (arith, e)) l
  Commit-Ledger (enrolled new invitation _ _ free _ unused same_id same_sequence e) l =
      append-Ledger db db' new (ground (arith, e)) (ground (arith, e))
        (current-none new.enrollment_id db.enrollments free) same_id same_sequence unused l
  Commit-Ledger (polled scope signed _ spend) l =
      let nonces = (spend_nonce-ok (at_time db now) scope signed t now db' spend).1 in
      same-Ledger db db' (ground (arith, nonces)) (ground (arith, nonces)) l
  Commit-Ledger (begun row s found left _ same_id same_sequence _ _ _ _ e) l =
      begun-Ledger db db' row s
        (current-find row.enrollment.context.enrollment_id db.enrollments row l.distinct found) left
        same_id same_sequence (ground (arith, e)) (ground (arith, e)) l
  Commit-Ledger (served signed spent_db session row c _ spend _ _ e) l =
      let nonces = (spend_nonce-ok (at_time db now) _ signed t now spent_db spend).1 in
      sessions-Ledger db db' (by_session session.session_id)
        (λ old. record old { status = released; contribution = some c }) (ground (arith, e, nonces))
        (ground (arith, e, nonces)) (λ s. refl) (λ s. refl) l
  Commit-Ledger (stopped signed session holder live _ _ _ e) l =
      sessions-Ledger db db' (by_session signed.target)
        (λ old. record old { status = stopped_status session.status live holder })
        (ground (arith, e)) (ground (arith, e)) (λ s. refl) (λ s. refl) l
  Commit-Ledger (ended row operation _ _ e) l =
      let c = row.enrollment.context in
      update-Ledger db db' (at_sequence c.enrollment_id c.enrollment_sequence)
        (tombstone (ended_status operation row.status)) (ground (arith, e)) (ground (arith, e))
        (λ r. refl)
        (λ r k. record {
          same_id = k.same_id;
          same_sequence = k.same_sequence;
          attempts = k.attempts;
          bounded = k.bounded;
        })
        l

-- In any database that requests and invitations lead to from an empty one, no two enrollments have the
-- same ID, every session is of a stored enrollment, and every enrollment's count of attempts is the
-- number of its sessions, which is at most the maximum that its policy fixes.
pub Ledger-Run : (x : External) (t : Trustee) (db : Db) → Run x t empty db → Ledger db
Ledger-Run x t db run =
    Run-keeps x t Ledger empty db
      (λ now a c e l. elim e [
        | nothing same ↦ subst Ledger (sym same) l
        | commits on_time k ↦ Commit-Ledger t now a c k l
        | invites invitation on_time k ↦ same-Ledger a c (ground (arith, k)) (ground (arith, k)) l
      ])
      run empty-Ledger
