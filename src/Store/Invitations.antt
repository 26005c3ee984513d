-- ===== src/Store/Invitations.antt =====
-- src/store.rs: an invitation pays for one enrollment.
use mathlib.Core.Path.{subst}
use onym_recovery_trustee.Prelude.{
  Bool, Bool-cases, List, Option-cases, Text, [], arith, inl, inr, length, length-append, not, refl,
  some, sym, ℤ, ◌+◌, ◌∷◌, ◌≡◌, ◌≤◌,
}
use onym_recovery_trustee.External.{External}
use onym_recovery_trustee.Store.{Db, EnrollmentRow, Invitation, empty}
use onym_recovery_trustee.Store.Commit.{
  Commit, at_time, begun, challenged, ended, enrolled, polled, retried, served, spent, stopped,
}
use onym_recovery_trustee.Store.Commit.Steps.{spend_nonce-ok}
use onym_recovery_trustee.Store.Ending.{bury, ended_status, tombstone}
use onym_recovery_trustee.Store.Recovering.{count_attempt, set_session}
use onym_recovery_trustee.Store.Rows.{count-append}
use onym_recovery_trustee.Store.Runs.{Run, Run-keeps, commits, invites, nothing}
use onym_recovery_trustee.Store.Tables.{
  at_sequence, by_digest, count, find, is_unused, open_challenge, open_invitation, redeemable,
  spend_challenge, update,
}
use onym_recovery_trustee.Trustee.{Trustee}
use onym_recovery_trustee.Wire.Documents.{digest}

abbrev pub is_used : Invitation → Bool
is_used row = not (is_unused row.used_at)

-- There are no more enrollments than invitations that are used.
abbrev pub Paid : Db → Type 0
Paid db = length db.enrollments ≤ count is_used db.invitations

length-update {ℓ} :
    {A : Type ℓ} (hit : A → Bool) (change : A → A) (rows : List A)
    → length (update hit change rows) ≡ length rows
unfolding update
length-update hit change [] = refl
length-update hit change (row ∷ rows) = omega (arith, length-update hit change rows)

abbrev use_at : ℤ → Invitation → Invitation
use_at now row = record row { used_at = some now }

-- Marking invitations as used leaves those that are used as they are.
count-spent :
    (hit : Invitation → Bool) (now : ℤ) (rows : List Invitation)
    → count is_used rows ≤ count is_used (update hit (use_at now) rows)
unfolding count update
count-spent hit now [] = omega arith
count-spent hit now (row ∷ rows) = ground (arith, count-spent hit now rows)

-- Marking an open invitation adds one.
count-spends :
    (digest : Text) (now : ℤ) (rows : List Invitation) (row : Invitation)
    → find (open_invitation digest now) rows ≡ some row
    → count is_used rows + 1 ≤ count is_used (update (by_digest digest) (use_at now) rows)
unfolding count update find
count-spends digest now [] row h = cc
count-spends digest now (r ∷ rows) row h = elim (Bool-cases (open_invitation digest now r)) [
  | inl hit ↦ ground (arith, hit, count-spent (by_digest digest) now rows)
  | inr miss ↦ ground (arith, miss, h, count-spends digest now rows row (rw (miss, find) at h))
]

redeemable-open :
    (db : Db) (challenge invitation : Text) (now : ℤ)
    → redeemable db challenge now ≡ some invitation
    → (row : Invitation) × (find (open_invitation invitation now) db.invitations ≡ some row)
unfolding redeemable
redeemable-open db challenge invitation now h =
    elim (Option-cases (find (open_challenge challenge now) db.challenges)) [
      | inl none_left ↦ absurd (ground (arith, none_left, h))
      | inr (c, e) ↦ elim (Option-cases (find (open_invitation c.invitation now) db.invitations)) [
        | inl shut ↦ absurd (ground (arith, e, shut, h))
        | inr (row, found) ↦
            let same : c.invitation ≡ invitation = ground (arith, e, found, h) in
            (row, subst (λ d. find (open_invitation d now) db.invitations ≡ some row) same found)
      ]
    ]

module _ (t : Trustee) (now : ℤ) (db db' : Db) where
  Commit-Paid : Commit t now db db' → Paid db → Paid db'
  unfolding set_session spend_challenge bury count_attempt
  Commit-Paid (retried e) p = subst Paid (sym e) p
  Commit-Paid (challenged c _ _ e) p = subst Paid (sym e) p
  Commit-Paid (spent challenge invitation _ e) p =
      subst Paid (sym e) (omega (arith, p, count-spent (by_digest invitation) now db.invitations))
  Commit-Paid (enrolled row invitation open' _ _ _ _ _ _ e) p =
      let (i, found) = redeemable-open db row.challenge invitation now open' in
      subst Paid (sym e) (
        omega (
          arith,
          p,
          length-append db.enrollments (row ∷ []),
          count-spends invitation now db.invitations i found,
        ))
  Commit-Paid (polled scope signed _ spend) p =
      let nonces = (spend_nonce-ok (at_time db now) scope signed t now db' spend).1 in
      subst Paid (sym nonces) p
  Commit-Paid (begun old new _ _ _ _ _ _ _ _ _ e) p =
      let c = old.enrollment.context in
      subst Paid (sym e) (
        omega (
          arith,
          p,
          length-update (at_sequence c.enrollment_id c.enrollment_sequence)
              (λ (row : EnrollmentRow). record row { attempts_used = row.attempts_used + 1 })
              db.enrollments,
        ))
  Commit-Paid (served signed spent_db session old c _ spend _ _ e) p =
      let nonces = (spend_nonce-ok (at_time db now) _ signed t now spent_db spend).1 in
      ground (arith, e, nonces, p)
  Commit-Paid (stopped signed session holder live _ _ _ e) p = subst Paid (sym e) p
  Commit-Paid (ended old operation _ _ e) p =
      let c = old.enrollment.context in
      subst Paid (sym e) (
        omega (
          arith,
          p,
          length-update (at_sequence c.enrollment_id c.enrollment_sequence)
              (tombstone (ended_status operation old.status)) db.enrollments,
        ))

-- In any database that requests and invitations lead to from an empty one, there are no more enrollments
-- than invitations that are used.
pub Run-Paid : (x : External) (t : Trustee) (db : Db) → Run x t empty db → Paid db
unfolding count
Run-Paid x t db run =
    Run-keeps x t Paid empty db
      (λ now a b e. elim e [
        | nothing same ↦ subst Paid (sym same)
        | commits on_time k ↦ Commit-Paid t now a b k
        | invites invitation on_time k ↦ λ p.
            subst Paid (sym k)
              (omega (arith, p, count-append is_used a.invitations (invitation ∷ [])))
      ])
      run (omega arith)
