-- ===== src/Store/Barring.antt =====
-- src/store.rs: what `check_fresh` and `spend_nonce` leave behind, so that a request is not accepted
-- again: its nonce, or a clock that it is stale by.
use mathlib.Core.Path.{subst}
use onym_recovery_trustee.Prelude.{
  +ℤ_parts, -ℤ_parts, Bool, Bool-cases, List, Text, [], abs_parts, ap, arith, inl, inr, leb_ℤ, some,
  sym, text_eq_refl, true, ℤ, ◌++◌, ◌+ℤ◌, ◌<ℤ◌, ◌∙◌, ◌∷◌, ◌≡◌, ◌≤ℤ◌, ◌⊎◌,
}
use onym_recovery_trustee.Code.{ok}
use onym_recovery_trustee.External.{External}
use onym_recovery_trustee.Store.{Db, Nonce}
use onym_recovery_trustee.Store.Commit.{
  Commit, at_time, begun, challenged, ended, enrolled, polled, retried, served, spent, stopped,
}
use onym_recovery_trustee.Store.Commit.Steps.{spend_nonce-ok}
use onym_recovery_trustee.Store.Ending.{bury}
use onym_recovery_trustee.Store.Recovering.{count_attempt, set_session}
use onym_recovery_trustee.Store.Requests.{
  Scope, check_fresh, has_nonce, purge_limit, scope_key, spend_nonce, unpurged,
}
use onym_recovery_trustee.Store.Rows.{find-append, find-last}
use onym_recovery_trustee.Store.Runs.{Run, Run-keeps, commits, invites, nothing}
use onym_recovery_trustee.Store.Tables.{find, select, spend_challenge}
use onym_recovery_trustee.Trustee.{Trustee}
use onym_recovery_trustee.Wire.{Signed}

module _ {ℓ} {A : Type ℓ} where
  -- A selection that keeps the row found finds it too.
  find-select :
      (test keep : A → Bool) (rows : List A) (row : A)
      → find test rows ≡ some row
      → keep row ≡ true
      → find test (select keep rows) ≡ some row
  unfolding find select
  find-select test keep [] row h k = cc
  find-select test keep (r ∷ rows) row h k = elim (Bool-cases (test r)) [
    | inl hit ↦ ground (arith, hit, k)
    | inr miss ↦
        let rest = find-select test keep rows row (rw (miss, find) at h) k in
        ground (arith, miss, rest)
  ]

-- A signed request of that scope, ID and time can no longer be accepted: its nonce is held, and was
-- seen no earlier than the request's time less the skew; or the request is stale by the clock.
abbrev pub Barred : Text → Text → ℤ → ℤ → Db → Type 0
Barred key request_id issued_at skew db =
    ((n : Nonce) × (find (has_nonce key request_id) db.nonces ≡ some n)
      × (issued_at ≤ℤ n.seen_at +ℤ skew))
    ⊎ (issued_at +ℤ skew <ℤ db.high_water)

fresh-within :
    (signed : Signed) (t : Trustee) (now : ℤ)
    → check_fresh signed t now ≡ ok tt
    → (signed.issued_at ≤ℤ now +ℤ t.limits.skew_secs)
      × (now ≤ℤ signed.issued_at +ℤ t.limits.skew_secs)
unfolding check_fresh
fresh-within signed t now h = abs_parts signed.issued_at now t.limits.skew_secs (ground arith)

module _ (t : Trustee) (key request_id : Text) (issued_at : ℤ) where
  purge-Barred :
      (db : Db) (now : ℤ) (more : List Nonce) (db' : Db)
      → (db.high_water ≤ℤ now)
      → db'.nonces ≡ unpurged t now db ++ more
      → db'.high_water ≡ now
      → Barred key request_id issued_at t.limits.skew_secs db
      → Barred key request_id issued_at t.limits.skew_secs db'
  purge-Barred db now more db' on_time e c (inr stale) = inr (ground (arith, e, c))
  purge-Barred db now more db' on_time e c (inl (n, h, near)) =
      elim (Bool-cases (leb_ℤ (purge_limit t now) n.seen_at)) [
        | inl kept ↦
            let still =
              find-select (has_nonce key request_id) (λ row. leb_ℤ (purge_limit t now) row.seen_at)
                db.nonces n h kept in
            inl (
              n,
              rw e (find-append (has_nonce key request_id) (unpurged t now db) more n still),
              near,
            )
        | inr purged ↦
            let skew = t.limits.skew_secs in
            inr (
              rw c (
                ground (
                  arith,
                  purged,
                  near,
                  +ℤ_parts n.seen_at skew,
                  +ℤ_parts issued_at skew,
                  +ℤ_parts skew skew,
                  -ℤ_parts now (skew +ℤ skew),
                )))
      ]

  same-Barred :
      (db db' : Db)
      → (db.high_water ≤ℤ db'.high_water)
      → db'.nonces ≡ db.nonces
      → Barred key request_id issued_at t.limits.skew_secs db
      → Barred key request_id issued_at t.limits.skew_secs db'
  same-Barred db db' later e (inl (n, h, near)) = inl (n, rw e h, near)
  same-Barred db db' later e (inr stale) = inr (ground (arith, stale, later))

  Commit-Barred :
      (now : ℤ) (db db' : Db)
      → (db.high_water ≤ℤ now)
      → Commit t now db db'
      → Barred key request_id issued_at t.limits.skew_secs db
      → Barred key request_id issued_at t.limits.skew_secs db'
  unfolding set_session spend_challenge bury count_attempt
  Commit-Barred now db db' on_time (retried e) b =
      same-Barred db db' (rw e (omega arith)) (ground (arith, e)) b
  Commit-Barred now db db' on_time (challenged c _ _ e) b =
      same-Barred db db' (rw e on_time) (ground (arith, e)) b
  Commit-Barred now db db' on_time (spent challenge invitation _ e) b =
      same-Barred db db' (rw e on_time) (ground (arith, e)) b
  Commit-Barred now db db' on_time (enrolled new invitation _ _ _ _ _ _ _ e) b =
      same-Barred db db' (rw e on_time) (ground (arith, e)) b
  Commit-Barred now db db' on_time (polled scope signed _ spend) b =
      let nonces = (spend_nonce-ok (at_time db now) scope signed t now db' spend).1 in
      purge-Barred db now _ db' on_time (ap (λ (d : Db). d.nonces) nonces)
        (ap (λ (d : Db). d.high_water) nonces) b
  Commit-Barred now db db' on_time (begun old new _ _ _ _ _ _ _ _ _ e) b =
      same-Barred db db' (rw e on_time) (ground (arith, e)) b
  Commit-Barred now db db' on_time (served signed spent_db session old c _ spend _ _ e) b =
      let nonces = (spend_nonce-ok (at_time db now) _ signed t now spent_db spend).1 in
      purge-Barred db now _ db' on_time
        (ap (λ (d : Db). d.nonces) e ∙ ap (λ (d : Db). d.nonces) nonces)
        (ap (λ (d : Db). d.high_water) e ∙ ap (λ (d : Db). d.high_water) nonces) b
  Commit-Barred now db db' on_time (stopped signed session holder live _ _ _ e) b =
      same-Barred db db' (rw e on_time) (ground (arith, e)) b
  Commit-Barred now db db' on_time (ended old operation _ _ e) b =
      same-Barred db db' (rw e on_time) (ground (arith, e)) b

  pub Barred-Run :
      (x : External) (db db' : Db)
      → Barred key request_id issued_at t.limits.skew_secs db
      → Run x t db db'
      → Barred key request_id issued_at t.limits.skew_secs db'
  Barred-Run x db db' b run =
      Run-keeps x t (Barred key request_id issued_at t.limits.skew_secs) db db'
        (λ now a c e. elim e [
          | nothing same ↦ subst (Barred key request_id issued_at t.limits.skew_secs) (sym same)
          | commits on_time k ↦ Commit-Barred now a c on_time k
          | invites invitation on_time k ↦ same-Barred a c (rw k on_time) (ground (arith, k))
        ])
        run b

module _ (x : External) (t : Trustee) (scope : Scope) (signed : Signed) where
  abbrev IsBarred : Db → Type 0
  IsBarred db = Barred (scope_key scope) signed.request_id signed.issued_at t.limits.skew_secs db

  -- A nonce that is spent by a fresh request bars it.
  pub spend-Barred :
      (db : Db) (now : ℤ) (spent_db db' : Db)
      → check_fresh signed t now ≡ ok tt
      → spend_nonce (at_time db now) scope signed t now ≡ ok spent_db
      → db'.nonces ≡ spent_db.nonces
      → IsBarred db'
  spend-Barred db now spent_db db' fresh spend same =
      let (free, nonces) = spend_nonce-ok (at_time db now) scope signed t now spent_db spend in
      inl (
        record { scope = scope_key scope; request_id = signed.request_id; seen_at = now },
        rw (same, nonces)
            (find-last (has_nonce (scope_key scope) signed.request_id)
              (unpurged t now (at_time db now)) _ free
              (ground (arith, text_eq_refl (scope_key scope), text_eq_refl signed.request_id))),
        (fresh-within signed t now fresh).0,
      )

  -- A request that is barred is not accepted.
  pub Barred-refused :
      (db : Db) (now : ℤ) (db' : Db)
      → IsBarred db
      → (db.high_water ≤ℤ now)
      → check_fresh signed t now ≡ ok tt
      → ¬ (spend_nonce (at_time db now) scope signed t now ≡ ok db')
  Barred-refused db now db' (inr stale) on_time fresh spend =
      let near = (fresh-within signed t now fresh).1 in ground (arith, near, stale, on_time)
  Barred-refused db now db' (inl (n, h, seen)) on_time fresh spend =
      let near = (fresh-within signed t now fresh).1 in
      let skew = t.limits.skew_secs in
      let free = (spend_nonce-ok (at_time db now) scope signed t now db' spend).0 in
      elim (Bool-cases (leb_ℤ (purge_limit t now) n.seen_at)) [
        | inl held ↦
            let still =
              find-select (has_nonce (scope_key scope) signed.request_id)
                (λ row. leb_ℤ (purge_limit t now) row.seen_at) db.nonces n h held in
            ground (arith, still, free)
        | inr purged ↦ ground (
          arith,
          purged,
          near,
          seen,
          +ℤ_parts n.seen_at skew,
          +ℤ_parts signed.issued_at skew,
          +ℤ_parts skew skew,
          -ℤ_parts now (skew +ℤ skew),
        )
      ]
