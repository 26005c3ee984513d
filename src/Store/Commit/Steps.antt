-- ===== src/Store/Commit/Steps.antt =====
-- Inversion of the steps that the handlers share.
use onym_recovery_trustee.Prelude.{
  List, Option-cases, Text, [], arith, inl, inr, none, ℤ, ◌++◌, ◌∷◌, ◌≡◌, ◌≤ℤ◌,
}
use onym_recovery_trustee.Code.{Result, bind-ok, ok, ◌>>=◌}
use onym_recovery_trustee.Store.{Db, Outcome, transaction}
use onym_recovery_trustee.Store.Commit.{at_time}
use onym_recovery_trustee.Store.Requests.{
  Scope, has_nonce, record_outcome, scope_key, spend_nonce, unpurged,
}
use onym_recovery_trustee.Store.Tables.{find, insert}
use onym_recovery_trustee.Trustee.{Trustee}
use onym_recovery_trustee.Wire.{Signed}

transaction-ok :
    (db : Db) (now : ℤ) (tx : Db)
    → transaction db now ≡ ok tx
    → (db.high_water ≤ℤ now) × (tx ≡ at_time db now)
unfolding transaction
transaction-ok db now tx h = ground arith

pub transaction-bind-ok {ℓ} :
    {B : Type ℓ} (db : Db) (now : ℤ) (f : Db → Result B) {b : B}
    → (transaction db now >>= f) ≡ ok b
    → (db.high_water ≤ℤ now) × (f (at_time db now) ≡ ok b)
transaction-bind-ok db now f h =
    let (tx, e, h1) = bind-ok (transaction db now) f h in
    let (on_time, e') = transaction-ok db now tx e in (on_time, rw (← e') h1)

pub record_outcome-ok :
    (db : Db) (scope : Scope) (signed : Signed) (old new : Text) (now : ℤ) (db' : Db)
    → record_outcome db scope signed old new now ≡ ok db'
    → (outcomes' : List Outcome) × (db' ≡ record db { outcomes = outcomes' })
unfolding record_outcome
record_outcome-ok db scope signed old new now db' h =
    let (outcomes', e, h1) = bind-ok (insert _ _ db.outcomes) _ h in (outcomes', ground arith)

pub spend_nonce-ok :
    (db : Db) (scope : Scope) (signed : Signed) (t : Trustee) (now : ℤ) (db' : Db)
    → spend_nonce db scope signed t now ≡ ok db'
    → (find (has_nonce (scope_key scope) signed.request_id) (unpurged t now db) ≡ none)
      × (db' ≡ record db {
        nonces =
            unpurged t now db
            ++ record { scope = scope_key scope; request_id = signed.request_id; seen_at = now }
              ∷ [];
      })
unfolding spend_nonce
spend_nonce-ok db scope signed t now db' h =
    elim (Option-cases (find (has_nonce (scope_key scope) signed.request_id) (unpurged t now db))) [
      | inl free ↦ (free, ground (arith, free))
      | inr (old, e) ↦ absurd (ground (arith, e))
    ]
