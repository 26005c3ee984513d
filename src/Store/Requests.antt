-- ===== src/Store/Requests.antt =====
-- src/store.rs: signed requests: signature, freshness, replay and idempotency.
use onym_recovery_trustee.Prelude.{
  Bool, Bytes, List, Option, Text, [], abs, codes, false, leb_ℤ, ltb, none, some, suc, text_eq,
  true, zero, ℕ, ℤ, ◌%◌, ◌&&◌, ◌++◌, ◌+ℤ◌, ◌+◌, ◌-ℤ◌, ◌/◌, ◌∷◌,
}
use onym_recovery_trustee.Code.{
  Result, err, invalid_request, ok, ok_or, temporarily_unavailable, ◌>>=◌,
}
use onym_recovery_trustee.Crypto.{verify}
use onym_recovery_trustee.External.{External}
use onym_recovery_trustee.Store.{Db, Nonce, Outcome}
use onym_recovery_trustee.Store.Tables.{find, insert, select}
use onym_recovery_trustee.Trustee.{Enrollment, Trustee, require}
use onym_recovery_trustee.Wire.{Signed}
use onym_recovery_trustee.Wire.Encoding.{format_timestamp, sequence}

pub data Scope : Type 0 where
  of_enrollment_sequence : Text → ℕ → Scope
  of_session : Text → Scope

-- `Scope::enrollment`
abbrev pub enrollment_scope : Enrollment → Scope
enrollment_scope enrollment =
    of_enrollment_sequence enrollment.context.enrollment_id enrollment.context.enrollment_sequence

-- `format!("{n}")`
unfoldable pub decimal : ℕ → ℕ → Text
decimal zero n = []
decimal (suc fuel) n = elim (ltb n 10) [
  | true ↦ (b'0' + n) ∷ []
  | false ↦ decimal fuel (n / 10) ++ (b'0' + n % 10) ∷ []
]

-- `Scope::key`
unfoldable pub scope_key : Scope → Text
unfolding decimal
scope_key (of_enrollment_sequence id sequence) =
    codes "enrollment:" ++ (id ++ (b':' ∷ decimal (suc sequence) sequence))
scope_key (of_session id) = codes "session:" ++ id

-- `check_fresh`
unfoldable pub check_fresh : Signed → Trustee → ℤ → Result (Unit {0})
check_fresh signed t now =
    require (leb_ℤ (abs (signed.issued_at -ℤ now)) t.limits.skew_secs) invalid_request

abbrev pub has_nonce : Text → Text → Nonce → Bool
has_nonce scope request_id row = text_eq row.scope scope && text_eq row.request_id request_id

-- `now - 2 * skew`
abbrev pub purge_limit : Trustee → ℤ → ℤ
purge_limit t now = now -ℤ (t.limits.skew_secs +ℤ t.limits.skew_secs)

-- The nonces that a purge at `now` leaves.
abbrev pub unpurged : Trustee → ℤ → Db → List Nonce
unpurged t now db = select (λ (row : Nonce). leb_ℤ (purge_limit t now) row.seen_at) db.nonces

-- `spend_nonce`
unfoldable pub spend_nonce : Db → Scope → Signed → Trustee → ℤ → Result Db
spend_nonce db scope signed t now =
    let kept = unpurged t now db in
    elim (find (has_nonce (scope_key scope) signed.request_id) kept) [
      | none ↦ ok (record db {
        nonces =
            kept
            ++ record { scope = scope_key scope; request_id = signed.request_id; seen_at = now }
              ∷ [];
      })
      | some old ↦ err invalid_request
    ]

abbrev pub has_outcome : Text → Text → Outcome → Bool
has_outcome scope request_id row = text_eq row.scope scope && text_eq row.request_id request_id

unfoldable pub find_outcome : Db → Scope → Text → Option Outcome
find_outcome db scope request_id = find (has_outcome (scope_key scope) request_id) db.outcomes

-- `recorded_outcome`
unfoldable pub recorded_outcome : Db → Scope → Signed → Option Text
unfolding find_outcome
recorded_outcome db scope signed = elim (find_outcome db scope signed.request_id) [
  | none ↦ none
  | some outcome ↦ some outcome.request_digest
]

-- `record_outcome`
unfoldable pub record_outcome : Db → Scope → Signed → Text → Text → ℤ → Result Db
record_outcome db scope signed old_state new_state now = do
  outcomes ←
      insert (has_outcome (scope_key scope) signed.request_id)
        (record {
          scope = scope_key scope;
          request_id = signed.request_id;
          request_digest = signed.digest;
          operation = signed.operation;
          old_state = old_state;
          new_state = new_state;
          recorded_at = now;
        })
        db.outcomes
  ok (record db { outcomes = outcomes })

module _ (x : External) where
  -- `verify_signature`
  unfoldable pub verify_signature : Signed → Bytes → Result (Unit {0})
  verify_signature signed key =
      require (verify x key signed.message signed.signature) invalid_request

  -- `random_id`, of the 32 bytes that the system gives or fails to give
  unfoldable pub random_id : Option Bytes → Result Text
  random_id none = err temporarily_unavailable
  random_id (some bytes) = ok (x.hex_encode bytes)

  -- `time`
  unfoldable pub time : ℤ → Result Text
  time seconds = ok_or (format_timestamp x seconds) temporarily_unavailable
