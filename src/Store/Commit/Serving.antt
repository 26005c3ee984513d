-- ===== src/Store/Commit/Serving.antt =====
-- How a whole request commits: by one of the ways of `Commit`, at a time that is not before the
-- clock.
use onym_recovery_trustee.Prelude.{
  Bool, Bytes, Text, arith, codes, false, if◌then◌else◌, inl, inr, text_eq, true, ℤ, ◌||◌, ◌≡◌,
  ◌≤ℤ◌, ◌⊎◌,
}
use onym_recovery_trustee.Code.{Result, ok, ok_or-bind-ok}
use onym_recovery_trustee.External.{External}
use onym_recovery_trustee.Json.{Json, str_field}
use onym_recovery_trustee.Store.{Db, Reply}
use onym_recovery_trustee.Store.Commit.{Commit}
use onym_recovery_trustee.Store.Commit.Ending.{end_enrollment-Commit}
use onym_recovery_trustee.Store.Commit.Enrolling.{
  enroll-Commit, issue_challenge-Commit, read_enrollment-Commit,
}
use onym_recovery_trustee.Store.Commit.Recovering.{
  begin_recovery-Commit, cancel_recovery-Commit, read_recovery-Commit,
}
use onym_recovery_trustee.Store.Serving.{
  Draws, SignedOperation, begin_recovery_operation, cancels_recovery, dispatch, ends_enrollment,
  enroll_operation, handle_step, issue_challenge_operation, reads_enrollment, reads_recovery,
  serve_signed, with_signed,
}
use onym_recovery_trustee.Trustee.{Trustee}
use onym_recovery_trustee.Wire.{Signed}
use onym_recovery_trustee.Wire.Documents.{parse}
use onym_recovery_trustee.Wire.Requests.{
  cancel_recovery_operation, close_enrollment_operation, read_enrollment_operation,
  read_recovery_operation, revoke_enrollment_operation, signed_parse,
}

module _ (x : External) (t : Trustee) where
  serve_signed-Commit :
      (operation : SignedOperation) (signed : Signed) (draws : Draws) (now : ℤ) (db db' : Db)
      (answer : Result Reply)
      → serve_signed x t operation signed draws now db ≡ ok (db', answer)
      → (db.high_water ≤ℤ now) × Commit t now db db'
  unfolding serve_signed
  serve_signed-Commit reads_enrollment signed draws now db db' answer h =
      read_enrollment-Commit x t signed now db db' answer h
  serve_signed-Commit reads_recovery signed draws now db db' answer h =
      read_recovery-Commit x t signed now draws.trial draws.ephemeral db db' answer h
  serve_signed-Commit cancels_recovery signed draws now db db' answer h =
      cancel_recovery-Commit x t signed now db db' answer h
  serve_signed-Commit ends_enrollment signed draws now db db' answer h =
      end_enrollment-Commit x t signed now db db' answer h

  with_signed-Commit :
      (operation : SignedOperation) (request : Json) (draws : Draws) (now : ℤ) (db db' : Db)
      (answer : Result Reply)
      → with_signed x t operation request draws now db ≡ ok (db', answer)
      → (db.high_water ≤ℤ now) × Commit t now db db'
  unfolding with_signed
  with_signed-Commit operation request draws now db db' answer h =
      let (signed, _, h1) = ok_or-bind-ok (signed_parse x request t.component_id) _ _ h in
      serve_signed-Commit operation signed draws now db db' answer h1

  if-ok {ℓ} :
      {A : Type ℓ} (c : Bool) (a b : Result A) (r : A)
      → (if c then a else b) ≡ ok r
      → (a ≡ ok r) ⊎ (b ≡ ok r)
  if-ok true a b r h = inl h
  if-ok false a b r h = inr h

  dispatch-Commit :
      (operation : Text) (request : Json) (draws : Draws) (now : ℤ) (db db' : Db)
      (answer : Result Reply)
      → dispatch x t operation request draws now db ≡ ok (db', answer)
      → (db.high_water ≤ℤ now) × Commit t now db db'
  unfolding dispatch
  dispatch-Commit operation request draws now db db' answer h =
      elim (if-ok (text_eq operation issue_challenge_operation) _ _ _ h) [
        | inl h1 ↦ issue_challenge-Commit x t request now draws.id_bytes db db' answer h1
        | inr r1 ↦ elim (if-ok (text_eq operation enroll_operation) _ _ _ r1) [
          | inl h2 ↦ enroll-Commit x t request now db db' answer h2
          | inr r2 ↦ elim (if-ok (text_eq operation read_enrollment_operation) _ _ _ r2) [
            | inl h3 ↦ with_signed-Commit reads_enrollment request draws now db db' answer h3
            | inr r3 ↦ elim (if-ok (text_eq operation begin_recovery_operation) _ _ _ r3) [
              | inl h4 ↦ begin_recovery-Commit x t request now draws.trial db db' answer h4
              | inr r4 ↦ elim (if-ok (text_eq operation read_recovery_operation) _ _ _ r4) [
                | inl h5 ↦ with_signed-Commit reads_recovery request draws now db db' answer h5
                | inr r5 ↦ elim (if-ok (text_eq operation cancel_recovery_operation) _ _ _ r5) [
                  | inl h6 ↦ with_signed-Commit cancels_recovery request draws now db db' answer h6
                  | inr r6 ↦
                      elim (if-ok
                        (text_eq operation revoke_enrollment_operation
                          || text_eq operation close_enrollment_operation)
                        _ _ _ r6) [
                          | inl h7 ↦
                              with_signed-Commit ends_enrollment request draws now db db' answer h7
                          | inr r7 ↦ absurd (ground (arith, r7))
                        ]
                ]
              ]
            ]
          ]
        ]
      ]

  -- Every request that commits does so at a time no earlier than the clock, and in one of the ways
  -- of `Commit`.
  pub handle_step-Commit :
      (body : Bytes) (draws : Draws) (now : ℤ) (db db' : Db) (answer : Result Reply)
      → handle_step x t body draws now db ≡ ok (db', answer)
      → (db.high_water ≤ℤ now) × Commit t now db db'
  unfolding handle_step
  handle_step-Commit body draws now db db' answer h =
      let (request, _, h1) = ok_or-bind-ok (parse x body) _ _ h in
      dispatch-Commit (str_field request (codes "operation")) request draws now db db' answer h1
