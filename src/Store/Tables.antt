-- ===== src/Store/Tables.antt =====
-- src/store.rs: its SQL statements. A query is a function of the rows, an insert fails on a key that
-- is taken, and an update maps the rows.
use onym_recovery_trustee.Prelude.{
  Bool, List, Option, Text, [], eqb_ℤ, false, if◌then◌else◌, ltb, ltb_ℤ, none, some, text_eq, true,
  ℕ, ℤ, ◌&&◌, ◌++◌, ◌+◌, ◌==◌, ◌||◌, ◌∷◌,
}
use onym_recovery_trustee.Code.{Result, err, ok, ok_or, temporarily_unavailable}
use onym_recovery_trustee.Json.{text_lt}
use onym_recovery_trustee.Slip39.{at}
use onym_recovery_trustee.Store.{Challenge, Db, EnrollmentRow, Invitation, SessionRow}
use onym_recovery_trustee.Trustee.{Enrollment}
use onym_recovery_trustee.Wire.Documents.{digest}
use onym_recovery_trustee.Wire.Encoding.{sequence}

abbrev pub is_unused : Option ℤ → Bool
is_unused none = true
is_unused (some at) = false

-- The first row that passes a test.
unfoldable pub find {ℓ} : {A : Type ℓ} → (A → Bool) → List A → Option A
find test [] = none
find test (row ∷ rows) = if test row then some row else find test rows

-- `SELECT count(*)`
unfoldable pub count {ℓ} : {A : Type ℓ} → (A → Bool) → List A → ℕ
count test [] = 0
count test (row ∷ rows) = (if test row then 1 else 0) + count test rows

-- `SELECT … WHERE`
unfoldable pub select {ℓ} : {A : Type ℓ} → (A → Bool) → List A → List A
select test [] = []
select test (row ∷ rows) = let rest = select test rows in if test row then row ∷ rest else rest

-- `UPDATE … WHERE`
unfoldable pub update {ℓ} : {A : Type ℓ} → (A → Bool) → (A → A) → List A → List A
update test change [] = []
update test change (row ∷ rows) = (if test row then change row else row) ∷ update test change rows

-- `INSERT`, refused by a constraint when `taken` holds of a row.
unfoldable pub insert {ℓ} : {A : Type ℓ} → (A → Bool) → A → List A → Result (List A)
insert taken row rows = elim (find taken rows) [
  | none ↦ ok (rows ++ row ∷ [])
  | some old ↦ err temporarily_unavailable
]

abbrev pub by_digest : Text → Invitation → Bool
by_digest digest row = text_eq row.digest digest

abbrev pub by_challenge : Text → Challenge → Bool
by_challenge challenge row = text_eq row.challenge challenge

abbrev pub enrolled_with : Text → EnrollmentRow → Bool
enrolled_with challenge row = text_eq row.challenge challenge

abbrev pub at_sequence : Text → ℕ → EnrollmentRow → Bool
at_sequence enrollment_id sequence row =
    text_eq row.enrollment_id enrollment_id && row.sequence == sequence

abbrev pub by_session : Text → SessionRow → Bool
by_session session_id row = text_eq row.session_id session_id

abbrev pub of_enrollment : Text → ℕ → SessionRow → Bool
of_enrollment enrollment_id sequence row =
    text_eq row.enrollment_id enrollment_id && row.sequence == sequence

-- `load_enrollment`
unfoldable pub load_enrollment : Db → Text → ℕ → Result EnrollmentRow
load_enrollment db enrollment_id sequence =
    ok_or (find (at_sequence enrollment_id sequence) db.enrollments) temporarily_unavailable

abbrev pub later : EnrollmentRow → Option EnrollmentRow → Option EnrollmentRow
later row none = some row
later row (some other) = if ltb other.sequence row.sequence then some row else some other

-- The row of the highest sequence under an ID.
unfoldable pub current : Text → List EnrollmentRow → Option EnrollmentRow
current enrollment_id [] = none
current enrollment_id (row ∷ rows) =
    let rest = current enrollment_id rows in
    if text_eq row.enrollment_id enrollment_id then later row rest else rest

-- `load_current_enrollment`
unfoldable pub load_current_enrollment : Db → Text → Option EnrollmentRow
load_current_enrollment db enrollment_id = current enrollment_id db.enrollments

-- `load_session`
unfoldable pub load_session : Db → Text → Option SessionRow
load_session db session_id = find (by_session session_id) db.sessions

-- `ORDER BY created_at, session_id`
abbrev precedes : SessionRow → SessionRow → Bool
precedes a b =
    ltb_ℤ a.created_at b.created_at
    || eqb_ℤ a.created_at b.created_at && text_lt a.session_id b.session_id

unfoldable pub insert_ordered : SessionRow → List SessionRow → List SessionRow
insert_ordered row [] = row ∷ []
insert_ordered row (other ∷ rows) =
    let rest = insert_ordered row rows in
    if precedes other row then other ∷ rest else row ∷ other ∷ rows

unfoldable pub order : List SessionRow → List SessionRow
unfolding insert_ordered
order [] = []
order (row ∷ rows) = insert_ordered row (order rows)

-- `load_sessions`
unfoldable pub load_sessions : Db → Enrollment → List SessionRow
unfolding order
load_sessions db enrollment = order (
    select (of_enrollment enrollment.context.enrollment_id enrollment.context.enrollment_sequence)
      db.sessions)

-- The invitation that a challenge may still enroll under: `SELECT c.invitation FROM challenges c
-- JOIN invitations i …`.
abbrev pub open_challenge : Text → ℤ → Challenge → Bool
open_challenge challenge now row =
    by_challenge challenge row && is_unused row.used_at && ltb_ℤ now row.expires_at

abbrev pub open_invitation : Text → ℤ → Invitation → Bool
open_invitation digest now row =
    by_digest digest row && is_unused row.used_at && ltb_ℤ now row.expires_at

abbrev pub joined : Db → ℤ → Option Challenge → Option Text
joined db now none = none
joined db now (some c) = elim (find (open_invitation c.invitation now) db.invitations) [
  | none ↦ none
  | some i ↦ some c.invitation
]

unfoldable pub redeemable : Db → Text → ℤ → Option Text
redeemable db challenge now = joined db now (find (open_challenge challenge now) db.challenges)

-- The unused and unexpired challenges of an invitation that is open itself.
unfoldable pub open_challenges : Db → Text → ℤ → Option ℕ
open_challenges db invitation now = elim (find (open_invitation invitation now) db.invitations) [
  | none ↦ none
  | some i ↦ some (
      count
        (λ (row : Challenge).
          text_eq row.invitation invitation && is_unused row.used_at && ltb_ℤ now row.expires_at)
        db.challenges)
]

-- `spend_challenge`
unfoldable pub spend_challenge : Db → Text → Text → ℤ → Db
spend_challenge db challenge invitation now = record db {
  challenges =
      update (by_challenge challenge) (λ row. record row { used_at = some now }) db.challenges;
  invitations =
      update (by_digest invitation) (λ row. record row { used_at = some now }) db.invitations;
}
