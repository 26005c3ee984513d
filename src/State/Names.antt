-- ===== src/State/Names.antt =====
-- src/state.rs: the stored names of the two statuses.
use onym_recovery_trustee.Prelude.{
  Bool-cases, List, Option, Text, [], arith, codes, if◌then◌else◌, inl, inr, none, refl, some, sym,
  text_eq, text_eq_iff, ◌↔◌, ◌∷◌, ◌≡◌,
}
use onym_recovery_trustee.State.{
  EnrollmentStatus, SessionStatus, accepted, cancelled, closed, cooling_down, finalized, refused,
  released, revoked, superseded, vetoed,
}

-- The first status of a list whose name is `text`: `into_iter().find(|status| status.name() == name)`.
find_named {ℓ} : {A : Type ℓ} → (A → Text) → List A → Text → Option A
find_named name [] text = none
find_named name (status ∷ rest) text =
    if text_eq (name status) text then some status else find_named name rest text

-- `EnrollmentStatus::name`
unfoldable pub enrollment_name : EnrollmentStatus → Text
enrollment_name accepted = codes "accepted"
enrollment_name superseded = codes "superseded"
enrollment_name revoked = codes "revoked"
enrollment_name closed = codes "closed"

-- `EnrollmentStatus::ALL`
abbrev all_enrollment : List EnrollmentStatus
all_enrollment = accepted ∷ superseded ∷ revoked ∷ closed ∷ []

-- `EnrollmentStatus::from_name`
unfoldable pub enrollment_from_name : Text → Option EnrollmentStatus
unfolding find_named
enrollment_from_name text = find_named enrollment_name all_enrollment text

-- `SessionStatus::name`
unfoldable pub session_name : SessionStatus → Text
session_name cooling_down = codes "cooling_down"
session_name released = codes "released"
session_name finalized = codes "finalized"
session_name cancelled = codes "cancelled"
session_name vetoed = codes "vetoed"
session_name refused = codes "refused"

-- `SessionStatus::ALL`
abbrev all_session : List SessionStatus
all_session = cooling_down ∷ released ∷ finalized ∷ cancelled ∷ vetoed ∷ refused ∷ []

-- `SessionStatus::from_name`
unfoldable pub session_from_name : Text → Option SessionStatus
unfolding find_named
session_from_name text = find_named session_name all_session text

find_named_sound {ℓ} :
    {A : Type ℓ} (name : A → Text) (all : List A) (text : Text) (a : A)
    → find_named name all text ≡ some a
    → name a ≡ text
unfolding find_named
find_named_sound name [] text a h = cc
find_named_sound name (x ∷ rest) text a h = elim (Bool-cases (text_eq (name x) text)) [
  | inl hit ↦ ground (arith, (text_eq_iff (name x) text).0 hit)
  | inr miss ↦ find_named_sound name rest text a (rw (miss, find_named) at h)
]

enrollment-read_back : (s : EnrollmentStatus) → enrollment_from_name (enrollment_name s) ≡ some s
unfolding enrollment_from_name enrollment_name text_eq
enrollment-read_back accepted = refl
enrollment-read_back _ = refl

session-read_back : (s : SessionStatus) → session_from_name (session_name s) ≡ some s
unfolding session_from_name session_name text_eq
session-read_back cooling_down = refl
session-read_back _ = refl

enrollment_from_name_sound :
    (text : Text) (s : EnrollmentStatus)
    → enrollment_from_name text ≡ some s
    → enrollment_name s ≡ text
unfolding enrollment_from_name
enrollment_from_name_sound text s = find_named_sound enrollment_name all_enrollment text s

session_from_name_sound :
    (text : Text) (s : SessionStatus) → session_from_name text ≡ some s → session_name s ≡ text
unfolding session_from_name
session_from_name_sound text s = find_named_sound session_name all_session text s

-- A text is read as an enrollment status exactly when it is the stored name of that status, and as a
-- session status exactly when it is the stored name of that one.
pub stored_names :
    ((text : Text) (s : EnrollmentStatus)
      → (enrollment_from_name text ≡ some s) ↔ (text ≡ enrollment_name s))
    × ((text : Text) (s : SessionStatus)
        → (session_from_name text ≡ some s) ↔ (text ≡ session_name s))
stored_names = (
  λ text s. (λ h. sym (enrollment_from_name_sound text s h), λ e. rw e (enrollment-read_back s)),
  λ text s. (λ h. sym (session_from_name_sound text s h), λ e. rw e (session-read_back s)),
)
