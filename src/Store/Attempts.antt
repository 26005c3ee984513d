-- ===== src/Store/Attempts.antt =====
-- src/store.rs: the count of attempts of an enrollment, and its bound.
use mathlib.Core.Path.{subst}
use onym_recovery_trustee.Prelude.{
  Bool, Bool-cases, List, Option, Option-cases, Text, [], ap, arith, if◌then◌else◌, inl, inr, none,
  refl, some, sym, text_eq, text_eq_iff, ℕ, ◌++◌, ◌∙◌, ◌∷◌, ◌≡◌, ◌≤◌,
}
use onym_recovery_trustee.Code.{some-injective}
use onym_recovery_trustee.Store.{Db, EnrollmentRow, SessionRow, empty}
use onym_recovery_trustee.Store.Distinct.{
  Distinct, Distinct-append, Distinct-update, changed_id, named,
}
use onym_recovery_trustee.Store.Rows.{
  All, All-map, All-update, count-update, find-append, find-append-none, find-last, find-update,
}
use onym_recovery_trustee.Store.Tables.{count, find, of_enrollment, update}
use onym_recovery_trustee.Wire.Encoding.{sequence}

pub record Counted (row : EnrollmentRow) (sessions : List SessionRow) : Type 0 where
  pub same_id : row.enrollment_id ≡ row.enrollment.context.enrollment_id
  pub same_sequence : row.sequence ≡ row.enrollment.context.enrollment_sequence
  pub attempts : row.attempts_used ≡ count (of_enrollment row.enrollment_id row.sequence) sessions
  pub bounded : row.attempts_used ≤ row.enrollment.policy.maximum_attempts

-- A session is of an enrollment that is stored.
abbrev pub Known : List EnrollmentRow → SessionRow → Type 0
Known rows s = (row : EnrollmentRow) × (find (named s.enrollment_id) rows ≡ some row)

pub record Ledger (db : Db) : Type 0 where
  pub distinct : Distinct db.enrollments
  pub known : All (Known db.enrollments) db.sessions
  pub counted :
      (id : Text) (row : EnrollmentRow)
      → find (named id) db.enrollments ≡ some row
      → Counted row db.sessions

pub empty-Ledger : Ledger empty
unfolding find Distinct
empty-Ledger = record { distinct = tt; known = tt; counted = λ id row h. cc }

-- No session is of an enrollment that is not stored.
count-unknown :
    (rows : List EnrollmentRow) (sessions : List SessionRow) (id : Text) (sequence : ℕ)
    → find (named id) rows ≡ none
    → All (Known rows) sessions
    → count (of_enrollment id sequence) sessions ≡ 0
unfolding count
count-unknown rows [] id sequence free known = refl
count-unknown rows (s ∷ sessions) id sequence free known =
    elim (Bool-cases (text_eq s.enrollment_id id)) [
      | inr other ↦ ground (arith, other, count-unknown rows sessions id sequence free known.1)
      | inl same ↦
          let found = rw ((text_eq_iff s.enrollment_id id).0 same) at known.0.1 in
          absurd (ground (arith, found, free))
    ]

pub same-Ledger :
    (db db' : Db)
    → db'.enrollments ≡ db.enrollments
    → db'.sessions ≡ db.sessions
    → Ledger db
    → Ledger db'
same-Ledger db db' e f l = record {
  distinct = rw e l.distinct;
  known = rw (e, f) l.known;
  counted = λ id row h. rw f (l.counted id row (rw e at h));
}

-- The row found when one is added.
appended-Counted :
    (db : Db) (new : EnrollmentRow) (id : Text) (row : EnrollmentRow)
    → find (named new.enrollment_id) db.enrollments ≡ none
    → new.enrollment_id ≡ new.enrollment.context.enrollment_id
    → new.sequence ≡ new.enrollment.context.enrollment_sequence
    → new.attempts_used ≡ 0
    → Ledger db
    → find (named id) (db.enrollments ++ new ∷ []) ≡ some row
    → Counted row db.sessions
appended-Counted db new id row free same_id same_sequence unused l h =
    elim (Option-cases (find (named id) db.enrollments)) [
      | inr (old, k) ↦
          let e = find-append (named id) db.enrollments (new ∷ []) old k in
          subst (λ r. Counted r db.sessions) (some-injective (sym e ∙ h)) (l.counted id old k)
      | inl k ↦ elim (Bool-cases (named id new)) [
        | inr miss ↦
            absurd (ground (arith, h, find-append-none (named id) db.enrollments new k miss))
        | inl hit ↦
            let e = find-last (named id) db.enrollments new k hit in
            let none_yet =
              count-unknown db.enrollments db.sessions new.enrollment_id new.sequence free
                l.known in
            subst (λ r. Counted r db.sessions) (some-injective (sym e ∙ h))
              (record {
                same_id = same_id;
                same_sequence = same_sequence;
                attempts = unused ∙ sym none_yet;
                bounded = ground (arith, unused);
              })
      ]
    ]

pub append-Ledger :
    (db db' : Db) (new : EnrollmentRow)
    → db'.enrollments ≡ db.enrollments ++ new ∷ []
    → db'.sessions ≡ db.sessions
    → find (named new.enrollment_id) db.enrollments ≡ none
    → new.enrollment_id ≡ new.enrollment.context.enrollment_id
    → new.sequence ≡ new.enrollment.context.enrollment_sequence
    → new.attempts_used ≡ 0
    → Ledger db
    → Ledger db'
append-Ledger db db' new e f free same_id same_sequence unused l = record {
  distinct = rw e (Distinct-append db.enrollments new l.distinct free);
  known =
      rw (e, f)
        (All-map (Known db.enrollments) (Known (db.enrollments ++ new ∷ [])) db.sessions
          (λ s (row, h). (row, find-append (named s.enrollment_id) db.enrollments (new ∷ []) row h))
          l.known);
  counted = λ id row h.
      subst (Counted row) (sym f)
        (appended-Counted db new id row free same_id same_sequence unused l (rw e at h));
}

-- What a change makes of the row that a look-up finds.
abbrev changed :
    (EnrollmentRow → Bool)
    → (EnrollmentRow → EnrollmentRow)
    → Option EnrollmentRow
    → Option EnrollmentRow
changed hit change none = none
changed hit change (some row) = some (if hit row then change row else row)

none-some {ℓ} : {A : Type ℓ} {a : A} → ¬ (none ≡ some a)
none-some h = cc

keeps-if :
    (db : Db) (hit : EnrollmentRow → Bool) (change : EnrollmentRow → EnrollmentRow)
    (old : EnrollmentRow)
    → ((row : EnrollmentRow) → Counted row db.sessions → Counted (change row) db.sessions)
    → Counted old db.sessions
    → Counted (if hit old then change old else old) db.sessions
keeps-if db hit change old keeps c = elim (Bool-cases (hit old)) [
  | inl yes' ↦ rw yes' (keeps old c)
  | inr no' ↦ rw no' c
]

-- A stored enrollment is stored under its ID after a change.
pub updated-named :
    (db : Db) (hit : EnrollmentRow → Bool) (change : EnrollmentRow → EnrollmentRow) (id : Text)
    (row : EnrollmentRow)
    → ((old : EnrollmentRow) → (change old).enrollment_id ≡ old.enrollment_id)
    → find (named id) db.enrollments ≡ some row
    → (row' : EnrollmentRow) × (find (named id) (update hit change db.enrollments) ≡ some row')
updated-named db hit change id row same h =
    let e =
      find-update (named id) hit change db.enrollments
        (λ old. ap (λ i. text_eq i id) (changed_id hit change old (same old))) in
    (if hit row then change row else row, e ∙ ap (changed hit change) h)

pub updated-Known :
    (db : Db) (hit : EnrollmentRow → Bool) (change : EnrollmentRow → EnrollmentRow)
    → ((old : EnrollmentRow) → (change old).enrollment_id ≡ old.enrollment_id)
    → Ledger db
    → All (Known (update hit change db.enrollments)) db.sessions
updated-Known db hit change same l =
    All-map (Known db.enrollments) (Known (update hit change db.enrollments)) db.sessions
      (λ s (row, h). updated-named db hit change s.enrollment_id row same h) l.known

-- The row found after a change.
pub updated-Counted :
    (db : Db) (hit : EnrollmentRow → Bool) (change : EnrollmentRow → EnrollmentRow) (id : Text)
    (row : EnrollmentRow) (sessions : List SessionRow)
    → ((old : EnrollmentRow) → (change old).enrollment_id ≡ old.enrollment_id)
    → ((old : EnrollmentRow)
        → find (named id) db.enrollments ≡ some old
        → Counted (if hit old then change old else old) sessions)
    → find (named id) (update hit change db.enrollments) ≡ some row
    → Counted row sessions
updated-Counted db hit change id row sessions same keeps h =
    let e =
      find-update (named id) hit change db.enrollments
        (λ old. ap (λ i. text_eq i id) (changed_id hit change old (same old))) in
    elim (Option-cases (find (named id) db.enrollments)) [
      | inl none_found ↦ absurd (none-some (sym (e ∙ ap (changed hit change) none_found) ∙ h))
      | inr (old, k) ↦
          subst (λ r. Counted r sessions)
            (some-injective ((sym (e ∙ ap (changed hit change) k)) ∙ h)) (keeps old k)
    ]

-- A change of enrollments that a `Ledger` does not see.
pub update-Ledger :
    (db db' : Db) (hit : EnrollmentRow → Bool) (change : EnrollmentRow → EnrollmentRow)
    → db'.enrollments ≡ update hit change db.enrollments
    → db'.sessions ≡ db.sessions
    → ((row : EnrollmentRow) → (change row).enrollment_id ≡ row.enrollment_id)
    → ((row : EnrollmentRow) → Counted row db.sessions → Counted (change row) db.sessions)
    → Ledger db
    → Ledger db'
update-Ledger db db' hit change e f same keeps l = record {
  distinct = rw e (Distinct-update hit change db.enrollments same l.distinct);
  known = rw (e, f) (updated-Known db hit change same l);
  counted = λ id row h. subst (Counted row) (sym f) (
      updated-Counted db hit change id row db.sessions same
        (λ old k. keeps-if db hit change old keeps (l.counted id old k)) (rw e at h));
}

changed_session :
    (db : Db) (hit : SessionRow → Bool) (change : SessionRow → SessionRow) (s : SessionRow)
    (row : EnrollmentRow)
    → (change s).enrollment_id ≡ s.enrollment_id
    → find (named s.enrollment_id) db.enrollments ≡ some row
    → find (named (if hit s then change s else s).enrollment_id) db.enrollments ≡ some row
changed_session db hit change s row same h = elim (Bool-cases (hit s)) [
  | inl yes' ↦ rw (yes', same) h
  | inr no' ↦ rw no' h
]

-- A change of sessions that leaves what enrollment they are of.
pub sessions-Ledger :
    (db db' : Db) (hit : SessionRow → Bool) (change : SessionRow → SessionRow)
    → db'.enrollments ≡ db.enrollments
    → db'.sessions ≡ update hit change db.sessions
    → ((s : SessionRow) → (change s).enrollment_id ≡ s.enrollment_id)
    → ((s : SessionRow) → (change s).sequence ≡ s.sequence)
    → Ledger db
    → Ledger db'
sessions-Ledger db db' hit change e f same_id same_sequence l = record {
  distinct = rw e l.distinct;
  known =
      rw (e, f)
        (All-update (Known db.enrollments) hit change db.sessions
          (λ s (row, h). (row, changed_session db hit change s row (same_id s) h)) l.known);
  counted = λ id row h.
      let c = l.counted id row (rw e at h) in
      record {
        same_id = c.same_id;
        same_sequence = c.same_sequence;
        attempts =
            c.attempts
            ∙ sym (
                ap (count (of_enrollment row.enrollment_id row.sequence)) f
                ∙ count-update (of_enrollment row.enrollment_id row.sequence) hit change db.sessions
                    (λ s. ground (arith, same_id s, same_sequence s)));
        bounded = c.bounded;
      };
}
