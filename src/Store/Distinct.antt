-- ===== src/Store/Distinct.antt =====
-- src/store.rs: the rows of `enrollments`: no two have the same ID, as `enroll` refuses an ID that is
-- known.
use onym_recovery_trustee.Prelude.{
  Bool, Bool-cases, List, Option-cases, Text, [], ap, arith, if◌then◌else◌, inl, inr, none, refl,
  some, text_eq, text_eq_iff, ◌++◌, ◌∷◌, ◌≡◌,
}
use onym_recovery_trustee.Store.{EnrollmentRow}
use onym_recovery_trustee.Store.Rows.{find-append-none, find-update}
use onym_recovery_trustee.Store.Tables.{current, find, update}

abbrev pub named : Text → EnrollmentRow → Bool
named id row = text_eq row.enrollment_id id

-- No two rows have the same ID.
unfoldable pub Distinct : List EnrollmentRow → Type 0
Distinct [] = Unit
Distinct (row ∷ rows) = (find (named row.enrollment_id) rows ≡ none) × Distinct rows

pub current-none :
    (id : Text) (rows : List EnrollmentRow) → current id rows ≡ none → find (named id) rows ≡ none
unfolding find current
current-none id [] h = refl
current-none id (r ∷ rows) h = elim (Bool-cases (named id r)) [
  | inl hit ↦ elim (Option-cases (current id rows)) [
    | inl e ↦ absurd (ground (arith, hit, e))
    | inr (other, e) ↦ absurd (ground (arith, hit, e))
  ]
  | inr miss ↦ rw (miss, find) (current-none id rows (ground (arith, miss)))
]

pub current-find :
    (id : Text) (rows : List EnrollmentRow) (row : EnrollmentRow)
    → Distinct rows
    → current id rows ≡ some row
    → find (named id) rows ≡ some row
unfolding find current Distinct
current-find id [] row d h = cc
current-find id (r ∷ rows) row d h = elim (Bool-cases (named id r)) [
  | inr miss ↦ rw (miss, find) (current-find id rows row d.1 (ground (arith, miss)))
  | inl hit ↦ elim (Option-cases (current id rows)) [
    | inl e ↦ ground (arith, hit, e)
    | inr (other, e) ↦
        let same = (text_eq_iff r.enrollment_id id).0 hit in
        let free = rw same at d.0 in absurd (ground (arith, current-find id rows other d.1 e, free))
  ]
]

pub Distinct-append :
    (rows : List EnrollmentRow) (new : EnrollmentRow)
    → Distinct rows
    → find (named new.enrollment_id) rows ≡ none
    → Distinct (rows ++ new ∷ [])
unfolding find Distinct
Distinct-append [] new d h = (refl, tt)
Distinct-append (r ∷ rows) new d h = elim (Bool-cases (named new.enrollment_id r)) [
  | inl hit ↦ absurd (ground (arith, hit))
  | inr miss ↦ (
    find-append-none (named r.enrollment_id) rows new d.0 (
        ground (
          arith,
          miss,
          text_eq_iff new.enrollment_id r.enrollment_id,
          text_eq_iff r.enrollment_id new.enrollment_id,
        )),
    Distinct-append rows new d.1 (ground (arith, miss)),
  )
]

-- A change that leaves IDs leaves them also where a test chooses the rows.
pub changed_id :
    (hit : EnrollmentRow → Bool) (change : EnrollmentRow → EnrollmentRow) (row : EnrollmentRow)
    → (change row).enrollment_id ≡ row.enrollment_id
    → (if hit row then change row else row).enrollment_id ≡ row.enrollment_id
changed_id hit change row same = ground (arith, same)

-- A change of rows that leaves their IDs leaves them distinct.
pub Distinct-update :
    (hit : EnrollmentRow → Bool) (change : EnrollmentRow → EnrollmentRow)
    (rows : List EnrollmentRow)
    → ((row : EnrollmentRow) → (change row).enrollment_id ≡ row.enrollment_id)
    → Distinct rows
    → Distinct (update hit change rows)
unfolding find update Distinct
Distinct-update hit change [] same d = tt
Distinct-update hit change (r ∷ rows) same d = (
  rw (
    changed_id hit change r (same r),
    find-update (named r.enrollment_id) hit change rows
        (λ row. ap (λ i. text_eq i r.enrollment_id) (changed_id hit change row (same row))),
    d.0,
  ),
  Distinct-update hit change rows same d.1,
)
