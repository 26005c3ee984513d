-- ===== src/Store/Rows.antt =====
-- Laws of the queries and updates over rows.
use mathlib.Core.Path.{subst}
use onym_recovery_trustee.Prelude.{
  Bool, Bool-cases, List, Option-cases, Text, [], ap, arith, false, if◌then◌else◌, inl, inr, ltb,
  none, refl, some, text_eq, text_eq_iff, true, ◌++◌, ◌+◌, ◌∷◌, ◌≡◌,
}
use onym_recovery_trustee.Code.{ok}
use onym_recovery_trustee.Store.{EnrollmentRow}
use onym_recovery_trustee.Store.Tables.{count, current, find, insert, update}

-- `P` holds of every row.
abbrev pub All {ℓ κ} : {A : Type ℓ} → (A → Type κ) → List A → Type κ
All P [] = Unit
All P (row ∷ rows) = P row × All P rows

module _ {ℓ} {A : Type ℓ} where
  pub find_sound :
      (test : A → Bool) (rows : List A) (row : A) → find test rows ≡ some row → test row ≡ true
  unfolding find
  find_sound test [] row h = cc
  find_sound test (r ∷ rows) row h = elim (Bool-cases (test r)) [
    | inl hit ↦ ground (arith, hit)
    | inr miss ↦ find_sound test rows row (rw (miss, find) at h)
  ]

  -- A row that every row's property is known of.
  pub All-find {κ} :
      (P : A → Type κ) (test : A → Bool) (rows : List A) (row : A)
      → All P rows
      → find test rows ≡ some row
      → P row
  unfolding find
  All-find P test [] row a h = cc
  All-find P test (r ∷ rows) row a h = elim (Bool-cases (test r)) [
    | inl hit ↦ subst P (ground (arith, hit)) a.0
    | inr miss ↦ All-find P test rows row a.1 (rw (miss, find) at h)
  ]

  -- What is found stays found when rows are added at the end.
  pub find-append :
      (test : A → Bool) (rows more : List A) (row : A)
      → find test rows ≡ some row
      → find test (rows ++ more) ≡ some row
  unfolding find
  find-append test [] more row h = cc
  find-append test (r ∷ rows) more row h = elim (Bool-cases (test r)) [
    | inl hit ↦ ground (arith, hit)
    | inr miss ↦ rw (miss, find) (find-append test rows more row (rw (miss, find) at h))
  ]

  -- A row that nothing before it answers for is found at the end.
  pub find-last :
      (test : A → Bool) (rows : List A) (row : A)
      → find test rows ≡ none
      → test row ≡ true
      → find test (rows ++ row ∷ []) ≡ some row
  unfolding find
  find-last test [] row h k = ground (arith, k)
  find-last test (r ∷ rows) row h k = ground (arith, find-last test rows row)

  -- A row that the test fails of is not found at the end.
  pub find-append-none :
      (test : A → Bool) (rows : List A) (row : A)
      → find test rows ≡ none
      → test row ≡ false
      → find test (rows ++ row ∷ []) ≡ none
  unfolding find
  find-append-none test [] row h k = ground (arith, k)
  find-append-none test (r ∷ rows) row h k = ground (arith, find-append-none test rows row)

  -- An update that no test can see changes the row found, and no more.
  pub find-update :
      (test hit : A → Bool) (change : A → A) (rows : List A)
      → ((row : A) → test (if hit row then change row else row) ≡ test row)
      → find test (update hit change rows) ≡ elim (find test rows) [
        | none ↦ none
        | some row ↦ some (if hit row then change row else row)
      ]
  unfolding find update
  find-update test hit change [] keeps = refl
  find-update test hit change (r ∷ rows) keeps = elim (Bool-cases (test r)) [
    | inl yes' ↦ rw (keeps r, yes', find)
    | inr no' ↦ rw (keeps r, no', find) (find-update test hit change rows keeps)
  ]

  pub All-append {κ} :
      (P : A → Type κ) (rows more : List A) → All P rows → All P more → All P (rows ++ more)
  All-append P [] more a b = b
  All-append P (r ∷ rows) more a b = (a.0, All-append P rows more a.1 b)

  pub All-update {κ} :
      (P : A → Type κ) (hit : A → Bool) (change : A → A) (rows : List A)
      → ((row : A) → P row → P (if hit row then change row else row))
      → All P rows
      → All P (update hit change rows)
  unfolding update
  All-update P hit change [] keeps a = tt
  All-update P hit change (r ∷ rows) keeps a = (keeps r a.0, All-update P hit change rows keeps a.1)

  pub All-map {κ μ} :
      (P : A → Type κ) (Q : A → Type μ) (rows : List A)
      → ((row : A) → P row → Q row)
      → All P rows
      → All Q rows
  All-map P Q [] f a = tt
  All-map P Q (r ∷ rows) f a = (f r a.0, All-map P Q rows f a.1)

  pub count-append :
      (test : A → Bool) (rows more : List A)
      → count test (rows ++ more) ≡ count test rows + count test more
  unfolding count
  count-append test [] more = omega arith
  count-append test (r ∷ rows) more = omega (arith, count-append test rows more)

  pub count-update :
      (test hit : A → Bool) (change : A → A) (rows : List A)
      → ((row : A) → test (if hit row then change row else row) ≡ test row)
      → count test (update hit change rows) ≡ count test rows
  unfolding count update
  count-update test hit change [] keeps = refl
  count-update test hit change (r ∷ rows) keeps =
      rw keeps (ap (λ n. (if test r then 1 else 0) + n) (count-update test hit change rows keeps))

pub current-id :
    (id : Text) (rows : List EnrollmentRow) (row : EnrollmentRow)
    → current id rows ≡ some row
    → row.enrollment_id ≡ id
unfolding current
current-id id [] row h = cc
current-id id (r ∷ rows) row h =
    ground (arith, current-id id rows row, text_eq_iff r.enrollment_id id)

-- The current row of an ID is one of the rows.
pub All-current {κ} :
    (P : EnrollmentRow → Type κ) (id : Text) (rows : List EnrollmentRow) (row : EnrollmentRow)
    → All P rows
    → current id rows ≡ some row
    → P row
unfolding current
All-current P id [] row a h = cc
All-current P id (r ∷ rows) row a h = elim (Bool-cases (text_eq r.enrollment_id id)) [
  | inr miss ↦ All-current P id rows row a.1 (rw (miss, current) at h)
  | inl hit ↦ elim (Option-cases (current id rows)) [
    | inl none_left ↦ subst P (ground (arith, hit, none_left)) a.0
    | inr (other, e) ↦ elim (Bool-cases (ltb other.sequence r.sequence)) [
      | inl later ↦ subst P (ground (arith, hit, e, later)) a.0
      | inr kept ↦ All-current P id rows row a.1 (ground (arith, hit, e, kept))
    ]
  ]
]

-- An insert that succeeds met no taken key, and adds its row at the end.
pub insert-ok {ℓ} :
    {A : Type ℓ} (taken : A → Bool) (row : A) (rows : List A) {rows' : List A}
    → insert taken row rows ≡ ok rows'
    → (find taken rows ≡ none) × (rows' ≡ rows ++ row ∷ [])
unfolding insert
insert-ok taken row rows h = elim (Option-cases (find taken rows)) [
  | inl free ↦ (free, ground (arith, free))
  | inr (old, e) ↦ absurd (ground (arith, e))
]
