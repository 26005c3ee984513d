-- ===== src/Store/Binding.antt =====
-- src/store.rs: `bind`, which ties a database to one trustee.
use onym_recovery_trustee.Prelude.{
  List, Option-cases, [], ap, arith, inl, inr, refl, some, sym, text_eq, text_eq_iff, true, ℤ, ◌&&◌,
  ◌∙◌, ◌∷◌, ◌≡◌, ◌⊎◌,
}
use onym_recovery_trustee.Code.{some-injective}
use onym_recovery_trustee.External.{External}
use onym_recovery_trustee.Store.{Db, Identity}
use onym_recovery_trustee.Store.Commit.{
  Commit, at_time, begun, challenged, ended, enrolled, polled, retried, served, spent, stopped,
}
use onym_recovery_trustee.Store.Commit.Steps.{spend_nonce-ok}
use onym_recovery_trustee.Store.Ending.{bury}
use onym_recovery_trustee.Store.Recovering.{count_attempt, set_session}
use onym_recovery_trustee.Store.Runs.{Run, Run-keeps, commits, invites, nothing}
use onym_recovery_trustee.Store.Serving.{bind}
use onym_recovery_trustee.Store.Tables.{spend_challenge}
use onym_recovery_trustee.Trustee.{Trustee, key_id, operator}

-- The stored identity is this trustee's.
pub record IsBound (x : External) (t : Trustee) (db : Db) : Type 0 where
  pub stored : Identity
  pub kept : db.identity ≡ some stored
  pub component : stored.component_id ≡ t.component_id
  pub operator_key : stored.operator ≡ operator x t
  pub enrollment_key : stored.trustee_key_id ≡ key_id x t

List-cases {ℓ} : {A : Type ℓ} (l : List A) → (l ≡ []) ⊎ ((a : A) × (rest : List A) × (l ≡ a ∷ rest))
List-cases [] = inl refl
List-cases (a ∷ rest) = inr (a, rest, refl)

-- A database that `bind` takes holds this trustee's identity from then on.
pub bind-IsBound :
    (x : External) (t : Trustee) (db : Db) → (bind x t db).0 ≡ true → IsBound x t (bind x t db).1
unfolding bind
bind-IsBound x t db h = elim (Option-cases db.identity) [
  | inr (stored, e) ↦
      let same : (text_eq stored.component_id t.component_id
            && text_eq stored.operator (operator x t)
            && text_eq stored.trustee_key_id (key_id x t))
          ≡ true =
        ground (arith, e, h) in
      record {
        stored = stored;
        kept = ground (arith, e);
        component = (text_eq_iff stored.component_id t.component_id).0 (ground (arith, same));
        operator_key = (text_eq_iff stored.operator (operator x t)).0 (ground (arith, same));
        enrollment_key = (text_eq_iff stored.trustee_key_id (key_id x t)).0 (ground (arith, same));
      }
  | inl e ↦ elim (List-cases db.enrollments) [
    | inr (row, rows, f) ↦ absurd (ground (arith, e, f, h))
    | inl f ↦ record {
      stored = record {
        component_id = t.component_id;
        operator = operator x t;
        trustee_key_id = key_id x t;
      };
      kept = ground (arith, e, f);
      component = refl;
      operator_key = refl;
      enrollment_key = refl;
    }
  ]
]

module _ (t : Trustee) (now : ℤ) (db db' : Db) where
  Commit-identity : Commit t now db db' → db'.identity ≡ db.identity
  unfolding set_session spend_challenge bury count_attempt
  Commit-identity (retried e) = ap (λ (d : Db). d.identity) e
  Commit-identity (challenged c _ _ e) = ap (λ (d : Db). d.identity) e
  Commit-identity (spent challenge invitation _ e) = ap (λ (d : Db). d.identity) e
  Commit-identity (enrolled new invitation _ _ _ _ _ _ _ e) = ap (λ (d : Db). d.identity) e
  Commit-identity (polled scope signed _ spend) =
      ap (λ (d : Db). d.identity) (spend_nonce-ok (at_time db now) scope signed t now db' spend).1
  Commit-identity (begun old new _ _ _ _ _ _ _ _ _ e) = ap (λ (d : Db). d.identity) e
  Commit-identity (served signed spent_db session old c _ spend _ _ e) =
      let nonces = (spend_nonce-ok (at_time db now) _ signed t now spent_db spend).1 in
      ap (λ (d : Db). d.identity) e ∙ ap (λ (d : Db). d.identity) nonces
  Commit-identity (stopped signed session holder live _ _ _ e) = ap (λ (d : Db). d.identity) e
  Commit-identity (ended old operation _ _ e) = ap (λ (d : Db). d.identity) e

Run-identity :
    (x : External) (t : Trustee) (db db' : Db) → Run x t db db' → db'.identity ≡ db.identity
Run-identity x t db db' run =
    Run-keeps x t (λ d. d.identity ≡ db.identity) db db'
      (λ now a b e same. elim e [
        | nothing h ↦ ap (λ (d : Db). d.identity) h ∙ same
        | commits on_time k ↦ Commit-identity t now a b k ∙ same
        | invites invitation on_time h ↦ ap (λ (d : Db). d.identity) h ∙ same
      ])
      run refl

-- A database that is bound stays as it is when it is bound again.
bind-keeps :
    (x : External) (t : Trustee) (db : Db) (stored : Identity)
    → db.identity ≡ some stored
    → (bind x t db).1.identity ≡ some stored
unfolding bind
bind-keeps x t db stored h = ground (arith, h)

-- A database that one trustee bound and served is bound by another, after any requests and invitations,
-- only if the other has the same component ID, the same operator's key and the same enrollment key ID.
pub bind_once :
    (x : External) (t other : Trustee) (db db' : Db)
    → (bind x t db).0 ≡ true
    → Run x t (bind x t db).1 db'
    → (bind x other db').0 ≡ true
    → (other.component_id ≡ t.component_id)
      × (operator x other ≡ operator x t)
      × (key_id x other ≡ key_id x t)
bind_once x t other db db' first run again =
    let mine = bind-IsBound x t db first in
    let theirs = bind-IsBound x other db' again in
    let kept = Run-identity x t (bind x t db).1 db' run ∙ mine.kept in
    let one = some-injective (sym (bind-keeps x other db' mine.stored kept) ∙ theirs.kept) in
    (
      sym theirs.component ∙ sym (ap (λ (i : Identity). i.component_id) one) ∙ mine.component,
      sym theirs.operator_key ∙ sym (ap (λ (i : Identity). i.operator) one) ∙ mine.operator_key,
      sym theirs.enrollment_key
          ∙ sym (ap (λ (i : Identity). i.trustee_key_id) one)
          ∙ mine.enrollment_key,
    )
