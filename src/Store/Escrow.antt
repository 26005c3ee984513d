-- ===== src/Store/Escrow.antt =====
-- An abstract escrow that src/store.rs implements: what a session and the custody of an enrollment go
-- through, with neither tables nor documents, and the commits as its steps.
use mathlib.Core.Path.{subst}
use onym_recovery_trustee.Prelude.{
  Bool, Bytes, Option, Option-cases, Text, all, ap, false, inl, inr, none, refl, some, sym, true, ℕ,
  ℤ, ◌<ℤ◌, ◌∙◌, ◌≡◌, ◌≤ℤ◌, ◌⊎◌,
}
use onym_recovery_trustee.State.{
  SessionStatus, cancelled, cooling_down, finalized, refused, released, vetoed,
}
use onym_recovery_trustee.Store.{Db, EnrollmentRow, SessionRow}
use onym_recovery_trustee.Store.Commit.{Commit}
use onym_recovery_trustee.Store.Contributions.{AllGuarded, Commit-Fresh, Fresh, Guarded}
use onym_recovery_trustee.Store.Moves.{Commit-Moves, Moves, let_out, stops, unmoved}
use onym_recovery_trustee.Store.Recovering.{is_open}
use onym_recovery_trustee.Store.Tables.{at_sequence, find, load_session}
use onym_recovery_trustee.Store.Tombstones.{is_over}
use onym_recovery_trustee.Trustee.{Trustee}
use onym_recovery_trustee.Wire.Encoding.{is_some, sequence}

-- A session: when its cooldown is over, when it expires, and what it handed out.
pub data Phase : Type 0 where
  absent : Phase
  waiting : (ends expires : ℤ) → Phase
  given : (contribution : Bytes) (expires : ℤ) → Phase
  over : (contribution : Option Bytes) → Phase

-- What may become of a session at a time.
pub data Advance (now : ℤ) : Phase → Phase → Type 0 where
  idles : (p : Phase) → Advance now p p
  opens : (ends expires : ℤ) → Advance now absent (waiting ends expires)
  declines : Advance now absent (over none)
  gives :
      (ends expires : ℤ) (contribution : Bytes)
      → (ends ≤ℤ now)
      → (now <ℤ expires)
      → Advance now (waiting ends expires) (given contribution expires)
  stops_waiting :
      (ends expires : ℤ) → (now <ℤ expires) → Advance now (waiting ends expires) (over none)
  stops_given :
      (contribution : Bytes) (expires : ℤ)
      → (now <ℤ expires)
      → Advance now (given contribution expires) (over (some contribution))

-- The custody of an enrollment: whether it is over, the sealed share and the artifact.
pub data Custody : Type 0 where
  nothing_held : Custody
  held : (is_over : Bool) (share artifact : Option Bytes) → Custody

pub data Keeps : Custody → Custody → Type 0 where
  rests : (c : Custody) → Keeps c c
  stores : (share artifact : Option Bytes) → Keeps nothing_held (held false share artifact)
  deletes :
      (is_over : Bool) (share artifact : Option Bytes)
      → Keeps (held is_over share artifact) (held true none none)

abbrev given_or_over : Option Bytes → ℤ → Phase
given_or_over none expires = over none
given_or_over (some contribution) expires = given contribution expires

abbrev phase : SessionStatus → Option Bytes → ℤ → ℤ → Phase
phase cooling_down contribution ends expires = waiting ends expires
phase released contribution ends expires = given_or_over contribution expires
phase finalized contribution ends expires = over contribution
phase cancelled contribution ends expires = over contribution
phase vetoed contribution ends expires = over contribution
phase refused contribution ends expires = over contribution

abbrev pub phase_of : SessionRow → Phase
phase_of s = phase s.status s.contribution s.cooldown_ends_at s.expires_at

abbrev pub phase_found : Option SessionRow → Phase
phase_found none = absent
phase_found (some s) = phase_of s

-- The abstraction of a database, at a session and at an enrollment.
abbrev pub session_view : Text → Db → Phase
session_view id db = phase_found (load_session db id)

abbrev pub custody_of : EnrollmentRow → Custody
custody_of row = held (is_over row.status) row.sealed_envelope row.protected_artifact

abbrev pub custody_found : Option EnrollmentRow → Custody
custody_found none = nothing_held
custody_found (some row) = custody_of row

abbrev pub custody_view : Text → ℕ → Db → Custody
custody_view id sequence db = custody_found (find (at_sequence id sequence) db.enrollments)

pub Keeps-at : (c d c' d' : Custody) → c ≡ c' → d ≡ d' → Keeps c' d' → Keeps c d
Keeps-at c d c' d' e f k = subst (Keeps c) (sym f) (subst (λ r. Keeps r d') (sym e) k)

Advance-at : (now : ℤ) (p q p' q' : Phase) → p ≡ p' → q ≡ q' → Advance now p' q' → Advance now p q
Advance-at now p q p' q' e f a =
    subst (Advance now p) (sym f) (subst (λ r. Advance now r q') (sym e) a)

open-cases :
    (status : SessionStatus) → is_open status ≡ true → (status ≡ cooling_down) ⊎ (status ≡ released)
open-cases cooling_down h = inl refl
open-cases released h = inr refl
open-cases finalized h = cc
open-cases cancelled h = cc
open-cases vetoed h = cc
open-cases refused h = cc

some-value : (o : Option Bytes) → is_some o ≡ true → (c : Bytes) × (o ≡ some c)
some-value none h = cc
some-value (some c) h = (c, refl)

phase_waiting :
    (clock : ℤ) (s : SessionRow)
    → Guarded clock s
    → s.status ≡ cooling_down
    → (phase_of s ≡ waiting s.cooldown_ends_at s.expires_at) × (s.contribution ≡ none)
phase_waiting clock s g h =
    (ap (λ status. phase status s.contribution s.cooldown_ends_at s.expires_at) h, g.waiting h)

phase_given :
    (clock : ℤ) (s : SessionRow)
    → Guarded clock s
    → s.status ≡ released
    → (c : Bytes) × (phase_of s ≡ given c s.expires_at) × (s.contribution ≡ some c)
phase_given clock s g h =
    let (c, e) = some-value s.contribution (g.given h) in
    (
      c,
      ap (λ status. phase status s.contribution s.cooldown_ends_at s.expires_at) h
          ∙ ap (λ o. given_or_over o s.expires_at) e,
      e,
    )

phase_stopped :
    (s : SessionRow) (status : SessionStatus)
    → (status ≡ vetoed) ⊎ (status ≡ cancelled)
    → phase_of (record s { status = status }) ≡ over s.contribution
phase_stopped s status (inl e) = ap (λ r. phase r s.contribution s.cooldown_ends_at s.expires_at) e
phase_stopped s status (inr e) = ap (λ r. phase r s.contribution s.cooldown_ends_at s.expires_at) e

-- A move of a guarded session is a step of its phase.
Moves-Advance :
    (clock now : ℤ) (s s' : SessionRow)
    → Guarded clock s
    → Moves now s s'
    → Advance now (phase_of s) (phase_of s')
Moves-Advance clock now s s' g (unmoved e) =
    Advance-at now _ _ (phase_of s) (phase_of s) refl (ap phase_of e) (idles (phase_of s))
Moves-Advance clock now s s' g (let_out c cooling cool unexpired e) =
    Advance-at now _ _ _ _ (phase_waiting clock s g cooling).0 (ap phase_of e)
      (gives s.cooldown_ends_at s.expires_at c cool unexpired)
Moves-Advance clock now s s' g (stops status open' unexpired kind e) =
    let stopped = ap phase_of e ∙ phase_stopped s status kind in
    elim (open-cases s.status open') [
      | inl cooling ↦
          let (p, none_yet) = phase_waiting clock s g cooling in
          Advance-at now _ _ _ _ p (stopped ∙ ap over none_yet)
            (stops_waiting s.cooldown_ends_at s.expires_at unexpired)
      | inr out ↦
          let (c, p, handed) = phase_given clock s g out in
          Advance-at now _ _ _ _ p (stopped ∙ ap over handed) (stops_given c s.expires_at unexpired)
    ]

-- A session that is added.
Fresh-Advance : (now : ℤ) (s : SessionRow) → Fresh now s → Advance now absent (phase_of s)
Fresh-Advance now s f = elim f.starts [
  | inl cooling ↦
      Advance-at now _ _ absent _ refl
        (ap (λ status. phase status s.contribution s.cooldown_ends_at s.expires_at) cooling)
        (opens s.cooldown_ends_at s.expires_at)
  | inr refusing ↦
      Advance-at now _ _ absent _ refl
        (ap (λ status. phase status s.contribution s.cooldown_ends_at s.expires_at) refusing
          ∙ ap over f.empty_handed)
        declines
]

-- What a commit does to a session is a step of its phase.
pub Commit-Advance :
    (t : Trustee) (now : ℤ) (db db' : Db) (id : Text)
    → AllGuarded db
    → Commit t now db db'
    → Advance now (session_view id db) (session_view id db')
Commit-Advance t now db db' id all k = elim (Option-cases (load_session db id)) [
  | inr (s, found) ↦
      let (s', found', moved) = Commit-Moves t now db db' id s k found in
      Advance-at now _ _ _ _ (ap phase_found found) (ap phase_found found')
        (Moves-Advance db.high_water now s s' (all id s found) moved)
  | inl free ↦ elim (Option-cases (load_session db' id)) [
    | inl free' ↦ Advance-at now _ _ _ _ (ap phase_found free) (ap phase_found free') (idles absent)
    | inr (s, found) ↦
        Advance-at now _ _ _ _ (ap phase_found free) (ap phase_found found)
          (Fresh-Advance now s (Commit-Fresh t now db db' id s k free found))
  ]
]
