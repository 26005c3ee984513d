-- ===== src/Store/Refinement.antt =====
-- src/store.rs implements the escrow: every run of requests and invitations is a run of the escrow.
use onym_recovery_trustee.Prelude.{Text, ℕ, ℤ}
use onym_recovery_trustee.External.{External}
use onym_recovery_trustee.Store.{Db}
use onym_recovery_trustee.Store.Escrow.{Advance, Custody, Keeps, Phase, custody_view, session_view}
use onym_recovery_trustee.Trustee.{Trustee}

-- The escrow: every session's phase, and the custody of every enrollment.
pub record Escrow : Type 0 where
  pub sessions : Text → Phase
  pub custody : Text → ℕ → Custody

-- Every part of the escrow takes a step at one time.
pub record Turn (now : ℤ) (a b : Escrow) : Type 0 where
  pub advances : (id : Text) → Advance now (a.sessions id) (b.sessions id)
  pub keeps : (id : Text) (sequence : ℕ) → Keeps (a.custody id sequence) (b.custody id sequence)

-- Turns that follow each other.
pub data Turns : Escrow → Escrow → Type 0 where
  here : (a : Escrow) → Turns a a
  turn : (a b c : Escrow) (now : ℤ) → Turns a b → Turn now b c → Turns a c

-- The escrow that a database holds.
abbrev pub view : Db → Escrow
view db = record {
  sessions = λ id. session_view id db;
  custody = λ id sequence. custody_view id sequence db;
}
