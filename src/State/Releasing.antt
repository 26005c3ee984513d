-- ===== src/State/Releasing.antt =====
-- src/state.rs: when `release` lets a contribution out.
use onym_recovery_trustee.Prelude.{arith, ℤ, ◌<ℤ◌, ◌↔◌, ◌≡◌, ◌≤ℤ◌, ◌⊎◌}
use onym_recovery_trustee.Code.{ok}
use onym_recovery_trustee.State.{
  EnrollmentState, Release, SessionState, accepted, cooling_down, emit, release, released, resend,
}

-- What has to hold for `release` to answer `k`.
pub record Releasable (e : EnrollmentState) (s : SessionState) (now floor : ℤ) (k : Release)
    : Type 0 where
  pub clock : floor ≤ℤ now
  pub in_force : e.status ≡ accepted
  pub in_term : now <ℤ e.expires_at
  pub current : s.sequence ≡ e.sequence
  pub kind : (s.status ≡ cooling_down) × (k ≡ emit) ⊎ (s.status ≡ released) × (k ≡ resend)
  pub cooled : s.cooldown_ends_at ≤ℤ now
  pub unexpired : now <ℤ s.expires_at

release-Releasable :
    (e : EnrollmentState) (s : SessionState) (now floor : ℤ) (k : Release)
    → release e s now floor ≡ ok k
    → Releasable e s now floor k
unfolding release
release-Releasable e s now floor k h = ground arith

Releasable-release :
    (e : EnrollmentState) (s : SessionState) (now floor : ℤ) (k : Release)
    → Releasable e s now floor k
    → release e s now floor ≡ ok k
unfolding release
Releasable-release e s now floor k h = ground arith

-- `release` answers `k` exactly when the clock has not moved backwards, the enrollment is accepted
-- and in its term, the session is of the current sequence, cooled down and unexpired, and its
-- status is cooling down (`emit`) or released (`resend`).
pub release_iff :
    (e : EnrollmentState) (s : SessionState) (now floor : ℤ) (k : Release)
    → (release e s now floor ≡ ok k) ↔ Releasable e s now floor k
release_iff e s now floor k =
    (release-Releasable e s now floor k, Releasable-release e s now floor k)
