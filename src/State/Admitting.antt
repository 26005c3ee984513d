-- ===== src/State/Admitting.antt =====
-- src/state.rs: when `admit` takes a session, and how long an admitted session waits.
use onym_recovery_trustee.Prelude.{
  abs_parts, abs_within, arith, ℕ, ℤ, ◌+ℤ◌, ◌<ℤ◌, ◌<◌, ◌↔◌, ◌≡◌, ◌≤ℤ◌,
}
use onym_recovery_trustee.Code.{ok}
use onym_recovery_trustee.State.{
  Admission, EnrollmentState, Release, SessionState, SessionStatus, TrusteePolicy, accepted, admit,
  release,
}
use onym_recovery_trustee.State.Releasing.{release_iff}

-- What has to hold for `admit` to take a session, and the deadlines that it fixes.
pub record Admissible (e : EnrollmentState) (p : TrusteePolicy) (attempts_used : ℕ)
    (requested_at expires_at now skew : ℤ) (a : Admission) : Type 0 where
  pub in_force : e.status ≡ accepted
  pub in_term : now <ℤ e.expires_at
  pub attempts : attempts_used < p.maximum_attempts
  pub not_stale : requested_at ≤ℤ now +ℤ skew
  pub not_early : now ≤ℤ requested_at +ℤ skew
  pub unexpired : now <ℤ expires_at
  pub outlives : now +ℤ p.cooldown_secs <ℤ expires_at
  pub bounded : expires_at ≤ℤ now +ℤ p.session_lifetime_secs
  pub within_term : expires_at ≤ℤ e.expires_at
  pub cooldown : a.cooldown_ends_at ≡ now +ℤ p.cooldown_secs
  pub expiry : a.expires_at ≡ expires_at

module _ (e : EnrollmentState) (p : TrusteePolicy) (attempts_used : ℕ)
    (requested_at expires_at now skew : ℤ) (a : Admission) where
  admit-Admissible :
      admit e p attempts_used requested_at expires_at now skew ≡ ok a
      → Admissible e p attempts_used requested_at expires_at now skew a
  unfolding admit
  admit-Admissible h = ground (arith, abs_parts requested_at now skew)

  Admissible-admit :
      Admissible e p attempts_used requested_at expires_at now skew a
      → admit e p attempts_used requested_at expires_at now skew ≡ ok a
  unfolding admit
  Admissible-admit h = ground (arith, abs_within requested_at now skew)

  -- `admit` takes a session exactly when the enrollment is accepted and in its term, an attempt is
  -- left, `requestedAt` is within the skew of the clock in either direction, and the session is
  -- unexpired, outlives its cooldown and ends within the policy's lifetime and the enrollment's
  -- term; the deadlines are then `now` plus the policy's cooldown, and the session's own expiry.
  pub admit_iff :
      (admit e p attempts_used requested_at expires_at now skew ≡ ok a)
      ↔ Admissible e p attempts_used requested_at expires_at now skew a
  admit_iff = (admit-Admissible, Admissible-admit)

-- The session that `begin-recovery` stores for an admission.
abbrev pub admitted : SessionStatus → ℕ → Admission → SessionState
admitted status sequence a = record {
  status = status;
  sequence = sequence;
  cooldown_ends_at = a.cooldown_ends_at;
  expires_at = a.expires_at;
}

-- A session admitted at `now` is released, whatever its status and the enrollment have become, only
-- at a time at least the policy's cooldown after `now`, the trustee's clock at admission, and before
-- its expiry, which is at most the policy's lifetime after `now` and within the term of the
-- enrollment that it was admitted under.
pub release_waits :
    (e f : EnrollmentState) (p : TrusteePolicy) (attempts_used sequence : ℕ)
    (requested_at expires_at now skew later floor : ℤ) (a : Admission) (status : SessionStatus)
    (k : Release)
    → admit e p attempts_used requested_at expires_at now skew ≡ ok a
    → release f (admitted status sequence a) later floor ≡ ok k
    → (now +ℤ p.cooldown_secs ≤ℤ later)
      × (later <ℤ expires_at)
      × (expires_at ≤ℤ now +ℤ p.session_lifetime_secs)
      × (expires_at ≤ℤ e.expires_at)
release_waits e f p n q r x now skew later floor a status k h g =
    let i = (admit_iff e p n r x now skew a).0 h in
    let j = (release_iff f (admitted status q a) later floor k).0 g in
    ground (arith, i.cooldown, i.expiry, j.cooled, j.unexpired, i.bounded, i.within_term)
