-- ===== src/State.antt =====
-- src/state.rs: session admission and the release predicate.
pub mod Names
pub mod Releasing
pub mod Admitting
mod Tests
use onym_recovery_trustee.Prelude.{
  List, abs, if◌then◌else◌, leb, leb_ℤ, ltb_ℤ, ℕ, ℤ, ◌&&◌, ◌+ℤ◌, ◌-ℤ◌, ◌==◌,
}
use onym_recovery_trustee.Code.{
  Result, enrollment_expired, enrollment_revoked, err, invalid_request, ok, recovery_cooling_down,
  recovery_expired, recovery_rate_limited, recovery_refused, recovery_vetoed,
  stale_enrollment_sequence, temporarily_unavailable, ◌>>◌,
}

pub data EnrollmentStatus : Type 0 where
  accepted superseded revoked closed : EnrollmentStatus

pub data SessionStatus : Type 0 where
  cooling_down released finalized cancelled vetoed refused : SessionStatus

-- The stored facts about one enrollment sequence.
pub record EnrollmentState : Type 0 where
  pub status : EnrollmentStatus
  pub sequence : ℕ
  pub expires_at : ℤ

pub record SessionState : Type 0 where
  pub status : SessionStatus
  pub sequence : ℕ
  pub cooldown_ends_at : ℤ
  pub expires_at : ℤ

-- `TrusteePolicy` of src/wire.rs
pub record TrusteePolicy : Type 0 where
  pub factor_key : List ℕ
  pub cooldown_secs : ℤ
  pub session_lifetime_secs : ℤ
  pub maximum_attempts : ℕ

pub record Admission : Type 0 where
  pub cooldown_ends_at : ℤ
  pub expires_at : ℤ

pub data Release : Type 0 where
  emit resend : Release

-- `fn usable`
unfoldable pub usable : EnrollmentState → ℤ → Result (Unit {0})
usable e now = elim e.status [
  | revoked ↦ err enrollment_revoked
  | closed ↦ err enrollment_revoked
  | superseded ↦ err stale_enrollment_sequence
  | accepted ↦ if leb_ℤ e.expires_at now then err enrollment_expired else ok tt
]

-- `fn admit`
unfoldable pub admit : EnrollmentState → TrusteePolicy → ℕ → ℤ → ℤ → ℤ → ℤ → Result Admission
unfolding usable
admit enrollment policy attempts_used requested_at expires_at now skew_secs = do
  usable enrollment now
  if leb policy.maximum_attempts attempts_used
      then err recovery_rate_limited
      else if ltb_ℤ skew_secs (abs (requested_at -ℤ now))
      then err invalid_request
      else if leb_ℤ expires_at now
      then err recovery_expired
      else let cooldown_ends_at = now +ℤ policy.cooldown_secs in
        if ltb_ℤ cooldown_ends_at expires_at
          && leb_ℤ expires_at (now +ℤ policy.session_lifetime_secs)
          && leb_ℤ expires_at enrollment.expires_at
        then ok (record { cooldown_ends_at = cooldown_ends_at; expires_at = expires_at })
        else err recovery_refused

-- The match on the session's status that stops a release.
abbrev pub blocked : SessionStatus → Result (Unit {0})
blocked cooling_down = ok tt
blocked released = ok tt
blocked vetoed = err recovery_vetoed
blocked cancelled = err recovery_refused
blocked refused = err recovery_refused
blocked finalized = err recovery_refused

-- The kind of release that an open session gets.
abbrev pub release_kind : SessionStatus → Release
release_kind released = resend
release_kind _ = emit

-- `fn release`
unfoldable pub release : EnrollmentState → SessionState → ℤ → ℤ → Result Release
unfolding usable
release enrollment session now clock_floor =
    if ltb_ℤ now clock_floor then err temporarily_unavailable else do
      usable enrollment now
      if session.sequence == enrollment.sequence
          then (do
            blocked session.status
            if leb_ℤ session.expires_at now
                then err recovery_expired
                else if ltb_ℤ now session.cooldown_ends_at
                then err recovery_cooling_down
                else ok (release_kind session.status))
          else err stale_enrollment_sequence
