-- ===== src/State/Tests.antt =====
-- Runs of src/state.rs on its own test data.
use onym_recovery_trustee.Prelude.{
  [], abs, neg_part, pos, pos_part, refl, ℕ, ◌*◌, ◌+ℤ◌, ◌+◌, ◌-ℤ◌, ◌-◌, ◌<ℤ◌, ◌≡◌, ◌≤ℤ◌,
}
use onym_recovery_trustee.Code.{err, ok, recovery_cooling_down}
use onym_recovery_trustee.State.{
  Admission, EnrollmentState, SessionState, SessionStatus, TrusteePolicy, accepted, admit,
  cooling_down, release, released, resend,
}
use onym_recovery_trustee.State.Admitting.{Admissible, admit_iff, release_waits}
use onym_recovery_trustee.State.Releasing.{Releasable, release_iff}

abbrev day : ℕ
day = 86400

abbrev noon : ℕ
noon = 1800000000

abbrev sample_enrollment : EnrollmentState
sample_enrollment = record { status = accepted; sequence = 2; expires_at = pos (noon + 365 * day) }

abbrev sample_session : SessionStatus → SessionState
sample_session s = record {
  status = s;
  sequence = 2;
  cooldown_ends_at = pos (noon + 2 * day);
  expires_at = pos (noon + 3 * day);
}

abbrev sample_policy : TrusteePolicy
sample_policy = record {
  factor_key = [];
  cooldown_secs = pos (2 * day);
  session_lifetime_secs = pos (7 * day);
  maximum_attempts = 3;
}

abbrev sample_admission : Admission
sample_admission = record {
  cooldown_ends_at = pos (noon + 2 * day);
  expires_at = pos (noon + 3 * day);
}

-- A backdated `requestedAt` inside the skew does not shorten the cooldown.
admit_backdated :
    admit sample_enrollment sample_policy 0
      (pos (noon - 60))
      (pos (noon + 3 * day))
      (pos noon)
      (pos 300)
    ≡ ok sample_admission
unfolding admit abs ◌-ℤ◌ ◌+ℤ◌
admit_backdated = refl

release_resends :
    release sample_enrollment (sample_session released) (pos (noon + 2 * day)) (pos noon)
    ≡ ok resend
unfolding release pos_part neg_part
release_resends = refl

release_cools :
    release sample_enrollment (sample_session cooling_down) (pos (noon + day)) (pos noon)
    ≡ err recovery_cooling_down
unfolding release pos_part neg_part
release_cools = refl

release_iff_example :
    Releasable sample_enrollment (sample_session released) (pos (noon + 2 * day)) (pos noon) resend
release_iff_example =
    (release_iff sample_enrollment (sample_session released) (pos (noon + 2 * day)) (pos noon)
        resend).0
      release_resends

admit_iff_example :
    Admissible sample_enrollment sample_policy 0
      (pos (noon - 60))
      (pos (noon + 3 * day))
      (pos noon)
      (pos 300)
      sample_admission
admit_iff_example =
    (admit_iff sample_enrollment sample_policy 0 (pos (noon - 60)) (pos (noon + 3 * day)) (pos noon)
        (pos 300) sample_admission).0
      admit_backdated

release_waits_example :
    (pos noon +ℤ pos (2 * day) ≤ℤ pos (noon + 2 * day))
    × (pos (noon + 2 * day) <ℤ pos (noon + 3 * day))
    × (pos (noon + 3 * day) ≤ℤ pos noon +ℤ pos (7 * day))
    × (pos (noon + 3 * day) ≤ℤ pos (noon + 365 * day))
release_waits_example =
    release_waits sample_enrollment sample_enrollment sample_policy 0 2 (pos (noon - 60))
      (pos (noon + 3 * day)) (pos noon) (pos 300) (pos (noon + 2 * day)) (pos noon) sample_admission
      released resend admit_backdated release_resends
