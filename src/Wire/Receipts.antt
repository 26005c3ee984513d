-- ===== src/Wire/Receipts.antt =====
-- src/wire.rs: receipts, and the contract's names of the local states.
use onym_recovery_trustee.Prelude.{
  Option, Text, [], codes, if◌then◌else◌, leb_ℤ, ltb_ℤ, none, some, ℤ,
}
use onym_recovery_trustee.Code.{as_str, invalid_candidate_factor, recovery_vetoed}
use onym_recovery_trustee.State.{
  EnrollmentStatus, SessionStatus, accepted, cancelled, cooling_down, finalized, refused, released,
  vetoed,
}
use onym_recovery_trustee.State.Names.{enrollment_name}
use onym_recovery_trustee.Wire.{EnrollmentContext, Receipt}

-- `Receipt::about`
unfoldable pub about : Text → EnrollmentContext → Text → Receipt
about component_id context operation = record {
  receipt_version = 1;
  operation = operation;
  request_id = [];
  component_id = component_id;
  implementation_profile_id = context.implementation_profile_id;
  enrollment_id = context.enrollment_id;
  enrollment_sequence = context.enrollment_sequence;
  policy_digest = context.policy_digest;
  old_state = [];
  new_state = [];
  recorded_at = [];
  expires_at = [];
  session_id = none;
  reason = none;
  artifact_id = none;
  artifact_digest = none;
  slot = none;
  sealed_contribution_digest = none;
  storage_class = none;
  cooldown_ends_at = none;
  remaining_attempts = none;
  destination_keys_digest = none;
  evidence_digest = none;
  contribution = none;
  sessions = none;
}

-- `enrollment_state`
unfoldable pub enrollment_state : EnrollmentStatus → ℤ → ℤ → Text
enrollment_state accepted expires_at now =
    if leb_ℤ expires_at now then codes "expired" else codes "active"
enrollment_state other expires_at now = enrollment_name other

-- `session_state`
unfoldable pub session_state : SessionStatus → ℤ → ℤ → ℤ → Text
session_state cooling_down cooldown_ends_at expires_at now =
    if leb_ℤ expires_at now
    then codes "expired"
    else if ltb_ℤ now cooldown_ends_at
    then codes "cooling_down"
    else codes "collecting"
session_state released cooldown_ends_at expires_at now =
    if leb_ℤ expires_at now then codes "expired" else codes "collecting"
session_state finalized cooldown_ends_at expires_at now = codes "finalized"
session_state cancelled cooldown_ends_at expires_at now = codes "cancelled"
session_state vetoed cooldown_ends_at expires_at now = codes "cancelled"
session_state refused cooldown_ends_at expires_at now = codes "refused"

-- `session_reason`
unfoldable pub session_reason : SessionStatus → Option Text
session_reason vetoed = some (as_str recovery_vetoed)
session_reason refused = some (as_str invalid_candidate_factor)
session_reason _ = none
