-- ===== src/Wire.antt =====
-- src/wire.rs: the constants and objects of the binding. A field that the source gives as
-- `[u8; 32]` or `[u8; 64]` is the list of its bytes.
pub mod Documents
pub mod Encoding
pub mod Duration
pub mod Lengths
pub mod Digests
pub mod Requests
pub mod Receipts
use onym_recovery_trustee.Prelude.{Bool, Bytes, List, Option, Text, codes, ℕ, ℤ, ◌-◌, ◌^◌}
use onym_recovery_trustee.Json.{Json}

abbrev pub binding_version : Text
binding_version = codes "draft-1"

abbrev pub seat : Text
seat = codes "identity.recovery-trustee"

abbrev pub recovery_profile : Text
recovery_profile = codes "onym:recovery-profile:trustee-v1"

abbrev pub implementation_profile : Text
implementation_profile = codes "onym:recovery-implementation:shamir-trustees-slip39-v1"

abbrev pub recovery_mode_restoration : Text
recovery_mode_restoration = codes "secret-restoration"

abbrev pub encryption_suite_hpke : Text
encryption_suite_hpke = codes "hpke-base-x25519-hkdf-sha256-aes-256-gcm"

abbrev pub proof_suite_ed25519 : Text
proof_suite_ed25519 = codes "ed25519"

abbrev pub artifact_aead : Text
artifact_aead = codes "aes-256-gcm"

abbrev pub factor_ed25519_session : Text
factor_ed25519_session = codes "onym:recovery-factor:ed25519-session-v1:"

abbrev pub notice_holder_poll : Text
notice_holder_poll = codes "onym:recovery-notice:holder-poll-v1"

abbrev pub veto_authorization_key : Text
veto_authorization_key = codes "onym:recovery-veto:authorization-key-v1"

abbrev pub lapse_none : Text
lapse_none = codes "onym:recovery-lapse:none-v1"

abbrev pub enrollment_info_tag : Text
enrollment_info_tag = codes "onym-shamir-enrollment-v1"

abbrev pub recovery_info_tag : Text
recovery_info_tag = codes "onym-shamir-recovery-contribution-v1"

abbrev pub destination_keys_tag : Text
destination_keys_tag = codes "onym-recovery-destination-keys-v1"

abbrev pub factor_evidence_tag : Text
factor_evidence_tag = codes "onym-recovery-factor-ed25519-session-v1"

abbrev pub storage_class_sqlite : Text
storage_class_sqlite = codes "onym:recovery-storage:sqlite-software-keys-v1"

abbrev pub max_safe_integer : ℕ
max_safe_integer = 2 ^ 53 - 1

-- `EnrollmentContext`
pub record EnrollmentContext : Type 0 where
  pub implementation_profile_id : Text
  pub enrollment_id : Text
  pub enrollment_sequence : ℕ
  pub policy_digest : Text
  pub artifact_id : Text
  pub artifact_digest : Text
  pub trustee_component_id : Text
  pub slot : Text
  pub trustee_challenge : Text
  pub authorization_key_digest : Text

-- `TrusteePolicyFields`
pub record TrusteePolicyFields : Type 0 where
  pub candidate_factors : List Text
  pub cooldown : Text
  pub session_lifetime : Text
  pub maximum_attempts : ℕ
  pub notifications : List Text
  pub holder_veto : Text
  pub lapse_policy : Text

-- `ShareEnvelope`
pub record ShareEnvelope : Type 0 where
  pub share_envelope_version : ℕ
  pub implementation_profile_id : Text
  pub enrollment_id : Text
  pub enrollment_sequence : ℕ
  pub policy_digest : Text
  pub identity_binding_commitment : Text
  pub artifact_digest : Text
  pub artifact_id : Text
  pub recovery_mode : Text
  pub trustee_component_id : Text
  pub slot : Text
  pub trustee_challenge : Text
  pub member_index : ℕ
  pub member_threshold : ℕ
  pub member_count : ℕ
  pub trustee_policy : TrusteePolicyFields
  pub slip39_share : Text
  pub created_at : Text
  pub expires_at : Text
  pub authorization_public_key : Text

-- `ProtectionParameters`
pub record ProtectionParameters : Type 0 where
  pub aead : Text
  pub nonce : Text

-- `ProtectedArtifact`
pub record ProtectedArtifact : Type 0 where
  pub protected_artifact_version : ℕ
  pub implementation_profile_id : Text
  pub enrollment_id : Text
  pub enrollment_sequence : ℕ
  pub policy_digest : Text
  pub identity_binding_commitment : Text
  pub recovery_mode : Text
  pub artifact_id : Text
  pub protection_parameters : ProtectionParameters
  pub ciphertext : Text

-- `Destination`
pub record Destination : Type 0 where
  pub encryption_suite : Text
  pub encryption_public_key : Text
  pub proof_suite : Text
  pub proof_public_key : Text

-- `SessionCore`
pub record SessionCore : Type 0 where
  pub session_version : ℕ
  pub session_id : Text
  pub enrollment_id : Text
  pub enrollment_sequence : ℕ
  pub policy_digest : Text
  pub artifact_id : Text
  pub artifact_digest : Text
  pub destination : Destination
  pub requested_at : Text
  pub expires_at : Text

-- `EvidenceFields`
pub record EvidenceFields : Type 0 where
  pub factor : Text
  pub signature : Text

-- `Approval`
pub record Approval : Type 0 where
  pub contribution_version : ℕ
  pub session_id : Text
  pub enrollment_id : Text
  pub enrollment_sequence : ℕ
  pub policy_digest : Text
  pub artifact_id : Text
  pub artifact_digest : Text
  pub component_id : Text
  pub slot : Text
  pub decision : Text
  pub destination_keys_digest : Text
  pub sealed_contribution : Text
  pub decided_at : Text
  pub expires_at : Text

-- `ChallengeRequest`
pub record ChallengeRequest : Type 0 where
  pub request_version : ℕ
  pub component_id : Text
  pub invitation : Text

-- `EnrollRequest`
pub record EnrollRequest : Type 0 where
  pub request_version : ℕ
  pub context : EnrollmentContext
  pub trustee_key_id : Text
  pub sealed_envelope : Text
  pub protected_artifact : Json

-- `BeginRequest`
pub record BeginRequest : Type 0 where
  pub request_version : ℕ
  pub session : Json

-- `SignedRequest`
pub record SignedRequest : Type 0 where
  pub request_version : ℕ
  pub operation : Text
  pub request_id : Text
  pub component_id : Text
  pub issued_at : Text
  pub enrollment_id : Option Text
  pub session_id : Option Text
  pub by : Option Text

-- `Signed`
pub record Signed : Type 0 where
  pub operation : Text
  pub request_id : Text
  pub target : Text
  pub by : Option Text
  pub issued_at : ℤ
  pub message : Bytes
  pub signature : Bytes
  pub digest : Text

-- `Notice`
pub record Notice : Type 0 where
  pub session_id : Text
  pub state : Text
  pub reason : Option Text
  pub released : Bool
  pub cooldown_ends_at : Text
  pub expires_at : Text

-- `Receipt`
pub record Receipt : Type 0 where
  pub receipt_version : ℕ
  pub operation : Text
  pub request_id : Text
  pub component_id : Text
  pub implementation_profile_id : Text
  pub enrollment_id : Text
  pub enrollment_sequence : ℕ
  pub policy_digest : Text
  pub old_state : Text
  pub new_state : Text
  pub recorded_at : Text
  pub expires_at : Text
  pub session_id : Option Text
  pub reason : Option Text
  pub artifact_id : Option Text
  pub artifact_digest : Option Text
  pub slot : Option Text
  pub sealed_contribution_digest : Option Text
  pub storage_class : Option Text
  pub cooldown_ends_at : Option Text
  pub remaining_attempts : Option ℕ
  pub destination_keys_digest : Option Text
  pub evidence_digest : Option Text
  pub contribution : Option Json
  pub sessions : Option (List Notice)

-- The body of the answer to `issue-challenge` (src/store.rs).
pub record ChallengeReply : Type 0 where
  pub challenge : Text
  pub component_id : Text
  pub expires_at : Text
  pub trustee_key_id : Text
