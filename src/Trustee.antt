-- ===== src/Trustee.antt =====
-- src/lib.rs: enrollment acceptance, the artifact check, session verification, the factor check and
-- the release of a contribution.
pub mod Sessions
pub mod Manifest
pub mod Accepting
pub mod Releases
pub mod Verifying
pub mod Trials
pub mod Factors
use onym_recovery_trustee.Prelude.{
  Bool, Bytes, List, Option, Text, [], codes, false, if◌then◌else◌, leb, leb_ℤ, length, ltb, ltb_ℤ,
  none, pos, some, strip_prefix, text_eq, true, ℕ, ℤ, ◌&&◌, ◌*◌, ◌++◌, ◌+ℤ◌, ◌+◌, ◌-◌, ◌/◌, ◌==◌,
  ◌∷◌,
}
use onym_recovery_trustee.Code.{
  Code, Result, artifact_mismatch, enrollment_expired, err, invalid_enrollment, invalid_policy, ok,
  ok_or, unsupported_profile, ◌>>=◌, ◌>>◌,
}
use onym_recovery_trustee.Crypto.{is_usable_verifying_key, open_sealed, verify}
use onym_recovery_trustee.External.{External}
use onym_recovery_trustee.Json.{Json, take_string}
use onym_recovery_trustee.Slip39.{Decoded, Share, invalid, malformed, unsupported, valid, validate}
use onym_recovery_trustee.State.{TrusteePolicy}
use onym_recovery_trustee.Wire.{
  EnrollmentContext, ProtectedArtifact, ShareEnvelope, TrusteePolicyFields, artifact_aead,
  factor_ed25519_session, implementation_profile, lapse_none, notice_holder_poll,
  recovery_mode_restoration, veto_authorization_key,
}
use onym_recovery_trustee.Wire.Digests.{info, is_well_formed, key_digest, repeats}
use onym_recovery_trustee.Wire.Documents.{canonical, digest, parse}
use onym_recovery_trustee.Wire.Duration.{duration}
use onym_recovery_trustee.Wire.Encoding.{hex32, hex_bytes, is_digest, is_some, signature, timestamp}

pub record Limits : Type 0 where
  pub skew_secs : ℤ
  pub min_cooldown_secs : ℤ
  pub max_cooldown_secs : ℤ
  pub max_session_lifetime_secs : ℤ
  pub max_attempts : ℕ
  pub max_enrollment_term_secs : ℤ
  pub max_artifact_bytes : ℕ

-- `div_ceil`
abbrev div_ceil : ℕ → ℕ → ℕ
div_ceil n d = (n + (d - 1)) / d

-- `Limits::max_request_bytes`
unfoldable pub max_request_bytes : Limits → ℕ
max_request_bytes limits = div_ceil limits.max_artifact_bytes 3 * 4 + 16 * 1024

pub record Trustee : Type 0 where
  pub component_id : Text
  pub hpke_key : Bytes
  pub signing_key : Bytes
  pub limits : Limits

pub record Enrollment : Type 0 where
  pub context : EnrollmentContext
  pub identity_binding_commitment : Text
  pub member_index : ℕ
  pub member_threshold : ℕ
  pub member_count : ℕ
  pub policy : TrusteePolicy
  pub created_at : ℤ
  pub expires_at : ℤ
  pub authorization_key : Bytes

pub record Evidence : Type 0 where
  pub factor : Text
  pub signature : Bytes

pub record Session : Type 0 where
  pub session_id : Text
  pub enrollment_id : Text
  pub enrollment_sequence : ℕ
  pub policy_digest : Text
  pub artifact_id : Text
  pub artifact_digest : Text
  pub destination_key : Bytes
  pub destination_keys_digest : Text
  pub proof_key : Bytes
  pub session_commitment : Text
  pub requested_at : ℤ
  pub expires_at : ℤ
  pub evidence : List Evidence
  pub canonical : Bytes

pub record Contribution : Type 0 where
  pub canonical : Bytes
  pub sealed_digest : Text

-- `Session::binds`
unfoldable pub binds : Session → EnrollmentContext → Bool
binds s c =
    text_eq s.enrollment_id c.enrollment_id
    && s.enrollment_sequence == c.enrollment_sequence
    && text_eq s.policy_digest c.policy_digest
    && text_eq s.artifact_id c.artifact_id
    && text_eq s.artifact_digest c.artifact_digest

-- A guard: `if !test { return Err(code) }`.
abbrev pub require : Bool → Code → Result (Unit {0})
require true code = ok tt
require false code = err code

-- `map_err` of a share's error.
abbrev pub share_result : Decoded Share → Result Share
share_result (valid share) = ok share
share_result (invalid malformed) = err invalid_enrollment
share_result (invalid unsupported) = err unsupported_profile

-- `let [item] = items else { return Err(code) }`
abbrev pub only {ℓ} : {A : Type ℓ} → List A → Code → Result A
only [] code = err code
only (a ∷ []) code = ok a
only (a ∷ b ∷ rest) code = err code

-- `fields.notifications == [wire::NOTICE_HOLDER_POLL]`
abbrev is_holder_poll : List Text → Bool
is_holder_poll (notice ∷ []) = text_eq notice notice_holder_poll
is_holder_poll _ = false

-- `valid` of `Trustee::policy`
abbrev pub policy_valid : Limits → TrusteePolicyFields → ℕ → ℕ → Bool
policy_valid limits fields cooldown lifetime =
    is_holder_poll fields.notifications
    && text_eq fields.holder_veto veto_authorization_key
    && text_eq fields.lapse_policy lapse_none
    && leb_ℤ limits.min_cooldown_secs (pos cooldown)
    && leb_ℤ (pos cooldown) limits.max_cooldown_secs
    && ltb cooldown lifetime
    && leb_ℤ (pos lifetime) limits.max_session_lifetime_secs
    && leb 1 fields.maximum_attempts
    && leb fields.maximum_attempts limits.max_attempts

-- `parameters_valid` of `admit_envelope`
abbrev pub parameters_valid : ShareEnvelope → Bool
parameters_valid e =
    leb 2 e.member_threshold
    && leb e.member_threshold e.member_count
    && leb e.member_count 16
    && ltb e.member_index e.member_count

-- `bound` of `check_artifact`, but for the claimed digest
abbrev pub artifact_bound : Enrollment → ProtectedArtifact → Text → Bool
artifact_bound enrollment artifact computed =
    text_eq computed enrollment.context.artifact_digest
    && text_eq artifact.implementation_profile_id enrollment.context.implementation_profile_id
    && text_eq artifact.enrollment_id enrollment.context.enrollment_id
    && artifact.enrollment_sequence == enrollment.context.enrollment_sequence
    && text_eq artifact.policy_digest enrollment.context.policy_digest
    && text_eq artifact.identity_binding_commitment enrollment.identity_binding_commitment
    && text_eq artifact.recovery_mode recovery_mode_restoration
    && text_eq artifact.artifact_id enrollment.context.artifact_id

module _ (x : External) where
  -- `Trustee::hpke_public_key`
  unfoldable pub hpke_public_key : Trustee → Bytes
  hpke_public_key t = x.sk_to_pk t.hpke_key

  -- `Trustee::key_id`
  unfoldable pub key_id : Trustee → Text
  unfolding hpke_public_key
  key_id t = key_digest x (hpke_public_key t)

  -- `Trustee::operator`
  unfoldable pub operator : Trustee → Text
  operator t = codes "onym:key:" ++ x.hex_encode (x.verifying_key t.signing_key)

  abbrev pub factor_key_text : Option Text → Option Bytes
  factor_key_text none = none
  factor_key_text (some text) = hex32 x text

  abbrev pub usable_key : Option Bytes → Option Bytes
  usable_key none = none
  usable_key (some key) = if is_usable_verifying_key x key then some key else none

  -- `Trustee::policy`
  unfoldable pub policy : Limits → TrusteePolicyFields → Result TrusteePolicy
  policy limits fields = do
    factor ← only fields.candidate_factors invalid_policy
    factor_key ←
        ok_or (usable_key (factor_key_text (strip_prefix factor_ed25519_session factor)))
          invalid_policy
    cooldown ← ok_or (duration fields.cooldown) invalid_policy
    lifetime ← ok_or (duration fields.session_lifetime) invalid_policy
    require (policy_valid limits fields cooldown lifetime) invalid_policy
    ok (record {
      factor_key = factor_key;
      cooldown_secs = pos cooldown;
      session_lifetime_secs = pos lifetime;
      maximum_attempts = fields.maximum_attempts;
    })

  -- `Trustee::admit_envelope`
  unfoldable pub admit_envelope : Limits → ShareEnvelope → EnrollmentContext → ℤ → Result Enrollment
  admit_envelope limits e context now = do
    require (e.share_envelope_version == 1 && text_eq e.recovery_mode recovery_mode_restoration)
        unsupported_profile
    require (parameters_valid e && is_digest x e.identity_binding_commitment) invalid_enrollment
    share ← share_result (validate e.slip39_share)
    require (share.member_index == e.member_index && share.member_threshold == e.member_threshold)
        invalid_enrollment
    created_at ← ok_or (timestamp x e.created_at) invalid_enrollment
    expires_at ← ok_or (timestamp x e.expires_at) invalid_enrollment
    require (leb_ℤ created_at (now +ℤ limits.skew_secs)) invalid_enrollment
    require (ltb_ℤ now expires_at) enrollment_expired
    require (leb_ℤ expires_at (now +ℤ limits.max_enrollment_term_secs)) invalid_enrollment
    accepted_policy ← policy limits e.trustee_policy
    authorization_key ← ok_or (hex32 x e.authorization_public_key) invalid_enrollment
    ok (record {
      context = context;
      identity_binding_commitment = e.identity_binding_commitment;
      member_index = share.member_index;
      member_threshold = share.member_threshold;
      member_count = e.member_count;
      policy = accepted_policy;
      created_at = created_at;
      expires_at = expires_at;
      authorization_key = authorization_key;
    })

  -- `verified_envelope`
  unfoldable pub verified_envelope : Json → EnrollmentContext → Result ShareEnvelope
  verified_envelope document context = do
    (authorization, tree) ←
        ok_or (take_string document (codes "holderAuthorization")) invalid_enrollment
    envelope ← ok_or (x.decode_envelope tree) invalid_enrollment
    key ← ok_or (hex32 x envelope.authorization_public_key) invalid_enrollment
    decoded ← ok_or (signature x authorization) invalid_enrollment
    require (verify x key (canonical x tree) decoded) invalid_enrollment
    require (repeats x envelope context) invalid_enrollment
    ok envelope

  -- `Trustee::accept_enrollment`
  unfoldable pub accept_enrollment : Trustee → EnrollmentContext → Bytes → ℤ → Result Enrollment
  accept_enrollment t context sealed now = do
    require (text_eq context.implementation_profile_id implementation_profile) unsupported_profile
    require (is_well_formed x context && text_eq context.trustee_component_id t.component_id)
        invalid_enrollment
    plaintext ← ok_or (open_sealed x t.hpke_key (info x context) sealed) invalid_enrollment
    document ← ok_or (parse x plaintext) invalid_enrollment
    envelope ← verified_envelope document context
    admit_envelope t.limits envelope context now

  -- `well_formed` of `check_artifact`
  abbrev pub artifact_well_formed : Limits → ProtectedArtifact → Bytes → Bool
  artifact_well_formed limits artifact ciphertext =
      artifact.protected_artifact_version == 1
      && text_eq artifact.protection_parameters.aead artifact_aead
      && is_some (hex_bytes x 12 artifact.protection_parameters.nonce)
      && leb 16 (length ciphertext)
      && leb (length ciphertext) limits.max_artifact_bytes

  -- `Trustee::check_artifact`
  unfoldable pub check_artifact : Limits → Enrollment → Bytes → Result (Unit {0})
  check_artifact limits enrollment raw = do
    value ← ok_or (parse x raw) invalid_enrollment
    (claimed, rest) ← ok_or (take_string value (codes "artifactDigest")) invalid_enrollment
    let computed = digest x (canonical x rest)
    artifact ← ok_or (x.decode_artifact rest) invalid_enrollment
    ciphertext ← ok_or (x.base64_decode artifact.ciphertext) invalid_enrollment
    require (artifact_well_formed limits artifact ciphertext) invalid_enrollment
    require (text_eq claimed computed && artifact_bound enrollment artifact computed)
        artifact_mismatch
    ok tt
