-- ===== src/Wire/Digests.antt =====
-- src/wire.rs: digests and canonical tuples.
use onym_recovery_trustee.Prelude.{
  Bool, Bytes, Option, Text, [], false, none, some, text_eq, ℕ, ◌&&◌, ◌==◌, ◌∷◌,
}
use onym_recovery_trustee.External.{External}
use onym_recovery_trustee.Json.{Json, array, cons, nil, number, pos_int, string, strings}
use onym_recovery_trustee.Wire.{
  EnrollmentContext, ShareEnvelope, destination_keys_tag, enrollment_info_tag, factor_evidence_tag,
  recovery_info_tag,
}
use onym_recovery_trustee.Wire.Documents.{canonical, digest}
use onym_recovery_trustee.Wire.Encoding.{hex32, is_component_id, is_digest, is_some, sequence}

abbrev natural : ℕ → Json
natural n = number (pos_int n)

module _ (x : External) where
  -- `key_digest`
  unfoldable pub key_digest : Bytes → Text
  key_digest key = digest x key

  -- `destination_keys_digest`
  unfoldable pub destination_keys_digest : Json → Text
  destination_keys_digest destination =
      digest x (canonical x (array (cons (string destination_keys_tag) (cons destination nil))))

  -- `factor_message`
  unfoldable pub factor_message : Text → Text → Text → Bytes
  factor_message session_commitment component_id slot =
      canonical x
        (array (strings (factor_evidence_tag ∷ session_commitment ∷ component_id ∷ slot ∷ [])))

  -- `recovery_info`
  unfoldable pub recovery_info : Text → EnrollmentContext → Text → Text → Bytes
  recovery_info session_id enrollment destination_keys_digest expires_at = canonical x (
      array (
        cons (string recovery_info_tag) (
          cons (string session_id) (
            cons (string enrollment.enrollment_id) (
              cons (natural enrollment.enrollment_sequence) (
                strings (
                  enrollment.policy_digest ∷ enrollment.artifact_id ∷ enrollment.artifact_digest
                  ∷ enrollment.trustee_component_id ∷ enrollment.slot ∷ destination_keys_digest
                  ∷ expires_at ∷ [])))))))

  -- `EnrollmentContext::is_well_formed`
  unfoldable pub is_well_formed : EnrollmentContext → Bool
  is_well_formed c =
      is_some (hex32 x c.enrollment_id)
      && is_some (sequence c.enrollment_sequence)
      && is_digest x c.policy_digest
      && is_some (hex32 x c.artifact_id)
      && is_digest x c.artifact_digest
      && is_component_id c.trustee_component_id
      && is_some (hex32 x c.slot)
      && is_some (hex32 x c.trustee_challenge)
      && is_digest x c.authorization_key_digest

  -- `EnrollmentContext::info`
  unfoldable pub info : EnrollmentContext → Bytes
  info c = canonical x (
      array (
        cons (string enrollment_info_tag) (
          cons (string c.implementation_profile_id) (
            cons (string c.enrollment_id) (
              cons (natural c.enrollment_sequence) (
                strings (
                  c.policy_digest ∷ c.artifact_id ∷ c.artifact_digest ∷ c.trustee_component_id
                  ∷ c.slot ∷ c.trustee_challenge ∷ c.authorization_key_digest ∷ [])))))))

  abbrev authorization_matches : Option Bytes → Text → Bool
  authorization_matches none wanted = false
  authorization_matches (some key) wanted = text_eq (key_digest key) wanted

  -- `ShareEnvelope::repeats`
  unfoldable pub repeats : ShareEnvelope → EnrollmentContext → Bool
  repeats e c =
      text_eq e.implementation_profile_id c.implementation_profile_id
      && text_eq e.enrollment_id c.enrollment_id
      && e.enrollment_sequence == c.enrollment_sequence
      && text_eq e.policy_digest c.policy_digest
      && text_eq e.artifact_id c.artifact_id
      && text_eq e.artifact_digest c.artifact_digest
      && text_eq e.trustee_component_id c.trustee_component_id
      && text_eq e.slot c.slot
      && text_eq e.trustee_challenge c.trustee_challenge
      && authorization_matches (hex32 x e.authorization_public_key) c.authorization_key_digest
