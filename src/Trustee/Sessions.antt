-- ===== src/Trustee/Sessions.antt =====
-- src/lib.rs: `verify_session`, `check_factor` and `release`.
use onym_recovery_trustee.Prelude.{
  Bool, Bytes, List, Option, Text, [], codes, none, some, text_eq, ℤ, ◌&&◌, ◌++◌, ◌==◌, ◌∷◌,
}
use onym_recovery_trustee.Code.{
  Result, err, invalid_candidate_factor, invalid_destination, invalid_request, ok, ok_or,
  temporarily_unavailable, ◌>>=◌, ◌>>◌,
}
use onym_recovery_trustee.Crypto.{open_sealed, seal, verify}
use onym_recovery_trustee.External.{External}
use onym_recovery_trustee.Json.{Json, index_field, take_field, take_string}
use onym_recovery_trustee.Trustee.{
  Contribution, Enrollment, Evidence, Session, Trustee, binds, only, require, verified_envelope,
}
use onym_recovery_trustee.Wire.{
  Approval, EnrollmentContext, EvidenceFields, SessionCore, encryption_suite_hpke,
  factor_ed25519_session, proof_suite_ed25519,
}
use onym_recovery_trustee.Wire.Digests.{
  destination_keys_digest, factor_message, info, recovery_info,
}
use onym_recovery_trustee.Wire.Documents.{canonical, digest, parse, sign_object}
use onym_recovery_trustee.Wire.Encoding.{
  format_timestamp, hex32, is_digest, is_some, sequence, signature, timestamp,
}

-- `map_err(|_| TemporarilyUnavailable)`
abbrev pub or_unavailable {ℓ} : {A : Type ℓ} → Result A → Result A
or_unavailable (ok a) = ok a
or_unavailable (err code) = err temporarily_unavailable

-- The approval that a contribution signs.
unfoldable pub approval_of : EnrollmentContext → Session → Text → Text → Text → Approval
approval_of context session sealed_contribution decided_at expires_at = record {
  contribution_version = 1;
  session_id = session.session_id;
  enrollment_id = context.enrollment_id;
  enrollment_sequence = context.enrollment_sequence;
  policy_digest = context.policy_digest;
  artifact_id = context.artifact_id;
  artifact_digest = context.artifact_digest;
  component_id = context.trustee_component_id;
  slot = context.slot;
  decision = codes "approved";
  destination_keys_digest = session.destination_keys_digest;
  sealed_contribution = sealed_contribution;
  decided_at = decided_at;
  expires_at = expires_at;
}

module _ (x : External) where
  abbrev presented : EvidenceFields → Option Bytes → Option Evidence
  presented item none = none
  presented item (some decoded) = some (record { factor = item.factor; signature = decoded })

  -- `collect::<Option<Vec<_>>>`
  unfoldable pub read_evidence : List EvidenceFields → Option (List Evidence)
  read_evidence [] = some []
  read_evidence (item ∷ items) = elim (presented item (signature x item.signature)) [
    | none ↦ none
    | some evidence ↦ elim (read_evidence items) [
      | none ↦ none
      | some rest ↦ some (evidence ∷ rest)
    ]
  ]

  -- The formats that `verify_session` requires.
  abbrev pub session_well_formed : SessionCore → Bool
  session_well_formed core =
      core.session_version == 1
      && is_some (hex32 x core.session_id)
      && is_some (hex32 x core.enrollment_id)
      && is_some (sequence core.enrollment_sequence)
      && is_digest x core.policy_digest
      && is_some (hex32 x core.artifact_id)
      && is_digest x core.artifact_digest

  -- `Trustee::verify_session` from the checks of the session's formats on.
  unfoldable pub verify_core :
      Bytes → Json → Text → Json → Json → SessionCore → List Evidence → ℤ → ℤ → Result Session
  verify_core trial value proof unproved rest core presentations requested_at expires_at = do
    require (session_well_formed core) invalid_request
    proof_key ← ok_or (hex32 x core.destination.proof_public_key) invalid_request
    decoded ← ok_or (signature x proof) invalid_request
    require (verify x proof_key (canonical x unproved) decoded) invalid_request
    destination_key ← ok_or (hex32 x core.destination.encryption_public_key) invalid_destination
    require
        (text_eq core.destination.encryption_suite encryption_suite_hpke
          && text_eq core.destination.proof_suite proof_suite_ed25519
          && is_some (seal x trial destination_key (codes "onym-destination-check") []))
        invalid_destination
    ok (record {
      session_id = core.session_id;
      enrollment_id = core.enrollment_id;
      enrollment_sequence = core.enrollment_sequence;
      policy_digest = core.policy_digest;
      artifact_id = core.artifact_id;
      artifact_digest = core.artifact_digest;
      destination_key = destination_key;
      destination_keys_digest = destination_keys_digest x (index_field rest (codes "destination"));
      proof_key = proof_key;
      session_commitment = digest x (canonical x rest);
      requested_at = requested_at;
      expires_at = expires_at;
      evidence = presentations;
      canonical = canonical x value;
    })

  -- `Trustee::verify_session`, with the ephemeral randomness of its trial seal.
  unfoldable pub verify_session : Bytes → Bytes → Result Session
  unfolding verify_core
  verify_session trial raw = do
    value ← ok_or (parse x raw) invalid_request
    (proof, unproved) ← ok_or (take_string value (codes "candidateProof")) invalid_request
    (evidence, rest) ← ok_or (take_field unproved (codes "candidateEvidence")) invalid_request
    core ← ok_or (x.decode_session rest) invalid_request
    items ← ok_or (x.decode_evidence evidence) invalid_request
    presentations ← ok_or (read_evidence items) invalid_request
    requested_at ← ok_or (timestamp x core.requested_at) invalid_request
    expires_at ← ok_or (timestamp x core.expires_at) invalid_request
    verify_core trial value proof unproved rest core presentations requested_at expires_at

  -- `Trustee::check_factor`
  unfoldable pub check_factor : Enrollment → Session → Result (Unit {0})
  check_factor enrollment session = do
    evidence ← only session.evidence invalid_candidate_factor
    let factor = enrollment.policy.factor_key
    let context = enrollment.context
    let message =
        factor_message x session.session_commitment context.trustee_component_id context.slot
    require
        (text_eq evidence.factor (factor_ed25519_session ++ x.hex_encode factor)
          && verify x factor message evidence.signature)
        invalid_candidate_factor

  -- `Trustee::release`, with the ephemeral randomness of its seal.
  unfoldable pub release_contribution :
      Trustee → Bytes → Enrollment → Bytes → Session → ℤ → Result Contribution
  release_contribution t ephemeral enrollment sealed session now = do
    let context = enrollment.context
    require (binds session context) invalid_request
    plaintext ← ok_or (open_sealed x t.hpke_key (info x context) sealed) temporarily_unavailable
    document ← ok_or (parse x plaintext) temporarily_unavailable
    or_unavailable (verified_envelope x document context)
    expires_at ← ok_or (format_timestamp x session.expires_at) temporarily_unavailable
    decided_at ← ok_or (format_timestamp x now) temporarily_unavailable
    let transfer =
        recovery_info x session.session_id context session.destination_keys_digest expires_at
    resealed ←
        ok_or (seal x ephemeral session.destination_key transfer plaintext) invalid_destination
    ok (record {
      canonical =
          sign_object x
            (x.encode_approval
              (approval_of context session (x.base64_encode resealed) decided_at expires_at))
            t.signing_key;
      sealed_digest = digest x resealed;
    })
