-- ===== src/Store/AcceptingTests.antt =====
-- A run of `accept_enrollment` on an envelope that holds the first share of
-- tests/fixtures/slip39/onym-generated.json.
use onym_recovery_trustee.Prelude.{
  [], codes, neg_part, none, pos, pos_part, refl, some, split, split_once, strip_prefix, text_eq,
  ◌++◌, ◌+ℤ◌, ◌∷◌, ◌≡◌,
}
use onym_recovery_trustee.Code.{Result, err, ok}
use onym_recovery_trustee.Crypto.{is_usable_verifying_key, open_sealed, verify}
use onym_recovery_trustee.External.{External}
use onym_recovery_trustee.Json.{
  Json, end, entry, get_field, is_object, object, string, take_string, without_field,
}
use onym_recovery_trustee.Json.Unique.{visit}
use onym_recovery_trustee.Slip39.{decode, position, read_indices, validate}
use onym_recovery_trustee.Slip39.Checksum.{rs1024_polymod}
use onym_recovery_trustee.Slip39.Tests.{first_share}
use onym_recovery_trustee.Slip39.Words.{wordlist}
use onym_recovery_trustee.State.{accepted}
use onym_recovery_trustee.Store.Sample.{
  component, enrolled_row, id64, sample, sample_trustee, zeros,
}
use onym_recovery_trustee.Trustee.{
  Enrollment, accept_enrollment, admit_envelope, policy, verified_envelope,
}
use onym_recovery_trustee.Trustee.Accepting.{Accepted, accept_enrollment-Accepted}
use onym_recovery_trustee.Wire.{
  EnrollmentContext, ShareEnvelope, factor_ed25519_session, implementation_profile, lapse_none,
  notice_holder_poll, recovery_mode_restoration, veto_authorization_key,
}
use onym_recovery_trustee.Wire.Digests.{is_well_formed, key_digest, repeats}
use onym_recovery_trustee.Wire.Documents.{digest, parse}
use onym_recovery_trustee.Wire.Duration.{duration}
use onym_recovery_trustee.Wire.Encoding.{
  format_timestamp, hex32, is_component_id, is_digest, sequence, signature, timestamp,
}

abbrev pub context : EnrollmentContext
context = record {
  implementation_profile_id = implementation_profile;
  enrollment_id = id64;
  enrollment_sequence = 1;
  policy_digest = codes "sha256:" ++ id64;
  artifact_id = id64;
  artifact_digest = codes "sha256:" ++ id64;
  trustee_component_id = component;
  slot = id64;
  trustee_challenge = id64;
  authorization_key_digest = codes "sha256:" ++ id64;
}

abbrev envelope : ShareEnvelope
envelope = record {
  share_envelope_version = 1;
  implementation_profile_id = implementation_profile;
  enrollment_id = id64;
  enrollment_sequence = 1;
  policy_digest = codes "sha256:" ++ id64;
  identity_binding_commitment = codes "sha256:" ++ id64;
  artifact_digest = codes "sha256:" ++ id64;
  artifact_id = id64;
  recovery_mode = recovery_mode_restoration;
  trustee_component_id = component;
  slot = id64;
  trustee_challenge = id64;
  member_index = 0;
  member_threshold = 2;
  member_count = 3;
  trustee_policy = record {
    candidate_factors = (factor_ed25519_session ++ id64) ∷ [];
    cooldown = codes "PT1M40S";
    session_lifetime = codes "PT1000S";
    maximum_attempts = 3;
    notifications = notice_holder_poll ∷ [];
    holder_veto = veto_authorization_key;
    lapse_policy = lapse_none;
  };
  slip39_share = first_share;
  created_at = codes "now";
  expires_at = codes "now";
  authorization_public_key = id64;
}

abbrev sealing : Json
sealing = object (entry (codes "holderAuthorization") (string []) end)

abbrev pub envelope_reader : External
envelope_reader = record sample {
  read_events = λ body. some (sealing, []);
  from_slice = λ body. some sealing;
  decode_envelope = λ v. some envelope;
}

abbrev outcome : Result Enrollment
outcome = accept_enrollment envelope_reader sample_trustee context (zeros 48) (pos 900)

abbrev pub accepted_enrollment : Result Enrollment → Enrollment
accepted_enrollment (ok e) = e
accepted_enrollment (err code) = (enrolled_row accepted none).enrollment

accepts : outcome ≡ ok (accepted_enrollment outcome)
unfolding accept_enrollment is_well_formed hex32 sequence is_digest is_component_id strip_prefix
    text_eq open_sealed parse visit is_object verified_envelope take_string without_field signature
    verify repeats key_digest digest admit_envelope validate decode read_indices position wordlist
    split rs1024_polymod timestamp format_timestamp ◌+ℤ◌ pos_part neg_part policy
    is_usable_verifying_key duration split_once get_field
accepts = refl

accept_enrollment-Accepted_example :
    Accepted envelope_reader sample_trustee context
      (zeros 48)
      (pos 900)
      (accepted_enrollment outcome)
accept_enrollment-Accepted_example =
    accept_enrollment-Accepted envelope_reader sample_trustee context (zeros 48) (pos 900)
      (accepted_enrollment outcome) accepts
