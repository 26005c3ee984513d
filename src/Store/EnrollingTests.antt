-- ===== src/Store/EnrollingTests.antt =====
-- An enrollment under an invitation.
use mathlib.Core.Path.{subst}
use onym_recovery_trustee.Code.{Result, err, ok}
use onym_recovery_trustee.Crypto.{is_usable_verifying_key, open_sealed, verify}
use onym_recovery_trustee.External.{External}
use onym_recovery_trustee.Json.{
  Json, end, entry, get_field, is_object, null, object, str_field, string, take_string,
  without_field,
}
use onym_recovery_trustee.Json.Unique.{visit}
use onym_recovery_trustee.Prelude.{
  Option, [], abs, arith, codes, neg_part, none, pos, pos_part, refl, some, split, split_once,
  strip_prefix, sym, text_eq, ◌++◌, ◌+ℤ◌, ◌-ℤ◌, ◌∷◌, ◌≡◌, ◌≤ℤ◌,
}
use onym_recovery_trustee.Slip39.{decode, position, read_indices, validate}
use onym_recovery_trustee.Slip39.Checksum.{rs1024_polymod}
use onym_recovery_trustee.Slip39.Words.{wordlist}
use onym_recovery_trustee.State.{accepted, revoked}
use onym_recovery_trustee.Store.{Db, EnrollmentRow, Reply, Step, empty, issued, settle, transaction}
use onym_recovery_trustee.Store.AcceptingTests.{context, envelope_reader}
use onym_recovery_trustee.Store.Ending.{bury, end_enrollment, end_new, ended_status, tombstone}
use onym_recovery_trustee.Store.Enrolling.{enroll, enroll_again, enroll_new, store_enrollment}
use onym_recovery_trustee.Store.EnrollingAgain.{answer_by_now, enroll_again_same}
use onym_recovery_trustee.Store.Receipts.{enrollment_receipt, outcome_base, outcome_receipt}
use onym_recovery_trustee.Store.Requests.{
  check_fresh, decimal, find_outcome, record_outcome, recorded_outcome, scope_key, time,
  verify_signature,
}
use onym_recovery_trustee.Store.Runs.{after, request, stay}
use onym_recovery_trustee.Store.Sample.{
  enrolled_row, id64, reads, sample_draws, sample_trustee, signed_request,
}
use onym_recovery_trustee.Store.Serving.{
  dispatch, handle, handle_step, refusal, serve_signed, with_signed,
}
use onym_recovery_trustee.Store.Tables.{
  current, enrolled_with, find, insert, load_current_enrollment, load_enrollment, redeemable,
  spend_challenge, update,
}
use onym_recovery_trustee.Trustee.{
  accept_enrollment, admit_envelope, check_artifact, hpke_public_key, key_id, policy,
  verified_envelope,
}
use onym_recovery_trustee.Wire.{
  EnrollRequest, ProtectedArtifact, artifact_aead, implementation_profile,
  recovery_mode_restoration,
}
use onym_recovery_trustee.Wire.Digests.{is_well_formed, key_digest, repeats}
use onym_recovery_trustee.Wire.Documents.{canonical, digest, parse}
use onym_recovery_trustee.Wire.Duration.{duration}
use onym_recovery_trustee.Wire.Encoding.{
  format_timestamp, hex32, hex_bytes, is_component_id, is_digest, sequence, signature, timestamp,
}
use onym_recovery_trustee.Wire.Receipts.{about}
use onym_recovery_trustee.Wire.Requests.{revoke_enrollment_operation, signed_parse, signed_target}

abbrev both : Json
both = object (
    entry (codes "artifactDigest") (string (codes "sha256:" ++ id64))
      (entry (codes "holderAuthorization") (string []) end))

abbrev artifact : ProtectedArtifact
artifact = record {
  protected_artifact_version = 1;
  implementation_profile_id = implementation_profile;
  enrollment_id = id64;
  enrollment_sequence = 1;
  policy_digest = codes "sha256:" ++ id64;
  identity_binding_commitment = codes "sha256:" ++ id64;
  recovery_mode = recovery_mode_restoration;
  artifact_id = id64;
  protection_parameters = record { aead = artifact_aead; nonce = codes "000000000000000000000000" };
  ciphertext = [];
}

abbrev form : EnrollRequest
form = record {
  request_version = 1;
  context = context;
  trustee_key_id = codes "sha256:" ++ id64;
  sealed_envelope = [];
  protected_artifact = null;
}

abbrev enrolling : External
enrolling = record envelope_reader {
  read_events = λ body. some (reads both revoke_enrollment_operation body, []);
  from_slice = λ body. some (reads both revoke_enrollment_operation body);
  decode_signed = λ v.
      some (record (signed_request v) { enrollment_id = some id64; session_id = none; by = none });
  decode_artifact = λ v. some artifact;
  decode_enroll = λ v. some form;
}

abbrev challenged_db : Db
challenged_db = record empty {
  high_water = pos 700;
  invitations = record { digest = codes "i"; expires_at = pos 2000; used_at = none } ∷ [];
  challenges =
      record { challenge = id64; invitation = codes "i"; expires_at = pos 2000; used_at = none }
      ∷ [];
}

abbrev enrolls : Step
enrolls = enroll enrolling sample_trustee null (pos 900) challenged_db

abbrev step_db : Step → Db
step_db (ok (db, answer)) = db
step_db (err code) = empty

abbrev row_or : Option EnrollmentRow → EnrollmentRow
row_or none = enrolled_row accepted none
row_or (some row) = row

abbrev reply_or : Result Reply → Reply
reply_or (ok reply) = reply
reply_or (err code) =
    issued (record { challenge = []; component_id = []; expires_at = []; trustee_key_id = [] })

abbrev step_reply : Step → Reply
step_reply (ok (db, answer)) = reply_or answer
step_reply (err code) = reply_or (err code)

enroll_commits : enrolls ≡ ok (step_db enrolls, ok (step_reply enrolls))
unfolding enroll enroll_new store_enrollment enroll_again enrollment_receipt transaction find
    redeemable load_current_enrollment current insert spend_challenge update key_id hpke_public_key
    check_artifact time about hex_bytes accept_enrollment is_well_formed hex32 sequence is_digest
    is_component_id strip_prefix text_eq open_sealed parse visit is_object verified_envelope
    take_string without_field signature verify repeats key_digest digest admit_envelope validate
    decode read_indices position wordlist split rs1024_polymod timestamp format_timestamp ◌+ℤ◌
    pos_part neg_part policy is_usable_verifying_key duration split_once get_field canonical
enroll_commits = refl

-- The holder revokes the enrollment before the request is sent again.
abbrev revoked_db : Db
revoked_db =
    after enrolling sample_trustee revoke_enrollment_operation sample_draws (pos 950)
      (step_db enrolls)

abbrev enrolled : EnrollmentRow
enrolled = row_or (find (enrolled_with id64) (step_db enrolls).enrollments)

revoked_meanwhile :
    (revoked_db.high_water ≡ pos 950)
    × (find (enrolled_with id64) revoked_db.enrollments ≡ some (tombstone revoked enrolled))
unfolding enroll enroll_new store_enrollment enroll_again enrollment_receipt transaction find
    redeemable load_current_enrollment current insert spend_challenge update key_id hpke_public_key
    check_artifact time about hex_bytes accept_enrollment is_well_formed hex32 sequence is_digest
    is_component_id strip_prefix text_eq open_sealed parse visit is_object verified_envelope
    take_string without_field signature verify repeats key_digest digest admit_envelope validate
    decode read_indices position wordlist split rs1024_polymod timestamp format_timestamp ◌+ℤ◌
    pos_part neg_part policy is_usable_verifying_key duration split_once get_field canonical handle
    handle_step dispatch with_signed serve_signed settle str_field signed_target signed_parse
    refusal end_enrollment end_new verify_signature recorded_outcome find_outcome record_outcome
    bury ended_status check_fresh abs ◌-ℤ◌ scope_key decimal outcome_receipt outcome_base
    load_enrollment
revoked_meanwhile = (refl, refl)

late_enough : (pos 950 ≤ℤ pos 4000)
unfolding pos_part neg_part
late_enough = omega arith

enroll_again_same_example :
    (form' : EnrollRequest) × (row : EnrollmentRow) × (some form ≡ some form')
    × (find (enrolled_with form'.context.trustee_challenge) revoked_db.enrollments ≡ some row)
    × (enroll enrolling sample_trustee null (pos 4000) revoked_db
        ≡ ok (revoked_db, answer_by_now row (step_reply enrolls)))
enroll_again_same_example =
    enroll_again_same enrolling sample_trustee null (pos 900) (pos 4000) challenged_db
      (step_db enrolls) revoked_db (step_reply enrolls) enroll_commits
      (request (step_db enrolls) (step_db enrolls) revoke_enrollment_operation sample_draws
        (pos 950) (stay (step_db enrolls)))
      (subst (λ n. n ≤ℤ pos 4000) (sym revoked_meanwhile.0) late_enough)
