-- ===== src/Store/HandoverTests.antt =====
-- A poll that hands out a share, with a stand-in for HPKE that appends a tag of zeros.
use onym_recovery_trustee.Prelude.{
  Bytes, [], abs, ap, arith, codes, inl, length, length-append, neg_part, none, pos, pos_part, refl,
  some, split, split_once, strip_prefix, take, take-append, text_eq, ◌++◌, ◌+ℤ◌, ◌+◌, ◌-ℤ◌, ◌-◌,
  ◌∷◌, ◌≡◌,
}
use onym_recovery_trustee.Code.{Result, err, ok}
use onym_recovery_trustee.Crypto.{is_usable_verifying_key, open_sealed, seal, verify}
use onym_recovery_trustee.External.{External}
use onym_recovery_trustee.Json.{
  Json, array, end, entry, get_field, is_object, nil, object, string, take_field, take_string,
  without_field,
}
use onym_recovery_trustee.Json.Unique.{visit}
use onym_recovery_trustee.Slip39.{decode, position, read_indices, validate}
use onym_recovery_trustee.Slip39.Checksum.{rs1024_polymod}
use onym_recovery_trustee.Slip39.Words.{wordlist}
use onym_recovery_trustee.State.{accepted, cooling_down, emit}
use onym_recovery_trustee.State.Releasing.{Releasable}
use onym_recovery_trustee.Store.{Db, EnrollmentRow, Reply, enrollment_facts, session_facts}
use onym_recovery_trustee.Store.AcceptingTests.{accepted_enrollment, context, envelope_reader}
use onym_recovery_trustee.Store.Contributions.{Holds}
use onym_recovery_trustee.Store.Handover.{CanCarry, IsPoll, read_recovery-Carries}
use onym_recovery_trustee.Store.Recovering.{read_recovery}
use onym_recovery_trustee.Store.Sample.{
  enrolled_row, id64, sample_db, sample_session, sample_trustee, zeros,
}
use onym_recovery_trustee.Store.Tables.{at_sequence, find, load_session, select}
use onym_recovery_trustee.Trustee.{
  Contribution, Enrollment, Session, accept_enrollment, admit_envelope, binds, policy,
  verified_envelope,
}
use onym_recovery_trustee.Trustee.Releases.{Carries, IsKeyPair, seal-open}
use onym_recovery_trustee.Trustee.Sessions.{read_evidence, verify_core, verify_session}
use onym_recovery_trustee.Wire.{SessionCore, Signed, encryption_suite_hpke, proof_suite_ed25519}
use onym_recovery_trustee.Wire.Digests.{is_well_formed, key_digest, repeats}
use onym_recovery_trustee.Wire.Documents.{digest, parse}
use onym_recovery_trustee.Wire.Duration.{duration}
use onym_recovery_trustee.Wire.Encoding.{
  format_timestamp, hex32, is_component_id, is_digest, sequence, signature, timestamp,
}
use onym_recovery_trustee.Wire.Requests.{read_recovery_operation}

abbrev pub documents : Json
documents = object (
    entry (codes "candidateEvidence") (array nil) (
      entry (codes "candidateProof") (string [])
        (entry (codes "holderAuthorization") (string []) end)))

abbrev core : SessionCore
core = record {
  session_version = 1;
  session_id = id64;
  enrollment_id = id64;
  enrollment_sequence = 1;
  policy_digest = codes "sha256:" ++ id64;
  artifact_id = id64;
  artifact_digest = codes "sha256:" ++ id64;
  destination = record {
    encryption_suite = encryption_suite_hpke;
    encryption_public_key = id64;
    proof_suite = proof_suite_ed25519;
    proof_public_key = id64;
  };
  requested_at = codes "now";
  expires_at = codes "now";
}

abbrev pub tagged : External
tagged = record envelope_reader {
  read_events = λ body. some (documents, []);
  from_slice = λ body. some documents;
  decode_session = λ v. some core;
  decode_evidence = λ v. some [];
  single_shot_seal = λ e r i p. some (zeros 32, p ++ zeros 16);
  single_shot_open = λ k e i c. some (take (length c - 16) c);
}

tagged-IsKeyPair : IsKeyPair tagged (zeros 32)
tagged-IsKeyPair = record {
  decodes = refl;
  seals = λ ephemeral info plaintext.
      let width : length (plaintext ++ zeros 16) ≡ length plaintext + 16 =
        length-append plaintext (zeros 16) in
      (
        zeros 32,
        plaintext ++ zeros 16,
        refl,
        refl,
        omega (arith, width),
        refl,
        ap some (
            take-append (length (plaintext ++ zeros 16) - 16) plaintext (zeros 16)
              (omega (arith, width))),
      );
}

abbrev agreed : Result Enrollment
agreed = accept_enrollment tagged sample_trustee context (zeros 48) (pos 900)

agrees : agreed ≡ ok (accepted_enrollment agreed)
unfolding accept_enrollment is_well_formed hex32 sequence is_digest is_component_id strip_prefix
    text_eq open_sealed parse visit is_object verified_envelope take_string without_field signature
    verify repeats key_digest digest admit_envelope validate decode read_indices position wordlist
    split rs1024_polymod timestamp format_timestamp ◌+ℤ◌ pos_part neg_part policy
    is_usable_verifying_key duration split_once get_field
agrees = refl

abbrev pub handed_row : EnrollmentRow
handed_row = record (enrolled_row accepted (some (zeros 48))) {
  enrollment = accepted_enrollment agreed;
}

abbrev handed_db : Db
handed_db = sample_db handed_row (sample_session cooling_down none)

abbrev session_result : Result Session
session_result = verify_session tagged [] []

abbrev session_or : Session → Result Session → Session
session_or default (ok s) = s
session_or default (err code) = default

abbrev unread : Session
unread = record {
  session_id = [];
  enrollment_id = [];
  enrollment_sequence = 0;
  policy_digest = [];
  artifact_id = [];
  artifact_digest = [];
  destination_key = [];
  destination_keys_digest = [];
  proof_key = [];
  session_commitment = [];
  requested_at = pos 0;
  expires_at = pos 0;
  evidence = [];
  canonical = [];
}

abbrev checked : Session
checked = session_or unread session_result

checks : session_result ≡ ok checked
unfolding verify_session verify_core parse visit is_object take_string take_field without_field
    get_field text_eq read_evidence timestamp format_timestamp hex32 sequence is_digest strip_prefix
    signature verify seal
checks = refl

abbrev poll : Signed
poll = record {
  operation = read_recovery_operation;
  request_id = id64;
  target = id64;
  by = none;
  issued_at = pos 1000;
  message = [];
  signature = [];
  digest = [];
}

poll-IsPoll :
    IsPoll tagged sample_trustee handed_db (pos 960) poll (sample_session cooling_down none)
unfolding load_session find text_eq verify abs ◌-ℤ◌ pos_part neg_part select
poll-IsPoll = record {
  on_time = omega arith;
  found = refl;
  verified = refl;
  recent = refl;
  unseen = refl;
}

row-found :
    find (at_sequence (sample_session cooling_down none).enrollment_id 1) handed_db.enrollments
    ≡ some handed_row
unfolding find text_eq
row-found = refl

handed-CanCarry :
    CanCarry tagged sample_trustee
      (pos 960)
      handed_row
      (sample_session cooling_down none)
      []
      (zeros 32)
unfolding verify_session verify_core parse visit is_object take_string take_field without_field
    get_field text_eq read_evidence timestamp format_timestamp hex32 sequence is_digest strip_prefix
    signature verify seal binds
handed-CanCarry = record {
  context = context;
  sealed = zeros 48;
  accepted_at = pos 900;
  verified = checked;
  expires_at = codes "now";
  decided_at = codes "now";
  custody = refl;
  agreed = agrees;
  checked = checks;
  binding = refl;
  pair = tagged-IsKeyPair;
  destination = refl;
  expiry = refl;
  time = refl;
}

handed-Releasable :
    Releasable
      (enrollment_facts handed_row)
      (session_facts (sample_session cooling_down none))
      (pos 960)
      handed_db.high_water
      emit
unfolding accept_enrollment is_well_formed hex32 sequence is_digest is_component_id strip_prefix
    text_eq open_sealed parse visit is_object verified_envelope take_string without_field signature
    verify repeats key_digest digest admit_envelope validate decode read_indices position wordlist
    split rs1024_polymod timestamp format_timestamp ◌+ℤ◌ pos_part neg_part policy
    is_usable_verifying_key duration split_once get_field
handed-Releasable = record {
  clock = omega arith;
  in_force = refl;
  in_term = omega arith;
  current = refl;
  kind = inl (refl, refl);
  cooled = omega arith;
  unexpired = omega arith;
}

read_recovery-Carries_example :
    (verified : Session) × (sealed : Bytes) × (contribution : Contribution) × (db' : Db)
    × (answer : Result Reply) × (read_recovery tagged sample_trustee poll (pos 960) [] [] handed_db
        ≡ ok (db', answer))
    × Holds id64 contribution.canonical db'
    × Carries tagged sample_trustee
        (zeros 32)
        handed_row.enrollment
        sealed
        verified
        (pos 960)
        contribution
read_recovery-Carries_example =
    read_recovery-Carries tagged sample_trustee handed_db (pos 960) poll
      (sample_session cooling_down none) handed_row [] [] (zeros 32) poll-IsPoll row-found
      handed-Releasable handed-CanCarry

seal-open_example :
    (sealed : Bytes) × (seal tagged [] (zeros 32) [] (7 ∷ []) ≡ some sealed)
    × (open_sealed tagged (zeros 32) [] sealed ≡ some (7 ∷ []))
seal-open_example = seal-open tagged (zeros 32) [] [] (7 ∷ []) tagged-IsKeyPair
