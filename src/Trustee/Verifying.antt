-- ===== src/Trustee/Verifying.antt =====
-- src/lib.rs: what holds of a session that `verify_session` takes.
use mathlib.Core.Path.{subst}
use onym_recovery_trustee.Prelude.{
  Bytes, List, Text, [], codes, refl, some, text_eq, text_eq_iff, true, ℤ, ◌&&◌, ◌≡◌,
}
use onym_recovery_trustee.Code.{ok, ok-injective, ok_or-bind-ok}
use onym_recovery_trustee.Crypto.{seal, verify}
use onym_recovery_trustee.External.{External}
use onym_recovery_trustee.Json.{Json, index_field, take_field, take_string}
use onym_recovery_trustee.Trustee.{Evidence, Session}
use onym_recovery_trustee.Trustee.Accepting.{&&-true, require-ok}
use onym_recovery_trustee.Trustee.Sessions.{
  read_evidence, session_well_formed, verify_core, verify_session,
}
use onym_recovery_trustee.Wire.{
  EvidenceFields, SessionCore, encryption_suite_hpke, proof_suite_ed25519,
}
use onym_recovery_trustee.Wire.Digests.{destination_keys_digest}
use onym_recovery_trustee.Wire.Documents.{canonical, digest, parse}
use onym_recovery_trustee.Wire.Encoding.{hex32, is_some, signature, timestamp}

-- Where a verified session comes from.
pub record IsVerified (x : External) (trial raw : Bytes) (s : Session) : Type 0 where
  pub value : Json
  pub unproved : Json
  pub rest : Json
  pub evidence_field : Json
  pub proof : Text
  pub core : SessionCore
  pub items : List EvidenceFields
  pub decoded : Bytes
  pub parsed : parse x raw ≡ some value
  pub proof_taken : take_string value (codes "candidateProof") ≡ some (proof, unproved)
  pub evidence_taken : take_field unproved (codes "candidateEvidence") ≡ some (evidence_field, rest)
  pub read : x.decode_session rest ≡ some core
  pub evidence_read : x.decode_evidence evidence_field ≡ some items
  pub presented : read_evidence x items ≡ some s.evidence
  pub proof_key : hex32 x core.destination.proof_public_key ≡ some s.proof_key
  pub encoded : signature x proof ≡ some decoded
  -- The candidate's key signs the whole session with its evidence.
  pub signed : verify x s.proof_key (canonical x unproved) decoded ≡ true
  pub destination_key : hex32 x core.destination.encryption_public_key ≡ some s.destination_key
  pub reachable :
      is_some (seal x trial s.destination_key (codes "onym-destination-check") []) ≡ true
  pub suites :
      (core.destination.encryption_suite ≡ encryption_suite_hpke)
      × (core.destination.proof_suite ≡ proof_suite_ed25519)
  pub well_formed : session_well_formed x core ≡ true
  pub requested : timestamp x core.requested_at ≡ some s.requested_at
  pub expires : timestamp x core.expires_at ≡ some s.expires_at
  pub same_id : s.session_id ≡ core.session_id
  pub same_enrollment :
      (s.enrollment_id ≡ core.enrollment_id) × (s.enrollment_sequence ≡ core.enrollment_sequence)
  pub commitment : s.session_commitment ≡ digest x (canonical x rest)
  pub keys_digest :
      s.destination_keys_digest ≡ destination_keys_digest x (index_field rest (codes "destination"))
  pub bytes : s.canonical ≡ canonical x value

module _ (x : External) where
  -- The second half of `verify_session`.
  record IsProved (trial : Bytes) (value : Json) (proof : Text) (unproved rest : Json)
      (core : SessionCore) (presentations : List Evidence) (requested_at expires_at : ℤ)
      (s : Session) : Type 0 where
    destination_key : Bytes
    proof_key : Bytes
    decoded : Bytes
    well_formed : session_well_formed x core ≡ true
    proved : hex32 x core.destination.proof_public_key ≡ some proof_key
    encoded : signature x proof ≡ some decoded
    signed : verify x proof_key (canonical x unproved) decoded ≡ true
    addressed : hex32 x core.destination.encryption_public_key ≡ some destination_key
    tests :
        (text_eq core.destination.encryption_suite encryption_suite_hpke
          && text_eq core.destination.proof_suite proof_suite_ed25519
          && is_some (seal x trial destination_key (codes "onym-destination-check") []))
        ≡ true
    result :
        record {
          session_id = core.session_id;
          enrollment_id = core.enrollment_id;
          enrollment_sequence = core.enrollment_sequence;
          policy_digest = core.policy_digest;
          artifact_id = core.artifact_id;
          artifact_digest = core.artifact_digest;
          destination_key = destination_key;
          destination_keys_digest =
              destination_keys_digest x (index_field rest (codes "destination"));
          proof_key = proof_key;
          session_commitment = digest x (canonical x rest);
          requested_at = requested_at;
          expires_at = expires_at;
          evidence = presentations;
          canonical = canonical x value;
        }
        ≡ s

  verify_core-IsProved :
      (trial : Bytes) (value : Json) (proof : Text) (unproved rest : Json) (core : SessionCore)
      (presentations : List Evidence) (requested_at expires_at : ℤ) (s : Session)
      → verify_core x trial value proof unproved rest core presentations requested_at expires_at
        ≡ ok s
      → IsProved trial value proof unproved rest core presentations requested_at expires_at s
  unfolding verify_core
  verify_core-IsProved trial value proof unproved rest core presentations requested_at expires_at s
        h =
      let (a9, h9) = require-ok (session_well_formed x core) _ _ h in
      let (proof_key, a10, h10) =
        ok_or-bind-ok (hex32 x core.destination.proof_public_key) _ _ h9 in
      let (decoded, a11, h11) = ok_or-bind-ok (signature x proof) _ _ h10 in
      let (a12, h12) = require-ok (verify x proof_key (canonical x unproved) decoded) _ _ h11 in
      let (destination_key, a13, h13) =
        ok_or-bind-ok (hex32 x core.destination.encryption_public_key) _ _ h12 in
      let (tests, h14) = require-ok _ _ _ h13 in
      record {
        destination_key = destination_key;
        proof_key = proof_key;
        decoded = decoded;
        well_formed = a9;
        proved = a10;
        encoded = a11;
        signed = a12;
        addressed = a13;
        tests = tests;
        result = ok-injective h14;
      }

  parts-IsVerified :
      (trial raw : Bytes) (value unproved rest evidence : Json) (proof : Text) (core : SessionCore)
      (items : List EvidenceFields) (presentations : List Evidence) (requested_at expires_at : ℤ)
      (s : Session)
      → parse x raw ≡ some value
      → take_string value (codes "candidateProof") ≡ some (proof, unproved)
      → take_field unproved (codes "candidateEvidence") ≡ some (evidence, rest)
      → x.decode_session rest ≡ some core
      → x.decode_evidence evidence ≡ some items
      → read_evidence x items ≡ some presentations
      → timestamp x core.requested_at ≡ some requested_at
      → timestamp x core.expires_at ≡ some expires_at
      → IsProved trial value proof unproved rest core presentations requested_at expires_at s
      → IsVerified x trial raw s
  parts-IsVerified trial raw value unproved rest evidence proof core items presentations
        requested_at expires_at s a1 a2 a3 a4 a5 a6 a7 a8 p =
      let (both, reachable) = &&-true _ _ p.tests in
      let (suite, proof_suite) = &&-true _ _ both in
      subst (IsVerified x trial raw) p.result (record {
        value = value;
        unproved = unproved;
        rest = rest;
        evidence_field = evidence;
        proof = proof;
        core = core;
        items = items;
        decoded = p.decoded;
        parsed = a1;
        proof_taken = a2;
        evidence_taken = a3;
        read = a4;
        evidence_read = a5;
        presented = a6;
        proof_key = p.proved;
        encoded = p.encoded;
        signed = p.signed;
        destination_key = p.addressed;
        reachable = reachable;
        suites = (
          (text_eq_iff core.destination.encryption_suite encryption_suite_hpke).0 suite,
          (text_eq_iff core.destination.proof_suite proof_suite_ed25519).0 proof_suite,
        );
        well_formed = p.well_formed;
        requested = a7;
        expires = a8;
        same_id = refl;
        same_enrollment = (refl, refl);
        commitment = refl;
        keys_digest = refl;
        bytes = refl;
      })

  -- A session that `verify_session` takes was signed, with its evidence, by the candidate's key that it
  -- names, and is addressed to a key of the fixed suite that can be sealed to; its commitment covers
  -- what the factor has to sign, the session without proof and evidence.
  pub verify_session-IsVerified :
      (trial raw : Bytes) (s : Session)
      → verify_session x trial raw ≡ ok s
      → IsVerified x trial raw s
  unfolding verify_session
  verify_session-IsVerified trial raw s h =
      let (value, a1, h1) = ok_or-bind-ok (parse x raw) _ _ h in
      let ((proof, unproved), a2, h2) =
        ok_or-bind-ok (take_string value (codes "candidateProof")) _ _ h1 in
      let ((evidence, rest), a3, h3) =
        ok_or-bind-ok (take_field unproved (codes "candidateEvidence")) _ _ h2 in
      let (core, a4, h4) = ok_or-bind-ok (x.decode_session rest) _ _ h3 in
      let (items, a5, h5) = ok_or-bind-ok (x.decode_evidence evidence) _ _ h4 in
      let (presentations, a6, h6) = ok_or-bind-ok (read_evidence x items) _ _ h5 in
      let (requested_at, a7, h7) = ok_or-bind-ok (timestamp x core.requested_at) _ _ h6 in
      let (expires_at, a8, h8) = ok_or-bind-ok (timestamp x core.expires_at) _ _ h7 in
      parts-IsVerified trial raw value unproved rest evidence proof core items presentations
        requested_at expires_at s a1 a2 a3 a4 a5 a6 a7 a8
        (verify_core-IsProved trial value proof unproved rest core presentations requested_at
          expires_at s h8)
