-- ===== src/Trustee/Trials.antt =====
-- src/lib.rs: `verify_session` seals a trial message to the destination and throws it away.
use onym_recovery_trustee.Prelude.{
  Bytes, List, Option-cases, Text, [], arith, codes, inl, inr, refl, some, ℤ, ◌≡◌,
}
use onym_recovery_trustee.Code.{ok, ok_or-bind-ok}
use onym_recovery_trustee.Crypto.{seal, verify}
use onym_recovery_trustee.External.{External}
use onym_recovery_trustee.Json.{Json, take_field, take_string}
use onym_recovery_trustee.Trustee.{Evidence, Session}
use onym_recovery_trustee.Trustee.Accepting.{require-ok}
use onym_recovery_trustee.Trustee.Sessions.{
  read_evidence, session_well_formed, verify_core, verify_session,
}
use onym_recovery_trustee.Wire.{EvidenceFields, SessionCore}
use onym_recovery_trustee.Wire.Documents.{canonical, parse}
use onym_recovery_trustee.Wire.Encoding.{hex32, is_some, signature, timestamp}

module _ (x : External) (trial other : Bytes)
    (same : (key info plaintext : Bytes)
      → is_some (x.single_shot_seal other key info plaintext)
        ≡ is_some (x.single_shot_seal trial key info plaintext)) where
  seal-same :
      (key info plaintext : Bytes)
      → is_some (seal x other key info plaintext) ≡ is_some (seal x trial key info plaintext)
  unfolding seal
  seal-same key info plaintext =
      let h = same key info plaintext in
      elim (Option-cases (x.single_shot_seal other key info plaintext)) [
        | inl e ↦ elim (Option-cases (x.single_shot_seal trial key info plaintext)) [
          | inl f ↦ rw (e, f) refl
          | inr (_, f) ↦ absurd (ground (arith, h, e, f))
        ]
        | inr (_, e) ↦ elim (Option-cases (x.single_shot_seal trial key info plaintext)) [
          | inl f ↦ absurd (ground (arith, h, e, f))
          | inr (_, f) ↦ ground (arith, e, f)
        ]
      ]

  verify_core-same :
      (value : Json) (proof : Text) (unproved rest : Json) (core : SessionCore)
      (presentations : List Evidence) (requested_at expires_at : ℤ) (s : Session)
      → verify_core x trial value proof unproved rest core presentations requested_at expires_at
        ≡ ok s
      → verify_core x other value proof unproved rest core presentations requested_at expires_at
        ≡ ok s
  unfolding verify_core
  verify_core-same value proof unproved rest core presentations requested_at expires_at s h =
      let (formed, h1) = require-ok (session_well_formed x core) _ _ h in
      let (key, k, h2) = ok_or-bind-ok (hex32 x core.destination.proof_public_key) _ _ h1 in
      let (decoded, d, h3) = ok_or-bind-ok (signature x proof) _ _ h2 in
      let (signed, h4) = require-ok (verify x key (canonical x unproved) decoded) _ _ h3 in
      let (to, a, h5) = ok_or-bind-ok (hex32 x core.destination.encryption_public_key) _ _ h4 in
      rw (formed, k, d, signed, a, seal-same to (codes "onym-destination-check") []) h5

  verify_session-parts :
      (raw : Bytes) (value unproved rest evidence : Json) (proof : Text) (core : SessionCore)
      (items : List EvidenceFields) (presentations : List Evidence) (requested_at expires_at : ℤ)
      (s : Session)
      → parse x raw ≡ some value
      → take_string value (codes "candidateProof") ≡ some (proof, unproved)
      → take_field unproved (codes "candidateEvidence") ≡ some (evidence, rest)
      → x.decode_session rest ≡ some core
      → x.decode_evidence evidence ≡ some items
      → read_evidence x items ≡ some presentations
      → timestamp x core.requested_at ≡ some requested_at
      → timestamp x core.expires_at ≡ some expires_at
      → verify_core x trial value proof unproved rest core presentations requested_at expires_at
        ≡ ok s
      → verify_session x other raw ≡ ok s
  unfolding verify_session
  verify_session-parts raw value unproved rest evidence proof core items presentations requested_at
        expires_at s v p e c i q r u h =
      rw (v, p, e, c, i, q, r, u)
        (verify_core-same value proof unproved rest core presentations requested_at expires_at s h)

  -- The randomness of the trial seal does not decide what becomes of a session.
  pub verify_session-same :
      (raw : Bytes) (s : Session)
      → verify_session x trial raw ≡ ok s
      → verify_session x other raw ≡ ok s
  unfolding verify_session
  verify_session-same raw s h =
      let (value, v, h1) = ok_or-bind-ok (parse x raw) _ _ h in
      let ((proof, unproved), p, h2) =
        ok_or-bind-ok (take_string value (codes "candidateProof")) _ _ h1 in
      let ((evidence, rest), e, h3) =
        ok_or-bind-ok (take_field unproved (codes "candidateEvidence")) _ _ h2 in
      let (core, c, h4) = ok_or-bind-ok (x.decode_session rest) _ _ h3 in
      let (items, i, h5) = ok_or-bind-ok (x.decode_evidence evidence) _ _ h4 in
      let (presentations, q, h6) = ok_or-bind-ok (read_evidence x items) _ _ h5 in
      let (requested_at, r, h7) = ok_or-bind-ok (timestamp x core.requested_at) _ _ h6 in
      let (expires_at, u, h8) = ok_or-bind-ok (timestamp x core.expires_at) _ _ h7 in
      verify_session-parts raw value unproved rest evidence proof core items presentations
        requested_at expires_at s v p e c i q r u h8
