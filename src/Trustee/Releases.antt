-- ===== src/Trustee/Releases.antt =====
-- src/lib.rs and src/crypto.rs: what a release hands to the candidate.
use mathlib.Core.Path.{subst}
use onym_recovery_trustee.Prelude.{
  Bytes, Text, arith, drop-append, false, length, length-append, ltb, refl, some, sym, take-append,
  true, ℤ, ◌++◌, ◌+◌, ◌≡◌, ◌≤◌,
}
use onym_recovery_trustee.Code.{ok}
use onym_recovery_trustee.Crypto.{enc_len, open_sealed, seal, tag_len}
use onym_recovery_trustee.External.{External}
use onym_recovery_trustee.Json.{Json}
use onym_recovery_trustee.Store.AcceptingTests.{context}
use onym_recovery_trustee.Trustee.{
  Contribution, Enrollment, Session, Trustee, accept_enrollment, binds, verified_envelope,
}
use onym_recovery_trustee.Trustee.Accepting.{IsSigned, accept_enrollment-Accepted}
use onym_recovery_trustee.Trustee.Sessions.{approval_of, release_contribution}
use onym_recovery_trustee.Wire.{EnrollmentContext, ShareEnvelope}
use onym_recovery_trustee.Wire.Digests.{info, recovery_info}
use onym_recovery_trustee.Wire.Documents.{digest, parse, sign_object}
use onym_recovery_trustee.Wire.Encoding.{format_timestamp}

-- HPKE for one key pair: its public key decodes, sealing to it succeeds, and the private key opens what
-- was sealed.
pub record IsKeyPair (x : External) (private_key : Bytes) : Type 0 where
  pub decodes : x.hpke_public (x.sk_to_pk private_key) ≡ true
  pub seals :
      (ephemeral info plaintext : Bytes)
      → (enc ciphertext : Bytes) × (x.single_shot_seal ephemeral
            (x.sk_to_pk private_key)
            info
            plaintext
          ≡ some (enc, ciphertext))
        × (length enc ≡ enc_len)
        × (tag_len ≤ length ciphertext)
        × (x.hpke_encapped enc ≡ true)
        × (x.single_shot_open private_key enc info ciphertext ≡ some plaintext)

-- What `seal` makes for the public key of a pair, `open` opens with the private key and the same info.
pub seal-open :
    (x : External) (private_key ephemeral info plaintext : Bytes)
    → IsKeyPair x private_key
    → (sealed : Bytes) × (seal x ephemeral (x.sk_to_pk private_key) info plaintext ≡ some sealed)
      × (open_sealed x private_key info sealed ≡ some plaintext)
unfolding seal open_sealed
seal-open x private_key ephemeral info plaintext pair =
    let (enc, ciphertext, sealed, width, tag, encapped, opened) =
      pair.seals ephemeral info plaintext in
    let long : ltb (length (enc ++ ciphertext)) (enc_len + tag_len) ≡ false =
      ground (arith, length-append enc ciphertext, width, tag) in
    (
      enc ++ ciphertext,
      rw (pair.decodes, sealed) refl,
      rw
          (
            long,
            take-append enc_len enc ciphertext width,
            drop-append enc_len enc ciphertext width,
            encapped,
            opened,
          )
          refl,
    )

-- A contribution that carries to a candidate what the holder sealed to the trustee.
pub record Carries (x : External) (t : Trustee) (candidate : Bytes) (e : Enrollment)
    (sealed : Bytes) (session : Session) (now : ℤ) (contribution : Contribution) : Type 0 where
  pub plaintext : Bytes
  pub resealed : Bytes
  pub expires_at : Text
  pub decided_at : Text
  pub holders : open_sealed x t.hpke_key (info x e.context) sealed ≡ some plaintext
  pub candidates :
      open_sealed x candidate
        (recovery_info x session.session_id e.context session.destination_keys_digest expires_at)
        resealed
      ≡ some plaintext
  pub expiry : format_timestamp x session.expires_at ≡ some expires_at
  pub time : format_timestamp x now ≡ some decided_at
  pub approval :
      contribution.canonical
      ≡ sign_object x
          (x.encode_approval
            (approval_of e.context session (x.base64_encode resealed) decided_at expires_at))
          t.signing_key
  pub sealed_digest : contribution.sealed_digest ≡ digest x resealed

verified_envelope-ok :
    (x : External) (document : Json) (context : EnrollmentContext) (v : ShareEnvelope)
    → IsSigned x document context v
    → verified_envelope x document context ≡ ok v
unfolding verified_envelope
verified_envelope-ok x document context v s =
    rw (s.taken, s.read, s.holder_key, s.encoded, s.verified, s.repeated) refl

-- The same for a share that opens to an envelope of the enrollment's context.
opened-Carries :
    (x : External) (t : Trustee) (sealed candidate ephemeral plaintext : Bytes) (now : ℤ)
    (e : Enrollment) (session : Session) (document : Json) (v : ShareEnvelope)
    (expires_at decided_at : Text)
    → open_sealed x t.hpke_key (info x e.context) sealed ≡ some plaintext
    → parse x plaintext ≡ some document
    → verified_envelope x document e.context ≡ ok v
    → binds session e.context ≡ true
    → IsKeyPair x candidate
    → session.destination_key ≡ x.sk_to_pk candidate
    → format_timestamp x session.expires_at ≡ some expires_at
    → format_timestamp x now ≡ some decided_at
    → (contribution : Contribution) × (release_contribution x t ephemeral e sealed session now
        ≡ ok contribution)
      × Carries x t candidate e sealed session now contribution
unfolding release_contribution
opened-Carries x t sealed candidate ephemeral plaintext now e session document v expires_at
      decided_at opened parsed signed b pair destination expiry time =
    let transfer =
      recovery_info x session.session_id e.context session.destination_keys_digest expires_at in
    let (resealed, made, opens) = seal-open x candidate ephemeral transfer plaintext pair in
    (
      record {
        canonical =
            sign_object x
              (x.encode_approval
                (approval_of e.context session (x.base64_encode resealed) decided_at expires_at))
              t.signing_key;
        sealed_digest = digest x resealed;
      },
      rw (b, opened, parsed, signed, expiry, time, destination, made) refl,
      record {
        plaintext = plaintext;
        resealed = resealed;
        expires_at = expires_at;
        decided_at = decided_at;
        holders = opened;
        candidates = opens;
        expiry = expiry;
        time = time;
        approval = refl;
        sealed_digest = refl;
      },
    )

-- For an enrollment that was accepted with the sealed share that is stored, a release to a session that
-- binds to it, at a time and with an expiry that can be written, gives a contribution: its sealed part
-- opens, with the private key of the session's destination, to exactly what the holder sealed.
pub release-Carries :
    (x : External) (t : Trustee) (context : EnrollmentContext) (sealed candidate ephemeral : Bytes)
    (then' now : ℤ) (e : Enrollment) (session : Session) (expires_at decided_at : Text)
    → accept_enrollment x t context sealed then' ≡ ok e
    → binds session context ≡ true
    → IsKeyPair x candidate
    → session.destination_key ≡ x.sk_to_pk candidate
    → format_timestamp x session.expires_at ≡ some expires_at
    → format_timestamp x now ≡ some decided_at
    → (contribution : Contribution) × (release_contribution x t ephemeral e sealed session now
        ≡ ok contribution)
      × Carries x t candidate e sealed session now contribution
release-Carries x t context sealed candidate ephemeral then' now e session expires_at decided_at h b
      pair destination expiry time =
    let a = accept_enrollment-Accepted x t context sealed then' e h in
    let same = sym a.admitted.same_context in
    let signed = verified_envelope-ok x a.document context a.envelope a.signed in
    opened-Carries x t sealed candidate ephemeral a.plaintext now e session a.document a.envelope
      expires_at decided_at
      (subst (λ c. open_sealed x t.hpke_key (info x c) sealed ≡ some a.plaintext) same a.opened)
      a.parsed (subst (λ c. verified_envelope x a.document c ≡ ok a.envelope) same signed)
      (subst (λ c. binds session c ≡ true) same b) pair destination expiry time
