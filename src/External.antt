-- ===== src/External.antt =====
-- What the program takes from its dependencies: serde_json with the derived encoders and decoders,
-- base64, hex, time, SHA-256, Ed25519 and HPKE. Every definition that uses one of these takes this
-- record as a parameter. Keys and signatures are the lists of their bytes.
use onym_recovery_trustee.Prelude.{Bool, Bytes, List, Option, Text, ℤ}
use onym_recovery_trustee.Json.{Entries, Json}
use onym_recovery_trustee.Wire.{
  Approval, BeginRequest, ChallengeRequest, EnrollRequest, EvidenceFields, ProtectedArtifact,
  Receipt, SessionCore, ShareEnvelope, SignedRequest,
}

pub record External : Type 0 where
  -- serde_json's deserializer: the document as a visitor meets it, and the bytes that are left.
  pub read_events : Bytes → Option (Json × Bytes)
  -- `Deserializer::end`: nothing but white space is left.
  pub at_end : Bytes → Bool
  -- `serde_json::from_slice::<Value>`
  pub from_slice : Bytes → Option Json
  -- `serde_json::to_vec` of a value
  pub to_vec : Json → Bytes
  -- The derived `Deserialize` of each object.
  pub decode_envelope : Json → Option ShareEnvelope
  pub decode_artifact : Json → Option ProtectedArtifact
  pub decode_session : Json → Option SessionCore
  pub decode_evidence : Json → Option (List EvidenceFields)
  pub decode_challenge : Json → Option ChallengeRequest
  pub decode_enroll : Json → Option EnrollRequest
  pub decode_begin : Json → Option BeginRequest
  pub decode_signed : Json → Option SignedRequest
  -- The derived `Serialize`: the entries of the object.
  pub encode_receipt : Receipt → Entries
  pub encode_approval : Approval → Entries
  -- base64 `STANDARD`
  pub base64_decode : Text → Option Bytes
  pub base64_encode : Bytes → Text
  -- `hex::decode_to_slice` into as many bytes as the text names, and `hex::encode`
  pub hex_decode : Text → Option Bytes
  pub hex_encode : Bytes → Text
  -- `OffsetDateTime::parse` with `Rfc3339`, as Unix seconds, and the formatting of such seconds
  pub parse_rfc3339 : Text → Option ℤ
  pub format_rfc3339 : ℤ → Option Text
  -- `Sha256::digest`
  pub sha256 : Bytes → Bytes
  -- ed25519-dalek: a point that decodes, a weak key, `verify_strict` under a decoded key
  pub is_point : Bytes → Bool
  pub is_weak : Bytes → Bool
  pub verify_strict : Bytes → Bytes → Bytes → Bool
  pub ed25519_sign : Bytes → Bytes → Bytes
  pub verifying_key : Bytes → Bytes
  -- hpke: the keys that decode, the public key of a private one, and the single-shot calls. Sealing
  -- takes the ephemeral randomness that it draws.
  pub hpke_public : Bytes → Bool
  pub hpke_encapped : Bytes → Bool
  pub hpke_private : Bytes → Bool
  pub sk_to_pk : Bytes → Bytes
  pub single_shot_seal : Bytes → Bytes → Bytes → Bytes → Option (Bytes × Bytes)
  pub single_shot_open : Bytes → Bytes → Bytes → Bytes → Option Bytes
