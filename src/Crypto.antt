-- ===== src/Crypto.antt =====
-- src/crypto.rs: the fixed HPKE suite, Ed25519 and SHA-256. A failure carries nothing, so a fallible
-- call returns an `Option`, or a Boolean where it returns no value.
use onym_recovery_trustee.Prelude.{
  Bool, Bytes, Option, drop, if◌then◌else◌, length, ltb, none, not, some, take, ℕ, ◌&&◌, ◌++◌, ◌+◌,
}
use onym_recovery_trustee.External.{External}
use onym_recovery_trustee.Wire.Digests.{info}
use onym_recovery_trustee.Wire.Encoding.{signature}

abbrev pub enc_len : ℕ
enc_len = 32

abbrev pub tag_len : ℕ
tag_len = 16

-- `split_at`
abbrev pub split_at : ℕ → Bytes → Bytes × Bytes
split_at n bytes = (take n bytes, drop n bytes)

module _ (x : External) where
  -- `seal`, with the ephemeral randomness that it draws.
  unfoldable pub seal : Bytes → Bytes → Bytes → Bytes → Option Bytes
  seal ephemeral recipient info plaintext =
      if x.hpke_public recipient
      then elim (x.single_shot_seal ephemeral recipient info plaintext) [
        | none ↦ none
        | some (enc, ciphertext) ↦ some (enc ++ ciphertext)
      ]
      else none

  -- `open`
  unfoldable pub open_sealed : Bytes → Bytes → Bytes → Option Bytes
  open_sealed key info sealed =
      if ltb (length sealed) (enc_len + tag_len)
      then none
      else let (enc, ciphertext) = split_at enc_len sealed in
        if x.hpke_encapped enc then x.single_shot_open key enc info ciphertext else none

  -- `hpke_private_key`
  unfoldable pub hpke_private_key : Bytes → Option Bytes
  hpke_private_key bytes = if x.hpke_private bytes then some bytes else none

  -- `verify`
  unfoldable pub verify : Bytes → Bytes → Bytes → Bool
  verify public_key message signature =
      x.is_point public_key && x.verify_strict public_key message signature

  -- `is_usable_verifying_key`
  unfoldable pub is_usable_verifying_key : Bytes → Bool
  is_usable_verifying_key public_key = x.is_point public_key && not (x.is_weak public_key)
