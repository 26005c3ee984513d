-- ===== src/Slip39/Validating.antt =====
-- src/slip39.rs: what a share that `validate` accepts is.

-- The share `s` of a mnemonic in the profile.
use onym_recovery_trustee.Prelude.{
  Bool-cases, List, Option-cases, Text, arith, codes, if◌then◌else◌, inl, inr, length, refl, some,
  split, true, ℕ, ◌<◌, ◌≡◌, ◌≤◌,
}
use onym_recovery_trustee.Slip39.{
  Decoded, Fields, Share, at, decode, decode_indices, in_profile, invalid, max_mnemonic_bytes,
  read_indices, unsupported, valid, validate, word_count,
}
use onym_recovery_trustee.Slip39.Checksum.{rs1024_polymod}

pub record InProfile (mnemonic : Text) (s : Share) : Type 0 where
  pub indices : List ℕ
  pub short : length mnemonic ≤ max_mnemonic_bytes
  pub words : read_indices word_count (split b' ' mnemonic) ≡ some indices
  pub checksum : rs1024_polymod (codes "shamir") indices ≡ 1
  pub padding : at indices 4 < 64
  pub index : s.member_index ≤ 15
  pub least : 2 ≤ s.member_threshold
  pub most : s.member_threshold ≤ 16

decode_indices-fields :
    (indices : List ℕ) (fields : Fields)
    → decode_indices indices ≡ valid fields
    → in_profile fields ≡ true
    → (rs1024_polymod (codes "shamir") indices ≡ 1)
      × (at indices 4 < 64)
      × (fields.member_index ≤ 15)
      × (2 ≤ fields.member_threshold)
      × (fields.member_threshold ≤ 16)
unfolding decode_indices
decode_indices-fields indices fields h p = ground arith

decode-indices :
    (mnemonic : Text) (fields : Fields)
    → decode mnemonic ≡ valid fields
    → (length mnemonic ≤ max_mnemonic_bytes)
      × ((indices : List ℕ) × (read_indices word_count (split b' ' mnemonic) ≡ some indices)
          × (decode_indices indices ≡ valid fields))
unfolding decode
decode-indices mnemonic fields h =
    elim (Option-cases (read_indices word_count (split b' ' mnemonic))) [
      | inl e ↦ absurd (ground (arith, e))
      | inr (indices, e) ↦ (ground (arith, e), (indices, e, ground (arith, e)))
    ]

-- A share that `validate` accepts is at most as long as 33 words can be, is 33 words of the list with
-- the checksum of a share that is not extendable and with no padding bit set, and its member index is
-- at most 15 and its threshold from 2 to 16.
pub validate-InProfile :
    (mnemonic : Text) (s : Share) → validate mnemonic ≡ valid s → InProfile mnemonic s
unfolding validate
validate-InProfile mnemonic s h = validated mnemonic s (decode mnemonic) refl h
  where
    validated :
        (m : Text) (s : Share) (d : Decoded Fields)
        → decode m ≡ d
        → (elim d [
          | invalid error ↦ invalid error
          | valid fields ↦
              if in_profile fields
              then valid (record {
                member_index = fields.member_index;
                member_threshold = fields.member_threshold;
              })
              else invalid unsupported
        ])
          ≡ valid s
        → InProfile m s
    validated m s (invalid error) e h = absurd (ground (arith, h))
    validated m s (valid fields) e h = elim (Bool-cases (in_profile fields)) [
      | inr out ↦ absurd (ground (arith, out))
      | inl inside ↦
          let (short, (indices, words, decoded)) = decode-indices m fields e in
          let (checksum, padding, index, least, most) =
            decode_indices-fields indices fields decoded inside in
          record {
            indices = indices;
            short = short;
            words = words;
            checksum = checksum;
            padding = padding;
            index = ground (arith, inside, index);
            least = ground (arith, inside, least);
            most = ground (arith, inside, most);
          }
    ]
