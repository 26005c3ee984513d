-- ===== src/Wire/Documents.antt =====
-- src/wire.rs: parsing, canonical bytes, digests and signed objects.
use onym_recovery_trustee.Prelude.{
  Bool, Bytes, Option, Option-cases, Text, arith, codes, false, if◌then◌else◌, inl, inr, none, some,
  true, ◌&&◌, ◌++◌, ◌≡◌,
}
use onym_recovery_trustee.External.{External}
use onym_recovery_trustee.Json.{Entries, Json, insert_field, is_object, object, string, take_string}
use onym_recovery_trustee.Json.Fields.{take_string-insert_field}
use onym_recovery_trustee.Json.Unique.{Absent, HasUniqueKeys, visit, visit_iff}

module _ (x : External) where
  -- `reject_duplicate_keys`: malformed text and trailing characters are refused too.
  unfoldable pub reject_duplicate_keys : Bytes → Bool
  reject_duplicate_keys raw = elim (x.read_events raw) [
    | none ↦ false
    | some (doc, rest) ↦ visit doc && x.at_end rest
  ]

  abbrev only_object : Option Json → Option Json
  only_object none = none
  only_object (some value) = if is_object value then some value else none

  -- `parse`
  unfoldable pub parse : Bytes → Option Json
  unfolding reject_duplicate_keys
  parse raw = if reject_duplicate_keys raw then only_object (x.from_slice raw) else none

  -- `canonical`
  unfoldable pub canonical : Json → Bytes
  canonical value = x.to_vec value

  -- `digest`
  unfoldable pub digest : Bytes → Text
  digest bytes = codes "sha256:" ++ x.hex_encode (x.sha256 bytes)

  -- `sign_object`: the signature over the canonical object, put into it.
  unfoldable pub signed_object : Entries → Bytes → Json
  signed_object fields key = object (
      insert_field (codes "signature")
        (string (x.base64_encode (x.ed25519_sign key (canonical (object fields))))) fields)

  unfoldable pub sign_object : Entries → Bytes → Bytes
  unfolding signed_object
  sign_object fields key = canonical (signed_object fields key)

  -- `parse` accepts only an object that the deserializer reads, with no key repeated at any depth and
  -- nothing but white space left after it, and gives what serde_json reads.
  pub parse-HasUniqueKeys :
      (raw : Bytes) (value : Json)
      → parse raw ≡ some value
      → (doc : Json) × (rest : Bytes) × (x.read_events raw ≡ some (doc, rest))
        × (x.at_end rest ≡ true)
        × HasUniqueKeys doc
        × (x.from_slice raw ≡ some value)
        × (is_object value ≡ true)
  unfolding parse
  parse-HasUniqueKeys raw value h = elim (Option-cases (x.read_events raw)) [
    | inl missing ↦ absurd (ground (arith, missing))
    | inr ((doc, rest), read) ↦ (
      doc,
      rest,
      read,
      ground (arith, read),
      (visit_iff doc).0 (ground (arith, read)),
      ground (arith, read),
      ground (arith, read),
    )
  ]

  -- From an object that had no `signature`, `take_string` takes out of the signed object the encoded
  -- signature over the canonical bytes of exactly the object that is left, which is the one signed.
  pub signed_object-take_string :
      (fields : Entries) (key : Bytes)
      → Absent (codes "signature") fields
      → take_string (signed_object fields key) (codes "signature")
        ≡ some (x.base64_encode (x.ed25519_sign key (canonical (object fields))), object fields)
  unfolding signed_object
  signed_object-take_string fields key absent =
      take_string-insert_field (codes "signature")
        (x.base64_encode (x.ed25519_sign key (canonical (object fields)))) fields absent
