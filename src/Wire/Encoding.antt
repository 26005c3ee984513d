-- ===== src/Wire/Encoding.antt =====
-- src/wire.rs: the field encodings.
use onym_recovery_trustee.Prelude.{
  Bool, Bytes, Option, Option-cases, Text, all, arith, codes, false, if◌then◌else◌, inl, inr, leb,
  length, none, some, strip_prefix, text_eq, text_eq_iff, true, ℕ, ℤ, ◌&&◌, ◌*◌, ◌==◌, ◌||◌, ◌≡◌,
}
use onym_recovery_trustee.External.{External}
use onym_recovery_trustee.Wire.{max_safe_integer}

-- `matches!(b, b'0'..=b'9' | b'a'..=b'f')`
abbrev pub is_hex_digit : ℕ → Bool
is_hex_digit b = (leb b'0' b && leb b b'9') || (leb b'a' b && leb b b'f')

-- `matches!(b, b'a'..=b'z' | b'0'..=b'9' | b'-')`
abbrev pub is_id_char : ℕ → Bool
is_id_char b = (leb b'a' b && leb b b'z') || (leb b'0' b && leb b b'9') || b == b'-'

abbrev pub is_some {ℓ} : {A : Type ℓ} → Option A → Bool
is_some none = false
is_some (some a) = true

-- `is_component_id`
unfoldable pub is_component_id : Text → Bool
is_component_id text = elim (strip_prefix (codes "onym:component:") text) [
  | none ↦ false
  | some id ↦ leb 1 (length id) && leb (length id) 64 && all is_id_char id
]

-- `sequence`
unfoldable pub sequence : ℕ → Option ℕ
sequence value = if leb 1 value && leb value max_safe_integer then some value else none

module _ (x : External) where
  -- `hex_bytes::<N>`
  unfoldable pub hex_bytes : ℕ → Text → Option Bytes
  hex_bytes n text =
      if all is_hex_digit text && length text == 2 * n then x.hex_decode text else none

  -- `hex32`
  unfoldable pub hex32 : Text → Option Bytes
  unfolding hex_bytes
  hex32 text = hex_bytes 32 text

  -- `is_digest`
  unfoldable pub is_digest : Text → Bool
  is_digest text = elim (strip_prefix (codes "sha256:") text) [
    | none ↦ false
    | some rest ↦ is_some (hex32 rest)
  ]

  abbrev only_64 : Option Bytes → Option Bytes
  only_64 none = none
  only_64 (some bytes) = if length bytes == 64 then some bytes else none

  -- `signature`
  unfoldable pub signature : Text → Option Bytes
  signature text = only_64 (x.base64_decode text)

  -- `format_timestamp`
  unfoldable pub format_timestamp : ℤ → Option Text
  format_timestamp seconds = x.format_rfc3339 seconds

  abbrev only_spelling : Option Text → Text → ℤ → Option ℤ
  only_spelling none text seconds = none
  only_spelling (some spelling) text seconds = if text_eq spelling text then some seconds else none

  abbrev read_seconds : Option ℤ → Text → Option ℤ
  read_seconds none text = none
  read_seconds (some seconds) text = only_spelling (format_timestamp seconds) text seconds

  -- `timestamp`
  unfoldable pub timestamp : Text → Option ℤ
  timestamp text = read_seconds (x.parse_rfc3339 text) text

  pub timestamp-format :
      (text : Text) (seconds : ℤ)
      → timestamp text ≡ some seconds
      → format_timestamp seconds ≡ some text
  unfolding timestamp
  timestamp-format text seconds h = elim (Option-cases (x.parse_rfc3339 text)) [
    | inl e ↦ absurd (ground (arith, e))
    | inr (s, e) ↦ elim (Option-cases (format_timestamp s)) [
      | inl f ↦ absurd (ground (arith, e, f))
      | inr (spelling, f) ↦ ground (arith, e, f, text_eq_iff spelling text)
    ]
  ]

  -- Two texts that are accepted as timestamps of the same second are the same text.
  pub timestamp_one_spelling :
      (a b : Text) (seconds : ℤ) → timestamp a ≡ some seconds → timestamp b ≡ some seconds → a ≡ b
  timestamp_one_spelling a b seconds h k =
      ground (arith, timestamp-format a seconds h, timestamp-format b seconds k)
