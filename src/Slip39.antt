-- ===== src/Slip39.antt =====
-- src/slip39.rs: validation of one SLIP-0039 share.
pub mod Words
pub mod Checksum
pub mod Validating
pub mod Tests
use Words.{wordlist}
use Checksum.{rs1024_polymod}
use Prim.Native.Nat.{bit_or}
use onym_recovery_trustee.Prelude.{
  Bool, List, Option, Text, [], codes, false, if◌then◌else◌, leb, length, ltb, none, not, some,
  split, suc, text_eq, true, zero, ℕ, ◌%◌, ◌&&◌, ◌*◌, ◌+◌, ◌-◌, ◌/◌, ◌==◌, ◌^◌, ◌∷◌,
}

abbrev pub word_count : ℕ
word_count = 33

-- `MAX_MNEMONIC_BYTES`
abbrev pub max_mnemonic_bytes : ℕ
max_mnemonic_bytes = word_count * 8 + (word_count - 1)

pub data ShareError : Type 0 where
  malformed unsupported : ShareError

-- `Result<A, ShareError>`
pub data Decoded {ℓ} (A : Type ℓ) : Type ℓ where
  valid : A → Decoded A
  invalid : ShareError → Decoded A

pub record Fields : Type 0 where
  pub identifier : ℕ
  pub extendable : Bool
  pub iteration_exponent : ℕ
  pub group_index : ℕ
  pub group_threshold : ℕ
  pub group_count : ℕ
  pub member_index : ℕ
  pub member_threshold : ℕ

pub record Share : Type 0 where
  pub member_index : ℕ
  pub member_threshold : ℕ

-- `WORDLIST.binary_search`: the list is strictly sorted, so the position found is the only one.
unfoldable pub position : List Text → Text → Option ℕ
position [] word = none
position (w ∷ ws) word =
    let later : Option ℕ = elim (position ws word) [ none ↦ none | some i ↦ some (suc i) ] in
    if text_eq w word then some 0 else later

-- The loop over `indices`: the next word for each, and no word after the last.
unfoldable pub read_indices : ℕ → List Text → Option (List ℕ)
read_indices zero [] = some []
read_indices zero (word ∷ words) = none
read_indices (suc n) [] = none
read_indices (suc n) (word ∷ words) = elim (position wordlist word) [
  | none ↦ none
  | some index ↦ elim (read_indices n words) [ none ↦ none | some rest ↦ some (index ∷ rest) ]
]

-- `indices[i]`, where `i` is in range.
abbrev pub at : List ℕ → ℕ → ℕ
at [] i = 0
at (x ∷ xs) zero = x
at (x ∷ xs) (suc i) = at xs i

-- The five 4-bit fields of `params`: `((params >> shift) & 0xF) as u8`.
abbrev pub nibble : ℕ → ℕ → ℕ
nibble params shift = params / 2 ^ shift % 16

-- `(u32::from(high) << 10) | u32::from(low)`
abbrev pub join_words : ℕ → ℕ → ℕ
join_words high low = bit_or (high * 2 ^ 10) low

abbrev pub is_extendable : ℕ → Bool
is_extendable id_exp = id_exp / 2 ^ 4 % 2 == 1

abbrev pub customization : Bool → List ℕ
customization true = codes "shamir_extendable"
customization false = codes "shamir"

-- `Fields { … }`
abbrev pub fields_of : ℕ → ℕ → Fields
fields_of id_exp params = record {
  identifier = id_exp / 2 ^ 5 % 2 ^ 16;
  extendable = is_extendable id_exp;
  iteration_exponent = id_exp % 16;
  group_index = nibble params 16;
  group_threshold = nibble params 12 + 1;
  group_count = nibble params 8 + 1;
  member_index = nibble params 4;
  member_threshold = nibble params 0 + 1;
}

-- The part of `decode` after the words: checksum, padding and fields.
unfoldable pub decode_indices : List ℕ → Decoded Fields
decode_indices indices =
    let id_exp = join_words (at indices 0) (at indices 1) in
    if rs1024_polymod (customization (is_extendable id_exp)) indices == 1
    then if at indices 4 / 2 ^ 6 == 0
      then valid (fields_of id_exp (join_words (at indices 2) (at indices 3)))
      else invalid malformed
    else invalid malformed

-- `decode`
unfoldable pub decode : Text → Decoded Fields
unfolding decode_indices
decode mnemonic =
    if ltb max_mnemonic_bytes (length mnemonic)
    then invalid malformed
    else elim (read_indices word_count (split b' ' mnemonic)) [
      | none ↦ invalid malformed
      | some indices ↦ decode_indices indices
    ]

abbrev pub in_profile : Fields → Bool
in_profile fields =
    not fields.extendable
    && fields.iteration_exponent == 0
    && fields.group_index == 0
    && fields.group_threshold == 1
    && fields.group_count == 1
    && leb 2 fields.member_threshold

-- `validate`
unfoldable pub validate : Text → Decoded Share
validate mnemonic = elim (decode mnemonic) [
  | invalid error ↦ invalid error
  | valid fields ↦
      if in_profile fields
      then valid (record {
        member_index = fields.member_index;
        member_threshold = fields.member_threshold;
      })
      else invalid unsupported
]
