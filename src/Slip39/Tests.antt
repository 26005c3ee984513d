-- ===== src/Slip39/Tests.antt =====
-- Runs of src/slip39.rs on the shares of tests/fixtures/slip39.
use onym_recovery_trustee.Prelude.{Text, codes, refl, split, text_eq, ◌++◌, ◌≡◌}
use onym_recovery_trustee.Slip39.{
  decode, invalid, malformed, position, read_indices, valid, validate,
}
use onym_recovery_trustee.Slip39.Checksum.{rs1024_polymod}
use onym_recovery_trustee.Slip39.Validating.{InProfile, validate-InProfile}
use onym_recovery_trustee.Slip39.Words.{wordlist}

-- The first share of tests/fixtures/slip39/onym-generated.json.
abbrev pub first_share : Text
first_share =
    codes "luck leader academic acid argue buyer afraid spill jewelry soldier capacity "
    ++ codes "endless aircraft presence cubic roster pacific crucial category fancy numb glad "
    ++ codes "endorse smell cards hearing liberty username impact erode ceramic spirit custody"

validate_first : validate first_share ≡ valid (record { member_index = 0; member_threshold = 2 })
unfolding validate decode read_indices position wordlist split rs1024_polymod text_eq
validate_first = refl

-- One word too many, and one word changed.
validate_longer : validate (first_share ++ codes " custody") ≡ invalid malformed
unfolding validate decode read_indices position wordlist split rs1024_polymod text_eq
validate_longer = refl

validate_changed : validate (codes "l" ++ first_share) ≡ invalid malformed
unfolding validate decode read_indices position wordlist split rs1024_polymod text_eq
validate_changed = refl

validate-InProfile_example :
    InProfile first_share (record { member_index = 0; member_threshold = 2 })
validate-InProfile_example =
    validate-InProfile first_share (record { member_index = 0; member_threshold = 2 })
      validate_first
