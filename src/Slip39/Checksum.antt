-- ===== src/Slip39/Checksum.antt =====
-- src/slip39.rs: the RS1024 checksum over GF(1024).
use Prim.Native.Nat.{bit_xor}
use onym_recovery_trustee.Prelude.{List, [], if◌then◌else◌, ℕ, ◌%◌, ◌*◌, ◌++◌, ◌/◌, ◌==◌, ◌^◌, ◌∷◌}

abbrev pub generator : List ℕ
generator =
    0xE0E040 ∷ 0x1C1C080 ∷ 0x3838100 ∷ 0x7070200 ∷ 0xE0E0009 ∷ 0x1C0C2412 ∷ 0x38086C24 ∷ 0x3090FC48
    ∷ 0x21B1F890 ∷ 0x3F3F120 ∷ []

-- The inner loop: `top` is shifted by one bit a round.
unfoldable pub mix : ℕ → List ℕ → ℕ → ℕ
mix top [] checksum = checksum
mix top (g ∷ gs) checksum = mix (top / 2) gs (if top % 2 == 1 then bit_xor checksum g else checksum)

-- One round of the outer loop.
unfoldable pub absorb : ℕ → ℕ → ℕ
unfolding mix
absorb checksum value =
    mix (checksum / 2 ^ 20) generator (bit_xor (checksum % 2 ^ 20 * 2 ^ 10) value)

unfoldable pub absorb_all : ℕ → List ℕ → ℕ
unfolding absorb
absorb_all checksum [] = checksum
absorb_all checksum (value ∷ values) = absorb_all (absorb checksum value) values

-- `rs1024_polymod`
unfoldable pub rs1024_polymod : List ℕ → List ℕ → ℕ
unfolding absorb_all
rs1024_polymod prefix indices = absorb_all 1 (prefix ++ indices)
