-- ===== src/Wire/Lengths.antt =====
-- src/wire.rs: how long a duration can be.
use onym_recovery_trustee.Prelude.{
  Bool-cases, List, Option, Option-cases, Text, [], all, ap, arith, codes, inl, inr, length, none,
  some, split_once, strip_prefix, suc, true, zero, ℕ, ◌*◌, ◌+◌, ◌-◌, ◌<◌, ◌^◌, ◌∷◌, ◌≡◌, ◌≤◌,
}
use onym_recovery_trustee.Code.{some-injective}
use onym_recovery_trustee.Wire.Duration.{
  Progress, date_units, duration, is_digit, parse_digits, read_part, read_parts, read_unit,
  read_units, split_time, time_units, valid_digits,
}

-- The largest number that some digits can add to another.
abbrev most : ℕ → ℕ → ℕ
most zero b = b
most (suc n) b = most n (b * 10 + 9)

parse_digits-most :
    (ds : Text) (acc b : ℕ)
    → acc ≤ b
    → all is_digit ds ≡ true
    → parse_digits acc ds ≤ most (length ds) b
unfolding parse_digits
parse_digits-most [] acc b h k = h
parse_digits-most (d ∷ ds) acc b h k =
    parse_digits-most ds (acc * 10 + (d - b'0')) (b * 10 + 9) (ground (arith, h, k))
      (ground (arith, k))

six_digits : (n : ℕ) → n ≤ 6 → most n 0 ≤ 999999
six_digits zero h = omega arith
six_digits (suc zero) h = omega arith
six_digits (suc (suc zero)) h = omega arith
six_digits (suc (suc (suc zero))) h = omega arith
six_digits (suc (suc (suc (suc zero)))) h = omega arith
six_digits (suc (suc (suc (suc (suc zero))))) h = omega arith
six_digits (suc (suc (suc (suc (suc (suc zero)))))) h = omega arith
six_digits (suc (suc (suc (suc (suc (suc (suc n))))))) h = absurd (omega arith)

digits-bound : (ds : Text) → valid_digits ds ≡ true → parse_digits 0 ds ≤ 999999
digits-bound ds h =
    let few : length ds ≤ 6 = ground (arith, h) in
    let digits : all is_digit ds ≡ true = ground (arith, h) in
    omega (arith, parse_digits-most ds 0 0 (omega arith) digits, six_digits (length ds) few)

mul_mono : (c a b : ℕ) → a ≤ b → a * c ≤ b * c
mul_mono zero a b h = omega arith
mul_mono (suc c) a b h = omega (arith, mul_mono c a b h)

-- The seconds of a progress.
abbrev seconds_of : Progress → ℕ
seconds_of (part, seconds, components) = seconds

read_unit-bound :
    (unit scale : ℕ) (p q : Progress)
    → read_unit unit scale p ≡ some q
    → seconds_of q ≤ seconds_of p + 999999 * scale
unfolding read_unit
read_unit-bound unit scale (part, seconds, components) (rest, total, n) h =
    elim (Option-cases (split_once unit part)) [
      | inl none_left ↦ ground (arith, none_left, h)
      | inr ((digits, tail), e) ↦ elim (Bool-cases (valid_digits digits)) [
        | inr bad ↦ absurd (ground (arith, e, bad, h))
        | inl good ↦
            let more = mul_mono scale (parse_digits 0 digits) 999999 (digits-bound digits good) in
            let same : seconds + parse_digits 0 digits * scale ≡ total =
              ground (arith, e, good, h) in
            omega (arith, more, same)
      ]
    ]

-- What some units can add.
abbrev capacity : List (ℕ × ℕ) → ℕ
capacity [] = 0
capacity ((unit, scale) ∷ units) = 999999 * scale + capacity units

read_units-bound :
    (units : List (ℕ × ℕ)) (p q : Progress)
    → read_units units p ≡ some q
    → seconds_of q ≤ seconds_of p + capacity units
unfolding read_units
read_units-bound [] p q h = let e = ap seconds_of (some-injective h) in omega (arith, e)
read_units-bound ((unit, scale) ∷ units) p q h = elim (Option-cases (read_unit unit scale p)) [
  | inl none_left ↦ absurd (ground (arith, none_left, h))
  | inr (next, e) ↦
      let first = read_unit-bound unit scale p next e in
      let later = read_units-bound units next q (rw (e, read_units) at h) in
      omega (arith, first, later)
]

read_part-bound :
    (part : Text) (units : List (ℕ × ℕ)) (seconds components total n : ℕ)
    → read_part part units (seconds, components) ≡ some (total, n)
    → total ≤ seconds + capacity units
unfolding read_part
read_part-bound part units seconds components total n h =
    elim (Option-cases (read_units units (part, seconds, components))) [
      | inl none_left ↦ absurd (ground (arith, none_left, h))
      | inr (([], s, c), e) ↦
          let bound = read_units-bound units (part, seconds, components) ([], s, c) e in
          let same : s ≡ total = ground (arith, e, h) in omega (arith, bound, same)
      | inr ((b ∷ bs, s, c), e) ↦ absurd (ground (arith, e, h))
    ]

-- The longest duration: 999999 days, hours, minutes and seconds.
abbrev pub longest_duration : ℕ
longest_duration = 999999 * 86400 + 999999 * 3600 + 999999 * 60 + 999999

read_parts-bound :
    (parts : Option (Text × Text)) (n : ℕ) → read_parts parts ≡ some n → n ≤ longest_duration
read_parts-bound none n h = cc
read_parts-bound (some (date, time)) n h = elim (Option-cases (read_part date date_units (0, 0))) [
  | inl none_left ↦ absurd (ground (arith, none_left, h))
  | inr ((s, c), e) ↦ elim (Option-cases (read_part time time_units (s, c))) [
    | inl none_left ↦ absurd (ground (arith, e, none_left, h))
    | inr ((total, k), f) ↦
        let first = read_part-bound date date_units 0 0 s c e in
        let later = read_part-bound time time_units s c total k f in
        let same : total ≡ n = ground (arith, e, f, h) in omega (arith, first, later, same)
  ]
]

-- A duration is at most 999999 days, hours, minutes and seconds, so its seconds fit in 37 bits, and
-- neither their sum nor a time of less than 2^62 seconds plus them overflows an i64.
pub duration-bound :
    (text : Text) (n : ℕ)
    → duration text ≡ some n
    → (n ≤ longest_duration) × (n < 2 ^ 37) × ((now : ℕ) → now < 2 ^ 62 → now + n < 2 ^ 63)
unfolding duration
duration-bound text n h = elim (Option-cases (strip_prefix (codes "P") text)) [
  | inl none_left ↦ absurd (ground (arith, none_left, h))
  | inr (body, e) ↦
      let bound =
        read_parts-bound (split_time body (split_once b'T' body)) n (ground (arith, e, h)) in
      (bound, omega (arith, bound), λ now early. omega (arith, bound, early))
]
