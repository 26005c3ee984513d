-- ===== src/Wire/Duration.antt =====
-- src/wire.rs: `duration`, ISO 8601 durations of fixed units.
use onym_recovery_trustee.Prelude.{
  Bool, List, Option, Text, [], all, codes, if◌then◌else◌, leb, length, ltb, none, not, refl, some,
  split_once, strip_prefix, ℕ, ◌&&◌, ◌*◌, ◌+◌, ◌-◌, ◌==◌, ◌∷◌, ◌≡◌,
}

-- `is_ascii_digit`
abbrev pub is_digit : ℕ → Bool
is_digit b = leb b'0' b && leb b b'9'

-- `digits.parse::<i64>()` of digits, at most six of them.
unfoldable pub parse_digits : ℕ → Text → ℕ
parse_digits acc [] = acc
parse_digits acc (d ∷ ds) = parse_digits (acc * 10 + (d - b'0')) ds

abbrev pub valid_digits : Text → Bool
valid_digits digits = not (length digits == 0) && leb (length digits) 6 && all is_digit digits

-- What is left of a part, the seconds and the number of components so far.
abbrev pub Progress : Type 0
Progress = Text × ℕ × ℕ

-- One round of the inner loop.
unfoldable pub read_unit : ℕ → ℕ → Progress → Option Progress
unfolding parse_digits
read_unit unit scale (part, seconds, components) = elim (split_once unit part) [
  | none ↦ some (part, seconds, components)
  | some (digits, rest) ↦
      if valid_digits digits
      then some (rest, seconds + parse_digits 0 digits * scale, components + 1)
      else none
]

-- The inner loop.
unfoldable pub read_units : List (ℕ × ℕ) → Progress → Option Progress
unfolding read_unit
read_units [] progress = some progress
read_units ((unit, scale) ∷ units) progress = elim (read_unit unit scale progress) [
  | none ↦ none
  | some next ↦ read_units units next
]

abbrev pub date_units : List (ℕ × ℕ)
date_units = (b'D', 86400) ∷ []

abbrev pub time_units : List (ℕ × ℕ)
time_units = (b'H', 3600) ∷ (b'M', 60) ∷ (b'S', 1) ∷ []

abbrev used_up : Option Progress → Option (ℕ × ℕ)
used_up none = none
used_up (some ([], seconds, components)) = some (seconds, components)
used_up (some (c ∷ cs, seconds, components)) = none

-- One round of the outer loop: the part has to be used up.
unfoldable pub read_part : Text → List (ℕ × ℕ) → ℕ × ℕ → Option (ℕ × ℕ)
unfolding read_units
read_part part units (seconds, components) = used_up (read_units units (part, seconds, components))

-- The date and the time of a body: a `T` with no time after it is refused.
abbrev pub split_time : Text → Option (Text × Text) → Option (Text × Text)
split_time body none = some (body, [])
split_time body (some (date, [])) = none
split_time body (some (date, c ∷ cs)) = some (date, c ∷ cs)

abbrev pub some_component : Option (ℕ × ℕ) → Option ℕ
some_component none = none
some_component (some (seconds, components)) = if ltb 0 components then some seconds else none

abbrev pub read_parts : Option (Text × Text) → Option ℕ
read_parts none = none
read_parts (some (date, time)) = elim (read_part date date_units (0, 0)) [
  | none ↦ none
  | some totals ↦ some_component (read_part time time_units totals)
]

abbrev pub read_body : Option Text → Option ℕ
read_body none = none
read_body (some body) = read_parts (split_time body (split_once b'T' body))

-- `duration`, in seconds.
unfoldable pub duration : Text → Option ℕ
unfolding read_part
duration text = read_body (strip_prefix (codes "P") text)

duration_values :
    (duration (codes "P2D") ≡ some 172800)
    × (duration (codes "PT1M30S") ≡ some 90)
    × (duration (codes "P1DT1H") ≡ some 90000)
    × (duration (codes "PT1S1M") ≡ none)
    × (duration (codes "P1DT") ≡ none)
    × (duration (codes "P1234567D") ≡ none)
unfolding duration strip_prefix split_once
duration_values = (refl, refl, refl, refl, refl, refl)
