-- ===== src/Service/Keys.antt =====
-- src/main.rs: the key file, `keygen` and `parse_keys`.
use onym_recovery_trustee.Prelude.{
  Bytes, List, Option, Text, [], all, ap, arith, codes, cons_first, false, if◌then◌else◌, length,
  map, none, refl, some, strip_prefix, strip_prefix-append, true, ℕ, ◌++◌, ◌==◌, ◌∙◌, ◌∷◌, ◌≡◌,
}
use onym_recovery_trustee.Crypto.{hpke_private_key}
use onym_recovery_trustee.External.{External}
use onym_recovery_trustee.Service.{
  Outcome, done, failed, key_file_enrollment_key, key_file_lines, or_fail, ◌>>=◌,
}
use onym_recovery_trustee.Service.Urls.{has_any}
use onym_recovery_trustee.State.{usable}
use onym_recovery_trustee.Trustee.{operator}
use onym_recovery_trustee.Wire.Encoding.{hex32, hex_bytes, is_hex_digit}

-- `split_inclusive('\n')`
unfoldable pub split_inclusive : ℕ → Text → List Text
split_inclusive sep [] = []
split_inclusive sep (c ∷ cs) =
    let rest = split_inclusive sep cs in if c == sep then (c ∷ []) ∷ rest else cons_first c rest

-- `strip_suffix` of a character.
unfoldable pub strip_last : ℕ → Text → Option Text
strip_last c [] = none
strip_last c (b ∷ []) = if b == c then some [] else none
strip_last c (b ∷ d ∷ ds) = elim (strip_last c (d ∷ ds)) [
  | none ↦ none
  | some kept ↦ some (b ∷ kept)
]

abbrev pub line_feed : ℕ
line_feed = 10

abbrev pub carriage_return : ℕ
carriage_return = 13

-- A line without its end: `\n` or `\r\n`.
unfoldable pub without_end : Text → Text
unfolding strip_last
without_end line = elim (strip_last line_feed line) [
  | none ↦ line
  | some kept ↦ elim (strip_last carriage_return kept) [ none ↦ kept | some short ↦ short ]
]

-- `str::lines`
unfoldable pub lines : Text → List Text
unfolding split_inclusive without_end
lines text = map without_end (split_inclusive line_feed text)

abbrev pub operator_label : Text
operator_label = codes "operator-ed25519 "

abbrev pub enrollment_label : Text
enrollment_label = codes "enrollment-x25519 "

module _ (x : External) where
  abbrev hex_after : Option Text → Option Bytes
  hex_after none = none
  hex_after (some digits) = hex32 x digits

  -- `key(label)` on the next line, if there is one.
  unfoldable pub labelled_key : Text → Option Text → Option Bytes
  labelled_key label none = none
  labelled_key label (some line) = hex_after (strip_prefix label line)

  -- `hpke_private_key` of the second key.
  unfoldable pub keys_of : Option Bytes → Option Bytes → List Text → Outcome (Bytes × Bytes)
  keys_of (some operator) (some enrollment) [] = do
    hpke_key ← or_fail (hpke_private_key x enrollment) key_file_enrollment_key
    done (operator, hpke_key)
  keys_of _ _ _ = failed key_file_lines

  abbrev parse_lines : List Text → Outcome (Bytes × Bytes)
  parse_lines [] = keys_of none none []
  parse_lines (first ∷ []) = keys_of (labelled_key operator_label (some first)) none []
  parse_lines (first ∷ second ∷ rest) =
      keys_of (labelled_key operator_label (some first))
        (labelled_key enrollment_label (some second)) rest

  -- `parse_keys`: the operator's seed and the enrollment key.
  unfoldable pub parse_keys : Text → Outcome (Bytes × Bytes)
  unfolding lines labelled_key keys_of
  parse_keys text = parse_lines (lines text)

  -- The text that `keygen` writes for two seeds.
  unfoldable pub key_file : Bytes → Bytes → Text
  key_file operator enrollment =
      (operator_label ++ x.hex_encode operator)
      ++ line_feed ∷ ((enrollment_label ++ x.hex_encode enrollment) ++ line_feed ∷ [])

-- What is not in a line.
abbrev line_ends : List ℕ
line_ends = line_feed ∷ carriage_return ∷ []

has_any-append :
    (chars : List ℕ) (a b : Text)
    → has_any chars a ≡ false
    → has_any chars b ≡ false
    → has_any chars (a ++ b) ≡ false
has_any-append chars [] b h k = k
has_any-append chars (c ∷ cs) b h k =
    ground (arith, has_any-append chars cs b (ground (arith, h)) k)

split_inclusive-append :
    (line rest : Text)
    → has_any line_ends line ≡ false
    → split_inclusive line_feed (line ++ line_feed ∷ rest)
      ≡ (line ++ line_feed ∷ []) ∷ split_inclusive line_feed rest
unfolding split_inclusive
split_inclusive-append [] rest h = refl
split_inclusive-append (c ∷ cs) rest h =
    ground (arith, split_inclusive-append cs rest (ground (arith, h)))

strip_last-append : (c : ℕ) (line : Text) → strip_last c (line ++ c ∷ []) ≡ some line
unfolding strip_last
strip_last-append c [] = ground arith
strip_last-append c (b ∷ []) = ground arith
strip_last-append c (b ∷ d ∷ ds) = ground (arith, strip_last-append c (d ∷ ds))

strip_last-none :
    (line : Text) → has_any line_ends line ≡ false → strip_last carriage_return line ≡ none
unfolding strip_last
strip_last-none [] h = refl
strip_last-none (b ∷ []) h = ground (arith, h)
strip_last-none (b ∷ d ∷ ds) h = ground (arith, strip_last-none (d ∷ ds) (ground (arith, h)))

without_end-append :
    (line : Text) → has_any line_ends line ≡ false → without_end (line ++ line_feed ∷ []) ≡ line
unfolding without_end
without_end-append line h = ground (arith, strip_last-append line_feed line, strip_last-none line h)

lines-append :
    (line rest : Text)
    → has_any line_ends line ≡ false
    → lines (line ++ line_feed ∷ rest) ≡ line ∷ lines rest
unfolding lines
lines-append line rest h =
    ap (map without_end) (split_inclusive-append line rest h)
    ∙ ap (λ first. first ∷ lines rest) (without_end-append line h)

module _ (x : External) where
  -- The key's bytes as `hex::encode` writes them, and `hex::decode` reads them back.
  pub record IsKey (key : Bytes) : Type 0 where
    pub digits : all is_hex_digit (x.hex_encode key) ≡ true
    pub width : length (x.hex_encode key) ≡ 64
    pub decoded : x.hex_decode (x.hex_encode key) ≡ some key

  digits-one_line :
      (digits : Text) → all is_hex_digit digits ≡ true → has_any line_ends digits ≡ false
  digits-one_line [] h = refl
  digits-one_line (d ∷ ds) h = ground (arith, h, digits-one_line ds (ground (arith, h)))

  labelled_key-append :
      (label : Text) (key : Bytes)
      → IsKey key
      → labelled_key x label (some (label ++ x.hex_encode key)) ≡ some key
  unfolding labelled_key hex32 hex_bytes
  labelled_key-append label key k =
      rw (strip_prefix-append label (x.hex_encode key), k.digits, k.width, k.decoded) refl

  -- `parse_keys` reads back the two keys of a file that `keygen` writes, where the hex of each is read
  -- back as it was and the second is an HPKE private key.
  pub parse_keys-key_file :
      (operator enrollment : Bytes)
      → IsKey operator
      → IsKey enrollment
      → x.hpke_private enrollment ≡ true
      → parse_keys x (key_file x operator enrollment) ≡ done (operator, enrollment)
  unfolding parse_keys keys_of key_file hpke_private_key
  parse_keys-key_file operator enrollment a b usable =
      let first =
        has_any-append line_ends operator_label (x.hex_encode operator) refl
          (digits-one_line (x.hex_encode operator) a.digits) in
      let second =
        has_any-append line_ends enrollment_label (x.hex_encode enrollment) refl
          (digits-one_line (x.hex_encode enrollment) b.digits) in
      rw
        (
          lines-append (operator_label ++ x.hex_encode operator)
              ((enrollment_label ++ x.hex_encode enrollment) ++ line_feed ∷ []) first,
          lines-append (enrollment_label ++ x.hex_encode enrollment) [] second,
          labelled_key-append operator_label operator a,
          labelled_key-append enrollment_label enrollment b,
          usable,
        )
        refl
