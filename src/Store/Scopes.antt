-- ===== src/Store/Scopes.antt =====
-- src/store.rs: the keys of scopes, under which nonces and outcomes are stored.
use onym_recovery_trustee.Prelude.{
  Bool, Bool-cases, Text, [], all, ap, arith, drop, false, inl, inr, ltb, not, refl, suc, sym, take,
  true, zero, ℕ, ◌%◌, ◌*◌, ◌++◌, ◌+◌, ◌-◌, ◌/◌, ◌<◌, ◌==◌, ◌∙◌, ◌∷◌, ◌≡◌,
}
use onym_recovery_trustee.Store.Requests.{
  Scope, decimal, of_enrollment_sequence, of_session, scope_key,
}
use onym_recovery_trustee.Wire.Duration.{parse_digits}

-- No colon is among some characters.
abbrev no_colon : Text → Bool
no_colon text = all (λ c. not (c == b':')) text

parse_digits-append :
    (text : Text) (acc d : ℕ)
    → parse_digits acc (text ++ d ∷ []) ≡ parse_digits acc text * 10 + (d - b'0')
unfolding parse_digits
parse_digits-append [] acc d = refl
parse_digits-append (c ∷ cs) acc d = parse_digits-append cs (acc * 10 + (c - b'0')) d

-- The digits that `decimal` writes read back as the number, on any fuel above it.
parse_digits-decimal : (fuel n : ℕ) → n < fuel → parse_digits 0 (decimal fuel n) ≡ n
unfolding decimal parse_digits
parse_digits-decimal zero n h = absurd (omega arith)
parse_digits-decimal (suc fuel) n h = elim (Bool-cases (ltb n 10)) [
  | inl small ↦ ground (arith, small)
  | inr large ↦
      let rest = parse_digits-decimal fuel (n / 10) (ground (arith, large, h)) in
      let last = parse_digits-append (decimal fuel (n / 10)) 0 (b'0' + n % 10) in
      ground (arith, large, rest, last)
]

no_colon-append :
    (text : Text) (d : ℕ)
    → no_colon text ≡ true
    → (d == b':') ≡ false
    → no_colon (text ++ d ∷ []) ≡ true
no_colon-append [] d h k = ground (arith, k)
no_colon-append (c ∷ cs) d h k = ground (arith, h, no_colon-append cs d (ground (arith, h)) k)

decimal-no_colon : (fuel n : ℕ) → no_colon (decimal fuel n) ≡ true
unfolding decimal
decimal-no_colon zero n = refl
decimal-no_colon (suc fuel) n = elim (Bool-cases (ltb n 10)) [
  | inl small ↦ ground (arith, small)
  | inr large ↦
      let rest =
        no_colon-append (decimal fuel (n / 10)) (b'0' + n % 10) (decimal-no_colon fuel (n / 10))
          (ground arith) in
      ground (arith, large, rest)
]

colon-inside : (text rest : Text) → no_colon (text ++ b':' ∷ rest) ≡ false
colon-inside [] rest = refl
colon-inside (c ∷ cs) rest = ground (arith, colon-inside cs rest)

-- A text is cut at its last colon in one way.
last_colon :
    (a b x y : Text)
    → no_colon x ≡ true
    → no_colon y ≡ true
    → a ++ b':' ∷ x ≡ b ++ b':' ∷ y
    → (a ≡ b) × (x ≡ y)
last_colon [] [] x y h k e = (refl, cc)
last_colon [] (d ∷ ds) x y h k e =
    let rest : x ≡ ds ++ b':' ∷ y = cc in absurd (ground (arith, h, rest, colon-inside ds y))
last_colon (c ∷ cs) [] x y h k e =
    let rest : cs ++ b':' ∷ x ≡ y = cc in absurd (ground (arith, k, rest, colon-inside cs x))
last_colon (c ∷ cs) (d ∷ ds) x y h k e =
    let (same, after') = last_colon cs ds x y h k cc in (ground (arith, same, e), after')

decimal-injective : (m n : ℕ) → decimal (suc m) m ≡ decimal (suc n) n → m ≡ n
decimal-injective m n h =
    sym (parse_digits-decimal (suc m) m (omega arith))
    ∙ ap (parse_digits 0) h
    ∙ parse_digits-decimal (suc n) n (omega arith)

-- Two scopes with one key are one scope: no session and no enrollment shares the nonces and outcomes of
-- another, whatever characters their IDs have.
pub scope_key-injective : (a b : Scope) → scope_key a ≡ scope_key b → a ≡ b
unfolding scope_key
scope_key-injective (of_session a) (of_session b) h = ap of_session (ap (drop 8) h)
scope_key-injective (of_session a) (of_enrollment_sequence b n) h =
    absurd (let e = ap (take 1) h in ground (arith, e))
scope_key-injective (of_enrollment_sequence a m) (of_session b) h =
    absurd (let e = ap (take 1) h in ground (arith, e))
scope_key-injective (of_enrollment_sequence a m) (of_enrollment_sequence b n) h =
    let (same_id, digits) =
      last_colon a b (decimal (suc m) m) (decimal (suc n) n) (decimal-no_colon (suc m) m)
        (decimal-no_colon (suc n) n) (ap (drop 11) h) in
    let same_sequence = decimal-injective m n digits in ground (arith, same_id, same_sequence)
