-- ===== src/Code.antt =====
-- src/wire.rs: the stable error codes, and results that carry one.
use onym_recovery_trustee.Prelude.{Option, Text, arith, codes, inl, inr, none, refl, some, ◌≡◌, ◌⊎◌}

-- `enum Code`
pub data Code : Type 0 where
  unsupported_profile invalid_manifest invalid_policy invalid_enrollment enrollment_pending : Code
  enrollment_expired enrollment_revoked stale_enrollment_sequence artifact_mismatch : Code
  invalid_destination bootstrap_unavailable invalid_candidate_factor recovery_cooling_down : Code
  recovery_rate_limited recovery_vetoed recovery_refused recovery_expired : Code
  insufficient_contributions invalid_contribution payment_required service_lapsed : Code
  export_unavailable temporarily_unavailable invalid_request request_conflict : Code

-- `Code::as_str`
unfoldable pub as_str : Code → Text
as_str unsupported_profile = codes "unsupported_profile"
as_str invalid_manifest = codes "invalid_manifest"
as_str invalid_policy = codes "invalid_policy"
as_str invalid_enrollment = codes "invalid_enrollment"
as_str enrollment_pending = codes "enrollment_pending"
as_str enrollment_expired = codes "enrollment_expired"
as_str enrollment_revoked = codes "enrollment_revoked"
as_str stale_enrollment_sequence = codes "stale_enrollment_sequence"
as_str artifact_mismatch = codes "artifact_mismatch"
as_str invalid_destination = codes "invalid_destination"
as_str bootstrap_unavailable = codes "bootstrap_unavailable"
as_str invalid_candidate_factor = codes "invalid_candidate_factor"
as_str recovery_cooling_down = codes "recovery_cooling_down"
as_str recovery_rate_limited = codes "recovery_rate_limited"
as_str recovery_vetoed = codes "recovery_vetoed"
as_str recovery_refused = codes "recovery_refused"
as_str recovery_expired = codes "recovery_expired"
as_str insufficient_contributions = codes "insufficient_contributions"
as_str invalid_contribution = codes "invalid_contribution"
as_str payment_required = codes "payment_required"
as_str service_lapsed = codes "service_lapsed"
as_str export_unavailable = codes "export_unavailable"
as_str temporarily_unavailable = codes "temporarily_unavailable"
as_str invalid_request = codes "invalid_request"
as_str request_conflict = codes "request_conflict"

-- `Result<A, Code>`
pub data Result {ℓ} (A : Type ℓ) : Type ℓ where
  ok : A → Result A
  err : Code → Result A

-- `ok_or`
abbrev pub ok_or {ℓ} : {A : Type ℓ} → Option A → Code → Result A
ok_or none c = err c
ok_or (some a) c = ok a

-- `?`
abbrev pub ◌>>=◌ {ℓ κ} : {A : Type ℓ} {B : Type κ} (m : Result A) (next : A → Result B) → Result B
◌>>=◌ (err code) next = err code
◌>>=◌ (ok value) next = next value

infixl 5 ◌>>=◌
-- `?` on a step that gives nothing on.
abbrev pub ◌>>◌ {ℓ κ} : {A : Type ℓ} {B : Type κ} (m : Result A) (next : Result B) → Result B
◌>>◌ m next = m >>= (λ value. next)

infixl 5 ◌>>◌
pub some-injective {ℓ} : {A : Type ℓ} {a b : A} → some a ≡ some b → a ≡ b
some-injective h = cc

pub ok-injective {ℓ} : {A : Type ℓ} {a b : A} → ok a ≡ ok b → a ≡ b
ok-injective h = cc

-- A chain that succeeds had a first step that did, and went on from its value.
pub bind-ok {ℓ κ} :
    {A : Type ℓ} {B : Type κ} {last : B} (step : Result A) (next : A → Result B)
    → step >>= next ≡ ok last
    → (value : A) × (step ≡ ok value) × (next value ≡ ok last)
bind-ok (err code) next failed = cc
bind-ok (ok value) next done = (value, refl, done)

pub ok_or-ok {ℓ} : {A : Type ℓ} (o : Option A) (c : Code) {a : A} → ok_or o c ≡ ok a → o ≡ some a
ok_or-ok none c h = cc
ok_or-ok (some a) c h = ground arith

-- The same where the first step is an option, or gives nothing back.
pub ok_or-bind-ok {ℓ κ} :
    {A : Type ℓ} {B : Type κ} (o : Option A) (c : Code) (f : A → Result B) {b : B}
    → (ok_or o c >>= f) ≡ ok b
    → (a : A) × (o ≡ some a) × (f a ≡ ok b)
ok_or-bind-ok none c f h = cc
ok_or-bind-ok (some a) c f h = (a, refl, h)

pub then-ok {ℓ κ} :
    {A : Type ℓ} {B : Type κ} (m : Result A) (k : Result B) {b : B}
    → (m >> k) ≡ ok b
    → ((a : A) × (m ≡ ok a)) × (k ≡ ok b)
then-ok (ok a) k h = ((a, refl), h)
then-ok (err c) k h = cc

pub Option-split {ℓ κ} :
    {A : Type ℓ} {B : Type κ} (o : Option A) (g : Result B) (f : A → Result B) {b : B}
    → (elim o [ none ↦ g | some a ↦ f a ]) ≡ ok b
    → ((o ≡ none) × (g ≡ ok b)) ⊎ ((a : A) × (o ≡ some a) × (f a ≡ ok b))
Option-split none g f h = inl (refl, h)
Option-split (some a) g f h = inr (a, refl, h)
