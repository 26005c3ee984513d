-- ===== src/Trustee/Accepting.antt =====
-- src/lib.rs: what holds of an enrollment that `accept_enrollment` takes.
use mathlib.Core.Path.{subst}
use onym_recovery_trustee.Prelude.{
  Bool, Bytes, Text, arith, codes, false, leb_ℤ, ltb_ℤ, neg_part, pos, pos_part, refl, some,
  strip_prefix, text_eq, text_eq_iff, true, ℕ, ℤ, ◌&&◌, ◌+ℤ◌, ◌<ℤ◌, ◌<◌, ◌==◌, ◌≡◌, ◌≤ℤ◌, ◌≤◌,
}
use onym_recovery_trustee.Code.{
  Code, Result, bind-ok, invalid_policy, ok, ok-injective, ok_or-bind-ok, ◌>>◌,
}
use onym_recovery_trustee.Crypto.{open_sealed, verify}
use onym_recovery_trustee.External.{External}
use onym_recovery_trustee.Json.{Json, take_string}
use onym_recovery_trustee.Slip39.{Decoded, Share, invalid, malformed, unsupported, valid, validate}
use onym_recovery_trustee.State.{TrusteePolicy}
use onym_recovery_trustee.Trustee.{
  Enrollment, Limits, Trustee, accept_enrollment, admit_envelope, factor_key_text, only,
  parameters_valid, policy, policy_valid, require, share_result, usable_key, verified_envelope,
}
use onym_recovery_trustee.Wire.{
  EnrollmentContext, ShareEnvelope, TrusteePolicyFields, factor_ed25519_session,
  implementation_profile, recovery_mode_restoration,
}
use onym_recovery_trustee.Wire.Digests.{info, is_well_formed, repeats}
use onym_recovery_trustee.Wire.Documents.{canonical, parse}
use onym_recovery_trustee.Wire.Duration.{duration}
use onym_recovery_trustee.Wire.Encoding.{hex32, is_digest, signature, timestamp}

-- Inversion of a guard.
pub require-ok {ℓ} :
    {B : Type ℓ} (test : Bool) (code : Code) (k : Result B) {b : B}
    → (require test code >> k) ≡ ok b
    → (test ≡ true) × (k ≡ ok b)
require-ok true code k h = (refl, h)
require-ok false code k h = cc

pub &&-true : (a b : Bool) → (a && b) ≡ true → (a ≡ true) × (b ≡ true)
&&-true a b h = ground arith

-- The policy that a trustee enforces for an envelope, within its limits.
pub record WithinLimits (limits : Limits) (p : TrusteePolicy) : Type 0 where
  pub longest_cooldown : p.cooldown_secs ≤ℤ limits.max_cooldown_secs
  pub shortest_cooldown : limits.min_cooldown_secs ≤ℤ p.cooldown_secs
  pub outlives : p.cooldown_secs <ℤ p.session_lifetime_secs
  pub lifetime : p.session_lifetime_secs ≤ℤ limits.max_session_lifetime_secs
  pub some_attempt : 1 ≤ p.maximum_attempts
  pub attempts : p.maximum_attempts ≤ limits.max_attempts

-- What an accepted enrollment takes from the envelope.
pub record Admitted (x : External) (limits : Limits) (v : ShareEnvelope)
    (context : EnrollmentContext) (now : ℤ) (e : Enrollment) : Type 0 where
  pub same_context : e.context ≡ context
  pub index : e.member_index ≡ v.member_index
  pub threshold : e.member_threshold ≡ v.member_threshold
  pub group : e.member_count ≡ v.member_count
  pub least_threshold : 2 ≤ e.member_threshold
  pub reachable : e.member_threshold ≤ e.member_count
  pub largest : e.member_count ≤ 16
  pub member : e.member_index < e.member_count
  pub share :
      validate v.slip39_share
      ≡ valid (record { member_index = e.member_index; member_threshold = e.member_threshold })
  pub created : timestamp x v.created_at ≡ some e.created_at
  pub expires : timestamp x v.expires_at ≡ some e.expires_at
  pub not_future : e.created_at ≤ℤ now +ℤ limits.skew_secs
  pub unexpired : now <ℤ e.expires_at
  pub in_term : e.expires_at ≤ℤ now +ℤ limits.max_enrollment_term_secs
  pub within : WithinLimits limits e.policy
  pub key : hex32 x v.authorization_public_key ≡ some e.authorization_key

-- An envelope that carries a valid signature of the key that it names, and repeats the context.
pub record IsSigned (x : External) (document : Json) (context : EnrollmentContext)
    (v : ShareEnvelope) : Type 0 where
  pub authorization : Text
  pub tree : Json
  pub key : Bytes
  pub decoded : Bytes
  pub taken : take_string document (codes "holderAuthorization") ≡ some (authorization, tree)
  pub read : x.decode_envelope tree ≡ some v
  pub holder_key : hex32 x v.authorization_public_key ≡ some key
  pub encoded : signature x authorization ≡ some decoded
  pub verified : verify x key (canonical x tree) decoded ≡ true
  pub repeated : repeats x v context ≡ true

-- Where an accepted enrollment comes from.
pub record Accepted (x : External) (t : Trustee) (context : EnrollmentContext) (sealed : Bytes)
    (now : ℤ) (e : Enrollment) : Type 0 where
  pub plaintext : Bytes
  pub document : Json
  pub envelope : ShareEnvelope
  pub profile : context.implementation_profile_id ≡ implementation_profile
  pub well_formed : is_well_formed x context ≡ true
  pub addressed : context.trustee_component_id ≡ t.component_id
  pub opened : open_sealed x t.hpke_key (info x context) sealed ≡ some plaintext
  pub parsed : parse x plaintext ≡ some document
  pub signed : IsSigned x document context envelope
  pub admitted : Admitted x t.limits envelope context now e

policy_valid-WithinLimits :
    (limits : Limits) (fields : TrusteePolicyFields) (cooldown lifetime : ℕ) (key : Bytes)
    → policy_valid limits fields cooldown lifetime ≡ true
    → WithinLimits limits (record {
      factor_key = key;
      cooldown_secs = pos cooldown;
      session_lifetime_secs = pos lifetime;
      maximum_attempts = fields.maximum_attempts;
    })
unfolding pos_part neg_part
policy_valid-WithinLimits limits fields cooldown lifetime key h = ground arith

module _ (x : External) where
  pub policy-WithinLimits :
      (limits : Limits) (fields : TrusteePolicyFields) (p : TrusteePolicy)
      → policy x limits fields ≡ ok p
      → WithinLimits limits p
  unfolding policy
  policy-WithinLimits limits fields p h =
      let (factor, _, h1) = bind-ok (only fields.candidate_factors invalid_policy) _ h in
      let (factor_key, _, h2) =
        ok_or-bind-ok
          (usable_key x (factor_key_text x (strip_prefix factor_ed25519_session factor))) _ _ h1 in
      let (cooldown, _, h3) = ok_or-bind-ok (duration fields.cooldown) _ _ h2 in
      let (lifetime, _, h4) = ok_or-bind-ok (duration fields.session_lifetime) _ _ h3 in
      let (tests, h5) = require-ok (policy_valid limits fields cooldown lifetime) _ _ h4 in
      subst (WithinLimits limits) (ok-injective h5)
        (policy_valid-WithinLimits limits fields cooldown lifetime factor_key tests)

  share_result-ok : (d : Decoded Share) (s : Share) → share_result d ≡ ok s → d ≡ valid s
  share_result-ok (valid share) s h = ground arith
  share_result-ok (invalid malformed) s h = cc
  share_result-ok (invalid unsupported) s h = cc

  tests-Admitted :
      (limits : Limits) (v : ShareEnvelope) (context : EnrollmentContext) (now : ℤ) (share : Share)
      (created_at expires_at : ℤ) (p : TrusteePolicy) (key : Bytes)
      → parameters_valid v ≡ true
      → validate v.slip39_share ≡ valid share
      → (share.member_index == v.member_index && share.member_threshold == v.member_threshold)
        ≡ true
      → timestamp x v.created_at ≡ some created_at
      → timestamp x v.expires_at ≡ some expires_at
      → leb_ℤ created_at (now +ℤ limits.skew_secs) ≡ true
      → ltb_ℤ now expires_at ≡ true
      → leb_ℤ expires_at (now +ℤ limits.max_enrollment_term_secs) ≡ true
      → WithinLimits limits p
      → hex32 x v.authorization_public_key ≡ some key
      → Admitted x limits v context now (record {
        context = context;
        identity_binding_commitment = v.identity_binding_commitment;
        member_index = share.member_index;
        member_threshold = share.member_threshold;
        member_count = v.member_count;
        policy = p;
        created_at = created_at;
        expires_at = expires_at;
        authorization_key = key;
      })
  tests-Admitted limits v context now share created_at expires_at p key a b c d f g h i w k =
      record {
        same_context = refl;
        index = ground arith;
        threshold = ground arith;
        group = refl;
        least_threshold = ground arith;
        reachable = ground arith;
        largest = ground arith;
        member = ground arith;
        share = b;
        created = d;
        expires = f;
        not_future = ground arith;
        unexpired = ground arith;
        in_term = ground arith;
        within = w;
        key = k;
      }

  pub admit_envelope-Admitted :
      (limits : Limits) (v : ShareEnvelope) (context : EnrollmentContext) (now : ℤ) (e : Enrollment)
      → admit_envelope x limits v context now ≡ ok e
      → Admitted x limits v context now e
  unfolding admit_envelope
  admit_envelope-Admitted limits v context now e h =
      let (version, h1) =
        require-ok
          (v.share_envelope_version == 1 && text_eq v.recovery_mode recovery_mode_restoration) _ _
          h in
      let (shape, h2) =
        require-ok (parameters_valid v && is_digest x v.identity_binding_commitment) _ _ h1 in
      let (share, e3, h3) = bind-ok (share_result (validate v.slip39_share)) _ h2 in
      let valid_share = share_result-ok (validate v.slip39_share) share e3 in
      let (agrees, h4) =
        require-ok
          (share.member_index == v.member_index && share.member_threshold == v.member_threshold) _ _
          h3 in
      let (created_at, e5, h5) = ok_or-bind-ok (timestamp x v.created_at) _ _ h4 in
      let (expires_at, e6, h6) = ok_or-bind-ok (timestamp x v.expires_at) _ _ h5 in
      let (t1, h7) = require-ok (leb_ℤ created_at (now +ℤ limits.skew_secs)) _ _ h6 in
      let (t2, h8) = require-ok (ltb_ℤ now expires_at) _ _ h7 in
      let (t3, h9) =
        require-ok (leb_ℤ expires_at (now +ℤ limits.max_enrollment_term_secs)) _ _ h8 in
      let (p, e10, h10) = bind-ok (policy x limits v.trustee_policy) _ h9 in
      let within = policy-WithinLimits limits v.trustee_policy p e10 in
      let (key, e11, h11) = ok_or-bind-ok (hex32 x v.authorization_public_key) _ _ h10 in
      subst (Admitted x limits v context now) (ok-injective h11) (
        tests-Admitted limits v context now share created_at expires_at p key
          (&&-true (parameters_valid v) _ shape).0 valid_share agrees e5 e6 t1 t2 t3 within e11)

  verified_envelope-IsSigned :
      (document : Json) (context : EnrollmentContext) (v : ShareEnvelope)
      → verified_envelope x document context ≡ ok v
      → IsSigned x document context v
  unfolding verified_envelope
  verified_envelope-IsSigned document context v h =
      let ((authorization, tree), e1, h1) =
        ok_or-bind-ok (take_string document (codes "holderAuthorization")) _ _ h in
      let (envelope, e2, h2) = ok_or-bind-ok (x.decode_envelope tree) _ _ h1 in
      let (key, e3, h3) = ok_or-bind-ok (hex32 x envelope.authorization_public_key) _ _ h2 in
      let (decoded, e4, h4) = ok_or-bind-ok (signature x authorization) _ _ h3 in
      let (e5, h5) = require-ok (verify x key (canonical x tree) decoded) _ _ h4 in
      let (e6, h6) = require-ok (repeats x envelope context) _ _ h5 in
      subst (IsSigned x document context) (ok-injective h6) (record {
        authorization = authorization;
        tree = tree;
        key = key;
        decoded = decoded;
        taken = e1;
        read = e2;
        holder_key = e3;
        encoded = e4;
        verified = e5;
        repeated = e6;
      })

  -- An accepted enrollment comes from an envelope that was sealed to this trustee with the context as
  -- its `info`, is signed by the holder's key that it names over its canonical bytes without the
  -- signature, and repeats the context, the digest of that key included. The enrollment keeps the
  -- context, the share's parameters (a threshold of 2 at least and at most the group's size, which
  -- is 16 at most), a term that has not run out and is within the limits, and a policy within the
  -- limits.
  pub accept_enrollment-Accepted :
      (t : Trustee) (context : EnrollmentContext) (sealed : Bytes) (now : ℤ) (e : Enrollment)
      → accept_enrollment x t context sealed now ≡ ok e
      → Accepted x t context sealed now e
  unfolding accept_enrollment
  accept_enrollment-Accepted t context sealed now e h =
      let (e1, h1) =
        require-ok (text_eq context.implementation_profile_id implementation_profile) _ _ h in
      let (e2, h2) =
        require-ok (is_well_formed x context && text_eq context.trustee_component_id t.component_id)
          _ _ h1 in
      let (plaintext, e3, h3) =
        ok_or-bind-ok (open_sealed x t.hpke_key (info x context) sealed) _ _ h2 in
      let (document, e4, h4) = ok_or-bind-ok (parse x plaintext) _ _ h3 in
      let (v, e5, h5) = bind-ok (verified_envelope x document context) _ h4 in
      let (formed, named) = &&-true (is_well_formed x context) _ e2 in
      record {
        plaintext = plaintext;
        document = document;
        envelope = v;
        profile = (text_eq_iff _ _).0 e1;
        well_formed = formed;
        addressed = (text_eq_iff _ _).0 named;
        opened = e3;
        parsed = e4;
        signed = verified_envelope-IsSigned document context v e5;
        admitted = admit_envelope-Admitted t.limits v context now e h5;
      }
