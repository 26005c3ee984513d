-- ===== src/Trustee/Factors.antt =====
-- src/lib.rs: what holds of a session that `check_factor` passes.
use onym_recovery_trustee.Prelude.{
  Bool, List, [], arith, false, refl, text_eq, text_eq_iff, true, ◌&&◌, ◌++◌, ◌∷◌, ◌≡◌,
}
use onym_recovery_trustee.Code.{Code, bind-ok, invalid_candidate_factor, ok}
use onym_recovery_trustee.Crypto.{verify}
use onym_recovery_trustee.External.{External}
use onym_recovery_trustee.Trustee.{Enrollment, Evidence, Session, only, require}
use onym_recovery_trustee.Trustee.Accepting.{&&-true}
use onym_recovery_trustee.Trustee.Sessions.{check_factor}
use onym_recovery_trustee.Wire.{factor_ed25519_session}
use onym_recovery_trustee.Wire.Digests.{factor_message}

-- A presentation of the enrolled factor: its key signs the session's commitment for this trustee and
-- slot.
pub record HasFactor (x : External) (e : Enrollment) (s : Session) : Type 0 where
  pub evidence : Evidence
  pub only_one : s.evidence ≡ evidence ∷ []
  pub named : evidence.factor ≡ factor_ed25519_session ++ x.hex_encode e.policy.factor_key
  pub signed :
      verify x e.policy.factor_key
        (factor_message x s.session_commitment e.context.trustee_component_id e.context.slot)
        evidence.signature
      ≡ true

only-ok {ℓ} :
    {A : Type ℓ} (items : List A) (code : Code) {a : A} → only items code ≡ ok a → items ≡ a ∷ []
only-ok [] code h = cc
only-ok (a ∷ []) code h = ground arith
only-ok (a ∷ b ∷ rest) code h = cc

require-true : (test : Bool) (code : Code) → require test code ≡ ok tt → test ≡ true
require-true true code h = refl
require-true false code h = cc

module _ (x : External) where
  pub check_factor-HasFactor :
      (e : Enrollment) (s : Session) → check_factor x e s ≡ ok tt → HasFactor x e s
  unfolding check_factor
  check_factor-HasFactor e s h =
      let (evidence, a, h1) = bind-ok (only s.evidence invalid_candidate_factor) _ h in
      let message =
        factor_message x s.session_commitment e.context.trustee_component_id e.context.slot in
      let wanted = factor_ed25519_session ++ x.hex_encode e.policy.factor_key in
      let tests =
        require-true
          (text_eq evidence.factor wanted
            && verify x e.policy.factor_key message evidence.signature)
          invalid_candidate_factor h1 in
      let (named, signed) = &&-true _ _ tests in
      record {
        evidence = evidence;
        only_one = only-ok s.evidence invalid_candidate_factor a;
        named = (text_eq_iff evidence.factor wanted).0 named;
        signed = signed;
      }
