-- ===== src/Store/RunTests.antt =====
-- Runs of the store on the test data, by the laws of runs, of its operations, keys and identity.
use onym_recovery_trustee.Prelude.{
  Bytes, [], abs, arith, codes, neg_part, none, pos, pos_part, refl, some, split_once, strip_prefix,
  text_eq, true, ℕ, ◌++◌, ◌+ℤ◌, ◌+◌, ◌-ℤ◌, ◌<◌, ◌^◌, ◌∷◌, ◌≡◌, ◌≤ℤ◌, ◌≤◌,
}
use onym_recovery_trustee.Code.{Code, Result, err, ok}
use onym_recovery_trustee.Crypto.{verify}
use onym_recovery_trustee.Json.{Json, end, entry, get_field, is_object, object, str_field, string}
use onym_recovery_trustee.Json.Unique.{visit}
use onym_recovery_trustee.State.{accepted, cooling_down}
use onym_recovery_trustee.Store.{Db, Reply, Step, empty, transaction}
use onym_recovery_trustee.Store.Binding.{bind_once}
use onym_recovery_trustee.Store.Ending.{bury, end_enrollment, end_new, ended_status}
use onym_recovery_trustee.Store.EndingAgain.{end_enrollment_again}
use onym_recovery_trustee.Store.Invitations.{Paid, Run-Paid}
use onym_recovery_trustee.Store.Operations.{IsDeclared, handle-unserved, is_listed}
use onym_recovery_trustee.Store.Requests.{
  check_fresh, decimal, find_outcome, of_enrollment_sequence, random_id, record_outcome,
  recorded_outcome, scope_key, verify_signature,
}
use onym_recovery_trustee.Store.Runs.{Run, after, invite, stay}
use onym_recovery_trustee.Store.Sample.{
  enrolled_row, id64, sample, sample_db, sample_draws, sample_session, sample_trustee,
}
use onym_recovery_trustee.Store.Scopes.{scope_key-injective}
use onym_recovery_trustee.Store.Serving.{bind, create_invitation, handle}
use onym_recovery_trustee.Store.Tables.{current, find, insert, load_current_enrollment, update}
use onym_recovery_trustee.Trustee.{hpke_public_key, key_id, operator}
use onym_recovery_trustee.Wire.{Signed}
use onym_recovery_trustee.Wire.Digests.{key_digest}
use onym_recovery_trustee.Wire.Documents.{digest, parse}
use onym_recovery_trustee.Wire.Duration.{duration}
use onym_recovery_trustee.Wire.Lengths.{duration-bound, longest_duration}
use onym_recovery_trustee.Wire.Requests.{cancel_recovery_operation, revoke_enrollment_operation}

abbrev cooling_db : Db
cooling_db = sample_db (enrolled_row accepted (some [])) (sample_session cooling_down none)

abbrev vetoed_db : Db
vetoed_db = after sample sample_trustee cancel_recovery_operation sample_draws (pos 1000) cooling_db

-- An invitation that is made in an empty database.
abbrev invited_db : Db
invited_db = record empty {
  high_water = pos 900;
  invitations =
      record { digest = codes "sha256:" ++ id64; expires_at = pos 1900; used_at = none } ∷ [];
}

invites_one : create_invitation sample (pos 1000) (pos 900) (some []) empty ≡ ok (invited_db, id64)
unfolding create_invitation random_id transaction insert find digest ◌+ℤ◌ pos_part neg_part
invites_one = refl

invited : Run sample sample_trustee empty invited_db
invited = invite empty empty invited_db (pos 1000) (pos 900) (some []) id64 (stay empty) invites_one

Run-Paid_example : Paid invited_db
Run-Paid_example = Run-Paid sample sample_trustee invited_db invited

abbrev rotate : Bytes
rotate = codes "rotate-enrollment"

abbrev rotate_doc : Json
rotate_doc =
    object (entry (codes "operation") (string rotate) (entry (codes "signature") (string []) end))

handle-unserved_example :
    (code : Code) × (handle sample sample_trustee rotate sample_draws (pos 1000) cooling_db
      ≡ (err code, cooling_db))
    × IsDeclared rotate code
unfolding parse visit is_object is_listed str_field get_field text_eq
handle-unserved_example =
    handle-unserved sample sample_trustee rotate rotate_doc sample_draws (pos 1000) cooling_db refl
      refl

scope_key-injective_example :
    of_enrollment_sequence (codes "a:1") 12 ≡ of_enrollment_sequence (codes "a:1") 12
scope_key-injective_example =
    scope_key-injective (of_enrollment_sequence (codes "a:1") 12)
      (of_enrollment_sequence (codes "a:1") 12) refl

-- The trustee binds the database that it is the first to serve, and binds it again later.
abbrev bound_db : Db
bound_db = (bind sample sample_trustee empty).1

binds_first : (bind sample sample_trustee empty).0 ≡ true
unfolding bind
binds_first = refl

binds_again : (bind sample sample_trustee bound_db).0 ≡ true
unfolding bind text_eq operator key_id key_digest digest hpke_public_key
binds_again = refl

bind_once_example :
    (sample_trustee.component_id ≡ sample_trustee.component_id)
    × (operator sample sample_trustee ≡ operator sample sample_trustee)
    × (key_id sample sample_trustee ≡ key_id sample sample_trustee)
bind_once_example =
    bind_once sample sample_trustee sample_trustee empty bound_db binds_first (stay bound_db)
      binds_again

duration-bound_example :
    (90 ≤ longest_duration) × (90 < 2 ^ 37) × ((now : ℕ) → now < 2 ^ 62 → now + 90 < 2 ^ 63)
unfolding duration strip_prefix split_once
duration-bound_example = duration-bound (codes "PT1M30S") 90 refl

-- A revocation, and the same one sent again long after it is stale.
abbrev revocation : Signed
revocation = record {
  operation = revoke_enrollment_operation;
  request_id = id64;
  target = id64;
  by = none;
  issued_at = pos 1000;
  message = [];
  signature = [];
  digest = [];
}

abbrev revokes : Step
revokes = end_enrollment sample sample_trustee revocation (pos 1000) cooling_db

abbrev step_db : Step → Db
step_db (ok (db, answer)) = db
step_db (err code) = empty

abbrev step_answer : Step → Result Reply
step_answer (ok (db, answer)) = answer
step_answer (err code) = err code

revoke_commits : revokes ≡ ok (step_db revokes, step_answer revokes)
unfolding end_enrollment end_new transaction load_current_enrollment current text_eq
    verify_signature verify recorded_outcome find_outcome find record_outcome insert bury update
    ended_status check_fresh abs ◌-ℤ◌ pos_part neg_part scope_key decimal
revoke_commits = refl

revoke_clock : (step_db revokes).high_water ≤ℤ pos 4000
unfolding end_enrollment end_new transaction load_current_enrollment current text_eq
    verify_signature verify recorded_outcome find_outcome find record_outcome insert bury update
    ended_status check_fresh abs ◌-ℤ◌ pos_part neg_part scope_key decimal
revoke_clock = omega arith

end_enrollment_again_example :
    end_enrollment sample sample_trustee revocation (pos 4000) (step_db revokes)
    ≡ ok (step_db revokes, step_answer revokes)
end_enrollment_again_example =
    end_enrollment_again sample sample_trustee revocation (pos 1000) (pos 4000) cooling_db
      (step_db revokes) (step_answer revokes) revoke_commits revoke_clock
