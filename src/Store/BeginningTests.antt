-- ===== src/Store/BeginningTests.antt =====
-- A session that begins, under the enrolled factor.
use mathlib.Core.Path.{subst}
use onym_recovery_trustee.Code.{Result, err, ok}
use onym_recovery_trustee.Crypto.{seal, verify}
use onym_recovery_trustee.External.{External}
use onym_recovery_trustee.Json.{
  get_field, is_object, null, str_field, take_field, take_string, without_field,
}
use onym_recovery_trustee.Json.Unique.{visit}
use onym_recovery_trustee.Prelude.{
  [], abs, arith, codes, neg_part, none, pos, pos_part, refl, some, strip_prefix, sym, text_eq,
  ◌++◌, ◌+ℤ◌, ◌-ℤ◌, ◌∷◌, ◌≡◌, ◌≤ℤ◌,
}
use onym_recovery_trustee.State.{accepted, admit, cooling_down, release, usable, vetoed}
use onym_recovery_trustee.Store.{
  Db, EnrollmentRow, Reply, SessionRow, Step, empty, issued, settle, transaction,
}
use onym_recovery_trustee.Store.AcceptingTests.{context}
use onym_recovery_trustee.Store.Beginning.{Begun, begin_recovery-Begun}
use onym_recovery_trustee.Store.BeginningAgain.{begin_recovery_again}
use onym_recovery_trustee.Store.HandoverTests.{documents, tagged}
use onym_recovery_trustee.Store.Receipts.{
  begun_receipt, outcome_receipt, session_base, session_receipt,
}
use onym_recovery_trustee.Store.Recovering.{
  begin_attempt, begin_new, begin_recovery, by_holder, cancel_new, cancel_recovery, count_attempt,
  set_session,
}
use onym_recovery_trustee.Store.Requests.{
  check_fresh, record_outcome, recorded_outcome, scope_key, spend_nonce, time, verify_signature,
}
use onym_recovery_trustee.Store.Runs.{after, request, stay}
use onym_recovery_trustee.Store.Sample.{
  enrolled_row, id64, reads, sample_draws, sample_session, sample_trustee,
}
use onym_recovery_trustee.Store.Serving.{
  dispatch, handle, handle_step, refusal, serve_signed, with_signed,
}
use onym_recovery_trustee.Store.Tables.{
  current, find, insert, load_current_enrollment, load_enrollment, load_session, select, update,
}
use onym_recovery_trustee.Trustee.{binds}
use onym_recovery_trustee.Trustee.Sessions.{
  check_factor, read_evidence, verify_core, verify_session,
}
use onym_recovery_trustee.Wire.{factor_ed25519_session}
use onym_recovery_trustee.Wire.Digests.{destination_keys_digest}
use onym_recovery_trustee.Wire.Documents.{canonical, digest, parse}
use onym_recovery_trustee.Wire.Encoding.{
  format_timestamp, hex32, is_digest, sequence, signature, timestamp,
}
use onym_recovery_trustee.Wire.Receipts.{about}
use onym_recovery_trustee.Wire.Requests.{cancel_recovery_operation, signed_parse, signed_target}

abbrev factored : External
factored = record tagged {
  read_events = λ body. some (reads documents cancel_recovery_operation body, []);
  from_slice = λ body. some (reads documents cancel_recovery_operation body);
  decode_begin = λ v. some (record { request_version = 1; session = null });
  decode_evidence =
      λ v. some (record { factor = factor_ed25519_session ++ id64; signature = [] } ∷ []);
}

abbrev held_row : EnrollmentRow
held_row = record (enrolled_row accepted (some [])) {
  enrollment = record (enrolled_row accepted none).enrollment { context = context };
}

abbrev quiet_db : Db
quiet_db = record empty { high_water = pos 700; enrollments = held_row ∷ [] }

abbrev begins : Step
begins = begin_recovery factored sample_trustee null (pos 800) [] quiet_db

abbrev begun_session : SessionRow
begun_session = record (sample_session cooling_down none) {
  destination_keys_digest = codes "sha256:" ++ id64;
  expires_at = pos 1000;
  remaining_attempts = 1;
}

abbrev begun_db : Db
begun_db = record quiet_db {
  high_water = pos 800;
  enrollments = record held_row { attempts_used = 2 } ∷ [];
  sessions = begun_session ∷ [];
}

abbrev reply_or : Result Reply → Reply
reply_or (ok reply) = reply
reply_or (err code) =
    issued (record { challenge = []; component_id = []; expires_at = []; trustee_key_id = [] })

abbrev begun_answer : Step → Result Reply
begun_answer (ok (db, answer)) = answer
begun_answer (err code) = err code

commits : begins ≡ ok (begun_db, begun_answer begins)
unfolding begin_recovery begin_new begin_attempt count_attempt transaction load_session find admit
    usable binds load_current_enrollment current insert update verify_session verify_core parse
    visit is_object take_string take_field without_field get_field text_eq read_evidence timestamp
    format_timestamp hex32 sequence is_digest strip_prefix signature verify seal check_factor ◌+ℤ◌
    ◌-ℤ◌ abs pos_part neg_part canonical destination_keys_digest digest
commits = refl

session-found : load_session begun_db id64 ≡ some begun_session
unfolding load_session find text_eq
session-found = refl

none-before : load_session quiet_db id64 ≡ none
unfolding load_session find
none-before = refl

begin_recovery-Begun_example :
    Begun factored sample_trustee (pos 800) quiet_db null [] begun_session
begin_recovery-Begun_example =
    begin_recovery-Begun factored sample_trustee (pos 800) quiet_db begun_db id64 begun_session null
      [] (begun_answer begins) none-before session-found commits

begun_reply : begins ≡ ok (begun_db, ok (reply_or (begun_answer begins)))
unfolding begin_recovery begin_new begin_attempt count_attempt transaction load_session find admit
    usable binds load_current_enrollment current insert update verify_session verify_core parse
    visit is_object take_string take_field without_field get_field text_eq read_evidence timestamp
    format_timestamp hex32 sequence is_digest strip_prefix signature verify seal check_factor ◌+ℤ◌
    ◌-ℤ◌ abs pos_part neg_part canonical destination_keys_digest digest session_receipt
    begun_receipt session_base load_enrollment time about
begun_reply = refl

-- The holder vetoes the session before the candidate sends the request again.
abbrev stopped_db : Db
stopped_db = after factored sample_trustee cancel_recovery_operation sample_draws (pos 900) begun_db

vetoed_meanwhile :
    (load_session stopped_db id64 ≡ some (record begun_session { status = vetoed }))
    × (stopped_db.high_water ≡ pos 900)
unfolding handle handle_step dispatch with_signed serve_signed load_session find text_eq settle
    parse visit is_object str_field get_field take_string signature signed_target timestamp hex32
    signed_parse transaction refusal cancel_recovery cancel_new by_holder recorded_outcome
    record_outcome insert set_session update outcome_receipt verify_signature verify check_fresh abs
    ◌-ℤ◌ ◌+ℤ◌ pos_part neg_part spend_nonce select scope_key load_enrollment release session_base
    without_field time format_timestamp
vetoed_meanwhile = (refl, refl)

late_enough : (pos 900 ≤ℤ pos 4000)
unfolding pos_part neg_part
late_enough = omega arith

begin_recovery_again_example :
    begin_recovery factored sample_trustee null (pos 4000) (1 ∷ []) stopped_db
    ≡ ok (stopped_db, ok (reply_or (begun_answer begins)))
begin_recovery_again_example =
    begin_recovery_again factored sample_trustee null [] (1 ∷ []) (pos 800) (pos 4000) quiet_db
      begun_db stopped_db (reply_or (begun_answer begins)) (λ key info plaintext. refl) begun_reply
      (request begun_db begun_db cancel_recovery_operation sample_draws (pos 900) (stay begun_db))
      (subst (λ n. n ≤ℤ pos 4000) (sym vetoed_meanwhile.1) late_enough)
