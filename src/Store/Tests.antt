-- ===== src/Store/Tests.antt =====
-- Runs of the store on test data.
use onym_recovery_trustee.Prelude.{
  Bytes, [], abs, arith, codes, neg_part, none, pos, pos_part, refl, some, text_eq, text_eq_iff,
  true, ◌++◌, ◌+ℤ◌, ◌-ℤ◌, ◌∷◌, ◌≡◌, ◌≤ℤ◌,
}
use onym_recovery_trustee.Code.{Code, Result, err, invalid_request, ok}
use onym_recovery_trustee.Crypto.{verify}
use onym_recovery_trustee.Json.{
  Entries, Json, end, entry, get_field, is_object, object, str_field, string, take_string,
  without_field,
}
use onym_recovery_trustee.Json.Unique.{Absent, HasUniqueKeys, visit, visit_iff}
use onym_recovery_trustee.State.{accepted, closed, cooling_down, release, released, vetoed}
use onym_recovery_trustee.Store.{Db, Reply, Step, empty, receipt, settle, transaction}
use onym_recovery_trustee.Store.Attempts.{Ledger}
use onym_recovery_trustee.Store.Contributions.{AllGuarded, Holds, Run-AllGuarded, contribution-Run}
use onym_recovery_trustee.Store.Disclosure.{Disclosed, Disclosed-read}
use onym_recovery_trustee.Store.Ledgers.{Ledger-Run}
use onym_recovery_trustee.Store.Moves.{Moved, handle-Moves, shut_session-Run}
use onym_recovery_trustee.Store.Receipts.{outcome_base, outcome_receipt, session_base}
use onym_recovery_trustee.Store.Recovering.{
  by_holder, cancel_new, cancel_recovery, read_receipt, read_recovery, serve_release, set_session,
}
use onym_recovery_trustee.Store.Replay.{read_recovery_once}
use onym_recovery_trustee.Store.Requests.{
  check_fresh, find_outcome, random_id, record_outcome, recorded_outcome, scope_key, spend_nonce,
  time, verify_signature,
}
use onym_recovery_trustee.Store.Retries.{cancel_recovery_again}
use onym_recovery_trustee.Store.Runs.{Run, after, invite, late-refused, request, stay}
use onym_recovery_trustee.Store.Sample.{
  component, enrolled_row, id64, sample, sample_db, sample_draws, sample_session, sample_trustee,
}
use onym_recovery_trustee.Store.Serving.{
  create_invitation, dispatch, handle, handle_step, refusal, serve_signed, with_signed,
}
use onym_recovery_trustee.Store.Tables.{find, insert, load_enrollment, load_session, select, update}
use onym_recovery_trustee.Store.Tombstones.{Buried, Buried-Run}
use onym_recovery_trustee.Wire.{Receipt, Signed}
use onym_recovery_trustee.Wire.Documents.{
  digest, parse, parse-HasUniqueKeys, signed_object, signed_object-take_string,
}
use onym_recovery_trustee.Wire.Encoding.{
  format_timestamp, hex32, signature, timestamp, timestamp_one_spelling,
}
use onym_recovery_trustee.Wire.Receipts.{about}
use onym_recovery_trustee.Wire.Requests.{
  cancel_recovery_operation, read_recovery_operation, signed_parse, signed_target,
}

-- The two parts of a step that commits.
abbrev committed : Step → Db
committed (ok (db, answer)) = db
committed (err code) = empty

abbrev answered : Step → Result Reply
answered (ok (db, answer)) = answer
answered (err code) = err code

abbrev cooling_db : Db
cooling_db = sample_db (enrolled_row accepted (some [])) (sample_session cooling_down none)

abbrev released_db : Db
released_db = sample_db (enrolled_row accepted (some [])) (sample_session released (some (7 ∷ [])))

abbrev vetoed_db : Db
vetoed_db = sample_db (enrolled_row accepted (some [])) (sample_session vetoed none)

abbrev closed_db : Db
closed_db = sample_db (enrolled_row closed none) (sample_session cooling_down none)

-- A veto of the holder, on the wire.
veto_found :
    load_session
      (after sample sample_trustee cancel_recovery_operation sample_draws (pos 1000) cooling_db)
      id64
    ≡ some (sample_session vetoed none)
unfolding handle handle_step dispatch with_signed serve_signed load_session find text_eq settle
    parse visit is_object str_field get_field take_string signature signed_target timestamp hex32
    signed_parse transaction refusal cancel_recovery cancel_new by_holder recorded_outcome
    record_outcome insert set_session update outcome_receipt verify_signature verify check_fresh abs
    ◌-ℤ◌ ◌+ℤ◌ pos_part neg_part spend_nonce select scope_key load_enrollment release session_base
    without_field time format_timestamp
veto_found = refl

handle-Moves_example :
    Moved id64
      (pos 1000)
      (sample_session cooling_down none)
      (after sample sample_trustee cancel_recovery_operation sample_draws (pos 1000) cooling_db)
unfolding load_session find text_eq
handle-Moves_example =
    handle-Moves sample sample_trustee cancel_recovery_operation sample_draws (pos 1000) cooling_db
      id64 (sample_session cooling_down none) refl

-- A read of a released session, and a later one of the same signed request.
abbrev poll : Signed
poll = record {
  operation = read_recovery_operation;
  request_id = id64;
  target = id64;
  by = none;
  issued_at = pos 1000;
  message = [];
  signature = [];
  digest = [];
}

abbrev polled_db : Db
polled_db = record released_db {
  high_water = pos 1000;
  nonces = record { scope = codes "session:" ++ id64; request_id = id64; seen_at = pos 1000 } ∷ [];
}

abbrev poll_answer : Result Reply
poll_answer = answered (read_recovery sample sample_trustee poll (pos 1000) [] [] released_db)

poll_answered :
    read_recovery sample sample_trustee poll (pos 1000) [] [] released_db
    ≡ ok (polled_db, poll_answer)
unfolding read_recovery transaction load_session find text_eq verify_signature verify check_fresh
    abs ◌-ℤ◌ ◌+ℤ◌ pos_part neg_part spend_nonce select scope_key load_enrollment release
    serve_release read_receipt session_base time format_timestamp parse visit is_object
poll_answered = refl

read_recovery_once_example : ¬ (
    read_recovery sample sample_trustee poll
      (pos 2000)
      []
      []
      (after sample sample_trustee cancel_recovery_operation sample_draws (pos 1900) polled_db)
    ≡ ok (empty, err invalid_request))
read_recovery_once_example =
    read_recovery_once sample sample_trustee poll (pos 1000) (pos 2000) [] [] [] [] released_db
      polled_db
      (after sample sample_trustee cancel_recovery_operation sample_draws (pos 1900) polled_db)
      poll_answer (empty, err invalid_request) poll_answered
      (request polled_db polled_db cancel_recovery_operation sample_draws (pos 1900)
        (stay polled_db))

shut_session-Run_example :
    load_session
      (after sample sample_trustee cancel_recovery_operation sample_draws (pos 1000) vetoed_db)
      id64
    ≡ some (sample_session vetoed none)
unfolding load_session find text_eq
shut_session-Run_example =
    shut_session-Run sample sample_trustee vetoed_db
      (after sample sample_trustee cancel_recovery_operation sample_draws (pos 1000) vetoed_db) id64
      (sample_session vetoed none) refl refl
      (request vetoed_db vetoed_db cancel_recovery_operation sample_draws (pos 1000)
        (stay vetoed_db))

Buried-Run_example :
    Buried id64 1
      (after sample sample_trustee cancel_recovery_operation sample_draws (pos 1000) closed_db)
unfolding find text_eq
Buried-Run_example =
    Buried-Run sample sample_trustee closed_db
      (after sample sample_trustee cancel_recovery_operation sample_draws (pos 1000) closed_db) id64
      1
      (enrolled_row closed none, refl, record { over = refl; no_share = refl; no_artifact = refl })
      (request closed_db closed_db cancel_recovery_operation sample_draws (pos 1000)
        (stay closed_db))

-- A run from the empty database: an invitation, and a request.
abbrev invited_db : Db
invited_db = record empty {
  high_water = pos 900;
  invitations =
      record { digest = codes "sha256:" ++ id64; expires_at = pos 1900; used_at = none } ∷ [];
}

invite_once : create_invitation sample (pos 1000) (pos 900) (some []) empty ≡ ok (invited_db, id64)
unfolding create_invitation random_id transaction insert find digest ◌+ℤ◌ pos_part neg_part
invite_once = refl

abbrev reached_db : Db
reached_db =
    after sample sample_trustee cancel_recovery_operation sample_draws (pos 1000) invited_db

reached : Run sample sample_trustee empty reached_db
reached =
    request empty invited_db cancel_recovery_operation sample_draws (pos 1000)
      (invite empty empty invited_db (pos 1000) (pos 900) (some []) id64 (stay empty) invite_once)

Ledger-Run_example : Ledger reached_db
Ledger-Run_example = Ledger-Run sample sample_trustee reached_db reached

Run-AllGuarded_example : AllGuarded reached_db
Run-AllGuarded_example = Run-AllGuarded sample sample_trustee reached_db reached

released-AllGuarded : AllGuarded released_db
unfolding load_session find pos_part neg_part
released-AllGuarded id s h = ground arith

contribution-Run_example :
    Holds id64
      (7 ∷ [])
      (after sample sample_trustee cancel_recovery_operation sample_draws (pos 1000) released_db)
unfolding load_session find text_eq
contribution-Run_example =
    contribution-Run sample sample_trustee released_db
      (after sample sample_trustee cancel_recovery_operation sample_draws (pos 1000) released_db)
      id64 (7 ∷ []) released-AllGuarded (sample_session released (some (7 ∷ [])), refl, refl)
      (request released_db released_db cancel_recovery_operation sample_draws (pos 1000)
        (stay released_db))

late-refused_example :
    (code : Code) × (handle sample sample_trustee cancel_recovery_operation sample_draws
        (pos 900)
        cooling_db
      ≡ (err code, cooling_db))
unfolding pos_part neg_part
late-refused_example =
    late-refused sample sample_trustee cancel_recovery_operation sample_draws (pos 900) cooling_db
      (omega arith)

abbrev receipt_of : Result Reply → Receipt
receipt_of (ok (receipt r)) = r
receipt_of _ = about component (enrolled_row accepted none).enrollment.context []

abbrev document_7 : Json
document_7 =
    object (entry (codes "operation") (string (7 ∷ [])) (entry (codes "signature") (string []) end))

poll_receipt :
    read_recovery sample sample_trustee poll (pos 1000) [] [] released_db
    ≡ ok (polled_db, ok (receipt (receipt_of poll_answer)))
unfolding read_recovery transaction load_session find text_eq verify_signature verify check_fresh
    abs ◌-ℤ◌ ◌+ℤ◌ pos_part neg_part spend_nonce select scope_key load_enrollment release
    serve_release read_receipt session_base time format_timestamp parse visit is_object
poll_receipt = refl

poll_contribution : (receipt_of poll_answer).contribution ≡ some document_7
unfolding read_recovery transaction load_session find text_eq verify_signature verify check_fresh
    abs ◌-ℤ◌ ◌+ℤ◌ pos_part neg_part spend_nonce select scope_key load_enrollment release
    serve_release read_receipt session_base time format_timestamp parse visit is_object
poll_contribution = refl

Disclosed-read_example :
    Disclosed sample sample_trustee poll (pos 1000) released_db polled_db document_7
Disclosed-read_example =
    Disclosed-read sample sample_trustee poll (pos 1000) [] [] released_db polled_db
      (receipt_of poll_answer) document_7 poll_receipt poll_contribution

-- The document of a body, read with unique keys.
visit_iff_example : HasUniqueKeys document_7
unfolding visit text_eq
visit_iff_example = (visit_iff document_7).0 refl

parse-HasUniqueKeys_example :
    (doc : Json) × (rest : Bytes) × (sample.read_events (7 ∷ []) ≡ some (doc, rest))
    × (sample.at_end rest ≡ true)
    × HasUniqueKeys doc
    × (some document_7 ≡ some document_7)
    × (is_object document_7 ≡ true)
unfolding parse visit text_eq is_object
parse-HasUniqueKeys_example = parse-HasUniqueKeys sample (7 ∷ []) document_7 refl

timestamp_one_spelling_example : codes "now" ≡ codes "now"
unfolding timestamp format_timestamp text_eq
timestamp_one_spelling_example =
    timestamp_one_spelling sample (codes "now") (codes "now") (pos 1000) refl refl

-- A veto, and the same veto sent again long after it is stale.
abbrev veto : Signed
veto = record poll { operation = cancel_recovery_operation; by = some (codes "holder") }

abbrev veto_step : Step
veto_step = cancel_recovery sample sample_trustee veto (pos 1000) cooling_db

veto_commits : veto_step ≡ ok (committed veto_step, answered veto_step)
unfolding cancel_recovery cancel_new by_holder recorded_outcome find_outcome record_outcome insert
    set_session update outcome_receipt outcome_base session_base transaction load_session find
    text_eq verify_signature verify check_fresh abs ◌-ℤ◌ ◌+ℤ◌ pos_part neg_part scope_key
    load_enrollment time format_timestamp
veto_commits = refl

veto_clock : (committed veto_step).high_water ≤ℤ pos 4000
unfolding cancel_recovery cancel_new by_holder recorded_outcome find_outcome record_outcome insert
    set_session update outcome_receipt outcome_base session_base transaction load_session find
    text_eq verify_signature verify check_fresh abs ◌-ℤ◌ ◌+ℤ◌ pos_part neg_part scope_key
    load_enrollment time format_timestamp
veto_clock = omega arith

cancel_recovery_again_example :
    cancel_recovery sample sample_trustee veto (pos 4000) (committed veto_step)
    ≡ ok (committed veto_step, answered veto_step)
cancel_recovery_again_example =
    cancel_recovery_again sample sample_trustee veto (pos 1000) (pos 4000) cooling_db
      (committed veto_step) (answered veto_step) veto_commits veto_clock

abbrev operation_7 : Entries
operation_7 = entry (codes "operation") (string (7 ∷ [])) end

operation_7-Absent : Absent (codes "signature") operation_7
unfolding text_eq
operation_7-Absent = (
  (λ h. let e = (text_eq_iff (codes "operation") (codes "signature")).1 h in ground (arith, e)),
  tt,
)

signed_object-take_string_example :
    take_string (signed_object sample operation_7 []) (codes "signature")
    ≡ some ([], object operation_7)
signed_object-take_string_example =
    signed_object-take_string sample operation_7 [] operation_7-Absent
