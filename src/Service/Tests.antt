-- ===== src/Service/Tests.antt =====
-- A service on a host whose files and variables are data, and runs of its handlers.
use onym_recovery_trustee.Prelude.{
  Bytes, List, Option, Text, [], codes, if◌then◌else◌, neg_part, none, pos, pos_part, refl, scale_ℤ,
  some, split, split_once, strip_prefix, text_eq, true, ℤ, ◌*◌, ◌++◌, ◌+ℤ◌, ◌<ℤ◌, ◌∷◌, ◌≡◌, ◌≤ℤ◌,
}
use onym_recovery_trustee.Code.{Result, ok}
use onym_recovery_trustee.Crypto.{hpke_private_key, is_usable_verifying_key, open_sealed, verify}
use onym_recovery_trustee.Json.{get_field, is_object, take_string, without_field}
use onym_recovery_trustee.Json.Unique.{visit}
use onym_recovery_trustee.Service.{Outcome, done, failed, usage}
use onym_recovery_trustee.Service.Answering.{Answers, endpoint-Answers, no_store_json}
use onym_recovery_trustee.Service.Commands.{Server, command, generates, invites, serve, serves}
use onym_recovery_trustee.Service.Config.{
  System, check_private, from_env, now_of, open_store, store_path, trustee_of,
}
use onym_recovery_trustee.Service.Endpoint.{App, endpoint, free, poisoned}
use onym_recovery_trustee.Service.Posting.{Post, replay, serve_all, serve_all-replay}
use onym_recovery_trustee.Service.Keys.{
  IsKey, carriage_return, enrollment_label, key_file, keys_of, labelled_key, line_feed, lines,
  operator_label, parse_keys, parse_keys-key_file, split_inclusive, strip_last, without_end,
}
use onym_recovery_trustee.Service.Starting.{HasTerms, Started, serve-Started, started-HasTerms}
use onym_recovery_trustee.Service.Urls.{
  HasHost, public_host, public_host_iff, split_at_text, until_char,
}
use onym_recovery_trustee.Slip39.{decode, position, read_indices, validate}
use onym_recovery_trustee.Slip39.Checksum.{rs1024_polymod}
use onym_recovery_trustee.Slip39.Words.{wordlist}
use onym_recovery_trustee.State.{accepted, cooling_down}
use onym_recovery_trustee.Store.{empty}
use onym_recovery_trustee.Store.AcceptingTests.{accepted_enrollment, context, envelope_reader}
use onym_recovery_trustee.Store.Runs.{Run, after}
use onym_recovery_trustee.Store.Sample.{
  component, enrolled_row, id64, sample, sample_db, sample_draws, sample_session, sample_trustee,
  zeros,
}
use onym_recovery_trustee.Store.Serving.{bind}
use onym_recovery_trustee.Trustee.{
  Enrollment, accept_enrollment, admit_envelope, policy, verified_envelope,
}
use onym_recovery_trustee.Trustee.Manifest.{
  manifest, manifest_period_secs, valid_until, valid_until_bounds,
}
use onym_recovery_trustee.Wire.Digests.{is_well_formed, key_digest, repeats}
use onym_recovery_trustee.Wire.Documents.{digest, parse}
use onym_recovery_trustee.Wire.Duration.{duration}
use onym_recovery_trustee.Wire.Encoding.{
  format_timestamp, hex32, hex_bytes, is_component_id, is_digest, sequence, signature, timestamp,
}
use onym_recovery_trustee.Wire.Requests.{cancel_recovery_operation}

key_file_values :
    (lines (codes "a\r\nb\n\nc") ≡ codes "a" ∷ codes "b" ∷ [] ∷ codes "c" ∷ [])
    × (lines (codes "a\r") ≡ codes "a\r" ∷ [])
    × (lines [] ≡ [])
unfolding lines split_inclusive without_end strip_last
key_file_values = (refl, refl, refl)

public_host_iff_example : HasHost (codes "https://trustee.example:8443") (codes "trustee.example")
unfolding public_host split_at_text until_char strip_prefix text_eq
public_host_iff_example =
    (public_host_iff (codes "https://trustee.example:8443") (codes "trustee.example")).0 refl

sample-IsKey : IsKey sample (zeros 32)
sample-IsKey = record { digits = refl; width = refl; decoded = refl }

parse_keys-key_file_example :
    parse_keys sample (key_file sample (zeros 32) (zeros 32)) ≡ done (zeros 32, zeros 32)
parse_keys-key_file_example =
    parse_keys-key_file sample (zeros 32) (zeros 32) sample-IsKey sample-IsKey refl

-- The lines of a key file may also end as on Windows, and the last one need not end at all.
abbrev windows_keys : Text
windows_keys = operator_label ++ id64 ++ carriage_return ∷ line_feed ∷ (enrollment_label ++ id64)

windows_keys_read : parse_keys sample windows_keys ≡ done (zeros 32, zeros 32)
unfolding parse_keys lines split_inclusive without_end strip_last labelled_key strip_prefix hex32
    hex_bytes keys_of hpke_private_key
windows_keys_read = refl

abbrev variable : Text → Option Text
variable name =
    if text_eq name (codes "TRUSTEE_COMPONENT_ID")
    then some component
    else if text_eq name (codes "TRUSTEE_PUBLIC_URL")
    then some (codes "http://localhost:8080")
    else if text_eq name (codes "TRUSTEE_KEY_FILE")
    then some (codes "keys")
    else none

abbrev host : System Text
host = record {
  var = variable;
  parse_addr = λ text. some text;
  mode = λ path. some 384;
  read_to_string = λ path. some windows_keys;
  open_or_create = λ path. true;
  create_new = λ path. true;
  write_all = λ path text. true;
  open_database = λ path. some empty;
  random = λ n. some (zeros n);
  elapsed = some 1000;
}

abbrev server_of : Outcome (Server Text) → Server Text
server_of (done server) = server
server_of (failed failure) = record {
  app = record {
    trustee = sample_trustee;
    store = empty;
    service = record { endpoint = []; trust_domain = []; jurisdiction = []; contact = [] };
  };
  bind = [];
  body_limit = 0;
}

abbrev server : Server Text
server = server_of (serve envelope_reader host)

starts : serve envelope_reader host ≡ done server
unfolding serve from_env trustee_of check_private open_store store_path bind now_of manifest text_eq
    is_component_id strip_prefix public_host split_at_text until_char duration split_once parse_keys
    lines split_inclusive without_end strip_last labelled_key hex32 hex_bytes keys_of
    hpke_private_key format_timestamp
starts = refl

serve-Started_example : Started envelope_reader host server
serve-Started_example = serve-Started host envelope_reader server starts

abbrev accepted_here : Result Enrollment
accepted_here = accept_enrollment envelope_reader server.app.trustee context (zeros 48) (pos 900)

accepts_here : accepted_here ≡ ok (accepted_enrollment accepted_here)
unfolding serve from_env trustee_of check_private open_store store_path bind now_of manifest text_eq
    is_component_id strip_prefix public_host split_at_text until_char duration split_once parse_keys
    lines split_inclusive without_end strip_last labelled_key hex32 hex_bytes keys_of
    hpke_private_key format_timestamp accept_enrollment is_well_formed sequence is_digest
    open_sealed parse visit is_object verified_envelope take_string without_field signature verify
    repeats key_digest digest admit_envelope validate decode read_indices position wordlist split
    rs1024_polymod timestamp ◌+ℤ◌ pos_part neg_part policy is_usable_verifying_key get_field
accepts_here = refl

started-HasTerms_example : HasTerms (pos 900) (accepted_enrollment accepted_here)
started-HasTerms_example =
    started-HasTerms envelope_reader host server context (zeros 48) (pos 900)
      (accepted_enrollment accepted_here) starts accepts_here

-- A service over a database that holds a session which cools down.
abbrev app : App
app = record {
  trustee = sample_trustee;
  store = sample_db (enrolled_row accepted (some [])) (sample_session cooling_down none);
  service = record { endpoint = []; trust_domain = []; jurisdiction = []; contact = [] };
}

abbrev veto_body : Option Bytes
veto_body = some cancel_recovery_operation

abbrev vetoed_app : App
vetoed_app = (endpoint sample app veto_body sample_draws (some 1000) free).1

endpoint-Answers_example :
    let (response, app') = endpoint sample app veto_body sample_draws (some 1000) free in
    Answers sample app veto_body sample_draws (some 1000) free response app'.store
    × (response.headers ≡ no_store_json)
    × (app' ≡ record app { store = app'.store })
endpoint-Answers_example = endpoint-Answers sample app veto_body sample_draws (some 1000) free

-- A veto, between a post that is rejected and one that meets a poisoned lock.
abbrev veto_post : Post
veto_post = record { body = veto_body; draws = sample_draws; elapsed = some 1000; lock = free }

abbrev posts : List Post
posts = record veto_post { lock = poisoned } ∷ veto_post ∷ record veto_post { body = none } ∷ []

serve_all-replay_example :
    ((serve_all sample app posts).store ≡ replay sample sample_trustee app.store posts)
    × Run sample sample_trustee app.store (serve_all sample app posts).store
    × ((serve_all sample app posts).trustee ≡ sample_trustee)
    × ((serve_all sample app posts).service ≡ app.service)
serve_all-replay_example = serve_all-replay sample app posts

replay-posts :
    replay sample sample_trustee app.store posts
    ≡ after sample sample_trustee cancel_recovery_operation sample_draws (pos 1000) app.store
unfolding replay
replay-posts = refl

valid_until_bounds_example :
    (pos 1000 +ℤ pos (2 * manifest_period_secs) <ℤ valid_until (pos 1000))
    × (valid_until (pos 1000) ≤ℤ pos 1000 +ℤ pos (3 * manifest_period_secs))
    × ((k : ℤ) × (valid_until (pos 1000) ≡ scale_ℤ k manifest_period_secs))
valid_until_bounds_example = valid_until_bounds (pos 1000)

-- The arguments of the commands.
command_values :
    (command (codes "serve" ∷ []) ≡ done serves)
    × (command (codes "invite" ∷ []) ≡ done (invites (codes "P7D")))
    × (command (codes "keygen" ∷ codes "keys" ∷ []) ≡ done (generates (codes "keys")))
    × (command [] ≡ failed usage)
unfolding command text_eq
command_values = (refl, refl, refl, refl)
