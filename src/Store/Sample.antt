-- ===== src/Store/Sample.antt =====
-- Test data: a database with one enrollment and one session, and a stand-in for the dependencies that
-- reads a request body as the name of its operation.
use onym_recovery_trustee.Prelude.{
  Bytes, Option, Text, [], codes, false, if◌then◌else◌, none, pos, some, suc, text_eq, true, zero,
  ℕ, ◌++◌, ◌∷◌,
}
use onym_recovery_trustee.External.{External}
use onym_recovery_trustee.Json.{Json, end, entry, object, str_field, string}
use onym_recovery_trustee.State.{EnrollmentStatus, SessionStatus}
use onym_recovery_trustee.Store.{Db, EnrollmentRow, SessionRow, empty}
use onym_recovery_trustee.Store.Serving.{Draws}
use onym_recovery_trustee.Trustee.{Trustee}
use onym_recovery_trustee.Wire.{SignedRequest}
use onym_recovery_trustee.Wire.Requests.{cancel_recovery_operation}

abbrev pub id64 : Text
id64 = codes "00000000000000000000000000000000" ++ codes "00000000000000000000000000000000"

abbrev pub zeros : ℕ → Bytes
zeros zero = []
zeros (suc n) = 0 ∷ zeros n

abbrev pub component : Text
component = codes "onym:component:t"

abbrev document : Bytes → Json
document body =
    object (entry (codes "operation") (string body) (entry (codes "signature") (string []) end))

-- A reader that knows one operation, and takes every other body for `own`.
abbrev pub reads : Json → Text → Bytes → Json
reads own operation body = if text_eq body operation then document body else own

abbrev pub signed_request : Json → SignedRequest
signed_request v = record {
  request_version = 1;
  operation = str_field v (codes "operation");
  request_id = id64;
  component_id = component;
  issued_at = codes "now";
  enrollment_id = none;
  session_id = some id64;
  by =
      if text_eq (str_field v (codes "operation")) cancel_recovery_operation
      then some (codes "holder")
      else none;
}

abbrev pub sample : External
sample = record {
  read_events = λ body. some (document body, []);
  at_end = λ rest. true;
  from_slice = λ body. some (document body);
  to_vec = λ v. [];
  decode_envelope = λ v. none;
  decode_artifact = λ v. none;
  decode_session = λ v. none;
  decode_evidence = λ v. none;
  decode_challenge = λ v. none;
  decode_enroll = λ v. none;
  decode_begin = λ v. none;
  decode_signed = λ v. some (signed_request v);
  encode_receipt = λ r. end;
  encode_approval = λ a. end;
  base64_decode = λ t. some (zeros 64);
  base64_encode = λ b. [];
  hex_decode = λ t. some (zeros 32);
  hex_encode = λ b. id64;
  parse_rfc3339 = λ t. some (pos 1000);
  format_rfc3339 = λ s. some (codes "now");
  sha256 = λ b. b;
  is_point = λ k. true;
  is_weak = λ k. false;
  verify_strict = λ k m s. true;
  ed25519_sign = λ k m. [];
  verifying_key = λ k. k;
  hpke_public = λ k. true;
  hpke_encapped = λ k. true;
  hpke_private = λ k. true;
  sk_to_pk = λ k. k;
  single_shot_seal = λ e r i p. some ([], p);
  single_shot_open = λ k e i c. some c;
}

abbrev pub sample_trustee : Trustee
sample_trustee = record {
  component_id = component;
  hpke_key = zeros 32;
  signing_key = zeros 32;
  limits = record {
    skew_secs = pos 300;
    min_cooldown_secs = pos 60;
    max_cooldown_secs = pos 6000;
    max_session_lifetime_secs = pos 9000;
    max_attempts = 5;
    max_enrollment_term_secs = pos 100000;
    max_artifact_bytes = 1000;
  };
}

abbrev pub sample_draws : Draws
sample_draws = record { id_bytes = none; trial = []; ephemeral = [] }

abbrev pub enrolled_row : EnrollmentStatus → Option Bytes → EnrollmentRow
enrolled_row status custody = record {
  enrollment_id = id64;
  sequence = 1;
  status = status;
  challenge = id64;
  request_digest = [];
  enrollment = record {
    context = record {
      implementation_profile_id = [];
      enrollment_id = id64;
      enrollment_sequence = 1;
      policy_digest = [];
      artifact_id = [];
      artifact_digest = [];
      trustee_component_id = component;
      slot = [];
      trustee_challenge = id64;
      authorization_key_digest = [];
    };
    identity_binding_commitment = [];
    member_index = 0;
    member_threshold = 2;
    member_count = 3;
    policy = record {
      factor_key = [];
      cooldown_secs = pos 100;
      session_lifetime_secs = pos 1000;
      maximum_attempts = 3;
    };
    created_at = pos 0;
    expires_at = pos 5000;
    authorization_key = zeros 32;
  };
  attempts_used = 1;
  stored_at = pos 500;
  sealed_envelope = custody;
  protected_artifact = custody;
}

abbrev pub sample_session : SessionStatus → Option Bytes → SessionRow
sample_session status contribution = record {
  session_id = id64;
  enrollment_id = id64;
  sequence = 1;
  status = status;
  request = [];
  proof_key = zeros 32;
  destination_keys_digest = [];
  cooldown_ends_at = pos 900;
  expires_at = pos 1500;
  remaining_attempts = 2;
  created_at = pos 800;
  contribution = contribution;
}

abbrev pub sample_db : EnrollmentRow → SessionRow → Db
sample_db row session = record empty {
  high_water = pos 950;
  enrollments = row ∷ [];
  sessions = session ∷ [];
}
