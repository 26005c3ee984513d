-- ===== src/Lib.antt =====
-- The recovery trustee: a service that keeps one sealed SLIP-0039 share of an identity and hands it,
-- resealed, to a candidate whose session has outlived its cooldown without a veto of the holder.
--
-- The parts, and the files that model them:
--
-- - src/state.rs, the decisions on time and status: State (types, `admit`, `release`), State/Names
--   (the stored names), State/Releasing and State/Admitting (when they say yes).
-- - src/wire.rs, the documents: Code (the error codes, and results that carry one), Json (documents as
--   serde_json holds them) with Json/Unique (the visitor that refuses duplicate keys) and Json/Fields,
--   Wire (the records) with Wire/Documents (`parse`, `canonical`, `digest`, `sign_object`),
--   Wire/Encoding, Wire/Duration, Wire/Digests, Wire/Requests (`Signed::parse`) and Wire/Receipts.
-- - src/crypto.rs: Crypto. src/slip39.rs and src/wordlist.txt: Slip39 with its Words and
--   Checksum, and Slip39/Validating.
-- - src/lib.rs, what a trustee does with a document: Trustee (acceptance of an enrollment and its
--   artifact), Trustee/Sessions (`verify_session`, `check_factor`, `release`) and Trustee/Manifest;
--   Trustee/Verifying and Trustee/Factors say what a candidate has signed, Trustee/Trials
--   compares two runs of the trial seal, and Trustee/Releases follows a share from the holder's envelope
--   to the candidate's key.
-- - src/store.rs, the transactions: Store (the tables as lists of rows, commit and roll-back), with
--   Store/Tables (the SQL statements), Store/Requests (signatures, freshness, nonces, outcomes),
--   Store/Receipts, Store/Enrolling, Store/Recovering, Store/Ending and Store/Serving (`handle`, `bind`,
--   `create_invitation`). Store/Escrow is an abstract specification, without tables or documents, and
--   Store/Refinement relates the database to it. Store/Keeping follows the row of an enrollment through
--   later requests, for Store/EnrollingAgain and Store/BeginningAgain, which are about requests that are
--   sent again.
-- - src/main.rs, the service: Service (the messages that a command fails with), Service/Urls
--   (`public_host`), Service/Keys (`keygen`'s file and `parse_keys`), Service/Config (`Config::from_env`,
--   the files, the clock), Service/Endpoint (the handlers of the routes) and Service/Commands (`serve`,
--   `keygen`, `invite`); Service/Starting, Service/Answering and Service/Posting say what holds
--   of a running service.
--
-- A request of `Store::handle` is a step: a function of the request's bytes, the randomness that it
-- draws, the clock and the database. A step either fails and leaves the database as it was, or gives
-- the database that is committed and, apart from that, an answer, which may be an error of its own:
-- the source commits before it builds a receipt. Store/Commit is a relation with one constructor for
-- each way that a request commits; its child files prove that every handler is in it, and Store/Runs
-- follows sequences of requests and invitations by it.
--
-- Every function of serde_json, base64, hex, time, SHA-256, Ed25519 and HPKE that the program calls is
-- a field of the record `External`, and is a parameter throughout. The derived serializers and
-- deserializers are among these fields. Randomness is an argument. Three facts are assumed where a
-- theorem names them: that HPKE opens for a key pair what it seals for it (`IsKeyPair`), that hex
-- reads back what it writes (`IsKey`), and that HPKE seals or fails whatever bytes it draws. The
-- environment, the files, the clock and the random numbers of the host are the record `System`, which
-- stands for one moment: no file changes while a command runs.
--
-- Numbers: sequences, counts and lengths are natural numbers; times are unbounded integers, so the
-- overflow of i64 seconds is not modelled, but for `now` of src/main.rs, which refuses a clock that is
-- no i64; Wire/Lengths bounds what a duration can add to it. `decimal`, which stands for the standard
-- library's formatting of a sequence, has fuel one above the number. No other function needs fuel.
--
-- Not modelled: SQLite's own failures, its foreign keys, migrations and set-up; the wiping of secrets
-- from memory; of src/main.rs the router with its body limit, the runtime, signals, log lines and the
-- mode with which a file is created; the tools.
mod Prelude
pub mod Code
pub mod Json
pub mod State
pub mod Wire
pub mod External
pub mod Crypto
pub mod Slip39
pub mod Trustee
pub mod Store
pub mod Service
