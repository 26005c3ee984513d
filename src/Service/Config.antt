-- ===== src/Service/Config.antt =====
-- src/main.rs: the configuration, and the files that a service opens.
use onym_recovery_trustee.Prelude.{
  Bool, Bytes, Option, Text, codes, if◌then◌else◌, ltb, none, pos, some, ℕ, ℤ, ◌%◌, ◌*◌, ◌++◌, ◌==◌,
  ◌^◌,
}
use onym_recovery_trustee.Code.{Result, err, ok, temporarily_unavailable}
use onym_recovery_trustee.External.{External}
use onym_recovery_trustee.Service.{
  Outcome, cannot_open, demand, done, not_private, or_fail, refused_value, required, ◌>>=◌, ◌>>◌,
}
use onym_recovery_trustee.Service.Keys.{parse_keys}
use onym_recovery_trustee.Service.Urls.{public_host}
use onym_recovery_trustee.Store.{Db}
use onym_recovery_trustee.Trustee.{Limits, Trustee}
use onym_recovery_trustee.Trustee.Manifest.{Service}
use onym_recovery_trustee.Wire.Duration.{duration}
use onym_recovery_trustee.Wire.Encoding.{is_component_id}

-- What the program asks of the operating system, at one moment. `Addr` is the type of socket
-- addresses.
pub record System (Addr : Type 0) : Type 0 where
  -- `std::env::var`
  pub var : Text → Option Text
  -- `str::parse::<SocketAddr>`
  pub parse_addr : Text → Option Addr
  -- The mode that `std::fs::metadata` gives, and the text of a file.
  pub mode : Text → Option ℕ
  pub read_to_string : Text → Option Text
  -- Whether a file can be opened for writing, or created where it is missing.
  pub open_or_create : Text → Bool
  -- Whether a file can be created that is not there yet, and whether a text is written to it.
  pub create_new : Text → Bool
  pub write_all : Text → Text → Bool
  -- `Store::open`
  pub open_database : Text → Option Db
  -- `getrandom::fill`, by the number of bytes.
  pub random : ℕ → Option Bytes
  -- The whole seconds since the epoch, unless the clock stands before it.
  pub elapsed : Option ℕ

-- `DAY`
abbrev pub day : ℕ
day = 86400

-- `limits`
abbrev pub limits : ℤ → Limits
limits min_cooldown_secs = record {
  skew_secs = pos 300;
  min_cooldown_secs = min_cooldown_secs;
  max_cooldown_secs = pos (30 * day);
  max_session_lifetime_secs = pos (30 * day);
  max_attempts = 10;
  max_enrollment_term_secs = pos (2 * 365 * day);
  max_artifact_bytes = 64 * 1024;
}

-- `.filter(|&seconds| seconds > 0)`
abbrev pub positive : Option ℕ → Option ℕ
positive none = none
positive (some n) = if ltb 0 n then some n else none

-- `now`, from the seconds that have passed: `i64::try_from`.
unfoldable pub now_of : Option ℕ → Result ℤ
now_of none = err temporarily_unavailable
now_of (some secs) = if ltb secs (2 ^ 63) then ok (pos secs) else err temporarily_unavailable

pub record Config (Addr : Type 0) : Type 0 where
  pub component_id : Text
  pub key_file : Text
  pub store_path : Text
  pub bind : Addr
  pub min_cooldown_secs : ℤ
  pub service : Service

-- `mode & 0o077`
abbrev pub shared_bits : ℕ → ℕ
shared_bits mode = mode % 64

module _ {Addr : Type 0} (sys : System Addr) where
  -- `required`
  abbrev required_var : Text → Outcome Text
  required_var name = or_fail (sys.var name) (required name)

  -- `optional`
  abbrev optional_var : Text → Text → Text
  optional_var name default = elim (sys.var name) [ none ↦ default | some value ↦ value ]

  -- `store_path`
  unfoldable pub store_path : Text
  store_path = optional_var (codes "TRUSTEE_STORE_PATH") (codes "trustee.sqlite")

  abbrev pub listen_addr : Text
  listen_addr = optional_var (codes "TRUSTEE_BIND") (codes "127.0.0.1:8080")

  abbrev pub cooldown_text : Text
  cooldown_text = optional_var (codes "TRUSTEE_MIN_COOLDOWN") (codes "PT1M")

  -- `wire::duration(&min_cooldown).filter(…)`
  abbrev pub min_cooldown_of : Option ℕ
  min_cooldown_of = positive (duration cooldown_text)

  -- `Config::from_env`
  unfoldable pub from_env : Outcome (Config Addr)
  from_env = do
    component_id ← required_var (codes "TRUSTEE_COMPONENT_ID")
    demand (is_component_id component_id) (refused_value (codes "TRUSTEE_COMPONENT_ID"))
    public_url ← required_var (codes "TRUSTEE_PUBLIC_URL")
    host ← or_fail (public_host public_url) (refused_value (codes "TRUSTEE_PUBLIC_URL"))
    key_file ← required_var (codes "TRUSTEE_KEY_FILE")
    bind ← or_fail (sys.parse_addr listen_addr) (refused_value (codes "TRUSTEE_BIND"))
    min_cooldown ← or_fail min_cooldown_of (refused_value (codes "TRUSTEE_MIN_COOLDOWN"))
    done (record {
      component_id = component_id;
      key_file = key_file;
      store_path = store_path;
      bind = bind;
      min_cooldown_secs = pos min_cooldown;
      service = record {
        endpoint = public_url ++ codes "/v1/trustee";
        trust_domain = optional_var (codes "TRUSTEE_TRUST_DOMAIN") host;
        jurisdiction = optional_var (codes "TRUSTEE_JURISDICTION") (codes "none");
        contact = optional_var (codes "TRUSTEE_CONTACT") (codes "none");
      };
    })

  -- `check_private`
  unfoldable pub check_private : Text → Outcome (Unit {0})
  check_private path = do
    mode ← or_fail (sys.mode path) (cannot_open path)
    demand (shared_bits mode == 0) (not_private path)

  -- `open_store`
  unfoldable pub open_store : Text → Outcome Db
  open_store path = do
    demand (sys.open_or_create path) (cannot_open path)
    check_private path
    or_fail (sys.open_database path) (cannot_open path)

  -- `Config::trustee`
  unfoldable pub trustee_of : External → Config Addr → Outcome Trustee
  trustee_of x config = do
    check_private config.key_file
    text ← or_fail (sys.read_to_string config.key_file) (cannot_open config.key_file)
    (signing_key, hpke_key) ← parse_keys x text
    done (record {
      component_id = config.component_id;
      hpke_key = hpke_key;
      signing_key = signing_key;
      limits = limits config.min_cooldown_secs;
    })
