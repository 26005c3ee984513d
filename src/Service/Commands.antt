-- ===== src/Service/Commands.antt =====
-- src/main.rs: the commands `serve`, `keygen` and `invite`, and `main`. A command gives what it has
-- written or printed, or the message that it fails with.
use onym_recovery_trustee.Prelude.{
  List, Text, [], codes, drop, if◌then◌else◌, pos, take, text_eq, ℕ, ◌++◌, ◌∷◌,
}
use onym_recovery_trustee.External.{External}
use onym_recovery_trustee.Service.{
  Outcome, bad_lifetime, cannot_open, demand, done, failed, no_randomness, not_bound, or_fail,
  or_refused, usage, ◌>>=◌, ◌>>◌,
}
use onym_recovery_trustee.Service.Config.{
  System, from_env, limits, now_of, open_store, positive, store_path, trustee_of,
}
use onym_recovery_trustee.Service.Endpoint.{App}
use onym_recovery_trustee.Service.Keys.{key_file, parse_keys}
use onym_recovery_trustee.Store.{Db}
use onym_recovery_trustee.Store.Serving.{bind, create_invitation}
use onym_recovery_trustee.Trustee.{Trustee, key_id, max_request_bytes, operator}
use onym_recovery_trustee.Trustee.Manifest.{manifest}
use onym_recovery_trustee.Wire.Duration.{duration}

-- A service that is about to listen.
pub record Server (Addr : Type 0) : Type 0 where
  pub app : App
  pub bind : Addr
  pub body_limit : ℕ

-- What `keygen` writes and prints.
pub record Generated : Type 0 where
  pub path : Text
  pub text : Text
  pub operator_line : Text
  pub key_id_line : Text

-- The arguments of the program.
pub data Command : Type 0 where
  serves : Command
  generates invites : Text → Command

-- `match args`
unfoldable pub command : List Text → Outcome Command
command (name ∷ []) =
    if text_eq name (codes "serve")
    then done serves
    else if text_eq name (codes "invite")
    then done (invites (codes "P7D"))
    else failed usage
command (name ∷ argument ∷ []) =
    if text_eq name (codes "keygen")
    then done (generates argument)
    else if text_eq name (codes "invite")
    then done (invites argument)
    else failed usage
command _ = failed usage

module _ {Addr : Type 0} (x : External) (sys : System Addr) where
  -- `serve`, up to the router.
  unfoldable pub serve : Outcome (Server Addr)
  serve = do
    config ← from_env sys
    trustee ← trustee_of sys x config
    drawn ← or_fail (sys.random 32) no_randomness
    opened ← open_store sys config.store_path
    let (bound, store) = bind x trustee opened
    demand bound (not_bound config.store_path)
    now ← or_refused (now_of sys.elapsed)
    signed ← or_refused (manifest x trustee config.service now)
    done (record {
      app = record { trustee = trustee; store = store; service = config.service };
      bind = config.bind;
      body_limit = max_request_bytes trustee.limits;
    })

  -- `keygen`
  unfoldable pub keygen : Text → Outcome Generated
  keygen path = do
    seeds ← or_fail (sys.random 64) no_randomness
    let text = key_file x (take 32 seeds) (drop 32 seeds)
    demand (sys.create_new path) (cannot_open path)
    demand (sys.write_all path text) (cannot_open path)
    (signing_key, hpke_key) ← parse_keys x text
    let trustee : Trustee = record {
      component_id = [];
      hpke_key = hpke_key;
      signing_key = signing_key;
      limits = limits (pos 0);
    }
    done (record {
      path = path;
      text = text;
      operator_line = codes "operator " ++ operator x trustee;
      key_id_line = codes "trusteeKeyId " ++ key_id x trustee;
    })

  -- `invite`: the database, and the code that is printed.
  unfoldable pub invite : Text → Outcome (Db × Text)
  invite lifetime = do
    lifetime_secs ← or_fail (positive (duration lifetime)) bad_lifetime
    store ← open_store sys (store_path sys)
    now ← or_refused (now_of sys.elapsed)
    or_refused (create_invitation x (pos lifetime_secs) now (sys.random 32) store)
