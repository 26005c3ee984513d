-- ===== src/Service/Starting.antt =====
-- src/main.rs: what holds of a service that has started.
use mathlib.Core.Path.{subst}
use onym_recovery_trustee.Prelude.{
  Bool-cases, Bytes, Option, Text, ap, arith, codes, inl, inr, neg_part, none, pos, pos_part, refl,
  some, true, ℕ, ℤ, ◌%◌, ◌*◌, ◌++◌, ◌+ℤ◌, ◌<ℤ◌, ◌==◌, ◌∙◌, ◌≡◌, ◌≤ℤ◌, ◌≤◌,
}
use onym_recovery_trustee.Code.{ok}
use onym_recovery_trustee.External.{External}
use onym_recovery_trustee.Service.{
  Failure, demand, demand-done, done, done-injective, not_private, or_fail-step, or_refused,
  or_refused-done, step-done,
}
use onym_recovery_trustee.Service.Commands.{Server, serve}
use onym_recovery_trustee.Service.Config.{
  Config, System, check_private, cooldown_text, from_env, limits, listen_addr, min_cooldown_of,
  now_of, open_store, positive, store_path, trustee_of,
}
use onym_recovery_trustee.Service.Keys.{key_file, parse_keys}
use onym_recovery_trustee.Service.Urls.{HasHost, public_host, public_host_iff}
use onym_recovery_trustee.Store.{Db}
use onym_recovery_trustee.Store.AcceptingTests.{context}
use onym_recovery_trustee.Store.Binding.{IsBound, bind-IsBound}
use onym_recovery_trustee.Store.Distinct.{named}
use onym_recovery_trustee.Store.Serving.{bind}
use onym_recovery_trustee.Trustee.{Enrollment, Trustee, accept_enrollment}
use onym_recovery_trustee.Trustee.Accepting.{Admitted, accept_enrollment-Accepted}
use onym_recovery_trustee.Trustee.Manifest.{manifest}
use onym_recovery_trustee.Wire.{EnrollmentContext, ShareEnvelope}
use onym_recovery_trustee.Wire.Duration.{duration}
use onym_recovery_trustee.Wire.Encoding.{is_component_id}

-- A file that neither the group nor others can reach.
pub record IsPrivate {Addr : Type 0} (sys : System Addr) (path : Text) : Type 0 where
  pub file_mode : ℕ
  pub known : sys.mode path ≡ some file_mode
  pub owner_only : file_mode % 64 ≡ 0

-- What a configuration takes from the environment.
pub record Configured {Addr : Type 0} (sys : System Addr) (config : Config Addr) : Type 0 where
  pub url : Text
  pub host : Text
  pub cooldown : ℕ
  pub component : sys.var (codes "TRUSTEE_COMPONENT_ID") ≡ some config.component_id
  pub well_named : is_component_id config.component_id ≡ true
  pub public_url : sys.var (codes "TRUSTEE_PUBLIC_URL") ≡ some url
  pub hosted : HasHost url host
  pub reached : config.service.endpoint ≡ url ++ codes "/v1/trustee"
  pub keys : sys.var (codes "TRUSTEE_KEY_FILE") ≡ some config.key_file
  pub database : config.store_path ≡ store_path sys
  pub floor : config.min_cooldown_secs ≡ pos cooldown
  pub some_cooldown : 1 ≤ cooldown

-- A service that has started.
pub record Started {Addr : Type 0} (x : External) (sys : System Addr) (server : Server Addr)
    : Type 0 where
  pub config : Config Addr
  pub now : ℤ
  pub signed : Bytes
  pub configured : Configured sys config
  pub same_service : server.app.service ≡ config.service
  pub same_component : server.app.trustee.component_id ≡ config.component_id
  pub same_limits : server.app.trustee.limits ≡ limits config.min_cooldown_secs
  pub private_keys : IsPrivate sys config.key_file
  pub private_store : IsPrivate sys config.store_path
  pub bound : IsBound x server.app.trustee server.app.store
  pub clock : now_of sys.elapsed ≡ ok now
  pub described : manifest x server.app.trustee server.app.service now ≡ ok signed

positive-some : (o : Option ℕ) (n : ℕ) → positive o ≡ some n → 1 ≤ n
positive-some none n h = cc
positive-some (some m) n h = ground (arith, h)

zero_test : (n : ℕ) (failure : Failure) → demand (n == 0) failure ≡ done tt → n ≡ 0
zero_test n failure h = elim (Bool-cases (n == 0)) [
  | inl e ↦ ground (arith, e)
  | inr e ↦ absurd (ground (arith, e, h))
]

module _ {Addr : Type 0} (sys : System Addr) where
  check_private-IsPrivate : (path : Text) → check_private sys path ≡ done tt → IsPrivate sys path
  unfolding check_private
  check_private-IsPrivate path h =
      let (file_mode, a, h1) = or_fail-step (sys.mode path) _ _ h in
      record {
        file_mode = file_mode;
        known = a;
        owner_only = zero_test (file_mode % 64) (not_private path) h1;
      }

  from_env-Configured : (config : Config Addr) → from_env sys ≡ done config → Configured sys config
  unfolding from_env
  from_env-Configured config h =
      let (component_id, a, h1) = or_fail-step (sys.var (codes "TRUSTEE_COMPONENT_ID")) _ _ h in
      let (named, h2) = demand-done (is_component_id component_id) _ _ h1 in
      let (url, b, h3) = or_fail-step (sys.var (codes "TRUSTEE_PUBLIC_URL")) _ _ h2 in
      let (host, c, h4) = or_fail-step (public_host url) _ _ h3 in
      let (key_file, d, h5) = or_fail-step (sys.var (codes "TRUSTEE_KEY_FILE")) _ _ h4 in
      let (address, f, h6) = or_fail-step (sys.parse_addr (listen_addr sys)) _ _ h5 in
      let (cooldown, g, h7) = or_fail-step (min_cooldown_of sys) _ _ h6 in
      subst (Configured sys) (done-injective h7) (record {
        url = url;
        host = host;
        cooldown = cooldown;
        component = a;
        well_named = named;
        public_url = b;
        hosted = (public_host_iff url host).0 c;
        reached = refl;
        keys = d;
        database = refl;
        floor = refl;
        some_cooldown = positive-some (duration (cooldown_text sys)) cooldown g;
      })

  -- What the trustee takes from its configuration.
  record Keyed (config : Config Addr) (t : Trustee) : Type 0 where
    pub same_component : t.component_id ≡ config.component_id
    pub same_limits : t.limits ≡ limits config.min_cooldown_secs
    pub private_keys : IsPrivate sys config.key_file

  trustee_of-Keyed :
      (x : External) (config : Config Addr) (t : Trustee)
      → trustee_of sys x config ≡ done t
      → Keyed config t
  unfolding trustee_of
  trustee_of-Keyed x config t h =
      let (_, a, h1) = step-done (check_private sys config.key_file) _ h in
      let (text, b, h2) = or_fail-step (sys.read_to_string config.key_file) _ _ h1 in
      let (keys, c, h3) = step-done (parse_keys x text) _ h2 in
      subst (Keyed config) (done-injective h3) (record {
        same_component = refl;
        same_limits = refl;
        private_keys = check_private-IsPrivate config.key_file a;
      })

  open_store-IsPrivate :
      (path : Text) (db : Db) → open_store sys path ≡ done db → IsPrivate sys path
  unfolding open_store
  open_store-IsPrivate path db h =
      let (_, h1) = demand-done (sys.open_or_create path) _ _ h in
      let (_, a, h2) = step-done (check_private sys path) _ h1 in check_private-IsPrivate path a

  -- A service that starts has a component ID of its form, an endpoint below
  -- TRUSTEE_PUBLIC_URL, a cooldown floor of a second or more, a key file and a database that neither the
  -- group nor others can reach, a database whose identity is this trustee's, a clock that is an i64, and
  -- a manifest.
  pub serve-Started :
      (x : External) (server : Server Addr) → serve x sys ≡ done server → Started x sys server
  unfolding serve
  serve-Started x server h =
      let (config, a, h1) = step-done (from_env sys) _ h in
      let (t, b, h2) = step-done (trustee_of sys x config) _ h1 in
      let (_, _, h3) = or_fail-step (sys.random 32) _ _ h2 in
      let (db, c, h4) = step-done (open_store sys config.store_path) _ h3 in
      let (ours, h5) = demand-done (bind x t db).0 _ _ h4 in
      let (now, d, h6) = step-done (or_refused (now_of sys.elapsed)) _ h5 in
      let (signed, f, h7) = step-done (or_refused (manifest x t config.service now)) _ h6 in
      let keyed = trustee_of-Keyed x config t b in
      subst (Started x sys) (done-injective h7) (record {
        config = config;
        now = now;
        signed = signed;
        configured = from_env-Configured config a;
        same_service = refl;
        same_component = keyed.same_component;
        same_limits = keyed.same_limits;
        private_keys = keyed.private_keys;
        private_store = open_store-IsPrivate config.store_path db c;
        bound = bind-IsBound x t db ours;
        clock = or_refused-done (now_of sys.elapsed) d;
        described = or_refused-done (manifest x t config.service now) f;
      })

-- The terms that every enrollment of a started service has.
pub record HasTerms (now : ℤ) (e : Enrollment) : Type 0 where
  pub some_cooldown : pos 1 ≤ℤ e.policy.cooldown_secs
  pub outlives : e.policy.cooldown_secs <ℤ e.policy.session_lifetime_secs
  pub lifetime : e.policy.session_lifetime_secs ≤ℤ pos (30 * 86400)
  pub some_attempt : 1 ≤ e.policy.maximum_attempts
  pub attempts : e.policy.maximum_attempts ≤ 10
  pub unexpired : now <ℤ e.expires_at
  pub in_term : e.expires_at ≤ℤ now +ℤ pos (730 * 86400)

Admitted-HasTerms :
    (x : External) (v : ShareEnvelope) (context : EnrollmentContext) (now : ℤ) (e : Enrollment)
    (cooldown : ℕ)
    → 1 ≤ cooldown
    → Admitted x (limits (pos cooldown)) v context now e
    → HasTerms now e
unfolding pos_part neg_part
Admitted-HasTerms x v context now e cooldown some_cooldown a =
    let w = a.within in
    record {
      some_cooldown = let c = w.shortest_cooldown in omega (arith, c, some_cooldown);
      outlives = w.outlives;
      lifetime = w.lifetime;
      some_attempt = w.some_attempt;
      attempts = w.attempts;
      unexpired = a.unexpired;
      in_term = a.in_term;
    }

-- A service that has started accepts an enrollment only with a policy of at least a second of cooldown,
-- a longer session lifetime of at most 30 days, and 1 to 10 attempts, and with an expiry after now, at
-- most 730 days away.
pub started-HasTerms :
    {Addr : Type 0} (x : External) (sys : System Addr) (server : Server Addr)
    (context : EnrollmentContext) (sealed : Bytes) (now : ℤ) (e : Enrollment)
    → serve x sys ≡ done server
    → accept_enrollment x server.app.trustee context sealed now ≡ ok e
    → HasTerms now e
started-HasTerms x sys server context sealed now e h k =
    let s = serve-Started sys x server h in
    let a = accept_enrollment-Accepted x server.app.trustee context sealed now e k in
    let c = s.configured in
    let floor : server.app.trustee.limits ≡ limits (pos c.cooldown) =
      s.same_limits ∙ ap limits c.floor in
    Admitted-HasTerms x a.envelope context now e c.cooldown c.some_cooldown
      (subst (λ l. Admitted x l a.envelope context now e) floor a.admitted)
