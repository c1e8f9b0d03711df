-- ===== src/Config/Defaults.antt =====
-- internal/config/config.go: Load, without the file and its decoding.
pub mod Filling
pub mod Filled
use multirunner.Common.{
  ℕ, zero, suc, ◌+◌, ◌-◌, Bool, true, false, not, ◌&&◌, ◌||◌, Option, none, some, List, [], ◌∷◌,
  ◌++◌, ◌==◌, if◌then◌else◌, length, Text, codes, text_eq, starts_with, ℤ, pos, negsuc, is_zero,
}
use multirunner.Config.Scope.{Scope, scope_repos}
use multirunner.Config.Strings.{trim_space}
use multirunner.Config.Types.{
  Provisioning, unset_mode, pool_mode, scaleset_mode, is_autoscale, is_scaleset, GitHub, Auth,
  ContainerConfig, Pool, Webhook, Cache, GitCache, is_enabled, Log, Config,
}
use multirunner.Config.Checks.{Error}
use multirunner.Config.Pools.{Outside, is_qemu}
use multirunner.Config.Images.{minimal}
use multirunner.Config.Validate.{validate, is_repos}
use multirunner.Pool.Access.{is_empty}

-- `strings.TrimPrefix` and `strings.TrimSuffix` by one byte.
abbrev pub trim_prefix : ℕ → Text → Text
trim_prefix p [] = []
trim_prefix p (c ∷ s) = if c == p then s else c ∷ s

abbrev pub trim_suffix : ℕ → Text → Text
trim_suffix p [] = []
trim_suffix p (c ∷ []) = if c == p then [] else c ∷ []
trim_suffix p (c ∷ d ∷ s) = c ∷ trim_suffix p (d ∷ s)

-- What os.LookupEnv gives, or else "".
abbrev pub or_empty : Option Text → Text
or_empty none = []
or_empty (some s) = s

-- expandEnvRef, with the environment as a function.
unfoldable pub expand_env_ref : (Text → Option Text) → Text → Text
expand_env_ref environment v =
    if not (starts_with v (36 ∷ []))
    then v
    else or_empty (environment (trim_suffix 125 (trim_prefix 123 (trim_prefix 36 v))))

-- resolveSecrets
unfoldable pub resolve_secrets : (Text → Option Text) → Config → Config
unfolding expand_env_ref
resolve_secrets environment c = record c {
  auth = record c.auth {
    pat = expand_env_ref environment c.auth.pat;
    private_key_path = expand_env_ref environment c.auth.private_key_path;
    token_path = expand_env_ref environment c.auth.token_path;
  };
  webhook = record c.webhook { secret = expand_env_ref environment c.webhook.secret };
  cache = record c.cache { access_token = expand_env_ref environment c.cache.access_token };
}

abbrev pub or_text : Text → Text → Text
or_text default s = if is_empty s then default else s

abbrev pub or_int : ℕ → ℤ → ℤ
or_int default n = if is_zero n then pos default else n

unfoldable pub trimmed : List Text → List Text
trimmed [] = []
trimmed (s ∷ strings) = trim_space s ∷ trimmed strings

-- The first part of applyDefaults.
unfoldable pub default_github : GitHub → GitHub
unfolding trimmed
default_github gh = record gh {
  owner = trim_space gh.owner;
  repos = trimmed gh.repos;
  url = or_text (codes "https://github.com") gh.url;
}

-- if c.Provisioning == "" { ... }
unfoldable pub default_provisioning : Option Scope → Provisioning → Provisioning
default_provisioning scope unset_mode = if is_repos scope then pool_mode else scaleset_mode
default_provisioning scope mode = mode

-- if c.Provisioning.IsScaleset() { ... }
unfoldable pub default_scale_set : Bool → Pool → Pool
default_scale_set true p = record p { scale_set = or_text p.name p.scale_set }
default_scale_set false p = p

-- if c.Provisioning.IsAutoscale() { ... }
unfoldable pub default_webhook : Bool → Webhook → Webhook
default_webhook true w = record w {
  path = or_text (codes "/webhook") w.path;
  poll_interval_sec = or_int 300 w.poll_interval_sec;
}
default_webhook false w = w

unfoldable pub default_log : Log → Log
default_log l = record {
  level = or_text (codes "info") l.level;
  format = or_text (codes "text") l.format;
}

-- if c.Cache.Enabled { ... }
unfoldable pub default_cache : Cache → Cache
default_cache c =
    if c.enabled
    then record c {
      mode = or_text (codes "local-server") c.mode;
      storage = or_text (codes "filesystem") c.storage;
      listen = or_text (codes "0.0.0.0:3000") c.listen;
      upstream =
          or_text (codes "https://results-receiver.actions.githubusercontent.com") c.upstream;
      max_age_days = or_int 7 c.max_age_days;
      gc_interval_sec = or_int 3600 c.gc_interval_sec;
    }
    else c

unfoldable pub default_git_cache : GitCache → GitCache
unfolding is_enabled
default_git_cache g =
    if is_enabled g then record g { max_age_days = or_int 30 g.max_age_days } else g

-- An address in its canonical form, and anything else as it is.
abbrev pub canonical : Option Text → Text → Text
canonical none server = server
canonical (some ip) server = ip

unfoldable pub default_dns : Outside → List Text → List Text
default_dns env [] = []
default_dns env (server ∷ servers) =
    canonical (env.parse_ip server) server ∷ default_dns env servers

-- The body of the last loop of applyDefaults.
unfoldable pub default_pool : Outside → Pool → Pool
unfolding default_dns
default_pool env p = record p {
  size = or_int 1 p.size;
  work_folder = or_text (codes "_work") p.work_folder;
  name_prefix = or_text (codes "multirunner") p.name_prefix;
  runner_group_id = or_int 1 p.runner_group_id;
  image_tier = or_text minimal p.image_tier;
  max_consecutive_failures = or_int 5 p.max_consecutive_failures;
  container = record p.container { dns = default_dns env p.container.dns };
}

-- The loop over the scale sets, and then the one over the rest.
unfoldable pub default_pools : Outside → Bool → List Pool → List Pool
unfolding default_pool default_scale_set
default_pools env scaleset [] = []
default_pools env scaleset (p ∷ pools) =
    default_pool env (default_scale_set scaleset p) ∷ default_pools env scaleset pools

-- applyDefaults
unfoldable pub apply_defaults : Outside → Config → Config
unfolding default_github default_provisioning default_webhook default_log default_cache
    default_git_cache default_pools is_scaleset is_autoscale
apply_defaults env c =
    let mode = default_provisioning c.github.scope c.provisioning in
    record c {
      github = default_github c.github;
      provisioning = mode;
      webhook = default_webhook (is_autoscale mode) c.webhook;
      log = default_log c.log;
      cache = default_cache c.cache;
      git_cache = default_git_cache c.git_cache;
      pools = default_pools env (is_scaleset mode) c.pools;
    }

-- Load, from the decoded file on: the error, or the configuration.
unfoldable pub load : (Text → Option Text) → Outside → Config → Option Error × Config
unfolding resolve_secrets apply_defaults validate
load environment env c =
    let ready = apply_defaults env (resolve_secrets environment c) in (validate env ready, ready)

-- The pools that Warnings names.
abbrev pub ignores_image : Pool → Bool
ignores_image p =
    is_qemu p.backend
    && (not (is_empty p.image)
        || (not (is_empty p.image_tier) && not (text_eq p.image_tier minimal)))

unfoldable pub pool_warnings : List Pool → List Text
pool_warnings [] = []
pool_warnings (p ∷ pools) =
    let rest = pool_warnings pools in if ignores_image p then p.name ∷ rest else rest

-- Warnings: whether the one of github.repo is among them, and the names of the pools that are.
unfoldable pub warnings : Config → Bool × List Text
unfolding pool_warnings
warnings c = (is_repos c.github.scope && not (is_empty c.github.repo), pool_warnings c.pools)
