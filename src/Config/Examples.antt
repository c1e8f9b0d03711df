-- ===== src/Config/Examples.antt =====
-- Tests of the configuration's defaults and checks, and the theorems about them at concrete inputs.
use multirunner.Common.{
  ◌≡◌, refl, true, false, none, some, List, [], ◌∷◌, if◌then◌else◌, any, Text, codes, text_eq, pos,
  negsuc, lt_int, All,
}
use multirunner.Config.Scope.{scope_org}
use multirunner.Config.Types.{
  autoscale_mode, linux, docker, other_cache_mode, is_scaleset, ContainerConfig, Pool, Config,
}
use multirunner.Config.Checks.{cpus_overflow, duplicate_name, duplicate_repos_entry}
use multirunner.Config.Targets.{check_repos}
use multirunner.Config.Pools.{Outside}
use multirunner.Config.Images.{is_local_tier, image_ref}
use multirunner.Config.Limits.{nano_cpus}
use multirunner.Config.Validate.{validate}
use multirunner.Config.Validate.Passing.{Distinct, names, scale_sets, shared_keys}
use multirunner.Config.Validate.Bounds.{ExactLimits, validate-ExactLimits}
use multirunner.Config.Validate.Rules.{IsWorkflowPath, rules, validate-Distinct, validate-serves}
use multirunner.Config.Defaults.{apply_defaults, load}
use multirunner.Pool.Access.{equal_fold, is_empty, can_serve_job}

abbrev outside : Outside
outside = record {
  valid_tools = λ tools. true;
  parse_ip = λ s. some s;
  release_lines = codes "2022" ∷ [];
}

abbrev limits : ContainerConfig
limits = record {
  cpus = pos 4;
  memory_mb = pos 2048;
  memory_swap_mb = pos 4096;
  dns = codes "1.1.1.1" ∷ [];
}

abbrev bound : Pool
bound = record {
  name = codes "build";
  os = linux;
  backend = docker;
  size = pos 0;
  image_tier = [];
  image = [];
  container = limits;
  qemu = record { golden = []; tools = [] };
  runner_group_id = pos 0;
  labels = [];
  repository = codes "o/r";
  workflows = codes ".github/workflows/ci.yml" ∷ [];
  workflow_event = codes "push";
  workflow_actor = codes "me";
  workflow_ref = codes "refs/heads/main";
  work_folder = [];
  name_prefix = [];
  docker = record {
    host = codes "unix:///run/docker.sock";
    tls = record { ca_file = []; cert_file = []; key_file = [] };
    enable_dind = false;
    share_workspace = false;
  };
  max_consecutive_failures = pos 0;
  scale_set = [];
}

abbrev free : Text → Pool
free name = record bound {
  name = name;
  repository = [];
  workflows = [];
  workflow_event = [];
  workflow_actor = [];
  workflow_ref = [];
  image_tier = codes "my-tier_1";
}

abbrev written : List Pool → Config
written pools = record {
  github = record { url = []; scope = some scope_org; owner = codes " O "; repo = []; repos = [] };
  auth = record {
    pat = codes "$TOKEN";
    app_id = pos 0;
    installation_id = pos 0;
    private_key_path = [];
    token_path = [];
  };
  provisioning = autoscale_mode;
  cache = record {
    enabled = true;
    mode = [];
    storage = [];
    listen = [];
    upstream = [];
    access_token = [];
    max_age_days = pos 0;
    gc_interval_sec = pos 0;
  };
  git_cache = record { mode = other_cache_mode; path = []; max_age_days = pos 0 };
  webhook = record { path = []; secret = []; poll_interval_sec = pos 0 };
  pools = pools;
  log = record { level = []; format = [] };
}

abbrev two : Config
two = written (bound ∷ free (codes "free") ∷ [])

abbrev ready : Config
ready = apply_defaults outside two

two_accepted : validate outside ready ≡ none
unfolding validate apply_defaults
two_accepted = refl

token_read :
    (load
      (λ name. if text_eq name (codes "TOKEN") then some (codes "x") else none)
      outside
      two).1.auth.pat
    ≡ codes "x"
unfolding load
token_read = refl

same_names :
    validate outside (apply_defaults outside (written (free (codes "a") ∷ free (codes "a") ∷ [])))
    ≡ some duplicate_name
unfolding validate apply_defaults
same_names = refl

-- The first count of processors whose quota wraps around.
too_many : ContainerConfig
too_many = record limits { cpus = pos 9223372037 }

quota_wraps : nano_cpus too_many ≡ negsuc 9223372036709551615
unfolding nano_cpus too_many
quota_wraps = refl

too_many_refused :
    validate outside
      (apply_defaults outside (written (record (free (codes "a")) { container = too_many } ∷ [])))
    ≡ some cpus_overflow
unfolding validate apply_defaults too_many
too_many_refused = refl

repeated_repo :
    check_repos false (codes "o") [] [] (codes "a" ∷ codes "O/A" ∷ []) ≡ some duplicate_repos_entry
unfolding check_repos
repeated_repo = refl

tiers :
    ((is_local_tier (codes "a__b.c---d")) ≡ true)
    × (is_local_tier (codes "a___b") ≡ false)
    × (is_local_tier (codes "a-") ≡ false)
unfolding is_local_tier
tiers = (refl, refl, refl)

local_image : image_ref [] (free (codes "a")) ≡ codes "multirunner/runner-linux-my-tier_1:dev"
unfolding image_ref
local_image = refl

validate-ExactLimits_example : All (λ (p : Pool). ExactLimits p.container) ready.pools
validate-ExactLimits_example = validate-ExactLimits outside ready two_accepted

validate-Distinct_example :
    All (λ (p : Pool). (is_empty p.name ≡ false) × (lt_int p.size (pos 1) ≡ false)) ready.pools
    × Distinct (names ready.pools)
    × Distinct (shared_keys ready.pools)
    × Distinct (if is_scaleset ready.provisioning then scale_sets ready.pools else [])
validate-Distinct_example = validate-Distinct outside ready two_accepted

-- The bound pool with its defaults.
abbrev bound_ready : Pool
bound_ready = record bound {
  size = pos 1;
  work_folder = codes "_work";
  name_prefix = codes "multirunner";
  runner_group_id = pos 1;
  image_tier = codes "minimal";
  max_consecutive_failures = pos 5;
}

abbrev config : Config
config = record ready { pools = bound_ready ∷ [] }

config_accepted : validate outside config ≡ none
unfolding validate apply_defaults
config_accepted = refl

serves :
    can_serve_job
      (rules bound_ready)
      (codes "O/R")
      (codes ".github/workflows/ci.yml")
      (codes "push")
      (codes "Me")
      (codes "refs/heads/main")
    ≡ true
unfolding can_serve_job rules
serves = refl

validate-serves_example :
    (equal_fold (codes "o/r") (codes "O/R") ≡ true)
    × (equal_fold (codes "push") (codes "push") ≡ true)
    × (equal_fold (codes "me") (codes "Me") ≡ true)
    × (equal_fold (codes "refs/heads/main") (codes "refs/heads/main") ≡ true)
    × (any (λ allowed. text_eq allowed (codes ".github/workflows/ci.yml")) bound_ready.workflows
        ≡ true)
    × IsWorkflowPath (codes ".github/workflows/ci.yml")
validate-serves_example =
    validate-serves outside config 0 bound_ready (codes "O/R") (codes ".github/workflows/ci.yml")
      (codes "push") (codes "Me") (codes "refs/heads/main") config_accepted refl refl serves
