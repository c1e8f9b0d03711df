-- ===== src/Config/Defaults/Filling.antt =====
-- What it means that defaults fill in what is not set.
use multirunner.Common.{
  ℕ, ◌≡◌, ◌≢◌, Bool, true, false, Option, none, some, List, [], ◌∷◌, Text, codes, ℤ, pos, is_zero,
}
use multirunner.Config.Scope.{Scope}
use multirunner.Config.Strings.{trim_space}
use multirunner.Config.Types.{
  Provisioning, unset_mode, pool_mode, scaleset_mode, is_autoscale, is_scaleset, Pool, Webhook,
  Cache, is_enabled, Config,
}
use multirunner.Config.Pools.{Outside}
use multirunner.Config.Images.{minimal}
use multirunner.Config.Validate.{is_repos}
use multirunner.Pool.Access.{is_empty}

-- A text, or a number, that is set stays; one that is not becomes the default.
abbrev pub FillsText : Text → Text → Text → Type 0
FillsText d s t = (is_empty s ≡ false → t ≡ s) × (is_empty s ≡ true → t ≡ d)

abbrev pub FillsInt : ℕ → ℤ → ℤ → Type 0
FillsInt d n m = (is_zero n ≡ false → m ≡ n) × (is_zero n ≡ true → m ≡ pos d)

-- The mode: one that is set stays, else it is that of pools for several repositories, and that of scale
-- sets for any other scope.
pub record FillsMode (scope : Option Scope) (before after : Provisioning) : Type 0 where
  pub stays : before ≢ unset_mode → after ≡ before
  pub several : before ≡ unset_mode → is_repos scope ≡ true → after ≡ pool_mode
  pub single : before ≡ unset_mode → is_repos scope ≡ false → after ≡ scaleset_mode

pub record FillsWebhook (w v : Webhook) : Type 0 where
  pub path : FillsText (codes "/webhook") w.path v.path
  pub interval : FillsInt 300 w.poll_interval_sec v.poll_interval_sec
  pub rest : record v { path = w.path; poll_interval_sec = w.poll_interval_sec } ≡ w

pub record FillsCache (c d : Cache) : Type 0 where
  pub mode : FillsText (codes "local-server") c.mode d.mode
  pub storage : FillsText (codes "filesystem") c.storage d.storage
  pub listen : FillsText (codes "0.0.0.0:3000") c.listen d.listen
  pub upstream :
      FillsText
        (codes "https://results-receiver.actions.githubusercontent.com")
        c.upstream
        d.upstream
  pub max_age : FillsInt 7 c.max_age_days d.max_age_days
  pub gc_interval : FillsInt 3600 c.gc_interval_sec d.gc_interval_sec
  pub rest :
      record d {
        mode = c.mode;
        storage = c.storage;
        listen = c.listen;
        upstream = c.upstream;
        max_age_days = c.max_age_days;
        gc_interval_sec = c.gc_interval_sec;
      }
      ≡ c

-- The two lists have the same length, and their entries are related in turn.
abbrev pub Related {ℓ} : {A : Type ℓ} → (A → A → Type 0) → List A → List A → Type 0
Related P [] [] = Unit
Related P (x ∷ xs) (y ∷ ys) = P x y × Related P xs ys
Related P _ _ = true ≡ false

-- An address takes its canonical form, and anything else stays.
abbrev pub FillsDns : Outside → Text → Text → Type 0
FillsDns env s t =
    (env.parse_ip s ≡ none → t ≡ s) × ((ip : Text) → env.parse_ip s ≡ some ip → t ≡ ip)

pub record FillsPool (env : Outside) (scaleset : Bool) (p q : Pool) : Type 0 where
  pub size : FillsInt 1 p.size q.size
  pub work_folder : FillsText (codes "_work") p.work_folder q.work_folder
  pub name_prefix : FillsText (codes "multirunner") p.name_prefix q.name_prefix
  pub group : FillsInt 1 p.runner_group_id q.runner_group_id
  pub tier : FillsText minimal p.image_tier q.image_tier
  pub failures : FillsInt 5 p.max_consecutive_failures q.max_consecutive_failures
  pub named : scaleset ≡ true → FillsText p.name p.scale_set q.scale_set
  pub unnamed : scaleset ≡ false → q.scale_set ≡ p.scale_set
  pub dns : Related (FillsDns env) p.container.dns q.container.dns
  pub rest :
      record q {
        size = p.size;
        work_folder = p.work_folder;
        name_prefix = p.name_prefix;
        runner_group_id = p.runner_group_id;
        image_tier = p.image_tier;
        max_consecutive_failures = p.max_consecutive_failures;
        scale_set = p.scale_set;
        container = record q.container { dns = p.container.dns };
      }
      ≡ p

pub record Fills (env : Outside) (c d : Config) : Type 0 where
  pub mode : FillsMode c.github.scope c.provisioning d.provisioning
  pub url : FillsText (codes "https://github.com") c.github.url d.github.url
  pub owner : d.github.owner ≡ trim_space c.github.owner
  pub repos : Related (λ s t. t ≡ trim_space s) c.github.repos d.github.repos
  pub level : FillsText (codes "info") c.log.level d.log.level
  pub format : FillsText (codes "text") c.log.format d.log.format
  pub listening : is_autoscale d.provisioning ≡ true → FillsWebhook c.webhook d.webhook
  pub deaf : is_autoscale d.provisioning ≡ false → d.webhook ≡ c.webhook
  pub caching : c.cache.enabled ≡ true → FillsCache c.cache d.cache
  pub uncached : c.cache.enabled ≡ false → d.cache ≡ c.cache
  pub git_age :
      is_enabled c.git_cache ≡ true → FillsInt 30 c.git_cache.max_age_days d.git_cache.max_age_days
  pub git_off : is_enabled c.git_cache ≡ false → d.git_cache ≡ c.git_cache
  pub git_rest : record d.git_cache { max_age_days = c.git_cache.max_age_days } ≡ c.git_cache
  pub pools : Related (FillsPool env (is_scaleset d.provisioning)) c.pools d.pools
  pub rest : (d.auth ≡ c.auth) × (d.github.scope ≡ c.github.scope) × (d.github.repo ≡ c.github.repo)
