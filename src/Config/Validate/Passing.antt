-- ===== src/Config/Validate/Passing.antt =====
-- What the absence of an error says of each check.
use multirunner.Common.{
  ◌≡◌, ◌≢◌, refl, subst, Bool, true, false, ◌&&◌, none, List, [], ◌∷◌, if◌then◌else◌, Text, text_eq,
  text_eq_refl, All, Bool-cases, inl, inr, arith,
}
use multirunner.Config.Strings.{seen_before}
use multirunner.Config.Types.{Pool, Config, is_scaleset}
use multirunner.Config.Checks.{Error, first_failure, and_then-none}
use multirunner.Config.Targets.{check_scope}
use multirunner.Config.Pools.{
  Outside, check_name, check_backend, check_tls, check_workspace, check_size,
}
use multirunner.Config.Workflows.{check_repository, check_workflows}
use multirunner.Config.Limits.{validate_container_config}
use multirunner.Config.Images.{validate_image_tier}
use multirunner.Config.Validate.{
  check_auth, check_pool, check_pools, check_shared_workspaces, check_scale_sets, workspace_key,
  validate,
}
use multirunner.Pool.Access.{is_empty}

-- No two entries are the same.
abbrev pub Distinct : List Text → Type 0
Distinct [] = Unit
Distinct (x ∷ xs) = All (λ y. x ≢ y) xs × Distinct xs

-- Each entry is new to the list of those seen before it.
abbrev pub Fresh : List Text → List Text → Type 0
Fresh seen [] = Unit
Fresh seen (x ∷ xs) = (seen_before x seen ≡ false) × Fresh (x ∷ seen) xs

not_seen : (y : Text) (seen : List Text) → seen_before y seen ≡ false → All (λ s. s ≢ y) seen
not_seen y [] h = tt
not_seen y (s ∷ seen) h =
    let apart : (text_eq y s ≡ false) × (seen_before y seen ≡ false) = ground arith in
    (
      λ e. let same : text_eq y s ≡ true = rw e (text_eq_refl y) in cc (same, apart.0),
      not_seen y seen apart.1,
    )

both :
    {P Q R : Text → Type 0} (seen : List Text)
    → ((s : Text) → P s → Q s → R s)
    → All P seen
    → All Q seen
    → All R seen
both [] f h k = tt
both (s ∷ seen) f h k = (f s h.0 k.0, both seen f h.1 k.1)

everywhere : (seen : List Text) → All (λ s. All (λ y. s ≢ y) []) seen
everywhere [] = tt
everywhere (s ∷ seen) = (tt, everywhere seen)

Fresh-Distinct :
    (xs seen : List Text) → Fresh seen xs → All (λ s. All (λ y. s ≢ y) xs) seen × Distinct xs
Fresh-Distinct [] seen h = (everywhere seen, tt)
Fresh-Distinct (x ∷ xs) seen h =
    let (apart, distinct) = Fresh-Distinct xs (x ∷ seen) h.1 in
    (both seen (λ s a b. (a, b)) (not_seen x seen h.0) apart.1, (apart.0, distinct))

-- The checks of a pool but the one of its name.
pub record PoolPassed (env : Outside) (c : Config) (p : Pool) : Type 0 where
  pub named : is_empty p.name ≡ false
  pub backend : check_backend env p ≡ none
  pub tls : check_tls p ≡ none
  pub workspace : check_workspace p ≡ none
  pub size : check_size p ≡ none
  pub repository : check_repository c.provisioning c.github p ≡ none
  pub workflows : check_workflows p ≡ none
  pub container : validate_container_config env p ≡ none
  pub scale_set : (is_scaleset c.provisioning && is_empty p.scale_set) ≡ false
  pub image : validate_image_tier env p ≡ none

check_name-Passed :
    (seen : List Text) (p : Pool)
    → check_name seen p ≡ none
    → (is_empty p.name ≡ false) × (seen_before p.name seen ≡ false)
unfolding check_name first_failure
check_name-Passed seen p h = ground arith

check-Passed : (b : Bool) (e : Error) → first_failure ((b, e) ∷ []) ≡ none → b ≡ false
unfolding first_failure
check-Passed true e h = absurd (cc)
check-Passed false e h = refl

check_pool-Passed :
    (env : Outside) (c : Config) (seen : List Text) (p : Pool)
    → check_pool env c seen p ≡ none
    → (seen_before p.name seen ≡ false) × PoolPassed env c p
unfolding check_pool
check_pool-Passed env c seen p h =
    let (name, h1) = and_then-none _ _ h in
    let (n1, n2) = check_name-Passed seen p name in
    let (backend, h2) = and_then-none _ _ h1 in
    let (tls, h3) = and_then-none _ _ h2 in
    let (workspace, h4) = and_then-none _ _ h3 in
    let (size, h5) = and_then-none _ _ h4 in
    let (repository, h6) = and_then-none _ _ h5 in
    let (workflows, h7) = and_then-none _ _ h6 in
    let (container, h8) = and_then-none _ _ h7 in
    let (scale_set, image) = and_then-none _ _ h8 in
    (
      n2,
      record {
        named = n1;
        backend = backend;
        tls = tls;
        workspace = workspace;
        size = size;
        repository = repository;
        workflows = workflows;
        container = container;
        scale_set = check-Passed _ _ scale_set;
        image = image;
      },
    )

abbrev pub names : List Pool → List Text
names [] = []
names (p ∷ pools) = p.name ∷ names pools

abbrev pub scale_sets : List Pool → List Text
scale_sets [] = []
scale_sets (p ∷ pools) = p.scale_set ∷ scale_sets pools

-- The hosts and folders of the pools that share a workspace.
abbrev pub shared_keys : List Pool → List Text
shared_keys [] = []
shared_keys (p ∷ pools) =
    let rest = shared_keys pools in
    if p.docker.share_workspace then workspace_key p ∷ rest else rest

check_pools-Passed :
    (env : Outside) (c : Config) (seen : List Text) (pools : List Pool)
    → check_pools env c seen pools ≡ none
    → Fresh seen (names pools) × All (PoolPassed env c) pools
unfolding check_pools
check_pools-Passed env c seen [] h = (tt, tt)
check_pools-Passed env c seen (p ∷ pools) h =
    let (here, later) = and_then-none _ _ h in
    let (new, passed) = check_pool-Passed env c seen p here in
    let (news, all_passed) = check_pools-Passed env c (p.name ∷ seen) pools later in
    ((new, news), (passed, all_passed))

check_scale_sets-Fresh :
    (seen : List Text) (pools : List Pool)
    → check_scale_sets seen pools ≡ none
    → Fresh seen (scale_sets pools)
unfolding check_scale_sets
check_scale_sets-Fresh seen [] h = tt
check_scale_sets-Fresh seen (p ∷ pools) h =
    ground (arith, check_scale_sets-Fresh (p.scale_set ∷ seen) pools)

check_shared_workspaces-Fresh :
    (seen : List Text) (pools : List Pool)
    → check_shared_workspaces seen pools ≡ none
    → Fresh seen (shared_keys pools)
unfolding check_shared_workspaces
check_shared_workspaces-Fresh seen [] h = tt
check_shared_workspaces-Fresh seen (p ∷ pools) h = elim (Bool-cases p.docker.share_workspace) [
  | inl e ↦ ground (arith, check_shared_workspaces-Fresh (workspace_key p ∷ seen) pools)
  | inr e ↦ ground (arith, check_shared_workspaces-Fresh seen pools)
]

-- What an accepted configuration satisfies.
pub record Accepted (env : Outside) (c : Config) : Type 0 where
  pub scope : check_scope c.github.scope c.github c.auth ≡ none
  pub auth : check_auth c ≡ none
  pub pools : All (PoolPassed env c) c.pools
  pub distinct_names : Distinct (names c.pools)
  pub distinct_workspaces : Distinct (shared_keys c.pools)
  pub own_scale_sets :
      (if is_scaleset c.provisioning then check_scale_sets [] c.pools else none) ≡ none

pub validate-Accepted : (env : Outside) (c : Config) → validate env c ≡ none → Accepted env c
unfolding validate
validate-Accepted env c h =
    let (scope, h1) = and_then-none _ _ h in
    let (auth, h2) = and_then-none _ _ h1 in
    let (pools, h3) = and_then-none _ _ h2 in
    let (workspaces, sets) = and_then-none _ _ h3 in
    let (fresh, passed) = check_pools-Passed env c [] c.pools pools in
    record {
      scope = scope;
      auth = auth;
      pools = passed;
      distinct_names = (Fresh-Distinct (names c.pools) [] fresh).1;
      distinct_workspaces =
          (Fresh-Distinct (shared_keys c.pools) []
            (check_shared_workspaces-Fresh [] c.pools workspaces)).1;
      own_scale_sets = sets;
    }

pub own_scale_sets-Distinct :
    (env : Outside) (c : Config)
    → is_scaleset c.provisioning ≡ true
    → Accepted env c
    → Distinct (scale_sets c.pools)
own_scale_sets-Distinct env c mode a =
    (Fresh-Distinct (scale_sets c.pools) [] (
      check_scale_sets-Fresh [] c.pools (
        subst (λ (m : Bool). (if m then check_scale_sets [] c.pools else none) ≡ none) mode
          a.own_scale_sets))).1
