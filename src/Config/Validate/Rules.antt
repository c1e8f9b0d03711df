-- ===== src/Config/Validate/Rules.antt =====
-- What tells the pools of an accepted configuration apart, and which jobs a bound pool may serve.
use multirunner.Common.{
  ℕ, zero, suc, ◌≡◌, subst, true, false, inl, inr, none, some, List, [], ◌∷◌, if◌then◌else◌, any,
  Text, codes, text_eq, text_eq→≡, starts_with, contains, get_elem?, ℤ, pos, negsuc, lt_int, All,
  All-map, Bool-cases, arith,
}
use multirunner.Config.Types.{is_scaleset, Pool, Config}
use multirunner.Config.Checks.{first_failure, and_then}
use multirunner.Config.Pools.{Outside, check_size}
use multirunner.Config.Workflows.{check_workflows, check_workflow_paths}
use multirunner.Config.Validate.{validate}
use multirunner.Config.Validate.Passing.{
  Distinct, names, scale_sets, shared_keys, PoolPassed, validate-Accepted, own_scale_sets-Distinct,
}
use multirunner.Pool.Access.{PoolConfig, can_serve_job, can_serve_repository, equal_fold, is_empty}

check_size_lem : (p : Pool) → check_size p ≡ none → lt_int p.size (pos 1) ≡ false
unfolding check_size first_failure
check_size_lem p h = ground arith

-- In an accepted configuration every pool has a name and a size of at least 1; no two pools have the
-- same name, no two that share their workspace do so on the same Docker host and folder (whatever the
-- case), and with scale sets no two pools have the same scale set.
pub validate-Distinct :
    (env : Outside) (c : Config)
    → validate env c ≡ none
    → All (λ (p : Pool). (is_empty p.name ≡ false) × (lt_int p.size (pos 1) ≡ false)) c.pools
      × Distinct (names c.pools)
      × Distinct (shared_keys c.pools)
      × Distinct (if is_scaleset c.provisioning then scale_sets c.pools else [])
validate-Distinct env c h =
    let a = validate-Accepted env c h in
    (
      All-map (λ p passed. (passed.named, check_size_lem p passed.size)) c.pools a.pools,
      a.distinct_names,
      a.distinct_workspaces,
      elim (Bool-cases (is_scaleset c.provisioning)) [
        | inl e ↦ rw e (own_scale_sets-Distinct env c e a)
        | inr e ↦ rw e tt
      ],
    )

-- The fields of a pool that decide about jobs.
abbrev pub whole : ℤ → ℕ
whole (pos n) = n
whole (negsuc n) = 0

unfoldable pub rules : Pool → PoolConfig
rules p = record {
  size = whole p.size;
  labels = p.labels;
  repository = p.repository;
  workflows = p.workflows;
  workflow_event = p.workflow_event;
  workflow_actor = p.workflow_actor;
  workflow_ref = p.workflow_ref;
}

-- A path of a workflow file.
abbrev pub IsWorkflowPath : Text → Type 0
IsWorkflowPath path =
    (starts_with path (codes ".github/workflows/") ≡ true) × (contains path (codes "..") ≡ false)

check_workflow_paths-All :
    (seen workflows : List Text)
    → check_workflow_paths seen workflows ≡ none
    → All IsWorkflowPath workflows
unfolding check_workflow_paths first_failure and_then
check_workflow_paths-All seen [] h = tt
check_workflow_paths-All seen (w ∷ ws) h = ground (arith, check_workflow_paths-All (w ∷ seen) ws)

bound_pool :
    (p : Pool)
    → is_empty p.workflows ≡ false
    → check_workflows p ≡ none
    → (is_empty p.repository ≡ false) × All IsWorkflowPath p.workflows
unfolding check_workflows first_failure and_then
bound_pool p n h = let k = rw n at h in ground (arith, check_workflow_paths-All [] p.workflows)

listed :
    (workflow : Text) (workflows : List Text)
    → any (λ allowed. text_eq allowed workflow) workflows ≡ true
    → All IsWorkflowPath workflows
    → IsWorkflowPath workflow
listed workflow [] h a = cc
listed workflow (w ∷ ws) h a = elim (Bool-cases (text_eq w workflow)) [
  | inl e ↦ subst IsWorkflowPath (text_eq→≡ w workflow e) a.0
  | inr e ↦ listed workflow ws (ground arith) a.1
]

All-get :
    (P : Pool → Type 0) (pools : List Pool) (i : ℕ) (p : Pool)
    → get_elem? pools i ≡ some p
    → All P pools
    → P p
All-get P [] i p e a = cc
All-get P (q ∷ pools) zero p e a = subst P (cc) a.0
All-get P (q ∷ pools) (suc i) p e a = All-get P pools i p e a.1

can_serve_job-parts :
    (pool : PoolConfig) (target workflow event actor ref : Text)
    → is_empty pool.repository ≡ false
    → is_empty pool.workflows ≡ false
    → can_serve_job pool target workflow event actor ref ≡ true
    → (equal_fold pool.repository target ≡ true)
      × (equal_fold pool.workflow_event event ≡ true)
      × (equal_fold pool.workflow_actor actor ≡ true)
      × (equal_fold pool.workflow_ref ref ≡ true)
      × (any (λ allowed. text_eq allowed workflow) pool.workflows ≡ true)
unfolding can_serve_job can_serve_repository
can_serve_job-parts pool target workflow event actor ref r n s = ground arith

-- A pool of an accepted configuration that names workflows serves only jobs of its repository, of its
-- event, actor and ref (whatever the case of the letters), and of one workflow among those it names,
-- which is a path below .github/workflows/ without "..".
pub validate-serves :
    (env : Outside) (c : Config) (i : ℕ) (p : Pool) (target workflow event actor ref : Text)
    → validate env c ≡ none
    → get_elem? c.pools i ≡ some p
    → is_empty p.workflows ≡ false
    → can_serve_job (rules p) target workflow event actor ref ≡ true
    → (equal_fold p.repository target ≡ true)
      × (equal_fold p.workflow_event event ≡ true)
      × (equal_fold p.workflow_actor actor ≡ true)
      × (equal_fold p.workflow_ref ref ≡ true)
      × (any (λ allowed. text_eq allowed workflow) p.workflows ≡ true)
      × IsWorkflowPath workflow
unfolding rules
validate-serves env c i p target workflow event actor ref h e n s =
    let passed = All-get (PoolPassed env c) c.pools i p e (validate-Accepted env c h).pools in
    let (bound, paths) = bound_pool p n passed.workflows in
    let (t, ev, ac, rf, w) =
      can_serve_job-parts (rules p) target workflow event actor ref bound n s in
    (t, ev, ac, rf, w, listed workflow p.workflows w paths)
