-- ===== src/Pool/Access.antt =====
-- internal/config/config.go, CanServeJob, and internal/pool/launcher.go, Allows: which jobs a pool
-- may register a runner for.
--
-- strings.EqualFold is modelled on ASCII, which repository names, logins and refs consist of; it
-- also folds letters beyond ASCII.
use multirunner.Common.{
  ℕ, ◌+◌, Bool, true, false, not, ◌&&◌, ◌||◌, Option, none, some, List, [], ◌∷◌, ◌==◌, leb,
  if◌then◌else◌, any, Text, text_eq,
}

abbrev pub fold : ℕ → ℕ
fold c = if leb 65 c && leb c 90 then c + 32 else c

-- strings.EqualFold
unfoldable pub equal_fold : Text → Text → Bool
equal_fold [] [] = true
equal_fold (c ∷ s) (d ∷ t) = (fold c == fold d) && equal_fold s t
equal_fold _ _ = false

-- config.Pool, the fields that decide about jobs.
pub record PoolConfig : Type 0 where
  pub size : ℕ
  pub labels : List Text
  pub repository : Text
  pub workflows : List Text
  pub workflow_event : Text
  pub workflow_actor : Text
  pub workflow_ref : Text

-- github.QueuedJob; a client is known by its target.
pub record Job : Type 0 where
  pub client : Option Text
  pub repository : Text
  pub labels : List Text
  pub workflow_path : Text
  pub event : Text
  pub actor : Text
  pub ref : Text

abbrev pub is_empty {ℓ} : {A : Type ℓ} → List A → Bool
is_empty [] = true
is_empty (x ∷ xs) = false

unfoldable pub can_serve_repository : PoolConfig → Text → Bool
unfolding equal_fold
can_serve_repository p target = is_empty p.repository || equal_fold p.repository target

unfoldable pub can_serve_job : PoolConfig → Text → Text → Text → Text → Text → Bool
unfolding can_serve_repository equal_fold
can_serve_job p target workflow event actor ref =
    if not (can_serve_repository p target)
    then false
    else if is_empty p.workflows
    then true
    else if not (equal_fold p.workflow_event event)
        || not (equal_fold p.workflow_actor actor)
        || not (equal_fold p.workflow_ref ref)
    then false
    else any (λ allowed. text_eq allowed workflow) p.workflows

-- The repository of the job, or the target of its client.
unfoldable pub target_of : Job → Text → Text
target_of job client = if is_empty job.repository then client else job.repository

-- Launcher.Allows
unfoldable pub allows : PoolConfig → Job → Bool
unfolding can_serve_job target_of
allows p job = elim job.client [
  | none ↦ false
  | some client ↦
      can_serve_job p (target_of job client) job.workflow_path job.event job.actor job.ref
]

-- Launcher.RequiresWorkflowMetadata
unfoldable pub requires_workflow_metadata : PoolConfig → Bool
requires_workflow_metadata p = not (is_empty p.workflows)
