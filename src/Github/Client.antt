-- ===== src/Github/Client.antt =====
-- internal/github/client.go: the queued jobs of a repository.
--
-- What GitHub answers is an argument: the pages of a listing up to the last one, or to the request that
-- fails. The runs found so far, runIDs with runsByID and seen, are one list in the order of runIDs. The
-- texts of the errors are not kept, and of a queued job neither is its Status.
pub mod Queued
pub mod Runs
pub mod Once
pub mod Resolve
mod Examples
use multirunner.Common.{
  ℕ, ◌≡◌, Bool, Option, none, some, List, [], ◌∷◌, ◌++◌, map, ◌==◌, any, Text, codes, text_eq,
  if◌then◌else◌,
}
use multirunner.Config.Scope.{Scope, is_repo}
use multirunner.Pool.Access.{Job}

-- Going on with a result, where there is no error.
infixl 20 ◌>>=◌
abbrev pub ◌>>=◌ : {A B : Type 0} → Option A → (A → Option B) → Option B
none >>= f = none
some a >>= f = f a

-- github.WorkflowRun: the fields that are read.
pub record WorkflowRun : Type 0 where
  pub id : ℕ
  pub path : Text
  pub event : Text
  pub triggering_actor : Option Text
  pub head_branch : Text
  pub status : Text

-- github.WorkflowJob: the fields that are read.
pub record WorkflowJob : Type 0 where
  pub status : Text
  pub labels : List Text

-- The answers to the requests for the pages of a listing.
pub data Listing {ℓ} (A : Type ℓ) : Type ℓ where
  failed : Listing A
  last_page : List A → Listing A
  page : List A → Listing A → Listing A

-- The login of the actor; empty where there is none.
abbrev pub login : Option Text → Text
login none = []
login (some actor) = actor

-- queuedJobMetadata
unfoldable pub queued_job_metadata : WorkflowRun → Job
queued_job_metadata run = record {
  client = none;
  repository = [];
  labels = [];
  workflow_path = run.path;
  event = run.event;
  actor = login run.triggering_actor;
  ref = run.head_branch;
}

-- The loop over the jobs of a page.
unfoldable pub add_jobs : WorkflowRun → List WorkflowJob → List Job → List Job
unfolding queued_job_metadata
add_jobs run [] queued = queued
add_jobs run (job ∷ jobs) queued = add_jobs run jobs (
    if text_eq job.status (codes "queued")
    then queued ++ record (queued_job_metadata run) { labels = job.labels } ∷ []
    else queued)

-- The loop over the pages of queuedJobsForRun.
unfoldable pub list_jobs : WorkflowRun → Listing WorkflowJob → List Job → Option (List Job)
unfolding add_jobs
list_jobs run failed queued = none
list_jobs run (last_page jobs) queued = some (add_jobs run jobs queued)
list_jobs run (page jobs rest) queued = list_jobs run rest (add_jobs run jobs queued)

-- queuedJobsForRun
unfoldable pub queued_jobs_for_run : (ℕ → Listing WorkflowJob) → WorkflowRun → Option (List Job)
unfolding list_jobs
queued_jobs_for_run jobs_of run = list_jobs run (jobs_of run.id) []

-- Whether a run of an id is among the runs.
abbrev pub seen : ℕ → List WorkflowRun → Bool
seen id runs = any (λ r. r.id == id) runs

-- A run of a page.
unfoldable pub add_run : WorkflowRun → List WorkflowRun → List WorkflowRun
add_run run runs = if seen run.id runs then runs else runs ++ run ∷ []

-- The loop over the runs of a page.
unfoldable pub add_runs : List WorkflowRun → List WorkflowRun → List WorkflowRun
unfolding add_run
add_runs [] runs = runs
add_runs (run ∷ rest) runs = add_runs rest (add_run run runs)

-- The loop over the pages of a status.
unfoldable pub list_runs : Listing WorkflowRun → List WorkflowRun → Option (List WorkflowRun)
unfolding add_runs
list_runs failed runs = none
list_runs (last_page rs) runs = some (add_runs rs runs)
list_runs (page rs rest) runs = list_runs rest (add_runs rs runs)

-- The loop over the statuses.
unfoldable pub list_statuses :
    (Text → Listing WorkflowRun) → List Text → List WorkflowRun → Option (List WorkflowRun)
unfolding list_runs
list_statuses runs_of [] runs = some runs
list_statuses runs_of (status ∷ statuses) runs = do
  found ← list_runs (runs_of status) runs
  list_statuses runs_of statuses found

-- The loop over the runs found.
unfoldable pub queued_of :
    (ℕ → Listing WorkflowJob) → List WorkflowRun → List Job → Option (List Job)
unfolding queued_jobs_for_run
queued_of jobs_of [] queued = some queued
queued_of jobs_of (run ∷ runs) queued = do
  jobs ← queued_jobs_for_run jobs_of run
  queued_of jobs_of runs (queued ++ jobs)

abbrev pub statuses : List Text
statuses = codes "queued" ∷ codes "in_progress" ∷ codes "pending" ∷ []

-- QueuedWorkflowJobs from the loop over the statuses on.
unfoldable pub repo_jobs :
    (Text → Listing WorkflowRun) → (ℕ → Listing WorkflowJob) → Option (List Job)
unfolding list_statuses queued_of
repo_jobs runs_of jobs_of = do runs ← list_statuses runs_of statuses []; queued_of jobs_of runs []

-- QueuedWorkflowJobs; `none` is an error.
unfoldable pub queued_workflow_jobs :
    Scope → (Text → Listing WorkflowRun) → (ℕ → Listing WorkflowJob) → Option (List Job)
unfolding repo_jobs
queued_workflow_jobs scope runs_of jobs_of =
    if is_repo scope then repo_jobs runs_of jobs_of else some []

-- QueuedJobLabels
unfoldable pub queued_job_labels : Option (List Job) → Option (List (List Text))
queued_job_labels none = none
queued_job_labels (some jobs) = some (map (λ job. job.labels) jobs)
