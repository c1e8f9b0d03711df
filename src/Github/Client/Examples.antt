-- ===== src/Github/Client/Examples.antt =====
-- Tests of the queued jobs of a repository, and the theorems about them at concrete inputs.
use multirunner.Common.{
  ◌⊎◌, ℕ, ◌≡◌, refl, true, none, some, List, [], ◌∷◌, Text, codes, text_eq, if◌then◌else◌, lt_int,
  pos, ◌==◌,
}
use multirunner.Config.Scope.{scope_repo}
use multirunner.Pool.Access.{Job}
use multirunner.Github.Client.{
  WorkflowRun, WorkflowJob, Listing, failed, last_page, page, queued_workflow_jobs,
  queued_job_labels,
}
use multirunner.Github.Client.Once.{Gathered, Broken, queued_workflow_jobs-once}
use multirunner.Github.Client.Resolve.{
  Answer, run_found, no_run, bad_repository, not_active, resolved, resolve_queued_job, Looked,
  Authoritative, resolve_queued_job-Authoritative,
}

abbrev run : ℕ → WorkflowRun
run n = record {
  id = n;
  path = codes "ci.yml";
  event = codes "push";
  triggering_actor = some (codes "mona");
  head_branch = codes "main";
  status = codes "queued";
}

-- Run 1 is queued when the first listing is read, and in progress when the second is.
abbrev runs_of : Text → Listing WorkflowRun
runs_of status =
    if text_eq status (codes "queued")
    then page (run 1 ∷ []) (last_page (run 2 ∷ []))
    else if text_eq status (codes "in_progress")
    then last_page (run 3 ∷ run 1 ∷ [])
    else last_page []

abbrev a_job : Text → Text → WorkflowJob
a_job status label = record { status = status; labels = label ∷ [] }

abbrev jobs_of : ℕ → Listing WorkflowJob
jobs_of n =
    if n == 1
    then page (a_job (codes "completed") (codes "a") ∷ [])
        (last_page (a_job (codes "queued") (codes "b") ∷ []))
    else last_page (a_job (codes "queued") (codes "c") ∷ [])

labels_of_queued :
    queued_job_labels (queued_workflow_jobs scope_repo runs_of jobs_of)
    ≡ some ((codes "b" ∷ []) ∷ (codes "c" ∷ []) ∷ (codes "c" ∷ []) ∷ [])
unfolding queued_job_labels queued_workflow_jobs
labels_of_queued = refl

failed_listing : queued_workflow_jobs scope_repo (λ status. failed) jobs_of ≡ none
unfolding queued_workflow_jobs
failed_listing = refl

abbrev queued : Text → Job
queued label = record {
  client = none;
  repository = [];
  labels = label ∷ [];
  workflow_path = codes "ci.yml";
  event = codes "push";
  actor = codes "mona";
  ref = codes "main";
}

abbrev three_jobs : List Job
three_jobs = queued (codes "b") ∷ queued (codes "c") ∷ queued (codes "c") ∷ []

three_queued : queued_workflow_jobs scope_repo runs_of jobs_of ≡ some three_jobs
unfolding queued_workflow_jobs
three_queued = refl

queued_workflow_jobs-once_example :
    Gathered runs_of jobs_of (some three_jobs)
    ⊎ ((queued_workflow_jobs scope_repo runs_of jobs_of ≡ none) × Broken runs_of jobs_of)
unfolding queued_workflow_jobs
queued_workflow_jobs-once_example = queued_workflow_jobs-once runs_of jobs_of scope_repo refl

abbrev repository : Text
repository = codes "o/r"

abbrev get_run : Text → Text → Answer
get_run owner repo = if text_eq repo (codes "r") then run_found (run 7) else no_run

abbrev resolved_job : Job
resolved_job = record (queued (codes "b")) { client = some (codes "o"); repository = repository }

resolves :
    resolve_queued_job
      (codes "o")
      (λ owner repo id. get_run owner repo)
      repository
      (pos 7)
      (codes "b" ∷ [])
    ≡ resolved resolved_job
unfolding resolve_queued_job
resolves = refl

no_slash :
    resolve_queued_job (codes "o") (λ owner repo id. get_run owner repo) (codes "or") (pos 7) []
    ≡ bad_repository
unfolding resolve_queued_job
no_slash = refl

finished :
    resolve_queued_job
      (codes "o")
      (λ owner repo id. run_found (record (run 7) { status = codes "completed" }))
      repository
      (pos 7)
      []
    ≡ not_active
unfolding resolve_queued_job
finished = refl

resolve_queued_job-Authoritative_example :
    (lt_int (pos 0) (pos 7) ≡ true)
    × ((r : WorkflowRun) × Looked get_run repository r
        × Authoritative (codes "o") repository (codes "b" ∷ []) r resolved_job)
resolve_queued_job-Authoritative_example =
    resolve_queued_job-Authoritative (codes "o") (λ owner repo id. get_run owner repo) repository
      (pos 7) (codes "b" ∷ []) resolved_job resolves
