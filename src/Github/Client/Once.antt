-- ===== src/Github/Client/Once.antt =====
-- Each run that a listing names is asked for its jobs, and once.
use multirunner.Common.{
  any, ◌⊎◌, Option, none, some, is_some, ℕ, ◌≡◌, refl, ◌∙◌, ap, sym, true, List, [], ◌∷◌, Text,
  Option-cases, inl, inr, arith,
}
use multirunner.Config.Scope.{Scope, is_repo}
use multirunner.Pool.Access.{Job}
use multirunner.Github.Client.{
  WorkflowRun, WorkflowJob, Listing, failed, last_page, page, seen, add_runs, list_runs,
  list_statuses, queued_of, statuses, repo_jobs, queued_workflow_jobs,
}
use multirunner.Github.Client.Queued.{all_queued, queued_of_lem, is_failed, queued_of-none}
use multirunner.Github.Client.Runs.{
  first_run, Unique, first_run-seen, all_listed, list_statuses-Added,
}

list_runs-none :
    (listing : Listing WorkflowRun) (runs : List WorkflowRun)
    → list_runs listing runs ≡ none
    → is_failed listing ≡ true
unfolding list_runs
list_runs-none failed runs h = refl
list_runs-none (last_page rs) runs h = cc
list_runs-none (page rs rest) runs h = list_runs-none rest (add_runs rs runs) h

list_statuses-none :
    (runs_of : Text → Listing WorkflowRun) (ss : List Text) (runs : List WorkflowRun)
    → list_statuses runs_of ss runs ≡ none
    → any (λ s. is_failed (runs_of s)) ss ≡ true
unfolding list_statuses
list_statuses-none runs_of [] runs h = cc
list_statuses-none runs_of (status ∷ ss) runs h =
    elim (Option-cases (list_runs (runs_of status) runs)) [
      | inl e ↦ ground (arith, list_runs-none (runs_of status) runs e)
      | inr (mid, e) ↦ ground (arith, list_statuses-none runs_of ss mid (rw e at h))
    ]

-- The queued jobs of some runs, no two with one id, that have exactly the ids on the pages of the three
-- listings, each with the first run that has it there.
abbrev pub Gathered :
    (Text → Listing WorkflowRun) → (ℕ → Listing WorkflowJob) → Option (List Job) → Type 0
Gathered runs_of jobs_of result =
    (runs : List WorkflowRun) × Unique runs
    × ((id : ℕ) → first_run id runs ≡ first_run id (all_listed runs_of statuses))
    × (result ≡ some (all_queued jobs_of runs))

-- A listing of runs, or the one of a listed run's jobs, fails.
abbrev pub Broken : (Text → Listing WorkflowRun) → (ℕ → Listing WorkflowJob) → Type 0
Broken runs_of jobs_of =
    (any (λ s. is_failed (runs_of s)) statuses ≡ true)
    ⊎ ((id : ℕ) × (seen id (all_listed runs_of statuses) ≡ true) × (is_failed (jobs_of id) ≡ true))

repo_jobs-Gathered :
    (runs_of : Text → Listing WorkflowRun) (jobs_of : ℕ → Listing WorkflowJob)
    → Gathered runs_of jobs_of (repo_jobs runs_of jobs_of)
      ⊎ ((repo_jobs runs_of jobs_of ≡ none) × Broken runs_of jobs_of)
unfolding repo_jobs
repo_jobs-Gathered runs_of jobs_of = elim (Option-cases (list_statuses runs_of statuses [])) [
  | inl e ↦ rw e (inr (refl, inl (list_statuses-none runs_of statuses [] e)))
  | inr (runs, e) ↦
      let a = list_statuses-Added runs_of statuses [] runs e in
      elim (Option-cases (queued_of jobs_of runs [])) [
        | inl f ↦
            let (id, among, fails) = queued_of-none jobs_of runs [] f in
            let listed : seen id (all_listed runs_of statuses) ≡ true =
              sym (first_run-seen id (all_listed runs_of statuses))
              ∙ sym (ap (λ (o : Option WorkflowRun). is_some o) (a.firsts id))
              ∙ first_run-seen id runs
              ∙ among in
            rw (e, f) (inr (refl, inr (id, listed, fails)))
        | inr (jobs, f) ↦
            rw (e, f)
              (inl (runs, a.unique tt, a.firsts, ap some (queued_of_lem jobs_of runs [] jobs f)))
      ]
]

-- QueuedWorkflowJobs of a repository fails only where a listing of runs fails, or the listing of a listed
-- run's jobs. Else it gives the jobs with status "queued" of some runs, run by run, each with the data of
-- its run. No two of these runs have the same id. They have exactly the ids on the pages of the three
-- listings, each with the first run that has it there, as it was listed: a run that several listings
-- name counts once.
pub queued_workflow_jobs-once :
    (runs_of : Text → Listing WorkflowRun) (jobs_of : ℕ → Listing WorkflowJob) (scope : Scope)
    → is_repo scope ≡ true
    → Gathered runs_of jobs_of (queued_workflow_jobs scope runs_of jobs_of)
      ⊎ ((queued_workflow_jobs scope runs_of jobs_of ≡ none) × Broken runs_of jobs_of)
unfolding queued_workflow_jobs
queued_workflow_jobs-once runs_of jobs_of scope r = rw r (repo_jobs-Gathered runs_of jobs_of)
