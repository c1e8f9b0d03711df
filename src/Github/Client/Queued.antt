-- ===== src/Github/Client/Queued.antt =====
-- The queued jobs of runs, as the loops over their listings gather them.
use mathlib.Core.List.{append_assoc, append-nil}
use multirunner.Common.{
  Bool, ==_refl, arith, true, false, none, some, ℕ, ◌≡◌, refl, ◌∙◌, ap, sym, true, false, List, [],
  ◌∷◌, ◌++◌, codes, text_eq, if◌then◌else◌, Bool-cases, Option-cases, inl, inr, arith,
}
use multirunner.Pool.Access.{Job}
use multirunner.Github.Client.{
  seen, WorkflowRun, WorkflowJob, Listing, failed, last_page, page, add_jobs, list_jobs,
  queued_jobs_for_run, seen, queued_of,
}

-- What a listing lists before it ends or fails.
abbrev pub entries {ℓ} : {A : Type ℓ} → Listing A → List A
entries failed = []
entries (last_page xs) = xs
entries (page xs rest) = xs ++ entries rest

-- The queued jobs among the jobs of a run, with the run's data.
unfoldable pub queued_job : WorkflowRun → WorkflowJob → List Job
queued_job run job =
    if text_eq job.status (codes "queued")
    then record {
      client = none;
      repository = [];
      labels = job.labels;
      workflow_path = run.path;
      event = run.event;
      actor = elim run.triggering_actor [ none ↦ [] | some actor ↦ actor ];
      ref = run.head_branch;
    }
      ∷ []
    else []

abbrev pub queued_jobs : WorkflowRun → List WorkflowJob → List Job
queued_jobs run [] = []
queued_jobs run (job ∷ jobs) = queued_job run job ++ queued_jobs run jobs

-- The queued jobs of the runs, in the runs' order.
abbrev pub all_queued : (ℕ → Listing WorkflowJob) → List WorkflowRun → List Job
all_queued jobs_of [] = []
all_queued jobs_of (run ∷ runs) =
    queued_jobs run (entries (jobs_of run.id)) ++ all_queued jobs_of runs

queued_jobs-append :
    (run : WorkflowRun) (xs ys : List WorkflowJob)
    → queued_jobs run (xs ++ ys) ≡ queued_jobs run xs ++ queued_jobs run ys
queued_jobs-append run [] ys = refl
queued_jobs-append run (x ∷ xs) ys =
    ap (λ zs. queued_job run x ++ zs) (queued_jobs-append run xs ys)
    ∙ sym (append_assoc (queued_job run x) (queued_jobs run xs) (queued_jobs run ys))

add_jobs_step :
    (run : WorkflowRun) (job : WorkflowJob) (jobs : List WorkflowJob) (queued : List Job)
    → add_jobs run (job ∷ jobs) queued ≡ add_jobs run jobs (queued ++ queued_job run job)
unfolding add_jobs queued_job
add_jobs_step run job jobs queued = elim (Bool-cases (text_eq job.status (codes "queued"))) [
  | inl e ↦ rw e refl
  | inr e ↦ rw (e, append-nil queued) refl
]

add_jobs_lem :
    (run : WorkflowRun) (jobs : List WorkflowJob) (queued : List Job)
    → add_jobs run jobs queued ≡ queued ++ queued_jobs run jobs
unfolding add_jobs
add_jobs_lem run [] queued = sym (append-nil queued)
add_jobs_lem run (job ∷ jobs) queued =
    add_jobs_step run job jobs queued
    ∙ add_jobs_lem run jobs (queued ++ queued_job run job)
    ∙ append_assoc queued (queued_job run job) (queued_jobs run jobs)

list_jobs_lem :
    (run : WorkflowRun) (listing : Listing WorkflowJob) (queued jobs : List Job)
    → list_jobs run listing queued ≡ some jobs
    → jobs ≡ queued ++ queued_jobs run (entries listing)
unfolding list_jobs
list_jobs_lem run failed queued jobs h = cc
list_jobs_lem run (last_page xs) queued jobs h = cc (h, add_jobs_lem run xs queued)
list_jobs_lem run (page xs rest) queued jobs h =
    list_jobs_lem run rest (add_jobs run xs queued) jobs h
    ∙ ap (λ zs. zs ++ queued_jobs run (entries rest)) (add_jobs_lem run xs queued)
    ∙ append_assoc queued (queued_jobs run xs) (queued_jobs run (entries rest))
    ∙ ap (λ zs. queued ++ zs) (sym (queued_jobs-append run xs (entries rest)))

pub queued_of_lem :
    (jobs_of : ℕ → Listing WorkflowJob) (runs : List WorkflowRun) (queued jobs : List Job)
    → queued_of jobs_of runs queued ≡ some jobs
    → jobs ≡ queued ++ all_queued jobs_of runs
unfolding queued_of queued_jobs_for_run
queued_of_lem jobs_of [] queued jobs h = cc (h, append-nil queued)
queued_of_lem jobs_of (run ∷ runs) queued jobs h =
    elim (Option-cases (list_jobs run (jobs_of run.id) [])) [
      | inl e ↦ cc (rw e at h)
      | inr (found, e) ↦
          let rest = queued_of_lem jobs_of runs (queued ++ found) jobs (rw e at h) in
          rest
          ∙ append_assoc queued found (all_queued jobs_of runs)
          ∙ ap (λ zs. queued ++ (zs ++ all_queued jobs_of runs))
              (list_jobs_lem run (jobs_of run.id) [] found e)
    ]

-- The last request for a listing's pages fails.
abbrev pub is_failed {ℓ} : {A : Type ℓ} → Listing A → Bool
is_failed failed = true
is_failed (last_page xs) = false
is_failed (page xs rest) = is_failed rest

list_jobs-none :
    (run : WorkflowRun) (listing : Listing WorkflowJob) (queued : List Job)
    → list_jobs run listing queued ≡ none
    → is_failed listing ≡ true
unfolding list_jobs
list_jobs-none run failed queued h = refl
list_jobs-none run (last_page xs) queued h = cc
list_jobs-none run (page xs rest) queued h = list_jobs-none run rest (add_jobs run xs queued) h

-- Where the loop over the runs fails, the listing of one of them does.
pub queued_of-none :
    (jobs_of : ℕ → Listing WorkflowJob) (runs : List WorkflowRun) (queued : List Job)
    → queued_of jobs_of runs queued ≡ none
    → (id : ℕ) × (seen id runs ≡ true) × (is_failed (jobs_of id) ≡ true)
unfolding queued_of queued_jobs_for_run
queued_of-none jobs_of [] queued h = cc
queued_of-none jobs_of (run ∷ runs) queued h =
    elim (Option-cases (list_jobs run (jobs_of run.id) [])) [
      | inl e ↦ (run.id, ground (arith, ==_refl run.id), list_jobs-none run (jobs_of run.id) [] e)
      | inr (found, e) ↦
          let (id, among, fails) = queued_of-none jobs_of runs (queued ++ found) (rw e at h) in
          (id, ground (arith, among), fails)
    ]
