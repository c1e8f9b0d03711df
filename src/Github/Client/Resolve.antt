-- ===== src/Github/Client/Resolve.antt =====
-- ResolveQueuedJob of internal/github/client.go.
--
-- GetWorkflowRunByID is an argument: what GitHub answers for an owner, a repository and a run id, an
-- error, no run, or the run. The client is the job's, by its name.
use multirunner.Common.{
  ℕ, ◌≡◌, refl, subst, Option-cases, ◌++◌, Bool, true, false, ◌||◌, inl, inr, Option, none, some,
  List, [], ◌∷◌, ◌==◌, if◌then◌else◌, Text, codes, text_eq, ℤ, pos, negsuc, lt_int, zero, suc,
  Bool-cases, arith,
}
use multirunner.Pool.Access.{Job, is_empty}
use multirunner.Github.Client.{WorkflowRun, login, queued_job_metadata}

-- strings.Cut at a byte; `none` where it is not found.
unfoldable pub cut : Text → ℕ → Option (Text × Text)
cut [] sep = none
cut (c ∷ s) sep =
    let rest = cut s sep in
    if c == sep
    then some ([], s)
    else elim rest [ none ↦ none | some (before, after) ↦ some (c ∷ before, after) ]

pub data Answer : Type 0 where
  request_failed no_run : Answer
  run_found : WorkflowRun → Answer

pub data Resolved : Type 0 where
  id_not_positive bad_repository get_failed run_missing no_actor not_active : Resolved
  resolved : Job → Resolved

-- Whether the run of a status may still start jobs.
abbrev pub is_active : Text → Bool
is_active status = text_eq status (codes "queued") || text_eq status (codes "in_progress")

-- ResolveQueuedJob from the metadata on.
unfoldable pub resolve_run : Text → Text → List Text → WorkflowRun → Resolved
unfolding queued_job_metadata
resolve_run client repository labels run =
    let job = queued_job_metadata run in
    if is_empty job.actor
    then no_actor
    else if is_active run.status
    then resolved (record job { client = some client; repository = repository; labels = labels })
    else not_active

-- ResolveQueuedJob from the answer on.
unfoldable pub resolve_answer : Text → Text → List Text → Answer → Resolved
unfolding resolve_run
resolve_answer client repository labels request_failed = get_failed
resolve_answer client repository labels no_run = run_missing
resolve_answer client repository labels (run_found run) = resolve_run client repository labels run

-- ResolveQueuedJob from the split of the repository on.
unfoldable pub resolve_in :
    Text → (Text → Text → Answer) → Text → List Text → Option (Text × Text) → Resolved
unfolding resolve_answer
resolve_in client get repository labels none = bad_repository
resolve_in client get repository labels (some (owner, repo)) =
    if is_empty owner || is_empty repo
    then bad_repository
    else resolve_answer client repository labels (get owner repo)

-- ResolveQueuedJob
unfoldable pub resolve_queued_job :
    Text → (Text → Text → ℤ → Answer) → Text → ℤ → List Text → Resolved
unfolding resolve_in cut
resolve_queued_job client get repository (negsuc n) labels = id_not_positive
resolve_queued_job client get repository (pos zero) labels = id_not_positive
resolve_queued_job client get repository (pos (suc n)) labels =
    resolve_in client (λ owner repo. get owner repo (pos (suc n))) repository labels
      (cut repository 47)

-- What a resolved job of a run has: the run's data, an actor, and the event's repository and labels.
pub record Authoritative (client repository : Text) (labels : List Text) (run : WorkflowRun)
    (job : Job) : Type 0 where
  pub named : is_empty job.actor ≡ false
  pub actor : job.actor ≡ login run.triggering_actor
  pub path : job.workflow_path ≡ run.path
  pub event : job.event ≡ run.event
  pub ref : job.ref ≡ run.head_branch
  pub by : job.client ≡ some client
  pub of : job.repository ≡ repository
  pub labelled : job.labels ≡ labels
  pub active : is_active run.status ≡ true

cut_lem :
    (s : Text) (sep : ℕ) (before after : Text)
    → cut s sep ≡ some (before, after)
    → s ≡ before ++ sep ∷ after
unfolding cut
cut_lem [] sep before after h = cc
cut_lem (c ∷ s) sep before after h = elim (Bool-cases (c == sep)) [
  | inl e ↦ let k = rw e at h in let c≡sep : c ≡ sep = ground (arith, e) in cc (k, c≡sep)
  | inr e ↦ elim (Option-cases (cut s sep)) [
    | inl n ↦ cc (rw (e, n) at h)
    | inr ((b, a), f) ↦ let k = rw (e, f) at h in cc (k, cut_lem s sep b a f)
  ]
]

resolve_run-Authoritative :
    (client repository : Text) (labels : List Text) (run : WorkflowRun) (job : Job)
    → resolve_run client repository labels run ≡ resolved job
    → Authoritative client repository labels run job
unfolding resolve_run queued_job_metadata
resolve_run-Authoritative client repository labels run job h =
    elim (Bool-cases (is_empty (login run.triggering_actor))) [
      | inl e ↦ cc (rw e at h)
      | inr e ↦ elim (Bool-cases (is_active run.status)) [
        | inr f ↦ cc (rw (e, f) at h)
        | inl f ↦
            let own = rw (e, f) at h in
            subst (Authoritative client repository labels run) (cc own) (record {
              named = e;
              actor = refl;
              path = refl;
              event = refl;
              ref = refl;
              by = refl;
              of = refl;
              labelled = refl;
              active = f;
            })
      ]
    ]

-- A run that GitHub answers for an owner and a repository that the text of the event names.
pub record Looked (get : Text → Text → Answer) (repository : Text) (run : WorkflowRun)
    : Type 0 where
  pub owner : Text
  pub repo : Text
  pub spelled : repository ≡ owner ++ 47 ∷ repo
  pub owned : is_empty owner ≡ false
  pub placed : is_empty repo ≡ false
  pub got : get owner repo ≡ run_found run

resolve_answer-Authoritative :
    (client repository : Text) (labels : List Text) (answer : Answer) (job : Job)
    → resolve_answer client repository labels answer ≡ resolved job
    → (run : WorkflowRun) × (answer ≡ run_found run)
      × Authoritative client repository labels run job
unfolding resolve_answer
resolve_answer-Authoritative client repository labels request_failed job h = cc
resolve_answer-Authoritative client repository labels no_run job h = cc
resolve_answer-Authoritative client repository labels (run_found run) job h =
    (run, refl, resolve_run-Authoritative client repository labels run job h)

resolve_in-Authoritative :
    (client : Text) (get : Text → Text → Answer) (repository owner repo : Text) (labels : List Text)
    (job : Job)
    → repository ≡ owner ++ 47 ∷ repo
    → resolve_in client get repository labels (some (owner, repo)) ≡ resolved job
    → (run : WorkflowRun) × Looked get repository run
      × Authoritative client repository labels run job
unfolding resolve_in
resolve_in-Authoritative client get repository owner repo labels job s h =
    elim (Bool-cases (is_empty owner)) [
      | inl e ↦ cc (rw e at h)
      | inr e ↦ elim (Bool-cases (is_empty repo)) [
        | inl f ↦ cc (rw (e, f) at h)
        | inr f ↦
            let (run, got, a) =
              resolve_answer-Authoritative client repository labels (get owner repo) job
                (rw (e, f) at h) in
            (
              run,
              record { owner = owner; repo = repo; spelled = s; owned = e; placed = f; got = got },
              a,
            )
      ]
    ]

-- A job that is resolved for an event has a positive run id; its repository is written "owner/repo"
-- with neither part empty, GitHub answers that owner and repository with a run of this id, and that run
-- is queued or in progress. The job's actor, which is not empty, its workflow path, event and ref are
-- those of the run, never the event's; its labels and repository are the event's.
pub resolve_queued_job-Authoritative :
    (client : Text) (get : Text → Text → ℤ → Answer) (repository : Text) (id : ℤ)
    (labels : List Text) (job : Job)
    → resolve_queued_job client get repository id labels ≡ resolved job
    → (lt_int (pos 0) id ≡ true)
      × ((run : WorkflowRun) × Looked (λ owner repo. get owner repo id) repository run
          × Authoritative client repository labels run job)
unfolding resolve_queued_job resolve_in
resolve_queued_job-Authoritative client get repository (negsuc n) labels job h = cc
resolve_queued_job-Authoritative client get repository (pos zero) labels job h = cc
resolve_queued_job-Authoritative client get repository (pos (suc n)) labels job h =
    elim (Option-cases (cut repository 47)) [
      | inl e ↦ cc (rw e at h)
      | inr ((owner, repo), e) ↦ (
        ground arith,
        resolve_in-Authoritative client (λ o r. get o r (pos (suc n))) repository owner repo labels
            job (cut_lem repository 47 owner repo e) (rw e at h),
      )
    ]
