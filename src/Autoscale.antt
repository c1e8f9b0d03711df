-- ===== src/Autoscale.antt =====
-- internal/autoscale/autoscale.go: runners on demand, from webhook events and from polling.
--
-- The semaphore of a pool is a channel with room for `size` places; it is the list of the jobs whose
-- goroutines hold a place. What GitHub answers (the client of a repository, the resolved job, the
-- queued jobs) is an argument.
pub mod Launching
pub mod Labels
pub mod Steps
mod Examples
use multirunner.Common.{
  ℕ, zero, suc, ◌+◌, ◌≡◌, Bool, true, false, not, ◌&&◌, Option, none, some, List, [], ◌∷◌, ◌++◌,
  ltb, if◌then◌else◌, any, all, Text, length,
}
use multirunner.Config.Scope.{Scope, scope_repo, scope_repos}
use multirunner.Pool.Access.{PoolConfig, Job, equal_fold, allows, requires_workflow_metadata}

-- state: a launcher and its semaphore.
pub record Place : Type 0 where
  pub config : PoolConfig
  pub held : List Job

-- A goroutine of OnQueued that resolves the workflow metadata.
pub record Pending : Type 0 where
  pub client : Text
  pub repo : Text
  pub run_id : ℕ
  pub labels : List Text

-- `pending` holds the goroutines that run.
pub record Scaler : Type 0 where
  pub states : List Place
  pub pending : List Pending

-- labelsMatch
unfoldable pub labels_match : List Text → List Text → Bool
unfolding equal_fold
labels_match pool_labels [] = true
labels_match pool_labels (label ∷ job_labels) =
    any (λ p. equal_fold p label) pool_labels && labels_match pool_labels job_labels

-- New
unfoldable pub new_states : List PoolConfig → List Place
new_states [] = []
new_states (c ∷ cs) = record { config = c; held = [] } ∷ new_states cs

-- tryLaunch: none where the semaphore is full.
unfoldable pub try_launch : Place → Job → Option Place
try_launch st job =
    if ltb (length st.held) st.config.size then some (record st { held = job ∷ st.held }) else none

-- The test of launchFor.
unfoldable pub serves : PoolConfig → Job → Bool
unfolding allows labels_match
serves c job = allows c job && labels_match c.labels job.labels

-- The loop of launchFor.
unfoldable pub launch_in : Job → List Place → List Place
unfolding serves try_launch
launch_in job [] = []
launch_in job (st ∷ sts) =
    let skipped = st ∷ launch_in job sts in
    if serves st.config job
    then elim (try_launch st job) [ none ↦ skipped | some st' ↦ st' ∷ sts ]
    else skipped

-- launchFor
unfoldable pub launch_for : Job → Scaler → Scaler
unfolding launch_in
launch_for job s = record s { states = launch_in job s.states }

-- Some pool that the labels match needs the metadata.
unfoldable pub requires_metadata : List Text → List Place → Bool
unfolding labels_match requires_workflow_metadata
requires_metadata labels =
    any (λ st. labels_match st.config.labels labels && requires_workflow_metadata st.config)

-- The job of a webhook event, without metadata.
unfoldable pub event_job : Text → Text → List Text → Job
event_job client repo labels = record {
  client = some client;
  repository = repo;
  labels = labels;
  workflow_path = [];
  event = [];
  actor = [];
  ref = [];
}

-- OnQueued; the first argument is what ClientFor gives for the repository.
unfoldable pub on_queued : Option Text → Text → ℕ → List Text → Scaler → Scaler
unfolding requires_metadata launch_for event_job
on_queued none repo run_id labels s = s
on_queued (some client) repo run_id labels s =
    if requires_metadata labels s.states
    then record s {
      pending =
          record { client = client; repo = repo; run_id = run_id; labels = labels } ∷ s.pending;
    }
    else launch_for (event_job client repo labels) s

-- The rest of that goroutine: ResolveQueuedJob gives a job or an error.
unfoldable pub resolved : Option Job → Scaler → Scaler
unfolding launch_for
resolved none s = s
resolved (some job) s = launch_for job s

-- The error of QueuedJobs: none, a *RepoPollError with its AllFailed, or another.
pub data PollError : Type 0 where
  no_error : PollError
  repo_poll_error : Bool → PollError
  other_error : PollError

unfoldable pub launch_each : List Job → Scaler → Scaler
unfolding launch_for
launch_each [] s = s
launch_each (job ∷ jobs) s = launch_each jobs (launch_for job s)

unfoldable pub poll : List Job → PollError → Scaler → Scaler
unfolding launch_each
poll jobs (repo_poll_error true) s = s
poll jobs _ s = launch_each jobs s

-- reconcile
unfoldable pub reconcile : Scope → List Job → PollError → Scaler → Scaler
unfolding poll
reconcile scope_repo jobs err s = poll jobs err s
reconcile scope_repos jobs err s = poll jobs err s
reconcile _ jobs err s = s

-- The k-th element goes.
unfoldable pub remove_at {ℓ} : {A : Type ℓ} → ℕ → List A → List A
remove_at k [] = []
remove_at zero (x ∷ xs) = xs
remove_at (suc k) (x ∷ xs) = x ∷ remove_at k xs

-- The goroutine of the k-th held job of the i-th pool ends: <-st.sem.
unfoldable pub release : ℕ → ℕ → List Place → List Place
unfolding remove_at
release i k [] = []
release zero k (st ∷ sts) = record st { held = remove_at k st.held } ∷ sts
release (suc i) k (st ∷ sts) = st ∷ release i k sts
