-- ===== src/Autoscale/Steps.antt =====
-- The scaler under any order of events, ends of runners and polls.
use multirunner.Common.{
  ℕ, zero, suc, ◌≤◌, ◌≡◌, true, false, Option, none, some, List, [], ◌∷◌, if_elim, All, Text,
  length, Bool-cases, inl, inr, arith,
}
use multirunner.Pool.Access.{PoolConfig, Job}
use multirunner.Config.Scope.{Scope, scope_repo, scope_repos}
use multirunner.Autoscale.{
  Place, Scaler, PollError, no_error, repo_poll_error, other_error, new_states, serves, launch_in,
  launch_for, on_queued, event_job, requires_metadata, resolved, launch_each, poll, reconcile,
  remove_at, release,
}
use multirunner.Autoscale.Launching.{is_willing, launch_in-willing, launch_in-unwilling}

pub data Step (s : Scaler) : Scaler → Type 0 where
  queued :
      (client : Option Text) (repo : Text) (run_id : ℕ) (labels : List Text)
      → Step s (on_queued client repo run_id labels s)
  resolves :
      (k : ℕ) (job : Option Job)
      → Step s (resolved job (record s { pending = remove_at k s.pending }))
  ends : (i k : ℕ) → Step s (record s { states = release i k s.states })
  polls : (scope : Scope) (jobs : List Job) (err : PollError) → Step s (reconcile scope jobs err s)

pub data Reach (cs : List PoolConfig) : Scaler → Type 0 where
  fresh : Reach cs (record { states = new_states cs; pending = [] })
  next : {s t : Scaler} → Reach cs s → Step s t → Reach cs t

-- A pool holds no more runners than its size, and each for a job that it may serve and whose labels
-- it carries.
pub record IsFit (st : Place) : Type 0 where
  pub within : length st.held ≤ st.config.size
  pub served : All (λ (job : Job). serves st.config job ≡ true) st.held

abbrev pub AllFit : Scaler → Type 0
AllFit s = All IsFit s.states

launch-IsFit :
    (job : Job) (st : Place)
    → is_willing job st ≡ true
    → IsFit st
    → IsFit (record st { held = job ∷ st.held })
launch-IsFit job st w f = record {
  within = ground (arith, w);
  served = (ground (arith, w), f.served);
}

launch_in-AllFit : (job : Job) (sts : List Place) → All IsFit sts → All IsFit (launch_in job sts)
launch_in-AllFit job [] a = unfold launch_in in tt
launch_in-AllFit job (st ∷ sts) a = elim (Bool-cases (is_willing job st)) [
  | inl w ↦ rw (launch_in-willing job st sts w) (launch-IsFit job st w a.0, a.1)
  | inr w ↦ rw (launch_in-unwilling job st sts w) (a.0, launch_in-AllFit job sts a.1)
]

launch_for-AllFit : (job : Job) (s : Scaler) → AllFit s → AllFit (launch_for job s)
unfolding launch_for
launch_for-AllFit job s a = launch_in-AllFit job s.states a

launch_each-AllFit : (jobs : List Job) (s : Scaler) → AllFit s → AllFit (launch_each jobs s)
unfolding launch_each
launch_each-AllFit [] s a = a
launch_each-AllFit (job ∷ jobs) s a =
    launch_each-AllFit jobs (launch_for job s) (launch_for-AllFit job s a)

poll-AllFit : (jobs : List Job) (err : PollError) (s : Scaler) → AllFit s → AllFit (poll jobs err s)
unfolding poll
poll-AllFit jobs (repo_poll_error true) s a = a
poll-AllFit jobs (repo_poll_error false) s a = launch_each-AllFit jobs s a
poll-AllFit jobs no_error s a = launch_each-AllFit jobs s a
poll-AllFit jobs other_error s a = launch_each-AllFit jobs s a

reconcile-AllFit :
    (scope : Scope) (jobs : List Job) (err : PollError) (s : Scaler)
    → AllFit s
    → AllFit (reconcile scope jobs err s)
unfolding reconcile
reconcile-AllFit scope_repo jobs err s a = poll-AllFit jobs err s a
reconcile-AllFit scope_repos jobs err s a = poll-AllFit jobs err s a
reconcile-AllFit Scope.scope_org jobs err s a = a
reconcile-AllFit Scope.scope_enterprise jobs err s a = a

on_queued-AllFit :
    (client : Option Text) (repo : Text) (run_id : ℕ) (labels : List Text) (s : Scaler)
    → AllFit s
    → AllFit (on_queued client repo run_id labels s)
unfolding on_queued
on_queued-AllFit none repo run_id labels s a = a
on_queued-AllFit (some client) repo run_id labels s a =
    if_elim AllFit (requires_metadata labels s.states) _ _ (λ _. a)
      (λ _. launch_for-AllFit (event_job client repo labels) s a)

length-remove_at : {A : Type 0} (k : ℕ) (xs : List A) → length (remove_at k xs) ≤ length xs
unfolding remove_at
length-remove_at k [] = omega arith
length-remove_at zero (x ∷ xs) = omega arith
length-remove_at (suc k) (x ∷ xs) = omega (arith, length-remove_at k xs)

remove_at-All :
    {A : Type 0} (P : A → Type 0) (k : ℕ) (xs : List A) → All P xs → All P (remove_at k xs)
unfolding remove_at
remove_at-All P k [] a = tt
remove_at-All P zero (x ∷ xs) a = a.1
remove_at-All P (suc k) (x ∷ xs) a = (a.0, remove_at-All P k xs a.1)

release-AllFit : (i k : ℕ) (sts : List Place) → All IsFit sts → All IsFit (release i k sts)
unfolding release
release-AllFit i k [] a = tt
release-AllFit zero k (st ∷ sts) a = (
  record {
    within = omega (arith, a.0.within, length-remove_at k st.held);
    served = remove_at-All (λ (job : Job). serves st.config job ≡ true) k st.held a.0.served;
  },
  a.1,
)
release-AllFit (suc i) k (st ∷ sts) a = (a.0, release-AllFit i k sts a.1)

resolved-AllFit : (job : Option Job) (s : Scaler) → AllFit s → AllFit (resolved job s)
unfolding resolved
resolved-AllFit none s a = a
resolved-AllFit (some job) s a = launch_for-AllFit job s a

Step-AllFit : (s t : Scaler) → Step s t → AllFit s → AllFit t
Step-AllFit s _ (queued client repo run_id labels) a =
    on_queued-AllFit client repo run_id labels s a
Step-AllFit s _ (resolves k job) a =
    resolved-AllFit job (record s { pending = remove_at k s.pending }) a
Step-AllFit s _ (ends i k) a = release-AllFit i k s.states a
Step-AllFit s _ (polls scope jobs err) a = reconcile-AllFit scope jobs err s a

new_states-AllFit : (cs : List PoolConfig) → All IsFit (new_states cs)
unfolding new_states
new_states-AllFit [] = tt
new_states-AllFit (c ∷ cs) = (record { within = omega arith; served = tt }, new_states-AllFit cs)

-- Whatever events, polls, resolutions and ends of runners came before, in any order, no pool runs
-- more runners than its size, and each runner is for a job that its pool may serve and whose labels
-- it carries.
pub Reach-AllFit : (cs : List PoolConfig) (s : Scaler) → Reach cs s → AllFit s
Reach-AllFit cs _ fresh = new_states-AllFit cs
Reach-AllFit cs t (next {s} h step) = Step-AllFit s t step (Reach-AllFit cs s h)
