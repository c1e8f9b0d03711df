-- ===== src/ScaleSet/Steps.antt =====
-- internal/scaleset/launcher.go as a step relation. The goroutines of a Launcher meet at `mu`: each
-- constructor is what one of them does between two releases of it, and a history is any sequence of
-- these, with any answers from the backend and from GitHub. A cleanup that another goroutine would
-- interrupt is one whose next call to the outside fails, followed by the retry.
use multirunner.Common.{
  ℕ, ◌+◌, ◌≤◌, ◌≡◌, ◌⊎◌, refl, Bool, true, false, Option, none, some, ℤ, arith, if_elim, ◌||◌,
}
use multirunner.ScaleSet.Errors.{Err}
use multirunner.ScaleSet.State.{Launcher, Env, running_locked, unreported}
use multirunner.ScaleSet.Cleanup.{Outcome, finish_runner, retry_pending_registrations}
use multirunner.ScaleSet.Cleanup.Follows.{starts, stops}
use multirunner.ScaleSet.Launcher.{
  launch_loop, allowed_locked, desired_begin, Reply, served, desired_launch, mark_exit, refill,
  handle_job_started, handle_job_completed,
}
use multirunner.ScaleSet.Launching.{launch_loop-Spends, running-allowed_locked}
use multirunner.ScaleSet.Quiet.{
  Quiet, Quiet-refl, finish_runner-Quiet, desired_begin-Quiet, retry_pending_registrations-Quiet,
  mark_exit-Quiet, handle_job_started-Quiet, handle_job_completed-Quiet, stop-Quiet,
  reconcile-Quiet,
}
use multirunner.ScaleSet.Shutdown.{Listing, reconcile}

pub data Step : Launcher → Launcher → Type 0 where
  begins : (l : Launcher) (count : ℕ) → l.stopped ≡ false → Step l (desired_begin count l)
  retries : (l : Launcher) (env : Env) → Step l (retry_pending_registrations env l).1
  finishes :
      (l : Launcher) (env : Env) (name : ℕ) (code : ℤ) (err : Option Err) (terminate : Bool)
      → Step l (finish_runner env name code err terminate l).1
  serves : (l : Launcher) (env : Env) (count : ℕ) → Step l (desired_launch env count l).2
  exits : (l : Launcher) (name : ℕ) → Step l (mark_exit name l)
  refills : (l : Launcher) (env : Env) → Step l (refill env l)
  job_starts : (l : Launcher) (id name : ℕ) → Step l (handle_job_started id name l)
  job_completes : (l : Launcher) (id name : ℕ) → Step l (handle_job_completed id name l)
  shuts_down : (l : Launcher) → Step l (record l { stopped = true })
  reconciles : (l : Launcher) (env : Env) (x : Listing) → Step l (reconcile env x l).launcher

pub data Reach (l : Launcher) : Launcher → Type 0 where
  here : Reach l l
  next : {u v : Launcher} → Reach l u → Step u v → Reach l v

pub Reach-trans : {l u v : Launcher} → Reach l u → Reach u v → Reach l v
Reach-trans r here = r
Reach-trans r (next t s) = next (Reach-trans r t) s

-- The cap holds, and no OnStop is called without its OnStart.
pub record Sound (l : Launcher) : Type 0 where
  pub capped : (l.max_runners ≡ 0) ⊎ (running_locked l ≤ l.max_runners)
  pub accounted : stops l.trace + unreported l ≤ starts l.trace

Quiet-Sound : {l u : Launcher} → Quiet l u → Sound l → Sound u
Quiet-Sound q s = ground (arith, s.capped)

launch_allowed-Sound :
    (env : Env) (count : ℕ) (l : Launcher)
    → Sound l
    → Sound (launch_loop env (allowed_locked l count) l).1
launch_allowed-Sound env count l s = ground (
  arith,
  s.capped,
  launch_loop-Spends env (allowed_locked l count) l,
  running-allowed_locked l count,
)

launcher-served : (o : Outcome) → (served o).2 ≡ o.1
unfolding served
launcher-served (none, l) = refl
launcher-served (some x, l) = refl

pub desired_launch-Sound :
    (env : Env) (count : ℕ) (l : Launcher) → Sound l → Sound (desired_launch env count l).2
unfolding desired_launch
desired_launch-Sound env count l s =
    if_elim (λ (r : Reply). Sound r.2) l.stopped _ _ (λ _. s)
      λ _. rw launcher-served (launch_allowed-Sound env count l s)

refill-Sound : (env : Env) (l : Launcher) → Sound l → Sound (refill env l)
unfolding refill
refill-Sound env l s = if_elim Sound _ _ _ (λ _. s) (λ _. launch_allowed-Sound env l.desired l s)

pub Step-Sound : {l u : Launcher} → Step l u → Sound l → Sound u
Step-Sound (begins l count e) s = Quiet-Sound (desired_begin-Quiet count l) s
Step-Sound (retries l env) s = Quiet-Sound (retry_pending_registrations-Quiet env l) s
Step-Sound (finishes l env name code err terminate) s =
    Quiet-Sound (finish_runner-Quiet env name code err terminate l) s
Step-Sound (serves l env count) s = desired_launch-Sound env count l s
Step-Sound (exits l name) s = Quiet-Sound (mark_exit-Quiet name l) s
Step-Sound (refills l env) s = refill-Sound env l s
Step-Sound (job_starts l id name) s = Quiet-Sound (handle_job_started-Quiet id name l) s
Step-Sound (job_completes l id name) s = Quiet-Sound (handle_job_completed-Quiet id name l) s
Step-Sound (shuts_down l) s = Quiet-Sound (stop-Quiet l) s
Step-Sound (reconciles l env x) s = Quiet-Sound (reconcile-Quiet env x l) s

-- Whatever the interleaving and whatever the backend and GitHub answer, the launcher never counts
-- more runners than MaxRunners (if that is set), and the calls of OnStop together with the runners
-- whose stop is still to be reported are never more than the calls of OnStart.
pub Reach-Sound : {l u : Launcher} → Reach l u → Sound l → Sound u
Reach-Sound here s = s
Reach-Sound (next r t) s = Step-Sound t (Reach-Sound r s)

serves-Quiet :
    (l : Launcher) (env : Env) (count : ℕ)
    → l.stopped ≡ true
    → Quiet l (desired_launch env count l).2
unfolding desired_launch
serves-Quiet l env count h =
    if_elim (λ (r : Reply). Quiet l r.2) l.stopped _ _ (λ _. Quiet-refl l) (λ e. cc)

refills-Quiet : (l : Launcher) (env : Env) → l.stopped ≡ true → Quiet l (refill env l)
unfolding refill
refills-Quiet l env h =
    if_elim (λ r. Quiet l r) (l.stopped || l.ctx_done) _ _ (λ _. Quiet-refl l) (λ e. ground arith)

Step-stopped : {l u : Launcher} → Step l u → l.stopped ≡ true → Quiet l u
Step-stopped (begins l count e) h = cc
Step-stopped (retries l env) h = retry_pending_registrations-Quiet env l
Step-stopped (finishes l env name code err terminate) h =
    finish_runner-Quiet env name code err terminate l
Step-stopped (serves l env count) h = serves-Quiet l env count h
Step-stopped (exits l name) h = mark_exit-Quiet name l
Step-stopped (refills l env) h = refills-Quiet l env h
Step-stopped (job_starts l id name) h = handle_job_started-Quiet id name l
Step-stopped (job_completes l id name) h = handle_job_completed-Quiet id name l
Step-stopped (shuts_down l) h = stop-Quiet l
Step-stopped (reconciles l env x) h = reconcile-Quiet env x l

stopped_stays : {l u : Launcher} → Quiet l u → l.stopped ≡ true → u.stopped ≡ true
stopped_stays q h = ground arith

-- Once Shutdown has begun, no step of any goroutine starts a runner: OnStart is not called again,
-- no slot is taken, and the launcher stays stopped.
pub Reach-stopped :
    {l u : Launcher}
    → Reach l u
    → l.stopped ≡ true
    → (starts u.trace ≡ starts l.trace) × (running_locked u ≤ running_locked l) × (u.stopped ≡ true)
Reach-stopped here h = (refl, omega arith, h)
Reach-stopped (next r t) h =
    let (same, falls, still) = Reach-stopped r h in
    let q = Step-stopped t still in
    (omega (arith, q, same), omega (arith, q, falls), stopped_stays q still)
