-- ===== src/ScaleSet/Quiet.antt =====
-- The operations of a launcher that start no runner.
use multirunner.Common.{
  ℕ, ◌+◌, ◌≤◌, ◌≡◌, refl, Bool, true, false, not, Option, none, some, List, [], ◌∷◌, bit,
  if◌then◌else◌, ℤ, negsuc, arith, lookup, put, delete, Table, count_values, count_values-put,
  Option-cases, inl, inr, Bool-cases,
}
use multirunner.ScaleSet.Errors.{Err}
use multirunner.ScaleSet.State.{
  RunnerState, Launcher, Env, is_occupying, running_locked, is_unreported, unreported, deregistered,
}
use multirunner.ScaleSet.Cleanup.{
  Progress, apply_action, finish_state, finish_runner, remove_runner, retry_registrations_loop,
  retry_pending_registrations, retry_cleanup_loop, retry_pending_cleanup, add_error, names_if,
}
use multirunner.ScaleSet.Cleanup.Follows.{Follows, finish_state-Follows, starts, stops}
use multirunner.ScaleSet.Launcher.{
  account, account_one, desired_begin, mark_exit, mark_busy, handle_job_started,
  handle_job_completed,
}
use multirunner.ScaleSet.Shutdown.{
  finish_all, shutdown, Pass, OwnedRunner, Listing, reconcile_one, reconcile_loop, reconcile,
  listed, unlisted, is_active,
}

-- No slot is taken, no OnStart is called, and every OnStop is that of a runner to report.
pub record Quiet (l u : Launcher) : Type 0 where
  pub same_max : u.max_runners ≡ l.max_runners
  pub running_falls : running_locked u ≤ running_locked l
  pub same_starts : starts u.trace ≡ starts l.trace
  pub reports_match : stops u.trace + unreported u ≡ stops l.trace + unreported l
  pub stopped_rises : bit l.stopped ≤ bit u.stopped

pub Quiet-refl : (l : Launcher) → Quiet l l
Quiet-refl l = ground arith

pub Quiet-trans : {l u v : Launcher} → Quiet l u → Quiet u v → Quiet l v
Quiet-trans f g = omega arith

if-Quiet :
    {A : Type 0} (b : Bool) (x y : A × Launcher) (l : Launcher)
    → Quiet l x.1
    → Quiet l y.1
    → Quiet l (if b then x else y).1
if-Quiet true x y l f g = f
if-Quiet false x y l f g = g

-- A registration that was removed.
abbrev after_removal : ℕ → Launcher → Launcher
after_removal id l = record l {
  pending_registrations = delete id l.pending_registrations;
  trace = deregistered id ∷ l.trace;
}

removal-Quiet : (l : Launcher) (id : ℕ) → Quiet l (after_removal id l)
unfolding running_locked unreported
removal-Quiet l id = ground arith

-- Only the record that follows a cleanup replaces a runner's.
replace-Quiet :
    (name : ℕ) (s : RunnerState) (l : Launcher) (q : Progress)
    → lookup name l.runners ≡ some s
    → Follows (record { state = s; trace = l.trace }) q
    → Quiet l (record l { runners = put name q.state l.runners; trace = q.trace })
unfolding running_locked unreported is_occupying is_unreported
replace-Quiet name s l q e f = ground (
  arith,
  count_values-put is_occupying name q.state l.runners,
  count_values-put is_unreported name q.state l.runners,
)

pub finish_runner-Quiet :
    (env : Env) (name : ℕ) (code : ℤ) (err : Option Err) (terminate : Bool) (l : Launcher)
    → Quiet l (finish_runner env name code err terminate l).1
unfolding finish_runner
finish_runner-Quiet env name code err terminate l = elim (Option-cases (lookup name l.runners)) [
  | inl e ↦ rw (e, apply_action) (Quiet-refl l)
  | inr (s, e) ↦
      let p : Progress = record { state = s; trace = l.trace } in
      rw (e, apply_action)
        (replace-Quiet name s l (finish_state env code err terminate p).1 e
          (finish_state-Follows env code err terminate p))
]

account_one-Quiet : (name : ℕ) (l : Launcher) → Quiet l (account_one name l)
unfolding account_one running_locked unreported is_occupying is_unreported
account_one-Quiet name l = elim (Option-cases (lookup name l.runners)) [
  | inl e ↦ ground (arith, e)
  | inr (s, e) ↦
      let v : RunnerState = record s { completion_accounted = true } in
      ground (
        arith,
        e,
        count_values-put is_occupying name v l.runners,
        count_values-put is_unreported name v l.runners,
      )
]

account-Quiet : (names : List ℕ) (l : Launcher) → Quiet l (account names l)
unfolding account
account-Quiet [] l = Quiet-refl l
account-Quiet (name ∷ names) l =
    Quiet-trans (account_one-Quiet name l) (account-Quiet names (account_one name l))

pub desired_begin-Quiet : (count : ℕ) (l : Launcher) → Quiet l (desired_begin count l)
unfolding desired_begin running_locked unreported
desired_begin-Quiet count l = ground (arith, account-Quiet l.completions l)

retry_registrations_loop-Quiet :
    (env : Env) (t : Table ℕ) (errs : Option Err) (l : Launcher)
    → Quiet l (retry_registrations_loop env t errs l).1
unfolding retry_registrations_loop
retry_registrations_loop-Quiet env [] errs l = Quiet-refl l
retry_registrations_loop-Quiet env ((id, name) ∷ t) errs l =
    elim (Option-cases (remove_runner env id)) [
      | inl e ↦
          rw (e, retry_registrations_loop)
            (Quiet-trans (removal-Quiet l id)
              (retry_registrations_loop-Quiet env t errs (after_removal id l)))
      | inr (x, e) ↦ rw (e, retry_registrations_loop) (retry_registrations_loop-Quiet env t _ l)
    ]

pub retry_pending_registrations-Quiet :
    (env : Env) (l : Launcher) → Quiet l (retry_pending_registrations env l).1
unfolding retry_pending_registrations
retry_pending_registrations-Quiet env l =
    retry_registrations_loop-Quiet env l.pending_registrations none l

retry_cleanup_loop-Quiet :
    (env : Env) (names : List ℕ) (errs : Option Err) (l : Launcher)
    → Quiet l (retry_cleanup_loop env names errs l).1
unfolding retry_cleanup_loop
retry_cleanup_loop-Quiet env [] errs l = Quiet-refl l
retry_cleanup_loop-Quiet env (name ∷ names) errs l = elim (Option-cases (lookup name l.runners)) [
  | inl e ↦ rw (e, retry_cleanup_loop) (retry_cleanup_loop-Quiet env names errs l)
  | inr (s, e) ↦
      let q = finish_runner-Quiet env name s.exit_code s.wait_err true l in
      let (x, l') = finish_runner env name s.exit_code s.wait_err true l in
      rw (e, retry_cleanup_loop)
        (if-Quiet (env.cancelled name) _ _ _ q
          (Quiet-trans q (retry_cleanup_loop-Quiet env names (add_error errs x) l')))
]

pub retry_pending_cleanup-Quiet :
    (env : Env) (l : Launcher) → Quiet l (retry_pending_cleanup env l).1
unfolding retry_pending_cleanup
retry_pending_cleanup-Quiet env l = retry_cleanup_loop-Quiet env _ none l

pub mark_exit-Quiet : (name : ℕ) (l : Launcher) → Quiet l (mark_exit name l)
unfolding mark_exit running_locked unreported
mark_exit-Quiet name l = ground arith

count-mark_busy :
    (p : RunnerState → Bool)
    → ((s : RunnerState) → p (record s { busy = true }) ≡ p s)
    → (id name : ℕ) (t : Table RunnerState)
    → count_values p (mark_busy id name t) ≡ count_values p t
unfolding mark_busy count_values
count-mark_busy p h id name [] = refl
count-mark_busy p h id name ((n, s) ∷ t) = ground (arith, h s, count-mark_busy p h id name t)

pub handle_job_started-Quiet : (id name : ℕ) (l : Launcher) → Quiet l (handle_job_started id name l)
unfolding handle_job_started running_locked unreported is_occupying is_unreported
handle_job_started-Quiet id name l = ground (
  arith,
  count-mark_busy is_occupying (λ s. refl) id name l.runners,
  count-mark_busy is_unreported (λ s. refl) id name l.runners,
)

pub handle_job_completed-Quiet :
    (id name : ℕ) (l : Launcher) → Quiet l (handle_job_completed id name l)
unfolding handle_job_completed running_locked unreported
handle_job_completed-Quiet id name l = ground arith

pub stop-Quiet : (l : Launcher) → Quiet l (record l { stopped = true })
unfolding running_locked unreported
stop-Quiet l = ground arith

finish_all-Quiet :
    (env : Env) (names : List ℕ) (errs : Option Err) (l : Launcher)
    → Quiet l (finish_all env names errs l).1
unfolding finish_all
finish_all-Quiet env [] errs l = Quiet-refl l
finish_all-Quiet env (name ∷ names) errs l =
    Quiet-trans (finish_runner-Quiet env name (negsuc 0) none true l)
      (finish_all-Quiet env names _ _)

pub shutdown-Quiet : (env : Env) (l : Launcher) → Quiet l (shutdown env l).1
unfolding shutdown
shutdown-Quiet env l = Quiet-trans (stop-Quiet l) (
    Quiet-trans (finish_all-Quiet env (names_if (λ s. not s.cleaned) l.runners) none _)
      (retry_pending_registrations-Quiet env _))

reconcile_one-Quiet :
    (env : Env) (o : OwnedRunner) (p : Pass) → Quiet p.launcher (reconcile_one env o p).launcher
unfolding reconcile_one running_locked unreported
reconcile_one-Quiet env o p = ground arith

reconcile_loop-Quiet :
    (env : Env) (active : List ℕ) (os : List OwnedRunner) (p : Pass)
    → Quiet p.launcher (reconcile_loop env active os p).launcher
unfolding reconcile_loop
reconcile_loop-Quiet env active [] p = Quiet-refl p.launcher
reconcile_loop-Quiet env active (o ∷ os) p = elim (Bool-cases (is_active active o.resource_id)) [
  | inl e ↦ rw (e, reconcile_loop) (reconcile_loop-Quiet env active os p)
  | inr e ↦
      rw (e, reconcile_loop)
        (Quiet-trans (reconcile_one-Quiet env o p)
          (reconcile_loop-Quiet env active os (reconcile_one env o p)))
]

pub reconcile-Quiet :
    (env : Env) (x : Listing) (l : Launcher) → Quiet l (reconcile env x l).launcher
unfolding reconcile
reconcile-Quiet env (unlisted e) l = Quiet-refl l
reconcile-Quiet env (listed os) l = elim (Bool-cases env.has_store) [
  | inl e ↦ rw e (reconcile_loop-Quiet env _ os _)
  | inr e ↦ rw e (Quiet-refl l)
]
