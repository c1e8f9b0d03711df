-- ===== src/ScaleSet/Histories.antt =====
-- The methods of a Launcher, run whole, are histories of its steps.
use multirunner.Common.{
  ℕ, ◌≤◌, ◌≡◌, refl, true, not, ◌&&◌, ◌⊎◌, Option, none, some, List, [], ◌∷◌, if◌then◌else◌,
  if_elim, ℤ, negsuc, arith, Option-cases, inl, inr, lookup, is_some,
}
use multirunner.ScaleSet.Errors.{Err}
use multirunner.ScaleSet.State.{Launcher, Env, running_locked}
use multirunner.ScaleSet.Cleanup.{
  finish_runner, retry_pending_registrations, retry_cleanup_loop, retry_pending_cleanup, names_if,
  add_error,
}
use multirunner.ScaleSet.Launcher.{
  Reply, served, desired_begin, desired_launch, desired_retries, handle_desired_runner_count,
  mark_exit, await_exit, is_clean_exit, is_permanent,
}
use multirunner.ScaleSet.Shutdown.{finish_all, shutdown}
use multirunner.ScaleSet.Steps.{
  begins, retries, finishes, serves, exits, refills, shuts_down, Reach, here, next, Reach-trans,
  Sound, Reach-Sound,
}

retry_cleanup_loop-Reach :
    (env : Env) (names : List ℕ) (errs : Option Err) (l : Launcher)
    → Reach l (retry_cleanup_loop env names errs l).1
unfolding retry_cleanup_loop
retry_cleanup_loop-Reach env [] errs l = here
retry_cleanup_loop-Reach env (name ∷ names) errs l = elim (Option-cases (lookup name l.runners)) [
  | inl e ↦ rw (e, retry_cleanup_loop) (retry_cleanup_loop-Reach env names errs l)
  | inr (s, e) ↦
      let first = next here (finishes l env name s.exit_code s.wait_err true) in
      let (x, l') = finish_runner env name s.exit_code s.wait_err true l in
      rw (e, retry_cleanup_loop)
        (if_elim (λ (o : Option Err × Launcher). Reach l o.1) (env.cancelled name) _ _ (λ _. first)
          λ _. Reach-trans first (retry_cleanup_loop-Reach env names (add_error errs x) l'))
]

desired_retries-Reach :
    (env : Env) (count : ℕ) (l : Launcher) → Reach l (desired_retries env count l).2
unfolding desired_retries retry_pending_cleanup
desired_retries-Reach env count l =
    let (e, l1) = retry_pending_registrations env l in
    let (d, l2) = retry_pending_cleanup env l1 in
    let r1 = next here (retries l env) in
    let r2 = Reach-trans r1 (
      retry_cleanup_loop-Reach env (names_if (λ s. not s.cleaned && s.cleanup_started) l1.runners)
        none l1) in
    if_elim (λ (r : Reply). Reach l r.2) (is_permanent e) _ _ (λ _. r1)
      λ _.
        if_elim (λ (r : Reply). Reach l r.2) (is_permanent d) _ _ (λ _. r2)
          λ _. next r2 (serves l2 env count)

-- HandleDesiredRunnerCount is a history of steps.
pub handle_desired_runner_count-Reach :
    (env : Env) (count : ℕ) (l : Launcher) → Reach l (handle_desired_runner_count env count l).2
unfolding handle_desired_runner_count
handle_desired_runner_count-Reach env count l =
    if_elim (λ (r : Reply). Reach l r.2) l.stopped _ _ (λ _. here)
      λ e. Reach-trans (next here (begins l count e)) (desired_retries-Reach env count _)

-- So is awaitExit, from the return of Wait on.
pub await_exit-Reach :
    (env : Env) (name : ℕ) (code : ℤ) (err : Option Err) (l : Launcher)
    → Reach l (await_exit env name code err l)
unfolding await_exit
await_exit-Reach env name code err l =
    let clean = is_clean_exit code err in
    let l1 = if clean then mark_exit name l else l in
    let r1 : Reach l l1 =
      if_elim (λ u. Reach l u) clean _ _ (λ _. next here (exits l name)) (λ _. here) in
    let r2 = next r1 (finishes l1 env name code err (is_some err)) in
    if_elim (λ u. Reach l u) clean _ _ (λ _. next r2 (refills _ env)) (λ _. r2)

finish_all-Reach :
    (env : Env) (names : List ℕ) (errs : Option Err) (l : Launcher)
    → Reach l (finish_all env names errs l).1
unfolding finish_all
finish_all-Reach env [] errs l = here
finish_all-Reach env (name ∷ names) errs l =
    Reach-trans (next here (finishes l env name (negsuc 0) none true))
      (finish_all-Reach env names _ _)

-- And so is Shutdown.
pub shutdown-Reach : (env : Env) (l : Launcher) → Reach l (shutdown env l).1
unfolding shutdown
shutdown-Reach env l =
    next
      (Reach-trans (next here (shuts_down l))
        (finish_all-Reach env (names_if (λ s. not s.cleaned) l.runners) none _))
      (retries _ env)

-- The count is the launcher's own, and an error is a permanent one.
abbrev Honest : Reply → Type 0
Honest r = (r.0 ≡ running_locked r.2) × ((r.1 ≡ none) ⊎ (is_permanent r.1 ≡ true))

served-Honest : (o : Option Err × Launcher) → Honest (served o)
unfolding served is_permanent
served-Honest (none, l) = (refl, inl refl)
served-Honest (some x, l) = (refl, ground arith)

desired_launch-Honest : (env : Env) (count : ℕ) (l : Launcher) → Honest (desired_launch env count l)
unfolding desired_launch
desired_launch-Honest env count l =
    if_elim Honest l.stopped _ _ (λ _. (refl, inl refl)) (λ _. served-Honest _)

desired_retries-Honest :
    (env : Env) (count : ℕ) (l : Launcher) → Honest (desired_retries env count l)
unfolding desired_retries
desired_retries-Honest env count l =
    let (e, l1) = retry_pending_registrations env l in
    let (d, l2) = retry_pending_cleanup env l1 in
    if_elim Honest (is_permanent e) _ _ (λ h. (refl, inr h))
      λ _.
        if_elim Honest (is_permanent d) _ _ (λ h. (refl, inr h))
          λ _. desired_launch-Honest env count l2

-- From a sound launcher HandleDesiredRunnerCount returns the number of runners that the launcher
-- it leaves counts, which is within MaxRunners if that is set; and no error, or a permanent one:
-- any other failure of a launch or of a cleanup keeps the listener alive.
pub handle_desired_runner_count-Sound :
    (env : Env) (count : ℕ) (l : Launcher)
    → Sound l
    → let (n, e, u) = handle_desired_runner_count env count l in
      (n ≡ running_locked u)
      × ((u.max_runners ≡ 0) ⊎ (n ≤ u.max_runners))
      × ((e ≡ none) ⊎ (is_permanent e ≡ true))
unfolding handle_desired_runner_count
handle_desired_runner_count-Sound env count l s =
    let r = handle_desired_runner_count env count l in
    let h : Honest r =
      if_elim Honest l.stopped _ _ (λ _. (refl, inl refl))
        (λ _. desired_retries-Honest env count (desired_begin count l)) in
    let t = Reach-Sound (handle_desired_runner_count-Reach env count l) s in
    (h.0, rw h.0 t.capped, h.1)
