-- ===== src/ScaleSet/Examples.antt =====
-- A host for two runners, asked for three.
use multirunner.Common.{
  ℕ, ◌+◌, ◌≤◌, ◌≡◌, ◌≢◌, refl, ◌⊎◌, inl, inr, true, false, none, some, [], ◌∷◌, pos, arith, lookup,
  put, count_values,
}
use multirunner.ScaleSet.Errors.{Err}
use multirunner.ScaleSet.State.{
  Launcher, Env, started, config, is_occupying, running_locked, unreported,
}
use multirunner.ScaleSet.Cleanup.{remove_runner, finish_state}
use multirunner.ScaleSet.Cleanup.Follows.{starts}
use multirunner.ScaleSet.Cleanup.Completes.{IsFinished, finish_state-Answers}
use multirunner.ScaleSet.Launcher.{
  new_launcher, new_state, allowed_locked, launch_locked, desired_launch,
  handle_desired_runner_count, refill, is_permanent,
}
use multirunner.ScaleSet.Shutdown.{Listing, listed, reconcile, active_resources, is_active}
use multirunner.ScaleSet.Steps.{Sound, here, next, refills, Reach-Sound, Reach-stopped}
use multirunner.ScaleSet.Histories.{
  handle_desired_runner_count-Reach, handle_desired_runner_count-Sound,
}
use multirunner.ScaleSet.Serving.{desired_launch-target}
use multirunner.ScaleSet.Reconciling.{removals, removals_of, reconcile-spares}
use multirunner.ScaleSet.Supervisor.{Config, Run, permanently_unavailable, supervise_session}
use multirunner.ScaleSet.Supervisor.Backoff.{
  last_state, supervise_session-backoffs, supervise_session-EndsRight,
}

abbrev no_err : Err
no_err = record { permanent = false; invalid_url = false; not_found = false; message = [] }

-- The n-th attempt gets the name n, the runner id n + 100 and the handle n + 200.
abbrev willing : Env
willing = record {
  trial = λ n. record {
    short_id = some n;
    short_id_err = no_err;
    jit = config (n + 100);
    launch = started (n + 200);
  };
  kill = λ _. none;
  remove_runner_reply = λ _. none;
  has_store = true;
  remove_owned = λ _. none;
  cancelled = λ _. false;
}

abbrev idle : Launcher
unfolding new_launcher
idle = new_launcher 2

idle-Sound : Sound idle
unfolding new_launcher running_locked unreported count_values
idle-Sound = record { capped = inr (omega arith); accounted = omega arith }

-- Two runners up, and GitHub asked for two.
abbrev full : Launcher
unfolding new_launcher new_state put
full = record (new_launcher 2) {
  runners = put 1 (new_state 201 101 false) (put 2 (new_state 202 102 false) []);
  desired = 2;
  seq = 2;
}

Reach-Sound_example : Sound (handle_desired_runner_count willing 3 idle).2
Reach-Sound_example = Reach-Sound (handle_desired_runner_count-Reach willing 3 idle) idle-Sound

abbrev halted : Launcher
unfolding new_launcher
halted = record idle { stopped = true }

Reach-stopped_example :
    (starts (refill willing halted).trace ≡ 0)
    × (running_locked (refill willing halted) ≤ running_locked halted)
    × ((refill willing halted).stopped ≡ true)
unfolding new_launcher
Reach-stopped_example = Reach-stopped (next here (refills halted willing)) refl

handle_desired_runner_count-Sound_example :
    let (n, e, u) = handle_desired_runner_count willing 3 idle in
    (n ≡ running_locked u)
    × ((u.max_runners ≡ 0) ⊎ (n ≤ u.max_runners))
    × ((e ≡ none) ⊎ (is_permanent e ≡ true))
handle_desired_runner_count-Sound_example =
    handle_desired_runner_count-Sound willing 3 idle idle-Sound

desired_launch-target_example :
    let (n, e, u) = desired_launch willing 3 idle in (n ≡ 2) × (e ≡ none) × (running_locked u ≡ 2)
unfolding new_launcher allowed_locked launch_locked new_state running_locked count_values put lookup
    is_occupying
desired_launch-target_example = desired_launch-target willing 3 idle refl (
  record {
    name = 1;
    id = 101;
    handle = 201;
    named = refl;
    configured = refl;
    identified = omega arith;
    starts = refl;
    unused = refl;
  },
  (
    record {
      name = 2;
      id = 102;
      handle = 202;
      named = refl;
      configured = refl;
      identified = omega arith;
      starts = refl;
      unused = refl;
    },
    tt,
  ),
)

finish_state-Answers_example :
    IsFinished
      (finish_state willing
        (pos 1)
        none
        true
        (record { state = new_state 201 101 false; trace = [] })).1.state
unfolding new_state remove_runner
finish_state-Answers_example =
    finish_state-Answers willing (pos 1) none
      (record { state = new_state 201 101 false; trace = [] })
      (record { cleaned_last = inl refl; terminated_free = inl refl })
      (record { kills = refl; deregisters = refl; stores = refl; removes = refl })

-- The store lists a runner in the map and one that a former process left.
abbrev leftovers : Listing
leftovers =
    listed (
      record { resource_id = 201; runner_id = 101 }
      ∷ record { resource_id = 9; runner_id = 8 }
      ∷ [])

reconcile-spares_example :
    let p = reconcile willing leftovers full in
    (removals p.launcher.trace ≡ p.reconciled)
    × ((id : ℕ)
        → is_active (active_resources full.runners) id ≡ true
        → removals_of id p.launcher.trace ≡ 0)
unfolding new_launcher new_state put reconcile
reconcile-spares_example = reconcile-spares willing leftovers full

abbrev minutes : Config
minutes = record { initial_backoff = 2; max_backoff = 60; healthy_after = 60 }

abbrev drop : Run
drop = record { was_available = true; result = none; lasted = 5; cancelled = false; slept = true }

supervise_session-backoffs_example :
    let (e, s) = supervise_session minutes (drop ∷ drop ∷ []) in
    (e ≡ none) × (s.failures ≡ 2) × (s.delays ≡ 4 ∷ 2 ∷ [])
unfolding is_permanent
supervise_session-backoffs_example = supervise_session-backoffs minutes (drop ∷ drop ∷ []) (
  record { recoverable = refl; soon = omega arith; goes_on = refl; slept = refl },
  (record { recoverable = refl; soon = omega arith; goes_on = refl; slept = refl }, tt),
)

supervise_session-EndsRight_example :
    let (e, s) = supervise_session minutes (drop ∷ []) in
    ((e ≡ none) × (last_state s ≢ some permanently_unavailable))
    ⊎ ((is_permanent e ≡ true) × (last_state s ≡ some permanently_unavailable))
supervise_session-EndsRight_example = supervise_session-EndsRight minutes (drop ∷ [])
