-- ===== src/ScaleSet/Cleanup.antt =====
-- internal/scaleset/launcher_cleanup.go.
--
-- `cleanupMu` lets one finishRunner run for a runner at a time, so its body is one function on the
-- runner's state, in the four parts that the source's lock regions make.
pub mod Follows
pub mod Completes
use multirunner.Common.{
  ℕ, Bool, true, false, not, ◌&&◌, ◌||◌, Option, none, some, List, [], ◌∷◌, ◌++◌, ◌==◌,
  if◌then◌else◌, ℤ, Table, lookup, put, delete, codes,
}
use multirunner.ScaleSet.Errors.{Err, wrap, join, new_error, is_http_status}
use multirunner.ScaleSet.State.{
  RunnerState, Launcher, Effect, on_stop, killed, deregistered, removed, Env,
}

-- One runner's state with the effects so far.
pub record Progress : Type 0 where
  pub state : RunnerState
  pub trace : List Effect

-- A part of the cleanup: it goes on, or returns an error.
abbrev pub Action : Type 0
Action = Progress → Option Err × Progress

infixl 5 ◌>>◌
abbrev pub ◌>>◌ : Action → Action → Action
◌>>◌ a b p = let (e, p') = a p in elim e [ none ↦ b p' | some x ↦ (some x, p') ]

unfoldable pub finish_begin : ℤ → Option Err → Bool → Action
finish_begin code err terminate p = (none, record p { state = begun })
  where
    s : RunnerState
    s = p.state

    begun : RunnerState
    begun =
        if not s.cleanup_started
        then record s {
          cleanup_started = true;
          exit_code = code;
          wait_err = err;
          needs_deregistration = terminate || not s.busy;
        }
        else if not terminate
        then record s { exit_code = code; wait_err = err }
        else s

-- The runner is terminated: its slot is free, and OnStop is called once.
unfoldable pub mark_terminated : Action
mark_terminated p = (none, record { state = stopped; trace = reports ++ p.trace })
  where
    s : RunnerState
    s = p.state

    stopped : RunnerState
    stopped = record s { terminated = true; occupies_capacity = false; stop_reported = true }

    reports : List Effect
    reports = if s.stop_reported then [] else on_stop s.exit_code s.wait_err ∷ []

unfoldable pub finish_terminate : Env → Bool → Action
unfolding mark_terminated
finish_terminate env terminate p =
    if p.state.terminated
    then (none, p)
    else if terminate
    then elim (env.kill p.state.handle) [
      | some e ↦ (some (wrap (codes "kill: ") e), p)
      | none ↦ mark_terminated (record p { trace = killed p.state.handle ∷ p.trace })
    ]
    else mark_terminated p

-- removeRunner: no id, an unknown runner and a 404 are no errors.
unfoldable pub remove_runner : Env → ℕ → Option Err
remove_runner env id = if id == 0 then none else elim (env.remove_runner_reply id) [
  | none ↦ none
  | some e ↦ if e.not_found || is_http_status e (codes "404") then none else some e
]

unfoldable pub finish_deregister : Env → Action
unfolding remove_runner
finish_deregister env p =
    if not (s.runner_id == 0) && s.needs_deregistration && not s.registration_removed
    then elim (remove_runner env s.runner_id) [
      | some e ↦ (some (wrap (codes "remove runner: ") e), p)
      | none ↦ (
        none,
        record {
          state = record s { registration_removed = true };
          trace = deregistered s.runner_id ∷ p.trace;
        },
      )
    ]
    else (none, p)
  where
    s : RunnerState
    s = p.state

unfoldable pub finish_remove : Env → Action
finish_remove env p =
    if not env.has_store
    then (some (new_error (codes "backend does not support scale-set ownership cleanup")), p)
    else elim (env.remove_owned s.handle) [
      | some e ↦ (some (wrap (codes "remove backend runner: ") e), p)
      | none ↦ (
        s.wait_err,
        record { state = record s { cleaned = true }; trace = removed s.handle ∷ p.trace },
      )
    ]
  where
    s : RunnerState
    s = p.state

-- if state.cleaned { return nil }
unfoldable pub unless_cleaned : Action → Action
unless_cleaned a p = if p.state.cleaned then (none, p) else a p

-- The rest of finishRunner, on the runner's state.
unfoldable pub finish_parts : Env → ℤ → Option Err → Bool → Action
finish_parts env code err terminate = do
  finish_begin code err terminate
  finish_terminate env terminate
  finish_deregister env
  finish_remove env

unfoldable pub finish_state : Env → ℤ → Option Err → Bool → Action
unfolding finish_parts unless_cleaned
finish_state env code err terminate = unless_cleaned (finish_parts env code err terminate)

-- The result of a method: an error or nil, and the launcher after it.
abbrev pub Outcome : Type 0
Outcome = Option Err × Launcher

-- An action on the runner of this name; a name that never stood in the map has none.
unfoldable pub apply_action : Action → ℕ → Launcher → Outcome
apply_action a name l = elim (lookup name l.runners) [
  | none ↦ (none, l)
  | some s ↦
      let (e, p) = a (record { state = s; trace = l.trace }) in
      (e, record l { runners = put name p.state l.runners; trace = p.trace })
]

-- finishRunner(name, state, …)
unfoldable pub finish_runner : Env → ℕ → ℤ → Option Err → Bool → Launcher → Outcome
unfolding finish_state apply_action
finish_runner env name code err terminate = apply_action (finish_state env code err terminate) name

-- append(errs, err), joined as the list grows
unfoldable pub add_error : Option Err → Option Err → Option Err
add_error none e = e
add_error (some a) none = some a
add_error (some a) (some b) = some (join a b)

-- The names of the runners that pass the test.
unfoldable pub names_if : (RunnerState → Bool) → Table RunnerState → List ℕ
names_if p [] = []
names_if p ((name, s) ∷ t) = let rest = names_if p t in if p s then name ∷ rest else rest

-- The loop of retryPendingCleanup: each runner is finished with its own exit code, and a cancelled
-- context ends the loop.
unfoldable pub retry_cleanup_loop : Env → List ℕ → Option Err → Launcher → Outcome
retry_cleanup_loop env [] errs l = (errs, l)
retry_cleanup_loop env (name ∷ names) errs l = elim (lookup name l.runners) [
  | none ↦ retry_cleanup_loop env names errs l
  | some s ↦
      let (e, l') = finish_runner env name s.exit_code s.wait_err true l in
      let rest = retry_cleanup_loop env names (add_error errs e) l' in
      if env.cancelled name then (add_error errs e, l') else rest
]

unfoldable pub retry_pending_cleanup : Env → Launcher → Outcome
unfolding retry_cleanup_loop names_if finish_runner
retry_pending_cleanup env l =
    retry_cleanup_loop env (names_if (λ s. not s.cleaned && s.cleanup_started) l.runners) none l

-- The loop of retryPendingRegistrations over the snapshot of the map.
unfoldable pub retry_registrations_loop : Env → Table ℕ → Option Err → Launcher → Outcome
retry_registrations_loop env [] errs l = (errs, l)
retry_registrations_loop env ((id, name) ∷ t) errs l = elim (remove_runner env id) [
  | some e ↦
      retry_registrations_loop env t
        (add_error errs (some (wrap (codes "remove unused runner: ") e))) l
  | none ↦ retry_registrations_loop env t errs (record l {
    pending_registrations = delete id l.pending_registrations;
    trace = deregistered id ∷ l.trace;
  })
]

unfoldable pub retry_pending_registrations : Env → Launcher → Outcome
unfolding retry_registrations_loop
retry_pending_registrations env l = retry_registrations_loop env l.pending_registrations none l
