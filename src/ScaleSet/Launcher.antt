-- ===== src/ScaleSet/Launcher.antt =====
-- internal/scaleset/launcher.go, the methods of a Launcher.
--
-- `mu` serialises the regions that read or write the launcher; each function here is one of them,
-- or composes them in the source's order. `ScaleSet/Steps.antt` lets the regions interleave.

use multirunner.Common.{
  ℕ, zero, suc, ◌+◌, ◌-◌, Bool, true, false, not, ◌&&◌, ◌||◌, Option, none, some, List, [], ◌∷◌,
  ◌==◌, leb, ltb, if◌then◌else◌, is_some, ℤ, pos, negsuc, is_zero, Table, lookup, put, delete,
  codes, length, any,
}
use multirunner.ScaleSet.Errors.{Err, wrap, join, new_error, is_permanent_session_error}
use multirunner.ScaleSet.State.{
  RunnerState, Launcher, on_start, on_stop, generated, launched, deregistered, Env, Trial, Launched,
  started, partial, failed, JitReply, config, nil_config, refused, running_locked,
}
use multirunner.ScaleSet.Cleanup.{
  Outcome, finish_runner, remove_runner, retry_pending_cleanup, retry_pending_registrations,
}

-- New: `max` is opts.MaxRunners.
unfoldable pub new_launcher : ℕ → Launcher
new_launcher max = record {
  max_runners = max;
  ctx_done = false;
  runners = [];
  pending_registrations = [];
  pending_exits = [];
  completions = [];
  seq = 0;
  desired = 0;
  stopped = false;
  trace = [];
}

-- want -= len(pendingExits): where the int would be negative, ℕ stops at 0, and both compare alike
-- with `have`. MaxRunners - have is 0 or negative where ℕ gives 0.
unfoldable pub allowed_locked : Launcher → ℕ → ℕ
unfolding running_locked
allowed_locked l count =
    let want = count - length l.pending_exits in
    let have = running_locked l in
    let start = want - have in
    let free = l.max_runners - have in
    if leb want have
    then 0
    else if ltb 0 l.max_runners
    then if free == 0 then 0 else if ltb free start then free else start
    else start

-- A new runnerState; `stop` is stopReported.
unfoldable pub new_state : ℕ → ℕ → Bool → RunnerState
new_state handle id stop = record {
  handle = handle;
  runner_id = id;
  busy = false;
  completion_accounted = false;
  occupies_capacity = true;
  cleanup_started = false;
  needs_deregistration = false;
  registration_removed = false;
  terminated = false;
  cleaned = false;
  stop_reported = stop;
  exit_code = pos 0;
  wait_err = none;
}

-- The deferred call: an error is reported by OnStop(-1, err).
unfoldable pub launch_failed : Err → Launcher → Outcome
launch_failed e l = (some e, record l { trace = on_stop (negsuc 0) (some e) ∷ l.trace })

-- Launch returned an error and no handle: the registration is removed, or kept for a retry.
unfoldable pub drop_registration : Env → ℕ → ℕ → Err → Launcher → Outcome
unfolding remove_runner launch_failed
drop_registration env name id e l = elim (remove_runner env id) [
  | none ↦ launch_failed e (record l { trace = deregistered id ∷ l.trace })
  | some r ↦
      launch_failed (join e (wrap (codes "scaleset: remove unused runner: ") r))
        (record l { pending_registrations = put id name l.pending_registrations })
]

-- The last part of launchLocked: be.Launch with the runner's JIT config. The goroutine that cleans
-- up a partial launch is a step of its own.
unfoldable pub launch_backend : Env → ℕ → ℕ → Launched → Launcher → Outcome
unfolding new_state launch_failed drop_registration
launch_backend env name id (started h) l = (
  none,
  record l { runners = put name (new_state h id false) l.runners; trace = launched h ∷ l.trace },
)
launch_backend env name id (partial h e) l =
    launch_failed (wrap (codes "scaleset: launch: ") e)
      (record l { runners = put name (new_state h id true) l.runners })
launch_backend env name id (failed e) l =
    drop_registration env name id (wrap (codes "scaleset: launch: ") e) l

unfoldable pub launch_jit : Env → ℕ → JitReply → Launched → Launcher → Outcome
unfolding launch_backend
launch_jit env name nil_config b l =
    launch_failed (new_error (codes "scaleset: generate JIT config returned nil")) l
launch_jit env name (refused e) b l =
    launch_failed (wrap (codes "scaleset: generate JIT config: ") e) l
launch_jit env name (config id) b l =
    if id == 0
    then launch_failed
        (new_error (codes "scaleset: generate JIT config returned no runner identity")) l
    else launch_backend env name id b (record l { trace = generated id ∷ l.trace })

-- The state after `OnStart()` and `l.seq++`.
unfoldable pub launch_begin : Launcher → Launcher
launch_begin l = record l { seq = l.seq + 1; trace = on_start ∷ l.trace }

-- From the name on: crypto/rand may fail.
unfoldable pub launch_named : Env → Option ℕ → Trial → Launcher → Outcome
unfolding launch_jit launch_failed
launch_named env none t l =
    launch_failed (wrap (codes "scaleset: generate runner name: ") t.short_id_err) l
launch_named env (some name) t l = launch_jit env name t.jit t.launch l

unfoldable pub launch_locked : Env → Launcher → Outcome
unfolding launch_named launch_begin
launch_locked env l =
    let t = env.trial (l.seq + 1) in launch_named env t.short_id t (launch_begin l)

-- for n := allowed; n > 0; n-- { if err := l.launchLocked(); … return }
unfoldable pub launch_loop : Env → ℕ → Launcher → Outcome
launch_loop env zero l = (none, l)
launch_loop env (suc n) l =
    let (e, l') = launch_locked env l in
    elim e [ none ↦ launch_loop env n l' | some x ↦ (some x, l') ]

-- A completion that the statistics account for.
unfoldable pub account_one : ℕ → Launcher → Launcher
account_one name l = record l {
  pending_exits = delete name l.pending_exits;
  runners = elim (lookup name l.runners) [
    | none ↦ l.runners
    | some s ↦ put name (record s { completion_accounted = true }) l.runners
  ];
}

unfoldable pub account : List ℕ → Launcher → Launcher
unfolding account_one
account [] l = l
account (name ∷ names) l = account names (account_one name l)

-- The first locked region of HandleDesiredRunnerCount, on a launcher that is not stopped.
unfoldable pub desired_begin : ℕ → Launcher → Launcher
unfolding account
desired_begin count l =
    let l' = account l.completions l in
    record l' {
      completions = [];
      pending_exits = if count == 0 then [] else l'.pending_exits;
      desired = count;
    }

-- What HandleDesiredRunnerCount returns: the runners served, and an error.
abbrev pub Reply : Type 0
Reply = ℕ × Option Err × Launcher

-- The result after the launches: a permanent error only is returned.
unfoldable pub served : Outcome → Reply
unfolding running_locked
served (none, l) = (running_locked l, none, l)
served (some x, l) = (running_locked l, if is_permanent_session_error x then some x else none, l)

-- The last locked region.
unfoldable pub desired_launch : Env → ℕ → Launcher → Reply
unfolding launch_loop running_locked allowed_locked served
desired_launch env count l =
    if l.stopped
    then (running_locked l, none, l)
    else served (launch_loop env (allowed_locked l count) l)

-- isPermanentSessionError(err), nil included
unfoldable pub is_permanent : Option Err → Bool
is_permanent none = false
is_permanent (some x) = is_permanent_session_error x

-- A cleanup retry that fails permanently ends the callback.
unfoldable pub desired_retries : Env → ℕ → Launcher → Reply
unfolding is_permanent retry_pending_registrations retry_pending_cleanup desired_launch
desired_retries env count l =
    let (e, l1) = retry_pending_registrations env l in
    let (d, l2) = retry_pending_cleanup env l1 in
    if is_permanent e
    then (running_locked l1, e, l1)
    else if is_permanent d
    then (running_locked l2, d, l2)
    else desired_launch env count l2

unfoldable pub handle_desired_runner_count : Env → ℕ → Launcher → Reply
unfolding desired_begin desired_retries
handle_desired_runner_count env count l =
    if l.stopped
    then (running_locked l, none, l)
    else desired_retries env count (desired_begin count l)

-- The locked region of awaitExit, for a runner that exited with code 0 and no error.
unfoldable pub mark_exit : ℕ → Launcher → Launcher
mark_exit name l = elim (lookup name l.runners) [
  | none ↦ l
  | some s ↦
      if not s.completion_accounted && ltb 0 l.desired
      then record l { pending_exits = put name s.runner_id l.pending_exits }
      else l
]

unfoldable pub refill : Env → Launcher → Launcher
unfolding launch_loop allowed_locked
refill env l =
    let (_, l') = launch_loop env (allowed_locked l l.desired) l in
    if l.stopped || l.ctx_done then l else l'

unfoldable pub is_clean_exit : ℤ → Option Err → Bool
is_clean_exit code none = is_zero code
is_clean_exit code (some e) = false

-- awaitExit, from the return of Wait on
unfoldable pub await_exit : Env → ℕ → ℤ → Option Err → Launcher → Launcher
unfolding mark_exit finish_runner refill is_clean_exit
await_exit env name code err l =
    let l1 = if is_clean_exit code err then mark_exit name l else l in
    let (_, l2) = finish_runner env name code err (is_some err) l1 in
    if is_clean_exit code err then refill env l2 else l2

-- job.RunnerID and job.RunnerName; 0 stands for the empty name.
unfoldable pub is_job_of : ℕ → ℕ → ℕ → ℕ → Bool
is_job_of id name runner_id runner_name =
    (not (id == 0) && runner_id == id) || (not (name == 0) && runner_name == name)

unfoldable pub mark_busy : ℕ → ℕ → Table RunnerState → Table RunnerState
unfolding is_job_of
mark_busy id name [] = []
mark_busy id name ((n, s) ∷ t) =
    if not s.cleaned && is_job_of id name s.runner_id n
    then (n, record s { busy = true }) ∷ t
    else (n, s) ∷ mark_busy id name t

unfoldable pub handle_job_started : ℕ → ℕ → Launcher → Launcher
unfolding mark_busy
handle_job_started id name l = record l { runners = mark_busy id name l.runners }

-- The first running name that the job names, else the first pending exit.
unfoldable pub completed_running : ℕ → ℕ → Table RunnerState → Option ℕ
unfolding is_job_of
completed_running id name [] = none
completed_running id name ((n, s) ∷ t) =
    if not s.cleaned && is_job_of id name s.runner_id n then some n else completed_running id name t

unfoldable pub completed_pending : ℕ → ℕ → Table ℕ → Option ℕ
unfolding is_job_of
completed_pending id name [] = none
completed_pending id name ((n, rid) ∷ t) =
    if is_job_of id name rid n then some n else completed_pending id name t

-- completions is a set
unfoldable pub add_name : ℕ → List ℕ → List ℕ
add_name n ns = if any (λ m. m == n) ns then ns else n ∷ ns

unfoldable pub handle_job_completed : ℕ → ℕ → Launcher → Launcher
unfolding completed_running completed_pending add_name
handle_job_completed id name l = elim (completed_running id name l.runners) [
  | some n ↦ record l { completions = add_name n l.completions }
  | none ↦ elim (completed_pending id name l.pending_exits) [
    | some n ↦ record l { completions = add_name n l.completions }
    | none ↦ l
  ]
]
