-- ===== src/ServiceHost/Program.antt =====
-- cmd/multirunner/service_lifecycle.go and service_supervisor.go: the life of the service's process.
--
-- The worker process runs on the outside: how it ends is an argument, and so is whether the file of the
-- failures can be read and written. What is written reads back, and a write that fails changes nothing.
-- The exit codes are those that the process is told to end with.
pub mod CrashLoop
mod Examples
use multirunner.Common.{
  ℕ, ◌+◌, ◌-◌, Bool, true, false, not, ◌&&◌, ◌||◌, Option, none, some, List, [], ◌∷◌, ◌==◌, leb,
  if◌then◌else◌, Text, codes, text_eq, any,
}
use multirunner.ServiceHost.Failures.{FailureHistory, record_failure}

-- CrashLoopFailureCount
abbrev pub crash_loop_failure_count : ℕ
crash_loop_failure_count = 3 + 1

abbrev pub failure_exit_code : ℕ
failure_exit_code = 1

-- What p.run returns: nil, a recoveryExhaustedError, another error, or a panic.
pub data RunResult : Type 0 where
  finished exhausted : RunResult
  failed panicked : Text → RunResult

-- program, with the failures on disk: the newest exit code first.
pub record Program : Type 0 where
  pub interactive : Bool
  pub started : Bool
  pub stopping : Bool
  pub cancelled : Bool
  pub failures : FailureHistory
  pub exits : List ℕ

-- ClearFailures
abbrev pub clear_failures : FailureHistory
clear_failures = record { failures = []; last_error = [] }

-- Start: `none` is its error.
unfoldable pub start : Program → Option Program
start p =
    if p.started
    then none
    else some (record p { started = true; stopping = false; cancelled = false })

-- managedServiceExitCode: the exit code, whether there is an error, and the recorded failures. The
-- first argument says whether RecordFailure succeeds.
unfoldable pub managed_service_exit_code :
    Bool → Bool → ℕ → Text → FailureHistory → ℕ × Bool × FailureHistory
unfolding record_failure
managed_service_exit_code recorded true now summary h = (failure_exit_code, false, h)
managed_service_exit_code true false now summary h =
    (failure_exit_code, false, record_failure now summary h)
managed_service_exit_code false false now summary h = (failure_exit_code, true, h)

-- stopCrashLoop, with the exit code 0 of terminateClean.
unfoldable pub stop_crash_loop : Program → Program
stop_crash_loop p = if p.stopping then p else record p { stopping = true; exits = 0 ∷ p.exits }

-- fail, with the terminate of runService, which only logs the error of managedServiceExitCode.
unfoldable pub fail : Bool → ℕ → Text → Program → Program
unfolding managed_service_exit_code
fail recorded now summary p =
    if p.stopping || p.cancelled
    then p
    else let ended = managed_service_exit_code recorded p.interactive now summary p.failures in
      record p { stopping = true; failures = ended.2; exits = ended.0 ∷ p.exits }

-- runOrchestrator behind p.run.
unfoldable pub run_orchestrator : Bool → ℕ → RunResult → Program → Program
unfolding stop_crash_loop fail
run_orchestrator recorded now finished p = p
run_orchestrator recorded now exhausted p = stop_crash_loop p
run_orchestrator recorded now (failed summary) p = fail recorded now summary p
run_orchestrator recorded now (panicked summary) p = fail recorded now summary p

-- Stop; the context is there once the program was started.
unfoldable pub stop : Program → Program
stop p = record p {
  stopping = true;
  cancelled = p.cancelled || p.started;
  failures = clear_failures;
}

-- The switch on the count of failures: whether a worker is started, and the result.
unfoldable pub supervise_counted : Option ℕ → RunResult → Bool × RunResult
supervise_counted none worker = (false, failed (codes "read service recovery state"))
supervise_counted (some count) worker =
    if leb crash_loop_failure_count count then (false, exhausted) else (true, worker)

-- superviseServiceWorker; `count` is what FailureCount returns, `none` for an error, and `worker` what
-- newServiceWorkerSpec and superviseProcess lead to.
unfoldable pub supervise_service_worker : Bool → Option ℕ → RunResult → Bool × RunResult
unfolding supervise_counted
supervise_service_worker interactive count worker =
    if interactive then (true, worker) else supervise_counted count worker

abbrev pub worker_environment : List Text
worker_environment =
    codes "MULTIRUNNER_INTERNAL_SERVICE_WORKER"
    ∷ codes "MULTIRUNNER_INTERNAL_SERVICE_CONFIG"
    ∷ codes "MULTIRUNNER_INTERNAL_SERVICE_INSTALL_DEPS"
    ∷ codes "MULTIRUNNER_INTERNAL_SERVICE_INTERACTIVE"
    ∷ []

abbrev pub upper : Text → Text
upper [] = []
upper (c ∷ s) = (if leb 97 c && leb c 122 then c - 32 else c) ∷ upper s

-- strings.Cut(entry, "="): the part before.
abbrev pub variable_name : Text → Text
variable_name [] = []
variable_name (c ∷ s) = let rest = variable_name s in if c == 61 then [] else c ∷ rest

-- withoutServiceWorkerEnvironment
unfoldable pub without_service_worker_environment : List Text → List Text
without_service_worker_environment [] = []
without_service_worker_environment (entry ∷ entries) =
    let rest = without_service_worker_environment entries in
    if any (text_eq (upper (variable_name entry))) worker_environment then rest else entry ∷ rest
