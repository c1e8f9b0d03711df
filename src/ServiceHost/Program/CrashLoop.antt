-- ===== src/ServiceHost/Program/CrashLoop.antt =====
-- A service that keeps failing is not restarted for ever.
use multirunner.Common.{
  ℕ, ◌+◌, ◌≤◌, ◌<◌, ◌≡◌, true, false, List, [], ◌∷◌, if◌then◌else◌, length, Bool, not, bit,
  count_if, none, some, codes, Text, All,
}
use multirunner.ServiceHost.Failures.{FailureHistory, failure_window, record_failure, failure_count}
use multirunner.ServiceHost.Program.{
  RunResult, exhausted, Program, failed, run_orchestrator, supervise_service_worker,
}

-- A process that the service manager starts, and whose worker fails if it is started at all: the times
-- of its start and of its failure, and whether the recorded failures can be read and this one written.
pub record Life : Type 0 where
  pub started_at : ℕ
  pub failed_at : ℕ
  pub summary : Text
  pub readable : Bool
  pub recorded : Bool

abbrev pub fresh_program : FailureHistory → Program
fresh_program h = record {
  interactive = false;
  started = true;
  stopping = false;
  cancelled = false;
  failures = h;
  exits = [];
}

-- What superviseServiceWorker gives in a life.
abbrev pub supervised : Life → FailureHistory → Bool × RunResult
supervised life h =
    supervise_service_worker false
      (if life.readable then some (failure_count life.started_at h) else none) (failed life.summary)

-- The program at the end of a life.
unfoldable pub ended : Life → FailureHistory → Program
unfolding run_orchestrator supervise_service_worker
ended life h = run_orchestrator life.recorded life.failed_at (supervised life h).1 (fresh_program h)

-- The workers of later lives, if the manager starts the service again after this exit code.
unfoldable pub restarted : (ℕ → Bool) → List ℕ → ℕ → ℕ
restarted restarts [] n = 0
restarted restarts (code ∷ codes) n = if restarts code then n else 0

-- How many workers run, with a service manager that restarts the service after some exit codes.
unfoldable pub workers : (ℕ → Bool) → List Life → FailureHistory → ℕ
unfolding restarted
workers restarts [] h = 0
workers restarts (life ∷ lives) h =
    bit (supervised life h).0
    + restarted restarts (ended life h).exits (workers restarts lives (ended life h).failures)

-- The failures that could not be recorded.
abbrev pub unrecorded : List Life → ℕ
unrecorded lives = count_if (λ (l : Life). not l.recorded) lives

-- The lives follow one another, and all are within one window from the first failure on.
abbrev pub Within : ℕ → ℕ → List Life → Type 0
Within first now [] = Unit
Within first now (l ∷ lives) =
    (now ≤ l.started_at)
    × (l.started_at ≤ l.failed_at)
    × (l.failed_at < first + failure_window)
    × Within first l.failed_at lives

abbrev Between : ℕ → ℕ → List ℕ → Type 0
Between first now failures = All (λ (t : ℕ). (first ≤ t) × (t ≤ now)) failures

-- What a failure leaves behind.
abbrev after_failure : Life → Text → FailureHistory → FailureHistory
after_failure life summary h = if life.recorded then record_failure life.failed_at summary h else h

-- A life either ends the crash loop, or fails: with a worker only where fewer than four are recorded.
data Lived (life : Life) (h : FailureHistory) : Type 0 where
  gave_up : supervised life h ≡ (false, exhausted) → Lived life h
  unread : (s : Text) → supervised life h ≡ (false, failed s) → Lived life h
  worked :
      supervised life h ≡ (true, failed life.summary)
      → failure_count life.started_at h < 4
      → Lived life h

-- A failure is one more on record, unless it could not be recorded.
record Grown (first : ℕ) (life : Life) (h next : FailureHistory) : Type 0 where
  between : Between first life.failed_at next.failures
  longer : length next.failures + bit (not life.recorded) ≡ length h.failures + 1
