-- ===== src/ServiceHost/Program/Examples.antt =====
-- Tests of the service's life, and the theorem about it at a concrete input.
use multirunner.Common.{Bool, true, false, not, ◌==◌, ℕ, ◌≡◌, refl, none, List, [], ◌∷◌, codes}
use multirunner.ServiceHost.Failures.{failure_count}
use multirunner.ServiceHost.Program.{
  start, stop, failed, run_orchestrator, clear_failures, without_service_worker_environment,
}
use multirunner.ServiceHost.Program.CrashLoop.{Life, fresh_program, ended, workers}

abbrev life : Bool → ℕ → Life
life recorded t = record {
  started_at = t;
  failed_at = t;
  summary = [];
  readable = true;
  recorded = recorded;
}

-- The second failure cannot be recorded.
abbrev lives : List Life
lives =
    life true 10 ∷ life false 20 ∷ life true 30 ∷ life true 40 ∷ life true 50 ∷ life true 60 ∷ []

abbrev restarts : ℕ → Bool
restarts code = not (code == 0)

five_workers : workers restarts lives clear_failures ≡ 5
unfolding workers ended failure_count
five_workers = refl

-- A failure after Stop ends nothing.
stopped_first :
    (run_orchestrator true 5 (failed []) (stop (fresh_program clear_failures))).exits ≡ []
unfolding run_orchestrator stop
stopped_first = refl

started_once : start (fresh_program clear_failures) ≡ none
unfolding start
started_once = refl

filtered :
    without_service_worker_environment
      (codes "PATH=/bin" ∷ codes "multirunner_internal_service_config=x" ∷ [])
    ≡ codes "PATH=/bin" ∷ []
unfolding without_service_worker_environment
filtered = refl
