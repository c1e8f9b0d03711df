-- ===== src/Runner/Examples.antt =====
-- A runner whose wait fails, whose kill fails, and which GitHub has as idle but does not delete.
use multirunner.Common.{◌≡◌, refl, true, false, some, pos}
use multirunner.Runner.{Replies, started, idle, delete_failed, run_once}
use multirunner.Runner.Reclaiming.{severs_nothing, Reclaimed, run_once-Reclaimed}

abbrev lost : Replies
lost = record {
  jit = some 5;
  launched = started;
  exit_code = pos 0;
  wait_failed = true;
  cancelled = false;
  kill_succeeds = false;
  busy_reply = idle;
  deletion = delete_failed;
}

run_once-Reclaimed_example :
    (severs_nothing (run_once lost).trace ≡ true) × Reclaimed 5 lost (run_once lost).trace
run_once-Reclaimed_example = run_once-Reclaimed lost 5 refl refl
