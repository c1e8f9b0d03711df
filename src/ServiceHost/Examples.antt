-- ===== src/ServiceHost/Examples.antt =====
-- Three fatal runs, the first eleven minutes before the last.
use multirunner.Common.{ℕ, ◌≡◌, List, [], ◌∷◌, count_if, arith}
use multirunner.ServiceHost.Failures.{is_recent, record_all, failure_count, failure_count-window}

abbrev times : List ℕ
times = 660000000000 ∷ 600000000000 ∷ 0 ∷ []

failure_count-window_example :
    failure_count 660000000000 (record_all [] times) ≡ count_if (is_recent 660000000000) times
failure_count-window_example =
    failure_count-window [] 660000000000 times (omega arith, (omega arith, (omega arith, tt)))
