-- ===== src/ScaleSet/Order.antt =====
-- In every history a runner leaves the map only after it was terminated and deregistered.
use multirunner.Common.{AllValues}
use multirunner.ScaleSet.State.{Launcher}
use multirunner.ScaleSet.Cleanup.Completes.{Orderly}

abbrev pub AllOrderly : Launcher → Type 0
AllOrderly l = AllValues Orderly l.runners
