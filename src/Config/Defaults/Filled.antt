-- ===== src/Config/Defaults/Filled.antt =====
-- The defaults fill in what is not set, and leave the rest alone.
use multirunner.Config.Scope.{Scope}
use multirunner.Config.Types.{Config}
