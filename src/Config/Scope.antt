-- ===== src/Config/Scope.antt =====
-- internal/config/config.go, Scope: the level of GitHub that a runner registers against.
use multirunner.Common.{Bool, true, false}

pub data Scope : Type 0 where
  scope_repo scope_repos scope_org scope_enterprise : Scope

abbrev pub is_repo : Scope → Bool
is_repo Scope.scope_repo = true
is_repo _ = false
