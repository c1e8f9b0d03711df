-- ===== src/Config/Validate.antt =====
-- internal/config/config.go: Validate.
pub mod Passing
pub mod Bounds
pub mod Rules
use multirunner.Common.{
  ℕ, Bool, true, false, not, ◌&&◌, ◌||◌, Option, none, some, List, [], ◌∷◌, ◌++◌, if◌then◌else◌,
  any, Text, text_eq, is_zero,
}
use multirunner.Config.Scope.{Scope, scope_repos, scope_enterprise}
use multirunner.Config.Strings.{to_lower, seen_before}
use multirunner.Config.Types.{
  Provisioning, pool_mode, is_autoscale, is_scaleset, Auth, is_app, is_device_app, Docker, Pool,
  Config,
}
use multirunner.Config.Checks.{
  Error, auth_required, scaleset_serves_no_repos, enterprise_app, device_app_repos,
  unknown_provisioning, pool_required, scale_set_required, shared_workspace, shared_scale_set,
  first_failure, and_then,
}
use multirunner.Config.Targets.{check_scope}
use multirunner.Config.Pools.{
  Outside, check_name, check_backend, check_tls, check_workspace, check_size,
}
use multirunner.Config.Workflows.{check_repository, check_workflows}
use multirunner.Config.Limits.{validate_container_config}
use multirunner.Config.Images.{validate_image_tier}
use multirunner.Pool.Access.{is_empty}

abbrev pub is_repos : Option Scope → Bool
is_repos (some scope_repos) = true
is_repos _ = false

abbrev pub is_enterprise : Option Scope → Bool
is_enterprise (some scope_enterprise) = true
is_enterprise _ = false

abbrev pub is_pool_mode : Provisioning → Bool
is_pool_mode pool_mode = true
is_pool_mode _ = false

-- The checks between the scope and the pools.
unfoldable pub check_auth : Config → Option Error
unfolding first_failure is_app is_device_app is_autoscale is_scaleset
check_auth c = first_failure (
    (
      is_empty c.auth.pat
          && not (is_device_app c.auth)
          && (is_zero c.auth.app_id
              || is_zero c.auth.installation_id
              || is_empty c.auth.private_key_path),
      auth_required,
    )
    ∷ (is_scaleset c.provisioning && is_repos c.github.scope, scaleset_serves_no_repos)
    ∷ (is_enterprise c.github.scope && (is_app c.auth || is_device_app c.auth), enterprise_app)
    ∷ (is_repos c.github.scope && is_device_app c.auth, device_app_repos)
    ∷ (
      not (is_pool_mode c.provisioning)
          && not (is_autoscale c.provisioning)
          && not (is_scaleset c.provisioning),
      unknown_provisioning,
    )
    ∷ (is_empty c.pools, pool_required)
    ∷ [])

-- The body of `for i := range c.Pools`.
unfoldable pub check_pool : Outside → Config → List Text → Pool → Option Error
unfolding and_then first_failure is_scaleset
check_pool env c seen p = and_then (check_name seen p) (
    and_then (check_backend env p) (
      and_then (check_tls p) (
        and_then (check_workspace p) (
          and_then (check_size p) (
            and_then (check_repository c.provisioning c.github p) (
              and_then (check_workflows p) (
                and_then (validate_container_config env p) (
                  and_then
                    (first_failure (
                      (is_scaleset c.provisioning && is_empty p.scale_set, scale_set_required)
                      ∷ []))
                    (validate_image_tier env p)))))))))

-- for i := range c.Pools
unfoldable pub check_pools : Outside → Config → List Text → List Pool → Option Error
unfolding and_then
check_pools env c seen [] = none
check_pools env c seen (p ∷ pools) =
    and_then (check_pool env c seen p) (check_pools env c (p.name ∷ seen) pools)

-- The key of a shared workspace.
abbrev pub workspace_key : Pool → Text
workspace_key p = to_lower p.docker.host ++ 0 ∷ to_lower p.work_folder

-- for _, p := range c.Pools, over the shared workspaces.
unfoldable pub check_shared_workspaces : List Text → List Pool → Option Error
check_shared_workspaces seen [] = none
check_shared_workspaces seen (p ∷ pools) =
    let skipped = check_shared_workspaces seen pools in
    let kept = check_shared_workspaces (workspace_key p ∷ seen) pools in
    if not p.docker.share_workspace
    then skipped
    else if seen_before (workspace_key p) seen
    then some shared_workspace
    else kept

-- if c.Provisioning.IsScaleset() { ... }
unfoldable pub check_scale_sets : List Text → List Pool → Option Error
check_scale_sets seen [] = none
check_scale_sets seen (p ∷ pools) =
    let kept = check_scale_sets (p.scale_set ∷ seen) pools in
    if seen_before p.scale_set seen then some shared_scale_set else kept

-- Validate
unfoldable pub validate : Outside → Config → Option Error
unfolding and_then is_scaleset check_scope check_auth check_pools check_pool check_name
    check_backend check_tls check_workspace check_size check_repository check_workflows
    validate_container_config validate_image_tier check_shared_workspaces check_scale_sets
validate env c = and_then (check_scope c.github.scope c.github c.auth) (
    and_then (check_auth c) (
      and_then (check_pools env c [] c.pools) (
        and_then (check_shared_workspaces [] c.pools)
          (if is_scaleset c.provisioning then check_scale_sets [] c.pools else none))))
