-- ===== src/Config/Checks.antt =====
-- Chains of checks, of which the first that fails gives the error, and the errors of Validate.
use multirunner.Common.{
  ◌≡◌, refl, Bool, true, false, Option, none, some, List, [], ◌∷◌, if◌then◌else◌, All,
}

-- One constructor for each error that Validate and the functions it calls can return.
pub data Error : Type 0 where
  owner_and_repo_required repos_required invalid_repos_entry invalid_repos_part
        repos_owner_required :
      Error
  duplicate_repos_entry app_owners_differ owner_required unknown_scope : Error
  auth_required scaleset_serves_no_repos enterprise_app device_app_repos unknown_provisioning :
      Error
  pool_required name_required duplicate_name unknown_os : Error
  golden_required invalid_tools host_required : Error
  tls_backend tls_files_required tls_host : Error
  workspace_dind workspace_backend workspace_folder workspace_size invalid_size : Error
  invalid_repository repository_provisioning repository_not_managed repository_outside : Error
  workflows_repository workflows_incomplete invalid_workflow duplicate_workflow : Error
  invalid_event invalid_actor invalid_ref : Error
  negative_cpus cpus_overflow negative_memory memory_overflow negative_swap swap_overflow : Error
  swap_without_memory swap_below_memory container_qemu windows_swap containerd_dns invalid_dns :
      Error
  scale_set_required invalid_image_tier shared_workspace shared_scale_set : Error

-- `if condition { return error }`, one after the other.
unfoldable pub first_failure : List (Bool × Error) → Option Error
first_failure [] = none
first_failure ((failed, e) ∷ checks) = if failed then some e else first_failure checks

-- `if err := ...; err != nil { return err }`, and the code behind it.
unfoldable pub and_then : Option Error → Option Error → Option Error
and_then none later = later
and_then (some e) later = some e

abbrev pub Passed : List (Bool × Error) → Type 0
Passed checks = All (λ check. check.0 ≡ false) checks

-- No error means that no condition held.
pub first_failure-Passed :
    (checks : List (Bool × Error)) → first_failure checks ≡ none → Passed checks
unfolding first_failure
first_failure-Passed [] h = tt
first_failure-Passed ((true, e) ∷ checks) h = absurd (cc)
first_failure-Passed ((false, e) ∷ checks) h = (refl, first_failure-Passed checks h)

pub and_then-none : (a b : Option Error) → and_then a b ≡ none → (a ≡ none) × (b ≡ none)
unfolding and_then
and_then-none none b h = (refl, h)
and_then-none (some e) b h = absurd (cc)
