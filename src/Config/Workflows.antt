-- ===== src/Config/Workflows.antt =====
-- internal/config/config.go: the checks of the repository and the workflows that a pool is bound to.
use multirunner.Common.{
  Bool, true, false, not, ◌&&◌, ◌||◌, Option, none, some, List, [], ◌∷◌, if◌then◌else◌, any, Text,
  codes, text_eq, starts_with, contains,
}
use multirunner.Config.Scope.{Scope, scope_org}
use multirunner.Config.Strings.{trim_space, contains_any, has_suffix, split, seen_before}
use multirunner.Config.Types.{Provisioning, is_autoscale, GitHub, Pool}
use multirunner.Config.Checks.{
  Error, invalid_repository, repository_provisioning, repository_not_managed, repository_outside,
  workflows_repository, workflows_incomplete, invalid_workflow, duplicate_workflow, invalid_event,
  invalid_actor, invalid_ref, first_failure, and_then,
}
use multirunner.Config.Targets.{RepoRef, full_name, repo_targets, blanks}
use multirunner.Pool.Access.{equal_fold, is_empty}

-- The parts of p.Repository: not two of them, or one of them empty.
abbrev pub bad_repository_parts : List Text → Bool
bad_repository_parts (owner ∷ name ∷ []) = is_empty owner || is_empty name
bad_repository_parts _ = true

abbrev pub is_org : Option Scope → Bool
is_org (some scope_org) = true
is_org _ = false

abbrev pub first_part : List Text → Text
first_part [] = []
first_part (part ∷ parts) = part

-- The targets of the scope manage the repository of a pool.
unfoldable pub check_managed : GitHub → Text → List RepoRef → Option Error
unfolding first_failure equal_fold
check_managed gh repository [] = first_failure (
    (
      is_org gh.scope && not (equal_fold (first_part (split 47 repository)) gh.owner),
      repository_outside,
    )
    ∷ [])
check_managed gh repository (target ∷ targets) = first_failure (
    (
      not (any (λ ref. equal_fold repository (full_name ref)) (target ∷ targets)),
      repository_not_managed,
    )
    ∷ [])

-- if p.Repository != "" { ... }
unfoldable pub check_repository : Provisioning → GitHub → Pool → Option Error
unfolding first_failure and_then check_managed is_autoscale repo_targets
check_repository provisioning gh p =
    if is_empty p.repository
    then none
    else and_then
        (first_failure (
          (
            bad_repository_parts (split 47 p.repository)
                || not (text_eq (trim_space p.repository) p.repository)
                || contains_any p.repository blanks,
            invalid_repository,
          )
          ∷ (not (is_autoscale provisioning), repository_provisioning)
          ∷ []))
        (check_managed gh p.repository (repo_targets gh))

-- for _, workflow := range p.Workflows
unfoldable pub check_workflow_paths : List Text → List Text → Option Error
unfolding first_failure and_then
check_workflow_paths seen [] = none
check_workflow_paths seen (workflow ∷ workflows) =
    and_then
      (first_failure (
        (
          not (starts_with workflow (codes ".github/workflows/"))
              || (not (has_suffix workflow (codes ".yml"))
                  && not (has_suffix workflow (codes ".yaml")))
              || contains workflow (codes "..")
              || contains_any workflow (64 ∷ blanks),
          invalid_workflow,
        )
        ∷ (seen_before workflow seen, duplicate_workflow)
        ∷ []))
      (check_workflow_paths (workflow ∷ seen) workflows)

-- if len(p.Workflows) != 0 || ... { ... }
unfoldable pub check_workflows : Pool → Option Error
unfolding first_failure and_then check_workflow_paths
check_workflows p =
    if not (is_empty p.workflows)
      || not (is_empty p.workflow_event)
      || not (is_empty p.workflow_actor)
      || not (is_empty p.workflow_ref)
    then and_then
        (first_failure (
          (is_empty p.repository, workflows_repository)
          ∷ (
            is_empty p.workflows
                || is_empty p.workflow_event
                || is_empty p.workflow_actor
                || is_empty p.workflow_ref,
            workflows_incomplete,
          )
          ∷ []))
        (and_then (check_workflow_paths [] p.workflows) (
          first_failure (
            (contains_any p.workflow_event blanks, invalid_event)
            ∷ (contains_any p.workflow_actor (47 ∷ blanks), invalid_actor)
            ∷ (contains_any p.workflow_ref blanks, invalid_ref)
            ∷ [])))
    else none
