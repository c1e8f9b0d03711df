-- ===== src/Config/Targets.antt =====
-- internal/config/config.go: the repositories of a configuration, and the checks of its scope.
use mathlib.Core.Option
use multirunner.Common.{
  ℕ, Bool, not, ◌&&◌, ◌||◌, Option, none, some, List, [], ◌∷◌, ◌++◌, ◌==◌, ltb, if◌then◌else◌,
  length, any, Text, text_eq,
}
use multirunner.Config.Scope.{Scope, scope_repo, scope_repos, scope_org, scope_enterprise}
use multirunner.Config.Strings.{trim_space, contains_any, to_lower, split, seen_before}
use multirunner.Config.Types.{GitHub, Auth, is_app}
use multirunner.Config.Checks.{
  Error, owner_and_repo_required, repos_required, invalid_repos_entry, invalid_repos_part,
  repos_owner_required, duplicate_repos_entry, app_owners_differ, owner_required, unknown_scope,
  first_failure, and_then,
}
use multirunner.Pool.Access.{equal_fold, is_empty}

pub record RepoRef : Type 0 where
  pub owner : Text
  pub repo : Text

-- A text at its first separator.
unfoldable pub cut : ℕ → Text → Option (Text × Text)
cut sep [] = none
cut sep (c ∷ s) =
    if c == sep then some ([], s) else Option.map (λ parts. (c ∷ parts.0, parts.1)) (cut sep s)

unfoldable pub repo_ref : Text → Text → Option (Text × Text) → RepoRef
repo_ref entry default_owner none = record { owner = default_owner; repo = entry }
repo_ref entry default_owner (some (before, behind)) =
    if not (is_empty before) && not (is_empty behind)
    then record { owner = before; repo = behind }
    else record { owner = default_owner; repo = entry }

-- ParseRepoRef
unfoldable pub parse_repo_ref : Text → Text → RepoRef
unfolding repo_ref cut
parse_repo_ref entry default_owner = repo_ref entry default_owner (cut 47 entry)

-- ref.Owner + "/" + ref.Repo
abbrev pub full_name : RepoRef → Text
full_name ref = ref.owner ++ 47 ∷ ref.repo

-- ResolvedRepos
unfoldable pub resolved_repos : Text → List Text → List RepoRef
unfolding parse_repo_ref
resolved_repos default_owner [] = []
resolved_repos default_owner (entry ∷ entries) =
    parse_repo_ref entry default_owner ∷ resolved_repos default_owner entries

-- RepoTargets
unfoldable pub repo_targets : GitHub → List RepoRef
unfolding resolved_repos
repo_targets gh = elim gh.scope [
  | some scope_repo ↦ record { owner = gh.owner; repo = gh.repo } ∷ []
  | some scope_repos ↦ resolved_repos gh.owner gh.repos
  | _ ↦ []
]

abbrev pub blanks : Text
blanks = 32 ∷ 9 ∷ 13 ∷ 10 ∷ []

abbrev bad_part : Text → Bool
bad_part part = is_empty part || not (text_eq (trim_space part) part) || contains_any part blanks

-- The checks of one entry, up to the one for duplicates.
unfoldable pub check_entry : Text → RepoRef → List Text → Option Error
unfolding first_failure
check_entry entry ref seen = first_failure (
    (ltb 2 (length (split 47 entry)) || is_empty entry, invalid_repos_entry)
    ∷ (any bad_part (split 47 entry), invalid_repos_part)
    ∷ (is_empty ref.owner || is_empty ref.repo, repos_owner_required)
    ∷ (seen_before (to_lower (full_name ref)) seen, duplicate_repos_entry)
    ∷ [])

-- if c.Auth.IsApp() { ... }: the account of the entries so far is `app_owner`.
unfoldable pub check_app_owner : Bool → Text → RepoRef → Option Error
unfolding first_failure equal_fold
check_app_owner app app_owner ref = first_failure (
    (app && not (is_empty app_owner) && not (equal_fold app_owner ref.owner), app_owners_differ)
    ∷ [])

abbrev pub next_owner : Bool → Text → Text → Text
next_owner app app_owner owner = if app && is_empty app_owner then owner else app_owner

-- for _, entry := range c.GitHub.Repos
unfoldable pub check_repos : Bool → Text → List Text → Text → List Text → Option Error
unfolding check_entry check_app_owner and_then parse_repo_ref
check_repos app default_owner seen app_owner [] = none
check_repos app default_owner seen app_owner (entry ∷ entries) =
    let ref = parse_repo_ref entry default_owner in
    and_then (check_entry entry ref seen) (
      and_then (check_app_owner app app_owner ref) (
        check_repos app default_owner (to_lower (full_name ref) ∷ seen)
          (next_owner app app_owner ref.owner) entries))

-- switch c.GitHub.Scope
unfoldable pub check_scope : Option Scope → GitHub → Auth → Option Error
unfolding first_failure and_then check_repos is_app
check_scope (some scope_repo) gh auth =
    first_failure ((is_empty gh.owner || is_empty gh.repo, owner_and_repo_required) ∷ [])
check_scope (some scope_repos) gh auth =
    and_then (first_failure ((is_empty gh.repos, repos_required) ∷ []))
      (check_repos (is_app auth) gh.owner [] [] gh.repos)
check_scope (some scope_org) gh auth = first_failure ((is_empty gh.owner, owner_required) ∷ [])
check_scope (some scope_enterprise) gh auth =
    first_failure ((is_empty gh.owner, owner_required) ∷ [])
check_scope none gh auth = some unknown_scope
