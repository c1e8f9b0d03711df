-- ===== src/Cache/Server/Scopes.antt =====
-- internal/cache/server.go: what a runner's token may read and write.
--
-- The claims of a token's second part, and the scopes in its `ac` claim, come from the decoders, which
-- are parameters.
use multirunner.Common.{
  Bool, false, not, ◌&&◌, ◌||◌, Option, none, some, List, [], ◌∷◌, if◌then◌else◌, Text, codes,
  text_eq, starts_with, length, ℤ, pos, lt_int,
}
use multirunner.Config.Strings.{split, drop, is_space}
use multirunner.Pool.Access.{is_empty}

pub record ScopeEntry : Type 0 where
  pub scope : Text
  pub permission : ℤ

pub record ScopeInfo : Type 0 where
  pub scopes : List ScopeEntry
  pub repo_id : Text

-- The claims that are read.
pub record Claims : Type 0 where
  pub ac : Text
  pub repository_id : Text
  pub scp : Text

-- Base64 with JSON, the JSON of `ac`, whether there is an upstream, and whether its ListArtifacts
-- accepts a run, a job and a token.
pub record Outside : Type 0 where
  pub claims : Text → Option Claims
  pub scopes : Text → List ScopeEntry
  pub has_upstream : Bool
  pub list_artifacts : Text → Text → Text → Bool

abbrev pub no_scopes : ScopeInfo
no_scopes = record { scopes = []; repo_id = [] }

unfoldable pub scopes_of_claims : Outside → Option Claims → ScopeInfo
scopes_of_claims x none = no_scopes
scopes_of_claims x (some c) = record {
  scopes = if is_empty c.ac then [] else x.scopes c.ac;
  repo_id = c.repository_id;
}

-- The claims in the second of a token's parts.
unfoldable pub claims_of_parts : Outside → List Text → Option Claims
claims_of_parts x (header ∷ payload ∷ parts) = x.claims payload
claims_of_parts x _ = none

-- parseScopes
unfoldable pub parse_scopes : Outside → Text → ScopeInfo
unfolding scopes_of_claims claims_of_parts
parse_scopes x token =
    if is_empty token then no_scopes else scopes_of_claims x (claims_of_parts x (split 46 token))

-- strings.Fields: the first field that is being read, and the later ones.
unfoldable pub fields_first : Text → Text × List Text
fields_first [] = ([], [])
fields_first (c ∷ s) =
    let rest = fields_first s in
    if is_space c
    then ([], if is_empty rest.0 then rest.1 else rest.0 ∷ rest.1)
    else (c ∷ rest.0, rest.1)

unfoldable pub fields : Text → List Text
unfolding fields_first
fields s = let all = fields_first s in if is_empty all.0 then all.1 else all.0 ∷ all.1

-- The run and the job of a scope, if it names them.
unfoldable pub results_of_segments : List Text → Option (Text × Text)
results_of_segments (service ∷ run ∷ job ∷ []) =
    if text_eq service (codes "Actions.Results") && not (is_empty run) && not (is_empty job)
    then some (run, job)
    else none
results_of_segments _ = none

abbrev pub or_results : Option (Text × Text) → Option (Text × Text) → Option (Text × Text)
or_results none later = later
or_results (some ids) later = some ids

-- for _, scope := range strings.Fields(claims.Scope)
unfoldable pub first_results : List Text → Option (Text × Text)
unfolding results_of_segments
first_results [] = none
first_results (scope ∷ scopes) =
    or_results (results_of_segments (split 58 scope)) (first_results scopes)

unfoldable pub results_of_claims : Option Claims → Option (Text × Text)
unfolding first_results fields
results_of_claims none = none
results_of_claims (some c) = first_results (fields c.scp)

-- parseResultsBackendIDs
unfoldable pub parse_results_backend_ids : Outside → Text → Option (Text × Text)
unfolding results_of_claims claims_of_parts
parse_results_backend_ids x token = results_of_claims (claims_of_parts x (split 46 token))

-- The request to the upstream service.
unfoldable pub accepted_upstream : Outside → Text → Option (Text × Text) → Bool
accepted_upstream x token none = false
accepted_upstream x token (some (run, job)) = x.list_artifacts run job token

-- validateRuntimeToken
unfoldable pub validate_runtime_token : Outside → Text → Bool
unfolding parse_results_backend_ids accepted_upstream
validate_runtime_token x token =
    if not x.has_upstream
    then false
    else accepted_upstream x token (parse_results_backend_ids x token)

abbrev pub bearer : Text
bearer = codes "Bearer "

-- strings.TrimPrefix(auth, "Bearer ")
abbrev pub without_bearer : Text → Text
without_bearer auth = if starts_with auth bearer then drop (length bearer) auth else auth

-- requireCacheBearer: the scopes of an authenticated request.
unfoldable pub require_cache_bearer : Outside → Text → Option ScopeInfo
unfolding parse_scopes validate_runtime_token
require_cache_bearer x auth =
    let token = without_bearer auth in
    let info = parse_scopes x token in
    if is_empty token || text_eq token auth || is_empty info.scopes || is_empty info.repo_id
    then none
    else if not (validate_runtime_token x token)
    then none
    else some info

-- writeScope
unfoldable pub write_scope : List ScopeEntry → Text
write_scope [] = []
write_scope (sc ∷ scopes) =
    let rest = write_scope scopes in if lt_int (pos 1) sc.permission then sc.scope else rest

-- A place behind the entries that permit more, and before those that permit as much.
unfoldable pub insert_scope : ScopeEntry → List ScopeEntry → List ScopeEntry
insert_scope sc [] = sc ∷ []
insert_scope sc (d ∷ scopes) =
    let rest = insert_scope sc scopes in
    if lt_int sc.permission d.permission then d ∷ rest else sc ∷ d ∷ scopes

-- sort.SliceStable by falling permission.
unfoldable pub sort_scopes : List ScopeEntry → List ScopeEntry
unfolding insert_scope
sort_scopes [] = []
sort_scopes (sc ∷ scopes) = insert_scope sc (sort_scopes scopes)

unfoldable pub scope_names : List ScopeEntry → List Text
scope_names [] = []
scope_names (sc ∷ scopes) = sc.scope ∷ scope_names scopes

-- scopeStringsByPermission
unfoldable pub scope_strings_by_permission : List ScopeEntry → List Text
unfolding sort_scopes scope_names
scope_strings_by_permission scopes = scope_names (sort_scopes scopes)
