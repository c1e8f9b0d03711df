-- ===== src/Github/Examples.antt =====
-- Tests of the repositories' polls, and the theorems about them at concrete inputs.
use multirunner.Common.{
  ℕ, ◌≡◌, refl, false, Option, none, some, List, [], ◌∷◌, ◌<◌, if◌then◌else◌, pos, text_eq, Text,
}
use multirunner.Config.Scope.{scope_repo}
use multirunner.Pool.Access.{Job}
use multirunner.Autoscale.{repo_poll_error}
use multirunner.Github.Provider.{
  Repo, RepoSet, poll_repo, poll_result, queued_jobs, client_for_slot, find_repo, poll_error,
}
use multirunner.Github.Provider.Rotation.{collect, after_polls, turn, queued_jobs-turn}

abbrev named : ℕ → Repo
named n = record {
  client = record { scope = scope_repo; owner = 111 ∷ []; repo = n ∷ [] };
  name = 111 ∷ 47 ∷ n ∷ [];
}

abbrev three : RepoSet
three = record { repos = named 97 ∷ named 98 ∷ named 99 ∷ []; poll = 4 }

abbrev job : Job
job = record {
  client = none;
  repository = [];
  labels = [];
  workflow_path = [];
  event = [];
  actor = [];
  ref = [];
}

-- The first repository fails, the others have one job each.
abbrev answers : Repo → Option (List Job)
answers r = if text_eq r.name (111 ∷ 47 ∷ 97 ∷ []) then none else some (job ∷ [])

repository_names : List Job → List Text
repository_names [] = []
repository_names (j ∷ jobs) = j.repository ∷ repository_names jobs

-- The poll starts at the second repository and ends with the failing first.
polled :
    repository_names (queued_jobs answers three).0.0
    ≡ (111 ∷ 47 ∷ 98 ∷ []) ∷ (111 ∷ 47 ∷ 99 ∷ []) ∷ []
unfolding repository_names queued_jobs
polled = refl

partly_failed : poll_error (queued_jobs answers three).0.1 ≡ repo_poll_error false
unfolding queued_jobs poll_error
partly_failed = refl

slot_seven : client_for_slot three (pos 7) ≡ some (named 98)
unfolding client_for_slot
slot_seven = refl

found_whatever_case : find_repo (79 ∷ 47 ∷ 67 ∷ []) three.repos ≡ some (named 99).client
unfolding find_repo
found_whatever_case = refl

queued_jobs-turn_example :
    (turn three 0 < 3)
    × ((queued_jobs answers (after_polls (answers ∷ answers ∷ []) three)).0
        ≡ poll_result 3 (poll_repo answers (named 97) (collect answers (named 98 ∷ named 99 ∷ []))))
queued_jobs-turn_example =
    queued_jobs-turn three 0 (named 97) (answers ∷ answers ∷ []) answers refl refl
