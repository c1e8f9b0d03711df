-- ===== src/Github/Provider.antt =====
-- internal/github/provider.go: the client that a runner registers with, and the queued jobs of
-- several repositories.
--
-- A client is its scope, owner and repository. What GitHub answers to a client is an argument: jobs,
-- or an error. NewRepoSet gets its clients and their names in one order: they are one list of pairs.
-- The counter of polls does not reach 2^63.
pub mod Rotation
use multirunner.Common.{
  ℕ, zero, suc, ◌+◌, ◌%◌, ◌<◌, ◌≡◌, Bool, true, false, not, ◌&&◌, Option, none, some, List, [], ◌∷◌,
  ◌++◌, ◌==◌, ltb, if◌then◌else◌, length, get_elem?, any, Text, text_eq, ℤ, pos, negsuc,
}
use multirunner.Config.Scope.{Scope, is_repo}
use multirunner.Pool.Access.{Job, equal_fold, is_empty}
use multirunner.Autoscale.{PollError, no_error, repo_poll_error}

pub record Client : Type 0 where
  pub scope : Scope
  pub owner : Text
  pub repo : Text

-- Target
unfoldable pub target : Client → Text
target c = if is_empty c.repo then c.owner else c.owner ++ 47 ∷ c.repo

-- ClientFor of a single client.
unfoldable pub client_for : Client → Text → Option Client
unfolding target equal_fold
client_for c repo = if is_repo c.scope && not (equal_fold (target c) repo) then none else some c

-- One job of pairWith.
unfoldable pub pair : Client → Job → Job
unfolding target
pair c job = record job {
  client = some (target c);
  repository = if is_empty job.repository && is_repo c.scope then target c else job.repository;
}

-- pairWith
unfoldable pub pair_with : Client → List Job → List Job
unfolding pair
pair_with c [] = []
pair_with c (job ∷ jobs) = pair c job ∷ pair_with c jobs

-- A repository of a RepoSet: its client and its name.
pub record Repo : Type 0 where
  pub client : Client
  pub name : Text

pub record RepoSet : Type 0 where
  pub repos : List Repo
  pub poll : ℕ

-- ClientForSlot
unfoldable pub client_for_slot : RepoSet → ℤ → Option Repo
client_for_slot rs (negsuc n) = none
client_for_slot rs (pos slot) =
    if length rs.repos == 0 then none else get_elem? rs.repos (slot % length rs.repos)

-- The loop of ClientFor.
unfoldable pub find_repo : Text → List Repo → Option Client
unfolding equal_fold
find_repo repo [] = none
find_repo repo (r ∷ rs) = if equal_fold r.name repo then some r.client else find_repo repo rs

-- RepoPollError; the map of failures by the names that are its keys.
pub record RepoPollError : Type 0 where
  pub failures : List Text
  pub total : ℕ

unfoldable pub all_failed : RepoPollError → Bool
all_failed e = ltb 0 e.total && length e.failures == e.total

-- failures[name] = err
unfoldable pub add_failure : Text → List Text → List Text
add_failure name names = if any (text_eq name) names then names else name ∷ names

-- One round of the loop, put before what the later rounds gather.
unfoldable pub poll_repo :
    (Repo → Option (List Job)) → Repo → List Job × List Text → List Job × List Text
unfolding pair_with add_failure
poll_repo reply r (jobs, failures) = elim (reply r) [
  | none ↦ (jobs, add_failure r.name failures)
  | some js ↦ (pair_with r.client js ++ jobs, failures)
]

-- The repository of an index is there, since the index is below the length.
unfoldable pub poll_index :
    (Repo → Option (List Job)) → Option Repo → List Job × List Text → List Job × List Text
unfolding poll_repo
poll_index reply none found = found
poll_index reply (some r) found = poll_repo reply r found

-- for offset := range clients: `rounds` of them are left.
unfoldable pub poll_loop : (Repo → Option (List Job)) → List Repo → ℕ → ℕ → ℕ → List Job × List Text
unfolding poll_index
poll_loop reply repos start zero offset = ([], [])
poll_loop reply repos start (suc rounds) offset =
    poll_index reply (get_elem? repos ((start + offset) % length repos))
      (poll_loop reply repos start rounds (offset + 1))

unfoldable pub poll_result : ℕ → List Job × List Text → List Job × Option RepoPollError
poll_result total (jobs, []) = (jobs, none)
poll_result total (jobs, name ∷ names) =
    (jobs, some (record { failures = name ∷ names; total = total }))

-- QueuedJobs of a RepoSet.
unfoldable pub queued_jobs :
    (Repo → Option (List Job)) → RepoSet → (List Job × Option RepoPollError) × RepoSet
unfolding poll_loop poll_result
queued_jobs reply rs =
    if length rs.repos == 0 then (([], some (record { failures = []; total = 0 })), rs) else (
      poll_result (length rs.repos)
          (poll_loop reply rs.repos (rs.poll % length rs.repos) (length rs.repos) 0),
      record rs { poll = rs.poll + 1 },
    )

-- How the autoscaler reads the error.
unfoldable pub poll_error : Option RepoPollError → PollError
unfolding all_failed
poll_error none = no_error
poll_error (some e) = repo_poll_error (all_failed e)
