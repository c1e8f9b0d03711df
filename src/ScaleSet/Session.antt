-- ===== src/ScaleSet/Session.antt =====
-- internal/scaleset/session.go: the scale set of a session, and the opening of the session.
--
-- The calls of GitHub are arguments: an error, or a reply. Times are in seconds from the start.
mod Counting
pub mod Labels
pub mod Opening
mod Examples
use multirunner.Common.{
  ℕ, zero, suc, ◌+◌, ◌*◌, Bool, true, false, not, ◌&&◌, ◌||◌, ◌⊎◌, inl, inr, Option, none, some,
  List, [], ◌∷◌, ◌++◌, ◌==◌, ltb, if◌then◌else◌, length, Text, codes, text_eq, contains, ℤ, pos,
  negsuc, is_zero,
}
use multirunner.Pool.Access.{is_empty}
use multirunner.ScaleSet.Errors.{Err, wrap, is_permanent_session_error}

pub record Label : Type 0 where
  pub name : Text
  pub kind : Text

pub record RunnerScaleSet : Type 0 where
  pub id : ℕ
  pub name : Text
  pub runner_group_id : ℕ
  pub labels : List Label
  pub disable_update : Bool

pub record SessionOptions : Type 0 where
  pub name : Text
  pub runner_group : Text
  pub labels : List Text

-- classifySessionError
unfoldable pub classify_session_error : Err → Err
unfolding is_permanent_session_error
classify_session_error e = if is_permanent_session_error e then record e { permanent = true } else e

-- runnerGroupID, with the library's DefaultRunnerGroup and what GetRunnerGroupByName gives.
unfoldable pub runner_group_id : Text → (Text → Err ⊎ ℕ) → Text → Err ⊎ ℕ
unfolding wrap
runner_group_id default_group by_name name =
    if is_empty name || text_eq name default_group then inr 1 else elim (by_name name) [
      | inl e ↦ inl (wrap (codes "resolve runner group " ++ (name ++ codes ": ")) e)
      | inr id ↦ inr id
    ]

unfoldable pub system_labels : List Text → List Label
system_labels [] = []
system_labels (name ∷ names) = record { name = name; kind = codes "System" } ∷ system_labels names

-- desiredScaleSet; its id is unset.
unfoldable pub desired_scale_set : SessionOptions → ℕ → RunnerScaleSet
unfolding system_labels
desired_scale_set opts group_id = record {
  id = 0;
  name = opts.name;
  runner_group_id = group_id;
  labels =
      if is_empty opts.labels then system_labels (opts.name ∷ []) else system_labels opts.labels;
  disable_update = true;
}

-- A map from label names to their counts.
abbrev pub Counts : Type 0
Counts = List (Text × ℤ)

-- labels[name] = f(labels[name])
unfoldable pub change : (ℤ → ℤ) → Text → Counts → Counts
change f name [] = (name, f (pos 0)) ∷ []
change f name ((k, v) ∷ m) = if text_eq k name then (k, f v) ∷ m else (k, v) ∷ change f name m

abbrev pub increment : ℤ → ℤ
increment (pos n) = pos (suc n)
increment (negsuc zero) = pos 0
increment (negsuc (suc n)) = negsuc n

abbrev pub decrement : ℤ → ℤ
decrement (pos zero) = negsuc 0
decrement (pos (suc n)) = pos n
decrement (negsuc n) = negsuc (suc n)

-- for _, label := range labels
unfoldable pub change_all : (ℤ → ℤ) → List Label → Counts → Counts
unfolding change
change_all f [] m = m
change_all f (l ∷ labels) m = change_all f labels (change f l.name m)

unfoldable pub all_zero : Counts → Bool
all_zero [] = true
all_zero ((k, v) ∷ m) = is_zero v && all_zero m

abbrev pub same_bool : Bool → Bool → Bool
same_bool true b = b
same_bool false b = not b

-- scaleSetMatches
unfoldable pub scale_set_matches : RunnerScaleSet → RunnerScaleSet → Bool
unfolding change_all all_zero
scale_set_matches existing desired =
    if not (text_eq existing.name desired.name)
      || not (existing.runner_group_id == desired.runner_group_id)
      || not (same_bool existing.disable_update desired.disable_update)
      || not (length existing.labels == length desired.labels)
    then false
    else all_zero (change_all decrement desired.labels (change_all increment existing.labels []))

-- The calls of a scaleSetManager; the lookup may find none.
pub record ScaleSetManager : Type 0 where
  pub get : ℕ → Text → Err ⊎ Option RunnerScaleSet
  pub create : RunnerScaleSet → Err ⊎ RunnerScaleSet
  pub update : ℕ → RunnerScaleSet → Err ⊎ RunnerScaleSet

-- The requests that change something.
pub data Request : Type 0 where
  created : RunnerScaleSet → Request
  updated : ℕ → RunnerScaleSet → Request

abbrev pub or_wrapped : Text → Err ⊎ RunnerScaleSet → Err ⊎ RunnerScaleSet
or_wrapped prefix (inl e) = inl (wrap prefix e)
or_wrapped prefix (inr set) = inr set

-- ensureScaleSet behind its lookup, with the requests it sends.
unfoldable pub ensure_found :
    ScaleSetManager
    → Text
    → RunnerScaleSet
    → Err ⊎ Option RunnerScaleSet
    → (Err ⊎ RunnerScaleSet) × List Request
unfolding scale_set_matches wrap
ensure_found client name desired (inl e) =
    (inl (wrap (codes "lookup scale set " ++ (name ++ codes ": ")) e), [])
ensure_found client name desired (inr none) = (
  or_wrapped (codes "create scale set " ++ (name ++ codes ": ")) (client.create desired),
  created desired ∷ [],
)
ensure_found client name desired (inr (some existing)) =
    if scale_set_matches existing desired then (inr existing, []) else (
      or_wrapped (codes "update scale set " ++ (name ++ codes ": "))
          (client.update existing.id desired),
      updated existing.id desired ∷ [],
    )

-- ensureScaleSet
unfoldable pub ensure_scale_set :
    ScaleSetManager → SessionOptions → ℕ → (Err ⊎ RunnerScaleSet) × List Request
unfolding ensure_found desired_scale_set
ensure_scale_set client opts group_id =
    ensure_found client opts.name (desired_scale_set opts group_id) (client.get group_id opts.name)

-- isSessionConflict
unfoldable pub is_session_conflict : Err → Bool
is_session_conflict e =
    contains e.message (codes "409 Conflict")
    && contains e.message (codes "RunnerScaleSetSessionConflictException")

abbrev pub session_conflict_wait : ℕ
session_conflict_wait = 3 * 60

abbrev pub session_retry_interval : ℕ
session_retry_interval = 10

-- A round: the error of the request, if any, how long it took, whether the context is done while it
-- waits, and how late the timer is.
pub record Attempt : Type 0 where
  pub reply : Option Err
  pub took : ℕ
  pub cancelled : Bool
  pub late : ℕ

pub data Opened : Type 0 where
  session : Opened
  refused : Err → Opened
  still_active : Err → Opened
  context_done : Opened

-- What ends a round of the loop, if anything does.
unfoldable pub attempt_result : Option Err → Bool → Bool → Option Opened
unfolding is_session_conflict
attempt_result none late cancelled = some session
attempt_result (some e) late cancelled =
    if not (is_session_conflict e)
    then some (refused e)
    else if late
    then some (still_active e)
    else if cancelled
    then some context_done
    else none

-- The loop of openSession on fuel, with the number of the attempts; `none` is out of fuel.
unfoldable pub open_loop : (ℕ → Attempt) → ℕ → ℕ → ℕ → Option (Opened × ℕ)
unfolding attempt_result
open_loop attempts zero k now = none
open_loop attempts (suc fuel) k now =
    let a = attempts k in
    let replied = now + a.took in
    elim (attempt_result a.reply (ltb session_conflict_wait replied) a.cancelled) [
      | some result ↦ some (result, suc k)
      | none ↦ open_loop attempts fuel (suc k) (replied + session_retry_interval + a.late)
    ]

-- openSession
unfoldable pub open_session : (ℕ → Attempt) → Option (Opened × ℕ)
unfolding open_loop
open_session attempts = open_loop attempts 20 0 0
