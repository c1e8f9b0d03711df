-- ===== src/Runner.antt =====
-- internal/runner/instance.go, RunOnce: one runner from its registration to its end.
--
-- What GitHub, the backend and the context answer is an argument. Log lines and the streaming of logs
-- are left out, and an error stands for its kind.
pub mod Reclaiming
mod Examples
use multirunner.Common.{
  ℕ, ◌≡◌, Bool, true, false, Option, none, some, List, [], ◌∷◌, ◌==◌, if◌then◌else◌, ℤ, pos, negsuc,
}

-- What be.Launch gives: a handle, or an error with or without one.
pub data Launched : Type 0 where
  started : Launched
  failed_with_handle failed_without_handle : Launched

-- What gh.RunnerBusy gives.
pub data Busy : Type 0 where
  not_found unknown busy idle : Busy

-- What gh.DeleteRunner gives: nil, ErrRunnerNotFound, or another error.
pub data Deletion : Type 0 where
  deleted already_gone delete_failed : Deletion

-- What happens on the outside, as far as RunOnce sees it.
pub data Event : Type 0 where
  instance_started : Event
  instance_absent : Event
  waited : Bool → Event
  killed : Bool → Event
  asked : Busy → Event
  delete_runner : ℕ → Deletion → Event

-- What RunOnce returns.
pub data Failure : Type 0 where
  jit_config launch launch_and_kill context_done context_and_kill wait wait_and_kill : Failure

pub record Result : Type 0 where
  pub code : ℤ
  pub failure : Option Failure
  -- The newest event first.
  pub trace : List Event

-- The replies: the registration's id, the launch, the exit code, whether Wait failed, ctx.Err() != nil
-- after it, whether Kill succeeds, whether GitHub has the runner as busy, and how it answers a deletion.
pub record Replies : Type 0 where
  pub jit : Option ℕ
  pub launched : Launched
  pub exit_code : ℤ
  pub wait_failed : Bool
  pub cancelled : Bool
  pub kill_succeeds : Bool
  pub busy_reply : Busy
  pub deletion : Deletion

-- deregister: id 0 is no registration.
unfoldable pub deregister : Deletion → ℕ → List Event → List Event
deregister d id events = if id == 0 then events else delete_runner id d ∷ events

-- The switch of reclaimAfterFailedKill.
unfoldable pub reclaim_if_idle : Busy → Deletion → ℕ → List Event → List Event
unfolding deregister
reclaim_if_idle idle d id events = deregister d id events
reclaim_if_idle _ d id events = events

-- reclaimAfterFailedKill
unfoldable pub reclaim_after_failed_kill : Busy → Deletion → ℕ → List Event → List Event
unfolding reclaim_if_idle
reclaim_after_failed_kill b d id events =
    if id == 0 then events else reclaim_if_idle b d id (asked b ∷ events)

-- terminate, and what follows: the registration goes if the kill is confirmed, else GitHub decides.
unfoldable pub terminate : Bool → Busy → Deletion → ℕ → List Event → List Event
unfolding deregister reclaim_after_failed_kill
terminate true b d id events = deregister d id (killed true ∷ events)
terminate false b d id events = reclaim_after_failed_kill b d id (killed false ∷ events)

-- The part behind handle.Wait.
unfoldable pub after_wait : Bool → Bool → Bool → Busy → Deletion → ℤ → ℕ → List Event → Result
unfolding terminate deregister
after_wait true wait_failed kill b d code id events = record {
  code = code;
  failure = some (if kill then context_done else context_and_kill);
  trace = terminate kill b d id events;
}
after_wait false true kill b d code id events = record {
  code = code;
  failure = some (if kill then wait else wait_and_kill);
  trace = terminate kill b d id events;
}
after_wait false false kill b d code id events = record {
  code = code;
  failure = none;
  trace = deregister d id events;
}

-- The part behind be.Launch.
unfoldable pub after_launch : Launched → Replies → ℕ → Result
unfolding after_wait terminate deregister
after_launch started r id =
    after_wait r.cancelled r.wait_failed r.kill_succeeds r.busy_reply r.deletion r.exit_code id
      (waited r.wait_failed ∷ instance_started ∷ [])
after_launch failed_with_handle r id = record {
  code = negsuc 0;
  failure = some (if r.kill_succeeds then launch else launch_and_kill);
  trace = terminate r.kill_succeeds r.busy_reply r.deletion id (instance_started ∷ []);
}
after_launch failed_without_handle r id = record {
  code = negsuc 0;
  failure = some launch;
  trace = deregister r.deletion id (instance_absent ∷ []);
}

-- RunOnce
unfoldable pub run_once : Replies → Result
unfolding after_launch
run_once r = elim r.jit [
  | none ↦ record { code = negsuc 0; failure = some jit_config; trace = [] }
  | some id ↦ after_launch r.launched r id
]
