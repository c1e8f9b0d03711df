-- ===== src/ScaleSet/State.antt =====
-- internal/scaleset/launcher.go, the data of a Launcher.
--
-- A runner's name is a number that stands for its text. `runners` holds every runnerState that was
-- made, by name; the source's map `running` is the part of it that is not `cleaned`, since the code
-- sets `cleaned` and deletes the entry together, and a goroutine may still hold the pointer.
-- `trace` lists what was done to the outside, newest first.
use multirunner.Common.{ℕ, Bool, not, ◌&&◌, Option, List, ℤ, Table, count_values}
use multirunner.ScaleSet.Errors.{Err}

pub record RunnerState : Type 0 where
  pub handle : ℕ
  pub runner_id : ℕ
  pub busy : Bool
  pub completion_accounted : Bool
  pub occupies_capacity : Bool
  pub cleanup_started : Bool
  pub needs_deregistration : Bool
  pub registration_removed : Bool
  pub terminated : Bool
  pub cleaned : Bool
  pub stop_reported : Bool
  pub exit_code : ℤ
  pub wait_err : Option Err

pub data Effect : Type 0 where
  on_start : Effect
  on_stop : ℤ → Option Err → Effect
  generated : ℕ → Effect  -- GenerateJitRunnerConfig succeeded, with this runner id
  launched : ℕ → Effect  -- Launch succeeded, with this handle
  killed : ℕ → Effect  -- Kill succeeded
  deregistered : ℕ → Effect  -- RemoveRunner succeeded
  removed : ℕ → Effect  -- RemoveOwnedRunner succeeded

pub record Launcher : Type 0 where
  pub max_runners : ℕ
  pub ctx_done : Bool  -- l.ctx.Err() != nil
  pub runners : Table RunnerState
  pub pending_registrations : Table ℕ
  pub pending_exits : Table ℕ
  pub completions : List ℕ
  pub seq : ℕ
  pub desired : ℕ
  pub stopped : Bool
  pub trace : List Effect

-- What the backend's Launch answers: a handle, an error, or an error beside a handle.
pub data Launched : Type 0 where
  started : ℕ → Launched
  partial : ℕ → Err → Launched
  failed : Err → Launched

-- What GenerateJitRunnerConfig answers; `config` carries jit.Runner.ID, 0 for a nil Runner.
pub data JitReply : Type 0 where
  config : ℕ → JitReply
  nil_config : JitReply
  refused : Err → JitReply

-- What the outside answers to one attempt to start a runner.
pub record Trial : Type 0 where
  pub short_id : Option ℕ  -- none: crypto/rand failed with `short_id_err`
  pub short_id_err : Err
  pub jit : JitReply
  pub launch : Launched

-- The answers of the backend and of GitHub during one call of an operation. A launch is told by the
-- launcher's sequence number, a removal by the runner's id, and so on.
pub record Env : Type 0 where
  pub trial : ℕ → Trial
  pub kill : ℕ → Option Err
  pub remove_runner_reply : ℕ → Option Err
  pub has_store : Bool  -- backend.OwnedRunnerStoreFor(l.be) != nil
  pub remove_owned : ℕ → Option Err
  pub cancelled : ℕ → Bool  -- ctx.Err() != nil after the cleanup of this runner

-- The entry is in the source's map and counts against the capacity.
unfoldable pub is_occupying : RunnerState → Bool
is_occupying s = not s.cleaned && s.occupies_capacity

-- runningLocked
unfoldable pub running_locked : Launcher → ℕ
running_locked l = count_values is_occupying l.runners

-- OnStop was not called for this runner yet.
unfoldable pub is_unreported : RunnerState → Bool
is_unreported s = not s.stop_reported

unfoldable pub unreported : Launcher → ℕ
unreported l = count_values is_unreported l.runners
