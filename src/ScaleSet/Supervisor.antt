-- ===== src/ScaleSet/Supervisor.antt =====
-- internal/scaleset/supervisor.go: one session is restarted with a growing delay until it fails
-- permanently or the context ends. Times and delays are nanoseconds.
pub mod Backoff
use multirunner.Common.{
  ℕ, zero, suc, ◌+◌, ◌-◌, ◌*◌, ◌/◌, ◌^◌, ◌≤◌, ◌<◌, ◌≡◌, refl, Bool, true, false, not, ◌&&◌, Option,
  none, some, List, [], ◌∷◌, ◌++◌, ◌==◌, leb, ltb, if◌then◌else◌, codes,
}
use multirunner.ScaleSet.Errors.{Err, wrap}
use multirunner.ScaleSet.Launcher.{is_permanent}

-- for n := 1; n < failures && delay < maximum; n++: `rounds` is failures - n.
unfoldable pub backoff_loop : ℕ → ℕ → ℕ → ℕ
backoff_loop zero delay maximum = if ltb maximum delay then maximum else delay
backoff_loop (suc rounds) delay maximum =
    let rest = backoff_loop rounds (delay * 2) maximum in
    if ltb delay maximum
    then if ltb (maximum / 2) delay then maximum else rest
    else if ltb maximum delay
    then maximum
    else delay

unfoldable pub supervisor_backoff : ℕ → ℕ → ℕ → ℕ
unfolding backoff_loop
supervisor_backoff failures initial maximum = backoff_loop (failures - 1) initial maximum

pub data Availability : Type 0 where
  backing_off available permanently_unavailable : Availability

pub record Config : Type 0 where
  pub initial_backoff : ℕ
  pub max_backoff : ℕ
  pub healthy_after : ℕ

-- One run of a session: whether it called `available`, what it returned, how long it took,
-- ctx.Err() != nil after it, and whether the sleep ran its full time.
pub record Run : Type 0 where
  pub was_available : Bool
  pub result : Option Err
  pub lasted : ℕ
  pub cancelled : Bool
  pub slept : Bool

-- The supervisor's loop variable with the states it reported and the delays it slept, newest first.
pub record Supervision : Type 0 where
  pub failures : ℕ
  pub states : List Availability
  pub delays : List ℕ

unfoldable pub report : Availability → Supervision → Supervision
report a s = record s { states = a ∷ s.states }

unfoldable pub report_run : Run → Supervision → Supervision
unfolding report
report_run r s = if r.was_available then report available s else s

-- The part after a failure that is not permanent, up to the sleep. A nil result counts as one.
unfoldable pub note_failure : Config → Run → Supervision → Supervision
unfolding supervisor_backoff
note_failure c r s =
    let failures = (if leb c.healthy_after r.lasted then 0 else s.failures) + 1 in
    record {
      failures = failures;
      states = backing_off ∷ s.states;
      delays = supervisor_backoff failures c.initial_backoff c.max_backoff ∷ s.delays;
    }

-- The loop over the session's runs. The list ends where the context was found done at the top of
-- the loop. It returns an error for a permanent failure only.
unfoldable pub supervise_loop : Config → List Run → Supervision → Option Err × Supervision
unfolding report_run note_failure report
supervise_loop c [] s = (none, s)
supervise_loop c (r ∷ rs) s =
    let s1 = report_run r s in
    let s2 = note_failure c r s1 in
    let rest = supervise_loop c rs s2 in
    if is_permanent r.result
    then (r.result, report permanently_unavailable s1)
    else if r.cancelled
    then (none, s1)
    else if not r.slept
    then (none, s2)
    else rest

unfoldable pub supervise_session : Config → List Run → Option Err × Supervision
unfolding supervise_loop
supervise_session c rs =
    supervise_loop c rs (record { failures = 0; states = backing_off ∷ []; delays = [] })
