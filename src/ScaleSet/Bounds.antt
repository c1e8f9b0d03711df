-- ===== src/ScaleSet/Bounds.antt =====
-- How many runners a launcher counts after a cleanup.
use multirunner.Common.{
  ℕ, ◌≤◌, ap, Bool, Option, bit, ℤ, arith, lookup, count_values-put, Option-cases, inl, inr, tally,
}
use multirunner.ScaleSet.Errors.{Err}
use multirunner.ScaleSet.State.{Launcher, Env, is_occupying, running_locked}
use multirunner.ScaleSet.Cleanup.{Progress, apply_action, finish_state, finish_runner}
use multirunner.ScaleSet.Cleanup.Follows.{Follows, finish_state-Follows}

occupying_of_Follows :
    (p q : Progress) → Follows p q → bit (is_occupying q.state) ≤ bit (is_occupying p.state)
unfolding is_occupying
occupying_of_Follows p q f = ground arith

-- A cleanup never takes a slot.
pub running-finish_runner :
    (env : Env) (name : ℕ) (code : ℤ) (err : Option Err) (terminate : Bool) (l : Launcher)
    → running_locked (finish_runner env name code err terminate l).1 ≤ running_locked l
unfolding finish_runner running_locked
running-finish_runner env name code err terminate l = elim (Option-cases (lookup name l.runners)) [
  | inl e ↦ rw (e, apply_action) (omega arith)
  | inr (s, e) ↦
      let p : Progress = record { state = s; trace = l.trace } in
      let q : Progress = (finish_state env code err terminate p).1 in
      rw (e, apply_action)
        (omega (
          arith,
          count_values-put is_occupying name q.state l.runners,
          ap (tally is_occupying) e,
          occupying_of_Follows p q (finish_state-Follows env code err terminate p),
        ))
]
