-- ===== src/Autoscale/Examples.antt =====
-- Two pools of one place each, the second bound to a workflow.
use multirunner.Common.{◌≡◌, some, [], ◌∷◌, List, Text}
use multirunner.Pool.Access.{PoolConfig}
use multirunner.Autoscale.{Scaler, new_states, on_queued, launch_for, event_job}
use multirunner.Autoscale.Launching.{First, guarded, launch_for-First, on_queued-guarded}
use multirunner.Autoscale.Steps.{fresh, next, queued, AllFit, Reach-AllFit}

abbrev pool : List Text → PoolConfig
pool workflows = record {
  size = 1;
  labels = (120 ∷ 54 ∷ []) ∷ [];
  repository = [];
  workflows = workflows;
  workflow_event = [];
  workflow_actor = [];
  workflow_ref = [];
}

abbrev configs : List PoolConfig
configs = pool [] ∷ pool ((1 ∷ []) ∷ []) ∷ []

abbrev start : Scaler
unfolding new_states
start = record { states = new_states configs; pending = [] }

abbrev upper : List Text
upper = (88 ∷ 54 ∷ []) ∷ []

Reach-AllFit_example :
    AllFit
      (on_queued (some (5 ∷ [])) (5 ∷ []) 1 upper (on_queued (some (5 ∷ [])) (5 ∷ []) 1 [] start))
unfolding new_states
Reach-AllFit_example = Reach-AllFit configs _ (
    next (next fresh (queued (some (5 ∷ [])) (5 ∷ []) 1 []))
      (queued (some (5 ∷ [])) (5 ∷ []) 1 upper))

launch_for-First_example :
    First
      (event_job (5 ∷ []) (5 ∷ []) upper)
      start.states
      (launch_for (event_job (5 ∷ []) (5 ∷ []) upper) start).states
launch_for-First_example = launch_for-First (event_job (5 ∷ []) (5 ∷ []) upper) start

on_queued-guarded_example :
    guarded (on_queued (some (5 ∷ [])) (5 ∷ []) 1 upper start).states ≡ guarded start.states
on_queued-guarded_example = on_queued-guarded (some (5 ∷ [])) (5 ∷ []) 1 upper start
