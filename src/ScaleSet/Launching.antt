-- ===== src/ScaleSet/Launching.antt =====
-- What one attempt to start a runner may change, on every branch.
use multirunner.Common.{
  ℕ, zero, suc, ◌+◌, ◌≤◌, ◌<◌, ◌≡◌, Bool, true, false, not, Option, none, some, ◌∷◌, bit, arith,
  lookup, put, count_values, count_values-put, tally, codes,
}
use multirunner.ScaleSet.Errors.{Err, new_error}
use multirunner.ScaleSet.State.{
  Launcher, Env, Trial, Launched, started, partial, failed, JitReply, config, nil_config, refused,
  generated, is_occupying, running_locked, is_unreported, unreported,
}
use multirunner.ScaleSet.Cleanup.Follows.{starts, stops}
use multirunner.ScaleSet.Launcher.{
  allowed_locked, launch_backend, launch_jit, launch_named, launch_locked, launch_loop, new_state,
  drop_registration, launch_begin, launch_failed,
}

abbrev no_identity : Err
no_identity = new_error (codes "scaleset: generate JIT config returned no runner identity")

-- The part of the launcher that launching leaves alone.
pub record Keeps (l u : Launcher) : Type 0 where
  pub same_max : u.max_runners ≡ l.max_runners
  pub same_exits : u.pending_exits ≡ l.pending_exits
  pub same_completions : u.completions ≡ l.completions
  pub same_desired : u.desired ≡ l.desired
  pub same_stopped : u.stopped ≡ l.stopped
  pub same_done : u.ctx_done ≡ l.ctx_done

-- An attempt under a name: it counts one runner more at most, and leaves either one more call of
-- OnStop or one more runner to report; `lost` counts a runner of the same name that it replaced.
pub record Placed (lost : ℕ) (l u : Launcher) : Type 0 where
  pub keeps : Keeps l u
  pub running_rises : running_locked u ≤ running_locked l + 1
  pub same_starts : starts u.trace ≡ starts l.trace
  pub ended_le : stops u.trace + unreported u ≤ stops l.trace + unreported l + 1
  pub ended_ge : stops l.trace + unreported l + 1 ≤ stops u.trace + unreported u + lost

module _ (name : ℕ) (l : Launcher) where
  abbrev replaced : ℕ
  replaced = tally is_unreported (lookup name l.runners)

  launch_failed-Placed : (e : Err) → Placed replaced l (launch_failed e l).1
  unfolding launch_failed running_locked unreported
  launch_failed-Placed e = ground arith

  drop_registration-Placed :
      (env : Env) (id : ℕ) (e : Err) → Placed replaced l (drop_registration env name id e l).1
  unfolding drop_registration running_locked unreported
  drop_registration-Placed env id e = ground arith

  put-Placed :
      (h id : ℕ) (stop : Bool)
      → (count_values is_occupying (put name (new_state h id stop) l.runners)
          ≤ running_locked l + 1)
        × (count_values is_unreported (put name (new_state h id stop) l.runners) + replaced
            ≡ unreported l + bit (not stop))
  unfolding running_locked unreported is_unreported is_occupying new_state
  put-Placed h id stop = (
    ground (arith, count_values-put is_occupying name (new_state h id stop) l.runners),
    count_values-put is_unreported name (new_state h id stop) l.runners,
  )

  launch_backend-Placed :
      (env : Env) (id : ℕ) (b : Launched) → Placed replaced l (launch_backend env name id b l).1
  unfolding launch_backend running_locked unreported
  launch_backend-Placed env id (started h) = ground (arith, put-Placed h id false)
  launch_backend-Placed env id (partial h e) = ground (arith, put-Placed h id true)
  launch_backend-Placed env id (failed e) = drop_registration-Placed env id _

module _ (env : Env) where
  launch_jit-Placed :
      (name : ℕ) (j : JitReply) (b : Launched) (l : Launcher)
      → Placed (replaced name l) l (launch_jit env name j b l).1
  unfolding launch_jit running_locked unreported
  launch_jit-Placed name nil_config b l = launch_failed-Placed name l _
  launch_jit-Placed name (refused e) b l = launch_failed-Placed name l _
  launch_jit-Placed name (config id) b l = ground (
    arith,
    launch_failed-Placed name l no_identity,
    launch_backend-Placed name (record l { trace = generated id ∷ l.trace }) env id b,
  )

  -- The unreported runner that the next name would replace: none, unless names collide.
  abbrev pub collision : Option ℕ → Launcher → ℕ
  collision none l = 0
  collision (some name) l = replaced name l

  launch_named-Placed :
      (n : Option ℕ) (t : Trial) (l : Launcher)
      → Placed (collision n l) l (launch_named env n t l).1
  unfolding launch_named running_locked unreported launch_failed
  launch_named-Placed none t l = ground arith
  launch_named-Placed (some name) t l = launch_jit-Placed name t.jit t.launch l

-- Up to n attempts: starts are balanced by stops and by runners to report.
pub record Spends (n : ℕ) (l u : Launcher) : Type 0 where
  pub keeps : Keeps l u
  pub running_rises : running_locked u ≤ running_locked l + n
  pub balance_le :
      stops u.trace + unreported u + starts l.trace ≤ stops l.trace + unreported l + starts u.trace

module _ (env : Env) where
  abbrev pub next_name : Launcher → Option ℕ
  next_name l = (env.trial (l.seq + 1)).short_id

  pub launch_locked-Spends : (l : Launcher) → Spends 1 l (launch_locked env l).1
  unfolding launch_locked launch_begin running_locked unreported
  launch_locked-Spends l =
      ground (arith, launch_named-Placed env (next_name l) (env.trial (l.seq + 1)) (launch_begin l))

  launch_locked-balance :
      (l : Launcher)
      → collision env (next_name l) l ≡ 0
      → let u = (launch_locked env l).1 in
        stops l.trace + unreported l + starts u.trace
        ≤ stops u.trace + unreported u + starts l.trace
  unfolding launch_locked launch_begin running_locked unreported
  launch_locked-balance l h =
      ground (arith, launch_named-Placed env (next_name l) (env.trial (l.seq + 1)) (launch_begin l))

  pub launch_loop-Spends : (n : ℕ) (l : Launcher) → Spends n l (launch_loop env n l).1
  unfolding launch_loop
  launch_loop-Spends zero l = ground arith
  launch_loop-Spends (suc n) l =
      ground (arith, launch_locked-Spends l, launch_loop-Spends n (launch_locked env l).1)

  -- No name of the next n attempts is that of a runner still to report.
  abbrev pub Fresh : ℕ → Launcher → Type 0
  Fresh zero l = Unit {0}
  Fresh (suc n) l = (collision env (next_name l) l ≡ 0) × Fresh n (launch_locked env l).1

  pub launch_loop-balance :
      (n : ℕ) (l : Launcher)
      → Fresh n l
      → let u = (launch_loop env n l).1 in
        stops l.trace + unreported l + starts u.trace
        ≤ stops u.trace + unreported u + starts l.trace
  unfolding launch_loop
  launch_loop-balance zero l h = omega arith
  launch_loop-balance (suc n) l h =
      ground (arith, launch_locked-balance l h.0, launch_loop-balance n (launch_locked env l).1 h.1)

-- The launches that are allowed fit under the cap.
pub running-allowed_locked :
    (l : Launcher) (count : ℕ)
    → 0 < l.max_runners
    → running_locked l ≤ l.max_runners
    → running_locked l + allowed_locked l count ≤ l.max_runners
unfolding allowed_locked
running-allowed_locked l count h k = ground arith
