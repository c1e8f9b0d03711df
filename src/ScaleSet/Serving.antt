-- ===== src/ScaleSet/Serving.antt =====
-- How many runners a desired count starts, when the backend and GitHub answer.
use multirunner.Common.{
  ℕ, zero, suc, ◌+◌, ◌-◌, ◌≡◌, ◌≢◌, refl, true, false, none, some, if◌then◌else◌, ltb, min, max,
  arith, lookup, count_values-put, length,
}
use multirunner.ScaleSet.State.{
  RunnerState, Launcher, Env, started, config, is_occupying, running_locked,
}
use multirunner.ScaleSet.Launcher.{
  served, allowed_locked, launch_backend, launch_jit, launch_named, launch_locked, launch_loop,
  new_state, launch_begin, desired_launch,
}
use multirunner.ScaleSet.Launching.{next_name}

-- The next attempt gets a JIT config under a name that no runner has, and a handle.
pub record Succeeds (env : Env) (l : Launcher) : Type 0 where
  pub name : ℕ
  pub id : ℕ
  pub handle : ℕ
  pub named : next_name env l ≡ some name
  pub configured : (env.trial (l.seq + 1)).jit ≡ config id
  pub identified : id ≢ 0
  pub starts : (env.trial (l.seq + 1)).launch ≡ started handle
  pub unused : lookup name l.runners ≡ none

launch_locked-Succeeds :
    (env : Env) (l : Launcher)
    → Succeeds env l
    → ((launch_locked env l).0 ≡ none)
      × (running_locked (launch_locked env l).1 ≡ running_locked l + 1)
unfolding launch_locked launch_named launch_jit launch_backend launch_begin running_locked
    is_occupying new_state
launch_locked-Succeeds env l s = (
  ground (arith, s.named, s.configured, s.identified, s.starts),
  ground (
    arith,
    s.named,
    s.configured,
    s.identified,
    s.starts,
    s.unused,
    count_values-put is_occupying s.name (new_state s.handle s.id false) l.runners,
  ),
)

-- The next n attempts do.
abbrev pub AllSucceed : Env → ℕ → Launcher → Type 0
AllSucceed env zero l = Unit {0}
AllSucceed env (suc n) l = Succeeds env l × AllSucceed env n (launch_locked env l).1

launch_loop-AllSucceed :
    (env : Env) (n : ℕ) (l : Launcher)
    → AllSucceed env n l
    → ((launch_loop env n l).0 ≡ none)
      × (running_locked (launch_loop env n l).1 ≡ running_locked l + n)
unfolding launch_loop
launch_loop-AllSucceed env zero l h = (refl, omega arith)
launch_loop-AllSucceed env (suc n) l h =
    let p = launch_locked-Succeeds env l h.0 in
    let q = launch_loop-AllSucceed env n (launch_locked env l).1 h.1 in
    (ground (arith, p, q), ground (arith, p, q))

-- What the launcher means to serve: the desired count less the exits that the broker still counts,
-- within the cap if there is one, and never less than what runs.
abbrev pub target : Launcher → ℕ → ℕ
target l count =
    let want = count - length l.pending_exits in
    max (running_locked l) (if ltb 0 l.max_runners then min want l.max_runners else want)

allowed_locked-target :
    (l : Launcher) (count : ℕ) → running_locked l + allowed_locked l count ≡ target l count
unfolding allowed_locked
allowed_locked-target l count = ground arith

-- If each attempt to start a runner succeeds, the last part of HandleDesiredRunnerCount brings a
-- launcher that is not stopped to exactly the count that it means to serve, and returns that count
-- with no error.
pub desired_launch-target :
    (env : Env) (count : ℕ) (l : Launcher)
    → l.stopped ≡ false
    → AllSucceed env (allowed_locked l count) l
    → let (n, e, u) = desired_launch env count l in
      (n ≡ target l count) × (e ≡ none) × (running_locked u ≡ target l count)
unfolding desired_launch served
desired_launch-target env count l h a =
    let p = launch_loop-AllSucceed env (allowed_locked l count) l a in
    let t = allowed_locked-target l count in
    (ground (arith, p, t), ground (arith, p), ground (arith, p, t))

-- The runners and the exits that the broker still counts.
abbrev pub committed : Launcher → ℕ
committed l = running_locked l + length l.pending_exits

-- A runner that is up and counts.
abbrev pub IsUp : RunnerState → Type 0
IsUp s = (s.cleaned ≡ false) × (s.terminated ≡ false) × (s.occupies_capacity ≡ true)
