-- ===== src/ScaleSet/Shutdown.antt =====
-- internal/scaleset/launcher.go, Shutdown and Reconcile.
use multirunner.Common.{
  ℕ, ◌+◌, Bool, true, not, Option, none, some, List, [], ◌∷◌, ◌==◌, negsuc, if◌then◌else◌, Table,
  codes, any,
}
use multirunner.ScaleSet.Errors.{Err, wrap, new_error}
use multirunner.ScaleSet.State.{RunnerState, Launcher, deregistered, removed, Env}
use multirunner.ScaleSet.Cleanup.{
  Outcome, finish_runner, remove_runner, add_error, names_if, retry_pending_registrations,
}

-- The goroutines of Shutdown, one for each runner. Each touches its own runner only, so the order
-- in which they run is that of the list.
unfoldable pub finish_all : Env → List ℕ → Option Err → Launcher → Outcome
unfolding finish_runner
finish_all env [] errs l = (errs, l)
finish_all env (name ∷ names) errs l =
    let (e, l') = finish_runner env name (negsuc 0) none true l in
    finish_all env names (add_error errs e) l'

unfoldable pub shutdown : Env → Launcher → Outcome
unfolding finish_all names_if retry_pending_registrations
shutdown env l =
    let l0 = record l { stopped = true } in
    let (errs, l1) = finish_all env (names_if (λ s. not s.cleaned) l0.runners) none l0 in
    let (e, l2) = retry_pending_registrations env l1 in (add_error errs e, l2)

-- backend.OwnedRunner
pub record OwnedRunner : Type 0 where
  pub resource_id : ℕ
  pub runner_id : ℕ

-- What ListOwnedRunners answers.
pub data Listing : Type 0 where
  listed : List OwnedRunner → Listing
  unlisted : Err → Listing

-- activeResources: the handles of the runners in the map
unfoldable pub active_resources : Table RunnerState → List ℕ
active_resources [] = []
active_resources ((name, s) ∷ t) =
    let rest = active_resources t in if s.cleaned then rest else s.handle ∷ rest

unfoldable pub is_active : List ℕ → ℕ → Bool
is_active active id = any (λ h. h == id) active

-- What a pass of Reconcile leaves: the count, the errors, the launcher.
pub record Pass : Type 0 where
  pub reconciled : ℕ
  pub errs : Option Err
  pub launcher : Launcher

-- One owned runner that is not active: its registration goes first, then its resource.
unfoldable pub reconcile_one : Env → OwnedRunner → Pass → Pass
unfolding remove_runner
reconcile_one env o p = elim (remove_runner env o.runner_id) [
  | some e ↦ record p { errs = add_error p.errs (some (wrap (codes "remove registration: ") e)) }
  | none ↦
      let l = p.launcher in
      let l' = record l { trace = deregistered o.runner_id ∷ l.trace } in
      elim (env.remove_owned o.resource_id) [
        | some e ↦ record p {
          errs = add_error p.errs (some (wrap (codes "remove backend runner: ") e));
          launcher = l';
        }
        | none ↦ record p {
          reconciled = p.reconciled + 1;
          launcher = record l' { trace = removed o.resource_id ∷ l'.trace };
        }
      ]
]

unfoldable pub reconcile_loop : Env → List ℕ → List OwnedRunner → Pass → Pass
unfolding is_active reconcile_one
reconcile_loop env active [] p = p
reconcile_loop env active (o ∷ os) p =
    reconcile_loop env active os
      (if is_active active o.resource_id then p else reconcile_one env o p)

unfoldable pub reconcile : Env → Listing → Launcher → Pass
unfolding active_resources reconcile_loop
reconcile env (unlisted e) l =
    let e' =
      if env.has_store
      then wrap (codes "list owned runners: ") e
      else new_error (codes "backend does not support scale-set ownership reconciliation") in
    record { reconciled = 0; errs = some e'; launcher = l }
reconcile env (listed os) l =
    if env.has_store
    then reconcile_loop env (active_resources l.runners) os
        (record { reconciled = 0; errs = none; launcher = l })
    else record {
      reconciled = 0;
      errs = some (new_error (codes "backend does not support scale-set ownership reconciliation"));
      launcher = l;
    }
