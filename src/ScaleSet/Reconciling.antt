-- ===== src/ScaleSet/Reconciling.antt =====
-- What Reconcile removes.
use multirunner.Common.{
  ℕ, ◌+◌, ◌≡◌, refl, Bool, true, false, none, List, [], ◌∷◌, ◌==◌, if_elim, arith, count_if,
  Bool-cases, inl, inr, ==_iff, ◌∙◌,
}
use multirunner.ScaleSet.State.{Launcher, Env, Effect, removed}
use multirunner.ScaleSet.Shutdown.{
  OwnedRunner, Pass, Listing, listed, unlisted, active_resources, is_active, reconcile_one,
  reconcile_loop, reconcile,
}

abbrev pub is_removal : Effect → Bool
is_removal (removed h) = true
is_removal _ = false

abbrev pub is_removal_of : ℕ → Effect → Bool
is_removal_of id (removed h) = h == id
is_removal_of id _ = false

-- How often a resource was removed, and how often this one was.
abbrev pub removals : List Effect → ℕ
removals = count_if is_removal

abbrev pub removals_of : ℕ → List Effect → ℕ
removals_of id = count_if (is_removal_of id)

-- One more removal for one more reconciled runner, and only of the runner's own resource.
reconcile_one-count :
    (env : Env) (o : OwnedRunner) (p : Pass)
    → removals (reconcile_one env o p).launcher.trace + p.reconciled
      ≡ removals p.launcher.trace + (reconcile_one env o p).reconciled
unfolding reconcile_one
reconcile_one-count env o p = ground arith

reconcile_one-spares :
    (env : Env) (id : ℕ) (o : OwnedRunner) (p : Pass)
    → (o.resource_id == id) ≡ false
    → removals_of id (reconcile_one env o p).launcher.trace ≡ removals_of id p.launcher.trace
unfolding reconcile_one
reconcile_one-spares env id o p h = ground arith

module _ (env : Env) (active : List ℕ) where
  reconcile_loop-count :
      (os : List OwnedRunner) (p : Pass)
      → removals (reconcile_loop env active os p).launcher.trace + p.reconciled
        ≡ removals p.launcher.trace + (reconcile_loop env active os p).reconciled
  unfolding reconcile_loop
  reconcile_loop-count [] p = refl
  reconcile_loop-count (o ∷ os) p = elim (Bool-cases (is_active active o.resource_id)) [
    | inl e ↦ rw (e, reconcile_loop) (reconcile_loop-count os p)
    | inr e ↦
        rw (e, reconcile_loop)
          (omega
            (arith, reconcile_one-count env o p, reconcile_loop-count os (reconcile_one env o p)))
  ]

  reconcile_loop-spares :
      (id : ℕ) (os : List OwnedRunner) (p : Pass)
      → is_active active id ≡ true
      → removals_of id (reconcile_loop env active os p).launcher.trace
        ≡ removals_of id p.launcher.trace
  unfolding reconcile_loop
  reconcile_loop-spares id [] p h = refl
  reconcile_loop-spares id (o ∷ os) p h = elim (Bool-cases (is_active active o.resource_id)) [
    | inl e ↦ rw (e, reconcile_loop) (reconcile_loop-spares id os p h)
    | inr e ↦
        rw (e, reconcile_loop)
          (reconcile_loop-spares id os (reconcile_one env o p) h
            ∙ reconcile_one-spares env id o p (other o.resource_id e))
  ]
    where
      other : (r : ℕ) → is_active active r ≡ false → (r == id) ≡ false
      other r e = elim (Bool-cases (r == id)) [ inl f ↦ cc ((==_iff r id).0 f) | inr f ↦ f ]

reconcile-count :
    (env : Env) (x : Listing) (l : Launcher)
    → let p = reconcile env x l in removals p.launcher.trace ≡ removals l.trace + p.reconciled
unfolding reconcile
reconcile-count env (unlisted e) l = omega arith
reconcile-count env (listed os) l =
    let p : Pass = record { reconciled = 0; errs = none; launcher = l } in
    if_elim (λ (q : Pass). removals q.launcher.trace ≡ removals l.trace + q.reconciled)
      env.has_store _ _
      (λ _. omega (arith, reconcile_loop-count env (active_resources l.runners) os p))
      (λ _. omega arith)

-- Whatever the store lists and the backend and GitHub answer, the count that Reconcile reports is the
-- number of resources that it removed, and none of these belongs to a runner in the map.
pub reconcile-spares :
    (env : Env) (x : Listing) (l : Launcher)
    → let p = reconcile env x l in
      (removals p.launcher.trace ≡ removals l.trace + p.reconciled)
      × ((id : ℕ)
          → is_active (active_resources l.runners) id ≡ true
          → removals_of id p.launcher.trace ≡ removals_of id l.trace)
unfolding reconcile
reconcile-spares env (unlisted e) l = (reconcile-count env (unlisted e) l, λ id h. refl)
reconcile-spares env (listed os) l =
    let active = active_resources l.runners in
    let p : Pass = record { reconciled = 0; errs = none; launcher = l } in
    (
      reconcile-count env (listed os) l,
      λ id h.
          if_elim (λ (q : Pass). removals_of id q.launcher.trace ≡ removals_of id l.trace)
            env.has_store _ _ (λ _. reconcile_loop-spares env active id os p h) (λ _. refl),
    )
