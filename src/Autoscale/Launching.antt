-- ===== src/Autoscale/Launching.antt =====
-- Which pool launches a runner for a job.
use multirunner.Common.{
  ℕ, ◌≡◌, ◌⊎◌, inl, inr, refl, ap, Bool, true, false, ◌&&◌, Option, none, some, List, [], ◌∷◌, ◌++◌,
  ltb, if◌then◌else◌, if_elim, All, Text, length, Bool-cases, select, arith,
}
use multirunner.Pool.Access.{Job, requires_workflow_metadata}
use multirunner.Autoscale.{
  Place, Scaler, try_launch, serves, launch_in, launch_for, requires_metadata, event_job, on_queued,
}

-- The pool may serve the job, carries its labels and has a free place.
abbrev pub is_willing : Job → Place → Bool
is_willing job st = serves st.config job && ltb (length st.held) st.config.size

-- The first willing pool holds the job, if there is one; nothing else changes.
abbrev pub First : Job → List Place → List Place → Type 0
First job sts after =
    (All (λ (st : Place). is_willing job st ≡ false) sts × (after ≡ sts))
    ⊎ ((before : List Place) × (st : Place) × (rest : List Place) × (sts ≡ before ++ st ∷ rest)
        × All (λ (x : Place). is_willing job x ≡ false) before
        × (is_willing job st ≡ true)
        × (after ≡ before ++ record st { held = job ∷ st.held } ∷ rest))

-- One step of the loop.
pub launch_in-willing :
    (job : Job) (st : Place) (sts : List Place)
    → is_willing job st ≡ true
    → launch_in job (st ∷ sts) ≡ record st { held = job ∷ st.held } ∷ sts
unfolding launch_in try_launch
launch_in-willing job st sts h = ground (arith, h)

pub launch_in-unwilling :
    (job : Job) (st : Place) (sts : List Place)
    → is_willing job st ≡ false
    → launch_in job (st ∷ sts) ≡ st ∷ launch_in job sts
unfolding launch_in try_launch
launch_in-unwilling job st sts h = ground (arith, h)

launch_in-First : (job : Job) (sts : List Place) → First job sts (launch_in job sts)
launch_in-First job [] = inl (tt, unfold launch_in in refl)
launch_in-First job (st ∷ sts) = elim (Bool-cases (is_willing job st)) [
  | inl h ↦ inr ([], st, sts, refl, tt, h, launch_in-willing job st sts h)
  | inr h ↦ elim (launch_in-First job sts) [
    | inl (a, e) ↦ inl ((h, a), rw (launch_in-unwilling job st sts h) (ap (λ x. st ∷ x) e))
    | inr (before, x, rest, e, a, w, e') ↦ inr (
      st ∷ before,
      x,
      rest,
      ap (λ l. st ∷ l) e,
      (h, a),
      w,
      rw (launch_in-unwilling job st sts h) (ap (λ l. st ∷ l) e'),
    )
  ]
]

-- launchFor gives the job to the first pool, in the order of the configuration, that may serve it,
-- carries all of its labels and has a free place, and to no other; with no such pool nothing
-- changes.
pub launch_for-First : (job : Job) (s : Scaler) → First job s.states (launch_for job s).states
unfolding launch_for
launch_for-First job s = launch_in-First job s.states

abbrev pub guarded : List Place → List Place
guarded = select (λ st. requires_workflow_metadata st.config)

willing-plain :
    (client repo : Text) (labels : List Text) (st : Place) (sts : List Place)
    → requires_metadata labels (st ∷ sts) ≡ false
    → is_willing (event_job client repo labels) st ≡ true
    → requires_workflow_metadata st.config ≡ false
unfolding requires_metadata serves event_job
willing-plain client repo labels st sts h w = ground (arith, h, w)

rest-plain :
    (labels : List Text) (st : Place) (sts : List Place)
    → requires_metadata labels (st ∷ sts) ≡ false
    → requires_metadata labels sts ≡ false
unfolding requires_metadata
rest-plain labels st sts h = ground (arith, h)

launch_in-guarded :
    (client repo : Text) (labels : List Text) (sts : List Place)
    → requires_metadata labels sts ≡ false
    → guarded (launch_in (event_job client repo labels) sts) ≡ guarded sts
launch_in-guarded client repo labels [] h = unfold launch_in in refl
launch_in-guarded client repo labels (st ∷ sts) h =
    let job = event_job client repo labels in
    elim (Bool-cases (is_willing job st)) [
      | inl w ↦
          rw (launch_in-willing job st sts w, willing-plain client repo labels st sts h w) refl
      | inr w ↦ rw (launch_in-unwilling job st sts w) (
          ap (λ (l : List Place). if requires_workflow_metadata st.config then st ∷ l else l)
            (launch_in-guarded client repo labels sts (rest-plain labels st sts h)))
    ]

-- A webhook event by itself never starts a runner in a pool that is bound to workflows: OnQueued
-- changes no such pool, whatever its labels. Only the goroutine that resolves the metadata does.
pub on_queued-guarded :
    (client : Option Text) (repo : Text) (run_id : ℕ) (labels : List Text) (s : Scaler)
    → guarded (on_queued client repo run_id labels s).states ≡ guarded s.states
unfolding on_queued launch_for
on_queued-guarded none repo run_id labels s = refl
on_queued-guarded (some client) repo run_id labels s =
    if_elim (λ (t : Scaler). guarded t.states ≡ guarded s.states)
      (requires_metadata labels s.states) _ _ (λ _. refl)
      (launch_in-guarded client repo labels s.states)
