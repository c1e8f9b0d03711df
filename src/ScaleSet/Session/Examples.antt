-- ===== src/ScaleSet/Session/Examples.antt =====
-- Tests of the session's scale set and its opening, and the theorems about them at concrete inputs.
use multirunner.Common.{
  ℕ, zero, suc, ◌≡◌, ◌↔◌, refl, true, false, inr, Option, none, some, List, [], ◌∷◌, length, Text,
  codes,
}
use multirunner.ScaleSet.Errors.{Err, new_error}
use multirunner.ScaleSet.Session.{
  Label, RunnerScaleSet, SessionOptions, ScaleSetManager, desired_scale_set, scale_set_matches,
  ensure_scale_set, updated, Attempt, session, still_active, open_session, runner_group_id,
}
use multirunner.ScaleSet.Session.Counting.{named}
use multirunner.ScaleSet.Session.Labels.{scale_set_matches-labels}

abbrev options : SessionOptions
options = record { name = codes "s"; runner_group = []; labels = codes "a" ∷ codes "b" ∷ [] }

abbrev label : Text → Label
label name = record { name = name; kind = [] }

abbrev stored : List Label → RunnerScaleSet
stored labels = record {
  id = 7;
  name = codes "s";
  runner_group_id = 1;
  labels = labels;
  disable_update = true;
}

abbrev manager : List Label → ScaleSetManager
manager labels = record {
  get = λ group name. inr (some (stored labels));
  create = λ set. inr set;
  update = λ id set. inr (record set { id = id });
}

reused :
    ensure_scale_set (manager (label (codes "b") ∷ label (codes "a") ∷ [])) options 1
    ≡ (inr (stored (label (codes "b") ∷ label (codes "a") ∷ [])), [])
unfolding ensure_scale_set
reused = refl

changed :
    (ensure_scale_set (manager (label (codes "a") ∷ label (codes "a") ∷ [])) options 1).1
    ≡ updated 7 (desired_scale_set options 1) ∷ []
unfolding ensure_scale_set
changed = refl

own_group : runner_group_id (codes "d") (λ name. inr 5) (codes "g") ≡ inr 5
unfolding runner_group_id
own_group = refl

scale_set_matches-labels_example :
    (scale_set_matches (stored (label (codes "a") ∷ [])) (stored (label (codes "b") ∷ [])) ≡ true)
    ↔ ((codes "s" ≡ codes "s")
        × (◌≡◌ {A = ℕ} 1 1)
        × (true ≡ true)
        × (length (label (codes "a") ∷ []) ≡ length (label (codes "b") ∷ []))
        × ((name : Text)
            → named name (label (codes "a") ∷ []) ≡ named name (label (codes "b") ∷ [])))
scale_set_matches-labels_example =
    scale_set_matches-labels (stored (label (codes "a") ∷ [])) (stored (label (codes "b") ∷ []))

conflict : Err
conflict = new_error (codes "409 Conflict: RunnerScaleSetSessionConflictException")

-- The first requests meet the session of the previous process.
abbrev attempt : Option Err → Attempt
attempt reply = record { reply = reply; took = 1; cancelled = false; late = 0 }

attempts : ℕ → Attempt
attempts zero = attempt (some conflict)
attempts (suc zero) = attempt (some conflict)
attempts (suc (suc k)) = attempt none

opened_third : open_session attempts ≡ some (session, 3)
unfolding open_session attempts conflict new_error
opened_third = refl

held : ℕ → Attempt
held k = attempt (some conflict)

never_opened : open_session held ≡ some (still_active conflict, 18)
unfolding open_session held conflict new_error
never_opened = refl
