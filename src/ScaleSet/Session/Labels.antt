-- ===== src/ScaleSet/Session/Labels.antt =====
-- When a scale set is taken to be the desired one.
use multirunner.Common.{
  ◌≡◌, ◌↔◌, refl, Bool, true, false, ◌==◌, length, Text, text_eq, text_eq_refl, text_eq→≡, arith,
}
use multirunner.ScaleSet.Session.{RunnerScaleSet, all_zero, same_bool, scale_set_matches}
use multirunner.ScaleSet.Session.Counting.{named, counts, all_zero-counts}

same_bool-eq : (a b : Bool) → same_bool a b ≡ true → a ≡ b
same_bool-eq true true h = refl
same_bool-eq true false h = cc
same_bool-eq false true h = cc
same_bool-eq false false h = refl

fields :
    (existing desired : RunnerScaleSet)
    → scale_set_matches existing desired ≡ true
    → (existing.name ≡ desired.name)
      × (existing.runner_group_id ≡ desired.runner_group_id)
      × (existing.disable_update ≡ desired.disable_update)
      × (length existing.labels ≡ length desired.labels)
      × (all_zero (counts existing.labels desired.labels) ≡ true)
unfolding scale_set_matches counts
fields existing desired h =
    let tests : (text_eq existing.name desired.name ≡ true)
        × ((existing.runner_group_id == desired.runner_group_id) ≡ true)
        × (same_bool existing.disable_update desired.disable_update ≡ true)
        × ((length existing.labels == length desired.labels) ≡ true)
        × (all_zero (counts existing.labels desired.labels) ≡ true) =
      ground arith in
    (
      text_eq→≡ existing.name desired.name tests.0,
      ground arith,
      same_bool-eq existing.disable_update desired.disable_update tests.2,
      ground arith,
      tests.4,
    )

same_bool_refl : (a : Bool) → same_bool a a ≡ true
same_bool_refl true = refl
same_bool_refl false = refl

from_fields :
    (existing desired : RunnerScaleSet)
    → existing.name ≡ desired.name
    → existing.runner_group_id ≡ desired.runner_group_id
    → existing.disable_update ≡ desired.disable_update
    → length existing.labels ≡ length desired.labels
    → all_zero (counts existing.labels desired.labels) ≡ true
    → scale_set_matches existing desired ≡ true
unfolding scale_set_matches counts
from_fields existing desired n g u l z =
    let n' : text_eq existing.name desired.name ≡ true = rw n (text_eq_refl desired.name) in
    let u' : same_bool existing.disable_update desired.disable_update ≡ true =
      rw u (same_bool_refl desired.disable_update) in
    ground arith

-- A scale set is left as it is exactly when its name, group and update setting are the desired ones,
-- it has as many labels, and every name stands as often among its labels as among the desired ones, in
-- whatever order.
pub scale_set_matches-labels :
    (existing desired : RunnerScaleSet)
    → (scale_set_matches existing desired ≡ true) ↔ (
        (existing.name ≡ desired.name)
        × (existing.runner_group_id ≡ desired.runner_group_id)
        × (existing.disable_update ≡ desired.disable_update)
        × (length existing.labels ≡ length desired.labels)
        × ((name : Text) → named name existing.labels ≡ named name desired.labels))
unfolding scale_set_matches
scale_set_matches-labels existing desired =
    let (counted, matching) = all_zero-counts existing.labels desired.labels in
    (
      λ h.
          let parts = fields existing desired h in
          (parts.0, parts.1, parts.2, parts.3, counted parts.4),
      λ (n, g, u, l, same). from_fields existing desired n g u l (matching same),
    )
