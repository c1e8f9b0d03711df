-- ===== src/Winvm/Examples.antt =====
-- A server image with 8 of its 180 days left.
use multirunner.Common.{◌+◌, ◌*◌, ◌<◌, refl, false, true, [], ◌∷◌, arith}
use multirunner.Winvm.Housekeeping.{
  GoldenMeta, Policy, BakeOptions, day, decide, check_golden, apply_rearm, days_left, at_least,
  minus, decide_license, act,
}
use multirunner.Winvm.Keeping.{Fits, check_golden-lasts}

abbrev policy : Policy
policy = record { threshold_days = 14 }

abbrev options : BakeOptions
options = record {
  eval_days = 180;
  max_rearms = 3;
  licensed = false;
  workflows_hash = 7 ∷ [];
  windows_iso = 105 ∷ [];
}

abbrev image : GoldenMeta
image = record {
  created_at = 0;
  eval_days = 180;
  rearms_used = 1;
  max_rearms = 3;
  licensed = false;
  workflows_hash = 7 ∷ [];
}

fits : Fits policy options image
fits = record { image = omega arith; bake = omega arith }

check_golden-lasts_example :
    182 * day
    < (check_golden policy options (172 * day) true image).created_at
      + (check_golden policy options (172 * day) true image).eval_days * day
unfolding check_golden decide decide_license act apply_rearm days_left at_least minus
check_golden-lasts_example =
    check_golden-lasts policy options (172 * day) image (182 * day) (omega arith) fits refl
      (omega arith) refl (omega arith)
