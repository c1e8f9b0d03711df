-- ===== src/Winvm/Housekeeping.antt =====
-- internal/winvm/housekeeping.go and housekeeping_run.go: when a golden image is rearmed or rebuilt.
--
-- Times are nanoseconds. The source computes the elapsed days in float64 and truncates them towards
-- zero; the quotient is exact here. One reading of the clock serves one check. Whether a boot of the
-- image or a bake succeeds is an argument.
use multirunner.Common.{
  ℕ, ◌+◌, ◌-◌, ◌/◌, Bool, true, false, not, ◌&&◌, Option, none, some, List, [], ◌∷◌, ◌==◌, ltb, leb,
  if◌then◌else◌, Text, text_eq, ℤ, pos, negsuc,
}

pub data Action : Type 0 where
  action_none action_rearm action_rebuild : Action

pub record GoldenMeta : Type 0 where
  pub created_at : ℕ
  pub eval_days : ℕ
  pub rearms_used : ℕ
  pub max_rearms : ℕ
  pub licensed : Bool
  pub workflows_hash : Text

-- Policy
pub record Policy : Type 0 where
  pub threshold_days : ℕ

-- BakeOptions after its defaults.
pub record BakeOptions : Type 0 where
  pub eval_days : ℕ
  pub max_rearms : ℕ
  pub licensed : Bool
  pub workflows_hash : Text
  pub windows_iso : Text

abbrev pub day : ℕ
day = 86400000000000

-- a - b
unfoldable pub minus : ℕ → ℕ → ℤ
minus a b = if ltb a b then negsuc (b - a - 1) else pos (a - b)

unfoldable pub at_least : ℤ → ℕ → Bool
at_least (pos n) k = leb k n
at_least (negsuc n) k = false

-- DaysLeft
unfoldable pub days_left : GoldenMeta → ℕ → ℤ
unfolding minus
days_left m now =
    if m.licensed
    then pos 1073741824
    else if ltb now m.created_at
    then pos (m.eval_days + (m.created_at - now) / day)
    else minus m.eval_days ((now - m.created_at) / day)

abbrev pub is_blank : Text → Bool
is_blank [] = true
is_blank (c ∷ s) = false

-- The part of Decide after the check of the hash.
unfoldable pub decide_license : Policy → GoldenMeta → ℕ → Action
unfolding days_left at_least
decide_license p m now =
    if m.licensed
    then action_none
    else if at_least (days_left m now) p.threshold_days
    then action_none
    else if ltb m.rearms_used m.max_rearms
    then action_rearm
    else action_rebuild

-- Decide
unfoldable pub decide : Policy → GoldenMeta → Text → ℕ → Action
unfolding decide_license
decide p m want_hash now =
    if not (is_blank want_hash) && not (text_eq want_hash m.workflows_hash)
    then action_rebuild
    else decide_license p m now

-- ApplyRearm
unfoldable pub apply_rearm : ℕ → GoldenMeta → GoldenMeta
apply_rearm now m = record m { created_at = now; rearms_used = m.rearms_used + 1 }

-- What Bake saves at its end.
unfoldable pub baked : BakeOptions → ℕ → GoldenMeta
baked o now = record {
  created_at = now;
  eval_days = o.eval_days;
  rearms_used = 0;
  max_rearms = o.max_rearms;
  licensed = o.licensed;
  workflows_hash = o.workflows_hash;
}

-- The switch of CheckOnce.
unfoldable pub act : BakeOptions → ℕ → Bool → GoldenMeta → Action → GoldenMeta
unfolding apply_rearm baked
act o now succeeds m action_none = m
act o now succeeds m action_rearm = if succeeds then apply_rearm now m else m
act o now succeeds m action_rebuild =
    if is_blank o.windows_iso then m else if succeeds then baked o now else m

-- CheckOnce for one image, whose metadata is loaded; an image that is not baked has 0 days.
unfoldable pub check_golden : Policy → BakeOptions → ℕ → Bool → GoldenMeta → GoldenMeta
unfolding decide act
check_golden p o now succeeds m =
    if m.eval_days == 0 then m else act o now succeeds m (decide p m o.workflows_hash now)

-- CheckOnce: an image whose metadata does not load is skipped.
unfoldable pub check_once :
    Policy → ℕ → List (BakeOptions × Bool × Option GoldenMeta) → List (Option GoldenMeta)
unfolding check_golden
check_once p now [] = []
check_once p now ((o, succeeds, none) ∷ gs) = none ∷ check_once p now gs
check_once p now ((o, succeeds, some m) ∷ gs) =
    some (check_golden p o now succeeds m) ∷ check_once p now gs
