-- ===== src/Winvm/Keeping.antt =====
-- What a check leaves behind.
use multirunner.Common.{
  ℕ, ◌+◌, ◌-◌, ◌*◌, ◌/◌, ◌≤◌, ◌<◌, ◌≡◌, ◌≢◌, inl, inr, refl, ◌∙◌, true, false, not, ◌&&◌, if_elim,
  Text, text_eq, text_eq_refl, Bool-cases, arith,
}
use multirunner.Winvm.Housekeeping.{
  Action, action_none, action_rearm, action_rebuild, GoldenMeta, Policy, BakeOptions, day, minus,
  at_least, days_left, is_blank, decide_license, decide, apply_rearm, baked, act, check_golden,
}

-- The threshold is within both trial periods.
pub record Fits (p : Policy) (o : BakeOptions) (m : GoldenMeta) : Type 0 where
  pub image : p.threshold_days ≤ m.eval_days
  pub bake : p.threshold_days ≤ o.eval_days

-- An image whose clock has just been reset.
fresh-none :
    (p : Policy) (m : GoldenMeta) (now : ℕ)
    → m.created_at ≡ now
    → p.threshold_days ≤ m.eval_days
    → decide_license p m now ≡ action_none
unfolding decide_license days_left at_least minus
fresh-none p m now h k = ground (arith, h, k)

-- The hash is the one that is wanted, or none is.
abbrev IsCurrent : Text → GoldenMeta → Type 0
IsCurrent want m = (not (is_blank want) && not (text_eq want m.workflows_hash)) ≡ false

current-decide :
    (p : Policy) (m : GoldenMeta) (want : Text) (now : ℕ)
    → IsCurrent want m
    → decide p m want now ≡ decide_license p m now
unfolding decide
current-decide p m want now h = rw h

rearm-IsCurrent :
    (p : Policy) (m : GoldenMeta) (want : Text) (now : ℕ)
    → decide p m want now ≡ action_rearm
    → IsCurrent want m
unfolding decide
rearm-IsCurrent p m want now h =
    elim (Bool-cases (not (is_blank want) && not (text_eq want m.workflows_hash))) [
      | inl k ↦ cc (rw k at h)
      | inr k ↦ k
    ]

none-license :
    (p : Policy) (m : GoldenMeta) (want : Text) (now : ℕ)
    → decide p m want now ≡ action_none
    → decide_license p m now ≡ action_none
unfolding decide
none-license p m want now h =
    elim (Bool-cases (not (is_blank want) && not (text_eq want m.workflows_hash))) [
      | inl k ↦ cc (rw k at h)
      | inr k ↦ rw k at h
    ]

rearmed-none :
    (p : Policy) (m : GoldenMeta) (want : Text) (now : ℕ)
    → p.threshold_days ≤ m.eval_days
    → decide p m want now ≡ action_rearm
    → decide p (apply_rearm now m) want now ≡ action_none
unfolding apply_rearm
rearmed-none p m want now k h =
    let m' = record m { created_at = now; rearms_used = m.rearms_used + 1 } in
    current-decide p m' want now (rearm-IsCurrent p m want now h) ∙ fresh-none p m' now refl k

baked-none :
    (p : Policy) (o : BakeOptions) (now : ℕ)
    → p.threshold_days ≤ o.eval_days
    → decide p (baked o now) o.workflows_hash now ≡ action_none
unfolding baked
baked-none p o now k =
    current-decide p (baked o now) o.workflows_hash now
      (ground (arith, text_eq_refl o.workflows_hash))
    ∙ fresh-none p (baked o now) now refl k

module _ (p : Policy) (o : BakeOptions) (now : ℕ) (m : GoldenMeta) where
  act-settles :
      (d : Action)
      → Fits p o m
      → is_blank o.windows_iso ≡ false
      → decide p m o.workflows_hash now ≡ d
      → decide p (act o now true m d) o.workflows_hash now ≡ action_none
  unfolding act
  act-settles action_none f i h = h
  act-settles action_rearm f i h = rearmed-none p m o.workflows_hash now f.image h
  act-settles action_rebuild f i h = rw i (baked-none p o now f.bake)

  act-created : (d : Action) → m.created_at ≤ now → (act o now true m d).created_at ≤ now
  unfolding act apply_rearm baked
  act-created action_none h = h
  act-created action_rearm h = omega arith
  act-created action_rebuild h =
      if_elim (λ (x : GoldenMeta). x.created_at ≤ now) (is_blank o.windows_iso) _ _ (λ _. h)
        (λ _. omega arith)

  check-act :
      m.eval_days ≢ 0
      → check_golden p o now true m ≡ act o now true m (decide p m o.workflows_hash now)
  unfolding check_golden
  check-act h = ground (arith, h)

  -- A check whose action succeeds leaves nothing to do: the same check right after it decides to do
  -- nothing. The image is baked, an installation medium is configured, and the threshold is at most
  -- the trial period of the image and of a new one.
  pub check_golden-settles :
      m.eval_days ≢ 0
      → Fits p o m
      → is_blank o.windows_iso ≡ false
      → decide p (check_golden p o now true m) o.workflows_hash now ≡ action_none
  check_golden-settles n f i =
      rw (check-act n) (act-settles (decide p m o.workflows_hash now) f i refl)

enough :
    (p : Policy) (m : GoldenMeta) (now : ℕ)
    → decide_license p m now ≡ action_none
    → m.licensed ≡ false
    → m.created_at ≤ now
    → (now - m.created_at) / day + p.threshold_days ≤ m.eval_days
unfolding decide_license days_left at_least minus
enough p m now h l c = ground (arith, h, l, c)

-- An image that a check leaves alone does not expire for one day less than the threshold.
license-lasts :
    (p : Policy) (m : GoldenMeta) (now t : ℕ)
    → decide_license p m now ≡ action_none
    → m.licensed ≡ false
    → m.created_at ≤ now
    → t + day < now + p.threshold_days * day
    → t < m.created_at + m.eval_days * day
license-lasts p m now t h l c k = omega (arith, enough p m now h l c, c, k)

-- After a check whose action succeeds, whatever it was, the trial period of an image without a licence
-- has not ended until one day less than the threshold has passed: checks that are closer together
-- than that never find an expired image. The image is baked and was not created in the future, an
-- installation medium is configured, and the threshold is at most the trial period of the image and
-- of a new one.
pub check_golden-lasts :
    (p : Policy) (o : BakeOptions) (now : ℕ) (m : GoldenMeta) (t : ℕ)
    → m.eval_days ≢ 0
    → Fits p o m
    → is_blank o.windows_iso ≡ false
    → m.created_at ≤ now
    → (check_golden p o now true m).licensed ≡ false
    → t + day < now + p.threshold_days * day
    → t < (check_golden p o now true m).created_at + (check_golden p o now true m).eval_days * day
check_golden-lasts p o now m t n f i c l k =
    let m' = check_golden p o now true m in
    license-lasts p m' now t
      (none-license p m' o.workflows_hash now (check_golden-settles p o now m n f i)) l
      (rw (check-act p o now m n) (act-created p o now m (decide p m o.workflows_hash now) c)) k
