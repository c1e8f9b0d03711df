-- ===== src/Pool/Slot.antt =====
-- internal/pool/pool.go, runSlot, and internal/pool/launcher.go, backoff: a slot of a warm pool runs
-- one runner after the other, with a delay after each failure. Durations are nanoseconds.
use multirunner.Common.{
  ℕ, zero, suc, ◌+◌, ◌-◌, ◌*◌, ◌^◌, ◌≤◌, ◌≡◌, refl, Bool, true, false, not, List, [], ◌∷◌, ltb, leb,
  if◌then◌else◌, length, count_if, min, All, Bool-cases, inl, inr, arith, double-pow, le-mul-pow,
}

abbrev pub backoff_base : ℕ
backoff_base = 2000000000

abbrev pub backoff_max : ℕ
backoff_max = 60000000000

-- for i := 1; i < failures; i++: `rounds` is failures - i.
unfoldable pub slot_backoff_loop : ℕ → ℕ → ℕ
slot_backoff_loop zero d = if ltb backoff_max d then backoff_max else d
slot_backoff_loop (suc rounds) d =
    let rest = slot_backoff_loop rounds (d * 2) in
    if leb backoff_max (d * 2) then backoff_max else rest

unfoldable pub backoff : ℕ → ℕ
unfolding slot_backoff_loop
backoff failures = slot_backoff_loop (failures - 1) backoff_base

-- One pass of the loop: whether RunOneForSlot failed, ctx.Err() != nil after it, and whether the
-- sleep ran its full time.
pub record Pass : Type 0 where
  pub failed : Bool
  pub cancelled : Bool
  pub slept : Bool

-- runSlot from a count of failures: the delays that it sleeps. The list of passes ends where the
-- context is found done at the top of the loop.
unfoldable pub run_slot : ℕ → List Pass → List ℕ
unfolding backoff
run_slot failures [] = []
run_slot failures (p ∷ ps) =
    let failing = run_slot (failures + 1) ps in
    let fine = run_slot 0 ps in
    if p.cancelled
    then []
    else if p.failed
    then backoff (failures + 1) ∷ (if not p.slept then [] else failing)
    else fine

slot_backoff_loop-min :
    (rounds d : ℕ) → d ≤ backoff_max → slot_backoff_loop rounds d ≡ min (d * 2 ^ rounds) backoff_max
unfolding slot_backoff_loop
slot_backoff_loop-min zero d h = ground (arith, h)
slot_backoff_loop-min (suc rounds) d h = elim (Bool-cases (leb backoff_max (d * 2))) [
  | inl k ↦ rw k (ground (arith, k, double-pow d rounds, le-mul-pow (d * 2) rounds))
  | inr k ↦ rw k (
      ground
        (arith, k, slot_backoff_loop-min rounds (d * 2) (ground (arith, k)), double-pow d rounds))
]

-- The delay after n + 1 failures in a row is two seconds doubled n times, at most a minute.
pub backoff-min : (n : ℕ) → backoff (suc n) ≡ min (backoff_base * 2 ^ n) backoff_max
unfolding backoff
backoff-min n =
    let e : suc n - 1 ≡ n = omega arith in rw e (slot_backoff_loop-min n backoff_base (omega arith))

abbrev pub IsDelay : ℕ → Type 0
IsDelay d = (backoff_base ≤ d) × (d ≤ backoff_max)

backoff-IsDelay : (n : ℕ) → IsDelay (backoff (n + 1))
backoff-IsDelay n =
    let e : n + 1 ≡ suc n = omega arith in
    rw (e, backoff-min n) (omega (arith, le-mul-pow backoff_base n), omega arith)

-- The context lives on.
abbrev pub GoesOn : Pass → Type 0
GoesOn p = (p.cancelled ≡ false) × (p.slept ≡ true)

-- While the context lives, a slot never spins: it sleeps exactly once for each failed runner, for
-- at least two seconds and at most a minute.
pub run_slot-delays :
    (failures : ℕ) (ps : List Pass)
    → All GoesOn ps
    → All IsDelay (run_slot failures ps)
      × (length (run_slot failures ps) ≡ count_if (λ p. p.failed) ps)
unfolding run_slot
run_slot-delays failures [] g = (tt, refl)
run_slot-delays failures (p ∷ ps) g =
    let failing = run_slot-delays (failures + 1) ps g.1 in
    let fine = run_slot-delays 0 ps g.1 in
    elim (Bool-cases p.failed) [
      | inl h ↦
          rw (g.0.0, g.0.1, h) ((backoff-IsDelay failures, failing.0), omega (arith, failing.1))
      | inr h ↦ rw (g.0.0, h) (fine.0, omega (arith, fine.1))
    ]
