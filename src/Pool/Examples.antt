-- ===== src/Pool/Examples.antt =====
-- A slot that fails twice.
use multirunner.Common.{◌≡◌, refl, Bool, true, false, List, [], ◌∷◌, length, count_if, All}
use multirunner.Pool.Slot.{Pass, run_slot, IsDelay, run_slot-delays}

abbrev pass : Bool → Pass
pass failed = record { failed = failed; cancelled = false; slept = true }

abbrev passes : List Pass
passes = pass true ∷ pass true ∷ pass false ∷ []

run_slot-delays_example :
    All IsDelay (run_slot 0 passes) × (length (run_slot 0 passes) ≡ count_if (λ p. p.failed) passes)
run_slot-delays_example =
    run_slot-delays 0 passes ((refl, refl), ((refl, refl), ((refl, refl), tt)))
