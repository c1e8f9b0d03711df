-- ===== src/Autoscale/Labels.antt =====
-- Labels are matched as GitHub does: whatever the case of their letters.
use multirunner.Common.{ℕ, ◌≡◌, refl, List, [], ◌∷◌, any, map, Text, arith}
use multirunner.Pool.Access.{fold, equal_fold}
use multirunner.Autoscale.{labels_match}

abbrev pub lower : Text → Text
lower = map fold

fold-fold : (c : ℕ) → fold (fold c) ≡ fold c
fold-fold c = ground arith

equal_fold-lower : (s t : Text) → equal_fold (lower s) (lower t) ≡ equal_fold s t
unfolding equal_fold
equal_fold-lower [] [] = refl
equal_fold-lower [] (d ∷ t) = refl
equal_fold-lower (c ∷ s) [] = refl
equal_fold-lower (c ∷ s) (d ∷ t) = rw (fold-fold c, fold-fold d, equal_fold-lower s t) refl

any-lower :
    (label : Text) (pool_labels : List Text)
    → any (λ p. equal_fold p (lower label)) (map lower pool_labels)
      ≡ any (λ p. equal_fold p label) pool_labels
any-lower label [] = refl
any-lower label (p ∷ ps) = rw (equal_fold-lower p label, any-lower label ps) refl

-- A job's labels match a pool's exactly if they do in lower case.
pub labels_match-lower :
    (pool_labels job_labels : List Text)
    → labels_match (map lower pool_labels) (map lower job_labels)
      ≡ labels_match pool_labels job_labels
unfolding labels_match
labels_match-lower pool_labels [] = refl
labels_match-lower pool_labels (label ∷ job_labels) =
    rw (any-lower label pool_labels, labels_match-lower pool_labels job_labels) refl
