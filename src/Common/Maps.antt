-- ===== src/Common/Maps.antt =====
-- Go maps with number keys, as association lists. Iteration order is the list's, which is
-- arbitrary: theorems hold for every list.
use Prim.Native.Nat.{ℕ, ◌+◌}
use mathlib.Core.Path.{◌≡◌, refl, subst}
use mathlib.Core.Bool.{Bool, false}
use mathlib.Core.List.{List, [], ◌∷◌}
use mathlib.Core.Option.{Option, none, some, some-injective}
use mathlib.Core.Logic.{inl, inr}
use native.Mathlib.Omega.{arith}
use multirunner.Common.Tests.{◌==◌, if◌then◌else◌, bit, Bool-cases}

abbrev pub Table {ℓ} : Type ℓ → Type ℓ
Table V = List (ℕ × V)

abbrev pub tally {ℓ} : {V : Type ℓ} → (V → Bool) → Option V → ℕ
tally p none = 0
tally p (some v) = bit (p v)

module _ {ℓ} {V : Type ℓ} where
  unfoldable pub lookup : ℕ → Table V → Option V
  lookup k [] = none
  lookup k ((j, v) ∷ t) = if j == k then some v else lookup k t

  -- m[k] = v
  unfoldable pub put : ℕ → V → Table V → Table V
  put k v [] = (k, v) ∷ []
  put k v ((j, w) ∷ t) = if j == k then (k, v) ∷ t else (j, w) ∷ put k v t

  -- delete(m, k)
  unfoldable pub delete : ℕ → Table V → Table V
  delete k [] = []
  delete k ((j, w) ∷ t) = let rest = delete k t in if j == k then rest else (j, w) ∷ rest

  -- How many values pass the test.
  unfoldable pub count_values : (V → Bool) → Table V → ℕ
  count_values p [] = 0
  count_values p ((j, w) ∷ t) = bit (p w) + count_values p t

  pub lookup-put :
      (k j : ℕ) (v : V) (t : Table V)
      → lookup j (put k v t) ≡ (if k == j then some v else lookup j t)
  unfolding lookup put
  lookup-put k j v [] = refl
  lookup-put k j v ((i, w) ∷ t) = ground (arith, lookup-put k j v t)

  pub lookup-delete :
      (k j : ℕ) (t : Table V) → lookup j (delete k t) ≡ (if k == j then none else lookup j t)
  unfolding lookup delete
  lookup-delete k j [] = ground arith
  lookup-delete k j ((i, w) ∷ t) = ground (arith, lookup-delete k j t)

  pub count_values-put :
      (p : V → Bool) (k : ℕ) (v : V) (t : Table V)
      → count_values p (put k v t) + tally p (lookup k t) ≡ count_values p t + bit (p v)
  unfolding lookup put count_values
  count_values-put p k v [] = ground arith
  count_values-put p k v ((i, w) ∷ t) = ground (arith, count_values-put p k v t)

-- Every value satisfies P.
abbrev pub AllValues {ℓ κ} : {V : Type ℓ} → (V → Type κ) → Table V → Type κ
AllValues P [] = Unit
AllValues P ((k, v) ∷ t) = P v × AllValues P t

module _ {ℓ κ} {V : Type ℓ} (P : V → Type κ) where
  pub AllValues-put : (k : ℕ) (v : V) (t : Table V) → P v → AllValues P t → AllValues P (put k v t)
  unfolding put
  AllValues-put k v [] h a = (h, tt)
  AllValues-put k v ((j, w) ∷ t) h a = elim (Bool-cases (j == k)) [
    | inl e ↦ rw e (h, a.1)
    | inr e ↦ rw e (a.0, AllValues-put k v t h a.1)
  ]

  pub AllValues-lookup : (k : ℕ) {v : V} (t : Table V) → AllValues P t → lookup k t ≡ some v → P v
  unfolding lookup
  AllValues-lookup k [] a e = cc
  AllValues-lookup k {v} ((j, w) ∷ t) a e = elim (Bool-cases (j == k)) [
    | inl h ↦ subst P (some-injective w v (rw h at e)) a.0
    | inr h ↦ AllValues-lookup k t a.1 (rw h at e)
  ]

-- No two entries have one key: what a Go map is.
abbrev pub KeyFree {ℓ} : {V : Type ℓ} → ℕ → Table V → Type 0
KeyFree k [] = Unit {0}
KeyFree k ((j, v) ∷ t) = ((j == k) ≡ false) × KeyFree k t

abbrev pub IsMap {ℓ} : {V : Type ℓ} → Table V → Type 0
IsMap [] = Unit {0}
IsMap ((k, v) ∷ t) = KeyFree k t × IsMap t

module _ {ℓ} {V : Type ℓ} where
  pub KeyFree-delete : (k j : ℕ) (t : Table V) → KeyFree k t → KeyFree k (delete j t)
  unfolding delete
  KeyFree-delete k j [] h = tt
  KeyFree-delete k j ((i, v) ∷ t) h = elim (Bool-cases (i == j)) [
    | inl e ↦ rw e (KeyFree-delete k j t h.1)
    | inr e ↦ rw e (h.0, KeyFree-delete k j t h.1)
  ]

  pub IsMap-delete : (j : ℕ) (t : Table V) → IsMap t → IsMap (delete j t)
  unfolding delete
  IsMap-delete j [] h = tt
  IsMap-delete j ((i, v) ∷ t) h = elim (Bool-cases (i == j)) [
    | inl e ↦ rw e (IsMap-delete j t h.1)
    | inr e ↦ rw e (KeyFree-delete i j t h.0, IsMap-delete j t h.1)
  ]

  pub delete-KeyFree : (k : ℕ) (t : Table V) → KeyFree k t → delete k t ≡ t
  unfolding delete
  delete-KeyFree k [] h = refl
  delete-KeyFree k ((i, v) ∷ t) h = ground (arith, delete-KeyFree k t h.1)
