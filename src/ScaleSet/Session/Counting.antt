-- ===== src/ScaleSet/Session/Counting.antt =====
-- The counts of label names that scaleSetMatches keeps.
use native.Mathlib.Decide.{dec_lt}
use multirunner.Common.{
  ℕ, zero, suc, ◌+◌, ◌-◌, ◌≤◌, ◌<◌, ◌≡◌, ◌↔◌, refl, sym, ap, subst, ◌∙◌, Bool, true, false, ◌||◌,
  List, [], ◌∷◌, leb, bit, count_if, if◌then◌else◌, Text, text_eq, text_eq_refl, text_eq→≡, ℤ, pos,
  negsuc, Bool-cases, inl, inr, arith,
}
use multirunner.ScaleSet.Session.{Label, Counts, change, increment, decrement, change_all, all_zero}

-- How many labels have this name.
abbrev pub named : Text → List Label → ℕ
named name labels = count_if (λ (l : Label). text_eq name l.name) labels

-- a - b
abbrev diff : ℕ → ℕ → ℤ
diff a b = if leb b a then pos (a - b) else negsuc (b - a - 1)

abbrev has : Text → Counts → Bool
has key [] = false
has key ((k, v) ∷ m) = text_eq k key || has key m

-- Every key stands once, with its value.
abbrev Holds : (Text → ℤ) → Counts → Type 0
Holds c [] = Unit
Holds c ((k, v) ∷ m) = (v ≡ c k) × (has k m ≡ false) × Holds c m

abbrev changed : (Text → ℤ) → (ℤ → ℤ) → Text → Text → ℤ
changed c f name k = if text_eq k name then f (c k) else c k

Holds-cong : (c d : Text → ℤ) (m : Counts) → ((k : Text) → c k ≡ d k) → Holds c m → Holds d m
Holds-cong c d [] e h = tt
Holds-cong c d ((k, v) ∷ m) e (hv, hk, hm) = (hv ∙ e k, hk, Holds-cong c d m e hm)

Holds-other :
    (c : Text → ℤ) (f : ℤ → ℤ) (name : Text) (m : Counts)
    → has name m ≡ false
    → Holds c m
    → Holds (changed c f name) m
Holds-other c f name [] n h = tt
Holds-other c f name ((k, v) ∷ m) n (hv, hk, hm) =
    let apart : (text_eq k name ≡ false) × (has name m ≡ false) = ground arith in
    (rw apart.0 hv, hk, Holds-other c f name m apart.1 hm)

has-change :
    (f : ℤ → ℤ) (name key : Text) (m : Counts)
    → has key (change f name m) ≡ (text_eq name key || has key m)
unfolding change
has-change f name key [] = refl
has-change f name key ((k, v) ∷ m) = elim (Bool-cases (text_eq k name)) [
  | inl e ↦ rw (text_eq→≡ k name e) (rw (text_eq_refl name) (ground arith))
  | inr e ↦ rw e (rw (has-change f name key m) (ground arith))
]

text_eq_sym : (s t : Text) → text_eq s t ≡ false → text_eq t s ≡ false
text_eq_sym s t h = elim (Bool-cases (text_eq t s)) [
  | inl e ↦
      let same : text_eq s t ≡ true = rw (text_eq→≡ t s e) (text_eq_refl s) in absurd (cc (same, h))
  | inr e ↦ e
]

has-changed_other :
    (f : ℤ → ℤ) (name k : Text) (m : Counts)
    → text_eq name k ≡ false
    → has k m ≡ false
    → has k (change f name m) ≡ false
has-changed_other f name k m n h = has-change f name k m ∙ rw (n, h) refl

change-Holds :
    (c : Text → ℤ) (f : ℤ → ℤ) (name : Text) (m : Counts)
    → (has name m ≡ false → c name ≡ pos 0)
    → Holds c m
    → Holds (changed c f name) (change f name m)
unfolding change
change-Holds c f name [] z h = (rw (text_eq_refl name) (ap f (sym (z refl))), refl, tt)
change-Holds c f name ((k, v) ∷ m) z (hv, hk, hm) = elim (Bool-cases (text_eq k name)) [
  | inl e ↦ rw e (
    rw e (ap f hv),
    hk,
    Holds-other c f name m (subst (λ (n : Text). has n m ≡ false) (text_eq→≡ k name e) hk) hm,
  )
  | inr e ↦ rw e (
    rw e hv,
    has-changed_other f name k m (text_eq_sym k name e) hk,
    change-Holds c f name m (λ n. z (rw e n)) hm,
  )
]

-- Both what the entries of a map hold, and that what is absent counts as 0.
abbrev Counted : (Text → ℤ) → Counts → Type 0
Counted c m = Holds c m × ((k : Text) → has k m ≡ false → c k ≡ pos 0)

times : (ℤ → ℤ) → ℕ → ℤ → ℤ
times f zero z = z
times f (suc n) z = times f n (f z)

times-bit :
    (f : ℤ → ℤ) (b : Bool) (n : ℕ) (z : ℤ)
    → times f (bit b + n) z ≡ times f n (if b then f z else z)
unfolding times
times-bit f true n z = ap (λ (k : ℕ). times f k z) (let e : 1 + n ≡ suc n = omega arith in e)
times-bit f false n z = ap (λ (k : ℕ). times f k z) (let e : 0 + n ≡ n = omega arith in e)

change-Counted :
    (c : Text → ℤ) (f : ℤ → ℤ) (name : Text) (m : Counts)
    → Counted c m
    → Counted (changed c f name) (change f name m)
change-Counted c f name m (h, z) = (
  change-Holds c f name m (z name) h,
  λ k n.
      let e = rw (has-change f name k m) at n in
      let apart : (text_eq name k ≡ false) × (has k m ≡ false) = ground arith in
      rw (text_eq_sym name k apart.0) (z k apart.1),
)

change_all-Counted :
    (c : Text → ℤ) (f : ℤ → ℤ) (labels : List Label) (m : Counts)
    → Counted c m
    → Counted (λ k. times f (named k labels) (c k)) (change_all f labels m)
unfolding change_all times
change_all-Counted c f [] m h = h
change_all-Counted c f (l ∷ labels) m h =
    let (held, zeros) =
      change_all-Counted (changed c f l.name) f labels (change f l.name m)
        (change-Counted c f l.name m h) in
    let same = λ (k : Text). sym (times-bit f (text_eq k l.name) (named k labels) (c k)) in
    (
      Holds-cong _ (λ k. times f (named k (l ∷ labels)) (c k))
          (change_all f labels (change f l.name m)) same held,
      λ k n. sym (same k) ∙ zeros k n,
    )

times-increment : (n a : ℕ) → times increment n (pos a) ≡ pos (n + a)
unfolding times
times-increment zero a = ap pos (let e : a ≡ 0 + a = omega arith in e)
times-increment (suc n) a =
    times-increment n (suc a) ∙ ap pos (let e : n + suc a ≡ suc n + a = omega arith in e)

diff-pos : (a b : ℕ) → b ≤ a → diff a b ≡ pos (a - b)
diff-pos a b h = ground arith

diff-negsuc : (a b : ℕ) → a < b → diff a b ≡ negsuc (b - a - 1)
diff-negsuc a b h = ground arith

decrement-diff : (a b : ℕ) → decrement (diff a b) ≡ diff a (suc b)
decrement-diff a b = elim (dec_lt a b) [
  | yes h ↦
      rw (diff-negsuc a b h, diff-negsuc a (suc b) (omega arith))
        (ap negsuc (let e : suc (b - a - 1) ≡ suc b - a - 1 = omega arith in e))
  | no h ↦ elim (dec_lt b a) [
    | yes k ↦
        rw (diff-pos a b (omega arith), diff-pos a (suc b) (omega arith))
          (ap decrement (ap pos (let e : a - b ≡ suc (a - suc b) = omega arith in e)))
    | no k ↦
        rw (diff-pos a b (omega arith), diff-negsuc a (suc b) (omega arith))
          (ap decrement (ap pos (let e : a - b ≡ 0 = omega arith in e))
            ∙ ap negsuc (let e : 0 ≡ suc b - a - 1 = omega arith in e))
  ]
]

times-decrement : (n a b : ℕ) → times decrement n (diff a b) ≡ diff a (n + b)
unfolding times
times-decrement zero a b = ap (diff a) (let e : b ≡ 0 + b = omega arith in e)
times-decrement (suc n) a b =
    ap (times decrement n) (decrement-diff a b)
    ∙ times-decrement n a (suc b)
    ∙ ap (diff a) (let e : n + suc b ≡ suc n + b = omega arith in e)

all_zero-has :
    (c : Text → ℤ) (m : Counts) (k : Text)
    → Holds c m
    → all_zero m ≡ true
    → has k m ≡ true
    → c k ≡ pos 0
unfolding all_zero
all_zero-has c [] k h z e = cc
all_zero-has c ((j, v) ∷ m) k (hv, hj, hm) z e =
    let zs : (v ≡ pos 0) × (all_zero m ≡ true) = ground arith in
    elim (Bool-cases (text_eq j k)) [
      | inl same ↦ subst (λ (n : Text). c n ≡ pos 0) (text_eq→≡ j k same) (sym hv ∙ zs.0)
      | inr other ↦ all_zero-has c m k hm zs.1 (rw other at e)
    ]

zeros-all_zero :
    (c : Text → ℤ) (m : Counts) → Holds c m → ((k : Text) → c k ≡ pos 0) → all_zero m ≡ true
unfolding all_zero
zeros-all_zero c [] h z = refl
zeros-all_zero c ((j, v) ∷ m) (hv, hj, hm) z = rw (hv ∙ z j) (zeros-all_zero c m hm z)

diff-zero : (a b : ℕ) → diff a b ≡ pos 0 → a ≡ b
diff-zero a b h = ground arith

diff_self : (a : ℕ) → diff a a ≡ pos 0
diff_self a = ground arith

module _ (existing desired : List Label) where
  unfoldable pub counts : Counts
  unfolding change_all
  counts = change_all decrement desired (change_all increment existing [])

  counts-Counted : Counted (λ k. diff (named k existing) (named k desired)) counts
  unfolding counts
  counts-Counted =
      let (h, z) =
        change_all-Counted _ decrement desired (change_all increment existing [])
          (change_all-Counted (λ k. pos 0) increment existing [] (tt, λ k n. refl)) in
      let same = λ (k : Text). total (named k existing) (named k desired) in
      (Holds-cong _ _ _ same h, λ k n. sym (same k) ∙ z k n)
    where
      total : (a b : ℕ) → times decrement b (times increment a (pos 0)) ≡ diff a b
      total a b =
          ap (times decrement b) (
            times-increment a 0
            ∙ ap pos (let e : a + 0 ≡ a - 0 = omega arith in e)
            ∙ sym (diff-pos a 0 (omega arith)))
          ∙ times-decrement b a 0
          ∙ ap (diff a) (let e : b + 0 ≡ b = omega arith in e)

  pub all_zero-counts :
      (all_zero counts ≡ true) ↔ ((name : Text) → named name existing ≡ named name desired)
  all_zero-counts =
      let (h, z) = counts-Counted in
      (
        λ e name.
            let zero_here : diff (named name existing) (named name desired) ≡ pos 0 =
              elim (Bool-cases (has name counts)) [
                | inl here ↦ all_zero-has _ counts name h e here
                | inr absent ↦ z name absent
              ] in
            diff-zero (named name existing) (named name desired) zero_here,
        λ same. zeros-all_zero _ counts h (λ name. rw (same name) (diff_self (named name desired))),
      )
