-- ===== src/ServiceHost/Failures.antt =====
-- internal/servicehost/failures.go: the history of fatal runs. Times are nanoseconds; the file that
-- holds the history reads back as it was written, and a missing file is an empty history.
use multirunner.Common.{
  All-append, ℕ, ◌+◌, ◌≤◌, ◌≡◌, refl, ◌∙◌, Bool, not, ◌&&◌, Option, none, some, List, [], ◌∷◌, ◌++◌,
  ltb, leb, if◌then◌else◌, if_elim, length, select, count_if, length-select, count_if-append, All,
  Text, Option-cases, inl, inr, arith,
}

-- FailureWindow
abbrev pub failure_window : ℕ
failure_window = 600000000000

pub record FailureHistory : Type 0 where
  pub failures : List ℕ
  pub last_error : Text

pub record FailureStatus : Type 0 where
  pub count : ℕ
  pub last_failure : Option ℕ
  pub last_error : Text

-- failure.After(cutoff) && !failure.After(now)
abbrev pub is_recent : ℕ → ℕ → Bool
is_recent now t = ltb now (t + failure_window) && not (ltb now t)

-- recentFailures
unfoldable pub recent_failures : List ℕ → ℕ → List ℕ
recent_failures failures now = select (is_recent now) failures

-- The first n bytes.
unfoldable pub take : ℕ → Text → Text
take ℕ.zero s = []
take (ℕ.suc n) [] = []
take (ℕ.suc n) (c ∷ s) = c ∷ take n s

unfoldable pub truncate_summary : Text → Text
unfolding take
truncate_summary summary = if leb (length summary) 2048 then summary else take 2048 summary

-- RecordFailure
unfoldable pub record_failure : ℕ → Text → FailureHistory → FailureHistory
unfolding recent_failures truncate_summary
record_failure now summary h = record {
  failures = recent_failures h.failures now ++ now ∷ [];
  last_error = truncate_summary summary;
}

-- recent[len(recent)-1]
unfoldable pub last : List ℕ → Option ℕ
last [] = none
last (t ∷ []) = some t
last (t ∷ u ∷ ts) = last (u ∷ ts)

-- ReadFailureStatus
unfoldable pub read_failure_status : ℕ → FailureHistory → FailureStatus
unfolding recent_failures last
read_failure_status now h =
    let recent = recent_failures h.failures now in
    elim (last recent) [
      | none ↦ record { count = length recent; last_failure = none; last_error = [] }
      | some t ↦ record { count = length recent; last_failure = some t; last_error = h.last_error }
    ]

-- FailureCount
unfoldable pub failure_count : ℕ → FailureHistory → ℕ
unfolding read_failure_status
failure_count now h = (read_failure_status now h).count

-- The history after fatal runs at these times, the newest first.
unfoldable pub record_all : Text → List ℕ → FailureHistory
unfolding record_failure
record_all summary [] = record { failures = []; last_error = [] }
record_all summary (t ∷ ts) = record_failure t summary (record_all summary ts)

-- No time is later than `now`, and each is no earlier than the ones before it.
abbrev pub Ordered : ℕ → List ℕ → Type 0
Ordered now [] = Unit {0}
Ordered now (t ∷ ts) = (t ≤ now) × Ordered t ts

pub failure_count-length :
    (now : ℕ) (h : FailureHistory) → failure_count now h ≡ length (recent_failures h.failures now)
unfolding failure_count read_failure_status
failure_count-length now h = elim (Option-cases (last (recent_failures h.failures now))) [
  | inl e ↦ rw (failure_count, read_failure_status, e) refl
  | inr (t, e) ↦ rw (failure_count, read_failure_status, e) refl
]

-- What was dropped at t is not recent later.
select-later :
    (t now : ℕ) (ts : List ℕ)
    → t ≤ now
    → All (λ u. u ≤ t) ts
    → count_if (is_recent now) (recent_failures ts t) ≡ count_if (is_recent now) ts
unfolding recent_failures
select-later t now [] h a = refl
select-later t now (u ∷ ts) h a = ground (arith, a.0, h, select-later t now ts h a.1)

select-All : (P : ℕ → Type 0) (p : ℕ → Bool) (ts : List ℕ) → All P ts → All P (select p ts)
select-All P p [] a = tt
select-All P p (t ∷ ts) a =
    if_elim (All P) (p t) _ _ (λ _. (a.0, select-All P p ts a.1)) (λ _. select-All P p ts a.1)

le-All : (t now : ℕ) (ts : List ℕ) → t ≤ now → All (λ u. u ≤ t) ts → All (λ u. u ≤ now) ts
le-All t now [] h a = tt
le-All t now (u ∷ ts) h a = (omega (arith, h, a.0), le-All t now ts h a.1)

-- Times recorded up to now.
record_all-le :
    (summary : Text) (now : ℕ) (ts : List ℕ)
    → Ordered now ts
    → All (λ u. u ≤ now) (record_all summary ts).failures
unfolding record_all record_failure recent_failures
record_all-le summary now [] o = tt
record_all-le summary now (t ∷ ts) o =
    let older = record_all-le summary t ts o.1 in
    le-All t now _ o.0 (
      All-append (λ u. u ≤ t) (recent_failures (record_all summary ts).failures t) _
        (select-All (λ u. u ≤ t) (is_recent t) (record_all summary ts).failures older)
        (omega arith, tt))

Ordered-later : (t now : ℕ) (ts : List ℕ) → t ≤ now → Ordered t ts → Ordered now ts
Ordered-later t now [] h o = tt
Ordered-later t now (u ∷ ts) h o = (omega (arith, h, o.0), o.1)

record_all-count :
    (summary : Text) (now : ℕ) (ts : List ℕ)
    → Ordered now ts
    → count_if (is_recent now) (record_all summary ts).failures ≡ count_if (is_recent now) ts
unfolding record_all record_failure
record_all-count summary now [] o = refl
record_all-count summary now (t ∷ ts) o =
    let older = (record_all summary ts).failures in
    omega (
      arith,
      count_if-append (is_recent now) (recent_failures older t) (t ∷ []),
      select-later t now older o.0 (record_all-le summary t ts o.1),
      record_all-count summary now ts (Ordered-later t now ts o.0 o.1),
    )

-- The number of failures that is shown at any time is that of all the recorded fatal runs in the ten
-- minutes before it, if the clock does not run backwards: what RecordFailure drops from the file at
-- each failure is not missed later.
pub failure_count-window :
    (summary : Text) (now : ℕ) (ts : List ℕ)
    → Ordered now ts
    → failure_count now (record_all summary ts) ≡ count_if (is_recent now) ts
unfolding recent_failures
failure_count-window summary now ts o =
    failure_count-length now (record_all summary ts)
    ∙ length-select (is_recent now) (record_all summary ts).failures
    ∙ record_all-count summary now ts o
