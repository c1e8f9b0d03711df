-- ===== src/ScaleSet/Supervisor/Backoff.antt =====
-- The delays of a supervisor, and how it ends.
use multirunner.Common.{
  ℕ, zero, suc, ◌+◌, ◌-◌, ◌*◌, ◌^◌, ◌<◌, ◌≡◌, refl, true, false, not, Option, none, some, List, [],
  ◌∷◌, ◌++◌, length, min, arith, All, if_elim, double-pow, le-mul-pow, sym, ◌∙◌, ◌≢◌, ◌⊎◌, inl, inr,
}
use mathlib.Core.List.{append_assoc, append-nil, head?}
use multirunner.ScaleSet.Errors.{Err}
use multirunner.ScaleSet.Launcher.{is_permanent}
use multirunner.ScaleSet.Supervisor.{
  Config, Run, Supervision, Availability, backing_off, permanently_unavailable, backoff_loop,
  supervisor_backoff, report_run, report, note_failure, supervise_loop, supervise_session,
}

backoff_loop-min :
    (rounds delay maximum : ℕ)
    → backoff_loop rounds delay maximum ≡ min (delay * 2 ^ rounds) maximum
unfolding backoff_loop
backoff_loop-min zero delay maximum = ground arith
backoff_loop-min (suc rounds) delay maximum = ground (
  arith,
  backoff_loop-min rounds (delay * 2) maximum,
  double-pow delay rounds,
  le-mul-pow (delay * 2) rounds,
)

-- The delay after n + 1 failures in a row is the initial delay doubled n times, capped at the
-- maximum: the loop's early exits, which keep the doubling from overflowing, change nothing.
pub supervisor_backoff-min :
    (n initial maximum : ℕ)
    → supervisor_backoff (suc n) initial maximum ≡ min (initial * 2 ^ n) maximum
unfolding supervisor_backoff
supervisor_backoff-min n initial maximum =
    let e : suc n - 1 ≡ n = omega arith in rw e (backoff_loop-min n initial maximum)

-- A run that fails soon, not permanently, and is followed by a full sleep.
pub record FailsSoon (c : Config) (r : Run) : Type 0 where
  pub recoverable : is_permanent r.result ≡ false
  pub soon : r.lasted < c.healthy_after
  pub goes_on : r.cancelled ≡ false
  pub slept : r.slept ≡ true

-- The delays after failures k + 1, …, k + n in a row, newest first.
abbrev pub backoffs : Config → ℕ → ℕ → List ℕ
backoffs c k zero = []
backoffs c k (suc n) = backoffs c (suc k) n ++ min (c.initial_backoff * 2 ^ k) c.max_backoff ∷ []

module _ (c : Config) where
  next : Run → Supervision → Supervision
  next r s = note_failure c r (report_run r s)

  next-delays :
      (r : Run) (s : Supervision)
      → FailsSoon c r
      → ((next r s).failures ≡ suc s.failures)
        × ((next r s).delays ≡ min (c.initial_backoff * 2 ^ s.failures) c.max_backoff ∷ s.delays)
  unfolding next note_failure report_run report
  next-delays r s h = (
    ground (arith, h.soon),
    ground (arith, h.soon, supervisor_backoff-min s.failures c.initial_backoff c.max_backoff),
  )

  loop-next :
      (r : Run) (rs : List Run) (s : Supervision)
      → FailsSoon c r
      → supervise_loop c (r ∷ rs) s ≡ supervise_loop c rs (next r s)
  unfolding supervise_loop next
  loop-next r rs s h = rw (h.recoverable, h.goes_on, h.slept)

  loop-backoffs :
      (rs : List Run) (s : Supervision)
      → All (FailsSoon c) rs
      → ((supervise_loop c rs s).0 ≡ none)
        × ((supervise_loop c rs s).1.failures ≡ s.failures + length rs)
        × ((supervise_loop c rs s).1.delays ≡ backoffs c s.failures (length rs) ++ s.delays)
  unfolding supervise_loop
  loop-backoffs [] s h = (refl, omega arith, refl)
  loop-backoffs (r ∷ rs) s h =
      let ih = loop-backoffs rs (next r s) h.1 in
      let d = next-delays r s h.0 in
      rw (loop-next r rs s h.0) (
        ih.0,
        omega (arith, ih.1, d.0),
        ih.2
            ∙ (rw (d.0, d.1)
                (sym (append_assoc (backoffs c (suc s.failures) (length rs)) _ s.delays))),
      )

-- A session that keeps failing soon is restarted each time: after n such runs no error has been
-- returned, n failures are counted, and the delays slept are the initial one doubled each time and
-- capped at the maximum.
pub supervise_session-backoffs :
    (c : Config) (rs : List Run)
    → All (FailsSoon c) rs
    → let (e, s) = supervise_session c rs in
      (e ≡ none) × (s.failures ≡ length rs) × (s.delays ≡ backoffs c 0 (length rs))
unfolding supervise_session
supervise_session-backoffs c rs h =
    let p =
      loop-backoffs c rs (record { failures = 0; states = backing_off ∷ []; delays = [] }) h in
    (p.0, omega (arith, p.1), p.2 ∙ append-nil _)

abbrev pub last_state : Supervision → Option Availability
last_state s = head? s.states

abbrev EndsRight : Option Err × Supervision → Type 0
EndsRight (e, s) =
    ((e ≡ none) × (last_state s ≢ some permanently_unavailable))
    ⊎ ((is_permanent e ≡ true) × (last_state s ≡ some permanently_unavailable))

report_run-last :
    (r : Run) (s : Supervision)
    → last_state s ≢ some permanently_unavailable
    → last_state (report_run r s) ≢ some permanently_unavailable
unfolding report_run report
report_run-last r s h =
    if_elim (λ t. last_state t ≢ some permanently_unavailable) r.was_available _ _ (λ _ e. cc)
      (λ _. h)

loop-EndsRight :
    (c : Config) (rs : List Run) (s : Supervision)
    → last_state s ≢ some permanently_unavailable
    → EndsRight (supervise_loop c rs s)
unfolding supervise_loop note_failure report next
loop-EndsRight c [] s h = inl (refl, h)
loop-EndsRight c (r ∷ rs) s h =
    let h1 = report_run-last r s h in
    let h2 : last_state (next c r s) ≢ some permanently_unavailable = λ e. cc in
    if_elim EndsRight (is_permanent r.result) _ _ (λ e. inr (e, refl))
      λ _.
        if_elim EndsRight r.cancelled _ _ (λ _. inl (refl, h1))
          λ _.
            if_elim EndsRight (not r.slept) _ _ (λ _. inl (refl, h2))
              λ _. loop-EndsRight c rs (next c r s) h2

-- However the runs of a session go: either superviseSession returns nil and the last state that it
-- reported is not that of a permanent failure, or it returns a permanent error and reported that
-- the session is permanently unavailable.
pub supervise_session-EndsRight :
    (c : Config) (rs : List Run)
    → let (e, s) = supervise_session c rs in
      ((e ≡ none) × (last_state s ≢ some permanently_unavailable))
      ⊎ ((is_permanent e ≡ true) × (last_state s ≡ some permanently_unavailable))
unfolding supervise_session
supervise_session-EndsRight c rs = loop-EndsRight c rs _ (λ e. cc)
