-- ===== src/Ghapp/Device/Polling.antt =====
-- The polling for a token ends, and does not ask too often.
use multirunner.Common.{
  ◌-◌, ◌/◌, ◌%◌, ◌^◌, false, Bool-cases, ℕ, zero, suc, ◌+◌, ◌*◌, ◌≤◌, ◌<◌, ◌≡◌, refl, Option, some,
  ltb, ℤ, pos, negsuc, ◌⊎◌, if_elim, Option-cases, inl, inr, arith,
}
use multirunner.Config.Limits.{signed, times, times-exact}
use multirunner.Ghapp.Device.{
  Answer, request_failed, authorization_pending, expired_token, access_denied, other_error,
  answered, slow_down, Result, context_done, timed_out, Round, final, next_interval, requested,
  poll_loop, first_interval, lifetime, second, add_five, poll_wait, or_minutes, poll_device_token,
}

-- A number of seconds whose duration, and that of five more, is an int64.
abbrev pub Modest : ℤ → Type 0
Modest (pos n) = n ≤ 9223372031
Modest (negsuc n) = n < 9223372031

abbrev pub ModestAnswer : Answer → Type 0
ModestAnswer (slow_down i) = Modest i
ModestAnswer _ = Unit

poll_wait-exact : (n : ℕ) → n ≤ 9223372036 → poll_wait (pos n) ≡ n * second
unfolding poll_wait
poll_wait-exact n h = rw (times-exact n second (omega (arith, h))) (omega arith)

add_five-exact : (n : ℕ) → n ≤ 9223372031 → add_five (pos n) ≡ pos (n + 5)
unfolding add_five signed
add_five-exact n h =
    let low : (n + 5) % 2 ^ 64 ≡ n + 5 = omega (arith, h) in rw low (ground (arith, h))

-- The loop goes on with an interval that is no shorter.
next_interval-le :
    (interval : ℕ) (a : Answer) (i : ℤ)
    → ModestAnswer a
    → interval ≤ 9223372031
    → next_interval (pos interval) a ≡ some i
    → (n : ℕ) × (i ≡ pos n) × (interval ≤ n) × (n ≤ 9223372036)
unfolding next_interval
next_interval-le interval authorization_pending i m b h = (interval, cc, omega arith, omega arith)
next_interval-le interval (slow_down (pos n)) i m b h = elim (Bool-cases (ltb interval n)) [
  | inl e ↦ (n, cc (rw e at h), ground (arith, e), omega (arith, m))
  | inr e ↦
      let k = rw (e, add_five-exact interval b) at h in
      (interval + 5, cc k, omega arith, omega (arith, b))
]
next_interval-le interval (slow_down (negsuc n)) i m b h =
    let k = rw (add_five-exact interval b) at h in
    (interval + 5, cc k, omega arith, omega (arith, b))
next_interval-le interval request_failed i m b h = cc
next_interval-le interval expired_token i m b h = cc
next_interval-le interval access_denied i m b h = cc
next_interval-le interval other_error i m b h = cc
next_interval-le interval (answered r) i m b h = cc

times-negative : (n : ℕ) → n < 9223372031 → (d : ℕ) × (times (negsuc n) second ≡ negsuc d)
unfolding times signed
times-negative n h =
    let low : (suc n * second - 1) % 2 ^ 64 ≡ suc n * second - 1 = omega (arith, h) in
    let high : ltb (2 ^ 64 - 1 - (suc n * second - 1)) (2 ^ 63) ≡ false = ground (arith, h) in
    (2 ^ 64 - 1 - (2 ^ 64 - 1 - (suc n * second - 1)), rw (low, high) refl)

lifetime-le : (e : ℤ) → Modest e → lifetime e ≤ 9223372031 * second
unfolding lifetime
lifetime-le (pos n) m =
    rw (times-exact n second (omega (arith, m))) (bounded (n * second) (omega (arith, m)))
  where
    bounded : (d : ℕ) → d ≤ 9223372031 * second → or_minutes (pos d) ≤ 9223372031 * second
    bounded zero h = omega arith
    bounded (suc d) h = h
lifetime-le (negsuc n) m = let (d, e) = times-negative n m in rw e (omega arith)

first_interval-Modest :
    (i : ℤ) → Modest i → (n : ℕ) × (first_interval i ≡ pos n) × (0 < n) × (n ≤ 9223372031)
unfolding first_interval
first_interval-Modest (pos zero) m = (5, refl, omega arith, omega arith)
first_interval-Modest (pos (suc n)) m =
    let e : ltb (suc n) 1 ≡ false = ground arith in (suc n, rw e refl, omega arith, m)
first_interval-Modest (negsuc n) m = (5, refl, omega arith, omega arith)

-- A run ends, after so many requests that as many steps from `now` fit before the deadline.
abbrev Ends : ℕ → ℕ → ℕ → Option (Result × ℕ) → Type 0
Ends deadline step now run =
    (r : Result) × (n : ℕ) × (run ≡ some (r, n)) × ((n ≡ 0) ⊎ (now + n * step ≤ deadline))

requested-Ends :
    (deadline step now later : ℕ) (run : Option (Result × ℕ))
    → now + step ≤ deadline
    → now + step ≤ later
    → Ends deadline step later run
    → Ends deadline step now (requested run)
requested-Ends deadline step now later run b l (r, n, e, h) =
    (r, suc n, rw e refl, elim h [ inl z ↦ inr (rw z (omega arith)) | inr w ↦ inr (omega arith) ])

module _ (rounds : ℕ → Round) (modest : (k : ℕ) → ModestAnswer (rounds k).answer) (deadline : ℕ)
    (early : deadline ≤ 9223372031 * second) (step : ℕ) (positive : second ≤ step) where
  poll_loop-Ends :
      (fuel k interval now : ℕ)
      → step ≤ interval * second
      → interval ≤ 9223372036
      → 0 < fuel
      → deadline + second < now + fuel * second
      → Ends deadline step now (poll_loop rounds deadline fuel k (pos interval) now)
  unfolding poll_loop
  poll_loop-Ends zero k interval now s m p f = absurd (omega (arith, p))
  poll_loop-Ends (suc fuel) k interval now s m p f =
      let wait = poll_wait-exact interval m in
      let asked : ℕ = now + poll_wait (pos interval) + (rounds k).late in
      let later : ℕ = asked + (rounds k).answering in
      if_elim (Ends deadline step now) (rounds k).cancelled _ _
        (λ _. (context_done, 0, refl, inl refl))
        (λ _.
          if_elim (Ends deadline step now) (ltb deadline asked) _ _
            (λ _. (timed_out, 0, refl, inl refl))
            (λ e.
              let soon : asked ≤ deadline = ground arith in
              let fits : interval ≤ 9223372031 = omega (arith, soon, wait, early) in
              elim (Option-cases (next_interval (pos interval) (rounds k).answer)) [
                | inl stop ↦
                    rw (stop, requested)
                      (final (rounds k).answer later, 1, refl, inr (omega (arith, wait, soon, s)))
                | inr (i, go) ↦
                    let (n, same, longer, small) =
                      next_interval-le interval (rounds k).answer i (modest k) fits go in
                    rw (go, requested, same)
                      (requested-Ends deadline step now later
                        (poll_loop rounds deadline fuel (suc k) (pos n) later)
                        (omega (arith, wait, soon, s)) (omega (arith, wait, s))
                        (poll_loop-Ends fuel (suc k) n later (omega (arith, s, longer)) small
                          (omega (arith, soon, wait, f, s, positive))
                          (omega (arith, f, wait, s, positive))))
              ]))

-- Whatever GitHub answers and however late, the polling for a token ends: with the token, an error, or
-- when the context is done or the code's lifetime is over. It sends at most as many requests as the
-- code's interval fits into its lifetime. The lifetime and every interval that GitHub sends are at most
-- 9223372031 seconds either way, so that no duration wraps around.
pub poll_device_token-ends :
    (rounds : ℕ → Round) (interval expires_in : ℤ)
    → ((k : ℕ) → ModestAnswer (rounds k).answer)
    → Modest interval
    → Modest expires_in
    → (r : Result) × (n : ℕ) × (poll_device_token rounds interval expires_in ≡ some (r, n))
      × (n * poll_wait (first_interval interval) ≤ lifetime expires_in)
unfolding poll_device_token
poll_device_token-ends rounds interval expires_in modest i x =
    let (p, first, positive, small) = first_interval-Modest interval i in
    let wait = poll_wait-exact p (omega (arith, small)) in
    let (r, n, e, h) =
      poll_loop-Ends rounds modest (lifetime expires_in) (lifetime-le expires_in x) (p * second)
        (omega (arith, positive)) (lifetime expires_in / second + 2) 0 p 0 (omega arith)
        (omega (arith, small)) (omega arith) (omega arith) in
    rw (first, wait) (r, n, e, elim h [ inl z ↦ rw z (omega arith) | inr w ↦ omega (arith, w) ])
