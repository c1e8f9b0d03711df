-- ===== src/Ghapp/Device.antt =====
-- internal/ghapp/device.go: the device flow, up to the token, and the installations of an account.
--
-- What GitHub answers, how long it takes and whether the context is done are arguments, by the round of
-- the loop. Times are in nanoseconds from the start, as many as time.Duration has, whose products wrap
-- around at 64 bits; an int is an int64. No text of an error is kept.
pub mod Polling
use multirunner.Common.{
  ◌-◌, ◌/◌, ◌%◌, ◌^◌, ℕ, zero, suc, ◌+◌, ◌*◌, Bool, true, false, Option, none, some, List, [], ◌∷◌,
  ltb, if◌then◌else◌, Text, codes, ℤ, pos, negsuc, lt_int,
}
use multirunner.Config.Limits.{signed, times}
use multirunner.Pool.Access.{equal_fold, is_empty}
use multirunner.Ghapp.Refresher.{Token}

-- tokenResponse, where no error is set.
pub record TokenResponse : Type 0 where
  pub access_token : Text
  pub refresh_token : Text
  pub expires_in : ℤ
  pub refresh_token_expires_in : ℤ

-- postForm's error, or the answer by its error field.
pub data Answer : Type 0 where
  request_failed authorization_pending expired_token access_denied other_error : Answer
  answered : TokenResponse → Answer
  slow_down : ℤ → Answer

pub data Result : Type 0 where
  context_done timed_out failed no_access_token code_expired denied rejected : Result
  authorized : Token → Result

-- A round: whether the context is done, how late the timer and the answer are, and the answer.
pub record Round : Type 0 where
  pub cancelled : Bool
  pub late : ℕ
  pub answer : Answer
  pub answering : ℕ

-- time.Second
abbrev pub second : ℕ
second = 1000000000

-- time.Duration(n) * time.Second
abbrev pub seconds : ℤ → ℤ
seconds n = times n second

-- A time that is later by a duration. A time before the start counts as the start.
abbrev pub add_duration : ℕ → ℤ → ℕ
add_duration now (pos d) = now + d
add_duration now (negsuc d) = now - suc d

-- The expiry of a token that lasts a number of seconds.
abbrev pub expiry_of : ℤ → ℕ → Option ℕ
expiry_of expires_in now =
    if lt_int (pos 0) expires_in then some (add_duration now (seconds expires_in)) else none

-- tokenFromResponse
unfoldable pub token_from_response : TokenResponse → ℕ → Token
token_from_response r now = record {
  access = r.access_token;
  refresh = r.refresh_token;
  expiry = expiry_of r.expires_in now;
}

-- What a granted answer gives.
unfoldable pub granted : TokenResponse → ℕ → Result
unfolding token_from_response
granted r now =
    if is_empty r.access_token then no_access_token else authorized (token_from_response r now)

-- The switch on the answer, where it returns.
unfoldable pub final : Answer → ℕ → Result
unfolding granted
final (answered r) now = granted r now
final expired_token now = code_expired
final access_denied now = denied
final other_error now = rejected
final _ now = failed

-- interval += 5
unfoldable pub add_five : ℤ → ℤ
unfolding signed
add_five (pos n) = signed ((n + 5) % 2 ^ 64)
add_five (negsuc n) = if ltb n 5 then pos (4 - n) else negsuc (n - 5)

-- The interval with which the loop goes on; `none` where it returns.
unfoldable pub next_interval : ℤ → Answer → Option ℤ
unfolding add_five
next_interval interval authorization_pending = some interval
next_interval interval (slow_down i) = some (if lt_int interval i then i else add_five interval)
next_interval interval _ = none

-- How long the timer of an interval runs: not at all for a duration that is not positive.
unfoldable pub poll_wait : ℤ → ℕ
unfolding times
poll_wait interval = add_duration 0 (seconds interval)

-- A result, with one request more.
abbrev pub requested : Option (Result × ℕ) → Option (Result × ℕ)
requested none = none
requested (some (r, n)) = some (r, suc n)

-- The for loop of PollDeviceToken on fuel, with the number of its requests; `none` is out of fuel.
unfoldable pub poll_loop : (ℕ → Round) → ℕ → ℕ → ℕ → ℤ → ℕ → Option (Result × ℕ)
unfolding final next_interval poll_wait
poll_loop rounds deadline zero k interval now = none
poll_loop rounds deadline (suc fuel) k interval now =
    let q = rounds k in
    let asked = now + poll_wait interval + q.late in
    if q.cancelled
    then some (context_done, 0)
    else if ltb deadline asked
    then some (timed_out, 0)
    else requested (elim (next_interval interval q.answer) [
      | none ↦ some (final q.answer (asked + q.answering), 0)
      | some i ↦ poll_loop rounds deadline fuel (suc k) i (asked + q.answering)
    ])

-- The interval of a device code.
unfoldable pub first_interval : ℤ → ℤ
first_interval interval = if lt_int interval (pos 1) then pos 5 else interval

-- A lifetime, or 15 minutes where it is not positive.
abbrev pub or_minutes : ℤ → ℕ
or_minutes (pos (suc d)) = suc d
or_minutes _ = 15 * 60 * second

-- The lifetime of a device code.
unfoldable pub lifetime : ℤ → ℕ
unfolding times
lifetime expires_in = or_minutes (seconds expires_in)

-- PollDeviceToken, for a code's Interval and ExpiresIn.
unfoldable pub poll_device_token : (ℕ → Round) → ℤ → ℤ → Option (Result × ℕ)
unfolding poll_loop first_interval lifetime
poll_device_token rounds interval expires_in =
    poll_loop rounds (lifetime expires_in) (lifetime expires_in / second + 2) 0
      (first_interval interval) 0

pub record Installation : Type 0 where
  pub id : ℕ
  pub account : Text
  pub app_slug : Text

-- orDefault
abbrev pub or_default : Text → Text → Text
or_default v default = if is_empty v then default else v

-- The loop of MatchInstallation.
unfoldable pub match_from : Text → Text → Text → List Installation → Option Installation × Text
unfolding equal_fold
match_from default account slug [] = (none, or_default slug default)
match_from default account slug (i ∷ installs) =
    let seen = or_default i.app_slug slug in
    let rest = match_from default account seen installs in
    if equal_fold i.account account then (some i, or_default i.app_slug seen) else rest

-- MatchInstallation, with DefaultAppSlug as the default.
unfoldable pub match_installation : Text → List Installation → Text → Option Installation × Text
unfolding match_from
match_installation default installs account = match_from default account [] installs
