-- ===== src/Ghapp/Examples.antt =====
-- Tests of the tokens, and the theorems about them at concrete inputs.
use multirunner.Common.{
  ℕ, zero, suc, ◌*◌, ◌≤◌, pos, ◌≡◌, refl, true, false, none, some, [], ◌∷◌, Text, codes, text_eq,
  if◌then◌else◌, arith,
}
use multirunner.Ghapp.Device.{
  Answer, authorization_pending, slow_down, answered, Result, timed_out, authorized, Round,
  first_interval, lifetime, poll_device_token, poll_wait, second, match_installation,
}
use multirunner.Ghapp.Device.Polling.{ModestAnswer, poll_device_token-ends}
use multirunner.Ghapp.Refresher.{
  Token, Rotation, renewed, refused, Replies, needs_refresh, access_token,
}
use multirunner.Ghapp.Refresher.Newest.{due, calls, CurrentUntilLost, access_token-newest}
use multirunner.Ghapp.Refresher.Shared.{holding, access_token-spent}

abbrev old : Token
old = record { access = codes "a1"; refresh = codes "r1"; expiry = some (1000 * second) }

abbrev new : Token
new = record { access = codes "a2"; refresh = codes "r2"; expiry = some (29700 * second) }

-- The old refresh token has its successor, any other has none.
abbrev exchange : Text → Rotation
exchange r = if text_eq r (codes "r1") then renewed new else refused

abbrev call : ℕ → Replies
call now = record {
  now = now * second;
  retried_save = true;
  locked = true;
  readable = true;
  refreshed = exchange;
  saved = false;
}

-- The rotated token is adopted though it cannot be saved.
rotated : access_token (call 900) (holding old) (some old) ≡ record {
  value = some (codes "a2");
  refresher = record { tok = new; unsaved = true };
  disk = some old;
  sent = some (codes "r1");
}
unfolding access_token
rotated = refl

exchange_lasting : (refresh : Text) → due (900 * second) (exchange refresh) ≡ false
unfolding needs_refresh
exchange_lasting refresh = ground arith

exchange_lasting_later : (refresh : Text) → due (950 * second) (exchange refresh) ≡ false
unfolding needs_refresh
exchange_lasting_later refresh = ground arith

access_token-newest_example :
    CurrentUntilLost
      (calls (call 900 ∷ call 950 ∷ []) old (record { tok = old; unsaved = false }) (some old))
access_token-newest_example =
    access_token-newest (call 900 ∷ call 950 ∷ []) old
      (exchange_lasting, (exchange_lasting_later, tt))

-- A later call, when the rotated token is due as well.
abbrev later : Replies
later = record {
  now = 29500 * second;
  retried_save = true;
  locked = true;
  readable = true;
  refreshed = λ r. refused;
  saved = true;
}

abbrev saving : Replies
saving = record (call 900) { saved = true }

due_now : needs_refresh (900 * second) old.expiry ≡ true
unfolding needs_refresh
due_now = refl

due_later : needs_refresh (29500 * second) old.expiry ≡ true
unfolding needs_refresh
due_later = refl

new_due_later : needs_refresh (29500 * second) new.expiry ≡ true
unfolding needs_refresh
new_due_later = refl

access_token-spent_example :
    ((access_token saving (holding old) (some old)).sent ≡ some (codes "r1"))
    × ((access_token saving (holding old) (some old)).disk ≡ some new)
    × (access_token later (holding old) (some new) ≡ record {
      value = none;
      refresher = holding old;
      disk = some new;
      sent = some (codes "r1");
    })
access_token-spent_example =
    access_token-spent saving later old new refl due_now refl refl refl due_later new_due_later refl
      refl

round : Answer → Round
round answer = record { cancelled = false; late = 0; answer = answer; answering = second }

-- Pending, then too fast, then granted.
answers : ℕ → Round
answers zero = round authorization_pending
answers (suc zero) = round (slow_down (pos 0))
answers (suc (suc k)) = round (
    answered (record {
      access_token = codes "a";
      refresh_token = codes "r";
      expires_in = pos 28800;
      refresh_token_expires_in = pos 0;
    }))

authorized_third :
    poll_device_token answers (pos 5) (pos 900)
    ≡ some (
      authorized
          (record { access = codes "a"; refresh = codes "r"; expiry = some (28823 * second) }),
      3,
    )
unfolding poll_device_token answers round
authorized_third = refl

pending : ℕ → Round
pending k = round authorization_pending

never_authorized : poll_device_token pending (pos 5) (pos 15) ≡ some (timed_out, 2)
unfolding poll_device_token pending round
never_authorized = refl

own_account :
    match_installation
      (codes "default")
      (record { id = 7; account = codes "Org"; app_slug = [] } ∷ [])
      (codes "org")
    ≡ (some (record { id = 7; account = codes "Org"; app_slug = [] }), [])
unfolding match_installation
own_account = refl

pending-Modest : (k : ℕ) → ModestAnswer (pending k).answer
unfolding pending round
pending-Modest k = tt

poll_device_token-ends_example :
    (r : Result) × (n : ℕ) × (poll_device_token pending (pos 5) (pos 15) ≡ some (r, n))
    × (n * poll_wait (first_interval (pos 5)) ≤ lifetime (pos 15))
poll_device_token-ends_example =
    poll_device_token-ends pending (pos 5) (pos 15) pending-Modest (omega arith) (omega arith)

-- The duration of an interval that wraps around is negative, and polls at once.
at_once : poll_wait (pos 9223372037) ≡ 0
unfolding poll_wait
at_once = refl
