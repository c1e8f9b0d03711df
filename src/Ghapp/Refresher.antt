-- ===== src/Ghapp/Refresher.antt =====
-- internal/ghapp/refresher.go, AccessToken: the token of a user, and its rotation.
--
-- The sidecar is a value, `none` where it cannot be read as a token; a zero expiry is `none`. Times are in
-- nanoseconds. What
-- GitHub, the lock and the disk answer is an argument of a call. A call holds the mutex throughout, so
-- the calls of a process follow one another.
pub mod Newest
pub mod Shared
use multirunner.Common.{
  ℕ, ◌+◌, ◌*◌, Bool, true, false, not, ◌&&◌, ◌||◌, Option, none, some, List, [], ltb, if◌then◌else◌,
  Text,
}
use multirunner.Pool.Access.{is_empty}

pub record Token : Type 0 where
  pub access : Text
  pub refresh : Text
  pub expiry : Option ℕ

pub record Refresher : Type 0 where
  pub tok : Token
  pub unsaved : Bool

-- What becomes of a rotation: GitHub refuses it, it issues a token but its answer is lost (the request
-- times out, say), or the token arrives. RefreshUserToken gives an error in the first two cases.
pub data Rotation : Type 0 where
  refused : Rotation
  lost renewed : Token → Rotation

-- The time, whether each write of the sidecar succeeds, whether the lock is had, whether the sidecar
-- can be read, and what a refresh token is exchanged for.
pub record Replies : Type 0 where
  pub now : ℕ
  pub retried_save : Bool
  pub locked : Bool
  pub readable : Bool
  pub refreshed : Text → Rotation
  pub saved : Bool

-- What a call returns (`none` for an error), what it leaves, and the refresh token that it sent.
pub record Outcome : Type 0 where
  pub value : Option Text
  pub refresher : Refresher
  pub disk : Option Token
  pub sent : Option Text

abbrev pub token_skew : ℕ
token_skew = 5 * 60 * 1000000000

-- needsRefresh
unfoldable pub needs_refresh : ℕ → Option ℕ → Bool
needs_refresh now none = false
needs_refresh now (some expiry) = ltb expiry (now + token_skew)

-- retrySave
unfoldable pub retry_save : Bool → Refresher → Option Token → Refresher × Option Token
retry_save saved r disk =
    if r.unsaved && saved then (record r { unsaved = false }, some r.tok) else (r, disk)

-- The stored token, if it can be used as it is.
unfoldable pub stored_live : ℕ → Bool → Option Token → Option Token
unfolding needs_refresh
stored_live now readable none = none
stored_live now readable (some s) =
    if readable && not (is_empty s.access) && not (needs_refresh now s.expiry) then some s else none

-- The part behind RefreshUserToken.
unfoldable pub adopt : Rotation → Bool → Refresher → Option Token → Outcome
adopt refused saved r disk = record {
  value = none;
  refresher = r;
  disk = disk;
  sent = some r.tok.refresh;
}
adopt (lost t) saved r disk = record {
  value = none;
  refresher = r;
  disk = disk;
  sent = some r.tok.refresh;
}
adopt (renewed t) saved r disk = record {
  value = some t.access;
  refresher = record { tok = t; unsaved = not saved };
  disk = if saved then some t else disk;
  sent = some r.tok.refresh;
}

-- The part under the lock.
unfoldable pub rotate : Replies → Option Token → Refresher → Option Token → Outcome
unfolding adopt
rotate q (some s) r disk = record {
  value = some s.access;
  refresher = record { tok = s; unsaved = false };
  disk = disk;
  sent = none;
}
rotate q none r disk = adopt (q.refreshed r.tok.refresh) q.saved r disk

-- AccessToken, behind retrySave.
unfoldable pub valid_token : Replies → Refresher → Option Token → Outcome
unfolding needs_refresh rotate stored_live
valid_token q r disk =
    if not (needs_refresh q.now r.tok.expiry) || is_empty r.tok.refresh
    then record { value = some r.tok.access; refresher = r; disk = disk; sent = none }
    else if not q.locked
    then record { value = none; refresher = r; disk = disk; sent = none }
    else rotate q (stored_live q.now q.readable disk) r disk

-- AccessToken
unfoldable pub access_token : Replies → Refresher → Option Token → Outcome
unfolding retry_save valid_token
access_token q r disk =
    let start = retry_save q.retried_save r disk in valid_token q start.0 start.1
