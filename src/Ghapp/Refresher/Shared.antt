-- ===== src/Ghapp/Refresher/Shared.antt =====
-- Two processes that share a sidecar.
use multirunner.Common.{ℕ, ◌≡◌, refl, Bool, true, false, Option, none, some, arith}
use multirunner.Pool.Access.{is_empty}
use multirunner.Ghapp.Refresher.{
  Token, Refresher, renewed, refused, Replies, needs_refresh, retry_save, stored_live, adopt,
  rotate, valid_token, access_token,
}

-- A process that has loaded a token.
abbrev pub holding : Token → Refresher
holding t = record { tok = t; unsaved = false }

due_call :
    (q : Replies) (t : Token) (disk : Option Token)
    → is_empty t.refresh ≡ false
    → needs_refresh q.now t.expiry ≡ true
    → q.locked ≡ true
    → access_token q (holding t) disk
      ≡ rotate q (stored_live q.now q.readable disk) (holding t) disk
unfolding access_token valid_token retry_save
due_call q t disk n d l = rw (d, n, l) refl

stored_due :
    (now : ℕ) (readable : Bool) (t : Token)
    → needs_refresh now t.expiry ≡ true
    → stored_live now readable (some t) ≡ none
unfolding stored_live
stored_due now readable t d = rw d (ground arith)

-- Two processes loaded the same token, the first rotated it and saved the new one. If the second makes
-- its next call when both tokens are due, it takes no notice of the new refresh token in the sidecar: it
-- sends the one that the first has spent. Where GitHub refuses that, the call fails and changes nothing,
-- so that the next one will do the same.
pub access_token-spent :
    (first second : Replies) (t new : Token)
    → is_empty t.refresh ≡ false
    → needs_refresh first.now t.expiry ≡ true
    → first.locked ≡ true
    → first.refreshed t.refresh ≡ renewed new
    → first.saved ≡ true
    → needs_refresh second.now t.expiry ≡ true
    → needs_refresh second.now new.expiry ≡ true
    → second.locked ≡ true
    → second.refreshed t.refresh ≡ refused
    → ((access_token first (holding t) (some t)).sent ≡ some t.refresh)
      × ((access_token first (holding t) (some t)).disk ≡ some new)
      × (access_token second (holding t) (some new)
          ≡ record { value = none; refresher = holding t; disk = some new; sent = some t.refresh })
unfolding rotate adopt
access_token-spent first second t new n d l e s d2 d3 l2 e2 =
    let a = due_call first t (some t) n d l in
    let b = due_call second t (some new) n d2 l2 in
    let u = stored_due first.now first.readable t d in
    let v = stored_due second.now second.readable new d3 in
    (rw (a, u, e) refl, rw (a, u, e, s) refl, rw (b, v, e2) refl)
