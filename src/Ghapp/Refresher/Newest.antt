-- ===== src/Ghapp/Refresher/Newest.antt =====
-- One process alone with its sidecar, as long as no answer of GitHub is lost.
use multirunner.Common.{
  ℕ, ◌≡◌, refl, subst, Bool, true, false, not, ◌&&◌, ◌||◌, ◌⊎◌, inl, inr, Option, none, some, List,
  [], ◌∷◌, leb, Text, All, Bool-cases, if_elim, arith,
}
use multirunner.Pool.Access.{is_empty}
use multirunner.Ghapp.Refresher.{
  Token, Refresher, Rotation, refused, lost, renewed, Replies, Outcome, needs_refresh, retry_save,
  stored_live, adopt, rotate, valid_token, access_token,
}

-- A token that does not outlast another.
abbrev pub no_later : Option ℕ → Option ℕ → Bool
no_later a none = true
no_later none (some e) = false
no_later (some d) (some e) = leb d e

abbrev Old : Option Token → Token → Type 0
Old none t = Unit
Old (some s) t = no_later s.expiry t.expiry ≡ true

-- The sidecar holds the token of the process unless the process knows better, and no later one.
record Kept (r : Refresher) (disk : Option Token) : Type 0 where
  stored : (r.unsaved ≡ true) ⊎ (disk ≡ some r.tok)
  old : Old disk r.tok

-- The newest token that GitHub has issued, after a rotation.
abbrev pub issued : Token → Rotation → Token
issued newest refused = newest
issued newest (lost t) = t
issued newest (renewed t) = t

abbrev pub is_lost : Rotation → Bool
is_lost (lost t) = true
is_lost _ = false

-- The answer to what a call sent is lost.
abbrev pub loses : Replies → Option Text → Bool
loses q none = false
loses q (some refresh) = is_lost (q.refreshed refresh)

-- The newest token after a call.
abbrev pub newest_after : Replies → Token → Option Text → Token
newest_after q newest none = newest
newest_after q newest (some refresh) = issued newest (q.refreshed refresh)

-- A call answers with the newest token, and sends none but the newest refresh token.
abbrev pub Current : Replies → Token → Outcome → Type 0
Current q newest out =
    ((out.sent ≡ none) ⊎ (out.sent ≡ some newest.refresh))
    × ((out.value ≡ none) ⊎ (out.value ≡ some (newest_after q newest out.sent).access))

-- A token that GitHub issues is not due for a refresh at once.
abbrev pub due : ℕ → Rotation → Bool
due now refused = false
due now (lost t) = needs_refresh now t.expiry
due now (renewed t) = needs_refresh now t.expiry

-- The same, and unless the answer was lost the process goes on with the newest token.
record Good (q : Replies) (newest : Token) (out : Outcome) : Type 0 where
  current : Current q newest out
  held : loses q out.sent ≡ false → out.refresher.tok ≡ newest_after q newest out.sent
  kept : Kept out.refresher out.disk

no_later_refl : (e : Option ℕ) → no_later e e ≡ true
no_later_refl none = refl
no_later_refl (some e) = ground arith

-- What is due goes before what is not, and so does all that is no later.
due-no_later :
    (now : ℕ) (s d e : Option ℕ)
    → no_later s d ≡ true
    → needs_refresh now d ≡ true
    → needs_refresh now e ≡ false
    → no_later s e ≡ true
unfolding needs_refresh
due-no_later now s d none n u v = refl
due-no_later now s none (some e) n u v = cc
due-no_later now none (some d) (some e) n u v = cc
due-no_later now (some s) (some d) (some e) n u v = ground arith

due-earlier :
    (now : ℕ) (s d : Option ℕ)
    → no_later s d ≡ true
    → needs_refresh now d ≡ true
    → needs_refresh now s ≡ true
unfolding needs_refresh
due-earlier now s none n u = cc
due-earlier now none (some d) n u = cc
due-earlier now (some s) (some d) n u = ground arith

retry_save-Kept :
    (saved : Bool) (r : Refresher) (disk : Option Token)
    → Kept r disk
    → ((retry_save saved r disk).0.tok ≡ r.tok)
      × Kept (retry_save saved r disk).0 (retry_save saved r disk).1
unfolding retry_save
retry_save-Kept saved r disk k = elim (Bool-cases (r.unsaved && saved)) [
  | inl e ↦ rw e (refl, record { stored = inr refl; old = no_later_refl r.tok.expiry })
  | inr e ↦ rw e (refl, k)
]

-- The sidecar of a process whose token is due holds none that is not.
stored_live-none :
    (q : Replies) (tok : Token) (disk : Option Token)
    → Old disk tok
    → needs_refresh q.now tok.expiry ≡ true
    → stored_live q.now q.readable disk ≡ none
unfolding stored_live
stored_live-none q tok none k u = refl
stored_live-none q tok (some s) k u = rw (due-earlier q.now s.expiry tok.expiry k u) (ground arith)

adopt-Good :
    (q : Replies) (reply : Rotation) (r : Refresher) (disk : Option Token)
    → q.refreshed r.tok.refresh ≡ reply
    → due q.now reply ≡ false
    → needs_refresh q.now r.tok.expiry ≡ true
    → Kept r disk
    → Good q r.tok (adopt reply q.saved r disk)
unfolding adopt
adopt-Good q refused r disk e l u k = record {
  current = (inr refl, inl refl);
  held = λ _. rw e refl;
  kept = k;
}
adopt-Good q (lost t) r disk e l u k = record {
  current = (inr refl, inl refl);
  held = λ h. cc (rw e at h);
  kept = k;
}
adopt-Good q (renewed t) r disk e l u k = record {
  current = (inr refl, inr (rw e refl));
  held = λ _. rw e refl;
  kept = elim (Bool-cases q.saved) [
    | inl b ↦ rw b (record { stored = inr refl; old = no_later_refl t.expiry })
    | inr b ↦ rw b (record { stored = inl refl; old = older disk k.old })
  ];
}
  where
    older : (disk : Option Token) → Old disk r.tok → Old disk t
    older none o = tt
    older (some s) o = due-no_later q.now s.expiry r.tok.expiry t.expiry o u l

unchanged :
    (q : Replies) (value : Option Text) (r : Refresher) (disk : Option Token)
    → (value ≡ none) ⊎ (value ≡ some r.tok.access)
    → Kept r disk
    → Good q r.tok (record { value = value; refresher = r; disk = disk; sent = none })
unchanged q value r disk v k = record { current = (inl refl, v); held = λ _. refl; kept = k }

valid_token-Good :
    (q : Replies) (r : Refresher) (disk : Option Token)
    → due q.now (q.refreshed r.tok.refresh) ≡ false
    → Kept r disk
    → Good q r.tok (valid_token q r disk)
unfolding valid_token rotate
valid_token-Good q r disk l k =
    if_elim (Good q r.tok) (not (needs_refresh q.now r.tok.expiry) || is_empty r.tok.refresh) _ _
      (λ _. unchanged q (some r.tok.access) r disk (inr refl) k)
      (λ e.
        if_elim (Good q r.tok) (not q.locked) _ _ (λ _. unchanged q none r disk (inl refl) k)
          (λ _.
            let u : needs_refresh q.now r.tok.expiry ≡ true = ground arith in
            rw (stored_live-none q r.tok disk k.old u)
              (adopt-Good q (q.refreshed r.tok.refresh) r disk refl l u k)))

access_token-Good :
    (q : Replies) (r : Refresher) (disk : Option Token)
    → due q.now (q.refreshed r.tok.refresh) ≡ false
    → Kept r disk
    → Good q r.tok (access_token q r disk)
unfolding access_token
access_token-Good q r disk l k =
    let (same, kept) = retry_save-Kept q.retried_save r disk k in
    let start = retry_save q.retried_save r disk in
    subst (λ (t : Token). Good q t (valid_token q start.0 start.1)) same
      (valid_token-Good q start.0 start.1 (rw same l) kept)

-- The calls of one process: each call's outcome, with the newest token before it.
abbrev pub calls :
    List Replies → Token → Refresher → Option Token → List (Replies × Token × Outcome)
calls [] newest r disk = []
calls (q ∷ qs) newest r disk =
    let out = access_token q r disk in
    (q, newest, out) ∷ calls qs (newest_after q newest out.sent) out.refresher out.disk

-- Every call is current up to the first whose answer is lost, and that one too.
abbrev pub CurrentUntilLost : List (Replies × Token × Outcome) → Type 0
CurrentUntilLost [] = Unit
CurrentUntilLost ((q, newest, out) ∷ outs) =
    Current q newest out × (loses q out.sent ≡ false → CurrentUntilLost outs)

-- In every call, whatever refresh token is sent, GitHub issues none that is due at once.
abbrev pub Lasting : List Replies → Type 0
Lasting qs = All (λ (q : Replies). (refresh : Text) → due q.now (q.refreshed refresh) ≡ false) qs

calls-Current :
    (qs : List Replies) (newest : Token) (r : Refresher) (disk : Option Token)
    → Lasting qs
    → r.tok ≡ newest
    → Kept r disk
    → CurrentUntilLost (calls qs newest r disk)
calls-Current [] newest r disk l e k = tt
calls-Current (q ∷ qs) newest r disk l e k =
    let g = access_token-Good q r disk (l.0 r.tok.refresh) k in
    let h = subst (λ (t : Token). Good q t (access_token q r disk)) e g in
    (
      h.current,
      λ arrived.
          calls-Current qs (newest_after q newest (access_token q r disk).sent)
            (access_token q r disk).refresher (access_token q r disk).disk l.1 (h.held arrived)
            h.kept,
    )

-- A process that loads its token from the sidecar, which nobody else writes, sends in every call no
-- refresh token but the newest that GitHub issued, and returns the newest access token or an error:
-- whenever the sidecar cannot be locked, read or written, and whatever rotations GitHub refuses, up to
-- and including the first call in which GitHub rotates and its answer is lost. GitHub is taken not to
-- issue a token that is due for a refresh at once.
pub access_token-newest :
    (qs : List Replies) (loaded : Token)
    → Lasting qs
    → CurrentUntilLost (calls qs loaded (record { tok = loaded; unsaved = false }) (some loaded))
access_token-newest qs loaded l =
    calls-Current qs loaded (record { tok = loaded; unsaved = false }) (some loaded) l refl
      (record { stored = inr refl; old = no_later_refl loaded.expiry })
