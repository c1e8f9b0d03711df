-- ===== src/Webhook.antt =====
-- internal/webhook/webhook.go: workflow_job events from GitHub.
--
-- HMAC-SHA256 and the JSON decoder are parameters. A text is its bytes. The scaler is that of
-- Autoscale; what ClientFor gives for a repository is an argument.
pub mod Signed
mod Examples
use multirunner.Common.{
  ℕ, zero, suc, ◌≡◌, Bool, true, false, not, ◌&&◌, ◌||◌, Option, none, some, List, [], ◌∷◌, leb,
  if◌then◌else◌, length, Text, codes, text_eq, starts_with, hex_decode,
}
use multirunner.Autoscale.{Scaler, on_queued}

-- The fields of the payload.
pub record Payload : Type 0 where
  pub action : Text
  pub labels : List Text
  pub run_id : ℕ
  pub full_name : Text

pub record Request : Type 0 where
  pub body : Option Text
  pub signature : Text
  pub event : Text

pub record Outside : Type 0 where
  pub hmac : Text → Text → Text
  pub unmarshal : Text → Option Payload
  pub client_for : Text → Option Text

unfoldable pub take : ℕ → Text → Text
take zero s = []
take (suc n) [] = []
take (suc n) (c ∷ s) = c ∷ take n s

-- header[n:]
unfoldable pub drop : ℕ → Text → Text
drop zero s = s
drop (suc n) [] = []
drop (suc n) (c ∷ s) = drop n s

-- sha256=
abbrev pub prefix : Text
prefix = codes "sha256="

-- hmac.Equal, of a header that was decoded.
unfoldable pub equals_mac : Option Text → Text → Bool
equals_mac none mac = false
equals_mac (some got) mac = text_eq mac got

-- validSignature
unfoldable pub valid_signature : Outside → Text → Text → Text → Bool
unfolding drop hex_decode equals_mac
valid_signature x secret header body =
    if leb (length header) 7 || not (starts_with header prefix)
    then false
    else equals_mac (hex_decode (drop 7 header)) (x.hmac secret body)

-- The part of handle for a workflow_job event.
unfoldable pub handle_payload : Outside → Option Payload → Scaler → ℕ × Scaler
unfolding on_queued
handle_payload x none s = (400, s)
handle_payload x (some p) s =
    if text_eq p.action (codes "queued")
    then (200, on_queued (x.client_for p.full_name) p.full_name p.run_id p.labels s)
    else (200, s)

abbrev pub is_blank : Text → Bool
is_blank [] = true
is_blank (c ∷ s) = false

-- The part of handle behind the body that was read.
unfoldable pub handle_body : Outside → Text → Text → Text → Text → Scaler → ℕ × Scaler
unfolding valid_signature handle_payload
handle_body x secret signature event body s =
    if not (is_blank secret) && not (valid_signature x secret signature body)
    then (401, s)
    else if text_eq event (codes "ping")
    then (200, s)
    else if text_eq event (codes "workflow_job")
    then handle_payload x (x.unmarshal body) s
    else (204, s)

abbrev pub body_limit : ℕ
body_limit = 1048576

-- handle: the status, and the scaler after it.
unfoldable pub handle : Outside → Text → Request → Scaler → ℕ × Scaler
unfolding take handle_body
handle x secret r s = elim r.body [
  | none ↦ (400, s)
  | some body ↦ handle_body x secret r.signature r.event (take body_limit body) s
]
