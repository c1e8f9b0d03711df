-- ===== src/Webhook/Signed.antt =====
-- Which requests reach the scaler.
use multirunner.Common.{
  ℕ, zero, suc, ◌+◌, ◌≤◌, ◌<◌, ◌≡◌, ◌⊎◌, inl, inr, refl, sym, ap, true, false, Option, none, some,
  [], ◌∷◌, ◌++◌, length, Text, codes, text_eq_refl, text_eq→≡, starts_with, hex_decode, hex_encode,
  AreBytes, hex_decode-encode, Bool-cases, arith,
}
use multirunner.Autoscale.{Scaler, on_queued}
use multirunner.Webhook.{
  Payload, Request, Outside, take, drop, body_limit, equals_mac, prefix, valid_signature,
  handle_payload, is_blank, handle_body, handle,
}

-- The header carries the HMAC of the body under the secret.
abbrev pub IsSigned : Outside → Text → Text → Text → Type 0
IsSigned x secret header body =
    (starts_with header prefix ≡ true) × (hex_decode (drop 7 header) ≡ some (x.hmac secret body))

equals_mac→≡ : (o : Option Text) (mac : Text) → equals_mac o mac ≡ true → o ≡ some mac
unfolding equals_mac
equals_mac→≡ none mac h = cc
equals_mac→≡ (some got) mac h = ap (λ t. some t) (sym (text_eq→≡ mac got h))

equals_mac_refl : (mac : Text) → equals_mac (some mac) mac ≡ true
unfolding equals_mac
equals_mac_refl mac = text_eq_refl mac

valid-IsSigned :
    (x : Outside) (secret header body : Text)
    → valid_signature x secret header body ≡ true
    → IsSigned x secret header body
unfolding valid_signature
valid-IsSigned x secret header body h = (
  ground (arith, h),
  equals_mac→≡ (hex_decode (drop 7 header)) (x.hmac secret body) (ground (arith, h)),
)

-- Nothing but a signed body, or no secret at all, changes the scaler.
handle_body-authentic :
    (x : Outside) (secret signature event body : Text) (s : Scaler)
    → is_blank secret ≡ false
    → ((handle_body x secret signature event body s).1 ≡ s) ⊎ IsSigned x secret signature body
unfolding handle_body
handle_body-authentic x secret signature event body s h =
    elim (Bool-cases (valid_signature x secret signature body)) [
      | inl k ↦ inr (valid-IsSigned x secret signature body k)
      | inr k ↦ inl (rw (h, k) refl)
    ]

-- With a secret, a request changes the scaler only if its header carries the HMAC of the body, or of
-- its first 2^20 bytes, under that secret.
pub handle-authentic :
    (x : Outside) (secret : Text) (r : Request) (body : Text) (s : Scaler)
    → is_blank secret ≡ false
    → r.body ≡ some body
    → ((handle x secret r s).1 ≡ s) ⊎ IsSigned x secret r.signature (take body_limit body)
unfolding handle
handle-authentic x secret r body s h e =
    rw (e, handle) (handle_body-authentic x secret r.signature r.event (take body_limit body) s h)

take-all : (n : ℕ) (t : Text) → length t ≤ n → take n t ≡ t
unfolding take
take-all zero [] h = refl
take-all zero (c ∷ t) h = absurd (omega (arith, h))
take-all (suc n) [] h = refl
take-all (suc n) (c ∷ t) h = ap (λ u. c ∷ u) (take-all n t (omega (arith, h)))

starts_with-prefix : (mac : Text) → starts_with (prefix ++ mac) prefix ≡ true
starts_with-prefix mac = refl

length-hex : (mac : Text) → length (hex_encode mac) ≡ length mac + length mac
unfolding hex_encode
length-hex [] = refl
length-hex (b ∷ mac) = omega (arith, length-hex mac)

-- The header that GitHub sends.
abbrev pub signature_of : Outside → Text → Text → Text
signature_of x secret body = prefix ++ hex_encode (x.hmac secret body)

signed-valid :
    (x : Outside) (secret body : Text)
    → AreBytes (x.hmac secret body)
    → 0 < length (x.hmac secret body)
    → valid_signature x secret (signature_of x secret body) body ≡ true
unfolding valid_signature drop
signed-valid x secret body a n =
    rw (hex_decode-encode (x.hmac secret body) a, equals_mac_refl (x.hmac secret body))
      (ground (arith, n, length-hex (x.hmac secret body)))

-- A queued event that is signed as GitHub does, in a body of at most 2^20 bytes, is answered with
-- 200 and handed to the scaler with its repository, run and labels. An HMAC is a text of bytes, not
-- empty.
pub handle-delivers :
    (x : Outside) (secret body : Text) (p : Payload) (s : Scaler)
    → AreBytes (x.hmac secret body)
    → 0 < length (x.hmac secret body)
    → length body ≤ body_limit
    → x.unmarshal body ≡ some p
    → p.action ≡ codes "queued"
    → handle x secret
        (record {
          body = some body;
          signature = signature_of x secret body;
          event = codes "workflow_job";
        })
        s
      ≡ (200, on_queued (x.client_for p.full_name) p.full_name p.run_id p.labels s)
unfolding handle handle_body handle_payload
handle-delivers x secret body p s a n l u q =
    rw (take-all body_limit body l, signed-valid x secret body a n, u, handle_payload, q)
      (ground arith)
