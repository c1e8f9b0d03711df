-- ===== src/Cache/Server/Signed.antt =====
-- A signed id is good for its kind and its id, for two hours.
use multirunner.Common.{
  ℕ, ◌+◌, ◌/◌, ◌%◌, ◌<◌, ◌^◌, ◌≡◌, refl, Bool, true, false, ◌&&◌, ◌||◌, none, some, [], ◌∷◌, ◌++◌,
  ◌==◌, ltb, leb, if◌then◌else◌, any, Text, text_eq, text_eq_refl, text_eq→≡, hex_encode, AreBytes,
  hex_decode-encode, Bool-cases, inl, inr, arith,
}
use multirunner.Config.Strings.{split, split_first}
use multirunner.Cache.Server.Signing.{
  Outside, signed_message, sign_id, verify_mac, verify_expiry, verify_parts, verify_signed_id,
}

abbrev pub has_dot : Text → Bool
has_dot s = any (λ c. c == 46) s

split_first-dot :
    (s rest : Text) → has_dot s ≡ false → split_first 46 (s ++ 46 ∷ rest) ≡ (s, split 46 rest)
split_first-dot [] rest h = refl
split_first-dot (c ∷ s) rest h =
    let apart : ((c == 46) ≡ false) × (has_dot s ≡ false) = ground arith in
    rw (apart.0, split_first-dot s rest apart.1) refl

split_first-alone : (s : Text) → has_dot s ≡ false → split_first 46 s ≡ (s, [])
split_first-alone [] h = refl
split_first-alone (c ∷ s) h =
    let apart : ((c == 46) ≡ false) × (has_dot s ≡ false) = ground arith in
    rw (apart.0, split_first-alone s apart.1) refl

split-three :
    (a b c : Text)
    → has_dot a ≡ false
    → has_dot b ≡ false
    → has_dot c ≡ false
    → split 46 (a ++ 46 ∷ (b ++ 46 ∷ c)) ≡ a ∷ b ∷ c ∷ []
split-three a b c p q r =
    let whole = split_first-dot a (b ++ 46 ∷ c) p in
    let behind = split_first-dot b c q in
    let last = split_first-alone c r in rw (whole, behind, last) refl

hex_encode-no_dot : (s : Text) → AreBytes s → has_dot (hex_encode s) ≡ false
unfolding hex_encode
hex_encode-no_dot [] h = refl
hex_encode-no_dot (b ∷ s) h =
    let high : b / 16 < 16 = omega (arith, h.0) in
    let low : b % 16 < 16 = omega arith in
    ground (arith, digit-no_dot (b / 16), digit-no_dot (b % 16), hex_encode-no_dot s h.1)
  where
    digit-no_dot : (n : ℕ) → ((if ltb n 10 then n + 48 else n + 87) == 46) ≡ false
    digit-no_dot n = ground arith

-- What the standard library documents: the decimal number of an int64 has no dot and parses to itself,
-- and an HMAC is made of bytes.
pub record IsSigning (x : Outside) : Type 0 where
  pub no_dot : (n : ℕ) → n < 2 ^ 63 → has_dot (x.format_int n) ≡ false
  pub parses : (n : ℕ) → n < 2 ^ 63 → x.parse_int (x.format_int n) ≡ some n
  pub bytes : (key message : Text) → AreBytes (x.hmac key message)

-- The message of one kind of transfer has the MAC of the other kind's.
abbrev pub same_mac : Outside → Text → Text → Text → Text → Text → Bool
same_mac x key kind other id expires =
    text_eq (x.hmac key (signed_message kind id expires))
      (x.hmac key (signed_message other id expires))

same_mac_refl :
    (x : Outside) (key kind other id expires : Text)
    → text_eq other kind ≡ true
    → same_mac x key kind other id expires ≡ true
same_mac_refl x key kind other id expires e =
    rw (text_eq→≡ other kind e) (text_eq_refl (x.hmac key (signed_message kind id expires)))

-- A signed id that the server gave out at a time verifies for two hours as the id that it was given
-- for, and later as nothing: for the same kind of transfer, and for another kind only if the MACs of
-- the two messages, which differ in the kind, are the same. The id has no dot, and the time of expiry
-- is below 2^63 seconds.
pub verify_signed_id-sign_id :
    (x : Outside) (key : Text) (now later : ℕ) (kind other id : Text)
    → IsSigning x
    → has_dot id ≡ false
    → now + 7200 < 2 ^ 63
    → verify_signed_id x key later other (sign_id x key now kind id) ≡ (
        if leb later (now + 7200)
          && (text_eq other kind || same_mac x key kind other id (x.format_int (now + 7200)))
        then some id
        else none)
unfolding verify_signed_id verify_parts verify_expiry verify_mac sign_id signed_message
verify_signed_id-sign_id x key now later kind other id good d small =
    let expires = x.format_int (now + 7200) in
    let mac = x.hmac key (kind ++ 10 ∷ (id ++ 10 ∷ expires)) in
    let signed = good.bytes key (kind ++ 10 ∷ (id ++ 10 ∷ expires)) in
    let parts =
      split-three id expires (hex_encode mac) d (good.no_dot (now + 7200) small)
        (hex_encode-no_dot mac signed) in
    let decoded = hex_decode-encode mac signed in
    elim (Bool-cases (text_eq other kind)) [
      | inl e ↦
          let same = same_mac_refl x key kind other id expires e in
          rw (parts, good.parses (now + 7200) small, decoded) (ground (arith, e, same))
      | inr e ↦ rw (parts, good.parses (now + 7200) small, decoded) (ground (arith, e))
    ]
