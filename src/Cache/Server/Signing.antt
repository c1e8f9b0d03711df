-- ===== src/Cache/Server/Signing.antt =====
-- internal/cache/server.go: the signed ids in the URLs of uploads and downloads.
use multirunner.Common.{
  ℕ, ◌+◌, ◌*◌, Option, none, some, List, [], ◌∷◌, ◌++◌, ltb, if◌then◌else◌, Text, text_eq,
  hex_encode, hex_decode,
}
use multirunner.Config.Strings.{split}

pub record Outside : Type 0 where
  pub hmac : Text → Text → Text
  pub format_int : ℕ → Text
  pub parse_int : Text → Option ℕ

-- What is signed.
unfoldable pub signed_message : Text → Text → Text → Text
signed_message kind id expires = kind ++ 10 ∷ (id ++ 10 ∷ expires)

abbrev pub url_lifetime : ℕ
url_lifetime = 2 * 3600

-- signID, at a time.
unfoldable pub sign_id : Outside → Text → ℕ → Text → Text → Text
unfolding signed_message
sign_id x access_token now kind id =
    let expires = x.format_int (now + url_lifetime) in
    id ++ 46 ∷ (expires ++ 46 ∷ hex_encode (x.hmac access_token (signed_message kind id expires)))

-- The last test of verifySignedID, on the decoded signature.
unfoldable pub verify_mac : Outside → Text → Text → Text → Text → Option Text → Option Text
unfolding signed_message
verify_mac x access_token kind id expires none = none
verify_mac x access_token kind id expires (some got) =
    if text_eq got (x.hmac access_token (signed_message kind id expires)) then some id else none

unfoldable pub verify_expiry :
    Outside → Text → ℕ → Text → Text → Text → Text → Option ℕ → Option Text
unfolding verify_mac
verify_expiry x access_token now kind id expires hex none = none
verify_expiry x access_token now kind id expires hex (some until) =
    if ltb until now then none else verify_mac x access_token kind id expires (hex_decode hex)

-- The three parts of a signed id.
unfoldable pub verify_parts : Outside → Text → ℕ → Text → List Text → Option Text
unfolding verify_expiry
verify_parts x access_token now kind (id ∷ expires ∷ hex ∷ []) =
    verify_expiry x access_token now kind id expires hex (x.parse_int expires)
verify_parts x access_token now kind _ = none

-- verifySignedID, at a time.
unfoldable pub verify_signed_id : Outside → Text → ℕ → Text → Text → Option Text
unfolding verify_parts
verify_signed_id x access_token now kind signed =
    verify_parts x access_token now kind (split 46 signed)
