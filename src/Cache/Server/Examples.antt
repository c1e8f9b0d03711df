-- ===== src/Cache/Server/Examples.antt =====
-- Tests of the cache's HTTP interface, and the theorems about it at concrete inputs.
use multirunner.Common.{
  ℕ, zero, suc, ◌+◌, ◌-◌, ◌≡◌, refl, ap, true, ◌&&◌, Option, none, some, [], ◌∷◌, Text, codes,
  text_eq, AreBytes, pos, arith,
}
use multirunner.Cache.Lookups.{sqlite_like, sqlite_like-IsLike}
use multirunner.Cache.Store.{Entry, Store, download}
use multirunner.Cache.Server.Signing.{sign_id, verify_signed_id}
use multirunner.Cache.Server.Signing as Signing
use multirunner.Cache.Server.Signed.{IsSigning, verify_signed_id-sign_id}
use multirunner.Cache.Server.Scopes.{
  ScopeEntry, ScopeInfo, Claims, require_cache_bearer, scope_strings_by_permission, write_scope,
}
use multirunner.Cache.Server.Scopes as Scopes
use multirunner.Cache.Server.Handlers.{
  Outside, download_url, Lookup, handle_get_download_url, download_response, handle_download,
}
use multirunner.Cache.Server.Isolation.{Reaches, handle_get_download_url-isolated}

-- A number as so many ones and a zero, which are bytes.
ones : ℕ → Text → Text
ones zero s = 0 ∷ s
ones (suc n) s = 1 ∷ ones n s

unary : Text → Text
unary [] = []
unary (n ∷ s) = ones n (unary s)

ones-AreBytes : (n : ℕ) (s : Text) → AreBytes s → AreBytes (ones n s)
unfolding ones
ones-AreBytes zero s h = (omega arith, h)
ones-AreBytes (suc n) s h = (omega arith, ones-AreBytes n s h)

unary-AreBytes : (s : Text) → AreBytes (unary s)
unfolding unary
unary-AreBytes [] = tt
unary-AreBytes (n ∷ s) = ones-AreBytes n (unary s) (unary-AreBytes s)

-- A number as one character behind the dot.
abbrev parse_character : Text → Option ℕ
parse_character (c ∷ []) = some (c - 47)
parse_character _ = none

abbrev signing : Signing.Outside
signing = record {
  hmac = λ key message. unary message;
  format_int = λ n. (n + 47) ∷ [];
  parse_int = parse_character;
}

character-IsSigning : IsSigning signing
character-IsSigning = record {
  no_dot = λ n small. ground arith;
  parses = λ n small. ap some (omega arith);
  bytes = λ key message. unary-AreBytes message;
}

verify_signed_id-sign_id_example :
    verify_signed_id signing [] 7000
      (codes "upload")
      (sign_id signing [] 100 (codes "upload") (codes "5"))
    ≡ some (codes "5")
verify_signed_id-sign_id_example =
    verify_signed_id-sign_id signing [] 100 7000 (codes "upload") (codes "upload") (codes "5")
      character-IsSigning refl (omega arith)

abbrev scope : Text → ℕ → ScopeEntry
scope name permission = record { scope = name; permission = pos permission }

-- The token may read main, and read and write its branch.
abbrev tokens : Scopes.Outside
tokens = record {
  claims = λ payload. some (record {
    ac = codes "ac";
    repository_id = codes "r";
    scp = codes "Other Actions.Results:1:2";
  });
  scopes = λ ac. scope (codes "main") 1 ∷ scope (codes "branch") 3 ∷ [];
  has_upstream = true;
  list_artifacts = λ run job token. text_eq run (codes "1") && text_eq job (codes "2");
}

abbrev outside : Outside
outside = record {
  signing = signing;
  tokens = tokens;
  decoders = record { std = λ s. none; raw_std = λ s. none; url = λ s. none; raw_url = λ s. none };
  like = sqlite_like;
  access_token = [];
}

sorted : scope_strings_by_permission (tokens.scopes []) ≡ codes "branch" ∷ codes "main" ∷ []
unfolding scope_strings_by_permission
sorted = refl

writes : write_scope (tokens.scopes []) ≡ codes "branch"
unfolding write_scope
writes = refl

no_bearer : require_cache_bearer tokens (codes "a.b") ≡ none
unfolding require_cache_bearer
no_bearer = refl

abbrev stored : Store
stored = record {
  uploads = [];
  entries =
      record {
        id = 5;
        slot = record {
          key = codes "k";
          version = codes "v";
          scope = codes "main";
          repo_id = codes "r";
        };
        part_count = 1;
        updated_at = 1;
        last_used_at = 1;
      }
      ∷ [];
  blobs = (5, (0, codes "x") ∷ []) ∷ [];
}

abbrev asked : Lookup
asked = record { key = codes "k"; version = codes "v"; restore_keys = [] }

abbrev url : Text
url = sign_id signing [] 100 (codes "download") (52 ∷ [])

found :
    (handle_get_download_url outside 100 2 (codes "Bearer a.b") (some asked) stored).0
    ≡ download_url url (codes "k")
unfolding handle_get_download_url sign_id
found = refl

handle_get_download_url-isolated_example :
    (info : ScopeInfo) × (e : Entry) × (require_cache_bearer tokens (codes "Bearer a.b")
      ≡ some info)
    × Reaches info stored e
    × (e.slot.key ≡ codes "k")
    × (handle_download outside 200 url stored ≡ download_response (download e.id stored))
handle_get_download_url-isolated_example =
    handle_get_download_url-isolated outside 100 2 200 (codes "Bearer a.b") asked stored stored url
      (codes "k") sqlite_like-IsLike character-IsSigning (omega arith) ((omega arith), tt) refl
      found
