-- ===== src/Cache/Server/Isolation.antt =====
-- Which entries a token can reach.
use multirunner.Common.{
  ℕ, ◌+◌, ◌<◌, ◌^◌, All, ◌≡◌, refl, sym, ap, subst, ◌∙◌, Bool, true, ◌&&◌, ◌||◌, Option, none, some,
  List, [], ◌∷◌, if◌then◌else◌, leb, any, Text, codes, text_eq, text_eq→≡, lt_int, Bool-cases,
  Option-cases, inl, inr, arith,
}
use multirunner.Cache.Store.{Entry, Store, download}
use multirunner.Cache.Match.Prefix.{IsLike}
use multirunner.Cache.Match.Finding.{Among, Among-All, Answer, fits, fits_any, match_entry-Answer}
use multirunner.Cache.Server.Signing.{sign_id}
use multirunner.Cache.Server.Signed.{IsSigning, verify_signed_id-sign_id}
use multirunner.Cache.Server.Scopes.{
  ScopeEntry, ScopeInfo, insert_scope, sort_scopes, scope_names, scope_strings_by_permission,
  require_cache_bearer,
}
use multirunner.Cache.Server.Handlers.{
  Outside, unauthorized, download_url, Lookup, matched_response, get_authorized,
  handle_get_download_url, download_response, download_verified, serve_download, handle_download,
}

-- A token names this scope.
abbrev pub in_scope : Text → List ScopeEntry → Bool
in_scope scope scopes = any (λ (sc : ScopeEntry). text_eq scope sc.scope) scopes

in_scope-insert :
    (scope : Text) (sc : ScopeEntry) (scopes : List ScopeEntry)
    → in_scope scope (insert_scope sc scopes) ≡ (text_eq scope sc.scope || in_scope scope scopes)
unfolding insert_scope
in_scope-insert scope sc [] = refl
in_scope-insert scope sc (d ∷ scopes) = elim (Bool-cases (lt_int sc.permission d.permission)) [
  | inl e ↦ rw e (ground (arith, in_scope-insert scope sc scopes))
  | inr e ↦ rw e refl
]

in_scope-sort :
    (scope : Text) (scopes : List ScopeEntry)
    → in_scope scope (sort_scopes scopes) ≡ in_scope scope scopes
unfolding sort_scopes
in_scope-sort scope [] = refl
in_scope-sort scope (sc ∷ scopes) =
    in_scope-insert scope sc (sort_scopes scopes)
    ∙ ap (λ (b : Bool). text_eq scope sc.scope || b) (in_scope-sort scope scopes)

any-scope_names :
    (scope : Text) (scopes : List ScopeEntry)
    → any (text_eq scope) (scope_names scopes) ≡ in_scope scope scopes
unfolding scope_names
any-scope_names scope [] = refl
any-scope_names scope (sc ∷ scopes) =
    ap (λ (b : Bool). text_eq scope sc.scope || b) (any-scope_names scope scopes)

any-fits :
    (version repo_id : Text) (keys : List Text) (scope : Text) (e : Entry)
    → any (λ key. fits version repo_id key scope e) keys ≡ true
    → (text_eq e.slot.scope scope ≡ true) × (text_eq e.slot.repo_id repo_id ≡ true)
any-fits version repo_id [] scope e h = cc
any-fits version repo_id (key ∷ keys) scope e h =
    elim (Bool-cases (fits version repo_id key scope e)) [
      | inl f ↦ ground arith
      | inr f ↦ any-fits version repo_id keys scope e (rw f at h)
    ]

fits_any-scope :
    (version repo_id : Text) (keys scopes : List Text) (e : Entry)
    → fits_any version repo_id keys scopes e ≡ true
    → (any (text_eq e.slot.scope) scopes ≡ true) × (text_eq e.slot.repo_id repo_id ≡ true)
fits_any-scope version repo_id keys [] e h = cc
fits_any-scope version repo_id keys (scope ∷ scopes) e h =
    elim (Bool-cases (any (λ key. fits version repo_id key scope e) keys)) [
      | inl f ↦ let (a, b) = any-fits version repo_id keys scope e f in (rw a refl, b)
      | inr f ↦
          let (a, b) = fits_any-scope version repo_id keys scopes e (rw f at h) in (ground arith, b)
    ]

-- What a found entry has to do with the request.
pub record Reaches (info : ScopeInfo) (st : Store) (e : Entry) : Type 0 where
  pub among : Among e st.entries
  pub repository : e.slot.repo_id ≡ info.repo_id
  pub scope : in_scope e.slot.scope info.scopes ≡ true

matched_response-url :
    (x : Outside) (now : ℕ) (url key : Text) (found : Option Entry × Store)
    → (matched_response x now found).0 ≡ download_url url key
    → (e : Entry) × (found.0 ≡ some e)
      × (e.slot.key ≡ key)
      × (url ≡ sign_id x.signing x.access_token now (codes "download") (x.signing.format_int e.id))
unfolding matched_response
matched_response-url x now url key (none, st) h = absurd (cc)
matched_response-url x now url key (some e, st) h = (e, refl, cc, cc)

get_authorized-Reaches :
    (x : Outside) (now used : ℕ) (body : Lookup) (info : ScopeInfo) (st : Store) (url key : Text)
    → IsLike x.like
    → (get_authorized x now used (some body) info st).0 ≡ download_url url key
    → (e : Entry) × Reaches info st e
      × (e.slot.key ≡ key)
      × (url ≡ sign_id x.signing x.access_token now (codes "download") (x.signing.format_int e.id))
unfolding get_authorized scope_strings_by_permission
get_authorized-Reaches x now used body info st url key l h =
    let scopes = scope_strings_by_permission info.scopes in
    let (e, found, k, u) = matched_response-url x now url key _ h in
    let fit = fits_any body.version info.repo_id (body.key ∷ body.restore_keys) scopes in
    let answer = subst (Answer fit st.entries) found (
      match_entry-Answer x.like used body.key body.restore_keys body.version scopes info.repo_id st
        l) in
    let (inside, repository) =
      fits_any-scope body.version info.repo_id (body.key ∷ body.restore_keys) scopes e answer.1 in
    (
      e,
      record {
        among = answer.0;
        repository = text_eq→≡ e.slot.repo_id info.repo_id repository;
        scope =
            sym (in_scope-sort e.slot.scope info.scopes)
            ∙ sym (any-scope_names e.slot.scope (sort_scopes info.scopes))
            ∙ inside;
      },
      k,
      u,
    )

handle_download-signed :
    (x : Outside) (now later id : ℕ) (st : Store)
    → IsSigning x.signing
    → now + 7200 < 2 ^ 63
    → id < 2 ^ 63
    → leb later (now + 7200) ≡ true
    → handle_download x later
        (sign_id x.signing x.access_token now (codes "download") (x.signing.format_int id))
        st
      ≡ download_response (download id st)
unfolding handle_download serve_download
handle_download-signed x now later id st good small int64 soon =
    let verified =
      verify_signed_id-sign_id x.signing x.access_token now later (codes "download")
        (codes "download") (x.signing.format_int id) good (good.no_dot id int64) small in
    let granted =
      verified
      ∙ ap (λ (b : Bool). if b && true then some (x.signing.format_int id) else none) soon in
    ap (λ (v : Option Text). serve_download x v st) granted
    ∙ ap (λ (n : Option ℕ). download_verified n st) (good.parses id int64)

-- A download URL is given out only for a request with a valid token, and only for an entry of the
-- token's repository, in one of the token's scopes. For two hours, the URL serves this entry and
-- nothing else, whatever the store then is. SQLite's LIKE, the HMAC and the conversions of int64 are as
-- documented; the ids of the entries and the time of expiry are below 2^63.
pub handle_get_download_url-isolated :
    (x : Outside) (now used later : ℕ) (auth : Text) (body : Lookup) (st then_st : Store)
    (url key : Text)
    → IsLike x.like
    → IsSigning x.signing
    → now + 7200 < 2 ^ 63
    → All (λ (e : Entry). e.id < 2 ^ 63) st.entries
    → leb later (now + 7200) ≡ true
    → (handle_get_download_url x now used auth (some body) st).0 ≡ download_url url key
    → (info : ScopeInfo) × (e : Entry) × (require_cache_bearer x.tokens auth ≡ some info)
      × Reaches info st e
      × (e.slot.key ≡ key)
      × (handle_download x later url then_st ≡ download_response (download e.id then_st))
unfolding handle_get_download_url
handle_get_download_url-isolated x now used later auth body st then_st url key l good small ids soon
      h =
    elim (Option-cases (require_cache_bearer x.tokens auth)) [
      | inl e ↦ absurd (cc (refused e))
      | inr (info, e) ↦
          let (entry, reaches, k, u) =
            get_authorized-Reaches x now used body info st url key l (rw e at h) in
          (
            info,
            entry,
            e,
            reaches,
            k,
            rw u (
                handle_download-signed x now later entry.id then_st good small
                  (Among-All (λ (r : Entry). r.id < 2 ^ 63) reaches.among ids) soon),
          )
    ]
  where
    refused : require_cache_bearer x.tokens auth ≡ none → unauthorized ≡ download_url url key
    refused e = rw e at h
