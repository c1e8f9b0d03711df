-- ===== src/Cache/Server/Handlers.antt =====
-- internal/cache/server.go: the handlers, over the store. Each returns its response and the store.
use multirunner.Common.{
  ℕ, Bool, true, false, Option, none, some, List, ◌∷◌, if◌then◌else◌, Text, codes, text_eq,
}
use multirunner.Pool.Access.{is_empty}
use multirunner.Cache.Store.{
  Slot, Entry, Store, Body, create_upload, Created, created, exists_already, insert_failed,
  upload_part, complete_upload, Completed, completed, no_rows, no_parts, part_mismatch,
  insert_refused, download,
}
use multirunner.Cache.Match.{match_entry}
use multirunner.Cache.BlockId.{Decoders, chunk_index_from_block_id}
use multirunner.Cache.Server.Signing.{sign_id, verify_signed_id}
use multirunner.Cache.Server.Signing as Signing
use multirunner.Cache.Server.Scopes.{
  ScopeInfo, write_scope, scope_strings_by_permission, require_cache_bearer,
}
use multirunner.Cache.Server.Scopes as Scopes

-- The parameters of the handlers, and the access token of this server.
pub record Outside : Type 0 where
  pub signing : Signing.Outside
  pub tokens : Scopes.Outside
  pub decoders : Decoders
  pub like : Text → Text → Bool
  pub access_token : Text

-- A response by its status, or its body. A URL stands by its signed id.
pub data Response : Type 0 where
  unauthorized forbidden bad_request not_found internal_error not_ok acknowledged : Response
  upload_url : Text → Response
  download_url : Text → Text → Response
  finalized : ℕ → Response
  content : Option Text → Response

-- The decoded body of a request.
pub record Lookup : Type 0 where
  pub key : Text
  pub version : Text
  pub restore_keys : List Text

-- protect: the path's token is the server's.
unfoldable pub protect : Outside → Text → Response × Store → Store → Response × Store
protect x path_token served st =
    if text_eq path_token x.access_token then served else (not_found, st)

unfoldable pub created_response : Outside → ℕ → Created × Store → Response × Store
unfolding sign_id
created_response x now (created id, st) = (
  upload_url (sign_id x.signing x.access_token now (codes "upload") (x.signing.format_int id)),
  st,
)
created_response x now (exists_already, st) = (not_ok, st)
created_response x now (insert_failed, st) = (internal_error, st)

abbrev pub slot_for : Lookup → Text → Text → Slot
slot_for body scope repo_id = record {
  key = body.key;
  version = body.version;
  scope = scope;
  repo_id = repo_id;
}

-- handleCreateCacheEntry for an authenticated request; `id` is what randomID gives.
unfoldable pub create_authorized :
    Outside → ℕ → ℕ → Option Lookup → ScopeInfo → Store → Response × Store
unfolding created_response create_upload write_scope
create_authorized x now id none info st = (bad_request, st)
create_authorized x now id (some body) info st =
    if is_empty (write_scope info.scopes)
    then (forbidden, st)
    else created_response x now
        (create_upload id (slot_for body (write_scope info.scopes) info.repo_id) st)

-- requireCacheBearer(s.handleCreateCacheEntry)
unfoldable pub handle_create_cache_entry :
    Outside → ℕ → ℕ → Text → Option Lookup → Store → Response × Store
unfolding require_cache_bearer create_authorized
handle_create_cache_entry x now id auth body st = elim (require_cache_bearer x.tokens auth) [
  | none ↦ (unauthorized, st)
  | some info ↦ create_authorized x now id body info st
]

unfoldable pub matched_response : Outside → ℕ → Option Entry × Store → Response × Store
unfolding sign_id
matched_response x now (none, st) = (not_ok, st)
matched_response x now (some e, st) = (
  download_url (sign_id x.signing x.access_token now (codes "download") (x.signing.format_int e.id))
      e.slot.key,
  st,
)

-- handleGetDownloadURL for an authenticated request; `used` is the time of the entry's use.
unfoldable pub get_authorized :
    Outside → ℕ → ℕ → Option Lookup → ScopeInfo → Store → Response × Store
unfolding matched_response match_entry scope_strings_by_permission
get_authorized x now used none info st = (bad_request, st)
get_authorized x now used (some body) info st = matched_response x now (
    match_entry x.like used (body.key ∷ body.restore_keys) body.version
      (scope_strings_by_permission info.scopes) info.repo_id st)

-- requireCacheBearer(s.handleGetDownloadURL)
unfoldable pub handle_get_download_url :
    Outside → ℕ → ℕ → Text → Option Lookup → Store → Response × Store
unfolding require_cache_bearer get_authorized
handle_get_download_url x now used auth body st = elim (require_cache_bearer x.tokens auth) [
  | none ↦ (unauthorized, st)
  | some info ↦ get_authorized x now used body info st
]

-- The switch on the error of completeUpload.
unfoldable pub completed_response : Completed × Store → Response × Store
completed_response (completed id, st) = (finalized id, st)
completed_response (no_rows, st) = (not_found, st)
completed_response (no_parts, st) = (bad_request, st)
completed_response (part_mismatch, st) = (bad_request, st)
completed_response (insert_refused, st) = (internal_error, st)

-- handleFinalize for an authenticated request, with the two readings of the clock.
unfoldable pub finalize_authorized : ℕ → ℕ → Option Lookup → ScopeInfo → Store → Response × Store
unfolding completed_response complete_upload write_scope
finalize_authorized updated used none info st = (bad_request, st)
finalize_authorized updated used (some body) info st =
    if is_empty (write_scope info.scopes)
    then (forbidden, st)
    else completed_response
        (complete_upload (slot_for body (write_scope info.scopes) info.repo_id) updated used st)

-- requireCacheBearer(s.handleFinalize)
unfoldable pub handle_finalize : Outside → ℕ → ℕ → Text → Option Lookup → Store → Response × Store
unfolding require_cache_bearer finalize_authorized
handle_finalize x updated used auth body st = elim (require_cache_bearer x.tokens auth) [
  | none ↦ (unauthorized, st)
  | some info ↦ finalize_authorized updated used body info st
]

-- The index of a block: 0 without a block id, `none` for an invalid one.
unfoldable pub block_index : Decoders → Text → Option ℕ
unfolding chunk_index_from_block_id
block_index d block_id = if is_empty block_id then some 0 else chunk_index_from_block_id d block_id

unfoldable pub part_response : Bool × Store → Response × Store
part_response (true, st) = (acknowledged, st)
part_response (false, st) = (internal_error, st)

unfoldable pub put_indexed : ℕ → Option ℕ → Body → Store → Response × Store
unfolding part_response upload_part
put_indexed id none body st = (bad_request, st)
put_indexed id (some index) body st = part_response (upload_part id index body st)

-- handleUploadPut behind its signature.
unfoldable pub put_verified : Outside → Option ℕ → Bool → Text → Body → Store → Response × Store
unfolding put_indexed block_index
put_verified x none blocklist block_id body st = (bad_request, st)
put_verified x (some id) blocklist block_id body st =
    if blocklist
    then (acknowledged, st)
    else put_indexed id (block_index x.decoders block_id) body st

-- handleUploadPut, for the path's id, whether the query has comp=blocklist, and its blockid.
unfoldable pub handle_upload_put :
    Outside → ℕ → Text → Bool → Text → Body → Store → Response × Store
unfolding verify_signed_id put_verified
handle_upload_put x now path_id blocklist block_id body st =
    elim (verify_signed_id x.signing x.access_token now (codes "upload") path_id) [
      | none ↦ (forbidden, st)
      | some id ↦ put_verified x (x.signing.parse_int id) blocklist block_id body st
    ]

unfoldable pub download_response : Option (Option Text) → Response
download_response none = not_found
download_response (some body) = content body

-- handleDownload behind its signature: an id that is no number names no entry.
unfoldable pub download_verified : Option ℕ → Store → Response
unfolding download_response download
download_verified none st = not_found
download_verified (some id) st = download_response (download id st)

unfoldable pub serve_download : Outside → Option Text → Store → Response
unfolding download_verified
serve_download x none st = forbidden
serve_download x (some id) st = download_verified (x.signing.parse_int id) st

-- handleDownload
unfoldable pub handle_download : Outside → ℕ → Text → Store → Response
unfolding verify_signed_id serve_download
handle_download x now path_id st =
    serve_download x (verify_signed_id x.signing x.access_token now (codes "download") path_id) st
