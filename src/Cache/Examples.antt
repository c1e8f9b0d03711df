-- ===== src/Cache/Examples.antt =====
-- Small caches.
use multirunner.Common.{◌<◌, ◌≤◌, ◌≡◌, refl, ◌⊎◌, true, some, [], ◌∷◌, Text, lookup, put, arith}
use multirunner.Cache.Store.{
  Slot, Entry, Parts, Store, Body, create_upload, upload_part, complete_upload, parts_of, download,
  upload_by_slot, upload_by_id, contiguous, entry_by_id,
}
use multirunner.Cache.Store.Evict.{evict, total_blob_size, folder_size}
use multirunner.Cache.Store.History.{
  empty, here, next, creates, uploads, completes, History-download,
}
use multirunner.Cache.Store.Limits.{evict-bound}
use multirunner.Cache.Store.Orphans.{evict-orphan}
use multirunner.Cache.Store.Sending.{upload_all}
use multirunner.Cache.Store.Transfer.{Delivers, transfer-download}

abbrev npm : Slot
npm = record { key = 110 ∷ []; version = 1 ∷ []; scope = 2 ∷ []; repo_id = 3 ∷ [] }

abbrev chunk : Body
chunk = record { bytes = 65 ∷ 66 ∷ []; whole = true }

abbrev one_upload : Store
unfolding create_upload upload_part complete_upload
one_upload = (complete_upload npm 10 10 (upload_part 7 0 chunk (create_upload 7 npm empty).1).1).1

abbrev npm_entry : Entry
npm_entry = record { id = 7; slot = npm; part_count = 1; updated_at = 10; last_used_at = 10 }

History-download_example : (t : Text) × (download 7 one_upload ≡ some (some t))
unfolding create_upload upload_part complete_upload entry_by_id put lookup
History-download_example =
    History-download one_upload 7 npm_entry
      (next (next (next here (creates 7 npm tt)) (uploads 7 0 chunk)) (completes npm 10 10)) refl

-- The second chunk is sent first, over an entry of the same slot.
abbrev held : Store
held = record {
  uploads = [];
  entries = record { id = 4; slot = npm; part_count = 1; updated_at = 1; last_used_at = 1 } ∷ [];
  blobs = (4, (0, 99 ∷ []) ∷ []) ∷ [];
}

abbrev chunks : Parts
chunks = (1, 66 ∷ 67 ∷ []) ∷ (0, 65 ∷ []) ∷ []

transfer-download_example :
    Delivers 7 chunks (complete_upload npm 10 10 (upload_all 7 chunks (create_upload 7 npm held).1))
unfolding create_upload upload_by_slot upload_by_id parts_of lookup contiguous
transfer-download_example =
    transfer-download 7 npm 10 10 chunks held refl refl refl (refl, tt) ((refl, tt), (tt, tt))
      (omega arith) refl

evict-bound_example :
    (total_blob_size (evict 0 2 held).1.blobs ≤ 2) ⊎ ((evict 0 2 held).1.entries ≡ [])
evict-bound_example = evict-bound 0 2 held (omega arith) (tt, tt)

-- A rejected upload has left its folder 9.
abbrev littered : Store
littered = record held { blobs = (4, (0, 99 ∷ []) ∷ []) ∷ (9, (0, 1 ∷ 2 ∷ 3 ∷ []) ∷ []) ∷ [] }

evict-orphan_example :
    ((evict 0 2 littered).1.entries ≡ []) × (2 < total_blob_size (evict 0 2 littered).1.blobs)
unfolding folder_size lookup
evict-orphan_example =
    evict-orphan 0 2 9 littered (omega arith) ((refl, tt), (tt, tt)) (refl, tt) (omega arith)
