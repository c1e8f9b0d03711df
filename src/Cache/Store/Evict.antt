-- ===== src/Cache/Store/Evict.antt =====
-- internal/cache/store.go, evict: entries that are too old, then the least recently used ones while
-- the blobs are too large.
use multirunner.Common.{
  ℕ, ◌+◌, ◌-◌, List, [], ◌∷◌, ◌==◌, ltb, leb, if◌then◌else◌, Table, length, delete, select,
}
use multirunner.Cache.Store.{Entry, Parts, Store, parts_of}

-- touchEntry
unfoldable pub touch_entry : ℕ → ℕ → List Entry → List Entry
touch_entry id now [] = []
touch_entry id now (e ∷ es) =
    (if e.id == id then record e { last_used_at = now } else e) ∷ touch_entry id now es

-- DELETE FROM cache_entries WHERE id=?
unfoldable pub drop_entry : ℕ → List Entry → List Entry
drop_entry id [] = []
drop_entry id (e ∷ es) = let rest = drop_entry id es in if e.id == id then rest else e ∷ rest

-- deleteEntry
unfoldable pub delete_entry : ℕ → Store → Store
unfolding drop_entry
delete_entry id st = record st { entries = drop_entry id st.entries; blobs = delete id st.blobs }

unfoldable pub parts_size : Parts → ℕ
parts_size [] = 0
parts_size ((i, t) ∷ ps) = length t + parts_size ps

-- folderSize
unfoldable pub folder_size : ℕ → Table Parts → ℕ
unfolding parts_size parts_of
folder_size folder b = parts_size (parts_of folder b)

-- totalBlobSize: every folder counts, also one of an upload.
unfoldable pub total_blob_size : Table Parts → ℕ
unfolding parts_size
total_blob_size [] = 0
total_blob_size ((f, ps) ∷ b) = parts_size ps + total_blob_size b

unfoldable pub ids_of : List Entry → List ℕ
ids_of [] = []
ids_of (e ∷ es) = e.id ∷ ids_of es

-- ORDER BY last_used_at ASC
unfoldable pub insert_by_use : Entry → List Entry → List Entry
insert_by_use e [] = e ∷ []
insert_by_use e (f ∷ fs) =
    if leb e.last_used_at f.last_used_at then e ∷ f ∷ fs else f ∷ insert_by_use e fs

unfoldable pub by_use : List Entry → List Entry
unfolding insert_by_use
by_use [] = []
by_use (e ∷ es) = insert_by_use e (by_use es)

-- The first loop: each id is deleted and counted.
unfoldable pub delete_all : List ℕ → ℕ → Store → ℕ × Store
unfolding delete_entry
delete_all [] removed st = (removed, st)
delete_all (id ∷ ids) removed st = delete_all ids (removed + 1) (delete_entry id st)

-- The second loop: `total` is the size that is left. A folder's size is at most the total.
unfoldable pub shrink : ℕ → List ℕ → ℕ → ℕ → Store → ℕ × Store
unfolding delete_entry folder_size
shrink max_bytes [] total removed st = (removed, st)
shrink max_bytes (id ∷ ids) total removed st =
    let rest =
      shrink max_bytes ids (total - folder_size id st.blobs) (removed + 1) (delete_entry id st) in
    if leb total max_bytes then (removed, st) else rest

unfoldable pub evict_old : ℕ → Store → ℕ × Store
unfolding delete_all ids_of
evict_old older_than st =
    if ltb 0 older_than
    then delete_all (ids_of (select (λ e. ltb e.last_used_at older_than) st.entries)) 0 st
    else (0, st)

unfoldable pub evict_large : ℕ → ℕ → Store → ℕ × Store
unfolding shrink total_blob_size ids_of by_use
evict_large max_bytes removed st =
    let total = total_blob_size st.blobs in
    if ltb 0 max_bytes
    then if ltb max_bytes total
      then shrink max_bytes (ids_of (by_use st.entries)) total removed st
      else (removed, st)
    else (removed, st)

-- evict: 0 turns either half off.
unfoldable pub evict : ℕ → ℕ → Store → ℕ × Store
unfolding evict_old evict_large
evict older_than max_bytes st =
    let (removed, st') = evict_old older_than st in evict_large max_bytes removed st'
